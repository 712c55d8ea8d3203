-- ===== src/Correlation/Rules/Preservation.antt =====
-- What `apply_rules` keeps of a context, and what holds of all relationships or events afterwards.
use net_sleuth_ai.Shared.{
  Bool, List, [], ◌∷◌, ◌≡◌, refl, if_ind, All, All-append, All-select, All-sort_by, count,
  count-sort_by,
}
use net_sleuth_ai.Correlation.Entities.{Relationship, InvestigationContext}
use net_sleuth_ai.Correlation.Investigation.Context.{TimelineEvent}
use net_sleuth_ai.Correlation.Rules.{
  Link, relation_exists, relationship, add_rel, add_rels, rule_links, is_anchored, no_later,
  apply_rules, correlate,
}

pub record Keeps (ctx out : InvestigationContext) : Type 0 where
  pub case_id : out.case_id ≡ ctx.case_id
  pub findings : out.findings ≡ ctx.findings
  pub entities : out.entities ≡ ctx.entities
  pub evidence_references : out.evidence_references ≡ ctx.evidence_references

pub correlate-Keeps : (ctx : InvestigationContext) → Keeps ctx (correlate ctx)
unfolding correlate apply_rules
correlate-Keeps ctx = record {
  case_id = refl;
  findings = refl;
  entities = refl;
  evidence_references = refl;
}

module _ (P : Relationship → Type 0) (of_link : (l : Link) → P (relationship l)) where
  add_rels-All :
      (old : List Relationship) (ls : List Link) (new : List Relationship)
      → All P new
      → All P (add_rels old ls new)
  unfolding add_rels add_rel
  add_rels-All old [] new h = h
  add_rels-All old (l ∷ ls) new h = add_rels-All old ls _ (
      if_ind (All P) (relation_exists old new l.src l.tgt l.rel_type) (λ _. h)
        (λ _. All-append P new _ h (of_link l, tt)))

  pub correlate-relationships :
      (ctx : InvestigationContext) → All P ctx.relationships → All P (correlate ctx).relationships
  unfolding correlate apply_rules
  correlate-relationships ctx h =
      All-append P _ _ (All-select P (is_anchored ctx.entities) ctx.relationships h)
        (add_rels-All ctx.relationships (rule_links ctx.entities) [] tt)

pub correlate-timeline :
    (P : TimelineEvent → Type 0) (ctx : InvestigationContext)
    → All P ctx.timeline_events
    → All P (correlate ctx).timeline_events
unfolding correlate apply_rules
correlate-timeline P ctx h = All-sort_by no_later P ctx.timeline_events h

pub correlate-count :
    (p : TimelineEvent → Bool) (ctx : InvestigationContext)
    → count p (correlate ctx).timeline_events ≡ count p ctx.timeline_events
unfolding correlate apply_rules
correlate-count p ctx = count-sort_by no_later p ctx.timeline_events
