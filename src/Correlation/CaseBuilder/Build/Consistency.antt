-- ===== src/Correlation/CaseBuilder/Build/Consistency.antt =====
-- The document of `InvestigationCaseBuilder.build` (backend/app/engines/correlation/investigation/
-- case_builder.py) in itself: what it refers to, and its severity.
use net_sleuth_ai.Shared.{
  ℕ, ◌≤◌, max, String, Bool, true, false, not, ◌||◌, Option, none, some, leb, Bool-cases, List, [],
  ◌∷◌, ◌++◌, map, ap, ◌==◌, ◌≡◌, refl, arith, inl, inr, ◌⊎◌, ==-exclusive, if◌then◌else◌, eqb,
  is_empty, any, All, All-map, ok,
}
use net_sleuth_ai.Correlation.Domain.{Timestamp}
use net_sleuth_ai.Correlation.Mitre.{MitreMapping}
use net_sleuth_ai.Correlation.Entities.{CaseEvidence, FindingReference, InvestigationContext}
use net_sleuth_ai.Correlation.Investigation.Context.{HypothesisValidation, ValidationStatus}
use net_sleuth_ai.Correlation.CaseBuilder.Document.{
  TimelineEntry, RelationshipEntry, EvidenceEntry, HypothesisEntry, ValidationEntry, RootCauseEntry,
  ImpactEntry, MitreEntry, Assessment, CaseDocument,
}
use net_sleuth_ai.Correlation.CaseBuilder.Entries.{
  timeline_entry, relationship_entry, evidence_entry,
}
use net_sleuth_ai.Correlation.CaseBuilder.Assessed.{
  hypothesis_entry, validation_entry, root_cause_entry, impact_entry, mitre_entry,
}
use net_sleuth_ai.Correlation.CaseBuilder.Build.{
  declared_ev_ids, severity_rank, max_severity, severity, assessment_of, assembled, build,
}
use net_sleuth_ai.Correlation.CaseBuilder.Build.Checks.{
  Declared, IsBacked, IsAssessable, IsBuildable,
}
use net_sleuth_ai.Correlation.CaseBuilder.Build.Acceptance.{is_schema_valid, Passed, build-Passed}

abbrev pub declared_of : CaseDocument → List String
declared_of doc = map (λ (e : EvidenceEntry). e.evidence_id) doc.evidence_references

-- Evidence for a decision, none needed where there is none.
abbrev HasEvidence : ValidationEntry → Type 0
HasEvidence v =
    (v.validation_status == "INCONCLUSIVE"
      || not (is_empty v.supporting_evidence_ids)
      || not (is_empty v.contradicting_evidence_ids))
    ≡ true

pub record IsSound (declared : List String) (a : Assessment) : Type 0 where
  pub hypotheses :
      All (λ (h : HypothesisEntry). Declared declared h.supporting_evidence_ids) a.hypotheses
  pub supporting :
      All
        (λ (v : ValidationEntry).
          Declared declared (v.supporting_evidence_ids ++ v.contradicting_evidence_ids))
        a.hypothesis_validations
  pub decided : All HasEvidence a.hypothesis_validations
  pub root_causes :
      All (λ (rc : RootCauseEntry). Declared declared rc.supporting_evidence_ids) a.root_causes
  pub impacts :
      All (λ (i : ImpactEntry). Declared declared i.supporting_evidence_ids) a.impact_assessments

abbrev pub IsSound? : List String → Option Assessment → Type 0
IsSound? declared none = Unit
IsSound? declared (some a) = IsSound declared a

-- What the document refers to is declared in it.
pub record IsConsistent (doc : CaseDocument) : Type 0 where
  pub timeline : All (λ (t : TimelineEntry). Declared (declared_of doc) t.evidence_ids) doc.timeline
  pub relationships :
      All (λ (r : RelationshipEntry). Declared (declared_of doc) r.evidence_ids) doc.relationships
  pub assessment : IsSound? (declared_of doc) doc.assessment

map-evidence_entry :
    (es : List CaseEvidence)
    → map (λ (e : EvidenceEntry). e.evidence_id) (map evidence_entry es)
      ≡ map (λ (e : CaseEvidence). e.evidence_id) es
unfolding evidence_entry
map-evidence_entry [] = refl
map-evidence_entry (e ∷ es) = ap (λ l. e.evidence_id ∷ l) (map-evidence_entry es)

module _ (isoformat : Timestamp → String) where
  validation_entry-HasEvidence :
      (declared : List String) (v : HypothesisValidation)
      → IsBacked declared v
      → HasEvidence (validation_entry isoformat v)
  unfolding validation_entry
  validation_entry-HasEvidence declared v b = by_status v.validation_status refl
    where
      by_status :
          (s : ValidationStatus)
          → v.validation_status ≡ s
          → HasEvidence (validation_entry isoformat v)
      by_status ValidationStatus.validated e = ground (arith, b.backed, e)
      by_status ValidationStatus.rejected e = ground (arith, b.backed, e)
      by_status ValidationStatus.inconclusive e = rw e refl

  assessment_of-IsSound :
      (is_valid : String → CaseDocument → Bool) (declared : List String)
      (ctx : InvestigationContext)
      → IsAssessable declared ctx
      → IsSound declared (assessment_of isoformat is_valid ctx)
  unfolding assessment_of hypothesis_entry validation_entry root_cause_entry impact_entry
  assessment_of-IsSound is_valid declared ctx b = record {
    hypotheses = All-map _ _ (hypothesis_entry isoformat) (λ h d. d) ctx.hypotheses b.hypotheses;
    supporting =
        All-map (IsBacked declared) _ (validation_entry isoformat) (λ v d. d.declared_ids)
          ctx.hypothesis_validations b.validations;
    decided =
        All-map (IsBacked declared) HasEvidence (validation_entry isoformat)
          (validation_entry-HasEvidence declared) ctx.hypothesis_validations b.validations;
    root_causes = All-map _ _ root_cause_entry (λ rc d. d) ctx.root_causes b.root_causes;
    impacts = All-map _ _ impact_entry (λ a d. d) ctx.impact_assessments b.impacts;
  }

module _ (isoformat : Timestamp → String) (is_valid : String → CaseDocument → Bool) where
  assembled-IsConsistent :
      (ctx : InvestigationContext) (id : String) (first last : Timestamp) (a : Option Assessment)
      → IsBuildable ctx
      → IsSound? (declared_ev_ids ctx) a
      → IsConsistent (assembled isoformat is_valid ctx id first last a)
  unfolding assembled timeline_entry relationship_entry
  assembled-IsConsistent ctx id first last a b sound =
      let same = map-evidence_entry ctx.evidence_references in
      record {
        timeline =
            rw same
              (All-map _ _ (timeline_entry isoformat) (λ t d. d) ctx.timeline_events b.events);
        relationships = rw same (
            All-map _ _ (relationship_entry isoformat) (λ r d. d) ctx.relationships
              b.relationships);
        assessment = rw same sound;
      }

  -- In a document that the builder returns, every evidence identifier of an event, a relationship,
  -- a hypothesis, a validation, a root cause or an impact is declared, each validation with a
  -- decision has evidence, and without the findings' metadata the document passes the check against
  -- the schema of its version.
  pub build-IsConsistent :
      (ctx : InvestigationContext) (doc : CaseDocument)
      → build isoformat is_valid ctx ≡ ok doc
      → IsConsistent doc × (is_schema_valid isoformat is_valid doc ≡ true)
  build-IsConsistent ctx doc h =
      let p = build-Passed isoformat is_valid ctx h in
      (rw p.document (consistent p), p.schema_valid)
    where
      consistent :
          (p : Passed isoformat is_valid ctx doc)
          → IsConsistent
              (assembled isoformat is_valid ctx p.case_id p.bounds.0 p.bounds.1 p.assessment)
      consistent p =
          assembled-IsConsistent ctx p.case_id p.bounds.0 p.bounds.1 p.assessment p.buildable
            (sound p.assessment p.as_assessed)
        where
          sound :
              (a : Option Assessment)
              → (a ≡ none) ⊎ (a ≡ some (assessment_of isoformat is_valid ctx))
              → IsSound? (declared_ev_ids ctx) a
          sound a (inl e) = rw e tt
          sound a (inr e) = rw e (
              assessment_of-IsSound isoformat is_valid (declared_ev_ids ctx) ctx
                p.buildable.assessable)

module _ (isoformat : Timestamp → String) (is_valid : String → CaseDocument → Bool) where
  -- The evidence of the mappings, which the builder does not check.
  pub build-mitre_mappings :
      (ctx : InvestigationContext) (doc : CaseDocument)
      → build isoformat is_valid ctx ≡ ok doc
      → All (λ (m : MitreMapping). Declared (declared_ev_ids ctx) m.evidence_ids) ctx.mitre_mappings
      → All (λ (m : MitreEntry). Declared (declared_of doc) m.evidence_ids) doc.mitre_mappings
  unfolding assembled mitre_entry
  build-mitre_mappings ctx doc h d =
      rw
        (
          (build-Passed isoformat is_valid ctx h).document,
          map-evidence_entry ctx.evidence_references,
        )
        (All-map _ _ (mitre_entry isoformat) (λ m k. k) ctx.mitre_mappings d)

abbrev has_severity : String → List FindingReference → Bool
has_severity sev = any (λ f. f.severity == sev)

rank_lem :
    (s : String)
    → (s == "critical" ≡ true → severity_rank s ≡ 4)
      × (s == "critical" ≡ false → s == "high" ≡ true → severity_rank s ≡ 3)
      × (s == "critical" ≡ false → s == "high" ≡ false → severity_rank s ≤ 2)
rank_lem s = (
  λ h. ground (arith, h, ==-exclusive s "critical" "" refl),
  λ h k. ground (arith, h, k, ==-exclusive s "high" "" refl),
  λ h k. ground (arith, h, k),
)

rank_le : (s : String) → severity_rank s ≤ 4
rank_le s = ground arith

max_lem : (m r : ℕ) → max m r ≡ (if leb m r then r else m)
max_lem m r = ground arith

max_severity-rank :
    (fs : List FindingReference) (m : ℕ)
    → 2 ≤ m
    → m ≤ 4
    → max_severity fs m ≡ (
        if has_severity "critical" fs || eqb m 4
        then 4
        else if has_severity "high" fs || eqb m 3
        then 3
        else 2)
unfolding max_severity
max_severity-rank [] m h k = ground arith
max_severity-rank (f ∷ fs) m h k =
    let r = severity_rank f.severity in
    let ranks = rank_lem f.severity in
    let bound : r ≤ 4 = rank_le f.severity in
    let ih =
      max_severity-rank fs (max m r) (omega (arith, max_lem m r))
        (omega (arith, max_lem m r, bound)) in
    elim (Bool-cases (f.severity == "critical")) [
      | inl c ↦ ground (arith, ih, c, ranks.0 c, max_lem m r)
      | inr c ↦ elim (Bool-cases (f.severity == "high")) [
        | inl d ↦ ground (arith, ih, c, d, ranks.1 c d, max_lem m r)
        | inr d ↦ ground (arith, ih, c, d, ranks.2 c d, max_lem m r)
      ]
    ]

-- The severity of a case is "critical" if a finding's is, "high" if a finding's is and none is
-- "critical", and "medium" otherwise: it is never "low".
pub severity-of_findings :
    (fs : List FindingReference)
    → severity fs ≡ (
        if has_severity "critical" fs
        then "critical"
        else if has_severity "high" fs
        then "high"
        else "medium")
unfolding severity
severity-of_findings fs = ground (arith, max_severity-rank fs 2 (omega arith) (omega arith))
