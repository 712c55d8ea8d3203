-- ===== src/Correlation/CaseBuilder/AttackChain.antt =====
-- `InvestigationCaseBuilder._build_attack_chain` (backend/app/engines/correlation/investigation/
-- case_builder.py).
pub mod Stages
use net_sleuth_ai.Shared.{
  ℕ, ◌≤◌, String, Bool, true, false, not, ◌&&◌, ◌||◌, Option, none, some, List, [], ◌∷◌, map, ◌==◌,
  eq_iff, ◌≡◌, refl, arith, inl, inr, if◌then◌else◌, Bool-cases, any, elem, select, select-of_eq,
  is_empty, is_empty-select, select-of_none, count, count-sort_by, concat, text_leb, text_leb-total,
  sort_by, Ordered, sort_by-Ordered, Distinct, if_ind, All,
}
use net_sleuth_ai.Correlation.Domain.{Timestamp}
use net_sleuth_ai.Correlation.Mitre.{MappingStatus, MitreMapping}
use net_sleuth_ai.Correlation.Investigation.Context.{TimelineEvent}
use net_sleuth_ai.Correlation.CaseBuilder.Document.{Stage, Chain}
use net_sleuth_ai.Correlation.CaseBuilder.Entries.{stamp?}

abbrev pub qualifies : MitreMapping → Bool
qualifies m = elim m.mapping_status [
  | MappingStatus.supported ↦ true
  | MappingStatus.partial ↦ true
  | MappingStatus.potential ↦ true
  | _ ↦ false
]

-- The events that share evidence with the mapping.
abbrev pub shares : MitreMapping → TimelineEvent → Bool
shares m t = any (λ i. elem i t.evidence_ids) m.evidence_ids

-- The loop that keeps the first of equal texts.
pub unique : List String → List String → List String
unique [] seen = []
unique (i ∷ ids) seen =
    let again = unique ids seen in
    let new = i ∷ unique ids (i ∷ seen) in if elem i seen then again else new

pub stage_events : List TimelineEvent → MitreMapping → List String
unfolding unique
stage_events events m = unique (map (λ t. t.event_id) (select (shares m) events)) []

module _ (isoformat : Timestamp → String) where
  abbrev key_of : Option Timestamp → String
  key_of none = "9999-99-99T99:99:99Z"
  key_of (some t) = isoformat t

  -- The order of the keys `(t1, t2, technique_id)`.
  pub stage_leb : MitreMapping → MitreMapping → Bool
  stage_leb a b =
      let t1 = key_of a.first_seen in
      let u1 = key_of b.first_seen in
      let t2 = key_of a.last_seen in
      let u2 = key_of b.last_seen in
      if t1 == u1
      then if t2 == u2 then text_leb a.technique_id b.technique_id else text_leb t2 u2
      else text_leb t1 u1

  pub stage : List TimelineEvent → MitreMapping → Stage
  stage events m = record {
    stage_id = concat ("stage-" ∷ m.technique_id ∷ []);
    name = m.technique_name;
    timestamp = stamp? isoformat m.first_seen;
    finding_ids = if m.finding_id == "" then [] else m.finding_id ∷ [];
    event_ids = stage_events events m;
  }

  pub build_attack_chain : List TimelineEvent → List MitreMapping → Chain
  build_attack_chain events mappings =
      let qualifying = select qualifies mappings in
      if is_empty qualifying then record { status = "none"; stages = [] } else record {
        status = "potential";
        stages = map (stage events) (sort_by stage_leb qualifying);
      }
