-- ===== src/Correlation/Investigation/Context.antt =====
-- What the investigation engines exchange (backend/app/engines/correlation/domain/investigation.py,
-- hypothesis.py, root_cause.py, impact.py, timeline.py). Confidences are exact hundredths.
use net_sleuth_ai.Shared.{ℕ, String, Option, none, some, List, [], ◌∷◌, leb, if◌then◌else◌}
use net_sleuth_ai.Correlation.Domain.{Timestamp}

pub data HypothesisStatus : Type 0 where
  potential supported partially_supported disfavored rejected unresolved : HypothesisStatus

pub data ValidationStatus : Type 0 where
  validated rejected inconclusive : ValidationStatus

pub data RootCauseStatus : Type 0 where
  potential supported partially_supported unresolved : RootCauseStatus

pub data ImpactStatus : Type 0 where
  observed inferred potential : ImpactStatus

pub record Hypothesis : Type 0 where
  pub hypothesis_id : String
  pub statement : String
  pub hypothesis_type : String
  pub status : HypothesisStatus
  pub confidence : ℕ
  pub supporting_evidence_ids : List String
  pub supporting_finding_ids : List String
  pub related_entity_ids : List String
  pub related_mitre_mapping_ids : List String
  pub supporting_reasons : List String
  pub missing_evidence : List String
  pub first_seen : Option Timestamp
  pub last_seen : Option Timestamp

pub record HypothesisValidation : Type 0 where
  pub validation_id : String
  pub hypothesis_id : String
  pub validation_status : ValidationStatus
  pub confidence : ℕ
  pub validated_at : Timestamp
  pub supporting_evidence_ids : List String
  pub contradicting_evidence_ids : List String
  pub supporting_reasons : List String
  pub contradicting_reasons : List String
  pub missing_evidence : List String

pub record RootCause : Type 0 where
  pub root_cause_id : String
  pub statement : String
  pub status : RootCauseStatus
  pub confidence : ℕ
  pub supporting_evidence_ids : List String
  pub supporting_hypothesis_ids : List String
  pub supporting_finding_ids : List String
  pub missing_evidence : List String

pub record ImpactAssessment : Type 0 where
  pub impact_id : String
  pub category : String
  pub statement : String
  pub status : ImpactStatus
  pub confidence : ℕ
  pub supporting_evidence_ids : List String
  pub supporting_finding_ids : List String
  pub affected_entity_ids : List String
  pub rationale : String
  pub missing_evidence : List String

pub record TimelineEvent : Type 0 where
  pub event_id : String
  pub timestamp : Timestamp
  pub event_type : String
  pub title : String
  pub description : String
  pub entity_ids : List String
  pub finding_ids : List String
  pub evidence_ids : List String
  pub flow_ids : List String
  pub protocol_event_ids : List String
  pub artifact_ids : List String
  pub source_reference : Option String

-- The later of two instants, the first one if they are equal.
abbrev pub later : Timestamp → Timestamp → Timestamp
later a b = if leb b.moment a.moment then a else b

-- `max` of a list that is not empty.
unfoldable pub latest : Timestamp → List Timestamp → Timestamp
latest t [] = t
latest t (u ∷ us) = latest (later t u) us

-- The earlier of two instants, the first one if they are equal.
abbrev pub earlier : Timestamp → Timestamp → Timestamp
earlier a b = if leb a.moment b.moment then a else b

unfoldable pub earliest : Timestamp → List Timestamp → Timestamp
earliest t [] = t
earliest t (u ∷ us) = earliest (earlier t u) us

-- `min` and `max` of a list, if it has items.
abbrev pub first_of : List Timestamp → Option Timestamp
first_of [] = none
first_of (t ∷ ts) = some (earliest t ts)

abbrev pub last_of : List Timestamp → Option Timestamp
last_of [] = none
last_of (t ∷ ts) = some (latest t ts)
