-- ===== src/Correlation/Entities.antt =====
-- Entities, relationships and the references of a case (backend/app/engines/correlation/domain:
-- entity.py, relationship.py, evidence.py, finding.py and investigation.py). The attributes of an
-- entity are a dictionary of texts; a relationship's are left out. Confidences are exact hundredths.
pub mod Merging
pub mod Identifiers
mod Examples
use Prim.Native.Char.{Char, code}
use Prim.Native.String.{[] as end, ◌∷◌ as ◌∷∷◌}
use net_sleuth_ai.Shared.{
  ℕ, String, Bool, true, false, not, ◌||◌, Option, none, some, List, [], ◌∷◌, ◌++◌, ◌==◌, eqb, leb,
  ltb, if◌then◌else◌, elem, Dict, insert, Result, ok, err, raise_if, ◌>>◌,
}
use net_sleuth_ai.Correlation.Domain.{Timestamp}
use net_sleuth_ai.Correlation.Mitre.{MitreMapping}
use net_sleuth_ai.Correlation.Investigation.Context.{
  Hypothesis, HypothesisValidation, RootCause, ImpactAssessment, TimelineEvent,
}

pub record Entity : Type 0 where
  pub entity_id : String
  pub entity_type : String
  pub value : String
  pub first_seen : Option Timestamp
  pub last_seen : Option Timestamp
  pub attributes : Dict String

pub record Relationship : Type 0 where
  pub relationship_id : String
  pub source_entity_id : String
  pub relationship_type : String
  pub target_entity_id : String
  pub confidence : ℕ
  pub evidence_ids : List String
  pub first_seen : Option Timestamp
  pub last_seen : Option Timestamp
  pub reason : Option String

-- `domain/evidence.py`
pub record CaseEvidence : Type 0 where
  pub evidence_id : String
  pub evidence_type : String
  pub source_id : Option String

pub record FindingReference : Type 0 where
  pub finding_id : String
  pub finding_type : String
  pub severity : String
  pub confidence_score : ℕ
  pub first_seen : Option Timestamp
  pub last_seen : Option Timestamp
  pub entity_ids : List String
  pub evidence_ids : List String

-- `mitre_mappings` is the attribute that the pipeline adds; a context without it has none.
pub record InvestigationContext : Type 0 where
  pub acquisition_id : Option String
  pub case_id : Option String
  pub entities : List Entity
  pub relationships : List Relationship
  pub timeline_events : List TimelineEvent
  pub findings : List FindingReference
  pub evidence_references : List CaseEvidence
  pub mitre_mappings : List MitreMapping
  pub hypotheses : List Hypothesis
  pub hypothesis_validations : List HypothesisValidation
  pub root_causes : List RootCause
  pub impact_assessments : List ImpactAssessment

-- What the checks of `__post_init__` raise.
pub data DomainError : Type 0 where
  empty_id no_namespace empty_part empty_source empty_target bad_confidence bad_type : DomainError

-- The two parts of `text.split(":", 1)`, or `none` if there is no colon.
pub split_colon : String → Option (String × String)
split_colon end = none
split_colon (c ∷∷ s) =
    if eqb (code c) b':'
    then some (end, s)
    else elim (split_colon s) [ none ↦ none | some (ns, val) ↦ some (c ∷∷ ns, val) ]

pub check_entity_id : String → Result DomainError (Unit {0})
unfolding split_colon
check_entity_id id = if id == "" then err empty_id else elim (split_colon id) [
  | none ↦ err no_namespace
  | some (ns, val) ↦ raise_if (ns == "" || val == "") empty_part
]

-- `Entity(...)`
unfoldable pub make_entity : Entity → Result DomainError Entity
make_entity e = check_entity_id e.entity_id >> ok e

-- `Relationship(...)`
pub make_relationship : Relationship → Result DomainError Relationship
make_relationship r =
    raise_if (r.relationship_id == "") empty_id
    >> raise_if (r.source_entity_id == "") empty_source
    >> raise_if (r.target_entity_id == "") empty_target
    >> raise_if (ltb 100 r.confidence) bad_confidence
    >> ok r

abbrev canonical_evidence_types : List String
canonical_evidence_types =
    "pcap" ∷ "flow" ∷ "session" ∷ "dns" ∷ "http" ∷ "tls" ∷ "artifact" ∷ "log" ∷ "finding" ∷ []

-- `EvidenceReference(...)`
unfoldable pub make_evidence : CaseEvidence → Result DomainError CaseEvidence
make_evidence e =
    raise_if (e.evidence_id == "") empty_id
    >> raise_if (not (elem e.evidence_type canonical_evidence_types)) bad_type
    >> ok e

-- `FindingReference(...)`
unfoldable pub make_finding : FindingReference → Result DomainError FindingReference
make_finding f =
    raise_if (f.finding_id == "") empty_id
    >> raise_if (ltb 100 f.confidence_score) bad_confidence
    >> ok f

-- `new_first` of `add_entity`: the earlier bound, the one that is there if the other is not.
unfoldable pub merge_first : Option Timestamp → Option Timestamp → Option Timestamp
merge_first old none = old
merge_first none (some t) = some t
merge_first (some u) (some t) = some (if leb u.moment t.moment then u else t)

unfoldable pub merge_last : Option Timestamp → Option Timestamp → Option Timestamp
merge_last old none = old
merge_last none (some t) = some t
merge_last (some u) (some t) = some (if leb t.moment u.moment then u else t)

-- `d.update(other)`
unfoldable pub update {ℓ} : {V : Type ℓ} → Dict V → Dict V → Dict V
update d [] = d
update d ((k, v) ∷ other) = update (insert k v d) other

-- `replace(existing, first_seen=..., last_seen=..., attributes=...)`
unfoldable pub merge_entity : Entity → Entity → Entity
unfolding merge_first merge_last update
merge_entity existing e = record existing {
  first_seen = merge_first existing.first_seen e.first_seen;
  last_seen = merge_last existing.last_seen e.last_seen;
  attributes = update existing.attributes e.attributes;
}

unfoldable pub add_entity : Entity → List Entity → List Entity
unfolding merge_entity
add_entity e [] = e ∷ []
add_entity e (existing ∷ es) =
    if existing.entity_id == e.entity_id
    then merge_entity existing e ∷ es
    else existing ∷ add_entity e es
