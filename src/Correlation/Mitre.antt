-- ===== src/Correlation/Mitre.antt =====
-- The MITRE mappings of M3 (backend/app/engines/correlation/mitre/models.py) and the curated
-- knowledge that the mapper reads (repository.py of that folder).
pub mod Knowledge
pub mod Mapper
mod Examples
use net_sleuth_ai.Shared.{
  ℕ, ◌*◌, min, String, Bool, true, false, not, ◌&&◌, ◌||◌, Option, none, some, List, [], ◌∷◌, ◌++◌,
  map, ◌==◌, if◌then◌else◌, ltb, any, elem, is_empty, select, present, lookup, insert, member, Dict,
  concat, prefix, set_of,
}
use net_sleuth_ai.Correlation.Domain.{
  Timestamp, EvidenceReference, Finding, TelemetryCapability, EvidenceIndex, M3InvestigationInput,
}

pub data MappingStatus : Type 0 where
  supported partial potential insufficient_evidence not_applicable : MappingStatus

pub record MitreMapping : Type 0 where
  pub mapping_id : String
  pub finding_id : String
  pub behavior_id : String
  pub technique_id : String
  pub technique_name : String
  pub tactic_id : Option String
  pub tactic_name : Option String
  pub detection_strategy_ids : List String
  pub analytic_ids : List String
  pub data_component_ids : List String
  pub channels : List String
  pub mapping_status : MappingStatus
  pub mapping_confidence : ℕ
  pub rationale : String
  pub evidence_ids : List String
  pub first_seen : Option Timestamp
  pub last_seen : Option Timestamp
  pub knowledge_profile_id : String
  pub mitre_version : String

-- The objects of the JSON snapshot that the repository and the mapper read.
pub record Candidate : Type 0 where
  pub id : String
  pub required_telemetry : List String
  pub local_channels : List String

pub record BehaviorMapping : Type 0 where
  pub behavior_id : String
  pub candidate_techniques : List Candidate

pub data RelationshipType : Type 0 where
  technique_to_detection detection_to_analytic other_relationship : RelationshipType

pub record Relationship : Type 0 where
  pub type : RelationshipType
  pub source : String
  pub target : String

pub record MitreKnowledgeRepository : Type 0 where
  pub profile_id : String
  pub mitre_version : String
  pub mappings_by_behavior : Dict BehaviorMapping
  pub techniques : Dict String
  pub tactics : Dict (Option String)
  pub tech_to_det : Dict (List String)
  pub det_to_an : Dict (List String)

abbrev is_technique_to_detection : RelationshipType → Bool
is_technique_to_detection technique_to_detection = true
is_technique_to_detection _ = false

abbrev is_detection_to_analytic : RelationshipType → Bool
is_detection_to_analytic detection_to_analytic = true
is_detection_to_analytic _ = false

-- `d.get(k, [])`
abbrev list_of : Option (List String) → List String
list_of none = []
list_of (some xs) = xs

-- `d.setdefault(k, []).append(x)`
pub append_to : String → String → Dict (List String) → Dict (List String)
append_to k x d = insert k (list_of (lookup k d) ++ x ∷ []) d

-- The table that the constructor's loop fills from the relationships of one type.
pub link : (RelationshipType → Bool) → List Relationship → Dict (List String) → Dict (List String)
link wanted [] d = d
link wanted (r ∷ rs) d = link wanted rs (if wanted r.type then append_to r.source r.target d else d)

-- `{m["behavior_id"]: m for m in mappings}`
unfoldable pub index_behaviors : List BehaviorMapping → Dict BehaviorMapping → Dict BehaviorMapping
index_behaviors [] d = d
index_behaviors (m ∷ ms) d = index_behaviors ms (insert m.behavior_id m d)

-- `MitreKnowledgeRepository.__init__`, over the lists of the snapshot.
unfoldable pub load :
    String
    → String
    → List BehaviorMapping
    → Dict String
    → Dict (Option String)
    → List Relationship
    → MitreKnowledgeRepository
load profile version mappings techniques tactics relationships = record {
  profile_id = profile;
  mitre_version = version;
  mappings_by_behavior = index_behaviors mappings [];
  techniques = techniques;
  tactics = tactics;
  tech_to_det = link is_technique_to_detection relationships [];
  det_to_an = link is_detection_to_analytic relationships [];
}

pub record TechniqueDetails : Type 0 where
  pub name : String
  pub tactic_id : Option String
  pub tactic_name : Option String
  pub detection_strategies : List String
  pub analytics : List String

pub tactic_of : String → Option String
tactic_of technique =
    if elem technique ("T1071.001" ∷ "T1071.004" ∷ "T1095" ∷ [])
    then some "TA0011"
    else if technique == "T1046"
    then some "TA0007"
    else if technique == "T1041"
    then some "TA0010"
    else none

name_of : Option String → String
name_of none = "Unknown"
name_of (some name) = name

tactic_name_of : Dict (Option String) → Option String → Option String
tactic_name_of tactics none = none
tactic_name_of tactics (some id) = elim (lookup id tactics) [ none ↦ none | some name ↦ name ]

pub analytics_of : Dict (List String) → List String → List String
analytics_of det_to_an [] = []
analytics_of det_to_an (det ∷ dets) = list_of (lookup det det_to_an) ++ analytics_of det_to_an dets

pub get_technique_details : MitreKnowledgeRepository → String → TechniqueDetails
get_technique_details repo technique =
    let dets = list_of (lookup technique repo.tech_to_det) in
    record {
      name = name_of (lookup technique repo.techniques);
      tactic_id = tactic_of technique;
      tactic_name = tactic_name_of repo.tactics (tactic_of technique);
      detection_strategies = dets;
      analytics = set_of (analytics_of repo.det_to_an dets);
    }
