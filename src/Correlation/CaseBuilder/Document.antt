-- ===== src/Correlation/CaseBuilder/Document.antt =====
-- The case document that `InvestigationCaseBuilder.build` returns (backend/app/engines/correlation/
-- investigation/case_builder.py). A key that is left out is `none`, or an empty list where the
-- builder leaves out only empty lists. The constant parts of the document are left out.
use net_sleuth_ai.Shared.{ℕ, String, Option, List}

-- The last five are the internal metadata, which the schema does not have.
pub record FindingEntry : Type 0 where
  pub finding_id : String
  pub role : String
  pub activity : Option String
  pub confidence_score : Option ℕ
  pub risk_score : Option ℕ
  pub first_observed : Option String
  pub last_observed : Option String

pub record TimelineEntry : Type 0 where
  pub event_id : String
  pub timestamp : String
  pub event_type : String
  pub description : String
  pub entity_ids : List String
  pub source_entity_id : Option String
  pub target_entity_id : Option String
  pub evidence_ids : List String
  pub finding_ids : List String

pub record EntityEntry : Type 0 where
  pub entity_id : String
  pub entity_type : String
  pub label : String
  pub first_seen : Option String
  pub last_seen : Option String

pub record EvidenceEntry : Type 0 where
  pub evidence_id : String
  pub evidence_type : String
  pub source_id : Option String

pub record RelationshipEntry : Type 0 where
  pub relationship_id : String
  pub source_entity_id : String
  pub relationship_type : String
  pub target_entity_id : String
  pub confidence : ℕ
  pub evidence_ids : List String
  pub reason : Option String
  pub first_seen : Option String
  pub last_seen : Option String

pub record HypothesisEntry : Type 0 where
  pub hypothesis_id : String
  pub statement : String
  pub hypothesis_type : String
  pub status : String
  pub confidence : ℕ
  pub supporting_evidence_ids : List String
  pub supporting_finding_ids : List String
  pub related_entity_ids : List String
  pub related_mitre_mapping_ids : List String
  pub supporting_reasons : List String
  pub missing_evidence : List String
  pub first_seen : Option String
  pub last_seen : Option String

pub record ValidationEntry : Type 0 where
  pub validation_id : String
  pub hypothesis_id : String
  pub validation_status : String
  pub confidence : ℕ
  pub validated_at : String
  pub supporting_evidence_ids : List String
  pub contradicting_evidence_ids : List String
  pub supporting_reasons : List String
  pub contradicting_reasons : List String
  pub missing_evidence : List String

pub record RootCauseEntry : Type 0 where
  pub root_cause_id : String
  pub statement : String
  pub status : String
  pub confidence : ℕ
  pub supporting_evidence_ids : List String
  pub supporting_hypothesis_ids : List String
  pub supporting_finding_ids : List String
  pub missing_evidence : List String

pub record ImpactEntry : Type 0 where
  pub impact_id : String
  pub category : String
  pub statement : String
  pub status : String
  pub confidence : ℕ
  pub supporting_evidence_ids : List String
  pub supporting_finding_ids : List String
  pub affected_entity_ids : List String
  pub rationale : List String
  pub missing_evidence : List String

pub record Assessment : Type 0 where
  pub hypotheses : List HypothesisEntry
  pub hypothesis_validations : List ValidationEntry
  pub root_causes : List RootCauseEntry
  pub impact_assessments : List ImpactEntry

pub record MitreEntry : Type 0 where
  pub technique_id : String
  pub technique_name : String
  pub tactic_id : Option String
  pub tactic_name : Option String
  pub behavior_id : Option String
  pub mapping_status : String
  pub mapping_confidence : ℕ
  pub rationale : Option String
  pub source_finding_ids : List String
  pub evidence_ids : List String
  pub first_seen : Option String
  pub last_seen : Option String
  pub detection_strategy_ids : List String
  pub analytic_ids : List String
  pub data_component_ids : List String
  pub channels : List String

pub record Stage : Type 0 where
  pub stage_id : String
  pub name : String
  pub timestamp : Option String
  pub finding_ids : List String
  pub event_ids : List String

pub record Chain : Type 0 where
  pub status : String
  pub stages : List Stage

pub record CaseDocument : Type 0 where
  pub schema_version : String
  pub case_id : String
  pub title : String
  pub severity : String
  pub created_at : String
  pub updated_at : String
  pub findings : List FindingEntry
  pub timeline : List TimelineEntry
  pub entities : List EntityEntry
  pub relationships : List RelationshipEntry
  pub evidence_references : List EvidenceEntry
  pub attack_chain : Chain
  pub assessment : Option Assessment
  pub mitre_mappings : List MitreEntry
