-- ===== src/Correlation/CaseBuilder/Assessed.antt =====
-- The loops of `InvestigationCaseBuilder.build` that copy the engines' results into the document
-- (backend/app/engines/correlation/investigation/case_builder.py).
use Prim.Native.String.{[] as end, ◌∷◌ as ◌∷∷◌}
use net_sleuth_ai.Shared.{String, List, [], ◌∷◌, ◌==◌, if◌then◌else◌}
use net_sleuth_ai.Correlation.Domain.{Timestamp}
use net_sleuth_ai.Correlation.Mitre.{MappingStatus, MitreMapping}
use net_sleuth_ai.Correlation.Investigation.Context.{
  Hypothesis, HypothesisStatus, HypothesisValidation, ValidationStatus, RootCause, RootCauseStatus,
  ImpactAssessment, ImpactStatus,
}
use net_sleuth_ai.Correlation.CaseBuilder.Document.{
  HypothesisEntry, ValidationEntry, RootCauseEntry, ImpactEntry, MitreEntry,
}
use net_sleuth_ai.Correlation.CaseBuilder.Entries.{unless_blank, unless_blank?, stamp, stamp?}

abbrev pub hypothesis_status_value : HypothesisStatus → String
hypothesis_status_value HypothesisStatus.potential = "POTENTIAL"
hypothesis_status_value HypothesisStatus.supported = "SUPPORTED"
hypothesis_status_value HypothesisStatus.partially_supported = "PARTIALLY_SUPPORTED"
hypothesis_status_value HypothesisStatus.disfavored = "DISFAVORED"
hypothesis_status_value HypothesisStatus.rejected = "REJECTED"
hypothesis_status_value HypothesisStatus.unresolved = "UNRESOLVED"

abbrev pub validation_status_value : ValidationStatus → String
validation_status_value ValidationStatus.validated = "VALIDATED"
validation_status_value ValidationStatus.rejected = "REJECTED"
validation_status_value ValidationStatus.inconclusive = "INCONCLUSIVE"

abbrev pub root_cause_status_value : RootCauseStatus → String
root_cause_status_value RootCauseStatus.potential = "POTENTIAL"
root_cause_status_value RootCauseStatus.supported = "SUPPORTED"
root_cause_status_value RootCauseStatus.partially_supported = "PARTIALLY_SUPPORTED"
root_cause_status_value RootCauseStatus.unresolved = "UNRESOLVED"

abbrev pub impact_status_value : ImpactStatus → String
impact_status_value ImpactStatus.observed = "OBSERVED"
impact_status_value ImpactStatus.inferred = "INFERRED"
impact_status_value ImpactStatus.potential = "POTENTIAL"

abbrev pub mapping_status_value : MappingStatus → String
mapping_status_value MappingStatus.supported = "SUPPORTED"
mapping_status_value MappingStatus.partial = "PARTIAL"
mapping_status_value MappingStatus.potential = "POTENTIAL"
mapping_status_value MappingStatus.insufficient_evidence = "INSUFFICIENT_EVIDENCE"
mapping_status_value MappingStatus.not_applicable = "NOT_APPLICABLE"

-- `list(text)`
pub characters : String → List String
characters end = []
characters (c ∷∷ s) = (c ∷∷ end) ∷ characters s

unfoldable pub root_cause_entry : RootCause → RootCauseEntry
root_cause_entry rc = record {
  root_cause_id = rc.root_cause_id;
  statement = rc.statement;
  status = root_cause_status_value rc.status;
  confidence = rc.confidence;
  supporting_evidence_ids = rc.supporting_evidence_ids;
  supporting_hypothesis_ids = rc.supporting_hypothesis_ids;
  supporting_finding_ids = rc.supporting_finding_ids;
  missing_evidence = rc.missing_evidence;
}

-- The rationale is a text, and `list` makes a list of its characters.
unfoldable pub impact_entry : ImpactAssessment → ImpactEntry
unfolding characters
impact_entry imp = record {
  impact_id = imp.impact_id;
  category = imp.category;
  statement = imp.statement;
  status = impact_status_value imp.status;
  confidence = imp.confidence;
  supporting_evidence_ids = imp.supporting_evidence_ids;
  supporting_finding_ids = imp.supporting_finding_ids;
  affected_entity_ids = imp.affected_entity_ids;
  rationale = characters imp.rationale;
  missing_evidence = imp.missing_evidence;
}

module _ (isoformat : Timestamp → String) where
  unfoldable pub hypothesis_entry : Hypothesis → HypothesisEntry
  hypothesis_entry h = record {
    hypothesis_id = h.hypothesis_id;
    statement = h.statement;
    hypothesis_type = h.hypothesis_type;
    status = hypothesis_status_value h.status;
    confidence = h.confidence;
    supporting_evidence_ids = h.supporting_evidence_ids;
    supporting_finding_ids = h.supporting_finding_ids;
    related_entity_ids = h.related_entity_ids;
    related_mitre_mapping_ids = h.related_mitre_mapping_ids;
    supporting_reasons = h.supporting_reasons;
    missing_evidence = h.missing_evidence;
    first_seen = stamp? isoformat h.first_seen;
    last_seen = stamp? isoformat h.last_seen;
  }

  unfoldable pub validation_entry : HypothesisValidation → ValidationEntry
  validation_entry v = record {
    validation_id = v.validation_id;
    hypothesis_id = v.hypothesis_id;
    validation_status = validation_status_value v.validation_status;
    confidence = v.confidence;
    validated_at = stamp isoformat v.validated_at;
    supporting_evidence_ids = v.supporting_evidence_ids;
    contradicting_evidence_ids = v.contradicting_evidence_ids;
    supporting_reasons = v.supporting_reasons;
    contradicting_reasons = v.contradicting_reasons;
    missing_evidence = v.missing_evidence;
  }

  unfoldable pub mitre_entry : MitreMapping → MitreEntry
  mitre_entry m = record {
    technique_id = m.technique_id;
    technique_name = m.technique_name;
    tactic_id = unless_blank? m.tactic_id;
    tactic_name = unless_blank? m.tactic_name;
    behavior_id = unless_blank m.behavior_id;
    mapping_status = mapping_status_value m.mapping_status;
    mapping_confidence = m.mapping_confidence;
    rationale = unless_blank m.rationale;
    source_finding_ids = if m.finding_id == "" then [] else m.finding_id ∷ [];
    evidence_ids = m.evidence_ids;
    first_seen = stamp? isoformat m.first_seen;
    last_seen = stamp? isoformat m.last_seen;
    detection_strategy_ids = m.detection_strategy_ids;
    analytic_ids = m.analytic_ids;
    data_component_ids = m.data_component_ids;
    channels = m.channels;
  }
