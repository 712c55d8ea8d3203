-- ===== src/Correlation/Investigation/Examples.antt =====
-- An investigation of one beaconing host and one scan, and what the engines promise at them.
use net_sleuth_ai.Shared.{
  ◌≡◌, refl, Bool, ◌==◌, String, true, some, List, [], ◌∷◌, lookup, false, set_of, place, prefix,
  join, concat, sort_by,
}
use net_sleuth_ai.Correlation.Domain.{Flow, M3InvestigationInput}
use net_sleuth_ai.Correlation.Samples.{at, flow_to, dns_event, domain_artifact, tunnel}
use net_sleuth_ai.Correlation.Investigation.Context.{
  validated, Hypothesis, HypothesisStatus, HypothesisValidation, RootCause, RootCauseStatus,
  ImpactStatus, ImpactAssessment, latest,
}
use net_sleuth_ai.Correlation.Investigation.Rules.{
  matched_flows, matched_events, keep, verdict, c2_verdict,
}
use net_sleuth_ai.Correlation.Investigation.Validator.{
  reject_unexplained, validation_confidence, validate_one, signal_times, validation_time,
}
use net_sleuth_ai.Correlation.Investigation.Validator.Contract.{Agrees, validate_one-Agrees}
use net_sleuth_ai.Correlation.Investigation.RootCauses.{
  root_cause, cause, settled_status, cause_confidence,
}
use net_sleuth_ai.Correlation.Investigation.RootCauses.Sufficiency.{
  IsSufficient, root_cause-IsSufficient,
}
use net_sleuth_ai.Correlation.Investigation.Impacts.{
  impact, assessment, assess, lowered, impact_confidence, private_targets,
}
use net_sleuth_ai.Correlation.Investigation.Impacts.Claims.{Claims, assess-Claims}
use net_sleuth_ai.Correlation.Investigation.Impacts.{assess_one}
use net_sleuth_ai.Correlation.Investigation.Pipeline.{assess_one-IsValidated}

abbrev internal : String → String → Flow
internal name ip = record (flow_to name 445 30) { destination = record { ip = ip; port = 445 } }

abbrev capture : M3InvestigationInput
capture = record {
  acquisition_id = "acq";
  network_package_id = "net";
  findings_package_id = "fp";
  network_flows = [];
  protocol_events = [];
  artifacts = [];
  findings = [];
  telemetry_capabilities = record { network_flow = true; dns = true; http = false; tls = false };
  evidence_index = record {
    flows =
        ("f1", flow_to "f1" 53 10)
        ∷ ("f2", flow_to "f2" 443 20)
        ∷ ("f3", internal "f3" "10.0.0.7")
        ∷ ("f4", internal "f4" "10.0.0.8")
        ∷ [];
    events = ("e1", dns_event) ∷ [];
    artifacts = ("a1", domain_artifact) ∷ [];
    findings = ("F-1", tunnel) ∷ [];
  };
}

abbrev hypothesis : String → List String → Hypothesis
hypothesis type evidence = record {
  hypothesis_id = "H-1";
  statement = "";
  hypothesis_type = type;
  status = HypothesisStatus.potential;
  confidence = 60;
  supporting_evidence_ids = evidence;
  supporting_finding_ids = "F-1" ∷ [];
  related_entity_ids = [];
  related_mitre_mapping_ids = [];
  supporting_reasons = [];
  missing_evidence = [];
  first_seen = some (at 10);
  last_seen = some (at 20);
}

abbrev beacon : Hypothesis
beacon = hypothesis "C2_COMMUNICATION" ("f1" ∷ "e1" ∷ "f2" ∷ "unknown" ∷ [])

abbrev scan : Hypothesis
scan = hypothesis "NETWORK_RECONNAISSANCE" ("f3" ∷ "f4" ∷ [])

abbrev digest : String → String
digest text = "0123456789abcdef"

abbrev beacon_validation : HypothesisValidation
beacon_validation = record {
  validation_id = "VAL-0123456789ab";
  hypothesis_id = "H-1";
  validation_status = validated;
  confidence = 80;
  validated_at = at 20;
  supporting_evidence_ids = "e1" ∷ "f1" ∷ "f2" ∷ [];
  contradicting_evidence_ids = [];
  supporting_reasons =
      "Observed multiple supporting network events or flows for C2 communication." ∷ [];
  contradicting_reasons = [];
  missing_evidence = [];
}

validate_one-beacon : validate_one digest (at 0) [] capture beacon ≡ beacon_validation
unfolding validate_one reject_unexplained verdict c2_verdict matched_flows matched_events keep
    lookup validation_confidence signal_times validation_time latest set_of sort_by place concat
    join prefix
validate_one-beacon = refl

abbrev beacon_cause : RootCause
beacon_cause = record {
  root_cause_id = "RC-0123456789ab";
  statement =
      "Underlying cause is consistent with persistent external command-and-control communication.";
  status = RootCauseStatus.supported;
  confidence = 70;
  supporting_evidence_ids = "e1" ∷ "f1" ∷ "f2" ∷ [];
  supporting_hypothesis_ids = "H-1" ∷ [];
  supporting_finding_ids = "F-1" ∷ [];
  missing_evidence = [];
}

root_cause-beacon : root_cause digest "acq" beacon_validation beacon ≡ some beacon_cause
unfolding root_cause cause settled_status cause_confidence set_of sort_by place concat join prefix
root_cause-beacon = refl

abbrev beacon_impact : ImpactAssessment
beacon_impact = record {
  impact_id = "IMP-0123456789ab";
  category = "SYSTEM_COMPROMISE";
  statement =
      "Observed or inferred impact associated with persistent external command-and-control communication.";
  status = ImpactStatus.inferred;
  confidence = 65;
  supporting_evidence_ids = "e1" ∷ "f1" ∷ "f2" ∷ [];
  supporting_finding_ids = "F-1" ∷ [];
  affected_entity_ids = [];
  rationale = "Deterministic rule mapping from validated root causes.";
  missing_evidence = [];
}

abbrev is_private : String → Bool
is_private ip = prefix 3 ip == "10."

assess-beacon :
    assess digest is_private capture (some beacon) (some beacon_validation) beacon_cause
    ≡ some beacon_impact
unfolding assess assessment impact lowered impact_confidence set_of sort_by place concat join prefix
assess-beacon = refl

abbrev scan_cause : RootCause
scan_cause = record beacon_cause { supporting_evidence_ids = "f3" ∷ "f4" ∷ [] }

abbrev scan_impact : ImpactAssessment
scan_impact = record beacon_impact {
  category = "LATERAL_MOVEMENT";
  statement = "Potential lateral movement indicated by cross-target internal scanning.";
  status = ImpactStatus.potential;
  confidence = 60;
  supporting_evidence_ids = "f3" ∷ "f4" ∷ [];
}

assess-scan :
    assess digest is_private capture (some scan) (some beacon_validation) scan_cause
    ≡ some scan_impact
unfolding assess assessment impact lowered impact_confidence private_targets lookup set_of sort_by
    place concat join prefix
assess-scan = refl

validate_one-Agrees_example : Agrees (validate_one digest (at 0) [] capture beacon)
validate_one-Agrees_example = validate_one-Agrees digest (at 0) [] capture beacon refl

root_cause-IsSufficient_example : IsSufficient beacon_validation "C2_COMMUNICATION"
root_cause-IsSufficient_example =
    root_cause-IsSufficient digest "acq" beacon_validation beacon beacon_cause root_cause-beacon
      refl

assess-Claims_example :
    Claims ImpactStatus.inferred "C2_COMMUNICATION" beacon_validation beacon_cause
assess-Claims_example =
    assess-Claims digest is_private capture beacon beacon_validation beacon_cause beacon_impact
      assess-beacon

root_cause_validated :
    root_cause digest capture.acquisition_id (validate_one digest (at 0) [] capture beacon) beacon
    ≡ some beacon_cause
root_cause_validated = rw validate_one-beacon root_cause-beacon

assess_one-beacon :
    assess_one digest is_private capture
      (("H-1", beacon) ∷ [])
      (("H-1", beacon_validation) ∷ [])
      beacon_cause
    ≡ some beacon_impact
unfolding assess_one assess assessment impact lowered impact_confidence lookup set_of sort_by place
    concat join prefix
assess_one-beacon = refl

assess_one-IsValidated_example :
    (validate_one digest (at 0) [] capture beacon).validation_status ≡ validated
assess_one-IsValidated_example =
    assess_one-IsValidated digest (at 0) [] capture beacon beacon_cause is_private
      (("H-1", beacon) ∷ []) (("H-1", beacon_validation) ∷ []) beacon_impact refl
      root_cause_validated assess_one-beacon
