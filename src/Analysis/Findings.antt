-- ===== src/Analysis/Findings.antt =====
-- The findings of M2 (backend/app/engines/analysis/findings: attribution.py, builder.py and
-- generator.py). Scores and features are exact hundredths. The identifiers that `uuid4` makes are
-- arguments.
pub mod Attribution
pub mod Generation
pub mod Acceptance
pub mod Window
pub mod Outcome
mod Examples
use net_sleuth_ai.Shared.{
  ℕ, ◌/◌, String, Bool, true, false, not, ◌&&◌, ◌||◌, Option, none, some, List, [], ◌∷◌, ◌++◌, map,
  ◌==◌, ltb, if◌then◌else◌, any, is_empty, elem, lookup, Dict, concat, join, decimal, two_places,
  one_place, Result, ok, err, raise_if, ◌>>=◌, ◌>>◌,
}
use net_sleuth_ai.Correlation.Domain.{
  Timestamp, Flow, ProtocolEvent, Artifact, NetworkIntelligencePackage, EvidenceReference, Finding,
  FindingsPackage,
}
use net_sleuth_ai.Correlation.Investigation.Context.{first_of, last_of}
use net_sleuth_ai.Analysis.Rationale.{
  FindingsError, missing_source_package, fabricated_flow, fabricated_event, fabricated_artifact,
  mixed_time_zones, FeatureVector, AnalysisDecisionResult, generate_rationale,
}
use net_sleuth_ai.Analysis.Decision.{DecisionState, benign}

-- `for i in ids: if i not in valid: raise ...`
pub check_each :
    List String → (String → FindingsError) → List String → Result FindingsError (Unit {0})
check_each valid fabricated [] = ok tt
check_each valid fabricated (i ∷ ids) =
    raise_if (not (elem i valid)) (fabricated i) >> check_each valid fabricated ids

abbrev pub flow_ids : NetworkIntelligencePackage → List String
flow_ids p = map (λ f. f.flow_id) p.flows

abbrev pub event_ids : NetworkIntelligencePackage → List String
event_ids p = map (λ e. e.event_id) p.protocol_events

abbrev pub artifact_ids : NetworkIntelligencePackage → List String
artifact_ids p = map (λ a. a.artifact_id) p.artifacts

pub validate_evidence_references :
    NetworkIntelligencePackage → List EvidenceReference → Result FindingsError (Unit {0})
unfolding check_each
validate_evidence_references p [] = ok tt
validate_evidence_references p (ref ∷ refs) =
    check_each (flow_ids p) fabricated_flow ref.flow_ids
    >> check_each (event_ids p) fabricated_event ref.event_ids
    >> check_each (artifact_ids p) fabricated_artifact ref.artifact_ids
    >> validate_evidence_references p refs

-- The two branches of the source make the same reference, with lists that are empty in the first.
pub extract_evidence_references :
    Bool
    → NetworkIntelligencePackage
    → AnalysisDecisionResult
    → FeatureVector
    → Result FindingsError (List EvidenceReference)
unfolding generate_rationale validate_evidence_references
extract_evidence_references strict_validation p decision vector = do
  rationale ← generate_rationale decision.predicted_activity decision vector.features
  let none_held = is_empty (flow_ids p) && is_empty (event_ids p) && is_empty (artifact_ids p)
  let refs : List EvidenceReference =
      record {
        flow_ids = if none_held then [] else flow_ids p;
        event_ids = if none_held then [] else event_ids p;
        artifact_ids = if none_held then [] else artifact_ids p;
        rationale = rationale;
      }
      ∷ []
  if strict_validation then validate_evidence_references p refs >> ok refs else ok refs

abbrev pub timestamps_of : NetworkIntelligencePackage → List Timestamp
timestamps_of p = map (λ f. f.timestamp) p.flows ++ map (λ e. e.timestamp) p.protocol_events

-- Python does not compare a time that has a zone with one that has none.
abbrev pub is_mixed : List Timestamp → Bool
is_mixed ts = any (λ t. t.tz_aware) ts && any (λ t. not t.tz_aware) ts

pub extract_observation_window :
    NetworkIntelligencePackage → Result FindingsError (Option Timestamp × Option Timestamp)
extract_observation_window p =
    let ts = timestamps_of p in
    if is_mixed ts then err mixed_time_zones else ok (first_of ts, last_of ts)

pub build_finding :
    Bool
    → String
    → NetworkIntelligencePackage
    → FeatureVector
    → AnalysisDecisionResult
    → Result FindingsError Finding
unfolding extract_evidence_references extract_observation_window
build_finding strict_validation hex p vector decision = do
  window ← extract_observation_window p
  refs ← extract_evidence_references strict_validation p decision vector
  ok (record {
    finding_id = concat ("F-" ∷ hex ∷ []);
    acquisition_id = p.acquisition_id;
    activity_class = decision.predicted_activity;
    anomaly_score = decision.anomaly_score;
    classification_confidence = decision.confidence;
    risk_score = decision.risk_score;
    evidence_references = refs;
    observation_start = window.0;
    observation_end = window.1;
  })

-- The case of no finding.
abbrev pub is_quiet : AnalysisDecisionResult → Bool
is_quiet decision = elim decision.decision_state [
  | benign ↦ not decision.anomaly_detected
  | _ ↦ false
]

unfoldable pub generate :
    Bool
    → String
    → String
    → NetworkIntelligencePackage
    → FeatureVector
    → AnalysisDecisionResult
    → Result FindingsError FindingsPackage
unfolding build_finding
generate strict_validation package_hex finding_hex p vector decision = do
  raise_if (p.acquisition_id == "") missing_source_package
  raise_if (not (p.acquisition_id == vector.acquisition_id)) missing_source_package
  findings ←
      (if is_quiet decision
        then ok []
        else build_finding strict_validation finding_hex p vector decision >>= λ f. ok (f ∷ []))
  ok (record {
    package_id = concat ("FP-" ∷ package_hex ∷ []);
    acquisition_id = p.acquisition_id;
    findings = findings;
  })
