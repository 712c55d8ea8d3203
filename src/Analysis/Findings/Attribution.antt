-- ===== src/Analysis/Findings/Attribution.antt =====
-- What `FeatureAttributor` (backend/app/engines/analysis/findings/attribution.py) refers to, and
-- when it raises.
use net_sleuth_ai.Shared.{
  String, Bool, true, false, ◌&&◌, List, [], ◌∷◌, ◌≡◌, refl, arith, is_empty, if◌then◌else◌, elem,
  All, All-weaken, eq_iff, ok, >>=-eq-ok,
}
use net_sleuth_ai.Correlation.Domain.{NetworkIntelligencePackage, EvidenceReference}
use net_sleuth_ai.Analysis.Rationale.{
  FindingsError, fabricated_flow, fabricated_event, fabricated_artifact, AnalysisDecisionResult,
  FeatureVector, generate_rationale,
}
use net_sleuth_ai.Analysis.Rationale.Values.{IsNumeric, rationale-IsNumeric}
use net_sleuth_ai.Analysis.Findings.{
  check_each, flow_ids, event_ids, artifact_ids, validate_evidence_references,
  extract_evidence_references,
}

-- A list of identifiers is among itself.
pub elem-own : (ids : List String) → All (λ i. elem i ids ≡ true) ids
elem-own [] = tt
elem-own (i ∷ ids) = (
  ground (arith, eq_iff i i),
  All-weaken (λ j. elem j ids ≡ true) (λ j. elem j (i ∷ ids) ≡ true) (λ j h. ground (arith, h)) ids
      (elem-own ids),
)

check_each-own :
    (fabricated : String → FindingsError) (valid ids : List String)
    → All (λ i. elem i valid ≡ true) ids
    → check_each valid fabricated ids ≡ ok tt
unfolding check_each
check_each-own fabricated valid [] h = refl
check_each-own fabricated valid (i ∷ ids) h = rw (h.0, check_each-own fabricated valid ids h.1) refl

-- The reference to everything that a package holds.
abbrev pub whole : NetworkIntelligencePackage → String → EvidenceReference
whole p text = record {
  flow_ids = flow_ids p;
  event_ids = event_ids p;
  artifact_ids = artifact_ids p;
  rationale = text;
}

validate_whole :
    (p : NetworkIntelligencePackage) (text : String)
    → validate_evidence_references p (whole p text ∷ []) ≡ ok tt
unfolding validate_evidence_references
validate_whole p text =
    rw
      (
        check_each-own fabricated_flow (flow_ids p) (flow_ids p) (elem-own (flow_ids p)),
        check_each-own fabricated_event (event_ids p) (event_ids p) (elem-own (event_ids p)),
        check_each-own fabricated_artifact (artifact_ids p) (artifact_ids p)
            (elem-own (artifact_ids p)),
      )
      refl

keep_unless :
    (b : Bool) (ids : List String)
    → (b ≡ true → is_empty ids ≡ true)
    → (if b then [] else ids) ≡ ids
keep_unless true [] h = refl
keep_unless true (i ∷ ids) h = cc (h refl)
keep_unless false ids h = refl

-- The references of a finding are one, to everything that the package holds, and the check of them
-- never raises.
pub extract-eq :
    (strict : Bool) (p : NetworkIntelligencePackage) (d : AnalysisDecisionResult)
    (v : FeatureVector) (text : String)
    → generate_rationale d.predicted_activity d v.features ≡ ok text
    → extract_evidence_references strict p d v ≡ ok (whole p text ∷ [])
unfolding extract_evidence_references
extract-eq true p d v text h =
    let none_held = is_empty (flow_ids p) && is_empty (event_ids p) && is_empty (artifact_ids p) in
    rw
      (
        h,
        keep_unless none_held (flow_ids p) (λ e. ground arith),
        keep_unless none_held (event_ids p) (λ e. ground arith),
        keep_unless none_held (artifact_ids p) (λ e. ground arith),
        validate_whole p text,
      )
      refl
extract-eq false p d v text h =
    let none_held = is_empty (flow_ids p) && is_empty (event_ids p) && is_empty (artifact_ids p) in
    rw
      (
        h,
        keep_unless none_held (flow_ids p) (λ e. ground arith),
        keep_unless none_held (event_ids p) (λ e. ground arith),
        keep_unless none_held (artifact_ids p) (λ e. ground arith),
      )
      refl

pub extract-IsNumeric :
    (strict : Bool) (p : NetworkIntelligencePackage) (d : AnalysisDecisionResult)
    (v : FeatureVector) {refs : List EvidenceReference}
    → extract_evidence_references strict p d v ≡ ok refs
    → IsNumeric v.features
unfolding extract_evidence_references
extract-IsNumeric strict p d v h =
    let (text, e, _) = >>=-eq-ok (generate_rationale d.predicted_activity d v.features) _ h in
    rationale-IsNumeric d.predicted_activity d v.features e
