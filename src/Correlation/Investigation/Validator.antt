-- ===== src/Correlation/Investigation/Validator.antt =====
-- `HypothesisValidator.validate` (backend/app/engines/correlation/investigation/
-- hypothesis_validator.py) around the rules: the rejection of a verdict without a signal, the
-- confidence, the time, and the record that is built for each hypothesis.
pub mod Contract
use net_sleuth_ai.Shared.{
  ℕ, ◌+◌, ◌-◌, ◌*◌, min, String, Bool, true, false, not, ◌&&◌, ◌||◌, Option, none, some, List, [],
  ◌∷◌, ◌++◌, map, ◌==◌, if◌then◌else◌, ltb, leb, eqb, any, select, elem, is_empty, length, lookup,
  concat, join, decimal, lower, prefix, sorted, set_of,
}
use net_sleuth_ai.Correlation.Domain.{
  Timestamp, Flow, ProtocolEvent, EvidenceIndex, M3InvestigationInput,
}
use net_sleuth_ai.Correlation.Investigation.Context.{
  ValidationStatus, validated, rejected, inconclusive, Hypothesis, HypothesisValidation,
  TimelineEvent, latest,
}
use net_sleuth_ai.Correlation.Investigation.Rules.{Verdict, matched_flows, matched_events, verdict}

is_rejected : ValidationStatus → Bool
is_rejected rejected = true
is_rejected _ = false

-- "Artificial Strong Contradiction Logic": a verdict with no signal and no explanation.
unfoldable pub reject_unexplained : Verdict → Verdict
unfolding is_rejected
reject_unexplained v =
    if is_empty v.supporting && is_empty v.missing_evidence && not (is_rejected v.status)
    then record v {
      status = rejected;
      contradicting_reasons =
          v.contradicting_reasons ++ "Evidence strictly contradicts the generated hypothesis." ∷ [];
    }
    else v

-- In hundredths. A difference that would be negative is 0, as the final `max` makes it.
unfoldable pub validation_confidence : Verdict → ℕ
validation_confidence v =
    let base = 50 + 10 * min (length v.supporting) 4 - 20 * length v.contradicting in
    min (if is_empty v.missing_evidence then base else min base 90) 100

-- The timestamps of the evidence that decided.
unfoldable pub signal_times : EvidenceIndex → List String → List Timestamp
signal_times index [] = []
signal_times index (i ∷ ids) = elim (lookup i index.flows) [
  | some f ↦ f.timestamp ∷ signal_times index ids
  | none ↦ elim (lookup i index.events) [
    | some e ↦ e.timestamp ∷ signal_times index ids
    | none ↦ signal_times index ids
  ]
]

abbrev event_times : List TimelineEvent → List Timestamp
event_times = map (λ t. t.timestamp)

-- The latest signal, or else the latest timeline event, or else the current time.
unfoldable pub validation_time : Timestamp → List Timestamp → List Timestamp → Timestamp
validation_time now (t ∷ ts) timeline = latest t ts
validation_time now [] (t ∷ ts) = latest t ts
validation_time now [] [] = now

abbrev status_value : ValidationStatus → String
status_value validated = "VALIDATED"
status_value rejected = "REJECTED"
status_value inconclusive = "INCONCLUSIVE"

-- `sha256_hex` is hashlib's digest, and `now` the clock.
module _ (sha256_hex : String → String) (now : Timestamp) where
  unfoldable pub validate_one :
      List TimelineEvent → M3InvestigationInput → Hypothesis → HypothesisValidation
  validate_one timeline m3_input hyp =
      let index = m3_input.evidence_index in
      let flows = matched_flows index hyp.supporting_evidence_ids in
      let events = matched_events index hyp.supporting_evidence_ids in
      let v = reject_unexplained (verdict hyp.hypothesis_type flows events) in
      let supporting = sorted v.supporting in
      let contradicting = sorted v.contradicting in
      record {
        validation_id = concat (
            "VAL-"
            ∷ prefix 12 (
                sha256_hex (
                  concat (
                    m3_input.acquisition_id
                    ∷ "|"
                    ∷ hyp.hypothesis_id
                    ∷ "|"
                    ∷ join "," supporting
                    ∷ "|"
                    ∷ join "," contradicting
                    ∷ "|"
                    ∷ status_value v.status
                    ∷ [])))
            ∷ []);
        hypothesis_id = hyp.hypothesis_id;
        validation_status = v.status;
        confidence = validation_confidence v;
        validated_at =
            validation_time now (signal_times index (v.supporting ++ v.contradicting))
              (event_times timeline);
        supporting_evidence_ids = supporting;
        contradicting_evidence_ids = contradicting;
        supporting_reasons = v.supporting_reasons;
        contradicting_reasons = v.contradicting_reasons;
        missing_evidence = v.missing_evidence;
      }

  unfoldable pub validate :
      List TimelineEvent → M3InvestigationInput → List Hypothesis → List HypothesisValidation
  validate timeline m3_input = map (validate_one timeline m3_input)
