-- ===== src/Reporting/Examples.antt =====
-- A custody log of two actions and the verification of a capture, and their promises at them.
use net_sleuth_ai.Shared.{
  ℕ, eqb, String, Bool, true, Option, some, none, List, [], ◌∷◌, ◌≡◌, refl, ok, err, if◌then◌else◌,
  ◌==◌, sort_by, place, strip, lower, upper,
}
use net_sleuth_ai.Reporting.Custody.{
  CustodyEntry, action_not_allowed, parse_iso_timestamp, checked, instant, timestamp_of, log_entry,
  record_entry, record_action,
}
use net_sleuth_ai.Reporting.Custody.Log.{IsLog, record_action-IsLog}
use net_sleuth_ai.Reporting.Integrity.{
  Metadata, IntegrityResult, verified, required, required_type, known_algorithm, compared,
  calculate_hash, judged, report, verify,
}
use net_sleuth_ai.Reporting.Integrity.Verdicts.{Says, verify-Says}

abbrev parse : String → Option ℕ
parse text =
    if text == "2026-01-01T00:00:00Z"
    then some 1
    else if text == "2026-01-02T00:00:00Z"
    then some 2
    else none

abbrev iso : ℕ → String
iso n = if eqb n 1 then "2026-01-01T00:00:00Z" else "2026-01-02T00:00:00Z"

abbrev verifying : CustodyEntry
verifying = record {
  custodian_id = "alice";
  action = "verify";
  timestamp = "2026-01-02T00:00:00Z";
  signature = none;
}

abbrev ingesting : CustodyEntry
ingesting = record {
  custodian_id = "alice";
  action = "ingest";
  timestamp = "2026-01-01T00:00:00Z";
  signature = none;
}

abbrev recorded : CustodyEntry × List CustodyEntry
recorded = (ingesting, ingesting ∷ verifying ∷ [])

record_action-ingest :
    record_action parse iso 2 "alice" "ingest" (some "2026-01-01T00:00:00Z") none (verifying ∷ [])
    ≡ ok recorded
unfolding record_action record_entry timestamp_of checked parse_iso_timestamp log_entry instant
    sort_by place strip
record_action-ingest = refl

record_action-delete :
    record_action parse iso 2 "alice" "delete" none none [] ≡ err action_not_allowed
unfolding record_action record_entry timestamp_of checked strip
record_action-delete = refl

verifying-IsValid : checked parse iso verifying ≡ ok verifying
unfolding checked parse_iso_timestamp strip
verifying-IsValid = refl

IsLog-of_one : IsLog parse iso (verifying ∷ [])
IsLog-of_one = record {
  ordered = (tt, tt);
  no_repeats = (refl, tt);
  valid = (verifying-IsValid, tt);
}

record_action-IsLog_example : IsLog parse iso (ingesting ∷ verifying ∷ [])
record_action-IsLog_example =
    record_action-IsLog parse iso 2 "alice" "ingest" (some "2026-01-01T00:00:00Z") none
      (verifying ∷ []) recorded IsLog-of_one record_action-ingest

abbrev capture : Metadata
capture = record {
  evidence_id = some "ev-1";
  case_id = some "case";
  evidence_type = some "pcap";
  source_id = none;
  expected_hash = some "ABC1";
  hash_algorithm = some "SHA-256";
}

abbrev digest : String → String
digest bytes = "abc1"

abbrev fits : IntegrityResult → Bool
fits r = true

abbrev verified_capture : IntegrityResult
verified_capture = record {
  evidence_id = "ev-1";
  case_id = "case";
  evidence_type = "pcap";
  source_id = none;
  expected_hash = some "ABC1";
  calculated_hash = some "abc1";
  hash_algorithm = some "SHA-256";
  verification_status = verified;
  verified_at = 5;
}

verify-capture : verify digest digest digest fits 5 capture (some "bytes") ≡ ok verified_capture
unfolding verify required required_type known_algorithm judged calculate_hash compared report lower
    upper
verify-capture = refl

verify-Says_example :
    Says digest digest digest verified
      (known_algorithm (some "SHA-256"))
      (some "bytes")
      (some "ABC1")
      (some "abc1")
verify-Says_example =
    verify-Says digest digest digest fits 5 capture (some "bytes") verified_capture verify-capture
