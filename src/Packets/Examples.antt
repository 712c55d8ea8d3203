-- ===== src/Packets/Examples.antt =====
-- Runs of the adapters and of the artifact extractor
-- (backend/app/engines/packet_intelligence).
use net_sleuth_ai.Shared.{
  ok, err, Dict, false, lookup, ◌≡◌, ℕ, refl, String, Bool, true, ◌==◌, none, some, [], ◌∷◌, map,
}
use net_sleuth_ai.Correlation.Domain.{ProtocolEvent, dns_data, ip, Artifact}
use net_sleuth_ai.Packets.Artifacts.{
  of_field, of_answers, extracts, build_artifact, build_all, extract,
}
use net_sleuth_ai.Correlation.Domain.{infinite, whole}
use net_sleuth_ai.Packets.Json.{
  Fields, field, integer, real, text, validation_error, overflow_error, get, has, float_of, int_of,
  str_of, from_timestamp,
}
use net_sleuth_ai.Packets.Zeek.{RawZeekRecord}
use net_sleuth_ai.Packets.Adapters.{
  invalid_type, malformed_record, passed, adapter_error, on_bad_value, on_exception, parse_or_none,
  parse_strictly, time_of, find_flow, known_flow, find_parent,
}
use net_sleuth_ai.Packets.Adapters.Conn.{
  convert_conn, required_of, optionals_of, flow_of, lacks_required, is_port,
}
use net_sleuth_ai.Packets.Adapters.Dns.{convert_dns}
use net_sleuth_ai.Packets.Adapters.Http.{convert_http, http_fields, count_field}
use net_sleuth_ai.Packets.Adapters.Tls.{convert_tls, tls_fields, date_field}
use net_sleuth_ai.Packets.Conversion.{IsFlowOf, convert_conn-IsFlowOf}
use net_sleuth_ai.Packets.Samples.{python, conn_line, dns_line, flow}

abbrev query : ProtocolEvent
query = record {
  event_id = "e1";
  flow_id = "f1";
  zeek_uid = "f1";
  acquisition_id = "acq";
  timestamp = record { moment = 12; tz_aware = true };
  protocol = "dns";
  protocol_data = dns_data (record {
    query = some "evil.example";
    query_type = some "A";
    answers = "203.0.113.9" ∷ "" ∷ [];
    response_code = none;
  });
}

abbrev is_address : String → Bool
is_address s = s == "203.0.113.9"

abbrev uuid : ℕ → String
uuid n = "u"

abbrev answer : Artifact
answer = record {
  artifact_id = "u";
  type = ip;
  value = "203.0.113.9";
  source_event_id = some "e1";
  flow_id = some "f1";
  acquisition_id = "acq";
  first_seen = some (record { moment = 12; tz_aware = true });
  last_seen = some (record { moment = 12; tz_aware = true });
}

extract_run :
    map (λ a. a.value) (extract is_address uuid 0 query) ≡ "evil.example" ∷ "203.0.113.9" ∷ []
unfolding extract build_all build_artifact extracts of_field of_answers
extract_run = refl

abbrev record_of : String → Fields → RawZeekRecord
record_of kind fields = record {
  acquisition_id = "acq";
  source_log = "x.log";
  log_type = kind;
  fields = fields;
  line_number = 7;
}

abbrev index : Dict String
index = ("C1", "f1") ∷ []

conn_run : convert_conn python false "u" (record_of "conn" conn_line) ≡ ok flow
unfolding convert_conn required_of optionals_of flow_of lacks_required is_port adapter_error
    on_bad_value parse_or_none time_of get has float_of int_of str_of from_timestamp
conn_run = refl

convert_conn-IsFlowOf_example : IsFlowOf "u" (record_of "conn" conn_line) flow
convert_conn-IsFlowOf_example =
    convert_conn-IsFlowOf python false "u" (record_of "conn" conn_line) flow conn_run

-- A uid that is no text and not null lets a `ValidationError` pass.
uid_run :
    convert_conn python false "u"
      (record_of "conn" (field "uid" (integer (whole false 7)) conn_line))
    ≡ err (passed validation_error)
unfolding convert_conn required_of optionals_of lacks_required adapter_error on_bad_value
    parse_or_none time_of get has float_of int_of from_timestamp
uid_run = refl

-- So does the time of a record that is infinite.
time_run :
    convert_dns python "u" (record_of "dns" (field "ts" (real (infinite false)) dns_line)) index
    ≡ err (passed overflow_error)
unfolding convert_dns find_parent find_flow known_flow adapter_error on_bad_value time_of get
    float_of from_timestamp lookup
time_run = refl

-- In a date of a certificate it makes the record malformed.
date_run :
    convert_tls python "u"
      (record_of "ssl" (field "not_valid_after" (real (infinite false)) dns_line))
      index
    ≡ err (
        adapter_error
          (record_of "ssl" (field "not_valid_after" (real (infinite false)) dns_line))
          malformed_record)
unfolding convert_tls tls_fields date_field find_parent find_flow known_flow adapter_error
    on_bad_value on_exception parse_or_none time_of get float_of from_timestamp lookup
date_run = refl

-- A count that is a text which no number is.
count_run :
    convert_http python "u" (record_of "http" (field "status_code" (text "ok") dns_line)) index
    ≡ err (adapter_error (record_of "http" (field "status_code" (text "ok") dns_line)) invalid_type)
unfolding convert_http http_fields count_field find_parent find_flow known_flow adapter_error
    on_bad_value parse_strictly time_of get float_of int_of from_timestamp lookup
count_run = refl
