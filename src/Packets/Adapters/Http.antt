-- ===== src/Packets/Adapters/Http.antt =====
-- `HTTPAdapter` (backend/app/engines/packet_intelligence/adapters/http.py): an event of a record of
-- http.log.
use net_sleuth_ai.Shared.{String, not, ◌||◌, ◌==◌, Result, ok, raise_if, ◌>>=◌, ◌>>◌, Dict, Option}
use net_sleuth_ai.Correlation.Domain.{ProtocolEvent, HttpData, http_data, Integer}
use net_sleuth_ai.Packets.Json.{get, Python, int_of}
use net_sleuth_ai.Packets.Zeek.{RawZeekRecord}
use net_sleuth_ai.Packets.Adapters.{
  invalid_type, unsupported_log_type, Stop, adapter_error, on_bad_value, parse_strictly,
  parse_string, find_parent, event_of,
}

unfoldable pub count_field : Python → RawZeekRecord → String → Result Stop (Option Integer)
count_field py r key =
    on_bad_value (adapter_error r invalid_type) (parse_strictly (int_of py) (get key r.fields))

-- The part of `convert` that reads the fields of HTTP.
unfoldable pub http_fields : Python → RawZeekRecord → Result Stop HttpData
http_fields py r = do
  status_code ← count_field py r "status_code"
  req_size ← count_field py r "request_body_len"
  resp_size ← count_field py r "response_body_len"
  ok (record {
    method = parse_string py (get "method" r.fields);
    host = parse_string py (get "host" r.fields);
    uri = parse_string py (get "uri" r.fields);
    status_code = status_code;
    user_agent = parse_string py (get "user_agent" r.fields);
    request_body_len = req_size;
    response_body_len = resp_size;
  })

-- `convert`
unfoldable pub convert_http :
    Python → String → RawZeekRecord → Dict String → Result Stop ProtocolEvent
convert_http py event_id r flow_index = do
  raise_if (not (r.log_type == "http" || r.log_type == "http.log"))
      (adapter_error r unsupported_log_type)
  parent ← find_parent py r flow_index
  observed ← http_fields py r
  ok (event_of event_id "http" r parent (http_data observed))
