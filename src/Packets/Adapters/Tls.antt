-- ===== src/Packets/Adapters/Tls.antt =====
-- `TLSAdapter` (backend/app/engines/packet_intelligence/adapters/tls.py): an event of a record of
-- ssl.log. An overflow in the dates of the certificate stands inside the `try`.
use net_sleuth_ai.Shared.{String, not, ◌||◌, ◌==◌, Result, ok, raise_if, ◌>>=◌, ◌>>◌, Dict, Option}
use net_sleuth_ai.Correlation.Domain.{Timestamp, ProtocolEvent, TlsData, tls_data}
use net_sleuth_ai.Packets.Json.{get, Python}
use net_sleuth_ai.Packets.Zeek.{RawZeekRecord}
use net_sleuth_ai.Packets.Adapters.{
  unsupported_log_type, malformed_record, Stop, adapter_error, on_exception, parse_or_none,
  parse_string, time_of, find_parent, event_of,
}

-- `_parse_datetime`
unfoldable pub date_field : Python → RawZeekRecord → String → Result Stop (Option Timestamp)
date_field py r key =
    on_exception (adapter_error r malformed_record) (parse_or_none (time_of py) (get key r.fields))

-- The part of `convert` that reads the fields of TLS.
unfoldable pub tls_fields : Python → RawZeekRecord → Result Stop TlsData
tls_fields py r = do
  not_valid_before ← date_field py r "not_valid_before"
  not_valid_after ← date_field py r "not_valid_after"
  ok (record {
    version = parse_string py (get "version" r.fields);
    server_name = parse_string py (get "server_name" r.fields);
    cipher = parse_string py (get "cipher" r.fields);
    subject = parse_string py (get "subject" r.fields);
    issuer = parse_string py (get "issuer" r.fields);
    not_valid_before = not_valid_before;
    not_valid_after = not_valid_after;
  })

-- `convert`
unfoldable pub convert_tls :
    Python → String → RawZeekRecord → Dict String → Result Stop ProtocolEvent
convert_tls py event_id r flow_index = do
  raise_if (not (r.log_type == "ssl" || r.log_type == "ssl.log"))
      (adapter_error r unsupported_log_type)
  parent ← find_parent py r flow_index
  observed ← tls_fields py r
  ok (event_of event_id "tls" r parent (tls_data observed))
