-- ===== src/Packets/Adapters/Dns.antt =====
-- `DNSAdapter` (backend/app/engines/packet_intelligence/adapters/dns.py): an event of a record of
-- dns.log.
use net_sleuth_ai.Shared.{
  String, not, ◌&&◌, ◌||◌, List, [], ◌∷◌, map, select, ◌==◌, if◌then◌else◌, Result, ok, raise_if,
  ◌>>=◌, ◌>>◌, strip, split_commas, Dict,
}
use net_sleuth_ai.Correlation.Domain.{ProtocolEvent, dns_data}
use net_sleuth_ai.Packets.Json.{
  Json, Values, no_value, value, text, array, get, is_truthy, is_dash, either, Python, str_of,
}
use net_sleuth_ai.Packets.Zeek.{RawZeekRecord}
use net_sleuth_ai.Packets.Adapters.{
  unsupported_log_type, Stop, adapter_error, parse_string, find_parent, event_of,
}

-- `[str(a) for a in items if a and a != "-"]`
unfoldable pub listed_answers : Python → Values → List String
listed_answers py no_value = []
listed_answers py (value v rest) =
    let others = listed_answers py rest in
    if is_truthy v && not (is_dash v) then str_of py v ∷ others else others

-- `[a.strip() for a in s.split(",") if a.strip()]`
unfoldable pub separated : String → List String
separated s = select (λ a. not (a == "")) (map strip (split_commas s))

unfoldable pub answers_of : Python → Json → List String
unfolding listed_answers separated
answers_of py (array items) = listed_answers py items
answers_of py (text s) = if s == "-" then [] else separated s
answers_of py v = []

-- `convert`
unfoldable pub convert_dns :
    Python → String → RawZeekRecord → Dict String → Result Stop ProtocolEvent
convert_dns py event_id r flow_index = do
  raise_if (not (r.log_type == "dns" || r.log_type == "dns.log"))
      (adapter_error r unsupported_log_type)
  parent ← find_parent py r flow_index
  ok (
      event_of event_id "dns" r parent (
        dns_data (record {
          query = parse_string py (get "query" r.fields);
          query_type = parse_string py (either (get "qtype_name" r.fields) (get "qtype" r.fields));
          answers = answers_of py (get "answers" r.fields);
          response_code =
              parse_string py (either (get "rcode_name" r.fields) (get "rcode" r.fields));
        })))
