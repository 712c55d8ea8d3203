-- ===== src/Packets/Adapters/Conn.antt =====
-- `ConnAdapter` (backend/app/engines/packet_intelligence/adapters/conn.py): a flow of a record of
-- conn.log. The bounds are those of the contract `Flow`; whether pydantic takes a duration that is
-- not a number is a parameter.
use net_sleuth_ai.Shared.{
  ℕ, String, Bool, true, false, not, ◌&&◌, ◌||◌, Option, none, some, List, [], ◌∷◌, leb, eqb, ◌==◌,
  Result, ok, err, raise_if, ◌>>=◌, ◌>>◌, any,
}
use net_sleuth_ai.Correlation.Domain.{
  Timestamp, Flow, Float, finite, infinite, not_a_number, Integer, whole,
}
use net_sleuth_ai.Packets.Json.{
  Json, Fields, null, text, get, has, Python, Raised, validation_error, float_of, int_of, str_of,
}
use net_sleuth_ai.Packets.Zeek.{RawZeekRecord}
use net_sleuth_ai.Packets.Adapters.{
  missing_required_field, invalid_type, unsupported_log_type, malformed_record, Stop, passed,
  adapter_error, on_bad_value, parse_or_none, time_of,
}

abbrev required_keys : List String
required_keys = "ts" ∷ "uid" ∷ "id.orig_h" ∷ "id.orig_p" ∷ "id.resp_h" ∷ "id.resp_p" ∷ "proto" ∷ []

unfoldable pub lacks_required : Fields → Bool
lacks_required fields = any (λ key. not (has key fields)) required_keys

-- A text that is not "-".
abbrev text_field : Json → Option String
text_field (text s) = elim (s == "-") [ true ↦ none | false ↦ some s ]
text_field v = none

abbrev pub is_text : Json → Bool
is_text (text s) = true
is_text v = false

-- `FlowProvenance(zeek_uid=v)`: a text or `None`
abbrev pub takes_uid : Json → Bool
takes_uid null = true
takes_uid v = is_text v

abbrev text_of : Json → String
text_of (text s) = s
text_of v = ""

-- `ge=0`
abbrev is_natural : Integer → Bool
is_natural (whole negative n) = not negative || eqb n 0

abbrev pub magnitude : Integer → ℕ
magnitude (whole negative n) = n

-- `ge=0, le=65535`
unfoldable pub is_port : Integer → Bool
is_port n = is_natural n && leb (magnitude n) 65535

abbrev absent_or {ℓ} : {A : Type ℓ} → (A → Bool) → Option A → Bool
absent_or p none = true
absent_or p (some a) = p a

abbrev natural_of : Option Integer → Option ℕ
natural_of none = none
natural_of (some n) = some (magnitude n)

abbrev is_duration : Bool → Float → Bool
is_duration takes_nan (finite negative n) = not negative || eqb n 0
is_duration takes_nan (infinite negative) = not negative
is_duration takes_nan not_a_number = takes_nan

-- The required fields that are numbers.
pub record Required : Type 0 where
  pub timestamp : Timestamp
  pub orig_p : Integer
  pub resp_p : Integer

pub record Optionals : Type 0 where
  pub duration : Option Float
  pub orig_bytes : Option Integer
  pub resp_bytes : Option Integer
  pub orig_packets : Option Integer
  pub resp_packets : Option Integer

abbrev pub pass_on {ℓ} : {A : Type ℓ} → Result Raised A → Result Stop A
pass_on (ok a) = ok a
pass_on (err raised) = err (passed raised)

module _ (py : Python) where
  unfoldable pub required_of : RawZeekRecord → Result Stop Required
  required_of r = do
    timestamp ← on_bad_value (adapter_error r invalid_type) (time_of py (get "ts" r.fields))
    orig_p ← on_bad_value (adapter_error r invalid_type) (int_of py (get "id.orig_p" r.fields))
    resp_p ← on_bad_value (adapter_error r invalid_type) (int_of py (get "id.resp_p" r.fields))
    ok (record { timestamp = timestamp; orig_p = orig_p; resp_p = resp_p })

  abbrev number : RawZeekRecord → String → Result Stop (Option Integer)
  number r key = pass_on (parse_or_none (int_of py) (get key r.fields))

  unfoldable pub optionals_of : RawZeekRecord → Result Stop Optionals
  optionals_of r = do
    duration ← pass_on (parse_or_none (float_of py) (get "duration" r.fields))
    orig_bytes ← number r "orig_bytes"
    resp_bytes ← number r "resp_bytes"
    orig_packets ← number r "orig_pkts"
    resp_packets ← number r "resp_pkts"
    ok (record {
      duration = duration;
      orig_bytes = orig_bytes;
      resp_bytes = resp_bytes;
      orig_packets = orig_packets;
      resp_packets = resp_packets;
    })

  -- The bounds of the contract's fields.
  abbrev pub fits_contract : Bool → Required → Optionals → Bool
  fits_contract takes_nan required o =
      is_port required.orig_p
      && is_port required.resp_p
      && absent_or (is_duration takes_nan) o.duration
      && absent_or is_natural o.orig_bytes
      && absent_or is_natural o.resp_bytes
      && absent_or is_natural o.orig_packets
      && absent_or is_natural o.resp_packets

  unfoldable pub flow_of : String → RawZeekRecord → Required → Optionals → Flow
  flow_of flow_id r required o = record {
    flow_id = flow_id;
    zeek_uid = text_of (get "uid" r.fields);
    acquisition_id = r.acquisition_id;
    timestamp = required.timestamp;
    start_time = some required.timestamp;
    end_time = none;
    source = record { ip = str_of py (get "id.orig_h" r.fields); port = magnitude required.orig_p };
    destination = record {
      ip = str_of py (get "id.resp_h" r.fields);
      port = magnitude required.resp_p;
    };
    protocol = str_of py (get "proto" r.fields);
    service = text_field (get "service" r.fields);
    duration = o.duration;
    orig_bytes = natural_of o.orig_bytes;
    resp_bytes = natural_of o.resp_bytes;
    orig_packets = natural_of o.orig_packets;
    resp_packets = natural_of o.resp_packets;
    connection_state = text_field (get "conn_state" r.fields);
  }

-- `convert`
unfoldable pub convert_conn : Python → Bool → String → RawZeekRecord → Result Stop Flow
convert_conn py takes_nan flow_id r = do
  raise_if (not (r.log_type == "conn")) (adapter_error r unsupported_log_type)
  raise_if (lacks_required r.fields) (adapter_error r missing_required_field)
  required ← required_of py r
  o ← optionals_of py r
  raise_if (not (takes_uid (get "uid" r.fields))) (passed validation_error)
  raise_if (not (is_text (get "uid" r.fields) && fits_contract py takes_nan required o))
      (adapter_error r malformed_record)
  ok (flow_of py flow_id r required o)
