-- ===== src/Packets/Adapters.antt =====
-- What the adapters of backend/app/engines/packet_intelligence/adapters share: their errors
-- (errors.py), the conversion of optional fields, and the steps by which dns.py, http.py and tls.py
-- find the flow and the time of an event. The message of an error is left out. An adapter returns an
-- object, returns an error, or lets an exception pass.
use net_sleuth_ai.Shared.{
  ℕ, String, Bool, true, false, not, Option, none, some, ◌==◌, if◌then◌else◌, Result, ok, err,
  raise_if, ◌>>=◌, ◌>>◌, Dict, lookup,
}
use net_sleuth_ai.Correlation.Domain.{Timestamp, ProtocolData, ProtocolEvent}
use net_sleuth_ai.Packets.Json.{
  Json, Fields, null, boolean, integer, real, text, array, object, get, is_truthy, is_dash,
  is_absent, Python, Raised, value_error, type_error, overflow_error, validation_error, float_of,
  str_of, from_timestamp,
}
use net_sleuth_ai.Packets.Zeek.{RawZeekRecord}
pub mod Conn
pub mod Dns
pub mod Http
pub mod Tls

pub data AdapterErrorCode : Type 0 where
  missing_required_field invalid_type unsupported_log_type malformed_record unknown_uid :
      AdapterErrorCode

pub record AdapterError : Type 0 where
  pub code : AdapterErrorCode
  pub source_log : String
  pub line_number : ℕ
  pub raw_record : Fields

-- Why no object comes back.
pub data Stop : Type 0 where
  returned : AdapterError → Stop
  passed : Raised → Stop

-- `_build_error`, returned
unfoldable pub adapter_error : RawZeekRecord → AdapterErrorCode → Stop
adapter_error r code = returned (record {
  code = code;
  source_log = r.source_log;
  line_number = r.line_number;
  raw_record = r.fields;
})

-- `except (ValueError, TypeError)`
unfoldable pub on_bad_value {ℓ} : {A : Type ℓ} → Stop → Result Raised A → Result Stop A
on_bad_value stop (ok a) = ok a
on_bad_value stop (err overflow_error) = err (passed overflow_error)
on_bad_value stop (err raised) = err stop

-- `except Exception`
unfoldable pub on_exception {ℓ} : {A : Type ℓ} → Stop → Result Raised A → Result Stop A
on_exception stop (ok a) = ok a
on_exception stop (err raised) = err stop

-- `try: return convert(v)`, `except (ValueError, TypeError): return None`
abbrev pub none_on_bad_value {ℓ} : {A : Type ℓ} → Result Raised A → Result Raised (Option A)
none_on_bad_value (ok a) = ok (some a)
none_on_bad_value (err overflow_error) = err overflow_error
none_on_bad_value (err raised) = ok none

unfoldable pub parse_or_none {ℓ} :
    {A : Type ℓ} → (Json → Result Raised A) → Json → Result Raised (Option A)
parse_or_none convert v = if is_absent v then ok none else none_on_bad_value (convert v)

abbrev pub as_some {ℓ} : {A : Type ℓ} → Result Raised A → Result Raised (Option A)
as_some (ok a) = ok (some a)
as_some (err raised) = err raised

unfoldable pub parse_strictly {ℓ} :
    {A : Type ℓ} → (Json → Result Raised A) → Json → Result Raised (Option A)
parse_strictly convert v = if is_absent v then ok none else as_some (convert v)

unfoldable pub parse_string : Python → Json → Option String
parse_string py v = if is_absent v then none else some (str_of py v)

-- `datetime.fromtimestamp(float(v), tz=timezone.utc)`
unfoldable pub time_of : Python → Json → Result Raised Timestamp
time_of py v = float_of py v >>= from_timestamp py

-- `flow_index.get(uid)`: a list and a `dict` have no hash, and the keys are texts.
unfoldable pub find_flow : Dict String → Json → Result Stop (Option String)
find_flow flow_index (text uid) = ok (lookup uid flow_index)
find_flow flow_index (array items) = err (passed type_error)
find_flow flow_index (object fields) = err (passed type_error)
find_flow flow_index v = ok none

pub record Parent : Type 0 where
  pub zeek_uid : String
  pub flow_id : String
  pub timestamp : Timestamp

-- `if not flow_id`
unfoldable pub known_flow : RawZeekRecord → Option String → Result Stop String
known_flow r none = err (adapter_error r unknown_uid)
known_flow r (some flow_id) =
    if flow_id == "" then err (adapter_error r unknown_uid) else ok flow_id

-- The text of a uid that is a key.
abbrev pub uid_text : Json → String
uid_text (text uid) = uid
uid_text v = ""

unfoldable pub find_parent : Python → RawZeekRecord → Dict String → Result Stop Parent
unfolding known_flow on_bad_value
find_parent py r flow_index = do
  raise_if (not (is_truthy (get "uid" r.fields))) (adapter_error r missing_required_field)
  found ← find_flow flow_index (get "uid" r.fields)
  flow_id ← known_flow r found
  raise_if (not (is_truthy (get "ts" r.fields))) (adapter_error r missing_required_field)
  timestamp ← on_bad_value (adapter_error r invalid_type) (time_of py (get "ts" r.fields))
  ok (record { zeek_uid = uid_text (get "uid" r.fields); flow_id = flow_id; timestamp = timestamp })

-- The event, whose type its fields already have.
unfoldable pub event_of : String → String → RawZeekRecord → Parent → ProtocolData → ProtocolEvent
event_of event_id protocol r parent observed = record {
  event_id = event_id;
  flow_id = parent.flow_id;
  zeek_uid = parent.zeek_uid;
  acquisition_id = r.acquisition_id;
  timestamp = parent.timestamp;
  protocol = protocol;
  protocol_data = observed;
}
