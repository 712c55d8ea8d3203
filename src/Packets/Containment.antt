-- ===== src/Packets/Containment.antt =====
-- When the adapters of backend/app/engines/packet_intelligence let no exception pass.
use net_sleuth_ai.Shared.{
  String, Bool, true, false, not, ◌&&◌, Option, none, some, List, [], ◌∷◌, All, ◌==◌, if_ind, ◌≡◌,
  ◌≢◌, refl, Result, ok, err, raise_if, ◌>>=◌, ◌>>◌, Outcome, >>=-Outcome, Dict, err-injective, ap,
  Bool-cases, inl, inr,
}
use net_sleuth_ai.Correlation.Domain.{finite, infinite, not_a_number, whole}
use net_sleuth_ai.Packets.Json.{
  Json, null, boolean, integer, real, text, array, object, get, Python, Raised, value_error,
  type_error, overflow_error, validation_error, or_raise, int_of, float_of, is_absent, is_truthy,
}
use net_sleuth_ai.Packets.Zeek.{RawZeekRecord}
use net_sleuth_ai.Packets.Adapters.{
  AdapterErrorCode, missing_required_field, invalid_type, unsupported_log_type, malformed_record,
  Stop, returned, passed, adapter_error, on_bad_value, on_exception, parse_or_none, parse_strictly,
  none_on_bad_value, as_some, time_of, find_flow, known_flow, find_parent,
}
use net_sleuth_ai.Packets.Adapters.Conn.{
  is_text, takes_uid, fits_contract, lacks_required, required_of, optionals_of, pass_on,
  convert_conn,
}
use net_sleuth_ai.Packets.Adapters.Dns.{convert_dns}
use net_sleuth_ai.Packets.Adapters.Http.{count_field, http_fields, convert_http}
use net_sleuth_ai.Packets.Adapters.Tls.{date_field, tls_fields, convert_tls}
pub mod Conversions

abbrev pub IsReturned : Stop → Type 0
IsReturned (returned e) = Unit
IsReturned (passed raised) = ⊥

-- No claim about a value.
abbrev pub Any {ℓ} : {A : Type ℓ} → A → Type 0
Any a = Unit

-- The adapter returned, whatever it returned.
abbrev pub Returns : {A : Type 0} → Result Stop A → Type 0
Returns r = Outcome Any IsReturned r

abbrev pub is_infinite : Json → Bool
is_infinite (real (infinite negative)) = true
is_infinite v = false

abbrev pub number_keys : List String
number_keys =
    "id.orig_p" ∷ "id.resp_p" ∷ "orig_bytes" ∷ "resp_bytes" ∷ "orig_pkts" ∷ "resp_pkts"
    ∷ "status_code" ∷ "request_body_len" ∷ "response_body_len" ∷ []

-- The uid is a text, the platform has the time, and no number is infinite.
pub record IsTame (py : Python) (r : RawZeekRecord) : Type 0 where
  pub uid : is_text (get "uid" r.fields) ≡ true
  pub ts : time_of py (get "ts" r.fields) ≢ err overflow_error
  pub numbers : All (λ key. is_infinite (get key r.fields) ≡ false) number_keys

or_raise-≢ : {A : Type 0} (o : Option A) → or_raise value_error o ≢ err overflow_error
or_raise-≢ none h = cc
or_raise-≢ (some a) h = cc

module _ (py : Python) where
  pub int_of-≢ : (v : Json) → is_infinite v ≡ false → int_of py v ≢ err overflow_error
  unfolding int_of
  int_of-≢ null t h = cc
  int_of-≢ (boolean true) t h = cc
  int_of-≢ (boolean false) t h = cc
  int_of-≢ (integer n) t h = cc
  int_of-≢ (real (finite negative n)) t h = cc
  int_of-≢ (real (infinite negative)) t h = cc
  int_of-≢ (real not_a_number) t h = cc
  int_of-≢ (text s) t h = or_raise-≢ (py.read_int s) h
  int_of-≢ (array items) t h = cc
  int_of-≢ (object fields) t h = cc

  pub float_of-≢ : (v : Json) → float_of py v ≢ err overflow_error
  unfolding float_of
  float_of-≢ null h = cc
  float_of-≢ (boolean true) h = cc
  float_of-≢ (boolean false) h = cc
  float_of-≢ (integer (whole negative n)) h = cc
  float_of-≢ (real x) h = cc
  float_of-≢ (text s) h = or_raise-≢ (py.read_float s) h
  float_of-≢ (array items) h = cc
  float_of-≢ (object fields) h = cc

module _ {A : Type 0} where
  pub on_bad_value-Returns :
      (r : RawZeekRecord) (code : AdapterErrorCode) (result : Result Raised A)
      → result ≢ err overflow_error
      → Returns (on_bad_value (adapter_error r code) result)
  unfolding on_bad_value adapter_error
  on_bad_value-Returns r code (ok a) h = tt
  on_bad_value-Returns r code (err value_error) h = tt
  on_bad_value-Returns r code (err type_error) h = tt
  on_bad_value-Returns r code (err overflow_error) h = absurd (h refl)
  on_bad_value-Returns r code (err validation_error) h = tt

  pub on_exception-Returns :
      (r : RawZeekRecord) (code : AdapterErrorCode) (result : Result Raised A)
      → Returns (on_exception (adapter_error r code) result)
  unfolding on_exception adapter_error
  on_exception-Returns r code (ok a) = tt
  on_exception-Returns r code (err raised) = tt

  none_on_bad_value-Returns :
      (result : Result Raised A)
      → result ≢ err overflow_error
      → Returns (pass_on (none_on_bad_value result))
  none_on_bad_value-Returns (ok a) h = tt
  none_on_bad_value-Returns (err value_error) h = tt
  none_on_bad_value-Returns (err type_error) h = tt
  none_on_bad_value-Returns (err overflow_error) h = absurd (h refl)
  none_on_bad_value-Returns (err validation_error) h = tt

  pub parse_or_none-Returns :
      (convert : Json → Result Raised A) (v : Json)
      → convert v ≢ err overflow_error
      → Returns (pass_on (parse_or_none convert v))
  unfolding parse_or_none
  parse_or_none-Returns convert v h = elim (Bool-cases (is_absent v)) [
    | inl e ↦ rw e tt
    | inr e ↦ rw e (none_on_bad_value-Returns (convert v) h)
  ]

  as_some-≢ :
      (result : Result Raised A) → result ≢ err overflow_error → as_some result ≢ err overflow_error
  as_some-≢ (ok a) h e = cc
  as_some-≢ (err raised) h e = h (ap err (err-injective e))

  pub parse_strictly-≢ :
      (convert : Json → Result Raised A) (v : Json)
      → convert v ≢ err overflow_error
      → parse_strictly convert v ≢ err overflow_error
  unfolding parse_strictly
  parse_strictly-≢ convert v h e = elim (Bool-cases (is_absent v)) [
    | inl a ↦ cc
    | inr a ↦ as_some-≢ (convert v) h (rw a at e)
  ]
