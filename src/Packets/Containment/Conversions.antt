-- ===== src/Packets/Containment/Conversions.antt =====
-- That the adapters of backend/app/engines/packet_intelligence/adapters let no exception of a tame
-- record pass.
use net_sleuth_ai.Shared.{
  String, Bool, true, false, not, ◌&&◌, Option, none, some, ◌==◌, if_ind, ◌≡◌, refl, Result,
  raise_if, ◌>>=◌, ◌>>◌, >>=-Outcome, Dict,
}
use net_sleuth_ai.Packets.Json.{
  Json, null, boolean, integer, real, text, array, object, get, Python, int_of, float_of, is_truthy,
}
use net_sleuth_ai.Packets.Zeek.{RawZeekRecord}
use net_sleuth_ai.Packets.Adapters.{
  AdapterErrorCode, missing_required_field, invalid_type, unsupported_log_type, malformed_record,
  Stop, adapter_error, on_bad_value, parse_or_none, parse_strictly, time_of, find_flow, known_flow,
  find_parent,
}
use net_sleuth_ai.Packets.Adapters.Conn.{
  is_text, takes_uid, fits_contract, lacks_required, required_of, optionals_of, pass_on,
  convert_conn,
}
use net_sleuth_ai.Packets.Adapters.Dns.{convert_dns}
use net_sleuth_ai.Packets.Adapters.Http.{count_field, http_fields, convert_http}
use net_sleuth_ai.Packets.Adapters.Tls.{date_field, tls_fields, convert_tls}
use net_sleuth_ai.Packets.Containment.{
  IsReturned, Any, Returns, is_infinite, IsTame, int_of-≢, float_of-≢, on_bad_value-Returns,
  on_exception-Returns, parse_or_none-Returns, parse_strictly-≢,
}

both :
    {A B : Type 0} (first : Result Stop A) (next : A → Result Stop B)
    → Returns first
    → ((a : A) → Returns (next a))
    → Returns (first >>= next)
both first next h k = >>=-Outcome Any Any IsReturned first next h (λ a u. k a)

tested :
    {B : Type 0} (b : Bool) (r : RawZeekRecord) (code : AdapterErrorCode) (next : Result Stop B)
    → Returns next
    → Returns (raise_if b (adapter_error r code) >> next)
unfolding adapter_error
tested true r code next h = tt
tested false r code next h = h

module _ (py : Python) (r : RawZeekRecord) (tame : IsTame py r) where
  whole_field :
      (code : AdapterErrorCode) (key : String)
      → is_infinite (get key r.fields) ≡ false
      → Returns (on_bad_value (adapter_error r code) (int_of py (get key r.fields)))
  whole_field code key t =
      on_bad_value-Returns r code (int_of py (get key r.fields)) (int_of-≢ py (get key r.fields) t)

  required_of-Returns : Returns (required_of py r)
  unfolding required_of
  required_of-Returns =
      both _ _ (on_bad_value-Returns r _ (time_of py (get "ts" r.fields)) tame.ts) λ t.
        both _ _ (whole_field _ "id.orig_p" tame.numbers.0)
          λ orig_p. both _ _ (whole_field _ "id.resp_p" tame.numbers.1.0) λ resp_p. tt

  optional_field :
      (key : String)
      → is_infinite (get key r.fields) ≡ false
      → Returns (pass_on (parse_or_none (int_of py) (get key r.fields)))
  optional_field key t =
      parse_or_none-Returns (int_of py) (get key r.fields) (int_of-≢ py (get key r.fields) t)

  optionals_of-Returns : Returns (optionals_of py r)
  unfolding optionals_of
  optionals_of-Returns =
      let duration = get "duration" r.fields in
      let left = tame.numbers.1.1 in
      both _ _ (parse_or_none-Returns (float_of py) duration (float_of-≢ py duration)) λ d.
        both _ _ (optional_field "orig_bytes" left.0) λ a.
          both _ _ (optional_field "resp_bytes" left.1.0) λ b.
            both _ _ (optional_field "orig_pkts" left.1.1.0)
              λ c. both _ _ (optional_field "resp_pkts" left.1.1.1.0) λ e. tt

  takes_text : (v : Json) → is_text v ≡ true → takes_uid v ≡ true
  takes_text null h = cc
  takes_text (boolean b) h = cc
  takes_text (integer n) h = cc
  takes_text (real x) h = cc
  takes_text (text s) h = refl
  takes_text (array items) h = cc
  takes_text (object fields) h = cc

  pub convert_conn-Returns :
      (takes_nan : Bool) (flow_id : String) → Returns (convert_conn py takes_nan flow_id r)
  unfolding convert_conn
  convert_conn-Returns takes_nan flow_id =
      let uid = get "uid" r.fields in
      tested (not (r.log_type == "conn")) r unsupported_log_type _ (
        tested (lacks_required r.fields) r missing_required_field _ (
          both (required_of py r) _ required_of-Returns λ required.
            both (optionals_of py r) _ optionals_of-Returns λ o. rw (takes_text uid tame.uid) (
              tested (not (is_text uid && fits_contract py takes_nan required o)) r malformed_record
                _ tt)))

  find_flow-Returns :
      (index : Dict String) (v : Json) → is_text v ≡ true → Returns (find_flow index v)
  unfolding find_flow
  find_flow-Returns index null h = cc
  find_flow-Returns index (boolean b) h = cc
  find_flow-Returns index (integer n) h = cc
  find_flow-Returns index (real x) h = cc
  find_flow-Returns index (text s) h = tt
  find_flow-Returns index (array items) h = cc
  find_flow-Returns index (object fields) h = cc

  known_flow-Returns : (o : Option String) → Returns (known_flow r o)
  unfolding known_flow adapter_error
  known_flow-Returns none = tt
  known_flow-Returns (some flow_id) =
      if_ind (Returns {A = String}) (flow_id == "") (λ e. tt) (λ e. tt)

  find_parent-Returns : (index : Dict String) → Returns (find_parent py r index)
  unfolding find_parent
  find_parent-Returns index =
      let uid = get "uid" r.fields in
      let ts = get "ts" r.fields in
      tested (not (is_truthy uid)) r missing_required_field _ (
        both (find_flow index uid) _ (find_flow-Returns index uid tame.uid) λ o.
          both (known_flow r o) _ (known_flow-Returns o) λ flow_id.
            tested (not (is_truthy ts)) r missing_required_field _ (
              both (on_bad_value (adapter_error r invalid_type) (time_of py ts)) _
                (on_bad_value-Returns r invalid_type (time_of py ts) tame.ts) λ t. tt))

  count_field-Returns :
      (key : String) → is_infinite (get key r.fields) ≡ false → Returns (count_field py r key)
  unfolding count_field
  count_field-Returns key t =
      let v = get key r.fields in
      on_bad_value-Returns r invalid_type (parse_strictly (int_of py) v)
        (parse_strictly-≢ (int_of py) v (int_of-≢ py v t))

  date_field-Returns : (key : String) → Returns (date_field py r key)
  unfolding date_field
  date_field-Returns key =
      on_exception-Returns r malformed_record (parse_or_none (time_of py) (get key r.fields))

  module _ (event_id : String) (index : Dict String) where
    pub convert_dns-Returns : Returns (convert_dns py event_id r index)
    unfolding convert_dns
    convert_dns-Returns =
        tested _ r unsupported_log_type _
          (both (find_parent py r index) _ (find_parent-Returns index) λ p. tt)

    pub convert_http-Returns : Returns (convert_http py event_id r index)
    unfolding convert_http http_fields
    convert_http-Returns =
        let left = tame.numbers.1.1.1.1.1.1 in
        tested _ r unsupported_log_type _ (
          both (find_parent py r index) _ (find_parent-Returns index) λ p.
            both (http_fields py r) _
              (both (count_field py r _) _ (count_field-Returns "status_code" left.0) λ a.
                both (count_field py r _) _ (count_field-Returns "request_body_len" left.1.0) λ b.
                  both (count_field py r _) _ (count_field-Returns "response_body_len" left.1.1.0)
                    λ c. tt)
              λ d. tt)

    pub convert_tls-Returns : Returns (convert_tls py event_id r index)
    unfolding convert_tls tls_fields
    convert_tls-Returns = tested _ r unsupported_log_type _ (
        both (find_parent py r index) _ (find_parent-Returns index) λ p.
          both (tls_fields py r) _
            (both (date_field py r _) _ (date_field-Returns "not_valid_before")
              λ a. both (date_field py r _) _ (date_field-Returns "not_valid_after") λ b. tt)
            λ d. tt)
