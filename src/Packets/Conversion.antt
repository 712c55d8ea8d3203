-- ===== src/Packets/Conversion.antt =====
-- What the objects that the adapters of backend/app/engines/packet_intelligence/adapters return have.
use net_sleuth_ai.Shared.{
  ◌≤◌, String, Bool, true, false, not, ◌&&◌, Option, none, some, leb→le, Result, ok, err, ◌>>=◌,
  >>=-eq-ok, >>-eq-ok, raise_if-eq-ok, ok-injective, ap, subst, ◌∙◌, Dict, lookup, ◌≡◌, refl, arith,
}
use net_sleuth_ai.Correlation.Domain.{
  Timestamp, Flow, Float, finite, infinite, not_a_number, Integer, ProtocolEvent, ProtocolData,
  HttpData, http_data, TlsData, tls_data,
}
use net_sleuth_ai.Packets.Json.{
  Json, null, boolean, integer, real, text, array, object, get, Python, Raised, overflow_error,
  value_error, type_error, validation_error, float_of, from_timestamp,
}
use net_sleuth_ai.Packets.Zeek.{RawZeekRecord}
use net_sleuth_ai.Packets.Adapters.{
  Stop, adapter_error, on_bad_value, time_of, find_flow, find_parent, Parent, event_of, uid_text,
  known_flow,
}
use net_sleuth_ai.Packets.Adapters.Dns.{convert_dns}
use net_sleuth_ai.Packets.Adapters.Http.{convert_http, http_fields}
use net_sleuth_ai.Packets.Adapters.Tls.{convert_tls, tls_fields}
use net_sleuth_ai.Packets.Adapters.Conn.{
  is_port, magnitude, is_text, fits_contract, Optionals, Required, required_of, optionals_of,
  flow_of, convert_conn,
}

abbrev pub Aware : Timestamp → Type 0
Aware t = t.tz_aware ≡ true

on_bad_value-eq-ok :
    {A : Type 0} (stop : Stop) (r : Result Raised A) {a : A} → on_bad_value stop r ≡ ok a → r ≡ ok a
unfolding on_bad_value
on_bad_value-eq-ok stop (ok a) h = ap ok (ok-injective h)
on_bad_value-eq-ok stop (err value_error) h = cc
on_bad_value-eq-ok stop (err type_error) h = cc
on_bad_value-eq-ok stop (err overflow_error) h = cc
on_bad_value-eq-ok stop (err validation_error) h = cc

module _ (py : Python) where
  from_timestamp-Aware : (x : Float) (t : Timestamp) → from_timestamp py x ≡ ok t → Aware t
  unfolding from_timestamp
  from_timestamp-Aware not_a_number t h = cc
  from_timestamp-Aware (infinite negative) t h = cc
  from_timestamp-Aware (finite negative n) t h = ground (arith, h)

  time_of-Aware :
      (stop : Stop) (v : Json) (t : Timestamp) → on_bad_value stop (time_of py v) ≡ ok t → Aware t
  unfolding time_of
  time_of-Aware stop v t h =
      let (x, _, e) =
        >>=-eq-ok (float_of py v) (from_timestamp py) (on_bad_value-eq-ok stop (time_of py v) h) in
      from_timestamp-Aware x t e

-- A flow of a record of conn.log.
pub record IsFlowOf (flow_id : String) (r : RawZeekRecord) (f : Flow) : Type 0 where
  pub drawn : f.flow_id ≡ flow_id
  pub same_acquisition : f.acquisition_id ≡ r.acquisition_id
  pub aware : Aware f.timestamp
  pub started : f.start_time ≡ some f.timestamp
  pub unfinished : f.end_time ≡ none
  pub source_port : f.source.port ≤ 65535
  pub destination_port : f.destination.port ≤ 65535

is_port-le : (n : Integer) → is_port n ≡ true → magnitude n ≤ 65535
unfolding is_port
is_port-le n h = leb→le (magnitude n) 65535 (ground (arith, h))

stamped :
    (t : Timestamp) (a b : Result Stop Integer) (q : Required)
    → (do orig_p ← a; resp_p ← b; ok (record { timestamp = t; orig_p = orig_p; resp_p = resp_p }))
      ≡ ok q
    → t ≡ q.timestamp
stamped t (ok x) (ok y) q h = ap (λ (p : Required). p.timestamp) (ok-injective h)
stamped t (ok x) (err e) q h = cc
stamped t (err e) b q h = cc

module _ (py : Python) (takes_nan : Bool) (flow_id : String) (r : RawZeekRecord) where
  flow_of-IsFlowOf :
      (required : Required) (o : Optionals)
      → required_of py r ≡ ok required
      → (not (is_text (get "uid" r.fields) && fits_contract py takes_nan required o)) ≡ false
      → IsFlowOf flow_id r (flow_of py flow_id r required o)
  unfolding required_of flow_of
  flow_of-IsFlowOf required o read fit =
      let (t, time, ports) = >>=-eq-ok _ _ read in
      let aware = time_of-Aware py (adapter_error r _) (get "ts" r.fields) t time in
      record {
        drawn = refl;
        same_acquisition = refl;
        aware = subst Aware (stamped t _ _ required ports) aware;
        started = refl;
        unfinished = refl;
        source_port = is_port-le required.orig_p (ground (arith, fit));
        destination_port = is_port-le required.resp_p (ground (arith, fit));
      }

  -- A flow that the adapter of conn.log returns has the identifier that was drawn for it and the
  -- acquisition of the record, its time has a zone and is its start, its end is unknown, and its two
  -- ports are at most 65535.
  pub convert_conn-IsFlowOf :
      (f : Flow) → convert_conn py takes_nan flow_id r ≡ ok f → IsFlowOf flow_id r f
  unfolding convert_conn
  convert_conn-IsFlowOf f h =
      let (_, kind) = >>-eq-ok _ _ h in
      let (_, complete) = >>-eq-ok _ _ kind in
      let (required, read, rest) = >>=-eq-ok (required_of py r) _ complete in
      let (o, _, checks) = >>=-eq-ok (optionals_of py r) _ rest in
      let (_, checked) = >>-eq-ok _ _ checks in
      let (fit, made) = >>-eq-ok _ _ checked in
      subst (IsFlowOf flow_id r) (ok-injective made)
        (flow_of-IsFlowOf required o read (raise_if-eq-ok _ _ fit))

-- An event of a record of another log, whose parent is in the index.
pub record IsEventOf (event_id : String) (flow_index : Dict String) (r : RawZeekRecord)
    (e : ProtocolEvent) : Type 0 where
  pub drawn : e.event_id ≡ event_id
  pub same_acquisition : e.acquisition_id ≡ r.acquisition_id
  pub aware : Aware e.timestamp
  pub indexed : lookup e.zeek_uid flow_index ≡ some e.flow_id

-- The parent that was found.
record IsParent (flow_index : Dict String) (p : Parent) : Type 0 where
  aware : Aware p.timestamp
  indexed : lookup p.zeek_uid flow_index ≡ some p.flow_id

module _ (py : Python) (r : RawZeekRecord) (flow_index : Dict String) where
  find_flow-eq :
      (v : Json) (flow_id : String)
      → find_flow flow_index v ≡ ok (some flow_id)
      → lookup (uid_text v) flow_index ≡ some flow_id
  unfolding find_flow
  find_flow-eq null flow_id h = cc
  find_flow-eq (boolean b) flow_id h = cc
  find_flow-eq (integer n) flow_id h = cc
  find_flow-eq (real x) flow_id h = cc
  find_flow-eq (text s) flow_id h = ok-injective h
  find_flow-eq (array items) flow_id h = cc
  find_flow-eq (object fields) flow_id h = cc

  known_flow-eq :
      (o : Option String) (flow_id : String) → known_flow r o ≡ ok flow_id → o ≡ some flow_id
  unfolding known_flow
  known_flow-eq none flow_id h = cc
  known_flow-eq (some s) flow_id h = ground (arith, h)

  find_parent-IsParent : (p : Parent) → find_parent py r flow_index ≡ ok p → IsParent flow_index p
  unfolding find_parent
  find_parent-IsParent p h =
      let (_, named) = >>-eq-ok _ _ h in
      let (o, found, rest) = >>=-eq-ok _ _ named in
      let (flow_id, is_known, timed) = >>=-eq-ok _ _ rest in
      let (_, ts) = >>-eq-ok _ _ timed in
      let (t, time, last) = >>=-eq-ok _ _ ts in
      let e = known_flow-eq o flow_id is_known in
      subst (IsParent flow_index) (ok-injective last) (record {
        aware = time_of-Aware py _ _ t time;
        indexed = find_flow-eq (get "uid" r.fields) flow_id (found ∙ ap ok e);
      })

  module _ (event_id : String) where
    event_of-IsEventOf :
        (protocol : String) (p : Parent) (d : ProtocolData) (e : ProtocolEvent)
        → find_parent py r flow_index ≡ ok p
        → ◌≡◌ {A = Result Stop ProtocolEvent} (ok (event_of event_id protocol r p d)) (ok e)
        → IsEventOf event_id flow_index r e
    unfolding event_of
    event_of-IsEventOf protocol p d e h made =
        let parent = find_parent-IsParent p h in
        subst (IsEventOf event_id flow_index r) (ok-injective made) (record {
          drawn = refl;
          same_acquisition = refl;
          aware = parent.aware;
          indexed = parent.indexed;
        })

    pub convert_dns-IsEventOf :
        (e : ProtocolEvent)
        → convert_dns py event_id r flow_index ≡ ok e
        → IsEventOf event_id flow_index r e
    unfolding convert_dns
    convert_dns-IsEventOf e h =
        let (_, kind) = >>-eq-ok _ _ h in
        let (p, parent, made) = >>=-eq-ok _ _ kind in event_of-IsEventOf "dns" p _ e parent made

    pub convert_http-IsEventOf :
        (e : ProtocolEvent)
        → convert_http py event_id r flow_index ≡ ok e
        → IsEventOf event_id flow_index r e
    unfolding convert_http
    convert_http-IsEventOf e h =
        let (_, kind) = >>-eq-ok _ _ h in
        let (p, parent, status) = >>=-eq-ok _ _ kind in
        let made_of = λ (d : HttpData). ok (event_of event_id "http" r p (http_data d)) in
        let (d, _, made) = >>=-eq-ok (http_fields py r) made_of status in
        event_of-IsEventOf "http" p (http_data d) e parent made

    pub convert_tls-IsEventOf :
        (e : ProtocolEvent)
        → convert_tls py event_id r flow_index ≡ ok e
        → IsEventOf event_id flow_index r e
    unfolding convert_tls
    convert_tls-IsEventOf e h =
        let (_, kind) = >>-eq-ok _ _ h in
        let (p, parent, before) = >>=-eq-ok _ _ kind in
        let made_of = λ (d : TlsData). ok (event_of event_id "tls" r p (tls_data d)) in
        let (d, _, made) = >>=-eq-ok (tls_fields py r) made_of before in
        event_of-IsEventOf "tls" p (tls_data d) e parent made
