-- ===== src/Packets/Process/EventRecord.antt =====
-- The events that the second pass of `process_acquisition` keeps, and its index of flows
-- (backend/app/engines/packet_intelligence/orchestrator.py).
use net_sleuth_ai.Shared.{
  ℕ, suc, ◌+◌, String, Bool, not, ◌||◌, Option, none, some, List, [], ◌∷◌, ◌++◌, map, length,
  map-append, append_assoc, append-nil, present, ◌==◌, if◌then◌else◌, ◌≡◌, refl, sym, ◌∙◌, ap,
  subst, Result, ok, err, raise_if, ◌>>◌, >>=-eq-ok, ok-injective, inl, inr, Bool-cases, Dict,
  insert,
}
use net_sleuth_ai.Correlation.Domain.{Flow, ProtocolEvent}
use net_sleuth_ai.Packets.Json.{Python}
use net_sleuth_ai.Packets.Zeek.{RawZeekRecord, Entry, raw, malformed, stopped}
use net_sleuth_ai.Packets.Artifacts.{extract}
use net_sleuth_ai.Packets.Adapters.{Stop, returned, passed, find_parent, event_of}
use net_sleuth_ai.Packets.Adapters.Dns.{convert_dns}
use net_sleuth_ai.Packets.Adapters.Http.{http_fields, convert_http}
use net_sleuth_ai.Packets.Adapters.Tls.{tls_fields, convert_tls}
use net_sleuth_ai.Packets.Adapters.Conn.{convert_conn}
use net_sleuth_ai.Packets.Process.{
  Failure, FirstPass, SecondPass, check_all, check_artifact, add_flow, first_step, first_pass,
  convert_event, add_event, second_step, second_pass,
}
use net_sleuth_ai.Packets.Process.FlowRecord.{returned_as, returned_as->>=, present-cons}

-- An event without its identifier.
abbrev pub unnamed_event : ProtocolEvent → ProtocolEvent
unnamed_event e = record e { event_id = "" }

-- The identifier of the last flow with each uid.
abbrev pub index_from : Dict String → List Flow → Dict String
index_from d [] = d
index_from d (f ∷ flows) = index_from (insert f.zeek_uid f.flow_id d) flows

module _ (py : Python) (index : Dict String) (event_id : String) (r : RawZeekRecord) where
  dns-unnamed :
      returned_as unnamed_event (convert_dns py event_id r index)
      ≡ returned_as unnamed_event (convert_dns py "" r index)
  unfolding convert_dns event_of
  dns-unnamed =
      returned_as->>= unnamed_event
        (raise_if (not (r.log_type == "dns" || r.log_type == "dns.log")) _) _ _
        λ u. returned_as->>= unnamed_event (find_parent py r index) _ _ λ p. refl

  http-unnamed :
      returned_as unnamed_event (convert_http py event_id r index)
      ≡ returned_as unnamed_event (convert_http py "" r index)
  unfolding convert_http event_of
  http-unnamed =
      returned_as->>= unnamed_event
        (raise_if (not (r.log_type == "http" || r.log_type == "http.log")) _) _ _
        λ u.
          returned_as->>= unnamed_event (find_parent py r index) _ _
            λ p. returned_as->>= unnamed_event (http_fields py r) _ _ λ d. refl

  tls-unnamed :
      returned_as unnamed_event (convert_tls py event_id r index)
      ≡ returned_as unnamed_event (convert_tls py "" r index)
  unfolding convert_tls event_of
  tls-unnamed =
      returned_as->>= unnamed_event
        (raise_if (not (r.log_type == "ssl" || r.log_type == "ssl.log")) _) _ _
        λ u.
          returned_as->>= unnamed_event (find_parent py r index) _ _
            λ p. returned_as->>= unnamed_event (tls_fields py r) _ _ λ d. refl

-- The event that an adapter returned, if one was called.
abbrev event_from : Option (Result Stop ProtocolEvent) → Option ProtocolEvent
event_from none = none
event_from (some result) = returned_as unnamed_event result

-- The event of an entry, if it is a record of one of the three logs that its adapter takes.
abbrev pub event_in : Python → Dict String → Entry → Option ProtocolEvent
event_in py index (raw r) =
    if r.log_type == "dns"
    then returned_as unnamed_event (convert_dns py "" r index)
    else if r.log_type == "http"
    then returned_as unnamed_event (convert_http py "" r index)
    else if r.log_type == "ssl"
    then returned_as unnamed_event (convert_tls py "" r index)
    else none
event_in py index e = none

index_from-append :
    (d : Dict String) (flows : List Flow) (f : Flow)
    → index_from d (flows ++ (f ∷ [])) ≡ insert f.zeek_uid f.flow_id (index_from d flows)
index_from-append d [] f = refl
index_from-append d (g ∷ flows) f = index_from-append (insert g.zeek_uid g.flow_id d) flows f

-- The index is that of the flows.
abbrev IsIndexed : FirstPass → Type 0
IsIndexed s = s.flow_index ≡ index_from [] s.flows

add_flow-IsIndexed :
    (s t : FirstPass) (result : Result Stop Flow)
    → IsIndexed s
    → add_flow s result ≡ ok t
    → IsIndexed t
unfolding add_flow
add_flow-IsIndexed s t (ok f) i h =
    subst IsIndexed (ok-injective h)
      (ap (insert f.zeek_uid f.flow_id) i ∙ sym (index_from-append [] s.flows f))
add_flow-IsIndexed s t (err (returned e)) i h = subst IsIndexed (ok-injective h) i
add_flow-IsIndexed s t (err (passed raised)) i h = cc

after_check :
    {A : Type 0} (a : Result Failure (Unit {0})) (q p : A)
    → ◌≡◌ {A = Result Failure A} (a >> ok q) (ok p)
    → q ≡ p
after_check (ok u) q p h = ok-injective h
after_check (err e) q p h = cc

module _ (py : Python) (takes_nan : Bool) (is_ip : String → Bool) (fresh : ℕ → String)
    (acquisition_id : String) where
  first_step-IsIndexed :
      (e : Entry) (s t : FirstPass)
      → IsIndexed s
      → first_step py takes_nan is_ip fresh acquisition_id e s ≡ ok t
      → IsIndexed t
  unfolding first_step
  first_step-IsIndexed (malformed e) s t i h = subst IsIndexed (ok-injective h) i
  first_step-IsIndexed stopped s t i h = cc
  first_step-IsIndexed (raw r) s t i h = elim (Bool-cases (r.log_type == "conn")) [
    | inl e ↦ add_flow-IsIndexed s t (convert_conn py takes_nan (fresh s.drawn) r) i (rw e at h)
    | inr e ↦
        let same : ◌≡◌ {A = Result Failure FirstPass} (ok s) (ok t) = rw e at h in
        subst IsIndexed (ok-injective same) i
  ]

  pub first_pass-IsIndexed :
      (entries : List Entry) (s t : FirstPass)
      → IsIndexed s
      → first_pass py takes_nan is_ip fresh acquisition_id entries s ≡ ok t
      → IsIndexed t
  unfolding first_pass
  first_pass-IsIndexed [] s t i h = subst IsIndexed (ok-injective h) i
  first_pass-IsIndexed (e ∷ entries) s t i h =
      let step = first_step py takes_nan is_ip fresh acquisition_id e s in
      let (m, one, rest) =
        >>=-eq-ok step (first_pass py takes_nan is_ip fresh acquisition_id entries) h in
      first_pass-IsIndexed entries m t (first_step-IsIndexed e s m i one) rest

  module _ (index : Dict String) where
    convert_event-unnamed :
        (event_id : String) (r : RawZeekRecord)
        → event_from (convert_event py takes_nan is_ip fresh acquisition_id index event_id r)
          ≡ event_in py index (raw r)
    unfolding convert_event
    convert_event-unnamed event_id r = elim (Bool-cases (r.log_type == "dns")) [
      | inl d ↦ rw d (dns-unnamed py index event_id r)
      | inr d ↦ elim (Bool-cases (r.log_type == "http")) [
        | inl h ↦ rw d (rw h (http-unnamed py index event_id r))
        | inr h ↦ elim (Bool-cases (r.log_type == "ssl")) [
          | inl t ↦ rw d (rw h (rw t (tls-unnamed py index event_id r)))
          | inr t ↦ rw d (rw h (rw t refl))
        ]
      ]
    ]

    same_events :
        (s t : SecondPass)
        → s.protocol_events ≡ t.protocol_events
        → map unnamed_event t.protocol_events ≡ map unnamed_event s.protocol_events ++ []
    same_events s t e =
        ap (map unnamed_event) (sym e) ∙ sym (append-nil (map unnamed_event s.protocol_events))

    add_event-unnamed :
        (s t : SecondPass) (o : Option (Result Stop ProtocolEvent))
        → add_event py takes_nan is_ip fresh acquisition_id s o ≡ ok t
        → map unnamed_event t.protocol_events
          ≡ map unnamed_event s.protocol_events ++ present (event_from o ∷ [])
    unfolding add_event
    add_event-unnamed s t none h =
        same_events s t (ap (λ (q : SecondPass). q.protocol_events) (ok-injective h))
    add_event-unnamed s t (some (err (returned e))) h =
        same_events s t (ap (λ (q : SecondPass). q.protocol_events) (ok-injective h))
    add_event-unnamed s t (some (err (passed raised))) h = cc
    add_event-unnamed s t (some (ok event)) h =
        let extracted = extract is_ip fresh (suc s.drawn) event in
        let q : SecondPass = record {
          protocol_events = s.protocol_events ++ (event ∷ []);
          artifacts = s.artifacts ++ extracted;
          drawn = suc s.drawn + length extracted;
        } in
        let e =
          after_check
            (check_all (check_artifact py takes_nan is_ip fresh acquisition_id event) extracted) q t
            h in
        ap (λ (x : SecondPass). map unnamed_event x.protocol_events) (sym e)
        ∙ map-append unnamed_event s.protocol_events (event ∷ [])

    second_step-events :
        (e : Entry) (s t : SecondPass)
        → second_step py takes_nan is_ip fresh acquisition_id index e s ≡ ok t
        → map unnamed_event t.protocol_events
          ≡ map unnamed_event s.protocol_events ++ present (event_in py index e ∷ [])
    unfolding second_step
    second_step-events (malformed e) s t h =
        same_events s t (ap (λ (q : SecondPass). q.protocol_events) (ok-injective h))
    second_step-events stopped s t h = cc
    second_step-events (raw r) s t h =
        add_event-unnamed s t _ h
        ∙ ap (λ o. map unnamed_event s.protocol_events ++ present (o ∷ []))
            (convert_event-unnamed (fresh s.drawn) r)

    pub second_pass-events :
        (entries : List Entry) (s t : SecondPass)
        → second_pass py takes_nan is_ip fresh acquisition_id index entries s ≡ ok t
        → map unnamed_event t.protocol_events
          ≡ map unnamed_event s.protocol_events ++ present (map (event_in py index) entries)
    unfolding second_pass
    second_pass-events [] s t h =
        same_events s t (ap (λ (q : SecondPass). q.protocol_events) (ok-injective h))
    second_pass-events (e ∷ entries) s t h =
        let step = second_step py takes_nan is_ip fresh acquisition_id index e s in
        let (m, one, rest) =
          >>=-eq-ok step (second_pass py takes_nan is_ip fresh acquisition_id index entries) h in
        let now = present (event_in py index e ∷ []) in
        let later = present (map (event_in py index) entries) in
        second_pass-events entries m t rest
        ∙ ap (λ es. es ++ later) (second_step-events e s m one)
        ∙ append_assoc (map unnamed_event s.protocol_events) now later
        ∙ ap (λ es. map unnamed_event s.protocol_events ++ es)
            (sym (present-cons (event_in py index e) (map (event_in py index) entries)))
