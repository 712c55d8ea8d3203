-- ===== src/Packets/Process/Events.antt =====
-- What the second pass of `process_acquisition`
-- (backend/app/engines/packet_intelligence/orchestrator.py) gathers.
use net_sleuth_ai.Shared.{
  ℕ, suc, ◌+◌, String, Bool, true, false, Option, none, some, List, [], ◌∷◌, ◌++◌, map-append, ◌==◌,
  ◌≡◌, refl, sym, ◌∙◌, ap, subst, arith, eq_refl, elem, elem-append, All, All-append, All-weaken,
  length, Result, ok, err, Outcome, >>=-Outcome, Values, Dict, if_ind, some-injective,
}
use net_sleuth_ai.Correlation.Domain.{ProtocolEvent, Artifact}
use net_sleuth_ai.Packets.Json.{Python}
use net_sleuth_ai.Packets.Zeek.{RawZeekRecord, Entry, raw, malformed, stopped}
use net_sleuth_ai.Packets.Zeek.Entries.{IsOf}
use net_sleuth_ai.Packets.Adapters.{Stop, returned, passed}
use net_sleuth_ai.Packets.Artifacts.{extract}
use net_sleuth_ai.Packets.Provenance.{
  IsTraceable, extract-IsTraceable, validate_artifact_provenance-accepts_iff,
}
use net_sleuth_ai.Packets.Conversion.{
  IsEventOf, convert_dns-IsEventOf, convert_http-IsEventOf, convert_tls-IsEventOf,
}
use net_sleuth_ai.Packets.Process.{
  SecondPass, convert_event, check_artifact, add_event, second_step, second_pass,
}
use net_sleuth_ai.Packets.Process.Drawn.{
  IsSupply, AreDrawn, AreDrawn-later, AreDrawn-snoc, AreDrawn-extract,
}
use net_sleuth_ai.Packets.Process.Flows.{IsExternal}
use net_sleuth_ai.Packets.Process.Parts.{
  check_all-passes, IsEventIn, IsArtifactIn, event_ids, artifact_ids, AreEvents,
  IsArtifactIn-append,
}

module _ (py : Python) (takes_nan : Bool) (is_ip : String → Bool) (fresh : ℕ → String)
    (supply : IsSupply fresh) (acquisition_id : String) (flow_ids : List String)
    (flow_index : Dict String) (indexed : Values (λ id. elem id flow_ids ≡ true) flow_index) where
  convert_event-IsEventOf :
      (event_id : String) (r : RawZeekRecord) (e : ProtocolEvent)
      → convert_event py takes_nan is_ip fresh acquisition_id flow_index event_id r ≡ some (ok e)
      → IsEventOf event_id flow_index r e
  unfolding convert_event
  convert_event-IsEventOf event_id r e =
      let P : Option (Result Stop ProtocolEvent) → Type 0 =
        λ o. o ≡ some (ok e) → IsEventOf event_id flow_index r e in
      if_ind P (r.log_type == "dns")
        (λ k h. convert_dns-IsEventOf py r flow_index event_id e (some-injective h))
        λ k.
          if_ind P (r.log_type == "http")
            (λ k h. convert_http-IsEventOf py r flow_index event_id e (some-injective h))
            λ k.
              if_ind P (r.log_type == "ssl")
                (λ k h. convert_tls-IsEventOf py r flow_index event_id e (some-injective h))
                (λ k h. cc)

  check_artifact-passes :
      (e : ProtocolEvent) (a : Artifact)
      → (e.event_id == "") ≡ false
      → e.acquisition_id ≡ acquisition_id
      → IsTraceable is_ip e a
      → check_artifact py takes_nan is_ip fresh acquisition_id e a ≡ ok tt
  unfolding check_artifact
  check_artifact-passes e a named same t =
      let leads = (validate_artifact_provenance-accepts_iff a e named).0 t.accepted in
      ground (arith, t.accepted, leads.same_acquisition, same, eq_refl acquisition_id)

  IsArtifactIn-of :
      (e : ProtocolEvent) (a : Artifact) (before : List String)
      → (e.event_id == "") ≡ false
      → IsEventIn acquisition_id flow_ids e
      → IsTraceable is_ip e a
      → IsArtifactIn acquisition_id flow_ids (before ++ (e.event_id ∷ [])) a
  IsArtifactIn-of e a before named h t =
      let leads = (validate_artifact_provenance-accepts_iff a e named).0 t.accepted in
      record {
        same_acquisition = leads.same_acquisition ∙ h.same_acquisition;
        event_id = e.event_id;
        names_event = leads.same_event;
        has_event =
            ground (arith, elem-append e.event_id before (e.event_id ∷ []), eq_refl e.event_id);
        flow_id = e.flow_id;
        names_flow = leads.same_flow;
        has_flow = h.has_parent;
        first = e.timestamp;
        seen_first = t.first;
        first_aware = h.aware;
        last = e.timestamp;
        seen_last = t.last;
        last_aware = h.aware;
      }

  AreEvents-skip :
      (s : SecondPass)
      → AreEvents fresh acquisition_id flow_ids s
      → AreEvents fresh acquisition_id flow_ids (record s { drawn = suc s.drawn })
  AreEvents-skip s h = record {
    ids =
        AreDrawn-later fresh supply s.drawn (suc s.drawn) (event_ids s.protocol_events)
          (omega arith) h.ids;
    ids_of_artifacts =
        AreDrawn-later fresh supply s.drawn (suc s.drawn) (artifact_ids s.artifacts) (omega arith)
          h.ids_of_artifacts;
    settled = h.settled;
    traced = h.traced;
  }

  -- The state after an event and its artifacts.
  with_event : SecondPass → ProtocolEvent → SecondPass
  with_event s event =
      let extracted = extract is_ip fresh (suc s.drawn) event in
      record {
        protocol_events = s.protocol_events ++ (event ∷ []);
        artifacts = s.artifacts ++ extracted;
        drawn = suc s.drawn + length extracted;
      }

  AreEvents-with_event :
      (s : SecondPass) (event : ProtocolEvent)
      → event.event_id ≡ fresh s.drawn
      → IsEventIn acquisition_id flow_ids event
      → All (IsTraceable is_ip event) (extract is_ip fresh (suc s.drawn) event)
      → AreEvents fresh acquisition_id flow_ids s
      → AreEvents fresh acquisition_id flow_ids (with_event s event)
  unfolding with_event
  AreEvents-with_event s event drawn settled traceable h =
      let n = suc s.drawn in
      let extracted = extract is_ip fresh n event in
      let known = event_ids s.protocol_events in
      let longer = map-append (λ (e : ProtocolEvent). e.event_id) s.protocol_events (event ∷ []) in
      let named = ap (λ id. id == "") drawn ∙ supply.not_empty s.drawn in
      let more = map-append (λ (a : Artifact). a.artifact_id) s.artifacts extracted in
      let IsIn : Artifact → Type 0 =
        IsArtifactIn acquisition_id flow_ids (known ++ (event.event_id ∷ [])) in
      record {
        ids = AreDrawn-later fresh supply n (n + length extracted) _ (omega arith) (
            subst (AreDrawn fresh n) (cc (longer, drawn))
              (AreDrawn-snoc fresh supply s.drawn known h.ids));
        ids_of_artifacts = subst (AreDrawn fresh (n + length extracted)) (sym more) (
            AreDrawn-extract fresh supply is_ip event n (artifact_ids s.artifacts) (
              AreDrawn-later fresh supply s.drawn n (artifact_ids s.artifacts) (omega arith)
                h.ids_of_artifacts));
        settled =
            All-append (IsEventIn acquisition_id flow_ids) s.protocol_events (event ∷ []) h.settled
              (settled, tt);
        traced =
            subst (λ ids. All (IsArtifactIn acquisition_id flow_ids ids) (s.artifacts ++ extracted))
              (sym longer)
              (All-append IsIn s.artifacts extracted
                (All-weaken (IsArtifactIn acquisition_id flow_ids known) IsIn
                  (IsArtifactIn-append acquisition_id flow_ids known (event.event_id ∷ []))
                  s.artifacts h.traced)
                (All-weaken (IsTraceable is_ip event) IsIn
                  (λ a. IsArtifactIn-of event a known named settled) extracted traceable));
      }

  add_event-AreEvents :
      (s : SecondPass) (r : RawZeekRecord) (o : Option (Result Stop ProtocolEvent))
      → r.acquisition_id ≡ acquisition_id
      → ((e : ProtocolEvent) → o ≡ some (ok e) → IsEventOf (fresh s.drawn) flow_index r e)
      → AreEvents fresh acquisition_id flow_ids s
      → Outcome
          (AreEvents fresh acquisition_id flow_ids)
          IsExternal
          (add_event py takes_nan is_ip fresh acquisition_id s o)
  unfolding add_event with_event
  add_event-AreEvents s r none same made h = AreEvents-skip s h
  add_event-AreEvents s r (some (err (returned e))) same made h = AreEvents-skip s h
  add_event-AreEvents s r (some (err (passed raised))) same made h = tt
  add_event-AreEvents s r (some (ok event)) same made h =
      let m = made event refl in
      let named = ap (λ id. id == "") m.drawn ∙ supply.not_empty s.drawn in
      let extracted = extract is_ip fresh (suc s.drawn) event in
      let traceable = extract-IsTraceable is_ip fresh (suc s.drawn) event named in
      let check = check_artifact py takes_nan is_ip fresh acquisition_id event in
      let own = m.same_acquisition ∙ same in
      let passes = check_all-passes check extracted (
        All-weaken (IsTraceable is_ip event) (λ a. check a ≡ ok tt)
          (λ a. check_artifact-passes event a named own) extracted traceable) in
      let settled : IsEventIn acquisition_id flow_ids event = record {
        same_acquisition = own;
        aware = m.aware;
        has_parent = indexed event.zeek_uid event.flow_id m.indexed;
      } in
      rw passes (AreEvents-with_event s event m.drawn settled traceable h)

  second_step-AreEvents :
      (e : Entry) (s : SecondPass)
      → IsOf acquisition_id e
      → AreEvents fresh acquisition_id flow_ids s
      → Outcome
          (AreEvents fresh acquisition_id flow_ids)
          IsExternal
          (second_step py takes_nan is_ip fresh acquisition_id flow_index e s)
  unfolding second_step
  second_step-AreEvents (malformed e) s same h = h
  second_step-AreEvents stopped s same h = tt
  second_step-AreEvents (raw r) s same h =
      add_event-AreEvents s r _ same (convert_event-IsEventOf (fresh s.drawn) r) h

  pub second_pass-AreEvents :
      (entries : List Entry) (s : SecondPass)
      → All (IsOf acquisition_id) entries
      → AreEvents fresh acquisition_id flow_ids s
      → Outcome
          (AreEvents fresh acquisition_id flow_ids)
          IsExternal
          (second_pass py takes_nan is_ip fresh acquisition_id flow_index entries s)
  unfolding second_pass
  second_pass-AreEvents [] s same h = h
  second_pass-AreEvents (e ∷ entries) s same h =
      >>=-Outcome (AreEvents fresh acquisition_id flow_ids)
        (AreEvents fresh acquisition_id flow_ids) IsExternal
        (second_step py takes_nan is_ip fresh acquisition_id flow_index e s)
        (second_pass py takes_nan is_ip fresh acquisition_id flow_index entries)
        (second_step-AreEvents e s same.0 h) (λ t k. second_pass-AreEvents entries t same.1 k)
