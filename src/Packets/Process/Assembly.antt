-- ===== src/Packets/Process/Assembly.antt =====
-- That the checks of `process_acquisition` pass on what its own passes gather
-- (backend/app/engines/packet_intelligence/orchestrator.py).
use net_sleuth_ai.Shared.{
  ℕ, String, Bool, false, List, [], ◌∷◌, map, any, ◌==◌, ◌≡◌, refl, ap, ◌∙◌, arith, eq_refl, All,
  All-weaken, ok, Outcome, >>=-Outcome,
}
use net_sleuth_ai.Correlation.Domain.{Flow, ProtocolEvent, Artifact, NetworkIntelligencePackage}
use net_sleuth_ai.Correlation.Input.{naive_flow, naive_event}
use net_sleuth_ai.Correlation.Assembly.Totality.{IsNonempty}
use net_sleuth_ai.Analysis.Findings.Acceptance.{IsSound}
use net_sleuth_ai.Packets.Json.{Python}
use net_sleuth_ai.Packets.Zeek.{Entry}
use net_sleuth_ai.Packets.Zeek.Entries.{IsOf}
use net_sleuth_ai.Packets.Process.{
  FirstPass, SecondPass, first_pass, second_pass, check_flow, check_event_references,
  check_artifact_references, assemble_package, process_entries,
}
use net_sleuth_ai.Packets.Process.Drawn.{IsSupply, IsBelow}
use net_sleuth_ai.Packets.Process.Flows.{
  IsExternal, flow_ids, IsFlowIn, AreFlows, AreFlows-none, first_pass-AreFlows,
}
use net_sleuth_ai.Packets.Process.Parts.{
  check_all-passes, is_broken-of_elem, IsEventIn, IsArtifactIn, event_ids, AreEvents,
}
use net_sleuth_ai.Packets.Process.Events.{second_pass-AreEvents}

-- A package whose parts belong together: sound for the rest of the pipeline, of one acquisition, with
-- ports of 16 bits, and without a broken reference.
pub record IsAssembled (acquisition_id : String) (p : NetworkIntelligencePackage) : Type 0 where
  pub sound : IsSound p
  pub named_flows : All (λ (f : Flow). IsNonempty f.flow_id) p.flows
  pub named_events : All (λ (e : ProtocolEvent). IsNonempty e.event_id) p.protocol_events
  pub named_artifacts : All (λ (a : Artifact). IsNonempty a.artifact_id) p.artifacts
  pub same_acquisition : p.acquisition_id ≡ acquisition_id
  pub flows : All (IsFlowIn acquisition_id) p.flows
  pub events : All (IsEventIn acquisition_id (flow_ids p.flows)) p.protocol_events
  pub artifacts :
      All (IsArtifactIn acquisition_id (flow_ids p.flows) (event_ids p.protocol_events)) p.artifacts

named :
    {A : Type 0} (key : A → String) (fresh : ℕ → String) (n : ℕ) (xs : List A)
    → IsSupply fresh
    → All (IsBelow fresh n) (map key xs)
    → All (λ x. IsNonempty (key x)) xs
named key fresh n [] supply h = tt
named key fresh n (x ∷ xs) supply h =
    let (k, lt, e) = h.0 in
    (ap (λ s. s == "") e ∙ supply.not_empty k, named key fresh n xs supply h.1)

none_naive_flow :
    (acquisition_id : String) (flows : List Flow)
    → All (IsFlowIn acquisition_id) flows
    → any naive_flow flows ≡ false
none_naive_flow acquisition_id [] h = refl
none_naive_flow acquisition_id (f ∷ flows) h =
    ground (arith, h.0.aware, none_naive_flow acquisition_id flows h.1)

none_naive_event :
    (acquisition_id : String) (ids : List String) (events : List ProtocolEvent)
    → All (IsEventIn acquisition_id ids) events
    → any naive_event events ≡ false
none_naive_event acquisition_id ids [] h = refl
none_naive_event acquisition_id ids (e ∷ events) h =
    ground (arith, h.0.aware, none_naive_event acquisition_id ids events h.1)

module _ (py : Python) (takes_nan : Bool) (is_ip : String → Bool) (fresh : ℕ → String)
    (supply : IsSupply fresh) (acquisition_id : String) where
  check_flow-passes :
      (f : Flow)
      → IsFlowIn acquisition_id f
      → check_flow py takes_nan is_ip fresh acquisition_id f ≡ ok tt
  unfolding check_flow
  check_flow-passes f h = ground (arith, h.same_acquisition, eq_refl acquisition_id)

  check_event_references-passes :
      (ids : List String) (e : ProtocolEvent)
      → IsEventIn acquisition_id ids e
      → check_event_references py takes_nan is_ip fresh acquisition_id ids e ≡ ok tt
  unfolding check_event_references
  check_event_references-passes ids e h =
      ground (arith, h.same_acquisition, eq_refl acquisition_id, h.has_parent)

  check_artifact_references-passes :
      (ids known : List String) (a : Artifact)
      → IsArtifactIn acquisition_id ids known a
      → check_artifact_references py takes_nan is_ip fresh acquisition_id ids known a ≡ ok tt
  unfolding check_artifact_references
  check_artifact_references-passes ids known a h =
      rw (is_broken-of_elem known a.source_event_id h.names_event h.has_event)
        (rw (is_broken-of_elem ids a.flow_id h.names_flow h.has_flow) refl)

  assemble_package-IsAssembled :
      (first : FirstPass) (second : SecondPass)
      → AreFlows fresh acquisition_id first
      → AreEvents fresh acquisition_id (flow_ids first.flows) second
      → Outcome
          (IsAssembled acquisition_id)
          IsExternal
          (assemble_package py takes_nan is_ip fresh acquisition_id first second)
  unfolding assemble_package
  assemble_package-IsAssembled first second f s =
      let ids = flow_ids first.flows in
      let known = event_ids second.protocol_events in
      let flows_pass =
        check_all-passes (check_flow py takes_nan is_ip fresh acquisition_id) first.flows
          (All-weaken (IsFlowIn acquisition_id) _ check_flow-passes first.flows f.settled) in
      let events_pass =
        check_all-passes (check_event_references py takes_nan is_ip fresh acquisition_id ids)
          second.protocol_events
          (All-weaken (IsEventIn acquisition_id ids) _ (check_event_references-passes ids)
            second.protocol_events s.settled) in
      let artifacts_pass =
        check_all-passes
          (check_artifact_references py takes_nan is_ip fresh acquisition_id ids known)
          second.artifacts
          (All-weaken (IsArtifactIn acquisition_id ids known) _
            (check_artifact_references-passes ids known) second.artifacts s.traced) in
      rw flows_pass (
        rw events_pass (
          rw artifacts_pass (record {
            sound = record {
              aware_flows = none_naive_flow acquisition_id first.flows f.settled;
              aware_events = none_naive_event acquisition_id ids second.protocol_events s.settled;
              distinct_flows = f.ids.distinct;
              distinct_events = s.ids.distinct;
              distinct_artifacts = s.ids_of_artifacts.distinct;
            };
            named_flows = named (λ (x : Flow). x.flow_id) fresh _ _ supply f.ids.below;
            named_events = named (λ (x : ProtocolEvent). x.event_id) fresh _ _ supply s.ids.below;
            named_artifacts =
                named (λ (x : Artifact). x.artifact_id) fresh _ _ supply s.ids_of_artifacts.below;
            same_acquisition = refl;
            flows = f.settled;
            events = s.settled;
            artifacts = s.traced;
          })))

  pub process_entries-IsAssembled :
      (entries : List Entry)
      → All (IsOf acquisition_id) entries
      → Outcome
          (IsAssembled acquisition_id)
          IsExternal
          (process_entries py takes_nan is_ip fresh acquisition_id entries)
  unfolding process_entries
  process_entries-IsAssembled entries same =
      let none_yet = AreFlows-none py takes_nan is_ip fresh supply acquisition_id in
      >>=-Outcome (AreFlows fresh acquisition_id) (IsAssembled acquisition_id) IsExternal
        (first_pass py takes_nan is_ip fresh acquisition_id entries _) _
        (first_pass-AreFlows py takes_nan is_ip fresh supply acquisition_id entries _ same none_yet)
        λ first f.
          >>=-Outcome (AreEvents fresh acquisition_id (flow_ids first.flows))
            (IsAssembled acquisition_id) IsExternal
            (second_pass py takes_nan is_ip fresh acquisition_id first.flow_index entries _) _
            (second_pass-AreEvents py takes_nan is_ip fresh supply acquisition_id
              (flow_ids first.flows) first.flow_index f.indexed entries _ same
              (record {
                ids = record { distinct = tt; below = tt };
                ids_of_artifacts = record { distinct = tt; below = tt };
                settled = tt;
                traced = tt;
              }))
            λ second s. assemble_package-IsAssembled first second f s
