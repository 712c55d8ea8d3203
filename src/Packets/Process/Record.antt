-- ===== src/Packets/Process/Record.antt =====
-- That `process_acquisition` (backend/app/engines/packet_intelligence/orchestrator.py) keeps what is in
-- the logs.
use net_sleuth_ai.Shared.{
  ℕ, String, Bool, Option, List, [], map, present, ◌≡◌, refl, sym, ◌∙◌, ap, Result, ok, err, ◌>>◌,
  >>=-eq-ok, ok-injective,
}
use net_sleuth_ai.Correlation.Domain.{Flow, ProtocolEvent, NetworkIntelligencePackage}
use net_sleuth_ai.Packets.Json.{Json, Python}
use net_sleuth_ai.Packets.Zeek.{ZeekRunnerResult, Entry, read}
use net_sleuth_ai.Packets.Runner.{Host, run_zeek}
use net_sleuth_ai.Packets.Process.{
  Failure, FirstPass, SecondPass, check_all, check_flow, check_event_references,
  check_artifact_references, first_pass, second_pass, assemble_package, process_entries,
  process_acquisition,
}
use net_sleuth_ai.Packets.Process.FlowRecord.{unnamed, flow_in, first_pass-flows}
use net_sleuth_ai.Packets.Process.EventRecord.{
  unnamed_event, index_from, event_in, first_pass-IsIndexed, second_pass-events,
}

-- The package holds the flows and the events of the entries, in their order, and nothing else, but for
-- the identifiers of flows and events. An event belongs to the last flow with its uid.
pub record IsRecordOf (py : Python) (takes_nan : Bool) (entries : List Entry)
    (p : NetworkIntelligencePackage) : Type 0 where
  pub flows : map unnamed p.flows ≡ present (map (flow_in py takes_nan) entries)
  pub events :
      map unnamed_event p.protocol_events
      ≡ present (map (event_in py (index_from [] p.flows)) entries)

after_checks :
    (a b c : Result Failure (Unit {0})) (q p : NetworkIntelligencePackage)
    → (a >> (b >> (c >> ok q))) ≡ ok p
    → q ≡ p
after_checks (ok u) (ok v) (ok w) q p h = ok-injective h
after_checks (ok u) (ok v) (err e) q p h = cc
after_checks (ok u) (err e) c q p h = cc
after_checks (err e) b c q p h = cc

module _ (py : Python) (takes_nan : Bool) (is_ip : String → Bool) (fresh : ℕ → String)
    (acquisition_id : String) where
  assemble_package-eq :
      (first : FirstPass) (second : SecondPass) (p : NetworkIntelligencePackage)
      → assemble_package py takes_nan is_ip fresh acquisition_id first second ≡ ok p
      → (first.flows ≡ p.flows) × (second.protocol_events ≡ p.protocol_events)
  unfolding assemble_package
  assemble_package-eq first second p h =
      let ids = map (λ (f : Flow). f.flow_id) first.flows in
      let known = map (λ (e : ProtocolEvent). e.event_id) second.protocol_events in
      let refers = check_artifact_references py takes_nan is_ip fresh acquisition_id ids known in
      let q : NetworkIntelligencePackage = record {
        package_id = fresh second.drawn;
        acquisition_id = acquisition_id;
        flows = first.flows;
        protocol_events = second.protocol_events;
        artifacts = second.artifacts;
      } in
      let e =
        after_checks (check_all (check_flow py takes_nan is_ip fresh acquisition_id) first.flows)
          (check_all (check_event_references py takes_nan is_ip fresh acquisition_id ids)
            second.protocol_events)
          (check_all refers second.artifacts) q p h in
      (
        ap (λ (x : NetworkIntelligencePackage). x.flows) e,
        ap (λ (x : NetworkIntelligencePackage). x.protocol_events) e,
      )

  process_entries-IsRecordOf :
      (entries : List Entry) (p : NetworkIntelligencePackage)
      → process_entries py takes_nan is_ip fresh acquisition_id entries ≡ ok p
      → IsRecordOf py takes_nan entries p
  unfolding process_entries
  process_entries-IsRecordOf entries p h =
      let (first, one, rest) =
        >>=-eq-ok (first_pass py takes_nan is_ip fresh acquisition_id entries _) _ h in
      let index = first.flow_index in
      let (second, two, made) =
        >>=-eq-ok (second_pass py takes_nan is_ip fresh acquisition_id index entries _)
          (assemble_package py takes_nan is_ip fresh acquisition_id first) rest in
      let (same_flows, same_events) = assemble_package-eq first second p made in
      let indexed =
        first_pass-IsIndexed py takes_nan is_ip fresh acquisition_id entries _ first refl one in
      record {
        flows =
            ap (map unnamed) (sym same_flows)
            ∙ first_pass-flows py takes_nan is_ip fresh acquisition_id entries _ first one;
        events =
            ap (map unnamed_event) (sym same_events)
            ∙ second_pass-events py takes_nan is_ip fresh acquisition_id index entries _ second two
            ∙ ap (λ d. present (map (event_in py d) entries))
                (indexed ∙ ap (index_from []) same_flows);
      }

-- A package that `process_acquisition` returns holds, but for their identifiers and in the order of
-- the logs, the conversions of the records of conn.log that the adapter takes, and the conversions of
-- the records of dns.log, http.log and ssl.log that theirs take, each with the last flow of its uid:
-- none is lost and none is added.
pub process_acquisition-IsRecordOf :
    (py : Python) (takes_nan : Bool) (is_ip : String → Bool) (fresh : ℕ → String)
    (loads : String → Option Json) (host : Host) (acquisition_id capture_reference : String)
    (result : ZeekRunnerResult) (entries : List Entry) (p : NetworkIntelligencePackage)
    → run_zeek host acquisition_id capture_reference ≡ ok result
    → read loads result ≡ ok entries
    → process_acquisition py takes_nan is_ip fresh loads host acquisition_id capture_reference
      ≡ ok p
    → IsRecordOf py takes_nan entries p
unfolding process_acquisition
process_acquisition-IsRecordOf py takes_nan is_ip fresh loads host acquisition_id capture_reference
      result entries p ran logs h =
    let after_run = rw ran at h in
    process_entries-IsRecordOf py takes_nan is_ip fresh acquisition_id entries p
      (rw logs at after_run)
