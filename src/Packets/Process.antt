-- ===== src/Packets/Process.antt =====
-- `M1Orchestrator.process_acquisition` (backend/app/engines/packet_intelligence/orchestrator.py): two
-- passes over the records of a run of Zeek, the checks of the references, and the package. The
-- identifiers that uuid4 draws are a sequence, of which each record of a pass sets one aside.
use net_sleuth_ai.Shared.{
  ℕ, suc, ◌+◌, String, Bool, false, not, ◌&&◌, Option, none, some, List, [], ◌∷◌, ◌++◌, map, ◌==◌,
  if◌then◌else◌, Result, ok, err, raise_if, ◌>>=◌, ◌>>◌, Dict, insert, elem, length,
}
use net_sleuth_ai.Correlation.Domain.{Flow, ProtocolEvent, Artifact, NetworkIntelligencePackage}
use net_sleuth_ai.Packets.Json.{Json, Python, Raised}
use net_sleuth_ai.Packets.Zeek.{
  ZeekFailure, ZeekRunnerResult, RawZeekRecord, Entry, raw, malformed, stopped, read,
}
use net_sleuth_ai.Packets.Runner.{Host, run_zeek}
use net_sleuth_ai.Packets.Adapters.{Stop, returned, passed}
use net_sleuth_ai.Packets.Adapters.Conn.{convert_conn}
use net_sleuth_ai.Packets.Adapters.Dns.{convert_dns}
use net_sleuth_ai.Packets.Adapters.Http.{convert_http}
use net_sleuth_ai.Packets.Adapters.Tls.{convert_tls}
use net_sleuth_ai.Packets.Artifacts.{ProvenanceError, extract, validate_artifact_provenance}
pub mod Drawn
pub mod Flows
pub mod Parts
pub mod Events
pub mod Assembly
pub mod Outcome
pub mod Pipeline
pub mod FlowRecord
pub mod EventRecord
pub mod Record
pub mod Refusals
pub mod Answer
mod Examples

pub data PackageAssemblyErrorCode : Type 0 where
  acquisition_mismatch broken_flow_reference broken_event_reference provenance_failure
        missing_required_data :
      PackageAssemblyErrorCode

-- The exceptions that leave `process_acquisition`.
pub data Failure : Type 0 where
  zeek_failed : ZeekFailure → Failure
  undecodable_log : Failure
  conversion_raised : Raised → Failure
  provenance_refused : ProvenanceError → Failure
  assembly_refused : PackageAssemblyErrorCode → Failure

pub record FirstPass : Type 0 where
  pub flows : List Flow
  pub flow_index : Dict String
  pub drawn : ℕ

pub record SecondPass : Type 0 where
  pub protocol_events : List ProtocolEvent
  pub artifacts : List Artifact
  pub drawn : ℕ

-- `for item in items: check(item)`
unfoldable pub check_all {ℓ} :
    {A : Type ℓ} → (A → Result Failure (Unit {0})) → List A → Result Failure (Unit {0})
check_all check [] = ok tt
check_all check (x ∷ xs) = check x >> check_all check xs

abbrev pub provenance_error : Result ProvenanceError (Unit {0}) → Result Failure (Unit {0})
provenance_error (ok u) = ok tt
provenance_error (err e) = err (provenance_refused e)

unfoldable pub add_flow : FirstPass → Result Stop Flow → Result Failure FirstPass
add_flow s (ok flow) = ok (record {
  flows = s.flows ++ (flow ∷ []);
  flow_index = insert flow.zeek_uid flow.flow_id s.flow_index;
  drawn = suc s.drawn;
})
add_flow s (err (returned error)) = ok (record s { drawn = suc s.drawn })
add_flow s (err (passed raised)) = err (conversion_raised raised)

-- `reference and reference not in ids`
abbrev pub is_broken : List String → Option String → Bool
is_broken ids none = false
is_broken ids (some s) = not (s == "") && not (elem s ids)

module _ (py : Python) (takes_nan : Bool) (is_ip : String → Bool) (fresh : ℕ → String)
    (acquisition_id : String) where
  unfoldable pub first_step : Entry → FirstPass → Result Failure FirstPass
  first_step (malformed e) s = ok s
  first_step stopped s = err undecodable_log
  first_step (raw r) s =
      if r.log_type == "conn"
      then add_flow s (convert_conn py takes_nan (fresh s.drawn) r)
      else ok s

  unfoldable pub first_pass : List Entry → FirstPass → Result Failure FirstPass
  first_pass [] s = ok s
  first_pass (e ∷ entries) s = first_step e s >>= first_pass entries

  unfoldable pub convert_event :
      Dict String → String → RawZeekRecord → Option (Result Stop ProtocolEvent)
  convert_event flow_index event_id r =
      if r.log_type == "dns"
      then some (convert_dns py event_id r flow_index)
      else if r.log_type == "http"
      then some (convert_http py event_id r flow_index)
      else if r.log_type == "ssl"
      then some (convert_tls py event_id r flow_index)
      else none

  unfoldable pub check_artifact : ProtocolEvent → Artifact → Result Failure (Unit {0})
  check_artifact event art = do
    provenance_error (validate_artifact_provenance art event)
    raise_if (not (art.acquisition_id == acquisition_id)) (assembly_refused acquisition_mismatch)

  unfoldable pub add_event :
      SecondPass → Option (Result Stop ProtocolEvent) → Result Failure SecondPass
  add_event s none = ok (record s { drawn = suc s.drawn })
  add_event s (some (err (returned error))) = ok (record s { drawn = suc s.drawn })
  add_event s (some (err (passed raised))) = err (conversion_raised raised)
  add_event s (some (ok event)) =
      let extracted = extract is_ip fresh (suc s.drawn) event in
      check_all (check_artifact event) extracted
      >> ok (record {
        protocol_events = s.protocol_events ++ (event ∷ []);
        artifacts = s.artifacts ++ extracted;
        drawn = suc s.drawn + length extracted;
      })

  unfoldable pub second_step : Dict String → Entry → SecondPass → Result Failure SecondPass
  second_step flow_index (malformed e) s = ok s
  second_step flow_index stopped s = err undecodable_log
  second_step flow_index (raw r) s = add_event s (convert_event flow_index (fresh s.drawn) r)

  unfoldable pub second_pass : Dict String → List Entry → SecondPass → Result Failure SecondPass
  second_pass flow_index [] s = ok s
  second_pass flow_index (e ∷ entries) s =
      second_step flow_index e s >>= second_pass flow_index entries

  unfoldable pub check_flow : Flow → Result Failure (Unit {0})
  check_flow flow =
      raise_if (not (flow.acquisition_id == acquisition_id)) (assembly_refused acquisition_mismatch)

  unfoldable pub check_event_references : List String → ProtocolEvent → Result Failure (Unit {0})
  check_event_references flow_ids event = do
    raise_if (not (event.acquisition_id == acquisition_id)) (assembly_refused acquisition_mismatch)
    raise_if (not (elem event.flow_id flow_ids)) (assembly_refused broken_flow_reference)

  unfoldable pub check_artifact_references :
      List String → List String → Artifact → Result Failure (Unit {0})
  check_artifact_references flow_ids event_ids art = do
    raise_if (is_broken event_ids art.source_event_id) (assembly_refused broken_event_reference)
    raise_if (is_broken flow_ids art.flow_id) (assembly_refused broken_flow_reference)

  unfoldable pub assemble_package :
      FirstPass → SecondPass → Result Failure NetworkIntelligencePackage
  assemble_package first second = do
    let flow_ids = map (λ (f : Flow). f.flow_id) first.flows
    let event_ids = map (λ (e : ProtocolEvent). e.event_id) second.protocol_events
    check_all check_flow first.flows
    check_all (check_event_references flow_ids) second.protocol_events
    check_all (check_artifact_references flow_ids event_ids) second.artifacts
    ok (record {
      package_id = fresh second.drawn;
      acquisition_id = acquisition_id;
      flows = first.flows;
      protocol_events = second.protocol_events;
      artifacts = second.artifacts;
    })

  -- Both passes, over the records that each of the two readings yields.
  unfoldable pub process_entries : List Entry → Result Failure NetworkIntelligencePackage
  process_entries entries = do
    first ← first_pass entries (record { flows = []; flow_index = []; drawn = 0 })
    second ←
        second_pass first.flow_index entries
          (record { protocol_events = []; artifacts = []; drawn = first.drawn })
    assemble_package first second

abbrev pub zeek_error {ℓ} : {A : Type ℓ} → Result ZeekFailure A → Result Failure A
zeek_error (ok a) = ok a
zeek_error (err code) = err (zeek_failed code)

-- `process_acquisition`
unfoldable pub process_acquisition :
    Python
    → Bool
    → (String → Bool)
    → (ℕ → String)
    → (String → Option Json)
    → Host
    → String
    → String
    → Result Failure NetworkIntelligencePackage
process_acquisition py takes_nan is_ip fresh loads host acquisition_id capture_reference = do
  runner_result ← zeek_error (run_zeek host acquisition_id capture_reference)
  entries ← zeek_error (read loads runner_result)
  process_entries py takes_nan is_ip fresh acquisition_id entries
