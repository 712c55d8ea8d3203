-- ===== src/Correlation/Input.antt =====
-- `M3InputAdapter.adapt` (backend/app/engines/correlation/adapters/m3_input_adapter.py): the checks
-- in the code's order, each a raised error. The Pydantic validation of the two payloads is a pair
-- of parameters.
pub mod Index
pub mod Loops
pub mod Integrity
pub mod Contract
pub mod Examples
use net_sleuth_ai.Shared.{
  String, Bool, true, false, not, ◌||◌, Option, none, some, List, [], ◌∷◌, ◌==◌, if◌then◌else◌,
  Result, ok, err, ◌>>=◌, ◌>>◌, raise_if, any, Dict, member, insert,
}
use net_sleuth_ai.Correlation.Domain.{
  Flow, ProtocolEvent, Artifact, EvidenceReference, Finding, NetworkIntelligencePackage,
  FindingsPackage, TelemetryCapability, EvidenceIndex, M3InvestigationInput,
}

pub data AdaptError : Type 0 where
  contract_failed naive_timestamp : AdaptError
  acquisition_mismatch : String → String → AdaptError
  duplicate_flow duplicate_event duplicate_artifact duplicate_finding : String → AdaptError
  missing_flow missing_event missing_artifact : String → AdaptError

abbrev pub naive_flow : Flow → Bool
naive_flow f = not f.timestamp.tz_aware

abbrev pub naive_event : ProtocolEvent → Bool
naive_event e = not e.timestamp.tz_aware

-- `for x in xs: if x.key in index: raise duplicate; index[x.key] = x`
module _ {ℓ} {V : Type ℓ} (key : V → String) (duplicate : String → AdaptError) where
  pub index_by : List V → Dict V → Result AdaptError (Dict V)
  index_by [] index = ok index
  index_by (x ∷ xs) index =
      if member (key x) index then err (duplicate (key x)) else index_by xs (insert (key x) x index)

pub index_flows : List Flow → Dict Flow → Result AdaptError (Dict Flow)
unfolding index_by
index_flows = index_by (λ f. f.flow_id) duplicate_flow

-- The telemetry flags that one event raises.
pub note_protocol : String → TelemetryCapability → TelemetryCapability
note_protocol protocol t =
    if protocol == "dns"
    then record t { dns = true }
    else if protocol == "http"
    then record t { http = true }
    else if protocol == "tls" || protocol == "ssl"
    then record t { tls = true }
    else t

-- The flags after all events.
pub note_all : List ProtocolEvent → TelemetryCapability → TelemetryCapability
note_all [] t = t
note_all (e ∷ es) t = note_all es (note_protocol e.protocol t)

pub index_events :
    List ProtocolEvent
    → Dict ProtocolEvent
    → TelemetryCapability
    → Result AdaptError (Dict ProtocolEvent × TelemetryCapability)
index_events [] index t = ok (index, t)
index_events (e ∷ es) index t =
    if member e.event_id index
    then err (duplicate_event e.event_id)
    else index_events es (insert e.event_id e index) (note_protocol e.protocol t)

pub index_artifacts : List Artifact → Dict Artifact → Result AdaptError (Dict Artifact)
unfolding index_by
index_artifacts = index_by (λ a. a.artifact_id) duplicate_artifact

-- `for id in ids: if id not in index: raise`
check_ids {ℓ} :
    {V : Type ℓ} → (String → AdaptError) → Dict V → List String → Result AdaptError (Unit {0})
check_ids missing index [] = ok tt
check_ids missing index (i ∷ ids) =
    if member i index then check_ids missing index ids else err (missing i)

check_references : EvidenceIndex → List EvidenceReference → Result AdaptError (Unit {0})
check_references index [] = ok tt
check_references index (ref ∷ refs) = do
  check_ids missing_flow index.flows ref.flow_ids
  check_ids missing_event index.events ref.event_ids
  check_ids missing_artifact index.artifacts ref.artifact_ids
  check_references index refs

pub index_findings : List Finding → EvidenceIndex → Result AdaptError EvidenceIndex
index_findings [] index = ok index
index_findings (f ∷ fs) index =
    let index' = record index { findings = insert f.finding_id f index.findings } in
    let rest = do check_references index' f.evidence_references; index_findings fs index'
    in if member f.finding_id index.findings then err (duplicate_finding f.finding_id) else rest

-- `TelemetryCapability()`
abbrev pub no_telemetry : TelemetryCapability
no_telemetry = record { network_flow = true; dns = false; http = false; tls = false }

-- What follows the Pydantic validation.
pub merge : NetworkIntelligencePackage → FindingsPackage → Result AdaptError M3InvestigationInput
merge m1 m2 = do
  raise_if (any naive_flow m1.flows) naive_timestamp
  raise_if (any naive_event m1.protocol_events) naive_timestamp
  raise_if (not (m1.acquisition_id == m2.acquisition_id))
      (acquisition_mismatch m1.acquisition_id m2.acquisition_id)
  flows ← index_flows m1.flows []
  events ← index_events m1.protocol_events [] no_telemetry
  artifacts ← index_artifacts m1.artifacts []
  index ←
      index_findings m2.findings
        (record { flows = flows; events = events.0; artifacts = artifacts; findings = [] })
  ok (record {
    acquisition_id = m1.acquisition_id;
    network_package_id = m1.package_id;
    findings_package_id = m2.package_id;
    network_flows = m1.flows;
    protocol_events = m1.protocol_events;
    artifacts = m1.artifacts;
    findings = m2.findings;
    telemetry_capabilities = events.1;
    evidence_index = index;
  })

of_option {ℓ} : {A : Type ℓ} → Option A → Result AdaptError A
of_option none = err contract_failed
of_option (some a) = ok a

-- `validate_m1` and `validate_m2` are Pydantic's `model_validate`; `none` is its ValidationError.
module _ {Payload : Type 0} (validate_m1 : Payload → Option NetworkIntelligencePackage)
    (validate_m2 : Payload → Option FindingsPackage) where
  pub adapt : Payload → Payload → Result AdaptError M3InvestigationInput
  unfolding of_option
  adapt m1_payload m2_payload = do
    m1 ← of_option (validate_m1 m1_payload)
    m2 ← of_option (validate_m2 m2_payload)
    merge m1 m2
