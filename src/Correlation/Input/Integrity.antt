-- ===== src/Correlation/Input/Integrity.antt =====
-- When `M3InputAdapter.adapt` accepts two validated packages, and what it then returns.
use mathlib.Core.Path.{fun_ext, subst₃}
use net_sleuth_ai.Shared.{
  String, ◌≡◌, sym, Bool, true, false, not, List, [], ◌∷◌, map, arith, ◌==◌, eq_iff, ok, >>=-eq-ok,
  >>-eq-ok, raise_if-eq-ok, raise_if, Dict, member, lookup-empty, All, any, elem, Distinct,
}
use net_sleuth_ai.Correlation.Domain.{
  Flow, ProtocolEvent, Artifact, Finding, NetworkIntelligencePackage, FindingsPackage,
  TelemetryCapability, EvidenceIndex, M3InvestigationInput,
}
use net_sleuth_ai.Correlation.Input.{
  note_all, duplicate_flow, duplicate_event, duplicate_artifact, duplicate_finding, naive_timestamp,
  acquisition_mismatch, index_by, index_flows, index_events, index_artifacts, index_findings,
  no_telemetry, naive_flow, naive_event, merge,
}
use net_sleuth_ai.Correlation.Input.Index.{
  insert_all, IsFresh, index_by-eq-ok, index_by-inv, member-insert_all,
}
use net_sleuth_ai.Correlation.Input.Loops.{
  Resolves, AllInIndex, index_findings-eq, index_findings-inv, index_events-eq,
}

abbrev pub flow_keys : NetworkIntelligencePackage → List String
flow_keys m1 = map (λ f. f.flow_id) m1.flows

abbrev pub event_keys : NetworkIntelligencePackage → List String
event_keys m1 = map (λ e. e.event_id) m1.protocol_events

abbrev pub artifact_keys : NetworkIntelligencePackage → List String
artifact_keys m1 = map (λ a. a.artifact_id) m1.artifacts

-- The packages that belong together, said without the adapter's tables.
pub record IsWellFormed (m1 : NetworkIntelligencePackage) (m2 : FindingsPackage) : Type 0 where
  pub aware_flows : any naive_flow m1.flows ≡ false
  pub aware_events : any naive_event m1.protocol_events ≡ false
  pub same_acquisition : m1.acquisition_id ≡ m2.acquisition_id
  pub distinct_flows : Distinct (flow_keys m1)
  pub distinct_events : Distinct (event_keys m1)
  pub distinct_artifacts : Distinct (artifact_keys m1)
  pub distinct_findings : Distinct (map (λ f. f.finding_id) m2.findings)
  pub resolved :
      All
        (λ f.
          Resolves
            (λ i. elem i (flow_keys m1))
            (λ i. elem i (event_keys m1))
            (λ i. elem i (artifact_keys m1))
            f.evidence_references)
        m2.findings

module _ {ℓ} {V : Type ℓ} (key : V → String) where
  abbrev pub table : List V → Dict V
  table xs = insert_all key xs []

  pub member-table : (xs : List V) (j : String) → member j (table xs) ≡ elem j (map key xs)
  member-table xs j = ground (arith, member-insert_all key j xs [], lookup-empty {V = V} j)

  IsFresh-empty : (xs : List V) → IsFresh key [] xs
  IsFresh-empty [] = tt
  IsFresh-empty (x ∷ xs) = (ground (arith, lookup-empty {V = V} (key x)), IsFresh-empty xs)

-- The input that the adapter builds.
abbrev pub merged_index : NetworkIntelligencePackage → FindingsPackage → EvidenceIndex
merged_index m1 m2 = record {
  flows = table (λ f. f.flow_id) m1.flows;
  events = table (λ e. e.event_id) m1.protocol_events;
  artifacts = table (λ a. a.artifact_id) m1.artifacts;
  findings = table (λ f. f.finding_id) m2.findings;
}

abbrev pub merged : NetworkIntelligencePackage → FindingsPackage → M3InvestigationInput
merged m1 m2 = record {
  acquisition_id = m1.acquisition_id;
  network_package_id = m1.package_id;
  findings_package_id = m2.package_id;
  network_flows = m1.flows;
  protocol_events = m1.protocol_events;
  artifacts = m1.artifacts;
  findings = m2.findings;
  telemetry_capabilities = note_all m1.protocol_events no_telemetry;
  evidence_index = merged_index m1 m2;
}

abbrev pub before_findings : NetworkIntelligencePackage → FindingsPackage → EvidenceIndex
before_findings m1 m2 = record (merged_index m1 m2) { findings = [] }

-- Resolving against the tables is resolving against the packages' own ids.
abbrev AllResolve : (String → Bool) → (String → Bool) → (String → Bool) → List Finding → Type 0
AllResolve flow event artifact = All (λ f. Resolves flow event artifact f.evidence_references)

AllResolve-ext :
    {p p' q q' r r' : String → Bool} (fs : List Finding)
    → ((i : String) → p i ≡ p' i)
    → ((i : String) → q i ≡ q' i)
    → ((i : String) → r i ≡ r' i)
    → AllResolve p q r fs
    → AllResolve p' q' r' fs
AllResolve-ext fs e f g h =
    subst₃ (λ p q r. AllResolve p q r fs) (fun_ext e) (fun_ext f) (fun_ext g) h

module _ (m1 : NetworkIntelligencePackage) (m2 : FindingsPackage) where
  pub to_tables :
      AllResolve
        (λ i. elem i (flow_keys m1))
        (λ i. elem i (event_keys m1))
        (λ i. elem i (artifact_keys m1))
        m2.findings
      → AllInIndex (before_findings m1 m2) m2.findings
  to_tables =
      AllResolve-ext m2.findings (λ i. sym (member-table (λ f. f.flow_id) m1.flows i))
        (λ i. sym (member-table (λ e. e.event_id) m1.protocol_events i))
        (λ i. sym (member-table (λ a. a.artifact_id) m1.artifacts i))

  from_tables :
      AllInIndex (before_findings m1 m2) m2.findings
      → AllResolve
          (λ i. elem i (flow_keys m1))
          (λ i. elem i (event_keys m1))
          (λ i. elem i (artifact_keys m1))
          m2.findings
  from_tables =
      AllResolve-ext m2.findings (member-table (λ f. f.flow_id) m1.flows)
        (member-table (λ e. e.event_id) m1.protocol_events)
        (member-table (λ a. a.artifact_id) m1.artifacts)

  flows-eq-ok : Distinct (flow_keys m1) → index_flows m1.flows [] ≡ ok (merged_index m1 m2).flows
  unfolding index_flows
  flows-eq-ok u =
      index_by-eq-ok (λ f. f.flow_id) duplicate_flow m1.flows [] u
        (IsFresh-empty (λ f. f.flow_id) m1.flows)

  events-eq-ok :
      Distinct (event_keys m1)
      → index_events m1.protocol_events [] no_telemetry
        ≡ ok ((merged_index m1 m2).events, note_all m1.protocol_events no_telemetry)
  events-eq-ok u = rw (
    index_events-eq m1.protocol_events [] no_telemetry,
    index_by-eq-ok (λ e. e.event_id) duplicate_event m1.protocol_events [] u
        (IsFresh-empty (λ e. e.event_id) m1.protocol_events),
  )

  artifacts-eq-ok :
      Distinct (artifact_keys m1)
      → index_artifacts m1.artifacts [] ≡ ok (merged_index m1 m2).artifacts
  unfolding index_artifacts
  artifacts-eq-ok u =
      index_by-eq-ok (λ a. a.artifact_id) duplicate_artifact m1.artifacts [] u
        (IsFresh-empty (λ a. a.artifact_id) m1.artifacts)

  findings-eq-ok :
      Distinct (map (λ f. f.finding_id) m2.findings)
      → AllInIndex (before_findings m1 m2) m2.findings
      → index_findings m2.findings (before_findings m1 m2) ≡ ok (merged_index m1 m2)
  findings-eq-ok u h = rw (
    index_findings-eq m2.findings (before_findings m1 m2) h,
    index_by-eq-ok (λ f. f.finding_id) duplicate_finding m2.findings [] u
        (IsFresh-empty (λ f. f.finding_id) m2.findings),
  )

  same_ids : m1.acquisition_id ≡ m2.acquisition_id → (m1.acquisition_id == m2.acquisition_id) ≡ true
  same_ids = (eq_iff m1.acquisition_id m2.acquisition_id).1

  pub merge-of_IsWellFormed : IsWellFormed m1 m2 → merge m1 m2 ≡ ok (merged m1 m2)
  unfolding merge
  merge-of_IsWellFormed w = rw (
    w.aware_flows,
    w.aware_events,
    same_ids w.same_acquisition,
    flows-eq-ok w.distinct_flows,
    events-eq-ok w.distinct_events,
    artifacts-eq-ok w.distinct_artifacts,
    findings-eq-ok w.distinct_findings (to_tables w.resolved),
  )

  flows-inv : {d : Dict Flow} → index_flows m1.flows [] ≡ ok d → Distinct (flow_keys m1)
  unfolding index_flows
  flows-inv h = (index_by-inv (λ f. f.flow_id) duplicate_flow m1.flows [] _ h).0

  events-inv :
      {r : Dict ProtocolEvent × TelemetryCapability}
      → index_events m1.protocol_events [] no_telemetry ≡ ok r
      → Distinct (event_keys m1)
  events-inv h =
      let (d, e, _) =
        >>=-eq-ok (index_by (λ e. e.event_id) duplicate_event m1.protocol_events []) _
          (rw index_events-eq at h) in
      (index_by-inv (λ e. e.event_id) duplicate_event m1.protocol_events [] d e).0

  artifacts-inv :
      {d : Dict Artifact} → index_artifacts m1.artifacts [] ≡ ok d → Distinct (artifact_keys m1)
  unfolding index_artifacts
  artifacts-inv h = (index_by-inv (λ a. a.artifact_id) duplicate_artifact m1.artifacts [] _ h).0

  findings-inv :
      {x : EvidenceIndex}
      → index_findings m2.findings (before_findings m1 m2) ≡ ok x
      → Distinct (map (λ f. f.finding_id) m2.findings)
        × AllInIndex (before_findings m1 m2) m2.findings
  findings-inv h =
      let r = index_findings-inv m2.findings (before_findings m1 m2) h in
      let (d, e, _) =
        >>=-eq-ok (index_by (λ f. f.finding_id) duplicate_finding m2.findings []) _
          (rw (index_findings-eq m2.findings (before_findings m1 m2) r) at h) in
      ((index_by-inv (λ f. f.finding_id) duplicate_finding m2.findings [] d e).0, r)

  pub merge-IsWellFormed : {i : M3InvestigationInput} → merge m1 m2 ≡ ok i → IsWellFormed m1 m2
  unfolding merge
  merge-IsWellFormed h =
      let (flows_aware, h1) = >>-eq-ok (raise_if (any naive_flow m1.flows) naive_timestamp) _ h in
      let (events_aware, h2) =
        >>-eq-ok (raise_if (any naive_event m1.protocol_events) naive_timestamp) _ h1 in
      let (same, h3) =
        >>-eq-ok
          (raise_if (not (m1.acquisition_id == m2.acquisition_id))
            (acquisition_mismatch m1.acquisition_id m2.acquisition_id))
          _ h2 in
      let (_, e1, _) = >>=-eq-ok (index_flows m1.flows []) _ h3 in
      let u1 = flows-inv e1 in
      let h4 = rw (flows-eq-ok u1) at h3 in
      let (_, e2, _) = >>=-eq-ok (index_events m1.protocol_events [] no_telemetry) _ h4 in
      let u2 = events-inv e2 in
      let h5 = rw (events-eq-ok u2) at h4 in
      let (_, e3, _) = >>=-eq-ok (index_artifacts m1.artifacts []) _ h5 in
      let u3 = artifacts-inv e3 in
      let h6 = rw (artifacts-eq-ok u3) at h5 in
      let (_, e4, _) = >>=-eq-ok (index_findings m2.findings (before_findings m1 m2)) _ h6 in
      let (u4, resolved) = findings-inv e4 in
      record {
        aware_flows = raise_if-eq-ok _ _ flows_aware;
        aware_events = raise_if-eq-ok _ _ events_aware;
        same_acquisition =
            (eq_iff m1.acquisition_id m2.acquisition_id).0 (
              ground (arith, raise_if-eq-ok (not (m1.acquisition_id == m2.acquisition_id)) _ same));
        distinct_flows = u1;
        distinct_events = u2;
        distinct_artifacts = u3;
        distinct_findings = u4;
        resolved = from_tables resolved;
      }
