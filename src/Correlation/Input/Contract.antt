-- ===== src/Correlation/Input/Contract.antt =====
-- The contract of `M3InputAdapter.adapt`: when it accepts, and what M3 can rely on afterwards.
use net_sleuth_ai.Shared.{
  String, ◌≡◌, refl, sym, subst, ◌↔◌, Bool, true, ◌||◌, List, [], ◌∷◌, arith, ◌==◌, ==-exclusive,
  ok, ok-injective, lookup, member, elem, All, any, some, ◌∙◌,
}
use net_sleuth_ai.Correlation.Domain.{
  ProtocolEvent, NetworkIntelligencePackage, FindingsPackage, TelemetryCapability, EvidenceIndex,
  M3InvestigationInput,
}
use net_sleuth_ai.Correlation.Input.{note_all, note_protocol, no_telemetry, merge}
use net_sleuth_ai.Correlation.Input.Index.{lookup-insert_all}
use net_sleuth_ai.Correlation.Input.Loops.{AllInIndex}
use net_sleuth_ai.Correlation.Input.Integrity.{
  IsWellFormed, merged, member-table, flow_keys, event_keys, artifact_keys, to_tables,
  merge-of_IsWellFormed, merge-IsWellFormed,
}

-- The adapter returns an input exactly when the timestamp of every flow and of every event carries a
-- time zone (no other time is asked for one), both packages are of one acquisition, no identifier stands twice among the flows, the events, the artifacts or the
-- findings, and each reference of each finding names items of the network package.
pub merge-accepts_iff :
    (m1 : NetworkIntelligencePackage) (m2 : FindingsPackage)
    → ((i : M3InvestigationInput) × (merge m1 m2 ≡ ok i)) ↔ IsWellFormed m1 m2
merge-accepts_iff m1 m2 =
    (λ (i, h). merge-IsWellFormed m1 m2 h, λ w. (merged m1 m2, merge-of_IsWellFormed m1 m2 w))

merge-eq_merged :
    (m1 : NetworkIntelligencePackage) (m2 : FindingsPackage) {i : M3InvestigationInput}
    → merge m1 m2 ≡ ok i
    → merged m1 m2 ≡ i
merge-eq_merged m1 m2 h =
    ok-injective (sym (merge-of_IsWellFormed m1 m2 (merge-IsWellFormed m1 m2 h)) ∙ h)

-- Each flow, event, artifact and finding of the packages is found under its own identifier.
abbrev pub IsLossless : NetworkIntelligencePackage → FindingsPackage → EvidenceIndex → Type 0
IsLossless m1 m2 index =
    All (λ f. lookup f.flow_id index.flows ≡ some f) m1.flows
    × All (λ e. lookup e.event_id index.events ≡ some e) m1.protocol_events
    × All (λ a. lookup a.artifact_id index.artifacts ≡ some a) m1.artifacts
    × All (λ f. lookup f.finding_id index.findings ≡ some f) m2.findings

-- In an input that the adapter returned, looking up the identifier of any flow, event, artifact or
-- finding of the packages in the evidence index gives that very item.
pub merge-IsLossless :
    (m1 : NetworkIntelligencePackage) (m2 : FindingsPackage) (i : M3InvestigationInput)
    → merge m1 m2 ≡ ok i
    → IsLossless m1 m2 i.evidence_index
merge-IsLossless m1 m2 i h =
    let w = merge-IsWellFormed m1 m2 h in
    subst (λ x. IsLossless m1 m2 x.evidence_index) (merge-eq_merged m1 m2 h)
      (
        lookup-insert_all (λ f. f.flow_id) m1.flows [] w.distinct_flows,
        lookup-insert_all (λ e. e.event_id) m1.protocol_events [] w.distinct_events,
        lookup-insert_all (λ a. a.artifact_id) m1.artifacts [] w.distinct_artifacts,
        lookup-insert_all (λ f. f.finding_id) m2.findings [] w.distinct_findings,
      )

-- In an input that the adapter returned, each identifier that a finding refers to is in the
-- evidence index, in the table of its kind.
pub merge-Resolves :
    (m1 : NetworkIntelligencePackage) (m2 : FindingsPackage) (i : M3InvestigationInput)
    → merge m1 m2 ≡ ok i
    → AllInIndex i.evidence_index i.findings
merge-Resolves m1 m2 i h =
    subst (λ x. AllInIndex x.evidence_index x.findings) (merge-eq_merged m1 m2 h)
      (to_tables m1 m2 (merge-IsWellFormed m1 m2 h).resolved)

-- In an input that the adapter returned, the index holds the packages' own items.
pub merge-members :
    (m1 : NetworkIntelligencePackage) (m2 : FindingsPackage) (i : M3InvestigationInput)
    → merge m1 m2 ≡ ok i
    → (j : String)
    → (member j i.evidence_index.flows ≡ elem j (flow_keys m1))
      × (member j i.evidence_index.events ≡ elem j (event_keys m1))
      × (member j i.evidence_index.artifacts ≡ elem j (artifact_keys m1))
merge-members m1 m2 i h j = rw (← merge-eq_merged m1 m2 h) (
  member-table (λ f. f.flow_id) m1.flows j,
  member-table (λ e. e.event_id) m1.protocol_events j,
  member-table (λ a. a.artifact_id) m1.artifacts j,
)

abbrev pub speaks : String → List ProtocolEvent → Bool
speaks p = any (λ e. e.protocol == p)

note_all-eq :
    (es : List ProtocolEvent) (t : TelemetryCapability)
    → note_all es t ≡ record {
      network_flow = t.network_flow;
      dns = t.dns || speaks "dns" es;
      http = t.http || speaks "http" es;
      tls = t.tls || (speaks "tls" es || speaks "ssl" es);
    }
unfolding note_all note_protocol
note_all-eq [] t = ground arith
note_all-eq (e ∷ es) t =
    let p = e.protocol in
    ground (
      arith,
      note_all-eq es (note_protocol p t),
      ==-exclusive p "dns" "http" refl,
      ==-exclusive p "dns" "tls" refl,
      ==-exclusive p "dns" "ssl" refl,
      ==-exclusive p "http" "tls" refl,
      ==-exclusive p "http" "ssl" refl,
    )

abbrev pub observed_telemetry : List ProtocolEvent → TelemetryCapability
observed_telemetry es = record {
  network_flow = true;
  dns = speaks "dns" es;
  http = speaks "http" es;
  tls = speaks "tls" es || speaks "ssl" es;
}

-- In an input that the adapter returned, the DNS, HTTP and TLS flags are set exactly when some
-- event has that protocol ("tls" or "ssl" for TLS), and the flow flag is always set.
pub merge-telemetry :
    (m1 : NetworkIntelligencePackage) (m2 : FindingsPackage) (i : M3InvestigationInput)
    → merge m1 m2 ≡ ok i
    → i.telemetry_capabilities ≡ observed_telemetry m1.protocol_events
merge-telemetry m1 m2 i h =
    subst (λ x. x.telemetry_capabilities ≡ observed_telemetry m1.protocol_events)
      (merge-eq_merged m1 m2 h) (note_all-eq m1.protocol_events no_telemetry)
