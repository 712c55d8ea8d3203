-- ===== src/Correlation/Assembly/Outcome.antt =====
-- That the correlation phase of `run_pipeline_from_m1` (backend/app/orchestrator/pipeline.py) gives a
-- document.
use net_sleuth_ai.Shared.{
  ◌≤◌, String, Bool, true, false, Option, List, [], ◌∷◌, map, ◌≡◌, refl, arith, inl, inr, ◌⊎◌,
  All-weaken, All-of_none, count, is_empty, Result, ok, err,
}
use net_sleuth_ai.Correlation.Domain.{
  Timestamp, NetworkIntelligencePackage, FindingsPackage, M3InvestigationInput, Finding, Flow,
  ProtocolEvent,
}
use net_sleuth_ai.Correlation.Input.{merge, naive_flow, naive_event}
use net_sleuth_ai.Correlation.Input.Integrity.{IsWellFormed, merge-IsWellFormed}
use net_sleuth_ai.Correlation.Mitre.{MitreKnowledgeRepository}
use net_sleuth_ai.Correlation.Entities.{InvestigationContext}
use net_sleuth_ai.Correlation.Investigation.Context.{TimelineEvent}
use net_sleuth_ai.Correlation.Timeline.{reconstruct, finding_event}
use net_sleuth_ai.Correlation.Timeline.Order.{IsAware, reconstruct-IsComplete}
use net_sleuth_ai.Correlation.Rules.Preservation.{correlate-count}
use net_sleuth_ai.Correlation.CaseBuilder.Document.{CaseDocument}
use net_sleuth_ai.Correlation.CaseBuilder.Build.{CaseError, invalid_document, build}
use net_sleuth_ai.Correlation.CaseBuilder.Build.Acceptance.{is_schema_valid, build-of_IsBuildable}
use net_sleuth_ai.Correlation.Assembly.{
  initial_context, not_built, raised_as, candidates, assemble, investigate, m3_phase,
}
use net_sleuth_ai.Correlation.Assembly.Totality.{
  IsIdentified, declare_evidence-Returns, candidates-IsAccepted, add_new-Returns,
  refer_findings-Returns,
}
use net_sleuth_ai.Correlation.Assembly.Context.{assemble-IsAssembled}
use net_sleuth_ai.Correlation.Assembly.Phase.{out, out-IsBuildable}

any_event : TimelineEvent → Bool
any_event t = true

not_empty_of_count :
    (events : List TimelineEvent) → 1 ≤ count any_event events → is_empty events ≡ false
not_empty_of_count [] h = absurd (omega arith)
not_empty_of_count (t ∷ ts) h = refl

count-map-finding_event :
    (now : Timestamp) (flows : List Flow) (fs : List Finding)
    → is_empty fs ≡ false
    → 1 ≤ count any_event (map (finding_event now flows) fs)
unfolding any_event
count-map-finding_event now flows [] h = cc
count-map-finding_event now flows (f ∷ fs) h = omega arith

module _ (now : Timestamp) (m1 : NetworkIntelligencePackage) (m2 : FindingsPackage)
    (m3_input : M3InvestigationInput) (aware : IsAware now) (adapted : merge m1 m2 ≡ ok m3_input)
    (named : IsIdentified m1 m2) (found : is_empty m2.findings ≡ false) where
  well_formed : IsWellFormed m1 m2
  well_formed = merge-IsWellFormed m1 m2 adapted

  timeline_returns :
      (events : List TimelineEvent) × (reconstruct now m1 m2 ≡ ok events)
      × (1 ≤ count any_event events)
  timeline_returns =
      let flows =
        All-weaken _ (λ (f : Flow). IsAware f.timestamp) (λ f h. ground arith) m1.flows
          (All-of_none naive_flow m1.flows well_formed.aware_flows) in
      let events =
        All-weaken _ (λ (e : ProtocolEvent). IsAware e.timestamp) (λ e h. ground arith)
          m1.protocol_events
          (All-of_none naive_event m1.protocol_events well_formed.aware_events) in
      let (ts, e, _, counts) = reconstruct-IsComplete now m1 m2 aware flows events in
      (
        ts,
        e,
        omega (arith, counts any_event, count-map-finding_event now m1.flows m2.findings found),
      )

  assemble-Returns :
      (case_id : Option String)
      → (ctx : InvestigationContext) × (assemble now case_id m1 m2 ≡ ok ctx)
        × (1 ≤ count any_event ctx.timeline_events)
  unfolding assemble
  assemble-Returns case_id =
      let (refs, e1) = declare_evidence-Returns m1 m2 named in
      let (es, e2) = add_new-Returns (candidates m1 m2) [] (candidates-IsAccepted m1 m2 named) in
      let (fs, e3) = refer_findings-Returns m2.findings named.findings in
      let (ts, e4, n) = timeline_returns in
      (initial_context m1.acquisition_id case_id refs es fs ts, rw (e1, e2, e3, e4) refl, n)

  module _ (sha256_hex : String → String) (is_private_ip : String → Bool)
      (repo : MitreKnowledgeRepository) (isoformat : Timestamp → String)
      (is_valid : String → CaseDocument → Bool) (case_id : Option String) where
    -- If the adapter accepts the packages, the identifiers and addresses in them are not empty, the
    -- confidences are at most 1, the clock's time has a zone and there is a finding, then the phase
    -- returns a document, or has built one that the check against the schema refuses.
    pub m3_phase-answers :
        ((doc : CaseDocument) × (is_schema_valid isoformat is_valid doc ≡ false)
          × (m3_phase sha256_hex is_private_ip now repo isoformat is_valid case_id m1 m2
              ≡ err (not_built invalid_document)))
        ⊎ ((doc : CaseDocument) × (m3_phase sha256_hex is_private_ip now repo isoformat is_valid
                case_id m1 m2
              ≡ ok doc))
    unfolding m3_phase
    m3_phase-answers =
        let (ctx, e, n) = assemble-Returns case_id in
        let made = assemble-IsAssembled now case_id m1 m2 e in
        let final = out sha256_hex is_private_ip now repo m1 m2 m3_input adapted ctx made in
        let timed = not_empty_of_count final.timeline_events (timeline_kept ctx n) in
        let buildable =
          out-IsBuildable sha256_hex is_private_ip now repo m1 m2 m3_input adapted ctx made timed in
        rw (adapted, e)
          (answer (build isoformat is_valid final)
            (build-of_IsBuildable isoformat is_valid final buildable))
      where
        timeline_kept :
            (ctx : InvestigationContext)
            → 1 ≤ count any_event ctx.timeline_events
            → 1
              ≤ count any_event
                  (investigate sha256_hex is_private_ip now repo m3_input m2.findings
                    ctx).timeline_events
        timeline_kept ctx n = omega (arith, correlate-count any_event ctx)

        answer :
            (r : Result CaseError CaseDocument)
            → ((doc : CaseDocument) × (is_schema_valid isoformat is_valid doc ≡ false)
                × (r ≡ err invalid_document))
              ⊎ ((doc : CaseDocument) × (r ≡ ok doc))
            → ((doc : CaseDocument) × (is_schema_valid isoformat is_valid doc ≡ false)
                × (raised_as not_built r ≡ err (not_built invalid_document)))
              ⊎ ((doc : CaseDocument) × (raised_as not_built r ≡ ok doc))
        answer r (inl (doc, v, e)) = inl (doc, v, rw e refl)
        answer r (inr (doc, e)) = inr (doc, rw e refl)
