-- ===== src/Correlation/Assembly/Phase.antt =====
-- The correlation phase of `run_pipeline_from_m1` as a whole (backend/app/orchestrator/pipeline.py):
-- what can make it raise.
use net_sleuth_ai.Shared.{
  String, Bool, true, false, Option, List, [], ◌≡◌, ◌≢◌, sym, ◌∙◌, ap, subst, arith, inl, inr, ◌⊎◌,
  Bool-cases, All, All-weaken, is_empty, Result, ok, err, ◌>>=◌, >>=-eq-ok, >>=-eq-err,
  err-injective,
}
use net_sleuth_ai.Correlation.Domain.{
  Timestamp, NetworkIntelligencePackage, FindingsPackage, M3InvestigationInput,
}
use net_sleuth_ai.Correlation.Input.{AdaptError, merge}
use net_sleuth_ai.Correlation.Input.Contract.{merge-Resolves, merge-members}
use net_sleuth_ai.Correlation.Mitre.{MitreKnowledgeRepository}
use net_sleuth_ai.Correlation.Entities.{InvestigationContext}
use net_sleuth_ai.Correlation.Timeline.Events.{HasNoEvidence}
use net_sleuth_ai.Correlation.Rules.Preservation.{
  correlate-Keeps, correlate-relationships, correlate-timeline,
}
use net_sleuth_ai.Correlation.CaseBuilder.Document.{MitreEntry, CaseDocument}
use net_sleuth_ai.Correlation.CaseBuilder.AttackChain.Stages.{build_attack_chain-eventless}
use net_sleuth_ai.Correlation.CaseBuilder.Build.{
  CaseError, no_timeline_events, invalid_document, build, declared_ev_ids,
}
use net_sleuth_ai.Correlation.CaseBuilder.Build.Checks.{
  Declared, IsAssessable, IsBuildable, is_named,
}
use net_sleuth_ai.Correlation.CaseBuilder.Build.Acceptance.{
  Answers, build-of_IsBuildable, build-of_no_timeline, build-attack_chain,
}
use net_sleuth_ai.Correlation.CaseBuilder.Build.Acceptance.{is_schema_valid}
use net_sleuth_ai.Correlation.CaseBuilder.Build.Consistency.{
  declared_of, IsConsistent, build-IsConsistent, build-mitre_mappings,
}
use net_sleuth_ai.Correlation.Assembly.{
  PhaseError, not_adapted, not_built, raised_as, evidence_ids_of, assemble, investigate, m3_phase,
}
use net_sleuth_ai.Correlation.Assembly.Evidence.{declare_evidence-ids}
use net_sleuth_ai.Correlation.Assembly.Sources.{
  TakesIn, investigate-IsAssessable, investigate-Declared,
}
use net_sleuth_ai.Correlation.Assembly.Context.{
  raised_as-eq-ok, raised_as-≢, raised_as-eq-err, assemble-≢-not_built, IsAssembled,
  assemble-IsAssembled,
}

module _ (sha256_hex : String → String) (is_private_ip : String → Bool) (now : Timestamp)
    (repo : MitreKnowledgeRepository) where
  module _ (m1 : NetworkIntelligencePackage) (m2 : FindingsPackage)
      (m3_input : M3InvestigationInput) (adapted : merge m1 m2 ≡ ok m3_input)
      (ctx : InvestigationContext) (made : IsAssembled m1 ctx) where
    abbrev pub out : InvestigationContext
    out = investigate sha256_hex is_private_ip now repo m3_input m2.findings ctx

    declared-TakesIn : TakesIn (declared_ev_ids ctx) m3_input.evidence_index
    declared-TakesIn i h =
        let (f, e, a) = merge-members m1 m2 m3_input adapted i in
        ground (arith, h, f, e, a, declare_evidence-ids m1 ctx.evidence_references made.declared i)

    out-keeps : (out.case_id ≡ ctx.case_id) × (out.evidence_references ≡ ctx.evidence_references)
    unfolding investigate
    out-keeps = let k = correlate-Keeps ctx in (k.case_id, k.evidence_references)

    out-named : is_named out.case_id ≡ true
    out-named = ground (arith, made.named, out-keeps.0)

    -- Nothing is declared of no identifiers.
    none_to_declare : (ids : List String) → ids ≡ [] → Declared (declared_ev_ids ctx) ids
    none_to_declare ids h = rw h tt

    out-HasNoEvidence : All HasNoEvidence out.timeline_events
    unfolding investigate
    out-HasNoEvidence = correlate-timeline HasNoEvidence ctx made.eventless

    out-events : All (λ t. Declared (declared_ev_ids ctx) t.evidence_ids) out.timeline_events
    out-events =
        All-weaken HasNoEvidence _ (λ t. none_to_declare t.evidence_ids) _ out-HasNoEvidence

    out-relationships : All (λ r. Declared (declared_ev_ids ctx) r.evidence_ids) out.relationships
    unfolding investigate
    out-relationships = correlate-relationships _ (λ l. tt) ctx (rw made.unrelated tt)

    out-mappings : All (λ m. Declared (declared_ev_ids out) m.evidence_ids) out.mitre_mappings
    out-mappings =
        let d =
          investigate-Declared sha256_hex is_private_ip now repo m3_input m2.findings ctx
            (declared_ev_ids ctx) declared-TakesIn (merge-Resolves m1 m2 m3_input adapted) in
        rw out-keeps.1 d

    pub out-IsBuildable : is_empty out.timeline_events ≡ false → IsBuildable out
    out-IsBuildable timed =
        let (case, refs) = out-keeps in
        let assessable =
          investigate-IsAssessable sha256_hex is_private_ip now repo m3_input m2.findings ctx
            (declared_ev_ids ctx) declared-TakesIn (merge-Resolves m1 m2 m3_input adapted) in
        record {
          named = ground (arith, out-named);
          timed = timed;
          events = rw refs out-events;
          relationships = rw refs out-relationships;
          assessable = subst (λ d. IsAssessable d out) (sym (ap evidence_ids_of refs)) assessable;
        }

  module _ (isoformat : Timestamp → String) (is_valid : String → CaseDocument → Bool)
      (case_id : Option String) (m1 : NetworkIntelligencePackage) (m2 : FindingsPackage) where
    abbrev phase : Result PhaseError CaseDocument
    phase = m3_phase sha256_hex is_private_ip now repo isoformat is_valid case_id m1 m2

    refusal :
        (ctx : InvestigationContext) (e : CaseError)
        → is_named ctx.case_id ≡ true
        → (is_empty ctx.timeline_events ≡ false → IsBuildable ctx)
        → build isoformat is_valid ctx ≡ err e
        → (e ≡ no_timeline_events) ⊎ (e ≡ invalid_document)
    refusal ctx e named buildable h = elim (Bool-cases (is_empty ctx.timeline_events)) [
      | inl empty ↦ inl (
          sym (
            err-injective (
              sym (build-of_no_timeline isoformat is_valid ctx (ground (arith, named)) empty) ∙ h)))
      | inr timed ↦ refused (build-of_IsBuildable isoformat is_valid ctx (buildable timed))
    ]
      where
        refused : Answers isoformat is_valid ctx → (e ≡ no_timeline_events) ⊎ (e ≡ invalid_document)
        refused (inl r) = inr (sym (err-injective (sym r.2 ∙ h)))
        refused (inr r) = cc (h, r.1)

    -- Whatever the packages, if the case builder refuses the context of the phase, then because the
    -- timeline is empty or the check against the schema fails: never because evidence is not
    -- declared, a decision of the validator has none, or the case has no identifier.
    pub m3_phase-refuses_only :
        (e : CaseError)
        → phase ≡ err (not_built e)
        → (e ≡ no_timeline_events) ⊎ (e ≡ invalid_document)
    unfolding m3_phase
    m3_phase-refuses_only e h = by_input (>>=-eq-err (raised_as not_adapted (merge m1 m2)) _ h)
      where
        finish : InvestigationContext → M3InvestigationInput → Result PhaseError CaseDocument
        finish ctx m3_input = raised_as not_built (
            build isoformat is_valid
              (investigate sha256_hex is_private_ip now repo m3_input m2.findings ctx))

        by_ctx :
            (m3_input : M3InvestigationInput)
            → merge m1 m2 ≡ ok m3_input
            → (assemble now case_id m1 m2 ≡ err (not_built e))
              ⊎ ((ctx : InvestigationContext) × (assemble now case_id m1 m2 ≡ ok ctx)
                  × (finish ctx m3_input ≡ err (not_built e)))
            → (e ≡ no_timeline_events) ⊎ (e ≡ invalid_document)
        by_ctx m3_input adapted (inl a) = absurd (assemble-≢-not_built now case_id m1 m2 e a)
        by_ctx m3_input adapted (inr (ctx, a, k)) =
            let made = assemble-IsAssembled now case_id m1 m2 a in
            refusal (out m1 m2 m3_input adapted ctx made) e
              (out-named m1 m2 m3_input adapted ctx made)
              (out-IsBuildable m1 m2 m3_input adapted ctx made) (raised_as-eq-err _ e k)

        by_input :
            (raised_as not_adapted (merge m1 m2) ≡ err (not_built e))
              ⊎ ((m3_input : M3InvestigationInput) × (raised_as not_adapted (merge m1 m2)
                    ≡ ok m3_input)
                  × ((assemble now case_id m1 m2 >>= λ ctx. finish ctx m3_input)
                      ≡ err (not_built e)))
            → (e ≡ no_timeline_events) ⊎ (e ≡ invalid_document)
        by_input (inl a) =
            absurd (raised_as-≢ not_adapted (not_built e) (λ x. not_apart x) (merge m1 m2) a)
          where
            not_apart : (x : AdaptError) → not_adapted x ≢ not_built e
            not_apart x p = cc
        by_input (inr (m3_input, a, k)) =
            by_ctx m3_input (raised_as-eq-ok not_adapted (merge m1 m2) a)
              (>>=-eq-err (assemble now case_id m1 m2) _ k)

    -- What a phase that returned went through.
    finished :
        (doc : CaseDocument)
        → phase ≡ ok doc
        → (final : InvestigationContext) × (build isoformat is_valid final ≡ ok doc)
          × All HasNoEvidence final.timeline_events
          × All (λ m. Declared (declared_ev_ids final) m.evidence_ids) final.mitre_mappings
    unfolding m3_phase
    finished doc h =
        let (m3_input, a, k) = >>=-eq-ok (raised_as not_adapted (merge m1 m2)) _ h in
        let (ctx, b, l) = >>=-eq-ok (assemble now case_id m1 m2) _ k in
        let adapted = raised_as-eq-ok not_adapted (merge m1 m2) a in
        let made = assemble-IsAssembled now case_id m1 m2 b in
        (
          out m1 m2 m3_input adapted ctx made,
          raised_as-eq-ok not_built _ l,
          out-HasNoEvidence m1 m2 m3_input adapted ctx made,
          out-mappings m1 m2 m3_input adapted ctx made,
        )

    -- In a document that the phase returns, every evidence identifier of an event, a relationship, a
    -- hypothesis, a validation, a root cause, an impact or a MITRE mapping is declared, and each
    -- validation with a decision has evidence. Without the findings' metadata, the document passes
    -- the check against the schema of its version.
    pub m3_phase-IsConsistent :
        (doc : CaseDocument)
        → phase ≡ ok doc
        → IsConsistent doc
          × All (λ (m : MitreEntry). Declared (declared_of doc) m.evidence_ids) doc.mitre_mappings
          × (is_schema_valid isoformat is_valid doc ≡ true)
    m3_phase-IsConsistent doc h =
        let (final, built, _, mappings) = finished doc h in
        let (consistent, schema_valid) = build-IsConsistent isoformat is_valid final doc built in
        (consistent, build-mitre_mappings isoformat is_valid final doc built mappings, schema_valid)

    -- In a document that the phase returns, no stage of the attack chain names an event of the
    -- timeline: the reconstruction gives its events no evidence identifiers.
    pub m3_phase-eventless :
        (doc : CaseDocument) → phase ≡ ok doc → All (λ s. s.event_ids ≡ []) doc.attack_chain.stages
    m3_phase-eventless doc h =
        let (final, built, eventless, _) = finished doc h in
        rw (build-attack_chain isoformat is_valid final doc built) (
          build_attack_chain-eventless isoformat final.timeline_events final.mitre_mappings
            eventless)
