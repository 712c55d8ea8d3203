-- ===== src/Correlation/Assembly/Context.antt =====
-- The context that the correlation phase of `run_pipeline_from_m1` assembles
-- (backend/app/orchestrator/pipeline.py), and what can stop it.
use net_sleuth_ai.Shared.{
  String, true, false, Option, none, some, [], ◌∷◌, ◌==◌, ◌≡◌, ◌≢◌, refl, arith, append_nonempty,
  All, concat, Result, ok, err, >>=-eq-ok, >>=-≢-err, ok-injective, err-injective,
}
use net_sleuth_ai.Correlation.Domain.{Timestamp, NetworkIntelligencePackage, FindingsPackage}
use net_sleuth_ai.Correlation.Entities.{DomainError, InvestigationContext}
use net_sleuth_ai.Correlation.Timeline.{TimelineError, reconstruct}
use net_sleuth_ai.Correlation.Timeline.Events.{HasNoEvidence, reconstruct-HasNoEvidence}
use net_sleuth_ai.Correlation.CaseBuilder.Document.{CaseDocument}
use net_sleuth_ai.Correlation.CaseBuilder.Build.{CaseError}
use net_sleuth_ai.Correlation.CaseBuilder.Build.Checks.{is_named}
use net_sleuth_ai.Correlation.Assembly.{
  PhaseError, not_constructed, no_timeline, not_built, raised_as, declare_evidence, candidates,
  add_new, refer_findings, case_name, assemble,
}

case_prefix : (acquisition : String) → (concat ("CASE-" ∷ acquisition ∷ []) == "") ≡ false
unfolding concat
case_prefix acquisition = append_nonempty "CASE-" _ refl

case_name-is_named :
    (acquisition : String) (case : Option String)
    → is_named (some (case_name acquisition case)) ≡ true
case_name-is_named acquisition none = ground (arith, case_prefix acquisition)
case_name-is_named acquisition (some c) = ground (arith, case_prefix acquisition)

pub raised_as-eq-ok {ℓ κ} :
    {E : Type ℓ} {A : Type κ} (f : E → PhaseError) (r : Result E A) {a : A}
    → raised_as f r ≡ ok a
    → r ≡ ok a
raised_as-eq-ok f (ok a) h = cc
raised_as-eq-ok f (err e) h = cc

pub raised_as-≢ {ℓ κ} :
    {E : Type ℓ} {A : Type κ} (f : E → PhaseError) (other : PhaseError)
    → ((x : E) → f x ≢ other)
    → (r : Result E A) → raised_as f r ≢ err other
raised_as-≢ f other apart (ok a) h = cc
raised_as-≢ f other apart (err x) h = apart x (err-injective h)

pub raised_as-eq-err :
    (r : Result CaseError CaseDocument) (e : CaseError)
    → raised_as not_built r ≡ err (not_built e)
    → r ≡ err e
raised_as-eq-err (ok a) e h = cc
raised_as-eq-err (err x) e h = cc

pub assemble-≢-not_built :
    (now : Timestamp) (case_id : Option String) (m1 : NetworkIntelligencePackage)
    (m2 : FindingsPackage) (e : CaseError)
    → assemble now case_id m1 m2 ≢ err (not_built e)
unfolding assemble
assemble-≢-not_built now case_id m1 m2 e =
    let b = not_built e in
    >>=-≢-err b (raised_as not_constructed (declare_evidence m1)) _
      (raised_as-≢ not_constructed b construct _)
      (λ refs.
        >>=-≢-err b (raised_as not_constructed (add_new (candidates m1 m2) [])) _
          (raised_as-≢ not_constructed b construct _)
          (λ entities.
            >>=-≢-err b (raised_as not_constructed (refer_findings m2.findings)) _
              (raised_as-≢ not_constructed b construct _)
              (λ findings.
                >>=-≢-err b (raised_as no_timeline (reconstruct now m1 m2)) _
                  (raised_as-≢ no_timeline b reconstructed _) (λ events h. cc))))
  where
    construct : (x : DomainError) → not_constructed x ≢ not_built e
    construct x p = cc

    reconstructed : (x : TimelineError) → no_timeline x ≢ not_built e
    reconstructed x p = cc

-- What the context that is assembled has.
pub record IsAssembled (m1 : NetworkIntelligencePackage) (ctx : InvestigationContext) : Type 0 where
  pub named : is_named ctx.case_id ≡ true
  pub declared : declare_evidence m1 ≡ ok ctx.evidence_references
  pub eventless : All HasNoEvidence ctx.timeline_events
  pub unrelated : ctx.relationships ≡ []

pub assemble-IsAssembled :
    (now : Timestamp) (case_id : Option String) (m1 : NetworkIntelligencePackage)
    (m2 : FindingsPackage) {ctx : InvestigationContext}
    → assemble now case_id m1 m2 ≡ ok ctx
    → IsAssembled m1 ctx
unfolding assemble
assemble-IsAssembled now case_id m1 m2 h =
    let (refs, e1, h1) = >>=-eq-ok (raised_as not_constructed (declare_evidence m1)) _ h in
    let (entities, e2, h2) =
      >>=-eq-ok (raised_as not_constructed (add_new (candidates m1 m2) [])) _ h1 in
    let (findings, e3, h3) =
      >>=-eq-ok (raised_as not_constructed (refer_findings m2.findings)) _ h2 in
    let (events, e4, h4) = >>=-eq-ok (raised_as no_timeline (reconstruct now m1 m2)) _ h3 in
    rw (← ok-injective h4) (record {
      named = case_name-is_named m1.acquisition_id case_id;
      declared = raised_as-eq-ok not_constructed (declare_evidence m1) e1;
      eventless =
          reconstruct-HasNoEvidence now m1 m2 events
            (raised_as-eq-ok no_timeline (reconstruct now m1 m2) e4);
      unrelated = refl;
    })
