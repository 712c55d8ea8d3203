-- ===== src/Correlation/CaseBuilder/Build/Acceptance.antt =====
-- Which contexts `InvestigationCaseBuilder.build` accepts (backend/app/engines/correlation/
-- investigation/case_builder.py), and what the document then is.
use net_sleuth_ai.Shared.{
  String, Bool, true, false, ◌||◌, Option, none, some, List, [], ◌∷◌, map, ◌≡◌, refl, sym, ◌∙◌, ap,
  arith, inl, inr, ◌⊎◌, if◌then◌else◌, Bool-cases, is_empty, All, concat, ok, err, >>=-eq-ok,
  >>-eq-ok, ok-injective,
}
use net_sleuth_ai.Correlation.Domain.{Timestamp}
use net_sleuth_ai.Correlation.Entities.{InvestigationContext}
use net_sleuth_ai.Correlation.Investigation.Context.{TimelineEvent}
use net_sleuth_ai.Correlation.CaseBuilder.Document.{FindingEntry, Assessment, CaseDocument}
use net_sleuth_ai.Correlation.CaseBuilder.AttackChain.{build_attack_chain}
use net_sleuth_ai.Correlation.CaseBuilder.Build.{
  no_timeline_events, invalid_document, case_id_of, time_bounds, has_v1_3_fields, check_each,
  check_event, check_relationship, check_hypothesis, check_validation, check_root_cause,
  check_impact, pop_internal, restore_internal, restore_all, declared_ev_ids, assess, assembled,
  validated_document, build,
}
use net_sleuth_ai.Correlation.CaseBuilder.Build.{assessment_of}
use net_sleuth_ai.Correlation.CaseBuilder.Build.Checks.{
  IsAssessable, IsBuildable, is_named, check_ids-Declared, check_ids-of_Declared,
  check_validation-IsBacked, check_validation-of_IsBacked, check_each-All, check_each-of_All,
  case_id_of-is_named, case_id_of-of_is_named, time_bounds-timed, time_bounds-of_timed,
}

restore_internal-pop :
    (f : FindingEntry) → restore_internal (pop_internal f).0 (pop_internal f).1 ≡ f
unfolding restore_internal pop_internal
restore_internal-pop f = ground arith

-- The metadata that is taken out of the findings comes back whole.
pub restore_all-pop_internal :
    (fs : List FindingEntry)
    → restore_all (map (λ f. (pop_internal f).0) fs) (map (λ f. (pop_internal f).1) fs) ≡ fs
unfolding restore_all
restore_all-pop_internal [] = refl
restore_all-pop_internal (f ∷ fs) = rw (restore_all-pop_internal fs, restore_internal-pop f) refl

nothing {ℓ} : {A : Type ℓ} (P : A → Type 0) (xs : List A) → is_empty xs ≡ true → All P xs
nothing P [] h = tt
nothing P (x ∷ xs) h = cc

abbrev pub bare : CaseDocument → CaseDocument
bare doc = record doc { findings = map (λ f. (pop_internal f).1) doc.findings }

module _ (isoformat : Timestamp → String) (is_valid : String → CaseDocument → Bool) where
  abbrev pub is_schema_valid : CaseDocument → Bool
  is_schema_valid doc = is_valid (concat (doc.schema_version ∷ ".json" ∷ [])) (bare doc)

  validated_document_lem :
      (doc : CaseDocument)
      → validated_document isoformat is_valid doc
        ≡ (if is_schema_valid doc then ok doc else err invalid_document)
  unfolding validated_document
  validated_document_lem doc = elim (Bool-cases (is_schema_valid doc)) [
    | inl e ↦ rw (e, restore_all-pop_internal doc.findings) refl
    | inr e ↦ rw e refl
  ]

  none_assessed :
      (declared : List String) (ctx : InvestigationContext)
      → has_v1_3_fields ctx ≡ false
      → IsAssessable declared ctx
  none_assessed declared ctx h = record {
    hypotheses = nothing _ ctx.hypotheses (ground (arith, h));
    validations = nothing _ ctx.hypothesis_validations (ground (arith, h));
    root_causes = nothing _ ctx.root_causes (ground (arith, h));
    impacts = nothing _ ctx.impact_assessments (ground (arith, h));
  }

  assess-IsAssessable :
      (declared : List String) (ctx : InvestigationContext) (a : Option Assessment)
      → assess isoformat is_valid declared ctx ≡ ok a
      → IsAssessable declared ctx
  unfolding assess
  assess-IsAssessable declared ctx a = elim (Bool-cases (has_v1_3_fields ctx)) [
    | inr e ↦ λ h. none_assessed declared ctx e
    | inl e ↦ rw e (λ h.
        let (checks, _) = >>-eq-ok _ _ h in
        let (checks3, imps) = >>-eq-ok _ _ checks in
        let (checks2, rcs) = >>-eq-ok _ _ checks3 in
        let (hyps, vals) = >>-eq-ok _ _ checks2 in
        record {
          hypotheses = check_each-All _ _ (λ x. check_ids-Declared declared _ _) _ hyps;
          validations = check_each-All _ _ (check_validation-IsBacked declared) _ vals;
          root_causes = check_each-All _ _ (λ x. check_ids-Declared declared _ _) _ rcs;
          impacts = check_each-All _ _ (λ x. check_ids-Declared declared _ _) _ imps;
        })
  ]

  assess-of_IsAssessable :
      (declared : List String) (ctx : InvestigationContext)
      → IsAssessable declared ctx
      → (a : Option Assessment) × (assess isoformat is_valid declared ctx ≡ ok a)
  unfolding assess
  assess-of_IsAssessable declared ctx h = elim (Bool-cases (has_v1_3_fields ctx)) [
    | inr e ↦ (none, rw e refl)
    | inl e ↦ (
      some (assessment_of isoformat is_valid ctx),
      rw
          (
            e,
            check_each-of_All (check_hypothesis declared) _
                (λ x. check_ids-of_Declared declared _ _) ctx.hypotheses h.hypotheses,
            check_each-of_All (check_validation declared) _ (check_validation-of_IsBacked declared)
                ctx.hypothesis_validations h.validations,
            check_each-of_All (check_root_cause declared) _
                (λ x. check_ids-of_Declared declared _ _) ctx.root_causes h.root_causes,
            check_each-of_All (check_impact declared) _ (λ x. check_ids-of_Declared declared _ _)
                ctx.impact_assessments h.impacts,
          )
          refl,
    )
  ]

  assess-given :
      (declared : List String) (ctx : InvestigationContext) (a : Option Assessment)
      → assess isoformat is_valid declared ctx ≡ ok a
      → (a ≡ none) ⊎ (a ≡ some (assessment_of isoformat is_valid ctx))
  unfolding assess
  assess-given declared ctx a = elim (Bool-cases (has_v1_3_fields ctx)) [
    | inr e ↦ rw e (λ h. inl (sym (ok-injective h)))
    | inl e ↦ rw e (λ h. inr (sym (ok-injective (>>-eq-ok _ _ h).1)))
  ]

  -- What a call that returned went through.
  pub record Passed (ctx : InvestigationContext) (doc : CaseDocument) : Type 0 where
    pub case_id : String
    pub bounds : Timestamp × Timestamp
    pub assessment : Option Assessment
    pub buildable : IsBuildable ctx
    pub as_assessed :
        (assessment ≡ none) ⊎ (assessment ≡ some (assessment_of isoformat is_valid ctx))
    pub document : doc ≡ assembled isoformat is_valid ctx case_id bounds.0 bounds.1 assessment
    pub schema_valid : is_schema_valid doc ≡ true

  pub build-Passed :
      (ctx : InvestigationContext) {doc : CaseDocument}
      → build isoformat is_valid ctx ≡ ok doc
      → Passed ctx doc
  unfolding build
  build-Passed ctx {doc} h =
      let d = declared_ev_ids ctx in
      let (id, named, h1) = >>=-eq-ok (case_id_of ctx.case_id ctx.acquisition_id) _ h in
      let (bounds, timed, h2) = >>=-eq-ok (time_bounds ctx.timeline_events) _ h1 in
      let (events, h3) = >>-eq-ok (check_each (check_event d) ctx.timeline_events) _ h2 in
      let (rels, h4) = >>-eq-ok (check_each (check_relationship d) ctx.relationships) _ h3 in
      let (a, assessed, h5) = >>=-eq-ok (assess isoformat is_valid d ctx) _ h4 in
      let whole = assembled isoformat is_valid ctx id bounds.0 bounds.1 a in
      let returned = sym (validated_document_lem whole) ∙ h5 in
      record {
        case_id = id;
        bounds = bounds;
        assessment = a;
        buildable = record {
          named = case_id_of-is_named ctx.case_id ctx.acquisition_id named;
          timed = time_bounds-timed ctx.timeline_events timed;
          events = check_each-All _ _ (λ t. check_ids-Declared d _ _) ctx.timeline_events events;
          relationships = check_each-All _ _ (λ r. check_ids-Declared d _ _) ctx.relationships rels;
          assessable = assess-IsAssessable d ctx a assessed;
        };
        as_assessed = assess-given d ctx a assessed;
        document = (valid_only whole returned).0;
        schema_valid = (valid_only whole returned).1;
      }
    where
      valid_only :
          (whole : CaseDocument)
          → (if is_schema_valid whole then ok whole else err invalid_document) ≡ ok doc
          → (doc ≡ whole) × (is_schema_valid doc ≡ true)
      valid_only whole e = elim (Bool-cases (is_schema_valid whole)) [
        | inl v ↦ let same : whole ≡ doc = ground (arith, e) in (sym same, rw (← same) v)
        | inr v ↦ cc
      ]

  pub build-of_no_timeline :
      (ctx : InvestigationContext)
      → (is_named ctx.case_id || is_named ctx.acquisition_id) ≡ true
      → is_empty ctx.timeline_events ≡ true
      → build isoformat is_valid ctx ≡ err no_timeline_events
  unfolding build time_bounds
  build-of_no_timeline ctx named empty =
      let (id, e) = case_id_of-of_is_named ctx.case_id ctx.acquisition_id named in
      rw (e, nothing_there ctx.timeline_events empty) refl
    where
      nothing_there : (ts : List TimelineEvent) → is_empty ts ≡ true → ts ≡ []
      nothing_there [] h = refl
      nothing_there (t ∷ ts) h = cc

  -- The builder returns a document, or has built one that the check against the schema refuses.
  abbrev pub Answers : InvestigationContext → Type 0
  Answers ctx =
      ((doc : CaseDocument) × (is_schema_valid doc ≡ false)
        × (build isoformat is_valid ctx ≡ err invalid_document))
      ⊎ ((doc : CaseDocument) × (build isoformat is_valid ctx ≡ ok doc))

  pub build-of_IsBuildable : (ctx : InvestigationContext) → IsBuildable ctx → Answers ctx
  unfolding build
  build-of_IsBuildable ctx b =
      let d = declared_ev_ids ctx in
      let (id, named) = case_id_of-of_is_named ctx.case_id ctx.acquisition_id b.named in
      let (bounds, timed) = time_bounds-of_timed ctx.timeline_events b.timed in
      let events =
        check_each-of_All (check_event d) _ (λ t. check_ids-of_Declared d _ _) ctx.timeline_events
          b.events in
      let rels =
        check_each-of_All (check_relationship d) _ (λ r. check_ids-of_Declared d _ _)
          ctx.relationships b.relationships in
      let (a, assessed) = assess-of_IsAssessable d ctx b.assessable in
      let whole = assembled isoformat is_valid ctx id bounds.0 bounds.1 a in
      rw (named, timed, events, rels, assessed, validated_document_lem whole)
        (elim (Bool-cases (is_schema_valid whole)) [
          | inl v ↦ rw v (inr (whole, refl))
          | inr v ↦ rw v (inl (whole, v, refl))
        ])

  -- The builder returns a document only if the context has a case or an acquisition identifier, has
  -- a timeline, every evidence identifier of its events, relationships, hypotheses, validations,
  -- root causes and impacts is declared, and each validation with a decision has evidence. If it has
  -- all of this, the builder returns a document, or has built one that the check against the
  -- schema refuses.
  pub build-accepts_iff :
      (ctx : InvestigationContext)
      → ((doc : CaseDocument) → build isoformat is_valid ctx ≡ ok doc → IsBuildable ctx)
        × (IsBuildable ctx → Answers ctx)
  build-accepts_iff ctx = (λ doc h. (build-Passed ctx h).buildable, build-of_IsBuildable ctx)

  -- The attack chain of a document is that of the context.
  pub build-attack_chain :
      (ctx : InvestigationContext) (doc : CaseDocument)
      → build isoformat is_valid ctx ≡ ok doc
      → doc.attack_chain ≡ build_attack_chain isoformat ctx.timeline_events ctx.mitre_mappings
  unfolding assembled
  build-attack_chain ctx doc h =
      ap (λ (d : CaseDocument). d.attack_chain) (build-Passed ctx h).document
