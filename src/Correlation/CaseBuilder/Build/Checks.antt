-- ===== src/Correlation/CaseBuilder/Build/Checks.antt =====
-- The checks of `InvestigationCaseBuilder.build` on the evidence of a context (backend/app/engines/
-- correlation/investigation/case_builder.py), against predicates.
use net_sleuth_ai.Shared.{
  String, Bool, true, false, not, ◌||◌, Option, none, some, List, [], ◌∷◌, ◌++◌, ◌==◌, ◌≡◌, refl,
  arith, inl, inr, Bool-cases, is_empty, elem, All, concat, Result, ok, >>-eq-ok, raise_if-eq-ok,
}
use net_sleuth_ai.Correlation.Domain.{Timestamp}
use net_sleuth_ai.Correlation.Entities.{InvestigationContext}
use net_sleuth_ai.Correlation.Investigation.Context.{HypothesisValidation, TimelineEvent}
use net_sleuth_ai.Correlation.CaseBuilder.Build.{
  CaseError, case_id_of, time_bounds, check_ids, check_each, is_unbacked, check_validation,
  declared_ev_ids,
}

abbrev pub Declared : List String → List String → Type 0
Declared declared = All (λ i. elem i declared ≡ true)

-- A validation with a decision has evidence, and its evidence is declared.
pub record IsBacked (declared : List String) (v : HypothesisValidation) : Type 0 where
  pub backed : is_unbacked v ≡ false
  pub declared_ids : Declared declared (v.supporting_evidence_ids ++ v.contradicting_evidence_ids)

pub record IsAssessable (declared : List String) (ctx : InvestigationContext) : Type 0 where
  pub hypotheses : All (λ h. Declared declared h.supporting_evidence_ids) ctx.hypotheses
  pub validations : All (IsBacked declared) ctx.hypothesis_validations
  pub root_causes : All (λ rc. Declared declared rc.supporting_evidence_ids) ctx.root_causes
  pub impacts : All (λ a. Declared declared a.supporting_evidence_ids) ctx.impact_assessments

abbrev pub is_named : Option String → Bool
is_named none = false
is_named (some s) = not (s == "")

pub record IsBuildable (ctx : InvestigationContext) : Type 0 where
  pub named : (is_named ctx.case_id || is_named ctx.acquisition_id) ≡ true
  pub timed : is_empty ctx.timeline_events ≡ false
  pub events : All (λ t. Declared (declared_ev_ids ctx) t.evidence_ids) ctx.timeline_events
  pub relationships : All (λ r. Declared (declared_ev_ids ctx) r.evidence_ids) ctx.relationships
  pub assessable : IsAssessable (declared_ev_ids ctx) ctx

module _ (declared : List String) where
  pub check_ids-Declared :
      (raised : String → CaseError) (ids : List String)
      → check_ids declared raised ids ≡ ok tt
      → Declared declared ids
  unfolding check_ids
  check_ids-Declared raised [] h = tt
  check_ids-Declared raised (i ∷ ids) h =
      let (e, rest) = >>-eq-ok _ _ h in
      (listed (raise_if-eq-ok _ _ e), check_ids-Declared raised ids rest)
    where
      listed : not (elem i declared) ≡ false → elem i declared ≡ true
      listed h = ground arith

  pub check_ids-of_Declared :
      (raised : String → CaseError) (ids : List String)
      → Declared declared ids
      → check_ids declared raised ids ≡ ok tt
  unfolding check_ids
  check_ids-of_Declared raised [] h = refl
  check_ids-of_Declared raised (i ∷ ids) h = rw h.0 (check_ids-of_Declared raised ids h.1)

  pub check_validation-IsBacked :
      (v : HypothesisValidation) → check_validation declared v ≡ ok tt → IsBacked declared v
  check_validation-IsBacked v h =
      let (e, rest) = >>-eq-ok _ _ h in
      record { backed = raise_if-eq-ok _ _ e; declared_ids = check_ids-Declared _ _ rest }

  pub check_validation-of_IsBacked :
      (v : HypothesisValidation) → IsBacked declared v → check_validation declared v ≡ ok tt
  check_validation-of_IsBacked v h = rw h.backed (
      check_ids-of_Declared _ (v.supporting_evidence_ids ++ v.contradicting_evidence_ids)
        h.declared_ids)

module _ {ℓ} {A : Type ℓ} (check : A → Result CaseError (Unit {0})) (P : A → Type 0) where
  pub check_each-All :
      ((x : A) → check x ≡ ok tt → P x) → (xs : List A) → check_each check xs ≡ ok tt → All P xs
  unfolding check_each
  check_each-All step [] h = tt
  check_each-All step (x ∷ xs) h =
      let (e, rest) = >>-eq-ok _ _ h in (step x e, check_each-All step xs rest)

  pub check_each-of_All :
      ((x : A) → P x → check x ≡ ok tt) → (xs : List A) → All P xs → check_each check xs ≡ ok tt
  unfolding check_each
  check_each-of_All step [] h = refl
  check_each-of_All step (x ∷ xs) h = rw (step x h.0) (check_each-of_All step xs h.1)

pub case_id_of-is_named :
    (case acquisition : Option String) {id : String}
    → case_id_of case acquisition ≡ ok id
    → (is_named case || is_named acquisition) ≡ true
unfolding case_id_of
case_id_of-is_named none none h = cc
case_id_of-is_named none (some a) h = ground arith
case_id_of-is_named (some c) none h = ground arith
case_id_of-is_named (some c) (some a) h = ground arith

pub case_id_of-of_is_named :
    (case acquisition : Option String)
    → (is_named case || is_named acquisition) ≡ true
    → (id : String) × (case_id_of case acquisition ≡ ok id)
unfolding case_id_of
case_id_of-of_is_named none none h = cc
case_id_of-of_is_named none (some a) h = (concat ("CASE-" ∷ a ∷ []), ground arith)
case_id_of-of_is_named (some c) none h = (c, ground arith)
case_id_of-of_is_named (some c) (some a) h = elim (Bool-cases (c == "")) [
  | inl e ↦ (concat ("CASE-" ∷ a ∷ []), ground arith)
  | inr e ↦ (c, ground arith)
]

pub time_bounds-timed :
    (events : List TimelineEvent) {b : Timestamp × Timestamp}
    → time_bounds events ≡ ok b
    → is_empty events ≡ false
unfolding time_bounds
time_bounds-timed [] h = cc
time_bounds-timed (t ∷ ts) h = refl

pub time_bounds-of_timed :
    (events : List TimelineEvent)
    → is_empty events ≡ false
    → (b : Timestamp × Timestamp) × (time_bounds events ≡ ok b)
unfolding time_bounds
time_bounds-of_timed [] h = cc
time_bounds-of_timed (t ∷ ts) h = (_, refl)
