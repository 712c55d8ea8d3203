-- ===== src/Correlation/Assembly/Sources.antt =====
-- Where the evidence that the engines name comes from, in the correlation phase of
-- `run_pipeline_from_m1` (backend/app/orchestrator/pipeline.py).
use net_sleuth_ai.Shared.{
  String, Bool, true, false, List, [], ◌∷◌, map, ◌≡◌, refl, arith, elem, All, All-append,
  All-weaken, All-map, Option-cases, inl, inr, lookup,
}
use net_sleuth_ai.Correlation.Domain.{Timestamp, EvidenceIndex, Finding, M3InvestigationInput}
use net_sleuth_ai.Correlation.Input.Loops.{AllInIndex}
use net_sleuth_ai.Correlation.Mitre.{MitreKnowledgeRepository}
use net_sleuth_ai.Correlation.Mitre.Mapper.{map_finding}
use net_sleuth_ai.Correlation.Mitre.Mapper.Mappings.{
  is_indexed, IsValidEvidence, IsJustified, map_finding-IsJustified, map_finding-of_missing,
}
use net_sleuth_ai.Correlation.Entities.{InvestigationContext}
use net_sleuth_ai.Correlation.Rules.{correlate}
use net_sleuth_ai.Correlation.Investigation.Context.{
  Hypothesis, HypothesisValidation, ValidationStatus, TimelineEvent,
}
use net_sleuth_ai.Correlation.Investigation.Generator.{generate}
use net_sleuth_ai.Correlation.Investigation.Generator.Hypotheses.{IsWellMade, generate-IsWellMade}
use net_sleuth_ai.Correlation.Investigation.Generator.Provenance.{
  IsIndexed, IsGrounded, generate-IsGrounded,
}
use net_sleuth_ai.Correlation.Investigation.Rules.Sources.{IsListed}
use net_sleuth_ai.Correlation.Investigation.Validator.{validate_one, validate}
use net_sleuth_ai.Correlation.Investigation.Validator.Contract.{
  Agrees, validate_one-Agrees, validate_one-IsListed,
}
use net_sleuth_ai.Correlation.Investigation.RootCauses.Provenance.{
  HypothesisRests, ValidationRests, analyze-Rests,
}
use net_sleuth_ai.Correlation.Investigation.Impacts.Provenance.{analyze-ImpactRests}
use net_sleuth_ai.Correlation.CaseBuilder.Build.{is_unbacked}
use net_sleuth_ai.Correlation.CaseBuilder.Build.Checks.{Declared, IsBacked, IsAssessable}
use net_sleuth_ai.Correlation.Assembly.{map_all, investigate}

Agrees-backed : (v : HypothesisValidation) → Agrees v → is_unbacked v ≡ false
Agrees-backed v a = by_status v.validation_status refl
  where
    by_status : (s : ValidationStatus) → v.validation_status ≡ s → is_unbacked v ≡ false
    by_status ValidationStatus.validated e = ground (arith, a, e)
    by_status ValidationStatus.rejected e = ground (arith, a, e)
    by_status ValidationStatus.inconclusive e = ground (arith, a, e)

-- The declared evidence takes in what the index holds.
abbrev pub TakesIn : List String → EvidenceIndex → Type 0
TakesIn declared index = (i : String) → is_indexed index i ≡ true → elem i declared ≡ true

module _ (sha256_hex : String → String) (now : Timestamp) (timeline : List TimelineEvent)
    (m3_input : M3InvestigationInput) (declared : List String)
    (taken : TakesIn declared m3_input.evidence_index) where
  abbrev IsDeclared : String → Type 0
  IsDeclared i = elem i declared ≡ true

  listed-Declared :
      (ids names : List String)
      → All (IsListed m3_input.evidence_index ids) names
      → Declared declared names
  listed-Declared ids =
      All-weaken (IsListed m3_input.evidence_index ids) IsDeclared
        (λ i h. taken i (ground (arith, h.1)))

  validate_one-IsBacked :
      (h : Hypothesis)
      → IsWellMade m3_input h
      → IsBacked declared (validate_one sha256_hex now timeline m3_input h)
        × ValidationRests IsDeclared (validate_one sha256_hex now timeline m3_input h)
  validate_one-IsBacked h made =
      let val = validate_one sha256_hex now timeline m3_input h in
      let (s, c) = validate_one-IsListed sha256_hex now timeline m3_input h in
      let sup = listed-Declared h.supporting_evidence_ids val.supporting_evidence_ids s in
      let con = listed-Declared h.supporting_evidence_ids val.contradicting_evidence_ids c in
      (
        record {
          backed =
              Agrees-backed val (validate_one-Agrees sha256_hex now timeline m3_input h made.known);
          declared_ids = All-append IsDeclared _ _ sup con;
        },
        (sup, con),
      )

module _ (sha256_hex : String → String) (is_private_ip : String → Bool) (now : Timestamp)
    (repo : MitreKnowledgeRepository) (m3_input : M3InvestigationInput) (findings : List Finding)
    (ctx : InvestigationContext) (declared : List String)
    (taken : TakesIn declared m3_input.evidence_index)
    (resolved : AllInIndex m3_input.evidence_index m3_input.findings) where
  abbrev P : String → Type 0
  P = IsDeclared sha256_hex now [] m3_input declared taken

  map_finding-Declared :
      (id : String)
      → All (λ m. Declared declared m.evidence_ids) (map_finding sha256_hex repo m3_input id)
  map_finding-Declared id = elim (Option-cases (lookup id m3_input.evidence_index.findings)) [
    | inl e ↦ rw (map_finding-of_missing sha256_hex repo m3_input id e) tt
    | inr (found, e) ↦
        All-weaken (IsJustified m3_input found) _
          (λ m j.
            All-weaken (IsValidEvidence m3_input.evidence_index found.evidence_references) P
              (λ i v. taken i v.1) m.evidence_ids j.valid_evidence)
          _ (map_finding-IsJustified sha256_hex repo m3_input id found e)
  ]

  -- The evidence of the mappings, which is held by the index.
  map_all-Declared :
      (fs : List Finding)
      → All
          (λ m. Declared declared m.evidence_ids)
          (map_all sha256_hex is_private_ip now repo m3_input fs)
  unfolding map_all
  map_all-Declared [] = tt
  map_all-Declared (f ∷ fs) =
      All-append (λ m. Declared declared m.evidence_ids) _ _ (map_finding-Declared f.finding_id)
        (map_all-Declared fs)

  pub investigate-Declared :
      All
        (λ m. Declared declared m.evidence_ids)
        (investigate sha256_hex is_private_ip now repo m3_input findings ctx).mitre_mappings
  unfolding investigate
  investigate-Declared = map_all-Declared findings

  abbrev timeline : List TimelineEvent
  timeline = (correlate ctx).timeline_events

  abbrev hypotheses : List Hypothesis
  hypotheses =
      generate sha256_hex timeline (map_all sha256_hex is_private_ip now repo m3_input findings)
        m3_input (map (λ f. f.finding_id) (correlate ctx).findings)

  abbrev made : All (IsWellMade m3_input) hypotheses
  made = generate-IsWellMade sha256_hex timeline _ m3_input _

  hypotheses-Rest : All (HypothesisRests P) hypotheses
  hypotheses-Rest =
      All-weaken (IsGrounded m3_input.evidence_index) (HypothesisRests P)
        (λ h g. All-weaken (IsIndexed m3_input.evidence_index) P taken h.supporting_evidence_ids g)
        hypotheses (generate-IsGrounded sha256_hex timeline _ m3_input _ resolved)

  validations-IsBacked :
      All
        (λ v. IsBacked declared v × ValidationRests P v)
        (validate sha256_hex now timeline m3_input hypotheses)
  unfolding validate
  validations-IsBacked =
      All-map (IsWellMade m3_input) _ (validate_one sha256_hex now timeline m3_input)
        (validate_one-IsBacked sha256_hex now timeline m3_input declared taken) hypotheses made

  -- What the engines conclude rests on declared evidence, and each decision of the validator on
  -- some.
  pub investigate-IsAssessable :
      IsAssessable declared (investigate sha256_hex is_private_ip now repo m3_input findings ctx)
  unfolding investigate
  investigate-IsAssessable =
      let vals = validate sha256_hex now timeline m3_input hypotheses in
      let causes =
        analyze-Rests P sha256_hex m3_input.acquisition_id hypotheses vals hypotheses-Rest
          (All-weaken _ (ValidationRests P) (λ v b. b.1) vals validations-IsBacked) in
      record {
        hypotheses = hypotheses-Rest;
        validations = All-weaken _ (IsBacked declared) (λ v b. b.0) vals validations-IsBacked;
        root_causes = causes;
        impacts = analyze-ImpactRests P sha256_hex is_private_ip m3_input hypotheses vals _ causes;
      }
