-- ===== src/Correlation/Investigation/Impacts/Provenance.antt =====
-- Where the evidence of the impacts comes from (`ImpactAssessor.analyze`).
use net_sleuth_ai.Shared.{
  String, Bool, Option, none, some, List, [], ◌∷◌, text_leb, lookup, Dict, ◌≡◌, arith, All,
  All-present-map_of, All-sort_by, if_ind, subst,
}
use net_sleuth_ai.Correlation.Domain.{M3InvestigationInput}
use net_sleuth_ai.Correlation.Investigation.Context.{
  Hypothesis, HypothesisValidation, RootCause, ImpactAssessment,
}
use net_sleuth_ai.Correlation.Investigation.RootCauses.Provenance.{CauseRests}
use net_sleuth_ai.Correlation.Investigation.RootCauses.{index_hypotheses}
use net_sleuth_ai.Correlation.Investigation.Impacts.{
  Impact, impact, assessment, assess, assess_first, assess_one, analyze, is_unresolved,
  index_validations,
}

module _ (P : String → Type 0) where
  abbrev pub ImpactRests : ImpactAssessment → Type 0
  ImpactRests a = All P a.supporting_evidence_ids

  module _ (sha256_hex : String → String) (is_private_ip : String → Bool)
      (m3_input : M3InvestigationInput) (rc : RootCause) (rests : CauseRests P rc)
      (a : ImpactAssessment) where
    abbrev FromCause : Option ImpactAssessment → Type 0
    FromCause o = o ≡ some a → ImpactRests a

    assessment-FromCause :
        (val : HypothesisValidation) (i : Impact)
        → FromCause (assessment sha256_hex is_private_ip m3_input.acquisition_id val rc i)
    unfolding assessment
    assessment-FromCause val i e =
        subst (All P) (ground (arith, e)) (All-sort_by text_leb P rc.supporting_evidence_ids rests)

    assess-FromCause :
        (hyp : Option Hypothesis) (val : Option HypothesisValidation)
        → FromCause (assess sha256_hex is_private_ip m3_input hyp val rc)
    unfolding assess
    assess-FromCause none val = λ e. absurd (ground (arith, e))
    assess-FromCause (some hyp) none = λ e. absurd (ground (arith, e))
    assess-FromCause (some hyp) (some val) =
        by_rule (impact is_private_ip m3_input.evidence_index hyp.hypothesis_type rc)
      where
        by_rule :
            (o : Option Impact)
            → FromCause (elim o [
              | none ↦ none
              | some i ↦ assessment sha256_hex is_private_ip m3_input.acquisition_id val rc i
            ])
        by_rule none = λ e. absurd (ground (arith, e))
        by_rule (some i) = assessment-FromCause val i

    assess_first-FromCause :
        (hypotheses : Dict Hypothesis) (validations : Dict HypothesisValidation) (ids : List String)
        → FromCause (assess_first sha256_hex is_private_ip m3_input hypotheses validations rc ids)
    unfolding assess_first
    assess_first-FromCause hypotheses validations [] = λ e. absurd (ground (arith, e))
    assess_first-FromCause hypotheses validations (h ∷ hs) =
        assess-FromCause (lookup h hypotheses) (lookup h validations)

    assess_one-FromCause :
        (hypotheses : Dict Hypothesis) (validations : Dict HypothesisValidation)
        → FromCause (assess_one sha256_hex is_private_ip m3_input hypotheses validations rc)
    unfolding assess_one
    assess_one-FromCause hypotheses validations =
        if_ind FromCause (is_unresolved rc.status) (λ r e. absurd (ground (arith, e)))
          (λ r. assess_first-FromCause hypotheses validations rc.supporting_hypothesis_ids)

  -- What holds of all the evidence of the root causes holds of all the evidence of the impacts.
  pub analyze-ImpactRests :
      (sha256_hex : String → String) (is_private_ip : String → Bool)
      (m3_input : M3InvestigationInput) (hypotheses : List Hypothesis)
      (validations : List HypothesisValidation) (causes : List RootCause)
      → All (CauseRests P) causes
      → All ImpactRests (analyze sha256_hex is_private_ip m3_input hypotheses validations causes)
  unfolding analyze
  analyze-ImpactRests sha256_hex is_private_ip m3_input hypotheses validations causes h =
      All-present-map_of (CauseRests P) ImpactRests _
        (λ rc a k.
          assess_one-FromCause sha256_hex is_private_ip m3_input rc k a
            (index_hypotheses hypotheses []) (index_validations validations []))
        causes h
