-- ===== src/Correlation/Investigation/RootCauses/Provenance.antt =====
-- Where the evidence of the root causes comes from (`RootCauseAnalyzer.analyze`).
use net_sleuth_ai.Shared.{
  String, Option, none, some, List, [], ◌∷◌, text_leb, lookup, Dict, Values, Values-insert,
  Values-empty, ◌≡◌, refl, arith, All, All-present-map_of, All-sort_by, if_ind, subst, sorted,
}
use net_sleuth_ai.Correlation.Investigation.Context.{Hypothesis, HypothesisValidation, RootCause}
use net_sleuth_ai.Correlation.Investigation.RootCauses.{
  index_hypotheses, is_rejected, root_cause, analyze_one, analyze, or_else,
}

module _ (P : String → Type 0) where
  abbrev pub HypothesisRests : Hypothesis → Type 0
  HypothesisRests h = All P h.supporting_evidence_ids

  abbrev pub ValidationRests : HypothesisValidation → Type 0
  ValidationRests v = All P v.supporting_evidence_ids × All P v.contradicting_evidence_ids

  abbrev pub CauseRests : RootCause → Type 0
  CauseRests rc = All P rc.supporting_evidence_ids

  pub index_hypotheses-Values :
      (hs : List Hypothesis) (d : Dict Hypothesis)
      → All HypothesisRests hs
      → Values HypothesisRests d
      → Values HypothesisRests (index_hypotheses hs d)
  unfolding index_hypotheses
  index_hypotheses-Values [] d h v = v
  index_hypotheses-Values (x ∷ xs) d h v =
      index_hypotheses-Values xs _ h.1 (Values-insert HypothesisRests x.hypothesis_id x d h.0 v)

  All-or_else : (xs ys : List String) → All P xs → All P ys → All P (or_else xs ys)
  All-or_else [] ys h k = k
  All-or_else (x ∷ xs) ys h k = h

  module _ (sha256_hex : String → String) (acquisition_id : String) where
    root_cause-Rests :
        (val : HypothesisValidation) (hyp : Hypothesis) (rc : RootCause)
        → ValidationRests val
        → HypothesisRests hyp
        → root_cause sha256_hex acquisition_id val hyp ≡ some rc
        → CauseRests rc
    unfolding root_cause
    root_cause-Rests val hyp rc v h e =
        let support =
          or_else (sorted val.supporting_evidence_ids) (sorted hyp.supporting_evidence_ids) in
        let all : All P support =
          All-or_else (sorted val.supporting_evidence_ids) (sorted hyp.supporting_evidence_ids)
            (All-sort_by text_leb P val.supporting_evidence_ids v.0)
            (All-sort_by text_leb P hyp.supporting_evidence_ids h) in
        subst (All P) (ground (arith, e)) all

    analyze_one-Rests :
        (index : Dict Hypothesis) (val : HypothesisValidation) (rc : RootCause)
        → Values HypothesisRests index
        → ValidationRests val
        → analyze_one sha256_hex acquisition_id index val ≡ some rc
        → CauseRests rc
    unfolding analyze_one
    analyze_one-Rests index val rc values v =
        if_ind Q (is_rejected val.validation_status) (λ r e. absurd (ground (arith, e)))
          (λ r. by_hyp (lookup val.hypothesis_id index) (values val.hypothesis_id))
      where
        Q : Option RootCause → Type 0
        Q o = o ≡ some rc → CauseRests rc

        by_hyp :
            (o : Option Hypothesis)
            → ((h : Hypothesis) → o ≡ some h → HypothesisRests h)
            → Q (elim o [ none ↦ none | some hyp ↦ root_cause sha256_hex acquisition_id val hyp ])
        by_hyp none k e = absurd (ground (arith, e))
        by_hyp (some hyp) k e = root_cause-Rests val hyp rc v (k hyp refl) e

    -- What holds of all the evidence of the hypotheses and of the validations holds of all the
    -- evidence of the root causes.
    pub analyze-Rests :
        (hypotheses : List Hypothesis) (validations : List HypothesisValidation)
        → All HypothesisRests hypotheses
        → All ValidationRests validations
        → All CauseRests (analyze sha256_hex acquisition_id hypotheses validations)
    unfolding analyze
    analyze-Rests hypotheses validations h v =
        let values = index_hypotheses-Values hypotheses [] h (Values-empty HypothesisRests) in
        All-present-map_of ValidationRests CauseRests _
          (λ val rc k. analyze_one-Rests (index_hypotheses hypotheses []) val rc values k)
          validations v
