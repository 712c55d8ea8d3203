-- ===== src/Correlation/Investigation/Impacts/Claims.antt =====
-- What an impact assessment may claim.
use net_sleuth_ai.Shared.{
  ℕ, String, Bool, true, false, List, [], ◌≡◌, refl, ◌≤◌, arith, inl, inr, some, ◌==◌, eq_iff,
  ==-exclusive, is_empty, length, Option-cases, Dict, set_of, is_empty-sort_by, text_leb,
}
use net_sleuth_ai.Correlation.Domain.{EvidenceIndex, M3InvestigationInput}
use net_sleuth_ai.Correlation.Investigation.Context.{
  Hypothesis, HypothesisValidation, RootCause, RootCauseStatus, ImpactStatus, ImpactAssessment,
}
use net_sleuth_ai.Correlation.Investigation.Impacts.{
  Impact, impact, lowered, impact_confidence, assessment, assess, assess_one, is_unresolved,
  private_targets,
}

-- What the status of an impact claims.
abbrev pub Claims : ImpactStatus → String → HypothesisValidation → RootCause → Type 0
Claims ImpactStatus.observed type val rc = ⊥
Claims ImpactStatus.inferred type val rc =
    (type ≡ "C2_COMMUNICATION")
    × (rc.status ≡ RootCauseStatus.supported)
    × (3 ≤ length rc.supporting_evidence_ids)
    × (val.contradicting_evidence_ids ≡ [])
Claims ImpactStatus.potential type val rc = Unit

impact-Claims :
    (is_private_ip : String → Bool) (index : EvidenceIndex) (type : String)
    (val : HypothesisValidation) (rc : RootCause) (i : Impact)
    → impact is_private_ip index type rc ≡ some i
    → Claims (lowered val.contradicting_evidence_ids i.status) type val rc
unfolding impact lowered
impact-Claims is_private_ip index type val rc i e = ground (arith, eq_iff type "C2_COMMUNICATION")

-- The confidence for a status, in hundredths.
abbrev pub ImpactBounds : ImpactStatus → ℕ → Type 0
ImpactBounds ImpactStatus.observed c = ⊥
ImpactBounds ImpactStatus.inferred c = (55 ≤ c) × (c ≤ 70)
ImpactBounds ImpactStatus.potential c = c ≤ 60

impact_confidence-ImpactBounds :
    (type : String) (val : HypothesisValidation) (rc : RootCause) (missing : List String)
    (status : ImpactStatus)
    → Claims status type val rc
    → ImpactBounds status (impact_confidence rc val.contradicting_evidence_ids missing status)
unfolding impact_confidence
impact_confidence-ImpactBounds type val rc missing ImpactStatus.observed c = absurd c
impact_confidence-ImpactBounds type val rc missing ImpactStatus.inferred (t, s, n, z) =
    ground (arith, s, n, z)
impact_confidence-ImpactBounds type val rc missing ImpactStatus.potential c = omega arith

-- Two private hosts at least are among the destinations of the evidence.
abbrev pub IsLateral : (String → Bool) → EvidenceIndex → RootCause → Type 0
IsLateral is_private_ip index rc =
    2 ≤ length (set_of (private_targets is_private_ip index.flows rc.supporting_evidence_ids))

impact-IsLateral :
    (is_private_ip : String → Bool) (index : EvidenceIndex) (type : String) (rc : RootCause)
    (i : Impact)
    → impact is_private_ip index type rc ≡ some i
    → (i.category == "LATERAL_MOVEMENT") ≡ true
    → (type ≡ "NETWORK_RECONNAISSANCE") × IsLateral is_private_ip index rc
unfolding impact
impact-IsLateral is_private_ip index type rc i e c =
    let other = ==-exclusive i.category "LATERAL_MOVEMENT" in
    ground (
      arith,
      eq_iff type "NETWORK_RECONNAISSANCE",
      eq_iff i.category "SYSTEM_COMPROMISE",
      eq_iff i.category "DATA_EXFILTRATION",
      other "SYSTEM_COMPROMISE" refl,
      other "DATA_EXFILTRATION" refl,
    )

module _ (sha256_hex : String → String) (is_private_ip : String → Bool)
    (m3_input : M3InvestigationInput) (hyp : Hypothesis) (val : HypothesisValidation)
    (rc : RootCause) (a : ImpactAssessment)
    (e : assess sha256_hex is_private_ip m3_input (some hyp) (some val) rc ≡ some a) where
  abbrev Sourced : Type 0
  Sourced =
      (i : Impact) × (impact is_private_ip m3_input.evidence_index hyp.hypothesis_type rc ≡ some i)
      × (assessment sha256_hex is_private_ip m3_input.acquisition_id val rc i ≡ some a)

  -- The rule's impact that an assessment is made from.
  sourced : Sourced
  unfolding assess
  sourced =
      elim (Option-cases (impact is_private_ip m3_input.evidence_index hyp.hypothesis_type rc)) [
        | inl n ↦ absurd (ground (arith, n, e))
        | inr s ↦ (s.0, s.1, ground (arith, s.1, e))
      ]

  -- An impact is never OBSERVED; it is INFERRED only for a command-and-control hypothesis, from a SUPPORTED root
  -- cause with at least three pieces of evidence and a validation without contradiction.
  pub assess-Claims : Claims a.status hyp.hypothesis_type val rc
  unfolding assessment
  assess-Claims =
      let (i, m, n) = sourced in
      let c = impact-Claims is_private_ip m3_input.evidence_index hyp.hypothesis_type val rc i m in
      ground (arith, c, n)

  -- An impact has evidence; its confidence lies from 0.55 to 0.7 if it is INFERRED, and is at most
  -- 0.6 if it is POTENTIAL.
  pub assess-ImpactBounds :
      (is_empty a.supporting_evidence_ids ≡ false) × ImpactBounds a.status a.confidence
  unfolding assessment
  assess-ImpactBounds =
      let (i, m, n) = sourced in
      let c = impact-Claims is_private_ip m3_input.evidence_index hyp.hypothesis_type val rc i m in
      let b =
        impact_confidence-ImpactBounds hyp.hypothesis_type val rc i.missing_evidence
          (lowered val.contradicting_evidence_ids i.status) c in
      ground (arith, b, n, is_empty-sort_by text_leb rc.supporting_evidence_ids)

  -- An impact of lateral movement is only found for a reconnaissance hypothesis, and the flows among
  -- the evidence of its root cause have at least two different private destinations.
  pub assess-IsLateral :
      (a.category == "LATERAL_MOVEMENT") ≡ true
      → (hyp.hypothesis_type ≡ "NETWORK_RECONNAISSANCE")
        × IsLateral is_private_ip m3_input.evidence_index rc
  unfolding assessment
  assess-IsLateral c =
      let (i, m, n) = sourced in
      let l = impact-IsLateral is_private_ip m3_input.evidence_index hyp.hypothesis_type rc i m in
      ground (arith, l, n, c)

pub assess_one-IsResolved :
    (sha256_hex : String → String) (is_private_ip : String → Bool) (m3_input : M3InvestigationInput)
    (hypotheses : Dict Hypothesis) (validations : Dict HypothesisValidation) (rc : RootCause)
    (a : ImpactAssessment)
    → assess_one sha256_hex is_private_ip m3_input hypotheses validations rc ≡ some a
    → is_unresolved rc.status ≡ false
unfolding assess_one
assess_one-IsResolved sha256_hex is_private_ip m3_input hypotheses validations rc a e = ground arith
