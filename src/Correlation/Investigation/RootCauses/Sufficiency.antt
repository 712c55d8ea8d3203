-- ===== src/Correlation/Investigation/RootCauses/Sufficiency.antt =====
-- What a root cause of each status rests on.
use net_sleuth_ai.Shared.{
  ℕ, String, false, List, [], ◌≡◌, refl, ◌≤◌, arith, some, ◌∷◌, ◌==◌, ==-exclusive, is_empty,
  length,
}
use net_sleuth_ai.Correlation.Investigation.Context.{
  validated, Hypothesis, HypothesisValidation, RootCause, RootCauseStatus,
}
use net_sleuth_ai.Correlation.Investigation.RootCauses.{
  cause, settled_status, cause_confidence, root_cause,
}

-- What SUPPORTED claims of the validation.
pub record IsSufficient (val : HypothesisValidation) (type : String) : Type 0 where
  pub confirmed : val.validation_status ≡ validated
  pub complete : val.missing_evidence ≡ []
  pub uncontradicted : val.contradicting_evidence_ids ≡ []
  pub strong : 2 ≤ length val.supporting_evidence_ids
  pub not_exfiltration : (type == "POTENTIAL_EXFILTRATION") ≡ false

empty_of_length {ℓ} : {A : Type ℓ} (xs : List A) → length xs ≡ 0 → xs ≡ []
empty_of_length [] e = refl
empty_of_length (x ∷ xs) e = absurd (omega arith)

cause-IsSufficient :
    (val : HypothesisValidation) (type : String)
    → settled_status val (cause type val).status ≡ RootCauseStatus.supported
    → IsSufficient val type
unfolding cause settled_status
cause-IsSufficient val type h =
    let other = ==-exclusive type "POTENTIAL_EXFILTRATION" in
    ground (
      arith,
      empty_of_length val.missing_evidence,
      empty_of_length val.contradicting_evidence_ids,
      other "C2_COMMUNICATION" refl,
      other "DNS_C2" refl,
      other "NETWORK_RECONNAISSANCE" refl,
      other "SUSPICIOUS_WEB_ACTIVITY" refl,
    )

-- What PARTIALLY_SUPPORTED claims of the validation.
cause-partial :
    (val : HypothesisValidation) (type : String)
    → settled_status val (cause type val).status ≡ RootCauseStatus.partially_supported
    → (val.validation_status ≡ validated)
      × (val.contradicting_evidence_ids ≡ [])
      × (is_empty val.supporting_evidence_ids ≡ false)
unfolding cause settled_status
cause-partial val type h = ground (arith, empty_of_length val.contradicting_evidence_ids)

cause-missing :
    (val : HypothesisValidation) (type : String)
    → (type == "POTENTIAL_EXFILTRATION") ≡ false
    → (cause type val).missing_evidence ≡ val.missing_evidence
unfolding cause
cause-missing val type h = ground arith

-- The confidence for a status, in hundredths.
abbrev pub CauseBounds : RootCauseStatus → ℕ → Type 0
CauseBounds RootCauseStatus.supported c = (65 ≤ c) × (c ≤ 75)
CauseBounds RootCauseStatus.partially_supported c = (50 ≤ c) × (c ≤ 75)
CauseBounds RootCauseStatus.potential c = c ≤ 60
CauseBounds RootCauseStatus.unresolved c = c ≤ 40

not_empty-length {ℓ} : {A : Type ℓ} (xs : List A) → is_empty xs ≡ false → 1 ≤ length xs
not_empty-length [] h = cc
not_empty-length (x ∷ xs) h = omega arith

cause_confidence-CauseBounds :
    (val : HypothesisValidation) (type : String)
    → let status = settled_status val (cause type val).status in
      CauseBounds status (cause_confidence val (cause type val).missing_evidence status)
unfolding cause_confidence
cause_confidence-CauseBounds val type = by_status (settled_status val (cause type val).status) refl
  where
    by_status :
        (s : RootCauseStatus)
        → settled_status val (cause type val).status ≡ s
        → CauseBounds s (cause_confidence val (cause type val).missing_evidence s)
    by_status RootCauseStatus.supported e =
        let h = cause-IsSufficient val type e in
        ground (
          arith,
          h.confirmed,
          h.complete,
          h.uncontradicted,
          h.strong,
          cause-missing val type h.not_exfiltration,
        )
    by_status RootCauseStatus.partially_supported e =
        let (v, c, s) = cause-partial val type e in
        ground (arith, v, c, not_empty-length val.supporting_evidence_ids s)
    by_status RootCauseStatus.potential e = omega arith
    by_status RootCauseStatus.unresolved e = omega arith

module _ (sha256_hex : String → String) (acquisition_id : String) where
  -- A root cause is given the status SUPPORTED only if its validation is VALIDATED, lacks nothing,
  -- has no contradicting and at least two supporting pieces of evidence, and the hypothesis is not
  -- one of exfiltration.
  pub root_cause-IsSufficient :
      (val : HypothesisValidation) (hyp : Hypothesis) (rc : RootCause)
      → root_cause sha256_hex acquisition_id val hyp ≡ some rc
      → rc.status ≡ RootCauseStatus.supported
      → IsSufficient val hyp.hypothesis_type
  unfolding root_cause
  root_cause-IsSufficient val hyp rc e s = cause-IsSufficient val hyp.hypothesis_type (ground arith)

  -- A root cause that is emitted has evidence; its confidence lies from 0.65 to 0.75 if it is
  -- SUPPORTED and from 0.5 to 0.75 if it is PARTIALLY_SUPPORTED, is at most 0.6 if it is POTENTIAL,
  -- and at most 0.4 if it is UNRESOLVED.
  pub confidence-root_cause :
      (val : HypothesisValidation) (hyp : Hypothesis) (rc : RootCause)
      → root_cause sha256_hex acquisition_id val hyp ≡ some rc
      → (is_empty rc.supporting_evidence_ids ≡ false) × CauseBounds rc.status rc.confidence
  unfolding root_cause
  confidence-root_cause val hyp rc e =
      let bounds = cause_confidence-CauseBounds val hyp.hypothesis_type in ground (arith, bounds)

  pub status-root_cause :
      (val : HypothesisValidation) (hyp : Hypothesis) (rc : RootCause)
      → root_cause sha256_hex acquisition_id val hyp ≡ some rc
      → rc.status ≡ settled_status val (cause hyp.hypothesis_type val).status
  unfolding root_cause
  status-root_cause val hyp rc e = ground arith
