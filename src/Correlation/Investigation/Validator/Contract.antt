-- ===== src/Correlation/Investigation/Validator/Contract.antt =====
-- What a hypothesis validation promises to the engines and the case builder after it.
use net_sleuth_ai.Shared.{
  ℕ, String, true, false, List, [], ◌≡◌, refl, ◌≤◌, arith, inl, inr, ◌∷◌, is_empty, length,
  Bool-cases, text_leb, is_empty-sort_by, All-sort_by, All,
}
use net_sleuth_ai.Correlation.Domain.{
  Flow, ProtocolEvent, Timestamp, EvidenceIndex, M3InvestigationInput,
}
use net_sleuth_ai.Correlation.Investigation.Context.{
  ValidationStatus, validated, rejected, inconclusive, Hypothesis, HypothesisValidation,
  TimelineEvent,
}
use net_sleuth_ai.Correlation.Investigation.Rules.{
  Verdict, matched_flows, matched_events, verdict, unknown_verdict,
}
use net_sleuth_ai.Correlation.Investigation.Rules.Signals.{
  is_known, verdict-of_unknown, IsBacked, verdict-IsBacked,
}
use net_sleuth_ai.Correlation.Investigation.Rules.Sources.{IsListed, verdict-IsListed}
use net_sleuth_ai.Correlation.Investigation.Validator.{
  reject_unexplained, validation_confidence, validate_one,
}

-- A verdict that is backed is never rejected for want of an explanation.
reject_unexplained-of_IsBacked : (v : Verdict) → IsBacked v → reject_unexplained v ≡ v
unfolding reject_unexplained
reject_unexplained-of_IsBacked v h = ground arith

abbrev Supports : ValidationStatus → List String → List String → Type 0
Supports validated supporting contradicting =
    (is_empty supporting ≡ false) × (is_empty contradicting ≡ true)
Supports rejected supporting contradicting =
    (is_empty supporting ≡ true) × (is_empty contradicting ≡ false)
Supports inconclusive supporting contradicting =
    (is_empty supporting ≡ true) × (is_empty contradicting ≡ true)

-- The status agrees with the two lists of evidence.
abbrev pub Agrees : HypothesisValidation → Type 0
Agrees v = Supports v.validation_status v.supporting_evidence_ids v.contradicting_evidence_ids

not_empty-length : (xs : List String) → is_empty xs ≡ false → 1 ≤ length xs
not_empty-length [] h = cc
not_empty-length (x ∷ xs) h = omega arith

supporting-reject_unexplained : (v : Verdict) → (reject_unexplained v).supporting ≡ v.supporting
unfolding reject_unexplained
supporting-reject_unexplained v = ground arith

contradicting-reject_unexplained :
    (v : Verdict) → (reject_unexplained v).contradicting ≡ v.contradicting
unfolding reject_unexplained
contradicting-reject_unexplained v = ground arith

-- The confidence for a status, in hundredths.
abbrev pub Bounds : ValidationStatus → ℕ → Type 0
Bounds validated c = (60 ≤ c) × (c ≤ 90)
Bounds rejected c = c ≤ 30
Bounds inconclusive c = c ≡ 50

module _ (sha256_hex : String → String) (now : Timestamp) (timeline : List TimelineEvent)
    (m3_input : M3InvestigationInput) (hyp : Hypothesis) where
  abbrev index : EvidenceIndex
  index = m3_input.evidence_index

  abbrev ruling : Verdict
  ruling =
      verdict hyp.hypothesis_type (matched_flows index hyp.supporting_evidence_ids)
        (matched_events index hyp.supporting_evidence_ids)

  abbrev validation : HypothesisValidation
  validation = validate_one sha256_hex now timeline m3_input hyp

  settled : is_known hyp.hypothesis_type ≡ true → IsBacked ruling
  settled =
      verdict-IsBacked (matched_flows index hyp.supporting_evidence_ids)
        (matched_events index hyp.supporting_evidence_ids) hyp.hypothesis_type

  -- For a hypothesis of one of the five generated types, the validation is VALIDATED with
  -- supporting and without contradicting evidence, REJECTED with contradicting and without
  -- supporting evidence, or INCONCLUSIVE with neither.
  pub validate_one-Agrees : is_known hyp.hypothesis_type ≡ true → Agrees validation
  unfolding validate_one
  validate_one-Agrees known =
      let v = ruling in
      ground (
        arith,
        settled known,
        reject_unexplained-of_IsBacked v (settled known),
        is_empty-sort_by text_leb v.supporting,
        is_empty-sort_by text_leb v.contradicting,
      )

  -- For a hypothesis of one of the five generated types, the confidence lies from 0.6 to 0.9 if it
  -- is VALIDATED, is at most 0.3 if it is REJECTED, and is 0.5 if it is INCONCLUSIVE.
  pub confidence-validate_one :
      is_known hyp.hypothesis_type ≡ true
      → Bounds validation.validation_status validation.confidence
  unfolding validate_one validation_confidence
  confidence-validate_one known =
      let v = ruling in
      ground (
        arith,
        settled known,
        reject_unexplained-of_IsBacked v (settled known),
        not_empty-length v.supporting,
        not_empty-length v.contradicting,
      )

  -- The evidence of a validation, supporting or contradicting, is listed by the hypothesis and is a
  -- flow or an event of the evidence index, whatever the type.
  pub validate_one-IsListed :
      All (IsListed index hyp.supporting_evidence_ids) validation.supporting_evidence_ids
      × All (IsListed index hyp.supporting_evidence_ids) validation.contradicting_evidence_ids
  unfolding validate_one
  validate_one-IsListed =
      let v = ruling in
      let P = IsListed index hyp.supporting_evidence_ids in
      let (s, c) = verdict-IsListed index hyp.hypothesis_type hyp.supporting_evidence_ids in
      (
        rw (supporting-reject_unexplained v) (All-sort_by text_leb P v.supporting s),
        rw (contradicting-reject_unexplained v) (All-sort_by text_leb P v.contradicting c),
      )

-- The rejection of a verdict with neither a signal nor an explanation changes no verdict of the
-- rules: on every type, known or not, they give one or the other.
pub reject_unexplained-verdict :
    (type : String) (flows : List (String × Flow)) (events : List (String × ProtocolEvent))
    → reject_unexplained (verdict type flows events) ≡ verdict type flows events
reject_unexplained-verdict type flows events = elim (Bool-cases (is_known type)) [
  | inl known ↦
      reject_unexplained-of_IsBacked (verdict type flows events)
        (verdict-IsBacked flows events type known)
  | inr new ↦
      rw (verdict-of_unknown flows events type new)
        (unfold unknown_verdict reject_unexplained in refl)
]
