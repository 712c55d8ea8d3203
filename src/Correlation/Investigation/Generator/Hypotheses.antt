-- ===== src/Correlation/Investigation/Generator/Hypotheses.antt =====
-- What the generated hypotheses have (`HypothesisGenerator.generate`), and what their validations
-- then say (`HypothesisValidator.validate`).
use net_sleuth_ai.Shared.{
  ℕ, ◌≤◌, String, Bool, true, false, Option, none, some, List, [], is_empty, length, any, select,
  set_of, text_leb, Dict, ◌≡◌, refl, ◌∙◌, subst, arith, eq_iff, All, All-present-map, All-map,
  All-sort_by, All-set_of, All-select_self, is_empty-sort_by, if_ind, some-injective,
}
use net_sleuth_ai.Correlation.Domain.{Timestamp, EvidenceIndex, M3InvestigationInput, Finding}
use net_sleuth_ai.Correlation.Mitre.{MitreMapping}
use net_sleuth_ai.Correlation.Investigation.Context.{Hypothesis, HypothesisStatus, TimelineEvent}
use net_sleuth_ai.Correlation.Investigation.Generator.{
  Rule, rule, is_held, ids_of_findings, hypothesis_confidence, hypothesis, generate_one, generate,
  has_protocol, group_findings, index_of_findings,
}
use net_sleuth_ai.Correlation.Investigation.Rules.Signals.{is_known}
use net_sleuth_ai.Correlation.Investigation.Validator.{validate_one, validate}
use net_sleuth_ai.Correlation.Investigation.Validator.Contract.{Agrees, validate_one-Agrees}

-- A hypothesis as the engines after the generator rely on.
pub record IsWellMade (m3_input : M3InvestigationInput) (h : Hypothesis) : Type 0 where
  pub known : is_known h.hypothesis_type ≡ true
  pub potential : h.status ≡ HypothesisStatus.potential
  pub supported : is_empty h.supporting_evidence_ids ≡ false
  pub held : All (λ i. is_held m3_input.evidence_index i ≡ true) h.supporting_evidence_ids
  pub at_least_half : 50 ≤ h.confidence
  pub at_most_cap : h.confidence ≤ 70

rule-is_known :
    (activity : String) (n : ℕ) (dns http : Bool) (r : Rule)
    → rule activity n dns http ≡ some r
    → is_known r.hypothesis_type ≡ true
unfolding rule
rule-is_known activity n dns http r h =
    let t = eq_iff r.hypothesis_type in
    ground (
      arith,
      h,
      t "C2_COMMUNICATION",
      t "DNS_C2",
      t "NETWORK_RECONNAISSANCE",
      t "POTENTIAL_EXFILTRATION",
      t "SUSPICIOUS_WEB_ACTIVITY",
    )

hypothesis_confidence-bounds :
    (entities techniques : List String)
    → (50 ≤ hypothesis_confidence entities techniques)
      × (hypothesis_confidence entities techniques ≤ 70)
unfolding hypothesis_confidence
hypothesis_confidence-bounds entities techniques = ground arith

module _ (sha256_hex : String → String) (timeline : List TimelineEvent)
    (mitre_mappings : List MitreMapping) (m3_input : M3InvestigationInput) where
  abbrev index : EvidenceIndex
  index = m3_input.evidence_index

  hypothesis-IsWellMade :
      (finding_ids evidence : List String) (r : Rule)
      → is_known r.hypothesis_type ≡ true
      → is_empty evidence ≡ false
      → All (λ i. is_held index i ≡ true) evidence
      → IsWellMade m3_input
          (hypothesis sha256_hex timeline mitre_mappings m3_input finding_ids evidence r)
  unfolding hypothesis
  hypothesis-IsWellMade finding_ids evidence r known some_evidence held = record {
    known = known;
    potential = refl;
    supported = is_empty-sort_by text_leb evidence ∙ some_evidence;
    held = All-sort_by text_leb (λ i. is_held index i ≡ true) evidence held;
    at_least_half = (hypothesis_confidence-bounds _ _).0;
    at_most_cap = (hypothesis_confidence-bounds _ _).1;
  }

  generate_one-IsWellMade :
      (findings : Dict Finding) (group : String × List String) (h : Hypothesis)
      → generate_one sha256_hex timeline mitre_mappings m3_input findings group ≡ some h
      → IsWellMade m3_input h
  unfolding generate_one
  generate_one-IsWellMade findings (activity, ids) h =
      if_ind Q (is_empty evidence) (λ n e. absurd (ground (arith, e)))
        (λ s.
          by_rule s
            (rule activity (length ids) (any (has_protocol "dns" index) evidence)
              (any (has_protocol "http" index) evidence))
            refl)
    where
      evidence : List String
      evidence = set_of (select (is_held index) (ids_of_findings findings ids))

      Q : Option Hypothesis → Type 0
      Q o = o ≡ some h → IsWellMade m3_input h

      by_rule :
          is_empty evidence ≡ false
          → (o : Option Rule)
          → rule activity
              (length ids)
              (any (has_protocol "dns" index) evidence)
              (any (has_protocol "http" index) evidence)
            ≡ o
          → Q (elim o [
            | none ↦ none
            | some r ↦ some (hypothesis sha256_hex timeline mitre_mappings m3_input ids evidence r)
          ])
      by_rule s none k e = absurd (ground (arith, e))
      by_rule s (some r) k e = subst (IsWellMade m3_input) (some-injective e) (
          hypothesis-IsWellMade ids evidence r (rule-is_known activity _ _ _ r k) s (
            All-set_of (λ i. is_held index i ≡ true) _
              (All-select_self (is_held index) (ids_of_findings findings ids))))

  -- Every hypothesis that is generated has one of the five types that the validator knows, is
  -- POTENTIAL with a confidence from 0.5 to 0.7, and has evidence, all of it held by the index.
  pub generate-IsWellMade :
      (finding_refs : List String)
      → All
          (IsWellMade m3_input)
          (generate sha256_hex timeline mitre_mappings m3_input finding_refs)
  unfolding generate
  generate-IsWellMade finding_refs =
      let findings = index_of_findings m3_input.findings [] in
      All-sort_by (λ a b. text_leb a.hypothesis_id b.hypothesis_id) (IsWellMade m3_input) _
        (All-present-map (IsWellMade m3_input) _ (generate_one-IsWellMade findings)
          (group_findings findings finding_refs []))

  -- The validations of the generated hypotheses are VALIDATED with supporting and without
  -- contradicting evidence, REJECTED with contradicting and without supporting evidence, or
  -- INCONCLUSIVE with neither.
  pub validate-generate :
      (now : Timestamp) (finding_refs : List String)
      → All Agrees (
          validate sha256_hex now timeline m3_input
            (generate sha256_hex timeline mitre_mappings m3_input finding_refs))
  unfolding validate
  validate-generate now finding_refs =
      All-map (IsWellMade m3_input) Agrees (validate_one sha256_hex now timeline m3_input)
        (λ h w. validate_one-Agrees sha256_hex now timeline m3_input h w.known)
        (generate sha256_hex timeline mitre_mappings m3_input finding_refs)
        (generate-IsWellMade finding_refs)
