-- ===== src/Correlation/Investigation/Rules/Signals.antt =====
-- What every verdict of the validation rules has.
use net_sleuth_ai.Shared.{
  ◌+◌, is_empty-map, is_empty-select, String, Bool, true, false, ◌||◌, List, [], ◌≡◌, refl, arith,
  ◌∷◌, ◌++◌, ◌==◌, ltb, leb, eqb, any, select, is_empty, length, if_ind, set_of, is_empty-set_of,
}
use net_sleuth_ai.Correlation.Domain.{Flow, ProtocolEvent}
use net_sleuth_ai.Correlation.Investigation.Context.{
  ValidationStatus, validated, rejected, inconclusive,
}
use net_sleuth_ai.Correlation.Investigation.Rules.{
  Verdict, is_dns, is_web, is_outbound, destinations, ports, verdict, ids_of, c2_verdict,
  dns_verdict, recon_verdict, exfiltration_verdict, web_verdict, unknown_verdict, was_rejected,
}

-- The types that the hypothesis generator gives.
abbrev pub is_known : String → Bool
is_known type =
    type == "C2_COMMUNICATION"
    || type == "DNS_C2"
    || type == "NETWORK_RECONNAISSANCE"
    || type == "POTENTIAL_EXFILTRATION"
    || type == "SUSPICIOUS_WEB_ACTIVITY"

-- A verdict that decides names a signal on its side alone; one that does not says what is missing.
abbrev Backs : ValidationStatus → Verdict → Type 0
Backs validated v = (is_empty v.supporting ≡ false) × (v.contradicting ≡ [])
Backs rejected v = (v.supporting ≡ []) × (is_empty v.contradicting ≡ false)
Backs inconclusive v =
    (v.supporting ≡ []) × (v.contradicting ≡ []) × (is_empty v.missing_evidence ≡ false)

abbrev pub IsBacked : Verdict → Type 0
IsBacked v = Backs v.status v

not_empty_set : (xs : List String) → is_empty xs ≡ false → is_empty (set_of xs) ≡ false
not_empty_set xs h = rw (is_empty-set_of xs) h

two_signals :
    (flows : List (String × Flow)) (events : List (String × ProtocolEvent))
    → (leb 2 (length flows) || leb 2 (length events) || leb 2 (length flows + length events)) ≡ true
    → is_empty (ids_of events ++ ids_of flows) ≡ false
two_signals [] [] h = cc
two_signals (f ∷ flows) [] h = refl
two_signals flows (e ∷ events) h = refl

not_empty_ids {ℓ} :
    {A : Type ℓ} (xs : List (String × A))
    → is_empty xs ≡ false
    → is_empty (set_of (ids_of xs)) ≡ false
not_empty_ids xs h = not_empty_set (ids_of xs) (rw is_empty-map h)

no_targets :
    (flows : List (String × Flow))
    → (ltb 1 (length (set_of (destinations flows))) || ltb 1 (length (set_of (ports flows)))) ≡ true
    → is_empty flows ≡ false
unfolding set_of
no_targets [] h = cc
no_targets (f ∷ flows) h = refl

module _ (flows : List (String × Flow)) (events : List (String × ProtocolEvent)) where
  c2_verdict-IsBacked : IsBacked (c2_verdict flows events)
  unfolding c2_verdict
  c2_verdict-IsBacked =
      if_ind IsBacked
        (leb 2 (length flows) || leb 2 (length events) || leb 2 (length flows + length events))
        (λ e. (not_empty_set (ids_of events ++ ids_of flows) (two_signals flows events e), refl))
        (λ _.
          if_ind IsBacked (any was_rejected flows)
            (λ r. (
              refl,
              not_empty_ids (select was_rejected flows) (is_empty-select was_rejected flows r),
            ))
            (λ _.
              if_ind IsBacked (eqb (length flows) 1 || eqb (length events) 1)
                (λ _. (refl, refl, refl)) (λ _. (refl, refl, refl))))

  dns_verdict-IsBacked : IsBacked (dns_verdict events)
  unfolding dns_verdict
  dns_verdict-IsBacked =
      if_ind IsBacked (is_empty (select is_dns events)) (λ _. (refl, refl, refl))
        (λ e. (not_empty_ids (select is_dns events) e, refl))

  recon_verdict-IsBacked : IsBacked (recon_verdict flows)
  unfolding recon_verdict
  recon_verdict-IsBacked =
      if_ind IsBacked
        (ltb 1 (length (set_of (destinations flows))) || ltb 1 (length (set_of (ports flows))))
        (λ e. (not_empty_ids flows (no_targets flows e), refl)) (λ _. (refl, refl, refl))

  exfiltration_verdict-IsBacked : IsBacked (exfiltration_verdict flows)
  unfolding exfiltration_verdict
  exfiltration_verdict-IsBacked =
      if_ind IsBacked (is_empty (ids_of (select is_outbound flows))) (λ _. (refl, refl, refl))
        (λ e. (not_empty_set (ids_of (select is_outbound flows)) e, refl))

  web_verdict-IsBacked : IsBacked (web_verdict events)
  unfolding web_verdict
  web_verdict-IsBacked =
      if_ind IsBacked (is_empty (select is_web events)) (λ _. (refl, refl, refl))
        (λ e. (not_empty_ids (select is_web events) e, refl))

  -- The five rules by their tests, whatever is asked of a verdict.
  pub verdict_ind {ℓ} :
      (P : Verdict → Type ℓ) (type : String)
      → P (c2_verdict flows events)
      → P (dns_verdict events)
      → P (recon_verdict flows)
      → P (exfiltration_verdict flows)
      → P (web_verdict events)
      → (is_known type ≡ false → P (unknown_verdict type))
      → P (verdict type flows events)
  unfolding verdict
  verdict_ind P type c2 dns recon exfiltration web unknown =
      if_ind P (type == "C2_COMMUNICATION") (λ _. c2)
        λ n1.
          if_ind P (type == "DNS_C2") (λ _. dns)
            λ n2.
              if_ind P (type == "NETWORK_RECONNAISSANCE") (λ _. recon)
                λ n3.
                  if_ind P (type == "POTENTIAL_EXFILTRATION") (λ _. exfiltration)
                    λ n4.
                      if_ind P (type == "SUSPICIOUS_WEB_ACTIVITY") (λ _. web)
                        λ n5. unknown (rw (n1, n2, n3, n4, n5))

  pub verdict-IsBacked :
      (type : String) → is_known type ≡ true → IsBacked (verdict type flows events)
  verdict-IsBacked type known =
      verdict_ind IsBacked type c2_verdict-IsBacked dns_verdict-IsBacked recon_verdict-IsBacked
        exfiltration_verdict-IsBacked web_verdict-IsBacked (λ u. absurd (ground arith))

  pub verdict-of_unknown :
      (type : String) → is_known type ≡ false → verdict type flows events ≡ unknown_verdict type
  unfolding verdict
  verdict-of_unknown type u = ground arith
