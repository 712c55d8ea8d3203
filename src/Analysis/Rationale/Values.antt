-- ===== src/Analysis/Rationale/Values.antt =====
-- When `generate_rationale` (backend/app/engines/analysis/findings/attribution.py) returns a text.
use net_sleuth_ai.Shared.{
  ℕ, String, Bool, true, false, Option, none, some, List, [], ◌∷◌, ◌++◌, ◌≡◌, refl, All, lookup,
  Dict, ok, >>=-eq-ok,
}
use net_sleuth_ai.Analysis.Rationale.{
  AnalysisDecisionResult, Signal, high_ips, high_ports, high_failed, high_rate, high_dns, high_http,
  compared, signal, signals, rationale_of, generate_rationale,
}

abbrev is_numeric : Option (Option ℕ) → Bool
is_numeric none = true
is_numeric (some none) = false
is_numeric (some (some n)) = true

abbrev pub has_value : Dict (Option ℕ) → String → Bool
has_value features name = is_numeric (lookup name features)

abbrev tested : List Signal
tested = high_ips ∷ high_ports ∷ high_failed ∷ high_rate ∷ high_dns ∷ high_http ∷ []

-- None of the six features that the rationale reads stands without a number.
abbrev pub IsNumeric : Dict (Option ℕ) → Type 0
IsNumeric features = All (λ s. has_value features s.name ≡ true) tested

module _ (s : Signal) where
  compared-Returns :
      (v : Option (Option ℕ))
      → is_numeric v ≡ true
      → (found : List String) × (compared s v ≡ ok found)
  unfolding compared
  compared-Returns none h = ([], refl)
  compared-Returns (some none) h = cc
  compared-Returns (some (some n)) h = (_, refl)

  compared-is_numeric :
      (v : Option (Option ℕ)) (found : List String) → compared s v ≡ ok found → is_numeric v ≡ true
  unfolding compared
  compared-is_numeric none found h = refl
  compared-is_numeric (some none) found h = cc
  compared-is_numeric (some (some n)) found h = refl

module _ (features : Dict (Option ℕ)) where
  signals-Returns : IsNumeric features → (found : List String) × (signals features ≡ ok found)
  unfolding signals
  signals-Returns (a, (b, (c, (d, (e, (f, _)))))) =
      let (ips, p) = compared-Returns high_ips (lookup high_ips.name features) a in
      let (ports, q) = compared-Returns high_ports (lookup high_ports.name features) b in
      let (failed, r) = compared-Returns high_failed (lookup high_failed.name features) c in
      let (rate, s) = compared-Returns high_rate (lookup high_rate.name features) d in
      let (dns, t) = compared-Returns high_dns (lookup high_dns.name features) e in
      let (http, u) = compared-Returns high_http (lookup high_http.name features) f in
      (ips ++ (ports ++ (failed ++ (rate ++ (dns ++ http)))), rw (p, q, r, s, t, u) refl)

  signals-IsNumeric : (found : List String) → signals features ≡ ok found → IsNumeric features
  unfolding signals
  signals-IsNumeric found h =
      let (_, a, h1) = >>=-eq-ok (signal high_ips features) _ h in
      let (_, b, h2) = >>=-eq-ok (signal high_ports features) _ h1 in
      let (_, c, h3) = >>=-eq-ok (signal high_failed features) _ h2 in
      let (_, d, h4) = >>=-eq-ok (signal high_rate features) _ h3 in
      let (_, e, h5) = >>=-eq-ok (signal high_dns features) _ h4 in
      let (_, f, _) = >>=-eq-ok (signal high_http features) _ h5 in
      (
        compared-is_numeric high_ips _ _ a,
        (
          compared-is_numeric high_ports _ _ b,
          (
            compared-is_numeric high_failed _ _ c,
            (
              compared-is_numeric high_rate _ _ d,
              (compared-is_numeric high_dns _ _ e, (compared-is_numeric high_http _ _ f, tt)),
            ),
          ),
        ),
      )

module _ (activity : String) (decision : AnalysisDecisionResult) (features : Dict (Option ℕ)) where
  pub rationale-Returns :
      IsNumeric features
      → (text : String) × (generate_rationale activity decision features ≡ ok text)
  unfolding generate_rationale
  rationale-Returns h =
      let (found, e) = signals-Returns features h in
      (rationale_of activity decision found, rw e refl)

  pub rationale-IsNumeric :
      {text : String} → generate_rationale activity decision features ≡ ok text → IsNumeric features
  unfolding generate_rationale
  rationale-IsNumeric h =
      let (found, e, _) = >>=-eq-ok (signals features) _ h in signals-IsNumeric features found e
