-- ===== src/Analysis/Findings/Window.antt =====
-- The observation window of a finding (backend/app/engines/analysis/findings/builder.py).
use net_sleuth_ai.Shared.{
  ◌≤◌, String, Bool, Option, some, List, [], ◌∷◌, ◌≡◌, sym, subst, inl, inr, arith, All, All-both,
  ok,
}
use net_sleuth_ai.Correlation.Domain.{
  Timestamp, NetworkIntelligencePackage, Finding, FindingsPackage,
}
use net_sleuth_ai.Correlation.Investigation.Context.{
  earlier, later, earliest, latest, first_of, last_of,
}
use net_sleuth_ai.Analysis.Rationale.{FeatureVector, AnalysisDecisionResult}
use net_sleuth_ai.Analysis.Findings.{timestamps_of, generate}
use net_sleuth_ai.Analysis.Findings.Generation.{Made, generate-Made}

abbrev AtLeast : Timestamp → Timestamp → Type 0
AtLeast s t = s.moment ≤ t.moment

earliest-AtLeast : (t : Timestamp) (us : List Timestamp) → All (AtLeast (earliest t us)) (t ∷ us)
unfolding earliest
earliest-AtLeast t [] = (omega arith, tt)
earliest-AtLeast t (u ∷ us) =
    let (least, rest) = earliest-AtLeast (earlier t u) us in
    (ground (arith, least), (ground (arith, least), rest))

latest-AtMost : (t : Timestamp) (us : List Timestamp) → All (λ u. AtLeast u (latest t us)) (t ∷ us)
unfolding latest
latest-AtMost t [] = (omega arith, tt)
latest-AtMost t (u ∷ us) =
    let (most, rest) = latest-AtMost (later t u) us in
    (ground (arith, most), (ground (arith, most), rest))

-- Whether a time lies between the two ends of a window.
abbrev pub Within : Option Timestamp → Option Timestamp → Timestamp → Type 0
Within (some s) (some e) t = AtLeast s t × AtLeast t e
Within _ _ t = ⊥

within : (ts : List Timestamp) → All (Within (first_of ts) (last_of ts)) ts
within [] = tt
within (t ∷ ts) = All-both _ _ (t ∷ ts) (earliest-AtLeast t ts) (latest-AtMost t ts)

module _ (strict : Bool) (package_hex finding_hex : String) (p : NetworkIntelligencePackage)
    (v : FeatureVector) (d : AnalysisDecisionResult) where
  abbrev pub IsWindowed : Finding → Type 0
  IsWindowed f = All (Within f.observation_start f.observation_end) (timestamps_of p)

  -- The observation window of each finding that is generated takes in the time of every flow and of
  -- every protocol event of the package.
  pub generate-IsWindowed :
      (fp : FindingsPackage)
      → generate strict package_hex finding_hex p v d ≡ ok fp
      → All IsWindowed fp.findings
  generate-IsWindowed fp h = of_made (generate-Made strict package_hex finding_hex p v d h)
    where
      of_made :
          {fp : FindingsPackage}
          → Made strict package_hex finding_hex p v d fp
          → All IsWindowed fp.findings
      of_made (inl (_, e)) = subst (λ fp. All IsWindowed fp.findings) (sym e) tt
      of_made (inr (_, _, (text, e))) =
          subst (λ fp. All IsWindowed fp.findings) (sym e) (within (timestamps_of p), tt)
