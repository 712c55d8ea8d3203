-- ===== src/Analysis/Findings/Generation.antt =====
-- When `FindingsGenerator.generate` (backend/app/engines/analysis/findings/generator.py) returns, and
-- what it then returns.
use net_sleuth_ai.Shared.{
  String, Bool, true, false, not, Option, List, [], ◌∷◌, ◌≡◌, refl, sym, ◌∙◌, ◌↔◌, ◌⊎◌, inl, inr,
  ◌==◌, eq_iff, arith, Bool-cases, ok, raise_if, raise_if-eq-ok, >>=-eq-ok, >>-eq-ok, ok-injective,
  concat, if◌then◌else◌, ◌>>=◌,
}
use net_sleuth_ai.Correlation.Domain.{
  Timestamp, NetworkIntelligencePackage, Finding, FindingsPackage,
}
use net_sleuth_ai.Correlation.Investigation.Context.{first_of, last_of}
use net_sleuth_ai.Analysis.Rationale.{missing_source_package, FeatureVector, AnalysisDecisionResult}
use net_sleuth_ai.Analysis.Findings.{
  extract_evidence_references, timestamps_of, is_mixed, extract_observation_window, build_finding,
  is_quiet, generate,
}
use net_sleuth_ai.Analysis.Rationale.Values.{IsNumeric, rationale-Returns}
use net_sleuth_ai.Analysis.Findings.Attribution.{extract-IsNumeric, whole, extract-eq}

module _ (strict : Bool) (package_hex finding_hex : String) (p : NetworkIntelligencePackage)
    (v : FeatureVector) (d : AnalysisDecisionResult) where
  -- The finding of a package with the text of its rationale.
  abbrev pub finding_of : String → Finding
  finding_of text = record {
    finding_id = concat ("F-" ∷ finding_hex ∷ []);
    acquisition_id = p.acquisition_id;
    activity_class = d.predicted_activity;
    anomaly_score = d.anomaly_score;
    classification_confidence = d.confidence;
    risk_score = d.risk_score;
    evidence_references = whole p text ∷ [];
    observation_start = first_of (timestamps_of p);
    observation_end = last_of (timestamps_of p);
  }

  abbrev pub package_of : List Finding → FindingsPackage
  package_of findings = record {
    package_id = concat ("FP-" ∷ package_hex ∷ []);
    acquisition_id = p.acquisition_id;
    findings = findings;
  }

  -- The times can be compared, and the features that are read have values.
  abbrev pub CanBeBuilt : Type 0
  CanBeBuilt = (is_mixed (timestamps_of p) ≡ false) × IsNumeric v.features

  build-Returns :
      CanBeBuilt → (text : String) × (build_finding strict finding_hex p v d ≡ ok (finding_of text))
  unfolding build_finding extract_observation_window
  build-Returns (same, numeric) =
      let (text, e) = rationale-Returns d.predicted_activity d v.features numeric in
      (text, rw (same, extract-eq strict p d v text e) refl)

  window-IsComparable :
      {w : Option Timestamp × Option Timestamp}
      → extract_observation_window p ≡ ok w
      → is_mixed (timestamps_of p) ≡ false
  unfolding extract_observation_window
  window-IsComparable e = ground arith

  build-CanBeBuilt : {f : Finding} → build_finding strict finding_hex p v d ≡ ok f → CanBeBuilt
  unfolding build_finding
  build-CanBeBuilt h =
      let (w, e1, h1) = >>=-eq-ok (extract_observation_window p) _ h in
      let (refs, e2, _) = >>=-eq-ok (extract_evidence_references strict p d v) _ h1 in
      (window-IsComparable e1, extract-IsNumeric strict p d v e2)

  -- What `generate` needs.
  pub record IsAnalyzable : Type 0 where
    pub named : (p.acquisition_id == "") ≡ false
    pub same : p.acquisition_id ≡ v.acquisition_id
    pub worked : (is_quiet d ≡ true) ⊎ CanBeBuilt

  generate-of_quiet :
      IsAnalyzable
      → is_quiet d ≡ true
      → generate strict package_hex finding_hex p v d ≡ ok (package_of [])
  unfolding generate
  generate-of_quiet a quiet =
      rw (a.named, (eq_iff p.acquisition_id v.acquisition_id).1 a.same, quiet) refl

  generate-of_active :
      IsAnalyzable
      → is_quiet d ≡ false
      → CanBeBuilt
      → (text : String) × (generate strict package_hex finding_hex p v d
          ≡ ok (package_of (finding_of text ∷ [])))
  unfolding generate
  generate-of_active a active b =
      let (text, e) = build-Returns b in
      (text, rw (a.named, (eq_iff p.acquisition_id v.acquisition_id).1 a.same, active, e) refl)

  generate-IsAnalyzable :
      {fp : FindingsPackage} → generate strict package_hex finding_hex p v d ≡ ok fp → IsAnalyzable
  unfolding generate
  generate-IsAnalyzable h =
      let (named, h1) = >>-eq-ok (raise_if (p.acquisition_id == "") missing_source_package) _ h in
      let (same, h2) =
        >>-eq-ok (raise_if (not (p.acquisition_id == v.acquisition_id)) missing_source_package) _
          h1 in
      let (fs, e, _) =
        >>=-eq-ok
          (if is_quiet d
            then ok []
            else build_finding strict finding_hex p v d >>= λ f. ok (f ∷ []))
          _ h2 in
      record {
        named = raise_if-eq-ok _ _ named;
        same =
            (eq_iff p.acquisition_id v.acquisition_id).0
              (ground (arith, raise_if-eq-ok (not (p.acquisition_id == v.acquisition_id)) _ same));
        worked = elim (Bool-cases (is_quiet d)) [
          | inl quiet ↦ inl quiet
          | inr active ↦ inr (
              let (f, e', _) =
                >>=-eq-ok (build_finding strict finding_hex p v d) _ (rw active at e) in
              build-CanBeBuilt e')
        ];
      }

  buildable : (is_quiet d ≡ true) ⊎ CanBeBuilt → is_quiet d ≡ false → CanBeBuilt
  buildable (inl quiet) active = cc
  buildable (inr b) active = b

  -- The generator returns a package if and only if the acquisition has a name, which the feature
  -- vector shares, and the decision is one without a finding, or no time with a zone stands beside
  -- one without and none of the six features in the rationale lacks its number: it never
  -- raises that evidence is fabricated, whether it checks that or not.
  pub generate-answers_iff :
      ((fp : FindingsPackage) × (generate strict package_hex finding_hex p v d ≡ ok fp))
      ↔ IsAnalyzable
  generate-answers_iff = (λ (fp, e). generate-IsAnalyzable e, answer)
    where
      answer :
          IsAnalyzable
          → (fp : FindingsPackage) × (generate strict package_hex finding_hex p v d ≡ ok fp)
      answer a = elim (Bool-cases (is_quiet d)) [
        | inl quiet ↦ (package_of [], generate-of_quiet a quiet)
        | inr active ↦
            (let (text, e) = generate-of_active a active (buildable a.worked active) in
              (package_of (finding_of text ∷ []), e))
      ]

  -- The two packages that come out.
  abbrev pub Made : FindingsPackage → Type 0
  Made fp =
      ((is_quiet d ≡ true) × (fp ≡ package_of []))
      ⊎ ((is_quiet d ≡ false)
          × CanBeBuilt
          × ((text : String) × (fp ≡ package_of (finding_of text ∷ []))))

  pub generate-Made :
      {fp : FindingsPackage} → generate strict package_hex finding_hex p v d ≡ ok fp → Made fp
  generate-Made h =
      let a = generate-IsAnalyzable h in
      elim (Bool-cases (is_quiet d)) [
        | inl quiet ↦ inl (quiet, ok-injective (sym h ∙ generate-of_quiet a quiet))
        | inr active ↦ inr (
            let b = buildable a.worked active in
            let (text, e) = generate-of_active a active b in
            (active, b, (text, ok-injective (sym h ∙ e))))
      ]
