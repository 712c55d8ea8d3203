-- ===== src/Analysis/Findings/Examples.antt =====
-- The findings of a small package.
use net_sleuth_ai.Shared.{
  ◌≡◌, ◌⊎◌, refl, true, false, none, [], ◌∷◌, Result, ok, err, arith, concat, decimal, lookup, join,
}
use net_sleuth_ai.Correlation.Domain.{FindingsPackage, M3InvestigationInput}
use net_sleuth_ai.Correlation.Samples.{at, network, snapshot}
use net_sleuth_ai.Correlation.Input.{merge}
use net_sleuth_ai.Correlation.CaseBuilder.Document.{CaseDocument}
use net_sleuth_ai.Correlation.CaseBuilder.Build.{invalid_document}
use net_sleuth_ai.Correlation.CaseBuilder.Build.Acceptance.{is_schema_valid}
use net_sleuth_ai.Correlation.Assembly.{not_built, m3_phase}
use net_sleuth_ai.Analysis.Rationale.{FindingsError, feature_without_value}
use net_sleuth_ai.Analysis.Samples.{vector, decision, rationale}
use net_sleuth_ai.Analysis.Findings.{generate}
use net_sleuth_ai.Analysis.Findings.Generation.{
  IsAnalyzable, generate-answers_iff, package_of, finding_of,
}
use net_sleuth_ai.Analysis.Findings.Acceptance.{IsSound, merge-generate}
use net_sleuth_ai.Analysis.Findings.Outcome.{IsNamed, m3_phase-generate}

abbrev run : Result FindingsError FindingsPackage
run = generate true "0A1B" "2C3D" network vector decision

abbrev made : FindingsPackage
made =
    package_of true "0A1B" "2C3D" network vector decision
      (finding_of true "0A1B" "2C3D" network vector decision rationale ∷ [])

generated : run ≡ ok made
unfolding generate concat decimal join lookup
generated = refl

lacking :
    generate true "0A1B" "2C3D" network
      (record vector { features = ("dns_query_count", none) ∷ [] })
      decision
    ≡ err feature_without_value
unfolding generate lookup
lacking = refl

sound : IsSound network
sound = record {
  aware_flows = refl;
  aware_events = refl;
  distinct_flows = (refl, (refl, tt));
  distinct_events = (refl, tt);
  distinct_artifacts = (refl, tt);
}

generate-answers_iff_example : IsAnalyzable true "0A1B" "2C3D" network vector decision
generate-answers_iff_example =
    (generate-answers_iff true "0A1B" "2C3D" network vector decision).0 (made, generated)

merge-generate_example : (i : M3InvestigationInput) × (merge network made ≡ ok i)
merge-generate_example =
    merge-generate true "0A1B" "2C3D" network vector decision made sound generated

named : IsNamed network
named = record {
  flows = ((refl, refl, refl), ((refl, refl, refl), tt));
  events = (refl, tt);
  artifacts = (refl, tt);
}

m3_phase-generate_example :
    ((doc : CaseDocument) × (is_schema_valid (λ t. "2024-05-01T10:00:00+00:00") (λ s doc. true) doc
        ≡ false)
      × (m3_phase
            (λ s. s)
            (λ ip. false)
            (at 99)
            snapshot
            (λ t. "2024-05-01T10:00:00+00:00")
            (λ s doc. true)
            none
            network
            made
          ≡ err (not_built invalid_document)))
    ⊎ ((doc : CaseDocument) × (m3_phase
            (λ s. s)
            (λ ip. false)
            (at 99)
            snapshot
            (λ t. "2024-05-01T10:00:00+00:00")
            (λ s doc. true)
            none
            network
            made
          ≡ ok doc))
m3_phase-generate_example =
    m3_phase-generate true "0A1B" "2C3D" network vector decision named (omega arith) refl (λ s. s)
      (λ ip. false) (at 99) snapshot (λ t. "2024-05-01T10:00:00+00:00") (λ s doc. true) none made
      sound refl generated
