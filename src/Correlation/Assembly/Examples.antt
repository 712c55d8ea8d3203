-- ===== src/Correlation/Assembly/Examples.antt =====
-- The correlation phase on a tunnel, and what it promises there.
use net_sleuth_ai.Shared.{
  All, ◌≡◌, ◌⊎◌, inl, inr, refl, String, Bool, true, false, none, ok, err, Result, arith,
}
use net_sleuth_ai.Correlation.Domain.{Timestamp}
use net_sleuth_ai.Correlation.Samples.{at, network, found, snapshot}
use net_sleuth_ai.Correlation.Input.Examples.{input, merge_run}
use net_sleuth_ai.Correlation.CaseBuilder.Document.{MitreEntry, CaseDocument}
use net_sleuth_ai.Correlation.CaseBuilder.Build.{no_timeline_events, invalid_document}
use net_sleuth_ai.Correlation.CaseBuilder.Build.Acceptance.{is_schema_valid}
use net_sleuth_ai.Correlation.CaseBuilder.Build.Consistency.{declared_of, IsConsistent}
use net_sleuth_ai.Correlation.CaseBuilder.Build.Checks.{Declared}
use net_sleuth_ai.Correlation.Assembly.{PhaseError, not_built, m3_phase}
use net_sleuth_ai.Correlation.Assembly.Totality.{IsIdentified}
use net_sleuth_ai.Correlation.Assembly.Phase.{m3_phase-refuses_only, m3_phase-IsConsistent}
use net_sleuth_ai.Correlation.Assembly.Outcome.{m3_phase-answers}

abbrev digest : String → String
digest text = "0123456789abcdef01234567"

abbrev printed : Timestamp → String
printed t = "2024-05-01T10:00:00+00:00"

abbrev accepting : String → CaseDocument → Bool
accepting schema doc = true

abbrev refusing : String → CaseDocument → Bool
refusing schema doc = false

abbrev run : (String → CaseDocument → Bool) → Result PhaseError CaseDocument
run is_valid = m3_phase digest (λ ip. false) (at 99) snapshot printed is_valid none network found

abbrev Outcome : (String → CaseDocument → Bool) → Type 0
Outcome is_valid =
    ((doc : CaseDocument) × (is_schema_valid printed is_valid doc ≡ false)
      × (run is_valid ≡ err (not_built invalid_document)))
    ⊎ ((doc : CaseDocument) × (run is_valid ≡ ok doc))

identified : IsIdentified network found
identified = record {
  flows = ((refl, refl, refl), ((refl, refl, refl), tt));
  events = (refl, tt);
  artifacts = (refl, tt);
  findings = ((refl, omega arith), tt);
}

m3_phase-answers_example : Outcome accepting
m3_phase-answers_example =
    m3_phase-answers (at 99) network found input refl merge_run identified refl digest (λ ip. false)
      snapshot printed accepting none

-- With a schema that accepts, the document is there.
returned : (doc : CaseDocument) × (run accepting ≡ ok doc)
returned =
    elim (m3_phase-answers (at 99) network found input refl merge_run identified refl digest
      (λ ip. false) snapshot printed accepting none) [ inl (doc, e, k) ↦ absurd (cc) | inr r ↦ r ]

m3_phase-IsConsistent_example :
    IsConsistent returned.0
    × All
        (λ (m : MitreEntry). Declared (declared_of returned.0) m.evidence_ids)
        returned.0.mitre_mappings
    × (is_schema_valid printed accepting returned.0 ≡ true)
m3_phase-IsConsistent_example =
    m3_phase-IsConsistent digest (λ ip. false) (at 99) snapshot printed accepting none network found
      returned.0 returned.1

-- With a schema that refuses, the phase raises.
refused : run refusing ≡ err (not_built invalid_document)
refused = by_outcome (
    m3_phase-answers (at 99) network found input refl merge_run identified refl digest (λ ip. false)
      snapshot printed refusing none)
  where
    by_outcome : Outcome refusing → run refusing ≡ err (not_built invalid_document)
    by_outcome (inl (doc, e, k)) = k
    by_outcome (inr (doc, e)) = absurd (
        cc (
          (m3_phase-IsConsistent digest (λ ip. false) (at 99) snapshot printed refusing none network
            found doc e).2))

m3_phase-refuses_only_example :
    (invalid_document ≡ no_timeline_events) ⊎ (invalid_document ≡ invalid_document)
m3_phase-refuses_only_example =
    m3_phase-refuses_only digest (λ ip. false) (at 99) snapshot printed refusing none network found
      invalid_document refused
