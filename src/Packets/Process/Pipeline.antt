-- ===== src/Packets/Process/Pipeline.antt =====
-- That the packages of M1 (backend/app/engines/packet_intelligence) serve M2
-- (backend/app/engines/analysis) and M3 (backend/app/engines/correlation).
use net_sleuth_ai.Shared.{
  ℕ, ◌≤◌, String, Bool, false, Option, All, All-both, All-weaken, ◌≡◌, ◌⊎◌, ok, err,
}
use net_sleuth_ai.Correlation.Domain.{Timestamp, Flow, NetworkIntelligencePackage, FindingsPackage}
use net_sleuth_ai.Correlation.Mitre.{MitreKnowledgeRepository}
use net_sleuth_ai.Correlation.Timeline.Order.{IsAware}
use net_sleuth_ai.Correlation.CaseBuilder.Document.{CaseDocument}
use net_sleuth_ai.Correlation.CaseBuilder.Build.{invalid_document}
use net_sleuth_ai.Correlation.CaseBuilder.Build.Acceptance.{is_schema_valid}
use net_sleuth_ai.Correlation.Assembly.{not_built, m3_phase}
use net_sleuth_ai.Correlation.Assembly.Totality.{IsNonempty}
use net_sleuth_ai.Analysis.Rationale.{FeatureVector, AnalysisDecisionResult}
use net_sleuth_ai.Analysis.Findings.{is_quiet, generate}
use net_sleuth_ai.Analysis.Findings.Outcome.{IsNamed, m3_phase-generate}
use net_sleuth_ai.Packets.Json.{Json, Python}
use net_sleuth_ai.Packets.Runner.{Host}
use net_sleuth_ai.Packets.Process.{process_acquisition}
use net_sleuth_ai.Packets.Process.Drawn.{IsSupply}
use net_sleuth_ai.Packets.Process.Assembly.{IsAssembled}
use net_sleuth_ai.Packets.Process.Outcome.{process_acquisition-IsAssembled}

-- The addresses of the flows are not empty.
abbrev pub AreAddressed : NetworkIntelligencePackage → Type 0
AreAddressed p = All (λ (f : Flow). IsNonempty f.source.ip × IsNonempty f.destination.ip) p.flows

IsNamed-of_IsAssembled :
    (acquisition_id : String) (p : NetworkIntelligencePackage)
    → IsAssembled acquisition_id p
    → AreAddressed p
    → IsNamed p
IsNamed-of_IsAssembled acquisition_id p h addressed = record {
  flows =
      All-weaken _ _ (λ f k. (k.0, k.1.0, k.1.1)) p.flows
        (All-both (λ (f : Flow). IsNonempty f.flow_id)
          (λ (f : Flow). IsNonempty f.source.ip × IsNonempty f.destination.ip) p.flows h.named_flows
          addressed);
  events = h.named_events;
  artifacts = h.named_artifacts;
}

module _ (py : Python) (takes_nan : Bool) (is_ip : String → Bool) (fresh : ℕ → String)
    (supply : IsSupply fresh) (loads : String → Option Json) (host : Host)
    (acquisition_id capture_reference : String) (p : NetworkIntelligencePackage)
    (returned : process_acquisition py takes_nan is_ip fresh loads host acquisition_id
        capture_reference
      ≡ ok p) where
  returned-IsAssembled : IsAssembled acquisition_id p
  returned-IsAssembled =
      process_acquisition-IsAssembled py takes_nan is_ip fresh supply loads host acquisition_id
        capture_reference p returned

  module _ (strict : Bool) (package_hex finding_hex : String) (v : FeatureVector)
      (d : AnalysisDecisionResult) (fp : FindingsPackage)
      (generated : generate strict package_hex finding_hex p v d ≡ ok fp) where
    -- From the capture to the case: if the identifiers that are drawn are distinct and not empty, the
    -- addresses of the flows that M1 returns are not empty, the confidence of M2's decision is at
    -- most 1, the decision is not one without a finding and the clock has a zone, then on the packages
    -- of M1 and M2 the correlation phase returns a document, or has built one that the check against
    -- the schema refuses.
    pub m3_phase-process_acquisition :
        (sha256_hex : String → String) (is_private_ip : String → Bool) (now : Timestamp)
        (repo : MitreKnowledgeRepository) (isoformat : Timestamp → String)
        (is_valid : String → CaseDocument → Bool) (case_id : Option String)
        → AreAddressed p
        → d.confidence ≤ 100
        → is_quiet d ≡ false
        → IsAware now
        → ((doc : CaseDocument) × (is_schema_valid isoformat is_valid doc ≡ false)
            × (m3_phase sha256_hex is_private_ip now repo isoformat is_valid case_id p fp
                ≡ err (not_built invalid_document)))
          ⊎ ((doc : CaseDocument) × (m3_phase sha256_hex is_private_ip now repo isoformat is_valid
                  case_id p fp
                ≡ ok doc))
    m3_phase-process_acquisition sha256_hex is_private_ip now repo isoformat is_valid case_id
          addressed bounded active aware =
        m3_phase-generate strict package_hex finding_hex p v d
          (IsNamed-of_IsAssembled acquisition_id p returned-IsAssembled addressed) bounded active
          sha256_hex is_private_ip now repo isoformat is_valid case_id fp returned-IsAssembled.sound
          aware generated
