-- ===== src/Analysis/Findings/Outcome.antt =====
-- That the correlation phase (backend/app/orchestrator/pipeline.py) answers on what M2
-- (backend/app/engines/analysis) generates.
use net_sleuth_ai.Shared.{
  ◌≤◌, String, Bool, false, Option, [], ◌∷◌, ◌≡◌, refl, sym, subst, ◌⊎◌, inl, inr, is_empty, All,
  append_nonempty, concat, ok, err,
}
use net_sleuth_ai.Correlation.Domain.{
  Timestamp, Flow, ProtocolEvent, Artifact, NetworkIntelligencePackage, FindingsPackage,
}
use net_sleuth_ai.Correlation.Mitre.{MitreKnowledgeRepository}
use net_sleuth_ai.Correlation.Timeline.Order.{IsAware}
use net_sleuth_ai.Correlation.CaseBuilder.Document.{CaseDocument}
use net_sleuth_ai.Correlation.CaseBuilder.Build.{invalid_document}
use net_sleuth_ai.Correlation.CaseBuilder.Build.Acceptance.{is_schema_valid}
use net_sleuth_ai.Correlation.Assembly.{not_built, m3_phase}
use net_sleuth_ai.Correlation.Assembly.Totality.{IsNonempty, IsIdentified}
use net_sleuth_ai.Correlation.Assembly.Outcome.{m3_phase-answers}
use net_sleuth_ai.Analysis.Rationale.{FeatureVector, AnalysisDecisionResult}
use net_sleuth_ai.Analysis.Findings.{is_quiet, generate}
use net_sleuth_ai.Analysis.Findings.Generation.{Made, package_of, finding_of, generate-Made}
use net_sleuth_ai.Analysis.Findings.Acceptance.{IsSound, merge-generate}

-- The identifiers and addresses of a package are not empty.
pub record IsNamed (p : NetworkIntelligencePackage) : Type 0 where
  pub flows :
      All
        (λ (f : Flow). IsNonempty f.flow_id × IsNonempty f.source.ip × IsNonempty f.destination.ip)
        p.flows
  pub events : All (λ (e : ProtocolEvent). IsNonempty e.event_id) p.protocol_events
  pub artifacts : All (λ (a : Artifact). IsNonempty a.artifact_id) p.artifacts

module _ (strict : Bool) (package_hex finding_hex : String) (p : NetworkIntelligencePackage)
    (v : FeatureVector) (d : AnalysisDecisionResult) (named : IsNamed p)
    (bounded : d.confidence ≤ 100) (active : is_quiet d ≡ false) where
  identified :
      (text : String)
      → IsIdentified p (
          package_of strict package_hex finding_hex p v d
            (finding_of strict package_hex finding_hex p v d text ∷ []))
  unfolding concat
  identified text = record {
    flows = named.flows;
    events = named.events;
    artifacts = named.artifacts;
    findings = ((append_nonempty "F-" (concat (finding_hex ∷ [])) refl, bounded), tt);
  }

  HasFinding : FindingsPackage → Type 0
  HasFinding fp = IsIdentified p fp × (is_empty fp.findings ≡ false)

  Made-HasFinding :
      {fp : FindingsPackage} → Made strict package_hex finding_hex p v d fp → HasFinding fp
  unfolding HasFinding
  Made-HasFinding (inl (quiet, _)) = cc
  Made-HasFinding (inr (_, _, (text, e))) = subst HasFinding (sym e) (identified text, refl)

  -- From M2 through M3: if the identifiers of a network package are distinct and, like its
  -- addresses, not empty, its times and the clock's have zones, the confidence of the decision is at
  -- most 1 and the decision is not one without a finding, then on the package that M2 generates the
  -- correlation phase returns a document, or has built one that the check against the schema refuses.
  pub m3_phase-generate :
      (sha256_hex : String → String) (is_private_ip : String → Bool) (now : Timestamp)
      (repo : MitreKnowledgeRepository) (isoformat : Timestamp → String)
      (is_valid : String → CaseDocument → Bool) (case_id : Option String) (fp : FindingsPackage)
      → IsSound p
      → IsAware now
      → generate strict package_hex finding_hex p v d ≡ ok fp
      → ((doc : CaseDocument) × (is_schema_valid isoformat is_valid doc ≡ false)
          × (m3_phase sha256_hex is_private_ip now repo isoformat is_valid case_id p fp
              ≡ err (not_built invalid_document)))
        ⊎ ((doc : CaseDocument) × (m3_phase sha256_hex is_private_ip now repo isoformat is_valid
                case_id p fp
              ≡ ok doc))
  unfolding HasFinding
  m3_phase-generate sha256_hex is_private_ip now repo isoformat is_valid case_id fp sound aware h =
      let (m3_input, adapted) = merge-generate strict package_hex finding_hex p v d fp sound h in
      let (ids, found) = Made-HasFinding (generate-Made strict package_hex finding_hex p v d h) in
      m3_phase-answers now p fp m3_input aware adapted ids found sha256_hex is_private_ip repo
        isoformat is_valid case_id
