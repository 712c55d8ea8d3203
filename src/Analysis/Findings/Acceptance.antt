-- ===== src/Analysis/Findings/Acceptance.antt =====
-- That M3 (backend/app/engines/correlation) works on what M2 (backend/app/engines/analysis) generates.
use net_sleuth_ai.Shared.{
  String, Bool, false, [], ◌∷◌, ◌≡◌, refl, sym, subst, inl, inr, any, Distinct, ok,
}
use net_sleuth_ai.Correlation.Domain.{
  NetworkIntelligencePackage, FindingsPackage, M3InvestigationInput,
}
use net_sleuth_ai.Correlation.Input.{merge, naive_flow, naive_event}
use net_sleuth_ai.Correlation.Input.Integrity.{
  IsWellFormed, flow_keys, event_keys, artifact_keys, merged, merge-of_IsWellFormed,
}
use net_sleuth_ai.Analysis.Rationale.{FeatureVector, AnalysisDecisionResult}
use net_sleuth_ai.Analysis.Findings.{generate}
use net_sleuth_ai.Analysis.Findings.Attribution.{elem-own}
use net_sleuth_ai.Analysis.Findings.Generation.{Made, package_of, finding_of, generate-Made}

-- The identifiers of a package are distinct, and its times have a zone.
pub record IsSound (p : NetworkIntelligencePackage) : Type 0 where
  pub aware_flows : any naive_flow p.flows ≡ false
  pub aware_events : any naive_event p.protocol_events ≡ false
  pub distinct_flows : Distinct (flow_keys p)
  pub distinct_events : Distinct (event_keys p)
  pub distinct_artifacts : Distinct (artifact_keys p)

module _ (strict : Bool) (package_hex finding_hex : String) (p : NetworkIntelligencePackage)
    (v : FeatureVector) (d : AnalysisDecisionResult) where
  empty-IsWellFormed :
      IsSound p → IsWellFormed p (package_of strict package_hex finding_hex p v d [])
  empty-IsWellFormed s = record {
    aware_flows = s.aware_flows;
    aware_events = s.aware_events;
    same_acquisition = refl;
    distinct_flows = s.distinct_flows;
    distinct_events = s.distinct_events;
    distinct_artifacts = s.distinct_artifacts;
    distinct_findings = tt;
    resolved = tt;
  }

  finding-IsWellFormed :
      (text : String)
      → IsSound p
      → IsWellFormed p (
          package_of strict package_hex finding_hex p v d
            (finding_of strict package_hex finding_hex p v d text ∷ []))
  finding-IsWellFormed text s = record {
    aware_flows = s.aware_flows;
    aware_events = s.aware_events;
    same_acquisition = refl;
    distinct_flows = s.distinct_flows;
    distinct_events = s.distinct_events;
    distinct_artifacts = s.distinct_artifacts;
    distinct_findings = (refl, tt);
    resolved =
        (((elem-own (flow_keys p), elem-own (event_keys p), elem-own (artifact_keys p)), tt), tt);
  }

  Made-IsWellFormed :
      {fp : FindingsPackage}
      → IsSound p
      → Made strict package_hex finding_hex p v d fp
      → IsWellFormed p fp
  Made-IsWellFormed s (inl (_, e)) = subst (IsWellFormed p) (sym e) (empty-IsWellFormed s)
  Made-IsWellFormed s (inr (_, _, (text, e))) =
      subst (IsWellFormed p) (sym e) (finding-IsWellFormed text s)

  -- If the identifiers of a network package are distinct and its times have zones, then the adapter
  -- of M3 accepts it with whatever package M2 generates from it.
  pub merge-generate :
      (fp : FindingsPackage)
      → IsSound p
      → generate strict package_hex finding_hex p v d ≡ ok fp
      → (i : M3InvestigationInput) × (merge p fp ≡ ok i)
  merge-generate fp s h =
      let m = generate-Made strict package_hex finding_hex p v d h in
      (merged p fp, merge-of_IsWellFormed p fp (Made-IsWellFormed s m))
