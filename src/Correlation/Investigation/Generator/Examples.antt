-- ===== src/Correlation/Investigation/Generator/Examples.antt =====
-- The hypothesis that a tunnel's finding gives, and the generator's promises at it.
use net_sleuth_ai.Shared.{
  ◌≡◌, refl, String, true, false, [], ◌∷◌, map, All, lookup, insert, set_of, sort_by, place,
}
use net_sleuth_ai.Correlation.Domain.{M3InvestigationInput}
use net_sleuth_ai.Correlation.Samples.{at, flow_to, dns_event, domain_artifact, tunnel}
use net_sleuth_ai.Correlation.Investigation.Validator.{validate}
use net_sleuth_ai.Correlation.Investigation.Validator.Contract.{Agrees}
use net_sleuth_ai.Correlation.Investigation.Generator.{
  generate, generate_one, hypothesis, rule, group_findings, index_of_findings, ids_of_findings,
}
use net_sleuth_ai.Correlation.Investigation.Generator.Hypotheses.{validate-generate}

abbrev capture : M3InvestigationInput
capture = record {
  acquisition_id = "acq";
  network_package_id = "net";
  findings_package_id = "fp";
  network_flows = [];
  protocol_events = [];
  artifacts = [];
  findings = tunnel ∷ [];
  telemetry_capabilities = record { network_flow = true; dns = true; http = false; tls = false };
  evidence_index = record {
    flows = ("f1", flow_to "f1" 53 10) ∷ ("f2", flow_to "f2" 443 20) ∷ [];
    events = ("e1", dns_event) ∷ [];
    artifacts = ("a1", domain_artifact) ∷ [];
    findings = ("F-1", tunnel) ∷ [];
  };
}

abbrev digest : String → String
digest text = "0123456789ab"

-- A reference to a finding that the package does not have is passed over.
generate_run :
    map (λ h. h.hypothesis_type) (generate digest [] [] capture ("F-1" ∷ "F-2" ∷ []))
    ≡ "DNS_C2" ∷ []
unfolding generate generate_one hypothesis rule group_findings index_of_findings ids_of_findings
    lookup insert set_of sort_by place
generate_run = refl

validate-generate_example :
    All Agrees
      (validate digest (at 0) [] capture (generate digest [] [] capture ("F-1" ∷ "F-2" ∷ [])))
validate-generate_example = validate-generate digest [] [] capture (at 0) ("F-1" ∷ "F-2" ∷ [])
