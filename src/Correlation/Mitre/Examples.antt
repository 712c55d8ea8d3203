-- ===== src/Correlation/Mitre/Examples.antt =====
-- A tunnel's mapping against a small snapshot, and the mapper's promises at it.
use net_sleuth_ai.Shared.{
  ◌≡◌, refl, String, true, false, some, List, [], ◌∷◌, map, lookup, insert, All, is_empty,
}
use net_sleuth_ai.Correlation.Domain.{TelemetryCapability, M3InvestigationInput}
use net_sleuth_ai.Correlation.Samples.{flow_to, dns_event, domain_artifact, tunnel}
use net_sleuth_ai.Correlation.Mitre.{
  BehaviorMapping, technique_to_detection, detection_to_analytic, Relationship,
  MitreKnowledgeRepository, load, index_behaviors,
}
use net_sleuth_ai.Correlation.Mitre.Mapper.{get_valid_evidence, map_finding}
use net_sleuth_ai.Correlation.Mitre.Mapper.Mappings.{
  IsJustified, map_finding-IsJustified, technique_ids-map_finding,
}

abbrev dns_seen : TelemetryCapability
dns_seen = record { network_flow = true; dns = true; http = false; tls = false }

abbrev capture : M3InvestigationInput
capture = record {
  acquisition_id = "acq";
  network_package_id = "net";
  findings_package_id = "fp";
  network_flows = [];
  protocol_events = [];
  artifacts = [];
  findings = [];
  telemetry_capabilities = dns_seen;
  evidence_index = record {
    flows = ("f1", flow_to "f1" 53 10) ∷ ("f2", flow_to "f2" 443 20) ∷ [];
    events = ("e1", dns_event) ∷ [];
    artifacts = ("a1", domain_artifact) ∷ [];
    findings = ("F-1", tunnel) ∷ [];
  };
}

abbrev tunneling : BehaviorMapping
tunneling = record {
  behavior_id = "DNS_ANOMALY_TUNNELING";
  candidate_techniques =
      record {
        id = "T1071.004";
        required_telemetry = "DC0085" ∷ [];
        local_channels = "dns.log" ∷ [];
      }
      ∷ [];
}

abbrev relationships : List Relationship
relationships =
    record { type = technique_to_detection; source = "T1071.004"; target = "DET0400" }
    ∷ record { type = detection_to_analytic; source = "DET0400"; target = "AN1113" }
    ∷ []

abbrev snapshot : MitreKnowledgeRepository
snapshot =
    load "network-evidence-v1" "17.1" (tunneling ∷ []) (("T1071.004", "DNS") ∷ []) [] relationships

abbrev digest : String → String
digest text = "0123456789abcdef01234567"

knows_tunneling : lookup "DNS_ANOMALY_TUNNELING" snapshot.mappings_by_behavior ≡ some tunneling
unfolding load index_behaviors lookup insert
knows_tunneling = refl

finds_tunnel : lookup "F-1" capture.evidence_index.findings ≡ some tunnel
unfolding lookup
finds_tunnel = refl

has_evidence :
    is_empty (get_valid_evidence capture.evidence_index tunnel.evidence_references) ≡ false
unfolding get_valid_evidence lookup
has_evidence = refl

map_finding-IsJustified_example :
    All (IsJustified capture tunnel) (map_finding digest snapshot capture "F-1")
map_finding-IsJustified_example =
    map_finding-IsJustified digest snapshot capture "F-1" tunnel finds_tunnel

technique_ids-map_finding_example :
    map (λ m. m.technique_id) (map_finding digest snapshot capture "F-1") ≡ "T1071.004" ∷ []
technique_ids-map_finding_example =
    technique_ids-map_finding digest snapshot capture "F-1" tunnel tunneling finds_tunnel
      has_evidence knows_tunneling
