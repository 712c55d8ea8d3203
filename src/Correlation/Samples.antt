-- ===== src/Correlation/Samples.antt =====
-- Small packages that the tests of the correlation engine share.
use net_sleuth_ai.Shared.{String, ℕ, true, none, some, [], ◌∷◌}
use net_sleuth_ai.Correlation.Mitre.{MitreKnowledgeRepository}
use net_sleuth_ai.Correlation.Domain.{
  Timestamp, Flow, dns_data, ProtocolEvent, domain, Artifact, Finding, NetworkIntelligencePackage,
  FindingsPackage,
}

abbrev pub at : ℕ → Timestamp
at n = record { moment = n; tz_aware = true }

abbrev pub flow_to : String → ℕ → ℕ → Flow
flow_to name port n = record {
  flow_id = name;
  zeek_uid = name;
  acquisition_id = "acq";
  timestamp = at n;
  start_time = some (at n);
  end_time = none;
  source = record { ip = "10.0.0.5"; port = 40000 };
  destination = record { ip = "203.0.113.9"; port = port };
  protocol = "tcp";
  service = none;
  duration = none;
  orig_bytes = some 512;
  resp_bytes = none;
  orig_packets = none;
  resp_packets = none;
  connection_state = some "SF";
}

abbrev pub dns_event : ProtocolEvent
dns_event = record {
  event_id = "e1";
  flow_id = "f1";
  zeek_uid = "f1";
  acquisition_id = "acq";
  timestamp = at 12;
  protocol = "dns";
  protocol_data = dns_data (record {
    query = some "evil.example";
    query_type = some "A";
    answers = "203.0.113.9" ∷ [];
    response_code = none;
  });
}

abbrev pub domain_artifact : Artifact
domain_artifact = record {
  artifact_id = "a1";
  type = domain;
  value = "evil.example";
  source_event_id = some "e1";
  flow_id = some "f1";
  acquisition_id = "acq";
  first_seen = some (at 12);
  last_seen = some (at 12);
}

abbrev pub network : NetworkIntelligencePackage
network = record {
  package_id = "net";
  acquisition_id = "acq";
  flows = flow_to "f1" 53 10 ∷ flow_to "f2" 443 20 ∷ [];
  protocol_events = dns_event ∷ [];
  artifacts = domain_artifact ∷ [];
}

abbrev pub tunnel : Finding
tunnel = record {
  finding_id = "F-1";
  acquisition_id = "acq";
  activity_class = "DNS_ANOMALY_TUNNELING";
  anomaly_score = 80;
  classification_confidence = 90;
  risk_score = 70;
  evidence_references =
      record {
        flow_ids = "f1" ∷ "f2" ∷ [];
        event_ids = "e1" ∷ [];
        artifact_ids = "a1" ∷ [];
        rationale = "elevated DNS query volume";
      }
      ∷ [];
  observation_start = some (at 10);
  observation_end = some (at 20);
}

abbrev pub found : FindingsPackage
found = record { package_id = "fp"; acquisition_id = "acq"; findings = tunnel ∷ [] }

abbrev pub snapshot : MitreKnowledgeRepository
snapshot = record {
  profile_id = "network-evidence-v1";
  mitre_version = "19.2";
  mappings_by_behavior =
      (
        "DNS_ANOMALY_TUNNELING",
        record {
          behavior_id = "DNS_ANOMALY_TUNNELING";
          candidate_techniques =
              record { id = "T1071.004"; required_telemetry = []; local_channels = [] } ∷ [];
        },
      )
      ∷ [];
  techniques = [];
  tactics = [];
  tech_to_det = [];
  det_to_an = [];
}
