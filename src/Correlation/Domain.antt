-- ===== src/Correlation/Domain.antt =====
-- The contracts that M3 reads (backend/app/contracts/network_intelligence.py and analysis.py) and
-- its canonical input (backend/app/engines/correlation/domain/input.py). A field that no modelled
-- operation reads or writes is left out, and so are the provenance blocks. Scores are exact hundredths, so 0.75 is 75.
use net_sleuth_ai.Shared.{ℕ, String, Bool, Option, List, Dict}

-- A `datetime`: the instant, and whether it carries a time zone.
pub record Timestamp : Type 0 where
  pub moment : ℕ
  pub tz_aware : Bool

-- A `float`, in millionths.
pub data Float : Type 0 where
  finite : (negative : Bool) (millionths : ℕ) → Float
  infinite : (negative : Bool) → Float
  not_a_number : Float

-- An `int`: its sign and its magnitude.
pub data Integer : Type 0 where
  whole : (negative : Bool) (magnitude : ℕ) → Integer

pub record Endpoint : Type 0 where
  pub ip : String
  pub port : ℕ

pub record Flow : Type 0 where
  pub flow_id : String
  pub zeek_uid : String
  pub acquisition_id : String
  pub timestamp : Timestamp
  pub start_time : Option Timestamp
  pub end_time : Option Timestamp
  pub source : Endpoint
  pub destination : Endpoint
  pub protocol : String
  pub service : Option String
  pub duration : Option Float
  pub orig_bytes : Option ℕ
  pub resp_bytes : Option ℕ
  pub orig_packets : Option ℕ
  pub resp_packets : Option ℕ
  pub connection_state : Option String

pub record DnsData : Type 0 where
  pub query : Option String
  pub query_type : Option String
  pub answers : List String
  pub response_code : Option String

pub record HttpData : Type 0 where
  pub method : Option String
  pub host : Option String
  pub uri : Option String
  pub status_code : Option Integer
  pub user_agent : Option String
  pub request_body_len : Option Integer
  pub response_body_len : Option Integer

pub record TlsData : Type 0 where
  pub version : Option String
  pub server_name : Option String
  pub cipher : Option String
  pub subject : Option String
  pub issuer : Option String
  pub not_valid_before : Option Timestamp
  pub not_valid_after : Option Timestamp

-- `DNSData | HTTPData | TLSData | dict`; of a `dict`, the entries that are texts.
pub data ProtocolData : Type 0 where
  dns_data : DnsData → ProtocolData
  http_data : HttpData → ProtocolData
  tls_data : TlsData → ProtocolData
  other_data : Dict String → ProtocolData

pub record ProtocolEvent : Type 0 where
  pub event_id : String
  pub flow_id : String
  pub zeek_uid : String
  pub acquisition_id : String
  pub timestamp : Timestamp
  pub protocol : String
  pub protocol_data : ProtocolData

pub data ArtifactType : Type 0 where
  ip domain url file file_hash certificate user_agent : ArtifactType

pub record Artifact : Type 0 where
  pub artifact_id : String
  pub type : ArtifactType
  pub value : String
  pub source_event_id : Option String
  pub flow_id : Option String
  pub acquisition_id : String
  pub first_seen : Option Timestamp
  pub last_seen : Option Timestamp

pub record NetworkIntelligencePackage : Type 0 where
  pub package_id : String
  pub acquisition_id : String
  pub flows : List Flow
  pub protocol_events : List ProtocolEvent
  pub artifacts : List Artifact

pub record EvidenceReference : Type 0 where
  pub flow_ids : List String
  pub event_ids : List String
  pub artifact_ids : List String
  pub rationale : String

pub record Finding : Type 0 where
  pub finding_id : String
  pub acquisition_id : String
  pub activity_class : String
  pub anomaly_score : ℕ
  pub classification_confidence : ℕ
  pub risk_score : ℕ
  pub evidence_references : List EvidenceReference
  pub observation_start : Option Timestamp
  pub observation_end : Option Timestamp

pub record FindingsPackage : Type 0 where
  pub package_id : String
  pub acquisition_id : String
  pub findings : List Finding

pub record TelemetryCapability : Type 0 where
  pub network_flow : Bool
  pub dns : Bool
  pub http : Bool
  pub tls : Bool

pub record EvidenceIndex : Type 0 where
  pub flows : Dict Flow
  pub events : Dict ProtocolEvent
  pub artifacts : Dict Artifact
  pub findings : Dict Finding

pub record M3InvestigationInput : Type 0 where
  pub acquisition_id : String
  pub network_package_id : String
  pub findings_package_id : String
  pub network_flows : List Flow
  pub protocol_events : List ProtocolEvent
  pub artifacts : List Artifact
  pub findings : List Finding
  pub telemetry_capabilities : TelemetryCapability
  pub evidence_index : EvidenceIndex
