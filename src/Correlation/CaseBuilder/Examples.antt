-- ===== src/Correlation/CaseBuilder/Examples.antt =====
-- Small cases, and what the builder promises at them.
use net_sleuth_ai.Shared.{ℕ, ◌≡◌, inl, inr, refl, String, Bool, true, none, some, List, [], ◌∷◌, ok}
use net_sleuth_ai.Correlation.Domain.{Timestamp}
use net_sleuth_ai.Correlation.Samples.{at}
use net_sleuth_ai.Correlation.Mitre.{MappingStatus, MitreMapping}
use net_sleuth_ai.Correlation.Entities.{InvestigationContext, FindingReference}
use net_sleuth_ai.Correlation.Investigation.Context.{TimelineEvent}
use net_sleuth_ai.Correlation.CaseBuilder.Document.{CaseDocument}
use net_sleuth_ai.Correlation.CaseBuilder.Build.{severity, build}
use net_sleuth_ai.Correlation.CaseBuilder.Build.Checks.{IsBuildable}
use net_sleuth_ai.Correlation.CaseBuilder.Build.Acceptance.{Answers, build-accepts_iff}
use net_sleuth_ai.Correlation.CaseBuilder.Build.Consistency.{severity-of_findings}

abbrev event : String → ℕ → List String → TimelineEvent
event id n evidence = record {
  event_id = id;
  timestamp = at n;
  event_type = "dns";
  title = "DNS";
  description = "";
  entity_ids = [];
  finding_ids = [];
  evidence_ids = evidence;
  flow_ids = [];
  protocol_event_ids = [];
  artifact_ids = [];
  source_reference = none;
}

abbrev mapping : String → MappingStatus → MitreMapping
mapping id status = record {
  mapping_id = "m";
  finding_id = "F-1";
  behavior_id = "b";
  technique_id = id;
  technique_name = "name";
  tactic_id = none;
  tactic_name = none;
  detection_strategy_ids = [];
  analytic_ids = [];
  data_component_ids = [];
  channels = [];
  mapping_status = status;
  mapping_confidence = 800;
  rationale = "";
  evidence_ids = "f1" ∷ [];
  first_seen = none;
  last_seen = none;
  knowledge_profile_id = "p";
  mitre_version = "19.2";
}

abbrev events : List TimelineEvent
events =
    event "t1" 10 ("f1" ∷ []) ∷ event "t2" 11 ("f2" ∷ []) ∷ event "t1" 12 ("f1" ∷ "f2" ∷ []) ∷ []

abbrev mappings : List MitreMapping
mappings =
    mapping "T1095" MappingStatus.partial
    ∷ mapping "T1046" MappingStatus.not_applicable
    ∷ mapping "T1071" MappingStatus.supported
    ∷ []

abbrev printed : Timestamp → String
printed t = "2024-05-01T10:00:00+00:00"

abbrev finding : String → FindingReference
finding severity = record {
  finding_id = "F-1";
  finding_type = "DNS_ANOMALY_TUNNELING";
  severity = severity;
  confidence_score = 90;
  first_seen = none;
  last_seen = none;
  entity_ids = [];
  evidence_ids = [];
}

abbrev context : InvestigationContext
context = record {
  acquisition_id = some "acq";
  case_id = none;
  entities = [];
  relationships = [];
  timeline_events = events;
  findings = finding "low" ∷ finding "high" ∷ [];
  evidence_references =
      record { evidence_id = "f1"; evidence_type = "flow"; source_id = some "f1" }
      ∷ record { evidence_id = "f2"; evidence_type = "flow"; source_id = some "f2" }
      ∷ [];
  mitre_mappings = mappings;
  hypotheses = [];
  hypothesis_validations = [];
  root_causes = [];
  impact_assessments = [];
}

abbrev accepting : String → CaseDocument → Bool
accepting schema doc = true

buildable : IsBuildable context
buildable = record {
  named = refl;
  timed = refl;
  events = ((refl, tt), ((refl, tt), ((refl, (refl, tt)), tt)));
  relationships = tt;
  assessable = record { hypotheses = tt; validations = tt; root_causes = tt; impacts = tt };
}

build-accepts_iff_example :
    ((doc : CaseDocument) → build printed accepting context ≡ ok doc → IsBuildable context)
    × (IsBuildable context → Answers printed accepting context)
build-accepts_iff_example = build-accepts_iff printed accepting context

returned : (doc : CaseDocument) × (build printed accepting context ≡ ok doc)
returned = elim ((build-accepts_iff printed accepting context).1 buildable) [
  | inl (doc, e, k) ↦ absurd (cc)
  | inr r ↦ r
]

severity-of_findings_example : severity context.findings ≡ "high"
severity-of_findings_example = severity-of_findings (finding "low" ∷ finding "high" ∷ [])
