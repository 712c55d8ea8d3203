-- ===== src/Correlation/Timeline.antt =====
-- `TimelineReconstructor.reconstruct` (backend/app/engines/correlation/timeline/builder.py). `now`
-- is the reading of the clock in a call. An empty text counts as missing where Python tests it.
pub mod Events
pub mod Order
mod Examples
use net_sleuth_ai.Shared.{
  ◌-◌, eqb, ◌||◌, ℕ, ◌/◌, ◌%◌, String, Bool, true, false, not, ◌&&◌, Option, none, some, List, [],
  ◌∷◌, ◌++◌, map, ◌==◌, leb, ltb, if◌then◌else◌, any, elem, lookup, concat, decimal, two_places,
  strip, lower, text_leb, sort_by, Result, ok, err, raise_if, ◌>>◌,
}
use net_sleuth_ai.Correlation.Domain.{
  Timestamp, Flow, ProtocolData, dns_data, http_data, tls_data, other_data, ProtocolEvent,
  ArtifactType, Artifact, NetworkIntelligencePackage, EvidenceReference, Finding, FindingsPackage,
}
use net_sleuth_ai.Correlation.Observations.{or_else, shown, Observation, observed}
use net_sleuth_ai.Correlation.Investigation.Context.{TimelineEvent}

-- `TimelineEvent` refuses a time without a zone.
pub data TimelineError : Type 0 where
  naive_timestamp : TimelineError

-- `ev_flow_ids`
pub flow_refs : List EvidenceReference → List String
flow_refs [] = []
flow_refs (r ∷ rs) = r.flow_ids ++ flow_refs rs

-- The least time of the flows that are named; the first one of equal times.
pub earliest_flow : List String → List Flow → Option Timestamp → Option Timestamp
earliest_flow ids [] earliest = earliest
earliest_flow ids (f ∷ fs) earliest = earliest_flow ids fs (
    if elem f.flow_id ids
    then elim earliest [
      | none ↦ some f.timestamp
      | some t ↦ if ltb f.timestamp.moment t.moment then some f.timestamp else some t
    ]
    else earliest)

pub finding_ts : Timestamp → List Flow → Finding → Timestamp
unfolding flow_refs earliest_flow
finding_ts now flows f = elim (earliest_flow (flow_refs f.evidence_references) flows none) [
  | none ↦ now
  | some t ↦ t
]

-- `int(classification_confidence * 100)` for a confidence of two places, from 0 to 1: the float
-- products of 0.29, 0.57 and 0.58 are below the whole number, and `int` cuts them off.
percent : ℕ → ℕ
percent n = if eqb n 29 || eqb n 57 || eqb n 58 then n - 1 else n

-- The confidence and the risk score have two places; that other floats are cut off and rounded in
-- the text is outside the model.
pub finding_event : Timestamp → List Flow → Finding → TimelineEvent
unfolding finding_ts percent
finding_event now flows f = record {
  event_id = concat ("evt-finding-" ∷ f.finding_id ∷ []);
  timestamp = finding_ts now flows f;
  event_type = "finding";
  title = concat ("Finding: " ∷ f.activity_class ∷ []);
  description = concat (
      "Automated threat model identified "
      ∷ f.activity_class
      ∷ " ("
      ∷ decimal (percent f.classification_confidence)
      ∷ "% confidence). Risk score: "
      ∷ two_places f.risk_score
      ∷ "."
      ∷ []);
  entity_ids = [];
  finding_ids = f.finding_id ∷ [];
  evidence_ids = [];
  flow_ids = [];
  protocol_event_ids = [];
  artifact_ids = [];
  source_reference = some (concat ("m2-finding:" ∷ f.finding_id ∷ []));
}

pub protocol_event : Observation → TimelineEvent
protocol_event o = record {
  event_id = concat ("evt-proto-" ∷ o.event.event_id ∷ []);
  timestamp = o.event.timestamp;
  event_type = lower o.event.protocol;
  title = o.title;
  description = o.description;
  entity_ids = o.ref_entities;
  finding_ids = [];
  evidence_ids = [];
  flow_ids = if o.event.flow_id == "" then [] else o.event.flow_id ∷ [];
  protocol_event_ids = o.event.event_id ∷ [];
  artifact_ids = [];
  source_reference = some (concat ("m1-event:" ∷ o.event.event_id ∷ []));
}

-- The rest of the loop is a function of `seen_proto_keys`.
abbrev unless_seen :
    List String → Option Observation → (List String → List TimelineEvent) → List TimelineEvent
unless_seen seen none rest = rest seen
unless_seen seen (some o) rest =
    if elem o.dedupe_key seen then rest seen else protocol_event o ∷ rest (o.dedupe_key ∷ seen)

pub protocol_timeline : List ProtocolEvent → List String → List TimelineEvent
protocol_timeline [] seen = []
protocol_timeline (e ∷ es) seen = unless_seen seen (observed e) (protocol_timeline es)

-- `art.type.value`
abbrev pub type_value : ArtifactType → String
type_value ArtifactType.ip = "IP"
type_value ArtifactType.domain = "DOMAIN"
type_value ArtifactType.url = "URL"
type_value ArtifactType.file = "FILE"
type_value ArtifactType.file_hash = "FILE_HASH"
type_value ArtifactType.certificate = "CERTIFICATE"
type_value ArtifactType.user_agent = "USER_AGENT"

abbrev optional : Option String → List String
optional none = []
optional (some s) = if s == "" then [] else s ∷ []

-- An artifact has no attribute `timestamp`, so its time is the clock's.
pub artifact_event : Timestamp → Artifact → TimelineEvent
artifact_event now a = record {
  event_id = concat ("evt-artifact-" ∷ a.artifact_id ∷ []);
  timestamp = now;
  event_type = "artifact";
  title = "File Artifact Extracted";
  description =
      concat
        ("File artifact extracted from stream: " ∷ type_value a.type ∷ " (" ∷ a.value ∷ ")" ∷ []);
  entity_ids = concat ("artifact:" ∷ a.artifact_id ∷ []) ∷ [];
  finding_ids = [];
  evidence_ids = [];
  flow_ids = optional a.flow_id;
  protocol_event_ids = optional a.source_event_id;
  artifact_ids = a.artifact_id ∷ [];
  source_reference = some (concat ("m1-artifact:" ∷ a.artifact_id ∷ []));
}

-- `priority_map.get(event_type, 10)`
pub priority : String → ℕ
priority type =
    if type == "finding"
    then 1
    else if type == "artifact"
    then 2
    else if type == "http"
    then 3
    else if type == "dns"
    then 4
    else if type == "tls"
    then 5
    else 10

abbrev pub reference : TimelineEvent → String
reference e = shown (or_else e.source_reference (some e.event_id))

-- The order of the keys `(timestamp, priority, reference)`.
pub key_leb : TimelineEvent → TimelineEvent → Bool
key_leb a b =
    let p = priority a.event_type in
    let q = priority b.event_type in
    if eqb a.timestamp.moment b.timestamp.moment
    then if eqb p q then text_leb (reference a) (reference b) else ltb p q
    else ltb a.timestamp.moment b.timestamp.moment

abbrev pub is_naive : TimelineEvent → Bool
is_naive e = not e.timestamp.tz_aware

-- The events before they are sorted.
pub gathered : Timestamp → NetworkIntelligencePackage → FindingsPackage → List TimelineEvent
gathered now m1 m2 =
    map (finding_event now m1.flows) m2.findings
    ++ (protocol_timeline m1.protocol_events [] ++ map (artifact_event now) m1.artifacts)

pub reconstruct :
    Timestamp
    → NetworkIntelligencePackage
    → FindingsPackage
    → Result TimelineError (List TimelineEvent)
reconstruct now m1 m2 =
    let events = gathered now m1 m2 in
    raise_if (any is_naive events) naive_timestamp >> ok (sort_by key_leb events)
