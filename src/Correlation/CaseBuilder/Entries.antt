-- ===== src/Correlation/CaseBuilder/Entries.antt =====
-- The loops of `InvestigationCaseBuilder.build` that copy the context into the document
-- (backend/app/engines/correlation/investigation/case_builder.py). `isoformat` prints a time.
use Prim.Native.Char.{code}
use Prim.Native.String.{[] as end, ◌∷◌ as ◌∷∷◌}
use net_sleuth_ai.Shared.{
  String, Bool, false, not, ◌&&◌, ◌||◌, Option, none, some, List, [], ◌∷◌, map, ◌==◌, eqb,
  if◌then◌else◌, elem, select, concat, replace,
}
use text.Mathlib.Text.{starts_with}
use net_sleuth_ai.Correlation.Domain.{Timestamp}
use net_sleuth_ai.Correlation.Entities.{Entity, Relationship, CaseEvidence, FindingReference}
use net_sleuth_ai.Correlation.Investigation.Context.{TimelineEvent, first_of, last_of}
use net_sleuth_ai.Correlation.CaseBuilder.Document.{
  FindingEntry, TimelineEntry, EntityEntry, EvidenceEntry, RelationshipEntry,
}

abbrev pub v1_3 : String
v1_3 = "investigation-case-v1.3"

-- `if text: doc[key] = text`
abbrev pub unless_blank : String → Option String
unless_blank s = if s == "" then none else some s

abbrev pub unless_blank? : Option String → Option String
unless_blank? none = none
unless_blank? (some s) = unless_blank s

abbrev valid_event_types : List String
valid_event_types =
    "network" ∷ "dns" ∷ "http" ∷ "tls" ∷ "session" ∷ "flow" ∷ "artifact" ∷ "finding" ∷ "alert"
    ∷ "investigation" ∷ "evidence" ∷ []

abbrev valid_types : List String
valid_types =
    "host" ∷ "ip" ∷ "domain" ∷ "url" ∷ "session" ∷ "flow" ∷ "protocol_event" ∷ "ioc" ∷ "artifact"
    ∷ "finding" ∷ []

abbrev valid_ev_types : List String
valid_ev_types =
    "pcap" ∷ "flow" ∷ "session" ∷ "dns" ∷ "http" ∷ "tls" ∷ "artifact" ∷ "log" ∷ "finding" ∷ []

-- `full_desc`
pub full_desc : String → String → String
full_desc title desc =
    if not (title == "") && not (starts_with desc title)
    then if desc == "" then title else concat (title ∷ ": " ∷ desc ∷ [])
    else if desc == ""
    then "Event observed"
    else desc

has_colon : String → Bool
has_colon end = false
has_colon (c ∷∷ s) = eqb (code c) b':' || has_colon s

-- `text.split(":")[-1]`; the text itself if it has no colon.
pub last_part : String → String
unfolding has_colon
last_part end = end
last_part (c ∷∷ s) = if has_colon s then last_part s else if eqb (code c) b':' then s else c ∷∷ s

abbrev head_of : List String → Option String
head_of [] = none
head_of (i ∷ ids) = some i

abbrev second_of : List String → Option String
second_of [] = none
second_of (i ∷ ids) = head_of ids

unfoldable pub evidence_entry : CaseEvidence → EvidenceEntry
evidence_entry e = record {
  evidence_id = e.evidence_id;
  evidence_type = if elem e.evidence_type valid_ev_types then e.evidence_type else "log";
  source_id = e.source_id;
}

module _ (isoformat : Timestamp → String) where
  -- `t.isoformat().replace("+00:00", "Z")`
  abbrev pub stamp : Timestamp → String
  stamp t = replace "+00:00" "Z" (isoformat t)

  abbrev pub stamp? : Option Timestamp → Option String
  stamp? none = none
  stamp? (some t) = some (stamp t)

  -- `finding_timestamps`; a finding's reference has no `event_ids`.
  pub finding_times : String → List TimelineEvent → List Timestamp
  finding_times id events = map (λ t. t.timestamp) (select (λ t. elem id t.finding_ids) events)

  abbrev or_from : Option Timestamp → Option Timestamp → Option String
  or_from (some t) other = some (stamp t)
  or_from none other = stamp? other

  pub finding_entry : String → List TimelineEvent → FindingReference → FindingEntry
  unfolding finding_times
  finding_entry schema events f =
      let times = finding_times f.finding_id events in
      let bare : FindingEntry = record {
        finding_id = f.finding_id;
        role = "primary";
        activity = none;
        confidence_score = none;
        risk_score = none;
        first_observed = none;
        last_observed = none;
      } in
      if schema == v1_3
      then record bare {
        activity = some f.finding_type;
        confidence_score = some f.confidence_score;
        risk_score = some 80;
        first_observed = or_from f.first_seen (first_of times);
        last_observed = or_from f.last_seen (last_of times);
      }
      else bare

  unfoldable pub timeline_entry : TimelineEvent → TimelineEntry
  unfolding full_desc
  timeline_entry t = record {
    event_id = t.event_id;
    timestamp = stamp t.timestamp;
    event_type = if elem t.event_type valid_event_types then t.event_type else "network";
    description = full_desc t.title t.description;
    entity_ids = t.entity_ids;
    source_entity_id = head_of t.entity_ids;
    target_entity_id = second_of t.entity_ids;
    evidence_ids = t.evidence_ids;
    finding_ids = t.finding_ids;
  }

  pub entity_entry : Entity → EntityEntry
  unfolding last_part
  entity_entry e = record {
    entity_id = e.entity_id;
    entity_type = if elem e.entity_type valid_types then e.entity_type else "artifact";
    label = if e.value == "" then last_part e.entity_id else e.value;
    first_seen = stamp? e.first_seen;
    last_seen = stamp? e.last_seen;
  }

  unfoldable pub relationship_entry : Relationship → RelationshipEntry
  relationship_entry r = record {
    relationship_id = r.relationship_id;
    source_entity_id = r.source_entity_id;
    relationship_type = r.relationship_type;
    target_entity_id = r.target_entity_id;
    confidence = r.confidence;
    evidence_ids = r.evidence_ids;
    reason = unless_blank? r.reason;
    first_seen = stamp? r.first_seen;
    last_seen = stamp? r.last_seen;
  }
