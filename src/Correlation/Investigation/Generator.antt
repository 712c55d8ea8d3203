-- ===== src/Correlation/Investigation/Generator.antt =====
-- `HypothesisGenerator.generate` (backend/app/engines/correlation/investigation/
-- hypothesis_generator.py): one hypothesis for each class of activity that the findings show.
pub mod Hypotheses
pub mod Provenance
mod Examples
use net_sleuth_ai.Shared.{
  ℕ, ◌+◌, min, String, Bool, true, false, not, ◌&&◌, ◌||◌, Option, none, some, List, [], ◌∷◌, ◌++◌,
  map, ◌==◌, if◌then◌else◌, leb, any, select, elem, is_empty, length, lookup, insert, member, Dict,
  concat, join, decimal, present, prefix, sorted, set_of, sort_by, text_leb,
}
use net_sleuth_ai.Correlation.Domain.{
  Timestamp, ProtocolEvent, EvidenceReference, Finding, EvidenceIndex, M3InvestigationInput,
}
use net_sleuth_ai.Correlation.Investigation.Context.{
  Hypothesis, HypothesisStatus, TimelineEvent, first_of, last_of, earliest,
}
use net_sleuth_ai.Correlation.Mitre.{MitreMapping}

-- `{f.finding_id: f for f in m3_input.findings}`
index_of_findings : List Finding → Dict Finding → Dict Finding
index_of_findings [] index = index
index_of_findings (f ∷ fs) index = index_of_findings fs (insert f.finding_id f index)

abbrev listed : Option (List String) → List String
listed none = []
listed (some ids) = ids

-- The finding identifiers by their class of activity, in the order of the context's references.
group_findings : Dict Finding → List String → Dict (List String) → Dict (List String)
group_findings index [] groups = groups
group_findings index (i ∷ ids) groups = group_findings index ids (elim (lookup i index) [
  | none ↦ groups
  | some f ↦
      insert f.activity_class (listed (lookup f.activity_class groups) ++ f.finding_id ∷ []) groups
])

-- What the references of a finding name.
referenced_ids : List EvidenceReference → List String
referenced_ids [] = []
referenced_ids (r ∷ rs) = r.flow_ids ++ r.event_ids ++ r.artifact_ids ++ referenced_ids rs

ids_of_findings : Dict Finding → List String → List String
unfolding referenced_ids
ids_of_findings index [] = []
ids_of_findings index (i ∷ ids) =
    let rest = ids_of_findings index ids in
    elim (lookup i index) [ none ↦ rest | some f ↦ referenced_ids f.evidence_references ++ rest ]

abbrev pub is_held : EvidenceIndex → String → Bool
is_held index i =
    member i index.flows
    || member i index.events
    || member i index.artifacts
    || member i index.findings

abbrev has_protocol : String → EvidenceIndex → String → Bool
has_protocol name index i = elim (lookup i index.events) [
  | none ↦ false
  | some e ↦ e.protocol == name
]

-- The local variables that the rule of the class sets.
pub record Rule : Type 0 where
  pub hypothesis_type : String
  pub statement : String
  pub reason : String
  pub missing_evidence : List String

-- `none` where the rule gives no hypothesis, or the class has no rule.
pub rule : String → ℕ → Bool → Bool → Option Rule
rule activity findings has_dns_evidence has_http_evidence =
    if activity == "C2_MALWARE_COMMUNICATION"
    then some (record {
      statement = "Possible command-and-control communication";
      hypothesis_type = "C2_COMMUNICATION";
      reason = concat (
          "Observed "
          ∷ decimal findings
          ∷ " finding(s) of C2_MALWARE_COMMUNICATION with supporting evidence."
          ∷ []);
      missing_evidence = [];
    })
    else if activity == "DNS_ANOMALY_TUNNELING"
    then if not has_dns_evidence
      then none
      else some (record {
        statement = "Possible DNS-based command-and-control";
        hypothesis_type = "DNS_C2";
        reason = "Observed DNS_ANOMALY_TUNNELING findings corroborated by actual DNS evidence.";
        missing_evidence = [];
      })
    else if activity == "SCANNING_RECONNAISSANCE"
    then some (record {
      statement = "Possible network service reconnaissance";
      hypothesis_type = "NETWORK_RECONNAISSANCE";
      reason = "Observed SCANNING_RECONNAISSANCE findings with network evidence.";
      missing_evidence = [];
    })
    else if activity == "POSSIBLE_EXFILTRATION"
    then some (record {
      statement = "Possible outbound data transfer consistent with exfiltration";
      hypothesis_type = "POTENTIAL_EXFILTRATION";
      reason = "Observed POSSIBLE_EXFILTRATION findings with network flow evidence.";
      missing_evidence =
          "Endpoint process context or file-access telemetry is required for confirmation." ∷ [];
    })
    else if activity == "SUSPICIOUS_WEB_ACTIVITY"
    then if not has_http_evidence
      then none
      else some (record {
        statement = "Possible suspicious web-protocol activity";
        hypothesis_type = "SUSPICIOUS_WEB_ACTIVITY";
        reason = "Observed SUSPICIOUS_WEB_ACTIVITY findings corroborated by HTTP evidence.";
        missing_evidence = [];
      })
    else none

-- The events of the timeline that share evidence with the group.
abbrev linked : List String → List TimelineEvent → List TimelineEvent
linked evidence = select (λ t. any (λ i. elem i evidence) t.evidence_ids)

entities_of : List TimelineEvent → List String
entities_of [] = []
entities_of (t ∷ ts) = t.entity_ids ++ entities_of ts

-- In hundredths.
pub hypothesis_confidence : List String → List String → ℕ
hypothesis_confidence entities techniques =
    min (50 + (if is_empty entities then 0 else 10) + (if is_empty techniques then 0 else 10)) 70

module _ (sha256_hex : String → String) (timeline : List TimelineEvent)
    (mitre_mappings : List MitreMapping) (m3_input : M3InvestigationInput) where
  -- The hypothesis, once the rule has given one.
  pub hypothesis : List String → List String → Rule → Hypothesis
  unfolding entities_of
  hypothesis finding_ids evidence r =
      let events = linked evidence timeline in
      let techniques =
        set_of (
          map (λ m. m.technique_id) (select (λ m. elem m.finding_id finding_ids) mitre_mappings)) in
      let entities = set_of (entities_of events) in
      let times = map (λ t. t.timestamp) events in
      record {
        hypothesis_id = concat (
            "HYP-"
            ∷ prefix 12 (
                sha256_hex (
                  concat (
                    m3_input.acquisition_id
                    ∷ "|"
                    ∷ r.hypothesis_type
                    ∷ "|"
                    ∷ join "," (sorted evidence)
                    ∷ "|"
                    ∷ join "," (sorted finding_ids)
                    ∷ [])))
            ∷ []);
        statement = r.statement;
        hypothesis_type = r.hypothesis_type;
        status = HypothesisStatus.potential;
        confidence = hypothesis_confidence entities techniques;
        supporting_evidence_ids = sorted evidence;
        supporting_finding_ids = sorted finding_ids;
        related_entity_ids = sorted entities;
        related_mitre_mapping_ids = sorted techniques;
        supporting_reasons = r.reason ∷ [];
        missing_evidence = r.missing_evidence;
        first_seen = first_of times;
        last_seen = last_of times;
      }

  -- The body of the loop over the groups; `none` is a `continue`.
  pub generate_one : Dict Finding → String × List String → Option Hypothesis
  generate_one index (activity, finding_ids) =
      let held = m3_input.evidence_index in
      let evidence = set_of (select (is_held held) (ids_of_findings index finding_ids)) in
      if is_empty evidence
      then none
      else elim (rule activity (length finding_ids) (any (has_protocol "dns" held) evidence)
          (any (has_protocol "http" held) evidence)) [
            | none ↦ none
            | some r ↦ some (hypothesis finding_ids evidence r)
          ]

  -- `finding_refs` are the identifiers of the context's findings.
  pub generate : List String → List Hypothesis
  unfolding index_of_findings group_findings
  generate finding_refs =
      let index = index_of_findings m3_input.findings [] in
      sort_by (λ a b. text_leb a.hypothesis_id b.hypothesis_id)
        (present (map (generate_one index) (group_findings index finding_refs [])))
