-- ===== src/Correlation/Mitre/Mapper.antt =====
-- `MitreMapper` (backend/app/engines/correlation/mitre/mapper.py). A finding's scores are exact
-- hundredths and a modifier is in tenths, so a mapping's confidence is exact in thousandths.
pub mod Telemetry
pub mod Mappings
use net_sleuth_ai.Shared.{
  ℕ, ◌*◌, min, String, Bool, true, false, not, ◌&&◌, ◌||◌, Option, none, some, List, [], ◌∷◌, ◌++◌,
  map, ◌==◌, if◌then◌else◌, ltb, is_empty, select, present, lookup, member, Dict, concat, prefix,
}
use net_sleuth_ai.Correlation.Domain.{
  EvidenceReference, Finding, TelemetryCapability, EvidenceIndex, M3InvestigationInput,
}
use net_sleuth_ai.Correlation.Mitre.{
  MappingStatus, MitreMapping, Candidate, BehaviorMapping, MitreKnowledgeRepository,
  get_technique_details,
}

pub calculate_confidence : ℕ → MappingStatus → ℕ
calculate_confidence base MappingStatus.supported = min (base * 10) 1000
calculate_confidence base MappingStatus.partial = min (base * 8) 1000
calculate_confidence base MappingStatus.potential = min (base * 5) 1000
calculate_confidence base _ = 0

abbrev held {ℓ} : {A : Type ℓ} → Dict A → List String → List String
held d = select (λ i. member i d)

unfoldable pub get_valid_evidence : EvidenceIndex → List EvidenceReference → List String
get_valid_evidence index [] = []
get_valid_evidence index (r ∷ rs) =
    held index.flows r.flow_ids
    ++ held index.events r.event_ids
    ++ held index.artifacts r.artifact_ids
    ++ get_valid_evidence index rs

-- The status and the rationale.
abbrev pub Evaluation : Type 0
Evaluation = MappingStatus × String

abbrev missing : String → Evaluation
missing why = (MappingStatus.insufficient_evidence, why)

-- The rules for C2_MALWARE_COMMUNICATION; `none` where no technique matches.
pub evaluate_c2 : TelemetryCapability → String → Option Evaluation
evaluate_c2 telemetry technique =
    if technique == "T1071.001"
    then some (
        if telemetry.http || telemetry.tls
        then (
          MappingStatus.supported,
          "Web protocol evidence (HTTP/TLS) satisfies technique requirements.",
        )
        else missing "Missing required HTTP/TLS evidence.")
    else if technique == "T1071.004"
    then some (
        if telemetry.dns
        then (MappingStatus.supported, "DNS protocol evidence satisfies technique requirements.")
        else missing "Missing required DNS evidence.")
    else if technique == "T1095"
    then some (
        if not telemetry.http && not telemetry.tls && not telemetry.dns
        then (MappingStatus.supported, "Non-application layer anomaly fits T1095 profile.")
        else missing "Application-layer evidence overrides non-app profile.")
    else none

pub evaluate_exfiltration : TelemetryCapability → Finding → Evaluation
evaluate_exfiltration telemetry finding =
    if telemetry.network_flow
    then if ltb 75 finding.risk_score
      then (
        MappingStatus.partial,
        "High-risk flow anomaly supports exfiltration partially without file telemetry.",
      )
      else (MappingStatus.potential, "Large flow anomaly suggests potential exfiltration.")
    else missing "No flow evidence to support exfiltration."

pub evaluate_web : TelemetryCapability → Finding → Evaluation
evaluate_web telemetry finding =
    if not telemetry.http
    then missing "No HTTP telemetry to support suspicious web activity."
    else if ltb 80 finding.risk_score || ltb 90 finding.anomaly_score
    then (MappingStatus.supported, "Correlated web C2 evidence supports technique mapping.")
    else (
      MappingStatus.potential,
      "Unusual HTTP observed, but insufficient severity to confirm web C2.",
    )

abbrev or_not_applicable : Option Evaluation → Evaluation
or_not_applicable none = (MappingStatus.not_applicable, "Technique did not match behavior rules.")
or_not_applicable (some e) = e

-- An inner `if` without a match falls through to the last line.
pub evaluate_technique : TelemetryCapability → Finding → String → String → Evaluation
evaluate_technique telemetry finding behavior technique = or_not_applicable (
    if behavior == "C2_MALWARE_COMMUNICATION"
    then evaluate_c2 telemetry technique
    else if behavior == "DNS_ANOMALY_TUNNELING"
    then if technique == "T1071.004"
      then some (
          if telemetry.dns
          then (MappingStatus.supported, "DNS protocol evidence explicitly supports anomaly.")
          else missing "No DNS telemetry found to support tunneling.")
      else none
    else if behavior == "SCANNING_RECONNAISSANCE"
    then if technique == "T1046"
      then some (
          if telemetry.network_flow
          then (
            MappingStatus.partial,
            "Network flow supports scanning behavior, but required endpoint telemetry is unavailable.",
          )
          else missing "No network flow evidence to support scanning.")
      else none
    else if behavior == "POSSIBLE_EXFILTRATION"
    then if technique == "T1041" then some (evaluate_exfiltration telemetry finding) else none
    else if behavior == "SUSPICIOUS_WEB_ACTIVITY"
    then if technique == "T1071.001" then some (evaluate_web telemetry finding) else none
    else none)

abbrev pub is_mapped : MappingStatus → Bool
is_mapped MappingStatus.insufficient_evidence = false
is_mapped MappingStatus.not_applicable = false
is_mapped _ = true

module _ (sha256_hex : String → String) (repo : MitreKnowledgeRepository) where
  pub generate_mapping_id : String → String → String
  generate_mapping_id finding technique = concat (
      "map-"
      ∷ prefix 24 (sha256_hex (concat (finding ∷ "|" ∷ technique ∷ "|" ∷ repo.profile_id ∷ [])))
      ∷ [])

  -- The body of the loop over the candidates.
  pub map_candidate :
      TelemetryCapability
      → String
      → Finding
      → List String
      → String
      → Candidate
      → Option MitreMapping
  map_candidate telemetry finding_id finding evidence behavior candidate =
      let (status, rationale) = evaluate_technique telemetry finding behavior candidate.id in
      let details = get_technique_details repo candidate.id in
      if is_mapped status
      then some (record {
        mapping_id = generate_mapping_id finding_id candidate.id;
        finding_id = finding_id;
        behavior_id = behavior;
        technique_id = candidate.id;
        technique_name = details.name;
        tactic_id = details.tactic_id;
        tactic_name = details.tactic_name;
        detection_strategy_ids = details.detection_strategies;
        analytic_ids = details.analytics;
        data_component_ids = candidate.required_telemetry;
        channels = candidate.local_channels;
        mapping_status = status;
        mapping_confidence = calculate_confidence finding.classification_confidence status;
        rationale = rationale;
        evidence_ids = evidence;
        first_seen = finding.observation_start;
        last_seen = finding.observation_end;
        knowledge_profile_id = repo.profile_id;
        mitre_version = repo.mitre_version;
      })
      else none

  -- The rest of `map_finding` once the finding is found.
  map_found : M3InvestigationInput → String → Finding → List MitreMapping
  map_found m3_input finding_id finding =
      let evidence = get_valid_evidence m3_input.evidence_index finding.evidence_references in
      if is_empty evidence
      then []
      else elim (lookup finding.activity_class repo.mappings_by_behavior) [
        | none ↦ []
        | some behavior ↦ present (
            map
              (map_candidate m3_input.telemetry_capabilities finding_id finding evidence
                behavior.behavior_id)
              behavior.candidate_techniques)
      ]

  pub map_finding : M3InvestigationInput → String → List MitreMapping
  map_finding m3_input finding_id = elim (lookup finding_id m3_input.evidence_index.findings) [
    | none ↦ []
    | some finding ↦ map_found m3_input finding_id finding
  ]
