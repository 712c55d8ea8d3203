-- ===== src/Correlation/Assembly.antt =====
-- The correlation phase of `ForensicPipelineOrchestrator.run_pipeline_from_m1`
-- (backend/app/orchestrator/pipeline.py): the case context is put together from the packages, goes
-- through the engines, and becomes a document. The attributes of the entities, which no engine of
-- M3 reads, are left empty.
pub mod Evidence
pub mod Context
pub mod Sources
pub mod Totality
pub mod Phase
pub mod Outcome
mod Examples
use net_sleuth_ai.Shared.{
  ℕ, String, Bool, true, false, Option, none, some, List, [], ◌∷◌, ◌++◌, map, ◌==◌, ltb,
  if◌then◌else◌, elem, concat, Result, ok, err, ◌>>=◌,
}
use net_sleuth_ai.Correlation.Domain.{
  Timestamp, Flow, ProtocolEvent, Artifact, Finding, NetworkIntelligencePackage, FindingsPackage,
  M3InvestigationInput,
}
use net_sleuth_ai.Correlation.Input.{AdaptError, merge}
use net_sleuth_ai.Correlation.Mitre.{MitreMapping, MitreKnowledgeRepository}
use net_sleuth_ai.Correlation.Mitre.Mapper.{map_finding}
use net_sleuth_ai.Correlation.Entities.{
  Entity, CaseEvidence, FindingReference, InvestigationContext, DomainError, make_entity,
  make_evidence, make_finding,
}
use net_sleuth_ai.Correlation.Observations.{dns_query, tls_sni, is_given, shown}
use net_sleuth_ai.Correlation.Timeline.{TimelineError, reconstruct}
use net_sleuth_ai.Correlation.Rules.{is_entity, correlate}
use net_sleuth_ai.Correlation.Investigation.Context.{TimelineEvent}
use net_sleuth_ai.Correlation.Investigation.Generator.{generate}
use net_sleuth_ai.Correlation.Investigation.Validator.{validate}
use net_sleuth_ai.Correlation.Investigation.RootCauses as RootCauses
use net_sleuth_ai.Correlation.Investigation.Impacts as Impacts
use net_sleuth_ai.Correlation.CaseBuilder.Document.{CaseDocument}
use net_sleuth_ai.Correlation.CaseBuilder.Build.{CaseError, build}

pub data PhaseError : Type 0 where
  not_adapted : AdaptError → PhaseError
  not_constructed : DomainError → PhaseError
  no_timeline : TimelineError → PhaseError
  not_built : CaseError → PhaseError

abbrev pub raised_as {ℓ κ} :
    {E : Type ℓ} {A : Type κ} → (E → PhaseError) → Result E A → Result PhaseError A
raised_as f (ok a) = ok a
raised_as f (err e) = err (f e)

abbrev pub evidence_ids_of : List CaseEvidence → List String
evidence_ids_of = map (λ e. e.evidence_id)

abbrev pub evidence : String → String → CaseEvidence
evidence type id = record { evidence_id = id; evidence_type = type; source_id = some id }

-- The set `declared_ev_ids` has the identifiers of the list.
pub declare_one : String → String → List CaseEvidence → Result DomainError (List CaseEvidence)
declare_one type id refs =
    if elem id (evidence_ids_of refs)
    then ok refs
    else make_evidence (evidence type id) >>= λ e. ok (refs ++ e ∷ [])

-- One of the three loops of step 1.
pub declare_all : String → List String → List CaseEvidence → Result DomainError (List CaseEvidence)
declare_all type [] refs = ok refs
declare_all type (id ∷ ids) refs = declare_one type id refs >>= λ refs'. declare_all type ids refs'

pub declare_evidence : NetworkIntelligencePackage → Result DomainError (List CaseEvidence)
unfolding declare_all
declare_evidence m1 = do
  flows ← declare_all "flow" (map (λ f. f.flow_id) m1.flows) []
  events ← declare_all "session" (map (λ e. e.event_id) m1.protocol_events) flows
  declare_all "artifact" (map (λ a. a.artifact_id) m1.artifacts) events

abbrev pub entity : String → String → String → Option Timestamp → Entity
entity type id value seen = record {
  entity_id = concat (type ∷ ":" ∷ id ∷ []);
  entity_type = type;
  value = value;
  first_seen = seen;
  last_seen = seen;
  attributes = [];
}

abbrev pub of_domain : Timestamp → Option String → List Entity
of_domain t name =
    if is_given name then entity "domain" (shown name) (shown name) (some t) ∷ [] else []

pub entities_of_flows : List Flow → List Entity
entities_of_flows [] = []
entities_of_flows (f ∷ fs) =
    entity "ip" f.source.ip f.source.ip (some f.timestamp)
    ∷ entity "ip" f.destination.ip f.destination.ip (some f.timestamp)
    ∷ entities_of_flows fs

pub entities_of_events : List ProtocolEvent → List Entity
entities_of_events [] = []
entities_of_events (e ∷ es) =
    (if e.protocol == "dns"
      then of_domain e.timestamp (dns_query e.protocol_data)
      else if e.protocol == "tls"
      then of_domain e.timestamp (tls_sni e.protocol_data)
      else [])
    ++ entities_of_events es

-- The entities of step 2, in order, those that are there already included.
pub candidates : NetworkIntelligencePackage → FindingsPackage → List Entity
unfolding entities_of_flows entities_of_events
candidates m1 m2 =
    entities_of_flows m1.flows
    ++ (entities_of_events m1.protocol_events
        ++ (map (λ (a : Artifact). entity "artifact" a.artifact_id a.value none) m1.artifacts
            ++ map (λ (f : Finding). entity "finding" f.finding_id f.activity_class none)
                m2.findings))

-- `if id not in seen_entity_ids: ...`; the set has the identifiers of the list.
pub add_one : Entity → List Entity → Result DomainError (List Entity)
add_one e entities =
    if is_entity entities e.entity_id
    then ok entities
    else make_entity e >>= λ made. ok (entities ++ made ∷ [])

pub add_new : List Entity → List Entity → Result DomainError (List Entity)
add_new [] entities = ok entities
add_new (e ∷ es) entities = add_one e entities >>= λ entities'. add_new es entities'

-- Step 3.
pub finding_reference : Finding → FindingReference
finding_reference f = record {
  finding_id = f.finding_id;
  finding_type = f.activity_class;
  severity = if ltb 80 f.risk_score then "high" else "low";
  confidence_score = f.classification_confidence;
  first_seen = none;
  last_seen = none;
  entity_ids = [];
  evidence_ids = [];
}

pub refer_findings : List Finding → Result DomainError (List FindingReference)
unfolding finding_reference
refer_findings [] = ok []
refer_findings (f ∷ fs) =
    make_finding (finding_reference f) >>= λ r. refer_findings fs >>= λ rs. ok (r ∷ rs)

-- `case_id if case_id else f"CASE-{...}"`
abbrev pub case_name : String → Option String → String
case_name acquisition none = concat ("CASE-" ∷ acquisition ∷ [])
case_name acquisition (some c) = if c == "" then concat ("CASE-" ∷ acquisition ∷ []) else c

-- The context after steps 1 to 4.
abbrev pub initial_context :
    String
    → Option String
    → List CaseEvidence
    → List Entity
    → List FindingReference
    → List TimelineEvent
    → InvestigationContext
initial_context acquisition case_id refs entities findings events = record {
  acquisition_id = some acquisition;
  case_id = some (case_name acquisition case_id);
  entities = entities;
  relationships = [];
  timeline_events = events;
  findings = findings;
  evidence_references = refs;
  mitre_mappings = [];
  hypotheses = [];
  hypothesis_validations = [];
  root_causes = [];
  impact_assessments = [];
}

-- Steps 1 to 4.
pub assemble :
    Timestamp
    → Option String
    → NetworkIntelligencePackage
    → FindingsPackage
    → Result PhaseError InvestigationContext
unfolding declare_evidence candidates add_new refer_findings
assemble now case_id m1 m2 = do
  refs ← raised_as not_constructed (declare_evidence m1)
  entities ← raised_as not_constructed (add_new (candidates m1 m2) [])
  findings ← raised_as not_constructed (refer_findings m2.findings)
  events ← raised_as no_timeline (reconstruct now m1 m2)
  ok (initial_context m1.acquisition_id case_id refs entities findings events)

module _ (sha256_hex : String → String) (is_private_ip : String → Bool) (now : Timestamp)
    (repo : MitreKnowledgeRepository) where
  -- `ctx.mitre_mappings.extend(mapper.map_finding(m3_input, finding.finding_id))`
  pub map_all : M3InvestigationInput → List Finding → List MitreMapping
  map_all m3_input [] = []
  map_all m3_input (f ∷ fs) =
      map_finding sha256_hex repo m3_input f.finding_id ++ map_all m3_input fs

  -- Steps 3b to 3d.
  pub investigate :
      M3InvestigationInput → List Finding → InvestigationContext → InvestigationContext
  unfolding map_all
  investigate m3_input findings ctx =
      let correlated = correlate ctx in
      let mappings = map_all m3_input findings in
      let hypotheses =
        generate sha256_hex correlated.timeline_events mappings m3_input
          (map (λ f. f.finding_id) correlated.findings) in
      let validations = validate sha256_hex now correlated.timeline_events m3_input hypotheses in
      let causes = RootCauses.analyze sha256_hex m3_input.acquisition_id hypotheses validations in
      record correlated {
        mitre_mappings = mappings;
        hypotheses = hypotheses;
        hypothesis_validations = validations;
        root_causes = causes;
        impact_assessments =
            Impacts.analyze sha256_hex is_private_ip m3_input hypotheses validations causes;
      }

  module _ (isoformat : Timestamp → String) (is_valid : String → CaseDocument → Bool) where
    -- From the packages to the document of the case. The source dumps both packages to JSON and
    -- validates them again before it adapts them, which is taken to give them back.
    pub m3_phase :
        Option String
        → NetworkIntelligencePackage
        → FindingsPackage
        → Result PhaseError CaseDocument
    unfolding assemble investigate
    m3_phase case_id m1 m2 = do
      m3_input ← raised_as not_adapted (merge m1 m2)
      ctx ← assemble now case_id m1 m2
      raised_as not_built (build isoformat is_valid (investigate m3_input m2.findings ctx))
