-- ===== src/Correlation/CaseBuilder/Build.antt =====
-- `InvestigationCaseBuilder.build` (backend/app/engines/correlation/investigation/case_builder.py).
-- `isoformat` prints a time, and `is_valid` is the check of a document against a JSON schema.
pub mod Checks
pub mod Acceptance
pub mod Consistency
use net_sleuth_ai.Shared.{
  ℕ, max, String, Bool, true, false, not, ◌&&◌, ◌||◌, Option, none, some, List, [], ◌∷◌, ◌++◌, map,
  ◌==◌, eqb, if◌then◌else◌, is_empty, elem, concat, Result, ok, err, raise_if, ◌>>=◌, ◌>>◌,
}
use net_sleuth_ai.Correlation.Domain.{Timestamp}
use net_sleuth_ai.Correlation.Entities.{
  Relationship, CaseEvidence, FindingReference, InvestigationContext,
}
use net_sleuth_ai.Correlation.Investigation.Context.{
  Hypothesis, HypothesisValidation, ValidationStatus, RootCause, ImpactAssessment, TimelineEvent,
}
use net_sleuth_ai.Correlation.CaseBuilder.Document.{FindingEntry, Assessment, CaseDocument}
use net_sleuth_ai.Correlation.CaseBuilder.Entries.{
  stamp, v1_3, finding_entry, timeline_entry, entity_entry, evidence_entry, relationship_entry,
}
use net_sleuth_ai.Correlation.CaseBuilder.Assessed.{
  hypothesis_entry, validation_entry, root_cause_entry, impact_entry, mitre_entry,
}
use net_sleuth_ai.Correlation.CaseBuilder.AttackChain.{build_attack_chain}

-- What `build` raises: the item and the evidence identifier that is not declared.
pub data CaseError : Type 0 where
  no_case_id no_timeline_events unbacked_validation : CaseError
  undeclared_of_event undeclared_of_relationship : String → String → CaseError
  undeclared_of_hypothesis undeclared_of_validation : String → String → CaseError
  undeclared_of_root_cause undeclared_of_impact : String → String → CaseError
  invalid_document : CaseError

abbrev pub fallback_id : Option String → Result CaseError String
fallback_id none = err no_case_id
fallback_id (some a) = if a == "" then err no_case_id else ok (concat ("CASE-" ∷ a ∷ []))

pub case_id_of : Option String → Option String → Result CaseError String
case_id_of none acquisition = fallback_id acquisition
case_id_of (some c) acquisition = if c == "" then fallback_id acquisition else ok c

-- `timeline[-1]`
pub last_event : TimelineEvent → List TimelineEvent → TimelineEvent
last_event t [] = t
last_event t (u ∷ us) = last_event u us

-- The times of `timeline[0]` and `timeline[-1]`.
pub time_bounds : List TimelineEvent → Result CaseError (Timestamp × Timestamp)
unfolding last_event
time_bounds [] = err no_timeline_events
time_bounds (t ∷ ts) = ok (t.timestamp, (last_event t ts).timestamp)

-- `severities[sev]`, or 0 for a severity that it does not have. A reference has no `risk_score`, so
-- an empty severity is that of the default score 0.5.
abbrev pub severity_rank : String → ℕ
severity_rank sev =
    if sev == ""
    then 2
    else if sev == "critical"
    then 4
    else if sev == "high"
    then 3
    else if sev == "medium"
    then 2
    else if sev == "low"
    then 1
    else 0

pub max_severity : List FindingReference → ℕ → ℕ
max_severity [] max_sev = max_sev
max_severity (f ∷ fs) max_sev = max_severity fs (max max_sev (severity_rank f.severity))

pub severity : List FindingReference → String
unfolding max_severity
severity fs =
    let m = max_severity fs 2 in
    if eqb m 4 then "critical" else if eqb m 3 then "high" else if eqb m 2 then "medium" else "low"

abbrev pub has_v1_3_fields : InvestigationContext → Bool
has_v1_3_fields ctx =
    not (is_empty ctx.hypotheses)
    || not (is_empty ctx.hypothesis_validations)
    || not (is_empty ctx.root_causes)
    || not (is_empty ctx.impact_assessments)

abbrev pub schema_version : InvestigationContext → String
schema_version ctx = if has_v1_3_fields ctx then v1_3 else "investigation-case-v1.2"

-- `for ev_id in ids: if ev_id not in declared_ev_ids: raise ...`
pub check_ids : List String → (String → CaseError) → List String → Result CaseError (Unit {0})
check_ids declared raised [] = ok tt
check_ids declared raised (i ∷ ids) =
    raise_if (not (elem i declared)) (raised i) >> check_ids declared raised ids

unfoldable pub check_each {ℓ} :
    {A : Type ℓ} → (A → Result CaseError (Unit {0})) → List A → Result CaseError (Unit {0})
check_each check [] = ok tt
check_each check (x ∷ xs) = check x >> check_each check xs

abbrev pub is_decided : ValidationStatus → Bool
is_decided ValidationStatus.inconclusive = false
is_decided _ = true

abbrev pub is_unbacked : HypothesisValidation → Bool
is_unbacked v =
    is_decided v.validation_status
    && is_empty v.supporting_evidence_ids
    && is_empty v.contradicting_evidence_ids

module _ (declared : List String) where
  abbrev pub check_event : TimelineEvent → Result CaseError (Unit {0})
  check_event t = check_ids declared (undeclared_of_event t.event_id) t.evidence_ids

  abbrev pub check_relationship : Relationship → Result CaseError (Unit {0})
  check_relationship r =
      check_ids declared (undeclared_of_relationship r.relationship_id) r.evidence_ids

  abbrev pub check_hypothesis : Hypothesis → Result CaseError (Unit {0})
  check_hypothesis h =
      check_ids declared (undeclared_of_hypothesis h.hypothesis_id) h.supporting_evidence_ids

  abbrev pub check_validation : HypothesisValidation → Result CaseError (Unit {0})
  check_validation v =
      raise_if (is_unbacked v) unbacked_validation
      >> check_ids declared (undeclared_of_validation v.validation_id)
          (v.supporting_evidence_ids ++ v.contradicting_evidence_ids)

  abbrev pub check_root_cause : RootCause → Result CaseError (Unit {0})
  check_root_cause rc =
      check_ids declared (undeclared_of_root_cause rc.root_cause_id) rc.supporting_evidence_ids

  abbrev pub check_impact : ImpactAssessment → Result CaseError (Unit {0})
  check_impact imp =
      check_ids declared (undeclared_of_impact imp.impact_id) imp.supporting_evidence_ids

-- `internal_metadata`, and what a finding's entry is without it.
pub record Internal : Type 0 where
  pub activity : Option String
  pub confidence_score : Option ℕ
  pub risk_score : Option ℕ
  pub first_observed : Option String
  pub last_observed : Option String

pub pop_internal : FindingEntry → Internal × FindingEntry
pop_internal f = (
  record {
    activity = f.activity;
    confidence_score = f.confidence_score;
    risk_score = f.risk_score;
    first_observed = f.first_observed;
    last_observed = f.last_observed;
  },
  record f {
    activity = none;
    confidence_score = none;
    risk_score = none;
    first_observed = none;
    last_observed = none;
  },
)

abbrev unless_none {ℓ} : {A : Type ℓ} → Option A → Option A → Option A
unless_none none old = old
unless_none (some v) old = some v

-- `f.update({k: v for k, v in ... if v is not None})`
pub restore_internal : Internal → FindingEntry → FindingEntry
restore_internal m f = record f {
  activity = unless_none m.activity f.activity;
  confidence_score = unless_none m.confidence_score f.confidence_score;
  risk_score = unless_none m.risk_score f.risk_score;
  first_observed = unless_none m.first_observed f.first_observed;
  last_observed = unless_none m.last_observed f.last_observed;
}

pub restore_all : List Internal → List FindingEntry → List FindingEntry
unfolding restore_internal
restore_all [] fs = fs
restore_all (m ∷ ms) [] = []
restore_all (m ∷ ms) (f ∷ fs) = restore_internal m f ∷ restore_all ms fs

abbrev pub declared_ev_ids : InvestigationContext → List String
declared_ev_ids ctx = map (λ (e : CaseEvidence). e.evidence_id) ctx.evidence_references

module _ (isoformat : Timestamp → String) (is_valid : String → CaseDocument → Bool) where
  -- `assessment_doc`
  pub assessment_of : InvestigationContext → Assessment
  assessment_of ctx = record {
    hypotheses = map (hypothesis_entry isoformat) ctx.hypotheses;
    hypothesis_validations = map (validation_entry isoformat) ctx.hypothesis_validations;
    root_causes = map root_cause_entry ctx.root_causes;
    impact_assessments = map impact_entry ctx.impact_assessments;
  }

  pub assess : List String → InvestigationContext → Result CaseError (Option Assessment)
  assess declared ctx =
      if has_v1_3_fields ctx
      then check_each (check_hypothesis declared) ctx.hypotheses
        >> check_each (check_validation declared) ctx.hypothesis_validations
        >> check_each (check_root_cause declared) ctx.root_causes
        >> check_each (check_impact declared) ctx.impact_assessments
        >> ok (some (assessment_of ctx))
      else ok none

  -- The document before the findings' metadata is taken out.
  pub assembled :
      InvestigationContext → String → Timestamp → Timestamp → Option Assessment → CaseDocument
  assembled ctx case_id first last assessment = record {
    schema_version = schema_version ctx;
    case_id = case_id;
    title = concat ("Investigation Case " ∷ case_id ∷ []);
    severity = severity ctx.findings;
    created_at = stamp isoformat first;
    updated_at = stamp isoformat last;
    findings = map (finding_entry isoformat (schema_version ctx) ctx.timeline_events) ctx.findings;
    timeline = map (timeline_entry isoformat) ctx.timeline_events;
    entities = map (entity_entry isoformat) ctx.entities;
    relationships = map (relationship_entry isoformat) ctx.relationships;
    evidence_references = map evidence_entry ctx.evidence_references;
    attack_chain = build_attack_chain isoformat ctx.timeline_events ctx.mitre_mappings;
    assessment = assessment;
    mitre_mappings = map (mitre_entry isoformat) ctx.mitre_mappings;
  }

  -- `validate` sees the document without the metadata, which comes back afterwards.
  pub validated_document : CaseDocument → Result CaseError CaseDocument
  validated_document doc =
      let internal = map (λ f. (pop_internal f).0) doc.findings in
      let bare = record doc { findings = map (λ f. (pop_internal f).1) doc.findings } in
      raise_if (not (is_valid (concat (doc.schema_version ∷ ".json" ∷ [])) bare)) invalid_document
      >> ok (record bare { findings = restore_all internal bare.findings })

  pub build : InvestigationContext → Result CaseError CaseDocument
  build ctx = do
    let declared = declared_ev_ids ctx
    case_id ← case_id_of ctx.case_id ctx.acquisition_id
    bounds ← time_bounds ctx.timeline_events
    check_each (check_event declared) ctx.timeline_events
    check_each (check_relationship declared) ctx.relationships
    assessment ← assess declared ctx
    validated_document (assembled ctx case_id bounds.0 bounds.1 assessment)
