-- ===== src/Correlation/Investigation/Impacts.antt =====
-- `ImpactAssessor.analyze` (backend/app/engines/correlation/investigation/impact_assessor.py), one
-- root cause at a time; `none` is a `continue`.
pub mod Claims
pub mod Provenance
use net_sleuth_ai.Shared.{
  ℕ, ◌+◌, ◌-◌, ◌*◌, min, String, Bool, true, false, not, ◌&&◌, ◌||◌, Option, none, some, List, [],
  ◌∷◌, ◌++◌, map, ◌==◌, if◌then◌else◌, ltb, leb, eqb, is_empty, length, lookup, insert, Dict,
  concat, join, present, prefix, sorted, set_of, select,
}
use net_sleuth_ai.Correlation.Domain.{Flow, EvidenceIndex, M3InvestigationInput}
use net_sleuth_ai.Correlation.Investigation.Context.{
  Hypothesis, HypothesisValidation, RootCause, RootCauseStatus, ImpactStatus, ImpactAssessment,
}
use net_sleuth_ai.Correlation.Investigation.RootCauses.{index_hypotheses}

unfoldable pub index_validations :
    List HypothesisValidation → Dict HypothesisValidation → Dict HypothesisValidation
index_validations [] index = index
index_validations (v ∷ vs) index = index_validations vs (insert v.hypothesis_id v index)

-- The local variables that the rule of the type sets; `none` where it gives no impact.
pub record Impact : Type 0 where
  pub category : String
  pub statement : String
  pub status : ImpactStatus
  pub missing_evidence : List String

abbrev pub is_supported : RootCauseStatus → Bool
is_supported RootCauseStatus.supported = true
is_supported _ = false

abbrev pub is_unresolved : RootCauseStatus → Bool
is_unresolved RootCauseStatus.unresolved = true
is_unresolved _ = false

-- `ipaddress.ip_address(ip).is_private`, false where the text is no address.
module _ (is_private_ip : String → Bool) where
  -- The private destinations among the flows of the evidence.
  unfoldable pub private_targets : Dict Flow → List String → List String
  private_targets flows [] = []
  private_targets flows (i ∷ ids) = add_target (lookup i flows) (private_targets flows ids)
    where
      add_target : Option Flow → List String → List String
      add_target none rest = rest
      add_target (some f) rest =
          let ip = f.destination.ip in
          if not (ip == "") && is_private_ip ip then ip ∷ rest else rest

  unfoldable pub impact : EvidenceIndex → String → RootCause → Option Impact
  impact index type rc =
      if type == "C2_COMMUNICATION"
      then some (record {
        category = "SYSTEM_COMPROMISE";
        statement =
            "Observed or inferred impact associated with persistent external command-and-control communication.";
        status =
            if is_supported rc.status && ltb 2 (length rc.supporting_evidence_ids)
            then ImpactStatus.inferred
            else ImpactStatus.potential;
        missing_evidence = rc.missing_evidence;
      })
      else if type == "DNS_C2"
      then some (record {
        category = "SYSTEM_COMPROMISE";
        statement =
            "Potential system impact associated with DNS-based command-and-control activity.";
        status = ImpactStatus.potential;
        missing_evidence = rc.missing_evidence;
      })
      else if type == "NETWORK_RECONNAISSANCE"
      then if leb 2 (length (set_of (private_targets index.flows rc.supporting_evidence_ids)))
        then some (record {
          category = "LATERAL_MOVEMENT";
          statement = "Potential lateral movement indicated by cross-target internal scanning.";
          status = ImpactStatus.potential;
          missing_evidence = rc.missing_evidence;
        })
        else none
      else if type == "POTENTIAL_EXFILTRATION"
      then some (record {
        category = "DATA_EXFILTRATION";
        statement = "Potential data exfiltration based on abnormal outbound transfer behavior.";
        status = ImpactStatus.potential;
        missing_evidence =
            rc.missing_evidence
            ++ ("Process context unavailable" ∷ "File access telemetry unavailable" ∷ []);
      })
      else none

-- One contradiction or more lowers the status by one step.
unfoldable pub lowered : List String → ImpactStatus → ImpactStatus
lowered [] status = status
lowered (c ∷ cs) ImpactStatus.observed = ImpactStatus.inferred
lowered (c ∷ cs) ImpactStatus.inferred = ImpactStatus.potential
lowered (c ∷ cs) ImpactStatus.potential = ImpactStatus.potential

abbrev pub impact_cap : ImpactStatus → ℕ
impact_cap ImpactStatus.observed = 90
impact_cap ImpactStatus.inferred = 75
impact_cap ImpactStatus.potential = 60

-- In hundredths, so that the code's rounding to two places changes nothing.
unfoldable pub impact_confidence : RootCause → List String → List String → ImpactStatus → ℕ
impact_confidence rc contradicting missing status =
    let base = if is_supported rc.status then 30 + 20 else 30 in
    let signals = base + 5 * min (length rc.supporting_evidence_ids) 4 in
    let weighed = signals - 20 * length contradicting in
    min (weighed - 10 * (if is_empty missing then 0 else 1)) (impact_cap status)

abbrev impact_status_value : ImpactStatus → String
impact_status_value ImpactStatus.observed = "OBSERVED"
impact_status_value ImpactStatus.inferred = "INFERRED"
impact_status_value ImpactStatus.potential = "POTENTIAL"

module _ (sha256_hex : String → String) (is_private_ip : String → Bool) where
  -- The record, once the rule has given an impact.
  unfoldable pub assessment :
      String → HypothesisValidation → RootCause → Impact → Option ImpactAssessment
  assessment acquisition_id val rc i =
      let status = lowered val.contradicting_evidence_ids i.status in
      if is_empty rc.supporting_evidence_ids
      then none
      else some (record {
        impact_id = concat (
            "IMP-"
            ∷ prefix 12 (
                sha256_hex (
                  concat (
                    acquisition_id
                    ∷ "|"
                    ∷ i.category
                    ∷ "|"
                    ∷ i.statement
                    ∷ "|"
                    ∷ join "," (sorted rc.supporting_evidence_ids)
                    ∷ "|"
                    ∷ ""
                    ∷ "|"
                    ∷ impact_status_value status
                    ∷ [])))
            ∷ []);
        category = i.category;
        statement = i.statement;
        status = status;
        confidence = impact_confidence rc val.contradicting_evidence_ids i.missing_evidence status;
        supporting_evidence_ids = sorted rc.supporting_evidence_ids;
        supporting_finding_ids = rc.supporting_finding_ids;
        affected_entity_ids = [];
        rationale = "Deterministic rule mapping from validated root causes.";
        missing_evidence = set_of i.missing_evidence;
      })

  unfoldable pub assess :
      M3InvestigationInput
      → Option Hypothesis
      → Option HypothesisValidation
      → RootCause
      → Option ImpactAssessment
  assess m3_input (some hyp) (some val) rc =
      elim (impact is_private_ip m3_input.evidence_index hyp.hypothesis_type rc) [
        | none ↦ none
        | some i ↦ assessment m3_input.acquisition_id val rc i
      ]
  assess m3_input _ _ rc = none

  -- The first hypothesis that the root cause names, if any.
  assess_first :
      M3InvestigationInput
      → Dict Hypothesis
      → Dict HypothesisValidation
      → RootCause
      → List String
      → Option ImpactAssessment
  assess_first m3_input hypotheses validations rc [] = none
  assess_first m3_input hypotheses validations rc (h ∷ hs) =
      assess m3_input (lookup h hypotheses) (lookup h validations) rc

  unfoldable pub assess_one :
      M3InvestigationInput
      → Dict Hypothesis
      → Dict HypothesisValidation
      → RootCause
      → Option ImpactAssessment
  unfolding assess_first
  assess_one m3_input hypotheses validations rc =
      if is_unresolved rc.status
      then none
      else assess_first m3_input hypotheses validations rc rc.supporting_hypothesis_ids

  pub analyze :
      M3InvestigationInput
      → List Hypothesis
      → List HypothesisValidation
      → List RootCause
      → List ImpactAssessment
  analyze m3_input hypotheses validations causes = present (
      map (assess_one m3_input (index_hypotheses hypotheses []) (index_validations validations []))
        causes)
