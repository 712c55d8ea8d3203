-- ===== src/Correlation/Investigation/Pipeline.antt =====
-- What the three engines (hypothesis_validator.py, root_cause_analyzer.py and impact_assessor.py of
-- backend/app/engines/correlation/investigation) promise when one runs after the other, as
-- `InvestigationCaseBuilder.build_case` runs them.
use net_sleuth_ai.Shared.{String, Bool, true, List, ◌≡◌, ◌⊎◌, some, arith, Dict}
use net_sleuth_ai.Correlation.Domain.{Timestamp, M3InvestigationInput}
use net_sleuth_ai.Correlation.Investigation.Context.{
  ValidationStatus, validated, Hypothesis, HypothesisValidation, RootCause, RootCauseStatus,
  TimelineEvent, ImpactAssessment,
}
use net_sleuth_ai.Correlation.Investigation.Rules.Signals.{is_known}
use net_sleuth_ai.Correlation.Investigation.Validator.{validate_one}
use net_sleuth_ai.Correlation.Investigation.Validator.Contract.{Agrees, validate_one-Agrees}
use net_sleuth_ai.Correlation.Investigation.RootCauses.{cause, settled_status, root_cause}
use net_sleuth_ai.Correlation.Investigation.RootCauses.Sufficiency.{status-root_cause}
use net_sleuth_ai.Correlation.Investigation.Impacts.Claims.{assess_one-IsResolved}
use net_sleuth_ai.Correlation.Investigation.Impacts.{assess_one}

-- What a root cause's status says of the validation that it comes from.
abbrev pub Follows : ValidationStatus → RootCauseStatus → Type 0
Follows validated s = (s ≡ RootCauseStatus.supported) ⊎ (s ≡ RootCauseStatus.partially_supported)
Follows _ s = s ≡ RootCauseStatus.unresolved

settled_status-Follows :
    (val : HypothesisValidation) (type : String)
    → is_known type ≡ true
    → Agrees val
    → Follows val.validation_status (settled_status val (cause type val).status)
unfolding cause settled_status
settled_status-Follows val type known h = ground arith

module _ (sha256_hex : String → String) (now : Timestamp) (timeline : List TimelineEvent)
    (m3_input : M3InvestigationInput) (hyp : Hypothesis) (rc : RootCause) where
  abbrev val : HypothesisValidation
  val = validate_one sha256_hex now timeline m3_input hyp

  -- For a hypothesis of one of the five generated types, the root cause that is found after its
  -- validation is SUPPORTED or PARTIALLY_SUPPORTED if it was VALIDATED, and UNRESOLVED otherwise; it
  -- is never POTENTIAL.
  pub root_cause-Follows :
      is_known hyp.hypothesis_type ≡ true
      → root_cause sha256_hex m3_input.acquisition_id val hyp ≡ some rc
      → Follows val.validation_status rc.status
  root_cause-Follows known e =
      let f =
        settled_status-Follows val hyp.hypothesis_type known
          (validate_one-Agrees sha256_hex now timeline m3_input hyp known) in
      rw (status-root_cause sha256_hex m3_input.acquisition_id val hyp rc e) f

  -- For a hypothesis of one of the five generated types, no impact is assessed for the root cause
  -- that is found after its validation unless it was VALIDATED.
  pub assess_one-IsValidated :
      (is_private_ip : String → Bool) (hypotheses : Dict Hypothesis)
      (validations : Dict HypothesisValidation) (a : ImpactAssessment)
      → is_known hyp.hypothesis_type ≡ true
      → root_cause sha256_hex m3_input.acquisition_id val hyp ≡ some rc
      → assess_one sha256_hex is_private_ip m3_input hypotheses validations rc ≡ some a
      → val.validation_status ≡ validated
  assess_one-IsValidated is_private_ip hypotheses validations a known e r =
      let f = root_cause-Follows known e in
      let r =
        assess_one-IsResolved sha256_hex is_private_ip m3_input hypotheses validations rc a r in
      ground arith
