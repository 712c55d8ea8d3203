-- ===== src/Correlation/Investigation/RootCauses.antt =====
-- `RootCauseAnalyzer.analyze` (backend/app/engines/correlation/investigation/
-- root_cause_analyzer.py), one validation at a time; `none` is a `continue`.
pub mod Sufficiency
pub mod Provenance
use net_sleuth_ai.Shared.{
  ℕ, ◌+◌, ◌-◌, ◌*◌, min, String, Bool, true, false, not, ◌&&◌, ◌||◌, Option, none, some, List, [],
  ◌∷◌, ◌++◌, map, ◌==◌, if◌then◌else◌, ltb, leb, eqb, is_empty, length, lookup, insert, Dict,
  concat, join, present, prefix, sorted, set_of,
}
use net_sleuth_ai.Correlation.Investigation.Context.{
  ValidationStatus, validated, rejected, inconclusive, Hypothesis, HypothesisValidation, RootCause,
  RootCauseStatus,
}

-- `{h.hypothesis_id: h for h in hypotheses}`: the last one of an identifier stays.
unfoldable pub index_hypotheses : List Hypothesis → Dict Hypothesis → Dict Hypothesis
index_hypotheses [] index = index
index_hypotheses (h ∷ hs) index = index_hypotheses hs (insert h.hypothesis_id h index)

abbrev pub is_validated : ValidationStatus → Bool
is_validated validated = true
is_validated _ = false

abbrev pub is_rejected : ValidationStatus → Bool
is_rejected rejected = true
is_rejected _ = false

-- "Causal Sufficiency Logic", before a rule adds to what is missing.
abbrev pub causally_sufficient : HypothesisValidation → Bool
causally_sufficient val =
    is_validated val.validation_status
    && eqb (length val.missing_evidence) 0
    && eqb (length val.contradicting_evidence_ids) 0
    && leb 2 (length val.supporting_evidence_ids)

abbrev graded : HypothesisValidation → RootCauseStatus
graded val =
    if causally_sufficient val
    then RootCauseStatus.supported
    else if is_validated val.validation_status
    then RootCauseStatus.partially_supported
    else RootCauseStatus.potential

-- The local variables that the rule of the type sets.
pub record Cause : Type 0 where
  pub statement : String
  pub status : RootCauseStatus
  pub missing_evidence : List String

abbrev plain : HypothesisValidation → String → Cause
plain val text = record {
  statement = text;
  status = graded val;
  missing_evidence = val.missing_evidence;
}

unfoldable pub cause : String → HypothesisValidation → Cause
cause type val =
    if type == "C2_COMMUNICATION"
    then plain val
        "Underlying cause is consistent with persistent external command-and-control communication."
    else if type == "DNS_C2"
    then plain val "Underlying activity is consistent with DNS-based command-and-control."
    else if type == "NETWORK_RECONNAISSANCE"
    then plain val
        "Underlying activity is consistent with deliberate network service discovery/reconnaissance."
    else if type == "POTENTIAL_EXFILTRATION"
    then record {
      statement =
          "Underlying activity is consistent with abnormal outbound data transfer consistent with possible exfiltration.";
      status =
          if is_validated val.validation_status
          then RootCauseStatus.partially_supported
          else RootCauseStatus.potential;
      missing_evidence =
          val.missing_evidence
          ++ "Process and endpoint telemetry required to confirm causal data theft." ∷ [];
    }
    else if type == "SUSPICIOUS_WEB_ACTIVITY"
    then plain val "Underlying activity is consistent with suspicious web-protocol use."
    else record {
      statement = concat ("Underlying activity is consistent with " ∷ type ∷ "." ∷ []);
      status = RootCauseStatus.unresolved;
      missing_evidence = val.missing_evidence;
    }

abbrev claims_support : RootCauseStatus → Bool
claims_support RootCauseStatus.supported = true
claims_support RootCauseStatus.partially_supported = true
claims_support _ = false

-- The status after the checks for contradicting and for missing support.
unfoldable pub settled_status : HypothesisValidation → RootCauseStatus → RootCauseStatus
settled_status val status =
    let weakened =
      if ltb 0 (length val.contradicting_evidence_ids) && claims_support status
      then RootCauseStatus.potential
      else status in
    if is_empty val.supporting_evidence_ids then RootCauseStatus.unresolved else weakened

abbrev pub confidence_cap : RootCauseStatus → ℕ
confidence_cap RootCauseStatus.supported = 90
confidence_cap RootCauseStatus.partially_supported = 75
confidence_cap RootCauseStatus.potential = 60
confidence_cap RootCauseStatus.unresolved = 40

-- In hundredths. A difference that would be negative is 0, as the final `max` makes it.
unfoldable pub cause_confidence : HypothesisValidation → List String → RootCauseStatus → ℕ
cause_confidence val missing status =
    let base = if is_validated val.validation_status then 40 + 15 else 40 in
    let signals = base + 5 * min (length val.supporting_evidence_ids) 4 in
    let weighed = signals - 15 * length val.contradicting_evidence_ids in
    min (weighed - 10 * (if is_empty missing then 0 else 1)) (confidence_cap status)

abbrev cause_status_value : RootCauseStatus → String
cause_status_value RootCauseStatus.potential = "POTENTIAL"
cause_status_value RootCauseStatus.supported = "SUPPORTED"
cause_status_value RootCauseStatus.partially_supported = "PARTIALLY_SUPPORTED"
cause_status_value RootCauseStatus.unresolved = "UNRESOLVED"

-- `xs or ys`
abbrev or_else {ℓ} : {A : Type ℓ} → List A → List A → List A
or_else [] ys = ys
or_else (x ∷ xs) ys = x ∷ xs

module _ (sha256_hex : String → String) (acquisition_id : String) where
  -- What follows once the hypothesis is found.
  unfoldable pub root_cause : HypothesisValidation → Hypothesis → Option RootCause
  root_cause val hyp =
      let c = cause hyp.hypothesis_type val in
      let status = settled_status val c.status in
      let support =
        or_else (sorted val.supporting_evidence_ids) (sorted hyp.supporting_evidence_ids) in
      if is_empty support
      then none
      else some (record {
        root_cause_id = concat (
            "RC-"
            ∷ prefix 12 (
                sha256_hex (
                  concat (
                    acquisition_id
                    ∷ "|"
                    ∷ c.statement
                    ∷ "|"
                    ∷ val.hypothesis_id
                    ∷ "|"
                    ∷ join "," support
                    ∷ "|"
                    ∷ cause_status_value status
                    ∷ [])))
            ∷ []);
        statement = c.statement;
        status = status;
        confidence = cause_confidence val c.missing_evidence status;
        supporting_evidence_ids = support;
        supporting_hypothesis_ids = val.hypothesis_id ∷ [];
        supporting_finding_ids = hyp.supporting_finding_ids;
        missing_evidence = set_of c.missing_evidence;
      })

  pub analyze_one : Dict Hypothesis → HypothesisValidation → Option RootCause
  analyze_one index val =
      if is_rejected val.validation_status
      then none
      else elim (lookup val.hypothesis_id index) [ none ↦ none | some hyp ↦ root_cause val hyp ]

  pub analyze : List Hypothesis → List HypothesisValidation → List RootCause
  analyze hypotheses validations =
      present (map (analyze_one (index_hypotheses hypotheses [])) validations)
