-- ===== src/Correlation/Investigation/Generator/Provenance.antt =====
-- Where the evidence of the generated hypotheses comes from (`HypothesisGenerator.generate`).
use net_sleuth_ai.Shared.{
  String, true, Option, none, some, List, [], ◌∷◌, ◌++◌, is_empty, length, any, select, set_of,
  text_leb, lookup, member, Dict, Values, Values-insert, Values-empty, ◌≡◌, refl, arith, All,
  All-append, All-weaken, All-select, All-present-map, All-sort_by, All-set_of, if_ind, subst,
  some-injective,
}
use net_sleuth_ai.Correlation.Domain.{
  EvidenceReference, EvidenceIndex, M3InvestigationInput, Finding,
}
use net_sleuth_ai.Correlation.Input.Loops.{AllInIndex}
use net_sleuth_ai.Correlation.Mitre.{MitreMapping}
use net_sleuth_ai.Correlation.Mitre.Mapper.Mappings.{is_indexed}
use net_sleuth_ai.Correlation.Investigation.Context.{Hypothesis, TimelineEvent}
use net_sleuth_ai.Correlation.Investigation.Generator.{
  Rule, rule, is_held, referenced_ids, ids_of_findings, hypothesis, generate_one, generate,
  has_protocol, group_findings, index_of_findings,
}

abbrev pub IsIndexed : EvidenceIndex → String → Type 0
IsIndexed index i = is_indexed index i ≡ true

-- All the evidence of the hypothesis is a flow, an event or an artifact of the index.
abbrev pub IsGrounded : EvidenceIndex → Hypothesis → Type 0
IsGrounded index h = All (IsIndexed index) h.supporting_evidence_ids

module _ (index : EvidenceIndex) where
  abbrev HasIndexedRefs : List EvidenceReference → Type 0
  HasIndexedRefs refs = All (IsIndexed index) (referenced_ids refs)

  abbrev InTables : EvidenceReference → Type 0
  InTables r =
      All (λ i. member i index.flows ≡ true) r.flow_ids
      × All (λ i. member i index.events ≡ true) r.event_ids
      × All (λ i. member i index.artifacts ≡ true) r.artifact_ids

  referenced_ids-indexed : (refs : List EvidenceReference) → All InTables refs → HasIndexedRefs refs
  unfolding referenced_ids
  referenced_ids-indexed [] h = tt
  referenced_ids-indexed (r ∷ rs) ((f, e, a), rest) =
      let P = IsIndexed index in
      let flows = All-weaken _ P (λ i m. ground (arith, m)) r.flow_ids f in
      let events = All-weaken _ P (λ i m. ground (arith, m)) r.event_ids e in
      let artifacts = All-weaken _ P (λ i m. ground (arith, m)) r.artifact_ids a in
      All-append P _ _ (All-append P _ _ (All-append P _ _ flows events) artifacts)
        (referenced_ids-indexed rs rest)

  abbrev FindingIsIndexed : Finding → Type 0
  FindingIsIndexed f = HasIndexedRefs f.evidence_references

  index_of_findings-Values :
      (fs : List Finding) (d : Dict Finding)
      → AllInIndex index fs
      → Values FindingIsIndexed d
      → Values FindingIsIndexed (index_of_findings fs d)
  unfolding index_of_findings
  index_of_findings-Values [] d h v = v
  index_of_findings-Values (f ∷ fs) d h v = index_of_findings-Values fs _ h.1 (
      Values-insert FindingIsIndexed f.finding_id f d
        (referenced_ids-indexed f.evidence_references h.0) v)

  ids_of_findings-IsIndexed :
      (d : Dict Finding) (ids : List String)
      → Values FindingIsIndexed d
      → All (IsIndexed index) (ids_of_findings d ids)
  unfolding ids_of_findings
  ids_of_findings-IsIndexed d [] v = tt
  ids_of_findings-IsIndexed d (i ∷ ids) v =
      found (lookup i d) (v i) (ids_of_findings-IsIndexed d ids v)
    where
      found :
          (o : Option Finding)
          → ((f : Finding) → o ≡ some f → FindingIsIndexed f)
          → All (IsIndexed index) (ids_of_findings d ids)
          → All (IsIndexed index) (elim o [
            | none ↦ ids_of_findings d ids
            | some f ↦ referenced_ids f.evidence_references ++ ids_of_findings d ids
          ])
      found none h rest = rest
      found (some f) h rest = All-append (IsIndexed index) _ _ (h f refl) rest

module _ (sha256_hex : String → String) (timeline : List TimelineEvent)
    (mitre_mappings : List MitreMapping) (m3_input : M3InvestigationInput) where
  abbrev index : EvidenceIndex
  index = m3_input.evidence_index

  generate_one-IsGrounded :
      (findings : Dict Finding) (group : String × List String) (h : Hypothesis)
      → Values (FindingIsIndexed index) findings
      → generate_one sha256_hex timeline mitre_mappings m3_input findings group ≡ some h
      → IsGrounded index h
  unfolding generate_one hypothesis
  generate_one-IsGrounded findings (activity, ids) h v =
      if_ind Q (is_empty evidence) (λ n e. absurd (ground (arith, e)))
        (λ s. by_rule (
          rule activity (length ids) (any (has_protocol "dns" index) evidence)
            (any (has_protocol "http" index) evidence)))
    where
      evidence : List String
      evidence = set_of (select (is_held index) (ids_of_findings findings ids))

      Q : Option Hypothesis → Type 0
      Q o = o ≡ some h → IsGrounded index h

      all_indexed : All (IsIndexed index) evidence
      all_indexed = All-set_of (IsIndexed index) _ (
          All-select (IsIndexed index) (is_held index) _
            (ids_of_findings-IsIndexed index findings ids v))

      by_rule :
          (o : Option Rule)
          → Q (elim o [
            | none ↦ none
            | some r ↦ some (hypothesis sha256_hex timeline mitre_mappings m3_input ids evidence r)
          ])
      by_rule none e = absurd (ground (arith, e))
      by_rule (some r) e =
          subst (IsGrounded index) (some-injective e)
            (All-sort_by text_leb (IsIndexed index) evidence all_indexed)

  -- If the references of the findings are in the tables of the index, all the evidence of every
  -- hypothesis that is generated is a flow, an event or an artifact of the index.
  pub generate-IsGrounded :
      (finding_refs : List String)
      → AllInIndex index m3_input.findings
      → All (IsGrounded index) (generate sha256_hex timeline mitre_mappings m3_input finding_refs)
  unfolding generate
  generate-IsGrounded finding_refs resolved =
      let findings = index_of_findings m3_input.findings [] in
      let values =
        index_of_findings-Values index m3_input.findings [] resolved
          (Values-empty (FindingIsIndexed index)) in
      All-sort_by (λ a b. text_leb a.hypothesis_id b.hypothesis_id) (IsGrounded index) _
        (All-present-map (IsGrounded index) _
          (λ group h. generate_one-IsGrounded findings group h values)
          (group_findings findings finding_refs []))
