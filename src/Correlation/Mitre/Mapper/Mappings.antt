-- ===== src/Correlation/Mitre/Mapper/Mappings.antt =====
-- What the mappings of a finding claim, and that none is left out (`MitreMapper.map_finding`).
use net_sleuth_ai.Shared.{
  ℕ, ◌≤◌, ◌*◌, String, Bool, true, false, ◌||◌, Option, none, some, List, [], ◌∷◌, map, ◌≡◌, refl,
  sym, arith, All, All-append, All-weaken, All-present-map, is_empty, select, present, lookup,
  member, Dict, if_ind, elem, ◌∙◌, eq_refl,
}
use net_sleuth_ai.Correlation.Domain.{
  EvidenceReference, Finding, TelemetryCapability, EvidenceIndex, M3InvestigationInput,
}
use net_sleuth_ai.Correlation.Mitre.{
  MappingStatus, MitreMapping, Candidate, BehaviorMapping, MitreKnowledgeRepository,
}
use net_sleuth_ai.Correlation.Mitre.Mapper.{
  calculate_confidence, get_valid_evidence, held, evaluate_technique, is_mapped, map_candidate,
  map_found, map_finding,
}
use net_sleuth_ai.Correlation.Mitre.Mapper.Telemetry.{is_evidenced, evaluate_technique-is_evidenced}

-- The index holds it as a flow, an event or an artifact.
abbrev pub is_indexed : EvidenceIndex → String → Bool
is_indexed index i = member i index.flows || member i index.events || member i index.artifacts

-- One of the references names it.
abbrev pub is_referenced : List EvidenceReference → String → Bool
is_referenced [] i = false
is_referenced (r ∷ rs) i =
    elem i r.flow_ids || elem i r.event_ids || elem i r.artifact_ids || is_referenced rs i

abbrev pub IsValidEvidence : EvidenceIndex → List EvidenceReference → String → Type 0
IsValidEvidence index refs i = (is_referenced refs i ≡ true) × (is_indexed index i ≡ true)

All-held {ℓ} :
    {A : Type ℓ} (P : String → Type 0) (d : Dict A) (ids : List String)
    → ((i : String) → elem i ids ≡ true → member i d ≡ true → P i)
    → All P (held d ids)
All-held P d [] h = tt
All-held P d (i ∷ ids) h =
    kept (All-held P d ids (λ j e. h j (ground (arith, e)))) (member i d)
      (h i (ground (arith, eq_refl i)))
  where
    kept :
        All P (held d ids)
        → (b : Bool) → (b ≡ true → P i)
        → All P (elim b [ true ↦ i ∷ held d ids | false ↦ held d ids ])
    kept rest true p = (p refl, rest)
    kept rest false p = rest

get_valid_evidence-IsValidEvidence :
    (index : EvidenceIndex) (refs : List EvidenceReference)
    → All (IsValidEvidence index refs) (get_valid_evidence index refs)
unfolding get_valid_evidence
get_valid_evidence-IsValidEvidence index [] = tt
get_valid_evidence-IsValidEvidence index (r ∷ rs) =
    let P = IsValidEvidence index (r ∷ rs) in
    All-append P _ (get_valid_evidence index rs)
      (All-append P _ (held index.artifacts r.artifact_ids)
        (All-append P (held index.flows r.flow_ids) (held index.events r.event_ids)
          (All-held P index.flows r.flow_ids (λ i e m. ground (arith, e, m)))
          (All-held P index.events r.event_ids (λ i e m. ground (arith, e, m))))
        (All-held P index.artifacts r.artifact_ids (λ i e m. ground (arith, e, m))))
      (All-weaken (IsValidEvidence index rs) P (λ i v. ground (arith, v))
        (get_valid_evidence index rs) (get_valid_evidence-IsValidEvidence index rs))

calculate_confidence-≤ :
    (base : ℕ) (s : MappingStatus)
    → (calculate_confidence base s ≤ base * 10) × (calculate_confidence base s ≤ 1000)
unfolding calculate_confidence
calculate_confidence-≤ base s = ground arith

-- What a mapping of the finding claims.
pub record IsJustified (m3_input : M3InvestigationInput) (finding : Finding) (m : MitreMapping)
    : Type 0 where
  pub has_telemetry :
      is_evidenced m3_input.telemetry_capabilities m.behavior_id m.technique_id ≡ true
  pub has_evidence : is_empty m.evidence_ids ≡ false
  pub valid_evidence :
      All (IsValidEvidence m3_input.evidence_index finding.evidence_references) m.evidence_ids
  pub no_more_certain : m.mapping_confidence ≤ finding.classification_confidence * 10
  pub at_most_one : m.mapping_confidence ≤ 1000

module _ (sha256_hex : String → String) (repo : MitreKnowledgeRepository) (t : TelemetryCapability)
    (id : String) (f : Finding) (evidence : List String) (behavior : String) where
  -- The candidates that are mapped, in their order.
  abbrev mapped : List Candidate → List Candidate
  mapped = select (λ c. is_evidenced t behavior c.id)

  technique_ids-map_candidate :
      (cs : List Candidate)
      → map
          (λ m. m.technique_id)
          (present (map (map_candidate sha256_hex repo t id f evidence behavior) cs))
        ≡ map (λ c. c.id) (mapped cs)
  unfolding map_candidate
  technique_ids-map_candidate [] = refl
  technique_ids-map_candidate (c ∷ cs) =
      ground
        (arith, technique_ids-map_candidate cs, evaluate_technique-is_evidenced t f behavior c.id)

  fields-map_candidate :
      (c : Candidate) (m : MitreMapping)
      → map_candidate sha256_hex repo t id f evidence behavior c ≡ some m
      → (is_mapped (evaluate_technique t f m.behavior_id m.technique_id).0 ≡ true)
        × (evidence ≡ m.evidence_ids)
        × (m.mapping_confidence ≡ calculate_confidence f.classification_confidence m.mapping_status)
  unfolding map_candidate
  fields-map_candidate c m e = ground (arith, e)

module _ (sha256_hex : String → String) (repo : MitreKnowledgeRepository)
    (m3_input : M3InvestigationInput) (id : String) (f : Finding) where
  abbrev evidence : List String
  evidence = get_valid_evidence m3_input.evidence_index f.evidence_references

  map_candidate-IsJustified :
      is_empty evidence ≡ false
      → (behavior : String) (c : Candidate) (m : MitreMapping)
      → map_candidate sha256_hex repo m3_input.telemetry_capabilities id f evidence behavior c
        ≡ some m
      → IsJustified m3_input f m
  map_candidate-IsJustified some_evidence behavior c m e =
      let t = m3_input.telemetry_capabilities in
      let (s, v, p) = fields-map_candidate sha256_hex repo t id f evidence behavior c m e in
      let bounds = calculate_confidence-≤ f.classification_confidence m.mapping_status in
      record {
        has_telemetry = sym (evaluate_technique-is_evidenced t f m.behavior_id m.technique_id) ∙ s;
        has_evidence = rw (sym v) some_evidence;
        valid_evidence =
            rw (sym v)
              (get_valid_evidence-IsValidEvidence m3_input.evidence_index f.evidence_references);
        no_more_certain = rw p bounds.0;
        at_most_one = rw p bounds.1;
      }

  map_found-IsJustified : All (IsJustified m3_input f) (map_found sha256_hex repo m3_input id f)
  unfolding map_found
  map_found-IsJustified =
      if_ind (All (IsJustified m3_input f)) (is_empty evidence) (λ e. tt)
        (λ e. by_behavior e (lookup f.activity_class repo.mappings_by_behavior))
    where
      by_behavior :
          is_empty evidence ≡ false
          → (o : Option BehaviorMapping)
          → All (IsJustified m3_input f) (elim o [
            | none ↦ []
            | some b ↦ present (
                map
                  (map_candidate sha256_hex repo m3_input.telemetry_capabilities id f evidence
                    b.behavior_id)
                  b.candidate_techniques)
          ])
      by_behavior e none = tt
      by_behavior e (some b) =
          All-present-map (IsJustified m3_input f) _ (map_candidate-IsJustified e b.behavior_id)
            b.candidate_techniques

  map_finding-of_found :
      lookup id m3_input.evidence_index.findings ≡ some f
      → map_finding sha256_hex repo m3_input id ≡ map_found sha256_hex repo m3_input id f
  unfolding map_finding
  map_finding-of_found found = ground (arith, found)

  map_found-of_known :
      (b : BehaviorMapping)
      → is_empty evidence ≡ false
      → lookup f.activity_class repo.mappings_by_behavior ≡ some b
      → map_found sha256_hex repo m3_input id f
        ≡ present (
            map
              (map_candidate sha256_hex repo m3_input.telemetry_capabilities id f evidence
                b.behavior_id)
              b.candidate_techniques)
  unfolding map_found
  map_found-of_known b some_evidence known = ground (arith, some_evidence, known)

  -- Every mapping of a finding is of a technique that the telemetry shows for its behavior; it has
  -- evidence, all of it named by the finding's references and held by the index; and its confidence
  -- is at most the finding's and at most 1.
  pub map_finding-IsJustified :
      lookup id m3_input.evidence_index.findings ≡ some f
      → All (IsJustified m3_input f) (map_finding sha256_hex repo m3_input id)
  map_finding-IsJustified found = rw (map_finding-of_found found) map_found-IsJustified

  -- A finding with evidence in the index and a behavior in the knowledge base is mapped to exactly
  -- the candidate techniques of the behavior that the telemetry shows, in their order.
  pub technique_ids-map_finding :
      (b : BehaviorMapping)
      → lookup id m3_input.evidence_index.findings ≡ some f
      → is_empty evidence ≡ false
      → lookup f.activity_class repo.mappings_by_behavior ≡ some b
      → map (λ m. m.technique_id) (map_finding sha256_hex repo m3_input id)
        ≡ map
            (λ c. c.id)
            (select
              (λ c. is_evidenced m3_input.telemetry_capabilities b.behavior_id c.id)
              b.candidate_techniques)
  technique_ids-map_finding b found some_evidence known =
      rw (map_finding-of_found found, map_found-of_known b some_evidence known)
        (technique_ids-map_candidate sha256_hex repo m3_input.telemetry_capabilities id f evidence
          b.behavior_id b.candidate_techniques)

pub map_finding-of_missing :
    (sha256_hex : String → String) (repo : MitreKnowledgeRepository)
    (m3_input : M3InvestigationInput) (id : String)
    → lookup id m3_input.evidence_index.findings ≡ none
    → map_finding sha256_hex repo m3_input id ≡ []
unfolding map_finding
map_finding-of_missing sha256_hex repo m3_input id missing = ground (arith, missing)
