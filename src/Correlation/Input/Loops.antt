-- ===== src/Correlation/Input/Loops.antt =====
-- When the checking loops of `M3InputAdapter.adapt` pass, and what they build.
use net_sleuth_ai.Shared.{
  String, ◌≡◌, refl, Bool, true, List, [], ◌∷◌, arith, Bool-cases, ok, ◌>>=◌, >>-eq-ok, Dict,
  member, insert, All, inl, inr,
}
use net_sleuth_ai.Correlation.Domain.{
  ProtocolEvent, EvidenceReference, Finding, TelemetryCapability, EvidenceIndex,
}
use net_sleuth_ai.Correlation.Input.{
  note_all, AdaptError, missing_flow, missing_event, missing_artifact, duplicate_finding,
  duplicate_event, index_by, index_events, check_ids, check_references, index_findings,
  note_protocol,
}

-- Each reference names only items that the three tests know.
abbrev pub Resolves :
    (String → Bool) → (String → Bool) → (String → Bool) → List EvidenceReference → Type 0
Resolves flow event artifact = All λ ref.
    All (λ i. flow i ≡ true) ref.flow_ids
    × All (λ i. event i ≡ true) ref.event_ids
    × All (λ i. artifact i ≡ true) ref.artifact_ids

module _ {ℓ} {V : Type ℓ} (missing : String → AdaptError) (index : Dict V) where
  check_ids-eq-ok :
      (ids : List String)
      → All (λ i. member i index ≡ true) ids
      → check_ids missing index ids ≡ ok tt
  unfolding check_ids
  check_ids-eq-ok [] h = refl
  check_ids-eq-ok (i ∷ ids) h = rw h.0 (check_ids-eq-ok ids h.1)

  check_ids-inv :
      (ids : List String)
      → check_ids missing index ids ≡ ok tt
      → All (λ i. member i index ≡ true) ids
  unfolding check_ids
  check_ids-inv [] h = tt
  check_ids-inv (i ∷ ids) h = elim (Bool-cases (member i index)) [
    | inl there ↦ (there, check_ids-inv ids (rw there at h))
    | inr absent ↦ absurd (ground arith)
  ]

module _ (index : EvidenceIndex) where
  abbrev pub InIndex : List EvidenceReference → Type 0
  InIndex =
      Resolves (λ i. member i index.flows) (λ i. member i index.events)
        (λ i. member i index.artifacts)

  check_references-eq-ok :
      (refs : List EvidenceReference) → InIndex refs → check_references index refs ≡ ok tt
  unfolding check_references
  check_references-eq-ok [] h = refl
  check_references-eq-ok (ref ∷ refs) h =
      rw
        (
          check_ids-eq-ok missing_flow index.flows ref.flow_ids h.0.0,
          check_ids-eq-ok missing_event index.events ref.event_ids h.0.1,
          check_ids-eq-ok missing_artifact index.artifacts ref.artifact_ids h.0.2,
        )
        (check_references-eq-ok refs h.1)

  check_references-inv :
      (refs : List EvidenceReference) → check_references index refs ≡ ok tt → InIndex refs
  unfolding check_references
  check_references-inv [] h = tt
  check_references-inv (ref ∷ refs) h =
      let (flows, h') = >>-eq-ok (check_ids missing_flow index.flows ref.flow_ids) _ h in
      let (events, h'') = >>-eq-ok (check_ids missing_event index.events ref.event_ids) _ h' in
      let (artifacts, rest) =
        >>-eq-ok (check_ids missing_artifact index.artifacts ref.artifact_ids) _ h'' in
      (
        (
          check_ids-inv missing_flow index.flows ref.flow_ids flows,
          check_ids-inv missing_event index.events ref.event_ids events,
          check_ids-inv missing_artifact index.artifacts ref.artifact_ids artifacts,
        ),
        check_references-inv refs rest,
      )

abbrev pub AllInIndex : EvidenceIndex → List Finding → Type 0
AllInIndex index = All (λ f. InIndex index f.evidence_references)

abbrev add_finding : EvidenceIndex → Finding → EvidenceIndex
add_finding index f = record index { findings = insert f.finding_id f index.findings }

-- The loop over the findings splits into the check of its keys and that of its references.
pub index_findings-eq :
    (fs : List Finding) (index : EvidenceIndex)
    → AllInIndex index fs
    → index_findings fs index ≡ (
        index_by (λ f. f.finding_id) duplicate_finding fs index.findings >>= λ d.
        ok (record index { findings = d }))
unfolding index_findings index_by
index_findings-eq [] index h = refl
index_findings-eq (f ∷ fs) index h =
    rw (check_references-eq-ok (add_finding index f) f.evidence_references h.0)
      (elim (Bool-cases (member f.finding_id index.findings)) [
        | inl old ↦ rw old refl
        | inr new ↦ rw new (index_findings-eq fs (add_finding index f) h.1)
      ])

pub index_findings-inv :
    (fs : List Finding) (index : EvidenceIndex) {index' : EvidenceIndex}
    → index_findings fs index ≡ ok index'
    → AllInIndex index fs
unfolding index_findings
index_findings-inv [] index h = tt
index_findings-inv (f ∷ fs) index h = elim (Bool-cases (member f.finding_id index.findings)) [
  | inl old ↦ absurd (ground arith)
  | inr new ↦
      let (refs, rest) =
        >>-eq-ok (check_references (add_finding index f) f.evidence_references)
          (index_findings fs (add_finding index f)) (rw new at h) in
      (
        check_references-inv (add_finding index f) f.evidence_references refs,
        index_findings-inv fs (add_finding index f) rest,
      )
]

pub index_events-eq :
    (es : List ProtocolEvent) (d : Dict ProtocolEvent) (t : TelemetryCapability)
    → index_events es d t
      ≡ (index_by (λ e. e.event_id) duplicate_event es d >>= λ d'. ok (d', note_all es t))
unfolding index_events index_by note_all
index_events-eq [] d t = refl
index_events-eq (e ∷ es) d t = elim (Bool-cases (member e.event_id d)) [
  | inl old ↦ rw old refl
  | inr new ↦ rw new (index_events-eq es (insert e.event_id e d) (note_protocol e.protocol t))
]
