-- ===== src/Correlation/Assembly/Evidence.antt =====
-- The evidence that the correlation phase declares for a case (backend/app/orchestrator/pipeline.py).
use net_sleuth_ai.Shared.{
  String, ◌||◌, List, [], ◌∷◌, ◌++◌, ◌==◌, eq_iff, ◌≡◌, refl, sym, arith, inl, inr, Bool-cases,
  elem, ok, >>=-eq-ok, >>-eq-ok, ok-injective,
}
use net_sleuth_ai.Correlation.Domain.{NetworkIntelligencePackage}
use net_sleuth_ai.Correlation.Entities.{CaseEvidence, make_evidence}
use net_sleuth_ai.Correlation.Input.Integrity.{flow_keys, event_keys, artifact_keys}
use net_sleuth_ai.Correlation.Assembly.{
  evidence, evidence_ids_of, declare_one, declare_all, declare_evidence,
}

make_evidence-eq-ok :
    (e : CaseEvidence) {made : CaseEvidence} → make_evidence e ≡ ok made → made ≡ e
unfolding make_evidence
make_evidence-eq-ok e h = sym (ok-injective (>>-eq-ok _ _ h).1)

elem-ids-append :
    (refs : List CaseEvidence) (e : CaseEvidence) (i : String)
    → elem i (evidence_ids_of (refs ++ e ∷ []))
      ≡ (e.evidence_id == i || elem i (evidence_ids_of refs))
elem-ids-append [] e i = refl
elem-ids-append (r ∷ refs) e i = ground (arith, elem-ids-append refs e i)

declare_one-ids :
    (type id : String) (refs : List CaseEvidence) {refs' : List CaseEvidence}
    → declare_one type id refs ≡ ok refs'
    → (i : String) → elem i (evidence_ids_of refs') ≡ (id == i || elem i (evidence_ids_of refs))
unfolding declare_one
declare_one-ids type id refs {refs'} = elim (Bool-cases (elem id (evidence_ids_of refs))) [
  | inl old ↦ rw old (λ h i. rw (← ok-injective h) (ground (arith, old, eq_iff id i)))
  | inr new ↦ rw new (λ h i.
      let (made, e, k) = >>=-eq-ok (make_evidence (evidence type id)) _ h in
      let same = make_evidence-eq-ok (evidence type id) e in
      rw (← ok-injective k, same) (elem-ids-append refs (evidence type id) i))
]

declare_all-ids :
    (type : String) (ids : List String) (refs : List CaseEvidence) {refs' : List CaseEvidence}
    → declare_all type ids refs ≡ ok refs'
    → (i : String) → elem i (evidence_ids_of refs') ≡ (elem i ids || elem i (evidence_ids_of refs))
unfolding declare_all
declare_all-ids type [] refs h i = ground (arith, h)
declare_all-ids type (id ∷ ids) refs h i =
    let (refs1, first, rest) = >>=-eq-ok (declare_one type id refs) _ h in
    ground (arith, declare_one-ids type id refs first i, declare_all-ids type ids refs1 rest i)

-- What is declared for a case are the flows, the events and the artifacts of the package.
pub declare_evidence-ids :
    (m1 : NetworkIntelligencePackage) (refs : List CaseEvidence)
    → declare_evidence m1 ≡ ok refs
    → (i : String)
    → elem i (evidence_ids_of refs)
      ≡ (elem i (flow_keys m1) || elem i (event_keys m1) || elem i (artifact_keys m1))
unfolding declare_evidence
declare_evidence-ids m1 refs h i =
    let (r1, e1, h1) = >>=-eq-ok (declare_all "flow" (flow_keys m1) []) _ h in
    let (r2, e2, h2) = >>=-eq-ok (declare_all "session" (event_keys m1) r1) _ h1 in
    ground (
      arith,
      declare_all-ids "flow" (flow_keys m1) [] e1 i,
      declare_all-ids "session" (event_keys m1) r1 e2 i,
      declare_all-ids "artifact" (artifact_keys m1) r2 h2 i,
    )
