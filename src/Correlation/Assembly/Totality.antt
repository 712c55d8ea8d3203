-- ===== src/Correlation/Assembly/Totality.antt =====
-- When the correlation phase of `run_pipeline_from_m1` (backend/app/orchestrator/pipeline.py)
-- assembles its context.
use net_sleuth_ai.Shared.{
  ◌≤◌, String, true, false, not, Option, none, some, List, [], ◌∷◌, ◌++◌, ◌==◌, ◌≡◌, refl, arith,
  inl, inr, Bool-cases, elem, All, All-append, All-map, Result, ok, if_ind, ltb,
}
use net_sleuth_ai.Correlation.Domain.{
  Timestamp, Flow, ProtocolEvent, Artifact, Finding, NetworkIntelligencePackage, FindingsPackage,
}
use net_sleuth_ai.Correlation.Entities.{
  Entity, CaseEvidence, FindingReference, DomainError, check_entity_id, make_entity, make_evidence,
  make_finding,
}
use net_sleuth_ai.Correlation.Entities.Identifiers.{colonless, check_entity_id-of_parts}
use net_sleuth_ai.Correlation.Rules.{is_entity}
use net_sleuth_ai.Correlation.Observations.{dns_query, tls_sni}
use net_sleuth_ai.Correlation.Assembly.{
  evidence, evidence_ids_of, declare_one, declare_all, declare_evidence, entity, of_domain,
  entities_of_flows, entities_of_events, candidates, add_one, add_new, finding_reference,
  refer_findings,
}

abbrev pub IsNonempty : String → Type 0
IsNonempty s = (s == "") ≡ false

-- The identifiers and addresses are not empty, and the confidences are at most 1.
pub record IsIdentified (m1 : NetworkIntelligencePackage) (m2 : FindingsPackage) : Type 0 where
  pub flows :
      All
        (λ (f : Flow). IsNonempty f.flow_id × IsNonempty f.source.ip × IsNonempty f.destination.ip)
        m1.flows
  pub events : All (λ (e : ProtocolEvent). IsNonempty e.event_id) m1.protocol_events
  pub artifacts : All (λ (a : Artifact). IsNonempty a.artifact_id) m1.artifacts
  pub findings :
      All
        (λ (f : Finding). IsNonempty f.finding_id × (f.classification_confidence ≤ 100))
        m2.findings

abbrev pub Returns : (A : Type 0) → Result DomainError A → Type 0
Returns A r = (a : A) × (r ≡ ok a)

declare_one-Returns :
    (type id : String) (refs : List CaseEvidence)
    → IsNonempty id
    → make_evidence (evidence type id) ≡ ok (evidence type id)
    → Returns (List CaseEvidence) (declare_one type id refs)
unfolding declare_one
declare_one-Returns type id refs named made = elim (Bool-cases (elem id (evidence_ids_of refs))) [
  | inl old ↦ (refs, rw old refl)
  | inr new ↦ (refs ++ evidence type id ∷ [], rw (new, made) refl)
]

-- Any identifier of a type that the class allows.
abbrev Allows : String → Type 0
Allows type =
    (id : String) → IsNonempty id → make_evidence (evidence type id) ≡ ok (evidence type id)

declare_all-Returns :
    (type : String) (ids : List String) (refs : List CaseEvidence)
    → Allows type
    → All IsNonempty ids
    → Returns (List CaseEvidence) (declare_all type ids refs)
unfolding declare_all
declare_all-Returns type [] refs allowed h = (refs, refl)
declare_all-Returns type (id ∷ ids) refs allowed h =
    let (refs1, e) = declare_one-Returns type id refs h.0 (allowed id h.0) in
    let (refs2, f) = declare_all-Returns type ids refs1 allowed h.1 in (refs2, rw e f)

allows : Allows "flow" × Allows "session" × Allows "artifact"
unfolding make_evidence
allows = (λ id h. rw h refl, λ id h. rw h refl, λ id h. rw h refl)

pub declare_evidence-Returns :
    (m1 : NetworkIntelligencePackage) (m2 : FindingsPackage)
    → IsIdentified m1 m2
    → Returns (List CaseEvidence) (declare_evidence m1)
unfolding declare_evidence
declare_evidence-Returns m1 m2 named =
    let flows = All-map _ IsNonempty (λ (f : Flow). f.flow_id) (λ f h. h.0) m1.flows named.flows in
    let events =
      All-map _ IsNonempty (λ (e : ProtocolEvent). e.event_id) (λ e h. h) m1.protocol_events
        named.events in
    let arts =
      All-map _ IsNonempty (λ (a : Artifact). a.artifact_id) (λ a h. h) m1.artifacts
        named.artifacts in
    let (r1, e1) = declare_all-Returns "flow" _ [] allows.0 flows in
    let (r2, e2) = declare_all-Returns "session" _ r1 allows.1 events in
    let (r3, e3) = declare_all-Returns "artifact" _ r2 allows.2 arts in (r3, rw (e1, e2, e3) refl)

abbrev pub IsAccepted : Entity → Type 0
IsAccepted e = check_entity_id e.entity_id ≡ ok tt

add_one-Returns :
    (e : Entity) (es : List Entity) → IsAccepted e → Returns (List Entity) (add_one e es)
unfolding add_one make_entity
add_one-Returns e es h = elim (Bool-cases (is_entity es e.entity_id)) [
  | inl old ↦ (es, rw old refl)
  | inr new ↦ (es ++ e ∷ [], rw (new, h) refl)
]

pub add_new-Returns :
    (new es : List Entity) → All IsAccepted new → Returns (List Entity) (add_new new es)
unfolding add_new
add_new-Returns [] es h = (es, refl)
add_new-Returns (e ∷ new) es h =
    let (es1, p) = add_one-Returns e es h.0 in
    let (es2, q) = add_new-Returns new es1 h.1 in (es2, rw p q)

entity-IsAccepted :
    (type id value : String) (seen : Option Timestamp)
    → colonless type ≡ true
    → IsNonempty type
    → IsNonempty id
    → IsAccepted (entity type id value seen)
entity-IsAccepted type id value seen plain typed named =
    check_entity_id-of_parts type id plain typed named

entities_of_flows-IsAccepted :
    (fs : List Flow)
    → All (λ f. IsNonempty f.flow_id × IsNonempty f.source.ip × IsNonempty f.destination.ip) fs
    → All IsAccepted (entities_of_flows fs)
unfolding entities_of_flows colonless
entities_of_flows-IsAccepted [] h = tt
entities_of_flows-IsAccepted (f ∷ fs) h = (
  entity-IsAccepted "ip" f.source.ip f.source.ip (some f.timestamp) refl refl h.0.1,
  (
    entity-IsAccepted "ip" f.destination.ip f.destination.ip (some f.timestamp) refl refl h.0.2,
    entities_of_flows-IsAccepted fs h.1,
  ),
)

of_domain-IsAccepted : (t : Timestamp) (name : Option String) → All IsAccepted (of_domain t name)
unfolding colonless
of_domain-IsAccepted t none = tt
of_domain-IsAccepted t (some n) =
    if_ind (All IsAccepted) (not (n == ""))
      (λ h. (entity-IsAccepted "domain" n n (some t) refl refl (ground (arith, h)), tt)) (λ h. tt)

entities_of_events-IsAccepted : (es : List ProtocolEvent) → All IsAccepted (entities_of_events es)
unfolding entities_of_events
entities_of_events-IsAccepted [] = tt
entities_of_events-IsAccepted (e ∷ es) =
    All-append IsAccepted _ _
      (if_ind (All IsAccepted) (e.protocol == "dns")
        (λ d. of_domain-IsAccepted e.timestamp (dns_query e.protocol_data))
        (λ d.
          if_ind (All IsAccepted) (e.protocol == "tls")
            (λ t. of_domain-IsAccepted e.timestamp (tls_sni e.protocol_data)) (λ t. tt)))
      (entities_of_events-IsAccepted es)

pub candidates-IsAccepted :
    (m1 : NetworkIntelligencePackage) (m2 : FindingsPackage)
    → IsIdentified m1 m2
    → All IsAccepted (candidates m1 m2)
unfolding candidates colonless
candidates-IsAccepted m1 m2 named =
    All-append IsAccepted _ _ (entities_of_flows-IsAccepted m1.flows named.flows) (
      All-append IsAccepted _ _ (entities_of_events-IsAccepted m1.protocol_events) (
        All-append IsAccepted _ _
          (All-map _ IsAccepted (λ (a : Artifact). entity "artifact" a.artifact_id a.value none)
            (λ a h. entity-IsAccepted "artifact" a.artifact_id a.value none refl refl h)
            m1.artifacts named.artifacts)
          (All-map _ IsAccepted
            (λ (f : Finding). entity "finding" f.finding_id f.activity_class none)
            (λ f h. entity-IsAccepted "finding" f.finding_id f.activity_class none refl refl h.0)
            m2.findings named.findings)))

make_finding-of_named :
    (f : Finding)
    → IsNonempty f.finding_id × (f.classification_confidence ≤ 100)
    → make_finding (finding_reference f) ≡ ok (finding_reference f)
unfolding make_finding finding_reference
make_finding-of_named f h =
    let low : ltb 100 f.classification_confidence ≡ false = ground (arith, h.1) in
    rw (h.0, low) refl

pub refer_findings-Returns :
    (fs : List Finding)
    → All (λ f. IsNonempty f.finding_id × (f.classification_confidence ≤ 100)) fs
    → Returns (List FindingReference) (refer_findings fs)
unfolding refer_findings
refer_findings-Returns [] h = ([], refl)
refer_findings-Returns (f ∷ fs) h =
    let (rs, e) = refer_findings-Returns fs h.1 in
    (finding_reference f ∷ rs, rw (make_finding-of_named f h.0, e) refl)
