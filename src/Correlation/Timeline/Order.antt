-- ===== src/Correlation/Timeline/Order.antt =====
-- The timeline that `TimelineReconstructor.reconstruct` returns: its order and its contents.
use net_sleuth_ai.Shared.{
  ◌+◌, String, Bool, true, false, Option, none, some, List, [], ◌∷◌, ◌++◌, map, ◌≡◌, refl, arith,
  ltb, text_leb-total, any, any-append, elem, if_ind, count, count-append, count-sort_by, All, ap,
  present, sort_by, Ordered, sort_by-Ordered, ok,
}
use net_sleuth_ai.Correlation.Domain.{
  Timestamp, Flow, ProtocolEvent, Artifact, NetworkIntelligencePackage, Finding, FindingsPackage,
}
use net_sleuth_ai.Correlation.Investigation.Context.{TimelineEvent}
use net_sleuth_ai.Correlation.Observations.{Observation, observed}
use net_sleuth_ai.Correlation.Timeline.{
  flow_refs, earliest_flow, finding_ts, finding_event, protocol_event, unless_seen,
  protocol_timeline, artifact_event, reference, key_leb, is_naive, gathered, reconstruct,
}
use net_sleuth_ai.Correlation.Timeline.Events.{firsts, protocol_timeline-firsts}

pub key_leb-total : (a b : TimelineEvent) → key_leb a b ≡ false → key_leb b a ≡ true
unfolding key_leb
key_leb-total a b h = ground (arith, h, text_leb-total (reference a) (reference b))

abbrev pub IsAware : Timestamp → Type 0
IsAware t = t.tz_aware ≡ true

abbrev Aware? : Option Timestamp → Type 0
Aware? none = Unit
Aware? (some t) = IsAware t

module _ (now : Timestamp) (aware_now : IsAware now) where
  earliest_flow-Aware :
      (ids : List String) (fs : List Flow) (earliest : Option Timestamp)
      → All (λ f. IsAware f.timestamp) fs
      → Aware? earliest
      → Aware? (earliest_flow ids fs earliest)
  unfolding earliest_flow
  earliest_flow-Aware ids [] earliest h k = k
  earliest_flow-Aware ids (f ∷ fs) none h k =
      earliest_flow-Aware ids fs _ h.1 (if_ind Aware? (elem f.flow_id ids) (λ _. h.0) (λ _. k))
  earliest_flow-Aware ids (f ∷ fs) (some t) h k = earliest_flow-Aware ids fs _ h.1 (
      if_ind Aware? (elem f.flow_id ids)
        (λ _. if_ind Aware? (ltb f.timestamp.moment t.moment) (λ _. h.0) (λ _. k)) (λ _. k))

  or_now : (o : Option Timestamp) → Aware? o → IsAware (elim o [ none ↦ now | some t ↦ t ])
  or_now none h = aware_now
  or_now (some t) h = h

  findings-aware :
      (flows : List Flow) (fs : List Finding)
      → All (λ f. IsAware f.timestamp) flows
      → any is_naive (map (finding_event now flows) fs) ≡ false
  unfolding finding_event finding_ts
  findings-aware flows [] h = refl
  findings-aware flows (f ∷ fs) h =
      let aware =
        or_now _ (earliest_flow-Aware (flow_refs f.evidence_references) flows none h tt) in
      ground (arith, aware, findings-aware flows fs h)

  artifacts-aware : (arts : List Artifact) → any is_naive (map (artifact_event now) arts) ≡ false
  unfolding artifact_event
  artifacts-aware [] = refl
  artifacts-aware (a ∷ arts) = ground (arith, artifacts-aware arts)

event-observed : (e : ProtocolEvent) (o : Observation) → observed e ≡ some o → o.event ≡ e
unfolding observed
event-observed e o h = ground (arith, h)

protocol_timeline-aware :
    (es : List ProtocolEvent) (seen : List String)
    → All (λ e. IsAware e.timestamp) es
    → any is_naive (protocol_timeline es seen) ≡ false
unfolding protocol_timeline protocol_event
protocol_timeline-aware [] seen h = refl
protocol_timeline-aware (e ∷ es) seen h =
    kept (observed e) (event-observed e) (λ s. protocol_timeline-aware es s h.1)
  where
    kept :
        (o : Option Observation)
        → ((p : Observation) → o ≡ some p → p.event ≡ e)
        → ((s : List String) → any is_naive (protocol_timeline es s) ≡ false)
        → any is_naive (unless_seen seen o (protocol_timeline es)) ≡ false
    kept none k ih = ih seen
    kept (some p) k ih = ground (
      arith,
      ap (λ (a : ProtocolEvent). a.timestamp.tz_aware) (k p refl),
      h.0,
      ih seen,
      ih (p.dedupe_key ∷ seen),
    )

-- If the clock, the flows and the events carry time zones, a timeline is returned. It is in the
-- order of time, priority and reference, and what stands in it, as often, are one event for each
-- finding, one for each artifact, and one for each protocol event that is worth showing whose key
-- no earlier one has.
pub reconstruct-IsComplete :
    (now : Timestamp) (m1 : NetworkIntelligencePackage) (m2 : FindingsPackage)
    → IsAware now
    → All (λ f. IsAware f.timestamp) m1.flows
    → All (λ e. IsAware e.timestamp) m1.protocol_events
    → (events : List TimelineEvent) × (reconstruct now m1 m2 ≡ ok events)
      × Ordered key_leb events
      × ((p : TimelineEvent → Bool)
          → count p events
            ≡ count p (map (finding_event now m1.flows) m2.findings)
              + (count p (map protocol_event (firsts (present (map observed m1.protocol_events))))
                  + count p (map (artifact_event now) m1.artifacts)))
unfolding reconstruct gathered
reconstruct-IsComplete now m1 m2 aware flows events =
    let found = map (finding_event now m1.flows) m2.findings in
    let shown = protocol_timeline m1.protocol_events [] in
    let arts = map (artifact_event now) m1.artifacts in
    let all_aware : any is_naive (found ++ (shown ++ arts)) ≡ false = ground (
      arith,
      any-append is_naive found (shown ++ arts),
      any-append is_naive shown arts,
      findings-aware now aware m1.flows m2.findings flows,
      protocol_timeline-aware m1.protocol_events [] events,
      artifacts-aware now aware m1.artifacts,
    ) in
    (
      sort_by key_leb (found ++ (shown ++ arts)),
      rw all_aware refl,
      sort_by-Ordered key_leb key_leb-total (found ++ (shown ++ arts)),
      λ p. rw (← protocol_timeline-firsts m1.protocol_events) (
          omega (
            arith,
            count-sort_by key_leb p (found ++ (shown ++ arts)),
            count-append p found (shown ++ arts),
            count-append p shown arts,
          )),
    )
