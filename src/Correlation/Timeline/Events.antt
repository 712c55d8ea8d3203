-- ===== src/Correlation/Timeline/Events.antt =====
-- Which protocol events `TimelineReconstructor.reconstruct` shows: the loop with its set of keys
-- against a description without one.
use net_sleuth_ai.Shared.{
  String, Bool, true, not, ◌&&◌, Option, none, some, List, [], ◌∷◌, map, ◌==◌, eq_iff, ◌≡◌, refl,
  ◌∙◌, ap, arith, inl, inr, Bool-cases, elem, select, select-select, select-of_eq, present, All,
  All-append, All-sort_by, ◌++◌, ok, ok-injective, >>-eq-ok,
}
use net_sleuth_ai.Correlation.Domain.{
  Timestamp, ProtocolEvent, NetworkIntelligencePackage, FindingsPackage,
}
use net_sleuth_ai.Correlation.Investigation.Context.{TimelineEvent}
use net_sleuth_ai.Correlation.Observations.{Observation, observed}
use net_sleuth_ai.Correlation.Timeline.{
  finding_event, protocol_event, artifact_event, unless_seen, protocol_timeline, key_leb, gathered,
  reconstruct,
}

abbrev pub other_key : String → Observation → Bool
other_key k o = not (o.dedupe_key == k)

-- The observations without those whose key an earlier one has.
unfoldable pub firsts : List Observation → List Observation
firsts [] = []
firsts (o ∷ os) = o ∷ select (other_key o.dedupe_key) (firsts os)

abbrev unseen : List String → Observation → Bool
unseen seen o = not (elem o.dedupe_key seen)

unseen_cons :
    (seen : List String) (o p : Observation)
    → (unseen seen p && other_key o.dedupe_key p) ≡ unseen (o.dedupe_key ∷ seen) p
unseen_cons seen o p =
    ground (arith, eq_iff p.dedupe_key o.dedupe_key, eq_iff o.dedupe_key p.dedupe_key)

-- A key that is seen is not the key of what is unseen.
unseen_other :
    (seen : List String) (o : Observation)
    → elem o.dedupe_key seen ≡ true
    → (p : Observation) → (unseen seen p && other_key o.dedupe_key p) ≡ unseen seen p
unseen_other seen o h p = ground (arith, h, eq_iff p.dedupe_key o.dedupe_key)

protocol_timeline-unseen :
    (es : List ProtocolEvent) (seen : List String)
    → protocol_timeline es seen
      ≡ map protocol_event (select (unseen seen) (firsts (present (map observed es))))
unfolding protocol_timeline firsts
protocol_timeline-unseen [] seen = refl
protocol_timeline-unseen (e ∷ es) seen = by_case (protocol_timeline-unseen es) (observed e)
  where
    rest : List Observation
    rest = firsts (present (map observed es))

    by_case :
        ((s : List String) → protocol_timeline es s ≡ map protocol_event (select (unseen s) rest))
        → (o : Option Observation)
        → unless_seen seen o (protocol_timeline es)
          ≡ map protocol_event (select (unseen seen) (firsts (present (o ∷ map observed es))))
    by_case ih none = ih seen
    by_case ih (some o) =
        let fuse = select-select (unseen seen) (other_key o.dedupe_key) rest in
        let both = λ (p : Observation). unseen seen p && other_key o.dedupe_key p in
        elim (Bool-cases (elem o.dedupe_key seen)) [
          | inl old ↦ ground (
            arith,
            old,
            fuse,
            select-of_eq both (unseen seen) (unseen_other seen o old) rest,
            ih seen,
          )
          | inr new ↦ ground (
            arith,
            new,
            fuse,
            select-of_eq both (unseen (o.dedupe_key ∷ seen)) (unseen_cons seen o) rest,
            ih (o.dedupe_key ∷ seen),
          )
        ]

select-of_nothing : (os : List Observation) → select (unseen []) os ≡ os
select-of_nothing [] = refl
select-of_nothing (o ∷ os) = ap (λ ts. o ∷ ts) (select-of_nothing os)

-- The loop shows each protocol event that is worth showing whose key no earlier one has, in their
-- order, and nothing else.
pub protocol_timeline-firsts :
    (es : List ProtocolEvent)
    → protocol_timeline es [] ≡ map protocol_event (firsts (present (map observed es)))
protocol_timeline-firsts es =
    protocol_timeline-unseen es []
    ∙ ap (map protocol_event) (select-of_nothing (firsts (present (map observed es))))

-- No event that the reconstruction makes has evidence identifiers.
abbrev pub HasNoEvidence : TimelineEvent → Type 0
HasNoEvidence t = t.evidence_ids ≡ []

All-map_any {ℓ} :
    {A : Type ℓ} (f : A → TimelineEvent)
    → ((a : A) → HasNoEvidence (f a))
    → (xs : List A) → All HasNoEvidence (map f xs)
All-map_any f h [] = tt
All-map_any f h (x ∷ xs) = (h x, All-map_any f h xs)

pub reconstruct-HasNoEvidence :
    (now : Timestamp) (m1 : NetworkIntelligencePackage) (m2 : FindingsPackage)
    (events : List TimelineEvent)
    → reconstruct now m1 m2 ≡ ok events
    → All HasNoEvidence events
unfolding reconstruct gathered finding_event protocol_event artifact_event
reconstruct-HasNoEvidence now m1 m2 events h =
    let found = map (finding_event now m1.flows) m2.findings in
    let shown = protocol_timeline m1.protocol_events [] in
    let arts = map (artifact_event now) m1.artifacts in
    let all : All HasNoEvidence (found ++ (shown ++ arts)) =
      All-append HasNoEvidence found _ (All-map_any _ (λ f. refl) m2.findings) (
        All-append HasNoEvidence shown arts
          (rw (protocol_timeline-firsts m1.protocol_events) (All-map_any _ (λ o. refl) _))
          (All-map_any _ (λ a. refl) m1.artifacts)) in
    let same = ok-injective (>>-eq-ok _ _ h).1 in
    rw (← same) (All-sort_by key_leb HasNoEvidence _ all)
