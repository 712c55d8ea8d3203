-- ===== src/Correlation/CaseBuilder/AttackChain/Stages.antt =====
-- The stages of an attack chain (`_build_attack_chain` of backend/app/engines/correlation/
-- investigation/case_builder.py): their order, their number and the events that they name.
use net_sleuth_ai.Shared.{
  String, Bool, true, false, not, ◌&&◌, List, [], ◌∷◌, map, ◌==◌, eq_iff, ◌≡◌, refl, arith, inl,
  inr, if◌then◌else◌, Bool-cases, any, elem, select, is_empty, is_empty-select, select-of_none,
  count, count-sort_by, text_leb-total, sort_by, Ordered, sort_by-Ordered, Distinct, if_ind, All,
}
use net_sleuth_ai.Correlation.Domain.{Timestamp}
use net_sleuth_ai.Correlation.Mitre.{MitreMapping}
use net_sleuth_ai.Correlation.Investigation.Context.{TimelineEvent}
use net_sleuth_ai.Correlation.CaseBuilder.Document.{Stage, Chain}
use net_sleuth_ai.Correlation.CaseBuilder.AttackChain.{
  qualifies, shares, unique, stage_events, key_of, stage_leb, stage, build_attack_chain,
}

-- A text of `unique` is new, and each stands once.
unique-Distinct :
    (ids seen : List String)
    → Distinct (unique ids seen)
      × ((i : String) → elem i seen ≡ true → elem i (unique ids seen) ≡ false)
unfolding unique
unique-Distinct [] seen = (tt, λ i h. refl)
unique-Distinct (i ∷ ids) seen =
    let (d, fresh) = unique-Distinct ids (i ∷ seen) in
    elim (Bool-cases (elem i seen)) [
      | inl old ↦ rw old (unique-Distinct ids seen)
      | inr new ↦ rw new (
        (fresh i (ground (arith, eq_iff i i)), d),
        λ j h. ground (arith, h, new, fresh j, eq_iff i j),
      )
    ]

elem-unique :
    (ids seen : List String) (i : String)
    → elem i (unique ids seen) ≡ (elem i ids && not (elem i seen))
unfolding unique
elem-unique [] seen i = refl
elem-unique (j ∷ ids) seen i =
    ground (arith, elem-unique ids seen i, elem-unique ids (j ∷ seen) i, eq_iff j i)

elem-map_id :
    (id : String) (p : TimelineEvent → Bool) (events : List TimelineEvent)
    → elem id (map (λ t. t.event_id) (select p events)) ≡ any (λ t. t.event_id == id && p t) events
elem-map_id id p [] = refl
elem-map_id id p (t ∷ ts) = ground (arith, elem-map_id id p ts)

-- A stage names each event that shares evidence with its mapping, once, and no other.
pub stage_events-exactly :
    (events : List TimelineEvent) (m : MitreMapping)
    → Distinct (stage_events events m)
      × ((id : String)
          → elem id (stage_events events m) ≡ any (λ t. t.event_id == id && shares m t) events)
unfolding stage_events
stage_events-exactly events m =
    let ids = map (λ t. t.event_id) (select (shares m) events) in
    (
      (unique-Distinct ids []).0,
      λ id. ground (arith, elem-unique ids [] id, elem-map_id id (shares m) events),
    )

module _ (isoformat : Timestamp → String) where
  stage_leb-total :
      (a b : MitreMapping) → stage_leb isoformat a b ≡ false → stage_leb isoformat b a ≡ true
  unfolding stage_leb
  stage_leb-total a b h =
      let t1 = key_of isoformat a.first_seen in
      let u1 = key_of isoformat b.first_seen in
      let t2 = key_of isoformat a.last_seen in
      let u2 = key_of isoformat b.last_seen in
      ground (
        arith,
        h,
        eq_iff t1 u1,
        eq_iff u1 t1,
        eq_iff t2 u2,
        eq_iff u2 t2,
        text_leb-total t1 u1,
        text_leb-total t2 u2,
        text_leb-total a.technique_id b.technique_id,
      )

  -- The stages of a chain are those of the mappings whose status is SUPPORTED, PARTIAL or POTENTIAL,
  -- as often, in the order of first and last time and technique. The status is "none" if there is
  -- no such mapping and "potential" otherwise.
  pub build_attack_chain-IsOrdered :
      (events : List TimelineEvent) (mappings : List MitreMapping)
      → (ordered : List MitreMapping) × ((build_attack_chain isoformat events mappings).stages
          ≡ map (stage isoformat events) ordered)
        × Ordered (stage_leb isoformat) ordered
        × ((p : MitreMapping → Bool) → count p ordered ≡ count p (select qualifies mappings))
        × ((build_attack_chain isoformat events mappings).status
            ≡ (if any qualifies mappings then "potential" else "none"))
  unfolding build_attack_chain
  build_attack_chain-IsOrdered events mappings =
      let qualifying = select qualifies mappings in
      let le = stage_leb isoformat in
      let order = sort_by-Ordered le stage_leb-total qualifying in
      elim (Bool-cases (any qualifies mappings)) [
        | inl some_pass ↦
            let full = is_empty-select qualifies mappings some_pass in
            rw (some_pass, full)
              (sort_by le qualifying, refl, order, λ p. count-sort_by le p qualifying, refl)
        | inr none_pass ↦
            let empty = select-of_none qualifies mappings none_pass in
            rw (none_pass, empty) ([], refl, tt, λ p. refl, refl)
      ]

any-elem_nothing : (ids : List String) → any (λ i. elem i []) ids ≡ false
any-elem_nothing [] = refl
any-elem_nothing (i ∷ ids) = any-elem_nothing ids

select-shares_nothing :
    (m : MitreMapping) (events : List TimelineEvent)
    → All (λ t. t.evidence_ids ≡ []) events
    → select (shares m) events ≡ []
select-shares_nothing m [] h = refl
select-shares_nothing m (t ∷ ts) h =
    let nothing : shares m t ≡ false = rw h.0 (any-elem_nothing m.evidence_ids) in
    ground (arith, nothing, select-shares_nothing m ts h.1)

-- No stage names an event if no event has evidence.
pub build_attack_chain-eventless :
    (isoformat : Timestamp → String) (events : List TimelineEvent) (mappings : List MitreMapping)
    → All (λ t. t.evidence_ids ≡ []) events
    → All (λ s. s.event_ids ≡ []) (build_attack_chain isoformat events mappings).stages
unfolding build_attack_chain stage stage_events unique
build_attack_chain-eventless isoformat events mappings h =
    if_ind (λ (c : Chain). All (λ (s : Stage). s.event_ids ≡ []) c.stages)
      (is_empty (select qualifies mappings)) (λ _. tt)
      (λ _. each (sort_by (stage_leb isoformat) (select qualifies mappings)))
  where
    each :
        (ms : List MitreMapping)
        → All (λ (s : Stage). s.event_ids ≡ []) (map (stage isoformat events) ms)
    each [] = tt
    each (m ∷ ms) = (rw (select-shares_nothing m events h) refl, each ms)
