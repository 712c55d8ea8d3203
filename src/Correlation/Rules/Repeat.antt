-- ===== src/Correlation/Rules/Repeat.antt =====
-- The ends of the relationships that `apply_rules` leaves, and running the rules again.
use net_sleuth_ai.Shared.{
  String, true, ◌||◌, List, [], ◌∷◌, map, ◌==◌, eq_iff, ◌≡◌, refl, arith, any, any-append, select,
  All, All-append, All-weaken, All-both, All-select, Ordered, All-select_self, All-elem-map,
  select-of_All, append-nil, sort_by-Ordered, sort_by-of_Ordered, if_ind,
}
use net_sleuth_ai.Correlation.Entities.{Entity, Relationship, InvestigationContext}
use net_sleuth_ai.Correlation.Rules.{
  Link, is_link, relation_exists, add_rel, add_rels, of_type, link, communications, pairs,
  associations, rule_links, is_entity, is_anchored, no_later, apply_rules,
}
use net_sleuth_ai.Correlation.Rules.Graph.{proposes, exists-add_rel}

module _ (entities : List Entity) where
  abbrev IsNamed : Entity → Type 0
  IsNamed e = is_entity entities e.entity_id ≡ true

  abbrev Joins : Link → Type 0
  Joins l = (is_entity entities l.src ≡ true) × (is_entity entities l.tgt ≡ true)

  abbrev pub IsAnchored : Relationship → Type 0
  IsAnchored r = is_anchored entities r ≡ true

  of_type-IsNamed : (type : String) → All IsNamed (of_type type entities)
  of_type-IsNamed type =
      All-select IsNamed (λ e. e.entity_type == type) entities
        (All-elem-map (λ e. e.entity_id) entities)

  map-link-Joins :
      (rel_type reason : String) (a : Entity) (ys : List Entity)
      → IsNamed a
      → All IsNamed ys
      → All Joins (map (link rel_type reason a) ys)
  map-link-Joins rel_type reason a [] h k = tt
  map-link-Joins rel_type reason a (y ∷ ys) h k =
      ((h, k.0), map-link-Joins rel_type reason a ys h k.1)

  pairs-Joins :
      (rel_type reason : String) (xs ys : List Entity)
      → All IsNamed xs
      → All IsNamed ys
      → All Joins (pairs (link rel_type reason) xs ys)
  unfolding pairs
  pairs-Joins rel_type reason [] ys h k = tt
  pairs-Joins rel_type reason (x ∷ xs) ys h k =
      All-append Joins _ _ (map-link-Joins rel_type reason x ys h.0 k)
        (pairs-Joins rel_type reason xs ys h.1 k)

  associations-Joins :
      (fs ips domains : List Entity)
      → All IsNamed fs
      → All IsNamed ips
      → All IsNamed domains
      → All Joins (associations fs ips domains)
  unfolding associations
  associations-Joins [] ips domains h k m = tt
  associations-Joins (f ∷ fs) ips domains h k m =
      All-append Joins _ _ (map-link-Joins _ _ f ips h.0 k) (
        All-append Joins _ _ (map-link-Joins _ _ f domains h.0 m)
          (associations-Joins fs ips domains h.1 k m))

  communications-Joins : (ips : List Entity) → All IsNamed ips → All Joins (communications ips)
  unfolding communications
  communications-Joins [] h = tt
  communications-Joins (first ∷ ips) h = map-link-Joins _ _ first ips h.0 h.1

  rule_links-Joins : All Joins (rule_links entities)
  unfolding rule_links
  rule_links-Joins =
      let ips = of_type-IsNamed "ip" in
      let domains = of_type-IsNamed "domain" in
      All-append Joins _ _ (communications-Joins _ ips) (
        All-append Joins _ _ (pairs-Joins _ _ _ _ ips domains) (
          All-append Joins _ _ (pairs-Joins _ _ _ _ ips (of_type-IsNamed "artifact"))
            (associations-Joins _ _ _ (of_type-IsNamed "finding") ips domains)))

  add_rels-IsAnchored :
      (old : List Relationship) (ls : List Link) (new : List Relationship)
      → All Joins ls
      → All IsAnchored new
      → All IsAnchored (add_rels old ls new)
  unfolding add_rels add_rel
  add_rels-IsAnchored old [] new h k = k
  add_rels-IsAnchored old (l ∷ ls) new h k = add_rels-IsAnchored old ls (add_rel old l new) h.1 (
      if_ind (All IsAnchored) (relation_exists old new l.src l.tgt l.rel_type) (λ _. k)
        (λ _. All-append IsAnchored new _ k (ground (arith, h.0), tt)))

  -- A relationship between entities is not lost with those that are not anchored.
  any-select_anchored :
      (s t y : String) (rs : List Relationship)
      → is_entity entities s ≡ true
      → is_entity entities t ≡ true
      → any (is_link s t y) (select (is_anchored entities) rs) ≡ any (is_link s t y) rs
  any-select_anchored s t y [] h k = refl
  any-select_anchored s t y (r ∷ rs) h k = ground (
    arith,
    any-select_anchored s t y rs h k,
    eq_iff r.source_entity_id s,
    eq_iff r.target_entity_id t,
  )

-- Both ends of every relationship that the rules leave are entities of the context.
pub apply_rules-IsAnchored :
    (ctx : InvestigationContext)
    → All (IsAnchored (apply_rules ctx).entities) (apply_rules ctx).relationships
unfolding apply_rules
apply_rules-IsAnchored ctx =
    let P = IsAnchored ctx.entities in
    All-append P _ _ (All-select_self (is_anchored ctx.entities) ctx.relationships) (
      add_rels-IsAnchored ctx.entities ctx.relationships (rule_links ctx.entities) []
        (rule_links-Joins ctx.entities) tt)

module _ (old : List Relationship) where
  abbrev Exists : List Relationship → Link → Type 0
  Exists new l = relation_exists old new l.src l.tgt l.rel_type ≡ true

  exists-add_rels :
      (s t y : String) (ls : List Link) (new : List Relationship)
      → relation_exists old (add_rels old ls new) s t y
        ≡ (relation_exists old new s t y || any (proposes s t y) ls)
  unfolding add_rels
  exists-add_rels s t y [] new = ground arith
  exists-add_rels s t y (l ∷ ls) new =
      ground (arith, exists-add_rels s t y ls (add_rel old l new), exists-add_rel old s t y l new)

  -- Nothing is added for what is there.
  add_rels-of_Exists : (ls : List Link) → All (Exists []) ls → add_rels old ls [] ≡ []
  unfolding add_rels add_rel
  add_rels-of_Exists [] h = refl
  add_rels-of_Exists (l ∷ ls) h = rw h.0 (add_rels-of_Exists ls h.1)

abbrev IsProposed : List Link → Link → Type 0
IsProposed ls l = any (proposes l.src l.tgt l.rel_type) ls ≡ true

All-IsProposed : (ls : List Link) → All (IsProposed ls) ls
All-IsProposed [] = tt
All-IsProposed (l ∷ ls) = (
  ground (arith, eq_iff l.src l.src, eq_iff l.tgt l.tgt, eq_iff l.rel_type l.rel_type),
  All-weaken (IsProposed ls) (IsProposed (l ∷ ls)) (λ k h. ground (arith, h)) ls
      (All-IsProposed ls),
)

-- A context that the rules have nothing to do in.
record IsSettled (ctx : InvestigationContext) : Type 0 where
  anchored : All (IsAnchored ctx.entities) ctx.relationships
  linked : All (Exists ctx.relationships []) (rule_links ctx.entities)
  ordered : Ordered no_later ctx.timeline_events

apply_rules-of_IsSettled : (ctx : InvestigationContext) → IsSettled ctx → apply_rules ctx ≡ ctx
unfolding apply_rules
apply_rules-of_IsSettled ctx settled =
    rw
      (
        select-of_All (is_anchored ctx.entities) ctx.relationships settled.anchored,
        add_rels-of_Exists ctx.relationships (rule_links ctx.entities) settled.linked,
        append-nil ctx.relationships,
        sort_by-of_Ordered no_later ctx.timeline_events settled.ordered,
      )
      refl

module _ (ctx : InvestigationContext) where
  abbrev links : List Link
  links = rule_links ctx.entities

  exists-again :
      (l : Link)
      → Joins ctx.entities l × IsProposed links l
      → Exists (apply_rules ctx).relationships [] l
  unfolding apply_rules relation_exists
  exists-again l (ends, proposed) =
      let key = is_link l.src l.tgt l.rel_type in
      let kept = select (is_anchored ctx.entities) ctx.relationships in
      let new = add_rels ctx.relationships links [] in
      ground (
        arith,
        ends,
        proposed,
        any-append key kept new,
        any-select_anchored ctx.entities l.src l.tgt l.rel_type ctx.relationships ends.0 ends.1,
        exists-add_rels ctx.relationships l.src l.tgt l.rel_type links [],
      )

  apply_rules-entities : (apply_rules ctx).entities ≡ ctx.entities
  unfolding apply_rules
  apply_rules-entities = refl

  -- The rules leave the timeline in the order of its times.
  pub apply_rules-Ordered : Ordered no_later (apply_rules ctx).timeline_events
  unfolding apply_rules
  apply_rules-Ordered = sort_by-Ordered no_later (λ a b h. ground arith) ctx.timeline_events

  -- Running the rules again changes nothing.
  pub apply_rules-idempotent : apply_rules (apply_rules ctx) ≡ apply_rules ctx
  apply_rules-idempotent = apply_rules-of_IsSettled (apply_rules ctx) (record {
    anchored = apply_rules-IsAnchored ctx;
    linked = rw apply_rules-entities (
        All-weaken _ (Exists (apply_rules ctx).relationships []) exists-again links (
          All-both (Joins ctx.entities) (IsProposed links) links (rule_links-Joins ctx.entities)
            (All-IsProposed links)));
    ordered = apply_rules-Ordered;
  })
