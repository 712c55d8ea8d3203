-- ===== src/Correlation/Rules/Graph.antt =====
-- The relationships that `apply_rules` leaves, counted against an independent description.
use net_sleuth_ai.Shared.{
  ◌+◌, String, Bool, true, false, ◌&&◌, ◌||◌, List, [], ◌∷◌, ◌++◌, map, ◌==◌, eq_iff, ◌≡◌, arith,
  if◌then◌else◌, any, any-append, count, count-append,
}
use net_sleuth_ai.Correlation.Entities.{Entity, Relationship}
use net_sleuth_ai.Correlation.Rules.{
  Link, is_link, relation_exists, relationship, add_rel, add_rels, of_type, link, communications,
  pairs, associations, rule_links,
}

-- A call of `add_rel` for this relationship.
abbrev pub proposes : String → String → String → Link → Bool
proposes s t y l = l.src == s && l.tgt == t && l.rel_type == y

module _ (old : List Relationship) (s t y : String) where
  abbrev exists : List Relationship → Bool
  exists new = relation_exists old new s t y

  exists-of_proposes :
      (l : Link) (new : List Relationship)
      → proposes s t y l ≡ true
      → relation_exists old new l.src l.tgt l.rel_type ≡ exists new
  exists-of_proposes l new h =
      ground (arith, h, eq_iff l.src s, eq_iff l.tgt t, eq_iff l.rel_type y)

  exists-append :
      (l : Link) (new : List Relationship)
      → exists (new ++ relationship l ∷ []) ≡ (exists new || proposes s t y l)
  unfolding relation_exists
  exists-append l new = ground (arith, any-append (is_link s t y) new (relationship l ∷ []))

  pub exists-add_rel :
      (l : Link) (new : List Relationship)
      → exists (add_rel old l new) ≡ (exists new || proposes s t y l)
  unfolding add_rel
  exists-add_rel l new = ground (arith, exists-of_proposes l new, exists-append l new)

  count-add_rel :
      (l : Link) (new : List Relationship)
      → count (is_link s t y) (add_rel old l new)
        ≡ count (is_link s t y) new + (if exists new then 0 else if proposes s t y l then 1 else 0)
  unfolding add_rel
  count-add_rel l new =
      ground
        (arith, exists-of_proposes l new, count-append (is_link s t y) new (relationship l ∷ []))

  pub count-add_rels :
      (ls : List Link) (new : List Relationship)
      → count (is_link s t y) (add_rels old ls new)
        ≡ count (is_link s t y) new
          + (if exists new then 0 else if any (proposes s t y) ls then 1 else 0)
  unfolding add_rels
  count-add_rels [] new = ground arith
  count-add_rels (l ∷ ls) new =
      ground
        (arith, count-add_rels ls (add_rel old l new), count-add_rel l new, exists-add_rel l new)

abbrev pub has_id : String → List Entity → Bool
has_id id = any (λ e. e.entity_id == id)

-- The first address is `s`, and another one is `t`.
abbrev pub speaks_first : String → String → List Entity → Bool
speaks_first s t [] = false
speaks_first s t (first ∷ ips) = first.entity_id == s && has_id t ips

-- Which relationships the types of the entities warrant.
unfoldable pub is_warranted : List Entity → String → String → String → Bool
is_warranted entities s t y =
    let ips = of_type "ip" entities in
    let domains = of_type "domain" entities in
    ("communicates_with" == y && speaks_first s t ips)
    || ("queries_domain" == y && has_id s ips && has_id t domains)
    || ("downloads_artifact" == y && has_id s ips && has_id t (of_type "artifact" entities))
    || ("associated_with" == y
        && has_id s (of_type "finding" entities)
        && (has_id t ips || has_id t domains))

module _ (s t y : String) where
  any-map-link :
      (rel_type reason : String) (a : Entity) (ys : List Entity)
      → any (proposes s t y) (map (link rel_type reason a) ys)
        ≡ (rel_type == y && a.entity_id == s && has_id t ys)
  any-map-link rel_type reason a [] = ground arith
  any-map-link rel_type reason a (e ∷ ys) = ground (arith, any-map-link rel_type reason a ys)

  any-pairs :
      (rel_type reason : String) (xs ys : List Entity)
      → any (proposes s t y) (pairs (link rel_type reason) xs ys)
        ≡ (rel_type == y && has_id s xs && has_id t ys)
  unfolding pairs
  any-pairs rel_type reason [] ys = ground arith
  any-pairs rel_type reason (x ∷ xs) ys =
      let front = map (link rel_type reason x) ys in
      ground (
        arith,
        any-append (proposes s t y) front (pairs (link rel_type reason) xs ys),
        any-map-link rel_type reason x ys,
        any-pairs rel_type reason xs ys,
      )

  any-associations :
      (fs ips domains : List Entity)
      → any (proposes s t y) (associations fs ips domains)
        ≡ ("associated_with" == y && has_id s fs && (has_id t ips || has_id t domains))
  unfolding associations
  any-associations [] ips domains = ground arith
  any-associations (f ∷ fs) ips domains =
      let to_ips = map (link "associated_with" "Finding involves IP asset." f) ips in
      let to_domains = map (link "associated_with" "Finding involves domain asset." f) domains in
      let rest = associations fs ips domains in
      ground (
        arith,
        any-append (proposes s t y) to_ips (to_domains ++ rest),
        any-append (proposes s t y) to_domains rest,
        any-map-link "associated_with" "Finding involves IP asset." f ips,
        any-map-link "associated_with" "Finding involves domain asset." f domains,
        any-associations fs ips domains,
      )

  any-communications :
      (ips : List Entity)
      → any (proposes s t y) (communications ips)
        ≡ ("communicates_with" == y && speaks_first s t ips)
  unfolding communications
  any-communications [] = ground arith
  any-communications (first ∷ ips) =
      ground (arith, any-map-link "communicates_with" "Observed bilateral IP traffic." first ips)

  pub any-rule_links :
      (entities : List Entity)
      → any (proposes s t y) (rule_links entities) ≡ is_warranted entities s t y
  unfolding rule_links is_warranted
  any-rule_links entities =
      let ips = of_type "ip" entities in
      let domains = of_type "domain" entities in
      let arts = of_type "artifact" entities in
      let fs = of_type "finding" entities in
      let queries = pairs (link "queries_domain" "IP resolved or queried domain.") ips domains in
      let downloads = pairs (link "downloads_artifact" "IP transferred artifact file.") ips arts in
      let rest = associations fs ips domains in
      let p = proposes s t y in
      ground (
        arith,
        any-append p (communications ips) (queries ++ (downloads ++ rest)),
        any-append p queries (downloads ++ rest),
        any-append p downloads rest,
        any-communications ips,
        any-pairs "queries_domain" "IP resolved or queried domain." ips domains,
        any-pairs "downloads_artifact" "IP transferred artifact file." ips arts,
        any-associations fs ips domains,
      )
