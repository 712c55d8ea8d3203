-- ===== src/Correlation/Mitre/Knowledge.antt =====
-- What `MitreKnowledgeRepository` (backend/app/engines/correlation/mitre/repository.py) answers, told
-- by the relationships of its snapshot.
use net_sleuth_ai.Shared.{
  any-append, String, Bool, ◌&&◌, ◌||◌, Option, List, [], ◌∷◌, ◌++◌, ◌==◌, ◌≡◌, refl, arith, any,
  elem, lookup, lookup-insert, Dict, elem-set_of, ◌∙◌, eq_iff,
}
use net_sleuth_ai.Correlation.Mitre.{
  BehaviorMapping, RelationshipType, Relationship, MitreKnowledgeRepository,
  is_technique_to_detection, is_detection_to_analytic, list_of, append_to, link, load, analytics_of,
  get_technique_details,
}

any-append_to :
    (p : String → Bool) (k x j : String) (d : Dict (List String))
    → any p (list_of (lookup j (append_to k x d))) ≡ (k == j && p x || any p (list_of (lookup j d)))
unfolding append_to
any-append_to p k x j d = ground (
  arith,
  eq_iff k j,
  lookup-insert k j (list_of (lookup k d) ++ x ∷ []) d,
  any-append p (list_of (lookup k d)) (x ∷ []),
)

-- Something in the table's list passes if and only if it does there at the start or some
-- relationship of the type from the key leads to it.
any-link :
    (wanted : RelationshipType → Bool) (p : String → Bool) (j : String) (rs : List Relationship)
    (d : Dict (List String))
    → any p (list_of (lookup j (link wanted rs d)))
      ≡ (any p (list_of (lookup j d)) || any (λ r. wanted r.type && r.source == j && p r.target) rs)
unfolding link
any-link wanted p j [] d = ground arith
any-link wanted p j (r ∷ rs) d = ground (
  arith,
  any-link wanted p j rs d,
  any-link wanted p j rs (append_to r.source r.target d),
  any-append_to p r.source r.target j d,
)

elem-any : (s : String) (xs : List String) → elem s xs ≡ any (λ x. x == s) xs
elem-any s [] = refl
elem-any s (x ∷ xs) = ground (arith, elem-any s xs)

elem-analytics_of :
    (s : String) (table : Dict (List String)) (dets : List String)
    → elem s (analytics_of table dets)
      ≡ any (λ det. any (λ x. x == s) (list_of (lookup det table))) dets
unfolding analytics_of
elem-analytics_of s table [] = refl
elem-analytics_of s table (det ∷ dets) =
    let front = list_of (lookup det table) in
    ground (
      arith,
      elem-any s (front ++ analytics_of table dets),
      elem-any s (analytics_of table dets),
      any-append (λ x. x == s) front (analytics_of table dets),
      elem-analytics_of s table dets,
    )

any_cong {ℓ} :
    {A : Type ℓ} (p q : A → Bool) → ((a : A) → p a ≡ q a) → (xs : List A) → any p xs ≡ any q xs
any_cong p q h [] = refl
any_cong p q h (x ∷ xs) = ground (arith, h x, any_cong p q h xs)

-- Some relationship of the type leads from the source to the target.
abbrev pub is_related : (RelationshipType → Bool) → List Relationship → String → String → Bool
is_related wanted rs source target =
    any (λ r. wanted r.type && r.source == source && r.target == target) rs

module _ (profile version : String) (mappings : List BehaviorMapping) (techniques : Dict String)
    (tactics : Dict (Option String)) (rs : List Relationship) where
  abbrev repo : MitreKnowledgeRepository
  repo = load profile version mappings techniques tactics rs

  -- The detection strategies of a technique are the targets of its detection relationships, and its
  -- analytics the targets of the analytic relationships of one of those.
  pub get_technique_details-is_related :
      (technique s : String)
      → (elem s (get_technique_details repo technique).detection_strategies
          ≡ is_related is_technique_to_detection rs technique s)
        × (elem s (get_technique_details repo technique).analytics
            ≡ any
                (λ r.
                  is_technique_to_detection r.type
                  && r.source == technique
                  && is_related is_detection_to_analytic rs r.target s)
                rs)
  unfolding get_technique_details load lookup
  get_technique_details-is_related technique s =
      let table = link is_detection_to_analytic rs [] in
      let dets = list_of (lookup technique (link is_technique_to_detection rs [])) in
      (
        elem-any s dets ∙ any-link is_technique_to_detection (λ x. x == s) technique rs [],
        elem-set_of s (analytics_of table dets)
            ∙ elem-analytics_of s table dets
            ∙ any_cong (λ det. any (λ x. x == s) (list_of (lookup det table)))
                (λ det. is_related is_detection_to_analytic rs det s)
                (λ det. any-link is_detection_to_analytic (λ x. x == s) det rs []) dets
            ∙ any-link is_technique_to_detection
                (λ det. is_related is_detection_to_analytic rs det s) technique rs [],
      )
