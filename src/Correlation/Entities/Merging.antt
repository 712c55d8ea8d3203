-- ===== src/Correlation/Entities/Merging.antt =====
-- What `InvestigationContext.add_entity` keeps and adds.
use net_sleuth_ai.Shared.{
  ◌≤◌, String, false, leb, Bool-cases, ◌⊎◌, inl, inr, ◌||◌, Option, none, some, List, [], ◌∷◌, map,
  ◌==◌, eq_iff, ◌≡◌, refl, arith, if◌then◌else◌, elem, Distinct,
}
use net_sleuth_ai.Correlation.Domain.{Timestamp}
use net_sleuth_ai.Correlation.Entities.{Entity, merge_first, merge_last, merge_entity, add_entity}

-- The entity of an identifier, the first one.
unfoldable pub find : String → List Entity → Option Entity
find id [] = none
find id (e ∷ es) = if e.entity_id == id then some e else find id es

abbrev pub ids : List Entity → List String
ids = map (λ e. e.entity_id)

-- The entity that stands for `e` after it is added.
abbrev pub merged : Option Entity → Entity → Entity
merged none e = e
merged (some existing) e = merge_entity existing e

id-merge_entity : (a e : Entity) → (merge_entity a e).entity_id ≡ a.entity_id
unfolding merge_entity
id-merge_entity a e = refl

find-merged :
    (e : Entity) (es : List Entity) (id : String)
    → find id (add_entity e es)
      ≡ (if e.entity_id == id then some (merged (find e.entity_id es) e) else find id es)
unfolding find add_entity
find-merged e [] id = refl
find-merged e (a ∷ es) id = ground (
  arith,
  find-merged e es id,
  id-merge_entity a e,
  eq_iff a.entity_id e.entity_id,
  eq_iff e.entity_id id,
  eq_iff a.entity_id id,
)

elem-ids-add_entity :
    (e : Entity) (es : List Entity) (id : String)
    → elem id (ids (add_entity e es)) ≡ (e.entity_id == id || elem id (ids es))
unfolding add_entity
elem-ids-add_entity e [] id = refl
elem-ids-add_entity e (a ∷ es) id = ground (
  arith,
  elem-ids-add_entity e es id,
  id-merge_entity a e,
  eq_iff a.entity_id e.entity_id,
  eq_iff e.entity_id id,
  eq_iff a.entity_id id,
)

-- Adding an entity does not make an identifier stand twice.
pub add_entity-Distinct :
    (e : Entity) (es : List Entity) → Distinct (ids es) → Distinct (ids (add_entity e es))
unfolding add_entity
add_entity-Distinct e [] h = (refl, tt)
add_entity-Distinct e (a ∷ es) h = ground (
  arith,
  h,
  add_entity-Distinct e es h.1,
  elem-ids-add_entity e es a.entity_id,
  id-merge_entity a e,
  eq_iff a.entity_id e.entity_id,
  eq_iff e.entity_id a.entity_id,
)

abbrev pub NotAfter : Option Timestamp → Option Timestamp → Type 0
NotAfter (some a) (some b) = a.moment ≤ b.moment
NotAfter none (some b) = ⊥
NotAfter a none = Unit

abbrev pub NotBefore : Option Timestamp → Option Timestamp → Type 0
NotBefore (some a) (some b) = b.moment ≤ a.moment
NotBefore none (some b) = ⊥
NotBefore a none = Unit

-- The time is the earlier one of the two that are known.
abbrev pub IsFirst : Option Timestamp → Option Timestamp → Option Timestamp → Type 0
IsFirst x y t = NotAfter t x × NotAfter t y × ((t ≡ x) ⊎ (t ≡ y))

-- The time is the later one of the two that are known.
abbrev pub IsLast : Option Timestamp → Option Timestamp → Option Timestamp → Type 0
IsLast x y t = NotBefore t x × NotBefore t y × ((t ≡ x) ⊎ (t ≡ y))

-- What stands for the entity of an identifier after `e` is added where `before` was.
abbrev pub IsUpdate : Option Entity → Entity → Entity → Type 0
IsUpdate none e found = found ≡ e
IsUpdate (some old) e found =
    (found.entity_id ≡ old.entity_id)
    × (found.entity_type ≡ old.entity_type)
    × (found.value ≡ old.value)
    × IsFirst old.first_seen e.first_seen found.first_seen
    × IsLast old.last_seen e.last_seen found.last_seen

merge_first-IsFirst : (x y : Option Timestamp) → IsFirst x y (merge_first x y)
unfolding merge_first
merge_first-IsFirst none none = (tt, tt, inl refl)
merge_first-IsFirst none (some y) = (tt, omega arith, inr refl)
merge_first-IsFirst (some x) none = (omega arith, tt, inl refl)
merge_first-IsFirst (some x) (some y) = elim (Bool-cases (leb x.moment y.moment)) [
  | inl h ↦ ground (arith, h)
  | inr h ↦ ground (arith, h)
]

merge_last-IsLast : (x y : Option Timestamp) → IsLast x y (merge_last x y)
unfolding merge_last
merge_last-IsLast none none = (tt, tt, inl refl)
merge_last-IsLast none (some y) = (tt, omega arith, inr refl)
merge_last-IsLast (some x) none = (omega arith, tt, inl refl)
merge_last-IsLast (some x) (some y) = elim (Bool-cases (leb y.moment x.moment)) [
  | inl h ↦ ground (arith, h)
  | inr h ↦ ground (arith, h)
]

merged-IsUpdate : (before : Option Entity) (e : Entity) → IsUpdate before e (merged before e)
unfolding merge_entity
merged-IsUpdate none e = refl
merged-IsUpdate (some a) e = (
  refl,
  refl,
  refl,
  merge_first-IsFirst a.first_seen e.first_seen,
  merge_last-IsLast a.last_seen e.last_seen,
)

-- After an entity is added, its identifier has an entity: the new one if there was none, or the one
-- that was there, first seen at the earlier and last seen at the later of the times of both. Every
-- other identifier has what it had.
pub find-add_entity :
    (e : Entity) (es : List Entity)
    → ((found : Entity) × (find e.entity_id (add_entity e es) ≡ some found)
        × IsUpdate (find e.entity_id es) e found)
      × ((id : String) → (e.entity_id == id) ≡ false → find id (add_entity e es) ≡ find id es)
find-add_entity e es = (
  (
    merged (find e.entity_id es) e,
    ground (arith, find-merged e es e.entity_id, eq_iff e.entity_id e.entity_id),
    merged-IsUpdate (find e.entity_id es) e,
  ),
  λ id other. ground (arith, find-merged e es id, other),
)
