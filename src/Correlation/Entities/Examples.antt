-- ===== src/Correlation/Entities/Examples.antt =====
-- An address that is seen twice.
use net_sleuth_ai.Shared.{◌≡◌, refl, some, [], ◌∷◌, Distinct, ◌==◌, ℕ, String, false}
use net_sleuth_ai.Correlation.Samples.{at}
use net_sleuth_ai.Correlation.Entities.{Entity, add_entity}
use net_sleuth_ai.Correlation.Entities.Merging.{
  find, ids, IsUpdate, find-add_entity, add_entity-Distinct,
}

abbrev seen : ℕ → Entity
seen n = record {
  entity_id = "ip:10.0.0.5";
  entity_type = "ip";
  value = "10.0.0.5";
  first_seen = some (at n);
  last_seen = some (at n);
  attributes = [];
}

find-add_entity_example :
    ((found : Entity) × (find "ip:10.0.0.5" (add_entity (seen 9) (seen 12 ∷ [])) ≡ some found)
      × IsUpdate (some (seen 12)) (seen 9) found)
    × ((id : String)
        → ("ip:10.0.0.5" == id) ≡ false
        → find id (add_entity (seen 9) (seen 12 ∷ [])) ≡ find id (seen 12 ∷ []))
unfolding find
find-add_entity_example = find-add_entity (seen 9) (seen 12 ∷ [])

add_entity-Distinct_example : Distinct (ids (add_entity (seen 9) (seen 12 ∷ [])))
add_entity-Distinct_example = add_entity-Distinct (seen 9) (seen 12 ∷ []) (refl, tt)
