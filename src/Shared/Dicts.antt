-- ===== src/Shared/Dicts.antt =====
-- Python's `dict` with text keys: an association list in insertion order. An assignment replaces
-- the value of a key that is there and appends a new one.
use Prim.Native.String.{String}
use mathlib.Core.Path.{◌≡◌, refl, sym, ◌∙◌, subst}
use mathlib.Core.Logic.{inl, inr}
use mathlib.Core.Bool.{Bool, ◌||◌}
use mathlib.Core.Option.{Option, none, some}
use mathlib.Core.List.{List, [], ◌∷◌}
use native.Mathlib.Omega.{arith}
use text.Mathlib.Text.{◌==◌}
use text.Mathlib.TextEquality.{eq_iff}
use net_sleuth_ai.Shared.Tests.{if◌then◌else◌, is_some, Bool-cases}

abbrev pub Dict {ℓ} : Type ℓ → Type ℓ
Dict V = List (String × V)

module _ {ℓ} {V : Type ℓ} where
  -- `d.get(k)`
  unfoldable pub lookup : String → Dict V → Option V
  lookup k [] = none
  lookup k ((j, v) ∷ d) = if j == k then some v else lookup k d

  -- `d[k] = v`
  unfoldable pub insert : String → V → Dict V → Dict V
  insert k v [] = (k, v) ∷ []
  insert k v ((j, w) ∷ d) = if j == k then (k, v) ∷ d else (j, w) ∷ insert k v d

  -- `k in d`
  abbrev pub member : String → Dict V → Bool
  member k d = is_some (lookup k d)

  pub lookup-insert :
      (k j : String) (v : V) (d : Dict V)
      → lookup j (insert k v d) ≡ (if k == j then some v else lookup j d)
  unfolding lookup insert
  lookup-insert k j v [] = refl
  lookup-insert k j v ((i, w) ∷ d) =
      ground (arith, eq_iff k j, eq_iff i k, eq_iff i j, lookup-insert k j v d)

  pub member-insert :
      (k j : String) (v : V) (d : Dict V) → member j (insert k v d) ≡ (k == j || member j d)
  member-insert k j v d = ground (arith, lookup-insert k j v d)

-- Every value of the dictionary has the property.
abbrev pub Values {ℓ κ} : {V : Type ℓ} → (V → Type κ) → Dict V → Type (ℓ ⊔ κ)
Values {V = V} P d = (k : String) (v : V) → lookup k d ≡ some v → P v

pub some-injective {ℓ} : {V : Type ℓ} {v w : V} → ◌≡◌ {A = Option V} (some v) (some w) → v ≡ w
some-injective h = cc

pub Values-insert {ℓ κ} :
    {V : Type ℓ} (P : V → Type κ) (k : String) (v : V) (d : Dict V)
    → P v
    → Values P d
    → Values P (insert k v d)
Values-insert P k v d new old j w h =
    let e = sym (lookup-insert k j v d) ∙ h in
    elim (Bool-cases (k == j)) [
      | inl same ↦ subst P (some-injective (rw same at e)) new
      | inr other ↦ old j w (rw other at e)
    ]

pub Values-empty {ℓ κ} : {V : Type ℓ} (P : V → Type κ) → Values P []
unfolding lookup
Values-empty P k v h = cc

pub lookup-empty {ℓ} : {V : Type ℓ} (k : String) → lookup {V = V} k [] ≡ none
unfolding lookup
lookup-empty k = refl
