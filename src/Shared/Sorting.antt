-- ===== src/Shared/Sorting.antt =====
-- Python's `sorted` and `set` over lists: a stable insertion sort, and a list without repeats.
use Prim.Native.Nat.{suc}
use Prim.Native.String.{String}
use mathlib.Core.Path.{◌≡◌, refl}
use mathlib.Core.Logic.{inl, inr}
use mathlib.Core.Bool.{Bool, true, false, ◌||◌}
use mathlib.Core.List.{List, [], ◌∷◌}
use native.Mathlib.Omega.{arith}
use text.Mathlib.TextEquality.{eq_iff}
use net_sleuth_ai.Shared.Tests.{if◌then◌else◌, Bool-cases}
use net_sleuth_ai.Shared.Lists.{length, is_empty, any, count, All, elem, Distinct}
use net_sleuth_ai.Shared.Texts.{text_leb}

module _ {ℓ} {A : Type ℓ} (le : A → A → Bool) where
  -- Before the first item that is not below it; equal items keep their order.
  unfoldable pub place : A → List A → List A
  place x [] = x ∷ []
  place x (y ∷ ys) = if le x y then x ∷ y ∷ ys else y ∷ place x ys

  unfoldable pub sort_by : List A → List A
  unfolding place
  sort_by [] = []
  sort_by (x ∷ xs) = place x (sort_by xs)

  abbrev pub AtMostHead : A → List A → Type 0
  AtMostHead x [] = Unit
  AtMostHead x (y ∷ ys) = le x y ≡ true

  -- Each item is at most the next one.
  abbrev pub Ordered : List A → Type 0
  Ordered [] = Unit
  Ordered (x ∷ xs) = AtMostHead x xs × Ordered xs

module _ {ℓ} {A : Type ℓ} (le : A → A → Bool) where
  length-place : (x : A) (xs : List A) → length (place le x xs) ≡ suc (length xs)
  unfolding place
  length-place x [] = refl
  length-place x (y ∷ ys) = ground (arith, length-place x ys)

  pub length-sort_by : (xs : List A) → length (sort_by le xs) ≡ length xs
  unfolding sort_by
  length-sort_by [] = refl
  length-sort_by (x ∷ xs) = omega (arith, length-place x (sort_by le xs), length-sort_by xs)

  All-place {κ} : (P : A → Type κ) (x : A) (xs : List A) → P x → All P xs → All P (place le x xs)
  unfolding place
  All-place P x [] px h = (px, tt)
  All-place P x (y ∷ ys) px h = elim (Bool-cases (le x y)) [
    | inl e ↦ rw e (px, h)
    | inr e ↦ rw e (h.0, All-place P x ys px h.1)
  ]

  pub All-sort_by {κ} : (P : A → Type κ) (xs : List A) → All P xs → All P (sort_by le xs)
  unfolding sort_by
  All-sort_by P [] h = tt
  All-sort_by P (x ∷ xs) h = All-place P x (sort_by le xs) h.0 (All-sort_by P xs h.1)

module _ {ℓ} {A : Type ℓ} (le : A → A → Bool)
    (total : (x y : A) → le x y ≡ false → le y x ≡ true) where
  AtMostHead-place :
      (y x : A) (xs : List A) → le y x ≡ true → AtMostHead le y xs → AtMostHead le y (place le x xs)
  unfolding place
  AtMostHead-place y x [] h k = h
  AtMostHead-place y x (z ∷ zs) h k = elim (Bool-cases (le x z)) [ inl e ↦ rw e h | inr e ↦ rw e k ]

  place-Ordered : (x : A) (xs : List A) → Ordered le xs → Ordered le (place le x xs)
  unfolding place
  place-Ordered x [] h = (tt, tt)
  place-Ordered x (y ∷ ys) h = elim (Bool-cases (le x y)) [
    | inl e ↦ rw e (e, h)
    | inr e ↦ rw e (AtMostHead-place y x ys (total x y e) h.0, place-Ordered x ys h.1)
  ]

  pub sort_by-Ordered : (xs : List A) → Ordered le (sort_by le xs)
  unfolding sort_by
  sort_by-Ordered [] = tt
  sort_by-Ordered (x ∷ xs) = place-Ordered x (sort_by le xs) (sort_by-Ordered xs)

module _ {ℓ} {A : Type ℓ} (le : A → A → Bool) where
  place-AtMostHead : (x : A) (xs : List A) → AtMostHead le x xs → place le x xs ≡ x ∷ xs
  unfolding place
  place-AtMostHead x [] h = refl
  place-AtMostHead x (y ∷ ys) h = rw h

  -- Sorting leaves a list that is in order as it is.
  pub sort_by-of_Ordered : (xs : List A) → Ordered le xs → sort_by le xs ≡ xs
  unfolding sort_by
  sort_by-of_Ordered [] h = refl
  sort_by-of_Ordered (x ∷ xs) h = rw (sort_by-of_Ordered xs h.1) (place-AtMostHead x xs h.0)

-- `sorted(texts)`
abbrev pub sorted : List String → List String
sorted = sort_by text_leb

-- `set(texts)`, with each item at its last place.
unfoldable pub set_of : List String → List String
set_of [] = []
set_of (x ∷ xs) = let rest = set_of xs in if elem x rest then rest else x ∷ rest

pub All-set_of {κ} : (P : String → Type κ) (xs : List String) → All P xs → All P (set_of xs)
unfolding set_of
All-set_of P [] h = tt
All-set_of P (x ∷ xs) h = elim (Bool-cases (elem x (set_of xs))) [
  | inl e ↦ rw e (All-set_of P xs h.1)
  | inr e ↦ rw e (h.0, All-set_of P xs h.1)
]

pub set_of-Distinct : (xs : List String) → Distinct (set_of xs)
unfolding set_of
set_of-Distinct [] = tt
set_of-Distinct (x ∷ xs) = elim (Bool-cases (elem x (set_of xs))) [
  | inl e ↦ rw e (set_of-Distinct xs)
  | inr e ↦ rw e (e, set_of-Distinct xs)
]

elem-not_empty : (x : String) (xs : List String) → elem x xs ≡ true → is_empty xs ≡ false
elem-not_empty x [] h = cc
elem-not_empty x (y ∷ ys) h = refl

pub is_empty-set_of : (xs : List String) → is_empty (set_of xs) ≡ is_empty xs
unfolding set_of
is_empty-set_of [] = refl
is_empty-set_of (x ∷ xs) = elim (Bool-cases (elem x (set_of xs))) [
  | inl e ↦ rw e (elem-not_empty x (set_of xs) e)
  | inr e ↦ rw e refl
]

is_empty_of_length {ℓ} :
    {A : Type ℓ} (xs ys : List A) → length xs ≡ length ys → is_empty xs ≡ is_empty ys
is_empty_of_length [] [] e = refl
is_empty_of_length [] (y ∷ ys) e = absurd (omega arith)
is_empty_of_length (x ∷ xs) [] e = absurd (omega arith)
is_empty_of_length (x ∷ xs) (y ∷ ys) e = refl

pub is_empty-sort_by {ℓ} :
    {A : Type ℓ} (le : A → A → Bool) (xs : List A) → is_empty (sort_by le xs) ≡ is_empty xs
is_empty-sort_by le xs = is_empty_of_length (sort_by le xs) xs (length-sort_by le xs)

pub elem-set_of : (s : String) (xs : List String) → elem s (set_of xs) ≡ elem s xs
unfolding set_of
elem-set_of s [] = refl
elem-set_of s (x ∷ xs) = ground (arith, eq_iff x s, elem-set_of s xs, elem-set_of x xs)

module _ {ℓ} {A : Type ℓ} (le : A → A → Bool) (p : A → Bool) where
  pub any-place : (x : A) (xs : List A) → any p (place le x xs) ≡ (p x || any p xs)
  unfolding place
  any-place x [] = refl
  any-place x (y ∷ ys) = ground (arith, any-place x ys)

  -- Sorting neither adds nor loses an item.
  pub any-sort_by : (xs : List A) → any p (sort_by le xs) ≡ any p xs
  unfolding sort_by
  any-sort_by [] = refl
  any-sort_by (x ∷ xs) = ground (arith, any-place x (sort_by le xs), any-sort_by xs)

  count-place : (x : A) (xs : List A) → count p (place le x xs) ≡ count p (x ∷ xs)
  unfolding place
  count-place x [] = refl
  count-place x (y ∷ ys) = ground (arith, count-place x ys)

  -- Sorting keeps how often anything stands in the list.
  pub count-sort_by : (xs : List A) → count p (sort_by le xs) ≡ count p xs
  unfolding sort_by
  count-sort_by [] = refl
  count-sort_by (x ∷ xs) = ground (arith, count-place x (sort_by le xs), count-sort_by xs)
