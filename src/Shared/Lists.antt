-- ===== src/Shared/Lists.antt =====
-- Lists: length over the native numbers, tests over all or some items, membership of a text, and
-- predicates by recursion that the tactics read.
use Prim.Native.Nat.{ℕ, suc, ◌+◌}
use Prim.Native.String.{String}
use mathlib.Core.Path.{◌≡◌, refl}
use mathlib.Core.Bool.{Bool, true, false, ◌||◌, ◌&&◌}
use mathlib.Core.Option.{Option, none, some}
use mathlib.Core.List.{List, [], ◌∷◌, ◌++◌, map}
use native.Mathlib.Omega.{arith}
use text.Mathlib.Text.{◌==◌}
use text.Mathlib.TextEquality.{eq_iff}
use net_sleuth_ai.Shared.Tests.{if◌then◌else◌}

module _ {ℓ} {A : Type ℓ} where
  abbrev pub length : List A → ℕ
  length [] = 0
  length (x ∷ xs) = suc (length xs)

  abbrev pub is_empty : List A → Bool
  is_empty [] = true
  is_empty (x ∷ xs) = false

  -- `any(p(x) for x in xs)`
  abbrev pub any : (A → Bool) → List A → Bool
  any p [] = false
  any p (x ∷ xs) = p x || any p xs

  -- `[x for x in xs if p(x)]`
  abbrev pub select : (A → Bool) → List A → List A
  select p [] = []
  select p (x ∷ xs) = elim (p x) [ true ↦ x ∷ select p xs | false ↦ select p xs ]

  -- How many items pass.
  abbrev pub count : (A → Bool) → List A → ℕ
  count p [] = 0
  count p (x ∷ xs) = (if p x then 1 else 0) + count p xs

  abbrev pub All {κ} : (A → Type κ) → List A → Type κ
  All P [] = Unit
  All P (x ∷ xs) = P x × All P xs

module _ {ℓ κ} {A : Type ℓ} (P : A → Type κ) where
  -- What holds of two lists holds of the one after the other.
  pub All-append : (front back : List A) → All P front → All P back → All P (front ++ back)
  All-append [] back h k = k
  All-append (x ∷ front) back h k = (h.0, All-append front back h.1 k)

module _ {ℓ κ μ} {A : Type ℓ} (P : A → Type κ) (Q : A → Type μ) (weaken : (a : A) → P a → Q a) where
  pub All-weaken : (items : List A) → All P items → All Q items
  All-weaken [] held = tt
  All-weaken (a ∷ items) held = (weaken a held.0, All-weaken items held.1)

module _ {ℓ κ μ} {A : Type ℓ} (P : A → Type κ) (Q : A → Type μ) where
  pub All-both : (items : List A) → All P items → All Q items → All (λ a. P a × Q a) items
  All-both [] p q = tt
  All-both (a ∷ items) p q = ((p.0, q.0), All-both items p.1 q.1)

module _ {ℓ κ μ} {A : Type ℓ} {B : Type κ} (P : B → Type μ) (f : A → B) (p : A → Bool) where
  pub All-map-select : (xs : List A) → All P (map f xs) → All P (map f (select p xs))
  All-map-select [] h = tt
  All-map-select (x ∷ xs) h = kept (All-map-select xs h.1) (p x)
    where
      kept :
          All P (map f (select p xs))
          → (b : Bool) → All P (map f (elim b [ true ↦ x ∷ select p xs | false ↦ select p xs ]))
      kept rest true = (h.0, rest)
      kept rest false = rest

-- What holds of all items after a function holds of what it gives.
pub All-map {ℓ κ μ ν} :
    {A : Type ℓ} {B : Type κ} (P : A → Type μ) (Q : B → Type ν) (f : A → B)
    → ((a : A) → P a → Q (f a))
    → (xs : List A) → All P xs
    → All Q (map f xs)
All-map P Q f step [] h = tt
All-map P Q f step (x ∷ xs) h = (step x h.0, All-map P Q f step xs h.1)

module _ {ℓ κ} {A : Type ℓ} (P : A → Type κ) (p : A → Bool) where
  pub All-select : (xs : List A) → All P xs → All P (select p xs)
  All-select [] h = tt
  All-select (x ∷ xs) h = kept (All-select xs h.1) (p x)
    where
      kept :
          All P (select p xs)
          → (b : Bool) → All P (elim b [ true ↦ x ∷ select p xs | false ↦ select p xs ])
      kept rest true = (h.0, rest)
      kept rest false = rest

module _ {ℓ} {A : Type ℓ} (p : A → Bool) where
  -- What is selected passes.
  pub All-select_self : (xs : List A) → All (λ x. p x ≡ true) (select p xs)
  All-select_self [] = tt
  All-select_self (x ∷ xs) = kept (p x) refl (All-select_self xs)
    where
      kept :
          (b : Bool)
          → p x ≡ b
          → All (λ x. p x ≡ true) (select p xs)
          → All (λ x. p x ≡ true) (elim b [ true ↦ x ∷ select p xs | false ↦ select p xs ])
      kept true e rest = (e, rest)
      kept false e rest = rest

  -- If none passes, each fails.
  pub All-of_none : (xs : List A) → any p xs ≡ false → All (λ x. p x ≡ false) xs
  All-of_none [] h = tt
  All-of_none (x ∷ xs) h = (ground arith, All-of_none xs (ground arith))

  -- If all pass, all are selected.
  pub select-of_All : (xs : List A) → All (λ x. p x ≡ true) xs → select p xs ≡ xs
  select-of_All [] h = refl
  select-of_All (x ∷ xs) h = ground (arith, h.0, select-of_All xs h.1)

module _ {ℓ} {A : Type ℓ} (p q : A → Bool) where
  pub select-select : (xs : List A) → select p (select q xs) ≡ select (λ x. p x && q x) xs
  select-select [] = refl
  select-select (x ∷ xs) = ground (arith, select-select xs)

  pub select-of_eq : ((x : A) → p x ≡ q x) → (xs : List A) → select p xs ≡ select q xs
  select-of_eq h [] = refl
  select-of_eq h (x ∷ xs) = ground (arith, h x, select-of_eq h xs)

module _ {ℓ κ} {A : Type ℓ} {B : Type κ} (f : A → B) where
  pub is_empty-map : (xs : List A) → is_empty (map f xs) ≡ is_empty xs
  is_empty-map [] = refl
  is_empty-map (x ∷ xs) = refl

module _ {ℓ} {A : Type ℓ} (p : A → Bool) where
  -- Something is selected if any item passes.
  pub is_empty-select : (xs : List A) → any p xs ≡ true → is_empty (select p xs) ≡ false
  is_empty-select [] h = cc
  is_empty-select (x ∷ xs) h = ground (arith, is_empty-select xs)

  pub select-of_none : (xs : List A) → any p xs ≡ false → select p xs ≡ []
  select-of_none [] h = refl
  select-of_none (x ∷ xs) h = ground (arith, select-of_none xs)

pub any-append {ℓ} :
    {A : Type ℓ} (p : A → Bool) (xs ys : List A) → any p (xs ++ ys) ≡ (any p xs || any p ys)
any-append p [] ys = refl
any-append p (x ∷ xs) ys = ground (arith, any-append p xs ys)

pub count-append {ℓ} :
    {A : Type ℓ} (p : A → Bool) (xs ys : List A) → count p (xs ++ ys) ≡ count p xs + count p ys
count-append p [] ys = omega arith
count-append p (x ∷ xs) ys = omega (arith, count-append p xs ys)

-- The values that a loop did not skip.
abbrev pub present {ℓ} : {A : Type ℓ} → List (Option A) → List A
present [] = []
present (none ∷ os) = present os
present (some a ∷ os) = a ∷ present os

module _ {ℓ κ μ} {A : Type ℓ} {B : Type κ} (P : B → Type μ) (g : A → Option B)
    (step : (a : A) (b : B) → g a ≡ some b → P b) where
  pub All-present-map : (xs : List A) → All P (present (map g xs))
  All-present-map [] = tt
  All-present-map (x ∷ xs) = kept (g x) (step x) (All-present-map xs)
    where
      kept :
          (o : Option B)
          → ((b : B) → o ≡ some b → P b)
          → All P (present (map g xs))
          → All P (present (o ∷ map g xs))
      kept none h rest = rest
      kept (some b) h rest = (h b refl, rest)

module _ {ℓ κ μ ν} {A : Type ℓ} {B : Type κ} (R : A → Type ν) (P : B → Type μ) (g : A → Option B)
    (step : (a : A) (b : B) → R a → g a ≡ some b → P b) where
  pub All-present-map_of : (xs : List A) → All R xs → All P (present (map g xs))
  All-present-map_of [] h = tt
  All-present-map_of (x ∷ xs) h = kept (g x) (λ b. step x b h.0) (All-present-map_of xs h.1)
    where
      kept :
          (o : Option B)
          → ((b : B) → o ≡ some b → P b)
          → All P (present (map g xs))
          → All P (present (o ∷ map g xs))
      kept none h rest = rest
      kept (some b) h rest = (h b refl, rest)

-- `s in xs` over a list or set of texts
abbrev pub elem : String → List String → Bool
elem s [] = false
elem s (x ∷ xs) = x == s || elem s xs

module _ {ℓ} {A : Type ℓ} (f : A → String) where
  -- The text of each item is among the texts of all.
  pub All-elem-map : (xs : List A) → All (λ x. elem (f x) (map f xs) ≡ true) xs
  All-elem-map [] = tt
  All-elem-map (x ∷ xs) = (
    ground (arith, eq_iff (f x) (f x)),
    All-weaken (λ a. elem (f a) (map f xs) ≡ true)
        (λ a. (f x == f a || elem (f a) (map f xs)) ≡ true) (λ a h. ground (arith, h)) xs
        (All-elem-map xs),
  )

pub elem-append : (s : String) (xs ys : List String) → elem s (xs ++ ys) ≡ (elem s xs || elem s ys)
elem-append s [] ys = refl
elem-append s (x ∷ xs) ys = ground (arith, elem-append s xs ys)

-- No text stands twice.
abbrev pub Distinct : List String → Type 0
Distinct [] = Unit
Distinct (x ∷ xs) = (elem x xs ≡ false) × Distinct xs
