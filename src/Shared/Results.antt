-- ===== src/Shared/Results.antt =====
-- Code that may raise: a result over the component's own error type, its bind, and the inversion
-- of a bind that returned.
use mathlib.Core.Path.{◌≡◌, refl, ap}
use mathlib.Core.Logic.{◌≢◌, ◌⊎◌, inl, inr}
use mathlib.Core.Bool.{Bool, true, false}

pub data Result {ℓ κ} (E : Type ℓ) (A : Type κ) : Type (ℓ ⊔ κ) where
  ok : A → Result E A
  err : E → Result E A

module _ {ℓ κ μ} {E : Type ℓ} {A : Type κ} {B : Type μ} where
  infixl 5 ◌>>=◌ ◌>>◌
  abbrev pub ◌>>=◌ : Result E A → (A → Result E B) → Result E B
  ok value >>= next = next value
  err raised >>= next = err raised

  abbrev pub ◌>>◌ : Result E A → Result E B → Result E B
  first >> next = first >>= λ _. next

-- `if bad: raise e`
abbrev pub raise_if {ℓ} : {E : Type ℓ} → Bool → E → Result E (Unit {0})
raise_if true e = err e
raise_if false e = ok tt

-- What a chain that returned says of its first step.
module _ {ℓ κ μ} {E : Type ℓ} {A : Type κ} {B : Type μ} where
  pub >>=-eq-ok :
      (first : Result E A) (next : A → Result E B) {result : B}
      → (first >>= next) ≡ ok result
      → (value : A) × (first ≡ ok value) × (next value ≡ ok result)
  >>=-eq-ok (ok value) next returned = (value, refl, returned)
  >>=-eq-ok (err raised) next returned = cc

pub err-injective {ℓ κ} :
    {E : Type ℓ} {A : Type κ} {a b : E} → ◌≡◌ {A = Result E A} (err a) (err b) → a ≡ b
err-injective h = cc

-- What a chain that raised says of its first step.
module _ {ℓ κ μ} {E : Type ℓ} {A : Type κ} {B : Type μ} where
  pub >>=-eq-err :
      (first : Result E A) (next : A → Result E B) {raised : E}
      → (first >>= next) ≡ err raised
      → (first ≡ err raised) ⊎ ((value : A) × (first ≡ ok value) × (next value ≡ err raised))
  >>=-eq-err (ok value) next h = inr (value, refl, h)
  >>=-eq-err (err other) next h = inl (ap err (err-injective h))

module _ {ℓ κ} {E : Type ℓ} {B : Type κ} where
  pub >>-eq-ok :
      (check : Result E (Unit {0})) (next : Result E B) {result : B}
      → (check >> next) ≡ ok result
      → (check ≡ ok tt) × (next ≡ ok result)
  >>-eq-ok (ok tt) next returned = (refl, returned)
  >>-eq-ok (err raised) next returned = cc

pub raise_if-eq-ok {ℓ} : {E : Type ℓ} (b : Bool) (e : E) → raise_if b e ≡ ok tt → b ≡ false
raise_if-eq-ok true e h = cc
raise_if-eq-ok false e h = refl

pub ok-injective {ℓ κ} :
    {E : Type ℓ} {A : Type κ} {a b : A} → ◌≡◌ {A = Result E A} (ok a) (ok b) → a ≡ b
ok-injective h = cc

-- A chain does not raise what none of its steps raises.
module _ {ℓ κ μ} {E : Type ℓ} {A : Type κ} {B : Type μ} (raised : E) where
  pub >>=-≢-err :
      (first : Result E A) (next : A → Result E B)
      → first ≢ err raised
      → ((value : A) → next value ≢ err raised)
      → (first >>= next) ≢ err raised
  >>=-≢-err (ok value) next first_passes next_passes h = next_passes value h
  >>=-≢-err (err other) next first_passes next_passes h = first_passes (ap err (err-injective h))

-- What holds of the value if the code returns, and of the error if it raises.
abbrev pub Outcome {ℓ κ μ} :
    {E : Type ℓ} {A : Type κ} → (A → Type μ) → (E → Type μ) → Result E A → Type μ
Outcome P Q (ok value) = P value
Outcome P Q (err raised) = Q raised

module _ {ℓ κ μ ν} {E : Type ℓ} {A : Type κ} {B : Type μ} (P : A → Type ν) (R : B → Type ν)
    (Q : E → Type ν) where
  pub >>=-Outcome :
      (first : Result E A) (next : A → Result E B)
      → Outcome P Q first
      → ((value : A) → P value → Outcome R Q (next value))
      → Outcome R Q (first >>= next)
  >>=-Outcome (ok value) next h step = step value h
  >>=-Outcome (err raised) next h step = h

module _ {ℓ κ μ} {E : Type ℓ} {B : Type κ} (R : B → Type μ) (Q : E → Type μ) where
  pub raise_if-Outcome :
      (b : Bool) (e : E) (next : Result E B)
      → (b ≡ true → Q e)
      → (b ≡ false → Outcome R Q next)
      → Outcome R Q (raise_if b e >> next)
  raise_if-Outcome true e next raised continued = raised refl
  raise_if-Outcome false e next raised continued = continued refl
