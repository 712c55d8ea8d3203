-- ===== src/Packets/Process/Drawn.antt =====
-- Identifiers that are drawn one after the other do not repeat
-- (backend/app/engines/packet_intelligence draws them from uuid4).
use net_sleuth_ai.Shared.{
  ℕ, suc, ◌+◌, ◌≤◌, ◌<◌, String, Bool, false, List, [], ◌∷◌, ◌++◌, map, ◌==◌, ◌≡◌, refl, sym, ◌∙◌,
  subst, inl, inr, arith, eq_iff, elem, elem-append, Distinct, All, All-append, All-weaken, length,
  Bool-cases, append-nil, append_assoc,
}
use net_sleuth_ai.Correlation.Domain.{ProtocolEvent, Artifact}
use net_sleuth_ai.Packets.Artifacts.{Extract, build_artifact, build_all, extract, extracts}

-- What the code relies on: no identifier is drawn twice, and none is empty.
pub record IsSupply (fresh : ℕ → String) : Type 0 where
  pub injective : (i j : ℕ) → fresh i ≡ fresh j → i ≡ j
  pub not_empty : (i : ℕ) → (fresh i == "") ≡ false

Distinct-snoc :
    (x : String) (ids : List String)
    → elem x ids ≡ false
    → Distinct ids
    → Distinct (ids ++ (x ∷ []))
Distinct-snoc x [] h d = (refl, tt)
Distinct-snoc x (y ∷ ids) h d = (
  ground (arith, h, d.0, eq_iff x y, eq_iff y x, elem-append y ids (x ∷ [])),
  Distinct-snoc x ids (ground (arith, h)) d.1,
)

module _ (fresh : ℕ → String) where
  abbrev pub IsBelow : ℕ → String → Type 0
  IsBelow n s = (k : ℕ) × (k < n) × (s ≡ fresh k)

  -- Distinct, and among the first `n` that were drawn.
  pub record AreDrawn (n : ℕ) (ids : List String) : Type 0 where
    pub distinct : Distinct ids
    pub below : All (IsBelow n) ids

module _ (fresh : ℕ → String) (supply : IsSupply fresh) where
  elem-later :
      (n k : ℕ) (ids : List String) → n ≤ k → All (IsBelow fresh n) ids → elem (fresh k) ids ≡ false
  elem-later n k [] le h = refl
  elem-later n k (x ∷ ids) le h = elim (Bool-cases (x == fresh k)) [
    | inr e ↦ ground (arith, e, elem-later n k ids le h.1)
    | inl e ↦
        let (j, lt, made) = h.0 in
        let same = supply.injective j k (sym made ∙ (eq_iff x (fresh k)).0 e) in
        absurd (omega (arith, lt, le, same))
  ]

  pub AreDrawn-later :
      (n k : ℕ) (ids : List String) → n ≤ k → AreDrawn fresh n ids → AreDrawn fresh k ids
  AreDrawn-later n k ids le h = record {
    distinct = h.distinct;
    below =
        All-weaken (IsBelow fresh n) (IsBelow fresh k)
          (λ s (j, lt, e). (j, omega (arith, lt, le), e)) ids h.below;
  }

  pub AreDrawn-snoc :
      (n : ℕ) (ids : List String)
      → AreDrawn fresh n ids
      → AreDrawn fresh (suc n) (ids ++ (fresh n ∷ []))
  AreDrawn-snoc n ids h = record {
    distinct = Distinct-snoc (fresh n) ids (elem-later n n ids (omega arith) h.below) h.distinct;
    below =
        All-append (IsBelow fresh (suc n)) ids (fresh n ∷ [])
          (AreDrawn-later n (suc n) ids (omega arith) h).below ((n, omega arith, refl), tt);
  }

  module _ (is_ip : String → Bool) (event : ProtocolEvent) where
    AreDrawn-build_all :
        (n : ℕ) (es : List Extract) (ids : List String)
        → AreDrawn fresh n ids
        → AreDrawn fresh
            (n + length (build_all is_ip fresh n event es))
            (ids ++ map (λ a. a.artifact_id) (build_all is_ip fresh n event es))
    unfolding build_all build_artifact
    AreDrawn-build_all n [] ids h =
        rw (append-nil ids) (AreDrawn-later n (n + 0) ids (omega arith) h)
    AreDrawn-build_all n (e ∷ es) ids h =
        let built = build_all is_ip fresh (suc n) event es in
        let later = map (λ (a : Artifact). a.artifact_id) built in
        let rest = AreDrawn-build_all (suc n) es (ids ++ (fresh n ∷ [])) (AreDrawn-snoc n ids h) in
        let count : suc n + length built ≡ n + suc (length built) = omega arith in
        subst (λ m. AreDrawn fresh m (ids ++ (fresh n ∷ later))) count
          (subst (AreDrawn fresh (suc n + length built)) (append_assoc ids (fresh n ∷ []) later)
            rest)

    pub AreDrawn-extract :
        (n : ℕ) (ids : List String)
        → AreDrawn fresh n ids
        → AreDrawn fresh
            (n + length (extract is_ip fresh n event))
            (ids ++ map (λ a. a.artifact_id) (extract is_ip fresh n event))
    unfolding extract
    AreDrawn-extract n ids h = AreDrawn-build_all n (extracts is_ip event.protocol_data) ids h
