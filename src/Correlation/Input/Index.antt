-- ===== src/Correlation/Input/Index.antt =====
-- What the indexing loops of `M3InputAdapter.adapt` build, and when they raise.
use net_sleuth_ai.Shared.{
  String, ◌≡◌, refl, false, ◌||◌, List, [], ◌∷◌, map, arith, eq_iff, eq_refl, Bool-cases, ok, Dict,
  lookup, member, insert, lookup-insert, member-insert, All, elem, Distinct, some, inl, inr,
}
use net_sleuth_ai.Correlation.Input.{AdaptError, index_by}

module _ {ℓ} {V : Type ℓ} (key : V → String) where
  unfoldable pub insert_all : List V → Dict V → Dict V
  insert_all [] d = d
  insert_all (x ∷ xs) d = insert_all xs (insert (key x) x d)

  abbrev pub IsFresh : Dict V → List V → Type 0
  IsFresh d = All (λ x. member (key x) d ≡ false)

module _ {ℓ} {V : Type ℓ} (key : V → String) where
  IsFresh-insert :
      (k : String) (v : V) (d : Dict V) (xs : List V)
      → elem k (map key xs) ≡ false
      → IsFresh key d xs
      → IsFresh key (insert k v d) xs
  IsFresh-insert k v d [] e h = tt
  IsFresh-insert k v d (x ∷ xs) e h = (
    ground (arith, member-insert k (key x) v d, eq_iff k (key x), eq_iff (key x) k),
    IsFresh-insert k v d xs (ground arith) h.1,
  )

  IsFresh-insert_inv :
      (k : String) (v : V) (d : Dict V) (xs : List V)
      → IsFresh key (insert k v d) xs
      → (elem k (map key xs) ≡ false) × IsFresh key d xs
  IsFresh-insert_inv k v d [] h = (refl, tt)
  IsFresh-insert_inv k v d (x ∷ xs) h =
      let (e, r) = IsFresh-insert_inv k v d xs h.1 in
      (
        ground (arith, member-insert k (key x) v d, eq_iff k (key x), eq_iff (key x) k, e),
        (ground (arith, member-insert k (key x) v d), r),
      )

  pub index_by-eq-ok :
      (duplicate : String → AdaptError) (xs : List V) (d : Dict V)
      → Distinct (map key xs)
      → IsFresh key d xs
      → index_by key duplicate xs d ≡ ok (insert_all key xs d)
  unfolding index_by insert_all
  index_by-eq-ok duplicate [] d u h = refl
  index_by-eq-ok duplicate (x ∷ xs) d u h =
      rw h.0 (
        index_by-eq-ok duplicate xs (insert (key x) x d) u.1
          (IsFresh-insert (key x) x d xs u.0 h.1))

  pub index_by-inv :
      (duplicate : String → AdaptError) (xs : List V) (d d' : Dict V)
      → index_by key duplicate xs d ≡ ok d'
      → Distinct (map key xs) × IsFresh key d xs × (d' ≡ insert_all key xs d)
  unfolding index_by insert_all
  index_by-inv duplicate [] d d' h = (tt, tt, cc)
  index_by-inv duplicate (x ∷ xs) d d' h = elim (Bool-cases (member (key x) d)) [
    | inl old ↦ absurd (ground arith)
    | inr new ↦
        let (u, f, e) = index_by-inv duplicate xs (insert (key x) x d) d' (rw new at h) in
        let (absent, f') = IsFresh-insert_inv (key x) x d xs f in ((absent, u), (new, f'), e)
  ]

  pub member-insert_all :
      (j : String) (xs : List V) (d : Dict V)
      → member j (insert_all key xs d) ≡ (elem j (map key xs) || member j d)
  unfolding insert_all
  member-insert_all j [] d = refl
  member-insert_all j (x ∷ xs) d =
      ground (arith, member-insert_all j xs (insert (key x) x d), member-insert (key x) j x d)

  lookup-insert_all_ne :
      (j : String) (xs : List V) (d : Dict V)
      → elem j (map key xs) ≡ false
      → lookup j (insert_all key xs d) ≡ lookup j d
  unfolding insert_all
  lookup-insert_all_ne j [] d e = refl
  lookup-insert_all_ne j (x ∷ xs) d e =
      ground (arith, lookup-insert_all_ne j xs (insert (key x) x d), lookup-insert (key x) j x d)

  pub lookup-insert_all :
      (xs : List V) (d : Dict V)
      → Distinct (map key xs)
      → All (λ x. lookup (key x) (insert_all key xs d) ≡ some x) xs
  unfolding insert_all
  lookup-insert_all [] d u = tt
  lookup-insert_all (x ∷ xs) d u = (
    ground (
      arith,
      lookup-insert_all_ne (key x) xs (insert (key x) x d) u.0,
      lookup-insert (key x) (key x) x d,
      eq_refl (key x),
    ),
    lookup-insert_all xs (insert (key x) x d) u.1,
  )
