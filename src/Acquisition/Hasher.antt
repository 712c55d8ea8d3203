-- ===== src/Acquisition/Hasher.antt =====
-- That the hash of a file in blocks (backend/app/engines/acquisition/hasher.py) is the hash of its
-- bytes.
use net_sleuth_ai.Shared.{
  ℕ, zero, suc, ◌≤◌, ◌<◌, none, some, List, [], ◌∷◌, ◌++◌, ◌≡◌, refl, sym, ◌∙◌, ap, arith, length,
  ok, err,
}
use net_sleuth_ai.Acquisition.{
  OsError, ResolvedPath, HashAlgorithm, digest_of, hash_failure, raised_as, take, drop, read,
  update_all, compute_sha256,
}

module _ {ℓ} {A : Type ℓ} where
  take-drop : (n : ℕ) (xs : List A) → take n xs ++ drop n xs ≡ xs
  take-drop zero xs = refl
  take-drop (suc n) [] = refl
  take-drop (suc n) (x ∷ xs) = ap (◌∷◌ x) (take-drop n xs)

  length-drop : (n : ℕ) (xs : List A) → length (drop n xs) ≤ length xs
  length-drop zero xs = omega arith
  length-drop (suc n) [] = omega arith
  length-drop (suc n) (x ∷ xs) = omega (arith, length-drop n xs)

module _ (h : HashAlgorithm) (k : ℕ) where
  pub update_all-whole :
      (fuel : ℕ) (s : h.State) (bytes : List ℕ)
      → length bytes < fuel
      → update_all h (suc k) fuel s (record { bytes = bytes; fault = none }) ≡ ok (h.update s bytes)
  unfolding update_all read
  update_all-whole zero s bytes enough = absurd (omega arith)
  update_all-whole (suc fuel) s [] enough = ap ok (sym (h.update_nothing s))
  update_all-whole (suc fuel) s (x ∷ xs) enough =
      update_all-whole fuel (h.update s (x ∷ take k xs)) (drop k xs)
        (omega (arith, length-drop k xs))
      ∙ ap ok (
          h.update_append s (x ∷ take k xs) (drop k xs)
          ∙ ap (λ rest. h.update s (x ∷ rest)) (take-drop k xs))

  -- A file that breaks gives no hash.
  pub update_all-fault :
      (fuel : ℕ) (s : h.State) (bytes : List ℕ) (e : OsError)
      → length bytes < fuel
      → update_all h (suc k) fuel s (record { bytes = bytes; fault = some e }) ≡ err e
  unfolding update_all read
  update_all-fault zero s bytes e enough = absurd (omega arith)
  update_all-fault (suc fuel) s [] e enough = ground arith
  update_all-fault (suc fuel) s (x ∷ xs) e enough = ground (
    arith,
    update_all-fault fuel (h.update s (x ∷ take k xs)) (drop k xs) e
        (omega (arith, length-drop k xs)),
  )

-- The hash of a path is that of its bytes, if it can be opened and read to the end.
module _ (h : HashAlgorithm) (r : ResolvedPath) (bytes : List ℕ) where
  pub compute-whole :
      r.opened ≡ ok (record { bytes = bytes; fault = none })
      → compute_sha256 h r ≡ ok (digest_of h bytes)
  unfolding compute_sha256
  compute-whole e =
      rw (e, update_all-whole h 65535 (suc (length bytes)) h.new bytes (omega arith)) refl

  pub compute-fault :
      (e : OsError)
      → r.opened ≡ ok (record { bytes = bytes; fault = some e })
      → compute_sha256 h r ≡ err (raised_as hash_failure e)
  unfolding compute_sha256
  compute-fault e o =
      rw (o, update_all-fault h 65535 (suc (length bytes)) h.new bytes e (omega arith)) refl
