-- ===== src/Acquisition/Contract.antt =====
-- When `AcquisitionService.acquire` (backend/app/engines/acquisition/service.py) returns a reference,
-- and what is in it.
use net_sleuth_ai.Shared.{
  ℕ, String, true, false, not, Option, none, some, List, ◌≡◌, refl, sym, ◌∙◌, ap, subst, ◌↔◌, inl,
  inr, arith, Option-cases, eqb, elem, lower, Result, ok, err, raise_if, raise_if-eq-ok, >>=-eq-ok,
  >>-eq-ok, ok-injective,
}
use net_sleuth_ai.Acquisition.{
  AcquisitionErrorCode, file_not_found, not_a_file, unsupported_format, empty_file, hash_failure,
  OsError, ResolvedPath, HashAlgorithm, digest_of, take, read, ValidationResult,
  supported_extensions, translated, size_of, format_of, read_and_validate_magic, validate,
  compute_sha256, AcquisitionReference, build_reference, acquire,
}
use net_sleuth_ai.Acquisition.Hasher.{compute-whole, compute-fault}

-- A path that names a capture: what the file system says of it, without the order of the checks.
pub record IsCapture (path : Option ResolvedPath) : Type 0 where
  pub resolved : ResolvedPath
  pub resolves : path ≡ some resolved
  pub existing : resolved.exists ≡ true
  pub regular : resolved.is_file ≡ true
  pub supported : elem (lower resolved.suffix) supported_extensions ≡ true
  pub size : ℕ
  pub sized : resolved.st_size ≡ some size
  pub filled : eqb size 0 ≡ false
  pub bytes : List ℕ
  pub intact : resolved.opened ≡ ok (record { bytes = bytes; fault = none })
  pub format : String
  pub recognised : format_of (take 4 bytes) ≡ ok format

translated-inv {ℓ} :
    {A : Type ℓ} (code : AcquisitionErrorCode) (r : Result OsError A) {a : A}
    → translated code r ≡ ok a
    → r ≡ ok a
translated-inv code (ok b) e = ap ok (ok-injective e)
translated-inv code (err x) e = cc

size_of-inv : (o : Option ℕ) {n : ℕ} → size_of o ≡ ok n → o ≡ some n
size_of-inv none e = cc
size_of-inv (some n) e = ap some (ok-injective e)

module _ (h : HashAlgorithm) (acquisition_id evidence_id : String) where
  -- The reference of a capture: the digest is that of all its bytes at once.
  abbrev pub reference_of : {path : Option ResolvedPath} → IsCapture path → AcquisitionReference
  reference_of c = record {
    acquisition_id = acquisition_id;
    evidence_id = evidence_id;
    file_name = c.resolved.name;
    file_size = c.size;
    format = c.format;
    sha256 = digest_of h c.bytes;
    capture_reference = c.resolved.path;
  }

  abbrev result_of : {path : Option ResolvedPath} → IsCapture path → ValidationResult
  result_of c = record {
    resolved_path = c.resolved;
    format = c.format;
    file_size = c.size;
    file_name = c.resolved.name;
  }

  magic-of_IsCapture :
      (path : Option ResolvedPath) (c : IsCapture path)
      → read_and_validate_magic c.resolved ≡ ok c.format
  unfolding read_and_validate_magic read
  magic-of_IsCapture path c = rw (c.intact, c.recognised) refl

  validate-of_IsCapture :
      (path : Option ResolvedPath) (c : IsCapture path) → validate path ≡ ok (result_of c)
  unfolding validate
  validate-of_IsCapture path c =
      simp (
        c.resolves,
        c.existing,
        c.regular,
        c.supported,
        c.sized,
        c.filled,
        magic-of_IsCapture path c,
      )

  acquire-of_IsCapture :
      (path : Option ResolvedPath) (c : IsCapture path)
      → acquire h acquisition_id evidence_id path ≡ ok (reference_of c)
  unfolding acquire build_reference
  acquire-of_IsCapture path c =
      rw (validate-of_IsCapture path c, compute-whole h c.resolved c.bytes c.intact) refl

  -- What came of the hash says that the file is whole.
  hash-IsWhole :
      (r : ResolvedPath) {sha : String}
      → compute_sha256 h r ≡ ok sha
      → (bytes : List ℕ) × (r.opened ≡ ok (record { bytes = bytes; fault = none }))
  unfolding compute_sha256
  hash-IsWhole r e =
      let (file, o, _) = >>=-eq-ok (translated hash_failure r.opened) _ e in
      let opened = translated-inv hash_failure r.opened o in
      elim (Option-cases file.fault) [
        | inl n ↦ (file.bytes, opened ∙ ap (λ x. ok (record { bytes = file.bytes; fault = x })) n)
        | inr (x, s) ↦ absurd (
            cc (
              compute-fault h r file.bytes x
                  (opened ∙ ap (λ x. ok (record { bytes = file.bytes; fault = x })) s),
              e,
            ))
      ]

  magic-of_whole :
      (r : ResolvedPath) (bytes : List ℕ) {format : String}
      → r.opened ≡ ok (record { bytes = bytes; fault = none })
      → read_and_validate_magic r ≡ ok format
      → format_of (take 4 bytes) ≡ ok format
  unfolding read_and_validate_magic read
  magic-of_whole r bytes intact magic = rw intact at magic

  acquire-IsCapture :
      (path : Option ResolvedPath) {ref : AcquisitionReference}
      → acquire h acquisition_id evidence_id path ≡ ok ref
      → IsCapture path
  unfolding acquire validate
  acquire-IsCapture none e = cc
  acquire-IsCapture (some r) e =
      let (v, e1, e2) = >>=-eq-ok (validate (some r)) _ e in
      let (exists, e3) = >>-eq-ok (raise_if (not r.exists) file_not_found) _ e1 in
      let (regular, e4) = >>-eq-ok (raise_if (not r.is_file) not_a_file) _ e3 in
      let (supported, e5) =
        >>-eq-ok (raise_if (not (elem (lower r.suffix) supported_extensions)) unsupported_format) _
          e4 in
      let (size, sized, e6) = >>=-eq-ok (size_of r.st_size) _ e5 in
      let (filled, e7) = >>-eq-ok (raise_if (eqb size 0) empty_file) _ e6 in
      let (format, magic, e8) = >>=-eq-ok (read_and_validate_magic r) _ e7 in
      let same : v.resolved_path ≡ r = ap (λ v. v.resolved_path) (sym (ok-injective e8)) in
      let (sha, hashed, _) = >>=-eq-ok (compute_sha256 h v.resolved_path) _ e2 in
      let (bytes, intact) = hash-IsWhole r (subst (λ x. compute_sha256 h x ≡ ok sha) same hashed) in
      record {
        resolved = r;
        resolves = refl;
        existing = ground (arith, raise_if-eq-ok (not r.exists) file_not_found exists);
        regular = ground (arith, raise_if-eq-ok (not r.is_file) not_a_file regular);
        supported = ground (
          arith,
          raise_if-eq-ok (not (elem (lower r.suffix) supported_extensions)) unsupported_format
              supported,
        );
        size = size;
        sized = size_of-inv r.st_size sized;
        filled = raise_if-eq-ok (eqb size 0) empty_file filled;
        bytes = bytes;
        intact = intact;
        format = format;
        recognised = magic-of_whole r bytes intact magic;
      }

  -- The service returns a reference if and only if the path names a regular file, with one of the
  -- two extensions and a size that is not 0, that can be opened and read to its end and
  -- begins with one of the five marks. The reference then has the format of that mark, the size, and
  -- the digest of all bytes of the file at once, though it hashes them in blocks.
  pub acquire-returns_iff :
      (path : Option ResolvedPath) (ref : AcquisitionReference)
      → (acquire h acquisition_id evidence_id path ≡ ok ref)
        ↔ ((c : IsCapture path) × (ref ≡ reference_of c))
  acquire-returns_iff path ref = (
    λ e.
        let c = acquire-IsCapture path e in (c, ok-injective (sym e ∙ acquire-of_IsCapture path c)),
    λ (c, e). acquire-of_IsCapture path c ∙ ap ok (sym e),
  )
