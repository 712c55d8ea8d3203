-- ===== src/Reporting/Integrity/Verdicts.antt =====
-- What each verification status says (`IntegrityVerifier.verify`).
use net_sleuth_ai.Shared.{
  ℕ, String, Bool, false, Option, none, some, ◌==◌, ok, err, >>=-eq-ok, >>=-≢-err, ok-injective,
  lower, upper, ◌≡◌, refl, ap, subst, arith, eq_iff, ◌≢◌, ◌⊎◌, inl, inr, Bool-cases,
}
use net_sleuth_ai.Reporting.Integrity.{
  IntegrityError, missing_evidence_id, missing_case_id, unsupported_algorithm, required,
  required_type, VerificationStatus, verified, mismatch, unverified, Metadata, IntegrityResult,
  known_algorithm, compared, calculate_hash, judged, report, verify,
}

module _ (sha256_hex : String → String) (sha512_hex : String → String)
    (md5_hex : String → String) where
  -- There are bytes and an algorithm, and the hash is their digest by it.
  pub record IsDigest (algorithm bytes : Option String) (hash : String) : Type 0 where
    pub content : String
    pub name : String
    pub has_bytes : bytes ≡ some content
    pub has_algorithm : algorithm ≡ some name
    pub digest : calculate_hash sha256_hex sha512_hex md5_hex content name ≡ ok hash

  -- The hash that was calculated, and the one that was expected.
  pub record Hashes (algorithm bytes expected calculated : Option String) : Type 0 where
    pub hash : String
    pub wanted : String
    pub is_calculated : calculated ≡ some hash
    pub is_expected : expected ≡ some wanted
    pub is_digest : IsDigest algorithm bytes hash

  abbrev pub Says :
      VerificationStatus → Option String → Option String → Option String → Option String → Type 0
  Says verified a b e c = (h : Hashes a b e c) × (lower h.hash ≡ lower h.wanted)
  Says mismatch a b e c = (h : Hashes a b e c) × ((lower h.hash == lower h.wanted) ≡ false)
  Says unverified a b e c = (a ≡ none) ⊎ (b ≡ none) ⊎ (e ≡ none) ⊎ (e ≡ some "")

  compared-Says :
      (a b e : Option String) (h : String) → IsDigest a b h → Says (compared h e) a b e (some h)
  unfolding compared
  compared-Says a b none h d = inr (inr (inl refl))
  compared-Says a b (some w) h d = elim (Bool-cases (w == "")) [
    | inl x ↦ rw x (inr (inr (inr (ap some ((eq_iff w "").0 x)))))
    | inr x ↦ elim (Bool-cases (lower h == lower w)) [
      | inl y ↦ rw (x, y) (hashes w, (eq_iff (lower h) (lower w)).0 y)
      | inr y ↦ rw (x, y) (hashes w, y)
    ]
  ]
    where
      hashes : (w : String) → Hashes a b (some w) (some h)
      hashes w = record {
        hash = h;
        wanted = w;
        is_calculated = refl;
        is_expected = refl;
        is_digest = d;
      }

  judged-Says :
      (a b e : Option String) (o : Option String × VerificationStatus)
      → judged sha256_hex sha512_hex md5_hex a b e ≡ ok o
      → Says o.1 a b e o.0
  unfolding judged
  judged-Says none b e o h = subst (λ p. Says p.1 none b e p.0) (ok-injective h) (inl refl)
  judged-Says (some a) none e o h =
      subst (λ p. Says p.1 (some a) none e p.0) (ok-injective h) (inr (inl refl))
  judged-Says (some a) (some b) e o h =
      let (hash, d, r) =
        >>=-eq-ok (calculate_hash sha256_hex sha512_hex md5_hex b a)
          (λ x. ok (some x, compared x e)) h in
      subst (λ p. Says p.1 (some a) (some b) e p.0) (ok-injective r)
        (compared-Says (some a) (some b) e hash
          (record { content = b; name = a; has_bytes = refl; has_algorithm = refl; digest = d }))

  -- A supported algorithm is one that `calculate_hash` knows.
  HasDigest : String → String → Type 0
  HasDigest bytes name =
      (hash : String) × (calculate_hash sha256_hex sha512_hex md5_hex bytes name ≡ ok hash)

  calculate_hash-of_known :
      (a name bytes : String) → known_algorithm (some a) ≡ some name → HasDigest bytes name
  unfolding known_algorithm calculate_hash upper HasDigest
  calculate_hash-of_known a name bytes h = elim (Bool-cases ("SHA-256" == a)) [
    | inl x ↦
        let e : "SHA-256" ≡ name = ground (arith, h, x, eq_iff "SHA-256" a) in
        subst (HasDigest bytes) e (sha256_hex bytes, refl)
    | inr x ↦ elim (Bool-cases ("SHA-512" == a)) [
      | inl y ↦
          let e : "SHA-512" ≡ name = ground (arith, h, x, y, eq_iff "SHA-512" a) in
          subst (HasDigest bytes) e (sha512_hex bytes, refl)
      | inr y ↦
          let e : "MD5" ≡ name = ground (arith, h, x, y, eq_iff "MD5" a) in
          subst (HasDigest bytes) e (md5_hex bytes, refl)
    ]
  ]

  of_option :
      (a : Option String) (name bytes : String)
      → known_algorithm a ≡ some name
      → HasDigest bytes name
  unfolding known_algorithm
  of_option none name bytes h = absurd (ground (arith, h))
  of_option (some a) name bytes h = calculate_hash-of_known a name bytes h

  judged-of_known :
      (a b e : Option String) (x : IntegrityError)
      → judged sha256_hex sha512_hex md5_hex (known_algorithm a) b e ≢ err x
  unfolding judged HasDigest
  judged-of_known a b e x = by_algorithm (known_algorithm a) b refl
    where
      of_digest :
          (name bytes : String)
          → HasDigest bytes name
          → judged sha256_hex sha512_hex md5_hex (some name) (some bytes) e ≢ err x
      of_digest name bytes (hash, d) h = ground (arith, d, h)

      by_algorithm :
          (k b : Option String)
          → known_algorithm a ≡ k
          → judged sha256_hex sha512_hex md5_hex k b e ≢ err x
      by_algorithm none b k h = ground (arith, h)
      by_algorithm (some name) none k h = ground (arith, h)
      by_algorithm (some name) (some bytes) k h = of_digest name bytes (of_option a name bytes k) h

  module _ (conforms : IntegrityResult → Bool) (now : ℕ) where
    report-eq :
        (m : Metadata) (evidence case type : String) (o : Option String × VerificationStatus)
        (r : IntegrityResult)
        → report sha256_hex sha512_hex md5_hex conforms now m evidence case type o ≡ ok r
        → (o.1 ≡ r.verification_status) × (o.0 ≡ r.calculated_hash)
    unfolding report
    report-eq m evidence case type o r h = ground (arith, h)

    report-≢-err :
        (m : Metadata) (evidence case type : String) (o : Option String × VerificationStatus)
        → report sha256_hex sha512_hex md5_hex conforms now m evidence case type o
          ≢ err unsupported_algorithm
    unfolding report
    report-≢-err m evidence case type o h = ground (arith, h)

    required-≢-err :
        (e : IntegrityError) (o : Option String)
        → e ≢ unsupported_algorithm
        → required e o ≢ err unsupported_algorithm
    unfolding required
    required-≢-err e none n h = ground (arith, n, h)
    required-≢-err e (some s) n h = ground (arith, n, h)

    required_type-≢-err : (o : Option String) → required_type o ≢ err unsupported_algorithm
    unfolding required_type
    required_type-≢-err none h = ground (arith, h)
    required_type-≢-err (some s) h = ground (arith, h)

    -- A verification that returns a result says VERIFIED only if the digest of the bytes by the
    -- supported algorithm of the metadata and the expected hash are the same but for case, MISMATCH
    -- only if they differ, and UNVERIFIED only if the algorithm, the bytes or the expected hash are
    -- missing, or the algorithm is not supported, or the expected hash is empty.
    pub verify-Says :
        (m : Metadata) (bytes : Option String) (r : IntegrityResult)
        → verify sha256_hex sha512_hex md5_hex conforms now m bytes ≡ ok r
        → Says r.verification_status
            (known_algorithm m.hash_algorithm)
            bytes
            m.expected_hash
            r.calculated_hash
    unfolding verify
    verify-Says m bytes r h =
        let (ev, p1, h1) = >>=-eq-ok (required missing_evidence_id m.evidence_id) _ h in
        let (case, p2, h2) = >>=-eq-ok (required missing_case_id m.case_id) _ h1 in
        let (type, p3, h3) = >>=-eq-ok (required_type m.evidence_type) _ h2 in
        let (o, p4, h4) =
          >>=-eq-ok
            (judged sha256_hex sha512_hex md5_hex (known_algorithm m.hash_algorithm) bytes
              m.expected_hash)
            _ h3 in
        let (status, hash) = report-eq m ev case type o r h4 in
        rw⁻¹ (status, hash)
          (judged-Says (known_algorithm m.hash_algorithm) bytes m.expected_hash o p4)

    -- The check of the algorithm never makes a verification fail.
    pub verify-of_algorithm :
        (m : Metadata) (bytes : Option String)
        → verify sha256_hex sha512_hex md5_hex conforms now m bytes ≢ err unsupported_algorithm
    unfolding verify
    verify-of_algorithm m bytes =
        >>=-≢-err unsupported_algorithm (required missing_evidence_id m.evidence_id) _
          (required-≢-err missing_evidence_id m.evidence_id (λ e. ground (arith, e)))
          (λ ev.
            >>=-≢-err unsupported_algorithm (required missing_case_id m.case_id) _
              (required-≢-err missing_case_id m.case_id (λ e. ground (arith, e)))
              (λ case.
                >>=-≢-err unsupported_algorithm (required_type m.evidence_type) _
                  (required_type-≢-err m.evidence_type)
                  (λ type.
                    >>=-≢-err unsupported_algorithm
                      (judged sha256_hex sha512_hex md5_hex (known_algorithm m.hash_algorithm) bytes
                        m.expected_hash)
                      _
                      (judged-of_known m.hash_algorithm bytes m.expected_hash unsupported_algorithm)
                      (report-≢-err m ev case type))))
