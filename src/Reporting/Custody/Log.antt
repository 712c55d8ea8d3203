-- ===== src/Reporting/Custody/Log.antt =====
-- What `ChainOfCustody.record_action` keeps of its log.
use net_sleuth_ai.Shared.{
  ℕ, String, Bool, true, false, ◌&&◌, Option, none, some, List, [], ◌∷◌, ◌++◌, ◌==◌, any, Result,
  ok, err, sort_by, place, ◌≡◌, refl, subst, ok-injective, ◌∙◌, arith, eq_iff, eq_refl, Ordered,
  sort_by-Ordered, any-sort_by, any-place, any-append, Bool-cases, inl, inr, if_ind, All,
  All-append, All-sort_by,
}
use net_sleuth_ai.Reporting.Custody.{
  CustodyEntry, CustodyError, same_signature, same_entry, checked, no_later, timestamp_of,
  log_entry, record_entry, record_action,
}

same_signature-sym : (a b : Option String) → same_signature a b ≡ same_signature b a
same_signature-sym none none = refl
same_signature-sym none (some b) = refl
same_signature-sym (some a) none = refl
same_signature-sym (some a) (some b) = ground (arith, eq_iff a b, eq_iff b a)

same_entry-sym : (a b : CustodyEntry) → same_entry a b ≡ same_entry b a
same_entry-sym a b = ground (
  arith,
  same_signature-sym a.signature b.signature,
  eq_iff a.custodian_id b.custodian_id,
  eq_iff b.custodian_id a.custodian_id,
  eq_iff a.action b.action,
  eq_iff b.action a.action,
  eq_iff a.timestamp b.timestamp,
  eq_iff b.timestamp a.timestamp,
)

pub same_entry_refl : (a : CustodyEntry) → same_entry a a ≡ true
same_entry_refl a = signature_refl a.signature
  where
    signature_refl :
        (s : Option String)
        → (a.custodian_id == a.custodian_id
            && a.action == a.action
            && a.timestamp == a.timestamp
            && same_signature s s)
          ≡ true
    signature_refl none =
        ground (arith, eq_refl a.custodian_id, eq_refl a.action, eq_refl a.timestamp)
    signature_refl (some s) =
        ground (arith, eq_refl a.custodian_id, eq_refl a.action, eq_refl a.timestamp, eq_refl s)

-- No entry is recorded twice.
abbrev pub NoRepeats : List CustodyEntry → Type 0
NoRepeats [] = Unit
NoRepeats (e ∷ es) = (any (same_entry e) es ≡ false) × NoRepeats es

module _ (parse_iso : String → Option ℕ) (iso_of : ℕ → String) where
  abbrev le : CustodyEntry → CustodyEntry → Bool
  le = no_later parse_iso iso_of

  -- An entry that `CustodyEntry` accepts.
  abbrev pub IsValid : CustodyEntry → Type 0
  IsValid e = checked parse_iso iso_of e ≡ ok e

  -- The log is in the order of time, names no entry twice and has accepted entries alone.
  pub record IsLog (entries : List CustodyEntry) : Type 0 where
    pub ordered : Ordered le entries
    pub no_repeats : NoRepeats entries
    pub valid : All IsValid entries

  NoRepeats-place :
      (e : CustodyEntry) (es : List CustodyEntry)
      → any (same_entry e) es ≡ false
      → NoRepeats es
      → NoRepeats (place le e es)
  unfolding place
  NoRepeats-place e [] h k = (refl, tt)
  NoRepeats-place e (x ∷ es) h k =
      if_ind NoRepeats (le e x) (λ b. (h, k))
        (λ b. (
          ground (arith, h, k.0, any-place le (same_entry x) e es, same_entry-sym x e),
          NoRepeats-place e es (ground (arith, h)) k.1,
        ))

  NoRepeats-sort_by : (es : List CustodyEntry) → NoRepeats es → NoRepeats (sort_by le es)
  unfolding sort_by
  NoRepeats-sort_by [] h = tt
  NoRepeats-sort_by (e ∷ es) h =
      NoRepeats-place e (sort_by le es) (any-sort_by le (same_entry e) es ∙ h.0)
        (NoRepeats-sort_by es h.1)

  NoRepeats-append :
      (es : List CustodyEntry) (e : CustodyEntry)
      → any (same_entry e) es ≡ false
      → NoRepeats es
      → NoRepeats (es ++ e ∷ [])
  NoRepeats-append [] e h k = (refl, tt)
  NoRepeats-append (x ∷ es) e h k = (
    ground (arith, h, k.0, any-append (same_entry x) es (e ∷ []), same_entry-sym x e),
    NoRepeats-append es e (ground (arith, h)) k.1,
  )

  le-total : (a b : CustodyEntry) → le a b ≡ false → le b a ≡ true
  le-total a b h = ground (arith, h)

  log_entry-IsLog :
      (e : CustodyEntry) (es : List CustodyEntry)
      → IsValid e
      → IsLog es
      → IsLog (log_entry parse_iso iso_of e es)
  unfolding log_entry
  log_entry-IsLog e es v h = elim (Bool-cases (any (same_entry e) es)) [
    | inl d ↦ rw d h
    | inr d ↦ rw d (record {
      ordered = sort_by-Ordered le le-total (es ++ e ∷ []);
      no_repeats = NoRepeats-sort_by (es ++ e ∷ []) (NoRepeats-append es e d h.no_repeats);
      valid =
          All-sort_by le IsValid (es ++ e ∷ []) (All-append IsValid es (e ∷ []) h.valid (v, tt));
    })
  ]

  pub checked-eq : (e x : CustodyEntry) → checked parse_iso iso_of e ≡ ok x → e ≡ x
  unfolding checked
  checked-eq e x h = ground (arith, h)

  -- The entry that is returned was accepted, and the log is the one with it.
  abbrev pub IsRecorded : List CustodyEntry → CustodyEntry × List CustodyEntry → Type 0
  IsRecorded es r = IsValid r.0 × (log_entry parse_iso iso_of r.0 es ≡ r.1)

  pub record_entry-IsRecorded :
      (e : CustodyEntry) (es : List CustodyEntry) (r : CustodyEntry × List CustodyEntry)
      → record_entry parse_iso iso_of e es ≡ ok r
      → IsRecorded es r
  unfolding record_entry
  record_entry-IsRecorded e es r h = by_check (checked parse_iso iso_of e) refl h
    where
      by_check :
          (c : Result CustodyError CustodyEntry)
          → checked parse_iso iso_of e ≡ c
          → (elim c as (λ x. Result CustodyError (CustodyEntry × List CustodyEntry)) [
            | err x ↦ err x
            | ok y ↦ ok (y, log_entry parse_iso iso_of y es)
          ])
            ≡ ok r
          → IsRecorded es r
      by_check (err x) c h = ground (arith, h)
      by_check (ok y) c h =
          let same = ok-injective h in
          subst (IsRecorded es) same
            (subst (λ z. checked parse_iso iso_of z ≡ ok y) (checked-eq e y c) c, refl)

  pub record_action-IsRecorded :
      (now : ℕ) (custodian action : String) (timestamp signature : Option String)
      (es : List CustodyEntry) (r : CustodyEntry × List CustodyEntry)
      → record_action parse_iso iso_of now custodian action timestamp signature es ≡ ok r
      → IsRecorded es r
  unfolding record_action
  record_action-IsRecorded now custodian action timestamp signature es r h =
      by_time (timestamp_of parse_iso iso_of now timestamp) h
    where
      entry : String → CustodyEntry
      entry ts = record {
        custodian_id = custodian;
        action = action;
        timestamp = ts;
        signature = signature;
      }

      by_time :
          (t : Result CustodyError String)
          → (elim t as (λ x. Result CustodyError (CustodyEntry × List CustodyEntry)) [
            | err x ↦ err x
            | ok ts ↦ record_entry parse_iso iso_of (entry ts) es
          ])
            ≡ ok r
          → IsRecorded es r
      by_time (err x) h = ground (arith, h)
      by_time (ok ts) h = record_entry-IsRecorded (entry ts) es r h

  -- A log that is in the order of time, names no entry twice and has accepted entries alone is still
  -- such a log after an action that is recorded.
  pub record_action-IsLog :
      (now : ℕ) (custodian action : String) (timestamp signature : Option String)
      (es : List CustodyEntry) (r : CustodyEntry × List CustodyEntry)
      → IsLog es
      → record_action parse_iso iso_of now custodian action timestamp signature es ≡ ok r
      → IsLog r.1
  record_action-IsLog now custodian action timestamp signature es r log h =
      let (v, l) = record_action-IsRecorded now custodian action timestamp signature es r h in
      subst IsLog l (log_entry-IsLog r.0 es v log)
