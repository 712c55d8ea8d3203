-- ===== src/Reporting/Custody/Contents.antt =====
-- Which entries the log of `ChainOfCustody` has after `record_action`.
use net_sleuth_ai.Shared.{
  ℕ, String, true, ◌||◌, Option, none, some, List, [], ◌∷◌, ◌++◌, any, Result, ok, err, ◌≡◌, refl,
  sym, ap, ◌∙◌, subst, arith, eq_iff, any-sort_by, any-append, Bool-cases, inl, inr,
}
use net_sleuth_ai.Reporting.Custody.{
  CustodyEntry, CustodyError, same_signature, same_entry, timestamp_of, no_later, log_entry,
  record_entry, record_action,
}
use net_sleuth_ai.Reporting.Custody.Log.{
  same_entry_refl, checked-eq, IsValid, record_entry-IsRecorded, record_action-IsRecorded,
}

same_signature-eq : (a b : Option String) → same_signature a b ≡ true → a ≡ b
same_signature-eq none none h = refl
same_signature-eq none (some b) h = cc
same_signature-eq (some a) none h = cc
same_signature-eq (some a) (some b) h = ap some ((eq_iff a b).0 h)

same_entry-eq : (a b : CustodyEntry) → same_entry a b ≡ true → a ≡ b
same_entry-eq a b h =
    let s = same_signature-eq a.signature b.signature in
    let i : a.custodian_id ≡ b.custodian_id =
      ground (arith, h, eq_iff a.custodian_id b.custodian_id) in
    let c : a.action ≡ b.action = ground (arith, h, eq_iff a.action b.action) in
    let t : a.timestamp ≡ b.timestamp = ground (arith, h, eq_iff a.timestamp b.timestamp) in
    let g : a.signature ≡ b.signature = s (ground (arith, h)) in cc (i, c, t, g)

module _ (parse_iso : String → Option ℕ) (iso_of : ℕ → String) where
  -- The log has the entry, and the entries of before, and no other.
  any-log_entry :
      (x e : CustodyEntry) (es : List CustodyEntry)
      → any (same_entry x) (log_entry parse_iso iso_of e es)
        ≡ (same_entry x e || any (same_entry x) es)
  unfolding log_entry
  any-log_entry x e es = elim (Bool-cases (any (same_entry e) es)) [
    | inl d ↦ rw d (absorbed d)
    | inr d ↦ rw d (
        any-sort_by (no_later parse_iso iso_of) (same_entry x) (es ++ e ∷ [])
        ∙ any-append (same_entry x) es (e ∷ [])
        ∙ ground arith)
  ]
    where
      absorbed :
          any (same_entry e) es ≡ true
          → any (same_entry x) es ≡ (same_entry x e || any (same_entry x) es)
      absorbed d = elim (Bool-cases (same_entry x e)) [
        | inl s ↦
            subst (λ y. any (same_entry y) es ≡ true) (sym (same_entry-eq x e s)) d
            ∙ ground (arith, s)
        | inr s ↦ ground (arith, s)
      ]

  -- After an action that is recorded, the log has an entry if and only if it had it before or it is
  -- the entry that is returned.
  pub any-record_action :
      (now : ℕ) (custodian action : String) (timestamp signature : Option String)
      (es : List CustodyEntry) (r : CustodyEntry × List CustodyEntry) (x : CustodyEntry)
      → record_action parse_iso iso_of now custodian action timestamp signature es ≡ ok r
      → any (same_entry x) r.1 ≡ (same_entry x r.0 || any (same_entry x) es)
  any-record_action now custodian action timestamp signature es r x h =
      let (v, l) =
        record_action-IsRecorded parse_iso iso_of now custodian action timestamp signature es r h in
      rw⁻¹ l (any-log_entry x r.0 es)

  -- A log that has the entry already is left as it is.
  log_entry-of_known :
      (e : CustodyEntry) (log : List CustodyEntry)
      → any (same_entry e) log ≡ true
      → log_entry parse_iso iso_of e log ≡ log
  unfolding log_entry
  log_entry-of_known e log h = rw h refl

  log_entry-again :
      (e : CustodyEntry) (es : List CustodyEntry)
      → log_entry parse_iso iso_of e (log_entry parse_iso iso_of e es)
        ≡ log_entry parse_iso iso_of e es
  log_entry-again e es =
      log_entry-of_known e (log_entry parse_iso iso_of e es)
        (any-log_entry e e es ∙ ground (arith, same_entry_refl e))

  record_entry-of_valid :
      (e : CustodyEntry) (log : List CustodyEntry)
      → IsValid parse_iso iso_of e
      → record_entry parse_iso iso_of e log ≡ ok (e, log_entry parse_iso iso_of e log)
  unfolding record_entry
  record_entry-of_valid e log v = ground (arith, v)

  entry-record_entry :
      (e : CustodyEntry) (es : List CustodyEntry) (r : CustodyEntry × List CustodyEntry)
      → record_entry parse_iso iso_of e es ≡ ok r
      → e ≡ r.0
  unfolding record_entry
  entry-record_entry e es r h = ground (arith, h, checked-eq parse_iso iso_of e r.0)

  record_entry-again :
      (e : CustodyEntry) (es : List CustodyEntry) (r : CustodyEntry × List CustodyEntry)
      → record_entry parse_iso iso_of e es ≡ ok r
      → record_entry parse_iso iso_of e r.1 ≡ ok r
  record_entry-again e es r h =
      let (v, l) = record_entry-IsRecorded parse_iso iso_of e es r h in
      let kept : log_entry parse_iso iso_of r.0 r.1 ≡ r.1 =
        subst (λ log. log_entry parse_iso iso_of r.0 log ≡ log) l (log_entry-again r.0 es) in
      subst (λ x. record_entry parse_iso iso_of x r.1 ≡ ok r) (sym (entry-record_entry e es r h))
        (record_entry-of_valid r.0 r.1 v ∙ ap (λ log. ok (r.0, log)) kept)

  -- An action at a stated time that was recorded is recorded again with the same entry, and the log
  -- stays as it was, whatever the clock says.
  pub record_action-again :
      (now later : ℕ) (custodian action time : String) (signature : Option String)
      (es : List CustodyEntry) (r : CustodyEntry × List CustodyEntry)
      → record_action parse_iso iso_of now custodian action (some time) signature es ≡ ok r
      → record_action parse_iso iso_of later custodian action (some time) signature r.1 ≡ ok r
  unfolding record_action timestamp_of
  record_action-again now later custodian action time signature es r h =
      by_time (timestamp_of parse_iso iso_of now (some time)) h
    where
      at_time :
          Result CustodyError String
          → List CustodyEntry
          → Result CustodyError (CustodyEntry × List CustodyEntry)
      at_time t log = elim t [
        | err x ↦ err x
        | ok ts ↦
            record_entry parse_iso iso_of
              (record {
                custodian_id = custodian;
                action = action;
                timestamp = ts;
                signature = signature;
              })
              log
      ]

      by_time : (t : Result CustodyError String) → at_time t es ≡ ok r → at_time t r.1 ≡ ok r
      by_time (err x) h = ground (arith, h)
      by_time (ok ts) h =
          record_entry-again
            (record {
              custodian_id = custodian;
              action = action;
              timestamp = ts;
              signature = signature;
            })
            es r h
