-- ===== src/Reporting/Custody.antt =====
-- `CustodyEntry` and `ChainOfCustody` (backend/app/engines/reporting/chain_of_custody.py). Python's
-- `datetime` is given by the parser of ISO 8601, which refuses a time without a zone and gives the
-- instant in UTC, and by its printer.
pub mod Log
pub mod Contents
use net_sleuth_ai.Shared.{
  ℕ, String, Bool, true, false, ◌&&◌, ◌||◌, not, Option, none, some, List, [], ◌∷◌, ◌++◌, ◌==◌,
  if◌then◌else◌, leb, any, elem, is_some, Result, ok, err, strip, sort_by,
}

pub record CustodyEntry : Type 0 where
  pub custodian_id : String
  pub action : String
  pub timestamp : String
  pub signature : Option String

pub data CustodyError : Type 0 where
  bad_timestamp missing_custodian missing_action action_not_allowed : CustodyError

abbrev pub allowed_custody_actions : List String
allowed_custody_actions = "ingest" ∷ "verify" ∷ "export" ∷ "transfer" ∷ "inspect" ∷ "archive" ∷ []

-- `not s or not s.strip()`
abbrev pub is_blank_text : String → Bool
is_blank_text s = s == "" || strip s == ""

abbrev pub same_signature : Option String → Option String → Bool
same_signature none none = true
same_signature (some a) (some b) = a == b
same_signature _ _ = false

-- The duplicate test of `record_action`.
abbrev pub same_entry : CustodyEntry → CustodyEntry → Bool
same_entry a b =
    a.custodian_id == b.custodian_id
    && a.action == b.action
    && a.timestamp == b.timestamp
    && same_signature a.signature b.signature

module _ (parse_iso : String → Option ℕ) (iso_of : ℕ → String) where
  -- `parse_iso_timestamp`
  unfoldable pub parse_iso_timestamp : String → Result CustodyError ℕ
  parse_iso_timestamp text =
      if is_blank_text text
      then err bad_timestamp
      else elim (parse_iso text) [ none ↦ err bad_timestamp | some t ↦ ok t ]

  -- `CustodyEntry.__post_init__`
  unfoldable pub checked : CustodyEntry → Result CustodyError CustodyEntry
  checked e =
      if is_blank_text e.custodian_id
      then err missing_custodian
      else if is_blank_text e.action
      then err missing_action
      else if not (elem e.action allowed_custody_actions)
      then err action_not_allowed
      else elim (parse_iso_timestamp e.timestamp) [ err x ↦ err x | ok t ↦ ok e ]

  -- The key of the sort; an entry of the log has a timestamp that parses.
  unfoldable pub instant : CustodyEntry → ℕ
  instant e = elim (parse_iso_timestamp e.timestamp) [ err x ↦ 0 | ok t ↦ t ]

  abbrev pub no_later : CustodyEntry → CustodyEntry → Bool
  no_later a b = leb (instant a) (instant b)

  -- The text that the entry is given for its time.
  unfoldable pub timestamp_of : ℕ → Option String → Result CustodyError String
  timestamp_of now none = ok (iso_of now)
  timestamp_of now (some text) = elim (parse_iso_timestamp text) [
    | err x ↦ err x
    | ok t ↦ ok (iso_of t)
  ]

  -- The log after an entry that has been checked.
  unfoldable pub log_entry : CustodyEntry → List CustodyEntry → List CustodyEntry
  log_entry e entries =
      if any (same_entry e) entries then entries else sort_by no_later (entries ++ e ∷ [])

  -- What follows once the entry's time is known.
  unfoldable pub record_entry :
      CustodyEntry → List CustodyEntry → Result CustodyError (CustodyEntry × List CustodyEntry)
  record_entry entry entries = elim (checked entry) [
    | err x ↦ err x
    | ok e ↦ ok (e, log_entry e entries)
  ]

  -- `record_action`: the entry that is returned, and the log after it.
  unfoldable pub record_action :
      ℕ
      → String
      → String
      → Option String
      → Option String
      → List CustodyEntry
      → Result CustodyError (CustodyEntry × List CustodyEntry)
  record_action now custodian action timestamp signature entries =
      elim (timestamp_of now timestamp) [
        | err x ↦ err x
        | ok ts ↦
            record_entry
              (record {
                custodian_id = custodian;
                action = action;
                timestamp = ts;
                signature = signature;
              })
              entries
      ]
