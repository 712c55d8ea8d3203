-- ===== src/Reporting/Integrity.antt =====
-- `IntegrityVerifier` (backend/app/engines/reporting/integrity_verifier.py). The bytes of a piece of
-- evidence are a text, the digests of hashlib and the check against the JSON schema are parameters.
-- The optional entries that `verify` copies into its result are left out.
pub mod Verdicts
use net_sleuth_ai.Shared.{
  ℕ, String, Bool, true, false, not, ◌&&◌, ◌||◌, Option, none, some, List, [], ◌∷◌, ◌==◌,
  if◌then◌else◌, elem, Result, ok, err, ◌>>=◌, lower, upper,
}

pub data IntegrityError : Type 0 where
  missing_evidence_id missing_case_id invalid_evidence_type unsupported_algorithm schema_violation :
      IntegrityError

pub data VerificationStatus : Type 0 where
  verified mismatch unverified : VerificationStatus

-- The entries of the dictionary that `verify` is given; `none` for one that is missing.
pub record Metadata : Type 0 where
  pub evidence_id : Option String
  pub case_id : Option String
  pub evidence_type : Option String
  pub source_id : Option String
  pub expected_hash : Option String
  pub hash_algorithm : Option String

pub record IntegrityResult : Type 0 where
  pub evidence_id : String
  pub case_id : String
  pub evidence_type : String
  pub source_id : Option String
  pub expected_hash : Option String
  pub calculated_hash : Option String
  pub hash_algorithm : Option String
  pub verification_status : VerificationStatus
  pub verified_at : ℕ

abbrev pub canonical_evidence_types : List String
canonical_evidence_types =
    "pcap" ∷ "flow" ∷ "session" ∷ "dns" ∷ "http" ∷ "tls" ∷ "artifact" ∷ "log" ∷ "finding" ∷ []

abbrev pub supported_hash_algorithms : List String
supported_hash_algorithms = "SHA-256" ∷ "SHA-512" ∷ "MD5" ∷ []

-- A text that is there and not empty.
unfoldable pub required : IntegrityError → Option String → Result IntegrityError String
required e none = err e
required e (some s) = if s == "" then err e else ok s

unfoldable pub required_type : Option String → Result IntegrityError String
required_type none = err invalid_evidence_type
required_type (some s) =
    if not (s == "") && elem s canonical_evidence_types then ok s else err invalid_evidence_type

-- An algorithm that is not supported counts as none.
unfoldable pub known_algorithm : Option String → Option String
known_algorithm none = none
known_algorithm (some a) = if elem a supported_hash_algorithms then some a else none

unfoldable pub compared : String → Option String → VerificationStatus
compared calculated none = unverified
compared calculated (some expected) =
    if expected == ""
    then unverified
    else if lower calculated == lower expected
    then verified
    else mismatch

module _ (sha256_hex : String → String) (sha512_hex : String → String)
    (md5_hex : String → String) where
  unfoldable pub calculate_hash : String → String → Result IntegrityError String
  calculate_hash bytes algorithm =
      let name = upper algorithm in
      if name == "SHA-256"
      then ok (sha256_hex bytes)
      else if name == "SHA-512"
      then ok (sha512_hex bytes)
      else if name == "MD5"
      then ok (md5_hex bytes)
      else err unsupported_algorithm

  -- The calculated hash and the status.
  unfoldable pub judged :
      Option String
      → Option String
      → Option String
      → Result IntegrityError (Option String × VerificationStatus)
  judged (some algorithm) (some bytes) expected = do
    calculated ← calculate_hash bytes algorithm
    ok (some calculated, compared calculated expected)
  judged _ _ expected = ok (none, unverified)

  module _ (conforms : IntegrityResult → Bool) (now : ℕ) where
    -- The result, once it fits the schema.
    unfoldable pub report :
        Metadata
        → String
        → String
        → String
        → Option String × VerificationStatus
        → Result IntegrityError IntegrityResult
    report metadata evidence case type outcome =
        let result : IntegrityResult = record {
          evidence_id = evidence;
          case_id = case;
          evidence_type = type;
          source_id = metadata.source_id;
          expected_hash = metadata.expected_hash;
          calculated_hash = outcome.0;
          hash_algorithm = known_algorithm metadata.hash_algorithm;
          verification_status = outcome.1;
          verified_at = now;
        } in
        if conforms result then ok result else err schema_violation

    unfoldable pub verify : Metadata → Option String → Result IntegrityError IntegrityResult
    verify metadata bytes = do
      evidence ← required missing_evidence_id metadata.evidence_id
      case ← required missing_case_id metadata.case_id
      type ← required_type metadata.evidence_type
      outcome ← judged (known_algorithm metadata.hash_algorithm) bytes metadata.expected_hash
      report metadata evidence case type outcome
