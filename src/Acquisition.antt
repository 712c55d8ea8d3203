-- ===== src/Acquisition.antt =====
-- The acquisition engine (backend/app/engines/acquisition: errors.py, validator.py, hasher.py and
-- service.py). What the file system says of a path is an argument; a file that breaks gives its
-- error at the first read that would pass the last byte that is left.
pub mod Hasher
pub mod Contract
mod Examples
use net_sleuth_ai.Shared.{
  ℕ, zero, suc, ◌≤◌, String, Bool, true, false, not, Option, none, some, List, [], ◌∷◌, ◌++◌, ◌==◌,
  eqb, ltb, if◌then◌else◌, elem, lower, length, Result, ok, err, raise_if, ◌>>=◌, ◌>>◌, ◌≡◌, any,
  is_empty,
}

pub data AcquisitionErrorCode : Type 0 where
  file_not_found not_a_file unsupported_format empty_file unreadable_file : AcquisitionErrorCode
  invalid_capture hash_failure : AcquisitionErrorCode

-- `PermissionError`, and any other `OSError`
pub data OsError : Type 0 where
  permission_error other_os_error : OsError

-- A file that is open: the bytes that are left, and the error that stands after them.
pub record OpenFile : Type 0 where
  pub bytes : List ℕ
  pub fault : Option OsError

-- A resolved path: what `exists`, `is_file`, `suffix`, `stat` and `open` say of it.
pub record ResolvedPath : Type 0 where
  pub path : String
  pub exists : Bool
  pub is_file : Bool
  pub suffix : String
  pub name : String
  pub st_size : Option ℕ
  pub opened : Result OsError OpenFile

abbrev pub take {ℓ} : {A : Type ℓ} → ℕ → List A → List A
take zero xs = []
take (suc n) [] = []
take (suc n) (x ∷ xs) = x ∷ take n xs

abbrev pub drop {ℓ} : {A : Type ℓ} → ℕ → List A → List A
drop zero xs = xs
drop (suc n) [] = []
drop (suc n) (x ∷ xs) = drop n xs

-- `fh.read(n)`: at most `n` bytes, and fewer at the end of the file only.
pub read : ℕ → OpenFile → Result OsError (List ℕ × OpenFile)
read n file = elim file.fault [
  | none ↦ ok (take n file.bytes, record file { bytes = drop n file.bytes })
  | some e ↦
      if ltb (length file.bytes) n
      then err e
      else ok (take n file.bytes, record file { bytes = drop n file.bytes })
]

-- A `hashlib` object: it is fed in pieces, and its digest is that of the pieces together.
pub record HashAlgorithm : Type 1 where
  pub State : Type 0
  pub new : State
  pub update : State → List ℕ → State
  pub hexdigest : State → String
  pub update_nothing : (s : State) → update s [] ≡ s
  pub update_append : (s : State) (a b : List ℕ) → update (update s a) b ≡ update s (a ++ b)

-- `hashlib.sha256(data).hexdigest()`
abbrev pub digest_of : HashAlgorithm → List ℕ → String
digest_of h bytes = h.hexdigest (h.update h.new bytes)

-- Steps 2 to 5 of `validate`, and the result.
pub record ValidationResult : Type 0 where
  pub resolved_path : ResolvedPath
  pub format : String
  pub file_size : ℕ
  pub file_name : String

abbrev supported_extensions : List String
supported_extensions = ".pcap" ∷ ".pcapng" ∷ []

-- `raise AcquisitionError(code)` for the errors of a read.
abbrev pub raised_as : AcquisitionErrorCode → OsError → AcquisitionErrorCode
raised_as other permission_error = unreadable_file
raised_as other other_os_error = other

abbrev pub translated {ℓ} :
    {A : Type ℓ} → AcquisitionErrorCode → Result OsError A → Result AcquisitionErrorCode A
translated other (ok a) = ok a
translated other (err e) = err (raised_as other e)

pub same_bytes : List ℕ → List ℕ → Bool
same_bytes [] [] = true
same_bytes [] (y ∷ ys) = false
same_bytes (x ∷ xs) [] = false
same_bytes (x ∷ xs) (y ∷ ys) = let rest = same_bytes xs ys in if eqb x y then rest else false

abbrev pub pcap_magic_bytes : List (List ℕ)
pcap_magic_bytes =
    (212 ∷ 195 ∷ 178 ∷ 161 ∷ [])
    ∷ (161 ∷ 178 ∷ 195 ∷ 212 ∷ [])
    ∷ (77 ∷ 60 ∷ 178 ∷ 161 ∷ [])
    ∷ (161 ∷ 178 ∷ 60 ∷ 77 ∷ [])
    ∷ []

abbrev pub pcapng_magic : List ℕ
pcapng_magic = 10 ∷ 13 ∷ 13 ∷ 10 ∷ []

-- The format that four bytes stand for.
pub format_of : List ℕ → Result AcquisitionErrorCode String
unfolding same_bytes
format_of magic =
    if ltb (length magic) 4
    then err invalid_capture
    else if same_bytes magic pcapng_magic
    then ok "pcapng"
    else if any (same_bytes magic) pcap_magic_bytes
    then ok "pcap"
    else err invalid_capture

pub read_and_validate_magic : ResolvedPath → Result AcquisitionErrorCode String
unfolding read format_of
read_and_validate_magic resolved = do
  file ← translated unreadable_file resolved.opened
  got ← translated unreadable_file (read 4 file)
  format_of got.0

-- `resolved.stat().st_size`
abbrev pub size_of : Option ℕ → Result AcquisitionErrorCode ℕ
size_of none = err unreadable_file
size_of (some n) = ok n

-- `Path(path).resolve()` gives nothing for an argument that is no path.
pub validate : Option ResolvedPath → Result AcquisitionErrorCode ValidationResult
unfolding read_and_validate_magic
validate none = err file_not_found
validate (some resolved) = do
  raise_if (not resolved.exists) file_not_found
  raise_if (not resolved.is_file) not_a_file
  raise_if (not (elem (lower resolved.suffix) supported_extensions)) unsupported_format
  file_size ← size_of resolved.st_size
  raise_if (eqb file_size 0) empty_file
  format ← read_and_validate_magic resolved
  ok (record {
    resolved_path = resolved;
    format = format;
    file_size = file_size;
    file_name = resolved.name;
  })

-- The loop, with as many rounds as `fuel`: each but the last takes a byte at least.
pub update_all : (h : HashAlgorithm) → ℕ → ℕ → h.State → OpenFile → Result OsError h.State
unfolding read
update_all h chunk_size zero state file = ok state
update_all h chunk_size (suc fuel) state file = read chunk_size file >>= λ got.
    if is_empty got.0 then ok state else update_all h chunk_size fuel (h.update state got.0) got.1

-- One more round than there are bytes is enough.
pub compute_sha256 : HashAlgorithm → ResolvedPath → Result AcquisitionErrorCode String
unfolding update_all
compute_sha256 h resolved = do
  file ← translated hash_failure resolved.opened
  state ← translated hash_failure (update_all h 65536 (suc (length file.bytes)) h.new file)
  ok (h.hexdigest state)

pub record AcquisitionReference : Type 0 where
  pub acquisition_id : String
  pub evidence_id : String
  pub file_name : String
  pub file_size : ℕ
  pub format : String
  pub sha256 : String
  pub capture_reference : String

pub build_reference : String → String → ValidationResult → String → AcquisitionReference
build_reference acquisition_id evidence_id v sha256 = record {
  acquisition_id = acquisition_id;
  evidence_id = evidence_id;
  file_name = v.file_name;
  file_size = v.file_size;
  format = v.format;
  sha256 = sha256;
  capture_reference = v.resolved_path.path;
}

-- The identifiers are those that `uuid4` makes.
pub acquire :
    HashAlgorithm
    → String
    → String
    → Option ResolvedPath
    → Result AcquisitionErrorCode AcquisitionReference
unfolding validate compute_sha256 build_reference
acquire h acquisition_id evidence_id path = do
  validation ← validate path
  sha256_digest ← compute_sha256 h validation.resolved_path
  ok (build_reference acquisition_id evidence_id validation sha256_digest)
