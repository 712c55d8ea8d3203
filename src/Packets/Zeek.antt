-- ===== src/Packets/Zeek.antt =====
-- What a run of Zeek leaves (backend/app/engines/packet_intelligence/zeek/result.py) and `ZeekReader`
-- (reader.py of that folder), which turns the lines of its logs into records. `json.loads` and the
-- output folder are parameters.
use net_sleuth_ai.Shared.{
  ℕ, suc, String, ◌||◌, Option, none, some, List, [], ◌∷◌, ◌++◌, ◌==◌, if◌then◌else◌, Result, ok,
  err, strip, prefix, before_suffix, Dict, lookup,
}
use text.Mathlib.Text.{starts_with}
use net_sleuth_ai.Packets.Json.{Json, Fields, object}
pub mod Entries

pub data ZeekRunnerErrorCode : Type 0 where
  docker_not_found docker_daemon_unavailable image_unavailable invalid_input_path
        path_traversal_detected output_dir_error docker_process_failed zeek_nonzero_exit timeout
        capture_not_found :
      ZeekRunnerErrorCode

-- A `ZeekRunnerError`, or another exception, which nothing catches.
pub data ZeekFailure : Type 0 where
  controlled : ZeekRunnerErrorCode → ZeekFailure
  uncaught : ZeekFailure

-- How the reading of a file ends: at its end, with an `OSError`, or at bytes that are not UTF-8.
pub data Ending : Type 0 where
  complete undecodable : Ending
  os_error : (shown : String) → Ending

pub record LogFile : Type 0 where
  pub lines : List String
  pub ending : Ending

pub record ZeekRunnerResult : Type 0 where
  pub acquisition_id : String
  pub output_directory : Option (Dict LogFile)
  pub generated_logs : List String

pub record RawZeekRecord : Type 0 where
  pub acquisition_id : String
  pub source_log : String
  pub log_type : String
  pub fields : Fields
  pub line_number : ℕ

pub record RawZeekErrorRecord : Type 0 where
  pub acquisition_id : String
  pub source_log : String
  pub line_number : ℕ
  pub error_type : String
  pub raw_line : String

-- What the generator yields; `stopped` is the `UnicodeDecodeError` that it raises.
pub data Entry : Type 0 where
  raw : RawZeekRecord → Entry
  malformed : RawZeekErrorRecord → Entry
  stopped : Entry

-- The name without ".log", if it ends in it.
abbrev log_type_of : String → String
log_type_of name = elim (before_suffix ".log" name) [ none ↦ name | some stem ↦ stem ]

module _ (loads : String → Option Json) (acquisition_id : String) where
  unfoldable error_record : String → ℕ → String → String → Entry
  error_record source_log line_number error_type line = malformed (record {
    acquisition_id = acquisition_id;
    source_log = source_log;
    line_number = line_number;
    error_type = error_type;
    raw_line = prefix 200 line;
  })

  -- What `loads` makes of a line that is neither empty nor a comment.
  unfoldable parsed : String → ℕ → String → Option Json → Entry
  unfolding error_record
  parsed name number line none = error_record name number "JSON_DECODE_ERROR" line
  parsed name number line (some (object fields)) = raw (record {
    acquisition_id = acquisition_id;
    source_log = name;
    log_type = log_type_of name;
    fields = fields;
    line_number = number;
  })
  parsed name number line (some v) = error_record name number "INVALID_RECORD_TYPE" line

  unfoldable read_line : String → ℕ → String → List Entry
  unfolding parsed
  read_line name number line =
      let stripped = strip line in
      if stripped == "" || starts_with stripped "#"
      then []
      else parsed name number stripped (loads stripped) ∷ []

  unfoldable read_lines : String → ℕ → List String → List Entry
  unfolding read_line
  read_lines name number [] = []
  read_lines name number (line ∷ lines) =
      read_line name number line ++ read_lines name (suc number) lines

  unfoldable ending : String → Ending → List Entry
  unfolding error_record
  ending name complete = []
  ending name undecodable = stopped ∷ []
  ending name (os_error shown) = error_record name 0 "OS_ERROR" shown ∷ []

  -- `_read_log_file`
  unfoldable read_log_file : String → LogFile → List Entry
  unfolding read_lines ending
  read_log_file name file = read_lines name 1 file.lines ++ ending name file.ending

  unfoldable read_logs : Dict LogFile → List String → List Entry
  unfolding read_log_file
  read_logs files [] = []
  read_logs files (name ∷ names) =
      elim (lookup name files) [ none ↦ [] | some file ↦ read_log_file name file ]
      ++ read_logs files names

unfoldable pub read : (String → Option Json) → ZeekRunnerResult → Result ZeekFailure (List Entry)
unfolding read_logs
read loads result = elim result.output_directory [
  | none ↦ err (controlled output_dir_error)
  | some files ↦ ok (read_logs loads result.acquisition_id files result.generated_logs)
]
