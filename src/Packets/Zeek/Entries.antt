-- ===== src/Packets/Zeek/Entries.antt =====
-- That the records which `ZeekReader` (backend/app/engines/packet_intelligence/zeek/reader.py) yields
-- are of the acquisition of the run.
use net_sleuth_ai.Shared.{
  ℕ, suc, String, Option, none, some, List, [], ◌∷◌, ◌==◌, ◌||◌, ◌≡◌, refl, subst, All, All-append,
  ok, strip, if_ind, Dict, lookup, ok-injective,
}
use package.text.Mathlib.Text.{starts_with}
use net_sleuth_ai.Packets.Json.{Json, null, boolean, integer, real, text, array, object}
use net_sleuth_ai.Packets.Zeek.{
  Ending, complete, undecodable, os_error, LogFile, ZeekRunnerResult, Entry, raw, error_record,
  parsed, read_line, read_lines, ending, read_log_file, read_logs, read,
}

-- The records of an acquisition.
abbrev pub IsOf : String → Entry → Type 0
IsOf acquisition_id (raw r) = r.acquisition_id ≡ acquisition_id
IsOf acquisition_id e = Unit

module _ (loads : String → Option Json) (acquisition_id : String) where
  parsed-IsOf :
      (name : String) (number : ℕ) (line : String) (o : Option Json)
      → IsOf acquisition_id (parsed loads acquisition_id name number line o)
  unfolding parsed error_record
  parsed-IsOf name number line none = tt
  parsed-IsOf name number line (some null) = tt
  parsed-IsOf name number line (some (boolean b)) = tt
  parsed-IsOf name number line (some (integer n)) = tt
  parsed-IsOf name number line (some (real x)) = tt
  parsed-IsOf name number line (some (text s)) = tt
  parsed-IsOf name number line (some (array items)) = tt
  parsed-IsOf name number line (some (object fields)) = refl

  read_lines-IsOf :
      (name : String) (number : ℕ) (lines : List String)
      → All (IsOf acquisition_id) (read_lines loads acquisition_id name number lines)
  unfolding read_lines read_line
  read_lines-IsOf name number [] = tt
  read_lines-IsOf name number (line ∷ lines) =
      All-append (IsOf acquisition_id) (read_line loads acquisition_id name number line)
        (read_lines loads acquisition_id name (suc number) lines)
        (if_ind (All (IsOf acquisition_id)) (strip line == "" || starts_with (strip line) "#")
          (λ e. tt) (λ e. (parsed-IsOf name number (strip line) (loads (strip line)), tt)))
        (read_lines-IsOf name (suc number) lines)

  ending-IsOf :
      (name : String) (e : Ending) → All (IsOf acquisition_id) (ending loads acquisition_id name e)
  unfolding ending error_record
  ending-IsOf name complete = tt
  ending-IsOf name undecodable = (tt, tt)
  ending-IsOf name (os_error shown) = (tt, tt)

  logged-IsOf :
      (name : String) (o : Option LogFile)
      → All
          (IsOf acquisition_id)
          (elim o [ none ↦ [] | some file ↦ read_log_file loads acquisition_id name file ])
  unfolding read_log_file
  logged-IsOf name none = tt
  logged-IsOf name (some file) =
      All-append (IsOf acquisition_id) (read_lines loads acquisition_id name 1 file.lines)
        (ending loads acquisition_id name file.ending) (read_lines-IsOf name 1 file.lines)
        (ending-IsOf name file.ending)

  read_logs-IsOf :
      (files : Dict LogFile) (names : List String)
      → All (IsOf acquisition_id) (read_logs loads acquisition_id files names)
  unfolding read_logs
  read_logs-IsOf files [] = tt
  read_logs-IsOf files (name ∷ names) =
      All-append (IsOf acquisition_id) _ (read_logs loads acquisition_id files names)
        (logged-IsOf name (lookup name files)) (read_logs-IsOf files names)

entries-IsOf :
    (loads : String → Option Json) (result : ZeekRunnerResult) (o : Option (Dict LogFile))
    (entries : List Entry)
    → result.output_directory ≡ o
    → read loads result ≡ ok entries
    → All (IsOf result.acquisition_id) entries
unfolding read
entries-IsOf loads result none entries e h = cc
entries-IsOf loads result (some files) entries e h =
    let same = rw e at h in
    subst (All (IsOf result.acquisition_id)) (ok-injective same)
      (read_logs-IsOf loads result.acquisition_id files result.generated_logs)

pub read-IsOf :
    (loads : String → Option Json) (result : ZeekRunnerResult) (entries : List Entry)
    → read loads result ≡ ok entries
    → All (IsOf result.acquisition_id) entries
read-IsOf loads result entries h = entries-IsOf loads result result.output_directory entries refl h
