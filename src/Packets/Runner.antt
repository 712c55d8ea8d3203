-- ===== src/Packets/Runner.antt =====
-- `ZeekRunner.run` (backend/app/engines/packet_intelligence/zeek/runner.py): the checks before Zeek
-- runs in Docker, the run, and the list of the logs that it left. What the subprocesses and the file
-- system answer is a record; a path is the list of its parts. The exit code, the duration, the
-- version and the tail of stderr, which nothing reads, are left out of the result.
use net_sleuth_ai.Shared.{
  ℕ, String, Bool, true, false, not, ◌&&◌, Option, none, some, List, [], ◌∷◌, ◌++◌, map, select,
  any, ◌==◌, eqb, elem, ◌≡◌, refl, ap, arith, eq_iff, Result, ok, err, raise_if, ◌>>=◌, ◌>>◌,
  >>=-eq-ok, >>-eq-ok, raise_if-eq-ok, ok-injective, sorted, Dict, inl, inr, Bool-cases,
}
use net_sleuth_ai.Correlation.Domain.{Integer, whole}
use net_sleuth_ai.Packets.Zeek.{
  docker_not_found, docker_daemon_unavailable, image_unavailable, invalid_input_path,
  path_traversal_detected, output_dir_error, docker_process_failed, zeek_nonzero_exit, timeout,
  capture_not_found, ZeekFailure, controlled, uncaught, LogFile, ZeekRunnerResult,
}
pub mod Guard

-- How a `subprocess.run` ends: with a return code, in a `TimeoutExpired`, in another
-- `SubprocessError`, or in another exception.
pub data Ran : Type 0 where
  exited : (code : Integer) → Ran
  timed_out subprocess_error other_exception : Ran

-- A resolved path, and whether something exists there, a file or a folder (`Path.exists`).
pub record Resolved : Type 0 where
  pub parts : List String
  pub exists : Bool

pub record Host : Type 0 where
  pub docker_on_path : Bool
  pub docker_info : Ran
  pub zeek_version : Ran
  pub resolve : String → Option Resolved
  pub makes_directory : Bool
  pub execution : Ran
  pub listing : Option (List (String × Bool))
  pub output_directory : Option (Dict LogFile)
  pub allowed_evidence_roots : List (List String)

abbrev is_zero : Integer → Bool
is_zero (whole negative n) = eqb n 0

-- `_check_docker_env`: its own error is caught by its `except Exception`, which raises it again.
abbrev daemon_answer : Ran → Result ZeekFailure (Unit {0})
daemon_answer (exited code) = raise_if (not (is_zero code)) (controlled docker_daemon_unavailable)
daemon_answer timed_out = err (controlled timeout)
daemon_answer subprocess_error = err (controlled docker_daemon_unavailable)
daemon_answer other_exception = err (controlled docker_daemon_unavailable)

unfoldable pub check_docker_env : Host → Result ZeekFailure (Unit {0})
check_docker_env host = do
  raise_if (not host.docker_on_path) (controlled docker_not_found)
  daemon_answer host.docker_info

-- `_get_zeek_version`, which also raises its own error again
unfoldable pub get_zeek_version : Ran → Result ZeekFailure (Unit {0})
get_zeek_version (exited code) = raise_if (not (is_zero code)) (controlled image_unavailable)
get_zeek_version timed_out = err (controlled timeout)
get_zeek_version subprocess_error = err (controlled image_unavailable)
get_zeek_version other_exception = err (controlled image_unavailable)

-- `resolved.relative_to(root)` returns
unfoldable pub is_under : List String → List String → Bool
is_under [] path = true
is_under (r ∷ root) [] = false
is_under (r ∷ root) (p ∷ path) = r == p && is_under root path

abbrev pub resolved_or_fail : Option Resolved → Result ZeekFailure Resolved
resolved_or_fail none = err (controlled invalid_input_path)
resolved_or_fail (some resolved) = ok resolved

-- What `_validate_input_path` asks of the resolved path.
unfoldable pub check_resolved : Host → Resolved → Result ZeekFailure (List String)
check_resolved host resolved = do
  raise_if (not resolved.exists) (controlled capture_not_found)
  raise_if (not (any (λ root. is_under root resolved.parts) host.allowed_evidence_roots))
      (controlled path_traversal_detected)
  ok resolved.parts

-- `_validate_input_path`
unfoldable pub validate_input_path : Host → String → Result ZeekFailure (List String)
validate_input_path host capture_reference =
    resolved_or_fail (host.resolve capture_reference) >>= check_resolved host

-- The run of Zeek, in its `try`.
unfoldable pub execute : Ran → Result ZeekFailure (Unit {0})
execute (exited code) = raise_if (not (is_zero code)) (controlled zeek_nonzero_exit)
execute timed_out = err (controlled timeout)
execute subprocess_error = err (controlled docker_process_failed)
execute other_exception = err uncaught

abbrev pub directory_entries :
    Option (List (String × Bool)) → Result ZeekFailure (List (String × Bool))
directory_entries none = err (controlled output_dir_error)
directory_entries (some entries) = ok entries

-- `run`
unfoldable pub run_zeek : Host → String → String → Result ZeekFailure ZeekRunnerResult
run_zeek host acquisition_id capture_reference = do
  check_docker_env host
  get_zeek_version host.zeek_version
  path ← validate_input_path host capture_reference
  raise_if (not host.makes_directory) (controlled output_dir_error)
  execute host.execution
  entries ← directory_entries host.listing
  ok (record {
    acquisition_id = acquisition_id;
    output_directory = host.output_directory;
    generated_logs = sorted (map (λ e. e.0) (select (λ e. e.1) entries));
  })
