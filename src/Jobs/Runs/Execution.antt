-- ===== src/Jobs/Runs/Execution.antt =====
-- What the background task of a job comes to (`execute_analysis_background`).
use net_sleuth_ai.Shared.{
  ℕ, String, Option, none, some, List, [], ◌∷◌, ◌≡◌, refl, if◌then◌else◌, ◌==◌, ok, err, Result,
  lookup, map, Bool-cases, inl, inr,
}
use net_sleuth_ai.Jobs.Table.{JobStatus, update_job}
use net_sleuth_ai.Jobs.Service.{
  Outcomes, Outcome, initializing, finished, Job, AuditAction, analysis_started, analysis_completed,
  analysis_failed, fail, start_running, load_acquisition, enter_m1, run_m1, run_pipeline, run_phase,
  execute_analysis_background, error_code_of,
}

abbrev pipeline_failure : Result String String → Option String
pipeline_failure (err message) = some "M3_CORRELATION_FAILED"
pipeline_failure (ok status) = if status == "success" then none else some "M3_CORRELATION_FAILED"

abbrev m1_failure : Result String (Unit {0}) → Result String String → Option String
m1_failure (err message) pipeline = some "M1_PROCESSING_FAILED"
m1_failure (ok produced) pipeline = pipeline_failure pipeline

abbrev failure_of :
    Option (List String) → Result String (Unit {0}) → Result String String → Option String
failure_of none m1 pipeline = some "ACQUISITION_LOAD_FAILED"
failure_of (some []) m1 pipeline = some "ACQUISITION_LOAD_FAILED"
failure_of (some (e ∷ es)) m1 pipeline = m1_failure m1 pipeline

-- The error code of the first part that does not succeed, if there is one.
abbrev pub failure : Outcomes → Option String
failure o = failure_of o.acquisition o.m1 o.pipeline

abbrev status_after : Option String → JobStatus
status_after none = JobStatus.completed
status_after (some code) = JobStatus.failed

abbrev actions_after : Option String → List AuditAction
actions_after none = analysis_started ∷ analysis_completed ∷ []
actions_after (some code) = analysis_started ∷ analysis_failed ∷ []

-- The task is over, and its status, its error code and its audit events tell the outcome.
abbrev pub EndsWith : Option String → Outcome → Type 0
EndsWith code r =
    (r.0.phase ≡ finished)
    × (r.0.row.status ≡ status_after code)
    × (r.0.row.error_code ≡ code)
    × (map (λ a. a.action) r.1 ≡ actions_after code)

module _ (now : ℕ) (job : Job) (waiting : job.phase ≡ initializing)
    (clean : job.row.error_code ≡ none) where
  abbrev run : Option (List String) → Result String (Unit {0}) → Result String String → Outcome
  run a m p = execute_analysis_background now (record { acquisition = a; m1 = m; pipeline = p }) job

  run-EndsWith :
      (a : Option (List String)) (m : Result String (Unit {0})) (p : Result String String)
      → EndsWith (failure_of a m p) (run a m p)
  unfolding execute_analysis_background run_phase start_running load_acquisition enter_m1 run_m1
      run_pipeline fail update_job error_code_of lookup
  run-EndsWith none m p = rw waiting (refl, refl, refl, refl)
  run-EndsWith (some []) m p = rw waiting (refl, refl, refl, refl)
  run-EndsWith (some (e ∷ es)) (err x) p = rw waiting (refl, refl, refl, refl)
  run-EndsWith (some (e ∷ es)) (ok y) (err x) = rw waiting (refl, refl, refl, refl)
  run-EndsWith (some (e ∷ es)) (ok y) (ok s) = elim (Bool-cases (s == "success")) [
    | inl h ↦ rw (waiting, h) (refl, refl, clean, refl)
    | inr h ↦ rw (waiting, h) (refl, refl, refl, refl)
  ]

  -- The task of a job that waits and has no error code comes to an end, whatever the outcomes: the
  -- job is completed without an error code if the acquisition has evidence, the packet engine gives
  -- a package and the pipeline reports success, and is failed with the code of the first of these
  -- that does not hold otherwise; the start and the end are audited.
  pub execute_analysis_background-EndsWith :
      (o : Outcomes) → EndsWith (failure o) (execute_analysis_background now o job)
  execute_analysis_background-EndsWith o = run-EndsWith o.acquisition o.m1 o.pipeline
