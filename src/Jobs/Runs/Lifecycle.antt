-- ===== src/Jobs/Runs/Lifecycle.antt =====
-- What the columns of a job say of one another, and that a job that has ended stays as it is.
use net_sleuth_ai.Shared.{
  ℕ, String, true, Option, none, some, List, [], ◌∷◌, ◌≡◌, refl, sym, arith, All, All-append,
  is_some, ◌==◌, if_ind, ok, err, Result,
}
use net_sleuth_ai.Jobs.Table.{JobStatus, AnalysisJob, update_job, new_job, modify}
use net_sleuth_ai.Jobs.Service.{
  Outcomes, Outcome, Phase, initializing, loading, loaded, packet_intelligence, correlation,
  finished, Job, Database, fail, start_running, load_acquisition, enter_m1, run_m1, run_pipeline,
  run_phase,
}
use net_sleuth_ai.Jobs.Runs.Moves.{moved, new_row, jobs-advance, jobs-start_analysis}
use net_sleuth_ai.Jobs.Runs.{Step, requested, advanced, Reachable, initial, next}

-- A job that has ended by its status.
abbrev pub HasEnded : JobStatus → AnalysisJob → Type 0
HasEnded JobStatus.completed row =
    (row.error_code ≡ none) × (row.progress ≡ some 100) × (row.current_stage ≡ some "COMPLETED")
HasEnded JobStatus.failed row = is_some row.error_code ≡ true
HasEnded _ row = ⊥

-- The columns by the phase of the task.
abbrev pub HasPhase : Phase → AnalysisJob → Type 0
HasPhase initializing row =
    (row.status ≡ JobStatus.queued)
    × (row.started_at ≡ none)
    × (row.completed_at ≡ none)
    × (row.error_code ≡ none)
HasPhase finished row =
    HasEnded row.status row × (is_some row.started_at ≡ true) × (is_some row.completed_at ≡ true)
HasPhase _ row =
    (row.status ≡ JobStatus.running)
    × (is_some row.started_at ≡ true)
    × (row.completed_at ≡ none)
    × (row.error_code ≡ none)

abbrev pub IsConsistent : Job → Type 0
IsConsistent job = HasPhase job.phase job.row

-- The row of a task that runs.
abbrev IsRunning : AnalysisJob → Type 0
IsRunning row =
    (row.status ≡ JobStatus.running)
    × (is_some row.started_at ≡ true)
    × (row.completed_at ≡ none)
    × (row.error_code ≡ none)

start_running-IsConsistent :
    (now : ℕ) (job : Job) → HasPhase initializing job.row → IsConsistent (start_running now job).0
unfolding start_running update_job
start_running-IsConsistent now job h = ground (arith, h)

fail-IsConsistent :
    (now : ℕ) (stage message : String) (job : Job)
    → IsRunning job.row
    → IsConsistent (fail now stage message job).0
unfolding fail update_job
fail-IsConsistent now stage message job h = ground (arith, h)

load_acquisition-IsConsistent :
    (now : ℕ) (a : Option (List String)) (job : Job)
    → IsRunning job.row
    → IsConsistent (load_acquisition now a job).0
unfolding load_acquisition update_job
load_acquisition-IsConsistent now none job h =
    fail-IsConsistent now "LOADING_ACQUISITION" "Acquisition not found" job h
load_acquisition-IsConsistent now (some []) job h =
    fail-IsConsistent now "LOADING_ACQUISITION" "No evidence object linked to acquisition" job h
load_acquisition-IsConsistent now (some (e ∷ es)) job h = ground (arith, h)

enter_m1-IsConsistent :
    (now : ℕ) (job : Job) → IsRunning job.row → IsConsistent (enter_m1 now job).0
unfolding enter_m1 update_job
enter_m1-IsConsistent now job h = ground (arith, h)

run_m1-IsConsistent :
    (now : ℕ) (r : Result String (Unit {0})) (job : Job)
    → IsRunning job.row
    → IsConsistent (run_m1 now r job).0
unfolding run_m1 update_job
run_m1-IsConsistent now (err m) job h = fail-IsConsistent now "M1_PACKET_INTELLIGENCE" m job h
run_m1-IsConsistent now (ok p) job h = ground (arith, h)

run_pipeline-IsConsistent :
    (now : ℕ) (r : Result String String) (job : Job)
    → IsRunning job.row
    → IsConsistent (run_pipeline now r job).0
unfolding run_pipeline update_job
run_pipeline-IsConsistent now (err m) job h = fail-IsConsistent now "M3_CORRELATION" m job h
run_pipeline-IsConsistent now (ok s) job h =
    if_ind (λ (r : Outcome). IsConsistent r.0) (s == "success") (λ e. ground (arith, h))
      (λ e. fail-IsConsistent now "M3_CORRELATION" "Forensic pipeline reported failure" job h)

run_phase-IsConsistent :
    (now : ℕ) (o : Outcomes) (p : Phase) (job : Job)
    → job.phase ≡ p
    → HasPhase p job.row
    → IsConsistent (run_phase now o p job).0
unfolding run_phase
run_phase-IsConsistent now o initializing job e h = start_running-IsConsistent now job h
run_phase-IsConsistent now o loading job e h = load_acquisition-IsConsistent now o.acquisition job h
run_phase-IsConsistent now o loaded job e h = enter_m1-IsConsistent now job h
run_phase-IsConsistent now o packet_intelligence job e h = run_m1-IsConsistent now o.m1 job h
run_phase-IsConsistent now o correlation job e h = run_pipeline-IsConsistent now o.pipeline job h
run_phase-IsConsistent now o finished job e h = rw e h

All-modify :
    (f : Job → Job) (id : String) (rows : List Job)
    → ((j : Job) → IsConsistent j → IsConsistent (f j))
    → All IsConsistent rows
    → All IsConsistent (modify (λ j. j.row) f id rows)
unfolding modify
All-modify f id [] step h = tt
All-modify f id (j ∷ js) step h =
    if_ind (All IsConsistent) (j.row.analysis_id == id) (λ e. (step j h.0, h.1))
      (λ e. (h.0, All-modify f id js step h.1))

new_row-IsConsistent :
    (fresh case acquisition : String) → IsConsistent (new_row fresh case acquisition)
unfolding new_job
new_row-IsConsistent fresh case acquisition = (refl, refl, refl, refl)

Step-IsConsistent :
    (before after : Database)
    → Step before after
    → All IsConsistent before.jobs
    → All IsConsistent after.jobs
Step-IsConsistent before after (requested fresh case acquisition db after_db new e) h =
    let (n, a) = jobs-start_analysis fresh case acquisition db after_db e in
    rw (sym a)
      (All-append IsConsistent db.jobs _ h (new_row-IsConsistent fresh case acquisition, tt))
Step-IsConsistent before after (advanced now o id db) h =
    rw (jobs-advance now o id db)
      (All-modify (moved now o) id db.jobs (λ j c. run_phase-IsConsistent now o j.phase j refl c) h)

-- In every run, a job whose task has not begun is queued, without times or an error; one whose task
-- is under way is running, with a start and without an end or an error; and one whose task is over
-- has both times and is completed, at stage COMPLETED and progress 100 without an error, or failed
-- with an error code.
pub Reachable-IsConsistent : (db : Database) → Reachable db → All IsConsistent db.jobs
Reachable-IsConsistent db initial = tt
Reachable-IsConsistent db (next r s) = Step-IsConsistent _ db s (Reachable-IsConsistent _ r)
