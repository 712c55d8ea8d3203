-- ===== src/Jobs/Service.antt =====
-- `AnalysisOrchestratorService` (backend/app/services/analysis_orchestrator.py). Each `async with
-- self.uow` block is one transaction, and a background task goes from one to the next by its phase.
-- What the acquisition repository, the packet engine and the pipeline return to it is given by
-- `Outcomes`; that a transaction itself fails is left out.
use net_sleuth_ai.Shared.{
  ℕ, String, Option, none, some, List, [], ◌∷◌, ◌++◌, ◌==◌, if◌then◌else◌, Dict, lookup, Result, ok,
  err,
}
use net_sleuth_ai.Jobs.Table.{
  JobStatus, AnalysisJob, Update, update_job, new_job, get_job, modify, has_active_analysis,
}

pub record Outcomes : Type 0 where
  -- The evidence of the acquisition, `none` if there is no such acquisition.
  pub acquisition : Option (List String)
  -- An exception's text, or the package.
  pub m1 : Result String (Unit {0})
  -- An exception's text, or the status of the result.
  pub pipeline : Result String String

-- The next transaction of the task.
pub data Phase : Type 0 where
  initializing loading loaded packet_intelligence correlation finished : Phase

-- A row and the background task that was queued for it.
pub record Job : Type 0 where
  pub row : AnalysisJob
  pub phase : Phase

pub data AuditAction : Type 0 where
  analysis_requested analysis_started analysis_completed analysis_failed : AuditAction

pub record AuditEvent : Type 0 where
  pub action : AuditAction
  pub target_entity_id : String

pub record Database : Type 0 where
  pub jobs : List Job
  pub audit : List AuditEvent

pub stage_error_map : Dict String
stage_error_map =
    ("M1_PACKET_INTELLIGENCE", "M1_PROCESSING_FAILED")
    ∷ ("LOADING_ACQUISITION", "ACQUISITION_LOAD_FAILED")
    ∷ ("M2_ANALYSIS", "M2_ANALYSIS_FAILED")
    ∷ ("M3_CORRELATION", "M3_CORRELATION_FAILED")
    ∷ ("M4_REPORTING", "M4_REPORTING_FAILED")
    ∷ []

text_or : String → Option String → String
text_or d none = d
text_or d (some s) = s

unfoldable pub error_code_of : String → String
unfolding stage_error_map text_or
error_code_of stage = text_or "ANALYSIS_FAILED" (lookup stage stage_error_map)

-- The row and the audit events after a transaction.
abbrev pub Outcome : Type 0
Outcome = Job × List AuditEvent

audited : AuditAction → AnalysisJob → List AuditEvent
audited action job = record { action = action; target_entity_id = job.analysis_id } ∷ []

running_at : String → ℕ → Update
running_at stage progress = record {
  status = JobStatus.running;
  stage = some stage;
  progress = some progress;
  error_code = none;
  error_message = none;
}

-- The `except` clause.
unfoldable pub fail : ℕ → String → String → Job → Outcome
unfolding audited
fail now stage message job = (
  record {
    row =
        update_job now
          (record {
            status = JobStatus.failed;
            stage = some stage;
            progress = none;
            error_code = some (error_code_of stage);
            error_message = some message;
          })
          job.row;
    phase = finished;
  },
  audited analysis_failed job.row,
)

unfoldable pub start_running : ℕ → Job → Outcome
unfolding audited running_at
start_running now job = (
  record { row = update_job now (running_at "INITIALIZING" 0) job.row; phase = loading },
  audited analysis_started job.row,
)

-- The transaction that only reads: a row is not changed unless the acquisition has no evidence.
unfoldable pub load_acquisition : ℕ → Option (List String) → Job → Outcome
unfolding fail
load_acquisition now none job = fail now "LOADING_ACQUISITION" "Acquisition not found" job
load_acquisition now (some []) job =
    fail now "LOADING_ACQUISITION" "No evidence object linked to acquisition" job
load_acquisition now (some (e ∷ es)) job = (record { row = job.row; phase = loaded }, [])

unfoldable pub enter_m1 : ℕ → Job → Outcome
unfolding running_at
enter_m1 now job = (
  record {
    row = update_job now (running_at "M1_PACKET_INTELLIGENCE" 10) job.row;
    phase = packet_intelligence;
  },
  [],
)

unfoldable pub run_m1 : ℕ → Result String (Unit {0}) → Job → Outcome
unfolding fail running_at
run_m1 now (err message) job = fail now "M1_PACKET_INTELLIGENCE" message job
run_m1 now (ok produced) job =
    (record { row = update_job now (running_at "M2_ANALYSIS" 40) job.row; phase = correlation }, [])

complete : ℕ → Job → Outcome
unfolding audited
complete now job = (
  record {
    row =
        update_job now
          (record {
            status = JobStatus.completed;
            stage = some "COMPLETED";
            progress = some 100;
            error_code = none;
            error_message = none;
          })
          job.row;
    phase = finished;
  },
  audited analysis_completed job.row,
)

unfoldable pub run_pipeline : ℕ → Result String String → Job → Outcome
unfolding fail complete
run_pipeline now (err message) job = fail now "M3_CORRELATION" message job
run_pipeline now (ok status) job =
    if status == "success"
    then complete now job
    else fail now "M3_CORRELATION" "Forensic pipeline reported failure" job

-- The transaction that a task is at.
unfoldable pub run_phase : ℕ → Outcomes → Phase → Job → Outcome
unfolding start_running load_acquisition enter_m1 run_m1 run_pipeline
run_phase now o initializing job = start_running now job
run_phase now o loading job = load_acquisition now o.acquisition job
run_phase now o loaded job = enter_m1 now job
run_phase now o packet_intelligence job = run_m1 now o.m1 job
run_phase now o correlation job = run_pipeline now o.pipeline job
run_phase now o finished job = (job, [])

-- One transaction of the task of a job; nothing happens where there is no such job.
unfoldable pub advance : ℕ → Outcomes → String → Database → Database
unfolding run_phase
advance now o id db = elim (get_job (λ j. j.row) id db.jobs) [
  | none ↦ db
  | some job ↦ record {
    jobs = modify (λ j. j.row) (λ j. (run_phase now o j.phase j).0) id db.jobs;
    audit = db.audit ++ (run_phase now o job.phase job).1;
  }
]

abbrev pub already_active : String
already_active = "An active analysis job already exists for this acquisition."

-- `start_analysis`, and the task that the endpoint then queues. `fresh` is the new UUID.
unfoldable pub start_analysis : String → String → String → Database → Result String Database
unfolding audited
start_analysis fresh case acquisition db =
    if has_active_analysis (λ j. j.row) acquisition db.jobs
    then err already_active
    else ok (record {
      jobs = db.jobs ++ record { row = new_job fresh case acquisition; phase = initializing } ∷ [];
      audit = db.audit ++ audited analysis_requested (new_job fresh case acquisition);
    })

-- `execute_analysis_background` for one job, without interruption.
unfoldable pub execute_analysis_background : ℕ → Outcomes → Job → Outcome
unfolding run_phase
execute_analysis_background now o job =
    let (j1, a1) = run_phase now o job.phase job in
    let (j2, a2) = run_phase now o j1.phase j1 in
    let (j3, a3) = run_phase now o j2.phase j2 in
    let (j4, a4) = run_phase now o j3.phase j3 in
    let (j5, a5) = run_phase now o j4.phase j4 in (j5, a1 ++ a2 ++ a3 ++ a4 ++ a5)
