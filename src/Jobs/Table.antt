-- ===== src/Jobs/Table.antt =====
-- The rows of `AnalysisJobModel` (backend/app/persistence/models/investigation_models.py) and the
-- repository's operations on them (backend/app/persistence/repositories/analysis_repository.py). An
-- instant is a number, and an identifier the text of its UUID.
use net_sleuth_ai.Shared.{
  ℕ, String, Bool, true, false, ◌&&◌, Option, none, some, List, [], ◌∷◌, ◌==◌, if◌then◌else◌, any,
}

-- The texts that the service writes as a job's status.
pub data JobStatus : Type 0 where
  queued running completed failed : JobStatus

pub record AnalysisJob : Type 0 where
  pub analysis_id : String
  pub case_id : String
  pub acquisition_id : String
  pub status : JobStatus
  pub current_stage : Option String
  pub progress : Option ℕ
  pub error_code : Option String
  pub error_message : Option String
  pub started_at : Option ℕ
  pub completed_at : Option ℕ

-- What `update_status` is given besides the status; `none` leaves the column as it is.
pub record Update : Type 0 where
  pub status : JobStatus
  pub stage : Option String
  pub progress : Option ℕ
  pub error_code : Option String
  pub error_message : Option String

abbrev pub or_kept {ℓ} : {A : Type ℓ} → Option A → Option A → Option A
or_kept none old = old
or_kept (some a) old = some a

started : JobStatus → Option ℕ → ℕ → Option ℕ
started JobStatus.running none now = some now
started _ old now = old

ended : JobStatus → Option ℕ → ℕ → Option ℕ
ended JobStatus.completed old now = some now
ended JobStatus.failed old now = some now
ended _ old now = old

-- The assignments of `update_status`, once the row is found.
unfoldable pub update_job : ℕ → Update → AnalysisJob → AnalysisJob
unfolding started ended
update_job now u job = record job {
  status = u.status;
  current_stage = or_kept u.stage job.current_stage;
  progress = or_kept u.progress job.progress;
  error_code = or_kept u.error_code job.error_code;
  error_message = or_kept u.error_message job.error_message;
  started_at = started u.status job.started_at now;
  completed_at = ended u.status job.completed_at now;
}

unfoldable pub new_job : String → String → String → AnalysisJob
new_job fresh case acquisition = record {
  analysis_id = fresh;
  case_id = case;
  acquisition_id = acquisition;
  status = JobStatus.queued;
  current_stage = none;
  progress = none;
  error_code = none;
  error_message = none;
  started_at = none;
  completed_at = none;
}

abbrev pub is_active : JobStatus → Bool
is_active JobStatus.queued = true
is_active JobStatus.running = true
is_active _ = false

abbrev pub blocks : String → AnalysisJob → Bool
blocks acquisition job = job.acquisition_id == acquisition && is_active job.status

module _ {ℓ} {A : Type ℓ} (job_of : A → AnalysisJob) where
  -- The first row of the identifier.
  unfoldable pub get_job : String → List A → Option A
  get_job id [] = none
  get_job id (row ∷ rows) = if (job_of row).analysis_id == id then some row else get_job id rows

  -- That row changed.
  unfoldable pub modify : (A → A) → String → List A → List A
  modify f id [] = []
  modify f id (row ∷ rows) =
      if (job_of row).analysis_id == id then f row ∷ rows else row ∷ modify f id rows

  unfoldable pub has_active_analysis : String → List A → Bool
  has_active_analysis acquisition rows = any (λ row. blocks acquisition (job_of row)) rows
