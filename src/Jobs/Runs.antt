-- ===== src/Jobs/Runs.antt =====
-- The runs of the job service (backend/app/services/analysis_orchestrator.py): requests and the
-- transactions of the background tasks in any order, at any time and with any outcomes.
mod Moves
pub mod Lifecycle
pub mod Exclusion
pub mod Execution
use net_sleuth_ai.Shared.{ℕ, String, none, [], ◌≡◌, ok}
use net_sleuth_ai.Jobs.Table.{get_job}
use net_sleuth_ai.Jobs.Service.{Outcomes, Database, advance, start_analysis}

abbrev pub no_jobs : Database
no_jobs = record { jobs = []; audit = [] }

pub data Step : Database → Database → Type 0 where
  -- A request that is accepted, under an identifier that no row has.
  requested :
      (fresh case acquisition : String) (db after : Database)
      → get_job (λ j. j.row) fresh db.jobs ≡ none
      → start_analysis fresh case acquisition db ≡ ok after
      → Step db after
  advanced : (now : ℕ) (o : Outcomes) (id : String) (db : Database) → Step db (advance now o id db)

pub data Reachable : Database → Type 0 where
  initial : Reachable no_jobs
  next : {before after : Database} → Reachable before → Step before after → Reachable after
