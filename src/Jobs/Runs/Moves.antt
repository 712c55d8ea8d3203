-- ===== src/Jobs/Runs/Moves.antt =====
-- How a step of the job service (backend/app/services/analysis_orchestrator.py) changes the rows.
use net_sleuth_ai.Shared.{ℕ, String, false, none, List, [], ◌∷◌, ◌++◌, ◌≡◌, refl, arith, ok}
use net_sleuth_ai.Jobs.Table.{AnalysisJob, new_job, get_job, modify, has_active_analysis}
use net_sleuth_ai.Jobs.Service.{
  Outcomes, initializing, Job, Database, run_phase, advance, start_analysis,
}

abbrev pub row_of : Job → AnalysisJob
row_of job = job.row

modify-of_absent :
    (f : Job → Job) (id : String) (rows : List Job)
    → get_job (λ j. j.row) id rows ≡ none
    → modify (λ j. j.row) f id rows ≡ rows
unfolding modify get_job
modify-of_absent f id [] h = refl
modify-of_absent f id (j ∷ js) h = ground (arith, h, modify-of_absent f id js)

-- One transaction on the row that it is for.
abbrev pub moved : ℕ → Outcomes → Job → Job
moved now o j = (run_phase now o j.phase j).0

pub jobs-advance :
    (now : ℕ) (o : Outcomes) (id : String) (db : Database)
    → (advance now o id db).jobs ≡ modify (λ j. j.row) (moved now o) id db.jobs
unfolding advance
jobs-advance now o id db = ground (arith, modify-of_absent (moved now o) id db.jobs)

abbrev pub new_row : String → String → String → Job
new_row fresh case acquisition = record {
  row = new_job fresh case acquisition;
  phase = initializing;
}

pub jobs-start_analysis :
    (fresh case acquisition : String) (db after : Database)
    → start_analysis fresh case acquisition db ≡ ok after
    → (has_active_analysis (λ j. j.row) acquisition db.jobs ≡ false)
      × (db.jobs ++ new_row fresh case acquisition ∷ [] ≡ after.jobs)
unfolding start_analysis
jobs-start_analysis fresh case acquisition db after e = ground (arith, e)
