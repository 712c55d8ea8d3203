-- ===== src/Jobs/Examples.antt =====
-- One job that is requested and executed, and the service's promises at it.
use net_sleuth_ai.Shared.{◌≡◌, ◌≤◌, refl, some, none, [], ◌∷◌, ok, err, All}
use net_sleuth_ai.Jobs.Table.{JobStatus, new_job, get_job, has_active_analysis}
use net_sleuth_ai.Jobs.Service.{
  Outcomes, analysis_requested, initializing, finished, Job, Database, advance, start_analysis,
  execute_analysis_background, already_active,
}
use net_sleuth_ai.Jobs.Runs.{no_jobs, requested, advanced, Reachable, initial, next}
use net_sleuth_ai.Jobs.Runs.Lifecycle.{IsConsistent, Reachable-IsConsistent}
use net_sleuth_ai.Jobs.Runs.Exclusion.{active_count, active_count-Reachable}
use net_sleuth_ai.Jobs.Runs.Execution.{EndsWith, execute_analysis_background-EndsWith}

abbrev waiting : Job
waiting = record {
  row = record {
    analysis_id = "job-1";
    case_id = "case";
    acquisition_id = "acq";
    status = JobStatus.queued;
    current_stage = none;
    progress = none;
    error_code = none;
    error_message = none;
    started_at = none;
    completed_at = none;
  };
  phase = initializing;
}

abbrev one_job : Database
one_job = record {
  jobs = waiting ∷ [];
  audit = record { action = analysis_requested; target_entity_id = "job-1" } ∷ [];
}

start_first : start_analysis "job-1" "case" "acq" no_jobs ≡ ok one_job
unfolding start_analysis has_active_analysis new_job
start_first = refl

start_twice : start_analysis "job-2" "case" "acq" one_job ≡ err already_active
unfolding start_analysis has_active_analysis
start_twice = refl

abbrev no_evidence : Outcomes
no_evidence = record { acquisition = some []; m1 = ok tt; pipeline = ok "success" }

abbrev succeeding : Outcomes
succeeding = record { acquisition = some ("e" ∷ []); m1 = ok tt; pipeline = ok "success" }

reached : Reachable (advance 5 succeeding "job-1" one_job)
unfolding get_job
reached =
    next (next initial (requested "job-1" "case" "acq" no_jobs one_job refl start_first))
      (advanced 5 succeeding "job-1" one_job)

Reachable-IsConsistent_example : All IsConsistent (advance 5 succeeding "job-1" one_job).jobs
Reachable-IsConsistent_example =
    Reachable-IsConsistent (advance 5 succeeding "job-1" one_job) reached

active_count-Reachable_example : active_count "acq" (advance 5 succeeding "job-1" one_job).jobs ≤ 1
active_count-Reachable_example =
    active_count-Reachable "acq" (advance 5 succeeding "job-1" one_job) reached

execute_analysis_background-EndsWith_example :
    EndsWith (some "ACQUISITION_LOAD_FAILED") (execute_analysis_background 9 no_evidence waiting)
execute_analysis_background-EndsWith_example =
    execute_analysis_background-EndsWith 9 waiting refl refl no_evidence

abbrev done : Job
done = record { row = record waiting.row { status = JobStatus.completed }; phase = finished }

abbrev done_job : Database
done_job = record { jobs = done ∷ []; audit = [] }

finds_done : get_job (λ j. j.row) "job-1" done_job.jobs ≡ some done
unfolding get_job
finds_done = refl
