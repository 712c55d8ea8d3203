-- ===== src/Jobs/Runs/Exclusion.antt =====
-- That an acquisition has at most one active job, and what a step leaves as it is.
use net_sleuth_ai.Shared.{
  ℕ, ◌+◌, ◌≤◌, String, true, false, Option, none, some, List, [], ◌∷◌, ◌++◌, ◌≡◌, refl, sym, arith,
  All, if◌then◌else◌, ◌==◌, if_ind, ok, err, Result, eq_iff, suc,
}
use net_sleuth_ai.Jobs.Table.{
  is_active, blocks, update_job, new_job, get_job, modify, has_active_analysis,
}
use net_sleuth_ai.Jobs.Service.{
  Outcomes, Outcome, Phase, initializing, loading, loaded, packet_intelligence, correlation,
  finished, Job, Database, fail, start_running, load_acquisition, enter_m1, run_m1, run_pipeline,
  run_phase,
}
use net_sleuth_ai.Jobs.Runs.Moves.{moved, new_row, jobs-advance, jobs-start_analysis}
use net_sleuth_ai.Jobs.Runs.Lifecycle.{IsConsistent, Reachable-IsConsistent}
use net_sleuth_ai.Jobs.Runs.{Step, requested, advanced, Reachable, initial, next}

-- How many active jobs the acquisition has.
abbrev pub active_count : String → List Job → ℕ
active_count acquisition [] = 0
active_count acquisition (j ∷ js) =
    let rest = active_count acquisition js in if blocks acquisition j.row then suc rest else rest

-- What a transaction never changes.
abbrev SameJob : Job → Job → Type 0
SameJob a b =
    (a.row.analysis_id ≡ b.row.analysis_id) × (a.row.acquisition_id ≡ b.row.acquisition_id)

fail-SameJob :
    (now : ℕ) (stage message : String) (job : Job) → SameJob (fail now stage message job).0 job
unfolding fail update_job
fail-SameJob now stage message job = (refl, refl)

load_acquisition-SameJob :
    (now : ℕ) (a : Option (List String)) (job : Job) → SameJob (load_acquisition now a job).0 job
unfolding load_acquisition fail update_job
load_acquisition-SameJob now none job = (refl, refl)
load_acquisition-SameJob now (some []) job = (refl, refl)
load_acquisition-SameJob now (some (e ∷ es)) job = (refl, refl)

run_m1-SameJob :
    (now : ℕ) (r : Result String (Unit {0})) (job : Job) → SameJob (run_m1 now r job).0 job
unfolding run_m1 fail update_job
run_m1-SameJob now (err m) job = (refl, refl)
run_m1-SameJob now (ok p) job = (refl, refl)

run_pipeline-SameJob :
    (now : ℕ) (r : Result String String) (job : Job) → SameJob (run_pipeline now r job).0 job
unfolding run_pipeline fail update_job
run_pipeline-SameJob now (err m) job = (refl, refl)
run_pipeline-SameJob now (ok s) job =
    if_ind (λ (r : Outcome). SameJob r.0 job) (s == "success") (λ e. (refl, refl))
      (λ e. (refl, refl))

run_phase-SameJob :
    (now : ℕ) (o : Outcomes) (p : Phase) (job : Job) → SameJob (run_phase now o p job).0 job
unfolding run_phase start_running enter_m1 update_job
run_phase-SameJob now o initializing job = (refl, refl)
run_phase-SameJob now o loading job = load_acquisition-SameJob now o.acquisition job
run_phase-SameJob now o loaded job = (refl, refl)
run_phase-SameJob now o packet_intelligence job = run_m1-SameJob now o.m1 job
run_phase-SameJob now o correlation job = run_pipeline-SameJob now o.pipeline job
run_phase-SameJob now o finished job = (refl, refl)

-- Only a job that was active is active after a transaction.
run_phase-is_active :
    (now : ℕ) (o : Outcomes) (p : Phase) (job : Job)
    → job.phase ≡ p
    → IsConsistent job
    → is_active (run_phase now o p job).0.row.status ≡ true
    → is_active job.row.status ≡ true
unfolding run_phase
run_phase-is_active now o p job e c a = ground (arith, e, c, a)

active_count-modify :
    (acquisition : String) (now : ℕ) (o : Outcomes) (id : String) (rows : List Job)
    → All IsConsistent rows
    → active_count acquisition (modify (λ j. j.row) (moved now o) id rows)
      ≤ active_count acquisition rows
unfolding modify
active_count-modify acquisition now o id [] c = omega arith
active_count-modify acquisition now o id (j ∷ js) c = ground (
  arith,
  active_count-modify acquisition now o id js c.1,
  run_phase-SameJob now o j.phase j,
  run_phase-is_active now o j.phase j refl c.0,
)

active_count-append :
    (acquisition : String) (rows : List Job) (j : Job)
    → active_count acquisition (rows ++ j ∷ [])
      ≡ active_count acquisition rows + (if blocks acquisition j.row then 1 else 0)
active_count-append acquisition [] j = ground arith
active_count-append acquisition (x ∷ rows) j =
    ground (arith, active_count-append acquisition rows j)

active_count-of_none :
    (acquisition : String) (rows : List Job)
    → has_active_analysis (λ j. j.row) acquisition rows ≡ false
    → active_count acquisition rows ≡ 0
unfolding has_active_analysis
active_count-of_none acquisition [] h = refl
active_count-of_none acquisition (j ∷ js) h = ground (arith, active_count-of_none acquisition js)

active_count-Step :
    (acquisition : String) (before after : Database)
    → Step before after
    → All IsConsistent before.jobs
    → active_count acquisition before.jobs ≤ 1
    → active_count acquisition after.jobs ≤ 1
unfolding new_job
active_count-Step acquisition before after (requested fresh case wanted db after_db new e) c h =
    let (n, a) = jobs-start_analysis fresh case wanted db after_db e in
    let append = active_count-append acquisition db.jobs (new_row fresh case wanted) in
    rw (sym a)
      (ground (arith, h, append, eq_iff wanted acquisition, active_count-of_none wanted db.jobs n))
active_count-Step acquisition before after (advanced now o id db) c h =
    rw (jobs-advance now o id db)
      (omega (arith, h, active_count-modify acquisition now o id db.jobs c))

-- In every run in which a request is one step, an acquisition has at most one job that is queued or
-- running.
pub active_count-Reachable :
    (acquisition : String) (db : Database) → Reachable db → active_count acquisition db.jobs ≤ 1
active_count-Reachable acquisition db initial = omega arith
active_count-Reachable acquisition db (next r s) =
    active_count-Step acquisition _ db s (Reachable-IsConsistent _ r)
      (active_count-Reachable acquisition _ r)

get_job-append :
    (id : String) (rows more : List Job) (j : Job)
    → get_job (λ j. j.row) id rows ≡ some j
    → get_job (λ j. j.row) id (rows ++ more) ≡ some j
unfolding get_job
get_job-append id [] more j h = cc
get_job-append id (x ∷ rows) more j h = ground (arith, h, get_job-append id rows more j)

get_job-modify :
    (f : Job → Job) (id key : String) (rows : List Job) (j : Job)
    → ((x : Job) → (f x).row.analysis_id ≡ x.row.analysis_id)
    → f j ≡ j
    → get_job (λ j. j.row) id rows ≡ some j
    → get_job (λ j. j.row) id (modify (λ j. j.row) f key rows) ≡ some j
unfolding get_job modify
get_job-modify f id key [] j keeps same h = cc
get_job-modify f id key (x ∷ rows) j keeps same h =
    ground (arith, h, keeps x, same, get_job-modify f id key rows j keeps same)

-- A job whose task is over is found unchanged after every further step.
pub Step-keeps_finished :
    (id : String) (before after : Database) (j : Job)
    → get_job (λ j. j.row) id before.jobs ≡ some j
    → j.phase ≡ finished
    → Step before after
    → get_job (λ j. j.row) id after.jobs ≡ some j
unfolding run_phase
Step-keeps_finished id before after j h e (requested fresh case wanted db after_db new r) =
    let (n, a) = jobs-start_analysis fresh case wanted db after_db r in
    rw (sym a) (get_job-append id db.jobs _ j h)
Step-keeps_finished id before after j h e (advanced now o key db) = rw (jobs-advance now o key db) (
    get_job-modify (moved now o) id key db.jobs j (λ x. (run_phase-SameJob now o x.phase x).0)
      (ground (arith, e)) h)
