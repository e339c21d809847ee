-- ===== src/System/Changes.antt =====
-- What a transaction does to the table of the runs.
use agola.Prelude.{ℕ, String, List, true, ◌≡◌, ap, ◌∙◌, none, some, Map, lookup, insert, ok}
use agola.Types.{Run, RunConfig, ExecutorTask, phase_is_running}
use agola.Scheduler.Tasks.{advance_run_tasks}
use agola.Scheduler.Phase.{advance_run}
use agola.Scheduler.Advance.{advance_run_tasks-Advances}
use agola.Lifecycle.Status.{advance_run_tasks-Forward}
use agola.Lifecycle.Invariant.{advance_run-Advanced}
use agola.Lifecycle.Progress.{
  Progress, Progress-trans, tasks_only-Progress, Advanced-Progress, RunStep-Progress,
}
use agola.Lifecycle.Steps.{RunStep}
use agola.Lifecycle.Reach.{Inv, Advanced-Inv, running-Inv, RunStep-Inv}
use agola.Lifecycle.Identity.{RunStep-meta, advance_run-meta}
use agola.Store.Rows.{next_meta}
use agola.Store.Db.{Db, update_run}
use agola.Store.Revisions.{updated, update_run-Updated}

-- Every run is stored under its id.
abbrev pub IsKeyed : Map Run → Type 0
IsKeyed runs = (k : String) (r : Run) → lookup k runs ≡ some r → r.id ≡ k

-- What is written to a run: one operation, or what scheduleRun makes of it when `Do` repeats its second
-- transaction: advanceRun, and then advanceRunTasks any number of times while the run is running.
pub data Write (rc : RunConfig) (r : Run) : Run → Type 0 where
  once : {r' : Run} → RunStep rc r r' → Write rc r r'
  advanced :
      {r' : Run} (now : ℕ) (ets : List ExecutorTask)
      → advance_run now r rc ets ≡ ok r'
      → Write rc r r'
  again :
      {r' r'' : Run} (ets : List ExecutorTask)
      → Write rc r r'
      → phase_is_running r'.phase ≡ true
      → advance_run_tasks r' rc ets ≡ ok r''
      → Write rc r r''

pub Write-meta : {rc : RunConfig} {r r' : Run} → Write rc r r' → r'.meta ≡ r.meta
Write-meta (once s) = RunStep-meta s
Write-meta {rc} {r} {r'} (advanced now ets h) = advance_run-meta now r rc ets r' h
Write-meta {rc} {r} {r'} (again {r' = s} ets w runs h) =
    ap (λ (x : Run). x.meta) (advance_run_tasks-Advances s rc ets r' h).0 ∙ Write-meta w

pub Write-Inv : {rc : RunConfig} {r r' : Run} → Write rc r r' → Inv r → Inv r'
Write-Inv (once s) v = RunStep-Inv s v
Write-Inv {rc} {r} {r'} (advanced now ets h) v =
    Advanced-Inv r r' ets (advance_run-Advanced now r rc ets r' h) v
Write-Inv {rc} {r} {r'} (again {r' = s} ets w runs h) v =
    running-Inv s r' runs (advance_run_tasks-Advances s rc ets r' h).0 (Write-Inv w v)

pub Write-Progress : {rc : RunConfig} {r r' : Run} → Write rc r r' → Progress r r'
Write-Progress (once s) = RunStep-Progress s
Write-Progress {rc} {r} {r'} (advanced now ets h) =
    Advanced-Progress r r' ets (advance_run-Advanced now r rc ets r' h)
Write-Progress {rc} {r} {r'} (again {r' = s} ets w runs h) =
    Progress-trans r s r' (Write-Progress w) (
      tasks_only-Progress s r' (advance_run_tasks-Advances s rc ets r' h).0
        (advance_run_tasks-Forward s rc ets r' h))

-- One write to the stored run, or one new run in order, or nothing.
pub data RunChange (runs runs' : Map Run) : Type 0 where
  same : runs' ≡ runs → RunChange runs runs'
  wrote :
      (now : ℕ) (rc : RunConfig) (r r' : Run)
      → lookup r.id runs ≡ some r
      → Write rc r r'
      → runs' ≡ insert r.id (record r' { meta = next_meta now r.meta }) runs
      → RunChange runs runs'
  added :
      (r : Run)
      → lookup r.id runs ≡ none
      → Inv r
      → runs' ≡ insert r.id r runs
      → RunChange runs runs'

-- The write of an operation on a run that is the stored one.
pub Write-RunChange :
    (now : ℕ) (rc : RunConfig) (r r' : Run) (runs runs' : Map Run)
    → lookup r.id runs ≡ some r
    → Write rc r r'
    → runs' ≡ insert r'.id (record r' { meta = next_meta now r'.meta }) runs
    → RunChange runs runs'
Write-RunChange now rc r r' runs runs' l s e =
    wrote now rc r r' l s
      (e ∙ ap (λ m. insert m.id (record r' { meta = next_meta now m }) runs) (Write-meta s))

pub update_run-RunChange :
    (now : ℕ) (rc : RunConfig) (r r' : Run) (db db' : Db)
    → lookup r.id db.runs ≡ some r
    → RunStep rc r r'
    → update_run now r' db ≡ ok db'
    → RunChange db.runs db'.runs
update_run-RunChange now rc r r' db db' l s h = elim (update_run-Updated now r' db db' h) [
  | updated row i j p d ↦
      Write-RunChange now rc r r' db.runs db'.runs l (once s) (ap (λ (x : Db). x.runs) d)
]
