-- ===== src/Lifecycle/Steps.antt =====
-- The writes to one run, by the scheduler (internal/services/runservice/scheduler.go) and by the API
-- (internal/services/runservice/action/action.go), as a step relation.
use agola.Prelude.{ℕ, String, ◌≡◌, List, Map, some, Result, ok, ◌>>=◌, if◌then◌else◌}
use agola.Types.{Run, RunConfig, RunPhase, ExecutorTask, phase_is_running}
use agola.Scheduler.Tasks.{advance_run_tasks}
use agola.Scheduler.Phase.{advance_run}
use agola.Scheduler.Report.{update_run_task_status}
use agola.Action.Create.{gen_run}
use agola.Action.Change.{change_run_phase, stop_running, set_annotations, approve_task}
use agola.Action.Fetch.{
  finish_setup_log_phase, finish_step_log_phase, finish_archive_phase, archive_run,
}

-- What scheduleRun writes to the run: advanceRun, and advanceRunTasks if the run is running then.
unfoldable pub schedule : ℕ → Run → RunConfig → List ExecutorTask → Result Run
schedule now r rc ets = do
  r₁ ← advance_run now r rc ets
  if phase_is_running r₁.phase then advance_run_tasks r₁ rc ets else ok r₁

-- One write to a run. The time, the reports and the scheduled executor tasks may be any.
pub data RunStep (rc : RunConfig) (r r' : Run) : Type 0 where
  changed : (now : ℕ) (phase : RunPhase) → change_run_phase now phase r ≡ ok r' → RunStep rc r r'
  stopped : stop_running r ≡ ok r' → RunStep rc r r'
  annotated : (t : String) (a : Map String) → set_annotations t a r ≡ ok r' → RunStep rc r r'
  approved : (t : String) → approve_task t r ≡ ok r' → RunStep rc r r'
  scheduled : (now : ℕ) (ets : List ExecutorTask) → schedule now r rc ets ≡ ok r' → RunStep rc r r'
  reported : (et : ExecutorTask) → update_run_task_status et r ≡ ok r' → RunStep rc r r'
  setup_log_fetched : (t : String) → finish_setup_log_phase t r ≡ ok r' → RunStep rc r r'
  step_log_fetched : (t : String) (n : ℕ) → finish_step_log_phase t n r ≡ ok r' → RunStep rc r r'
  archive_fetched : (t : String) (n : ℕ) → finish_archive_phase t n r ≡ ok r' → RunStep rc r r'
  archived : archive_run r ≡ some r' → RunStep rc r r'

-- The runs that come of a new run by any steps in any order.
pub data Reachable (id : String) (rc : RunConfig) : Run → Type 0 where
  created : Reachable id rc (gen_run id rc)
  step : {r r' : Run} → Reachable id rc r → RunStep rc r r' → Reachable id rc r'
