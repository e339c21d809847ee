-- ===== src/Scheduler/Phase.antt =====
-- advanceRun of internal/services/runservice/scheduler.go: the phase and the result of a run.
use agola.Prelude.{
  ℕ, Bool, true, false, ◌&&◌, not, List, [], ◌∷◌, values, lookup, map, map_values, all,
  if◌then◌else◌, Result, ok, or_err, ◌>>=◌, Error,
}
use agola.Types.{
  Run, RunTask, RunTaskStep, RunPhase, RunResult, RunTaskFetchPhase, RunConfig, ExecutorTask,
  is_set, is_failed, is_not_started, status_is_finished, phase_is_running, phase_is_finished,
  change_phase,
}

-- Does the loop meet a failed task whose failure counts, before a task with no definition?
unfoldable pub has_failure : RunConfig → List RunTask → Result Bool
has_failure rc [] = ok false
has_failure rc (rt ∷ rts) = do
  rct ← or_err (lookup rt.id rc.tasks) (Error.no_such_run_config_task rt.id rc.id)
  elim (is_failed rt.status && not rct.ignore_failure) [
    | true ↦ ok true
    | false ↦ has_failure rc rts
  ]

-- fail run if a task is failed
unfoldable pub fail_run : Run → RunConfig → Result Run
fail_run r rc =
    if not (is_set r.result) && phase_is_running r.phase
    then (do
      failure ← has_failure rc (values r.tasks)
      ok (if failure then record r { result = RunResult.failed } else r))
    else ok r

abbrev pub all_finished : Run → Bool
all_finished r = all (λ rt. status_is_finished rt.status) (values r.tasks)

-- if run is set to stop set result as stopped
unfoldable pub stop_run : Run → Run
stop_run r =
    if not (is_set r.result) && phase_is_running r.phase && r.stop
    then record r { result = RunResult.stopped }
    else r

abbrev finish_step : RunTaskStep → RunTaskStep
finish_step s = record s { log_phase = RunTaskFetchPhase.finished }

-- Marks the fetch phases of a task that never started as finished.
unfoldable pub finish_fetch : RunTask → RunTask
finish_fetch rt =
    if is_not_started rt.status
    then record rt {
      setup_step = finish_step rt.setup_step;
      steps = map finish_step rt.steps;
      workspace_archives_phase = map (λ _. RunTaskFetchPhase.finished) rt.workspace_archives_phase;
    }
    else rt

abbrev pub no_tasks : List ExecutorTask → Bool
no_tasks [] = true
no_tasks (et ∷ ets) = false

-- The last part, for a run that has a result.
unfoldable pub finish_run : ℕ → List ExecutorTask → Run → Run
unfolding change_phase
finish_run now ets r =
    if all_finished r && not (phase_is_finished r.phase) && no_tasks ets
    then change_phase now RunPhase.finished r
    else r

unfoldable pub finish_fetches : Run → Run
finish_fetches r =
    if phase_is_finished r.phase then record r { tasks = map_values finish_fetch r.tasks } else r

-- All of advanceRun that follows the search for a failed task.
unfoldable pub settle_run : ℕ → List ExecutorTask → Run → Run
settle_run now ets r =
    if not (is_set r.result) && phase_is_running r.phase && all_finished r
    then record r { result = RunResult.success }
    else if is_set (stop_run r).result
    then finish_fetches (finish_run now ets (stop_run r))
    else stop_run r

unfoldable pub advance_run : ℕ → Run → RunConfig → List ExecutorTask → Result Run
advance_run now r rc ets = do r₁ ← fail_run r rc; ok (settle_run now ets r₁)
