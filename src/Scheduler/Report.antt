-- ===== src/Scheduler/Report.antt =====
-- updateRunTaskStatus of internal/services/runservice/scheduler.go: what an executor's report of a
-- task changes in the run.
use agola.Prelude.{
  Bool, true, false, List, [], ◌∷◌, lookup, insert, if◌then◌else◌, Result, ok, panicked, or_err,
  ◌>>=◌, Error,
}
use agola.Types.{
  Run, RunTask, RunTaskStatus, RunTaskStep, ExecutorTask, ExecutorTaskPhase, ExecutorTaskStepStatus,
}

-- The first switch: `wrongstatus`.
unfoldable pub wrong_status : ExecutorTaskPhase → RunTaskStatus → Bool
wrong_status ExecutorTaskPhase.not_started RunTaskStatus.not_started = false
wrong_status ExecutorTaskPhase.cancelled RunTaskStatus.cancelled = false
wrong_status ExecutorTaskPhase.cancelled RunTaskStatus.not_started = false
wrong_status ExecutorTaskPhase.running RunTaskStatus.running = false
wrong_status ExecutorTaskPhase.running RunTaskStatus.not_started = false
wrong_status ExecutorTaskPhase.stopped RunTaskStatus.stopped = false
wrong_status ExecutorTaskPhase.stopped RunTaskStatus.not_started = false
wrong_status ExecutorTaskPhase.stopped RunTaskStatus.running = false
wrong_status ExecutorTaskPhase.success RunTaskStatus.success = false
wrong_status ExecutorTaskPhase.success RunTaskStatus.not_started = false
wrong_status ExecutorTaskPhase.success RunTaskStatus.running = false
wrong_status ExecutorTaskPhase.failed RunTaskStatus.failed = false
wrong_status ExecutorTaskPhase.failed RunTaskStatus.not_started = false
wrong_status ExecutorTaskPhase.failed RunTaskStatus.running = false
wrong_status _ _ = true

-- The second switch.
abbrev pub status_of_phase : ExecutorTaskPhase → RunTaskStatus
status_of_phase ExecutorTaskPhase.not_started = RunTaskStatus.not_started
status_of_phase ExecutorTaskPhase.cancelled = RunTaskStatus.cancelled
status_of_phase ExecutorTaskPhase.running = RunTaskStatus.running
status_of_phase ExecutorTaskPhase.stopped = RunTaskStatus.stopped
status_of_phase ExecutorTaskPhase.success = RunTaskStatus.success
status_of_phase ExecutorTaskPhase.failed = RunTaskStatus.failed

abbrev pub update_step : ExecutorTaskStepStatus → RunTaskStep → RunTaskStep
update_step s rts = record rts {
  phase = s.phase;
  exit_status = s.exit_status;
  start_time = s.start_time;
  end_time = s.end_time;
}

-- The exit status of the setup step is left alone.
abbrev update_setup_step : ExecutorTaskStepStatus → RunTaskStep → RunTaskStep
update_setup_step s rts = record rts {
  phase = s.phase;
  start_time = s.start_time;
  end_time = s.end_time;
}

-- `rt.Steps[i]` panics where the executor task has more steps.
unfoldable pub update_steps :
    List ExecutorTaskStepStatus → List RunTaskStep → Result (List RunTaskStep)
update_steps [] steps = ok steps
update_steps (s ∷ ss) [] = panicked
update_steps (s ∷ ss) (rts ∷ steps) = do rest ← update_steps ss steps; ok (update_step s rts ∷ rest)

-- The times are written before the status is looked at.
abbrev pub update_times : ExecutorTask → RunTask → RunTask
update_times et rt = record rt { start_time = et.status.start_time; end_time = et.status.end_time }

unfoldable pub report_task : ExecutorTask → RunTask → Result RunTask
report_task et rt = if wrong_status et.status.phase rt.status then ok (update_times et rt) else do
  steps ← update_steps et.status.steps rt.steps
  ok (record (update_times et rt) {
    status = status_of_phase et.status.phase;
    setup_step = update_setup_step et.status.setup_step rt.setup_step;
    steps = steps;
  })

unfoldable pub update_run_task_status : ExecutorTask → Run → Result Run
update_run_task_status et r = do
  rt ← or_err (lookup et.spec.run_task_id r.tasks) (Error.no_such_run_task et.spec.run_task_id r.id)
  rt' ← report_task et rt
  ok (record r { tasks = insert et.spec.run_task_id rt' r.tasks })
