-- ===== src/Action/Change.antt =====
-- ChangeRunPhase, StopRun, RunTaskSetAnnotations and ApproveRunTask of
-- internal/services/runservice/action/action.go: what they change in the run that they have read.
use agola.Prelude.{
  ℕ, String, true, false, not, List, [], ◌∷◌, Map, lookup, insert, Result, ok, err, deref, guard,
  or_err, ◌>>=◌, ◌>>◌, Error,
}
use agola.Types.{
  Run, RunTask, RunPhase, phase_is_queued, phase_is_running, change_phase, tasks_waiting_approval,
}

-- The switch of ChangeRunPhase: only a queued run may start or be cancelled.
abbrev pub check_phase : RunPhase → Run → Result (Unit {0})
check_phase RunPhase.running r = guard (phase_is_queued r.phase) (Error.wrong_phase r.id)
check_phase RunPhase.cancelled r = guard (phase_is_queued r.phase) (Error.wrong_phase r.id)
check_phase _ r = err Error.unsupported_phase

unfoldable pub change_run_phase : ℕ → RunPhase → Run → Result Run
unfolding change_phase
change_run_phase now phase r = do check_phase phase r; ok (change_phase now phase r)

-- The loop of StopRun over the ids of the tasks that wait for approval.
unfoldable pub clear_waiting : List String → Map RunTask → Result (Map RunTask)
clear_waiting [] tasks = ok tasks
clear_waiting (t ∷ ts) tasks = do
  rt ← deref (lookup t tasks)
  clear_waiting ts (insert t (record rt { waiting_approval = false }) tasks)

unfoldable pub stop_running : Run → Result Run
stop_running r = do
  guard (phase_is_running r.phase) (Error.wrong_phase r.id)
  tasks ← clear_waiting (tasks_waiting_approval r) r.tasks
  ok (record r { stop = true; tasks = tasks })

unfoldable pub set_annotations : String → Map String → Run → Result Run
set_annotations task_id annotations r = do
  task ← or_err (lookup task_id r.tasks) (Error.bad_request task_id)
  ok (record r { tasks = insert task_id (record task { annotations = annotations }) r.tasks })

unfoldable pub approve_task : String → Run → Result Run
approve_task task_id r = do
  task ← or_err (lookup task_id r.tasks) (Error.bad_request task_id)
  guard task.waiting_approval (Error.bad_request task_id)
  guard (not task.approved) (Error.bad_request task_id)
  ok (record r {
    tasks = insert task_id (record task { waiting_approval = false; approved = true }) r.tasks;
  })
