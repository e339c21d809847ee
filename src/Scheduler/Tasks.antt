-- ===== src/Scheduler/Tasks.antt =====
-- taskMatchesParentDependCondition, advanceRunTasks and getTasksToRun of
-- internal/services/runservice/scheduler.go. A nil `rct` or `rp` is read as the code reads it: the
-- first access to a field of it panics.
use agola.Prelude.{
  ℕ, suc, ◌==◌, Bool, true, false, ◌&&◌, ◌||◌, not, List, [], ◌∷◌, Option, none, some, Map, values,
  lookup, map_values, map_values_m, length, any, ltb, eqb, if◌then◌else◌, Result, ok, panicked,
  deref, ◌>>=◌,
}
use agola.Types.{
  Run, RunTask, RunTaskStatus, RunConfig, RunConfigTask, RunConfigTaskDependCondition, ExecutorTask,
  is_set, is_not_started, is_success, is_failed, is_skipped, status_is_finished,
  archives_fetch_finished,
}
use agola.RunConfig.Graph.{get_parents, get_parent_depend_conditions}

abbrev pub cond_matches : RunConfigTaskDependCondition → RunTaskStatus → Bool
cond_matches RunConfigTaskDependCondition.on_success s = is_success s
cond_matches RunConfigTaskDependCondition.on_failure s = is_failed s
cond_matches RunConfigTaskDependCondition.on_skipped s = is_skipped s

-- The loop over the conditions of one parent, whose run task is `rp`.
unfoldable pub conds_match : List RunConfigTaskDependCondition → Option RunTask → Result Bool
conds_match [] rp = ok false
conds_match (cond ∷ conds) rp = do
  t ← deref rp
  rest ← conds_match conds rp
  ok (cond_matches cond t.status || rest)

-- `matchedNum`
unfoldable pub count_matched : RunConfigTask → Run → List RunConfigTask → Result ℕ
unfolding conds_match get_parent_depend_conditions lookup
count_matched rct r [] = ok 0
count_matched rct r (p ∷ ps) = do
  matched ← conds_match (get_parent_depend_conditions rct p) (lookup p.id r.tasks)
  n ← count_matched rct r ps
  ok (if matched then suc n else n)

-- runconfig.GetParents of a task that may be nil: its loop reads `task.Depends` for each task.
unfoldable pub parents_of : Map RunConfigTask → Option RunConfigTask → Result (List RunConfigTask)
unfolding get_parents
parents_of rcts (some rct) = ok (get_parents rcts rct)
parents_of [] none = ok []
parents_of (e ∷ rcts) none = panicked

-- With a nil `rct` the loop is not entered.
unfoldable pub task_matches_parent_depend_condition : RunTask → Run → RunConfig → Result Bool
unfolding parents_of
task_matches_parent_depend_condition rt r rc = do
  parents ← parents_of rc.tasks (lookup rt.id rc.tasks)
  elim (lookup rt.id rc.tasks) [
    | some rct ↦ do n ← count_matched rct r parents; ok (eqb (length parents) n)
    | none ↦ ok true
  ]

-- `finishedParents`
unfoldable pub finished_parents : Run → List RunConfigTask → Result ℕ
unfolding lookup archives_fetch_finished
finished_parents r [] = ok 0
finished_parents r (p ∷ ps) = do
  rp ← deref (lookup p.id r.tasks)
  n ← finished_parents r ps
  ok (if status_is_finished rp.status && archives_fetch_finished rp then suc n else n)

unfoldable pub is_scheduled : List ExecutorTask → RunTask → Bool
is_scheduled ets rt = any (λ et. rt.id == et.spec.run_task_id) ets

-- The body of the first loop of advanceRunTasks, for a run that is set to stop.
unfoldable pub skip_stopped : List ExecutorTask → RunTask → RunTask
skip_stopped ets rt =
    if is_scheduled ets rt
    then rt
    else if is_not_started rt.status
    then record rt { status = RunTaskStatus.skipped }
    else rt

-- The body of the second loop: root tasks.
unfoldable pub cancel_root : Run → RunConfig → List ExecutorTask → RunTask → Result RunTask
unfolding parents_of
cancel_root cur_run rc ets rt = if rt.skip || not (is_not_started rt.status) then ok rt else do
  parents ← parents_of rc.tasks (lookup rt.id rc.tasks)
  if ltb 0 (length parents)
      then ok rt
      else if is_set cur_run.result && not (is_scheduled ets rt)
      then ok (record rt { status = RunTaskStatus.cancelled })
      else ok rt

abbrev pub wait_approval : RunConfigTask → RunTask → RunTask
wait_approval rct rt =
    if rct.needs_approval && not rt.waiting_approval && not rt.approved
    then record rt { waiting_approval = true }
    else rt

-- The body of the third loop: all tasks.
unfoldable pub advance_task : Run → RunConfig → RunTask → Result RunTask
unfolding parents_of
advance_task cur_run rc rt = if rt.skip || not (is_not_started rt.status) then ok rt else do
  parents ← parents_of rc.tasks (lookup rt.id rc.tasks)
  n ← finished_parents cur_run parents
  if not (eqb n (length parents)) then ok rt else do
    matched ← task_matches_parent_depend_condition rt cur_run rc
    if not matched
        then ok (record rt { status = RunTaskStatus.skipped })
        else do rct ← deref (lookup rt.id rc.tasks); ok (wait_approval rct rt)

-- `curRun` stays as it is while the tasks of its copy change, so a loop reads no change of its own.
unfoldable pub advance_run_tasks : Run → RunConfig → List ExecutorTask → Result Run
advance_run_tasks cur_run rc ets = do
  let tasks = if cur_run.stop then map_values (skip_stopped ets) cur_run.tasks else cur_run.tasks
  tasks₁ ← map_values_m (cancel_root cur_run rc ets) tasks
  tasks₂ ← map_values_m (advance_task cur_run rc) tasks₁
  ok (record cur_run { tasks = tasks₂ })

-- The body of the loop of getTasksToRun: does it append `rt`?
unfoldable pub can_run : Run → RunConfig → RunTask → Result Bool
unfolding parents_of
can_run r rc rt = if rt.skip || not (is_not_started rt.status) then ok false else do
  parents ← parents_of rc.tasks (lookup rt.id rc.tasks)
  n ← finished_parents r parents
  if not (eqb n (length parents)) then ok false else do
    matched ← task_matches_parent_depend_condition rt r rc
    if not matched then ok false else do
      rct ← deref (lookup rt.id rc.tasks)
      ok (not rct.needs_approval || (rct.needs_approval && rt.approved))

unfoldable pub tasks_to_run : Run → RunConfig → List RunTask → Result (List RunTask)
tasks_to_run r rc [] = ok []
tasks_to_run r rc (rt ∷ rts) = do
  b ← can_run r rc rt
  rest ← tasks_to_run r rc rts
  ok (if b then rt ∷ rest else rest)

unfoldable pub get_tasks_to_run : Run → RunConfig → Result (List RunTask)
unfolding tasks_to_run
get_tasks_to_run r rc = tasks_to_run r rc (values r.tasks)
