-- ===== src/Action/Recreate.antt =====
-- recreateRun of internal/services/runservice/action/action.go: a run again, from the start or from its
-- failed tasks.
use agola.Prelude.{
  String, ◌==◌, Bool, true, false, not, ◌||◌, List, [], ◌∷◌, none, some, Map, lookup, insert,
  delete, has_key, values, map_values, any, Result, ok, deref, ◌>>=◌, if◌then◌else◌,
}
use agola.Types.{Run, RunConfig, RunConfigTask, RunTask, RunPhase, RunResult, is_success}
use agola.RunConfig.Graph.{get_all_parents}
use agola.Action.Create.{gen_run_task}

-- `nd` in place of the entry for the old id.
unfoldable pub rename_depend : String → String → RunConfigTask → RunConfigTask
rename_depend old new t = elim (lookup old t.depends) [
  | none ↦ t
  | some d ↦ record t {
    depends =
        insert new (record { task_id = new; conditions = d.conditions }) (delete old t.depends);
  }
]

-- A task under a new id, and the dependencies on it.
unfoldable pub renew_task : String → String → Map RunConfigTask → Result (Map RunConfigTask)
unfolding rename_depend
renew_task old new tasks = do
  rct ← deref (lookup old tasks)
  ok (map_values (rename_depend old new) (insert new (record rct { id = new }) (delete old tasks)))

-- The tasks with a renewed task above them.
unfoldable pub tasks_to_recreate :
    Map RunConfigTask → List String → List RunConfigTask → List String
tasks_to_recreate tasks recreated [] = []
tasks_to_recreate tasks recreated (rct ∷ rcts) =
    let rest = tasks_to_recreate tasks recreated rcts in
    if any (λ p. any (λ id. id == p.id) recreated) (get_all_parents tasks rct)
    then rct.id ∷ rest
    else rest

module _ (fresh : String → String) where
  -- The loop over the tasks of the run; it returns the new ids too. `fresh` draws the new id of a task.
  unfoldable pub renew_run_tasks :
      Bool → List RunTask → Map RunConfigTask → Result (Map RunConfigTask × List String)
  renew_run_tasks from_start [] tasks = ok (tasks, [])
  renew_run_tasks from_start (rt ∷ rts) tasks = elim (from_start || not (is_success rt.status)) [
    | false ↦ renew_run_tasks from_start rts tasks
    | true ↦ do
      tasks' ← renew_task rt.id (fresh rt.id) tasks
      o ← renew_run_tasks from_start rts tasks'
      ok (o.0, fresh rt.id ∷ o.1)
  ]

  unfoldable pub renew_tasks : List String → Map RunConfigTask → Result (Map RunConfigTask)
  renew_tasks [] tasks = ok tasks
  renew_tasks (id ∷ ids) tasks = do tasks' ← renew_task id (fresh id) tasks; renew_tasks ids tasks'

-- The run tasks that still have a definition.
unfoldable pub keep_defined : Map RunConfigTask → List RunTask → Map RunTask → Map RunTask
keep_defined tasks [] m = m
keep_defined tasks (rt ∷ rts) m =
    keep_defined tasks rts (if has_key rt.id tasks then m else delete rt.id m)

-- The definitions without a run task get one.
unfoldable pub add_missing : List RunConfigTask → Map RunTask → Map RunTask
add_missing [] m = m
add_missing (rct ∷ rcts) m =
    add_missing rcts (if has_key rct.id m then m else insert rct.id (gen_run_task rct) m)

abbrev pub reset_run : String → String → Run → Run
reset_run run_id rc_id r = record r {
  meta = record r.meta { id = run_id; revision = 0 };
  run_config_id = rc_id;
  phase = RunPhase.queued;
  result = RunResult.unknown;
  archived = false;
  stop = false;
  enqueue_time = none;
  start_time = none;
  end_time = none;
}

abbrev pub reset_config : String → Map String → RunConfig → RunConfig
reset_config rc_id environment rc = record rc {
  meta = record rc.meta { id = rc_id; revision = 0 };
  environment = environment;
}

unfoldable pub recreate_tasks :
    (String → String) → Bool → Map RunTask → Map RunConfigTask → Result (Map RunConfigTask)
unfolding renew_run_tasks tasks_to_recreate renew_tasks
recreate_tasks fresh from_start run_tasks tasks = do
  o ← renew_run_tasks fresh from_start (values run_tasks) tasks
  renew_tasks fresh (tasks_to_recreate o.0 o.1 (values o.0)) o.0

unfoldable pub recreate_run :
    (String → String)
    → String
    → String
    → Bool
    → Map String
    → Run
    → RunConfig
    → Result (Run × RunConfig)
unfolding recreate_tasks keep_defined add_missing
recreate_run fresh run_id rc_id from_start environment r rc = do
  tasks ← recreate_tasks fresh from_start r.tasks rc.tasks
  ok (
    record (reset_run run_id rc_id r) {
      tasks = add_missing (values tasks) (keep_defined tasks (values r.tasks) r.tasks);
    },
    record (reset_config rc_id environment rc) { tasks = tasks },
  )
