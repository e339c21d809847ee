-- ===== src/Store/Scheduling.antt =====
-- scheduleRun, submitRunTasks, the method chooseExecutor, sendExecutorTask, handleExecutorTaskUpdate,
-- executorTaskCleaner and compactChangeGroups of internal/services/runservice/scheduler.go. Each of
-- their transactions is a function of its own, since others may come between two of them. The HTTP
-- request of sendExecutorTask is the argument `post`.
use agola.Prelude.{
  ℕ, ◌-◌, ◌*◌, String, Bool, true, false, List, [], ◌∷◌, Option, none, some, Map, lookup, insert,
  map, ltb, length, Result, ok, err, panicked, or_err, deref, ◌>>=◌, ◌>>◌, Error, if◌then◌else◌,
}
use agola.Types.{
  Run, RunConfig, RunConfigTask, RunTask, ExecutorTask, ExecutorTaskPhase, ExecutorTaskStepStatus,
  Executor, ChangeGroup, phase_is_finished, et_phase_is_finished, et_phase_is_running,
}
use agola.Scheduler.Tasks.{get_tasks_to_run}
use agola.Scheduler.Phase.{advance_run}
use agola.Scheduler.Executors.{choose_executor}
use agola.Action.Create.{gen_executor_task}
use agola.Store.Db.{
  Db, get_run, get_run_config, get_executor_task, get_executor_tasks_by_run, get_executors,
  get_executor_tasks_by_executor, get_executor_by_executor_id, get_executor_task_by_run_task,
  insert_executor_task, update_executor_task, delete_executor_task, delete_change_group,
}
use agola.Store.Attempts.{set_stop, run_attempt}
use agola.Store.Transactions.{handle_executor_task_update}

-- The first transaction of scheduleRun: it reads the run, its config and its executor tasks.
unfoldable pub read_run : String → Db → Result (Run × RunConfig × List ExecutorTask)
read_run run_id db = do
  r ← or_err (get_run run_id db) (Error.not_exist run_id)
  rc ← or_err (get_run_config r.run_config_id db) (Error.not_exist r.run_config_id)
  ok (r, rc, get_executor_tasks_by_run r.id db)

-- The second transaction of scheduleRun on the run `r` that the first has read: advanceRun and the
-- first attempt.
unfoldable pub write_scheduled :
    ℕ
    → String
    → String
    → Run
    → RunConfig
    → List ExecutorTask
    → Db
    → Result (Db × Run × List ExecutorTask × Bool)
write_scheduled now event_id seq_id r rc ets db = do
  r₁ ← advance_run now r rc ets
  run_attempt now event_id seq_id (record { prev = r; run = r₁; rc = rc; ets = ets; to_send = [] })
      db

-- The method chooseExecutor: one transaction, which counts the tasks of each executor.
abbrev executor_tasks_count : Db → List Executor → Map ℕ
executor_tasks_count db [] = []
executor_tasks_count db (e ∷ es) =
    insert e.executor_id (length (get_executor_tasks_by_executor e.executor_id db))
      (executor_tasks_count db es)

unfoldable pub choose_executor_from : ℕ → RunConfigTask → Db → Option Executor
choose_executor_from now rct db =
    choose_executor now (get_executors db) (executor_tasks_count db (get_executors db)) rct

-- The transaction of submitRunTasks that inserts the executor task, unless the run task has one. It
-- returns whether the executor task is to be sent: the variable of that is captured, `should_send` is
-- what earlier attempts of the transaction have left in it.
unfoldable pub submit_executor_task :
    ℕ → String → String → Bool → ExecutorTask → Db → Result (Db × Bool)
submit_executor_task now run_id rt_id should_send et db = do
  cur ← get_executor_task_by_run_task run_id rt_id db
  elim cur [
    | some _ ↦ ok (db, should_send)
    | none ↦ do db' ← insert_executor_task now et db; ok (db', true)
  ]

-- The transaction of executorTaskCleaner. It returns the executor task that it has read, if any, and
-- whether it is to be sent: `should_send` is what earlier attempts have left in the captured flag.
abbrev pub fail_running_step : ℕ → ExecutorTaskStepStatus → ExecutorTaskStepStatus
fail_running_step now s =
    if et_phase_is_running s.phase
    then record s { phase = ExecutorTaskPhase.failed; end_time = some now }
    else s

abbrev pub fail_executor_task : ℕ → ExecutorTask → ExecutorTask
fail_executor_task now et = record et {
  status = record et.status {
    fail_error = "executor deleted";
    phase = ExecutorTaskPhase.failed;
    end_time = some now;
    steps = map (fail_running_step now) et.status.steps;
  };
}

unfoldable pub clean_finished :
    ℕ → ExecutorTask → Bool → Db → Result (Db × Option ExecutorTask × Bool)
clean_finished now et should_send db = elim (get_run et.spec.run_id db) [
  | none ↦ ok (delete_executor_task et.id db, some et, should_send)
  | some r ↦
      if phase_is_finished r.phase
      then (if et.spec.stop then ok (db, some et, should_send) else (do
        db' ← update_executor_task now (set_stop et) db
        ok (db', some (set_stop et), true)))
      else ok (db, some et, should_send)
]

unfoldable pub clean_unfinished :
    ℕ → ExecutorTask → Bool → Db → Result (Db × Option ExecutorTask × Bool)
clean_unfinished now et should_send db = do
  e ← get_executor_by_executor_id et.spec.executor_id db
  elim e [
    | some _ ↦ ok (db, some et, should_send)
    | none ↦ do
      db' ← update_executor_task now (fail_executor_task now et) db
      ok (db', some (fail_executor_task now et), should_send)
  ]

unfoldable pub clean_executor_task :
    ℕ → String → Bool → Db → Result (Db × Option ExecutorTask × Bool)
clean_executor_task now et_id should_send db = elim (get_executor_task et_id db) [
  | none ↦ ok (db, none, should_send)
  | some et ↦
      if et_phase_is_finished et.status.phase
      then clean_finished now et should_send db
      else clean_unfinished now et should_send db
]

-- changeGroupMinDuration: 5 * time.Minute
abbrev pub change_group_min_duration : ℕ
change_group_min_duration = 300 * 1000000000

-- The loop of compactChangeGroups.
unfoldable pub compact_change_groups : ℕ → List ChangeGroup → Db → Db
compact_change_groups now [] db = db
compact_change_groups now (g ∷ gs) db = compact_change_groups now gs (
    if ltb (now - g.update_time) change_group_min_duration then db else delete_change_group g.id db)

module _ (post : Executor → ExecutorTask → Result (Unit {0})) where
  unfoldable pub send_executor_task : ExecutorTask → Db → Result (Unit {0})
  send_executor_task et db = do
    e ← get_executor_by_executor_id et.spec.executor_id db
    r ← or_err (get_run et.spec.run_id db) (Error.not_exist et.spec.run_id)
    rc ← or_err (get_run_config r.run_config_id db) (Error.not_exist r.run_config_id)
    elim e [
      | none ↦ ok tt
      | some executor ↦ do
        rt ←
            or_err (lookup et.spec.run_task_id r.tasks)
              (Error.no_such_run_task et.spec.run_task_id r.id)
        post executor et
    ]

  unfoldable pub send_executor_tasks : List ExecutorTask → Db → Result (Unit {0})
  send_executor_tasks [] db = ok tt
  send_executor_tasks (et ∷ ets) db = do send_executor_task et db; send_executor_tasks ets db

-- A step that may fail between transactions: what is committed stays.
abbrev pub attempt {ℓ} :
    {A : Type ℓ} → Result A → Db → (A → Db × Result (Unit {0})) → Db × Result (Unit {0})
attempt (ok a) db f = f a
attempt (err e) db f = (db, err e)
attempt panicked db f = (db, panicked)

module _ (post : Executor → ExecutorTask → Result (Unit {0})) (now : ℕ) (fresh : String → String)
    (setup : ExecutorTaskStepStatus) where
  -- submitRunTasks; `fresh` draws the id of the executor task for a run task, and `setup` is the empty
  -- status of its setup step.
  unfoldable pub submit_run_tasks : Run → RunConfig → List RunTask → Db → Db × Result (Unit {0})
  submit_run_tasks r rc [] db = (db, ok tt)
  submit_run_tasks r rc (rt ∷ rts) db =
      let rest = submit_run_tasks r rc rts in
      attempt (get_executor_task_by_run_task r.id rt.id db) db (λ cur. elim cur [
        | some _ ↦ rest db
        | none ↦ attempt (deref (lookup rt.id rc.tasks)) db (λ rct.
            elim (choose_executor_from now rct db) [
              | none ↦ (db, ok tt)
              | some executor ↦
                  attempt (gen_executor_task (fresh rt.id) setup r rt rc executor) db (λ et.
                    attempt (submit_executor_task now r.id rt.id false et db) db (λ o.
                      if o.1
                      then attempt (send_executor_task post et o.0) o.0 (λ _. rest o.0)
                      else rest o.0))
            ])
      ])

  unfoldable pub schedule_run : String → String → String → Db → Db × Result (Unit {0})
  schedule_run event_id seq_id run_id db = attempt (read_run run_id db) db (λ (r, rc, ets).
      attempt (write_scheduled now event_id seq_id r rc ets db) db
        (λ (db', r', to_send, should_submit).
          attempt (send_executor_tasks post to_send db') db' (λ _.
            if should_submit
            then attempt (get_tasks_to_run r' rc) db' (λ ts. submit_run_tasks r' rc ts db')
            else (db', ok tt))))

  unfoldable pub handle_update : String → String → String → Db → Db × Result (Unit {0})
  handle_update event_id seq_id et_id db =
      attempt (handle_executor_task_update now et_id db) db (λ db'.
        attempt (or_err (get_executor_task et_id db) (Error.not_exist et_id)) db'
          (λ et. schedule_run event_id seq_id et.spec.run_id db'))

  -- An executor task that is nil is dereferenced when it is sent.
  unfoldable pub executor_task_cleaner : String → Db → Db × Result (Unit {0})
  executor_task_cleaner et_id db =
      attempt (clean_executor_task now et_id false db) db (λ (db', et, to_send).
        if to_send then (db', deref et >>= λ t. send_executor_task post t db') else (db', ok tt))
