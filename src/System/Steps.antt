-- ===== src/System/Steps.antt =====
-- The transactions of internal/services/runservice as a step relation. A scheduler works on a run that
-- it has read in an earlier transaction: `reads` has what is read and may still be written. `Do`
-- repeats a transaction that fails with the variables that it has captured: the second transaction of
-- scheduleRun and the one of submitRunTasks change such variables that they use again.
use agola.Prelude.{
  values, ℕ, String, ◌≡◌, Bool, false, ◌||◌, List, [], ◌∷◌, if◌then◌else◌, Option, Map, Memᴰ, ok,
  Error,
}
use agola.Types.{
  Run, RunConfig, RunTask, RunPhase, ExecutorTask, ExecutorTaskStepStatus, Executor,
  ChangeGroupsUpdateToken,
}
use agola.Action.Create.{gen_executor_task}
use agola.Action.Request.{RunCreateRequest, RunBundle, new_run_bundle}
use agola.Store.Db.{Db, get_executors}
use agola.Store.Transactions.{
  stop_run_action, run_task_set_annotations, approve_run_task, change_run_phase_action,
  finish_setup_log, finish_step_log, finish_archive_of, finished_run_archiver,
  handle_executor_task_update,
}
use agola.Store.Tokens.{get_change_groups_update_tokens}
use agola.Scheduler.Phase.{advance_run}
use agola.Store.Rows.{first_meta}
use agola.Store.Attempts.{Captured, FailedAt, is_later, run_attempt, after_failure}
use agola.Store.Scheduling.{
  read_run, write_scheduled, submit_executor_task, clean_executor_task, compact_change_groups,
}
use agola.Store.Creation.{FreshIds, save_run, recreate_run_of}
use agola.Store.ExecutorApi.{
  report_executor_status, delete_stale_executors, report_executor_task_status, remove_executor,
}

-- An executor task as a failed attempt of its insertion leaves it.
abbrev pub tried_task : Bool → ℕ → ExecutorTask → ExecutorTask
tried_task tried now et = if tried then record et { meta = first_meta now et.meta } else et

-- A transaction that is committed: what it draws and is asked for may be anything.
pub data Committed (db db' : Db) : Type 0 where
  run_stopped :
      (now : ℕ) (fresh : String → String) (cgt : Option ChangeGroupsUpdateToken) (id : String)
      → stop_run_action now fresh cgt id db ≡ ok db'
      → Committed db db'
  task_annotated :
      (now : ℕ) (fresh : String → String) (cgt : Option ChangeGroupsUpdateToken) (t : String)
      (a : Map String) (id : String)
      → run_task_set_annotations now fresh cgt t a id db ≡ ok db'
      → Committed db db'
  task_approved :
      (now : ℕ) (fresh : String → String) (cgt : Option ChangeGroupsUpdateToken) (t id : String)
      → approve_run_task now fresh cgt t id db ≡ ok db'
      → Committed db db'
  phase_changed :
      (now : ℕ) (fresh : String → String) (cgt : Option ChangeGroupsUpdateToken)
      (event_id seq_id : String) (phase : RunPhase) (id : String)
      → change_run_phase_action now fresh cgt event_id seq_id phase id db ≡ ok db'
      → Committed db db'
  setup_log_fetched :
      (now : ℕ) (id t : String) → finish_setup_log now id t db ≡ ok db' → Committed db db'
  step_log_fetched :
      (now : ℕ) (id t : String) (n : ℕ) → finish_step_log now id t n db ≡ ok db' → Committed db db'
  archive_fetched :
      (now : ℕ) (id t : String) (n : ℕ)
      → finish_archive_of now id t n db ≡ ok db'
      → Committed db db'
  run_archived :
      (now : ℕ) (id : String) → finished_run_archiver now id db ≡ ok db' → Committed db db'
  update_handled :
      (now : ℕ) (et_id : String)
      → handle_executor_task_update now et_id db ≡ ok db'
      → Committed db db'
  task_cleaned :
      (now : ℕ) (et_id : String) (should_send : Bool) (o : Option ExecutorTask) (sent : Bool)
      → clean_executor_task now et_id should_send db ≡ ok (db', o, sent)
      → Committed db db'
  task_submitted :
      (now : ℕ) (id : String) (setup : ExecutorTaskStepStatus) (r : Run) (rt : RunTask)
      (rc : RunConfig) (e : Executor) (et : ExecutorTask) (tried should_send sent : Bool) (t : ℕ)
      → gen_executor_task id setup r rt rc e ≡ ok et
      → submit_executor_task now r.id rt.id should_send (tried_task tried t et) db ≡ ok (db', sent)
      → Committed db db'
  task_reported :
      (now : ℕ) (et : ExecutorTask)
      → report_executor_task_status now et db ≡ ok db'
      → Committed db db'
  executor_reported :
      (now : ℕ) (id : String) (e : Executor)
      → report_executor_status now id e db ≡ ok db'
      → Committed db db'
  stale_deleted :
      (e : Executor) → delete_stale_executors e (get_executors db) db ≡ db' → Committed db db'
  groups_compacted :
      (now : ℕ) → compact_change_groups now (values db.change_groups) db ≡ db' → Committed db db'
  token_made :
      (now : ℕ) (new_id new_value : String → String) (names : List String)
      (t : ChangeGroupsUpdateToken)
      → get_change_groups_update_tokens now new_id new_value names db ≡ ok (db', t)
      → Committed db db'
  executor_removed : (id : String) → remove_executor id db ≡ ok db' → Committed db db'
  run_created :
      (text : Error → String) (rc_id run_id : String) (req : RunCreateRequest) (rb : RunBundle)
      (now : ℕ) (fresh : String → String) (ids : FreshIds) (cgt : Option ChangeGroupsUpdateToken)
      → new_run_bundle text rc_id run_id req ≡ ok rb
      → save_run now fresh ids cgt rb db ≡ ok db'
      → Committed db db'
  -- The run that is run again was read in an earlier transaction, from `db₀`.
  run_recreated :
      (db₀ : Db) (rc_id run_id : String) (req : RunCreateRequest) (rb : RunBundle) (now : ℕ)
      (fresh : String → String) (ids : FreshIds) (cgt : Option ChangeGroupsUpdateToken)
      → recreate_run_of fresh run_id rc_id req db₀ ≡ ok rb
      → save_run now fresh ids cgt rb db ≡ ok db'
      → Committed db db'

pub record Snapshot : Type 0 where
  pub run : Run
  pub rc : RunConfig
  pub ets : List ExecutorTask

-- What the second transaction of a scheduleRun has captured after its last failed attempt, and whether
-- one of its attempts has failed after UpdateRun.
pub record Failed : Type 0 where
  pub past_update : Bool
  pub captured : Captured

pub record System : Type 0 where
  pub db : Db
  pub reads : List Snapshot
  pub failed : List Failed

pub data SystemStep (s s' : System) : Type 0 where
  committed : (db' : Db) → Committed s.db db' → s' ≡ record s { db = db' } → SystemStep s s'
  -- The first transaction of a scheduleRun.
  run_read :
      (id : String) (r : Run) (rc : RunConfig) (ets : List ExecutorTask)
      → read_run id s.db ≡ ok (r, rc, ets)
      → s' ≡ record s { reads = record { run = r; rc = rc; ets = ets } ∷ s.reads }
      → SystemStep s s'
  -- The second transaction of a scheduleRun, at any time after the first, by its first attempt.
  run_scheduled :
      (snap : Snapshot) (now : ℕ) (event_id seq_id : String) (db' : Db) (r' : Run)
      (to_send : List ExecutorTask) (should_submit : Bool)
      → Memᴰ snap s.reads
      → write_scheduled now event_id seq_id snap.run snap.rc snap.ets s.db
        ≡ ok (db', r', to_send, should_submit)
      → s' ≡ record s { db = db' }
      → SystemStep s s'
  -- A first attempt of the second transaction that fails.
  attempt_failed :
      (snap : Snapshot) (now : ℕ) (at : FailedAt) (r : Run) (c : Captured)
      → Memᴰ snap s.reads
      → advance_run now snap.run snap.rc snap.ets ≡ ok r
      → after_failure now at
          (record { prev = snap.run; run = r; rc = snap.rc; ets = snap.ets; to_send = [] })
          s.db
        ≡ ok c
      → s' ≡ record s { failed = record { past_update = is_later at; captured = c } ∷ s.failed }
      → SystemStep s s'
  -- A further attempt that fails.
  retry_failed :
      (f : Failed) (now : ℕ) (at : FailedAt) (c : Captured)
      → Memᴰ f s.failed
      → after_failure now at f.captured s.db ≡ ok c
      → s' ≡ record s {
        failed = record { past_update = f.past_update || is_later at; captured = c } ∷ s.failed;
      }
      → SystemStep s s'
  -- A further attempt that succeeds.
  run_retried :
      (f : Failed) (now : ℕ) (event_id seq_id : String) (db' : Db) (r' : Run)
      (to_send : List ExecutorTask) (should_submit : Bool)
      → Memᴰ f s.failed
      → run_attempt now event_id seq_id f.captured s.db ≡ ok (db', r', to_send, should_submit)
      → s' ≡ record s { db = db' }
      → SystemStep s s'

pub data SystemSteps (s : System) : System → Type 0 where
  here : SystemSteps s s
  more : {s' s'' : System} → SystemSteps s s' → SystemStep s' s'' → SystemSteps s s''

-- The step is not a success of the second transaction of a scheduleRun that has failed before, after
-- its UpdateRun.
abbrev pub IsTimely : {s s' : System} → SystemStep s s' → Type 0
IsTimely (committed _ _ _) = Unit
IsTimely (run_read _ _ _ _ _ _) = Unit
IsTimely (run_scheduled _ _ _ _ _ _ _ _ _ _ _) = Unit
IsTimely (attempt_failed _ _ _ _ _ _ _ _ _) = Unit
IsTimely (retry_failed _ _ _ _ _ _ _) = Unit
IsTimely (run_retried f _ _ _ _ _ _ _ _ _ _) = f.past_update ≡ false

abbrev pub AllTimely : {s s' : System} → SystemSteps s s' → Type 0
AllTimely here = Unit
AllTimely (more p q) = AllTimely p × IsTimely q
