-- ===== src/Store/Attempts.antt =====
-- The second transaction of scheduleRun of internal/services/runservice/scheduler.go. `Do` of
-- internal/sql/db.go repeats the function that it is given after some errors, with the variables that
-- the function has captured, which a failed attempt has changed: the revision of the run, for one.
use agola.Prelude.{
  ℕ, zero, suc, String, Bool, true, false, not, ◌||◌, List, [], ◌∷◌, ◌++◌, map, length, Result, ok,
  ◌>>=◌, if◌then◌else◌,
}
use agola.Types.{Run, RunConfig, RunPhase, RunResult, ExecutorTask, phase_is_running}
use agola.Scheduler.Tasks.{advance_run_tasks}
use agola.Store.Rows.{next_meta}
use agola.Store.Db.{Db, update_run, insert_run_event, new_run_event, update_executor_task}

abbrev pub same_phase : RunPhase → RunPhase → Bool
same_phase RunPhase.setup_error RunPhase.setup_error = true
same_phase RunPhase.queued RunPhase.queued = true
same_phase RunPhase.cancelled RunPhase.cancelled = true
same_phase RunPhase.running RunPhase.running = true
same_phase RunPhase.finished RunPhase.finished = true
same_phase _ _ = false

abbrev pub same_result : RunResult → RunResult → Bool
same_result RunResult.unknown RunResult.unknown = true
same_result RunResult.stopped RunResult.stopped = true
same_result RunResult.success RunResult.success = true
same_result RunResult.failed RunResult.failed = true
same_result _ _ = false

abbrev pub set_stop : ExecutorTask → ExecutorTask
set_stop et = record et { spec = record et.spec { stop = true } }

-- The loop that stops the scheduled executor tasks of a run.
unfoldable pub stop_executor_tasks : ℕ → List ExecutorTask → Db → Result Db
stop_executor_tasks now [] db = ok db
stop_executor_tasks now (et ∷ ets) db = do
  db' ← update_executor_task now (set_stop et) db
  stop_executor_tasks now ets db'

-- The event of a new phase or result, if one of them has changed from `r` to `r'`.
unfoldable pub store_event : ℕ → String → String → Run → Run → Db → Result Db
store_event now event_id seq_id r r' db =
    if not (same_phase r.phase r'.phase) || not (same_result r.result r'.result)
    then (let (db', event) = new_run_event now event_id seq_id r'.id r'.phase r'.result db in
        insert_run_event now event db')
    else ok db

-- What the function has captured: the phase and the result that the run was read with (in `prev`), the
-- run after advanceRun, its config and executor tasks, and the executor tasks to send, so far.
pub record Captured : Type 0 where
  pub prev : Run
  pub run : Run
  pub rc : RunConfig
  pub ets : List ExecutorTask
  pub to_send : List ExecutorTask

abbrev stop_tasks : Captured → List ExecutorTask
stop_tasks c = if c.run.stop then map set_stop c.ets else []

unfoldable pub stop_all : ℕ → Captured → Db → Result Db
stop_all now c db = if c.run.stop then stop_executor_tasks now c.ets db else ok db

unfoldable pub advance_captured : Captured → Result Run
advance_captured c =
    if phase_is_running c.run.phase then advance_run_tasks c.run c.rc c.ets else ok c.run

-- An attempt that succeeds. It returns the run that it has written, the executor tasks to send, and
-- whether to submit tasks.
unfoldable pub run_attempt :
    ℕ → String → String → Captured → Db → Result (Db × Run × List ExecutorTask × Bool)
run_attempt now event_id seq_id c db = do
  db₁ ← stop_all now c db
  r ← advance_captured c
  db₂ ← update_run now r db₁
  db₃ ← store_event now event_id seq_id c.prev r db₂
  ok (db₃, r, c.to_send ++ stop_tasks c, phase_is_running c.run.phase)

-- Where an attempt fails by an error that `Do` answers with another attempt: after the update of some
-- executor tasks, at the statement of UpdateRun, or after it.
pub data FailedAt : Type 0 where
  stopping : ℕ → FailedAt
  updating later : FailedAt

abbrev pub is_later : FailedAt → Bool
is_later later = true
is_later _ = false

abbrev first_stopped : ℕ → List ExecutorTask → List ExecutorTask
first_stopped _ [] = []
first_stopped zero _ = []
first_stopped (suc n) (et ∷ ets) = set_stop et ∷ first_stopped n ets

-- The update of an executor task increments the revision of the captured one.
abbrev bump_stopped : ℕ → ℕ → List ExecutorTask → List ExecutorTask
bump_stopped now _ [] = []
bump_stopped now zero ets = ets
bump_stopped now (suc n) (et ∷ ets) =
    record (set_stop et) { meta = next_meta now et.meta } ∷ bump_stopped now n ets

unfoldable pub stopped_some : ℕ → ℕ → Captured → Captured
stopped_some now n c =
    if c.run.stop
    then record c { ets = bump_stopped now n c.ets; to_send = c.to_send ++ first_stopped n c.ets }
    else c

-- What a failed attempt leaves of the captured variables. UpdateRun takes the new revision back when
-- its own statement fails, not when the transaction fails later; the update time that it leaves in an
-- object is left out, as the next update sets it again.
unfoldable pub after_failure : ℕ → FailedAt → Captured → Db → Result Captured
after_failure now (stopping n) c db = ok (stopped_some now n c)
after_failure now updating c db = do
  _ ← stop_all now c db
  r ← advance_captured c
  ok (record (stopped_some now (length c.ets) c) { run = r })
after_failure now later c db = do
  db₁ ← stop_all now c db
  r ← advance_captured c
  _ ← update_run now r db₁
  ok (record (stopped_some now (length c.ets) c) { run = record r { meta = next_meta now r.meta } })
