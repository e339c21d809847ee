-- ===== src/Store/Db.antt =====
-- The tables of internal/services/runservice/db/db.go that the runs need, with the reads and writes
-- of single objects.
use agola.Prelude.{
  ℕ, suc, String, ◌==◌, List, Option, none, some, Map, lookup, values, filter, delete, [], ◌∷◌,
  ◌&&◌, Result, ok, err, Error, ◌>>=◌,
}
use agola.Types.{
  Run, RunConfig, RunPhase, RunResult, RunEvent, ExecutorTask, ChangeGroup, Sequence, SequenceType,
  RunCounter, Executor, new_meta,
}
use agola.Store.Rows.{insert_row, update_row}

-- Rows by id; of the sequences, the row of each type if it is there.
pub record Db : Type 0 where
  pub runs : Map Run
  pub run_configs : Map RunConfig
  pub executor_tasks : Map ExecutorTask
  pub change_groups : Map ChangeGroup
  pub run_sequence : Option Sequence
  pub run_event_sequence : Option Sequence
  pub run_events : Map RunEvent
  pub run_counters : Map RunCounter
  pub executors : Map Executor

abbrev pub get_run : String → Db → Option Run
get_run id db = lookup id db.runs

abbrev pub get_run_config : String → Db → Option RunConfig
get_run_config id db = lookup id db.run_configs

abbrev pub get_executor_task : String → Db → Option ExecutorTask
get_executor_task id db = lookup id db.executor_tasks

abbrev pub get_executor_tasks_by_run : String → Db → List ExecutorTask
get_executor_tasks_by_run id db = filter (λ et. et.spec.run_id == id) (values db.executor_tasks)

abbrev pub get_executors : Db → List Executor
get_executors db = values db.executors

abbrev pub get_executor_tasks_by_executor : String → Db → List ExecutorTask
get_executor_tasks_by_executor id db =
    filter (λ et. et.spec.executor_id == id) (values db.executor_tasks)

-- `GetExecutorTaskByRunTask` and the like: an error if there are several rows.
unfoldable pub at_most_one : {V : Type 0} → List V → Result (Option V)
at_most_one [] = ok none
at_most_one (v ∷ []) = ok (some v)
at_most_one (v ∷ w ∷ vs) = err Error.too_many_rows

unfoldable pub get_executor_by_executor_id : String → Db → Result (Option Executor)
unfolding at_most_one
get_executor_by_executor_id id db =
    at_most_one (filter (λ e. e.executor_id == id) (values db.executors))

unfoldable pub get_executor_task_by_run_task : String → String → Db → Result (Option ExecutorTask)
unfolding at_most_one
get_executor_task_by_run_task run_id rt_id db = at_most_one (
    filter (λ et. et.spec.run_id == run_id && et.spec.run_task_id == rt_id)
      (values db.executor_tasks))

unfoldable pub update_run : ℕ → Run → Db → Result Db
update_run now r db = do
  rows ← update_row (λ (r : Run). r.meta) (λ r m. record r { meta = m }) now r db.runs
  ok (record db { runs = rows })

unfoldable pub insert_run : ℕ → Run → Db → Result Db
insert_run now r db = do
  rows ← insert_row (λ (r : Run). r.meta) (λ r m. record r { meta = m }) now r db.runs
  ok (record db { runs = rows })

unfoldable pub insert_run_config : ℕ → RunConfig → Db → Result Db
insert_run_config now rc db = do
  rows ←
      insert_row (λ (rc : RunConfig). rc.meta) (λ rc m. record rc { meta = m }) now rc
        db.run_configs
  ok (record db { run_configs = rows })

unfoldable pub insert_executor_task : ℕ → ExecutorTask → Db → Result Db
insert_executor_task now et db = do
  rows ←
      insert_row (λ (et : ExecutorTask). et.meta) (λ et m. record et { meta = m }) now et
        db.executor_tasks
  ok (record db { executor_tasks = rows })

unfoldable pub update_executor_task : ℕ → ExecutorTask → Db → Result Db
update_executor_task now et db = do
  rows ←
      update_row (λ (et : ExecutorTask). et.meta) (λ et m. record et { meta = m }) now et
        db.executor_tasks
  ok (record db { executor_tasks = rows })

abbrev pub delete_executor_task : String → Db → Db
delete_executor_task id db = record db { executor_tasks = delete id db.executor_tasks }

abbrev pub delete_change_group : String → Db → Db
delete_change_group id db = record db { change_groups = delete id db.change_groups }

unfoldable pub insert_run_event : ℕ → RunEvent → Db → Result Db
insert_run_event now e db = do
  rows ← insert_row (λ (e : RunEvent). e.meta) (λ e m. record e { meta = m }) now e db.run_events
  ok (record db { run_events = rows })

abbrev pub get_sequence : SequenceType → Db → Option Sequence
get_sequence SequenceType.run db = db.run_sequence
get_sequence SequenceType.run_event db = db.run_event_sequence

abbrev pub put_sequence : SequenceType → Sequence → Db → Db
put_sequence SequenceType.run s db = record db { run_sequence = some s }
put_sequence SequenceType.run_event s db = record db { run_event_sequence = some s }

-- A sequence that is not there yet starts at 0; `id` is the fresh id for it, and the insert gives it
-- its creation time.
abbrev pub or_new_sequence : ℕ → String → SequenceType → Option Sequence → Sequence
or_new_sequence now id type (some s) = s
or_new_sequence now id type none = record {
  meta = record (new_meta id) { creation_time = now };
  value = 0;
  sequence_type = type;
}

-- NextSequence. The row was read in the same transaction, so its update does not fail: the revision
-- becomes 1 on the insert and grows by one on an update.
unfoldable pub next_sequence : ℕ → String → SequenceType → Db → Db × ℕ
next_sequence now id type db =
    let s = or_new_sequence now id type (get_sequence type db) in
    (
      put_sequence type
          (record s {
            meta = record s.meta { revision = suc s.meta.revision; update_time = now };
            value = suc s.value;
          })
          db,
      suc s.value,
    )

-- NewRunEvent of internal/services/runservice/common/events.go.
unfoldable pub new_run_event :
    ℕ → String → String → String → RunPhase → RunResult → Db → Db × RunEvent
new_run_event now id seq_id run_id phase result db =
    let (db', n) = next_sequence now seq_id SequenceType.run_event db in
    (
      db',
      record { meta = new_meta id; sequence = n; run_id = run_id; phase = phase; result = result },
    )
