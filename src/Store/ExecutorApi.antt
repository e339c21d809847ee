-- ===== src/Store/ExecutorApi.antt =====
-- The handlers of internal/services/runservice/api/executor.go that change the database: the reports of
-- an executor on itself and on a task, and its removal.
use agola.Prelude.{
  ℕ, String, ◌==◌, Bool, false, not, List, [], ◌∷◌, Option, none, some, delete, any, Result, ok,
  or_err, ◌>>=◌, Error, if◌then◌else◌,
}
use agola.Types.{Executor, ExecutorTask, new_meta}
use agola.Store.Rows.{insert_or_update_row}
use agola.Store.Db.{Db, get_executor_task, get_executor_by_executor_id, update_executor_task}

-- NewExecutor with a fresh id. The other fields are set from the report.
abbrev or_new_meta : String → Option Executor → Executor → Executor
or_new_meta id none rec = record rec { meta = new_meta id }
or_new_meta id (some e) rec = record rec { meta = e.meta }

abbrev pub delete_executor : String → Db → Db
delete_executor id db = record db { executors = delete id db.executors }

-- The first transaction of ExecutorStatusHandler, with the reported executor.
unfoldable pub report_executor_status : ℕ → String → Executor → Db → Result Db
report_executor_status now id rec db = do
  cur ← get_executor_by_executor_id rec.executor_id db
  rows ←
      insert_or_update_row (λ (e : Executor). e.meta) (λ e m. record e { meta = m }) now
        (or_new_meta id cur rec) db.executors
  ok (record db { executors = rows })

-- Is `e` a dynamic executor of the group of `cur` that is not among the siblings that `cur` knows?
unfoldable pub is_stale : Executor → Executor → Bool
is_stale cur e =
    if e.executor_id == cur.executor_id
    then false
    else if not e.dynamic
    then false
    else if not (e.executor_group == cur.executor_group)
    then false
    else not (any (λ id. e.executor_id == id) cur.siblings_executors)

-- The loop of deleteStaleExecutors.
unfoldable pub delete_stale_executors : Executor → List Executor → Db → Db
unfolding is_stale
delete_stale_executors cur [] db = db
delete_stale_executors cur (e ∷ es) db =
    delete_stale_executors cur es (if is_stale cur e then delete_executor e.id db else db)

-- ExecutorTaskStatusHandler: the status of the task is taken over; an unknown task is no error.
unfoldable pub report_executor_task_status : ℕ → ExecutorTask → Db → Result Db
report_executor_task_status now et db = elim (get_executor_task et.id db) [
  | none ↦ ok db
  | some cur ↦ update_executor_task now (record cur { status = et.status }) db
]

-- ExecutorDeleteHandler
unfoldable pub remove_executor : String → Db → Result Db
remove_executor executor_id db = do
  cur ← get_executor_by_executor_id executor_id db
  e ← or_err cur (Error.not_exist executor_id)
  ok (delete_executor e.id db)
