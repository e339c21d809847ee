-- ===== src/Store/Reports.antt =====
-- What an executor's report of a task writes: ExecutorTaskStatusHandler of
-- internal/services/runservice/api/executor.go.
use agola.Prelude.{
  ℕ, ◌≡◌, refl, ap, sym, ◌∙◌, String, ◌==◌, eq_iff, Option, none, some, lookup, insert,
  lookup-insert, ok, arith, Bool-cases, inl, inr, if◌then◌else◌,
}
use agola.Types.{ExecutorTask}
use agola.Store.Rows.{next_meta, update_row}
use agola.Store.Db.{Db, get_executor_task, update_executor_task}
use agola.Store.ExecutorApi.{report_executor_task_status}

update_executor_task-written :
    (now : ℕ) (et : ExecutorTask) (db db' : Db)
    → update_executor_task now et db ≡ ok db'
    → db'.executor_tasks
      ≡ insert et.id (record et { meta = next_meta now et.meta }) db.executor_tasks
unfolding update_executor_task update_row
update_executor_task-written now et db db' h = ground arith

-- If every executor task is stored under its id, then after a report of an executor each is one that
-- was there, for the same run, run task and executor and with the same mark to stop.
pub reported_task_stays :
    (now : ℕ) (et : ExecutorTask) (db db' : Db) (k : String) (after : ExecutorTask)
    → ((x : ExecutorTask) (j : String) → lookup j db.executor_tasks ≡ some x → x.id ≡ j)
    → report_executor_task_status now et db ≡ ok db'
    → lookup k db'.executor_tasks ≡ some after
    → (before : ExecutorTask) × (lookup k db.executor_tasks ≡ some before)
      × (after.spec ≡ before.spec)
unfolding report_executor_task_status
reported_task_stays now et db db' k after keyed h l = by_task (get_executor_task et.id db) refl h
  where
    by_task :
        (o : Option ExecutorTask)
        → get_executor_task et.id db ≡ o
        → elim o [
          | none ↦ ok db
          | some cur ↦ update_executor_task now (record cur { status = et.status }) db
        ]
          ≡ ok db'
        → (before : ExecutorTask) × (lookup k db.executor_tasks ≡ some before)
          × (after.spec ≡ before.spec)
    by_task none e q =
        let same : db' ≡ db = ground arith in
        (after, sym (ap (λ (d : Db). lookup k d.executor_tasks) same) ∙ l, refl)
    by_task (some cur) e q =
        let written : ExecutorTask = record cur {
          meta = next_meta now cur.meta;
          status = et.status;
        } in
        let found : lookup k (insert cur.id written db.executor_tasks) ≡ some after =
          sym (
            ap (lookup k)
              (update_executor_task-written now (record cur { status = et.status }) db db' q))
          ∙ l in
        elim (Bool-cases (cur.id == k)) [
          | inl hit ↦
              let at : cur.id ≡ k = (eq_iff cur.id k).0 hit in
              let rows : some written ≡ some after =
                sym (
                  lookup-insert cur.id k written db.executor_tasks
                  ∙ ap (λ b. if b then some written else lookup k db.executor_tasks) hit)
                ∙ found in
              let is : written ≡ after = cc in
              (
                cur,
                ap (λ j. lookup j db.executor_tasks) (sym at ∙ keyed cur et.id e) ∙ e,
                ap (λ (x : ExecutorTask). x.spec) (sym is),
              )
          | inr miss ↦ (
            after,
            sym (
                  lookup-insert cur.id k written db.executor_tasks
                  ∙ ap (λ b. if b then some written else lookup k db.executor_tasks) miss)
                ∙ found,
            refl,
          )
        ]
