-- ===== src/Store/Submission.antt =====
-- submitRunTasks of internal/services/runservice/scheduler.go: the executor tasks of a run task.
pub mod Loop
use agola.Prelude.{
  ℕ, String, ◌==◌, ◌≡◌, refl, sym, ◌∙◌, subst, Bool, true, false, ◌&&◌, List, [], ◌∷◌, Option, none,
  some, Map, values, filter, lookup, insert, Result, ok, err, panicked, deref, bound, >>=-Bound,
  ◌>>=◌, arith, Bool-cases, inl, inr, if◌then◌else◌,
}
use agola.Types.{Run, RunConfig, RunTask, ExecutorTask, ExecutorTaskStepStatus, Executor}
use agola.Action.Create.{gen_executor_task}
use agola.Store.Rows.{first_meta, insert_row}
use agola.Store.Db.{Db, at_most_one, get_executor_task_by_run_task, insert_executor_task}
use agola.Store.Scheduling.{
  choose_executor_from, submit_executor_task, send_executor_task, attempt, submit_run_tasks,
}

-- No run task has two executor tasks: GetExecutorTaskByRunTask never finds too many rows.
abbrev pub OneEach : Db → Type 0
OneEach db =
    (run_id rt_id : String)
    → (o : Option ExecutorTask) × (get_executor_task_by_run_task run_id rt_id db ≡ ok o)

abbrev pub is_of : String → String → ExecutorTask → Bool
is_of run_id rt_id et = et.spec.run_id == run_id && et.spec.run_task_id == rt_id

module _ {V : Type 0} where
  pub filter-insert_hit :
      (p : V → Bool) (k : String) (v : V) (m : Map V)
      → lookup k m ≡ none
      → p v ≡ true
      → filter p (values m) ≡ []
      → filter p (values (insert k v m)) ≡ v ∷ []
  unfolding lookup insert
  filter-insert_hit p k v [] l e f = ground arith
  filter-insert_hit p k v ((j, w) ∷ m) l e f = ground (arith, filter-insert_hit p k v m)

  pub filter-insert_miss :
      (p : V → Bool) (k : String) (v : V) (m : Map V)
      → lookup k m ≡ none
      → p v ≡ false
      → filter p (values (insert k v m)) ≡ filter p (values m)
  unfolding lookup insert
  filter-insert_miss p k v [] l e = ground arith
  filter-insert_miss p k v ((j, w) ∷ m) l e = ground (arith, filter-insert_miss p k v m)

  pub none_found : (xs : List V) → at_most_one xs ≡ ok none → xs ≡ []
  unfolding at_most_one
  none_found [] h = refl
  none_found (x ∷ []) h = ground arith
  none_found (x ∷ y ∷ xs) h = ground arith

-- What the transaction of a submission has found and written.
pub data Submitted (now : ℕ) (run_id rt_id : String) (should_send : Bool) (et : ExecutorTask)
    (db db' : Db) : Bool → Type 0 where
  was_there :
      (cur : ExecutorTask)
      → get_executor_task_by_run_task run_id rt_id db ≡ ok (some cur)
      → db' ≡ db
      → Submitted now run_id rt_id should_send et db db' should_send
  inserted :
      filter (is_of run_id rt_id) (values db.executor_tasks) ≡ []
      → lookup et.id db.executor_tasks ≡ none
      → db' ≡ record db {
        executor_tasks =
            insert et.id (record et { meta = first_meta now et.meta }) db.executor_tasks;
      }
      → Submitted now run_id rt_id should_send et db db' true

insert_executor_task-inserted :
    (now : ℕ) (et : ExecutorTask) (db db' : Db)
    → insert_executor_task now et db ≡ ok db'
    → (lookup et.id db.executor_tasks ≡ none)
      × (db' ≡ record db {
        executor_tasks =
            insert et.id (record et { meta = first_meta now et.meta }) db.executor_tasks;
      })
unfolding insert_executor_task insert_row
insert_executor_task-inserted now et db db' h = (ground arith, ground arith)

pub submit_executor_task-Submitted :
    (now : ℕ) (run_id rt_id : String) (should_send : Bool) (et : ExecutorTask) (db db' : Db)
    (sent : Bool)
    → submit_executor_task now run_id rt_id should_send et db ≡ ok (db', sent)
    → Submitted now run_id rt_id should_send et db db' sent
unfolding submit_executor_task get_executor_task_by_run_task
submit_executor_task-Submitted now run_id rt_id should_send et db db' sent h =
    elim (>>=-Bound (get_executor_task_by_run_task run_id rt_id db) _ h) [
      | bound cur e q ↦ by_cur cur e q
    ]
  where
    by_cur :
        (cur : Option ExecutorTask)
        → get_executor_task_by_run_task run_id rt_id db ≡ ok cur
        → ◌≡◌ {A = Result (Db × Bool)}
            (elim cur [
              | some _ ↦ ok (db, should_send)
              | none ↦ (insert_executor_task now et db >>= λ db₁. ok (db₁, true))
            ])
            (ok (db', sent))
        → Submitted now run_id rt_id should_send et db db' sent
    by_cur none e q = elim (>>=-Bound (insert_executor_task now et db) _ q) [
      | bound db₁ i w ↦
          let at : db₁ ≡ db' = ground arith in
          let was_sent : true ≡ sent = ground arith in
          let (l, d) = insert_executor_task-inserted now et db db₁ i in
          subst (Submitted now run_id rt_id should_send et db db') was_sent (
            inserted (none_found (filter (is_of run_id rt_id) (values db.executor_tasks)) e) l
              (sym at ∙ d))
    ]
    by_cur (some cur) e q =
        let at : db ≡ db' = ground arith in
        let was_sent : should_send ≡ sent = ground arith in
        subst (Submitted now run_id rt_id should_send et db db') was_sent (was_there cur e (sym at))
