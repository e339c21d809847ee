-- ===== src/Store/Submission/Loop.antt =====
-- The loop of submitRunTasks of internal/services/runservice/scheduler.go.
use agola.Prelude.{
  ℕ, String, eq_iff, ◌≡◌, refl, ap, sym, ◌∙◌, subst, Bool, true, false, List, [], ◌∷◌, Option, none,
  some, values, filter, lookup, insert, Result, ok, err, panicked, deref, bound, >>=-Bound, arith,
  Bool-cases, inl, inr, if◌then◌else◌,
}
use agola.Types.{Run, RunConfig, RunTask, ExecutorTask, ExecutorTaskStepStatus, Executor}
use agola.Action.Create.{gen_executor_task}
use agola.Store.Rows.{first_meta}
use agola.Store.Db.{Db, at_most_one, get_executor_task_by_run_task}
use agola.Store.Scheduling.{
  choose_executor_from, submit_executor_task, send_executor_task, attempt, submit_run_tasks,
}
use agola.Store.Submission.{
  OneEach, is_of, Submitted, was_there, inserted, filter-insert_hit, filter-insert_miss,
  submit_executor_task-Submitted,
}

Submitted-OneEach :
    (now : ℕ) (run_id rt_id : String) (should_send : Bool) (et : ExecutorTask) (db db' : Db)
    (sent : Bool)
    → et.spec.run_id ≡ run_id
    → et.spec.run_task_id ≡ rt_id
    → OneEach db
    → Submitted now run_id rt_id should_send et db db' sent
    → OneEach db'
unfolding get_executor_task_by_run_task at_most_one
Submitted-OneEach now run_id rt_id should_send et db db' sent i j v (was_there cur g d) =
    subst OneEach (sym d) v
Submitted-OneEach now run_id rt_id should_send et db db' sent i j v (inserted f l d) =
    subst OneEach (sym d) each
  where
    w : ExecutorTask
    w = record et { meta = first_meta now et.meta }

    each : OneEach (record db { executor_tasks = insert et.id w db.executor_tasks })
    each x y = elim (Bool-cases (is_of x y et)) [
      | inl hit ↦
          let p : et.spec.run_id ≡ x = (eq_iff et.spec.run_id x).0 (ground arith) in
          let q : et.spec.run_task_id ≡ y = (eq_iff et.spec.run_task_id y).0 (ground arith) in
          let empty : filter (is_of x y) (values db.executor_tasks) ≡ [] =
            subst (λ b. filter (is_of x b) (values db.executor_tasks) ≡ []) (sym j ∙ q)
              (subst (λ a. filter (is_of a rt_id) (values db.executor_tasks) ≡ []) (sym i ∙ p) f) in
          (
            some w,
            ap at_most_one (filter-insert_hit (is_of x y) et.id w db.executor_tasks l hit empty),
          )
      | inr miss ↦
          let (o, g) = v x y in
          (o, ap at_most_one (filter-insert_miss (is_of x y) et.id w db.executor_tasks l miss) ∙ g)
    ]

gen_executor_task_lem :
    (id : String) (setup : ExecutorTaskStepStatus) (r : Run) (rt : RunTask) (rc : RunConfig)
    (e : Executor) (et : ExecutorTask)
    → gen_executor_task id setup r rt rc e ≡ ok et
    → (et.spec.run_id ≡ r.id) × (et.spec.run_task_id ≡ rt.id)
unfolding gen_executor_task
gen_executor_task_lem id setup r rt rc e et h =
    elim (>>=-Bound (deref (lookup rt.id rc.tasks)) _ h) [
      | bound rct q k ↦ (ground arith, ground arith)
    ]

-- An attempt leaves the property of the database that its continuation leaves.
attempt_kept :
    {A : Type 0} (P : Db → Type 0) (m : Result A) (db : Db) (f : A → Db × Result (Unit {0}))
    → P db
    → ((a : A) → m ≡ ok a → P (f a).0)
    → P (attempt m db f).0
attempt_kept P (ok a) db f p q = q a refl
attempt_kept P (err e) db f p q = p
attempt_kept P panicked db f p q = p

-- One round of the loop of submitRunTasks, before the rounds for the other run tasks.
module _ (post : Executor → ExecutorTask → Result (Unit {0})) (now : ℕ) (id : String)
    (setup : ExecutorTaskStepStatus) (r : Run) (rc : RunConfig) (rt : RunTask) (db : Db)
    (rest : Db → Db × Result (Unit {0})) where
  abbrev after_submit : ExecutorTask → Db × Bool → Db × Result (Unit {0})
  after_submit et o =
      if o.1 then attempt (send_executor_task post et o.0) o.0 (λ _. rest o.0) else rest o.0

  abbrev with_task : Executor → ExecutorTask → Db × Result (Unit {0})
  with_task executor et =
      attempt (submit_executor_task now r.id rt.id false et db) db (after_submit et)

  abbrev with_executor : Option Executor → Db × Result (Unit {0})
  with_executor o = elim o [
    | none ↦ (db, ok tt)
    | some executor ↦ attempt (gen_executor_task id setup r rt rc executor) db (with_task executor)
  ]

  abbrev with_cur : Option ExecutorTask → Db × Result (Unit {0})
  with_cur cur = elim cur [
    | some _ ↦ rest db
    | none ↦
        attempt (deref (lookup rt.id rc.tasks)) db
          (λ rct. with_executor (choose_executor_from now rct db))
  ]

  module _ (rest_kept : (d : Db) → OneEach d → OneEach (rest d).0) (v : OneEach db) where
    sent_kept :
        (et : ExecutorTask) (d : Db) (b : Bool) → OneEach d → OneEach (after_submit et (d, b)).0
    sent_kept et d true w =
        attempt_kept OneEach (send_executor_task post et d) d (λ _. rest d) w (λ _ _. rest_kept d w)
    sent_kept et d false w = rest_kept d w

    task_kept :
        (executor : Executor) (et : ExecutorTask)
        → gen_executor_task id setup r rt rc executor ≡ ok et
        → OneEach (with_task executor et).0
    task_kept executor et g =
        attempt_kept OneEach (submit_executor_task now r.id rt.id false et db) db (after_submit et)
          v
          (λ (d, b) h.
            let (i, j) = gen_executor_task_lem id setup r rt rc executor et g in
            sent_kept et d b (
              Submitted-OneEach now r.id rt.id false et db d b i j v
                (submit_executor_task-Submitted now r.id rt.id false et db d b h)))

    executor_kept : (o : Option Executor) → OneEach (with_executor o).0
    executor_kept none = v
    executor_kept (some executor) =
        attempt_kept OneEach (gen_executor_task id setup r rt rc executor) db (with_task executor) v
          (task_kept executor)

    by_cur : (cur : Option ExecutorTask) → OneEach (with_cur cur).0
    by_cur (some _) = rest_kept db v
    by_cur none =
        attempt_kept OneEach (deref (lookup rt.id rc.tasks)) db
          (λ rct. with_executor (choose_executor_from now rct db)) v
          (λ rct _. executor_kept (choose_executor_from now rct db))

-- However a submitRunTasks ends, with all tasks submitted, without a free executor, or by an error
-- after some submissions, it leaves no run task with two executor tasks if it found none.
pub submit_run_tasks-OneEach :
    (post : Executor → ExecutorTask → Result (Unit {0})) (now : ℕ) (fresh : String → String)
    (setup : ExecutorTaskStepStatus) (r : Run) (rc : RunConfig) (rts : List RunTask) (db : Db)
    → OneEach db
    → OneEach (submit_run_tasks post now fresh setup r rc rts db).0
unfolding submit_run_tasks
submit_run_tasks-OneEach post now fresh setup r rc [] db v = v
submit_run_tasks-OneEach post now fresh setup r rc (rt ∷ rts) db v =
    attempt_kept OneEach (get_executor_task_by_run_task r.id rt.id db) db
      (with_cur post now (fresh rt.id) setup r rc rt db
        (submit_run_tasks post now fresh setup r rc rts))
      v
      (λ cur _.
        by_cur post now (fresh rt.id) setup r rc rt db
          (submit_run_tasks post now fresh setup r rc rts)
          (submit_run_tasks-OneEach post now fresh setup r rc rts) v cur)
