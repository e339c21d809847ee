-- ===== src/System/Retries.antt =====
-- The second transaction of scheduleRun of internal/services/runservice/scheduler.go when `Do` repeats
-- it: a failed attempt may leave the captured run with a revision that the database does not have.
use agola.Prelude.{
  ℕ, suc, String, ◌≡◌, refl, ap, sym, ◌∙◌, subst, Bool, List, some, lookup, insert, ok, bound,
  >>=-Bound, arith, Bool-cases, inl, inr,
}
use agola.Types.{Run, ExecutorTask, phase_is_running}
use agola.Scheduler.Advance.{advance_run_tasks-Advances}
use agola.Store.Rows.{next_meta}
use agola.Store.Db.{Db, update_run}
use agola.Store.Revisions.{updated, update_run-Updated}
use agola.Store.Attempts.{
  Captured, FailedAt, store_event, stop_all, advance_captured, run_attempt, after_failure,
}
use agola.System.Others.{stop_executor_tasks-runs, store_event-runs}
use agola.System.Snapshots.{lookup_hit}

pub stop_all-runs :
    (now : ℕ) (c : Captured) (db db' : Db) → stop_all now c db ≡ ok db' → db'.runs ≡ db.runs
unfolding stop_all
stop_all-runs now c db db' h = elim (Bool-cases c.run.stop) [
  | inl hit ↦ stop_executor_tasks-runs now c.ets db db' (rw hit at h)
  | inr miss ↦ ap (λ (x : Db). x.runs) (sym (kept (rw miss at h)))
]
  where
    kept : ok db ≡ ok db' → db ≡ db'
    kept q = cc

pub advance_captured-meta :
    (c : Captured) (r : Run) → advance_captured c ≡ ok r → r.meta ≡ c.run.meta
unfolding advance_captured
advance_captured-meta c r h = elim (Bool-cases (phase_is_running c.run.phase)) [
  | inl hit ↦
      ap (λ (x : Run). x.meta) (advance_run_tasks-Advances c.run c.rc c.ets r (rw hit at h)).0
  | inr miss ↦ ap (λ (x : Run). x.meta) (sym (kept (rw miss at h)))
]
  where
    kept : ok c.run ≡ ok r → c.run ≡ r
    kept q = cc

-- After a failure behind UpdateRun, the captured run is one revision ahead of the one that was read.
later-meta :
    (now : ℕ) (c c' : Captured) (db : Db)
    → after_failure now FailedAt.later c db ≡ ok c'
    → c'.run.meta ≡ next_meta now c.run.meta
unfolding after_failure
later-meta now c c' db h = elim (>>=-Bound (stop_all now c db) _ h) [
  | bound db₁ e k ↦ elim (>>=-Bound (advance_captured c) _ k) [
    | bound r f l ↦ elim (>>=-Bound (update_run now r db₁) _ l) [
      | bound db₂ u m ↦
          let same : record r { meta = next_meta now r.meta } ≡ c'.run = ground arith in
          ap (λ (x : Run). x.meta) (sym same) ∙ ap (next_meta now) (advance_captured-meta c r f)
    ]
  ]
]

-- What an attempt that succeeds has found and written.
pub data Overwritten (now : ℕ) (c : Captured) (db db' : Db) (r' : Run) : Type 0 where
  overwritten :
      (row : Run)
      → advance_captured c ≡ ok r'
      → lookup c.run.id db.runs ≡ some row
      → row.revision ≡ c.run.revision
      → db'.runs ≡ insert r'.id (record r' { meta = next_meta now r'.meta }) db.runs
      → Overwritten now c db db' r'

pub run_attempt-Overwritten :
    (now : ℕ) (event_id seq_id : String) (c : Captured) (db db' : Db) (r' : Run)
    (to_send : List ExecutorTask) (should_submit : Bool)
    → run_attempt now event_id seq_id c db ≡ ok (db', r', to_send, should_submit)
    → Overwritten now c db db' r'
unfolding run_attempt
run_attempt-Overwritten now event_id seq_id c db db' r' to_send should_submit h =
    elim (>>=-Bound (stop_all now c db) _ h) [
      | bound db₁ e k ↦ elim (>>=-Bound (advance_captured c) _ k) [
        | bound r f l ↦ elim (>>=-Bound (update_run now r db₁) _ l) [
          | bound db₂ u m ↦ elim (>>=-Bound (store_event now event_id seq_id c.prev r db₂) _ m) [
            | bound db₃ v o ↦
                let same_run : r ≡ r' = ground arith in
                let same_db : db₃ ≡ db' = ground arith in
                subst (Overwritten now c db db') same_run
                  (subst (λ x. Overwritten now c db x r) same_db (over db₁ r db₂ db₃ e f u v))
          ]
        ]
      ]
    ]
  where
    over :
        (db₁ : Db) (r : Run) (db₂ db₃ : Db)
        → stop_all now c db ≡ ok db₁
        → advance_captured c ≡ ok r
        → update_run now r db₁ ≡ ok db₂
        → store_event now event_id seq_id c.prev r db₂ ≡ ok db₃
        → Overwritten now c db db₃ r
    over db₁ r db₂ db₃ e f u v = elim (update_run-Updated now r db₁ db₂ u) [
      | updated row i j p d ↦
          let m = advance_captured-meta c r f in
          let w : Run = record r { meta = next_meta now r.meta } in
          let kept = stop_all-runs now c db db₁ e in
          overwritten row f
            (ap (λ o. lookup o.id db.runs) (sym m) ∙ ap (lookup r.id) (sym kept) ∙ i)
            (j ∙ ap (λ o. o.revision) m)
            (store_event-runs now event_id seq_id c.prev r db₂ db₃ v
              ∙ ap (λ (x : Db). x.runs) d
              ∙ ap (insert r.id w) kept)
    ]

-- If an attempt of the second transaction of scheduleRun fails after its UpdateRun, then a repeat of
-- it that succeeds has found the stored run one revision after the one that the scheduler had captured
-- before the failure, and has stored in its place what advance_captured makes of the captured run,
-- whatever the stored one was.
pub repeated_attempt_overwrites :
    (now now' : ℕ) (event_id seq_id : String) (c c' : Captured) (db db' db'' : Db) (r' : Run)
    (to_send : List ExecutorTask) (should_submit : Bool)
    → after_failure now FailedAt.later c db ≡ ok c'
    → run_attempt now' event_id seq_id c' db' ≡ ok (db'', r', to_send, should_submit)
    → (row : Run) × (advance_captured c' ≡ ok r')
      × (lookup c.run.id db'.runs ≡ some row)
      × (row.revision ≡ suc c.run.revision)
      × (lookup c.run.id db''.runs ≡ some (record r' { meta = next_meta now' r'.meta }))
repeated_attempt_overwrites now now' event_id seq_id c c' db db' db'' r' to_send should_submit f h =
    let m = later-meta now c c' db f in
    let w : Run = record r' { meta = next_meta now' r'.meta } in
    elim (run_attempt-Overwritten now' event_id seq_id c' db' db'' r' to_send should_submit h) [
      | overwritten row a at rev there ↦ (
        row,
        a,
        ap (λ o. lookup o.id db'.runs) (sym m) ∙ at,
        rev ∙ ap (λ o. o.revision) m ∙ omega arith,
        ap (λ o. lookup o.id db''.runs) (sym m ∙ sym (advance_captured-meta c' r' a))
            ∙ ap (lookup r'.id) there
            ∙ lookup_hit r'.id r'.id w db'.runs refl,
      )
    ]
