-- ===== src/System/Refinement.antt =====
-- scheduleRun of internal/services/runservice/scheduler.go against the lifecycle of a run: it reads a
-- run in one transaction and writes it in another.
use agola.Prelude.{
  ℕ, String, ◌≡◌, refl, ap, sym, ◌∙◌, subst, Bool, false, List, [], some, Map, lookup, length, ok,
  bound, >>=-Bound, arith, Bool-cases, inl, inr,
}
use agola.Types.{Run, RunConfig, ExecutorTask, phase_is_running}
use agola.Scheduler.Phase.{advance_run}
use agola.Store.Db.{Db}
use agola.Store.Attempts.{
  Captured, FailedAt, stopping, updating, later, is_later, stop_all, advance_captured, stopped_some,
  run_attempt, after_failure,
}
use agola.Store.Scheduling.{write_scheduled}
use agola.System.Changes.{RunChange, Write, advanced, again, Write-meta, Write-RunChange}
use agola.System.Snapshots.{ReadBefore, read_before, RunChange-ReadBefore}
use agola.System.Retries.{overwritten, run_attempt-Overwritten}

-- The captured run is what scheduleRun makes of a run that was read at some time: no attempt has come
-- past its UpdateRun.
pub data Unwritten (runs : Map Run) (c : Captured) : Type 0 where
  unwritten : (r : Run) → ReadBefore runs r → Write c.rc r c.run → Unwritten runs c

pub RunChange-Unwritten :
    (runs runs' : Map Run) (c : Captured)
    → RunChange runs runs'
    → Unwritten runs c
    → Unwritten runs' c
RunChange-Unwritten runs runs' c d (unwritten r b w) =
    unwritten r (RunChange-ReadBefore runs runs' r d b) w

advance_captured-Write :
    (c : Captured) (r r' : Run) → Write c.rc r c.run → advance_captured c ≡ ok r' → Write c.rc r r'
unfolding advance_captured
advance_captured-Write c r r' w h = elim (Bool-cases (phase_is_running c.run.phase)) [
  | inl hit ↦ again c.ets w hit (rw hit at h)
  | inr miss ↦ subst (Write c.rc r) (kept (rw miss at h)) w
]
  where
    kept : ok c.run ≡ ok r' → c.run ≡ r'
    kept q = cc

stopped_some-same :
    (now n : ℕ) (c : Captured)
    → ((stopped_some now n c).run ≡ c.run) × ((stopped_some now n c).rc ≡ c.rc)
unfolding stopped_some
stopped_some-same now n c = elim (Bool-cases c.run.stop) [
  | inl hit ↦ rw hit (refl, refl)
  | inr miss ↦ rw miss (refl, refl)
]

-- A failure before the end of UpdateRun.
pub after_failure-Unwritten :
    (now : ℕ) (at : FailedAt) (runs : Map Run) (c c' : Captured) (db : Db)
    → is_later at ≡ false
    → after_failure now at c db ≡ ok c'
    → Unwritten runs c
    → Unwritten runs c'
unfolding after_failure
after_failure-Unwritten now (stopping n) runs c c' db l h (unwritten r b w) =
    let (same_run, same_rc) = stopped_some-same now n c in
    let is : stopped_some now n c ≡ c' = cc in
    subst (Unwritten runs) is (
      unwritten r b (
        subst (λ x. Write x r (stopped_some now n c).run) (sym same_rc)
          (subst (Write c.rc r) (sym same_run) w)))
after_failure-Unwritten now updating runs c c' db l h (unwritten r b w) =
    elim (>>=-Bound (stop_all now c db) _ h) [
      | bound db₁ e k ↦ elim (>>=-Bound (advance_captured c) _ k) [
        | bound r₂ f m ↦
            let s = stopped_some now (length c.ets) c in
            let is : record s { run = r₂ } ≡ c' = ground arith in
            subst (Unwritten runs) is (
              unwritten r b (
                subst (λ x. Write x r r₂) (sym (stopped_some-same now (length c.ets) c).1)
                  (advance_captured-Write c r r₂ w f)))
      ]
    ]
after_failure-Unwritten now later runs c c' db l h v = absurd (ground arith)

pub run_attempt-RunChange :
    (now : ℕ) (event_id seq_id : String) (c : Captured) (db db' : Db) (r' : Run)
    (to_send : List ExecutorTask) (should_submit : Bool)
    → Unwritten db.runs c
    → run_attempt now event_id seq_id c db ≡ ok (db', r', to_send, should_submit)
    → RunChange db.runs db'.runs
run_attempt-RunChange now event_id seq_id c db db' r' to_send should_submit
      (unwritten r (read_before row at le eq) w) h =
    elim (run_attempt-Overwritten now event_id seq_id c db db' r' to_send should_submit h) [
      | overwritten row' a found rev d ↦
          let m = Write-meta w in
          let rows : some row ≡ some row' =
            sym at ∙ ap (λ o. lookup o.id db.runs) (sym m) ∙ found in
          let row_is : row ≡ row' = cc in
          let same_revision : row.revision ≡ r.revision =
            ap (λ (x : Run). x.revision) row_is ∙ rev ∙ ap (λ o. o.revision) m in
          Write-RunChange now c.rc r r' db.runs db'.runs (at ∙ ap some (eq same_revision))
            (advance_captured-Write c r r' w a) d
    ]

-- The captured variables before a first attempt.
pub first-Unwritten :
    (now : ℕ) (runs : Map Run) (r r₁ : Run) (rc : RunConfig) (ets : List ExecutorTask)
    → ReadBefore runs r
    → advance_run now r rc ets ≡ ok r₁
    → Unwritten runs (record { prev = r; run = r₁; rc = rc; ets = ets; to_send = [] })
first-Unwritten now runs r r₁ rc ets b e = unwritten r b (advanced now ets e)

pub write_scheduled-RunChange :
    (now : ℕ) (event_id seq_id : String) (r : Run) (rc : RunConfig) (ets : List ExecutorTask)
    (db db' : Db) (r' : Run) (to_send : List ExecutorTask) (should_submit : Bool)
    → ReadBefore db.runs r
    → write_scheduled now event_id seq_id r rc ets db ≡ ok (db', r', to_send, should_submit)
    → RunChange db.runs db'.runs
unfolding write_scheduled
write_scheduled-RunChange now event_id seq_id r rc ets db db' r' to_send should_submit b h =
    elim (>>=-Bound (advance_run now r rc ets) _ h) [
      | bound r₁ e k ↦
          run_attempt-RunChange now event_id seq_id
            (record { prev = r; run = r₁; rc = rc; ets = ets; to_send = [] }) db db' r' to_send
            should_submit (first-Unwritten now db.runs r r₁ rc ets b e) k
    ]
