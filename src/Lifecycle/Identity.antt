-- ===== src/Lifecycle/Identity.antt =====
-- The id, the times and the revision of a run are left to the database by every operation.
use agola.Prelude.{
  ℕ, ◌≡◌, refl, ap, ◌∙◌, sym, ok, some, List, bound, >>=-Bound, arith, Bool-cases, inl, inr,
}
use agola.Types.{Run, RunPhase, RunConfig, ExecutorTask, phase_is_running, change_phase}
use agola.Scheduler.Advance.{advance_run_tasks-Advances}
use agola.Scheduler.Phase.{fail_run, stop_run, finish_run, finish_fetches, settle_run, advance_run}
use agola.Action.Change.{change_run_phase}
use agola.Action.Fetch.{archive_run}
use agola.Lifecycle.Steps.{
  schedule, RunStep, changed, stopped, annotated, approved, scheduled, reported, setup_log_fetched,
  step_log_fetched, archive_fetched, archived,
}
use agola.Lifecycle.Writes.{
  TaskWrite, wrote, set_annotations-TaskWrite, approve_task-TaskWrite,
  finish_setup_log_phase-TaskWrite, finish_step_log_phase-TaskWrite, finish_archive_phase-TaskWrite,
  update_run_task_status-TaskWrite,
}
use agola.Lifecycle.Stop.{stop_running-Stopped}
use agola.Lifecycle.Invariant.{fail_run_cases}

change_phase-meta :
    (now : ℕ) (phase : RunPhase) (r : Run) → (change_phase now phase r).meta ≡ r.meta
unfolding change_phase
change_phase-meta now RunPhase.setup_error r = refl
change_phase-meta now _ r = refl

change_run_phase-meta :
    (now : ℕ) (phase : RunPhase) (r r' : Run)
    → change_run_phase now phase r ≡ ok r'
    → r'.meta ≡ r.meta
unfolding change_run_phase
change_run_phase-meta now phase r r' h = ground (arith, change_phase-meta now phase r)

settle_run-meta :
    (now : ℕ) (ets : List ExecutorTask) (r : Run) → (settle_run now ets r).meta ≡ r.meta
unfolding settle_run stop_run finish_run finish_fetches change_phase
settle_run-meta now ets r = ground arith

pub advance_run-meta :
    (now : ℕ) (r : Run) (rc : RunConfig) (ets : List ExecutorTask) (r' : Run)
    → advance_run now r rc ets ≡ ok r'
    → r'.meta ≡ r.meta
unfolding advance_run
advance_run-meta now r rc ets r' h = elim (>>=-Bound (fail_run r rc) _ h) [
  | bound r₁ e q ↦
      let last : settle_run now ets r₁ ≡ r' = ground arith in
      ap (λ (x : Run). x.meta) (sym last)
      ∙ settle_run-meta now ets r₁
      ∙ elim (fail_run_cases r rc r₁ e) [
        | inl same ↦ ap (λ (x : Run). x.meta) same
        | inr (_, _, _, f) ↦ ap (λ (x : Run). x.meta) f
      ]
]

schedule-meta :
    (now : ℕ) (r : Run) (rc : RunConfig) (ets : List ExecutorTask) (r' : Run)
    → schedule now r rc ets ≡ ok r'
    → r'.meta ≡ r.meta
unfolding schedule
schedule-meta now r rc ets r' h = elim (>>=-Bound (advance_run now r rc ets) _ h) [
  | bound r₁ e q ↦ elim (Bool-cases (phase_is_running r₁.phase)) [
    | inl runs ↦
        ap (λ (x : Run). x.meta) (advance_run_tasks-Advances r₁ rc ets r' (rw runs at q)).0
        ∙ advance_run-meta now r rc ets r₁ e
    | inr rests ↦
        let same : r₁ ≡ r' = ground arith in
        ap (λ (x : Run). x.meta) (sym same) ∙ advance_run-meta now r rc ets r₁ e
  ]
]

TaskWrite-meta : {r r' : Run} → TaskWrite r r' → r'.meta ≡ r.meta
TaskWrite-meta (wrote k v w l m e) = ap (λ (x : Run). x.meta) e

archive_run-meta : (r r' : Run) → archive_run r ≡ some r' → r'.meta ≡ r.meta
unfolding archive_run
archive_run-meta r r' h = ground arith

pub RunStep-meta : {rc : RunConfig} {r r' : Run} → RunStep rc r r' → r'.meta ≡ r.meta
RunStep-meta {rc} {r} {r'} (changed now p h) = change_run_phase-meta now p r r' h
RunStep-meta {rc} {r} {r'} (stopped h) = ap (λ (x : Run). x.meta) (stop_running-Stopped r r' h).same
RunStep-meta {rc} {r} {r'} (annotated t a h) = TaskWrite-meta (set_annotations-TaskWrite t a r r' h)
RunStep-meta {rc} {r} {r'} (approved t h) = TaskWrite-meta (approve_task-TaskWrite t r r' h)
RunStep-meta {rc} {r} {r'} (scheduled now ets h) = schedule-meta now r rc ets r' h
RunStep-meta {rc} {r} {r'} (reported et h) =
    TaskWrite-meta (update_run_task_status-TaskWrite et r r' h)
RunStep-meta {rc} {r} {r'} (setup_log_fetched t h) =
    TaskWrite-meta (finish_setup_log_phase-TaskWrite t r r' h)
RunStep-meta {rc} {r} {r'} (step_log_fetched t n h) =
    TaskWrite-meta (finish_step_log_phase-TaskWrite t n r r' h)
RunStep-meta {rc} {r} {r'} (archive_fetched t n h) =
    TaskWrite-meta (finish_archive_phase-TaskWrite t n r r' h)
RunStep-meta {rc} {r} {r'} (archived h) = archive_run-meta r r' h
