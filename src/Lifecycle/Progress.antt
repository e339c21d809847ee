-- ===== src/Lifecycle/Progress.antt =====
-- The way of a run through its phases, in internal/services/runservice/scheduler.go and
-- internal/services/runservice/action/action.go.
use agola.Prelude.{
  ℕ, ◌≡◌, refl, sym, ◌∙◌, subst, Bool, true, false, inl, inr, List, some, ok, arith,
}
use agola.Types.{Run, RunPhase, RunConfig, ExecutorTask, is_set, change_phase}
use agola.Action.Change.{change_run_phase}
use agola.Action.Fetch.{archive_run}
use agola.Lifecycle.Steps.{
  RunStep, changed, stopped, annotated, approved, scheduled, reported, setup_log_fetched,
  step_log_fetched, archive_fetched, archived,
}
use agola.Lifecycle.Status.{Forward, Forward-refl, Forward-trans}
use agola.Lifecycle.Writes.{
  TaskWrite, wrote, set_annotations-TaskWrite, approve_task-TaskWrite,
  finish_setup_log_phase-TaskWrite, finish_step_log_phase-TaskWrite, finish_archive_phase-TaskWrite,
  update_run_task_status-TaskWrite,
}
use agola.Lifecycle.Stop.{Stopped, stop_running-Stopped}
use agola.Lifecycle.Invariant.{Advanced}
use agola.Lifecycle.Reach.{RunStep-Forward, Scheduled, parts, schedule-Scheduled}

-- A queued run starts or is cancelled, a running one ends, and the other phases are final; several
-- moves count as one.
abbrev pub phase_moves : RunPhase → RunPhase → Bool
phase_moves RunPhase.queued RunPhase.queued = true
phase_moves RunPhase.queued RunPhase.running = true
phase_moves RunPhase.queued RunPhase.cancelled = true
phase_moves RunPhase.queued RunPhase.finished = true
phase_moves RunPhase.running RunPhase.running = true
phase_moves RunPhase.running RunPhase.finished = true
phase_moves RunPhase.setup_error RunPhase.setup_error = true
phase_moves RunPhase.cancelled RunPhase.cancelled = true
phase_moves RunPhase.finished RunPhase.finished = true
phase_moves _ _ = false

phase_moves_refl : (p : RunPhase) → phase_moves p p ≡ true
phase_moves_refl p = ground arith

phase_moves_trans :
    (a b c : RunPhase) → phase_moves a b ≡ true → phase_moves b c ≡ true → phase_moves a c ≡ true
phase_moves_trans a b c h k = ground arith

-- What a run keeps of an earlier time.
pub record Progress (r r' : Run) : Type 0 where
  pub phase_moved : phase_moves r.phase r'.phase ≡ true
  pub result_kept : is_set r.result ≡ true → r'.result ≡ r.result
  pub stop_kept : r.stop ≡ true → r'.stop ≡ true
  pub archived_kept : r.archived ≡ true → r'.archived ≡ true
  pub forward : Forward r.tasks r'.tasks

pub Progress-refl : (r : Run) → Progress r r
Progress-refl r = record {
  phase_moved = phase_moves_refl r.phase;
  result_kept = λ _. refl;
  stop_kept = λ h. h;
  archived_kept = λ h. h;
  forward = Forward-refl r.tasks;
}

pub Progress-trans : (a b c : Run) → Progress a b → Progress b c → Progress a c
Progress-trans a b c p q = record {
  phase_moved = phase_moves_trans a.phase b.phase c.phase p.phase_moved q.phase_moved;
  result_kept = λ h. ground (arith, p.result_kept, q.result_kept);
  stop_kept = λ h. q.stop_kept (p.stop_kept h);
  archived_kept = λ h. q.archived_kept (p.archived_kept h);
  forward = Forward-trans a.tasks b.tasks c.tasks p.forward q.forward;
}

-- A step that writes tasks only.
pub tasks_only-Progress :
    (r r' : Run) → r' ≡ record r { tasks = r'.tasks } → Forward r.tasks r'.tasks → Progress r r'
tasks_only-Progress r r' e f = record {
  phase_moved = ground (arith, e, phase_moves_refl r.phase);
  result_kept = λ _. ground (arith, e);
  stop_kept = λ h. ground (arith, e);
  archived_kept = λ h. ground (arith, e);
  forward = f;
}

TaskWrite-Progress : {r r' : Run} → TaskWrite r r' → Forward r.tasks r'.tasks → Progress r r'
TaskWrite-Progress {r} {r'} (wrote k x y l m e) f = tasks_only-Progress r r' (ground (arith, e)) f

changed-Progress :
    (now : ℕ) (p : RunPhase) (r r' : Run)
    → change_run_phase now p r ≡ ok r'
    → Forward r.tasks r'.tasks
    → Progress r r'
unfolding change_run_phase change_phase
changed-Progress now p r r' h f = record {
  phase_moved = ground arith;
  result_kept = λ _. ground arith;
  stop_kept = λ k. ground arith;
  archived_kept = λ k. ground arith;
  forward = f;
}

Stopped-Progress : (r r' : Run) → Stopped r r' → Progress r r'
Stopped-Progress r r' s =
    let e = s.same in
    record {
      phase_moved = ground (arith, phase_moves_refl r.phase);
      result_kept = λ _. ground arith;
      stop_kept = λ k. ground arith;
      archived_kept = λ k. ground arith;
      forward = s.forward;
    }

pub Advanced-Progress : (r r' : Run) (ets : List ExecutorTask) → Advanced r r' ets → Progress r r'
Advanced-Progress r r' ets a =
    let moved = a.phase_moves in
    record {
      phase_moved = ground (arith, phase_moves_refl r.phase);
      result_kept = a.result_kept;
      stop_kept = λ k. a.stop_kept ∙ k;
      archived_kept = λ k. a.archived_kept ∙ k;
      forward = a.forward;
    }

Scheduled-Progress :
    (now : ℕ) (r : Run) (rc : RunConfig) (ets : List ExecutorTask) (r' : Run)
    → Scheduled now r rc ets r'
    → Progress r r'
Scheduled-Progress now r rc ets r' (parts r₁ a (inl (_, e, f))) =
    Progress-trans r r₁ r' (Advanced-Progress r r₁ ets a) (tasks_only-Progress r₁ r' e f)
Scheduled-Progress now r rc ets r' (parts r₁ a (inr e)) =
    subst (Progress r) (sym e) (Advanced-Progress r r₁ ets a)

archived-Progress :
    (r r' : Run) → archive_run r ≡ some r' → Forward r.tasks r'.tasks → Progress r r'
unfolding archive_run
archived-Progress r r' h f = record {
  phase_moved = ground (arith, phase_moves_refl r.phase);
  result_kept = λ _. ground arith;
  stop_kept = λ k. ground arith;
  archived_kept = λ k. ground arith;
  forward = f;
}

pub RunStep-Progress : {rc : RunConfig} {r r' : Run} → RunStep rc r r' → Progress r r'
RunStep-Progress {rc} {r} {r'} (changed now p h) =
    changed-Progress now p r r' h (RunStep-Forward {rc = rc} (changed now p h))
RunStep-Progress {rc} {r} {r'} (stopped h) = Stopped-Progress r r' (stop_running-Stopped r r' h)
RunStep-Progress {rc} {r} {r'} (annotated t a h) =
    TaskWrite-Progress (set_annotations-TaskWrite t a r r' h)
      (RunStep-Forward {rc = rc} (annotated t a h))
RunStep-Progress {rc} {r} {r'} (approved t h) =
    TaskWrite-Progress (approve_task-TaskWrite t r r' h) (RunStep-Forward {rc = rc} (approved t h))
RunStep-Progress {rc} {r} {r'} (scheduled now ets h) =
    Scheduled-Progress now r rc ets r' (schedule-Scheduled now r rc ets r' h)
RunStep-Progress {rc} {r} {r'} (reported et h) =
    TaskWrite-Progress (update_run_task_status-TaskWrite et r r' h)
      (RunStep-Forward {rc = rc} (reported et h))
RunStep-Progress {rc} {r} {r'} (setup_log_fetched t h) =
    TaskWrite-Progress (finish_setup_log_phase-TaskWrite t r r' h)
      (RunStep-Forward {rc = rc} (setup_log_fetched t h))
RunStep-Progress {rc} {r} {r'} (step_log_fetched t n h) =
    TaskWrite-Progress (finish_step_log_phase-TaskWrite t n r r' h)
      (RunStep-Forward {rc = rc} (step_log_fetched t n h))
RunStep-Progress {rc} {r} {r'} (archive_fetched t n h) =
    TaskWrite-Progress (finish_archive_phase-TaskWrite t n r r' h)
      (RunStep-Forward {rc = rc} (archive_fetched t n h))
RunStep-Progress {rc} {r} {r'} (archived h) =
    archived-Progress r r' h (RunStep-Forward {rc = rc} (archived h))
