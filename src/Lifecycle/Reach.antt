-- ===== src/Lifecycle/Reach.antt =====
-- What holds of every run that the operations can reach.
use agola.Prelude.{
  ℕ, String, ◌≡◌, sym, subst, true, ◌⊎◌, inl, inr, List, lookup, some, ok, bound, >>=-Bound, arith,
  Bool-cases, if◌then◌else◌,
}
use agola.Types.{
  Run, RunTask, RunPhase, RunConfig, ExecutorTask, is_set, phase_is_finished, phase_is_running,
  status_is_finished, change_phase,
}
use agola.Scheduler.Tasks.{advance_run_tasks}
use agola.Scheduler.Advance.{advance_run_tasks-Advances}
use agola.Scheduler.Phase.{all_finished, advance_run}
use agola.Action.Create.{gen_run}
use agola.Action.Change.{change_run_phase}
use agola.Action.Fetch.{archive_run}
use agola.Lifecycle.Steps.{
  schedule, RunStep, changed, stopped, annotated, approved, scheduled, reported, setup_log_fetched,
  step_log_fetched, archive_fetched, archived, Reachable, created, step,
}
use agola.Lifecycle.Status.{
  moves_finished, Forward, Forward-refl, Forward-trans, advance_run_tasks-Forward,
}
use agola.Lifecycle.Writes.{
  TaskWrite, wrote, TaskWrite-Forward, TaskWrite-all_finished, set_annotations-TaskWrite,
  approve_task-TaskWrite, finish_setup_log_phase-TaskWrite, finish_step_log_phase-TaskWrite,
  finish_archive_phase-TaskWrite, update_run_task_status-TaskWrite,
}
use agola.Lifecycle.Stop.{Stopped, stop_running-Stopped}
use agola.Lifecycle.Invariant.{Advanced, advance_run-Advanced}

-- What is true of a run between two operations.
pub record Inv (r : Run) : Type 0 where
  -- Only a run that runs or has run has a result.
  pub result_phase :
      is_set r.result ≡ true → (r.phase ≡ RunPhase.running) ⊎ (r.phase ≡ RunPhase.finished)
  -- A finished run has a result, and all its tasks are finished.
  pub finished_done :
      r.phase ≡ RunPhase.finished → (is_set r.result ≡ true) × (all_finished r ≡ true)
  -- Only a run that runs or has run is set to stop.
  pub stop_phase : r.stop ≡ true → (r.phase ≡ RunPhase.running) ⊎ (r.phase ≡ RunPhase.finished)
  pub archived_phase : r.archived ≡ true → phase_is_finished r.phase ≡ true

change_run_phase-tasks :
    (now : ℕ) (phase : RunPhase) (r r' : Run)
    → change_run_phase now phase r ≡ ok r'
    → r'.tasks ≡ r.tasks
unfolding change_run_phase change_phase
change_run_phase-tasks now phase r r' h = ground arith

archive_run-same : (r r' : Run) → archive_run r ≡ some r' → r' ≡ record r { archived = true }
unfolding archive_run
archive_run-same r r' h = ground arith

-- The two parts of what scheduleRun writes.
pub data Scheduled (now : ℕ) (r : Run) (rc : RunConfig) (ets : List ExecutorTask) (r' : Run)
    : Type 0 where
  parts :
      (r₁ : Run)
      → Advanced r r₁ ets
      → ((phase_is_running r₁.phase ≡ true)
          × (r' ≡ record r₁ { tasks = r'.tasks })
          × Forward r₁.tasks r'.tasks)
        ⊎ (r' ≡ r₁)
      → Scheduled now r rc ets r'

pub schedule-Scheduled :
    (now : ℕ) (r : Run) (rc : RunConfig) (ets : List ExecutorTask) (r' : Run)
    → schedule now r rc ets ≡ ok r'
    → Scheduled now r rc ets r'
unfolding schedule
schedule-Scheduled now r rc ets r' h = elim (>>=-Bound (advance_run now r rc ets) _ h) [
  | bound r₁ e q ↦
      parts r₁ (advance_run-Advanced now r rc ets r₁ e)
        (elim (Bool-cases (phase_is_running r₁.phase)) [
          | inl runs ↦
              let q' : advance_run_tasks r₁ rc ets ≡ ok r' = rw (runs, if◌then◌else◌) at q in
              inl (
                runs,
                (advance_run_tasks-Advances r₁ rc ets r' q').0,
                advance_run_tasks-Forward r₁ rc ets r' q',
              )
          | inr rests ↦ inr (ground arith)
        ])
]

schedule-Forward :
    (now : ℕ) (r : Run) (rc : RunConfig) (ets : List ExecutorTask) (r' : Run)
    → Scheduled now r rc ets r'
    → Forward r.tasks r'.tasks
schedule-Forward now r rc ets r' (parts r₁ a (inl (_, _, f))) =
    Forward-trans r.tasks r₁.tasks r'.tasks a.forward f
schedule-Forward now r rc ets r' (parts r₁ a (inr e)) =
    subst (λ (x : Run). Forward r.tasks x.tasks) (sym e) a.forward

-- Whatever is written to a run, each of its tasks stays under its key, and its status moves forward:
-- from not started to any status, or from running to stopped, success or failed.
pub RunStep-Forward : {rc : RunConfig} {r r' : Run} → RunStep rc r r' → Forward r.tasks r'.tasks
RunStep-Forward {rc} {r} {r'} (changed now p h) =
    subst (Forward r.tasks) (sym (change_run_phase-tasks now p r r' h)) (Forward-refl r.tasks)
RunStep-Forward {rc} {r} {r'} (stopped h) = (stop_running-Stopped r r' h).forward
RunStep-Forward {rc} {r} {r'} (annotated t a h) =
    TaskWrite-Forward (set_annotations-TaskWrite t a r r' h)
RunStep-Forward {rc} {r} {r'} (approved t h) = TaskWrite-Forward (approve_task-TaskWrite t r r' h)
RunStep-Forward {rc} {r} {r'} (scheduled now ets h) =
    schedule-Forward now r rc ets r' (schedule-Scheduled now r rc ets r' h)
RunStep-Forward {rc} {r} {r'} (reported et h) =
    TaskWrite-Forward (update_run_task_status-TaskWrite et r r' h)
RunStep-Forward {rc} {r} {r'} (setup_log_fetched t h) =
    TaskWrite-Forward (finish_setup_log_phase-TaskWrite t r r' h)
RunStep-Forward {rc} {r} {r'} (step_log_fetched t n h) =
    TaskWrite-Forward (finish_step_log_phase-TaskWrite t n r r' h)
RunStep-Forward {rc} {r} {r'} (archive_fetched t n h) =
    TaskWrite-Forward (finish_archive_phase-TaskWrite t n r r' h)
RunStep-Forward {rc} {r} {r'} (archived h) =
    subst (λ (x : Run). Forward r.tasks x.tasks) (sym (archive_run-same r r' h))
      (Forward-refl r.tasks)

TaskWrite-Inv : {r r' : Run} → TaskWrite r r' → Inv r → Inv r'
TaskWrite-Inv {r} {r'} w v =
    let f = TaskWrite-all_finished w in
    let e = TaskWrite-same w in
    record {
      result_phase = λ s. ground (arith, e, v.result_phase);
      finished_done =
          λ p. (ground (arith, e, v.finished_done), f (ground (arith, e, v.finished_done)));
      stop_phase = λ s. ground (arith, e, v.stop_phase);
      archived_phase = λ s. ground (arith, e, v.archived_phase);
    }
  where
    TaskWrite-same : {r r' : Run} → TaskWrite r r' → r' ≡ record r { tasks = r'.tasks }
    TaskWrite-same (wrote k x y l m e) = ground (arith, e)

changed-Inv :
    (now : ℕ) (p : RunPhase) (r r' : Run) → change_run_phase now p r ≡ ok r' → Inv r → Inv r'
unfolding change_run_phase change_phase
changed-Inv now p r r' h v = ground arith

Stopped-Inv : (r r' : Run) → Stopped r r' → Inv r → Inv r'
Stopped-Inv r r' s v =
    let e = s.same in
    let w = s.was_running in
    record {
      result_phase = λ k. ground (arith, v.result_phase);
      finished_done = λ p. absurd (ground arith);
      stop_phase = λ k. inl (ground arith);
      archived_phase = λ k. ground (arith, v.archived_phase);
    }

pub Advanced-Inv : (r r' : Run) (ets : List ExecutorTask) → Advanced r r' ets → Inv r → Inv r'
Advanced-Inv r r' ets a v =
    let given = a.result_given in
    let moves = a.phase_moves in
    record {
      result_phase = λ k. ground (arith, v.result_phase, a.stop_kept);
      finished_done = λ p. ground (arith, v.finished_done, a.result_kept, a.still_finished);
      stop_phase = λ k. ground (arith, v.stop_phase, a.stop_kept);
      archived_phase = λ k. ground (arith, v.archived_phase, a.archived_kept);
    }

pub running-Inv :
    (r r' : Run)
    → phase_is_running r.phase ≡ true
    → r' ≡ record r { tasks = r'.tasks }
    → Inv r
    → Inv r'
running-Inv r r' runs e v = record {
  result_phase = λ k. ground (arith, v.result_phase);
  finished_done = λ p. absurd (ground arith);
  stop_phase = λ k. ground (arith, v.stop_phase);
  archived_phase = λ k. ground (arith, v.archived_phase);
}

Scheduled-Inv :
    (now : ℕ) (r : Run) (rc : RunConfig) (ets : List ExecutorTask) (r' : Run)
    → Scheduled now r rc ets r'
    → Inv r
    → Inv r'
Scheduled-Inv now r rc ets r' (parts r₁ a (inl (runs, e, _))) v =
    running-Inv r₁ r' runs e (Advanced-Inv r r₁ ets a v)
Scheduled-Inv now r rc ets r' (parts r₁ a (inr e)) v = subst Inv (sym e) (Advanced-Inv r r₁ ets a v)

archived-Inv : (r r' : Run) → archive_run r ≡ some r' → Inv r → Inv r'
unfolding archive_run
archived-Inv r r' h v = record {
  result_phase = λ k. ground (arith, v.result_phase);
  finished_done = λ p. ground (arith, v.finished_done);
  stop_phase = λ k. ground (arith, v.stop_phase);
  archived_phase = λ k. ground arith;
}

pub RunStep-Inv : {rc : RunConfig} {r r' : Run} → RunStep rc r r' → Inv r → Inv r'
RunStep-Inv {rc} {r} {r'} (changed now p h) = changed-Inv now p r r' h
RunStep-Inv {rc} {r} {r'} (stopped h) = Stopped-Inv r r' (stop_running-Stopped r r' h)
RunStep-Inv {rc} {r} {r'} (annotated t a h) = TaskWrite-Inv (set_annotations-TaskWrite t a r r' h)
RunStep-Inv {rc} {r} {r'} (approved t h) = TaskWrite-Inv (approve_task-TaskWrite t r r' h)
RunStep-Inv {rc} {r} {r'} (scheduled now ets h) =
    Scheduled-Inv now r rc ets r' (schedule-Scheduled now r rc ets r' h)
RunStep-Inv {rc} {r} {r'} (reported et h) =
    TaskWrite-Inv (update_run_task_status-TaskWrite et r r' h)
RunStep-Inv {rc} {r} {r'} (setup_log_fetched t h) =
    TaskWrite-Inv (finish_setup_log_phase-TaskWrite t r r' h)
RunStep-Inv {rc} {r} {r'} (step_log_fetched t n h) =
    TaskWrite-Inv (finish_step_log_phase-TaskWrite t n r r' h)
RunStep-Inv {rc} {r} {r'} (archive_fetched t n h) =
    TaskWrite-Inv (finish_archive_phase-TaskWrite t n r r' h)
RunStep-Inv {rc} {r} {r'} (archived h) = archived-Inv r r' h

pub gen_run-Inv : (id : String) (rc : RunConfig) → Inv (gen_run id rc)
unfolding gen_run
gen_run-Inv id rc = ground arith

-- Every run that is created from a run config and then written to by the operations, in any order
-- and with any reports, has a result only if it is running or finished, is finished only with a
-- result and with all its tasks finished, is set to stop only if it is running or finished, and is
-- archived only in a final phase.
pub Reachable-Inv : {id : String} {rc : RunConfig} {r : Run} → Reachable id rc r → Inv r
Reachable-Inv {id} {rc} created = gen_run-Inv id rc
Reachable-Inv (step reach s) = RunStep-Inv s (Reachable-Inv reach)

-- Any number of writes.
pub data RunSteps (rc : RunConfig) (r : Run) : Run → Type 0 where
  here : RunSteps rc r r
  more : {r' r'' : Run} → RunSteps rc r r' → RunStep rc r' r'' → RunSteps rc r r''

RunSteps-Forward : {rc : RunConfig} {r r' : Run} → RunSteps rc r r' → Forward r.tasks r'.tasks
RunSteps-Forward {rc} {r} here = Forward-refl r.tasks
RunSteps-Forward {rc} {r} {r'} (more {r' = s} p q) =
    Forward-trans r.tasks s.tasks r'.tasks (RunSteps-Forward p) (RunStep-Forward q)

-- Once a task of a run is finished, it is there with the same status after any later writes: no
-- report, no approval and no scheduling round restarts it or changes how it ended.
pub finished_task_stays :
    {rc : RunConfig} {r r' : Run} (k : String) (rt : RunTask)
    → RunSteps rc r r'
    → lookup k r.tasks ≡ some rt
    → status_is_finished rt.status ≡ true
    → (rt' : RunTask) × (lookup k r'.tasks ≡ some rt') × (rt'.status ≡ rt.status)
unfolding Forward
finished_task_stays {r} {r'} k rt steps e f =
    let (rt', e', m) = RunSteps-Forward steps k rt e in
    (rt', e', moves_finished rt.status rt'.status m f)
