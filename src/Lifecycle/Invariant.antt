-- ===== src/Lifecycle/Invariant.antt =====
-- What holds of every run that the operations can reach, and how each operation moves its tasks.
use agola.Prelude.{
  ℕ, ◌≡◌, refl, subst, true, false, not, ◌&&◌, ◌⊎◌, inl, inr, List, [], ◌∷◌, Map, values,
  map_values, all, ok, bound, >>=-Bound, arith, Bool-cases, if◌then◌else◌,
}
use agola.Types.{
  Run, RunTask, RunPhase, RunResult, RunConfig, ExecutorTask, is_set, phase_is_finished,
  phase_is_running, status_is_finished, change_phase,
}
use agola.Scheduler.Phase.{
  has_failure, no_tasks, fail_run, all_finished, stop_run, finish_fetch, finish_run, finish_fetches,
  settle_run, advance_run,
}
use agola.Lifecycle.Status.{Forward, Forward-refl, finish_fetches-Forward}

-- What advanceRun changes of a run.
pub record Advanced (r r' : Run) (ets : List ExecutorTask) : Type 0 where
  -- A result is never changed.
  pub result_kept : is_set r.result ≡ true → r'.result ≡ r.result
  -- Only a running run is given one.
  pub result_given : r'.result ≡ r.result ⊎ (phase_is_running r.phase ≡ true)
  -- The phase moves only to finished, and only of a run with a result, all of whose tasks are
  -- finished, and which has no executor task.
  pub phase_moves :
      (r'.phase ≡ r.phase)
      ⊎ ((r'.phase ≡ RunPhase.finished)
          × (phase_is_finished r.phase ≡ false)
          × (is_set r'.result ≡ true)
          × (all_finished r ≡ true)
          × (ets ≡ []))
  pub stop_kept : r'.stop ≡ r.stop
  pub archived_kept : r'.archived ≡ r.archived
  pub forward : Forward r.tasks r'.tasks
  pub still_finished : all_finished r ≡ true → all_finished r' ≡ true

-- The result of `fail_run` is the run, or the run marked as failed.
pub fail_run_cases :
    (r : Run) (rc : RunConfig) (r₁ : Run)
    → fail_run r rc ≡ ok r₁
    → (r₁ ≡ r)
      ⊎ ((is_set r.result ≡ false)
          × (phase_is_running r.phase ≡ true)
          × (has_failure rc (values r.tasks) ≡ ok true)
          × (r₁ ≡ record r { result = RunResult.failed }))
unfolding fail_run
fail_run_cases r rc r₁ h = elim (Bool-cases (not (is_set r.result) && phase_is_running r.phase)) [
  | inl e ↦ elim (>>=-Bound (has_failure rc (values r.tasks)) _ (rw (e, if◌then◌else◌) at h)) [
    | bound b c q ↦ elim (Bool-cases b) [
      | inl hit ↦ inr (ground arith, ground arith, ground arith, ground arith)
      | inr miss ↦ inl (ground arith)
    ]
  ]
  | inr e ↦ inl (ground arith)
]

finish_fetch-finished :
    (t : RunTask) → status_is_finished (finish_fetch t).status ≡ status_is_finished t.status
unfolding finish_fetch
finish_fetch-finished t = ground arith

all-finish_fetch :
    (m : Map RunTask)
    → all (λ t. status_is_finished t.status) (values (map_values finish_fetch m))
      ≡ all (λ t. status_is_finished t.status) (values m)
all-finish_fetch [] = refl
all-finish_fetch ((k, t) ∷ m) = rw (finish_fetch-finished t, all-finish_fetch m)

no_tasks-eq : (ets : List ExecutorTask) → no_tasks ets ≡ true → ets ≡ []
no_tasks-eq [] h = refl
no_tasks-eq (et ∷ ets) h = cc

finish_fetches-all_finished :
    (s : Run) → all_finished s ≡ true → all_finished (finish_fetches s) ≡ true
unfolding finish_fetches
finish_fetches-all_finished s f = elim (Bool-cases (phase_is_finished s.phase)) [
  | inl e ↦ rw (e, finish_fetches, all-finish_fetch s.tasks) f
  | inr e ↦ rw (e, finish_fetches) f
]

finish_fetches-same : (s : Run) → finish_fetches s ≡ record s { tasks = (finish_fetches s).tasks }
unfolding finish_fetches
finish_fetches-same s = ground arith

finish-Advanced :
    (now : ℕ) (ets : List ExecutorTask) (s : Run)
    → is_set s.result ≡ true
    → Advanced s (finish_fetches (finish_run now ets s)) ets
unfolding finish_run change_phase
finish-Advanced now ets s set =
    elim (Bool-cases (all_finished s && not (phase_is_finished s.phase) && no_tasks ets)) [
      | inl hit ↦
          let t : Run = change_phase now RunPhase.finished s in
          let e : finish_run now ets s ≡ t = rw (hit, finish_run) in
          let same = finish_fetches-same t in
          let none_left = no_tasks-eq ets (ground arith) in
          rw e (record {
            result_kept = λ _. ground (arith, same);
            result_given = inl (ground (arith, same));
            phase_moves =
                inr (
                  ground (arith, same),
                  ground arith,
                  ground (arith, same),
                  ground arith,
                  none_left,
                );
            stop_kept = ground (arith, same);
            archived_kept = ground (arith, same);
            forward = finish_fetches-Forward t;
            still_finished = λ f. finish_fetches-all_finished t f;
          })
      | inr miss ↦
          let e : finish_run now ets s ≡ s = rw (miss, finish_run) in
          let same = finish_fetches-same s in
          rw e (record {
            result_kept = λ _. ground (arith, same);
            result_given = inl (ground (arith, same));
            phase_moves = inl (ground (arith, same));
            stop_kept = ground (arith, same);
            archived_kept = ground (arith, same);
            forward = finish_fetches-Forward s;
            still_finished = λ f. finish_fetches-all_finished s f;
          })
    ]

-- A running run that is given a result first.
given-Advanced :
    (r s r' : Run) (ets : List ExecutorTask) (x : RunResult)
    → is_set r.result ≡ false
    → phase_is_running r.phase ≡ true
    → s ≡ record r { result = x }
    → Advanced s r' ets
    → Advanced r r' ets
given-Advanced r s r' ets x unset running e a =
    let b = subst (λ y. Advanced y r' ets) e a in
    record {
      result_kept = λ set. cc;
      result_given = inr running;
      phase_moves = b.phase_moves;
      stop_kept = b.stop_kept;
      archived_kept = b.archived_kept;
      forward = b.forward;
      still_finished = b.still_finished;
    }

same-Advanced : (r : Run) (ets : List ExecutorTask) → Advanced r r ets
same-Advanced r ets = record {
  result_kept = λ _. refl;
  result_given = inl refl;
  phase_moves = inl refl;
  stop_kept = refl;
  archived_kept = refl;
  forward = Forward-refl r.tasks;
  still_finished = λ f. f;
}

stop_run_stopped :
    (r : Run)
    → (not (is_set r.result) && phase_is_running r.phase && r.stop) ≡ true
    → stop_run r ≡ record r { result = RunResult.stopped }
unfolding stop_run
stop_run_stopped r h = rw (h, stop_run)

stop_run_kept :
    (r : Run)
    → (not (is_set r.result) && phase_is_running r.phase && r.stop) ≡ false
    → stop_run r ≡ r
unfolding stop_run
stop_run_kept r h = rw (h, stop_run)

settle_run-Advanced :
    (now : ℕ) (ets : List ExecutorTask) (r : Run) → Advanced r (settle_run now ets r) ets
unfolding settle_run
settle_run-Advanced now ets r =
    elim (Bool-cases (not (is_set r.result) && phase_is_running r.phase && all_finished r)) [
      | inl hit ↦
          rw (hit, settle_run)
            (given-Advanced r _ _ ets RunResult.success (ground arith) (ground arith) refl
              (same-Advanced _ ets))
      | inr miss ↦ elim (Bool-cases (not (is_set r.result) && phase_is_running r.phase && r.stop)) [
        | inl stop ↦
            rw (miss, settle_run, stop_run_stopped r stop)
              (given-Advanced r _ _ ets RunResult.stopped (ground arith) (ground arith) refl
                (finish-Advanced now ets _ refl))
        | inr go_on ↦ elim (Bool-cases (is_set r.result)) [
          | inl set ↦
              rw (miss, settle_run, stop_run_kept r go_on, set) (finish-Advanced now ets r set)
          | inr unset ↦ rw (miss, settle_run, stop_run_kept r go_on, unset) (same-Advanced r ets)
        ]
      ]
    ]

-- Whenever advanceRun returns no error it keeps a result that is set, gives one only to a running
-- run, and keeps the phase or moves it to finished: this only of a run with a result, with all tasks
-- finished and with no executor task. Every task keeps its key, and its status moves forward only.
pub advance_run-Advanced :
    (now : ℕ) (r : Run) (rc : RunConfig) (ets : List ExecutorTask) (r' : Run)
    → advance_run now r rc ets ≡ ok r'
    → Advanced r r' ets
unfolding advance_run
advance_run-Advanced now r rc ets r' h = elim (>>=-Bound (fail_run r rc) _ h) [
  | bound r₁ e q ↦
      let last : settle_run now ets r₁ ≡ r' = ground arith in
      let a = subst (λ x. Advanced r₁ x ets) last (settle_run-Advanced now ets r₁) in
      elim (fail_run_cases r rc r₁ e) [
        | inl same ↦ subst (λ x. Advanced x r' ets) same a
        | inr (u, p, _, f) ↦ given-Advanced r r₁ r' ets RunResult.failed u p f a
      ]
]
