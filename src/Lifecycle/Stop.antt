-- ===== src/Lifecycle/Stop.antt =====
-- StopRun's loop, which writes several tasks.
use agola.Prelude.{
  String, ◌≡◌, sym, subst, true, false, List, [], ◌∷◌, Map, values, lookup, insert, all, guard, ok,
  deref, deref-ok, bound, >>=-Bound, Error, arith,
}
use agola.Types.{Run, RunTask, phase_is_running, status_is_finished, tasks_waiting_approval}
use agola.Scheduler.Phase.{all_finished}
use agola.Action.Change.{clear_waiting, stop_running}
use agola.Lifecycle.Status.{
  moves_refl, Forward, Forward-refl, Forward-trans, Forward-insert, all-insert, all-lookup,
}

clear_waiting-Forward :
    (ts : List String) (m m' : Map RunTask) → clear_waiting ts m ≡ ok m' → Forward m m'
unfolding clear_waiting
clear_waiting-Forward [] m m' h =
    let e : m ≡ m' = ground arith in subst (Forward m) e (Forward-refl m)
clear_waiting-Forward (t ∷ ts) m m' h = elim (>>=-Bound (deref (lookup t m)) _ h) [
  | bound v e q ↦
      let w : RunTask = record v { waiting_approval = false } in
      Forward-trans m (insert t w m) m'
        (Forward-insert m t v w (deref-ok _ e) (moves_refl v.status))
        (clear_waiting-Forward ts (insert t w m) m' q)
]

clear_waiting_finished :
    (ts : List String) (m m' : Map RunTask)
    → clear_waiting ts m ≡ ok m'
    → all (λ t. status_is_finished t.status) (values m) ≡ true
    → all (λ t. status_is_finished t.status) (values m') ≡ true
unfolding clear_waiting
clear_waiting_finished [] m m' h f =
    let e : m ≡ m' = ground arith in
    subst (λ x. all (λ (t : RunTask). status_is_finished t.status) (values x) ≡ true) e f
clear_waiting_finished (t ∷ ts) m m' h f = elim (>>=-Bound (deref (lookup t m)) _ h) [
  | bound v e q ↦
      let w : RunTask = record v { waiting_approval = false } in
      let fv = all-lookup (λ (t : RunTask). status_is_finished t.status) t v m f (deref-ok _ e) in
      clear_waiting_finished ts (insert t w m) m' q
        (all-insert (λ (t : RunTask). status_is_finished t.status) t w m f fv)
]

-- What StopRun leaves of a run.
pub record Stopped (r r' : Run) : Type 0 where
  pub was_running : phase_is_running r.phase ≡ true
  pub same : r' ≡ record r { stop = true; tasks = r'.tasks }
  pub forward : Forward r.tasks r'.tasks
  pub still_finished : all_finished r ≡ true → all_finished r' ≡ true

pub stop_running-Stopped : (r r' : Run) → stop_running r ≡ ok r' → Stopped r r'
unfolding stop_running
stop_running-Stopped r r' h =
    elim (>>=-Bound (guard (phase_is_running r.phase) (Error.wrong_phase r.id)) _ h) [
      | bound u e q ↦ elim (>>=-Bound (clear_waiting (tasks_waiting_approval r) r.tasks) _ q) [
        | bound m e' q' ↦
            let eq : r' ≡ record r { stop = true; tasks = m } = ground arith in
            record {
              was_running = ground arith;
              same = ground (arith, eq);
              forward =
                  subst (λ (x : Run). Forward r.tasks x.tasks) (sym eq)
                    (clear_waiting-Forward (tasks_waiting_approval r) r.tasks m e');
              still_finished = λ f.
                  subst (λ (x : Run). all_finished x ≡ true) (sym eq)
                    (clear_waiting_finished (tasks_waiting_approval r) r.tasks m e' f);
            }
      ]
    ]
