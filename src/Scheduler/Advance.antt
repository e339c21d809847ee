-- ===== src/Scheduler/Advance.antt =====
-- What advanceRunTasks of internal/services/runservice/scheduler.go does to each task.
mod OneTask
use agola.Prelude.{
  ◌≡◌, refl, sym, ap, subst, Bool, true, false, ◌||◌, not, List, [], ◌∷◌, some, lookup, All, Result,
  ok, deref, deref-ok, bound, >>=-Bound, arith, Bool-cases, inl, inr, ◌⊎◌, if◌then◌else◌, Map,
  map_values, map_values_m, ltb, length, ◌&&◌, ◌>>=◌, none, ◌≢◌, Option-cases, eqb,
}
use agola.Types.{
  Run, RunTask, RunTaskStatus, RunConfig, RunConfigTask, ExecutorTask, is_not_started, is_set,
}
use agola.RunConfig.Graph.{get_parents}
use agola.Scheduler.Tasks.{
  finished_parents, parents_of, task_matches_parent_depend_condition, is_scheduled, skip_stopped,
  cancel_root, wait_approval, advance_task, advance_run_tasks,
}
use agola.Scheduler.Parents.{ParentDone, ParentMatches, finished_parents-ParentDone}
use agola.Scheduler.Runnable.{matches-ParentMatches, ParentMatches-matches}
pub use OneTask.{Advances, kept, stopped, cancelled, unmatched, held}
use OneTask.{advance_chain}

-- Two maps with the same keys in the same order, and related values.
abbrev pub Pointwise : {V : Type 0} → (V → V → Type 0) → Map V → Map V → Type 0
Pointwise R [] [] = Unit
Pointwise R ((k, v) ∷ xs) ((j, w) ∷ ys) = (k ≡ j) × R v w × Pointwise R xs ys
Pointwise R _ _ = ⊥

-- Three loops over a map, put together value by value.
loops-Pointwise :
    {V : Type 0} (R : V → V → Type 0) (f : V → V) (g h : V → Result V)
    → ((v t₂ t₃ : V) → g (f v) ≡ ok t₂ → h t₂ ≡ ok t₃ → R v t₃)
    → (m₀ m₂ m₃ : Map V) → map_values_m g (map_values f m₀) ≡ ok m₂
    → map_values_m h m₂ ≡ ok m₃
    → Pointwise R m₀ m₃
unfolding map_values_m
loops-Pointwise R f g h step [] m₂ m₃ e₂ e₃ =
    let nil : m₂ ≡ [] = ground arith in
    let e₃' = subst (λ m. map_values_m h m ≡ ok m₃) nil e₃ in
    let nil₃ : [] ≡ m₃ = ground arith in subst (Pointwise R []) nil₃ tt
loops-Pointwise {V} R f g h step ((k, v) ∷ m₀) m₂ m₃ e₂ e₃ = elim (>>=-Bound (g (f v)) _ e₂) [
  | bound t₂ a₂ b₂ ↦ elim (>>=-Bound (map_values_m g (map_values f m₀)) _ b₂) [
    | bound r₂ c₂ d₂ ↦
        let e₃' = subst (λ m. map_values_m h m ≡ ok m₃) (found d₂) e₃ in
        elim (>>=-Bound (h t₂) _ e₃') [
          | bound t₃ a₃ b₃ ↦ elim (>>=-Bound (map_values_m h r₂) _ b₃) [
            | bound r₃ c₃ d₃ ↦
                subst (Pointwise R ((k, v) ∷ m₀)) (sym (found d₃))
                  (refl, step v t₂ t₃ a₂ a₃, loops-Pointwise R f g h step m₀ r₂ r₃ c₂ c₃)
          ]
        ]
  ]
]
  where
    found : {x y : Map V} → ok x ≡ ok y → y ≡ x
    found p = ground arith

stop_loop :
    (b : Bool) (f : RunTask → RunTask) (m : Map RunTask)
    → (if b then map_values f m else m) ≡ map_values (λ t. if b then f t else t) m
stop_loop true f m = refl
stop_loop false f [] = refl
stop_loop false f ((k, t) ∷ m) = ap (◌∷◌ (k, t)) (stop_loop false f m)

-- When advanceRunTasks returns, it has changed the tasks of the run and nothing else of it, and each
-- task, under its key, by one of the five ways of `Advances`, which look at the run as it was: it is
-- kept as it was, skipped in a stopped run, cancelled in a run with a result, skipped because a
-- parent has a status that it does not ask for, or set to wait for its approval.
pub advance_run_tasks-Advances :
    (r : Run) (rc : RunConfig) (ets : List ExecutorTask) (r' : Run)
    → advance_run_tasks r rc ets ≡ ok r'
    → (r' ≡ record r { tasks = r'.tasks }) × Pointwise (Advances r rc ets) r.tasks r'.tasks
unfolding advance_run_tasks
advance_run_tasks-Advances r rc ets r' h =
    elim (>>=-Bound
      (map_values_m (cancel_root r rc ets)
        (if r.stop then map_values (skip_stopped ets) r.tasks else r.tasks))
      _ h) [
        | bound m₂ e₂ h₂ ↦ elim (>>=-Bound (map_values_m (advance_task r rc) m₂) _ h₂) [
          | bound m₃ e₃ h₃ ↦
              let eq : r' ≡ record r { tasks = m₃ } = ground arith in
              (
                ground (arith, eq),
                subst (λ (x : Run). Pointwise (Advances r rc ets) r.tasks x.tasks) (sym eq)
                    (loops-Pointwise (Advances r rc ets) _ (cancel_root r rc ets)
                      (advance_task r rc) (λ v t₂ t₃ p q. advance_chain r rc ets v _ t₂ t₃ refl p q)
                      r.tasks m₂ m₃
                      (subst (λ m. map_values_m (cancel_root r rc ets) m ≡ ok m₂)
                        (stop_loop r.stop (skip_stopped ets) r.tasks) e₂)
                      e₃),
              )
        ]
      ]
