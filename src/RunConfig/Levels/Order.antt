-- ===== src/RunConfig/Levels/Order.antt =====
-- The levels that GenTasksLevels of internal/runconfig/runconfig.go gives, and the order of the
-- dependencies.
use agola.Prelude.{
  ℕ, ◌<◌, ◌≡◌, refl, subst, true, false, not, ◌||◌, Map, values, map_values, all, some, Memᴰ,
  filter-mem, all→mem, any-mem, Error, ok, err, Result, arith, Bool-cases, inl, inr,
}
use agola.Types.{RunConfigTask, Level}
use agola.RunConfig.Graph.{depends_on, get_parents}
use agola.RunConfig.Levels.{is_below, is_unset, reset_level, check_levels, gen_tasks_levels}
use agola.RunConfig.Levels.Round.{ready}
use agola.RunConfig.Levels.Settled.{task_ok, Level-cases, generated, gen_tasks_levels-Generated}

-- The rounds of GenTasksLevels come to an end on any tasks, circular ones included: with one more
-- round than there are tasks the fuel is never used up. The result has the tasks as they were but
-- for their levels.
pub gen_tasks_levels_ends :
    (rcts : Map RunConfigTask)
    → (m : Map RunConfigTask) × (e : Result (Unit {0})) × (gen_tasks_levels rcts ≡ some (m, e))
      × (map_values reset_level m ≡ map_values reset_level rcts)
gen_tasks_levels_ends rcts = elim (gen_tasks_levels-Generated rcts) [
  | generated lvl m e r a l ↦ (m, check_levels m, e, r)
]

check_levels-ok :
    (m : Map RunConfigTask) (t : RunConfigTask)
    → check_levels m ≡ ok tt
    → Memᴰ t (values m)
    → is_unset t.level ≡ false
check_levels-ok m t h mem = elim (Bool-cases (is_unset t.level)) [
  | inr set ↦ set
  | inl unset ↦
      let e = any-mem (λ (x : RunConfigTask). is_unset x.level) (values m) mem unset in
      absurd (failed (rw (e, check_levels) at h))
]
  where
    failed : ◌≡◌ {A = Result (Unit {0})} (err Error.circular_dependency) (ok tt) → ⊥
    failed q = cc

ready-parent :
    (n : ℕ) (m : Map RunConfigTask) (t p : RunConfigTask)
    → ready n m t ≡ true
    → Memᴰ p (get_parents m t)
    → is_below n p.level ≡ true
unfolding get_parents
ready-parent n m t p r mem =
    let (here, dep) = filter-mem (depends_on t) (values m) mem in
    ground (
      arith,
      all→mem (λ (x : RunConfigTask). not (depends_on t x) || is_below n x.level) (values m) r here,
      dep,
    )

is_below-level : (n : ℕ) (l : Level) → is_below n l ≡ true → (k : ℕ) × (l ≡ Level.level k) × (k < n)
is_below-level n Level.unset h = cc
is_below-level n (Level.level k) h = (k, refl, ground arith)

-- If GenTasksLevels returns no error, then every task has a level, and each parent of a task has a
-- level below the one of the task.
pub gen_tasks_levels_order :
    (rcts m : Map RunConfigTask)
    → gen_tasks_levels rcts ≡ some (m, ok tt)
    → (t : RunConfigTask) → Memᴰ t (values m)
    → (n : ℕ) × (t.level ≡ Level.level n)
      × ((p : RunConfigTask)
          → Memᴰ p (get_parents m t)
          → (k : ℕ) × (p.level ≡ Level.level k) × (k < n))
gen_tasks_levels_order rcts m h t mem = elim (gen_tasks_levels-Generated rcts) [
  | generated lvl m' e r a l ↦
      let same : m' ≡ m = cc in
      let fine : check_levels m ≡ ok tt = ground (arith, e, h, same) in
      let good =
        all→mem (task_ok lvl m) (values m)
          (subst (λ x. all (task_ok lvl x) (values x) ≡ true) same a) mem in
      leveled lvl good (check_levels-ok m t fine mem)
]
  where
    leveled :
        (lvl : ℕ)
        → task_ok lvl m t ≡ true
        → is_unset t.level ≡ false
        → (n : ℕ) × (t.level ≡ Level.level n)
          × ((p : RunConfigTask)
              → Memᴰ p (get_parents m t)
              → (k : ℕ) × (p.level ≡ Level.level k) × (k < n))
    leveled lvl good set = elim (Level-cases t.level) [
      | inl e ↦ absurd (ground (arith, e))
      | inr (n, e) ↦
          (n, e, λ p q. is_below-level n p.level (ready-parent n m t p (ground (arith, e)) q))
    ]
