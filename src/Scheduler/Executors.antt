-- ===== src/Scheduler/Executors.antt =====
-- The function chooseExecutor of internal/services/runservice/scheduler.go. The executors come from the
-- database with the number of tasks that it holds for each; times are in nanoseconds.
use agola.Prelude.{
  ℕ, ◌-◌, ◌*◌, String, ◌==◌, Bool, true, false, ◌&&◌, not, List, [], ◌∷◌, Option, none, some, Map,
  lookup, any, ltb, leb, eqb, if◌then◌else◌,
}
use agola.Types.{Executor, RunConfigTask}

-- defaultExecutorNotAliveInterval: 60 * time.Second
abbrev pub default_executor_not_alive_interval : ℕ
default_executor_not_alive_interval = 60 * 1000000000

unfoldable pub requires_privileged_containers : RunConfigTask → Bool
requires_privileged_containers rct = any (λ c. c.privileged) rct.runtime.containers

-- A missing key reads as 0.
unfoldable pub scheduled_tasks : Map ℕ → String → ℕ
unfolding lookup
scheduled_tasks counts id = elim (lookup id counts) [ some n ↦ n | none ↦ 0 ]

-- The active tasks: those of the database, or those that the executor reports if these are more.
unfoldable pub active_tasks : Map ℕ → Executor → ℕ
unfolding scheduled_tasks
active_tasks counts e =
    if ltb (scheduled_tasks counts e.executor_id) e.active_tasks
    then e.active_tasks
    else scheduled_tasks counts e.executor_id

-- Is the end of the loop's body reached?
unfoldable pub can_take : ℕ → Map ℕ → RunConfigTask → Executor → Bool
unfolding requires_privileged_containers active_tasks
can_take now counts rct e =
    if ltb default_executor_not_alive_interval (now - e.update_time)
    then false
    else if requires_privileged_containers rct && not e.allow_privileged_containers
    then false
    else if not (rct.runtime.arch == "") && not (any (λ arch. arch == rct.runtime.arch) e.archs)
    then false
    else if not (eqb e.active_tasks_limit 0) && leb e.active_tasks_limit (active_tasks counts e)
    then false
    else true

unfoldable pub choose_executor : ℕ → List Executor → Map ℕ → RunConfigTask → Option Executor
unfolding can_take
choose_executor now [] counts rct = none
choose_executor now (e ∷ es) counts rct = elim (can_take now counts rct e) [
  | true ↦ some e
  | false ↦ choose_executor now es counts rct
]
