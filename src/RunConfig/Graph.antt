-- ===== src/RunConfig/Graph.antt =====
-- GetParents, GetAllParents and GetParentDependConditions of internal/runconfig/runconfig.go.
use agola.Prelude.{
  ℕ, zero, suc, ◌+◌, Bool, true, false, List, [], ◌∷◌, ◌++◌, Option, none, some, Map, values,
  has_key, lookup, insert, filter, length, Memᴰ,
}
use agola.Types.{RunConfigTask, RunConfigTaskDependCondition}

-- `_, ok := task.Depends[t.ID]`
abbrev pub depends_on : RunConfigTask → RunConfigTask → Bool
depends_on task t = has_key t.id task.depends

unfoldable pub get_parents : Map RunConfigTask → RunConfigTask → List RunConfigTask
get_parents rcts task = filter (depends_on task) (values rcts)

-- The inner loop of GetAllParents over `parents`; it returns `pMap` and `nextParents`.
unfoldable pub collect_parents :
    Map RunConfigTask
    → List RunConfigTask
    → Map RunConfigTask
    → List RunConfigTask
    → Map RunConfigTask × List RunConfigTask
unfolding get_parents
collect_parents rcts [] p_map next = (p_map, next)
collect_parents rcts (parent ∷ parents) p_map next = elim (has_key parent.id p_map) [
  | true ↦ collect_parents rcts parents p_map next
  | false ↦
      collect_parents rcts parents (insert parent.id parent p_map) (next ++ get_parents rcts parent)
]

-- The outer loop, while `nextParents` is not empty; `none` means that the fuel ran out.
unfoldable pub all_parents_loop :
    ℕ → Map RunConfigTask → Map RunConfigTask → List RunConfigTask → Option (Map RunConfigTask)
unfolding collect_parents
all_parents_loop zero rcts p_map next = none
all_parents_loop (suc fuel) rcts p_map [] = some p_map
all_parents_loop (suc fuel) rcts p_map (parent ∷ parents) =
    let (p_map', next) = collect_parents rcts (parent ∷ parents) p_map [] in
    all_parents_loop fuel rcts p_map' next

-- Each round but the last two adds a task to `pMap`.
unfoldable pub get_all_parents? : Map RunConfigTask → RunConfigTask → Option (Map RunConfigTask)
unfolding all_parents_loop get_parents
get_all_parents? rcts task = all_parents_loop (length rcts + 2) rcts [] (get_parents rcts task)

abbrev values_or_nil : Option (Map RunConfigTask) → List RunConfigTask
values_or_nil none = []
values_or_nil (some p_map) = values p_map

unfoldable pub get_all_parents : Map RunConfigTask → RunConfigTask → List RunConfigTask
unfolding get_all_parents?
get_all_parents rcts task = values_or_nil (get_all_parents? rcts task)

-- The conditions are nil if `pt` is no parent of `t`.
unfoldable pub get_parent_depend_conditions :
    RunConfigTask → RunConfigTask → List RunConfigTaskDependCondition
unfolding lookup
get_parent_depend_conditions t pt = elim (lookup pt.id t.depends) [
  | some dt ↦ dt.conditions
  | none ↦ []
]

-- `p` is a parent of `t`, or a parent of an ancestor of `t`.
pub data Ancestor (rcts : Map RunConfigTask) (t : RunConfigTask) : RunConfigTask → Type 0 where
  direct : {p : RunConfigTask} → Memᴰ p (get_parents rcts t) → Ancestor rcts t p
  above :
      {p q : RunConfigTask} → Ancestor rcts t p → Memᴰ q (get_parents rcts p) → Ancestor rcts t q
