-- ===== src/RunConfig/Check.antt =====
-- CheckRunConfigTasks of internal/runconfig/runconfig.go.
use agola.Prelude.{
  String, ◌==◌, Bool, true, false, List, [], ◌∷◌, ◌++◌, map, filter, any, Option, none, some, Map,
  values, Result, ok, err, Error,
}
use agola.Types.{RunConfigTask}
use agola.RunConfig.Graph.{get_parents, get_all_parents}

abbrev is_task : RunConfigTask → RunConfigTask → Bool
is_task t p = p.id == t.id

-- The names of the ancestors that depend on `t`, one for each parent with the id of `t`.
abbrev repeat_for : String → List RunConfigTask → List String
repeat_for name [] = []
repeat_for name (p ∷ ps) = name ∷ repeat_for name ps

unfoldable pub circular_names : Map RunConfigTask → RunConfigTask → List RunConfigTask → List String
unfolding get_parents
circular_names rcts t [] = []
circular_names rcts t (parent ∷ parents) =
    repeat_for parent.name (filter (is_task t) (get_parents rcts parent))
    ++ circular_names rcts t parents

-- The errors of one task, with all its ancestors: one for each ancestor with the id of `t`.
unfoldable pub circular_errors :
    Map RunConfigTask → RunConfigTask → List RunConfigTask → List (String × List String)
unfolding circular_names
circular_errors rcts t all_parents =
    map (λ _. (t.name, circular_names rcts t all_parents)) (filter (is_task t) all_parents)

unfoldable pub all_circular_errors :
    Map RunConfigTask → List RunConfigTask → List (String × List String)
unfolding circular_errors get_all_parents
all_circular_errors rcts [] = []
all_circular_errors rcts (t ∷ ts) =
    circular_errors rcts t (get_all_parents rcts t) ++ all_circular_errors rcts ts

abbrev first_common : List RunConfigTask → List RunConfigTask → Option RunConfigTask
first_common [] all_parent_parents = none
first_common (p ∷ ps) all_parent_parents = elim (any (is_task p) all_parent_parents) [
  | true ↦ some p
  | false ↦ first_common ps all_parent_parents
]

-- The first parent of `t` in `todo` one of whose ancestors is a parent of `t` too, with that one.
unfoldable pub common_parent :
    Map RunConfigTask
    → List RunConfigTask
    → List RunConfigTask
    → Option (RunConfigTask × RunConfigTask)
unfolding get_all_parents
common_parent rcts parents [] = none
common_parent rcts parents (parent ∷ todo) =
    elim (first_common parents (get_all_parents rcts parent)) [
      | some p ↦ some (parent, p)
      | none ↦ common_parent rcts parents todo
    ]

unfoldable pub check_common : Map RunConfigTask → List RunConfigTask → Result (Unit {0})
unfolding common_parent get_parents
check_common rcts [] = ok tt
check_common rcts (t ∷ ts) = elim (common_parent rcts (get_parents rcts t) (get_parents rcts t)) [
  | some (parent, p) ↦ err (Error.common_dependency t.name parent.name p.name)
  | none ↦ check_common rcts ts
]

unfoldable pub check_run_config_tasks : Map RunConfigTask → Result (Unit {0})
unfolding all_circular_errors check_common
check_run_config_tasks rcts = elim (all_circular_errors rcts (values rcts)) [
  | [] ↦ check_common rcts (values rcts)
  | e ∷ es ↦ err (Error.circular_dependencies (e ∷ es))
]
