-- ===== src/Action/SpecData.antt =====
-- GenExecutorTaskSpecData of internal/services/runservice/common/common.go, with the paths of its object
-- storage groups, and GetExecutorTask and GetExecutorTasks of
-- internal/services/runservice/action/action.go, which generate it for an executor.
use Prim.Native.String.{compare}
use text.Mathlib.Text.{is_lt}
use agola.Prelude.{
  ℕ, zero, suc, String, ◌==◌, Bool, true, false, ◌||◌, ◌&&◌, List, [], ◌∷◌, ◌++◌, Option, none,
  some, Map, lookup, insert, map, ltb, Result, ok, err, panicked, deref, or_err, ◌>>=◌, ◌>>◌, Error,
  if◌then◌else◌,
}
use agola.Types.{
  Run, RunTask, RunConfig, RunConfigTask, Level, Container, Step, DockerRegistryAuth, ExecutorTask,
}
use agola.Paths.{path_hierarchy, path_list}
use agola.RunConfig.Graph.{get_all_parents}
pub mod Environment
pub mod Operations
use agola.Store.Db.{Db, get_run, get_run_config, get_executor_task, get_executor_tasks_by_executor}

pub record WorkspaceOperation : Type 0 where
  pub task_id : String
  pub step : ℕ

-- `Privileged` is never set, and left out.
pub record ExecutorTaskSpecData : Type 0 where
  pub task_name : String
  pub arch : String
  pub containers : List Container
  pub environment : Map String
  pub working_dir : String
  pub shell : String
  pub user : String
  pub workspace_operations : List WorkspaceOperation
  pub docker_registries_auth : Map DockerRegistryAuth
  pub cache_prefix : String
  pub steps : List Step

-- The loops that keep the elements at the even places, or those at the odd ones.
abbrev pub every_other : Bool → List String → List String
every_other keep [] = []
every_other true (g ∷ gs) = g ∷ every_other false gs
every_other false (g ∷ gs) = every_other true gs

abbrev is_odd : List String → Bool
is_odd [] = false
is_odd (g ∷ []) = true
is_odd (g ∷ g' ∷ gs) = is_odd gs

abbrev odd_or_panic : List String → Result (List String)
odd_or_panic gs = if is_odd gs then ok gs else panicked

unfoldable pub ost_sub_groups_and_group_types : String → Result (List String)
unfolding path_hierarchy
ost_sub_groups_and_group_types group = deref (path_hierarchy group) >>= odd_or_panic

unfoldable pub ost_sub_groups : String → Result (List String)
unfolding path_hierarchy
ost_sub_groups group = do
  h ← deref (path_hierarchy group)
  h' ← odd_or_panic h
  ok (every_other true h')

unfoldable pub ost_sub_group_types : String → Result (List String)
unfolding path_hierarchy
ost_sub_group_types group = do
  h ← deref (path_hierarchy group)
  h' ← odd_or_panic h
  ok (every_other false h')

abbrev second_or_panic : List String → Result String
second_or_panic [] = panicked
second_or_panic (name ∷ []) = panicked
second_or_panic (name ∷ name' ∷ names) = ok name'

unfoldable pub ost_root_group : String → Result String
unfolding path_list
ost_root_group group = deref (path_list group) >>= second_or_panic

-- parentsByLevelName.Less; a level that is not set is -1.
abbrev pub level_less : Level → Level → Bool
level_less Level.unset Level.unset = false
level_less Level.unset (Level.level n) = true
level_less (Level.level m) Level.unset = false
level_less (Level.level m) (Level.level n) = ltb m n

abbrev pub by_level_name_less : RunConfigTask → RunConfigTask → Bool
by_level_name_less p q =
    level_less p.level q.level
    || (if level_less q.level p.level then false else is_lt (compare p.name q.name))

abbrev pub sorted_in : RunConfigTask → List RunConfigTask → List RunConfigTask
sorted_in p [] = p ∷ []
sorted_in p (q ∷ qs) = if by_level_name_less q p then q ∷ sorted_in p qs else p ∷ q ∷ qs

-- sort.Sort leaves the order of equal elements open; here they stay in order.
abbrev pub sort_parents : List RunConfigTask → List RunConfigTask
sort_parents [] = []
sort_parents (p ∷ ps) = sorted_in p (sort_parents ps)

unfoldable pub merge_env : Map String → Map String → Map String
unfolding insert
merge_env dest [] = dest
merge_env dest ((k, v) ∷ src) = merge_env (insert k v dest) src

abbrev pub operations_of : String → List ℕ → List WorkspaceOperation
operations_of id [] = []
operations_of id (step ∷ steps) = record { task_id = id; step = step } ∷ operations_of id steps

-- The loop over the parents.
unfoldable pub workspace_operations :
    Map RunTask → List RunConfigTask → Result (List WorkspaceOperation)
unfolding lookup
workspace_operations tasks [] = ok []
workspace_operations tasks (p ∷ ps) = do
  rt ← deref (lookup p.id tasks)
  rest ← workspace_operations tasks ps
  ok (operations_of p.id rt.workspace_archives ++ rest)

abbrev pub merged_environment : RunConfig → RunConfigTask → Map String
merged_environment rc rct =
    merge_env (merge_env rct.environment rc.static_environment) rc.environment

abbrev shared_environment : Map String → Map String → Map String
shared_environment [] merged = []
shared_environment (e ∷ es) merged = merged

-- With the data there is the run config as it is then: the environment of the task, if it is not nil,
-- is the map that is merged into.
unfoldable pub gen_executor_task_spec_data :
    Run → RunTask → RunConfig → Result (ExecutorTaskSpecData × RunConfig)
unfolding lookup insert merge_env ost_root_group workspace_operations
gen_executor_task_spec_data r rt rc = do
  rct ← deref (lookup rt.id rc.tasks)
  root ← ost_root_group r.group
  let rct' : RunConfigTask = record rct {
    environment = shared_environment rct.environment (merged_environment rc rct);
  }
  let tasks' = insert rt.id rct' rc.tasks
  ops ← workspace_operations r.tasks (sort_parents (get_all_parents tasks' rct'))
  ok (
    record {
      task_name = rct.name;
      arch = rct.runtime.arch;
      containers = rct.runtime.containers;
      environment = merged_environment rc rct;
      working_dir = rct.working_dir;
      shell = rct.shell;
      user = rct.user;
      workspace_operations = ops;
      docker_registries_auth = rct.docker_registries_auth;
      cache_prefix = if rc.cache_group == "" then root else rc.cache_group;
      steps = rct.steps;
    },
    record rc { tasks = tasks' },
  )

-- The loop body of GetExecutorTasks, and GetExecutorTask after its first query.
unfoldable pub spec_data_of : Db → ExecutorTask → Result ExecutorTaskSpecData
spec_data_of db et = do
  r ← or_err (get_run et.spec.run_id db) (Error.not_exist et.spec.run_id)
  rc ← or_err (get_run_config r.run_config_id db) (Error.bad_request r.run_config_id)
  rt ← or_err (lookup et.spec.run_task_id r.tasks) (Error.no_such_run_task et.spec.run_task_id r.id)
  o ← gen_executor_task_spec_data r rt rc
  ok o.0

unfoldable pub get_executor_task_action : String → Db → Result (ExecutorTask × ExecutorTaskSpecData)
get_executor_task_action et_id db = do
  et ← or_err (get_executor_task et_id db) (Error.not_exist et_id)
  spec ← spec_data_of db et
  ok (et, spec)

unfoldable pub with_spec_data :
    Db → List ExecutorTask → Result (List (ExecutorTask × ExecutorTaskSpecData))
with_spec_data db [] = ok []
with_spec_data db (et ∷ ets) = do
  spec ← spec_data_of db et
  rest ← with_spec_data db ets
  ok ((et, spec) ∷ rest)

unfoldable pub get_executor_tasks_action :
    String → Db → Result (List (ExecutorTask × ExecutorTaskSpecData))
get_executor_tasks_action executor_id db =
    with_spec_data db (get_executor_tasks_by_executor executor_id db)
