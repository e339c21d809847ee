-- ===== src/Tests/Configs.antt =====
-- A config of two tasks, and the run config tasks that are generated for it.
use Prim.Native.String.{◌++◌ as ◌<>◌}
use agola.Prelude.{
  ◌≡◌, refl, String, Bool, true, false, List, [], ◌∷◌, Option, none, some, Map, lookup, insert,
  map_values_m, Memᴰ, Result, ok, err, panicked,
}
use agola.Types.{RunConfigTask, RunConfigTaskDepend, RunConfigTaskDependCondition}
use agola.When.Match.{RunRefType, match_when}
use agola.Config.{Config, ConfigTask, ConfigStep, ValueType, Depend, find_run, find_task}
use agola.RunConfig.Generate.{
  gen_value, gen_env, gen_runtime, step_from_config_step, add_auths, get_run_config_task_by_name,
  gen_depends, gen_run_config_task, gen_tasks, gen_run_config_tasks,
}
use agola.RunConfig.Generate.CloneScript.{gen_clone_options, join_text, decimal}
use agola.RunConfig.Generate.Depends.{Resolved, gen_run_config_tasks-Resolved}

abbrev config_task : String → List Depend → ConfigTask
config_task name depends = record {
  name = name;
  runtime = record { arch = "amd64"; containers = [] };
  environment = ("TOKEN", record { type = ValueType.from_variable; value = "token" }) ∷ [];
  working_dir = "";
  shell = "";
  user = "";
  steps = ConfigStep.restore_workspace_step "restore" "." ∷ [];
  depends = depends;
  ignore_failure = false;
  approval = false;
  when = none;
  docker_registries_auth = [];
}

abbrev two_tasks : Config
two_tasks = record {
  runs =
      record {
        name = "run01";
        tasks =
            config_task "build" []
            ∷ config_task "test" (record { task_name = "build"; conditions = [] } ∷ [])
            ∷ [];
        when = none;
        docker_registries_auth = [];
      }
      ∷ [];
  docker_registries_auth = [];
}

abbrev no_regexp : String → Option (String → Bool)
no_regexp e = none

abbrev id_of_name : String → String
id_of_name name = "id-" <> name

abbrev tasks_or_none : Result (Map RunConfigTask) → Map RunConfigTask
tasks_or_none (ok rcts) = rcts
tasks_or_none (err e) = []
tasks_or_none panicked = []

abbrev task_or : RunConfigTask → Option RunConfigTask → RunConfigTask
task_or t none = t
task_or t (some t') = t'

generated_tasks : Map RunConfigTask
generated_tasks = tasks_or_none (
    gen_run_config_tasks no_regexp id_of_name two_tasks (("token", "secret") ∷ []) RunRefType.branch
      "master" "" "refs/heads/master" "run01")

abbrev generated_at : List RunConfigTask → Option RunConfigTask
generated_at [] = none
generated_at (t ∷ []) = none
generated_at (t ∷ t' ∷ ts) = some t'

abbrev on_build : RunConfigTaskDepend
on_build = record {
  task_id = "id-build";
  conditions = RunConfigTaskDependCondition.on_success ∷ [];
}

gen_run_config_tasks-Resolved_example : Resolved generated_tasks "id-build" on_build
unfolding generated_tasks gen_run_config_tasks gen_tasks gen_run_config_task gen_env gen_value
    gen_runtime step_from_config_step add_auths gen_depends get_run_config_task_by_name find_run
    find_task map_values_m insert lookup match_when
gen_run_config_tasks-Resolved_example =
    gen_run_config_tasks-Resolved no_regexp id_of_name two_tasks (("token", "secret") ∷ [])
      RunRefType.branch "master" "" "refs/heads/master" "run01" generated_tasks _ "id-build"
      on_build refl (Memᴰ.tail (Memᴰ.head refl)) refl

options_of_a_clone :
    gen_clone_options (record { name = ""; depth = some 120; recurse_submodules = true })
    ≡ "--depth 120 --recurse-submodules"
unfolding gen_clone_options join_text decimal
options_of_a_clone = refl
