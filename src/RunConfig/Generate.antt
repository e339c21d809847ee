-- ===== src/RunConfig/Generate.antt =====
-- GenRunConfigTasks of internal/runconfig/runconfig.go. The ids of the tasks are drawn by `new_id` from
-- their names, and `compile` is the package regexp.
use agola.Prelude.{
  ℕ, String, ◌==◌, Bool, true, false, not, List, [], ◌∷◌, Option, none, some, Map, lookup, insert,
  values, map, map_values_m, Result, ok, panicked, ◌>>=◌, if◌then◌else◌,
}
use agola.Types.{
  RunConfigTask, RunConfigTaskDepend, RunConfigTaskDependCondition, Level, Runtime, Container,
  Volume, VolumeTmpFs, SaveContent, Step, DockerRegistryAuth,
}
use agola.When.Match.{RunRefType, match_when}
use agola.Config.{
  Config, ConfigRun, ConfigTask, ConfigRuntime, ConfigContainer, ConfigVolume, ConfigVolumeTmpFs,
  ConfigSaveContent, ConfigStep, ConfigDockerRegistryAuth, CloneStep, ConfigRunStep, Value,
  ValueType, Depend, DependCondition, config_run, run_task, find_run, find_task,
}
pub mod CloneScript
pub mod Depends
use agola.RunConfig.Generate.CloneScript.{clone_command}

abbrev pub default_shell : String
default_shell = "/bin/sh -e"

abbrev pub text_or_empty : Option String → String
text_or_empty none = ""
text_or_empty (some s) = s

unfoldable pub gen_value : Value → Map String → String
unfolding lookup
gen_value val variables = elim val.type [
  | ValueType.text ↦ val.value
  | ValueType.from_variable ↦ text_or_empty (lookup val.value variables)
]

unfoldable pub gen_env : Map Value → Map String → Map String
unfolding gen_value insert
gen_env [] variables = []
gen_env ((name, value) ∷ cenv) variables =
    insert name (gen_value value variables) (gen_env cenv variables)

abbrev gen_size : Option ℕ → ℕ
gen_size none = 0
gen_size (some n) = n

abbrev gen_tmpfs : Option ConfigVolumeTmpFs → Option VolumeTmpFs
gen_tmpfs none = none
gen_tmpfs (some t) = some (record { size = gen_size t.size })

abbrev gen_volume : ConfigVolume → Volume
gen_volume v = record { path = v.path; tmpfs = gen_tmpfs v.tmpfs }

abbrev gen_container : Map String → ConfigContainer → Container
gen_container variables cc = record {
  image = cc.image;
  environment = gen_env cc.environment variables;
  user = cc.user;
  privileged = cc.privileged;
  entrypoint = cc.entrypoint;
  volumes = map gen_volume cc.volumes;
}

unfoldable pub gen_runtime : ConfigRuntime → Map String → Runtime
unfolding gen_env
gen_runtime ce variables = record {
  arch = ce.arch;
  containers = map (gen_container variables) ce.containers;
}

abbrev gen_content : ConfigSaveContent → SaveContent
gen_content c = record { source_dir = c.source_dir; dest_dir = c.dest_dir; paths = c.paths }

-- For a clone step Go returns a RunStep of the package config, the JSON form of which is read back as
-- this one.
unfoldable pub step_from_config_step : ConfigStep → Map String → Step
unfolding clone_command gen_env
step_from_config_step (ConfigStep.clone_step c) variables = Step.run (record {
  name = "Clone repository and checkout code";
  command = clone_command c;
  environment = [];
  working_dir = "";
  shell = "";
  tty = none;
})
step_from_config_step (ConfigStep.run_step c) variables = Step.run (record {
  name = c.name;
  command = c.command;
  environment = gen_env c.environment variables;
  working_dir = c.working_dir;
  shell = c.shell;
  tty = c.tty;
})
step_from_config_step (ConfigStep.save_to_workspace_step name contents) variables =
    Step.save_to_workspace (record { name = name; contents = map gen_content contents })
step_from_config_step (ConfigStep.restore_workspace_step name dest_dir) variables =
    Step.restore_workspace (record { name = name; dest_dir = dest_dir })
step_from_config_step (ConfigStep.save_cache_step name cache_key contents) variables =
    Step.save_cache (record { name = name; key = cache_key; contents = map gen_content contents })
step_from_config_step (ConfigStep.restore_cache_step name cache_keys dest_dir) variables =
    Step.restore_cache (record { name = name; cache_keys = cache_keys; dest_dir = dest_dir })

abbrev gen_auth : Map String → ConfigDockerRegistryAuth → DockerRegistryAuth
gen_auth variables auth = record {
  type = auth.type;
  username = gen_value auth.username variables;
  password = gen_value auth.password variables;
  auth = gen_value auth.auth variables;
}

-- A loop that adds registries to those that are there.
unfoldable pub add_auths :
    Map ConfigDockerRegistryAuth → Map String → Map DockerRegistryAuth → Map DockerRegistryAuth
unfolding gen_value insert
add_auths [] variables auths = auths
add_auths ((regname, auth) ∷ more) variables auths =
    add_auths more variables (insert regname (gen_auth variables auth) auths)

abbrev conditions_or_default : List RunConfigTaskDependCondition → List RunConfigTaskDependCondition
conditions_or_default [] = RunConfigTaskDependCondition.on_success ∷ []
conditions_or_default (c ∷ cs) = c ∷ cs

abbrev gen_condition : DependCondition → RunConfigTaskDependCondition
gen_condition DependCondition.on_success = RunConfigTaskDependCondition.on_success
gen_condition DependCondition.on_failure = RunConfigTaskDependCondition.on_failure
gen_condition DependCondition.on_skipped = RunConfigTaskDependCondition.on_skipped

unfoldable pub get_run_config_task_by_name : String → List RunConfigTask → Result RunConfigTask
get_run_config_task_by_name name [] = panicked
get_run_config_task_by_name name (rct ∷ rcts) =
    let rest = get_run_config_task_by_name name rcts in if rct.name == name then ok rct else rest

-- The loop over the dependencies of a task of the config.
unfoldable pub gen_depends :
    Map RunConfigTask → List Depend → Map RunConfigTaskDepend → Result (Map RunConfigTaskDepend)
unfolding get_run_config_task_by_name insert
gen_depends rcts [] depends = ok depends
gen_depends rcts (d ∷ ds) depends = do
  drct ← get_run_config_task_by_name d.task_name (values rcts)
  gen_depends rcts ds (
      insert drct.id
        (record {
          task_id = drct.id;
          conditions = conditions_or_default (map gen_condition d.conditions);
        })
        depends)

abbrev populate_depends : ConfigRun → Map RunConfigTask → RunConfigTask → Result RunConfigTask
populate_depends cr rcts rct = do
  ct ← run_task cr rct.name
  depends ← gen_depends rcts ct.depends []
  ok (record rct { depends = depends })

module _ (compile : String → Option (String → Bool)) (new_id : String → String) (c : Config)
    (variables : Map String) (ref_type : RunRefType) (branch tag ref : String) where
  -- The body of the first loop.
  unfoldable pub gen_run_config_task : ConfigRun → ConfigTask → Result RunConfigTask
  unfolding gen_env gen_runtime step_from_config_step add_auths match_when
  gen_run_config_task cr ct = do
    include ← match_when compile ct.when ref_type branch tag ref
    ok (record {
      level = Level.level 0;
      id = new_id ct.name;
      name = ct.name;
      depends = [];
      runtime = gen_runtime ct.runtime variables;
      environment = gen_env ct.environment variables;
      working_dir = ct.working_dir;
      shell = if ct.shell == "" then default_shell else ct.shell;
      user = ct.user;
      steps = map (λ s. step_from_config_step s variables) ct.steps;
      ignore_failure = ct.ignore_failure;
      needs_approval = ct.approval;
      skip = not include;
      docker_registries_auth = add_auths ct.docker_registries_auth variables (
          add_auths cr.docker_registries_auth variables
            (add_auths c.docker_registries_auth variables []));
    })

  unfoldable pub gen_tasks :
      ConfigRun → List ConfigTask → Map RunConfigTask → Result (Map RunConfigTask)
  unfolding gen_run_config_task insert
  gen_tasks cr [] rcts = ok rcts
  gen_tasks cr (ct ∷ cts) rcts = do
    t ← gen_run_config_task cr ct
    gen_tasks cr cts (insert t.id t rcts)

  unfoldable pub gen_run_config_tasks : String → Result (Map RunConfigTask)
  unfolding gen_tasks gen_depends map_values_m find_run find_task
  gen_run_config_tasks run_name = do
    cr ← config_run c run_name
    rcts ← gen_tasks cr cr.tasks []
    map_values_m (populate_depends cr rcts) rcts
