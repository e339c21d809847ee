-- ===== src/Config.antt =====
-- The types of internal/config/config.go that a parsed config has, and its lookups of a run and a task.
-- The pointers in lists and the runtime of a task are not nil: checkConfig has rejected those. A
-- runtime's type has the one value "pod", and is left out.
use agola.Prelude.{
  ℕ, String, ◌==◌, Bool, List, [], ◌∷◌, Option, Map, Result, ok, panicked, if◌then◌else◌,
}
use agola.Types.{DockerRegistryAuthType}
use agola.When.Match.{When}

pub data ValueType : Type 0 where
  text from_variable : ValueType

pub record Value : Type 0 where
  pub type : ValueType
  pub value : String

pub record ConfigDockerRegistryAuth : Type 0 where
  pub type : DockerRegistryAuthType
  pub username : Value
  pub password : Value
  pub auth : Value

-- The size is what `Size.Value()` gives, if there is one.
pub record ConfigVolumeTmpFs : Type 0 where
  pub size : Option ℕ

pub record ConfigVolume : Type 0 where
  pub path : String
  pub tmpfs : Option ConfigVolumeTmpFs

pub record ConfigContainer : Type 0 where
  pub image : String
  pub environment : Map Value
  pub user : String
  pub privileged : Bool
  pub entrypoint : String
  pub volumes : List ConfigVolume

pub record ConfigRuntime : Type 0 where
  pub arch : String
  pub containers : List ConfigContainer

pub data DependCondition : Type 0 where
  on_success on_failure on_skipped : DependCondition

pub record Depend : Type 0 where
  pub task_name : String
  pub conditions : List DependCondition

pub record CloneStep : Type 0 where
  pub name : String
  pub depth : Option ℕ
  pub recurse_submodules : Bool

pub record ConfigRunStep : Type 0 where
  pub name : String
  pub command : String
  pub environment : Map Value
  pub working_dir : String
  pub shell : String
  pub tty : Option Bool

pub record ConfigSaveContent : Type 0 where
  pub source_dir : String
  pub dest_dir : String
  pub paths : List String

-- The type of the embedded BaseStep is the constructor, and its `When` is not used.
pub data ConfigStep : Type 0 where
  clone_step : CloneStep → ConfigStep
  run_step : ConfigRunStep → ConfigStep
  save_to_workspace_step : (name : String) (contents : List ConfigSaveContent) → ConfigStep
  restore_workspace_step : (name dest_dir : String) → ConfigStep
  save_cache_step : (name cache_key : String) (contents : List ConfigSaveContent) → ConfigStep
  restore_cache_step : (name : String) (cache_keys : List String) (dest_dir : String) → ConfigStep

pub record ConfigTask : Type 0 where
  pub name : String
  pub runtime : ConfigRuntime
  pub environment : Map Value
  pub working_dir : String
  pub shell : String
  pub user : String
  pub steps : List ConfigStep
  pub depends : List Depend
  pub ignore_failure : Bool
  pub approval : Bool
  pub when : Option When
  pub docker_registries_auth : Map ConfigDockerRegistryAuth

pub record ConfigRun : Type 0 where
  pub name : String
  pub tasks : List ConfigTask
  pub when : Option When
  pub docker_registries_auth : Map ConfigDockerRegistryAuth

pub record Config : Type 0 where
  pub runs : List ConfigRun
  pub docker_registries_auth : Map ConfigDockerRegistryAuth

unfoldable pub find_run : String → List ConfigRun → Result ConfigRun
find_run name [] = panicked
find_run name (r ∷ rs) = let rest = find_run name rs in if r.name == name then ok r else rest

-- Config.Run
abbrev pub config_run : Config → String → Result ConfigRun
config_run c name = find_run name c.runs

unfoldable pub find_task : String → List ConfigTask → Result ConfigTask
find_task name [] = panicked
find_task name (t ∷ ts) = let rest = find_task name ts in if t.name == name then ok t else rest

-- Run.Task
abbrev pub run_task : ConfigRun → String → Result ConfigTask
run_task r name = find_task name r.tasks
