-- ===== src/Types/Definition.antt =====
-- services/runservice/types/runconfig.go: the definition of a run, and its tasks.
use agola.Prelude.{ℕ, String, Bool, List, Option, Map}
use agola.Types.Meta.{ObjectMeta}

-- RunConfigTask.Level: an integer, and -1 for a level that is not known yet.
pub data Level : Type 0 where
  unset : Level
  level : ℕ → Level

pub data RunConfigTaskDependCondition : Type 0 where
  on_success on_failure on_skipped : RunConfigTaskDependCondition

pub record RunConfigTaskDepend : Type 0 where
  pub task_id : String
  pub conditions : List RunConfigTaskDependCondition

pub data DockerRegistryAuthType : Type 0 where
  basic encoded_auth : DockerRegistryAuthType

pub record DockerRegistryAuth : Type 0 where
  pub type : DockerRegistryAuthType
  pub username : String
  pub password : String
  pub auth : String

pub record VolumeTmpFs : Type 0 where
  pub size : ℕ

pub record Volume : Type 0 where
  pub path : String
  pub tmpfs : Option VolumeTmpFs

pub record Container : Type 0 where
  pub image : String
  pub environment : Map String
  pub user : String
  pub privileged : Bool
  pub entrypoint : String
  pub volumes : List Volume

-- RuntimeType has the one value "pod", and is left out. An empty `arch` is not set.
pub record Runtime : Type 0 where
  pub arch : String
  pub containers : List Container

pub record SaveContent : Type 0 where
  pub source_dir : String
  pub dest_dir : String
  pub paths : List String

-- The embedded BaseStep's `Type` is the constructor of `Step`.
pub record RunStep : Type 0 where
  pub name : String
  pub command : String
  pub environment : Map String
  pub working_dir : String
  pub shell : String
  pub tty : Option Bool

pub record SaveToWorkspaceStep : Type 0 where
  pub name : String
  pub contents : List SaveContent

pub record RestoreWorkspaceStep : Type 0 where
  pub name : String
  pub dest_dir : String

pub record SaveCacheStep : Type 0 where
  pub name : String
  pub key : String
  pub contents : List SaveContent

pub record RestoreCacheStep : Type 0 where
  pub name : String
  pub cache_keys : List String
  pub dest_dir : String

pub data Step : Type 0 where
  run : RunStep → Step
  save_to_workspace : SaveToWorkspaceStep → Step
  restore_workspace : RestoreWorkspaceStep → Step
  save_cache : SaveCacheStep → Step
  restore_cache : RestoreCacheStep → Step

pub record RunConfigTask : Type 0 where
  pub level : Level
  pub id : String
  pub name : String
  pub depends : Map RunConfigTaskDepend
  pub runtime : Runtime
  pub environment : Map String
  pub working_dir : String
  pub shell : String
  pub user : String
  pub steps : List Step
  pub ignore_failure : Bool
  pub needs_approval : Bool
  pub skip : Bool
  pub docker_registries_auth : Map DockerRegistryAuth

pub record RunConfig : Type 0 where
  pub meta : ObjectMeta
  pub open meta use *
  pub name : String
  pub group : String
  pub setup_errors : List String
  pub annotations : Map String
  pub static_environment : Map String
  pub environment : Map String
  pub tasks : Map RunConfigTask
  pub cache_group : String
