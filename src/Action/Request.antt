-- ===== src/Action/Request.antt =====
-- newRun and getRunCounterGroupID of internal/services/runservice/action/action.go: the run of a request.
use agola.Prelude.{
  String, ◌==◌, Bool, true, false, not, ◌&&◌, List, [], ◌∷◌, ◌++◌, Option, none, some, Map, Result,
  ok, err, panicked, guard, ◌>>=◌, ◌>>◌, Error,
}
use agola.Types.{Run, RunConfig, RunConfigTask, new_meta}
use agola.Paths.{is_abs, path_list}
use agola.RunConfig.Check.{check_run_config_tasks}
use agola.RunConfig.Levels.{gen_tasks_levels}
use agola.Action.Create.{no_errors, gen_run}

-- RunCreateRequest without the fields that no function reads and the token, which is an argument of
-- its own where it is used.
pub record RunCreateRequest : Type 0 where
  pub run_config_tasks : Option (Map RunConfigTask)
  pub name : String
  pub group : String
  pub setup_errors : List String
  pub static_environment : Map String
  pub cache_group : String
  pub run_id : String
  pub from_start : Bool
  pub environment : Map String
  pub annotations : Map String

pub record RunBundle : Type 0 where
  pub run : Run
  pub rc : RunConfig

-- A nil map has no entries.
abbrev pub or_empty : Option (Map RunConfigTask) → Map RunConfigTask
or_empty none = []
or_empty (some m) = m

abbrev is_nil : Option (Map RunConfigTask) → Bool
is_nil none = true
is_nil (some m) = false

-- `text` is the method Error of an error.
module _ (text : Error → String) where
  abbrev add_error : Result (Unit {0}) → List String → Result (List String)
  add_error (ok _) errors = ok errors
  add_error (err e) errors = ok (errors ++ text e ∷ [])
  add_error panicked errors = panicked

  -- The tasks with their levels, which are set also if GenTasksLevels fails, and the errors.
  unfoldable pub gen_levels :
      Map RunConfigTask → List String → Result (Map RunConfigTask × List String)
  gen_levels rcts errors = elim (no_errors errors) [
    | false ↦ ok (rcts, errors)
    | true ↦ elim (gen_tasks_levels rcts) [
      | none ↦ panicked
      | some (rcts', e) ↦ do errors' ← add_error e errors; ok (rcts', errors')
    ]
  ]

  -- `rc_id` and `run_id` are fresh.
  unfoldable pub new_run_bundle : String → String → RunCreateRequest → Result RunBundle
  unfolding gen_levels
  new_run_bundle rc_id run_id req = do
    guard (not (req.group == "")) (Error.bad_request "run group is empty")
    guard (is_abs req.group) (Error.bad_request req.group)
    guard (not (is_nil req.run_config_tasks && no_errors req.setup_errors))
        (Error.bad_request "empty run config tasks and setup errors")
    errors ← add_error (check_run_config_tasks (or_empty req.run_config_tasks)) req.setup_errors
    o ← gen_levels (or_empty req.run_config_tasks) errors
    let rc : RunConfig = record {
      meta = new_meta rc_id;
      name = req.name;
      group = req.group;
      setup_errors = o.1;
      annotations = req.annotations;
      static_environment = req.static_environment;
      environment = req.environment;
      tasks = o.0;
      cache_group = req.cache_group;
    }
    ok (record { run = gen_run run_id rc; rc = rc })

-- The first group below the root. A path list that does not end is no case of the code.
abbrev second_name : String → Option (List String) → Result String
second_name group none = panicked
second_name group (some []) = err (Error.bad_group group)
second_name group (some (name ∷ [])) = err (Error.bad_group group)
second_name group (some (name ∷ name' ∷ names)) = ok name'

unfoldable pub get_run_counter_group_id : String → Result String
unfolding path_list
get_run_counter_group_id group = second_name group (path_list group)
