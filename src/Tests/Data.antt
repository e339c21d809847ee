-- ===== src/Tests/Data.antt =====
-- A run of three tasks: "build", then "test" if it succeeds, and "report" if "test" fails, which needs
-- approval.
use agola.Prelude.{String, Bool, true, false, [], ◌∷◌, none, Map}
use agola.Types.{
  RunConfig, RunConfigTask, RunConfigTaskDepend, RunConfigTaskDependCondition, Level, Step,
  ExecutorTask, ExecutorTaskPhase, ExecutorTaskStepStatus, new_meta,
}

abbrev pub task : String → Map RunConfigTaskDepend → Bool → RunConfigTask
task id depends approval = record {
  level = Level.unset;
  id = id;
  name = id;
  depends = depends;
  runtime = record { arch = ""; containers = [] };
  environment = [];
  working_dir = "";
  shell = "";
  user = "";
  steps = Step.save_to_workspace (record { name = "save"; contents = [] }) ∷ [];
  ignore_failure = false;
  needs_approval = approval;
  skip = false;
  docker_registries_auth = [];
}

abbrev pub depend : String → RunConfigTaskDependCondition → Map RunConfigTaskDepend
depend id cond = (id, record { task_id = id; conditions = cond ∷ [] }) ∷ []

abbrev pub build_task : RunConfigTask
build_task = task "build" [] false

abbrev pub test_task : RunConfigTask
test_task = task "test" (depend "build" RunConfigTaskDependCondition.on_success) false

abbrev pub report_task : RunConfigTask
report_task = task "report" (depend "test" RunConfigTaskDependCondition.on_failure) true

abbrev pub demo_tasks : Map RunConfigTask
demo_tasks = ("report", report_task) ∷ ("build", build_task) ∷ ("test", test_task) ∷ []

abbrev pub demo_config : RunConfig
demo_config = record {
  meta = new_meta "rc1";
  name = "demo";
  group = "/project/p1/branch/master";
  setup_errors = [];
  annotations = [];
  static_environment = [];
  environment = [];
  tasks = demo_tasks;
  cache_group = "";
}

abbrev pub reported_step : ExecutorTaskStepStatus
reported_step = record {
  phase = ExecutorTaskPhase.success;
  start_time = none;
  end_time = none;
  exit_status = none;
}

abbrev pub report_of : String → ExecutorTaskPhase → ExecutorTask
report_of id phase = record {
  meta = new_meta id;
  spec = record { executor_id = "e1"; run_id = "r1"; run_task_id = id; stop = false };
  status = record {
    id = "";
    phase = phase;
    fail_error = "";
    setup_step = reported_step;
    steps = reported_step ∷ [];
    start_time = none;
    end_time = none;
  };
}
