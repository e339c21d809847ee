-- ===== src/Action/Create.antt =====
-- genRunTask and genRun of internal/services/runservice/action/action.go, and GenExecutorTask of
-- internal/services/runservice/common/common.go.
use agola.Prelude.{
  ℕ, ◌+◌, String, Bool, true, false, List, [], ◌∷◌, map, none, Map, values, lookup, insert,
  if◌then◌else◌, Result, ok, deref, ◌>>=◌,
}
use agola.Types.{
  Run, RunTask, RunTaskStep, RunPhase, RunResult, RunTaskStatus, RunTaskFetchPhase,
  ExecutorTaskPhase, RunConfig, RunConfigTask, Step, new_run, new_meta, Executor, ExecutorTask,
  ExecutorTaskStepStatus,
}

abbrev pub new_step : RunTaskStep
new_step = record {
  phase = ExecutorTaskPhase.not_started;
  log_phase = RunTaskFetchPhase.not_started;
  exit_status = none;
  start_time = none;
  end_time = none;
}

abbrev is_save_to_workspace : Step → Bool
is_save_to_workspace (Step.save_to_workspace s) = true
is_save_to_workspace _ = false

-- The numbers of the steps that save to the workspace; `i` is the number of the first step.
unfoldable pub archive_steps : ℕ → List Step → List ℕ
archive_steps i [] = []
archive_steps i (s ∷ ss) =
    let rest = archive_steps (i + 1) ss in if is_save_to_workspace s then i ∷ rest else rest

unfoldable pub gen_run_task : RunConfigTask → RunTask
unfolding archive_steps
gen_run_task rct = record {
  id = rct.id;
  status = if rct.skip then RunTaskStatus.skipped else RunTaskStatus.not_started;
  annotations = [];
  skip = rct.skip;
  waiting_approval = false;
  approved = false;
  setup_step = new_step;
  steps = map (λ _. new_step) rct.steps;
  workspace_archives = archive_steps 0 rct.steps;
  workspace_archives_phase = map (λ _. RunTaskFetchPhase.not_started) (archive_steps 0 rct.steps);
  start_time = none;
  end_time = none;
}

-- The loop over the tasks of the run config.
unfoldable pub gen_run_tasks : List RunConfigTask → Map RunTask → Map RunTask
unfolding gen_run_task insert
gen_run_tasks [] m = m
gen_run_tasks (rct ∷ rcts) m = gen_run_tasks rcts (insert rct.id (gen_run_task rct) m)

abbrev pub no_errors : List String → Bool
no_errors [] = true
no_errors (e ∷ es) = false

-- `id` is the fresh id of the run.
unfoldable pub gen_run : String → RunConfig → Run
unfolding gen_run_tasks
gen_run id rc =
    let r = record (new_run id RunPhase.queued RunResult.unknown) {
      run_config_id = rc.id;
      name = rc.name;
      group = rc.group;
      annotations = rc.annotations;
    } in
    if no_errors rc.setup_errors
    then record r { tasks = gen_run_tasks (values rc.tasks) [] }
    else record r { phase = RunPhase.setup_error }

abbrev new_step_status : ExecutorTaskStepStatus
new_step_status = record {
  phase = ExecutorTaskPhase.not_started;
  start_time = none;
  end_time = none;
  exit_status = none;
}

-- `id` is the fresh id of the executor task. Go leaves the phase of the setup step empty: it is
-- `setup` here.
unfoldable pub gen_executor_task :
    String → ExecutorTaskStepStatus → Run → RunTask → RunConfig → Executor → Result ExecutorTask
unfolding lookup
gen_executor_task id setup r rt rc executor = do
  rct ← deref (lookup rt.id rc.tasks)
  ok (record {
    meta = new_meta id;
    spec = record {
      executor_id = executor.executor_id;
      run_id = r.id;
      run_task_id = rt.id;
      stop = false;
    };
    status = record {
      id = "";
      phase = ExecutorTaskPhase.not_started;
      fail_error = "";
      setup_step = setup;
      steps = map (λ _. new_step_status) rct.steps;
      start_time = none;
      end_time = none;
    };
  })
