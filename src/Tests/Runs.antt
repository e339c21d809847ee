-- ===== src/Tests/Runs.antt =====
-- Runs of `demo_config`: the scheduler and the life of a run.
use mathlib.Core.List.{Memᴰ}
use agola.Prelude.{
  String, ◌≡◌, refl, [], ◌∷◌, List, map, map_values_m, values, some, lookup, has_key, insert,
  Result, ok, err, panicked, ◌>>=◌, ◌↔◌,
}
use agola.Types.{
  Run, RunTask, RunTaskStatus, RunResult, RunPhase, ExecutorTaskPhase, change_phase,
  archives_fetch_finished, logs_fetch_finished,
}
use agola.RunConfig.Graph.{get_parents, get_parent_depend_conditions}
use agola.Scheduler.Tasks.{
  conds_match, count_matched, parents_of, task_matches_parent_depend_condition, finished_parents,
  is_scheduled, skip_stopped, cancel_root, advance_task, advance_run_tasks, can_run, tasks_to_run,
  get_tasks_to_run,
}
use agola.Scheduler.Runnable.{Runnable, get_tasks_to_run-Runnable}
use agola.Scheduler.Advance.{Pointwise, Advances, advance_run_tasks-Advances}
use agola.Scheduler.Phase.{
  has_failure, fail_run, stop_run, finish_fetch, finish_run, finish_fetches, settle_run,
  advance_run,
}
use agola.Scheduler.Report.{wrong_status, update_steps, report_task, update_run_task_status}
use agola.Action.Create.{new_step, archive_steps, gen_run_task, gen_run_tasks, gen_run}
use agola.Action.Change.{change_run_phase}
use agola.Action.Fetch.{finish_archive, finish_archive_phase}
use agola.Lifecycle.Steps.{schedule, changed, reported, archive_fetched, Reachable, created, step}
use agola.Lifecycle.Status.{Forward}
use agola.Lifecycle.Invariant.{Advanced, advance_run-Advanced}
use agola.Lifecycle.Reach.{
  Inv, Reachable-Inv, RunStep-Forward, RunSteps, here, more, finished_task_stays,
}
use agola.Tests.Data.{build_task, test_task, demo_config, report_of}

-- Opens the code that the tests run.
run_all : Unit {0}
unfolding change_phase archives_fetch_finished logs_fetch_finished get_parents
    get_parent_depend_conditions conds_match count_matched parents_of
    task_matches_parent_depend_condition finished_parents is_scheduled skip_stopped cancel_root
    advance_task advance_run_tasks can_run tasks_to_run get_tasks_to_run has_failure fail_run
    stop_run finish_fetch finish_run finish_fetches settle_run advance_run wrong_status update_steps
    report_task update_run_task_status archive_steps gen_run_task gen_run_tasks gen_run
    change_run_phase schedule lookup has_key insert map_values_m finish_archive finish_archive_phase
run_all = tt

-- The run of a result that is known to be `ok`.
run_of : Result Run → Run
run_of (ok r) = r
run_of (err e) = gen_run "" demo_config
run_of panicked = gen_run "" demo_config

created_run : Run
created_run = gen_run "r1" demo_config

started : Run
unfolding run_of created_run
started = run_of (change_run_phase 5 RunPhase.running created_run)

-- The executor reports that "build" has succeeded, and its archive is fetched.
built : Run
unfolding run_of started
built = run_of (update_run_task_status (report_of "build" ExecutorTaskPhase.success) started)

fetched : Run
unfolding run_of built
fetched = run_of (finish_archive_phase "build" 0 built)

ids : Result (List RunTask) → Result (List String)
ids ts = do l ← ts; ok (map (λ (t : RunTask). t.id) l)

first_tasks : ids (get_tasks_to_run started demo_config) ≡ ok ("build" ∷ [])
unfolding ids started run_all
first_tasks = refl

-- "test" waits until the archive of "build" is fetched.
no_tasks : ids (get_tasks_to_run built demo_config) ≡ ok []
unfolding ids built run_all
no_tasks = refl

second_tasks : ids (get_tasks_to_run fetched demo_config) ≡ ok ("test" ∷ [])
unfolding ids fetched run_all
second_tasks = refl

started-Reachable : Reachable "r1" demo_config started
unfolding started run_all
started-Reachable = step created (changed 5 RunPhase.running refl)

built-Reachable : Reachable "r1" demo_config built
unfolding built run_all
built-Reachable =
    step started-Reachable (reported (report_of "build" ExecutorTaskPhase.success) refl)

Reachable-Inv_example : Inv built
Reachable-Inv_example = Reachable-Inv built-Reachable

-- The task of "build" once it is reported.
built_task : RunTask
unfolding run_of
built_task = record (gen_run_task build_task) {
  status = RunTaskStatus.success;
  setup_step = record new_step { phase = ExecutorTaskPhase.success };
  steps = record new_step { phase = ExecutorTaskPhase.success } ∷ [];
}

built_steps : RunSteps demo_config built fetched
unfolding fetched built run_all
built_steps = more here (archive_fetched "build" 0 refl)

finished_task_stays_example :
    (rt' : RunTask) × (lookup "build" fetched.tasks ≡ some rt') × (rt'.status ≡ built_task.status)
unfolding built built_task run_all
finished_task_stays_example = finished_task_stays "build" built_task built_steps refl refl

RunStep-Forward_example : Forward started.tasks built.tasks
unfolding built run_all
RunStep-Forward_example =
    RunStep-Forward {rc = demo_config} {r = started}
      (reported (report_of "build" ExecutorTaskPhase.success) refl)

-- "test" fails, and its archive is fetched; "report" is held for its approval.
failed : Run
unfolding run_of fetched
failed = run_of (
    update_run_task_status (report_of "test" ExecutorTaskPhase.failed) fetched
    >>= finish_archive_phase "test" 0)

held_run : Run
unfolding run_of failed
held_run = run_of (advance_run_tasks failed demo_config [])

advance_run_tasks-Advances_example :
    (held_run ≡ record failed { tasks = held_run.tasks })
    × Pointwise (Advances failed demo_config []) failed.tasks held_run.tasks
unfolding held_run run_all
advance_run_tasks-Advances_example = advance_run_tasks-Advances failed demo_config [] held_run refl

advance_run-Advanced_example : Advanced failed (record failed { result = RunResult.failed }) []
unfolding failed run_all
advance_run-Advanced_example = advance_run-Advanced 9 failed demo_config [] _ refl

test_task_run : RunTask
test_task_run = gen_run_task test_task

get_tasks_to_run-Runnable_example :
    Memᴰ test_task_run (test_task_run ∷ [])
    ↔ (Memᴰ test_task_run (values fetched.tasks) × Runnable fetched demo_config test_task_run)
unfolding fetched test_task_run run_all
get_tasks_to_run-Runnable_example =
    get_tasks_to_run-Runnable fetched demo_config (test_task_run ∷ []) refl test_task_run
