-- ===== src/Tests/Submissions.antt =====
-- An executor task for "test" that is submitted twice, and what its executor gets.
use agola.Store.Reports.{reported_task_stays}
use agola.Store.ExecutorApi.{report_executor_task_status}
use agola.Prelude.{
  ◌==◌, eq_iff, Bool-cases, inl, inr, ap, sym, ◌∙◌, ◌≡◌, refl, false, [], ◌∷◌, none, some, String,
  Result, ok, lookup, insert, has_key, Memᴰ,
}
use agola.Types.{new_meta, Run, RunConfig, RunConfigTask, Executor, ExecutorTask, ExecutorTaskPhase}
use agola.Paths.{path_list, path_list_loop, dir, base, clean, clean_names, split_path, join_path}
use agola.RunConfig.Graph.{
  Ancestor, get_parents, collect_parents, all_parents_loop, get_all_parents?, get_all_parents,
}
use agola.Action.Create.{gen_run_task}
use agola.Action.SpecData.{
  ExecutorTaskSpecData, merge_env, ost_root_group, workspace_operations,
  gen_executor_task_spec_data,
}
use agola.Action.SpecData.Environment.{gen_executor_task_spec_data-environment}
use agola.Action.SpecData.Operations.{ArchiveOf, gen_executor_task_spec_data-operations}
use agola.Store.Rows.{update_row, first_meta}
use agola.Store.Db.{Db, at_most_one, get_executor_task_by_run_task, update_executor_task}
use agola.Store.Scheduling.{submit_run_tasks}
use agola.Store.Submission.{OneEach}
use agola.Store.Submission.Loop.{submit_run_tasks-OneEach}
use agola.Tests.Data.{build_task, test_task, demo_config, report_of, reported_step}
use agola.Tests.Stored.{started_run, stored}

abbrev with_tasks : Run
with_tasks = record started_run {
  group = "/project/p1/branch/master";
  tasks =
      ("build", record (gen_run_task build_task) { workspace_archives = 0 ∷ [] })
      ∷ ("test", gen_run_task test_task)
      ∷ [];
}

abbrev submitted_task : ExecutorTask
submitted_task = report_of "test" ExecutorTaskPhase.not_started

abbrev submitted_db : Db
submitted_db = record (stored with_tasks) {
  executor_tasks = ("test", record submitted_task { meta = first_meta 5 submitted_task.meta }) ∷ [];
}

abbrev free_executor : Executor
free_executor = record {
  meta = new_meta "e1";
  executor_id = "e1";
  listen_url = "";
  archs = "amd64" ∷ [];
  labels = [];
  allow_privileged_containers = false;
  active_tasks_limit = 2;
  active_tasks = 0;
  dynamic = false;
  executor_group = "";
  siblings_executors = [];
}

abbrev send_nothing : Executor → ExecutorTask → Result (Unit {0})
send_nothing e et = ok tt

abbrev id_of : String → String
id_of rt_id = rt_id

abbrev with_executor : Db
with_executor = record (stored with_tasks) { executors = ("e1", free_executor) ∷ [] }

submit_run_tasks-OneEach_example :
    OneEach
      (submit_run_tasks send_nothing 6 id_of reported_step with_tasks demo_config
        (gen_run_task build_task ∷ gen_run_task test_task ∷ [])
        with_executor).0
unfolding get_executor_task_by_run_task at_most_one
submit_run_tasks-OneEach_example =
    submit_run_tasks-OneEach send_nothing 6 id_of reported_step with_tasks demo_config
      (gen_run_task build_task ∷ gen_run_task test_task ∷ []) with_executor
      (λ run_id rt_id. (none, refl))

abbrev config : RunConfig
config = record demo_config {
  static_environment = ("CI", "true") ∷ ("AGOLA_GIT_REF", "refs/heads/master") ∷ [];
  environment = ("CI", "1") ∷ [];
}

abbrev test_spec : ExecutorTaskSpecData
test_spec = record {
  task_name = "test";
  arch = "";
  containers = [];
  environment = ("CI", "1") ∷ ("AGOLA_GIT_REF", "refs/heads/master") ∷ [];
  working_dir = "";
  shell = "";
  user = "";
  workspace_operations = record { task_id = "build"; step = 0 } ∷ [];
  docker_registries_auth = [];
  cache_prefix = "p1";
  steps = test_task.steps;
}

test_spec_is_generated :
    gen_executor_task_spec_data with_tasks (gen_run_task test_task) config ≡ ok (test_spec, config)
unfolding gen_executor_task_spec_data gen_run_task lookup insert merge_env ost_root_group
    workspace_operations get_all_parents get_all_parents? all_parents_loop collect_parents
    get_parents path_list path_list_loop dir base clean clean_names split_path join_path has_key
test_spec_is_generated = refl

gen_executor_task_spec_data-environment_example : lookup "CI" test_spec.environment ≡ some "1"
unfolding lookup has_key gen_run_task
gen_executor_task_spec_data-environment_example =
    gen_executor_task_spec_data-environment with_tasks (gen_run_task test_task) config config
      test_task test_spec "CI" (refl, (refl, tt)) (refl, tt) refl test_spec_is_generated

gen_executor_task_spec_data-operations_example :
    (rct : RunConfigTask) × (lookup "test" config.tasks ≡ some rct)
    × ArchiveOf with_tasks.tasks
        (Ancestor config.tasks rct)
        (record { task_id = "build"; step = 0 })
unfolding gen_run_task
gen_executor_task_spec_data-operations_example =
    gen_executor_task_spec_data-operations with_tasks (gen_run_task test_task) config config
      test_spec (record { task_id = "build"; step = 0 }) test_spec_is_generated (Memᴰ.head refl)

-- The report of "test" as it runs.
abbrev running_db : Db
running_db = record submitted_db {
  executor_tasks =
      (
        "test",
        record submitted_task {
          meta = record submitted_task.meta { revision = 2; creation_time = 5; update_time = 8 };
          status = (report_of "test" ExecutorTaskPhase.running).status;
        },
      )
      ∷ [];
}

submitted_db-keyed :
    (x : ExecutorTask) (j : String) → lookup j submitted_db.executor_tasks ≡ some x → x.id ≡ j
unfolding lookup
submitted_db-keyed x j l = elim (Bool-cases ("test" == j)) [
  | inl hit ↦
      let rows : some (record submitted_task { meta = first_meta 5 submitted_task.meta }) ≡ some x =
        rw hit at l in
      let is : record submitted_task { meta = first_meta 5 submitted_task.meta } ≡ x = cc in
      ap (λ (y : ExecutorTask). y.id) (sym is) ∙ (eq_iff "test" j).0 hit
  | inr miss ↦ let rows : none ≡ some x = rw miss at l in absurd (cc)
]

reported_task_stays_example :
    (before : ExecutorTask) × (lookup "test" submitted_db.executor_tasks ≡ some before)
    × (submitted_task.spec ≡ before.spec)
unfolding report_executor_task_status update_executor_task update_row lookup insert
reported_task_stays_example =
    reported_task_stays 8 (report_of "test" ExecutorTaskPhase.running) submitted_db running_db
      "test" _ submitted_db-keyed refl refl
