-- ===== src/Tests/Systems.antt =====
-- A runservice with one run, which a scheduler reads and then writes.
use agola.Prelude.{some, none, refl, true, false, [], ◌∷◌, lookup, insert, Memᴰ, map_values_m}
use agola.Types.{
  Run, RunTask, ExecutorTaskPhase, RunTaskFetchPhase, RunTaskStatus, tasks_waiting_approval,
  RunConfig, RunPhase, RunResult, new_meta, SequenceType,
}
use agola.Scheduler.Tasks.{advance_run_tasks}
use agola.Scheduler.Phase.{
  advance_run, has_failure, fail_run, settle_run, stop_run, finish_run, finish_fetches,
}
use agola.Lifecycle.Progress.{Progress}
use agola.Store.Rows.{insert_row, update_row}
use agola.Store.Db.{Db, update_run, insert_run_event, new_run_event, next_sequence}
use agola.Store.Attempts.{
  FailedAt, after_failure, stopped_some, run_attempt, stop_all, advance_captured, store_event,
}
use agola.Store.Scheduling.{read_run, write_scheduled}
use agola.System.Steps.{
  Failed, attempt_failed, run_retried, Snapshot, System, SystemStep, committed, run_stopped,
  run_read, run_scheduled, SystemSteps, here, more,
}
use agola.Tests.Stored.{started_run, stored, no_fresh}
use agola.Action.Change.{stop_running, clear_waiting}
use agola.Store.Transactions.{stop_run_action, act_on_run, update_change_groups}

abbrev pub empty_config : RunConfig
empty_config = record {
  meta = new_meta "rc1";
  name = "build";
  group = "/project/p1/branch/master";
  setup_errors = [];
  annotations = [];
  static_environment = [];
  environment = [];
  tasks = [];
  cache_group = "";
}

abbrev before : System
before = record {
  db = record (stored started_run) { run_configs = ("", empty_config) ∷ [] };
  reads = [];
  failed = [];
}

abbrev held : Snapshot
held = record { run = started_run; rc = empty_config; ets = [] }

abbrev reading : System
reading = record before { reads = held ∷ [] }

abbrev pub succeeded : Run
succeeded = record started_run { result = RunResult.success }

abbrev succeeded_db : Db
succeeded_db = record before.db {
  runs =
      ("r1", record succeeded { meta = record succeeded.meta { revision = 5; update_time = 10 } })
      ∷ [];
  run_event_sequence = some (record {
    meta = record { id = "s2"; creation_time = 10; update_time = 10; revision = 1 };
    value = 1;
    sequence_type = SequenceType.run_event;
  });
  run_events =
      (
        "ev2",
        record {
          meta = record { id = "ev2"; creation_time = 10; update_time = 10; revision = 1 };
          sequence = 1;
          run_id = "r1";
          phase = RunPhase.running;
          result = RunResult.success;
        },
      )
      ∷ [];
}

abbrev after : System
after = record { db = succeeded_db; reads = held ∷ []; failed = [] }

read_step : SystemStep before reading
unfolding read_run lookup
read_step = run_read "r1" started_run empty_config [] refl refl

write_step : SystemStep reading after
unfolding write_scheduled run_attempt stop_all advance_captured advance_run fail_run settle_run
    stop_run finish_run finish_fetches advance_run_tasks update_run update_row store_event
    new_run_event next_sequence insert_run_event insert_row lookup insert has_failure map_values_m
write_step =
    run_scheduled held 10 "ev2" "s2" succeeded_db succeeded [] true (Memᴰ.head refl) refl refl

both_steps : SystemSteps before after
both_steps = more (more here read_step) write_step

-- The same scheduler, with a first attempt that fails at UpdateRun.
abbrev failed_once : Failed
failed_once = record {
  past_update = false;
  captured = record {
    prev = started_run;
    run = succeeded;
    rc = empty_config;
    ets = [];
    to_send = [];
  };
}

abbrev failing : System
failing = record reading { failed = failed_once ∷ [] }

abbrev repeated : System
repeated = record failing { db = succeeded_db }

fail_step : SystemStep reading failing
unfolding advance_run fail_run settle_run stop_run finish_run finish_fetches has_failure
    after_failure stop_all advance_captured stopped_some advance_run_tasks map_values_m
fail_step =
    attempt_failed held 9 FailedAt.updating succeeded failed_once.captured (Memᴰ.head refl) refl
      refl refl

retry_step : SystemStep failing repeated
unfolding run_attempt stop_all advance_captured advance_run_tasks update_run update_row store_event
    new_run_event next_sequence insert_run_event insert_row lookup insert map_values_m
retry_step =
    run_retried failed_once 10 "ev2" "s2" succeeded_db succeeded [] true (Memᴰ.head refl) refl refl

three_steps : SystemSteps before repeated
three_steps = more (more (more here read_step) fail_step) retry_step

-- A running run with a finished task.
abbrev done_task : RunTask
done_task = record {
  id = "build";
  status = RunTaskStatus.success;
  annotations = [];
  skip = false;
  waiting_approval = false;
  approved = false;
  setup_step = record {
    phase = ExecutorTaskPhase.success;
    log_phase = RunTaskFetchPhase.finished;
    exit_status = none;
    start_time = none;
    end_time = none;
  };
  steps = [];
  workspace_archives = [];
  workspace_archives_phase = [];
  start_time = none;
  end_time = none;
}

abbrev built_run : Run
built_run = record started_run { tasks = ("build", done_task) ∷ [] }

abbrev built_system : Run → System
built_system r = record { db = stored r; reads = []; failed = [] }

abbrev halted_run : Run
halted_run = record built_run {
  meta = record built_run.meta { revision = 5; update_time = 9 };
  stop = true;
}

stop_step : SystemStep (built_system built_run) (built_system halted_run)
unfolding stop_run_action act_on_run update_change_groups stop_running clear_waiting
    tasks_waiting_approval update_run update_row lookup insert
stop_step = committed (stored halted_run) (run_stopped 9 no_fresh none "r1" refl) refl
