-- ===== src/Tests/Stored.antt =====
-- A run in the database that two transactions change.
use agola.Prelude.{String, some, ◌≡◌, refl, true, [], ◌∷◌, none, lookup, insert, err, Error}
use agola.Types.{Run, RunPhase, RunResult, new_run}
use agola.Store.Rows.{update_row}
use agola.Store.Db.{Db, update_run}
use agola.Store.Rows.{insert_row}
use agola.Store.Db.{insert_run_event, new_run_event, next_sequence}
use agola.Store.Transactions.{update_change_groups, change_run_phase_action}
use agola.Store.PhaseChange.{PhaseChanged, change_run_phase_action-PhaseChanged}
use agola.Action.Change.{change_run_phase}
use agola.Types.{SequenceType, change_phase}
use agola.Store.Revisions.{update_run_twice}

abbrev pub stored_run : Run
stored_run =
    let r = new_run "r1" RunPhase.queued RunResult.unknown in
    record r { meta = record r.meta { revision = 3 } }

abbrev pub stored : Run → Db
stored r = record {
  runs = ("r1", r) ∷ [];
  run_configs = [];
  executor_tasks = [];
  change_groups = [];
  run_sequence = none;
  run_event_sequence = none;
  run_events = [];
  run_counters = [];
  executors = [];
}

abbrev written_run : Run
written_run = record stored_run { meta = record stored_run.meta { revision = 4; update_time = 7 } }

update_run_twice_example :
    update_run 8 (record stored_run { stop = true }) (stored written_run) ≡ err Error.concurrent
unfolding update_run update_row lookup insert
update_run_twice_example =
    update_run_twice 7 8 stored_run (record stored_run { stop = true }) (stored stored_run)
      (stored written_run) refl refl refl

-- A token of no change groups, and no values to draw.
abbrev pub no_fresh : String → String
no_fresh id = id

abbrev pub started_run : Run
started_run = record stored_run {
  meta = record stored_run.meta { revision = 4; update_time = 7 };
  phase = RunPhase.running;
  start_time = some 7;
}

abbrev started_db : Db
started_db = record (stored started_run) {
  run_event_sequence = some (record {
    meta = record { id = "s1"; creation_time = 7; update_time = 7; revision = 1 };
    value = 1;
    sequence_type = SequenceType.run_event;
  });
  run_events =
      (
        "ev1",
        record {
          meta = record { id = "ev1"; creation_time = 7; update_time = 7; revision = 1 };
          sequence = 1;
          run_id = "r1";
          phase = RunPhase.running;
          result = RunResult.unknown;
        },
      )
      ∷ [];
}

change_run_phase_action-PhaseChanged_example :
    PhaseChanged 7 "ev1" RunPhase.running "r1" (stored stored_run) started_db
unfolding change_run_phase_action update_change_groups change_run_phase change_phase new_run_event
    next_sequence insert_run_event insert_row update_run update_row lookup insert
change_run_phase_action-PhaseChanged_example =
    change_run_phase_action-PhaseChanged 7 no_fresh none "ev1" "s1" RunPhase.running "r1"
      (stored stored_run) started_db refl

abbrev pub stopped_run : Run
stopped_run = record started_run {
  meta = record started_run.meta { revision = 5; update_time = 9 };
  stop = true;
}
