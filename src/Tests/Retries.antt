-- ===== src/Tests/Retries.antt =====
-- A scheduler whose second transaction on a run is repeated after a StopRun: the stop is lost.
use agola.Prelude.{◌≡◌, refl, some, true, false, [], ◌∷◌, lookup, insert, ok, map_values_m}
use agola.Types.{Run, RunPhase, RunResult, SequenceType}
use agola.Scheduler.Tasks.{advance_run_tasks}
use agola.Store.Rows.{insert_row, update_row}
use agola.Store.Db.{Db, update_run, insert_run_event, new_run_event, next_sequence}
use agola.Store.Attempts.{
  Captured, FailedAt, store_event, stop_all, advance_captured, stopped_some, run_attempt,
  after_failure,
}
use agola.System.Retries.{repeated_attempt_overwrites}
use agola.Tests.Stored.{started_run, stopped_run, stored}
use agola.Tests.Systems.{empty_config, succeeded}

abbrev first_attempt : Captured
first_attempt = record {
  prev = started_run;
  run = succeeded;
  rc = empty_config;
  ets = [];
  to_send = [];
}

abbrev second_attempt : Captured
second_attempt = record first_attempt {
  run = record succeeded { meta = record succeeded.meta { revision = 5; update_time = 10 } };
}

abbrev overwritten_run : Run
overwritten_run = record succeeded {
  meta = record succeeded.meta { revision = 6; update_time = 11 };
}

abbrev overwritten_db : Db
overwritten_db = record (stored overwritten_run) {
  run_event_sequence = some (record {
    meta = record { id = "s2"; creation_time = 11; update_time = 11; revision = 1 };
    value = 1;
    sequence_type = SequenceType.run_event;
  });
  run_events =
      (
        "ev2",
        record {
          meta = record { id = "ev2"; creation_time = 11; update_time = 11; revision = 1 };
          sequence = 1;
          run_id = "r1";
          phase = RunPhase.running;
          result = RunResult.success;
        },
      )
      ∷ [];
}

first_attempt_fails :
    after_failure 10 FailedAt.later first_attempt (stored started_run) ≡ ok second_attempt
unfolding after_failure stop_all advance_captured stopped_some advance_run_tasks map_values_m
    update_run update_row lookup insert
first_attempt_fails = refl

second_attempt_succeeds :
    run_attempt 11 "ev2" "s2" second_attempt (stored stopped_run)
    ≡ ok (overwritten_db, second_attempt.run, [], true)
unfolding run_attempt stop_all advance_captured advance_run_tasks map_values_m update_run update_row
    store_event new_run_event next_sequence insert_run_event insert_row lookup insert
second_attempt_succeeds = refl

stop_is_lost : (stopped_run.stop ≡ true) × (overwritten_run.stop ≡ false)
stop_is_lost = (refl, refl)

repeated_attempt_overwrites_example :
    (row : Run) × (advance_captured second_attempt ≡ ok second_attempt.run)
    × (lookup "r1" (stored stopped_run).runs ≡ some row)
    × (row.revision ≡ 5)
    × (lookup "r1" overwritten_db.runs ≡ some overwritten_run)
repeated_attempt_overwrites_example =
    repeated_attempt_overwrites 10 11 "ev2" "s2" first_attempt second_attempt (stored started_run)
      (stored stopped_run) overwritten_db second_attempt.run [] true first_attempt_fails
      second_attempt_succeeds
