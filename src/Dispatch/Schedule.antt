-- ===== src/Dispatch/Schedule.antt =====
-- schedule and scheduleRun of internal/services/scheduler/scheduler.go.
use Prim.Native.String.{◌++◌ as ◌<>◌}
use agola.Prelude.{
  ℕ, zero, suc, String, Bool, List, [], ◌∷◌, ◌++◌, Option, none, some, Map, insert, keys, Result,
  ok, err, panicked, Error,
}
use agola.Types.{Run, ChangeGroupsUpdateToken}
use agola.Store.Db.{Db}
use agola.Api.Handlers.{RunsResponse, Answer, runs_handler, run_actions_handler}
use agola.Api.Client.{queued_runs, group_running_runs, group_first_queued_runs, start_action}

-- The sequence of the last run of a page.
unfoldable pub last_sequence : Run → List Run → ℕ
last_sequence r [] = r.sequence
last_sequence r (s ∷ rs) = last_sequence s rs

-- The ids that StartRun draws in its transaction.
pub record StartIds : Type 0 where
  pub event_id : String
  pub seq_id : String

-- The change group of a group; `sha` is EncodeSha256Hex.
abbrev pub change_group_of : (String → String) → String → String
change_group_of sha group = sha ("changegroup-" <> group)

module _ (like : String → String → Bool) (now : ℕ) (new_id new_value : String → String) where
  -- The loop of `schedule` over the pages of queued runs: the runs that it has seen. `none` is out of
  -- fuel.
  unfoldable pub all_queued_runs : ℕ → ℕ → Db → Option (Result (List Run))
  unfolding runs_handler queued_runs
  all_queued_runs zero start db = none
  all_queued_runs (suc fuel) start db =
      elim (runs_handler like now new_id new_value (queued_runs start 0 []) db).1 [
        | panicked ↦ some (err Error.no_response)
        | err e ↦ some (err e)
        | ok resp ↦ elim resp.runs [
          | [] ↦ some (ok [])
          | r ∷ rs ↦ elim (all_queued_runs fuel (last_sequence r rs) db) [
            | none ↦ none
            | some panicked ↦ some panicked
            | some (err e) ↦ some (err e)
            | some (ok more) ↦ some (ok (r ∷ rs ++ more))
          ]
        ]
      ]

  -- The set of the groups of the runs.
  unfoldable pub groups_of : List Run → Map (Unit {0}) → Map (Unit {0})
  groups_of [] groups = groups
  groups_of (r ∷ rs) groups = groups_of rs (insert r.group tt groups)

  module _ (sha : String → String) (fresh : String → String) (ids : String → StartIds) where
    -- StartRun, whose error is only logged.
    unfoldable pub start_or_log : ChangeGroupsUpdateToken → Run → Db → Db
    unfolding run_actions_handler
    start_or_log t r db =
        elim (run_actions_handler now fresh (some t) (ids r.id).event_id (ids r.id).seq_id
          start_action r.id db) [ ok db' ↦ db' | err e ↦ db | panicked ↦ db ]

    -- The second half of scheduleRun, for the first queued run.
    abbrev pub start_if_free : Run → Answer RunsResponse → Answer (Unit {0})
    start_if_free r (db, panicked) = (db, err Error.no_response)
    start_if_free r (db, err e) = (db, err e)
    start_if_free r (db, ok resp) = elim resp.runs [
      | [] ↦ (start_or_log resp.change_groups_update_token r db, ok tt)
      | s ∷ ss ↦ (db, ok tt)
    ]

    -- The part of scheduleRun after its first call.
    unfoldable pub start_first : String → Answer RunsResponse → Answer (Unit {0})
    unfolding runs_handler group_running_runs start_or_log
    start_first group (db, panicked) = (db, err Error.no_response)
    start_first group (db, err e) = (db, err e)
    start_first group (db, ok resp) = elim resp.runs [
      | [] ↦ (db, ok tt)
      | r ∷ rs ↦ start_if_free r (
          runs_handler like now new_id new_value
            (group_running_runs group 1 (change_group_of sha group ∷ [])) db)
    ]

    unfoldable pub schedule_run : String → Db → Answer (Unit {0})
    unfolding runs_handler group_first_queued_runs start_first
    schedule_run group db =
        start_first group
          (runs_handler like now new_id new_value (group_first_queued_runs group []) db)

    -- The loop over the groups; an error is only logged.
    unfoldable pub schedule_groups : List String → Db → Db
    unfolding schedule_run
    schedule_groups [] db = db
    schedule_groups (g ∷ gs) db = schedule_groups gs (schedule_run g db).0

    -- schedule: `none` is out of fuel.
    unfoldable pub schedule_queued_runs : ℕ → Db → Option (Answer (Unit {0}))
    unfolding all_queued_runs groups_of schedule_groups
    schedule_queued_runs fuel db = elim (all_queued_runs fuel 0 db) [
      | none ↦ none
      | some panicked ↦ some (db, panicked)
      | some (err e) ↦ some (db, err e)
      | some (ok rs) ↦ some (schedule_groups (keys (groups_of rs [])) db, ok tt)
    ]
