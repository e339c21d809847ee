-- ===== src/Store/Creation.antt =====
-- CreateRun, the method recreateRun and saveRun of internal/services/runservice/action/action.go.
use agola.Prelude.{
  ℕ, suc, String, ◌==◌, Bool, Option, none, some, values, insert, filter, Result, ok, err, or_err,
  ◌>>=◌, ◌>>◌, Error, if◌then◌else◌,
}
use agola.Types.{
  Run, RunCounter, SequenceType, NoRestart, ChangeGroupsUpdateToken, new_meta,
  can_restart_from_scratch, can_restart_from_failed_tasks,
}
use agola.Action.Request.{RunCreateRequest, RunBundle, new_run_bundle, get_run_counter_group_id}
use agola.Action.Recreate.{recreate_run}
use agola.Store.Db.{
  Db, at_most_one, get_run, get_run_config, next_sequence, new_run_event, insert_run,
  insert_run_config, insert_run_event,
}
use agola.Store.Transactions.{update_change_groups}

unfoldable pub get_run_counter : String → Db → Result (Option RunCounter)
unfolding at_most_one
get_run_counter group_id db =
    at_most_one (filter (λ c. c.group_id == group_id) (values db.run_counters))

-- A counter that is not there yet starts at 0; `id` is the fresh id for it.
abbrev pub or_new_counter : ℕ → String → String → Option RunCounter → RunCounter
or_new_counter now id group_id (some c) = c
or_new_counter now id group_id none = record {
  meta = record (new_meta id) { creation_time = now };
  group_id = group_id;
  value = 0;
}

-- NextRunCounter. As for the sequences, the row was read in the same transaction.
unfoldable pub next_run_counter : ℕ → String → String → Db → Result (Db × ℕ)
unfolding get_run_counter
next_run_counter now id group_id db = do
  o ← get_run_counter group_id db
  let c : RunCounter = or_new_counter now id group_id o
  ok (
    record db {
      run_counters =
          insert c.id
            (record c {
              meta = record c.meta { revision = suc c.meta.revision; update_time = now };
              value = suc c.value;
            })
            db.run_counters;
    },
    suc c.value,
  )

-- The fresh ids that a transaction draws.
pub record FreshIds : Type 0 where
  pub event_id : String
  pub sequence_id : String
  pub event_sequence_id : String
  pub counter_id : String

module _ (now : ℕ) (fresh : String → String) (ids : FreshIds) where
  -- The run as saveRun inserts it.
  abbrev pub numbered : ℕ → ℕ → Run → Run
  numbered sequence counter r = record r {
    enqueue_time = some now;
    sequence = sequence;
    counter = counter;
  }

  unfoldable pub save_run : Option ChangeGroupsUpdateToken → RunBundle → Db → Result Db
  save_run cgt rb db = do
    group_id ← get_run_counter_group_id rb.run.group
    db₁ ← update_change_groups now fresh cgt db
    let s : Db × ℕ = next_sequence now ids.sequence_id SequenceType.run db₁
    c ← next_run_counter now ids.counter_id group_id s.0
    let r : Run = numbered s.1 c.1 rb.run
    let e = new_run_event now ids.event_id ids.event_sequence_id r.id r.phase r.result c.0
    db₃ ← insert_run now r e.0
    db₄ ← insert_run_config now rb.rc db₃
    insert_run_event now e.1 db₄

abbrev pub no_restart : Option NoRestart → Result (Unit {0})
no_restart none = ok tt
no_restart (some reason) = err (Error.bad_request "run cannot be restarted")

unfoldable pub restart_reason : Bool → Run → Option NoRestart
restart_reason from_start r =
    if from_start then can_restart_from_scratch r else can_restart_from_failed_tasks r

-- The method recreateRun: it reads the run and its config in one transaction.
unfoldable pub recreate_run_of :
    (String → String) → String → String → RunCreateRequest → Db → Result RunBundle
unfolding restart_reason
recreate_run_of fresh run_id rc_id req db = do
  r ← or_err (get_run req.run_id db) (Error.bad_request req.run_id)
  rc ← or_err (get_run_config r.run_config_id db) (Error.bad_request r.run_config_id)
  no_restart (restart_reason req.from_start r)
  o ← recreate_run fresh run_id rc_id req.from_start req.environment r rc
  ok (record { run = o.0; rc = o.1 })

unfoldable pub create_run :
    (Error → String)
    → ℕ
    → (String → String)
    → FreshIds
    → String
    → String
    → Option ChangeGroupsUpdateToken
    → RunCreateRequest
    → Db
    → Result Db
create_run text now fresh ids run_id rc_id cgt req db = do
  rb ←
      if req.run_id == ""
      then new_run_bundle text rc_id run_id req
      else recreate_run_of fresh run_id rc_id req db
  save_run now fresh ids cgt rb db
