-- ===== src/Store/Transactions.antt =====
-- The transactions on a run. An error leaves the database as it is, since `Do` of internal/sql/db.go
-- rolls the transaction back. `Do` repeats, after some errors, the function that it is given with the
-- variables that this has captured; each transaction here reads anew all that it changes, so that a
-- repeat is a new run of it. Those that do not are in Attempts and Scheduling.
use agola.Prelude.{
  ℕ, String, ◌==◌, Bool, false, ◌&&◌, List, [], ◌∷◌, Option, none, some, Map, lookup, insert,
  values, has_key, filter, all, eqb, length, Result, ok, guard, or_err, ◌>>=◌, ◌>>◌, Error,
}
use agola.Types.{Run, RunPhase, ChangeGroup, ChangeGroupsUpdateToken}
use agola.Scheduler.Report.{update_run_task_status}
use agola.Action.Change.{change_run_phase, stop_running, set_annotations, approve_task}
use agola.Action.Fetch.{
  finish_setup_log_phase, finish_step_log_phase, finish_archive_phase, archive_run,
}
use agola.Store.Rows.{insert_or_update_row}
use agola.Store.Db.{Db, get_run, get_executor_task, update_run, insert_run_event, new_run_event}

-- genChangeGroupsUpdateTokens
unfoldable pub gen_change_groups_values : List ChangeGroup → Map String → Map String
gen_change_groups_values [] m = m
gen_change_groups_values (g ∷ gs) m = gen_change_groups_values gs (insert g.name g.value m)

abbrev pub has_value : Map String → String × String → Bool
has_value m e = elim (lookup e.0 m) [ none ↦ false | some v ↦ v == e.1 ]

-- `reflect.DeepEqual` of two maps that are not nil and have each key once.
abbrev pub same_values : Map String → Map String → Bool
same_values m n = eqb (length m) (length n) && all (has_value n) m

-- GetChangeGroupsByNames with the names of the token.
abbrev pub get_change_groups_of : ChangeGroupsUpdateToken → Db → List ChangeGroup
get_change_groups_of t db =
    filter (λ g. has_key g.name t.change_groups_values) (values db.change_groups)

-- The loop that gives each group a new value; `fresh` draws one for an id.
unfoldable pub renew_change_groups :
    ℕ → (String → String) → List ChangeGroup → Map ChangeGroup → Result (Map ChangeGroup)
renew_change_groups now fresh [] rows = ok rows
renew_change_groups now fresh (g ∷ gs) rows = do
  rows' ←
      insert_or_update_row (λ (g : ChangeGroup). g.meta) (λ g m. record g { meta = m }) now
        (record g { value = fresh g.id }) rows
  renew_change_groups now fresh gs rows'

unfoldable pub update_change_groups :
    ℕ → (String → String) → Option ChangeGroupsUpdateToken → Db → Result Db
update_change_groups now fresh none db = ok db
update_change_groups now fresh (some t) db = do
  guard
      (same_values t.change_groups_values (gen_change_groups_values (get_change_groups_of t db) []))
      (Error.bad_request "concurrent update")
  rows ← renew_change_groups now fresh (get_change_groups_of t db) db.change_groups
  ok (record db { change_groups = rows })

module _ (now : ℕ) (fresh : String → String) (cgt : Option ChangeGroupsUpdateToken) where
  -- The transaction of StopRun, RunTaskSetAnnotations and ApproveRunTask around their part `f`.
  unfoldable pub act_on_run : (Run → Result Run) → String → Db → Result Db
  act_on_run f run_id db = do
    r ← or_err (get_run run_id db) (Error.not_exist run_id)
    db₁ ← update_change_groups now fresh cgt db
    r' ← f r
    update_run now r' db₁

  unfoldable pub stop_run_action : String → Db → Result Db
  stop_run_action = act_on_run stop_running

  unfoldable pub run_task_set_annotations : String → Map String → String → Db → Result Db
  run_task_set_annotations task_id annotations = act_on_run (set_annotations task_id annotations)

  unfoldable pub approve_run_task : String → String → Db → Result Db
  approve_run_task task_id = act_on_run (approve_task task_id)

  -- ChangeRunPhase; `event_id` and `seq_id` are fresh ids.
  unfoldable pub change_run_phase_action : String → String → RunPhase → String → Db → Result Db
  change_run_phase_action event_id seq_id phase run_id db = do
    r ← or_err (get_run run_id db) (Error.not_exist run_id)
    db₁ ← update_change_groups now fresh cgt db
    r' ← change_run_phase now phase r
    let (db₂, event) = new_run_event now event_id seq_id r'.id r'.phase r'.result db₁ in
        do db₃ ← update_run now r' db₂; insert_run_event now event db₃

module _ (now : ℕ) where
  -- The transaction of the fetchers: a run that is gone is no error.
  unfoldable pub finish_on_run : (Run → Result Run) → String → Db → Result Db
  finish_on_run f run_id db = elim (get_run run_id db) [
    | none ↦ ok db
    | some r ↦ do r' ← f r; update_run now r' db
  ]

  unfoldable pub finish_setup_log : String → String → Db → Result Db
  finish_setup_log run_id task_id = finish_on_run (finish_setup_log_phase task_id) run_id

  unfoldable pub finish_step_log : String → String → ℕ → Db → Result Db
  finish_step_log run_id task_id stepnum =
      finish_on_run (finish_step_log_phase task_id stepnum) run_id

  unfoldable pub finish_archive_of : String → String → ℕ → Db → Result Db
  finish_archive_of run_id task_id stepnum =
      finish_on_run (finish_archive_phase task_id stepnum) run_id

  unfoldable pub finished_run_archiver : String → Db → Result Db
  finished_run_archiver run_id db = do
    r ← or_err (get_run run_id db) (Error.not_exist run_id)
    elim (archive_run r) [ none ↦ ok db | some r' ↦ update_run now r' db ]

  -- The transaction of handleExecutorTaskUpdate.
  unfoldable pub handle_executor_task_update : String → Db → Result Db
  handle_executor_task_update et_id db = do
    et ← or_err (get_executor_task et_id db) (Error.not_exist et_id)
    r ← or_err (get_run et.spec.run_id db) (Error.not_exist et.spec.run_id)
    r' ← update_run_task_status et r
    update_run now r' db
