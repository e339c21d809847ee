-- ===== src/Api/Handlers.antt =====
-- The handlers of internal/services/runservice/api/api.go for runs and tokens: a request is what the
-- packages net/url, mux and strconv make of it, and an answer is the error that is sent, or the
-- object whose JSON is sent. The database stays as it is where a transaction fails.
use agola.Prelude.{
  ℕ, String, Bool, List, Option, none, some, ltb, Result, ok, err, panicked, ◌>>=◌, or_err, Error,
  if◌then◌else◌, Map,
}
use agola.Types.{Run, RunConfig, RunPhase, RunResult, ChangeGroupsUpdateToken}
use agola.Store.Db.{Db, get_run, get_run_config}
use agola.Store.Tokens.{get_change_groups_update_tokens}
use agola.Store.Transactions.{
  change_run_phase_action, stop_run_action, run_task_set_annotations, approve_run_task,
}
use agola.Api.Queries.{get_runs, get_group_runs, get_run_by_group}

-- What Atoi or ParseUint make of a text.
pub data Number : Type 0 where
  no_number : Number
  negative : Number
  number : ℕ → Number

abbrev pub default_runs_limit : ℕ
default_runs_limit = 25

abbrev pub max_runs_limit : ℕ
max_runs_limit = 40

-- The `limit` of a request, which may be missing.
unfoldable pub read_limit : Option Number → Result ℕ
read_limit none = ok default_runs_limit
read_limit (some Number.no_number) = err (Error.bad_request "")
read_limit (some Number.negative) = err (Error.bad_request "limit must be greater or equal than 0")
read_limit (some (Number.number n)) = if ltb max_runs_limit n then ok max_runs_limit else ok n

-- The `start` of a request: ParseUint takes no sign.
unfoldable pub read_start : Option Number → Result ℕ
read_start none = ok 0
read_start (some Number.no_number) = err (Error.bad_request "cannot parse run sequence")
read_start (some Number.negative) = err (Error.bad_request "cannot parse run sequence")
read_start (some (Number.number n)) = ok n

-- The query of a request, which is without `lastrun`. Each phase and result is one that there is.
pub record RunsQuery : Type 0 where
  pub phases : List RunPhase
  pub results : List RunResult
  pub change_groups : List String
  pub groups : List String
  pub limit : Option Number
  pub asc : Bool
  pub start : Option Number

pub record RunsResponse : Type 0 where
  pub runs : List Run
  pub change_groups_update_token : ChangeGroupsUpdateToken

pub record RunResponse : Type 0 where
  pub run : Run
  pub run_config : RunConfig
  pub change_groups_update_token : ChangeGroupsUpdateToken

-- The database afterwards and the answer.
abbrev pub Answer : Type 0 → Type 0
Answer A = Db × Result A

-- The answer when a transaction has been done on `db`.
abbrev pub answer_of : {A B : Type 0} → Db → Result (Db × A) → (A → Result B) → Answer B
answer_of db panicked f = (db, panicked)
answer_of db (err e) f = (db, err e)
answer_of db (ok (db', a)) f = (db', f a)

-- The end of an action.
abbrev pub action_answer : Db → Result Db → Answer (Unit {0})
action_answer db panicked = (db, panicked)
action_answer db (err e) = (db, err e)
action_answer db (ok db') = (db', ok tt)

module _ (like : String → String → Bool) (now : ℕ) (new_id new_value : String → String) where
  -- ChangeGroupsUpdateTokensHandler
  unfoldable pub change_groups_update_tokens_handler :
      List String → Db → Answer ChangeGroupsUpdateToken
  change_groups_update_tokens_handler groups db =
      answer_of db (get_change_groups_update_tokens now new_id new_value groups db) (λ t. ok t)

  -- The transaction of the two handlers for one run: a run that is not there ends it, and a missing
  -- run config does not.
  unfoldable pub read_bundle :
      List String
      → Option Run
      → Db
      → Result (Db × (Option (Run × Option RunConfig × ChangeGroupsUpdateToken)))
  read_bundle change_groups none db = ok (db, none)
  read_bundle change_groups (some r) db = do
    (db', t) ← get_change_groups_update_tokens now new_id new_value change_groups db
    ok (db', some (r, get_run_config r.run_config_id db, t))

  -- RunHandler
  unfoldable pub run_handler : String → List String → Db → Answer RunResponse
  unfolding read_bundle
  run_handler run_ref change_groups db =
      answer_of db (read_bundle change_groups (get_run run_ref db) db) (λ o. elim o [
        | none ↦ err (Error.not_exist run_ref)
        | some (r, none, t) ↦ err (Error.not_exist run_ref)
        | some (r, some rc, t) ↦
            ok (record { run = r; run_config = rc; change_groups_update_token = t })
      ])

  -- RunByGroupHandler for a run counter that is not empty. After the error for a missing run it goes
  -- on, and takes the id of the run that is nil for the next error.
  unfoldable pub run_by_group_handler :
      Option String → Number → List String → Db → Answer RunResponse
  unfolding read_bundle
  run_by_group_handler none counter change_groups db =
      (db, err (Error.bad_request "group is empty"))
  run_by_group_handler (some group) Number.no_number change_groups db =
      (db, err (Error.bad_request "cannot parse runcounter"))
  run_by_group_handler (some group) Number.negative change_groups db =
      (db, err (Error.bad_request "cannot parse runcounter"))
  run_by_group_handler (some group) (Number.number counter) change_groups db =
      answer_of db (do o ← get_run_by_group like group counter db; read_bundle change_groups o db)
        (λ o. elim o [
          | none ↦ panicked
          | some (r, none, t) ↦ err (Error.not_exist r.id)
          | some (r, some rc, t) ↦
              ok (record { run = r; run_config = rc; change_groups_update_token = t })
        ])

  -- The end of the two handlers for lists of runs.
  abbrev runs_answer : Db → List String → Result (List Run) → Answer RunsResponse
  runs_answer db change_groups runs =
      answer_of db
        (do
          rs ← runs
          (db', t) ← get_change_groups_update_tokens now new_id new_value change_groups db
          ok (db', (rs, t)))
        (λ (rs, t). ok (record { runs = rs; change_groups_update_token = t }))

  -- RunsHandler
  unfoldable pub runs_handler : RunsQuery → Db → Answer RunsResponse
  unfolding read_limit read_start
  runs_handler q db = runs_answer db q.change_groups (do
    limit ← read_limit q.limit
    start ← read_start q.start
    ok (get_runs like q.groups q.phases q.results start limit q.asc db))

  -- RunsByGroupHandler; `group` is what PathUnescape makes of the group of the path, and the groups of
  -- the query are not read.
  unfoldable pub runs_by_group_handler : Option String → RunsQuery → Db → Answer RunsResponse
  unfolding read_limit read_start
  runs_by_group_handler group q db = runs_answer db q.change_groups (do
    g ← or_err group (Error.bad_request "group is empty")
    limit ← read_limit q.limit
    start ← read_start q.start
    ok (get_group_runs like g q.phases q.results start limit q.asc db))

-- RunActionType
pub data RunAction : Type 0 where
  change_phase : RunPhase → RunAction
  stop : RunAction
  other_action : RunAction

-- RunTaskActionType
pub data RunTaskAction : Type 0 where
  set_annotations : Map String → RunTaskAction
  approve : RunTaskAction
  other_task_action : RunTaskAction

module _ (now : ℕ) (fresh : String → String) (cgt : Option ChangeGroupsUpdateToken) where
  -- RunActionsHandler
  unfoldable pub run_actions_handler : String → String → RunAction → String → Db → Result Db
  unfolding change_run_phase_action stop_run_action
  run_actions_handler event_id seq_id (RunAction.change_phase phase) run_id db =
      change_run_phase_action now fresh cgt event_id seq_id phase run_id db
  run_actions_handler event_id seq_id RunAction.stop run_id db =
      stop_run_action now fresh cgt run_id db
  run_actions_handler event_id seq_id RunAction.other_action run_id db = err (Error.bad_request "")

  -- RunTaskActionsHandler
  unfoldable pub run_task_actions_handler : RunTaskAction → String → String → Db → Result Db
  unfolding run_task_set_annotations approve_run_task
  run_task_actions_handler (RunTaskAction.set_annotations annotations) run_id task_id db =
      run_task_set_annotations now fresh cgt task_id annotations run_id db
  run_task_actions_handler RunTaskAction.approve run_id task_id db =
      approve_run_task now fresh cgt task_id run_id db
  run_task_actions_handler RunTaskAction.other_task_action run_id task_id db =
      err (Error.bad_request "")
