-- ===== src/Api/Client.antt =====
-- The methods of services/runservice/client/client.go that the scheduler service calls: the request
-- that reaches the handler.
use agola.Prelude.{ℕ, zero, suc, String, Bool, true, false, List, [], ◌∷◌, Option, none, some}
use agola.Types.{RunPhase, RunResult}
use agola.Api.Handlers.{Number, RunsQuery, RunAction}

-- A number is sent if it is greater than 0.
abbrev sent : ℕ → Option Number
sent zero = none
sent (suc n) = some (Number.number (suc n))

-- GetRuns with `lastRun` false.
abbrev pub get_runs_query :
    List RunPhase → List RunResult → List String → List String → ℕ → ℕ → Bool → RunsQuery
get_runs_query phases results groups change_groups start limit asc = record {
  phases = phases;
  results = results;
  change_groups = change_groups;
  groups = groups;
  limit = sent limit;
  asc = asc;
  start = sent start;
}

-- GetQueuedRuns
unfoldable pub queued_runs : ℕ → ℕ → List String → RunsQuery
queued_runs start limit change_groups =
    get_runs_query (RunPhase.queued ∷ []) [] [] change_groups start limit true

-- GetRunningRuns
unfoldable pub running_runs : ℕ → ℕ → List String → RunsQuery
running_runs start limit change_groups =
    get_runs_query (RunPhase.running ∷ []) [] [] change_groups start limit true

-- GetGroupRunningRuns
unfoldable pub group_running_runs : String → ℕ → List String → RunsQuery
group_running_runs group limit change_groups =
    get_runs_query (RunPhase.running ∷ []) [] (group ∷ []) change_groups 0 limit false

-- GetGroupFirstQueuedRuns
unfoldable pub group_first_queued_runs : String → List String → RunsQuery
group_first_queued_runs group change_groups =
    get_runs_query (RunPhase.queued ∷ []) [] (group ∷ []) change_groups 0 1 true

-- StartRun
abbrev pub start_action : RunAction
start_action = RunAction.change_phase RunPhase.running
