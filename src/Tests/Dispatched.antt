-- ===== src/Tests/Dispatched.antt =====
-- The scheduler service on a database with two queued runs of a group.
use Prim.Native.String.{◌++◌ as ◌<>◌}
use agola.Prelude.{
  ℕ, length, String, ◌==◌, eq_iff, ◌≡◌, refl, sym, subst, Bool, true, false, [], ◌∷◌, List, Option,
  none, some, lookup, has_key, insert, Memᴰ, ok, arith, ◌≤◌,
}
use agola.Types.{
  Run, RunTask, RunTaskStep, RunTaskStatus, RunTaskFetchPhase, ExecutorTaskPhase, RunPhase,
}
use agola.Store.Tables.{insert-IsTable}
use agola.Store.Db.{Db}
use agola.Api.Queries.{get_runs, order_by, take, with_slash}
use agola.Store.Tokens.{get_change_groups_update_tokens, add_missing_groups}
use agola.Store.Transactions.{gen_change_groups_values}
use agola.Api.Handlers.{Number, RunsQuery, max_runs_limit, runs_handler, read_limit, read_start}
use agola.Api.Limit.{runs_handler-bound}
use agola.Dispatch.Schedule.{StartIds, all_queued_runs}
use agola.Dispatch.Start.{NoneRunning}
use agola.Dispatch.Fifo.{RunTable, Scheduled, schedule_run-Scheduled, scheduled_db}
use agola.Dispatch.Liveness.{StartsNext, schedule_run-StartsNext}
use agola.Dispatch.Pages.{queue, all_queued_runs-whole}
use agola.Dispatch.OneApproval.{AtMostOne, approve_tasks-AtMostOne, approved_db}
use agola.Tests.Stored.{stored, stored_run}
use agola.Tests.Tokens.{groups_kept, same_text, drawn, group_c, token_c}

-- LIKE for a pattern that ends in its only wildcard, on texts that are equal up to it.
abbrev exactly : String → String → Bool
exactly pattern text = pattern == (text <> "%")

abbrev run_of : String → ℕ → Run
run_of id sequence = record stored_run {
  meta = record stored_run.meta { id = id };
  group = "/g";
  sequence = sequence;
}

abbrev two_queued : Db
two_queued = record (stored stored_run) {
  runs = ("r2", run_of "r2" 2) ∷ ("r1", run_of "r1" 1) ∷ [];
  change_groups = ("g1", group_c) ∷ [];
}

two_queued-queue : queue exactly two_queued ≡ run_of "r1" 1 ∷ run_of "r2" 2 ∷ []
unfolding get_runs order_by
two_queued-queue = refl

all_queued_runs-whole_example :
    all_queued_runs exactly 7 same_text same_text 3 0 two_queued
    ≡ some (ok (queue exactly two_queued))
unfolding get_runs order_by
all_queued_runs-whole_example =
    all_queued_runs-whole exactly 7 same_text same_text two_queued
      (
        λ s i. elim i [
          | Memᴰ.head q ↦ subst (λ (x : Run). ¬ (2 ≡ x.sequence)) (sym q) (λ e. omega (arith, e))
          | Memᴰ.tail j ↦ elim j [ ]
        ],
        (λ s i. elim i [ ], tt),
      )
      (λ r i. elim i [
        | Memᴰ.head q ↦ subst (λ (x : Run). 1 ≤ x.sequence) (sym q) (omega arith)
        | Memᴰ.tail (Memᴰ.head q) ↦ subst (λ (x : Run). 1 ≤ x.sequence) (sym q) (omega arith)
        | Memᴰ.tail (Memᴰ.tail j) ↦ elim j [ ]
      ])
      3 (omega arith)

abbrev start_ids : String → StartIds
start_ids id = record { event_id = "ev-" <> id; seq_id = "seq" }

runs_kept : RunTable two_queued.runs
unfolding insert lookup
runs_kept =
    insert-IsTable (λ (r : Run). r.meta) "r1" (run_of "r1" 1) (("r2", run_of "r2" 2) ∷ []) refl
      (omega arith)
      (insert-IsTable (λ (r : Run). r.meta) "r2" (run_of "r2" 2) [] refl (omega arith)
        (tt, λ k r h. ground arith))

schedule_run-Scheduled_example :
    Scheduled exactly "/g" 7 same_text same_text same_text drawn start_ids two_queued
      (scheduled_db exactly "/g" 7 same_text same_text same_text drawn start_ids two_queued)
schedule_run-Scheduled_example =
    schedule_run-Scheduled exactly "/g" 7 same_text same_text same_text drawn start_ids two_queued
      runs_kept

none_running : NoneRunning exactly "/g" two_queued
none_running s i g h = elim i [
  | Memᴰ.head q ↦ ground (arith, subst (λ (x : Run). x.phase ≡ RunPhase.running) q h)
  | Memᴰ.tail (Memᴰ.head q) ↦ ground (arith, subst (λ (x : Run). x.phase ≡ RunPhase.running) q h)
  | Memᴰ.tail (Memᴰ.tail j) ↦ elim j [ ]
]

schedule_run-StartsNext_example :
    StartsNext exactly "/g" 7 same_text same_text same_text drawn start_ids two_queued
unfolding lookup with_slash
schedule_run-StartsNext_example =
    schedule_run-StartsNext exactly "/g" 7 same_text same_text same_text drawn start_ids two_queued
      (run_of "r1" 1) runs_kept groups_kept (λ n m e. e) refl (λ id. refl)
      (Memᴰ.tail (Memᴰ.head refl)) refl refl none_running

-- A run with two tasks that wait for an approval which they have.
abbrev no_step : RunTaskStep
no_step = record {
  phase = ExecutorTaskPhase.not_started;
  log_phase = RunTaskFetchPhase.not_started;
  exit_status = none;
  start_time = none;
  end_time = none;
}

abbrev waiting_task : String → RunTask
waiting_task id = record {
  id = id;
  status = RunTaskStatus.not_started;
  annotations = ("approvers", "user01") ∷ [];
  skip = false;
  waiting_approval = true;
  approved = false;
  setup_step = no_step;
  steps = [];
  workspace_archives = [];
  workspace_archives_phase = [];
  start_time = none;
  end_time = none;
}

abbrev waiting_run : Run
waiting_run = record stored_run {
  phase = RunPhase.running;
  tasks = ("t1", waiting_task "t1") ∷ ("t2", waiting_task "t2") ∷ [];
}

abbrev waiting_db : Db
waiting_db = record (stored waiting_run) { change_groups = ("g1", group_c) ∷ [] }

abbrev one_approver : String → Option (List String)
one_approver text = some (text ∷ [])

approve_tasks-AtMostOne_example :
    AtMostOne 9 drawn token_c one_approver waiting_run waiting_db
      (approved_db 9 drawn token_c one_approver waiting_run ("t1" ∷ "t2" ∷ []) waiting_db)
unfolding lookup has_key
approve_tasks-AtMostOne_example =
    approve_tasks-AtMostOne 9 drawn token_c one_approver waiting_run "c" "v" ("t1" ∷ "t2" ∷ [])
      waiting_db groups_kept refl refl (λ id h. ground (arith, (eq_iff "drawn" "v").1 h))

-- A request for one run of the two.
abbrev one_run : RunsQuery
one_run = record {
  phases = [];
  results = [];
  change_groups = [];
  groups = "/g" ∷ [];
  limit = some (Number.number 1);
  asc = true;
  start = none;
}

runs_handler-bound_example : length (run_of "r1" 1 ∷ []) ≤ max_runs_limit
unfolding runs_handler read_limit read_start get_runs order_by take with_slash
    get_change_groups_update_tokens add_missing_groups gen_change_groups_values
runs_handler-bound_example =
    runs_handler-bound exactly 7 same_text same_text one_run two_queued
      (record {
        runs = run_of "r1" 1 ∷ [];
        change_groups_update_token = record { change_groups_values = [] };
      })
      (λ e. ground arith) refl
