-- ===== src/Dispatch/Approve.antt =====
-- approveRunTasks of internal/services/scheduler/scheduler.go.
use Prim.Native.String.{◌++◌ as ◌<>◌}
use agola.Prelude.{
  ℕ, zero, suc, String, Bool, List, [], ◌∷◌, Option, none, some, lookup, ok, err, panicked, Error,
}
use agola.Types.{Run, ChangeGroupsUpdateToken, tasks_waiting_approval}
use agola.Store.Db.{Db}
use agola.Api.Handlers.{Answer, RunTaskAction, runs_handler, run_handler, run_task_actions_handler}
use agola.Api.Client.{running_runs}
use agola.Dispatch.Schedule.{last_sequence}

-- What the loop does with a task that waits; the id that it sends is the field ID of the task.
pub data Approval : Type 0 where
  no_task : Approval
  not_parsed : Approval
  pass_over : Approval
  approve_it : String → Approval

-- A nil map of annotations has no entries; `parse` reads the JSON of a list of texts.
unfoldable pub approval_of : (String → Option (List String)) → Run → String → Approval
approval_of parse r rt_id = elim (lookup rt_id r.tasks) [
  | none ↦ Approval.no_task
  | some rt ↦ elim (lookup "approvers" rt.annotations) [
    | none ↦ Approval.pass_over
    | some text ↦ elim (parse text) [
      | none ↦ Approval.not_parsed
      | some [] ↦ Approval.pass_over
      | some (a ∷ more) ↦ Approval.approve_it rt.id
    ]
  ]
]

-- The rest of the loop, unless the call has failed.
abbrev pub approve_next : Answer (Unit {0}) → (Db → Answer (Unit {0})) → Answer (Unit {0})
approve_next (db, ok u) rest = rest db
approve_next (db, err e) rest = (db, err e)
approve_next (db, panicked) rest = (db, panicked)

module _ (now : ℕ) (fresh : String → String) where
  -- RunTaskActions for one task.
  unfoldable pub approve_one : ChangeGroupsUpdateToken → Run → String → Db → Answer (Unit {0})
  unfolding run_task_actions_handler
  approve_one t r task_id db =
      elim (run_task_actions_handler now fresh (some t) RunTaskAction.approve r.id task_id db) [
        | ok db' ↦ (db', ok tt)
        | err e ↦ (db, err e)
        | panicked ↦ (db, err Error.no_response)
      ]

module _ (now : ℕ) (fresh : String → String) (parse : String → Option (List String)) where
  -- The loop over the tasks that wait.
  unfoldable pub approve_tasks :
      ChangeGroupsUpdateToken → Run → List String → Db → Answer (Unit {0})
  unfolding approval_of approve_one
  approve_tasks t r [] db = (db, ok tt)
  approve_tasks t r (rt_id ∷ rt_ids) db = elim (approval_of parse r rt_id) [
    | Approval.no_task ↦ (db, err (Error.not_exist rt_id))
    | Approval.not_parsed ↦ (db, err Error.not_parsed)
    | Approval.pass_over ↦ approve_tasks t r rt_ids db
    | Approval.approve_it task_id ↦
        approve_next (approve_one now fresh t r task_id db) (approve_tasks t r rt_ids)
  ]

  module _ (like : String → String → Bool) (sha : String → String)
      (new_id new_value : String → String) where
    -- approveRunTasks
    unfoldable pub approve_run_tasks : String → Db → Answer (Unit {0})
    unfolding run_handler approve_tasks
    approve_run_tasks run_id db =
        let (db₁, answer) =
          run_handler like now new_id new_value run_id (sha ("approval-" <> run_id) ∷ []) db in
        elim answer [
          | panicked ↦ (db₁, err Error.no_response)
          | err e ↦ (db₁, err e)
          | ok resp ↦
              approve_tasks resp.change_groups_update_token resp.run
                (tasks_waiting_approval resp.run) db₁
        ]

    -- The inner loop of `approve`, which only logs the errors.
    unfoldable pub approve_runs : List Run → Db → Db
    unfolding approve_run_tasks
    approve_runs [] db = db
    approve_runs (r ∷ rs) db = approve_runs rs (approve_run_tasks r.id db).0

    -- approve: `none` is out of fuel.
    unfoldable pub approve : ℕ → ℕ → Db → Option (Answer (Unit {0}))
    unfolding runs_handler running_runs approve_runs last_sequence
    approve zero start db = none
    approve (suc fuel) start db =
        let (db₁, answer) = runs_handler like now new_id new_value (running_runs start 0 []) db in
        elim answer [
          | panicked ↦ some (db₁, err Error.no_response)
          | err e ↦ some (db₁, err e)
          | ok resp ↦ elim resp.runs [
            | [] ↦ some (db₁, ok tt)
            | r ∷ rs ↦ approve fuel (last_sequence r rs) (approve_runs (r ∷ rs) db₁)
          ]
        ]
