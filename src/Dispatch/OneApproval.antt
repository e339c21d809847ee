-- ===== src/Dispatch/OneApproval.antt =====
-- The loop of approveRunTasks of internal/services/scheduler/scheduler.go, which sends one token with
-- each of its calls.
use agola.Prelude.{
  ℕ, String, ◌≡◌, refl, ap, sym, ◌∙◌, subst, true, false, List, [], ◌∷◌, Option, none, some, Map,
  lookup, has_key, values, filter, Result, ok, err, panicked, or_err, Error, bound, >>=-Bound,
}
use agola.Types.{Run, ChangeGroup, ChangeGroupsUpdateToken}
use agola.Action.Change.{approve_task}
use agola.Store.Db.{Db, get_run}
use agola.Store.Transactions.{
  same_values, gen_change_groups_values, get_change_groups_of, update_change_groups, act_on_run,
  approve_run_task,
}
use agola.Store.Revisions.{updated, update_run-Updated}
use agola.Store.Tokens.Once.{GroupTable, stale_after}
use agola.Api.Handlers.{Answer, run_task_actions_handler}
use agola.Dispatch.Approve.{Approval, approval_of, approve_one, approve_tasks, approve_next}

-- The token does not agree with the change groups.
abbrev Stale : ChangeGroupsUpdateToken → Db → Type 0
Stale t db =
    same_values t.change_groups_values (gen_change_groups_values (get_change_groups_of t db) [])
    ≡ false

module _ (now : ℕ) (fresh : String → String) (t : ChangeGroupsUpdateToken) where
  data Refused (r : Run) (task_id : String) (db : Db) : Type 0 where
    refused :
        (e : Error) → approve_one now fresh t r task_id db ≡ (db, err e) → Refused r task_id db

  Stale-Refused : (r : Run) (task_id : String) (db : Db) → Stale t db → Refused r task_id db
  unfolding approve_one run_task_actions_handler approve_run_task act_on_run update_change_groups
  Stale-Refused r task_id db s = by_run (get_run r.id db) refl
    where
      by_run : (o : Option Run) → get_run r.id db ≡ o → Refused r task_id db
      by_run none e =
          refused (Error.not_exist r.id)
            (rw (approve_one, run_task_actions_handler, approve_run_task, act_on_run, e) refl)
      by_run (some x) e = refused (Error.bad_request "concurrent update") (
          rw
            (
              approve_one, run_task_actions_handler, approve_run_task, act_on_run, e,
              update_change_groups, s,
            )
            refl)

  data GroupsUpdated (task_id : String) (r : Run) (db db' : Db) : Type 0 where
    groups_updated :
        (db₁ : Db)
        → update_change_groups now fresh (some t) db ≡ ok db₁
        → db'.change_groups ≡ db₁.change_groups
        → GroupsUpdated task_id r db db'

  approve_run_task-GroupsUpdated :
      (task_id : String) (r : Run) (db db' : Db)
      → approve_run_task now fresh (some t) task_id r.id db ≡ ok db'
      → GroupsUpdated task_id r db db'
  unfolding approve_run_task act_on_run
  approve_run_task-GroupsUpdated task_id r db db' h =
      elim (>>=-Bound (or_err (get_run r.id db) (Error.not_exist r.id)) _ h) [
        | bound x e k ↦ elim (>>=-Bound (update_change_groups now fresh (some t) db) _ k) [
          | bound db₁ c l ↦ elim (>>=-Bound (approve_task task_id x) _ l) [
            | bound r' q w ↦ elim (update_run-Updated now r' db₁ db' w) [
              | updated row i j p d ↦ groups_updated db₁ c (ap (λ (y : Db). y.change_groups) d)
            ]
          ]
        ]
      ]

  -- What one call of the loop does.
  data Once (r : Run) (task_id : String) (db : Db) : Type 0 where
    failed : (e : Error) → approve_one now fresh t r task_id db ≡ (db, err e) → Once r task_id db
    done :
        (db' : Db)
        → approve_run_task now fresh (some t) task_id r.id db ≡ ok db'
        → approve_one now fresh t r task_id db ≡ (db', ok tt)
        → Once r task_id db

  once : (r : Run) (task_id : String) (db : Db) → Once r task_id db
  unfolding approve_one run_task_actions_handler
  once r task_id db = by_result (approve_run_task now fresh (some t) task_id r.id db) refl
    where
      by_result :
          (m : Result Db)
          → approve_run_task now fresh (some t) task_id r.id db ≡ m
          → Once r task_id db
      by_result panicked q =
          failed Error.no_response (rw (approve_one, run_task_actions_handler, q) refl)
      by_result (err e) q = failed e (rw (approve_one, run_task_actions_handler, q) refl)
      by_result (ok db') q = done db' q (rw (approve_one, run_task_actions_handler, q) refl)

  module _ (parse : String → Option (List String)) (r : Run) where
    -- The database after the loop.
    abbrev pub approved_db : List String → Db → Db
    approved_db rt_ids db = (approve_tasks now fresh parse t r rt_ids db).0

    Stale-unchanged : (rt_ids : List String) (db : Db) → Stale t db → approved_db rt_ids db ≡ db
    unfolding approve_tasks
    Stale-unchanged [] db s = refl
    Stale-unchanged (rt_id ∷ rt_ids) db s =
        by_approval (approval_of parse r rt_id) refl (Stale-unchanged rt_ids db s)
      where
        by_approval :
            (a : Approval)
            → approval_of parse r rt_id ≡ a
            → approved_db rt_ids db ≡ db
            → approved_db (rt_id ∷ rt_ids) db ≡ db
        by_approval Approval.no_task q ih = rw (approved_db, approve_tasks, q) refl
        by_approval Approval.not_parsed q ih = rw (approved_db, approve_tasks, q) refl
        by_approval Approval.pass_over q ih = rw (approved_db, approve_tasks, q) ih
        by_approval (Approval.approve_it task_id) q ih = elim (Stale-Refused r task_id db s) [
          | refused e a ↦
              rw (approved_db, approve_tasks, q)
                (ap
                  (λ (x : Answer (Unit {0})).
                    (approve_next x (approve_tasks now fresh parse t r rt_ids)).0)
                  a)
        ]

    -- What the loop changes: nothing, or what ApproveRunTask changes for one task.
    pub data AtMostOne (db db' : Db) : Type 0 where
      nothing : db' ≡ db → AtMostOne db db'
      one_task :
          (task_id : String)
          → approve_run_task now fresh (some t) task_id r.id db ≡ ok db'
          → AtMostOne db db'

    -- One call of approveRunTasks approves at most one task, whatever the number of tasks that wait for
    -- an approval that they have: the token of the calls is used up by the first that succeeds. The
    -- token has a change group, with a value that ApproveRunTask does not draw.
    pub approve_tasks-AtMostOne :
        (n v : String) (rt_ids : List String) (db : Db)
        → GroupTable db.change_groups
        → has_key n t.change_groups_values ≡ true
        → lookup n t.change_groups_values ≡ some v
        → ((id : String) → ¬ (fresh id ≡ v))
        → AtMostOne db (approved_db rt_ids db)
    unfolding approve_tasks
    approve_tasks-AtMostOne n v [] db g h l other = nothing refl
    approve_tasks-AtMostOne n v (rt_id ∷ rt_ids) db g h l other =
        by_approval (approval_of parse r rt_id) refl
          (approve_tasks-AtMostOne n v rt_ids db g h l other)
      where
        stale :
            (task_id : String) (db' : Db)
            → approve_run_task now fresh (some t) task_id r.id db ≡ ok db'
            → Stale t db'
        stale task_id db' a = elim (approve_run_task-GroupsUpdated task_id r db db' a) [
          | groups_updated db₁ u e ↦
              subst
                (λ (x : Map ChangeGroup).
                  same_values t.change_groups_values (
                    gen_change_groups_values
                      (filter (λ g. has_key g.name t.change_groups_values) (values x)) [])
                  ≡ false)
                (sym e) (stale_after now fresh t t n v db db₁ g h l other u)
        ]

        by_once :
            (task_id : String)
            → approval_of parse r rt_id ≡ Approval.approve_it task_id
            → Once r task_id db
            → AtMostOne db (approved_db (rt_id ∷ rt_ids) db)
        by_once task_id q (failed e a) = nothing (
            rw (approved_db, approve_tasks, q)
              (ap
                (λ (x : Answer (Unit {0})).
                  (approve_next x (approve_tasks now fresh parse t r rt_ids)).0)
                a))
        by_once task_id q (done db' p a) =
            let last = Stale-unchanged rt_ids db' (stale task_id db' p) in
            let whole : approved_db (rt_id ∷ rt_ids) db ≡ db' =
              rw (approved_db, approve_tasks, q)
                (ap
                    (λ (x : Answer (Unit {0})).
                      (approve_next x (approve_tasks now fresh parse t r rt_ids)).0)
                    a
                  ∙ last) in
            subst (λ x. AtMostOne db x) (sym whole) (one_task task_id p)

        by_approval :
            (a : Approval)
            → approval_of parse r rt_id ≡ a
            → AtMostOne db (approved_db rt_ids db)
            → AtMostOne db (approved_db (rt_id ∷ rt_ids) db)
        by_approval Approval.no_task q ih = nothing (rw (approved_db, approve_tasks, q) refl)
        by_approval Approval.not_parsed q ih = nothing (rw (approved_db, approve_tasks, q) refl)
        by_approval Approval.pass_over q ih = rw (approved_db, approve_tasks, q) ih
        by_approval (Approval.approve_it task_id) q ih = by_once task_id q (once r task_id db)
