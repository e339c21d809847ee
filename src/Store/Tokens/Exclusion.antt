-- ===== src/Store/Tokens/Exclusion.antt =====
-- ChangeRunPhase of internal/services/runservice/action/action.go under a change group token: two
-- phase changes by callers that hold a token for the same change group.
use agola.Prelude.{
  ℕ, String, ◌≡◌, refl, ap, sym, ◌∙◌, subst, true, false, [], some, lookup, has_key, ok, or_err,
  guard, Error, Map, filter, values, arith, bound, >>=-Bound,
}
use agola.Types.{Run, RunPhase, ChangeGroup, ChangeGroupsUpdateToken}
use agola.Action.Change.{change_run_phase}
use agola.Store.Db.{Db, get_run, update_run, new_run_event, next_sequence}
use agola.Store.Transactions.{
  same_values, gen_change_groups_values, get_change_groups_of, update_change_groups,
  change_run_phase_action,
}
use agola.Store.Revisions.{guard-true, updated, update_run-Updated}
use agola.Store.PhaseChange.{insert_run_event-Inserted}
use agola.Store.Tokens.Once.{GroupTable, stale_after}

new_run_event-groups :
    (now : ℕ) (event_id seq_id : String) (r : Run) (db : Db)
    → (new_run_event now event_id seq_id r.id r.phase r.result db).0.change_groups
      ≡ db.change_groups
unfolding new_run_event next_sequence
new_run_event-groups now event_id seq_id r db = refl

module _ (now : ℕ) (fresh : String → String) (t : ChangeGroupsUpdateToken)
    (event_id seq_id : String) (phase : RunPhase) (run_id : String) (db db' : Db) where
  -- The update of the change groups that a phase change has made.
  data GroupsUpdated : Type 0 where
    groups_updated :
        (db₁ : Db)
        → update_change_groups now fresh (some t) db ≡ ok db₁
        → db'.change_groups ≡ db₁.change_groups
        → GroupsUpdated

  change_run_phase_action-GroupsUpdated :
      change_run_phase_action now fresh (some t) event_id seq_id phase run_id db ≡ ok db'
      → GroupsUpdated
  unfolding change_run_phase_action
  change_run_phase_action-GroupsUpdated h =
      elim (>>=-Bound (or_err (get_run run_id db) (Error.not_exist run_id)) _ h) [
        | bound r e k ↦ elim (>>=-Bound (update_change_groups now fresh (some t) db) _ k) [
          | bound db₁ c l ↦ elim (>>=-Bound (change_run_phase now phase r) _ l) [
            | bound r' q w ↦
                let step = new_run_event now event_id seq_id r'.id r'.phase r'.result db₁ in
                elim (>>=-Bound (update_run now r' step.0) _ w) [
                  | bound db₃ u v ↦ elim (update_run-Updated now r' step.0 db₃ u) [
                    | updated row i j p d ↦ groups_updated db₁ c (
                        ap (λ (x : Db). x.change_groups)
                          (insert_run_event-Inserted now step.1 db₃ db' v)
                        ∙ ap (λ (x : Db). x.change_groups) d
                        ∙ new_run_event-groups now event_id seq_id r' db₁)
                  ]
                ]
          ]
        ]
      ]

-- Of two phase changes in a row whose tokens share a change group, the second is refused: on the
-- database that a successful ChangeRunPhase with a token that has the group's name leaves, a
-- ChangeRunPhase with a token that has for the name a value that the first did not draw does not
-- succeed, for whatever run and phase, if the change groups are a table.
pub change_run_phase_action_once :
    (now now' : ℕ) (fresh fresh' : String → String) (t t' : ChangeGroupsUpdateToken)
    (event_id seq_id event_id' seq_id' : String) (phase phase' : RunPhase) (run_id run_id' : String)
    (n v : String) (db db' db'' : Db)
    → GroupTable db.change_groups
    → has_key n t.change_groups_values ≡ true
    → lookup n t'.change_groups_values ≡ some v
    → ((id : String) → ¬ (fresh id ≡ v))
    → change_run_phase_action now fresh (some t) event_id seq_id phase run_id db ≡ ok db'
    → ¬ (
        change_run_phase_action now' fresh' (some t') event_id' seq_id' phase' run_id' db'
        ≡ ok db'')
unfolding update_change_groups
change_run_phase_action_once now now' fresh fresh' t t' event_id seq_id event_id' seq_id' phase
      phase' run_id run_id' n v db db' db'' g h l other a b =
    elim (change_run_phase_action-GroupsUpdated now fresh t event_id seq_id phase run_id db db' a) [
      | groups_updated db₁ u e ↦
          elim (change_run_phase_action-GroupsUpdated now' fresh' t' event_id' seq_id' phase'
            run_id' db' db'' b) [
              | groups_updated db₂ u' e' ↦ refused db₂ u' (
                  subst
                    (λ (x : Map ChangeGroup).
                      same_values t'.change_groups_values (
                        gen_change_groups_values
                          (filter (λ g. has_key g.name t'.change_groups_values) (values x)) [])
                      ≡ false)
                    (sym e) (stale_after now fresh t t' n v db db₁ g h l other u))
            ]
    ]
  where
    refused :
        (db₂ : Db)
        → update_change_groups now' fresh' (some t') db' ≡ ok db₂
        → same_values t'.change_groups_values
            (gen_change_groups_values (get_change_groups_of t' db') [])
          ≡ false
        → ⊥
    refused db₂ u' stale =
        elim (>>=-Bound
          (guard
            (same_values t'.change_groups_values
              (gen_change_groups_values (get_change_groups_of t' db') []))
            (Error.bad_request "concurrent update"))
          _ u') [
            | bound x c k ↦
                let fits =
                  guard-true
                    (same_values t'.change_groups_values
                      (gen_change_groups_values (get_change_groups_of t' db') []))
                    (Error.bad_request "concurrent update") c in
                ground (arith, fits, stale)
          ]
