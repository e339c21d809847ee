-- ===== src/Store/Actions.antt =====
-- What the transactions of internal/services/runservice/action/action.go leave in the database.
use agola.Prelude.{
  ℕ, String, ◌≡◌, refl, ap, sym, ◌∙◌, subst, Option, none, some, insert, guard, [], Result, ok,
  or_err, Error, bound, >>=-Bound, ◌⊎◌, arith,
}
use agola.Types.{Run, RunPhase, ChangeGroupsUpdateToken, change_phase}
use agola.Action.Change.{check_phase, change_run_phase}
use agola.Store.Rows.{next_meta}
use agola.Store.Db.{Db, get_run}
use agola.Store.Transactions.{
  renew_change_groups, update_change_groups, act_on_run, same_values, gen_change_groups_values,
  get_change_groups_of,
}
use agola.Store.Revisions.{updated, update_run-Updated, or_err-some}

-- UpdateChangeGroups writes to the change groups only.
pub update_change_groups-others :
    (now : ℕ) (fresh : String → String) (cgt : Option ChangeGroupsUpdateToken) (db db' : Db)
    → update_change_groups now fresh cgt db ≡ ok db'
    → db' ≡ record db { change_groups = db'.change_groups }
unfolding update_change_groups
update_change_groups-others now fresh none db db' h =
    let e : db ≡ db' = cc in subst (λ x. x ≡ record db { change_groups = x.change_groups }) e refl
update_change_groups-others now fresh (some t) db db' h =
    elim (>>=-Bound
      (guard
        (same_values t.change_groups_values
          (gen_change_groups_values (get_change_groups_of t db) []))
        (Error.bad_request "concurrent update"))
      _ h) [
        | bound u g k ↦
            elim (>>=-Bound
              (renew_change_groups now fresh (get_change_groups_of t db) db.change_groups) _ k) [
                | bound rows e l ↦
                    let q : record db { change_groups = rows } ≡ db' = cc in
                    subst (λ x. x ≡ record db { change_groups = x.change_groups }) q refl
              ]
      ]

-- What a transaction that succeeds has read and written; `f` is its part between the two.
pub data Acted (now : ℕ) (f : Run → Result Run) (run_id : String) (db db' : Db) : Type 0 where
  acted :
      (r r' : Run)
      → get_run run_id db ≡ some r
      → f r ≡ ok r'
      → db' ≡ record db {
        runs = insert r'.id (record r' { meta = next_meta now r'.meta }) db.runs;
        change_groups = db'.change_groups;
      }
      → Acted now f run_id db db'

-- If a transaction with the part `f` between its read and its write returns no error, then the run was
-- there, `f` returned a run for it, and what `f` returned is stored at its next revision. System/Effects
-- has, for each of StopRun, RunTaskSetAnnotations and ApproveRunTask, that it is the same run.
pub act_on_run-Acted :
    (now : ℕ) (fresh : String → String) (cgt : Option ChangeGroupsUpdateToken)
    (f : Run → Result Run) (run_id : String) (db db' : Db)
    → act_on_run now fresh cgt f run_id db ≡ ok db'
    → Acted now f run_id db db'
unfolding act_on_run
act_on_run-Acted now fresh cgt f run_id db db' h =
    elim (>>=-Bound (or_err (get_run run_id db) (Error.not_exist run_id)) _ h) [
      | bound r e k ↦ elim (>>=-Bound (update_change_groups now fresh cgt db) _ k) [
        | bound db₁ c l ↦ elim (>>=-Bound (f r) _ l) [
          | bound r' q w ↦ elim (update_run-Updated now r' db₁ db' w) [
            | updated row i j p d ↦
                acted r r' (or_err-some (get_run run_id db) (Error.not_exist run_id) e) q
                  (written r' db₁ (update_change_groups-others now fresh cgt db db₁ c) d)
          ]
        ]
      ]
    ]
  where
    written :
        (r' : Run) (db₁ : Db)
        → db₁ ≡ record db { change_groups = db₁.change_groups }
        → db'
          ≡ record db₁ { runs = insert r'.id (record r' { meta = next_meta now r'.meta }) db₁.runs }
        → db' ≡ record db {
          runs = insert r'.id (record r' { meta = next_meta now r'.meta }) db.runs;
          change_groups = db'.change_groups;
        }
    written r' db₁ e d =
        let row : Run = record r' { meta = next_meta now r'.meta } in
        let whole : db'
            ≡ record db { runs = insert r'.id row db.runs; change_groups = db₁.change_groups } =
          d ∙ ap (λ (x : Db). record x { runs = insert r'.id row x.runs }) e in
        subst (λ y. db' ≡ record db { runs = insert r'.id row db.runs; change_groups = y })
          (sym (ap (λ (x : Db). x.change_groups) whole)) whole

-- What ChangeRunPhase changes of a run.
pub change_run_phase_parts :
    (now : ℕ) (phase : RunPhase) (r r' : Run)
    → change_run_phase now phase r ≡ ok r'
    → (r.phase ≡ RunPhase.queued)
      × ((phase ≡ RunPhase.running) ⊎ (phase ≡ RunPhase.cancelled))
      × (r' ≡ change_phase now phase r)
unfolding change_run_phase
change_run_phase_parts now phase r r' h = elim (>>=-Bound (check_phase phase r) _ h) [
  | bound u c k ↦ (ground (arith, c), ground (arith, c), ground arith)
]
