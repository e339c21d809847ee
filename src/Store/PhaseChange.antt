-- ===== src/Store/PhaseChange.antt =====
-- What ChangeRunPhase of internal/services/runservice/action/action.go leaves in the database.
use agola.Prelude.{
  ℕ, suc, String, ◌≡◌, refl, ap, sym, ◌∙◌, subst, Option, some, insert, ok, or_err, Error, bound,
  >>=-Bound, ◌⊎◌, arith,
}
use agola.Types.{
  ObjectMeta, new_meta, Run, RunPhase, RunResult, RunEvent, Sequence, SequenceType,
  ChangeGroupsUpdateToken, change_phase,
}
use agola.Action.Change.{change_run_phase}
use agola.Store.Rows.{next_meta, first_meta, insert_row}
use agola.Store.Db.{
  Db, get_run, or_new_sequence, update_run, insert_run_event, new_run_event, next_sequence,
}
use agola.Store.Transactions.{update_change_groups, change_run_phase_action}
use agola.Store.Revisions.{updated, update_run-Updated, or_err-some}
use agola.Store.Actions.{update_change_groups-others, change_run_phase_parts}

-- The event that goes with the new phase: it is stored, and its number is the one that the sequence
-- of the events has come to, one more than before.
pub data EventStored (now : ℕ) (event_id : String) (r : Run) (db db' : Db) : Type 0 where
  event_stored :
      (e : RunEvent) (s : Sequence)
      → e.run_id ≡ r.id
      → e.phase ≡ r.phase
      → e.result ≡ r.result
      → db'.run_events ≡ insert event_id (record e { meta = first_meta now e.meta }) db.run_events
      → db'.run_event_sequence ≡ some s
      → s.value ≡ e.sequence
      → ((s₀ : Sequence) → db.run_event_sequence ≡ some s₀ → e.sequence ≡ suc s₀.value)
      → EventStored now event_id r db db'

pub insert_run_event-Inserted :
    (now : ℕ) (e : RunEvent) (db db' : Db)
    → insert_run_event now e db ≡ ok db'
    → db' ≡ record db {
      run_events = insert e.id (record e { meta = first_meta now e.meta }) db.run_events;
    }
unfolding insert_run_event insert_row
insert_run_event-Inserted now e db db' h = ground arith

-- The last part of the transaction: `db₂` and `e` are what NewRunEvent gives on `db₁`.
stored_event :
    (now : ℕ) (event_id seq_id : String) (r : Run) (db₁ db₃ db' : Db)
    → db₃
      ≡ record (new_run_event now event_id seq_id r.id r.phase r.result db₁).0 { runs = db₃.runs }
    → insert_run_event now (new_run_event now event_id seq_id r.id r.phase r.result db₁).1 db₃
      ≡ ok db'
    → EventStored now event_id r db₁ db'
unfolding new_run_event next_sequence
stored_event now event_id seq_id r db₁ db₃ db' q h =
    let i =
      insert_run_event-Inserted now (new_run_event now event_id seq_id r.id r.phase r.result db₁).1
        db₃ db' h in
    let before = or_new_sequence now seq_id SequenceType.run_event db₁.run_event_sequence in
    event_stored (new_run_event now event_id seq_id r.id r.phase r.result db₁).1
      (record before {
        meta = record before.meta { revision = suc before.meta.revision; update_time = now };
        value = suc before.value;
      })
      refl refl refl
      (ap (λ (x : Db). x.run_events) i
        ∙ ap
            (λ (x : Db).
              insert event_id
                (record (new_run_event now event_id seq_id r.id r.phase r.result db₁).1 {
                  meta = first_meta now (new_meta event_id);
                })
                x.run_events)
            q)
      (ap (λ (x : Db). x.run_event_sequence) i ∙ ap (λ (x : Db). x.run_event_sequence) q) refl
      (λ s₀ p. ap (λ o. suc (or_new_sequence now seq_id SequenceType.run_event o).value) p)

stored_over :
    (now : ℕ) (event_id : String) (r r' : Run) (db db₁ db' : Db)
    → r' ≡ r
    → db₁ ≡ record db { change_groups = db₁.change_groups }
    → EventStored now event_id r' db₁ db'
    → EventStored now event_id r db db'
stored_over now event_id r r' db db₁ db' same e h =
    elim (subst (λ x. EventStored now event_id r x db') e
      (subst (λ x. EventStored now event_id x db₁ db') same h)) [
        | event_stored ev s a b c d f g k ↦ event_stored ev s a b c d f g k
      ]

change_phase-meta :
    (now : ℕ) (phase : RunPhase) (r : Run) → (change_phase now phase r).meta ≡ r.meta
unfolding change_phase
change_phase-meta now RunPhase.setup_error r = refl
change_phase-meta now RunPhase.queued r = refl
change_phase-meta now RunPhase.cancelled r = refl
change_phase-meta now RunPhase.running r = refl
change_phase-meta now RunPhase.finished r = refl

pub new_run_event-runs :
    (now : ℕ) (event_id seq_id run_id : String) (phase : RunPhase) (result : RunResult) (db : Db)
    → (new_run_event now event_id seq_id run_id phase result db).0.runs ≡ db.runs
unfolding new_run_event next_sequence
new_run_event-runs now event_id seq_id run_id phase result db = refl

-- What the write of the run leaves.
stored_run :
    (now : ℕ) (phase : RunPhase) (r r' : Run) (db db₁ db₂ db₃ : Db)
    → r' ≡ change_phase now phase r
    → db₁ ≡ record db { change_groups = db₁.change_groups }
    → db₂.runs ≡ db₁.runs
    → update_run now r' db₂ ≡ ok db₃
    → (db₃ ≡ record db₂ { runs = db₃.runs })
      × (db₃.runs
          ≡ insert r.id (record (change_phase now phase r) { meta = next_meta now r.meta }) db.runs)
stored_run now phase r r' db db₁ db₂ db₃ same e e₂ u = elim (update_run-Updated now r' db₂ db₃ u) [
  | updated row i j p d ↦
      let runs = ap (λ (x : Db). x.runs) d in
      (
        subst (λ y. db₃ ≡ record db₂ { runs = y }) (sym runs) d,
        runs
            ∙ ap (λ m. insert r'.id (record r' { meta = next_meta now r'.meta }) m)
                (e₂ ∙ ap (λ (x : Db). x.runs) e)
            ∙ ap (λ (x : Run). insert x.id (record x { meta = next_meta now x.meta }) db.runs) same
            ∙ ap
                (λ (m : ObjectMeta).
                  insert m.id (record (change_phase now phase r) { meta = next_meta now m })
                    db.runs)
                (change_phase-meta now phase r),
      )
]

-- What ChangeRunPhase has found and left.
pub data PhaseChanged (now : ℕ) (event_id : String) (phase : RunPhase) (run_id : String)
    (db db' : Db) : Type 0 where
  phase_changed :
      (r : Run)
      → get_run run_id db ≡ some r
      → r.phase ≡ RunPhase.queued
      → (phase ≡ RunPhase.running) ⊎ (phase ≡ RunPhase.cancelled)
      → db'.runs
        ≡ insert r.id (record (change_phase now phase r) { meta = next_meta now r.meta }) db.runs
      → EventStored now event_id (change_phase now phase r) db db'
      → PhaseChanged now event_id phase run_id db db'

-- If ChangeRunPhase returns no error, then the run was there and queued, and the phase is running or
-- cancelled; the run is stored in that phase at its next revision, and with it, in the same
-- transaction, an event with the run's id, phase and result, whose number follows the last one.
pub change_run_phase_action-PhaseChanged :
    (now : ℕ) (fresh : String → String) (cgt : Option ChangeGroupsUpdateToken)
    (event_id seq_id : String) (phase : RunPhase) (run_id : String) (db db' : Db)
    → change_run_phase_action now fresh cgt event_id seq_id phase run_id db ≡ ok db'
    → PhaseChanged now event_id phase run_id db db'
unfolding change_run_phase_action
change_run_phase_action-PhaseChanged now fresh cgt event_id seq_id phase run_id db db' h =
    elim (>>=-Bound (or_err (get_run run_id db) (Error.not_exist run_id)) _ h) [
      | bound r e k ↦ elim (>>=-Bound (update_change_groups now fresh cgt db) _ k) [
        | bound db₁ c l ↦ elim (>>=-Bound (change_run_phase now phase r) _ l) [
          | bound r' q w ↦
              let step = new_run_event now event_id seq_id r'.id r'.phase r'.result db₁ in
              elim (>>=-Bound (update_run now r' step.0) _ w) [
                | bound db₃ u v ↦
                    let others = update_change_groups-others now fresh cgt db db₁ c in
                    let (queued, target, same) = change_run_phase_parts now phase r r' q in
                    phase_changed r (or_err-some (get_run run_id db) (Error.not_exist run_id) e)
                      queued target
                      (ap (λ (x : Db). x.runs) (insert_run_event-Inserted now step.1 db₃ db' v)
                        ∙ (stored_run now phase r r' db db₁ step.0 db₃ same others
                            (new_run_event-runs now event_id seq_id r'.id r'.phase r'.result db₁)
                            u).1)
                      (stored_over now event_id (change_phase now phase r) r' db db₁ db' same others
                        (stored_event now event_id seq_id r' db₁ db₃ db'
                          (stored_run now phase r r' db db₁ step.0 db₃ same others
                            (new_run_event-runs now event_id seq_id r'.id r'.phase r'.result db₁)
                            u).0
                          v))
              ]
        ]
      ]
    ]
