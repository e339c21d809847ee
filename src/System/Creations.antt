-- ===== src/System/Creations.antt =====
-- The runs that CreateRun adds.
use agola.Prelude.{
  ℕ, String, ◌≡◌, refl, ap, sym, ◌∙◌, subst, Option, none, some, Map, lookup, insert, ok, bound,
  >>=-Bound, arith, or_err, Error, values,
}
use agola.Types.{RunTask, ObjectMeta, Run, RunConfig, SequenceType, ChangeGroupsUpdateToken}
use agola.Action.Create.{gen_run}
use agola.Action.Request.{RunCreateRequest, RunBundle, new_run_bundle, get_run_counter_group_id}
use agola.Action.Recreate.{reset_run, recreate_tasks, keep_defined, add_missing, recreate_run}
use agola.Lifecycle.Reach.{Inv, gen_run-Inv}
use agola.Store.Rows.{first_meta, insert_row}
use agola.Store.Db.{
  Db, get_run, get_run_config, next_sequence, new_run_event, insert_run, insert_run_config,
}
use agola.Store.Transactions.{update_change_groups}
use agola.Store.Actions.{update_change_groups-others}
use agola.Store.PhaseChange.{new_run_event-runs}
use agola.Store.Creation.{
  FreshIds, get_run_counter, next_run_counter, numbered, save_run, no_restart, restart_reason,
  recreate_run_of,
}
use agola.System.Changes.{RunChange, added}
use agola.System.Others.{insert_run_event-runs}

-- An insert of a run finds its id free.
data RunInserted (now : ℕ) (r : Run) (db db' : Db) : Type 0 where
  run_inserted :
      lookup r.id db.runs ≡ none
      → db'.runs ≡ insert r.id (record r { meta = first_meta now r.meta }) db.runs
      → RunInserted now r db db'

insert_run-RunInserted :
    (now : ℕ) (r : Run) (db db' : Db) → insert_run now r db ≡ ok db' → RunInserted now r db db'
unfolding insert_run insert_row
insert_run-RunInserted now r db db' h = run_inserted (ground arith) (ground arith)

insert_run_config-runs :
    (now : ℕ) (rc : RunConfig) (db db' : Db)
    → insert_run_config now rc db ≡ ok db'
    → db'.runs ≡ db.runs
unfolding insert_run_config
insert_run_config-runs now rc db db' h = ground arith

next_run_counter-runs :
    (now : ℕ) (id group_id : String) (db : Db) (o : Db × ℕ)
    → next_run_counter now id group_id db ≡ ok o
    → o.0.runs ≡ db.runs
unfolding next_run_counter
next_run_counter-runs now id group_id db o h = elim (>>=-Bound (get_run_counter group_id db) _ h) [
  | bound c e k ↦ ground arith
]

next_sequence-runs :
    (now : ℕ) (id : String) (type : SequenceType) (db : Db)
    → (next_sequence now id type db).0.runs ≡ db.runs
unfolding next_sequence
next_sequence-runs now id SequenceType.run db = refl
next_sequence-runs now id SequenceType.run_event db = refl

-- The numbers of a run and what the database keeps of it do not count for the invariant.
pub renumbered-Inv :
    (r : Run) (m : ObjectMeta) (sequence counter : ℕ) (enqueue_time : Option ℕ)
    → Inv r
    → Inv
        (record r { meta = m; sequence = sequence; counter = counter; enqueue_time = enqueue_time })
renumbered-Inv r m sequence counter enqueue_time v = record {
  result_phase = v.result_phase;
  finished_done = v.finished_done;
  stop_phase = v.stop_phase;
  archived_phase = v.archived_phase;
}

inserted-RunChange :
    (now : ℕ) (r : Run) (a b db db' : Db)
    → RunInserted now r a b
    → a.runs ≡ db.runs
    → db'.runs ≡ b.runs
    → Inv (record r { meta = first_meta now r.meta })
    → RunChange db.runs db'.runs
inserted-RunChange now r a b db db' (run_inserted l e) before after v =
    added (record r { meta = first_meta now r.meta }) (sym (ap (lookup r.id) before) ∙ l) v
      (after ∙ e ∙ ap (λ m. insert r.id (record r { meta = first_meta now r.meta }) m) before)

pub save_run-RunChange :
    (now : ℕ) (fresh : String → String) (ids : FreshIds) (cgt : Option ChangeGroupsUpdateToken)
    (rb : RunBundle) (db db' : Db)
    → Inv rb.run
    → save_run now fresh ids cgt rb db ≡ ok db'
    → RunChange db.runs db'.runs
unfolding save_run
save_run-RunChange now fresh ids cgt rb db db' v h =
    elim (>>=-Bound (get_run_counter_group_id rb.run.group) _ h) [
      | bound g e k ↦ elim (>>=-Bound (update_change_groups now fresh cgt db) _ k) [
        | bound db₁ c l ↦
            let s = next_sequence now ids.sequence_id SequenceType.run db₁ in
            elim (>>=-Bound (next_run_counter now ids.counter_id g s.0) _ l) [
              | bound n q w ↦
                  let r : Run = numbered now fresh ids s.1 n.1 rb.run in
                  let o =
                    new_run_event now ids.event_id ids.event_sequence_id r.id r.phase r.result
                      n.0 in
                  elim (>>=-Bound (insert_run now r o.0) _ w) [
                    | bound db₃ i x ↦ elim (>>=-Bound (insert_run_config now rb.rc db₃) _ x) [
                      | bound db₄ j y ↦
                          let counted : n.0.runs ≡ db.runs =
                            next_run_counter-runs now ids.counter_id g s.0 n q
                            ∙ next_sequence-runs now ids.sequence_id SequenceType.run db₁
                            ∙ ap (λ (x : Db). x.runs)
                                (update_change_groups-others now fresh cgt db db₁ c) in
                          let before : o.0.runs ≡ db.runs =
                            new_run_event-runs now ids.event_id ids.event_sequence_id r.id r.phase
                              r.result n.0
                            ∙ counted in
                          let after : db'.runs ≡ db₃.runs =
                            insert_run_event-runs now o.1 db₄ db' y
                            ∙ insert_run_config-runs now rb.rc db₃ db₄ j in
                          inserted-RunChange now r o.0 db₃ db db'
                            (insert_run-RunInserted now r o.0 db₃ i) before after
                            (renumbered-Inv rb.run (first_meta now r.meta) s.1 n.1 (some now) v)
                    ]
                  ]
            ]
      ]
    ]

pub new_run_bundle-Inv :
    (text : Error → String) (rc_id run_id : String) (req : RunCreateRequest) (rb : RunBundle)
    → new_run_bundle text rc_id run_id req ≡ ok rb
    → Inv rb.run
unfolding new_run_bundle
new_run_bundle-Inv text rc_id run_id req rb h =
    let is_gen : rb.run ≡ gen_run run_id rb.rc = ground arith in
    subst Inv (sym is_gen) (gen_run-Inv run_id rb.rc)

reset_run-Inv :
    (run_id rc_id : String) (r : Run) (tasks : Map RunTask)
    → Inv (record (reset_run run_id rc_id r) { tasks = tasks })
reset_run-Inv run_id rc_id r tasks = ground arith

pub recreate_run_of-Inv :
    (fresh : String → String) (run_id rc_id : String) (req : RunCreateRequest) (db : Db)
    (rb : RunBundle)
    → recreate_run_of fresh run_id rc_id req db ≡ ok rb
    → Inv rb.run
unfolding recreate_run_of recreate_run
recreate_run_of-Inv fresh run_id rc_id req db rb h =
    elim (>>=-Bound (or_err (get_run req.run_id db) (Error.bad_request req.run_id)) _ h) [
      | bound r e k ↦
          elim (>>=-Bound
            (or_err (get_run_config r.run_config_id db) (Error.bad_request r.run_config_id)) _ k) [
              | bound rc f l ↦ elim (>>=-Bound (no_restart (restart_reason req.from_start r)) _ l) [
                | bound u g w ↦
                    elim (>>=-Bound
                      (recreate_run fresh run_id rc_id req.from_start req.environment r rc) _ w) [
                        | bound o q x ↦
                            elim (>>=-Bound (recreate_tasks fresh req.from_start r.tasks rc.tasks) _
                              q) [
                                | bound tasks y z ↦
                                    let made : record (reset_run run_id rc_id r) {
                                      tasks =
                                          add_missing (values tasks)
                                            (keep_defined tasks (values r.tasks) r.tasks);
                                    }
                                        ≡ rb.run =
                                      ground arith in
                                    subst Inv made (
                                      reset_run-Inv run_id rc_id r (
                                        add_missing (values tasks)
                                          (keep_defined tasks (values r.tasks) r.tasks)))
                              ]
                      ]
              ]
            ]
    ]
