-- ===== src/System/Others.antt =====
-- The writes of the runservice that leave the runs alone.
use agola.Prelude.{
  ℕ, String, ◌≡◌, refl, ap, sym, ◌∙◌, Bool, true, false, List, [], ◌∷◌, Option, none, some, Result,
  ok, bound, >>=-Bound, ◌>>=◌, arith, Bool-cases, inl, inr, ltb, ◌-◌, not, ◌||◌, if◌then◌else◌,
}
use agola.Types.{Run, RunEvent, ExecutorTask, Executor, ChangeGroup, et_phase_is_finished}
use agola.Store.Db.{
  Db, delete_change_group, get_executor_task, get_executor_task_by_run_task, insert_run_event,
  new_run_event, insert_executor_task, update_executor_task,
}
use agola.Store.PhaseChange.{new_run_event-runs}
use agola.Store.Attempts.{same_phase, same_result, set_stop, stop_executor_tasks, store_event}
use agola.Store.Scheduling.{
  submit_executor_task, clean_finished, clean_unfinished, clean_executor_task,
  change_group_min_duration, compact_change_groups,
}
use agola.Store.ExecutorApi.{
  report_executor_status, is_stale, delete_executor, delete_stale_executors,
  report_executor_task_status, remove_executor,
}

pub insert_run_event-runs :
    (now : ℕ) (e : RunEvent) (db db' : Db) → insert_run_event now e db ≡ ok db' → db'.runs ≡ db.runs
unfolding insert_run_event
insert_run_event-runs now e db db' h = ground arith

pub update_executor_task-runs :
    (now : ℕ) (et : ExecutorTask) (db db' : Db)
    → update_executor_task now et db ≡ ok db'
    → db'.runs ≡ db.runs
unfolding update_executor_task
update_executor_task-runs now et db db' h = ground arith

insert_executor_task-runs :
    (now : ℕ) (et : ExecutorTask) (db db' : Db)
    → insert_executor_task now et db ≡ ok db'
    → db'.runs ≡ db.runs
unfolding insert_executor_task
insert_executor_task-runs now et db db' h = ground arith

pub stop_executor_tasks-runs :
    (now : ℕ) (ets : List ExecutorTask) (db db' : Db)
    → stop_executor_tasks now ets db ≡ ok db'
    → db'.runs ≡ db.runs
unfolding stop_executor_tasks
stop_executor_tasks-runs now [] db db' h = ground arith
stop_executor_tasks-runs now (et ∷ ets) db db' h =
    elim (>>=-Bound (update_executor_task now (set_stop et) db) _ h) [
      | bound db₁ e q ↦
          stop_executor_tasks-runs now ets db₁ db' q
          ∙ update_executor_task-runs now (set_stop et) db db₁ e
    ]

pub store_event-runs :
    (now : ℕ) (event_id seq_id : String) (r r' : Run) (db db' : Db)
    → store_event now event_id seq_id r r' db ≡ ok db'
    → db'.runs ≡ db.runs
unfolding store_event
store_event-runs now event_id seq_id r r' db db' h =
    elim (Bool-cases (not (same_phase r.phase r'.phase) || not (same_result r.result r'.result))) [
      | inl hit ↦
          insert_run_event-runs now
            (new_run_event now event_id seq_id r'.id r'.phase r'.result db).1
            (new_run_event now event_id seq_id r'.id r'.phase r'.result db).0 db'
            (rw (hit, store_event) at h)
          ∙ new_run_event-runs now event_id seq_id r'.id r'.phase r'.result db
      | inr miss ↦ ground (arith, miss)
    ]

pub submit_executor_task-runs :
    (now : ℕ) (run_id rt_id : String) (should_send : Bool) (et : ExecutorTask) (db db' : Db)
    (sent : Bool)
    → submit_executor_task now run_id rt_id should_send et db ≡ ok (db', sent)
    → db'.runs ≡ db.runs
unfolding submit_executor_task
submit_executor_task-runs now run_id rt_id should_send et db db' sent h =
    elim (>>=-Bound (get_executor_task_by_run_task run_id rt_id db) _ h) [
      | bound cur e q ↦ by_cur cur q
    ]
  where
    by_cur :
        (cur : Option ExecutorTask)
        → ◌≡◌ {A = Result (Db × Bool)}
            (elim cur [
              | some _ ↦ ok (db, should_send)
              | none ↦ (insert_executor_task now et db >>= λ db₁. ok (db₁, true))
            ])
            (ok (db', sent))
        → db'.runs ≡ db.runs
    by_cur (some _) q = ground arith
    by_cur none q = elim (>>=-Bound (insert_executor_task now et db) _ q) [
      | bound db₁ e k ↦
          let same : db₁ ≡ db' = ground arith in
          ap (λ (x : Db). x.runs) (sym same) ∙ insert_executor_task-runs now et db db₁ e
    ]

clean_finished-runs :
    (now : ℕ) (et : ExecutorTask) (should_send : Bool) (db db' : Db) (o : Option ExecutorTask)
    (sent : Bool)
    → clean_finished now et should_send db ≡ ok (db', o, sent)
    → db'.runs ≡ db.runs
unfolding clean_finished update_executor_task
clean_finished-runs now et should_send db db' o sent h = ground arith

clean_unfinished-runs :
    (now : ℕ) (et : ExecutorTask) (should_send : Bool) (db db' : Db) (o : Option ExecutorTask)
    (sent : Bool)
    → clean_unfinished now et should_send db ≡ ok (db', o, sent)
    → db'.runs ≡ db.runs
unfolding clean_unfinished update_executor_task
clean_unfinished-runs now et should_send db db' o sent h = ground arith

pub clean_executor_task-runs :
    (now : ℕ) (et_id : String) (should_send : Bool) (db db' : Db) (o : Option ExecutorTask)
    (sent : Bool)
    → clean_executor_task now et_id should_send db ≡ ok (db', o, sent)
    → db'.runs ≡ db.runs
unfolding clean_executor_task
clean_executor_task-runs now et_id should_send db db' o sent h =
    by_task (get_executor_task et_id db) h
  where
    by_task :
        (cur : Option ExecutorTask)
        → ◌≡◌ {A = Result (Db × Option ExecutorTask × Bool)}
            (elim cur [
              | none ↦ ok (db, none, should_send)
              | some et ↦
                  if et_phase_is_finished et.status.phase
                  then clean_finished now et should_send db
                  else clean_unfinished now et should_send db
            ])
            (ok (db', o, sent))
        → db'.runs ≡ db.runs
    by_task none q = ground arith
    by_task (some et) q = elim (Bool-cases (et_phase_is_finished et.status.phase)) [
      | inl hit ↦ clean_finished-runs now et should_send db db' o sent (rw hit at q)
      | inr miss ↦ clean_unfinished-runs now et should_send db db' o sent (rw miss at q)
    ]

pub report_executor_task_status-runs :
    (now : ℕ) (et : ExecutorTask) (db db' : Db)
    → report_executor_task_status now et db ≡ ok db'
    → db'.runs ≡ db.runs
unfolding report_executor_task_status update_executor_task
report_executor_task_status-runs now et db db' h = ground arith

pub report_executor_status-runs :
    (now : ℕ) (id : String) (e : Executor) (db db' : Db)
    → report_executor_status now id e db ≡ ok db'
    → db'.runs ≡ db.runs
unfolding report_executor_status
report_executor_status-runs now id e db db' h = ground arith

pub delete_stale_executors-runs :
    (e : Executor) (es : List Executor) (db : Db) → (delete_stale_executors e es db).runs ≡ db.runs
unfolding delete_stale_executors
delete_stale_executors-runs cur [] db = refl
delete_stale_executors-runs cur (e ∷ es) db = elim (Bool-cases (is_stale cur e)) [
  | inl hit ↦
      rw (hit, delete_stale_executors)
        (delete_stale_executors-runs cur es (delete_executor e.id db))
  | inr miss ↦ rw (miss, delete_stale_executors) (delete_stale_executors-runs cur es db)
]

pub remove_executor-runs :
    (id : String) (db db' : Db) → remove_executor id db ≡ ok db' → db'.runs ≡ db.runs
unfolding remove_executor
remove_executor-runs id db db' h = ground arith

pub compact_change_groups-runs :
    (now : ℕ) (gs : List ChangeGroup) (db : Db) → (compact_change_groups now gs db).runs ≡ db.runs
unfolding compact_change_groups
compact_change_groups-runs now [] db = refl
compact_change_groups-runs now (g ∷ gs) db =
    compact_change_groups-runs now gs (
      if ltb (now - g.update_time) change_group_min_duration
      then db
      else delete_change_group g.id db)
    ∙ kept (ltb (now - g.update_time) change_group_min_duration)
  where
    kept : (b : Bool) → (if b then db else delete_change_group g.id db).runs ≡ db.runs
    kept true = refl
    kept false = refl
