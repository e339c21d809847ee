-- ===== src/System/Effects.antt =====
-- Each transaction of the runservice as at most one operation on one run.
use agola.Prelude.{
  ℕ, String, ◌≡◌, refl, ap, sym, ◌∙◌, subst, [], Option, none, some, Map, lookup, Result, ok,
  or_err, Error, bound, >>=-Bound, ◌>>=◌, arith,
}
use agola.Types.{Run, RunConfig, RunPhase, ChangeGroupsUpdateToken, new_meta}
use agola.Action.Change.{change_run_phase, stop_running, set_annotations, approve_task}
use agola.Action.Fetch.{
  finish_setup_log_phase, finish_step_log_phase, finish_archive_phase, archive_run,
}
use agola.Scheduler.Report.{update_run_task_status}
use agola.Lifecycle.Steps.{
  RunStep, changed, stopped, annotated, approved, reported, archived,
  setup_log_fetched as fetched_setup_log, step_log_fetched as fetched_step_log,
  archive_fetched as fetched_archive,
}
use agola.Store.Db.{Db, get_run, get_executor_task, update_run, new_run_event}
use agola.Store.Transactions.{
  update_change_groups, stop_run_action, run_task_set_annotations, approve_run_task,
  change_run_phase_action, finish_on_run, finish_setup_log, finish_step_log, finish_archive_of,
  finished_run_archiver, handle_executor_task_update,
}
use agola.Store.Revisions.{or_err-some}
use agola.Store.Actions.{update_change_groups-others, Acted, acted, act_on_run-Acted}
use agola.Store.PhaseChange.{new_run_event-runs}
use agola.System.Changes.{IsKeyed, once, RunChange, same, Write-RunChange, update_run-RunChange}
use agola.System.Others.{insert_run_event-runs}

-- An operation that reads no config.
abbrev no_config : RunConfig
no_config = record {
  meta = new_meta "";
  name = "";
  group = "";
  setup_errors = [];
  annotations = [];
  static_environment = [];
  environment = [];
  tasks = [];
  cache_group = "";
}

at_its_id :
    (db : Db) (k : String) (r : Run)
    → IsKeyed db.runs
    → get_run k db ≡ some r
    → lookup r.id db.runs ≡ some r
at_its_id db k r keyed l = subst (λ i. lookup i db.runs ≡ some r) (sym (keyed k r l)) l

-- Other runs and the same runs.
pub RunChange-over : {a b a' b' : Map Run} → a ≡ b → a' ≡ b' → RunChange a a' → RunChange b b'
RunChange-over {a} {b} {a'} {b'} p q c = subst (λ x. RunChange x b') p (subst (RunChange a) q c)

-- The transactions of StopRun, RunTaskSetAnnotations and ApproveRunTask.
Acted-RunChange :
    (now : ℕ) (f : Run → Result Run) (run_id : String) (db db' : Db)
    → ((r r' : Run) → f r ≡ ok r' → RunStep no_config r r')
    → IsKeyed db.runs
    → Acted now f run_id db db'
    → RunChange db.runs db'.runs
Acted-RunChange now f run_id db db' steps keyed (acted r r' l h e) =
    Write-RunChange now no_config r r' db.runs db'.runs (at_its_id db run_id r keyed l)
      (once (steps r r' h)) (ap (λ (x : Db). x.runs) e)

module _ (now : ℕ) (fresh : String → String) (cgt : Option ChangeGroupsUpdateToken) (db db' : Db)
    (keyed : IsKeyed db.runs) where
  pub stop_run_action-RunChange :
      (id : String) → stop_run_action now fresh cgt id db ≡ ok db' → RunChange db.runs db'.runs
  unfolding stop_run_action
  stop_run_action-RunChange id h =
      Acted-RunChange now stop_running id db db' (λ r r' e. stopped e) keyed
        (act_on_run-Acted now fresh cgt stop_running id db db' h)

  pub run_task_set_annotations-RunChange :
      (t : String) (a : Map String) (id : String)
      → run_task_set_annotations now fresh cgt t a id db ≡ ok db'
      → RunChange db.runs db'.runs
  unfolding run_task_set_annotations
  run_task_set_annotations-RunChange t a id h =
      Acted-RunChange now (set_annotations t a) id db db' (λ r r' e. annotated t a e) keyed
        (act_on_run-Acted now fresh cgt (set_annotations t a) id db db' h)

  pub approve_run_task-RunChange :
      (t id : String) → approve_run_task now fresh cgt t id db ≡ ok db' → RunChange db.runs db'.runs
  unfolding approve_run_task
  approve_run_task-RunChange t id h =
      Acted-RunChange now (approve_task t) id db db' (λ r r' e. approved t e) keyed
        (act_on_run-Acted now fresh cgt (approve_task t) id db db' h)

  pub change_run_phase_action-RunChange :
      (event_id seq_id : String) (phase : RunPhase) (id : String)
      → change_run_phase_action now fresh cgt event_id seq_id phase id db ≡ ok db'
      → RunChange db.runs db'.runs
  unfolding change_run_phase_action
  change_run_phase_action-RunChange event_id seq_id phase id h =
      elim (>>=-Bound (or_err (get_run id db) (Error.not_exist id)) _ h) [
        | bound r e k ↦ elim (>>=-Bound (update_change_groups now fresh cgt db) _ k) [
          | bound db₁ c l ↦ elim (>>=-Bound (change_run_phase now phase r) _ l) [
            | bound r' q w ↦
                let o = new_run_event now event_id seq_id r'.id r'.phase r'.result db₁ in
                elim (>>=-Bound (update_run now r' o.0) _ w) [
                  | bound db₃ u v ↦
                      let before : o.0.runs ≡ db.runs =
                        new_run_event-runs now event_id seq_id r'.id r'.phase r'.result db₁
                        ∙ ap (λ (x : Db). x.runs)
                            (update_change_groups-others now fresh cgt db db₁ c) in
                      let stored : lookup r.id db.runs ≡ some r =
                        at_its_id db id r keyed
                          (or_err-some (get_run id db) (Error.not_exist id) e) in
                      RunChange-over before (sym (insert_run_event-runs now o.1 db₃ db' v)) (
                        update_run-RunChange now no_config r r' o.0 db₃
                          (ap (lookup r.id) before ∙ stored) (changed now phase q) u)
                ]
          ]
        ]
      ]

module _ (now : ℕ) (db db' : Db) (keyed : IsKeyed db.runs) where
  finish_on_run-RunChange :
      (f : Run → Result Run) (id : String)
      → ((r r' : Run) → f r ≡ ok r' → RunStep no_config r r')
      → finish_on_run now f id db ≡ ok db'
      → RunChange db.runs db'.runs
  unfolding finish_on_run
  finish_on_run-RunChange f id steps h = by_run (get_run id db) refl h
    where
      by_run :
          (o : Option Run)
          → get_run id db ≡ o
          → elim o [ none ↦ ok db | some r ↦ (f r >>= λ r'. update_run now r' db) ] ≡ ok db'
          → RunChange db.runs db'.runs
      by_run none e q = same (ground arith)
      by_run (some r) e q = elim (>>=-Bound (f r) _ q) [
        | bound r' k u ↦
            update_run-RunChange now no_config r r' db db' (at_its_id db id r keyed e)
              (steps r r' k) u
      ]

  pub finish_setup_log-RunChange :
      (id t : String) → finish_setup_log now id t db ≡ ok db' → RunChange db.runs db'.runs
  unfolding finish_setup_log
  finish_setup_log-RunChange id t h =
      finish_on_run-RunChange (finish_setup_log_phase t) id (λ r r' e. fetched_setup_log t e) h

  pub finish_step_log-RunChange :
      (id t : String) (n : ℕ) → finish_step_log now id t n db ≡ ok db' → RunChange db.runs db'.runs
  unfolding finish_step_log
  finish_step_log-RunChange id t n h =
      finish_on_run-RunChange (finish_step_log_phase t n) id (λ r r' e. fetched_step_log t n e) h

  pub finish_archive_of-RunChange :
      (id t : String) (n : ℕ)
      → finish_archive_of now id t n db ≡ ok db'
      → RunChange db.runs db'.runs
  unfolding finish_archive_of
  finish_archive_of-RunChange id t n h =
      finish_on_run-RunChange (finish_archive_phase t n) id (λ r r' e. fetched_archive t n e) h

  pub finished_run_archiver-RunChange :
      (id : String) → finished_run_archiver now id db ≡ ok db' → RunChange db.runs db'.runs
  unfolding finished_run_archiver
  finished_run_archiver-RunChange id h =
      elim (>>=-Bound (or_err (get_run id db) (Error.not_exist id)) _ h) [
        | bound r e k ↦ by_archive r e (archive_run r) refl k
      ]
    where
      by_archive :
          (r : Run)
          → or_err (get_run id db) (Error.not_exist id) ≡ ok r
          → (o : Option Run) → archive_run r ≡ o
          → elim o [ none ↦ ok db | some r' ↦ update_run now r' db ] ≡ ok db'
          → RunChange db.runs db'.runs
      by_archive r e none a q = same (ground arith)
      by_archive r e (some r') a q =
          update_run-RunChange now no_config r r' db db'
            (at_its_id db id r keyed (or_err-some (get_run id db) (Error.not_exist id) e))
            (archived a) q

  pub handle_executor_task_update-RunChange :
      (et_id : String)
      → handle_executor_task_update now et_id db ≡ ok db'
      → RunChange db.runs db'.runs
  unfolding handle_executor_task_update
  handle_executor_task_update-RunChange et_id h =
      elim (>>=-Bound (or_err (get_executor_task et_id db) (Error.not_exist et_id)) _ h) [
        | bound et e k ↦
            elim (>>=-Bound (or_err (get_run et.spec.run_id db) (Error.not_exist et.spec.run_id)) _
              k) [
                | bound r l q ↦ elim (>>=-Bound (update_run_task_status et r) _ q) [
                  | bound r' u w ↦
                      update_run-RunChange now no_config r r' db db'
                        (at_its_id db et.spec.run_id r keyed (
                          or_err-some (get_run et.spec.run_id db) (Error.not_exist et.spec.run_id)
                            l))
                        (reported et u) w
                ]
              ]
      ]
