-- ===== src/System/Commits.antt =====
-- Every transaction that is committed at its first attempt, or at a repeat that is like one, against the
-- lifecycle of a run.
use agola.Prelude.{ap, sym, ◌∙◌, values}
use agola.Store.Db.{Db, get_executors}
use agola.Store.Tokens.Values.{get_change_groups_update_tokens-others}
use agola.System.Steps.{
  Committed, run_stopped, task_annotated, task_approved, phase_changed, setup_log_fetched,
  step_log_fetched, archive_fetched, run_archived, update_handled, task_cleaned, task_submitted,
  task_reported, executor_reported, stale_deleted, groups_compacted, token_made, executor_removed,
  tried_task, run_created, run_recreated,
}
use agola.System.Changes.{IsKeyed, RunChange, same}
use agola.System.Others.{
  clean_executor_task-runs, submit_executor_task-runs, report_executor_task_status-runs,
  report_executor_status-runs, delete_stale_executors-runs, compact_change_groups-runs,
  remove_executor-runs,
}
use agola.System.Effects.{
  stop_run_action-RunChange, run_task_set_annotations-RunChange, approve_run_task-RunChange,
  change_run_phase_action-RunChange, finish_setup_log-RunChange, finish_step_log-RunChange,
  finish_archive_of-RunChange, finished_run_archiver-RunChange,
  handle_executor_task_update-RunChange,
}
use agola.System.Creations.{save_run-RunChange, new_run_bundle-Inv, recreate_run_of-Inv}

pub Committed-RunChange :
    (db db' : Db) → IsKeyed db.runs → Committed db db' → RunChange db.runs db'.runs
Committed-RunChange db db' keyed (run_stopped now fresh cgt id h) =
    stop_run_action-RunChange now fresh cgt db db' keyed id h
Committed-RunChange db db' keyed (task_annotated now fresh cgt t a id h) =
    run_task_set_annotations-RunChange now fresh cgt db db' keyed t a id h
Committed-RunChange db db' keyed (task_approved now fresh cgt t id h) =
    approve_run_task-RunChange now fresh cgt db db' keyed t id h
Committed-RunChange db db' keyed (phase_changed now fresh cgt event_id seq_id phase id h) =
    change_run_phase_action-RunChange now fresh cgt db db' keyed event_id seq_id phase id h
Committed-RunChange db db' keyed (setup_log_fetched now id t h) =
    finish_setup_log-RunChange now db db' keyed id t h
Committed-RunChange db db' keyed (step_log_fetched now id t n h) =
    finish_step_log-RunChange now db db' keyed id t n h
Committed-RunChange db db' keyed (archive_fetched now id t n h) =
    finish_archive_of-RunChange now db db' keyed id t n h
Committed-RunChange db db' keyed (run_archived now id h) =
    finished_run_archiver-RunChange now db db' keyed id h
Committed-RunChange db db' keyed (update_handled now id h) =
    handle_executor_task_update-RunChange now db db' keyed id h
Committed-RunChange db db' keyed (task_cleaned now id should_send o sent h) =
    same (clean_executor_task-runs now id should_send db db' o sent h)
Committed-RunChange db db' keyed
      (task_submitted now id setup r rt rc e et tried should_send sent t g h) =
    same
      (submit_executor_task-runs now r.id rt.id should_send (tried_task tried t et) db db' sent h)
Committed-RunChange db db' keyed (task_reported now et h) =
    same (report_executor_task_status-runs now et db db' h)
Committed-RunChange db db' keyed (executor_reported now id e h) =
    same (report_executor_status-runs now id e db db' h)
Committed-RunChange db db' keyed (stale_deleted e h) =
    same (ap (λ (x : Db). x.runs) (sym h) ∙ delete_stale_executors-runs e (get_executors db) db)
Committed-RunChange db db' keyed (groups_compacted now h) =
    same (
      ap (λ (x : Db). x.runs) (sym h) ∙ compact_change_groups-runs now (values db.change_groups) db)
Committed-RunChange db db' keyed (token_made now new_id new_value names t h) = same (
    ap (λ (x : Db). x.runs)
      (get_change_groups_update_tokens-others now new_id new_value names db db' t h))
Committed-RunChange db db' keyed (executor_removed id h) = same (remove_executor-runs id db db' h)
Committed-RunChange db db' keyed (run_created text rc_id run_id req rb now fresh ids cgt b h) =
    save_run-RunChange now fresh ids cgt rb db db' (new_run_bundle-Inv text rc_id run_id req rb b) h
Committed-RunChange db db' keyed (run_recreated db₀ rc_id run_id req rb now fresh ids cgt b h) =
    save_run-RunChange now fresh ids cgt rb db db'
      (recreate_run_of-Inv fresh run_id rc_id req db₀ rb b) h
