-- ===== src/Action/Fetch.antt =====
-- finishSetupLogPhase, finishStepLogPhase, finishArchivePhase and finishedRunArchiver of
-- internal/services/runservice/scheduler.go: what they change in the run that they have read.
use agola.Prelude.{
  ℕ, zero, suc, String, ◌&&◌, true, false, List, [], ◌∷◌, Option, none, some, values, lookup,
  insert, all, length, leb, eqb, if◌then◌else◌, Result, ok, panicked, guard, not, or_err, ◌>>=◌,
  ◌>>◌, Error,
}
use agola.Types.{
  Run, RunTaskStep, RunTaskFetchPhase, phase_is_finished, logs_fetch_finished,
  archives_fetch_finished,
}

abbrev pub finish_log : RunTaskStep → RunTaskStep
finish_log s = record s { log_phase = RunTaskFetchPhase.finished }

unfoldable pub finish_setup_log_phase : String → Run → Result Run
finish_setup_log_phase task_id r = do
  rt ← or_err (lookup task_id r.tasks) (Error.no_such_run_task task_id r.id)
  ok (record r {
    tasks = insert task_id (record rt { setup_step = finish_log rt.setup_step }) r.tasks;
  })

abbrev pub finish_nth : ℕ → List RunTaskStep → List RunTaskStep
finish_nth n [] = []
finish_nth zero (s ∷ ss) = finish_log s ∷ ss
finish_nth (suc n) (s ∷ ss) = s ∷ finish_nth n ss

unfoldable pub finish_step_log_phase : String → ℕ → Run → Result Run
finish_step_log_phase task_id stepnum r = do
  rt ← or_err (lookup task_id r.tasks) (Error.no_such_run_task task_id r.id)
  guard (not (leb (length rt.steps) stepnum)) (Error.no_such_step task_id r.id)
  ok (record r {
    tasks = insert task_id (record rt { steps = finish_nth stepnum rt.steps }) r.tasks;
  })

abbrev with_phase :
    RunTaskFetchPhase
    → Option (Result (List RunTaskFetchPhase))
    → Option (Result (List RunTaskFetchPhase))
with_phase p none = none
with_phase p (some rest) = some (do ps ← rest; ok (p ∷ ps))

-- The loop over the archives: `none` if no archive has that step, and a panic if its phase is missing.
unfoldable pub finish_archive :
    ℕ → List ℕ → List RunTaskFetchPhase → Option (Result (List RunTaskFetchPhase))
finish_archive stepnum [] phases = none
finish_archive stepnum (sn ∷ sns) [] = elim (eqb stepnum sn) [
  | true ↦ some panicked
  | false ↦ finish_archive stepnum sns []
]
finish_archive stepnum (sn ∷ sns) (p ∷ ps) = elim (eqb stepnum sn) [
  | true ↦ some (ok (RunTaskFetchPhase.finished ∷ ps))
  | false ↦ with_phase p (finish_archive stepnum sns ps)
]

unfoldable pub finish_archive_phase : String → ℕ → Run → Result Run
finish_archive_phase task_id stepnum r = do
  rt ← or_err (lookup task_id r.tasks) (Error.no_such_run_task task_id r.id)
  guard (not (leb (length rt.steps) stepnum)) (Error.no_such_step task_id r.id)
  found ←
      or_err (finish_archive stepnum rt.workspace_archives rt.workspace_archives_phase)
        (Error.no_workspace_archive task_id r.id)
  phases ← found
  ok (record r { tasks = insert task_id (record rt { workspace_archives_phase = phases }) r.tasks })

-- `none` if the run is left as it is.
unfoldable pub archive_run : Run → Option Run
unfolding logs_fetch_finished archives_fetch_finished
archive_run r =
    if phase_is_finished r.phase
      && all (λ rt. logs_fetch_finished rt && archives_fetch_finished rt) (values r.tasks)
    then some (record r { archived = true })
    else none
