-- ===== src/Lifecycle/Writes.antt =====
-- The operations that write one task of a run: they leave the rest of the run as it is.
use agola.Prelude.{
  ℕ, String, ◌≡◌, sym, subst, true, false, not, Map, lookup, insert, some, guard, ok, or_err, bound,
  >>=-Bound, Error, arith, Option, none, leb, length, Bool-cases, inl, inr, if◌then◌else◌,
}
use agola.Types.{Run, RunTask, RunTaskStatus, ExecutorTask, ExecutorTaskPhase, status_is_finished}
use agola.Scheduler.Phase.{all_finished}
use agola.Scheduler.Report.{
  wrong_status, status_of_phase, update_steps, report_task, update_run_task_status,
}
use agola.Action.Change.{set_annotations, approve_task}
use agola.Action.Fetch.{
  finish_log, finish_nth, finish_setup_log_phase, finish_step_log_phase, finish_archive,
  finish_archive_phase,
}
use agola.Lifecycle.Status.{moves, moves_refl, Forward, Forward-insert, all-insert, all-lookup}

or_err-ok {ℓ} : {A : Type ℓ} (o : Option A) (e : Error) {a : A} → or_err o e ≡ ok a → o ≡ some a
or_err-ok none e h = cc
or_err-ok (some a) e h = cc

-- One task of `r`, `v` under the key `k`, is replaced by `w`, whose status has moved forward.
pub data TaskWrite (r r' : Run) : Type 0 where
  wrote :
      (k : String) (v w : RunTask)
      → lookup k r.tasks ≡ some v
      → moves v.status w.status ≡ true
      → r' ≡ record r { tasks = insert k w r.tasks }
      → TaskWrite r r'

pub TaskWrite-Forward : {r r' : Run} → TaskWrite r r' → Forward r.tasks r'.tasks
TaskWrite-Forward {r} {r'} (wrote k v w l m e) =
    subst (λ (x : Run). Forward r.tasks x.tasks) (sym e) (Forward-insert r.tasks k v w l m)

moves-finished :
    (a b : RunTaskStatus)
    → moves a b ≡ true
    → status_is_finished a ≡ true
    → status_is_finished b ≡ true
moves-finished a b h f = ground arith

pub TaskWrite-all_finished :
    {r r' : Run} → TaskWrite r r' → all_finished r ≡ true → all_finished r' ≡ true
TaskWrite-all_finished {r} {r'} (wrote k v w l m e) f =
    let fv = all-lookup (λ (t : RunTask). status_is_finished t.status) k v r.tasks f l in
    subst (λ (x : Run). all_finished x ≡ true) (sym e)
      (all-insert (λ (t : RunTask). status_is_finished t.status) k w r.tasks f
        (moves-finished v.status w.status m fv))

pub set_annotations-TaskWrite :
    (t : String) (a : Map String) (r r' : Run) → set_annotations t a r ≡ ok r' → TaskWrite r r'
unfolding set_annotations
set_annotations-TaskWrite t a r r' h =
    elim (>>=-Bound (or_err (lookup t r.tasks) (Error.bad_request t)) _ h) [
      | bound v e q ↦
          wrote t v (record v { annotations = a }) (or_err-ok _ _ e) (moves_refl v.status)
            (ground arith)
    ]

pub approve_task-TaskWrite : (t : String) (r r' : Run) → approve_task t r ≡ ok r' → TaskWrite r r'
unfolding approve_task
approve_task-TaskWrite t r r' h =
    elim (>>=-Bound (or_err (lookup t r.tasks) (Error.bad_request t)) _ h) [
      | bound v e q ↦
          wrote t v (record v { waiting_approval = false; approved = true }) (or_err-ok _ _ e)
            (moves_refl v.status) (ground arith)
    ]

pub finish_setup_log_phase-TaskWrite :
    (t : String) (r r' : Run) → finish_setup_log_phase t r ≡ ok r' → TaskWrite r r'
unfolding finish_setup_log_phase
finish_setup_log_phase-TaskWrite t r r' h =
    elim (>>=-Bound (or_err (lookup t r.tasks) (Error.no_such_run_task t r.id)) _ h) [
      | bound v e q ↦
          wrote t v (record v { setup_step = finish_log v.setup_step }) (or_err-ok _ _ e)
            (moves_refl v.status) (ground arith)
    ]

pub finish_step_log_phase-TaskWrite :
    (t : String) (n : ℕ) (r r' : Run) → finish_step_log_phase t n r ≡ ok r' → TaskWrite r r'
unfolding finish_step_log_phase
finish_step_log_phase-TaskWrite t n r r' h =
    elim (>>=-Bound (or_err (lookup t r.tasks) (Error.no_such_run_task t r.id)) _ h) [
      | bound v e q ↦
          elim (>>=-Bound (guard (not (leb (length v.steps) n)) (Error.no_such_step t r.id)) _ q) [
            | bound _ _ q' ↦
                wrote t v (record v { steps = finish_nth n v.steps }) (or_err-ok _ _ e)
                  (moves_refl v.status) (ground arith)
          ]
    ]

pub finish_archive_phase-TaskWrite :
    (t : String) (n : ℕ) (r r' : Run) → finish_archive_phase t n r ≡ ok r' → TaskWrite r r'
unfolding finish_archive_phase
finish_archive_phase-TaskWrite t n r r' h =
    elim (>>=-Bound (or_err (lookup t r.tasks) (Error.no_such_run_task t r.id)) _ h) [
      | bound v e q ↦
          elim (>>=-Bound (guard (not (leb (length v.steps) n)) (Error.no_such_step t r.id)) _ q) [
            | bound _ _ q' ↦
                elim (>>=-Bound
                  (or_err (finish_archive n v.workspace_archives v.workspace_archives_phase)
                    (Error.no_workspace_archive t r.id))
                  _ q') [
                    | bound found _ q'' ↦ elim (>>=-Bound found _ q'') [
                      | bound phases _ q₃ ↦
                          wrote t v (record v { workspace_archives_phase = phases })
                            (or_err-ok _ _ e) (moves_refl v.status) (ground arith)
                    ]
                  ]
          ]
    ]

-- A report that is not ignored moves the status forward.
wrong_status-moves :
    (p : ExecutorTaskPhase) (s : RunTaskStatus)
    → wrong_status p s ≡ false
    → moves s (status_of_phase p) ≡ true
unfolding wrong_status
wrong_status-moves p s h = ground arith

report_task-moves :
    (et : ExecutorTask) (v w : RunTask) → report_task et v ≡ ok w → moves v.status w.status ≡ true
unfolding report_task
report_task-moves et v w h = elim (Bool-cases (wrong_status et.status.phase v.status)) [
  | inl bad ↦ ground (arith, moves_refl v.status)
  | inr good ↦
      elim (>>=-Bound (update_steps et.status.steps v.steps) _ (rw (good, if◌then◌else◌) at h)) [
        | bound ss _ q ↦
            let m = wrong_status-moves et.status.phase v.status good in ground (arith, m)
      ]
]

pub update_run_task_status-TaskWrite :
    (et : ExecutorTask) (r r' : Run) → update_run_task_status et r ≡ ok r' → TaskWrite r r'
unfolding update_run_task_status
update_run_task_status-TaskWrite et r r' h =
    elim (>>=-Bound
      (or_err (lookup et.spec.run_task_id r.tasks)
        (Error.no_such_run_task et.spec.run_task_id r.id))
      _ h) [
        | bound v e q ↦ elim (>>=-Bound (report_task et v) _ q) [
          | bound w e' q' ↦
              wrote et.spec.run_task_id v w (or_err-ok _ _ e) (report_task-moves et v w e')
                (ground arith)
        ]
      ]
