-- ===== src/Scheduler/Advance/OneTask.antt =====
-- What the three loops of advanceRunTasks of internal/services/runservice/scheduler.go do to one task.
use agola.Prelude.{
  ◌≡◌, subst, Bool, true, false, ◌||◌, not, List, [], ◌∷◌, some, lookup, All, Result, ok, deref,
  deref-ok, bound, >>=-Bound, arith, Bool-cases, inl, inr, ◌⊎◌, if◌then◌else◌, Map, ltb, length,
  ◌&&◌, ◌>>=◌, none, ◌≢◌, Option-cases, eqb,
}
use agola.Types.{
  Run, RunTask, RunTaskStatus, RunConfig, RunConfigTask, ExecutorTask, is_not_started, is_set,
}
use agola.RunConfig.Graph.{get_parents}
use agola.Scheduler.Tasks.{
  finished_parents, parents_of, task_matches_parent_depend_condition, is_scheduled, skip_stopped,
  cancel_root, wait_approval, advance_task,
}
use agola.Scheduler.Parents.{ParentDone, ParentMatches, finished_parents-ParentDone}
use agola.Scheduler.Runnable.{matches-ParentMatches, ParentMatches-matches}

-- The ways in which one call changes a task `rt` into `t`.
pub data Advances (r : Run) (rc : RunConfig) (ets : List ExecutorTask) (rt t : RunTask)
    : Type 0 where
  kept : t ≡ rt → Advances r rc ets rt t
  -- The run is set to stop, and no executor task is scheduled for the task.
  stopped :
      r.stop ≡ true
      → rt.status ≡ RunTaskStatus.not_started
      → is_scheduled ets rt ≡ false
      → t ≡ record rt { status = RunTaskStatus.skipped }
      → Advances r rc ets rt t
  -- A root task that is not scheduled, in a run that has a result.
  cancelled :
      is_set r.result ≡ true
      → rt.status ≡ RunTaskStatus.not_started
      → rt.skip ≡ false
      → parents_of rc.tasks (lookup rt.id rc.tasks) ≡ ok []
      → is_scheduled ets rt ≡ false
      → t ≡ record rt { status = RunTaskStatus.cancelled }
      → Advances r rc ets rt t
  -- Every parent is done, and one of them has a status that the task does not ask for.
  unmatched :
      (rct : RunConfigTask)
      → lookup rt.id rc.tasks ≡ some rct
      → rt.status ≡ RunTaskStatus.not_started
      → rt.skip ≡ false
      → All (ParentDone r) (get_parents rc.tasks rct)
      → ¬ All (ParentMatches rct r) (get_parents rc.tasks rct)
      → t ≡ record rt { status = RunTaskStatus.skipped }
      → Advances r rc ets rt t
  -- The task could run, and waits for its approval.
  held :
      (rct : RunConfigTask)
      → lookup rt.id rc.tasks ≡ some rct
      → rt.status ≡ RunTaskStatus.not_started
      → rt.skip ≡ false
      → All (ParentDone r) (get_parents rc.tasks rct)
      → All (ParentMatches rct r) (get_parents rc.tasks rct)
      → rct.needs_approval ≡ true
      → rt.approved ≡ false
      → t ≡ record rt { waiting_approval = true }
      → Advances r rc ets rt t

advance_task_started :
    (r : Run) (rc : RunConfig) (t : RunTask)
    → is_not_started t.status ≡ false
    → advance_task r rc t ≡ ok t
unfolding advance_task
advance_task_started r rc t h = ground arith

cancel_root_started :
    (r : Run) (rc : RunConfig) (ets : List ExecutorTask) (t : RunTask)
    → is_not_started t.status ≡ false
    → cancel_root r rc ets t ≡ ok t
unfolding cancel_root
cancel_root_started r rc ets t h = ground arith

-- A guard in front of `x` that keeps the task.
guarded :
    (b : Bool) (rt t : RunTask) (x : Result RunTask)
    → (if b then ok rt else x) ≡ ok t
    → ((b ≡ true) × (t ≡ rt)) ⊎ ((b ≡ false) × (x ≡ ok t))
guarded b rt t x h = ground arith

fresh_parts :
    (rt : RunTask)
    → (rt.skip || not (is_not_started rt.status)) ≡ false
    → (rt.skip ≡ false) × (rt.status ≡ RunTaskStatus.not_started)
fresh_parts rt h = ground arith

cancel_root-Advances :
    (r : Run) (rc : RunConfig) (ets : List ExecutorTask) (rt t : RunTask)
    → cancel_root r rc ets rt ≡ ok t
    → (t ≡ rt) ⊎ ((is_not_started t.status ≡ false) × Advances r rc ets rt t)
unfolding cancel_root
cancel_root-Advances r rc ets rt t h =
    elim (guarded (rt.skip || not (is_not_started rt.status)) rt t _ h) [
      | inl (_, e) ↦ inl e
      | inr (fresh, h₁) ↦ elim (>>=-Bound (parents_of rc.tasks (lookup rt.id rc.tasks)) _ h₁) [
        | bound ps e h₂ ↦ no_parents ps e (fresh_parts rt fresh).0 (fresh_parts rt fresh).1 h₂
      ]
    ]
  where
    no_parents :
        (ps : List RunConfigTask)
        → parents_of rc.tasks (lookup rt.id rc.tasks) ≡ ok ps
        → rt.skip ≡ false
        → rt.status ≡ RunTaskStatus.not_started
        → (if ltb 0 (length ps)
            then ok rt
            else if is_set r.result && not (is_scheduled ets rt)
            then ok (record rt { status = RunTaskStatus.cancelled })
            else ok rt)
          ≡ ok t
        → (t ≡ rt) ⊎ ((is_not_started t.status ≡ false) × Advances r rc ets rt t)
    no_parents (p ∷ ps) e k w q = inl (ground arith)
    no_parents [] e k w q = elim (Bool-cases (is_set r.result && not (is_scheduled ets rt))) [
      | inl hit ↦
          let eq : t ≡ record rt { status = RunTaskStatus.cancelled } = ground arith in
          inr (ground arith, cancelled (ground arith) w k e (ground arith) eq)
      | inr miss ↦ inl (ground arith)
    ]

parents_of-some :
    (rcts : Map RunConfigTask) (rct : RunConfigTask) (ps : List RunConfigTask)
    → parents_of rcts (some rct) ≡ ok ps
    → ps ≡ get_parents rcts rct
unfolding parents_of
parents_of-some rcts rct ps h = ground arith

parents_of-none : (rcts : Map RunConfigTask) → (parents_of rcts none >>= λ _. ok true) ≢ ok false
unfolding parents_of
parents_of-none [] h = cc
parents_of-none (e ∷ rcts) h = cc

-- A task with no definition never fails the conditions.
unmatched-defined :
    (rt : RunTask) (r : Run) (rc : RunConfig)
    → task_matches_parent_depend_condition rt r rc ≡ ok false
    → (rct : RunConfigTask) × (lookup rt.id rc.tasks ≡ some rct)
unfolding task_matches_parent_depend_condition
unmatched-defined rt r rc h = elim (Option-cases (lookup rt.id rc.tasks)) [
  | inr d ↦ d
  | inl e ↦ absurd (parents_of-none rc.tasks (rw (e, task_matches_parent_depend_condition) at h))
]

advance_task-Advances :
    (r : Run) (rc : RunConfig) (ets : List ExecutorTask) (rt t : RunTask)
    → advance_task r rc rt ≡ ok t
    → Advances r rc ets rt t
unfolding advance_task
advance_task-Advances r rc ets rt t h =
    elim (guarded (rt.skip || not (is_not_started rt.status)) rt t _ h) [
      | inl (_, e) ↦ kept e
      | inr (fresh, h₁) ↦ elim (>>=-Bound (parents_of rc.tasks (lookup rt.id rc.tasks)) _ h₁) [
        | bound ps e₁ h₂ ↦ elim (>>=-Bound (finished_parents r ps) _ h₂) [
          | bound n e₂ h₃ ↦ elim (guarded (not (eqb n (length ps))) rt t _ h₃) [
            | inl (_, e) ↦ kept e
            | inr (full, h₄) ↦
                elim (>>=-Bound (task_matches_parent_depend_condition rt r rc) _ h₄) [
                  | bound b e₃ h₅ ↦
                      decided ps (fresh_parts rt fresh).0 (fresh_parts rt fresh).1 e₁
                        (finished_parents-ParentDone r ps n e₂ (ground arith)) b e₃ h₅
                ]
          ]
        ]
      ]
    ]
  where
    found_parents :
        {ps : List RunConfigTask} (rc : RunConfig) (rct : RunConfigTask)
        → lookup rt.id rc.tasks ≡ some rct
        → parents_of rc.tasks (lookup rt.id rc.tasks) ≡ ok ps
        → ps ≡ get_parents rc.tasks rct
    found_parents {ps} rc rct l e =
        parents_of-some rc.tasks rct ps (subst (λ o. parents_of rc.tasks o ≡ ok ps) l e)

    approval :
        (rct : RunConfigTask)
        → lookup rt.id rc.tasks ≡ some rct
        → rt.status ≡ RunTaskStatus.not_started
        → rt.skip ≡ false
        → All (ParentDone r) (get_parents rc.tasks rct)
        → All (ParentMatches rct r) (get_parents rc.tasks rct)
        → ok (wait_approval rct rt) ≡ ok t
        → Advances r rc ets rt t
    approval rct l w k d m q =
        elim (Bool-cases (rct.needs_approval && not rt.waiting_approval && not rt.approved)) [
          | inl hit ↦ held rct l w k d m (ground arith) (ground arith) (ground arith)
          | inr miss ↦ kept (ground arith)
        ]

    decided :
        (ps : List RunConfigTask)
        → rt.skip ≡ false
        → rt.status ≡ RunTaskStatus.not_started
        → parents_of rc.tasks (lookup rt.id rc.tasks) ≡ ok ps
        → All (ParentDone r) ps
        → (b : Bool) → task_matches_parent_depend_condition rt r rc ≡ ok b
        → (if not b
            then ok (record rt { status = RunTaskStatus.skipped })
            else (do rct ← deref (lookup rt.id rc.tasks); ok (wait_approval rct rt)))
          ≡ ok t
        → Advances r rc ets rt t
    decided ps k w e d false m q =
        let (rct, l) = unmatched-defined rt r rc m in
        unmatched rct l w k (subst (All (ParentDone r)) (found_parents rc rct l e) d)
          (λ all. cc (ParentMatches-matches rt r rc rct l all)) (ground arith)
    decided ps k w e d true m q = elim (>>=-Bound (deref (lookup rt.id rc.tasks)) _ q) [
      | bound rct e' q' ↦
          let l = deref-ok _ e' in
          approval rct l w k (subst (All (ParentDone r)) (found_parents rc rct l e) d)
            (matches-ParentMatches rt r rc rct l m) q'
    ]

-- The three loops, one after the other, on one task.
pub advance_chain :
    (r : Run) (rc : RunConfig) (ets : List ExecutorTask) (rt t₁ t₂ t₃ : RunTask)
    → (if r.stop then skip_stopped ets rt else rt) ≡ t₁
    → cancel_root r rc ets t₁ ≡ ok t₂
    → advance_task r rc t₂ ≡ ok t₃
    → Advances r rc ets rt t₃
unfolding skip_stopped
advance_chain r rc ets rt t₁ t₂ t₃ e₁ e₂ e₃ =
    elim (Bool-cases (r.stop && not (is_scheduled ets rt) && is_not_started rt.status)) [
      | inl hit ↦
          let eq : t₁ ≡ record rt { status = RunTaskStatus.skipped } = ground arith in
          let e₁₂ = cancel_root_started r rc ets t₁ (ground arith) in
          let e₂₃ = advance_task_started r rc t₁ (ground arith) in
          stopped (ground arith) (ground arith) (ground arith) (ground (arith, eq, e₁₂, e₂₃))
      | inr miss ↦
          let eq : t₁ ≡ rt = ground arith in
          elim (cancel_root-Advances r rc ets rt t₂
            (subst (λ t. cancel_root r rc ets t ≡ ok t₂) eq e₂)) [
              | inl same ↦
                  advance_task-Advances r rc ets rt t₃
                    (subst (λ t. advance_task r rc t ≡ ok t₃) same e₃)
              | inr (started, a) ↦
                  let e₂₃ = advance_task_started r rc t₂ started in
                  subst (Advances r rc ets rt) (ground (arith, e₂₃)) a
            ]
    ]
