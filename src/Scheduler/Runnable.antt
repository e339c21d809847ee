-- ===== src/Scheduler/Runnable.antt =====
-- What getTasksToRun of internal/services/runservice/scheduler.go returns, told without its loops.
use agola.Prelude.{
  ℕ, ◌≡◌, ◌↔◌, ◌∙◌, sym, ap, subst, Bool, true, false, List, [], ◌∷◌, some, lookup, values, All,
  Memᴰ, Result, ok, deref, deref-ok, bound, >>=-Bound, arith, Bool-cases, inl, inr, length, eqb,
  if◌then◌else◌,
}
use agola.Types.{Run, RunTask, RunTaskStatus, RunConfig, RunConfigTask, is_not_started}
use agola.RunConfig.Graph.{get_parents}
use agola.Scheduler.Tasks.{
  finished_parents, count_matched, parents_of, task_matches_parent_depend_condition, can_run,
  tasks_to_run, get_tasks_to_run,
}
use agola.Scheduler.Parents.{
  ParentDone, ParentMatches, finished_parents-ParentDone, ParentDone-finished_parents,
  count_matched-ParentMatches, ParentMatches-count_matched,
}

-- A task that may be handed to an executor: it has a definition, it is not started and not set to be
-- skipped, each parent is finished with its archives fetched and has a status that the task asks
-- for, and the task is approved if it needs approval.
pub record Runnable (r : Run) (rc : RunConfig) (rt : RunTask) : Type 0 where
  pub rct : RunConfigTask
  pub defined : lookup rt.id rc.tasks ≡ some rct
  pub kept : rt.skip ≡ false
  pub waiting : rt.status ≡ RunTaskStatus.not_started
  pub parents_done : All (ParentDone r) (get_parents rc.tasks rct)
  pub parents_match : All (ParentMatches rct r) (get_parents rc.tasks rct)
  pub permitted : rct.needs_approval ≡ true → rt.approved ≡ true

pub matches-ParentMatches :
    (rt : RunTask) (r : Run) (rc : RunConfig) (rct : RunConfigTask)
    → lookup rt.id rc.tasks ≡ some rct
    → task_matches_parent_depend_condition rt r rc ≡ ok true
    → All (ParentMatches rct r) (get_parents rc.tasks rct)
unfolding task_matches_parent_depend_condition
matches-ParentMatches rt r rc rct e h =
    elim (>>=-Bound (count_matched rct r (get_parents rc.tasks rct)) _
      (rw (e, task_matches_parent_depend_condition) at h)) [
        | bound n c q ↦ count_matched-ParentMatches rct r _ n c (ground arith)
      ]

pub ParentMatches-matches :
    (rt : RunTask) (r : Run) (rc : RunConfig) (rct : RunConfigTask)
    → lookup rt.id rc.tasks ≡ some rct
    → All (ParentMatches rct r) (get_parents rc.tasks rct)
    → task_matches_parent_depend_condition rt r rc ≡ ok true
unfolding task_matches_parent_depend_condition
ParentMatches-matches rt r rc rct e h =
    rw (e, task_matches_parent_depend_condition, ParentMatches-count_matched rct r _ h)
      (ground arith)

not_started-eq : (s : RunTaskStatus) → is_not_started s ≡ true → s ≡ RunTaskStatus.not_started
not_started-eq s h = ground arith

eqb_refl : (n : ℕ) → eqb n n ≡ true
eqb_refl n = ground arith

-- Past a guard that answers `false`.
past_guard :
    (b : Bool) (x : Result Bool)
    → (if b then ok false else x) ≡ ok true
    → (b ≡ false) × (x ≡ ok true)
past_guard b x h = ground arith

pub can_run-Runnable :
    (r : Run) (rc : RunConfig) (rt : RunTask) → can_run r rc rt ≡ ok true → Runnable r rc rt
unfolding can_run
can_run-Runnable r rc rt h =
    let (fresh, h₁) = past_guard _ _ h in
    elim (>>=-Bound (parents_of rc.tasks (lookup rt.id rc.tasks)) _ h₁) [
      | bound ps e₁ h₂ ↦ elim (>>=-Bound (finished_parents r ps) _ h₂) [
        | bound n e₂ h₃ ↦
            let (full, h₄) = past_guard _ _ h₃ in
            elim (>>=-Bound (task_matches_parent_depend_condition rt r rc) _ h₄) [
              | bound matched e₃ h₅ ↦
                  let (hit, h₆) = past_guard _ _ h₅ in
                  elim (>>=-Bound (deref (lookup rt.id rc.tasks)) _ h₆) [
                    | bound rct e₄ h₇ ↦
                        let d = deref-ok _ e₄ in
                        let parents : ps ≡ get_parents rc.tasks rct = ground arith in
                        record {
                          rct = rct;
                          defined = d;
                          kept = ground arith;
                          waiting = ground arith;
                          parents_done =
                              subst (All (ParentDone r)) parents
                                (finished_parents-ParentDone r ps n e₂ (ground arith));
                          parents_match =
                              matches-ParentMatches rt r rc rct d (e₃ ∙ ap ok (ground arith));
                          permitted = λ needs. ground arith;
                        }
                  ]
            ]
      ]
    ]

pub Runnable-can_run :
    (r : Run) (rc : RunConfig) (rt : RunTask) → Runnable r rc rt → can_run r rc rt ≡ ok true
unfolding can_run parents_of
Runnable-can_run r rc rt v =
    simp
      (
        v.kept,
        v.waiting,
        v.defined,
        ParentDone-finished_parents r _ v.parents_done,
        eqb_refl (length (get_parents rc.tasks v.rct)),
        ParentMatches-matches rt r rc v.rct v.defined v.parents_match,
      )
      (ground (arith, v.permitted))

tasks_to_run_sound :
    (r : Run) (rc : RunConfig) (rts ts : List RunTask)
    → tasks_to_run r rc rts ≡ ok ts
    → {rt : RunTask} → Memᴰ rt ts
    → Memᴰ rt rts × Runnable r rc rt
unfolding tasks_to_run
tasks_to_run_sound r rc [] ts h {rt} m =
    let none_left : Memᴰ rt [] = subst (Memᴰ rt) (ground arith) m in elim none_left [ ]
tasks_to_run_sound r rc (x ∷ rts) ts h {rt} m = elim (>>=-Bound (can_run r rc x) _ h) [
  | bound b e h₁ ↦ elim (>>=-Bound (tasks_to_run r rc rts) _ h₁) [
    | bound rest e' h₂ ↦ elim (Bool-cases b) [
      | inl hit ↦
          here (e ∙ ap ok hit) (subst (Memᴰ rt) (ground arith) m)
            (tasks_to_run_sound r rc rts rest e')
      | inr miss ↦
          let (a, v) = tasks_to_run_sound r rc rts rest e' (subst (Memᴰ rt) (ground arith) m) in
          (Memᴰ.tail a, v)
    ]
  ]
]
  where
    here :
        {rest : List RunTask}
        → can_run r rc x ≡ ok true
        → Memᴰ rt (x ∷ rest)
        → (Memᴰ rt rest → Memᴰ rt rts × Runnable r rc rt)
        → Memᴰ rt (x ∷ rts) × Runnable r rc rt
    here c (Memᴰ.head q) ih =
        (Memᴰ.head q, subst (Runnable r rc) (sym q) (can_run-Runnable r rc x c))
    here c (Memᴰ.tail t) ih = let (a, v) = ih t in (Memᴰ.tail a, v)

tasks_to_run_complete :
    (r : Run) (rc : RunConfig) (rts ts : List RunTask)
    → tasks_to_run r rc rts ≡ ok ts
    → {rt : RunTask} → Memᴰ rt rts
    → Runnable r rc rt
    → Memᴰ rt ts
unfolding tasks_to_run
tasks_to_run_complete r rc [] ts h m v = elim m [ ]
tasks_to_run_complete r rc (x ∷ rts) ts h {rt} m v = elim (>>=-Bound (can_run r rc x) _ h) [
  | bound b e h₁ ↦ elim (>>=-Bound (tasks_to_run r rc rts) _ h₁) [
    | bound rest e' h₂ ↦ go b rest e h₂ m (λ t. tasks_to_run_complete r rc rts rest e' t v)
  ]
]
  where
    go :
        (b : Bool) (rest : List RunTask)
        → can_run r rc x ≡ ok b
        → ok (if b then x ∷ rest else rest) ≡ ok ts
        → Memᴰ rt (x ∷ rts)
        → (Memᴰ rt rts → Memᴰ rt rest)
        → Memᴰ rt ts
    go b rest c q (Memᴰ.head p) ih =
        let run : can_run r rc x ≡ ok true =
          subst (λ y. can_run r rc y ≡ ok true) p (Runnable-can_run r rc rt v) in
        subst (Memᴰ rt) (ground arith) (Memᴰ.head {xs = rest} p)
    go true rest c q (Memᴰ.tail t) ih = subst (Memᴰ rt) (ground arith) (Memᴰ.tail {x = x} (ih t))
    go false rest c q (Memᴰ.tail t) ih = subst (Memᴰ rt) (ground arith) (ih t)

-- The tasks that getTasksToRun returns are exactly the tasks of the run that may be handed to an
-- executor.
pub get_tasks_to_run-Runnable :
    (r : Run) (rc : RunConfig) (ts : List RunTask)
    → get_tasks_to_run r rc ≡ ok ts
    → (rt : RunTask) → Memᴰ rt ts ↔ (Memᴰ rt (values r.tasks) × Runnable r rc rt)
unfolding get_tasks_to_run
get_tasks_to_run-Runnable r rc ts h rt = (
  tasks_to_run_sound r rc (values r.tasks) ts h,
  λ p. tasks_to_run_complete r rc (values r.tasks) ts h p.0 p.1,
)
