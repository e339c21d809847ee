-- ===== src/Scheduler/Parents.antt =====
-- What the counting loops of internal/services/runservice/scheduler.go decide: whether every parent of
-- a task is finished, and whether every parent matches a condition.
use agola.Prelude.{
  ℕ, ◌≤◌, ◌≡◌, refl, ◌∙◌, ap, true, List, [], ◌∷◌, Option, none, some, lookup, length, any, any-mem,
  All, Memᴰ, ok, deref, deref-ok, bound, >>=-Bound, arith, Bool-cases, inl, inr,
}
use agola.Types.{
  Run, RunTask, RunConfigTask, RunConfigTaskDependCondition, status_is_finished,
  archives_fetch_finished,
}
use agola.RunConfig.Graph.{get_parent_depend_conditions}
use agola.Scheduler.Tasks.{cond_matches, conds_match, count_matched, finished_parents}

-- The task of parent `p` is finished, and its archives are fetched.
pub data ParentDone (r : Run) (p : RunConfigTask) : Type 0 where
  done :
      (rp : RunTask)
      → lookup p.id r.tasks ≡ some rp
      → status_is_finished rp.status ≡ true
      → archives_fetch_finished rp ≡ true
      → ParentDone r p

-- The status of the task of parent `p` is named by one of the conditions of `rct` on `p`.
pub data ParentMatches (rct : RunConfigTask) (r : Run) (p : RunConfigTask) : Type 0 where
  matches :
      (rp : RunTask)
      → lookup p.id r.tasks ≡ some rp
      → (cond : RunConfigTaskDependCondition) → Memᴰ cond (get_parent_depend_conditions rct p)
      → cond_matches cond rp.status ≡ true
      → ParentMatches rct r p

-- What the loop over the parents has counted: at most all of them, and all only if each is done.
finished_parents-le :
    (r : Run) (ps : List RunConfigTask) (n : ℕ) → finished_parents r ps ≡ ok n → n ≤ length ps
unfolding finished_parents
finished_parents-le r [] n h = ground arith
finished_parents-le r (p ∷ ps) n h = elim (>>=-Bound (deref (lookup p.id r.tasks)) _ h) [
  | bound rp e h' ↦ elim (>>=-Bound (finished_parents r ps) _ h') [
    | bound m e' h'' ↦ ground (arith, finished_parents-le r ps m e')
  ]
]

pub finished_parents-ParentDone :
    (r : Run) (ps : List RunConfigTask) (n : ℕ)
    → finished_parents r ps ≡ ok n
    → n ≡ length ps
    → All (ParentDone r) ps
unfolding finished_parents
finished_parents-ParentDone r [] n h full = tt
finished_parents-ParentDone r (p ∷ ps) n h full =
    elim (>>=-Bound (deref (lookup p.id r.tasks)) _ h) [
      | bound rp e h' ↦ elim (>>=-Bound (finished_parents r ps) _ h') [
        | bound m e' h'' ↦
            let le = finished_parents-le r ps m e' in
            (
              done rp (deref-ok _ e) (ground arith) (ground arith),
              finished_parents-ParentDone r ps m e' (ground arith),
            )
      ]
    ]

pub ParentDone-finished_parents :
    (r : Run) (ps : List RunConfigTask)
    → All (ParentDone r) ps
    → finished_parents r ps ≡ ok (length ps)
unfolding finished_parents
ParentDone-finished_parents r [] h = refl
ParentDone-finished_parents r (p ∷ ps) (done rp e f a, h) =
    rw (e, ParentDone-finished_parents r ps h, f, a)

-- The loop over the conditions of one parent.
conds_match-mem :
    (conds : List RunConfigTaskDependCondition) (o : Option RunTask)
    → conds_match conds o ≡ ok true
    → (rp : RunTask) × (o ≡ some rp)
      × (cond : RunConfigTaskDependCondition) × Memᴰ cond conds
      × (cond_matches cond rp.status ≡ true)
unfolding conds_match
conds_match-mem [] o h = cc
conds_match-mem (c ∷ conds) none h = cc
conds_match-mem (c ∷ conds) (some rp) h = elim (>>=-Bound (conds_match conds (some rp)) _ h) [
  | bound rest e h' ↦ elim (Bool-cases (cond_matches c rp.status)) [
    | inl hit ↦ (rp, refl, c, Memᴰ.head refl, hit)
    | inr miss ↦
        let (q, eq, d, m, k) = conds_match-mem conds (some rp) (e ∙ ap ok (ground arith)) in
        (q, eq, d, Memᴰ.tail m, k)
  ]
]

conds_match-some :
    (conds : List RunConfigTaskDependCondition) (rp : RunTask)
    → conds_match conds (some rp) ≡ ok (any (λ c. cond_matches c rp.status) conds)
unfolding conds_match
conds_match-some [] rp = refl
conds_match-some (c ∷ conds) rp = rw (conds_match-some conds rp)

count_matched-le :
    (rct : RunConfigTask) (r : Run) (ps : List RunConfigTask) (n : ℕ)
    → count_matched rct r ps ≡ ok n
    → n ≤ length ps
unfolding count_matched
count_matched-le rct r [] n h = ground arith
count_matched-le rct r (p ∷ ps) n h =
    elim (>>=-Bound (conds_match (get_parent_depend_conditions rct p) (lookup p.id r.tasks)) _ h) [
      | bound matched e h' ↦ elim (>>=-Bound (count_matched rct r ps) _ h') [
        | bound m e' h'' ↦ ground (arith, count_matched-le rct r ps m e')
      ]
    ]

pub count_matched-ParentMatches :
    (rct : RunConfigTask) (r : Run) (ps : List RunConfigTask) (n : ℕ)
    → count_matched rct r ps ≡ ok n
    → length ps ≡ n
    → All (ParentMatches rct r) ps
unfolding count_matched
count_matched-ParentMatches rct r [] n h full = tt
count_matched-ParentMatches rct r (p ∷ ps) n h full =
    elim (>>=-Bound (conds_match (get_parent_depend_conditions rct p) (lookup p.id r.tasks)) _ h) [
      | bound matched e h' ↦ elim (>>=-Bound (count_matched rct r ps) _ h') [
        | bound m e' h'' ↦
            let le = count_matched-le rct r ps m e' in
            let hit : matched ≡ true = ground arith in
            let (rp, l, c, mem, k) = conds_match-mem _ _ (e ∙ ap ok hit) in
            (matches rp l c mem k, count_matched-ParentMatches rct r ps m e' (ground arith))
      ]
    ]

pub ParentMatches-count_matched :
    (rct : RunConfigTask) (r : Run) (ps : List RunConfigTask)
    → All (ParentMatches rct r) ps
    → count_matched rct r ps ≡ ok (length ps)
unfolding count_matched
ParentMatches-count_matched rct r [] h = refl
ParentMatches-count_matched rct r (p ∷ ps) (matches rp e c m k, h) = rw (
  e,
  conds_match-some (get_parent_depend_conditions rct p) rp,
  any-mem (λ c. cond_matches c rp.status) _ m k,
  ParentMatches-count_matched rct r ps h,
)
