-- ===== src/Lifecycle/Status.antt =====
-- How the statuses of a run's tasks move.
use agola.Prelude.{
  String, ◌==◌, eq_iff, ◌≡◌, subst, Bool, true, false, List, [], ◌∷◌, Map, values, some, lookup,
  insert, lookup-insert, map_values, all, ok, arith, Bool-cases, inl, inr,
}
use agola.Types.{
  Run, RunTask, RunTaskStatus, RunConfig, ExecutorTask, status_is_finished, phase_is_finished,
}
use agola.Scheduler.Tasks.{advance_run_tasks}
use agola.Scheduler.Phase.{finish_fetch, finish_fetches}
use agola.Scheduler.Advance.{
  Pointwise, Advances, kept, stopped, cancelled, unmatched, held, advance_run_tasks-Advances,
}

module _ {ℓ} {V : Type ℓ} where
  pub all-insert :
      (p : V → Bool) (k : String) (v : V) (m : Map V)
      → all p (values m) ≡ true
      → p v ≡ true
      → all p (values (insert k v m)) ≡ true
  unfolding insert
  all-insert p k v [] h e = ground arith
  all-insert p k v ((j, w) ∷ m) h e = ground (arith, all-insert p k v m)

  pub all-lookup :
      (p : V → Bool) (k : String) (v : V) (m : Map V)
      → all p (values m) ≡ true
      → lookup k m ≡ some v
      → p v ≡ true
  unfolding lookup
  all-lookup p k v [] h e = ground arith
  all-lookup p k v ((j, w) ∷ m) h e = ground (arith, all-lookup p k v m)

-- A status moves from not started to any, and from running to an end; an end stays.
abbrev pub moves : RunTaskStatus → RunTaskStatus → Bool
moves RunTaskStatus.not_started s = true
moves RunTaskStatus.running RunTaskStatus.running = true
moves RunTaskStatus.running RunTaskStatus.stopped = true
moves RunTaskStatus.running RunTaskStatus.success = true
moves RunTaskStatus.running RunTaskStatus.failed = true
moves RunTaskStatus.skipped RunTaskStatus.skipped = true
moves RunTaskStatus.cancelled RunTaskStatus.cancelled = true
moves RunTaskStatus.stopped RunTaskStatus.stopped = true
moves RunTaskStatus.success RunTaskStatus.success = true
moves RunTaskStatus.failed RunTaskStatus.failed = true
moves _ _ = false

pub moves_refl : (s : RunTaskStatus) → moves s s ≡ true
moves_refl s = ground arith

moves_trans : (a b c : RunTaskStatus) → moves a b ≡ true → moves b c ≡ true → moves a c ≡ true
moves_trans a b c h k = ground arith

pub moves_finished : (a b : RunTaskStatus) → moves a b ≡ true → status_is_finished a ≡ true → b ≡ a
moves_finished a b h f = ground arith

-- Every task of `m` is in `m'` under the same key, and its status has moved forward.
unfoldable pub Forward : Map RunTask → Map RunTask → Type 0
Forward m m' =
    (k : String) (rt : RunTask)
    → lookup k m ≡ some rt
    → (rt' : RunTask) × (lookup k m' ≡ some rt') × (moves rt.status rt'.status ≡ true)

pub Forward-refl : (m : Map RunTask) → Forward m m
unfolding Forward
Forward-refl m k rt e = (rt, e, moves_refl rt.status)

pub Forward-trans : (a b c : Map RunTask) → Forward a b → Forward b c → Forward a c
unfolding Forward
Forward-trans a b c f g k rt e =
    let (rt₁, e₁, m₁) = f k rt e in
    let (rt₂, e₂, m₂) = g k rt₁ e₁ in (rt₂, e₂, moves_trans rt.status rt₁.status rt₂.status m₁ m₂)

pub Forward-insert :
    (m : Map RunTask) (j : String) (v w : RunTask)
    → lookup j m ≡ some v
    → moves v.status w.status ≡ true
    → Forward m (insert j w m)
unfolding Forward
Forward-insert m j v w h step k rt e = elim (Bool-cases (j == k)) [
  | inl same ↦
      let l : lookup k (insert j w m) ≡ some w = rw (lookup-insert j k w m, same) in
      let here : j ≡ k = (eq_iff j k).0 same in
      let hv : lookup k m ≡ some v = subst (λ x. lookup x m ≡ some v) here h in
      let vr : v ≡ rt = cc in
      (w, l, subst (λ (x : RunTask). moves x.status w.status ≡ true) vr step)
  | inr other ↦ (rt, rw (lookup-insert j k w m, other) e, moves_refl rt.status)
]

Forward-Pointwise :
    (R : RunTask → RunTask → Type 0)
    → ((v w : RunTask) → R v w → moves v.status w.status ≡ true)
    → (m m' : Map RunTask) → Pointwise R m m'
    → Forward m m'
unfolding Forward lookup
Forward-Pointwise R keep [] [] p k rt e = cc
Forward-Pointwise R keep [] (y ∷ ys) p k rt e = elim p [ ]
Forward-Pointwise R keep (x ∷ xs) [] p k rt e = elim p [ ]
Forward-Pointwise R keep ((i, v) ∷ m) ((j, w) ∷ m') (same, r, rest) k rt e =
    elim (Bool-cases (i == k)) [
      | inl hit ↦
          let vr : v ≡ rt = ground arith in
          (
            w,
            rw (← same, hit),
            subst (λ (x : RunTask). moves x.status w.status ≡ true) vr (keep v w r),
          )
      | inr miss ↦
          let (rt', l, f) = Forward-Pointwise R keep m m' rest k rt (ground arith) in
          (rt', rw (← same, miss) l, f)
    ]

pub Forward-map_values :
    (f : RunTask → RunTask) (m : Map RunTask)
    → ((v : RunTask) → (f v).status ≡ v.status)
    → Forward m (map_values f m)
unfolding Forward lookup
Forward-map_values f [] same k rt e = cc
Forward-map_values f ((j, v) ∷ m) same k rt e = elim (Bool-cases (j == k)) [
  | inl hit ↦
      let vr : v ≡ rt = ground arith in (f v, rw hit, ground (arith, same v, moves_refl rt.status))
  | inr miss ↦
      let (rt', l, g) = Forward-map_values f m same k rt (ground arith) in (rt', rw miss l, g)
]

Advances-moves :
    (r : Run) (rc : RunConfig) (ets : List ExecutorTask) (v w : RunTask)
    → Advances r rc ets v w
    → moves v.status w.status ≡ true
Advances-moves r rc ets v w (kept e) = ground (arith, moves_refl v.status)
Advances-moves r rc ets v w (stopped _ s _ e) = ground arith
Advances-moves r rc ets v w (cancelled _ s _ _ _ e) = ground arith
Advances-moves r rc ets v w (unmatched _ _ s _ _ _ e) = ground arith
Advances-moves r rc ets v w (held _ _ s _ _ _ _ _ e) = ground arith

pub advance_run_tasks-Forward :
    (r : Run) (rc : RunConfig) (ets : List ExecutorTask) (r' : Run)
    → advance_run_tasks r rc ets ≡ ok r'
    → Forward r.tasks r'.tasks
advance_run_tasks-Forward r rc ets r' h =
    Forward-Pointwise (Advances r rc ets) (Advances-moves r rc ets) r.tasks r'.tasks
      (advance_run_tasks-Advances r rc ets r' h).1

finish_fetch-status : (rt : RunTask) → (finish_fetch rt).status ≡ rt.status
unfolding finish_fetch
finish_fetch-status rt = ground arith

pub finish_fetches-Forward : (r : Run) → Forward r.tasks (finish_fetches r).tasks
unfolding finish_fetches
finish_fetches-Forward r = elim (Bool-cases (phase_is_finished r.phase)) [
  | inl e ↦ rw (e, finish_fetches) (Forward-map_values finish_fetch r.tasks finish_fetch-status)
  | inr e ↦ rw (e, finish_fetches) (Forward-refl r.tasks)
]
