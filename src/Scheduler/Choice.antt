-- ===== src/Scheduler/Choice.antt =====
-- What chooseExecutor of internal/services/runservice/scheduler.go chooses, by a description that does
-- not follow the order of its tests.
use agola.Prelude.{
  ℕ, ◌-◌, ◌≤◌, ◌<◌, String, ◌==◌, eq_iff, ◌≡◌, refl, ap, subst, Bool, true, false, not, ◌&&◌, List,
  [], ◌∷◌, ◌++◌, Option, none, some, Map, Memᴰ, All, any, any-mem, leb, eqb, ◌⊎◌, inl, inr, arith,
  Bool-cases,
}
use agola.Types.{Executor, RunConfigTask, Container}
use agola.Scheduler.Executors.{
  default_executor_not_alive_interval, requires_privileged_containers, scheduled_tasks,
  active_tasks, can_take, choose_executor,
}

-- The executor is alive, may run the task's containers, has its architecture and has room.
pub record CanTake (now : ℕ) (counts : Map ℕ) (rct : RunConfigTask) (e : Executor) : Type 0 where
  pub is_alive : now - e.update_time ≤ default_executor_not_alive_interval
  pub may_run :
      (c : Container)
      → Memᴰ c rct.runtime.containers
      → c.privileged ≡ true
      → e.allow_privileged_containers ≡ true
  pub has_arch : (rct.runtime.arch ≡ "") ⊎ Memᴰ rct.runtime.arch e.archs
  pub has_room :
      (e.active_tasks_limit ≡ 0)
      ⊎ ((scheduled_tasks counts e.executor_id < e.active_tasks_limit)
          × (e.active_tasks < e.active_tasks_limit))

any-found {ℓ} :
    {A : Type ℓ} (p : A → Bool) (xs : List A) → any p xs ≡ true → (x : A) × Memᴰ x xs × (p x ≡ true)
any-found p [] h = cc
any-found p (x ∷ xs) h = elim (Bool-cases (p x)) [
  | inl hit ↦ (x, Memᴰ.head refl, hit)
  | inr miss ↦ let (y, i, e) = any-found p xs (ground arith) in (y, Memᴰ.tail i, e)
]

abbrev has_arch_test : RunConfigTask → Executor → Bool
has_arch_test rct e = any (λ arch. arch == rct.runtime.arch) e.archs

-- The test of each part.
module _ (now : ℕ) (counts : Map ℕ) (rct : RunConfigTask) (e : Executor) where
  arch_listed : has_arch_test rct e ≡ true → Memᴰ rct.runtime.arch e.archs
  arch_listed h =
      let (a, i, q) = any-found (λ (x : String). x == rct.runtime.arch) e.archs h in
      subst (λ x. Memᴰ x e.archs) ((eq_iff a rct.runtime.arch).0 q) i

  listed_arch : Memᴰ rct.runtime.arch e.archs → has_arch_test rct e ≡ true
  listed_arch i =
      any-mem (λ (x : String). x == rct.runtime.arch) e.archs i
        ((eq_iff rct.runtime.arch rct.runtime.arch).1 refl)

  privileged_allowed :
      (c : Container)
      → Memᴰ c rct.runtime.containers
      → c.privileged ≡ true
      → (requires_privileged_containers rct && not e.allow_privileged_containers) ≡ false
      → e.allow_privileged_containers ≡ true
  unfolding requires_privileged_containers
  privileged_allowed c i p h =
      ground (arith, any-mem (λ (x : Container). x.privileged) rct.runtime.containers i p)

  can_take-CanTake : can_take now counts rct e ≡ true → CanTake now counts rct e
  unfolding can_take active_tasks
  can_take-CanTake h = record {
    is_alive = ground arith;
    may_run = λ c i p. privileged_allowed c i p (ground arith);
    has_arch = elim (Bool-cases (rct.runtime.arch == "")) [
      | inl hit ↦ inl ((eq_iff rct.runtime.arch "").0 hit)
      | inr miss ↦ inr (arch_listed (ground arith))
    ];
    has_room = elim (Bool-cases (eqb e.active_tasks_limit 0)) [
      | inl hit ↦ inl (ground arith)
      | inr miss ↦ inr (ground arith, ground arith)
    ];
  }

  privileged_fits :
      CanTake now counts rct e
      → (requires_privileged_containers rct && not e.allow_privileged_containers) ≡ false
  unfolding requires_privileged_containers
  privileged_fits t =
      elim (Bool-cases (any (λ (c : Container). c.privileged) rct.runtime.containers)) [
        | inr miss ↦ rw miss
        | inl hit ↦
            let (c, i, p) =
              any-found (λ (c : Container). c.privileged) rct.runtime.containers hit in
            ground (arith, hit, t.may_run c i p)
      ]

  arch_fits :
      CanTake now counts rct e → (not (rct.runtime.arch == "") && not (has_arch_test rct e)) ≡ false
  arch_fits t = elim t.has_arch [
    | inl q ↦ ground (arith, (eq_iff rct.runtime.arch "").1 q)
    | inr i ↦ ground (arith, listed_arch i)
  ]

  room_fits :
      CanTake now counts rct e
      → (not (eqb e.active_tasks_limit 0) && leb e.active_tasks_limit (active_tasks counts e))
        ≡ false
  unfolding active_tasks
  room_fits t = elim t.has_room [ inl q ↦ ground (arith, q) | inr (a, b) ↦ ground (arith, a, b) ]

  CanTake-can_take : CanTake now counts rct e → can_take now counts rct e ≡ true
  unfolding can_take
  CanTake-can_take t = ground (arith, t.is_alive, privileged_fits t, arch_fits t, room_fits t)

  cannot_take : can_take now counts rct e ≡ false → ¬ CanTake now counts rct e
  cannot_take h t = let q = CanTake-can_take t in cc

-- The executor that is chosen from `es`, or that none is.
pub data Chosen (now : ℕ) (es : List Executor) (counts : Map ℕ) (rct : RunConfigTask)
    (o : Option Executor) : Type 0 where
  chosen :
      (pre : List Executor) (e : Executor) (post : List Executor)
      → es ≡ pre ++ e ∷ post
      → All (λ x. ¬ CanTake now counts rct x) pre
      → CanTake now counts rct e
      → o ≡ some e
      → Chosen now es counts rct o
  nobody : All (λ x. ¬ CanTake now counts rct x) es → o ≡ none → Chosen now es counts rct o

choose_after :
    (now : ℕ) (e : Executor) (es : List Executor) (counts : Map ℕ) (rct : RunConfigTask)
    → can_take now counts rct e ≡ false
    → Chosen now es counts rct (choose_executor now es counts rct)
    → Chosen now (e ∷ es) counts rct (choose_executor now (e ∷ es) counts rct)
unfolding choose_executor
choose_after now e es counts rct miss ih = elim ih [
  | chosen pre x post q a t o ↦
      chosen (e ∷ pre) x post (ap (◌∷◌ e) q) (cannot_take now counts rct e miss, a) t
        (rw (miss, choose_executor) o)
  | nobody a o ↦ nobody (cannot_take now counts rct e miss, a) (rw (miss, choose_executor) o)
]

choose_here :
    (now : ℕ) (e : Executor) (es : List Executor) (counts : Map ℕ) (rct : RunConfigTask)
    → can_take now counts rct e ≡ true
    → choose_executor now (e ∷ es) counts rct ≡ some e
unfolding choose_executor
choose_here now e es counts rct hit = rw (hit, choose_executor)

-- chooseExecutor returns the first executor of the list that is alive, may run the task's containers,
-- has its architecture and has room for one more task, by the tasks in the database and by those that
-- it reports; it returns none only if no executor of the list is like that.
pub choose_executor-Chosen :
    (now : ℕ) (es : List Executor) (counts : Map ℕ) (rct : RunConfigTask)
    → Chosen now es counts rct (choose_executor now es counts rct)
unfolding choose_executor
choose_executor-Chosen now [] counts rct = nobody tt refl
choose_executor-Chosen now (e ∷ es) counts rct = elim (Bool-cases (can_take now counts rct e)) [
  | inl hit ↦
      chosen [] e es refl tt (can_take-CanTake now counts rct e hit)
        (choose_here now e es counts rct hit)
  | inr miss ↦ choose_after now e es counts rct miss (choose_executor-Chosen now es counts rct)
]
