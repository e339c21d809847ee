-- ===== src/RunConfig/Levels/Settled.antt =====
-- The state in which the rounds of GenTasksLevels of internal/runconfig/runconfig.go come to rest.
use agola.Prelude.{
  ℕ, zero, suc, ◌+◌, ◌≤◌, ◌<◌, ◌≡◌, refl, ◌∙◌, ap, ap₂, Bool, true, not, ◌&&◌, [], ◌∷◌, Map, values,
  map_values, all, some, Option, ltb, length, Result, arith, Bool-cases, inl, inr, ◌⊎◌,
  if◌then◌else◌,
}
use agola.Types.{RunConfigTask, Level}
use agola.RunConfig.Levels.{
  is_unset, level_round, level_rounds, reset_level, check_levels, gen_tasks_levels,
}
use agola.RunConfig.Levels.Round.{ready, mark, ready-marked, new_levels, level_round-mark}

-- One round on the whole map.
abbrev next_tasks : ℕ → Map RunConfigTask → Map RunConfigTask
next_tasks lvl rcts = map_values (mark lvl rcts) rcts

level_rounds_stop :
    (fuel lvl : ℕ) (rcts : Map RunConfigTask)
    → new_levels lvl rcts rcts ≡ 0
    → level_rounds (suc fuel) lvl rcts ≡ some (next_tasks lvl rcts)
unfolding level_rounds
level_rounds_stop fuel lvl rcts h =
    let e : level_round lvl [] rcts 0 ≡ (next_tasks lvl rcts, 0) =
      level_round-mark lvl rcts [] rcts 0 refl
      ∙ ap (λ (n : ℕ). (next_tasks lvl rcts, n)) (omega arith) in
    rw (e, level_rounds) (ap some (ap (λ (p : Map RunConfigTask × ℕ). p.0) e))

level_rounds_next :
    (fuel lvl n : ℕ) (rcts : Map RunConfigTask)
    → new_levels lvl rcts rcts ≡ suc n
    → level_rounds (suc fuel) lvl rcts ≡ level_rounds fuel (suc lvl) (next_tasks lvl rcts)
unfolding level_rounds
level_rounds_next fuel lvl n rcts h =
    let e : level_round lvl [] rcts 0 ≡ (next_tasks lvl rcts, suc n) =
      level_round-mark lvl rcts [] rcts 0 refl
      ∙ ap (λ (n : ℕ). (next_tasks lvl rcts, n)) (omega arith) in
    rw (e, level_rounds) (ap (λ (p : Map RunConfigTask × ℕ). level_rounds fuel (suc lvl) p.0) e)

-- A round that gives no level leaves the tasks as they are, and none of them is ready.
abbrev pub is_left : ℕ → Map RunConfigTask → RunConfigTask → Bool
is_left lvl rcts t = not (is_unset t.level && ready lvl rcts t)

no_new_levels :
    (lvl : ℕ) (rcts D : Map RunConfigTask)
    → new_levels lvl rcts D ≡ 0
    → (map_values (mark lvl rcts) D ≡ D) × (all (is_left lvl rcts) (values D) ≡ true)
no_new_levels lvl rcts [] h = (refl, refl)
no_new_levels lvl rcts ((k, t) ∷ D) h = elim (Bool-cases (is_unset t.level && ready lvl rcts t)) [
  | inl hit ↦ absurd (not_zero (rw hit at h))
  | inr miss ↦
      let (m, a) = no_new_levels lvl rcts D (rw miss at h) in
      (
        ap₂ (λ (x : RunConfigTask) (y : Map RunConfigTask). (k, x) ∷ y) (rw miss) m,
        ap₂ (λ b c. not b && c) miss a,
      )
]
  where
    not_zero : {n : ℕ} → suc n ≡ 0 → ⊥
    not_zero q = omega arith

-- The tasks with no level yet.
abbrev unset_count : Map RunConfigTask → ℕ
unset_count [] = 0
unset_count ((k, t) ∷ D) = let rest = unset_count D in if is_unset t.level then suc rest else rest

unset_count-mark :
    (lvl : ℕ) (rcts D : Map RunConfigTask)
    → unset_count (map_values (mark lvl rcts) D) + new_levels lvl rcts D ≡ unset_count D
unset_count-mark lvl rcts [] = omega arith
unset_count-mark lvl rcts ((k, t) ∷ D) = elim (Bool-cases (is_unset t.level && ready lvl rcts t)) [
  | inl hit ↦ rw hit (ground (arith, unset_count-mark lvl rcts D))
  | inr miss ↦ rw miss (ground (arith, unset_count-mark lvl rcts D))
]

-- A task has no level, or one below `lvl` and above the levels of its parents.
abbrev pub task_ok : ℕ → Map RunConfigTask → RunConfigTask → Bool
task_ok lvl rcts t = elim t.level [
  | Level.unset ↦ true
  | Level.level n ↦ ltb n lvl && ready n rcts t
]

pub Level-cases : (l : Level) → (l ≡ Level.unset) ⊎ ((n : ℕ) × (l ≡ Level.level n))
Level-cases Level.unset = inl refl
Level-cases (Level.level n) = inr (n, refl)

task_ok_later :
    (lvl : ℕ) (rcts : Map RunConfigTask) (t : RunConfigTask)
    → task_ok lvl rcts t ≡ true
    → task_ok (suc lvl) (next_tasks lvl rcts) t ≡ true
task_ok_later lvl rcts t h = elim (Level-cases t.level) [
  | inl e ↦ ground (arith, e)
  | inr (n, e) ↦ ground (arith, e, ready-marked n lvl rcts rcts t)
]

task_ok-mark :
    (lvl : ℕ) (rcts : Map RunConfigTask) (t : RunConfigTask)
    → task_ok lvl rcts t ≡ true
    → task_ok (suc lvl) (next_tasks lvl rcts) (mark lvl rcts t) ≡ true
task_ok-mark lvl rcts t h = elim (Bool-cases (is_unset t.level && ready lvl rcts t)) [
  | inl hit ↦ rw hit (ground (arith, ready-marked lvl lvl rcts rcts t (omega arith)))
  | inr miss ↦ rw miss (task_ok_later lvl rcts t h)
]

all_ok-mark :
    (lvl : ℕ) (rcts D : Map RunConfigTask)
    → all (task_ok lvl rcts) (values D) ≡ true
    → all (task_ok (suc lvl) (next_tasks lvl rcts)) (values (map_values (mark lvl rcts) D)) ≡ true
all_ok-mark lvl rcts [] h = refl
all_ok-mark lvl rcts ((k, t) ∷ D) h =
    ap₂ ◌&&◌ (task_ok-mark lvl rcts t (ground arith)) (all_ok-mark lvl rcts D (ground arith))

reset-mark :
    (lvl : ℕ) (rcts D : Map RunConfigTask)
    → map_values reset_level (map_values (mark lvl rcts) D) ≡ map_values reset_level D
reset-mark lvl rcts [] = refl
reset-mark lvl rcts ((k, t) ∷ D) =
    ap₂ (λ (x : RunConfigTask) (y : Map RunConfigTask). (k, x) ∷ y) same (reset-mark lvl rcts D)
  where
    same : reset_level (mark lvl rcts t) ≡ reset_level t
    same = elim (Bool-cases (is_unset t.level && ready lvl rcts t)) [
      | inl hit ↦ rw hit
      | inr miss ↦ rw miss
    ]

-- What the rounds end with, started on `rcts`.
data Settled (rcts : Map RunConfigTask) (o : Option (Map RunConfigTask)) : Type 0 where
  settled :
      (lvl : ℕ) (m : Map RunConfigTask)
      → o ≡ some m
      → map_values reset_level m ≡ map_values reset_level rcts
      → all (task_ok lvl m) (values m) ≡ true
      → all (is_left lvl m) (values m) ≡ true
      → Settled rcts o

level_rounds-Settled :
    (fuel lvl : ℕ) (rcts : Map RunConfigTask)
    → unset_count rcts < fuel
    → all (task_ok lvl rcts) (values rcts) ≡ true
    → Settled rcts (level_rounds fuel lvl rcts)
level_rounds-Settled zero lvl rcts h a = elim h [ ]
level_rounds-Settled (suc fuel) lvl rcts h a = by_count (new_levels lvl rcts rcts) refl (λ n e.
    level_rounds-Settled fuel (suc lvl) (next_tasks lvl rcts)
      (omega (arith, unset_count-mark lvl rcts rcts)) (all_ok-mark lvl rcts rcts a))
  where
    by_count :
        (c : ℕ)
        → new_levels lvl rcts rcts ≡ c
        → ((n : ℕ)
            → new_levels lvl rcts rcts ≡ suc n
            → Settled (next_tasks lvl rcts) (level_rounds fuel (suc lvl) (next_tasks lvl rcts)))
        → Settled rcts (level_rounds (suc fuel) lvl rcts)
    by_count zero e ih =
        let (same, left) = no_new_levels lvl rcts rcts e in
        settled lvl rcts (level_rounds_stop fuel lvl rcts e ∙ ap some same) refl a left
    by_count (suc n) e ih = elim (ih n e) [
      | settled lvl' m q r o l ↦
          settled lvl' m (level_rounds_next fuel lvl n rcts e ∙ q) (r ∙ reset-mark lvl rcts rcts) o
            l
    ]

unset_count-le : (D : Map RunConfigTask) → unset_count D ≤ length D
unset_count-le [] = omega arith
unset_count-le ((k, t) ∷ D) = ground (arith, unset_count-le D)

reset_ok :
    (lvl : ℕ) (rcts D : Map RunConfigTask)
    → all (task_ok lvl rcts) (values (map_values reset_level D)) ≡ true
reset_ok lvl rcts [] = refl
reset_ok lvl rcts ((k, t) ∷ D) = reset_ok lvl rcts D

length-reset : (D : Map RunConfigTask) → length (map_values reset_level D) ≡ length D
length-reset [] = refl
length-reset ((k, t) ∷ D) = ap suc (length-reset D)

reset_reset :
    (D : Map RunConfigTask)
    → map_values reset_level (map_values reset_level D) ≡ map_values reset_level D
reset_reset [] = refl
reset_reset ((k, t) ∷ D) = ap (◌∷◌ (k, reset_level t)) (reset_reset D)

-- What GenTasksLevels ends with.
pub data Generated (rcts : Map RunConfigTask) (o : Option (Map RunConfigTask × Result (Unit {0})))
    : Type 0 where
  generated :
      (lvl : ℕ) (m : Map RunConfigTask)
      → o ≡ some (m, check_levels m)
      → map_values reset_level m ≡ map_values reset_level rcts
      → all (task_ok lvl m) (values m) ≡ true
      → all (is_left lvl m) (values m) ≡ true
      → Generated rcts o

pub gen_tasks_levels-Generated : (rcts : Map RunConfigTask) → Generated rcts (gen_tasks_levels rcts)
unfolding gen_tasks_levels
gen_tasks_levels-Generated rcts =
    elim (level_rounds-Settled (length rcts + 1) 0 (map_values reset_level rcts)
      (omega (arith, unset_count-le (map_values reset_level rcts), length-reset rcts))
      (reset_ok 0 (map_values reset_level rcts) rcts)) [
        | settled lvl m e r a l ↦ generated lvl m (rw e) (r ∙ reset_reset rcts) a l
      ]
