-- ===== src/RunConfig/Levels.antt =====
-- GenTasksLevels of internal/runconfig/runconfig.go. The tasks are changed in place, so a round sees
-- the levels that it has just set.
mod Round
mod Settled
pub mod Order
pub mod Complete
use agola.Prelude.{
  ℕ, zero, suc, ◌+◌, Bool, true, false, [], ◌∷◌, ◌++◌, Option, none, some, Map, values, map_values,
  length, all, any, ltb, Result, ok, err, Error,
}
use agola.Types.{RunConfigTask, Level}
use agola.RunConfig.Graph.{get_parents}

-- `!(p.Level == -1 || p.Level >= level)`
abbrev pub is_below : ℕ → Level → Bool
is_below lvl Level.unset = false
is_below lvl (Level.level n) = ltb n lvl

abbrev pub is_unset : Level → Bool
is_unset Level.unset = true
is_unset (Level.level n) = false

unfoldable pub level_ready : ℕ → Map RunConfigTask → RunConfigTask → Bool
unfolding get_parents
level_ready lvl rcts t = all (λ p. is_below lvl p.level) (get_parents rcts t)

-- One round: `done` are the entries that the loop has passed, and the count is `c`.
unfoldable pub level_round : ℕ → Map RunConfigTask → Map RunConfigTask → ℕ → Map RunConfigTask × ℕ
unfolding level_ready
level_round lvl done [] c = (done, c)
level_round lvl done ((k, t) ∷ todo) c = elim (is_unset t.level) [
  | false ↦ level_round lvl (done ++ (k, t) ∷ []) todo c
  | true ↦ elim (level_ready lvl (done ++ (k, t) ∷ todo) t) [
    | true ↦ level_round lvl (done ++ (k, record t { level = Level.level lvl }) ∷ []) todo (suc c)
    | false ↦ level_round lvl (done ++ (k, t) ∷ []) todo c
  ]
]

-- The rounds, until one sets no level; `none` means that the fuel ran out.
unfoldable pub level_rounds : ℕ → ℕ → Map RunConfigTask → Option (Map RunConfigTask)
unfolding level_round
level_rounds zero lvl rcts = none
level_rounds (suc fuel) lvl rcts =
    let (rcts', c) = level_round lvl [] rcts 0 in
    elim c [ zero ↦ some rcts' | suc _ ↦ level_rounds fuel (suc lvl) rcts' ]

abbrev pub reset_level : RunConfigTask → RunConfigTask
reset_level t = record t { level = Level.unset }

abbrev pub check_levels : Map RunConfigTask → Result (Unit {0})
check_levels rcts = elim (any (λ t. is_unset t.level) (values rcts)) [
  | true ↦ err Error.circular_dependency
  | false ↦ ok tt
]

abbrev with_check : Option (Map RunConfigTask) → Option (Map RunConfigTask × Result (Unit {0}))
with_check none = none
with_check (some rcts) = some (rcts, check_levels rcts)

-- The tasks with their levels, and the error. A round that sets no level is the last, so that one
-- more round than tasks is enough.
unfoldable pub gen_tasks_levels : Map RunConfigTask → Option (Map RunConfigTask × Result (Unit {0}))
unfolding level_rounds
gen_tasks_levels rcts = with_check (level_rounds (length rcts + 1) 0 (map_values reset_level rcts))
