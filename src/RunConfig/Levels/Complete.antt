-- ===== src/RunConfig/Levels/Complete.antt =====
-- GenTasksLevels of internal/runconfig/runconfig.go on tasks without a circular dependency.
use agola.Prelude.{
  String, ℕ, zero, suc, ◌<◌, ◌≡◌, refl, ◌∙◌, sym, ap, ap₂, subst, Bool, true, false, not, ◌||◌,
  List, [], ◌∷◌, Map, values, map_values, all, any, some, Memᴰ, all→mem, mem-filter, ok, arith,
  Bool-cases, inl, inr,
}
use agola.Types.{RunConfigTask}
use agola.RunConfig.Graph.{depends_on, get_parents}
use agola.RunConfig.Levels.{is_below, is_unset, reset_level, check_levels, gen_tasks_levels}
use agola.RunConfig.Levels.Settled.{
  is_left, task_ok, Level-cases, generated, gen_tasks_levels-Generated,
}

mem-map_values :
    (f : RunConfigTask → RunConfigTask) (m : Map RunConfigTask) {t : RunConfigTask}
    → Memᴰ t (values m)
    → Memᴰ (f t) (values (map_values f m))
mem-map_values f [] h = elim h [ ]
mem-map_values f ((k, u) ∷ m) (Memᴰ.head e) = Memᴰ.head (ap f e)
mem-map_values f ((k, u) ∷ m) (Memᴰ.tail r) = Memᴰ.tail (mem-map_values f m r)

map_values-mem :
    (f : RunConfigTask → RunConfigTask) (m : Map RunConfigTask) {u : RunConfigTask}
    → Memᴰ u (values (map_values f m))
    → (t : RunConfigTask) × Memᴰ t (values m) × (f t ≡ u)
map_values-mem f [] h = elim h [ ]
map_values-mem f ((k, t) ∷ m) (Memᴰ.head e) = (t, Memᴰ.head refl, sym e)
map_values-mem f ((k, t) ∷ m) (Memᴰ.tail r) =
    let (x, i, e) = map_values-mem f m r in (x, Memᴰ.tail i, e)

all-false :
    (f : RunConfigTask → Bool) (ts : List RunConfigTask)
    → all f ts ≡ false
    → (t : RunConfigTask) × Memᴰ t ts × (f t ≡ false)
all-false f [] h = cc
all-false f (t ∷ ts) h = elim (Bool-cases (f t)) [
  | inr miss ↦ (t, Memᴰ.head refl, miss)
  | inl hit ↦ let (x, i, e) = all-false f ts (ground arith) in (x, Memᴰ.tail i, e)
]

none-any :
    (f : RunConfigTask → Bool) (ts : List RunConfigTask)
    → ((t : RunConfigTask) → Memᴰ t ts → f t ≡ false)
    → any f ts ≡ false
none-any f [] h = refl
none-any f (t ∷ ts) h =
    ground (arith, h t (Memᴰ.head refl), none-any f ts (λ x i. h x (Memᴰ.tail i)))

-- A rank of the tasks by their ids falls from each task to its parents.
abbrev pub Falls : (String → ℕ) → Map RunConfigTask → Type 0
Falls rank rcts =
    (t p : RunConfigTask)
    → Memᴰ t (values rcts)
    → Memᴰ p (get_parents rcts t)
    → rank p.id < rank t.id

reset-depends_on :
    (t t' p p' : RunConfigTask)
    → reset_level t' ≡ reset_level t
    → reset_level p' ≡ reset_level p
    → depends_on t' p' ≡ depends_on t p
reset-depends_on t t' p p' et ep = ap₂ depends_on et ep

-- The levels do not count for the rank.
Falls-reset :
    (rank : String → ℕ) (rcts m : Map RunConfigTask)
    → map_values reset_level m ≡ map_values reset_level rcts
    → Falls rank rcts
    → (t p : RunConfigTask) → Memᴰ t (values m)
    → Memᴰ p (values m)
    → depends_on t p ≡ true
    → rank p.id < rank t.id
unfolding get_parents
Falls-reset rank rcts m e f t p it ip d =
    let (t', it', et) = found it in
    let (p', ip', ep) = found ip in
    let below : rank p'.id < rank t'.id =
      f t' p' it'
        (mem-filter (depends_on t') (values rcts) ip' (reset-depends_on t t' p p' et ep ∙ d)) in
    subst (λ i. rank i < rank t.id) (ap (λ (x : RunConfigTask). x.id) ep)
      (subst (λ i. rank p'.id < rank i) (ap (λ (x : RunConfigTask). x.id) et) below)
  where
    found :
        {x : RunConfigTask}
        → Memᴰ x (values m)
        → (t : RunConfigTask) × Memᴰ t (values rcts) × (reset_level t ≡ reset_level x)
    found {x} i =
        map_values-mem reset_level rcts
          (subst (λ y. Memᴰ (reset_level x) (values y)) e (mem-map_values reset_level m i))

module _ (rank : String → ℕ) (lvl : ℕ) (m : Map RunConfigTask)
    (falls : (t p : RunConfigTask)
      → Memᴰ t (values m)
      → Memᴰ p (values m)
      → depends_on t p ≡ true
      → rank p.id < rank t.id)
    (fine : all (task_ok lvl m) (values m) ≡ true)
    (left : all (is_left lvl m) (values m) ≡ true) where
  set_below :
      (p : RunConfigTask)
      → Memᴰ p (values m)
      → is_unset p.level ≡ false
      → is_below lvl p.level ≡ true
  set_below p i set = elim (Level-cases p.level) [
    | inl e ↦ absurd (ground (arith, e))
    | inr (n, e) ↦ ground (arith, e, all→mem (task_ok lvl m) (values m) fine i)
  ]

  -- A task without a level waits for a parent without one.
  waits :
      (t : RunConfigTask)
      → Memᴰ t (values m)
      → is_unset t.level ≡ true
      → (p : RunConfigTask) × Memᴰ p (values m)
        × (depends_on t p ≡ true)
        × (is_unset p.level ≡ true)
  waits t i unset =
      let (p, ip, above) =
        all-false (λ p. not (depends_on t p) || is_below lvl p.level) (values m)
          (ground (arith, unset, all→mem (is_left lvl m) (values m) left i)) in
      (
        p,
        ip,
        ground arith,
        elim (Bool-cases (is_unset p.level)) [
          | inl hit ↦ hit
          | inr set ↦ absurd (ground (arith, above, set_below p ip set))
        ],
      )

  all_set :
      (n : ℕ) (t : RunConfigTask) → Memᴰ t (values m) → rank t.id < n → is_unset t.level ≡ false
  all_set zero t i h = elim h [ ]
  all_set (suc n) t i h = elim (Bool-cases (is_unset t.level)) [
    | inr set ↦ set
    | inl unset ↦
        let (p, ip, d, clear) = waits t i unset in
        let set = all_set n p ip (omega (arith, h, falls t p i ip d)) in
        absurd (ground (arith, set, clear))
  ]

  all_set-check_levels : check_levels m ≡ ok tt
  all_set-check_levels =
      let e =
        none-any (λ (x : RunConfigTask). is_unset x.level) (values m)
          (λ t i. all_set (suc (rank t.id)) t i (omega arith)) in
      rw (e, check_levels)

-- If the dependencies are not circular, so that some rank by the task ids falls from each task to
-- each of its parents, then GenTasksLevels returns no error.
pub gen_tasks_levels_complete :
    (rank : String → ℕ) (rcts : Map RunConfigTask)
    → Falls rank rcts
    → (m : Map RunConfigTask) × (gen_tasks_levels rcts ≡ some (m, ok tt))
gen_tasks_levels_complete rank rcts f = elim (gen_tasks_levels-Generated rcts) [
  | generated lvl m e r a l ↦ (
    m,
    e ∙ ap (λ x. some (m, x)) (all_set-check_levels rank lvl m (Falls-reset rank rcts m r f) a l),
  )
]
