-- ===== src/RunConfig/Generate/Depends.antt =====
-- The dependencies that GenRunConfigTasks of internal/runconfig/runconfig.go resolves.
use agola.Prelude.{
  ◌≡◌, refl, ap, sym, ◌∙◌, subst, String, ◌==◌, eq_iff, Bool, List, [], ◌∷◌, Option, some, Map,
  values, map, lookup, insert, lookup-insert, map_values_m, Memᴰ, Result, ok, bound, >>=-Bound,
  arith, Bool-cases, inl, inr, if◌then◌else◌, length, ◌<◌,
}
use agola.Types.{RunConfigTask, RunConfigTaskDepend, RunConfigTaskDependCondition}
use agola.When.Match.{RunRefType}
use agola.Config.{Config, ConfigRun, Depend, config_run, run_task}
use agola.RunConfig.Generate.{
  get_run_config_task_by_name, conditions_or_default, gen_condition, gen_depends, populate_depends,
  gen_tasks, gen_run_config_tasks,
}

module _ {V : Type 0} where
  map_values_m-mem :
      (f : V → Result V) (m m' : Map V) (w : V)
      → map_values_m f m ≡ ok m'
      → Memᴰ w (values m')
      → (v : V) × Memᴰ v (values m) × (f v ≡ ok w)
  unfolding map_values_m
  map_values_m-mem f [] m' w h i =
      let none_made : [] ≡ m' = ground arith in
      let at : Memᴰ w (values []) = subst (λ x. Memᴰ w (values x)) (sym none_made) i in elim at [ ]
  map_values_m-mem f ((k, v) ∷ m) m' w h i = elim (>>=-Bound (f v) _ h) [
    | bound x e q ↦ elim (>>=-Bound (map_values_m f m) _ q) [
      | bound rest g l ↦
          let made : (k, x) ∷ rest ≡ m' = ground arith in
          by_place x rest e g (subst (λ y. Memᴰ w (values y)) (sym made) i)
            (λ r g' j. map_values_m-mem f m r w g' j)
    ]
  ]
    where
      by_place :
          (x : V) (rest : Map V)
          → f v ≡ ok x
          → map_values_m f m ≡ ok rest
          → Memᴰ w (x ∷ values rest)
          → ((r : Map V)
              → map_values_m f m ≡ ok r
              → Memᴰ w (values r)
              → (u : V) × Memᴰ u (values m) × (f u ≡ ok w))
          → (u : V) × Memᴰ u (v ∷ values m) × (f u ≡ ok w)
      by_place x rest e g (Memᴰ.head q) later = (v, Memᴰ.head refl, e ∙ ap ok (sym q))
      by_place x rest e g (Memᴰ.tail j) later =
          let (u, n, d) = later rest g j in (u, Memᴰ.tail n, d)

  mem-map_values_m :
      (f : V → Result V) (m m' : Map V) (v : V)
      → map_values_m f m ≡ ok m'
      → Memᴰ v (values m)
      → (w : V) × Memᴰ w (values m') × (f v ≡ ok w)
  unfolding map_values_m
  mem-map_values_m f [] m' v h i = elim i [ ]
  mem-map_values_m f ((k, u) ∷ m) m' v h i = elim (>>=-Bound (f u) _ h) [
    | bound x e q ↦ elim (>>=-Bound (map_values_m f m) _ q) [
      | bound rest g l ↦
          let made : (k, x) ∷ rest ≡ m' = ground arith in
          let (w, n, d) = by_place x rest e g i (λ r g' j. mem-map_values_m f m r v g' j) in
          (w, subst (λ y. Memᴰ w (values y)) made n, d)
    ]
  ]
    where
      by_place :
          (x : V) (rest : Map V)
          → f u ≡ ok x
          → map_values_m f m ≡ ok rest
          → Memᴰ v (u ∷ values m)
          → ((r : Map V)
              → map_values_m f m ≡ ok r
              → Memᴰ v (values m)
              → (w : V) × Memᴰ w (values r) × (f v ≡ ok w))
          → (w : V) × Memᴰ w (x ∷ values rest) × (f v ≡ ok w)
      by_place x rest e g (Memᴰ.head q) later = (x, Memᴰ.head refl, ap f q ∙ e)
      by_place x rest e g (Memᴰ.tail j) later =
          let (w, n, d) = later rest g j in (w, Memᴰ.tail n, d)

by_name-mem :
    (name : String) (rcts : List RunConfigTask) (p : RunConfigTask)
    → get_run_config_task_by_name name rcts ≡ ok p
    → Memᴰ p rcts
unfolding get_run_config_task_by_name
by_name-mem name [] p h = absurd (ground arith)
by_name-mem name (rct ∷ rcts) p h = elim (Bool-cases (rct.name == name)) [
  | inl hit ↦ let is : rct ≡ p = ground arith in Memᴰ.head (sym is)
  | inr miss ↦ Memᴰ.tail (by_name-mem name rcts p (rw miss at h))
]

-- A dependency on a task that is there, under some condition.
pub data Resolved (rcts : Map RunConfigTask) (id : String) (d : RunConfigTaskDepend) : Type 0 where
  resolved :
      (p : RunConfigTask)
      → Memᴰ p (values rcts)
      → p.id ≡ id
      → d.task_id ≡ id
      → 0 < length d.conditions
      → Resolved rcts id d

abbrev AllResolved : Map RunConfigTask → Map RunConfigTaskDepend → Type 0
AllResolved rcts depends =
    (id : String) (d : RunConfigTaskDepend) → lookup id depends ≡ some d → Resolved rcts id d

some_condition : (cs : List RunConfigTaskDependCondition) → 0 < length (conditions_or_default cs)
some_condition [] = omega arith
some_condition (c ∷ cs) = omega arith

insert-AllResolved :
    (rcts : Map RunConfigTask) (p : RunConfigTask) (cs : List RunConfigTaskDependCondition)
    (depends : Map RunConfigTaskDepend)
    → Memᴰ p (values rcts)
    → AllResolved rcts depends
    → AllResolved rcts
        (insert p.id (record { task_id = p.id; conditions = conditions_or_default cs }) depends)
insert-AllResolved rcts p cs depends m a id d l = elim (Bool-cases (p.id == id)) [
  | inl hit ↦
      let new : RunConfigTaskDepend = record {
        task_id = p.id;
        conditions = conditions_or_default cs;
      } in
      let rows : some new ≡ some d =
        sym (
          lookup-insert p.id id new depends
          ∙ ap (λ b. if b then some new else lookup id depends) hit)
        ∙ l in
      let is : new ≡ d = cc in
      let same_id = (eq_iff p.id id).0 hit in
      subst (Resolved rcts id) is (resolved p m same_id same_id (some_condition cs))
  | inr miss ↦
      let new : RunConfigTaskDepend = record {
        task_id = p.id;
        conditions = conditions_or_default cs;
      } in
      a id d (
        sym (
          lookup-insert p.id id new depends
          ∙ ap (λ b. if b then some new else lookup id depends) miss)
        ∙ l)
]

gen_depends-AllResolved :
    (rcts : Map RunConfigTask) (ds : List Depend) (depends depends' : Map RunConfigTaskDepend)
    → AllResolved rcts depends
    → gen_depends rcts ds depends ≡ ok depends'
    → AllResolved rcts depends'
unfolding gen_depends
gen_depends-AllResolved rcts [] depends depends' a h =
    let is : depends ≡ depends' = ground arith in subst (AllResolved rcts) is a
gen_depends-AllResolved rcts (d ∷ ds) depends depends' a h =
    elim (>>=-Bound (get_run_config_task_by_name d.task_name (values rcts)) _ h) [
      | bound p e q ↦
          gen_depends-AllResolved rcts ds
            (insert p.id
              (record {
                task_id = p.id;
                conditions = conditions_or_default (map gen_condition d.conditions);
              })
              depends)
            depends'
            (insert-AllResolved rcts p (map gen_condition d.conditions) depends
              (by_name-mem d.task_name (values rcts) p e) a)
            q
    ]

-- What the second loop writes to a task.
populate_depends-AllResolved :
    (cr : ConfigRun) (rcts : Map RunConfigTask) (rct rct' : RunConfigTask)
    → populate_depends cr rcts rct ≡ ok rct'
    → (rct'.id ≡ rct.id) × AllResolved rcts rct'.depends
unfolding lookup
populate_depends-AllResolved cr rcts rct rct' h = elim (>>=-Bound (run_task cr rct.name) _ h) [
  | bound ct e q ↦ elim (>>=-Bound (gen_depends rcts ct.depends []) _ q) [
    | bound depends f l ↦
        let made : record rct { depends = depends } ≡ rct' = ground arith in
        (
          ap (λ (x : RunConfigTask). x.id) (sym made),
          subst (λ (x : RunConfigTask). AllResolved rcts x.depends) made
              (gen_depends-AllResolved rcts ct.depends [] depends (λ id d n. absurd (ground arith))
                f),
        )
  ]
]

Resolved-map_values_m :
    (cr : ConfigRun) (rcts rcts' : Map RunConfigTask) (id : String) (d : RunConfigTaskDepend)
    → map_values_m (populate_depends cr rcts) rcts ≡ ok rcts'
    → Resolved rcts id d
    → Resolved rcts' id d
Resolved-map_values_m cr rcts rcts' id d h (resolved p m e t n) =
    let (p', m', f) = mem-map_values_m (populate_depends cr rcts) rcts rcts' p h m in
    resolved p' m' ((populate_depends-AllResolved cr rcts p p' f).0 ∙ e) t n

-- Every dependency of a task that GenRunConfigTasks returns is kept under the id of the task that it
-- names, has at least one condition, and is on a task that GenRunConfigTasks returns too.
pub gen_run_config_tasks-Resolved :
    (compile : String → Option (String → Bool)) (new_id : String → String) (c : Config)
    (variables : Map String) (ref_type : RunRefType) (branch tag ref run_name : String)
    (rcts : Map RunConfigTask) (rct : RunConfigTask) (id : String) (d : RunConfigTaskDepend)
    → gen_run_config_tasks compile new_id c variables ref_type branch tag ref run_name ≡ ok rcts
    → Memᴰ rct (values rcts)
    → lookup id rct.depends ≡ some d
    → Resolved rcts id d
unfolding gen_run_config_tasks
gen_run_config_tasks-Resolved compile new_id c variables ref_type branch tag ref run_name rcts rct
      id d h m l =
    elim (>>=-Bound (config_run c run_name) _ h) [
      | bound cr e q ↦
          elim (>>=-Bound
            (gen_tasks compile new_id c variables ref_type branch tag ref cr cr.tasks []) _ q) [
              | bound first f k ↦
                  let (v, n, g) = map_values_m-mem (populate_depends cr first) first rcts rct k m in
                  Resolved-map_values_m cr first rcts id d k
                    ((populate_depends-AllResolved cr first v rct g).1 id d l)
            ]
    ]
