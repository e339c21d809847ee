-- ===== src/Tests/Plans.antt =====
-- The levels of `demo_tasks`, the choice of an executor, and the verdicts of a `when`.
use mathlib.Core.List.{Memᴰ}
use agola.Prelude.{
  ℕ, String, ◌==◌, eq_iff, ◌↔◌, ◌≡◌, ◌<◌, refl, arith, ap, sym, ◌∙◌, subst, Bool, true, false, [],
  ◌∷◌, none, some, Option, Map, map_values, has_key, lookup, Result, ok, if◌then◌else◌,
}
use agola.Types.{RunConfigTask, Executor, Level, new_meta}
use agola.RunConfig.Graph.{get_parents}
use agola.Prelude.{values, insert}
use agola.RunConfig.Graph.{
  collect_parents, all_parents_loop, get_all_parents?, get_all_parents, Ancestor,
}
use agola.RunConfig.Ancestors.{get_all_parents_ends}
use agola.RunConfig.Levels.{level_ready, level_round, level_rounds, reset_level, gen_tasks_levels}
use agola.RunConfig.Levels.Order.{gen_tasks_levels_ends, gen_tasks_levels_order}
use agola.RunConfig.Levels.Complete.{Falls, gen_tasks_levels_complete}
use agola.Scheduler.Executors.{
  requires_privileged_containers, scheduled_tasks, active_tasks, can_take, choose_executor,
}
use agola.Scheduler.Choice.{Chosen, choose_executor-Chosen}
use agola.When.Match.{
  WhenConditionType, WhenCondition, WhenConditions, When, RunRefType, match_when,
}
use agola.When.Verdict.{Compiles, AllCompile, Verdict, match_when-Verdict}
use agola.RunConfig.AllAncestors.{UniqueIds, get_all_parents-Ancestor}
use agola.Tests.Data.{build_task, test_task, report_task, demo_tasks}

run_levels : Unit {0}
unfolding get_parents has_key lookup level_ready level_round level_rounds gen_tasks_levels
run_levels = tt

abbrev at_level : ℕ → RunConfigTask → RunConfigTask
at_level n t = record t { level = Level.level n }

abbrev leveled_tasks : Map RunConfigTask
leveled_tasks =
    ("report", at_level 2 report_task)
    ∷ ("build", at_level 0 build_task)
    ∷ ("test", at_level 1 test_task)
    ∷ []

demo_levels : gen_tasks_levels demo_tasks ≡ some (leveled_tasks, ok tt)
unfolding run_levels
demo_levels = refl

gen_tasks_levels_ends_example :
    (m : Map RunConfigTask) × (e : Result (Unit {0})) × (gen_tasks_levels demo_tasks ≡ some (m, e))
    × (map_values reset_level m ≡ map_values reset_level demo_tasks)
gen_tasks_levels_ends_example = gen_tasks_levels_ends demo_tasks

gen_tasks_levels_order_example :
    (n : ℕ) × (Level.level 1 ≡ Level.level n)
    × ((p : RunConfigTask)
        → Memᴰ p (get_parents leveled_tasks (at_level 1 test_task))
        → (k : ℕ) × (p.level ≡ Level.level k) × (k < n))
gen_tasks_levels_order_example =
    gen_tasks_levels_order demo_tasks leveled_tasks demo_levels (at_level 1 test_task)
      (Memᴰ.tail (Memᴰ.tail (Memᴰ.head refl)))

abbrev two_tasks : Map RunConfigTask
two_tasks = ("build", build_task) ∷ ("test", test_task) ∷ []

abbrev rank : String → ℕ
rank id = if id == "test" then 1 else 0

two_tasks-Falls : Falls rank two_tasks
unfolding run_levels
two_tasks-Falls t p (Memᴰ.head e) q = elim (subst (λ x. Memᴰ p (get_parents two_tasks x)) e q) [ ]
two_tasks-Falls t p (Memᴰ.tail (Memᴰ.head e)) q =
    subst (λ x. rank p.id < rank x.id) (sym e)
      (from_build (subst (λ x. Memᴰ p (get_parents two_tasks x)) e q))
  where
    from_build : Memᴰ p (build_task ∷ []) → rank p.id < 1
    from_build (Memᴰ.head f) = subst (λ x. rank x.id < 1) (sym f) (omega arith)
    from_build (Memᴰ.tail i) = elim i [ ]
two_tasks-Falls t p (Memᴰ.tail (Memᴰ.tail i)) q = elim i [ ]

gen_tasks_levels_complete_example :
    (m : Map RunConfigTask) × (gen_tasks_levels two_tasks ≡ some (m, ok tt))
gen_tasks_levels_complete_example = gen_tasks_levels_complete rank two_tasks two_tasks-Falls

get_all_parents_ends_example :
    (p_map : Map RunConfigTask) × (get_all_parents? demo_tasks report_task ≡ some p_map)
    × ((p : RunConfigTask) → Memᴰ p (values p_map) → Ancestor demo_tasks report_task p)
get_all_parents_ends_example = get_all_parents_ends demo_tasks report_task

-- "report" has both other tasks above it.
report_ancestors : get_all_parents demo_tasks report_task ≡ test_task ∷ build_task ∷ []
unfolding run_levels collect_parents all_parents_loop get_all_parents? get_all_parents insert
report_ancestors = refl

abbrev executor : String → ℕ → Executor
executor id limit = record {
  meta = record (new_meta id) { update_time = 70000000000 };
  executor_id = id;
  listen_url = "";
  archs = "amd64" ∷ [];
  labels = [];
  allow_privileged_containers = false;
  active_tasks_limit = limit;
  active_tasks = 1;
  dynamic = false;
  executor_group = "";
  siblings_executors = [];
}

-- "e1" is full, so that "e2" is chosen.
choose_executor-Chosen_example :
    Chosen 90000000000
      (executor "e1" 2 ∷ executor "e2" 3 ∷ [])
      (("e1", 2) ∷ [])
      build_task
      (some (executor "e2" 3))
unfolding choose_executor can_take requires_privileged_containers active_tasks scheduled_tasks
    lookup
choose_executor-Chosen_example =
    choose_executor-Chosen 90000000000 (executor "e1" 2 ∷ executor "e2" 3 ∷ []) (("e1", 2) ∷ [])
      build_task

-- A package regexp that knows one expression.
abbrev compile : String → Option (String → Bool)
compile e = if e == "v.*" then some (λ _. true) else none

abbrev master_only : WhenConditions
master_only = record {
  include = record { type = WhenConditionType.simple; match = "master" } ∷ [];
  exclude = [];
}

abbrev no_versions : WhenConditions
no_versions = record {
  include = [];
  exclude = record { type = WhenConditionType.regexp; match = "v.*" } ∷ [];
}

abbrev demo_when : When
demo_when = record { branch = some master_only; tag = none; ref = some no_versions }

no_field-AllCompile : AllCompile compile none
unfolding AllCompile
no_field-AllCompile w e = cc

field-AllCompile :
    (w : WhenConditions)
    → Compiles compile w.include
    → Compiles compile w.exclude
    → AllCompile compile (some w)
unfolding AllCompile
field-AllCompile w i x v e =
    subst (λ y. Compiles compile y.include × Compiles compile y.exclude) (some-inj e) (i, x)
  where
    some-inj : {a b : WhenConditions} → some a ≡ some b → a ≡ b
    some-inj q = cc

no_conditions : Compiles compile []
unfolding Compiles
no_conditions c i = elim i [ ]

master_conditions : Compiles compile master_only.include
unfolding Compiles
master_conditions c (Memᴰ.head e) t =
    absurd (simple_regexp (sym (ap (λ (x : WhenCondition). x.type) e) ∙ t))
  where
    simple_regexp : WhenConditionType.simple ≡ WhenConditionType.regexp → ⊥
    simple_regexp q = cc
master_conditions c (Memᴰ.tail i) t = elim i [ ]

version_conditions : Compiles compile no_versions.exclude
unfolding Compiles
version_conditions c (Memᴰ.head e) t = (λ _. true, ap (λ (x : WhenCondition). compile x.match) e)
version_conditions c (Memᴰ.tail i) t = elim i [ ]

match_when-Verdict_example :
    Verdict compile demo_when RunRefType.branch "master" "" "refs/heads/master"
      (match_when compile (some demo_when) RunRefType.branch "master" "" "refs/heads/master")
match_when-Verdict_example =
    match_when-Verdict compile demo_when RunRefType.branch "master" "" "refs/heads/master"
      (field-AllCompile master_only master_conditions no_conditions) no_field-AllCompile
      (field-AllCompile no_versions no_conditions version_conditions)

differ :
    {x y : RunConfigTask} (a b : RunConfigTask)
    → x ≡ a
    → y ≡ b
    → (a.id == b.id) ≡ false
    → x.id ≡ y.id
    → x ≡ y
differ a b e f n i =
    let ids : a.id ≡ b.id =
      ap (λ (z : RunConfigTask). z.id) (sym e) ∙ i ∙ ap (λ (z : RunConfigTask). z.id) f in
    absurd (ground (arith, (eq_iff a.id b.id).1 ids))

two_tasks-UniqueIds : UniqueIds two_tasks
two_tasks-UniqueIds x y (Memᴰ.head e) (Memᴰ.head f) i = e ∙ sym f
two_tasks-UniqueIds x y (Memᴰ.head e) (Memᴰ.tail (Memᴰ.head f)) i =
    differ build_task test_task e f refl i
two_tasks-UniqueIds x y (Memᴰ.tail (Memᴰ.head e)) (Memᴰ.head f) i =
    differ test_task build_task e f refl i
two_tasks-UniqueIds x y (Memᴰ.tail (Memᴰ.head e)) (Memᴰ.tail (Memᴰ.head f)) i = e ∙ sym f
two_tasks-UniqueIds x y (Memᴰ.tail (Memᴰ.tail j)) k i = elim j [ ]
two_tasks-UniqueIds x y j (Memᴰ.tail (Memᴰ.tail k)) i = elim k [ ]

get_all_parents-Ancestor_example :
    Memᴰ build_task (get_all_parents two_tasks test_task) ↔ Ancestor two_tasks test_task build_task
get_all_parents-Ancestor_example =
    get_all_parents-Ancestor two_tasks test_task build_task two_tasks-UniqueIds
