-- ===== src/Action/SpecData/Environment.antt =====
-- The environment of an executor task, which GenExecutorTaskSpecData of
-- internal/services/runservice/common/common.go merges.
use agola.Prelude.{
  ◌≡◌, refl, ap, sym, ◌∙◌, String, ◌==◌, eq_iff, Option, none, some, [], ◌∷◌, Map, lookup, insert,
  Distinct, has_key-lookup, lookup-insert, ok, deref, deref-ok, bound, >>=-Bound, arith, Bool-cases,
  inl, inr,
}
use agola.Types.{Run, RunTask, RunConfig, RunConfigTask}
use agola.Action.SpecData.{
  merge_env, ost_root_group, workspace_operations, merged_environment, shared_environment,
  sort_parents, ExecutorTaskSpecData, gen_executor_task_spec_data,
}
use agola.RunConfig.Graph.{get_all_parents}

-- A value, or else another.
abbrev pub or_else : Option String → Option String → Option String
or_else (some v) o = some v
or_else none o = o

lookup-merge_env :
    (k : String) (dest src : Map String)
    → Distinct src
    → lookup k (merge_env dest src) ≡ or_else (lookup k src) (lookup k dest)
unfolding merge_env lookup
lookup-merge_env k dest [] d = refl
lookup-merge_env k dest ((j, v) ∷ src) (e, d) = elim (Bool-cases (j == k)) [
  | inl hit ↦
      let gone : lookup k src ≡ none =
        ap (λ x. lookup x src) (sym ((eq_iff j k).0 hit)) ∙ has_key-lookup j src e in
      rw (lookup-merge_env k (insert j v dest) src d, gone, lookup-insert j k v dest, hit) refl
  | inr miss ↦ rw (lookup-merge_env k (insert j v dest) src d, lookup-insert j k v dest, miss) refl
]

-- The parts of what GenExecutorTaskSpecData returns.
pub data Generated (r : Run) (rt : RunTask) (rc rc' : RunConfig) (spec : ExecutorTaskSpecData)
    : Type 0 where
  generated :
      (rct : RunConfigTask)
      → lookup rt.id rc.tasks ≡ some rct
      → spec.environment ≡ merged_environment rc rct
      → workspace_operations r.tasks (
          sort_parents (
            get_all_parents
              (insert rt.id
                (record rct {
                  environment = shared_environment rct.environment (merged_environment rc rct);
                })
                rc.tasks)
              (record rct {
                environment = shared_environment rct.environment (merged_environment rc rct);
              })))
        ≡ ok spec.workspace_operations
      → rc'.tasks
        ≡ insert rt.id
            (record rct {
              environment = shared_environment rct.environment (merged_environment rc rct);
            })
            rc.tasks
      → Generated r rt rc rc' spec

pub gen_executor_task_spec_data-Generated :
    (r : Run) (rt : RunTask) (rc rc' : RunConfig) (spec : ExecutorTaskSpecData)
    → gen_executor_task_spec_data r rt rc ≡ ok (spec, rc')
    → Generated r rt rc rc' spec
unfolding gen_executor_task_spec_data
gen_executor_task_spec_data-Generated r rt rc rc' spec h =
    elim (>>=-Bound (deref (lookup rt.id rc.tasks)) _ h) [
      | bound rct e k ↦ elim (>>=-Bound (ost_root_group r.group) _ k) [
        | bound root f l ↦
            let rct' : RunConfigTask = record rct {
              environment = shared_environment rct.environment (merged_environment rc rct);
            } in
            elim (>>=-Bound
              (workspace_operations r.tasks
                (sort_parents (get_all_parents (insert rt.id rct' rc.tasks) rct')))
              _ l) [
                | bound ops g m ↦
                    let kept : ops ≡ spec.workspace_operations = ground arith in
                    generated rct (deref-ok _ e) (ground arith) (g ∙ ap ok kept) (ground arith)
              ]
      ]
    ]

-- In the environment that an executor gets with a task, a variable has the value that the run config
-- gives it, or else the run config's static environment, or else the task.
pub gen_executor_task_spec_data-environment :
    (r : Run) (rt : RunTask) (rc rc' : RunConfig) (rct : RunConfigTask)
    (spec : ExecutorTaskSpecData) (k : String)
    → Distinct rc.static_environment
    → Distinct rc.environment
    → lookup rt.id rc.tasks ≡ some rct
    → gen_executor_task_spec_data r rt rc ≡ ok (spec, rc')
    → lookup k spec.environment
      ≡ or_else
          (lookup k rc.environment)
          (or_else (lookup k rc.static_environment) (lookup k rct.environment))
gen_executor_task_spec_data-environment r rt rc rc' rct spec k d d' at h =
    elim (gen_executor_task_spec_data-Generated r rt rc rc' spec h) [
      | generated x l e o c ↦
          let found : some x ≡ some rct = sym l ∙ at in
          let is : x ≡ rct = cc in
          ap (lookup k) (e ∙ ap (merged_environment rc) is)
          ∙ lookup-merge_env k (merge_env rct.environment rc.static_environment) rc.environment d'
          ∙ ap (or_else (lookup k rc.environment))
              (lookup-merge_env k rct.environment rc.static_environment d)
    ]
