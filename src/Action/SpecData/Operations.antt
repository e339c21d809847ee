-- ===== src/Action/SpecData/Operations.antt =====
-- The archives that GenExecutorTaskSpecData of internal/services/runservice/common/common.go hands to an
-- executor.
use agola.Prelude.{
  ℕ, ◌≡◌, refl, ap, sym, ◌∙◌, subst, String, Bool, true, false, some, List, [], ◌∷◌, ◌++◌, Map,
  values, lookup, insert, lookup-insert, eq_iff, Memᴰ, mem-append, ok, deref, deref-ok, bound,
  >>=-Bound, arith, inl, inr, if◌then◌else◌,
}
use agola.Types.{Run, RunTask, RunConfig, RunConfigTask}
use agola.RunConfig.Graph.{get_all_parents, Ancestor}
use agola.RunConfig.Ancestors.{get_all_parents_ends}
use agola.Action.SpecData.{
  WorkspaceOperation, by_level_name_less, sorted_in, sort_parents, operations_of,
  workspace_operations, merged_environment, shared_environment, ExecutorTaskSpecData,
  gen_executor_task_spec_data,
}
use agola.Action.SpecData.Environment.{generated, gen_executor_task_spec_data-Generated}

sorted_in-mem :
    (x p : RunConfigTask) (qs : List RunConfigTask) → Memᴰ x (sorted_in p qs) → Memᴰ x (p ∷ qs)
sorted_in-mem x p [] m = m
sorted_in-mem x p (q ∷ qs) m = by_less (by_level_name_less q p) (sorted_in-mem x p qs) m
  where
    swap : Memᴰ x (p ∷ qs) → Memᴰ x (p ∷ q ∷ qs)
    swap (Memᴰ.head e) = Memᴰ.head e
    swap (Memᴰ.tail i) = Memᴰ.tail (Memᴰ.tail i)

    by_less :
        (b : Bool)
        → (Memᴰ x (sorted_in p qs) → Memᴰ x (p ∷ qs))
        → Memᴰ x (if b then q ∷ sorted_in p qs else p ∷ q ∷ qs)
        → Memᴰ x (p ∷ q ∷ qs)
    by_less true later (Memᴰ.head e) = Memᴰ.tail (Memᴰ.head e)
    by_less true later (Memᴰ.tail i) = swap (later i)
    by_less false later i = i

sort_parents-mem :
    (x : RunConfigTask) (ps : List RunConfigTask) → Memᴰ x (sort_parents ps) → Memᴰ x ps
sort_parents-mem x [] m = m
sort_parents-mem x (p ∷ ps) m = put (sort_parents-mem x ps) (sorted_in-mem x p (sort_parents ps) m)
  where
    put : (Memᴰ x (sort_parents ps) → Memᴰ x ps) → Memᴰ x (p ∷ sort_parents ps) → Memᴰ x (p ∷ ps)
    put later (Memᴰ.head e) = Memᴰ.head e
    put later (Memᴰ.tail i) = Memᴰ.tail (later i)

operations_of-mem :
    (op : WorkspaceOperation) (id : String) (steps : List ℕ)
    → Memᴰ op (operations_of id steps)
    → (op.task_id ≡ id) × Memᴰ op.step steps
operations_of-mem op id [] m = elim m [ ]
operations_of-mem op id (step ∷ steps) (Memᴰ.head e) = (
  ap (λ (o : WorkspaceOperation). o.task_id) e,
  Memᴰ.head (ap (λ (o : WorkspaceOperation). o.step) e),
)
operations_of-mem op id (step ∷ steps) (Memᴰ.tail i) =
    let (t, s) = operations_of-mem op id steps i in (t, Memᴰ.tail s)

-- The operation is for a workspace archive of one of the tasks `ps`.
pub data ArchiveOf (tasks : Map RunTask) (P : RunConfigTask → Type 0) (op : WorkspaceOperation)
    : Type 0 where
  archive_of :
      (p : RunConfigTask) (rt : RunTask)
      → P p
      → op.task_id ≡ p.id
      → lookup p.id tasks ≡ some rt
      → Memᴰ op.step rt.workspace_archives
      → ArchiveOf tasks P op

ArchiveOf-map :
    (tasks : Map RunTask) (P Q : RunConfigTask → Type 0) (op : WorkspaceOperation)
    → ((p : RunConfigTask) → P p → Q p)
    → ArchiveOf tasks P op
    → ArchiveOf tasks Q op
ArchiveOf-map tasks P Q op f (archive_of p rt h e l m) = archive_of p rt (f p h) e l m

workspace_operations-ArchiveOf :
    (tasks : Map RunTask) (ps : List RunConfigTask) (ops : List WorkspaceOperation)
    (op : WorkspaceOperation)
    → workspace_operations tasks ps ≡ ok ops
    → Memᴰ op ops
    → ArchiveOf tasks (λ p. Memᴰ p ps) op
unfolding workspace_operations
workspace_operations-ArchiveOf tasks [] ops op h m =
    let none_made : [] ≡ ops = ground arith in
    let at : Memᴰ op [] = subst (Memᴰ op) (sym none_made) m in elim at [ ]
workspace_operations-ArchiveOf tasks (p ∷ ps) ops op h m =
    elim (>>=-Bound (deref (lookup p.id tasks)) _ h) [
      | bound rt e k ↦ elim (>>=-Bound (workspace_operations tasks ps) _ k) [
        | bound rest f l ↦
            let made : operations_of p.id rt.workspace_archives ++ rest ≡ ops = ground arith in
            elim (mem-append (operations_of p.id rt.workspace_archives) rest
              (subst (Memᴰ op) (sym made) m)) [
                | inl i ↦
                    let (t, s) = operations_of-mem op p.id rt.workspace_archives i in
                    archive_of p rt (Memᴰ.head refl) t (deref-ok _ e) s
                | inr j ↦
                    ArchiveOf-map tasks (λ q. Memᴰ q ps) (λ q. Memᴰ q (p ∷ ps)) op
                      (λ q i. Memᴰ.tail i) (workspace_operations-ArchiveOf tasks ps rest op f j)
              ]
      ]
    ]

get_all_parents-Ancestor :
    (rcts : Map RunConfigTask) (t p : RunConfigTask)
    → Memᴰ p (get_all_parents rcts t)
    → Ancestor rcts t p
unfolding get_all_parents
get_all_parents-Ancestor rcts t p m =
    let (p_map, e, a) = get_all_parents_ends rcts t in
    let at : Memᴰ p (values p_map) = rw e at m in a p at

-- An executor restores, for a task, only workspace archives that ancestors of the task in the run
-- config have made, by the steps that their run tasks name.
pub gen_executor_task_spec_data-operations :
    (r : Run) (rt : RunTask) (rc rc' : RunConfig) (spec : ExecutorTaskSpecData)
    (op : WorkspaceOperation)
    → gen_executor_task_spec_data r rt rc ≡ ok (spec, rc')
    → Memᴰ op spec.workspace_operations
    → (rct : RunConfigTask) × (lookup rt.id rc'.tasks ≡ some rct)
      × ArchiveOf r.tasks (Ancestor rc'.tasks rct) op
gen_executor_task_spec_data-operations r rt rc rc' spec op h m =
    elim (gen_executor_task_spec_data-Generated r rt rc rc' spec h) [
      | generated x l e o c ↦
          let rct : RunConfigTask = record x {
            environment = shared_environment x.environment (merged_environment rc x);
          } in
          let tasks' = insert rt.id rct rc.tasks in
          (
            rct,
            ap (lookup rt.id) c
                ∙ lookup-insert rt.id rt.id rct rc.tasks
                ∙ ap (λ b. if b then some rct else lookup rt.id rc.tasks)
                    ((eq_iff rt.id rt.id).1 refl),
            ArchiveOf-map r.tasks (λ p. Memᴰ p (sort_parents (get_all_parents tasks' rct)))
                (Ancestor rc'.tasks rct) op
                (λ p i.
                  subst (λ ts. Ancestor ts rct p) (sym c)
                    (get_all_parents-Ancestor tasks' rct p
                      (sort_parents-mem p (get_all_parents tasks' rct) i)))
                (workspace_operations-ArchiveOf r.tasks (sort_parents (get_all_parents tasks' rct))
                  spec.workspace_operations op o m),
          )
    ]
