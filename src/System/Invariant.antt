-- ===== src/System/Invariant.antt =====
-- The runservice as a whole: every step against the lifecycle of a run, but for the success of a second
-- transaction of scheduleRun after a failure past its UpdateRun, and what holds of the database after
-- any of these in any order.
use agola.Prelude.{
  String, ◌==◌, eq_iff, ◌≡◌, ap, sym, ◌∙◌, subst, List, [], ◌||◌, false, ◌∷◌, some, Map, lookup,
  insert, Memᴰ, ok, bound, >>=-Bound, arith, Bool-cases, inl, inr, or_err, Error,
}
use agola.Types.{Run, RunConfig, ExecutorTask}
use agola.Lifecycle.Reach.{Inv}
use agola.Store.Rows.{next_meta}
use agola.Store.Revisions.{or_err-some}
use agola.Store.Db.{Db, get_run, get_run_config}
use agola.Store.Attempts.{is_later}
use agola.Store.Scheduling.{read_run}
use agola.System.Steps.{
  Failed, IsTimely, attempt_failed, retry_failed, run_retried, Snapshot, System, SystemStep,
  committed, run_read, run_scheduled,
}
use agola.System.Changes.{IsKeyed, Write-Inv, RunChange, same, wrote, added}
use agola.System.Snapshots.{
  ReadBefore, ReadBefore-now, RunChange-IsKeyed, RunChange-ReadBefore, lookup_hit, lookup_miss,
}
use agola.System.Creations.{renumbered-Inv}
use agola.System.Refinement.{
  Unwritten, RunChange-Unwritten, after_failure-Unwritten, first-Unwritten, run_attempt-RunChange,
  write_scheduled-RunChange,
}
use agola.System.Commits.{Committed-RunChange}

-- What holds between two transactions.
pub record SystemInv (s : System) : Type 0 where
  pub keyed : IsKeyed s.db.runs
  pub runs_in_order : (k : String) (r : Run) → lookup k s.db.runs ≡ some r → Inv r
  pub reads_were : (snap : Snapshot) → Memᴰ snap s.reads → ReadBefore s.db.runs snap.run
  pub failed_unwritten :
      (f : Failed) → Memᴰ f s.failed → f.past_update ≡ false → Unwritten s.db.runs f.captured

read_run-found :
    (id : String) (db : Db) (r : Run) (rc : RunConfig) (ets : List ExecutorTask)
    → read_run id db ≡ ok (r, rc, ets)
    → lookup id db.runs ≡ some r
unfolding read_run
read_run-found id db r rc ets h =
    elim (>>=-Bound (or_err (get_run id db) (Error.not_exist id)) _ h) [
      | bound x e k ↦
          elim (>>=-Bound
            (or_err (get_run_config x.run_config_id db) (Error.not_exist x.run_config_id)) _ k) [
              | bound y f l ↦
                  let at : x ≡ r = ground arith in
                  or_err-some (get_run id db) (Error.not_exist id) e ∙ ap some at
            ]
    ]

runs_in_order_then :
    (runs runs' : Map Run)
    → ((k : String) (r : Run) → lookup k runs ≡ some r → Inv r)
    → RunChange runs runs'
    → (k : String) (r : Run) → lookup k runs' ≡ some r
    → Inv r
runs_in_order_then runs runs' v (same e) k r l = v k r (sym (ap (lookup k) e) ∙ l)
runs_in_order_then runs runs' v (wrote now rc x x' at s e) k r l =
    let w : Run = record x' { meta = next_meta now x.meta } in
    let found : lookup k (insert x.id w runs) ≡ some r = sym (ap (lookup k) e) ∙ l in
    elim (Bool-cases (x.id == k)) [
      | inl hit ↦
          let rows : some w ≡ some r =
            sym (lookup_hit x.id k w runs ((eq_iff x.id k).0 hit)) ∙ found in
          let is : w ≡ r = cc in
          subst Inv is (
            renumbered-Inv x' (next_meta now x.meta) x'.sequence x'.counter x'.enqueue_time
              (Write-Inv s (v x.id x at)))
      | inr miss ↦ v k r (sym (lookup_miss x.id k w runs miss) ∙ found)
    ]
runs_in_order_then runs runs' v (added x at i e) k r l =
    let found : lookup k (insert x.id x runs) ≡ some r = sym (ap (lookup k) e) ∙ l in
    elim (Bool-cases (x.id == k)) [
      | inl hit ↦
          let rows : some x ≡ some r =
            sym (lookup_hit x.id k x runs ((eq_iff x.id k).0 hit)) ∙ found in
          let is : x ≡ r = cc in subst Inv is i
      | inr miss ↦ v k r (sym (lookup_miss x.id k x runs miss) ∙ found)
    ]

RunChange-SystemInv :
    (s : System) (db' : Db)
    → SystemInv s
    → RunChange s.db.runs db'.runs
    → SystemInv (record s { db = db' })
RunChange-SystemInv s db' v c = record {
  keyed = RunChange-IsKeyed s.db.runs db'.runs v.keyed c;
  runs_in_order = runs_in_order_then s.db.runs db'.runs v.runs_in_order c;
  reads_were = λ snap m. RunChange-ReadBefore s.db.runs db'.runs snap.run c (v.reads_were snap m);
  failed_unwritten =
      λ f m t. RunChange-Unwritten s.db.runs db'.runs f.captured c (v.failed_unwritten f m t);
}

-- One more failed attempt.
failed-SystemInv :
    (s : System) (f : Failed)
    → SystemInv s
    → (f.past_update ≡ false → Unwritten s.db.runs f.captured)
    → SystemInv (record s { failed = f ∷ s.failed })
failed-SystemInv s f v u = record {
  keyed = v.keyed;
  runs_in_order = v.runs_in_order;
  reads_were = v.reads_were;
  failed_unwritten = each;
}
  where
    each :
        (g : Failed)
        → Memᴰ g (f ∷ s.failed)
        → g.past_update ≡ false
        → Unwritten s.db.runs g.captured
    each g (Memᴰ.head q) t =
        subst (λ (x : Failed). Unwritten s.db.runs x.captured) (sym q)
          (u (ap (λ (x : Failed). x.past_update) (sym q) ∙ t))
    each g (Memᴰ.tail m) t = v.failed_unwritten g m t

pub SystemStep-SystemInv :
    (s s' : System) → SystemInv s → (p : SystemStep s s') → IsTimely p → SystemInv s'
SystemStep-SystemInv s s' v (committed db' c e) _ =
    subst SystemInv (sym e) (RunChange-SystemInv s db' v (Committed-RunChange s.db db' v.keyed c))
SystemStep-SystemInv s s' v (run_read id r rc ets h e) _ = subst SystemInv (sym e) record {
  keyed = v.keyed;
  runs_in_order = v.runs_in_order;
  reads_were = reads;
  failed_unwritten = v.failed_unwritten;
}
  where
    reads :
        (snap : Snapshot)
        → Memᴰ snap (record { run = r; rc = rc; ets = ets } ∷ s.reads)
        → ReadBefore s.db.runs snap.run
    reads snap (Memᴰ.head q) =
        let found = read_run-found id s.db r rc ets h in
        let at : lookup r.id s.db.runs ≡ some r =
          subst (λ i. lookup i s.db.runs ≡ some r) (sym (v.keyed id r found)) found in
        let same_run : snap.run ≡ r = ap (λ (x : Snapshot). x.run) q in
        subst (ReadBefore s.db.runs) (sym same_run) (ReadBefore-now s.db.runs r at)
    reads snap (Memᴰ.tail m) = v.reads_were snap m
SystemStep-SystemInv s s' v
      (run_scheduled snap now event_id seq_id db' r' to_send should_submit m h e) _ =
    subst SystemInv (sym e) (
      RunChange-SystemInv s db' v (
        write_scheduled-RunChange now event_id seq_id snap.run snap.rc snap.ets s.db db' r' to_send
          should_submit (v.reads_were snap m) h))
SystemStep-SystemInv s s' v (attempt_failed snap now at r c m g h e) _ = subst SystemInv (sym e) (
    failed-SystemInv s (record { past_update = is_later at; captured = c }) v
      (λ t.
        after_failure-Unwritten now at s.db.runs
          (record { prev = snap.run; run = r; rc = snap.rc; ets = snap.ets; to_send = [] }) c s.db t
          h (first-Unwritten now s.db.runs snap.run r snap.rc snap.ets (v.reads_were snap m) g)))
SystemStep-SystemInv s s' v (retry_failed f now at c m h e) _ = subst SystemInv (sym e) (
    failed-SystemInv s (record { past_update = f.past_update || is_later at; captured = c }) v
      (λ t.
        after_failure-Unwritten now at s.db.runs f.captured c s.db (ground (arith, t)) h
          (v.failed_unwritten f m (ground (arith, t)))))
SystemStep-SystemInv s s' v (run_retried f now event_id seq_id db' r' to_send should_submit m h e)
      t =
    subst SystemInv (sym e) (
      RunChange-SystemInv s db' v (
        run_attempt-RunChange now event_id seq_id f.captured s.db db' r' to_send should_submit
          (v.failed_unwritten f m t) h))
