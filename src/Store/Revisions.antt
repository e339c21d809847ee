-- ===== src/Store/Revisions.antt =====
-- Optimistic locking: UpdateRun of internal/services/runservice/db/insert_delete.go.
use agola.Prelude.{
  ℕ, suc, ◌≤◌, eq_iff, ◌≡◌, refl, ap, sym, ◌∙◌, Bool, true, false, some, none, lookup, insert,
  lookup-insert, eqb, leb, Option, ok, err, guard, or_err, Error, Map, if◌then◌else◌, >>=-Bound,
  bound, arith,
}
use agola.Types.{Run}
use agola.Store.Rows.{next_meta, update_row}
use agola.Store.Db.{Db, update_run}

pub guard-true : (b : Bool) (e : Error) {u : Unit {0}} → guard b e ≡ ok u → b ≡ true
guard-true true e h = refl
guard-true false e h = cc

pub or_err-some : {A : Type 0} (o : Option A) (e : Error) {a : A} → or_err o e ≡ ok a → o ≡ some a
or_err-some none e h = cc
or_err-some (some a) e h = cc

-- What an update that succeeds has found and written.
pub data Updated (now : ℕ) (r : Run) (db db' : Db) : Type 0 where
  updated :
      (row : Run)
      → lookup r.id db.runs ≡ some row
      → row.revision ≡ r.revision
      → 1 ≤ r.revision
      → db' ≡ record db { runs = insert r.id (record r { meta = next_meta now r.meta }) db.runs }
      → Updated now r db db'

pub update_run-Updated :
    (now : ℕ) (r : Run) (db db' : Db) → update_run now r db ≡ ok db' → Updated now r db db'
unfolding update_run update_row
update_run-Updated now r db db' h =
    elim (>>=-Bound (update_row (λ (r : Run). r.meta) (λ r m. record r { meta = m }) now r db.runs)
      _ h) [
        | bound rows e f ↦ elim (>>=-Bound (guard (leb 1 r.revision) Error.wrong_revision) _ e) [
          | bound u g k ↦ elim (>>=-Bound (or_err (lookup r.id db.runs) Error.concurrent) _ k) [
            | bound row l m ↦
                elim (>>=-Bound (guard (eqb row.revision r.revision) Error.concurrent) _ m) [
                  | bound v q w ↦
                      updated row (or_err-some (lookup r.id db.runs) Error.concurrent l)
                        (ground
                          (arith, guard-true (eqb row.revision r.revision) Error.concurrent q))
                        (ground (arith, guard-true (leb 1 r.revision) Error.wrong_revision g))
                        (written w f)
                ]
          ]
        ]
      ]
  where
    written :
        {m rows : Map Run}
        → ok m ≡ ok rows
        → ok (record db { runs = rows }) ≡ ok db'
        → db' ≡ record db { runs = m }
    written {m} {rows} w f =
        let same : m ≡ rows = cc in
        let all : record db { runs = rows } ≡ db' = cc in
        sym all ∙ ap (λ x. record db { runs = x }) (sym same)

-- Of two transactions that have read the same revision of a run, the second to write it fails: after
-- a successful UpdateRun, an UpdateRun of an object with the id and the revision that the first had
-- returns ErrConcurrent.
pub update_run_twice :
    (now now' : ℕ) (r s : Run) (db db' : Db)
    → update_run now r db ≡ ok db'
    → s.id ≡ r.id
    → s.revision ≡ r.revision
    → update_run now' s db' ≡ err Error.concurrent
unfolding update_run update_row
update_run_twice now now' r s db db' h i v = elim (update_run-Updated now r db db' h) [
  | updated row l e p q ↦ rw (update_run, update_row, v, leb_one p, found q, stale) refl
]
  where
    leb_one : 1 ≤ r.revision → leb 1 r.revision ≡ true
    leb_one p = ground arith

    found :
        db' ≡ record db { runs = insert r.id (record r { meta = next_meta now r.meta }) db.runs }
        → lookup s.id db'.runs ≡ some (record r { meta = next_meta now r.meta })
    found q =
        ap (λ (d : Db). lookup s.id d.runs) q
        ∙ lookup-insert r.id s.id (record r { meta = next_meta now r.meta }) db.runs
        ∙ ap
            (λ b.
              if b then some (record r { meta = next_meta now r.meta }) else lookup s.id db.runs)
            ((eq_iff r.id s.id).1 (sym i))

    stale : eqb (suc r.revision) r.revision ≡ false
    stale = ground arith
