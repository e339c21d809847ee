-- ===== src/Store/Rows.antt =====
-- The inserts and updates of internal/services/runservice/db/insert_delete.go, which are the same for
-- each type of object: a table has its rows by id, and an update needs the row to be at the revision
-- that was read. A failure of the database itself is not modelled.
use agola.Prelude.{
  ℕ, suc, true, false, Option, none, some, Map, lookup, insert, eqb, leb, Result, ok, err, guard,
  or_err, ◌>>=◌, ◌>>◌, Error,
}
use agola.Types.{ObjectMeta}

-- SetCreationTime and SetUpdateTime with revision 1.
abbrev pub first_meta : ℕ → ObjectMeta → ObjectMeta
first_meta now m = record m { revision = 1; creation_time = now; update_time = now }

abbrev pub next_meta : ℕ → ObjectMeta → ObjectMeta
next_meta now m = record m { revision = suc m.revision; update_time = now }

abbrev free : {V : Type 0} → Option V → Result (Unit {0})
free none = ok tt
free (some v) = err Error.insert_failed

module _ {V : Type 0} (meta_of : V → ObjectMeta) (with_meta : V → ObjectMeta → V) where
  unfoldable pub insert_row : ℕ → V → Map V → Result (Map V)
  insert_row now v rows = do
    guard (eqb (meta_of v).revision 0) Error.wrong_revision
    free (lookup (meta_of v).id rows)
    ok (insert (meta_of v).id (with_meta v (first_meta now (meta_of v))) rows)

  -- `UPDATE ... WHERE id = v.ID AND revision = curRevision` has to change one row.
  unfoldable pub update_row : ℕ → V → Map V → Result (Map V)
  update_row now v rows = do
    guard (leb 1 (meta_of v).revision) Error.wrong_revision
    row ← or_err (lookup (meta_of v).id rows) Error.concurrent
    guard (eqb (meta_of row).revision (meta_of v).revision) Error.concurrent
    ok (insert (meta_of v).id (with_meta v (next_meta now (meta_of v))) rows)

  unfoldable pub insert_or_update_row : ℕ → V → Map V → Result (Map V)
  unfolding insert_row update_row
  insert_or_update_row now v rows = elim (eqb (meta_of v).revision 0) [
    | true ↦ insert_row now v rows
    | false ↦ update_row now v rows
  ]
