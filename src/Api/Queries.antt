-- ===== src/Api/Queries.antt =====
-- The queries for runs of internal/services/runservice/db/db.go, for a `lastRun` that is false. The
-- operator LIKE of the database is an argument, which takes the pattern and the text.
use Prim.Native.Char.{code}
use Prim.Native.String.{◌++◌ as ◌<>◌}
use agola.Prelude.{
  ℕ, zero, suc, String, Bool, true, false, ◌&&◌, ◌||◌, List, [], ◌∷◌, Option, values, any, filter,
  eqb, leb, ltb, Result, if◌then◌else◌,
}
use agola.Types.{Run, RunPhase, RunResult}
use agola.Store.Db.{Db, at_most_one}
use agola.Store.Attempts.{same_phase, same_result}

-- `strings.HasSuffix(p, "/")`
unfoldable pub ends_in_slash : String → Bool
ends_in_slash String.[] = false
ends_in_slash (String.◌∷◌ c String.[]) = eqb (code c) b'/'
ends_in_slash (String.◌∷◌ c (String.◌∷◌ d s)) = ends_in_slash (String.◌∷◌ d s)

unfoldable pub with_slash : String → String
unfolding ends_in_slash
with_slash p = if ends_in_slash p then p else (p <> "/")

-- A filter that is empty lets everything pass.
abbrev or_all : {A : Type 0} → List A → (A → Bool) → Bool
or_all [] p = true
or_all (x ∷ xs) p = p x || any p xs

-- ORDER BY: `before` is the order of the keys.
unfoldable pub insert_ordered : (ℕ → ℕ → Bool) → (Run → ℕ) → Run → List Run → List Run
insert_ordered before key r [] = r ∷ []
insert_ordered before key r (s ∷ rs) =
    let rest = insert_ordered before key r rs in
    if before (key r) (key s) then r ∷ s ∷ rs else s ∷ rest

unfoldable pub order_by : (ℕ → ℕ → Bool) → (Run → ℕ) → List Run → List Run
unfolding insert_ordered
order_by before key [] = []
order_by before key (r ∷ rs) = insert_ordered before key r (order_by before key rs)

-- SortOrderAsc and SortOrderDesc
abbrev pub sort_order : Bool → ℕ → ℕ → Bool
sort_order true a b = leb a b
sort_order false a b = leb b a

-- The keys after the one that the last page ended with; 0 is the first page.
abbrev pub is_after : Bool → ℕ → ℕ → Bool
is_after asc zero key = true
is_after true (suc start) key = ltb (suc start) key
is_after false (suc start) key = ltb key (suc start)

unfoldable pub take : ℕ → List Run → List Run
take zero rs = []
take (suc n) [] = []
take (suc n) (r ∷ rs) = r ∷ take n rs

-- LIMIT, which 0 leaves out.
abbrev pub limit_to : ℕ → List Run → List Run
limit_to zero rs = rs
limit_to (suc n) rs = take (suc n) rs

module _ (like : String → String → Bool) where
  -- The column grouppath is the group with a slash at its end.
  abbrev pub in_group : String → Run → Bool
  in_group group r = like (with_slash group <> "%") (with_slash r.group)

  abbrev pub is_selected :
      List RunPhase → List RunResult → List String → Bool → ℕ → (Run → ℕ) → Run → Bool
  is_selected phases results groups asc start key r =
      or_all phases (λ p. same_phase p r.phase)
      && or_all results (λ p. same_result p r.result)
      && or_all groups (λ g. in_group g r)
      && is_after asc start (key r)

  -- getRunsFilteredQuery
  unfoldable pub get_runs :
      List String → List RunPhase → List RunResult → ℕ → ℕ → Bool → Db → List Run
  unfolding order_by take with_slash
  get_runs groups phases results start limit asc db = limit_to limit (
      order_by (sort_order asc) (λ r. r.sequence)
        (filter (is_selected phases results groups asc start (λ r. r.sequence)) (values db.runs)))

  -- getGroupRunsFilteredQuery
  unfoldable pub get_group_runs :
      String → List RunPhase → List RunResult → ℕ → ℕ → Bool → Db → List Run
  unfolding order_by take with_slash
  get_group_runs group phases results start limit asc db = limit_to limit (
      order_by (sort_order asc) (λ r. r.counter)
        (filter (is_selected phases results (group ∷ []) asc start (λ r. r.counter))
          (values db.runs)))

  unfoldable pub get_run_by_group : String → ℕ → Db → Result (Option Run)
  unfolding at_most_one with_slash
  get_run_by_group group counter db =
      at_most_one (filter (λ r. in_group group r && eqb r.counter counter) (values db.runs))
