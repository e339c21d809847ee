-- ===== src/Store/Tokens/Once.antt =====
-- UpdateChangeGroups of internal/services/runservice/action/action.go: what it leaves in the table of
-- the change groups, and the tokens that it refuses afterwards.
use agola.Prelude.{
  ℕ, ◌≤◌, String, ◌==◌, eq_iff, ◌≡◌, refl, ap, sym, ◌∙◌, subst, true, false, List, [], ◌∷◌, Option,
  none, some, Map, values, lookup, insert, lookup-insert, has_key, ok, guard, Error, bound,
  >>=-Bound, arith, Memᴰ, Bool-cases, inl, inr, ◌⊎◌, filter-mem, mem-filter, all→mem, all,
}
use agola.Types.{ChangeGroup, ChangeGroupsUpdateToken}
use agola.Store.Rows.{next_meta, insert_or_update_row, update_row}
use agola.Store.Tables.{IsTable, insert-IsTable, found, mem-Found, lookup-mem, lookup-values}
use agola.Store.Db.{Db}
use agola.Store.Transactions.{
  has_value, same_values, get_change_groups_of, gen_change_groups_values, renew_change_groups,
  update_change_groups,
}
use agola.Store.Tokens.{HasValue, has, lookup-gen, with_group_meta}

abbrev pub GroupTable : Map ChangeGroup → Type 0
GroupTable rows = IsTable (λ (g : ChangeGroup). g.meta) rows

module _ (now : ℕ) (fresh : String → String) where
  abbrev pub renewed : ChangeGroup → ChangeGroup
  renewed g = record g { meta = next_meta now g.meta; value = fresh g.id }

  -- One turn of the loop, on a group that was inserted before.
  pub renew_one :
      (g : ChangeGroup) (rows rows' : Map ChangeGroup)
      → 1 ≤ g.revision
      → insert_or_update_row
          (λ (g : ChangeGroup). g.meta)
          with_group_meta
          now
          (record g { value = fresh g.id })
          rows
        ≡ ok rows'
      → rows' ≡ insert g.id (renewed g) rows
  unfolding insert_or_update_row update_row
  renew_one g rows rows' p h = ground arith

  -- The value of a group is new, or the group is still to come.
  abbrev Renewed : String → List ChangeGroup → Map ChangeGroup → Type 0
  Renewed n gs rows =
      (k : String) (g : ChangeGroup)
      → lookup k rows ≡ some g
      → g.name ≡ n
      → (g.value ≡ fresh g.id) ⊎ Memᴰ g gs

  Renewed-insert :
      (n : String) (g : ChangeGroup) (gs : List ChangeGroup) (rows : Map ChangeGroup)
      → GroupTable rows
      → Renewed n (g ∷ gs) rows
      → Renewed n gs (insert g.id (renewed g) rows)
  Renewed-insert n g gs rows (d, keyed) w k x l q = elim (Bool-cases (g.id == k)) [
    | inl e ↦
        let same : renewed g ≡ x = ground (arith, lookup-insert g.id k (renewed g) rows) in
        inl (subst (λ y. y.value ≡ fresh y.id) same refl)
    | inr e ↦
        let old : lookup k rows ≡ some x = ground (arith, lookup-insert g.id k (renewed g) rows) in
        elim (w k x old q) [
          | inl a ↦ inl a
          | inr (Memᴰ.tail i) ↦ inr i
          | inr (Memᴰ.head p) ↦
              let at_key : g.id ≡ k = subst (λ (y : ChangeGroup). y.id ≡ k) p (keyed k x old).0 in
              ground (arith, eq_iff g.id k, at_key, e)
        ]
  ]

  renew_change_groups-Renewed :
      (n : String) (gs : List ChangeGroup) (rows rows' : Map ChangeGroup)
      → GroupTable rows
      → ((g : ChangeGroup) → Memᴰ g gs → 1 ≤ g.revision)
      → Renewed n gs rows
      → renew_change_groups now fresh gs rows ≡ ok rows'
      → GroupTable rows' × Renewed n [] rows'
  unfolding renew_change_groups
  renew_change_groups-Renewed n [] rows rows' t r w h =
      let e : rows ≡ rows' = ground arith in subst (λ x. GroupTable x × Renewed n [] x) e (t, w)
  renew_change_groups-Renewed n (g ∷ gs) rows rows' t r w h =
      elim (>>=-Bound
        (insert_or_update_row (λ (g : ChangeGroup). g.meta) with_group_meta now
          (record g { value = fresh g.id }) rows)
        _ h) [
          | bound mid e k ↦
              let one = renew_one g rows mid (r g (Memᴰ.head refl)) e in
              renew_change_groups-Renewed n gs mid rows'
                (subst GroupTable (sym one) (
                  insert-IsTable (λ (g : ChangeGroup). g.meta) g.id (renewed g) rows refl
                    (ground arith) t))
                (λ g' i. r g' (Memᴰ.tail i))
                (subst (Renewed n gs) (sym one) (Renewed-insert n g gs rows t w)) k
        ]

  revisions :
      (t : ChangeGroupsUpdateToken) (db : Db)
      → GroupTable db.change_groups
      → (g : ChangeGroup) → Memᴰ g (get_change_groups_of t db)
      → 1 ≤ g.revision
  revisions t db (d, keyed) g i =
      elim (mem-Found db.change_groups d
        (filter-mem (λ (y : ChangeGroup). has_key y.name t.change_groups_values)
          (values db.change_groups) i).0) [ found k l ↦ (keyed k g l).1 ]

  -- After UpdateChangeGroups with a token that has the name, each group of that name has a new value.
  pub update_change_groups-renews :
      (t : ChangeGroupsUpdateToken) (n : String) (db db' : Db)
      → GroupTable db.change_groups
      → has_key n t.change_groups_values ≡ true
      → update_change_groups now fresh (some t) db ≡ ok db'
      → GroupTable db'.change_groups × Renewed n [] db'.change_groups
  unfolding update_change_groups
  update_change_groups-renews t n db db' g h u =
      elim (>>=-Bound
        (guard
          (same_values t.change_groups_values
            (gen_change_groups_values (get_change_groups_of t db) []))
          (Error.bad_request "concurrent update"))
        _ u) [
          | bound v c k ↦
              elim (>>=-Bound
                (renew_change_groups now fresh (get_change_groups_of t db) db.change_groups) _ k) [
                  | bound rows e l ↦
                      subst (λ x. GroupTable x × Renewed n [] x) (stored rows l)
                        (renew_change_groups-Renewed n (get_change_groups_of t db) db.change_groups
                          rows g (revisions t db g)
                          (λ k x l q. inr (
                            mem-filter (λ (y : ChangeGroup). has_key y.name t.change_groups_values)
                              (values db.change_groups) (lookup-values k db.change_groups l)
                              (subst (λ y. has_key y t.change_groups_values ≡ true) (sym q) h)))
                          e)
                ]
        ]
    where
      stored :
          (rows : Map ChangeGroup)
          → ok (record db { change_groups = rows }) ≡ ok db'
          → rows ≡ db'.change_groups
      stored rows l =
          let e : record db { change_groups = rows } ≡ db' = cc in
          ap (λ (x : Db). x.change_groups) e

has_value-lookup : (m : Map String) (n v : String) → has_value m (n, v) ≡ true → lookup n m ≡ some v
has_value-lookup m n v = by_value (lookup n m) refl
  where
    by_value :
        (o : Option String) → lookup n m ≡ o → has_value m (n, v) ≡ true → lookup n m ≡ some v
    by_value none e h = ground arith
    by_value (some w) e h =
        let p : w == v ≡ true = ground arith in e ∙ ap (λ x. some x) ((eq_iff w v).0 p)

not_same :
    (t : ChangeGroupsUpdateToken) (n v : String) (gs : List ChangeGroup)
    → lookup n t.change_groups_values ≡ some v
    → ¬ HasValue n v gs
    → same_values t.change_groups_values (gen_change_groups_values gs []) ≡ false
unfolding lookup
not_same t n v gs l absent =
    elim (Bool-cases (same_values t.change_groups_values (gen_change_groups_values gs []))) [
      | inr e ↦ e
      | inl e ↦
          let m = gen_change_groups_values gs [] in
          let every : all (has_value m) t.change_groups_values ≡ true = ground arith in
          let at_name =
            all→mem (has_value m) t.change_groups_values every
              (lookup-mem n t.change_groups_values l) in
          elim (lookup-gen n v gs [] (has_value-lookup m n v at_name)) [
            | inl x ↦ elim (absent x) [ ]
            | inr x ↦ ground (arith, x)
          ]
    ]

-- What an update with a token leaves does not agree with a token that has another value for one of
-- its names.
pub stale_after :
    (now : ℕ) (fresh : String → String) (t t' : ChangeGroupsUpdateToken) (n v : String)
    (db db' : Db)
    → GroupTable db.change_groups
    → has_key n t.change_groups_values ≡ true
    → lookup n t'.change_groups_values ≡ some v
    → ((id : String) → ¬ (fresh id ≡ v))
    → update_change_groups now fresh (some t) db ≡ ok db'
    → same_values t'.change_groups_values
        (gen_change_groups_values (get_change_groups_of t' db') [])
      ≡ false
stale_after now fresh t t' n v db db' g h l other u =
    not_same t' n v (get_change_groups_of t' db') l absent
  where
    absent : ¬ HasValue n v (get_change_groups_of t' db')
    absent (has x i p q) =
        let (table, w) = update_change_groups-renews now fresh t n db db' g h u in
        elim (mem-Found db'.change_groups table.0
          (filter-mem (λ (y : ChangeGroup). has_key y.name t'.change_groups_values)
            (values db'.change_groups) i).0) [
              | found k m ↦ elim (w k x m p) [ inl e ↦ other x.id (sym e ∙ q) | inr j ↦ elim j [ ] ]
            ]
