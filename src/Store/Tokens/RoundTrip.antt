-- ===== src/Store/Tokens/RoundTrip.antt =====
-- GetChangeGroupsUpdateTokens and UpdateChangeGroups of internal/services/runservice/action/action.go:
-- the token that the first makes, handed to the second.
use agola.Prelude.{
  ℕ, ◌≤◌, String, ◌==◌, eq_iff, ◌≡◌, refl, ap, sym, ◌∙◌, subst, true, false, Bool, List, [], ◌∷◌,
  ◌++◌, none, some, Map, values, filter, lookup, insert, lookup-insert, has_key, any, ok, arith,
  Memᴰ, Bool-cases, inl, inr, ◌⊎◌, any-mem,
}
use agola.Types.{ChangeGroup, ChangeGroupsUpdateToken}
use agola.Store.Rows.{insert_or_update_row, insert_row, update_row}
use agola.Store.Tables.{insert-IsTable, filter-insert_new, DistinctIds, IsTable-DistinctIds}
use agola.Store.Db.{Db}
use agola.Store.Transactions.{
  get_change_groups_of, gen_change_groups_values, renew_change_groups, update_change_groups,
}
use agola.Store.Tokens.{
  is_named, get_change_groups_by_names, inserted_group, add_missing_groups,
  get_change_groups_update_tokens, has_key-gen,
}
use agola.Store.Tokens.Once.{GroupTable, renewed}
use agola.Store.Tokens.Values.{any-append, same_groups, gen-Distinct, same_values_refl, row_found}

module _ (now : ℕ) (fresh : String → String) where
  data Renewable (gs : List ChangeGroup) (rows : Map ChangeGroup) : Type 0 where
    renewable :
        (rows' : Map ChangeGroup)
        → renew_change_groups now fresh gs rows ≡ ok rows'
        → Renewable gs rows

  renew_change_groups-Renewable :
      (gs : List ChangeGroup) (rows : Map ChangeGroup)
      → DistinctIds (λ (g : ChangeGroup). g.meta) gs
      → ((g : ChangeGroup) → Memᴰ g gs → (lookup g.id rows ≡ some g) × (1 ≤ g.revision))
      → Renewable gs rows
  unfolding renew_change_groups insert_or_update_row update_row
  renew_change_groups-Renewable [] rows d h = renewable rows refl
  renew_change_groups-Renewable (g ∷ gs) rows (n, d) h =
      let (l, r) = h g (Memᴰ.head refl) in
      elim (renew_change_groups-Renewable gs (insert g.id (renewed now fresh g) rows) d (λ x i. (
        ground (
          arith,
          lookup-insert g.id x.id (renewed now fresh g) rows,
          n x i,
          (h x (Memᴰ.tail i)).0,
        ),
        (h x (Memᴰ.tail i)).1,
      ))) [ renewable rows' e ↦ renewable rows' (ground (arith, l, r, e)) ]

abbrev has_name : String → List ChangeGroup → Bool
has_name n gs = any (λ g. g.name == n) gs

module _ (now : ℕ) (new_id new_value : String → String) (names : List String) where
  -- What the loop of GetChangeGroupsUpdateTokens leaves: the groups of its list are those of the
  -- table that have one of the names.
  data Added (ns : List String) (gs : List ChangeGroup) (rows : Map ChangeGroup) : Type 0 where
    added :
        (gs' : List ChangeGroup) (rows' : Map ChangeGroup)
        → add_missing_groups now new_id new_value ns gs rows ≡ ok (gs', rows')
        → filter (is_named names) (values rows') ≡ gs'
        → GroupTable rows'
        → ((n : String) → Memᴰ n ns ⊎ (has_name n gs ≡ true) → has_name n gs' ≡ true)
        → Added ns gs rows

  -- The names that are still to come are not in the table, or their groups are in the list.
  abbrev Free : List String → List ChangeGroup → Map ChangeGroup → Type 0
  Free ns gs rows =
      (n : String) → Memᴰ n ns → (lookup (new_id n) rows ≡ none) ⊎ (has_name n gs ≡ true)

  unused_id :
      (n : String) (ns : List String) (gs : List ChangeGroup) (rows : Map ChangeGroup)
      → Free (n ∷ ns) gs rows
      → any (λ (g : ChangeGroup). g.name == n) gs ≡ false
      → lookup (new_id n) rows ≡ none
  unused_id n ns gs rows free miss = elim (free n (Memᴰ.head refl)) [
    | inl a ↦ a
    | inr b ↦ ground (arith, b, miss)
  ]

  Free-insert :
      (n : String) (ns : List String) (gs : List ChangeGroup) (rows : Map ChangeGroup)
      → ((n m : String) → new_id n ≡ new_id m → n ≡ m)
      → Free (n ∷ ns) gs rows
      → Free ns
          (gs ++ inserted_group now new_id new_value n ∷ [])
          (insert (new_id n) (inserted_group now new_id new_value n) rows)
  Free-insert n ns gs rows inj free m i =
      let g = inserted_group now new_id new_value n in
      let both = any-append (λ (x : ChangeGroup). x.name == m) gs (g ∷ []) in
      elim (Bool-cases (n == m)) [
        | inl e ↦ inr (ground (arith, both))
        | inr e ↦ elim (free m (Memᴰ.tail i)) [
          | inr b ↦ inr (ground (arith, both))
          | inl a ↦ inl (
              ground (
                arith,
                lookup-insert (new_id n) (new_id m) g rows,
                inj n m,
                eq_iff n m,
                eq_iff (new_id n) (new_id m),
              ))
        ]
      ]

  one_more :
      (n m : String) (ns : List String) (gs : List ChangeGroup)
      → Memᴰ m (n ∷ ns) ⊎ (has_name m gs ≡ true)
      → Memᴰ m ns ⊎ (has_name m (gs ++ inserted_group now new_id new_value n ∷ []) ≡ true)
  one_more n m ns gs c =
      let both =
        any-append (λ (x : ChangeGroup). x.name == m) gs
          (inserted_group now new_id new_value n ∷ []) in
      elim c [
        | inl (Memᴰ.tail i) ↦ inl i
        | inl (Memᴰ.head p) ↦ inr (ground (arith, both, (eq_iff n m).1 (sym p)))
        | inr h ↦ inr (ground (arith, both))
      ]

  add_missing_groups-Added :
      (ns : List String) (gs : List ChangeGroup) (rows : Map ChangeGroup)
      → ((n : String) → Memᴰ n ns → any (λ m. m == n) names ≡ true)
      → ((n m : String) → new_id n ≡ new_id m → n ≡ m)
      → Free ns gs rows
      → filter (is_named names) (values rows) ≡ gs
      → GroupTable rows
      → Added ns gs rows
  unfolding add_missing_groups insert_row
  add_missing_groups-Added [] gs rows sub inj free f t =
      added gs rows refl f t (λ n c. elim c [ inl i ↦ elim i [ ] | inr h ↦ h ])
  add_missing_groups-Added (n ∷ ns) gs rows sub inj free f t =
      elim (Bool-cases (any (λ (g : ChangeGroup). g.name == n) gs)) [
        | inl hit ↦
            elim (add_missing_groups-Added ns gs rows (λ m i. sub m (Memᴰ.tail i)) inj
              (λ m i. free m (Memᴰ.tail i)) f t) [
                | added gs' rows' e q k w ↦
                    added gs' rows' (rw (add_missing_groups, hit) e) q k (λ m c. elim c [
                      | inr h ↦ w m (inr h)
                      | inl (Memᴰ.tail i) ↦ w m (inl i)
                      | inl (Memᴰ.head p) ↦
                          w m (inr (subst (λ x. has_name x gs ≡ true) (sym p) hit))
                    ])
              ]
        | inr miss ↦
            let unused : lookup (new_id n) rows ≡ none = unused_id n ns gs rows free miss in
            let g = inserted_group now new_id new_value n in
            elim (add_missing_groups-Added ns (gs ++ g ∷ []) (insert (new_id n) g rows)
              (λ m i. sub m (Memᴰ.tail i)) inj (Free-insert n ns gs rows inj free)
              (filter-insert_new (is_named names) (new_id n) g rows unused (sub n (Memᴰ.head refl))
                ∙ ap (λ x. x ++ g ∷ []) f)
              (insert-IsTable (λ (g : ChangeGroup). g.meta) (new_id n) g rows refl (ground arith)
                t)) [
                  | added gs' rows' e q k w ↦
                      added gs' rows' (rw (add_missing_groups, miss, insert_row, unused) e) q k
                        (λ m c. w m (one_more n m ns gs c))
                ]
      ]

  -- A token that GetChangeGroupsUpdateTokens has made and that UpdateChangeGroups has taken.
  pub data Accepted (now' : ℕ) (fresh : String → String) (db : Db) : Type 0 where
    accepted :
        (db' db'' : Db) (t : ChangeGroupsUpdateToken)
        → get_change_groups_update_tokens now new_id new_value names db ≡ ok (db', t)
        → update_change_groups now' fresh (some t) db' ≡ ok db''
        → GroupTable db'.change_groups
        → ((n : String) → Memᴰ n names → has_key n t.change_groups_values ≡ true)
        → Accepted now' fresh db

  -- GetChangeGroupsUpdateTokens returns a token that has each of the names, and UpdateChangeGroups
  -- takes that token on the database that is left, if the fresh ids are different for different
  -- names and are not in the table.
  pub get_change_groups_update_tokens-Accepted :
      (now' : ℕ) (fresh : String → String) (db : Db)
      → GroupTable db.change_groups
      → ((n m : String) → new_id n ≡ new_id m → n ≡ m)
      → ((n : String) → Memᴰ n names → lookup (new_id n) db.change_groups ≡ none)
      → Accepted now' fresh db
  unfolding get_change_groups_update_tokens update_change_groups
  get_change_groups_update_tokens-Accepted now' fresh db t inj unused =
      elim (add_missing_groups-Added names (get_change_groups_by_names names db) db.change_groups
        (λ n i. any-mem (λ m. m == n) names i ((eq_iff n n).1 refl)) inj (λ n i. inl (unused n i))
        refl t) [
          | added gs rows e f k w ↦
              let db' : Db = record db { change_groups = rows } in
              let token : ChangeGroupsUpdateToken = record {
                change_groups_values = gen_change_groups_values gs [];
              } in
              let same : get_change_groups_of token db' ≡ gs =
                subst
                  (λ x.
                    filter (λ (g : ChangeGroup). has_key g.name (gen_change_groups_values x []))
                      (values rows)
                    ≡ x)
                  f (same_groups names (values rows)) in
              elim (renew_change_groups-Renewable now' fresh gs rows
                (subst (DistinctIds (λ (g : ChangeGroup). g.meta)) f
                  (IsTable-DistinctIds (λ (g : ChangeGroup). g.meta) (is_named names) rows k))
                (λ g i. row_found (is_named names) rows k g (subst (λ x. Memᴰ g x) (sym f) i))) [
                  | renewable rows' r ↦
                      accepted db' (record db' { change_groups = rows' }) token
                        (rw (get_change_groups_update_tokens, e) refl)
                        (rw
                          (
                            same,
                            same_values_refl (gen_change_groups_values gs [])
                                (gen-Distinct gs [] tt),
                            r,
                          )
                          refl)
                        k (λ n i. ground (arith, has_key-gen n gs [], w n (inl i)))
                ]
        ]
