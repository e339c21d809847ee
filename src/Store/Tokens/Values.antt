-- ===== src/Store/Tokens/Values.antt =====
-- The values of the change groups of a token, and the rows that have the names of the token: lemmas on
-- the maps of internal/services/runservice/action/action.go.
use agola.Prelude.{
  ℕ, ok, bound, >>=-Bound, ◌≤◌, String, ◌==◌, eq_iff, ◌≡◌, refl, sym, subst, true, Bool, List, [],
  ◌∷◌, ◌++◌, some, Map, values, filter, lookup, insert, has_key, any, arith, Memᴰ, Bool-cases, inl,
  inr, filter-mem, mem-filter, mem→all, any-mem, Distinct, ◌||◌,
}
use agola.Types.{ChangeGroup, ChangeGroupsUpdateToken}
use agola.Store.Db.{Db}
use agola.Store.Tables.{found, mem-Found, mem-lookup, insert-Distinct}
use agola.Store.Transactions.{has_value, same_values, gen_change_groups_values}
use agola.Store.Tokens.{
  is_named, has_key-gen, get_change_groups_update_tokens, add_missing_groups,
  get_change_groups_by_names,
}
use agola.Store.Tokens.Once.{GroupTable}

pub any-append :
    {A : Type 0} (p : A → Bool) (xs ys : List A) → any p (xs ++ ys) ≡ (any p xs || any p ys)
any-append p [] ys = refl
any-append p (x ∷ xs) ys = ground (arith, any-append p xs ys)

any→mem :
    {A : Type 0} (p : A → Bool) (xs : List A) → any p xs ≡ true → (x : A) × Memᴰ x xs × (p x ≡ true)
any→mem p [] h = ground arith
any→mem p (x ∷ xs) h = elim (Bool-cases (p x)) [
  | inl e ↦ (x, Memᴰ.head refl, e)
  | inr e ↦ let (y, i, q) = any→mem p xs (ground arith) in (y, Memᴰ.tail i, q)
]

filter-cong :
    {A : Type 0} (p q : A → Bool) (xs : List A)
    → ((x : A) → Memᴰ x xs → p x ≡ q x)
    → filter p xs ≡ filter q xs
filter-cong p q [] h = refl
filter-cong p q (x ∷ xs) h =
    ground (arith, h x (Memᴰ.head refl), filter-cong p q xs (λ y i. h y (Memᴰ.tail i)))

-- The groups that have a name of a token are those that the token was made of.
pub same_groups :
    (names : List String) (xs : List ChangeGroup)
    → filter
        (λ (g : ChangeGroup).
          has_key g.name (gen_change_groups_values (filter (is_named names) xs) []))
        xs
      ≡ filter (is_named names) xs
unfolding has_key
same_groups names xs =
    filter-cong
      (λ (g : ChangeGroup).
        has_key g.name (gen_change_groups_values (filter (is_named names) xs) []))
      (is_named names) xs agree
  where
    agree :
        (x : ChangeGroup)
        → Memᴰ x xs
        → has_key x.name (gen_change_groups_values (filter (is_named names) xs) [])
          ≡ is_named names x
    agree x i =
        let gs = filter (is_named names) xs in
        let both = has_key-gen x.name gs [] in
        elim (Bool-cases (is_named names x)) [
          | inl e ↦ ground (
            arith,
            both,
            e,
            any-mem (λ (g : ChangeGroup). g.name == x.name) gs (mem-filter (is_named names) xs i e)
                ((eq_iff x.name x.name).1 refl),
          )
          | inr e ↦ elim (Bool-cases (any (λ (g : ChangeGroup). g.name == x.name) gs)) [
            | inr f ↦ ground (arith, both, e, f)
            | inl f ↦
                let (g, j, q) = any→mem (λ (g : ChangeGroup). g.name == x.name) gs f in
                let named : is_named names g ≡ true = (filter-mem (is_named names) xs j).1 in
                let other : is_named names x ≡ true =
                  subst (λ n. any (λ m. m == n) names ≡ true) ((eq_iff g.name x.name).0 q) named in
                ground (arith, other, e)
          ]
        ]

pub gen-Distinct :
    (gs : List ChangeGroup) (m : Map String) → Distinct m → Distinct (gen_change_groups_values gs m)
unfolding gen_change_groups_values
gen-Distinct [] m d = d
gen-Distinct (g ∷ gs) m d =
    gen-Distinct gs (insert g.name g.value m) (insert-Distinct g.name g.value m d)

pub same_values_refl : (m : Map String) → Distinct m → same_values m m ≡ true
same_values_refl m d = let every = mem→all (has_value m) m has_own in ground (arith, every)
  where
    has_own : (e : String × String) → Memᴰ e m → has_value m e ≡ true
    has_own e i = ground (arith, mem-lookup m e d i, (eq_iff e.1 e.1).1 refl)

pub row_found :
    (p : ChangeGroup → Bool) (rows : Map ChangeGroup)
    → GroupTable rows
    → (g : ChangeGroup) → Memᴰ g (filter p (values rows))
    → (lookup g.id rows ≡ some g) × (1 ≤ g.revision)
row_found p rows (d, keyed) g i = elim (mem-Found rows d (filter-mem p (values rows) i).0) [
  | found k l ↦ let (own, r) = keyed k g l in (subst (λ j. lookup j rows ≡ some g) (sym own) l, r)
]

-- The token's transaction writes to the change groups only.
pub get_change_groups_update_tokens-others :
    (now : ℕ) (new_id new_value : String → String) (names : List String) (db db' : Db)
    (t : ChangeGroupsUpdateToken)
    → get_change_groups_update_tokens now new_id new_value names db ≡ ok (db', t)
    → db' ≡ record db { change_groups = db'.change_groups }
unfolding get_change_groups_update_tokens
get_change_groups_update_tokens-others now new_id new_value names db db' t h =
    elim (>>=-Bound
      (add_missing_groups now new_id new_value names (get_change_groups_by_names names db)
        db.change_groups)
      _ h) [
        | bound (gs, rows) e k ↦
            let q : record db { change_groups = rows } ≡ db' = ground arith in
            subst (λ x. x ≡ record db { change_groups = x.change_groups }) q refl
      ]
