-- ===== src/Store/Tables.antt =====
-- A table of the database: its rows by their ids, each at a revision that an insert has given it.
use agola.Prelude.{
  ◌≤◌, String, ◌==◌, eq_iff, ◌≡◌, refl, ap, sym, ◌∙◌, Bool, true, false, List, [], ◌∷◌, ◌++◌, none,
  some, Map, lookup, has_key, insert, values, Distinct, lookup-insert, has_key-lookup, filter,
  filter-mem, Memᴰ, arith, Bool-cases, inl, inr,
}
use agola.Types.{ObjectMeta}
use agola.Variables.Overridden.{has_key-insert}

module _ {V : Type 0} where
  pub has_key-none : (k : String) (m : Map V) → lookup k m ≡ none → has_key k m ≡ false
  unfolding lookup has_key
  has_key-none k [] h = refl
  has_key-none k ((j, v) ∷ m) h = ground (arith, has_key-none k m)

  pub insert-Distinct : (k : String) (v : V) (m : Map V) → Distinct m → Distinct (insert k v m)
  unfolding insert has_key
  insert-Distinct k v [] d = (refl, tt)
  insert-Distinct k v ((j, w) ∷ m) (n, d) = elim (Bool-cases (j == k)) [
    | inl e ↦ rw (insert, e) (n, d)
    | inr e ↦
        rw (insert, e)
          (
            ground (arith, has_key-insert k j v m, eq_iff k j, eq_iff j k, n),
            insert-Distinct k v m d,
          )
  ]

  -- In a table each value is found under its key.
  pub data Found (x : V) (m : Map V) : Type 0 where
    found : (k : String) → lookup k m ≡ some x → Found x m

  pub mem-Found : (m : Map V) {x : V} → Distinct m → Memᴰ x (values m) → Found x m
  unfolding lookup
  mem-Found [] d i = elim i [ ]
  mem-Found ((k, v) ∷ m) d (Memᴰ.head e) = found k (ground (arith, eq_iff k k))
  mem-Found ((k, v) ∷ m) (n, d) (Memᴰ.tail i) = elim (mem-Found m d i) [
    | found j l ↦ found j (ground (arith, eq_iff k j, has_key-lookup j m))
  ]

  pub lookup-mem : (k : String) (m : Map V) {x : V} → lookup k m ≡ some x → Memᴰ (k, x) m
  unfolding lookup
  lookup-mem k [] h = cc
  lookup-mem k ((j, v) ∷ m) {x = x} h = elim (Bool-cases (j == k)) [
    | inl e ↦
        let a : j ≡ k = (eq_iff j k).0 e in
        let b : v ≡ x = ground arith in
        Memᴰ.head (ap (λ n. (n, x)) (sym a) ∙ ap (λ y. (j, y)) (sym b))
    | inr e ↦ Memᴰ.tail (lookup-mem k m (ground arith))
  ]

  pub lookup-values : (k : String) (m : Map V) {x : V} → lookup k m ≡ some x → Memᴰ x (values m)
  unfolding lookup
  lookup-values k [] h = cc
  lookup-values k ((j, v) ∷ m) {x = x} h = elim (Bool-cases (j == k)) [
    | inl e ↦ let b : x ≡ v = ground arith in Memᴰ.head b
    | inr e ↦ Memᴰ.tail (lookup-values k m (ground arith))
  ]

  pub filter-insert_new :
      (p : V → Bool) (k : String) (v : V) (m : Map V)
      → lookup k m ≡ none
      → p v ≡ true
      → filter p (values (insert k v m)) ≡ filter p (values m) ++ v ∷ []
  unfolding lookup insert
  filter-insert_new p k v [] l e = ground arith
  filter-insert_new p k v ((j, w) ∷ m) l e = ground (arith, filter-insert_new p k v m)

module _ {V : Type 0} where
  pub mem-lookup : (m : Map V) (e : String × V) → Distinct m → Memᴰ e m → lookup e.0 m ≡ some e.1
  unfolding lookup
  mem-lookup [] e d i = elim i [ ]
  mem-lookup ((k, v) ∷ m) e d (Memᴰ.head q) =
      let a : e.0 ≡ k = ap (λ x. x.0) q in
      let b : e.1 ≡ v = ap (λ x. x.1) q in ground (arith, eq_iff k e.0)
  mem-lookup ((k, v) ∷ m) e (n, d) (Memᴰ.tail i) =
      ground (arith, mem-lookup m e d i, eq_iff k e.0, has_key-lookup k m)

module _ {V : Type 0} (meta_of : V → ObjectMeta) where
  abbrev pub Keyed : Map V → Type 0
  Keyed m =
      (k : String) (v : V) → lookup k m ≡ some v → ((meta_of v).id ≡ k) × (1 ≤ (meta_of v).revision)

  abbrev pub IsTable : Map V → Type 0
  IsTable m = Distinct m × Keyed m

  pub insert-IsTable :
      (k : String) (v : V) (m : Map V)
      → (meta_of v).id ≡ k
      → 1 ≤ (meta_of v).revision
      → IsTable m
      → IsTable (insert k v m)
  insert-IsTable k v m e r (d, t) = (insert-Distinct k v m d, keyed)
    where
      keyed : Keyed (insert k v m)
      keyed j w h = ground (arith, lookup-insert k j v m, eq_iff k j, t j w)

  Keyed-tail : (k : String) (v : V) (m : Map V) → IsTable ((k, v) ∷ m) → Keyed m
  unfolding lookup
  Keyed-tail k v m ((n, d), t) j w h = t j w (ground (arith, eq_iff k j, has_key-lookup k m))

  -- No two values of a list have the same id.
  abbrev pub DistinctIds : List V → Type 0
  DistinctIds [] = Unit
  DistinctIds (x ∷ xs) =
      ((y : V) → Memᴰ y xs → (meta_of x).id == (meta_of y).id ≡ false) × DistinctIds xs

  pub IsTable-DistinctIds :
      (p : V → Bool) (m : Map V) → IsTable m → DistinctIds (filter p (values m))
  unfolding lookup
  IsTable-DistinctIds p [] t = tt
  IsTable-DistinctIds p ((k, v) ∷ m) ((n, d), t) = elim (Bool-cases (p v)) [
    | inr e ↦ rw (e, filter) (IsTable-DistinctIds p m (d, Keyed-tail k v m ((n, d), t)))
    | inl e ↦ rw (e, filter) (differ, IsTable-DistinctIds p m (d, Keyed-tail k v m ((n, d), t)))
  ]
    where
      own : (meta_of v).id ≡ k
      own = (t k v (ground (arith, eq_iff k k))).0

      differ : (y : V) → Memᴰ y (filter p (values m)) → (meta_of v).id == (meta_of y).id ≡ false
      differ y i = elim (mem-Found m d (filter-mem p (values m) i).0) [
        | found j l ↦
            let at_key = (Keyed-tail k v m ((n, d), t) j y l).0 in
            ground (
              arith,
              own,
              at_key,
              l,
              has_key-lookup k m n,
              eq_iff k j,
              eq_iff (meta_of v).id (meta_of y).id,
            )
      ]
