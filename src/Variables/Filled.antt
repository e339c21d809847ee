-- ===== src/Variables/Filled.antt =====
-- The slice that FilterOverriddenVariables of internal/services/common/variables.go makes and fills.
use agola.Prelude.{
  suc, ◌≡◌, refl, ap, sym, ◌∙◌, String, ◌==◌, eq_iff, true, false, ◌||◌, List, [], ◌∷◌, Map, length,
  any, has_key, insert, delete, Distinct, Bool-cases, inl, inr, arith,
}
use agola.Variables.{Variable, first_variables, keep_first, filter_overridden_variables}
use agola.Variables.Overridden.{has_key-insert, has_key-delete}

module _ {V : Type 0} where
  Distinct-insert : (k : String) (v : V) (m : Map V) → Distinct m → Distinct (insert k v m)
  unfolding has_key insert
  Distinct-insert k v [] d = (refl, tt)
  Distinct-insert k v ((j, w) ∷ m) (e, d) = elim (Bool-cases (j == k)) [
    | inl hit ↦ rw hit (e, d)
    | inr miss ↦
        rw miss
          (ground (arith, has_key-insert k j v m, eq_iff j k, eq_iff k j), Distinct-insert k v m d)
  ]

  Distinct-delete : (k : String) (m : Map V) → Distinct m → Distinct (delete k m)
  unfolding has_key delete
  Distinct-delete k [] d = tt
  Distinct-delete k ((j, w) ∷ m) (e, d) = elim (Bool-cases (j == k)) [
    | inl hit ↦ rw hit (Distinct-delete k m d)
    | inr miss ↦ rw miss (ground (arith, has_key-delete k j m), Distinct-delete k m d)
  ]

  delete_absent : (k : String) (m : Map V) → has_key k m ≡ false → delete k m ≡ m
  unfolding has_key delete
  delete_absent k [] e = refl
  delete_absent k ((j, w) ∷ m) e = ground (arith, delete_absent k m)

  length-delete :
      (k : String) (m : Map V)
      → Distinct m
      → has_key k m ≡ true
      → length m ≡ suc (length (delete k m))
  unfolding has_key delete
  length-delete k [] d h = ground arith
  length-delete k ((j, w) ∷ m) (e, d) h = elim (Bool-cases (j == k)) [
    | inl hit ↦
        let is : j ≡ k = (eq_iff j k).0 hit in
        let gone : has_key k m ≡ false = sym (ap (λ x. has_key x m) is) ∙ e in
        rw (hit, delete_absent k m gone) refl
    | inr miss ↦ rw miss (ap (λ n. suc n) (length-delete k m d (rw miss at h)))
  ]

  no_keys : (m : Map V) → ((k : String) → has_key k m ≡ false) → m ≡ []
  unfolding has_key
  no_keys [] h = refl
  no_keys ((j, w) ∷ m) h = absurd (ground (arith, h j, eq_iff j j))

Distinct-first_variables :
    (vs : List Variable) (m : Map Variable) → Distinct m → Distinct (first_variables vs m)
unfolding first_variables
Distinct-first_variables [] m d = d
Distinct-first_variables (v ∷ vs) m d = elim (Bool-cases (has_key v.name m)) [
  | inl hit ↦ rw (first_variables, hit) (Distinct-first_variables vs m d)
  | inr miss ↦
      rw (first_variables, miss)
        (Distinct-first_variables vs (insert v.name v m) (Distinct-insert v.name v m d))
]

-- A name of the map is the name of a variable.
abbrev Named : Map Variable → List Variable → Type 0
Named m vs = (k : String) → has_key k m ≡ true → any (λ v. v.name == k) vs ≡ true

Named-first_variables :
    (k : String) (vs : List Variable) (m : Map Variable)
    → has_key k (first_variables vs m) ≡ true
    → (has_key k m || any (λ v. v.name == k) vs) ≡ true
unfolding first_variables
Named-first_variables k [] m h = ground arith
Named-first_variables k (v ∷ vs) m h = elim (Bool-cases (has_key v.name m)) [
  | inl hit ↦ ground (arith, Named-first_variables k vs m (rw hit at h))
  | inr miss ↦ ground (
    arith,
    has_key-insert v.name k v m,
    Named-first_variables k vs (insert v.name v m) (rw miss at h),
  )
]

keep_first-length :
    (vs : List Variable) (m : Map Variable)
    → Distinct m
    → Named m vs
    → length (keep_first vs m) ≡ length m
unfolding keep_first
keep_first-length [] m d n = ap length (
    sym (
      no_keys m (λ k. elim (Bool-cases (has_key k m)) [
        | inl hit ↦ absurd (ground (arith, n k hit))
        | inr miss ↦ miss
      ])))
keep_first-length (v ∷ vs) m d n = elim (Bool-cases (has_key v.name m)) [
  | inl hit ↦
      rw (keep_first, hit)
        (ap (λ x. suc x)
            (keep_first-length vs (delete v.name m) (Distinct-delete v.name m d)
              (λ k h. ground (arith, has_key-delete v.name k m, n k)))
          ∙ sym (length-delete v.name m d hit))
  | inr miss ↦
      rw (keep_first, miss)
        (keep_first-length vs m d (λ k h. elim (Bool-cases (v.name == k)) [
          | inl same ↦
              let is = (eq_iff v.name k).0 same in absurd (ground (arith, ap (λ x. has_key x m) is))
          | inr other ↦ ground (arith, n k h)
        ]))
]

-- FilterOverriddenVariables writes exactly as many elements as the slice that it has made for them
-- holds, the number of different names: no write is out of the bounds, and no element is left nil.
pub filter_overridden_variables-length :
    (vs : List Variable) → length (filter_overridden_variables vs) ≡ length (first_variables vs [])
unfolding filter_overridden_variables
filter_overridden_variables-length vs =
    keep_first-length vs (first_variables vs []) (Distinct-first_variables vs [] tt)
      (λ k h. Named-first_variables k vs [] h)
