-- ===== src/Variables/Overridden.antt =====
-- FilterOverriddenVariables of internal/services/common/variables.go.
use agola.Prelude.{
  ◌≡◌, refl, ap, sym, subst, String, ◌==◌, eq_iff, true, false, not, ◌&&◌, ◌||◌, List, [], ◌∷◌, Map,
  any, has_key, insert, delete, Bool-cases, inl, inr, arith,
}
use agola.Variables.{Variable, first_variables, keep_first, filter_overridden_variables}

-- The variables whose name no earlier one has; `seen` are the earlier names.
unfoldable pub firsts : List String → List Variable → List Variable
firsts seen [] = []
firsts seen (v ∷ vs) = elim (any (λ n. n == v.name) seen) [
  | true ↦ firsts seen vs
  | false ↦ v ∷ firsts (v.name ∷ seen) vs
]

module _ {V : Type 0} where
  pub has_key-insert :
      (k j : String) (v : V) (m : Map V) → has_key j (insert k v m) ≡ ((k == j) || has_key j m)
  unfolding has_key insert
  has_key-insert k j v [] = ground arith
  has_key-insert k j v ((first, w) ∷ m) =
      ground (arith, has_key-insert k j v m, eq_iff first k, eq_iff first j, eq_iff k j)

  pub has_key-delete :
      (k j : String) (m : Map V) → has_key j (delete k m) ≡ (not (k == j) && has_key j m)
  unfolding has_key delete
  has_key-delete k j [] = ground arith
  has_key-delete k j ((first, w) ∷ m) =
      ground (arith, has_key-delete k j m, eq_iff first k, eq_iff first j, eq_iff k j)

-- A variable that is still in the map is one whose name is not seen.
abbrev Unseen : List String → Map Variable → List Variable → Type 0
Unseen seen m [] = Unit
Unseen seen m (v ∷ vs) = (has_key v.name m ≡ not (any (λ n. n == v.name) seen)) × Unseen seen m vs

Unseen-delete :
    (k : String) (seen : List String) (m : Map Variable) (vs : List Variable)
    → Unseen seen m vs
    → Unseen (k ∷ seen) (delete k m) vs
Unseen-delete k seen m [] u = tt
Unseen-delete k seen m (v ∷ vs) (e, u) =
    (ground (arith, has_key-delete k v.name m, e), Unseen-delete k seen m vs u)

keep_first-firsts :
    (seen : List String) (m : Map Variable) (vs : List Variable)
    → Unseen seen m vs
    → keep_first vs m ≡ firsts seen vs
unfolding keep_first firsts
keep_first-firsts seen m [] u = refl
keep_first-firsts seen m (v ∷ vs) (e, u) = elim (Bool-cases (any (λ n. n == v.name) seen)) [
  | inl hit ↦
      let gone : has_key v.name m ≡ false = ground arith in
      rw (keep_first, firsts, gone, hit) (keep_first-firsts seen m vs u)
  | inr miss ↦
      let there : has_key v.name m ≡ true = ground arith in
      rw (keep_first, firsts, there, miss)
        (ap (λ x. v ∷ x)
          (keep_first-firsts (v.name ∷ seen) (delete v.name m) vs
            (Unseen-delete v.name seen m vs u)))
]

-- Every name of the map and of the variables is in the map of the first loop.
first_variables_keep :
    (k : String) (vs : List Variable) (m : Map Variable)
    → has_key k m ≡ true
    → has_key k (first_variables vs m) ≡ true
unfolding first_variables
first_variables_keep k [] m h = h
first_variables_keep k (v ∷ vs) m h = elim (Bool-cases (has_key v.name m)) [
  | inl hit ↦ rw (first_variables, hit) (first_variables_keep k vs m h)
  | inr miss ↦
      rw (first_variables, miss)
        (first_variables_keep k vs (insert v.name v m)
          (ground (arith, has_key-insert v.name k v m)))
]

first_variables_have : (vs : List Variable) (m : Map Variable) → Unseen [] (first_variables vs m) vs
unfolding first_variables
first_variables_have [] m = tt
first_variables_have (v ∷ vs) m = elim (Bool-cases (has_key v.name m)) [
  | inl hit ↦
      let there = first_variables_keep v.name vs m hit in
      (
        rw (first_variables, hit) there,
        let e : first_variables (v ∷ vs) m ≡ first_variables vs m =
              rw (first_variables, hit) refl in
            subst (λ x. Unseen [] x vs) (sym e) (first_variables_have vs m),
      )
  | inr miss ↦
      let m' = insert v.name v m in
      let own : has_key v.name m' ≡ true =
        ground (arith, has_key-insert v.name v.name v m, (eq_iff v.name v.name).1 refl) in
      let there = first_variables_keep v.name vs m' own in
      (
        rw (first_variables, miss) there,
        let e : first_variables (v ∷ vs) m ≡ first_variables vs m' =
              rw (first_variables, miss) refl in
            subst (λ x. Unseen [] x vs) (sym e) (first_variables_have vs m'),
      )
]

-- FilterOverriddenVariables returns, in their order, the variables whose name no variable before them
-- has: of the variables of one name the first is kept.
pub filter_overridden_variables-firsts :
    (vs : List Variable) → filter_overridden_variables vs ≡ firsts [] vs
unfolding filter_overridden_variables
filter_overridden_variables-firsts vs =
    keep_first-firsts [] (first_variables vs []) vs (first_variables_have vs [])
