-- ===== src/ConfigStore/Names.antt =====
-- The names of the secrets in the database of internal/services/configstore/db/db.go.
use agola.Prelude.{
  String, ◌==◌, eq_iff, ◌≡◌, ap, sym, ◌∙◌, subst, false, List, [], ◌∷◌, none, some, Map, lookup,
  insert, delete, has_key, values, Distinct, lookup-insert, has_key-lookup, filter, filter-mem,
  mem-filter, Memᴰ, ok, bound, >>=-Bound, arith, Bool-cases, inl, inr,
}
use agola.Variables.Overridden.{has_key-delete}
use agola.Store.Tables.{IsTable, mem-Found, found, lookup-values}
use agola.Store.Db.{at_most_one}
use agola.Store.Submission.{none_found}
use agola.ConfigStore.Refs.{StoredSecret, ConfigDb}
use agola.ConfigStore.Secrets.{is_secret_of, get_secret_by_name, name_is_free}

-- No two secrets of a parent have the same name.
abbrev pub OneName : Map StoredSecret → Type 0
OneName rows =
    (k j : String) (s t : StoredSecret)
    → lookup k rows ≡ some s
    → lookup j rows ≡ some t
    → s.parent.id ≡ t.parent.id
    → s.name ≡ t.name
    → k ≡ j

abbrev pub SecretTable : Map StoredSecret → Type 0
SecretTable rows = IsTable (λ (s : StoredSecret). s.meta) rows

abbrev pub InOrder : ConfigDb → Type 0
InOrder db = SecretTable db.secrets × OneName db.secrets

module _ {V : Type 0} where
  some_of : (xs : List V) {v : V} → at_most_one xs ≡ ok (some v) → Memᴰ v xs
  unfolding at_most_one
  some_of [] h = ground arith
  some_of (x ∷ []) {v = v} h = let e : v ≡ x = ground arith in Memᴰ.head e
  some_of (x ∷ y ∷ xs) h = ground arith

  pub lookup-delete :
      (k j : String) (m : Map V) {v : V} → lookup j (delete k m) ≡ some v → lookup j m ≡ some v
  unfolding lookup delete
  lookup-delete k j [] h = h
  lookup-delete k j ((i, w) ∷ m) {v = v} h = elim (Bool-cases (i == j)) [
    | inl y ↦ elim (Bool-cases (i == k)) [
      | inl x ↦
          let gone : has_key j (delete k m) ≡ false =
            ground (arith, has_key-delete k j m, eq_iff i k, eq_iff i j, eq_iff k j) in
          let nothing = has_key-lookup j (delete k m) gone in ground (arith, nothing)
      | inr x ↦ ground arith
    ]
    | inr y ↦
        let rest : lookup j (delete k m) ≡ some v = ground arith in
        let old = lookup-delete k j m rest in ground (arith, old)
  ]

  pub delete-Distinct : (k : String) (m : Map V) → Distinct m → Distinct (delete k m)
  unfolding delete
  delete-Distinct k [] d = tt
  delete-Distinct k ((i, w) ∷ m) (n, d) = elim (Bool-cases (i == k)) [
    | inl e ↦ rw (delete, e) (delete-Distinct k m d)
    | inr e ↦ rw (delete, e) (ground (arith, has_key-delete k i m), delete-Distinct k m d)
  ]

pub insert-OneName :
    (k : String) (v : StoredSecret) (rows : Map StoredSecret)
    → OneName rows
    → ((j : String) (t : StoredSecret)
        → lookup j rows ≡ some t
        → t.parent.id ≡ v.parent.id
        → t.name ≡ v.name
        → j ≡ k)
    → OneName (insert k v rows)
insert-OneName k v rows u only a b s t la lb p n =
    let ea = lookup-insert k a v rows in
    let eb = lookup-insert k b v rows in
    elim (Bool-cases (k == a)) [
      | inl x ↦ elim (Bool-cases (k == b)) [
        | inl y ↦ sym ((eq_iff k a).0 x) ∙ (eq_iff k b).0 y
        | inr y ↦
            let same : v ≡ s = ground arith in
            let old : lookup b rows ≡ some t = ground arith in
            let at_k =
              only b t old (sym p ∙ ap (λ (z : StoredSecret). z.parent.id) (sym same))
                (sym n ∙ ap (λ (z : StoredSecret). z.name) (sym same)) in
            sym ((eq_iff k a).0 x) ∙ sym at_k
      ]
      | inr x ↦ elim (Bool-cases (k == b)) [
        | inl y ↦
            let same : v ≡ t = ground arith in
            let old : lookup a rows ≡ some s = ground arith in
            let at_k =
              only a s old (p ∙ ap (λ (z : StoredSecret). z.parent.id) (sym same))
                (n ∙ ap (λ (z : StoredSecret). z.name) (sym same)) in
            at_k ∙ (eq_iff k b).0 y
        | inr y ↦ u a b s t (ground arith) (ground arith) p n
      ]
    ]

-- The secret that GetSecretByName finds.
pub data Named (parent_id name : String) (db : ConfigDb) (s : StoredSecret) : Type 0 where
  named :
      lookup s.id db.secrets ≡ some s
      → s.parent.id ≡ parent_id
      → s.name ≡ name
      → Named parent_id name db s

pub get_secret_by_name-Named :
    (parent_id name : String) (db : ConfigDb) (s : StoredSecret)
    → SecretTable db.secrets
    → get_secret_by_name parent_id name db ≡ ok (some s)
    → Named parent_id name db s
unfolding get_secret_by_name
get_secret_by_name-Named parent_id name db s (d, keyed) h =
    let (i, e) =
      filter-mem (is_secret_of parent_id name) (values db.secrets)
        (some_of (filter (is_secret_of parent_id name) (values db.secrets)) h) in
    elim (mem-Found db.secrets d i) [
      | found k l ↦
          named (subst (λ j. lookup j db.secrets ≡ some s) (sym (keyed k s l).0) l)
            (ground (arith, eq_iff s.parent.id parent_id)) (ground (arith, eq_iff s.name name))
    ]

pub name_is_free-absent :
    (parent_id name : String) (db : ConfigDb) {u : Unit {0}}
    → name_is_free parent_id name db ≡ ok u
    → (j : String) (t : StoredSecret) → lookup j db.secrets ≡ some t
    → t.parent.id ≡ parent_id
    → ¬ (t.name ≡ name)
unfolding name_is_free get_secret_by_name
name_is_free-absent parent_id name db h j t l p n =
    elim (>>=-Bound (get_secret_by_name parent_id name db) _ h) [
      | bound (some s) e f ↦ ground (arith, f)
      | bound none e f ↦
          let empty = none_found (filter (is_secret_of parent_id name) (values db.secrets)) e in
          elim (subst (λ xs. Memᴰ t xs) empty
            (mem-filter (is_secret_of parent_id name) (values db.secrets)
              (lookup-values j db.secrets l)
              (ground (arith, eq_iff t.parent.id parent_id, eq_iff t.name name)))) [ ]
    ]
