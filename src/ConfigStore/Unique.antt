-- ===== src/ConfigStore/Unique.antt =====
-- The secrets after any transactions of internal/services/configstore/action/secret.go.
use agola.Prelude.{
  String, ◌==◌, eq_iff, ◌≡◌, refl, ap, sym, ◌∙◌, subst, Bool, false, List, [], ◌∷◌, Option, none,
  some, lookup, values, filter, filter-mem, Memᴰ, ok, arith,
}
use agola.Store.Tables.{mem-Found, found, DistinctIds, IsTable-DistinctIds}
use agola.Store.Db.{at_most_one}
use agola.ConfigStore.Refs.{StoredSecret, ConfigDb}
use agola.ConfigStore.Secrets.{is_secret_of, get_secret_by_name}
use agola.ConfigStore.Names.{InOrder, Named, named}
use agola.ConfigStore.Kept.{SecretStep, SecretStep-InOrder}

module _ (parent_id name : String) (db : ConfigDb) (start : InOrder db) where
  abbrev same_name : List StoredSecret
  same_name = filter (is_secret_of parent_id name) (values db.secrets)

  member-Named : (s : StoredSecret) → Memᴰ s same_name → Named parent_id name db s
  member-Named s i =
      let (j, e) = filter-mem (is_secret_of parent_id name) (values db.secrets) i in
      elim (mem-Found db.secrets start.0.0 j) [
        | found k l ↦
            named (subst (λ x. lookup x db.secrets ≡ some s) (sym (start.0.1 k s l).0) l)
              (ground (arith, eq_iff s.parent.id parent_id)) (ground (arith, eq_iff s.name name))
      ]

  not_two :
      (x y : StoredSecret)
      → Named parent_id name db x
      → Named parent_id name db y
      → x.id == y.id ≡ false
      → ⊥
  not_two x y (named a p n) (named b q m) e =
      let same = start.1 x.id y.id x y a b (p ∙ sym q) (n ∙ sym m) in
      let yes_same = (eq_iff x.id y.id).1 same in ground (arith, yes_same, e)

  -- GetSecretByName does not find too many rows.
  get_secret_by_name_ends :
      (o : Option StoredSecret) × (get_secret_by_name parent_id name db ≡ ok o)
  unfolding get_secret_by_name at_most_one
  get_secret_by_name_ends = by_list same_name refl
    where
      by_list :
          (xs : List StoredSecret)
          → same_name ≡ xs
          → (o : Option StoredSecret) × (get_secret_by_name parent_id name db ≡ ok o)
      by_list [] q = (none, ap at_most_one q)
      by_list (x ∷ []) q = (some x, ap at_most_one q)
      by_list (x ∷ y ∷ xs) q =
          let differ = subst (DistinctIds (λ (s : StoredSecret). s.meta)) q (
            IsTable-DistinctIds (λ (s : StoredSecret). s.meta) (is_secret_of parent_id name)
              db.secrets start.0) in
          elim (not_two x y (member-Named x (subst (λ l. Memᴰ x l) (sym q) (Memᴰ.head refl)))
            (member-Named y (subst (λ l. Memᴰ y l) (sym q) (Memᴰ.tail (Memᴰ.head refl))))
            (differ.0 y (Memᴰ.head refl))) [ ]

-- Any sequence of them, from a database to `db'`.
pub data SecretSteps (unescape : String → Option String) (valid_name : String → Bool)
    (db' : ConfigDb) : ConfigDb → Type 0 where
  none_done : SecretSteps unescape valid_name db' db'
  then_step :
      (db mid : ConfigDb)
      → SecretStep unescape valid_name db mid
      → SecretSteps unescape valid_name db' mid
      → SecretSteps unescape valid_name db' db

SecretSteps-InOrder :
    (unescape : String → Option String) (valid_name : String → Bool) (db' db : ConfigDb)
    → InOrder db
    → SecretSteps unescape valid_name db' db
    → InOrder db'
SecretSteps-InOrder unescape valid_name db' _ start none_done = start
SecretSteps-InOrder unescape valid_name db' _ start (then_step db mid s more) =
    SecretSteps-InOrder unescape valid_name db' mid
      (SecretStep-InOrder unescape valid_name db mid start s) more

-- From secrets in order, after any calls of CreateSecret, UpdateSecret and DeleteSecret that have
-- succeeded, each secret is stored under its id, no two secrets of a project or a project group have
-- the same name, and GetSecretByName returns no error, for whatever parent and name.
pub SecretSteps-Found :
    (unescape : String → Option String) (valid_name : String → Bool) (db db' : ConfigDb)
    (parent_id name : String)
    → InOrder db
    → SecretSteps unescape valid_name db' db
    → InOrder db' × ((o : Option StoredSecret) × (get_secret_by_name parent_id name db' ≡ ok o))
SecretSteps-Found unescape valid_name db db' parent_id name start steps =
    let after = SecretSteps-InOrder unescape valid_name db' db start steps in
    (after, get_secret_by_name_ends parent_id name db' after)
