-- ===== src/ConfigStore/Kept.antt =====
-- What the transactions of internal/services/configstore/action/secret.go do to the names.
use agola.Prelude.{
  ℕ, String, ◌==◌, eq_iff, ◌≡◌, refl, ap, sym, ◌∙◌, subst, Bool, Option, some, lookup, insert,
  delete, ok, or_err, Error, bound, >>=-Bound, arith, if◌then◌else◌, Bool-cases, inl, inr,
}
use agola.Gateway.Auth.{ObjectKind}
use agola.Store.Rows.{first_meta, next_meta, insert_row, update_row}
use agola.Store.Tables.{insert-IsTable}
use agola.Store.Revisions.{or_err-some}
use agola.ConfigStore.Refs.{StoredSecret, ConfigDb, resolve_object_id}
use agola.ConfigStore.Secrets.{
  CreateUpdateSecretRequest, get_secret_by_name, name_is_free, filled_secret, no_secret,
  insert_secret, update_secret_row, validate_secret_req, create_secret, update_secret,
  delete_secret,
}
use agola.ConfigStore.Names.{
  OneName, SecretTable, InOrder, lookup-delete, delete-Distinct, insert-OneName, Named, named,
  get_secret_by_name-Named, name_is_free-absent,
}

-- A transaction on the secrets that has succeeded.
pub data SecretStep (unescape : String → Option String) (valid_name : String → Bool)
    (db db' : ConfigDb) : Type 0 where
  created :
      (now : ℕ) (id : String) (req : CreateUpdateSecretRequest)
      → create_secret unescape valid_name now id req db ≡ ok db'
      → SecretStep unescape valid_name db db'
  updated_secret :
      (now : ℕ) (cur_name : String) (req : CreateUpdateSecretRequest)
      → update_secret unescape valid_name now cur_name req db ≡ ok db'
      → SecretStep unescape valid_name db db'
  deleted :
      (kind : ObjectKind) (ref name : String)
      → delete_secret unescape valid_name kind ref name db ≡ ok db'
      → SecretStep unescape valid_name db db'

insert_secret-InOrder :
    (now : ℕ) (s : StoredSecret) (db db' : ConfigDb)
    → InOrder db
    → ((j : String) (t : StoredSecret)
        → lookup j db.secrets ≡ some t
        → t.parent.id ≡ s.parent.id
        → ¬ (t.name ≡ s.name))
    → insert_secret now s db ≡ ok db'
    → InOrder db'
unfolding insert_secret insert_row
insert_secret-InOrder now s db db' (table, u) absent h =
    let row : StoredSecret = record s { meta = first_meta now s.meta } in
    let e : insert s.id row db.secrets ≡ db'.secrets = ground arith in
    subst (λ x. SecretTable x × OneName x) e
      (
        insert-IsTable (λ (s : StoredSecret). s.meta) s.id row db.secrets refl (omega arith) table,
        insert-OneName s.id row db.secrets u (λ j t l p n. elim (absent j t l p n) [ ]),
      )

update_secret_row-InOrder :
    (now : ℕ) (s : StoredSecret) (db db' : ConfigDb)
    → InOrder db
    → ((j : String) (t : StoredSecret)
        → lookup j db.secrets ≡ some t
        → t.parent.id ≡ s.parent.id
        → t.name ≡ s.name
        → j ≡ s.id)
    → update_secret_row now s db ≡ ok db'
    → InOrder db'
unfolding update_secret_row update_row
update_secret_row-InOrder now s db db' (table, u) only h =
    let row : StoredSecret = record s { meta = next_meta now s.meta } in
    let e : insert s.id row db.secrets ≡ db'.secrets = ground arith in
    subst (λ x. SecretTable x × OneName x) e
      (
        insert-IsTable (λ (s : StoredSecret). s.meta) s.id row db.secrets refl (omega arith) table,
        insert-OneName s.id row db.secrets u only,
      )

delete-InOrder :
    (k : String) (db : ConfigDb)
    → InOrder db
    → InOrder (record db { secrets = delete k db.secrets })
delete-InOrder k db ((d, keyed), u) = (
  (delete-Distinct k db.secrets d, λ j s l. keyed j s (lookup-delete k j db.secrets l)),
  λ i j s t a b. u i j s t (lookup-delete k i db.secrets a) (lookup-delete k j db.secrets b),
)

module _ (unescape : String → Option String) (valid_name : String → Bool) (db db' : ConfigDb)
    (start : InOrder db) where
  create_secret-InOrder :
      (now : ℕ) (id : String) (req : CreateUpdateSecretRequest)
      → create_secret unescape valid_name now id req db ≡ ok db'
      → InOrder db'
  unfolding create_secret
  create_secret-InOrder now id req h = elim (>>=-Bound (validate_secret_req valid_name req) _ h) [
    | bound v a k ↦
        elim (>>=-Bound (resolve_object_id unescape req.parent.kind req.parent.id db) _ k) [
          | bound parent_id b l ↦ elim (>>=-Bound (name_is_free parent_id req.name db) _ l) [
            | bound w c m ↦
                insert_secret-InOrder now (filled_secret req parent_id (no_secret id)) db db' start
                  (name_is_free-absent parent_id req.name db c) m
          ]
        ]
  ]

  delete_secret-InOrder :
      (kind : ObjectKind) (ref name : String)
      → delete_secret unescape valid_name kind ref name db ≡ ok db'
      → InOrder db'
  unfolding delete_secret
  delete_secret-InOrder kind ref name h =
      elim (>>=-Bound (resolve_object_id unescape kind ref db) _ h) [
        | bound parent_id a k ↦ elim (>>=-Bound (get_secret_by_name parent_id name db) _ k) [
          | bound o b l ↦ elim (>>=-Bound (or_err o (Error.bad_request name)) _ l) [
            | bound s c m ↦
                let e : record db { secrets = delete s.id db.secrets } ≡ db' = ground arith in
                subst InOrder e (delete-InOrder s.id db start)
          ]
        ]
      ]

  update_secret-InOrder :
      (now : ℕ) (cur_name : String) (req : CreateUpdateSecretRequest)
      → update_secret unescape valid_name now cur_name req db ≡ ok db'
      → InOrder db'
  unfolding update_secret
  update_secret-InOrder now cur_name req h =
      elim (>>=-Bound (validate_secret_req valid_name req) _ h) [
        | bound v a k ↦
            elim (>>=-Bound (resolve_object_id unescape req.parent.kind req.parent.id db) _ k) [
              | bound parent_id b l ↦
                  elim (>>=-Bound (get_secret_by_name parent_id cur_name db) _ l) [
                    | bound o c m ↦ elim (>>=-Bound (or_err o (Error.bad_request cur_name)) _ m) [
                      | bound s d n ↦
                          elim (>>=-Bound
                            (if s.name == req.name
                              then ok tt
                              else name_is_free parent_id req.name db)
                            _ n) [
                              | bound w e f ↦
                                  let found_it =
                                    get_secret_by_name-Named parent_id cur_name db s start.0 (
                                      c
                                      ∙ ap (λ x. ok x)
                                          (or_err-some o (Error.bad_request cur_name) d)) in
                                  update_secret_row-InOrder now (filled_secret req parent_id s) db
                                    db' start (same_row parent_id s w found_it e) f
                            ]
                    ]
                  ]
            ]
      ]
    where
      same_row :
          (parent_id : String) (s : StoredSecret) (w : Unit {0})
          → Named parent_id cur_name db s
          → (if s.name == req.name then ok tt else name_is_free parent_id req.name db) ≡ ok w
          → (j : String) (t : StoredSecret) → lookup j db.secrets ≡ some t
          → t.parent.id ≡ parent_id
          → t.name ≡ req.name
          → j ≡ s.id
      same_row parent_id s w (named l p n) e j t lt q r = elim (Bool-cases (s.name == req.name)) [
        | inl x ↦ start.1 j s.id t s lt l (q ∙ sym p) (r ∙ sym ((eq_iff s.name req.name).0 x))
        | inr x ↦
            elim (name_is_free-absent parent_id req.name db {u = w} (ground arith) j t lt q r) [ ]
      ]

  pub SecretStep-InOrder : SecretStep unescape valid_name db db' → InOrder db'
  SecretStep-InOrder (created now id req h) = create_secret-InOrder now id req h
  SecretStep-InOrder (updated_secret now cur_name req h) = update_secret-InOrder now cur_name req h
  SecretStep-InOrder (deleted kind ref name h) = delete_secret-InOrder kind ref name h
