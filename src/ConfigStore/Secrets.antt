-- ===== src/ConfigStore/Secrets.antt =====
-- internal/services/configstore/action/secret.go. `valid_name` is util.ValidateName, whose tests are a
-- regular expression and the parser of uuids.
use agola.Prelude.{
  ℕ, String, ◌==◌, Bool, true, false, not, ◌&&◌, [], ◌∷◌, Option, none, some, Map, lookup, values,
  filter, delete, Result, ok, err, or_err, guard, ◌>>=◌, ◌>>◌, Error, if◌then◌else◌,
}
use agola.Types.{ObjectMeta, new_meta}
use agola.Gateway.Auth.{ObjectKind}
use agola.Store.Rows.{insert_row, update_row}
use agola.Store.Db.{at_most_one}
use agola.ConfigStore.Refs.{Parent, SecretType, StoredSecret, ConfigDb, resolve_object_id}

pub record CreateUpdateSecretRequest : Type 0 where
  pub name : String
  pub parent : Parent
  pub type : SecretType
  pub secret_data : Map String
  pub secret_provider_id : String
  pub path : String

abbrev is_internal : SecretType → Bool
is_internal SecretType.internal = true
is_internal _ = false

abbrev no_entries : Map String → Bool
no_entries [] = true
no_entries (e ∷ m) = false

abbrev kind_is_set : ObjectKind → Bool
kind_is_set ObjectKind.unset = false
kind_is_set _ = true

abbrev holds_secrets : ObjectKind → Bool
holds_secrets ObjectKind.project = true
holds_secrets ObjectKind.project_group = true
holds_secrets _ = false

unfoldable pub validate_secret_req : (String → Bool) → CreateUpdateSecretRequest → Result (Unit {0})
validate_secret_req valid_name req = do
  guard (not (req.name == "")) (Error.bad_request "secret name required")
  guard (valid_name req.name) (Error.bad_request "invalid secret name")
  guard (is_internal req.type) (Error.bad_request "invalid secret type")
  guard (not (no_entries req.secret_data)) (Error.bad_request "empty secret data")
  guard (kind_is_set req.parent.kind) (Error.bad_request "secret parent kind required")
  guard (not (req.parent.id == "")) (Error.bad_request "secret parentid required")
  guard (holds_secrets req.parent.kind) (Error.bad_request "invalid secret parent kind")

abbrev pub is_secret_of : String → String → StoredSecret → Bool
is_secret_of parent_id name s = s.parent.id == parent_id && s.name == name

unfoldable pub get_secret_by_name : String → String → ConfigDb → Result (Option StoredSecret)
unfolding at_most_one
get_secret_by_name parent_id name db =
    at_most_one (filter (is_secret_of parent_id name) (values db.secrets))

-- The check for a duplicate name.
unfoldable pub name_is_free : String → String → ConfigDb → Result (Unit {0})
unfolding get_secret_by_name
name_is_free parent_id name db = do
  o ← get_secret_by_name parent_id name db
  elim o [ none ↦ ok tt | some s ↦ err (Error.bad_request name) ]

-- The fields that a request sets; `id` is that of the parent.
abbrev pub filled_secret : CreateUpdateSecretRequest → String → StoredSecret → StoredSecret
filled_secret req id s = record s {
  name = req.name;
  parent = record { kind = req.parent.kind; id = id };
  type = req.type;
  secret_data = req.secret_data;
  secret_provider_id = req.secret_provider_id;
  path = req.path;
}

abbrev pub no_secret : String → StoredSecret
no_secret id = record {
  meta = new_meta id;
  name = "";
  parent = record { kind = ObjectKind.unset; id = "" };
  type = SecretType.other_type "";
  secret_data = [];
  secret_provider_id = "";
  path = "";
}

abbrev pub with_secret_meta : StoredSecret → ObjectMeta → StoredSecret
with_secret_meta s m = record s { meta = m }

unfoldable pub insert_secret : ℕ → StoredSecret → ConfigDb → Result ConfigDb
insert_secret now s db = do
  rows ← insert_row (λ (s : StoredSecret). s.meta) with_secret_meta now s db.secrets
  ok (record db { secrets = rows })

unfoldable pub update_secret_row : ℕ → StoredSecret → ConfigDb → Result ConfigDb
update_secret_row now s db = do
  rows ← update_row (λ (s : StoredSecret). s.meta) with_secret_meta now s db.secrets
  ok (record db { secrets = rows })

-- GetSecret
unfoldable pub get_secret : String → ConfigDb → Result StoredSecret
get_secret id db = or_err (lookup id db.secrets) (Error.not_exist id)

module _ (unescape : String → Option String) (valid_name : String → Bool) where
  -- CreateSecret; `id` is a fresh uuid.
  unfoldable pub create_secret : ℕ → String → CreateUpdateSecretRequest → ConfigDb → Result ConfigDb
  unfolding validate_secret_req name_is_free resolve_object_id insert_secret
  create_secret now id req db = do
    validate_secret_req valid_name req
    parent_id ← resolve_object_id unescape req.parent.kind req.parent.id db
    name_is_free parent_id req.name db
    insert_secret now (filled_secret req parent_id (no_secret id)) db

  -- UpdateSecret; the name may be a new one.
  unfoldable pub update_secret : ℕ → String → CreateUpdateSecretRequest → ConfigDb → Result ConfigDb
  unfolding validate_secret_req name_is_free resolve_object_id update_secret_row get_secret_by_name
  update_secret now cur_name req db = do
    validate_secret_req valid_name req
    parent_id ← resolve_object_id unescape req.parent.kind req.parent.id db
    o ← get_secret_by_name parent_id cur_name db
    s ← or_err o (Error.bad_request cur_name)
    if s.name == req.name then ok tt else name_is_free parent_id req.name db
    update_secret_row now (filled_secret req parent_id s) db

  -- DeleteSecret
  unfoldable pub delete_secret : ObjectKind → String → String → ConfigDb → Result ConfigDb
  unfolding resolve_object_id get_secret_by_name
  delete_secret kind ref name db = do
    parent_id ← resolve_object_id unescape kind ref db
    o ← get_secret_by_name parent_id name db
    s ← or_err o (Error.bad_request name)
    ok (record db { secrets = delete s.id db.secrets })
