-- ===== src/Tests/Secrets.antt =====
-- A secret of a project that is created, renamed and deleted again.
use agola.Prelude.{
  ℕ, String, ◌≡◌, refl, Bool, true, [], ◌∷◌, Option, some, ok, arith, lookup, insert, delete,
}
use agola.Types.{new_meta}
use agola.Gateway.Auth.{ObjectKind}
use agola.Paths.{contains}
use agola.Store.Rows.{insert_row, update_row}
use agola.Store.Db.{at_most_one}
use agola.ConfigStore.Refs.{
  SecretType, StoredSecret, ConfigDb, parse_path_ref, get_project, resolve_object_id,
}
use agola.ConfigStore.Secrets.{
  CreateUpdateSecretRequest, validate_secret_req, name_is_free, get_secret_by_name, insert_secret,
  update_secret_row, create_secret, update_secret, delete_secret,
}
use agola.ConfigStore.Names.{InOrder}
use agola.ConfigStore.Kept.{SecretStep, created, updated_secret, deleted}
use agola.ConfigStore.Unique.{none_done, then_step, SecretSteps-Found}

abbrev unescaped : String → Option String
unescaped s = some s

abbrev any_name : String → Bool
any_name s = true

abbrev project_db : ConfigDb
project_db = record {
  orgs = [];
  users = [];
  project_groups = [];
  projects =
      (
        "p1",
        record {
          meta = new_meta "p1";
          name = "project01";
          parent = record { kind = ObjectKind.project_group; id = "g1" };
        },
      )
      ∷ [];
  secrets = [];
}

abbrev secret_request : String → CreateUpdateSecretRequest
secret_request name = record {
  name = name;
  parent = record { kind = ObjectKind.project; id = "p1" };
  type = SecretType.internal;
  secret_data = ("key", "value") ∷ [];
  secret_provider_id = "";
  path = "";
}

abbrev secret_at : ℕ → ℕ → String → StoredSecret
secret_at revision now name = record {
  meta = record { id = "s1"; creation_time = 3; update_time = now; revision = revision };
  name = name;
  parent = record { kind = ObjectKind.project; id = "p1" };
  type = SecretType.internal;
  secret_data = ("key", "value") ∷ [];
  secret_provider_id = "";
  path = "";
}

abbrev with_secret : StoredSecret → ConfigDb
with_secret s = record project_db { secrets = ("s1", s) ∷ [] }

create_step : SecretStep unescaped any_name project_db (with_secret (secret_at 1 3 "secret01"))
unfolding create_secret validate_secret_req name_is_free get_secret_by_name insert_secret insert_row
    resolve_object_id get_project parse_path_ref contains at_most_one lookup insert
create_step = created 3 "s1" (secret_request "secret01") refl

rename_step :
    SecretStep unescaped any_name
      (with_secret (secret_at 1 3 "secret01"))
      (with_secret (secret_at 2 4 "secret02"))
unfolding update_secret validate_secret_req name_is_free get_secret_by_name update_secret_row
    update_row resolve_object_id get_project parse_path_ref contains at_most_one lookup insert
rename_step = updated_secret 4 "secret01" (secret_request "secret02") refl

delete_step : SecretStep unescaped any_name (with_secret (secret_at 2 4 "secret02")) project_db
unfolding delete_secret get_secret_by_name resolve_object_id get_project parse_path_ref contains
    at_most_one lookup delete
delete_step = deleted ObjectKind.project "p1" "secret02" refl

no_secrets-InOrder : InOrder project_db
unfolding lookup
no_secrets-InOrder = ((tt, λ k s h. ground arith), λ k j s t a b p n. ground arith)

SecretSteps-Found_example :
    InOrder (with_secret (secret_at 2 4 "secret02"))
    × ((o : Option StoredSecret) × (get_secret_by_name "p1" "secret02"
            (with_secret (secret_at 2 4 "secret02"))
          ≡ ok o))
SecretSteps-Found_example =
    SecretSteps-Found unescaped any_name project_db (with_secret (secret_at 2 4 "secret02")) "p1"
      "secret02" no_secrets-InOrder
      (then_step project_db (with_secret (secret_at 1 3 "secret01")) create_step (
        then_step (with_secret (secret_at 1 3 "secret01")) (with_secret (secret_at 2 4 "secret02"))
          rename_step none_done))
