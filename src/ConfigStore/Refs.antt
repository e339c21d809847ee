-- ===== src/ConfigStore/Refs.antt =====
-- The reads of internal/services/configstore/db/db.go by which ResolveObjectID of
-- internal/services/configstore/action/action.go finds a project group or a project. `unescape` is
-- url.PathUnescape. Only the fields that these functions read are kept.
use agola.Prelude.{
  String, ◌==◌, Bool, true, false, ◌&&◌, List, [], ◌∷◌, Option, none, some, Map, lookup, values,
  filter, Result, ok, err, or_err, ◌>>=◌, Error, if◌then◌else◌,
}
use agola.Types.{ObjectMeta}
use agola.Paths.{split_path, contains, dir, base}
use agola.Gateway.Auth.{ObjectKind}
use agola.Store.Db.{at_most_one}

pub record Parent : Type 0 where
  pub kind : ObjectKind
  pub id : String

-- An organization or a user.
pub record Owner : Type 0 where
  pub meta : ObjectMeta
  pub open meta use *
  pub name : String

-- A project group or a project.
pub record Node : Type 0 where
  pub meta : ObjectMeta
  pub open meta use *
  pub name : String
  pub parent : Parent

pub data SecretType : Type 0 where
  internal external : SecretType
  other_type : String → SecretType

pub record StoredSecret : Type 0 where
  pub meta : ObjectMeta
  pub open meta use *
  pub name : String
  pub parent : Parent
  pub type : SecretType
  pub secret_data : Map String
  pub secret_provider_id : String
  pub path : String

pub record ConfigDb : Type 0 where
  pub orgs : Map Owner
  pub users : Map Owner
  pub project_groups : Map Node
  pub projects : Map Node
  pub secrets : Map StoredSecret

-- GetOrgByName and GetUserByName
abbrev pub get_owner_by_name : String → Map Owner → Result (Option Owner)
get_owner_by_name name owners = at_most_one (filter (λ o. o.name == name) (values owners))

-- GetProjectGroupByName and GetProjectByName
abbrev pub get_node_by_name : String → String → Map Node → Result (Option Node)
get_node_by_name parent_id name nodes =
    at_most_one (filter (λ n. n.parent.id == parent_id && n.name == name) (values nodes))

-- The loop of GetProjectGroupByPath; `group` is the group that it has come to.
unfoldable pub walk_groups : List String → String → Option Node → Map Node → Result (Option Node)
unfolding at_most_one
walk_groups [] parent_id group nodes = ok group
walk_groups (name ∷ names) parent_id group nodes = do
  o ← get_node_by_name parent_id name nodes
  elim o [ none ↦ ok none | some g ↦ walk_groups names g.id (some g) nodes ]

-- The id of the organization or the user that a path starts with.
unfoldable pub path_owner : String → String → ConfigDb → Result String
unfolding at_most_one
path_owner kind name db =
    if kind == "org"
    then (do o ← get_owner_by_name name db.orgs; org ← or_err o (Error.not_exist name); ok org.id)
    else if kind == "user"
    then (do
      o ← get_owner_by_name name db.users
      user ← or_err o (Error.not_exist name)
      ok user.id)
    else err (Error.bad_group kind)

-- The parts of the path between its slashes; the first group is the root group, which has no name.
unfoldable pub get_group_by_parts : String → List String → ConfigDb → Result (Option Node)
unfolding walk_groups path_owner
get_group_by_parts path [] db = err (Error.bad_group path)
get_group_by_parts path (kind ∷ []) db = err (Error.bad_group path)
get_group_by_parts path (kind ∷ name ∷ names) db = do
  owner_id ← path_owner kind name db
  walk_groups ("" ∷ names) owner_id none db.project_groups

unfoldable pub get_project_group_by_path : String → ConfigDb → Result (Option Node)
unfolding get_group_by_parts split_path
get_project_group_by_path path db = get_group_by_parts path (split_path path) db

abbrev pub has_three : List String → Bool
has_three (a ∷ b ∷ c ∷ rest) = true
has_three _ = false

unfoldable pub get_project_by_path : String → ConfigDb → Result (Option Node)
unfolding get_project_group_by_path dir base split_path at_most_one
get_project_by_path path db =
    if has_three (split_path path)
    then (do
      o ← get_project_group_by_path (dir path) db
      elim o [ none ↦ ok none | some g ↦ get_node_by_name g.id (base path) db.projects ])
    else err (Error.bad_group path)

module _ (unescape : String → Option String) where
  -- ParsePathRef: whether the reference is a path.
  unfoldable pub parse_path_ref : String → Result Bool
  unfolding contains
  parse_path_ref ref = do r ← or_err (unescape ref) (Error.bad_request ref); ok (contains r "/")

  unfoldable pub get_project_group : String → ConfigDb → Result (Option Node)
  unfolding parse_path_ref get_project_group_by_path
  get_project_group ref db = do
    is_path ← parse_path_ref ref
    if is_path then get_project_group_by_path ref db else ok (lookup ref db.project_groups)

  unfoldable pub get_project : String → ConfigDb → Result (Option Node)
  unfolding parse_path_ref get_project_by_path
  get_project ref db = do
    is_path ← parse_path_ref ref
    if is_path then get_project_by_path ref db else ok (lookup ref db.projects)

  -- ResolveObjectID
  unfoldable pub resolve_object_id : ObjectKind → String → ConfigDb → Result String
  unfolding get_project_group get_project
  resolve_object_id ObjectKind.project_group ref db = do
    o ← get_project_group ref db
    g ← or_err o (Error.bad_request ref)
    ok g.id
  resolve_object_id ObjectKind.project ref db = do
    o ← get_project ref db
    p ← or_err o (Error.bad_request ref)
    ok p.id
  resolve_object_id _ ref db = err (Error.bad_request ref)
