-- ===== src/Gateway/Auth.antt =====
-- internal/services/gateway/action/auth.go. The requests to the config store are a record of functions,
-- which answer an object or an error; of the objects there is what the code reads. The user of a
-- context is a record of its own.
use agola.Prelude.{
  String, ◌==◌, Bool, true, false, not, List, [], ◌∷◌, Result, ok, ◌>>=◌, if◌then◌else◌,
}

-- The value of a variable that is not set is `unset`.
pub data ObjectKind : Type 0 where
  unset user org org_member project_group project remote_source secret variable : ObjectKind

pub data Visibility : Type 0 where
  unset public private : Visibility

pub data MemberRole : Type 0 where
  owner member : MemberRole

pub data GroupType : Type 0 where
  project user branch tag pull_request : GroupType

pub record UserOrg : Type 0 where
  pub organization_id : String
  pub role : MemberRole

pub record Owned : Type 0 where
  pub id : String
  pub owner_type : ObjectKind
  pub owner_id : String
  pub global_visibility : Visibility

-- The client of the config store; a user is its id.
pub record ConfigStore : Type 0 where
  pub get_user_orgs : String → Result (List UserOrg)
  pub get_project_group : String → Result Owned
  pub get_project : String → Result Owned
  pub get_user : String → Result String

-- IsUserAdmin and CurrentUserID; the id is empty for no user.
pub record Caller : Type 0 where
  pub is_admin : Bool
  pub user_id : String

abbrev is_owner_role : MemberRole → Bool
is_owner_role MemberRole.owner = true
is_owner_role MemberRole.member = false

abbrev pub is_public : Visibility → Bool
is_public Visibility.unset = false
is_public Visibility.public = true
is_public Visibility.private = false

-- The loops over the organizations of the user.
unfoldable pub owns_org : String → List UserOrg → Bool
owns_org org_id [] = false
owns_org org_id (o ∷ os) =
    let rest = owns_org org_id os in
    if not (o.organization_id == org_id) then rest else if is_owner_role o.role then true else rest

unfoldable pub in_org : String → List UserOrg → Bool
in_org org_id [] = false
in_org org_id (o ∷ os) =
    let rest = in_org org_id os in if not (o.organization_id == org_id) then rest else true

module _ (cs : ConfigStore) (caller : Caller) where
  unfoldable pub is_org_owner : String → Result Bool
  unfolding owns_org
  is_org_owner org_id =
      if caller.is_admin
      then ok true
      else if caller.user_id == ""
      then ok false
      else (do user_orgs ← cs.get_user_orgs caller.user_id; ok (owns_org org_id user_orgs))

  -- The part of IsProjectOwner for a user that is logged in and no admin.
  unfoldable pub owner_by_kind : ObjectKind → String → Result Bool
  unfolding owns_org
  owner_by_kind ObjectKind.user owner_id = ok (caller.user_id == owner_id)
  owner_by_kind ObjectKind.org owner_id = do
    user_orgs ← cs.get_user_orgs caller.user_id
    ok (owns_org owner_id user_orgs)
  owner_by_kind _ owner_id = ok false

  unfoldable pub is_project_owner : ObjectKind → String → Result Bool
  unfolding owner_by_kind
  is_project_owner owner_type owner_id =
      if caller.is_admin
      then ok true
      else if caller.user_id == ""
      then ok false
      else owner_by_kind owner_type owner_id

  unfoldable pub member_by_kind : ObjectKind → String → Result Bool
  unfolding in_org
  member_by_kind ObjectKind.user owner_id = ok (caller.user_id == owner_id)
  member_by_kind ObjectKind.org owner_id = do
    user_orgs ← cs.get_user_orgs caller.user_id
    ok (in_org owner_id user_orgs)
  member_by_kind _ owner_id = ok false

  unfoldable pub is_project_member : ObjectKind → String → Result Bool
  unfolding member_by_kind
  is_project_member owner_type owner_id =
      if caller.is_admin
      then ok true
      else if caller.user_id == ""
      then ok false
      else member_by_kind owner_type owner_id

  -- The switch on the kind of the parent.
  abbrev variable_owner : ObjectKind → String → Result (ObjectKind × String)
  variable_owner ObjectKind.project_group ref = do
    pg ← cs.get_project_group ref
    ok (pg.owner_type, pg.owner_id)
  variable_owner ObjectKind.project ref = do p ← cs.get_project ref; ok (p.owner_type, p.owner_id)
  variable_owner _ ref = ok (ObjectKind.unset, "")

  unfoldable pub is_variable_owner : ObjectKind → String → Result Bool
  unfolding is_project_owner
  is_variable_owner parent_type parent_ref = do
    o ← variable_owner parent_type parent_ref
    is_project_owner o.0 o.1

  -- The switch on the type of the group: CanDoRunActions has no use for the visibility.
  abbrev pub group_object : GroupType → String → Result Owned
  group_object GroupType.project ref = cs.get_project ref
  group_object GroupType.user ref = do
    u ← cs.get_user ref
    ok (record {
      id = u;
      owner_type = ObjectKind.user;
      owner_id = u;
      global_visibility = Visibility.private;
    })
  group_object _ ref = ok (record {
    id = "";
    owner_type = ObjectKind.unset;
    owner_id = "";
    global_visibility = Visibility.unset;
  })

  abbrev granted : Bool → String → Bool × String
  granted b ref_id = if b then (true, ref_id) else (false, "")

  unfoldable pub can_get_run : GroupType → String → Result (Bool × String)
  unfolding is_project_member
  can_get_run group_type ref = do
    o ← group_object group_type ref
    if is_public o.global_visibility
        then ok (true, o.id)
        else (do b ← is_project_member o.owner_type o.owner_id; ok (granted b o.id))

  unfoldable pub can_do_run_actions : GroupType → String → Result (Bool × String)
  unfolding is_project_owner
  can_do_run_actions group_type ref = do
    o ← group_object group_type ref
    b ← is_project_owner o.owner_type o.owner_id
    ok (granted b o.id)
