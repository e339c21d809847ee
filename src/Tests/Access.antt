-- ===== src/Tests/Access.antt =====
-- A private project of an organization with an owner and a member.
use agola.Prelude.{◌≡◌, refl, String, ◌==◌, true, false, [], ◌∷◌, ok, err, Error, if◌then◌else◌}
use agola.Gateway.Auth.{
  ObjectKind, Visibility, MemberRole, GroupType, Owned, ConfigStore, Caller, is_public, owns_org,
  owner_by_kind, is_project_owner, group_object, can_get_run, can_do_run_actions,
}
use agola.Gateway.Access.{can_do_run_actions-can_get_run, nobody_gets_public}

abbrev project_of : Visibility → Owned
project_of visibility = record {
  id = "p1";
  owner_type = ObjectKind.org;
  owner_id = "o1";
  global_visibility = visibility;
}

abbrev store_of : Visibility → ConfigStore
store_of visibility = record {
  get_user_orgs = λ user_id. ok (
      record {
        organization_id = "o1";
        role = if user_id == "u1" then MemberRole.owner else MemberRole.member;
      }
      ∷ []);
  get_project_group = λ ref. err (Error.not_exist ref);
  get_project = λ ref. ok (project_of visibility);
  get_user = λ ref. ok ref;
}

abbrev user : String → Caller
user id = record { is_admin = false; user_id = id }

member_may_not_act :
    can_do_run_actions (store_of Visibility.private) (user "u2") GroupType.project "p1"
    ≡ ok (false, "")
unfolding can_do_run_actions is_project_owner owner_by_kind owns_org
member_may_not_act = refl

can_do_run_actions-can_get_run_example :
    can_get_run (store_of Visibility.private) (user "u1") GroupType.project "p1" ≡ ok (true, "p1")
unfolding can_do_run_actions is_project_owner owner_by_kind owns_org
can_do_run_actions-can_get_run_example =
    can_do_run_actions-can_get_run (store_of Visibility.private) (user "u1") GroupType.project "p1"
      "p1" refl

nobody_gets_public_example :
    (o : Owned) × (group_object (store_of Visibility.public) (user "") GroupType.project "p1"
      ≡ ok o)
    × (is_public o.global_visibility ≡ true)
unfolding can_get_run
nobody_gets_public_example =
    nobody_gets_public (store_of Visibility.public) (user "") GroupType.project "p1" "p1" refl refl
      refl
