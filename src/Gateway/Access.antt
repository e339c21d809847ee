-- ===== src/Gateway/Access.antt =====
-- What the checks of internal/services/gateway/action/auth.go grant.
use agola.Prelude.{
  ◌≡◌, refl, ap, ◌∙◌, String, ◌==◌, eq_iff, true, false, List, [], ◌∷◌, ok, bound, >>=-Bound, ◌>>=◌,
  arith, Bool-cases, inl, inr,
}
use agola.Gateway.Auth.{
  ObjectKind, GroupType, UserOrg, Owned, ConfigStore, Caller, is_public, owns_org, in_org,
  owner_by_kind, is_project_owner, member_by_kind, is_project_member, group_object, can_get_run,
  can_do_run_actions,
}

owns_org-in_org :
    (org_id : String) (os : List UserOrg) → owns_org org_id os ≡ true → in_org org_id os ≡ true
unfolding owns_org in_org
owns_org-in_org org_id [] h = h
owns_org-in_org org_id (o ∷ os) h = ground (arith, owns_org-in_org org_id os)

module _ (cs : ConfigStore) (caller : Caller) where
  org_member :
      (owner_id : String)
      → (cs.get_user_orgs caller.user_id >>= λ os. ok (owns_org owner_id os)) ≡ ok true
      → (cs.get_user_orgs caller.user_id >>= λ os. ok (in_org owner_id os)) ≡ ok true
  org_member owner_id h = elim (>>=-Bound (cs.get_user_orgs caller.user_id) _ h) [
    | bound os e q ↦ rw e (ap ok (owns_org-in_org owner_id os (ground arith)))
  ]

  owner_by_kind-member_by_kind :
      (kind : ObjectKind) (owner_id : String)
      → owner_by_kind cs caller kind owner_id ≡ ok true
      → member_by_kind cs caller kind owner_id ≡ ok true
  unfolding owner_by_kind member_by_kind
  owner_by_kind-member_by_kind ObjectKind.user owner_id h = h
  owner_by_kind-member_by_kind ObjectKind.org owner_id h = org_member owner_id h
  owner_by_kind-member_by_kind _ owner_id h = absurd (ground arith)

  pub is_project_owner-is_project_member :
      (kind : ObjectKind) (owner_id : String)
      → is_project_owner cs caller kind owner_id ≡ ok true
      → is_project_member cs caller kind owner_id ≡ ok true
  unfolding is_project_owner is_project_member
  is_project_owner-is_project_member kind owner_id h = elim (Bool-cases caller.is_admin) [
    | inl admin ↦ rw (is_project_member, admin) refl
    | inr plain ↦ elim (Bool-cases (caller.user_id == "")) [
      | inl nobody ↦ absurd (ground arith)
      | inr somebody ↦
          rw (is_project_member, plain, somebody)
            (owner_by_kind-member_by_kind kind owner_id
              (rw (is_project_owner, plain, somebody) at h))
    ]
  ]

  -- Whoever may act on the runs of a project or of a user may read them, under the same id, if the
  -- config store answers the same to both checks.
  pub can_do_run_actions-can_get_run :
      (group_type : GroupType) (ref ref_id : String)
      → can_do_run_actions cs caller group_type ref ≡ ok (true, ref_id)
      → can_get_run cs caller group_type ref ≡ ok (true, ref_id)
  unfolding can_do_run_actions can_get_run
  can_do_run_actions-can_get_run group_type ref ref_id h =
      elim (>>=-Bound (group_object cs caller group_type ref) _ h) [
        | bound o e q ↦ elim (>>=-Bound (is_project_owner cs caller o.owner_type o.owner_id) _ q) [
          | bound b f w ↦ elim (Bool-cases b) [
            | inl yes_owner ↦
                let same_id : o.id ≡ ref_id = ground arith in
                let owner : is_project_owner cs caller o.owner_type o.owner_id ≡ ok true =
                  f ∙ ap ok yes_owner in
                let member = is_project_owner-is_project_member o.owner_type o.owner_id owner in
                elim (Bool-cases (is_public o.global_visibility)) [
                  | inl open_to_all ↦
                      rw (can_get_run, e, open_to_all) (ap (λ x. ok (true, x)) same_id)
                  | inr closed ↦
                      rw (can_get_run, e, closed, member) (ap (λ x. ok (true, x)) same_id)
                ]
            | inr no_owner ↦ absurd (ground arith)
          ]
        ]
      ]

  -- If CanGetRun grants access to a user that is neither logged in nor an admin, what the group names is
  -- there and public.
  pub nobody_gets_public :
      (group_type : GroupType) (ref ref_id : String)
      → caller.is_admin ≡ false
      → caller.user_id ≡ ""
      → can_get_run cs caller group_type ref ≡ ok (true, ref_id)
      → (o : Owned) × (group_object cs caller group_type ref ≡ ok o)
        × (is_public o.global_visibility ≡ true)
  unfolding can_get_run is_project_member
  nobody_gets_public group_type ref ref_id plain nobody h =
      elim (>>=-Bound (group_object cs caller group_type ref) _ h) [
        | bound o e q ↦ elim (Bool-cases (is_public o.global_visibility)) [
          | inl open_to_all ↦ (o, e, open_to_all)
          | inr closed ↦
              let denied : is_project_member cs caller o.owner_type o.owner_id ≡ ok false =
                rw (is_project_member, plain, (eq_iff caller.user_id "").1 nobody) refl in
              absurd (ground (arith, rw (closed, denied) at q))
        ]
      ]
