-- ===== src/Tests/Decisions.antt =====
-- The policy at the snapshots of an administrator, an editor and a plain user.
use fastapi_templates_xtn.Prelude.{
  ℕ, ◌≤◌, ◌<◌, ◌≡◌, ◌↔◌, refl, Bool, true, false, String, List, [], ◌∷◌, string_eq, contains, union,
  subset, sorted_by,
}
use fastapi_templates_xtn.Domain.Keys.{
  PermissionKey, value, role_key, admin_permission_keys, super_admin_permission_keys,
}
use fastapi_templates_xtn.Domain.Keys
use fastapi_templates_xtn.Domain.Snapshot.{RoleGrant, AuthoritySnapshot, build, with_role}
use fastapi_templates_xtn.Policy.{
  basic_actor_check, check_changed_roles, check_changed_role, role_is_within_actor_authority,
  target_is_within_actor_authority, PolicyDecision, bind, delete, required_for_administration,
  required_for_permissions, decide_role_change, decide_role_create, decide_role_administration,
  decide_role_permissions_change, decide_user_administration,
}
use fastapi_templates_xtn.Policy.Rules.{
  MayAct, IsManageable, IsWithin, decide_user_administration_iff, decide_user_administration-asym,
}
use fastapi_templates_xtn.Policy.Roles.{
  MayChangeRoles, decide_role_change_iff, decide_role_create_iff, MayAdminister,
  decide_role_administration_iff, decide_role_permissions_change_iff,
}

abbrev grant : ℕ → String → ℕ → Bool → List String → RoleGrant
grant role_id key tier is_system permissions = record {
  role_id = role_id;
  key = key;
  management_tier = tier;
  permissions = permissions;
  is_system = is_system;
  is_protected = false;
  is_super_admin = false;
}

abbrev editor_grant : RoleGrant
editor_grant = grant 14 "editor" 10 false (value Keys.projects_read ∷ [])

abbrev administrator : AuthoritySnapshot
administrator =
    build 2 true false 5 1 (grant 12 (role_key Keys.admin) 500 true admin_permission_keys ∷ [])

abbrev plain : AuthoritySnapshot
plain = build 4 true false 5 1 (grant 13 (role_key Keys.user) 0 true [] ∷ [])

abbrev an_editor : AuthoritySnapshot
an_editor = with_role plain editor_grant

decide_role_change_example :
    ((decide_role_change bind administrator plain an_editor (editor_grant ∷ [])).allowed ≡ true)
    ↔ MayChangeRoles bind administrator plain an_editor (editor_grant ∷ [])
decide_role_change_example =
    decide_role_change_iff bind administrator plain an_editor (editor_grant ∷ [])

decide_user_administration_example :
    ((decide_user_administration Keys.users_status_update administrator plain).allowed ≡ true)
    ↔ (MayAct administrator Keys.users_status_update × IsManageable administrator plain)
decide_user_administration_example =
    decide_user_administration_iff Keys.users_status_update administrator plain

decide_user_administration_asym_example :
    (decide_user_administration Keys.users_status_update plain administrator).allowed ≡ false
unfolding decide_user_administration build basic_actor_check contains union subset sorted_by
    target_is_within_actor_authority
decide_user_administration_asym_example =
    decide_user_administration-asym Keys.users_status_update Keys.users_status_update administrator
      plain refl

decide_role_create_example : ((decide_role_create administrator 499).allowed ≡ true) ↔ (
    MayAct administrator Keys.roles_create
    × (1 ≤ 499)
    × (499 ≤ 999)
    × (499 < administrator.management_tier))
decide_role_create_example = decide_role_create_iff administrator 499

decide_role_administration_example :
    ((decide_role_administration delete administrator editor_grant false (an_editor ∷ [])).allowed
      ≡ true)
    ↔ (MayAct administrator (required_for_administration delete)
        × MayAdminister administrator editor_grant false (an_editor ∷ []))
decide_role_administration_example =
    decide_role_administration_iff delete administrator editor_grant false (an_editor ∷ [])

abbrev after : List String
after = value Keys.projects_read ∷ value Keys.projects_update ∷ []

abbrev decision : PolicyDecision
decision =
    decide_role_permissions_change bind administrator editor_grant after false (an_editor ∷ [])

decide_role_permissions_change_example : (decision.allowed ≡ true) ↔ (
    MayAct administrator (required_for_permissions bind)
    × MayAdminister administrator editor_grant false (an_editor ∷ [])
    × IsWithin administrator after
    × (contains after (value Keys.registration_configure) ≡ false))
decide_role_permissions_change_example =
    decide_role_permissions_change_iff bind administrator editor_grant after false (an_editor ∷ [])

-- The administrator may make an editor of the plain user, and may not create a role as high as itself.
editor_allowed :
    (decide_role_change bind administrator plain an_editor (editor_grant ∷ [])).allowed ≡ true
unfolding decide_role_change build with_role basic_actor_check contains union check_changed_roles
    check_changed_role role_is_within_actor_authority subset sorted_by
    target_is_within_actor_authority
editor_allowed = refl

peer_refused : (decide_role_create administrator 500).allowed ≡ false
unfolding decide_role_create build basic_actor_check contains union
peer_refused = refl
