-- ===== src/Policy.antt =====
-- core/security/policy.py. A `return deny(...)` in the middle of a function is a raise of its
-- reason; a function that runs to its end allows.
pub mod Rules
pub mod Roles
use fastapi_templates_xtn.Prelude.{
  ℕ, String, Bool, true, false, not, ◌&&◌, ◌||◌, List, [], ◌∷◌, Result, ok, err, ◌>>=◌, ◌>>◌,
  raise_if, ltb, leb, ◌==◌, nat_eq, string_eq, if◌then◌else◌, contains, subset,
}
use fastapi_templates_xtn.Domain.Keys.{PermissionKey, value, super_admin_permission_keys, role_key}
use fastapi_templates_xtn.Domain.Keys
use fastapi_templates_xtn.Domain.Snapshot.{RoleGrant, AuthoritySnapshot}

pub record PolicyDecision : Type 0 where
  pub allowed : Bool
  pub reason_code : String

abbrev pub allow : PolicyDecision
allow = record { allowed = true; reason_code = "allowed" }

abbrev pub deny : String → PolicyDecision
deny reason = record { allowed = false; reason_code = reason }

-- The rest of a decision function: an early return, or the end of the body.
abbrev pub Checks : Type 0
Checks = Result String Unit

abbrev pub decided : Checks → PolicyDecision
decided (ok _) = allow
decided (err reason) = deny reason

abbrev pub deny_if : Bool → String → Checks
deny_if b reason = raise_if b reason

pub data RoleOperation : Type 0 where
  bind unbind : RoleOperation

abbrev pub is_bind : RoleOperation → Bool
is_bind bind = true
is_bind unbind = false

pub data RoleAdministrationOperation : Type 0 where
  update enable disable delete : RoleAdministrationOperation

unfoldable pub target_is_within_actor_authority : AuthoritySnapshot → AuthoritySnapshot → Bool
target_is_within_actor_authority actor target =
    subset target.permissions super_admin_permission_keys
    && subset target.permissions actor.permissions

unfoldable pub role_is_within_actor_authority : AuthoritySnapshot → RoleGrant → Bool
role_is_within_actor_authority actor role =
    subset role.permissions super_admin_permission_keys && subset role.permissions actor.permissions

unfoldable pub basic_actor_check : AuthoritySnapshot → PermissionKey → Checks
basic_actor_check actor required = do
  deny_if (not (contains actor.permissions (value required))) "missing_operation_permission"
  deny_if (not actor.user_is_active) "actor_inactive"

unfoldable pub is_administrative_user_visible : AuthoritySnapshot → AuthoritySnapshot → Bool
is_administrative_user_visible actor target =
    if actor.is_super_admin
    then true
    else (not (actor.user_id == target.user_id)
        && not target.is_protected
        && ltb target.management_tier actor.management_tier)

unfoldable pub is_administrative_role_visible : AuthoritySnapshot → RoleGrant → Bool
is_administrative_role_visible actor role =
    if actor.is_super_admin
    then true
    else (not role.is_protected
        && not role.is_super_admin
        && ltb role.management_tier actor.management_tier)

-- The loop over the affected subjects.
unfoldable pub affected_subjects_are_manageable :
    AuthoritySnapshot → List AuthoritySnapshot → Checks
affected_subjects_are_manageable actor [] = ok tt
affected_subjects_are_manageable actor (subject ∷ rest) = do
  deny_if (subject.is_protected || (actor.user_id == subject.user_id))
      "affected_subject_not_manageable"
  deny_if (leb actor.management_tier subject.management_tier) "affected_subject_not_strictly_lower"
  deny_if (not (target_is_within_actor_authority actor subject)) "permission_ceiling_exceeded"
  affected_subjects_are_manageable actor rest

abbrev pub required_for_change : RoleOperation → PermissionKey
required_for_change bind = Keys.roles_assign
required_for_change unbind = Keys.roles_revoke

-- The body of the loop over the changed roles.
unfoldable pub check_changed_role : RoleOperation → AuthoritySnapshot → RoleGrant → Checks
check_changed_role operation actor role = do
  deny_if ((role.key == role_key Keys.super_admin) || role.is_protected)
      "super_admin_assignment_offline_only"
  deny_if (not (is_bind operation) && (role.key == role_key Keys.user)) "default_user_role_required"
  deny_if ((role.key == role_key Keys.admin) && not actor.is_super_admin) "super_admin_required"
  deny_if (not (role_is_within_actor_authority actor role)) "permission_ceiling_exceeded"
  deny_if (leb actor.management_tier role.management_tier) "role_not_strictly_lower"

unfoldable pub check_changed_roles : RoleOperation → AuthoritySnapshot → List RoleGrant → Checks
check_changed_roles operation actor [] = ok tt
check_changed_roles operation actor (role ∷ rest) = do
  check_changed_role operation actor role
  check_changed_roles operation actor rest

unfoldable pub decide_role_change :
    RoleOperation
    → AuthoritySnapshot
    → AuthoritySnapshot
    → AuthoritySnapshot
    → List RoleGrant
    → PolicyDecision
decide_role_change operation actor target_before target_after changed_roles = decided (do
  basic_actor_check actor (required_for_change operation)
  deny_if (actor.user_id == target_before.user_id) "self_management_forbidden"
  deny_if (is_bind operation && not target_before.user_is_active) "target_inactive"
  deny_if target_before.is_protected "protected_subject"
  check_changed_roles operation actor changed_roles
  deny_if (leb actor.management_tier target_before.management_tier) "target_not_strictly_lower"
  deny_if (leb actor.management_tier target_after.management_tier) "target_not_strictly_lower"
  deny_if (not (target_is_within_actor_authority actor target_before)) "permission_ceiling_exceeded"
  deny_if (not (target_is_within_actor_authority actor target_after)) "permission_ceiling_exceeded")

unfoldable pub decide_role_create : AuthoritySnapshot → ℕ → PolicyDecision
decide_role_create actor management_tier = decided (do
  basic_actor_check actor Keys.roles_create
  deny_if (ltb management_tier 1 || leb 1000 management_tier) "custom_role_tier_out_of_range"
  deny_if (leb actor.management_tier management_tier) "role_not_strictly_lower")

abbrev pub required_for_administration : RoleAdministrationOperation → PermissionKey
required_for_administration update = Keys.roles_update
required_for_administration enable = Keys.roles_status_update
required_for_administration disable = Keys.roles_status_update
required_for_administration delete = Keys.roles_delete

unfoldable pub decide_role_administration :
    RoleAdministrationOperation
    → AuthoritySnapshot
    → RoleGrant
    → Bool
    → List AuthoritySnapshot
    → PolicyDecision
decide_role_administration operation actor changed_role actor_holds_role affected = decided (do
  basic_actor_check actor (required_for_administration operation)
  deny_if changed_role.is_system "system_role_immutable"
  deny_if actor_holds_role "indirect_self_change_forbidden"
  deny_if (leb actor.management_tier changed_role.management_tier) "role_not_strictly_lower"
  deny_if (not (role_is_within_actor_authority actor changed_role)) "permission_ceiling_exceeded"
  affected_subjects_are_manageable actor affected)

abbrev pub required_for_permissions : RoleOperation → PermissionKey
required_for_permissions bind = Keys.roles_permissions_bind
required_for_permissions unbind = Keys.roles_permissions_unbind

unfoldable pub decide_role_permissions_change :
    RoleOperation
    → AuthoritySnapshot
    → RoleGrant
    → List String
    → Bool
    → List AuthoritySnapshot
    → PolicyDecision
decide_role_permissions_change operation actor changed_role_before permission_keys_after
      actor_holds_role affected_after =
    decided (do
      basic_actor_check actor (required_for_permissions operation)
      deny_if changed_role_before.is_system "system_role_immutable"
      deny_if actor_holds_role "indirect_self_change_forbidden"
      deny_if (leb actor.management_tier changed_role_before.management_tier)
          "role_not_strictly_lower"
      deny_if (not (role_is_within_actor_authority actor changed_role_before))
          "permission_ceiling_exceeded"
      deny_if (not (subset permission_keys_after super_admin_permission_keys))
          "permission_outside_control_plane"
      deny_if (contains permission_keys_after (value Keys.registration_configure))
          "system_only_permission"
      deny_if (not (subset permission_keys_after actor.permissions)) "permission_ceiling_exceeded"
      affected_subjects_are_manageable actor affected_after)

unfoldable pub decide_user_administration :
    PermissionKey → AuthoritySnapshot → AuthoritySnapshot → PolicyDecision
decide_user_administration required actor target_before = decided (do
  basic_actor_check actor required
  deny_if (actor.user_id == target_before.user_id) "self_management_forbidden"
  deny_if target_before.is_protected "protected_subject"
  deny_if (leb actor.management_tier target_before.management_tier) "target_not_strictly_lower"
  deny_if (not (target_is_within_actor_authority actor target_before))
      "permission_ceiling_exceeded")

unfoldable pub decide_user_status_change : AuthoritySnapshot → AuthoritySnapshot → PolicyDecision
unfolding decide_user_administration
decide_user_status_change = decide_user_administration Keys.users_status_update

unfoldable pub decide_user_password_reset : AuthoritySnapshot → AuthoritySnapshot → PolicyDecision
unfolding decide_user_administration
decide_user_password_reset = decide_user_administration Keys.users_password_reset

unfoldable pub decide_user_sessions_revoke : AuthoritySnapshot → AuthoritySnapshot → PolicyDecision
unfolding decide_user_administration
decide_user_sessions_revoke = decide_user_administration Keys.users_sessions_revoke
