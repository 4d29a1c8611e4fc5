-- ===== src/Service/RolePermissions.antt =====
-- services/access.py: `change_role_permissions`. The time of a deletion is the argument `now`.
use fastapi_templates_xtn.Prelude.{
  ℕ, ◌+◌, String, Bool, true, false, not, ◌&&◌, List, ◌++◌, map, none, some, ok, err, ◌>>=◌, ◌>>◌,
  require, if◌then◌else◌, ◌==◌, nat_eq, string_eq, keep_if, contains, to_set, union, diff, subset,
  same_set,
}
use fastapi_templates_xtn.Errors.{Outcome, invalid_request}
use fastapi_templates_xtn.Audit.{Python}
use fastapi_templates_xtn.Domain.Keys.{super_admin_permission_keys}
use fastapi_templates_xtn.Domain.Snapshot.{RoleGrant, AuthorizationContext, with_role}
use fastapi_templates_xtn.Policy.{
  RoleOperation, bind, unbind, required_for_permissions, decide_role_permissions_change,
}
use fastapi_templates_xtn.Models.{Permission, RolePermission, Db}
use fastapi_templates_xtn.Repository.{load_permission_keys}
use fastapi_templates_xtn.Service.Payloads.{RoleMutationResponse, role_response, role_payload}
use fastapi_templates_xtn.Service.Base.{
  MutationOutcome, Operation, require_expected_role_version, require_allowed,
  delete_role_permissions,
}
use fastapi_templates_xtn.Service.Locking.{
  LockedSharedRole, lock_shared_role_change, bump_shared_authority,
}
use fastapi_templates_xtn.Service.Audited.{run_audited}
use fastapi_templates_xtn.Service.UserRoles.{is_empty}

unfoldable pub permission_keys_after : RoleOperation → List String → List String → List String
permission_keys_after bind before requested = union before requested
permission_keys_after unbind before requested = diff before requested

abbrev pub new_grant : ℕ → ℕ → Permission → RolePermission
new_grant role_id actor_id p = record {
  role_id = role_id;
  permission_id = p.id;
  assigned_by_user_id = some actor_id;
  deleted_at = none;
  deleted_by_user_id = none;
}

-- The inserts of a bind, for the keys that have no row, or the soft deletes of an unbind.
unfoldable pub write_role_permissions :
    RoleOperation → ℕ → ℕ → LockedSharedRole → List Permission → List ℕ → Db → Db
write_role_permissions bind now role_id locked permissions requested_ids db = record db {
  role_permissions =
      db.role_permissions
      ++ map (new_grant role_id locked.actor.user_id)
          (keep_if (λ p. not (contains locked.permission_rows p.key)) permissions);
}
write_role_permissions unbind now role_id locked permissions requested_ids db =
    delete_role_permissions (λ g. (g.role_id == role_id) && contains requested_ids g.permission_id)
      now locked.actor.user_id db

abbrev permission_change_reason : RoleOperation → Bool → String
permission_change_reason operation false = "role_permissions_unchanged"
permission_change_reason bind true = "role_permissions_bound"
permission_change_reason unbind true = "role_permissions_unbound"

abbrev permission_change_action : RoleOperation → String
permission_change_action bind = "role.permissions.bind"
permission_change_action unbind = "role.permissions.unbind"

-- The role's grant with the new permissions, in every affected snapshot.
abbrev pub replacement : LockedSharedRole → List String → RoleGrant
replacement locked after = record locked.role_before { permissions = after }

module _ (py : Python) where
  -- The writes and the outcome, after the decision.
  unfoldable pub apply_permissions :
      RoleOperation
      → ℕ
      → ℕ
      → LockedSharedRole
      → List Permission
      → List ℕ
      → List String
      → Db
      → MutationOutcome RoleMutationResponse × Db
  unfolding write_role_permissions bump_shared_authority
  apply_permissions operation now role_id locked permissions requested_ids after db =
      let before = locked.role_before.permissions in
      let changed = not (same_set before after) in
      let db' =
        if changed
        then bump_shared_authority locked locked.role
            (write_role_permissions operation now role_id locked permissions requested_ids db)
        else db in
      let role =
        if changed then record locked.role { version = locked.role.version + 1 } else locked.role in
      let role_after = role_response role after in
      (
        record {
          value = record { changed = changed; role = role_after };
          reason_code = permission_change_reason operation changed;
          before_state = some (role_payload py (role_response locked.role before));
          after_state = some (role_payload py role_after);
          audit_target_role_id = none;
        },
        db',
      )

  unfoldable pub permission_operation :
      AuthorizationContext → ℕ → List ℕ → RoleOperation → ℕ → ℕ → Operation RoleMutationResponse
  unfolding apply_permissions permission_keys_after
  permission_operation context role_id requested_ids operation expected_version now db = do
    locked ← lock_shared_role_change context role_id (required_for_permissions operation) false db
    let permissions = load_permission_keys db requested_ids
    require (same_set (map (λ p. p.id) permissions) requested_ids)
        (invalid_request "unknown_permission_id")
    let requested_keys = to_set (map (λ p. p.key) permissions)
    require (subset requested_keys super_admin_permission_keys)
        (invalid_request "permission_outside_control_plane")
    let after = permission_keys_after operation locked.role_before.permissions requested_keys
    require_allowed (
        decide_role_permissions_change operation locked.actor locked.role_before after
          (contains locked.affected_ids locked.actor.user_id)
          (map (λ s. with_role s (replacement locked after)) locked.affected_before))
    require_expected_role_version locked.role expected_version
    ok (apply_permissions operation now role_id locked permissions requested_ids after db)

  unfoldable pub change_role_permissions :
      AuthorizationContext
      → ℕ
      → List ℕ
      → RoleOperation
      → ℕ
      → ℕ
      → Db
      → Outcome RoleMutationResponse × Db
  unfolding permission_operation
  change_role_permissions context role_id permission_ids operation expected_version now db =
      let requested_ids = to_set permission_ids in
      if is_empty requested_ids
      then (err (invalid_request "permission_ids_required"), db)
      else run_audited py
          (record {
            context = context;
            action = permission_change_action operation;
            target_user_id = none;
            target_role_id = some role_id;
          })
          (permission_operation context role_id requested_ids operation expected_version now) db
