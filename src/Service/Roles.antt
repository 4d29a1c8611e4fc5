-- ===== src/Service/Roles.antt =====
-- services/access.py: `create_role`, `update_role`, `set_role_active` and `soft_delete_role`. The new role's
-- id (`uuid.uuid4()`) and the time of a deletion are arguments.
use fastapi_templates_xtn.Prelude.{
  ℕ, ◌+◌, String, Bool, true, false, not, ◌||◌, List, [], ◌∷◌, ◌++◌, Option, none, some, ok, ◌>>=◌,
  ◌>>◌, raise_if, if◌then◌else◌, ◌==◌, nat_eq, string_eq, any, contains,
}
use fastapi_templates_xtn.Errors.{Outcome, conflict}
use fastapi_templates_xtn.Audit.{Python}
use fastapi_templates_xtn.Domain.Keys.{reserved_role_keys}
use fastapi_templates_xtn.Domain.Keys
use fastapi_templates_xtn.Domain.Snapshot.{AuthorizationContext}
use fastapi_templates_xtn.Policy.{
  update, enable, disable, delete, RoleAdministrationOperation, decide_role_create,
}
use fastapi_templates_xtn.Models.{RbacState, Role, Db}
use fastapi_templates_xtn.Repository.{lock_rbac_state, lock_users, user_of, require_current_actor}
use fastapi_templates_xtn.Service.Payloads.{
  RoleMutationResponse, RoleCreateRequest, RoleUpdateRequest, role_response, role_payload,
}
use fastapi_templates_xtn.Service.Base.{
  MutationOutcome, Operation, require_current_locked_actor_row, require_expected_role_version,
  require_allowed, write_role, bump_epoch, delete_user_roles, delete_role_permissions,
}
use fastapi_templates_xtn.Service.Locking.{
  LockedSharedRole, lock_shared_role_change, require_role_administration, bump_shared_authority,
}
use fastapi_templates_xtn.Service.Audited.{Request, run_audited}
use fastapi_templates_xtn.Service.Users.{xor}

abbrev pub new_role : ℕ → RoleCreateRequest → Role
new_role role_id request = record {
  id = role_id;
  key = request.key;
  name = request.name;
  description = request.description;
  management_tier = request.management_tier;
  is_active = true;
  is_protected = false;
  is_system = false;
  is_super_admin = false;
  version = 0;
  deleted_at = none;
  deleted_by_user_id = none;
}

abbrev role_request : AuthorizationContext → String → ℕ → Request
role_request context action role_id = record {
  context = context;
  action = action;
  target_user_id = none;
  target_role_id = some role_id;
}

-- `if request.x is not None and request.x != role.x`
abbrev differs : Option String → String → Bool
differs none current = false
differs (some text) current = not (text == current)

abbrev pub given : Option String → String → String
given none current = current
given (some text) current = text

module _ (py : Python) where
  -- The writes of `create_role` and its outcome, after the decision.
  unfoldable pub apply_create :
      RbacState → ℕ → RoleCreateRequest → Db → MutationOutcome RoleMutationResponse × Db
  unfolding bump_epoch
  apply_create state role_id request db =
      let role = new_role role_id request in
      let role_after = role_response role [] in
      (
        record {
          value = record { changed = true; role = role_after };
          reason_code = "role_created";
          before_state = none;
          after_state = some (role_payload py role_after);
          audit_target_role_id = none;
        },
        bump_epoch state (record db { roles = db.roles ++ role ∷ [] }),
      )

  unfoldable pub create_operation :
      AuthorizationContext → ℕ → RoleCreateRequest → Operation RoleMutationResponse
  unfolding apply_create
  create_operation context role_id request db = do
    state ← lock_rbac_state db
    let actor_id = context.principal.user_id
    let users = lock_users db (actor_id ∷ [])
    actor_row ← require_current_locked_actor_row (user_of users actor_id) context
    actor ← require_current_actor db actor_id context.principal.token_version
    require_allowed (decide_role_create actor request.management_tier)
    raise_if (contains reserved_role_keys request.key) (conflict "reserved_role_key")
    raise_if (any (λ r. r.key == request.key) db.roles) (conflict "role_key_exists")
    ok (apply_create state role_id request db)

  unfoldable pub create_role :
      AuthorizationContext → ℕ → RoleCreateRequest → Db → Outcome RoleMutationResponse × Db
  unfolding create_operation
  create_role context role_id request =
      run_audited py (role_request context "role.create" role_id)
        (create_operation context role_id request)

  -- The outcome of an operation on one role, from the role before and after.
  abbrev pub role_outcome :
      Bool → String → LockedSharedRole → Role → List String → MutationOutcome RoleMutationResponse
  role_outcome changed reason locked role permissions_after =
      let role_before = role_response locked.role locked.role_before.permissions in
      let role_after = role_response role permissions_after in
      record {
        value = record { changed = changed; role = role_after };
        reason_code = reason;
        before_state = some (role_payload py role_before);
        after_state = some (role_payload py role_after);
        audit_target_role_id = none;
      }

  unfoldable pub updated_role : RoleUpdateRequest → Role → Bool × Role
  updated_role request role =
      let changed =
        differs request.name role.name || differs request.description role.description in
      (
        changed,
        record role {
          name = given request.name role.name;
          description = given request.description role.description;
          version = if changed then role.version + 1 else role.version;
        },
      )

  unfoldable pub apply_update :
      LockedSharedRole → RoleUpdateRequest → Db → MutationOutcome RoleMutationResponse × Db
  unfolding updated_role write_role bump_epoch
  apply_update locked request db =
      let (changed, role) = updated_role request locked.role in
      (
        role_outcome changed (if changed then "role_updated" else "role_unchanged") locked role
            locked.role_before.permissions,
        (if changed then bump_epoch locked.state (write_role role db) else db),
      )

  unfoldable pub update_operation :
      AuthorizationContext → ℕ → RoleUpdateRequest → ℕ → Operation RoleMutationResponse
  unfolding apply_update
  update_operation context role_id request expected_version db = do
    locked ← lock_shared_role_change context role_id Keys.roles_update true db
    require_role_administration locked update
    require_expected_role_version locked.role expected_version
    ok (apply_update locked request db)

  unfoldable pub update_role :
      AuthorizationContext → ℕ → RoleUpdateRequest → ℕ → Db → Outcome RoleMutationResponse × Db
  unfolding update_operation
  update_role context role_id request expected_version =
      run_audited py (role_request context "role.update" role_id)
        (update_operation context role_id request expected_version)

  abbrev pub verb : Bool → RoleAdministrationOperation
  verb true = enable
  verb false = disable

  unfoldable pub apply_active :
      LockedSharedRole → Bool → Db → MutationOutcome RoleMutationResponse × Db
  unfolding bump_shared_authority
  apply_active locked is_active db =
      let changed = xor locked.role.is_active is_active in
      let written = record locked.role { is_active = is_active } in
      let role =
        if changed then record written { version = locked.role.version + 1 } else locked.role in
      (
        role_outcome changed
            (if changed
              then (if is_active then "role_enabled" else "role_disabled")
              else "role_status_unchanged")
            locked role locked.role_before.permissions,
        (if changed then bump_shared_authority locked written db else db),
      )

  unfoldable pub set_active_operation :
      AuthorizationContext → ℕ → Bool → ℕ → Operation RoleMutationResponse
  unfolding apply_active
  set_active_operation context role_id is_active expected_version db = do
    locked ← lock_shared_role_change context role_id Keys.roles_status_update true db
    require_role_administration locked (verb is_active)
    require_expected_role_version locked.role expected_version
    ok (apply_active locked is_active db)

  unfoldable pub set_role_active :
      AuthorizationContext → ℕ → Bool → ℕ → Db → Outcome RoleMutationResponse × Db
  unfolding set_active_operation
  set_role_active context role_id is_active expected_version =
      run_audited py
        (role_request context (if is_active then "role.enable" else "role.disable") role_id)
        (set_active_operation context role_id is_active expected_version)

  unfoldable pub apply_delete :
      LockedSharedRole → ℕ → ℕ → Db → MutationOutcome RoleMutationResponse × Db
  unfolding bump_shared_authority delete_user_roles delete_role_permissions
  apply_delete locked role_id now db =
      let actor_id = locked.actor.user_id in
      let written = record locked.role {
        is_active = false;
        deleted_at = some now;
        deleted_by_user_id = some actor_id;
      } in
      let role = record written { version = locked.role.version + 1 } in
      let unassigned = delete_user_roles (λ a. a.role_id == role_id) now actor_id db in
      let ungranted = delete_role_permissions (λ g. g.role_id == role_id) now actor_id unassigned in
      (
        role_outcome true "role_soft_deleted" locked role [],
        bump_shared_authority locked written ungranted,
      )

  unfoldable pub delete_operation :
      AuthorizationContext → ℕ → ℕ → ℕ → Operation RoleMutationResponse
  unfolding apply_delete
  delete_operation context role_id expected_version now db = do
    locked ← lock_shared_role_change context role_id Keys.roles_delete true db
    require_role_administration locked delete
    require_expected_role_version locked.role expected_version
    ok (apply_delete locked role_id now db)

  unfoldable pub soft_delete_role :
      AuthorizationContext → ℕ → ℕ → ℕ → Db → Outcome RoleMutationResponse × Db
  unfolding delete_operation
  soft_delete_role context role_id expected_version now =
      run_audited py (role_request context "role.delete" role_id)
        (delete_operation context role_id expected_version now)
