-- ===== src/Service/Success.antt =====
-- What an operation of services/access.py has done when it returns: it has passed its guards, and its
-- result is the one that its `apply` function describes.
use fastapi_templates_xtn.Prelude.{
  ℕ, ◌+◌, ◌≡◌, Bool, true, false, not, ◌&&◌, List, [], map, ok, bind_inv, arith, ◌==◌, nat_eq,
  string_eq, any, all, length, contains, to_set, subset, ltb, sorted_ids, String,
}
use fastapi_templates_xtn.Audit.{Python}
use fastapi_templates_xtn.Domain.Keys.{
  max_roles_per_user, reserved_role_keys, super_admin_permission_keys,
}
use fastapi_templates_xtn.Domain.Keys
use fastapi_templates_xtn.Domain.Snapshot.{AuthoritySnapshot, AuthorizationContext, with_role}
use fastapi_templates_xtn.Policy.{
  RoleOperation, is_bind, required_for_change, required_for_permissions, decide_role_change,
  is_administrative_role_visible, decide_user_status_change, decide_user_sessions_revoke,
  decide_role_create, update, delete, decide_role_permissions_change,
}
use fastapi_templates_xtn.Models.{RbacState, Role, Db}
use fastapi_templates_xtn.Repository.{
  load_role_grants_for_roles, count_live_user_roles, load_permission_keys, lock_rbac_state,
  require_current_actor,
}
use fastapi_templates_xtn.Service.Payloads.{
  UserResponse, UserRoleMutationResponse, RoleMutationResponse, RoleCreateRequest,
  RoleUpdateRequest,
}
use fastapi_templates_xtn.Service.Base.{MutationOutcome, require_expected_role_version, write_user}
use fastapi_templates_xtn.Service.Locking.{
  LockedTarget, lock_actor_and_target_user, LockedSharedRole, lock_shared_role_change,
  require_role_administration,
}
use fastapi_templates_xtn.Service.Users.{apply_status, status_operation, revoke_operation}
use fastapi_templates_xtn.Service.UserRoles.{
  is_empty, existing_role_ids, requested_roles, snapshot_after, changed_role_ids, apply_role_change,
  role_change_operation,
}
use fastapi_templates_xtn.Service.Roles.{
  apply_create, create_operation, apply_update, update_operation, verb, apply_active,
  set_active_operation, apply_delete, delete_operation,
}
use fastapi_templates_xtn.Service.RolePermissions.{
  permission_keys_after, replacement, apply_permissions, permission_operation,
}

module _ (py : Python) (context : AuthorizationContext) (db : Db) where
  pub status_ok :
      (t : ℕ) (is_active : Bool) (r : MutationOutcome UserResponse × Db)
      → status_operation py context t is_active db ≡ ok r
      → (locked : LockedTarget) × (lock_actor_and_target_user context t Keys.users_status_update []
            db
          ≡ ok locked)
        × ((decide_user_status_change locked.actor locked.target).allowed ≡ true)
        × (r ≡ apply_status py locked is_active db)
  unfolding status_operation
  status_ok t is_active r h = ground arith

  pub revoke_ok :
      (t : ℕ) (r : MutationOutcome (Unit {0}) × Db)
      → revoke_operation py context t db ≡ ok r
      → (locked : LockedTarget) × (lock_actor_and_target_user context t Keys.users_sessions_revoke
            [] db
          ≡ ok locked)
        × ((decide_user_sessions_revoke locked.actor locked.target).allowed ≡ true)
        × (r.1
            ≡ write_user
                (record locked.target_row { token_version = locked.target_row.token_version + 1 })
                db)
  unfolding revoke_operation
  revoke_ok t r h = ground arith

  -- What a change of a user's roles has read and decided.
  pub record IsRoleChange (t : ℕ) (requested : List ℕ) (operation : RoleOperation)
      (locked : LockedTarget) (roles : List Role) : Type 0 where
    pub found :
        requested_roles operation locked.locked_roles
          (existing_role_ids db t requested)
          (sorted_ids requested)
        ≡ ok roles
    pub visible :
        all (is_administrative_role_visible locked.actor) (load_role_grants_for_roles db roles)
        ≡ true
    pub decided :
        (decide_role_change operation locked.actor locked.target
          (snapshot_after operation locked.target (load_role_grants_for_roles db roles))
          (load_role_grants_for_roles db roles)).allowed
        ≡ true
    pub room :
        (is_bind operation
          && (not
                (is_empty (changed_role_ids operation requested (existing_role_ids db t requested)))
              && ltb max_roles_per_user (
                  count_live_user_roles db t
                  + length
                      (changed_role_ids operation requested (existing_role_ids db t requested)))))
        ≡ false

  pub role_change_operation-IsRoleChange :
      (t : ℕ) (requested : List ℕ) (operation : RoleOperation) (now : ℕ)
      (r : MutationOutcome UserRoleMutationResponse × Db)
      → role_change_operation py context t requested operation now db ≡ ok r
      → (locked : LockedTarget) × (roles : List Role) × (lock_actor_and_target_user context t
            (required_for_change operation)
            requested
            db
          ≡ ok locked)
        × IsRoleChange t requested operation locked roles
        × (r
            ≡ apply_role_change py operation now t locked
                (snapshot_after operation locked.target (load_role_grants_for_roles db roles))
                (changed_role_ids operation requested (existing_role_ids db t requested))
                db)
  unfolding role_change_operation
  role_change_operation-IsRoleChange t requested operation now r h =
      let (locked, e, rest) =
        bind_inv (lock_actor_and_target_user context t (required_for_change operation) requested db)
          _ h in
      let (roles, found, last) =
        bind_inv
          (requested_roles operation locked.locked_roles (existing_role_ids db t requested)
            (sorted_ids requested))
          _ rest in
      (
        locked,
        roles,
        e,
        record {
          found = found;
          visible = ground arith;
          decided = ground arith;
          room = ground arith;
        },
        ground arith,
      )

  pub create_ok :
      (role_id : ℕ) (request : RoleCreateRequest) (r : MutationOutcome RoleMutationResponse × Db)
      → create_operation py context role_id request db ≡ ok r
      → (state : RbacState) × (actor : AuthoritySnapshot) × (lock_rbac_state db ≡ ok state)
        × (require_current_actor db context.principal.user_id context.principal.token_version
            ≡ ok actor)
        × ((decide_role_create actor request.management_tier).allowed ≡ true)
        × (contains reserved_role_keys request.key ≡ false)
        × (any (λ x. x.key == request.key) db.roles ≡ false)
        × (r ≡ apply_create py state role_id request db)
  unfolding create_operation
  create_ok role_id request r h = ground arith

  pub update_ok :
      (role_id : ℕ) (request : RoleUpdateRequest) (expected : ℕ)
      (r : MutationOutcome RoleMutationResponse × Db)
      → update_operation py context role_id request expected db ≡ ok r
      → (locked : LockedSharedRole) × (lock_shared_role_change context role_id Keys.roles_update
            true db
          ≡ ok locked)
        × (require_role_administration locked update ≡ ok tt)
        × (locked.role.version ≡ expected)
        × (r ≡ apply_update py locked request db)
  unfolding update_operation require_expected_role_version
  update_ok role_id request expected r h = ground arith

  pub active_ok :
      (role_id : ℕ) (is_active : Bool) (expected : ℕ)
      (r : MutationOutcome RoleMutationResponse × Db)
      → set_active_operation py context role_id is_active expected db ≡ ok r
      → (locked : LockedSharedRole) × (lock_shared_role_change context role_id
            Keys.roles_status_update true db
          ≡ ok locked)
        × (require_role_administration locked (verb py is_active) ≡ ok tt)
        × (locked.role.version ≡ expected)
        × (r ≡ apply_active py locked is_active db)
  unfolding set_active_operation require_expected_role_version
  active_ok role_id is_active expected r h = ground arith

  pub delete_ok :
      (role_id expected now : ℕ) (r : MutationOutcome RoleMutationResponse × Db)
      → delete_operation py context role_id expected now db ≡ ok r
      → (locked : LockedSharedRole) × (lock_shared_role_change context role_id Keys.roles_delete
            true db
          ≡ ok locked)
        × (require_role_administration locked delete ≡ ok tt)
        × (locked.role.version ≡ expected)
        × (r ≡ apply_delete py locked role_id now db)
  unfolding delete_operation require_expected_role_version
  delete_ok role_id expected now r h = ground arith

  -- The permissions that the role is to have, and the decision on them.
  abbrev pub keys_after : RoleOperation → LockedSharedRole → List ℕ → List String
  keys_after operation locked requested =
      permission_keys_after operation locked.role_before.permissions
        (to_set (map (λ p. p.key) (load_permission_keys db requested)))

  pub permission_change_ok :
      (role_id : ℕ) (requested : List ℕ) (operation : RoleOperation) (expected now : ℕ)
      (r : MutationOutcome RoleMutationResponse × Db)
      → permission_operation py context role_id requested operation expected now db ≡ ok r
      → (locked : LockedSharedRole) × (lock_shared_role_change context role_id
            (required_for_permissions operation)
            false
            db
          ≡ ok locked)
        × (subset
              (to_set (map (λ p. p.key) (load_permission_keys db requested)))
              super_admin_permission_keys
            ≡ true)
        × ((decide_role_permissions_change operation locked.actor locked.role_before
              (keys_after operation locked requested)
              (contains locked.affected_ids locked.actor.user_id)
              (map
                (λ s. with_role s (replacement locked (keys_after operation locked requested)))
                locked.affected_before)).allowed
            ≡ true)
        × (locked.role.version ≡ expected)
        × (r
            ≡ apply_permissions py operation now role_id locked
                (load_permission_keys db requested)
                requested
                (keys_after operation locked requested)
                db)
  unfolding permission_operation require_expected_role_version
  permission_change_ok role_id requested operation expected now r h =
      let (locked, e, rest) =
        bind_inv
          (lock_shared_role_change context role_id (required_for_permissions operation) false db) _
          h in
      (locked, e, ground arith, ground arith, ground arith, ground arith)
