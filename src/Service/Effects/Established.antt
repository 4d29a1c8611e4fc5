-- ===== src/Service/Effects/Established.antt =====
-- Every operation of services/access.py that returns has one of the effects.
use fastapi_templates_xtn.Prelude.{
  ℕ, refl, ◌∙◌, ap, Bool, true, false, List, [], none, some, Ensures, Ensures-of, ◌==◌, nat_eq,
  string_eq, to_set, same_set, Bool-cases, inl, inr, or_raise-some,
}
use fastapi_templates_xtn.Audit.{Python}
use fastapi_templates_xtn.Domain.Keys.{PermissionKey, max_roles_per_user}
use fastapi_templates_xtn.Domain.Keys
use fastapi_templates_xtn.Domain.Snapshot.{AuthorizationContext}
use fastapi_templates_xtn.Policy
use fastapi_templates_xtn.Policy.{
  RoleOperation, bind, unbind, is_bind, required_for_change, required_for_permissions,
  decide_user_administration, decide_user_status_change, decide_user_sessions_revoke,
}
use fastapi_templates_xtn.Policy.Rules.{decide_user_administration_iff}
use fastapi_templates_xtn.Policy.Roles.{decide_role_create_iff, decide_role_permissions_change_iff}
use fastapi_templates_xtn.Models.{Db}
use fastapi_templates_xtn.Repository.{lock_rbac_state, load_permission_keys}
use fastapi_templates_xtn.Service.Locking.Facts.{lock_actor_and_target_user-IsLockedTarget}
use fastapi_templates_xtn.Service.Locking.RoleFacts.{lock_shared_role_change-IsLockedRole}
use fastapi_templates_xtn.Service.Users.{xor, apply_status, status_operation, revoke_operation}
use fastapi_templates_xtn.Service.Roles.{
  given, apply_create, create_operation, updated_role, apply_update, update_operation, apply_active,
  set_active_operation, apply_delete, delete_operation, verb,
}
use fastapi_templates_xtn.Service.Base.{delete_user_roles, delete_role_permissions}
use fastapi_templates_xtn.Service.RolePermissions.{
  write_role_permissions, apply_permissions, permission_operation,
}
use fastapi_templates_xtn.Service.Payloads.{RoleCreateRequest, RoleUpdateRequest}
use fastapi_templates_xtn.Service.Success.{
  status_ok, revoke_ok, create_ok, update_ok, active_ok, delete_ok, permission_change_ok,
  keys_after,
}
use fastapi_templates_xtn.Service.Effects.{
  IsManageable-IsTarget, MayAdminister-IsCustom, same, deleted, permissions, Effect, nothing,
  status_written, sessions_revoked, role_created, role_updated, role_shared,
}
use fastapi_templates_xtn.Service.Commands.Custom.{require_role_administration-MayAdminister}
use fastapi_templates_xtn.Service.Commands.{
  Command, update_status, revoke_sessions, change_roles, create, update, set_active, soft_delete,
  change_permissions, context_of, new_role_id, Writes,
}
use fastapi_templates_xtn.Service.Effects.Assigning.{role_change_operation-Effect}

module _ (py : Python) (context : AuthorizationContext) (db : Db) where
  status_operation-Effect :
      (t : ℕ) (is_active : Bool)
      → Ensures (status_operation py context t is_active db) (λ r. Effect context none db r.1)
  unfolding decide_user_administration decide_user_status_change
  status_operation-Effect t is_active = Ensures-of _ λ r h.
      let (locked, e, allowed, done) = status_ok py context db t is_active r h in
      let target =
        IsManageable-IsTarget
          (lock_actor_and_target_user-IsLockedTarget context t Keys.users_status_update [] db locked
            e)
          ((decide_user_administration_iff _ locked.actor locked.target).0 allowed).1 in
      elim (Bool-cases (xor locked.target_row.is_active is_active)) [
        | inl changed ↦
            status_written t locked is_active target
              (ap (λ x. x.1) done ∙ unfold apply_status in rw changed)
        | inr unchanged ↦ nothing (ap (λ x. x.1) done ∙ unfold apply_status in rw unchanged)
      ]

  revoke_operation-Effect :
      (t : ℕ) → Ensures (revoke_operation py context t db) (λ r. Effect context none db r.1)
  unfolding decide_user_administration decide_user_sessions_revoke
  revoke_operation-Effect t = Ensures-of _ λ r h.
      let (locked, e, allowed, done) = revoke_ok py context db t r h in
      sessions_revoked t locked
        (IsManageable-IsTarget
          (lock_actor_and_target_user-IsLockedTarget context t Keys.users_sessions_revoke [] db
            locked e)
          ((decide_user_administration_iff _ locked.actor locked.target).0 allowed).1)
        done

  create_operation-Effect :
      (role_id : ℕ) (request : RoleCreateRequest)
      → Ensures
          (create_operation py context role_id request db)
          (λ r. Effect context (some role_id) db r.1)
  unfolding lock_rbac_state
  create_operation-Effect role_id request = Ensures-of _ λ r h.
      let (state, actor, e, ran, allowed, reserved, unique, done) =
        create_ok py context db role_id request r h in
      let may = (decide_role_create_iff actor request.management_tier).0 allowed in
      role_created role_id request state refl (or_raise-some db.state _ state e) reserved unique
        (may.1, may.2) (ap (λ x. x.1) done ∙ unfold apply_create in refl)

  update_operation-Effect :
      (role_id : ℕ) (request : RoleUpdateRequest) (expected : ℕ)
      → Ensures
          (update_operation py context role_id request expected db)
          (λ r. Effect context none db r.1)
  update_operation-Effect role_id request expected = Ensures-of _ λ r h.
      let (locked, e, guard, current, done) =
        update_ok py context db role_id request expected r h in
      let custom =
        MayAdminister-IsCustom
          (lock_shared_role_change-IsLockedRole context role_id Keys.roles_update true db locked e)
          (require_role_administration-MayAdminister locked Policy.update guard) in
      elim (Bool-cases (updated_role py request locked.role).0) [
        | inl changed ↦
            role_updated role_id locked (given request.name locked.role.name)
              (given request.description locked.role.description) custom
              (ap (λ x. x.1) done ∙ unfold apply_update updated_role in rw changed)
        | inr unchanged ↦
            nothing (ap (λ x. x.1) done ∙ unfold apply_update updated_role in rw unchanged)
      ]

  set_active_operation-Effect :
      (role_id : ℕ) (is_active : Bool) (expected : ℕ)
      → Ensures
          (set_active_operation py context role_id is_active expected db)
          (λ r. Effect context none db r.1)
  set_active_operation-Effect role_id is_active expected = Ensures-of _ λ r h.
      let (locked, e, guard, current, done) =
        active_ok py context db role_id is_active expected r h in
      let is_locked =
        lock_shared_role_change-IsLockedRole context role_id Keys.roles_status_update true db locked
          e in
      elim (Bool-cases (xor locked.role.is_active is_active)) [
        | inl changed ↦
            role_shared role_id locked (record locked.role { is_active = is_active }) db
              (MayAdminister-IsCustom is_locked
                (require_role_administration-MayAdminister locked (verb py is_active) guard))
              (record {
                id = refl;
                key = refl;
                management_tier = refl;
                is_system = refl;
                is_protected = refl;
                is_super_admin = refl;
                deletion = inl (refl, refl);
              })
              (same refl) (ap (λ x. x.1) done ∙ unfold apply_active in rw changed)
        | inr unchanged ↦ nothing (ap (λ x. x.1) done ∙ unfold apply_active in rw unchanged)
      ]

  delete_operation-Effect :
      (role_id expected now : ℕ)
      → Ensures
          (delete_operation py context role_id expected now db)
          (λ r. Effect context none db r.1)
  delete_operation-Effect role_id expected now = Ensures-of _ λ r h.
      let (locked, e, guard, current, done) = delete_ok py context db role_id expected now r h in
      role_shared role_id locked
        (record locked.role {
          is_active = false;
          deleted_at = some now;
          deleted_by_user_id = some locked.actor.user_id;
        })
        (delete_role_permissions (λ g. g.role_id == role_id) now locked.actor.user_id
          (delete_user_roles (λ a. a.role_id == role_id) now locked.actor.user_id db))
        (MayAdminister-IsCustom
          (lock_shared_role_change-IsLockedRole context role_id Keys.roles_delete true db locked e)
          (require_role_administration-MayAdminister locked Policy.delete guard))
        (record {
          id = refl;
          key = refl;
          management_tier = refl;
          is_system = refl;
          is_protected = refl;
          is_super_admin = refl;
          deletion = inr (refl, refl);
        })
        (deleted now refl) (ap (λ x. x.1) done ∙ unfold apply_delete in refl)

  permission_operation-Effect :
      (role_id : ℕ) (requested : List ℕ) (operation : RoleOperation) (expected now : ℕ)
      → Ensures
          (permission_operation py context role_id requested operation expected now db)
          (λ r. Effect context none db r.1)
  permission_operation-Effect role_id requested operation expected now = Ensures-of _ λ r h.
      let (locked, e, plane, allowed, current, done) =
        permission_change_ok py context db role_id requested operation expected now r h in
      let is_locked =
        lock_shared_role_change-IsLockedRole context role_id (required_for_permissions operation)
          false db locked e in
      let after = keys_after py context db operation locked requested in
      elim (Bool-cases (same_set locked.role_before.permissions after)) [
        | inl unchanged ↦ nothing (ap (λ x. x.1) done ∙ unfold apply_permissions in rw unchanged)
        | inr changed ↦
            role_shared role_id locked locked.role
              (write_role_permissions operation now role_id locked
                (load_permission_keys db requested) requested db)
              (MayAdminister-IsCustom is_locked
                ((decide_role_permissions_change_iff operation locked.actor locked.role_before after
                    _ _).0
                  allowed).1)
              (record {
                id = refl;
                key = refl;
                management_tier = refl;
                is_system = refl;
                is_protected = refl;
                is_super_admin = refl;
                deletion = inl (refl, refl);
              })
              (permissions operation now _ requested refl)
              (ap (λ x. x.1) done ∙ unfold apply_permissions in rw changed)
      ]

-- The writes of every command.
pub Writes-Effect :
    (py : Python) (c : Command) (db : Db)
    → Writes py c db (Effect (context_of c) (new_role_id c) db)
Writes-Effect py (update_status context t is_active) db =
    status_operation-Effect py context db t is_active
Writes-Effect py (revoke_sessions context t) db = revoke_operation-Effect py context db t
Writes-Effect py (change_roles context t ids operation now) db =
    role_change_operation-Effect py context db t (to_set ids) operation now
Writes-Effect py (create context role_id request) db =
    create_operation-Effect py context db role_id request
Writes-Effect py (update context role_id request expected) db =
    update_operation-Effect py context db role_id request expected
Writes-Effect py (set_active context role_id is_active expected) db =
    set_active_operation-Effect py context db role_id is_active expected
Writes-Effect py (soft_delete context role_id expected now) db =
    delete_operation-Effect py context db role_id expected now
Writes-Effect py (change_permissions context role_id ids operation expected now) db =
    permission_operation-Effect py context db role_id (to_set ids) operation expected now
