-- ===== src/Service/Effects/Tables.antt =====
-- The rows of each table after an effect.
use fastapi_templates_xtn.Prelude.{
  ℕ, ◌+◌, ◌≤◌, ◌≡◌, refl, ◌∙◌, ap, true, false, ◌&&◌, List, [], ◌∷◌, ◌++◌, map, Option, some, ◌==◌,
  nat_eq, string_eq, is_none, any, contains, length, update_if, sorted_ids, inl,
}
use fastapi_templates_xtn.Domain.Keys.{reserved_role_keys, max_roles_per_user}
use fastapi_templates_xtn.Domain.Snapshot.{AuthorizationContext}
use fastapi_templates_xtn.Policy.{RoleOperation, bind, unbind}
use fastapi_templates_xtn.Models.{Role, UserRole, Db}
use fastapi_templates_xtn.Repository.{count_live_user_roles}
use fastapi_templates_xtn.Service.Base.{
  write_user, write_role, bump_epoch, delete_user_roles, delete_role_permissions, delete_assignment,
}
use fastapi_templates_xtn.Service.Locking.{LockedTarget, LockedSharedRole, bump_shared_authority}
use fastapi_templates_xtn.Service.UserRoles.{write_user_roles, new_assignment}
use fastapi_templates_xtn.Service.RolePermissions.{write_role_permissions}
use fastapi_templates_xtn.Service.Roles.{new_role}
use fastapi_templates_xtn.Service.Payloads.{RoleCreateRequest}
use fastapi_templates_xtn.Service.Effects.{
  IsTarget, IsCustom, IsChangeable, SharedBase, same, deleted, permissions, IsRevised, Effect,
  nothing, status_written, sessions_revoked, roles_changed, role_created, role_updated, role_shared,
}

module _ (context : AuthorizationContext) (db : Db) where
  pub data RolesWritten (new_id : Option ℕ) (rows : List Role) : Type 0 where
    kept : rows ≡ db.roles → RolesWritten new_id rows
    added :
        (role_id : ℕ) (request : RoleCreateRequest)
        → new_id ≡ some role_id
        → contains reserved_role_keys request.key ≡ false
        → any (λ r. r.key == request.key) db.roles ≡ false
        → (1 ≤ request.management_tier) × (request.management_tier ≤ 999)
        → rows ≡ db.roles ++ new_role role_id request ∷ []
        → RolesWritten new_id rows
    revised :
        (role_id : ℕ) (locked : LockedSharedRole) (row : Role)
        → IsCustom context db role_id locked
        → IsRevised locked.role row
        → rows ≡ update_if (λ r. r.id == row.id) (λ _. row) db.roles
        → RolesWritten new_id rows

  pub shared_roles :
      (role_id : ℕ) (locked : LockedSharedRole) (base : Db)
      → SharedBase db role_id locked base
      → base.roles ≡ db.roles
  unfolding write_role_permissions delete_user_roles delete_role_permissions
  shared_roles role_id locked base (same e) = ap (λ d. d.roles) e
  shared_roles role_id locked base (deleted now e) = ap (λ d. d.roles) e
  shared_roles role_id locked base (permissions bind now rows ids e) = ap (λ d. d.roles) e
  shared_roles role_id locked base (permissions unbind now rows ids e) = ap (λ d. d.roles) e

  user_roles_same :
      (operation : RoleOperation) (now actor_id t : ℕ) (changed : List ℕ)
      → (write_user_roles operation now actor_id t changed db).roles ≡ db.roles
  unfolding write_user_roles delete_user_roles
  user_roles_same bind now actor_id t changed = refl
  user_roles_same unbind now actor_id t changed = refl

  pub Effect-RolesWritten :
      (new_id : Option ℕ) (d : Db) → Effect context new_id db d → RolesWritten new_id d.roles
  unfolding write_user write_role bump_epoch bump_shared_authority
  Effect-RolesWritten new_id d (nothing e) = kept (ap (λ d. d.roles) e)
  Effect-RolesWritten new_id d (status_written t locked is_active target e) =
      kept (ap (λ d. d.roles) e)
  Effect-RolesWritten new_id d (sessions_revoked t locked target e) = kept (ap (λ d. d.roles) e)
  Effect-RolesWritten new_id d (roles_changed t locked operation now changed target f room e) =
      kept (ap (λ d. d.roles) e ∙ user_roles_same operation now locked.actor.user_id t changed)
  Effect-RolesWritten new_id d
        (role_created role_id request state fresh st reserved unique tier e) =
      added role_id request fresh reserved unique tier (ap (λ d. d.roles) e)
  Effect-RolesWritten new_id d (role_updated role_id locked name description custom e) =
      revised role_id locked
        (record locked.role {
          name = name;
          description = description;
          version = locked.role.version + 1;
        })
        custom
        (record {
          id = refl;
          key = refl;
          management_tier = refl;
          is_system = refl;
          is_protected = refl;
          is_super_admin = refl;
          deletion = inl (refl, refl);
        })
        (ap (λ d. d.roles) e)
  Effect-RolesWritten new_id d (role_shared role_id locked written base custom rev shared e) =
      revised role_id locked (record written { version = written.version + 1 }) custom
        (record {
          id = rev.id;
          key = rev.key;
          management_tier = rev.management_tier;
          is_system = rev.is_system;
          is_protected = rev.is_protected;
          is_super_admin = rev.is_super_admin;
          deletion = rev.deletion;
        })
        (ap (λ d. d.roles) e
          ∙ ap
              (update_if (λ r. r.id == written.id)
                (λ _. record written { version = written.version + 1 }))
              (shared_roles role_id locked base shared))

  pub data AssignmentsWritten (rows : List UserRole) : Type 0 where
    kept : rows ≡ db.user_roles → AssignmentsWritten rows
    bound :
        (t : ℕ) (locked : LockedTarget) (changed : List ℕ)
        → IsTarget context db t locked
        → ((role_id : ℕ) → contains changed role_id ≡ true → IsChangeable db role_id)
        → count_live_user_roles db t + length changed ≤ max_roles_per_user
        → rows ≡ db.user_roles ++ map (new_assignment t locked.actor.user_id) (sorted_ids changed)
        → AssignmentsWritten rows
    unbound :
        (t : ℕ) (locked : LockedTarget) (now : ℕ) (changed : List ℕ)
        → IsTarget context db t locked
        → ((role_id : ℕ) → contains changed role_id ≡ true → IsChangeable db role_id)
        → rows
          ≡ update_if
              (λ a. ((a.user_id == t) && contains changed a.role_id) && is_none a.deleted_at)
              (delete_assignment now locked.actor.user_id)
              db.user_roles
        → AssignmentsWritten rows
    role_deleted :
        (role_id : ℕ) (locked : LockedSharedRole) (now : ℕ)
        → IsCustom context db role_id locked
        → rows
          ≡ update_if
              (λ a. (a.role_id == role_id) && is_none a.deleted_at)
              (delete_assignment now locked.actor.user_id)
              db.user_roles
        → AssignmentsWritten rows

  shared_assignments :
      (role_id : ℕ) (locked : LockedSharedRole) (base : Db) (rows : List UserRole)
      → IsCustom context db role_id locked
      → rows ≡ base.user_roles
      → SharedBase db role_id locked base
      → AssignmentsWritten rows
  unfolding write_role_permissions delete_user_roles delete_role_permissions
  shared_assignments role_id locked base rows custom s (same e) =
      kept (s ∙ ap (λ d. d.user_roles) e)
  shared_assignments role_id locked base rows custom s (deleted now e) =
      role_deleted role_id locked now custom (s ∙ ap (λ d. d.user_roles) e)
  shared_assignments role_id locked base rows custom s (permissions bind now ps ids e) =
      kept (s ∙ ap (λ d. d.user_roles) e)
  shared_assignments role_id locked base rows custom s (permissions unbind now ps ids e) =
      kept (s ∙ ap (λ d. d.user_roles) e)

  pub Effect-AssignmentsWritten :
      (new_id : Option ℕ) (d : Db) → Effect context new_id db d → AssignmentsWritten d.user_roles
  unfolding write_user write_role bump_epoch bump_shared_authority write_user_roles
      delete_user_roles
  Effect-AssignmentsWritten new_id d (nothing e) = kept (ap (λ d. d.user_roles) e)
  Effect-AssignmentsWritten new_id d (status_written t locked is_active target e) =
      kept (ap (λ d. d.user_roles) e)
  Effect-AssignmentsWritten new_id d (sessions_revoked t locked target e) =
      kept (ap (λ d. d.user_roles) e)
  Effect-AssignmentsWritten new_id d (roles_changed t locked bind now changed target f room e) =
      bound t locked changed target f (room refl) (ap (λ d. d.user_roles) e)
  Effect-AssignmentsWritten new_id d (roles_changed t locked unbind now changed target f room e) =
      unbound t locked now changed target f (ap (λ d. d.user_roles) e)
  Effect-AssignmentsWritten new_id d
        (role_created role_id request state fresh st reserved unique tier e) =
      kept (ap (λ d. d.user_roles) e)
  Effect-AssignmentsWritten new_id d (role_updated role_id locked name description custom e) =
      kept (ap (λ d. d.user_roles) e)
  Effect-AssignmentsWritten new_id d (role_shared role_id locked written base custom rev shared e) =
      shared_assignments role_id locked base d.user_roles custom (ap (λ d. d.user_roles) e) shared
