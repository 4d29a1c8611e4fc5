-- ===== src/Service/Effects/Accounts.antt =====
-- The rows of `users` after an effect.
use fastapi_templates_xtn.Prelude.{
  ℕ, ◌+◌, ◌≡◌, refl, ◌∙◌, ap, ◌&&◌, List, Option, ◌==◌, nat_eq, is_none, contains, update_if,
}
use fastapi_templates_xtn.Domain.Snapshot.{AuthorizationContext}
use fastapi_templates_xtn.Policy.{RoleOperation, bind, unbind}
use fastapi_templates_xtn.Models.{User, Db}
use fastapi_templates_xtn.Service.Base.{
  write_user, write_role, bump_epoch, delete_user_roles, delete_role_permissions,
}
use fastapi_templates_xtn.Service.Locking.{LockedTarget, LockedSharedRole, bump_shared_authority}
use fastapi_templates_xtn.Service.Users.{with_status}
use fastapi_templates_xtn.Service.UserRoles.{write_user_roles}
use fastapi_templates_xtn.Service.RolePermissions.{write_role_permissions}
use fastapi_templates_xtn.Service.Effects.{
  IsTarget, IsCustom, SharedBase, same, deleted, permissions, Effect, nothing, status_written,
  sessions_revoked, roles_changed, role_created, role_updated, role_shared,
}

-- A later version of a user's row: the same identity, password and deletion.
pub record IsSameAccount (old row : User) : Type 0 where
  pub id : row.id ≡ old.id
  pub is_protected : row.is_protected ≡ old.is_protected
  pub user_name : row.user_name ≡ old.user_name
  pub password_hash : row.password_hash ≡ old.password_hash
  pub must_change_password : row.must_change_password ≡ old.must_change_password
  pub password_changed_at : row.password_changed_at ≡ old.password_changed_at
  pub deleted_at : row.deleted_at ≡ old.deleted_at
  pub deleted_by_user_id : row.deleted_by_user_id ≡ old.deleted_by_user_id

-- `user.authz_version += 1`
abbrev pub bumped_user : User → User
bumped_user u = record u { authz_version = u.authz_version + 1 }

module _ (context : AuthorizationContext) (db : Db) where
  pub data UsersWritten (rows : List User) : Type 0 where
    kept : rows ≡ db.users → UsersWritten rows
    written :
        (t : ℕ) (locked : LockedTarget) (row : User)
        → IsTarget context db t locked
        → IsSameAccount locked.target_row row
        → rows ≡ update_if (λ u. u.id == row.id) (λ _. row) db.users
        → UsersWritten rows
    bumped :
        (role_id : ℕ) (locked : LockedSharedRole)
        → IsCustom context db role_id locked
        → rows
          ≡ update_if
              (λ u. contains locked.affected_ids u.id && is_none u.deleted_at)
              bumped_user
              db.users
        → UsersWritten rows

  shared_users :
      (role_id : ℕ) (locked : LockedSharedRole) (base : Db)
      → SharedBase db role_id locked base
      → base.users ≡ db.users
  unfolding write_role_permissions delete_user_roles delete_role_permissions
  shared_users role_id locked base (same e) = ap (λ d. d.users) e
  shared_users role_id locked base (deleted now e) = ap (λ d. d.users) e
  shared_users role_id locked base (permissions bind now rows ids e) = ap (λ d. d.users) e
  shared_users role_id locked base (permissions unbind now rows ids e) = ap (λ d. d.users) e

  assigned_users :
      (operation : RoleOperation) (now actor_id t : ℕ) (changed : List ℕ)
      → (write_user_roles operation now actor_id t changed db).users ≡ db.users
  unfolding write_user_roles delete_user_roles
  assigned_users bind now actor_id t changed = refl
  assigned_users unbind now actor_id t changed = refl

  pub Effect-UsersWritten :
      (new_id : Option ℕ) (d : Db) → Effect context new_id db d → UsersWritten d.users
  unfolding write_user write_role bump_epoch bump_shared_authority
  Effect-UsersWritten new_id d (nothing e) = kept (ap (λ d. d.users) e)
  Effect-UsersWritten new_id d (status_written t locked is_active target e) =
      written t locked (with_status locked.target_row is_active) target
        (record {
          id = refl;
          is_protected = refl;
          user_name = refl;
          password_hash = refl;
          must_change_password = refl;
          password_changed_at = refl;
          deleted_at = refl;
          deleted_by_user_id = refl;
        })
        (ap (λ d. d.users) e)
  Effect-UsersWritten new_id d (sessions_revoked t locked target e) =
      written t locked
        (record locked.target_row { token_version = locked.target_row.token_version + 1 }) target
        (record {
          id = refl;
          is_protected = refl;
          user_name = refl;
          password_hash = refl;
          must_change_password = refl;
          password_changed_at = refl;
          deleted_at = refl;
          deleted_by_user_id = refl;
        })
        (ap (λ d. d.users) e)
  Effect-UsersWritten new_id d (roles_changed t locked operation now changed target f room e) =
      written t locked (bumped_user locked.target_row) target
        (record {
          id = refl;
          is_protected = refl;
          user_name = refl;
          password_hash = refl;
          must_change_password = refl;
          password_changed_at = refl;
          deleted_at = refl;
          deleted_by_user_id = refl;
        })
        (ap (λ d. d.users) e
          ∙ ap (update_if (λ u. u.id == locked.target_row.id) (λ _. bumped_user locked.target_row))
              (assigned_users operation now locked.actor.user_id t changed))
  Effect-UsersWritten new_id d
        (role_created role_id request state fresh st reserved unique tier e) =
      kept (ap (λ d. d.users) e)
  Effect-UsersWritten new_id d (role_updated role_id locked name description custom e) =
      kept (ap (λ d. d.users) e)
  Effect-UsersWritten new_id d (role_shared role_id locked written_role base custom rev shared e) =
      bumped role_id locked custom (
        ap (λ d. d.users) e
        ∙ ap
            (update_if (λ u. contains locked.affected_ids u.id && is_none u.deleted_at) bumped_user)
            (shared_users role_id locked base shared))
