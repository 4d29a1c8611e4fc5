-- ===== src/Service/Versions.antt =====
-- Optimistic concurrency: a request names the version of the role that it has seen.
pub mod Progress
use fastapi_templates_xtn.Prelude.{
  ℕ, ◌≡◌, ◌≢◌, refl, sym, ◌∙◌, ap, some, ok, Ensures-of, to_set, nat_eq, arith, true, false,
}
use fastapi_templates_xtn.Audit.{Python}
use fastapi_templates_xtn.Domain.Keys.{PermissionKey}
use fastapi_templates_xtn.Domain.Keys
use fastapi_templates_xtn.Domain.Snapshot.{AuthorizationContext}
use fastapi_templates_xtn.Policy.{required_for_permissions}
use fastapi_templates_xtn.Models.{Role, Db}
use fastapi_templates_xtn.Service.Locking.{LockedSharedRole, lock_shared_role_change}
use fastapi_templates_xtn.Service.Locking.Facts.{find_live_role}
use fastapi_templates_xtn.Service.Locking.RoleFacts.{lock_shared_role_change-IsLockedRole}
use fastapi_templates_xtn.Service.Audited.Atomic.{SameTables}
use fastapi_templates_xtn.Service.Success.{update_ok, active_ok, delete_ok, permission_change_ok}
use fastapi_templates_xtn.Service.Commands.{
  Command, update_status, revoke_sessions, change_roles, create, update, set_active, soft_delete,
  change_permissions, Writes, execute, execute_keeps,
}

-- The role that a command changes, and the version that it expects.
abbrev pub Expects : Command → ℕ → ℕ → Type 0
Expects (update_status _ _ _) role_id version = ⊥
Expects (revoke_sessions _ _) role_id version = ⊥
Expects (change_roles _ _ _ _ _) role_id version = ⊥
Expects (create _ _ _) role_id version = ⊥
Expects (update _ i _ v) role_id version = (i ≡ role_id) × (v ≡ version)
Expects (set_active _ i _ v) role_id version = (i ≡ role_id) × (v ≡ version)
Expects (soft_delete _ i v _) role_id version = (i ≡ role_id) × (v ≡ version)
Expects (change_permissions _ i _ _ v _) role_id version = (i ≡ role_id) × (v ≡ version)

module _ (py : Python) (db : Db) (role_id version : ℕ)
    (stale : (role : Role) → find_live_role db role_id ≡ some role → role.version ≢ version) where
  not_current :
      (context : AuthorizationContext) (required : PermissionKey) (inactive : _) (i v : ℕ)
      (locked : LockedSharedRole)
      → (i ≡ role_id) × (v ≡ version)
      → lock_shared_role_change context i required inactive db ≡ ok locked
      → locked.role.version ≡ v
      → ⊥
  not_current context required inactive i v locked (same_role, same_version) e current =
      let is_locked =
        lock_shared_role_change-IsLockedRole context i required inactive db locked e in
      stale locked.role (ap (find_live_role db) (sym same_role) ∙ is_locked.row)
        (current ∙ same_version)

  nothing_written :
      (c : Command) → Expects c role_id version → Writes py c db (λ d. SameTables d db)
  nothing_written (update_status _ _ _) e = absurd e
  nothing_written (revoke_sessions _ _) e = absurd e
  nothing_written (change_roles _ _ _ _ _) e = absurd e
  nothing_written (create _ _ _) e = absurd e
  nothing_written (update context i request v) e = Ensures-of _ λ r h.
      let (locked, l, guard, current, done) = update_ok py context db i request v r h in
      absurd (not_current context Keys.roles_update true i v locked e l current)
  nothing_written (set_active context i is_active v) e = Ensures-of _ λ r h.
      let (locked, l, guard, current, done) = active_ok py context db i is_active v r h in
      absurd (not_current context Keys.roles_status_update true i v locked e l current)
  nothing_written (soft_delete context i v now) e = Ensures-of _ λ r h.
      let (locked, l, guard, current, done) = delete_ok py context db i v now r h in
      absurd (not_current context Keys.roles_delete true i v locked e l current)
  nothing_written (change_permissions context i ids operation v now) e = Ensures-of _ λ r h.
      let (locked, l, plane, allowed, current, done) =
        permission_change_ok py context db i (to_set ids) operation v now r h in
      absurd (not_current context (required_for_permissions operation) false i v locked e l current)

-- A request that expects a version of a role at which the role is not live changes no table other than the
-- audit log.
pub execute-stale_version :
    (py : Python) (c : Command) (db : Db) (role_id version : ℕ)
    → Expects c role_id version
    → ((role : Role) → find_live_role db role_id ≡ some role → role.version ≢ version)
    → SameTables (execute py c db) db
execute-stale_version py c db role_id version e stale =
    execute_keeps py (λ d. SameTables d db)
      (λ d events s. record {
        users = s.users;
        state = s.state;
        permissions = s.permissions;
        roles = s.roles;
        role_permissions = s.role_permissions;
        user_roles = s.user_roles;
      })
      c db (nothing_written py db role_id version stale c e)
      (record {
        users = refl;
        state = refl;
        permissions = refl;
        roles = refl;
        role_permissions = refl;
        user_roles = refl;
      })
