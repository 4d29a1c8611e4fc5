-- ===== src/Service/Log.antt =====
-- The audit log: no request writes to the tables without its event, and none touches the events before.
use fastapi_templates_xtn.Prelude.{
  ℕ, ◌≡◌, refl, sym, ◌∙◌, ap, ◌⊎◌, inl, inr, Bool, true, false, [], ◌∷◌, ◌++◌, Option, ok, err,
  Ensures, ensured, to_set, nat_eq, if◌then◌else◌,
}
use fastapi_templates_xtn.Errors.{Outcome, Error}
use fastapi_templates_xtn.Audit.{Python}
use fastapi_templates_xtn.Policy.{bind, unbind}
use fastapi_templates_xtn.Domain.Snapshot.{AuthorizationContext}
use fastapi_templates_xtn.Models.{RbacAuditEvent, allowed, denied, Db}
use fastapi_templates_xtn.Service.Base.{
  Operation, write_user, write_role, bump_epoch, delete_user_roles, delete_role_permissions,
}
use fastapi_templates_xtn.Service.Locking.{LockedSharedRole, bump_shared_authority}
use fastapi_templates_xtn.Service.Audited.{Request, run_audited}
use fastapi_templates_xtn.Service.Audited.Atomic.{SameTables, Rejected, Audited, run_audited_atomic}
use fastapi_templates_xtn.Service.Users.{
  status_operation, update_user_status, revoke_operation, revoke_user_sessions,
}
use fastapi_templates_xtn.Service.UserRoles.{
  is_empty, write_user_roles, role_change_operation, change_user_roles,
}
use fastapi_templates_xtn.Service.Roles.{
  create_operation, create_role, update_operation, update_role, set_active_operation,
  set_role_active, delete_operation, soft_delete_role,
}
use fastapi_templates_xtn.Service.RolePermissions.{
  write_role_permissions, permission_operation, change_role_permissions,
}
use fastapi_templates_xtn.Service.Commands.{
  Command, update_status, revoke_sessions, change_roles, create, update, set_active, soft_delete,
  change_permissions, context_of, new_role_id, Writes, execute,
}
use fastapi_templates_xtn.Service.Effects.{
  SharedBase, same, deleted, permissions, Effect, nothing, status_written, sessions_revoked,
  roles_changed, role_created, role_updated, role_shared,
}
use fastapi_templates_xtn.Service.Effects.Established.{Writes-Effect}
use fastapi_templates_xtn.Service.Invariants.{Writes-map}

-- Nothing was written, or one event of the caller was added, and other tables only if it is not a denial.
abbrev pub IsLogged : AuthorizationContext → Db → Db → Type 0
IsLogged context db d =
    (d ≡ db)
    ⊎ ((event : RbacAuditEvent) × (event.actor_user_id ≡ context.principal.user_id)
        × (d.audit_events ≡ db.audit_events ++ event ∷ [])
        × (event.decision ≡ denied → SameTables d db))

shared_events :
    (db : Db) (role_id : ℕ) (locked : LockedSharedRole) (base : Db)
    → SharedBase db role_id locked base
    → base.audit_events ≡ db.audit_events
unfolding write_role_permissions delete_user_roles delete_role_permissions
shared_events db role_id locked base (same e) = ap (λ d. d.audit_events) e
shared_events db role_id locked base (deleted now e) = ap (λ d. d.audit_events) e
shared_events db role_id locked base (permissions bind now rows ids e) = ap (λ d. d.audit_events) e
shared_events db role_id locked base (permissions unbind now rows ids e) =
    ap (λ d. d.audit_events) e

Effect-audit_events :
    (context : AuthorizationContext) (new_id : Option ℕ) (db d : Db)
    → Effect context new_id db d
    → d.audit_events ≡ db.audit_events
unfolding write_user write_role bump_epoch bump_shared_authority write_user_roles delete_user_roles
Effect-audit_events context new_id db d (nothing e) = ap (λ d. d.audit_events) e
Effect-audit_events context new_id db d (status_written t locked is_active target e) =
    ap (λ d. d.audit_events) e
Effect-audit_events context new_id db d (sessions_revoked t locked target e) =
    ap (λ d. d.audit_events) e
Effect-audit_events context new_id db d (roles_changed t locked bind now changed target f room e) =
    ap (λ d. d.audit_events) e
Effect-audit_events context new_id db d
      (roles_changed t locked unbind now changed target f room e) =
    ap (λ d. d.audit_events) e
Effect-audit_events context new_id db d (role_created role_id request state n st r u tier e) =
    ap (λ d. d.audit_events) e
Effect-audit_events context new_id db d (role_updated role_id locked name text custom e) =
    ap (λ d. d.audit_events) e
Effect-audit_events context new_id db d (role_shared role_id locked w base custom rev shared e) =
    ap (λ d. d.audit_events) e ∙ shared_events db role_id locked base shared

module _ (py : Python) where
  module _ {T : Type 0} (request : Request) (operation : Operation T) (db : Db) where
    Rejected-IsLogged :
        (e : Error) (d : Db) → Rejected py request db e d → IsLogged request.context db d
    Rejected-IsLogged e d (inl unchanged) = inl unchanged
    Rejected-IsLogged e d (inr (error, event, is_error, client, is_event, written)) = inr (
      event,
      is_event.actor,
      ap (λ x. x.audit_events) written,
      λ _. record {
        users = ap (λ x. x.users) written;
        state = ap (λ x. x.state) written;
        permissions = ap (λ x. x.permissions) written;
        roles = ap (λ x. x.roles) written;
        role_permissions = ap (λ x. x.role_permissions) written;
        user_roles = ap (λ x. x.user_roles) written;
      },
    )

    Audited-IsLogged :
        (r : Outcome T × Db)
        → Ensures (operation db) (λ x. x.1.audit_events ≡ db.audit_events)
        → Audited py request operation db r
        → IsLogged request.context db r.1
    Audited-IsLogged (ok value, d) keeps (outcome, base, event, ran, is_value, is_event, written) =
        inr (
          event,
          is_event.actor,
          ap (λ x. x.audit_events) written
              ∙ ap (λ events. events ++ event ∷ [])
                  (ensured (λ x. x.1.audit_events ≡ db.audit_events) ran keeps),
          λ is_denied. absurd (clash (sym is_event.decided ∙ is_denied)),
        )
      where
        clash : allowed ≡ denied → ⊥
        clash h = cc
    Audited-IsLogged (err e, d) keeps rejected = Rejected-IsLogged e d rejected

    run_audited-IsLogged :
        Ensures (operation db) (λ x. x.1.audit_events ≡ db.audit_events)
        → IsLogged request.context db (run_audited py request operation db).1
    run_audited-IsLogged keeps =
        Audited-IsLogged (run_audited py request operation db) keeps
          (run_audited_atomic py request operation db)

  if_IsLogged :
      {T : Type 0} (context : AuthorizationContext) (db : Db) (b : Bool) (e : Outcome T)
      (y : Outcome T × Db)
      → IsLogged context db y.1
      → IsLogged context db (if b then (e, db) else y).1
  if_IsLogged context db true e y h = inl refl
  if_IsLogged context db false e y h = h

  execute-IsLogged' :
      (c : Command) (db : Db)
      → Writes py c db (λ d. d.audit_events ≡ db.audit_events)
      → IsLogged (context_of c) db (execute py c db)
  unfolding execute update_user_status revoke_user_sessions change_user_roles create_role
      update_role set_role_active soft_delete_role change_role_permissions
  execute-IsLogged' (update_status context t is_active) db w =
      run_audited-IsLogged _ (status_operation py context t is_active) db w
  execute-IsLogged' (revoke_sessions context t) db w =
      run_audited-IsLogged _ (revoke_operation py context t) db w
  execute-IsLogged' (change_roles context t ids operation now) db w =
      if_IsLogged context db (is_empty (to_set ids)) _ _ (
        run_audited-IsLogged _ (role_change_operation py context t (to_set ids) operation now) db w)
  execute-IsLogged' (create context role_id request) db w =
      run_audited-IsLogged _ (create_operation py context role_id request) db w
  execute-IsLogged' (update context role_id request expected) db w =
      run_audited-IsLogged _ (update_operation py context role_id request expected) db w
  execute-IsLogged' (set_active context role_id is_active expected) db w =
      run_audited-IsLogged _ (set_active_operation py context role_id is_active expected) db w
  execute-IsLogged' (soft_delete context role_id expected now) db w =
      run_audited-IsLogged _ (delete_operation py context role_id expected now) db w
  execute-IsLogged' (change_permissions context role_id ids operation expected now) db w =
      if_IsLogged context db (is_empty (to_set ids)) _ _ (
        run_audited-IsLogged _
          (permission_operation py context role_id (to_set ids) operation expected now) db w)

-- A request that writes anything adds exactly one event to the log, in its caller's name, and keeps all
-- earlier ones; if that event is a denial, it has changed none of the other tables.
pub execute-IsLogged :
    (py : Python) (c : Command) (db : Db) → IsLogged (context_of c) db (execute py c db)
execute-IsLogged py c db = execute-IsLogged' py c db (
    Writes-map py (Effect (context_of c) (new_role_id c) db) (λ d. d.audit_events ≡ db.audit_events)
      c db (λ d effect. Effect-audit_events (context_of c) (new_role_id c) db d effect)
      (Writes-Effect py c db))
