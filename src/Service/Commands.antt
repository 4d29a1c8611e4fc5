-- ===== src/Service/Commands.antt =====
-- The public methods of `RbacService` as commands, run one after another: the row of `rbac_state` is locked
-- by each of them, so they run in some order.

pub mod Custom
use fastapi_templates_xtn.Prelude.{
  ℕ, String, ◌≡◌, refl, ◌≢◌, Bool, true, false, List, [], ◌∷◌, Option, none, some, Result, ok, err,
  ◌>>=◌, if◌then◌else◌, Ensures, Ensures-of, All, Bool-cases, inl, inr, to_set, nat_eq,
}
use fastapi_templates_xtn.Errors.{Outcome}
use fastapi_templates_xtn.Audit.{Python}
use fastapi_templates_xtn.Domain.Snapshot.{AuthorizationContext}
use fastapi_templates_xtn.Policy.{RoleOperation}
use fastapi_templates_xtn.Models.{RbacAuditEvent, Db}
use fastapi_templates_xtn.Service.Payloads.{RoleCreateRequest, RoleUpdateRequest}
use fastapi_templates_xtn.Service.Base.{MutationOutcome, Operation}
use fastapi_templates_xtn.Service.Audited.{Request, run_audited}
use fastapi_templates_xtn.Service.Audited.Atomic.{run_audited_keeps}
use fastapi_templates_xtn.Service.Users.{
  status_operation, update_user_status, revoke_operation, revoke_user_sessions,
}
use fastapi_templates_xtn.Service.UserRoles.{is_empty, role_change_operation, change_user_roles}
use fastapi_templates_xtn.Service.Roles.{
  create_operation, create_role, update_operation, update_role, set_active_operation,
  set_role_active, delete_operation, soft_delete_role,
}
use fastapi_templates_xtn.Service.RolePermissions.{permission_operation, change_role_permissions}

pub data Command : Type 0 where
  update_status : AuthorizationContext → ℕ → Bool → Command
  revoke_sessions : AuthorizationContext → ℕ → Command
  change_roles : AuthorizationContext → ℕ → List ℕ → RoleOperation → ℕ → Command
  create : AuthorizationContext → ℕ → RoleCreateRequest → Command
  update : AuthorizationContext → ℕ → RoleUpdateRequest → ℕ → Command
  set_active : AuthorizationContext → ℕ → Bool → ℕ → Command
  soft_delete : AuthorizationContext → ℕ → ℕ → ℕ → Command
  change_permissions : AuthorizationContext → ℕ → List ℕ → RoleOperation → ℕ → ℕ → Command

-- The caller of a command.
abbrev pub context_of : Command → AuthorizationContext
context_of (update_status context _ _) = context
context_of (revoke_sessions context _) = context
context_of (change_roles context _ _ _ _) = context
context_of (create context _ _) = context
context_of (update context _ _ _) = context
context_of (set_active context _ _ _) = context
context_of (soft_delete context _ _ _) = context
context_of (change_permissions context _ _ _ _ _) = context

-- The id of the row that a command is to insert.
abbrev pub new_role_id : Command → Option ℕ
new_role_id (update_status _ _ _) = none
new_role_id (revoke_sessions _ _) = none
new_role_id (change_roles _ _ _ _ _) = none
new_role_id (create _ role_id _) = some role_id
new_role_id (update _ _ _ _) = none
new_role_id (set_active _ _ _ _) = none
new_role_id (soft_delete _ _ _ _) = none
new_role_id (change_permissions _ _ _ _ _ _) = none

module _ (py : Python) where
  unfoldable pub execute : Command → Db → Db
  execute (update_status context t is_active) db = (update_user_status py context t is_active db).1
  execute (revoke_sessions context t) db = (revoke_user_sessions py context t db).1
  execute (change_roles context t ids operation now) db =
      (change_user_roles py context t ids operation now db).1
  execute (create context role_id request) db = (create_role py context role_id request db).1
  execute (update context role_id request expected) db =
      (update_role py context role_id request expected db).1
  execute (set_active context role_id is_active expected) db =
      (set_role_active py context role_id is_active expected db).1
  execute (soft_delete context role_id expected now) db =
      (soft_delete_role py context role_id expected now db).1
  execute (change_permissions context role_id ids operation expected now) db =
      (change_role_permissions py context role_id ids operation expected now db).1

  -- What holds of the database that the operation of a command has written, if it returns.
  abbrev pub Writes {ℓ} : Command → Db → (Db → Type ℓ) → Type ℓ
  Writes (update_status context t is_active) db P =
      Ensures (status_operation py context t is_active db) (λ r. P r.1)
  Writes (revoke_sessions context t) db P = Ensures (revoke_operation py context t db) (λ r. P r.1)
  Writes (change_roles context t ids operation now) db P =
      Ensures (role_change_operation py context t (to_set ids) operation now db) (λ r. P r.1)
  Writes (create context role_id request) db P =
      Ensures (create_operation py context role_id request db) (λ r. P r.1)
  Writes (update context role_id request expected) db P =
      Ensures (update_operation py context role_id request expected db) (λ r. P r.1)
  Writes (set_active context role_id is_active expected) db P =
      Ensures (set_active_operation py context role_id is_active expected db) (λ r. P r.1)
  Writes (soft_delete context role_id expected now) db P =
      Ensures (delete_operation py context role_id expected now db) (λ r. P r.1)
  Writes (change_permissions context role_id ids operation expected now) db P =
      Ensures (permission_operation py context role_id (to_set ids) operation expected now db)
        (λ r. P r.1)

  module _ {ℓ} (P : Db → Type ℓ)
      (stable : (d : Db) (events : List RbacAuditEvent)
        → P d
        → P (record d { audit_events = events })) where
    if_keeps :
        {T : Type 0} (b : Bool) (x y : Outcome T × Db) → P x.1 → P y.1 → P (if b then x else y).1
    if_keeps true x y hx hy = hx
    if_keeps false x y hx hy = hy

    -- A predicate that the writes of a command establish and that does not read the events holds after
    -- the command, also where it is refused.
    pub execute_keeps : (c : Command) (db : Db) → Writes c db P → P db → P (execute c db)
    unfolding execute update_user_status revoke_user_sessions change_user_roles create_role
        update_role set_role_active soft_delete_role change_role_permissions
    execute_keeps (update_status context t is_active) db w h =
        run_audited_keeps py _ (status_operation py context t is_active) db P stable w h
    execute_keeps (revoke_sessions context t) db w h =
        run_audited_keeps py _ (revoke_operation py context t) db P stable w h
    execute_keeps (change_roles context t ids operation now) db w h =
        if_keeps (is_empty (to_set ids)) _ _ h (
          run_audited_keeps py _ (role_change_operation py context t (to_set ids) operation now) db
            P stable w h)
    execute_keeps (create context role_id request) db w h =
        run_audited_keeps py _ (create_operation py context role_id request) db P stable w h
    execute_keeps (update context role_id request expected) db w h =
        run_audited_keeps py _ (update_operation py context role_id request expected) db P stable w
          h
    execute_keeps (set_active context role_id is_active expected) db w h =
        run_audited_keeps py _ (set_active_operation py context role_id is_active expected) db P
          stable w h
    execute_keeps (soft_delete context role_id expected now) db w h =
        run_audited_keeps py _ (delete_operation py context role_id expected now) db P stable w h
    execute_keeps (change_permissions context role_id ids operation expected now) db w h =
        if_keeps (is_empty (to_set ids)) _ _ h (
          run_audited_keeps py _
            (permission_operation py context role_id (to_set ids) operation expected now) db P
            stable w h)
