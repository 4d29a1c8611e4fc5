-- ===== src/Service/Invariants.antt =====
-- What every request to `RbacService` keeps: it is enough to look at the effects.
pub mod BuiltIn
pub mod RoleLimit
pub mod RoleRows
pub mod Consistent
pub mod Formats
pub mod OwnAccount
use fastapi_templates_xtn.Prelude.{ℕ, ◌≡◌, List, to_set, Ensures-map}
use fastapi_templates_xtn.Audit.{Python}
use fastapi_templates_xtn.Models.{RbacAuditEvent, Db}
use fastapi_templates_xtn.Service.Commands.{
  Command, update_status, revoke_sessions, change_roles, create, update, set_active, soft_delete,
  change_permissions, context_of, new_role_id, Writes, execute, execute_keeps,
}
use fastapi_templates_xtn.Service.Effects.{Effect}
use fastapi_templates_xtn.Service.Effects.Established.{Writes-Effect}

module _ {ℓ} (py : Python) where
  pub Writes-map {κ} :
      (P : Db → Type κ) (Q : Db → Type ℓ) (c : Command) (db : Db)
      → ((d : Db) → P d → Q d)
      → Writes py c db P
      → Writes py c db Q
  Writes-map P Q (update_status _ _ _) db f = Ensures-map _ _ _ (λ r. f r.1)
  Writes-map P Q (revoke_sessions _ _) db f = Ensures-map _ _ _ (λ r. f r.1)
  Writes-map P Q (change_roles _ _ _ _ _) db f = Ensures-map _ _ _ (λ r. f r.1)
  Writes-map P Q (create _ _ _) db f = Ensures-map _ _ _ (λ r. f r.1)
  Writes-map P Q (update _ _ _ _) db f = Ensures-map _ _ _ (λ r. f r.1)
  Writes-map P Q (set_active _ _ _ _) db f = Ensures-map _ _ _ (λ r. f r.1)
  Writes-map P Q (soft_delete _ _ _ _) db f = Ensures-map _ _ _ (λ r. f r.1)
  Writes-map P Q (change_permissions _ _ _ _ _ _) db f = Ensures-map _ _ _ (λ r. f r.1)

  -- What every effect establishes, and the events do not touch, holds after a command.
  pub execute_by_Effect :
      (P : Db → Type ℓ)
      → ((d : Db) (events : List RbacAuditEvent) → P d → P (record d { audit_events = events }))
      → (c : Command) (db : Db) → ((d : Db) → Effect (context_of c) (new_role_id c) db d → P d)
      → P db
      → P (execute py c db)
  execute_by_Effect P stable c db step h =
      execute_keeps py P stable c db
        (Writes-map (Effect (context_of c) (new_role_id c) db) P c db step (Writes-Effect py c db))
        h
