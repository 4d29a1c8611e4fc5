-- ===== src/Service/Audited.antt =====
-- services/access.py: `_audit_event`, `_write_denied_audit` and `_run_audited`. `session.begin()` commits
-- the whole body with its event, or rolls all of it back.
pub mod Atomic
use fastapi_templates_xtn.Prelude.{
  ℕ, String, Bool, true, false, List, [], ◌∷◌, ◌++◌, Option, none, some, ok, err, ◌>>=◌, ◌>>◌, ltb,
  if◌then◌else◌,
}
use fastapi_templates_xtn.Errors.{Outcome, Error, RbacError, rbac_error, value_error, key_error}
use fastapi_templates_xtn.Audit.{
  Python, Fields, sanitize_audit_state, validate_audit_action, validate_audit_reason,
  validate_audit_request_id,
}
use fastapi_templates_xtn.Domain.Snapshot.{AuthorizationContext}
use fastapi_templates_xtn.Models.{RbacAuditEvent, Decision, Db}
use fastapi_templates_xtn.Service.Base.{MutationOutcome, Operation}

-- The attributes of an audited request.
pub record Request : Type 0 where
  pub context : AuthorizationContext
  pub action : String
  pub target_user_id : Option ℕ
  pub target_role_id : Option ℕ

-- `a or b` on optional ids
abbrev or_else : Option ℕ → Option ℕ → Option ℕ
or_else none b = b
or_else (some a) b = some a

module _ (py : Python) where
  -- `RbacAuditEvent(...)` runs the validators of its columns.
  unfoldable pub audit_event :
      Request
      → Decision
      → String
      → Option ℕ
      → Option Fields
      → Option Fields
      → Outcome RbacAuditEvent
  audit_event request decision reason_code target_role_id before_state after_state = do
    action ← validate_audit_action py request.action
    reason ← validate_audit_reason py reason_code
    before ← sanitize_audit_state py before_state
    after ← sanitize_audit_state py after_state
    request_id ← validate_audit_request_id py request.context.request_id
    ok (record {
      actor_user_id = request.context.principal.user_id;
      target_user_id = request.target_user_id;
      target_role_id = target_role_id;
      action = action;
      decision = decision;
      reason_code = reason;
      source = request.context.audit_source;
      before_state = before;
      after_state = after;
      request_id = request_id;
    })

  abbrev add_event : RbacAuditEvent → Db → Db
  add_event event db = record db { audit_events = db.audit_events ++ event ∷ [] }

  unfoldable pub write_denied_audit : Request → String → Db → Outcome Db
  unfolding audit_event
  write_denied_audit request reason_code db = do
    event ← audit_event request Decision.denied reason_code request.target_role_id none none
    ok (add_event event db)

  -- Denied evidence is best effort.
  unfoldable pub with_denied_audit : Request → RbacError → Db → Db
  unfolding write_denied_audit
  with_denied_audit request error db =
      if ltb error.status_code 500
      then elim (write_denied_audit request error.reason_code db) [ ok db' ↦ db' | err _ ↦ db ]
      else db

  module _ {T : Type 0} where
    -- The transaction: the operation and the event of its success.
    unfoldable pub transaction : Request → Operation T → Db → Outcome (T × Db)
    unfolding audit_event
    transaction request operation db = do
      done ← operation db
      let outcome = done.0
      event ←
          audit_event request Decision.allowed outcome.reason_code
            (or_else outcome.audit_target_role_id request.target_role_id) outcome.before_state
            outcome.after_state
      ok (outcome.value, add_event event done.1)

    unfoldable pub finish : Request → Db → Outcome (T × Db) → Outcome T × Db
    unfolding with_denied_audit
    finish request db (ok (value, db')) = (ok value, db')
    finish request db (err (rbac_error e)) = (err (rbac_error e), with_denied_audit request e db)
    finish request db (err (value_error m)) = (err (value_error m), db)
    finish request db (err (key_error k)) = (err (key_error k), db)

    unfoldable pub run_audited : Request → Operation T → Db → Outcome T × Db
    unfolding transaction finish
    run_audited request operation db = finish request db (transaction request operation db)
