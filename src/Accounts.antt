-- ===== src/Accounts.antt =====
-- models/account_security.py: the account security audit, and what the services of accounts share: the
-- tables that they write, their exceptions, and the transaction of `session.begin()`.
pub mod Provisioning
pub mod Credentials
pub mod Rows
pub mod Login
pub mod Changes
pub mod Resets
pub mod Registration
use Prim.Native.String.{count}
use fastapi_templates_xtn.Prelude.{
  ℕ, String, Bool, true, false, not, ◌||◌, List, [], ◌∷◌, ◌++◌, Option, none, some, Result, ok, err,
  ◌>>=◌, ◌>>◌, raise_if, ltb, if◌then◌else◌,
}
use fastapi_templates_xtn.Errors.{Outcome, Error, RbacError, rbac_error, value_error}
use fastapi_templates_xtn.Audit.{Python, validate_audit_reason, validate_audit_request_id}
use fastapi_templates_xtn.Domain.Snapshot.{AuditSource}
use fastapi_templates_xtn.Models.{Db}
use fastapi_templates_xtn.Passwords.{Unicode}
use fastapi_templates_xtn.Passwords.Hashing.{Argon2}
use fastapi_templates_xtn.RateLimit.{RateLimitError}

-- What the services call and do not define.
pub record Platform : Type 0 where
  pub python : Python
  pub unicode : Unicode
  pub argon2 : Argon2
  -- `value.strip()`
  pub strip : String → String

pub data AccountSecurityAuditOutcome : Type 0 where
  succeeded failed denied : AccountSecurityAuditOutcome

-- The type of an actor, with the id that the check constraint ties to the type `user`.
pub data AccountSecurityActorType : Type 0 where
  anonymous operator system : AccountSecurityActorType
  user : ℕ → AccountSecurityActorType

pub record AccountSecurityAuditEvent : Type 0 where
  pub action : String
  pub outcome : AccountSecurityAuditOutcome
  pub reason_code : String
  pub actor : AccountSecurityActorType
  pub target_user_id : Option ℕ
  pub source : AuditSource
  pub request_id : String

pub record Accounts : Type 0 where
  pub db : Db
  pub events : List AccountSecurityAuditEvent

-- The exceptions of the services: those of the access service, `InvalidLoginCredentialsError`, those of
-- the rate limits, a `RuntimeError`, and an `IntegrityError` with the name of its constraint.
pub data AccountError : Type 0 where
  raised : Error → AccountError
  invalid_login_credentials : AccountError
  rate_limited : RateLimitError → AccountError
  runtime_error : String → AccountError
  integrity_error : Option String → AccountError

abbrev pub Attempt : Type 0 → Type 0
Attempt = Result AccountError

abbrev pub lift : {T : Type 0} → Outcome T → Attempt T
lift (ok a) = ok a
lift (err e) = err (raised e)

abbrev pub account_security_action_re : String
account_security_action_re = "^account_security\\.[a-z][a-z0-9_]*(?:\\.[a-z][a-z0-9_]*)+$"

module _ (py : Python) where
  open py use {fullmatch}

  unfoldable pub validate_action : String → Outcome String
  validate_action value = do
    raise_if
        (ltb (count value) 20
          || ltb 120 (count value)
          || not (fullmatch account_security_action_re value))
        (value_error "invalid account security audit action")
    ok value

  -- `_account_event(...)`: the constructor runs the validators of the columns.
  unfoldable pub account_event : AccountSecurityAuditEvent → Outcome AccountSecurityAuditEvent
  unfolding validate_action validate_audit_reason validate_audit_request_id
  account_event event = do
    _ ← validate_action event.action
    _ ← validate_audit_reason py event.reason_code
    _ ← validate_audit_request_id py event.request_id
    ok event

  abbrev pub add_event : AccountSecurityAuditEvent → Accounts → Accounts
  add_event event a = record a { events = a.events ++ event ∷ [] }

  -- `session.add(self._account_event(...))`
  unfoldable pub record_event : AccountSecurityAuditEvent → Accounts → Attempt Accounts
  unfolding account_event
  record_event event a = do built ← lift (account_event event); ok (add_event built a)

  -- `_write_denied_event`: best effort, in a transaction of its own
  unfoldable pub write_denied_event : AccountSecurityAuditEvent → Accounts → Accounts
  unfolding record_event
  write_denied_event event a = elim (record_event event a) [ ok b ↦ b | err _ ↦ a ]

  -- `_write_client_denial`: the event of an error below 500, with its reason
  unfoldable pub write_client_denial : RbacError → AccountSecurityAuditEvent → Accounts → Accounts
  unfolding write_denied_event
  write_client_denial error event a =
      if ltb error.status_code 500
      then write_denied_event (record event { reason_code = error.reason_code }) a
      else a

module _ {T : Type 0} where
  -- `async with session.begin()`: the body's writes, or none of them.
  unfoldable pub in_transaction :
      (Accounts → Attempt (T × Accounts)) → Accounts → Attempt T × Accounts
  in_transaction body a = elim (body a) [ ok (value, b) ↦ (ok value, b) | err e ↦ (err e, a) ]

module _ {A B : Type 0} where
  -- What follows a step that returns a value; an exception of the step ends the request.
  unfoldable pub and_then :
      Attempt A × Accounts → (A → Accounts → Attempt B × Accounts) → Attempt B × Accounts
  and_then (ok value, a) next = next value a
  and_then (err e, a) next = (err e, a)
