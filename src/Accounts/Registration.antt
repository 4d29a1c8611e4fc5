-- ===== src/Accounts/Registration.antt =====
-- services/authentication.py: the registration setting, and the two ways to a new account. `gap` is what
-- other requests do while the password is hashed.
pub mod Opening
pub mod Completion
use fastapi_templates_xtn.Prelude.{
  ℕ, String, Bool, true, false, not, ◌&&◌, ◌||◌, List, [], ◌∷◌, Option, none, some, ok, err, ◌>>=◌,
  ◌>>◌, raise_if, require, if◌then◌else◌, ◌==◌, string_eq, contains,
}
use fastapi_templates_xtn.Errors.{Outcome, RbacError, rbac_error, unavailable, forbidden}
use fastapi_templates_xtn.Errors.Codes.{BusinessCode, error_registration_closed}
use fastapi_templates_xtn.Domain.Keys.{value}
use fastapi_templates_xtn.Domain.Keys
use fastapi_templates_xtn.Domain.Snapshot.{AuthorizationContext}
use fastapi_templates_xtn.Domain.Snapshot
use fastapi_templates_xtn.Models.{User, RbacState, Db}
use fastapi_templates_xtn.Repository.{lock_rbac_state, require_current_actor}
use fastapi_templates_xtn.Service.Users.{xor}
use fastapi_templates_xtn.Accounts.{
  Platform, Accounts, Attempt, AccountSecurityActorType, AccountSecurityAuditEvent, succeeded, lift,
  raised, integrity_error, record_event, in_transaction, and_then,
}
use fastapi_templates_xtn.Accounts.Provisioning.{NewUser, Violation, create_user_with_default_role}
use fastapi_templates_xtn.Accounts.Credentials.{new_hash, with_password, write_row, username_exists}
use fastapi_templates_xtn.Accounts.Login.{IdentityAbuseFlow, admit}

unfoldable pub registration_enabled : Accounts → Attempt Bool
registration_enabled a = elim a.db.state [
  | none ↦ err (raised (unavailable "registration_setting_unavailable"))
  | some state ↦ ok state.public_registration_enabled
]

abbrev pub registration_closed : RbacError
registration_closed = record {
  status_code = 403;
  business_code = BusinessCode.access_forbidden;
  message_key = error_registration_closed;
  reason_code = "public_registration_closed";
}

abbrev pub set_registration : RbacState → Bool → Db → Db
set_registration state enabled db = record db {
  state = some (record state { public_registration_enabled = enabled });
}

abbrev pub is_user_name_constraint : Option String → Bool
is_user_name_constraint none = false
is_user_name_constraint (some name) = name == "uq_users_user_name"

-- `except IntegrityError` and `except RbacError` around a transaction: a taken name has its own error.
unfoldable pub or_username_exists : {T : Type 0} → Attempt T → Attempt T
unfolding username_exists
or_username_exists (ok a) = ok a
or_username_exists (err (integrity_error name)) =
    if is_user_name_constraint name
    then err (raised username_exists)
    else err (integrity_error name)
or_username_exists (err (raised (rbac_error e))) =
    if e.reason_code == "user_identity_exists"
    then err (raised username_exists)
    else err (raised (rbac_error e))
or_username_exists (err e) = err e

abbrev pub registration_event :
    AuthorizationContext → String → String → Option ℕ → AccountSecurityAuditEvent
registration_event context action reason_code target_user_id = record {
  action = action;
  outcome = succeeded;
  reason_code = reason_code;
  actor = AccountSecurityActorType.user context.principal.user_id;
  target_user_id = target_user_id;
  source = context.audit_source;
  request_id = context.request_id;
}

-- The event of a completed registration.
abbrev pub registration_completed : NewUser → ℕ → AccountSecurityAuditEvent
registration_completed new user_id = record {
  action = "account_security.registration.completed";
  outcome = succeeded;
  reason_code = "registration_completed";
  actor = AccountSecurityActorType.anonymous;
  target_user_id = some user_id;
  source = Snapshot.http;
  request_id = new.request_id;
}

module _ (platform : Platform) where
  open platform use {python}

  unfoldable pub setting_operation :
      AuthorizationContext → Bool → Accounts → Attempt (Bool × Accounts)
  unfolding lock_rbac_state require_current_actor record_event
  setting_operation context enabled a = do
    state ← lift (lock_rbac_state a.db)
    actor ←
        lift (require_current_actor a.db context.principal.user_id context.principal.token_version)
    require (actor.is_super_admin && contains actor.permissions (value Keys.registration_configure))
        (raised (forbidden "registration_setting_requires_super_admin"))
    b ←
        if xor state.public_registration_enabled enabled
        then record_event python
            (registration_event context "account_security.registration.setting_updated"
              "registration_setting_updated" none)
            (record a { db = set_registration state enabled a.db })
        else ok a
    ok (enabled, b)

  unfoldable pub set_registration_enabled :
      AuthorizationContext → Bool → Accounts → Attempt Bool × Accounts
  unfolding in_transaction setting_operation
  set_registration_enabled context enabled a = in_transaction (setting_operation context enabled) a

  -- The user of the registration, with the password and the event.
  unfoldable pub register_operation : NewUser → String → ℕ → Accounts → Attempt (ℕ × Accounts)
  unfolding lock_rbac_state create_user_with_default_role record_event
  register_operation new made now a = do
    state ← lift (lock_rbac_state a.db)
    require state.public_registration_enabled (raised (rbac_error registration_closed))
    (user, b) ← create_user_with_default_role platform new a
    c ←
        record_event python (registration_completed new user.id)
          (write_row (with_password user made false now) b)
    ok (user.id, c)

  unfoldable pub registration_action :
      NewUser → String → ℕ → ℕ → (Accounts → Accounts) → Accounts → Attempt ℕ × Accounts
  unfolding new_hash and_then in_transaction register_operation or_username_exists
  registration_action new password salt now gap a =
      and_then (new_hash platform (new.user_name ∷ []) salt password, a)
        (λ made b.
          let (attempt, after) = in_transaction (register_operation new made now) (gap b) in
          (or_username_exists attempt, after))

  unfoldable pub register :
      Option IdentityAbuseFlow
      → NewUser
      → String
      → ℕ
      → ℕ
      → (Accounts → Accounts)
      → Accounts
      → Attempt ℕ × Accounts
  unfolding admit and_then registration_action
  register abuse_flow new password salt now gap a =
      and_then (admit abuse_flow, a) (λ _ b. registration_action new password salt now gap b)

  unfoldable pub create_user_operation :
      AuthorizationContext → NewUser → String → ℕ → Accounts → Attempt (ℕ × Accounts)
  unfolding lock_rbac_state require_current_actor create_user_with_default_role record_event
  create_user_operation context new made now a = do
    _ ← lift (lock_rbac_state a.db)
    actor ←
        lift (require_current_actor a.db context.principal.user_id context.principal.token_version)
    require (contains actor.permissions (value Keys.users_create))
        (raised (forbidden "missing_operation_permission"))
    (user, b) ← create_user_with_default_role platform new a
    c ←
        record_event python
          (registration_event context "account_security.registration.admin_created"
            "temporary_password_set" (some user.id))
          (write_row (with_password user made true now) b)
    ok (user.id, c)

  -- `create_user_by_administrator`, which passes the actor and the request on as arguments of `new`
  unfoldable pub create_user_by_administrator :
      AuthorizationContext
      → String
      → ℕ
      → Option Violation
      → String
      → ℕ
      → ℕ
      → (Accounts → Accounts)
      → Accounts
      → Attempt ℕ × Accounts
  unfolding new_hash and_then in_transaction create_user_operation or_username_exists
  create_user_by_administrator context user_name user_id violation temporary_password salt now gap
        a =
      let new : NewUser = record {
        user_name = user_name;
        user_id = user_id;
        assigned_by_user_id = some context.principal.user_id;
        request_id = context.request_id;
        violation = violation;
      } in
      and_then (new_hash platform (user_name ∷ []) salt temporary_password, a)
        (λ made b.
          let (attempt, after) =
            in_transaction (create_user_operation context new made now) (gap b) in
          (or_username_exists attempt, after))
