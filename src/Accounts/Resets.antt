-- ===== src/Accounts/Resets.antt =====
-- services/authentication.py: an administrator resets the password of a user, and an operator that of the
-- only super administrator. `gap` is what other requests do while the password is hashed.
pub mod Authority
pub mod Rotation
pub mod SuperAdmins
pub mod Operator
use fastapi_templates_xtn.Prelude.{
  ℕ, String, Bool, true, false, not, ◌&&◌, ◌||◌, List, [], ◌∷◌, Option, none, some, ok, err, ◌>>=◌,
  ◌>>◌, raise_if, or_raise, require, if◌then◌else◌, ◌==◌, nat_eq, string_eq, contains, same_set,
}
use fastapi_templates_xtn.Errors.{
  Outcome, Error, rbac_error, value_error, key_error, not_found, conflict, forbidden,
}
use fastapi_templates_xtn.Domain.Keys.{value}
use fastapi_templates_xtn.Domain.Keys
use fastapi_templates_xtn.Domain.Snapshot.{AuthorizationContext}
use fastapi_templates_xtn.Domain.Snapshot
use fastapi_templates_xtn.Policy.{is_administrative_user_visible, decide_user_password_reset}
use fastapi_templates_xtn.Models.{User, Db}
use fastapi_templates_xtn.Repository.{
  lock_rbac_state, lock_users, user_of, require_current_actor, load_authority_snapshot,
  load_live_super_admin_holder_ids,
}
use fastapi_templates_xtn.Service.Base.{require_allowed}
use fastapi_templates_xtn.Passwords.{validate_new_password}
use fastapi_templates_xtn.Accounts.{
  Platform, Accounts, Attempt, AccountError, AccountSecurityAuditEvent, AccountSecurityActorType,
  succeeded, lift, raised, invalid_login_credentials, rate_limited, runtime_error, integrity_error,
  record_event, write_client_denial, in_transaction, and_then,
}
use fastapi_templates_xtn.Accounts.Credentials.{new_hash, or_policy_response, write_row}
use fastapi_templates_xtn.Accounts.Changes.{rotated, user_event, denied_event}

-- `tuple(value for value in (user.user_name,) if value)`
abbrev pub identity_values_of : User → List String
identity_values_of user = if user.user_name == "" then [] else user.user_name ∷ []

-- `Literal["direct", "temporary"]`
pub data ResetMode : Type 0 where
  direct temporary : ResetMode

abbrev pub requires_change : ResetMode → Bool
requires_change direct = false
requires_change temporary = true

abbrev pub reset_reason : ResetMode → String
reset_reason direct = "permanent_password_set"
reset_reason temporary = "temporary_password_set"

unfoldable pub lock_authorized_reset_target : Db → AuthorizationContext → ℕ → Outcome User
unfolding lock_rbac_state lock_users require_current_actor load_authority_snapshot
    is_administrative_user_visible decide_user_password_reset
lock_authorized_reset_target db context target_user_id = do
  _ ← lock_rbac_state db
  let users = lock_users db (context.principal.user_id ∷ target_user_id ∷ [])
  actor ← require_current_actor db context.principal.user_id context.principal.token_version
  require (contains actor.permissions (value Keys.users_password_reset))
      (forbidden "missing_operation_permission")
  target_user ← or_raise (user_of users target_user_id) (not_found "user_not_found")
  target ← load_authority_snapshot db target_user_id true
  require (is_administrative_user_visible actor target) (not_found "user_not_found")
  require_allowed (decide_user_password_reset actor target)
  ok target_user

abbrev pub reset_action : String
reset_action = "account_security.password.admin_reset"

unfoldable pub authorize_operation :
    AuthorizationContext → ℕ → Accounts → Attempt (List String × Accounts)
unfolding lock_authorized_reset_target
authorize_operation context target_user_id a = do
  target_user ← lift (lock_authorized_reset_target a.db context target_user_id)
  ok (identity_values_of target_user, a)

-- The event of an operator's reset.
abbrev pub operator_event : String → ℕ → AccountSecurityAuditEvent
operator_event request_id user_id = record {
  action = "account_security.password.operator_reset";
  outcome = succeeded;
  reason_code = "operator_temporary_password_set";
  actor = AccountSecurityActorType.operator;
  target_user_id = some user_id;
  source = Snapshot.operator;
  request_id = request_id;
}

module _ (platform : Platform) where
  open platform use {python, unicode}

  -- `except RbacError as exc: await self._write_client_denial(...); raise`
  unfoldable pub with_denial :
      {T : Type 0} → AuthorizationContext → ℕ → Attempt T × Accounts → Attempt T × Accounts
  unfolding write_client_denial
  with_denial context target_user_id (ok value, a) = (ok value, a)
  with_denial context target_user_id (err (raised (rbac_error e)), a) = (
    err (raised (rbac_error e)),
    write_client_denial python e (denied_event context reset_action "" target_user_id) a,
  )
  with_denial context target_user_id (err e, a) = (err e, a)

  unfoldable pub reset_operation :
      AuthorizationContext
      → ℕ
      → String
      → ResetMode
      → String
      → ℕ
      → Accounts
      → Attempt (Bool × Accounts)
  unfolding lock_authorized_reset_target validate_new_password or_policy_response record_event
  reset_operation context target_user_id new_password mode made now a = do
    target_user ← lift (lock_authorized_reset_target a.db context target_user_id)
    _ ←
        or_policy_response
          (validate_new_password unicode (identity_values_of target_user) new_password)
    b ←
        record_event python (user_event context reset_action (reset_reason mode) target_user.id)
          (write_row (rotated target_user made (requires_change mode) now) a)
    ok (true, b)

  -- The lines after the first authorization.
  unfoldable pub reset_authorized :
      AuthorizationContext
      → ℕ
      → String
      → ResetMode
      → ℕ
      → ℕ
      → List String
      → (Accounts → Accounts)
      → Accounts
      → Attempt Bool × Accounts
  unfolding new_hash and_then in_transaction reset_operation with_denial
  reset_authorized context target_user_id new_password mode salt now identity_values gap a =
      and_then (new_hash platform identity_values salt new_password, a)
        (λ made b. with_denial context target_user_id (
          in_transaction (reset_operation context target_user_id new_password mode made now)
            (gap b)))

  unfoldable pub reset_user_password :
      AuthorizationContext
      → ℕ
      → String
      → ResetMode
      → ℕ
      → ℕ
      → (Accounts → Accounts)
      → Accounts
      → Attempt Bool × Accounts
  unfolding and_then in_transaction authorize_operation with_denial reset_authorized
  reset_user_password context target_user_id new_password mode salt now gap a =
      and_then
        (with_denial context target_user_id
          (in_transaction (authorize_operation context target_user_id) a))
        (λ identity_values b.
          reset_authorized context target_user_id new_password mode salt now identity_values gap b)

  unfoldable pub operator_operation :
      ℕ → String → String → String → ℕ → Accounts → Attempt (Bool × Accounts)
  unfolding lock_rbac_state lock_users load_live_super_admin_holder_ids same_set
      load_authority_snapshot validate_new_password or_policy_response record_event
  operator_operation user_id temporary_password request_id made now a = do
    _ ← lift (lock_rbac_state a.db)
    row ←
        or_raise (user_of (lock_users a.db (user_id ∷ [])) user_id)
          (raised (not_found "user_not_found"))
    require row.is_active (raised (not_found "user_not_found"))
    require (same_set (load_live_super_admin_holder_ids a.db) (user_id ∷ []))
        (raised (conflict "operator_reset_requires_sole_super_admin"))
    authority ← lift (load_authority_snapshot a.db user_id true)
    require authority.is_super_admin (raised (forbidden "operator_reset_requires_super_admin"))
    _ ←
        or_policy_response
          (validate_new_password unicode (identity_values_of row) temporary_password)
    b ←
        record_event python (operator_event request_id row.id)
          (write_row (rotated row made true now) a)
    ok (true, b)

  unfoldable pub operator_reset_super_admin_password :
      ℕ → String → String → ℕ → ℕ → Accounts → Attempt Bool × Accounts
  unfolding new_hash and_then in_transaction operator_operation
  operator_reset_super_admin_password user_id temporary_password request_id salt now a =
      and_then (new_hash platform [] salt temporary_password, a)
        (λ made b.
          in_transaction (operator_operation user_id temporary_password request_id made now) b)
