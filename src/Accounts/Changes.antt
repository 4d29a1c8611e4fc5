-- ===== src/Accounts/Changes.antt =====
-- services/authentication.py: a user changes the password, or completes a reset with a temporary one. The
-- passwords are verified and hashed outside the transactions; `gap` is what other requests do meanwhile.
pub mod Renewal
pub mod Revocation
pub mod Completed
use fastapi_templates_xtn.Prelude.{
  ℕ, String, Bool, true, false, not, ◌&&◌, ◌||◌, List, [], ◌∷◌, Option, none, some, ok, err, ◌>>=◌,
  ◌>>◌, raise_if, or_raise, if◌then◌else◌, ◌==◌, nat_eq, string_eq, is_none,
}
use fastapi_templates_xtn.Errors.{invalid_request, forbidden}
use fastapi_templates_xtn.Domain.Snapshot.{AuthorizationContext}
use fastapi_templates_xtn.Domain.Snapshot
use fastapi_templates_xtn.Models.{User}
use fastapi_templates_xtn.Repository.{lock_rbac_state, lock_users, user_of}
use fastapi_templates_xtn.Accounts.{
  Platform, Accounts, Attempt, AccountSecurityAuditEvent, AccountSecurityActorType, succeeded,
  denied, lift, raised, invalid_login_credentials, record_event, write_denied_event, in_transaction,
  and_then,
}
use fastapi_templates_xtn.Accounts.Credentials.{
  PasswordSnapshot, load_snapshot_by_user_name, load_snapshot_by_user_id, stored_hash,
  same_identity, same_login_user_state, same_password_state, with_password, with_next_version,
  write_row, verify_password, new_hash,
}
use fastapi_templates_xtn.Accounts.Login.{IdentityAbuseFlow, admit, or_invalid}

-- The event of a user's request.
abbrev pub user_event : AuthorizationContext → String → String → ℕ → AccountSecurityAuditEvent
user_event context action reason_code target_user_id = record {
  action = action;
  outcome = succeeded;
  reason_code = reason_code;
  actor = AccountSecurityActorType.user context.principal.user_id;
  target_user_id = some target_user_id;
  source = context.audit_source;
  request_id = context.request_id;
}

abbrev pub denied_event : AuthorizationContext → String → String → ℕ → AccountSecurityAuditEvent
denied_event context action reason_code target_user_id =
    record (user_event context action reason_code target_user_id) { outcome = denied }

-- The row of a user whose password has been rotated, with the version that ends the sessions.
abbrev pub rotated : User → String → Bool → ℕ → User
rotated user password_hash must_change_password changed_at =
    with_next_version (with_password user password_hash must_change_password changed_at)

-- `_reauthenticate_actor`: the tests on a snapshot whose password has been verified or not
unfoldable pub is_current_credential : AuthorizationContext → PasswordSnapshot → Bool → Bool
is_current_credential context snapshot verified = not (
    not verified
    || is_none snapshot.password_hash
    || snapshot.is_deleted
    || not snapshot.is_active
    || snapshot.must_change_password
    || not (snapshot.token_version == context.principal.token_version))

-- `_verify_temporary_snapshot`: the same for a temporary password
unfoldable pub is_temporary_credential : PasswordSnapshot → Bool → Bool
is_temporary_credential snapshot verified = not (
    not verified
    || is_none snapshot.password_hash
    || snapshot.is_deleted
    || not snapshot.is_active
    || not snapshot.must_change_password)

-- The user is as the snapshot was when its password was verified.
unfoldable pub is_unchanged_actor : AuthorizationContext → PasswordSnapshot → User → Bool
unfolding same_identity same_password_state
is_unchanged_actor context snapshot user =
    not (
      not user.is_active
      || not (user.token_version == context.principal.token_version)
      || not (same_identity user snapshot))
    && same_password_state user snapshot

unfoldable pub is_unchanged_temporary : PasswordSnapshot → User → Bool
unfolding same_identity same_login_user_state same_password_state
is_unchanged_temporary snapshot user =
    (user.is_active && same_identity user snapshot)
    && (same_login_user_state user snapshot && same_password_state user snapshot)
    && user.must_change_password

-- The event of a completed reset.
abbrev pub completed_event : String → ℕ → AccountSecurityAuditEvent
completed_event request_id user_id = record {
  action = "account_security.password.reset_completed";
  outcome = succeeded;
  reason_code = "temporary_password_completed";
  actor = AccountSecurityActorType.user user_id;
  target_user_id = some user_id;
  source = Snapshot.http;
  request_id = request_id;
}

module _ (platform : Platform) where
  open platform use {python}

  -- `verify_current_password`
  unfoldable pub verify_current_password :
      AuthorizationContext → String → Accounts → Attempt (Option PasswordSnapshot)
  unfolding load_snapshot_by_user_id verify_password is_current_credential
  verify_current_password context password a =
      elim (load_snapshot_by_user_id a.db context.principal.user_id) [
        | none ↦ verify_password platform password none >>= λ _. ok none
        | some snapshot ↦ verify_password platform password snapshot.password_hash >>= λ verified.
            ok (if is_current_credential context snapshot verified then some snapshot else none)
      ]

  -- A refusal, of the credentials or of their form, is recorded as a denial.
  unfoldable pub reauthenticate_actor :
      AuthorizationContext → String → String → ℕ → Accounts → Attempt PasswordSnapshot × Accounts
  unfolding verify_current_password or_invalid write_denied_event
  reauthenticate_actor context password action target_user_id a =
      elim (or_invalid (verify_current_password context password a)) [
        | ok snapshot ↦ (ok snapshot, a)
        | err e ↦ elim e [
          | invalid_login_credentials ↦ (
            err (raised (forbidden "current_password_invalid")),
            write_denied_event python
                (denied_event context action "current_password_invalid" target_user_id) a,
          )
          | other ↦ (err other, a)
        ]
      ]

  unfoldable pub change_operation :
      AuthorizationContext → PasswordSnapshot → String → ℕ → Accounts → Attempt (Bool × Accounts)
  unfolding lock_rbac_state lock_users is_unchanged_actor record_event
  change_operation context snapshot made now a = do
    _ ← lift (lock_rbac_state a.db)
    user ←
        or_raise
          (user_of (lock_users a.db (context.principal.user_id ∷ [])) context.principal.user_id)
          (raised (forbidden "current_credential_changed"))
    raise_if (not (is_unchanged_actor context snapshot user))
        (raised (forbidden "current_credential_changed"))
    b ←
        record_event python
          (user_event context "account_security.password.changed" "password_changed" user.id)
          (write_row (rotated user made false now) a)
    ok (true, b)

  -- The lines after the actor has been authenticated.
  unfoldable pub change_authenticated :
      AuthorizationContext
      → String
      → ℕ
      → ℕ
      → PasswordSnapshot
      → (Accounts → Accounts)
      → Accounts
      → Attempt Bool × Accounts
  unfolding new_hash and_then in_transaction change_operation
  change_authenticated context new_password salt now snapshot gap a =
      and_then (new_hash platform (snapshot.user_name ∷ []) salt new_password, a)
        (λ made b. in_transaction (change_operation context snapshot made now) (gap b))

  unfoldable pub change_password :
      AuthorizationContext
      → String
      → String
      → ℕ
      → ℕ
      → (Accounts → Accounts)
      → Accounts
      → Attempt Bool × Accounts
  unfolding reauthenticate_actor and_then change_authenticated
  change_password context current_password new_password salt now gap a =
      if current_password == new_password
      then (err (raised (invalid_request "new_password_must_differ")), a)
      else and_then
          (reauthenticate_actor context current_password "account_security.password.changed"
            context.principal.user_id a)
          (λ snapshot b. change_authenticated context new_password salt now snapshot gap b)

  unfoldable pub verify_temporary_snapshot :
      String → String → Accounts → Attempt (Option PasswordSnapshot)
  unfolding load_snapshot_by_user_name verify_password is_temporary_credential
  verify_temporary_snapshot user_name password a =
      elim (load_snapshot_by_user_name a.db user_name) [
        | none ↦ verify_password platform password none >>= λ _. ok none
        | some snapshot ↦ verify_password platform password snapshot.password_hash >>= λ verified.
            ok (if is_temporary_credential snapshot verified then some snapshot else none)
      ]

  unfoldable pub complete_operation :
      String → PasswordSnapshot → String → ℕ → Accounts → Attempt (Bool × Accounts)
  unfolding lock_rbac_state lock_users is_unchanged_temporary record_event
  complete_operation request_id snapshot made now a = do
    _ ← lift (lock_rbac_state a.db)
    row ←
        or_raise (user_of (lock_users a.db (snapshot.user_id ∷ [])) snapshot.user_id)
          invalid_login_credentials
    raise_if (not (is_unchanged_temporary snapshot row)) invalid_login_credentials
    b ←
        record_event python (completed_event request_id row.id)
          (write_row (rotated row made false now) a)
    ok (true, b)

  -- The lines before the transaction: the snapshot that was verified, and the new hash.
  unfoldable pub complete_verified :
      Option IdentityAbuseFlow
      → String
      → String
      → String
      → ℕ
      → Accounts
      → Attempt (PasswordSnapshot × String)
  unfolding admit or_invalid verify_temporary_snapshot new_hash
  complete_verified abuse_flow user_name temporary_password new_password salt a = do
    raise_if (temporary_password == new_password)
        (raised (invalid_request "new_password_must_differ"))
    admit abuse_flow
    snapshot ← or_invalid (verify_temporary_snapshot user_name temporary_password a)
    made ← new_hash platform (snapshot.user_name ∷ []) salt new_password
    ok (snapshot, made)

  unfoldable pub complete_password_reset :
      Option IdentityAbuseFlow
      → String
      → String
      → String
      → String
      → ℕ
      → ℕ
      → (Accounts → Accounts)
      → Accounts
      → Attempt Bool × Accounts
  unfolding complete_verified and_then in_transaction complete_operation
  complete_password_reset abuse_flow user_name temporary_password new_password request_id salt now
        gap a =
      and_then (complete_verified abuse_flow user_name temporary_password new_password salt a, a)
        (λ (snapshot, made) b.
          in_transaction (complete_operation request_id snapshot made now) (gap b))
