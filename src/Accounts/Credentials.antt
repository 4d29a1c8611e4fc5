-- ===== src/Accounts/Credentials.antt =====
-- services/authentication.py: the snapshots of a user, the comparisons with one, the verification of a
-- password and its rotation. The time of a statement and the salt of a hash are arguments.
use fastapi_templates_xtn.Prelude.{
  ℕ, suc, String, Bool, true, false, not, ◌&&◌, List, Option, none, some, Result, ok, err, ◌>>=◌,
  if◌then◌else◌, ◌==◌, nat_eq, string_eq, is_none, first,
}
use fastapi_templates_xtn.Errors.{Error, rbac_error, unavailable, invalid_request}
use fastapi_templates_xtn.Errors.Codes.{
  BusinessCode, error_password_same_as_user_name, error_password_common_or_weak,
  error_user_name_taken,
}
use fastapi_templates_xtn.Models.{User, Db}
use fastapi_templates_xtn.Service.Base.{write_user}
use fastapi_templates_xtn.Service.Users.{xor}
use fastapi_templates_xtn.Passwords.{PasswordError, policy_error, hash_error}
use fastapi_templates_xtn.Passwords.Hashing.{
  PasswordVerification, hash_new_password, verify_or_dummy,
}
use fastapi_templates_xtn.Accounts.{
  Platform, Accounts, Attempt, raised, invalid_login_credentials, runtime_error,
}

pub record PasswordSnapshot : Type 0 where
  pub user_id : ℕ
  pub user_name : String
  pub is_active : Bool
  pub is_deleted : Bool
  pub token_version : ℕ
  pub password_hash : Option String
  pub password_changed_at : Option ℕ
  pub must_change_password : Bool

abbrev pub snapshot_from_user : User → PasswordSnapshot
snapshot_from_user user = record {
  user_id = user.id;
  user_name = user.user_name;
  is_active = user.is_active;
  is_deleted = not (is_none user.deleted_at);
  token_version = user.token_version;
  password_hash = user.password_hash;
  password_changed_at = user.password_changed_at;
  must_change_password = user.must_change_password;
}

-- `_load_snapshot_by_user_name` and `_load_snapshot_by_user_id`
unfoldable pub load_snapshot_by_user_name : Db → String → Option PasswordSnapshot
load_snapshot_by_user_name db user_name = elim (first (λ u. u.user_name == user_name) db.users) [
  | none ↦ none
  | some user ↦ some (snapshot_from_user user)
]

unfoldable pub load_snapshot_by_user_id : Db → ℕ → Option PasswordSnapshot
load_snapshot_by_user_id db user_id = elim (first (λ u. u.id == user_id) db.users) [
  | none ↦ none
  | some user ↦ some (snapshot_from_user user)
]

-- `==` on optional values
abbrev pub same_text : Option String → Option String → Bool
same_text none none = true
same_text none (some _) = false
same_text (some _) none = false
same_text (some a) (some b) = a == b

abbrev pub same_time : Option ℕ → Option ℕ → Bool
same_time none none = true
same_time none (some _) = false
same_time (some _) none = false
same_time (some a) (some b) = a == b

unfoldable pub same_identity : User → PasswordSnapshot → Bool
same_identity user snapshot =
    (user.id == snapshot.user_id)
    && (user.user_name == snapshot.user_name)
    && is_none user.deleted_at

unfoldable pub same_login_user_state : User → PasswordSnapshot → Bool
unfolding same_identity
same_login_user_state user snapshot =
    same_identity user snapshot
    && not (xor user.is_active snapshot.is_active)
    && (user.token_version == snapshot.token_version)
    && same_time user.password_changed_at snapshot.password_changed_at

unfoldable pub same_password_state : User → PasswordSnapshot → Bool
same_password_state user snapshot =
    not (is_none user.password_hash)
    && same_text user.password_hash snapshot.password_hash
    && not (xor user.must_change_password snapshot.must_change_password)

-- `_password_policy_response`
unfoldable pub password_policy_response : String → Error
password_policy_response reason_code =
    if reason_code == "password_same_as_user_name"
    then rbac_error (record {
      status_code = 400;
      business_code = BusinessCode.bad_request;
      message_key = error_password_same_as_user_name;
      reason_code = reason_code;
    })
    else if reason_code == "password_common_or_weak"
    then rbac_error (record {
      status_code = 400;
      business_code = BusinessCode.bad_request;
      message_key = error_password_common_or_weak;
      reason_code = reason_code;
    })
    else invalid_request reason_code

-- `except PasswordPolicyError as exc: raise _password_policy_response(exc)`
unfoldable pub or_policy_response : {T : Type 0} → Result PasswordError T → Attempt T
unfolding password_policy_response
or_policy_response (ok a) = ok a
or_policy_response (err (policy_error reason_code)) =
    err (raised (password_policy_response reason_code))
or_policy_response (err hash_error) = err (runtime_error "stored password hash is invalid")

unfoldable pub username_exists : Error
username_exists = rbac_error (record {
  status_code = 409;
  business_code = BusinessCode.conflict;
  message_key = error_user_name_taken;
  reason_code = "user_identity_exists";
})

-- `snapshot.password_hash if snapshot is not None else None`
abbrev pub stored_hash : Option PasswordSnapshot → Option String
stored_hash none = none
stored_hash (some snapshot) = snapshot.password_hash

-- `_rotate_password` and the attributes that a caller sets with it
abbrev pub with_password : User → String → Bool → ℕ → User
with_password user password_hash must_change_password changed_at = record user {
  password_hash = some password_hash;
  must_change_password = must_change_password;
  password_changed_at = some changed_at;
}

-- `user.token_version += 1`
abbrev pub with_next_version : User → User
with_next_version user = record user { token_version = suc user.token_version }

abbrev pub write_row : User → Accounts → Accounts
write_row row a = record a { db = write_user row a.db }

module _ (platform : Platform) where
  open platform use {unicode, argon2}

  unfoldable pub verify_password_details : String → Option String → Attempt PasswordVerification
  unfolding verify_or_dummy
  verify_password_details password password_hash =
      elim (verify_or_dummy unicode argon2 password password_hash) [
        | ok verification ↦ ok verification
        | err (policy_error _) ↦ err invalid_login_credentials
        | err hash_error ↦ err (raised (unavailable "password_credential_unavailable"))
      ]

  unfoldable pub verify_password : String → Option String → Attempt Bool
  unfolding verify_password_details
  verify_password password password_hash = do
    verification ← verify_password_details password password_hash
    ok verification.verified

  unfoldable pub new_hash : List String → ℕ → String → Attempt String
  unfolding hash_new_password or_policy_response
  new_hash identity_values salt password =
      or_policy_response (hash_new_password unicode argon2 identity_values salt password)
