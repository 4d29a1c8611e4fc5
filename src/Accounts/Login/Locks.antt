-- ===== src/Accounts/Login/Locks.antt =====
-- services/authentication.py: the two transactions of a login.
use fastapi_templates_xtn.Prelude.{
  ℕ, String, Bool, not, ◌&&◌, ◌||◌, [], ◌∷◌, Option, none, some, if◌then◌else◌, is_none,
}
use fastapi_templates_xtn.Models.{User}
use fastapi_templates_xtn.Repository.{lock_users, user_of}
use fastapi_templates_xtn.Service.Users.{xor}
use fastapi_templates_xtn.Accounts.{Accounts}
use fastapi_templates_xtn.Accounts.Credentials.{
  PasswordSnapshot, snapshot_from_user, same_login_user_state, same_password_state, same_text,
  write_row,
}

pub record AuthenticatedPasswordUser : Type 0 where
  pub user_id : ℕ
  pub token_version : ℕ
  pub must_change_password : Bool

abbrev pub authenticated_user : User → AuthenticatedPasswordUser
authenticated_user user = record {
  user_id = user.id;
  token_version = user.token_version;
  must_change_password = user.must_change_password;
}

-- `user.password_hash = replacement_hash`, if there is one
unfoldable pub with_replacement : Option String → User → Accounts → Accounts
with_replacement none user a = a
with_replacement (some replacement_hash) user a =
    write_row (record user { password_hash = some replacement_hash }) a

-- How the first transaction ends: a return, or the snapshot of a concurrent rehash.
pub data FirstLock : Type 0 where
  returned : Option AuthenticatedPasswordUser → FirstLock
  concurrent_rehash : PasswordSnapshot → FirstLock

unfoldable pub lock_verified :
    Bool → PasswordSnapshot → Option String → User → Accounts → FirstLock × Accounts
unfolding same_login_user_state with_replacement
lock_verified require_temporary snapshot replacement_hash user a =
    if not (same_login_user_state user snapshot)
      || xor user.must_change_password snapshot.must_change_password
      || (require_temporary && not user.must_change_password)
    then (returned none, a)
    else if same_text user.password_hash snapshot.password_hash
    then (returned (some (authenticated_user user)), with_replacement replacement_hash user a)
    else if is_none replacement_hash || is_none user.password_hash
    then (returned none, a)
    else (concurrent_rehash (snapshot_from_user user), a)

unfoldable pub lock_found :
    Bool → PasswordSnapshot → Option String → Option User → Accounts → FirstLock × Accounts
unfolding lock_verified
lock_found require_temporary snapshot replacement_hash none a = (returned none, a)
lock_found require_temporary snapshot replacement_hash (some user) a =
    lock_verified require_temporary snapshot replacement_hash user a

unfoldable pub first_lock :
    Bool → PasswordSnapshot → Option String → Accounts → FirstLock × Accounts
unfolding lock_users lock_found
first_lock require_temporary snapshot replacement_hash a =
    lock_found require_temporary snapshot replacement_hash
      (user_of (lock_users a.db (snapshot.user_id ∷ [])) snapshot.user_id) a

-- The last transaction, after the new hash has been verified.
unfoldable pub recheck_found :
    Bool → PasswordSnapshot → Option User → Option AuthenticatedPasswordUser
unfolding same_login_user_state same_password_state
recheck_found require_temporary concurrent none = none
recheck_found require_temporary concurrent (some user) =
    if not (same_login_user_state user concurrent)
      || not (same_password_state user concurrent)
      || (require_temporary && not user.must_change_password)
    then none
    else some (authenticated_user user)

unfoldable pub second_lock :
    Bool → PasswordSnapshot → PasswordSnapshot → Accounts → Option AuthenticatedPasswordUser
unfolding lock_users recheck_found
second_lock require_temporary snapshot concurrent a =
    recheck_found require_temporary concurrent
      (user_of (lock_users a.db (snapshot.user_id ∷ [])) snapshot.user_id)
