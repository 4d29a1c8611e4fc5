-- ===== src/Accounts/Login.antt =====
-- services/authentication.py and services/abuse_flow.py: a login. The password is verified outside the
-- transactions; what other requests do in between is `first_gap` and `second_gap`.
mod Locks
pub mod Authentic
pub mod Soundness
pub mod Unusable
pub mod Failures
unfoldable pub use Locks.*
use fastapi_templates_xtn.Prelude.{
  ℕ, String, Bool, true, false, not, ◌&&◌, ◌||◌, List, [], ◌∷◌, Option, none, some, Result, ok, err,
  ◌>>=◌, ◌>>◌, if◌then◌else◌, is_none,
}
use fastapi_templates_xtn.Errors.{value_error}
use fastapi_templates_xtn.Models.{User}
use fastapi_templates_xtn.Repository.{lock_users, user_of}
use fastapi_templates_xtn.Service.Users.{xor}
use fastapi_templates_xtn.RateLimit.{RateLimitError}
use fastapi_templates_xtn.Passwords.{policy_error, hash_error}
use fastapi_templates_xtn.Passwords.Hashing.{PasswordVerification, hash_verified_password}
use fastapi_templates_xtn.Accounts.{
  Platform, Accounts, Attempt, raised, invalid_login_credentials, rate_limited, runtime_error,
}
use fastapi_templates_xtn.Accounts.Credentials.{
  PasswordSnapshot, snapshot_from_user, load_snapshot_by_user_name, stored_hash,
  same_login_user_state, same_password_state, same_text, write_row, verify_password_details,
}

-- `IdentityAbuseFlow`: the answer of the quota, and of the check after the admission.
pub record IdentityAbuseFlow : Type 0 where
  pub quota : Result RateLimitError (Unit {0})
  pub post_admission_check : Attempt (Unit {0})

-- What runs before the callback of the flow, if there is one.
unfoldable pub admit : Option IdentityAbuseFlow → Attempt (Unit {0})
admit none = ok tt
admit (some flow) = elim flow.quota [
  | ok _ ↦ flow.post_admission_check
  | err e ↦ err (rate_limited e)
]

-- `if result is None: raise InvalidLoginCredentialsError()`
unfoldable pub or_invalid : {T : Type 0} → Attempt (Option T) → Attempt T
or_invalid (ok (some a)) = ok a
or_invalid (ok none) = err invalid_login_credentials
or_invalid (err e) = err e

unfoldable pub is_login_candidate : Bool → PasswordSnapshot → PasswordVerification → Bool
is_login_candidate require_temporary snapshot verification = not (
    not verification.verified
    || verification.used_dummy
    || is_none snapshot.password_hash
    || snapshot.is_deleted
    || not snapshot.is_active
    || (require_temporary && not snapshot.must_change_password))

module _ (platform : Platform) where
  open platform use {unicode, argon2}

  unfoldable pub replacement : Bool → ℕ → String → Attempt (Option String)
  unfolding hash_verified_password
  replacement false salt password = ok none
  replacement true salt password = elim (hash_verified_password unicode argon2 salt password) [
    | ok made ↦ ok (some made)
    | err (policy_error reason_code) ↦ err (raised (value_error reason_code))
    | err hash_error ↦ err (runtime_error "stored password hash is invalid")
  ]

  unfoldable pub after_concurrent_rehash :
      Bool
      → String
      → PasswordSnapshot
      → PasswordSnapshot
      → Accounts
      → Attempt (Option AuthenticatedPasswordUser)
  unfolding verify_password_details second_lock
  after_concurrent_rehash require_temporary password snapshot concurrent a = do
    verification ← verify_password_details platform password concurrent.password_hash
    ok (
        if not verification.verified || verification.needs_rehash || verification.used_dummy
        then none
        else second_lock require_temporary snapshot concurrent a)

  unfoldable pub finish_login :
      Bool
      → String
      → PasswordSnapshot
      → (Accounts → Accounts)
      → FirstLock × Accounts
      → Attempt (Option AuthenticatedPasswordUser) × Accounts
  unfolding after_concurrent_rehash
  finish_login require_temporary password snapshot second_gap (returned result, a) = (ok result, a)
  finish_login require_temporary password snapshot second_gap (concurrent_rehash concurrent, a) =
      let later = second_gap a in
      (after_concurrent_rehash require_temporary password snapshot concurrent later, later)

  -- The two transactions, once a new hash has been made where one is needed.
  unfoldable pub login_replaced :
      Bool
      → String
      → (Accounts → Accounts)
      → (Accounts → Accounts)
      → PasswordSnapshot
      → Attempt (Option String)
      → Accounts
      → Attempt (Option AuthenticatedPasswordUser) × Accounts
  unfolding first_lock finish_login
  login_replaced require_temporary password first_gap second_gap snapshot (err e) a = (err e, a)
  login_replaced require_temporary password first_gap second_gap snapshot (ok replacement_hash) a =
      finish_login require_temporary password snapshot second_gap
        (first_lock require_temporary snapshot replacement_hash (first_gap a))

  -- The part after the snapshot has been verified.
  unfoldable pub login_verified :
      Bool
      → String
      → ℕ
      → (Accounts → Accounts)
      → (Accounts → Accounts)
      → PasswordSnapshot
      → PasswordVerification
      → Accounts
      → Attempt (Option AuthenticatedPasswordUser) × Accounts
  unfolding is_login_candidate replacement login_replaced
  login_verified require_temporary password salt first_gap second_gap snapshot verification a =
      if is_login_candidate require_temporary snapshot verification
      then login_replaced require_temporary password first_gap second_gap snapshot
          (replacement verification.needs_rehash salt password) a
      else (ok none, a)

  unfoldable pub login_checked :
      Bool
      → String
      → ℕ
      → (Accounts → Accounts)
      → (Accounts → Accounts)
      → PasswordSnapshot
      → Attempt PasswordVerification
      → Accounts
      → Attempt (Option AuthenticatedPasswordUser) × Accounts
  unfolding login_verified
  login_checked require_temporary password salt first_gap second_gap snapshot (err e) a = (err e, a)
  login_checked require_temporary password salt first_gap second_gap snapshot (ok verification) a =
      login_verified require_temporary password salt first_gap second_gap snapshot verification a

  -- The part after the snapshot has been loaded: its hash or the dummy is verified.
  unfoldable pub login_loaded :
      Bool
      → String
      → ℕ
      → (Accounts → Accounts)
      → (Accounts → Accounts)
      → Option PasswordSnapshot
      → Accounts
      → Attempt (Option AuthenticatedPasswordUser) × Accounts
  unfolding verify_password_details login_checked
  login_loaded require_temporary password salt first_gap second_gap none a =
      (verify_password_details platform password none >>= λ _. ok none, a)
  login_loaded require_temporary password salt first_gap second_gap (some snapshot) a =
      login_checked require_temporary password salt first_gap second_gap snapshot
        (verify_password_details platform password snapshot.password_hash) a

  unfoldable pub verify_login_snapshot :
      Bool
      → String
      → String
      → ℕ
      → (Accounts → Accounts)
      → (Accounts → Accounts)
      → Accounts
      → Attempt (Option AuthenticatedPasswordUser) × Accounts
  unfolding load_snapshot_by_user_name login_loaded
  verify_login_snapshot require_temporary user_name password salt first_gap second_gap a =
      login_loaded require_temporary password salt first_gap second_gap
        (load_snapshot_by_user_name a.db user_name) a

  -- `_verify_admitted_credentials`: the callback runs once the request has been admitted.
  unfoldable pub login_admitted :
      Attempt (Unit {0})
      → String
      → String
      → ℕ
      → (Accounts → Accounts)
      → (Accounts → Accounts)
      → Accounts
      → Attempt AuthenticatedPasswordUser × Accounts
  unfolding or_invalid verify_login_snapshot
  login_admitted (err e) user_name password salt first_gap second_gap a = (err e, a)
  login_admitted (ok _) user_name password salt first_gap second_gap a =
      let (result, after) =
        verify_login_snapshot false user_name password salt first_gap second_gap a in
      (or_invalid result, after)

  unfoldable pub authenticate :
      Option IdentityAbuseFlow
      → String
      → String
      → ℕ
      → (Accounts → Accounts)
      → (Accounts → Accounts)
      → Accounts
      → Attempt AuthenticatedPasswordUser × Accounts
  unfolding admit login_admitted
  authenticate abuse_flow user_name password salt first_gap second_gap a =
      login_admitted (admit abuse_flow) user_name password salt first_gap second_gap a
