-- ===== src/Accounts/Login/Authentic.antt =====
-- services/authentication.py: a row that a login may answer with, and what the tests on a row establish.
use fastapi_templates_xtn.Prelude.{
  ℕ, ◌≡◌, refl, ap, ◌∙◌, ◌⊎◌, String, Bool, true, [], ◌∷◌, Option, none, some, ok, err, arith,
  nat_eq,
}
use fastapi_templates_xtn.Models.{User}
use fastapi_templates_xtn.Repository.{find_live_user, lock_users, user_of}
use fastapi_templates_xtn.Passwords.Hashing.{match, PasswordVerification}
use fastapi_templates_xtn.Passwords.RoundTrip.{IsVerified, verify_or_dummy-IsVerified}
use fastapi_templates_xtn.Accounts.Rows.{found_row, contains_first, same_text-some}
use fastapi_templates_xtn.Accounts.{Platform, Accounts, Attempt}
use fastapi_templates_xtn.Accounts.Credentials.{
  PasswordSnapshot, snapshot_from_user, same_login_user_state, same_text, verify_password_details,
}
use fastapi_templates_xtn.Accounts.Login.{
  AuthenticatedPasswordUser, authenticated_user, returned, concurrent_rehash, lock_verified,
  is_login_candidate, or_invalid,
}

pub live_row :
    (a : Accounts) (user_id : ℕ) (u : User)
    → user_of (lock_users a.db (user_id ∷ [])) user_id ≡ some u
    → find_live_user a.db u.id ≡ some u
live_row a user_id u h =
    let (found, id) = found_row a.db (user_id ∷ []) user_id u (contains_first user_id []) h in
    ap (find_live_user a.db) id ∙ found

module _ (platform : Platform) where
  -- The answer of a login is a live and active user, with a stored hash that the password matches.
  pub record IsAuthentic (password : String) (a : Accounts) (result : AuthenticatedPasswordUser)
      : Type 0 where
    pub row : User
    pub live : find_live_user a.db result.user_id ≡ some row
    pub same : result ≡ authenticated_user row
    pub active : row.is_active ≡ true
    pub encoded_hash : String
    pub stored : row.password_hash ≡ some encoded_hash
    pub matched : platform.argon2.verify encoded_hash password ≡ match

  pub verified :
      (password : String) (stored : Option String) (v : PasswordVerification)
      → verify_password_details platform password stored ≡ ok v
      → v.verified ≡ true
      → IsVerified platform.unicode platform.argon2 password stored v.needs_rehash
  unfolding verify_password_details
  verified password stored v h yes_ =
      (verify_or_dummy-IsVerified platform.unicode platform.argon2 password stored v (ground arith)
        yes_).0

  -- What holds of the answer at the beginning of the first transaction or of the second.
  abbrev pub Lets : String → Accounts → Accounts → AuthenticatedPasswordUser → Type 0
  Lets password a b result = IsAuthentic password a result ⊎ IsAuthentic password b result

  pub or_invalid_inv :
      (m : Attempt (Option AuthenticatedPasswordUser)) (result : AuthenticatedPasswordUser)
      → or_invalid m ≡ ok result
      → m ≡ ok (some result)
  unfolding or_invalid
  or_invalid_inv (ok none) result h = cc
  or_invalid_inv (ok (some r)) result h = cc
  or_invalid_inv (err e) result h = cc

  pub is_candidate_active :
      (require_temporary : Bool) (snapshot : PasswordSnapshot) (v : PasswordVerification)
      → is_login_candidate require_temporary snapshot v ≡ true
      → (v.verified ≡ true) × (snapshot.is_active ≡ true)
  unfolding is_login_candidate
  is_candidate_active require_temporary snapshot v h = ground arith

  pub still_active :
      (u : User) (snapshot : PasswordSnapshot)
      → same_login_user_state u snapshot ≡ true
      → snapshot.is_active ≡ true
      → u.is_active ≡ true
  unfolding same_login_user_state
  still_active u snapshot h e = ground arith

  -- A locked row like the snapshot, with the hash that has been verified.
  pub authentic :
      (password : String) (snapshot : PasswordSnapshot) (rehash : Bool) (u : User) (a : Accounts)
      → IsVerified platform.unicode platform.argon2 password snapshot.password_hash rehash
      → snapshot.is_active ≡ true
      → find_live_user a.db u.id ≡ some u
      → same_login_user_state u snapshot ≡ true
      → same_text u.password_hash snapshot.password_hash ≡ true
      → IsAuthentic password a (authenticated_user u)
  authentic password snapshot rehash u a v active found same text = record {
    row = u;
    live = found;
    same = refl;
    active = still_active u snapshot same active;
    encoded_hash = v.encoded_hash;
    stored = same_text-some u.password_hash snapshot.password_hash v.encoded_hash text v.is_stored;
    matched = v.matched;
  }

  pub lock_verified_lem :
      (require_temporary : Bool) (snapshot : PasswordSnapshot) (made : Option String) (u : User)
      (a : Accounts) (result : AuthenticatedPasswordUser)
      → (lock_verified require_temporary snapshot made u a).0 ≡ returned (some result)
      → (result ≡ authenticated_user u)
        × (same_login_user_state u snapshot ≡ true)
        × (same_text u.password_hash snapshot.password_hash ≡ true)
  unfolding lock_verified
  lock_verified_lem require_temporary snapshot made u a result h = ground arith

  pub lock_verified-concurrent_rehash :
      (require_temporary : Bool) (snapshot c : PasswordSnapshot) (made : Option String) (u : User)
      (a : Accounts)
      → (lock_verified require_temporary snapshot made u a).0 ≡ concurrent_rehash c
      → (c ≡ snapshot_from_user u)
        × (same_login_user_state u snapshot ≡ true)
        × ((lock_verified require_temporary snapshot made u a).1 ≡ a)
  unfolding lock_verified
  lock_verified-concurrent_rehash require_temporary snapshot c made u a h = ground arith
