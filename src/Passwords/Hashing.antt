-- ===== src/Passwords/Hashing.antt =====
-- core/security/passwords.py: the password manager. Argon2 is argon2-cffi's and enters as the functions
-- of `Argon2`; the salt that a hash draws is an argument. The bound on concurrent operations is left out.
use fastapi_templates_xtn.Prelude.{
  ℕ, String, Bool, true, false, not, ◌&&◌, ◌||◌, List, Option, none, some, Result, ok, err, ◌>>=◌,
  ◌>>◌, raise_if, or_raise, ltb, ◌==◌, nat_eq, is_none,
}
use fastapi_templates_xtn.Passwords.{
  Unicode, PasswordError, hash_error, validate_login_password_input, validate_new_password,
}

-- `extract_parameters(encoded)`
pub record Parameters : Type 0 where
  pub is_type_id : Bool
  pub version : ℕ
  pub memory_cost : ℕ
  pub time_cost : ℕ
  pub parallelism : ℕ
  pub salt_len : ℕ
  pub hash_len : ℕ

-- `PasswordHasher.verify`: true, a `VerifyMismatchError`, or another error of the library
pub data Verdict : Type 0 where
  match mismatch invalid : Verdict

-- The library, and the hasher with the parameters that the manager's constructor gives it.
pub record Argon2 : Type 0 where
  pub extract_parameters : String → Option Parameters
  pub hash : ℕ → String → String
  pub verify : String → String → Verdict
  pub check_needs_rehash : String → Bool

pub record PasswordVerification : Type 0 where
  pub verified : Bool
  pub needs_rehash : Bool
  pub used_dummy : Bool

abbrev pub argon2_memory_cost_kib : ℕ
argon2_memory_cost_kib = 65536

abbrev pub argon2_time_cost : ℕ
argon2_time_cost = 3

abbrev pub argon2_parallelism : ℕ
argon2_parallelism = 4

abbrev pub argon2_hash_length : ℕ
argon2_hash_length = 32

abbrev pub argon2_salt_length : ℕ
argon2_salt_length = 16

-- The parameters of `PasswordHasher(...)` in the constructor; the library writes version 19.
abbrev pub hasher_parameters : Parameters
hasher_parameters = record {
  is_type_id = true;
  version = 19;
  memory_cost = argon2_memory_cost_kib;
  time_cost = argon2_time_cost;
  parallelism = argon2_parallelism;
  salt_len = argon2_salt_length;
  hash_len = argon2_hash_length;
}

abbrev pub dummy_password_hash : String
dummy_password_hash =
    "$argon2id$v=19$m=65536,t=3,p=4$LXt4vIgFZ6WkGw0A38ssxg$FHhivkBqhiWg1sDCem36CG0Ob137XKSwAlPuAVbeAp8"

unfoldable pub are_unsafe : Parameters → Bool
are_unsafe p =
    not p.is_type_id
    || not (p.version == 19)
    || ltb argon2_memory_cost_kib p.memory_cost
    || ltb argon2_time_cost p.time_cost
    || ltb argon2_parallelism p.parallelism
    || ltb 64 p.salt_len
    || ltb 64 p.hash_len

-- `DUMMY_PASSWORD_HASH if password_hash is None else password_hash`
unfoldable pub hash_or_dummy : Option String → String
hash_or_dummy none = dummy_password_hash
hash_or_dummy (some password_hash) = password_hash

module _ (unicode : Unicode) (argon2 : Argon2) where
  open argon2 use {extract_parameters, hash, verify, check_needs_rehash}

  unfoldable pub hash_new_password : List String → ℕ → String → Result PasswordError String
  unfolding validate_new_password
  hash_new_password identity_values salt password = do
    validated ← validate_new_password unicode identity_values password
    ok (hash salt validated)

  unfoldable pub hash_verified_password : ℕ → String → Result PasswordError String
  unfolding validate_login_password_input
  hash_verified_password salt password = do
    validated ← validate_login_password_input unicode password
    ok (hash salt validated)

  -- The function `verify` inside `verify_or_dummy`
  unfoldable pub verify_encoded : String → String → Result PasswordError (Bool × Bool)
  verify_encoded encoded_hash validated = elim (verify encoded_hash validated) [
    | match ↦ ok (true, check_needs_rehash encoded_hash)
    | mismatch ↦ ok (false, false)
    | invalid ↦ err hash_error
  ]

  unfoldable pub verify_or_dummy :
      String → Option String → Result PasswordError PasswordVerification
  unfolding validate_login_password_input hash_or_dummy are_unsafe verify_encoded
  verify_or_dummy password password_hash = do
    validated ← validate_login_password_input unicode password
    parameters ← or_raise (extract_parameters (hash_or_dummy password_hash)) hash_error
    raise_if (are_unsafe parameters) hash_error
    (verified, needs_rehash) ← verify_encoded (hash_or_dummy password_hash) validated
    ok (record {
      verified = verified && not (is_none password_hash);
      needs_rehash = needs_rehash && not (is_none password_hash);
      used_dummy = is_none password_hash;
    })
