-- ===== src/Passwords/RoundTrip.antt =====
-- core/security/passwords.py: a hash that the manager made verifies the password that it was made from,
-- and what a successful verification has compared.
use fastapi_templates_xtn.Prelude.{
  ℕ, ◌≡◌, refl, sym, ap, ◌∙◌, String, Bool, true, false, ◌&&◌, List, Option, none, some, ok,
  raise_if, or_raise, bind_inv, arith,
}
use fastapi_templates_xtn.Passwords.{
  Unicode, hash_error, validate_login_password_input, validate_new_password, encoded_length,
}
use fastapi_templates_xtn.Passwords.Acceptance.{validate_new_password-IsAcceptable}
use fastapi_templates_xtn.Passwords.Hashing.{
  Argon2, Parameters, PasswordVerification, match, are_unsafe, hasher_parameters, hash_or_dummy,
  hash_new_password, verify_encoded, verify_or_dummy,
}

-- argon2-cffi: a hash carries the parameters of its hasher and the version 1.3 (19), `verify` accepts the
-- password that a hash was made from, and `check_needs_rehash` asks whether the parameters are the hasher's.
pub record IsArgon2 (argon2 : Argon2) (hasher : Parameters) : Type 0 where
  pub extracted :
      (salt : ℕ) (password : String)
      → argon2.extract_parameters (argon2.hash salt password) ≡ some hasher
  pub matches :
      (salt : ℕ) (password : String) → argon2.verify (argon2.hash salt password) password ≡ match
  pub up_to_date :
      (encoded_hash : String)
      → argon2.extract_parameters encoded_hash ≡ some hasher
      → argon2.check_needs_rehash encoded_hash ≡ false

-- The bounds of the verification let the hasher's own parameters pass.
hasher_parameters-safe : are_unsafe hasher_parameters ≡ false
unfolding are_unsafe
hasher_parameters-safe = refl

module _ (unicode : Unicode) (argon2 : Argon2) where
  -- A verification that succeeds has compared the password with the stored hash, never with the dummy.
  pub record IsVerified (password : String) (stored : Option String) (needs_rehash : Bool)
      : Type 0 where
    pub encoded_hash : String
    pub is_stored : stored ≡ some encoded_hash
    pub matched : argon2.verify encoded_hash password ≡ match
    pub rehash : needs_rehash ≡ argon2.check_needs_rehash encoded_hash
    pub parameters : Parameters
    pub extracted : argon2.extract_parameters encoded_hash ≡ some parameters
    pub safe : are_unsafe parameters ≡ false

  verdict :
      (s password : String) (answer : Bool × Bool)
      → verify_encoded unicode argon2 s password ≡ ok answer
      → answer.0 ≡ true
      → (argon2.verify s password ≡ match) × (answer.1 ≡ argon2.check_needs_rehash s)
  unfolding verify_encoded
  verdict s password answer h yes_ = ground arith

  compared :
      (s password : String)
      → argon2.verify s password ≡ match
      → verify_encoded unicode argon2 s password ≡ ok (true, argon2.check_needs_rehash s)
  unfolding verify_encoded
  compared s password h = rw (verify_encoded, h)

  validated_input :
      (identity_values : List String) (password accepted : String)
      → validate_new_password unicode identity_values password ≡ ok accepted
      → validate_login_password_input unicode password ≡ ok password
  unfolding validate_new_password validate_login_password_input encoded_length
  validated_input identity_values password accepted h = ground arith

  pub unwrap :
      (password accepted : String)
      → validate_login_password_input unicode password ≡ ok accepted
      → accepted ≡ password
  unfolding validate_login_password_input encoded_length
  unwrap password accepted h = ground arith

  pub verify_or_dummy-IsVerified :
      (password : String) (stored : Option String) (v : PasswordVerification)
      → verify_or_dummy unicode argon2 password stored ≡ ok v
      → v.verified ≡ true
      → (IsVerified password stored v.needs_rehash) × (v.used_dummy ≡ false)
  unfolding verify_or_dummy hash_or_dummy
  verify_or_dummy-IsVerified password none v h yes_ =
      let (validated, e, h1) = bind_inv (validate_login_password_input unicode password) _ h in
      absurd (ground arith)
  verify_or_dummy-IsVerified password (some s) v h yes_ =
      let (validated, e, h1) = bind_inv (validate_login_password_input unicode password) _ h in
      let same = unwrap password validated e in
      let (parameters, extracted, h2) =
        bind_inv (or_raise (argon2.extract_parameters s) hash_error) _ h1 in
      let (_, safe, h3) = bind_inv (raise_if (are_unsafe parameters) hash_error) _ h2 in
      let (answer, compared, h4) = bind_inv (verify_encoded unicode argon2 s validated) _ h3 in
      let done : v.verified ≡ (answer.0 && true) = ground arith in
      let (matched, rehash) = verdict s validated answer compared (ground arith) in
      (
        record {
          encoded_hash = s;
          is_stored = refl;
          matched = ap (argon2.verify s) (sym same) ∙ matched;
          rehash = ground arith;
          parameters = parameters;
          extracted = ground arith;
          safe = ground arith;
        },
        ground arith,
      )

  -- Where the library hashes with the manager's parameters, a hash that was made for a new password passes
  -- the bounds of the verification and verifies that password, not as the dummy and without a rehash.
  pub hash_new_password-verify_or_dummy :
      IsArgon2 argon2 hasher_parameters
      → (identity_values : List String) (salt : ℕ) (password made : String)
      → hash_new_password unicode argon2 identity_values salt password ≡ ok made
      → verify_or_dummy unicode argon2 password (some made)
        ≡ ok (record { verified = true; needs_rehash = false; used_dummy = false })
  unfolding verify_or_dummy hash_new_password hash_or_dummy
  hash_new_password-verify_or_dummy laws identity_values salt password made h =
      let (accepted, e, h1) =
        bind_inv (validate_new_password unicode identity_values password) _ h in
      let same =
        ((validate_new_password-IsAcceptable unicode identity_values password accepted).0 e).0 in
      let extracted = laws.extracted salt accepted in
      let is_made : argon2.hash salt accepted ≡ made = ground arith in
      rw (
        validated_input identity_values password accepted e,
        sym is_made,
        extracted,
        hasher_parameters-safe,
        same,
        compared (argon2.hash salt password) password (laws.matches salt password),
        laws.up_to_date (argon2.hash salt password) (laws.extracted salt password),
      )
