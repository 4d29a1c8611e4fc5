-- ===== src/Accounts/Login/Unusable.antt =====
-- core/security/passwords.py and services/authentication.py: which stored hashes a verification gives up on.
use fastapi_templates_xtn.Prelude.{
  ◌≡◌, ◌≢◌, refl, sym, ap, ◌∙◌, ◌⊎◌, inl, inr, String, true, Option, none, some, Result, ok, err,
  ◌>>=◌, arith, or_raise, raise_if,
}
use fastapi_templates_xtn.Errors.{unavailable}
use fastapi_templates_xtn.Passwords.{
  Unicode, hash_error, policy_error, validate_login_password_input, encoded_length,
}
use fastapi_templates_xtn.Passwords.Hashing.{
  Argon2, Parameters, PasswordVerification, invalid, are_unsafe, hash_or_dummy, verify_encoded,
  verify_or_dummy,
}
use fastapi_templates_xtn.Passwords.RoundTrip.{unwrap}
use fastapi_templates_xtn.Accounts.{
  Platform, Attempt, AccountError, raised, invalid_login_credentials,
}
use fastapi_templates_xtn.Accounts.Credentials.{verify_password_details}

bind_err :
    {E A B : Type 0}
    → (m : Result E A) (f : A → Result E B) (e : E) → (m >>= f) ≡ err e
    → (m ≡ err e) ⊎ ((a : A) × (m ≡ ok a) × (f a ≡ err e))
bind_err (ok a) f e h = inr (a, refl, h)
bind_err (err x) f e h = inl (ground arith)

-- The library does not read the hash, or reads parameters above the bounds, or cannot compare with it.
abbrev pub IsUnusable : Argon2 → String → String → Type 0
IsUnusable argon2 encoded_hash password =
    (argon2.extract_parameters encoded_hash ≡ none)
    ⊎ ((p : Parameters) × (argon2.extract_parameters encoded_hash ≡ some p) × (are_unsafe p ≡ true))
    ⊎ (argon2.verify encoded_hash password ≡ invalid)

module _ (unicode : Unicode) (argon2 : Argon2) where
  only_policy_error :
      (password : String) → validate_login_password_input unicode password ≢ err hash_error
  unfolding validate_login_password_input encoded_length
  only_policy_error password h = ground arith

  not_compared :
      (s password : String)
      → verify_encoded unicode argon2 s password ≡ err hash_error
      → argon2.verify s password ≡ invalid
  unfolding verify_encoded
  not_compared s password h = ground arith

  unusable :
      (password : String) (stored : Option String)
      → verify_or_dummy unicode argon2 password stored ≡ err hash_error
      → IsUnusable argon2 (hash_or_dummy stored) password
  unfolding verify_or_dummy
  unusable password stored h =
      let s = hash_or_dummy stored in
      elim (bind_err (validate_login_password_input unicode password) _ hash_error h) [
        | inl e ↦ absurd (only_policy_error password e)
        | inr (validated, e, h1) ↦
            elim (bind_err (or_raise (argon2.extract_parameters s) hash_error) _ hash_error h1) [
              | inl e1 ↦ inl (ground arith)
              | inr (p, e1, h2) ↦
                  elim (bind_err (raise_if (are_unsafe p) hash_error) _ hash_error h2) [
                    | inl e2 ↦ inr (inl (p, ground arith, ground arith))
                    | inr (u, e2, h3) ↦
                        elim (bind_err (verify_encoded unicode argon2 s validated) _ hash_error
                          h3) [
                            | inl e3 ↦ inr (
                                inr (
                                  ap (argon2.verify s)
                                    (sym (unwrap unicode argon2 password validated e))
                                  ∙ not_compared s validated e3))
                            | inr (answer, e3, h4) ↦ absurd (cc)
                          ]
                  ]
            ]
      ]

-- One answer for every refusal, and another one only if `P` holds.
abbrev pub IsUniform : Type 0 → AccountError → Type 0
IsUniform P e =
    (e ≡ invalid_login_credentials)
    ⊎ (P × (e ≡ raised (unavailable "password_credential_unavailable")))

-- If the computation fails, it fails with a uniform error.
abbrev pub FailsUniformly : {T : Type 0} → Type 0 → Attempt T → Type 0
FailsUniformly P (ok a) = Unit
FailsUniformly P (err e) = IsUniform P e

pub fails-map :
    {T P Q : Type 0} → (P → Q) → (m : Attempt T) → FailsUniformly P m → FailsUniformly Q m
fails-map f (ok a) h = tt
fails-map f (err e) (inl refused) = inl refused
fails-map f (err e) (inr (p, same)) = inr (f p, same)

bind-fails :
    {T : Type 0}
    → (P : Type 0) (next : PasswordVerification → T) (m : Attempt PasswordVerification)
    → FailsUniformly P m
    → FailsUniformly P (m >>= λ v. ok (next v))
bind-fails P next (ok v) h = tt
bind-fails P next (err e) h = h

module _ (platform : Platform) where
  pub details_fail :
      (password : String) (stored : Option String)
      → FailsUniformly
          (IsUnusable platform.argon2 (hash_or_dummy stored) password)
          (verify_password_details platform password stored)
  unfolding verify_password_details
  details_fail password stored =
      by_result (verify_or_dummy platform.unicode platform.argon2 password stored) refl
    where
      by_result :
          (r : Result _ PasswordVerification)
          → verify_or_dummy platform.unicode platform.argon2 password stored ≡ r
          → FailsUniformly
              (IsUnusable platform.argon2 (hash_or_dummy stored) password)
              (verify_password_details platform password stored)
      by_result (ok v) e = rw (FailsUniformly, verify_password_details, e) tt
      by_result (err (policy_error m)) e =
          rw (FailsUniformly, verify_password_details, e) (inl refl)
      by_result (err hash_error) e =
          rw (FailsUniformly, verify_password_details, e)
            (inr (unusable platform.unicode platform.argon2 password stored e, refl))

  pub details_bind :
      {T : Type 0}
      → (password : String) (stored : Option String) (next : PasswordVerification → T)
      → FailsUniformly
          (IsUnusable platform.argon2 (hash_or_dummy stored) password)
          (verify_password_details platform password stored >>= λ v. ok (next v))
  details_bind password stored next =
      bind-fails _ next (verify_password_details platform password stored)
        (details_fail password stored)
