-- ===== src/Tests/Credentials.antt =====
-- Passwords, logins, changes, resets and registrations in the sample installation.
use fastapi_templates_xtn.Prelude.{
  ◌≡◌, ◌↔◌, refl, true, false, String, none, some, [], ◌∷◌, ok, contains, subset, Ensures,
}
use fastapi_templates_xtn.Passwords.{validate_new_password}
use fastapi_templates_xtn.Passwords.Hashing.{verify_or_dummy, hash_new_password}
use fastapi_templates_xtn.Passwords.Acceptance.{IsAcceptable, validate_new_password-IsAcceptable}
use fastapi_templates_xtn.Passwords.RoundTrip.{hash_new_password-verify_or_dummy}
use fastapi_templates_xtn.Accounts.Changes.{change_password}
use fastapi_templates_xtn.Accounts.Changes.Revocation.{IsChanged, change_password-IsChanged}
use fastapi_templates_xtn.Accounts.Resets.{reset_user_password, temporary}
use fastapi_templates_xtn.Accounts.Resets.Rotation.{IsReset, reset_user_password-IsReset}
use fastapi_templates_xtn.Accounts.Provisioning.{NewUser, create_user_with_default_role}
use fastapi_templates_xtn.Accounts.Registration.{register}
use fastapi_templates_xtn.Accounts.Registration.Opening.{
  IsProvisioned, create_user_with_default_role-IsProvisioned,
}
use fastapi_templates_xtn.Accounts.Registration.Completion.{IsRegistered, register-IsRegistered}
use fastapi_templates_xtn.Audit.{
  validate_audit_action, sanitize_audit_state, audit_json, require_depth, require_safe_key,
}
use fastapi_templates_xtn.Repository.Grants.{load_authority_snapshot_of}
use fastapi_templates_xtn.Domain.Snapshot.{build}
use fastapi_templates_xtn.Policy.{basic_actor_check, target_is_within_actor_authority}
use fastapi_templates_xtn.Tests.Samples.{chief}
use fastapi_templates_xtn.Tests.Sessions.{editor_context}
use fastapi_templates_xtn.Accounts.Login.{
  AuthenticatedPasswordUser, IdentityAbuseFlow, admit, authenticate,
}
use fastapi_templates_xtn.Accounts.Login.Authentic.{Lets}
use fastapi_templates_xtn.Accounts.Login.Unusable.{FailsUniformly}
use fastapi_templates_xtn.Accounts.Login.Failures.{ComparesUnusable, authenticate-fails}
use fastapi_templates_xtn.Accounts.Login.Soundness.{authenticate-IsAuthentic}
use fastapi_templates_xtn.Tests.Valid.{sample_db-IsConsistent}
use fastapi_templates_xtn.Tests.Platform.{
  sample_unicode, sample_argon2, sample_argon2-IsArgon2, sample_platform, sample_accounts,
}

abbrev tidal_wave : String
tidal_wave = "tidal wave 9"

validate_new_password_example :
    (validate_new_password sample_unicode ("editor" ∷ []) "tidal wave 9" ≡ ok "tidal wave 9")
    ↔ ((tidal_wave ≡ tidal_wave) × IsAcceptable sample_unicode ("editor" ∷ []) "tidal wave 9")
validate_new_password_example =
    validate_new_password-IsAcceptable sample_unicode ("editor" ∷ []) "tidal wave 9" "tidal wave 9"

hash_example :
    verify_or_dummy sample_unicode sample_argon2 "tidal wave 9" (some "tidal wave 9")
    ≡ ok (record { verified = true; needs_rehash = false; used_dummy = false })
unfolding hash_new_password validate_new_password
hash_example =
    hash_new_password-verify_or_dummy sample_unicode sample_argon2 sample_argon2-IsArgon2
      ("editor" ∷ []) 1 "tidal wave 9" "tidal wave 9" refl

abbrev editor_login : AuthenticatedPasswordUser
editor_login = record { user_id = 3; token_version = 5; must_change_password = false }

authenticate_example :
    Lets sample_platform "correct horse" sample_accounts sample_accounts editor_login
unfolding authenticate contains
authenticate_example =
    authenticate-IsAuthentic sample_platform none "editor" "correct horse" 1 (λ a. a) (λ a. a)
      sample_accounts editor_login refl

abbrev admitting : IdentityAbuseFlow
admitting = record { quota = ok tt; post_admission_check = ok tt }

authenticate-fails_example :
    FailsUniformly
      (ComparesUnusable sample_argon2 "editor" "wrong horse" sample_accounts sample_accounts)
      ((authenticate sample_platform
        (some admitting)
        "editor"
        "wrong horse"
        1
        (λ a. a)
        (λ a. a)
        sample_accounts).0)
unfolding admit
authenticate-fails_example =
    authenticate-fails sample_platform (some admitting) "editor" "wrong horse" 1 (λ a. a) (λ a. a)
      sample_accounts refl

change_password_example :
    IsChanged sample_platform editor_context "correct horse" "tidal wave 9" 1 950 sample_accounts
      (change_password sample_platform editor_context "correct horse" "tidal wave 9" 1 950
        (λ a. a)
        sample_accounts).1
unfolding change_password contains
change_password_example =
    change_password-IsChanged sample_platform editor_context "correct horse" "tidal wave 9" 1 950
      (λ a. a) sample_accounts true refl

reset_user_password_example :
    IsReset sample_platform chief 3 "tidal wave 9" temporary 1 950 sample_accounts
      (reset_user_password sample_platform chief 3 "tidal wave 9" temporary 1 950
        (λ a. a)
        sample_accounts).1
unfolding reset_user_password contains load_authority_snapshot_of build basic_actor_check
    target_is_within_actor_authority subset
reset_user_password_example =
    reset_user_password-IsReset sample_platform chief 3 "tidal wave 9" temporary 1 950 (λ a. a)
      sample_accounts true refl

abbrev newcomer : NewUser
newcomer = record {
  user_name = "newcomer";
  user_id = 9;
  assigned_by_user_id = none;
  request_id = "request-9";
  violation = none;
}

provision_example :
    Ensures
      (create_user_with_default_role sample_platform newcomer sample_accounts)
      (λ r. IsProvisioned sample_platform newcomer sample_accounts r.1 r.0)
provision_example =
    create_user_with_default_role-IsProvisioned sample_platform newcomer sample_accounts
      sample_db-IsConsistent.role_ids

register_example :
    IsRegistered sample_platform newcomer "tidal wave 9" 1 950 sample_accounts
      (register sample_platform none newcomer "tidal wave 9" 1 950 (λ a. a) sample_accounts).1
      9
unfolding register contains validate_audit_action sanitize_audit_state audit_json require_depth
    require_safe_key
register_example =
    register-IsRegistered sample_platform newcomer none "tidal wave 9" 1 950 (λ a. a)
      sample_accounts 9 sample_db-IsConsistent.role_ids refl
