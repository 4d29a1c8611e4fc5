-- ===== src/RateLimit/Defense.antt =====
-- core/security/abuse_defense.py and core/security/policies.py: one quota for each business and subject.
-- `ipaddress.ip_address(value).compressed` is the function `ip_address`, none where it raises.
use fastapi_templates_xtn.Prelude.{
  ℕ, String, Bool, false, not, ◌&&◌, List, [], ◌∷◌, Option, none, some, Result, ok, err, ◌>>=◌,
  or_raise, if◌then◌else◌, leb, ◌==◌, string_eq, contains,
}
use Prim.Native.String.{◌++◌}
use fastapi_templates_xtn.Redis.{Redis}
use fastapi_templates_xtn.RateLimit.{
  RateLimitPolicy, RateLimitResult, RateLimitError, rate_limit_unavailable, rate_limit_exceeded,
  invalid_argument,
}
use fastapi_templates_xtn.RateLimit.Checks.{Digests, new_policy, check_rate_limit}

-- The limits of the settings.
pub record RateLimits : Type 0 where
  pub captcha_create_per_five_minutes : ℕ
  pub login_ip_per_five_minutes : ℕ
  pub registration_ip_per_hour : ℕ
  pub temporary_complete_ip_per_five_minutes : ℕ
  pub authenticated_read_per_minute : ℕ
  pub management_read_per_minute : ℕ
  pub ordinary_write_per_minute : ℕ
  pub authorization_write_per_minute : ℕ

pub record SecurityPolicies : Type 0 where
  pub captcha_create : RateLimitPolicy
  pub login : RateLimitPolicy
  pub registration : RateLimitPolicy
  pub temporary_complete : RateLimitPolicy
  pub authenticated_read : RateLimitPolicy
  pub management_read : RateLimitPolicy
  pub ordinary_write : RateLimitPolicy
  pub authorization_write : RateLimitPolicy

-- `AbuseDefenseService`: the policies, and the namespace and the secret of its keys.
pub record AbuseDefense : Type 0 where
  pub policies : SecurityPolicies
  pub namespace : String
  pub key_secret : String
  pub key_secret_bytes : ℕ

abbrev pub public_captcha_scenes : List String
public_captcha_scenes = "login" ∷ "register" ∷ []

abbrev pub private_captcha_scenes : List String
private_captcha_scenes = "admin_create" ∷ "admin_reset" ∷ "self_change" ∷ []

-- Whom a quota counts: the kind of the subject and its name.
pub record Counted : Type 0 where
  pub subject_type : String
  pub subject : String

module _ (digests : Digests) (ip_address : String → Option String) where
  open digests use {utf8_length}

  unfoldable pub from_settings : RateLimits → Result RateLimitError SecurityPolicies
  unfolding new_policy
  from_settings settings = do
    captcha_create ←
        new_policy digests "captcha_create" settings.captcha_create_per_five_minutes 300
    login ← new_policy digests "login" settings.login_ip_per_five_minutes 300
    registration ← new_policy digests "register" settings.registration_ip_per_hour 3600
    temporary_complete ←
        new_policy digests "temporary_complete" settings.temporary_complete_ip_per_five_minutes 300
    authenticated_read ←
        new_policy digests "authenticated_read" settings.authenticated_read_per_minute 60
    management_read ← new_policy digests "management_read" settings.management_read_per_minute 60
    ordinary_write ← new_policy digests "ordinary_write" settings.ordinary_write_per_minute 60
    authorization_write ←
        new_policy digests "authorization_write" settings.authorization_write_per_minute 60
    ok (record {
      captcha_create = captcha_create;
      login = login;
      registration = registration;
      temporary_complete = temporary_complete;
      authenticated_read = authenticated_read;
      management_read = management_read;
      ordinary_write = ordinary_write;
      authorization_write = authorization_write;
    })

  unfoldable pub canonical_client_ip : String → Result RateLimitError String
  canonical_client_ip value =
      or_raise (ip_address value) (rate_limit_unavailable "trusted client address is unavailable")

  unfoldable pub by_ip : String → Result RateLimitError Counted
  unfolding canonical_client_ip
  by_ip client_ip = do
    ip ← canonical_client_ip client_ip
    ok (record { subject_type = "ip"; subject = ip })

  -- `user_id and len(user_id.encode("utf-8")) <= 1024`
  unfoldable pub is_actor : String → Bool
  is_actor user_id =
      not (user_id == "")
      && elim (utf8_length user_id) [ none ↦ false | some bytes ↦ leb bytes 1024 ]

  unfoldable pub captcha_subject :
      String → Option String → Option String → Result RateLimitError Counted
  unfolding by_ip is_actor contains
  captcha_subject scene (some client_ip) none =
      if contains public_captcha_scenes scene
      then by_ip client_ip
      else err (invalid_argument "captcha scene and authenticated subject do not match")
  captcha_subject scene none (some user_id) =
      if contains private_captcha_scenes scene && is_actor user_id
      then ok (record { subject_type = "actor"; subject = user_id })
      else err (invalid_argument "captcha scene and authenticated subject do not match")
  captcha_subject scene _ _ =
      err (invalid_argument "captcha scene and authenticated subject do not match")

  unfoldable pub rejected_subject : Option String → Option String → Result RateLimitError Counted
  unfolding by_ip is_actor
  rejected_subject (some client_ip) none = by_ip client_ip
  rejected_subject none (some user_id) =
      if is_actor user_id
      then ok (record { subject_type = "actor"; subject = user_id })
      else err (invalid_argument "rejected captcha needs one trusted subject")
  rejected_subject _ _ = err (invalid_argument "rejected captcha needs one trusted subject")

  -- `if not result.allowed: raise RateLimitExceeded(...)`
  unfoldable pub or_exceeded :
      RateLimitPolicy → Result RateLimitError RateLimitResult → Result RateLimitError (Unit {0})
  or_exceeded policy (err e) = err e
  or_exceeded policy (ok result) =
      if result.allowed then ok tt else err (rate_limit_exceeded policy.name result)

  module _ {S : Type 0} (redis : Redis S) (service : AbuseDefense) (connected : Bool)
      (now : ℕ) where
    -- `_check`, of a subject that may have been refused before
    unfoldable pub check :
        Result RateLimitError RateLimitPolicy
        → Result RateLimitError Counted
        → S
        → Result RateLimitError (Unit {0}) × S
    unfolding check_rate_limit or_exceeded
    check (ok policy) (ok counted) s =
        let (result, after) =
          check_rate_limit redis digests connected now policy
            (record {
              namespace = service.namespace;
              subject_type = counted.subject_type;
              subject = counted.subject;
              key_secret = service.key_secret;
              key_secret_bytes = service.key_secret_bytes;
            })
            s in
        (or_exceeded policy result, after)
    check (err e) _ s = (err e, s)
    check (ok _) (err e) s = (err e, s)

    unfoldable pub check_login_attempt : String → S → Result RateLimitError (Unit {0}) × S
    unfolding check by_ip
    check_login_attempt client_ip = check (ok service.policies.login) (by_ip client_ip)

    unfoldable pub check_registration_attempt : String → S → Result RateLimitError (Unit {0}) × S
    unfolding check by_ip
    check_registration_attempt client_ip =
        check (ok service.policies.registration) (by_ip client_ip)

    unfoldable pub check_temporary_password_completion :
        String → S → Result RateLimitError (Unit {0}) × S
    unfolding check by_ip
    check_temporary_password_completion client_ip =
        check (ok service.policies.temporary_complete) (by_ip client_ip)

    -- The subject is tested before the policy of the scene is made.
    unfoldable pub check_captcha_create :
        String → Option String → Option String → S → Result RateLimitError (Unit {0}) × S
    unfolding check captcha_subject new_policy
    check_captcha_create scene client_ip user_id s =
        let quota = service.policies.captcha_create in
        elim (captcha_subject scene client_ip user_id) [
          | err e ↦ (err e, s)
          | ok counted ↦
              check
                (new_policy digests ("captcha_create_" ++ scene) quota.limit quota.window_seconds)
                (ok counted) s
        ]

    unfoldable pub check_rejected_captcha_scene :
        Option String → Option String → S → Result RateLimitError (Unit {0}) × S
    unfolding check rejected_subject new_policy
    check_rejected_captcha_scene client_ip user_id s =
        let quota = service.policies.captcha_create in
        elim (rejected_subject client_ip user_id) [
          | err e ↦ (err e, s)
          | ok counted ↦
              check (new_policy digests "captcha_rejected_scene" quota.limit quota.window_seconds)
                (ok counted) s
        ]
