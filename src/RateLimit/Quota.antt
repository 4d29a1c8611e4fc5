-- ===== src/RateLimit/Quota.antt =====
-- core/security/abuse_defense.py: when a business refuses a request for its quota.
use fastapi_templates_xtn.Prelude.{
  ℕ, ◌≡◌, refl, sym, ap, ◌∙◌, subst, String, true, Option, some, ok, err, Result, if◌then◌else◌,
  leb,
}
use fastapi_templates_xtn.Redis.{Redis, IsRedis}
use fastapi_templates_xtn.RateLimit.{RateLimitPolicy, RateLimitError, rate_limit_exceeded}
use fastapi_templates_xtn.RateLimit.Checks.{
  check_key, Digests, Subject, build_rate_limit_key, check_rate_limit,
}
use fastapi_templates_xtn.RateLimit.Defense.{
  AbuseDefense, Counted, by_ip, canonical_client_ip, check, or_exceeded, check_login_attempt,
}
use fastapi_templates_xtn.RateLimit.Windows.{
  Window, IsWindow, IsPositive, Holds, next_window, admission, check_key-next_window,
}

-- The subject of a login from an address.
abbrev pub login_subject : AbuseDefense → String → Subject
login_subject service ip = record {
  namespace = service.namespace;
  subject_type = "ip";
  subject = ip;
  key_secret = service.key_secret;
  key_secret_bytes = service.key_secret_bytes;
}

-- The answer of a quota for a window that has just counted the request.
abbrev pub quota_answer : RateLimitPolicy → ℕ → Window → Result RateLimitError (Unit {0})
quota_answer policy now w =
    if leb w.count policy.limit
    then ok tt
    else err (rate_limit_exceeded policy.name (admission policy now w))

module _ (digests : Digests) (ip_address : String → Option String) {S : Type 0} (redis : Redis S)
    (laws : IsRedis redis) (service : AbuseDefense) where
  abbrev Answers : ℕ → String → S → Option Window → Result RateLimitError Counted → Type 0
  Answers now key s w counted =
      let after =
        check digests ip_address redis service true now (ok service.policies.login) counted s in
      (after.0 ≡ quota_answer service.policies.login now (next_window service.policies.login now w))
      × Holds redis laws now key after.1 (some (next_window service.policies.login now w))

  answers :
      (now : ℕ) (ip key : String) (s : S) (w : Option Window)
      → IsPositive service.policies.login
      → build_rate_limit_key digests service.policies.login (login_subject service ip) ≡ ok key
      → IsWindow service.policies.login now w
      → Holds redis laws now key s w
      → Answers now key s w (ok (record { subject_type = "ip"; subject = ip }))
  unfolding check check_rate_limit or_exceeded
  answers now ip key s w positive built valid h =
      let (answer, holds) =
        check_key-next_window redis laws service.policies.login positive now key s w valid h in
      let policy = service.policies.login in
      let whole : check_rate_limit redis digests true now policy (login_subject service ip) s
          ≡ check_key redis true now policy key s =
        rw (check_rate_limit, built) refl in
      (
        ap (λ x. or_exceeded digests ip_address policy x.0) whole
            ∙ ap (or_exceeded digests ip_address policy) answer,
        ap (λ x. laws.entry now key x.1) whole ∙ holds,
      )

  -- On a store with Redis's documented commands, for a login quota with a positive limit and length, an
  -- address with a canonical form, and a key of that address that holds a window of the quota or nothing: a
  -- login attempt is refused exactly if the window it falls into has then counted more than the limit, with
  -- the quota's name and what is left of the window, and it is counted either way.
  pub check_login_attempt_lem :
      (now : ℕ) (client_ip ip key : String) (s : S) (w : Option Window)
      → IsPositive service.policies.login
      → canonical_client_ip digests ip_address client_ip ≡ ok ip
      → build_rate_limit_key digests service.policies.login (login_subject service ip) ≡ ok key
      → IsWindow service.policies.login now w
      → Holds redis laws now key s w
      → let after = check_login_attempt digests ip_address redis service true now client_ip s in
        (after.0
          ≡ quota_answer service.policies.login now (next_window service.policies.login now w))
        × Holds redis laws now key after.1 (some (next_window service.policies.login now w))
  unfolding check_login_attempt by_ip
  check_login_attempt_lem now client_ip ip key s w positive canonical built valid h =
      let found : by_ip digests ip_address client_ip
          ≡ ok (record { subject_type = "ip"; subject = ip }) =
        rw (by_ip, canonical) refl in
      subst (Answers now key s w) (sym found) (answers now ip key s w positive built valid h)
