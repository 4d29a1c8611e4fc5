-- ===== src/Tests/Quotas.antt =====
-- The quota of logins in the sample store, and two keys of it.
use Prim.Native.String.{count}
use fastapi_templates_xtn.Prelude.{◌≡◌, ◌≢◌, refl, String, true, some, none, eq_iff, List, [], ◌∷◌}
use fastapi_templates_xtn.RateLimit.Checks.{
  Digests, Subject, build_rate_limit_key, check_rate_limit, inspect_rate_limit,
}
use fastapi_templates_xtn.RateLimit.Defense.{
  AbuseDefense, SecurityPolicies, canonical_client_ip, check_login_attempt,
}
use fastapi_templates_xtn.RateLimit.Quota.{quota_answer, check_login_attempt_lem}
use fastapi_templates_xtn.RateLimit.Isolation.{digest_of, check_rate_limit-elsewhere}
use fastapi_templates_xtn.RateLimit.Windows.{Holds, next_window}
use fastapi_templates_xtn.Tests.RateLimits.{
  sample_redis, sample_redis-IsRedis, two, two-IsPositive, empty_store, one_store,
}

abbrev sample_digests : Digests
sample_digests = record {
  is_identifier = λ _. true;
  utf8_length = λ s. some (count s);
  hmac_hexdigest = λ _ _. "digest";
}

abbrev sample_policies : SecurityPolicies
sample_policies = record {
  captcha_create = two;
  login = two;
  registration = two;
  temporary_complete = two;
  authenticated_read = two;
  management_read = two;
  ordinary_write = two;
  authorization_write = two;
}

abbrev sample_defense : AbuseDefense
sample_defense = record {
  policies = sample_policies;
  namespace = "app";
  key_secret = "secret";
  key_secret_bytes = 32;
}

quota_example :
    ((check_login_attempt sample_digests
        (λ s. some s)
        sample_redis
        sample_defense
        true
        1000
        "192.0.2.1"
        empty_store).0
      ≡ quota_answer two 1000 (next_window two 1000 none))
    × Holds sample_redis sample_redis-IsRedis 1000 "rl:v2:app:login:ip:digest"
        (check_login_attempt sample_digests
          (λ s. some s)
          sample_redis
          sample_defense
          true
          1000
          "192.0.2.1"
          empty_store).1
        (some (next_window two 1000 none))
unfolding build_rate_limit_key canonical_client_ip
quota_example =
    check_login_attempt_lem sample_digests (λ s. some s) sample_redis sample_redis-IsRedis
      sample_defense 1000 "192.0.2.1" "192.0.2.1" "rl:v2:app:login:ip:digest" empty_store none
      two-IsPositive refl refl tt refl

-- A digest that is the last of the parts.
abbrev last : String → List String → String
last d [] = d
last d (part ∷ parts) = last part parts

abbrev telling_digests : Digests
telling_digests = record sample_digests { hmac_hexdigest = λ _ parts. last "" parts }

abbrev first_subject : Subject
first_subject = record {
  namespace = "app";
  subject_type = "user";
  subject = "j";
  key_secret = "secret";
  key_secret_bytes = 32;
}

apart :
    digest_of telling_digests two (record first_subject { subject = "k" })
    ≢ digest_of telling_digests two first_subject
apart e = let same = (eq_iff "k" "j").1 e in cc

isolation_example :
    inspect_rate_limit sample_redis telling_digests true 2000 two
      (record first_subject { subject = "k" })
      (check_rate_limit sample_redis telling_digests true 2000 two first_subject one_store).1
    ≡ inspect_rate_limit sample_redis telling_digests true 2000 two
        (record first_subject { subject = "k" })
        one_store
isolation_example =
    check_rate_limit-elsewhere sample_redis sample_redis-IsRedis telling_digests two first_subject
      "k" apart true true 2000 2000 one_store
