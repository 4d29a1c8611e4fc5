-- ===== src/RateLimit/Checks.antt =====
-- core/security/rate_limit.py: the keys, and the checks that run a script on one. The regular
-- expression, the UTF-8 of a text and HMAC-SHA-256 are Python's, and enter as the functions of `Digests`.
use Prim.Native.String.{◌++◌}
use fastapi_templates_xtn.Prelude.{
  ℕ, String, Bool, true, false, ◌&&◌, List, [], ◌∷◌, Option, Result, ok, err, ◌>>=◌, ◌>>◌, raise_if,
  require, or_raise, ltb, leb,
}
use fastapi_templates_xtn.Redis.{Redis}
use fastapi_templates_xtn.RateLimit.{
  RateLimitPolicy, RateLimitResult, RateLimitError, invalid_argument, Reply, fixed_window_script,
  inspect_fixed_window_script, parse_result, parse_inspection, evaluated,
}

pub record Digests : Type 0 where
  -- `_IDENTIFIER_RE.fullmatch(value) is not None`
  pub is_identifier : String → Bool
  -- `len(value.encode("utf-8"))`, none where it raises `UnicodeEncodeError`
  pub utf8_length : String → Option ℕ
  -- `hmac.new(key_secret, b"\0".join(parts), hashlib.sha256).hexdigest()`
  pub hmac_hexdigest : String → List String → String

abbrev pub rate_limit_key_prefix : String
rate_limit_key_prefix = "rl:v2"

abbrev pub max_limit : ℕ
max_limit = 1000000

abbrev pub max_window_seconds : ℕ
max_window_seconds = 2592000

abbrev pub max_subject_bytes : ℕ
max_subject_bytes = 1024

unfoldable pub require_positive_integer : ℕ → ℕ → Result RateLimitError (Unit {0})
require_positive_integer value maximum =
    require (leb 1 value && leb value maximum)
      (invalid_argument "value must be an integer between 1 and the maximum")

-- What a request for one check names: namespace, kind of subject and subject, and the bytes of the secret.
pub record Subject : Type 0 where
  pub namespace : String
  pub subject_type : String
  pub subject : String
  pub key_secret : String
  pub key_secret_bytes : ℕ

module _ (digests : Digests) where
  open digests use {is_identifier, utf8_length, hmac_hexdigest}

  unfoldable pub require_identifier : String → Result RateLimitError String
  require_identifier value = do
    require (is_identifier value)
        (invalid_argument "value must be a static lowercase ASCII identifier")
    ok value

  -- `RateLimitPolicy.__post_init__`
  unfoldable pub new_policy : String → ℕ → ℕ → Result RateLimitError RateLimitPolicy
  unfolding require_identifier require_positive_integer
  new_policy name limit window_seconds = do
    _ ← require_identifier name
    require_positive_integer limit max_limit
    require_positive_integer window_seconds max_window_seconds
    ok (record { name = name; limit = limit; window_seconds = window_seconds })

  unfoldable pub subject_bytes : String → Result RateLimitError String
  subject_bytes subject = do
    encoded ←
        or_raise (utf8_length subject)
          (invalid_argument "subject must be a non-empty bounded string")
    require (leb 1 encoded && leb encoded max_subject_bytes)
        (invalid_argument "subject must be a non-empty bounded string")
    ok subject

  unfoldable pub build_rate_limit_key : RateLimitPolicy → Subject → Result RateLimitError String
  unfolding require_identifier subject_bytes
  build_rate_limit_key policy s = do
    safe_namespace ← require_identifier s.namespace
    safe_subject_type ← require_identifier s.subject_type
    bytes ← subject_bytes s.subject
    raise_if (ltb s.key_secret_bytes 32)
        (invalid_argument "rate-limit key secret must contain at least 32 bytes")
    ok (
        rate_limit_key_prefix
        ++ ":"
        ++ safe_namespace
        ++ ":"
        ++ policy.name
        ++ ":"
        ++ safe_subject_type
        ++ ":"
        ++ hmac_hexdigest s.key_secret
            (rate_limit_key_prefix ∷ safe_namespace ∷ policy.name ∷ safe_subject_type ∷ bytes ∷ []))

module _ {S : Type 0} (redis : Redis S) where
  -- The lines after the key has been built.
  unfoldable pub check_key :
      Bool → ℕ → RateLimitPolicy → String → S → Result RateLimitError RateLimitResult × S
  unfolding fixed_window_script evaluated parse_result
  check_key false now policy key s =
      (evaluated false (Reply.integers []) >>= parse_result policy, s)
  check_key true now policy key s =
      let (reply, after) = fixed_window_script redis policy.limit policy.window_seconds now key s in
      (evaluated true reply >>= parse_result policy, after)

  unfoldable pub inspect_key :
      Bool → ℕ → RateLimitPolicy → String → S → Result RateLimitError RateLimitResult
  unfolding inspect_fixed_window_script evaluated parse_inspection
  inspect_key connected now policy key s =
      evaluated connected (inspect_fixed_window_script redis now key s) >>= parse_inspection policy

  module _ (digests : Digests) where
    unfoldable pub check_rate_limit :
        Bool → ℕ → RateLimitPolicy → Subject → S → Result RateLimitError RateLimitResult × S
    unfolding build_rate_limit_key check_key
    check_rate_limit connected now policy subject s =
        elim (build_rate_limit_key digests policy subject) [
          | err e ↦ (err e, s)
          | ok key ↦ check_key connected now policy key s
        ]

    unfoldable pub inspect_rate_limit :
        Bool → ℕ → RateLimitPolicy → Subject → S → Result RateLimitError RateLimitResult
    unfolding build_rate_limit_key inspect_key
    inspect_rate_limit connected now policy subject s = do
      key ← build_rate_limit_key digests policy subject
      inspect_key connected now policy key s
