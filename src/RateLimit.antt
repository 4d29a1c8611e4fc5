-- ===== src/RateLimit.antt =====
-- core/security/rate_limit.py: one fixed window for each business and subject. The script's arguments
-- are the numbers that their texts stand for; `connected` is false where the client raises a
-- `RedisError` before the script runs.
pub mod Checks
pub mod Windows
pub mod Admissions
pub mod Isolation
pub mod Defense
pub mod Quota
use fastapi_templates_xtn.Prelude.{
  ℕ, zero, suc, ◌-◌, ◌*◌, String, Bool, true, false, not, ◌&&◌, ◌||◌, List, [], ◌∷◌, Option, none,
  some, Result, ok, err, ◌>>=◌, ◌>>◌, raise_if, if◌then◌else◌, ltb, leb, ◌==◌, ℤ, pos, negsuc,
  integer_eq,
}
use fastapi_templates_xtn.Redis.{Redis, Stored, integer, other_value}

pub record RateLimitPolicy : Type 0 where
  pub name : String
  pub limit : ℕ
  pub window_seconds : ℕ

pub record RateLimitResult : Type 0 where
  pub allowed : Bool
  pub limit : ℕ
  pub remaining : ℕ
  pub retry_after_ms : ℕ
  pub reset_after_ms : ℕ

-- `RateLimitUnavailable`, `RateLimitExceeded` and `ValueError`
pub data RateLimitError : Type 0 where
  rate_limit_unavailable : String → RateLimitError
  rate_limit_exceeded : String → RateLimitResult → RateLimitError
  invalid_argument : String → RateLimitError

-- The reply of a script: a list of integers, or an error.
pub data Reply : Type 0 where
  integers : List ℤ → Reply
  error_reply : String → Reply

-- `count < 1`
abbrev pub below_one : ℤ → Bool
below_one (pos n) = ltb n 1
below_one (negsuc n) = true

module _ {S : Type 0} (redis : Redis S) where
  open redis use {incr, expire, pttl, get}

  -- The last lines of a script: the count and the time that is left.
  unfoldable pub reply_of : ℤ → ℤ → Reply
  reply_of count remaining_ms =
      if below_one remaining_ms
      then error_reply "rate limit key has invalid expiry"
      else integers (count ∷ remaining_ms ∷ [])

  unfoldable pub after_increment : ℕ → ℕ → String → Option ℤ → S → Reply × S
  unfolding reply_of
  after_increment window now key none s = (error_reply "value is not an integer", s)
  after_increment window now key (some count) s =
      let expiring = if count == pos 1 then expire now key window s else s in
      (reply_of count (pttl now key expiring), expiring)

  -- `FIXED_WINDOW_SCRIPT`
  unfoldable pub fixed_window_script : ℕ → ℕ → ℕ → String → S → Reply × S
  unfolding after_increment
  fixed_window_script limit window now key s =
      if ltb limit 1 || ltb window 1
      then (error_reply "invalid rate limit policy", s)
      else if pttl now key s == negsuc 0
      then (error_reply "rate limit key has no expiry", s)
      else after_increment window now key (incr now key s).0 (incr now key s).1

  unfoldable pub inspected : Stored → ℤ → Reply
  unfolding reply_of
  inspected other_value remaining_ms = error_reply "rate limit key has invalid count"
  inspected (integer count) remaining_ms =
      if below_one count
      then error_reply "rate limit key has invalid count"
      else reply_of count remaining_ms

  -- `INSPECT_FIXED_WINDOW_SCRIPT`
  unfoldable pub inspect_fixed_window_script : ℕ → String → S → Reply
  unfolding inspected
  inspect_fixed_window_script now key s = elim (get now key s) [
    | none ↦ integers (pos 0 ∷ negsuc 1 ∷ [])
    | some raw_count ↦ inspected raw_count (pttl now key s)
  ]

-- `0 < ttl_ms <= policy.window_seconds * 1000`
abbrev pub is_ttl : RateLimitPolicy → ℤ → Bool
is_ttl policy (pos ttl_ms) = ltb 0 ttl_ms && leb ttl_ms (policy.window_seconds * 1000)
is_ttl policy (negsuc _) = false

-- `max(0, policy.limit - count)` for a count above zero
abbrev pub remaining_of : RateLimitPolicy → ℕ → ℕ
remaining_of policy count = policy.limit - count

abbrev pub invalid_result : RateLimitError
invalid_result = rate_limit_unavailable "rate-limit store returned an invalid result"

abbrev pub invalid_inspection : RateLimitError
invalid_inspection = rate_limit_unavailable "rate-limit store returned an invalid inspection"

-- The result for a count and a lifetime that have passed the checks.
abbrev pub result_of : RateLimitPolicy → Bool → ℕ → ℕ → RateLimitResult
result_of policy allowed count ttl_ms = record {
  allowed = allowed;
  limit = policy.limit;
  remaining = remaining_of policy count;
  retry_after_ms = if allowed then 0 else ttl_ms;
  reset_after_ms = ttl_ms;
}

unfoldable pub parse_result : RateLimitPolicy → List ℤ → Result RateLimitError RateLimitResult
parse_result policy (pos count ∷ pos ttl_ms ∷ []) = do
  raise_if (ltb count 1 || not (is_ttl policy (pos ttl_ms))) invalid_result
  ok (result_of policy (leb count policy.limit) count ttl_ms)
parse_result policy _ = err invalid_result

unfoldable pub parse_inspection : RateLimitPolicy → List ℤ → Result RateLimitError RateLimitResult
parse_inspection policy (pos zero ∷ negsuc (suc zero) ∷ []) = ok (record {
  allowed = true;
  limit = policy.limit;
  remaining = policy.limit;
  retry_after_ms = 0;
  reset_after_ms = 0;
})
parse_inspection policy (pos count ∷ pos ttl_ms ∷ []) = do
  raise_if (ltb count 1 || not (is_ttl policy (pos ttl_ms))) invalid_inspection
  ok (result_of policy (ltb count policy.limit) count ttl_ms)
parse_inspection policy _ = err invalid_inspection

-- `redis.eval(...)` raises a `RedisError` for an error reply and where it has no connection.
unfoldable pub evaluated : Bool → Reply → Result RateLimitError (List ℤ)
evaluated false reply = err (rate_limit_unavailable "rate-limit store is unavailable")
evaluated true (error_reply _) = err (rate_limit_unavailable "rate-limit store is unavailable")
evaluated true (integers values) = ok values
