-- ===== src/RateLimit/Windows.antt =====
-- core/security/rate_limit.py: the script as a counter with a deadline, an abstract machine that the
-- commands of Redis implement.
use fastapi_templates_xtn.Prelude.{
  ℕ, ◌+◌, ◌-◌, ◌*◌, ◌≤◌, ◌<◌, ◌≡◌, refl, sym, ap, ◌∙◌, subst, inl, inr, String, true, false, [],
  ◌∷◌, Option, none, some, ok, if◌then◌else◌, ltb, leb, pos, arith, Bool-cases, nat_beq, integer_eq,
}
use fastapi_templates_xtn.Redis.{Redis, IsRedis, Entry, integer, expiring, incremented, time_left}
use fastapi_templates_xtn.RateLimit.{
  RateLimitPolicy, RateLimitResult, integers, result_of, fixed_window_script, after_increment,
  reply_of, parse_result, evaluated,
}
use fastapi_templates_xtn.RateLimit.Checks.{check_key}

-- The requests that have been counted, and when the window ends; none before the first request.
pub record Window : Type 0 where
  pub count : ℕ
  pub ends : ℕ

abbrev pub window_ms : RateLimitPolicy → ℕ
window_ms policy = policy.window_seconds * 1000

-- The window that a request at a time falls into: an ended one is none.
abbrev pub current : ℕ → Option Window → Option Window
current now none = none
current now (some w) = if ltb now w.ends then some w else none

abbrev pub counted : RateLimitPolicy → ℕ → Option Window → Window
counted policy now none = record { count = 1; ends = now + window_ms policy }
counted policy now (some w) = record w { count = w.count + 1 }

-- A request at a time: the window after it, and what it is told.
abbrev pub next_window : RateLimitPolicy → ℕ → Option Window → Window
next_window policy now w = counted policy now (current now w)

abbrev pub admission : RateLimitPolicy → ℕ → Window → RateLimitResult
admission policy now w = result_of policy (leb w.count policy.limit) w.count (w.ends - now)

-- A window that a check of the policy has left behind at some time before.
abbrev pub IsWindow : RateLimitPolicy → ℕ → Option Window → Type 0
IsWindow policy now none = Unit
IsWindow policy now (some w) = (1 ≤ w.count) × (w.ends ≤ now + window_ms policy)

abbrev pub IsPositive : RateLimitPolicy → Type 0
IsPositive policy = (1 ≤ policy.limit) × (1 ≤ policy.window_seconds)

abbrev pub entry_of : Option Window → Option Entry
entry_of none = none
entry_of (some w) = some (record { stored = integer (pos w.count); deadline = some w.ends })

pub ltb-true : (a b : ℕ) → a < b → ltb a b ≡ true
ltb-true a b h = ground arith

ltb-false : (a b : ℕ) → b ≤ a → ltb a b ≡ false
ltb-false a b h = ground arith

module _ {S : Type 0} (redis : Redis S) (laws : IsRedis redis) where
  -- The key holds the window, as far as it has not ended.
  abbrev pub Holds : ℕ → String → S → Option Window → Type 0
  Holds now key s w = laws.entry now key s ≡ entry_of (current now w)

  reply_of-pos :
      (count ttl : ℕ)
      → 1 ≤ ttl
      → reply_of redis (pos count) (pos ttl) ≡ integers (pos count ∷ pos ttl ∷ [])
  unfolding reply_of
  reply_of-pos count ttl h = rw (ltb-false ttl 1 h)

  -- What the script answers and leaves behind for an absent key.
  script-fresh :
      (policy : RateLimitPolicy) (now : ℕ) (key : String) (s : S)
      → IsPositive policy
      → laws.entry now key s ≡ none
      → let after = redis.expire now key policy.window_seconds (redis.incr now key s).1 in
        (fixed_window_script redis policy.limit policy.window_seconds now key s
          ≡ (integers (pos 1 ∷ pos (window_ms policy) ∷ []), after))
        × (laws.entry now key after
            ≡ some (record { stored = integer (pos 1); deadline = some (now + window_ms policy) }))
  unfolding fixed_window_script after_increment
  script-fresh policy now key s (l, w) h =
      let a = laws.pttl_result now key s ∙ ap (time_left now) h in
      let b = laws.incr_result now key s ∙ ap (λ e. (incremented e).0) h in
      let c = laws.incr_entry now key s ∙ ap (λ e. (incremented e).1) h in
      let s1 = (redis.incr now key s).1 in
      let after = redis.expire now key policy.window_seconds s1 in
      let lives : ltb now (now + policy.window_seconds * 1000) ≡ true = ground arith in
      let d : laws.entry now key after
          ≡ some (record { stored = integer (pos 1); deadline = some (now + window_ms policy) }) =
        laws.expire_entry now key policy.window_seconds s1
        ∙ ap (expiring now policy.window_seconds) c
        ∙ rw lives refl in
      let left : redis.pttl now key after ≡ pos (window_ms policy) =
        laws.pttl_result now key after ∙ ap (time_left now) d ∙ ap pos (ground arith) in
      (
        rw (a, b, ltb-false policy.limit 1 l, ltb-false policy.window_seconds 1 w)
            (ap (λ r. (r, after))
              (ap (reply_of redis (pos 1)) left
                ∙ reply_of-pos 1 (window_ms policy) (ground arith))),
        d,
      )

  -- The same for a key with a window that has not ended.
  script-counted :
      (policy : RateLimitPolicy) (now : ℕ) (key : String) (s : S) (w : Window)
      → IsPositive policy
      → 1 ≤ w.count
      → now < w.ends
      → laws.entry now key s ≡ entry_of (some w)
      → let after = (redis.incr now key s).1 in
        (fixed_window_script redis policy.limit policy.window_seconds now key s
          ≡ (integers (pos (w.count + 1) ∷ pos (w.ends - now) ∷ []), after))
        × (laws.entry now key after ≡ entry_of (some (record w { count = w.count + 1 })))
  unfolding fixed_window_script after_increment
  script-counted policy now key s w (l, p) some_ lives h =
      let a = laws.pttl_result now key s ∙ ap (time_left now) h in
      let b = laws.incr_result now key s ∙ ap (λ e. (incremented e).0) h in
      let c = laws.incr_entry now key s ∙ ap (λ e. (incremented e).1) h in
      let after = (redis.incr now key s).1 in
      let later : nat_beq (w.count + 1) 1 ≡ false = ground arith in
      let left = laws.pttl_result now key after ∙ ap (time_left now) c in
      (
        rw (a, b, ltb-false policy.limit 1 l, ltb-false policy.window_seconds 1 p, later)
            (ap (λ r. (r, after))
              (ap (reply_of redis (pos (w.count + 1))) left
                ∙ reply_of-pos (w.count + 1) (w.ends - now) (ground arith))),
        c,
      )

parse_result-admission :
    (policy : RateLimitPolicy) (now : ℕ) (w : Window)
    → 1 ≤ w.count
    → now < w.ends
    → w.ends ≤ now + window_ms policy
    → parse_result policy (pos w.count ∷ pos (w.ends - now) ∷ []) ≡ ok (admission policy now w)
unfolding parse_result
parse_result-admission policy now w some_ lives short =
    let a : ltb w.count 1 ≡ false = ground arith in
    let b : ltb 0 (w.ends - now) ≡ true = ground arith in
    let c : leb (w.ends - now) (policy.window_seconds * 1000) ≡ true = ground arith in
    rw (a, b, c) refl

module _ {S : Type 0} (redis : Redis S) (laws : IsRedis redis) (policy : RateLimitPolicy)
    (positive : IsPositive policy) where
  abbrev pub After : ℕ → String → S → Window → Type 0
  After now key s w =
      let after = check_key redis true now policy key s in
      (after.0 ≡ ok (admission policy now w)) × Holds redis laws now key after.1 (some w)

  one_step :
      (now : ℕ) (key : String) (s after : S) (w : Window)
      → 1 ≤ w.count
      → now < w.ends
      → w.ends ≤ now + window_ms policy
      → fixed_window_script redis policy.limit policy.window_seconds now key s
        ≡ (integers (pos w.count ∷ pos (w.ends - now) ∷ []), after)
      → laws.entry now key after ≡ entry_of (some w)
      → After now key s w
  unfolding check_key evaluated
  one_step now key s after w some_ lives short script holds =
      let answer = parse_result-admission policy now w some_ lives short in
      rw (script, answer, ltb-true now w.ends lives) (refl, holds)

  starts :
      (now : ℕ) (key : String) (s : S)
      → laws.entry now key s ≡ none
      → After now key s (counted policy now none)
  starts now key s h =
      let (script, holds) = script-fresh redis laws policy now key s positive h in
      let w = counted policy now none in
      let p = positive.1 in
      let left : w.ends - now ≡ window_ms policy = ground arith in
      let after = redis.expire now key policy.window_seconds (redis.incr now key s).1 in
      one_step now key s after w (ground arith) (ground arith) (ground arith)
        (script ∙ ap (λ t. (integers (pos 1 ∷ pos t ∷ []), after)) (sym left)) holds

  continues :
      (now : ℕ) (key : String) (s : S) (w : Window)
      → 1 ≤ w.count
      → now < w.ends
      → w.ends ≤ now + window_ms policy
      → laws.entry now key s ≡ entry_of (some w)
      → After now key s (counted policy now (some w))
  continues now key s w some_ lives short h =
      let (script, holds) = script-counted redis laws policy now key s w positive some_ lives h in
      one_step now key s _ (counted policy now (some w)) (ground arith) lives short script holds

  -- On a store with Redis's documented commands, for a policy with a positive limit and length, and for a
  -- key that holds a window of the policy or nothing, a check is one step of the abstract counter: it
  -- answers by the window that the request falls into and leaves that window behind.
  pub check_key-next_window :
      (now : ℕ) (key : String) (s : S) (w : Option Window)
      → IsWindow policy now w
      → Holds redis laws now key s w
      → After now key s (next_window policy now w)
  check_key-next_window now key s none valid h = starts now key s h
  check_key-next_window now key s (some w) valid h = elim (Bool-cases (ltb now w.ends)) [
    | inl lives ↦
        let cur : current now (some w) ≡ some w = rw lives refl in
        subst (λ c. After now key s (counted policy now c)) (sym cur)
          (continues now key s w valid.0 (ground arith) valid.1 (h ∙ ap entry_of cur))
    | inr ended ↦
        let cur : current now (some w) ≡ none = rw ended refl in
        subst (λ c. After now key s (counted policy now c)) (sym cur)
          (starts now key s (h ∙ ap entry_of cur))
  ]
