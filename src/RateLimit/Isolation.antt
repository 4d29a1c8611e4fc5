-- ===== src/RateLimit/Isolation.antt =====
-- core/security/rate_limit.py: a check of one subject leaves the others' quotas alone.
use Prim.Native.String.{◌++◌}
use fastapi_templates_xtn.Prelude.{
  ℕ, ◌≡◌, ◌≢◌, refl, sym, ap, ◌∙◌, inl, inr, String, Bool, true, false, ◌||◌, [], ◌∷◌,
  append_injective, Option, none, some, ltb, ◌==◌, ok, ℤ, pos, negsuc, integer_eq, Bool-cases,
  Result-cases, arith, ◌>>=◌,
}
use fastapi_templates_xtn.Redis.{Redis, IsRedis, Stored, time_left}
use fastapi_templates_xtn.RateLimit.{
  RateLimitPolicy, fixed_window_script, inspect_fixed_window_script, after_increment, Reply,
  integers, inspected, evaluated, parse_inspection,
}
use fastapi_templates_xtn.RateLimit.Checks.{
  Digests, Subject, require_identifier, subject_bytes, build_rate_limit_key, check_key, inspect_key,
  check_rate_limit, inspect_rate_limit,
}

module _ {S : Type 0} (redis : Redis S) (laws : IsRedis redis) (now t : ℕ) (key other : String)
    (apart : other ≢ key) where
  after_increment-elsewhere :
      (window : ℕ) (count : Option ℤ) (s : S)
      → laws.entry t other (after_increment redis window now key count s).1 ≡ laws.entry t other s
  unfolding after_increment
  after_increment-elsewhere window none s = refl
  after_increment-elsewhere window (some count) s = elim (Bool-cases (count == pos 1)) [
    | inl first ↦ rw first (laws.expire_elsewhere now t key other window s apart)
    | inr later ↦ rw later refl
  ]

  fixed_window_script-elsewhere :
      (limit window : ℕ) (s : S)
      → laws.entry t other (fixed_window_script redis limit window now key s).1
        ≡ laws.entry t other s
  unfolding fixed_window_script
  fixed_window_script-elsewhere limit window s = elim (Bool-cases (ltb limit 1 || ltb window 1)) [
    | inl invalid ↦ rw invalid refl
    | inr valid ↦ elim (Bool-cases (redis.pttl now key s == negsuc 0)) [
      | inl corrupt ↦ rw (valid, corrupt) refl
      | inr sound ↦
          rw (valid, sound)
            (after_increment-elsewhere window (redis.incr now key s).0 (redis.incr now key s).1
              ∙ laws.incr_elsewhere now t key other s apart)
    ]
  ]

  check_key-elsewhere :
      (connected : Bool) (policy : RateLimitPolicy) (s : S)
      → laws.entry t other (check_key redis connected now policy key s).1 ≡ laws.entry t other s
  unfolding check_key
  check_key-elsewhere false policy s = refl
  check_key-elsewhere true policy s =
      fixed_window_script-elsewhere policy.limit policy.window_seconds s

-- The digest that the key of a subject ends with.
abbrev pub digest_of : Digests → RateLimitPolicy → Subject → String
digest_of digests policy s =
    digests.hmac_hexdigest s.key_secret
      ("rl:v2" ∷ s.namespace ∷ policy.name ∷ s.subject_type ∷ s.subject ∷ [])

module _ (digests : Digests) (policy : RateLimitPolicy) where
  -- What comes before the digest.
  abbrev stem : Subject → String → String
  stem s rest =
      "rl:v2" ++ ":" ++ s.namespace ++ ":" ++ policy.name ++ ":" ++ s.subject_type ++ ":" ++ rest

  key_lem :
      (s : Subject) (key : String)
      → build_rate_limit_key digests policy s ≡ ok key
      → key ≡ stem s (digest_of digests policy s)
  unfolding build_rate_limit_key require_identifier subject_bytes
  key_lem s key h = ground arith

  stem_injective : (s : Subject) (a b : String) → stem s a ≡ stem s b → a ≡ b
  stem_injective s a b h =
      let cut = append_injective in
      cut ":" a b (
        cut s.subject_type _ _ (
          cut ":" _ _ (
            cut policy.name _ _
              (cut ":" _ _ (cut s.namespace _ _ (cut ":" _ _ (cut "rl:v2" _ _ h)))))))

  keys_apart :
      (mine : Subject) (other key key' : String)
      → digest_of digests policy (record mine { subject = other }) ≢ digest_of digests policy mine
      → build_rate_limit_key digests policy mine ≡ ok key
      → build_rate_limit_key digests policy (record mine { subject = other }) ≡ ok key'
      → key' ≢ key
  keys_apart mine other key key' apart e e' same = apart (
      stem_injective mine _ _
        (sym (key_lem (record mine { subject = other }) key' e') ∙ same ∙ key_lem mine key e))

module _ {S : Type 0} (redis : Redis S) (laws : IsRedis redis) where
  inspect_key-entry :
      (connected : Bool) (t : ℕ) (policy : RateLimitPolicy) (key : String) (s s' : S)
      → laws.entry t key s' ≡ laws.entry t key s
      → inspect_key redis connected t policy key s' ≡ inspect_key redis connected t policy key s
  unfolding inspect_key inspect_fixed_window_script
  inspect_key-entry connected t policy key s s' h =
      let get : redis.get t key s' ≡ redis.get t key s =
        laws.get_result t key s'
        ∙ ap (λ o. elim o [ none ↦ none | some e ↦ some e.stored ]) h
        ∙ sym (laws.get_result t key s) in
      let pttl : redis.pttl t key s' ≡ redis.pttl t key s =
        laws.pttl_result t key s' ∙ ap (time_left t) h ∙ sym (laws.pttl_result t key s) in
      let reply : Option Stored → ℤ → Reply = λ raw left. elim raw [
        | none ↦ integers (pos 0 ∷ negsuc 1 ∷ [])
        | some raw_count ↦ inspected redis raw_count left
      ] in
      ap (λ r. evaluated connected r >>= parse_inspection policy)
        (ap (λ raw. reply raw (redis.pttl t key s')) get ∙ ap (reply (redis.get t key s)) pttl)

  module _ (digests : Digests) (policy : RateLimitPolicy) (mine : Subject) (other : String)
      (apart : digest_of digests policy (record mine { subject = other })
        ≢ digest_of digests policy mine) where
    -- What the key of the other subject holds at any time.
    untouched :
        (connected : Bool) (now t : ℕ) (key' : String) (s : S)
        → build_rate_limit_key digests policy (record mine { subject = other }) ≡ ok key'
        → laws.entry t key' (check_rate_limit redis digests connected now policy mine s).1
          ≡ laws.entry t key' s
    unfolding check_rate_limit
    untouched connected now t key' s e' =
        elim (Result-cases (build_rate_limit_key digests policy mine)) [
          | inl (key, e) ↦
              rw (check_rate_limit, e)
                (check_key-elsewhere redis laws now t key key'
                  (keys_apart digests policy mine other key key' apart e e') connected policy s)
          | inr (x, e) ↦ rw (check_rate_limit, e) refl
        ]

    -- On a store with Redis's documented commands, a check of one subject leaves the quota of another
    -- subject of the same kind as it was, if their HMAC digests differ: an inspection of the other answers
    -- the same at any time, whether and how the check was answered.
    pub check_rate_limit-elsewhere :
        (connected answering : Bool) (now t : ℕ) (s : S)
        → inspect_rate_limit redis digests answering t policy
            (record mine { subject = other })
            (check_rate_limit redis digests connected now policy mine s).1
          ≡ inspect_rate_limit redis digests answering t policy (record mine { subject = other }) s
    unfolding inspect_rate_limit
    check_rate_limit-elsewhere connected answering now t s =
        let theirs = build_rate_limit_key digests policy (record mine { subject = other }) in
        elim (Result-cases theirs) [
          | inl (key', e) ↦
              rw (inspect_rate_limit, e)
                (inspect_key-entry answering t policy key' s _ (untouched connected now t key' s e))
          | inr (x, e) ↦ rw (inspect_rate_limit, e) refl
        ]
