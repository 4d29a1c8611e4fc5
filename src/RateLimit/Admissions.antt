-- ===== src/RateLimit/Admissions.antt =====
-- core/security/rate_limit.py: what a series of checks admits, and what an inspection says of the next.
use fastapi_templates_xtn.Prelude.{
  ℕ, zero, suc, ◌+◌, ◌-◌, ◌*◌, ◌≤◌, ◌<◌, ◌≡◌, refl, ap, ◌∙◌, subst, inl, inr, String, Bool, true,
  false, List, [], ◌∷◌, Option, none, some, Result, ok, err, if◌then◌else◌, ltb, leb, pos, arith,
  Bool-cases, length, All,
}
use fastapi_templates_xtn.Redis.{Redis, IsRedis, alive, time_left}
use fastapi_templates_xtn.RateLimit.{
  RateLimitPolicy, RateLimitResult, RateLimitError, integers, result_of,
  inspect_fixed_window_script, inspected, reply_of, parse_inspection, evaluated,
}
use fastapi_templates_xtn.RateLimit.Checks.{check_key, inspect_key}
use fastapi_templates_xtn.RateLimit.Windows.{
  Window, window_ms, current, counted, IsWindow, IsPositive, entry_of, Holds, After, ltb-true,
  check_key-next_window,
}

abbrev pub is_admitted : Result RateLimitError RateLimitResult → Bool
is_admitted (ok r) = r.allowed
is_admitted (err _) = false

-- The times of a series of checks: none before the one before it.
abbrev pub Ordered : ℕ → List ℕ → Type 0
Ordered now [] = Unit
Ordered now (t ∷ ts) = (now ≤ t) × Ordered t ts

abbrev pub min_ : ℕ → ℕ → ℕ
min_ a b = if leb a b then a else b

module _ {S : Type 0} (redis : Redis S) where
  -- How many of the checks at these times are admitted.
  unfoldable pub admitted : RateLimitPolicy → String → List ℕ → S → ℕ
  unfolding check_key
  admitted policy key [] s = 0
  admitted policy key (t ∷ ts) s =
      let (answer, after) = check_key redis true t policy key s in
      let rest = admitted policy key ts after in if is_admitted answer then suc rest else rest

module _ {S : Type 0} (redis : Redis S) (laws : IsRedis redis) (policy : RateLimitPolicy)
    (positive : IsPositive policy) where
  later :
      (now t : ℕ) (key : String) (s : S) (w : Option Window)
      → now ≤ t
      → Holds redis laws now key s w
      → Holds redis laws t key s w
  later now t key s w order h = laws.passing now t key s order ∙ ap (alive t) h ∙ stays w
    where
      stays : (v : Option Window) → alive t (entry_of (current now v)) ≡ entry_of (current t v)
      stays none = refl
      stays (some v) = elim (Bool-cases (ltb now v.ends)) [
        | inl lives ↦ rw lives (elim (Bool-cases (ltb t v.ends)) [
          | inl still ↦ rw still refl
          | inr ended ↦ rw ended refl
        ])
        | inr ended ↦ let over : ltb t v.ends ≡ false = ground arith in rw (ended, over) refl
      ]

  within :
      (now : ℕ) (key : String) (s : S) (w : Window) (ts : List ℕ)
      → IsWindow policy now (some w)
      → Holds redis laws now key s (some w)
      → Ordered now ts
      → All (λ t. t < w.ends) ts
      → admitted redis policy key ts s + min_ w.count policy.limit
        ≡ min_ (w.count + length ts) policy.limit
  unfolding admitted
  within now key s w [] valid h order before = ground arith
  within now key s w (t ∷ ts) valid h order before =
      let lives = ltb-true t w.ends before.0 in
      let cur : current t (some w) ≡ some w = rw lives refl in
      let (answer, after) =
        subst (λ c. After redis laws policy positive t key s (counted policy t c)) cur
          (check_key-next_window redis laws policy positive t key s (some w) (ground arith)
            (later now t key s (some w) order.0 h)) in
      let rest =
        within t key _ (record w { count = w.count + 1 }) ts (ground arith) after order.1
          before.1 in
      let step : (if leb (w.count + 1) policy.limit then 1 else 0) + min_ w.count policy.limit
          ≡ min_ (w.count + 1) policy.limit =
        ground arith in
      rw answer (ground arith)

  -- On a store with Redis's documented commands, for a policy with a positive limit and length: of a check
  -- of an absent key and the checks after it that fall into its window, in order of time, exactly as many are
  -- admitted as the limit, or all of them where there are fewer.
  pub admitted_lem :
      (now : ℕ) (key : String) (s : S) (ts : List ℕ)
      → laws.entry now key s ≡ none
      → Ordered now ts
      → All (λ t. t < now + window_ms policy) ts
      → admitted redis policy key (now ∷ ts) s ≡ min_ (1 + length ts) policy.limit
  unfolding admitted
  admitted_lem now key s ts absent order before =
      let p = positive.1 in
      let w = counted policy now none in
      let (answer, after) =
        check_key-next_window redis laws policy positive now key s none tt absent in
      let rest = within now key _ w ts (ground arith) after order before in
      let l = positive.0 in rw answer (ground arith)

  -- On a store with Redis's documented commands, for a policy with a positive limit and length: a check at or
  -- after the end of the window that a key holds is admitted with a new window, whatever had been counted.
  pub check_key-ended :
      (now t : ℕ) (key : String) (s : S) (w : Window)
      → IsWindow policy now (some w)
      → Holds redis laws now key s (some w)
      → now ≤ t
      → w.ends ≤ t
      → (check_key redis true t policy key s).0 ≡ ok (result_of policy true 1 (window_ms policy))
  check_key-ended now t key s w valid h order ended =
      let over : ltb t w.ends ≡ false = ground arith in
      let none_now : current t (some w) ≡ none = rw over refl in
      let gone : laws.entry t key s ≡ none =
        later now t key s (some w) order h ∙ ap entry_of none_now in
      let (answer, after) = check_key-next_window redis laws policy positive t key s none tt gone in
      let l : leb 1 policy.limit ≡ true = ground arith in
      let left : (t + window_ms policy) - t ≡ window_ms policy = ground arith in
      answer ∙ rw (l, left) refl

  parse_inspection_lem :
      (count ttl_ms : ℕ)
      → 1 ≤ count
      → 1 ≤ ttl_ms
      → ttl_ms ≤ window_ms policy
      → parse_inspection policy (pos count ∷ pos ttl_ms ∷ [])
        ≡ ok (result_of policy (ltb count policy.limit) count ttl_ms)
  unfolding parse_inspection
  parse_inspection_lem zero ttl_ms c t w = absurd (ground arith)
  parse_inspection_lem (suc n) ttl_ms c t w =
      let a : ltb (suc n) 1 ≡ false = ground arith in
      let b : ltb 0 ttl_ms ≡ true = ground arith in
      let d : leb ttl_ms (policy.window_seconds * 1000) ≡ true = ground arith in rw (a, b, d) refl

  inspect_live :
      (now : ℕ) (key : String) (s : S) (w : Window)
      → IsWindow policy now (some w)
      → now < w.ends
      → laws.entry now key s ≡ entry_of (some w)
      → inspect_key redis true now policy key s
        ≡ ok (result_of policy (ltb w.count policy.limit) w.count (w.ends - now))
  unfolding evaluated inspect_fixed_window_script inspect_key
  inspect_live now key s w (some_, short) lives h =
      let a =
        laws.get_result now key s ∙ ap (λ e. elim e [ none ↦ none | some x ↦ some x.stored ]) h in
      let b = laws.pttl_result now key s ∙ ap (time_left now) h in
      let count : ltb w.count 1 ≡ false = ground arith in
      let left : ltb (w.ends - now) 1 ≡ false = ground arith in
      let script : inspect_fixed_window_script redis now key s
          ≡ integers (pos w.count ∷ pos (w.ends - now) ∷ []) =
        rw (inspect_fixed_window_script, a, b, inspected, count, reply_of, left) refl in
      rw (inspect_key, script)
        (parse_inspection_lem w.count (w.ends - now) some_ (ground arith) (ground arith))

  abbrev unlimited : RateLimitPolicy → RateLimitResult
  unlimited p = record {
    allowed = true;
    limit = p.limit;
    remaining = p.limit;
    retry_after_ms = 0;
    reset_after_ms = 0;
  }

  abbrev pub IsPredicted : ℕ → String → S → Type 0
  IsPredicted now key s =
      (r : RateLimitResult) × (inspect_key redis true now policy key s ≡ ok r)
      × (is_admitted (check_key redis true now policy key s).0 ≡ r.allowed)

  inspect_absent :
      (now : ℕ) (key : String) (s : S) → laws.entry now key s ≡ none → IsPredicted now key s
  unfolding evaluated parse_inspection inspect_fixed_window_script inspect_key
  inspect_absent now key s h =
      let a =
        laws.get_result now key s ∙ ap (λ e. elim e [ none ↦ none | some x ↦ some x.stored ]) h in
      let (answer, after) = check_key-next_window redis laws policy positive now key s none tt h in
      let p = positive.0 in
      let l : leb 1 policy.limit ≡ true = ground arith in
      (
        unlimited policy,
        rw (inspect_key, inspect_fixed_window_script, a) refl,
        ap is_admitted answer ∙ l,
      )

  -- On a store with Redis's documented commands, for a policy with a positive limit and length, and for a
  -- key that holds a window of the policy or nothing, an inspection returns, and says whether a check at that
  -- moment is admitted.
  pub inspect_key-check_key :
      (now : ℕ) (key : String) (s : S) (w : Option Window)
      → IsWindow policy now w
      → Holds redis laws now key s w
      → IsPredicted now key s
  inspect_key-check_key now key s none valid h = inspect_absent now key s h
  inspect_key-check_key now key s (some w) valid h = elim (Bool-cases (ltb now w.ends)) [
    | inl lives ↦
        let cur : current now (some w) ≡ some w = rw lives refl in
        let (answer, after) =
          check_key-next_window redis laws policy positive now key s (some w) valid h in
        (
          result_of policy (ltb w.count policy.limit) w.count (w.ends - now),
          inspect_live now key s w valid (ground arith) (h ∙ ap entry_of cur),
          ap is_admitted answer
              ∙ ap (λ c. leb (counted policy now c).count policy.limit) cur
              ∙ ground arith,
        )
    | inr ended ↦
        let cur : current now (some w) ≡ none = rw ended refl in
        inspect_absent now key s (h ∙ ap entry_of cur)
  ]
