-- ===== src/Tests/RateLimits.antt =====
-- A store as a function of the key, with the documented commands, and the theorems at a quota of two.
use fastapi_templates_xtn.Prelude.{
  ℕ, ◌≡◌, ◌≢◌, ◌≤◌, refl, sym, ap, ◌∙◌, inl, inr, true, false, String, Option, none, some, [], ◌∷◌,
  ok, if◌then◌else◌, ◌==◌, string_eq, beq_refl, eq_iff, Bool-cases, ◌+◌, ◌*◌, arith, ltb,
}
use fastapi_templates_xtn.Redis.{
  Redis, IsRedis, Entry, Stored, integer, other_value, alive, incremented, expiring, time_left,
}
use fastapi_templates_xtn.RateLimit.{RateLimitPolicy, result_of}
use fastapi_templates_xtn.RateLimit.Checks.{check_key}
use fastapi_templates_xtn.RateLimit.Windows.{
  IsPositive, entry_of, After, Window, next_window, check_key-next_window,
}
use fastapi_templates_xtn.RateLimit.Admissions.{
  admitted, admitted_lem, check_key-ended, IsPredicted, inspect_key-check_key,
}

abbrev pub Store : Type 0
Store = String → Option Entry

abbrev pub put : String → Option Entry → Store → Store
put key entry store k = if k == key then entry else store k

abbrev pub sample_redis : Redis Store
sample_redis = record {
  incr = λ t key store.
      let (count, entry) = incremented (alive t (store key)) in (count, put key entry store);
  expire = λ t key seconds store. put key (expiring t seconds (alive t (store key))) store;
  pttl = λ t key store. time_left t (alive t (store key));
  get = λ t key store. elim (alive t (store key)) [ none ↦ none | some e ↦ some e.stored ];
}

pub here : (key : String) (entry : Option Entry) (store : Store) → put key entry store key ≡ entry
here key entry store = rw (beq_refl key) refl

pub elsewhere :
    (key k : String) (entry : Option Entry) (store : Store)
    → k ≢ key
    → put key entry store k ≡ store k
elsewhere key k entry store other = elim (Bool-cases (k == key)) [
  | inl same ↦ absurd (other ((eq_iff k key).0 same))
  | inr differ ↦ rw differ refl
]

abbrev entry_with : Stored → Option ℕ → Option Entry
entry_with v d = some (record { stored = v; deadline = d })

passing_with :
    (t t' : ℕ) (v : Stored) (d : Option ℕ)
    → t ≤ t'
    → alive t' (entry_with v d) ≡ alive t' (alive t (entry_with v d))
passing_with t t' v none order = refl
passing_with t t' v (some d) order = elim (Bool-cases (ltb t d)) [
  | inl lives ↦ rw lives refl
  | inr ended ↦ let over : ltb t' d ≡ false = ground arith in rw (ended, over) refl
]

pub passing : (t t' : ℕ) (e : Option Entry) → t ≤ t' → alive t' e ≡ alive t' (alive t e)
passing t t' none order = refl
passing t t' (some e) order = passing_with t t' e.stored e.deadline order

incremented_with :
    (t : ℕ) (v : Stored) (d : Option ℕ)
    → alive t (incremented (alive t (entry_with v d))).1
      ≡ (incremented (alive t (entry_with v d))).1
incremented_with t (integer z) none = refl
incremented_with t other_value none = refl
incremented_with t (integer z) (some d) = elim (Bool-cases (ltb t d)) [
  | inl lives ↦ rw (lives, lives) refl
  | inr ended ↦ rw ended refl
]
incremented_with t other_value (some d) = elim (Bool-cases (ltb t d)) [
  | inl lives ↦ rw (lives, lives) refl
  | inr ended ↦ rw ended refl
]

pub increment_lives :
    (t : ℕ) (e : Option Entry) → alive t (incremented (alive t e)).1 ≡ (incremented (alive t e)).1
increment_lives t none = refl
increment_lives t (some e) = incremented_with t e.stored e.deadline

pub expiry_lives : (t n : ℕ) (e : Option Entry) → alive t (expiring t n e) ≡ expiring t n e
expiry_lives t n none = refl
expiry_lives t n (some e) =
    sym (passing t t (some (record e { deadline = some (t + n * 1000) })) (ground arith))

abbrev pub sample_redis-IsRedis : IsRedis sample_redis
sample_redis-IsRedis = record {
  entry = λ t key store. alive t (store key);
  passing = λ t t' key store order. passing t t' (store key) order;
  incr_result = λ t key store. refl;
  incr_entry = λ t key store.
      ap (alive t) (here key (incremented (alive t (store key))).1 store)
      ∙ increment_lives t (store key);
  expire_entry = λ t key n store.
      ap (alive t) (here key (expiring t n (alive t (store key))) store)
      ∙ expiry_lives t n (alive t (store key));
  pttl_result = λ t key store. refl;
  get_result = λ t key store. refl;
  incr_elsewhere = λ t t' key k store other.
      ap (alive t') (elsewhere key k (incremented (alive t (store key))).1 store other);
  expire_elsewhere = λ t t' key k n store other.
      ap (alive t') (elsewhere key k (expiring t n (alive t (store key))) store other);
}

abbrev pub two : RateLimitPolicy
two = record { name = "login"; limit = 2; window_seconds = 60 }

pub two-IsPositive : IsPositive two
two-IsPositive = (ground arith, ground arith)

abbrev pub empty_store : Store
empty_store _ = none

abbrev pub one_window : Window
one_window = record { count = 2; ends = 61000 }

abbrev pub one_store : Store
one_store = put "k" (entry_of (some one_window)) empty_store

check_key_example :
    After sample_redis sample_redis-IsRedis two two-IsPositive 2000 "k" one_store
      (next_window two 2000 (some one_window))
check_key_example =
    check_key-next_window sample_redis sample_redis-IsRedis two two-IsPositive 2000 "k" one_store
      (some one_window) (ground arith, ground arith) refl

admitted_example : admitted sample_redis two "k" (1000 ∷ 1500 ∷ 1500 ∷ 60999 ∷ []) empty_store ≡ 2
admitted_example =
    admitted_lem sample_redis sample_redis-IsRedis two two-IsPositive 1000 "k" empty_store
      (1500 ∷ 1500 ∷ 60999 ∷ []) refl (ground arith, (ground arith, (ground arith, tt)))
      (ground arith, (ground arith, (ground arith, tt)))

ended_example :
    (check_key sample_redis true 61000 two "k" one_store).0 ≡ ok (result_of two true 1 60000)
ended_example =
    check_key-ended sample_redis sample_redis-IsRedis two two-IsPositive 2000 61000 "k" one_store
      one_window (ground arith, ground arith) refl (ground arith) (ground arith)

inspect_example :
    IsPredicted sample_redis sample_redis-IsRedis two two-IsPositive 2000 "k" one_store
inspect_example =
    inspect_key-check_key sample_redis sample_redis-IsRedis two two-IsPositive 2000 "k" one_store
      (some one_window) (ground arith, ground arith) refl
