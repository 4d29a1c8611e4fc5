-- ===== src/Redis.antt =====
-- db/redis.py: the client of Redis, an interface of the commands that the scripts of
-- core/security/rate_limit.py call, with what Redis documents of them. `Entry` is what a key holds. The
-- time, in milliseconds, stands still while a script runs and does not go back.
use fastapi_templates_xtn.Prelude.{
  ℕ, zero, suc, ◌+◌, ◌-◌, ◌*◌, ◌≤◌, ◌≡◌, ◌≢◌, String, Option, none, some, if◌then◌else◌, ltb, ℤ,
  pos, negsuc,
}

-- A text that is a decimal integer, or any other.
pub data Stored : Type 0 where
  integer : ℤ → Stored
  other_value : Stored

pub record Entry : Type 0 where
  pub stored : Stored
  pub deadline : Option ℕ

-- What is left of an entry at a time.
abbrev pub alive : ℕ → Option Entry → Option Entry
alive t none = none
alive t (some e) = elim e.deadline [ none ↦ some e | some d ↦ if ltb t d then some e else none ]

abbrev pub next_integer : ℤ → ℤ
next_integer (pos n) = pos (n + 1)
next_integer (negsuc zero) = pos 0
next_integer (negsuc (suc n)) = negsuc n

abbrev pub integer_of : Option Entry → Option ℤ
integer_of none = some (pos 0)
integer_of (some e) = elim e.stored [ integer z ↦ some z | other_value ↦ none ]

-- INCR: an absent key counts as 0, a text that is no integer is an error; the expiry stays.
abbrev pub incremented : Option Entry → Option ℤ × Option Entry
incremented none = (some (pos 1), some (record { stored = integer (pos 1); deadline = none }))
incremented (some e) = elim e.stored [
  | integer z ↦ (some (next_integer z), some (record e { stored = integer (next_integer z) }))
  | other_value ↦ (none, some e)
]

-- EXPIRE with a number of seconds
abbrev pub expiring : ℕ → ℕ → Option Entry → Option Entry
expiring t seconds none = none
expiring t seconds (some e) = alive t (some (record e { deadline = some (t + seconds * 1000) }))

-- PTTL: -2 for an absent key and -1 for one without an expiry
abbrev pub time_left : ℕ → Option Entry → ℤ
time_left t none = negsuc 1
time_left t (some e) = elim e.deadline [ none ↦ negsuc 0 | some d ↦ pos (d - t) ]

pub record Redis (S : Type 0) : Type 0 where
  pub incr : ℕ → String → S → Option ℤ × S
  pub expire : ℕ → String → ℕ → S → S
  pub pttl : ℕ → String → S → ℤ
  pub get : ℕ → String → S → Option Stored

-- The commands as Redis documents them, over what the keys hold at a time.
pub record IsRedis {S : Type 0} (r : Redis S) : Type 0 where
  pub entry : ℕ → String → S → Option Entry
  pub passing : (t t' : ℕ) (k : String) (s : S) → t ≤ t' → entry t' k s ≡ alive t' (entry t k s)
  pub incr_result : (t : ℕ) (k : String) (s : S) → (r.incr t k s).0 ≡ (incremented (entry t k s)).0
  pub incr_entry :
      (t : ℕ) (k : String) (s : S) → entry t k (r.incr t k s).1 ≡ (incremented (entry t k s)).1
  pub expire_entry :
      (t : ℕ) (k : String) (n : ℕ) (s : S)
      → entry t k (r.expire t k n s) ≡ expiring t n (entry t k s)
  pub pttl_result : (t : ℕ) (k : String) (s : S) → r.pttl t k s ≡ time_left t (entry t k s)
  pub get_result :
      (t : ℕ) (k : String) (s : S)
      → r.get t k s ≡ elim (entry t k s) [ none ↦ none | some e ↦ some e.stored ]
  pub incr_elsewhere :
      (t t' : ℕ) (k k' : String) (s : S) → k' ≢ k → entry t' k' (r.incr t k s).1 ≡ entry t' k' s
  pub expire_elsewhere :
      (t t' : ℕ) (k k' : String) (n : ℕ) (s : S)
      → k' ≢ k
      → entry t' k' (r.expire t k n s) ≡ entry t' k' s
