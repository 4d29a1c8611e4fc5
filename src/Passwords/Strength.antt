-- ===== src/Passwords/Strength.antt =====
-- core/security/passwords.py: the repetitions and the runs that the policy refuses, described by how such
-- a text is built up.
use fastapi_templates_xtn.Prelude.{
  ℕ, zero, suc, ◌+◌, ◌≡◌, refl, sym, ap, ◌∙◌, subst, ◌↔◌, ◌⊎◌, inl, inr, Bool, true, ◌&&◌, List, [],
  ◌∷◌, ◌==◌, nat_eq, nat_beq_iff, all, length, ℤ, pos, negsuc, integer_eq, is_one_element,
  integer_equal_iff, difference, Bool-cases, beq_refl, ltb, is_one_element_iff, &&-eq-true, arith,
}
use fastapi_templates_xtn.Passwords.{
  is_digit, is_letter, is_ascii, is_alnum, is_decimal, is_alpha, steps, steps_from, starts_by_one,
  is_sequence,
}

abbrev pub repeated : ℕ → ℕ → List ℕ
repeated c zero = []
repeated c (suc n) = c ∷ repeated c n

-- `n` characters that go up by one each, the first of them `c`
abbrev pub ascending : ℕ → ℕ → List ℕ
ascending c zero = []
ascending c (suc n) = c ∷ ascending (c + 1) n

-- `n` characters that go down by one each, the last of them `c`
abbrev pub descending : ℕ → ℕ → List ℕ
descending c zero = []
descending c (suc n) = (c + n) ∷ descending c n

abbrev pub IsRepetition : List ℕ → Type 0
IsRepetition xs = (c n : ℕ) × (xs ≡ repeated c (suc n))

-- At least two letters, or at least two digits, in steps of one.
abbrev pub IsRun : List ℕ → Type 0
IsRun xs =
    (c n : ℕ) × ((xs ≡ ascending c (suc (suc n))) ⊎ (xs ≡ descending c (suc (suc n))))
    × ((is_decimal xs ≡ true) ⊎ (is_alpha xs ≡ true))

repeats : (c : ℕ) (xs : List ℕ) → all (λ y. y == c) xs ≡ true → xs ≡ repeated c (length xs)
repeats c [] h = refl
repeats c (x ∷ xs) h =
    let (head, tail) = &&-eq-true (x == c) _ h in
    let same : x ≡ c = (nat_beq_iff x c).0 head in
    ap (λ z. z ∷ xs) same ∙ ap (◌∷◌ c) (repeats c xs tail)

all-repeated : (c n : ℕ) → all (λ y. y == c) (repeated c n) ≡ true
all-repeated c zero = refl
all-repeated c (suc n) = ground (arith, all-repeated c n)

-- A text has one character as a set exactly when it is a repetition of it.
pub is_one_element-IsRepetition : (xs : List ℕ) → (is_one_element xs ≡ true) ↔ IsRepetition xs
unfolding is_one_element
is_one_element-IsRepetition [] = (λ h. cc, λ (c, n, e). cc)
is_one_element-IsRepetition (x ∷ xs) = (
  λ h. (x, length xs, ap (◌∷◌ x) (repeats x xs (sym (is_one_element_iff x xs) ∙ h))),
  λ (c, n, e).
      subst (λ ys. is_one_element ys ≡ true) (sym e)
        (is_one_element_iff c (repeated c n) ∙ all-repeated c n),
)

ups :
    (c : ℕ) (rest : List ℕ)
    → all (λ s. s == pos 1) (steps_from c rest) ≡ true
    → c ∷ rest ≡ ascending c (suc (length rest))
ups c [] h = refl
ups c (r ∷ rs) h =
    let (head, tail) = &&-eq-true _ (all (λ s. s == pos 1) (steps_from r rs)) h in
    let next : r ≡ c + 1 = ground arith in
    ap (◌∷◌ c) (ups r rs tail ∙ ap (λ z. ascending z (suc (length rs))) next)

all-ups : (c n : ℕ) → all (λ s. s == pos 1) (steps_from c (ascending (c + 1) n)) ≡ true
all-ups c zero = refl
all-ups c (suc n) = ground (arith, all-ups (c + 1) n)

downs :
    (c : ℕ) (rest : List ℕ)
    → all (λ s. s == negsuc 0) (steps_from c rest) ≡ true
    → (low : ℕ) × (c ∷ rest ≡ descending low (suc (length rest)))
downs c [] h = (c, ground arith)
downs c (r ∷ rs) h =
    let (head, tail) = &&-eq-true _ (all (λ s. s == negsuc 0) (steps_from r rs)) h in
    let (low, e) = downs r rs tail in
    let next : c ≡ r + 1 = ground arith in
    (low, ap (λ z. z ∷ r ∷ rs) (ground arith) ∙ ap (◌∷◌ (low + suc (length rs))) e)

all-downs : (c n : ℕ) → all (λ s. s == negsuc 0) (steps_from (c + n) (descending c n)) ≡ true
all-downs c zero = refl
all-downs c (suc n) = ground (arith, all-downs c n)

-- Steps that are all the same, and up or down by one.
steps-IsRun :
    (x : ℕ) (xs : List ℕ)
    → (is_one_element (steps (x ∷ xs)) && starts_by_one (steps (x ∷ xs))) ≡ true
    → (c n : ℕ) × ((x ∷ xs ≡ ascending c (suc (suc n))) ⊎ (x ∷ xs ≡ descending c (suc (suc n))))
unfolding is_one_element
steps-IsRun x [] h = cc
steps-IsRun x (y ∷ ys) h =
    let (one, first_step) = &&-eq-true _ (starts_by_one (steps (x ∷ y ∷ ys))) h in
    let same = sym (is_one_element_iff (difference y x) (steps_from y ys)) ∙ one in
    let all_steps : (d : ℤ) → difference y x ≡ d → all (λ s. s == d) (steps (x ∷ y ∷ ys)) ≡ true =
      λ d e. rw (e, beq_refl d) (subst (λ z. all (λ s. s == z) (steps_from y ys) ≡ true) e same) in
    elim (Bool-cases (difference y x == pos 1)) [
      | inl up ↦
          (x, length ys, inl (ups x (y ∷ ys) (all_steps (pos 1) ((integer_equal_iff _ _).0 up))))
      | inr other ↦
          let down : (difference y x == negsuc 0) ≡ true = ground arith in
          let (low, e) = downs x (y ∷ ys) (all_steps (negsuc 0) ((integer_equal_iff _ _).0 down)) in
          (low, length ys, inr e)
    ]

one_step :
    (x y : ℕ) (ys : List ℕ) (d : ℤ)
    → (d ≡ pos 1) ⊎ (d ≡ negsuc 0)
    → all (λ s. s == d) (steps (x ∷ y ∷ ys)) ≡ true
    → (is_one_element (steps (x ∷ y ∷ ys)) && starts_by_one (steps (x ∷ y ∷ ys))) ≡ true
unfolding is_one_element
one_step x y ys d which h =
    let (head, tail) = &&-eq-true _ (all (λ s. s == d) (steps_from y ys)) h in
    let e : difference y x ≡ d = (integer_equal_iff _ _).0 head in
    let one =
      is_one_element_iff (difference y x) (steps_from y ys)
      ∙ subst (λ z. all (λ s. s == z) (steps_from y ys) ≡ true) (sym e) tail in
    rw (one, e) (elim which [ inl up ↦ rw up | inr down ↦ rw down ])

all-implies :
    (p q : ℕ → Bool) (xs : List ℕ)
    → ((c : ℕ) → p c ≡ true → q c ≡ true)
    → all p xs ≡ true
    → all q xs ≡ true
all-implies p q [] f h = refl
all-implies p q (x ∷ xs) f h =
    let (head, tail) = &&-eq-true (p x) _ h in rw (f x head, all-implies p q xs f tail)

-- The digits and the letters are ASCII and alphanumeric.
plain :
    (xs : List ℕ)
    → (is_decimal xs ≡ true) ⊎ (is_alpha xs ≡ true)
    → (is_ascii xs ≡ true) × (is_alnum xs ≡ true)
plain xs (inl digits) = (
  all-implies is_digit _ xs (λ c h. ground arith) digits,
  all-implies is_digit _ xs (λ c h. ground arith) digits,
)
plain xs (inr letters) = (
  all-implies is_letter _ xs (λ c h. ground arith) letters,
  all-implies is_letter _ xs (λ c h. ground arith) letters,
)

abbrev IsStepped : List ℕ → Type 0
IsStepped xs = (ltb 1 (length xs) && (is_one_element (steps xs) && starts_by_one (steps xs))) ≡ true

stepped :
    (x y : ℕ) (ys : List ℕ)
    → (is_one_element (steps (x ∷ y ∷ ys)) && starts_by_one (steps (x ∷ y ∷ ys))) ≡ true
    → IsStepped (x ∷ y ∷ ys)
stepped x y ys h = let long : ltb 1 (suc (suc (length ys))) ≡ true = ground arith in rw long h

run_steps :
    (c n : ℕ) (xs : List ℕ)
    → (xs ≡ ascending c (suc (suc n))) ⊎ (xs ≡ descending c (suc (suc n)))
    → IsStepped xs
run_steps c n xs (inl up) =
    subst (λ ys. IsStepped ys) (sym up)
      (stepped c (c + 1) _ (one_step c (c + 1) _ (pos 1) (inl refl) (all-ups c (suc n))))
run_steps c n xs (inr down) =
    subst (λ ys. IsStepped ys) (sym down)
      (stepped (c + suc n) (c + n) _
        (one_step (c + suc n) (c + n) _ (negsuc 0) (inr refl) (all-downs c (suc n))))

-- The test for a sequence accepts the runs of letters or digits and nothing else.
pub is_sequence-IsRun : (xs : List ℕ) → (is_sequence xs ≡ true) ↔ IsRun xs
unfolding is_sequence
is_sequence-IsRun xs = (there xs, back)
  where
    there : (ys : List ℕ) → is_sequence ys ≡ true → IsRun ys
    there [] h = cc
    there (y ∷ ys) h =
        let (c, n, e) = steps-IsRun y ys (ground arith) in
        (
          c,
          n,
          e,
          elim (Bool-cases (is_decimal (y ∷ ys))) [
            | inl digits ↦ inl digits
            | inr other ↦ inr (ground arith)
          ],
        )

    back : IsRun xs → is_sequence xs ≡ true
    back (c, n, e, kind) =
        let (ascii, alnum) = plain xs kind in let shape = run_steps c n xs e in ground arith
