-- ===== src/Prelude/Integers.antt =====
-- Signed differences of two numbers, and `len(set(xs)) == 1`.
use Prim.Native.Nat.{ℕ, ◌-◌, ◌≤◌}
use mathlib.Core.Path.{◌≡◌, refl, sym, ap, subst, ◌∙◌}
use mathlib.Core.Logic.{◌↔◌, inl, inr}
use mathlib.Core.Bool.{Bool, true, false, ◌&&◌}
use mathlib.Core.List.{List, [], ◌∷◌}
use native.Mathlib.Omega.{arith}
use fastapi_templates_xtn.Prelude.Tests.{
  Eq, ◌==◌, if◌then◌else◌, Bool-cases, nat_beq, nat_beq_iff, leb, &&-eq-true, Bool-ext,
}
use fastapi_templates_xtn.Prelude.Lists.{length, all}
use fastapi_templates_xtn.Prelude.Sets.{contains, to_set, insert, union, beq_refl}

pub data ℤ : Type 0 where
  pos : ℕ → ℤ
  negsuc : ℕ → ℤ

-- `a - b`
abbrev pub difference : ℕ → ℕ → ℤ
difference a b = if leb b a then pos (a - b) else negsuc (b - a - 1)

abbrev pub integer_equal : ℤ → ℤ → Bool
integer_equal (pos a) (pos b) = nat_beq a b
integer_equal (pos a) (negsuc b) = false
integer_equal (negsuc a) (pos b) = false
integer_equal (negsuc a) (negsuc b) = nat_beq a b

pub integer_equal_iff : (x y : ℤ) → (integer_equal x y ≡ true) ↔ (x ≡ y)
integer_equal_iff (pos a) (pos b) = ground arith
integer_equal_iff (pos a) (negsuc b) = ground arith
integer_equal_iff (negsuc a) (pos b) = ground arith
integer_equal_iff (negsuc a) (negsuc b) = ground arith

instance abbrev pub integer_eq : Eq ℤ
integer_eq = record { equal_iff = integer_equal_iff; equal = integer_equal }

module _ {ℓ} {A : Type ℓ} ⦃e : Eq A⦄ where
  -- `len(set(xs)) == 1`
  unfoldable pub is_one_element : List A → Bool
  unfolding to_set
  is_one_element xs = nat_beq (length (to_set xs)) 1

  insert-old : (x : A) (xs : List A) → contains xs x ≡ true → insert x xs ≡ xs
  unfolding insert
  insert-old x xs old = rw old

  insert-new : (x : A) (xs : List A) → contains xs x ≡ false → insert x xs ≡ x ∷ xs
  unfolding insert
  insert-new x xs new = rw new

  insert-again : (x : A) → insert x (x ∷ []) ≡ x ∷ []
  unfolding insert contains
  insert-again x = rw (beq_refl x)

  singleton : (x : A) (xs : List A) → all (λ y. y == x) xs ≡ true → to_set (x ∷ xs) ≡ x ∷ []
  unfolding to_set union insert contains
  singleton x [] h = refl
  singleton x (y ∷ ys) h =
      let (head, tail) = &&-eq-true (y == x) _ h in
      let same : y ≡ x = (e.equal_iff y x).0 head in
      ap (λ z. insert x (to_set (z ∷ ys))) same
      ∙ ap (insert x) (singleton x ys tail)
      ∙ insert-again x

  length-insert : (x : A) (xs : List A) → 1 ≤ length (insert x xs)
  unfolding insert contains
  length-insert x [] = ground arith
  length-insert x (y ∷ ys) = ground arith

  only : (y x : A) → contains (y ∷ []) x ≡ true → (y == x) ≡ true
  unfolding contains
  only y x h = ground arith

  all_equal : (x : A) (xs : List A) → length (to_set (x ∷ xs)) ≡ 1 → all (λ y. y == x) xs ≡ true
  unfolding to_set union
  all_equal x [] h = refl
  all_equal x (y ∷ ys) h = elim (Bool-cases (contains (to_set (y ∷ ys)) x)) [
    | inl old ↦
        let tail = all_equal y ys (ap length (sym (insert-old x _ old)) ∙ h) in
        let same : y ≡ x =
          (e.equal_iff y x).0
            (only y x (ap (λ s. contains s x) (sym (singleton y ys tail)) ∙ old)) in
        subst (λ z. (y == z) && all (λ w. w == z) ys ≡ true) same (rw (beq_refl y, tail))
    | inr new ↦
        let one = length-insert y (to_set ys) in
        let two = ap length (sym (insert-new x _ new)) ∙ h in absurd (ground arith)
  ]

  -- A list has one element as a set exactly when it has a first element and all the others equal it.
  pub is_one_element_iff : (x : A) (xs : List A) → is_one_element (x ∷ xs) ≡ all (λ y. y == x) xs
  unfolding is_one_element
  is_one_element_iff x xs =
      Bool-ext (is_one_element (x ∷ xs)) (all (λ y. y == x) xs)
        (λ h. all_equal x xs ((nat_beq_iff _ _).0 h))
        (λ h. ap (λ l. nat_beq (length l) 1) (singleton x xs h))
