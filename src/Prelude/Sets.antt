-- ===== src/Prelude/Sets.antt =====
-- `set` and `frozenset` as lists: built without repetition, read through membership.

use mathlib.Core.Path.{◌≡◌, refl, sym, ap, ◌∙◌}
use mathlib.Core.Logic.{inl, inr}
use mathlib.Core.Bool.{Bool, true, false, ◌&&◌, ◌||◌, not}
use mathlib.Core.List.{List, [], ◌∷◌}
use native.Mathlib.Omega.{arith}
use fastapi_templates_xtn.Prelude.Tests.{Eq, ◌==◌, if◌then◌else◌, Bool-cases}
use fastapi_templates_xtn.Prelude.Lists.{keep_if}

module _ {ℓ} {A : Type ℓ} ⦃e : Eq A⦄ where
  unfoldable pub contains : List A → A → Bool
  contains [] a = false
  contains (x ∷ xs) a = (x == a) || contains xs a

  unfoldable pub insert : A → List A → List A
  unfolding contains
  insert a xs = if contains xs a then xs else a ∷ xs

  -- `xs | ys`
  unfoldable pub union : List A → List A → List A
  unfolding insert
  union [] ys = ys
  union (x ∷ xs) ys = insert x (union xs ys)

  -- `frozenset(xs)`
  unfoldable pub to_set : List A → List A
  unfolding union
  to_set xs = union xs []

  -- `xs - ys`
  unfoldable pub diff : List A → List A → List A
  unfolding contains
  diff xs ys = keep_if (λ x. not (contains ys x)) xs

  -- `xs & ys`
  unfoldable pub inter : List A → List A → List A
  unfolding contains
  inter xs ys = keep_if (λ x. contains ys x) xs

  -- `xs <= ys`
  unfoldable pub subset : List A → List A → Bool
  unfolding contains
  subset [] ys = true
  subset (x ∷ xs) ys = contains ys x && subset xs ys

  -- `xs == ys` on sets
  unfoldable pub same_set : List A → List A → Bool
  unfolding subset
  same_set xs ys = subset xs ys && subset ys xs

-- `xs` has no element outside `ys`.
abbrev pub Subset {ℓ} : {A : Type ℓ} ⦃e : Eq A⦄ → List A → List A → Type ℓ
Subset {A} xs ys = (a : A) → contains xs a ≡ true → contains ys a ≡ true

module _ {ℓ} {A : Type ℓ} ⦃e : Eq A⦄ where
  pub beq_refl : (a : A) → (a == a) ≡ true
  beq_refl a = (e.equal_iff a a).1 refl

  contains_here : (x a : A) (xs : List A) → (x == a) ≡ true → contains (x ∷ xs) a ≡ true
  unfolding contains
  contains_here x a xs h = rw h

  contains_there : (x a : A) (xs : List A) → contains xs a ≡ true → contains (x ∷ xs) a ≡ true
  unfolding contains
  contains_there x a xs h = ground arith

  pub contains_eq : (xs : List A) (a b : A) → (a == b) ≡ true → contains xs a ≡ contains xs b
  contains_eq xs a b h = ap (contains xs) ((e.equal_iff a b).0 h)

  pub contains-insert :
      (a b : A) (xs : List A) → contains (insert a xs) b ≡ ((a == b) || contains xs b)
  unfolding insert
  contains-insert a b xs = elim (Bool-cases (contains xs a)) [
    | inl old ↦ elim (Bool-cases (a == b)) [
      | inl same ↦ rw (old, same) (sym (contains_eq xs a b same) ∙ old)
      | inr other ↦ rw (old, other)
    ]
    | inr new ↦ rw new
  ]

  pub contains-union :
      (xs ys : List A) (a : A) → contains (union xs ys) a ≡ (contains xs a || contains ys a)
  unfolding union contains
  contains-union [] ys a = refl
  contains-union (x ∷ xs) ys a =
      rw (contains-insert x a (union xs ys), contains-union xs ys a) (ground arith)

  pub contains-to_set : (xs : List A) (a : A) → contains (to_set xs) a ≡ contains xs a
  unfolding to_set
  contains-to_set xs a = contains-union xs [] a ∙ or_false (contains xs a)
    where
      or_false : (b : Bool) → (b || contains {A = A} [] a) ≡ b
      or_false b = unfold contains in ground arith

  pub contains-keep_if :
      (p : A → Bool) (xs : List A) (a : A) → contains (keep_if p xs) a ≡ (contains xs a && p a)
  unfolding contains
  contains-keep_if p [] a = refl
  contains-keep_if p (x ∷ xs) a = elim (Bool-cases (x == a)) [
    | inl same ↦ rw ((e.equal_iff x a).0 same) (ground (arith, contains-keep_if p xs a, beq_refl a))
    | inr other ↦ ground (arith, contains-keep_if p xs a)
  ]

  pub contains-diff :
      (xs ys : List A) (a : A) → contains (diff xs ys) a ≡ (contains xs a && not (contains ys a))
  unfolding diff
  contains-diff xs ys a = contains-keep_if (λ x. not (contains ys x)) xs a

  pub contains-inter :
      (xs ys : List A) (a : A) → contains (inter xs ys) a ≡ (contains xs a && contains ys a)
  unfolding inter
  contains-inter xs ys a = contains-keep_if (λ x. contains ys x) xs a

  pub Subset_of_subset : (xs ys : List A) → subset xs ys ≡ true → Subset xs ys
  unfolding subset contains
  Subset_of_subset [] ys h a m = absurd (ground arith)
  Subset_of_subset (x ∷ xs) ys h a m = elim (Bool-cases (x == a)) [
    | inl same ↦
        rw (contains_eq ys a x ((e.equal_iff a x).1 (sym ((e.equal_iff x a).0 same))))
          (ground arith)
    | inr other ↦ Subset_of_subset xs ys (ground arith) a (ground arith)
  ]

  pub subset_of_Subset : (xs ys : List A) → Subset xs ys → subset xs ys ≡ true
  unfolding subset
  subset_of_Subset [] ys h = refl
  subset_of_Subset (x ∷ xs) ys h =
      rw (h x (contains_here x x xs (beq_refl x)))
        (subset_of_Subset xs ys (λ a m. h a (contains_there x a xs m)))
