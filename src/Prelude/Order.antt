-- ===== src/Prelude/Order.antt =====
-- `sorted(xs, key=...)` as a stable insertion sort, and `sorted` on texts.
use Prim.Native.Nat.{ℕ, suc}
use Prim.Native.String.{String, compare}
use mathlib.Core.Path.{◌≡◌, refl, ◌∙◌, ap}
use mathlib.Core.Bool.{Bool, ◌||◌}
use mathlib.Core.List.{List, [], ◌∷◌}
use native.Mathlib.Omega.{arith}
use text.Mathlib.Text.{is_le}
use fastapi_templates_xtn.Prelude.Tests.{leb, if◌then◌else◌, ◌==◌, nat_eq}
use fastapi_templates_xtn.Prelude.Sets.{contains}
use fastapi_templates_xtn.Prelude.Lists.{any, length}

module _ {ℓ} {A : Type ℓ} (le : A → A → Bool) where
  pub place : A → List A → List A
  place x [] = x ∷ []
  place x (y ∷ ys) = if le x y then x ∷ y ∷ ys else y ∷ place x ys

  unfoldable pub sorted_by : List A → List A
  unfolding place
  sorted_by [] = []
  sorted_by (x ∷ xs) = place x (sorted_by xs)

  any-place : (p : A → Bool) (x : A) (xs : List A) → any p (place x xs) ≡ (p x || any p xs)
  unfolding place
  any-place p x [] = refl
  any-place p x (y ∷ ys) = ground (arith, any-place p x ys)

  -- Sorting keeps what the elements satisfy.
  pub any-sorted_by : (p : A → Bool) (xs : List A) → any p (sorted_by xs) ≡ any p xs
  unfolding sorted_by
  any-sorted_by p [] = refl
  any-sorted_by p (x ∷ xs) = ground (arith, any-place p x (sorted_by xs), any-sorted_by p xs)

abbrev pub text_le : String → String → Bool
text_le s t = is_le (compare s t)

unfoldable pub sorted_texts : List String → List String
unfolding sorted_by
sorted_texts = sorted_by text_le

unfoldable pub sorted_ids : List ℕ → List ℕ
unfolding sorted_by
sorted_ids = sorted_by leb

any-contains : (ids : List ℕ) (i : ℕ) → any (λ x. x == i) ids ≡ contains ids i
unfolding contains
any-contains [] i = refl
any-contains (x ∷ ids) i = ap (◌||◌ (x == i)) (any-contains ids i)

-- Sorted ids are the same ids.
pub any-sorted_ids : (ids : List ℕ) (i : ℕ) → any (λ x. x == i) (sorted_ids ids) ≡ contains ids i
unfolding sorted_ids
any-sorted_ids ids i = any-sorted_by leb (λ x. x == i) ids ∙ any-contains ids i

module _ {ℓ} {A : Type ℓ} (le : A → A → Bool) where
  length-place : (x : A) (xs : List A) → length (place le x xs) ≡ suc (length xs)
  unfolding place
  length-place x [] = refl
  length-place x (y ∷ ys) = ground (arith, length-place x ys)

  pub length-sorted_by : (xs : List A) → length (sorted_by le xs) ≡ length xs
  unfolding sorted_by
  length-sorted_by [] = refl
  length-sorted_by (x ∷ xs) = length-place x (sorted_by le xs) ∙ ap suc (length-sorted_by xs)
