-- ===== src/Prelude/Lists.antt =====
-- Lists as Python sequences: lengths over native numbers, and the comprehensions.
use Prim.Native.Nat.{ℕ, suc}
use mathlib.Core.Path.{◌≡◌, refl}
use mathlib.Core.Bool.{Bool, true, false, ◌&&◌, ◌||◌}
use mathlib.Core.Option.{Option, none, some}
use mathlib.Core.List.{List, [], ◌∷◌, ◌++◌}
use native.Mathlib.Omega.{arith}
use fastapi_templates_xtn.Prelude.Tests.{if◌then◌else◌}

module _ {ℓ} {A : Type ℓ} where
  abbrev pub length : List A → ℕ
  length [] = 0
  length (x ∷ xs) = suc (length xs)

  -- `[x for x in xs if p(x)]`
  abbrev pub keep_if : (A → Bool) → List A → List A
  keep_if p [] = []
  keep_if p (x ∷ xs) = let rest = keep_if p xs in if p x then x ∷ rest else rest

  abbrev pub any : (A → Bool) → List A → Bool
  any p [] = false
  any p (x ∷ xs) = p x || any p xs

  abbrev pub all : (A → Bool) → List A → Bool
  all p [] = true
  all p (x ∷ xs) = p x && all p xs

  -- The first element that passes, as `session.scalar` returns the first row.
  abbrev pub first : (A → Bool) → List A → Option A
  first p [] = none
  first p (x ∷ xs) = let rest = first p xs in if p x then some x else rest

  -- Every row that passes the test is replaced, as an UPDATE does.
  abbrev pub update_if : (A → Bool) → (A → A) → List A → List A
  update_if p f [] = []
  update_if p f (x ∷ xs) = (if p x then f x else x) ∷ update_if p f xs

  abbrev pub All {κ} : (A → Type κ) → List A → Type κ
  All P [] = Unit
  All P (x ∷ xs) = P x × All P xs

module _ {ℓ} {A : Type ℓ} where
  pub first_holds : (p : A → Bool) (xs : List A) (x : A) → first p xs ≡ some x → p x ≡ true
  first_holds p [] x h = ground arith
  first_holds p (y ∷ xs) x h = ground (arith, first_holds p xs x)

  pub any-append : (p : A → Bool) (xs ys : List A) → any p (xs ++ ys) ≡ (any p xs || any p ys)
  any-append p [] ys = refl
  any-append p (x ∷ xs) ys = ground (arith, any-append p xs ys)

  pub All-update_if {κ} :
      (P : A → Type κ) (p : A → Bool) (f : A → A) (xs : List A)
      → ((x : A) → p x ≡ true → P x → P (f x))
      → All P xs
      → All P (update_if p f xs)
  All-update_if P p f [] keep h = tt
  All-update_if P p f (x ∷ xs) keep h = (choose (p x) (keep x) h.0, All-update_if P p f xs keep h.1)
    where
      choose : (b : Bool) → (b ≡ true → P x → P (f x)) → P x → P (if b then f x else x)
      choose true k hx = k refl hx
      choose false k hx = hx

  -- The first of the kept elements.
  pub first-keep_if :
      (p q : A → Bool) (xs : List A) → first p (keep_if q xs) ≡ first (λ x. p x && q x) xs
  first-keep_if p q [] = refl
  first-keep_if p q (x ∷ xs) = ground (arith, first-keep_if p q xs)

  pub first-ext : (p q : A → Bool) (xs : List A) → ((x : A) → p x ≡ q x) → first p xs ≡ first q xs
  first-ext p q [] h = refl
  first-ext p q (x ∷ xs) h = ground (arith, h x, first-ext p q xs h)
