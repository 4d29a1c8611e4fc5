-- ===== src/Prelude/Tables.antt =====
-- Tables as lists of rows: primary keys, and what an UPDATE or an INSERT leaves alone.
use Prim.Native.Nat.{ℕ, ◌+◌, ◌≤◌}
use mathlib.Core.Path.{◌≡◌, refl, sym, ap, subst, ◌∙◌}
use mathlib.Core.Logic.{◌≢◌, inl, inr}
use mathlib.Core.Bool.{Bool, true, false}
use mathlib.Core.Option.{some}
use mathlib.Core.List.{List, [], ◌∷◌, ◌++◌}
use native.Mathlib.Omega.{arith}
use fastapi_templates_xtn.Prelude.Tests.{if◌then◌else◌, Bool-cases, nat_eq}
use fastapi_templates_xtn.Prelude.Lists.{keep_if, first, update_if, All, All-update_if, length}

module _ {ℓ} {A : Type ℓ} where
  -- No two rows have one key.
  abbrev pub KeyedBy : (A → ℕ) → List A → Type ℓ
  KeyedBy key [] = Unit
  KeyedBy key (x ∷ xs) = All (λ y. key y ≢ key x) xs × KeyedBy key xs

  pub All-map_of {κ μ} :
      {P : A → Type κ} {Q : A → Type μ} (xs : List A) → ((x : A) → P x → Q x) → All P xs → All Q xs
  All-map_of [] f h = tt
  All-map_of (x ∷ xs) f h = (f x h.0, All-map_of xs f h.1)

  pub All-append {κ} : (P : A → Type κ) (xs ys : List A) → All P xs → All P ys → All P (xs ++ ys)
  All-append P [] ys hx hy = hy
  All-append P (x ∷ xs) ys hx hy = (hx.0, All-append P xs ys hx.1 hy)

  -- The row that is found by its key is the only one with that key.
  pub KeyedBy-first :
      (key : A → ℕ) (p : A → Bool) (xs : List A) (r : A)
      → KeyedBy key xs
      → first p xs ≡ some r
      → All (λ x. key x ≡ key r → x ≡ r) xs
  KeyedBy-first key p [] r keyed found = tt
  KeyedBy-first key p (x ∷ xs) r keyed found = elim (Bool-cases (p x)) [
    | inl here ↦
        let same : x ≡ r = ground arith in
        (λ _. same, All-map_of xs (λ y other e. absurd (other (e ∙ ap key (sym same)))) keyed.0)
    | inr later ↦
        let found' : first p xs ≡ some r = ground arith in
        (
          λ e. absurd (first-not key p xs r (key x) keyed.0 found' (sym e)),
          KeyedBy-first key p xs r keyed.1 found',
        )
  ]
    where
      first-not :
          (key : A → ℕ) (p : A → Bool) (xs : List A) (r : A) (k : ℕ)
          → All (λ y. key y ≢ k) xs
          → first p xs ≡ some r
          → key r ≢ k
      first-not key p [] r k others found = cc
      first-not key p (y ∷ ys) r k others found = elim (Bool-cases (p y)) [
        | inl here ↦ let same : y ≡ r = ground arith in λ e. others.0 (ap key same ∙ e)
        | inr later ↦ first-not key p ys r k others.1 (ground arith)
      ]

  pub keep_if-append :
      (q : A → Bool) (xs ys : List A) → keep_if q (xs ++ ys) ≡ keep_if q xs ++ keep_if q ys
  keep_if-append q [] ys = refl
  keep_if-append q (x ∷ xs) ys = ground (arith, keep_if-append q xs ys)

  -- An update of rows outside a selection, to rows outside it, leaves the selection alone.
  pub keep_if-update_if :
      (q p : A → Bool) (f : A → A) (xs : List A)
      → All (λ x. p x ≡ true → (q x ≡ false) × (q (f x) ≡ false)) xs
      → keep_if q (update_if p f xs) ≡ keep_if q xs
  keep_if-update_if q p f [] h = refl
  keep_if-update_if q p f (x ∷ xs) h = elim (Bool-cases (p x)) [
    | inl hit ↦ rw (hit, (h.0 hit).1, (h.0 hit).0) (keep_if-update_if q p f xs h.1)
    | inr miss ↦ rw miss (step (q x) (keep_if-update_if q p f xs h.1))
  ]
    where
      step :
          (b : Bool) {us vs : List A}
          → us ≡ vs
          → (if b then x ∷ us else us) ≡ (if b then x ∷ vs else vs)
      step true e = ap (◌∷◌ x) e
      step false e = e

  -- Nothing to keep.
  pub keep_if-none : (q : A → Bool) (xs : List A) → All (λ x. q x ≡ false) xs → keep_if q xs ≡ []
  keep_if-none q [] h = refl
  keep_if-none q (x ∷ xs) h = ground (arith, keep_if-none q xs h.1)

  pub All-trivial {κ} : {P : A → Type κ} (xs : List A) → ((x : A) → P x) → All P xs
  All-trivial [] f = tt
  All-trivial (x ∷ xs) f = (f x, All-trivial xs f)

  -- The row that is found is one of the rows.
  pub first-All {κ} :
      (P : A → Type κ) (p : A → Bool) (xs : List A) (r : A) → All P xs → first p xs ≡ some r → P r
  first-All P p [] r h found = absurd (cc)
  first-All P p (x ∷ xs) r h found = elim (Bool-cases (p x)) [
    | inl here ↦ let same : x ≡ r = ground arith in subst P same h.0
    | inr later ↦ first-All P p xs r h.1 (ground arith)
  ]

  pub append_nil : (xs : List A) → xs ++ [] ≡ xs
  append_nil [] = refl
  append_nil (x ∷ xs) = ap (◌∷◌ x) (append_nil xs)

  pub length-append : (xs ys : List A) → length (xs ++ ys) ≡ length xs + length ys
  length-append [] ys = ground arith
  length-append (x ∷ xs) ys = ground (arith, length-append xs ys)

  -- An update after which no row is selected that was not before leaves at most as many.
  pub length-keep_if-update_if :
      (q p : A → Bool) (f : A → A) (xs : List A)
      → ((x : A) → q (f x) ≡ true → q x ≡ true)
      → length (keep_if q (update_if p f xs)) ≤ length (keep_if q xs)
  length-keep_if-update_if q p f [] h = ground arith
  length-keep_if-update_if q p f (x ∷ xs) h =
      ground (arith, h x, length-keep_if-update_if q p f xs h)

  others-update_if :
      (key : A → ℕ) (p : A → Bool) (f : A → A) (k : ℕ) (xs : List A)
      → ((x : A) → p x ≡ true → key (f x) ≡ key x)
      → All (λ y. key y ≢ k) xs
      → All (λ y. key y ≢ k) (update_if p f xs)
  others-update_if key p f k xs same h =
      All-update_if (λ y. key y ≢ k) p f xs (λ x hit other e. other (sym (same x hit) ∙ e)) h

  -- An update that leaves the keys alone.
  pub KeyedBy-update_if :
      (key : A → ℕ) (p : A → Bool) (f : A → A) (xs : List A)
      → ((x : A) → p x ≡ true → key (f x) ≡ key x)
      → KeyedBy key xs
      → KeyedBy key (update_if p f xs)
  KeyedBy-update_if key p f [] same h = tt
  KeyedBy-update_if key p f (x ∷ xs) same h =
      (head (p x) (same x), KeyedBy-update_if key p f xs same h.1)
    where
      head :
          (b : Bool)
          → (b ≡ true → key (f x) ≡ key x)
          → All (λ y. key y ≢ key (if b then f x else x)) (update_if p f xs)
      head true e =
          All-map_of (update_if p f xs) (λ y other e'. other (e' ∙ e refl))
            (others-update_if key p f (key x) xs same h.0)
      head false e = others-update_if key p f (key x) xs same h.0

  -- An insert with a new key.
  pub KeyedBy-append :
      (key : A → ℕ) (xs : List A) (y : A)
      → All (λ x. key x ≢ key y) xs
      → KeyedBy key xs
      → KeyedBy key (xs ++ y ∷ [])
  KeyedBy-append key [] y new h = (tt, tt)
  KeyedBy-append key (x ∷ xs) y new h = (
    All-append (λ z. key z ≢ key x) xs (y ∷ []) h.0 ((λ e. new.0 (sym e)), tt),
    KeyedBy-append key xs y new.1 h.1,
  )
