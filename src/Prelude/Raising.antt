-- ===== src/Prelude/Raising.antt =====
-- A computation that may raise, in the style of exceptions, for any type of error.
use mathlib.Core.Path.{◌≡◌, refl, subst}
use mathlib.Core.Logic.{◌⊎◌, inl, inr}
use mathlib.Core.Bool.{Bool, true, false}
use mathlib.Core.Option.{Option, none, some}

pub data Result (E : Type 0) (A : Type 0) : Type 0 where
  ok : A → Result E A
  err : E → Result E A

infixl 5 ◌>>=◌ ◌>>◌
abbrev pub ◌>>=◌ : {E A B : Type 0} → Result E A → (A → Result E B) → Result E B
ok a >>= f = f a
err e >>= f = err e

abbrev pub ◌>>◌ : {E B : Type 0} → Result E (Unit {0}) → Result E B → Result E B
m >> k = m >>= λ _. k

module _ {E : Type 0} where
  -- `if not b: raise e`
  abbrev pub require : Bool → E → Result E (Unit {0})
  require true e = ok tt
  require false e = err e

  -- `if b: raise e`
  abbrev pub raise_if : Bool → E → Result E (Unit {0})
  raise_if true e = err e
  raise_if false e = ok tt

  module _ {A : Type 0} where
    -- `if o is None: raise e`
    abbrev pub or_raise : Option A → E → Result E A
    or_raise none e = err e
    or_raise (some a) e = ok a

    -- What holds of the result, if the computation returns one.
    abbrev pub Ensures {ℓ} : Result E A → (A → Type ℓ) → Type ℓ
    Ensures (ok a) P = P a
    Ensures (err e) P = Unit

  module _ {A B : Type 0} where
    pub bind_ok {ℓ} :
        (m : Result E A) (f : A → Result E B) (P : B → Type ℓ)
        → ((a : A) → m ≡ ok a → Ensures (f a) P)
        → Ensures (m >>= f) P
    bind_ok (ok a) f P h = h a refl
    bind_ok (err e) f P h = tt

  module _ {A B : Type 0} where
    pub bind_inv :
        (m : Result E A) (f : A → Result E B) {b : B}
        → (m >>= f) ≡ ok b
        → (a : A) × (m ≡ ok a) × (f a ≡ ok b)
    bind_inv (ok a) f h = (a, refl, h)
    bind_inv (err e) f h = cc

  module _ {B : Type 0} where
    pub require_ok {ℓ} :
        (b : Bool) (e : E) (f : Unit {0} → Result E B) (P : B → Type ℓ)
        → (b ≡ true → Ensures (f tt) P)
        → Ensures (require b e >>= f) P
    require_ok true e f P h = h refl
    require_ok false e f P h = tt

    pub raise_if_ok {ℓ} :
        (b : Bool) (e : E) (f : Unit {0} → Result E B) (P : B → Type ℓ)
        → (b ≡ false → Ensures (f tt) P)
        → Ensures (raise_if b e >>= f) P
    raise_if_ok true e f P h = tt
    raise_if_ok false e f P h = h refl

module _ {E A : Type 0} where
  pub ensured {ℓ} : {m : Result E A} {a : A} (P : A → Type ℓ) → m ≡ ok a → Ensures m P → P a
  ensured P h e = subst (λ r. Ensures r P) h e

  -- A result and the equation that it is the computation's.
  pub Result-cases : (m : Result E A) → ((a : A) × (m ≡ ok a)) ⊎ ((e : E) × (m ≡ err e))
  Result-cases (ok a) = inl (a, refl)
  Result-cases (err e) = inr (e, refl)

  pub Ensures-map {ℓ κ} :
      (m : Result E A) (P : A → Type ℓ) (Q : A → Type κ)
      → ((a : A) → P a → Q a)
      → Ensures m P
      → Ensures m Q
  Ensures-map (ok a) P Q f h = f a h
  Ensures-map (err e) P Q f h = tt

  pub or_raise-some : (o : Option A) (e : E) (a : A) → or_raise o e ≡ ok a → o ≡ some a
  or_raise-some none e a h = cc
  or_raise-some (some x) e a h = cc

  pub Ensures-of {ℓ} : (m : Result E A) {P : A → Type ℓ} → ((a : A) → m ≡ ok a → P a) → Ensures m P
  Ensures-of (ok a) h = h a refl
  Ensures-of (err e) h = tt
