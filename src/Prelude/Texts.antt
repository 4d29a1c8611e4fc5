-- ===== src/Prelude/Texts.antt =====
-- Texts: what follows a common beginning.
use Prim.Native.String.{String, [], ◌∷◌, ◌++◌}
use Prim.Native.String.append
use mathlib.Core.Path.{◌≡◌, sym, ◌∙◌}
use native.Mathlib.Omega.{arith}

pub append_injective : (p a b : String) → p ++ a ≡ p ++ b → a ≡ b
append_injective [] a b h = sym (append.nil a) ∙ h ∙ append.nil b
append_injective (c ∷ p) a b h =
    append_injective p a b (same_tail (sym (append.cons c p a) ∙ h ∙ append.cons c p b))
  where
    same_tail : {x y : String} → (c ∷ x) ≡ (c ∷ y) → x ≡ y
    same_tail e = ground arith
