-- ===== src/Base/Text.antt =====
-- Go strings as lists of bytes.
use Prim.Native.Nat.{ℕ}
use Prim.Native.Char.{code}
use Prim.Native.String.{String}
use mathlib.Core.Path.{◌≡◌, refl}
use mathlib.Core.Logic.{◌↔◌, ◌≢◌}
use mathlib.Core.Bool.{Bool, true, false, ◌&&◌}
use mathlib.Core.List.{List, [], ◌∷◌}
use native.Mathlib.Omega.{arith}
use buildkit_multipartable.Base.Tests.{◌==◌}

abbrev pub Bytes : Type 0
Bytes = List ℕ

-- The code points of a literal, which are its bytes when the text is ASCII.
abbrev pub codes : String → Bytes
codes String.[] = []
codes (String.◌∷◌ c s) = code c ∷ codes s

-- `==` on strings.
unfoldable pub eqb : Bytes → Bytes → Bool
eqb [] [] = true
eqb (a ∷ x) (b ∷ y) = (a == b) && eqb x y
eqb _ _ = false

pub eqb_iff : (x y : Bytes) → (eqb x y ≡ true) ↔ (x ≡ y)
unfolding eqb
eqb_iff [] [] = ground arith
eqb_iff (a ∷ x) (b ∷ y) = ground (arith, eqb_iff x y)
eqb_iff [] (b ∷ y) = ground arith
eqb_iff (a ∷ x) [] = ground arith

pub eqb_refl : (x : Bytes) → eqb x x ≡ true
eqb_refl x = (eqb_iff x x).1 refl

pub eqb_ne : (x y : Bytes) → x ≢ y → eqb x y ≡ false
eqb_ne x y h = ground (arith, eqb_iff x y)
