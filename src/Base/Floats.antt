-- ===== src/Base/Floats.antt =====
-- Go's float64, which the model does not define: the operations that the program uses, and what
-- IEEE 754 says of `>`. Both laws hold for every float, NaN included.
use Prim.Native.Nat.{ℕ}
use mathlib.Core.Path.{◌≡◌}
use mathlib.Core.Bool.{Bool, true, false}
use buildkit_multipartable.Base.Int.{ℤ}

pub record Float64 : Type 1 where
  pub F : Type 0
  pub of_int : ℤ → F
  -- the literal `n / 10 ^ d`
  pub lit : ℕ → ℕ → F
  pub add : F → F → F
  pub mul : F → F → F
  pub div : F → F → F
  pub gt : F → F → Bool
  pub gt_irrefl : (x : F) → gt x x ≡ false
  pub gt_trans : (x y z : F) → gt x y ≡ true → gt y z ≡ true → gt x z ≡ true
