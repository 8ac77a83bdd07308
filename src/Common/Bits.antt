-- ===== src/Common/Bits.antt =====
-- Bit operations on small numbers, by a table: the mask of an index of a ring of 16 bytes.
use Prim.Native.Nat.{ℕ, zero, suc, ◌%◌, ◌≤◌, bit_and}
use mathlib.Core.Path.{◌≡◌, refl}
use mathlib.Core.Bool.{Bool, true, ◌&&◌}
use native.Mathlib.Omega.{arith}
use cnc_3d.Common.Tests.{◌==◌}

-- Whether both sides agree at every number up to `bound`.
unfoldable pub agree_upto : (f g : ℕ → ℕ) (bound : ℕ) → Bool
agree_upto f g zero = f zero == g zero
agree_upto f g (suc bound) = agree_upto f g bound && f (suc bound) == g (suc bound)

pub agree_upto_sound :
    (f g : ℕ → ℕ) (bound x : ℕ) → agree_upto f g bound ≡ true → x ≤ bound → f x ≡ g x
unfolding agree_upto
agree_upto_sound f g zero zero h p = ground arith
agree_upto_sound f g zero (suc x) h p = absurd (omega arith)
agree_upto_sound f g (suc bound) zero h p = ground (arith, agree_upto_sound f g bound zero)
agree_upto_sound f g (suc bound) (suc x) h p = ground (arith, agree_upto_sound f g bound (suc x))

mask_table : agree_upto (λ x. bit_and x 15) (λ x. x % 16) 16 ≡ true
unfolding agree_upto
mask_table = refl

pub bit_and_fifteen : (x : ℕ) → x ≤ 16 → bit_and x 15 ≡ x % 16
bit_and_fifteen x p = agree_upto_sound _ _ 16 x mask_table p
