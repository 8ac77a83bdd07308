-- ===== src/Crc/Detect.antt =====
-- The checksum tells any change of one byte.
use Prim.Native.Nat.{bit_or}
use cnc_3d.Common.{ℕ, ◌+◌, ◌*◌, ◌/◌, ◌%◌, ◌<◌, ◌≡◌, ◌≢◌, refl, arith, true, List, [], ◌∷◌, ◌++◌}
use cnc_3d.Common.Bits.{agree_upto, agree_upto_sound}
use cnc_3d.Crc.{crc8_step, crc8_from, grbl_crc8}

rotate_table :
    agree_upto (λ x. bit_or (x * 2) (x / 128) % 256) (λ x. x * 2 % 256 + x / 128) 255 ≡ true
unfolding agree_upto
rotate_table = refl

-- The two parts of a rotated byte have no bit in common.
rotate : (x : ℕ) → x < 256 → bit_or (x * 2) (x / 128) % 256 ≡ x * 2 % 256 + x / 128
rotate x h = agree_upto_sound _ _ 255 x rotate_table (omega arith)

crc8_step-bound : (x b : ℕ) → crc8_step x b < 256
unfolding crc8_step
crc8_step-bound x b = omega arith

crc8_step_sum : (x b : ℕ) → x < 256 → crc8_step x b ≡ (x * 2 % 256 + x / 128 + b) % 256
unfolding crc8_step
crc8_step_sum x b h = omega (arith, rotate x h)

crc8_step-checksum :
    (x y b : ℕ) → x < 256 → y < 256 → b < 256 → crc8_step x b ≡ crc8_step y b → x ≡ y
crc8_step-checksum x y b p q r e = omega (arith, crc8_step_sum x b p, crc8_step_sum y b q)

crc8_step-byte : (x b c : ℕ) → x < 256 → b < 256 → c < 256 → crc8_step x b ≡ crc8_step x c → b ≡ c
crc8_step-byte x b c p q r e = omega (arith, crc8_step_sum x b p, crc8_step_sum x c p)

abbrev pub AllBytes : List ℕ → Type 0
AllBytes [] = Unit
AllBytes (b ∷ l) = (b < 256) × AllBytes l

crc8_from-checksum :
    (x y : ℕ) (l : List ℕ) → x < 256 → y < 256 → AllBytes l → crc8_from x l ≡ crc8_from y l → x ≡ y
unfolding crc8_from
crc8_from-checksum x y [] p q h e = e
crc8_from-checksum x y (b ∷ l) p q h e = crc8_step-checksum x y b p q h.0 (
    crc8_from-checksum (crc8_step x b) (crc8_step y b) l (crc8_step-bound x b) (crc8_step-bound y b)
      h.1 e)

changed_from :
    (x : ℕ) (before after : List ℕ) (b c : ℕ)
    → x < 256
    → b < 256
    → c < 256
    → AllBytes after
    → crc8_from x (before ++ (b ∷ after)) ≡ crc8_from x (before ++ (c ∷ after))
    → b ≡ c
unfolding crc8_from
changed_from x [] after b c p q r h e = crc8_step-byte x b c p q r (
    crc8_from-checksum (crc8_step x b) (crc8_step x c) after (crc8_step-bound x b)
      (crc8_step-bound x c) h e)
changed_from x (d ∷ before) after b c p q r h e =
    changed_from (crc8_step x d) before after b c (crc8_step-bound x d) q r h e

-- The checksum tells any change of a single byte, wherever it stands and whatever the others are:
-- data that differ in one byte only have different checksums.
pub grbl_crc8_lem :
    (before after : List ℕ) (b c : ℕ)
    → b < 256
    → c < 256
    → AllBytes after
    → b ≢ c
    → grbl_crc8 (before ++ (b ∷ after)) ≢ grbl_crc8 (before ++ (c ∷ after))
unfolding grbl_crc8
grbl_crc8_lem before after b c p q h n e = n (changed_from 0 before after b c (omega arith) p q h e)
