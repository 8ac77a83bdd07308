-- ===== src/Crc.antt =====
-- stm32_firmware/core-master/crc.c: the checksum of stored settings.
pub mod Detect
mod Examples
use Prim.Native.Nat.{bit_or}
use cnc_3d.Common.{ℕ, ◌+◌, ◌*◌, ◌/◌, ◌%◌, List, [], ◌∷◌}

-- One round: rotate the byte left by one bit, and add the next byte, each in eight bits.
unfoldable pub crc8_step : ℕ → ℕ → ℕ
crc8_step checksum byte = (bit_or (checksum * 2) (checksum / 128) % 256 + byte) % 256

unfoldable pub crc8_from : ℕ → List ℕ → ℕ
crc8_from checksum [] = checksum
crc8_from checksum (byte ∷ buf) = crc8_from (crc8_step checksum byte) buf

unfoldable pub grbl_crc8 : List ℕ → ℕ
grbl_crc8 buf = crc8_from 0 buf
