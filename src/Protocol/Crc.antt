-- ===== src/Protocol/Crc.antt =====
-- CRC-32 by a table of 256 entries (src/core/crc32.ts).
pub mod Bounds
use deqr.Common.{ℕ, zero, suc, ◌+◌, ◌-◌, ◌/◌, ◌%◌, ◌^◌, List, [], ◌∷◌, length, take, drop, get_or}
use deqr.Common.{min, bit_and, bit_xor, ◌==◌, if◌then◌else◌}
use Prim.Native.Nat.{max}

-- one round of the inner loop
crc_bit : ℕ → ℕ
crc_bit value = if bit_and value 1 == 0 then value / 2 else bit_xor 0xedb88320 (value / 2)

crc_bits : ℕ → ℕ → ℕ
crc_bits zero value = value
crc_bits (suc n) value = crc_bits n (crc_bit value)

-- The entries from `index` on, `left` of them.
table_from : ℕ → ℕ → List ℕ
table_from zero index = []
table_from (suc left) index = (crc_bits 8 index % 2 ^ 32) ∷ table_from left (index + 1)

unfoldable pub crc_table : List ℕ
unfolding crc_bit crc_bits table_from
crc_table = table_from 256 0

-- the body of the loop over the bytes
unfoldable pub crc_step : ℕ → ℕ → ℕ
unfolding crc_table
crc_step crc byte = bit_xor (get_or crc_table (bit_and (bit_xor crc byte) 0xff) 0) (crc / 2 ^ 8)

unfoldable pub crc_loop : ℕ → List ℕ → ℕ
crc_loop crc [] = crc
crc_loop crc (byte ∷ bytes) = crc_loop (crc_step crc byte) bytes

unfoldable pub crc32 : List ℕ → ℕ → ℕ → ℕ
unfolding crc_loop crc_step
crc32 bytes start end =
    let from = min start (length bytes) in
    let to = max from (min end (length bytes)) in
    bit_xor (crc_loop 0xffff_ffff (take (to - from) (drop from bytes))) 0xffff_ffff % 2 ^ 32
