-- ===== src/Protocol/Crc/Bounds.antt =====
-- The range of the checksum, what it reads, and the checksum of a known text (src/core/crc32.ts).
use deqr.Common.{
  ℕ, ◌-◌, ◌%◌, ◌^◌, ◌≤◌, ◌<◌, ◌≡◌, refl, ap, ◌∙◌, List, [], ◌∷◌, ◌++◌, length, take, arith, min,
  bit_xor,
}
use deqr.Common.{take-append, length-append}
use Prim.Native.Nat.{max}
use deqr.Protocol.Crc.{crc_loop, crc32}

pub crc32-lt : (bytes : List ℕ) (start end : ℕ) → crc32 bytes start end < 2 ^ 32
unfolding crc32
crc32-lt bytes start end = omega arith

-- The checksum of the first `n` bytes.
pub crc32-prefix :
    (bytes : List ℕ) (n : ℕ)
    → n ≤ length bytes
    → crc32 bytes 0 n ≡ bit_xor (crc_loop 0xffff_ffff (take n bytes)) 0xffff_ffff % 2 ^ 32
unfolding crc32
crc32-prefix bytes n h =
    let from : min 0 (length bytes) ≡ 0 = omega arith in
    let to : max 0 (min n (length bytes)) - 0 ≡ n = omega arith in rw from (rw to refl)

abbrev pub checksum : List ℕ → ℕ
checksum bytes = bit_xor (crc_loop 0xffff_ffff bytes) 0xffff_ffff % 2 ^ 32

take-length : (xs : List ℕ) → take (length xs) xs ≡ xs
take-length [] = refl
take-length (x ∷ xs) = ap (λ t. x ∷ t) (take-length xs)

pub crc32-eq-checksum : (xs : List ℕ) → crc32 xs 0 (length xs) ≡ checksum xs
crc32-eq-checksum xs = crc32-prefix xs (length xs) (omega arith) ∙ ap checksum (take-length xs)

-- What stands behind the range does not count.
pub crc32-append : (xs ys : List ℕ) → crc32 (xs ++ ys) 0 (length xs) ≡ checksum xs
crc32-append xs ys =
    crc32-prefix (xs ++ ys) (length xs) (omega (arith, length-append xs ys))
    ∙ ap checksum (take-append xs ys)

-- "123456789" has the check value of CRC-32/ISO-HDLC.
crc32_check :
    crc32 (0x31 ∷ 0x32 ∷ 0x33 ∷ 0x34 ∷ 0x35 ∷ 0x36 ∷ 0x37 ∷ 0x38 ∷ 0x39 ∷ []) 0 9 ≡ 0xcbf43926
unfolding crc32
crc32_check = refl
