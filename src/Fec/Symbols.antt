-- ===== src/Fec/Symbols.antt =====
-- The bytes of symbols: XOR in place, and the blocks of a buffer.
use deqr.Common.{ℕ, ◌+◌, ◌-◌, ◌*◌, List, [], ◌∷◌, take, drop, bit_xor}
pub mod Laws

-- target[i] ^= bytes[i] for every i of `bytes`, which is not longer
unfoldable pub xor_into : List ℕ → List ℕ → List ℕ
xor_into [] bytes = []
xor_into (t ∷ target) [] = t ∷ target
xor_into (t ∷ target) (b ∷ bytes) = bit_xor t b ∷ xor_into target bytes

-- buffer.subarray(index * size, (index + 1) * size)
unfoldable pub block_at : List ℕ → ℕ → ℕ → List ℕ
block_at buffer size index = take size (drop (index * size) buffer)
