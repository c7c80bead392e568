-- ===== src/Fec/Decoder/Bitmap.antt =====
-- The bitmap of solved symbols (markSolved and isSolved of src/core/segment-decoder.ts).
use deqr.Common.{
  for_all, for_all_at, ℕ, zero, suc, ◌+◌, ◌/◌, ◌%◌, ◌^◌, ◌≤◌, ◌<◌, ◌≡◌, refl, sym, ap, ◌∙◌, arith,
  List, length, get_or, set,
}
use deqr.Common.{
  Bool, true, false, ◌==◌, ==_iff, if◌then◌else◌, bit_and, bit_or, get_or-set_same,
  get_or-set_other,
}
use native.Mathlib.Nat.{pow-suc}
use Prim.Native.Nat.{bit_and-bitwise}
use deqr.Common.{replicate, All-replicate, All, All-set, All-get_or, length-set}
use native.Mathlib.Decide.{ℕ_discrete}
use deqr.Fec.Decoder.{is_set, set_bit}

-- Setting bit `k` of a byte sets that bit and keeps the others.
bit_test : ℕ → ℕ → ℕ → Bool
bit_test b k j =
    bit_and (bit_or b (2 ^ k) % 256) (2 ^ j) == (if k == j then 2 ^ j else bit_and b (2 ^ j))

bit_table : for_all 8 (λ k. for_all 8 (λ j. for_all 256 (λ b. bit_test b k j))) ≡ true
unfolding for_all bit_test
bit_table = refl

bit_law :
    (b k j : ℕ)
    → b < 256
    → k < 8
    → j < 8
    → bit_and (bit_or b (2 ^ k) % 256) (2 ^ j) ≡ (if k == j then 2 ^ j else bit_and b (2 ^ j))
unfolding bit_test
bit_law b k j hb hk hj = (==_iff _ _).0 (
    for_all_at 256 (λ b. bit_test b k j) b
      (for_all_at 8 (λ j. for_all 256 (λ b. bit_test b k j)) j
        (for_all_at 8 (λ k. for_all 8 (λ j. for_all 256 (λ b. bit_test b k j))) k bit_table hk) hj)
      hb)

power_pos : (k : ℕ) → k < 8 → 1 ≤ 2 ^ k
power_pos zero h = omega arith
power_pos (suc k) h = omega (arith, pow-suc 2 k, power_pos k (omega arith))

get_or-at : (xs : List ℕ) (i j : ℕ) → i ≡ j → get_or xs i 0 ≡ get_or xs j 0
get_or-at xs i j e = cc

-- Setting a bit sets that bit and no other.
pub is_set-set_bit :
    (bits : List ℕ) (i j : ℕ)
    → All (λ b. b < 256) bits
    → i / 8 < length bits
    → is_set (set_bit bits i) j ≡ (if i == j then true else is_set bits j)
unfolding is_set set_bit
is_set-set_bit bits i j bytes inside = elim (ℕ_discrete (i / 8) (j / 8)) [
  | yes same ↦
      let b = get_or bits (i / 8) 0 in
      let written =
        sym (get_or-at (set bits (i / 8) (bit_or b (2 ^ (i % 8)) % 256)) (i / 8) (j / 8) same)
        ∙ get_or-set_same bits (i / 8) (bit_or b (2 ^ (i % 8)) % 256) 0 (omega arith) in
      let law =
        bit_law b (i % 8) (j % 8) (All-get_or (λ b. b < 256) bits (i / 8) 0 (omega arith) bytes)
          (omega arith) (omega arith) in
      ground
        (arith, written, law, get_or-at bits (i / 8) (j / 8) same, power_pos (j % 8) (omega arith))
  | no other ↦ ground (
    arith,
    get_or-set_other bits (i / 8) (j / 8) (bit_or (get_or bits (i / 8) 0) (2 ^ (i % 8)) % 256) 0
        other,
  )
]

pub set_bit-IsBytes :
    (bits : List ℕ) (i : ℕ) → All (λ b. b < 256) bits → All (λ b. b < 256) (set_bit bits i)
unfolding set_bit
set_bit-IsBytes bits i h = All-set (λ b. b < 256) bits (i / 8) _ (omega arith) h

pub length-set_bit : (bits : List ℕ) (i : ℕ) → length (set_bit bits i) ≡ length bits
unfolding set_bit
length-set_bit bits i = length-set bits (i / 8) _

-- How many of the first `n` bits are set.
abbrev tally_one : List ℕ → ℕ → ℕ
tally_one bits i = if is_set bits i then 1 else 0

unfoldable pub tally : List ℕ → ℕ → ℕ
tally bits zero = 0
tally bits (suc n) = tally_one bits n + tally bits n

pub tally_le : (bits : List ℕ) (n : ℕ) → tally bits n ≤ n
unfolding tally
tally_le bits zero = omega arith
tally_le bits (suc n) = ground (arith, tally_le bits n)

-- A full count means that every bit is set.
pub tally_full : (bits : List ℕ) (n i : ℕ) → tally bits n ≡ n → i < n → is_set bits i ≡ true
unfolding tally
tally_full bits zero i h lt = absurd (omega arith)
tally_full bits (suc n) i h lt = elim (ℕ_discrete i n) [
  | yes e ↦ ground (arith, tally_le bits n, ap (is_set bits) e)
  | no ne ↦ tally_full bits n i (ground (arith, tally_le bits n)) (omega arith)
]

pub tally_all :
    (bits : List ℕ) (n : ℕ) → ((i : ℕ) → i < n → is_set bits i ≡ true) → tally bits n ≡ n
unfolding tally
tally_all bits zero h = refl
tally_all bits (suc n) h =
    ground (arith, h n (omega arith), tally_all bits n (λ i lt. h i (omega arith)))

tally-set_bit_other :
    (bits : List ℕ) (n i : ℕ)
    → All (λ b. b < 256) bits
    → i / 8 < length bits
    → n ≤ i
    → tally (set_bit bits i) n ≡ tally bits n
unfolding tally
tally-set_bit_other bits zero i b h le = refl
tally-set_bit_other bits (suc n) i b h le =
    ground (arith, is_set-set_bit bits i n b h, tally-set_bit_other bits n i b h (omega arith))

-- Setting a bit that was not set adds one.
pub tally-set_bit :
    (bits : List ℕ) (n i : ℕ)
    → All (λ b. b < 256) bits
    → i / 8 < length bits
    → is_set bits i ≡ false
    → i < n
    → tally (set_bit bits i) n ≡ 1 + tally bits n
unfolding tally
tally-set_bit bits zero i b h e lt = absurd (omega arith)
tally-set_bit bits (suc n) i b h e lt = elim (ℕ_discrete i n) [
  | yes same ↦
      let bit = ap (is_set bits) same in
      ground
        (arith, bit, is_set-set_bit bits i n b h, tally-set_bit_other bits n i b h (omega arith))
  | no ne ↦ ground (arith, is_set-set_bit bits i n b h, tally-set_bit bits n i b h e (omega arith))
]

pub zero-bit_and : (b : ℕ) → bit_and 0 b ≡ 0
zero-bit_and b = bit_and-bitwise 0 b

-- A bitmap of zeros has no bit set.
pub is_set-replicate : (m i : ℕ) → is_set (replicate m 0) i ≡ false
unfolding is_set
is_set-replicate m i =
    let zeroed =
      All-get_or (λ (b : ℕ). b ≡ 0) (replicate m 0) (i / 8) 0 refl
        (All-replicate (λ (b : ℕ). b ≡ 0) m 0 refl) in
    rw (zeroed, zero-bit_and (2 ^ (i % 8))) refl

pub tally-replicate : (m n : ℕ) → tally (replicate m 0) n ≡ 0
unfolding tally
tally-replicate m zero = refl
tally-replicate m (suc n) = ground (arith, is_set-replicate m n, tally-replicate m n)
