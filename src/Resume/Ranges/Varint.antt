-- ===== src/Resume/Ranges/Varint.antt =====
-- Numbers in groups of seven bits (src/core/resume-token.ts).
use deqr.Common.{
  ℕ, zero, suc, ◌+◌, ◌*◌, ◌/◌, ◌%◌, ◌^◌, ◌≤◌, ◌<◌, ◌≡◌, refl, ap, ◌∙◌, arith, List, [], ◌∷◌, ◌++◌,
  length,
}
use deqr.Common.{some, false, leb, le→leb, lt→ltb, le→ltb}
use native.Mathlib.Nat.{mul_assoc, add-mul, mul_comm}
use native.Mathlib.Decide.{dec_lt}
use deqr.Resume.Ranges.{varint_from, write_varint, varint_in, read_varint}

-- A byte with a continuation bit, or the last one.
one_byte : (fuel v : ℕ) → v < 128 → varint_from fuel v ≡ v ∷ []
unfolding varint_from
one_byte zero v h = ap (λ b. b ∷ []) (omega arith)
one_byte (suc fuel) v h =
    let test : leb 128 v ≡ false = ground arith in rw test (ap (λ b. b ∷ []) (omega arith))

pub first_byte :
    (fuel v : ℕ) → 128 ≤ v → varint_from (suc fuel) v ≡ (v % 128 + 128) ∷ varint_from fuel (v / 128)
unfolding varint_from
first_byte fuel v h = rw (le→leb 128 v h) refl

-- The sum that a number and its next digits make.
digits_sum :
    (v shift value : ℕ) → value + v % 128 * shift + v / 128 * (shift * 128) ≡ value + v * shift
digits_sum v shift value =
    let apart : v ≡ v % 128 + v / 128 * 128 = omega arith in
    let total : v * shift ≡ v % 128 * shift + v / 128 * (shift * 128) =
      ap (λ t. t * shift) apart
      ∙ add-mul (v % 128) (v / 128 * 128) shift
      ∙ ap (λ t. v % 128 * shift + t)
          (mul_assoc (v / 128) 128 shift ∙ ap (λ t. v / 128 * t) (mul_comm 128 shift)) in
    omega (arith, total)

-- 128 to the power of one more than the number.
pub bound : ℕ → ℕ
bound zero = 128
bound (suc steps) = 128 * bound steps

read_last :
    (steps fuel v shift value : ℕ) (rest : List ℕ)
    → v < 128
    → varint_in (suc steps) shift value (varint_from fuel v ++ rest)
      ≡ some (value + v * shift, rest)
unfolding varint_in
read_last steps fuel v shift value rest small =
    let digit : v % 128 ≡ v = omega arith in
    rw (one_byte fuel v small) (rw (lt→ltb v 128 small, digit) refl)

read_first :
    (steps fuel v shift value : ℕ) (rest : List ℕ)
    → 128 ≤ v
    → varint_in (suc steps) shift value (varint_from (suc fuel) v ++ rest)
      ≡ varint_in steps (shift * 128) (value + v % 128 * shift) (varint_from fuel (v / 128) ++ rest)
unfolding varint_in
read_first steps fuel v shift value rest large =
    let digit : (v % 128 + 128) % 128 ≡ v % 128 = omega arith in
    rw (first_byte fuel v large) (rw (le→ltb (v % 128 + 128) 128 (omega arith), digit) refl)

read_written :
    (steps fuel v shift value : ℕ) (rest : List ℕ)
    → steps ≤ fuel
    → v < bound steps
    → varint_in (suc steps) shift value (varint_from fuel v ++ rest)
      ≡ some (value + v * shift, rest)
unfolding bound
read_written zero fuel v shift value rest h k = read_last 0 fuel v shift value rest k
read_written (suc steps) zero v shift value rest h k = absurd (omega arith)
read_written (suc steps) (suc fuel) v shift value rest h k = elim (dec_lt v 128) [
  | yes small ↦ read_last (suc steps) (suc fuel) v shift value rest small
  | no large ↦
      read_first (suc steps) fuel v shift value rest (omega arith)
      ∙ read_written steps fuel (v / 128) (shift * 128) (value + v % 128 * shift) rest (omega arith)
          (omega arith)
      ∙ ap (λ t. some (t, rest)) (digits_sum v shift value)
]

-- A number below 2^35 is read back, and the reader stops behind it.
pub read_varint-write_varint :
    (v : ℕ) (rest : List ℕ) → v < 2 ^ 35 → read_varint (write_varint v ++ rest) ≡ some (v, rest)
unfolding read_varint write_varint
read_varint-write_varint v rest h =
    read_written 4 8 v 1 0 rest (omega arith) (unfold bound in h)
    ∙ ap (λ t. some (t, rest)) (omega arith)

pub varint-grows : (fuel v : ℕ) → 1 ≤ length (varint_from fuel v)
unfolding varint_from
varint-grows zero v = omega arith
varint-grows (suc fuel) v = ground arith
