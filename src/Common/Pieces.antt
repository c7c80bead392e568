-- ===== src/Common/Pieces.antt =====
-- A run of `t` bytes cut into pieces of size `s`, numbered from 0.
use Prim.Native.Nat.{ℕ, zero, suc, ◌+◌, ◌-◌, ◌*◌, ◌/◌, ◌≤◌, ◌<◌, min}
use mathlib.Core.Path.{◌≡◌}
use mathlib.Core.Logic.{◌≢◌}
use native.Mathlib.Omega.{arith}
use native.Mathlib.Decide.{dec_le, ℕ_discrete}
use deqr.Common.Tests.{◌==◌, if◌then◌else◌}

-- (a + b - 1) / b, and Math.ceil(a / b)
abbrev pub div_up : ℕ → ℕ → ℕ
div_up a b = (a + b - 1) / b

pub div_up_bounds : (a b : ℕ) → 0 < a → 0 < b → (a ≤ b * div_up a b) × (b * div_up a b < a + b)
div_up_bounds a b p q = omega arith

pub count_fits : (t s m : ℕ) → 1 ≤ t → 1 ≤ s → div_up t s ≤ m → t ≤ s * m
count_fits t s m p q h = grind (arith, div_up_bounds t s p q)

pub fits_count : (t s m : ℕ) → 1 ≤ t → 1 ≤ s → t ≤ s * m → div_up t s ≤ m
fits_count t s m p q h = elim (dec_le (div_up t s) m) [
  | yes small ↦ small
  | no large ↦ absurd (too_many (div_up t s) (omega arith) (div_up_bounds t s p q).1)
]
  where
    too_many : (n : ℕ) → suc m ≤ n → s * n < t + s → ⊥
    too_many n lt b = grind arith

-- The pieces before the last one of `n` pieces of size `s`.
pub before_last : (t s n : ℕ) → 1 ≤ t → t ≤ s * n → (1 ≤ n) × (s * (n - 1) + s ≡ s * n)
before_last t s zero p h = absurd (omega arith)
before_last t s (suc n) p h = (omega arith, grind arith)

pub next_piece : (s i n : ℕ) → i < n → s * i + s ≤ s * n
next_piece s i n h = grind arith

pub piece_bound : (s i n t : ℕ) → s * i ≤ t → t < s * n → i < n
piece_bound s i n t p q = grind arith

pieces_apart : (s i j o : ℕ) → s * i ≤ o → o < s * j + s → i < suc j
pieces_apart s i j o p q = piece_bound s i (suc j) o p (grind arith)

pub same_piece : (s i j o : ℕ) → s * i ≤ o → o < s * i + s → s * j ≤ o → o < s * j + s → i ≡ j
same_piece s i j o a b c d = omega (arith, pieces_apart s i j o a d, pieces_apart s j i o c b)

pub piece_of : (s o : ℕ) → 0 < s → (s * (o / s) ≤ o) × (o < s * (o / s) + s)
piece_of s o h = omega arith

pub last_piece : (s i n : ℕ) → i < n → i ≡ n - 1 → s * i + s ≡ s * n
last_piece s i n h e = let e' : n ≡ suc i = omega arith in rw e' (grind arith)

-- The segments before the last one end before the stream does.
pub whole_piece : (s i n : ℕ) → i < n → i ≢ n - 1 → s * i + s ≤ s * (n - 1)
whole_piece s i n h e = next_piece s i (n - 1) (omega arith)

-- Where piece `i` of `n` pieces of size `s` ends, if `t` bytes fill all but a part of the last.
pub piece_end :
    (s i n t : ℕ)
    → i < n
    → s * (n - 1) < t
    → t ≤ s * n
    → (if i == n - 1 then t else s * i + s) ≡ min (s * i + s) t
piece_end s i n t h a b = elim (ℕ_discrete i (n - 1)) [
  | yes e ↦ ground (arith, last_piece s i n h e)
  | no e ↦ ground (arith, whole_piece s i n h e)
]
