-- ===== src/Fec/Decoder/Blocks.antt =====
-- Writing one block of the segment and reading another (src/core/segment-decoder.ts).
use deqr.Common.{
  ℕ, zero, suc, ◌+◌, ◌*◌, ◌≤◌, ◌<◌, ◌≡◌, ◌≢◌, refl, ap, arith, List, [], ◌∷◌, length, take, drop,
  length-take, length-drop,
}
use native.Mathlib.Decide.{dec_lt}
use deqr.Protocol.Buffer.{write}
use deqr.Fec.Symbols.{block_at}

pub length-write : (bs ys : List ℕ) (o : ℕ) → length (write bs o ys) ≡ length bs
unfolding write
length-write [] ys o = refl
length-write (b ∷ bs) ys (suc o) = ap suc (length-write bs ys o)
length-write (b ∷ bs) [] zero = refl
length-write (b ∷ bs) (y ∷ ys) zero = ap suc (length-write bs ys 0)

cons : {x : ℕ} {a b : List ℕ} → a ≡ b → x ∷ a ≡ x ∷ b
cons q = cc

take-write : (bs ys : List ℕ) (n : ℕ) → length ys ≡ n → n ≤ length bs → take n (write bs 0 ys) ≡ ys
unfolding write
take-write bs [] zero h k = refl
take-write bs [] (suc n) h k = absurd (omega arith)
take-write bs (y ∷ ys) zero h k = absurd (omega arith)
take-write [] (y ∷ ys) (suc n) h k = absurd (omega arith)
take-write (b ∷ bs) (y ∷ ys) (suc n) h k = cons (take-write bs ys n (omega arith) (omega arith))

piece-write_same :
    (bs ys : List ℕ) (n o : ℕ)
    → length ys ≡ n
    → o + n ≤ length bs
    → take n (drop o (write bs o ys)) ≡ ys
unfolding write
piece-write_same bs ys n zero h k = take-write bs ys n h (omega arith)
piece-write_same [] [] zero (suc o) h k = absurd (omega arith)
piece-write_same [] ys n (suc o) h k = absurd (omega arith)
piece-write_same (b ∷ bs) ys n (suc o) h k = piece-write_same bs ys n o h (omega arith)

piece-write_after :
    (bs ys : List ℕ) (n o p : ℕ) → p + n ≤ o → take n (drop p (write bs o ys)) ≡ take n (drop p bs)
unfolding write
piece-write_after [] ys n o p h = refl
piece-write_after (b ∷ bs) ys zero zero zero h = refl
piece-write_after (b ∷ bs) ys (suc n) zero zero h = absurd (omega arith)
piece-write_after (b ∷ bs) ys n zero (suc p) h = absurd (omega arith)
piece-write_after (b ∷ bs) ys zero (suc o) zero h = refl
piece-write_after (b ∷ bs) ys (suc n) (suc o) zero h =
    cons (piece-write_after bs ys n o 0 (omega arith))
piece-write_after (b ∷ bs) ys n (suc o) (suc p) h = piece-write_after bs ys n o p (omega arith)

drop-write : (bs ys : List ℕ) (o p : ℕ) → o + length ys ≤ p → drop p (write bs o ys) ≡ drop p bs
unfolding write
drop-write [] ys o p h = refl
drop-write (b ∷ bs) [] zero p h = refl
drop-write (b ∷ bs) (y ∷ ys) zero zero h = absurd (omega arith)
drop-write (b ∷ bs) (y ∷ ys) zero (suc p) h = drop-write bs ys 0 p (omega arith)
drop-write (b ∷ bs) ys (suc o) zero h = absurd (omega arith)
drop-write (b ∷ bs) ys (suc o) (suc p) h = drop-write bs ys o p (omega arith)

pub block_at-write_same :
    (bs ys : List ℕ) (size i : ℕ)
    → length ys ≡ size
    → i * size + size ≤ length bs
    → block_at (write bs (i * size) ys) size i ≡ ys
unfolding block_at
block_at-write_same bs ys size i h k = piece-write_same bs ys size (i * size) h k

apart : (i j size : ℕ) → i < j → i * size + size ≤ j * size
apart i j size h = grind arith

pub block_at-write_other :
    (bs ys : List ℕ) (size i j : ℕ)
    → length ys ≡ size
    → i ≢ j
    → block_at (write bs (i * size) ys) size j ≡ block_at bs size j
unfolding block_at
block_at-write_other bs ys size i j h n = elim (dec_lt i j) [
  | yes below ↦
      ap (take size) (drop-write bs ys (i * size) (j * size) (omega (arith, apart i j size below)))
  | no above ↦
      piece-write_after bs ys size (i * size) (j * size)
        (omega (arith, apart j i size (omega arith)))
]

pub length-block_at :
    (bs : List ℕ) (size i : ℕ) → i * size + size ≤ length bs → length (block_at bs size i) ≡ size
unfolding block_at
length-block_at bs size i h =
    omega (arith, length-take size (drop (i * size) bs), length-drop (i * size) bs)
