-- ===== src/Resume/Base32/Inverse.antt =====
-- Reading base 32 undoes writing it (src/core/resume-token.ts).
use deqr.Common.{
  ℕ, ◌+◌, ◌-◌, ◌*◌, ◌/◌, ◌%◌, ◌^◌, ◌≤◌, ◌<◌, ◌≡◌, refl, ap, arith, List, [], ◌∷◌, get_or,
}
use deqr.Common.{for_all, for_all_at, ==_iff, Option, none, some, Bool, true, false, leb, ◌==◌}
use deqr.Resume.Base32.{alphabet, decode_char, read_from}

is_value : ℕ → Option ℕ → Bool
is_value i none = false
is_value i (some j) = j == i

value_table : for_all 32 (λ i. is_value i (decode_char (get_or alphabet i 0))) ≡ true
unfolding for_all is_value decode_char
value_table = refl

value_of : (i : ℕ) (o : Option ℕ) → is_value i o ≡ true → o ≡ some i
unfolding is_value
value_of i none h = absurd (cc)
value_of i (some j) h = ap some ((==_iff j i).0 h)

-- A character of the alphabet is read as its number.
pub decode_char-alphabet : (i : ℕ) → i < 32 → decode_char (get_or alphabet i 0) ≡ some i
decode_char-alphabet i h =
    value_of i (decode_char (get_or alphabet i 0))
      (for_all_at 32 (λ i. is_value i (decode_char (get_or alphabet i 0))) i value_table h)

-- The eight numbers that five bytes make.
abbrev pub digits : ℕ → ℕ → ℕ → ℕ → ℕ → List ℕ
digits a b c d e =
    (a / 8)
    ∷ (a % 8 * 4 + b / 64)
    ∷ (b / 2 % 32)
    ∷ (b % 2 * 16 + c / 16)
    ∷ (c % 16 * 2 + d / 128)
    ∷ (d / 4 % 32)
    ∷ (d % 4 * 8 + e / 32)
    ∷ (e % 32)
    ∷ []

-- Characters that are read as these numbers.
abbrev pub Reads : List ℕ → List ℕ → Type 0
Reads [] [] = Unit
Reads [] (v ∷ vs) = ⊥
Reads (c ∷ cs) [] = ⊥
Reads (c ∷ cs) (v ∷ vs) = (decode_char c ≡ some v) × Reads cs vs

abbrev push5 : ℕ → ℕ → ℕ
push5 acc v = (acc * 32 + v) % 2 ^ 32

pub byte_a :
    (acc a b : ℕ) → a < 256 → b < 256 → push5 (push5 acc (a / 8)) (a % 8 * 4 + b / 64) / 4 % 256 ≡ a
byte_a acc a b h k = omega arith

pub byte_b :
    (acc a b c : ℕ)
    → a < 256
    → b < 256
    → c < 256
    → push5 (push5 (push5 acc (a % 8 * 4 + b / 64)) (b / 2 % 32)) (b % 2 * 16 + c / 16) / 16 % 256
      ≡ b
byte_b acc a b c h k l = omega arith

pub byte_c :
    (acc b c d : ℕ)
    → b < 256
    → c < 256
    → d < 256
    → push5 (push5 acc (b % 2 * 16 + c / 16)) (c % 16 * 2 + d / 128) / 2 % 256 ≡ c
byte_c acc b c d h k l = omega arith

pub byte_d :
    (acc c d e : ℕ)
    → c < 256
    → d < 256
    → e < 256
    → push5 (push5 (push5 acc (c % 16 * 2 + d / 128)) (d / 4 % 32)) (d % 4 * 8 + e / 32) / 8 % 256
      ≡ d
byte_d acc c d e h k l = omega arith

pub byte_e :
    (acc d e : ℕ)
    → d < 256
    → e < 256
    → push5 (push5 acc (d % 4 * 8 + e / 32)) (e % 32) / 1 % 256 ≡ e
byte_e acc d e h k = omega arith

-- One byte more, and one character without a byte.
pub read_byte :
    (acc bits v : ℕ) (ch : ℕ) (chs : List ℕ) {byte : ℕ} {bytes : List ℕ}
    → decode_char ch ≡ some v
    → 8 ≤ bits + 5
    → push5 acc v / 2 ^ (bits + 5 - 8) % 256 ≡ byte
    → read_from (push5 acc v) (bits + 5 - 8) chs ≡ some bytes
    → read_from acc bits (ch ∷ chs) ≡ some (byte ∷ bytes)
unfolding read_from
read_byte acc bits v ch chs known enough value later =
    let test : leb 8 (bits + 5) ≡ true = ground arith in
    rw (known, read_from) (rw (test, later, value) refl)

pub read_more :
    (acc bits v : ℕ) (ch : ℕ) (chs : List ℕ) {o : Option (List ℕ)}
    → decode_char ch ≡ some v
    → bits + 5 < 8
    → read_from (push5 acc v) (bits + 5) chs ≡ o
    → read_from acc bits (ch ∷ chs) ≡ o
unfolding read_from
read_more acc bits v ch chs known few later =
    let test : leb 8 (bits + 5) ≡ false = ground arith in rw (known, read_from) (rw test later)
