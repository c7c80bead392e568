-- ===== src/Resume/Base32/RoundTrip.antt =====
-- Base 32 over a whole number of blocks of five bytes (src/core/resume-token.ts).
use deqr.Common.{
  ℕ, suc, ◌+◌, ◌*◌, ◌/◌, ◌%◌, ◌^◌, ◌<◌, ◌≡◌, refl, arith, List, [], ◌∷◌, ◌++◌, length, get_or, All,
  All-append, map,
}
use deqr.Common.{some, for_all, for_all_at, Bool, true, not, ◌&&◌, ltb, leb}
use deqr.Protocol.Buffer.Laws.{IsBytes}
use deqr.Resume.Base32.{alphabet, decode_char, emit, base32_from, read_from, is_space_or_hyphen}
use deqr.Resume.Base32.Inverse.{
  decode_char-alphabet, digits, byte_a, byte_b, byte_c, byte_d, byte_e, read_byte, read_more,
}

abbrev push8 : ℕ → ℕ → ℕ
push8 acc v = (acc * 256 + v) % 2 ^ 32

abbrev symbol : ℕ → ℕ
symbol v = get_or alphabet v 0

-- The accumulator after five bytes.
abbrev after : ℕ → ℕ → ℕ → ℕ → ℕ → ℕ → ℕ
after acc a b c d e = push8 (push8 (push8 (push8 (push8 acc a) b) c) d) e

chars : ℕ → ℕ → ℕ → ℕ → ℕ → ℕ → List ℕ
chars acc a b c d e =
    let a1 = push8 acc a in
    let b1 = push8 a1 b in
    let c1 = push8 b1 c in
    let d1 = push8 c1 d in
    let e1 = push8 d1 e in
    (a1 / 2 ^ 3 % 32)
    ∷ (b1 / 2 ^ 6 % 32)
    ∷ (b1 / 2 ^ 1 % 32)
    ∷ (c1 / 2 ^ 4 % 32)
    ∷ (d1 / 2 ^ 7 % 32)
    ∷ (d1 / 2 ^ 2 % 32)
    ∷ (e1 / 2 ^ 5 % 32)
    ∷ (e1 / 2 ^ 0 % 32)
    ∷ []

write_block :
    (acc a b c d e : ℕ) (bytes : List ℕ)
    → base32_from acc 0 (a ∷ b ∷ c ∷ d ∷ e ∷ bytes)
      ≡ map symbol (chars acc a b c d e) ++ base32_from (after acc a b c d e) 0 bytes
unfolding base32_from emit chars
write_block acc a b c d e bytes = refl

chars-digits :
    (acc a b c d e : ℕ)
    → a < 256
    → b < 256
    → c < 256
    → d < 256
    → e < 256
    → chars acc a b c d e ≡ digits a b c d e
unfolding chars
chars-digits acc a b c d e ha hb hc hd he =
    let p1 : push8 acc a / 2 ^ 3 % 32 ≡ a / 8 = omega arith in
    let p2 : (x : ℕ) → push8 (push8 x a) b / 2 ^ 6 % 32 ≡ a % 8 * 4 + b / 64 = λ x. omega arith in
    let p3 : (x : ℕ) → push8 x b / 2 ^ 1 % 32 ≡ b / 2 % 32 = λ x. omega arith in
    let p4 : (x : ℕ) → push8 (push8 x b) c / 2 ^ 4 % 32 ≡ b % 2 * 16 + c / 16 = λ x. omega arith in
    let p5 : (x : ℕ) → push8 (push8 x c) d / 2 ^ 7 % 32 ≡ c % 16 * 2 + d / 128 = λ x. omega arith in
    let p6 : (x : ℕ) → push8 x d / 2 ^ 2 % 32 ≡ d / 4 % 32 = λ x. omega arith in
    let p7 : (x : ℕ) → push8 (push8 x d) e / 2 ^ 5 % 32 ≡ d % 4 * 8 + e / 32 = λ x. omega arith in
    let p8 : (x : ℕ) → push8 x e / 2 ^ 0 % 32 ≡ e % 32 = λ x. omega arith in
    rw (p1, p2, p3, p4, p5, p6, p7, p8) refl

-- The eight characters of five bytes are read as these bytes.
read_block :
    (acc a b c d e : ℕ) (rest : List ℕ) {bytes : List ℕ}
    → a < 256
    → b < 256
    → c < 256
    → d < 256
    → e < 256
    → ((acc : ℕ) → read_from acc 0 rest ≡ some bytes)
    → read_from acc 0 (map symbol (digits a b c d e) ++ rest) ≡ some (a ∷ b ∷ c ∷ d ∷ e ∷ bytes)
read_block acc a b c d e rest ha hb hc hd he later =
    let known : (v : ℕ) → v < 32 → decode_char (symbol v) ≡ some v = decode_char-alphabet in
    read_more acc 0 _ _ _ (known (a / 8) (omega arith)) (omega arith) (
      read_byte _ 5 _ _ _ (known (a % 8 * 4 + b / 64) (omega arith)) (omega arith)
        (byte_a acc a b ha hb)
        (read_more _ 2 _ _ _ (known (b / 2 % 32) (omega arith)) (omega arith) (
          read_byte _ 7 _ _ _ (known (b % 2 * 16 + c / 16) (omega arith)) (omega arith)
            (byte_b _ a b c ha hb hc)
            (read_byte _ 4 _ _ _ (known (c % 16 * 2 + d / 128) (omega arith)) (omega arith)
              (byte_c _ b c d hb hc hd)
              (read_more _ 1 _ _ _ (known (d / 4 % 32) (omega arith)) (omega arith) (
                read_byte _ 6 _ _ _ (known (d % 4 * 8 + e / 32) (omega arith)) (omega arith)
                  (byte_d _ c d e hc hd he)
                  (read_byte _ 3 _ _ _ (known (e % 32) (omega arith)) (omega arith)
                    (byte_e _ d e hd he) (later _))))))))

-- A text of a whole number of blocks.
pub read_from-base32_from :
    (acc acc' : ℕ) (bytes : List ℕ)
    → length bytes % 5 ≡ 0
    → IsBytes bytes
    → read_from acc 0 (base32_from acc' 0 bytes) ≡ some bytes
read_from-base32_from acc acc' [] n h = unfold read_from base32_from in refl
read_from-base32_from acc acc' (a ∷ b ∷ c ∷ d ∷ e ∷ bytes) n (ha, (hb, (hc, (hd, (he, h))))) =
    rw (write_block acc' a b c d e bytes, chars-digits acc' a b c d e ha hb hc hd he)
      (read_block acc a b c d e _ ha hb hc hd he
        (λ x. read_from-base32_from x _ bytes (omega arith) h))
read_from-base32_from acc acc' (a ∷ []) n h = absurd (omega arith)
read_from-base32_from acc acc' (a ∷ b ∷ []) n h = absurd (omega arith)
read_from-base32_from acc acc' (a ∷ b ∷ c ∷ []) n h = absurd (omega arith)
read_from-base32_from acc acc' (a ∷ b ∷ c ∷ d ∷ []) n h = absurd (omega arith)

-- A character that a token is made of: no separator, and its own upper case.
abbrev pub is_plain : ℕ → Bool
is_plain c = not (is_space_or_hyphen c) && not (leb b'a' c && leb c b'z') && ltb c 128

alphabet_table : for_all 32 (λ i. is_plain (symbol i)) ≡ true
unfolding for_all is_space_or_hyphen
alphabet_table = refl

alphabet-plain : (i : ℕ) → i < 32 → is_plain (symbol i) ≡ true
alphabet-plain i h = for_all_at 32 (λ i. is_plain (symbol i)) i alphabet_table h

abbrev pub IsPlain : List ℕ → Type 0
IsPlain = All (λ c. is_plain c ≡ true)

symbols-IsPlain : (vs : List ℕ) → All (λ v. v < 32) vs → IsPlain (map symbol vs)
symbols-IsPlain [] h = tt
symbols-IsPlain (v ∷ vs) (h, hs) = (alphabet-plain v h, symbols-IsPlain vs hs)

chars-small : (acc a b c d e : ℕ) → All (λ v. v < 32) (chars acc a b c d e)
unfolding chars
chars-small acc a b c d e = (
  omega arith,
  (
    omega arith,
    (omega arith, (omega arith, (omega arith, (omega arith, (omega arith, (omega arith, tt)))))),
  ),
)

block-IsPlain :
    (acc a b c d e : ℕ) (rest : List ℕ)
    → IsPlain rest
    → (length (map symbol (chars acc a b c d e) ++ rest)
        ≡ suc (suc (suc (suc (suc (suc (suc (suc (length rest)))))))))
      × IsPlain (map symbol (chars acc a b c d e) ++ rest)
block-IsPlain acc a b c d e rest h = (
  unfold chars in refl,
  All-append (λ c. is_plain c ≡ true) (map symbol (chars acc a b c d e)) rest
      (symbols-IsPlain _ (chars-small acc a b c d e)) h,
)

-- Eight plain characters for five bytes.
pub base32_from-IsPlain :
    (acc : ℕ) (bytes : List ℕ)
    → length bytes % 5 ≡ 0
    → (length (base32_from acc 0 bytes) * 5 ≡ length bytes * 8) × IsPlain (base32_from acc 0 bytes)
base32_from-IsPlain acc [] n = unfold base32_from in (refl, tt)
base32_from-IsPlain acc (a ∷ b ∷ c ∷ d ∷ e ∷ bytes) n =
    let (size, plain) = base32_from-IsPlain (after acc a b c d e) bytes (omega arith) in
    let (more, all) = block-IsPlain acc a b c d e _ plain in
    rw (write_block acc a b c d e bytes) (omega (arith, size, more), all)
base32_from-IsPlain acc (a ∷ []) n = absurd (omega arith)
base32_from-IsPlain acc (a ∷ b ∷ []) n = absurd (omega arith)
base32_from-IsPlain acc (a ∷ b ∷ c ∷ []) n = absurd (omega arith)
base32_from-IsPlain acc (a ∷ b ∷ c ∷ d ∷ []) n = absurd (omega arith)
