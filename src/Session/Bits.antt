-- ===== src/Session/Bits.antt =====
-- The bitmap of committed segments: how many bits are set, and the bits above the last segment
-- (src/core/segmented-receiver.ts).
use deqr.Common.{
  for_all, for_all_at, ℕ, zero, suc, ◌+◌, ◌-◌, ◌*◌, ◌/◌, ◌%◌, ◌^◌, ◌≤◌, ◌<◌, ◌≡◌, refl, sym, ap,
  ◌∙◌, arith, List, [], ◌∷◌, length, get_or, set, All, All-get_or, All-set, length-set,
  get_or-set_same, get_or-set_other,
}
use deqr.Common.{
  Bool, true, false, ◌&&◌, ltb, ltb→lt, min, if_both, ◌==◌, ==_iff, if◌then◌else◌, bit_and,
}
use native.Mathlib.Nat.{add-zero}
use mathlib.Core.Path.{subst}
use native.Mathlib.Decide.{ℕ_discrete, dec_lt}
use deqr.Fec.Decoder.{is_set}
use deqr.Fec.Decoder.Bitmap.{tally}
use deqr.Session.Setup.{popcount, count_bits, clear_spare, bitmap_bytes}

popcount_table : for_all 256 (λ b. get_or popcount b 0 == tally (b ∷ []) 8) ≡ true
unfolding for_all popcount tally is_set
popcount_table = refl

popcount_at : (b : ℕ) → b < 256 → get_or popcount b 0 ≡ tally (b ∷ []) 8
popcount_at b h =
    (==_iff _ _).0
      (for_all_at 256 (λ b. get_or popcount b 0 == tally (b ∷ []) 8) b popcount_table h)

is_set-cons : (b : ℕ) (bs : List ℕ) (n : ℕ) → is_set (b ∷ bs) (8 + n) ≡ is_set bs n
unfolding is_set
is_set-cons b bs n =
    let place : (8 + n) / 8 ≡ suc (n / 8) = omega arith in
    let bit : (8 + n) % 8 ≡ n % 8 = omega arith in rw (place, bit) refl

first_byte : (b : ℕ) (bs : List ℕ) → tally (b ∷ bs) 8 ≡ tally (b ∷ []) 8
unfolding tally is_set
first_byte b bs = refl

-- The bits of the first byte, and those of the others.
tally-cons : (b : ℕ) (bs : List ℕ) (n : ℕ) → tally (b ∷ bs) (8 + n) ≡ tally (b ∷ []) 8 + tally bs n
unfolding tally
tally-cons b bs zero = first_byte b bs ∙ sym (add-zero (tally (b ∷ []) 8))
tally-cons b bs (suc n) =
    let e : 8 + suc n ≡ suc (8 + n) = omega arith in
    rw e (ground (arith, is_set-cons b bs n, tally-cons b bs n))

pub count_bits-eq-tally :
    (bits : List ℕ) → All (λ b. b < 256) bits → count_bits bits ≡ tally bits (8 * length bits)
unfolding count_bits
count_bits-eq-tally [] h = unfold tally in refl
count_bits-eq-tally (b ∷ bs) h =
    let e : 8 * suc (length bs) ≡ 8 + 8 * length bs = omega arith in
    rw e (
      omega (arith, popcount_at b h.0, count_bits-eq-tally bs h.1, tally-cons b bs (8 * length bs)))

-- Clearing the bits of a byte from `k` on.
mask_test : ℕ → ℕ → ℕ → Bool
mask_test b k j =
    bit_and (bit_and b (2 ^ k - 1)) (2 ^ j) == (if ltb j k then bit_and b (2 ^ j) else 0)

mask_table : for_all 8 (λ k. for_all 8 (λ j. for_all 256 (λ b. mask_test b k j))) ≡ true
unfolding for_all mask_test
mask_table = refl

mask_law :
    (b k j : ℕ)
    → b < 256
    → k < 8
    → j < 8
    → bit_and (bit_and b (2 ^ k - 1)) (2 ^ j) ≡ (if ltb j k then bit_and b (2 ^ j) else 0)
unfolding mask_test
mask_law b k j hb hk hj = (==_iff _ _).0 (
    for_all_at 256 (λ b. mask_test b k j) b
      (for_all_at 8 (λ j. for_all 256 (λ b. mask_test b k j)) j
        (for_all_at 8 (λ k. for_all 8 (λ j. for_all 256 (λ b. mask_test b k j))) k mask_table hk)
        hj)
      hb)

mask_below : for_all 8 (λ k. for_all 256 (λ b. ltb (bit_and b (2 ^ k - 1)) 256)) ≡ true
unfolding for_all
mask_below = refl

masked_byte : (b k : ℕ) → b < 256 → k < 8 → bit_and b (2 ^ k - 1) < 256
masked_byte b k hb hk = ltb→lt _ _ (
    for_all_at 256 (λ b. ltb (bit_and b (2 ^ k - 1)) 256) b
      (for_all_at 8 (λ k. for_all 256 (λ b. ltb (bit_and b (2 ^ k - 1)) 256)) k mask_below hk) hb)

module _ (bits : List ℕ) (n : ℕ) (bytes : All (λ b. b < 256) bits) where
  pub clear_spare-IsBytes : All (λ b. b < 256) (clear_spare bits n)
  unfolding clear_spare
  clear_spare-IsBytes = elim (ℕ_discrete (n % 8) 0) [
    | yes e ↦ let test = (==_iff (n % 8) 0).1 e in rw test bytes
    | no e ↦
        let test : (n % 8 == 0) ≡ false = ground arith in
        let last = length bits - 1 in
        rw test (
          All-set (λ b. b < 256) bits last _
            (masked_byte (get_or bits last 0) (n % 8)
              (All-get_or (λ b. b < 256) bits last 0 (omega arith) bytes) (omega arith))
            bytes)
  ]

  pub length-clear_spare : length (clear_spare bits n) ≡ length bits
  unfolding clear_spare
  length-clear_spare =
      if_both (λ (z : List ℕ). length z ≡ length bits) (n % 8 == 0) refl
        (length-set bits (length bits - 1) _)

  module _ (enough : length bits ≡ bitmap_bytes n) where
    -- Clearing keeps the bits of the segments, and no other.
    pub is_set-clear_spare :
        (i : ℕ) → i < 8 * length bits → is_set (clear_spare bits n) i ≡ (ltb i n && is_set bits i)
    unfolding clear_spare is_set
    is_set-clear_spare i h = elim (ℕ_discrete (n % 8) 0) [
      | yes e ↦ ground (arith, e)
      | no e ↦
          let last = length bits - 1 in
          let b = get_or bits last 0 in
          let masked = bit_and b (2 ^ (n % 8) - 1) in
          elim (ℕ_discrete last (i / 8)) [
            | yes same ↦
                let law =
                  mask_law b (n % 8) (i % 8)
                    (All-get_or (λ b. b < 256) bits last 0 (omega arith) bytes) (omega arith)
                    (omega arith) in
                let here : get_or (set bits last masked) (i / 8) 0 ≡ masked =
                  subst (λ k. get_or (set bits last masked) k 0 ≡ masked) same
                    (get_or-set_same bits last masked 0 (omega arith)) in
                let old : get_or bits (i / 8) 0 ≡ b = ap (λ k. get_or bits k 0) (sym same) in
                ground (arith, law, here, old)
            | no other ↦ ground (arith, get_or-set_other bits last (i / 8) masked 0 other)
          ]
    ]

    tally-upto : (k : ℕ) → k ≤ 8 * length bits → tally (clear_spare bits n) k ≡ tally bits (min k n)
    unfolding tally
    tally-upto zero h = let e : min 0 n ≡ 0 = omega arith in rw e refl
    tally-upto (suc k) h = elim (dec_lt k n) [
      | yes lt ↦
          let e : min (suc k) n ≡ suc k = omega arith in
          let e' : min k n ≡ k = omega arith in
          let before : tally (clear_spare bits n) k ≡ tally bits k =
            tally-upto k (omega arith) ∙ ap (tally bits) e' in
          rw e (ground (arith, before, is_set-clear_spare k (omega arith)))
      | no ge ↦
          let e : min (suc k) n ≡ n = omega arith in
          let e' : min k n ≡ n = omega arith in
          let before : tally (clear_spare bits n) k ≡ tally bits n =
            tally-upto k (omega arith) ∙ ap (tally bits) e' in
          rw e (ground (arith, before, is_set-clear_spare k (omega arith)))
    ]

    -- What is counted after clearing is the bits of the segments.
    pub count_bits-clear_spare : count_bits (clear_spare bits n) ≡ tally bits n
    count_bits-clear_spare =
        count_bits-eq-tally (clear_spare bits n) clear_spare-IsBytes
        ∙ ap (λ k. tally (clear_spare bits n) (8 * k)) length-clear_spare
        ∙ tally-upto (8 * length bits) (omega arith)
        ∙ ap (tally bits) (omega arith)

    pub tally-clear_spare : tally (clear_spare bits n) n ≡ tally bits n
    tally-clear_spare = tally-upto n (omega arith) ∙ ap (tally bits) (omega arith)
