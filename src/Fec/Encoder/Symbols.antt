-- ===== src/Fec/Encoder/Symbols.antt =====
-- The symbols that SegmentEncoder of src/core/segment-encoder.ts sends are the blocks of the padded
-- segment and their exclusive ors.
use deqr.Common.{
  ℕ, zero, suc, ◌+◌, ◌-◌, ◌*◌, ◌≤◌, ◌<◌, ◌≡◌, refl, sym, ap, ◌∙◌, arith, min, List, [], ◌∷◌, ◌++◌,
  length, take, drop,
}
use deqr.Common.{
  length-take, length-drop, length-replicate, take-all, drop-drop, take-append-drop,
  take-drop-within,
}
use native.Mathlib.Decide.{dec_le}
use native.Mathlib.Nat.{zero-add, suc-add, zero-mul}
use mathlib.Core.List.{append-nil}
use mathlib.Core.Path.{subst}
use deqr.Protocol.Buffer.{zeros, write}
use deqr.Protocol.Buffer.Laws.{write-zeros}
use deqr.Fec.Symbols.{xor_into, block_at}
use deqr.Fec.Symbols.Laws.{xor_of, length-xor_into, xor_into_assoc, xor_into-zeros}
use deqr.Fec.Decoder.Blocks.{length-write}
use deqr.Fec.Encoder.{source_bytes, copy_source_symbol, xor_source_symbol, xor_source_symbols}

-- The block that is sent as source symbol `i`.
abbrev pub sent_block : List ℕ → ℕ → ℕ → List ℕ
sent_block segment size i = copy_source_symbol segment size i (zeros size)

pub length-sent_block : (segment : List ℕ) (size i : ℕ) → length (sent_block segment size i) ≡ size
unfolding copy_source_symbol
length-sent_block segment size i =
    length-write (zeros size) (source_bytes segment size i) 0 ∙ length-replicate size 0

cons : {x : ℕ} {a b : List ℕ} → a ≡ b → x ∷ a ≡ x ∷ b
cons q = cc

-- The padding does not count.
xor_into-write :
    (n : ℕ) (out ys : List ℕ)
    → length out ≡ n
    → xor_into out (write (zeros n) 0 ys) ≡ xor_into out ys
unfolding xor_into write
xor_into-write n [] ys h = refl
xor_into-write zero (o ∷ out) ys h = absurd (omega arith)
xor_into-write (suc n) (o ∷ out) [] h = xor_into-zeros (o ∷ out) (suc n)
xor_into-write (suc n) (o ∷ out) (y ∷ ys) h = cons (xor_into-write n out ys (omega arith))

module _ (segment : List ℕ) (size : ℕ) where
  abbrev sent : ℕ → List ℕ
  sent = sent_block segment size

  -- The loop over the neighbours, which skips the padding of a short last symbol, is the exclusive or
  -- of whole symbols, each as it would be sent itself.
  pub xor_source_symbols-eq :
      (ns : List ℕ) (out : List ℕ)
      → length out ≡ size
      → xor_source_symbols segment size ns out ≡ xor_into out (xor_of size sent ns)
  unfolding xor_source_symbols xor_source_symbol copy_source_symbol
  xor_source_symbols-eq [] out h = sym (xor_into-zeros out size)
  xor_source_symbols-eq (n ∷ ns) out h =
      let one = xor_into out (source_bytes segment size n) in
      xor_source_symbols-eq ns one (length-xor_into out (source_bytes segment size n) ∙ h)
      ∙ ap (λ z. xor_into z (xor_of size sent ns))
          (sym (xor_into-write size out (source_bytes segment size n) h))
      ∙ xor_into_assoc out (sent n) (xor_of size sent ns)
          (h ∙ sym (length-sent_block segment size n))

  drop-append-le : (o : ℕ) (xs ys : List ℕ) → o ≤ length xs → drop o (xs ++ ys) ≡ drop o xs ++ ys
  drop-append-le zero xs ys h = refl
  drop-append-le (suc o) [] ys h = absurd (omega arith)
  drop-append-le (suc o) (x ∷ xs) ys h = drop-append-le o xs ys (omega arith)

  take-replicate : (n p : ℕ) → n ≤ p → take n (zeros p) ≡ zeros n
  take-replicate zero p h = refl
  take-replicate (suc n) zero h = absurd (omega arith)
  take-replicate (suc n) (suc p) h = cons (take-replicate n p (omega arith))

  take-zeros :
      (n : ℕ) (ys : List ℕ) (p : ℕ) → n ≤ p → take (length ys + n) (ys ++ zeros p) ≡ ys ++ zeros n
  take-zeros n [] p h = ap (λ m. take m (zeros p)) (zero-add n) ∙ take-replicate n p h
  take-zeros n (y ∷ ys) p h = rw suc-add (cons (take-zeros n ys p h))

  -- A block that begins within the segment, of the segment with `pad` zeros behind it.
  pub padded_block :
      (i pad : ℕ)
      → i * size ≤ length segment
      → i * size + size ≤ length segment + pad
      → block_at (segment ++ zeros pad) size i ≡ sent i
  unfolding block_at copy_source_symbol source_bytes
  padded_block i pad h k = elim (dec_le (i * size + size) (length segment)) [
    | yes inside ↦
        let ys = take size (drop (i * size) segment) in
        let ys_size : length ys ≡ size =
          omega
            (arith, length-take size (drop (i * size) segment), length-drop (i * size) segment) in
        let cut : min (i * size + size) (length segment) - i * size ≡ size = omega arith in
        let z : size ≡ length ys + 0 = omega arith in
        take-drop-within size (i * size) segment (zeros pad) inside
        ∙ rw cut (sym (ap (λ n. write (zeros n) 0 ys) z ∙ write-zeros ys 0 ∙ append-nil ys))
    | no beyond ↦
        let ys = drop (i * size) segment in
        let n = i * size + size - length segment in
        let z : size ≡ length ys + n = omega (arith, length-drop (i * size) segment) in
        let cut : min (i * size + size) (length segment) - i * size ≡ length ys =
          omega (arith, length-drop (i * size) segment) in
        ap (take size) (drop-append-le (i * size) segment (zeros pad) h)
        ∙ ap (λ m. take m (ys ++ zeros pad)) z
        ∙ take-zeros n ys pad (omega arith)
        ∙ sym (
            rw (cut, take-all ys (length ys) refl)
              (ap (λ m. write (zeros m) 0 ys) z ∙ write-zeros ys n))
  ]

-- Two buffers with the same blocks are the same.
pub blocks_equal :
    (size k : ℕ) (xs ys : List ℕ)
    → length xs ≡ k * size
    → length ys ≡ k * size
    → ((i : ℕ) → i < k → block_at xs size i ≡ block_at ys size i)
    → xs ≡ ys
unfolding block_at
blocks_equal size zero [] [] h h' e = refl
blocks_equal size zero (x ∷ xs) ys h h' e = absurd (omega arith)
blocks_equal size zero [] (y ∷ ys) h h' e = absurd (omega arith)
blocks_equal size (suc k) xs ys h h' e =
    let split : suc k * size ≡ size + k * size = omega arith in
    let first : take size xs ≡ take size ys =
      subst (λ o. take size (drop o xs) ≡ take size (drop o ys)) (zero-mul size)
        (e 0 (omega arith)) in
    let later =
      blocks_equal size k (drop size xs) (drop size ys) (omega (arith, length-drop size xs))
        (omega (arith, length-drop size ys))
        (λ i lt.
          ap (take size) (drop-drop (i * size) size xs)
          ∙ ap (λ o. take size (drop o xs)) (next i)
          ∙ e (suc i) (omega arith)
          ∙ ap (λ o. take size (drop o ys)) (sym (next i))
          ∙ ap (take size) (sym (drop-drop (i * size) size ys))) in
    sym (take-append-drop size xs)
    ∙ ap (λ z. z ++ drop size xs) first
    ∙ ap (λ z. take size ys ++ z) later
    ∙ take-append-drop size ys
  where
    next : (i : ℕ) → size + i * size ≡ suc i * size
    next i = omega arith
