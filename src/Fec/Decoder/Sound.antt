-- ===== src/Fec/Decoder/Sound.antt =====
-- What holds of the segment decoder between two symbols (src/core/segment-decoder.ts): every solved
-- symbol is the one that was sent, and every stored equation is true of what was sent.
use deqr.Common.{ℕ, ◌+◌, ◌*◌, ◌/◌, ◌≤◌, ◌<◌, ◌≡◌, ◌≢◌, ap, ◌∙◌, arith, List, length, All}
use deqr.Common.{some, true, false}
use native.Mathlib.Decide.{ℕ_discrete}
use mathlib.Core.Path.{subst}
use deqr.Protocol.Buffer.{write}
use deqr.Fec.Symbols.{block_at}
use deqr.Fec.Symbols.Laws.{xor_of}
use deqr.Fec.Equations.{lookup}
use deqr.Fec.Equations.Laws.{count}
use deqr.Fec.Decoder.{
  PendingEquation, SegmentDecoder, is_set, set_bit, is_solved, mark_solved, bytes_of, put_block,
}
use deqr.Fec.Decoder.Bitmap.{is_set-set_bit, set_bit-IsBytes, length-set_bit, tally, tally-set_bit}
use deqr.Fec.Decoder.Blocks.{length-write, block_at-write_same, block_at-write_other}

-- The equations that `dependents` lists for a block are stored, each once, and name the block.
abbrev pub Refers : List (ℕ × PendingEquation) → ℕ → List ℕ → Type 0
Refers pending n ids =
    (id : ℕ)
    → (count ids id ≤ 1)
      × (1 ≤ count ids id
          → (e : PendingEquation) × (lookup pending id ≡ some e) × (1 ≤ count e.neighbors n))

-- For a segment of `total` bytes in `k` symbols of `size` bytes, of which number `i` was sent as `sent i`.
module _ (k size total : ℕ) (sent : ℕ → List ℕ) where
  -- An equation under its number, true of what was sent.
  pub record IsTrue (id : ℕ) (e : PendingEquation) : Type 0 where
    pub numbered : e.symbol_id ≡ id
    pub named : All (λ n. n < k) e.neighbors
    pub holds : e.payload ≡ xor_of size sent e.neighbors

  pub record IsSound (d : SegmentDecoder) : Type 0 where
    pub count_is : d.source_symbol_count ≡ k
    pub bytes_is : d.segment_bytes ≡ total
    pub size_is : d.symbol_size_bytes ≡ size
    pub not_closed : d.closed ≡ false
    pub store_size : length (bytes_of d.store) ≡ k * size
    pub bitmap : All (λ b. b < 256) d.solved_bits
    pub bitmap_size : length d.solved_bits ≡ (k + 7) / 8
    pub tallied : d.solved_count ≡ tally d.solved_bits k
    pub known : (i : ℕ) → i < k → is_solved d i ≡ true → block_at (bytes_of d.store) size i ≡ sent i
    pub equations : (id : ℕ) (e : PendingEquation) → lookup d.pending id ≡ some e → IsTrue id e
    pub referring :
        (n : ℕ) (ids : List ℕ) → lookup d.dependents n ≡ some ids → Refers d.pending n ids

  -- The symbols that are known stay known.
  abbrev pub Grows : SegmentDecoder → SegmentDecoder → Type 0
  Grows d d' = (i : ℕ) → is_solved d i ≡ true → is_solved d' i ≡ true

  room : (i j s : ℕ) → i < j → i * s + s ≤ j * s
  room i j s h = grind arith

  -- A symbol of what was sent is written and marked.
  module _ (d : SegmentDecoder) (i : ℕ) (block : List ℕ) where
    still_set :
        (j : ℕ)
        → All (λ b. b < 256) d.solved_bits
        → i / 8 < length d.solved_bits
        → i ≢ j
        → is_set (set_bit d.solved_bits i) j ≡ true
        → is_solved d j ≡ true
    still_set j b inside n h = ground (arith, is_set-set_bit d.solved_bits i j b inside)

    known_after :
        IsSound d
        → i < k
        → length block ≡ size
        → block ≡ sent i
        → i / 8 < length d.solved_bits
        → (j : ℕ) → j < k
        → is_set (set_bit d.solved_bits i) j ≡ true
        → block_at (write (bytes_of d.store) (i * d.symbol_size_bytes) block) size j ≡ sent j
    known_after s lt sized right inside j jlt solved =
        let offset : i * d.symbol_size_bytes ≡ i * size = ap (λ z. i * z) s.size_is in
        let fits : i * size + size ≤ length (bytes_of d.store) =
          omega (arith, s.store_size, room i k size lt) in
        rw offset (elim (ℕ_discrete i j) [
          | yes e ↦
              subst (λ z. block_at (write (bytes_of d.store) (i * size) block) size z ≡ sent z) e
                (block_at-write_same (bytes_of d.store) block size i sized fits ∙ right)
          | no ne ↦
              block_at-write_other (bytes_of d.store) block size i j sized ne
              ∙ s.known j jlt (still_set j s.bitmap inside ne solved)
        ])

    pub put_mark-IsSound :
        IsSound d
        → i < k
        → length block ≡ size
        → block ≡ sent i
        → is_solved d i ≡ false
        → IsSound (mark_solved (put_block d i block) i)
    unfolding mark_solved put_block
    put_mark-IsSound s lt sized right new =
        let inside : i / 8 < length d.solved_bits = omega (arith, s.bitmap_size) in
        record {
          count_is = s.count_is;
          bytes_is = s.bytes_is;
          size_is = s.size_is;
          not_closed = s.not_closed;
          store_size =
              length-write (bytes_of d.store) block (i * d.symbol_size_bytes) ∙ s.store_size;
          bitmap = set_bit-IsBytes d.solved_bits i s.bitmap;
          bitmap_size = omega (arith, s.bitmap_size, length-set_bit d.solved_bits i);
          tallied =
              omega (arith, s.tallied, tally-set_bit d.solved_bits k i s.bitmap inside new lt);
          known = known_after s lt sized right inside;
          equations = s.equations;
          referring = s.referring;
        }

    pub put_mark-Grows : IsSound d → i < k → Grows d (mark_solved (put_block d i block) i)
    unfolding mark_solved put_block
    put_mark-Grows s lt j solved =
        ground
          (arith, solved, is_set-set_bit d.solved_bits i j s.bitmap (omega (arith, s.bitmap_size)))

    pub put_mark_solved :
        IsSound d → i < k → is_solved (mark_solved (put_block d i block) i) i ≡ true
    unfolding mark_solved put_block
    put_mark_solved s lt =
        ground (arith, is_set-set_bit d.solved_bits i i s.bitmap (omega (arith, s.bitmap_size)))
