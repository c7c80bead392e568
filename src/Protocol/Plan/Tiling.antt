-- ===== src/Protocol/Plan/Tiling.antt =====
-- The byte ranges of segments and symbols tile the stream (segmentByteRange, symbolByteRange of
-- src/core/protocol-v2.ts).
use deqr.Common.{ℕ, ◌+◌, ◌-◌, ◌*◌, ◌/◌, ◌≤◌, ◌<◌, ◌≡◌, refl, ap, min, arith}
use deqr.Common.{if◌then◌else◌, ◌==◌}
use native.Mathlib.Decide.{dec_lt, ℕ_discrete}
use deqr.Common.{next_piece, piece_bound, piece_of, same_piece, last_piece, whole_piece, piece_end}
use deqr.Protocol.Types.{ok, >>=-eq-ok}
use mathlib.Core.Path.{subst}
use deqr.Protocol.Plan.{
  SegmentPlan, ByteRange, source_symbol_count_for_segment, segment_byte_range, symbol_byte_range,
}
use deqr.Protocol.Plan.Shape.{IsPlan}

abbrev pub Holds : ℕ → ByteRange → Type 0
Holds o r = (r.start ≤ o) × (o < r.end)

module _ (p : SegmentPlan) (plan : IsPlan p) where
  abbrev pub segment_at : ℕ → ByteRange
  segment_at i = record {
    start = p.segment_size_bytes * i;
    end = min (p.segment_size_bytes * i + p.segment_size_bytes) p.transport_size;
  }

  stream_le_segments : p.transport_size ≤ p.segment_size_bytes * p.segment_count
  stream_le_segments = omega (
    arith,
    plan,
    plan.accepted,
    last_piece p.segment_size_bytes (p.segment_count - 1) p.segment_count (omega (arith, plan))
        refl,
  )

  pub segment_byte_range-eq :
      (i : ℕ) → i < p.segment_count → segment_byte_range p i ≡ ok (segment_at i)
  unfolding segment_byte_range
  segment_byte_range-eq i h = ground (
    arith,
    piece_end p.segment_size_bytes i p.segment_count p.transport_size h (omega (arith, plan))
        stream_le_segments,
  )

  segment_byte_range-inv :
      (i : ℕ) {r : ByteRange}
      → segment_byte_range p i ≡ ok r
      → (i < p.segment_count) × (r ≡ segment_at i)
  segment_byte_range-inv i h = elim (dec_lt i p.segment_count) [
    | yes lt ↦ (lt, cc (segment_byte_range-eq i lt))
    | no ge ↦ absurd (unfold segment_byte_range in ground arith)
  ]

  -- A segment has as many source symbols as its bytes need.
  pub symbols_fit :
      (i : ℕ) {n : ℕ}
      → source_symbol_count_for_segment p i ≡ ok n
      → (i < p.segment_count)
        × ((segment_at i).end ≤ (segment_at i).start + p.symbol_size_bytes * n)
        × ((segment_at i).start + p.symbol_size_bytes * n
            < (segment_at i).end + p.symbol_size_bytes)
  unfolding source_symbol_count_for_segment
  symbols_fit i h = elim (ℕ_discrete i (p.segment_count - 1)) [
    | yes e ↦
        let starts = ap (λ (k : ℕ). p.segment_size_bytes * k) e in
        ground (
          arith,
          plan,
          plan.accepted,
          starts,
          last_piece p.segment_size_bytes i p.segment_count (ground arith) e,
        )
    | no e ↦ ground (
      arith,
      plan,
      plan.accepted,
      whole_piece p.segment_size_bytes i p.segment_count (ground arith) e,
    )
  ]

  abbrev symbol_at : ℕ → ℕ → ByteRange
  symbol_at i j =
      let start = (segment_at i).start + p.symbol_size_bytes * j in
      record { start = start; end = min (start + p.symbol_size_bytes) (segment_at i).end }

  symbol_byte_range-eq :
      (i j : ℕ) {n : ℕ}
      → source_symbol_count_for_segment p i ≡ ok n
      → j < n
      → symbol_byte_range p i j ≡ ok (symbol_at i j)
  unfolding symbol_byte_range
  symbol_byte_range-eq i j h lt = ground (arith, h, segment_byte_range-eq i (symbols_fit i h).0)

  symbol_byte_range-inv :
      (i j : ℕ) {r : ByteRange}
      → symbol_byte_range p i j ≡ ok r
      → (n : ℕ) × (source_symbol_count_for_segment p i ≡ ok n) × (j < n) × (r ≡ symbol_at i j)
  unfolding symbol_byte_range
  symbol_byte_range-inv i j h =
      let (n, counted, rest) = >>=-eq-ok (source_symbol_count_for_segment p i) _ h in
      elim (dec_lt j n) [
        | yes lt ↦ (n, counted, lt, cc (symbol_byte_range-eq i j counted lt))
        | no ge ↦ absurd (ground arith)
      ]

  pub segment_of :
      (o : ℕ)
      → o < p.transport_size
      → (o / p.segment_size_bytes < p.segment_count)
        × Holds o (segment_at (o / p.segment_size_bytes))
  segment_of o h =
      let (above, below) = piece_of p.segment_size_bytes o (omega (arith, plan.accepted)) in
      (
        piece_bound p.segment_size_bytes (o / p.segment_size_bytes) p.segment_count o above
            (omega (arith, stream_le_segments)),
        (above, omega arith),
      )

  pub count_of :
      (i : ℕ) → i < p.segment_count → (n : ℕ) × (source_symbol_count_for_segment p i ≡ ok n)
  unfolding source_symbol_count_for_segment
  count_of i h = (
    if i == p.segment_count - 1 then p.symbols_in_last_segment else p.symbols_per_full_segment,
    ground arith,
  )

  -- Every byte of the stream lies in a symbol of a segment.
  pub symbols_cover :
      (o : ℕ)
      → o < p.transport_size
      → (i : ℕ) × (j : ℕ) × (r : ByteRange) × (symbol_byte_range p i j ≡ ok r) × Holds o r
  symbols_cover o h =
      let i = o / p.segment_size_bytes in
      let (in_plan, (above, below)) = segment_of o h in
      let (n, counted) = count_of i in_plan in
      let rest = o - p.segment_size_bytes * i in
      let (above', below') = piece_of p.symbol_size_bytes rest (omega (arith, plan.accepted)) in
      let j_lt : rest / p.symbol_size_bytes < n =
        piece_bound p.symbol_size_bytes (rest / p.symbol_size_bytes) n rest above'
          (omega (arith, symbols_fit i counted)) in
      (
        i,
        rest / p.symbol_size_bytes,
        symbol_at i (rest / p.symbol_size_bytes),
        symbol_byte_range-eq i (rest / p.symbol_size_bytes) counted j_lt,
        (omega arith, omega arith),
      )

  -- No byte lies in two symbols.
  pub symbols_disjoint :
      (o i j i' j' : ℕ) {r r' : ByteRange}
      → symbol_byte_range p i j ≡ ok r
      → symbol_byte_range p i' j' ≡ ok r'
      → Holds o r
      → Holds o r'
      → (i ≡ i') × (j ≡ j')
  symbols_disjoint o i j i' j' h h' k k' =
      let (n, c, lt, e) = symbol_byte_range-inv i j h in
      let (n', c', lt', e') = symbol_byte_range-inv i' j' h' in
      let (a, b) = subst (Holds o) e k in
      let (a', b') = subst (Holds o) e' k' in
      let same : i ≡ i' =
        same_piece p.segment_size_bytes i i' o (omega arith) (omega arith) (omega arith)
          (omega arith) in
      let starts : p.segment_size_bytes * i ≡ p.segment_size_bytes * i' =
        ap (λ (m : ℕ). p.segment_size_bytes * m) same in
      (
        same,
        same_piece p.symbol_size_bytes j j' (o - p.segment_size_bytes * i) (omega arith)
            (omega arith) (omega arith) (omega arith),
      )

  -- Where a symbol of a segment lies.
  pub symbol_place :
      (i j : ℕ) {n : ℕ}
      → source_symbol_count_for_segment p i ≡ ok n
      → j < n
      → (r : ByteRange) × (symbol_byte_range p i j ≡ ok r)
        × (r.start < r.end)
        × (r.end ≤ r.start + p.symbol_size_bytes)
        × (r.end ≤ p.transport_size)
  symbol_place i j {n} counted lt =
      let (in_plan, fits, tight) = symbols_fit i counted in
      let next = next_piece p.symbol_size_bytes j n lt in
      (symbol_at i j, symbol_byte_range-eq i j counted lt, omega arith, omega arith, omega arith)
