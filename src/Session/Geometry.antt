-- ===== src/Session/Geometry.antt =====
-- The decoder that SegmentedReceiver (src/core/segmented-receiver.ts) makes for a segment has the
-- segment's geometry.
use deqr.Common.{
  ℕ, zero, suc, ◌+◌, ◌-◌, ◌*◌, ◌≤◌, ◌<◌, ◌≡◌, ap, ◌∙◌, arith, List, length, take, drop, length-take,
  length-drop,
}
use deqr.Common.{div_up, div_up_bounds, piece_bound, some}
use deqr.Protocol.Types.{ok}
use deqr.Protocol.Plan.{SegmentPlan, source_symbol_count_for_segment}
use deqr.Protocol.Plan.Shape.{IsPlan}
use deqr.Protocol.Plan.Tiling.{segment_at, segment_byte_range-eq, symbols_fit, count_of}
use deqr.Fec.Decoder.{SegmentDecoderLimits}
use deqr.Fec.Decoder.Accept.{new_decoder, empty_decoder}
use deqr.Session.Types.{SegmentedReceiver}
use deqr.Session.Setup.{merged_limits}
use deqr.Session.Routing.{decoder_for, or_throws}

-- The number of pieces of size `y` that just hold `a` bytes.
exact_count : (a y n : ℕ) → 1 ≤ a → 1 ≤ y → a ≤ y * n → y * n < a + y → n ≡ div_up a y
exact_count a y n p q h k =
    let (above, below) = div_up_bounds a y p q in
    omega (arith, at_most n (div_up a y) h below, at_most (div_up a y) n above k)
  where
    at_most : (m k : ℕ) → a ≤ y * m → y * k < a + y → k ≤ m
    at_most m k b c = omega (arith, piece_bound y k (suc m) (y * k) (omega arith) (grind arith))

few : (y n : ℕ) → 1 ≤ y → y * n < 67108864 + y → n ≤ 0xffff_ffff
few y zero h k = omega arith
few y (suc n) h k = grind arith

before : (s i n : ℕ) → i < n → s * i ≤ s * (n - 1)
before s i n h = grind arith

commute : (a b : ℕ) → a * b ≡ b * a
commute a b = grind arith

module _ (p : SegmentPlan) (plan : IsPlan p) (stream : List ℕ) where
  -- The bytes of a segment.
  abbrev pub cut : ℕ → List ℕ
  cut i = take p.segment_size_bytes (drop (p.segment_size_bytes * i) stream)

  module _ (whole : length stream ≡ p.transport_size) where
    pub length-cut :
        (i : ℕ)
        → i < p.segment_count
        → (p.segment_size_bytes * i + length (cut i) ≡ (segment_at p plan i).end)
          × (1 ≤ length (cut i))
          × (length (cut i) ≤ 67108864)
    length-cut i h = omega (
      arith,
      plan,
      plan.accepted,
      before p.segment_size_bytes i p.segment_count h,
      length-take p.segment_size_bytes (drop (p.segment_size_bytes * i) stream),
      length-drop (p.segment_size_bytes * i) stream,
    )

    abbrev pub symbols_of : ℕ → ℕ
    symbols_of i = div_up (length (cut i)) p.symbol_size_bytes

    counted :
        (i : ℕ) → i < p.segment_count → source_symbol_count_for_segment p i ≡ ok (symbols_of i)
    counted i h =
        let (n, q) = count_of p plan i h in
        let (lt, above, below) = symbols_fit p plan i q in
        let (there, pos, most) = length-cut i h in
        let same =
          exact_count (length (cut i)) p.symbol_size_bytes n pos (omega (arith, plan.accepted))
            (omega arith) (omega arith) in
        q ∙ ap ok same

    new_decoder-eq :
        (i : ℕ) (limits : SegmentDecoderLimits)
        → i < p.segment_count
        → new_decoder (symbols_of i) p.symbol_size_bytes (length (cut i)) limits
          ≡ some (empty_decoder (symbols_of i) p.symbol_size_bytes (length (cut i)) limits)
    unfolding new_decoder
    new_decoder-eq i limits h =
        let (there, pos, most) = length-cut i h in
        let y = p.symbol_size_bytes in
        let (above, below) = div_up_bounds (length (cut i)) y pos (omega (arith, plan.accepted)) in
        let small = few y (symbols_of i) (omega (arith, plan.accepted)) (omega arith) in
        let some_symbols : 1 ≤ symbols_of i = nonzero y (symbols_of i) (omega arith) in
        ground (arith, commute (symbols_of i) y, plan.accepted)
      where
        nonzero : (y n : ℕ) → 1 ≤ y * n → 1 ≤ n
        nonzero y zero h = absurd (grind arith)
        nonzero y (suc n) h = omega arith

    pub decoder_for-eq :
        (r : SegmentedReceiver) (i : ℕ)
        → r.plan ≡ p
        → r.manifest.symbol_size_bytes ≡ p.symbol_size_bytes
        → i < p.segment_count
        → decoder_for r i
          ≡ ok (
              empty_decoder
                (symbols_of i)
                p.symbol_size_bytes
                (length (cut i))
                (merged_limits r.decoder_limits (symbols_of i)))
    unfolding decoder_for
    decoder_for-eq r i same size h =
        let (there, pos, most) = length-cut i h in
        let size_is : (segment_at p plan i).end - p.segment_size_bytes * i ≡ length (cut i) =
          omega arith in
        rw (same, size, counted i h, segment_byte_range-eq p plan i h, size_is)
          (ap or_throws (new_decoder-eq i (merged_limits r.decoder_limits (symbols_of i)) h))
