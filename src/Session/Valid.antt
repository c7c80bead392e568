-- ===== src/Session/Valid.antt =====
-- What holds of a SegmentedReceiver (src/core/segmented-receiver.ts) between two frames.
use deqr.Common.{ℕ, ◌+◌, ◌*◌, ◌≤◌, ◌<◌, ◌≡◌, List, map, length, some, All, true, false}
use deqr.Protocol.Types.{DeqrV2Manifest}
use deqr.Protocol.Plan.{SegmentPlan}
use deqr.Protocol.Plan.Shape.{IsPlan}
use deqr.Fec.Equations.{lookup}
use deqr.Fec.Equations.Laws.{count}
use deqr.Fec.Encoder.Symbols.{sent_block}
use deqr.Fec.Decoder.{SegmentDecoder, is_set}
use deqr.Fec.Decoder.Bitmap.{tally}
use deqr.Fec.Decoder.Sound.{IsSound}
use deqr.Session.Types.{CompletedSegment, ActiveSegment, SegmentedReceiver, SegmentedReceiverStats}
use deqr.Session.Geometry.{cut, symbols_of}

-- The numbers of the segments that were handed out, in order.
abbrev pub indices : List CompletedSegment → List ℕ
indices cs = map (λ c. c.segment_index) cs

-- For a stream with its plan, and the bitmap of the segments that an earlier run had.
module _ (m : DeqrV2Manifest) (p : SegmentPlan) (plan : IsPlan p) (stream : List ℕ)
    (whole : length stream ≡ p.transport_size) (adopted : List ℕ) (slots : ℕ) where
  -- The decoder of a segment holds only what was sent of it.
  abbrev pub IsOf : ℕ → SegmentDecoder → Type 0
  IsOf i d =
      IsSound (symbols_of p plan stream whole i) p.symbol_size_bytes (length (cut p plan stream i))
        (sent_block (cut p plan stream i) p.symbol_size_bytes) d

  -- A segment that was handed out is a piece of the stream, at its place.
  pub record IsRight (c : CompletedSegment) : Type 0 where
    pub in_range : c.segment_index < p.segment_count
    pub bytes_are : c.bytes ≡ cut p plan stream c.segment_index
    pub placed : c.byte_offset ≡ p.segment_size_bytes * c.segment_index

  pub record IsValid (r : SegmentedReceiver) : Type 0 where
    pub manifest_is : r.manifest ≡ m
    pub plan_is : r.plan ≡ p
    pub bitmap : All (λ b. b < 256) r.committed_bits
    pub bitmap_size : p.segment_count ≤ 8 * length r.committed_bits
    pub tallied : r.committed_count ≡ tally r.committed_bits p.segment_count
    pub total : r.committed_count ≡ r.adopted_count + length r.completed
    pub limit : r.max_active_segments ≡ slots
    pub room : 1 ≤ r.max_active_segments
    pub bounded : length r.active ≤ r.max_active_segments
    pub live :
        (i : ℕ) (e : ActiveSegment)
        → lookup r.active i ≡ some e
        → (i < p.segment_count) × (is_set r.committed_bits i ≡ false) × IsOf i e.decoder
    pub right : All IsRight r.completed
    pub once :
        (i : ℕ)
        → (count (indices r.completed) i ≤ 1)
          × (1 ≤ count (indices r.completed) i → is_set r.committed_bits i ≡ true)
    pub came_from :
        (i : ℕ)
        → i < p.segment_count
        → is_set r.committed_bits i ≡ true
        → is_set adopted i ≡ false
        → 1 ≤ count (indices r.completed) i

  -- The counters do not matter.
  pub recounted-IsValid :
      (r : SegmentedReceiver) (c : SegmentedReceiverStats)
      → IsValid r
      → IsValid (record r { counters = c })
  recounted-IsValid r c v = record {
    manifest_is = v.manifest_is;
    plan_is = v.plan_is;
    bitmap = v.bitmap;
    bitmap_size = v.bitmap_size;
    tallied = v.tallied;
    total = v.total;
    limit = v.limit;
    room = v.room;
    bounded = v.bounded;
    live = v.live;
    right = v.right;
    once = v.once;
    came_from = v.came_from;
  }

  -- Nor do the live segments, as long as each of them is right and there are not too many.
  pub relisted-IsValid :
      (r : SegmentedReceiver) (c : SegmentedReceiverStats) (active : List (ℕ × ActiveSegment))
      (touches retired : ℕ)
      → IsValid r
      → length active ≤ r.max_active_segments
      → ((i : ℕ) (e : ActiveSegment)
          → lookup active i ≡ some e
          → (i < p.segment_count) × (is_set r.committed_bits i ≡ false) × IsOf i e.decoder)
      → IsValid (record r {
        counters = c;
        active = active;
        touch_counter = touches;
        retired_xor_bytes = retired;
      })
  relisted-IsValid r c active touches retired v few each = record {
    manifest_is = v.manifest_is;
    plan_is = v.plan_is;
    bitmap = v.bitmap;
    bitmap_size = v.bitmap_size;
    tallied = v.tallied;
    total = v.total;
    limit = v.limit;
    room = v.room;
    bounded = few;
    live = each;
    right = v.right;
    once = v.once;
    came_from = v.came_from;
  }
