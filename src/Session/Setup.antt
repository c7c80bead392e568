-- ===== src/Session/Setup.antt =====
-- How a SegmentedReceiver begins, with the segments of an earlier run, and what it tells of its
-- progress (src/core/segmented-receiver.ts). A bitmap has its least significant bit first. Its indices
-- are such that a 32-bit shift keeps them.
use deqr.Common.{
  ℕ, zero, suc, ◌+◌, ◌-◌, ◌*◌, ◌/◌, ◌%◌, ◌^◌, List, [], ◌∷◌, ◌++◌, length, get_or, set, replicate,
}
use deqr.Common.{Option, none, some, Bool, false, not, ◌&&◌, ltb, leb, ◌==◌, if◌then◌else◌, bit_and}
use deqr.Protocol.Types.{DeqrV2Manifest, V2Result, ok, throws, ◌>>=◌}
use deqr.Protocol.Plan.{SegmentPlan, segment_plan_from_manifest}
use deqr.Fec.Decoder.{SegmentDecoderLimits, is_set}
use deqr.Fec.Decoder.Accept.{default_limits}
use deqr.Session.Types.{SegmentedReceiverStats, PartialLimits, SegmentedReceiver}

-- POPCOUNT: the first `n` entries of the table
unfoldable pub popcount_from : ℕ → List ℕ
popcount_from zero = []
popcount_from (suc value) =
    let table = popcount_from value in
    let bits : ℕ = if value == 0 then 0 else value % 2 + get_or table (value / 2) 0 in
    table ++ (bits ∷ [])

unfoldable pub popcount : List ℕ
unfolding popcount_from
popcount = popcount_from 256

unfoldable pub count_bits : List ℕ → ℕ
unfolding popcount
count_bits [] = 0
count_bits (byte ∷ bytes) = get_or popcount byte 0 + count_bits bytes

-- The bits above the last segment are cleared.
unfoldable pub clear_spare : List ℕ → ℕ → List ℕ
clear_spare bits segment_count =
    let spare = segment_count % 8 in
    let last = length bits - 1 in
    if spare == 0 then bits else set bits last (bit_and (get_or bits last 0) (2 ^ spare - 1))

abbrev pub bitmap_bytes : ℕ → ℕ
bitmap_bytes segment_count = (segment_count + 7) / 8

unfoldable pub adopt : SegmentedReceiver → List ℕ → V2Result SegmentedReceiver
unfolding clear_spare count_bits
adopt r bits =
    let cleared = clear_spare bits r.manifest.segment_count in
    if length bits == length r.committed_bits
    then ok (record r {
      committed_bits = cleared;
      committed_count = count_bits cleared;
      adopted_count = count_bits cleared;
    })
    else throws

abbrev pub no_counters : SegmentedReceiverStats
no_counters = record {
  frames_accepted = 0;
  frames_duplicate = 0;
  frames_rejected = 0;
  manifest_frames = 0;
  segments_committed = 0;
  segments_evicted = 0;
  source_symbols_placed = 0;
  repair_symbols_accepted = 0;
  symbols_repaired = 0;
}

-- A receiver of a manifest with its plan that has nothing yet.
abbrev pub empty_receiver : DeqrV2Manifest → SegmentPlan → ℕ → PartialLimits → SegmentedReceiver
empty_receiver m plan max_active_segments limits = record {
  manifest = m;
  plan = plan;
  max_active_segments = max_active_segments;
  decoder_limits = limits;
  active = [];
  committed_bits = replicate (bitmap_bytes m.segment_count) 0;
  committed_count = 0;
  adopted_count = 0;
  touch_counter = 0;
  released = false;
  counters = no_counters;
  retired_xor_bytes = 0;
  completed = [];
}

abbrev pub adopt_given : SegmentedReceiver → Option (List ℕ) → V2Result SegmentedReceiver
adopt_given r none = ok r
adopt_given r (some bits) = adopt r bits

-- the constructor, with the two numbers that the options and the defaults come to
unfoldable pub new_receiver :
    DeqrV2Manifest → ℕ → ℕ → PartialLimits → Option (List ℕ) → V2Result SegmentedReceiver
unfolding adopt
new_receiver m max_segment_count max_active_segments limits adopted_segments =
    if ltb max_segment_count m.segment_count
    then throws
    else if not (leb 1 max_active_segments)
    then throws
    else (segment_plan_from_manifest m >>= λ plan.
        adopt_given (empty_receiver m plan max_active_segments limits) adopted_segments)

unfoldable pub is_segment_committed : SegmentedReceiver → ℕ → Bool
is_segment_committed r segment_index =
    ltb segment_index r.manifest.segment_count && is_set r.committed_bits segment_index

-- The bits of one byte, from bit `8 - left` on. `none` means that they are all set.
unfoldable pub missing_in_byte : ℕ → ℕ → ℕ → ℕ → Option ℕ
missing_in_byte segment_count byte segment_index zero = none
missing_in_byte segment_count byte segment_index (suc left) =
    let later = missing_in_byte segment_count byte (segment_index + 1) left in
    if leb segment_count segment_index
    then some segment_count
    else if bit_and byte (2 ^ (segment_index % 8)) == 0
    then some segment_index
    else later

unfoldable pub first_missing_from : ℕ → ℕ → List ℕ → ℕ
first_missing_from segment_count byte_index [] = segment_count
first_missing_from segment_count byte_index (byte ∷ bytes) =
    let later = first_missing_from segment_count (byte_index + 1) bytes in
    if byte == 0xff then later else elim (missing_in_byte segment_count byte (byte_index * 8) 8) [
      | some index ↦ index
      | none ↦ later
    ]

unfoldable pub first_missing_segment : SegmentedReceiver → ℕ
first_missing_segment r = first_missing_from r.manifest.segment_count 0 r.committed_bits

abbrev pub or_else : Option ℕ → ℕ → ℕ
or_else none default = default
or_else (some n) default = n

-- { ...defaultSegmentDecoderLimits(sourceSymbolCount), ...options.limits }
unfoldable pub merged_limits : PartialLimits → ℕ → SegmentDecoderLimits
unfolding default_limits
merged_limits limits source_symbol_count =
    let default = default_limits source_symbol_count in
    record {
      max_pending_equations = or_else limits.max_pending_equations default.max_pending_equations;
      max_pending_neighbor_refs =
          or_else limits.max_pending_neighbor_refs default.max_pending_neighbor_refs;
      max_tracked_repair_ids = or_else limits.max_tracked_repair_ids default.max_tracked_repair_ids;
    }
