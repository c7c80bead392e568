-- ===== src/Protocol/Examples.antt =====
-- Tests of the protocol's definitions on concrete frames and plans, and its theorems at them
-- (src/core/protocol-v2.ts).
use deqr.Common.{ℕ, ◌*◌, ◌≡◌, ◌≢◌, ◌⊎◌, ◌↔◌, refl, none, arith, List, [], ◌∷◌, replicate}
use deqr.Protocol.Types.{
  DeqrV2DataFrame, ok, fail, rejects, source_type, crc_mismatch, v1_frame, field_out_of_range,
}
use deqr.Protocol.Plan.{
  SegmentPlan, ByteRange, plan_segmentation, segment_byte_range, symbol_byte_range,
  source_symbol_count_for_segment,
}
use deqr.Protocol.Plan.Shape.{CanPlan, IsPlan, plan_segmentation-IsPlan, plan_segmentation_iff}
use deqr.Protocol.Plan.Tiling.{Holds, symbols_cover, symbols_disjoint}
use deqr.Protocol.Window.{
  CompressionWindowPlan, plan_compression_windows, compression_inconsistency, window_original_range,
}
use deqr.Protocol.Window.Laws.{
  Uncompressed, Compressed, compression_inconsistency_iff, windows_cover,
}
use deqr.Protocol.Crc.{crc32}
use deqr.Protocol.Buffer.{set_u8, get_uint}
use deqr.Protocol.Data.{
  has_critical, check_data_frame, unsealed_data_frame, seal, serialize_data_frame, read_prefix,
  check_crc, check_data_length, read_data_frame, parse_data_frame,
}
use deqr.Protocol.Data.Roundtrip.{parse-serialize_data_frame}
use deqr.Protocol.Data.Canonical.{serialize-parse_data_frame}

abbrev plan_200k : SegmentPlan
plan_200k = record {
  transport_size = 200000;
  segment_size_bytes = 65536;
  symbol_size_bytes = 512;
  segment_count = 4;
  symbols_per_full_segment = 128;
  last_segment_bytes = 3392;
  symbols_in_last_segment = 7;
}

plans_200k : plan_segmentation 200000 65536 512 ≡ ok plan_200k
unfolding plan_segmentation
plans_200k = refl

plan_refusals :
    (plan_segmentation 0 65536 512 ≡ rejects field_out_of_range)
    × (plan_segmentation 1 65536 513 ≡ rejects field_out_of_range)
    × (plan_segmentation (65536 * 4294967296) 65536 512 ≡ rejects field_out_of_range)
unfolding plan_segmentation
plan_refusals = (refl, refl, refl)

plan_200k-IsPlan : IsPlan plan_200k
plan_200k-IsPlan = (plan_segmentation-IsPlan 200000 65536 512 plans_200k).0

plan_segmentation-IsPlan_example :
    IsPlan plan_200k
    × (plan_200k.transport_size ≡ 200000)
    × (plan_200k.segment_size_bytes ≡ 65536)
    × (plan_200k.symbol_size_bytes ≡ 512)
plan_segmentation-IsPlan_example = plan_segmentation-IsPlan 200000 65536 512 plans_200k

plan_segmentation_iff_example :
    CanPlan 200000 65536 512 ↔ ((p : SegmentPlan) × (plan_segmentation 200000 65536 512 ≡ ok p))
plan_segmentation_iff_example = plan_segmentation_iff 200000 65536 512

last_symbol : symbol_byte_range plan_200k 3 6 ≡ ok (record { start = 199680; end = 200000 })
unfolding symbol_byte_range source_symbol_count_for_segment segment_byte_range
last_symbol = refl

symbols_cover_example :
    (i : ℕ) × (j : ℕ) × (r : ByteRange) × (symbol_byte_range plan_200k i j ≡ ok r) × Holds 199999 r
symbols_cover_example = symbols_cover plan_200k plan_200k-IsPlan 199999 (omega arith)

symbols_disjoint_example : (◌≡◌ {A = ℕ} 3 3) × (◌≡◌ {A = ℕ} 6 6)
symbols_disjoint_example =
    symbols_disjoint plan_200k plan_200k-IsPlan 199999 3 6 3 6 last_symbol last_symbol
      (omega arith, omega arith) (omega arith, omega arith)

abbrev windows_3m : CompressionWindowPlan
windows_3m = record { window_bytes = 1048576; window_count = 3; last_window_bytes = 902848 }

plans_windows_3m : plan_compression_windows 3000000 20 ≡ ok windows_3m
unfolding plan_compression_windows
plans_windows_3m = refl

compression_tests :
    (compression_inconsistency 1 20 3000000 1000000 ≡ none)
    × (compression_inconsistency 0 0 3000000 1000000 ≢ none)
    × (compression_inconsistency 1 20 3000000 65 ≢ none)
unfolding compression_inconsistency plan_compression_windows
compression_tests = (refl, λ e. cc, λ e. cc)

compression_inconsistency_iff_example :
    (compression_inconsistency 1 20 3000000 1000000 ≡ none)
    ↔ (Uncompressed 1 20 3000000 1000000 ⊎ Compressed 1 20 3000000 1000000)
compression_inconsistency_iff_example = compression_inconsistency_iff 1 20 3000000 1000000

last_window : window_original_range windows_3m 2 ≡ ok (record { start = 2097152; end = 3000000 })
unfolding window_original_range
last_window = refl

windows_cover_example :
    (i : ℕ) × (r : ByteRange) × (window_original_range windows_3m i ≡ ok r) × Holds 2999999 r
windows_cover_example = windows_cover 3000000 20 2999999 plans_windows_3m (omega arith)

abbrev small_frame : DeqrV2DataFrame
small_frame = record {
  frame_type = source_type;
  session_id = 0x01020304;
  file_id = 7;
  segment_index = 1;
  symbol_id = 2;
  source_symbol_count = 3;
  frame_flags = 0x0001;
  payload = 0xde ∷ 0xad ∷ [];
}

abbrev small_bytes : List ℕ
small_bytes =
    0x44 ∷ 0x32 ∷ 2 ∷ 2 ∷ 1 ∷ 2 ∷ 3 ∷ 4 ∷ 0 ∷ 0 ∷ 0 ∷ 7 ∷ 0 ∷ 0 ∷ 0 ∷ 1 ∷ 0 ∷ 0 ∷ 0 ∷ 2 ∷ 0 ∷ 0 ∷ 0
    ∷ 3 ∷ 0 ∷ 2 ∷ 0 ∷ 1 ∷ 0xde ∷ 0xad ∷ 216 ∷ 180 ∷ 222 ∷ 127 ∷ []

small_serialized : serialize_data_frame small_frame ≡ ok small_bytes
unfolding serialize_data_frame check_data_frame has_critical unsealed_data_frame seal crc32
small_serialized = refl

damaged : parse_data_frame (set_u8 small_bytes 29 0xae) ≡ fail crc_mismatch
unfolding parse_data_frame read_prefix check_data_length check_crc crc32 get_uint set_u8
damaged = refl

old_frame : parse_data_frame (1 ∷ replicate 30 0) ≡ fail v1_frame
unfolding parse_data_frame read_prefix
old_frame = refl

parse-serialize_data_frame_example : parse_data_frame small_bytes ≡ ok small_frame
parse-serialize_data_frame_example = parse-serialize_data_frame small_frame small_serialized

serialize-parse_data_frame_example : serialize_data_frame small_frame ≡ ok small_bytes
unfolding parse_data_frame read_prefix check_data_length check_crc read_data_frame has_critical
    crc32 get_uint
serialize-parse_data_frame_example = serialize-parse_data_frame small_bytes (omega arith) refl
