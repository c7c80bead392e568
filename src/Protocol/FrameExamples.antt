-- ===== src/Protocol/FrameExamples.antt =====
-- A manifest frame, its text codec and a data frame that belongs to it (src/core/protocol-v2.ts).
use deqr.Common.{
  true, ℕ, ◌+◌, ◌≤◌, ◌<◌, ◌≡◌, refl, arith, some, List, [], ◌∷◌, replicate, inl, length,
}
use deqr.Protocol.Types.{
  DeqrV2Manifest, DeqrV2DataFrame, DeqrV2Frame, Text, ok, fail, returns, invalid_utf8, v1_frame,
  field_out_of_range,
}
use deqr.Protocol.Plan.{
  SegmentPlan, ByteRange, segment_plan_from_manifest, symbol_byte_range, plan_segmentation,
  source_symbol_count_for_segment,
}
use deqr.Protocol.Utf8.{encode_utf8, decode_utf8, text_of, scalars_from}
use deqr.Protocol.Buffer.{set_u16, get_uint}
use deqr.Protocol.Manifest.{
  serialize_manifest_frame, parse_manifest_frame, check_manifest, check_texts,
  unsealed_manifest_frame, read_manifest, check_manifest_length,
}
use deqr.Protocol.Data.{has_critical, seal, check_crc, read_prefix}
use deqr.Protocol.Crc.{crc32}
use deqr.Protocol.Window.{compression_inconsistency}
use deqr.Filename.{sanitize_filename}
use deqr.Protocol.Manifest.Roundtrip.{received, IsTextual, parse-serialize_manifest_frame}
use deqr.Protocol.Manifest.Safety.{IsConsistent, parse_manifest_frame-IsConsistent}
use deqr.Protocol.Frame.{detect_protocol_version, parse_frame, validate_data_frame_against_manifest}
use deqr.Protocol.Frame.Dispatch.{returns-parse_frame, detect-parse_frame}
use deqr.Protocol.Frame.Belongs.{validated_source-range}
use deqr.Protocol.Data.Roundtrip.{IsDataFrame}

-- "é€" and a musical clef, which takes two units
abbrev foreign : Text
foreign = 0xe9 ∷ 0x20ac ∷ 0xd834 ∷ 0xdd1e ∷ []

encoded_foreign :
    encode_utf8 foreign ≡ 0xc3 ∷ 0xa9 ∷ 0xe2 ∷ 0x82 ∷ 0xac ∷ 0xf0 ∷ 0x9d ∷ 0x84 ∷ 0x9e ∷ []
unfolding encode_utf8
encoded_foreign = refl

overlong : decode_utf8 (0xc0 ∷ 0xaf ∷ []) ≡ fail invalid_utf8
unfolding decode_utf8
overlong = refl

-- a byte order mark in front of "a" is lost
marked : decode_utf8 (encode_utf8 (0xfeff ∷ 0x61 ∷ [])) ≡ ok (0x61 ∷ [])
unfolding decode_utf8 encode_utf8
marked = refl

abbrev small_manifest : DeqrV2Manifest
small_manifest = record {
  feature_flags = 0;
  session_id = 7;
  file_id = 9;
  original_size = 200000;
  transport_size = 200000;
  segment_size_bytes = 65536;
  symbol_size_bytes = 512;
  segment_count = 4;
  fec_profile_id = 1;
  compression_mode = 0;
  compression_param = 0;
  transport_profile_id = 2;
  sha256 = replicate 32 0xab;
  filename = 0x61 ∷ 0x2e ∷ 0x74 ∷ [];
  mime_type = 0x74 ∷ 0x2f ∷ 0x70 ∷ [];
}

abbrev manifest_bytes : List ℕ
manifest_bytes =
    68 ∷ 50 ∷ 2 ∷ 1 ∷ 0 ∷ 0 ∷ 0 ∷ 0 ∷ 0 ∷ 7 ∷ 0 ∷ 0 ∷ 0 ∷ 9 ∷ 0 ∷ 0 ∷ 0 ∷ 0 ∷ 0 ∷ 3 ∷ 13 ∷ 64 ∷ 0
    ∷ 0 ∷ 0 ∷ 0 ∷ 0 ∷ 3 ∷ 13 ∷ 64 ∷ 0 ∷ 1 ∷ 0 ∷ 0 ∷ 2 ∷ 0 ∷ 0 ∷ 0 ∷ 0 ∷ 4 ∷ 1 ∷ 0 ∷ 0 ∷ 2 ∷ 171
    ∷ 171 ∷ 171 ∷ 171 ∷ 171 ∷ 171 ∷ 171 ∷ 171 ∷ 171 ∷ 171 ∷ 171 ∷ 171 ∷ 171 ∷ 171 ∷ 171 ∷ 171 ∷ 171
    ∷ 171 ∷ 171 ∷ 171 ∷ 171 ∷ 171 ∷ 171 ∷ 171 ∷ 171 ∷ 171 ∷ 171 ∷ 171 ∷ 171 ∷ 171 ∷ 171 ∷ 171 ∷ 0
    ∷ 3 ∷ 97 ∷ 46 ∷ 116 ∷ 0 ∷ 3 ∷ 116 ∷ 47 ∷ 112 ∷ 28 ∷ 155 ∷ 113 ∷ 211 ∷ []

manifest_serialized : serialize_manifest_frame small_manifest ≡ ok manifest_bytes
unfolding serialize_manifest_frame check_manifest check_texts unsealed_manifest_frame seal crc32
    encode_utf8 sanitize_filename plan_segmentation compression_inconsistency has_critical
manifest_serialized = refl

small_manifest-IsTextual : IsTextual small_manifest
unfolding sanitize_filename text_of scalars_from
small_manifest-IsTextual = record {
  name = record { units = omega arith; well_formed = refl; no_mark = omega arith };
  mime = record { units = omega arith; well_formed = refl; no_mark = omega arith };
}

parse-serialize_manifest_frame_example :
    parse_manifest_frame manifest_bytes ≡ ok (received small_manifest)
parse-serialize_manifest_frame_example =
    parse-serialize_manifest_frame small_manifest small_manifest-IsTextual manifest_serialized

parse_manifest_frame-IsConsistent_example : IsConsistent (received small_manifest)
parse_manifest_frame-IsConsistent_example =
    parse_manifest_frame-IsConsistent manifest_bytes parse-serialize_manifest_frame_example

-- A symbol size of 31, which planSegmentation throws for.
abbrev unplanned_bytes : List ℕ
unplanned_bytes = seal (length manifest_bytes) (set_u16 manifest_bytes 34 31)

unplanned_fails : parse_frame unplanned_bytes ≡ fail field_out_of_range
unfolding parse_frame parse_manifest_frame check_manifest_length check_crc read_manifest
    compression_inconsistency plan_segmentation has_critical seal crc32 read_prefix set_u16 get_uint
unplanned_fails = refl

returns-parse_frame_example : returns (parse_frame unplanned_bytes) ≡ true
returns-parse_frame_example = returns-parse_frame unplanned_bytes

detect-parse_frame_example :
    ((f : DeqrV2Frame)
      → parse_frame (1 ∷ replicate 30 0) ≡ ok f
      → detect_protocol_version (1 ∷ replicate 30 0) ≡ some 2)
    × (detect_protocol_version (1 ∷ replicate 30 0) ≡ some 1
        → parse_frame (1 ∷ replicate 30 0) ≡ fail v1_frame)
detect-parse_frame_example = detect-parse_frame (1 ∷ replicate 30 0)

-- the last symbol of the last segment
abbrev last_segment_frame : DeqrV2DataFrame
last_segment_frame = record {
  frame_type = 2;
  session_id = 7;
  file_id = 9;
  segment_index = 3;
  symbol_id = 6;
  source_symbol_count = 7;
  frame_flags = 0;
  payload = replicate 512 1;
}

abbrev manifest_plan : SegmentPlan
manifest_plan = record {
  transport_size = 200000;
  segment_size_bytes = 65536;
  symbol_size_bytes = 512;
  segment_count = 4;
  symbols_per_full_segment = 128;
  last_segment_bytes = 3392;
  symbols_in_last_segment = 7;
}

manifest_planned : segment_plan_from_manifest small_manifest ≡ ok manifest_plan
unfolding segment_plan_from_manifest plan_segmentation
manifest_planned = refl

frame_validated :
    validate_data_frame_against_manifest last_segment_frame small_manifest manifest_plan ≡ ok tt
unfolding validate_data_frame_against_manifest source_symbol_count_for_segment
frame_validated = refl

last_segment_frame-IsDataFrame : IsDataFrame last_segment_frame
unfolding has_critical
last_segment_frame-IsDataFrame = record {
  kind = inl refl;
  flags_fit = omega arith;
  no_critical = refl;
  session_fits = omega arith;
  file_fits = omega arith;
  segment_fits = omega arith;
  symbol_fits = omega arith;
  count_fits = omega arith;
  count_pos = omega arith;
  source_below = λ _. omega arith;
  repair_above = λ e. omega arith;
  payload_pos = omega arith;
  payload_le = omega arith;
}

validated_source-range_example :
    (◌≡◌ {A = ℕ} 7 7)
    × (◌≡◌ {A = ℕ} 9 9)
    × ((r : ByteRange) × (symbol_byte_range manifest_plan 3 6 ≡ ok r)
        × (r.start < r.end)
        × (r.end ≤ 200000)
        × (r.end ≤ r.start + 512))
validated_source-range_example =
    validated_source-range last_segment_frame small_manifest last_segment_frame-IsDataFrame refl
      manifest_planned frame_validated
