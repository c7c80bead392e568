-- ===== src/Protocol/Frame.antt =====
-- Any frame: isSafeSize, toSafeNumber, detectProtocolVersion, parseFrame and
-- validateDataFrameAgainstManifest of src/core/protocol-v2.ts.
pub mod Dispatch
pub mod Belongs
use deqr.Common.{ℕ, ◌^◌, ◌-◌, List, length, get_or, Option, none, some, Bool, ◌&&◌, leb, ltb, ◌==◌}
use deqr.Common.{if◌then◌else◌}
use deqr.Protocol.Types.{
  DeqrV2Manifest, DeqrV2DataFrame, DeqrV2Frame, manifest, data_frame, V2Result, ok, fail, throws,
  guard, require, ◌>>=◌, ◌>>◌, precision_loss, session_mismatch, segment_out_of_range,
  inconsistent_manifest, field_out_of_range, magic_0, magic_1, protocol_version, manifest_type,
}
use deqr.Protocol.Plan.{SegmentPlan, source_symbol_count_for_segment}
use deqr.Protocol.Data.{read_prefix, parse_data_frame}
use deqr.Protocol.Manifest.{parse_manifest_frame}

-- Number.MAX_SAFE_INTEGER
abbrev pub max_safe_integer : ℕ
max_safe_integer = 2 ^ 53 - 1

unfoldable pub is_safe_size : ℕ → Bool
is_safe_size value = leb value max_safe_integer

unfoldable pub to_safe_number : ℕ → V2Result ℕ
unfolding is_safe_size
to_safe_number value = do require (is_safe_size value) precision_loss; ok value

unfoldable pub detect_protocol_version : List ℕ → Option ℕ
detect_protocol_version bytes =
    if leb 3 (length bytes) && get_or bytes 0 0 == magic_0 && get_or bytes 1 0 == magic_1
    then (if get_or bytes 2 0 == protocol_version then some 2 else none)
    else if leb 20 (length bytes) && get_or bytes 0 0 == 1
    then some 1
    else none

unfoldable pub parse_frame : List ℕ → V2Result DeqrV2Frame
parse_frame bytes = do
  frame_type ← read_prefix bytes
  if frame_type == manifest_type
      then (parse_manifest_frame bytes >>= λ m. ok (manifest m))
      else (parse_data_frame bytes >>= λ f. ok (data_frame f))

unfoldable pub validate_data_frame_against_manifest :
    DeqrV2DataFrame → DeqrV2Manifest → SegmentPlan → V2Result (Unit {0})
validate_data_frame_against_manifest frame m plan = do
  guard (frame.session_id == m.session_id) session_mismatch
  guard (frame.file_id == m.file_id) session_mismatch
  guard (ltb frame.segment_index m.segment_count) segment_out_of_range
  expected_symbols ← source_symbol_count_for_segment plan frame.segment_index
  guard (frame.source_symbol_count == expected_symbols) inconsistent_manifest
  guard (length frame.payload == m.symbol_size_bytes) field_out_of_range
