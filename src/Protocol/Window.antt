-- ===== src/Protocol/Window.antt =====
-- Compression windows, and the rules that tie the compression fields of a manifest together:
-- compressionWindowBytes, planCompressionWindows, windowPlanFromManifest, windowOriginalRange and
-- compressionInconsistency of src/core/protocol-v2.ts.
pub mod Laws
use deqr.Common.{ℕ, ◌+◌, ◌-◌, ◌*◌, ◌^◌, Option, none, some, not, ◌&&◌, leb, ltb, ◌==◌}
use deqr.Common.{if◌then◌else◌, div_up}
use deqr.Protocol.Types.{
  DeqrV2Manifest, V2ErrorCode, V2Result, ok, fail, rejects, throws, require, ◌>>=◌, ◌>>◌,
  field_out_of_range, segment_out_of_range, inconsistent_manifest, unsupported_compression,
  compression_none, compression_gzip, min_log2, max_log2, window_length_prefix_bytes,
  min_gzip_member_bytes, max_file_bytes, max_segment_count,
}
use deqr.Protocol.Plan.{ByteRange}

pub record CompressionWindowPlan : Type 0 where
  pub window_bytes : ℕ
  pub window_count : ℕ
  pub last_window_bytes : ℕ

unfoldable pub compression_window_bytes : ℕ → V2Result ℕ
compression_window_bytes compression_param = do
  require (leb min_log2 compression_param && leb compression_param max_log2) field_out_of_range
  ok (2 ^ compression_param)

-- planCompressionWindows, once the window size is known
windows_of : ℕ → ℕ → V2Result CompressionWindowPlan
windows_of original_size window_bytes = do
  require (leb 1 original_size && leb original_size max_file_bytes) field_out_of_range
  let window_count = div_up original_size window_bytes
  require (leb window_count max_segment_count) field_out_of_range
  ok (record {
    window_bytes = window_bytes;
    window_count = window_count;
    last_window_bytes = original_size - window_bytes * (window_count - 1);
  })

unfoldable pub plan_compression_windows : ℕ → ℕ → V2Result CompressionWindowPlan
unfolding compression_window_bytes windows_of
plan_compression_windows original_size compression_param = do
  window_bytes ← compression_window_bytes compression_param
  windows_of original_size window_bytes

unfoldable pub window_plan_from_manifest : DeqrV2Manifest → V2Result (Option CompressionWindowPlan)
window_plan_from_manifest manifest =
    if manifest.compression_mode == compression_none then ok none else do
      plan ← plan_compression_windows manifest.original_size manifest.compression_param
      ok (some plan)

-- The floor that this many window records have.
window_floor : V2Result CompressionWindowPlan → ℕ → Option V2ErrorCode
window_floor (fail code) transport_size = some code
window_floor (rejects code) transport_size = some code
window_floor throws transport_size = some inconsistent_manifest
window_floor (ok windows) transport_size =
    if ltb transport_size
      (windows.window_count * (window_length_prefix_bytes + min_gzip_member_bytes))
    then some inconsistent_manifest
    else none

unfoldable pub compression_inconsistency : ℕ → ℕ → ℕ → ℕ → Option V2ErrorCode
unfolding window_floor
compression_inconsistency compression_mode compression_param original_size transport_size =
    if not (compression_mode == compression_none) && not (compression_mode == compression_gzip)
    then some unsupported_compression
    else if ltb 0xff compression_param
    then some field_out_of_range
    else if compression_mode == compression_none
    then (if not (transport_size == original_size)
        then some inconsistent_manifest
        else if not (compression_param == 0)
        then some inconsistent_manifest
        else none)
    else if ltb original_size transport_size
    then some inconsistent_manifest
    else window_floor (plan_compression_windows original_size compression_param) transport_size

unfoldable pub window_original_range : CompressionWindowPlan → ℕ → V2Result ByteRange
window_original_range plan window_index = do
  require (ltb window_index plan.window_count) segment_out_of_range
  let start = plan.window_bytes * window_index
  let size =
      if window_index == plan.window_count - 1 then plan.last_window_bytes else plan.window_bytes
  ok (record { start = start; end = start + size })
