-- ===== src/Protocol/Plan.antt =====
-- How a transport stream is cut into segments and symbols: planSegmentation,
-- sourceSymbolCountForSegment, segmentByteRange and symbolByteRange of src/core/protocol-v2.ts.
-- The sizes are naturals, so the tests for a `bigint`, an integer or a negative number fall away.
pub mod Shape
pub mod Tiling
use deqr.Common.{ℕ, ◌+◌, ◌-◌, ◌*◌, ◌/◌, ◌%◌, min, Bool, ◌&&◌, leb, ltb, ◌==◌, if◌then◌else◌, div_up}
use deqr.Protocol.Types.{
  DeqrV2Manifest, V2Result, ok, fail, require, ◌>>=◌, ◌>>◌, field_out_of_range,
  segment_out_of_range, symbol_out_of_range, max_file_bytes, min_symbol_size_bytes,
  max_symbol_size_bytes, min_segment_size_bytes, max_segment_size_bytes, max_segment_count,
  max_symbols_per_segment,
}

pub record SegmentPlan : Type 0 where
  pub transport_size : ℕ
  pub segment_size_bytes : ℕ
  pub symbol_size_bytes : ℕ
  pub segment_count : ℕ
  pub symbols_per_full_segment : ℕ
  pub last_segment_bytes : ℕ
  pub symbols_in_last_segment : ℕ

pub record ByteRange : Type 0 where
  pub start : ℕ
  pub end : ℕ

-- What planSegmentation returns once its tests have passed.
build_plan : ℕ → ℕ → ℕ → ℕ → SegmentPlan
build_plan transport_size segment_size_bytes symbol_size_bytes segment_count =
    let last_segment_bytes = transport_size - segment_size_bytes * (segment_count - 1) in
    record {
      transport_size = transport_size;
      segment_size_bytes = segment_size_bytes;
      symbol_size_bytes = symbol_size_bytes;
      segment_count = segment_count;
      symbols_per_full_segment = segment_size_bytes / symbol_size_bytes;
      last_segment_bytes = last_segment_bytes;
      symbols_in_last_segment = div_up last_segment_bytes symbol_size_bytes;
    }

unfoldable pub plan_segmentation : ℕ → ℕ → ℕ → V2Result SegmentPlan
unfolding build_plan
plan_segmentation transport_size segment_size_bytes symbol_size_bytes = do
  require (leb 1 transport_size && leb transport_size max_file_bytes) field_out_of_range
  require
      (leb min_symbol_size_bytes symbol_size_bytes && leb symbol_size_bytes max_symbol_size_bytes)
      field_out_of_range
  require
      (leb min_segment_size_bytes segment_size_bytes
        && leb segment_size_bytes max_segment_size_bytes)
      field_out_of_range
  require (segment_size_bytes % symbol_size_bytes == 0) field_out_of_range
  let segment_count = div_up transport_size segment_size_bytes
  require (leb segment_count max_segment_count) field_out_of_range
  require (leb (segment_size_bytes / symbol_size_bytes) max_symbols_per_segment) field_out_of_range
  ok (build_plan transport_size segment_size_bytes symbol_size_bytes segment_count)

unfoldable pub source_symbol_count_for_segment : SegmentPlan → ℕ → V2Result ℕ
source_symbol_count_for_segment plan segment_index = do
  require (ltb segment_index plan.segment_count) segment_out_of_range
  ok (
      if segment_index == plan.segment_count - 1
      then plan.symbols_in_last_segment
      else plan.symbols_per_full_segment)

unfoldable pub segment_byte_range : SegmentPlan → ℕ → V2Result ByteRange
segment_byte_range plan segment_index = do
  require (ltb segment_index plan.segment_count) segment_out_of_range
  let start = plan.segment_size_bytes * segment_index
  ok (record {
    start = start;
    end =
        if segment_index == plan.segment_count - 1
        then plan.transport_size
        else start + plan.segment_size_bytes;
  })

unfoldable pub symbol_byte_range : SegmentPlan → ℕ → ℕ → V2Result ByteRange
symbol_byte_range plan segment_index symbol_id = do
  symbol_count ← source_symbol_count_for_segment plan segment_index
  require (ltb symbol_id symbol_count) symbol_out_of_range
  segment ← segment_byte_range plan segment_index
  let start = segment.start + plan.symbol_size_bytes * symbol_id
  let end = start + plan.symbol_size_bytes
  ok (record { start = start; end = if ltb segment.end end then segment.end else end })

unfoldable pub segment_plan_from_manifest : DeqrV2Manifest → V2Result SegmentPlan
segment_plan_from_manifest manifest =
    plan_segmentation manifest.transport_size manifest.segment_size_bytes manifest.symbol_size_bytes
