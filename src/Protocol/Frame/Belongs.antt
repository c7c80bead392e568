-- ===== src/Protocol/Frame/Belongs.antt =====
-- A data frame that belongs to its manifest carries one whole symbol of the stream
-- (validateDataFrameAgainstManifest of src/core/protocol-v2.ts).
use deqr.Common.{◌+◌, ◌≤◌, ◌<◌, ◌≡◌, arith, length}
use deqr.Protocol.Types.{DeqrV2DataFrame, DeqrV2Manifest, ok, source_type}
use deqr.Protocol.Plan.{
  SegmentPlan, ByteRange, symbol_byte_range, source_symbol_count_for_segment,
  segment_plan_from_manifest,
}
use deqr.Protocol.Plan.Tiling.{symbol_place}
use deqr.Protocol.Plan.Shape.{plan_segmentation-IsPlan}
use deqr.Protocol.Data.Roundtrip.{IsDataFrame}
use deqr.Protocol.Frame.{validate_data_frame_against_manifest}

validate_data_frame-inv :
    (f : DeqrV2DataFrame) (m : DeqrV2Manifest) (p : SegmentPlan)
    → validate_data_frame_against_manifest f m p ≡ ok tt
    → (f.session_id ≡ m.session_id)
      × (f.file_id ≡ m.file_id)
      × (source_symbol_count_for_segment p f.segment_index ≡ ok f.source_symbol_count)
      × (length f.payload ≡ m.symbol_size_bytes)
unfolding validate_data_frame_against_manifest source_symbol_count_for_segment
validate_data_frame-inv f m p h = ground arith

-- A valid source frame that validateDataFrameAgainstManifest accepts, against the plan of the
-- manifest, is of the manifest's session and file, and names one symbol of the stream: its range is
-- not empty, ends within the stream, and is no longer than the payload.
pub validated_source-range :
    (f : DeqrV2DataFrame) (m : DeqrV2Manifest) {p : SegmentPlan}
    → IsDataFrame f
    → f.frame_type ≡ source_type
    → segment_plan_from_manifest m ≡ ok p
    → validate_data_frame_against_manifest f m p ≡ ok tt
    → (f.session_id ≡ m.session_id)
      × (f.file_id ≡ m.file_id)
      × ((r : ByteRange) × (symbol_byte_range p f.segment_index f.symbol_id ≡ ok r)
          × (r.start < r.end)
          × (r.end ≤ m.transport_size)
          × (r.end ≤ r.start + length f.payload))
unfolding segment_plan_from_manifest
validated_source-range f m {p} v source planned h =
    let (session, file, counted, size) = validate_data_frame-inv f m p h in
    let (shape, t, s, y) =
      plan_segmentation-IsPlan m.transport_size m.segment_size_bytes m.symbol_size_bytes planned in
    let (r, placed, pos, short, within) =
      symbol_place p shape f.segment_index f.symbol_id counted (v.source_below source) in
    (session, file, (r, placed, pos, omega arith, omega arith))
