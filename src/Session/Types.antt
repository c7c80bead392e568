-- ===== src/Session/Types.antt =====
-- The results and the state of SegmentedReceiver (src/core/segmented-receiver.ts).
use deqr.Common.{ℕ, List, Bool, Option, ◌==◌}
use deqr.Protocol.Types.{DeqrV2Manifest, V2ErrorCode}
use deqr.Protocol.Plan.{SegmentPlan}
use deqr.Fec.Decoder.{SegmentDecoder}
use deqr.Fec.Decoder.Accept.{SegmentRejectReason}

pub data ReceiveAcceptStatus : Type 0 where
  accepted duplicate segment_committed manifest rejected : ReceiveAcceptStatus

pub data ReceiveRejectReason : Type 0 where
  protocol : V2ErrorCode → ReceiveRejectReason
  symbol : SegmentRejectReason → ReceiveRejectReason
  session_released : ReceiveRejectReason

pub record ReceiveAcceptResult : Type 0 where
  pub status : ReceiveAcceptStatus
  pub segment_index : Option ℕ
  pub solved : ℕ
  pub segment_completed : Bool
  pub session_complete : Bool
  pub reason : Option ReceiveRejectReason

pub record CompletedSegment : Type 0 where
  pub segment_index : ℕ
  pub bytes : List ℕ
  pub byte_offset : ℕ
  pub symbols_repaired : ℕ
  pub xor_bytes : ℕ

-- The counters of `stats()`, without the two that it reads off the state.
pub record SegmentedReceiverStats : Type 0 where
  pub frames_accepted : ℕ
  pub frames_duplicate : ℕ
  pub frames_rejected : ℕ
  pub manifest_frames : ℕ
  pub segments_committed : ℕ
  pub segments_evicted : ℕ
  pub source_symbols_placed : ℕ
  pub repair_symbols_accepted : ℕ
  pub symbols_repaired : ℕ

-- Partial<SegmentDecoderLimits>
pub record PartialLimits : Type 0 where
  pub max_pending_equations : Option ℕ
  pub max_pending_neighbor_refs : Option ℕ
  pub max_tracked_repair_ids : Option ℕ

pub record ActiveSegment : Type 0 where
  pub decoder : SegmentDecoder
  pub last_touched : ℕ

-- The calls of `onSegmentComplete` are kept, in their order, in `completed`.
pub record SegmentedReceiver : Type 0 where
  pub manifest : DeqrV2Manifest
  pub plan : SegmentPlan
  pub max_active_segments : ℕ
  pub decoder_limits : PartialLimits
  pub active : List (ℕ × ActiveSegment)
  pub committed_bits : List ℕ
  pub committed_count : ℕ
  pub adopted_count : ℕ
  pub touch_counter : ℕ
  pub released : Bool
  pub counters : SegmentedReceiverStats
  pub retired_xor_bytes : ℕ
  pub completed : List CompletedSegment

abbrev pub is_complete : SegmentedReceiver → Bool
is_complete r = r.committed_count == r.manifest.segment_count
