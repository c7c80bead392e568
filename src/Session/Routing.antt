-- ===== src/Session/Routing.antt =====
-- How SegmentedReceiver (src/core/segmented-receiver.ts) routes a frame to the decoder of its segment,
-- makes room for one, and commits a segment that is complete. The rule `RepairNeighborFn` of the
-- decoders is a parameter. An exception that leaves the receiver is `rejects` for a DeqrV2Error, and
-- `throws` for any other.
use deqr.Common.{ℕ, ◌+◌, ◌-◌, List, [], ◌∷◌, ◌++◌, length, Option, none, some}
use deqr.Common.{Bool, true, false, not, ◌||◌, ltb, leb, ◌==◌, if◌then◌else◌}
use deqr.Protocol.Types.{
  DeqrV2Manifest, DeqrV2DataFrame, DeqrV2Frame, data_frame, V2Result, ok, fail, rejects, throws,
  ◌>>=◌, session_mismatch,
}
use deqr.Protocol.Plan.{segment_byte_range, source_symbol_count_for_segment}
use deqr.Protocol.Frame.{parse_frame, validate_data_frame_against_manifest}
use deqr.Fec.Equations.{lookup, insert, delete}
use deqr.Fec.Decoder.{SegmentDecoder, SegmentDecoderStats, set_bit}
use deqr.Fec.Decoder.Accept.{SegmentAcceptStatus, SegmentAcceptResult, new_decoder, accept, detach}
use deqr.Session.Types.{
  ReceiveAcceptStatus, ReceiveRejectReason, protocol, symbol, session_released, ReceiveAcceptResult,
  SegmentedReceiverStats, ActiveSegment, SegmentedReceiver, is_complete,
}
use deqr.Session.Setup.{is_segment_committed, merged_limits}

-- An exception that is not a DeqrV2Error.
abbrev pub or_throws {ℓ} : {A : Type ℓ} → Option A → V2Result A
or_throws none = throws
or_throws (some a) = ok a

abbrev pub refused :
    SegmentedReceiver → ReceiveRejectReason → Option ℕ → SegmentedReceiver × ReceiveAcceptResult
refused r reason segment_index = (
  record r { counters = record r.counters { frames_rejected = r.counters.frames_rejected + 1 } },
  record {
    status = ReceiveAcceptStatus.rejected;
    segment_index = segment_index;
    solved = 0;
    segment_completed = false;
    session_complete = is_complete r;
    reason = some reason;
  },
)

unfoldable pub live_xor_bytes : ℕ → List (ℕ × ActiveSegment) → ℕ
live_xor_bytes total [] = total
live_xor_bytes total ((index, entry) ∷ rest) =
    live_xor_bytes (total + entry.decoder.counters.xor_bytes) rest

-- The entry that was touched first, with when it was. `none` is touched at infinity.
abbrev pub touched_before : ℕ → Option (ℕ × ℕ) → Bool
touched_before t none = true
touched_before t (some (index, touched)) = ltb t touched

unfoldable pub least_recent : Option (ℕ × ℕ) → List (ℕ × ActiveSegment) → Option (ℕ × ℕ)
least_recent victim [] = victim
least_recent victim ((index, entry) ∷ rest) =
    least_recent
      (if touched_before entry.last_touched victim
        then some (index, entry.last_touched)
        else victim)
      rest

unfoldable pub evict : SegmentedReceiver → ℕ → Option ActiveSegment → SegmentedReceiver
evict r victim_index none = r
evict r victim_index (some victim) = record r {
  retired_xor_bytes = r.retired_xor_bytes + victim.decoder.counters.xor_bytes;
  active = delete r.active victim_index;
  counters = record r.counters { segments_evicted = r.counters.segments_evicted + 1 };
}

unfoldable pub evict_least_recent : SegmentedReceiver → SegmentedReceiver
unfolding least_recent evict
evict_least_recent r = elim (least_recent none r.active) [
  | none ↦ r
  | some (victim_index, touched) ↦ evict r victim_index (lookup r.active victim_index)
]

abbrev pub make_room : SegmentedReceiver → SegmentedReceiver
make_room r = if leb r.max_active_segments (length r.active) then evict_least_recent r else r

-- The decoder of a new segment.
unfoldable pub decoder_for : SegmentedReceiver → ℕ → V2Result SegmentDecoder
decoder_for r segment_index = do
  source_symbol_count ← source_symbol_count_for_segment r.plan segment_index
  range ← segment_byte_range r.plan segment_index
  or_throws (
      new_decoder source_symbol_count r.manifest.symbol_size_bytes (range.end - range.start)
        (merged_limits r.decoder_limits source_symbol_count))

-- A new segment, in a receiver that has room for it.
unfoldable pub create : SegmentedReceiver → ℕ → V2Result (SegmentedReceiver × ActiveSegment)
unfolding decoder_for
create r segment_index = decoder_for r segment_index >>= λ decoder.
    let entry : ActiveSegment = record { decoder = decoder; last_touched = r.touch_counter } in
    ok (record r { active = insert r.active segment_index entry }, entry)

unfoldable pub activate : SegmentedReceiver → ℕ → V2Result (SegmentedReceiver × ActiveSegment)
unfolding evict_least_recent create
activate r segment_index = elim (lookup r.active segment_index) [
  | some existing ↦ ok (r, existing)
  | none ↦ create (make_room r) segment_index
]

unfoldable pub commit : SegmentedReceiver → ℕ → SegmentDecoder → V2Result SegmentedReceiver
commit r segment_index decoder = do
  (closed, bytes) ← or_throws (detach decoder)
  range ← segment_byte_range r.plan segment_index
  ok (record r {
    retired_xor_bytes = r.retired_xor_bytes + decoder.counters.xor_bytes;
    active = delete r.active segment_index;
    committed_bits = set_bit r.committed_bits segment_index;
    committed_count = r.committed_count + 1;
    counters = record r.counters { segments_committed = r.counters.segments_committed + 1 };
    completed =
        r.completed
        ++ (record {
          segment_index = segment_index;
          bytes = bytes;
          byte_offset = range.start;
          symbols_repaired = decoder.counters.repair_solved_symbols;
          xor_bytes = decoder.counters.xor_bytes;
        }
            ∷ []);
  })

abbrev pub is_rejected : SegmentAcceptStatus → Bool
is_rejected SegmentAcceptStatus.rejected = true
is_rejected SegmentAcceptStatus.source_placed = false
is_rejected SegmentAcceptStatus.repair_solved = false
is_rejected SegmentAcceptStatus.repair_pending = false
is_rejected SegmentAcceptStatus.duplicate = false
is_rejected SegmentAcceptStatus.redundant = false

abbrev pub is_duplicate : SegmentAcceptStatus → Bool
is_duplicate SegmentAcceptStatus.rejected = false
is_duplicate SegmentAcceptStatus.source_placed = false
is_duplicate SegmentAcceptStatus.repair_solved = false
is_duplicate SegmentAcceptStatus.repair_pending = false
is_duplicate SegmentAcceptStatus.duplicate = true
is_duplicate SegmentAcceptStatus.redundant = true

-- What one symbol adds to the counters, by those of its decoder before and after.
abbrev pub counted :
    SegmentedReceiverStats → SegmentDecoderStats → SegmentDecoderStats → SegmentedReceiverStats
counted c before after = record c {
  source_symbols_placed = c.source_symbols_placed + (after.source_placed - before.source_placed);
  repair_symbols_accepted =
      c.repair_symbols_accepted + (after.repair_accepted - before.repair_accepted);
  symbols_repaired =
      c.symbols_repaired + (after.repair_solved_symbols - before.repair_solved_symbols);
}

-- The entry of a segment after its decoder has taken a symbol.
unfoldable pub touch : SegmentedReceiver → ℕ → ActiveSegment → SegmentDecoder → SegmentedReceiver
touch r segment_index entry decoder = record r {
  touch_counter = r.touch_counter + 1;
  active =
      insert r.active segment_index
        (record { decoder = decoder; last_touched = r.touch_counter + 1 });
  counters = counted r.counters entry.decoder.counters decoder.counters;
}

-- What the receiver does with the answer of the decoder.
unfoldable pub settle :
    SegmentedReceiver
    → ℕ
    → SegmentDecoder
    → SegmentAcceptResult
    → V2Result (SegmentedReceiver × ReceiveAcceptResult)
unfolding commit
settle r segment_index decoder result =
    let nothing_new = is_duplicate result.status in
    let c = r.counters in
    let counted_frame = record r {
      counters =
          if nothing_new
          then record c { frames_duplicate = c.frames_duplicate + 1 }
          else record c { frames_accepted = c.frames_accepted + 1 };
    } in
    if is_rejected result.status
    then ok (
      record r { counters = record c { frames_rejected = c.frames_rejected + 1 } },
      record {
        status = ReceiveAcceptStatus.rejected;
        segment_index = some segment_index;
        solved = 0;
        segment_completed = false;
        session_complete = is_complete r;
        reason = elim result.reason [ none ↦ none | some reason ↦ some (symbol reason) ];
      },
    )
    else ((if result.complete then commit counted_frame segment_index decoder else ok counted_frame)
        >>= λ r. ok (
          r,
          record {
            status =
                if nothing_new then ReceiveAcceptStatus.duplicate else ReceiveAcceptStatus.accepted;
            segment_index = some segment_index;
            solved = result.solved;
            segment_completed = result.complete;
            session_complete = is_complete r;
            reason = none;
          },
        ))

-- A segment that was committed: one bit is tested.
abbrev pub already_committed : SegmentedReceiver → ℕ → SegmentedReceiver × ReceiveAcceptResult
already_committed r segment_index = (
  record r { counters = record r.counters { frames_duplicate = r.counters.frames_duplicate + 1 } },
  record {
    status = ReceiveAcceptStatus.segment_committed;
    segment_index = some segment_index;
    solved = 0;
    segment_completed = false;
    session_complete = is_complete r;
    reason = none;
  },
)

module _ (neighbors_for : ℕ → ℕ → List ℕ) where
  -- A frame of a segment that is live.
  unfoldable pub advance :
      SegmentedReceiver
      → DeqrV2DataFrame
      → ActiveSegment
      → V2Result (SegmentedReceiver × ReceiveAcceptResult)
  unfolding touch settle
  advance r frame entry =
      let (decoder, result) = accept neighbors_for entry.decoder frame.symbol_id frame.payload in
      settle (touch r frame.segment_index entry decoder) frame.segment_index decoder result

  -- A frame that belongs to the manifest.
  unfoldable pub accept_valid :
      SegmentedReceiver → DeqrV2DataFrame → V2Result (SegmentedReceiver × ReceiveAcceptResult)
  unfolding activate advance
  accept_valid r frame =
      if is_segment_committed r frame.segment_index
      then ok (already_committed r frame.segment_index)
      else (activate r frame.segment_index >>= λ (r, entry). advance r frame entry)

  unfoldable pub accept_frame :
      SegmentedReceiver → DeqrV2DataFrame → V2Result (SegmentedReceiver × ReceiveAcceptResult)
  unfolding accept_valid
  accept_frame r frame =
      if r.released
      then ok (refused r session_released none)
      else elim (validate_data_frame_against_manifest frame r.manifest r.plan) [
        | throws ↦ throws
        | rejects code ↦ rejects code
        | fail code ↦ ok (refused r (protocol code) (some frame.segment_index))
        | ok _ ↦ accept_valid r frame
      ]

  -- A manifest of this session is verified and otherwise ignored.
  unfoldable pub accept_manifest :
      SegmentedReceiver → DeqrV2Manifest → SegmentedReceiver × ReceiveAcceptResult
  accept_manifest r incoming =
      let r = record r {
        counters = record r.counters { manifest_frames = r.counters.manifest_frames + 1 };
      } in
      if not (incoming.session_id == r.manifest.session_id)
        || not (incoming.file_id == r.manifest.file_id)
      then refused r (protocol session_mismatch) none
      else (
        r,
        record {
          status = ReceiveAcceptStatus.manifest;
          segment_index = none;
          solved = 0;
          segment_completed = false;
          session_complete = is_complete r;
          reason = none;
        },
      )

  unfoldable pub accept_frame_bytes :
      SegmentedReceiver → List ℕ → V2Result (SegmentedReceiver × ReceiveAcceptResult)
  unfolding accept_frame accept_manifest
  accept_frame_bytes r bytes =
      if r.released then ok (refused r session_released none) else elim (parse_frame bytes) [
        | throws ↦ throws
        | rejects code ↦ rejects code
        | fail code ↦ ok (refused r (protocol code) none)
        | ok parsed ↦ elim parsed [
          | DeqrV2Frame.manifest incoming ↦ ok (accept_manifest r incoming)
          | data_frame frame ↦ accept_frame r frame
        ]
      ]

unfoldable pub release : SegmentedReceiver → SegmentedReceiver
release r = record r { active = []; released = true }
