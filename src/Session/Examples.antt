-- ===== src/Session/Examples.antt =====
-- A stream of 33 bytes in one segment of two symbols (src/core/segmented-receiver.ts).
use deqr.Common.{
  ℕ, ◌+◌, ◌/◌, ◌≤◌, ◌<◌, ◌≡◌, refl, arith, List, [], ◌∷◌, ◌++◌, length, replicate, some, none, Bool,
  true, false, ltb, ◌==◌, ◌&&◌,
}
use deqr.Protocol.Types.{DeqrV2Manifest, DeqrV2DataFrame, V2Result, ok}
use deqr.Protocol.Plan.{
  SegmentPlan, segment_plan_from_manifest, plan_segmentation, segment_byte_range,
  source_symbol_count_for_segment,
}
use deqr.Protocol.Plan.Shape.{IsPlan, plan_segmentation-IsPlan}
use deqr.Protocol.Buffer.{zeros}
use deqr.Fec.Equations.Laws.{count}
use deqr.Fec.Decoder.{is_set, set_bit}
use deqr.Fec.Decoder.Accept.{new_decoder, accept, detach}
use deqr.Fec.Equations.{lookup, insert, delete}
use deqr.Fec.Decoder.Bitmap.{tally}
use deqr.Session.Types.{SegmentedReceiver, PartialLimits, is_complete}
use deqr.Session.FirstMissing.{first_missing_segment_correct}
use deqr.Session.Setup.{
  clear_spare, first_missing_segment, empty_receiver, new_receiver, merged_limits,
  is_segment_committed,
}
use deqr.Session.Geometry.{symbols_of}
use deqr.Session.Valid.{indices}
use deqr.Session.Start.{adopting, adopted_progress}
use deqr.Session.Frames.{encoded_symbol}
use deqr.Protocol.Buffer.{write}
use deqr.Protocol.Frame.{validate_data_frame_against_manifest}
use deqr.Fec.Encoder.{new_encoder, load_segment, symbol_into}
use deqr.Fec.Symbols.{xor_into}
use deqr.Fec.Decoder.Bitmap.{is_set-replicate}
use deqr.Session.Reassembly.{written}
use deqr.Session.Delivery.{AreHonest, receive, received}

abbrev first_payload : List ℕ
first_payload = 1 ∷ replicate 31 2

abbrev stream : List ℕ
stream = first_payload ++ (3 ∷ [])

abbrev manifest : DeqrV2Manifest
manifest = record {
  feature_flags = 0;
  session_id = 7;
  file_id = 9;
  original_size = 33;
  transport_size = 33;
  segment_size_bytes = 65536;
  symbol_size_bytes = 32;
  segment_count = 1;
  fec_profile_id = 0;
  compression_mode = 0;
  compression_param = 0;
  transport_profile_id = 0;
  sha256 = zeros 32;
  filename = 97 ∷ [];
  mime_type = [];
}

abbrev plan_of : SegmentPlan
plan_of = record {
  transport_size = 33;
  segment_size_bytes = 65536;
  symbol_size_bytes = 32;
  segment_count = 1;
  symbols_per_full_segment = 2048;
  last_segment_bytes = 33;
  symbols_in_last_segment = 2;
}

planned : segment_plan_from_manifest manifest ≡ ok plan_of
unfolding segment_plan_from_manifest plan_segmentation
planned = refl

plan_of-IsPlan : IsPlan plan_of
plan_of-IsPlan =
    let h : plan_segmentation 33 65536 32 ≡ ok plan_of =
      unfold segment_plan_from_manifest in planned in
    (plan_segmentation-IsPlan 33 65536 32 h).0

abbrev frame : ℕ → List ℕ → DeqrV2DataFrame
frame id payload = record {
  frame_type = 1;
  session_id = 7;
  file_id = 9;
  segment_index = 0;
  symbol_id = id;
  source_symbol_count = 2;
  frame_flags = 0;
  payload = payload;
}

-- Symbol 0, the repair symbol 2, and a frame of another session.
abbrev frames : List DeqrV2DataFrame
frames =
    frame 0 first_payload
    ∷ (record (frame 1 (zeros 32)) { session_id = 8 })
    ∷ frame 2 (2 ∷ replicate 31 2)
    ∷ []

abbrev rule : ℕ → ℕ → List ℕ
rule id k = 0 ∷ 1 ∷ []

rule-distinct : (id k n : ℕ) → count (rule id k) n ≤ 1
unfolding count
rule-distinct id k n = ground arith

abbrev no_limits : PartialLimits
no_limits = record {
  max_pending_equations = none;
  max_pending_neighbor_refs = none;
  max_tracked_repair_ids = none;
}

abbrev start : SegmentedReceiver
start = empty_receiver manifest plan_of 2 no_limits

made : new_receiver manifest 1000 2 no_limits none ≡ ok start
unfolding new_receiver segment_plan_from_manifest plan_segmentation
made = refl

distinct :
    (i id n : ℕ) → i < 1 → count (rule id (symbols_of plan_of plan_of-IsPlan stream refl i)) n ≤ 1
distinct i id n lt = rule-distinct id (symbols_of plan_of plan_of-IsPlan stream refl i) n

encodes :
    (encoded_symbol manifest plan_of plan_of-IsPlan stream refl [] 2 rule distinct 0 0
      ≡ some first_payload)
    × (encoded_symbol manifest plan_of plan_of-IsPlan stream refl [] 2 rule distinct 0 2
        ≡ some (2 ∷ replicate 31 2))
unfolding new_encoder load_segment symbol_into write xor_into
encodes = (refl, refl)

other_session :
    validate_data_frame_against_manifest
        (record (frame 1 (zeros 32)) { session_id = 8 })
        manifest
        plan_of
      ≡ ok tt
    → ⊥
unfolding validate_data_frame_against_manifest
other_session h = cc

frames-AreHonest :
    AreHonest manifest plan_of plan_of-IsPlan stream refl rule distinct refl refl [] 2 frames
frames-AreHonest = (λ h. encodes.0, ((λ h. absurd (other_session h)), ((λ h. encodes.1), tt)))

received_example :
    (r' : SegmentedReceiver) × (receive rule start frames ≡ ok r')
    × (length r'.active ≤ 2)
    × (r'.committed_count ≡ r'.adopted_count + length r'.completed)
    × ((i : ℕ) → count (indices r'.completed) i ≤ 1)
    × (is_complete r' ≡ true → written (zeros 33) r'.completed ≡ stream)
received_example =
    received manifest plan_of plan_of-IsPlan stream refl rule distinct refl refl [] 2 1000 no_limits
      none frames (zeros 33) planned (omega arith) refl tt made frames-AreHonest refl
      (λ k lt h. absurd (unset k h))
  where
    unset : (k : ℕ) → is_set [] (k / 65536) ≡ true → ⊥
    unset k h = let e = is_set-replicate 0 (k / 65536) in cc

-- The frames complete the transfer.
abbrev is_done : V2Result SegmentedReceiver → Bool
is_done V2Result.throws = false
is_done (V2Result.fail code) = false
is_done (V2Result.rejects code) = false
is_done (ok r) = is_complete r && (length r.completed == 1) && (length r.active == 0)

transfer_done : is_done (receive rule start frames) ≡ true
unfolding receive validate_data_frame_against_manifest source_symbol_count_for_segment
    is_segment_committed is_set lookup segment_byte_range new_decoder accept insert merged_limits
    set_bit detach delete
transfer_done = refl

-- A bitmap whose spare bits are set.
adopt_made :
    new_receiver manifest 1000 2 no_limits (some (0xff ∷ []))
    ≡ ok (adopting manifest plan_of 2 no_limits (0xff ∷ []))
unfolding new_receiver segment_plan_from_manifest plan_segmentation tally is_set
adopt_made = refl

adopted_progress_example :
    let r = adopting manifest plan_of 2 no_limits (0xff ∷ []) in
    (r.committed_count ≡ tally (0xff ∷ []) 1)
    × (r.committed_count ≤ 1)
    × ((i : ℕ) → is_segment_committed r i ≡ (ltb i 1 && is_set (0xff ∷ []) i))
adopted_progress_example =
    adopted_progress manifest plan_of 2 no_limits 1000 (0xff ∷ []) (omega arith, tt) planned
      adopt_made

first_missing_segment_correct_example :
    let r = adopting manifest plan_of 2 no_limits (0xff ∷ []) in
    (first_missing_segment r ≤ 1)
    × (((i : ℕ) → i < first_missing_segment r → is_set r.committed_bits i ≡ true)
        × (first_missing_segment r < 1 → is_set r.committed_bits (first_missing_segment r) ≡ false))
unfolding clear_spare
first_missing_segment_correct_example =
    first_missing_segment_correct (adopting manifest plan_of 2 no_limits (0xff ∷ [])) (omega arith)
