-- ===== src/Resume/Examples.antt =====
-- Tests of the resume token on concrete transfers (src/core/resume-token.ts).
use deqr.Common.{
  ℕ, zero, suc, ◌≤◌, ◌<◌, ◌≡◌, ◌↔◌, refl, arith, List, [], ◌∷◌, take, filter, All, true, false,
  none, some,
}
use deqr.Fec.Decoder.{is_set}
use deqr.Protocol.Types.{DeqrV2Manifest}
use deqr.Protocol.Plan.{SegmentPlan}
use deqr.Session.Types.{SegmentedReceiver}
use deqr.Session.Setup.{first_missing_segment, first_missing_from, missing_in_byte, clear_spare}
use deqr.Session.Start.{adopting}
use deqr.Resume.Handover.{token_input, resume_token, apply_resume, applied, handover}
use deqr.Protocol.Buffer.{write}
use deqr.Protocol.Crc.{crc32}
use deqr.Resume.Base32.{read_from, clean_text}
use deqr.Resume.Token.{
  ResumeTokenInput, length_code, ok, failed, encode_resume_token, check_token, read_u32, found_at,
  decode_resume_token, resume_token_matches_digest,
}
use deqr.Resume.Token.Layout.{IsEncodable, token_of}
use deqr.Resume.Token.RoundTrip.{decode_resume_token-encode_resume_token}
use deqr.Resume.Token.Digest.{resume_token_matches_digest_iff}
use deqr.Resume.Ranges.{
  describes_a_trailing_run, pack_ranges, pack_from, write_varint, MissingRange, range_targets,
  missing_ranges_from_bitmap,
}
use deqr.Resume.Ranges.Bitmap.{missing_from, Ordered, missing_ranges_from_bitmap_correct}
use deqr.Resume.Targeted.{
  TargetedResumeToken, blob_of, encode_targeted_resume_token, decode_targeted_resume_token,
  without_missing, resume_token_targets,
}
use deqr.Resume.Targeted.RoundTrip.{
  carried, decode_targeted_resume_token-encode_targeted_resume_token,
}
use deqr.Resume.Targeted.Complete.{Contains, nothing_skipped, only_the_missing}
use deqr.Resume.Targeted.Safety.{accepted_token_bounded}

abbrev digest : List ℕ
digest = 1 ∷ 2 ∷ 3 ∷ 4 ∷ 5 ∷ 6 ∷ []

-- Ten segments, of which 1 and 8 are missing.
abbrev input : ResumeTokenInput
input = record {
  session_id = 0xdead_beef;
  file_id = 7;
  segment_count = 10;
  resume_from_segment = 1;
  sha256 = digest;
}

abbrev bits : List ℕ
bits = 0xfd ∷ 2 ∷ []

abbrev gaps : List MissingRange
gaps = record { start = 1; length = 1 } ∷ record { start = 8; length = 1 } ∷ []

abbrev same_text : List ℕ → List ℕ
same_text text = text

gaps_of_bits : missing_ranges_from_bitmap bits 10 ≡ gaps
unfolding missing_ranges_from_bitmap
gaps_of_bits = refl

input-IsEncodable : IsEncodable input
input-IsEncodable = record {
  session = omega arith;
  file = omega arith;
  count = omega arith;
  some_segments = omega arith;
  within = omega arith;
  bytes =
      (omega arith, (omega arith, (omega arith, (omega arith, (omega arith, (omega arith, tt))))));
  digest = omega arith;
}

gaps-Ordered : Ordered 10 0 gaps
gaps-Ordered =
    (omega arith, (omega arith, (omega arith, (omega arith, (omega arith, (omega arith, tt))))))

before_first : (i : ℕ) → i < 1 → is_set bits i ≡ true
unfolding is_set
before_first zero h = refl
before_first (suc i) h = absurd (omega arith)

missing_ranges_from_bitmap_correct_example :
    (range_targets (missing_ranges_from_bitmap bits 10) ≡ missing_from bits 10 0)
    × Ordered 10 0 (missing_ranges_from_bitmap bits 10)
missing_ranges_from_bitmap_correct_example = missing_ranges_from_bitmap_correct bits 10

token_comes_back :
    (text : List ℕ) × ((encode_resume_token input true ≡ some text)
      × (decode_resume_token same_text text ≡ ok (token_of 1 input)))
token_comes_back = decode_resume_token-encode_resume_token same_text input true input-IsEncodable

decode_targeted_resume_token-encode_targeted_resume_token_example :
    (text : List ℕ) × ((encode_targeted_resume_token input (some gaps) true ≡ some text)
      × (decode_targeted_resume_token same_text text
          ≡ ok (carried input gaps (blob_of 10 (some gaps)))))
decode_targeted_resume_token-encode_targeted_resume_token_example =
    decode_targeted_resume_token-encode_targeted_resume_token same_text input gaps true
      input-IsEncodable gaps-Ordered

nothing_is_skipped :
    (text : List ℕ) × (token : TargetedResumeToken) × ((encode_targeted_resume_token input
          (some (missing_ranges_from_bitmap bits 10))
          true
        ≡ some text)
      × ((decode_targeted_resume_token same_text text ≡ ok token)
          × (All (λ i. i < 10) (resume_token_targets token)
              × ((i : ℕ)
                  → i < 10
                  → is_set bits i ≡ false
                  → Contains i (resume_token_targets token)))))
nothing_is_skipped = nothing_skipped same_text input bits true input-IsEncodable before_first

blob_of-bits : blob_of 10 (some (missing_ranges_from_bitmap bits 10)) ≡ some (1 ∷ 0 ∷ 6 ∷ 0 ∷ [])
unfolding blob_of missing_ranges_from_bitmap describes_a_trailing_run pack_ranges pack_from
    write_varint
blob_of-bits = refl

gaps_sent_again :
    resume_token_targets
      (carried input (missing_ranges_from_bitmap bits 10) (some (1 ∷ 0 ∷ 6 ∷ 0 ∷ [])))
    ≡ missing_from bits 10 0
gaps_sent_again = only_the_missing input bits blob_of-bits

resume_token_matches_digest_iff_example :
    (resume_token_matches_digest (token_of 1 input) digest ≡ true) ↔ (take 5 digest ≡ take 5 digest)
resume_token_matches_digest_iff_example =
    resume_token_matches_digest_iff 1 input digest (omega arith) (omega arith)

-- The token of the transfer, typed in small letters and without the hyphens.
abbrev typed : List ℕ
typed =
    b'0' ∷ b'7' ∷ b'f' ∷ b'a' ∷ b'v' ∷ b'f' ∷ b'q' ∷ b'f' ∷ b'0' ∷ b'0' ∷ b'0' ∷ b'0' ∷ b'0' ∷ b'1'
    ∷ b'r' ∷ b'0' ∷ b'0' ∷ b'0' ∷ b'0' ∷ b'0' ∷ b'm' ∷ b'0' ∷ b'0' ∷ b'0' ∷ b'0' ∷ b'0' ∷ b'0'
    ∷ b'g' ∷ b'2' ∷ b'0' ∷ b'g' ∷ b'3' ∷ b'0' ∷ b'g' ∷ b'2' ∷ b'w' ∷ b'q' ∷ b'0' ∷ b'w' ∷ b'0' ∷ []

typed_decoded :
    decode_targeted_resume_token same_text typed
    ≡ ok record { token = token_of 1 input; missing = none }
unfolding decode_targeted_resume_token without_missing decode_resume_token clean_text read_from
    check_token write read_u32 found_at crc32 filter
typed_decoded = refl

accepted_token_bounded_example :
    (1 ≤ 10)
    × ((1 ≤ 10)
        × All
            (λ i. i < 10)
            (resume_token_targets record { token = token_of 1 input; missing = none }))
accepted_token_bounded_example =
    accepted_token_bounded same_text typed record { token = token_of 1 input; missing = none }
      typed_decoded

-- A character too few.
cut_off : decode_resume_token same_text (take 39 typed) ≡ failed length_code
unfolding decode_resume_token clean_text filter
cut_off = refl

-- A receiver of this transfer that has the segments of the bitmap from an earlier run.
abbrev manifest : DeqrV2Manifest
manifest = record {
  feature_flags = 0;
  session_id = 0xdead_beef;
  file_id = 7;
  original_size = 655360;
  transport_size = 655360;
  segment_size_bytes = 65536;
  symbol_size_bytes = 512;
  segment_count = 10;
  fec_profile_id = 1;
  compression_mode = 0;
  compression_param = 0;
  transport_profile_id = 0;
  sha256 = digest;
  filename = 97 ∷ [];
  mime_type = [];
}

abbrev plan : SegmentPlan
plan = record {
  transport_size = 655360;
  segment_size_bytes = 65536;
  symbol_size_bytes = 512;
  segment_count = 10;
  symbols_per_full_segment = 128;
  last_segment_bytes = 65536;
  symbols_in_last_segment = 128;
}

abbrev receiver : SegmentedReceiver
receiver =
    adopting manifest plan 2
      record {
        max_pending_equations = none;
        max_pending_neighbor_refs = none;
        max_tracked_repair_ids = none;
      }
      bits

receiver-IsEncodable : IsEncodable (token_input manifest (first_missing_segment receiver))
unfolding first_missing_segment first_missing_from missing_in_byte clear_spare
receiver-IsEncodable = record {
  session = omega arith;
  file = omega arith;
  count = omega arith;
  some_segments = omega arith;
  within = omega arith;
  bytes =
      (omega arith, (omega arith, (omega arith, (omega arith, (omega arith, (omega arith, tt))))));
  digest = omega arith;
}

handover_example :
    (text : List ℕ) × (token : TargetedResumeToken) × ((resume_token (some receiver) ≡ some text)
      × ((apply_resume same_text text digest plan ≡ applied token)
          × (All (λ i. i < 10) (resume_token_targets token)
              × ((i : ℕ)
                  → i < 10
                  → is_set receiver.committed_bits i ≡ false
                  → Contains i (resume_token_targets token)))))
unfolding clear_spare
handover_example = handover same_text receiver plan receiver-IsEncodable (omega arith) refl
