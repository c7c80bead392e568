-- ===== src/Resume/Handover.antt =====
-- How a token gets from the receiver to the sender (mobile-web/src/receive-pipeline.ts and
-- src/main/streaming-sender.ts). The error of a DeqrError is its code.
use deqr.Common.{
  ℕ, ◌*◌, ◌≤◌, ◌<◌, ◌≡◌, refl, ◌∙◌, List, length, All, Option, none, some, true, false, not, ◌==◌,
  ==_refl, if◌then◌else◌,
}
use deqr.Protocol.Types.{DeqrV2Manifest}
use deqr.Protocol.Plan.{SegmentPlan}
use deqr.Fec.Decoder.{is_set}
use deqr.Session.Types.{SegmentedReceiver}
use deqr.Session.Setup.{first_missing_segment}
use deqr.Session.FirstMissing.{first_missing_segment_correct}
use deqr.Resume.Token.{ResumeTokenInput, ok, failed, resume_token_matches_digest}
use deqr.Resume.Token.Layout.{IsEncodable}
use deqr.Resume.Token.Digest.{resume_token_matches_digest_iff}
use deqr.Resume.Ranges.{MissingRange, missing_ranges_from_bitmap}
use deqr.Resume.Ranges.Bitmap.{missing_ranges_from_bitmap_correct}
use deqr.Resume.Targeted.{
  TargetedResumeToken, blob_of, encode_targeted_resume_token, decode_targeted_resume_token,
  resume_token_targets,
}
use deqr.Resume.Targeted.RoundTrip.{
  carried, decode_targeted_resume_token-encode_targeted_resume_token,
}
use deqr.Resume.Targeted.Complete.{Contains, sent_again}

abbrev pub token_input : DeqrV2Manifest → ℕ → ResumeTokenInput
token_input manifest resume_from_segment = record {
  session_id = manifest.session_id;
  file_id = manifest.file_id;
  segment_count = manifest.segment_count;
  resume_from_segment = resume_from_segment;
  sha256 = manifest.sha256;
}

-- The token that the phone shows; `none` where there is no session, or the encoder throws.
unfoldable pub resume_token : Option SegmentedReceiver → Option (List ℕ)
resume_token none = none
resume_token (some r) =
    encode_targeted_resume_token (token_input r.manifest (first_missing_segment r))
      (some (missing_ranges_from_bitmap r.committed_bits r.manifest.segment_count)) true

pub data ResumeError : Type 0 where
  resume_token_invalid : ResumeError
  resume_file_mismatch : ResumeError
  resume_plan_mismatch : ResumeError

pub data Applied : Type 0 where
  applied : TargetedResumeToken → Applied
  refused : ResumeError → Applied

-- What the desktop makes of the typed text.
unfoldable pub apply_resume : (List ℕ → List ℕ) → List ℕ → List ℕ → SegmentPlan → Applied
apply_resume upper_other text sha256 plan = elim (decode_targeted_resume_token upper_other text) [
  | failed code ↦ refused resume_token_invalid
  | ok token ↦
      if not (resume_token_matches_digest token.token sha256)
      then refused resume_file_mismatch
      else if not (token.token.segment_count == plan.segment_count)
      then refused resume_plan_mismatch
      else applied token
]

carried_token :
    (input : ResumeTokenInput) (ranges : List MissingRange) (blob : Option (List ℕ))
    → 5 ≤ length input.sha256
    → (resume_token_matches_digest (carried input ranges blob).token input.sha256 ≡ true)
      × ((carried input ranges blob).token.segment_count ≡ input.segment_count)
carried_token input ranges none h =
    ((resume_token_matches_digest_iff 1 input input.sha256 h h).1 refl, refl)
carried_token input ranges (some blob) h =
    ((resume_token_matches_digest_iff 2 input input.sha256 h h).1 refl, refl)

applies :
    (upper_other : List ℕ → List ℕ) (text sha256 : List ℕ) (plan : SegmentPlan)
    (token : TargetedResumeToken)
    → decode_targeted_resume_token upper_other text ≡ ok token
    → resume_token_matches_digest token.token sha256 ≡ true
    → token.token.segment_count ≡ plan.segment_count
    → apply_resume upper_other text sha256 plan ≡ applied token
unfolding apply_resume
applies upper_other text sha256 plan token decoded same count =
    rw (decoded, apply_resume) (rw (same, count, ==_refl plan.segment_count) refl)

-- A receiver has a bit for each segment, and its manifest and its place fit a token. The token that
-- it shows is taken by a sender that has the manifest's digest and as many segments in its plan, and
-- makes it send every segment that the receiver has not committed, and none outside the file.
pub handover :
    (upper_other : List ℕ → List ℕ) (r : SegmentedReceiver) (plan : SegmentPlan)
    → IsEncodable (token_input r.manifest (first_missing_segment r))
    → r.manifest.segment_count ≤ 8 * length r.committed_bits
    → r.manifest.segment_count ≡ plan.segment_count
    → (text : List ℕ) × (token : TargetedResumeToken) × ((resume_token (some r) ≡ some text)
        × ((apply_resume upper_other text r.manifest.sha256 plan ≡ applied token)
            × (All (λ i. i < r.manifest.segment_count) (resume_token_targets token)
                × ((i : ℕ)
                    → i < r.manifest.segment_count
                    → is_set r.committed_bits i ≡ false
                    → Contains i (resume_token_targets token)))))
unfolding resume_token
handover upper_other r plan given size same =
    let input = token_input r.manifest (first_missing_segment r) in
    let n = r.manifest.segment_count in
    let ranges = missing_ranges_from_bitmap r.committed_bits n in
    let token = carried input ranges (blob_of n (some ranges)) in
    let (text, (encoded, decoded)) =
      decode_targeted_resume_token-encode_targeted_resume_token upper_other input ranges true given
        (missing_ranges_from_bitmap_correct r.committed_bits n).1 in
    let (digest, count) = carried_token input ranges (blob_of n (some ranges)) given.digest in
    (
      text,
      token,
      (
        encoded,
        (
          applies upper_other text r.manifest.sha256 plan token decoded digest (count ∙ same),
          sent_again input r.committed_bits given (first_missing_segment_correct r size).1.0,
        ),
      ),
    )
