-- ===== src/Resume/Targeted.antt =====
-- The token of 40 bytes that names the missing segments (src/core/resume-token.ts).
pub mod Layout
pub mod RoundTrip
pub mod Complete
pub mod Safety
use deqr.Common.{ℕ, zero, suc, ◌+◌, ◌-◌, ◌%◌, ◌^◌, List, [], ◌∷◌, ◌++◌, length, get_or, take}
use deqr.Common.{Option, none, some, Bool, true, false, not, ◌||◌, ltb, leb, ◌==◌, if◌then◌else◌}
use deqr.Protocol.Buffer.{zeros, write, slice}
use deqr.Protocol.Crc.{crc32}
use deqr.Resume.Base32.{to_base32, read_from, clean_text, grouped_text}
use deqr.Resume.Token.{
  ResumeToken, ResumeTokenErrorCode, charset_code, checksum_code, version_code, range_code,
  length_code, ResumeTokenResult, ok, failed, ResumeTokenInput, read_u32, check_bytes, found_at,
  encode_resume_token_bytes, encode_resume_token, decode_resume_token,
}
use deqr.Resume.Ranges.{
  MissingRange, indices, range_targets, pack_ranges, unpack_ranges, describes_a_trailing_run,
  resume_range_blob_bytes,
}

-- A token, and the gaps when it carried them.
pub record TargetedResumeToken : Type 0 where
  pub token : ResumeToken
  pub missing : Option (List MissingRange)

-- The 40 bytes, given those of the first version and the blob.
unfoldable pub targeted_bytes : List ℕ → List ℕ → List ℕ
targeted_bytes header blob =
    let bytes = write (zeros 40) 0 (take 22 header) in
    let bytes = write bytes 0 (2 ∷ []) in
    let bytes = write bytes 22 (length blob % 256 ∷ []) in
    let bytes = write bytes 23 blob in write bytes 37 (check_bytes (crc32 bytes 0 37))

-- The blob of a token of the second version; `none` for the first version.
unfoldable pub blob_of : ℕ → Option (List MissingRange) → Option (List ℕ)
blob_of segment_count none = none
blob_of segment_count (some missing) =
    if describes_a_trailing_run missing segment_count then none else pack_ranges missing

unfoldable pub encode_targeted_resume_token :
    ResumeTokenInput → Option (List MissingRange) → Bool → Option (List ℕ)
encode_targeted_resume_token input missing grouped = elim (blob_of input.segment_count missing) [
  | none ↦ encode_resume_token input grouped
  | some blob ↦ elim (encode_resume_token_bytes input) [
    | none ↦ none
    | some header ↦ some (grouped_text grouped (to_base32 (targeted_bytes header blob)))
  ]
]

-- What the reader does with the 40 bytes.
unfoldable pub check_targeted_token : List ℕ → ResumeTokenResult TargetedResumeToken
check_targeted_token bytes =
    let segment_count = read_u32 bytes 9 in
    let resume_from_segment = read_u32 bytes 13 in
    let blob_bytes = get_or bytes 22 0 in
    if not (found_at bytes 37 == crc32 bytes 0 37 % 2 ^ 24)
    then failed checksum_code
    else if not (get_or bytes 0 0 == 2)
    then failed version_code
    else if ltb segment_count 1 || ltb segment_count resume_from_segment
    then failed range_code
    else if ltb resume_range_blob_bytes blob_bytes
    then failed range_code
    else elim (unpack_ranges (slice bytes 23 (23 + blob_bytes)) segment_count) [
      | none ↦ failed range_code
      | some missing ↦ ok record {
        token = record {
          version = get_or bytes 0 0;
          session_id = read_u32 bytes 1;
          file_id = read_u32 bytes 5;
          segment_count = segment_count;
          resume_from_segment = resume_from_segment;
          digest_prefix = slice bytes 17 22;
        };
        missing = some missing;
      }
    ]

-- A token of the first version as one that has no gaps.
unfoldable pub without_missing :
    ResumeTokenResult ResumeToken → ResumeTokenResult TargetedResumeToken
without_missing (ok token) = ok record { token = token; missing = none }
without_missing (failed code) = failed code

module _ (upper_other : List ℕ → List ℕ) where
  unfoldable pub decode_targeted_resume_token : List ℕ → ResumeTokenResult TargetedResumeToken
  decode_targeted_resume_token text =
      let clean = clean_text upper_other text in
      if length clean == 40
      then without_missing (decode_resume_token upper_other text)
      else if not (length clean == 64)
      then failed length_code
      else elim (read_from 0 0 clean) [
        | none ↦ failed charset_code
        | some bytes ↦ check_targeted_token (write (zeros 40) 0 bytes)
      ]

unfoldable pub resume_token_targets : TargetedResumeToken → List ℕ
resume_token_targets t = elim t.missing [
  | none ↦ indices (t.token.segment_count - t.token.resume_from_segment) t.token.resume_from_segment
  | some missing ↦
      if length missing == 0
      then indices (t.token.segment_count - t.token.resume_from_segment) t.token.resume_from_segment
      else range_targets missing
]
