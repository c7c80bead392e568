-- ===== src/Resume/Token.antt =====
-- The token of 25 bytes that names the place where a transfer goes on (src/core/resume-token.ts).
pub mod Layout
pub mod RoundTrip
pub mod Digest
use deqr.Common.{
  ℕ, zero, suc, ◌+◌, ◌-◌, ◌*◌, ◌/◌, ◌%◌, ◌^◌, List, [], ◌∷◌, ◌++◌, length, get_or, take, drop,
}
use deqr.Common.{
  Option, none, some, Bool, true, false, not, ◌&&◌, ◌||◌, ltb, leb, ◌==◌, if◌then◌else◌,
}
use deqr.Protocol.Buffer.{zeros, write, be32, slice}
use deqr.Protocol.Crc.{crc32}
use deqr.Resume.Base32.{to_base32, read_from, clean_text, grouped_text}

pub record ResumeToken : Type 0 where
  pub version : ℕ
  pub session_id : ℕ
  pub file_id : ℕ
  pub segment_count : ℕ
  pub resume_from_segment : ℕ
  pub digest_prefix : List ℕ

pub data ResumeTokenErrorCode : Type 0 where
  length_code : ResumeTokenErrorCode
  charset_code : ResumeTokenErrorCode
  checksum_code : ResumeTokenErrorCode
  version_code : ResumeTokenErrorCode
  range_code : ResumeTokenErrorCode

pub data ResumeTokenResult {ℓ} (A : Type ℓ) : Type ℓ where
  ok : A → ResumeTokenResult A
  failed : ResumeTokenErrorCode → ResumeTokenResult A

pub record ResumeTokenInput : Type 0 where
  pub session_id : ℕ
  pub file_id : ℕ
  pub segment_count : ℕ
  pub resume_from_segment : ℕ
  pub sha256 : List ℕ

abbrev is_u32 : ℕ → Bool
is_u32 value = leb value 0xffff_ffff

unfoldable pub write_u32 : List ℕ → ℕ → ℕ → List ℕ
unfolding write
write_u32 into at value = write into at (be32 value)

unfoldable pub read_u32 : List ℕ → ℕ → ℕ
read_u32 from at =
    get_or from at 0 * 2 ^ 24
    + get_or from (at + 1) 0 * 2 ^ 16
    + get_or from (at + 2) 0 * 2 ^ 8
    + get_or from (at + 3) 0

-- The 24 bits of a checksum that a token carries, and where they stand.
abbrev pub check_bytes : ℕ → List ℕ
check_bytes checksum = (checksum / 2 ^ 16 % 256) ∷ (checksum / 2 ^ 8 % 256) ∷ (checksum % 256) ∷ []

unfoldable pub found_at : List ℕ → ℕ → ℕ
found_at bytes at =
    get_or bytes at 0 * 2 ^ 16 + get_or bytes (at + 1) 0 * 2 ^ 8 + get_or bytes (at + 2) 0

-- `none` is a RangeError.
unfoldable pub encode_resume_token_bytes : ResumeTokenInput → Option (List ℕ)
unfolding write_u32 write
encode_resume_token_bytes input =
    if not (is_u32 input.session_id) || not (is_u32 input.file_id)
    then none
    else if not (is_u32 input.segment_count) || ltb input.segment_count 1
    then none
    else if not (is_u32 input.resume_from_segment)
        || ltb input.segment_count input.resume_from_segment
    then none
    else if ltb (length input.sha256) 5
    then none
    else some (
        let bytes = write (zeros 25) 0 (1 ∷ []) in
        let bytes = write_u32 bytes 1 input.session_id in
        let bytes = write_u32 bytes 5 input.file_id in
        let bytes = write_u32 bytes 9 input.segment_count in
        let bytes = write_u32 bytes 13 input.resume_from_segment in
        let bytes = write bytes 17 (take 5 input.sha256) in
        write bytes 22 (check_bytes (crc32 bytes 0 22)))

unfoldable pub encode_resume_token : ResumeTokenInput → Bool → Option (List ℕ)
unfolding encode_resume_token_bytes to_base32 grouped_text
encode_resume_token input grouped = elim (encode_resume_token_bytes input) [
  | none ↦ none
  | some bytes ↦ some (grouped_text grouped (to_base32 bytes))
]

-- What the reader does with the 25 bytes.
unfoldable pub check_token : List ℕ → ResumeTokenResult ResumeToken
check_token bytes =
    let segment_count = read_u32 bytes 9 in
    let resume_from_segment = read_u32 bytes 13 in
    if not (found_at bytes 22 == crc32 bytes 0 22 % 2 ^ 24)
    then failed checksum_code
    else if not (get_or bytes 0 0 == 1)
    then failed version_code
    else if ltb segment_count 1 || ltb segment_count resume_from_segment
    then failed range_code
    else ok record {
      version = get_or bytes 0 0;
      session_id = read_u32 bytes 1;
      file_id = read_u32 bytes 5;
      segment_count = segment_count;
      resume_from_segment = resume_from_segment;
      digest_prefix = slice bytes 17 22;
    }

module _ (upper_other : List ℕ → List ℕ) where
  unfoldable pub decode_resume_token : List ℕ → ResumeTokenResult ResumeToken
  decode_resume_token text =
      let clean = clean_text upper_other text in
      if not (length clean == 40) then failed length_code else (elim (read_from 0 0 clean) [
        | none ↦ failed charset_code
        | some bytes ↦ check_token (write (zeros 25) 0 bytes)
      ])

-- The loop of resumeTokenMatchesDigest over the first five bytes.
unfoldable pub matches : ℕ → List ℕ → List ℕ → Bool
matches zero prefix sha256 = true
matches (suc n) prefix sha256 = get_or prefix n 0 == get_or sha256 n 0 && matches n prefix sha256

unfoldable pub resume_token_matches_digest : ResumeToken → List ℕ → Bool
resume_token_matches_digest token sha256 =
    if ltb (length sha256) 5 then false else matches 5 token.digest_prefix sha256
