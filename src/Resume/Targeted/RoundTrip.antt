-- ===== src/Resume/Targeted/RoundTrip.antt =====
-- A token with gaps is read back as what was put in (src/core/resume-token.ts).
use deqr.Common.{append_assoc}
use deqr.Common.{
  ℕ, ◌+◌, ◌-◌, ◌%◌, ◌^◌, ◌≤◌, ◌<◌, ◌≡◌, refl, sym, ap, ◌∙◌, arith, List, [], ◌∷◌, ◌++◌, length,
  get_or, take, drop, All-append, All-replicate, length-append, take-drop-field,
}
use deqr.Common.{Option-cases, Bool-cases, inl, inr, Option, none, some, Bool, le→ltb, ==_refl}
use mathlib.Core.Path.{subst}
use mathlib.Core.Option.{none-ne-some}
use deqr.Protocol.Buffer.{zeros, slice}
use deqr.Protocol.Buffer.Laws.{IsBytes}
use deqr.Protocol.Crc.{crc32}
use deqr.Protocol.Crc.Bounds.{checksum, crc32-append}
use deqr.Resume.Base32.{to_base32, read_from, clean_text, grouped_text}
use deqr.Resume.Token.{
  ResumeToken, ok, ResumeTokenInput, found_at, encode_resume_token, decode_resume_token,
}
use deqr.Resume.Token.Layout.{
  IsEncodable, head, token_of, tail3, token, Holds, head-Holds, length-head, head-IsBytes,
  tail3-IsBytes, encode_resume_token_bytes-eq, get_or-append, found_at-tail3,
}
use deqr.Resume.Token.RoundTrip.{fill, read_text, token_text}
use deqr.Resume.Ranges.{
  describes_a_trailing_run, MissingRange, pack_ranges, unpack_ranges, resume_range_blob_bytes,
}
use deqr.Resume.Ranges.Bitmap.{Ordered}
use deqr.Resume.Ranges.Packed.{unpack_ranges-pack_ranges}
use deqr.Resume.Targeted.{
  TargetedResumeToken, blob_of, encode_targeted_resume_token, check_targeted_token, without_missing,
  decode_targeted_resume_token,
}
use deqr.Resume.Targeted.Layout.{body, length-body, targeted_bytes-eq}

-- The token with its gaps.
abbrev pub with_gaps : ResumeTokenInput → List MissingRange → TargetedResumeToken
with_gaps input ranges = record { token = token_of 2 input; missing = some ranges }

-- What the checks of the reader come to.
check_passes :
    (bytes : List ℕ) (input : ResumeTokenInput) (sum : ℕ) (blob : List ℕ)
    (ranges : List MissingRange)
    → IsEncodable input
    → Holds bytes input
    → get_or bytes 0 0 ≡ 2
    → get_or bytes 22 0 ≡ length blob
    → length blob ≤ resume_range_blob_bytes
    → slice bytes 23 (23 + length blob) ≡ blob
    → unpack_ranges blob input.segment_count ≡ some ranges
    → found_at bytes 37 ≡ sum % 2 ^ 24
    → crc32 bytes 0 37 ≡ sum
    → check_targeted_token bytes ≡ ok (with_gaps input ranges)
unfolding check_targeted_token
check_passes bytes input sum blob ranges given fields first size fits piece gaps found made =
    rw
      (
        found,
        made,
        first,
        fields.count,
        fields.resume,
        ==_refl (sum % 2 ^ 24),
        le→ltb _ _ given.some_segments,
        le→ltb _ _ given.within,
        size,
        le→ltb _ _ fits,
        unpacked,
      )
      (rw (first, fields.count, fields.resume, fields.session, fields.file, fields.prefix) refl)
  where
    unpacked : unpack_ranges (slice bytes 23 (23 + length blob)) input.segment_count ≡ some ranges
    unpacked = ap (λ t. unpack_ranges t input.segment_count) piece ∙ gaps

regrouped :
    (h b z t : List ℕ) (k : ℕ) → h ++ ((k ∷ (b ++ z)) ++ t) ≡ ((h ++ (k ∷ [])) ++ b) ++ (z ++ t)
regrouped h b z t k =
    ap (λ s. h ++ (k ∷ s)) (append_assoc b z t)
    ∙ sym (append_assoc (h ++ (k ∷ [])) b (z ++ t) ∙ append_assoc h (k ∷ []) (b ++ (z ++ t)))

middle :
    (h b z : List ℕ) (k : ℕ)
    → length h ≡ 22
    → slice (((h ++ (k ∷ [])) ++ b) ++ z) 23 (23 + length b) ≡ b
middle h b z k size =
    ap (λ n. take n (drop 23 (((h ++ (k ∷ [])) ++ b) ++ z))) (omega arith)
    ∙ take-drop-field (length b) 23 (h ++ (k ∷ [])) b z
        (omega (arith, size, length-append h (k ∷ []))) refl

check_body :
    (input : ResumeTokenInput) (blob : List ℕ) (ranges : List MissingRange)
    → IsEncodable input
    → length blob ≤ resume_range_blob_bytes
    → unpack_ranges blob input.segment_count ≡ some ranges
    → check_targeted_token (body input blob ++ tail3 (body input blob))
      ≡ ok (with_gaps input ranges)
unfolding body
check_body input blob ranges given fits gaps =
    let all = body input blob ++ tail3 (body input blob) in
    let size = length-body input blob given fits in
    let rest = (length blob ∷ (blob ++ zeros (14 - length blob))) ++ tail3 (body input blob) in
    let apart : all ≡ head 2 input ++ rest =
      append_assoc (head 2 input) (length blob ∷ (blob ++ zeros (14 - length blob)))
        (tail3 (body input blob)) in
    let sum = checksum (body input blob) in
    let sized : get_or all 22 0 ≡ length blob =
      ap (λ t. get_or t 22 0) apart
      ∙ get_or-append (head 2 input) rest 22 0 (omega (arith, length-head 2 input given)) in
    let piece : slice all 23 (23 + length blob) ≡ blob =
      ap (λ t. slice t 23 (23 + length blob))
        (apart
          ∙ regrouped (head 2 input) blob (zeros (14 - length blob)) (tail3 (body input blob))
              (length blob))
      ∙ middle (head 2 input) blob (zeros (14 - length blob) ++ tail3 (body input blob))
          (length blob) (length-head 2 input given) in
    check_passes all input sum blob ranges given
      (subst (λ t. Holds t input) (sym apart) (head-Holds 2 input rest given))
      (ap (λ t. get_or t 0 0) apart) sized fits piece gaps
      (subst (λ n. found_at all n ≡ sum % 2 ^ 24) size (found_at-tail3 (body input blob)))
      (subst (λ n. crc32 all 0 n ≡ sum) size
        (crc32-append (body input blob) (tail3 (body input blob))))

body-IsBytes :
    (input : ResumeTokenInput) (blob : List ℕ)
    → IsEncodable input
    → length blob ≤ 14
    → IsBytes blob
    → IsBytes (body input blob)
unfolding body
body-IsBytes input blob given fits small =
    All-append (λ b. b < 256) (head 2 input) (length blob ∷ (blob ++ zeros (14 - length blob)))
      (head-IsBytes 2 input (omega arith) given)
      (
        omega arith,
        All-append (λ b. b < 256) blob (zeros (14 - length blob)) small
            (All-replicate (λ b. b < 256) (14 - length blob) 0 (omega arith)),
      )

sealed : ResumeTokenInput → List ℕ → List ℕ
sealed input blob = body input blob ++ tail3 (body input blob)

-- The 40 bytes.
sealed-IsBytes :
    (input : ResumeTokenInput) (blob : List ℕ)
    → IsEncodable input
    → length blob ≤ 14
    → IsBytes blob
    → (length (sealed input blob) ≡ 40) × IsBytes (sealed input blob)
unfolding sealed
sealed-IsBytes input blob given fits small = (
  omega (
    arith,
    length-append (body input blob) (tail3 (body input blob)),
    length-body input blob given fits,
  ),
  All-append (λ b. b < 256) (body input blob) (tail3 (body input blob))
      (body-IsBytes input blob given fits small) (tail3-IsBytes (body input blob)),
)

encode_gaps :
    (input : ResumeTokenInput) (missing : Option (List MissingRange)) (grouped : Bool)
    (blob : List ℕ)
    → IsEncodable input
    → length blob ≤ 14
    → blob_of input.segment_count missing ≡ some blob
    → encode_targeted_resume_token input missing grouped
      ≡ some (grouped_text grouped (to_base32 (sealed input blob)))
unfolding encode_targeted_resume_token sealed
encode_gaps input missing grouped blob given fits gaps =
    rw (gaps, encode_targeted_resume_token)
      (rw (encode_resume_token_bytes-eq input given) (
        ap (λ t. some (grouped_text grouped (to_base32 t)))
          (targeted_bytes-eq input blob given fits)))

encode_plain :
    (input : ResumeTokenInput) (missing : Option (List MissingRange)) (grouped : Bool)
    → blob_of input.segment_count missing ≡ none
    → encode_targeted_resume_token input missing grouped ≡ encode_resume_token input grouped
unfolding encode_targeted_resume_token
encode_plain input missing grouped gaps = rw (gaps, encode_targeted_resume_token) refl

check_sealed :
    (input : ResumeTokenInput) (blob : List ℕ) (ranges : List MissingRange)
    → IsEncodable input
    → length blob ≤ resume_range_blob_bytes
    → unpack_ranges blob input.segment_count ≡ some ranges
    → check_targeted_token (sealed input blob) ≡ ok (with_gaps input ranges)
unfolding sealed
check_sealed = check_body

-- A blob is that of the gaps.
pub packed_blob :
    (n : ℕ) (ranges : List MissingRange) {blob : List ℕ}
    → blob_of n (some ranges) ≡ some blob
    → pack_ranges ranges ≡ some blob
unfolding blob_of
packed_blob n ranges h = elim (Bool-cases (describes_a_trailing_run ranges n)) [
  | inl trailing ↦ absurd (none-ne-some _ (rw trailing at h))
  | inr scattered ↦ rw scattered at h
]

-- What a token carries: the gaps if they are scattered and fit, or else the place to go on from.
abbrev pub carried : ResumeTokenInput → List MissingRange → Option (List ℕ) → TargetedResumeToken
carried input ranges none = record { token = token_of 1 input; missing = none }
carried input ranges (some blob) = with_gaps input ranges

module _ (upper_other : List ℕ → List ℕ) where
  decode_gaps :
      (text bytes : List ℕ)
      → length (clean_text upper_other text) ≡ 64
      → read_from 0 0 (clean_text upper_other text) ≡ some bytes
      → length bytes ≡ 40
      → decode_targeted_resume_token upper_other text ≡ check_targeted_token bytes
  unfolding decode_targeted_resume_token
  decode_gaps text bytes chars read size =
      rw (chars, read) (ap check_targeted_token (fill bytes 40 size))

  decode_plain :
      (text : List ℕ) {token : ResumeToken}
      → length (clean_text upper_other text) ≡ 40
      → decode_resume_token upper_other text ≡ ok token
      → decode_targeted_resume_token upper_other text ≡ ok record { token = token; missing = none }
  unfolding decode_targeted_resume_token without_missing
  decode_plain text chars read = rw (chars, read) refl

  -- What has been put into a token comes out of it. A token whose gaps reach the end, or do not
  -- fit, is one of the first version, without them.
  pub decode_targeted_resume_token-encode_targeted_resume_token :
      (input : ResumeTokenInput) (ranges : List MissingRange) (grouped : Bool)
      → IsEncodable input
      → Ordered input.segment_count 0 ranges
      → (text : List ℕ) × ((encode_targeted_resume_token input (some ranges) grouped ≡ some text)
          × (decode_targeted_resume_token upper_other text
              ≡ ok (carried input ranges (blob_of input.segment_count (some ranges)))))
  decode_targeted_resume_token-encode_targeted_resume_token input ranges grouped given order =
      elim (Option-cases (blob_of input.segment_count (some ranges))) [
        | inl plain ↦
            let (encoded, (chars, decoded)) = token_text upper_other input grouped given in
            (
              grouped_text grouped (to_base32 (token input)),
              (
                encode_plain input (some ranges) grouped plain ∙ encoded,
                rw plain (decode_plain _ chars decoded),
              ),
            )
        | inr (blob, gaps) ↦
            let (unpacked, (fits, small)) =
              unpack_ranges-pack_ranges ranges input.segment_count given.count order
                (packed_blob _ ranges gaps) in
            let (size, bytes) = sealed-IsBytes input blob given fits small in
            let (chars, read) =
              read_text upper_other (sealed input blob) grouped (rw size refl) bytes in
            (
              grouped_text grouped (to_base32 (sealed input blob)),
              (
                encode_gaps input (some ranges) grouped blob given fits gaps,
                rw gaps (
                    decode_gaps _ (sealed input blob) (omega (arith, chars, size)) read size
                    ∙ check_sealed input blob ranges given fits unpacked),
              ),
            )
      ]
