-- ===== src/Resume/Targeted/Complete.antt =====
-- What a sender that reads a token sends again (src/core/resume-token.ts).
use deqr.Common.{
  ℕ, zero, suc, ◌+◌, ◌-◌, ◌≤◌, ◌<◌, ◌≡◌, refl, ◌∙◌, arith, List, [], ◌∷◌, length, All,
}
use deqr.Common.{
  Option-cases, inl, inr, ◌⊎◌, none, some, Bool, true, false, ◌==◌, if_both, if_false,
}
use mathlib.Core.Path.{subst}
use mathlib.Core.Option.{none-ne-some}
use native.Mathlib.Decide.{ℕ_discrete, dec_lt}
use deqr.Fec.Decoder.{is_set}
use deqr.Resume.Token.{ResumeTokenInput}
use deqr.Resume.Token.{ok}
use deqr.Resume.Token.Layout.{IsEncodable, token_of}
use deqr.Resume.Ranges.{
  MissingRange, indices, range_targets, missing_ranges_from_bitmap, pack_ranges,
}
use deqr.Resume.Ranges.Bitmap.{missing_from, missing_ranges_from_bitmap_correct}
use deqr.Resume.Targeted.{
  TargetedResumeToken, blob_of, encode_targeted_resume_token, decode_targeted_resume_token,
  resume_token_targets,
}
use deqr.Resume.Targeted.RoundTrip.{
  with_gaps, carried, packed_blob, decode_targeted_resume_token-encode_targeted_resume_token,
}

abbrev pub Contains : ℕ → List ℕ → Type 0
Contains i [] = ⊥
Contains i (x ∷ xs) = (i ≡ x) ⊎ Contains i xs

indices-Contains :
    (left start i : ℕ) → start ≤ i → i < start + left → Contains i (indices left start)
unfolding indices
indices-Contains zero start i h k = absurd (omega arith)
indices-Contains (suc left) start i h k = elim (ℕ_discrete i start) [
  | yes same ↦ inl same
  | no other ↦ inr (indices-Contains left (start + 1) i (omega arith) (omega arith))
]

pub indices-lt : (left start n : ℕ) → start + left ≤ n → All (λ i. i < n) (indices left start)
unfolding indices
indices-lt zero start n h = tt
indices-lt (suc left) start n h = (omega arith, indices-lt left (start + 1) n (omega arith))

missing_from-Contains :
    (bits : List ℕ) (left index i : ℕ)
    → index ≤ i
    → i < index + left
    → is_set bits i ≡ false
    → Contains i (missing_from bits left index)
unfolding missing_from
missing_from-Contains bits zero index i h k missing = absurd (omega arith)
missing_from-Contains bits (suc left) index i h k missing = elim (ℕ_discrete i index) [
  | yes same ↦
      let here : is_set bits index ≡ false = subst (λ j. is_set bits j ≡ false) same missing in
      rw here (inl same)
  | no other ↦
      let later =
        missing_from-Contains bits left (index + 1) i (omega arith) (omega arith) missing in
      if_both (Contains i) (is_set bits index) later (inr later)
]

missing_from-lt :
    (bits : List ℕ) (left index n : ℕ)
    → index + left ≤ n
    → All (λ i. i < n) (missing_from bits left index)
unfolding missing_from
missing_from-lt bits zero index n h = tt
missing_from-lt bits (suc left) index n h =
    let later = missing_from-lt bits left (index + 1) n (omega arith) in
    if_both (All (λ i. i < n)) (is_set bits index) later (omega arith, later)

-- What the sender sends again for a token with gaps, and for one without.
targets_with :
    (input : ResumeTokenInput) (ranges : List MissingRange) (blob : List ℕ)
    → pack_ranges ranges ≡ some blob
    → resume_token_targets (with_gaps input ranges) ≡ range_targets ranges
unfolding resume_token_targets pack_ranges
targets_with input [] blob h = absurd (none-ne-some _ h)
targets_with input (range ∷ ranges) blob h =
    if_false (λ t. t ≡ range_targets (range ∷ ranges)) (length (range ∷ ranges) == 0) _
      (ground arith) refl

targets_without :
    (input : ResumeTokenInput)
    → resume_token_targets record { token = token_of 1 input; missing = none }
      ≡ indices (input.segment_count - input.resume_from_segment) input.resume_from_segment
unfolding resume_token_targets
targets_without input = refl

-- The gaps, read off the bitmap, carried and read back.
pub sent_again :
    (input : ResumeTokenInput) (bits : List ℕ)
    → IsEncodable input
    → ((i : ℕ) → i < input.resume_from_segment → is_set bits i ≡ true)
    → (let n = input.segment_count in
        let ranges = missing_ranges_from_bitmap bits n in
        let targets = resume_token_targets (carried input ranges (blob_of n (some ranges))) in
        All (λ i. i < n) targets × ((i : ℕ) → i < n → is_set bits i ≡ false → Contains i targets))
sent_again input bits given low =
    let n = input.segment_count in
    let r = input.resume_from_segment in
    elim (Option-cases
      (blob_of input.segment_count (some (missing_ranges_from_bitmap bits input.segment_count)))) [
        | inl plain ↦
            rw (plain, targets_without input)
              (
                indices-lt (n - r) r n (omega (arith, given.within)),
                λ i h missing. elim (dec_lt i r) [
                  | yes held ↦ let wrong = low i held in absurd (cc)
                  | no later ↦ indices-Contains (n - r) r i (omega arith) (omega arith)
                ],
              )
        | inr (blob, gaps) ↦
            rw
              (
                gaps,
                targets_with input (missing_ranges_from_bitmap bits input.segment_count) blob
                    (packed_blob _ _ gaps),
                (missing_ranges_from_bitmap_correct bits input.segment_count).0,
              )
              (
                missing_from-lt bits n 0 n (omega arith),
                λ i h missing. missing_from-Contains bits n 0 i (omega arith) (omega arith) missing,
              )
      ]

-- A token that is made from a bitmap and a place before which no bit is missing is read as one that
-- makes the sender send every segment without a bit, and none that the file does not have. Its input
-- is one that the encoder takes.
pub nothing_skipped :
    (upper_other : List ℕ → List ℕ) (input : ResumeTokenInput) (bits : List ℕ) (grouped : Bool)
    → IsEncodable input
    → ((i : ℕ) → i < input.resume_from_segment → is_set bits i ≡ true)
    → (text : List ℕ) × (token : TargetedResumeToken) × ((encode_targeted_resume_token input
            (some (missing_ranges_from_bitmap bits input.segment_count))
            grouped
          ≡ some text)
        × ((decode_targeted_resume_token upper_other text ≡ ok token)
            × (All (λ i. i < input.segment_count) (resume_token_targets token)
                × ((i : ℕ)
                    → i < input.segment_count
                    → is_set bits i ≡ false
                    → Contains i (resume_token_targets token)))))
nothing_skipped upper_other input bits grouped given low =
    let ranges = missing_ranges_from_bitmap bits input.segment_count in
    let (text, (encoded, decoded)) =
      decode_targeted_resume_token-encode_targeted_resume_token upper_other input ranges grouped
        given (missing_ranges_from_bitmap_correct bits input.segment_count).1 in
    (
      text,
      carried input ranges (blob_of input.segment_count (some ranges)),
      (encoded, (decoded, sent_again input bits given low)),
    )

-- When the gaps are in the token, the sender sends the segments without a bit and no others.
pub only_the_missing :
    (input : ResumeTokenInput) (bits : List ℕ) {blob : List ℕ}
    → (let ranges = missing_ranges_from_bitmap bits input.segment_count in
        blob_of input.segment_count (some ranges) ≡ some blob
        → resume_token_targets (carried input ranges (some blob))
          ≡ missing_from bits input.segment_count 0)
only_the_missing input bits {blob} gaps =
    targets_with input (missing_ranges_from_bitmap bits input.segment_count) blob
      (packed_blob _ _ gaps)
    ∙ (missing_ranges_from_bitmap_correct bits input.segment_count).0
