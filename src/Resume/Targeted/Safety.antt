-- ===== src/Resume/Targeted/Safety.antt =====
-- What a text that a user typed can make a sender do (src/core/resume-token.ts).
use deqr.Common.{
  ◌%◌, ◌^◌, ℕ, zero, suc, ◌+◌, ◌-◌, ◌≤◌, ◌<◌, ◌≡◌, arith, List, [], ◌∷◌, ◌++◌, length, All,
  All-append,
}
use deqr.Common.{
  Option-cases, inl, inr, Option, none, some, false, not, ◌||◌, ltb, ◌==◌, if_both, if_cases,
  get_or,
}
use mathlib.Core.Path.{subst}
use deqr.Protocol.Buffer.{write, zeros, slice}
use deqr.Protocol.Crc.{crc32}
use deqr.Resume.Base32.{read_from, clean_text}
use deqr.Resume.Token.{
  ResumeToken, ResumeTokenResult, ok, failed, read_u32, found_at, check_token, decode_resume_token,
}
use deqr.Resume.Ranges.{
  MissingRange, range_targets, indices, read_varint, next_range, unpack_from, unpack_ranges,
  max_resume_ranges, resume_range_blob_bytes,
}
use deqr.Resume.Targeted.{
  TargetedResumeToken, check_targeted_token, without_missing, decode_targeted_resume_token,
  resume_token_targets,
}
use deqr.Resume.Targeted.Complete.{indices-lt}

-- Gaps inside a file of `n` segments.
abbrev Within : ℕ → List MissingRange → Type 0
Within n = All (λ range. range.start + range.length ≤ n)

-- A result that, if there is one, has a property.
abbrev Gives {ℓ κ} : {A : Type ℓ} → (A → Type κ) → Option A → Type κ
Gives P none = Unit
Gives P (some a) = P a

abbrev Allows {ℓ κ} : {A : Type ℓ} → (A → Type κ) → ResumeTokenResult A → Type κ
Allows P (ok a) = P a
Allows P (failed code) = Unit

not_past : (n k : ℕ) → ltb n k ≡ false → k ≤ n
not_past n k h = ground arith

next_range-within :
    (n e : ℕ) (blob : List ℕ)
    → Gives (λ next. next.0.start + next.0.length ≤ n) (next_range n e blob)
unfolding next_range
next_range-within n e blob = elim (Option-cases (read_varint blob)) [
  | inl short ↦ rw (short, next_range) tt
  | inr (gap, first) ↦ elim (Option-cases (read_varint gap.1)) [
    | inl short ↦ rw (first, short, next_range) tt
    | inr (run, second) ↦
        rw (first, second, next_range)
          (if_both (Gives (λ next. next.0.start + next.0.length ≤ n))
            (ltb (e + gap.0) e || ltb (run.0 + 1) 1) tt
            (if_cases (Gives (λ next. next.0.start + next.0.length ≤ n))
              (ltb n (e + gap.0 + (run.0 + 1))) (λ past. tt) (λ inside. not_past n _ inside)))
  ]
]

unpack_from-Within :
    (fuel n e : ℕ) (done : List MissingRange) (blob : List ℕ)
    → Within n done
    → Gives (Within n) (unpack_from fuel n e done blob)
unfolding unpack_from
unpack_from-Within zero n e done [] h = h
unpack_from-Within (suc fuel) n e done [] h = h
unpack_from-Within zero n e done (byte ∷ bytes) h = tt
unpack_from-Within (suc fuel) n e done (byte ∷ bytes) h =
    elim (Option-cases (next_range n e (byte ∷ bytes))) [
      | inl refused ↦ rw (refused, unpack_from) tt
      | inr (next, taken) ↦
          let inside : next.0.start + next.0.length ≤ n =
            subst (Gives (λ next. next.0.start + next.0.length ≤ n)) taken
              (next_range-within n e (byte ∷ bytes)) in
          rw (taken, unpack_from)
            (if_both (Gives (Within n)) (ltb max_resume_ranges (length done + 1)) tt (
              unpack_from-Within fuel n (next.0.start + next.0.length) (done ++ (next.0 ∷ []))
                next.1
                (All-append (λ range. range.start + range.length ≤ n) done (next.0 ∷ []) h
                  (inside, tt))))
    ]

unpack_ranges-Within : (blob : List ℕ) (n : ℕ) → Gives (Within n) (unpack_ranges blob n)
unfolding unpack_ranges
unpack_ranges-Within blob n = unpack_from-Within (length blob) n 0 [] blob tt

range_targets-lt :
    (n : ℕ) (ranges : List MissingRange) → Within n ranges → All (λ i. i < n) (range_targets ranges)
unfolding range_targets
range_targets-lt n [] h = tt
range_targets-lt n (range ∷ ranges) (h, hs) =
    All-append (λ i. i < n) (indices range.length range.start) (range_targets ranges)
      (indices-lt range.length range.start n h) (range_targets-lt n ranges hs)

-- What is said of a token that a reader accepts.
abbrev Bounded : TargetedResumeToken → Type 0
Bounded t =
    (1 ≤ t.token.segment_count)
    × ((t.token.resume_from_segment ≤ t.token.segment_count)
        × All (λ i. i < t.token.segment_count) (resume_token_targets t))

rest_bounded :
    (token : ResumeToken)
    → token.resume_from_segment ≤ token.segment_count
    → All
        (λ i. i < token.segment_count)
        (indices (token.segment_count - token.resume_from_segment) token.resume_from_segment)
rest_bounded token h = indices-lt _ _ _ (omega arith)

missing_bounded :
    (token : ResumeToken) (ranges : List MissingRange)
    → token.resume_from_segment ≤ token.segment_count
    → Within token.segment_count ranges
    → All
        (λ i. i < token.segment_count)
        (resume_token_targets record { token = token; missing = some ranges })
unfolding resume_token_targets
missing_bounded token ranges h within =
    if_both (All (λ i. i < token.segment_count)) (length ranges == 0) (rest_bounded token h)
      (range_targets-lt token.segment_count ranges within)

sane : (n r : ℕ) → (ltb n 1 || ltb n r) ≡ false → (1 ≤ n) × (r ≤ n)
sane n r h = (ground arith, ground arith)

check_token-Allows :
    (bytes : List ℕ)
    → Allows
        (λ t. (1 ≤ t.segment_count) × (t.resume_from_segment ≤ t.segment_count))
        (check_token bytes)
unfolding check_token
check_token-Allows bytes =
    let P : ResumeTokenResult ResumeToken → Type 0 =
      Allows (λ t. (1 ≤ t.segment_count) × (t.resume_from_segment ≤ t.segment_count)) in
    if_both P (not (found_at bytes 22 == crc32 bytes 0 22 % 2 ^ 24)) tt (
      if_both P (not (get_or bytes 0 0 == 1)) tt (
        if_cases P (ltb (read_u32 bytes 9) 1 || ltb (read_u32 bytes 9) (read_u32 bytes 13))
          (λ wrong. tt) (sane (read_u32 bytes 9) (read_u32 bytes 13))))

check_targeted_token-Allows : (bytes : List ℕ) → Allows Bounded (check_targeted_token bytes)
unfolding check_targeted_token
check_targeted_token-Allows bytes =
    let P : ResumeTokenResult TargetedResumeToken → Type 0 = Allows Bounded in
    if_both P (not (found_at bytes 37 == crc32 bytes 0 37 % 2 ^ 24)) tt (
      if_both P (not (get_or bytes 0 0 == 2)) tt (
        if_cases P (ltb (read_u32 bytes 9) 1 || ltb (read_u32 bytes 9) (read_u32 bytes 13))
          (λ wrong. tt)
          (λ right.
            if_both P (ltb resume_range_blob_bytes (get_or bytes 22 0)) tt
              (elim (Option-cases
                (unpack_ranges (slice bytes 23 (23 + get_or bytes 22 0)) (read_u32 bytes 9))) [
                  | inl refused ↦ rw refused tt
                  | inr (ranges, read) ↦
                      let (some_segments, inside) =
                        sane (read_u32 bytes 9) (read_u32 bytes 13) right in
                      let within : Within (read_u32 bytes 9) ranges =
                        subst (Gives (Within (read_u32 bytes 9))) read (
                          unpack_ranges-Within (slice bytes 23 (23 + get_or bytes 22 0))
                            (read_u32 bytes 9)) in
                      rw read (some_segments, (inside, missing_bounded _ ranges inside within))
                ]))))

decode_resume_token-Allows :
    (upper_other : List ℕ → List ℕ) (text : List ℕ)
    → Allows
        (λ t. (1 ≤ t.segment_count) × (t.resume_from_segment ≤ t.segment_count))
        (decode_resume_token upper_other text)
unfolding decode_resume_token
decode_resume_token-Allows upper_other text =
    let clean = clean_text upper_other text in
    let P : ResumeTokenResult ResumeToken → Type 0 =
      Allows (λ t. (1 ≤ t.segment_count) × (t.resume_from_segment ≤ t.segment_count)) in
    if_both P (not (length clean == 40)) tt (elim (Option-cases (read_from 0 0 clean)) [
      | inl refused ↦ rw refused tt
      | inr (bytes, read) ↦ rw read (check_token-Allows (write (zeros 25) 0 bytes))
    ])

without_missing-Allows :
    (result : ResumeTokenResult ResumeToken)
    → Allows (λ t. (1 ≤ t.segment_count) × (t.resume_from_segment ≤ t.segment_count)) result
    → Allows Bounded (without_missing result)
unfolding without_missing resume_token_targets
without_missing-Allows (ok token) (h, k) = (h, (k, rest_bounded token k))
without_missing-Allows (failed code) h = tt

decode_targeted_resume_token-Allows :
    (upper_other : List ℕ → List ℕ) (text : List ℕ)
    → Allows Bounded (decode_targeted_resume_token upper_other text)
unfolding decode_targeted_resume_token
decode_targeted_resume_token-Allows upper_other text =
    let clean = clean_text upper_other text in
    let P : ResumeTokenResult TargetedResumeToken → Type 0 = Allows Bounded in
    if_both P (length clean == 40)
      (without_missing-Allows _ (decode_resume_token-Allows upper_other text))
      (if_both P (not (length clean == 64)) tt (elim (Option-cases (read_from 0 0 clean)) [
        | inl refused ↦ rw refused tt
        | inr (bytes, read) ↦ rw read (check_targeted_token-Allows (write (zeros 40) 0 bytes))
      ]))

-- Whatever was typed, a token that is accepted has a segment at least and its place to go on from
-- in the file, and the segments that it makes the sender send again are all in the file.
pub accepted_token_bounded :
    (upper_other : List ℕ → List ℕ) (text : List ℕ) (t : TargetedResumeToken)
    → decode_targeted_resume_token upper_other text ≡ ok t
    → (1 ≤ t.token.segment_count)
      × ((t.token.resume_from_segment ≤ t.token.segment_count)
          × All (λ i. i < t.token.segment_count) (resume_token_targets t))
accepted_token_bounded upper_other text t h =
    subst (Allows Bounded) h (decode_targeted_resume_token-Allows upper_other text)
