-- ===== src/Resume/Ranges/Packed.antt =====
-- The gaps that are packed into a token are the ones that come out (src/core/resume-token.ts).
use deqr.Common.{append_nil, append_assoc}
use deqr.Common.{
  ℕ, zero, suc, ◌+◌, ◌-◌, ◌/◌, ◌^◌, ◌≤◌, ◌<◌, ◌≡◌, refl, sym, ap, ◌∙◌, arith, List, [], ◌∷◌, ◌++◌,
  length,
}
use deqr.Common.{
  length-append, All-append, if_both, some, false, ◌||◌, ltb, leb, le→ltb, ◌==◌, Bool-cases, inl,
  inr,
}
use mathlib.Core.Path.{subst}
use mathlib.Core.Option.{some-injective, none-ne-some}
use deqr.Resume.Ranges.{
  MissingRange, varint_from, write_varint, read_varint, pack_from, pack_ranges, next_range,
  unpack_from, unpack_ranges, max_resume_ranges, resume_range_blob_bytes,
}
use deqr.Protocol.Buffer.Laws.{IsBytes}
use deqr.Resume.Ranges.Bitmap.{Ordered}
use deqr.Resume.Ranges.Varint.{read_varint-write_varint, varint-grows}

-- The bytes of the gaps from `previous_end` on.
packed : ℕ → List MissingRange → List ℕ
packed previous_end [] = []
packed previous_end (range ∷ ranges) =
    write_varint (range.start - previous_end)
    ++ (write_varint (range.length - 1) ++ packed (range.start + range.length) ranges)

pack_from-inv :
    (ranges : List MissingRange) (previous_end : ℕ) (blob : List ℕ) {out : List ℕ}
    → pack_from previous_end blob ranges ≡ some out
    → length blob ≤ resume_range_blob_bytes
    → (out ≡ blob ++ packed previous_end ranges) × (length out ≤ resume_range_blob_bytes)
unfolding pack_from packed
pack_from-inv [] e blob h size =
    let same = some-injective _ _ h in
    (sym same ∙ sym (append_nil blob), subst (λ t. length t ≤ resume_range_blob_bytes) same size)
pack_from-inv (range ∷ ranges) e blob h size =
    let blob' = blob ++ write_varint (range.start - e) ++ write_varint (range.length - 1) in
    elim (Bool-cases (ltb range.start e || ltb range.length 1)) [
      | inl refused ↦ absurd (none-ne-some _ (rw refused at h))
      | inr taken ↦ elim (Bool-cases (ltb resume_range_blob_bytes (length blob'))) [
        | inl too_long ↦ absurd (none-ne-some _ (rw (taken, too_long) at h))
        | inr short ↦
            let (same, fits) =
              pack_from-inv ranges (range.start + range.length) blob' (rw (taken, short) at h)
                (ground arith) in
            (
              same
                  ∙ append_assoc (blob ++ write_varint (range.start - e))
                      (write_varint (range.length - 1)) (packed (range.start + range.length) ranges)
                  ∙ append_assoc blob (write_varint (range.start - e)) (
                      write_varint (range.length - 1)
                      ++ packed (range.start + range.length) ranges),
              fits,
            )
      ]
    ]

next_range-reads :
    (n e gap run : ℕ) (blob middle rest : List ℕ)
    → read_varint blob ≡ some (gap, middle)
    → read_varint middle ≡ some (run, rest)
    → e + gap + (run + 1) ≤ n
    → next_range n e blob ≡ some (record { start = e + gap; length = run + 1 }, rest)
unfolding next_range
next_range-reads n e gap run blob middle rest first second inside =
    rw (first, second, next_range)
      (rw (le→ltb (e + gap) e (omega arith), le→ltb (run + 1) 1 (omega arith), le→ltb n _ inside)
        refl)

next_range-packed :
    (range : MissingRange) (ranges : List MissingRange) (n e : ℕ)
    → n < 2 ^ 32
    → e ≤ range.start
    → 1 ≤ range.length
    → range.start + range.length ≤ n
    → next_range n e (packed e (range ∷ ranges))
      ≡ some (range, packed (range.start + range.length) ranges)
unfolding packed
next_range-packed range ranges n e small order some_segments inside =
    let later = packed (range.start + range.length) ranges in
    let start : e + (range.start - e) ≡ range.start = omega arith in
    let size : range.length - 1 + 1 ≡ range.length = omega arith in
    next_range-reads n e (range.start - e) (range.length - 1)
      (write_varint (range.start - e) ++ (write_varint (range.length - 1) ++ later)) _ later
      (read_varint-write_varint (range.start - e) (write_varint (range.length - 1) ++ later)
        (omega arith))
      (read_varint-write_varint (range.length - 1) later (omega arith)) (rw (start, size) inside)
    ∙ rw (start, size) refl

unpack_turn :
    (range : MissingRange) (done : List MissingRange) (n e fuel : ℕ) (blob rest : List ℕ)
    → 1 ≤ length blob
    → next_range n e blob ≡ some (range, rest)
    → length done + 1 ≤ max_resume_ranges
    → unpack_from (suc fuel) n e done blob
      ≡ unpack_from fuel n (range.start + range.length) (done ++ (range ∷ [])) rest
unfolding unpack_from
unpack_turn range done n e fuel [] rest filled next few = absurd (omega arith)
unpack_turn range done n e fuel (byte ∷ bytes) rest filled next few =
    rw (next, unpack_from) (rw (le→ltb max_resume_ranges (length done + 1) few) refl)

written : (start e : ℕ) → 1 ≤ length (write_varint (start - e))
unfolding write_varint
written start e = varint-grows 8 (start - e)

none_left :
    (fuel n e : ℕ) (done : List MissingRange)
    → unpack_from fuel n e done (packed e []) ≡ some (done ++ [])
unfolding packed unpack_from
none_left zero n e done = ap some (sym (append_nil done))
none_left (suc fuel) n e done = ap some (sym (append_nil done))

few :
    (ranges : List MissingRange)
    → (length ranges == 0 || ltb max_resume_ranges (length ranges)) ≡ false
    → length ranges ≤ max_resume_ranges
few ranges h = ground arith

-- A gap takes a byte at least.
length-packed : (ranges : List MissingRange) (e : ℕ) → length ranges ≤ length (packed e ranges)
unfolding packed
length-packed [] e = omega arith
length-packed (range ∷ ranges) e =
    let first = write_varint (range.start - e) in
    let second = write_varint (range.length - 1) in
    let later = packed (range.start + range.length) ranges in
    omega (
      arith,
      written range.start e,
      length-append first (second ++ later),
      length-append second later,
      length-packed ranges (range.start + range.length),
    )

unpack_from-packed :
    (ranges done : List MissingRange) (n e fuel : ℕ)
    → n < 2 ^ 32
    → Ordered n e ranges
    → length ranges ≤ fuel
    → length done + length ranges ≤ max_resume_ranges
    → unpack_from fuel n e done (packed e ranges) ≡ some (done ++ ranges)
unpack_from-packed [] done n e fuel small order enough few = none_left fuel n e done
unpack_from-packed (range ∷ ranges) done n e zero small order enough few = absurd (omega arith)
unpack_from-packed (range ∷ ranges) done n e (suc fuel) small (starts, (holds, (ends, order)))
      enough few =
    unpack_turn range done n e fuel (packed e (range ∷ ranges))
      (packed (range.start + range.length) ranges) (omega (arith, length-packed (range ∷ ranges) e))
      (next_range-packed range ranges n e small starts holds ends) (omega arith)
    ∙ unpack_from-packed ranges (done ++ (range ∷ [])) n (range.start + range.length) fuel small
        order (omega arith) (omega (arith, length-append done (range ∷ [])))
    ∙ ap some (append_assoc done (range ∷ []) ranges)

varint-IsBytes : (fuel v : ℕ) → IsBytes (varint_from fuel v)
unfolding varint_from
varint-IsBytes zero v = (omega arith, tt)
varint-IsBytes (suc fuel) v =
    if_both IsBytes (leb 128 v) (omega arith, varint-IsBytes fuel (v / 128)) (omega arith, tt)

write_varint-IsBytes : (v : ℕ) → IsBytes (write_varint v)
unfolding write_varint
write_varint-IsBytes v = varint-IsBytes 8 v

packed-IsBytes : (ranges : List MissingRange) (e : ℕ) → IsBytes (packed e ranges)
unfolding packed
packed-IsBytes [] e = tt
packed-IsBytes (range ∷ ranges) e =
    let first = write_varint (range.start - e) in
    let second = write_varint (range.length - 1) in
    let later = packed (range.start + range.length) ranges in
    All-append (λ b. b < 256) first (second ++ later) (write_varint-IsBytes (range.start - e))
      (All-append (λ b. b < 256) second later (write_varint-IsBytes (range.length - 1))
        (packed-IsBytes ranges (range.start + range.length)))

-- Gaps that fit the blob are read back as they are.
pub unpack_ranges-pack_ranges :
    (ranges : List MissingRange) (segment_count : ℕ) {blob : List ℕ}
    → segment_count < 2 ^ 32
    → Ordered segment_count 0 ranges
    → pack_ranges ranges ≡ some blob
    → (unpack_ranges blob segment_count ≡ some ranges)
      × ((length blob ≤ resume_range_blob_bytes) × IsBytes blob)
unfolding pack_ranges unpack_ranges
unpack_ranges-pack_ranges ranges n {blob} small order h =
    elim (Bool-cases (length ranges == 0 || ltb max_resume_ranges (length ranges))) [
      | inl refused ↦ absurd (none-ne-some _ (rw refused at h))
      | inr taken ↦
          let (same, fits) = pack_from-inv ranges 0 [] (rw taken at h) (omega arith) in
          (
            rw same (
                unpack_from-packed ranges [] n 0 (length (packed 0 ranges)) small order
                  (length-packed ranges 0) (omega (arith, few ranges taken))),
            (fits, rw same (packed-IsBytes ranges 0)),
          )
    ]
