-- ===== src/Session/FirstMissing.antt =====
-- The lowest segment that is not committed (src/core/segmented-receiver.ts).
use deqr.Common.{
  for_all, for_all_at, ℕ, zero, suc, ◌+◌, ◌-◌, ◌*◌, ◌/◌, ◌%◌, ◌^◌, ◌≤◌, ◌<◌, ◌≡◌, refl, ap, ◌∙◌,
  arith, List, [], ◌∷◌, length, get_or,
}
use deqr.Common.{
  Bool, true, false, not, leb, ◌==◌, ==_iff, if_cases, bit_and, Option, none, some, Option-cases,
  inl, inr,
}
use native.Mathlib.Decide.{ℕ_discrete, dec_lt}
use mathlib.Core.Path.{subst}
use deqr.Fec.Decoder.{is_set}
use deqr.Session.Types.{SegmentedReceiver}
use deqr.Session.Setup.{missing_in_byte, first_missing_from, first_missing_segment}

-- The bit of a segment in the bytes from the byte `b` of the bitmap on.
abbrev held : List ℕ → ℕ → ℕ → Bool
held bytes b i = not (bit_and (get_or bytes (i / 8 - b) 0) (2 ^ (i % 8)) == 0)

-- The lowest number from `from` on, below `n`, without its bit; or `n`.
abbrev Lowest : (ℕ → Bool) → ℕ → ℕ → ℕ → Type 0
Lowest set n from m =
    (m ≤ n) × (((i : ℕ) → from ≤ i → i < m → set i ≡ true) × (m < n → (from ≤ m) × (set m ≡ false)))

abbrev InByte : (ℕ → Bool) → ℕ → ℕ → ℕ → Option ℕ → Type 0
InByte set n index left none = (i : ℕ) → index ≤ i → i < index + left → set i ≡ true
InByte set n index left (some m) = Lowest set n index m × (m < index + left)

at_or_after :
    (set : ℕ → Bool) (index i : ℕ)
    → set index ≡ true
    → index ≤ i
    → (index + 1 ≤ i → set i ≡ true)
    → set i ≡ true
at_or_after set index i here h later = elim (ℕ_discrete index i) [
  | yes same ↦ subst (λ k. set k ≡ true) same here
  | no other ↦ later (omega arith)
]

extend :
    (set : ℕ → Bool) (n index left : ℕ) (o : Option ℕ)
    → set index ≡ true
    → InByte set n (index + 1) left o
    → InByte set n index (suc left) o
extend set n index left none here h =
    λ i from to. at_or_after set index i here from (λ more. h i more (omega arith))
extend set n index left (some m) here ((h, (k, l)), u) = (
  (
    h,
    (
      λ i from to. at_or_after set index i here from (λ more. k i more to),
      λ less. let (from, clear) = l less in (omega arith, clear),
    ),
  ),
  omega arith,
)

missing_in_byte-InByte :
    (n byte index left : ℕ)
    → InByte
        (λ i. not (bit_and byte (2 ^ (i % 8)) == 0))
        n
        index
        left
        (missing_in_byte n byte index left)
unfolding missing_in_byte
missing_in_byte-InByte n byte index zero = λ i h k. absurd (omega arith)
missing_in_byte-InByte n byte index (suc left) =
    let set : ℕ → Bool = λ i. not (bit_and byte (2 ^ (i % 8)) == 0) in
    if_cases (InByte set n index (suc left)) (leb n index)
      (λ past. (
        (omega arith, (λ i from to. absurd (ground arith), λ less. absurd (omega arith))),
        ground arith,
      ))
      (λ inside.
        if_cases (InByte set n index (suc left)) (bit_and byte (2 ^ (index % 8)) == 0)
          (λ clear. (
            (
              ground arith,
              (λ i from to. absurd (omega arith), λ less. (omega arith, ap not clear)),
            ),
            omega arith,
          ))
          (λ here.
            extend set n index left (missing_in_byte n byte (index + 1) left) (ap not here)
              (missing_in_byte-InByte n byte (index + 1) left)))

full_byte : (i : ℕ) → not (bit_and 0xff (2 ^ (i % 8)) == 0) ≡ true
full_byte i =
    for_all_at 8 (λ j. not (bit_and 0xff (2 ^ j) == 0)) (i % 8) (unfold for_all in refl)
      (omega arith)

-- The first byte of those that are left, and the others.
held-first :
    (byte : ℕ) (bytes : List ℕ) (b i : ℕ)
    → 8 * b ≤ i
    → i < 8 * b + 8
    → held (byte ∷ bytes) b i ≡ not (bit_and byte (2 ^ (i % 8)) == 0)
held-first byte bytes b i h k = let place : i / 8 - b ≡ 0 = omega arith in rw place refl

held-later :
    (byte : ℕ) (bytes : List ℕ) (b i : ℕ)
    → 8 * (b + 1) ≤ i
    → held (byte ∷ bytes) b i ≡ held bytes (b + 1) i
held-later byte bytes b i h =
    let place : i / 8 - b ≡ suc (i / 8 - (b + 1)) = omega arith in rw place refl

-- All bits of the first byte are set.
join :
    (n b byte m : ℕ) (bytes : List ℕ)
    → ((i : ℕ) → 8 * b ≤ i → i < 8 * b + 8 → not (bit_and byte (2 ^ (i % 8)) == 0) ≡ true)
    → Lowest (held bytes (b + 1)) n (8 * (b + 1)) m
    → Lowest (held (byte ∷ bytes) b) n (8 * b) m
join n b byte m bytes full (h, (k, l)) = (
  h,
  (
    λ i from to. elim (dec_lt i (8 * b + 8)) [
      | yes here ↦ held-first byte bytes b i from here ∙ full i from here
      | no later ↦ held-later byte bytes b i (omega arith) ∙ k i (omega arith) to
    ],
    λ less. let (from, clear) = l less in (omega arith, held-later byte bytes b m from ∙ clear),
  ),
)

found_here :
    (n b byte m : ℕ) (bytes : List ℕ)
    → InByte (λ i. not (bit_and byte (2 ^ (i % 8)) == 0)) n (b * 8) 8 (some m)
    → Lowest (held (byte ∷ bytes) b) n (8 * b) m
found_here n b byte m bytes ((h, (k, l)), u) = (
  h,
  (
    λ i from to. held-first byte bytes b i from (omega arith) ∙ k i (omega arith) to,
    λ less.
        let (from, clear) = l less in
        (omega arith, held-first byte bytes b m (omega arith) (omega arith) ∙ clear),
  ),
)

first_missing_from-Lowest :
    (n b : ℕ) (bytes : List ℕ)
    → n ≤ 8 * (b + length bytes)
    → Lowest (held bytes b) n (8 * b) (first_missing_from n b bytes)
unfolding first_missing_from
first_missing_from-Lowest n b [] h =
    (omega arith, (λ i from to. absurd (omega arith), λ less. absurd (omega arith)))
first_missing_from-Lowest n b (byte ∷ bytes) h =
    let later = first_missing_from-Lowest n (b + 1) bytes (omega arith) in
    let P : ℕ → Type 0 = Lowest (held (byte ∷ bytes) b) n (8 * b) in
    let look = missing_in_byte-InByte n byte (b * 8) 8 in
    if_cases P (byte == 0xff)
      (λ full.
        join n b byte _ bytes (λ i from to. rw ((==_iff byte 0xff).0 full) (full_byte i)) later)
      (λ partial. elim (Option-cases (missing_in_byte n byte (b * 8) 8)) [
        | inl whole ↦
            let all =
              subst (InByte (λ i. not (bit_and byte (2 ^ (i % 8)) == 0)) n (b * 8) 8) whole look in
            rw whole (join n b byte _ bytes (λ i from to. all i (omega arith) (omega arith)) later)
        | inr (m, here) ↦ rw here (
            found_here n b byte m bytes
              (subst (InByte (λ i. not (bit_and byte (2 ^ (i % 8)) == 0)) n (b * 8) 8) here look))
      ])

held_zero : (bits : List ℕ) (i : ℕ) → is_set bits i ≡ held bits 0 i
unfolding is_set
held_zero bits i = let place : i / 8 - 0 ≡ i / 8 = omega arith in rw place refl

-- The segment that a token names is the lowest that is not committed: all before it are, and it is
-- not, unless it is the number of the segments. The bitmap has a bit for each segment.
pub first_missing_segment_correct :
    (r : SegmentedReceiver)
    → r.manifest.segment_count ≤ 8 * length r.committed_bits
    → (first_missing_segment r ≤ r.manifest.segment_count)
      × (((i : ℕ) → i < first_missing_segment r → is_set r.committed_bits i ≡ true)
          × (first_missing_segment r < r.manifest.segment_count
              → is_set r.committed_bits (first_missing_segment r) ≡ false))
unfolding first_missing_segment
first_missing_segment_correct r h =
    let (within, (before, at)) =
      first_missing_from-Lowest r.manifest.segment_count 0 r.committed_bits (omega arith) in
    (
      within,
      (
        λ i to. held_zero r.committed_bits i ∙ before i (omega arith) to,
        λ less. held_zero r.committed_bits _ ∙ (at less).1,
      ),
    )
