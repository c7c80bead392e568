-- ===== src/Resume/Ranges/Bitmap.antt =====
-- The gaps that are read off the bitmap are those of the segments that are missing
-- (src/core/resume-token.ts).
use deqr.Common.{append_assoc}
use deqr.Common.{ℕ, zero, suc, ◌+◌, ◌-◌, ◌≤◌, ◌<◌, ◌≡◌, refl, ap, ◌∙◌, arith, List, [], ◌∷◌, ◌++◌}
use deqr.Common.{Option, none, some, if◌then◌else◌, Bool-cases, inl, inr}
use deqr.Fec.Decoder.{is_set}
use deqr.Resume.Ranges.{indices, range_targets, MissingRange, runs_from, missing_ranges_from_bitmap}

-- The segments without a bit, `left` of them looked at.
unfoldable pub missing_from : List ℕ → ℕ → ℕ → List ℕ
missing_from bits zero index = []
missing_from bits (suc left) index =
    let rest = missing_from bits left (index + 1) in
    if is_set bits index then rest else index ∷ rest

indices_more : (n start : ℕ) → indices (suc n) start ≡ indices n start ++ ((start + n) ∷ [])
unfolding indices
indices_more zero start = ap (λ k. k ∷ []) (omega arith)
indices_more (suc n) start =
    ap (λ t. start ∷ t) (indices_more n (start + 1))
    ∙ ap (λ k. start ∷ (indices n (start + 1) ++ (k ∷ []))) (omega arith)

-- The run that is open holds the segments from its start to the index.
abbrev open_run : Option ℕ → ℕ → List ℕ
open_run none index = []
open_run (some start) index = indices (index - start) start

abbrev StartsBefore : Option ℕ → ℕ → Type 0
StartsBefore none index = Unit
StartsBefore (some start) index = start ≤ index

one_more :
    (start index : ℕ)
    → start ≤ index
    → indices (index + 1 - start) start ≡ indices (index - start) start ++ (index ∷ [])
one_more start index h =
    ap (λ n. indices n start) (omega arith)
    ∙ indices_more (index - start) start
    ∙ ap (λ k. indices (index - start) start ++ (k ∷ [])) (omega arith)

first_of : (index : ℕ) → indices (index + 1 - index) index ≡ index ∷ []
first_of index = let one : index + 1 - index ≡ 1 = omega arith in rw one (unfold indices in refl)

range_targets-runs_from :
    (bits : List ℕ) (left index : ℕ) (run : Option ℕ)
    → StartsBefore run index
    → range_targets (runs_from bits left index run)
      ≡ open_run run index ++ missing_from bits left index
unfolding runs_from range_targets missing_from
range_targets-runs_from bits zero index none h = refl
range_targets-runs_from bits zero index (some start) h = refl
range_targets-runs_from bits (suc left) index none h = elim (Bool-cases (is_set bits index)) [
  | inl held ↦ rw held (range_targets-runs_from bits left (index + 1) none tt)
  | inr missing ↦ rw missing (
      range_targets-runs_from bits left (index + 1) (some index) (omega arith)
      ∙ ap (λ t. t ++ missing_from bits left (index + 1)) (first_of index))
]
range_targets-runs_from bits (suc left) index (some start) h =
    elim (Bool-cases (is_set bits index)) [
      | inl held ↦ rw (held, range_targets-runs_from bits left (index + 1) none tt) refl
      | inr missing ↦ rw missing (
          range_targets-runs_from bits left (index + 1) (some start) (omega arith)
          ∙ ap (λ t. t ++ missing_from bits left (index + 1)) (one_more start index h)
          ∙ append_assoc (indices (index - start) start) (index ∷ [])
              (missing_from bits left (index + 1)))
    ]

-- Gaps in order and inside the file, each with a segment at least.
abbrev pub Ordered : ℕ → ℕ → List MissingRange → Type 0
Ordered segment_count previous_end [] = Unit
Ordered segment_count previous_end (range ∷ ranges) =
    (previous_end ≤ range.start)
    × ((1 ≤ range.length)
        × ((range.start + range.length ≤ segment_count)
            × Ordered segment_count (range.start + range.length) ranges))

abbrev earliest : Option ℕ → ℕ → ℕ
earliest none index = index
earliest (some start) index = start

abbrev Started : Option ℕ → ℕ → Type 0
Started none index = Unit
Started (some start) index = start < index

runs_from-Ordered :
    (bits : List ℕ) (left index n previous_end : ℕ) (run : Option ℕ)
    → Started run index
    → previous_end ≤ earliest run index
    → index + left ≡ n
    → Ordered n previous_end (runs_from bits left index run)
unfolding runs_from
runs_from-Ordered bits zero index n e none h k s = tt
runs_from-Ordered bits zero index n e (some start) h k s = (k, (omega arith, (omega arith, tt)))
runs_from-Ordered bits (suc left) index n e none h k s = elim (Bool-cases (is_set bits index)) [
  | inl held ↦
      rw held (runs_from-Ordered bits left (index + 1) n e none tt (omega arith) (omega arith))
  | inr missing ↦
      rw missing
        (runs_from-Ordered bits left (index + 1) n e (some index) (omega arith) k (omega arith))
]
runs_from-Ordered bits (suc left) index n e (some start) h k s =
    elim (Bool-cases (is_set bits index)) [
      | inl held ↦ rw held (
        k,
        (
          omega arith,
          (
            omega arith,
            runs_from-Ordered bits left (index + 1) n (start + (index - start)) none tt
                (omega arith) (omega arith),
          ),
        ),
      )
      | inr missing ↦
          rw missing
            (runs_from-Ordered bits left (index + 1) n e (some start) (omega arith) k (omega arith))
    ]

-- The gaps name the segments without a bit, each once and in order, and they are in order
-- themselves.
pub missing_ranges_from_bitmap_correct :
    (bits : List ℕ) (segment_count : ℕ)
    → (range_targets (missing_ranges_from_bitmap bits segment_count)
        ≡ missing_from bits segment_count 0)
      × Ordered segment_count 0 (missing_ranges_from_bitmap bits segment_count)
unfolding missing_ranges_from_bitmap
missing_ranges_from_bitmap_correct bits segment_count = (
  range_targets-runs_from bits segment_count 0 none tt,
  runs_from-Ordered bits segment_count 0 segment_count 0 none tt (omega arith) (omega arith),
)
