-- ===== src/Resume/Ranges.antt =====
-- The gaps that a receiver has, and how a token holds them (src/core/resume-token.ts).
pub mod Bitmap
pub mod Varint
pub mod Packed
use deqr.Common.{ℕ, zero, suc, ◌+◌, ◌-◌, ◌*◌, ◌/◌, ◌%◌, List, [], ◌∷◌, ◌++◌, length}
use deqr.Common.{Option, none, some, Bool, true, false, ◌||◌, ltb, leb, ◌==◌, if◌then◌else◌}
use deqr.Fec.Decoder.{is_set}
use deqr.Session.Setup.{or_else}

pub record MissingRange : Type 0 where
  pub start : ℕ
  pub length : ℕ

-- The loop of missingRangesFromBitmap, `left` segments before its end. The run that is open is
-- `none` for the source's -1.
unfoldable pub runs_from : List ℕ → ℕ → ℕ → Option ℕ → List MissingRange
runs_from bits zero index none = []
runs_from bits zero index (some start) = record { start = start; length = index - start } ∷ []
runs_from bits (suc left) index none =
    runs_from bits left (index + 1) (if is_set bits index then none else some index)
runs_from bits (suc left) index (some start) =
    let ended = runs_from bits left (index + 1) none in
    let going = runs_from bits left (index + 1) (some start) in
    if is_set bits index then record { start = start; length = index - start } ∷ ended else going

unfoldable pub missing_ranges_from_bitmap : List ℕ → ℕ → List MissingRange
unfolding runs_from is_set
missing_ranges_from_bitmap bits segment_count = runs_from bits segment_count 0 none

-- What writeVarint appends. Eight rounds are enough for a number below 2^56.
unfoldable pub varint_from : ℕ → ℕ → List ℕ
varint_from zero remaining = (remaining % 128) ∷ []
varint_from (suc fuel) remaining =
    let rest = varint_from fuel (remaining / 128) in
    if leb 0x80 remaining then (remaining % 128 + 128) ∷ rest else (remaining % 128) ∷ []

unfoldable pub write_varint : ℕ → List ℕ
unfolding varint_from
write_varint value = varint_from 8 value

-- The loop of readVarint over the bytes from its cursor on: the value, and the bytes behind it.
unfoldable pub varint_in : ℕ → ℕ → ℕ → List ℕ → Option (ℕ × List ℕ)
varint_in zero shift value bytes = none
varint_in (suc step) shift value [] = none
varint_in (suc step) shift value (byte ∷ bytes) =
    let value = value + byte % 128 * shift in
    let rest = varint_in step (shift * 128) value bytes in
    if ltb byte 128 then some (value, bytes) else rest

unfoldable pub read_varint : List ℕ → Option (ℕ × List ℕ)
unfolding varint_in
read_varint bytes = varint_in 5 1 0 bytes

abbrev pub max_resume_ranges : ℕ
max_resume_ranges = 7

abbrev pub resume_range_blob_bytes : ℕ
resume_range_blob_bytes = 14

unfoldable pub pack_from : ℕ → List ℕ → List MissingRange → Option (List ℕ)
pack_from previous_end blob [] = some blob
pack_from previous_end blob (range ∷ ranges) =
    let blob =
      blob ++ write_varint (range.start - previous_end) ++ write_varint (range.length - 1) in
    let rest = pack_from (range.start + range.length) blob ranges in
    if ltb range.start previous_end || ltb range.length 1
    then none
    else if ltb resume_range_blob_bytes (length blob)
    then none
    else rest

unfoldable pub pack_ranges : List MissingRange → Option (List ℕ)
pack_ranges ranges =
    if length ranges == 0 || ltb max_resume_ranges (length ranges)
    then none
    else pack_from 0 [] ranges

-- One turn of the loop of unpackRanges: a gap and a run.
unfoldable pub next_range : ℕ → ℕ → List ℕ → Option (MissingRange × List ℕ)
next_range segment_count previous_end blob = elim (read_varint blob) [
  | none ↦ none
  | some gap ↦ elim (read_varint gap.1) [
    | none ↦ none
    | some run ↦
        if ltb (previous_end + gap.0) previous_end || ltb (run.0 + 1) 1
        then none
        else if ltb segment_count (previous_end + gap.0 + (run.0 + 1))
        then none
        else some (record { start = previous_end + gap.0; length = run.0 + 1 }, run.1)
  ]
]

-- The loop itself. A turn takes two bytes at least, so the length of the blob is fuel enough.
unfoldable pub unpack_from : ℕ → ℕ → ℕ → List MissingRange → List ℕ → Option (List MissingRange)
unpack_from fuel segment_count previous_end ranges [] = some ranges
unpack_from zero segment_count previous_end ranges (byte ∷ bytes) = none
unpack_from (suc fuel) segment_count previous_end ranges (byte ∷ bytes) =
    elim (next_range segment_count previous_end (byte ∷ bytes)) [
      | none ↦ none
      | some next ↦
          let range = next.0 in
          let rest =
            unpack_from fuel segment_count (range.start + range.length) (ranges ++ (range ∷ []))
              next.1 in
          if ltb max_resume_ranges (length ranges + 1) then none else rest
    ]

unfoldable pub unpack_ranges : List ℕ → ℕ → Option (List MissingRange)
unpack_ranges blob segment_count = unpack_from (length blob) segment_count 0 [] blob

unfoldable pub describes_a_trailing_run : List MissingRange → ℕ → Bool
describes_a_trailing_run [] segment_count = true
describes_a_trailing_run (range ∷ []) segment_count = leb segment_count (range.start + range.length)
describes_a_trailing_run (range ∷ second ∷ ranges) segment_count = false

-- The segments of the gaps, one loop in the other, and those from a place on.
unfoldable pub indices : ℕ → ℕ → List ℕ
indices zero index = []
indices (suc left) index = index ∷ indices left (index + 1)

unfoldable pub range_targets : List MissingRange → List ℕ
unfolding indices
range_targets [] = []
range_targets (range ∷ ranges) = indices range.length range.start ++ range_targets ranges
