-- ===== src/Fec/Encoder.antt =====
-- SegmentEncoder of src/core/segment-encoder.ts. The rule that picks the source symbols of a repair
-- symbol, `RepairNeighborFn`, is a parameter, as it is for the constructor of the source; an exception
-- is `none`. The degree distribution that the source keeps beside the segment belongs to that rule.
pub mod Symbols
use deqr.Common.{
  ℕ, ◌+◌, ◌-◌, ◌*◌, List, [], ◌∷◌, length, take, drop, min, Option, none, some, div_up,
}
use deqr.Common.{ltb, leb, ◌==◌, if◌then◌else◌, not, Bool, true, false}
use deqr.Protocol.Buffer.{zeros, write}
use deqr.Fec.Symbols.{xor_into}

pub record SegmentEncoder : Type 0 where
  pub segment : Option (List ℕ)
  pub symbols : ℕ
  pub symbol_size_bytes : ℕ

-- the constructor
unfoldable pub new_encoder : ℕ → Option SegmentEncoder
new_encoder symbol_size_bytes =
    if leb 1 symbol_size_bytes
    then some (record { segment = none; symbols = 0; symbol_size_bytes = symbol_size_bytes })
    else none

unfoldable pub load_segment : SegmentEncoder → List ℕ → Option SegmentEncoder
load_segment encoder segment_bytes =
    if leb 1 (length segment_bytes)
    then some (record encoder {
      segment = some segment_bytes;
      symbols = div_up (length segment_bytes) encoder.symbol_size_bytes;
    })
    else none

unfoldable pub release : SegmentEncoder → SegmentEncoder
release encoder = record encoder { segment = none; symbols = 0 }

-- segment.subarray(start, end) of copySourceSymbol and xorSourceSymbol
unfoldable pub source_bytes : List ℕ → ℕ → ℕ → List ℕ
source_bytes segment size index =
    let start = index * size in
    let end = min (start + size) (length segment) in take (end - start) (drop start segment)

unfoldable pub copy_source_symbol : List ℕ → ℕ → ℕ → List ℕ → List ℕ
unfolding write source_bytes
copy_source_symbol segment size index out = write out 0 (source_bytes segment size index)

unfoldable pub xor_source_symbol : List ℕ → ℕ → ℕ → List ℕ → List ℕ
unfolding xor_into source_bytes
xor_source_symbol segment size index out = xor_into out (source_bytes segment size index)

-- the loop over the neighbours
unfoldable pub xor_source_symbols : List ℕ → ℕ → List ℕ → List ℕ → List ℕ
unfolding xor_source_symbol
xor_source_symbols segment size [] out = out
xor_source_symbols segment size (neighbor ∷ neighbors) out =
    xor_source_symbols segment size neighbors (xor_source_symbol segment size neighbor out)

unfoldable pub symbol_of : (ℕ → ℕ → List ℕ) → SegmentEncoder → List ℕ → ℕ → List ℕ
unfolding copy_source_symbol xor_source_symbols
symbol_of neighbors_for encoder segment symbol_id =
    let size = encoder.symbol_size_bytes in
    if ltb symbol_id encoder.symbols
    then copy_source_symbol segment size symbol_id (zeros size)
    else xor_source_symbols segment size (neighbors_for symbol_id encoder.symbols) (zeros size)

-- The buffer `out` is cleared, so that only its length counts.
unfoldable pub symbol_into : (ℕ → ℕ → List ℕ) → SegmentEncoder → ℕ → List ℕ → Option (List ℕ)
unfolding symbol_of
symbol_into neighbors_for encoder symbol_id out = elim encoder.segment [
  | none ↦ none
  | some segment ↦
      if length out == encoder.symbol_size_bytes
      then some (symbol_of neighbors_for encoder segment symbol_id)
      else none
]
