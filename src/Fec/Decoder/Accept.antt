-- ===== src/Fec/Decoder/Accept.antt =====
-- What SegmentDecoder (src/core/segment-decoder.ts) does with a symbol, and how it hands out the
-- segment. The rule `RepairNeighborFn` is a parameter. Exceptions are `none`.
pub mod Eliminate
pub mod Safety
pub mod Closed
pub mod Complete
pub mod Progress
use deqr.Common.{
  ℕ, suc, ◌+◌, ◌*◌, ◌/◌, ◌-◌, ◌^◌, List, [], ◌∷◌, ◌++◌, length, take, Option, none, some,
}
use deqr.Common.{
  Bool, true, false, not, ◌&&◌, ◌||◌, ltb, leb, ◌==◌, if◌then◌else◌, replicate, div_up,
}
use deqr.Fec.Equations.{lookup, includes}
use deqr.Fec.Decoder.{
  SegmentDecoderStats, SegmentDecoderLimits, PendingEquation, SegmentDecoder, is_solved,
  mark_solved, bytes_of, put_block, with_block, solve, store_equation, Rippling, ripple,
}

pub data SegmentAcceptStatus : Type 0 where
  source_placed repair_solved repair_pending duplicate redundant rejected : SegmentAcceptStatus

pub data SegmentRejectReason : Type 0 where
  symbol_id_out_of_range payload_length invalid_equation saturated closed : SegmentRejectReason

pub record SegmentAcceptResult : Type 0 where
  pub status : SegmentAcceptStatus
  pub solved : ℕ
  pub complete : Bool
  pub reason : Option SegmentRejectReason

unfoldable pub default_limits : ℕ → SegmentDecoderLimits
default_limits source_symbol_count = record {
  max_pending_equations = source_symbol_count;
  max_pending_neighbor_refs = 12 * source_symbol_count + 1024;
  max_tracked_repair_ids = 4 * source_symbol_count + 64;
}

abbrev pub no_stats : SegmentDecoderStats
no_stats = record {
  source_placed = 0;
  source_duplicates = 0;
  repair_accepted = 0;
  repair_duplicates = 0;
  repair_redundant = 0;
  repair_obsoleted = 0;
  repair_rejected = 0;
  repair_solved_symbols = 0;
  xor_bytes = 0;
  ripple_steps = 0;
}

-- A decoder that holds nothing yet.
abbrev pub empty_decoder : ℕ → ℕ → ℕ → SegmentDecoderLimits → SegmentDecoder
empty_decoder source_symbol_count symbol_size_bytes segment_bytes limits = record {
  source_symbol_count = source_symbol_count;
  symbol_size_bytes = symbol_size_bytes;
  segment_bytes = segment_bytes;
  limits = limits;
  store = some (replicate (source_symbol_count * symbol_size_bytes) 0);
  solved_bits = replicate ((source_symbol_count + 7) / 8) 0;
  solved_count = 0;
  closed = false;
  pending = [];
  dependents = [];
  pending_neighbor_refs = 0;
  seen_repair_ids = [];
  counters = no_stats;
}

-- The constructor, with the limits that the options and the defaults come to. `>> 3` is signed, so a
-- count plus 7 that reaches 2^31 gives the bitmap a length that is negative, which throws. The last
-- seven counts of a u32 wrap to a bitmap of no bytes; they are refused here too, as counts whose store
-- of 4 GiB or more is not allocated.
unfoldable pub new_decoder : ℕ → ℕ → ℕ → SegmentDecoderLimits → Option SegmentDecoder
new_decoder source_symbol_count symbol_size_bytes segment_bytes limits =
    if leb 1 source_symbol_count
      && leb source_symbol_count 0xffff_ffff
      && leb 1 symbol_size_bytes
      && leb 1 segment_bytes
      && leb segment_bytes (source_symbol_count * symbol_size_bytes)
      && div_up segment_bytes symbol_size_bytes == source_symbol_count
      && ltb (source_symbol_count + 7) (2 ^ 31)
    then some (empty_decoder source_symbol_count symbol_size_bytes segment_bytes limits)
    else none

abbrev pub is_complete : SegmentDecoder → Bool
is_complete d = d.solved_count == d.source_symbol_count

abbrev pub answer : SegmentDecoder → SegmentAcceptStatus → ℕ → SegmentDecoder × SegmentAcceptResult
answer d status solved =
    (d, record { status = status; solved = solved; complete = is_complete d; reason = none })

abbrev pub reject : SegmentDecoder → SegmentRejectReason → SegmentDecoder × SegmentAcceptResult
reject d reason =
    (d, record { status = rejected; solved = 0; complete = is_complete d; reason = some reason })

-- The answer after a ripple, with the symbol that started it.
abbrev pub rippled : Rippling → SegmentAcceptStatus → SegmentDecoder × SegmentAcceptResult
rippled r status = answer r.decoder status (1 + r.solved)

unfoldable pub place_source : SegmentDecoder → ℕ → List ℕ → SegmentDecoder
unfolding put_block mark_solved
place_source d symbol_id payload =
    let d = mark_solved (put_block d symbol_id payload) symbol_id in
    record d { counters = record d.counters { source_placed = d.counters.source_placed + 1 } }

unfoldable pub accept_source : SegmentDecoder → ℕ → List ℕ → SegmentDecoder × SegmentAcceptResult
unfolding place_source ripple
accept_source d symbol_id payload =
    if is_solved d symbol_id
    then answer
        (record d {
          counters = record d.counters { source_duplicates = d.counters.source_duplicates + 1 };
        })
        duplicate 0
    else rippled (ripple (place_source d symbol_id payload) symbol_id) source_placed

-- What is left of an equation when the known blocks are taken out.
pub record Elimination : Type 0 where
  pub residual : List ℕ
  pub unknown : List ℕ
  pub xor_bytes : ℕ

unfoldable pub eliminate : SegmentDecoder → List ℕ → Elimination → Elimination
unfolding with_block
eliminate d [] e = e
eliminate d (neighbor ∷ neighbors) e = eliminate d neighbors (
    if is_solved d neighbor
    then record e {
      residual = with_block d e.residual neighbor;
      xor_bytes = e.xor_bytes + d.symbol_size_bytes;
    }
    else record e { unknown = e.unknown ++ (neighbor ∷ []) })

unfoldable pub remember_repair_id : SegmentDecoder → ℕ → SegmentDecoder
remember_repair_id d symbol_id =
    if ltb (length d.seen_repair_ids) d.limits.max_tracked_repair_ids
    then record d { seen_repair_ids = d.seen_repair_ids ++ (symbol_id ∷ []) }
    else d

-- The equation by the number of its unknown symbols.
unfoldable pub use_equation :
    SegmentDecoder → ℕ → List ℕ → List ℕ → SegmentDecoder × SegmentAcceptResult
unfolding solve ripple store_equation
use_equation d symbol_id residual [] =
    answer
      (record d {
        counters = record d.counters { repair_redundant = d.counters.repair_redundant + 1 };
      })
      redundant 0
use_equation d symbol_id residual (index ∷ []) =
    rippled (ripple (solve d index residual) index) repair_solved
use_equation d symbol_id residual (one ∷ more ∷ rest) = (
  store_equation d
      (record { symbol_id = symbol_id; neighbors = one ∷ more ∷ rest; payload = residual }),
  record { status = repair_pending; solved = 0; complete = false; reason = none },
)

unfoldable pub admit_repair :
    SegmentDecoder → ℕ → List ℕ → List ℕ → SegmentDecoder × SegmentAcceptResult
unfolding remember_repair_id eliminate use_equation
admit_repair d symbol_id payload neighbors =
    let d = remember_repair_id d symbol_id in
    let e = eliminate d neighbors (record { residual = payload; unknown = []; xor_bytes = 0 }) in
    use_equation
      (record d {
        counters = record d.counters {
          repair_accepted = d.counters.repair_accepted + 1;
          xor_bytes = d.counters.xor_bytes + e.xor_bytes;
        };
      })
      symbol_id e.residual e.unknown

unfoldable pub all_below : List ℕ → ℕ → Bool
all_below [] bound = true
all_below (n ∷ ns) bound = ltb n bound && all_below ns bound

abbrev pub is_pending : Option PendingEquation → Bool
is_pending none = false
is_pending (some e) = true

abbrev pub refuse : SegmentDecoder → SegmentRejectReason → SegmentDecoder × SegmentAcceptResult
refuse d reason =
    reject
      (record d {
        counters = record d.counters { repair_rejected = d.counters.repair_rejected + 1 };
      })
      reason

unfoldable pub accept_repair :
    (ℕ → ℕ → List ℕ) → SegmentDecoder → ℕ → List ℕ → SegmentDecoder × SegmentAcceptResult
unfolding includes lookup all_below admit_repair
accept_repair neighbors_for d symbol_id payload =
    if includes d.seen_repair_ids symbol_id || is_pending (lookup d.pending symbol_id)
    then answer
        (record d {
          counters = record d.counters { repair_duplicates = d.counters.repair_duplicates + 1 };
        })
        duplicate 0
    else if leb d.limits.max_pending_equations (length d.pending)
        || leb d.limits.max_pending_neighbor_refs d.pending_neighbor_refs
    then refuse d saturated
    else let neighbors = neighbors_for symbol_id d.source_symbol_count in
      if leb 1 (length neighbors)
        && leb (length neighbors) d.source_symbol_count
        && all_below neighbors d.source_symbol_count
      then admit_repair d symbol_id payload neighbors
      else refuse d invalid_equation

-- heldBytes: the segment, the bitmap, and the equations
unfoldable pub held_bytes : SegmentDecoder → ℕ
held_bytes d =
    length (bytes_of d.store) + length d.solved_bits + length d.pending * d.symbol_size_bytes

abbrev pub is_absent : Option (List ℕ) → Bool
is_absent none = true
is_absent (some bytes) = false

unfoldable pub accept :
    (ℕ → ℕ → List ℕ) → SegmentDecoder → ℕ → List ℕ → SegmentDecoder × SegmentAcceptResult
unfolding accept_source accept_repair
accept neighbors_for d symbol_id payload =
    if d.closed || is_absent d.store
    then reject d closed
    else if is_complete d
    then answer d duplicate 0
    else if ltb 0xffff_ffff symbol_id
    then reject d symbol_id_out_of_range
    else if not (length payload == d.symbol_size_bytes)
    then reject d payload_length
    else if ltb symbol_id d.source_symbol_count
    then accept_source d symbol_id payload
    else accept_repair neighbors_for d symbol_id payload

abbrev pub whole_segment : SegmentDecoder → Option (List ℕ) → Option (List ℕ)
whole_segment d none = none
whole_segment d (some bytes) = if is_complete d then some (take d.segment_bytes bytes) else none

-- `none` where `segment()` throws
unfoldable pub segment : SegmentDecoder → Option (List ℕ)
segment d = whole_segment d d.store

unfoldable pub release : SegmentDecoder → SegmentDecoder
release d = record d {
  store = none;
  pending = [];
  dependents = [];
  seen_repair_ids = [];
  pending_neighbor_refs = 0;
  closed = true;
}

abbrev pub detached : SegmentDecoder → Option (List ℕ) → Option (SegmentDecoder × List ℕ)
detached d none = none
detached d (some bytes) = some (d, bytes)

unfoldable pub detach : SegmentDecoder → Option (SegmentDecoder × List ℕ)
unfolding segment release
detach d = detached (release d) (segment d)
