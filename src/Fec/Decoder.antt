-- ===== src/Fec/Decoder.antt =====
-- The state of SegmentDecoder and how a solved symbol resolves stored equations
-- (src/core/segment-decoder.ts). The counter `pendingNeighborRefs` is a natural here, so that its
-- subtractions stop at 0.
pub mod Accept
pub mod Sound
pub mod Refers
pub mod Steps
pub mod Settle
pub mod Loop
pub mod Store
pub mod Blocks
pub mod Bitmap
use deqr.Common.{
  ℕ, zero, suc, ◌+◌, ◌-◌, ◌*◌, ◌/◌, ◌%◌, ◌^◌, List, [], ◌∷◌, ◌++◌, length, get_or, set,
}
use deqr.Common.{Option, none, some, Bool, true, false, not, ◌==◌, if◌then◌else◌, bit_and, bit_or}
use deqr.Protocol.Buffer.{write}
use deqr.Fec.Symbols.{xor_into, block_at}
use deqr.Fec.Equations.{lookup, delete, insert, swap_remove}

-- The counters of `stats()`, without the two that it reads off the state.
pub record SegmentDecoderStats : Type 0 where
  pub source_placed : ℕ
  pub source_duplicates : ℕ
  pub repair_accepted : ℕ
  pub repair_duplicates : ℕ
  pub repair_redundant : ℕ
  pub repair_obsoleted : ℕ
  pub repair_rejected : ℕ
  pub repair_solved_symbols : ℕ
  pub xor_bytes : ℕ
  pub ripple_steps : ℕ

pub record SegmentDecoderLimits : Type 0 where
  pub max_pending_equations : ℕ
  pub max_pending_neighbor_refs : ℕ
  pub max_tracked_repair_ids : ℕ

pub record PendingEquation : Type 0 where
  pub symbol_id : ℕ
  pub neighbors : List ℕ
  pub payload : List ℕ

pub record SegmentDecoder : Type 0 where
  pub source_symbol_count : ℕ
  pub symbol_size_bytes : ℕ
  pub segment_bytes : ℕ
  pub limits : SegmentDecoderLimits
  pub store : Option (List ℕ)
  pub solved_bits : List ℕ
  pub solved_count : ℕ
  pub closed : Bool
  pub pending : List (ℕ × PendingEquation)
  pub dependents : List (ℕ × List ℕ)
  pub pending_neighbor_refs : ℕ
  pub seen_repair_ids : List ℕ
  pub counters : SegmentDecoderStats

-- The bit of a symbol in the bitmap, for indices that a 32-bit shift keeps.
unfoldable pub is_set : List ℕ → ℕ → Bool
is_set bits index = not (bit_and (get_or bits (index / 8) 0) (2 ^ (index % 8)) == 0)

unfoldable pub set_bit : List ℕ → ℕ → List ℕ
set_bit bits index =
    set bits (index / 8) (bit_or (get_or bits (index / 8) 0) (2 ^ (index % 8)) % 256)

abbrev pub is_solved : SegmentDecoder → ℕ → Bool
is_solved d index = is_set d.solved_bits index

unfoldable pub mark_solved : SegmentDecoder → ℕ → SegmentDecoder
mark_solved d index = record d {
  solved_bits = set_bit d.solved_bits index;
  solved_count = d.solved_count + 1;
}

-- this.store!, which is there while the decoder is not closed
abbrev pub bytes_of : Option (List ℕ) → List ℕ
bytes_of none = []
bytes_of (some bytes) = bytes

-- store.set(block, index * symbolSizeBytes)
unfoldable pub put_block : SegmentDecoder → ℕ → List ℕ → SegmentDecoder
put_block d index block = record d {
  store = some (write (bytes_of d.store) (index * d.symbol_size_bytes) block);
}

-- The body of xorBlockInto, without its counter.
unfoldable pub with_block : SegmentDecoder → List ℕ → ℕ → List ℕ
with_block d target index = xor_into target (block_at (bytes_of d.store) d.symbol_size_bytes index)

-- A symbol that is written and marked. solveWith and the ripple do so, and count it.
unfoldable pub solve : SegmentDecoder → ℕ → List ℕ → SegmentDecoder
unfolding put_block mark_solved
solve d index block =
    let d = mark_solved (put_block d index block) index in
    record d {
      counters = record d.counters { repair_solved_symbols = d.counters.repair_solved_symbols + 1 };
    }

-- dependents.get(neighbor).push(id), or a new entry
abbrev pub pushed : Option (List ℕ) → ℕ → List ℕ
pushed none id = id ∷ []
pushed (some referring) id = referring ++ (id ∷ [])

unfoldable pub refer : List (ℕ × List ℕ) → ℕ → List ℕ → List (ℕ × List ℕ)
refer dependents id [] = dependents
refer dependents id (neighbor ∷ neighbors) =
    refer (insert dependents neighbor (pushed (lookup dependents neighbor) id)) id neighbors

unfoldable pub store_equation : SegmentDecoder → PendingEquation → SegmentDecoder
unfolding refer
store_equation d equation = record d {
  pending = insert d.pending equation.symbol_id equation;
  pending_neighbor_refs = d.pending_neighbor_refs + length equation.neighbors;
  dependents = refer d.dependents equation.symbol_id equation.neighbors;
}

-- An entry of `dependents` from which an id is removed, and which goes when it is empty.
unfoldable pub keep_referring : List (ℕ × List ℕ) → ℕ → List ℕ → List (ℕ × List ℕ)
keep_referring dependents neighbor [] = delete dependents neighbor
keep_referring dependents neighbor (id ∷ ids) = insert dependents neighbor (id ∷ ids)

unfoldable pub unrefer_one : List (ℕ × List ℕ) → ℕ → ℕ → Option (List ℕ) → List (ℕ × List ℕ)
unfolding keep_referring
unrefer_one dependents id neighbor none = dependents
unrefer_one dependents id neighbor (some referring) =
    keep_referring dependents neighbor (swap_remove referring id)

unfoldable pub unrefer : List (ℕ × List ℕ) → ℕ → List ℕ → List (ℕ × List ℕ)
unfolding unrefer_one
unrefer dependents id [] = dependents
unrefer dependents id (neighbor ∷ neighbors) =
    unrefer (unrefer_one dependents id neighbor (lookup dependents neighbor)) id neighbors

unfoldable pub drop_equation : SegmentDecoder → PendingEquation → SegmentDecoder
unfolding unrefer
drop_equation d equation = record d {
  pending = delete d.pending equation.symbol_id;
  pending_neighbor_refs = d.pending_neighbor_refs - length equation.neighbors;
  dependents = unrefer d.dependents equation.symbol_id equation.neighbors;
}

-- What the ripple does with an equation that has lost a neighbour: the new state, and the symbols
-- that go on the queue.
unfoldable pub settle : SegmentDecoder → PendingEquation → List ℕ → SegmentDecoder × List ℕ
unfolding drop_equation solve
settle d equation [] = (
  record d {
    pending = delete d.pending equation.symbol_id;
    counters = record d.counters { repair_obsoleted = d.counters.repair_obsoleted + 1 };
  },
  [],
)
settle d equation (remaining ∷ []) =
    let d = drop_equation d equation in
    if is_solved d remaining then (d, []) else (solve d remaining equation.payload, remaining ∷ [])
settle d equation (one ∷ more ∷ neighbors) = (d, [])

-- An equation without a block that is now known.
unfoldable pub reduced : SegmentDecoder → ℕ → PendingEquation → PendingEquation
unfolding with_block
reduced d block_index equation = record equation {
  payload = with_block d equation.payload block_index;
  neighbors = swap_remove equation.neighbors block_index;
}

unfoldable pub reduce_equation : SegmentDecoder → PendingEquation → SegmentDecoder
reduce_equation d equation = record d {
  pending = insert d.pending equation.symbol_id equation;
  pending_neighbor_refs = d.pending_neighbor_refs - 1;
  counters = record d.counters {
    ripple_steps = d.counters.ripple_steps + 1;
    xor_bytes = d.counters.xor_bytes + d.symbol_size_bytes;
  };
}

-- the body of the loop over the equations that name a block
unfoldable pub ripple_found : SegmentDecoder → ℕ → Option PendingEquation → SegmentDecoder × List ℕ
unfolding settle reduced reduce_equation
ripple_found d block_index none = (d, [])
ripple_found d block_index (some equation) =
    let equation = reduced d block_index equation in
    settle (reduce_equation d equation) equation equation.neighbors

unfoldable pub ripple_equation : SegmentDecoder → ℕ → ℕ → SegmentDecoder × List ℕ
unfolding ripple_found
ripple_equation d block_index id = ripple_found d block_index (lookup d.pending id)

-- The loop itself. The queue is a stack whose top is its first entry.
pub record Rippling : Type 0 where
  pub decoder : SegmentDecoder
  pub queue : List ℕ
  pub solved : ℕ

unfoldable pub ripple_referring : Rippling → ℕ → List ℕ → Rippling
unfolding ripple_equation
ripple_referring r block_index [] = r
ripple_referring r block_index (id ∷ ids) =
    let (d, found) = ripple_equation r.decoder block_index id in
    ripple_referring
      (record { decoder = d; queue = found ++ r.queue; solved = r.solved + length found })
      block_index ids

unfoldable pub ripple_block : Rippling → ℕ → Option (List ℕ) → Rippling
unfolding ripple_referring
ripple_block r block_index none = r
ripple_block r block_index (some referring) =
    ripple_referring
      (record r {
        decoder = record r.decoder { dependents = delete r.decoder.dependents block_index };
      })
      block_index referring

-- The loop while the queue is not empty, on fuel. What is left in the queue is returned.
unfoldable pub ripple_loop : ℕ → SegmentDecoder → List ℕ → ℕ → Rippling
unfolding ripple_block
ripple_loop fuel d [] solved = record { decoder = d; queue = []; solved = solved }
ripple_loop zero d (index ∷ queue) solved = record {
  decoder = d;
  queue = index ∷ queue;
  solved = solved;
}
ripple_loop (suc fuel) d (index ∷ queue) solved =
    let r =
      ripple_block (record { decoder = d; queue = queue; solved = solved }) index
        (lookup d.dependents index) in
    ripple_loop fuel r.decoder r.queue r.solved

-- On as much fuel as there are source symbols, and one more.
unfoldable pub ripple : SegmentDecoder → ℕ → Rippling
unfolding ripple_loop
ripple d solved_index = ripple_loop (d.source_symbol_count + 1) d (solved_index ∷ []) 0
