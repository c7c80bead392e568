-- ===== src/Fec/Decoder/Accept/Complete.antt =====
-- An answer of SegmentDecoder.accept that says `complete` (src/core/segment-decoder.ts), and the
-- segment that can then be taken.
use deqr.Common.{
  ℕ, ◌+◌, ◌≤◌, ◌≡◌, refl, arith, List, [], ◌∷◌, length, take, Option, none, some, true,
}
use deqr.Common.{if_both, ltb, leb, ◌==◌, ◌&&◌, ◌||◌, not}
use deqr.Fec.Equations.{lookup, includes}
use deqr.Fec.Decoder.{SegmentDecoder, bytes_of, is_solved}
use deqr.Fec.Decoder.Accept.{
  SegmentAcceptResult, is_complete, is_absent, is_pending, accept_source, use_equation,
  admit_repair, all_below, remember_repair_id, eliminate, accept_repair, accept, whole_segment,
  segment, detach, detached, release,
}

-- The answer says `complete` only of a complete decoder.
abbrev Tells : SegmentDecoder × SegmentAcceptResult → Type 0
Tells a = a.1.complete ≡ true → is_complete a.0 ≡ true

use_equation-Tells :
    (d : SegmentDecoder) (id : ℕ) (residual unknown : List ℕ)
    → Tells (use_equation d id residual unknown)
unfolding use_equation
use_equation-Tells d id residual [] h = h
use_equation-Tells d id residual (i ∷ []) h = h
use_equation-Tells d id residual (i ∷ j ∷ ns) h = absurd (cc)

admit_repair-Tells :
    (d : SegmentDecoder) (id : ℕ) (payload neighbors : List ℕ)
    → Tells (admit_repair d id payload neighbors)
unfolding admit_repair
admit_repair-Tells d id payload neighbors =
    let d = remember_repair_id d id in
    let e = eliminate d neighbors (record { residual = payload; unknown = []; xor_bytes = 0 }) in
    use_equation-Tells
      (record d {
        counters = record d.counters {
          repair_accepted = d.counters.repair_accepted + 1;
          xor_bytes = d.counters.xor_bytes + e.xor_bytes;
        };
      })
      id e.residual e.unknown

module _ (neighbors_for : ℕ → ℕ → List ℕ) where
  accept_repair-Tells :
      (d : SegmentDecoder) (id : ℕ) (payload : List ℕ)
      → Tells (accept_repair neighbors_for d id payload)
  unfolding accept_repair
  accept_repair-Tells d id payload =
      let ns = neighbors_for id d.source_symbol_count in
      if_both Tells (includes d.seen_repair_ids id || is_pending (lookup d.pending id)) (λ h. h)
        (if_both Tells
          (leb d.limits.max_pending_equations (length d.pending)
            || leb d.limits.max_pending_neighbor_refs d.pending_neighbor_refs)
          (λ h. h)
          (if_both Tells
            (leb 1 (length ns)
              && leb (length ns) d.source_symbol_count
              && all_below ns d.source_symbol_count)
            (admit_repair-Tells d id payload ns) (λ h. h)))

  pub accept-Tells :
      (d : SegmentDecoder) (id : ℕ) (payload : List ℕ) → Tells (accept neighbors_for d id payload)
  unfolding accept accept_source
  accept-Tells d id payload =
      if_both Tells (d.closed || is_absent d.store) (λ h. h)
        (if_both Tells (is_complete d) (λ h. h)
          (if_both Tells (ltb 0xffff_ffff id) (λ h. h)
            (if_both Tells (not (length payload == d.symbol_size_bytes)) (λ h. h)
              (if_both Tells (ltb id d.source_symbol_count)
                (if_both Tells (is_solved d id) (λ h. h) (λ h. h))
                (accept_repair-Tells d id payload)))))

-- A complete decoder that holds any bytes hands out its segment.
pub detach_complete :
    (d : SegmentDecoder)
    → 1 ≤ length (bytes_of d.store)
    → is_complete d ≡ true
    → (segment d ≡ some (take d.segment_bytes (bytes_of d.store)))
      × (detach d ≡ some (release d, take d.segment_bytes (bytes_of d.store)))
unfolding segment detach release
detach_complete d holds complete = taken d d.store holds complete
  where
    taken :
        (d : SegmentDecoder) (o : Option (List ℕ))
        → 1 ≤ length (bytes_of o)
        → is_complete d ≡ true
        → (whole_segment d o ≡ some (take d.segment_bytes (bytes_of o)))
          × (detached (release d) (whole_segment d o)
              ≡ some (release d, take d.segment_bytes (bytes_of o)))
    taken d none h k = absurd (omega arith)
    taken d (some bytes) h k = (rw k refl, rw k refl)
