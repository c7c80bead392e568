-- ===== src/Fec/Decoder/Accept/Safety.antt =====
-- A symbol that was sent keeps the segment decoder sound (accept of src/core/segment-decoder.ts).
use deqr.Common.{ℕ, ◌+◌, ◌≤◌, ◌<◌, ◌≡◌, refl, sym, ap, ◌∙◌, arith, List, [], ◌∷◌, length, All}
use deqr.Common.{
  Option, none, some, Bool, true, false, not, ◌||◌, ◌&&◌, leb, ltb, Bool-cases, inl, inr, if_both,
  if◌then◌else◌, length-replicate,
}
use native.Mathlib.Decide.{dec_lt}
use deqr.Common.{◌==◌, lt→ltb, le→ltb}
use mathlib.Core.Path.{subst}
use deqr.Protocol.Buffer.{zeros}
use deqr.Fec.Symbols.{xor_into}
use deqr.Fec.Symbols.Laws.{xor_of, xor_into_comm, xor_into-zeros}
use deqr.Fec.Equations.{lookup, includes}
use deqr.Fec.Equations.Laws.{count}
use deqr.Fec.Equations.Sum.{length-xor_of}
use deqr.Fec.Decoder.{
  PendingEquation, SegmentDecoder, SegmentDecoderStats, is_solved, mark_solved, put_block, solve,
}
use deqr.Fec.Decoder.Sound.{IsSound, put_mark-IsSound, put_mark_solved}
use deqr.Fec.Decoder.Settle.{recount-IsSound, solve-IsSound}
use deqr.Fec.Decoder.Loop.{ripple-IsDone}
use deqr.Fec.Decoder.Store.{store_equation-IsSound}
use deqr.Fec.Decoder.Accept.{
  Elimination, place_source, accept_source, eliminate, remember_repair_id, use_equation,
  admit_repair, all_below, SegmentAcceptResult, invalid_equation, is_absent, is_complete, refuse,
  accept_repair, accept, is_pending,
}
use deqr.Fec.Decoder.Accept.Eliminate.{eliminate-IsSplit, count-eliminate}

empty_count : (n : ℕ) → count [] n ≡ 0
unfolding count
empty_count n = refl

pub zeros_xor : (size : ℕ) (x : List ℕ) → length x ≡ size → xor_into (zeros size) x ≡ x
zeros_xor size x h =
    xor_into_comm (zeros size) x (length-replicate size 0 ∙ sym h) ∙ xor_into-zeros x size

pub or_right : (a b : Bool) → (a || b) ≡ false → b ≡ false
or_right false b h = h
or_right true b h = cc

pub and_right : (a b : Bool) → (a && b) ≡ true → b ≡ true
and_right true b h = h
and_right false b h = cc

pub not_pending : (o : Option PendingEquation) → is_pending o ≡ false → o ≡ none
not_pending none h = refl
not_pending (some e) h = cc

module _ (k size total : ℕ) (sent : ℕ → List ℕ) (sized : (n : ℕ) → length (sent n) ≡ size) where
  pub place_source-IsSound :
      (d : SegmentDecoder) (i : ℕ) (payload : List ℕ)
      → IsSound k size total sent d
      → i < k
      → payload ≡ sent i
      → is_solved d i ≡ false
      → IsSound k size total sent (place_source d i payload)
  unfolding place_source
  place_source-IsSound d i payload s lt right new =
      let marked = mark_solved (put_block d i payload) i in
      recount-IsSound k size total sent sized marked
        (record marked.counters { source_placed = marked.counters.source_placed + 1 })
        (put_mark-IsSound k size total sent d i payload s lt (ap length right ∙ sized i) right new)

  accept_source-IsSound :
      (d : SegmentDecoder) (i : ℕ) (payload : List ℕ)
      → IsSound k size total sent d
      → i < k
      → payload ≡ sent i
      → IsSound k size total sent (accept_source d i payload).0
  unfolding accept_source
  accept_source-IsSound d i payload s lt right = elim (Bool-cases (is_solved d i)) [
    | inl held ↦ rw held (recount-IsSound k size total sent sized d _ s)
    | inr new ↦
        rw new
          (ripple-IsDone k size total sent sized (place_source d i payload) i
            (place_source-IsSound d i payload s lt right new) lt
            (unfold place_source in put_mark_solved k size total sent d i payload s lt)).sound
  ]

  -- An equation whose unknown blocks are distinct and new is used.
  use_equation-IsSound :
      (d : SegmentDecoder) (id : ℕ) (residual : List ℕ) (unknown : List ℕ)
      → IsSound k size total sent d
      → lookup d.pending id ≡ none
      → residual ≡ xor_of size sent unknown
      → All (λ n. (n < k) × (is_solved d n ≡ false)) unknown
      → ((n : ℕ) → count unknown n ≤ 1)
      → IsSound k size total sent (use_equation d id residual unknown).0
  unfolding use_equation
  use_equation-IsSound d id residual [] s new holds unknowns distinct =
      recount-IsSound k size total sent sized d _ s
  use_equation-IsSound d id residual (i ∷ []) s new holds ((lt, unsolved), u) distinct =
      let right : residual ≡ sent i = holds ∙ xor_into-zeros (sent i) size in
      (ripple-IsDone k size total sent sized (solve d i residual) i
        (solve-IsSound k size total sent sized d i residual s lt right unsolved) lt
        (unfold solve in put_mark_solved k size total sent d i residual s lt)).sound
  use_equation-IsSound d id residual (i ∷ j ∷ ns) s new holds unknowns distinct =
      store_equation-IsSound k size total sent d
        (record { symbol_id = id; neighbors = i ∷ j ∷ ns; payload = residual }) s new
        (record { numbered = refl; named = in_range (i ∷ j ∷ ns) unknowns; holds = holds }) distinct
    where
      in_range :
          (ns : List ℕ) → All (λ n. (n < k) × (is_solved d n ≡ false)) ns → All (λ n. n < k) ns
      in_range [] h = tt
      in_range (n ∷ ns) h = (h.0.0, in_range ns h.1)

  remember-IsSound :
      (d : SegmentDecoder) (id : ℕ)
      → IsSound k size total sent d
      → IsSound k size total sent (remember_repair_id d id)
        × (lookup (remember_repair_id d id).pending id ≡ lookup d.pending id)
  unfolding remember_repair_id
  remember-IsSound d id s =
      if_both
        (λ (d' : SegmentDecoder).
          IsSound k size total sent d' × (lookup d'.pending id ≡ lookup d.pending id))
        (ltb (length d.seen_repair_ids) d.limits.max_tracked_repair_ids)
        (
          record {
            count_is = s.count_is;
            bytes_is = s.bytes_is;
            size_is = s.size_is;
            not_closed = s.not_closed;
            store_size = s.store_size;
            bitmap = s.bitmap;
            bitmap_size = s.bitmap_size;
            tallied = s.tallied;
            known = s.known;
            equations = s.equations;
            referring = s.referring;
          },
          refl,
        )
        (s, refl)

  pub all_below-All : (ns : List ℕ) → all_below ns k ≡ true → All (λ n. n < k) ns
  unfolding all_below
  all_below-All [] h = tt
  all_below-All (n ∷ ns) h = (ground arith, all_below-All ns (ground arith))

  -- What `admit_repair` passes on: the decoder, and the equation without the known blocks.
  abbrev pub admitting : SegmentDecoder → ℕ → List ℕ → List ℕ → SegmentDecoder × Elimination
  admitting d id payload ns =
      let d = remember_repair_id d id in
      let e = eliminate d ns (record { residual = payload; unknown = []; xor_bytes = 0 }) in
      (
        record d {
          counters = record d.counters {
            repair_accepted = d.counters.repair_accepted + 1;
            xor_bytes = d.counters.xor_bytes + e.xor_bytes;
          };
        },
        e,
      )

  -- An equation that can be used: its unknown blocks are distinct and new.
  pub record IsUsable (id : ℕ) (a : SegmentDecoder × Elimination) : Type 0 where
    pub sound : IsSound k size total sent a.0
    pub fresh : lookup a.0.pending id ≡ none
    pub holds : a.1.residual ≡ xor_of size sent a.1.unknown
    pub unknowns : All (λ n. (n < k) × (is_solved a.0 n ≡ false)) a.1.unknown
    pub once : (n : ℕ) → count a.1.unknown n ≤ 1

  pub admitting-IsUsable :
      (d : SegmentDecoder) (id : ℕ) (payload ns : List ℕ)
      → IsSound k size total sent d
      → lookup d.pending id ≡ none
      → payload ≡ xor_of size sent ns
      → All (λ n. n < k) ns
      → ((n : ℕ) → count ns n ≤ 1)
      → IsUsable id (admitting d id payload ns)
  admitting-IsUsable d id payload ns s new holds range distinct =
      let d1 = remember_repair_id d id in
      let (s1, same) = remember-IsSound d id s in
      let start : Elimination = record { residual = payload; unknown = []; xor_bytes = 0 } in
      let e = eliminate d1 ns start in
      let none_known = length-xor_of size sent sized ns in
      let split = eliminate-IsSplit k size total sent sized d1 s1 ns start (record {
        adds_up = holds ∙ sym (zeros_xor size (xor_of size sent ns) none_known);
        unknowns = tt;
        range = range;
      }) in
      let c : SegmentDecoderStats = record d1.counters {
        repair_accepted = d1.counters.repair_accepted + 1;
        xor_bytes = d1.counters.xor_bytes + e.xor_bytes;
      } in
      record {
        sound = recount-IsSound k size total sent sized d1 c s1;
        fresh = same ∙ new;
        holds = split.adds_up ∙ xor_into-zeros (xor_of size sent e.unknown) size;
        unknowns = split.unknowns;
        once = λ n. omega (
          arith,
          distinct n,
          count-eliminate k size total sent sized d1 ns start n,
          empty_count n,
        );
      }

  admit_repair-IsSound :
      (d : SegmentDecoder) (id : ℕ) (payload ns : List ℕ)
      → IsSound k size total sent d
      → lookup d.pending id ≡ none
      → payload ≡ xor_of size sent ns
      → All (λ n. n < k) ns
      → ((n : ℕ) → count ns n ≤ 1)
      → IsSound k size total sent (admit_repair d id payload ns).0
  unfolding admit_repair
  admit_repair-IsSound d id payload ns s new holds range distinct =
      let a = admitting d id payload ns in
      let u = admitting-IsUsable d id payload ns s new holds range distinct in
      use_equation-IsSound a.0 id a.1.residual a.1.unknown u.sound u.fresh u.holds u.unknowns u.once

  -- The rule that picks the blocks of a repair symbol, which names none twice.
  module _ (neighbors_for : ℕ → ℕ → List ℕ)
      (distinct : (id n : ℕ) → count (neighbors_for id k) n ≤ 1) where
    -- The equation is used if it is in range, and refused if not.
    admitted :
        (d : SegmentDecoder) (id : ℕ) (payload : List ℕ)
        → IsSound k size total sent d
        → payload ≡ xor_of size sent (neighbors_for id k)
        → lookup d.pending id ≡ none
        → IsSound k size total sent
            (if leb 1 (length (neighbors_for id d.source_symbol_count))
                && leb (length (neighbors_for id d.source_symbol_count)) d.source_symbol_count
                && all_below (neighbors_for id d.source_symbol_count) d.source_symbol_count
              then admit_repair d id payload (neighbors_for id d.source_symbol_count)
              else refuse d invalid_equation).0
    admitted d id payload s right new =
        let ns = neighbors_for id d.source_symbol_count in
        let named : neighbors_for id k ≡ ns = ap (neighbors_for id) (sym s.count_is) in
        let in_range =
          leb 1 (length ns)
          && leb (length ns) d.source_symbol_count
          && all_below ns d.source_symbol_count in
        elim (Bool-cases in_range) [
          | inl q ↦ rw q (
              admit_repair-IsSound d id payload ns s new (right ∙ ap (xor_of size sent) named)
                (all_below-All ns (
                  subst (λ z. all_below ns z ≡ true) s.count_is
                    (and_right _ (all_below ns d.source_symbol_count) q)))
                (λ n. subst (λ z. count z n ≤ 1) named (distinct id n)))
          | inr q ↦ rw q (recount-IsSound k size total sent sized d _ s)
        ]

    accept_repair-IsSound :
        (d : SegmentDecoder) (id : ℕ) (payload : List ℕ)
        → IsSound k size total sent d
        → payload ≡ xor_of size sent (neighbors_for id k)
        → IsSound k size total sent (accept_repair neighbors_for d id payload).0
    unfolding accept_repair
    accept_repair-IsSound d id payload s right =
        let seen = includes d.seen_repair_ids id || is_pending (lookup d.pending id) in
        elim (Bool-cases seen) [
          | inl e ↦ rw e (recount-IsSound k size total sent sized d _ s)
          | inr e ↦ rw e (
              if_both (λ (a : SegmentDecoder × SegmentAcceptResult). IsSound k size total sent a.0)
                (leb d.limits.max_pending_equations (length d.pending)
                  || leb d.limits.max_pending_neighbor_refs d.pending_neighbor_refs)
                (recount-IsSound k size total sent sized d _ s)
                (admitted d id payload s right
                  (not_pending _ (or_right (includes d.seen_repair_ids id) _ e))))
        ]

    -- A decoder that holds only what was sent, and true equations, still does so after it has
    -- accepted any symbol that was sent, source or repair, in any order, and for any limits.
    pub accept-IsSound :
        (d : SegmentDecoder) (id : ℕ) (payload : List ℕ)
        → IsSound k size total sent d
        → (id < k → payload ≡ sent id)
        → (k ≤ id → payload ≡ xor_of size sent (neighbors_for id k))
        → IsSound k size total sent (accept neighbors_for d id payload).0
    unfolding accept
    accept-IsSound d id payload s source repair =
        let P = λ (a : SegmentDecoder × SegmentAcceptResult). IsSound k size total sent a.0 in
        if_both P (d.closed || is_absent d.store) s (
          if_both P (is_complete d) s (
            if_both P (ltb 0xffff_ffff id) s (
              if_both P (not (length payload == d.symbol_size_bytes)) s
                (elim (dec_lt id d.source_symbol_count) [
                  | yes below ↦ rw (lt→ltb _ _ below) (
                      accept_source-IsSound d id payload s (omega (arith, s.count_is))
                        (source (omega (arith, s.count_is))))
                  | no above ↦
                      rw (le→ltb id d.source_symbol_count (omega arith))
                        (accept_repair-IsSound d id payload s (repair (omega (arith, s.count_is))))
                ]))))
