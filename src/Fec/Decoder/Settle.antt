-- ===== src/Fec/Decoder/Settle.antt =====
-- What becomes of an equation that has lost a neighbour keeps the segment decoder sound (the ripple
-- of src/core/segment-decoder.ts).
use deqr.Common.{ℕ, ◌+◌, ◌≤◌, ◌<◌, ◌≡◌, ◌≢◌, refl, sym, ap, ◌∙◌, arith, List, [], ◌∷◌, length, All}
use deqr.Common.{some, true, false, Bool-cases, inl, inr}
use mathlib.Core.Path.{subst}
use deqr.Fec.Symbols.Laws.{xor_of, xor_into-zeros}
use deqr.Fec.Equations.{lookup, delete}
use deqr.Fec.Equations.Laws.{count, one_same, delete_all}
use deqr.Fec.Decoder.{
  PendingEquation, SegmentDecoder, SegmentDecoderStats, is_solved, mark_solved, put_block, solve,
  unrefer_one, unrefer, drop_equation, settle, reduced, reduce_equation, ripple_found,
  ripple_equation,
}
use deqr.Fec.Decoder.Sound.{
  Refers, IsTrue, IsSound, Grows, put_mark-IsSound, put_mark-Grows, put_mark_solved,
}
use deqr.Fec.Decoder.Refers.{
  Refers-delete_absent, Refers-absent, unrefer_one-Refers, unrefer_one-none,
}
use deqr.Fec.Decoder.Steps.{IsMid, reduce_equation-IsMid, one_ne}

only_one : (r n : ℕ) → r ≢ n → count (r ∷ []) n ≡ 0
unfolding count
only_one r n ne = omega (arith, one_ne r n ne)

module _ (k size total : ℕ) (sent : ℕ → List ℕ) (sized : (n : ℕ) → length (sent n) ≡ size) where
  abbrev pub Known : SegmentDecoder → ℕ → Type 0
  Known d i = (i < k) × (is_solved d i ≡ true)

  -- A step from one state to another that puts symbols on the queue.
  pub record IsStep (d d' : SegmentDecoder) (b : ℕ) (ids found : List ℕ) : Type 0 where
    pub mid : IsMid k size total sent sized d' b ids
    pub grows : Grows k size total sent d d'
    pub counted : d'.solved_count ≡ d.solved_count + length found
    pub found_known : All (Known d') found

  -- The counters do not count for soundness.
  pub recount-IsSound :
      (d : SegmentDecoder) (c : SegmentDecoderStats)
      → IsSound k size total sent d
      → IsSound k size total sent (record d { counters = c })
  recount-IsSound d c s = record {
    count_is = s.count_is;
    bytes_is = s.bytes_is;
    size_is = s.size_is;
    not_closed = s.not_closed;
    store_size = s.store_size;
    bitmap = s.bitmap;
    bitmap_size = s.bitmap_size;
    tallied = s.tallied;
    known = s.known;
    equations = s.equations;
    referring = s.referring;
  }

  pub solve-IsSound :
      (d : SegmentDecoder) (i : ℕ) (block : List ℕ)
      → IsSound k size total sent d
      → i < k
      → block ≡ sent i
      → is_solved d i ≡ false
      → IsSound k size total sent (solve d i block)
  unfolding solve
  solve-IsSound d i block s lt right new =
      let marked = mark_solved (put_block d i block) i in
      recount-IsSound marked
        (record marked.counters {
          repair_solved_symbols = marked.counters.repair_solved_symbols + 1;
        })
        (put_mark-IsSound k size total sent d i block s lt (ap length right ∙ sized i) right new)

  -- The equation `e`, stored under `id`, is settled while the equations of block `b` are visited.
  module _ (d : SegmentDecoder) (b id : ℕ) (ids : List ℕ) (e : PendingEquation)
      (m : IsMid k size total sent sized d b ids) (found : lookup d.pending id ≡ some e)
      (true_e : IsTrue k size total sent id e) (absent : count ids id ≡ 0) where
    key : delete d.pending e.symbol_id ≡ delete d.pending id
    key = ap (delete d.pending) true_e.numbered

    left_after : Refers (delete d.pending e.symbol_id) b ids
    left_after =
        subst (λ z. Refers z b ids) (sym key)
          (Refers-delete_absent d.pending b ids id m.left absent)

    equations_after :
        (j : ℕ) (f : PendingEquation)
        → lookup (delete d.pending e.symbol_id) j ≡ some f
        → IsTrue k size total sent j f
    equations_after j f h =
        delete_all (IsTrue k size total sent) d.pending id m.sound.equations j f
          (subst (λ z. lookup z j ≡ some f) key h)

    settle_none : e.neighbors ≡ [] → IsStep d (settle d e []).0 b ids (settle d e []).1
    unfolding settle
    settle_none empty = record {
      mid = record {
        sound = record {
          count_is = m.sound.count_is;
          bytes_is = m.sound.bytes_is;
          size_is = m.sound.size_is;
          not_closed = m.sound.not_closed;
          store_size = m.sound.store_size;
          bitmap = m.sound.bitmap;
          bitmap_size = m.sound.bitmap_size;
          tallied = m.sound.tallied;
          known = m.sound.known;
          equations = equations_after;
          referring = λ n is h.
              subst (λ z. Refers z n is) (sym key)
                (Refers-delete_absent d.pending n is id (m.sound.referring n is h) (
                  Refers-absent d.pending n id is (m.sound.referring n is h) found
                    (unfold count in ap (λ z. count z n) empty)));
        };
        gone = m.gone;
        left = left_after;
        below = m.below;
        solved = m.solved;
      };
      grows = λ i h. h;
      counted = omega arith;
      found_known = tt;
    }

    drop_equation-IsMid :
        (r : ℕ) → e.neighbors ≡ r ∷ [] → IsMid k size total sent sized (drop_equation d e) b ids
    unfolding drop_equation unrefer
    drop_equation-IsMid r alone =
        let deps = unrefer_one d.dependents id r (lookup d.dependents r) in
        let names : unrefer d.dependents e.symbol_id e.neighbors ≡ deps =
          ap (unrefer d.dependents e.symbol_id) alone
          ∙ ap (λ z. unrefer d.dependents z (r ∷ [])) true_e.numbered in
        record {
          sound = record {
            count_is = m.sound.count_is;
            bytes_is = m.sound.bytes_is;
            size_is = m.sound.size_is;
            not_closed = m.sound.not_closed;
            store_size = m.sound.store_size;
            bitmap = m.sound.bitmap;
            bitmap_size = m.sound.bitmap_size;
            tallied = m.sound.tallied;
            known = m.sound.known;
            equations = equations_after;
            referring = λ n is h.
                subst (λ z. Refers z n is) (sym key)
                  (unrefer_one-Refers d.pending d.dependents id r found m.sound.referring
                    (λ n ne. ap (λ z. count z n) alone ∙ only_one r n ne) (lookup d.dependents r)
                    refl n is (subst (λ z. lookup z n ≡ some is) names h));
          };
          gone =
              ap (λ z. lookup z b) names
              ∙ unrefer_one-none d.dependents id r b (lookup d.dependents r) refl m.gone;
          left = left_after;
          below = m.below;
          solved = m.solved;
        }

    last_is : (r : ℕ) → e.neighbors ≡ r ∷ [] → (r < k) × (e.payload ≡ sent r)
    last_is r alone = (
      (subst (All (λ n. n < k)) alone true_e.named).0,
      true_e.holds ∙ ap (xor_of size sent) alone ∙ xor_into-zeros (sent r) size,
    )

    solved-IsStep :
        (d1 : SegmentDecoder) (r : ℕ)
        → IsMid k size total sent sized d1 b ids
        → r < k
        → e.payload ≡ sent r
        → is_solved d1 r ≡ false
        → ((i : ℕ) → is_solved d i ≡ is_solved d1 i)
        → d1.solved_count ≡ d.solved_count
        → IsStep d (solve d1 r e.payload) b ids (r ∷ [])
    unfolding solve
    solved-IsStep d1 r mid below right new same held =
        let marked = put_mark-Grows k size total sent d1 r e.payload mid.sound below in
        record {
          mid = record {
            sound = solve-IsSound d1 r e.payload mid.sound below right new;
            gone = unfold mark_solved put_block in mid.gone;
            left = unfold mark_solved put_block in mid.left;
            below = mid.below;
            solved = marked b mid.solved;
          };
          grows = λ i h. marked i (sym (same i) ∙ h);
          counted = unfold mark_solved in omega (arith, held);
          found_known =
              ((below, put_mark_solved k size total sent d1 r e.payload mid.sound below), tt);
        }

    -- The one symbol that is left is solved, unless it has been already.
    settle_one :
        (r : ℕ)
        → e.neighbors ≡ r ∷ []
        → IsStep d (settle d e (r ∷ [])).0 b ids (settle d e (r ∷ [])).1
    unfolding settle
    settle_one r alone =
        let d1 = drop_equation d e in
        let mid = drop_equation-IsMid r alone in
        let (below, right) = last_is r alone in
        let same : (i : ℕ) → is_solved d i ≡ is_solved d1 i = λ i. unfold drop_equation in refl in
        let held : d1.solved_count ≡ d.solved_count = unfold drop_equation in refl in
        elim (Bool-cases (is_solved d1 r)) [
          | inl known ↦ rw known (record {
            mid = mid;
            grows = λ i h. sym (same i) ∙ h;
            counted = omega (arith, held);
            found_known = tt;
          })
          | inr new ↦ rw new (solved-IsStep d1 r mid below right new same held)
        ]

    pub settle-IsStep :
        (ns : List ℕ) → e.neighbors ≡ ns → IsStep d (settle d e ns).0 b ids (settle d e ns).1
    unfolding settle
    settle-IsStep [] h = settle_none h
    settle-IsStep (r ∷ []) h = settle_one r h
    settle-IsStep (x ∷ y ∷ ns) h = record {
      mid = m;
      grows = λ i h. h;
      counted = omega arith;
      found_known = tt;
    }

  -- One equation that is listed for block `b`.
  pub ripple_equation-IsStep :
      (d : SegmentDecoder) (b id : ℕ) (ids : List ℕ)
      → IsMid k size total sent sized d b (id ∷ ids)
      → IsStep d (ripple_equation d b id).0 b ids (ripple_equation d b id).1
  unfolding ripple_equation ripple_found
  ripple_equation-IsStep d b id ids m =
      let listed : 1 ≤ count (id ∷ ids) id = unfold count in omega (arith, one_same id) in
      let (e, found, names) = (m.left id).1 listed in
      let (mid, stored, true_e, absent) =
        reduce_equation-IsMid k size total sent sized d b id ids e m found names in
      let step =
        settle-IsStep (reduce_equation d (reduced d b e)) b id ids (reduced d b e) mid stored true_e
          absent (reduced d b e).neighbors refl in
      rw found (record {
        mid = step.mid;
        grows = unfold reduce_equation in step.grows;
        counted = unfold reduce_equation in step.counted;
        found_known = step.found_known;
      })
