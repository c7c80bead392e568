-- ===== src/Fec/Decoder/Steps.antt =====
-- One equation of the ripple keeps the segment decoder sound (src/core/segment-decoder.ts).
use deqr.Common.{ℕ, ◌-◌, ◌≤◌, ◌<◌, ◌≡◌, ◌≢◌, sym, ap, ◌∙◌, arith, List, ◌∷◌, length, All}
use deqr.Common.{
  take, get_or, All-set, All-take, All-get_or, none, some, Option-cases, true, inl, inr,
}
use mathlib.Core.Path.{subst}
use deqr.Fec.Symbols.{xor_into, block_at}
use deqr.Fec.Symbols.Laws.{xor_of, xor_into_comm, xor_into_twice}
use deqr.Fec.Equations.{lookup, insert, index_of, swap_remove}
use deqr.Fec.Equations.Laws.{count, one, insert_all, count-swap_remove, lookup-insert_same}
use deqr.Fec.Equations.Sum.{length-xor_of, xor_of-swap_remove}
use deqr.Fec.Decoder.{
  PendingEquation, SegmentDecoder, is_solved, bytes_of, with_block, reduced, reduce_equation,
}
use deqr.Fec.Decoder.Sound.{Refers, IsTrue, IsSound}
use deqr.Fec.Decoder.Refers.{Refers-insert, Refers-insert_absent, Refers-tail}

pub one_ne : (b n : ℕ) → b ≢ n → one b n ≡ 0
one_ne b n h = ground arith

All-swap_remove :
    {k : ℕ} (xs : List ℕ) (v : ℕ)
    → 0 < k
    → All (λ n. n < k) xs
    → All (λ n. n < k) (swap_remove xs v)
unfolding swap_remove
All-swap_remove {k} xs v pos h = elim (Option-cases (index_of xs v)) [
  | inl e ↦ rw e h
  | inr (i, e) ↦ rw e (
      All-set (λ n. n < k) (take (length xs - 1) xs) i (get_or xs (length xs - 1) 0)
        (All-get_or (λ n. n < k) xs (length xs - 1) 0 pos h)
        (All-take (λ n. n < k) (length xs - 1) xs h))
]

module _ (k size total : ℕ) (sent : ℕ → List ℕ) (sized : (n : ℕ) → length (sent n) ≡ size) where
  -- An equation stays true when a known block is taken out.
  reduced-IsTrue :
      (d : SegmentDecoder) (b id : ℕ) (e : PendingEquation)
      → IsSound k size total sent d
      → b < k
      → is_solved d b ≡ true
      → 1 ≤ count e.neighbors b
      → IsTrue k size total sent id e
      → IsTrue k size total sent id (reduced d b e)
  unfolding reduced with_block
  reduced-IsTrue d b id e s lt solved names t =
      let rest = swap_remove e.neighbors b in
      let rest_size = length-xor_of size sent sized rest in
      let split =
        t.holds
        ∙ xor_of-swap_remove size sent sized e.neighbors b names
        ∙ xor_into_comm (sent b) (xor_of size sent rest) (sized b ∙ sym rest_size) in
      let block : block_at (bytes_of d.store) d.symbol_size_bytes b ≡ sent b =
        ap (λ z. block_at (bytes_of d.store) z b) s.size_is ∙ s.known b lt solved in
      record {
        numbered = t.numbered;
        named = All-swap_remove e.neighbors b (omega arith) t.named;
        holds =
            ap (xor_into e.payload) block
            ∙ ap (λ z. xor_into z (sent b)) split
            ∙ xor_into_twice (xor_of size sent rest) (sent b) (rest_size ∙ sym (sized b));
      }

  -- The decoder while the equations that name block `b` are visited, those in `ids` being left.
  pub record IsMid (d : SegmentDecoder) (b : ℕ) (ids : List ℕ) : Type 0 where
    pub sound : IsSound k size total sent d
    pub gone : lookup d.dependents b ≡ none
    pub left : Refers d.pending b ids
    pub below : b < k
    pub solved : is_solved d b ≡ true

  listed_other :
      (d : SegmentDecoder) (b n : ℕ) {ids : List ℕ}
      → lookup d.dependents b ≡ none
      → lookup d.dependents n ≡ some ids
      → b ≢ n
  listed_other d b n gone listed same =
      let at_n : lookup d.dependents n ≡ none =
        subst (λ z. lookup d.dependents z ≡ none) same gone in
      cc

  -- The state after the equation has been reduced and before it is settled.
  pub reduce_equation-IsMid :
      (d : SegmentDecoder) (b id : ℕ) (ids : List ℕ) (e : PendingEquation)
      → IsMid d b (id ∷ ids)
      → lookup d.pending id ≡ some e
      → 1 ≤ count e.neighbors b
      → IsMid (reduce_equation d (reduced d b e)) b ids
        × (lookup (reduce_equation d (reduced d b e)).pending id ≡ some (reduced d b e))
        × IsTrue k size total sent id (reduced d b e)
        × (count ids id ≡ 0)
  unfolding reduce_equation reduced
  reduce_equation-IsMid d b id ids e m found names =
      let s = m.sound in
      let t = s.equations id e found in
      let e' = reduced d b e in
      let true' = reduced-IsTrue d b id e s m.below m.solved names t in
      let (tail, absent) = Refers-tail d.pending b id ids m.left in
      let key : insert d.pending e'.symbol_id e' ≡ insert d.pending id e' =
        ap (λ z. insert d.pending z e') true'.numbered in
      let sound' : IsSound k size total sent (reduce_equation d e') = record {
        count_is = s.count_is;
        bytes_is = s.bytes_is;
        size_is = s.size_is;
        not_closed = s.not_closed;
        store_size = s.store_size;
        bitmap = s.bitmap;
        bitmap_size = s.bitmap_size;
        tallied = s.tallied;
        known = s.known;
        equations = λ j f h.
            insert_all (IsTrue k size total sent) d.pending id e' s.equations true' j f
              (subst (λ z. lookup z j ≡ some f) key h);
        referring = λ n is h.
            let other = listed_other d b n m.gone h in
            subst (λ z. Refers z n is) (sym key)
              (Refers-insert d.pending n is id e e' (s.referring n is h) found
                (λ c. omega (arith, c, count-swap_remove e.neighbors b n names, one_ne b n other)));
      } in
      (
        record {
          sound = sound';
          gone = m.gone;
          left =
              subst (λ z. Refers z b ids) (sym key)
                (Refers-insert_absent d.pending b ids id e' tail absent);
          below = m.below;
          solved = m.solved;
        },
        subst (λ z. lookup z id ≡ some e') (sym key) (lookup-insert_same d.pending id e'),
        true',
        absent,
      )
