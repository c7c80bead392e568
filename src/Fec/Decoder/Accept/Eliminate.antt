-- ===== src/Fec/Decoder/Accept/Eliminate.antt =====
-- Taking the known blocks out of a repair symbol (acceptRepair of src/core/segment-decoder.ts).
use deqr.Common.{
  ℕ, ◌+◌, ◌≤◌, ◌<◌, ◌≡◌, sym, ap, ◌∙◌, arith, List, [], ◌∷◌, ◌++◌, length, All, All-append,
}
use deqr.Common.{true, false, Bool-cases, inl, inr, if_both, if◌then◌else◌}
use deqr.Fec.Symbols.{xor_into, block_at}
use deqr.Fec.Symbols.Laws.{xor_of, xor_into_comm, xor_into_assoc, xor_into_twice, length-xor_into}
use deqr.Fec.Equations.Laws.{count, one, count-append}
use deqr.Fec.Equations.Sum.{length-xor_of, xor_of-append, xor_left_comm}
use deqr.Fec.Decoder.{SegmentDecoder, is_solved, bytes_of, with_block}
use deqr.Fec.Decoder.Sound.{IsSound}
use deqr.Fec.Decoder.Accept.{Elimination, eliminate}

module _ (k size total : ℕ) (sent : ℕ → List ℕ) (sized : (n : ℕ) → length (sent n) ≡ size) where
  module _ (d : SegmentDecoder) (s : IsSound k size total sent d) where
    abbrev IsUnknown : ℕ → Type 0
    IsUnknown n = (n < k) × (is_solved d n ≡ false)

    -- What is left to be looked at, and what has been found to be unknown, make up the residual.
    pub record IsSplit (e : Elimination) (ns : List ℕ) : Type 0 where
      pub adds_up : e.residual ≡ xor_into (xor_of size sent e.unknown) (xor_of size sent ns)
      pub unknowns : All IsUnknown e.unknown
      pub range : All (λ n. n < k) ns

    take_known :
        (e : Elimination) (n : ℕ) (ns : List ℕ)
        → is_solved d n ≡ true
        → IsSplit e (n ∷ ns)
        → with_block d e.residual n ≡ xor_into (xor_of size sent e.unknown) (xor_of size sent ns)
    unfolding with_block
    take_known e n ns solved p =
        let u = xor_of size sent e.unknown in
        let r = xor_of size sent ns in
        let u_size = length-xor_of size sent sized e.unknown in
        let block : block_at (bytes_of d.store) d.symbol_size_bytes n ≡ sent n =
          ap (λ z. block_at (bytes_of d.store) z n) s.size_is ∙ s.known n p.range.0 solved in
        let same : length (sent n) ≡ length u = sized n ∙ sym u_size in
        let whole : length (xor_into u r) ≡ length (sent n) = length-xor_into u r ∙ sym same in
        ap (xor_into e.residual) block
        ∙ ap (λ z. xor_into z (sent n))
            (p.adds_up
              ∙ xor_left_comm u (sent n) r (sym same)
              ∙ xor_into_comm (sent n) (xor_into u r) (sym whole))
        ∙ xor_into_twice (xor_into u r) (sent n) whole

    move_unknown :
        (e : Elimination) (n : ℕ) (ns : List ℕ)
        → IsSplit e (n ∷ ns)
        → e.residual ≡ xor_into (xor_of size sent (e.unknown ++ (n ∷ []))) (xor_of size sent ns)
    move_unknown e n ns p =
        let u = xor_of size sent e.unknown in
        let r = xor_of size sent ns in
        let same : length u ≡ length (sent n) =
          length-xor_of size sent sized e.unknown ∙ sym (sized n) in
        p.adds_up
        ∙ sym (xor_into_assoc u (sent n) r same)
        ∙ ap (λ z. xor_into z r) (xor_into_comm u (sent n) same)
        ∙ ap (λ z. xor_into z r) (sym (xor_of-append size sent sized e.unknown n))

    -- At the end, the residual is the exclusive or of the unknown blocks.
    pub eliminate-IsSplit :
        (ns : List ℕ) (e : Elimination) → IsSplit e ns → IsSplit (eliminate d ns e) []
    unfolding eliminate
    eliminate-IsSplit [] e p = p
    eliminate-IsSplit (n ∷ ns) e p = elim (Bool-cases (is_solved d n)) [
      | inl solved ↦ rw solved (
          eliminate-IsSplit ns
            (record e {
              residual = with_block d e.residual n;
              xor_bytes = e.xor_bytes + d.symbol_size_bytes;
            })
            (record {
              adds_up = take_known e n ns solved p;
              unknowns = p.unknowns;
              range = p.range.1;
            }))
      | inr new ↦ rw new (
          eliminate-IsSplit ns (record e { unknown = e.unknown ++ (n ∷ []) })
            (record {
              adds_up = move_unknown e n ns p;
              unknowns = All-append IsUnknown e.unknown (n ∷ []) p.unknowns ((p.range.0, new), tt);
              range = p.range.1;
            }))
    ]

  -- No neighbour becomes unknown more often than it was named.
  pub count-eliminate :
      (d : SegmentDecoder) (ns : List ℕ) (e : Elimination) (v : ℕ)
      → count (eliminate d ns e).unknown v ≤ count e.unknown v + count ns v
  unfolding eliminate count
  count-eliminate d [] e v = omega arith
  count-eliminate d (n ∷ ns) e v =
      let known : Elimination = record e {
        residual = with_block d e.residual n;
        xor_bytes = e.xor_bytes + d.symbol_size_bytes;
      } in
      let new : Elimination = record e { unknown = e.unknown ++ (n ∷ []) } in
      let one_more =
        if_both (λ (f : Elimination). count f.unknown v ≤ count e.unknown v + one n v)
          (is_solved d n) {x = known} {y = new} (omega arith)
          (omega (arith, count-append e.unknown (n ∷ []) v)) in
      omega (arith, one_more, count-eliminate d ns (if is_solved d n then known else new) v)
