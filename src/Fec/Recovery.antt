-- ===== src/Fec/Recovery.antt =====
-- The source symbols are enough to recover a segment (src/core/segment-encoder.ts and
-- src/core/segment-decoder.ts).
use deqr.Common.{
  ℕ, ◌*◌, ◌≤◌, ◌<◌, ◌≡◌, sym, ap, ◌∙◌, arith, List, [], ◌∷◌, map, length, some, true, div_up_bounds,
}
use deqr.Common.{◌⊎◌, inl, inr, ==_iff}
use native.Mathlib.Decide.{ℕ_discrete}
use mathlib.Core.Path.{subst}
use deqr.Fec.Equations.Laws.{count}
use deqr.Fec.Encoder.{SegmentEncoder, new_encoder, load_segment}
use deqr.Fec.Encoder.Symbols.{sent_block, length-sent_block}
use deqr.Fec.Decoder.{SegmentDecoderLimits, SegmentDecoder, is_solved}
use deqr.Fec.Decoder.Bitmap.{tally_all}
use deqr.Fec.Decoder.Sound.{IsSound}
use deqr.Fec.Decoder.Accept.{new_decoder, accept, is_complete, segment}
use deqr.Fec.Decoder.Accept.Complete.{detach_complete}
use deqr.Fec.Decoder.Accept.Progress.{accept-Grows}
use deqr.Fec.Delivery.{
  accept_all, total_symbols, loaded, loaded_encoder, AreSent, written_symbol,
  accept_written-IsSound, accept_all-IsSound, new_decoder-IsSound, segment-IsSound,
}

-- The numbers of the symbols that arrived.
abbrev pub ids : List (ℕ × List ℕ) → List ℕ
ids symbols = map (λ s. s.0) symbols

new_decoder-small :
    (k size bytes : ℕ) (limits : SegmentDecoderLimits) {d : SegmentDecoder}
    → new_decoder k size bytes limits ≡ some d
    → k ≤ 0xffff_ffff
unfolding new_decoder
new_decoder-small k size bytes limits h = ground arith

module _ (source : List ℕ) (size : ℕ) (neighbors_for : ℕ → ℕ → List ℕ)
    (distinct : (id n : ℕ) → count (neighbors_for id (total_symbols source size)) n ≤ 1) where
  abbrev k : ℕ
  k = total_symbols source size

  abbrev Sound : SegmentDecoder → Type 0
  Sound = IsSound k size (length source) (sent_block source size)

  known_after :
      (d : SegmentDecoder) (symbols : List (ℕ × List ℕ)) (i : ℕ)
      → 1 ≤ k * size
      → k ≤ 0xffff_ffff
      → Sound d
      → AreSent source size neighbors_for distinct (loaded source size) symbols
      → i < k
      → (is_solved d i ≡ true) ⊎ (1 ≤ count (ids symbols) i)
      → is_solved (accept_all neighbors_for d symbols) i ≡ true
  unfolding accept_all
  known_after d [] i pos small s h lt (inl known) = known
  known_after d [] i pos small s h lt (inr here) = absurd (unfold count in omega arith)
  known_after d ((id, payload) ∷ rest) i pos small s h lt known =
      let (of_source, of_repair) =
        written_symbol source size neighbors_for distinct id payload h.0 in
      let (grows, gains) =
        accept-Grows k size (length source) (sent_block source size) (length-sent_block source size)
          neighbors_for distinct d id payload pos small s of_source of_repair in
      known_after (accept neighbors_for d id payload).0 rest i pos small
        (accept_written-IsSound source size neighbors_for distinct d id payload s h.0) h.1 lt
        (next grows gains known)
    where
      next :
          ((j : ℕ)
            → is_solved d j ≡ true
            → is_solved (accept neighbors_for d id payload).0 j ≡ true)
          → (id < k → is_solved (accept neighbors_for d id payload).0 id ≡ true)
          → (is_solved d i ≡ true) ⊎ (1 ≤ count (id ∷ ids rest) i)
          → (is_solved (accept neighbors_for d id payload).0 i ≡ true) ⊎ (1 ≤ count (ids rest) i)
      next grows gains (inl old) = inl (grows i old)
      next grows gains (inr new) = elim (ℕ_discrete id i) [
        | yes e ↦ inl (
            subst (λ j. is_solved (accept neighbors_for d id payload).0 j ≡ true) e
              (gains (omega arith)))
        | no n ↦ inr (unfold count in ground arith)
      ]

  -- An encoder is made and loaded with a segment, and a decoder is made for the same geometry, with any
  -- limits. The decoder is given symbols that the encoder wrote, in any order, with any repair symbols
  -- and repetitions among them. If every source symbol is one of them, the segment is handed out.
  pub recovered :
      {fresh encoder : SegmentEncoder} (limits : SegmentDecoderLimits) {d : SegmentDecoder}
      (symbols : List (ℕ × List ℕ))
      → new_encoder size ≡ some fresh
      → load_segment fresh source ≡ some encoder
      → new_decoder k size (length source) limits ≡ some d
      → AreSent source size neighbors_for distinct encoder symbols
      → ((i : ℕ) → i < k → 1 ≤ count (ids symbols) i)
      → segment (accept_all neighbors_for d symbols) ≡ some source
  recovered {fresh} {encoder} limits {d} symbols made held opened sent all =
      let (same, pos, nonempty) = loaded_encoder source size made held in
      let honest =
        subst (λ e. AreSent source size neighbors_for distinct e symbols) (sym same) sent in
      let (above, below) = div_up_bounds (length source) size nonempty pos in
      let room : 1 ≤ k * size = grind arith in
      let start = new_decoder-IsSound source size limits opened in
      let after = accept_all neighbors_for d symbols in
      let s = accept_all-IsSound source size neighbors_for distinct d symbols start honest in
      let all_known = tally_all after.solved_bits k (λ i lt.
        known_after d symbols i room (new_decoder-small k size (length source) limits opened) start
          honest lt (inr (all i lt))) in
      let complete : is_complete after ≡ true =
        (==_iff after.solved_count after.source_symbol_count).1
          (omega (arith, s.tallied, s.count_is, all_known)) in
      let out = (detach_complete after (omega (arith, s.store_size)) complete).0 in
      out ∙ ap some (segment-IsSound source size after pos nonempty s out)
