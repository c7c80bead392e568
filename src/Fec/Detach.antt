-- ===== src/Fec/Detach.antt =====
-- A segment that is handed out while symbols go on arriving (src/core/segment-encoder.ts, and detach,
-- release and heldBytes of src/core/segment-decoder.ts).
use deqr.Common.{
  ℕ, ◌+◌, ◌≤◌, ◌/◌, ◌≡◌, refl, sym, ap, ◌∙◌, arith, List, [], ◌∷◌, length, some, none,
}
use mathlib.Core.Path.{subst}
use deqr.Fec.Equations.Laws.{count}
use deqr.Fec.Encoder.{SegmentEncoder, new_encoder, load_segment}
use deqr.Fec.Encoder.Symbols.{sent_block}
use deqr.Fec.Decoder.{SegmentDecoderLimits, SegmentDecoder}
use deqr.Fec.Decoder.Sound.{IsSound}
use deqr.Fec.Decoder.Accept.{new_decoder, segment, detach, held_bytes}
use deqr.Fec.Decoder.Accept.Closed.{IsClosed, detach-IsClosed}
use deqr.Fec.Delivery.{
  accept_all, total_symbols, loaded_encoder, AreSent, accept_all-IsSound, new_decoder-IsSound,
  segment-IsSound,
}

accept_all-closed :
    (neighbors_for : ℕ → ℕ → List ℕ) (d : SegmentDecoder) (later : List (ℕ × List ℕ))
    → IsClosed neighbors_for d
    → accept_all neighbors_for d later ≡ d
unfolding accept_all
accept_all-closed neighbors_for d [] c = refl
accept_all-closed neighbors_for d ((id, payload) ∷ rest) c =
    let same = ap (λ x. x.0) (c.refuses id payload) in
    ap (λ x. accept_all neighbors_for x rest) same ∙ accept_all-closed neighbors_for d rest c

held_bytes-closed :
    {neighbors_for : ℕ → ℕ → List ℕ} (d : SegmentDecoder)
    → IsClosed neighbors_for d
    → held_bytes d ≡ length d.solved_bits
unfolding held_bytes
held_bytes-closed d c = rw (c.no_store, c.no_equations.0) (omega arith)

module _ (source : List ℕ) (size : ℕ) (neighbors_for : ℕ → ℕ → List ℕ)
    (distinct : (id n : ℕ) → count (neighbors_for id (total_symbols source size)) n ≤ 1) where
  -- An encoder is made and loaded with a segment, and a decoder is made for the same geometry, with any
  -- limits, and given any symbols that the encoder wrote. If `detach` hands out a segment then, it is
  -- the one that was loaded. Any symbols may arrive after that, also ones that no encoder wrote: the
  -- decoder is left as it was, and holds one bit for each source symbol in whole bytes, and no more; it
  -- hands out no segment, and none is detached a second time.
  pub detached_once :
      {fresh encoder : SegmentEncoder} (limits : SegmentDecoderLimits) {d : SegmentDecoder}
      (symbols later : List (ℕ × List ℕ)) {r : SegmentDecoder × List ℕ}
      → new_encoder size ≡ some fresh
      → load_segment fresh source ≡ some encoder
      → new_decoder (total_symbols source size) size (length source) limits ≡ some d
      → AreSent source size neighbors_for distinct encoder symbols
      → detach (accept_all neighbors_for d symbols) ≡ some r
      → (r.1 ≡ source)
        × (accept_all neighbors_for r.0 later ≡ r.0)
        × (held_bytes (accept_all neighbors_for r.0 later) ≡ (total_symbols source size + 7) / 8)
        × (segment (accept_all neighbors_for r.0 later) ≡ none)
        × (detach (accept_all neighbors_for r.0 later) ≡ none)
  detached_once {fresh} {encoder} limits {d} symbols later {r} made held opened sent out =
      let (same, pos, nonempty) = loaded_encoder source size made held in
      let honest =
        subst (λ e. AreSent source size neighbors_for distinct e symbols) (sym same) sent in
      let after = accept_all neighbors_for d symbols in
      let s : IsSound (total_symbols source size) size (length source) (sent_block source size)
          after =
        accept_all-IsSound source size neighbors_for distinct d symbols
          (new_decoder-IsSound source size limits opened) honest in
      let (bytes, closed, bits) = detach-IsClosed neighbors_for after r out in
      let stays = accept_all-closed neighbors_for r.0 later closed in
      (
        segment-IsSound source size after pos nonempty s bytes,
        stays,
        ap held_bytes stays ∙ held_bytes-closed r.0 closed ∙ ap length bits ∙ s.bitmap_size,
        ap segment stays ∙ closed.no_segment,
        ap detach stays ∙ closed.no_second,
      )
