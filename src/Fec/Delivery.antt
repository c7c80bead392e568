-- ===== src/Fec/Delivery.antt =====
-- From SegmentEncoder to SegmentDecoder (src/core/segment-encoder.ts and
-- src/core/segment-decoder.ts): symbols that are written, and arrive in some order.
use deqr.Common.{
  ◌⊎◌, ℕ, zero, suc, ◌+◌, ◌-◌, ◌*◌, ◌/◌, ◌≤◌, ◌<◌, ◌≡◌, refl, sym, ap, ◌∙◌, arith, List, [], ◌∷◌,
  ◌++◌, length, take, All,
}
use deqr.Common.{
  length-append, length-replicate, take-append, All-replicate, div_up, div_up_bounds, Option, none,
  some, true, false, leb, ◌==◌, if◌then◌else◌,
}
use deqr.Common.{lt→ltb, le→ltb, Option-cases, Bool-cases, inl, inr, ==_iff, Bool}
use mathlib.Core.Path.{subst}
use deqr.Protocol.Buffer.{zeros}
use deqr.Fec.Symbols.Laws.{xor_of}
use deqr.Fec.Equations.{lookup}
use deqr.Fec.Equations.Laws.{count, some-injective}
use deqr.Fec.Equations.Sum.{length-xor_of}
use deqr.Fec.Encoder.{SegmentEncoder, new_encoder, load_segment, symbol_of, symbol_into}
use deqr.Fec.Encoder.Symbols.{
  sent_block, length-sent_block, xor_source_symbols-eq, padded_block, blocks_equal,
}
use deqr.Fec.Decoder.{SegmentDecoderLimits, SegmentDecoder, bytes_of}
use deqr.Fec.Decoder.Bitmap.{tally_full, is_set-replicate, tally-replicate}
use deqr.Fec.Decoder.Sound.{IsSound}
use deqr.Fec.Decoder.Accept.{
  empty_decoder, new_decoder, accept, is_complete, whole_segment, segment,
}
use deqr.Fec.Decoder.Accept.Safety.{accept-IsSound, zeros_xor}

module _ (neighbors_for : ℕ → ℕ → List ℕ) where
  -- The decoder after symbols that arrived in this order.
  unfoldable pub accept_all : SegmentDecoder → List (ℕ × List ℕ) → SegmentDecoder
  unfolding accept
  accept_all d [] = d
  accept_all d ((id, payload) ∷ rest) = accept_all (accept neighbors_for d id payload).0 rest

no_entry : {V : Type 0} {v : V} (k : ℕ) → lookup [] k ≡ some v → ⊥
unfolding lookup
no_entry k h = cc

if_some : {A : Type 0} {a b : A} (c : Bool) → (if c then some a else none) ≡ some b → a ≡ b
if_some true h = some-injective h
if_some false h = cc

block_room : (i k s : ℕ) → i < k → s * i + s ≤ s * k
block_room i k s h = grind arith

whole_segment-inv :
    (d : SegmentDecoder) (o : Option (List ℕ)) {bytes : List ℕ}
    → whole_segment d o ≡ some bytes
    → (d.solved_count ≡ d.source_symbol_count) × (bytes ≡ take d.segment_bytes (bytes_of o))
whole_segment-inv d none h = absurd (cc)
whole_segment-inv d (some b) h = elim (Bool-cases (is_complete d)) [
  | inl e ↦ ((==_iff d.solved_count d.source_symbol_count).0 e, sym (some-injective (rw e at h)))
  | inr e ↦ let never : none ≡ some _ = rw e at h in absurd (cc)
]

module _ (source : List ℕ) (size : ℕ) where
  abbrev pub total_symbols : ℕ
  total_symbols = div_up (length source) size

  pub empty_decoder-IsSound :
      (limits : SegmentDecoderLimits)
      → IsSound total_symbols size
          (length source)
          (sent_block source size)
          (empty_decoder total_symbols size (length source) limits)
  empty_decoder-IsSound limits =
      let k = total_symbols in
      record {
        count_is = refl;
        bytes_is = refl;
        size_is = refl;
        not_closed = refl;
        store_size = length-replicate (k * size) 0;
        bitmap = All-replicate (λ b. b < 256) ((k + 7) / 8) 0 (omega arith);
        bitmap_size = omega (arith, length-replicate {A = ℕ} ((k + 7) / 8) 0);
        tallied = sym (tally-replicate ((k + 7) / 8) k);
        known = λ i lt solved. let new = is_set-replicate ((k + 7) / 8) i in absurd (cc);
        equations = λ id e found. absurd (no_entry id found);
        referring = λ n is found. absurd (no_entry n found);
      }

  pub new_decoder-IsSound :
      (limits : SegmentDecoderLimits) {d : SegmentDecoder}
      → new_decoder total_symbols size (length source) limits ≡ some d
      → IsSound total_symbols size (length source) (sent_block source size) d
  unfolding new_decoder
  new_decoder-IsSound limits {d} h =
      subst (IsSound total_symbols size (length source) (sent_block source size)) (if_some _ h)
        (empty_decoder-IsSound limits)

  -- The bytes that a complete decoder holds.
  pub segment-IsSound :
      (d : SegmentDecoder) {bytes : List ℕ}
      → 1 ≤ size
      → 1 ≤ length source
      → IsSound total_symbols size (length source) (sent_block source size) d
      → segment d ≡ some bytes
      → bytes ≡ source
  unfolding segment
  segment-IsSound d {bytes} pos nonempty s h =
      let k = total_symbols in
      let pad = k * size - length source in
      let (over, under) = div_up_bounds (length source) size nonempty pos in
      let (full, cut) = whole_segment-inv d d.store h in
      let padded = source ++ zeros pad in
      let padded_size : length padded ≡ k * size =
        omega (arith, over, length-append source (zeros pad), length-replicate {A = ℕ} pad 0) in
      let same = blocks_equal size k (bytes_of d.store) padded s.store_size padded_size (λ i lt.
        s.known i lt (tally_full d.solved_bits k i (omega (arith, s.tallied, full, s.count_is)) lt)
        ∙ sym (
            padded_block source size i pad (omega (arith, under, block_room i k size lt))
              (omega (arith, over, block_room i k size lt)))) in
      cut
      ∙ ap (λ n. take n (bytes_of d.store)) s.bytes_is
      ∙ ap (take (length source)) same
      ∙ take-append source (zeros pad)

  -- The encoder that holds the segment.
  abbrev pub loaded : SegmentEncoder
  loaded = record { segment = some source; symbols = total_symbols; symbol_size_bytes = size }

  pub loaded_encoder :
      {fresh encoder : SegmentEncoder}
      → new_encoder size ≡ some fresh
      → load_segment fresh source ≡ some encoder
      → (loaded ≡ encoder) × (1 ≤ size) × (1 ≤ length source)
  unfolding new_encoder load_segment
  loaded_encoder {fresh} {encoder} made held =
      let same = if_some (leb 1 size) made in
      let held : load_segment (record { segment = none; symbols = 0; symbol_size_bytes = size })
            source
          ≡ some encoder =
        subst (λ e. load_segment e source ≡ some encoder) (sym same) held in
      (
        if_some (leb 1 (length source)) held,
        if_true _ fresh size made,
        if_true _ encoder (length source) held,
      )
    where
      if_true : (a b : SegmentEncoder) (n : ℕ) → (if leb 1 n then some a else none) ≡ some b → 1 ≤ n
      if_true a b zero h = absurd (cc)
      if_true a b (suc n) h = omega arith

  module _ (neighbors_for : ℕ → ℕ → List ℕ)
      (distinct : (id n : ℕ) → count (neighbors_for id total_symbols) n ≤ 1) where
    -- Symbols that the encoder wrote.
    abbrev pub AreSent : SegmentEncoder → List (ℕ × List ℕ) → Type 0
    AreSent encoder symbols =
        All (λ s. symbol_into neighbors_for encoder s.0 (zeros size) ≡ some s.1) symbols

    written :
        (id : ℕ) (payload : List ℕ)
        → symbol_into neighbors_for loaded id (zeros size) ≡ some payload
        → symbol_of neighbors_for loaded source id ≡ payload
    unfolding symbol_into
    written id payload h = if_some (length (zeros size) == size) h

    written_source :
        (id : ℕ)
        → id < total_symbols
        → symbol_of neighbors_for loaded source id ≡ sent_block source size id
    unfolding symbol_of
    written_source id h = rw (lt→ltb id total_symbols h) refl

    written_repair :
        (id : ℕ)
        → total_symbols ≤ id
        → symbol_of neighbors_for loaded source id
          ≡ xor_of size (sent_block source size) (neighbors_for id total_symbols)
    unfolding symbol_of
    written_repair id h =
        let ns = neighbors_for id total_symbols in
        let sent = sent_block source size in
        rw (le→ltb id total_symbols h) (
          xor_source_symbols-eq source size ns (zeros size) (length-replicate size 0)
          ∙ zeros_xor size (xor_of size sent ns)
              (length-xor_of size sent (length-sent_block source size) ns))

    -- What the encoder wrote under a number.
    pub written_symbol :
        (id : ℕ) (payload : List ℕ)
        → symbol_into neighbors_for loaded id (zeros size) ≡ some payload
        → (id < total_symbols → payload ≡ sent_block source size id)
          × (total_symbols ≤ id
              → payload ≡ xor_of size (sent_block source size) (neighbors_for id total_symbols))
    written_symbol id payload h =
        let same = sym (written id payload h) in
        (λ lt. same ∙ written_source id lt, λ ge. same ∙ written_repair id ge)

    -- A sound decoder stays so with a symbol that the encoder wrote.
    pub accept_written-IsSound :
        (d : SegmentDecoder) (id : ℕ) (payload : List ℕ)
        → IsSound total_symbols size (length source) (sent_block source size) d
        → symbol_into neighbors_for loaded id (zeros size) ≡ some payload
        → IsSound total_symbols size
            (length source)
            (sent_block source size)
            (accept neighbors_for d id payload).0
    accept_written-IsSound d id payload s h =
        let (of_source, of_repair) = written_symbol id payload h in
        accept-IsSound total_symbols size (length source) (sent_block source size)
          (length-sent_block source size) neighbors_for distinct d id payload s of_source of_repair

    pub accept_all-IsSound :
        (d : SegmentDecoder) (symbols : List (ℕ × List ℕ))
        → IsSound total_symbols size (length source) (sent_block source size) d
        → AreSent loaded symbols
        → IsSound total_symbols size
            (length source)
            (sent_block source size)
            (accept_all neighbors_for d symbols)
    unfolding accept_all
    accept_all-IsSound d [] s h = s
    accept_all-IsSound d ((id, payload) ∷ rest) s h =
        accept_all-IsSound (accept neighbors_for d id payload).0 rest
          (accept_written-IsSound d id payload s h.0) h.1

    -- An encoder is made and loaded with a segment, and a decoder is made for the same geometry, with
    -- any limits. The decoder is given any symbols that the encoder wrote, source or repair: in any
    -- order, with losses and repetitions. Then it refuses to hand out a segment, or hands out the one
    -- that was loaded, byte for byte. The rule for repair symbols is any that names no source symbol
    -- twice.
    pub delivered :
        {fresh encoder : SegmentEncoder} (limits : SegmentDecoderLimits) {d : SegmentDecoder}
        (symbols : List (ℕ × List ℕ))
        → new_encoder size ≡ some fresh
        → load_segment fresh source ≡ some encoder
        → new_decoder total_symbols size (length source) limits ≡ some d
        → AreSent encoder symbols
        → (segment (accept_all neighbors_for d symbols) ≡ none)
          ⊎ (segment (accept_all neighbors_for d symbols) ≡ some source)
    delivered {fresh} {encoder} limits {d} symbols made held opened sent =
        let (same, pos, nonempty) = loaded_encoder made held in
        let after = accept_all neighbors_for d symbols in
        let sound =
          accept_all-IsSound d symbols (new_decoder-IsSound limits opened)
            (subst (λ e. AreSent e symbols) (sym same) sent) in
        elim (Option-cases (segment after)) [
          | inl none_yet ↦ inl none_yet
          | inr (bytes, h) ↦ inr (h ∙ ap some (segment-IsSound after pos nonempty sound h))
        ]
