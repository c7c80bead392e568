-- ===== src/Session/Live.antt =====
-- The live segments of a SegmentedReceiver (src/core/segmented-receiver.ts): there is always room for
-- the next one, and its decoder begins right.
use deqr.Common.{
  ℕ, ◌+◌, ◌<◌, ◌≡◌, ◌≢◌, refl, sym, ap, ◌∙◌, arith, List, [], ◌∷◌, length, Option, some, none,
  Option-cases, Bool-cases,
}
use deqr.Common.{◌⊎◌, inl, inr, true, false, leb, ltb}
use native.Mathlib.Decide.{ℕ_discrete, dec_le}
use mathlib.Core.Path.{subst}
use deqr.Protocol.Types.{DeqrV2Manifest, ok}
use deqr.Protocol.Plan.{SegmentPlan}
use deqr.Protocol.Plan.Shape.{IsPlan}
use deqr.Fec.Equations.{lookup, insert, delete}
use deqr.Fec.Equations.Laws.{
  lookup-insert_same, lookup-insert_other, lookup-delete_same, lookup-delete_other,
  length-insert_new, length-delete_lt, some-injective,
}
use deqr.Fec.Decoder.{SegmentDecoderLimits, is_set}
use deqr.Fec.Decoder.Accept.{empty_decoder}
use deqr.Fec.Delivery.{empty_decoder-IsSound}
use deqr.Session.Types.{ActiveSegment, SegmentedReceiver}
use deqr.Session.Setup.{merged_limits}
use deqr.Session.Routing.{least_recent, evict, evict_least_recent, make_room, create, activate}
use deqr.Session.Geometry.{cut, symbols_of, decoder_for-eq}
use deqr.Session.Valid.{IsValid, IsOf, relisted-IsValid}

abbrev pub Table : Type 0
Table = List (ℕ × ActiveSegment)

-- The victim is the one given, or an entry of the table.
abbrev IsVictim : Option (ℕ × ℕ) → Table → Option (ℕ × ℕ) → Type 0
IsVictim given table none = (given ≡ none) × (table ≡ [])
IsVictim given table (some (i, t)) = (given ≡ some (i, t)) ⊎ (lookup table i ≢ none)

lookup_later :
    (j i : ℕ) (e : ActiveSegment) (rest : Table)
    → lookup rest i ≢ none
    → lookup ((j, e) ∷ rest) i ≢ none
unfolding lookup
lookup_later j i e rest h = elim (ℕ_discrete j i) [
  | yes q ↦ λ z. ground arith
  | no q ↦ λ z. h (ground arith)
]

lookup_first : (i : ℕ) (e : ActiveSegment) (rest : Table) → lookup ((i, e) ∷ rest) i ≢ none
unfolding lookup
lookup_first i e rest h = ground arith

IsVictim-cons :
    (given : Option (ℕ × ℕ)) (j t : ℕ) (e : ActiveSegment) (rest : Table) (o : Option (ℕ × ℕ))
    → (given' : Option (ℕ × ℕ)) → (given' ≡ some (j, t)) ⊎ ((given' ≡ given) × (given ≢ none))
    → IsVictim given' rest o
    → IsVictim given ((j, e) ∷ rest) o
IsVictim-cons given j t e rest none given' (inl q) h =
    let bad : some (j, t) ≡ none = sym q ∙ h.0 in absurd (cc)
IsVictim-cons given j t e rest none given' (inr (q, n)) h = absurd (n (sym q ∙ h.0))
IsVictim-cons given j t e rest (some (i, u)) given' (inl q) (inl w) =
    let same : some (j, t) ≡ some (i, u) = sym q ∙ w in
    let index : j ≡ i = cc in
    inr (subst (λ z. lookup ((j, e) ∷ rest) z ≢ none) index (lookup_first j e rest))
IsVictim-cons given j t e rest (some (i, u)) given' (inr (q, n)) (inl w) = inl (sym q ∙ w)
IsVictim-cons given j t e rest (some (i, u)) given' q (inr found) =
    inr (lookup_later j i e rest found)

least_recent-IsVictim :
    (given : Option (ℕ × ℕ)) (table : Table) → IsVictim given table (least_recent given table)
unfolding least_recent
least_recent-IsVictim none [] = (refl, refl)
least_recent-IsVictim (some (i, t)) [] = inl refl
least_recent-IsVictim none ((j, e) ∷ rest) =
    IsVictim-cons none j e.last_touched e rest _ (some (j, e.last_touched)) (inl refl)
      (least_recent-IsVictim (some (j, e.last_touched)) rest)
least_recent-IsVictim (some (i, t)) ((j, e) ∷ rest) = elim (Bool-cases (ltb e.last_touched t)) [
  | inl first ↦ rw first (
      IsVictim-cons (some (i, t)) j e.last_touched e rest _ (some (j, e.last_touched)) (inl refl)
        (least_recent-IsVictim (some (j, e.last_touched)) rest))
  | inr later ↦ rw later (
      IsVictim-cons (some (i, t)) j e.last_touched e rest _ (some (i, t)) (inr (refl, λ z. cc))
        (least_recent-IsVictim (some (i, t)) rest))
]

pub lookup-delete-some :
    (table : Table) (i j : ℕ) {e : ActiveSegment}
    → lookup (delete table i) j ≡ some e
    → lookup table j ≡ some e
lookup-delete-some table i j {e} h = elim (ℕ_discrete i j) [
  | yes q ↦
      let gone : lookup (delete table i) j ≡ none =
        subst (λ k. lookup (delete table i) k ≡ none) q (lookup-delete_same table i) in
      absurd (cc)
  | no n ↦ sym (lookup-delete_other table i j n) ∙ h
]

lookup-delete-none :
    (table : Table) (i j : ℕ) → lookup table j ≡ none → lookup (delete table i) j ≡ none
lookup-delete-none table i j h = elim (ℕ_discrete i j) [
  | yes q ↦ subst (λ k. lookup (delete table i) k ≡ none) q (lookup-delete_same table i)
  | no n ↦ lookup-delete_other table i j n ∙ h
]

module _ (m : DeqrV2Manifest) (p : SegmentPlan) (plan : IsPlan p) (stream : List ℕ)
    (whole : length stream ≡ p.transport_size) (adopted : List ℕ) (slots : ℕ) where
  abbrev Valid : SegmentedReceiver → Type 0
  Valid r = IsValid m p plan stream whole adopted slots r

  -- A receiver with room for one more segment, that has gained none.
  record HasRoom (r r' : SegmentedReceiver) : Type 0 where
    valid : Valid r'
    vacant : length r'.active < r'.max_active_segments
    same_bits : r'.committed_bits ≡ r.committed_bits
    absent : (j : ℕ) → lookup r.active j ≡ none → lookup r'.active j ≡ none

  evict-HasRoom :
      (r : SegmentedReceiver) (i : ℕ) (o : Option ActiveSegment)
      → Valid r
      → lookup r.active i ≡ o
      → o ≢ none
      → HasRoom r (evict r i o)
  unfolding evict
  evict-HasRoom r i none v found n = absurd (n refl)
  evict-HasRoom r i (some e) v found n =
      let shorter = length-delete_lt r.active i (λ z. n (sym found ∙ z)) in
      record {
        valid =
            relisted-IsValid m p plan stream whole adopted slots r
              (record r.counters { segments_evicted = r.counters.segments_evicted + 1 })
              (delete r.active i) r.touch_counter
              (r.retired_xor_bytes + e.decoder.counters.xor_bytes) v (omega (arith, v.bounded))
              (λ j d q. v.live j d (lookup-delete-some r.active i j q));
        vacant = omega (arith, v.bounded);
        same_bits = refl;
        absent = λ j q. lookup-delete-none r.active i j q;
      }

  evict_least_recent-HasRoom :
      (r : SegmentedReceiver) → Valid r → r.active ≢ [] → HasRoom r (evict_least_recent r)
  unfolding evict_least_recent
  evict_least_recent-HasRoom r v nonempty =
      let victim = least_recent-IsVictim none r.active in
      elim (Option-cases (least_recent none r.active)) [
        | inl e ↦ absurd (nonempty (subst (IsVictim none r.active) e victim).1)
        | inr ((i, t), e) ↦
            let found = subst (IsVictim none r.active) e victim in
            rw (e, evict_least_recent)
              (evict-HasRoom r i (lookup r.active i) v refl (in_table i t found))
      ]
    where
      in_table : (i t : ℕ) → IsVictim none r.active (some (i, t)) → lookup r.active i ≢ none
      in_table i t (inl h) = absurd (cc)
      in_table i t (inr h) = h

  make_room-HasRoom : (r : SegmentedReceiver) → Valid r → HasRoom r (make_room r)
  make_room-HasRoom r v = elim (dec_le r.max_active_segments (length r.active)) [
    | yes full ↦
        let test : leb r.max_active_segments (length r.active) ≡ true = ground arith in
        rw test (
          evict_least_recent-HasRoom r v
            (λ (z : r.active ≡ []). omega (arith, v.room, ap length z)))
    | no spare ↦
        let test : leb r.max_active_segments (length r.active) ≡ false = ground arith in
        rw test (record { valid = v; vacant = omega arith; same_bits = refl; absent = λ j q. q })
  ]

  -- What is known of a live segment.
  abbrev IsLive : SegmentedReceiver → ℕ → ActiveSegment → Type 0
  IsLive r i e =
      (i < p.segment_count)
      × (is_set r.committed_bits i ≡ false)
      × IsOf m p plan stream whole adopted slots i e.decoder

  -- A table with one more live segment, or with another entry for one.
  pub added :
      (r : SegmentedReceiver) (i : ℕ) (entry : ActiveSegment)
      → ((j : ℕ) (e : ActiveSegment) → lookup r.active j ≡ some e → IsLive r j e)
      → IsLive r i entry
      → (j : ℕ) (e : ActiveSegment) → lookup (insert r.active i entry) j ≡ some e
      → IsLive r j e
  added r i entry each one j e q = elim (ℕ_discrete i j) [
    | yes same ↦
        let here =
          subst (λ k. lookup (insert r.active i entry) k ≡ some entry) same
            (lookup-insert_same r.active i entry) in
        let equal : entry ≡ e = some-injective (sym here ∙ q) in
        subst (λ k. IsLive r k e) same (subst (IsLive r i) equal one)
    | no other ↦ each j e (sym (lookup-insert_other r.active i j entry other) ∙ q)
  ]

  module _ (sized : m.symbol_size_bytes ≡ p.symbol_size_bytes) (r : SegmentedReceiver) (i : ℕ)
      (inside : i < p.segment_count) where
    -- A segment that is live, in a valid receiver with the same bitmap.
    pub record IsActivated (a : SegmentedReceiver × ActiveSegment) : Type 0 where
      pub valid : Valid a.0
      pub bits_same : a.0.committed_bits ≡ r.committed_bits
      pub found : lookup a.0.active i ≡ some a.1

    begun :
        (limits : SegmentDecoderLimits)
        → IsOf m p plan stream whole adopted slots i (
            empty_decoder
              (symbols_of p plan stream whole i)
              p.symbol_size_bytes
              (length (cut p plan stream i))
              limits)
    begun limits = empty_decoder-IsSound (cut p plan stream i) p.symbol_size_bytes limits

    create-IsActivated :
        (r' : SegmentedReceiver)
        → HasRoom r r'
        → lookup r.active i ≡ none
        → is_set r.committed_bits i ≡ false
        → (a : SegmentedReceiver × ActiveSegment) × (create r' i ≡ ok a) × IsActivated a
    unfolding create
    create-IsActivated r' room missing free =
        let v = room.valid in
        let limits = merged_limits r'.decoder_limits (symbols_of p plan stream whole i) in
        let fresh =
          empty_decoder (symbols_of p plan stream whole i) p.symbol_size_bytes
            (length (cut p plan stream i)) limits in
        let entry : ActiveSegment = record { decoder = fresh; last_touched = r'.touch_counter } in
        let made =
          decoder_for-eq p plan stream whole r' i v.plan_is
            (ap (λ x. x.symbol_size_bytes) v.manifest_is ∙ sized) inside in
        (
          (record r' { active = insert r'.active i entry }, entry),
          rw made refl,
          record {
            valid =
                relisted-IsValid m p plan stream whole adopted slots r' r'.counters
                  (insert r'.active i entry) r'.touch_counter r'.retired_xor_bytes v
                  (omega (
                    arith,
                    length-insert_new r'.active i entry (room.absent i missing),
                    room.vacant,
                  ))
                  (λ j e q.
                    added r' i entry v.live
                      (inside, ap (λ b. is_set b i) room.same_bits ∙ free, begun limits) j e q);
            bits_same = room.same_bits;
            found = lookup-insert_same r'.active i entry;
          },
        )

    -- The segment of a valid frame becomes live, whatever was live.
    pub activate-IsActivated :
        Valid r
        → is_set r.committed_bits i ≡ false
        → (a : SegmentedReceiver × ActiveSegment) × (activate r i ≡ ok a) × IsActivated a
    unfolding activate
    activate-IsActivated v free = elim (Option-cases (lookup r.active i)) [
      | inl e ↦ rw (e, activate) (create-IsActivated (make_room r) (make_room-HasRoom r v) e free)
      | inr (entry, e) ↦
          ((r, entry), rw (e, activate) refl, record { valid = v; bits_same = refl; found = e })
    ]
