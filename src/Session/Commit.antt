-- ===== src/Session/Commit.antt =====
-- A symbol of a live segment, and the segment that it completes (src/core/segmented-receiver.ts).
use deqr.Common.{
  ℕ, ◌+◌, ◌*◌, ◌≤◌, ◌<◌, ◌≡◌, refl, arith, List, [], ◌∷◌, ◌++◌, length, take, length-append, some,
  none, All-append,
}
use deqr.Common.{true, false, if◌then◌else◌, ◌==◌, div_up_bounds}
use native.Mathlib.Decide.{ℕ_discrete, dec_le}
use mathlib.Core.Path.{subst}
use deqr.Protocol.Types.{DeqrV2Manifest, ok}
use deqr.Protocol.Plan.{SegmentPlan}
use deqr.Protocol.Plan.Shape.{IsPlan}
use deqr.Protocol.Plan.Tiling.{segment_byte_range-eq}
use deqr.Fec.Equations.{lookup, delete}
use deqr.Fec.Equations.Laws.{count, lookup-delete_same, length-delete_le}
use deqr.Fec.Decoder.{SegmentDecoder, bytes_of, is_set, set_bit}
use deqr.Fec.Decoder.Bitmap.{is_set-set_bit, set_bit-IsBytes, length-set_bit, tally-set_bit}
use deqr.Fec.Decoder.Accept.{is_complete}
use deqr.Fec.Decoder.Accept.Complete.{detach_complete}
use deqr.Fec.Delivery.{segment-IsSound}
use deqr.Session.Types.{CompletedSegment, ActiveSegment, SegmentedReceiver}
use deqr.Session.Routing.{commit}
use deqr.Session.Geometry.{cut, length-cut}
use deqr.Session.Valid.{IsValid, IsOf, IsRight, indices}
use deqr.Session.Live.{lookup-delete-some}

indices-append :
    (cs : List CompletedSegment) (c : CompletedSegment) (j : ℕ)
    → count (indices (cs ++ (c ∷ []))) j ≡ count (indices cs) j + count (c.segment_index ∷ []) j
unfolding count
indices-append [] c j = omega arith
indices-append (d ∷ cs) c j = omega (arith, indices-append cs c j)

module _ (m : DeqrV2Manifest) (p : SegmentPlan) (plan : IsPlan p) (stream : List ℕ)
    (whole : length stream ≡ p.transport_size) (adopted : List ℕ) (slots : ℕ) where
  abbrev Valid : SegmentedReceiver → Type 0
  Valid r = IsValid m p plan stream whole adopted slots r

  -- What `commit` hands out of a complete decoder.
  abbrev handed_out : ℕ → SegmentDecoder → CompletedSegment
  handed_out i d = record {
    segment_index = i;
    bytes = take d.segment_bytes (bytes_of d.store);
    byte_offset = p.segment_size_bytes * i;
    symbols_repaired = d.counters.repair_solved_symbols;
    xor_bytes = d.counters.xor_bytes;
  }

  -- The receiver after it.
  abbrev committed : SegmentedReceiver → ℕ → SegmentDecoder → SegmentedReceiver
  committed r i d = record r {
    retired_xor_bytes = r.retired_xor_bytes + d.counters.xor_bytes;
    active = delete r.active i;
    committed_bits = set_bit r.committed_bits i;
    committed_count = r.committed_count + 1;
    counters = record r.counters { segments_committed = r.counters.segments_committed + 1 };
    completed = r.completed ++ (handed_out i d ∷ []);
  }

  module _ (i : ℕ) (d : SegmentDecoder) (inside : i < p.segment_count)
      (sound : IsOf m p plan stream whole adopted slots i d) (complete : is_complete d ≡ true) where
    holds_bytes : 1 ≤ length (bytes_of d.store)
    holds_bytes =
        let (there, pos, most) = length-cut p plan stream whole i inside in
        let y = p.symbol_size_bytes in
        let (above, below) =
          div_up_bounds (length (cut p plan stream i)) y pos (omega (arith, plan.accepted)) in
        grind (arith, sound.store_size, plan.accepted)

    handed_out-IsRight : IsRight m p plan stream whole adopted slots (handed_out i d)
    handed_out-IsRight =
        let (there, pos, most) = length-cut p plan stream whole i inside in
        record {
          in_range = inside;
          bytes_are =
              segment-IsSound (cut p plan stream i) p.symbol_size_bytes d
                (omega (arith, plan.accepted)) pos sound (detach_complete d holds_bytes complete).0;
          placed = refl;
        }

    pub commit-eq : (r : SegmentedReceiver) → r.plan ≡ p → commit r i d ≡ ok (committed r i d)
    unfolding commit
    commit-eq r same =
        rw ((detach_complete d holds_bytes complete).1, same, segment_byte_range-eq p plan i inside)
          refl

    module _ (r : SegmentedReceiver) (v : Valid r) (free : is_set r.committed_bits i ≡ false) where
      bit :
          (j : ℕ)
          → is_set (set_bit r.committed_bits i) j
            ≡ (if i == j then true else is_set r.committed_bits j)
      bit j = is_set-set_bit r.committed_bits i j v.bitmap (omega (arith, v.bitmap_size))

      indexed :
          (j : ℕ)
          → count (indices (r.completed ++ (handed_out i d ∷ []))) j
            ≡ count (indices r.completed) j + (if i == j then 1 else 0)
      unfolding count
      indexed j = omega (arith, indices-append r.completed (handed_out i d) j)

      committed_live :
          (j : ℕ) (e : ActiveSegment)
          → lookup (delete r.active i) j ≡ some e
          → (j < p.segment_count)
            × (is_set (set_bit r.committed_bits i) j ≡ false)
            × IsOf m p plan stream whole adopted slots j e.decoder
      committed_live j e q =
          let (lt, clear, of) = v.live j e (lookup-delete-some r.active i j q) in
          elim (ℕ_discrete i j) [
            | yes same ↦
                let gone : lookup (delete r.active i) j ≡ none =
                  subst (λ k. lookup (delete r.active i) k ≡ none) same
                    (lookup-delete_same r.active i) in
                absurd (cc)
            | no other ↦ (lt, ground (arith, bit j), of)
          ]

      committed_once :
          (j : ℕ)
          → (count (indices (r.completed ++ (handed_out i d ∷ []))) j ≤ 1)
            × (1 ≤ count (indices (r.completed ++ (handed_out i d ∷ []))) j
                → is_set (set_bit r.committed_bits i) j ≡ true)
      committed_once j = elim (ℕ_discrete i j) [
        | yes same ↦
            let clear : is_set r.committed_bits j ≡ false =
              subst (λ k. is_set r.committed_bits k ≡ false) same free in
            let none_before : count (indices r.completed) j ≡ 0 = absent j clear in
            (ground (arith, indexed j), λ h. ground (arith, bit j))
        | no other ↦ (
          ground (arith, indexed j, v.once j),
          λ h. ground (arith, bit j, (v.once j).1 (ground (arith, indexed j))),
        )
      ]
        where
          absent : (j : ℕ) → is_set r.committed_bits j ≡ false → count (indices r.completed) j ≡ 0
          absent j clear = elim (dec_le 1 (count (indices r.completed) j)) [
            | yes h ↦ let set = (v.once j).1 h in absurd (cc)
            | no h ↦ omega arith
          ]

      pub committed-IsValid : Valid (committed r i d)
      committed-IsValid = record {
        manifest_is = v.manifest_is;
        plan_is = v.plan_is;
        bitmap = set_bit-IsBytes r.committed_bits i v.bitmap;
        bitmap_size = omega (arith, v.bitmap_size, length-set_bit r.committed_bits i);
        tallied = omega (
          arith,
          v.tallied,
          tally-set_bit r.committed_bits p.segment_count i v.bitmap (omega (arith, v.bitmap_size))
              free inside,
        );
        total = omega (arith, v.total, length-append r.completed (handed_out i d ∷ []));
        limit = v.limit;
        room = v.room;
        bounded = omega (arith, v.bounded, length-delete_le r.active i);
        live = committed_live;
        right =
            All-append (IsRight m p plan stream whole adopted slots) r.completed
              (handed_out i d ∷ []) v.right (handed_out-IsRight, tt);
        once = committed_once;
        came_from = λ j lt h old. elim (ℕ_discrete i j) [
          | yes same ↦ ground (arith, indexed j)
          | no other ↦ ground (arith, indexed j, v.came_from j lt (ground (arith, bit j)) old)
        ];
      }
