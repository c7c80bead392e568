-- ===== src/Session/Start.antt =====
-- A new SegmentedReceiver is valid, and begins with just the segments that it was given
-- (src/core/segmented-receiver.ts).
use deqr.Common.{
  ℕ, ◌≤◌, ◌<◌, ◌≡◌, refl, sym, ap, ◌∙◌, arith, List, [], length, Option, some, none, All,
  All-replicate, length-replicate,
}
use deqr.Common.{
  Bool, true, false, ◌&&◌, ◌==◌, ==_iff, ltb, leb, if◌then◌else◌, Bool-cases, inl, inr,
}
use mathlib.Core.Path.{subst}
use native.Mathlib.Decide.{dec_lt}
use deqr.Protocol.Types.{DeqrV2Manifest, ok, throws, ok-injective}
use deqr.Protocol.Plan.{SegmentPlan, segment_plan_from_manifest}
use deqr.Protocol.Plan.Shape.{IsPlan}
use deqr.Fec.Equations.{lookup}
use deqr.Fec.Equations.Laws.{count}
use deqr.Fec.Decoder.{is_set}
use deqr.Fec.Decoder.Bitmap.{tally, tally_le, tally-replicate, is_set-replicate}
use deqr.Session.Types.{ActiveSegment, SegmentedReceiver, PartialLimits}
use deqr.Session.Setup.{
  adopt, adopt_given, clear_spare, bitmap_bytes, empty_receiver, new_receiver, is_segment_committed,
}
use deqr.Session.Bits.{
  clear_spare-IsBytes, length-clear_spare, is_set-clear_spare, count_bits-clear_spare,
  tally-clear_spare,
}
use deqr.Session.Valid.{IsValid}

-- The bitmap that the options give.
abbrev pub given_bits : Option (List ℕ) → List ℕ
given_bits none = []
given_bits (some bits) = bits

no_entry : (i : ℕ) {e : ActiveSegment} → lookup [] i ≡ some e → ⊥
unfolding lookup
no_entry i h = cc

count_nil : (i : ℕ) → count [] i ≡ 0
unfolding count
count_nil i = refl

both_false : (a : Bool) → (if a then true else false) ≡ a
both_false true = refl
both_false false = refl

new_receiver-inv :
    (m : DeqrV2Manifest) (most active : ℕ) (limits : PartialLimits) (given : Option (List ℕ))
    {p : SegmentPlan} {r : SegmentedReceiver}
    → segment_plan_from_manifest m ≡ ok p
    → new_receiver m most active limits given ≡ ok r
    → (1 ≤ active) × (adopt_given (empty_receiver m p active limits) given ≡ ok r)
unfolding new_receiver
new_receiver-inv m most active limits given {p} {r} planned h =
    elim (Bool-cases (ltb most m.segment_count)) [
      | inl e ↦ let bad : throws ≡ ok r = rw e at h in absurd (cc)
      | inr e ↦ elim (Bool-cases (leb 1 active)) [
        | inl q ↦
            let h' : adopt_given (empty_receiver m p active limits) given ≡ ok r =
              rw (e, q, planned) at h in
            (ground arith, h')
        | inr q ↦ let bad : throws ≡ ok r = rw (e, q) at h in absurd (cc)
      ]
    ]

module _ (m : DeqrV2Manifest) (p : SegmentPlan) (active : ℕ) (limits : PartialLimits) where
  abbrev empty : SegmentedReceiver
  empty = empty_receiver m p active limits

  -- The receiver after it has adopted a bitmap.
  abbrev pub adopting : List ℕ → SegmentedReceiver
  adopting bits = record empty {
    committed_bits = clear_spare bits m.segment_count;
    committed_count = tally bits m.segment_count;
    adopted_count = tally bits m.segment_count;
  }

  adopt-eq :
      (bits : List ℕ) {r : SegmentedReceiver}
      → All (λ b. b < 256) bits
      → adopt empty bits ≡ ok r
      → (length bits ≡ bitmap_bytes m.segment_count) × (adopting bits ≡ r)
  unfolding adopt
  adopt-eq bits {r} bytes h = elim (Bool-cases (length bits == length empty.committed_bits)) [
    | inl e ↦
        let enough : length bits ≡ bitmap_bytes m.segment_count =
          (==_iff _ _).0 e ∙ length-replicate (bitmap_bytes m.segment_count) 0 in
        let counted = count_bits-clear_spare bits m.segment_count bytes enough in
        (enough, ok-injective (rw (e, counted) at h))
    | inr e ↦ let bad : throws ≡ ok r = rw e at h in absurd (cc)
  ]

  -- A receiver that adopts a bitmap counts the bits of the segments of its manifest, whatever else is
  -- set in the last byte, and never more than there are segments: a segment is committed exactly if it
  -- is one of the manifest's and its bit is set.
  pub adopted_progress :
      (most : ℕ) (bits : List ℕ) {r : SegmentedReceiver}
      → All (λ b. b < 256) bits
      → segment_plan_from_manifest m ≡ ok p
      → new_receiver m most active limits (some bits) ≡ ok r
      → (r.committed_count ≡ tally bits m.segment_count)
        × (r.committed_count ≤ m.segment_count)
        × ((i : ℕ) → is_segment_committed r i ≡ (ltb i m.segment_count && is_set bits i))
  unfolding is_segment_committed
  adopted_progress most bits {r} bytes planned h =
      let (some_active, adopted) = new_receiver-inv m most active limits (some bits) planned h in
      let (enough, same) = adopt-eq bits bytes adopted in
      subst
        (λ (r : SegmentedReceiver).
          (r.committed_count ≡ tally bits m.segment_count)
          × (r.committed_count ≤ m.segment_count)
          × ((i : ℕ)
              → (ltb i r.manifest.segment_count && is_set r.committed_bits i)
                ≡ (ltb i m.segment_count && is_set bits i)))
        same (refl, tally_le bits m.segment_count, λ i. bit i enough)
    where
      bit :
          (i : ℕ)
          → length bits ≡ bitmap_bytes m.segment_count
          → (ltb i m.segment_count && is_set (clear_spare bits m.segment_count) i)
            ≡ (ltb i m.segment_count && is_set bits i)
      bit i enough = elim (dec_lt i m.segment_count) [
        | yes lt ↦
            ground (arith, is_set-clear_spare bits m.segment_count bytes enough i (omega arith))
        | no ge ↦ ground arith
      ]

module _ (m : DeqrV2Manifest) (p : SegmentPlan) (plan : IsPlan p) (stream : List ℕ)
    (whole : length stream ≡ p.transport_size) (segments : m.segment_count ≡ p.segment_count)
    (active : ℕ) (limits : PartialLimits) (some_active : 1 ≤ active) where
  empty-IsValid : IsValid m p plan stream whole [] active (empty m p active limits)
  empty-IsValid =
      let size = bitmap_bytes m.segment_count in
      record {
        manifest_is = refl;
        plan_is = refl;
        bitmap = All-replicate (λ b. b < 256) size 0 (omega arith);
        bitmap_size = omega (arith, length-replicate {A = ℕ} size 0);
        tallied = sym (tally-replicate size p.segment_count);
        total = omega arith;
        limit = refl;
        room = some_active;
        bounded = omega arith;
        live = λ i e h. absurd (no_entry i h);
        right = tt;
        once = λ i. (omega (arith, count_nil i), λ h. absurd (omega (arith, count_nil i)));
        came_from = λ i lt h old. let new = is_set-replicate size i in absurd (cc);
      }

  adopting-IsValid :
      (bits : List ℕ)
      → All (λ b. b < 256) bits
      → length bits ≡ bitmap_bytes m.segment_count
      → IsValid m p plan stream whole bits active (adopting m p active limits bits)
  adopting-IsValid bits bytes enough =
      let n = m.segment_count in
      let kept = length-clear_spare bits n bytes in
      record {
        manifest_is = refl;
        plan_is = refl;
        bitmap = clear_spare-IsBytes bits n bytes;
        bitmap_size = omega (arith, kept);
        tallied =
            sym (tally-clear_spare bits n bytes enough) ∙ ap (tally (clear_spare bits n)) segments;
        total = omega arith;
        limit = refl;
        room = some_active;
        bounded = omega arith;
        live = λ i e h. absurd (no_entry i h);
        right = tt;
        once = λ i. (omega (arith, count_nil i), λ h. absurd (omega (arith, count_nil i)));
        came_from = λ i lt h old. absurd (new_bit i lt h old);
      }
    where
      new_bit :
          (i : ℕ)
          → i < p.segment_count
          → is_set (clear_spare bits m.segment_count) i ≡ true
          → is_set bits i ≡ false
          → ⊥
      new_bit i lt h old =
          ground (arith, is_set-clear_spare bits m.segment_count bytes enough i (omega arith))

  pub new_receiver-IsValid :
      (most : ℕ) (given : Option (List ℕ)) {r : SegmentedReceiver}
      → All (λ b. b < 256) (given_bits given)
      → segment_plan_from_manifest m ≡ ok p
      → new_receiver m most active limits given ≡ ok r
      → IsValid m p plan stream whole (given_bits given) active r
  new_receiver-IsValid most none bytes planned h =
      let (pos, made) = new_receiver-inv m most active limits none planned h in
      subst (IsValid m p plan stream whole [] active) (ok-injective made) empty-IsValid
  new_receiver-IsValid most (some bits) bytes planned h =
      let (pos, made) = new_receiver-inv m most active limits (some bits) planned h in
      let (enough, same) = adopt-eq m p active limits bits bytes made in
      subst (IsValid m p plan stream whole bits active) same (adopting-IsValid bits bytes enough)
