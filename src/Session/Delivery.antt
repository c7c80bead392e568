-- ===== src/Session/Delivery.antt =====
-- A whole transfer through SegmentedReceiver (src/core/segmented-receiver.ts): frames in some order.
use deqr.Common.{
  ℕ, ◌/◌, ◌≤◌, ◌<◌, ◌≡◌, refl, sym, ◌+◌, arith, List, [], ◌∷◌, length, get_or, All, Option, true,
}
use mathlib.Core.Path.{subst}
use deqr.Protocol.Types.{DeqrV2Manifest, DeqrV2DataFrame, V2Result, ok, ◌>>=◌}
use deqr.Protocol.Plan.{SegmentPlan, segment_plan_from_manifest}
use deqr.Protocol.Plan.Shape.{IsPlan}
use deqr.Fec.Equations.Laws.{count}
use deqr.Fec.Decoder.{is_set}
use deqr.Session.Types.{SegmentedReceiver, PartialLimits, is_complete}
use deqr.Session.Setup.{new_receiver}
use deqr.Session.Routing.{accept_frame}
use deqr.Session.Geometry.{symbols_of}
use deqr.Session.Valid.{IsValid, indices}
use deqr.Session.Frames.{IsHonest, Returns-inv, accept_frame-Returns}
use deqr.Session.Start.{given_bits, new_receiver-IsValid}
use deqr.Session.Reassembly.{written, written-stream}

module _ (neighbors_for : ℕ → ℕ → List ℕ) where
  -- The receiver after frames that arrived in this order.
  unfoldable pub receive : SegmentedReceiver → List DeqrV2DataFrame → V2Result SegmentedReceiver
  unfolding accept_frame
  receive r [] = ok r
  receive r (f ∷ fs) = accept_frame neighbors_for r f >>= λ o. receive o.0 fs

module _ (m : DeqrV2Manifest) (p : SegmentPlan) (plan : IsPlan p) (stream : List ℕ)
    (whole : length stream ≡ p.transport_size) (neighbors_for : ℕ → ℕ → List ℕ)
    (distinct : (i id n : ℕ)
      → i < p.segment_count
      → count (neighbors_for id (symbols_of p plan stream whole i)) n ≤ 1)
    (sized : m.symbol_size_bytes ≡ p.symbol_size_bytes)
    (segments : m.segment_count ≡ p.segment_count) (adopted : List ℕ) (slots : ℕ) where
  abbrev pub AreHonest : List DeqrV2DataFrame → Type 0
  AreHonest = All (IsHonest m p plan stream whole adopted slots neighbors_for distinct)

  receive-IsValid :
      (fs : List DeqrV2DataFrame) (r : SegmentedReceiver)
      → IsValid m p plan stream whole adopted slots r
      → AreHonest fs
      → (r' : SegmentedReceiver) × (receive neighbors_for r fs ≡ ok r')
        × IsValid m p plan stream whole adopted slots r'
  unfolding receive
  receive-IsValid [] r v h = (r, refl, v)
  receive-IsValid (f ∷ fs) r v h =
      let (o, e, v') =
        Returns-inv m p plan stream whole adopted slots (accept_frame neighbors_for r f) (
          accept_frame-Returns m p plan stream whole adopted slots neighbors_for distinct sized
            segments r f v h.0) in
      rw e (receive-IsValid fs o.0 v' h.1)

  -- A receiver is made for a manifest whose plan has the declared number of segments, with room for
  -- `slots` decoders, with any other limits, and with or without the bitmap of an earlier run. It is
  -- given any data frames, of which those that belong to the manifest carry a symbol that an encoder
  -- wrote for their segment: in any order, with losses and repetitions. Then no frame makes it throw;
  -- it holds at most `slots` decoders; what it has committed is what it adopted and what it handed
  -- out; no segment is handed out twice; and if it is complete, the segments that it handed out,
  -- written at their offsets into a file that has the adopted ones, make up the stream.
  pub received :
      (most : ℕ) (limits : PartialLimits) (given : Option (List ℕ)) {r : SegmentedReceiver}
      (frames : List DeqrV2DataFrame) (file : List ℕ)
      → segment_plan_from_manifest m ≡ ok p
      → 1 ≤ slots
      → adopted ≡ given_bits given
      → All (λ b. b < 256) adopted
      → new_receiver m most slots limits given ≡ ok r
      → AreHonest frames
      → length file ≡ p.transport_size
      → ((k : ℕ)
          → k < p.transport_size
          → is_set adopted (k / p.segment_size_bytes) ≡ true
          → get_or file k 0 ≡ get_or stream k 0)
      → (r' : SegmentedReceiver) × (receive neighbors_for r frames ≡ ok r')
        × (length r'.active ≤ slots)
        × (r'.committed_count ≡ r'.adopted_count + length r'.completed)
        × ((i : ℕ) → count (indices r'.completed) i ≤ 1)
        × (is_complete r' ≡ true → written file r'.completed ≡ stream)
  received most limits given {r} frames file planned some_slots same bytes made honest sized_file
        held =
      let start =
        subst (λ z. IsValid m p plan stream whole z slots r) (sym same)
          (new_receiver-IsValid m p plan stream whole segments slots limits some_slots most given
            (subst (λ z. All (λ b. b < 256) z) same bytes) planned made) in
      let (r', e, v) = receive-IsValid frames r start honest in
      (
        r',
        e,
        omega (arith, v.bounded, v.limit),
        v.total,
        λ i. (v.once i).0,
        λ complete.
            written-stream m p plan stream whole adopted slots r' file v segments complete
              sized_file held,
      )
