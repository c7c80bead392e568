-- ===== src/Fec/Decoder/Accept/Closed.antt =====
-- A segment decoder that was closed: SegmentDecoder.detach of src/core/segment-decoder.ts.
use deqr.Common.{ℕ, ◌≡◌, refl, sym, ap, List, [], Option, none, some}
use mathlib.Core.Path.{subst}
use deqr.Fec.Equations.Laws.{some-injective}
use deqr.Fec.Decoder.{SegmentDecoder}
use deqr.Fec.Decoder.Accept.{closed, reject, accept, segment, detach, detached, release}

-- The store is gone, with the equations and their index. The bitmap of a released decoder is kept.
pub record IsClosed (neighbors_for : ℕ → ℕ → List ℕ) (d : SegmentDecoder) : Type 0 where
  pub no_store : d.store ≡ none
  pub no_equations : (d.pending ≡ []) × (d.dependents ≡ []) × (d.seen_repair_ids ≡ [])
  pub no_segment : segment d ≡ none
  pub no_second : detach d ≡ none
  pub refuses : (id : ℕ) (payload : List ℕ) → accept neighbors_for d id payload ≡ reject d closed

release-IsClosed :
    (neighbors_for : ℕ → ℕ → List ℕ) (d : SegmentDecoder) → IsClosed neighbors_for (release d)
unfolding release accept segment detach
release-IsClosed neighbors_for d = record {
  no_store = refl;
  no_equations = (refl, refl, refl);
  no_segment = refl;
  no_second = refl;
  refuses = λ id payload. refl;
}

detached-inv :
    (d : SegmentDecoder) (o : Option (List ℕ)) {r : SegmentDecoder × List ℕ}
    → detached d o ≡ some r
    → (d ≡ r.0) × (o ≡ some r.1)
detached-inv d none h = absurd (cc)
detached-inv d (some bytes) h =
    let same = some-injective h in (ap (λ r. r.0) same, ap (λ r. some r.1) same)

-- What `detach` hands out is the segment, and it leaves the released decoder.
pub detach-IsClosed :
    (neighbors_for : ℕ → ℕ → List ℕ) (d : SegmentDecoder) (r : SegmentDecoder × List ℕ)
    → detach d ≡ some r
    → (segment d ≡ some r.1) × IsClosed neighbors_for r.0 × (r.0.solved_bits ≡ d.solved_bits)
unfolding detach release
detach-IsClosed neighbors_for d r h =
    let (same, bytes) = detached-inv (release d) (segment d) h in
    (
      bytes,
      subst (IsClosed neighbors_for) same (release-IsClosed neighbors_for d),
      sym (ap (λ (x : SegmentDecoder). x.solved_bits) same),
    )
