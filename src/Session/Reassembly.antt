-- ===== src/Session/Reassembly.antt =====
-- The file that the completed segments of a SegmentedReceiver make up (src/core/segmented-receiver.ts).
use deqr.Common.{
  ℕ, zero, suc, ◌+◌, ◌-◌, ◌*◌, ◌/◌, ◌≤◌, ◌<◌, ◌≡◌, ◌≢◌, refl, sym, ap, ◌∙◌, arith, List, [], ◌∷◌,
  length, take, drop, get_or, length-take, All,
}
use deqr.Common.{◌⊎◌, inl, inr, true, Bool-cases, ==_iff, piece_of}
use native.Mathlib.Decide.{dec_lt, ℕ_discrete}
use native.Mathlib.Nat.{suc-add, zero-add}
use mathlib.Core.Path.{subst}
use deqr.Protocol.Types.{DeqrV2Manifest}
use deqr.Protocol.Plan.{SegmentPlan}
use deqr.Protocol.Plan.Shape.{IsPlan}
use deqr.Protocol.Plan.Tiling.{segment_of}
use deqr.Protocol.Buffer.{write}
use deqr.Fec.Equations.Laws.{count}
use deqr.Fec.Decoder.Blocks.{length-write}
use deqr.Fec.Decoder.{is_set}
use deqr.Fec.Decoder.Bitmap.{tally_full}
use deqr.Session.Types.{CompletedSegment, SegmentedReceiver, is_complete}
use deqr.Session.Geometry.{cut, length-cut}
use deqr.Session.Valid.{IsValid, IsRight, indices}

-- A file in which each completed segment is written at its offset, in the order of completion.
unfoldable pub written : List ℕ → List CompletedSegment → List ℕ
unfolding write
written file [] = file
written file (c ∷ cs) = written (write file c.byte_offset c.bytes) cs

get_or-write_before :
    (xs : List ℕ) (o : ℕ) (ys : List ℕ) (k : ℕ) → k < o → get_or (write xs o ys) k 0 ≡ get_or xs k 0
unfolding write
get_or-write_before [] o ys k h = refl
get_or-write_before (x ∷ xs) zero ys k h = absurd (omega arith)
get_or-write_before (x ∷ xs) (suc o) ys zero h = refl
get_or-write_before (x ∷ xs) (suc o) ys (suc k) h = get_or-write_before xs o ys k (omega arith)

get_or-write_after :
    (xs : List ℕ) (o : ℕ) (ys : List ℕ) (k : ℕ)
    → o + length ys ≤ k
    → get_or (write xs o ys) k 0 ≡ get_or xs k 0
unfolding write
get_or-write_after [] o ys k h = refl
get_or-write_after (x ∷ xs) (suc o) ys zero h = absurd (omega arith)
get_or-write_after (x ∷ xs) (suc o) ys (suc k) h = get_or-write_after xs o ys k (omega arith)
get_or-write_after (x ∷ xs) zero [] k h = refl
get_or-write_after (x ∷ xs) zero (y ∷ ys) zero h = absurd (omega arith)
get_or-write_after (x ∷ xs) zero (y ∷ ys) (suc k) h = get_or-write_after xs zero ys k (omega arith)

get_or-write_within :
    (xs : List ℕ) (o : ℕ) (ys : List ℕ) (k : ℕ)
    → k < length ys
    → o + k < length xs
    → get_or (write xs o ys) (o + k) 0 ≡ get_or ys k 0
unfolding write
get_or-write_within [] o ys k h l = absurd (omega arith)
get_or-write_within (x ∷ xs) (suc o) ys k h l =
    rw suc-add (get_or-write_within xs o ys k h (omega arith))
get_or-write_within (x ∷ xs) zero [] k h l = absurd (omega arith)
get_or-write_within (x ∷ xs) zero (y ∷ ys) zero h l = refl
get_or-write_within (x ∷ xs) zero (y ∷ ys) (suc k) h l =
    let e : 0 + suc k ≡ suc (0 + k) = omega arith in
    rw e (get_or-write_within xs zero ys k (omega arith) (omega arith))

get_or-drop : (o : ℕ) (xs : List ℕ) (k : ℕ) → get_or (drop o xs) k 0 ≡ get_or xs (o + k) 0
get_or-drop zero xs k = rw zero-add refl
get_or-drop (suc o) [] k = refl
get_or-drop (suc o) (x ∷ xs) k = rw suc-add (get_or-drop o xs k)

get_or-take : (n : ℕ) (xs : List ℕ) (k : ℕ) → k < n → get_or (take n xs) k 0 ≡ get_or xs k 0
get_or-take zero xs k h = absurd (omega arith)
get_or-take (suc n) [] k h = refl
get_or-take (suc n) (x ∷ xs) zero h = refl
get_or-take (suc n) (x ∷ xs) (suc k) h = get_or-take n xs k (omega arith)

-- Lists of one length with the same entries are the same.
same_entries :
    (xs ys : List ℕ)
    → length xs ≡ length ys
    → ((k : ℕ) → k < length xs → get_or xs k 0 ≡ get_or ys k 0)
    → xs ≡ ys
same_entries [] [] h e = refl
same_entries [] (y ∷ ys) h e = absurd (omega arith)
same_entries (x ∷ xs) [] h e = absurd (omega arith)
same_entries (x ∷ xs) (y ∷ ys) h e =
    let first : x ≡ y = e 0 (omega arith) in
    let later = same_entries xs ys (omega arith) (λ k lt. e (suc k) (omega arith)) in cc

module _ (m : DeqrV2Manifest) (p : SegmentPlan) (plan : IsPlan p) (stream : List ℕ)
    (whole : length stream ≡ p.transport_size) (adopted : List ℕ) (slots : ℕ) where
  abbrev size : ℕ
  size = p.segment_size_bytes

  length-written :
      (file : List ℕ) (cs : List CompletedSegment) → length (written file cs) ≡ length file
  unfolding written
  length-written file [] = refl
  length-written file (c ∷ cs) =
      length-written (write file c.byte_offset c.bytes) cs ∙ length-write file c.bytes c.byte_offset

  -- The byte of the stream at a place.
  abbrev Agrees : List ℕ → ℕ → Type 0
  Agrees file k = get_or file k 0 ≡ get_or stream k 0

  cut_byte :
      (i k : ℕ)
      → k < length (cut p plan stream i)
      → get_or (cut p plan stream i) k 0 ≡ get_or stream (size * i + k) 0
  cut_byte i k h =
      get_or-take size (drop (size * i) stream) k
        (omega (arith, length-take size (drop (size * i) stream)))
      ∙ get_or-drop (size * i) stream k

  own_place : (k : ℕ) → (size * (k / size) ≤ k) × (k < size * (k / size) + size)
  own_place k = piece_of size k (omega (arith, plan.accepted))

  -- Writing a piece of the stream puts its bytes there, and changes no other.
  piece_written :
      (file : List ℕ) (i k : ℕ)
      → i < p.segment_count
      → length file ≡ p.transport_size
      → k < p.transport_size
      → (i ≡ k / size) ⊎ Agrees file k
      → Agrees (write file (size * i) (cut p plan stream i)) k
  piece_written file i k inside sized lt known =
      let piece = cut p plan stream i in
      let (ends, pos, most) = length-cut p plan stream whole i inside in
      elim (dec_lt k (size * i)) [
        | yes early ↦
            get_or-write_before file (size * i) piece k early
            ∙ old i known (λ e. too_early i e early)
        | no reached ↦ elim (dec_lt k (size * i + length piece)) [
          | yes here ↦
              let j = k - size * i in
              let place : size * i + j ≡ k = omega arith in
              subst (λ z. get_or (write file (size * i) piece) z 0 ≡ get_or stream z 0) place
                (get_or-write_within file (size * i) piece j (omega arith) (omega arith)
                  ∙ cut_byte i j (omega arith))
          | no late ↦
              get_or-write_after file (size * i) piece k (omega arith)
              ∙ old i known (λ e. too_late i e (omega arith))
        ]
      ]
    where
      old : (i : ℕ) → (i ≡ k / size) ⊎ Agrees file k → i ≢ k / size → Agrees file k
      old i (inl e) n = absurd (n e)
      old i (inr a) n = a

      too_early : (i : ℕ) → i ≡ k / size → k < size * i → ⊥
      too_early i e h = let e' = ap (λ (z : ℕ). size * z) e in omega (arith, own_place k)

      too_late : (i : ℕ) → i ≡ k / size → size * i + size ≤ k → ⊥
      too_late i e h = let e' = ap (λ (z : ℕ). size * z) e in omega (arith, own_place k)

  still_known :
      (is : List ℕ) (file : List ℕ) (i k : ℕ)
      → i < p.segment_count
      → length file ≡ p.transport_size
      → k < p.transport_size
      → (1 ≤ count (i ∷ is) (k / size)) ⊎ Agrees file k
      → (1 ≤ count is (k / size)) ⊎ Agrees (write file (size * i) (cut p plan stream i)) k
  unfolding count
  still_known is file i k inside sized lt (inr a) =
      inr (piece_written file i k inside sized lt (inr a))
  still_known is file i k inside sized lt (inl h) = elim (ℕ_discrete i (k / size)) [
    | yes e ↦ inr (piece_written file i k inside sized lt (inl e))
    | no n ↦ inl (ground arith)
  ]

  -- A place agrees with the stream if its segment is among those written, or if it did before.
  written-Agrees :
      (cs : List CompletedSegment) (file : List ℕ) (k : ℕ)
      → All (IsRight m p plan stream whole adopted slots) cs
      → length file ≡ p.transport_size
      → k < p.transport_size
      → (1 ≤ count (indices cs) (k / size)) ⊎ Agrees file k
      → Agrees (written file cs) k
  unfolding written
  written-Agrees [] file k right sized lt (inl h) = absurd (unfold count in omega arith)
  written-Agrees [] file k right sized lt (inr h) = h
  written-Agrees (c ∷ cs) file k right sized lt known =
      let i = c.segment_index in
      let same : write file c.byte_offset c.bytes ≡ write file (size * i) (cut p plan stream i) =
        ap (λ o. write file o c.bytes) right.0.placed
        ∙ ap (write file (size * i)) right.0.bytes_are in
      subst (λ f. Agrees (written f cs) k) (sym same)
        (written-Agrees cs (write file (size * i) (cut p plan stream i)) k right.1
          (length-write file (cut p plan stream i) (size * i) ∙ sized) lt
          (still_known (indices cs) file i k right.0.in_range sized lt known))

  -- The stream, from a file that had the segments of the earlier run.
  pub written-stream :
      (r : SegmentedReceiver) (old : List ℕ)
      → IsValid m p plan stream whole adopted slots r
      → m.segment_count ≡ p.segment_count
      → is_complete r ≡ true
      → length old ≡ p.transport_size
      → ((k : ℕ) → k < p.transport_size → is_set adopted (k / size) ≡ true → Agrees old k)
      → written old r.completed ≡ stream
  written-stream r old v segments complete sized held =
      same_entries (written old r.completed) stream
        (length-written old r.completed ∙ sized ∙ sym whole)
        (λ k lt.
          written-Agrees r.completed old k v.right sized
            (omega (arith, length-written old r.completed))
            (source k (omega (arith, length-written old r.completed))))
    where
      source :
          (k : ℕ)
          → k < p.transport_size
          → (1 ≤ count (indices r.completed) (k / size)) ⊎ Agrees old k
      source k lt =
          let inside = (segment_of p plan k lt).0 in
          let full : r.committed_count ≡ r.manifest.segment_count = (==_iff _ _).0 complete in
          let counts : r.manifest.segment_count ≡ p.segment_count =
            ap (λ x. x.segment_count) v.manifest_is ∙ segments in
          let committed =
            tally_full r.committed_bits p.segment_count (k / size) (omega (arith, v.tallied))
              inside in
          elim (Bool-cases (is_set adopted (k / size))) [
            | inl e ↦ inr (held k lt e)
            | inr e ↦ inl (v.came_from (k / size) inside committed e)
          ]
