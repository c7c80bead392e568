-- ===== src/Session/Frames.antt =====
-- Every frame keeps a SegmentedReceiver valid, and none makes it throw
-- (src/core/segmented-receiver.ts).
use deqr.Common.{
  ℕ, ◌+◌, ◌≤◌, ◌<◌, ◌≡◌, refl, sym, ap, ◌∙◌, arith, List, length, Option, some, none, Option-cases,
}
use deqr.Common.{◌⊎◌, Bool, true, false, if◌then◌else◌, ltb, lt→ltb, Bool-cases, inl, inr, if_both}
use mathlib.Core.Path.{subst}
use deqr.Protocol.Types.{
  DeqrV2Manifest, DeqrV2DataFrame, V2ErrorCode, V2Result, ok, fail, rejects, throws, returns, ◌>>=◌,
}
use deqr.Protocol.Plan.{SegmentPlan, source_symbol_count_for_segment}
use deqr.Protocol.Plan.Shape.{IsPlan}
use deqr.Protocol.Buffer.{zeros}
use deqr.Protocol.Frame.{validate_data_frame_against_manifest}
use deqr.Fec.Equations.{lookup, insert}
use deqr.Fec.Equations.Laws.{count, length-insert_old}
use deqr.Fec.Encoder.{SegmentEncoder, new_encoder, load_segment, symbol_into}
use deqr.Fec.Decoder.{SegmentDecoder, is_set}
use deqr.Fec.Decoder.Accept.{SegmentAcceptResult, is_complete, accept}
use deqr.Fec.Decoder.Accept.Complete.{accept-Tells}
use deqr.Fec.Delivery.{loaded, loaded_encoder, accept_written-IsSound}
use deqr.Session.Types.{
  ActiveSegment, SegmentedReceiver, SegmentedReceiverStats, ReceiveAcceptResult,
}
use deqr.Session.Setup.{is_segment_committed}
use deqr.Session.Routing.{
  commit, settle, is_duplicate, is_rejected, touch, counted, advance, accept_valid, accept_frame,
}
use deqr.Session.Geometry.{cut, symbols_of}
use deqr.Session.Valid.{IsValid, IsOf, recounted-IsValid, relisted-IsValid}
use deqr.Session.Live.{activate-IsActivated, added}
use deqr.Session.Commit.{commit-eq, committed-IsValid}

V2Result-cases {ℓ} :
    {A : Type ℓ} (x : V2Result A)
    → returns x ≡ true
    → ((code : V2ErrorCode) × (x ≡ fail code)) ⊎ ((a : A) × (x ≡ ok a))
V2Result-cases throws h = absurd (cc)
V2Result-cases (rejects code) h = absurd (cc)
V2Result-cases (fail code) h = inl (code, refl)
V2Result-cases (ok a) h = inr (a, refl)

-- With a plan for the manifest's number of segments, a frame is tested without an exception.
returns-validate_data_frame :
    (f : DeqrV2DataFrame) (m : DeqrV2Manifest) (p : SegmentPlan)
    → m.segment_count ≡ p.segment_count
    → returns (validate_data_frame_against_manifest f m p) ≡ true
unfolding validate_data_frame_against_manifest source_symbol_count_for_segment
returns-validate_data_frame f m p segments = ground arith

module _ (m : DeqrV2Manifest) (p : SegmentPlan) (plan : IsPlan p) (stream : List ℕ)
    (whole : length stream ≡ p.transport_size) (adopted : List ℕ) (slots : ℕ) where
  abbrev Valid : SegmentedReceiver → Type 0
  Valid r = IsValid m p plan stream whole adopted slots r

  -- The call returns, with a valid receiver.
  abbrev IsFine : V2Result SegmentedReceiver → Type 0
  IsFine throws = ⊥
  IsFine (rejects code) = ⊥
  IsFine (fail code) = ⊥
  IsFine (ok r) = Valid r

  abbrev pub Returns : V2Result (SegmentedReceiver × ReceiveAcceptResult) → Type 0
  Returns throws = ⊥
  Returns (rejects code) = ⊥
  Returns (fail code) = ⊥
  Returns (ok o) = Valid o.0

  pub Returns-inv :
      (x : V2Result (SegmentedReceiver × ReceiveAcceptResult))
      → Returns x
      → (o : SegmentedReceiver × ReceiveAcceptResult) × (x ≡ ok o) × Valid o.0
  Returns-inv throws h = absurd h
  Returns-inv (rejects code) h = absurd h
  Returns-inv (fail code) h = absurd h
  Returns-inv (ok o) h = (o, refl, h)

  Returns-bind :
      (x : V2Result SegmentedReceiver) (answer : SegmentedReceiver → ReceiveAcceptResult)
      → IsFine x
      → Returns (x >>= λ r. ok (r, answer r))
  Returns-bind throws answer h = h
  Returns-bind (rejects code) answer h = h
  Returns-bind (fail code) answer h = h
  Returns-bind (ok r) answer h = h

  module _ (i : ℕ) (inside : i < p.segment_count) where
    committed_or_not :
        (r : SegmentedReceiver) (d : SegmentDecoder) (complete : Bool)
        → Valid r
        → is_set r.committed_bits i ≡ false
        → IsOf m p plan stream whole adopted slots i d
        → (complete ≡ true → is_complete d ≡ true)
        → IsFine (if complete then commit r i d else ok r)
    committed_or_not r d false v free of h = v
    committed_or_not r d true v free of h =
        let done = h refl in
        rw (commit-eq m p plan stream whole adopted slots i d inside of done r v.plan_is)
          (committed-IsValid m p plan stream whole adopted slots i d inside of done r v free)

    settle-Returns :
        (r : SegmentedReceiver) (d : SegmentDecoder) (result : SegmentAcceptResult)
        → Valid r
        → is_set r.committed_bits i ≡ false
        → IsOf m p plan stream whole adopted slots i d
        → (result.complete ≡ true → is_complete d ≡ true)
        → Returns (settle r i d result)
    unfolding settle
    settle-Returns r d result v free of h =
        let c : SegmentedReceiverStats =
          if is_duplicate result.status
          then record r.counters { frames_duplicate = r.counters.frames_duplicate + 1 }
          else record r.counters { frames_accepted = r.counters.frames_accepted + 1 } in
        if_both Returns (is_rejected result.status)
          (recounted-IsValid m p plan stream whole adopted slots r _ v)
          (Returns-bind
            (if result.complete
              then commit (record r { counters = c }) i d
              else ok (record r { counters = c }))
            _
            (committed_or_not (record r { counters = c }) d result.complete
              (recounted-IsValid m p plan stream whole adopted slots r c v) free of h))

  module _ (neighbors_for : ℕ → ℕ → List ℕ)
      (distinct : (i id n : ℕ)
        → i < p.segment_count
        → count (neighbors_for id (symbols_of p plan stream whole i)) n ≤ 1) where
    -- The payload that an encoder writes, made for the symbol size and loaded with a segment.
    abbrev pub loaded_symbol : SegmentEncoder → ℕ → ℕ → Option (List ℕ)
    loaded_symbol fresh i id = elim (load_segment fresh (cut p plan stream i)) [
      | none ↦ none
      | some encoder ↦ symbol_into neighbors_for encoder id (zeros p.symbol_size_bytes)
    ]

    abbrev pub encoded_symbol : ℕ → ℕ → Option (List ℕ)
    encoded_symbol i id = elim (new_encoder p.symbol_size_bytes) [
      | none ↦ none
      | some fresh ↦ loaded_symbol fresh i id
    ]

    -- A frame that the receiver does not refuse carries a symbol that was written for its segment.
    abbrev pub IsHonest : DeqrV2DataFrame → Type 0
    IsHonest f =
        validate_data_frame_against_manifest f m p ≡ ok tt
        → encoded_symbol f.segment_index f.symbol_id ≡ some f.payload

    encoded_symbol-inv :
        (i id : ℕ) {payload : List ℕ}
        → encoded_symbol i id ≡ some payload
        → symbol_into neighbors_for
            (loaded (cut p plan stream i) p.symbol_size_bytes)
            id
            (zeros p.symbol_size_bytes)
          ≡ some payload
    encoded_symbol-inv i id {payload} h = elim (Option-cases (new_encoder p.symbol_size_bytes)) [
      | inl e ↦ let bad : none ≡ some payload = rw (e, encoded_symbol) at h in absurd (cc)
      | inr (fresh, made) ↦
          let h' : loaded_symbol fresh i id ≡ some payload = rw (made, encoded_symbol) at h in
          elim (Option-cases (load_segment fresh (cut p plan stream i))) [
            | inl e ↦ let bad : none ≡ some payload = rw (e, loaded_symbol) at h' in absurd (cc)
            | inr (encoder, held) ↦
                let h'' : symbol_into neighbors_for encoder id (zeros p.symbol_size_bytes)
                    ≡ some payload =
                  rw (held, loaded_symbol) at h' in
                let (same, size, bytes) =
                  loaded_encoder (cut p plan stream i) p.symbol_size_bytes made held in
                subst
                  (λ e. symbol_into neighbors_for e id (zeros p.symbol_size_bytes) ≡ some payload)
                  (sym same) h''
          ]
    ]

    -- A symbol of a live segment.
    advance-Returns :
        (r : SegmentedReceiver) (f : DeqrV2DataFrame) (entry : ActiveSegment)
        → Valid r
        → lookup r.active f.segment_index ≡ some entry
        → encoded_symbol f.segment_index f.symbol_id ≡ some f.payload
        → Returns (advance neighbors_for r f entry)
    unfolding advance touch
    advance-Returns r f entry v found honest =
        let i = f.segment_index in
        let (inside, free, of) = v.live i entry found in
        let d = (accept neighbors_for entry.decoder f.symbol_id f.payload).0 in
        let of' : IsOf m p plan stream whole adopted slots i d =
          accept_written-IsSound (cut p plan stream i) p.symbol_size_bytes neighbors_for
            (λ id n. distinct i id n inside) entry.decoder f.symbol_id f.payload of
            (encoded_symbol-inv i f.symbol_id honest) in
        let entry' : ActiveSegment = record { decoder = d; last_touched = r.touch_counter + 1 } in
        settle-Returns i inside (touch r i entry d) d
          (accept neighbors_for entry.decoder f.symbol_id f.payload).1
          (relisted-IsValid m p plan stream whole adopted slots r
            (counted r.counters entry.decoder.counters d.counters) (insert r.active i entry')
            (r.touch_counter + 1) r.retired_xor_bytes v
            (omega (arith, v.bounded, length-insert_old r.active i entry' found))
            (added m p plan stream whole adopted slots r i entry' v.live (inside, free, of')))
          free of' (accept-Tells neighbors_for entry.decoder f.symbol_id f.payload)

    module _ (sized : m.symbol_size_bytes ≡ p.symbol_size_bytes)
        (segments : m.segment_count ≡ p.segment_count) where
      accept_valid-Returns :
          (r : SegmentedReceiver) (f : DeqrV2DataFrame)
          → Valid r
          → f.segment_index < p.segment_count
          → encoded_symbol f.segment_index f.symbol_id ≡ some f.payload
          → Returns (accept_valid neighbors_for r f)
      unfolding accept_valid is_segment_committed
      accept_valid-Returns r f v inside honest =
          let i = f.segment_index in
          let counts : r.manifest.segment_count ≡ p.segment_count =
            ap (λ x. x.segment_count) v.manifest_is ∙ segments in
          let test : ltb i r.manifest.segment_count ≡ true = lt→ltb _ _ (omega (arith, counts)) in
          elim (Bool-cases (is_set r.committed_bits i)) [
            | inl old ↦ rw (test, old) (recounted-IsValid m p plan stream whole adopted slots r _ v)
            | inr free ↦
                let (a, live, good) =
                  activate-IsActivated m p plan stream whole adopted slots sized r i inside v
                    free in
                rw (test, free, live) (advance-Returns a.0 f a.1 good.valid good.found honest)
          ]

      validated :
          (f : DeqrV2DataFrame)
          → validate_data_frame_against_manifest f m p ≡ ok tt
          → f.segment_index < p.segment_count
      unfolding validate_data_frame_against_manifest source_symbol_count_for_segment
      validated f h = ground arith

      -- A valid receiver takes any frame: it does not throw, and is valid after it.
      pub accept_frame-Returns :
          (r : SegmentedReceiver) (f : DeqrV2DataFrame)
          → Valid r
          → IsHonest f
          → Returns (accept_frame neighbors_for r f)
      unfolding accept_frame
      accept_frame-Returns r f v honest =
          if_both Returns r.released (recounted-IsValid m p plan stream whole adopted slots r _ v)
            (elim (V2Result-cases (validate_data_frame_against_manifest f r.manifest r.plan)
              (rw (v.manifest_is, v.plan_is) (returns-validate_data_frame f m p segments))) [
                | inl (code, e) ↦ rw e (recounted-IsValid m p plan stream whole adopted slots r _ v)
                | inr (unit, e) ↦
                    let e' : validate_data_frame_against_manifest f m p ≡ ok tt =
                      rw (v.manifest_is, v.plan_is) at e in
                    rw e (accept_valid-Returns r f v (validated f e') (honest e'))
              ])
