-- ===== src/Fec/Decoder/Accept/Progress.antt =====
-- No symbol makes SegmentDecoder.accept forget one, and a source symbol is known after it
-- (src/core/segment-decoder.ts).
use deqr.Common.{
  ℕ, ◌*◌, ◌≤◌, ◌<◌, ◌≡◌, refl, sym, ap, ◌∙◌, arith, List, [], ◌∷◌, length, Option, some, none, All,
}
use deqr.Common.{
  Bool, true, false, not, ◌&&◌, ◌||◌, ltb, leb, ◌==◌, ==_iff, Bool-cases, inl, inr, if_both,
  if_true, if_false, lt→ltb, le→ltb,
}
use native.Mathlib.Decide.{dec_lt}
use mathlib.Core.Path.{subst}
use deqr.Fec.Symbols.Laws.{xor_of, xor_into-zeros}
use deqr.Fec.Equations.{lookup, includes}
use deqr.Fec.Equations.Laws.{count}
use deqr.Fec.Decoder.{SegmentDecoder, is_solved, bytes_of, solve, store_equation}
use deqr.Fec.Decoder.Bitmap.{tally_full}
use deqr.Fec.Decoder.Sound.{IsSound, Grows, put_mark-Grows, put_mark_solved}
use deqr.Fec.Decoder.Settle.{solve-IsSound}
use deqr.Fec.Decoder.Loop.{ripple-IsDone}
use deqr.Fec.Decoder.Accept.{
  SegmentAcceptResult, place_source, accept_source, use_equation, remember_repair_id, admit_repair,
  all_below, is_pending, is_absent, is_complete, accept_repair, accept,
}
use deqr.Fec.Decoder.Accept.Safety.{
  place_source-IsSound, admitting, admitting-IsUsable, all_below-All, not_pending, or_right,
  and_right,
}

module _ (k size total : ℕ) (sent : ℕ → List ℕ) (sized : (n : ℕ) → length (sent n) ≡ size) where
  abbrev Sound : SegmentDecoder → Type 0
  Sound = IsSound k size total sent

  use_equation-Grows :
      (d : SegmentDecoder) (id : ℕ) (residual unknown : List ℕ)
      → Sound d
      → residual ≡ xor_of size sent unknown
      → All (λ n. (n < k) × (is_solved d n ≡ false)) unknown
      → Grows k size total sent d (use_equation d id residual unknown).0
  unfolding use_equation store_equation
  use_equation-Grows d id residual [] s holds unknowns = λ i h. h
  use_equation-Grows d id residual (i ∷ []) s holds ((lt, new), u) =
      let right : residual ≡ sent i = holds ∙ xor_into-zeros (sent i) size in
      let done =
        ripple-IsDone k size total sent sized (solve d i residual) i
          (solve-IsSound k size total sent sized d i residual s lt right new) lt
          (unfold solve in put_mark_solved k size total sent d i residual s lt) in
      λ j h. done.grows j (unfold solve in put_mark-Grows k size total sent d i residual s lt j h)
  use_equation-Grows d id residual (i ∷ j ∷ ns) s holds unknowns = λ i h. h

  remember-Grows :
      (d : SegmentDecoder) (id : ℕ) → Grows k size total sent d (remember_repair_id d id)
  unfolding remember_repair_id
  remember-Grows d id =
      if_both (Grows k size total sent d)
        (ltb (length d.seen_repair_ids) d.limits.max_tracked_repair_ids) (λ i h. h) (λ i h. h)

  admit_repair-Grows :
      (d : SegmentDecoder) (id : ℕ) (payload ns : List ℕ)
      → Sound d
      → lookup d.pending id ≡ none
      → payload ≡ xor_of size sent ns
      → All (λ n. n < k) ns
      → ((n : ℕ) → count ns n ≤ 1)
      → Grows k size total sent d (admit_repair d id payload ns).0
  unfolding admit_repair
  admit_repair-Grows d id payload ns s new holds range distinct =
      let a = admitting k size total sent sized d id payload ns in
      let u =
        admitting-IsUsable k size total sent sized d id payload ns s new holds range distinct in
      λ i h.
        use_equation-Grows a.0 id a.1.residual a.1.unknown u.sound u.holds u.unknowns i
          (remember-Grows d id i h)

  accept_source-Grows :
      (d : SegmentDecoder) (i : ℕ) (payload : List ℕ)
      → Sound d
      → i < k
      → payload ≡ sent i
      → Grows k size total sent d (accept_source d i payload).0
        × (is_solved (accept_source d i payload).0 i ≡ true)
  unfolding accept_source
  accept_source-Grows d i payload s lt right = elim (Bool-cases (is_solved d i)) [
    | inl held ↦ rw held (λ j h. h, held)
    | inr new ↦
        let known : is_solved (place_source d i payload) i ≡ true =
          unfold place_source in put_mark_solved k size total sent d i payload s lt in
        let done =
          ripple-IsDone k size total sent sized (place_source d i payload) i
            (place_source-IsSound k size total sent sized d i payload s lt right new) lt known in
        rw new (
          λ j h.
              done.grows j
                (unfold place_source in put_mark-Grows k size total sent d i payload s lt j h),
          done.grows i known,
        )
  ]

  module _ (neighbors_for : ℕ → ℕ → List ℕ)
      (distinct : (id n : ℕ) → count (neighbors_for id k) n ≤ 1) where
    accept_repair-Grows :
        (d : SegmentDecoder) (id : ℕ) (payload : List ℕ)
        → Sound d
        → payload ≡ xor_of size sent (neighbors_for id k)
        → Grows k size total sent d (accept_repair neighbors_for d id payload).0
    unfolding accept_repair
    accept_repair-Grows d id payload s right =
        let P = λ (a : SegmentDecoder × SegmentAcceptResult). Grows k size total sent d a.0 in
        let seen = includes d.seen_repair_ids id || is_pending (lookup d.pending id) in
        let ns = neighbors_for id d.source_symbol_count in
        let named : neighbors_for id k ≡ ns = ap (neighbors_for id) (sym s.count_is) in
        let in_range =
          leb 1 (length ns)
          && leb (length ns) d.source_symbol_count
          && all_below ns d.source_symbol_count in
        elim (Bool-cases seen) [
          | inl e ↦ rw e (λ i h. h)
          | inr e ↦ rw e (
              if_both P
                (leb d.limits.max_pending_equations (length d.pending)
                  || leb d.limits.max_pending_neighbor_refs d.pending_neighbor_refs)
                (λ i h. h)
                (elim (Bool-cases in_range) [
                  | inl q ↦ rw q (
                      admit_repair-Grows d id payload ns s
                        (not_pending _ (or_right (includes d.seen_repair_ids id) _ e))
                        (right ∙ ap (xor_of size sent) named)
                        (all_below-All k size total sent sized ns (
                          subst (λ z. all_below ns z ≡ true) s.count_is
                            (and_right _ (all_below ns d.source_symbol_count) q)))
                        (λ n. subst (λ z. count z n ≤ 1) named (distinct id n)))
                  | inr q ↦ rw q (λ i h. h)
                ]))
        ]

    stored : (d : SegmentDecoder) → Sound d → 1 ≤ k * size → is_absent d.store ≡ false
    stored d s pos = present d.store (omega (arith, s.store_size))
      where
        present : (o : Option (List ℕ)) → 1 ≤ length (bytes_of o) → is_absent o ≡ false
        present none h = absurd (omega arith)
        present (some b) h = refl

    open_and_stored :
        (d : SegmentDecoder) → Sound d → 1 ≤ k * size → (d.closed || is_absent d.store) ≡ false
    open_and_stored d s pos = neither d.closed (is_absent d.store) s.not_closed (stored d s pos)
      where
        neither : (a b : Bool) → a ≡ false → b ≡ false → (a || b) ≡ false
        neither false b h h' = h'
        neither true b h h' = cc

    all_known :
        (d : SegmentDecoder) (i : ℕ) → Sound d → is_complete d ≡ true → i < k → is_solved d i ≡ true
    all_known d i s complete lt =
        tally_full d.solved_bits k i
          (omega (
            arith,
            s.tallied,
            s.count_is,
            (==_iff d.solved_count d.source_symbol_count).0 complete,
          ))
          lt

    -- A sound decoder knows after any symbol what it knew before, and the symbol if it is a source symbol.
    pub accept-Grows :
        (d : SegmentDecoder) (id : ℕ) (payload : List ℕ)
        → 1 ≤ k * size
        → k ≤ 0xffff_ffff
        → Sound d
        → (id < k → payload ≡ sent id)
        → (k ≤ id → payload ≡ xor_of size sent (neighbors_for id k))
        → Grows k size total sent d (accept neighbors_for d id payload).0
          × (id < k → is_solved (accept neighbors_for d id payload).0 id ≡ true)
    unfolding accept
    accept-Grows d id payload pos small s source repair =
        let P = λ (a : SegmentDecoder × SegmentAcceptResult).
          Grows k size total sent d a.0 × (id < k → is_solved a.0 id ≡ true) in
        if_false P (d.closed || is_absent d.store) _ (open_and_stored d s pos)
          (elim (Bool-cases (is_complete d)) [
            | inl e ↦ if_true P (is_complete d) _ e (λ i h. h, λ lt. all_known d id s e lt)
            | inr e ↦ if_false P (is_complete d) _ e (elim (dec_lt id k) [
              | yes below ↦
                  let size_fits : (length payload == d.symbol_size_bytes) ≡ true =
                    (==_iff _ _).1 (ap length (source below) ∙ sized id ∙ sym s.size_is) in
                  let (grows, known) = accept_source-Grows d id payload s below (source below) in
                  if_false P (ltb 0xffff_ffff id) _ (le→ltb 0xffff_ffff id (omega arith)) (
                    if_false P (not (length payload == d.symbol_size_bytes)) _ (ap not size_fits) (
                      if_true P (ltb id d.source_symbol_count) _
                        (lt→ltb id d.source_symbol_count (omega (arith, s.count_is)))
                        (grows, λ lt. known)))
              | no above ↦
                  let never : id < k → ⊥ = above in
                  if_both P (ltb 0xffff_ffff id) (λ i h. h, λ lt. absurd (never lt))
                    (if_both P (not (length payload == d.symbol_size_bytes))
                      (λ i h. h, λ lt. absurd (never lt))
                      (if_false P (ltb id d.source_symbol_count) _
                        (le→ltb id d.source_symbol_count (omega (arith, s.count_is)))
                        (
                          accept_repair-Grows d id payload s (repair (omega arith)),
                          λ lt. absurd (never lt),
                        )))
            ])
          ])
