-- ===== src/Fec/Decoder/Loop.antt =====
-- The whole ripple keeps the segment decoder sound, and its queue runs empty within the fuel
-- (src/core/segment-decoder.ts).
use deqr.Common.{
  ℕ, zero, suc, ◌+◌, ◌-◌, ◌≤◌, ◌<◌, ◌≡◌, refl, arith, List, [], ◌∷◌, ◌++◌, length, All, All-append,
  length-append,
}
use deqr.Common.{Option, none, some, true}
use deqr.Fec.Equations.{lookup, delete}
use deqr.Fec.Equations.Laws.{lookup-delete_same, delete_all}
use deqr.Fec.Decoder.{
  SegmentDecoder, Rippling, is_solved, ripple_equation, ripple_referring, ripple_block, ripple_loop,
  ripple,
}
use deqr.Fec.Decoder.Bitmap.{tally_le}
use deqr.Fec.Decoder.Sound.{Refers, IsSound, Grows}
use deqr.Fec.Decoder.Steps.{IsMid}
use deqr.Fec.Decoder.Settle.{Known, ripple_equation-IsStep}

module _ (k size total : ℕ) (sent : ℕ → List ℕ) (sized : (n : ℕ) → length (sent n) ≡ size) where
  All-Known :
      (d d' : SegmentDecoder) (q : List ℕ)
      → Grows k size total sent d d'
      → All (Known k size total sent sized d) q
      → All (Known k size total sent sized d') q
  All-Known d d' [] g h = tt
  All-Known d d' (i ∷ q) g h = ((h.0.0, g i h.0.1), All-Known d d' q g h.1)

  -- What a part of the ripple does to the decoder and to the queue.
  pub record IsRippled (r r' : Rippling) : Type 0 where
    pub sound : IsSound k size total sent r'.decoder
    pub grows : Grows k size total sent r.decoder r'.decoder
    pub queued : All (Known k size total sent sized r'.decoder) r'.queue
    pub balance :
        r'.decoder.solved_count + length r.queue ≡ r.decoder.solved_count + length r'.queue

  ripple_referring-IsRippled :
      (r : Rippling) (b : ℕ) (ids : List ℕ)
      → IsMid k size total sent sized r.decoder b ids
      → All (Known k size total sent sized r.decoder) r.queue
      → IsRippled r (ripple_referring r b ids)
  unfolding ripple_referring
  ripple_referring-IsRippled r b [] m q = record {
    sound = m.sound;
    grows = λ i h. h;
    queued = q;
    balance = refl;
  }
  ripple_referring-IsRippled r b (id ∷ ids) m q =
      let d' = (ripple_equation r.decoder b id).0 in
      let found = (ripple_equation r.decoder b id).1 in
      let step = ripple_equation-IsStep k size total sent sized r.decoder b id ids m in
      let r1 : Rippling = record {
        decoder = d';
        queue = found ++ r.queue;
        solved = r.solved + length found;
      } in
      let rest = ripple_referring-IsRippled r1 b ids step.mid (
        All-append (Known k size total sent sized d') found r.queue step.found_known
          (All-Known r.decoder d' r.queue step.grows q)) in
      record {
        sound = rest.sound;
        grows = λ i h. rest.grows i (step.grows i h);
        queued = rest.queued;
        balance = omega (arith, rest.balance, step.counted, length-append found r.queue);
      }

  -- The equations of a block are taken off the index and visited.
  ripple_block-IsRippled :
      (r : Rippling) (b : ℕ) (o : Option (List ℕ))
      → lookup r.decoder.dependents b ≡ o
      → IsSound k size total sent r.decoder
      → Known k size total sent sized r.decoder b
      → All (Known k size total sent sized r.decoder) r.queue
      → IsRippled r (ripple_block r b o)
  unfolding ripple_block
  ripple_block-IsRippled r b none h s known q = record {
    sound = s;
    grows = λ i h. h;
    queued = q;
    balance = refl;
  }
  ripple_block-IsRippled r b (some ids) h s known q =
      let deps = delete r.decoder.dependents b in
      let taken = record r { decoder = record r.decoder { dependents = deps } } in
      let rippled =
        ripple_referring-IsRippled taken b ids
          (record {
            sound = record {
              count_is = s.count_is;
              bytes_is = s.bytes_is;
              size_is = s.size_is;
              not_closed = s.not_closed;
              store_size = s.store_size;
              bitmap = s.bitmap;
              bitmap_size = s.bitmap_size;
              tallied = s.tallied;
              known = s.known;
              equations = s.equations;
              referring =
                  delete_all (λ n is. Refers r.decoder.pending n is) r.decoder.dependents b
                    s.referring;
            };
            gone = lookup-delete_same r.decoder.dependents b;
            left = s.referring b ids h;
            below = known.0;
            solved = known.1;
          })
          q in
      record {
        sound = rippled.sound;
        grows = rippled.grows;
        queued = rippled.queued;
        balance = rippled.balance;
      }

  -- The state after the loop: sound, and with an empty queue.
  pub record IsDone (d : SegmentDecoder) (r : Rippling) : Type 0 where
    pub sound : IsSound k size total sent r.decoder
    pub grows : Grows k size total sent d r.decoder
    pub emptied : r.queue ≡ []

  ripple_loop-IsDone :
      (fuel : ℕ) (d : SegmentDecoder) (q : List ℕ) (n : ℕ)
      → IsSound k size total sent d
      → All (Known k size total sent sized d) q
      → length q + (k - d.solved_count) ≤ fuel
      → IsDone d (ripple_loop fuel d q n)
  unfolding ripple_loop
  ripple_loop-IsDone fuel d [] n s q le = record { sound = s; grows = λ i h. h; emptied = refl }
  ripple_loop-IsDone zero d (b ∷ q) n s k le = absurd (omega arith)
  ripple_loop-IsDone (suc fuel) d (b ∷ q) n s known le =
      let r0 : Rippling = record { decoder = d; queue = q; solved = n } in
      let r = ripple_block r0 b (lookup d.dependents b) in
      let rippled = ripple_block-IsRippled r0 b (lookup d.dependents b) refl s known.0 known.1 in
      let most = tally_le r.decoder.solved_bits k in
      let fewer : length r.queue + (k - r.decoder.solved_count) ≤ fuel =
        omega (arith, rippled.balance, rippled.sound.tallied, most, le) in
      let rest =
        ripple_loop-IsDone fuel r.decoder r.queue r.solved rippled.sound rippled.queued fewer in
      record {
        sound = rest.sound;
        grows = λ i h. rest.grows i (rippled.grows i h);
        emptied = rest.emptied;
      }

  -- From a sound state and a symbol that is known, the ripple ends within its fuel: its queue is
  -- empty, its state is sound, and every symbol that was known still is.
  pub ripple-IsDone :
      (d : SegmentDecoder) (i : ℕ)
      → IsSound k size total sent d
      → i < k
      → is_solved d i ≡ true
      → IsDone d (ripple d i)
  unfolding ripple
  ripple-IsDone d i s lt solved =
      ripple_loop-IsDone (d.source_symbol_count + 1) d (i ∷ []) 0 s ((lt, solved), tt)
        (omega (arith, s.count_is))
