-- ===== src/Dedupe/Refine.antt =====
-- The set is a queue of the fingerprints that came last (mobile-web/src/frame-dedupe.ts).
use deqr.Common.{
  ℕ, ◌≤◌, ◌≡◌, refl, sym, ap, ◌∙◌, arith, List, [], ◌∷◌, ◌++◌, length, replicate, length-replicate,
  length-append, drop,
}
use deqr.Common.{
  some, le→ltb, Bool, true, false, ◌==◌, if◌then◌else◌, if_both, Bool-cases, inl, inr,
}
use deqr.Dedupe.{BoundedFingerprintSet, has_in, has, new_set, put, evict_oldest, observe, clear}
use deqr.Dedupe.Ring.{
  Ring, Represents, filling, full, Distinct, put_more, put_last, evict_full, Distinct-append,
  Distinct-drop, has_in-drop,
}

-- What the set is for: the fingerprints that came last, the oldest first.
unfoldable pub remember : ℕ → List ℕ → ℕ → Bool × List ℕ
remember capacity queue x =
    if has_in queue x
    then (true, queue)
    else (false, (if length queue == capacity then drop 1 queue else queue) ++ (x ∷ []))

-- A frame that is looked at, or a new start.
pub data Step : Type 0 where
  observed : ℕ → Step
  cleared : Step

-- The answers to a sequence of steps.
unfoldable pub answers : BoundedFingerprintSet → List Step → List Bool
answers s [] = []
answers s (observed x ∷ steps) = let (known, s) = observe s x in known ∷ answers s steps
answers s (cleared ∷ steps) = answers (clear s) steps

unfoldable pub remembered : ℕ → List ℕ → List Step → List Bool
remembered capacity queue [] = []
remembered capacity queue (observed x ∷ steps) =
    let (known, queue) = remember capacity queue x in known ∷ remembered capacity queue steps
remembered capacity queue (cleared ∷ steps) = remembered capacity [] steps

present_is :
    (s : BoundedFingerprintSet) (queue : List ℕ) (x : ℕ)
    → Represents s queue
    → has s x ≡ has_in queue x
unfolding has
present_is s queue x (filling ys zs r) = r.present x
present_is s queue x (full ys zs r) = r.present x

-- A fingerprint that is new.
abbrev Inserts : BoundedFingerprintSet → List ℕ → ℕ → Type 0
Inserts s queue x =
    Represents (put (if s.count == s.capacity then evict_oldest s else s) x)
      ((if length queue == s.capacity then drop 1 queue else queue) ++ (x ∷ []))

inserts :
    (s : BoundedFingerprintSet) (queue : List ℕ) (x : ℕ)
    → Represents s queue
    → Distinct queue
    → Inserts s queue x
inserts s queue x (filling ys [] r) d = let none_left = r.room in absurd (omega arith)
inserts s queue x (filling ys (z ∷ zs) r) d =
    let size : length queue ≡ length ys = ap length r.queue_is in
    let small : (length queue == s.capacity) ≡ false = ground (arith, size, r.capacity) in
    let short : (s.count == s.capacity) ≡ false = rw r.count small in rw (short, small) (going zs r)
  where
    going : (zs : List ℕ) → Ring s [] ys (z ∷ zs) queue → Represents (put s x) (queue ++ (x ∷ []))
    going [] r = full [] (ys ++ (x ∷ [])) (put_last s x ys z queue r)
    going (z' ∷ zs) r = filling (ys ++ (x ∷ [])) (z' ∷ zs) (put_more s x [] ys z z' zs queue r)
inserts s queue x (full ys [] r) d = let none_left = r.room in absurd (omega arith)
inserts s queue x (full ys (z ∷ zs) r) d =
    let size : length queue ≡ length ((z ∷ zs) ++ ys) = ap length r.queue_is in
    let all : (length queue == s.capacity) ≡ true =
      ground (arith, size, r.capacity, length-append (z ∷ zs) ys) in
    let filled : (s.count == s.capacity) ≡ true = rw r.count all in
    rw (filled, all) (going zs (evict_full s ys z zs queue r d))
  where
    going :
        (zs : List ℕ)
        → Ring (evict_oldest s) zs ys (z ∷ zs) (drop 1 queue)
        → Represents (put (evict_oldest s) x) (drop 1 queue ++ (x ∷ []))
    going [] r = full [] (ys ++ (x ∷ [])) (put_last (evict_oldest s) x ys z (drop 1 queue) r)
    going (z' ∷ zs) r =
        full (ys ++ (x ∷ [])) (z' ∷ zs)
          (put_more (evict_oldest s) x (z' ∷ zs) ys z z' zs (drop 1 queue) r)

-- One frame.
step :
    (s : BoundedFingerprintSet) (queue : List ℕ) (x : ℕ)
    → Represents s queue
    → Distinct queue
    → (let (known, after) = observe s x in
        let (known', after') = remember s.capacity queue x in
        (known ≡ known')
        × ((after.capacity ≡ s.capacity) × (Represents after after' × Distinct after')))
unfolding observe remember put evict_oldest
step s queue x h d = elim (Bool-cases (has_in queue x)) [
  | inl known ↦ rw (present_is s queue x h, known) (refl, (refl, (h, d)))
  | inr new ↦
      rw (present_is s queue x h, new)
        (
          refl,
          (
            if_both (λ (t : BoundedFingerprintSet). t.capacity ≡ s.capacity) (s.count == s.capacity)
                refl refl,
            (
              inserts s queue x h d,
              if_both (λ q. Distinct (q ++ (x ∷ []))) (length queue == s.capacity)
                  (Distinct-append (drop 1 queue) x (Distinct-drop queue d)
                    (has_in-drop queue x new))
                  (Distinct-append queue x d new),
            ),
          ),
        )
]

empty_ring :
    (s : BoundedFingerprintSet) (n : ℕ)
    → 1 ≤ n
    → s.capacity ≡ n
    → s.ring ≡ replicate n 0
    → s.head ≡ 0
    → s.count ≡ 0
    → s.present ≡ []
    → Represents s []
empty_ring s n some_places capacity ring head count present =
    let size = length-replicate {A = ℕ} n 0 in
    filling [] (replicate n 0) record {
      ring = ring;
      head = head;
      room = omega (arith, size);
      capacity = omega (arith, capacity, size);
      queue_is = refl;
      count = count;
      present = λ x. ap (λ t. has_in t x) present;
    }

ring_size :
    (s : BoundedFingerprintSet) (queue : List ℕ)
    → Represents s queue
    → (length s.ring ≡ s.capacity) × (1 ≤ s.capacity)
ring_size s queue (filling ys zs r) =
    let size : length s.ring ≡ length (ys ++ zs) = ap length r.ring in
    (omega (arith, size, length-append ys zs, r.capacity), omega (arith, r.capacity, r.room))
ring_size s queue (full ys zs r) =
    let size : length s.ring ≡ length (ys ++ zs) = ap length r.ring in
    (omega (arith, size, length-append ys zs, r.capacity), omega (arith, r.capacity, r.room))

clear-Represents :
    (s : BoundedFingerprintSet) (queue : List ℕ) → Represents s queue → Represents (clear s) []
unfolding clear
clear-Represents s queue h =
    let (size, some_places) = ring_size s queue h in
    empty_ring (clear s) (length s.ring) (omega (arith, size, some_places)) (sym size) refl refl
      refl refl

clear-capacity : (s : BoundedFingerprintSet) → (clear s).capacity ≡ s.capacity
unfolding clear
clear-capacity s = refl

answers-eq :
    (s : BoundedFingerprintSet) (queue : List ℕ) (steps : List Step)
    → Represents s queue
    → Distinct queue
    → answers s steps ≡ remembered s.capacity queue steps
unfolding answers remembered
answers-eq s queue [] h d = refl
answers-eq s queue (observed x ∷ steps) h d =
    let (same, (size, (h', d'))) = step s queue x h d in
    let after = (observe s x).1 in
    let after' = (remember s.capacity queue x).1 in
    ap (λ b. b ∷ answers after steps) same
    ∙ ap (λ t. (remember s.capacity queue x).0 ∷ t)
        (answers-eq after after' steps h' d' ∙ ap (λ c. remembered c after' steps) size)
answers-eq s queue (cleared ∷ steps) h d =
    answers-eq (clear s) [] steps (clear-Represents s queue h) (unfold Distinct in tt)
    ∙ ap (λ c. remembered c [] steps) (clear-capacity s)

-- A set of some capacity answers a sequence of frames, with new starts between them, as a queue of
-- that many fingerprints does: a frame is known when its fingerprint is in the queue, and one that is
-- not known enters it, the oldest leaving a queue that is full.
pub answers-remembered :
    (capacity : ℕ) (steps : List Step)
    → 1 ≤ capacity
    → (s : BoundedFingerprintSet) × ((new_set capacity ≡ some s)
        × (answers s steps ≡ remembered capacity [] steps))
unfolding new_set
answers-remembered capacity steps h =
    let s : BoundedFingerprintSet = record {
      capacity = capacity;
      present = [];
      ring = replicate capacity 0;
      head = 0;
      count = 0;
    } in
    (
      s,
      (
        rw (le→ltb capacity 1 h) refl,
        answers-eq s [] steps (empty_ring s capacity h refl refl refl refl refl)
            (unfold Distinct in tt),
      ),
    )
