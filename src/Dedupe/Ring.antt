-- ===== src/Dedupe/Ring.antt =====
-- The ring of the set, and what one call does to it (mobile-web/src/frame-dedupe.ts).
use deqr.Common.{append_nil, append_assoc}
use deqr.Common.{
  ℕ, ◌+◌, ◌%◌, ◌≤◌, ◌≡◌, refl, sym, ap, ◌∙◌, arith, List, [], ◌∷◌, ◌++◌, length, get_or, set,
  length-append, length-drop, filter, drop,
}
use deqr.Common.{false, not, ◌&&◌, ◌||◌, ◌==◌}
use mathlib.Core.Path.{subst}
use native.Mathlib.Decide.{ℕ_discrete}
use deqr.Dedupe.{BoundedFingerprintSet, has_in, put, evict_oldest}
use native.Mathlib.Nat.{mod-eq_of_lt, mod_self}

-- The ring is `ys ++ zs`, and what is written next takes the first place of `zs`. A full ring holds
-- the older fingerprints in `zs`; until it is full, `zs` is what it was filled with.
pub record Ring (s : BoundedFingerprintSet) (older ys zs queue : List ℕ) : Type 0 where
  pub ring : s.ring ≡ ys ++ zs
  pub head : s.head ≡ length ys
  pub room : 1 ≤ length zs
  pub capacity : s.capacity ≡ length ys + length zs
  pub queue_is : queue ≡ older ++ ys
  pub count : s.count ≡ length queue
  pub present : (x : ℕ) → has_in s.present x ≡ has_in queue x

pub data Represents (s : BoundedFingerprintSet) (queue : List ℕ) : Type 0 where
  filling : (ys zs : List ℕ) → Ring s [] ys zs queue → Represents s queue
  full : (ys zs : List ℕ) → Ring s zs ys zs queue → Represents s queue

-- No fingerprint stands twice in the queue.
unfoldable pub Distinct : List ℕ → Type 0
Distinct [] = Unit
Distinct (x ∷ xs) = (has_in xs x ≡ false) × Distinct xs

pub set_next :
    (ys zs : List ℕ) (z x : ℕ) → set (ys ++ (z ∷ zs)) (length ys) x ≡ (ys ++ (x ∷ [])) ++ zs
set_next [] zs z x = refl
set_next (y ∷ ys) zs z x = ap (λ t. y ∷ t) (set_next ys zs z x)

pub get_next : (ys zs : List ℕ) (z : ℕ) → get_or (ys ++ (z ∷ zs)) (length ys) 0 ≡ z
get_next [] zs z = refl
get_next (y ∷ ys) zs z = get_next ys zs z

pub has_in-append : (xs ys : List ℕ) (x : ℕ) → has_in (xs ++ ys) x ≡ (has_in xs x || has_in ys x)
unfolding has_in
has_in-append [] ys x = refl
has_in-append (y ∷ xs) ys x = ground (arith, has_in-append xs ys x)

pub has_in-filter :
    (xs : List ℕ) (z x : ℕ)
    → has_in (filter (λ y. not (y == z)) xs) x ≡ (has_in xs x && not (x == z))
unfolding has_in filter
has_in-filter [] z x = refl
has_in-filter (y ∷ xs) z x = ground (arith, has_in-filter xs z x)

pub put_present :
    (s : BoundedFingerprintSet) (x : ℕ) (queue : List ℕ)
    → ((y : ℕ) → has_in s.present y ≡ has_in queue y)
    → (y : ℕ) → has_in (x ∷ s.present) y ≡ has_in (queue ++ (x ∷ [])) y
put_present s x queue h y =
    let both = has_in-append queue (x ∷ []) y in unfold has_in in ground (arith, h y, both)

pub put_more :
    (s : BoundedFingerprintSet) (x : ℕ) (older ys : List ℕ) (z z' : ℕ) (zs queue : List ℕ)
    → Ring s older ys (z ∷ z' ∷ zs) queue
    → Ring (put s x) older (ys ++ (x ∷ [])) (z' ∷ zs) (queue ++ (x ∷ []))
unfolding put
put_more s x older ys z z' zs queue r = record {
  ring = rw (r.ring, r.head) (set_next ys (z' ∷ zs) z x);
  head =
      mod-eq_of_lt (omega (arith, r.head, r.capacity))
      ∙ omega (arith, r.head, length-append ys (x ∷ []));
  room = omega arith;
  capacity = omega (arith, r.capacity, length-append ys (x ∷ []));
  queue_is = ap (λ t. t ++ (x ∷ [])) r.queue_is ∙ append_assoc older ys (x ∷ []);
  count = omega (arith, r.count, length-append queue (x ∷ []));
  present = put_present s x queue r.present;
}

pub put_last :
    (s : BoundedFingerprintSet) (x : ℕ) (ys : List ℕ) (z : ℕ) (queue : List ℕ)
    → Ring s [] ys (z ∷ []) queue
    → Ring (put s x) (ys ++ (x ∷ [])) [] (ys ++ (x ∷ [])) (queue ++ (x ∷ []))
unfolding put
put_last s x ys z queue r = record {
  ring = rw (r.ring, r.head) (set_next ys [] z x ∙ append_nil (ys ++ (x ∷ [])));
  head = ap (λ n. n % s.capacity) (omega (arith, r.head, r.capacity)) ∙ mod_self s.capacity;
  room = omega (arith, length-append ys (x ∷ []));
  capacity = omega (arith, r.capacity, length-append ys (x ∷ []));
  queue_is = ap (λ t. t ++ (x ∷ [])) r.queue_is ∙ sym (append_nil (ys ++ (x ∷ [])));
  count = omega (arith, r.count, length-append queue (x ∷ []));
  present = put_present s x queue r.present;
}

pub without_oldest :
    (z : ℕ) (rest : List ℕ) (y : ℕ)
    → has_in rest z ≡ false
    → (has_in (z ∷ rest) y && not (y == z)) ≡ has_in rest y
unfolding has_in
without_oldest z rest y new = elim (ℕ_discrete y z) [
  | yes same ↦
      let gone : has_in rest y ≡ false = subst (λ k. has_in rest k ≡ false) (sym same) new in
      ground (arith, gone, same)
  | no other ↦ ground (arith, other)
]

pub evict_full :
    (s : BoundedFingerprintSet) (ys : List ℕ) (z : ℕ) (zs queue : List ℕ)
    → Ring s (z ∷ zs) ys (z ∷ zs) queue
    → Distinct queue
    → Ring (evict_oldest s) zs ys (z ∷ zs) (drop 1 queue)
unfolding evict_oldest Distinct
evict_full s ys z zs queue r d = record {
  ring = r.ring;
  head = r.head;
  room = r.room;
  capacity = r.capacity;
  queue_is = ap (drop 1) r.queue_is;
  count = omega (arith, r.count, length-drop 1 queue);
  present = λ y.
      rw (r.ring, r.head, get_next ys zs z)
        (has_in-filter s.present z y
          ∙ ap (λ b. b && not (y == z)) (r.present y ∙ ap (λ q. has_in q y) r.queue_is)
          ∙ without_oldest z (zs ++ ys) y (subst Distinct r.queue_is d).0
          ∙ ap (λ q. has_in (drop 1 q) y) (sym r.queue_is));
}

pub Distinct-append :
    (queue : List ℕ) (x : ℕ)
    → Distinct queue
    → has_in queue x ≡ false
    → Distinct (queue ++ (x ∷ []))
unfolding Distinct has_in
Distinct-append [] x d new = (refl, tt)
Distinct-append (y ∷ ys) x d new =
    let both = has_in-append ys (x ∷ []) y in
    (ground (arith, both, d.0), Distinct-append ys x d.1 (ground (arith, new)))

pub Distinct-drop : (queue : List ℕ) → Distinct queue → Distinct (drop 1 queue)
unfolding Distinct
Distinct-drop [] d = tt
Distinct-drop (x ∷ xs) d = d.1

pub has_in-drop :
    (queue : List ℕ) (x : ℕ) → has_in queue x ≡ false → has_in (drop 1 queue) x ≡ false
unfolding has_in
has_in-drop [] x h = h
has_in-drop (y ∷ ys) x h = ground (arith, h)
