-- ===== src/Common/Lists.antt =====
-- Lists measured, cut and indexed by native numbers, under the library's names.
use mathlib.Core.Path.{subst}
use Prim.Native.Nat.{ℕ, zero, suc, ◌+◌, ◌-◌, ◌≤◌, min}
use mathlib.Core.Path.{◌≡◌, refl, ap, ◌∙◌}
use mathlib.Core.List.{List, [], ◌∷◌, ◌++◌}
use mathlib.Core.Option.{Option, none, some}
use mathlib.Core.Bool.{Bool, true, false}
use deqr.Common.Tests.{if◌then◌else◌, Bool-cases, Option-cases}
use mathlib.Core.Logic.{inl, inr, ◌≢◌}
use native.Mathlib.Nat.{add-zero, suc-add}
use native.Mathlib.Omega.{arith}

module _ {ℓ} {A : Type ℓ} where
  abbrev pub length : List A → ℕ
  length [] = 0
  length (x ∷ xs) = suc (length xs)

  abbrev pub get_elem? : List A → ℕ → Option A
  get_elem? [] i = none
  get_elem? (x ∷ xs) zero = some x
  get_elem? (x ∷ xs) (suc i) = get_elem? xs i

  abbrev pub get_or : List A → ℕ → A → A
  get_or [] i d = d
  get_or (x ∷ xs) zero d = x
  get_or (x ∷ xs) (suc i) d = get_or xs i d

  -- A write out of bounds changes nothing.
  abbrev pub set : List A → ℕ → A → List A
  set [] i v = []
  set (x ∷ xs) zero v = v ∷ xs
  set (x ∷ xs) (suc i) v = x ∷ set xs i v

  abbrev pub take : ℕ → List A → List A
  take zero xs = []
  take (suc n) [] = []
  take (suc n) (x ∷ xs) = x ∷ take n xs

  abbrev pub drop : ℕ → List A → List A
  drop zero xs = xs
  drop (suc n) [] = []
  drop (suc n) (x ∷ xs) = drop n xs

  abbrev pub replicate : ℕ → A → List A
  replicate zero a = []
  replicate (suc n) a = a ∷ replicate n a

-- The entries that pass a test.
unfoldable pub filter {ℓ} : {A : Type ℓ} → (A → Bool) → List A → List A
filter p [] = []
filter p (x ∷ xs) = let rest = filter p xs in if p x then x ∷ rest else rest

unfoldable pub drop_while {ℓ} : {A : Type ℓ} → (A → Bool) → List A → List A
drop_while p [] = []
drop_while p (x ∷ xs) = let rest = drop_while p xs in if p x then rest else x ∷ xs

-- The last suffix whose first entry passes a test.
unfoldable pub from_last {ℓ} : {A : Type ℓ} → (A → Bool) → List A → Option (List A)
from_last p [] = none
from_last p (x ∷ xs) = elim (from_last p xs) [
  | some later ↦ some later
  | none ↦ if p x then some (x ∷ xs) else none
]

abbrev pub All {ℓ κ} : {A : Type ℓ} → (A → Type κ) → List A → Type κ
All P [] = Unit
All P (x ∷ xs) = P x × All P xs

module _ {ℓ} {A : Type ℓ} where
  pub length-append : (xs ys : List A) → length (xs ++ ys) ≡ length xs + length ys
  length-append [] ys = omega arith
  length-append (x ∷ xs) ys = omega (arith, length-append xs ys)

  pub append_nil : (xs : List A) → xs ++ [] ≡ xs
  append_nil [] = refl
  append_nil (x ∷ xs) = ap (λ t. x ∷ t) (append_nil xs)

  pub append_assoc : (xs ys zs : List A) → (xs ++ ys) ++ zs ≡ xs ++ (ys ++ zs)
  append_assoc [] ys zs = refl
  append_assoc (x ∷ xs) ys zs = ap (λ t. x ∷ t) (append_assoc xs ys zs)

  pub length-set : (xs : List A) (i : ℕ) (v : A) → length (set xs i v) ≡ length xs
  length-set [] i v = refl
  length-set (x ∷ xs) zero v = refl
  length-set (x ∷ xs) (suc i) v = ap suc (length-set xs i v)

  pub length-take : (n : ℕ) (xs : List A) → length (take n xs) ≡ min n (length xs)
  length-take zero xs = omega arith
  length-take (suc n) [] = omega arith
  length-take (suc n) (x ∷ xs) = omega (arith, length-take n xs)

  pub length-drop : (n : ℕ) (xs : List A) → length (drop n xs) ≡ length xs - n
  length-drop zero xs = omega arith
  length-drop (suc n) [] = omega arith
  length-drop (suc n) (x ∷ xs) = omega (arith, length-drop n xs)

  pub length-replicate : (n : ℕ) (a : A) → length (replicate n a) ≡ n
  length-replicate zero a = refl
  length-replicate (suc n) a = ap suc (length-replicate n a)

  -- The first `length xs` entries of `xs ++ ys`, and the others.
  pub take-append : (xs ys : List A) → take (length xs) (xs ++ ys) ≡ xs
  take-append [] ys = refl
  take-append (x ∷ xs) ys = ap (λ t. x ∷ t) (take-append xs ys)

  pub drop-append : (xs ys : List A) → drop (length xs) (xs ++ ys) ≡ ys
  drop-append [] ys = refl
  drop-append (x ∷ xs) ys = drop-append xs ys

  pub take-all : (xs : List A) (n : ℕ) → length xs ≡ n → take n xs ≡ xs
  take-all [] zero h = refl
  take-all [] (suc n) h = refl
  take-all (x ∷ xs) zero h = absurd (omega arith)
  take-all (x ∷ xs) (suc n) h = ap (λ t. x ∷ t) (take-all xs n (omega arith))

  pub take-append-drop : (n : ℕ) (xs : List A) → take n xs ++ drop n xs ≡ xs
  take-append-drop zero xs = refl
  take-append-drop (suc n) [] = refl
  take-append-drop (suc n) (x ∷ xs) = ap (λ t. x ∷ t) (take-append-drop n xs)

module _ {ℓ} {A : Type ℓ} where
  pub drop-drop : (m n : ℕ) (xs : List A) → drop m (drop n xs) ≡ drop (n + m) xs
  drop-drop m zero xs = ap (λ k. drop k xs) (omega arith)
  drop-drop zero (suc n) [] = rw add-zero
  drop-drop (suc m) (suc n) [] = rw suc-add
  drop-drop m (suc n) (x ∷ xs) = rw suc-add (drop-drop m n xs)

module _ {ℓ κ} {A : Type ℓ} (P : A → Type κ) where
  pub All-append : (xs ys : List A) → All P xs → All P ys → All P (xs ++ ys)
  All-append [] ys h k = k
  All-append (x ∷ xs) ys h k = (h.0, All-append xs ys h.1 k)

  pub All-take : (n : ℕ) (xs : List A) → All P xs → All P (take n xs)
  All-take zero xs h = tt
  All-take (suc n) [] h = tt
  All-take (suc n) (x ∷ xs) h = (h.0, All-take n xs h.1)

  pub All-drop : (n : ℕ) (xs : List A) → All P xs → All P (drop n xs)
  All-drop zero xs h = h
  All-drop (suc n) [] h = tt
  All-drop (suc n) (x ∷ xs) h = All-drop n xs h.1

module _ {ℓ κ} {A : Type ℓ} (P : A → Type κ) (p : A → Bool) where
  pub All-filter : (xs : List A) → All P xs → All P (filter p xs)
  unfolding filter
  All-filter [] h = tt
  All-filter (x ∷ xs) h = elim (Bool-cases (p x)) [
    | inl e ↦ rw e (h.0, All-filter xs h.1)
    | inr e ↦ rw e (All-filter xs h.1)
  ]

  pub All-drop_while : (xs : List A) → All P xs → All P (drop_while p xs)
  unfolding drop_while
  All-drop_while [] h = tt
  All-drop_while (x ∷ xs) h = elim (Bool-cases (p x)) [
    | inl e ↦ rw e (All-drop_while xs h.1)
    | inr e ↦ rw e h
  ]

module _ {ℓ} {A : Type ℓ} (p : A → Bool) where
  pub filter-All : (xs : List A) → All (λ x. p x ≡ true) (filter p xs)
  unfolding filter
  filter-All [] = tt
  filter-All (x ∷ xs) = elim (Bool-cases (p x)) [
    | inl e ↦ rw e (e, filter-All xs)
    | inr e ↦ rw e (filter-All xs)
  ]

  pub from_last-none : (xs : List A) → from_last p xs ≡ none → All (λ x. p x ≡ false) xs
  unfolding from_last
  from_last-none [] h = tt
  from_last-none (x ∷ xs) h = elim (Option-cases (from_last p xs)) [
    | inl e ↦ elim (Bool-cases (p x)) [ inl q ↦ absurd (cc) | inr q ↦ (q, from_last-none xs e) ]
    | inr (s, e) ↦ absurd (cc)
  ]

module _ {ℓ κ} {A : Type ℓ} (P : A → Type κ) (p : A → Bool) where
  -- A suffix that `from_last` finds has only entries of the list.
  pub All-from_last : (xs : List A) {s : List A} → All P xs → from_last p xs ≡ some s → All P s
  unfolding from_last
  All-from_last [] a h = absurd (cc)
  All-from_last (x ∷ xs) {s} a h = elim (Option-cases (from_last p xs)) [
    | inl e ↦ elim (Bool-cases (p x)) [
      | inl q ↦ let eq : x ∷ xs ≡ s = cc in subst (All P) eq a
      | inr q ↦ absurd (cc)
    ]
    | inr (r, e) ↦ All-from_last xs {s = s} a.1 (cc)
  ]

module _ {ℓ} {A : Type ℓ} (p : A → Bool) where
  -- A suffix that `from_last` finds is its own.
  pub from_last-from_last :
      (xs : List A) {s : List A} → from_last p xs ≡ some s → from_last p s ≡ some s
  unfolding from_last
  from_last-from_last [] h = absurd (cc)
  from_last-from_last (x ∷ xs) {s} h = elim (Option-cases (from_last p xs)) [
    | inl e ↦ elim (Bool-cases (p x)) [
      | inl q ↦ let eq : x ∷ xs ≡ s = cc in subst (λ z. from_last p z ≡ some s) eq h
      | inr q ↦ absurd (cc)
    ]
    | inr (r, e) ↦ from_last-from_last xs {s = s} (cc)
  ]

  pub length-from_last : (xs : List A) {s : List A} → from_last p xs ≡ some s → length s ≤ length xs
  unfolding from_last
  length-from_last [] h = absurd (cc)
  length-from_last (x ∷ xs) {s} h = elim (Option-cases (from_last p xs)) [
    | inl e ↦ elim (Bool-cases (p x)) [
      | inl q ↦ let eq : x ∷ xs ≡ s = cc in subst (λ z. length z ≤ length (x ∷ xs)) eq (omega arith)
      | inr q ↦ absurd (cc)
    ]
    | inr (r, e) ↦
        let shorter : length s ≤ length xs = length-from_last xs {s = s} (cc) in omega arith
  ]

module _ {ℓ} {A : Type ℓ} where
  take-within : (n : ℕ) (xs ys : List A) → n ≤ length xs → take n (xs ++ ys) ≡ take n xs
  take-within zero xs ys h = refl
  take-within (suc n) [] ys h = absurd (omega arith)
  take-within (suc n) (x ∷ xs) ys h = ap (λ t. x ∷ t) (take-within n xs ys (omega arith))

  -- A piece that lies within a prefix.
  pub take-drop-within :
      (n o : ℕ) (xs ys : List A)
      → o + n ≤ length xs
      → take n (drop o (xs ++ ys)) ≡ take n (drop o xs)
  take-drop-within n zero xs ys h = take-within n xs ys (omega arith)
  take-drop-within n (suc o) [] ys h = absurd (omega arith)
  take-drop-within n (suc o) (x ∷ xs) ys h = take-drop-within n o xs ys (omega arith)

  -- The piece at the end of what has been written.
  pub take-drop-last :
      (n o : ℕ) (xs ys : List A) → o ≡ length xs → length ys ≡ n → take n (drop o (xs ++ ys)) ≡ ys
  take-drop-last n o xs ys h k = rw (h, drop-append xs ys) (take-all ys n k)

  -- The piece between what was written before it and what was written after it.
  pub take-drop-field :
      (n o : ℕ) (xs ys zs : List A)
      → o ≡ length xs
      → length ys ≡ n
      → take n (drop o ((xs ++ ys) ++ zs)) ≡ ys
  take-drop-field n o xs ys zs h k =
      take-drop-within n o (xs ++ ys) zs (omega (arith, length-append xs ys))
      ∙ take-drop-last n o xs ys h k

  pub get_or-set_same :
      (xs : List A) (i : ℕ) (v d : A) → suc i ≤ length xs → get_or (set xs i v) i d ≡ v
  get_or-set_same [] i v d h = absurd (omega arith)
  get_or-set_same (x ∷ xs) zero v d h = refl
  get_or-set_same (x ∷ xs) (suc i) v d h = get_or-set_same xs i v d (omega arith)

  pub get_or-set_other :
      (xs : List A) (i j : ℕ) (v d : A) → i ≢ j → get_or (set xs i v) j d ≡ get_or xs j d
  get_or-set_other [] i j v d n = refl
  get_or-set_other (x ∷ xs) zero zero v d n = absurd (n refl)
  get_or-set_other (x ∷ xs) zero (suc j) v d n = refl
  get_or-set_other (x ∷ xs) (suc i) zero v d n = refl
  get_or-set_other (x ∷ xs) (suc i) (suc j) v d n = get_or-set_other xs i j v d (λ e. n (ap suc e))

module _ {ℓ κ} {A : Type ℓ} (P : A → Type κ) where
  pub All-set : (xs : List A) (i : ℕ) (v : A) → P v → All P xs → All P (set xs i v)
  All-set [] i v p h = tt
  All-set (x ∷ xs) zero v p h = (p, h.1)
  All-set (x ∷ xs) (suc i) v p h = (h.0, All-set xs i v p h.1)

  pub All-get_or : (xs : List A) (i : ℕ) (d : A) → P d → All P xs → P (get_or xs i d)
  All-get_or [] i d p h = p
  All-get_or (x ∷ xs) zero d p h = h.0
  All-get_or (x ∷ xs) (suc i) d p h = All-get_or xs i d p h.1

  pub All-replicate : (n : ℕ) (a : A) → P a → All P (replicate n a)
  All-replicate zero a p = tt
  All-replicate (suc n) a p = (p, All-replicate n a p)
