-- ===== src/Fec/Equations/Laws.antt =====
-- The maps and the arrays of the segment decoder (src/core/segment-decoder.ts): what a lookup finds,
-- and how often an entry occurs.
use deqr.Common.{
  ℕ, suc, ◌+◌, ◌-◌, ◌≤◌, ◌<◌, ◌≡◌, ◌≢◌, refl, sym, ap, ◌∙◌, arith, List, [], ◌∷◌, ◌++◌, length,
  take, get_or,
}
use deqr.Common.{Option, none, some, true, false, ◌==◌, ==_iff, if◌then◌else◌, Bool-cases, inl, inr}
use native.Mathlib.Decide.{ℕ_discrete}
use mathlib.Core.Path.{subst}
use deqr.Fec.Equations.{lookup, delete, insert, next_index, index_of, swap_at, swap_remove}

module _ {ℓ} {V : Type ℓ} where
  pub lookup-delete_same : (m : List (ℕ × V)) (k : ℕ) → lookup (delete m k) k ≡ none
  unfolding lookup delete
  lookup-delete_same [] k = refl
  lookup-delete_same ((j, v) ∷ rest) k = ground (arith, lookup-delete_same rest k)

  pub lookup-delete_other :
      (m : List (ℕ × V)) (k j : ℕ) → k ≢ j → lookup (delete m k) j ≡ lookup m j
  unfolding lookup delete
  lookup-delete_other [] k j n = refl
  lookup-delete_other ((i, v) ∷ rest) k j n = ground (arith, lookup-delete_other rest k j n)

  pub lookup-insert_same : (m : List (ℕ × V)) (k : ℕ) (v : V) → lookup (insert m k v) k ≡ some v
  unfolding lookup insert
  lookup-insert_same [] k v = ground arith
  lookup-insert_same ((i, w) ∷ rest) k v = ground (arith, lookup-insert_same rest k v)

  pub lookup-insert_other :
      (m : List (ℕ × V)) (k j : ℕ) (v : V) → k ≢ j → lookup (insert m k v) j ≡ lookup m j
  unfolding lookup insert
  lookup-insert_other [] k j v n = ground arith
  lookup-insert_other ((i, w) ∷ rest) k j v n = ground (arith, lookup-insert_other rest k j v n)

  pub length-insert_new :
      (m : List (ℕ × V)) (k : ℕ) (v : V) → lookup m k ≡ none → length (insert m k v) ≡ length m + 1
  unfolding lookup insert
  length-insert_new [] k v h = omega arith
  length-insert_new ((j, w) ∷ rest) k v h = ground (arith, length-insert_new rest k v)

  pub length-insert_old :
      (m : List (ℕ × V)) (k : ℕ) (v : V) {w : V}
      → lookup m k ≡ some w
      → length (insert m k v) ≡ length m
  unfolding lookup insert
  length-insert_old [] k v h = absurd (cc)
  length-insert_old ((j, u) ∷ rest) k v {w} h = elim (ℕ_discrete j k) [
    | yes e ↦ ground arith
    | no n ↦
        let later : lookup rest k ≡ some w = ground arith in
        ground (arith, length-insert_old rest k v {w = w} later)
  ]

  pub length-delete_le : (m : List (ℕ × V)) (k : ℕ) → length (delete m k) ≤ length m
  unfolding delete
  length-delete_le [] k = omega arith
  length-delete_le ((j, w) ∷ rest) k = ground (arith, length-delete_le rest k)

  pub length-delete_lt :
      (m : List (ℕ × V)) (k : ℕ) → lookup m k ≢ none → length (delete m k) < length m
  unfolding lookup delete
  length-delete_lt [] k h = absurd (h refl)
  length-delete_lt ((j, w) ∷ rest) k h = elim (ℕ_discrete j k) [
    | yes e ↦ ground (arith, length-delete_le rest k)
    | no n ↦
        let later : lookup rest k ≢ none = λ q. h (ground arith) in
        ground (arith, length-delete_lt rest k later)
  ]

abbrev pub one : ℕ → ℕ → ℕ
one x v = if x == v then 1 else 0

-- How often a value occurs.
unfoldable pub count : List ℕ → ℕ → ℕ
count [] v = 0
count (x ∷ xs) v = one x v + count xs v

pub count-append : (xs ys : List ℕ) (v : ℕ) → count (xs ++ ys) v ≡ count xs v + count ys v
unfolding count
count-append [] ys v = omega arith
count-append (x ∷ xs) ys v = omega (arith, count-append xs ys v)

-- A list that is not empty, with its last entry in front.
abbrev pub last_first : ℕ → List ℕ → List ℕ
last_first y r = get_or (y ∷ r) (length r) 0 ∷ take (length r) (y ∷ r)

pub count-last_first : (y : ℕ) (r : List ℕ) (v : ℕ) → count (last_first y r) v ≡ count (y ∷ r) v
unfolding count
count-last_first y [] v = refl
count-last_first y (z ∷ r) v = omega (arith, count-last_first z r v)

-- swap_remove by recursion.
pub swap_remove_one : (x v : ℕ) → swap_remove (x ∷ []) v ≡ (if x == v then [] else x ∷ [])
unfolding swap_remove index_of
swap_remove_one x v = ground arith

pred : (n : ℕ) → suc n - 1 ≡ n
pred n = omega arith

swap_at-next :
    (x y : ℕ) (r : List ℕ) (o : Option ℕ)
    → swap_at (x ∷ y ∷ r) (next_index o) ≡ x ∷ swap_at (y ∷ r) o
swap_at-next x y r none = refl
swap_at-next x y r (some i) = rw (pred (suc (length r)), pred (length r)) refl

pub swap_remove_more :
    (x y v : ℕ) (r : List ℕ)
    → swap_remove (x ∷ y ∷ r) v ≡ (if x == v then last_first y r else x ∷ swap_remove (y ∷ r) v)
unfolding swap_remove index_of
swap_remove_more x y v r = elim (Bool-cases (x == v)) [
  | inl e ↦ rw (e, pred (suc (length r))) refl
  | inr e ↦ rw e (swap_at-next x y r (index_of (y ∷ r) v))
]

pub one_same : (v : ℕ) → one v v ≡ 1
one_same v = ground arith

one_self : (x v : ℕ) → (x == v) ≡ true → one x v ≡ 1
one_self x v h = ground arith

pub one_other : (x v : ℕ) → (x == v) ≡ false → one x v ≡ 0
one_other x v h = ground arith

-- A value that occurs is removed once, and no other value is touched.
pub count-swap_remove :
    (xs : List ℕ) (v n : ℕ) → 1 ≤ count xs v → one v n + count (swap_remove xs v) n ≡ count xs n
unfolding count
count-swap_remove [] v n h = absurd (omega arith)
count-swap_remove (x ∷ []) v n h = elim (Bool-cases (x == v)) [
  | inl e ↦ rw (swap_remove_one x v, e) (ground arith)
  | inr e ↦ absurd (ground (arith, one_other x v e))
]
count-swap_remove (x ∷ y ∷ r) v n h = elim (Bool-cases (x == v)) [
  | inl e ↦
      rw (swap_remove_more x y v r, e)
        (omega (arith, ap (λ k. one k n) ((==_iff x v).0 e), count-last_first y r n))
  | inr e ↦
      rw (swap_remove_more x y v r, e)
        (omega (arith, count-swap_remove (y ∷ r) v n (omega (arith, h, one_other x v e))))
]

-- Every entry that is left was there.
pub count-swap_remove_le : (xs : List ℕ) (v n : ℕ) → count (swap_remove xs v) n ≤ count xs n
unfolding count
count-swap_remove_le [] v n = unfold swap_remove in omega arith
count-swap_remove_le (x ∷ []) v n = elim (Bool-cases (x == v)) [
  | inl e ↦ rw (swap_remove_one x v, e) (omega arith)
  | inr e ↦ rw (swap_remove_one x v, e) (omega arith)
]
count-swap_remove_le (x ∷ y ∷ r) v n = elim (Bool-cases (x == v)) [
  | inl e ↦ rw (swap_remove_more x y v r, e) (omega (arith, count-last_first y r n))
  | inr e ↦ rw (swap_remove_more x y v r, e) (omega (arith, count-swap_remove_le (y ∷ r) v n))
]

pub some-injective {ℓ} : {V : Type ℓ} {v w : V} → some v ≡ some w → v ≡ w
some-injective h = cc

-- What holds of all entries and of a new one holds of all entries afterwards.
module _ {ℓ κ} {V : Type ℓ} (P : ℕ → V → Type κ) (m : List (ℕ × V)) (k : ℕ) where
  pub insert_all :
      (v : V)
      → ((j : ℕ) (w : V) → lookup m j ≡ some w → P j w)
      → P k v
      → (j : ℕ) (w : V) → lookup (insert m k v) j ≡ some w
      → P j w
  insert_all v h p j w found = elim (ℕ_discrete k j) [
    | yes same ↦
        let at_k : lookup (insert m k v) k ≡ some w =
          subst (λ z. lookup (insert m k v) z ≡ some w) (sym same) found in
        let eq : v ≡ w = some-injective (sym (lookup-insert_same m k v) ∙ at_k) in
        subst (λ z. P z w) same (subst (P k) eq p)
    | no ne ↦ h j w (sym (lookup-insert_other m k j v ne) ∙ found)
  ]

  pub delete_all :
      ((j : ℕ) (w : V) → lookup m j ≡ some w → P j w)
      → (j : ℕ) (w : V) → lookup (delete m k) j ≡ some w
      → P j w
  delete_all h j w found = elim (ℕ_discrete k j) [
    | yes same ↦
        let at_k : lookup (delete m k) k ≡ some w =
          subst (λ z. lookup (delete m k) z ≡ some w) (sym same) found in
        let clash = sym (lookup-delete_same m k) ∙ at_k in absurd (cc)
    | no ne ↦ h j w (sym (lookup-delete_other m k j ne) ∙ found)
  ]
