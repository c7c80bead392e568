-- ===== src/Fec/Equations/Sum.antt =====
-- The exclusive or of the blocks that an equation of the segment decoder names
-- (src/core/segment-decoder.ts).
use deqr.Common.{ℕ, ◌≤◌, ◌≡◌, refl, sym, ap, ◌∙◌, arith, List, [], ◌∷◌, ◌++◌, length, take, get_or}
use deqr.Common.{◌==◌, ==_iff, Bool-cases, inl, inr, length-replicate}
use deqr.Fec.Symbols.{xor_into}
use deqr.Fec.Symbols.Laws.{xor_of, length-xor_into, xor_into_comm, xor_into_assoc}
use deqr.Fec.Equations.{swap_remove}
use deqr.Fec.Equations.Laws.{count, last_first, swap_remove_one, swap_remove_more, one_other}

pub xor_left_comm :
    (a b c : List ℕ) → length a ≡ length b → xor_into a (xor_into b c) ≡ xor_into b (xor_into a c)
xor_left_comm a b c h =
    sym (xor_into_assoc a b c h)
    ∙ ap (λ x. xor_into x c) (xor_into_comm a b h)
    ∙ xor_into_assoc b a c (sym h)

module _ (size : ℕ) (block : ℕ → List ℕ) (sized : (n : ℕ) → length (block n) ≡ size) where
  pub length-xor_of : (ns : List ℕ) → length (xor_of size block ns) ≡ size
  length-xor_of [] = length-replicate size 0
  length-xor_of (n ∷ ns) = length-xor_into (block n) (xor_of size block ns) ∙ sized n

  same_size : (m n : ℕ) → length (block m) ≡ length (block n)
  same_size m n = sized m ∙ sym (sized n)

  xor_of-last_first :
      (y : ℕ) (r : List ℕ) → xor_of size block (last_first y r) ≡ xor_of size block (y ∷ r)
  xor_of-last_first y [] = refl
  xor_of-last_first y (z ∷ r) =
      let g = get_or (z ∷ r) (length r) 0 in
      xor_left_comm (block g) (block y) (xor_of size block (take (length r) (z ∷ r)))
        (same_size g y)
      ∙ ap (xor_into (block y)) (xor_of-last_first z r)

  -- Without a block that is named, an equation is short of just that block.
  pub xor_of-swap_remove :
      (xs : List ℕ) (v : ℕ)
      → 1 ≤ count xs v
      → xor_of size block xs ≡ xor_into (block v) (xor_of size block (swap_remove xs v))
  unfolding count
  xor_of-swap_remove [] v h = absurd (omega arith)
  xor_of-swap_remove (x ∷ []) v h = elim (Bool-cases (x == v)) [
    | inl e ↦ rw (swap_remove_one x v, e, (==_iff x v).0 e) refl
    | inr e ↦ absurd (omega (arith, h, one_other x v e))
  ]
  xor_of-swap_remove (x ∷ y ∷ r) v h = elim (Bool-cases (x == v)) [
    | inl e ↦
        rw (swap_remove_more x y v r, e)
          (ap (λ n. xor_into (block n) (xor_of size block (y ∷ r))) ((==_iff x v).0 e)
            ∙ ap (xor_into (block v)) (sym (xor_of-last_first y r)))
    | inr e ↦
        rw (swap_remove_more x y v r, e)
          (ap (xor_into (block x))
              (xor_of-swap_remove (y ∷ r) v (omega (arith, h, one_other x v e)))
            ∙ xor_left_comm (block x) (block v) (xor_of size block (swap_remove (y ∷ r) v))
                (same_size x v))
  ]

  pub xor_of-append :
      (xs : List ℕ) (n : ℕ)
      → xor_of size block (xs ++ (n ∷ [])) ≡ xor_into (block n) (xor_of size block xs)
  xor_of-append [] n = refl
  xor_of-append (x ∷ xs) n =
      ap (xor_into (block x)) (xor_of-append xs n)
      ∙ xor_left_comm (block x) (block n) (xor_of size block xs) (same_size x n)
