-- ===== src/Fec/Decoder/Refers.antt =====
-- The index from a block to the equations that name it, while equations change and go
-- (src/core/segment-decoder.ts).
use deqr.Common.{ℕ, ◌≤◌, ◌≡◌, ◌≢◌, refl, sym, ap, ◌∙◌, arith, List, [], ◌∷◌}
use deqr.Common.{Option, none, some, ==_refl}
use native.Mathlib.Decide.{ℕ_discrete}
use mathlib.Core.Path.{subst}
use deqr.Fec.Equations.{lookup, delete, insert, swap_remove}
use deqr.Fec.Equations.Laws.{
  count, one_same, some-injective, count-swap_remove, count-swap_remove_le, lookup-delete_same,
  lookup-delete_other, lookup-insert_same, lookup-insert_other,
}
use deqr.Fec.Decoder.{PendingEquation, keep_referring, unrefer_one}
use deqr.Fec.Decoder.Sound.{Refers}

module _ (pending : List (ℕ × PendingEquation)) (n : ℕ) (ids : List ℕ) where
  pub Refers-insert :
      (id : ℕ) (e e' : PendingEquation)
      → Refers pending n ids
      → lookup pending id ≡ some e
      → (1 ≤ count e.neighbors n → 1 ≤ count e'.neighbors n)
      → Refers (insert pending id e') n ids
  Refers-insert id e e' r found keeps j = (
    (r j).0,
    λ c. elim (ℕ_discrete id j) [
      | yes same ↦
          let (e0, found0, named) = (r j).1 c in
          let at_j : lookup pending j ≡ some e =
            subst (λ z. lookup pending z ≡ some e) same found in
          let eq : e0 ≡ e = cc in
          (
            e',
            subst (λ z. lookup (insert pending id e') z ≡ some e') same
                (lookup-insert_same pending id e'),
            keeps (subst (λ z. 1 ≤ count z.neighbors n) eq named),
          )
      | no ne ↦
          let (e0, found0, named) = (r j).1 c in
          (e0, lookup-insert_other pending id j e' ne ∙ found0, named)
    ],
  )

  pub Refers-insert_absent :
      (id : ℕ) (e' : PendingEquation)
      → Refers pending n ids
      → count ids id ≡ 0
      → Refers (insert pending id e') n ids
  Refers-insert_absent id e' r absent j = (
    (r j).0,
    λ c.
        let (e0, found0, named) = (r j).1 c in
        let ne : id ≢ j = λ same. absurd (omega (arith, ap (count ids) same, absent, c)) in
        (e0, lookup-insert_other pending id j e' ne ∙ found0, named),
  )

  pub Refers-delete_absent :
      (id : ℕ) → Refers pending n ids → count ids id ≡ 0 → Refers (delete pending id) n ids
  Refers-delete_absent id r absent j = (
    (r j).0,
    λ c.
        let (e0, found0, named) = (r j).1 c in
        let ne : id ≢ j = λ same. absurd (omega (arith, ap (count ids) same, absent, c)) in
        (e0, lookup-delete_other pending id j ne ∙ found0, named),
  )

  pub Refers-fewer :
      (fewer : List ℕ)
      → Refers pending n ids
      → ((j : ℕ) → count fewer j ≤ count ids j)
      → Refers pending n fewer
  Refers-fewer fewer r le j = (omega (arith, le j, (r j).0), λ c. (r j).1 (omega (arith, le j, c)))

pub Refers-tail :
    (pending : List (ℕ × PendingEquation)) (n id : ℕ) (ids : List ℕ)
    → Refers pending n (id ∷ ids)
    → Refers pending n ids × (count ids id ≡ 0)
unfolding count
Refers-tail pending n id ids r = (
  λ j. (omega (arith, (r j).0), λ c. (r j).1 (omega (arith, c))),
  ground (arith, (r id).0, ==_refl id),
)

-- An equation that does not name a block is not listed for it.
pub Refers-absent :
    (pending : List (ℕ × PendingEquation)) (n id : ℕ) (ids : List ℕ) {e : PendingEquation}
    → Refers pending n ids
    → lookup pending id ≡ some e
    → count e.neighbors n ≡ 0
    → count ids id ≡ 0
Refers-absent pending n id ids {e} r found absent = elim (ℕ_discrete (count ids id) 0) [
  | yes z ↦ z
  | no nz ↦
      let (e0, found0, named) = (r id).1 (omega arith) in
      let eq : e0 ≡ e = cc in
      absurd (omega (arith, named, ap (λ z. count z.neighbors n) eq, absent))
]

-- An equation with one neighbour is dropped.
module _ (pending : List (ℕ × PendingEquation)) (deps : List (ℕ × List ℕ)) (id r : ℕ)
    {e : PendingEquation} (found : lookup pending id ≡ some e)
    (all : (n : ℕ) (is : List ℕ) → lookup deps n ≡ some is → Refers pending n is)
    (only : (n : ℕ) → r ≢ n → count e.neighbors n ≡ 0) where
  kept : (n : ℕ) (is : List ℕ) → r ≢ n → lookup deps n ≡ some is → Refers (delete pending id) n is
  kept n is ne h =
      Refers-delete_absent pending n is id (all n is h)
        (Refers-absent pending n id is (all n is h) found (only n ne))

  without :
      (is : List ℕ) → lookup deps r ≡ some is → Refers (delete pending id) r (swap_remove is id)
  without is h =
      let old = all r is h in
      let fewer = count-swap_remove_le is id in
      let absent : count (swap_remove is id) id ≡ 0 = elim (ℕ_discrete (count is id) 0) [
        | yes z ↦ omega (arith, z, fewer id)
        | no nz ↦
            let removed = count-swap_remove is id id (omega arith) in
            omega (arith, removed, (old id).0, one_same id)
      ] in
      Refers-delete_absent pending r (swap_remove is id) id
        (Refers-fewer pending r is (swap_remove is id) old fewer) absent

  keep_referring-Refers :
      (is rest : List ℕ)
      → lookup deps r ≡ some is
      → swap_remove is id ≡ rest
      → (n : ℕ) (js : List ℕ) → lookup (keep_referring deps r rest) n ≡ some js
      → Refers (delete pending id) n js
  unfolding keep_referring
  keep_referring-Refers is [] h e n js at_n = elim (ℕ_discrete r n) [
    | yes same ↦
        let clash =
          sym (lookup-delete_same deps r)
          ∙ subst (λ z. lookup (delete deps r) z ≡ some js) (sym same) at_n in
        absurd (cc)
    | no ne ↦ kept n js ne (sym (lookup-delete_other deps r n ne) ∙ at_n)
  ]
  keep_referring-Refers is (x ∷ xs) h e n js at_n = elim (ℕ_discrete r n) [
    | yes same ↦
        let here =
          sym (lookup-insert_same deps r (x ∷ xs))
          ∙ subst (λ z. lookup (insert deps r (x ∷ xs)) z ≡ some js) (sym same) at_n in
        let eq : swap_remove is id ≡ js = e ∙ some-injective here in
        subst (λ z. Refers (delete pending id) z js) same
          (subst (Refers (delete pending id) r) eq (without is h))
    | no ne ↦ kept n js ne (sym (lookup-insert_other deps r n (x ∷ xs) ne) ∙ at_n)
  ]

  pub unrefer_one-Refers :
      (o : Option (List ℕ))
      → lookup deps r ≡ o
      → (n : ℕ) (js : List ℕ) → lookup (unrefer_one deps id r o) n ≡ some js
      → Refers (delete pending id) n js
  unfolding unrefer_one
  unrefer_one-Refers none h n js at_n = elim (ℕ_discrete r n) [
    | yes same ↦ let clash = sym (subst (λ z. lookup deps z ≡ none) same h) ∙ at_n in absurd (cc)
    | no ne ↦ kept n js ne at_n
  ]
  unrefer_one-Refers (some is) h n js at_n =
      keep_referring-Refers is (swap_remove is id) h refl n js at_n

-- A block that is not listed is not listed afterwards.
keep_referring-none :
    (deps : List (ℕ × List ℕ)) (r b : ℕ) (rest : List ℕ)
    → r ≢ b
    → lookup deps b ≡ none
    → lookup (keep_referring deps r rest) b ≡ none
unfolding keep_referring
keep_referring-none deps r b [] ne h = lookup-delete_other deps r b ne ∙ h
keep_referring-none deps r b (x ∷ xs) ne h = lookup-insert_other deps r b (x ∷ xs) ne ∙ h

pub unrefer_one-none :
    (deps : List (ℕ × List ℕ)) (id r b : ℕ) (o : Option (List ℕ))
    → lookup deps r ≡ o
    → lookup deps b ≡ none
    → lookup (unrefer_one deps id r o) b ≡ none
unfolding unrefer_one
unrefer_one-none deps id r b none e h = h
unrefer_one-none deps id r b (some is) e h =
    keep_referring-none deps r b (swap_remove is id)
      (λ same.
        let at_b : lookup deps b ≡ some is = subst (λ z. lookup deps z ≡ some is) same e in cc)
      h
