-- ===== src/Fec/Decoder/Store.antt =====
-- A new equation is stored and listed for every block that it names (storeEquation of
-- src/core/segment-decoder.ts).
use deqr.Common.{ℕ, ◌+◌, ◌≤◌, ◌≡◌, refl, sym, ◌∙◌, arith, List, [], ◌∷◌, ◌++◌}
use deqr.Common.{Option, none, some}
use native.Mathlib.Decide.{ℕ_discrete}
use mathlib.Core.Path.{subst}
use deqr.Fec.Equations.{lookup, insert}
use deqr.Fec.Equations.Laws.{
  count, one, one_same, count-append, some-injective, insert_all, lookup-insert_same,
  lookup-insert_other,
}
use deqr.Fec.Decoder.{PendingEquation, SegmentDecoder, pushed, refer, store_equation}
use deqr.Fec.Decoder.Sound.{Refers, IsTrue, IsSound}
use deqr.Fec.Decoder.Refers.{Refers-insert_absent}
use deqr.Fec.Decoder.Steps.{one_ne}

one_le : (x v : ℕ) → one x v ≤ 1
one_le x v = ground arith

refl_count : (m : ℕ) (ms : List ℕ) → count (m ∷ ms) m ≡ one m m + count ms m
unfolding count
refl_count m ms = refl

count_tail : (m : ℕ) (ms : List ℕ) (n : ℕ) → count ms n ≤ count (m ∷ ms) n
unfolding count
count_tail m ms n = omega arith

not_listed :
    (pending : List (ℕ × PendingEquation)) (n id : ℕ) (is : List ℕ)
    → Refers pending n is
    → lookup pending id ≡ none
    → count is id ≡ 0
not_listed pending n id is r new = elim (ℕ_discrete (count is id) 0) [
  | yes z ↦ z
  | no nz ↦ let (e, found, names) = (r id).1 (omega arith) in absurd (cc)
]

module _ (pending : List (ℕ × PendingEquation)) (id : ℕ) (e : PendingEquation) where
  abbrev extended : List (ℕ × PendingEquation)
  extended = insert pending id e

  -- The id is not listed yet for the blocks in `ns`, and what is listed is right.
  abbrev IsListing : List (ℕ × List ℕ) → List ℕ → Type 0
  IsListing deps ns =
      (n : ℕ) (is : List ℕ)
      → lookup deps n ≡ some is
      → Refers extended n is × (1 ≤ count ns n → count is id ≡ 0)

  push-Refers :
      (m : ℕ) (is : List ℕ)
      → 1 ≤ count e.neighbors m
      → Refers extended m is
      → count is id ≡ 0
      → Refers extended m (is ++ (id ∷ []))
  push-Refers m is names r absent j =
      let total = count-append is (id ∷ []) j in
      elim (ℕ_discrete id j) [
        | yes same ↦
            let at_j : count is j ≡ 0 = subst (λ z. count is z ≡ 0) same absent in
            (
              unfold count in omega (arith, total, at_j, one_le id j),
              λ _. (
                e,
                subst (λ z. lookup extended z ≡ some e) same (lookup-insert_same pending id e),
                names,
              ),
            )
        | no ne ↦
            let no_id : count (id ∷ []) j ≡ 0 = unfold count in omega (arith, one_ne id j ne) in
            (omega (arith, total, no_id, (r j).0), λ c. (r j).1 (omega (arith, c, total, no_id)))
      ]

  nil-Refers : (m : ℕ) → Refers extended m []
  unfolding count
  nil-Refers m j = (omega arith, λ c. absurd (omega (arith, c)))

  pushed-Refers :
      (deps : List (ℕ × List ℕ)) (m : ℕ) (ms : List ℕ) (o : Option (List ℕ))
      → lookup deps m ≡ o
      → 1 ≤ count e.neighbors m
      → IsListing deps (m ∷ ms)
      → Refers extended m (pushed o id)
  pushed-Refers deps m ms none h names l =
      push-Refers m [] names (nil-Refers m) (unfold count in refl)
  pushed-Refers deps m ms (some is) h names l =
      let (r, fresh) = l m is h in
      push-Refers m is names r (fresh (unfold count in omega (arith, one_same m)))

  refer-Refers :
      (deps : List (ℕ × List ℕ)) (ns : List ℕ)
      → IsListing deps ns
      → ((n : ℕ) → count ns n ≤ count e.neighbors n)
      → ((n : ℕ) → count ns n ≤ 1)
      → (n : ℕ) (is : List ℕ) → lookup (refer deps id ns) n ≡ some is
      → Refers extended n is
  unfolding refer
  refer-Refers deps [] l sub distinct n is h = (l n is h).0
  refer-Refers deps (m ∷ ms) l sub distinct n0 is0 h0 =
      let names : 1 ≤ count e.neighbors m = omega (arith, sub m, refl_count m ms, one_same m) in
      let o = lookup deps m in
      let new = pushed-Refers deps m ms o refl names l in
      refer-Refers (insert deps m (pushed o id)) ms
        (λ n is h. elim (ℕ_discrete m n) [
          | yes same ↦
              let at_m : lookup (insert deps m (pushed o id)) m ≡ some is =
                subst (λ z. lookup (insert deps m (pushed o id)) z ≡ some is) (sym same) h in
              let eq : pushed o id ≡ is =
                some-injective (sym (lookup-insert_same deps m (pushed o id)) ∙ at_m) in
              (
                subst (λ z. Refers extended z is) same (subst (Refers extended m) eq new),
                λ c.
                    let once = distinct m in
                    let split = refl_count m ms in
                    absurd (
                      omega
                        (arith, once, split, one_same m, subst (λ z. 1 ≤ count ms z) (sym same) c)),
              )
          | no ne ↦
              let old = l n is (sym (lookup-insert_other deps m n (pushed o id) ne) ∙ h) in
              (old.0, λ c. old.1 (unfold count in omega (arith, c)))
        ])
        (λ n. unfold count in omega (arith, sub n, count_tail m ms n))
        (λ n. omega (arith, distinct n, count_tail m ms n)) n0 is0 h0

module _ (k size total : ℕ) (sent : ℕ → List ℕ) where
  -- A true equation with a new number and distinct neighbours.
  pub store_equation-IsSound :
      (d : SegmentDecoder) (e : PendingEquation)
      → IsSound k size total sent d
      → lookup d.pending e.symbol_id ≡ none
      → IsTrue k size total sent e.symbol_id e
      → ((n : ℕ) → count e.neighbors n ≤ 1)
      → IsSound k size total sent (store_equation d e)
  unfolding store_equation
  store_equation-IsSound d e s new true_e distinct = record {
    count_is = s.count_is;
    bytes_is = s.bytes_is;
    size_is = s.size_is;
    not_closed = s.not_closed;
    store_size = s.store_size;
    bitmap = s.bitmap;
    bitmap_size = s.bitmap_size;
    tallied = s.tallied;
    known = s.known;
    equations = insert_all (IsTrue k size total sent) d.pending e.symbol_id e s.equations true_e;
    referring =
        refer-Refers d.pending e.symbol_id e d.dependents e.neighbors
          (λ n is h.
            let old = s.referring n is h in
            let unlisted = not_listed d.pending n e.symbol_id is old new in
            (Refers-insert_absent d.pending n is e.symbol_id e old unlisted, λ _. unlisted))
          (λ n. omega arith) distinct;
  }
