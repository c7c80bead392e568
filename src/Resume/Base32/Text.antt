-- ===== src/Resume/Base32/Text.antt =====
-- What a user may do to a token that changes nothing: the separators and the case
-- (src/core/resume-token.ts).
use deqr.Common.{append_nil}
use deqr.Common.{
  ℕ, zero, suc, ◌≤◌, ◌≡◌, refl, sym, ap, ◌∙◌, arith, List, [], ◌∷◌, ◌++◌, length, map, take, drop,
  All, filter, take-append-drop, length-drop,
}
use deqr.Common.{Bool, true, false, not, ◌&&◌, ltb, leb, Bool-cases, inl, inr}
use deqr.Resume.Base32.{
  is_ascii, is_space_or_hyphen, clean_text, to_upper_case, upper_unit, groups, join, grouped_text,
}
use deqr.Resume.Base32.RoundTrip.{is_plain, IsPlain}

module _ {ℓ} {A : Type ℓ} (p : A → Bool) where
  filter-append : (xs ys : List A) → filter p (xs ++ ys) ≡ filter p xs ++ filter p ys
  unfolding filter
  filter-append [] ys = refl
  filter-append (x ∷ xs) ys = elim (Bool-cases (p x)) [
    | inl in_it ↦ rw (in_it, filter-append xs ys) refl
    | inr out_of_it ↦ rw (out_of_it, filter-append xs ys) refl
  ]

  filter-All : (xs : List A) → All (λ x. p x ≡ true) xs → filter p xs ≡ xs
  unfolding filter
  filter-All [] h = refl
  filter-All (x ∷ xs) (h, hs) = rw (h, filter-All xs hs) refl

module _ (p : ℕ → Bool) (hyphen : p b'-' ≡ false) where
  filter-join :
      (g : List ℕ) (gs : List (List ℕ))
      → filter p (join (g ∷ gs)) ≡ filter p g ++ filter p (join gs)
  unfolding join filter
  filter-join g [] = sym (append_nil (filter p g))
  filter-join g (h ∷ gs) = filter-append p g (b'-' ∷ join (h ∷ gs)) ∙ rw hyphen refl

  filter-join-groups :
      (n : ℕ) (raw : List ℕ) → length raw ≤ n → filter p (join (groups n raw)) ≡ filter p raw
  unfolding groups
  filter-join-groups zero [] h = unfold join filter in refl
  filter-join-groups (suc n) [] h = unfold join filter in refl
  filter-join-groups zero (c ∷ cs) h = absurd (omega arith)
  filter-join-groups (suc n) (c ∷ cs) h =
      filter-join (take 5 (c ∷ cs)) (groups n (drop 5 (c ∷ cs)))
      ∙ ap (λ t. filter p (take 5 (c ∷ cs)) ++ t)
          (filter-join-groups n (drop 5 (c ∷ cs)) (omega (arith, length-drop 5 (c ∷ cs))))
      ∙ sym (filter-append p (take 5 (c ∷ cs)) (drop 5 (c ∷ cs)))
      ∙ ap (filter p) (take-append-drop 5 (c ∷ cs))

parts : (a b c : Bool) → (not a && not b && c) ≡ true → (not a ≡ true) × ((b ≡ false) × (c ≡ true))
parts false false true h = (refl, (refl, refl))
parts false false false h = absurd (cc)
parts false true c h = absurd (cc)
parts true b c h = absurd (cc)

plain_parts :
    (c : ℕ)
    → is_plain c ≡ true
    → (not (is_space_or_hyphen c) ≡ true)
      × (((leb b'a' c && leb c b'z') ≡ false) × (ltb c 128 ≡ true))
plain_parts c h = parts (is_space_or_hyphen c) (leb b'a' c && leb c b'z') (ltb c 128) h

All-kept : (raw : List ℕ) → IsPlain raw → All (λ c. not (is_space_or_hyphen c) ≡ true) raw
All-kept [] h = tt
All-kept (c ∷ cs) (h, hs) = ((plain_parts c h).0, All-kept cs hs)

kept_text :
    (grouped : Bool) (raw : List ℕ)
    → filter (λ c. not (is_space_or_hyphen c)) (grouped_text grouped raw)
      ≡ filter (λ c. not (is_space_or_hyphen c)) raw
unfolding grouped_text
kept_text false raw = refl
kept_text true raw =
    filter-join-groups (λ c. not (is_space_or_hyphen c)) (unfold is_space_or_hyphen in refl)
      (length raw) raw (omega arith)

plain_upper : (raw : List ℕ) → IsPlain raw → map upper_unit raw ≡ raw
unfolding upper_unit
plain_upper [] h = refl
plain_upper (c ∷ cs) (h, hs) = rw ((plain_parts c h).1.0, plain_upper cs hs) refl

plain_ascii : (raw : List ℕ) → IsPlain raw → is_ascii raw ≡ true
unfolding is_ascii
plain_ascii [] h = refl
plain_ascii (c ∷ cs) (h, hs) = rw ((plain_parts c h).1.1, plain_ascii cs hs) refl

-- Grouping is undone by the reader.
pub clean_text-grouped_text :
    (upper_other : List ℕ → List ℕ) (grouped : Bool) (raw : List ℕ)
    → IsPlain raw
    → clean_text upper_other (grouped_text grouped raw) ≡ raw
unfolding clean_text to_upper_case
clean_text-grouped_text upper_other grouped raw h =
    rw (kept_text grouped raw, filter-All (λ c. not (is_space_or_hyphen c)) raw (All-kept raw h))
      (rw (plain_ascii raw h) (plain_upper raw h))
