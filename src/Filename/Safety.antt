-- ===== src/Filename/Safety.antt =====
-- What sanitizeFilename of src/core/filename-sanitizer.ts returns for any name.
use deqr.Common.{ℕ, ◌-◌, ◌≤◌, ◌<◌, ◌≡◌, refl, ◌⊎◌, inl, inr, arith}
use deqr.Common.{List, [], ◌∷◌, ◌++◌, length, take, drop, All, All-append, All-take}
use deqr.Common.{
  filter, drop_while, from_last, All-filter, All-drop_while, filter-All, from_last-none,
}
use deqr.Common.{length-append, length-take, Bool, true, false, not, some, ◌==◌, ◌&&◌, ltb}
use deqr.Common.{if◌then◌else◌, if_both, All-from_last, Bool-cases, Option-cases}
use native.Mathlib.Decide.{dec_le, dec_lt}
use deqr.Common.{length-from_last, from_last-from_last, lt→ltb, le→ltb}
use mathlib.Core.Path.{subst}
use deqr.Filename.{
  dot, underscore, is_separator, is_control, is_reserved, is_trimmed, base_name, strip_pairs,
  replace_reserved, trim_end, get_extension, cap, or_unnamed, clean, sanitize_filename,
}

abbrev IsName : ℕ → Type 0
IsName c = is_separator c ≡ false

-- No separator, no control unit, and none of the units that Windows reserves.
abbrev pub IsSafe : ℕ → Type 0
IsSafe c = (is_separator c ≡ false) × (is_control c ≡ false) × (is_reserved c ≡ false)

tail_no_separator :
    (xs : List ℕ) {s : List ℕ} → from_last is_separator xs ≡ some s → All IsName (drop 1 s)
unfolding from_last
tail_no_separator [] h = absurd (cc)
tail_no_separator (x ∷ xs) {s} h = elim (Option-cases (from_last is_separator xs)) [
  | inl e ↦ elim (Bool-cases (is_separator x)) [
    | inl q ↦
        let eq : x ∷ xs ≡ s = cc in
        subst (λ z. All IsName (drop 1 z)) eq (from_last-none is_separator xs e)
    | inr q ↦ absurd (cc)
  ]
  | inr (r, e) ↦ tail_no_separator xs {s = s} (cc)
]

base_name-IsName : (t : List ℕ) → All IsName (base_name t)
unfolding base_name
base_name-IsName t = elim (Option-cases (from_last is_separator t)) [
  | inl e ↦ rw e (from_last-none is_separator t e)
  | inr (s, e) ↦ rw e (tail_no_separator t e)
]

strip_pairs-IsName : (w : Bool) (t : List ℕ) → All IsName t → All IsName (strip_pairs w t)
unfolding strip_pairs is_separator
strip_pairs-IsName false [] h = tt
strip_pairs-IsName true [] h = (refl, tt)
strip_pairs-IsName w (c ∷ cs) h =
    let rest = strip_pairs-IsName (c == dot && not w) cs h.1 in
    if_both (All IsName) (c == dot) rest (if_both (All IsName) w (refl, (h.0, rest)) (h.0, rest))

-- The units that replace_reserved works on.
abbrev IsPlain : ℕ → Type 0
IsPlain c = (is_separator c ≡ false) × (is_control c ≡ false)

not-true : (b : Bool) → not b ≡ true → b ≡ false
not-true false h = refl
not-true true h = cc

All-both : (t : List ℕ) → All IsName t → All (λ c. not (is_control c) ≡ true) t → All IsPlain t
All-both [] h k = tt
All-both (c ∷ cs) h k = ((h.0, not-true (is_control c) k.0), All-both cs h.1 k.1)

replace_one : (c : ℕ) → IsPlain c → IsSafe (if is_reserved c then underscore else c)
unfolding is_separator is_control is_reserved
replace_one c (s, k) = elim (Bool-cases (is_reserved c)) [
  | inl e ↦ rw e (refl, refl, refl)
  | inr e ↦ rw e (s, k, e)
]

replace_reserved-IsSafe : (t : List ℕ) → All IsPlain t → All IsSafe (replace_reserved t)
unfolding replace_reserved
replace_reserved-IsSafe [] h = tt
replace_reserved-IsSafe (c ∷ cs) h = (replace_one c h.0, replace_reserved-IsSafe cs h.1)

module _ {ℓ} (P : ℕ → Type ℓ) where
  trim_end-All : (t : List ℕ) → All P t → All P (trim_end t)
  unfolding trim_end
  trim_end-All [] h = tt
  trim_end-All (c ∷ cs) h =
      if_both (All P) (length (trim_end cs) == 0 && is_trimmed c) tt (h.0, trim_end-All cs h.1)

  get_extension-All : (t : List ℕ) → All P t → All P (get_extension t)
  unfolding get_extension
  get_extension-All t h = elim (Option-cases (from_last (λ c. c == dot) t)) [
    | inl e ↦ rw e tt
    | inr (s, e) ↦ rw e (All-from_last P (λ c. c == dot) t h e)
  ]

  cap-All : (t : List ℕ) → All P t → All P (cap t)
  unfolding cap
  cap-All t h =
      if_both (All P) (ltb 255 (length t))
        (All-append P (take (255 - length (get_extension t)) t) (get_extension t)
          (All-take P (255 - length (get_extension t)) t h) (get_extension-All t h))
        h

clean-IsSafe : (t : List ℕ) → All IsSafe (clean t)
unfolding clean
clean-IsSafe t =
    let named = base_name (filter (λ c. not (c == 0)) t) in
    let plain = strip_pairs false named in
    let kept = filter (λ c. not (is_control c)) plain in
    let names : All IsName kept =
      All-filter IsName _ plain
        (strip_pairs-IsName false named (base_name-IsName (filter (λ c. not (c == 0)) t))) in
    trim_end-All IsSafe (drop_while is_trimmed (replace_reserved kept)) (
      All-drop_while IsSafe is_trimmed (replace_reserved kept)
        (replace_reserved-IsSafe kept (All-both kept names (filter-All _ plain))))

or_unnamed-IsSafe : (t : List ℕ) → All IsSafe t → All IsSafe (or_unnamed t)
unfolding or_unnamed is_separator is_control is_reserved
or_unnamed-IsSafe [] h = search
or_unnamed-IsSafe (c ∷ cs) h = h

-- Whatever the name, the result has no path separator, no control unit, and none of the units
-- that Windows reserves.
pub sanitize_filename-IsSafe : (t : List ℕ) → All IsSafe (sanitize_filename t)
unfolding sanitize_filename
sanitize_filename-IsSafe [] = or_unnamed-IsSafe [] tt
sanitize_filename-IsSafe (c ∷ cs) =
    cap-All IsSafe (or_unnamed (clean (c ∷ cs)))
      (or_unnamed-IsSafe (clean (c ∷ cs)) (clean-IsSafe (c ∷ cs)))

get_extension-get_extension : (t : List ℕ) → get_extension (get_extension t) ≡ get_extension t
unfolding get_extension
get_extension-get_extension t = elim (Option-cases (from_last (λ c. c == dot) t)) [
  | inl e ↦ rw e refl
  | inr (s, e) ↦ rw (e, from_last-from_last (λ c. c == dot) t e) refl
]

length-get_extension : (t : List ℕ) → length (get_extension t) ≤ length t
unfolding get_extension
length-get_extension t = elim (Option-cases (from_last (λ c. c == dot) t)) [
  | inl e ↦ rw e (omega arith)
  | inr (s, e) ↦ rw e (length-from_last (λ c. c == dot) t e)
]

or_unnamed-pos : (t : List ℕ) → 1 ≤ length (or_unnamed t)
unfolding or_unnamed
or_unnamed-pos [] = omega arith
or_unnamed-pos (c ∷ cs) = omega arith

-- Within the cap, or nothing but an extension that does not fit it.
abbrev pub Fits : List ℕ → Type 0
Fits t = (length t ≤ 255) ⊎ ((255 < length t) × (get_extension t ≡ t))

cut-Fits :
    (t : List ℕ)
    → 255 < length t
    → (1 ≤ length (take (255 - length (get_extension t)) t ++ get_extension t))
      × Fits (take (255 - length (get_extension t)) t ++ get_extension t)
cut-Fits t h =
    let ext = get_extension t in
    let size = length-append (take (255 - length ext) t) ext in
    let taken = length-take (255 - length ext) t in
    elim (dec_le (length ext) 255) [
      | yes small ↦ (omega (arith, size, taken), inl (omega (arith, size, taken)))
      | no large ↦
          let none_left : 255 - length ext ≡ 0 = omega arith in
          rw none_left (omega arith, inr (omega arith, get_extension-get_extension t))
    ]

cap-Fits : (t : List ℕ) → 1 ≤ length t → (1 ≤ length (cap t)) × Fits (cap t)
unfolding cap
cap-Fits t h = elim (dec_lt 255 (length t)) [
  | yes long ↦ rw (lt→ltb _ _ long) (cut-Fits t long)
  | no short ↦ rw (le→ltb 255 (length t) (omega arith)) (h, inl (omega arith))
]

-- Whatever the name, the result is not empty, and it has at most 255 units unless it is nothing
-- but an extension, a dot and what follows it, that is longer than that.
pub sanitize_filename-Fits :
    (t : List ℕ) → (1 ≤ length (sanitize_filename t)) × Fits (sanitize_filename t)
unfolding sanitize_filename
sanitize_filename-Fits [] = (omega arith, inl (omega arith))
sanitize_filename-Fits (c ∷ cs) =
    cap-Fits (or_unnamed (clean (c ∷ cs))) (or_unnamed-pos (clean (c ∷ cs)))
