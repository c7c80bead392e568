-- ===== src/Common/Traces.antt =====
-- Order in a list of events: `Occurs ps es` is a choice of entries of `es`, in order, that is `ps`.
use mathlib.Core.List.{List, [], ◌∷◌, ◌++◌}

module _ {ℓ} {A : Type ℓ} where
  pub data Occurs : List A → List A → Type ℓ where
    done : {es : List A} → Occurs [] es
    skip : {ps es : List A} {e : A} → Occurs ps es → Occurs ps (e ∷ es)
    keep : {ps es : List A} {e : A} → Occurs ps es → Occurs (e ∷ ps) (e ∷ es)

  -- An event behind the list can be left out, or be the last one chosen.
  pub Occurs-snoc_skip : {ps es : List A} (e : A) → Occurs ps es → Occurs ps (es ++ e ∷ [])
  Occurs-snoc_skip e done = done
  Occurs-snoc_skip e (skip o) = skip (Occurs-snoc_skip e o)
  Occurs-snoc_skip e (keep o) = keep (Occurs-snoc_skip e o)

  pub Occurs-snoc_keep :
      {ps es : List A} (e : A) → Occurs ps es → Occurs (ps ++ e ∷ []) (es ++ e ∷ [])
  Occurs-snoc_keep {es} e done = last es
    where
      last : (xs : List A) → Occurs (e ∷ []) (xs ++ e ∷ [])
      last [] = keep done
      last (x ∷ xs) = skip (last xs)
  Occurs-snoc_keep e (skip o) = skip (Occurs-snoc_keep e o)
  Occurs-snoc_keep e (keep o) = keep (Occurs-snoc_keep e o)
