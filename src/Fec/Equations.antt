-- ===== src/Fec/Equations.antt =====
-- The maps and arrays of the segment decoder (src/core/segment-decoder.ts): a `Map` is the list of
-- its entries in the order of insertion, a `Set` the list of its members.
pub mod Laws
pub mod Sum
use deqr.Common.{ℕ, suc, ◌-◌, List, [], ◌∷◌, ◌++◌, length, take, get_or, set, Option, none, some}
use deqr.Common.{Bool, true, false, ◌==◌, if◌then◌else◌}

module _ {ℓ} {V : Type ℓ} where
  -- map.get(key)
  unfoldable pub lookup : List (ℕ × V) → ℕ → Option V
  lookup [] key = none
  lookup ((k, v) ∷ rest) key = let later = lookup rest key in if k == key then some v else later

  -- map.delete(key)
  unfoldable pub delete : List (ℕ × V) → ℕ → List (ℕ × V)
  delete [] key = []
  delete ((k, v) ∷ rest) key =
      let later = delete rest key in if k == key then later else (k, v) ∷ later

  -- map.set(key, value)
  unfoldable pub insert : List (ℕ × V) → ℕ → V → List (ℕ × V)
  insert [] key value = (key, value) ∷ []
  insert ((k, v) ∷ rest) key value =
      let later = insert rest key value in if k == key then (k, value) ∷ rest else (k, v) ∷ later

-- set.has(value)
unfoldable pub includes : List ℕ → ℕ → Bool
includes [] value = false
includes (x ∷ xs) value = let later = includes xs value in if x == value then true else later

abbrev pub next_index : Option ℕ → Option ℕ
next_index none = none
next_index (some i) = some (suc i)

-- list.indexOf(value), with `none` for -1
unfoldable pub index_of : List ℕ → ℕ → Option ℕ
index_of [] value = none
index_of (x ∷ xs) value =
    let later = next_index (index_of xs value) in if x == value then some 0 else later

-- The last entry takes the place of the one at the index, unless it is that one.
abbrev pub swap_at : List ℕ → Option ℕ → List ℕ
swap_at list none = list
swap_at list (some index) =
    set (take (length list - 1) list) index (get_or list (length list - 1) 0)

unfoldable pub swap_remove : List ℕ → ℕ → List ℕ
unfolding index_of
swap_remove list value = swap_at list (index_of list value)
