-- ===== src/Protocol/Buffer/Laws.antt =====
-- Writing into a buffer from left to right, and reading back what was written.
use deqr.Common.{
  ℕ, zero, suc, ◌+◌, ◌^◌, ◌≤◌, ◌<◌, ◌≡◌, refl, sym, ap, arith, leb, le→leb, Bool-cases, inl, inr,
}
use deqr.Common.{List, [], ◌∷◌, ◌++◌, length, take, drop, All}
use native.Mathlib.Nat.{suc-add, zero-add}
use deqr.Protocol.Buffer.{zeros, write, be16, be32, be64, be_value, get_uint}
use deqr.Protocol.Types.{ok, ok-injective, throws-ne-ok}

abbrev pub IsBytes : List ℕ → Type 0
IsBytes = All (λ b. b < 256)

pub zeros-add : (m n : ℕ) → zeros (m + n) ≡ zeros m ++ zeros n
zeros-add zero n = ap zeros (omega arith)
zeros-add (suc m) n = rw suc-add (ap (λ t. 0 ∷ t) (zeros-add m n))

-- Bytes written to the start of a zeroed buffer.
pub write-zeros : (ys : List ℕ) (n : ℕ) → write (zeros (length ys + n)) 0 ys ≡ ys ++ zeros n
unfolding write
write-zeros [] zero = refl
write-zeros [] (suc n) = rw zero-add
write-zeros (y ∷ ys) n = rw suc-add (ap (λ t. y ∷ t) (write-zeros ys n))

pub write-nil : (xs : List ℕ) → write xs 0 [] ≡ xs
unfolding write
write-nil [] = refl
write-nil (x ∷ xs) = refl

pub write-append : (xs ys zs : List ℕ) → write (xs ++ ys) (length xs) zs ≡ xs ++ write ys 0 zs
unfolding write
write-append [] ys zs = refl
write-append (x ∷ xs) ys zs = ap (λ t. x ∷ t) (write-append xs ys zs)

pub be_value-be16 : (v : ℕ) → v < 2 ^ 16 → be_value 0 (be16 v) ≡ v
be_value-be16 v h = omega arith

pub be_value-be32 : (v : ℕ) → v < 2 ^ 32 → be_value 0 (be32 v) ≡ v
be_value-be32 v h = omega arith

pub be_value-be64 : (v : ℕ) → v < 2 ^ 64 → be_value 0 (be64 v) ≡ v
be_value-be64 v h = omega arith

-- A read inside the buffer succeeds; a read that succeeds was inside.
pub get_uint-eq :
    (size : ℕ) (bytes : List ℕ) (offset : ℕ)
    → offset + size ≤ length bytes
    → get_uint size bytes offset ≡ ok (be_value 0 (take size (drop offset bytes)))
unfolding get_uint
get_uint-eq size bytes offset h = rw (le→leb _ _ h) refl

pub get_uint-inv :
    (size : ℕ) (bytes : List ℕ) (offset : ℕ) {v : ℕ}
    → get_uint size bytes offset ≡ ok v
    → v ≡ be_value 0 (take size (drop offset bytes))
unfolding get_uint
get_uint-inv size bytes offset h = elim (Bool-cases (leb (offset + size) (length bytes))) [
  | inl inside ↦ sym (ok-injective (rw inside at h))
  | inr outside ↦ absurd (throws-ne-ok (rw outside at h))
]

-- Reading four bytes, or two, and writing them again gives the same bytes.
pub be32-be_value : (ys : List ℕ) → length ys ≡ 4 → IsBytes ys → be32 (be_value 0 ys) ≡ ys
be32-be_value (a ∷ b ∷ c ∷ d ∷ []) n (ha, (hb, (hc, (hd, u)))) = ground arith
be32-be_value (a ∷ b ∷ c ∷ d ∷ e ∷ r) n h = absurd (omega arith)
be32-be_value (a ∷ b ∷ c ∷ []) n h = absurd (omega arith)
be32-be_value (a ∷ b ∷ []) n h = absurd (omega arith)
be32-be_value (a ∷ []) n h = absurd (omega arith)
be32-be_value [] n h = absurd (omega arith)

pub be16-be_value : (ys : List ℕ) → length ys ≡ 2 → IsBytes ys → be16 (be_value 0 ys) ≡ ys
be16-be_value (a ∷ b ∷ []) n (ha, (hb, u)) = ground arith
be16-be_value (a ∷ b ∷ c ∷ r) n h = absurd (omega arith)
be16-be_value (a ∷ []) n h = absurd (omega arith)
be16-be_value [] n h = absurd (omega arith)

-- What is read from four bytes, or two, fits their width.
pub be_value-lt4 : (ys : List ℕ) → length ys ≡ 4 → IsBytes ys → be_value 0 ys < 2 ^ 32
be_value-lt4 ys n h = omega (arith, ap (be_value 0) (be32-be_value ys n h))

pub be_value-lt2 : (ys : List ℕ) → length ys ≡ 2 → IsBytes ys → be_value 0 ys < 2 ^ 16
be_value-lt2 ys n h = omega (arith, ap (be_value 0) (be16-be_value ys n h))
