-- ===== src/Fec/Symbols/Laws.antt =====
-- The exclusive or of symbols of one size (src/core/segment-encoder.ts).
use deqr.Common.{ℕ, zero, suc, ◌≡◌, refl, ap, ◌∙◌, arith, List, [], ◌∷◌, length}
use deqr.Common.{xor_self, xor_comm, xor_assoc, xor-zero}
use deqr.Protocol.Buffer.{zeros}
use deqr.Fec.Symbols.{xor_into}

pub length-xor_into : (a b : List ℕ) → length (xor_into a b) ≡ length a
unfolding xor_into
length-xor_into [] b = refl
length-xor_into (x ∷ a) [] = refl
length-xor_into (x ∷ a) (y ∷ b) = ap suc (length-xor_into a b)

cons : {x y : ℕ} {a b : List ℕ} → x ≡ y → a ≡ b → x ∷ a ≡ y ∷ b
cons p q = cc

pub xor_into_comm : (a b : List ℕ) → length a ≡ length b → xor_into a b ≡ xor_into b a
unfolding xor_into
xor_into_comm [] [] h = refl
xor_into_comm [] (y ∷ b) h = absurd (omega arith)
xor_into_comm (x ∷ a) [] h = absurd (omega arith)
xor_into_comm (x ∷ a) (y ∷ b) h = cons (xor_comm x y) (xor_into_comm a b (omega arith))

pub xor_into_assoc :
    (a b c : List ℕ) → length a ≡ length b → xor_into (xor_into a b) c ≡ xor_into a (xor_into b c)
unfolding xor_into
xor_into_assoc [] b c h = refl
xor_into_assoc (x ∷ a) [] c h = absurd (omega arith)
xor_into_assoc (x ∷ a) (y ∷ b) [] h = refl
xor_into_assoc (x ∷ a) (y ∷ b) (z ∷ c) h =
    cons (xor_assoc x y z) (xor_into_assoc a b c (omega arith))

pub xor_into_self : (a : List ℕ) → xor_into a a ≡ zeros (length a)
unfolding xor_into
xor_into_self [] = refl
xor_into_self (x ∷ a) = cons (xor_self x) (xor_into_self a)

pub xor_into-zeros : (a : List ℕ) (n : ℕ) → xor_into a (zeros n) ≡ a
unfolding xor_into
xor_into-zeros [] n = refl
xor_into-zeros (x ∷ a) zero = refl
xor_into-zeros (x ∷ a) (suc n) = cons (xor-zero x) (xor_into-zeros a n)

-- What has been added twice is gone.
pub xor_into_twice : (a b : List ℕ) → length a ≡ length b → xor_into (xor_into a b) b ≡ a
xor_into_twice a b h =
    xor_into_assoc a b b h ∙ ap (xor_into a) (xor_into_self b) ∙ xor_into-zeros a (length b)

-- The exclusive or of the blocks with the given numbers.
module _ (size : ℕ) (block : ℕ → List ℕ) where
  abbrev pub xor_of : List ℕ → List ℕ
  xor_of [] = zeros size
  xor_of (n ∷ ns) = xor_into (block n) (xor_of ns)
