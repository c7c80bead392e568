-- ===== src/Protocol/Manifest/Fields.antt =====
-- Reading back the fields of a buffer that was filled from left to right, as
-- serializeManifestFrame of src/core/protocol-v2.ts fills its own.
use deqr.Common.{ℕ, ◌+◌, ◌≡◌, arith, List, ◌++◌, length, take, drop, length-append, take-drop-field}
use mathlib.Core.List.{append_assoc}

-- The fields of a buffer of six fields and a tail.
module _ (f1 f2 f3 f4 f5 f6 tail : List ℕ) where
  abbrev pub filled : List ℕ
  filled = (((((f1 ++ f2) ++ f3) ++ f4) ++ f5) ++ f6) ++ tail

  pub field_2 : (n o : ℕ) → o ≡ length f1 → length f2 ≡ n → take n (drop o filled) ≡ f2
  field_2 n o h k =
      let e : filled ≡ (f1 ++ f2) ++ (f3 ++ (f4 ++ (f5 ++ (f6 ++ tail)))) = simp append_assoc in
      rw e (take-drop-field n o f1 f2 (f3 ++ (f4 ++ (f5 ++ (f6 ++ tail)))) h k)

  pub field_3 : (n o : ℕ) → o ≡ length f1 + length f2 → length f3 ≡ n → take n (drop o filled) ≡ f3
  field_3 n o h k =
      let e : filled ≡ ((f1 ++ f2) ++ f3) ++ (f4 ++ (f5 ++ (f6 ++ tail))) = simp append_assoc in
      rw e (
        take-drop-field n o (f1 ++ f2) f3 (f4 ++ (f5 ++ (f6 ++ tail)))
          (omega (arith, length-append f1 f2)) k)

  pub field_4 :
      (n o : ℕ)
      → o ≡ length f1 + length f2 + length f3
      → length f4 ≡ n
      → take n (drop o filled) ≡ f4
  field_4 n o h k =
      let e : filled ≡ (((f1 ++ f2) ++ f3) ++ f4) ++ (f5 ++ (f6 ++ tail)) = simp append_assoc in
      rw e (
        take-drop-field n o ((f1 ++ f2) ++ f3) f4 (f5 ++ (f6 ++ tail))
          (omega (arith, length-append f1 f2, length-append (f1 ++ f2) f3)) k)

  pub field_5 :
      (n o : ℕ)
      → o ≡ length f1 + length f2 + length f3 + length f4
      → length f5 ≡ n
      → take n (drop o filled) ≡ f5
  field_5 n o h k =
      let s = (f1 ++ f2) ++ f3 in
      let e : filled ≡ ((s ++ f4) ++ f5) ++ (f6 ++ tail) = simp append_assoc in
      let at : o ≡ length (s ++ f4) =
        omega (arith, length-append f1 f2, length-append (f1 ++ f2) f3, length-append s f4) in
      rw e (take-drop-field n o (s ++ f4) f5 (f6 ++ tail) at k)

  pub field_6 :
      (n o : ℕ)
      → o ≡ length f1 + length f2 + length f3 + length f4 + length f5
      → length f6 ≡ n
      → take n (drop o filled) ≡ f6
  field_6 n o h k =
      let s = (f1 ++ f2) ++ f3 in
      let at : o ≡ length ((s ++ f4) ++ f5) = omega (
        arith,
        length-append f1 f2,
        length-append (f1 ++ f2) f3,
        length-append s f4,
        length-append (s ++ f4) f5,
      ) in
      take-drop-field n o ((s ++ f4) ++ f5) f6 tail at k
