-- ===== src/Resume/Targeted/Layout.antt =====
-- The 40 bytes of a token with gaps (src/core/resume-token.ts).
use deqr.Common.{append_assoc}
use deqr.Common.{
  ℕ, ◌+◌, ◌-◌, ◌%◌, ◌≤◌, ◌≡◌, refl, sym, ap, ◌∙◌, arith, List, [], ◌∷◌, ◌++◌, length, take,
  length-append, length-replicate, take-append,
}
use mathlib.Core.Path.{subst}
use deqr.Protocol.Buffer.{write, zeros}
use deqr.Protocol.Buffer.Laws.{write-zeros, write-nil, write-append, zeros-add}
use deqr.Protocol.Crc.{crc32}
use deqr.Protocol.Crc.Bounds.{checksum, crc32-append}
use deqr.Resume.Token.{ResumeTokenInput, check_bytes}
use deqr.Resume.Token.Layout.{IsEncodable, head, tail3, token, length-head}
use deqr.Resume.Targeted.{targeted_bytes}

-- The 37 bytes before the checksum.
unfoldable pub body : ResumeTokenInput → List ℕ → List ℕ
body input blob = head 2 input ++ (length blob ∷ (blob ++ zeros (14 - length blob)))

pub length-body :
    (input : ResumeTokenInput) (blob : List ℕ)
    → IsEncodable input
    → length blob ≤ 14
    → length (body input blob) ≡ 37
unfolding body
length-body input blob given fits = omega (
  arith,
  length-head 2 input given,
  length-append (head 2 input) (length blob ∷ (blob ++ zeros (14 - length blob))),
  length-append blob (zeros (14 - length blob)),
  length-replicate {A = ℕ} (14 - length blob) 0,
)

write_first : (x b : ℕ) (xs : List ℕ) → write (x ∷ xs) 0 (b ∷ []) ≡ b ∷ xs
unfolding write
write_first x b xs = ap (λ t. b ∷ t) (write-nil xs)

-- The version, over that of the first 22 bytes.
write_version :
    (input : ResumeTokenInput) (n : ℕ)
    → IsEncodable input
    → write (write (zeros (22 + n)) 0 (head 1 input)) 0 (2 ∷ []) ≡ head 2 input ++ zeros n
write_version input n given =
    ap (λ t. write t 0 (2 ∷ []))
      (subst (λ k. write (zeros (k + n)) 0 (head 1 input) ≡ head 1 input ++ zeros n)
        (length-head 1 input given) (write-zeros (head 1 input) n))
    ∙ write_first 1 2 _

-- What is written at a place that a known text ends at.
write_at : (xs ys zs : List ℕ) (n : ℕ) → length xs ≡ n → write (xs ++ ys) n zs ≡ xs ++ write ys 0 zs
write_at xs ys zs n h =
    subst (λ n. write (xs ++ ys) n zs ≡ xs ++ write ys 0 zs) h (write-append xs ys zs)

write_blob :
    (blob : List ℕ)
    → length blob ≤ 14
    → write (zeros 17) 0 blob ≡ (blob ++ zeros (14 - length blob)) ++ zeros 3
write_blob blob fits =
    let whole : length blob + (14 - length blob + 3) ≡ 17 = omega arith in
    subst (λ n. write (zeros n) 0 blob ≡ (blob ++ zeros (14 - length blob)) ++ zeros 3) whole
      (write-zeros blob (14 - length blob + 3)
        ∙ ap (λ t. blob ++ t) (zeros-add (14 - length blob) 3)
        ∙ sym (append_assoc blob (zeros (14 - length blob)) (zeros 3)))

write_three : (a b c : ℕ) → write (zeros 3) 0 (a ∷ b ∷ c ∷ []) ≡ a ∷ b ∷ c ∷ []
unfolding write
write_three a b c = refl

-- The checksum, behind what it is of.
write_check :
    (xs : List ℕ) (n : ℕ)
    → length xs ≡ n
    → write (xs ++ zeros 3) n (check_bytes (crc32 (xs ++ zeros 3) 0 n)) ≡ xs ++ tail3 xs
write_check xs n h =
    write_at xs (zeros 3) (check_bytes (crc32 (xs ++ zeros 3) 0 n)) n h
    ∙ ap (λ t. xs ++ t) (write_three _ _ _)
    ∙ ap (λ sum. xs ++ check_bytes sum)
        (subst (λ n. crc32 (xs ++ zeros 3) 0 n ≡ checksum xs) h (crc32-append xs (zeros 3)))

pub targeted_bytes-eq :
    (input : ResumeTokenInput) (blob : List ℕ)
    → IsEncodable input
    → length blob ≤ 14
    → targeted_bytes (token input) blob ≡ body input blob ++ tail3 (body input blob)
unfolding targeted_bytes token body
targeted_bytes-eq input blob given fits =
    let header : take 22 (head 1 input ++ tail3 (head 1 input)) ≡ head 1 input =
      subst (λ n. take n (head 1 input ++ tail3 (head 1 input)) ≡ head 1 input)
        (length-head 1 input given) (take-append (head 1 input) (tail3 (head 1 input))) in
    let size = length blob in
    let rest = blob ++ zeros (14 - size) in
    let size22 = length-head 2 input given in
    let sized : write (head 2 input ++ zeros 18) 22 (size % 256 ∷ [])
        ≡ head 2 input ++ (size ∷ zeros 17) =
      write_at (head 2 input) (zeros 18) (size % 256 ∷ []) 22 size22
      ∙ ap (λ t. head 2 input ++ t)
          (write_first 0 (size % 256) (zeros 17) ∙ ap (λ k. k ∷ zeros 17) (omega arith)) in
    let filled : write (head 2 input ++ (size ∷ zeros 17)) 23 blob ≡ body input blob ++ zeros 3 =
      ap (λ t. write t 23 blob) (sym (append_assoc (head 2 input) (size ∷ []) (zeros 17)))
      ∙ write_at (head 2 input ++ (size ∷ [])) (zeros 17) blob 23
          (omega (arith, length-append (head 2 input) (size ∷ []), size22))
      ∙ ap (λ t. (head 2 input ++ (size ∷ [])) ++ t) (write_blob blob fits)
      ∙ append_assoc (head 2 input) (size ∷ []) (rest ++ zeros 3)
      ∙ sym (append_assoc (head 2 input) (size ∷ rest) (zeros 3)) in
    let last : List ℕ → List ℕ = λ bytes. write bytes 37 (check_bytes (crc32 bytes 0 37)) in
    ap
      (λ t.
        last (write (write (write (write (zeros 40) 0 t) 0 (2 ∷ [])) 22 (size % 256 ∷ [])) 23 blob))
      header
    ∙ ap (λ t. last (write (write t 22 (size % 256 ∷ [])) 23 blob)) (write_version input 18 given)
    ∙ ap (λ t. last (write t 23 blob)) sized
    ∙ ap last filled
    ∙ write_check (body input blob) 37 (length-body input blob given fits)
