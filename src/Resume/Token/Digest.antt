-- ===== src/Resume/Token/Digest.antt =====
-- Whether a token is of the file that a sender has open (src/core/resume-token.ts).
use deqr.Common.{ℕ, ◌≤◌, ◌≡◌, refl, sym, ap, arith, List, [], ◌∷◌, length, take, get_or}
use deqr.Common.{true, ◌==◌, ==_iff, le→ltb, ◌↔◌}
use deqr.Resume.Token.{ResumeTokenInput, matches, resume_token_matches_digest}
use deqr.Resume.Token.Layout.{token_of, five_or_more, with_digest}

prefix_iff :
    (a b c d e : ℕ) (rest : List ℕ) (a' b' c' d' e' : ℕ) (rest' : List ℕ)
    → (matches 5 (a ∷ b ∷ c ∷ d ∷ e ∷ []) (a' ∷ b' ∷ c' ∷ d' ∷ e' ∷ rest') ≡ true)
      ↔ (take 5 (a' ∷ b' ∷ c' ∷ d' ∷ e' ∷ rest') ≡ take 5 (a ∷ b ∷ c ∷ d ∷ e ∷ rest))
unfolding matches
prefix_iff a b c d e rest a' b' c' d' e' rest' = (
  λ h. ground arith,
  λ h.
      let at : (i : ℕ)
          → get_or (take 5 (a' ∷ b' ∷ c' ∷ d' ∷ e' ∷ rest')) i 0
            ≡ get_or (take 5 (a ∷ b ∷ c ∷ d ∷ e ∷ rest)) i 0 =
        λ i. ap (λ t. get_or t i 0) h in
      let same : (x y : ℕ) → y ≡ x → (x == y) ≡ true = λ x y e. (==_iff x y).1 (sym e) in
      rw (same e e' (at 4), same d d' (at 3), same c c' (at 2), same b b' (at 1), same a a' (at 0))
        refl,
)

-- A token matches a digest when the first five bytes of that digest are those of the digest that it
-- was made from. Both digests have five bytes at least.
pub resume_token_matches_digest_iff :
    (version : ℕ) (input : ResumeTokenInput) (sha256 : List ℕ)
    → 5 ≤ length input.sha256
    → 5 ≤ length sha256
    → (resume_token_matches_digest (token_of version input) sha256 ≡ true)
      ↔ (take 5 sha256 ≡ take 5 input.sha256)
unfolding resume_token_matches_digest
resume_token_matches_digest_iff version input sha256 h k =
    five_or_more
      (λ own.
        5 ≤ length sha256
        → (resume_token_matches_digest (token_of version (with_digest input own)) sha256 ≡ true)
          ↔ (take 5 sha256 ≡ take 5 own))
      (λ a b c d e rest.
        five_or_more
          (λ other.
            (resume_token_matches_digest
                (token_of version (with_digest input (a ∷ b ∷ c ∷ d ∷ e ∷ rest))) other
              ≡ true)
            ↔ (take 5 other ≡ take 5 (a ∷ b ∷ c ∷ d ∷ e ∷ rest)))
          (λ a' b' c' d' e' rest'. long a b c d e rest a' b' c' d' e' rest') sha256)
      input.sha256 h k
  where
    long :
        (a b c d e : ℕ) (rest : List ℕ) (a' b' c' d' e' : ℕ) (rest' : List ℕ)
        → (resume_token_matches_digest
              (token_of version (with_digest input (a ∷ b ∷ c ∷ d ∷ e ∷ rest)))
              (a' ∷ b' ∷ c' ∷ d' ∷ e' ∷ rest')
            ≡ true)
          ↔ (take 5 (a' ∷ b' ∷ c' ∷ d' ∷ e' ∷ rest') ≡ take 5 (a ∷ b ∷ c ∷ d ∷ e ∷ rest))
    long a b c d e rest a' b' c' d' e' rest' =
        rw
          (
            resume_token_matches_digest,
            le→ltb (length (a' ∷ b' ∷ c' ∷ d' ∷ e' ∷ rest')) 5 (omega arith),
          )
          (prefix_iff a b c d e rest a' b' c' d' e' rest')
