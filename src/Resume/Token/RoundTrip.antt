-- ===== src/Resume/Token/RoundTrip.antt =====
-- A token is read back as what was put in (src/core/resume-token.ts).
use deqr.Common.{append_nil}
use deqr.Common.{
  ℕ, ◌*◌, ◌%◌, ◌^◌, ◌<◌, ◌≡◌, refl, ap, ◌∙◌, arith, List, ◌++◌, length, get_or, All-append,
  length-append,
}
use deqr.Common.{some, Bool, le→ltb, ==_refl}
use deqr.Protocol.Buffer.{write, zeros}
use deqr.Protocol.Buffer.Laws.{IsBytes, write-zeros}
use mathlib.Core.Path.{subst}
use native.Mathlib.Nat.{add-zero}
use deqr.Protocol.Crc.{crc32}
use deqr.Protocol.Crc.Bounds.{checksum, crc32-append}
use deqr.Resume.Token.{
  ok, ResumeTokenInput, found_at, encode_resume_token_bytes, encode_resume_token, check_token,
  decode_resume_token,
}
use deqr.Resume.Base32.{to_base32, base32_from, read_from, clean_text, grouped_text}
use deqr.Resume.Base32.RoundTrip.{read_from-base32_from, base32_from-IsPlain}
use deqr.Resume.Base32.Text.{clean_text-grouped_text}
use deqr.Resume.Token.Layout.{
  IsEncodable, head, token_of, tail3, token, encode_resume_token_bytes-eq, Holds, head-Holds,
  length-head, tail3-IsBytes, head-IsBytes, found_at-tail3,
}

-- What the checks of the reader come to.
check_passes :
    (bytes : List ℕ) (input : ResumeTokenInput) (sum : ℕ)
    → IsEncodable input
    → Holds bytes input
    → get_or bytes 0 0 ≡ 1
    → found_at bytes 22 ≡ sum % 2 ^ 24
    → crc32 bytes 0 22 ≡ sum
    → check_token bytes ≡ ok (token_of 1 input)
unfolding check_token
check_passes bytes input sum given fields first found made =
    rw
      (
        found,
        made,
        first,
        fields.count,
        fields.resume,
        fields.session,
        fields.file,
        fields.prefix,
        ==_refl (sum % 2 ^ 24),
        le→ltb _ _ given.some_segments,
        le→ltb _ _ given.within,
      )
      refl

check_token-head :
    (input : ResumeTokenInput)
    → IsEncodable input
    → check_token (token input) ≡ ok (token_of 1 input)
unfolding token
check_token-head input given =
    let fields = head-Holds 1 input (tail3 (head 1 input)) given in
    let size = length-head 1 input given in
    let found : found_at (head 1 input ++ tail3 (head 1 input)) 22
        ≡ checksum (head 1 input) % 2 ^ 24 =
      subst
        (λ n. found_at (head 1 input ++ tail3 (head 1 input)) n ≡ checksum (head 1 input) % 2 ^ 24)
        size (found_at-tail3 (head 1 input)) in
    let sum : crc32 (head 1 input ++ tail3 (head 1 input)) 0 22 ≡ checksum (head 1 input) =
      subst (λ n. crc32 (head 1 input ++ tail3 (head 1 input)) 0 n ≡ checksum (head 1 input)) size
        (crc32-append (head 1 input) (tail3 (head 1 input))) in
    check_passes (head 1 input ++ tail3 (head 1 input)) input (checksum (head 1 input)) given fields
      refl found sum

pub fill : (bytes : List ℕ) (n : ℕ) → length bytes ≡ n → write (zeros n) 0 bytes ≡ bytes
fill bytes n size =
    subst (λ n. write (zeros n) 0 bytes ≡ bytes) (add-zero (length bytes) ∙ size)
      (write-zeros bytes 0 ∙ append_nil bytes)

encode_text :
    (input : ResumeTokenInput) (grouped : Bool) (bytes : List ℕ)
    → encode_resume_token_bytes input ≡ some bytes
    → encode_resume_token input grouped ≡ some (grouped_text grouped (to_base32 bytes))
unfolding encode_resume_token
encode_text input grouped bytes h = rw (h, encode_resume_token) refl

token-IsBytes :
    (input : ResumeTokenInput)
    → IsEncodable input
    → (length (token input) ≡ 25) × IsBytes (token input)
unfolding token
token-IsBytes input given = (
  omega (arith, length-append (head 1 input) (tail3 (head 1 input)), length-head 1 input given),
  All-append (λ b. b < 256) (head 1 input) (tail3 (head 1 input))
      (head-IsBytes 1 input (omega arith) given) (tail3-IsBytes (head 1 input)),
)

module _ (upper_other : List ℕ → List ℕ) where
  -- A text of whole blocks that is written, grouped or not, cleaned and read.
  pub read_text :
      (bytes : List ℕ) (grouped : Bool)
      → length bytes % 5 ≡ 0
      → IsBytes bytes
      → (let clean = clean_text upper_other (grouped_text grouped (to_base32 bytes)) in
          (length clean * 5 ≡ length bytes * 8) × (read_from 0 0 clean ≡ some bytes))
  unfolding to_base32
  read_text bytes grouped whole small =
      let (size, plain) = base32_from-IsPlain 0 bytes whole in
      rw (clean_text-grouped_text upper_other grouped (base32_from 0 0 bytes) plain)
        (size, read_from-base32_from 0 0 bytes whole small)

  decode_text :
      (text bytes : List ℕ)
      → length (clean_text upper_other text) ≡ 40
      → read_from 0 0 (clean_text upper_other text) ≡ some bytes
      → length bytes ≡ 25
      → decode_resume_token upper_other text ≡ check_token bytes
  unfolding decode_resume_token
  decode_text text bytes chars read size = rw (chars, read) (ap check_token (fill bytes 25 size))

  -- The text of a token, how many characters a reader counts in it, and what it reads.
  pub token_text :
      (input : ResumeTokenInput) (grouped : Bool)
      → IsEncodable input
      → (let text = grouped_text grouped (to_base32 (token input)) in
          (encode_resume_token input grouped ≡ some text)
          × ((length (clean_text upper_other text) ≡ 40)
              × (decode_resume_token upper_other text ≡ ok (token_of 1 input))))
  token_text input grouped given =
      let (size, small) = token-IsBytes input given in
      let (chars, read) = read_text (token input) grouped (rw size refl) small in
      let forty : length (clean_text upper_other (grouped_text grouped (to_base32 (token input))))
          ≡ 40 =
        omega (arith, chars, size) in
      (
        encode_text input grouped (token input) (encode_resume_token_bytes-eq input given),
        (forty, decode_text _ (token input) forty read size ∙ check_token-head input given),
      )

  -- What has been put into a token comes out of it, with the separators and without.
  pub decode_resume_token-encode_resume_token :
      (input : ResumeTokenInput) (grouped : Bool)
      → IsEncodable input
      → (text : List ℕ) × ((encode_resume_token input grouped ≡ some text)
          × (decode_resume_token upper_other text ≡ ok (token_of 1 input)))
  decode_resume_token-encode_resume_token input grouped given =
      let (encoded, (chars, decoded)) = token_text input grouped given in
      (grouped_text grouped (to_base32 (token input)), (encoded, decoded))
