-- ===== src/Resume/Token/Layout.antt =====
-- The 25 bytes of a token, and what a reader finds in them (src/core/resume-token.ts).
use deqr.Common.{
  ℕ, zero, suc, ◌+◌, ◌*◌, ◌/◌, ◌%◌, ◌^◌, ◌≤◌, ◌<◌, ◌≡◌, refl, ap, arith, List, [], ◌∷◌, ◌++◌,
  length, get_or, take, All-take,
}
use deqr.Common.{some, true, leb, le→leb, le→ltb}
use deqr.Protocol.Buffer.{be32, write, slice}
use deqr.Protocol.Buffer.Laws.{IsBytes}
use deqr.Protocol.Crc.Bounds.{checksum, crc32-append}
use deqr.Resume.Token.{
  ResumeToken, ResumeTokenInput, write_u32, read_u32, check_bytes, found_at,
  encode_resume_token_bytes,
}

-- What the encoder asks of its input.
pub record IsEncodable (input : ResumeTokenInput) : Type 0 where
  pub session : input.session_id < 2 ^ 32
  pub file : input.file_id < 2 ^ 32
  pub count : input.segment_count < 2 ^ 32
  pub some_segments : 1 ≤ input.segment_count
  pub within : input.resume_from_segment ≤ input.segment_count
  pub bytes : IsBytes input.sha256
  pub digest : 5 ≤ length input.sha256

-- The 22 bytes before the checksum, with the version.
abbrev pub head : ℕ → ResumeTokenInput → List ℕ
head version input =
    version
    ∷ (be32 input.session_id
        ++ (be32 input.file_id
            ++ (be32 input.segment_count
                ++ (be32 input.resume_from_segment ++ take 5 input.sha256))))

-- The token that the input stands for.
abbrev pub token_of : ℕ → ResumeTokenInput → ResumeToken
token_of version input = record {
  version = version;
  session_id = input.session_id;
  file_id = input.file_id;
  segment_count = input.segment_count;
  resume_from_segment = input.resume_from_segment;
  digest_prefix = take 5 input.sha256;
}

abbrev pub tail3 : List ℕ → List ℕ
tail3 bytes = check_bytes (checksum bytes)

-- The 25 bytes.
unfoldable pub token : ResumeTokenInput → List ℕ
token input = head 1 input ++ tail3 (head 1 input)

u32_test : (value : ℕ) → value < 2 ^ 32 → leb value 0xffff_ffff ≡ true
u32_test value h = le→leb _ _ (omega arith)

-- The bytes that are written for a digest of five bytes or more.
layout :
    (s f n r a b c d e : ℕ) (sha : List ℕ)
    → (let input : ResumeTokenInput = record {
      session_id = s;
      file_id = f;
      segment_count = n;
      resume_from_segment = r;
      sha256 = a ∷ b ∷ c ∷ d ∷ e ∷ sha;
    } in
        IsEncodable input
        → encode_resume_token_bytes input ≡ some (head 1 input ++ tail3 (head 1 input)))
unfolding encode_resume_token_bytes write_u32 write
layout s f n r a b c d e sha given =
    let input : ResumeTokenInput = record {
      session_id = s;
      file_id = f;
      segment_count = n;
      resume_from_segment = r;
      sha256 = a ∷ b ∷ c ∷ d ∷ e ∷ sha;
    } in
    rw
      (
        u32_test s given.session,
        u32_test f given.file,
        u32_test n given.count,
        u32_test r (omega (arith, given.within, given.count)),
        le→ltb n 1 given.some_segments,
        le→ltb n r given.within,
        le→ltb (suc (suc (suc (suc (suc (length sha)))))) 5 given.digest,
      )
      (ap (λ sum. some (head 1 input ++ check_bytes sum))
        (crc32-append (head 1 input) (0 ∷ 0 ∷ 0 ∷ [])))

-- What holds of every text of five units or more.
pub five_or_more {κ} :
    (P : List ℕ → Type κ)
    → ((a b c d e : ℕ) (rest : List ℕ) → P (a ∷ b ∷ c ∷ d ∷ e ∷ rest))
    → (xs : List ℕ) → 5 ≤ length xs
    → P xs
five_or_more P at (a ∷ b ∷ c ∷ d ∷ e ∷ rest) h = at a b c d e rest
five_or_more P at (a ∷ b ∷ c ∷ d ∷ []) h = absurd (omega arith)
five_or_more P at (a ∷ b ∷ c ∷ []) h = absurd (omega arith)
five_or_more P at (a ∷ b ∷ []) h = absurd (omega arith)
five_or_more P at (a ∷ []) h = absurd (omega arith)
five_or_more P at [] h = absurd (omega arith)

abbrev pub with_digest : ResumeTokenInput → List ℕ → ResumeTokenInput
with_digest input sha = record {
  session_id = input.session_id;
  file_id = input.file_id;
  segment_count = input.segment_count;
  resume_from_segment = input.resume_from_segment;
  sha256 = sha;
}

pub encode_resume_token_bytes-eq :
    (input : ResumeTokenInput)
    → IsEncodable input
    → encode_resume_token_bytes input ≡ some (token input)
unfolding token
encode_resume_token_bytes-eq input given =
    five_or_more
      (λ sha.
        IsEncodable (with_digest input sha)
        → encode_resume_token_bytes (with_digest input sha)
          ≡ some (head 1 (with_digest input sha) ++ tail3 (head 1 (with_digest input sha))))
      (λ a b c d e sha. layout _ _ _ _ a b c d e sha) input.sha256 given.digest given

-- The fields that a reader finds behind the version.
pub record Holds (bytes : List ℕ) (input : ResumeTokenInput) : Type 0 where
  pub session : read_u32 bytes 1 ≡ input.session_id
  pub file : read_u32 bytes 5 ≡ input.file_id
  pub count : read_u32 bytes 9 ≡ input.segment_count
  pub resume : read_u32 bytes 13 ≡ input.resume_from_segment
  pub prefix : slice bytes 17 22 ≡ take 5 input.sha256

value_of_be32 :
    (v : ℕ)
    → v < 2 ^ 32
    → v / 2 ^ 24 % 256 * 2 ^ 24 + v / 2 ^ 16 % 256 * 2 ^ 16 + v / 256 % 256 * 2 ^ 8 + v % 256 ≡ v
value_of_be32 v h = omega arith

pub head-Holds :
    (version : ℕ) (input : ResumeTokenInput) (rest : List ℕ)
    → IsEncodable input
    → Holds (head version input ++ rest) input
unfolding read_u32
head-Holds version input rest given = record {
  session = value_of_be32 _ given.session;
  file = value_of_be32 _ given.file;
  count = value_of_be32 _ given.count;
  resume = value_of_be32 _ (omega (arith, given.within, given.count));
  prefix =
      five_or_more (λ sha. slice (head version (with_digest input sha) ++ rest) 17 22 ≡ take 5 sha)
        (λ a b c d e sha. refl) input.sha256 given.digest;
}

pub length-head :
    (version : ℕ) (input : ResumeTokenInput) → IsEncodable input → length (head version input) ≡ 22
length-head version input given =
    five_or_more (λ sha. length (head version (with_digest input sha)) ≡ 22) (λ a b c d e sha. refl)
      input.sha256 given.digest

word_then : (v : ℕ) (xs : List ℕ) → IsBytes xs → IsBytes (be32 v ++ xs)
word_then v xs h = (omega arith, (omega arith, (omega arith, (omega arith, h))))

pub tail3-IsBytes : (bytes : List ℕ) → IsBytes (tail3 bytes)
tail3-IsBytes bytes = (omega arith, (omega arith, (omega arith, tt)))

pub head-IsBytes :
    (version : ℕ) (input : ResumeTokenInput)
    → version < 256
    → IsEncodable input
    → IsBytes (head version input)
head-IsBytes version input small given =
    let digest = take 5 input.sha256 in
    let resume = be32 input.resume_from_segment ++ digest in
    let count = be32 input.segment_count ++ resume in
    let file = be32 input.file_id ++ count in
    (
      small,
      word_then input.session_id file (
          word_then input.file_id count (
            word_then input.segment_count resume (
              word_then input.resume_from_segment digest
                (All-take (λ b. b < 256) 5 input.sha256 given.bytes)))),
    )

pub get_or-append :
    (xs ys : List ℕ) (i k : ℕ) → i ≡ length xs + k → get_or (xs ++ ys) i 0 ≡ get_or ys k 0
get_or-append [] ys i k h = ap (λ i. get_or ys i 0) (omega arith)
get_or-append (x ∷ xs) ys (suc i) k h = get_or-append xs ys i k (omega arith)
get_or-append (x ∷ xs) ys zero k h = absurd (omega arith)

-- The 24 bits that stand behind a text, and the reader's own.
pub found_at-tail3 :
    (bytes : List ℕ) → found_at (bytes ++ tail3 bytes) (length bytes) ≡ checksum bytes % 2 ^ 24
unfolding found_at
found_at-tail3 bytes =
    let at = get_or-append bytes (tail3 bytes) in
    let n = length bytes in
    rw (at n 0 (omega arith), at (n + 1) 1 refl, at (n + 2) 2 refl)
      (let sum = checksum bytes in
        let value : sum / 2 ^ 16 % 256 * 2 ^ 16 + sum / 2 ^ 8 % 256 * 2 ^ 8 + sum % 256
            ≡ sum % 2 ^ 24 =
          omega arith in
        value)
