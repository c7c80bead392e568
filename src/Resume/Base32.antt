-- ===== src/Resume/Base32.antt =====
-- Crockford base 32 as src/core/resume-token.ts writes and reads it. A text is the list of its UTF-16
-- units. What String.toUpperCase makes of a text that is not all ASCII is a parameter.
pub mod Inverse
pub mod RoundTrip
pub mod Text
use deqr.Common.{
  ℕ, zero, suc, ◌+◌, ◌-◌, ◌*◌, ◌/◌, ◌%◌, ◌^◌, List, [], ◌∷◌, ◌++◌, length, get_or, take, drop,
  filter, map,
}
use deqr.Common.{
  Option, none, some, Bool, true, false, not, ◌&&◌, ◌||◌, ltb, leb, ◌==◌, if◌then◌else◌,
}
use deqr.Fec.Equations.{index_of}

-- '0123456789ABCDEFGHJKMNPQRSTVWXYZ'
abbrev pub alphabet : List ℕ
alphabet =
    b'0' ∷ b'1' ∷ b'2' ∷ b'3' ∷ b'4' ∷ b'5' ∷ b'6' ∷ b'7' ∷ b'8' ∷ b'9' ∷ b'A' ∷ b'B' ∷ b'C' ∷ b'D'
    ∷ b'E' ∷ b'F' ∷ b'G' ∷ b'H' ∷ b'J' ∷ b'K' ∷ b'M' ∷ b'N' ∷ b'P' ∷ b'Q' ∷ b'R' ∷ b'S' ∷ b'T'
    ∷ b'V' ∷ b'W' ∷ b'X' ∷ b'Y' ∷ b'Z' ∷ []

-- DECODE.get(character)
unfoldable pub decode_char : ℕ → Option ℕ
unfolding index_of
decode_char c =
    if c == b'I' || c == b'L' then some 1 else if c == b'O' then some 0 else index_of alphabet c

-- The inner loop of toBase32: characters as long as there are five bits, and the bits that are left.
-- An accumulator of 32 bits is read as unsigned.
unfoldable pub emit : ℕ → ℕ → ℕ → List ℕ × ℕ
emit zero accumulator bits = ([], bits)
emit (suc fuel) accumulator bits =
    let more = emit fuel accumulator (bits - 5) in
    if leb 5 bits
    then (get_or alphabet (accumulator / 2 ^ (bits - 5) % 32) 0 ∷ more.0, more.1)
    else ([], bits)

unfoldable pub base32_from : ℕ → ℕ → List ℕ → List ℕ
unfolding emit
base32_from accumulator bits [] = []
base32_from accumulator bits (byte ∷ bytes) =
    let accumulator = (accumulator * 256 + byte) % 2 ^ 32 in
    let (output, left) = emit (bits + 8) accumulator (bits + 8) in
    output ++ base32_from accumulator left bytes

unfoldable pub to_base32 : List ℕ → List ℕ
unfolding base32_from
to_base32 bytes = base32_from 0 0 bytes

-- The loop over the characters. `none` is RESUME_TOKEN_CHARSET.
unfoldable pub read_from : ℕ → ℕ → List ℕ → Option (List ℕ)
unfolding decode_char
read_from accumulator bits [] = some []
read_from accumulator bits (character ∷ characters) = elim (decode_char character) [
  | none ↦ none
  | some value ↦
      let accumulator = (accumulator * 32 + value) % 2 ^ 32 in
      if leb 8 (bits + 5)
      then (elim (read_from accumulator (bits + 5 - 8) characters) [
        | none ↦ none
        | some bytes ↦ some ((accumulator / 2 ^ (bits + 5 - 8) % 256) ∷ bytes)
      ])
      else read_from accumulator (bits + 5) characters
]

-- /[\s-]/
unfoldable pub is_space_or_hyphen : ℕ → Bool
is_space_or_hyphen c =
    c == b'-'
    || (leb 9 c && leb c 13)
    || c == 0x20
    || c == 0xa0
    || c == 0x1680
    || (leb 0x2000 c && leb c 0x200a)
    || c == 0x2028
    || c == 0x2029
    || c == 0x202f
    || c == 0x205f
    || c == 0x3000
    || c == 0xfeff

-- A letter of ASCII in upper case.
unfoldable pub upper_unit : ℕ → ℕ
upper_unit c = if leb b'a' c && leb c b'z' then c - 32 else c

unfoldable pub is_ascii : List ℕ → Bool
is_ascii [] = true
is_ascii (c ∷ cs) = ltb c 128 && is_ascii cs

module _ (upper_other : List ℕ → List ℕ) where
  unfoldable pub to_upper_case : List ℕ → List ℕ
  unfolding upper_unit is_ascii
  to_upper_case text = if is_ascii text then map upper_unit text else upper_other text

  -- text.replace(/[\s-]+/g, '').toUpperCase()
  unfoldable pub clean_text : List ℕ → List ℕ
  unfolding to_upper_case is_space_or_hyphen
  clean_text text = to_upper_case (filter (λ c. not (is_space_or_hyphen c)) text)

-- The groups of a token, with a hyphen between them.
unfoldable pub groups : ℕ → List ℕ → List (List ℕ)
groups zero raw = []
groups (suc fuel) [] = []
groups (suc fuel) (c ∷ cs) = take 5 (c ∷ cs) ∷ groups fuel (drop 5 (c ∷ cs))

unfoldable pub join : List (List ℕ) → List ℕ
join [] = []
join (g ∷ []) = g
join (g ∷ h ∷ gs) = g ++ (b'-' ∷ join (h ∷ gs))

-- Each group takes a character at least, so there are never more groups than characters.
unfoldable pub grouped_text : Bool → List ℕ → List ℕ
unfolding groups join
grouped_text false raw = raw
grouped_text true raw = join (groups (length raw) raw)
