-- ===== src/Protocol/Utf8.antt =====
-- TextEncoder and TextDecoder('utf-8', { fatal: true }) as src/core/protocol-v2.ts uses them, after
-- the WHATWG Encoding Standard: a lone surrogate is written as U+FFFD, a leading byte order mark is
-- dropped by the decoder, and any malformed input is an error.
pub mod Roundtrip
use deqr.Common.{ℕ, suc, ◌+◌, ◌-◌, ◌*◌, ◌/◌, ◌%◌, List, [], ◌∷◌, ◌++◌, drop, get_or}
use deqr.Common.{Option, none, some, Bool, ◌&&◌, leb, ltb, ◌==◌, if◌then◌else◌}
use deqr.Protocol.Types.{Text, V2Result, ok, fail, invalid_utf8}

unfoldable pub is_lead : ℕ → Bool
is_lead u = leb 0xd800 u && ltb u 0xdc00

unfoldable pub is_trail : ℕ → Bool
is_trail u = leb 0xdc00 u && ltb u 0xe000

abbrev pub replacement : ℕ
replacement = 0xfffd

abbrev pub byte_order_mark : ℕ
byte_order_mark = 0xfeff

-- What a unit adds after a lead surrogate that waits for its trail, or after none.
unfoldable pub scalars_at : Option ℕ → ℕ → List ℕ
unfolding is_lead is_trail
scalars_at none u = if is_lead u then [] else (if is_trail u then replacement else u) ∷ []
scalars_at (some lead) u =
    if is_trail u
    then (0x10000 + (lead - 0xd800) * 0x400 + (u - 0xdc00)) ∷ []
    else replacement ∷ (if is_lead u then [] else u ∷ [])

unfoldable pub waiting_after : ℕ → Option ℕ
unfolding is_lead
waiting_after u = if is_lead u then some u else none

-- The Unicode scalar values of a string.
unfoldable pub scalars_from : Option ℕ → Text → List ℕ
unfolding scalars_at waiting_after
scalars_from none [] = []
scalars_from (some lead) [] = replacement ∷ []
scalars_from waiting (u ∷ us) = scalars_at waiting u ++ scalars_from (waiting_after u) us

-- The string of scalar values.
unfoldable pub units_of : ℕ → Text
units_of c =
    if ltb c 0x10000
    then c ∷ []
    else (0xd800 + (c - 0x10000) / 0x400) ∷ (0xdc00 + (c - 0x10000) % 0x400) ∷ []

unfoldable pub text_of : List ℕ → Text
unfolding units_of
text_of [] = []
text_of (c ∷ cs) = units_of c ++ text_of cs

unfoldable pub encode_scalar : ℕ → List ℕ
encode_scalar c =
    if ltb c 0x80
    then c ∷ []
    else if ltb c 0x800
    then (0xc0 + c / 64) ∷ (0x80 + c % 64) ∷ []
    else if ltb c 0x10000
    then (0xe0 + c / 4096) ∷ (0x80 + c / 64 % 64) ∷ (0x80 + c % 64) ∷ []
    else (0xf0 + c / 262144) ∷ (0x80 + c / 4096 % 64) ∷ (0x80 + c / 64 % 64) ∷ (0x80 + c % 64) ∷ []

unfoldable pub encode_scalars : List ℕ → List ℕ
unfolding encode_scalar
encode_scalars [] = []
encode_scalars (c ∷ cs) = encode_scalar c ++ encode_scalars cs

-- utf8Encoder.encode
unfoldable pub encode_utf8 : Text → List ℕ
unfolding scalars_from encode_scalars
encode_utf8 t = encode_scalars (scalars_from none t)

-- The decoder between two bytes: how many more it needs, what it has, and the next one's range.
pub record Decoding : Type 0 where
  pub needed : ℕ
  pub code_point : ℕ
  pub lower : ℕ
  pub upper : ℕ

abbrev pub at_rest : Decoding
at_rest = record { needed = 0; code_point = 0; lower = 0x80; upper = 0xbf }

abbrev pub awaiting : ℕ → ℕ → ℕ → ℕ → Option (Decoding × List ℕ)
awaiting needed code_point lower upper =
    some (record { needed = needed; code_point = code_point; lower = lower; upper = upper }, [])

unfoldable pub first_byte : ℕ → Option (Decoding × List ℕ)
first_byte b =
    if ltb b 0x80
    then some (at_rest, b ∷ [])
    else if leb 0xc2 b && leb b 0xdf
    then awaiting 1 (b - 0xc0) 0x80 0xbf
    else if leb 0xe0 b && leb b 0xef
    then awaiting 2 (b - 0xe0) (if b == 0xe0 then 0xa0 else 0x80) (if b == 0xed then 0x9f else 0xbf)
    else if leb 0xf0 b && leb b 0xf4
    then awaiting 3 (b - 0xf0) (if b == 0xf0 then 0x90 else 0x80) (if b == 0xf4 then 0x8f else 0xbf)
    else none

unfoldable pub next_byte : Decoding → ℕ → Option (Decoding × List ℕ)
next_byte s b =
    let code_point = s.code_point * 64 + (b - 0x80) in
    if leb s.lower b && leb b s.upper
    then (if s.needed == 1
        then some (at_rest, code_point ∷ [])
        else awaiting (s.needed - 1) code_point 0x80 0xbf)
    else none

unfoldable pub decode_byte : Decoding → ℕ → Option (Decoding × List ℕ)
unfolding first_byte next_byte
decode_byte s b = if s.needed == 0 then first_byte b else next_byte s b

abbrev pub emit : List ℕ → Option (List ℕ) → Option (List ℕ)
emit out none = none
emit out (some rest) = some (out ++ rest)

unfoldable pub decode_from : Decoding → List ℕ → Option (List ℕ)
unfolding decode_byte
decode_from s [] = if s.needed == 0 then some [] else none
decode_from s (b ∷ bs) = elim (decode_byte s b) [
  | none ↦ none
  | some (s', out) ↦ emit out (decode_from s' bs)
]

unfoldable pub drop_mark : List ℕ → List ℕ
drop_mark b =
    if get_or b 0 0 == 0xef && get_or b 1 0 == 0xbb && get_or b 2 0 == 0xbf then drop 3 b else b

abbrev pub decoded : Option (List ℕ) → V2Result Text
decoded none = fail invalid_utf8
decoded (some cs) = ok (text_of cs)

-- decodeUtf8
unfoldable pub decode_utf8 : List ℕ → V2Result Text
unfolding decode_from drop_mark text_of
decode_utf8 bytes = decoded (decode_from at_rest (drop_mark bytes))
