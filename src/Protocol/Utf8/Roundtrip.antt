-- ===== src/Protocol/Utf8/Roundtrip.antt =====
-- The texts that the platform's UTF-8 codec carries, which the texts of a manifest are to be
-- (src/core/protocol-v2.ts).
use deqr.Common.{ℕ, ◌+◌, ◌-◌, ◌*◌, ◌≤◌, ◌<◌, ◌≡◌, ◌≢◌, refl, ap, sym, ◌∙◌, arith, ◌⊎◌, inl, inr}
use deqr.Common.{List, [], ◌∷◌, ◌++◌, All, All-append, Option, none, some}
use deqr.Common.{Bool-cases, get_or, true, false}
use native.Mathlib.Decide.{dec_lt}
use deqr.Protocol.Types.{Text, ok}
use deqr.Protocol.Utf8.{
  is_lead, is_trail, scalars_at, scalars_from, waiting_after, units_of, text_of, encode_scalar,
  encode_scalars, encode_utf8, at_rest, first_byte, next_byte, decode_byte, decode_from, drop_mark,
  decode_utf8, byte_order_mark, emit,
}

-- A Unicode scalar value is a code point that is no surrogate.
abbrev pub IsScalar : ℕ → Type 0
IsScalar c = (c < 0xd800) ⊎ ((0xe000 ≤ c) × (c < 0x110000))

decode-encode_one :
    (c : ℕ) (bs : List ℕ)
    → c < 0x80
    → decode_from at_rest (encode_scalar c ++ bs) ≡ emit (c ∷ []) (decode_from at_rest bs)
unfolding decode_from encode_scalar decode_byte first_byte
decode-encode_one c bs h = ground arith

decode-encode_two :
    (c : ℕ) (bs : List ℕ)
    → 0x80 ≤ c
    → c < 0x800
    → decode_from at_rest (encode_scalar c ++ bs) ≡ emit (c ∷ []) (decode_from at_rest bs)
unfolding decode_from encode_scalar decode_byte first_byte next_byte
decode-encode_two c bs h k = ground arith

decode-encode_three :
    (c : ℕ) (bs : List ℕ)
    → 0x800 ≤ c
    → c < 0x10000
    → IsScalar c
    → decode_from at_rest (encode_scalar c ++ bs) ≡ emit (c ∷ []) (decode_from at_rest bs)
unfolding decode_from encode_scalar decode_byte first_byte next_byte
decode-encode_three c bs h k s = ground arith

decode-encode_four :
    (c : ℕ) (bs : List ℕ)
    → 0x10000 ≤ c
    → c < 0x110000
    → decode_from at_rest (encode_scalar c ++ bs) ≡ emit (c ∷ []) (decode_from at_rest bs)
unfolding decode_from encode_scalar decode_byte first_byte next_byte
decode-encode_four c bs h k = ground arith

decode-encode_scalar :
    (c : ℕ) (bs : List ℕ)
    → IsScalar c
    → decode_from at_rest (encode_scalar c ++ bs) ≡ emit (c ∷ []) (decode_from at_rest bs)
decode-encode_scalar c bs s = elim (dec_lt c 0x80) [
  | yes one ↦ decode-encode_one c bs one
  | no more ↦ elim (dec_lt c 0x800) [
    | yes two ↦ decode-encode_two c bs (omega arith) two
    | no more ↦ elim (dec_lt c 0x10000) [
      | yes three ↦ decode-encode_three c bs (omega arith) three s
      | no more ↦ decode-encode_four c bs (omega arith) (ground arith)
    ]
  ]
]

decode-encode_scalars :
    (cs : List ℕ) → All IsScalar cs → decode_from at_rest (encode_scalars cs) ≡ some cs
unfolding encode_scalars decode_from
decode-encode_scalars [] h = refl
decode-encode_scalars (c ∷ cs) h =
    decode-encode_scalar c (encode_scalars cs) h.0
    ∙ ap (emit (c ∷ [])) (decode-encode_scalars cs h.1)

drop_mark-encode_scalars :
    (cs : List ℕ)
    → All IsScalar cs
    → get_or cs 0 0 ≢ byte_order_mark
    → drop_mark (encode_scalars cs) ≡ encode_scalars cs
unfolding drop_mark encode_scalars encode_scalar
drop_mark-encode_scalars [] h n = refl
drop_mark-encode_scalars (c ∷ cs) h n = ground arith

abbrev pub IsUnits : Text → Type 0
IsUnits = All (λ u. u < 0x10000)

abbrev IsWaiting : Option ℕ → Type 0
IsWaiting none = Unit
IsWaiting (some lead) = (0xd800 ≤ lead) × (lead < 0xdc00)

unit-IsScalar : (u : ℕ) → u < 0x10000 → is_lead u ≡ false → is_trail u ≡ false → IsScalar u
unfolding is_lead is_trail
unit-IsScalar u k e q = ground arith

pair-IsScalar :
    (lead u : ℕ)
    → (0xd800 ≤ lead) × (lead < 0xdc00)
    → is_trail u ≡ true
    → IsScalar (0x10000 + (lead - 0xd800) * 0x400 + (u - 0xdc00))
unfolding is_trail
pair-IsScalar lead u h q = inr (ground arith, ground arith)

scalars_at-IsScalar :
    (w : Option ℕ) (u : ℕ) → IsWaiting w → u < 0x10000 → All IsScalar (scalars_at w u)
unfolding scalars_at
scalars_at-IsScalar none u h k = elim (Bool-cases (is_lead u)) [
  | inl e ↦ rw e tt
  | inr e ↦ elim (Bool-cases (is_trail u)) [
    | inl q ↦ rw (e, q) (inr (omega arith, omega arith), tt)
    | inr q ↦ rw (e, q) (unit-IsScalar u k e q, tt)
  ]
]
scalars_at-IsScalar (some lead) u h k = elim (Bool-cases (is_trail u)) [
  | inl q ↦ rw q (pair-IsScalar lead u h q, tt)
  | inr q ↦ elim (Bool-cases (is_lead u)) [
    | inl e ↦ rw (q, e) (inr (omega arith, omega arith), tt)
    | inr e ↦ rw (q, e) (inr (omega arith, omega arith), (unit-IsScalar u k e q, tt))
  ]
]

waiting_after-IsWaiting : (u : ℕ) → IsWaiting (waiting_after u)
unfolding waiting_after
waiting_after-IsWaiting u = elim (Bool-cases (is_lead u)) [
  | inl e ↦ rw e (ground arith)
  | inr e ↦ rw e tt
]

scalars_from-IsScalar :
    (w : Option ℕ) (t : Text) → IsWaiting w → IsUnits t → All IsScalar (scalars_from w t)
unfolding scalars_from
scalars_from-IsScalar none [] h k = tt
scalars_from-IsScalar (some lead) [] h k = (inr (omega arith, omega arith), tt)
scalars_from-IsScalar w (u ∷ us) h k =
    All-append IsScalar (scalars_at w u) (scalars_from (waiting_after u) us)
      (scalars_at-IsScalar w u h k.0)
      (scalars_from-IsScalar (waiting_after u) us (waiting_after-IsWaiting u) k.1)

-- A string that UTF-8 can carry: its surrogates come in pairs, and no byte order mark leads it.
pub record IsPlainText (t : Text) : Type 0 where
  pub units : IsUnits t
  pub well_formed : text_of (scalars_from none t) ≡ t
  pub no_mark : get_or t 0 0 ≢ byte_order_mark

first-text_of :
    (cs : List ℕ) → get_or cs 0 0 ≡ byte_order_mark → get_or (text_of cs) 0 0 ≡ byte_order_mark
unfolding text_of units_of
first-text_of [] h = h
first-text_of (c ∷ cs) h = ground arith

-- A string whose surrogates come in pairs and that no byte order mark leads is decoded from its
-- encoding.
pub decode-encode_utf8 : (t : Text) → IsPlainText t → decode_utf8 (encode_utf8 t) ≡ ok t
unfolding decode_utf8 encode_utf8
decode-encode_utf8 t p =
    let cs = scalars_from none t in
    let scalar = scalars_from-IsScalar none t tt p.units in
    let unmarked : get_or cs 0 0 ≢ byte_order_mark =
      λ h. p.no_mark (sym (ap (λ x. get_or x 0 0) p.well_formed) ∙ first-text_of cs h) in
    rw (drop_mark-encode_scalars cs scalar unmarked, decode-encode_scalars cs scalar)
      (ap ok p.well_formed)
