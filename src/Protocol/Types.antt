-- ===== src/Protocol/Types.antt =====
-- The vocabulary of the v2 frames (src/core/protocol-v2.ts): constants, limits, the model of the two
-- kinds of frame, error codes and results. A `fail` is a returned `{ ok: false }`, and `rejects` a
-- `DeqrV2Error` that is thrown, both without the message; `throws` is any other exception, such as the
-- `RangeError` of a read behind the end of a `DataView`.
use deqr.Common.{ℕ, ◌-◌, ◌^◌, ◌≡◌, refl, Bool, true, false, List}

abbrev pub magic_0 : ℕ
magic_0 = 0x44

abbrev pub magic_1 : ℕ
magic_1 = 0x32

abbrev pub protocol_version : ℕ
protocol_version = 2

-- V2_FRAME_TYPE
abbrev pub manifest_type : ℕ
manifest_type = 1

abbrev pub source_type : ℕ
source_type = 2

abbrev pub repair_type : ℕ
repair_type = 3

-- V2_COMPRESSION
abbrev pub compression_none : ℕ
compression_none = 0

abbrev pub compression_gzip : ℕ
compression_gzip = 1

-- V2_COMPRESSION_WINDOW
abbrev pub min_log2 : ℕ
min_log2 = 16

abbrev pub max_log2 : ℕ
max_log2 = 26

abbrev pub window_length_prefix_bytes : ℕ
window_length_prefix_bytes = 4

abbrev pub min_gzip_member_bytes : ℕ
min_gzip_member_bytes = 18

-- V2_FEC_PROFILE
abbrev pub lt_systematic_robust_soliton_v1 : ℕ
lt_systematic_robust_soliton_v1 = 1

abbrev pub flag_critical_mask : ℕ
flag_critical_mask = 0xff00

-- V2_LIMITS
abbrev pub min_filename_bytes : ℕ
min_filename_bytes = 1

abbrev pub max_filename_bytes : ℕ
max_filename_bytes = 1024

abbrev pub max_mime_bytes : ℕ
max_mime_bytes = 255

abbrev pub min_symbol_size_bytes : ℕ
min_symbol_size_bytes = 32

abbrev pub max_symbol_size_bytes : ℕ
max_symbol_size_bytes = 4096

abbrev pub min_segment_size_bytes : ℕ
min_segment_size_bytes = 65536

abbrev pub max_segment_size_bytes : ℕ
max_segment_size_bytes = 67108864

abbrev pub max_u32 : ℕ
max_u32 = 0xffff_ffff

abbrev pub max_segment_count : ℕ
max_segment_count = max_u32

abbrev pub max_symbols_per_segment : ℕ
max_symbols_per_segment = max_u32

abbrev pub max_file_bytes : ℕ
max_file_bytes = 2 ^ 64 - 1

-- A text is its UTF-16 code units.
abbrev pub Text : Type 0
Text = List ℕ

pub record DeqrV2Manifest : Type 0 where
  pub feature_flags : ℕ
  pub session_id : ℕ
  pub file_id : ℕ
  pub original_size : ℕ
  pub transport_size : ℕ
  pub segment_size_bytes : ℕ
  pub symbol_size_bytes : ℕ
  pub segment_count : ℕ
  pub fec_profile_id : ℕ
  pub compression_mode : ℕ
  pub compression_param : ℕ
  pub transport_profile_id : ℕ
  pub sha256 : List ℕ
  pub filename : Text
  pub mime_type : Text

pub record DeqrV2DataFrame : Type 0 where
  pub frame_type : ℕ
  pub session_id : ℕ
  pub file_id : ℕ
  pub segment_index : ℕ
  pub symbol_id : ℕ
  pub source_symbol_count : ℕ
  pub frame_flags : ℕ
  pub payload : List ℕ

pub data DeqrV2Frame : Type 0 where
  manifest : DeqrV2Manifest → DeqrV2Frame
  data_frame : DeqrV2DataFrame → DeqrV2Frame

pub data V2ErrorCode : Type 0 where
  frame_too_short trailing_bytes bad_magic v1_frame unsupported_version unknown_frame_type
        frame_type_mismatch crc_mismatch field_out_of_range inconsistent_manifest
        unsupported_critical_feature unsupported_compression unsupported_fec_profile invalid_utf8
        invalid_filename session_mismatch segment_out_of_range symbol_out_of_range precision_loss :
      V2ErrorCode

-- `ok` and `fail` are the two results of the source. A function that calls `reject` `rejects`, and one
-- that runs into an exception of another kind than DeqrV2Error `throws`.
pub data V2Result {ℓ} (A : Type ℓ) : Type ℓ where
  throws : V2Result A
  rejects : V2ErrorCode → V2Result A
  fail : V2ErrorCode → V2Result A
  ok : A → V2Result A

-- Go on if the condition holds, and return a failure with the code if not.
abbrev pub guard : (condition : Bool) (code : V2ErrorCode) → V2Result (Unit {0})
guard false code = fail code
guard true code = ok tt

-- Go on if the condition holds, and throw a DeqrV2Error with the code if not.
abbrev pub require : (condition : Bool) (code : V2ErrorCode) → V2Result (Unit {0})
require false code = rejects code
require true code = ok tt

-- A call in a `try` whose `catch` returns the DeqrV2Error, or an inconsistent manifest for another
-- exception.
abbrev pub caught {ℓ} : {A : Type ℓ} → V2Result A → V2Result A
caught throws = fail inconsistent_manifest
caught (rejects code) = fail code
caught (fail code) = fail code
caught (ok a) = ok a

-- The call returns: it throws no exception of any kind.
abbrev pub returns {ℓ} : {A : Type ℓ} → V2Result A → Bool
returns throws = false
returns (rejects code) = false
returns (fail code) = true
returns (ok a) = true

-- The rest of a function runs only on a good result.
infixl 5 ◌>>=◌
abbrev pub ◌>>=◌ {ℓ κ} : {X : Type ℓ} {Y : Type κ} → V2Result X → (X → V2Result Y) → V2Result Y
throws >>= rest = throws
rejects code >>= rest = rejects code
fail code >>= rest = fail code
ok x >>= rest = rest x

infixl 5 ◌>>◌
abbrev pub ◌>>◌ {ℓ} : {Y : Type ℓ} → V2Result (Unit {0}) → V2Result Y → V2Result Y
check >> rest = check >>= λ _. rest

pub >>=-eq-ok {ℓ κ} :
    {X : Type ℓ} {Y : Type κ} {y : Y} (first : V2Result X) (rest : X → V2Result Y)
    → (first >>= rest) ≡ ok y
    → (x : X) × (first ≡ ok x) × (rest x ≡ ok y)
>>=-eq-ok throws rest h = cc
>>=-eq-ok (rejects code) rest h = cc
>>=-eq-ok (fail code) rest h = cc
>>=-eq-ok (ok x) rest h = (x, refl, h)

pub guard-eq-ok {ℓ} :
    {B : Type ℓ} (c : Bool) (e : V2ErrorCode) (k : V2Result B) {b : B}
    → (guard c e >> k) ≡ ok b
    → (c ≡ true) × (k ≡ ok b)
guard-eq-ok true e k h = (refl, h)
guard-eq-ok false e k h = cc

pub require-eq-ok {ℓ} :
    {B : Type ℓ} (c : Bool) (e : V2ErrorCode) (k : V2Result B) {b : B}
    → (require c e >> k) ≡ ok b
    → (c ≡ true) × (k ≡ ok b)
require-eq-ok true e k h = (refl, h)
require-eq-ok false e k h = cc

pub caught-eq-ok {ℓ} : {A : Type ℓ} (x : V2Result A) {a : A} → caught x ≡ ok a → x ≡ ok a
caught-eq-ok throws h = cc
caught-eq-ok (rejects code) h = cc
caught-eq-ok (fail code) h = cc
caught-eq-ok (ok b) h = h

pub ok-injective {ℓ} : {A : Type ℓ} {a b : A} → ok a ≡ ok b → a ≡ b
ok-injective h = cc

pub throws-ne-ok {ℓ} : {A : Type ℓ} {a : A} → throws ≡ ok a → ⊥
throws-ne-ok h = cc

-- A chain of steps returns where each of them does.
pub returns-bind {ℓ κ} :
    {A : Type ℓ} {B : Type κ} (m : V2Result A) (f : A → V2Result B)
    → returns m ≡ true
    → ((a : A) → m ≡ ok a → returns (f a) ≡ true)
    → returns (m >>= f) ≡ true
returns-bind (ok a) f p q = q a refl
returns-bind (fail e) f p q = refl
returns-bind (rejects e) f p q = p
returns-bind throws f p q = p

pub returns-guard {ℓ} :
    {B : Type ℓ} (c : Bool) (e : V2ErrorCode) (k : V2Result B)
    → (c ≡ true → returns k ≡ true)
    → returns (guard c e >> k) ≡ true
returns-guard true e k q = q refl
returns-guard false e k q = refl

pub returns-caught {ℓ} : {A : Type ℓ} (x : V2Result A) → returns (caught x) ≡ true
returns-caught throws = refl
returns-caught (rejects code) = refl
returns-caught (fail code) = refl
returns-caught (ok a) = refl
