-- ===== src/Protocol/Data/Roundtrip.antt =====
-- A serialized data frame parses back to itself (src/core/protocol-v2.ts).
use deqr.Common.{ℕ, ◌+◌, ◌-◌, ◌≤◌, ◌<◌, ◌≡◌, ◌⊎◌, refl, arith}
use deqr.Common.{false, List, ◌++◌, length, length-append, take-append, drop-append}
use deqr.Protocol.Types.{
  DeqrV2DataFrame, ok, >>=-eq-ok, source_type, repair_type, max_u32, max_symbol_size_bytes,
}
use deqr.Protocol.Buffer.{be32, get_uint, get_u16}
use deqr.Protocol.Buffer.Laws.{be_value-be16, be_value-be32}
use deqr.Protocol.Crc.Bounds.{checksum, crc32-append}
use deqr.Protocol.Data.{
  check_data_frame, check_data_length, has_critical, serialize_data_frame, read_prefix, check_crc,
  read_data_frame, parse_data_frame,
}
use deqr.Protocol.Data.Layout.{body, sealed_data_frame}

-- Any contents with their checksum behind them pass the CRC test.
pub check_crc-sealed : (xs : List ℕ) → check_crc (xs ++ be32 (checksum xs)) ≡ ok tt
unfolding check_crc get_uint
check_crc-sealed xs =
    let offset : length (xs ++ be32 (checksum xs)) - 4 ≡ length xs =
      omega (arith, length-append xs (be32 (checksum xs))) in
    rw offset (
      ground (
        arith,
        length-append xs (be32 (checksum xs)),
        drop-append xs (be32 (checksum xs)),
        crc32-append xs (be32 (checksum xs)),
        be_value-be32 (checksum xs) (omega arith),
      ))

-- What serializeDataFrame accepts.
pub record IsDataFrame (f : DeqrV2DataFrame) : Type 0 where
  pub kind : (f.frame_type ≡ source_type) ⊎ (f.frame_type ≡ repair_type)
  pub flags_fit : f.frame_flags ≤ 0xffff
  pub no_critical : has_critical f.frame_flags ≡ false
  pub session_fits : f.session_id ≤ max_u32
  pub file_fits : f.file_id ≤ max_u32
  pub segment_fits : f.segment_index ≤ max_u32
  pub symbol_fits : f.symbol_id ≤ max_u32
  pub count_fits : f.source_symbol_count ≤ max_u32
  pub count_pos : 1 ≤ f.source_symbol_count
  pub source_below : f.frame_type ≡ source_type → f.symbol_id < f.source_symbol_count
  pub repair_above : f.frame_type ≡ repair_type → f.source_symbol_count ≤ f.symbol_id
  pub payload_pos : 1 ≤ length f.payload
  pub payload_le : length f.payload ≤ max_symbol_size_bytes

check_data_frame-inv : (f : DeqrV2DataFrame) → check_data_frame f ≡ ok tt → IsDataFrame f
unfolding check_data_frame
check_data_frame-inv f h = record {
  kind = ground arith;
  flags_fit = ground arith;
  no_critical = ground arith;
  session_fits = ground arith;
  file_fits = ground arith;
  segment_fits = ground arith;
  symbol_fits = ground arith;
  count_fits = ground arith;
  count_pos = ground arith;
  source_below = λ e. ground arith;
  repair_above = λ e. ground arith;
  payload_pos = ground arith;
  payload_le = ground arith;
}

IsDataFrame-check : (f : DeqrV2DataFrame) → IsDataFrame f → check_data_frame f ≡ ok tt
unfolding check_data_frame
IsDataFrame-check f v = ground arith

module _ (f : DeqrV2DataFrame) (valid : IsDataFrame f) (tail : List ℕ) where
  read_prefix-body : read_prefix (body f ++ tail) ≡ ok f.frame_type
  unfolding read_prefix
  read_prefix-body = ground arith

  read_data_frame-body : read_data_frame (body f ++ tail) f.frame_type (length f.payload) ≡ ok f
  unfolding read_data_frame get_uint
  read_data_frame-body =
      ground (arith, be_value-be32 f.session_id (omega (arith, valid)), take-append f.payload tail)

  length_fields-body :
      (length (body f ++ tail) ≡ 28 + length f.payload + length tail)
      × (get_u16 (body f ++ tail) 24 ≡ ok (length f.payload))
  unfolding get_uint
  length_fields-body =
      let size : length (body f ++ tail) ≡ 28 + length f.payload + length tail =
        omega (arith, length-append f.payload tail) in
      (size, ground (arith, be_value-be16 (length f.payload) (omega (arith, valid))))

pub serialize_data_frame-inv :
    (f : DeqrV2DataFrame) {bytes : List ℕ}
    → serialize_data_frame f ≡ ok bytes
    → IsDataFrame f × (bytes ≡ body f ++ be32 (checksum (body f)))
unfolding serialize_data_frame
serialize_data_frame-inv f h =
    let (u, checked, built) = >>=-eq-ok (check_data_frame f) _ h in
    (check_data_frame-inv f checked, cc (sealed_data_frame f))

-- The frame that serializeDataFrame returns exists for every valid frame.
pub serialize_data_frame-valid :
    (f : DeqrV2DataFrame)
    → IsDataFrame f
    → serialize_data_frame f ≡ ok (body f ++ be32 (checksum (body f)))
unfolding serialize_data_frame
serialize_data_frame-valid f v = rw (IsDataFrame-check f v, sealed_data_frame f) refl

parse-body :
    (f : DeqrV2DataFrame)
    → IsDataFrame f
    → parse_data_frame (body f ++ be32 (checksum (body f))) ≡ ok f
unfolding parse_data_frame check_data_length
parse-body f v =
    let tail = be32 (checksum (body f)) in
    let (size, declared) = length_fields-body f v tail in
    ground (
      arith,
      size,
      declared,
      read_prefix-body f v tail,
      read_data_frame-body f v tail,
      check_crc-sealed (body f),
    )

-- Every frame that serializeDataFrame writes is parsed back by parseDataFrame, field by field.
pub parse-serialize_data_frame :
    (f : DeqrV2DataFrame) {bytes : List ℕ}
    → serialize_data_frame f ≡ ok bytes
    → parse_data_frame bytes ≡ ok f
parse-serialize_data_frame f h = let (v, e) = serialize_data_frame-inv f h in rw e (parse-body f v)
