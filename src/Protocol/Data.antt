-- ===== src/Protocol/Data.antt =====
-- Source and repair frames: serializeDataFrame, readPrefix, checkCrc and parseDataFrame of
-- src/core/protocol-v2.ts. `bytes[i]` behind the end is `undefined`, which is none of the numbers
-- that a prefix is compared with, and is read as 0 here, which is none of them either.
pub mod Layout
pub mod Roundtrip
pub mod Canonical
pub mod Safety
use deqr.Common.{ℕ, ◌+◌, ◌-◌, List, length, get_or, Bool, not, ◌&&◌, ◌||◌, bit_and}
use deqr.Common.{leb, ltb, ◌==◌, if◌then◌else◌}
use deqr.Protocol.Types.{
  DeqrV2DataFrame, V2ErrorCode, V2Result, ok, fail, throws, guard, require, ◌>>=◌, ◌>>◌,
  frame_too_short, trailing_bytes, bad_magic, v1_frame, unsupported_version, unknown_frame_type,
  frame_type_mismatch, crc_mismatch, field_out_of_range, unsupported_critical_feature,
  symbol_out_of_range, magic_0, magic_1, protocol_version, manifest_type, source_type, repair_type,
  flag_critical_mask, max_symbol_size_bytes, max_u32,
}
use deqr.Protocol.Buffer.{zeros, write, set_u8, set_u16, set_u32, get_u16, get_u32, slice}
use deqr.Protocol.Crc.{crc32}

unfoldable pub has_critical : ℕ → Bool
has_critical flags = not (bit_and flags flag_critical_mask == 0)

-- assertU32 and assertFlags
abbrev pub assert_u32 : ℕ → V2Result (Unit {0})
assert_u32 value = require (leb value max_u32) field_out_of_range

abbrev pub assert_flags : ℕ → V2Result (Unit {0})
assert_flags value = require (leb value 0xffff) field_out_of_range

-- The tests of serializeDataFrame.
unfoldable pub check_data_frame : DeqrV2DataFrame → V2Result (Unit {0})
check_data_frame frame = do
  require (frame.frame_type == source_type || frame.frame_type == repair_type) unknown_frame_type
  assert_flags frame.frame_flags
  require (not (has_critical frame.frame_flags)) unsupported_critical_feature
  assert_u32 frame.session_id
  assert_u32 frame.file_id
  assert_u32 frame.segment_index
  assert_u32 frame.symbol_id
  assert_u32 frame.source_symbol_count
  require (leb 1 frame.source_symbol_count) field_out_of_range
  require (not (frame.frame_type == source_type && leb frame.source_symbol_count frame.symbol_id))
      symbol_out_of_range
  require (not (frame.frame_type == repair_type && ltb frame.symbol_id frame.source_symbol_count))
      symbol_out_of_range
  require (leb 1 (length frame.payload) && leb (length frame.payload) max_symbol_size_bytes)
      field_out_of_range

-- The buffer before its CRC is written.
unfoldable pub unsealed_data_frame : DeqrV2DataFrame → List ℕ
unfolding write set_u8 set_u16 set_u32
unsealed_data_frame frame =
    let b = zeros (32 + length frame.payload) in
    let b = set_u8 b 0 magic_0 in
    let b = set_u8 b 1 magic_1 in
    let b = set_u8 b 2 protocol_version in
    let b = set_u8 b 3 frame.frame_type in
    let b = set_u32 b 4 frame.session_id in
    let b = set_u32 b 8 frame.file_id in
    let b = set_u32 b 12 frame.segment_index in
    let b = set_u32 b 16 frame.symbol_id in
    let b = set_u32 b 20 frame.source_symbol_count in
    let b = set_u16 b 24 (length frame.payload) in
    let b = set_u16 b 26 frame.frame_flags in write b 28 frame.payload

-- The CRC of all that stands before the last four bytes goes there.
unfoldable pub seal : ℕ → List ℕ → List ℕ
unfolding write set_u32
seal total bytes = set_u32 bytes (total - 4) (crc32 bytes 0 (total - 4))

unfoldable pub serialize_data_frame : DeqrV2DataFrame → V2Result (List ℕ)
serialize_data_frame frame = do
  check_data_frame frame
  ok (seal (32 + length frame.payload) (unsealed_data_frame frame))

unfoldable pub read_prefix : List ℕ → V2Result ℕ
read_prefix bytes = do
  guard (leb 4 (length bytes)) frame_too_short
  guard (not (get_or bytes 0 0 == 1 && leb 20 (length bytes))) v1_frame
  guard (get_or bytes 0 0 == magic_0 && get_or bytes 1 0 == magic_1) bad_magic
  guard (get_or bytes 2 0 == protocol_version) unsupported_version
  let frame_type = get_or bytes 3 0
  guard (frame_type == manifest_type || frame_type == source_type || frame_type == repair_type)
      unknown_frame_type
  ok frame_type

unfoldable pub check_crc : List ℕ → V2Result (Unit {0})
check_crc bytes = do
  let crc_offset = length bytes - 4
  declared ← get_u32 bytes crc_offset
  guard (declared == crc32 bytes 0 crc_offset) crc_mismatch

-- The fields of a data frame whose lengths and CRC have been checked.
unfoldable pub read_data_frame : List ℕ → ℕ → ℕ → V2Result DeqrV2DataFrame
read_data_frame bytes frame_type payload_length = do
  frame_flags ← get_u16 bytes 26
  guard (not (has_critical frame_flags)) unsupported_critical_feature
  source_symbol_count ← get_u32 bytes 20
  guard (leb 1 source_symbol_count) field_out_of_range
  symbol_id ← get_u32 bytes 16
  guard (not (frame_type == source_type && leb source_symbol_count symbol_id)) symbol_out_of_range
  guard (not (frame_type == repair_type && ltb symbol_id source_symbol_count)) symbol_out_of_range
  session_id ← get_u32 bytes 4
  file_id ← get_u32 bytes 8
  segment_index ← get_u32 bytes 12
  ok (record {
    frame_type = frame_type;
    session_id = session_id;
    file_id = file_id;
    segment_index = segment_index;
    symbol_id = symbol_id;
    source_symbol_count = source_symbol_count;
    frame_flags = frame_flags;
    payload = slice bytes 28 (28 + payload_length);
  })

-- The length tests of parseDataFrame, for the payload length that the frame declares.
unfoldable pub check_data_length : List ℕ → ℕ → V2Result (Unit {0})
check_data_length bytes payload_length = do
  guard (leb 1 payload_length && leb payload_length max_symbol_size_bytes) field_out_of_range
  guard (leb (32 + payload_length) (length bytes)) frame_too_short
  guard (leb (length bytes) (32 + payload_length)) trailing_bytes

unfoldable pub parse_data_frame : List ℕ → V2Result DeqrV2DataFrame
parse_data_frame bytes = do
  frame_type ← read_prefix bytes
  guard (frame_type == source_type || frame_type == repair_type) frame_type_mismatch
  guard (leb 33 (length bytes)) frame_too_short
  payload_length ← get_u16 bytes 24
  check_data_length bytes payload_length
  check_crc bytes
  read_data_frame bytes frame_type payload_length
