-- ===== src/Protocol/Manifest.antt =====
-- Manifest frames: serializeManifestFrame and parseManifestFrame of src/core/protocol-v2.ts.
pub mod Fields
pub mod Reads
pub mod Valid
pub mod Layout
pub mod Roundtrip
pub mod Safety
use deqr.Common.{ℕ, ◌+◌, List, [], ◌∷◌, length, get_or, Option, none, some, Bool, not, ◌&&◌}
use deqr.Common.{leb, ◌==◌}
use deqr.Filename.{sanitize_filename}
use deqr.Protocol.Types.{
  DeqrV2Manifest, V2ErrorCode, V2Result, ok, fail, throws, rejects, guard, require, caught, ◌>>=◌,
  ◌>>◌, frame_too_short, trailing_bytes, frame_type_mismatch, field_out_of_range,
  unsupported_critical_feature, unsupported_fec_profile, inconsistent_manifest, invalid_filename,
  magic_0, magic_1, protocol_version, manifest_type, lt_systematic_robust_soliton_v1,
  min_filename_bytes, max_filename_bytes, max_mime_bytes, max_file_bytes,
}
use deqr.Protocol.Buffer.{
  zeros, write, set_u8, set_u16, set_u32, set_u64, get_u16, get_u32, get_u64, slice,
}
use deqr.Protocol.Plan.{plan_segmentation}
use deqr.Protocol.Window.{compression_inconsistency}
use deqr.Protocol.Data.{has_critical, assert_u32, assert_flags, seal, read_prefix, check_crc}
use deqr.Protocol.Utf8.{encode_utf8, decode_utf8}

-- if (compression) reject(compression.code)
abbrev pub reject_if : Option V2ErrorCode → V2Result (Unit {0})
reject_if none = ok tt
reject_if (some code) = rejects code

-- if (compression) return fail(compression.code)
abbrev pub fail_if : Option V2ErrorCode → V2Result (Unit {0})
fail_if none = ok tt
fail_if (some code) = fail code

-- The tests of serializeManifestFrame on the numbers of a manifest.
unfoldable pub check_manifest : DeqrV2Manifest → V2Result (Unit {0})
check_manifest manifest = do
  assert_flags manifest.feature_flags
  require (not (has_critical manifest.feature_flags)) unsupported_critical_feature
  assert_u32 manifest.session_id
  assert_u32 manifest.file_id
  require (length manifest.sha256 == 32) field_out_of_range
  require (leb 1 manifest.original_size && leb manifest.original_size max_file_bytes)
      field_out_of_range
  reject_if (
      compression_inconsistency manifest.compression_mode manifest.compression_param
        manifest.original_size manifest.transport_size)
  require (manifest.fec_profile_id == lt_systematic_robust_soliton_v1) unsupported_fec_profile
  plan ←
      plan_segmentation manifest.transport_size manifest.segment_size_bytes
        manifest.symbol_size_bytes
  require (manifest.segment_count == plan.segment_count) inconsistent_manifest

-- The tests on the two texts, and assertU8 on the transport profile, which comes behind them.
unfoldable pub check_texts : DeqrV2Manifest → List ℕ → List ℕ → V2Result (Unit {0})
check_texts manifest filename_bytes mime_bytes = do
  require
      (leb min_filename_bytes (length filename_bytes)
        && leb (length filename_bytes) max_filename_bytes)
      invalid_filename
  require (leb (length mime_bytes) max_mime_bytes) field_out_of_range
  require (leb manifest.transport_profile_id 0xff) field_out_of_range

-- The fixed fields in front of the digest.
unfoldable pub write_fields : DeqrV2Manifest → List ℕ → List ℕ
unfolding write set_u8 set_u16 set_u32 set_u64
write_fields manifest b =
    let b = set_u8 b 0 magic_0 in
    let b = set_u8 b 1 magic_1 in
    let b = set_u8 b 2 protocol_version in
    let b = set_u8 b 3 manifest_type in
    let b = set_u16 b 4 manifest.feature_flags in
    let b = set_u32 b 6 manifest.session_id in
    let b = set_u32 b 10 manifest.file_id in
    let b = set_u64 b 14 manifest.original_size in
    let b = set_u64 b 22 manifest.transport_size in
    let b = set_u32 b 30 manifest.segment_size_bytes in
    let b = set_u16 b 34 manifest.symbol_size_bytes in
    let b = set_u32 b 36 manifest.segment_count in
    let b = set_u8 b 40 manifest.fec_profile_id in
    let b = set_u8 b 41 manifest.compression_mode in
    let b = set_u8 b 42 manifest.compression_param in set_u8 b 43 manifest.transport_profile_id

-- The buffer before its CRC is written.
unfoldable pub unsealed_manifest_frame : DeqrV2Manifest → List ℕ → List ℕ → List ℕ
unfolding write set_u16 write_fields
unsealed_manifest_frame manifest filename_bytes mime_bytes =
    let mime_length_offset = 78 + length filename_bytes in
    let b = zeros (84 + length filename_bytes + length mime_bytes) in
    let b = write_fields manifest b in
    let b = write b 44 manifest.sha256 in
    let b = set_u16 b 76 (length filename_bytes) in
    let b = write b 78 filename_bytes in
    let b = set_u16 b mime_length_offset (length mime_bytes) in
    write b (mime_length_offset + 2) mime_bytes

unfoldable pub serialize_manifest_frame : DeqrV2Manifest → V2Result (List ℕ)
serialize_manifest_frame manifest = do
  check_manifest manifest
  let filename_bytes = encode_utf8 (sanitize_filename manifest.filename)
  let mime_bytes = encode_utf8 manifest.mime_type
  check_texts manifest filename_bytes mime_bytes
  ok (
      seal (84 + length filename_bytes + length mime_bytes)
        (unsealed_manifest_frame manifest filename_bytes mime_bytes))

-- The two texts of a manifest frame whose lengths and CRC have been checked.
unfoldable pub read_filename : List ℕ → ℕ → V2Result (List ℕ)
read_filename bytes filename_length = do
  filename_text ← decode_utf8 (slice bytes 78 (78 + filename_length))
  let filename = sanitize_filename filename_text
  guard (leb 1 (length filename)) invalid_filename
  ok filename

unfoldable pub read_mime : List ℕ → ℕ → ℕ → V2Result (List ℕ)
read_mime bytes filename_length mime_length =
    let mime_start = 78 + filename_length + 2 in
    decode_utf8 (slice bytes mime_start (mime_start + mime_length))

-- What parseManifestFrame does once the numbers have passed their tests: the texts are read, and
-- the manifest is put together.
unfoldable pub read_texts : List ℕ → ℕ → ℕ → (ℕ × ℕ × ℕ) → (ℕ × ℕ × ℕ) → V2Result DeqrV2Manifest
read_texts bytes filename_length mime_length (feature_flags, original_size, transport_size)
      (segment_size_bytes, symbol_size_bytes, segment_count) =
    do
      filename ← read_filename bytes filename_length
      mime_type ← read_mime bytes filename_length mime_length
      session_id ← get_u32 bytes 6
      file_id ← get_u32 bytes 10
      ok (record {
        feature_flags = feature_flags;
        session_id = session_id;
        file_id = file_id;
        original_size = original_size;
        transport_size = transport_size;
        segment_size_bytes = segment_size_bytes;
        symbol_size_bytes = symbol_size_bytes;
        segment_count = segment_count;
        fec_profile_id = get_or bytes 40 0;
        compression_mode = get_or bytes 41 0;
        compression_param = get_or bytes 42 0;
        transport_profile_id = get_or bytes 43 0;
        sha256 = slice bytes 44 76;
        filename = filename;
        mime_type = mime_type;
      })

-- The fields of a manifest frame whose lengths and CRC have been checked.
unfoldable pub read_manifest : List ℕ → ℕ → ℕ → V2Result DeqrV2Manifest
read_manifest bytes filename_length mime_length = do
  feature_flags ← get_u16 bytes 4
  guard (not (has_critical feature_flags)) unsupported_critical_feature
  original_size ← get_u64 bytes 14
  transport_size ← get_u64 bytes 22
  guard (leb 1 original_size) field_out_of_range
  guard (leb 1 transport_size) field_out_of_range
  fail_if (
      compression_inconsistency (get_or bytes 41 0) (get_or bytes 42 0) original_size
        transport_size)
  guard (get_or bytes 40 0 == lt_systematic_robust_soliton_v1) unsupported_fec_profile
  segment_size_bytes ← get_u32 bytes 30
  symbol_size_bytes ← get_u16 bytes 34
  segment_count ← get_u32 bytes 36
  plan ← caught (plan_segmentation transport_size segment_size_bytes symbol_size_bytes)
  guard (plan.segment_count == segment_count) inconsistent_manifest
  read_texts bytes filename_length mime_length (feature_flags, original_size, transport_size)
      (segment_size_bytes, symbol_size_bytes, segment_count)

-- The length tests of parseManifestFrame, for the text lengths that the frame declares.
unfoldable pub check_manifest_length : List ℕ → ℕ → ℕ → V2Result (Unit {0})
check_manifest_length bytes filename_length mime_length = do
  guard (leb mime_length max_mime_bytes) field_out_of_range
  let expected_length = 84 + filename_length + mime_length
  guard (leb expected_length (length bytes)) frame_too_short
  guard (leb (length bytes) expected_length) trailing_bytes

unfoldable pub parse_manifest_frame : List ℕ → V2Result DeqrV2Manifest
parse_manifest_frame bytes = do
  frame_type ← read_prefix bytes
  guard (frame_type == manifest_type) frame_type_mismatch
  guard (leb 85 (length bytes)) frame_too_short
  filename_length ← get_u16 bytes 76
  guard (leb min_filename_bytes filename_length && leb filename_length max_filename_bytes)
      field_out_of_range
  guard (leb (78 + filename_length + 6) (length bytes)) frame_too_short
  mime_length ← get_u16 bytes (78 + filename_length)
  check_manifest_length bytes filename_length mime_length
  check_crc bytes
  read_manifest bytes filename_length mime_length
