-- ===== src/Protocol/Manifest/Valid.antt =====
-- The manifests that serializeManifestFrame of src/core/protocol-v2.ts accepts.
use deqr.Common.{◌^◌, ◌≤◌, ◌<◌, ◌≡◌, refl, arith, false, none, some, Option}
use deqr.Common.{length, not, leb, ◌==◌, ◌&&◌}
use deqr.Protocol.Types.{
  DeqrV2Manifest, V2ErrorCode, ok, >>=-eq-ok, require-eq-ok, max_u32, max_file_bytes,
}
use deqr.Protocol.Plan.{SegmentPlan, plan_segmentation}
use deqr.Protocol.Plan.Shape.{plan_segmentation-IsPlan}
use deqr.Protocol.Window.{compression_inconsistency}
use deqr.Protocol.Window.Laws.{compression_inconsistency_iff}
use deqr.Protocol.Data.{has_critical}
use deqr.Protocol.Manifest.{reject_if, check_manifest}

-- What serializeManifestFrame accepts, for the two encoded texts.
pub record IsManifest (m : DeqrV2Manifest) : Type 0 where
  pub flags_fit : m.feature_flags ≤ 0xffff
  pub no_critical : has_critical m.feature_flags ≡ false
  pub session_fits : m.session_id ≤ max_u32
  pub file_fits : m.file_id ≤ max_u32
  pub digest_size : length m.sha256 ≡ 32
  pub original_pos : 1 ≤ m.original_size
  pub original_le : m.original_size ≤ max_file_bytes
  pub consistent :
      compression_inconsistency m.compression_mode m.compression_param m.original_size
        m.transport_size
      ≡ none
  pub fec_known : m.fec_profile_id ≡ 1
  pub plan : SegmentPlan
  pub planned :
      plan_segmentation m.transport_size m.segment_size_bytes m.symbol_size_bytes ≡ ok plan
  pub counted : m.segment_count ≡ plan.segment_count

reject_if-ok : (o : Option V2ErrorCode) → reject_if o ≡ ok tt → o ≡ none
reject_if-ok none h = refl
reject_if-ok (some e) h = cc

pub check_manifest-inv : (m : DeqrV2Manifest) → check_manifest m ≡ ok tt → IsManifest m
unfolding check_manifest
check_manifest-inv m h =
    let (flags, h1) = require-eq-ok (leb m.feature_flags 0xffff) _ _ h in
    let (critical, h2) = require-eq-ok (not (has_critical m.feature_flags)) _ _ h1 in
    let (session, h3) = require-eq-ok (leb m.session_id max_u32) _ _ h2 in
    let (file, h4) = require-eq-ok (leb m.file_id max_u32) _ _ h3 in
    let (digest, h5) = require-eq-ok (length m.sha256 == 32) _ _ h4 in
    let (original, h6) =
      require-eq-ok (leb 1 m.original_size && leb m.original_size max_file_bytes) _ _ h5 in
    let (u, compression, h7) =
      >>=-eq-ok
        (reject_if (
          compression_inconsistency m.compression_mode m.compression_param m.original_size
            m.transport_size))
        _ h6 in
    let (fec, h8) = require-eq-ok (m.fec_profile_id == 1) _ _ h7 in
    let (p, planned, h9) =
      >>=-eq-ok (plan_segmentation m.transport_size m.segment_size_bytes m.symbol_size_bytes) _
        h8 in
    record {
      flags_fit = ground arith;
      no_critical = ground arith;
      session_fits = ground arith;
      file_fits = ground arith;
      digest_size = ground arith;
      original_pos = ground arith;
      original_le = ground arith;
      consistent = reject_if-ok _ compression;
      fec_known = ground arith;
      plan = p;
      planned = planned;
      counted = ground arith;
    }

-- The widths of the fields of an accepted manifest.
pub record IsSized (m : DeqrV2Manifest) : Type 0 where
  pub transport_size : m.transport_size < 2 ^ 64
  pub segment_size : m.segment_size_bytes < 2 ^ 32
  pub symbol_size : m.symbol_size_bytes < 2 ^ 16
  pub segment_count : m.segment_count < 2 ^ 32
  pub mode : m.compression_mode < 256
  pub param : m.compression_param < 256
  pub transport_pos : 1 ≤ m.transport_size

pub IsManifest-IsSized : (m : DeqrV2Manifest) → IsManifest m → IsSized m
IsManifest-IsSized m v =
    let (shape, t, s, y) =
      plan_segmentation-IsPlan m.transport_size m.segment_size_bytes m.symbol_size_bytes
        v.planned in
    let either =
      (compression_inconsistency_iff m.compression_mode m.compression_param m.original_size
          m.transport_size).0
        v.consistent in
    record {
      transport_size = omega (arith, shape.accepted.stream_le);
      segment_size = omega (arith, shape.accepted.segment_le);
      symbol_size = omega (arith, shape.accepted.symbol_le);
      segment_count = omega (arith, shape.count_le, v.counted);
      mode = ground arith;
      param = ground arith;
      transport_pos = omega (arith, shape.accepted.stream_pos);
    }
