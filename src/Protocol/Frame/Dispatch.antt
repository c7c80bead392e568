-- ===== src/Protocol/Frame/Dispatch.antt =====
-- Which frames reach which parser (parseFrame and detectProtocolVersion of src/core/protocol-v2.ts).
use deqr.Common.{true, refl, ℕ, ◌≡◌, arith, List, some, ◌==◌}
use deqr.Common.{if_both}
use deqr.Protocol.Types.{
  DeqrV2Frame, V2Result, ok, fail, returns, >>=-eq-ok, returns-bind, v1_frame, manifest_type,
}
use deqr.Protocol.Data.{read_prefix, parse_data_frame}
use deqr.Protocol.Data.Safety.{returns-read_prefix, returns-parse_data_frame, read_prefix-inv}
use deqr.Protocol.Manifest.{parse_manifest_frame}
use deqr.Protocol.Manifest.Safety.{returns-parse_manifest_frame}
use deqr.Protocol.Frame.{detect_protocol_version, parse_frame}

-- No input makes parseFrame throw: neither a DeqrV2Error, which is to be returned, nor any other
-- exception.
pub returns-parse_frame : (b : List ℕ) → returns (parse_frame b) ≡ true
unfolding parse_frame
returns-parse_frame b = returns-bind (read_prefix b) _ (returns-read_prefix b) λ t _.
    if_both {A = V2Result DeqrV2Frame} (λ r. returns r ≡ true) (t == manifest_type)
      (returns-bind (parse_manifest_frame b) _ (returns-parse_manifest_frame b) λ m _. refl)
      (returns-bind (parse_data_frame b) _ (returns-parse_data_frame b) λ f _. refl)

-- What parseFrame accepts is detected as version 2, and what is detected as version 1 is refused as
-- a frame of version 1.
pub detect-parse_frame :
    (b : List ℕ)
    → ((f : DeqrV2Frame) → parse_frame b ≡ ok f → detect_protocol_version b ≡ some 2)
      × (detect_protocol_version b ≡ some 1 → parse_frame b ≡ fail v1_frame)
unfolding parse_frame detect_protocol_version read_prefix
detect-parse_frame b = (
  λ f h.
      let (t, prefix, h1) = >>=-eq-ok (read_prefix b) _ h in
      let p = read_prefix-inv b prefix in ground arith,
  λ h. ground arith,
)
