-- ===== src/Protocol/Data/Layout.antt =====
-- The buffer of serializeDataFrame (src/core/protocol-v2.ts) is its fields, one after another.
use deqr.Common.{ℕ, ◌+◌, ◌-◌, ◌%◌, ◌≡◌, ap, ◌∙◌, arith, List, ◌∷◌, ◌++◌, length}
use deqr.Protocol.Types.{DeqrV2DataFrame, magic_0, magic_1, protocol_version}
use deqr.Protocol.Buffer.{zeros, be16, be32}
use deqr.Protocol.Buffer.Laws.{zeros-add, write-zeros, write-append, write-nil}
use deqr.Protocol.Crc.Bounds.{checksum, crc32-append}
use deqr.Protocol.Data.{unsealed_data_frame, seal}

abbrev pub header : DeqrV2DataFrame → List ℕ
header frame =
    magic_0
    ∷ magic_1
    ∷ protocol_version
    ∷ (frame.frame_type % 256)
    ∷ (be32 frame.session_id
        ++ (be32 frame.file_id
            ++ (be32 frame.segment_index
                ++ (be32 frame.symbol_id
                    ++ (be32 frame.source_symbol_count
                        ++ (be16 (length frame.payload) ++ be16 frame.frame_flags))))))

abbrev pub body : DeqrV2DataFrame → List ℕ
body frame = header frame ++ frame.payload

zeroed : (n : ℕ) → zeros (32 + n) ≡ zeros 28 ++ zeros (n + 4)
zeroed n = ap zeros (omega arith) ∙ zeros-add 28 (n + 4)

pub unsealed_data_frame-eq :
    (frame : DeqrV2DataFrame) → unsealed_data_frame frame ≡ body frame ++ zeros 4
unfolding unsealed_data_frame
unsealed_data_frame-eq frame =
    rw (zeroed (length frame.payload))
      (ap (λ t. header frame ++ t) (rw write-nil (write-zeros frame.payload 4)))

-- A sealed buffer is its contents, then the CRC of its contents.
pub seal-eq :
    (bytes : List ℕ) (total : ℕ)
    → total ≡ length bytes + 4
    → seal total (bytes ++ zeros 4) ≡ bytes ++ be32 (checksum bytes)
unfolding seal
seal-eq bytes total e =
    let offset : total - 4 ≡ length bytes = omega arith in
    rw (offset, crc32-append bytes (zeros 4)) (write-append bytes (zeros 4) (be32 (checksum bytes)))

-- The frame that serializeDataFrame returns.
pub sealed_data_frame :
    (frame : DeqrV2DataFrame)
    → seal (32 + length frame.payload) (unsealed_data_frame frame)
      ≡ body frame ++ be32 (checksum (body frame))
sealed_data_frame frame =
    rw (unsealed_data_frame-eq frame)
      (seal-eq (body frame) (32 + length frame.payload) (omega arith))
