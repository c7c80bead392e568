-- ===== src/Protocol/Manifest/Layout.antt =====
-- The buffer of serializeManifestFrame (src/core/protocol-v2.ts) is its fields, one after another.
use deqr.Common.{ℕ, ◌+◌, ◌%◌, ◌≡◌, sym, refl, ap, arith, List, [], ◌∷◌, ◌++◌, length, length-append}
use mathlib.Core.List.{append_assoc}
use deqr.Protocol.Types.{DeqrV2Manifest, magic_0, magic_1, protocol_version, manifest_type}
use deqr.Protocol.Buffer.{zeros, write, be16, be32, be64, set_u16}
use deqr.Protocol.Buffer.Laws.{zeros-add, write-zeros, write-append, write-nil}
use deqr.Protocol.Crc.Bounds.{checksum}
use deqr.Protocol.Data.{seal}
use deqr.Protocol.Data.Layout.{seal-eq}
use deqr.Protocol.Manifest.{write_fields, unsealed_manifest_frame}

abbrev pub fields : DeqrV2Manifest → List ℕ
fields m =
    magic_0
    ∷ magic_1
    ∷ protocol_version
    ∷ manifest_type
    ∷ (be16 m.feature_flags
        ++ (be32 m.session_id
            ++ (be32 m.file_id
                ++ (be64 m.original_size
                    ++ (be64 m.transport_size
                        ++ (be32 m.segment_size_bytes
                            ++ (be16 m.symbol_size_bytes
                                ++ (be32 m.segment_count
                                    ++ ((m.fec_profile_id % 256)
                                        ∷ (m.compression_mode % 256)
                                        ∷ (m.compression_param % 256)
                                        ∷ (m.transport_profile_id % 256)
                                        ∷ [])))))))))

write_fields-zeros :
    (m : DeqrV2Manifest) (n : ℕ) → write_fields m (zeros (44 + n)) ≡ fields m ++ zeros n
unfolding write_fields
write_fields-zeros m n = rw (zeros-add 44 n) (ap (λ t. fields m ++ t) (write-nil (zeros n)))

-- The next field of a buffer that is filled from left to right.
write_next :
    (xs ys : List ℕ) (offset k : ℕ)
    → offset ≡ length xs
    → write (xs ++ zeros (length ys + k)) offset ys ≡ (xs ++ ys) ++ zeros k
write_next xs ys offset k h =
    rw (h, write-append xs (zeros (length ys + k)) ys, write-zeros ys k)
      (sym (append_assoc xs ys (zeros k)))

-- Five fields behind one that has been written.
module _ (f1 f2 f3 f4 f5 f6 : List ℕ) (o2 o3 o4 o5 o6 : ℕ) where
  five_fields :
      o2 ≡ length f1
      → o3 ≡ o2 + length f2
      → o4 ≡ o3 + length f3
      → o5 ≡ o4 + length f4
      → o6 ≡ o5 + length f5
      → write
          (write
            (write
              (write
                (write
                  (f1
                    ++ zeros
                        (length f2 + (length f3 + (length f4 + (length f5 + (length f6 + 4))))))
                  o2
                  f2)
                o3
                f3)
              o4
              f4)
            o5
            f5)
          o6
          f6
        ≡ (((((f1 ++ f2) ++ f3) ++ f4) ++ f5) ++ f6) ++ zeros 4
  five_fields h2 h3 h4 h5 h6 =
      let n2 = length-append f1 f2 in
      let n3 = length-append (f1 ++ f2) f3 in
      let n4 = length-append ((f1 ++ f2) ++ f3) f4 in
      let n5 = length-append (((f1 ++ f2) ++ f3) ++ f4) f5 in
      rw
        (
          write_next f1 f2 o2 (length f3 + (length f4 + (length f5 + (length f6 + 4)))) h2,
          write_next (f1 ++ f2) f3 o3 (length f4 + (length f5 + (length f6 + 4))) (omega arith),
          write_next ((f1 ++ f2) ++ f3) f4 o4 (length f5 + (length f6 + 4)) (omega arith),
          write_next (((f1 ++ f2) ++ f3) ++ f4) f5 o5 (length f6 + 4) (omega arith),
          write_next ((((f1 ++ f2) ++ f3) ++ f4) ++ f5) f6 o6 4 (omega arith),
        )
        refl

-- All but the CRC, for the two encoded texts.
abbrev pub manifest_body : DeqrV2Manifest → List ℕ → List ℕ → List ℕ
manifest_body m name mime =
    ((((fields m ++ m.sha256) ++ be16 (length name)) ++ name) ++ be16 (length mime)) ++ mime

pub length-manifest_body :
    (m : DeqrV2Manifest) (name mime : List ℕ)
    → length (manifest_body m name mime) ≡ 48 + length m.sha256 + length name + length mime
length-manifest_body m name mime =
    let s1 = m.sha256 in
    let s2 = m.sha256 ++ be16 (length name) in
    let s3 = s2 ++ name in
    let s4 = s3 ++ be16 (length mime) in
    omega (
      arith,
      length-append s1 (be16 (length name)),
      length-append s2 name,
      length-append s3 (be16 (length mime)),
      length-append s4 mime,
    )

unsealed_manifest_frame-eq :
    (m : DeqrV2Manifest) (name mime : List ℕ)
    → length m.sha256 ≡ 32
    → unsealed_manifest_frame m name mime ≡ manifest_body m name mime ++ zeros 4
unfolding unsealed_manifest_frame set_u16
unsealed_manifest_frame-eq m name mime h =
    let total : 84 + length name + length mime
        ≡ 44 + (length m.sha256 + (2 + (length name + (2 + (length mime + 4))))) =
      omega arith in
    rw
      (
        total,
        write_fields-zeros m (length m.sha256 + (2 + (length name + (2 + (length mime + 4))))),
      )
      (five_fields (fields m) m.sha256 (be16 (length name)) name (be16 (length mime)) mime 44 76 78
        (78 + length name) (78 + length name + 2) refl (omega arith) refl refl refl)

-- The frame that serializeManifestFrame returns.
pub sealed_manifest_frame :
    (m : DeqrV2Manifest) (name mime : List ℕ)
    → length m.sha256 ≡ 32
    → seal (84 + length name + length mime) (unsealed_manifest_frame m name mime)
      ≡ manifest_body m name mime ++ be32 (checksum (manifest_body m name mime))
sealed_manifest_frame m name mime h = rw (unsealed_manifest_frame-eq m name mime h) (
    seal-eq (manifest_body m name mime) (84 + length name + length mime)
      (omega (arith, h, length-manifest_body m name mime)))
