-- ===== src/Protocol/Manifest/Reads.antt =====
-- What the reads of parseManifestFrame give on a frame that serializeManifestFrame wrote
-- (src/core/protocol-v2.ts).
use deqr.Common.{ℕ, ◌+◌, ◌^◌, ◌≤◌, ◌<◌, ◌≡◌, refl, ap, ◌∙◌, arith}
use deqr.Common.{List, ◌++◌, length, take, drop, get_or, length-append}
use deqr.Protocol.Types.{DeqrV2Manifest, ok, manifest_type}
use deqr.Protocol.Buffer.{be16, be_value, get_u16, get_u32, get_u64, slice}
use deqr.Protocol.Buffer.Laws.{be_value-be16, be_value-be32, be_value-be64, get_uint-eq}
use deqr.Protocol.Data.{read_prefix}
use deqr.Protocol.Manifest.Fields.{field_2, field_3, field_4, field_5, field_6}
use deqr.Protocol.Manifest.Valid.{IsManifest, IsManifest-IsSized}
use deqr.Protocol.Manifest.Layout.{fields, manifest_body, length-manifest_body}

-- The frame of a valid manifest, and the reads of its fields.
module _ (m : DeqrV2Manifest) (name mime tail : List ℕ) (valid : IsManifest m) where
  abbrev pub frame : List ℕ
  frame = manifest_body m name mime ++ tail

  pub read_prefix-frame : read_prefix frame ≡ ok manifest_type
  unfolding read_prefix
  read_prefix-frame = ground arith

  pub length-frame : length frame ≡ 80 + length name + length mime + length tail
  length-frame = omega (
    arith,
    valid.digest_size,
    length-manifest_body m name mime,
    length-append (manifest_body m name mime) tail,
  )

  pub numbers_read :
      (get_u16 frame 4 ≡ ok m.feature_flags)
      × (get_u32 frame 6 ≡ ok m.session_id)
      × (get_u32 frame 10 ≡ ok m.file_id)
      × (get_u64 frame 14 ≡ ok m.original_size)
      × (get_u64 frame 22 ≡ ok m.transport_size)
      × (get_u32 frame 30 ≡ ok m.segment_size_bytes)
      × (get_u16 frame 34 ≡ ok m.symbol_size_bytes)
      × (get_u32 frame 36 ≡ ok m.segment_count)
  numbers_read =
      let sized = IsManifest-IsSized m valid in
      let size = length-frame in
      (
        get_uint-eq 2 frame 4 (omega arith)
            ∙ ap ok (be_value-be16 m.feature_flags (omega (arith, valid.flags_fit))),
        get_uint-eq 4 frame 6 (omega arith)
            ∙ ap ok (be_value-be32 m.session_id (omega (arith, valid.session_fits))),
        get_uint-eq 4 frame 10 (omega arith)
            ∙ ap ok (be_value-be32 m.file_id (omega (arith, valid.file_fits))),
        get_uint-eq 8 frame 14 (omega arith)
            ∙ ap ok (be_value-be64 m.original_size (omega (arith, valid.original_le))),
        get_uint-eq 8 frame 22 (omega arith)
            ∙ ap ok (be_value-be64 m.transport_size sized.transport_size),
        get_uint-eq 4 frame 30 (omega arith)
            ∙ ap ok (be_value-be32 m.segment_size_bytes sized.segment_size),
        get_uint-eq 2 frame 34 (omega arith)
            ∙ ap ok (be_value-be16 m.symbol_size_bytes sized.symbol_size),
        get_uint-eq 4 frame 36 (omega arith)
            ∙ ap ok (be_value-be32 m.segment_count sized.segment_count),
      )

  pub bytes_read :
      m.transport_profile_id ≤ 255
      → (get_or frame 40 0 ≡ m.fec_profile_id)
        × (get_or frame 41 0 ≡ m.compression_mode)
        × (get_or frame 42 0 ≡ m.compression_param)
        × (get_or frame 43 0 ≡ m.transport_profile_id)
  bytes_read profile =
      let sized = IsManifest-IsSized m valid in
      (
        omega (arith, valid.fec_known),
        omega (arith, sized.mode),
        omega (arith, sized.param),
        omega arith,
      )

  pub lengths_read :
      length name < 2 ^ 16
      → length mime < 2 ^ 16
      → (get_u16 frame 76 ≡ ok (length name))
        × (get_u16 frame (78 + length name) ≡ ok (length mime))
  lengths_read n k =
      let size = length-frame in
      (
        get_uint-eq 2 frame 76 (omega arith)
            ∙ ap (λ x. ok (be_value 0 x))
                (field_3 (fields m) m.sha256 (be16 (length name)) name (be16 (length mime)) mime
                  tail 2 76 (omega (arith, valid.digest_size)) refl)
            ∙ ap ok (be_value-be16 (length name) n),
        get_uint-eq 2 frame (78 + length name) (omega arith)
            ∙ ap (λ x. ok (be_value 0 x))
                (field_5 (fields m) m.sha256 (be16 (length name)) name (be16 (length mime)) mime
                  tail 2 (78 + length name) (omega (arith, valid.digest_size)) refl)
            ∙ ap ok (be_value-be16 (length mime) k),
      )

  pub digest_read : slice frame 44 76 ≡ m.sha256
  digest_read =
      field_2 (fields m) m.sha256 (be16 (length name)) name (be16 (length mime)) mime tail 32 44
        refl valid.digest_size

  pub name_read : slice frame 78 (78 + length name) ≡ name
  name_read =
      ap (λ n. take n (drop 78 frame)) (omega arith)
      ∙ field_4 (fields m) m.sha256 (be16 (length name)) name (be16 (length mime)) mime tail
          (length name) 78 (omega (arith, valid.digest_size)) refl

  pub mime_read : slice frame (78 + length name + 2) (78 + length name + 2 + length mime) ≡ mime
  mime_read =
      ap (λ n. take n (drop (78 + length name + 2) frame)) (omega arith)
      ∙ field_6 (fields m) m.sha256 (be16 (length name)) name (be16 (length mime)) mime tail
          (length mime) (78 + length name + 2) (omega (arith, valid.digest_size)) refl
