-- ===== src/Protocol/Manifest/Roundtrip.antt =====
-- A serialized manifest parses back to itself, its file name sanitized by either side
-- (src/core/protocol-v2.ts).
use deqr.Common.{ℕ, ◌+◌, ◌≤◌, ◌≡◌, refl, arith}
use deqr.Common.{List, ◌++◌, length, get_or, le→leb, ==_refl}
use deqr.Filename.{sanitize_filename}
use deqr.Filename.Safety.{sanitize_filename-Fits}
use deqr.Protocol.Types.{DeqrV2Manifest, ok, >>=-eq-ok, manifest_type}
use deqr.Protocol.Buffer.{be32, get_u16, get_u32, get_u64, slice}
use deqr.Protocol.Crc.Bounds.{checksum}
use deqr.Protocol.Utf8.{encode_utf8, decode_utf8}
use deqr.Protocol.Utf8.Roundtrip.{IsPlainText, decode-encode_utf8}
use deqr.Protocol.Data.{check_crc, read_prefix}
use deqr.Protocol.Data.Roundtrip.{check_crc-sealed}
use deqr.Protocol.Manifest.{
  check_manifest, check_texts, serialize_manifest_frame, read_filename, read_mime, read_texts,
  read_manifest, check_manifest_length, parse_manifest_frame,
}
use deqr.Protocol.Manifest.Valid.{IsManifest, check_manifest-inv, IsManifest-IsSized}
use deqr.Protocol.Manifest.Layout.{manifest_body, sealed_manifest_frame}
use deqr.Protocol.Manifest.Reads.{
  frame, read_prefix-frame, length-frame, numbers_read, bytes_read, lengths_read, digest_read,
  name_read, mime_read,
}

-- The manifest as the receiver gets it: the file name has been sanitized by the sender and by the
-- receiver.
abbrev pub received : DeqrV2Manifest → DeqrV2Manifest
received m = record m { filename = sanitize_filename (sanitize_filename m.filename) }

-- The texts of a manifest, and what they are encoded as.
pub record HasTexts (m : DeqrV2Manifest) (name mime : List ℕ) : Type 0 where
  pub name_plain : decode_utf8 name ≡ ok (sanitize_filename m.filename)
  pub mime_plain : decode_utf8 mime ≡ ok m.mime_type
  pub name_pos : 1 ≤ length name
  pub name_le : length name ≤ 1024
  pub mime_le : length mime ≤ 255
  pub profile : m.transport_profile_id ≤ 255

-- A buffer whose fields read as those of a manifest.
record IsReadAs (m : DeqrV2Manifest) (b : List ℕ) (n k : ℕ) : Type 0 where
  flags : get_u16 b 4 ≡ ok m.feature_flags
  session : get_u32 b 6 ≡ ok m.session_id
  file : get_u32 b 10 ≡ ok m.file_id
  original : get_u64 b 14 ≡ ok m.original_size
  transport : get_u64 b 22 ≡ ok m.transport_size
  segment_size : get_u32 b 30 ≡ ok m.segment_size_bytes
  symbol_size : get_u16 b 34 ≡ ok m.symbol_size_bytes
  segment_count : get_u32 b 36 ≡ ok m.segment_count
  fec : get_or b 40 0 ≡ m.fec_profile_id
  mode : get_or b 41 0 ≡ m.compression_mode
  param : get_or b 42 0 ≡ m.compression_param
  profile : get_or b 43 0 ≡ m.transport_profile_id
  digest : slice b 44 76 ≡ m.sha256
  filename : read_filename b n ≡ ok (sanitize_filename (sanitize_filename m.filename))
  mime : read_mime b n k ≡ ok m.mime_type

read_manifest-IsReadAs :
    (m : DeqrV2Manifest) (b : List ℕ) (n k : ℕ)
    → IsManifest m
    → IsReadAs m b n k
    → read_manifest b n k ≡ ok (received m)
unfolding read_manifest read_texts
read_manifest-IsReadAs m b n k v r =
    let transport_pos = (IsManifest-IsSized m v).transport_pos in
    rw
      (
        r.flags,
        v.no_critical,
        r.original,
        r.transport,
        le→leb 1 m.original_size v.original_pos,
        le→leb 1 m.transport_size transport_pos,
        r.mode,
        r.param,
        v.consistent,
        r.fec,
        v.fec_known,
        r.segment_size,
        r.symbol_size,
        r.segment_count,
        v.planned,
        v.counted,
        ==_refl v.plan.segment_count,
        r.filename,
        r.mime,
        r.session,
        r.file,
        r.profile,
        r.digest,
      )
      refl

parse-IsReadAs :
    (m : DeqrV2Manifest) (b : List ℕ) (n k : ℕ)
    → IsManifest m
    → read_prefix b ≡ ok manifest_type
    → length b ≡ 84 + n + k
    → (1 ≤ n) × (n ≤ 1024) × (k ≤ 255)
    → get_u16 b 76 ≡ ok n
    → get_u16 b (78 + n) ≡ ok k
    → check_crc b ≡ ok tt
    → IsReadAs m b n k
    → parse_manifest_frame b ≡ ok (received m)
unfolding parse_manifest_frame check_manifest_length
parse-IsReadAs m b n k v prefix size (pos, small, short) named mimed crc r =
    rw
      (
        prefix,
        le→leb 85 (length b) (omega arith),
        named,
        le→leb 1 n pos,
        le→leb n 1024 small,
        le→leb (78 + n + 6) (length b) (omega arith),
        mimed,
        le→leb k 255 short,
        le→leb (84 + n + k) (length b) (omega arith),
        le→leb (length b) (84 + n + k) (omega arith),
        crc,
      )
      (read_manifest-IsReadAs m b n k v r)

module _ (m : DeqrV2Manifest) (name mime tail : List ℕ) (valid : IsManifest m)
    (texts : HasTexts m name mime) where
  abbrev whole : List ℕ
  whole = frame m name mime tail valid

  read_filename-whole :
      read_filename whole (length name) ≡ ok (sanitize_filename (sanitize_filename m.filename))
  unfolding read_filename
  read_filename-whole =
      rw (name_read m name mime tail valid, texts.name_plain)
        (ground (arith, (sanitize_filename-Fits (sanitize_filename m.filename)).0))

  read_mime-whole : read_mime whole (length name) (length mime) ≡ ok m.mime_type
  unfolding read_mime
  read_mime-whole = rw (mime_read m name mime tail valid) texts.mime_plain

  reads_whole : IsReadAs m whole (length name) (length mime)
  reads_whole =
      let (flags, session, file, original, transport, segment_size, symbol_size, segment_count) =
        numbers_read m name mime tail valid in
      let (fec, mode, param, profile) = bytes_read m name mime tail valid texts.profile in
      record {
        flags = flags;
        session = session;
        file = file;
        original = original;
        transport = transport;
        segment_size = segment_size;
        symbol_size = symbol_size;
        segment_count = segment_count;
        fec = fec;
        mode = mode;
        param = param;
        profile = profile;
        digest = digest_read m name mime tail valid;
        filename = read_filename-whole;
        mime = read_mime-whole;
      }

parse-whole :
    (m : DeqrV2Manifest) (name mime : List ℕ)
    → IsManifest m
    → HasTexts m name mime
    → parse_manifest_frame
        (manifest_body m name mime ++ be32 (checksum (manifest_body m name mime)))
      ≡ ok (received m)
parse-whole m name mime v x =
    let tail = be32 (checksum (manifest_body m name mime)) in
    let b = manifest_body m name mime ++ tail in
    let size : length b ≡ 84 + length name + length mime =
      omega (arith, length-frame m name mime tail v) in
    let (named, mimed) =
      lengths_read m name mime tail v (omega (arith, x.name_le)) (omega (arith, x.mime_le)) in
    parse-IsReadAs m b (length name) (length mime) v (read_prefix-frame m name mime tail v) size
      (x.name_pos, x.name_le, x.mime_le) named mimed (check_crc-sealed (manifest_body m name mime))
      (reads_whole m name mime tail v x)

-- The conditions under which the texts of a manifest survive the codec.
pub record IsTextual (m : DeqrV2Manifest) : Type 0 where
  pub name : IsPlainText (sanitize_filename m.filename)
  pub mime : IsPlainText m.mime_type

serialize_manifest_frame-inv :
    (m : DeqrV2Manifest) {bytes : List ℕ}
    → IsTextual m
    → serialize_manifest_frame m ≡ ok bytes
    → (name : List ℕ) × (mime : List ℕ) × IsManifest m
      × HasTexts m name mime
      × (bytes ≡ manifest_body m name mime ++ be32 (checksum (manifest_body m name mime)))
unfolding serialize_manifest_frame check_texts
serialize_manifest_frame-inv m p h =
    let name = encode_utf8 (sanitize_filename m.filename) in
    let mime = encode_utf8 m.mime_type in
    let (u, numbers, h1) = >>=-eq-ok (check_manifest m) _ h in
    let (w, texts, h2) = >>=-eq-ok (check_texts m name mime) _ h1 in
    let v = check_manifest-inv m numbers in
    (
      name,
      mime,
      v,
      record {
        name_plain = decode-encode_utf8 _ p.name;
        mime_plain = decode-encode_utf8 _ p.mime;
        name_pos = ground arith;
        name_le = ground arith;
        mime_le = ground arith;
        profile = ground arith;
      },
      cc (sealed_manifest_frame m name mime v.digest_size),
    )

-- Every frame that serializeManifestFrame writes for a manifest whose texts have their surrogates in
-- pairs and no leading byte order mark is parsed back by parseManifestFrame: all fields are the same
-- but the file name, which has been sanitized twice.
pub parse-serialize_manifest_frame :
    (m : DeqrV2Manifest) {bytes : List ℕ}
    → IsTextual m
    → serialize_manifest_frame m ≡ ok bytes
    → parse_manifest_frame bytes ≡ ok (received m)
parse-serialize_manifest_frame m p h =
    let (name, mime, v, x, e) = serialize_manifest_frame-inv m p h in
    rw e (parse-whole m name mime v x)
