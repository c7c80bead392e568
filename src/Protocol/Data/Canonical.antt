-- ===== src/Protocol/Data/Canonical.antt =====
-- parseDataFrame accepts only what serializeDataFrame writes (src/core/protocol-v2.ts).
use deqr.Common.{
  false, ℕ, ◌+◌, ◌-◌, ◌≤◌, ◌<◌, ◌≡◌, refl, sym, ap, ◌∙◌, arith, List, [], ◌∷◌, ◌++◌, length, take,
  drop, get_or,
}
use deqr.Common.{
  length-take, length-drop, take-append-drop, All-take, All-drop, drop-drop, ◌%◌, take-append,
  take-all, ◌^◌,
}
use deqr.Protocol.Types.{DeqrV2DataFrame, ok, source_type, repair_type}
use deqr.Protocol.Buffer.{be16, be32, be_value, slice}
use deqr.Protocol.Buffer.Laws.{
  IsBytes, be32-be_value, be16-be_value, be_value-lt2, be_value-lt4, get_uint-eq, get_uint-inv,
}
use deqr.Protocol.Crc.Bounds.{checksum, crc32-prefix}
use deqr.Protocol.Crc.{crc32}
use deqr.Protocol.Data.{
  read_data_frame, has_critical, check_crc, parse_data_frame, serialize_data_frame,
}
use deqr.Protocol.Data.Layout.{body}
use deqr.Protocol.Data.Safety.{IsChecked, parse_data_frame-inv}
use deqr.Protocol.Data.Roundtrip.{IsDataFrame, serialize_data_frame-valid}

abbrev cut : List ℕ → ℕ → ℕ → List ℕ
cut b offset size = take size (drop offset b)

-- What read_data_frame reads, and what it has tested.
record Reads (b : List ℕ) (t n : ℕ) (f : DeqrV2DataFrame) : Type 0 where
  kind : f.frame_type ≡ t
  flags : f.frame_flags ≡ be_value 0 (cut b 26 2)
  session : f.session_id ≡ be_value 0 (cut b 4 4)
  file : f.file_id ≡ be_value 0 (cut b 8 4)
  segment : f.segment_index ≡ be_value 0 (cut b 12 4)
  symbol : f.symbol_id ≡ be_value 0 (cut b 16 4)
  count : f.source_symbol_count ≡ be_value 0 (cut b 20 4)
  bytes : f.payload ≡ slice b 28 (28 + n)
  no_critical : has_critical f.frame_flags ≡ false
  count_pos : 1 ≤ f.source_symbol_count
  source_below : f.frame_type ≡ source_type → f.symbol_id < f.source_symbol_count
  repair_above : f.frame_type ≡ repair_type → f.source_symbol_count ≤ f.symbol_id

read_data_frame-inv :
    (b : List ℕ) (t n : ℕ) {f : DeqrV2DataFrame}
    → 28 ≤ length b
    → read_data_frame b t n ≡ ok f
    → Reads b t n f
unfolding read_data_frame
read_data_frame-inv b t n long h = ground (
  arith,
  get_uint-eq 2 b 26 (omega arith),
  get_uint-eq 4 b 20 (omega arith),
  get_uint-eq 4 b 16 (omega arith),
  get_uint-eq 4 b 12 (omega arith),
  get_uint-eq 4 b 8 (omega arith),
  get_uint-eq 4 b 4 (omega arith),
)

cut-length : (b : List ℕ) (o k : ℕ) → o + k ≤ length b → length (cut b o k) ≡ k
cut-length b o k h = omega (arith, length-take k (drop o b), length-drop o b)

cut-IsBytes : (b : List ℕ) (o k : ℕ) → IsBytes b → IsBytes (cut b o k)
cut-IsBytes b o k h = All-take _ k (drop o b) (All-drop _ o b h)

-- A buffer from one offset on is the piece up to another, and the rest.
join : (b : List ℕ) (o k : ℕ) → cut b o k ++ drop (o + k) b ≡ drop o b
join b o k = rw (← drop-drop k o b) (take-append-drop k (drop o b))

glue : {xs xs' ys ys' : List ℕ} → xs ≡ xs' → ys ≡ ys' → xs ++ ys ≡ xs' ++ ys'
glue p q = cc

be32-cut :
    (b : List ℕ) (o : ℕ) → IsBytes b → o + 4 ≤ length b → be32 (be_value 0 (cut b o 4)) ≡ cut b o 4
be32-cut b o h n = be32-be_value (cut b o 4) (cut-length b o 4 n) (cut-IsBytes b o 4 h)

be16-cut :
    (b : List ℕ) (o : ℕ) → IsBytes b → o + 2 ≤ length b → be16 (be_value 0 (cut b o 2)) ≡ cut b o 2
be16-cut b o h n = be16-be_value (cut b o 2) (cut-length b o 2 n) (cut-IsBytes b o 2 h)

first_four :
    (b : List ℕ)
    → 4 ≤ length b
    → get_or b 0 0 ∷ get_or b 1 0 ∷ get_or b 2 0 ∷ get_or b 3 0 ∷ [] ≡ take 4 b
first_four (a ∷ b ∷ c ∷ d ∷ r) h = refl
first_four (a ∷ b ∷ c ∷ []) h = absurd (omega arith)
first_four (a ∷ b ∷ []) h = absurd (omega arith)
first_four (a ∷ []) h = absurd (omega arith)
first_four [] h = absurd (omega arith)

module _ (b : List ℕ) (t n : ℕ) (f : DeqrV2DataFrame) (bytes : IsBytes b)
    (checked : IsChecked b t n) (reads : Reads b t n f) where
  declared-length : length f.payload ≡ n
  declared-length = omega (
    arith,
    ap length reads.bytes,
    cut-length b 28 (28 + n - 28) (omega (arith, checked.size)),
    checked.size,
  )

  prefix-cut : 0x44 ∷ 0x32 ∷ 2 ∷ (f.frame_type % 256) ∷ [] ≡ take 4 b
  prefix-cut = ground (
    arith,
    first_four b checked.prefix.long,
    checked.prefix.magic,
    checked.prefix.type,
    checked.kind,
    reads.kind,
  )

  payload_length-cut : be16 (length f.payload) ≡ cut b 24 2
  payload_length-cut =
      let declared = get_uint-inv 2 b 24 checked.declared in
      ap be16 (declared-length ∙ declared) ∙ be16-cut b 24 bytes (omega (arith, checked.size))

  body-drop : body f ++ drop (28 + n) b ≡ b
  body-drop =
      let size = checked.size in
      let e28 : f.payload ++ drop (28 + n) b ≡ drop 28 b =
        glue (reads.bytes ∙ ap (cut b 28) (omega arith)) refl ∙ join b 28 n in
      let e26 : be16 f.frame_flags ++ (f.payload ++ drop (28 + n) b) ≡ drop 26 b =
        glue (ap be16 reads.flags ∙ be16-cut b 26 bytes (omega arith)) e28 ∙ join b 26 2 in
      let e24 = glue payload_length-cut e26 ∙ join b 24 2 in
      let e20 = glue (ap be32 reads.count ∙ be32-cut b 20 bytes (omega arith)) e24 ∙ join b 20 4 in
      let e16 = glue (ap be32 reads.symbol ∙ be32-cut b 16 bytes (omega arith)) e20 ∙ join b 16 4 in
      let e12 =
        glue (ap be32 reads.segment ∙ be32-cut b 12 bytes (omega arith)) e16 ∙ join b 12 4 in
      let e8 = glue (ap be32 reads.file ∙ be32-cut b 8 bytes (omega arith)) e12 ∙ join b 8 4 in
      let e4 = glue (ap be32 reads.session ∙ be32-cut b 4 bytes (omega arith)) e8 ∙ join b 4 4 in
      glue prefix-cut e4 ∙ join b 0 4

  body-take : body f ≡ take (28 + n) b
  body-take =
      sym (take-append (body f) (drop (28 + n) b))
      ∙ ap (take (length (body f))) body-drop
      ∙ ap (λ (k : ℕ). take k b) {x = length (body f)} (omega (arith, declared-length))

  -- The last four bytes are the CRC of the others.
  crc-drop : be32 (checksum (body f)) ≡ drop (28 + n) b
  unfolding check_crc
  crc-drop =
      let size = checked.size in
      let offset : length b - 4 ≡ 28 + n = omega arith in
      let declared : be_value 0 (cut b (28 + n) 4) ≡ crc32 b 0 (28 + n) =
        ground (arith, checked.crc, offset, get_uint-eq 4 b (28 + n) (omega arith)) in
      let whole : cut b (28 + n) 4 ≡ drop (28 + n) b =
        take-all (drop (28 + n) b) 4 (omega (arith, length-drop (28 + n) b)) in
      ap be32 (ap checksum body-take ∙ sym (crc32-prefix b (28 + n) (omega arith)) ∙ sym declared)
      ∙ be32-cut b (28 + n) bytes (omega arith)
      ∙ whole

  u32-cut : (o : ℕ) → o + 4 ≤ length b → be_value 0 (cut b o 4) < 2 ^ 32
  u32-cut o h = be_value-lt4 (cut b o 4) (cut-length b o 4 h) (cut-IsBytes b o 4 bytes)

  Reads-IsDataFrame : IsDataFrame f
  Reads-IsDataFrame = record {
    kind = ground (arith, checked.kind, reads.kind);
    flags_fit = omega (
      arith,
      reads.flags,
      be_value-lt2 (cut b 26 2) (cut-length b 26 2 (omega (arith, checked.size)))
          (cut-IsBytes b 26 2 bytes),
    );
    no_critical = reads.no_critical;
    session_fits = omega (arith, reads.session, u32-cut 4 (omega (arith, checked.size)));
    file_fits = omega (arith, reads.file, u32-cut 8 (omega (arith, checked.size)));
    segment_fits = omega (arith, reads.segment, u32-cut 12 (omega (arith, checked.size)));
    symbol_fits = omega (arith, reads.symbol, u32-cut 16 (omega (arith, checked.size)));
    count_fits = omega (arith, reads.count, u32-cut 20 (omega (arith, checked.size)));
    count_pos = reads.count_pos;
    source_below = reads.source_below;
    repair_above = reads.repair_above;
    payload_pos = omega (arith, declared-length, checked.size_range);
    payload_le = omega (arith, declared-length, checked.size_range);
  }

-- Every byte string that parseDataFrame accepts is, byte for byte, what serializeDataFrame writes for
-- the frame that was parsed.
pub serialize-parse_data_frame :
    (b : List ℕ) {f : DeqrV2DataFrame}
    → IsBytes b
    → parse_data_frame b ≡ ok f
    → serialize_data_frame f ≡ ok b
serialize-parse_data_frame b {f} bytes h =
    let (t, n, checked, read) = parse_data_frame-inv b h in
    let reads = read_data_frame-inv b t n (omega (arith, checked.size)) read in
    let valid = Reads-IsDataFrame b t n f bytes checked reads in
    serialize_data_frame-valid f valid
    ∙ ap ok (
        glue {xs = body f} refl (crc-drop b t n f bytes checked reads)
        ∙ body-drop b t n f bytes checked reads)
