-- ===== src/Protocol/Manifest/Safety.antt =====
-- No input makes parseManifestFrame of src/core/protocol-v2.ts throw, and what it accepts is
-- consistent.
use deqr.Common.{true, ℕ, ◌+◌, ◌≤◌, ◌≡◌, arith, List, length, Option, none, some, All}
use deqr.Common.{get_or, ◌&&◌, leb, ◌==◌, not, Option-cases, inl, inr, refl, false, ==_iff}
use mathlib.Core.Path.{subst}
use deqr.Filename.{sanitize_filename}
use deqr.Filename.Safety.{IsSafe, sanitize_filename-IsSafe}
use deqr.Protocol.Types.{
  DeqrV2Manifest, V2ErrorCode, ok, ok-injective, returns, >>=-eq-ok, guard-eq-ok, returns-bind,
  returns-guard, returns-caught, caught, caught-eq-ok, manifest_type,
}
use deqr.Protocol.Buffer.{get_uint, get_u16, get_u32, get_u64, slice}
use deqr.Protocol.Buffer.Laws.{get_uint-eq}
use deqr.Protocol.Plan.{SegmentPlan, plan_segmentation}
use deqr.Protocol.Window.{compression_inconsistency}
use deqr.Protocol.Utf8.{decode_utf8, decode_from, drop_mark, at_rest}
use deqr.Protocol.Data.{has_critical, check_crc, read_prefix}
use deqr.Protocol.Data.Safety.{returns-read_prefix, returns-check_crc}
use deqr.Protocol.Manifest.{
  fail_if, read_filename, read_mime, read_texts, read_manifest, check_manifest_length,
  parse_manifest_frame,
}

returns-decode_utf8 : (b : List ℕ) → returns (decode_utf8 b) ≡ true
unfolding decode_utf8
returns-decode_utf8 b = elim (Option-cases (decode_from at_rest (drop_mark b))) [
  | inl e ↦ rw e refl
  | inr (cs, e) ↦ rw e refl
]

returns-read_filename : (b : List ℕ) (n : ℕ) → returns (read_filename b n) ≡ true
unfolding read_filename
returns-read_filename b n =
    returns-bind (decode_utf8 (slice b 78 (78 + n))) _ (returns-decode_utf8 _)
      λ t _. returns-guard (leb 1 (length (sanitize_filename t))) _ _ λ _. refl

returns-fail_if : (o : Option V2ErrorCode) → returns (fail_if o) ≡ true
returns-fail_if none = refl
returns-fail_if (some e) = refl

-- A read of the fixed part.
returns-get_uint :
    (size : ℕ) (b : List ℕ) (o : ℕ) → o + size ≤ length b → returns (get_uint size b o) ≡ true
returns-get_uint size b o h = rw (get_uint-eq size b o h) refl

returns-read_mime : (b : List ℕ) (n k : ℕ) → returns (read_mime b n k) ≡ true
unfolding read_mime
returns-read_mime b n k = returns-decode_utf8 _

returns-read_texts :
    (b : List ℕ) (n k : ℕ) (x y : ℕ × ℕ × ℕ) → 84 ≤ length b → returns (read_texts b n k x y) ≡ true
unfolding read_texts
returns-read_texts b n k (x1, x2, x3) (y1, y2, y3) long =
    returns-bind _ _ (returns-read_filename b n) λ name _.
      returns-bind _ _ (returns-read_mime b n k) λ mime _.
        returns-bind (get_u32 b 6) _ (returns-get_uint 4 b 6 (omega arith)) λ session _.
          returns-bind (get_u32 b 10) _ (returns-get_uint 4 b 10 (omega arith)) λ file _. refl

returns-read_manifest :
    (b : List ℕ) (n k : ℕ) → 84 ≤ length b → returns (read_manifest b n k) ≡ true
unfolding read_manifest
returns-read_manifest b n k long =
    returns-bind (get_u16 b 4) _ (returns-get_uint 2 b 4 (omega arith)) λ flags _.
      returns-guard (not (has_critical flags)) _ _ λ _.
        returns-bind (get_u64 b 14) _ (returns-get_uint 8 b 14 (omega arith)) λ original _.
          returns-bind (get_u64 b 22) _ (returns-get_uint 8 b 22 (omega arith)) λ transport _.
            returns-guard (leb 1 original) _ _ λ _. returns-guard (leb 1 transport) _ _ λ _.
              returns-bind
                (fail_if
                  (compression_inconsistency (get_or b 41 0) (get_or b 42 0) original transport))
                _ (returns-fail_if _)
                λ _ _. returns-guard (get_or b 40 0 == 1) _ _ λ _.
                  returns-bind (get_u32 b 30) _ (returns-get_uint 4 b 30 (omega arith)) λ s _.
                    returns-bind (get_u16 b 34) _ (returns-get_uint 2 b 34 (omega arith)) λ y _.
                      returns-bind (get_u32 b 36) _ (returns-get_uint 4 b 36 (omega arith))
                        λ count _.
                          returns-bind _ _ (returns-caught (plan_segmentation transport s y)) λ p _.
                            returns-guard (p.segment_count == count) _ _ λ _.
                              returns-read_texts b n k (flags, original, transport) (s, y, count)
                                long

returns-check_manifest_length :
    (b : List ℕ) (n k : ℕ) → returns (check_manifest_length b n k) ≡ true
unfolding check_manifest_length
returns-check_manifest_length b n k = ground arith

-- No input makes parseManifestFrame throw.
pub returns-parse_manifest_frame : (b : List ℕ) → returns (parse_manifest_frame b) ≡ true
unfolding parse_manifest_frame
returns-parse_manifest_frame b = returns-bind (read_prefix b) _ (returns-read_prefix b) λ t _.
    returns-guard (t == manifest_type) _ _ λ _. returns-guard (leb 85 (length b)) _ _ λ long.
      let size : 85 ≤ length b = ground arith in
      returns-bind (get_u16 b 76) _ (returns-get_uint 2 b 76 (omega arith)) λ n _.
        returns-guard (leb 1 n && leb n 1024) _ _ λ _.
          returns-guard (leb (78 + n + 6) (length b)) _ _ λ more.
            returns-bind (get_u16 b (78 + n)) _ (returns-get_uint 2 b (78 + n) (ground arith))
              λ k _. returns-bind _ _ (returns-check_manifest_length b n k) λ _ _.
                returns-bind _ _ (returns-check_crc b (omega arith))
                  λ _ _. returns-read_manifest b n k (omega arith)

-- What a receiver relies on in a manifest.
pub record IsConsistent (m : DeqrV2Manifest) : Type 0 where
  pub plan : SegmentPlan
  pub planned :
      plan_segmentation m.transport_size m.segment_size_bytes m.symbol_size_bytes ≡ ok plan
  pub counted : plan.segment_count ≡ m.segment_count
  pub compression :
      compression_inconsistency m.compression_mode m.compression_param m.original_size
        m.transport_size
      ≡ none
  pub original_pos : 1 ≤ m.original_size
  pub fec_known : m.fec_profile_id ≡ 1
  pub no_critical : has_critical m.feature_flags ≡ false
  pub name_safe : All IsSafe m.filename
  pub name_pos : 1 ≤ length m.filename

fail_if-inv : (o : Option V2ErrorCode) → fail_if o ≡ ok tt → o ≡ none
fail_if-inv none h = refl
fail_if-inv (some e) h = cc

read_filename-IsSafe :
    (b : List ℕ) (n : ℕ) {name : List ℕ}
    → read_filename b n ≡ ok name
    → All IsSafe name × (1 ≤ length name)
unfolding read_filename
read_filename-IsSafe b n h =
    let (t, decoded, h1) = >>=-eq-ok (decode_utf8 (slice b 78 (78 + n))) _ h in
    let (pos, h2) = guard-eq-ok (leb 1 (length (sanitize_filename t))) _ _ h1 in
    subst (λ x. All IsSafe x × (1 ≤ length x)) (ok-injective h2)
      (sanitize_filename-IsSafe t, ground arith)

-- The numbers that have been tested are those of the manifest.
record IsOf (m : DeqrV2Manifest) (b : List ℕ) (x y : ℕ × ℕ × ℕ) : Type 0 where
  first : x ≡ (m.feature_flags, m.original_size, m.transport_size)
  second : y ≡ (m.segment_size_bytes, m.symbol_size_bytes, m.segment_count)
  fec : get_or b 40 0 ≡ m.fec_profile_id
  mode : get_or b 41 0 ≡ m.compression_mode
  param : get_or b 42 0 ≡ m.compression_param
  name_safe : All IsSafe m.filename
  name_pos : 1 ≤ length m.filename

read_texts-IsOf :
    (b : List ℕ) (n k : ℕ) (x y : ℕ × ℕ × ℕ) {m : DeqrV2Manifest}
    → read_texts b n k x y ≡ ok m
    → IsOf m b x y
unfolding read_texts
read_texts-IsOf b n k (x1, x2, x3) (y1, y2, y3) h =
    let (name, named, h1) = >>=-eq-ok (read_filename b n) _ h in
    let (mime, e1, h2) = >>=-eq-ok (read_mime b n k) _ h1 in
    let (session, e2, h3) = >>=-eq-ok (get_u32 b 6) _ h2 in
    let (file, e3, h4) = >>=-eq-ok (get_u32 b 10) _ h3 in
    let (safe, pos) = read_filename-IsSafe b n named in
    subst (λ m. IsOf m b (x1, x2, x3) (y1, y2, y3)) (ok-injective h4)
      (record {
        first = refl;
        second = refl;
        fec = refl;
        mode = refl;
        param = refl;
        name_safe = safe;
        name_pos = pos;
      })

IsConsistent-IsOf :
    {m : DeqrV2Manifest} {p : SegmentPlan} (b : List ℕ) (flags original transport s y count : ℕ)
    → IsOf m b (flags, original, transport) (s, y, count)
    → plan_segmentation transport s y ≡ ok p
    → p.segment_count ≡ count
    → compression_inconsistency (get_or b 41 0) (get_or b 42 0) original transport ≡ none
    → get_or b 40 0 ≡ 1
    → 1 ≤ original
    → has_critical flags ≡ false
    → IsConsistent m
IsConsistent-IsOf {m} {p} b flags original transport s y count r planned counted compression fec pos
      critical =
    let (e1, e2, e3) : (flags ≡ m.feature_flags)
        × (original ≡ m.original_size)
        × (transport ≡ m.transport_size) =
      (cc (r.first), cc (r.first), cc (r.first)) in
    let (d1, d2, d3) : (s ≡ m.segment_size_bytes)
        × (y ≡ m.symbol_size_bytes)
        × (count ≡ m.segment_count) =
      (cc (r.second), cc (r.second), cc (r.second)) in
    record {
      plan = p;
      planned = cc (planned, e3, d1, d2);
      counted = cc (counted, d3);
      compression = cc (compression, e2, e3, r.mode, r.param);
      original_pos = subst (λ z. 1 ≤ z) e2 pos;
      fec_known = cc (fec, r.fec);
      no_critical = cc (critical, e1);
      name_safe = r.name_safe;
      name_pos = r.name_pos;
    }

read_manifest-IsConsistent :
    (b : List ℕ) (n k : ℕ) {m : DeqrV2Manifest} → read_manifest b n k ≡ ok m → IsConsistent m
unfolding read_manifest
read_manifest-IsConsistent b n k {m} h =
    let (flags, e0, h0) = >>=-eq-ok (get_u16 b 4) _ h in
    let (critical, h1) = guard-eq-ok (not (has_critical flags)) _ _ h0 in
    let (original, e1, h2) = >>=-eq-ok (get_u64 b 14) _ h1 in
    let (transport, e2, h3) = >>=-eq-ok (get_u64 b 22) _ h2 in
    let (p1, h4) = guard-eq-ok (leb 1 original) _ _ h3 in
    let (p2, h5) = guard-eq-ok (leb 1 transport) _ _ h4 in
    let (u, compression, h6) =
      >>=-eq-ok
        (fail_if (compression_inconsistency (get_or b 41 0) (get_or b 42 0) original transport)) _
        h5 in
    let (fec, h7) = guard-eq-ok (get_or b 40 0 == 1) _ _ h6 in
    let (s, e3, h8) = >>=-eq-ok (get_u32 b 30) _ h7 in
    let (y, e4, h9) = >>=-eq-ok (get_u16 b 34) _ h8 in
    let (count, e5, h10) = >>=-eq-ok (get_u32 b 36) _ h9 in
    let (p, planned, h11) = >>=-eq-ok (caught (plan_segmentation transport s y)) _ h10 in
    let (counted, h12) = guard-eq-ok (p.segment_count == count) _ _ h11 in
    IsConsistent-IsOf b flags original transport s y count
      (read_texts-IsOf b n k (flags, original, transport) (s, y, count) h12)
      (caught-eq-ok _ planned) ((==_iff p.segment_count count).0 counted)
      (fail_if-inv _ compression) ((==_iff (get_or b 40 0) 1).0 fec) (ground arith) (ground arith)

-- A manifest that parseManifestFrame accepts is consistent: its sizes have a plan with just its
-- number of segments, its compression fields are consistent, it asks for no feature that this build
-- lacks, and its file name is not empty and has no unsafe unit.
pub parse_manifest_frame-IsConsistent :
    (b : List ℕ) {m : DeqrV2Manifest} → parse_manifest_frame b ≡ ok m → IsConsistent m
unfolding parse_manifest_frame
parse_manifest_frame-IsConsistent b h =
    let (t, prefix, h1) = >>=-eq-ok (read_prefix b) _ h in
    let (kind, h2) = guard-eq-ok (t == manifest_type) _ _ h1 in
    let (long, h3) = guard-eq-ok (leb 85 (length b)) _ _ h2 in
    let (n, named, h4) = >>=-eq-ok (get_u16 b 76) _ h3 in
    let (small, h5) = guard-eq-ok (leb 1 n && leb n 1024) _ _ h4 in
    let (more, h6) = guard-eq-ok (leb (78 + n + 6) (length b)) _ _ h5 in
    let (k, mimed, h7) = >>=-eq-ok (get_u16 b (78 + n)) _ h6 in
    let (u, sizes, h8) = >>=-eq-ok (check_manifest_length b n k) _ h7 in
    let (v, crc, h9) = >>=-eq-ok (check_crc b) _ h8 in read_manifest-IsConsistent b n k h9
