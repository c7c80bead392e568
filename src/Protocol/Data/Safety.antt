-- ===== src/Protocol/Data/Safety.antt =====
-- No input makes parseDataFrame of src/core/protocol-v2.ts throw, and what it accepts is a valid
-- frame of exactly the declared length.
use deqr.Common.{true, ℕ, ◌+◌, ◌-◌, ◌≤◌, ◌≡◌, ◌⊎◌, arith, List, length}
use deqr.Common.{get_or, ◌||◌, leb, ◌==◌}
use deqr.Protocol.Types.{
  DeqrV2DataFrame, ok, returns, >>=-eq-ok, guard-eq-ok, returns-bind, returns-guard, source_type,
  repair_type,
}
use deqr.Protocol.Buffer.{get_u16}
use deqr.Protocol.Buffer.Laws.{get_uint-eq}
use deqr.Protocol.Data.{
  check_data_length, read_prefix, check_crc, read_data_frame, parse_data_frame,
}

pub returns-read_prefix : (b : List ℕ) → returns (read_prefix b) ≡ true
unfolding read_prefix
returns-read_prefix b = ground arith

pub returns-check_crc : (b : List ℕ) → 4 ≤ length b → returns (check_crc b) ≡ true
unfolding check_crc
returns-check_crc b n = ground (arith, get_uint-eq 4 b (length b - 4) (omega arith))

returns-read_data_frame :
    (b : List ℕ) (t n : ℕ) → 28 ≤ length b → returns (read_data_frame b t n) ≡ true
unfolding read_data_frame
returns-read_data_frame b t n long = ground (
  arith,
  get_uint-eq 2 b 26 (omega arith),
  get_uint-eq 4 b 20 (omega arith),
  get_uint-eq 4 b 16 (omega arith),
  get_uint-eq 4 b 12 (omega arith),
  get_uint-eq 4 b 8 (omega arith),
  get_uint-eq 4 b 4 (omega arith),
)

-- The header of an accepted frame.
pub record IsPrefix (b : List ℕ) (t : ℕ) : Type 0 where
  pub long : 4 ≤ length b
  pub magic : (get_or b 0 0 ≡ 0x44) × (get_or b 1 0 ≡ 0x32) × (get_or b 2 0 ≡ 2)
  pub type : get_or b 3 0 ≡ t

pub read_prefix-inv : (b : List ℕ) {t : ℕ} → read_prefix b ≡ ok t → IsPrefix b t
unfolding read_prefix
read_prefix-inv b h = ground arith

-- What parseDataFrame has checked by the time that it reads the fields.
pub record IsChecked (b : List ℕ) (t n : ℕ) : Type 0 where
  pub prefix : IsPrefix b t
  pub kind : (t ≡ source_type) ⊎ (t ≡ repair_type)
  pub declared : get_u16 b 24 ≡ ok n
  pub size : length b ≡ 32 + n
  pub size_range : (1 ≤ n) × (n ≤ 4096)
  pub crc : check_crc b ≡ ok tt

check_data_length-inv :
    (b : List ℕ) (n : ℕ)
    → check_data_length b n ≡ ok tt
    → (length b ≡ 32 + n) × (1 ≤ n) × (n ≤ 4096)
unfolding check_data_length
check_data_length-inv b n h = ground arith

pub parse_data_frame-inv :
    (b : List ℕ) {f : DeqrV2DataFrame}
    → parse_data_frame b ≡ ok f
    → (t : ℕ) × (n : ℕ) × IsChecked b t n × (read_data_frame b t n ≡ ok f)
unfolding parse_data_frame
parse_data_frame-inv b h =
    let (t, prefix, h1) = >>=-eq-ok (read_prefix b) _ h in
    let (kind, h2) = guard-eq-ok (t == source_type || t == repair_type) _ _ h1 in
    let (long, h3) = guard-eq-ok (leb 33 (length b)) _ _ h2 in
    let (n, declared, h4) = >>=-eq-ok (get_u16 b 24) _ h3 in
    let (u, sizes, h5) = >>=-eq-ok (check_data_length b n) _ h4 in
    let (v, crc, h6) = >>=-eq-ok (check_crc b) _ h5 in
    let (size, lo, hi) = check_data_length-inv b n sizes in
    (
      t,
      n,
      record {
        prefix = read_prefix-inv b prefix;
        kind = ground arith;
        declared = declared;
        size = size;
        size_range = (lo, hi);
        crc = crc;
      },
      h6,
    )

returns-check_data_length : (b : List ℕ) (n : ℕ) → returns (check_data_length b n) ≡ true
unfolding check_data_length
returns-check_data_length b n = ground arith

-- No input makes parseDataFrame throw.
pub returns-parse_data_frame : (b : List ℕ) → returns (parse_data_frame b) ≡ true
unfolding parse_data_frame
returns-parse_data_frame b = returns-bind (read_prefix b) _ (returns-read_prefix b) λ t _.
    returns-guard (t == source_type || t == repair_type) _ _ λ _.
      returns-guard (leb 33 (length b)) _ _ λ long.
        returns-bind (get_u16 b 24) _ (ground (arith, get_uint-eq 2 b 24 (ground arith))) λ n _.
          returns-bind (check_data_length b n) _ (returns-check_data_length b n) λ _ _.
            returns-bind (check_crc b) _ (returns-check_crc b (ground arith))
              λ _ _. returns-read_data_frame b t n (ground arith)
