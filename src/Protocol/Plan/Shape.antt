-- ===== src/Protocol/Plan/Shape.antt =====
-- What a plan of planSegmentation (src/core/protocol-v2.ts) is, and when there is one.
use deqr.Common.{ℕ, ◌+◌, ◌-◌, ◌*◌, ◌/◌, ◌%◌, ◌≤◌, ◌<◌, ◌≡◌, arith, sym, ap, ◌↔◌}
use mathlib.Core.Path.{subst}
use deqr.Common.{div_up, div_up_bounds, count_fits, fits_count, before_last}
use deqr.Protocol.Types.{ok, max_file_bytes, max_segment_count}
use deqr.Protocol.Plan.{SegmentPlan, build_plan, plan_segmentation}

-- The sizes that planSegmentation accepts.
pub record CanPlan (transport_size segment_size symbol_size : ℕ) : Type 0 where
  pub stream_pos : 1 ≤ transport_size
  pub stream_le : transport_size ≤ max_file_bytes
  pub symbol_ge : 32 ≤ symbol_size
  pub symbol_le : symbol_size ≤ 4096
  pub segment_ge : 65536 ≤ segment_size
  pub segment_le : segment_size ≤ 67108864
  pub divides : segment_size % symbol_size ≡ 0
  pub count_fits : transport_size ≤ segment_size * max_segment_count

pub record IsPlan (p : SegmentPlan) : Type 0 where
  pub accepted : CanPlan p.transport_size p.segment_size_bytes p.symbol_size_bytes
  pub whole_symbols : p.symbol_size_bytes * p.symbols_per_full_segment ≡ p.segment_size_bytes
  pub count_le : p.segment_count ≤ max_segment_count
  pub count_pos : 1 ≤ p.segment_count
  pub covered :
      p.segment_size_bytes * (p.segment_count - 1) + p.last_segment_bytes ≡ p.transport_size
  pub last_pos : 1 ≤ p.last_segment_bytes
  pub last_le : p.last_segment_bytes ≤ p.segment_size_bytes
  pub last_covered : p.last_segment_bytes ≤ p.symbol_size_bytes * p.symbols_in_last_segment
  pub last_tight :
      p.symbol_size_bytes * p.symbols_in_last_segment < p.last_segment_bytes + p.symbol_size_bytes

abbrev planned : ℕ → ℕ → ℕ → SegmentPlan
planned transport_size segment_size symbol_size =
    build_plan transport_size segment_size symbol_size (div_up transport_size segment_size)

plan_segmentation-eq-ok :
    (t s y : ℕ) {p : SegmentPlan}
    → plan_segmentation t s y ≡ ok p
    → CanPlan t s y × (planned t s y ≡ p)
unfolding plan_segmentation
plan_segmentation-eq-ok t s y h = (
  record {
    stream_pos = ground arith;
    stream_le = ground arith;
    symbol_ge = ground arith;
    symbol_le = ground arith;
    segment_ge = ground arith;
    segment_le = ground arith;
    divides = ground arith;
    count_fits = count_fits t s max_segment_count (ground arith) (ground arith) (ground arith);
  },
  ground arith,
)

planned-IsPlan : (t s y : ℕ) → CanPlan t s y → IsPlan (planned t s y)
unfolding build_plan
planned-IsPlan t s y c =
    let (over, under) = div_up_bounds t s c.stream_pos (omega arith) in
    let (some_segment, cut) = before_last t s (div_up t s) c.stream_pos over in
    let last_pos' : 1 ≤ t - s * (div_up t s - 1) = omega arith in
    let (last_over, last_under) =
      div_up_bounds (t - s * (div_up t s - 1)) y last_pos' (omega arith) in
    record {
      accepted = c;
      whole_symbols = omega arith;
      count_le = fits_count t s max_segment_count c.stream_pos (omega arith) c.count_fits;
      count_pos = some_segment;
      covered = omega arith;
      last_pos = last_pos';
      last_le = omega arith;
      last_covered = last_over;
      last_tight = last_under;
    }

-- A plan that planSegmentation returns has the sizes that were asked for, whole symbols in each
-- full segment, a segment count in range, a last segment that ends with the stream and is neither
-- empty nor longer than the others, and just as many symbols there as hold its bytes.
pub plan_segmentation-IsPlan :
    (t s y : ℕ) {p : SegmentPlan}
    → plan_segmentation t s y ≡ ok p
    → IsPlan p × (p.transport_size ≡ t) × (p.segment_size_bytes ≡ s) × (p.symbol_size_bytes ≡ y)
unfolding build_plan
plan_segmentation-IsPlan t s y h =
    let (c, e) = plan_segmentation-eq-ok t s y h in
    (
      subst IsPlan e (planned-IsPlan t s y c),
      sym (ap (λ p. p.transport_size) e),
      sym (ap (λ p. p.segment_size_bytes) e),
      sym (ap (λ p. p.symbol_size_bytes) e),
    )

CanPlan-planned : (t s y : ℕ) → CanPlan t s y → plan_segmentation t s y ≡ ok (planned t s y)
unfolding plan_segmentation
CanPlan-planned t s y c = ground (
  arith,
  fits_count t s max_segment_count c.stream_pos (omega arith) c.count_fits,
  div_small s y c.symbol_ge c.segment_le,
)
  where
    div_small : (a b : ℕ) → 32 ≤ b → a ≤ 67108864 → a / b ≤ 67108864
    div_small a b p q = grind arith

-- There is a plan exactly for the sizes in their documented ranges, with whole symbols in a
-- segment, and with no more segments than a u32 counts. Any other size is refused.
pub plan_segmentation_iff :
    (t s y : ℕ) → (CanPlan t s y ↔ ((p : SegmentPlan) × (plan_segmentation t s y ≡ ok p)))
plan_segmentation_iff t s y =
    (λ c. (planned t s y, CanPlan-planned t s y c), λ e. (plan_segmentation-eq-ok t s y e.1).0)
