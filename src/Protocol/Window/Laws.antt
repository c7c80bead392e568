-- ===== src/Protocol/Window/Laws.antt =====
-- Which compression fields are consistent, and how the windows cut the original file
-- (src/core/protocol-v2.ts).
use deqr.Common.{ℕ, ◌+◌, ◌-◌, ◌*◌, ◌/◌, ◌^◌, ◌≤◌, ◌<◌, ◌≡◌, ◌⊎◌, ◌↔◌, none, ap, arith}
use deqr.Common.{if◌then◌else◌, ◌==◌, div_up, div_up_bounds, before_last, piece_bound, piece_of}
use deqr.Common.{same_piece}
use native.Mathlib.Nat.{one-le-pow}
use native.Mathlib.Decide.{ℕ_discrete}
use deqr.Protocol.Types.{ok, max_file_bytes, max_segment_count}
use deqr.Protocol.Plan.{ByteRange}
use deqr.Protocol.Plan.Tiling.{Holds}
use deqr.Protocol.Window.{
  CompressionWindowPlan, windows_of, plan_compression_windows, compression_inconsistency,
  window_original_range,
}

-- An uncompressed payload is the file; a compressed one has a window size between 64 KiB and 64 MiB,
-- no more windows than a u32 counts, at least 22 bytes for each, and is no longer than the file.
abbrev pub Uncompressed : ℕ → ℕ → ℕ → ℕ → Type 0
Uncompressed mode param original transport = (mode ≡ 0) × (param ≡ 0) × (transport ≡ original)

abbrev pub Compressed : ℕ → ℕ → ℕ → ℕ → Type 0
Compressed mode param original transport =
    (mode ≡ 1)
    × (16 ≤ param)
    × (param ≤ 26)
    × (transport ≤ original)
    × (1 ≤ original)
    × (original ≤ max_file_bytes)
    × (div_up original (2 ^ param) ≤ max_segment_count)
    × (div_up original (2 ^ param) * 22 ≤ transport)

-- The four compression fields are consistent exactly in these two cases.
pub compression_inconsistency_iff :
    (mode param original transport : ℕ)
    → (compression_inconsistency mode param original transport ≡ none)
      ↔ (Uncompressed mode param original transport ⊎ Compressed mode param original transport)
unfolding compression_inconsistency plan_compression_windows
compression_inconsistency_iff mode param original transport = (λ h. ground arith, λ h. ground arith)

record IsWindowPlan (original : ℕ) (p : CompressionWindowPlan) : Type 0 where
  size_pos : 1 ≤ p.window_bytes
  count_pos : 1 ≤ p.window_count
  covered : p.window_bytes * (p.window_count - 1) + p.last_window_bytes ≡ original
  last_pos : 1 ≤ p.last_window_bytes
  last_le : p.last_window_bytes ≤ p.window_bytes
  over : original ≤ p.window_bytes * p.window_count

windows_of-IsWindowPlan :
    (original size : ℕ) {p : CompressionWindowPlan}
    → 1 ≤ size
    → windows_of original size ≡ ok p
    → IsWindowPlan original p
unfolding windows_of
windows_of-IsWindowPlan original size {p} pos h =
    let (over, under) = div_up_bounds original size (ground arith) pos in
    let (some_window, cut) = before_last original size (div_up original size) (ground arith) over in
    ground arith

plan-IsWindowPlan :
    (original param : ℕ) {p : CompressionWindowPlan}
    → plan_compression_windows original param ≡ ok p
    → IsWindowPlan original p
unfolding plan_compression_windows
plan-IsWindowPlan original param h =
    windows_of-IsWindowPlan original (2 ^ param) (one-le-pow param 2 (omega arith)) (ground arith)

module _ (original : ℕ) (p : CompressionWindowPlan) (plan : IsWindowPlan original p) where
  window_bounds :
      (i : ℕ) {r : ByteRange}
      → window_original_range p i ≡ ok r
      → (r.start ≡ p.window_bytes * i) × (r.end ≤ p.window_bytes * i + p.window_bytes)
  unfolding window_original_range
  window_bounds i h = ground (arith, plan)

  window-Holds :
      (i o : ℕ)
      → i < p.window_count
      → p.window_bytes * i ≤ o
      → o < p.window_bytes * i + p.window_bytes
      → o < original
      → (r : ByteRange) × (window_original_range p i ≡ ok r) × Holds o r
  unfolding window_original_range
  window-Holds i o in_plan above below lt = (
    record {
      start = p.window_bytes * i;
      end =
          p.window_bytes * i
          + (if i == p.window_count - 1 then p.last_window_bytes else p.window_bytes);
    },
    ground arith,
    (
      above,
      elim (ℕ_discrete i (p.window_count - 1)) [
        | yes e ↦ ground (arith, plan, ap (λ (k : ℕ). p.window_bytes * k) e)
        | no e ↦ ground arith
      ],
    ),
  )

-- Every byte of the original file lies in a compression window.
pub windows_cover :
    (original param o : ℕ) {p : CompressionWindowPlan}
    → plan_compression_windows original param ≡ ok p
    → o < original
    → (i : ℕ) × (r : ByteRange) × (window_original_range p i ≡ ok r) × Holds o r
windows_cover original param o {p} h lt =
    let plan = plan-IsWindowPlan original param h in
    let (above, below) = piece_of p.window_bytes o plan.size_pos in
    let in_plan =
      piece_bound p.window_bytes (o / p.window_bytes) p.window_count o above
        (omega (arith, plan)) in
    let (r, e, k) = window-Holds original p plan (o / p.window_bytes) o in_plan above below lt in
    (o / p.window_bytes, r, e, k)

-- No byte lies in two compression windows.
windows_disjoint :
    (original param o i j : ℕ) {p : CompressionWindowPlan} {r s : ByteRange}
    → plan_compression_windows original param ≡ ok p
    → window_original_range p i ≡ ok r
    → window_original_range p j ≡ ok s
    → Holds o r
    → Holds o s
    → i ≡ j
windows_disjoint original param o i j {p} h e f (a, b) (c, d) =
    let plan = plan-IsWindowPlan original param h in
    let (start, end) = window_bounds original p plan i e in
    let (start', end') = window_bounds original p plan j f in
    same_piece p.window_bytes i j o (omega arith) (omega arith) (omega arith) (omega arith)
