-- ===== src/Dedupe.antt =====
-- The set of frames that have been looked at (mobile-web/src/frame-dedupe.ts). The accumulators of
-- the hash are read as unsigned numbers of 32 bits. A Set is the list of its members.
pub mod Ring
pub mod Refine
pub mod Fingerprint
mod Examples
use deqr.Common.{
  ℕ, zero, suc, ◌+◌, ◌-◌, ◌*◌, ◌/◌, ◌%◌, ◌^◌, List, [], ◌∷◌, length, get_or, set, replicate, filter,
}
use deqr.Common.{
  Option, none, some, Bool, true, false, not, ◌||◌, ltb, ◌==◌, if◌then◌else◌, bit_xor,
}

-- One step of both accumulators.
unfoldable pub fingerprint_from : ℕ → ℕ → List ℕ → ℕ × ℕ
fingerprint_from a b [] = (a, b)
fingerprint_from a b (byte ∷ bytes) =
    fingerprint_from (bit_xor a byte * 0x01000193 % 2 ^ 32) (bit_xor b byte * 0x000001b3 % 2 ^ 32)
      bytes

unfoldable pub frame_fingerprint : List ℕ → ℕ
frame_fingerprint bytes =
    let (a, b) = fingerprint_from 0x811c9dc5 0x84222325 bytes in a * 0x20_0000 + b / 2 ^ 11 % 2 ^ 21

pub record BoundedFingerprintSet : Type 0 where
  pub capacity : ℕ
  pub present : List ℕ
  pub ring : List ℕ
  pub head : ℕ
  pub count : ℕ

unfoldable pub has_in : List ℕ → ℕ → Bool
has_in [] x = false
has_in (y ∷ ys) x = y == x || has_in ys x

unfoldable pub has : BoundedFingerprintSet → ℕ → Bool
has s fingerprint = has_in s.present fingerprint

-- `none` where the constructor throws.
unfoldable pub new_set : ℕ → Option BoundedFingerprintSet
new_set capacity =
    if ltb capacity 1
    then none
    else some record {
      capacity = capacity;
      present = [];
      ring = replicate capacity 0;
      head = 0;
      count = 0;
    }

-- The oldest fingerprint leaves a set that is full.
unfoldable pub evict_oldest : BoundedFingerprintSet → BoundedFingerprintSet
evict_oldest s = record s {
  present = filter (λ x. not (x == get_or s.ring s.head 0)) s.present;
  count = s.count - 1;
}

unfoldable pub put : BoundedFingerprintSet → ℕ → BoundedFingerprintSet
put s fingerprint = record s {
  ring = set s.ring s.head fingerprint;
  head = (s.head + 1) % s.capacity;
  present = fingerprint ∷ s.present;
  count = s.count + 1;
}

unfoldable pub observe : BoundedFingerprintSet → ℕ → Bool × BoundedFingerprintSet
observe s fingerprint =
    if has s fingerprint
    then (true, s)
    else (false, put (if s.count == s.capacity then evict_oldest s else s) fingerprint)

unfoldable pub clear : BoundedFingerprintSet → BoundedFingerprintSet
clear s = record s { present = []; ring = replicate (length s.ring) 0; head = 0; count = 0 }
