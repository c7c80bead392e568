-- ===== src/Dedupe/Fingerprint.antt =====
-- The range of a fingerprint (mobile-web/src/frame-dedupe.ts).
use deqr.Common.{ℕ, ◌*◌, ◌%◌, ◌^◌, ◌<◌, arith, List, [], ◌∷◌, bit_xor}
use deqr.Dedupe.{fingerprint_from, frame_fingerprint}

fingerprint_from-lt :
    (a b : ℕ) (bytes : List ℕ) → a < 2 ^ 32 → (fingerprint_from a b bytes).0 < 2 ^ 32
unfolding fingerprint_from
fingerprint_from-lt a b [] h = h
fingerprint_from-lt a b (byte ∷ bytes) h =
    fingerprint_from-lt (bit_xor a byte * 0x01000193 % 2 ^ 32)
      (bit_xor b byte * 0x000001b3 % 2 ^ 32) bytes (omega arith)

-- A fingerprint is a number that a Float64Array holds exactly.
pub frame_fingerprint-lt : (bytes : List ℕ) → frame_fingerprint bytes < 2 ^ 53
unfolding frame_fingerprint
frame_fingerprint-lt bytes =
    omega (arith, fingerprint_from-lt 0x811c9dc5 0x84222325 bytes (omega arith))
