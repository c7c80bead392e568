-- ===== src/Filename/Examples.antt =====
-- Names through sanitizeFilename (src/core/filename-sanitizer.ts), and the theorems at some of them.
use deqr.Common.{ℕ, ◌≡◌, refl, List, [], ◌∷◌, ◌≤◌, length, All, replicate}
use deqr.Filename.{unnamed, sanitize_filename}
use deqr.Filename.Safety.{IsSafe, Fits, sanitize_filename-IsSafe, sanitize_filename-Fits}

-- "../a\x01.txt"
abbrev climbing : List ℕ
climbing = 0x2e ∷ 0x2e ∷ 0x2f ∷ 0x61 ∷ 1 ∷ 0x2e ∷ 0x74 ∷ 0x78 ∷ 0x74 ∷ []

sanitized_tests :
    (sanitize_filename climbing ≡ 0x61 ∷ 0x2e ∷ 0x74 ∷ 0x78 ∷ 0x74 ∷ [])
    × (sanitize_filename (0x2e ∷ 0x2e ∷ 0x2e ∷ []) ≡ unnamed)
    × (sanitize_filename (0x61 ∷ 0x3a ∷ 0x62 ∷ 0x20 ∷ []) ≡ 0x61 ∷ 0x5f ∷ 0x62 ∷ [])
unfolding sanitize_filename
sanitized_tests = (refl, refl, refl)

-- "a.\x01.b" becomes "a..b", which becomes "ab".
pairs_come_back :
    (sanitize_filename (0x61 ∷ 0x2e ∷ 1 ∷ 0x2e ∷ 0x62 ∷ []) ≡ 0x61 ∷ 0x2e ∷ 0x2e ∷ 0x62 ∷ [])
    × (sanitize_filename (0x61 ∷ 0x2e ∷ 0x2e ∷ 0x62 ∷ []) ≡ 0x61 ∷ 0x62 ∷ [])
unfolding sanitize_filename
pairs_come_back = (refl, refl)

-- "a." and 300 letters
abbrev long_extension : List ℕ
long_extension = 0x61 ∷ 0x2e ∷ replicate 300 0x62

long_extension_kept : length (sanitize_filename long_extension) ≡ 301
unfolding sanitize_filename
long_extension_kept = refl

sanitize_filename-IsSafe_example : All IsSafe (sanitize_filename climbing)
sanitize_filename-IsSafe_example = sanitize_filename-IsSafe climbing

sanitize_filename-Fits_example :
    (1 ≤ length (sanitize_filename long_extension)) × Fits (sanitize_filename long_extension)
sanitize_filename-Fits_example = sanitize_filename-Fits long_extension
