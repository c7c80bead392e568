-- ===== src/Dedupe/Examples.antt =====
-- Tests of the set of frames (mobile-web/src/frame-dedupe.ts).
use deqr.Common.{◌<◌, ◌^◌, ◌≡◌, refl, arith, List, [], ◌∷◌, some, true, false}
use deqr.Dedupe.{BoundedFingerprintSet, new_set, frame_fingerprint, has_in}
use deqr.Dedupe.Refine.{Step, observed, cleared, answers, remembered, remember, answers-remembered}
use deqr.Dedupe.Fingerprint.{frame_fingerprint-lt}

-- Three frames and a set of two: the first is forgotten when the third comes.
abbrev steps : List Step
steps =
    observed 7
    ∷ observed 8
    ∷ observed 7
    ∷ observed 9
    ∷ observed 7
    ∷ observed 9
    ∷ cleared
    ∷ observed 9
    ∷ []

answers-remembered_example :
    (s : BoundedFingerprintSet) × ((new_set 2 ≡ some s) × (answers s steps ≡ remembered 2 [] steps))
answers-remembered_example = answers-remembered 2 steps (omega arith)

remembered-steps : remembered 2 [] steps ≡ false ∷ false ∷ true ∷ false ∷ false ∷ true ∷ false ∷ []
unfolding remembered remember has_in
remembered-steps = refl

frame_fingerprint-lt_example : frame_fingerprint (1 ∷ 2 ∷ 255 ∷ []) < 2 ^ 53
frame_fingerprint-lt_example = frame_fingerprint-lt (1 ∷ 2 ∷ 255 ∷ [])
