-- ===== src/Filename.antt =====
-- The name that a received file is stored under (src/core/filename-sanitizer.ts). A string is the
-- list of its UTF-16 units.
pub mod Safety
mod Examples
use deqr.Common.{ℕ, suc, ◌-◌, List, [], ◌∷◌, ◌++◌, map, length, take, drop, filter, drop_while}
use deqr.Common.{from_last, Option, none, some, Bool, true, false, not, ◌&&◌, ◌||◌, leb, ltb, ◌==◌}
use deqr.Common.{if◌then◌else◌}

abbrev pub dot : ℕ
dot = 0x2e

abbrev pub underscore : ℕ
underscore = 0x5f

abbrev pub unnamed : List ℕ
unnamed = 0x75 ∷ 0x6e ∷ 0x6e ∷ 0x61 ∷ 0x6d ∷ 0x65 ∷ 0x64 ∷ []

-- `/` and `\`
unfoldable pub is_separator : ℕ → Bool
is_separator c = c == 0x2f || c == 0x5c

-- [\x00-\x1f\x7f]
unfoldable pub is_control : ℕ → Bool
is_control c = ltb c 0x20 || c == 0x7f

-- [<>:"|?*]
unfoldable pub is_reserved : ℕ → Bool
is_reserved c =
    c == 0x3c || c == 0x3e || c == 0x3a || c == 0x22 || c == 0x7c || c == 0x3f || c == 0x2a

-- [\s.], with the white space and line ends of ECMAScript
unfoldable pub is_trimmed : ℕ → Bool
is_trimmed c =
    (leb 9 c && leb c 13)
    || c == 0x20
    || c == 0xa0
    || c == 0x1680
    || (leb 0x2000 c && leb c 0x200a)
    || c == 0x2028
    || c == 0x2029
    || c == 0x202f
    || c == 0x205f
    || c == 0x3000
    || c == 0xfeff
    || c == dot

abbrev pub behind : List ℕ → Option (List ℕ) → List ℕ
behind t none = t
behind t (some s) = drop 1 s

-- What stands behind the last separator.
unfoldable pub base_name : List ℕ → List ℕ
unfolding is_separator from_last
base_name t = behind t (from_last is_separator t)

-- Two dots in a row are removed, from the left. The Boolean says that a dot is waiting for a second.
unfoldable pub strip_pairs : Bool → List ℕ → List ℕ
strip_pairs false [] = []
strip_pairs true [] = dot ∷ []
strip_pairs waiting (c ∷ cs) =
    let rest = strip_pairs (c == dot && not waiting) cs in
    if c == dot then rest else (if waiting then dot ∷ c ∷ rest else c ∷ rest)

unfoldable pub replace_reserved : List ℕ → List ℕ
unfolding is_reserved
replace_reserved = map (λ c. if is_reserved c then underscore else c)

unfoldable pub trim_end : List ℕ → List ℕ
unfolding is_trimmed
trim_end [] = []
trim_end (c ∷ cs) =
    let rest = trim_end cs in if length rest == 0 && is_trimmed c then [] else c ∷ rest

abbrev pub or_empty : Option (List ℕ) → List ℕ
or_empty none = []
or_empty (some s) = s

unfoldable pub get_extension : List ℕ → List ℕ
unfolding from_last
get_extension t = or_empty (from_last (λ c. c == dot) t)

-- The name cut to 255 units, its extension kept. `substring` takes a negative end for 0.
unfoldable pub cap : List ℕ → List ℕ
unfolding get_extension
cap t =
    if ltb 255 (length t)
    then (let ext = get_extension t in take (255 - length ext) t ++ ext)
    else t

unfoldable pub or_unnamed : List ℕ → List ℕ
or_unnamed [] = unnamed
or_unnamed (c ∷ cs) = c ∷ cs

-- Everything before the default and the cap.
unfoldable pub clean : List ℕ → List ℕ
unfolding filter drop_while base_name strip_pairs replace_reserved trim_end is_control is_trimmed
clean t =
    let t = base_name (filter (λ c. not (c == 0)) t) in
    let t = filter (λ c. not (is_control c)) (strip_pairs false t) in
    trim_end (drop_while is_trimmed (replace_reserved t))

unfoldable pub sanitize_filename : List ℕ → List ℕ
unfolding clean cap or_unnamed
sanitize_filename [] = unnamed
sanitize_filename (c ∷ cs) = cap (or_unnamed (clean (c ∷ cs)))
