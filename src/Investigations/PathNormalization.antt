-- ===== src/Investigations/PathNormalization.antt =====
-- investigations/path_normalization.py: when two texts name the same file. A path is the list of its
-- code points.
pub mod Matching
use promptql.Prelude.{
  ℕ, zero, suc, ◌-◌, String, Bool, true, false, ◌&&◌, List, [], ◌∷◌, length, leb, ltb, nat_eq,
  if◌then◌else◌,
}
use promptql.Prelude.Codes.{codes, same_list, same_codes}

-- `path.replace("\\", "/")`
unfoldable pub with_slashes : List ℕ → List ℕ
with_slashes [] = []
with_slashes (c ∷ path) = (if nat_eq c 92 then 47 else c) ∷ with_slashes path

-- `.removeprefix("./")`
unfoldable pub without_dot : List ℕ → List ℕ
without_dot (d ∷ s ∷ path) = if nat_eq d 46 && nat_eq s 47 then path else d ∷ s ∷ path
without_dot path = path

unfoldable pub normalized_path : String → List ℕ
normalized_path path = without_dot (with_slashes (codes path))

-- `.split("/")`; the result is not empty
abbrev pub add_code : ℕ → List (List ℕ) → List (List ℕ)
add_code c [] = (c ∷ []) ∷ []
add_code c (segment ∷ segments) = (c ∷ segment) ∷ segments

unfoldable pub split_path : List ℕ → List (List ℕ)
split_path [] = [] ∷ []
split_path (c ∷ path) = if nat_eq c 47 then [] ∷ split_path path else add_code c (split_path path)

-- `xs[n:]`
unfoldable pub from : {A : Type 0} → ℕ → List A → List A
from zero xs = xs
from (suc n) [] = []
from (suc n) (x ∷ xs) = from n xs

-- the comparison of the segments of two paths, the shorter one first
unfoldable pub ends_with : List (List ℕ) → List (List ℕ) → Bool
ends_with shorter longer =
    if ltb (length shorter) 2
    then false
    else same_list same_codes (from (length longer - length shorter) longer) shorter

unfoldable pub segments_match : List (List ℕ) → List (List ℕ) → Bool
segments_match a b = if leb (length a) (length b) then ends_with a b else ends_with b a

unfoldable pub paths_match : String → String → Bool
paths_match a b =
    if same_codes (normalized_path a) (normalized_path b)
    then true
    else segments_match (split_path (normalized_path a)) (split_path (normalized_path b))
