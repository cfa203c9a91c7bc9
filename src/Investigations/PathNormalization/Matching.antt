-- ===== src/Investigations/PathNormalization/Matching.antt =====
-- investigations/path_normalization.py: what `paths_match` decides.
use promptql.Prelude.{
  ℕ, zero, suc, ◌-◌, ◌≤◌, ◌≡◌, refl, sym, ap, ◌∙◌, ◌↔◌, ◌⊎◌, inl, inr, String, true, List, [], ◌∷◌,
  ◌++◌, length, length-append, leb, arith, Bool-cases,
}
use promptql.Prelude.Codes.{same_list_iff, same_codes, same_codes_iff}
use promptql.Investigations.PathNormalization.{
  normalized_path, split_path, from, ends_with, segments_match, paths_match,
}

-- `b` ends with the segments of `a`, of which there are two at least
abbrev pub IsTail : List (List ℕ) → List (List ℕ) → Type 0
IsTail a b = (2 ≤ length a) × (before : List (List ℕ)) × (b ≡ before ++ a)

abbrev pub NameOneFile : String → String → Type 0
NameOneFile a b =
    (normalized_path a ≡ normalized_path b)
    ⊎ (IsTail (split_path (normalized_path a)) (split_path (normalized_path b))
        ⊎ IsTail (split_path (normalized_path b)) (split_path (normalized_path a)))

from-append : {A : Type 0} (xs ys : List A) → from (length xs) (xs ++ ys) ≡ ys
unfolding from
from-append [] ys = refl
from-append (x ∷ xs) ys = from-append xs ys

-- the items that `from` leaves out
from_split : {A : Type 0} (n : ℕ) (xs : List A) → (before : List A) × (xs ≡ before ++ from n xs)
unfolding from
from_split zero xs = ([], refl)
from_split (suc n) [] = ([], refl)
from_split (suc n) (x ∷ xs) = let (before, e) = from_split n xs in (x ∷ before, ap (λ z. x ∷ z) e)

from_tail : {A : Type 0} (before a b : List A) → b ≡ before ++ a → from (length b - length a) b ≡ a
from_tail before a b e =
    let n : length b - length a ≡ length before =
      omega (arith, ap length e, length-append before a) in
    rw (n, e) (from-append before a)

ends_with_sound : (a b : List (List ℕ)) → ends_with a b ≡ true → IsTail a b
unfolding ends_with
ends_with_sound a b h =
    let (before, e) = from_split (length b - length a) b in
    let same = same_list_iff same_codes same_codes_iff (from (length b - length a) b) a in
    (ground arith, before, e ∙ ap (λ z. before ++ z) (same.0 (ground arith)))

ends_with_complete : (a b : List (List ℕ)) → IsTail a b → ends_with a b ≡ true
unfolding ends_with
ends_with_complete a b (two, before, e) =
    let same = same_list_iff same_codes same_codes_iff (from (length b - length a) b) a in
    let equal = same.1 (from_tail before a b e) in ground (arith, equal)

tail_eq : (before a b : List (List ℕ)) → a ≡ before ++ b → length a ≤ length b → b ≡ a
tail_eq [] a b e h = sym e
tail_eq (x ∷ before) a b e h = absurd (omega (arith, ap length e, length-append before b))

segments_match_tail : (a b : List (List ℕ)) → IsTail a b → segments_match a b ≡ true
unfolding segments_match
segments_match_tail a b t =
    let whole = ends_with_complete a b t in
    let (two, before, e) = t in ground (arith, whole, ap length e, length-append before a)

segments_match_tail_back : (a b : List (List ℕ)) → IsTail b a → segments_match a b ≡ true
unfolding segments_match
segments_match_tail_back a b (two, before, e) = elim (Bool-cases (leb (length a) (length b))) [
  | inl k ↦
      let same = tail_eq before a b e (ground arith) in
      let whole = ends_with_complete a b (omega (arith, ap length same), [], same) in
      ground (arith, k, whole)
  | inr k ↦ let whole = ends_with_complete b a (two, before, e) in ground (arith, k, whole)
]

-- the segments are compared with the shorter list first
segments_match_iff : (a b : List (List ℕ)) → (segments_match a b ≡ true) ↔ (IsTail a b ⊎ IsTail b a)
unfolding segments_match
segments_match_iff a b = (
  (λ h. elim (Bool-cases (leb (length a) (length b))) [
    | inl e ↦ inl (ends_with_sound a b (ground (arith, e)))
    | inr e ↦ inr (ends_with_sound b a (ground (arith, e)))
  ]),
  (λ h. elim h [ inl t ↦ segments_match_tail a b t | inr t ↦ segments_match_tail_back a b t ]),
)

-- Two paths match exactly when they are equal once backslashes are slashes and a leading `./` is
-- gone, or when one of them, split at its slashes, has at least two segments and the other ends
-- with them.
pub paths_match_iff : (a b : String) → (paths_match a b ≡ true) ↔ NameOneFile a b
unfolding paths_match
paths_match_iff a b =
    let equal = same_codes_iff (normalized_path a) (normalized_path b) in
    let tail =
      segments_match_iff (split_path (normalized_path a)) (split_path (normalized_path b)) in
    elim (Bool-cases (same_codes (normalized_path a) (normalized_path b))) [
      | inl e ↦ (λ h. inl (equal.0 e), λ h. rw e refl)
      | inr e ↦ (
        (λ h. inr (tail.0 (ground (arith, e)))),
        (λ h. elim h [ inl k ↦ rw (equal.1 k) refl | inr t ↦ rw (e, tail.1 t) refl ]),
      )
    ]
