-- ===== src/Prelude/Sorting.antt =====
-- `sorted(..., key=...)` for a key that is a text: a stable sort by insertion.
use Prim.Native.String.{String}
use mathlib.Core.Path.{◌≡◌, refl}
use mathlib.Core.Bool.{Bool, ◌||◌}
use mathlib.Core.List.{List, [], ◌∷◌}
use native.Mathlib.Omega.{arith}
use promptql.Prelude.Tests.{if◌then◌else◌}
use promptql.Prelude.Lists.{any, is_empty}
use promptql.Prelude.Codes.{text_leb}

module _ {ℓ} {A : Type ℓ} (key : A → String) where
  -- before its equals, since `sort` takes the items from the last to the first
  unfoldable pub insert_by : A → List A → List A
  insert_by x [] = x ∷ []
  insert_by x (y ∷ ys) = if text_leb (key x) (key y) then x ∷ y ∷ ys else y ∷ insert_by x ys

  unfoldable pub sorted_by : List A → List A
  sorted_by [] = []
  sorted_by (x ∷ xs) = insert_by x (sorted_by xs)

  any-insert : (p : A → Bool) (x : A) (ys : List A) → any p (insert_by x ys) ≡ (p x || any p ys)
  unfolding insert_by
  any-insert p x [] = refl
  any-insert p x (y ∷ ys) = ground (arith, any-insert p x ys)

  pub any-sorted : (p : A → Bool) (xs : List A) → any p (sorted_by xs) ≡ any p xs
  unfolding sorted_by
  any-sorted p [] = refl
  any-sorted p (x ∷ xs) = ground (arith, any-insert p x (sorted_by xs), any-sorted p xs)

  is_empty-insert : (x : A) (ys : List A) → is_empty (x ∷ ys) ≡ is_empty (insert_by x ys)
  unfolding insert_by
  is_empty-insert x [] = refl
  is_empty-insert x (y ∷ ys) = ground arith

  pub is_empty-sorted : (xs : List A) → is_empty xs ≡ is_empty (sorted_by xs)
  unfolding sorted_by
  is_empty-sorted [] = refl
  is_empty-sorted (x ∷ xs) = is_empty-insert x (sorted_by xs)
