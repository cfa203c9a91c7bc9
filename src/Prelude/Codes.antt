-- ===== src/Prelude/Codes.antt =====
-- Texts as the lists of their code points: what the program takes apart or compares by order.
use Prim.Native.Nat.{ℕ}
use Prim.Native.Char.{code}
use Prim.Native.String.{String}
use mathlib.Core.Path.{◌≡◌}
use mathlib.Core.Logic.{◌↔◌}
use mathlib.Core.Bool.{Bool, true, false, ◌&&◌}
use mathlib.Core.List.{List, [], ◌∷◌}
use native.Mathlib.Omega.{arith}
use promptql.Prelude.Tests.{nat_eq, nat_eq_iff, ltb, if◌then◌else◌}

abbrev pub codes : String → List ℕ
codes String.[] = []
codes (String.◌∷◌ c s) = code c ∷ codes s

-- `==` of lists, by that of their items
unfoldable pub same_list {ℓ} : {A : Type ℓ} → (A → A → Bool) → List A → List A → Bool
same_list same [] [] = true
same_list same (x ∷ xs) (y ∷ ys) = same x y && same_list same xs ys
same_list same _ _ = false

pub same_list_iff {ℓ} :
    {A : Type ℓ} (same : A → A → Bool)
    → ((x y : A) → (same x y ≡ true) ↔ (x ≡ y))
    → (xs ys : List A) → (same_list same xs ys ≡ true) ↔ (xs ≡ ys)
unfolding same_list
same_list_iff same h [] [] = ground arith
same_list_iff same h [] (y ∷ ys) = ground arith
same_list_iff same h (x ∷ xs) [] = ground arith
same_list_iff same h (x ∷ xs) (y ∷ ys) = ground (arith, h x y, same_list_iff same h xs ys)

unfoldable pub same_codes : List ℕ → List ℕ → Bool
same_codes = same_list nat_eq

pub same_codes_iff : (xs ys : List ℕ) → (same_codes xs ys ≡ true) ↔ (xs ≡ ys)
unfolding same_codes
same_codes_iff = same_list_iff nat_eq nat_eq_iff

-- `<=` of texts
unfoldable pub codes_leb : List ℕ → List ℕ → Bool
codes_leb [] ys = true
codes_leb (x ∷ xs) [] = false
codes_leb (x ∷ xs) (y ∷ ys) = if ltb x y then true else (nat_eq x y && codes_leb xs ys)

unfoldable pub text_leb : String → String → Bool
text_leb s t = codes_leb (codes s) (codes t)
