-- ===== src/Prelude/Dict.antt =====
-- Python's `dict`: the entries in insertion order; an assignment to a known key keeps its place.
use mathlib.Core.Path.{◌≡◌, refl}
use mathlib.Core.Logic.{◌↔◌}
use mathlib.Core.Bool.{Bool, true}
use mathlib.Core.Option.{Option, none, some}
use mathlib.Core.List.{List, [], ◌∷◌}
use Prim.Native.Nat.{ℕ}
use Prim.Native.String.{String}
use native.Mathlib.Omega.{arith}
use promptql.Prelude.Tests.{nat_eq, nat_eq_iff, if◌then◌else◌}
use promptql.Prelude.Text.{◌==◌, eq_iff}

-- `==` of a type whose values are keys
pub record Key {ℓ} (K : Type ℓ) : Type ℓ where
  pub same : K → K → Bool
  pub same_iff : (a b : K) → (same a b ≡ true) ↔ (a ≡ b)

instance abbrev pub number_key : Key ℕ
number_key = record { same = nat_eq; same_iff = nat_eq_iff }

instance abbrev pub text_key : Key String
text_key = record { same = ◌==◌; same_iff = eq_iff }

abbrev pub Dict {ℓ} : Type ℓ → Type ℓ → Type ℓ
Dict K V = List (K × V)

module _ {ℓ} {K V : Type ℓ} ⦃key : Key K⦄ where
  -- `d.get(k)`
  unfoldable pub lookup : K → Dict K V → Option V
  lookup k [] = none
  lookup k ((j, v) ∷ d) = if key.same j k then some v else lookup k d

  -- `d[k] = v`
  unfoldable pub insert : K → V → Dict K V → Dict K V
  insert k v [] = (k, v) ∷ []
  insert k v ((j, w) ∷ d) = if key.same j k then (j, v) ∷ d else (j, w) ∷ insert k v d

  pub lookup-insert :
      (k j : K) (v : V) (d : Dict K V)
      → lookup j (insert k v d) ≡ (if key.same k j then some v else lookup j d)
  unfolding lookup insert
  lookup-insert k j v [] = refl
  lookup-insert k j v ((i, w) ∷ d) =
      ground (arith, key.same_iff i k, key.same_iff i j, key.same_iff k j, lookup-insert k j v d)
