-- ===== src/Prelude/Indexed.antt =====
-- Dicts that are made of the items of a list by their identifiers, `{item.id: item for item in items}`,
-- and the selection of items by a list of identifiers.
use mathlib.Core.Path.{◌≡◌, refl, sym, ◌∙◌, subst}
use mathlib.Core.Bool.{true, false}
use mathlib.Core.Option.{Option, none, some}
use mathlib.Core.List.{List, [], ◌∷◌}
use Prim.Native.String.{String}
use native.Mathlib.Omega.{arith}
use promptql.Prelude.Tests.{if◌then◌else◌, is_some}
use promptql.Prelude.Text.{◌==◌, eq_iff}
use promptql.Prelude.Lists.{any, All, All-imp}
use promptql.Prelude.Dict.{Dict, text_key, lookup, insert, lookup-insert}

abbrev pub cons_some : {A : Type 0} → Option A → Option (List A) → Option (List A)
cons_some (some x) (some xs) = some (x ∷ xs)
cons_some _ _ = none

-- `none` where an identifier is not in the index
unfoldable pub select : {A : Type 0} → Dict String A → List String → Option (List A)
select index [] = some []
select index (id ∷ ids) = cons_some (lookup id index) (select index ids)

module _ {A : Type 0} (id_of : A → String) where
  unfoldable pub index_on : Dict String A → List A → Dict String A
  index_on index [] = index
  index_on index (x ∷ xs) = index_on (insert (id_of x) x index) xs

  -- the last item that has the identifier
  abbrev pub latest : String → List A → Option A
  latest id [] = none
  latest id (x ∷ xs) = elim (latest id xs) [
    | some later ↦ some later
    | none ↦ if (id_of x) == id then some x else none
  ]

  abbrev pub Selects : List A → List String → List A → Type 0
  Selects xs [] [] = Unit
  Selects xs (id ∷ ids) (x ∷ selected) = (latest id xs ≡ some x) × Selects xs ids selected
  Selects xs _ _ = ⊥

  lookup-index :
      (id : String) (xs : List A) (index : Dict String A)
      → lookup id (index_on index xs) ≡ elim (latest id xs) as (λ _. Option A) [
        | some later ↦ some later
        | none ↦ lookup id index
      ]
  unfolding index_on
  lookup-index id [] index = refl
  lookup-index id (x ∷ xs) index =
      ground
        (arith, lookup-index id xs (insert (id_of x) x index), lookup-insert (id_of x) id x index)

  pub lookup-index_on : (id : String) (xs : List A) → lookup id (index_on [] xs) ≡ latest id xs
  unfolding lookup
  lookup-index_on id xs = ground (arith, lookup-index id xs [])

  -- the item found has the identifier
  pub latest_id : (id : String) (xs : List A) (x : A) → latest id xs ≡ some x → id_of x ≡ id
  latest_id id [] x h = ground arith
  latest_id id (y ∷ xs) x h = ground (arith, latest_id id xs x, eq_iff (id_of y) id)

  -- an item that has the identifier makes one be found
  pub latest_some :
      (id : String) (xs : List A)
      → any (λ x. id_of x == id) xs ≡ true
      → is_some (latest id xs) ≡ true
  latest_some id [] h = ground arith
  latest_some id (y ∷ xs) h = ground (arith, latest_some id xs)

  pub Selects-found :
      (xs : List A) (ids : List String) (selected : List A)
      → Selects xs ids selected
      → All (λ id. is_some (lookup id (index_on [] xs)) ≡ true) ids
  Selects-found xs [] selected h = tt
  Selects-found xs (id ∷ ids) [] h = elim h [ ]
  Selects-found xs (id ∷ ids) (x ∷ selected) h =
      (ground (arith, lookup-index_on id xs), Selects-found xs ids selected h.1)

  -- no two items have the same identifier
  abbrev pub AreApart : List A → Type 0
  AreApart [] = Unit
  AreApart (x ∷ xs) = (any (λ y. id_of y == id_of x) xs ≡ false) × AreApart xs

  latest-none :
      (id : String) (xs : List A) → any (λ x. id_of x == id) xs ≡ false → latest id xs ≡ none
  latest-none id [] h = refl
  latest-none id (x ∷ xs) h = ground (arith, latest-none id xs)

  pub latest_apart : (xs : List A) → AreApart xs → All (λ x. latest (id_of x) xs ≡ some x) xs
  latest_apart [] h = tt
  latest_apart (x ∷ xs) h = (
    ground (arith, latest-none (id_of x) xs h.0, eq_iff (id_of x) (id_of x)),
    All-imp (λ y e. rw e refl) xs (latest_apart xs h.1),
  )

pub consed :
    {A : Type 0} (x : Option A) (y : Option (List A)) (selected : List A)
    → cons_some x y ≡ some selected
    → (a : A) × (rest : List A) × (x ≡ some a) × (y ≡ some rest) × (a ∷ rest ≡ selected)
consed (some a) (some rest) selected h = (a, rest, refl, refl, cc)
consed (some a) none selected h = ground arith
consed none y selected h = ground arith

module _ {A : Type 0} (id_of : A → String) (xs : List A) where
  pub select_sound :
      (ids : List String) (selected : List A)
      → select (index_on id_of [] xs) ids ≡ some selected
      → Selects id_of xs ids selected
  unfolding select
  select_sound [] [] h = tt
  select_sound [] (x ∷ selected) h = cc
  select_sound (id ∷ ids) selected h =
      let (x, rest, e, f, g) =
        consed (lookup id (index_on id_of [] xs)) (select (index_on id_of [] xs) ids) selected h in
      subst (Selects id_of xs (id ∷ ids)) g
        (sym (lookup-index_on id_of id xs) ∙ e, select_sound ids rest f)

  pub select_complete :
      (ids : List String) (selected : List A)
      → Selects id_of xs ids selected
      → select (index_on id_of [] xs) ids ≡ some selected
  unfolding select
  select_complete [] [] h = refl
  select_complete [] (x ∷ selected) h = elim h [ ]
  select_complete (id ∷ ids) [] h = elim h [ ]
  select_complete (id ∷ ids) (x ∷ selected) h =
      ground (arith, lookup-index_on id_of id xs, select_complete ids selected h.1)
