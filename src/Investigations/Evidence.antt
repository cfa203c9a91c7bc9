-- ===== src/Investigations/Evidence.antt =====
-- investigations/evidence_store.py: `EvidenceStore`. Of an evidence the model keeps its identifier
-- and the attributes of its content.
use promptql.Prelude.{String, Option, none, some, List, [], ◌∷◌, is_some, if◌then◌else◌}
use promptql.Prelude.Dict.{Dict, text_key, lookup, insert}

pub record Evidence (Value : Type 0) : Type 0 where
  pub evidence_id : String
  pub content : String → Option Value

abbrev pub EvidenceStore : Type 0 → Type 0
EvidenceStore Value = Dict String (Evidence Value)

module _ {Value : Type 0} where
  -- the first evidence of an identifier stays
  unfoldable pub put : EvidenceStore Value → Evidence Value → EvidenceStore Value
  put store evidence =
      if is_some (lookup evidence.evidence_id store)
      then store
      else insert evidence.evidence_id evidence store

  unfoldable pub put_all : EvidenceStore Value → List (Evidence Value) → EvidenceStore Value
  put_all store [] = store
  put_all store (evidence ∷ more) = put_all (put store evidence) more

  abbrev pub cons_found :
      Option (Evidence Value) → Option (List (Evidence Value)) → Option (List (Evidence Value))
  cons_found (some e) (some es) = some (e ∷ es)
  cons_found _ _ = none

  -- `none` where it raises `KeyError`
  unfoldable pub get_many : EvidenceStore Value → List String → Option (List (Evidence Value))
  get_many store [] = some []
  get_many store (evidence_id ∷ ids) = cons_found (lookup evidence_id store) (get_many store ids)
