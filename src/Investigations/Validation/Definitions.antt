-- ===== src/Investigations/Validation/Definitions.antt =====
-- investigations/planning/validation.py: the tools of the steps and `definitions_by_step_id`.
use promptql.Prelude.{
  ◌≡◌, refl, sym, ◌∙◌, ap, String, true, false, Option, none, some, is_some, List, [], ◌∷◌, map,
  is_empty, ◌==◌, eq_iff, arith, All, Bool-cases, inl, inr,
}
use mathlib.Core.Path.{transport}
use promptql.Prelude.Dict.{Dict, text_key, lookup, insert, lookup-insert}
use promptql.Investigations.Plan.{PlanStep, known, unique}
use promptql.Investigations.Validation.Contracts.{Contract}
use promptql.Investigations.Validation.Validator.{
  tool_failure, tool_failures, set_definition, definitions_by_step_id,
}
use promptql.Investigations.Validation.Sound.{both_empty, fail_if_lem}

module _ {Value : Type 0} where
  -- `setdefault` keeps what stands in the dictionary
  set_definition-lookup :
      (y : String) (found : Option (Contract Value)) (definitions : Dict String (Contract Value))
      (x : String) (contract : Contract Value)
      → lookup x definitions ≡ some contract
      → lookup x (set_definition y found definitions) ≡ some contract
  set_definition-lookup y none definitions x contract h = h
  set_definition-lookup y (some c) definitions x contract h =
      elim (Bool-cases (is_some (lookup y definitions))) [
        | inl e ↦ rw e h
        | inr e ↦
            rw (e, lookup-insert y x c definitions)
              (elim (Bool-cases (y == x)) [
                | inl s ↦
                    let f = ap (λ z. is_some (lookup z definitions)) ((eq_iff y x).0 s) in
                    let g = ap is_some h in ground (arith, e, f, g)
                | inr s ↦ rw s h
              ])
      ]

  abbrev pub IsFresh : Dict String (Contract Value) → PlanStep Value → Type 0
  IsFresh definitions step = is_some (lookup step.step_id definitions) ≡ false

  fresh_lem :
      (x : String) (contract : Contract Value) (definitions : Dict String (Contract Value))
      (steps : List (PlanStep Value))
      → known x (map (λ s. s.step_id) steps) ≡ false
      → All (IsFresh definitions) steps
      → All (IsFresh (insert x contract definitions)) steps
  fresh_lem x contract definitions [] h hf = tt
  fresh_lem x contract definitions (step ∷ steps) h hf = (
    rw (lookup-insert x step.step_id contract definitions) (elim (Bool-cases (x == step.step_id)) [
      | inl e ↦ ground (arith, e, eq_iff x step.step_id, eq_iff step.step_id x)
      | inr e ↦ rw e hf.0
    ]),
    fresh_lem x contract definitions steps (ground arith) hf.1,
  )

  module _ (registry : Dict String (Contract Value)) (allowed_tool_ids : List String) where
    abbrev pub IsAllowed : PlanStep Value → Type 0
    IsAllowed step =
        (contract : Contract Value) × (lookup step.tool_id registry ≡ some contract)
        × (known contract.definition.tool_id allowed_tool_ids ≡ true)

    allowed_lem :
        (step : PlanStep Value) (found : Option (Contract Value))
        → lookup step.tool_id registry ≡ found
        → is_empty (tool_failure registry allowed_tool_ids step found) ≡ true
        → IsAllowed step
    allowed_lem step none e h = ground arith
    allowed_lem step (some contract) e h = let f = fail_if_lem _ _ h in (contract, e, ground arith)

    pub tools_lem :
        (steps : List (PlanStep Value))
        → is_empty (tool_failures registry allowed_tool_ids steps) ≡ true
        → All IsAllowed steps
    unfolding tool_failures
    tools_lem [] h = tt
    tools_lem (step ∷ steps) h =
        let (h0, h1) = both_empty _ (tool_failures registry allowed_tool_ids steps) h in
        (allowed_lem step (lookup step.tool_id registry) refl h0, tools_lem steps h1)

    definitions_keep :
        (steps : List (PlanStep Value)) (definitions : Dict String (Contract Value)) (x : String)
        (contract : Contract Value)
        → lookup x definitions ≡ some contract
        → lookup x (definitions_by_step_id registry steps definitions) ≡ some contract
    unfolding definitions_by_step_id
    definitions_keep [] definitions x contract h = h
    definitions_keep (step ∷ steps) definitions x contract h =
        definitions_keep steps
          (set_definition step.step_id (lookup step.tool_id registry) definitions) x contract
          (set_definition-lookup step.step_id (lookup step.tool_id registry) definitions x contract
            h)

    pub definitions_lem :
        (steps : List (PlanStep Value)) (definitions : Dict String (Contract Value))
        → All IsAllowed steps
        → unique (map (λ s. s.step_id) steps) ≡ true
        → All (IsFresh definitions) steps
        → All
            (λ s.
              lookup s.step_id (definitions_by_step_id registry steps definitions)
              ≡ lookup s.tool_id registry)
            steps
    unfolding definitions_by_step_id
    definitions_lem [] definitions ha hu hf = tt
    definitions_lem (step ∷ steps) definitions ((contract, found, allowed), ha) hu hf =
        let set : set_definition step.step_id (lookup step.tool_id registry) definitions
            ≡ insert step.step_id contract definitions =
          rw (found, hf.0) refl in
        transport
          (ap
            (λ z.
              All
                (λ s.
                  lookup s.step_id (definitions_by_step_id registry steps z)
                  ≡ lookup s.tool_id registry)
                (step ∷ steps))
            (sym set))
          (
            definitions_keep steps (insert step.step_id contract definitions) step.step_id contract
                  (rw
                    (
                      lookup-insert step.step_id step.step_id contract definitions,
                      (eq_iff step.step_id step.step_id).1 refl,
                    )
                    refl)
                ∙ sym found,
            definitions_lem steps (insert step.step_id contract definitions) ha (ground arith)
                (fresh_lem step.step_id contract definitions steps (ground arith) hf.1),
          )
