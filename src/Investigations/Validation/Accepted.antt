-- ===== src/Investigations/Validation/Accepted.antt =====
-- investigations/planning/validation.py: what a plan that `PlanValidator` accepts keeps to.
use promptql.Prelude.{
  ◌≡◌, refl, sym, ◌∙◌, ap, String, true, false, Option, none, some, List, [], ◌∷◌, ◌++◌, is_empty,
  arith, All, All-imp, All-split, ◌⊎◌, inl, inr,
}
use mathlib.Core.Path.{transport}
use promptql.Prelude.Dict.{Dict, text_key, lookup}
use promptql.Investigations.Plan.{InvestigationPlan, PlanStep, known}
use promptql.Investigations.Validation.Order.{steps_by_id, step_edges, plan_edges}
use promptql.Investigations.Validation.Sorted.{IsOrdered, steps_by_id-All, plan_order-IsOrdered}
use promptql.Investigations.Validation.Contracts.{
  PlanValidationFailure, PlanValidationResult, accepted, rejected, Contract,
}
use promptql.Investigations.Validation.Validator.{
  cycle_failures, dependency_failures, duplicate_failures, plan_dependency_failures, tool_failures,
  definitions_by_step_id,
}
use promptql.Investigations.Validation.Arguments.{
  contract_failures, model_failures, argument_failures, required_failures, steps_failures,
  validation_result, plan_failures, validate_in, validate,
}
use promptql.Investigations.Validation.Sound.{
  earlier, IsSound, IsAccepted, both_empty, fail_if_lem, Follows-earlier, dependencies_lem,
  duplicates_lem, required_lem, declared_lem, arguments_lem, model_lem,
}
use promptql.Investigations.Validation.Definitions.{IsAllowed, tools_lem, definitions_lem, IsFresh}

module _ {Value : Type 0} where
  module _ (registry : Dict String (Contract Value)) (allowed_tool_ids : List String) where
    contract_lem :
        (ids : List String) (definitions : Dict String (Contract Value)) (order : List String)
        (step : PlanStep Value)
        → lookup step.step_id definitions ≡ lookup step.tool_id registry
        → IsAllowed registry allowed_tool_ids step
        → All (λ d. known d (earlier step.step_id order) ≡ true) step.depends_on
        → is_empty (contract_failures ids definitions step (lookup step.step_id definitions)) ≡ true
        → IsSound registry allowed_tool_ids order step
    contract_lem ids definitions order step e (contract, found, allowed) hd h =
        let h' =
          transport
            (ap (λ z. is_empty (contract_failures ids definitions step z) ≡ true) (e ∙ found)) h in
        let required = required_failures step contract.input_fields in
        let arguments =
          argument_failures ids definitions step contract.input_fields step.arguments in
        let (h1, h3) = both_empty (required ++ arguments) (model_failures step contract) h' in
        let (h0, h2) = both_empty required arguments h1 in
        (
          (
            contract,
            found,
            allowed,
            required_lem step contract.input_fields h0,
            arguments_lem ids definitions step contract.input_fields step.arguments h2,
            model_lem step contract h3,
          ),
          hd,
          declared_lem ids definitions step contract.input_fields step.arguments h2,
        )

    steps_lem :
        (ids : List String) (definitions : Dict String (Contract Value)) (order : List String)
        (steps : List (PlanStep Value))
        → All (λ s. lookup s.step_id definitions ≡ lookup s.tool_id registry) steps
        → All (IsAllowed registry allowed_tool_ids) steps
        → All (λ s. All (λ d. known d (earlier s.step_id order) ≡ true) s.depends_on) steps
        → is_empty (steps_failures ids definitions steps) ≡ true
        → All (IsSound registry allowed_tool_ids order) steps
    unfolding steps_failures
    steps_lem ids definitions order [] hl ha hd h = tt
    steps_lem ids definitions order (step ∷ steps) hl ha hd h =
        let (h0, h1) =
          both_empty (contract_failures ids definitions step (lookup step.step_id definitions))
            (steps_failures ids definitions steps) h in
        (
          contract_lem ids definitions order step hl.0 ha.0 hd.0 h0,
          steps_lem ids definitions order steps hl.1 ha.1 hd.1 h1,
        )

  order_lem :
      (ids : List String) (order : List String) (steps : List (PlanStep Value))
      → All
          (λ s.
            All
              (λ e. e.1 ≡ s.step_id → known e.0 (earlier s.step_id order) ≡ true)
              (plan_edges ids steps))
          steps
      → is_empty (plan_dependency_failures ids steps) ≡ true
      → All (λ s. All (λ d. known d (earlier s.step_id order) ≡ true) s.depends_on) steps
  unfolding plan_dependency_failures plan_edges
  order_lem ids order [] he h = tt
  order_lem ids order (step ∷ steps) he h =
      let (h0, h1) =
        both_empty (dependency_failures ids step.step_id step.depends_on)
          (plan_dependency_failures ids steps) h in
      (
        dependencies_lem ids step.step_id step.depends_on h0 (earlier step.step_id order)
            (All-split _ (step_edges ids step.step_id step.depends_on) (plan_edges ids steps)
              he.0).0,
        order_lem ids order steps
            (All-imp
              (λ s hs.
                (All-split _ (step_edges ids step.step_id step.depends_on) (plan_edges ids steps)
                  hs).1)
              steps he.1)
            h1,
      )

  IsFresh-of_empty : (steps : List (PlanStep Value)) → All (IsFresh []) steps
  unfolding lookup
  IsFresh-of_empty [] = tt
  IsFresh-of_empty (step ∷ steps) = (refl, IsFresh-of_empty steps)

  module _ (registry : Dict String (Contract Value)) (allowed_tool_ids : List String) where
    accepted_lem :
        (plan : InvestigationPlan Value) (order : List String)
        → IsOrdered
            (steps_by_id plan.steps [])
            (plan_edges (steps_by_id plan.steps []) plan.steps)
            (some order)
        → is_empty (plan_failures registry allowed_tool_ids plan (some order)) ≡ true
        → IsAccepted registry allowed_tool_ids plan.steps order
    unfolding plan_failures
    accepted_lem plan order (hu, hk, hf) h =
        let ids = steps_by_id plan.steps [] in
        let definitions = definitions_by_step_id registry plan.steps [] in
        let (h1, h_steps) = both_empty _ (steps_failures ids definitions plan.steps) h in
        let (h2, _) = both_empty _ (cycle_failures (some order)) h1 in
        let (h3, h_edges) = both_empty _ (plan_dependency_failures ids plan.steps) h2 in
        let (h4, h_tools) = both_empty _ (tool_failures registry allowed_tool_ids plan.steps) h3 in
        let (h_size, h_ids) = both_empty _ (duplicate_failures plan.steps []) h4 in
        let size = fail_if_lem _ _ h_size in
        let (unique_ids, same_ids) = duplicates_lem plan.steps [] refl h_ids in
        let allowed = tools_lem registry allowed_tool_ids plan.steps h_tools in
        let placed = All-imp (λ s e. hk s.step_id ∙ e) plan.steps (steps_by_id-All plan.steps []) in
        (
          ground (arith, size),
          unique_ids,
          hu,
          (λ x. hk x ∙ ap (known x) same_ids),
          steps_lem registry allowed_tool_ids ids definitions order plan.steps
              (definitions_lem registry allowed_tool_ids plan.steps [] allowed unique_ids
                (IsFresh-of_empty plan.steps))
              allowed
              (order_lem ids order plan.steps
                (All-imp
                  (λ s e. Follows-earlier (plan_edges ids plan.steps) [] order s.step_id hf e)
                  plan.steps placed)
                h_edges)
              h_steps,
        )

    -- a rejection with an error, or an acceptance
    abbrev pub IsJudged : InvestigationPlan Value → PlanValidationResult Value → Type 0
    IsJudged plan result =
        ((result ≡ rejected result.errors) × (is_empty result.errors ≡ false))
        ⊎ ((order : List String) × (result
              ≡ accepted (record { plan = plan; topological_step_ids = order }))
            × IsAccepted registry allowed_tool_ids plan.steps order)

    judged_lem :
        (plan : InvestigationPlan Value) (order : Option (List String))
        (failures : List PlanValidationFailure)
        → (is_empty failures ≡ true
            → (ids : List String) × (order ≡ some ids)
              × IsAccepted registry allowed_tool_ids plan.steps ids)
        → (result : PlanValidationResult Value) × (validation_result plan failures order
            ≡ some result)
          × IsJudged plan result
    judged_lem plan order [] h =
        let (ids, e, kept) = h refl in
        (
          accepted (record { plan = plan; topological_step_ids = ids }),
          ap (validation_result plan []) e,
          inr (ids, refl, kept),
        )
    judged_lem plan order (failure ∷ failures) h =
        (rejected (failure ∷ failures), refl, inl (refl, refl))

    cycle_lem :
        (plan : InvestigationPlan Value)
        → is_empty (plan_failures registry allowed_tool_ids plan none) ≡ true
        → true ≡ false
    unfolding plan_failures
    cycle_lem plan h =
        let ids = steps_by_id plan.steps [] in
        let (h1, _) =
          both_empty _
            (steps_failures ids (definitions_by_step_id registry plan.steps []) plan.steps) h in
        let (_, h2) = both_empty _ (cycle_failures none) h1 in sym h2

    order_of_empty :
        (plan : InvestigationPlan Value) (order : Option (List String))
        → IsOrdered
            (steps_by_id plan.steps [])
            (plan_edges (steps_by_id plan.steps []) plan.steps)
            order
        → is_empty (plan_failures registry allowed_tool_ids plan order) ≡ true
        → (ids : List String) × (order ≡ some ids)
          × IsAccepted registry allowed_tool_ids plan.steps ids
    order_of_empty plan (some ids) ho h = (ids, refl, accepted_lem plan ids ho h)
    order_of_empty plan none ho h = ground (arith, cycle_lem plan h)

    -- Validating a plan returns a result and never fails its `assert`: the plan is rejected with at
    -- least one error, or it is accepted with an order. An accepted plan has no more than the
    -- allowed number of steps, with different identifiers; the order holds the identifiers of its
    -- steps and no other, each once; the tool of each step is registered and allowed; the step has
    -- all arguments that its tool requires and no unknown ones, each literal suits its field, and
    -- the tool accepts them together if all are literals; all dependencies of a step stand before it
    -- in the order, and the source of each reference is one of them.
    pub validate-IsJudged :
        (plan : InvestigationPlan Value)
        → (result : PlanValidationResult Value) × (validate registry allowed_tool_ids plan
            ≡ some result)
          × IsJudged plan result
    unfolding validate
    validate-IsJudged plan =
        let (order, e, ho) = plan_order-IsOrdered plan.steps in
        let (result, v, judged) =
          judged_lem plan order (plan_failures registry allowed_tool_ids plan order)
            (order_of_empty plan order ho) in
        (result, ap (validate_in registry allowed_tool_ids plan) e ∙ v, judged)
