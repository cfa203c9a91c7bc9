-- ===== src/Investigations/Validation/Arguments.antt =====
-- investigations/planning/validation.py: the arguments of the steps, and `PlanValidator.validate`.
use promptql.Prelude.{
  String, ◌&&◌, not, Option, none, some, List, [], ◌∷◌, ◌++◌, length, map, ltb, is_none,
  if◌then◌else◌,
}
use promptql.Prelude.Dict.{Dict, text_key, lookup}
use promptql.Investigations.Plan.{
  InvestigationPlan, PlanStep, PlanArgument, PlanArgumentValue, known,
}
use promptql.Investigations.Validation.Order.{steps_by_id, plan_order}
use promptql.Investigations.Validation.Contracts.{
  PlanValidationFailureCode, PlanValidationFailure, PlanValidationResult, accepted, rejected,
  annotation_is_compatible, Annotation, InputField, Contract,
}
use promptql.Investigations.Validation.Validator.{
  max_plan_steps, step_failure, reference_failure, plan_failure, fail_if, cycle_failures,
  duplicate_failures, plan_dependency_failures, all_literal, literal_values, tool_failures,
  definitions_by_step_id,
}

module _ {Value : Type 0} where
  unfoldable pub required_failures :
      PlanStep Value → List (String × InputField Value) → List PlanValidationFailure
  required_failures step [] = []
  required_failures step ((name, field) ∷ fields) =
      fail_if (field.is_required && not (known name (map (λ a. a.name) step.arguments))) (
        step_failure PlanValidationFailureCode.missing_required_argument
          "The step omits a required tool argument." step.step_id (some step.tool_id) none
          (some name))
      ++ required_failures step fields

  -- `_validate_literal_model`
  abbrev pub model_failures : PlanStep Value → Contract Value → List PlanValidationFailure
  model_failures step contract =
      fail_if
        (all_literal step.arguments
          && is_none (contract.definition.validate_arguments (literal_values step.arguments [])))
        (step_failure PlanValidationFailureCode.invalid_literal_argument
          "Literal arguments do not satisfy the complete tool input contract." step.step_id
          (some step.tool_id) none none)

  module _ (ids : List String) (definitions : Dict String (Contract Value)) where
    -- the part of `_validate_reference` about the field of the source
    abbrev pub field_failures :
        PlanStep Value
        → String
        → String
        → String
        → Annotation
        → Option Annotation
        → List PlanValidationFailure
    field_failures step argument_name source field destination none =
        reference_failure PlanValidationFailureCode.unknown_output_field
          "The referenced field is outside the source tool output contract." step.step_id source
          (some field) argument_name
        ∷ []
    field_failures step argument_name source field destination (some source_annotation) =
        fail_if (not (annotation_is_compatible source_annotation destination)) (
          reference_failure PlanValidationFailureCode.reference_type_mismatch
            "The referenced output type is incompatible with the destination argument." step.step_id
            source (some field) argument_name)

    abbrev pub source_failures :
        PlanStep Value
        → String
        → String
        → String
        → Annotation
        → Option (Contract Value)
        → List PlanValidationFailure
    source_failures step argument_name source field destination none = []
    source_failures step argument_name source field destination (some contract) =
        field_failures step argument_name source field destination
          (lookup field contract.output_fields)

    -- `_validate_reference`
    unfoldable pub validate_reference :
        PlanStep Value → String → String → String → Annotation → List PlanValidationFailure
    validate_reference step argument_name source field destination =
        if not (known source ids)
        then reference_failure PlanValidationFailureCode.unknown_output_reference_step
            "A referenced output step does not exist." step.step_id source none argument_name
          ∷ []
        else fail_if (not (known source step.depends_on)) (
            reference_failure PlanValidationFailureCode.missing_reference_dependency
              "An output reference must also be declared as a dependency." step.step_id source none
              argument_name)
          ++ source_failures step argument_name source field destination (lookup source definitions)

    abbrev pub value_failures :
        PlanStep Value
        → String
        → PlanArgumentValue Value
        → Option (InputField Value)
        → List PlanValidationFailure
    value_failures step name value none =
        step_failure PlanValidationFailureCode.unknown_argument
          "The step names an argument outside the tool input contract." step.step_id
          (some step.tool_id) none (some name)
        ∷ []
    value_failures step name (PlanArgumentValue.literal value) (some field) =
        fail_if (not (field.accepts value)) (
          step_failure PlanValidationFailureCode.invalid_literal_argument
            "A literal argument does not match the tool input contract." step.step_id
            (some step.tool_id) none (some name))
    value_failures step name (PlanArgumentValue.step_output_ref source output) (some field) =
        validate_reference step name source output field.annotation_of

    unfoldable pub argument_failures :
        PlanStep Value
        → Dict String (InputField Value)
        → List (PlanArgument Value)
        → List PlanValidationFailure
    argument_failures step fields [] = []
    argument_failures step fields (a ∷ arguments) =
        value_failures step a.name a.value (lookup a.name fields)
        ++ argument_failures step fields arguments

    abbrev pub contract_failures :
        PlanStep Value → Option (Contract Value) → List PlanValidationFailure
    contract_failures step none = []
    contract_failures step (some contract) =
        required_failures step contract.input_fields
        ++ argument_failures step contract.input_fields step.arguments
        ++ model_failures step contract

    unfoldable pub steps_failures : List (PlanStep Value) → List PlanValidationFailure
    steps_failures [] = []
    steps_failures (step ∷ steps) =
        contract_failures step (lookup step.step_id definitions) ++ steps_failures steps

  -- `none` where the `assert` raises
  abbrev pub validation_result :
      InvestigationPlan Value
      → List PlanValidationFailure
      → Option (List String)
      → Option (PlanValidationResult Value)
  validation_result plan (failure ∷ failures) order = some (rejected (failure ∷ failures))
  validation_result plan [] none = none
  validation_result plan [] (some order) =
      some (accepted (record { plan = plan; topological_step_ids = order }))

  module _ (registry : Dict String (Contract Value)) (allowed_tool_ids : List String) where
    unfoldable pub plan_failures :
        InvestigationPlan Value → Option (List String) → List PlanValidationFailure
    plan_failures plan order =
        let ids = steps_by_id plan.steps [] in
        fail_if (ltb max_plan_steps (length plan.steps)) (
          plan_failure PlanValidationFailureCode.plan_too_large
            "The plan exceeds the configured step limit.")
        ++ duplicate_failures plan.steps []
        ++ tool_failures registry allowed_tool_ids plan.steps
        ++ plan_dependency_failures ids plan.steps
        ++ cycle_failures order
        ++ steps_failures ids (definitions_by_step_id registry plan.steps []) plan.steps

    abbrev pub validate_in :
        InvestigationPlan Value
        → Option (Option (List String))
        → Option (PlanValidationResult Value)
    validate_in plan none = none
    validate_in plan (some order) = validation_result plan (plan_failures plan order) order

    -- `PlanValidator.validate`; `none` also if a round of the order was missing
    unfoldable pub validate : InvestigationPlan Value → Option (PlanValidationResult Value)
    validate plan = validate_in plan (plan_order plan.steps)
