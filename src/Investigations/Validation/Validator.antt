-- ===== src/Investigations/Validation/Validator.antt =====
-- investigations/planning/validation.py: `PlanValidator`. Each loop gives the failures that it appends.
use promptql.Prelude.{
  ℕ, String, Bool, true, false, ◌&&◌, not, Option, none, some, List, [], ◌∷◌, ◌++◌, ◌==◌, is_some,
  if◌then◌else◌,
}
use promptql.Prelude.Dict.{Dict, text_key, lookup, insert}
use promptql.Investigations.Plan.{PlanStep, PlanArgument, PlanArgumentValue, known}
use promptql.Investigations.Validation.Contracts.{
  PlanValidationFailureCode, PlanValidationFailure, Contract,
}

abbrev pub max_plan_steps : ℕ
max_plan_steps = 5

-- a failure that names a step and, for some codes, a tool, a dependency and an argument
abbrev pub step_failure :
    PlanValidationFailureCode
    → String
    → String
    → Option String
    → Option String
    → Option String
    → PlanValidationFailure
step_failure code message step_id tool_id dependency_step_id argument_name = record {
  code = code;
  message = message;
  step_id = some step_id;
  tool_id = tool_id;
  dependency_step_id = dependency_step_id;
  source_step_id = none;
  field_name = none;
  argument_name = argument_name;
}

abbrev pub reference_failure :
    PlanValidationFailureCode
    → String
    → String
    → String
    → Option String
    → String
    → PlanValidationFailure
reference_failure code message step_id source_step_id field_name argument_name = record {
  code = code;
  message = message;
  step_id = some step_id;
  tool_id = none;
  dependency_step_id = none;
  source_step_id = some source_step_id;
  field_name = field_name;
  argument_name = some argument_name;
}

abbrev pub plan_failure : PlanValidationFailureCode → String → PlanValidationFailure
plan_failure code message = record {
  code = code;
  message = message;
  step_id = none;
  tool_id = none;
  dependency_step_id = none;
  source_step_id = none;
  field_name = none;
  argument_name = none;
}

abbrev pub fail_if : Bool → PlanValidationFailure → List PlanValidationFailure
fail_if true failure = failure ∷ []
fail_if false failure = []

abbrev pub cycle_failures : Option (List String) → List PlanValidationFailure
cycle_failures (some order) = []
cycle_failures none =
    plan_failure PlanValidationFailureCode.cycle_detected
      "Plan dependencies must form an acyclic graph."
    ∷ []

unfoldable pub dependency_failures : List String → String → List String → List PlanValidationFailure
dependency_failures ids step_id [] = []
dependency_failures ids step_id (d ∷ depends_on) =
    (if not (known d ids)
      then step_failure PlanValidationFailureCode.unknown_dependency
          "A declared dependency does not name a plan step." step_id none (some d) none
        ∷ []
      else fail_if (d == step_id) (
          step_failure PlanValidationFailureCode.self_dependency
            "A plan step cannot depend on itself." step_id none (some d) none))
    ++ dependency_failures ids step_id depends_on

module _ {Value : Type 0} where
  -- the loop that fills `steps_by_id`
  unfoldable pub duplicate_failures :
      List (PlanStep Value) → List String → List PlanValidationFailure
  duplicate_failures [] ids = []
  duplicate_failures (step ∷ steps) ids =
      fail_if (known step.step_id ids) (
        step_failure PlanValidationFailureCode.duplicate_step_id
          "Plan step identifiers must be unique." step.step_id none none none)
      ++ duplicate_failures steps (if known step.step_id ids then ids else ids ++ step.step_id ∷ [])

  unfoldable pub plan_dependency_failures :
      List String → List (PlanStep Value) → List PlanValidationFailure
  plan_dependency_failures ids [] = []
  plan_dependency_failures ids (step ∷ steps) =
      dependency_failures ids step.step_id step.depends_on ++ plan_dependency_failures ids steps

  abbrev pub is_literal : PlanArgumentValue Value → Bool
  is_literal (PlanArgumentValue.literal value) = true
  is_literal (PlanArgumentValue.step_output_ref s f) = false

  abbrev pub all_literal : List (PlanArgument Value) → Bool
  all_literal [] = true
  all_literal (a ∷ arguments) = is_literal a.value && all_literal arguments

  abbrev pub set_literal : String → PlanArgumentValue Value → Dict String Value → Dict String Value
  set_literal name (PlanArgumentValue.literal value) values = insert name value values
  set_literal name (PlanArgumentValue.step_output_ref s f) values = values

  -- `{argument.name: argument.value.value ...}`, which is read where all are literals
  unfoldable pub literal_values : List (PlanArgument Value) → Dict String Value → Dict String Value
  literal_values [] values = values
  literal_values (a ∷ arguments) values =
      literal_values arguments (set_literal a.name a.value values)

  -- `setdefault`
  abbrev pub set_definition :
      String → Option (Contract Value) → Dict String (Contract Value) → Dict String (Contract Value)
  set_definition step_id none definitions = definitions
  set_definition step_id (some contract) definitions =
      if is_some (lookup step_id definitions)
      then definitions
      else insert step_id contract definitions

  unfoldable pub definitions_by_step_id :
      Dict String (Contract Value)
      → List (PlanStep Value)
      → Dict String (Contract Value)
      → Dict String (Contract Value)
  definitions_by_step_id registry [] definitions = definitions
  definitions_by_step_id registry (step ∷ steps) definitions =
      definitions_by_step_id registry steps
        (set_definition step.step_id (lookup step.tool_id registry) definitions)

  module _ (registry : Dict String (Contract Value)) (allowed_tool_ids : List String) where
    abbrev pub tool_failure : PlanStep Value → Option (Contract Value) → List PlanValidationFailure
    tool_failure step none =
        step_failure PlanValidationFailureCode.unknown_tool
          "The plan names a tool that is not registered." step.step_id (some step.tool_id) none none
        ∷ []
    tool_failure step (some contract) =
        fail_if (not (known contract.definition.tool_id allowed_tool_ids)) (
          step_failure PlanValidationFailureCode.tool_not_allowed
            "The plan names a tool outside the allowed set." step.step_id (some step.tool_id) none
            none)

    unfoldable pub tool_failures : List (PlanStep Value) → List PlanValidationFailure
    tool_failures [] = []
    tool_failures (step ∷ steps) =
        tool_failure step (lookup step.tool_id registry) ++ tool_failures steps
