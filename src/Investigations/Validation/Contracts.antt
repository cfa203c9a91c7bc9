-- ===== src/Investigations/Validation/Contracts.antt =====
-- investigations/planning/validation.py: the failures and the result of `PlanValidator`, and what it
-- reads of pydantic models. An annotation is its name with its parameters and,
-- for a `Union`, its members.
use promptql.Prelude.{String, Bool, true, false, ◌||◌, Option, none, some, List, [], ◌==◌}
use promptql.Prelude.Dict.{Dict}
use promptql.Investigations.Plan.{ValidatedPlan}
use promptql.Investigations.Tools.{ToolDefinition}

pub data PlanValidationFailureCode : Type 0 where
  plan_too_large duplicate_step_id unknown_tool tool_not_allowed : PlanValidationFailureCode
  unknown_dependency self_dependency cycle_detected unknown_argument : PlanValidationFailureCode
  missing_required_argument invalid_literal_argument : PlanValidationFailureCode
  unknown_output_reference_step missing_reference_dependency : PlanValidationFailureCode
  unknown_output_field reference_type_mismatch : PlanValidationFailureCode

pub record PlanValidationFailure : Type 0 where
  pub code : PlanValidationFailureCode
  pub message : String
  pub step_id : Option String
  pub tool_id : Option String
  pub dependency_step_id : Option String
  pub source_step_id : Option String
  pub field_name : Option String
  pub argument_name : Option String

pub record PlanValidationResult (Value : Type 0) : Type 0 where
  pub valid : Bool
  pub validated_plan : Option (ValidatedPlan Value)
  pub errors : List PlanValidationFailure

abbrev pub accepted : {Value : Type 0} → ValidatedPlan Value → PlanValidationResult Value
accepted plan = record { valid = true; validated_plan = some plan; errors = [] }

abbrev pub rejected : {Value : Type 0} → List PlanValidationFailure → PlanValidationResult Value
rejected errors = record { valid = false; validated_plan = none; errors = errors }

mutual
  pub data Annotation : Type 0 where
    annotation : String → Members → Annotation

  pub data Members : Type 0 where
    no_member : Members
    member : Annotation → Members → Members

abbrev pub name_of : Annotation → String
name_of (Annotation.annotation name members) = name

unfoldable mutual
  pub annotation_is_compatible : Annotation → Annotation → Bool
  annotation_is_compatible source (Annotation.annotation name members) =
      name_of source == name || any_compatible source members

  pub any_compatible : Annotation → Members → Bool
  any_compatible source Members.no_member = false
  any_compatible source (Members.member destination members) =
      annotation_is_compatible source destination || any_compatible source members

-- an entry of `input_model.model_fields`; `accepts` is what `TypeAdapter` does
pub record InputField (Value : Type 0) : Type 0 where
  pub is_required : Bool
  pub annotation_of : Annotation
  pub accepts : Value → Bool

pub record Contract (Value : Type 0) : Type 0 where
  pub definition : ToolDefinition Value
  pub input_fields : Dict String (InputField Value)
  pub output_fields : Dict String Annotation
