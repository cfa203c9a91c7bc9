-- ===== src/Investigations/Plan.antt =====
-- investigations/planning/models.py: plans, and investigations/planning/validation.py:
-- `ValidatedPlan`. The values of arguments are of any type.
use promptql.Prelude.{String, Bool, true, not, ◌&&◌, List, [], ◌∷◌, any, map, ◌==◌}

pub data PlanArgumentValue (Value : Type 0) : Type 0 where
  literal : Value → PlanArgumentValue Value
  step_output_ref : String → String → PlanArgumentValue Value

pub record PlanArgument (Value : Type 0) : Type 0 where
  pub name : String
  pub value : PlanArgumentValue Value

pub record PlanStep (Value : Type 0) : Type 0 where
  pub step_id : String
  pub tool_id : String
  pub arguments : List (PlanArgument Value)
  pub depends_on : List String
  pub reason : String

abbrev pub known : String → List String → Bool
known x = any (λ y. y == x)

-- `len(xs) == len(set(xs))`
abbrev pub unique : List String → Bool
unique [] = true
unique (x ∷ xs) = not (known x xs) && unique xs

pub record InvestigationPlan (Value : Type 0) : Type 0 where
  pub steps : List (PlanStep Value)

pub record ValidatedPlan (Value : Type 0) : Type 0 where
  pub plan : InvestigationPlan Value
  pub topological_step_ids : List String

module _ {Value : Type 0} where
  -- `validate_unique_local_fields`
  abbrev pub step_fields_valid : PlanStep Value → Bool
  step_fields_valid step = unique (map (λ a. a.name) step.arguments) && unique step.depends_on
