-- ===== src/Tests/Validation.antt =====
-- investigations/planning/validation.py: a plan whose first step waits for two others, with an unknown
-- dependency and a step that names itself, and a plan with a cycle.
use promptql.Prelude.{◌≡◌, refl, String, true, Option, none, some, List, [], ◌∷◌, map}
use promptql.Prelude.Dict.{Dict, lookup, insert}
use promptql.Investigations.Plan.{PlanStep, PlanArgumentValue, InvestigationPlan}
use promptql.Investigations.Validation.Order.{
  add_dependents, add_degrees, first_graph, first_degrees, push, sort, push_ready, release,
  order_from, topological_order, steps_by_id, step_position, step_edges, plan_edges, plan_order,
}
use promptql.Investigations.Validation.Sorted.{IsOrdered, plan_order-IsOrdered}
use promptql.Investigations.Validation.Contracts.{
  PlanValidationFailureCode, PlanValidationResult, accepted, rejected, annotation_is_compatible,
  Annotation, Members, InputField, Contract,
}
use promptql.Investigations.Validation.Validator.{
  reference_failure, duplicate_failures, plan_dependency_failures, dependency_failures,
  literal_values, tool_failures, definitions_by_step_id,
}
use promptql.Investigations.Validation.Arguments.{
  validate_reference, argument_failures, required_failures, steps_failures, plan_failures, validate,
}
use promptql.Investigations.Validation.Accepted.{IsJudged, validate-IsJudged}

abbrev step : String → List String → PlanStep String
step step_id depends_on = record {
  step_id = step_id;
  tool_id = "get_commit";
  arguments = [];
  depends_on = depends_on;
  reason = "";
}

abbrev steps : List (PlanStep String)
steps =
    step "report" ("commit" ∷ "deploy" ∷ "nowhere" ∷ [])
    ∷ step "deploy" ("commit" ∷ [])
    ∷ step "commit" ("commit" ∷ [])
    ∷ step "deploy" []
    ∷ []

abbrev cycle : List (PlanStep String)
cycle = step "a" ("b" ∷ []) ∷ step "b" ("a" ∷ []) ∷ step "c" [] ∷ []

steps_test : plan_order steps ≡ some (some ("commit" ∷ "deploy" ∷ "report" ∷ []))
unfolding add_dependents add_degrees first_graph first_degrees push sort push_ready release
    order_from topological_order steps_by_id step_position step_edges plan_edges lookup insert
steps_test = refl

cycle_test : plan_order cycle ≡ some none
unfolding add_dependents add_degrees first_graph first_degrees push sort push_ready release
    order_from topological_order steps_by_id step_position step_edges plan_edges lookup insert
cycle_test = refl

plan_order-IsOrdered_example :
    (result : Option (List String)) × (plan_order steps ≡ some result)
    × IsOrdered (steps_by_id steps []) (plan_edges (steps_by_id steps []) steps) result
plan_order-IsOrdered_example = plan_order-IsOrdered steps

abbrev sha : Annotation
sha = Annotation.annotation "str" Members.no_member

abbrev optional_sha : Annotation
optional_sha = Annotation.annotation "Union[str, None]" (Members.member sha Members.no_member)

abbrev contract :
    String → Dict String (InputField String) → Dict String Annotation → Contract String
contract tool_id input_fields output_fields = record {
  definition = record {
    tool_id = tool_id;
    validate_arguments = λ arguments. some arguments;
    output_fields = map (λ f. f.0) output_fields;
  };
  input_fields = input_fields;
  output_fields = output_fields;
}

abbrev registry : Dict String (Contract String)
registry =
    ("get_deployment", contract "get_deployment" [] (("commit_sha", sha) ∷ []))
    ∷ (
      "get_commit",
      contract "get_commit"
          (("sha", record { is_required = true; annotation_of = optional_sha; accepts = λ v. true })
            ∷ [])
          [],
    )
    ∷ []

abbrev plan : List String → InvestigationPlan String
plan depends_on = record {
  steps =
      record {
        step_id = "commit";
        tool_id = "get_commit";
        arguments =
            record {
              name = "sha";
              value = PlanArgumentValue.step_output_ref "deployment" "commit_sha";
            }
            ∷ [];
        depends_on = depends_on;
        reason = "";
      }
      ∷ record {
        step_id = "deployment";
        tool_id = "get_deployment";
        arguments = [];
        depends_on = [];
        reason = "";
      }
      ∷ [];
}

abbrev both_tools : List String
both_tools = "get_commit" ∷ "get_deployment" ∷ []

accepted_test :
    validate registry both_tools (plan ("deployment" ∷ []))
    ≡ some (
        accepted (record {
          plan = plan ("deployment" ∷ []);
          topological_step_ids = "deployment" ∷ "commit" ∷ [];
        }))
unfolding add_dependents add_degrees first_graph first_degrees push sort push_ready release
    order_from topological_order steps_by_id step_position step_edges plan_edges lookup insert
    annotation_is_compatible duplicate_failures plan_dependency_failures dependency_failures
    literal_values tool_failures definitions_by_step_id validate_reference argument_failures
    required_failures steps_failures plan_failures validate
accepted_test = refl

undeclared_test :
    validate registry both_tools (plan [])
    ≡ some (
        rejected (
          reference_failure PlanValidationFailureCode.missing_reference_dependency
            "An output reference must also be declared as a dependency." "commit" "deployment" none
            "sha"
          ∷ []))
unfolding add_dependents add_degrees first_graph first_degrees push sort push_ready release
    order_from topological_order steps_by_id step_position step_edges plan_edges lookup insert
    annotation_is_compatible duplicate_failures plan_dependency_failures dependency_failures
    literal_values tool_failures definitions_by_step_id validate_reference argument_failures
    required_failures steps_failures plan_failures validate
undeclared_test = refl

validate-IsJudged_example :
    (result : PlanValidationResult String) × (validate registry both_tools
        (plan ("deployment" ∷ []))
      ≡ some result)
    × IsJudged registry both_tools (plan ("deployment" ∷ [])) result
validate-IsJudged_example = validate-IsJudged registry both_tools (plan ("deployment" ∷ []))
