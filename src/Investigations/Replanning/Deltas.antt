-- ===== src/Investigations/Replanning/Deltas.antt =====
-- investigations/replanning.py: what a round adds, and the summaries of its actions.
use promptql.Prelude.{
  String, Bool, not, Option, none, some, List, [], ◌∷◌, map, filter, any, is_some, nat_eq, ◌==◌,
  if◌then◌else◌,
}
use promptql.Prelude.Dict.{Dict, text_key, lookup, insert}
use promptql.Prelude.Sorting.{sorted_by}
use promptql.Investigations.Tools.{ToolOutcome, ToolResult}
use promptql.Investigations.Facts.{InvestigationFact, base_of, id_of}
use promptql.Investigations.Plan.{PlanStep, known}
use promptql.Investigations.Hypotheses.{index_by_id}
use promptql.Investigations.Execution.State.{
  ExecutionError, Result, ok, ◌>>=◌, need, ExecutionStepState, MissingInformation,
  deduplicate_evidence,
}
use promptql.Investigations.Replanning.Models.{ActionSummary}

-- `tuple(sorted(set(xs) - set(ys)))`
unfoldable pub difference : List String → List String → List String
difference xs ys = sorted_by (λ x. x) (deduplicate_evidence (filter (λ x. not (known x ys)) xs))

-- `xs.intersection(ys)` is not empty
abbrev pub meets : List String → List String → Bool
meets xs ys = any (λ x. known x ys) xs

unfoldable pub set_missing :
    Dict String MissingInformation → List MissingInformation → Dict String MissingInformation
set_missing items [] = items
set_missing items (item ∷ more) = set_missing (insert item.missing_information_id item items) more

unfoldable pub set_missing_defaults :
    Dict String MissingInformation → List MissingInformation → Dict String MissingInformation
set_missing_defaults items [] = items
set_missing_defaults items (item ∷ more) =
    set_missing_defaults
      (if is_some (lookup item.missing_information_id items)
        then items
        else insert item.missing_information_id item items)
      more

unfoldable pub merge_missing_information :
    List MissingInformation → List MissingInformation → List MissingInformation
merge_missing_information accumulated incoming =
    map (λ item. item.1) (set_missing_defaults (set_missing [] accumulated) incoming)

abbrev pub result_evidence_ids : Option ToolResult → List String
result_evidence_ids none = []
result_evidence_ids (some result) = result.evidence_ids

abbrev pub result_outcome : Option ToolResult → ToolOutcome
result_outcome none = ToolOutcome.failed
result_outcome (some result) = result.outcome

abbrev pub new_facts : List InvestigationFact → List String → List InvestigationFact
new_facts facts fact_delta =
    map (λ item. item.1) (index_by_id (filter (λ f. known (id_of f) fact_delta) facts))

abbrev pub summary :
    List InvestigationFact → List String → ExecutionStepState → String → ActionSummary
summary added evidence_delta state tool_id =
    let ids = result_evidence_ids state.tool_result in
    record {
      tool_id = tool_id;
      outcome = result_outcome state.tool_result;
      produced_new_evidence = meets ids evidence_delta;
      produced_new_facts = any (λ f. meets ids (base_of f).evidence_reference_ids) added;
    }

module _ {Value : Type 0} where
  -- the tool of the first step with the identifier; without one it would raise
  unfoldable pub tool_of : String → List (PlanStep Value) → Option String
  tool_of step_id [] = none
  tool_of step_id (step ∷ steps) =
      if step.step_id == step_id then some step.tool_id else tool_of step_id steps

  -- a summary for each step that was attempted
  unfoldable pub summaries :
      List (PlanStep Value)
      → List InvestigationFact
      → List String
      → List ExecutionStepState
      → Result (List ActionSummary)
  summaries steps added evidence_delta [] = ok []
  summaries steps added evidence_delta (state ∷ states) =
      let rest = summaries steps added evidence_delta states in
      if nat_eq state.attempts 0
      then rest
      else (need ExecutionError.key_error (tool_of state.step_id steps) >>= λ tool_id.
          rest >>= λ more. ok (summary added evidence_delta state tool_id ∷ more))
