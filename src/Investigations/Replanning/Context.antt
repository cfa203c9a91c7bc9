-- ===== src/Investigations/Replanning/Context.antt =====
-- investigations/planning/prompt.py: `ContextBuilder.build`.
use promptql.Prelude.{ℕ, Option, some, List, [], map, is_empty, if◌then◌else◌}
use promptql.Prelude.Sorting.{sorted_by}
use promptql.Investigations.Facts.{id_of}
use promptql.Investigations.Evidence.{Evidence, get_many}
use promptql.Investigations.Execution.State.{ExecutionError, Result, ok, err, ◌>>=◌, need}
use promptql.Investigations.Replanning.Models.{
  max_planning_rounds, RememberedRepositoryPattern, RequestContext, PlannerInput,
  AdaptiveInvestigationRuntime, Investigation,
}
use promptql.Runtime.Recurrence.{Records, list_promoted}

unfoldable pub remembered_patterns :
    Option Records → Option RequestContext → List RememberedRepositoryPattern
remembered_patterns (some records) (some request) =
    map (λ r. record { fact_type = r.fact_type; occurrence_count = r.occurrence_count })
      (list_promoted records request.repository_owner request.repository_name)
remembered_patterns _ _ = []

module _ {Value : Type 0} where
  -- the input has one tool at least
  unfoldable pub build :
      AdaptiveInvestigationRuntime Value
      → ℕ
      → Investigation Value
      → List (Evidence Value)
      → Result (PlannerInput Value)
  build runtime round_number s evidence =
      if is_empty runtime.allowed_tools
      then err ExecutionError.validation_failed
      else ok (record {
        investigation_goal = runtime.investigation_goal;
        request_context = runtime.request_context;
        facts = sorted_by id_of s.facts;
        missing_information = sorted_by (λ m. m.missing_information_id) s.missing_information;
        evidence = sorted_by (λ e. e.evidence_id) evidence;
        action_history = s.history;
        remaining_tool_calls = s.remaining;
        planning_round = round_number;
        max_rounds = max_planning_rounds;
        allowed_tools = sorted_by (λ c. c.definition.tool_id) runtime.allowed_tools;
        remembered_patterns = remembered_patterns runtime.fact_recurrence runtime.request_context;
        prior_result_summary = runtime.prior_result_summary;
      })

  unfoldable pub planner_input :
      AdaptiveInvestigationRuntime Value → ℕ → Investigation Value → Result (PlannerInput Value)
  planner_input runtime round_number s =
      need ExecutionError.key_error (get_many s.outside.store s.evidence) >>= λ evidence.
      build runtime round_number s evidence
