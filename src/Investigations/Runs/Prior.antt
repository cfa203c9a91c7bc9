-- ===== src/Investigations/Runs/Prior.antt =====
-- workflows/investigation.py: the parts of `InvestigationWorkflowService` that save nothing.
use promptql.Prelude.{
  ℕ, ◌+◌, String, Bool, true, false, ◌&&◌, ◌||◌, Option, none, some, List, [], ◌∷◌, is_none, nat_eq,
  if◌then◌else◌,
}
use promptql.Runtime.Repository.{same_user}
use promptql.Runtime.Models.{RunStatus, RuntimeErrorCode}
use promptql.Investigations.Facts.{InvestigationFact}
use promptql.Investigations.Plan.{known}
use promptql.Investigations.Evidence.{Evidence}
use promptql.Investigations.Execution.State.{MissingInformation}
use promptql.Investigations.Hypotheses.{ValidatedHypothesis}
use promptql.Investigations.CodeDiagnosis.{ValidatedCodeFinding}
use promptql.Investigations.Rendering.{GroundedTerminationReason, GroundedInvestigationResult}
use promptql.Investigations.Replanning.Models.{ContinuationReason, PlannerMetadata, ActionSummary}
use promptql.Investigations.Runs.Models.{
  InvestigationRequest, InvestigationPlanningRoundSnapshot, InvestigationRuntimeSnapshot,
  InvestigationRun,
}
use promptql.Investigations.Runs.Snapshots.{default_tool_call_budget}

abbrev pub grounded_reason : ContinuationReason → Option GroundedTerminationReason
grounded_reason ContinuationReason.tool_call_budget_exhausted =
    some GroundedTerminationReason.budget_exhausted
grounded_reason ContinuationReason.no_progress = some GroundedTerminationReason.no_progress
grounded_reason ContinuationReason.max_planning_rounds_reached =
    some GroundedTerminationReason.planning_limit_reached
grounded_reason ContinuationReason.planner_failure = some GroundedTerminationReason.planner_failure
grounded_reason ContinuationReason.plan_validation_failure =
    some GroundedTerminationReason.plan_validation_failure
grounded_reason _ = none

-- `fact.fact_type`
abbrev pub fact_type_of : InvestigationFact → String
fact_type_of (InvestigationFact.changed_file _ _ _ _) = "changed_file"
fact_type_of (InvestigationFact.deployment _ _ _ _ _) = "deployment"
fact_type_of (InvestigationFact.stack_frame _ _ _ _) = "stack_frame"
fact_type_of (InvestigationFact.deployment_preceded_incident _ _ _) = "deployment_preceded_incident"
fact_type_of (InvestigationFact.deployment_references_commit _ _ _) = "deployment_references_commit"
fact_type_of (InvestigationFact.commit_associated_with_pull_request _ _ _) =
    "commit_associated_with_pull_request"
fact_type_of (InvestigationFact.changed_file_matches_failure_file _ _) =
    "changed_file_matches_failure_file"
fact_type_of (InvestigationFact.changed_hunk_overlaps_failure_line _ _ _) =
    "changed_hunk_overlaps_failure_line"

-- the set of the types that are not yet recorded
unfoldable pub new_types : List String → List InvestigationFact → List String
new_types recorded [] = []
new_types recorded (fact ∷ facts) =
    let type = fact_type_of fact in
    if known type recorded
    then new_types recorded facts
    else type ∷ new_types (type ∷ recorded) facts

abbrev pub is_completed : RunStatus → Bool
is_completed RunStatus.completed = true
is_completed _ = false

abbrev pub is_running : RunStatus → Bool
is_running RunStatus.running = true
is_running _ = false

-- `results[-1].summary`
abbrev pub last_summary : List GroundedInvestigationResult → Option String
last_summary [] = none
last_summary (r ∷ []) = some r.summary
last_summary (r ∷ r' ∷ more) = last_summary (r' ∷ more)

-- what an investigation begins with
pub record Prior (Value : Type 0) : Type 0 where
  pub goal : String
  pub rounds : List InvestigationPlanningRoundSnapshot
  pub actions : List ActionSummary
  pub evidence : List String
  pub content : List (Evidence Value)
  pub missing_information : List MissingInformation
  pub available : ℕ
  pub result_summary : Option String

-- the local variables of the two model calls and their validation
pub record Findings : Type 0 where
  pub hypotheses : List ValidatedHypothesis
  pub rejected_hypotheses : ℕ
  pub hypothesis_metadata : Option PlannerMetadata
  pub findings : List ValidatedCodeFinding
  pub rejected_findings : ℕ
  pub code_metadata : Option PlannerMetadata
  pub reason : GroundedTerminationReason

module _ {Value : Type 0} where
  abbrev pub empty_state : InvestigationRuntimeSnapshot Value
  empty_state = record {
    working_memory = record {
      evidence = [];
      evidence_content = [];
      facts = [];
      missing_information = [];
      validated_hypotheses = [];
      validated_code_findings = [];
      developer_recommendations = [];
      action_history = [];
    };
    execution_state = record {
      rounds = [];
      hypothesis_generation_metadata = none;
      rejected_hypothesis_count = 0;
      code_diagnosis_metadata = none;
      rejected_code_finding_count = 0;
      max_tool_calls = default_tool_call_budget;
      used_tool_calls = 0;
      remaining_tool_calls = default_tool_call_budget;
      termination_reason = none;
    };
  }

  abbrev pub first_prior : InvestigationRequest → Prior Value
  first_prior request = record {
    goal = request.question;
    rounds = [];
    actions = [];
    evidence = [];
    content = [];
    missing_information = [];
    available = default_tool_call_budget;
    result_summary = none;
  }

  abbrev pub follow_up_prior :
      InvestigationRun Value → String → InvestigationRuntimeSnapshot Value → Prior Value
  follow_up_prior run question state = record {
    goal = question;
    rounds = state.execution_state.rounds;
    actions = state.working_memory.action_history;
    evidence = state.working_memory.evidence;
    content = state.working_memory.evidence_content;
    missing_information = state.working_memory.missing_information;
    available = state.execution_state.remaining_tool_calls;
    result_summary = last_summary run.results;
  }

  -- the variables that depend on `is_follow_up`; without a prior state it raises
  abbrev pub prior_of :
      InvestigationRun Value
      → Option String
      → Option (InvestigationRuntimeSnapshot Value)
      → Option (Prior Value)
  prior_of run none state = some (first_prior run.request)
  prior_of run (some question) none = none
  prior_of run (some question) (some state) = some (follow_up_prior run question state)

  -- `self._repository.get`, or what is given where it finds nothing
  unfoldable pub latest_saved :
      ℕ → Option ℕ → InvestigationRun Value → List (InvestigationRun Value) → InvestigationRun Value
  latest_saved run_id user_id found [] = found
  latest_saved run_id user_id found (run ∷ saved) =
      latest_saved run_id user_id
        (if nat_eq run.run_id run_id && (is_none run.user_id || same_user run.user_id user_id)
          then run
          else found)
        saved

module _ {Value : Type 0} where
  abbrev pub failed_run : InvestigationRun Value → ℕ → InvestigationRun Value
  failed_run running t = record running {
    status = RunStatus.failed;
    completed_at = some t;
    error = some (record {
      code = RuntimeErrorCode.investigation_runtime_failure;
      message = "The investigation runtime failed before it could complete.";
    });
    state = none;
  }

  abbrev pub cancelled_run : InvestigationRun Value → ℕ → InvestigationRun Value
  cancelled_run base t = record base { status = RunStatus.cancelled; completed_at = some t }

  abbrev pub running_run :
      InvestigationRun Value
      → ℕ
      → Option (InvestigationRuntimeSnapshot Value)
      → InvestigationRun Value
  running_run pending started_at state = record pending {
    status = RunStatus.running;
    started_at = some started_at;
    completed_at = none;
    state = state;
  }

  abbrev pub pending_run : InvestigationRequest → ℕ → Option ℕ → InvestigationRun Value
  pending_run request run_id user_id = record {
    run_id = run_id;
    user_id = user_id;
    workflow_name = "investigation";
    workflow_version = "2.19.2";
    status = RunStatus.pending;
    started_at = none;
    completed_at = none;
    error = none;
    request = request;
    state = none;
    results = [];
    follow_up_count = 0;
    recorded_fact_types = [];
  }

  abbrev pub reopened_run : InvestigationRun Value → ℕ → InvestigationRun Value
  reopened_run completed t = record completed {
    status = RunStatus.running;
    started_at = some t;
    completed_at = none;
    follow_up_count = completed.follow_up_count + 1;
  }
