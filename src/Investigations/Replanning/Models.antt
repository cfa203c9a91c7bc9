-- ===== src/Investigations/Replanning/Models.antt =====
-- investigations/replanning.py and investigations/planning/models.py: what an investigation is made
-- of. Of the use of tokens the model keeps the three counts.
use promptql.Prelude.{ℕ, String, Bool, Option, List}
use promptql.Prelude.Dict.{Dict}
use promptql.Investigations.Tools.{ToolOutcome}
use promptql.Investigations.Facts.{InvestigationFact}
use promptql.Investigations.Plan.{InvestigationPlan}
use promptql.Investigations.Evidence.{Evidence, EvidenceStore}
use promptql.Investigations.Execution.State.{MissingInformation, RetryPolicy}
use promptql.Investigations.Execution.Locals.{AgentExecutor, Outside, InvestigationExecutionState}
use promptql.Investigations.Validation.Contracts.{Contract}
use promptql.Runtime.Recurrence.{Records}

abbrev pub max_planning_rounds : ℕ
max_planning_rounds = 3

abbrev pub max_no_progress_rounds : ℕ
max_no_progress_rounds = 1

abbrev pub max_adaptive_plan_steps : ℕ
max_adaptive_plan_steps = 3

-- `RetryPolicy()`
abbrev pub default_policy : RetryPolicy
default_policy = record { max_attempts = 3; initial_backoff = 1; backoff_multiplier = 2 }

pub data ContinuationReason : Type 0 where
  in_progress complete max_planning_rounds_reached tool_call_budget_exhausted : ContinuationReason
  no_progress planner_failure plan_validation_failure : ContinuationReason

pub record TokenUsage : Type 0 where
  pub input_tokens : ℕ
  pub output_tokens : ℕ
  pub total_tokens : Option ℕ

pub record PlannerMetadata : Type 0 where
  pub task : String
  pub provider : String
  pub model : String
  pub requested_model : Option String
  pub resolved_model : Option String
  pub prompt_id : String
  pub prompt_version : String
  pub token_usage : Option TokenUsage

pub record ActionSummary : Type 0 where
  pub tool_id : String
  pub outcome : ToolOutcome
  pub produced_new_evidence : Bool
  pub produced_new_facts : Bool

pub record RememberedRepositoryPattern : Type 0 where
  pub fact_type : String
  pub occurrence_count : ℕ

-- the part of an `InvestigationRequest` that says which repository it is about
pub record RequestContext : Type 0 where
  pub repository_owner : String
  pub repository_name : String

module _ (Value : Type 0) where
  pub record PlannedInvestigation : Type 0 where
    pub plan : InvestigationPlan Value
    pub metadata : PlannerMetadata

  -- the planner is told what it reads of an evidence or a tool; the model gives it the whole
  pub record PlannerInput : Type 0 where
    pub investigation_goal : String
    pub request_context : Option RequestContext
    pub facts : List InvestigationFact
    pub missing_information : List MissingInformation
    pub evidence : List (Evidence Value)
    pub action_history : List ActionSummary
    pub remaining_tool_calls : ℕ
    pub planning_round : ℕ
    pub max_rounds : ℕ
    pub allowed_tools : List (Contract Value)
    pub remembered_patterns : List RememberedRepositoryPattern
    pub prior_result_summary : Option String

  -- `planner.plan` returns or raises `InvestigationPlannerError`
  pub data PlannerAnswer : Type 0 where
    planned : PlannedInvestigation → PlannerAnswer
    failed : PlannerAnswer

  pub record PlanningRound : Type 0 where
    pub round_number : ℕ
    pub plan_id : String
    pub planner_metadata : PlannerMetadata
    pub execution : InvestigationExecutionState Value (List InvestigationFact)
    pub evidence_delta_ids : List String
    pub fact_delta_ids : List String

  pub record AdaptiveInvestigationState : Type 0 where
    pub rounds : List PlanningRound
    pub evidence : List String
    pub facts : List InvestigationFact
    pub missing_information : List MissingInformation
    pub action_history : List ActionSummary
    pub remaining_tool_calls : ℕ
    pub continuation_reason : ContinuationReason

  -- a call of `on_round_planned` or of `on_round_completed`
  pub data Notice : Type 0 where
    round_planned : AdaptiveInvestigationState → PlannedInvestigation → Notice
    round_completed : AdaptiveInvestigationState → Notice

  -- the constructor's arguments and the parameters of `investigate` that do not change; the tools of
  -- the registry with their contracts, and which callbacks raise, which read the store
  pub record AdaptiveInvestigationRuntime : Type 0 where
    pub plan : PlannerInput → PlannerAnswer
    pub registry : Dict String (Contract Value)
    pub executor : AgentExecutor Value (List InvestigationFact)
    pub investigation_goal : String
    pub allowed_tools : List (Contract Value)
    pub prior_result_summary : Option String
    pub request_context : Option RequestContext
    pub fact_recurrence : Option Records
    pub raises : Notice × EvidenceStore Value → Bool

  -- the local variables of `investigate`, with the calls of the callbacks so far
  pub record Investigation : Type 0 where
    pub evidence : List String
    pub facts : List InvestigationFact
    pub missing_information : List MissingInformation
    pub history : List ActionSummary
    pub rounds : List PlanningRound
    pub remaining : ℕ
    pub no_progress_rounds : ℕ
    pub outside : Outside Value
    pub notices : List (Notice × EvidenceStore Value)
