-- ===== src/Investigations/Runs/Models.antt =====
-- runtime/investigation_models.py: the snapshots of an investigation and its run, with the validator
-- of the run. Of a request the model keeps what the workflow reads; the three classes of metadata of
-- a call of a language model have the same fields.
use promptql.Prelude.{ℕ, String, Bool, not, ◌&&◌, Option, List, is_empty, is_none, is_some, nat_eq}
use promptql.Runtime.Models.{RunStatus, RuntimeErrorInfo}
use promptql.Investigations.Facts.{InvestigationFact}
use promptql.Investigations.Evidence.{Evidence}
use promptql.Investigations.Execution.State.{
  ExecutionStepStatus, ExecutionBlockReason, MissingInformation,
}
use promptql.Investigations.Hypotheses.{ValidatedHypothesis}
use promptql.Investigations.CodeDiagnosis.{ValidatedCodeFinding}
use promptql.Investigations.CodeDiagnosis.Remediation.{DeveloperRecommendation}
use promptql.Investigations.Rendering.{GroundedInvestigationResult}
use promptql.Investigations.Replanning.Models.{PlannerMetadata, ActionSummary, RequestContext}

pub record InvestigationRequest : Type 0 where
  pub context : RequestContext
  pub question : String

pub record InvestigationStepSnapshot : Type 0 where
  pub step_id : String
  pub tool_id : String
  pub status : ExecutionStepStatus
  pub attempts : ℕ
  pub failure_code : Option String
  pub failure_message : Option String
  pub block_reason : Option ExecutionBlockReason

pub record InvestigationPlanningRoundSnapshot : Type 0 where
  pub round_number : ℕ
  pub plan_id : String
  pub plan_validation_status : String
  pub planner_metadata : Option PlannerMetadata
  pub steps : List InvestigationStepSnapshot
  pub evidence_delta_ids : List String
  pub fact_delta_ids : List String
  pub completed : Bool

pub record ExecutionState : Type 0 where
  pub rounds : List InvestigationPlanningRoundSnapshot
  pub hypothesis_generation_metadata : Option PlannerMetadata
  pub rejected_hypothesis_count : ℕ
  pub code_diagnosis_metadata : Option PlannerMetadata
  pub rejected_code_finding_count : ℕ
  pub max_tool_calls : ℕ
  pub used_tool_calls : ℕ
  pub remaining_tool_calls : ℕ
  pub termination_reason : Option String

module _ (Value : Type 0) where
  pub record WorkingMemory : Type 0 where
    pub evidence : List String
    pub evidence_content : List (Evidence Value)
    pub facts : List InvestigationFact
    pub missing_information : List MissingInformation
    pub validated_hypotheses : List ValidatedHypothesis
    pub validated_code_findings : List ValidatedCodeFinding
    pub developer_recommendations : List DeveloperRecommendation
    pub action_history : List ActionSummary

  pub record InvestigationRuntimeSnapshot : Type 0 where
    pub working_memory : WorkingMemory
    pub execution_state : ExecutionState

  -- without `steps`, which nothing sets
  pub record InvestigationRun : Type 0 where
    pub run_id : ℕ
    pub user_id : Option ℕ
    pub workflow_name : String
    pub workflow_version : String
    pub status : RunStatus
    pub started_at : Option ℕ
    pub completed_at : Option ℕ
    pub error : Option RuntimeErrorInfo
    pub request : InvestigationRequest
    pub state : Option InvestigationRuntimeSnapshot
    pub results : List GroundedInvestigationResult
    pub follow_up_count : ℕ
    pub recorded_fact_types : List String

module _ {Value : Type 0} where
  -- `validate_lifecycle_fields`, by the status
  abbrev pub investigation_lifecycle : RunStatus → InvestigationRun Value → Bool
  investigation_lifecycle RunStatus.pending run =
      is_none run.started_at
      && is_none run.completed_at
      && (is_none run.error && is_none run.state && is_empty run.results)
      && nat_eq run.follow_up_count 0
  investigation_lifecycle RunStatus.running run =
      is_some run.started_at && is_none run.completed_at && is_none run.error
  investigation_lifecycle RunStatus.completed run =
      is_some run.started_at
      && is_some run.completed_at
      && (is_none run.error && is_some run.state && not (is_empty run.results))
  investigation_lifecycle _ run = is_some run.started_at && is_some run.completed_at

  unfoldable pub investigation_valid : InvestigationRun Value → Bool
  investigation_valid run = investigation_lifecycle run.status run
