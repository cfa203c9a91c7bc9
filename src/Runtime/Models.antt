-- ===== src/Runtime/Models.antt =====
-- runtime/models.py: runs and steps with the lifecycle validators that pydantic calls on every
-- construction. A `datetime` and a `UUID` are numbers; a clock hands the times out.
use promptql.Prelude.{ℕ, String, Bool, ◌&&◌, Option, List, is_some, is_none, ltb, all}
use promptql.Connectors.{ConnectorRequest, ConnectorSource, GitHubPullRequest, JiraIssue}
use promptql.Policy.Models.{MergeReadinessResult}

-- `RunStatus` and `StepStatus` have the same members
pub data RunStatus : Type 0 where
  pending running completed failed cancelled : RunStatus

pub data StepStatus : Type 0 where
  pending running completed failed cancelled : StepStatus

pub data WorkflowStepName : Type 0 where
  fetch_github_facts fetch_jira_facts evaluate_merge_readiness : WorkflowStepName

pub data RuntimeErrorCode : Type 0 where
  connector_execution_failed policy_execution_failed fixture_not_found : RuntimeErrorCode
  investigation_provider_failure investigation_plan_invalid : RuntimeErrorCode
  investigation_runtime_failure : RuntimeErrorCode

pub record RuntimeErrorInfo : Type 0 where
  pub code : RuntimeErrorCode
  pub message : String

pub data ExplanationSource : Type 0 where
  fake gemini groq openai openrouter : ExplanationSource

pub record RunSources : Type 0 where
  pub github : Option ConnectorSource
  pub jira : Option ConnectorSource
  pub explanation : Option ExplanationSource

pub record RuntimeStep : Type 0 where
  pub step_id : ℕ
  pub name : WorkflowStepName
  pub status : StepStatus
  pub started_at : Option ℕ
  pub completed_at : Option ℕ
  pub duration_ms : Option ℕ
  pub attempt : ℕ
  pub error : Option RuntimeErrorInfo

-- `RuntimeStep.validate_lifecycle_fields`, on the status and the four fields that it reads
abbrev pub step_lifecycle :
    StepStatus → Option ℕ → Option ℕ → Option ℕ → Option RuntimeErrorInfo → Bool
step_lifecycle StepStatus.pending started ended duration error =
    is_none started && is_none ended && is_none duration && is_none error
step_lifecycle StepStatus.running started ended duration error =
    is_some started && is_none ended && is_none duration && is_none error
step_lifecycle StepStatus.failed started ended duration error =
    is_some started && is_some ended && is_some duration && is_some error
step_lifecycle _ started ended duration error =
    is_some started && is_some ended && is_some duration && is_none error

-- with the field's own `gt=0`
unfoldable pub step_valid : RuntimeStep → Bool
step_valid step =
    ltb 0 step.attempt
    && step_lifecycle step.status step.started_at step.completed_at step.duration_ms step.error

pub record MergeReadinessRun : Type 0 where
  pub run_id : ℕ
  pub user_id : Option ℕ
  pub workflow_name : String
  pub workflow_version : String
  pub sources : Option RunSources
  pub status : RunStatus
  pub started_at : Option ℕ
  pub completed_at : Option ℕ
  pub steps : List RuntimeStep
  pub error : Option RuntimeErrorInfo
  pub result : Option MergeReadinessResult
  pub request : ConnectorRequest
  pub github : Option GitHubPullRequest
  pub jira : Option JiraIssue

-- `MergeReadinessRun.validate_lifecycle_fields`
abbrev pub run_lifecycle :
    RunStatus → Option ℕ → Option ℕ → Option RuntimeErrorInfo → Option MergeReadinessResult → Bool
run_lifecycle RunStatus.pending started ended error result =
    is_none started && is_none ended && is_none error && is_none result
run_lifecycle RunStatus.running started ended error result =
    is_some started && is_none ended && is_none error && is_none result
run_lifecycle RunStatus.completed started ended error result =
    is_some started && is_some ended && is_none error && is_some result
run_lifecycle RunStatus.failed started ended error result =
    is_some started && is_some ended && is_some error && is_none result
run_lifecycle RunStatus.cancelled started ended error result =
    is_some started && is_some ended && is_none result

-- The validation of a run also validates its steps, which `model_dump` has turned into mappings.
abbrev pub steps_valid : List RuntimeStep → Bool
steps_valid = all step_valid

unfoldable pub run_valid : MergeReadinessRun → Bool
run_valid run =
    steps_valid run.steps
    && run_lifecycle run.status run.started_at run.completed_at run.error run.result
