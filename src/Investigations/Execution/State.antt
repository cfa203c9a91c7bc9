-- ===== src/Investigations/Execution/State.antt =====
-- investigations/execution.py: the budget, the retry policy, the state of an execution, and the
-- helpers of `AgentExecutor` that call no tool. A delay counts in some unit of time.
use promptql.Prelude.{
  ℕ, ◌+◌, ◌-◌, ◌*◌, ◌^◌, String, ◌<>◌, Bool, true, false, Option, none, some, List, [], ◌∷◌, ◌++◌,
  nat_eq, any, if◌then◌else◌,
}
use promptql.Prelude.Dict.{Dict, Key, text_key, lookup, insert}
use promptql.Investigations.Tools.{ToolOutcome, ToolFailure, ToolResult, failure_value}
use promptql.Investigations.Plan.{PlanArgumentValue, PlanArgument, PlanStep, known}
use promptql.Investigations.Evidence.{Evidence, EvidenceStore, get_many}

pub data ExecutionStepStatus : Type 0 where
  pending running succeeded failed blocked : ExecutionStepStatus

pub data ExecutionBlockReason : Type 0 where
  dependency_failed runtime_output_unavailable budget_exhausted : ExecutionBlockReason

pub data ExecutionTerminationReason : Type 0 where
  completed budget_exhausted : ExecutionTerminationReason

pub record RetryPolicy : Type 0 where
  pub max_attempts : ℕ
  pub initial_backoff : ℕ
  pub backoff_multiplier : ℕ

unfoldable pub delay_after_failure : RetryPolicy → ℕ → ℕ
delay_after_failure policy completed_attempts =
    policy.initial_backoff * policy.backoff_multiplier ^ (completed_attempts - 1)

pub record BudgetState : Type 0 where
  pub max_tool_calls : ℕ
  pub used_tool_calls : ℕ

-- no budget of an execution is overdrawn, so that the difference is not negative
abbrev pub remaining_tool_calls : BudgetState → ℕ
remaining_tool_calls budget = budget.max_tool_calls - budget.used_tool_calls

-- what an execution may raise: `ValueError` of the budget, `KeyError`, `UnknownToolError`,
-- `ValueError` of the arguments; `out_of_rounds` is that of a loop whose rounds were too few. What
-- runs an execution may raise a failed `assert` or validation, or what its callbacks raise
pub data ExecutionError : Type 0 where
  budget_is_exhausted key_error unknown_tool invalid_arguments out_of_rounds : ExecutionError
  assertion_failed validation_failed callback_raised : ExecutionError

pub data Result {ℓ} (A : Type ℓ) : Type ℓ where
  ok : A → Result A
  err : ExecutionError → Result A

infixl 5 ◌>>=◌
unfoldable pub ◌>>=◌ {ℓ κ} : {A : Type ℓ} {B : Type κ} → Result A → (A → Result B) → Result B
ok a >>= f = f a
err e >>= f = err e

abbrev pub need {ℓ} : {A : Type ℓ} → ExecutionError → Option A → Result A
need e none = err e
need e (some a) = ok a

unfoldable pub consume_attempt : BudgetState → Result BudgetState
consume_attempt budget =
    if nat_eq (remaining_tool_calls budget) 0
    then err ExecutionError.budget_is_exhausted
    else ok (record budget { used_tool_calls = budget.used_tool_calls + 1 })

pub record ExecutionStepState : Type 0 where
  pub step_id : String
  pub status : ExecutionStepStatus
  pub attempts : ℕ
  pub tool_result : Option ToolResult
  pub failure : Option ToolFailure
  pub block_reason : Option ExecutionBlockReason

abbrev pub state_of : String → ExecutionStepStatus → ExecutionStepState
state_of step_id status = record {
  step_id = step_id;
  status = status;
  attempts = 0;
  tool_result = none;
  failure = none;
  block_reason = none;
}

abbrev pub blocked_state : String → ExecutionBlockReason → ExecutionStepState
blocked_state step_id reason = record (state_of step_id ExecutionStepStatus.blocked) {
  block_reason = some reason;
}

abbrev pub StepStates : Type 0
StepStates = Dict String ExecutionStepState

unfoldable pub block_remaining_steps : StepStates → List String → StepStates
block_remaining_steps states [] = states
block_remaining_steps states (step_id ∷ ids) =
    block_remaining_steps
      (insert step_id (blocked_state step_id ExecutionBlockReason.budget_exhausted) states) ids

abbrev pub is_succeeded : ExecutionStepStatus → Bool
is_succeeded ExecutionStepStatus.succeeded = true
is_succeeded _ = false

-- `any(state.status is not SUCCEEDED for ...)`: the first such state ends the search
unfoldable pub any_unfinished : StepStates → List String → Result Bool
any_unfinished states [] = ok false
any_unfinished states (dependency_id ∷ ids) =
    let rest = any_unfinished states ids in
    need ExecutionError.key_error (lookup dependency_id states) >>= λ state.
    if is_succeeded state.status then rest else ok true

pub data MissingInformationKind : Type 0 where
  deployment_mapping_unavailable incident_timeline_incomplete : MissingInformationKind
  source_data_unavailable : MissingInformationKind

pub record MissingInformation : Type 0 where
  pub missing_information_id : String
  pub kind : MissingInformationKind
  pub detail : Option String
  pub related_fact_ids : List String
  pub related_hypothesis_ids : List String

abbrev pub failure_code : Option ToolFailure → String
failure_code none = "source_failure"
failure_code (some failure) = failure_value failure.code

unfoldable pub missing_source : String → Option ToolFailure → MissingInformation
missing_source step_id failure = record {
  missing_information_id = "missing:" <> step_id <> ":" <> failure_code failure;
  kind = MissingInformationKind.source_data_unavailable;
  detail = some "A planned tool call did not return usable evidence.";
  related_fact_ids = [];
  related_hypothesis_ids = [];
}

-- the set `seen` has the same members as `ids`
unfoldable pub merge_evidence : List String → List String → List String
merge_evidence ids [] = ids
merge_evidence ids (evidence_id ∷ incoming) =
    merge_evidence (if known evidence_id ids then ids else ids ++ evidence_id ∷ []) incoming

unfoldable pub deduplicate_evidence : List String → List String
deduplicate_evidence evidence = merge_evidence [] evidence

module _ {Value : Type 0} where
  abbrev pub argument_value :
      PlanArgumentValue Value → Dict String (Dict String Value) → Option Value
  argument_value (PlanArgumentValue.literal value) outputs = some value
  argument_value (PlanArgumentValue.step_output_ref step_id field) outputs =
      elim (lookup step_id outputs) [ none ↦ none | some source ↦ lookup field source ]

  unfoldable pub resolve_from :
      Dict String Value
      → List (PlanArgument Value)
      → Dict String (Dict String Value)
      → Option (Dict String Value)
  resolve_from resolved [] outputs = some resolved
  resolve_from resolved (argument ∷ more) outputs = elim (argument_value argument.value outputs) [
    | none ↦ none
    | some value ↦ resolve_from (insert argument.name value resolved) more outputs
  ]

  unfoldable pub resolve_arguments :
      PlanStep Value → Dict String (Dict String Value) → Option (Dict String Value)
  resolve_arguments step outputs = resolve_from [] step.arguments outputs

module _ {Value : Type 0} ⦃key : Key Value⦄ where
  -- the set of the values of a field
  abbrev pub add_value : Option Value → List Value → List Value
  add_value none values = values
  add_value (some v) values = if any (λ u. key.same u v) values then values else v ∷ values

  unfoldable pub field_values : String → List (Evidence Value) → List Value
  field_values field [] = []
  field_values field (evidence ∷ more) =
      add_value (evidence.content field) (field_values field more)

  abbrev pub add_output : String → List Value → Dict String Value → Dict String Value
  add_output field (v ∷ []) outputs = (field, v) ∷ outputs
  add_output field _ outputs = outputs

  -- the names of a model's fields are distinct
  unfoldable pub output_values : List String → List (Evidence Value) → Dict String Value
  output_values [] evidence = []
  output_values (field ∷ fields) evidence =
      add_output field (field_values field evidence) (output_values fields evidence)

  abbrev pub outputs_for :
      ToolOutcome → List String → List String → EvidenceStore Value → Result (Dict String Value)
  outputs_for ToolOutcome.observed fields ids store =
      need ExecutionError.key_error (get_many store ids) >>= λ evidence.
      ok (output_values fields evidence)
  outputs_for _ fields ids store = ok []

  unfoldable pub runtime_outputs :
      List String → ToolResult → EvidenceStore Value → Result (Dict String Value)
  runtime_outputs fields result store = outputs_for result.outcome fields result.evidence_ids store
