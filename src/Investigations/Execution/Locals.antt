-- ===== src/Investigations/Execution/Locals.antt =====
-- investigations/execution.py: what `AgentExecutor` is given, the local variables of `execute`, and
-- the parts of its methods that call no tool.
use promptql.Prelude.{
  ℕ, ◌+◌, String, Bool, true, false, ◌&&◌, Option, none, some, List, [], ◌∷◌, ◌++◌, ltb, ◌==◌,
  if◌then◌else◌,
}
use promptql.Prelude.Dict.{Dict, text_key, lookup, insert}
use promptql.Investigations.Tools.{ToolOutcome, ToolFailure, ToolResult, ToolRegistry, retryable}
use promptql.Investigations.Plan.{PlanStep, ValidatedPlan}
use promptql.Investigations.Evidence.{Evidence, EvidenceStore, put_all}
use promptql.Investigations.Execution.State.{
  ExecutionStepStatus, ExecutionTerminationReason, RetryPolicy, BudgetState, ExecutionError, Result,
  ok, ◌>>=◌, need, ExecutionStepState, StepStates, MissingInformation, state_of,
  block_remaining_steps, missing_source,
}

-- the constructor's arguments: the `n`-th call of the invoker answers with a result, and has put
-- evidence into the store
pub record AgentExecutor (Value Facts : Type 0) : Type 0 where
  pub registry : ToolRegistry Value
  pub invoke : ℕ → String → Dict String Value → ToolResult × List (Evidence Value)
  pub derive_facts : List (Evidence Value) → Facts

-- the store, the number of tool calls so far, and the delays that were slept
pub record Outside (Value : Type 0) : Type 0 where
  pub store : EvidenceStore Value
  pub calls : ℕ
  pub slept : List ℕ

-- what `_invoke_with_retries` returns
pub record Invocation (Value : Type 0) : Type 0 where
  pub result : ToolResult
  pub attempts : ℕ
  pub budget : BudgetState
  pub budget_exhausted : Bool
  pub outside : Outside Value

-- the local variables of `execute`
pub record Execution (Value Facts : Type 0) : Type 0 where
  pub step_states : StepStates
  pub runtime_outputs : Dict String (Dict String Value)
  pub evidence : List String
  pub facts : Facts
  pub missing_information : List MissingInformation
  pub budget : BudgetState
  pub termination_reason : ExecutionTerminationReason
  pub outside : Outside Value

pub record InvestigationExecutionState (Value Facts : Type 0) : Type 0 where
  pub validated_plan : ValidatedPlan Value
  pub step_states : List ExecutionStepState
  pub runtime_outputs : Dict String (Dict String Value)
  pub evidence : List String
  pub facts : Facts
  pub missing_information : List MissingInformation
  pub budget : BudgetState
  pub termination_reason : ExecutionTerminationReason

-- how an iteration ends
pub data Next : Type 0 where
  go_on stop : Next

abbrev pub is_failed : ToolOutcome → Bool
is_failed ToolOutcome.failed = true
is_failed _ = false

abbrev pub worth_retrying : Option ToolFailure → Bool
worth_retrying none = false
worth_retrying (some failure) = retryable failure

unfoldable pub can_retry : ToolResult → ℕ → RetryPolicy → Bool
can_retry result attempts policy =
    is_failed result.outcome && (worth_retrying result.failure && ltb attempts policy.max_attempts)

abbrev pub same_ids : List String → List String → Bool
same_ids [] [] = true
same_ids (x ∷ xs) (y ∷ ys) = x == y && same_ids xs ys
same_ids _ _ = false

module _ {Value : Type 0} where
  abbrev pub called : Outside Value → List (Evidence Value) → Outside Value
  called outside evidence = record outside {
    store = put_all outside.store evidence;
    calls = outside.calls + 1;
  }

  abbrev pub asleep : Outside Value → ℕ → Outside Value
  asleep outside delay = record outside { slept = outside.slept ++ delay ∷ [] }

  abbrev pub invocation : ToolResult → ℕ → BudgetState → Bool → Outside Value → Invocation Value
  invocation result attempts budget exhausted outside = record {
    result = result;
    attempts = attempts;
    budget = budget;
    budget_exhausted = exhausted;
    outside = outside;
  }

unfoldable pub pending_states : StepStates → List String → StepStates
pending_states states [] = states
pending_states states (step_id ∷ ids) =
    pending_states (insert step_id (state_of step_id ExecutionStepStatus.pending) states) ids

-- `tuple(step_states[step_id] for step_id in ids)`
unfoldable pub gather : StepStates → List String → Result (List ExecutionStepState)
gather states [] = ok []
gather states (step_id ∷ ids) = need ExecutionError.key_error (lookup step_id states) >>= λ state.
    gather states ids >>= λ more. ok (state ∷ more)

module _ {Value : Type 0} where
  abbrev pub failed_state : String → Invocation Value → ExecutionStepState
  failed_state step_id call = record {
    step_id = step_id;
    status = ExecutionStepStatus.failed;
    attempts = call.attempts;
    tool_result = some call.result;
    failure = call.result.failure;
    block_reason = none;
  }

  abbrev pub succeeded_state : String → Invocation Value → ExecutionStepState
  succeeded_state step_id call = record {
    step_id = step_id;
    status = ExecutionStepStatus.succeeded;
    attempts = call.attempts;
    tool_result = some call.result;
    failure = none;
    block_reason = none;
  }

  -- `{step.step_id: step for step in steps}`
  unfoldable pub index_steps :
      Dict String (PlanStep Value) → List (PlanStep Value) → Dict String (PlanStep Value)
  index_steps index [] = index
  index_steps index (step ∷ steps) = index_steps (insert step.step_id step index) steps

module _ {Value Facts : Type 0} where
  abbrev pub set_state : String → ExecutionStepState → Execution Value Facts → Execution Value Facts
  set_state step_id state s = record s { step_states = insert step_id state s.step_states }

  -- the block that ends a loop whose budget is spent
  abbrev pub exhaust : List String → Execution Value Facts → Execution Value Facts
  exhaust ids s = record s {
    step_states = block_remaining_steps s.step_states ids;
    termination_reason = ExecutionTerminationReason.budget_exhausted;
  }

  unfoldable pub fail_step :
      String → List String → Invocation Value → Execution Value Facts → Next × Execution Value Facts
  fail_step step_id rest call s =
      let s' = record (set_state step_id (failed_state step_id call) s) {
        missing_information =
            s.missing_information ++ missing_source step_id call.result.failure ∷ [];
      } in
      if call.budget_exhausted then (Next.stop, exhaust rest s') else (Next.go_on, s')

  -- `break` ends the loop
  abbrev pub after_step :
      (Execution Value Facts → Result (Execution Value Facts))
      → Next × Execution Value Facts
      → Result (Execution Value Facts)
  after_step more (Next.go_on, s) = more s
  after_step more (Next.stop, s) = ok s

  abbrev pub first_execution :
      List String → ℕ → List String → Facts → Outside Value → Execution Value Facts
  first_execution ids max_tool_calls evidence facts outside = record {
    step_states = pending_states [] ids;
    runtime_outputs = [];
    evidence = evidence;
    facts = facts;
    missing_information = [];
    budget = record { max_tool_calls = max_tool_calls; used_tool_calls = 0 };
    termination_reason = ExecutionTerminationReason.completed;
    outside = outside;
  }
