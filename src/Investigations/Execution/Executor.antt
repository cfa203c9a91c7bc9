-- ===== src/Investigations/Execution/Executor.antt =====
-- investigations/execution.py: `AgentExecutor.execute` and `_invoke_with_retries`. The loop over the
-- steps is `run_steps`, its body `run_step`; telemetry is left out.
use promptql.Prelude.{
  ℕ, zero, suc, ◌+◌, String, true, false, Option, none, some, List, [], ◌∷◌, nat_eq, if◌then◌else◌,
}
use promptql.Prelude.Dict.{Dict, Key, text_key, lookup, insert}
use promptql.Investigations.Tools.{ToolDefinition, get}
use promptql.Investigations.Plan.{PlanStep, ValidatedPlan}
use promptql.Investigations.Evidence.{get_many}
use promptql.Investigations.Execution.Locals.{
  AgentExecutor, Outside, Invocation, Execution, InvestigationExecutionState, Next, is_failed,
  can_retry, same_ids, called, asleep, invocation, set_state, exhaust, succeeded_state, fail_step,
  index_steps, gather, first_execution, after_step,
}
use promptql.Investigations.Execution.State.{
  ExecutionStepStatus, ExecutionBlockReason, RetryPolicy, BudgetState, ExecutionError, Result, ok,
  err, ◌>>=◌, need, delay_after_failure, remaining_tool_calls, consume_attempt, state_of,
  blocked_state, any_unfinished, merge_evidence, deduplicate_evidence, resolve_arguments,
  runtime_outputs,
}

module _ {Value Facts : Type 0} (executor : AgentExecutor Value Facts) where
  -- one round of the loop for each unit of fuel
  unfoldable pub invoke_from :
      ℕ
      → String
      → Dict String Value
      → RetryPolicy
      → ℕ
      → BudgetState
      → Outside Value
      → Result (Invocation Value)
  invoke_from zero tool_id arguments policy attempts budget outside =
      err ExecutionError.out_of_rounds
  invoke_from (suc rounds) tool_id arguments policy attempts budget outside =
      consume_attempt budget >>= λ budget'.
      let answer = executor.invoke outside.calls tool_id arguments in
      let outside' = called outside answer.1 in
      let again =
        invoke_from rounds tool_id arguments policy (attempts + 1) budget'
          (asleep outside' (delay_after_failure policy (attempts + 1))) in
      if can_retry answer.0 (attempts + 1) policy
      then (if nat_eq (remaining_tool_calls budget') 0
          then ok (invocation answer.0 (attempts + 1) budget' true outside')
          else again)
      else ok (invocation answer.0 (attempts + 1) budget' false outside')

  -- a call is tried `max_attempts` times at most
  unfoldable pub invoke_with_retries :
      String
      → Dict String Value
      → RetryPolicy
      → BudgetState
      → Outside Value
      → Result (Invocation Value)
  invoke_with_retries tool_id arguments policy budget outside =
      invoke_from policy.max_attempts tool_id arguments policy 0 budget outside

  unfoldable pub facts_for : List String → Outside Value → Result Facts
  facts_for evidence outside =
      need ExecutionError.key_error (get_many outside.store evidence) >>= λ es.
      ok (executor.derive_facts es)

  unfoldable pub refreshed_facts : List String → List String → Facts → Outside Value → Result Facts
  refreshed_facts merged evidence facts outside =
      if same_ids merged evidence then ok facts else facts_for merged outside

  module _ ⦃key : Key Value⦄ where
    unfoldable pub succeed_step :
        String
        → ToolDefinition Value
        → Invocation Value
        → Execution Value Facts
        → Result (Next × Execution Value Facts)
    succeed_step step_id definition call s = do
      let merged = merge_evidence s.evidence call.result.evidence_ids
      facts ← refreshed_facts merged s.evidence s.facts s.outside
      outputs ← runtime_outputs definition.output_fields call.result s.outside.store
      ok (
        Next.go_on,
        record (set_state step_id (succeeded_state step_id call) s) {
          evidence = merged;
          facts = facts;
          runtime_outputs = insert step_id outputs s.runtime_outputs;
        },
      )

    unfoldable pub end_step :
        String
        → ToolDefinition Value
        → List String
        → Invocation Value
        → Execution Value Facts
        → Result (Next × Execution Value Facts)
    end_step step_id definition rest call s =
        if is_failed call.result.outcome
        then ok (fail_step step_id rest call s)
        else succeed_step step_id definition call s

    unfoldable pub call_tool :
        RetryPolicy
        → String
        → String
        → Dict String Value
        → List String
        → Execution Value Facts
        → Result (Next × Execution Value Facts)
    call_tool policy step_id tool_id arguments rest s = do
      definition ← need ExecutionError.unknown_tool (get executor.registry tool_id)
      typed_input ← need ExecutionError.invalid_arguments (definition.validate_arguments arguments)
      let s₁ = set_state step_id (state_of step_id ExecutionStepStatus.running) s
      call ← invoke_with_retries tool_id typed_input policy s₁.budget s₁.outside
      end_step step_id definition rest call
          (record s₁ { budget = call.budget; outside = call.outside })

    abbrev pub call_resolved :
        RetryPolicy
        → String
        → String
        → List String
        → Execution Value Facts
        → Option (Dict String Value)
        → Result (Next × Execution Value Facts)
    call_resolved policy step_id tool_id rest s none = ok (
      Next.go_on,
      set_state step_id (blocked_state step_id ExecutionBlockReason.runtime_output_unavailable) s,
    )
    call_resolved policy step_id tool_id rest s (some arguments) =
        call_tool policy step_id tool_id arguments rest s

    unfoldable pub start_step :
        RetryPolicy
        → String
        → PlanStep Value
        → List String
        → Execution Value Facts
        → Result (Next × Execution Value Facts)
    start_step policy step_id step rest s =
        any_unfinished s.step_states step.depends_on >>= λ unfinished.
        if unfinished
        then ok (
          Next.go_on,
          set_state step_id (blocked_state step_id ExecutionBlockReason.dependency_failed) s,
        )
        else call_resolved policy step_id step.tool_id rest s
            (resolve_arguments step s.runtime_outputs)

    -- the body of the loop, at `step_id`, with the identifiers after it
    unfoldable pub run_step :
        Dict String (PlanStep Value)
        → RetryPolicy
        → String
        → List String
        → Execution Value Facts
        → Result (Next × Execution Value Facts)
    run_step steps_by_id policy step_id rest s =
        need ExecutionError.key_error (lookup step_id steps_by_id) >>= λ step.
        if nat_eq (remaining_tool_calls s.budget) 0
        then ok (Next.stop, exhaust (step_id ∷ rest) s)
        else start_step policy step_id step rest s

    unfoldable pub run_steps :
        Dict String (PlanStep Value)
        → RetryPolicy
        → List String
        → Execution Value Facts
        → Result (Execution Value Facts)
    run_steps steps_by_id policy [] s = ok s
    run_steps steps_by_id policy (step_id ∷ rest) s =
        run_step steps_by_id policy step_id rest s
        >>= after_step (run_steps steps_by_id policy rest)

    -- from a store and a number of tool calls to those after the execution
    unfoldable pub execute :
        ValidatedPlan Value
        → ℕ
        → List String
        → RetryPolicy
        → Outside Value
        → Result (InvestigationExecutionState Value Facts × Outside Value)
    execute validated_plan max_tool_calls initial_evidence policy outside = do
      let evidence = deduplicate_evidence initial_evidence
      facts ← facts_for evidence outside
      s ←
          run_steps (index_steps [] validated_plan.plan.steps) policy
            validated_plan.topological_step_ids
            (first_execution validated_plan.topological_step_ids max_tool_calls evidence facts
              outside)
      states ← gather s.step_states validated_plan.topological_step_ids
      ok (
        record {
          validated_plan = validated_plan;
          step_states = states;
          runtime_outputs = s.runtime_outputs;
          evidence = s.evidence;
          facts = s.facts;
          missing_information = s.missing_information;
          budget = s.budget;
          termination_reason = s.termination_reason;
        },
        s.outside,
      )
