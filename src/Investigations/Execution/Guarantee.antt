-- ===== src/Investigations/Execution/Guarantee.antt =====
-- investigations/execution.py: what `execute` promises of the state that it returns.
use promptql.Prelude.{ℕ, ◌≤◌, ◌≡◌, refl, ◌∙◌, String, true, List, [], map, All, All-imp, arith}
use promptql.Prelude.Dict.{Key, text_key}
use promptql.Investigations.Plan.{ValidatedPlan, unique}
use promptql.Investigations.Execution.State.{
  ExecutionTerminationReason, RetryPolicy, ok, ExecutionStepState, remaining_tool_calls,
  deduplicate_evidence,
}
use promptql.Investigations.Execution.Locals.{
  AgentExecutor, Outside, Execution, InvestigationExecutionState, index_steps, first_execution,
}
use promptql.Investigations.Execution.Executor.{execute}
use promptql.Investigations.Execution.Safety.{Holds, Holds-bind, Settling, Running}
use promptql.Investigations.Execution.Outcome.{
  Distinct-unique, known_all, Waiting-pending, inside-pending, Holds-ok, run_steps-Final,
}
use promptql.Investigations.Execution.Listing.{
  Listed, gather-Listed, total_attempts, IsFinished, Listed-ids, Listed-total, Listed-IsFinished,
}

module _ {Value Facts : Type 0} where
  -- what an execution of a plan promises
  pub record IsExecuted (plan : ValidatedPlan Value) (limit : ℕ) (policy : RetryPolicy)
      (r : InvestigationExecutionState Value Facts) : Type 0 where
    pub same_plan : r.validated_plan ≡ plan
    pub ids : map (λ s. s.step_id) r.step_states ≡ plan.topological_step_ids
    pub finished :
        All
          (IsFinished (index_steps [] plan.plan.steps) policy r.termination_reason r.step_states)
          r.step_states
    pub used : r.budget.used_tool_calls ≡ total_attempts r.step_states
    pub limit_kept : r.budget.max_tool_calls ≡ limit
    pub within : r.budget.used_tool_calls ≤ r.budget.max_tool_calls
    pub spent :
        r.termination_reason ≡ ExecutionTerminationReason.budget_exhausted
        → remaining_tool_calls r.budget ≡ 0

  executed :
      (plan : ValidatedPlan Value) (limit : ℕ) (policy : RetryPolicy) (s : Execution Value Facts)
      (states : List ExecutionStepState)
      → Settling
          (index_steps [] plan.plan.steps)
          policy
          limit
          plan.topological_step_ids
          plan.topological_step_ids
          []
          s
        × (s.termination_reason ≡ ExecutionTerminationReason.budget_exhausted
            → remaining_tool_calls s.budget ≡ 0)
      → Listed s.step_states plan.topological_step_ids states
      → IsExecuted plan limit policy (record {
        validated_plan = plan;
        step_states = states;
        runtime_outputs = s.runtime_outputs;
        evidence = s.evidence;
        facts = s.facts;
        missing_information = s.missing_information;
        budget = s.budget;
        termination_reason = s.termination_reason;
      })
  executed plan limit policy s states (p, spent) l =
      let steps = index_steps [] plan.plan.steps in
      let order = plan.topological_step_ids in
      record {
        same_plan = refl;
        ids = Listed-ids steps policy s.termination_reason s.step_states order states l p.settled;
        finished =
            Listed-IsFinished steps policy s.termination_reason s.step_states order states l
              p.settled p.inside order states l p.settled;
        used = p.used ∙ Listed-total s.step_states order states l;
        limit_kept = p.limit_kept;
        within = p.within;
        spent = spent;
      }

  module _ ⦃key : Key Value⦄ (executor : AgentExecutor Value Facts) where
    Running-first :
        (plan : ValidatedPlan Value) (limit : ℕ) (policy : RetryPolicy) (evidence : List String)
        (facts : Facts) (outside : Outside Value)
        → let order = plan.topological_step_ids in
          Running
            (index_steps [] plan.plan.steps)
            policy
            limit
            order
            []
            order
            (first_execution order limit evidence facts outside)
    Running-first plan limit policy evidence facts outside =
        let order = plan.topological_step_ids in
        (
          record {
            settled = tt;
            waiting = All-imp (Waiting-pending order) order (known_all order);
            used = refl;
            limit_kept = refl;
            within = omega arith;
            inside = inside-pending order;
          },
          refl,
        )

    execute-Holds :
        (plan : ValidatedPlan Value) (limit : ℕ) (evidence : List String) (policy : RetryPolicy)
        (outside : Outside Value)
        → 1 ≤ policy.max_attempts
        → unique plan.topological_step_ids ≡ true
        → Holds
            (λ r. IsExecuted plan limit policy r.0)
            (execute executor plan limit evidence policy outside)
    unfolding execute Holds
    execute-Holds plan limit evidence policy outside m u = Holds-bind _ _ _ λ facts e.
        Holds-bind _ _ _ λ s e'. Holds-bind _ _ _ λ states e''.
          executed plan limit policy s states
            (Holds-ok _ _ s
              (run_steps-Final executor (index_steps [] plan.plan.steps) policy limit
                plan.topological_step_ids m plan.topological_step_ids []
                (first_execution plan.topological_step_ids limit (deduplicate_evidence evidence)
                  facts outside)
                (Distinct-unique plan.topological_step_ids u)
                (Running-first plan limit policy (deduplicate_evidence evidence) facts outside))
              e')
            (Holds-ok _ _ states (gather-Listed s.step_states plan.topological_step_ids) e'')

    -- If the policy allows an attempt and the order lists no step twice, an execution that returns
    -- lists every step of the order once, in that order, and each has ended: it succeeded or failed
    -- after between one attempt and those that the policy allows, with a result of that kind, or was
    -- blocked without an attempt. A step that succeeded comes after all its dependencies succeeded.
    -- The calls used are the attempts of the steps together, and never more than the budget; the
    -- execution ends for want of budget only when no call is left, and no other execution blocks a
    -- step for that reason.
    pub execute-IsExecuted :
        (plan : ValidatedPlan Value) (limit : ℕ) (evidence : List String) (policy : RetryPolicy)
        (outside after : Outside Value) (r : InvestigationExecutionState Value Facts)
        → 1 ≤ policy.max_attempts
        → unique plan.topological_step_ids ≡ true
        → execute executor plan limit evidence policy outside ≡ ok (r, after)
        → IsExecuted plan limit policy r
    execute-IsExecuted plan limit evidence policy outside after r m u e =
        Holds-ok _ _ (r, after) (execute-Holds plan limit evidence policy outside m u) e
