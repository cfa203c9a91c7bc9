-- ===== src/Investigations/Execution/Iteration.antt =====
-- investigations/execution.py: one iteration of `execute`, on every branch.
use promptql.Prelude.{
  ℕ, ◌≤◌, ◌<◌, ◌≡◌, refl, sym, ◌∙◌, ap, String, true, false, Option, none, some, List, [], ◌∷◌,
  ◌++◌, All, arith, inl, inr, Bool-cases, nat_eq, nat_eq_iff, append_assoc,
}
use promptql.Prelude.Dict.{Dict, Key, text_key, lookup, insert}
use promptql.Investigations.Tools.{ToolDefinition}
use promptql.Investigations.Plan.{PlanStep}
use promptql.Investigations.Execution.State.{
  ExecutionStepStatus, ExecutionBlockReason, ExecutionTerminationReason, RetryPolicy, BudgetState,
  ExecutionError, ok, ExecutionStepState, StepStates, remaining_tool_calls, state_of,
  resolve_arguments,
}
use promptql.Investigations.Execution.Locals.{
  AgentExecutor, Outside, Invocation, Execution, Next, is_failed, set_state, failed_state,
  succeeded_state, fail_step,
}
use promptql.Investigations.Execution.Executor.{
  succeed_step, end_step, call_tool, call_resolved, start_step, run_step,
}
use promptql.Investigations.Execution.Retries.{IsInvocation}
use promptql.Investigations.Execution.Settling.{
  Succeeded, IsSettled, Becomes, Becomes-insert, Becomes-again,
}
use promptql.Investigations.Execution.Progress.{
  Progress, Distinct, Progress-settle, Progress-exhaust,
}
use promptql.Investigations.Execution.Safety.{
  Holds, Holds-bind, Holds-if, need_found, any_unfinished-Succeeded, invocation_of, Running, After,
  After-block,
}

-- between a tool call for `id` and the end of its step
record Called {Value Facts : Type 0} (steps : Dict String (PlanStep Value)) (policy : RetryPolicy)
    (limit : ℕ) (order : List String) (done : List String) (id : String) (rest : List String)
    (step : PlanStep Value) (call : Invocation Value) (s : Execution Value Facts) : Type 0 where
  states : StepStates
  budget : BudgetState
  outside : Outside Value
  before : Progress steps policy limit order done (id ∷ rest) s.termination_reason states budget
  entered : Becomes states s.step_states id (state_of id ExecutionStepStatus.running)
  made : IsInvocation policy 0 budget outside call
  charged : s.budget ≡ call.budget
  going : s.termination_reason ≡ ExecutionTerminationReason.completed
  found : lookup id steps ≡ some step
  ready : All (Succeeded states) step.depends_on

module _ {Value Facts : Type 0} (steps : Dict String (PlanStep Value)) (policy : RetryPolicy)
    (limit : ℕ) (order : List String) (done rest : List String) (id : String)
    (d : Distinct (id ∷ rest)) where
  module _ (step : PlanStep Value) (call : Invocation Value) (s : Execution Value Facts)
      (c : Called steps policy limit order done id rest step call s) where
    -- the state that ends the step replaces the running one
    Progress-called :
        (state : ExecutionStepState)
        → IsSettled steps policy s.termination_reason c.states id state
        → state.attempts ≡ call.attempts
        → Progress steps policy limit order
            (done ++ id ∷ [])
            rest
            s.termination_reason
            (insert id state s.step_states)
            s.budget
    Progress-called state is e =
        Progress-settle steps policy limit order s.termination_reason c.states _ id state
          (Becomes-again c.states s.step_states id _ state c.entered) c.before.waiting.0 done rest
          c.budget s.budget c.before d.0 is
          (omega (arith, ap (λ b. b.used_tool_calls) c.charged, c.made.used, c.made.counted, e))
          (omega (arith, ap (λ b. b.max_tool_calls) c.charged, c.made.limit))
          (omega (
            arith,
            ap (λ b. b.used_tool_calls) c.charged,
            ap (λ b. b.max_tool_calls) c.charged,
            c.made.within,
          ))

    failed_IsSettled :
        is_failed call.result.outcome ≡ true
        → IsSettled steps policy s.termination_reason c.states id (failed_state id call)
    failed_IsSettled f = record {
      identity = refl;
      ended = (omega (arith, c.made.counted), f);
      tries = c.made.most;
      after = λ e. cc;
      starved = λ e. cc;
    }

    succeeded_IsSettled :
        is_failed call.result.outcome ≡ false
        → IsSettled steps policy s.termination_reason c.states id (succeeded_state id call)
    succeeded_IsSettled f = record {
      identity = refl;
      ended = (omega (arith, c.made.counted), f);
      tries = c.made.most;
      after = λ e. (step, c.found, c.ready);
      starved = λ e. cc;
    }

    fail_step-After :
        is_failed call.result.outcome ≡ true
        → After steps policy limit order done id rest (fail_step id rest call s)
    unfolding fail_step
    fail_step-After f = elim (Bool-cases call.budget_exhausted) [
      | inl h ↦ rw h (
        rw (sym (append_assoc done (id ∷ []) rest)) (
            Progress-exhaust steps policy limit order (done ++ id ∷ []) rest s.termination_reason _
              s.budget (Progress-called (failed_state id call) (failed_IsSettled f) refl) d.1),
        refl,
        ap remaining_tool_calls c.charged ∙ c.made.spent h,
      )
      | inr h ↦ rw h (Progress-called (failed_state id call) (failed_IsSettled f) refl, c.going)
    ]

    succeeded-After :
        is_failed call.result.outcome ≡ false
        → (evidence : List String) (facts : Facts) (outputs : Dict String Value)
        → After steps policy limit order done id rest (
          Next.go_on,
          record (set_state id (succeeded_state id call) s) {
            evidence = evidence;
            facts = facts;
            runtime_outputs = insert id outputs s.runtime_outputs;
          },
        )
    succeeded-After f evidence facts outputs =
        (Progress-called (succeeded_state id call) (succeeded_IsSettled f) refl, c.going)

    module _ ⦃key : Key Value⦄ (executor : AgentExecutor Value Facts) where
      succeed_step-After :
          (definition : ToolDefinition Value)
          → is_failed call.result.outcome ≡ false
          → Holds
              (After steps policy limit order done id rest)
              (succeed_step executor id definition call s)
      unfolding succeed_step Holds
      succeed_step-After definition f = Holds-bind _ _ _ λ facts e. Holds-bind _ _ _ λ outputs e'.
          (Progress-called (succeeded_state id call) (succeeded_IsSettled f) refl, c.going)

      end_step-After :
          (definition : ToolDefinition Value)
          → Holds
              (After steps policy limit order done id rest)
              (end_step executor id definition rest call s)
      unfolding end_step Holds
      end_step-After definition =
          Holds-if _ _ _ _ (λ f. fail_step-After f) (λ f. succeed_step-After definition f)

  module _ ⦃key : Key Value⦄ (executor : AgentExecutor Value Facts) (m : 1 ≤ policy.max_attempts)
      (s : Execution Value Facts) (r : Running steps policy limit order done (id ∷ rest) s)
      (left : s.budget.used_tool_calls < s.budget.max_tool_calls) where
    call_tool-After :
        (step : PlanStep Value) (arguments : Dict String Value)
        → lookup id steps ≡ some step
        → All (Succeeded s.step_states) step.depends_on
        → Holds
            (After steps policy limit order done id rest)
            (call_tool executor policy id step.tool_id arguments rest s)
    unfolding call_tool
    call_tool-After step arguments found ready = Holds-bind _ _ _ λ definition e.
        Holds-bind _ _ _ λ typed e'. Holds-bind _ _ _ λ call e''.
          end_step-After step call _
            (record {
              states = s.step_states;
              budget = s.budget;
              outside = s.outside;
              before = r.0;
              entered = Becomes-insert s.step_states id _;
              made =
                  invocation_of executor step.tool_id typed policy s.budget s.outside call left m
                    e'';
              charged = refl;
              going = r.1;
              found = found;
              ready = ready;
            })
            executor definition

    call_resolved-After :
        (step : PlanStep Value) (arguments : Option (Dict String Value))
        → lookup id steps ≡ some step
        → All (Succeeded s.step_states) step.depends_on
        → Holds
            (After steps policy limit order done id rest)
            (call_resolved executor policy id step.tool_id rest s arguments)
    unfolding Holds
    call_resolved-After step none found ready =
        After-block steps policy limit order done rest id d
          ExecutionBlockReason.runtime_output_unavailable s (λ e. cc) r
    call_resolved-After step (some arguments) found ready =
        call_tool-After step arguments found ready

    start_step-After :
        (step : PlanStep Value)
        → lookup id steps ≡ some step
        → Holds
            (After steps policy limit order done id rest)
            (start_step executor policy id step rest s)
    unfolding start_step Holds
    start_step-After step found = Holds-bind _ _ _ λ unfinished e.
        Holds-if _ unfinished _ _
          (λ h.
            After-block steps policy limit order done rest id d
              ExecutionBlockReason.dependency_failed s (λ e. cc) r)
          (λ h.
            call_resolved-After step (resolve_arguments step s.runtime_outputs) found
              (any_unfinished-Succeeded s.step_states step.depends_on (e ∙ ap ok h)))

  module _ ⦃key : Key Value⦄ (executor : AgentExecutor Value Facts) where
    pub run_step-After :
        (s : Execution Value Facts)
        → 1 ≤ policy.max_attempts
        → Running steps policy limit order done (id ∷ rest) s
        → Holds
            (After steps policy limit order done id rest)
            (run_step executor steps policy id rest s)
    unfolding run_step Holds
    run_step-After s m r = Holds-bind _ _ _ λ step e.
        Holds-if _ (nat_eq (remaining_tool_calls s.budget) 0) _ _
          (λ z. (
            Progress-exhaust steps policy limit order done (id ∷ rest) s.termination_reason
                s.step_states s.budget r.0 d,
            refl,
            (nat_eq_iff (remaining_tool_calls s.budget) 0).0 z,
          ))
          (λ z.
            start_step-After executor m s r (ground arith) step
              (need_found ExecutionError.key_error (lookup id steps) step e))
