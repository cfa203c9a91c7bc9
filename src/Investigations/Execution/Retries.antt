-- ===== src/Investigations/Execution/Retries.antt =====
-- investigations/execution.py: `_invoke_with_retries` returns, within its budget and its attempts.
use promptql.Prelude.{
  ℕ, zero, suc, ◌+◌, ◌-◌, ◌*◌, ◌^◌, ◌≤◌, ◌<◌, ◌≡◌, refl, String, Bool, true, false, List, [], ◌∷◌,
  ◌++◌, append-nil, append_assoc, arith, inl, inr, Bool-cases, nat_eq, nat_eq_iff, sym, ap, ◌∙◌,
}
use promptql.Prelude.Dict.{Dict}
use promptql.Investigations.Tools.{ToolResult}
use promptql.Investigations.Evidence.{Evidence}
use promptql.Investigations.Execution.State.{
  RetryPolicy, BudgetState, ok, ◌>>=◌, remaining_tool_calls, consume_attempt, delay_after_failure,
}
use promptql.Investigations.Execution.Locals.{
  AgentExecutor, Outside, Invocation, called, asleep, invocation, is_failed, can_retry,
}
use promptql.Investigations.Execution.Executor.{invoke_from, invoke_with_retries}

-- the delays after the attempts number `a + 1` to `a + n`
abbrev pub backoffs : RetryPolicy → ℕ → ℕ → List ℕ
backoffs policy a zero = []
backoffs policy a (suc n) =
    policy.initial_backoff * policy.backoff_multiplier ^ a ∷ backoffs policy (a + 1) n

-- what a call that begins after `tried` attempts has done
pub record IsInvocation {Value : Type 0} (policy : RetryPolicy) (tried : ℕ) (budget : BudgetState)
    (outside : Outside Value) (call : Invocation Value) : Type 0 where
  pub again : ℕ
  pub counted : call.attempts ≡ tried + suc again
  pub most : call.attempts ≤ policy.max_attempts
  pub used : call.budget.used_tool_calls ≡ budget.used_tool_calls + suc again
  pub limit : call.budget.max_tool_calls ≡ budget.max_tool_calls
  pub within : call.budget.used_tool_calls ≤ call.budget.max_tool_calls
  pub spent : call.budget_exhausted ≡ true → remaining_tool_calls call.budget ≡ 0
  pub gave_up : call.budget_exhausted ≡ true → is_failed call.result.outcome ≡ true
  pub calls : call.outside.calls ≡ outside.calls + suc again
  pub slept : call.outside.slept ≡ outside.slept ++ backoffs policy tried again

consume_attempt_ok :
    (budget : BudgetState)
    → budget.used_tool_calls < budget.max_tool_calls
    → consume_attempt budget ≡ ok (record budget { used_tool_calls = budget.used_tool_calls + 1 })
unfolding consume_attempt
consume_attempt_ok budget h = ground arith

can_retry_fits :
    {Value : Type 0} (call : Invocation Value) (policy : RetryPolicy)
    → can_retry call.result call.attempts policy ≡ true
    → (call.attempts < policy.max_attempts) × (is_failed call.result.outcome ≡ true)
unfolding can_retry
can_retry_fits call policy h = ground arith

false_end : {P : Type 0} → false ≡ true → P
false_end h = cc

back_one : (n : ℕ) → n + 1 - 1 ≡ n
back_one n = omega arith

abbrev one_more : BudgetState → BudgetState
one_more budget = record budget { used_tool_calls = budget.used_tool_calls + 1 }

module _ {Value : Type 0} (policy : RetryPolicy) (tried : ℕ) (budget : BudgetState)
    (outside : Outside Value) where
  -- the call ends with this attempt
  IsInvocation-last :
      (result : ToolResult) (exhausted : Bool) (evidence : List (Evidence Value))
      → budget.used_tool_calls < budget.max_tool_calls
      → tried < policy.max_attempts
      → (exhausted ≡ true → remaining_tool_calls (one_more budget) ≡ 0)
      → (exhausted ≡ true → is_failed result.outcome ≡ true)
      → IsInvocation policy tried budget outside
          (invocation result (tried + 1) (one_more budget) exhausted (called outside evidence))
  IsInvocation-last result exhausted evidence u t spent gave_up = record {
    again = 0;
    counted = refl;
    most = omega arith;
    used = refl;
    limit = refl;
    within = omega arith;
    spent = spent;
    gave_up = gave_up;
    calls = refl;
    slept = sym (append-nil outside.slept);
  }

  -- it goes on after this attempt
  IsInvocation-next :
      (evidence : List (Evidence Value)) (call : Invocation Value)
      → IsInvocation policy
          (tried + 1)
          (one_more budget)
          (asleep (called outside evidence) (delay_after_failure policy (tried + 1)))
          call
      → IsInvocation policy tried budget outside call
  unfolding delay_after_failure
  IsInvocation-next evidence call h = record {
    again = suc h.again;
    counted = omega (arith, h.counted);
    most = h.most;
    used = omega (arith, h.used);
    limit = h.limit;
    within = h.within;
    spent = h.spent;
    gave_up = h.gave_up;
    calls = omega (arith, h.calls);
    slept =
        h.slept
        ∙ append_assoc outside.slept _ _
        ∙ ap
            (λ k.
              outside.slept
              ++ policy.initial_backoff * policy.backoff_multiplier ^ k
                ∷ backoffs policy (tried + 1) h.again)
            (back_one tried);
  }

module _ {Value Facts : Type 0} (executor : AgentExecutor Value Facts) where
  invoke_from-returns :
      (rounds : ℕ) (tool_id : String) (arguments : Dict String Value) (policy : RetryPolicy)
      (tried : ℕ) (budget : BudgetState) (outside : Outside Value)
      → budget.used_tool_calls < budget.max_tool_calls
      → tried < policy.max_attempts
      → policy.max_attempts ≤ tried + rounds
      → (call : Invocation Value) × (invoke_from executor rounds tool_id arguments policy tried
            budget outside
          ≡ ok call)
        × IsInvocation policy tried budget outside call
  unfolding invoke_from ◌>>=◌
  invoke_from-returns zero tool_id arguments policy tried budget outside u t r =
      absurd (omega arith)
  invoke_from-returns (suc rounds) tool_id arguments policy tried budget outside u t r =
      rw (consume_attempt_ok budget u) (elim (Bool-cases (can_retry result (tried + 1) policy)) [
        | inr h ↦ rw h (
          _,
          refl,
          IsInvocation-last policy tried budget outside result false _ u t false_end false_end,
        )
        | inl h ↦
            let (more, fails) = can_retry_fits (here true) policy h in
            rw h (elim (Bool-cases (nat_eq (remaining_tool_calls (one_more budget)) 0)) [
              | inl z ↦ rw z (
                _,
                refl,
                IsInvocation-last policy tried budget outside result true _ u t
                    (λ e. (nat_eq_iff (remaining_tool_calls (one_more budget)) 0).0 z) (λ e. fails),
              )
              | inr z ↦
                  let (call, e, is) =
                    invoke_from-returns rounds tool_id arguments policy (tried + 1)
                      (one_more budget) _ (ground arith) more (omega arith) in
                  rw z (call, e, IsInvocation-next policy tried budget outside _ call is)
            ])
      ])
    where
      result : ToolResult
      result = (executor.invoke outside.calls tool_id arguments).0

      here : Bool → Invocation Value
      here exhausted =
          invocation result (tried + 1) (one_more budget) exhausted
            (called outside (executor.invoke outside.calls tool_id arguments).1)

  -- With a call left in the budget and a policy that allows an attempt, a tool call returns. It makes
  -- at least one attempt and at most those of the policy, takes each from the budget and never more
  -- than there is, gives up for want of budget only after a failure and when nothing is left, and
  -- sleeps between two attempts for the initial delay, multiplied once for each attempt before.
  pub invoke_with_retries-IsInvocation :
      (tool_id : String) (arguments : Dict String Value) (policy : RetryPolicy)
      (budget : BudgetState) (outside : Outside Value)
      → budget.used_tool_calls < budget.max_tool_calls
      → 1 ≤ policy.max_attempts
      → (call : Invocation Value) × (invoke_with_retries executor tool_id arguments policy budget
            outside
          ≡ ok call)
        × IsInvocation policy 0 budget outside call
  unfolding invoke_with_retries
  invoke_with_retries-IsInvocation tool_id arguments policy budget outside u m =
      invoke_from-returns policy.max_attempts tool_id arguments policy 0 budget outside u
        (omega arith) (omega arith)
