-- ===== src/Investigations/Execution/Safety.antt =====
-- investigations/execution.py: each iteration of `execute` settles its step, or blocks all that are
-- left because the budget is spent.
use promptql.Prelude.{
  ℕ, ◌≤◌, ◌<◌, ◌≡◌, refl, String, Bool, true, false, Option, none, some, List, [], ◌∷◌, ◌++◌, All,
  arith, subst, if◌then◌else◌,
}
use promptql.Prelude.Dict.{Dict, text_key, lookup, insert}
use promptql.Investigations.Plan.{PlanStep}
use promptql.Investigations.Execution.State.{
  ExecutionStepStatus, ExecutionBlockReason, ExecutionTerminationReason, RetryPolicy, BudgetState,
  ExecutionError, Result, ok, err, ◌>>=◌, need, ExecutionStepState, StepStates,
  remaining_tool_calls, blocked_state, any_unfinished, is_succeeded,
}
use promptql.Investigations.Execution.Locals.{AgentExecutor, Outside, Invocation, Execution, Next}
use promptql.Investigations.Execution.Executor.{invoke_with_retries}
use promptql.Investigations.Execution.Retries.{IsInvocation, invoke_with_retries-IsInvocation}
use promptql.Investigations.Execution.Settling.{Succeeded, Becomes-insert}
use promptql.Investigations.Execution.Progress.{Progress, Distinct, Progress-settle}

-- a predicate on what a computation returns, if it returns
unfoldable pub Holds {ℓ} : {A : Type ℓ} → (A → Type 0) → Result A → Type 0
Holds P (ok a) = P a
Holds P (err e) = Unit

module _ {A B : Type 0} (P : B → Type 0) where
  pub Holds-bind :
      (m : Result A) (f : A → Result B) → ((a : A) → m ≡ ok a → Holds P (f a)) → Holds P (m >>= f)
  unfolding Holds ◌>>=◌
  Holds-bind (ok a) f h = h a refl
  Holds-bind (err e) f h = tt

module _ {B : Type 0} (P : B → Type 0) where
  pub Holds-if :
      (b : Bool) (x y : Result B)
      → (b ≡ true → Holds P x)
      → (b ≡ false → Holds P y)
      → Holds P (if b then x else y)
  Holds-if true x y hx hy = hx refl
  Holds-if false x y hx hy = hy refl

pub need_found :
    {A : Type 0} (e : ExecutionError) (o : Option A) (a : A) → need e o ≡ ok a → o ≡ some a
need_found e none a h = cc
need_found e (some b) a h = cc

succeeded_of :
    (status : ExecutionStepStatus) (rest : Result Bool)
    → (if is_succeeded status then rest else ok true) ≡ ok false
    → (status ≡ ExecutionStepStatus.succeeded) × (rest ≡ ok false)
succeeded_of ExecutionStepStatus.succeeded rest h = (refl, h)
succeeded_of _ rest h = cc

head_of :
    (o : Option ExecutionStepState) (rest : Result Bool)
    → (need ExecutionError.key_error o >>= λ state.
        if is_succeeded state.status then rest else ok true)
      ≡ ok false
    → ((state : ExecutionStepState) × (o ≡ some state)
        × (state.status ≡ ExecutionStepStatus.succeeded))
      × (rest ≡ ok false)
unfolding ◌>>=◌
head_of none rest h = cc
head_of (some state) rest h =
    let (done, more) = succeeded_of state.status rest h in ((state, refl, done), more)

-- `any(...)` answers no only if every dependency succeeded
pub any_unfinished-Succeeded :
    (states : StepStates) (ids : List String)
    → any_unfinished states ids ≡ ok false
    → All (Succeeded states) ids
unfolding any_unfinished
any_unfinished-Succeeded states [] h = tt
any_unfinished-Succeeded states (id ∷ ids) h =
    let (first, more) = head_of (lookup id states) (any_unfinished states ids) h in
    (first, any_unfinished-Succeeded states ids more)

module _ {Value Facts : Type 0} (executor : AgentExecutor Value Facts) where
  pub invocation_of :
      (tool_id : String) (arguments : Dict String Value) (policy : RetryPolicy)
      (budget : BudgetState) (outside : Outside Value) (call : Invocation Value)
      → budget.used_tool_calls < budget.max_tool_calls
      → 1 ≤ policy.max_attempts
      → invoke_with_retries executor tool_id arguments policy budget outside ≡ ok call
      → IsInvocation policy 0 budget outside call
  invocation_of tool_id arguments policy budget outside call u m e =
      let (call', e', is) =
        invoke_with_retries-IsInvocation executor tool_id arguments policy budget outside u m in
      subst (IsInvocation policy 0 budget outside) (same call' e') is
    where
      same :
          (call' : Invocation Value)
          → invoke_with_retries executor tool_id arguments policy budget outside ≡ ok call'
          → call' ≡ call
      same call' e' = cc

module _ {Value Facts : Type 0} (steps : Dict String (PlanStep Value)) (policy : RetryPolicy)
    (limit : ℕ) (order : List String) where
  -- the steps of `done` are settled and those of `todo` are pending
  abbrev pub Settling : List String → List String → Execution Value Facts → Type 0
  Settling done todo s =
      Progress steps policy limit order done todo s.termination_reason s.step_states s.budget

  abbrev pub Running : List String → List String → Execution Value Facts → Type 0
  Running done todo s =
      Settling done todo s × (s.termination_reason ≡ ExecutionTerminationReason.completed)

  -- what an iteration at `id` leaves
  abbrev pub After : List String → String → List String → Next × Execution Value Facts → Type 0
  After done id rest (Next.go_on, s) = Running (done ++ id ∷ []) rest s
  After done id rest (Next.stop, s) =
      Settling (done ++ id ∷ rest) [] s
      × (s.termination_reason ≡ ExecutionTerminationReason.budget_exhausted)
      × (remaining_tool_calls s.budget ≡ 0)

  module _ (done rest : List String) (id : String) (d : Distinct (id ∷ rest)) where
    pub After-block :
        (reason : ExecutionBlockReason) (s : Execution Value Facts)
        → (reason ≡ ExecutionBlockReason.budget_exhausted → ⊥)
        → Running done (id ∷ rest) s
        → Running
            (done ++ id ∷ [])
            rest
            (record s { step_states = insert id (blocked_state id reason) s.step_states })
    After-block reason s other (p, r) = (
      Progress-settle steps policy limit order s.termination_reason s.step_states _ id
          (blocked_state id reason) (Becomes-insert s.step_states id _) p.waiting.0 done rest
          s.budget s.budget p d.0
          (record {
            identity = refl;
            ended = refl;
            tries = omega arith;
            after = λ e. cc;
            starved = λ e. absurd (other cc);
          })
          (omega arith) refl p.within,
      r,
    )
