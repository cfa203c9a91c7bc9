-- ===== src/Investigations/Execution/Termination.antt =====
-- investigations/execution.py: the loop of `execute` ends, and nothing in it raises.
use promptql.Prelude.{
  ℕ, ◌≤◌, ◌<◌, ◌≡◌, refl, sym, ◌∙◌, ap, String, true, Option, none, some, List, [], ◌∷◌, map, All,
  All-imp, arith, is_some, nat_eq, subst,
}
use promptql.Prelude.Dict.{Dict, Key, text_key, lookup}
use promptql.Investigations.Tools.{ToolDefinition}
use promptql.Investigations.Plan.{PlanStep, ValidatedPlan, known}
use promptql.Investigations.Execution.State.{
  RetryPolicy, BudgetState, Result, ok, remaining_tool_calls, merge_evidence, deduplicate_evidence,
  resolve_arguments,
}
use promptql.Investigations.Execution.Locals.{
  AgentExecutor, Outside, Invocation, Execution, InvestigationExecutionState, Next, is_failed,
  pending_states, after_step,
}
use promptql.Investigations.Execution.Executor.{
  invoke_with_retries, end_step, call_tool, call_resolved, start_step, run_step, run_steps, execute,
}
use promptql.Investigations.Execution.Retries.{invoke_with_retries-IsInvocation}
use promptql.Investigations.Execution.Outcome.{Waiting-pending, known_all, Holds-ok}
use promptql.Investigations.Execution.Storage.{
  Stored, merge_evidence-All, Stores, invoke_with_retries-Stores,
}
use promptql.Investigations.Evidence.{EvidenceStore}
use promptql.Investigations.Execution.Drawn.{AllObtained, AllObtained-self, AreDrawn-nil}
use promptql.Investigations.Execution.Returns.{
  Returns, Returns-bind, Returns-if, Returns-need, Covers, insert-Covers, block-Covers,
  any_unfinished-Returns, gather-Returns, Fits, IsRunnable,
}
use promptql.Investigations.Execution.Total.{
  Ready, ReadyNext, fail_step-Ready, facts_for-Returns, succeed_step-Returns,
}

module _ {Value Facts : Type 0} ⦃key : Key Value⦄ (executor : AgentExecutor Value Facts)
    (initial : EvidenceStore Value) (order : List String)
    (cites : (n : ℕ) (tool_id : String) (arguments : Dict String Value)
      → let answer = executor.invoke n tool_id arguments in
        All (λ id. known id (map (λ e. e.evidence_id) answer.1) ≡ true) answer.0.evidence_ids)
    (policy : RetryPolicy) (m : 1 ≤ policy.max_attempts) where
  end_step-Returns :
      (id : String) (definition : ToolDefinition Value) (rest : List String)
      (call : Invocation Value) (s : Execution Value Facts)
      → Ready executor initial order s
      → All (Stored s.outside.store) call.result.evidence_ids
      → Returns (ReadyNext executor initial order) (end_step executor id definition rest call s)
  unfolding end_step
  end_step-Returns id definition rest call s h c =
      Returns-if (ReadyNext executor initial order) (is_failed call.result.outcome) _ _
        (λ f. (_, refl, fail_step-Ready executor initial order rest id call s h))
        (λ f. succeed_step-Returns executor initial order id definition call s h c)

  invoke-Returns :
      (tool_id : String) (arguments : Dict String Value) (budget : BudgetState)
      (outside : Outside Value)
      → budget.used_tool_calls < budget.max_tool_calls
      → Returns
          (Stores executor cites outside)
          (invoke_with_retries executor tool_id arguments policy budget outside)
  invoke-Returns tool_id arguments budget outside left =
      let (call, e, is) =
        invoke_with_retries-IsInvocation executor tool_id arguments policy budget outside left m in
      (
        call,
        e,
        Holds-ok (Stores executor cites outside) _ call
            (invoke_with_retries-Stores executor cites tool_id arguments policy budget outside) e,
      )

  module _ (id : String) (rest : List String) (s : Execution Value Facts)
      (h : Ready executor initial order s) where
    call_resolved-Returns :
        (step : PlanStep Value) (arguments : Option (Dict String Value))
        → s.budget.used_tool_calls < s.budget.max_tool_calls
        → Fits executor initial step order
        → resolve_arguments step s.runtime_outputs ≡ arguments
        → Returns
            (ReadyNext executor initial order)
            (call_resolved executor policy id step.tool_id rest s arguments)
    unfolding call_tool
    call_resolved-Returns step none left fits e = (
      _,
      refl,
      record {
        covers = insert-Covers order s.step_states id _ h.covers;
        stored = h.stored;
        obtained = h.obtained;
        drawn = h.drawn;
      },
    )
    call_resolved-Returns step (some arguments) left fits e =
        let (typed, accepted) = fits.accepts s.runtime_outputs arguments h.drawn e in
        Returns-bind (λ d. d ≡ fits.definition) (ReadyNext executor initial order) _ _
          (Returns-need (λ d. d ≡ fits.definition) _ _ fits.definition fits.registered refl)
          λ definition same.
            Returns-bind (λ _. Unit) (ReadyNext executor initial order) _ _
              (Returns-need (λ _. Unit) _ _ typed
                (ap (λ (d : ToolDefinition Value). d.validate_arguments arguments) same ∙ accepted)
                tt)
              λ input u.
                Returns-bind (Stores executor cites s.outside) (ReadyNext executor initial order) _
                  _ (invoke-Returns step.tool_id input s.budget s.outside left)
                  λ call stores.
                    end_step-Returns id definition rest call _
                      (record {
                        covers = insert-Covers order s.step_states id _ h.covers;
                        stored = All-imp (λ i. stores.0 i) s.evidence h.stored;
                        obtained = stores.2 initial h.obtained;
                        drawn = h.drawn;
                      })
                      (stores.1)

    run_step-Returns :
        (steps : Dict String (PlanStep Value)) (step : PlanStep Value)
        → lookup id steps ≡ some step
        → Fits executor initial step order
        → Returns (ReadyNext executor initial order) (run_step executor steps policy id rest s)
    unfolding run_step start_step
    run_step-Returns steps step found fits =
        Returns-bind (λ x. x ≡ step) (ReadyNext executor initial order) _ _
          (Returns-need (λ x. x ≡ step) _ _ step found refl)
          λ x same.
            Returns-if (ReadyNext executor initial order) (nat_eq (remaining_tool_calls s.budget) 0)
              _ _
              (λ z. (
                _,
                refl,
                record {
                  covers = block-Covers order (id ∷ rest) s.step_states h.covers;
                  stored = h.stored;
                  obtained = h.obtained;
                  drawn = h.drawn;
                },
              ))
              (λ z.
                let fits' : Fits executor initial x order =
                  subst (λ y. Fits executor initial y order) (sym same) fits in
                Returns-bind (λ _. Unit) (ReadyNext executor initial order) _ _
                  (any_unfinished-Returns order s.step_states x.depends_on h.covers fits'.depends)
                  λ unfinished u.
                    Returns-if (ReadyNext executor initial order) unfinished _ _
                      (λ b. (
                        _,
                        refl,
                        record {
                          covers = insert-Covers order s.step_states id _ h.covers;
                          stored = h.stored;
                          obtained = h.obtained;
                          drawn = h.drawn;
                        },
                      ))
                      (λ b. call_resolved-Returns x _ (ground arith) fits' refl))

  after_step-Returns :
      (more : Execution Value Facts → Result (Execution Value Facts))
      → ((s : Execution Value Facts)
          → Ready executor initial order s
          → Returns (Ready executor initial order) (more s))
      → (a : Next × Execution Value Facts) → ReadyNext executor initial order a
      → Returns (Ready executor initial order) (after_step more a)
  after_step-Returns more f (Next.go_on, s) ready = f s ready
  after_step-Returns more f (Next.stop, s) ready = (s, refl, ready)

  run_steps-Returns :
      (steps : Dict String (PlanStep Value)) (ids : List String)
      → All
          (λ id.
            (step : PlanStep Value) × (lookup id steps ≡ some step)
            × Fits executor initial step order)
          ids
      → (s : Execution Value Facts) → Ready executor initial order s
      → Returns (Ready executor initial order) (run_steps executor steps policy ids s)
  unfolding run_steps
  run_steps-Returns steps [] fits s h = (s, refl, h)
  run_steps-Returns steps (id ∷ ids) fits s h =
      let (step, found, fit) = fits.0 in
      Returns-bind (ReadyNext executor initial order) (Ready executor initial order) _ _
        (run_step-Returns id ids s h steps step found fit)
        λ a ready.
          after_step-Returns _ (λ s' ready'. run_steps-Returns steps ids fits.1 s' ready') a ready

module _ {Value Facts : Type 0} ⦃key : Key Value⦄ (executor : AgentExecutor Value Facts) where
  Covers-pending : (ids : List String) → Covers ids (pending_states [] ids)
  Covers-pending ids j k = ap is_some (Waiting-pending ids j k)

  abbrev pub IsStored : InvestigationExecutionState Value Facts × Outside Value → Type 0
  IsStored (state, outside) = All (Stored outside.store) state.evidence

  -- it returns, and the evidence that it lists is in the store, which holds only what it may hold
  pub execute-Returns :
      (plan : ValidatedPlan Value) (limit : ℕ) (evidence : List String) (policy : RetryPolicy)
      (outside : Outside Value)
      → 1 ≤ policy.max_attempts
      → IsRunnable executor plan evidence outside
      → Returns
          (λ r. IsStored r × AllObtained executor outside.store r.1.store)
          (execute executor plan limit evidence policy outside)
  unfolding execute deduplicate_evidence
  execute-Returns plan limit evidence policy outside m run =
      let stored : All (Stored outside.store) (merge_evidence [] evidence) =
        merge_evidence-All (Stored outside.store) [] evidence tt run.known_evidence in
      let Ends : InvestigationExecutionState Value Facts × Outside Value → Type 0 =
        λ r. IsStored r × AllObtained executor outside.store r.1.store in
      Returns-bind (λ _. Unit) Ends _ _
        (facts_for-Returns executor (merge_evidence [] evidence) outside stored)
        λ facts u.
          Returns-bind (Ready executor outside.store plan.topological_step_ids) Ends _ _
            (run_steps-Returns executor outside.store plan.topological_step_ids run.cites policy m _
              plan.topological_step_ids run.steps _
              (record {
                covers = Covers-pending plan.topological_step_ids;
                stored = stored;
                obtained = AllObtained-self executor outside.store;
                drawn = AreDrawn-nil executor outside.store;
              }))
            λ s ready.
              Returns-bind (λ _. Unit) Ends _ _
                (gather-Returns plan.topological_step_ids s.step_states plan.topological_step_ids
                  ready.covers (known_all plan.topological_step_ids))
                λ states u. (_, refl, (ready.stored, ready.obtained))

  -- An execution returns, whatever the budget, if the policy allows an attempt and the plan fits its
  -- tools: each identifier of the order names a step whose dependencies are in the order and whose
  -- tool is registered and accepts what its arguments resolve to, with outputs whose values are those
  -- of evidence that is in the store or that a call may put there, each result of a tool cites only
  -- evidence that its call put into the store, and the initial evidence is in the store.
  pub execute-returns :
      (plan : ValidatedPlan Value) (limit : ℕ) (evidence : List String) (policy : RetryPolicy)
      (outside : Outside Value)
      → 1 ≤ policy.max_attempts
      → IsRunnable executor plan evidence outside
      → (r : InvestigationExecutionState Value Facts × Outside Value) × (execute executor plan limit
            evidence policy outside
          ≡ ok r)
  execute-returns plan limit evidence policy outside m run =
      let (r, e, u) = execute-Returns plan limit evidence policy outside m run in (r, e)
