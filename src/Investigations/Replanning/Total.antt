-- ===== src/Investigations/Replanning/Total.antt =====
-- investigations/replanning.py: `investigate` returns.
use promptql.Prelude.{
  ℕ, zero, suc, ◌+◌, ◌-◌, ◌≡◌, refl, sym, ◌∙◌, subst, String, true, Option, none, some, List, [],
  ◌∷◌, ◌++◌, map, nat_eq, length, ltb, All, All-append, All-imp, ◌≤◌, arith, inl, inr,
}
use promptql.Prelude.Dict.{Key}
use promptql.Investigations.Facts.{InvestigationFact}
use promptql.Investigations.Plan.{ValidatedPlan, known}
use promptql.Investigations.Evidence.{EvidenceStore}
use promptql.Investigations.Execution.State.{
  ExecutionError, Result, ok, ◌>>=◌, MissingInformation, remaining_tool_calls,
}
use promptql.Investigations.Execution.Locals.{Outside, InvestigationExecutionState}
use promptql.Investigations.Execution.Executor.{execute}
use promptql.Investigations.Execution.Storage.{Stored, get_many_found}
use promptql.Investigations.Execution.Guarantee.{execute-IsExecuted}
use promptql.Investigations.Execution.Returns.{Returns, Returns-bind, Returns-if, Returns-need}
use promptql.Investigations.Execution.Outcome.{known_all}
use promptql.Investigations.Execution.Total.{facts_for-Returns}
use promptql.Investigations.Execution.Drawn.{AllObtained, AllObtained-self, AllObtained-trans}
use promptql.Investigations.Execution.Termination.{execute-Returns}
use promptql.Investigations.Validation.Contracts.{PlanValidationResult}
use promptql.Investigations.Validation.Sound.{IsAccepted}
use promptql.Investigations.Validation.Accepted.{IsJudged, validate-IsJudged}
use promptql.Investigations.Replanning.Models.{
  max_planning_rounds, max_adaptive_plan_steps, default_policy, ContinuationReason,
  PlannedInvestigation, PlannerAnswer, PlanningRound, AdaptiveInvestigationState, Notice,
  AdaptiveInvestigationRuntime, Investigation,
}
use promptql.Investigations.Replanning.Context.{build, planner_input}
use promptql.Investigations.Replanning.Rounds.{
  planning_round, notify, end_round, run_plan, run_validated, run_answer, run_round, go_on,
  run_rounds, first_variables, investigate,
}
use promptql.Investigations.Replanning.Kept.{allowed_ids}
use promptql.Investigations.Replanning.Runnable.{
  IsTaken, IsAble, AreIn, IsReadable, IsReadableState, state_in, IsQuiet, accepted-IsRunnable,
  summaries-Returns, All-map,
}

module _ {Value : Type 0} (runtime : AdaptiveInvestigationRuntime Value)
    (initial : EvidenceStore Value) (able : IsAble runtime initial) (budget : ℕ)
    (quiet : IsQuiet runtime budget) where
  abbrev IsHeld : Investigation Value → Type 0
  IsHeld s =
      IsReadable budget s.rounds s.evidence s.remaining s.outside.store
      × AllObtained runtime.executor initial s.outside.store

  abbrev IsHeldAfter : Option ContinuationReason × Investigation Value → Type 0
  IsHeldAfter (reason, s) = IsHeld s

  abbrev IsHeldAtEnd : AdaptiveInvestigationState Value × Investigation Value → Type 0
  IsHeldAtEnd (state, s) = IsReadableState budget state s.outside.store

  Returns-notify :
      {A : Type 0} (P : A → Type 0) (notice : Notice Value) (s : Investigation Value)
      (f : Investigation Value → Result A)
      → IsReadableState budget (state_in notice) s.outside.store
      → ((ns : List (Notice Value × EvidenceStore Value))
          → Returns P (f (record s { notices = ns })))
      → Returns P (notify runtime notice s >>= f)
  unfolding notify ◌>>=◌
  Returns-notify P notice s f readable h =
      rw (quiet notice s.outside.store readable) (h (s.notices ++ (notice, s.outside.store) ∷ []))

  input-Returns :
      (number : ℕ) (s : Investigation Value)
      → IsHeld s
      → Returns (λ _. Unit) (planner_input runtime number s)
  unfolding planner_input build
  input-Returns number s held =
      let (es, e) = get_many_found s.outside.store s.evidence held.0.held in
      Returns-bind (λ _. Unit) (λ _. Unit) _ _
        (Returns-need (λ _. Unit) ExecutionError.key_error _ es e tt)
        λ found u. rw able.some_tool (_, refl, tt)

  -- an execution leaves what the next callback can rely on
  record IsDone (planned : PlannedInvestigation Value)
      (execution : InvestigationExecutionState Value (List InvestigationFact))
      (outside : Outside Value) : Type 0 where
    stored : All (Stored outside.store) execution.evidence
    obtained : AllObtained runtime.executor initial outside.store
    in_planned : AreIn planned.plan.steps execution.step_states
    in_plan : AreIn execution.validated_plan.plan.steps execution.step_states
    left : remaining_tool_calls execution.budget ≤ budget

  end_round-Returns :
      (planned : PlannedInvestigation Value) (round : PlanningRound Value) (outside : Outside Value)
      (s : Investigation Value)
      → IsHeld s
      → IsDone planned round.execution outside
      → Returns IsHeldAfter (end_round runtime planned round outside s)
  unfolding end_round
  end_round-Returns planned round outside s held done =
      let after : IsReadable budget (s.rounds ++ round ∷ []) round.execution.evidence
          (remaining_tool_calls round.execution.budget) outside.store =
        record {
          held = done.stored;
          in_plans = All-append _ s.rounds (round ∷ []) held.0.in_plans (done.in_plan, tt);
          affordable = done.left;
        } in
      Returns-bind (λ _. Unit) IsHeldAfter _ _
        (summaries-Returns planned.plan.steps _ _ _ done.in_planned)
        λ actions u. Returns-notify IsHeldAfter _ _ _ after λ ns. (_, refl, (after, done.obtained))

  module _ ⦃key : Key Value⦄ where
    execute-IsDone :
        (planned : PlannedInvestigation Value) (order : List String) (s : Investigation Value)
        → IsHeld s
        → IsAccepted runtime.registry (allowed_ids runtime) planned.plan.steps order
        → All (IsTaken runtime initial) planned.plan.steps
        → Returns
            (λ (execution, outside). IsDone planned execution outside)
            (execute runtime.executor
              (record { plan = planned.plan; topological_step_ids = order })
              s.remaining
              s.evidence
              default_policy
              s.outside)
    execute-IsDone planned order s held acc taken =
        let plan : ValidatedPlan Value = record {
          plan = planned.plan;
          topological_step_ids = order;
        } in
        let (r, e, kept) =
          execute-Returns runtime.executor plan s.remaining s.evidence default_policy s.outside
            (omega arith)
            (accepted-IsRunnable runtime initial able plan s.evidence s.outside acc taken held.1
              held.0.held) in
        let done =
          execute-IsExecuted runtime.executor plan s.remaining s.evidence default_policy s.outside
            r.1 r.0 (omega arith) acc.2 e in
        let InPlan : String → Type 0 =
          λ id. known id (map (λ p. p.step_id) planned.plan.steps) ≡ true in
        let in_plan = All-imp (λ id k. sym (acc.3 id) ∙ k) order (known_all order) in
        let in_order = subst (All InPlan) (sym done.ids) in_plan in
        let states = All-map (λ x. x.step_id) InPlan r.0.step_states in_order in
        (
          r,
          e,
          record {
            stored = kept.0;
            obtained = AllObtained-trans runtime.executor initial s.outside.store held.1 _ kept.1;
            in_planned = states;
            in_plan = subst (λ p. AreIn p.plan.steps r.0.step_states) (sym done.same_plan) states;
            left = omega (arith, done.limit_kept, held.0.affordable);
          },
        )

    run_plan-Returns :
        (number : ℕ) (planned : PlannedInvestigation Value) (order : List String)
        (s : Investigation Value)
        → IsHeld s
        → IsAccepted runtime.registry (allowed_ids runtime) planned.plan.steps order
        → All (IsTaken runtime initial) planned.plan.steps
        → Returns IsHeldAfter (
            run_plan runtime number planned
              (record { plan = planned.plan; topological_step_ids = order })
              s)
    unfolding run_plan
    run_plan-Returns number planned order s held acc taken =
        Returns-notify IsHeldAfter _ _ _ held.0 λ ns.
          Returns-bind _ IsHeldAfter _ _ (execute-IsDone planned order s held acc taken) λ r done.
            end_round-Returns planned (planning_round number planned r.0 s) r.1 _ held done

    run_validated-Returns :
        (number : ℕ) (planned : PlannedInvestigation Value)
        (validation : PlanValidationResult Value) (s : Investigation Value)
        → IsHeld s
        → IsJudged runtime.registry (allowed_ids runtime) planned.plan validation
        → All (IsTaken runtime initial) planned.plan.steps
        → Returns IsHeldAfter (run_validated runtime number planned validation s)
    unfolding run_validated ◌>>=◌
    run_validated-Returns number planned validation s held (inl (e, _)) taken = rw e (_, refl, held)
    run_validated-Returns number planned validation s held (inr (order, e, acc)) taken =
        rw e (run_plan-Returns number planned order s held acc taken)

    run_answer-Returns :
        (number : ℕ) (answer : PlannerAnswer Value) (s : Investigation Value)
        → IsHeld s
        → ((planned : PlannedInvestigation Value)
            → answer ≡ PlannerAnswer.planned planned
            → All (IsTaken runtime initial) planned.plan.steps)
        → Returns IsHeldAfter (run_answer runtime number answer s)
    unfolding run_answer
    run_answer-Returns number PlannerAnswer.failed s held takes = (_, refl, held)
    run_answer-Returns number (PlannerAnswer.planned planned) s held takes =
        Returns-if IsHeldAfter (ltb max_adaptive_plan_steps (length planned.plan.steps)) _ _
          (λ e. (_, refl, held))
          (λ e.
            let (result, found, judged) =
              validate-IsJudged runtime.registry (allowed_ids runtime) planned.plan in
            Returns-bind (IsJudged runtime.registry (allowed_ids runtime) planned.plan) IsHeldAfter
              _ _ (Returns-need _ _ _ result found judged)
              λ validation j.
                run_validated-Returns number planned validation s held j (takes planned refl))

    go_on-Returns :
        (more : Investigation Value
          → Result (AdaptiveInvestigationState Value × Investigation Value))
        (a : Option ContinuationReason × Investigation Value)
        → IsHeldAfter a
        → ((s : Investigation Value) → IsHeld s → Returns IsHeldAtEnd (more s))
        → Returns IsHeldAtEnd (go_on runtime more a)
    go_on-Returns more (none, s) held f = f s held
    go_on-Returns more (some reason, s) held f = (_, refl, held.0)

    run_rounds-Returns :
        (rounds number : ℕ) (s : Investigation Value)
        → IsHeld s
        → Returns IsHeldAtEnd (run_rounds runtime rounds number s)
    unfolding run_rounds run_round
    run_rounds-Returns zero number s held = (_, refl, held.0)
    run_rounds-Returns (suc rounds) number s held =
        Returns-if IsHeldAtEnd (nat_eq s.remaining 0) _ _ (λ e. (_, refl, held.0))
          (λ e.
            Returns-bind IsHeldAfter IsHeldAtEnd _ _
              (Returns-bind (λ _. Unit) IsHeldAfter _ _ (input-Returns number s held)
                λ input u. run_answer-Returns number (runtime.plan input) s held (able.takes input))
              λ a held'.
                go_on-Returns (run_rounds runtime rounds (number + 1)) a held'
                  (λ s' h. run_rounds-Returns rounds (number + 1) s' h))

    -- it returns, and what it returns is readable
    pub investigate-Returns :
        (evidence : List String) (missing_information : List MissingInformation)
        (initial_rounds : ℕ) (outside : Outside Value)
        → outside.store ≡ initial
        → All (Stored outside.store) evidence
        → Returns IsHeldAtEnd
            (investigate runtime budget evidence missing_information initial_rounds outside)
    unfolding investigate
    investigate-Returns evidence missing_information initial_rounds outside same held =
        Returns-bind (λ _. Unit) IsHeldAtEnd _ _
          (facts_for-Returns runtime.executor evidence outside held)
          λ facts u.
            run_rounds-Returns (max_planning_rounds - initial_rounds) (initial_rounds + 1)
              (first_variables runtime budget evidence facts missing_information outside)
              (
                record { held = held; in_plans = tt; affordable = omega arith },
                subst (λ store. AllObtained runtime.executor store outside.store) same
                    (AllObtained-self runtime.executor outside.store),
              )

module _ {Value : Type 0} ⦃key : Key Value⦄ (runtime : AdaptiveInvestigationRuntime Value)
    (outside : Outside Value) (able : IsAble runtime outside.store) (budget : ℕ)
    (quiet : IsQuiet runtime budget) where
  -- An investigation returns, whatever plans of literal arguments the planner answers, also those
  -- that are rejected, if its initial evidence is in the store, there is a tool, validator and
  -- executor know the same tools, a result cites only evidence that its call has put into the
  -- store, and no callback raises that can read the evidence of its state and the plans of its
  -- rounds and whose calls left are within the budget. If the planner also lets steps take outputs
  -- of other steps, the tool of such a step, where the validator accepts the step, must accept
  -- what its arguments resolve to, when the outputs are values of evidence that was in the store or
  -- that a call may put there.
  pub investigate-returns :
      (evidence : List String) (missing_information : List MissingInformation) (initial_rounds : ℕ)
      → All (Stored outside.store) evidence
      → (r : AdaptiveInvestigationState Value × Investigation Value) × (investigate runtime budget
            evidence missing_information initial_rounds outside
          ≡ ok r)
  investigate-returns evidence missing_information initial_rounds held =
      let (r, e, u) =
        investigate-Returns runtime outside.store able budget quiet evidence missing_information
          initial_rounds outside refl held in
      (r, e)
