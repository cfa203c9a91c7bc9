-- ===== src/Investigations/Replanning/Rounds.antt =====
-- investigations/replanning.py: `AdaptiveInvestigationRuntime.investigate`.
use promptql.Prelude.{
  ℕ, zero, suc, ◌+◌, ◌-◌, String, ◌<>◌, show_nat, ◌&&◌, Option, none, some, List, [], ◌∷◌, ◌++◌,
  map, is_empty, leb, ltb, nat_eq, length, if◌then◌else◌,
}
use promptql.Prelude.Dict.{Key}
use promptql.Investigations.Facts.{InvestigationFact, id_of}
use promptql.Investigations.Plan.{ValidatedPlan}
use promptql.Investigations.Execution.State.{
  ExecutionError, Result, ok, err, ◌>>=◌, need, MissingInformation, remaining_tool_calls,
}
use promptql.Investigations.Execution.Locals.{Outside, InvestigationExecutionState}
use promptql.Investigations.Execution.Executor.{facts_for, execute}
use promptql.Investigations.Validation.Contracts.{PlanValidationResult}
use promptql.Investigations.Validation.Arguments.{validate}
use promptql.Investigations.Replanning.Models.{
  max_planning_rounds, max_no_progress_rounds, max_adaptive_plan_steps, default_policy,
  ContinuationReason, PlannedInvestigation, PlannerAnswer, PlanningRound,
  AdaptiveInvestigationState, Notice, AdaptiveInvestigationRuntime, Investigation,
}
use promptql.Investigations.Replanning.Context.{planner_input}
use promptql.Investigations.Replanning.Deltas.{
  difference, merge_missing_information, new_facts, summaries,
}

module _ {Value : Type 0} where
  -- `_state`
  abbrev pub state_with :
      ContinuationReason → Investigation Value → AdaptiveInvestigationState Value
  state_with reason s = record {
    rounds = s.rounds;
    evidence = s.evidence;
    facts = s.facts;
    missing_information = s.missing_information;
    action_history = s.history;
    remaining_tool_calls = s.remaining;
    continuation_reason = reason;
  }

  abbrev pub planning_round :
      ℕ
      → PlannedInvestigation Value
      → InvestigationExecutionState Value (List InvestigationFact)
      → Investigation Value
      → PlanningRound Value
  planning_round round_number planned execution s = record {
    round_number = round_number;
    plan_id = "round-" <> show_nat round_number;
    planner_metadata = planned.metadata;
    execution = execution;
    evidence_delta_ids = difference execution.evidence s.evidence;
    fact_delta_ids = difference (map id_of execution.facts) (map id_of s.facts);
  }

  -- the local variables after an execution, but for the history
  abbrev pub with_round :
      PlanningRound Value → Outside Value → Investigation Value → Investigation Value
  with_round round outside s = record s {
    evidence = round.execution.evidence;
    facts = round.execution.facts;
    missing_information =
        merge_missing_information s.missing_information round.execution.missing_information;
    rounds = s.rounds ++ round ∷ [];
    remaining = remaining_tool_calls round.execution.budget;
    no_progress_rounds =
        if is_empty round.evidence_delta_ids && is_empty round.fact_delta_ids
        then s.no_progress_rounds + 1
        else 0;
    outside = outside;
  }

  -- the reason to return after a round, if there is one
  abbrev pub after_round : Investigation Value → Option ContinuationReason
  after_round s =
      if leb max_no_progress_rounds s.no_progress_rounds
      then some ContinuationReason.no_progress
      else none

module _ {Value : Type 0} (runtime : AdaptiveInvestigationRuntime Value) where
  unfoldable pub notify : Notice Value → Investigation Value → Result (Investigation Value)
  notify notice s =
      if runtime.raises (notice, s.outside.store)
      then err ExecutionError.callback_raised
      else ok (record s { notices = s.notices ++ (notice, s.outside.store) ∷ [] })

  -- from `evidence, facts = execution.evidence, execution.facts`
  unfoldable pub end_round :
      PlannedInvestigation Value
      → PlanningRound Value
      → Outside Value
      → Investigation Value
      → Result (Option ContinuationReason × Investigation Value)
  end_round planned round outside s = do
    actions ←
        summaries planned.plan.steps (new_facts round.execution.facts round.fact_delta_ids)
          round.evidence_delta_ids round.execution.step_states
    let s₁ = record (with_round round outside s) { history = s.history ++ actions }
    s₂ ← notify (Notice.round_completed (state_with ContinuationReason.in_progress s₁)) s₁
    ok (after_round s₂, s₂)

  module _ ⦃key : Key Value⦄ where
    unfoldable pub run_plan :
        ℕ
        → PlannedInvestigation Value
        → ValidatedPlan Value
        → Investigation Value
        → Result (Option ContinuationReason × Investigation Value)
    run_plan round_number planned validated_plan s = do
      s₁ ← notify (Notice.round_planned (state_with ContinuationReason.in_progress s) planned) s
      executed ←
          execute runtime.executor validated_plan s₁.remaining s₁.evidence default_policy s₁.outside
      end_round planned (planning_round round_number planned executed.0 s₁) executed.1 s₁

    unfoldable pub run_validated :
        ℕ
        → PlannedInvestigation Value
        → PlanValidationResult Value
        → Investigation Value
        → Result (Option ContinuationReason × Investigation Value)
    run_validated round_number planned validation s =
        if validation.valid
        then (need ExecutionError.assertion_failed validation.validated_plan >>= λ validated_plan.
            run_plan round_number planned validated_plan s)
        else ok (some ContinuationReason.plan_validation_failure, s)

    unfoldable pub run_answer :
        ℕ
        → PlannerAnswer Value
        → Investigation Value
        → Result (Option ContinuationReason × Investigation Value)
    run_answer round_number PlannerAnswer.failed s = ok (some ContinuationReason.planner_failure, s)
    run_answer round_number (PlannerAnswer.planned planned) s =
        if ltb max_adaptive_plan_steps (length planned.plan.steps)
        then ok (some ContinuationReason.plan_validation_failure, s)
        else need ExecutionError.assertion_failed (
            validate runtime.registry (map (λ c. c.definition.tool_id) runtime.allowed_tools)
              planned.plan)
          >>= λ validation. run_validated round_number planned validation s

    unfoldable pub run_round :
        ℕ → Investigation Value → Result (Option ContinuationReason × Investigation Value)
    run_round round_number s = planner_input runtime round_number s >>= λ input.
        run_answer round_number (runtime.plan input) s

    abbrev pub go_on :
        (Investigation Value → Result (AdaptiveInvestigationState Value × Investigation Value))
        → Option ContinuationReason × Investigation Value
        → Result (AdaptiveInvestigationState Value × Investigation Value)
    go_on more (none, s) = more s
    go_on more (some reason, s) = ok (state_with reason s, s)

    -- the loop, with the number of rounds that are left of its range
    unfoldable pub run_rounds :
        ℕ
        → ℕ
        → Investigation Value
        → Result (AdaptiveInvestigationState Value × Investigation Value)
    run_rounds zero round_number s =
        ok (state_with ContinuationReason.max_planning_rounds_reached s, s)
    run_rounds (suc rounds) round_number s =
        let round = run_round round_number s >>= go_on (run_rounds rounds (round_number + 1)) in
        if nat_eq s.remaining 0
        then ok (state_with ContinuationReason.tool_call_budget_exhausted s, s)
        else round

    abbrev pub first_variables :
        ℕ
        → List String
        → List InvestigationFact
        → List MissingInformation
        → Outside Value
        → Investigation Value
    first_variables max_tool_calls evidence facts missing_information outside = record {
      evidence = evidence;
      facts = facts;
      missing_information = missing_information;
      history = [];
      rounds = [];
      remaining = max_tool_calls;
      no_progress_rounds = 0;
      outside = outside;
      notices = [];
    }

    -- the returned state, and the local variables at the end
    unfoldable pub investigate :
        ℕ
        → List String
        → List MissingInformation
        → ℕ
        → Outside Value
        → Result (AdaptiveInvestigationState Value × Investigation Value)
    investigate max_tool_calls initial_evidence initial_missing_information initial_rounds outside =
        facts_for runtime.executor initial_evidence outside >>= λ facts.
        run_rounds (max_planning_rounds - initial_rounds) (initial_rounds + 1) (
          first_variables max_tool_calls initial_evidence facts initial_missing_information outside)
