-- ===== src/Investigations/Runs/Snapshots.antt =====
-- workflows/investigation.py: `_snapshot_from_adaptive` and what the two callbacks save.
use promptql.Prelude.{
  ℕ, ◌+◌, ◌-◌, String, ◌<>◌, true, false, Option, none, some, List, [], ◌∷◌, ◌++◌, map, length, leb,
  show_nat, if◌then◌else◌,
}
use promptql.Prelude.Indexed.{cons_some}
use promptql.Investigations.Tools.{ToolFailure, failure_value}
use promptql.Investigations.Plan.{PlanStep}
use promptql.Investigations.Evidence.{Evidence, EvidenceStore, get_many}
use promptql.Investigations.Execution.State.{ExecutionStepStatus, ExecutionStepState}
use promptql.Investigations.Replanning.Models.{
  ContinuationReason, PlannedInvestigation, ActionSummary, PlanningRound,
  AdaptiveInvestigationState, Notice,
}
use promptql.Investigations.Replanning.Deltas.{tool_of}
use promptql.Investigations.Runs.Models.{
  InvestigationStepSnapshot, InvestigationPlanningRoundSnapshot, InvestigationRuntimeSnapshot,
  InvestigationRun,
}

abbrev pub default_tool_call_budget : ℕ
default_tool_call_budget = 10

-- `continuation_reason.value`
abbrev pub reason_value : ContinuationReason → String
reason_value ContinuationReason.in_progress = "in_progress"
reason_value ContinuationReason.complete = "complete"
reason_value ContinuationReason.max_planning_rounds_reached = "max_planning_rounds"
reason_value ContinuationReason.tool_call_budget_exhausted = "tool_call_budget_exhausted"
reason_value ContinuationReason.no_progress = "no_progress"
reason_value ContinuationReason.planner_failure = "planner_failure"
reason_value ContinuationReason.plan_validation_failure = "plan_validation_failure"

abbrev pub failure_code_of : Option ToolFailure → Option String
failure_code_of none = none
failure_code_of (some failure) = some (failure_value failure.code)

abbrev pub failure_message_of : Option ToolFailure → Option String
failure_message_of none = none
failure_message_of (some failure) = some failure.message

abbrev pub step_snapshot : ExecutionStepState → Option String → Option InvestigationStepSnapshot
step_snapshot step none = none
step_snapshot step (some tool_id) = some (record {
  step_id = step.step_id;
  tool_id = tool_id;
  status = step.status;
  attempts = step.attempts;
  failure_code = failure_code_of step.failure;
  failure_message = failure_message_of step.failure;
  block_reason = step.block_reason;
})

module _ {Value : Type 0} where
  -- `none` where a state is of no step of the plan
  unfoldable pub step_snapshots :
      List (PlanStep Value) → List ExecutionStepState → Option (List InvestigationStepSnapshot)
  step_snapshots steps [] = some []
  step_snapshots steps (step ∷ states) =
      cons_some (step_snapshot step (tool_of step.step_id steps)) (step_snapshots steps states)

  abbrev pub round_snapshot :
      PlanningRound Value
      → Option (List InvestigationStepSnapshot)
      → Option InvestigationPlanningRoundSnapshot
  round_snapshot round none = none
  round_snapshot round (some steps) = some (record {
    round_number = round.round_number;
    plan_id = round.plan_id;
    plan_validation_status = "accepted";
    planner_metadata = some round.planner_metadata;
    steps = steps;
    evidence_delta_ids = round.evidence_delta_ids;
    fact_delta_ids = round.fact_delta_ids;
    completed = true;
  })

  unfoldable pub round_snapshots :
      List (PlanningRound Value) → Option (List InvestigationPlanningRoundSnapshot)
  round_snapshots [] = some []
  round_snapshots (round ∷ rounds) =
      cons_some
        (round_snapshot round
          (step_snapshots round.execution.validated_plan.plan.steps round.execution.step_states))
        (round_snapshots rounds)

  abbrev pub snapshot_of :
      AdaptiveInvestigationState Value
      → List InvestigationPlanningRoundSnapshot
      → List ActionSummary
      → Option (List (Evidence Value))
      → Option (List InvestigationPlanningRoundSnapshot)
      → Option (InvestigationRuntimeSnapshot Value)
  snapshot_of state prior_rounds prior_actions (some content) (some rounds) = some (record {
    working_memory = record {
      evidence = state.evidence;
      evidence_content = content;
      facts = state.facts;
      missing_information = state.missing_information;
      validated_hypotheses = [];
      validated_code_findings = [];
      developer_recommendations = [];
      action_history = prior_actions ++ state.action_history;
    };
    execution_state = record {
      rounds = prior_rounds ++ rounds;
      hypothesis_generation_metadata = none;
      rejected_hypothesis_count = 0;
      code_diagnosis_metadata = none;
      rejected_code_finding_count = 0;
      max_tool_calls = default_tool_call_budget;
      used_tool_calls = default_tool_call_budget - state.remaining_tool_calls;
      remaining_tool_calls = state.remaining_tool_calls;
      termination_reason = some (reason_value state.continuation_reason);
    };
  })
  snapshot_of state prior_rounds prior_actions _ _ = none

  -- `none` where it raises, also because the validator refuses a negative number of used calls
  unfoldable pub snapshot_from_adaptive :
      AdaptiveInvestigationState Value
      → EvidenceStore Value
      → List InvestigationPlanningRoundSnapshot
      → List ActionSummary
      → Option (InvestigationRuntimeSnapshot Value)
  snapshot_from_adaptive state store prior_rounds prior_actions =
      if leb state.remaining_tool_calls default_tool_call_budget
      then snapshot_of state prior_rounds prior_actions (get_many store state.evidence)
          (round_snapshots state.rounds)
      else none

  abbrev pub pending_step : PlanStep Value → InvestigationStepSnapshot
  pending_step step = record {
    step_id = step.step_id;
    tool_id = step.tool_id;
    status = ExecutionStepStatus.pending;
    attempts = 0;
    failure_code = none;
    failure_message = none;
    block_reason = none;
  }

  abbrev pub pending_round : ℕ → PlannedInvestigation Value → InvestigationPlanningRoundSnapshot
  pending_round round_number planned = record {
    round_number = round_number;
    plan_id = "round-" <> show_nat round_number;
    plan_validation_status = "accepted";
    planner_metadata = some planned.metadata;
    steps = map pending_step planned.plan.steps;
    evidence_delta_ids = [];
    fact_delta_ids = [];
    completed = false;
  }

  abbrev pub with_pending :
      InvestigationPlanningRoundSnapshot
      → InvestigationRuntimeSnapshot Value
      → InvestigationRuntimeSnapshot Value
  with_pending round snapshot = record snapshot {
    execution_state = record snapshot.execution_state {
      rounds = snapshot.execution_state.rounds ++ round ∷ [];
    };
  }

  abbrev pub with_state :
      InvestigationRun Value
      → (InvestigationRuntimeSnapshot Value → InvestigationRuntimeSnapshot Value)
      → Option (InvestigationRuntimeSnapshot Value)
      → Option (InvestigationRun Value)
  with_state running change none = none
  with_state running change (some snapshot) =
      some (record running { state = some (change snapshot) })

  -- what `save_planned_round` and `save_completed_round` save; `none` where they raise before
  unfoldable pub saved_of :
      InvestigationRun Value
      → List InvestigationPlanningRoundSnapshot
      → List ActionSummary
      → Notice Value × EvidenceStore Value
      → Option (InvestigationRun Value)
  saved_of running prior_rounds prior_actions (Notice.round_planned state planned, store) =
      let number = length prior_rounds + length state.rounds + 1 in
      with_state running (with_pending (pending_round number planned))
        (snapshot_from_adaptive state store prior_rounds prior_actions)
  saved_of running prior_rounds prior_actions (Notice.round_completed state, store) =
      with_state running (λ snapshot. snapshot)
        (snapshot_from_adaptive state store prior_rounds prior_actions)
