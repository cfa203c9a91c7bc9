-- ===== src/Investigations/Runs/Readable.antt =====
-- workflows/investigation.py: snapshots are made without an exception where the evidence is in the
-- store and the plans have the steps.
use promptql.Prelude.{◌≡◌, refl, true, Option, none, some, List, [], ◌∷◌, is_some, leb, All, arith}
use promptql.Investigations.Plan.{PlanStep}
use promptql.Investigations.Evidence.{EvidenceStore}
use promptql.Investigations.Execution.State.{ExecutionStepState}
use promptql.Investigations.Execution.Storage.{get_many_found}
use promptql.Investigations.Replanning.Models.{
  PlanningRound, AdaptiveInvestigationState, Notice, ActionSummary,
}
use promptql.Investigations.Replanning.Deltas.{tool_of}
use promptql.Investigations.Replanning.Runnable.{AreIn, IsReadableState, state_in, tool_found}
use promptql.Investigations.Runs.Models.{InvestigationPlanningRoundSnapshot, InvestigationRun}
use promptql.Investigations.Runs.Snapshots.{
  default_tool_call_budget, step_snapshots, round_snapshots, snapshot_from_adaptive, saved_of,
}

abbrev pub Found : {A : Type 0} → Option A → Type 0
Found {A} o = (a : A) × (o ≡ some a)

some-Found : {A : Type 0} (o : Option A) → is_some o ≡ true → Found o
some-Found none h = ground arith
some-Found (some a) h = (a, refl)

module _ {Value : Type 0} where
  steps-Found :
      (steps : List (PlanStep Value)) (states : List ExecutionStepState)
      → AreIn steps states
      → Found (step_snapshots steps states)
  unfolding step_snapshots
  steps-Found steps [] h = ([], refl)
  steps-Found steps (state ∷ states) h =
      let (tool, e) =
        some-Found (tool_of state.step_id steps) (tool_found state.step_id steps h.0) in
      let (made, e') = steps-Found steps states h.1 in rw (e, e') (_, refl)

  rounds-Found :
      (rounds : List (PlanningRound Value))
      → All (λ r. AreIn r.execution.validated_plan.plan.steps r.execution.step_states) rounds
      → Found (round_snapshots rounds)
  unfolding round_snapshots
  rounds-Found [] h = ([], refl)
  rounds-Found (round ∷ rounds) h =
      let (steps, e) =
        steps-Found round.execution.validated_plan.plan.steps round.execution.step_states h.0 in
      let (made, e') = rounds-Found rounds h.1 in rw (e, e') (_, refl)

  pub snapshot-Found :
      (state : AdaptiveInvestigationState Value) (store : EvidenceStore Value)
      (prior_rounds : List InvestigationPlanningRoundSnapshot) (prior_actions : List ActionSummary)
      → IsReadableState default_tool_call_budget state store
      → Found (snapshot_from_adaptive state store prior_rounds prior_actions)
  unfolding snapshot_from_adaptive
  snapshot-Found state store prior_rounds prior_actions readable =
      let (content, e) = get_many_found store state.evidence readable.held in
      let (rounds, e') = rounds-Found state.rounds readable.in_plans in
      let l : leb state.remaining_tool_calls default_tool_call_budget ≡ true =
        ground (arith, readable.affordable) in
      rw (l, e, e') (_, refl)

  -- a callback makes its snapshot
  pub saved-Found :
      (running : InvestigationRun Value) (prior_rounds : List InvestigationPlanningRoundSnapshot)
      (prior_actions : List ActionSummary) (notice : Notice Value) (store : EvidenceStore Value)
      → IsReadableState default_tool_call_budget (state_in notice) store
      → Found (saved_of running prior_rounds prior_actions (notice, store))
  unfolding saved_of
  saved-Found running prior_rounds prior_actions (Notice.round_planned state planned) store h =
      let (s, e) = snapshot-Found state store prior_rounds prior_actions h in rw e (_, refl)
  saved-Found running prior_rounds prior_actions (Notice.round_completed state) store h =
      let (s, e) = snapshot-Found state store prior_rounds prior_actions h in rw e (_, refl)
