-- ===== src/Investigations/Runs/Budget.antt =====
-- workflows/investigation.py: the rounds and the tool calls that a snapshot counts.
use promptql.Prelude.{
  ℕ, suc, ◌+◌, ◌-◌, ◌≤◌, ◌≡◌, refl, ◌∙◌, subst, String, Option, none, some, List, [], ◌∷◌, ◌++◌,
  length, length-append, arith,
}
use promptql.Prelude.Dict.{Dict}
use promptql.Prelude.Indexed.{consed}
use promptql.Investigations.Plan.{PlanStep}
use promptql.Investigations.Evidence.{Evidence, EvidenceStore, get_many}
use promptql.Investigations.Execution.State.{ExecutionStepState, remaining_tool_calls}
use promptql.Investigations.Execution.Listing.{total_attempts}
use promptql.Investigations.Validation.Contracts.{Contract}
use promptql.Investigations.Replanning.Models.{
  max_planning_rounds, ActionSummary, PlanningRound, AdaptiveInvestigationState,
}
use promptql.Investigations.Replanning.Deltas.{tool_of}
use promptql.Investigations.Replanning.Chain.{AreRounds}
use promptql.Investigations.Runs.Models.{
  InvestigationStepSnapshot, InvestigationPlanningRoundSnapshot, InvestigationRuntimeSnapshot,
}
use promptql.Investigations.Runs.Snapshots.{
  default_tool_call_budget, step_snapshot, step_snapshots, round_snapshot, round_snapshots,
  snapshot_of, snapshot_from_adaptive,
}

abbrev attempts_in : List InvestigationStepSnapshot → ℕ
attempts_in [] = 0
attempts_in (step ∷ steps) = step.attempts + attempts_in steps

abbrev pub attempts_of : List InvestigationPlanningRoundSnapshot → ℕ
attempts_of [] = 0
attempts_of (round ∷ rounds) = attempts_in round.steps + attempts_of rounds

abbrev pub AreNumbered : ℕ → List InvestigationPlanningRoundSnapshot → Type 0
AreNumbered n [] = Unit
AreNumbered n (round ∷ rounds) = (round.round_number ≡ n) × AreNumbered (n + 1) rounds

-- rounds, numbered from one and no more than the limit, whose attempts and the calls that are left
-- are the budget of a case
pub record AreWithin (rounds : List InvestigationPlanningRoundSnapshot) (left : ℕ) : Type 0 where
  pub numbered : AreNumbered 1 rounds
  pub bounded : length rounds ≤ max_planning_rounds
  pub spent : attempts_of rounds + left ≡ default_tool_call_budget

-- those of a snapshot, which counts its calls
pub record IsWithin {Value : Type 0} (s : InvestigationRuntimeSnapshot Value) : Type 0 where
  pub rounds : AreWithin s.execution_state.rounds s.execution_state.remaining_tool_calls
  pub counted : s.execution_state.used_tool_calls ≡ attempts_of s.execution_state.rounds

AreNumbered-append :
    (n : ℕ) (xs ys : List InvestigationPlanningRoundSnapshot)
    → AreNumbered n xs
    → AreNumbered (n + length xs) ys
    → AreNumbered n (xs ++ ys)
AreNumbered-append n [] ys h k = subst (λ m. AreNumbered m ys) (omega arith) k
AreNumbered-append n (x ∷ xs) ys h k =
    (h.0, AreNumbered-append (n + 1) xs ys h.1 (subst (λ m. AreNumbered m ys) (omega arith) k))

attempts_of-append :
    (xs ys : List InvestigationPlanningRoundSnapshot)
    → attempts_of (xs ++ ys) ≡ attempts_of xs + attempts_of ys
attempts_of-append [] ys = omega arith
attempts_of-append (x ∷ xs) ys = omega (arith, attempts_of-append xs ys)

step_lem :
    (state : ExecutionStepState) (tool : Option String) (s : InvestigationStepSnapshot)
    → step_snapshot state tool ≡ some s
    → s.attempts ≡ state.attempts
step_lem state none s e = ground arith
step_lem state (some tool) s e = ground arith

module _ {Value : Type 0} where
  steps_lem :
      (steps : List (PlanStep Value)) (states : List ExecutionStepState)
      (made : List InvestigationStepSnapshot)
      → step_snapshots steps states ≡ some made
      → attempts_in made ≡ total_attempts states
  unfolding step_snapshots total_attempts
  steps_lem steps [] made e = ground arith
  steps_lem steps (state ∷ states) made e =
      let (s, more, e₁, e₂, same) =
        consed (step_snapshot state (tool_of state.step_id steps)) (step_snapshots steps states)
          made e in
      subst (λ z. attempts_in z ≡ state.attempts + total_attempts states) same
        (omega (
          arith,
          step_lem state (tool_of state.step_id steps) s e₁,
          steps_lem steps states more e₂,
        ))

  round_lem :
      (round : PlanningRound Value) (steps : Option (List InvestigationStepSnapshot))
      (made : InvestigationPlanningRoundSnapshot)
      → round_snapshot round steps ≡ some made
      → (steps ≡ some made.steps) × (made.round_number ≡ round.round_number)
  round_lem round none made e = ground arith
  round_lem round (some steps) made e = ground arith

  module _ (registry : Dict String (Contract Value)) (allowed : List String) where
    rounds_lem :
        (n budget left : ℕ) (rounds : List (PlanningRound Value))
        (made : List InvestigationPlanningRoundSnapshot)
        → AreRounds registry allowed n budget rounds left
        → round_snapshots rounds ≡ some made
        → AreNumbered n made × (length made ≡ length rounds) × (attempts_of made + left ≡ budget)
    unfolding round_snapshots
    rounds_lem n budget left [] [] h e = (tt, refl, omega arith)
    rounds_lem n budget left [] (x ∷ made) h e = ground arith
    rounds_lem n budget left (round ∷ rounds) made h e =
        let steps = round.execution.validated_plan.plan.steps in
        let states = round.execution.step_states in
        let (r, more, e₁, e₂, same) =
          consed (round_snapshot round (step_snapshots steps states)) (round_snapshots rounds) made
            e in
        let (made_steps, number) = round_lem round (step_snapshots steps states) r e₁ in
        let attempts = steps_lem steps states r.steps made_steps in
        let (numbered, long, spent) =
          rounds_lem (n + 1) (remaining_tool_calls round.execution.budget) left rounds more h.1
            e₂ in
        let done = h.0.executed in
        subst
          (λ z.
            AreNumbered n z × (length z ≡ suc (length rounds)) × (attempts_of z + left ≡ budget))
          same
          (
            (number ∙ h.0.numbered, numbered),
            omega (arith, long),
            omega (arith, spent, attempts, done.used, done.limit_kept, done.within),
          )

    made_of :
        (state : AdaptiveInvestigationState Value)
        (prior_rounds : List InvestigationPlanningRoundSnapshot)
        (prior_actions : List ActionSummary) (content : Option (List (Evidence Value)))
        (rounds : Option (List InvestigationPlanningRoundSnapshot))
        (s : InvestigationRuntimeSnapshot Value)
        → snapshot_of state prior_rounds prior_actions content rounds ≡ some s
        → (made : List InvestigationPlanningRoundSnapshot) × (rounds ≡ some made)
          × (s.execution_state.rounds ≡ prior_rounds ++ made)
          × (s.execution_state.remaining_tool_calls ≡ state.remaining_tool_calls)
          × (s.execution_state.used_tool_calls
              ≡ default_tool_call_budget - state.remaining_tool_calls)
    made_of state prior_rounds prior_actions none rounds s e = ground arith
    made_of state prior_rounds prior_actions (some content) none s e = ground arith
    made_of state prior_rounds prior_actions (some content) (some made) s e =
        (made, refl, ground arith, ground arith, ground arith)

    pub snapshot-IsWithin :
        (state : AdaptiveInvestigationState Value) (store : EvidenceStore Value)
        (prior_rounds : List InvestigationPlanningRoundSnapshot)
        (prior_actions : List ActionSummary) (available : ℕ)
        (s : InvestigationRuntimeSnapshot Value)
        → AreWithin prior_rounds available
        → AreRounds registry allowed
            (length prior_rounds + 1)
            available
            state.rounds
            state.remaining_tool_calls
        → length state.rounds ≤ max_planning_rounds - length prior_rounds
        → snapshot_from_adaptive state store prior_rounds prior_actions ≡ some s
        → IsWithin s
    unfolding snapshot_from_adaptive
    snapshot-IsWithin state store prior_rounds prior_actions available s prior rounds few e =
        let (made, e', same, left, used) =
          made_of state prior_rounds prior_actions (get_many store state.evidence)
            (round_snapshots state.rounds) s (ground (arith, e)) in
        let (numbered, long, spent) =
          rounds_lem (length prior_rounds + 1) available state.remaining_tool_calls state.rounds
            made rounds e' in
        let attempts = attempts_of-append prior_rounds made in
        let size = length-append prior_rounds made in
        record {
          rounds =
              rw (same, left)
                (record {
                  numbered =
                      AreNumbered-append 1 prior_rounds made prior.numbered
                        (subst (λ n. AreNumbered n made) (omega arith) numbered);
                  bounded = omega (arith, size, long, few, prior.bounded);
                  spent = omega (arith, attempts, spent, prior.spent);
                });
          counted = rw (same, used) (omega (arith, attempts, spent, prior.spent));
        }
