-- ===== src/Investigations/Replanning/Chain.antt =====
-- investigations/replanning.py: what is promised of the rounds of an investigation and of its reason to
-- return.
use promptql.Prelude.{
  ℕ, ◌+◌, ◌≤◌, ◌≡◌, refl, subst, String, true, false, ◌&&◌, List, [], ◌∷◌, ◌++◌, is_empty, length,
  All, arith,
}
use promptql.Prelude.Dict.{Dict}
use promptql.Investigations.Execution.State.{remaining_tool_calls}
use promptql.Investigations.Execution.Guarantee.{IsExecuted}
use promptql.Investigations.Validation.Contracts.{Contract}
use promptql.Investigations.Validation.Sound.{IsAccepted}
use promptql.Investigations.Replanning.Models.{
  max_adaptive_plan_steps, default_policy, ContinuationReason, PlanningRound,
}

module _ {Value : Type 0} (registry : Dict String (Contract Value))
    (allowed_tool_ids : List String) where
  -- a round with that number and budget: its plan was accepted, and executed as promised
  pub record IsRound (number budget : ℕ) (round : PlanningRound Value) : Type 0 where
    pub numbered : round.round_number ≡ number
    pub affordable : 1 ≤ budget
    pub small : length round.execution.validated_plan.plan.steps ≤ max_adaptive_plan_steps
    pub accepted :
        IsAccepted registry allowed_tool_ids round.execution.validated_plan.plan.steps
          round.execution.validated_plan.topological_step_ids
    pub executed : IsExecuted round.execution.validated_plan budget default_policy round.execution

  -- rounds that follow one another, each with the calls that the one before left
  abbrev pub AreRounds : ℕ → ℕ → List (PlanningRound Value) → ℕ → Type 0
  AreRounds number budget [] left = left ≡ budget
  AreRounds number budget (round ∷ rounds) left =
      IsRound number budget round
      × AreRounds (number + 1) (remaining_tool_calls round.execution.budget) rounds left

  pub AreRounds-snoc :
      (number budget left : ℕ) (rounds : List (PlanningRound Value)) (round : PlanningRound Value)
      → AreRounds number budget rounds left
      → IsRound (number + length rounds) left round
      → AreRounds number budget (rounds ++ round ∷ []) (remaining_tool_calls round.execution.budget)
  AreRounds-snoc number budget left [] round h r =
      let r' = subst (λ n. IsRound n left round) (omega arith) r in
      (subst (λ b. IsRound number b round) h r', refl)
  AreRounds-snoc number budget left (first ∷ rounds) round h r = (
    h.0,
    AreRounds-snoc (number + 1) (remaining_tool_calls first.execution.budget) left rounds round h.1
        (subst (λ n. IsRound n left round) (omega arith) r),
  )

-- a round that found something
abbrev pub MadeProgress : {Value : Type 0} → PlanningRound Value → Type 0
MadeProgress round = is_empty round.evidence_delta_ids && is_empty round.fact_delta_ids ≡ false

module _ {Value : Type 0} where
  -- what a reason to return says, after rounds of which all, or all but the last, made progress
  abbrev pub Explains : ℕ → ContinuationReason → List (PlanningRound Value) → ℕ → Type 0
  Explains limit ContinuationReason.tool_call_budget_exhausted rounds left =
      All MadeProgress rounds × (left ≡ 0)
  Explains limit ContinuationReason.max_planning_rounds_reached rounds left =
      All MadeProgress rounds × (length rounds ≡ limit)
  Explains limit ContinuationReason.no_progress rounds left =
      (before : List (PlanningRound Value)) × (last : PlanningRound Value) × (rounds
        ≡ before ++ last ∷ [])
      × All MadeProgress before
      × (is_empty last.evidence_delta_ids && is_empty last.fact_delta_ids ≡ true)
  Explains limit ContinuationReason.planner_failure rounds left =
      All MadeProgress rounds × (1 ≤ left) × (length rounds + 1 ≤ limit)
  Explains limit ContinuationReason.plan_validation_failure rounds left =
      All MadeProgress rounds × (1 ≤ left) × (length rounds + 1 ≤ limit)
  Explains limit ContinuationReason.in_progress rounds left = ⊥
  Explains limit ContinuationReason.complete rounds left = ⊥
