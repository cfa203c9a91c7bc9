-- ===== src/Investigations/Execution/Settling.antt =====
-- investigations/execution.py: what holds of the step states while `execute` runs: the steps before
-- the current one are settled, those from it on are pending.
use promptql.Prelude.{
  ℕ, ◌≤◌, ◌≡◌, refl, sym, ◌∙◌, String, true, false, Option, none, some, All, All-imp, arith, inl,
  inr, Bool-cases, ◌==◌, eq_iff, if◌then◌else◌,
}
use promptql.Prelude.Dict.{Dict, text_key, lookup, insert, lookup-insert}
use promptql.Investigations.Tools.{ToolResult}
use promptql.Investigations.Plan.{PlanStep}
use promptql.Investigations.Execution.State.{
  ExecutionStepStatus, ExecutionBlockReason, ExecutionTerminationReason, RetryPolicy,
  ExecutionStepState, StepStates, state_of,
}
use promptql.Investigations.Execution.Locals.{is_failed}

-- a step has ended: after attempts, with a result of its kind, or before any
abbrev pub Ended :
    ExecutionStepStatus → ℕ → Option ToolResult → Option ExecutionBlockReason → Type 0
Ended ExecutionStepStatus.succeeded attempts (some result) none =
    (1 ≤ attempts) × (is_failed result.outcome ≡ false)
Ended ExecutionStepStatus.failed attempts (some result) none =
    (1 ≤ attempts) × (is_failed result.outcome ≡ true)
Ended ExecutionStepStatus.blocked attempts none (some reason) = attempts ≡ 0
Ended _ _ _ _ = ⊥

abbrev pub Succeeded : StepStates → String → Type 0
Succeeded states id =
    (state : ExecutionStepState) × (lookup id states ≡ some state)
    × (state.status ≡ ExecutionStepStatus.succeeded)

module _ {Value : Type 0} (steps : Dict String (PlanStep Value)) (policy : RetryPolicy) where
  -- the state of a step that has ended
  pub record IsSettled (reason : ExecutionTerminationReason) (states : StepStates) (id : String)
      (state : ExecutionStepState) : Type 0 where
    pub identity : state.step_id ≡ id
    pub ended : Ended state.status state.attempts state.tool_result state.block_reason
    pub tries : state.attempts ≤ policy.max_attempts
    pub after :
        state.status ≡ ExecutionStepStatus.succeeded
        → (step : PlanStep Value) × (lookup id steps ≡ some step)
          × All (Succeeded states) step.depends_on
    pub starved :
        state.block_reason ≡ some ExecutionBlockReason.budget_exhausted
        → reason ≡ ExecutionTerminationReason.budget_exhausted

  abbrev pub Settled : ExecutionTerminationReason → StepStates → String → Type 0
  Settled reason states id =
      (state : ExecutionStepState) × (lookup id states ≡ some state)
      × IsSettled reason states id state

abbrev pub Waiting : StepStates → String → Type 0
Waiting states id = lookup id states ≡ some (state_of id ExecutionStepStatus.pending)

-- `states'` is `states` but for the state of `id`
pub record Becomes (states states' : StepStates) (id : String) (state : ExecutionStepState)
    : Type 0 where
  pub at : (j : String) → lookup j states' ≡ (if id == j then some state else lookup j states)

pub Becomes-insert :
    (states : StepStates) (id : String) (state : ExecutionStepState)
    → Becomes states (insert id state states) id state
Becomes-insert states id state = record { at = λ j. lookup-insert id j state states }

pub Becomes-again :
    (states states' : StepStates) (id : String) (state state' : ExecutionStepState)
    → Becomes states states' id state
    → Becomes states (insert id state' states') id state'
Becomes-again states states' id state state' h = record {
  at = λ j. ground (arith, lookup-insert id j state' states', h.at j);
}

not_pending_status :
    (status : ExecutionStepStatus) (attempts : ℕ) (result : Option ToolResult)
    (reason : Option ExecutionBlockReason)
    → Ended status attempts result reason
    → status ≡ ExecutionStepStatus.pending
    → ⊥
not_pending_status ExecutionStepStatus.pending attempts result reason e p = ground arith
not_pending_status _ attempts result reason e p = cc

not_pending :
    (state : ExecutionStepState)
    → Ended state.status state.attempts state.tool_result state.block_reason
    → state.status ≡ ExecutionStepStatus.pending
    → ⊥
not_pending state =
    not_pending_status state.status state.attempts state.tool_result state.block_reason

module _ (states states' : StepStates) (id : String) (state : ExecutionStepState)
    (b : Becomes states states' id state) where
  pub lookup_changed : lookup id states' ≡ some state
  lookup_changed = b.at id ∙ rw ((eq_iff id id).1 refl) refl

  pub Waiting-apart : (j : String) → (id == j) ≡ false → Waiting states j → Waiting states' j
  Waiting-apart j apart w = b.at j ∙ rw apart w

  module _ (w : Waiting states id) where
    lookup_kept :
        (j : String) (old : ExecutionStepState)
        → lookup j states ≡ some old
        → (old.status ≡ ExecutionStepStatus.pending → ⊥)
        → lookup j states' ≡ some old
    lookup_kept j old e started = elim (Bool-cases (id == j)) [
      | inr apart ↦ b.at j ∙ rw apart e
      | inl same ↦ absurd (started (pending_there j old e ((eq_iff id j).0 same)))
    ]
      where
        pending_there :
            (j : String) (old : ExecutionStepState)
            → lookup j states ≡ some old
            → id ≡ j
            → old.status ≡ ExecutionStepStatus.pending
        pending_there j old e same = cc

    pub Succeeded-kept : (j : String) → Succeeded states j → Succeeded states' j
    Succeeded-kept j (old, e, done) = (old, lookup_kept j old e (λ p. cc), done)

    pub IsSettled-kept :
        {Value : Type 0} (steps : Dict String (PlanStep Value)) (policy : RetryPolicy)
        (reason : ExecutionTerminationReason) (j : String) (old : ExecutionStepState)
        → IsSettled steps policy reason states j old
        → IsSettled steps policy reason states' j old
    IsSettled-kept steps policy reason j old is = record {
      identity = is.identity;
      ended = is.ended;
      tries = is.tries;
      after = λ s.
          let (step, found, deps) = is.after s in
          (step, found, All-imp Succeeded-kept step.depends_on deps);
      starved = is.starved;
    }

    pub Settled-lookup_kept :
        {Value : Type 0} (steps : Dict String (PlanStep Value)) (policy : RetryPolicy)
        (reason : ExecutionTerminationReason) (j : String)
        → Settled steps policy reason states j
        → lookup j states' ≡ lookup j states
    Settled-lookup_kept steps policy reason j (old, e, is) =
        lookup_kept j old e (λ p. not_pending old is.ended p) ∙ sym e

    pub Settled-kept :
        {Value : Type 0} (steps : Dict String (PlanStep Value)) (policy : RetryPolicy)
        (reason : ExecutionTerminationReason) (j : String)
        → Settled steps policy reason states j
        → Settled steps policy reason states' j
    Settled-kept steps policy reason j (old, e, is) = (
      old,
      lookup_kept j old e (λ p. not_pending old is.ended p),
      IsSettled-kept steps policy reason j old is,
    )
