-- ===== src/Investigations/Execution/Progress.antt =====
-- investigations/execution.py: how the step states and the budget of `execute` move on from one step
-- to the next.
use promptql.Prelude.{
  ℕ, ◌+◌, ◌≤◌, ◌≡◌, refl, sym, ◌∙◌, ap, String, true, false, Option, none, some, List, [], ◌∷◌,
  ◌++◌, All, All-append, All-imp, arith, append-nil, append_assoc, ◌==◌, eq_iff, Bool-cases, inl,
  inr,
}
use promptql.Prelude.Dict.{Dict, text_key, lookup}
use promptql.Investigations.Plan.{PlanStep, known}
use promptql.Investigations.Execution.State.{
  ExecutionStepStatus, ExecutionBlockReason, ExecutionTerminationReason, RetryPolicy, BudgetState,
  ExecutionStepState, StepStates, state_of, blocked_state, block_remaining_steps,
}
use promptql.Investigations.Execution.Settling.{
  IsSettled, Settled, Waiting, Becomes, Becomes-insert, lookup_changed, Waiting-apart,
  IsSettled-kept, Settled-kept, Settled-lookup_kept,
}

abbrev pub attempts_of : Option ExecutionStepState → ℕ
attempts_of none = 0
attempts_of (some state) = state.attempts

abbrev pub sum_attempts : StepStates → List String → ℕ
sum_attempts states [] = 0
sum_attempts states (id ∷ ids) = attempts_of (lookup id states) + sum_attempts states ids

sum_attempts-snoc :
    (states : StepStates) (ids : List String) (id : String)
    → sum_attempts states (ids ++ id ∷ [])
      ≡ sum_attempts states ids + attempts_of (lookup id states)
sum_attempts-snoc states [] id = omega arith
sum_attempts-snoc states (x ∷ ids) id = omega (arith, sum_attempts-snoc states ids id)

-- the steps that are not yet settled come once each
abbrev pub Distinct : List String → Type 0
Distinct [] = Unit
Distinct (x ∷ xs) = All (λ y. (x == y) ≡ false) xs × Distinct xs

module _ {Value : Type 0} (steps : Dict String (PlanStep Value)) (policy : RetryPolicy) (limit : ℕ)
    (order : List String) where
  pub record Progress (done todo : List String) (reason : ExecutionTerminationReason)
      (states : StepStates) (budget : BudgetState) : Type 0 where
    pub settled : All (Settled steps policy reason states) done
    pub waiting : All (Waiting states) todo
    pub used : budget.used_tool_calls ≡ sum_attempts states done
    pub limit_kept : budget.max_tool_calls ≡ limit
    pub within : budget.used_tool_calls ≤ budget.max_tool_calls
    pub inside :
        (j : String) (state : ExecutionStepState)
        → lookup j states ≡ some state
        → known j order ≡ true

  module _ (reason : ExecutionTerminationReason) (states states' : StepStates) (id : String)
      (state : ExecutionStepState) (b : Becomes states states' id state)
      (w : Waiting states id) where
    sum_kept :
        (done : List String)
        → All (Settled steps policy reason states) done
        → sum_attempts states' done ≡ sum_attempts states done
    sum_kept [] h = refl
    sum_kept (j ∷ done) h = omega (
      arith,
      ap attempts_of (Settled-lookup_kept states states' id state b w steps policy reason j h.0),
      sum_kept done h.1,
    )

    All-Waiting-apart :
        (rest : List String)
        → All (λ j. (id == j) ≡ false) rest
        → All (Waiting states) rest
        → All (Waiting states') rest
    All-Waiting-apart [] a h = tt
    All-Waiting-apart (j ∷ rest) a h =
        (Waiting-apart states states' id state b j a.0 h.0, All-Waiting-apart rest a.1 h.1)

    inside_changed :
        ((j : String) (old : ExecutionStepState)
          → lookup j states ≡ some old
          → known j order ≡ true)
        → (j : String) (new : ExecutionStepState) → lookup j states' ≡ some new
        → known j order ≡ true
    inside_changed h j new e = elim (Bool-cases (id == j)) [
      | inl same ↦
          h j (state_of id ExecutionStepStatus.pending)
            (ap (λ k. lookup k states) (sym ((eq_iff id j).0 same)) ∙ w)
      | inr apart ↦ h j new (sym (b.at j ∙ rw apart refl) ∙ e)
    ]

    -- the first of the pending steps is settled
    pub Progress-settle :
        (done rest : List String) (budget budget' : BudgetState)
        → Progress done (id ∷ rest) reason states budget
        → All (λ j. (id == j) ≡ false) rest
        → IsSettled steps policy reason states id state
        → budget'.used_tool_calls ≡ budget.used_tool_calls + state.attempts
        → budget'.max_tool_calls ≡ budget.max_tool_calls
        → budget'.used_tool_calls ≤ budget'.max_tool_calls
        → Progress (done ++ id ∷ []) rest reason states' budget'
    Progress-settle done rest budget budget' p apart is spent max within = record {
      settled =
          All-append _ done _
            (All-imp (λ j. Settled-kept states states' id state b w steps policy reason j) done
              p.settled)
            (
              (
                state,
                lookup_changed states states' id state b,
                IsSettled-kept states states' id state b w steps policy reason id state is,
              ),
              tt,
            );
      waiting = All-Waiting-apart rest apart p.waiting.1;
      used = omega (
        arith,
        p.used,
        spent,
        sum_attempts-snoc states' done id,
        sum_kept done p.settled,
        ap attempts_of (lookup_changed states states' id state b),
      );
      limit_kept = max ∙ p.limit_kept;
      within = within;
      inside = inside_changed p.inside;
    }

  Settled-exhausted :
      (reason : ExecutionTerminationReason) (states : StepStates) (j : String)
      → Settled steps policy reason states j
      → Settled steps policy ExecutionTerminationReason.budget_exhausted states j
  Settled-exhausted reason states j (state, e, is) = (
    state,
    e,
    record {
      identity = is.identity;
      ended = is.ended;
      tries = is.tries;
      after = is.after;
      starved = λ _. refl;
    },
  )

  Progress-block :
      (ids done : List String) (states : StepStates) (budget : BudgetState)
      → Progress done ids ExecutionTerminationReason.budget_exhausted states budget
      → Distinct ids
      → Progress
          (done ++ ids)
          []
          ExecutionTerminationReason.budget_exhausted
          (block_remaining_steps states ids)
          budget
  unfolding block_remaining_steps
  Progress-block [] done states budget p d = rw append-nil p
  Progress-block (id ∷ ids) done states budget p d = rw (sym (append_assoc done (id ∷ []) ids)) (
      Progress-block ids (done ++ id ∷ []) _ budget
        (Progress-settle _ states _ id (blocked_state id ExecutionBlockReason.budget_exhausted)
          (Becomes-insert states id _) p.waiting.0 done ids budget budget p d.0
          (record {
            identity = refl;
            ended = refl;
            tries = omega arith;
            after = λ e. cc;
            starved = λ _. refl;
          })
          (omega arith) refl p.within)
        d.1)

  -- the budget is spent: every pending step is blocked
  pub Progress-exhaust :
      (done ids : List String) (reason : ExecutionTerminationReason) (states : StepStates)
      (budget : BudgetState)
      → Progress done ids reason states budget
      → Distinct ids
      → Progress
          (done ++ ids)
          []
          ExecutionTerminationReason.budget_exhausted
          (block_remaining_steps states ids)
          budget
  Progress-exhaust done ids reason states budget p d =
      Progress-block ids done states budget
        (record {
          settled = All-imp (λ j. Settled-exhausted reason states j) done p.settled;
          waiting = p.waiting;
          used = p.used;
          limit_kept = p.limit_kept;
          within = p.within;
          inside = p.inside;
        })
        d
