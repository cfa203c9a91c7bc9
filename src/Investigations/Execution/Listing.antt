-- ===== src/Investigations/Execution/Listing.antt =====
-- investigations/execution.py: the list of step states that `execute` returns, against the dictionary.
use promptql.Prelude.{
  ℕ, ◌+◌, ◌≤◌, ◌≡◌, refl, sym, ◌∙◌, ap, ap₂, String, true, false, ◌&&◌, Option, some, List, [], ◌∷◌,
  map, All, All-imp, arith, ◌==◌, eq_iff, any, subst, inl, inr, Bool-cases,
}
use promptql.Prelude.Dict.{Dict, text_key, lookup}
use promptql.Investigations.Plan.{PlanStep, known}
use promptql.Investigations.Execution.State.{
  ExecutionStepStatus, ExecutionBlockReason, ExecutionTerminationReason, RetryPolicy,
  ExecutionError, ExecutionStepState, StepStates, is_succeeded,
}
use promptql.Investigations.Execution.Locals.{gather}
use promptql.Investigations.Execution.Settling.{Ended, Succeeded, IsSettled, Settled}
use promptql.Investigations.Execution.Progress.{sum_attempts}
use promptql.Investigations.Execution.Safety.{Holds, Holds-bind, need_found}
use promptql.Investigations.Execution.Outcome.{Holds-ok}

-- the states of the list are those of the identifiers
abbrev pub Listed : StepStates → List String → List ExecutionStepState → Type 0
Listed states [] [] = Unit
Listed states (id ∷ ids) (state ∷ more) = (lookup id states ≡ some state) × Listed states ids more
Listed states _ _ = ⊥

Listed-cons :
    (states : StepStates) (id : String) (ids : List String) (state : ExecutionStepState)
    (more : List ExecutionStepState)
    → lookup id states ≡ some state
    → Listed states ids more
    → Listed states (id ∷ ids) (state ∷ more)
Listed-cons states id ids state more e l = (e, l)

pub gather-Listed :
    (states : StepStates) (ids : List String) → Holds (Listed states ids) (gather states ids)
unfolding gather Holds
gather-Listed states [] = tt
gather-Listed states (id ∷ ids) = Holds-bind _ _ _ λ state e. Holds-bind _ _ _ λ more e'.
    Listed-cons states id ids state more (need_found ExecutionError.key_error _ state e)
      (Holds-ok _ _ more (gather-Listed states ids) e')

-- a dependency that the result lists as succeeded
abbrev pub ListedAsSucceeded : List ExecutionStepState → String → Type 0
ListedAsSucceeded states j = any (λ s. s.step_id == j && is_succeeded s.status) states ≡ true

unfoldable pub total_attempts : List ExecutionStepState → ℕ
total_attempts [] = 0
total_attempts (state ∷ more) = state.attempts + total_attempts more

pub Listed-total :
    (states : StepStates) (ids : List String) (list : List ExecutionStepState)
    → Listed states ids list
    → sum_attempts states ids ≡ total_attempts list
unfolding total_attempts
Listed-total states [] [] l = refl
Listed-total states [] (state ∷ list) l = absurd l
Listed-total states (id ∷ ids) [] l = absurd l
Listed-total states (id ∷ ids) (state ∷ list) l =
    rw (l.0) (ap (λ n. state.attempts + n) (Listed-total states ids list l.1))

module _ {Value : Type 0} (steps : Dict String (PlanStep Value)) (policy : RetryPolicy)
    (reason : ExecutionTerminationReason) where
  -- a step of the result has ended, within its attempts; it succeeded only after its dependencies,
  -- and it was blocked by the budget only if the budget ended the execution
  pub record IsFinished (states : List ExecutionStepState) (state : ExecutionStepState)
      : Type 0 where
    pub ended : Ended state.status state.attempts state.tool_result state.block_reason
    pub tries : state.attempts ≤ policy.max_attempts
    pub after :
        state.status ≡ ExecutionStepStatus.succeeded
        → (step : PlanStep Value) × (lookup state.step_id steps ≡ some step)
          × All (ListedAsSucceeded states) step.depends_on
    pub starved :
        state.block_reason ≡ some ExecutionBlockReason.budget_exhausted
        → reason ≡ ExecutionTerminationReason.budget_exhausted

  Settled-state :
      (states : StepStates) (id : String) (state : ExecutionStepState)
      → lookup id states ≡ some state
      → Settled steps policy reason states id
      → IsSettled steps policy reason states id state
  Settled-state states id state e (old, e', is) =
      subst (IsSettled steps policy reason states id) (same old e') is
    where
      same : (old : ExecutionStepState) → lookup id states ≡ some old → old ≡ state
      same old e' = cc

  pub Listed-ids :
      (states : StepStates) (ids : List String) (list : List ExecutionStepState)
      → Listed states ids list
      → All (Settled steps policy reason states) ids
      → map (λ s. s.step_id) list ≡ ids
  Listed-ids states [] [] l h = refl
  Listed-ids states [] (state ∷ list) l h = absurd l
  Listed-ids states (id ∷ ids) [] l h = absurd l
  Listed-ids states (id ∷ ids) (state ∷ list) l h =
      ap₂ (λ x xs. x ∷ xs) (Settled-state states id state l.0 h.0).identity
        (Listed-ids states ids list l.1 h.1)

  Listed-succeeded :
      (states : StepStates) (ids : List String) (list : List ExecutionStepState) (j : String)
      → Listed states ids list
      → All (Settled steps policy reason states) ids
      → known j ids ≡ true
      → Succeeded states j
      → ListedAsSucceeded list j
  Listed-succeeded states [] list j l h k s = absurd (nothing_known k)
    where
      nothing_known : false ≡ true → ⊥
      nothing_known k = cc
  Listed-succeeded states (id ∷ ids) [] j l h k s = absurd l
  Listed-succeeded states (id ∷ ids) (state ∷ list) j l h k s = elim (Bool-cases (id == j)) [
    | inl same ↦
        let found : (state.step_id == j) ≡ true =
          (eq_iff state.step_id j).1
            ((Settled-state states id state l.0 h.0).identity ∙ (eq_iff id j).0 same) in
        let won : is_succeeded state.status ≡ true =
          won_there (lookup j states) s.0
            (sym (ap (λ i. lookup i states) ((eq_iff id j).0 same)) ∙ l.0) s.1 s.2 in
        ground arith
    | inr other ↦
        let later = Listed-succeeded states ids list j l.1 h.1 (ground arith) s in ground arith
  ]
    where
      won_there :
          (o : Option ExecutionStepState) (st : ExecutionStepState)
          → o ≡ some state
          → o ≡ some st
          → st.status ≡ ExecutionStepStatus.succeeded
          → is_succeeded state.status ≡ true
      won_there o st e e' d = ap is_succeeded (ap (λ x. x.status) same ∙ d)
        where
          same : state ≡ st
          same = cc

  -- `ids` are those of the part of the list that is looked at
  pub Listed-IsFinished :
      (states : StepStates) (order : List String) (all : List ExecutionStepState)
      → Listed states order all
      → All (Settled steps policy reason states) order
      → ((j : String) (s : ExecutionStepState) → lookup j states ≡ some s → known j order ≡ true)
      → (ids : List String) (list : List ExecutionStepState) → Listed states ids list
      → All (Settled steps policy reason states) ids
      → All (IsFinished all) list
  Listed-IsFinished states order all L H inside [] [] l h = tt
  Listed-IsFinished states order all L H inside [] (state ∷ list) l h = absurd l
  Listed-IsFinished states order all L H inside (id ∷ ids) [] l h = absurd l
  Listed-IsFinished states order all L H inside (id ∷ ids) (state ∷ list) l h =
      let is = Settled-state states id state l.0 h.0 in
      (
        record {
          ended = is.ended;
          tries = is.tries;
          after = λ e.
              let (step, found, deps) = is.after e in
              (
                step,
                ap (λ i. lookup i steps) is.identity ∙ found,
                All-imp (λ j s. Listed-succeeded states order all j L H (inside j s.0 s.1) s)
                    step.depends_on deps,
              );
          starved = is.starved;
        },
        Listed-IsFinished states order all L H inside ids list l.1 h.1,
      )
