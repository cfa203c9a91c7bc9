-- ===== src/Investigations/Execution/Returns.antt =====
-- investigations/execution.py: `execute` raises nothing on a plan that fits its tools.
use promptql.Prelude.{
  ℕ, ◌≡◌, refl, String, Bool, true, false, Option, none, some, List, [], ◌∷◌, map, All, arith,
  is_some, if◌then◌else◌,
}
use promptql.Prelude.Dict.{Dict, text_key, lookup, insert, lookup-insert}
use promptql.Investigations.Tools.{ToolDefinition, get}
use promptql.Investigations.Plan.{PlanStep, ValidatedPlan, known}
use promptql.Investigations.Execution.State.{
  ExecutionError, Result, ok, ◌>>=◌, need, ExecutionStepState, StepStates, block_remaining_steps,
  any_unfinished, is_succeeded, resolve_arguments,
}
use promptql.Investigations.Execution.Locals.{AgentExecutor, Outside, index_steps, gather}
use promptql.Investigations.Evidence.{EvidenceStore}
use promptql.Investigations.Execution.Drawn.{AreDrawn}
use promptql.Investigations.Execution.Storage.{Stored}

abbrev pub Returns : {A : Type 0} → (A → Type 0) → Result A → Type 0
Returns {A} P m = (a : A) × (m ≡ ok a) × P a

module _ {A B : Type 0} (P : A → Type 0) (Q : B → Type 0) where
  pub Returns-bind :
      (m : Result A) (f : A → Result B)
      → Returns P m
      → ((a : A) → P a → Returns Q (f a))
      → Returns Q (m >>= f)
  unfolding ◌>>=◌
  Returns-bind m f (a, e, p) h = rw e (h a p)

module _ {B : Type 0} (Q : B → Type 0) where
  pub Returns-if :
      (b : Bool) (x y : Result B)
      → (b ≡ true → Returns Q x)
      → (b ≡ false → Returns Q y)
      → Returns Q (if b then x else y)
  Returns-if true x y hx hy = hx refl
  Returns-if false x y hx hy = hy refl

  pub Returns-need :
      (e : ExecutionError) (o : Option B) (b : B) → o ≡ some b → Q b → Returns Q (need e o)
  Returns-need e o b h q = (b, rw h refl, q)

-- every step of the order has a state
abbrev pub Covers : List String → StepStates → Type 0
Covers order states = (j : String) → known j order ≡ true → is_some (lookup j states) ≡ true

pub insert-Covers :
    (order : List String) (states : StepStates) (id : String) (state : ExecutionStepState)
    → Covers order states
    → Covers order (insert id state states)
insert-Covers order states id state h j k = ground (arith, lookup-insert id j state states, h j k)

pub block-Covers :
    (order ids : List String) (states : StepStates)
    → Covers order states
    → Covers order (block_remaining_steps states ids)
unfolding block_remaining_steps
block-Covers order [] states h = h
block-Covers order (id ∷ ids) states h =
    block-Covers order ids _ (insert-Covers order states id _ h)

found_state :
    (o : Option ExecutionStepState)
    → is_some o ≡ true
    → Returns (λ _. Unit) (need ExecutionError.key_error o)
found_state none h = cc
found_state (some state) h = (state, refl, tt)

pub any_unfinished-Returns :
    (order : List String) (states : StepStates) (ids : List String)
    → Covers order states
    → All (λ j. known j order ≡ true) ids
    → Returns (λ _. Unit) (any_unfinished states ids)
unfolding any_unfinished
any_unfinished-Returns order states [] c k = (false, refl, tt)
any_unfinished-Returns order states (id ∷ ids) c k =
    Returns-bind (λ _. Unit) (λ _. Unit) _ _ (found_state (lookup id states) (c id k.0))
      λ state u.
        Returns-if (λ _. Unit) (is_succeeded state.status) _ _
          (λ h. any_unfinished-Returns order states ids c k.1) (λ h. (true, refl, tt))

pub gather-Returns :
    (order : List String) (states : StepStates) (ids : List String)
    → Covers order states
    → All (λ j. known j order ≡ true) ids
    → Returns (λ _. Unit) (gather states ids)
unfolding gather
gather-Returns order states [] c k = ([], refl, tt)
gather-Returns order states (id ∷ ids) c k =
    Returns-bind (λ _. Unit) (λ _. Unit) _ _ (found_state (lookup id states) (c id k.0))
      λ state u.
        Returns-bind (λ _. Unit) (λ _. Unit) _ _ (gather-Returns order states ids c k.1)
          λ more u. (state ∷ more, refl, tt)

module _ {Value Facts : Type 0} (executor : AgentExecutor Value Facts) where
  -- what the tools of a plan owe to the executor: they are registered, they accept what the
  -- arguments resolve to with outputs that the evidence can give, and each result cites evidence
  -- that the call has put into the store
  pub record Fits (initial : EvidenceStore Value) (step : PlanStep Value) (order : List String)
      : Type 0 where
    pub depends : All (λ j. known j order ≡ true) step.depends_on
    pub definition : ToolDefinition Value
    pub registered : get executor.registry step.tool_id ≡ some definition
    pub accepts :
        (outputs : Dict String (Dict String Value)) (arguments : Dict String Value)
        → AreDrawn executor initial outputs
        → resolve_arguments step outputs ≡ some arguments
        → (typed : Dict String Value) × (definition.validate_arguments arguments ≡ some typed)

  pub record IsRunnable (plan : ValidatedPlan Value) (evidence : List String)
      (outside : Outside Value) : Type 0 where
    pub steps :
        All
          (λ id.
            (step : PlanStep Value) × (lookup id (index_steps [] plan.plan.steps) ≡ some step)
            × Fits outside.store step plan.topological_step_ids)
          plan.topological_step_ids
    pub cites :
        (n : ℕ) (tool_id : String) (arguments : Dict String Value)
        → let answer = executor.invoke n tool_id arguments in
          All (λ id. known id (map (λ e. e.evidence_id) answer.1) ≡ true) answer.0.evidence_ids
    pub known_evidence : All (Stored outside.store) evidence
