-- ===== src/Investigations/Replanning/Runnable.antt =====
-- investigations/replanning.py: an accepted plan can be executed, if the tools keep their contracts and
-- accept what its steps take from the outputs of others.
use promptql.Prelude.{
  ℕ, ◌≤◌, ◌≡◌, refl, sym, ◌∙◌, String, true, false, Option, none, some, is_none, is_some, subst,
  List, [], ◌∷◌, map, is_empty, nat_eq, All, All-imp, arith, Bool-cases, inl, inr, eq_iff,
}
use promptql.Prelude.Dict.{Dict, text_key, lookup, insert, lookup-insert}
use promptql.Investigations.Tools.{get}
use promptql.Investigations.Facts.{InvestigationFact}
use promptql.Investigations.Plan.{PlanArgument, PlanArgumentValue, PlanStep, ValidatedPlan, known}
use promptql.Investigations.Evidence.{EvidenceStore}
use promptql.Investigations.Execution.State.{
  ExecutionError, ExecutionStepState, resolve_from, resolve_arguments, need,
}
use promptql.Investigations.Execution.Locals.{Outside, index_steps}
use promptql.Investigations.Execution.Drawn.{AllObtained, AreDrawn, AreDrawn-trans}
use promptql.Investigations.Execution.Storage.{Stored}
use promptql.Investigations.Execution.Outcome.{known_all}
use promptql.Investigations.Execution.Returns.{Fits, IsRunnable, Returns, Returns-bind, Returns-if}
use promptql.Investigations.Validation.Contracts.{Contract}
use promptql.Investigations.Validation.Validator.{is_literal, all_literal, literal_values}
use promptql.Investigations.Validation.Sound.{earlier, IsSound, IsAccepted}
use promptql.Investigations.Replanning.Models.{
  PlannedInvestigation, PlannerInput, PlannerAnswer, PlanningRound, AdaptiveInvestigationState,
  Notice, AdaptiveInvestigationRuntime,
}
use promptql.Investigations.Replanning.Deltas.{tool_of, summaries, summary}
use promptql.Investigations.Replanning.Kept.{some_inj, allowed_ids}

known-earlier :
    (x y : String) (order : List String) → known y (earlier x order) ≡ true → known y order ≡ true
known-earlier x y [] h = h
known-earlier x y (z ∷ order) h = ground (arith, known-earlier x y order)

need_found :
    {A : Type 0} (e : ExecutionError) (o : Option A)
    → is_some o ≡ true
    → Returns (λ _. Unit) (need e o)
need_found e none h = ground arith
need_found e (some a) h = (a, refl, tt)

some_of : {A : Type 0} (o : Option A) → is_none o ≡ false → (a : A) × (o ≡ some a)
some_of none h = ground arith
some_of (some a) h = (a, refl)

pub All-map :
    {A B : Type 0} (f : A → B) (P : B → Type 0) (xs : List A)
    → All P (map f xs)
    → All (λ x. P (f x)) xs
All-map f P [] h = tt
All-map f P (x ∷ xs) h = (h.0, All-map f P xs h.1)

All-both :
    {A : Type 0} (P Q : A → Type 0) (xs : List A) → All P xs → All Q xs → All (λ x. P x × Q x) xs
All-both P Q [] p q = tt
All-both P Q (x ∷ xs) p q = ((p.0, q.0), All-both P Q xs p.1 q.1)

module _ {Value : Type 0} where
  resolve-first :
      (name : String) (value : PlanArgumentValue Value) (arguments : List (PlanArgument Value))
      (values : Dict String Value) (outputs : Dict String (Dict String Value))
      → is_literal value ≡ true
      → ((v : Dict String Value)
          → resolve_from v arguments outputs ≡ some (literal_values arguments v))
      → resolve_from values (record { name = name; value = value } ∷ arguments) outputs
        ≡ some (literal_values (record { name = name; value = value } ∷ arguments) values)
  unfolding resolve_from literal_values
  resolve-first name (PlanArgumentValue.literal value) arguments values outputs h rest =
      rest (insert name value values)
  resolve-first name (PlanArgumentValue.step_output_ref s f) arguments values outputs h rest =
      ground (arith, h)

  -- literals resolve to themselves
  resolve-literal :
      (arguments : List (PlanArgument Value)) (values : Dict String Value)
      (outputs : Dict String (Dict String Value))
      → all_literal arguments ≡ true
      → resolve_from values arguments outputs ≡ some (literal_values arguments values)
  unfolding resolve_from literal_values
  resolve-literal [] values outputs h = refl
  resolve-literal (a ∷ arguments) values outputs h =
      resolve-first a.name a.value arguments values outputs (ground arith)
        (λ v. resolve-literal arguments v outputs (ground arith))

  accepted_literals :
      (validate : Dict String Value → Option (Dict String Value)) (step : PlanStep Value)
      (outputs : Dict String (Dict String Value)) (resolved : Dict String Value)
      → all_literal step.arguments ≡ true
      → is_none (validate (literal_values step.arguments [])) ≡ false
      → resolve_arguments step outputs ≡ some resolved
      → (typed : Dict String Value) × (validate resolved ≡ some typed)
  unfolding resolve_arguments
  accepted_literals validate step outputs resolved l h e =
      let same = some_inj (sym (resolve-literal step.arguments [] outputs l) ∙ e) in
      some_of (validate resolved) (subst (λ r. is_none (validate r) ≡ false) same h)

  index_other :
      (x : String) (steps : List (PlanStep Value)) (index : Dict String (PlanStep Value))
      → known x (map (λ s. s.step_id) steps) ≡ false
      → lookup x (index_steps index steps) ≡ lookup x index
  unfolding index_steps
  index_other x [] index h = refl
  index_other x (step ∷ steps) index h = ground (
    arith,
    index_other x steps (insert step.step_id step index),
    lookup-insert step.step_id x step index,
    eq_iff step.step_id x,
  )

  index_found :
      (P : PlanStep Value → Type 0) (x : String) (steps : List (PlanStep Value))
      (index : Dict String (PlanStep Value))
      → All P steps
      → known x (map (λ s. s.step_id) steps) ≡ true
      → (step : PlanStep Value) × (lookup x (index_steps index steps) ≡ some step) × P step
  unfolding index_steps
  index_found P x [] index h k = ground arith
  index_found P x (step ∷ steps) index h k =
      elim (Bool-cases (known x (map (λ s. s.step_id) steps))) [
        | inl e ↦ index_found P x steps (insert step.step_id step index) h.1 e
        | inr e ↦ (
          step,
          index_other x steps (insert step.step_id step index) e
              ∙ ground (arith, e, lookup-insert step.step_id x step index),
          h.0,
        )
      ]

  pub tool_found :
      (x : String) (steps : List (PlanStep Value))
      → known x (map (λ s. s.step_id) steps) ≡ true
      → is_some (tool_of x steps) ≡ true
  unfolding tool_of
  tool_found x [] h = h
  tool_found x (step ∷ steps) h = ground (arith, tool_found x steps)

  pub summaries-Returns :
      (steps : List (PlanStep Value)) (added : List InvestigationFact) (delta : List String)
      (states : List ExecutionStepState)
      → All (λ s. known s.step_id (map (λ s. s.step_id) steps) ≡ true) states
      → Returns (λ _. Unit) (summaries steps added delta states)
  unfolding summaries
  summaries-Returns steps added delta [] h = ([], refl, tt)
  summaries-Returns steps added delta (state ∷ states) h =
      Returns-if (λ _. Unit) (nat_eq state.attempts 0) _ _
        (λ e. summaries-Returns steps added delta states h.1)
        (λ e.
          Returns-bind (λ _. Unit) (λ _. Unit) _ _
            (need_found ExecutionError.key_error (tool_of state.step_id steps)
              (tool_found state.step_id steps h.0))
            λ tool_id u.
              Returns-bind (λ _. Unit) (λ _. Unit) _ _
                (summaries-Returns steps added delta states h.1)
                λ more u. (summary added delta state tool_id ∷ more, refl, tt))

module _ {Value : Type 0} where
  abbrev pub AreIn : List (PlanStep Value) → List ExecutionStepState → Type 0
  AreIn steps states = All (λ x. known x.step_id (map (λ p. p.step_id) steps) ≡ true) states

  -- what a callback, or the caller, can rely on: the evidence is in the store, the states of a round
  -- are of steps of its plan, and the calls that are left are within the budget
  pub record IsReadable (budget : ℕ) (rounds : List (PlanningRound Value)) (evidence : List String)
      (remaining : ℕ) (store : EvidenceStore Value) : Type 0 where
    pub held : All (Stored store) evidence
    pub in_plans :
        All (λ r. AreIn r.execution.validated_plan.plan.steps r.execution.step_states) rounds
    pub affordable : remaining ≤ budget

  abbrev pub IsReadableState : ℕ → AdaptiveInvestigationState Value → EvidenceStore Value → Type 0
  IsReadableState budget state store =
      IsReadable budget state.rounds state.evidence state.remaining_tool_calls store

  abbrev pub state_in : Notice Value → AdaptiveInvestigationState Value
  state_in (Notice.round_planned state planned) = state
  state_in (Notice.round_completed state) = state

  -- no callback raises
  abbrev pub IsQuiet : AdaptiveInvestigationRuntime Value → ℕ → Type 0
  IsQuiet runtime budget =
      (notice : Notice Value) (store : EvidenceStore Value)
      → IsReadableState budget (state_in notice) store
      → runtime.raises (notice, store) ≡ false

module _ {Value : Type 0} (runtime : AdaptiveInvestigationRuntime Value)
    (initial : EvidenceStore Value) where
  -- its tool accepts an accepted step that takes an output of another step, whatever the evidence
  -- gives as outputs that is in the initial store or that a call may put into it
  abbrev pub IsTaken : PlanStep Value → Type 0
  IsTaken step =
      (order : List String) (contract : Contract Value)
      → IsSound runtime.registry (allowed_ids runtime) order step
      → lookup step.tool_id runtime.registry ≡ some contract
      → all_literal step.arguments ≡ false
      → (outputs : Dict String (Dict String Value)) (arguments : Dict String Value)
      → AreDrawn runtime.executor initial outputs
      → resolve_arguments step outputs ≡ some arguments
      → (typed : Dict String Value) × (contract.definition.validate_arguments arguments
          ≡ some typed)

  -- what an investigation relies on: the validator and the executor know the same tools; the planner
  -- lets a step take outputs only where its tool accepts them; a result cites only evidence that
  -- its call has put into the store; there is a tool
  pub record IsAble : Type 0 where
    pub tools :
        (x : String) (contract : Contract Value)
        → lookup x runtime.registry ≡ some contract
        → get runtime.executor.registry x ≡ some contract.definition
    pub takes :
        (input : PlannerInput Value) (planned : PlannedInvestigation Value)
        → runtime.plan input ≡ PlannerAnswer.planned planned
        → All IsTaken planned.plan.steps
    pub cites :
        (n : ℕ) (tool_id : String) (arguments : Dict String Value)
        → let answer = runtime.executor.invoke n tool_id arguments in
          All (λ id. known id (map (λ e. e.evidence_id) answer.1) ≡ true) answer.0.evidence_ids
    pub some_tool : is_empty runtime.allowed_tools ≡ false

  module _ (able : IsAble) where
    step-Fits :
        (store : EvidenceStore Value)
        → AllObtained runtime.executor initial store
        → (order : List String) (step : PlanStep Value)
        → IsSound runtime.registry (allowed_ids runtime) order step
        → IsTaken step
        → Fits runtime.executor store step order
    step-Fits store obtained order step sound taken =
        let (contract, found, _, _, _, literal) = sound.0 in
        record {
          depends = All-imp (λ d e. known-earlier step.step_id d order e) step.depends_on sound.1;
          definition = contract.definition;
          registered = able.tools step.tool_id contract found;
          accepts = λ outputs arguments drawn e. elim (Bool-cases (all_literal step.arguments)) [
            | inl l ↦
                accepted_literals contract.definition.validate_arguments step outputs arguments l
                  (literal l) e
            | inr r ↦
                taken order contract sound found r outputs arguments
                  (AreDrawn-trans runtime.executor initial store obtained outputs drawn) e
          ];
        }

    pub accepted-IsRunnable :
        (plan : ValidatedPlan Value) (evidence : List String) (outside : Outside Value)
        → IsAccepted runtime.registry
            (allowed_ids runtime)
            plan.plan.steps
            plan.topological_step_ids
        → All IsTaken plan.plan.steps
        → AllObtained runtime.executor initial outside.store
        → All (Stored outside.store) evidence
        → IsRunnable runtime.executor plan evidence outside
    accepted-IsRunnable plan evidence outside acc taken obtained stored = record {
      steps =
          All-imp
            (λ id e.
              let (step, found, fit) =
                index_found
                  (λ s.
                    IsSound runtime.registry (allowed_ids runtime) plan.topological_step_ids s
                    × IsTaken s)
                  id plan.plan.steps [] (All-both _ IsTaken plan.plan.steps acc.4 taken)
                  (sym (acc.3 id) ∙ e) in
              (
                step,
                found,
                step-Fits outside.store obtained plan.topological_step_ids step fit.0 fit.1,
              ))
            plan.topological_step_ids (known_all plan.topological_step_ids);
      cites = able.cites;
      known_evidence = stored;
    }
