-- ===== src/Investigations/Validation/Sound.antt =====
-- investigations/planning/validation.py: what a step and a plan keep to, and what it means for
-- each loop that it appends no failure.
use promptql.Prelude.{
  ◌≤◌, ◌≡◌, refl, sym, ap, String, Bool, true, false, ◌&&◌, not, Option, none, some, List, [], ◌∷◌,
  ◌++◌, append_assoc, append-nil, length, map, is_empty, is_none, ◌==◌, eq_iff, arith, All,
  Bool-cases, inl, inr, if◌then◌else◌,
}
use mathlib.Core.Path.{transport}
use promptql.Prelude.Dict.{Dict, text_key, lookup}
use promptql.Investigations.Plan.{PlanStep, PlanArgument, PlanArgumentValue, known, unique}
use promptql.Investigations.Validation.Order.{Edge, steps_by_id, step_edges}
use promptql.Investigations.Validation.Loop.{Follows}
use promptql.Investigations.Validation.Sorted.{unique-snoc}
use promptql.Investigations.Validation.Contracts.{
  PlanValidationFailure, InputField, Contract, Annotation,
}
use promptql.Investigations.Validation.Validator.{
  max_plan_steps, fail_if, dependency_failures, duplicate_failures, all_literal, literal_values,
}
use promptql.Investigations.Validation.Arguments.{
  validate_reference, value_failures, argument_failures, required_failures, model_failures,
}

-- what stands in `order` before `x`
abbrev pub earlier : String → List String → List String
earlier x [] = []
earlier x (y ∷ order) = if y == x then [] else y ∷ earlier x order

pub both_empty {ℓ} :
    {A : Type ℓ} (xs ys : List A)
    → is_empty (xs ++ ys) ≡ true
    → (is_empty xs ≡ true) × (is_empty ys ≡ true)
both_empty [] ys h = (refl, h)
both_empty (x ∷ xs) ys h = ground arith

pub fail_if_lem :
    (b : Bool) (failure : PlanValidationFailure) → is_empty (fail_if b failure) ≡ true → b ≡ false
fail_if_lem true failure h = ground arith
fail_if_lem false failure h = refl

pub Follows-earlier :
    (edges : List Edge) (before xs : List String) (x : String)
    → Follows edges before xs
    → known x xs ≡ true
    → All (λ e. e.1 ≡ x → known e.0 (before ++ earlier x xs) ≡ true) edges
Follows-earlier edges before [] x h hx = ground arith
Follows-earlier edges before (y ∷ xs) x h hx = elim (Bool-cases (y == x)) [
  | inl e ↦ rw (e, append-nil before, sym ((eq_iff y x).0 e)) h.0
  | inr e ↦ rw e (
      transport
        (ap (λ z. All (λ d. d.1 ≡ x → known d.0 z ≡ true) edges)
          (append_assoc before (y ∷ []) (earlier x xs)))
        (Follows-earlier edges (before ++ y ∷ []) xs x h.1 (ground arith)))
]

pub dependencies_lem :
    (ids : List String) (x : String) (depends_on : List String)
    → is_empty (dependency_failures ids x depends_on) ≡ true
    → (before : List String)
    → All (λ e. e.1 ≡ x → known e.0 before ≡ true) (step_edges ids x depends_on)
    → All (λ d. known d before ≡ true) depends_on
unfolding dependency_failures step_edges
dependencies_lem ids x [] h before hb = tt
dependencies_lem ids x (d ∷ depends_on) h before hb =
    let (h0, h1) = both_empty _ (dependency_failures ids x depends_on) h in
    let e : known d ids && not (d == x) ≡ true = ground arith in
    let (b0, b1) =
      transport
        (ap
          (λ z.
            All (λ e. e.1 ≡ x → known e.0 before ≡ true)
              (if z then (d, x) ∷ step_edges ids x depends_on else step_edges ids x depends_on))
          e)
        hb in
    (b0 refl, dependencies_lem ids x depends_on h1 before b1)

module _ {Value : Type 0} where
  abbrev pub IsDeclared : List String → PlanArgumentValue Value → Type 0
  IsDeclared depends_on (PlanArgumentValue.literal value) = Unit
  IsDeclared depends_on (PlanArgumentValue.step_output_ref source field) =
      known source depends_on ≡ true

  abbrev pub IsFitting : InputField Value → PlanArgumentValue Value → Type 0
  IsFitting field (PlanArgumentValue.literal value) = field.accepts value ≡ true
  IsFitting field (PlanArgumentValue.step_output_ref source output) = Unit

  -- the argument is a field of the input model, which accepts its literal
  abbrev pub IsTyped : Dict String (InputField Value) → PlanArgument Value → Type 0
  IsTyped fields a =
      (field : InputField Value) × (lookup a.name fields ≡ some field) × IsFitting field a.value

  -- the tool of the step is registered and allowed and has its required arguments and no unknown
  -- ones, each literal suits its field, and the tool accepts them together if all are literals; the
  -- step stands after its dependencies, and they include the source of each reference
  abbrev pub IsSound :
      Dict String (Contract Value) → List String → List String → PlanStep Value → Type 0
  IsSound registry allowed_tool_ids order step =
      ((contract : Contract Value) × (lookup step.tool_id registry ≡ some contract)
        × (known contract.definition.tool_id allowed_tool_ids ≡ true)
        × All (λ f. f.1.is_required ≡ true → known f.0 (map (λ a. a.name) step.arguments) ≡ true)
            contract.input_fields
        × All (IsTyped contract.input_fields) step.arguments
        × (all_literal step.arguments ≡ true
            → is_none (contract.definition.validate_arguments (literal_values step.arguments []))
              ≡ false))
      × All (λ d. known d (earlier step.step_id order) ≡ true) step.depends_on
      × All (λ a. IsDeclared step.depends_on a.value) step.arguments

  abbrev pub IsAccepted :
      Dict String (Contract Value) → List String → List (PlanStep Value) → List String → Type 0
  IsAccepted registry allowed_tool_ids steps order =
      (length steps ≤ max_plan_steps)
      × (unique (map (λ s. s.step_id) steps) ≡ true)
      × (unique order ≡ true)
      × ((x : String) → known x order ≡ known x (map (λ s. s.step_id) steps))
      × All (IsSound registry allowed_tool_ids order) steps

  pub duplicates_lem :
      (steps : List (PlanStep Value)) (ids : List String)
      → unique ids ≡ true
      → is_empty (duplicate_failures steps ids) ≡ true
      → (unique (ids ++ map (λ s. s.step_id) steps) ≡ true)
        × (steps_by_id steps ids ≡ ids ++ map (λ s. s.step_id) steps)
  unfolding duplicate_failures steps_by_id
  duplicates_lem [] ids hu h = rw (append-nil ids) (hu, refl)
  duplicates_lem (step ∷ steps) ids hu h = elim (Bool-cases (known step.step_id ids)) [
    | inl e ↦ ground (arith, e)
    | inr e ↦ rw e (
        transport
          (ap (λ z. (unique z ≡ true) × (steps_by_id steps (ids ++ step.step_id ∷ []) ≡ z))
            (append_assoc ids (step.step_id ∷ []) (map (λ s. s.step_id) steps)))
          (duplicates_lem steps (ids ++ step.step_id ∷ []) (unique-snoc ids step.step_id hu e)
            (ground arith)))
  ]

  pub required_lem :
      (step : PlanStep Value) (fields : List (String × InputField Value))
      → is_empty (required_failures step fields) ≡ true
      → All
          (λ f. f.1.is_required ≡ true → known f.0 (map (λ a. a.name) step.arguments) ≡ true)
          fields
  unfolding required_failures
  required_lem step [] h = tt
  required_lem step ((name, field) ∷ fields) h =
      let (h0, h1) = both_empty _ (required_failures step fields) h in
      let e = fail_if_lem _ _ h0 in (λ r. ground arith, required_lem step fields h1)

  pub model_lem :
      (step : PlanStep Value) (contract : Contract Value)
      → is_empty (model_failures step contract) ≡ true
      → all_literal step.arguments ≡ true
      → is_none (contract.definition.validate_arguments (literal_values step.arguments [])) ≡ false
  model_lem step contract h l = let e = fail_if_lem _ _ h in ground (arith, e)

  module _ (ids : List String) (definitions : Dict String (Contract Value))
      (step : PlanStep Value) where
    reference_lem :
        (name source output : String) (destination : Annotation)
        → is_empty (validate_reference ids definitions step name source output destination) ≡ true
        → known source step.depends_on ≡ true
    unfolding validate_reference
    reference_lem name source output destination h =
        elim (Bool-cases (known source step.depends_on)) [ inl e ↦ e | inr e ↦ ground (arith, e) ]

    typed_lem :
        (name : String) (value : PlanArgumentValue Value) (field : Option (InputField Value))
        → is_empty (value_failures ids definitions step name value field) ≡ true
        → (f : InputField Value) × (field ≡ some f) × IsFitting f value
    typed_lem name value none h = ground arith
    typed_lem name (PlanArgumentValue.literal value) (some field) h =
        let e = fail_if_lem _ _ h in (field, refl, ground (arith, e))
    typed_lem name (PlanArgumentValue.step_output_ref source output) (some field) h =
        (field, refl, tt)

    pub arguments_lem :
        (fields : Dict String (InputField Value)) (arguments : List (PlanArgument Value))
        → is_empty (argument_failures ids definitions step fields arguments) ≡ true
        → All (IsTyped fields) arguments
    unfolding argument_failures
    arguments_lem fields [] h = tt
    arguments_lem fields (a ∷ arguments) h =
        let (h0, h1) = both_empty _ (argument_failures ids definitions step fields arguments) h in
        (typed_lem a.name a.value (lookup a.name fields) h0, arguments_lem fields arguments h1)

    value_lem :
        (name : String) (value : PlanArgumentValue Value) (field : Option (InputField Value))
        → is_empty (value_failures ids definitions step name value field) ≡ true
        → IsDeclared step.depends_on value
    value_lem name (PlanArgumentValue.literal value) field h = tt
    value_lem name (PlanArgumentValue.step_output_ref source output) none h = ground arith
    value_lem name (PlanArgumentValue.step_output_ref source output) (some field) h =
        reference_lem name source output field.annotation_of h

    pub declared_lem :
        (fields : Dict String (InputField Value)) (arguments : List (PlanArgument Value))
        → is_empty (argument_failures ids definitions step fields arguments) ≡ true
        → All (λ a. IsDeclared step.depends_on a.value) arguments
    unfolding argument_failures
    declared_lem fields [] h = tt
    declared_lem fields (a ∷ arguments) h =
        let (h0, h1) = both_empty _ (argument_failures ids definitions step fields arguments) h in
        (value_lem a.name a.value (lookup a.name fields) h0, declared_lem fields arguments h1)
