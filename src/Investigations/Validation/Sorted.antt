-- ===== src/Investigations/Validation/Sorted.antt =====
-- investigations/planning/validation.py: what `_topological_order` returns for a plan.
use promptql.Prelude.{
  ℕ, ◌≤◌, ◌<◌, ◌≡◌, refl, sym, ◌∙◌, ap, String, true, false, ◌&&◌, not, Option, none, some, List,
  [], ◌∷◌, ◌++◌, length, any, nat_eq, ◌==◌, eq_iff, arith, All, All-append, All-imp, Bool-cases,
  inl, inr, if◌then◌else◌,
}
use promptql.Prelude.Dict.{Dict}
use promptql.Investigations.Plan.{PlanStep, known, unique}
use promptql.Investigations.Validation.Order.{
  Edge, degree, add_dependents, add_degrees, first_graph, first_degrees, push_ready, if_all,
  topological_order, steps_by_id, step_position, step_edges, plan_edges, plan_order,
}
use promptql.Investigations.Validation.Counts.{
  occurrences, occurrences-known, out, unmet, dependents-add, dependents_first, degree-add,
  degree_first, known-snoc,
}
use promptql.Investigations.Validation.Invariant.{
  Counts, occurrences-unique, occurrences-push_ready,
}
use promptql.Investigations.Validation.Loop.{
  Follows, placed, placed_all, placed_bound, known-occurrences, Kept, order_from-Kept,
}

-- an order of all steps, each once and after its dependencies; or a set of steps that is not empty,
-- the ones outside `ordered`, each of which depends on one of them
abbrev pub IsOrdered : List String → List Edge → Option (List String) → Type 0
IsOrdered ids edges (some order) =
    (unique order ≡ true) × ((x : String) → known x order ≡ known x ids) × Follows edges [] order
IsOrdered ids edges none =
    (ordered : List String) × ((x : String) × (known x ids && not (known x ordered) ≡ true))
    × ((x : String)
        → known x ids && not (known x ordered) ≡ true
        → any (λ e. e.1 == x && known e.0 ids && not (known e.0 ordered)) edges ≡ true)

unique_lem : (ys : List String) → ((x : String) → occurrences x ys ≤ 1) → unique ys ≡ true
unique_lem [] h = refl
unique_lem (y ∷ ys) h =
    let rest = unique_lem ys (λ x. ground (arith, h x)) in
    elim (Bool-cases (known y ys)) [
      | inl e ↦ ground (arith, h y, eq_iff y y, known-occurrences y ys e)
      | inr e ↦ ground arith
    ]

missing_lem :
    (ids ordered : List String)
    → placed ids ordered < length ids
    → (x : String) × (known x ids && not (known x ordered) ≡ true)
missing_lem [] ordered h = ground arith
missing_lem (id ∷ ids) ordered h = elim (Bool-cases (known id ordered)) [
  | inl e ↦ let (x, hx) = missing_lem ids ordered (ground arith) in (x, ground arith)
  | inr e ↦ (id, ground (arith, eq_iff id id))
]

waits_lem :
    (ids : List String) (x : String) (edges : List Edge) (ordered : List String)
    → All (λ e. known e.0 ids ≡ true) edges
    → 1 ≤ unmet x edges ordered
    → any (λ e. e.1 == x && known e.0 ids && not (known e.0 ordered)) edges ≡ true
waits_lem ids x [] ordered hs h = ground arith
waits_lem ids x ((d, y) ∷ edges) ordered (hd, hs) h =
    ground (arith, waits_lem ids x edges ordered hs)

placed_empty : (ids : List String) → 0 ≡ placed ids []
placed_empty [] = refl
placed_empty (id ∷ ids) = placed_empty ids

module _ (ids : List String) (edges : List Edge) (hu : unique ids ≡ true)
    (hs : All (λ e. known e.0 ids ≡ true) edges) (he : All (λ e. known e.1 ids ≡ true) edges) where
  first_lem :
      (position : String → ℕ)
      → let in_degree = add_degrees edges (first_degrees ids) in
        Counts ids edges [] in_degree (push_ready position ids in_degree []) []
  first_lem position x =
      let in_degree = add_degrees edges (first_degrees ids) in
      (
        omega (arith, degree-add x edges (first_degrees ids), degree_first x ids),
        ground (
          arith,
          occurrences-push_ready position x ids in_degree [],
          occurrences-unique x ids hu,
        ),
      )

  last-IsOrdered :
      (in_degree : Dict String ℕ) (last : List String)
      → Kept ids edges in_degree [] last
      → IsOrdered ids edges (if nat_eq (length last) (length ids) then some last else none)
  last-IsOrdered in_degree last (hc, hf, hp) =
      elim (Bool-cases (nat_eq (length last) (length ids))) [
        | inl e ↦ rw e (
          unique_lem last (λ x. ground (arith, (hc x).1)),
          (λ x. elim (Bool-cases (known x ids)) [
            | inl k ↦ placed_all ids last x (ground arith) k ∙ sym k
            | inr k ↦ ground (arith, (hc x).1, known-occurrences x last)
          ]),
          hf,
        )
        | inr e ↦ rw e (
          last,
          missing_lem ids last (ground (arith, placed_bound ids last)),
          (λ x hx.
              waits_lem ids x edges last hs
                (ground (arith, (hc x).0, (hc x).1, occurrences-known x last))),
        )
      ]

  topological_order-IsOrdered :
      (position : String → ℕ)
      → (result : Option (List String)) × (topological_order position ids edges ≡ some result)
        × IsOrdered ids edges result
  unfolding topological_order
  topological_order-IsOrdered position =
      let graph = add_dependents edges (first_graph ids) in
      let in_degree = add_degrees edges (first_degrees ids) in
      let (last, in_degree', eq, kept) =
        order_from-Kept ids edges graph (λ x k. ground (arith, occurrences-unique x ids hu)) he
          (λ s.
            dependents-add s edges (first_graph ids)
            ∙ ap (λ z. z ++ out s edges) (dependents_first s ids))
          position (length ids) in_degree (push_ready position ids in_degree []) []
          (first_lem position, tt, placed_empty ids) (omega arith) in
      (
        (if nat_eq (length last) (length ids) then some last else none),
        ap (if_all ids) eq,
        last-IsOrdered in_degree' last kept,
      )

pub unique-snoc :
    (ids : List String) (x : String)
    → unique ids ≡ true
    → known x ids ≡ false
    → unique (ids ++ x ∷ []) ≡ true
unique-snoc [] x h hx = refl
unique-snoc (id ∷ ids) x h hx =
    ground (arith, unique-snoc ids x, known-snoc id x ids, eq_iff x id, eq_iff id x)

step_edges-All :
    (ids : List String) (x : String) (depends_on : List String)
    → known x ids ≡ true
    → All (λ e. (known e.0 ids ≡ true) × (known e.1 ids ≡ true)) (step_edges ids x depends_on)
unfolding step_edges
step_edges-All ids x [] h = tt
step_edges-All ids x (d ∷ more) h = elim (Bool-cases (known d ids && not (d == x))) [
  | inl e ↦ rw e ((ground arith, h), step_edges-All ids x more h)
  | inr e ↦ rw e (step_edges-All ids x more h)
]

module _ {Value : Type 0} where
  steps_by_id-unique :
      (steps : List (PlanStep Value)) (ids : List String)
      → unique ids ≡ true
      → unique (steps_by_id steps ids) ≡ true
  unfolding steps_by_id
  steps_by_id-unique [] ids h = h
  steps_by_id-unique (step ∷ steps) ids h = elim (Bool-cases (known step.step_id ids)) [
    | inl e ↦ rw e (steps_by_id-unique steps ids h)
    | inr e ↦
        rw e
          (steps_by_id-unique steps (ids ++ step.step_id ∷ []) (unique-snoc ids step.step_id h e))
  ]

  steps_by_id-known :
      (steps : List (PlanStep Value)) (ids : List String) (x : String)
      → known x ids ≡ true
      → known x (steps_by_id steps ids) ≡ true
  unfolding steps_by_id
  steps_by_id-known [] ids x h = h
  steps_by_id-known (step ∷ steps) ids x h = elim (Bool-cases (known step.step_id ids)) [
    | inl e ↦ rw e (steps_by_id-known steps ids x h)
    | inr e ↦ rw e (
        steps_by_id-known steps (ids ++ step.step_id ∷ []) x
          (ground (arith, known-snoc x step.step_id ids)))
  ]

  pub steps_by_id-All :
      (steps : List (PlanStep Value)) (ids : List String)
      → All (λ step. known step.step_id (steps_by_id steps ids) ≡ true) steps
  unfolding steps_by_id
  steps_by_id-All [] ids = tt
  steps_by_id-All (step ∷ steps) ids = (
    elim (Bool-cases (known step.step_id ids)) [
      | inl e ↦ rw e (steps_by_id-known steps ids step.step_id e)
      | inr e ↦ rw e (
          steps_by_id-known steps (ids ++ step.step_id ∷ []) step.step_id (
            ground
              (arith, known-snoc step.step_id step.step_id ids, eq_iff step.step_id step.step_id)))
    ],
    steps_by_id-All steps _,
  )

  plan_edges-All :
      (ids : List String) (steps : List (PlanStep Value))
      → All (λ step. known step.step_id ids ≡ true) steps
      → All (λ e. (known e.0 ids ≡ true) × (known e.1 ids ≡ true)) (plan_edges ids steps)
  unfolding plan_edges
  plan_edges-All ids [] h = tt
  plan_edges-All ids (step ∷ steps) h =
      All-append _ (step_edges ids step.step_id step.depends_on) _
        (step_edges-All ids step.step_id step.depends_on h.0) (plan_edges-All ids steps h.1)

  -- Ordering the dependencies of any plan ends with a result: either an order that holds the
  -- identifiers of the plan's steps and no other, each once, where each step stands after all its
  -- dependencies; or no order, and then there is a set of steps, not empty, each of which depends
  -- on a step of the set. A dependency that is unknown or the
  -- step itself, which the validation reports by other codes, does not count.
  pub plan_order-IsOrdered :
      (steps : List (PlanStep Value))
      → (result : Option (List String)) × (plan_order steps ≡ some result)
        × IsOrdered (steps_by_id steps []) (plan_edges (steps_by_id steps []) steps) result
  plan_order-IsOrdered steps =
      let ids = steps_by_id steps [] in
      let edges = plan_edges ids steps in
      let all = plan_edges-All ids steps (steps_by_id-All steps []) in
      topological_order-IsOrdered ids edges (steps_by_id-unique steps [] refl)
        (All-imp (λ e h. h.0) edges all) (All-imp (λ e h. h.1) edges all)
        (λ x. degree x (step_position steps 0 []))
