-- ===== src/Investigations/Validation/Order.antt =====
-- investigations/planning/validation.py: the dependency graph of a plan and `_topological_order`.
-- An edge leads from a dependency to the step that declares it.
use promptql.Prelude.{
  ℕ, zero, suc, ◌+◌, ◌-◌, String, ◌&&◌, not, Option, none, some, List, [], ◌∷◌, ◌++◌, length, leb,
  nat_eq, or_else, ◌==◌, if◌then◌else◌,
}
use promptql.Prelude.Dict.{Dict, text_key, lookup, insert}
use promptql.Investigations.Plan.{PlanStep, known}

abbrev pub Edge : Type 0
Edge = String × String

-- a dictionary that gives a default for what is missing; every key that the code reads is there
abbrev pub degree : String → Dict String ℕ → ℕ
degree x in_degree = or_else (lookup x in_degree) 0

abbrev pub dependents : String → Dict String (List String) → List String
dependents x graph = or_else (lookup x graph) []

-- the edges that the loop over `step.depends_on` adds: neither unknown nor a step itself
unfoldable pub step_edges : List String → String → List String → List Edge
step_edges ids step_id [] = []
step_edges ids step_id (dependency_step_id ∷ more) =
    let rest = step_edges ids step_id more in
    if known dependency_step_id ids && not (dependency_step_id == step_id)
    then (dependency_step_id, step_id) ∷ rest
    else rest

module _ {Value : Type 0} where
  unfoldable pub plan_edges : List String → List (PlanStep Value) → List Edge
  plan_edges ids [] = []
  plan_edges ids (step ∷ steps) =
      step_edges ids step.step_id step.depends_on ++ plan_edges ids steps

-- `graph[dependency_step_id].append(step.step_id)`, for each edge
unfoldable pub add_dependents : List Edge → Dict String (List String) → Dict String (List String)
add_dependents [] graph = graph
add_dependents ((d, x) ∷ edges) graph =
    add_dependents edges (insert d (dependents d graph ++ x ∷ []) graph)

-- `in_degree[step.step_id] += 1`, for each edge
unfoldable pub add_degrees : List Edge → Dict String ℕ → Dict String ℕ
add_degrees [] in_degree = in_degree
add_degrees ((d, x) ∷ edges) in_degree =
    add_degrees edges (insert x (degree x in_degree + 1) in_degree)

unfoldable pub first_graph : List String → Dict String (List String)
first_graph [] = []
first_graph (id ∷ ids) = (id, []) ∷ first_graph ids

unfoldable pub first_degrees : List String → Dict String ℕ
first_degrees [] = []
first_degrees (id ∷ ids) = (id, 0) ∷ first_degrees ids

module _ (position : String → ℕ) where
  -- an entry among others by position, before its equals: `heappush` into a heap that is popped in
  -- order, and an insertion of a stable sort
  unfoldable pub push : String → List String → List String
  push x [] = x ∷ []
  push x (y ∷ ys) = if leb (position x) (position y) then x ∷ y ∷ ys else y ∷ push x ys

  -- `sorted(..., key=step_position.__getitem__)`
  unfoldable pub sort : List String → List String
  sort [] = []
  sort (x ∷ xs) = push x (sort xs)

  -- the entries of degree 0
  unfoldable pub push_ready : List String → Dict String ℕ → List String → List String
  push_ready [] in_degree ready = ready
  push_ready (id ∷ ids) in_degree ready =
      push_ready ids in_degree (if nat_eq (degree id in_degree) 0 then push id ready else ready)

  -- the inner loop: an edge less for each dependent, which is ready when none is left
  unfoldable pub release : List String → Dict String ℕ → List String → Dict String ℕ × List String
  release [] in_degree ready = (in_degree, ready)
  release (x ∷ xs) in_degree ready =
      release xs (insert x (degree x in_degree - 1) in_degree)
        (if nat_eq (degree x in_degree - 1) 0 then push x ready else ready)

  -- the outer loop, one round for each entry that leaves the heap
  unfoldable pub order_from :
      ℕ
      → Dict String (List String)
      → Dict String ℕ
      → List String
      → List String
      → Option (List String)
  order_from rounds graph in_degree [] ordered = some ordered
  order_from zero graph in_degree (step_id ∷ ready) ordered = none
  order_from (suc rounds) graph in_degree (step_id ∷ ready) ordered =
      let (in_degree', ready') = release (sort (dependents step_id graph)) in_degree ready in
      order_from rounds graph in_degree' ready' (ordered ++ step_id ∷ [])

-- `tuple(ordered) if len(ordered) == len(graph) else None`
abbrev pub if_all : List String → Option (List String) → Option (Option (List String))
if_all ids none = none
if_all ids (some ordered) =
    some (if nat_eq (length ordered) (length ids) then some ordered else none)

-- the steps in order, if all were reached; `none` only if a round was missing
unfoldable pub topological_order :
    (String → ℕ) → List String → List Edge → Option (Option (List String))
topological_order position ids edges =
    let graph = add_dependents edges (first_graph ids) in
    let in_degree = add_degrees edges (first_degrees ids) in
    if_all ids
      (order_from position (length ids) graph in_degree (push_ready position ids in_degree []) [])

-- the keys of `steps_by_id`, in the order of the plan
unfoldable pub steps_by_id : {Value : Type 0} → List (PlanStep Value) → List String → List String
steps_by_id [] ids = ids
steps_by_id (step ∷ steps) ids =
    steps_by_id steps (if known step.step_id ids then ids else ids ++ step.step_id ∷ [])

-- `{step.step_id: index for index, step in enumerate(plan.steps)}`: the last place of each
unfoldable pub step_position :
    {Value : Type 0} → List (PlanStep Value) → ℕ → Dict String ℕ → Dict String ℕ
step_position [] index positions = positions
step_position (step ∷ steps) index positions =
    step_position steps (suc index) (insert step.step_id index positions)

-- what `validate` reads from the dependencies of a plan: `none` only if a round was missing, and
-- `some none` for a cycle
abbrev pub plan_order : {Value : Type 0} → List (PlanStep Value) → Option (Option (List String))
plan_order steps =
    let ids = steps_by_id steps [] in
    topological_order (λ x. degree x (step_position steps 0 [])) ids (plan_edges ids steps)
