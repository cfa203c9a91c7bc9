-- ===== src/Investigations/Validation/Loop.antt =====
-- investigations/planning/validation.py: the outer loop of `_topological_order`.
use promptql.Prelude.{
  ℕ, zero, suc, ◌+◌, ◌≤◌, ◌≡◌, refl, sym, ap, String, true, false, ◌&&◌, some, List, [], ◌∷◌, ◌++◌,
  append-nil, append_assoc, length, length-append, ◌==◌, eq_iff, arith, All, Bool-cases, inl, inr,
  if◌then◌else◌,
}
use mathlib.Core.Path.{transport}
use promptql.Prelude.Dict.{Dict}
use promptql.Investigations.Plan.{known}
use promptql.Investigations.Validation.Order.{Edge, degree, dependents, sort, release, order_from}
use promptql.Investigations.Validation.Counts.{
  occurrences, occurrences-append, occurrences-sort, out, unmet-snoc, unmet_none, known-snoc,
}
use promptql.Investigations.Validation.Invariant.{Counts, release-Counts}

-- each step of `xs` stands after its dependencies, where `before` comes first
abbrev pub Follows : List Edge → List String → List String → Type 0
Follows edges before [] = Unit
Follows edges before (x ∷ xs) =
    All (λ e. e.1 ≡ x → known e.0 before ≡ true) edges × Follows edges (before ++ x ∷ []) xs

Follows-snoc :
    (edges : List Edge) (before xs : List String) (x : String)
    → Follows edges before xs
    → All (λ e. e.1 ≡ x → known e.0 (before ++ xs) ≡ true) edges
    → Follows edges before (xs ++ x ∷ [])
Follows-snoc edges before [] x h hx =
    (transport (ap (λ z. All (λ e. e.1 ≡ x → known e.0 z ≡ true) edges) (append-nil before)) hx, tt)
Follows-snoc edges before (y ∷ xs) x h hx = (
  h.0,
  Follows-snoc edges (before ++ y ∷ []) xs x h.1 (
      transport
        (ap (λ z. All (λ e. e.1 ≡ x → known e.0 z ≡ true) edges)
          (sym (append_assoc before (y ∷ []) xs)))
        hx),
)

-- how many of `ids` are ordered
abbrev pub placed : List String → List String → ℕ
placed [] ordered = 0
placed (id ∷ ids) ordered =
    if known id ordered then suc (placed ids ordered) else placed ids ordered

placed-snoc :
    (ids ordered : List String) (s : String)
    → known s ordered ≡ false
    → placed ids (ordered ++ s ∷ []) ≡ placed ids ordered + occurrences s ids
placed-snoc [] ordered s h = refl
placed-snoc (id ∷ ids) ordered s h =
    ground (arith, placed-snoc ids ordered s h, known-snoc id s ordered, eq_iff id s, eq_iff s id)

pub placed_bound : (ids ordered : List String) → placed ids ordered ≤ length ids
placed_bound [] ordered = omega arith
placed_bound (id ∷ ids) ordered = ground (arith, placed_bound ids ordered)

pub placed_all :
    (ids ordered : List String) (x : String)
    → length ids ≤ placed ids ordered
    → known x ids ≡ true
    → known x ordered ≡ true
placed_all [] ordered x h hx = ground arith
placed_all (id ∷ ids) ordered x h hx =
    ground (arith, placed_all ids ordered x, placed_bound ids ordered, eq_iff id x)

pub known-occurrences : (x : String) (ys : List String) → known x ys ≡ true → 1 ≤ occurrences x ys
known-occurrences x [] h = ground arith
known-occurrences x (y ∷ ys) h = ground (arith, known-occurrences x ys)

out-known :
    (ids : List String) (s y : String) (edges : List Edge)
    → All (λ e. known e.1 ids ≡ true) edges
    → 1 ≤ occurrences y (out s edges)
    → known y ids ≡ true
out-known ids s y [] he h = ground arith
out-known ids s y ((d, x) ∷ edges) he h = elim (Bool-cases (d == s && x == y)) [
  | inl e ↦ rw (sym ((eq_iff x y).0 (ground arith))) he.0
  | inr e ↦ out-known ids s y edges he.1 (ground arith)
]

-- what the loop keeps
abbrev pub Kept : List String → List Edge → Dict String ℕ → List String → List String → Type 0
Kept ids edges in_degree ready ordered =
    Counts ids edges [] in_degree ready ordered
    × Follows edges [] ordered
    × (length ordered ≡ placed ids ordered)

module _ (ids : List String) (edges : List Edge) (graph : Dict String (List String))
    (hu : (x : String) → known x ids ≡ true → occurrences x ids ≡ 1)
    (he : All (λ e. known e.1 ids ≡ true) edges)
    (hg : (s : String) → dependents s graph ≡ out s edges) where
  -- the step that leaves the heap
  next_lem :
      (in_degree : Dict String ℕ) (s : String) (ready ordered : List String)
      → Counts ids edges [] in_degree (s ∷ ready) ordered
      → (known s ids ≡ true) × (known s ordered ≡ false) × (degree s in_degree ≡ 0)
  next_lem in_degree s ready ordered h =
      let (_, hs) = h s in
      (
        ground (arith, eq_iff s s),
        elim (Bool-cases (known s ordered)) [
          | inl e ↦ ground (arith, eq_iff s s, known-occurrences s ordered e)
          | inr e ↦ e
        ],
        ground (arith, eq_iff s s),
      )

  next-Counts :
      (position : String → ℕ) (in_degree : Dict String ℕ) (s : String) (ready ordered : List String)
      → Counts ids edges [] in_degree (s ∷ ready) ordered
      → known s ordered ≡ false
      → Counts ids edges (sort position (dependents s graph)) in_degree ready (ordered ++ s ∷ [])
  next-Counts position in_degree s ready ordered h hs x =
      let (dx, cx) = h x in
      rw (occurrences-sort position x (dependents s graph), hg s)
        (
          ground (arith, unmet-snoc x s edges ordered hs),
          ground (arith, occurrences-append x ordered (s ∷ [])),
        )

  left_out :
      (position : String → ℕ) (s y : String)
      → 1 ≤ occurrences y (sort position (dependents s graph))
      → 1 ≤ occurrences y (out s edges)
  left_out position s y h =
      omega (arith, occurrences-sort position y (dependents s graph), ap (occurrences y) (hg s))

  next-Kept :
      (position : String → ℕ) (in_degree : Dict String ℕ) (s : String) (ready ordered : List String)
      → Kept ids edges in_degree (s ∷ ready) ordered
      → let (in_degree', ready') =
          release position (sort position (dependents s graph)) in_degree ready in
        Kept ids edges in_degree' ready' (ordered ++ s ∷ [])
  next-Kept position in_degree s ready ordered (hc, hf, hp) =
      let (hs, ho, hd) = next_lem in_degree s ready ordered hc in
      let (dx, _) = hc s in
      (
        release-Counts position ids edges (sort position (dependents s graph)) in_degree ready
            (ordered ++ s ∷ []) (λ y hy. out-known ids s y edges he (left_out position s y hy))
            (next-Counts position in_degree s ready ordered hc ho),
        Follows-snoc edges [] ordered s hf (unmet_none s edges ordered (omega arith)),
        omega (arith, placed-snoc ids ordered s ho, length-append ordered (s ∷ []), hu s hs),
      )

  -- a round for each step is enough
  pub order_from-Kept :
      (position : String → ℕ) (rounds : ℕ) (in_degree : Dict String ℕ) (ready ordered : List String)
      → Kept ids edges in_degree ready ordered
      → length ids ≤ rounds + length ordered
      → (last : List String) × (in_degree' : Dict String ℕ) × (order_from position rounds graph
            in_degree ready ordered
          ≡ some last)
        × Kept ids edges in_degree' [] last
  unfolding order_from
  order_from-Kept position rounds in_degree [] ordered h hr = (ordered, in_degree, refl, h)
  order_from-Kept position zero in_degree (s ∷ ready) ordered h hr =
      let (hs, ho, hd) = next_lem in_degree s ready ordered h.0 in
      ground (arith, placed_all ids ordered s (omega (arith, h.2)) hs)
  order_from-Kept position (suc rounds) in_degree (s ∷ ready) ordered h hr =
      order_from-Kept position rounds _ _ (ordered ++ s ∷ [])
        (next-Kept position in_degree s ready ordered h)
        (omega (arith, length-append ordered (s ∷ [])))
