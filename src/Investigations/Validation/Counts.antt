-- ===== src/Investigations/Validation/Counts.antt =====
-- investigations/planning/validation.py: how often an identifier occurs, and how many of its
-- dependencies are not yet ordered.
use promptql.Prelude.{
  ℕ, suc, ◌+◌, ◌≡◌, refl, sym, ◌∙◌, ap, String, true, false, ◌&&◌, ◌||◌, not, List, [], ◌∷◌, ◌++◌,
  append-nil, append_assoc, ◌==◌, eq_iff, arith, All, Bool-cases, inl, inr, if◌then◌else◌,
}
use promptql.Prelude.Dict.{Dict, text_key, lookup, insert, lookup-insert}
use promptql.Investigations.Plan.{known}
use promptql.Investigations.Validation.Order.{
  Edge, degree, dependents, add_dependents, add_degrees, first_graph, first_degrees, push, sort,
}

abbrev pub occurrences : String → List String → ℕ
occurrences x [] = 0
occurrences x (y ∷ ys) = if y == x then suc (occurrences x ys) else occurrences x ys

pub occurrences-append :
    (x : String) (ys zs : List String)
    → occurrences x (ys ++ zs) ≡ occurrences x ys + occurrences x zs
occurrences-append x [] zs = omega arith
occurrences-append x (y ∷ ys) zs = ground (arith, occurrences-append x ys zs)

pub occurrences-push :
    (position : String → ℕ) (x y : String) (ys : List String)
    → occurrences x (push position y ys) ≡ occurrences x (y ∷ ys)
unfolding push
occurrences-push position x y [] = refl
occurrences-push position x y (z ∷ ys) = ground (arith, occurrences-push position x y ys)

pub occurrences-sort :
    (position : String → ℕ) (x : String) (ys : List String)
    → occurrences x (sort position ys) ≡ occurrences x ys
unfolding sort
occurrences-sort position x [] = refl
occurrences-sort position x (y ∷ ys) =
    ground (arith, occurrences-push position x y (sort position ys), occurrences-sort position x ys)

pub occurrences-known : (x : String) (ys : List String) → known x ys ≡ false → occurrences x ys ≡ 0
occurrences-known x [] h = refl
occurrences-known x (y ∷ ys) h = ground (arith, occurrences-known x ys)

-- the steps that depend on `s`
abbrev pub out : String → List Edge → List String
out s [] = []
out s ((d, x) ∷ edges) = if d == s then x ∷ out s edges else out s edges

-- the edges into `x` whose dependency is not ordered
abbrev pub unmet : String → List Edge → List String → ℕ
unmet x [] ordered = 0
unmet x ((d, y) ∷ edges) ordered =
    if (y == x) && not (known d ordered) then suc (unmet x edges ordered) else unmet x edges ordered

pub known-snoc :
    (d s : String) (ordered : List String)
    → known d (ordered ++ s ∷ []) ≡ (known d ordered || s == d)
known-snoc d s [] = ground arith
known-snoc d s (x ∷ ordered) = ground (arith, known-snoc d s ordered)

-- ordering `s` settles the edges out of it
pub unmet-snoc :
    (x s : String) (edges : List Edge) (ordered : List String)
    → known s ordered ≡ false
    → unmet x edges ordered ≡ unmet x edges (ordered ++ s ∷ []) + occurrences x (out s edges)
unmet-snoc x s [] ordered h = refl
unmet-snoc x s ((d, y) ∷ edges) ordered h =
    ground (arith, unmet-snoc x s edges ordered h, known-snoc d s ordered, eq_iff s d, eq_iff d s)

-- nothing unmet: every dependency is ordered
pub unmet_none :
    (x : String) (edges : List Edge) (ordered : List String)
    → unmet x edges ordered ≡ 0
    → All (λ e. e.1 ≡ x → known e.0 ordered ≡ true) edges
unmet_none x [] ordered h = tt
unmet_none x ((d, y) ∷ edges) ordered h =
    (λ e. ground (arith, eq_iff y x), unmet_none x edges ordered (ground arith))

-- an edge goes to its source
dependents_known :
    (d s x : String) (graph : Dict String (List String))
    → d == s ≡ true
    → dependents s (insert d (dependents d graph ++ x ∷ []) graph) ≡ dependents s graph ++ x ∷ []
dependents_known d s x graph h =
    rw (lookup-insert d s (dependents d graph ++ x ∷ []) graph, h, (eq_iff d s).0 h) refl

dependents_other :
    (d s x : String) (graph : Dict String (List String))
    → d == s ≡ false
    → dependents s (insert d (dependents d graph ++ x ∷ []) graph) ≡ dependents s graph
dependents_other d s x graph h = rw (lookup-insert d s (dependents d graph ++ x ∷ []) graph, h) refl

pub dependents-add :
    (s : String) (edges : List Edge) (graph : Dict String (List String))
    → dependents s (add_dependents edges graph) ≡ dependents s graph ++ out s edges
unfolding add_dependents
dependents-add s [] graph = sym (append-nil _)
dependents-add s ((d, x) ∷ edges) graph =
    let later = dependents-add s edges (insert d (dependents d graph ++ x ∷ []) graph) in
    elim (Bool-cases (d == s)) [
      | inl h ↦
          later
          ∙ ap (λ z. z ++ out s edges) (dependents_known d s x graph h)
          ∙ append_assoc (dependents s graph) (x ∷ []) (out s edges)
          ∙ ap (λ b. dependents s graph ++ (if b then x ∷ out s edges else out s edges)) (sym h)
      | inr h ↦
          later
          ∙ ap (λ z. z ++ out s edges) (dependents_other d s x graph h)
          ∙ ap (λ b. dependents s graph ++ (if b then x ∷ out s edges else out s edges)) (sym h)
    ]

pub degree-add :
    (x : String) (edges : List Edge) (in_degree : Dict String ℕ)
    → degree x (add_degrees edges in_degree) ≡ degree x in_degree + unmet x edges []
unfolding add_degrees
degree-add x [] in_degree = omega arith
degree-add x ((d, y) ∷ edges) in_degree = ground (
  arith,
  degree-add x edges (insert y (degree y in_degree + 1) in_degree),
  lookup-insert y x (degree y in_degree + 1) in_degree,
  eq_iff y x,
)

pub degree_first : (x : String) (ids : List String) → degree x (first_degrees ids) ≡ 0
unfolding first_degrees lookup
degree_first x [] = refl
degree_first x (id ∷ ids) = ground (arith, degree_first x ids)

pub dependents_first : (x : String) (ids : List String) → dependents x (first_graph ids) ≡ []
unfolding first_graph lookup
dependents_first x [] = refl
dependents_first x (id ∷ ids) = ground (arith, dependents_first x ids)
