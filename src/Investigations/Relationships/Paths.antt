-- ===== src/Investigations/Relationships/Paths.antt =====
-- investigations/relationship_index.py: paths of relationships, and what one look at an edge does to
-- the search.
use promptql.Prelude.{
  ℕ, suc, ◌≤◌, ◌≡◌, refl, sym, ◌∙◌, ap, true, false, List, [], ◌∷◌, ◌++◌, ◌⊎◌, inl, inr, All,
  All-imp, arith, Bool-cases, subst, if◌then◌else◌,
}
use promptql.Investigations.Relationships.Index.{
  EntityRef, RelationshipEdge, same_entity, same_entity_iff, touches, neighbors_in,
}
use promptql.Investigations.Relationships.Search.{member, other_end}

abbrev pub Joins : RelationshipEdge → EntityRef → EntityRef → Type 0
Joins e x y = ((e.from_entity ≡ x) × (e.to_entity ≡ y)) ⊎ ((e.to_entity ≡ x) × (e.from_entity ≡ y))

abbrev pub Among : RelationshipEdge → List RelationshipEdge → Type 0
Among e [] = ⊥
Among e (f ∷ fs) = (e ≡ f) ⊎ Among e fs

-- a walk along edges of the index, each in either direction
pub data Walk (edges : List RelationshipEdge) (a : EntityRef)
    : List RelationshipEdge → EntityRef → Type 0 where
  start : Walk edges a [] a
  step :
      {path : List RelationshipEdge} {x y : EntityRef} (e : RelationshipEdge)
      → Walk edges a path x
      → Among e edges
      → Joins e x y
      → Walk edges a (path ++ e ∷ []) y

pub Joins-other_end :
    (e : RelationshipEdge) (x : EntityRef) → touches x e ≡ true → Joins e x (other_end e x)
unfolding other_end
Joins-other_end e x h = elim (Bool-cases (same_entity e.from_entity x)) [
  | inl same ↦ rw same (inl ((same_entity_iff e.from_entity x).0 same, refl))
  | inr other ↦
      let there : e.to_entity ≡ x = ground (
        arith,
        same_entity_iff x e.from_entity,
        same_entity_iff e.from_entity x,
        same_entity_iff x e.to_entity,
      ) in
      rw other (inr (there, refl))
]

pub other_end-Joins : (e : RelationshipEdge) (x y : EntityRef) → Joins e x y → other_end e x ≡ y
unfolding other_end
other_end-Joins e x y (inl (f, t)) = ground (arith, same_entity_iff e.from_entity x)
other_end-Joins e x y (inr (t, f)) = ground (arith, same_entity_iff e.from_entity x)

pub touches-Joins : (e : RelationshipEdge) (x y : EntityRef) → Joins e x y → touches x e ≡ true
touches-Joins e x y (inl (f, t)) = ground (arith, same_entity_iff x e.from_entity)
touches-Joins e x y (inr (t, f)) = ground (arith, same_entity_iff x e.to_entity)

pub neighbors_in-Among :
    (edges all : List RelationshipEdge) (x : EntityRef)
    → All (λ e. Among e all) edges
    → All (λ e. Among e all × (touches x e ≡ true)) (neighbors_in edges x)
unfolding neighbors_in
neighbors_in-Among [] all x h = tt
neighbors_in-Among (e ∷ edges) all x h = elim (Bool-cases (touches x e)) [
  | inl t ↦ rw t ((h.0, t), neighbors_in-Among edges all x h.1)
  | inr t ↦ rw t (neighbors_in-Among edges all x h.1)
]

pub Among-neighbors :
    (edges : List RelationshipEdge) (x : EntityRef) (e : RelationshipEdge)
    → Among e edges
    → touches x e ≡ true
    → Among e (neighbors_in edges x)
unfolding neighbors_in
Among-neighbors (f ∷ edges) x e (inl same) t = rw (ap (λ g. touches x g) (sym same) ∙ t) (inl same)
Among-neighbors (f ∷ edges) x e (inr more) t = elim (Bool-cases (touches x f)) [
  | inl u ↦ rw u (inr (Among-neighbors edges x e more t))
  | inr u ↦ rw u (Among-neighbors edges x e more t)
]
Among-neighbors [] x e h t = absurd h

pub Among-all : (edges : List RelationshipEdge) → All (λ e. Among e edges) edges
Among-all [] = tt
Among-all (e ∷ edges) = (inl refl, All-imp (λ f h. inr h) edges (Among-all edges))

pub All-Among :
    (P : RelationshipEdge → Type 0) (es : List RelationshipEdge) (e : RelationshipEdge)
    → All P es
    → Among e es
    → P e
All-Among P [] e h a = absurd a
All-Among P (f ∷ es) e h (inl same) = subst P (sym same) h.0
All-Among P (f ∷ es) e h (inr more) = All-Among P es e h.1 more

-- the ends of the edges, and how many of them are not visited
abbrev pub ends : List RelationshipEdge → List EntityRef
ends [] = []
ends (e ∷ edges) = e.from_entity ∷ e.to_entity ∷ ends edges

abbrev pub unvisited : List EntityRef → List EntityRef → ℕ
unvisited visited [] = 0
unvisited visited (x ∷ xs) =
    if member x visited then unvisited visited xs else suc (unvisited visited xs)

unvisited-cons :
    (n : EntityRef) (visited xs : List EntityRef)
    → unvisited (n ∷ visited) xs ≤ unvisited visited xs
unvisited-cons n visited [] = omega arith
unvisited-cons n visited (x ∷ xs) = ground (arith, unvisited-cons n visited xs)

pub unvisited-new :
    (n : EntityRef) (visited xs : List EntityRef)
    → member n xs ≡ true
    → member n visited ≡ false
    → suc (unvisited (n ∷ visited) xs) ≤ unvisited visited xs
unvisited-new n visited [] h k = cc
unvisited-new n visited (x ∷ xs) h k = elim (Bool-cases (same_entity x n)) [
  | inl same ↦ ground (arith, unvisited-cons n visited xs, same_entity_iff x n, same_entity_iff n x)
  | inr other ↦ ground (arith, unvisited-new n visited xs)
]
