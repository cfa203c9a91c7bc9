-- ===== src/Investigations/Relationships/Facts.antt =====
-- investigations/relationship_index.py: every edge of a built index names a fact of it, so that the
-- search raises no `KeyError`.
use promptql.Prelude.{
  ◌≡◌, ◌≢◌, refl, sym, ap, ◌∙◌, String, true, none, some, List, [], ◌∷◌, ◌++◌, ◌⊎◌, inl, inr, any,
  arith, Bool-cases, ◌==◌, eq_iff,
}
use promptql.Prelude.Dict.{Dict, text_key, lookup, insert, lookup-insert}
use promptql.Investigations.Facts.{InvestigationFact, id_of}
use promptql.Investigations.Relationships.Index.{
  EntityRef, RelationshipEdge, edges_of, index_edges, index_facts, build_relationship_index,
}
use promptql.Investigations.Relationships.Search.{find_connecting_facts}
use promptql.Investigations.Relationships.Paths.{Among}
use promptql.Investigations.Relationships.Connectivity.{NamesFacts, IsRight, find-IsRight}

abbrev Found : Dict String InvestigationFact → String → Type 0
Found index id = (f : InvestigationFact) × (lookup id index ≡ some f) × (id_of f ≡ id)

insert-Found :
    (g : InvestigationFact) (index : Dict String InvestigationFact) (id : String)
    → ((id_of g == id) ≡ true) ⊎ Found index id
    → Found (insert (id_of g) g index) id
insert-Found g index id h = elim (Bool-cases (id_of g == id)) [
  | inl same ↦ (g, lookup-insert (id_of g) id g index ∙ rw same refl, (eq_iff (id_of g) id).0 same)
  | inr other ↦ elim h [
    | inl same ↦ cc
    | inr (f, found, e) ↦ (f, lookup-insert (id_of g) id g index ∙ rw other found, e)
  ]
]

index_facts-Found :
    (facts : List InvestigationFact) (index : Dict String InvestigationFact) (id : String)
    → (any (λ f. id_of f == id) facts ≡ true) ⊎ Found index id
    → Found (index_facts index facts) id
unfolding index_facts
index_facts-Found [] index id (inl h) = cc
index_facts-Found [] index id (inr h) = h
index_facts-Found (g ∷ facts) index id (inr h) =
    index_facts-Found facts _ id (inr (insert-Found g index id (inr h)))
index_facts-Found (g ∷ facts) index id (inl h) = elim (Bool-cases (id_of g == id)) [
  | inl same ↦ index_facts-Found facts _ id (inr (insert-Found g index id (inl same)))
  | inr other ↦ index_facts-Found facts _ id (inl (ground arith))
]

Among-append :
    (e : RelationshipEdge) (es fs : List RelationshipEdge)
    → Among e (es ++ fs)
    → Among e es ⊎ Among e fs
Among-append e [] fs h = inr h
Among-append e (f ∷ es) fs (inl h) = inl (inl h)
Among-append e (f ∷ es) fs (inr h) = elim (Among-append e es fs h) [
  | inl k ↦ inl (inr k)
  | inr k ↦ inr k
]

edge_id : (f : RelationshipEdge) (e : RelationshipEdge) → Among e (f ∷ []) → f.fact_id ≡ e.fact_id
edge_id f e (inl h) = ap (λ g. g.fact_id) (sym h)
edge_id f e (inr h) = absurd h

edges_of_id :
    (f : InvestigationFact) (e : RelationshipEdge) → Among e (edges_of f) → id_of f ≡ e.fact_id
unfolding edges_of
edges_of_id (InvestigationFact.changed_file base path type none) e h = absurd h
edges_of_id (InvestigationFact.deployment base name environment at revision) e h = absurd h
edges_of_id (InvestigationFact.stack_frame base path name line) e h = absurd h
edges_of_id (InvestigationFact.changed_file base path type (some n)) e h = edge_id _ e h
edges_of_id _ e h = edge_id _ e h

index_edges_known :
    (facts : List InvestigationFact) (e : RelationshipEdge)
    → Among e (index_edges facts)
    → any (λ f. id_of f == e.fact_id) facts ≡ true
unfolding index_edges
index_edges_known [] e h = absurd h
index_edges_known (f ∷ facts) e h = elim (Among-append e (edges_of f) (index_edges facts) h) [
  | inl k ↦ ground (arith, eq_iff (id_of f) e.fact_id, edges_of_id f e k)
  | inr k ↦ ground (arith, index_edges_known facts e k)
]

NamesFacts-build : (facts : List InvestigationFact) → NamesFacts (build_relationship_index facts)
unfolding build_relationship_index
NamesFacts-build facts e h =
    index_facts-Found facts [] e.fact_id (inl (index_edges_known facts e h))

-- In the index of any facts, the search for what connects two distinct entities returns, and is
-- right: either it returns, in order, facts with the identifiers of the edges of a path from the one
-- to the other, or it returns no facts and there is no path between them.
pub find-build-IsRight :
    (a b : EntityRef) (facts : List InvestigationFact)
    → a ≢ b
    → let index = build_relationship_index facts in
      IsRight a b index (find_connecting_facts a b index)
find-build-IsRight a b facts apart =
    find-IsRight a b (build_relationship_index facts) (NamesFacts-build facts) apart
