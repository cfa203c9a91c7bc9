-- ===== src/Investigations/Relationships/Connectivity.antt =====
-- investigations/relationship_index.py: `find_connecting_facts` decides whether two entities are
-- connected.
use promptql.Prelude.{
  ℕ, zero, suc, ◌+◌, ◌≤◌, ◌≡◌, ◌≢◌, refl, sym, ap, ap₂, true, false, some, List, [], ◌∷◌, ◌⊎◌, inl,
  inr, map, length, All, All-append, arith, Bool-cases, subst,
}
use promptql.Prelude.Dict.{text_key, lookup}
use promptql.Investigations.Facts.{InvestigationFact, id_of}
use promptql.Investigations.Relationships.Index.{
  EntityRef, RelationshipEdge, RelationshipIndex, same_entity, same_entity_iff, neighbors,
}
use promptql.Investigations.Relationships.Search.{
  Answer, Search, going, met, member, other_end, facts_of, cons_fact, answer_of, search_from,
  find_connecting_facts,
}
use promptql.Investigations.Relationships.Paths.{
  Joins, Among, Walk, other_end-Joins, touches-Joins, neighbors_in-Among, Among-neighbors,
  Among-all, All-Among, ends, unvisited,
}
use promptql.Investigations.Relationships.Visits.{
  Entry, queued, Extends, Visited, visit_all-Visited,
}

-- every edge names a fact of the index
abbrev pub NamesFacts : RelationshipIndex → Type 0
NamesFacts index =
    (e : RelationshipEdge)
    → Among e index.edges
    → (f : InvestigationFact) × (lookup e.fact_id index.facts_by_id ≡ some f)
      × (id_of f ≡ e.fact_id)

-- the answer is right: the facts of the edges of a path, or there is no path
abbrev pub IsRight : EntityRef → EntityRef → RelationshipIndex → Answer → Type 0
IsRight a b index answer =
    ((path : List RelationshipEdge) × (facts : List InvestigationFact) × (answer
        ≡ Answer.connected facts)
      × Walk index.edges a path b
      × (map id_of facts ≡ map (λ e. e.fact_id) path))
    ⊎ ((answer ≡ Answer.unconnected)
        × ((path : List RelationshipEdge) → Walk index.edges a path b → ⊥))

module _ (index : RelationshipIndex) (named : NamesFacts index) where
  facts_of_known :
      (path : List RelationshipEdge)
      → All (λ e. Among e index.edges) path
      → (facts : List InvestigationFact) × (facts_of index path ≡ some facts)
        × (map id_of facts ≡ map (λ e. e.fact_id) path)
  unfolding facts_of
  facts_of_known [] h = ([], refl, refl)
  facts_of_known (e ∷ path) h =
      let (f, found, same) = named e h.0 in
      let (fs, founds, sames) = facts_of_known path h.1 in
      (f ∷ fs, ap₂ cons_fact found founds, ap₂ (λ x xs. x ∷ xs) same sames)

  module _ (a b : EntityRef) where
    Walk-Among :
        {path : List RelationshipEdge} {x : EntityRef}
        → Walk index.edges a path x
        → All (λ e. Among e index.edges) path
    Walk-Among Walk.start = tt
    Walk-Among (Walk.step {path = path} e p m j) = All-append _ path _ (Walk-Among p) (m, tt)

    record Sound (v : List EntityRef) (q : List Entry) : Type 0 where
      from_a : member a v ≡ true
      not_b : member b v ≡ false
      paths : All (λ n. Walk index.edges a n.1 n.0) q
      closed :
          (x y : EntityRef) (e : RelationshipEdge)
          → member x v ≡ true
          → Among e index.edges
          → Joins e x y
          → (queued x q ≡ true) ⊎ (member y v ≡ true)

    -- with an empty queue, what was visited is closed under the relationships
    reached :
        (v : List EntityRef)
        → Sound v []
        → {path : List RelationshipEdge} {x : EntityRef} → Walk index.edges a path x
        → member x v ≡ true
    reached v s Walk.start = s.from_a
    reached v s (Walk.step {x = x} {y = y} e p m j) = elim (s.closed x y e (reached v s p) m j) [
      | inl h ↦ cc
      | inr h ↦ h
    ]

    met-IsRight :
        (path : List RelationshipEdge)
        → Walk index.edges a path b
        → IsRight a b index (answer_of (facts_of index path))
    met-IsRight path p =
        let (facts, found, same) = facts_of_known path (Walk-Among p) in
        inl (path, facts, ap answer_of found, p, same)

    Sound-next :
        (current : EntityRef) (path : List RelationshipEdge) (v v' : List EntityRef)
        (q q' : List Entry)
        → Sound v ((current, path) ∷ q)
        → Extends index.edges a b v q v' q'
        → All (λ e. member (other_end e current) v' ≡ true) (neighbors index current)
        → Sound v' q'
    unfolding neighbors
    Sound-next current path v v' q q' s x ks = record {
      from_a = x.keeps a s.from_a;
      not_b = x.avoids s.not_b;
      paths = x.paths s.paths.1;
      closed = λ z y e h m j. elim (x.fresh z h) [
        | inr k ↦ inl k
        | inl k ↦ elim (s.closed z y e k m j) [
          | inr r ↦ inr (x.keeps y r)
          | inl r ↦ elim (Bool-cases (same_entity current z)) [
            | inr other ↦ inl (x.stays z (ground arith))
            | inl same ↦
                let here : Joins e current y =
                  subst (λ w. Joins e w y) (sym ((same_entity_iff current z).0 same)) j in
                inr (
                  subst (λ w. member w v' ≡ true) (other_end-Joins e current y here)
                    (All-Among _ _ e ks
                      (Among-neighbors index.edges current e m (touches-Joins e current y here))))
          ]
        ]
      ];
    }

    search_from-IsRight :
        (rounds : ℕ) (v : List EntityRef) (q : List Entry)
        → Sound v q
        → length q + unvisited v (ends index.edges) ≤ rounds
        → IsRight a b index (search_from rounds b index (going v q))
    unfolding search_from neighbors
    search_from-IsRight rounds v [] s h =
        inr (refl, λ path p. absurd (never (reached v s p) s.not_b))
      where
        never : member b v ≡ true → member b v ≡ false → ⊥
        never h k = cc
    search_from-IsRight zero v (entry ∷ q) s h = absurd (omega arith)
    search_from-IsRight (suc rounds) v ((current, path) ∷ q) s h =
        go _
          (visit_all-Visited index.edges a b current path s.paths.0 (neighbors index current) v q
            (neighbors_in-Among index.edges index.edges current (Among-all index.edges)))
          (λ v' q' s' h'. search_from-IsRight rounds v' q' s' h')
      where
        go :
            (found : Search)
            → Visited index.edges a b current path s.paths.0 v q (neighbors index current) found
            → ((v' : List EntityRef) (q' : List Entry)
                → Sound v' q'
                → length q' + unvisited v' (ends index.edges) ≤ rounds
                → IsRight a b index (search_from rounds b index (going v' q')))
            → IsRight a b index (search_from rounds b index found)
        go (met p) x f = met-IsRight p x
        go (going v' q') (x, ks) f =
            f v' q' (Sound-next current path v v' q q' s x ks) (omega (arith, x.smaller))

unvisited_bound :
    (v : List EntityRef) (edges : List RelationshipEdge)
    → unvisited v (ends edges) ≤ length edges + length edges
unvisited_bound v [] = omega arith
unvisited_bound v (e ∷ edges) = ground (arith, unvisited_bound v edges)

-- Where every edge names a fact of the index, the search of two distinct entities ends with the right
-- answer: the facts of the edges of a path between them, or no answer because there is no path.
pub find-IsRight :
    (a b : EntityRef) (index : RelationshipIndex)
    → NamesFacts index
    → a ≢ b
    → IsRight a b index (find_connecting_facts a b index)
unfolding find_connecting_facts
find-IsRight a b index named apart = elim (Bool-cases (same_entity a b)) [
  | inl same ↦ absurd (apart ((same_entity_iff a b).0 same))
  | inr other ↦ rw other (
      search_from-IsRight index named a b _ (a ∷ []) ((a, []) ∷ [])
        (record {
          from_a = ground (arith, same_entity_iff a a);
          not_b = ground arith;
          paths = (Walk.start, tt);
          closed = λ x y e h m j. inl (ground arith);
        })
        (omega (arith, unvisited_bound (a ∷ []) index.edges)))
]
