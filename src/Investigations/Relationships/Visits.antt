-- ===== src/Investigations/Relationships/Visits.antt =====
-- investigations/relationship_index.py: what the inner loop of `find_connecting_facts` does.
use promptql.Prelude.{
  ◌+◌, ◌≤◌, ◌≡◌, refl, ap, Bool, true, false, ◌||◌, List, [], ◌∷◌, ◌++◌, ◌⊎◌, inl, inr, any, length,
  length-append, All, All-append, arith, Bool-cases, subst,
}
use promptql.Investigations.Relationships.Index.{
  EntityRef, RelationshipEdge, same_entity, same_entity_iff, touches,
}
use promptql.Investigations.Relationships.Search.{
  Search, going, met, member, other_end, visit, visit_all,
}
use promptql.Investigations.Relationships.Paths.{
  Among, Walk, Joins-other_end, ends, unvisited, unvisited-new,
}

abbrev pub Entry : Type 0
Entry = EntityRef × List RelationshipEdge

abbrev pub queued : EntityRef → List Entry → Bool
queued x queue = any (λ n. same_entity n.0 x) queue

pub queued-append :
    (x : EntityRef) (q r : List Entry) → queued x (q ++ r) ≡ (queued x q || queued x r)
queued-append x [] r = refl
queued-append x (n ∷ q) r = ground (arith, queued-append x q r)

ends-member :
    (edges : List RelationshipEdge) (e : RelationshipEdge)
    → Among e edges
    → (member e.from_entity (ends edges) ≡ true) × (member e.to_entity (ends edges) ≡ true)
ends-member [] e h = absurd h
ends-member (f ∷ edges) e (inl same) = ground (
  arith,
  same_entity_iff f.from_entity e.from_entity,
  same_entity_iff f.to_entity e.to_entity,
  ap (λ g. g.from_entity) same,
  ap (λ g. g.to_entity) same,
)
ends-member (f ∷ edges) e (inr more) = let (p, q) = ends-member edges e more in ground arith

module _ (edges : List RelationshipEdge) (a b : EntityRef) where
  -- how the search has grown
  pub record Extends (v : List EntityRef) (q : List Entry) (v' : List EntityRef) (q' : List Entry)
      : Type 0 where
    pub keeps : (x : EntityRef) → member x v ≡ true → member x v' ≡ true
    pub fresh : (x : EntityRef) → member x v' ≡ true → (member x v ≡ true) ⊎ (queued x q' ≡ true)
    pub stays : (x : EntityRef) → queued x q ≡ true → queued x q' ≡ true
    pub avoids : member b v ≡ false → member b v' ≡ false
    pub smaller : length q' + unvisited v' (ends edges) ≤ length q + unvisited v (ends edges)
    pub paths : All (λ n. Walk edges a n.1 n.0) q → All (λ n. Walk edges a n.1 n.0) q'

  Extends-refl : (v : List EntityRef) (q : List Entry) → Extends v q v q
  Extends-refl v q = record {
    keeps = λ x h. h;
    fresh = λ x h. inl h;
    stays = λ x h. h;
    avoids = λ h. h;
    smaller = omega arith;
    paths = λ h. h;
  }

  Extends-trans :
      (v v' v'' : List EntityRef) (q q' q'' : List Entry)
      → Extends v q v' q'
      → Extends v' q' v'' q''
      → Extends v q v'' q''
  Extends-trans v v' v'' q q' q'' f g = record {
    keeps = λ x h. g.keeps x (f.keeps x h);
    fresh = λ x h. elim (g.fresh x h) [
      | inl h' ↦ elim (f.fresh x h') [ inl k ↦ inl k | inr k ↦ inr (g.stays x k) ]
      | inr h' ↦ inr h'
    ];
    stays = λ x h. g.stays x (f.stays x h);
    avoids = λ h. g.avoids (f.avoids h);
    smaller = omega (arith, f.smaller, g.smaller);
    paths = λ h. g.paths (f.paths h);
  }

  module _ (current : EntityRef) (path : List RelationshipEdge)
      (p : Walk edges a path current) where
    -- after a look at some edges of `current`
    abbrev pub Visited : List EntityRef → List Entry → List RelationshipEdge → Search → Type 0
    Visited v q es (met found) = Walk edges a found b
    Visited v q es (going v' q') =
        Extends v q v' q' × All (λ e. member (other_end e current) v' ≡ true) es

    module _ (v : List EntityRef) (q : List Entry) (e : RelationshipEdge) (m : Among e edges)
        (t : touches current e ≡ true) where
      longer : Walk edges a (path ++ e ∷ []) (other_end e current)
      longer = Walk.step e p m (Joins-other_end e current t)

      end_known : member (other_end e current) (ends edges) ≡ true
      unfolding other_end
      end_known =
          let (f, g) = ends-member edges e m in
          elim (Bool-cases (same_entity e.from_entity current)) [ inl h ↦ rw h g | inr h ↦ rw h f ]

      Extends-new :
          member (other_end e current) v ≡ false
          → same_entity (other_end e current) b ≡ false
          → Extends v q (other_end e current ∷ v) (q ++ (other_end e current, path ++ e ∷ []) ∷ [])
      Extends-new new apart =
          let n = other_end e current in
          record {
            keeps = λ x h. ground arith;
            fresh = λ x h. elim (Bool-cases (same_entity n x)) [
              | inl s ↦ inr (rw (queued-append x q ((n, path ++ e ∷ []) ∷ [])) (ground arith))
              | inr s ↦ inl (ground arith)
            ];
            stays = λ x h. rw (queued-append x q ((n, path ++ e ∷ []) ∷ [])) (ground arith);
            avoids = λ h. ground arith;
            smaller = omega (
              arith,
              length-append q ((n, path ++ e ∷ []) ∷ []),
              unvisited-new n v (ends edges) end_known new,
            );
            paths = λ h. All-append _ q _ h (longer, tt);
          }

      visit-Visited : Visited v q (e ∷ []) (visit b current path e (going v q))
      unfolding visit
      visit-Visited = elim (Bool-cases (member (other_end e current) v)) [
        | inl old ↦ rw old (Extends-refl v q, (old, tt))
        | inr new ↦ rw new (elim (Bool-cases (same_entity (other_end e current) b)) [
          | inl there ↦ rw there (
              subst (Walk edges a (path ++ e ∷ []))
                ((same_entity_iff (other_end e current) b).0 there) longer)
          | inr apart ↦ rw apart (
            Extends-new new apart,
            (ground (arith, same_entity_iff (other_end e current) (other_end e current)), tt),
          )
        ])
      ]

    visit_all-met :
        (es found : List RelationshipEdge) → visit_all b current path es (met found) ≡ met found
    unfolding visit_all visit
    visit_all-met [] found = refl
    visit_all-met (e ∷ es) found = visit_all-met es found

    Visited-then :
        (v v' : List EntityRef) (q q' : List Entry) (e : RelationshipEdge)
        (es : List RelationshipEdge) (s : Search)
        → Extends v q v' q'
        → member (other_end e current) v' ≡ true
        → Visited v' q' es s
        → Visited v q (e ∷ es) s
    Visited-then v v' q q' e es (met found) x k h = h
    Visited-then v v' q q' e es (going v'' q'') x k (x', ks) =
        (Extends-trans v v' v'' q q' q'' x x', (x'.keeps (other_end e current) k, ks))

    -- the inner loop over some edges of `current`
    pub visit_all-Visited :
        (es : List RelationshipEdge) (v : List EntityRef) (q : List Entry)
        → All (λ e. Among e edges × (touches current e ≡ true)) es
        → Visited v q es (visit_all b current path es (going v q))
    unfolding visit_all
    visit_all-Visited [] v q h = (Extends-refl v q, tt)
    visit_all-Visited (e ∷ es) v q h =
        go (visit b current path e (going v q)) (visit-Visited v q e h.0.0 h.0.1)
          (λ v' q'. visit_all-Visited es v' q' h.1)
      where
        go :
            (s : Search)
            → Visited v q (e ∷ []) s
            → ((v' : List EntityRef) (q' : List Entry)
                → Visited v' q' es (visit_all b current path es (going v' q')))
            → Visited v q (e ∷ es) (visit_all b current path es s)
        go (met found) x f = rw (visit_all-met es found) x
        go (going v' q') x f = Visited-then v v' q q' e es _ x.0 x.1.0 (f v' q')
