-- ===== src/Investigations/Relationships/Search.antt =====
-- investigations/relationship_index.py: `find_connecting_facts`.
use promptql.Prelude.{
  ℕ, zero, suc, ◌+◌, Bool, Option, none, some, List, [], ◌∷◌, ◌++◌, any, length, if◌then◌else◌,
}
use promptql.Prelude.Dict.{text_key, lookup}
use promptql.Investigations.Facts.{InvestigationFact}
use promptql.Investigations.Relationships.Index.{
  EntityRef, RelationshipEdge, RelationshipIndex, same_entity, neighbors,
}

-- `None`, the facts, `KeyError`; `out_of_rounds` is that of a loop whose rounds were too few
pub data Answer : Type 0 where
  unconnected key_error out_of_rounds : Answer
  connected : List InvestigationFact → Answer

-- the loop goes on with the set `visited` and the queue, or has met `entity_b` on a path
pub data Search : Type 0 where
  going : List EntityRef → List (EntityRef × List RelationshipEdge) → Search
  met : List RelationshipEdge → Search

abbrev pub member : EntityRef → List EntityRef → Bool
member x xs = any (λ y. same_entity y x) xs

unfoldable pub other_end : RelationshipEdge → EntityRef → EntityRef
other_end e current = if same_entity e.from_entity current then e.to_entity else e.from_entity

-- the body of the inner loop
unfoldable pub visit :
    EntityRef → EntityRef → List RelationshipEdge → RelationshipEdge → Search → Search
visit entity_b current path e (met found) = met found
visit entity_b current path e (going visited queue) =
    if member (other_end e current) visited
    then going visited queue
    else (if same_entity (other_end e current) entity_b
        then met (path ++ e ∷ [])
        else going (other_end e current ∷ visited)
            (queue ++ (other_end e current, path ++ e ∷ []) ∷ []))

unfoldable pub visit_all :
    EntityRef → EntityRef → List RelationshipEdge → List RelationshipEdge → Search → Search
visit_all entity_b current path [] search = search
visit_all entity_b current path (e ∷ es) search =
    visit_all entity_b current path es (visit entity_b current path e search)

abbrev pub cons_fact :
    Option InvestigationFact → Option (List InvestigationFact) → Option (List InvestigationFact)
cons_fact (some f) (some fs) = some (f ∷ fs)
cons_fact _ _ = none

-- `tuple(index.facts_by_id[step.fact_id] for step in path)`
unfoldable pub facts_of :
    RelationshipIndex → List RelationshipEdge → Option (List InvestigationFact)
facts_of index [] = some []
facts_of index (e ∷ path) = cons_fact (lookup e.fact_id index.facts_by_id) (facts_of index path)

abbrev pub answer_of : Option (List InvestigationFact) → Answer
answer_of none = Answer.key_error
answer_of (some facts) = Answer.connected facts

-- the outer loop, one round for each entry that leaves the queue
unfoldable pub search_from : ℕ → EntityRef → RelationshipIndex → Search → Answer
search_from rounds entity_b index (met path) = answer_of (facts_of index path)
search_from rounds entity_b index (going visited []) = Answer.unconnected
search_from zero entity_b index (going visited (entry ∷ queue)) = Answer.out_of_rounds
search_from (suc rounds) entity_b index (going visited ((current, path) ∷ queue)) =
    search_from rounds entity_b index
      (visit_all entity_b current path (neighbors index current) (going visited queue))

-- `entity_a` and the two ends of every edge enter the queue at most once
unfoldable pub find_connecting_facts : EntityRef → EntityRef → RelationshipIndex → Answer
find_connecting_facts entity_a entity_b index =
    if same_entity entity_a entity_b
    then Answer.connected []
    else search_from (1 + (length index.edges + length index.edges)) entity_b index
        (going (entity_a ∷ []) ((entity_a, []) ∷ []))
