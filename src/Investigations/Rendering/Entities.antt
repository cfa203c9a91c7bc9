-- ===== src/Investigations/Rendering/Entities.antt =====
-- investigations/hypotheses/rendering.py: `_connected_fact_chain`, and that it raises nothing.
use promptql.Prelude.{
  ◌≡◌, ◌≢◌, refl, sym, inl, inr, String, Bool, true, false, ◌&&◌, Option, none, some, List, [], ◌∷◌,
  map, arith, Bool-cases, ◌==◌, if◌then◌else◌,
}
use promptql.Prelude.Codes.{text_leb}
use promptql.Investigations.Facts.{InvestigationFact, id_of}
use promptql.Investigations.Hypotheses.{ValidatedHypothesis}
use promptql.Investigations.Relationships.Index.{
  EntityType, RelationshipKind, EntityRef, RelationshipEdge, RelationshipIndex, same_entity_iff,
  build_relationship_index,
}
use promptql.Investigations.Relationships.Search.{Answer, member, find_connecting_facts}
use promptql.Investigations.Relationships.Connectivity.{IsRight}
use promptql.Investigations.Relationships.Facts.{find-build-IsRight}

-- `entity_type.value`
abbrev pub type_value : EntityType → String
type_value EntityType.deployment = "deployment"
type_value EntityType.incident = "incident"
type_value EntityType.commit = "commit"
type_value EntityType.pull_request = "pull_request"
type_value EntityType.file = "file"
type_value EntityType.failure_location = "failure_location"

-- `_HYPOTHESIS_RELEVANT_RELATIONSHIPS` for the one kind of hypothesis
abbrev pub is_relevant : RelationshipKind → Bool
is_relevant RelationshipKind.same_file_as_failure = true
is_relevant RelationshipKind.overlaps_failure_line = true
is_relevant _ = false

-- `set.add`
abbrev pub add_entity : EntityRef → List EntityRef → List EntityRef
add_entity x xs = if member x xs then xs else x ∷ xs

unfoldable pub touch_edges : String → List RelationshipEdge → List EntityRef → List EntityRef
touch_edges fact_id [] touched = touched
touch_edges fact_id (e ∷ edges) touched = touch_edges fact_id edges (
    if e.fact_id == fact_id && is_relevant e.relationship
    then add_entity e.to_entity (add_entity e.from_entity touched)
    else touched)

-- the set `touched_entities`
unfoldable pub touched_entities :
    List String → List RelationshipEdge → List EntityRef → List EntityRef
touched_entities [] edges touched = touched
touched_entities (id ∷ ids) edges touched =
    touched_entities ids edges (touch_edges id edges touched)

-- the order of the pairs of the type's value and the identifier
unfoldable pub comes_first : EntityRef → EntityRef → Bool
comes_first a b =
    if type_value a.entity_type == type_value b.entity_type
    then text_leb a.entity_id b.entity_id
    else text_leb (type_value a.entity_type) (type_value b.entity_type)

-- the first `none` where it raises, the second where the answer is `None`
abbrev pub chain_of : Answer → Option (Option (List String))
chain_of Answer.unconnected = some none
chain_of (Answer.connected []) = some none
chain_of (Answer.connected (fact ∷ facts)) = some (some (map id_of (fact ∷ facts)))
chain_of _ = none

abbrev pub chain_between : RelationshipIndex → List EntityRef → Option (Option (List String))
chain_between index (a ∷ b ∷ []) =
    chain_of
      (if comes_first a b then find_connecting_facts a b index else find_connecting_facts b a index)
chain_between index _ = some none

unfoldable pub connected_fact_chain :
    ValidatedHypothesis → RelationshipIndex → Option (Option (List String))
connected_fact_chain hypothesis index =
    chain_between index (touched_entities hypothesis.supporting_fact_ids index.edges [])

abbrev AreDistinct : List EntityRef → Type 0
AreDistinct [] = Unit
AreDistinct (x ∷ xs) = (member x xs ≡ false) × AreDistinct xs

AreDistinct-add_entity :
    (x : EntityRef) (xs : List EntityRef) → AreDistinct xs → AreDistinct (add_entity x xs)
AreDistinct-add_entity x xs h = elim (Bool-cases (member x xs)) [
  | inl e ↦ rw e h
  | inr e ↦ rw e (e, h)
]

AreDistinct-touch_edges :
    (id : String) (edges : List RelationshipEdge) (xs : List EntityRef)
    → AreDistinct xs
    → AreDistinct (touch_edges id edges xs)
unfolding touch_edges
AreDistinct-touch_edges id [] xs h = h
AreDistinct-touch_edges id (e ∷ edges) xs h =
    AreDistinct-touch_edges id edges _
      (elim (Bool-cases (e.fact_id == id && is_relevant e.relationship)) [
        | inl r ↦ rw r (
            AreDistinct-add_entity e.to_entity (add_entity e.from_entity xs)
              (AreDistinct-add_entity e.from_entity xs h))
        | inr r ↦ rw r h
      ])

AreDistinct-touched_entities :
    (ids : List String) (edges : List RelationshipEdge) (xs : List EntityRef)
    → AreDistinct xs
    → AreDistinct (touched_entities ids edges xs)
unfolding touched_entities
AreDistinct-touched_entities [] edges xs h = h
AreDistinct-touched_entities (id ∷ ids) edges xs h =
    AreDistinct-touched_entities ids edges (touch_edges id edges xs)
      (AreDistinct-touch_edges id edges xs h)

abbrev pub Returned : Option (Option (List String)) → Type 0
Returned chain = (c : Option (List String)) × (chain ≡ some c)

answered :
    (a b : EntityRef) (index : RelationshipIndex) (answer : Answer)
    → IsRight a b index answer
    → Returned (chain_of answer)
answered a b index Answer.unconnected h = (none, refl)
answered a b index (Answer.connected []) h = (none, refl)
answered a b index (Answer.connected (fact ∷ facts)) h = (_, refl)
answered a b index Answer.key_error (inl h) = cc
answered a b index Answer.key_error (inr h) = cc
answered a b index Answer.out_of_rounds (inl h) = cc
answered a b index Answer.out_of_rounds (inr h) = cc

between :
    (facts : List InvestigationFact) (touched : List EntityRef)
    → AreDistinct touched
    → Returned (chain_between (build_relationship_index facts) touched)
between facts [] h = (none, refl)
between facts (a ∷ []) h = (none, refl)
between facts (a ∷ b ∷ c ∷ touched) h = (none, refl)
between facts (a ∷ b ∷ []) h =
    let index = build_relationship_index facts in
    let apart : b ≢ a = λ e. ground (arith, same_entity_iff b a, h.0) in
    elim (Bool-cases (comes_first a b)) [
      | inl e ↦ rw e (answered a b index _ (find-build-IsRight a b facts (λ q. apart (sym q))))
      | inr e ↦ rw e (answered b a index _ (find-build-IsRight b a facts apart))
    ]

-- in the index of any facts, the chain of a hypothesis is found without an exception
pub connected_fact_chain-returns :
    (hypothesis : ValidatedHypothesis) (facts : List InvestigationFact)
    → Returned (connected_fact_chain hypothesis (build_relationship_index facts))
unfolding connected_fact_chain
connected_fact_chain-returns hypothesis facts =
    between facts _ (AreDistinct-touched_entities hypothesis.supporting_fact_ids _ [] tt)
