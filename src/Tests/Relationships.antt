-- ===== src/Tests/Relationships.antt =====
-- investigations/relationship_index.py: an incident, the deployment before it, the commit that it
-- shipped, and the pull request of that commit.
use promptql.Prelude.{◌≡◌, ◌≢◌, refl, String, some, List, [], ◌∷◌, show_nat}
use promptql.Prelude.Dict.{lookup, insert}
use promptql.Investigations.Facts.{FactBase, FileChangeType, InvestigationFact}
use promptql.Investigations.Relationships.Index.{
  EntityType, EntityRef, build_relationship_index, index_edges, index_facts, edges_of, neighbors,
  neighbors_in, same_entity,
}
use promptql.Investigations.Relationships.Search.{
  Answer, find_connecting_facts, search_from, visit, visit_all, other_end, facts_of,
}
use promptql.Investigations.Relationships.Connectivity.{IsRight}
use promptql.Investigations.Relationships.Facts.{find-build-IsRight}

abbrev base : String → FactBase
base fact_id = record { fact_id = fact_id; evidence_reference_ids = "e1" ∷ [] }

abbrev before : InvestigationFact
before = InvestigationFact.deployment_preceded_incident (base "f1") "d7" "i3"

abbrev ships : InvestigationFact
ships = InvestigationFact.deployment_references_commit (base "f2") "d7" "abc"

abbrev merges : InvestigationFact
merges = InvestigationFact.commit_associated_with_pull_request (base "f3") "abc" 12

abbrev changes : InvestigationFact
changes = InvestigationFact.changed_file (base "f4") "app.py" FileChangeType.modified (some 12)

abbrev facts : List InvestigationFact
facts = changes ∷ before ∷ merges ∷ ships ∷ []

abbrev incident : EntityRef
incident = record { entity_type = EntityType.incident; entity_id = "i3" }

abbrev file : EntityRef
file = record { entity_type = EntityType.file; entity_id = "app.py" }

apart : incident ≢ file
apart h = cc

find-build-IsRight_example :
    let index = build_relationship_index facts in
    IsRight incident file index (find_connecting_facts incident file index)
find-build-IsRight_example = find-build-IsRight incident file facts apart

find_run :
    find_connecting_facts incident file (build_relationship_index facts)
    ≡ Answer.connected (before ∷ ships ∷ merges ∷ changes ∷ [])
unfolding find_connecting_facts search_from visit visit_all other_end facts_of neighbors
    neighbors_in build_relationship_index index_edges index_facts edges_of same_entity lookup insert
    show_nat
find_run = refl

find_none :
    find_connecting_facts incident file (build_relationship_index (changes ∷ before ∷ []))
    ≡ Answer.unconnected
unfolding find_connecting_facts search_from visit visit_all other_end facts_of neighbors
    neighbors_in build_relationship_index index_edges index_facts edges_of same_entity lookup insert
    show_nat
find_none = refl
