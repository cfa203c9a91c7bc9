-- ===== src/Investigations/Relationships/Index.antt =====
-- investigations/relationship_index.py: `build_relationship_index` and `RelationshipIndex`.
use promptql.Prelude.{
  ℕ, ◌≡◌, ◌↔◌, String, ◌<>◌, Bool, true, ◌&&◌, ◌||◌, none, some, List, [], ◌∷◌, ◌++◌, arith, nat_eq,
  show_nat, ◌==◌, eq_iff, if◌then◌else◌,
}
use promptql.Prelude.Dict.{Dict, text_key, insert}
use promptql.Investigations.Facts.{InvestigationFact, FactBase, id_of}

pub data EntityType : Type 0 where
  deployment incident commit pull_request file failure_location : EntityType

pub data RelationshipKind : Type 0 where
  temporal_precedence ships_commit associated_with_pr : RelationshipKind
  changed_in_pull_request same_file_as_failure overlaps_failure_line : RelationshipKind

pub record EntityRef : Type 0 where
  pub entity_type : EntityType
  pub entity_id : String

pub record RelationshipEdge : Type 0 where
  pub from_entity : EntityRef
  pub to_entity : EntityRef
  pub relationship : RelationshipKind
  pub fact_id : String

pub record RelationshipIndex : Type 0 where
  pub edges : List RelationshipEdge
  pub facts_by_id : Dict String InvestigationFact

-- the members of an enumeration are compared by their place in it
abbrev place : EntityType → ℕ
place EntityType.deployment = 0
place EntityType.incident = 1
place EntityType.commit = 2
place EntityType.pull_request = 3
place EntityType.file = 4
place EntityType.failure_location = 5

same_place : (a b : EntityType) → place a ≡ place b → a ≡ b
same_place EntityType.deployment b h = ground arith
same_place EntityType.incident b h = ground arith
same_place EntityType.commit b h = ground arith
same_place EntityType.pull_request b h = ground arith
same_place EntityType.file b h = ground arith
same_place EntityType.failure_location b h = ground arith

-- `==` of the frozen dataclass
unfoldable pub same_entity : EntityRef → EntityRef → Bool
same_entity a b = nat_eq (place a.entity_type) (place b.entity_type) && a.entity_id == b.entity_id

pub same_entity_iff : (a b : EntityRef) → (same_entity a b ≡ true) ↔ (a ≡ b)
unfolding same_entity
same_entity_iff a b =
    ground (arith, eq_iff a.entity_id b.entity_id, same_place a.entity_type b.entity_type)

abbrev ref : EntityType → String → EntityRef
ref entity_type entity_id = record { entity_type = entity_type; entity_id = entity_id }

abbrev edge : EntityRef → EntityRef → RelationshipKind → FactBase → List RelationshipEdge
edge from_entity to_entity relationship base =
    (record {
      from_entity = from_entity;
      to_entity = to_entity;
      relationship = relationship;
      fact_id = base.fact_id;
    })
    ∷ []

-- what the loop appends for a fact
unfoldable pub edges_of : InvestigationFact → List RelationshipEdge
edges_of (InvestigationFact.deployment_preceded_incident base reference incident_reference) =
    edge (ref EntityType.deployment reference) (ref EntityType.incident incident_reference)
      RelationshipKind.temporal_precedence base
edges_of (InvestigationFact.deployment_references_commit base reference sha) =
    edge (ref EntityType.deployment reference) (ref EntityType.commit sha)
      RelationshipKind.ships_commit base
edges_of (InvestigationFact.commit_associated_with_pull_request base sha number) =
    edge (ref EntityType.commit sha) (ref EntityType.pull_request (show_nat number))
      RelationshipKind.associated_with_pr base
edges_of (InvestigationFact.changed_file base path change_type none) = []
edges_of (InvestigationFact.changed_file base path change_type (some number)) =
    edge (ref EntityType.file path) (ref EntityType.pull_request (show_nat number))
      RelationshipKind.changed_in_pull_request base
edges_of (InvestigationFact.changed_file_matches_failure_file base path) =
    edge (ref EntityType.file path) (ref EntityType.failure_location path)
      RelationshipKind.same_file_as_failure base
edges_of (InvestigationFact.changed_hunk_overlaps_failure_line base path line) =
    edge (ref EntityType.file path) (ref EntityType.failure_location (path <> ":" <> show_nat line))
      RelationshipKind.overlaps_failure_line base
edges_of _ = []

unfoldable pub index_edges : List InvestigationFact → List RelationshipEdge
index_edges [] = []
index_edges (fact ∷ facts) = edges_of fact ++ index_edges facts

-- `{fact.fact_id: fact for fact in facts}`
unfoldable pub index_facts :
    Dict String InvestigationFact → List InvestigationFact → Dict String InvestigationFact
index_facts index [] = index
index_facts index (fact ∷ facts) = index_facts (insert (id_of fact) fact index) facts

unfoldable pub build_relationship_index : List InvestigationFact → RelationshipIndex
build_relationship_index facts = record {
  edges = index_edges facts;
  facts_by_id = index_facts [] facts;
}

abbrev pub touches : EntityRef → RelationshipEdge → Bool
touches entity e = same_entity entity e.from_entity || same_entity entity e.to_entity

unfoldable pub neighbors_in : List RelationshipEdge → EntityRef → List RelationshipEdge
neighbors_in [] entity = []
neighbors_in (e ∷ edges) entity =
    let rest = neighbors_in edges entity in if touches entity e then e ∷ rest else rest

unfoldable pub neighbors : RelationshipIndex → EntityRef → List RelationshipEdge
neighbors index entity = neighbors_in index.edges entity
