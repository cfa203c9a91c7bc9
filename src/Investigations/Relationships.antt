-- ===== src/Investigations/Relationships.antt =====
-- investigations/relationship_index.py: the index of relationships between the entities that facts
-- name, and the breadth-first search for the facts that connect two of them.
pub mod Index
pub mod Search
pub mod Paths
pub mod Visits
pub mod Connectivity
pub mod Facts
