-- ===== src/Shared.antt =====
-- src/shared: contracts and the legal ontology.
pub mod Ontology
