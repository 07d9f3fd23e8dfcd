-- ===== src/Retrieval.antt =====
-- src/retrieval: finding evidence for a question.
pub mod Models
pub mod PathIdentity
pub mod TemporalFilter
pub mod EvidenceVerifier
pub mod Fusion
pub mod GraphPaths
pub mod PathRows
pub mod Planning
pub mod Decision
pub mod ContextBuilder
pub mod Runtime
pub mod TemporalParser
pub mod Router
pub mod Examples
mod PlanExamples
pub mod RuntimeExamples
pub mod RouterExamples
