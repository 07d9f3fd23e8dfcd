-- ===== src/Generation.antt =====
-- src/generation: answers from evidence, validated again before they are returned.
pub mod Models
pub mod Renderer
pub mod Errors
pub mod Evidence
pub mod Sufficiency
pub mod Compaction
pub mod Projection
pub mod ProjectedValidation
pub mod Diagnostics
pub mod Service
pub mod Samples
mod Examples
pub mod Grounding
