-- ===== src/Generation/Models/Composition.antt =====
-- src/generation/models.py: the operands that an answer composes.
use legal_graphrag_platform.Base.{String, List}

pub record AnswerCompositionOperand : Type 0 where
  pub operand_id : String
  pub query : String
  pub evidence_unit_ids : List String

-- `mode` has the one value "comparison".
pub record AnswerCompositionPlan : Type 0 where
  pub operands : List AnswerCompositionOperand
