-- ===== src/Generation/Models.antt =====
-- src/generation/models.py: the request and the response, with the validators that pydantic runs
-- when a value is built. The candidate and the projected context are in the child modules.
pub mod Composition
pub mod Projected
pub mod Candidate
use legal_graphrag_platform.Base.{
  ℕ, String, Bool, true, false, not, ◌||◌, Option, none, some, List, [], ◌∷◌, ◌++◌, map,
  if◌then◌else◌, is_some, is_none, is_empty, flat_map, subset, unique, any, ◌==◌,
}
use legal_graphrag_platform.Base.Result.{Result, ok, value_error, fail_if, ◌>>◌}
use legal_graphrag_platform.Base.Lists.{same_list}
use legal_graphrag_platform.Base.Float.{Float}
use legal_graphrag_platform.Base.Date.{Date}
use legal_graphrag_platform.Retrieval.Models.{RetrievedUnit, UnitLabel, GraphEdge}
use legal_graphrag_platform.Retrieval.Models.Context.{RetrievalContext}
use legal_graphrag_platform.Generation.Models.Candidate.{
  StatementCitation, GroundedStatement, AnswerParagraph, AnswerBlock, AnswerSection, AssertionScope,
  TemporalAssertion, AnswerCandidate, paragraph_statements, direct_paragraphs,
  iter_candidate_statements, no_text, validate_answer_shape,
}
use legal_graphrag_platform.Generation.Models.Projected.{
  OmissionReason, is_budget_omission, omission_value, OmittedEvidence, ContextBudgetPlan,
  LegalEvidenceBlock, ProjectedPathBlock, EvidenceRegistry, validate_registry,
  ProjectedAnswerContext, check_operands, check_composition, same_flag, validate_projection,
  ProviderAnswerRequest,
}
use legal_graphrag_platform.Generation.Models.Composition.{
  AnswerCompositionOperand, AnswerCompositionPlan,
}

abbrev pub answer_contract_version : String
answer_contract_version = "answer-generation-v2"

pub data HistoryRole : Type 0 where
  user assistant : HistoryRole

pub record GenerationHistoryMessage : Type 0 where
  pub role : HistoryRole
  pub content : String

-- `contract_version` and `language` have one value each.
pub record AnswerGenerationRequest : Type 0 where
  pub query : String
  pub retrieval_context : RetrievalContext
  pub conversation_history : List GenerationHistoryMessage
  pub composition_plan : Option AnswerCompositionPlan

-- `{unit_id for operand in plan.operands for unit_id in operand.evidence_unit_ids}`
unfoldable pub assigned_ids : AnswerCompositionPlan → List String
assigned_ids plan = flat_map (λ o. o.evidence_unit_ids) plan.operands

has_foreign_ids : List RetrievedUnit → Option AnswerCompositionPlan → Bool
unfolding assigned_ids
has_foreign_ids units none = false
has_foreign_ids units (some plan) = not (subset (assigned_ids plan) (map (λ u. u.id) units))

-- `validate_query_matches_retrieval`
unfoldable pub validate_request : AnswerGenerationRequest → Result AnswerGenerationRequest
unfolding has_foreign_ids
validate_request request = do
  let context = request.retrieval_context
  fail_if (not (request.query == context.query)) value_error
      "Generation query must match retrieval context query"
  fail_if (has_foreign_ids context.retrieved_units request.composition_plan) value_error
      "Composition evidence IDs must exist in retrieval context"
  ok request

pub record AnswerCitation : Type 0 where
  pub unit_id : String
  pub citation_label : String
  pub document_id : String
  pub article_id : Option String
  pub clause_id : Option String
  pub deep_link : String
  pub quoted_text : Option String

pub record AnswerReasoningPath : Type 0 where
  pub path_id : String
  pub nodes : List String
  pub edges : List GraphEdge
  pub description : String

pub record AnswerResponse : Type 0 where
  pub retrieval_contract_version : String
  pub query : String
  pub answer_text : String
  pub direct_answer : Option AnswerBlock
  pub sections : List AnswerSection
  pub caveats : List AnswerParagraph
  pub citations : List AnswerCitation
  pub reasoning_paths : List AnswerReasoningPath
  pub temporal_notes : List String
  pub cannot_answer : Bool
  pub insufficiency_reason : Option String
  pub confidence : Float
  pub provider : Option String
  pub model : Option String
  pub intent : String
  pub strategy : String
