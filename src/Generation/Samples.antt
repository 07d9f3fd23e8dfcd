-- ===== src/Generation/Samples.antt =====
-- Sample data: one article of a law, a copy of it, and a question about it.
pub mod Grounding
use legal_graphrag_platform.Generation.Evidence.{EvidenceCandidate}
use legal_graphrag_platform.Base.{
  String, true, false, none, some, List, [], ◌∷◌, if◌then◌else◌, eqb,
}
use legal_graphrag_platform.Base.Result.{ok}
use legal_graphrag_platform.Base.Float.{float_zero}
use legal_graphrag_platform.Retrieval.Models.{
  IntentType, RetrievalStrategyType, TemporalSource, RetrievalDecisionReasonCode, UnitLabel,
  RetrievedUnit, GraphEdge, EvidenceItem, EvidenceType,
}
use legal_graphrag_platform.Retrieval.Models.Context.{
  CapabilityStatus, RetrievalMode, RetrievalContext, Detail, Metric,
}
use legal_graphrag_platform.Generation.Models.{
  AnswerResponse, AnswerCitation, AnswerGenerationRequest,
}
use legal_graphrag_platform.Generation.Models.Projected.{
  EvidenceRegistry, LegalEvidenceBlock, ProjectedAnswerContext,
}
use legal_graphrag_platform.Generation.Models.Candidate.{
  AnswerCandidate, AssertionScope, GroundedStatement, TemporalAssertion,
}
use legal_graphrag_platform.Generation.Projection.{GenerationConfig}
use legal_graphrag_platform.Generation.Projection.Payload.{to_evidence}
use legal_graphrag_platform.Generation.Service.State.{Provider}

abbrev pub unchanged : String → String
unchanged s = s

abbrev pub one_hash : String → String
one_hash s = "0123456789abcdef0123"

abbrev pub sample_unit : String → RetrievedUnit
sample_unit id = record {
  id = id;
  label = UnitLabel.article;
  content_raw = " Capital is paid in 90 days. ";
  title = none;
  document_id = "L1";
  document_number = none;
  document_title = none;
  source_url = none;
  article_id = some id;
  clause_id = none;
  article_number = none;
  clause_number = none;
  appendix_number = none;
  version_family_id = none;
  effective_from = some 737000;
  effective_to = none;
  legal_status = none;
  vector_score = none;
  bm25_score = none;
  graph_score = none;
  rerank_score = none;
  final_score = none;
  citation_label = "Article 1";
  deep_link = "law/1";
  retrieval_sources = [];
}

abbrev pub sample_item : String → EvidenceItem
sample_item id = record {
  unit_id = id;
  evidence_type = EvidenceType.vector;
  matched_text = none;
  score = none;
  source_path_id = none;
  is_eligible = true;
}

abbrev pub sample_context : RetrievalContext
sample_context = record {
  contract_version = "v1";
  query = "When is capital paid?";
  intent = IntentType.factual;
  strategy = RetrievalStrategyType.factual_hybrid;
  temporal = record {
    has_temporal = false;
    expression = none;
    resolved_from = none;
    resolved_to = none;
    granularity = none;
    parse_error = none;
    requests_current_validity = false;
    spans_all_versions = false;
  };
  temporal_source = TemporalSource.none_source;
  decision_reason_code = RetrievalDecisionReasonCode.factual_default;
  decision_reason = "";
  force_intent_used = false;
  executed_channels = [];
  filters_applied = record {
    document_ids = [];
    doc_types = [];
    legal_statuses = [];
    query_date = none;
  };
  reranker_applied = false;
  capability_status = CapabilityStatus.supported;
  reasoning_requirement = none;
  plan_execution = none;
  retrieved_units = sample_unit "A1" ∷ sample_unit "A2" ∷ [];
  graph_paths = [];
  evidence = sample_item "A1" ∷ sample_item "A2" ∷ [];
  metrics = ("channels", Metric.plain (Detail.count 2)) ∷ [];
  retrieval_mode = RetrievalMode.hybrid;
  confidence_penalty = false;
  resolved_references = [];
  relation_goal = none;
}

abbrev pub sample_request : AnswerGenerationRequest
sample_request = record {
  query = "When is capital paid?";
  retrieval_context = sample_context;
  conversation_history = [];
  composition_plan = none;
}

abbrev pub sample_config : GenerationConfig
sample_config = record {
  context_max_chars = 3000;
  context_safety_reserve_chars = 200;
  history_max_messages = 6;
  history_max_chars = 4000;
}

abbrev pub sample_statement : String → List String → List String → GroundedStatement
sample_statement quote paths assertions = record {
  statement_id = "s1";
  text = "Within 90 days.";
  citations = record { citation_id = "A1"; quoted_text = quote } ∷ [];
  reasoning_path_ids = paths;
  temporal_assertion_ids = assertions;
}

abbrev pub sample_answer : GroundedStatement → List TemporalAssertion → AnswerCandidate
sample_answer statement assertions = record {
  direct_answer = some (record { paragraphs = record { statements = statement ∷ [] } ∷ [] });
  sections = [];
  caveats = [];
  temporal_assertions = assertions;
  confidence = float_zero;
  cannot_answer = false;
  insufficiency_reason = none;
}

-- The first reply misquotes the article, the second quotes it.
abbrev pub sample_provider : Provider
sample_provider = record {
  provider_name = "provider";
  model_name = "model";
  generate_structured = λ n prompt.
      if eqb n 0
      then ok (sample_answer (sample_statement "paid in 30 days" [] []) [])
      else ok (sample_answer (sample_statement "paid in  90 days" [] []) []);
}

abbrev pub sample_citation : String → AnswerCitation
sample_citation quote = record {
  unit_id = "A1";
  citation_label = "Article 1";
  document_id = "L1";
  article_id = some "A1";
  clause_id = none;
  deep_link = "law/1";
  quoted_text = some quote;
}

-- The response of `sample_provider` to `sample_request`.
abbrev pub sample_response : AnswerResponse
sample_response = record {
  retrieval_contract_version = "v1";
  query = "When is capital paid?";
  answer_text = "Within 90 days. [1]";
  direct_answer = some (record {
    paragraphs = record { statements = sample_statement "paid in  90 days" [] [] ∷ [] } ∷ [];
  });
  sections = [];
  caveats = [];
  citations = sample_citation "paid in  90 days" ∷ [];
  reasoning_paths = [];
  temporal_notes = [];
  cannot_answer = false;
  insufficiency_reason = none;
  confidence = float_zero;
  provider = some "provider";
  model = some "model";
  intent = "factual";
  strategy = "factual_hybrid";
}

abbrev pub sample_candidates : List EvidenceCandidate
sample_candidates =
    record { unit = sample_unit "A1"; rank = 0; is_eligible = true }
    ∷ record { unit = sample_unit "A2"; rank = 1; is_eligible = true }
    ∷ []
