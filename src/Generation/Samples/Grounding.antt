-- ===== src/Generation/Samples/Grounding.antt =====
-- Sample data on grounding: a candidate with a path and a temporal assertion.
use legal_graphrag_platform.Generation.Samples.{
  sample_statement, sample_unit, sample_citation, sample_answer,
}
use legal_graphrag_platform.Base.{true, false, none, some, [], ◌∷◌}
use legal_graphrag_platform.Base.Float.{float_zero}
use legal_graphrag_platform.Retrieval.Models.{GraphEdge}
use legal_graphrag_platform.Generation.Models.{AnswerResponse}
use legal_graphrag_platform.Generation.Models.Projected.{
  EvidenceRegistry, LegalEvidenceBlock, ProjectedAnswerContext,
}
use legal_graphrag_platform.Generation.Models.Candidate.{
  AnswerCandidate, AssertionScope, TemporalAssertion,
}
use legal_graphrag_platform.Generation.Projection.Payload.{to_evidence}

abbrev pub sample_edge : GraphEdge
sample_edge = record {
  relation_id = "r1";
  relation_type = "REFERS_TO";
  source_id = "A1";
  target_id = "A2";
  effective_from = none;
  effective_to = none;
  citation_evidence = [];
}

abbrev pub sample_block : LegalEvidenceBlock
sample_block = to_evidence (sample_unit "A1")

-- A context with a relation goal and a query date.
abbrev pub sample_projected : ProjectedAnswerContext
sample_projected = record {
  query = "When is capital paid?";
  intent = "validity";
  strategy = "validity_temporal";
  temporal_source = "request";
  resolved_from = some 738000;
  resolved_to = some 738000;
  relation_goal = some "REFERS_TO";
  anchor_node_ids = "A1" ∷ [];
  composition_plan = none;
  evidence = sample_block ∷ [];
  paths =
      record {
        path_id = "path_1";
        nodes = "A1" ∷ "A2" ∷ [];
        edges = sample_edge ∷ [];
        description = "A1 refers to A2";
      }
      ∷ [];
  admitted_bundle_ids = [];
  selected_unit_ids = "A1" ∷ [];
  omitted_evidence = [];
  budget = record {
    total_chars = 0;
    fixed_overhead_chars = 0;
    evidence_budget_chars = 0;
    safety_reserve_chars = 0;
    used_evidence_chars = 0;
  };
  truncated = false;
}

abbrev pub sample_registry : EvidenceRegistry
sample_registry = record {
  entries = sample_block ∷ [];
  allowed_citation_ids = "A1" ∷ [];
  allowed_path_ids = "path_1" ∷ [];
}

abbrev pub sample_assertion : TemporalAssertion
sample_assertion = record {
  assertion_id = "t1";
  subject_unit_id = "A1";
  query_date = 738000;
  asserted_valid = true;
  scope = AssertionScope.unit;
}

abbrev pub sample_candidate : AnswerCandidate
sample_candidate =
    sample_answer (sample_statement "Capital is paid" ("path_1" ∷ []) ("t1" ∷ []))
      (sample_assertion ∷ [])

-- The response to `sample_candidate`.
abbrev pub sample_grounded : AnswerResponse
sample_grounded = record {
  retrieval_contract_version = "v1";
  query = "When is capital paid?";
  answer_text = "Within 90 days. [1]";
  direct_answer = sample_candidate.direct_answer;
  sections = [];
  caveats = [];
  citations = sample_citation "Capital is paid" ∷ [];
  reasoning_paths =
      record {
        path_id = "path_1";
        nodes = "A1" ∷ "A2" ∷ [];
        edges = sample_edge ∷ [];
        description = "A1 refers to A2";
      }
      ∷ [];
  temporal_notes =
      "Theo phạm vi dữ liệu truy xuất, Article 1 có hiệu lực tại ngày 2021-07-29." ∷ [];
  cannot_answer = false;
  insufficiency_reason = none;
  confidence = float_zero;
  provider = some "provider";
  model = some "model";
  intent = "validity";
  strategy = "validity_temporal";
}
