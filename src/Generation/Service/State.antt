-- ===== src/Generation/Service/State.antt =====
-- src/generation/service.py: the state of a turn, its metrics, and the answers that decline.
use Prim.Native.String.{◌++◌}
use mathlib.Core.List.{◌++◌ as ◌⧺◌}
use legal_graphrag_platform.Base.{
  ℕ, String, true, Option, none, some, List, [], ◌∷◌, if◌then◌else◌, ◌==◌,
}
use legal_graphrag_platform.Base.Result.{Result, ok, err, ErrorClass, Exception}
use legal_graphrag_platform.Base.Float.{float_zero}
use legal_graphrag_platform.Base.Dict.{Dict, insert, set_default, update}
use legal_graphrag_platform.Retrieval.Models.{intent_value, strategy_value}
use legal_graphrag_platform.Retrieval.Models.Context.{Detail, Metric, RetrievalContext}
use legal_graphrag_platform.Generation.Models.{AnswerGenerationRequest, AnswerResponse}
use legal_graphrag_platform.Generation.Models.Projected.{ProviderAnswerRequest}
use legal_graphrag_platform.Generation.Models.Candidate.{AnswerCandidate}
use legal_graphrag_platform.Generation.Diagnostics.{generation_context}

-- `AnswerProviderPort`: the reply may depend on how many calls went before.
pub record Provider : Type 0 where
  pub provider_name : String
  pub model_name : String
  pub generate_structured : ℕ → ProviderAnswerRequest → Result AnswerCandidate

-- What a turn changes: the metrics of the retrieval context and the calls made so far.
pub record Turn : Type 0 where
  pub metrics : Dict Metric
  pub calls : List ProviderAnswerRequest

pub record Outcome : Type 0 where
  pub turn : Turn
  pub reply : Result AnswerResponse

-- `type(exc).__name__`
unfoldable pub class_name : ErrorClass → String
class_name ErrorClass.answer_request_error = "AnswerRequestError"
class_name ErrorClass.evidence_contract_error = "EvidenceContractError"
class_name ErrorClass.context_budget_configuration_error = "ContextBudgetConfigurationError"
class_name ErrorClass.provider_dependency_error = "AnswerProviderDependencyError"
class_name ErrorClass.provider_timeout_error = "AnswerProviderTimeoutError"
class_name ErrorClass.provider_output_error = "AnswerProviderOutputError"
class_name ErrorClass.citation_validation_error = "CitationValidationError"
class_name ErrorClass.grounding_validation_error = "GroundingValidationError"
class_name ErrorClass.reasoning_path_validation_error = "ReasoningPathValidationError"
class_name ErrorClass.temporal_answer_validation_error = "TemporalAnswerValidationError"
class_name ErrorClass.retrieval_output_error = "RetrievalOutputError"
class_name ErrorClass.value_error = "ValueError"
class_name ErrorClass.key_error = "KeyError"
class_name ErrorClass.index_error = "IndexError"
class_name ErrorClass.retrieval_request_error = "RetrievalRequestError"
class_name ErrorClass.canonical_reference_unavailable_error = "CanonicalReferenceUnavailableError"
class_name ErrorClass.retrieval_routing_error = "RetrievalRoutingError"
class_name ErrorClass.temporal_routing_error = "TemporalRoutingError"
class_name ErrorClass.retrieval_capability_error = "RetrievalCapabilityError"
class_name ErrorClass.retrieval_dependency_error = "RetrievalDependencyError"
class_name ErrorClass.retrieval_execution_error = "RetrievalExecutionError"
class_name ErrorClass.intent_analysis_error = "IntentAnalysisError"
class_name ErrorClass.query_processing_error = "QueryProcessingError"
class_name ErrorClass.query_processing_parse_error = "QueryProcessingParseError"
class_name ErrorClass.query_processing_contract_error = "QueryProcessingContractError"

-- `reason or "..."`
abbrev pub reason_or_default : Option String → String
reason_or_default none = "Không đủ căn cứ để trả lời."
reason_or_default (some s) = if s == "" then "Không đủ căn cứ để trả lời." else s

-- `_cannot_answer`
unfoldable pub cannot_answer :
    AnswerGenerationRequest → Option String → Option String → AnswerResponse
unfolding intent_value strategy_value
cannot_answer request reason_code reason = record {
  retrieval_contract_version = request.retrieval_context.contract_version;
  query = request.query;
  answer_text = reason_or_default reason;
  direct_answer = none;
  sections = [];
  caveats = [];
  citations = [];
  reasoning_paths = [];
  temporal_notes = [];
  cannot_answer = true;
  insufficiency_reason = reason_code;
  confidence = float_zero;
  provider = none;
  model = none;
  intent = intent_value request.retrieval_context.intent;
  strategy = strategy_value request.retrieval_context.strategy;
}

-- An exception ends the turn and keeps what it has changed.
abbrev pub attempt : {A : Type 0} → Turn → Result A → (A → Outcome) → Outcome
attempt turn (ok a) k = k a
attempt turn (err e) k = record { turn = turn; reply = err e }

-- `metrics["generation_context"] = entry`
unfoldable pub record_context : Dict Detail → Turn → Turn
unfolding insert
record_context entry turn = record turn {
  metrics = insert "generation_context" (Metric.group entry) turn.metrics;
}

-- `{**metrics.get("generation_context", {}), **more}`
unfoldable pub extend_context : Dict Detail → Turn → Turn
unfolding record_context update generation_context
extend_context more turn = record_context (update (generation_context turn.metrics) more) turn

abbrev pub sent : ProviderAnswerRequest → Turn → Turn
sent prompt turn = record turn { calls = turn.calls ⧺ prompt ∷ [] }

-- The two counters that the turn starts from.
unfoldable pub start_turn : RetrievalContext → Turn
unfolding set_default
start_turn context = record {
  metrics =
      set_default "answer_provider_calls_after_plan_failure" (Metric.plain (Detail.count 0))
        (set_default "planner_provider_calls" (Metric.plain (Detail.count 0)) context.metrics);
  calls = [];
}

unfoldable pub describe : Exception → String
unfolding class_name
describe e = class_name e.class ++ ": " ++ e.message

abbrev pub triggered_entry : Exception → Dict Detail
triggered_entry e =
    ("grounding_repair_triggered", Detail.flag true)
    ∷ ("grounding_repair_reason", Detail.text (describe e))
    ∷ []

abbrev pub failed_entry : Exception → Dict Detail
failed_entry e =
    ("grounding_repair_failed", Detail.flag true)
    ∷ ("grounding_repair_failure_reason", Detail.text (describe e))
    ∷ []

-- `repair_request`
unfoldable pub repair_request : ProviderAnswerRequest → Exception → ProviderAnswerRequest
repair_request first e = record first {
  prompt =
      first.prompt ++ "\nBEGIN_REPAIR_FEEDBACK\n" ++ "Your previous JSON candidate was rejected: "
      ++ e.message ++ "\n"
      ++ "Fix exactly this issue and resend the full corrected JSON candidate, following BEGIN_OUTPUT_CONTRACT.\n"
      ++ "END_REPAIR_FEEDBACK";
}

abbrev pub repair_failed_text : String
repair_failed_text =
    "Không thể tạo câu trả lời đủ căn cứ sau khi thử sửa lại; vui lòng thử lại câu hỏi."

-- A turn that ends without a call of the provider.
unfoldable pub decline :
    AnswerGenerationRequest → Dict Detail → Option String → Option String → Turn → Outcome
unfolding record_context cannot_answer
decline request entry reason_code reason turn = record {
  turn = record_context entry turn;
  reply = ok (cannot_answer request reason_code reason);
}
