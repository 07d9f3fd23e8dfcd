-- ===== src/Answering.antt =====
-- apps/backend/conversation/service.py: `_persist_answer` retrieves for a standalone question and
-- generates an answer from what it retrieved.
mod Examples
use legal_graphrag_platform.Base.{
  ◌==◌, not, All_at, true, All-mono, ℕ, String, ◌≡◌, refl, ap, sym, ◌∙◌, Bool, false, Option, none,
  some, [], All, Member, ◌⊎◌,
}
use legal_graphrag_platform.Base.Result.{Result, ok, ◌>>=◌, >>=-eq-ok, guard-bind-ok, ok_inj}
use legal_graphrag_platform.Base.Regex.{Unicode}
use legal_graphrag_platform.Retrieval.Models.{RetrievedUnit}
use legal_graphrag_platform.Retrieval.Models.Context.{RetrievalContext}
use legal_graphrag_platform.Retrieval.Decision.{
  RetrievalRequest, RetrievalExecutionContext, PreparedRetrievalRequest,
}
use legal_graphrag_platform.Retrieval.Fusion.{FloatArithmetic}
use legal_graphrag_platform.Retrieval.TemporalFilter.{overlaps, query_end}
use legal_graphrag_platform.Retrieval.Router.Time.{is_comparison}
use legal_graphrag_platform.Retrieval.Runtime.Execute.{Runtime, required_units_of}
use legal_graphrag_platform.Retrieval.Runtime.Metrics.{Latencies}
use legal_graphrag_platform.Retrieval.Runtime.Dates.{KeepsDates}
use legal_graphrag_platform.Retrieval.Runtime.Retrieve.{
  Router, prepare, retrieve, IsInForce, retrieve-IsInForce,
}
use legal_graphrag_platform.Generation.Models.{
  AnswerGenerationRequest, validate_request, AnswerCitation, AnswerResponse,
}
use legal_graphrag_platform.Generation.Projection.{GenerationConfig}
use legal_graphrag_platform.Generation.Service.{generate}
use legal_graphrag_platform.Generation.Service.State.{Provider}
use legal_graphrag_platform.Generation.Service.Provenance.{IsSourced, generate-IsSourced}

-- The parts that answer a question: those of retrieval, with its clock, and those of generation.
pub record Parts : Type 0 where
  pub unicode : Unicode
  pub floats : FloatArithmetic
  pub nfc : String → String
  pub casefold : String → String
  pub sha256_hex : String → String
  pub router : Router
  pub runtime : Runtime
  pub prepare_latency_ms : ℕ
  pub latencies : Latencies
  pub config : GenerationConfig
  pub provider : Provider

-- The request that the service makes of what it retrieved.
abbrev pub generation_request : RetrievalRequest → RetrievalContext → AnswerGenerationRequest
generation_request request context = record {
  query = request.query;
  retrieval_context = context;
  conversation_history = [];
  composition_plan = none;
}

validate_request-same :
    (request : RetrievalRequest) (context : RetrievalContext) (validated : AnswerGenerationRequest)
    → validate_request (generation_request request context) ≡ ok validated
    → generation_request request context ≡ validated
unfolding validate_request
validate_request-same request context validated e =
    let (a, e₁) = guard-bind-ok (not (request.query == context.query)) _ _ _ e in ok_inj e₁

module _ (p : Parts) (request : RetrievalRequest)
    (execution_context : Option RetrievalExecutionContext) where
  abbrev pub retrieved : Result RetrievalContext
  retrieved =
      retrieve p.unicode p.sha256_hex p.floats p.router p.runtime p.prepare_latency_ms p.latencies
        request execution_context

  abbrev pub reply_to : AnswerGenerationRequest → Result AnswerResponse
  reply_to generation =
      (generate p.nfc p.casefold p.sha256_hex p.config p.provider generation).reply

  -- The calls of `_persist_answer`
  unfoldable pub answer_standalone : Result AnswerResponse
  unfolding retrieve validate_request generate
  answer_standalone = do
    context ← retrieved
    generation ← validate_request (generation_request request context)
    reply_to generation

  -- The citation is of a unit of the context that is required or in force at the date.
  pub record IsCurrent (prepared : PreparedRetrievalRequest) (context : RetrievalContext)
      (force : IsInForce p.sha256_hex p.floats p.runtime prepared context) (c : AnswerCitation)
      : Type 0 where
    pub source : IsSourced p.nfc context c
    pub current :
        Member source.unit (required_units_of prepared force.gathered)
        ⊎ (overlaps force.date (query_end prepared.routing.temporal force.date) source.unit ≡ true)

  -- An answer, whose citations are of units in force.
  pub record IsCurrentAnswer (prepared : PreparedRetrievalRequest) (response : AnswerResponse)
      : Type 0 where
    pub context : RetrievalContext
    pub retrieves : retrieved ≡ ok context
    pub force : IsInForce p.sha256_hex p.floats p.runtime prepared context
    pub cited : All (IsCurrent prepared context force) response.citations

  -- If a standalone question that compares no versions is answered, and the reranker, where there is
  -- one, returns units that it was given, then each citation of the answer has the metadata of a
  -- unit that was retrieved and passed the evidence checks, and quotes that unit; and that unit is
  -- required by an anchor or by the relation goal of the question, or its validity interval meets
  -- the interval of the question. The reply of the language model makes no difference to this.
  pub answer_standalone-IsCurrentAnswer :
      (prepared : PreparedRetrievalRequest) (response : AnswerResponse)
      → KeepsDates p.runtime.reranker
      → prepare p.unicode p.router request execution_context p.prepare_latency_ms ≡ ok prepared
      → is_comparison prepared.routing.decision.intent ≡ false
      → answer_standalone ≡ ok response
      → response.cannot_answer ≡ false
      → IsCurrentAnswer prepared response
  unfolding answer_standalone
  answer_standalone-IsCurrentAnswer prepared response keeps prepares single e answers =
      let (context, e₁, e₂) = >>=-eq-ok retrieved _ e in
      let (generation, e₃, e₄) =
        >>=-eq-ok (validate_request (generation_request request context)) _ e₂ in
      let same = validate_request-same request context generation e₃ in
      let force =
        retrieve-IsInForce p.unicode p.sha256_hex p.floats p.router p.runtime p.prepare_latency_ms
          p.latencies request execution_context context prepared keeps prepares single e₁ in
      let sourced =
        generate-IsSourced p.nfc p.casefold p.sha256_hex p.config p.provider
          (generation_request request context) response (ap reply_to same ∙ e₄) answers in
      record {
        context = context;
        retrieves = e₁;
        force = force;
        cited =
            All-mono (IsSourced p.nfc context) (IsCurrent prepared context force)
              (λ c s. record {
                source = s;
                current = All_at _ context.retrieved_units s.unit force.units s.retrieved;
              })
              response.citations sourced;
      }
