-- ===== src/Retrieval/Runtime/Retrieve.antt =====
-- src/retrieval/runtime/runtime.py: `prepare` and `retrieve`, the routing and the execution of a
-- question, and what they guarantee together.
use legal_graphrag_platform.Base.{
  ℕ, String, ◌≡◌, refl, sym, ap, ◌∙◌, true, false, Option, none, some, [], is_some, All, Member,
  ◌⊎◌,
}
use legal_graphrag_platform.Base.Result.{Result, ok, >>=-eq-ok, ok_inj, ◌>>=◌}
use legal_graphrag_platform.Base.Date.{Date}
use legal_graphrag_platform.Base.Regex.{Unicode}
use legal_graphrag_platform.Retrieval.Models.{IntentType}
use legal_graphrag_platform.Retrieval.Models.Context.{RetrievalContext}
use legal_graphrag_platform.Retrieval.Decision.{
  RetrievalRequest, RetrievalExecutionContext, PreparedRetrievalRequest,
}
use legal_graphrag_platform.Retrieval.Fusion.{FloatArithmetic}
use legal_graphrag_platform.Retrieval.TemporalFilter.{overlaps, query_end}
use legal_graphrag_platform.Retrieval.Router.{route}
use legal_graphrag_platform.Retrieval.Router.Limits.{RetrievalConfig}
use legal_graphrag_platform.Retrieval.Router.Time.{is_comparison}
use legal_graphrag_platform.Retrieval.TemporalParser.Dates.{flagged-IsTime}
use legal_graphrag_platform.Retrieval.Router.Routed.{IsRouted, route-IsRouted}
use legal_graphrag_platform.Retrieval.Runtime.Execute.{Runtime, gather, required_units_of, execute}
use legal_graphrag_platform.Retrieval.Runtime.Metrics.{Latencies, Gathered}
use legal_graphrag_platform.Retrieval.Runtime.Dates.{KeepsDates, execute-MeetsDate}

-- `RetrievalExecutionContext()`
abbrev pub or_no_context : Option RetrievalExecutionContext → RetrievalExecutionContext
or_no_context none = record { resolved_references = []; relation_goal = none }
or_no_context (some context) = context

-- A router with its settings, its classifier and the day of its clock.
pub record Router : Type 0 where
  pub config : RetrievalConfig
  pub classifier : Option (String → Result IntentType)
  pub today : Date

module _ (u : Unicode) where
  -- `RetrievalRuntime.prepare` of a request
  unfoldable pub prepare :
      Router
      → RetrievalRequest
      → Option RetrievalExecutionContext
      → ℕ
      → Result PreparedRetrievalRequest
  unfolding route
  prepare router request execution_context prepare_latency_ms = do
    let active = or_no_context execution_context
    routing ← route u router.config router.classifier router.today request active.relation_goal
    ok (record {
      request = request;
      routing = routing;
      execution_context = active;
      prepare_latency_ms = prepare_latency_ms;
    })

  -- `RetrievalRuntime.retrieve` of a request
  unfoldable pub retrieve :
      (String → String)
      → FloatArithmetic
      → Router
      → Runtime
      → ℕ
      → Latencies
      → RetrievalRequest
      → Option RetrievalExecutionContext
      → Result RetrievalContext
  unfolding prepare execute
  retrieve sha256_hex floats router runtime prepare_latency_ms latencies request execution_context =
      do
        prepared ← prepare router request execution_context prepare_latency_ms
        execute sha256_hex floats runtime latencies prepared none none

  prepare-IsRouted :
      (router : Router) (request : RetrievalRequest)
      (execution_context : Option RetrievalExecutionContext) (prepare_latency_ms : ℕ)
      (prepared : PreparedRetrievalRequest)
      → prepare router request execution_context prepare_latency_ms ≡ ok prepared
      → IsRouted prepared.routing
  unfolding prepare
  prepare-IsRouted router request execution_context prepare_latency_ms prepared e =
      let active = or_no_context execution_context in
      let (routing, e₁, e₂) =
        >>=-eq-ok
          (route u router.config router.classifier router.today request active.relation_goal) _ e in
      rw (← ok_inj e₂) (
        route-IsRouted u router.config router.classifier router.today request active.relation_goal
          routing e₁)

some-of_is_some : (o : Option Date) → is_some o ≡ true → (d : Date) × (o ≡ some d)
some-of_is_some none h = cc
some-of_is_some (some d) h = (d, refl)

-- A context whose units are in force at a date, but for those that an anchor or the goal requires.
pub record IsInForce (sha256_hex : String → String) (floats : FloatArithmetic) (runtime : Runtime)
    (prepared : PreparedRetrievalRequest) (context : RetrievalContext) : Type 0 where
  pub date : Date
  pub filtered : prepared.routing.filters.query_date ≡ some date
  pub gathered : Gathered
  pub gathers : gather sha256_hex floats runtime prepared none ≡ ok gathered
  pub units :
      All
        (λ u.
          Member u (required_units_of prepared gathered)
          ⊎ (overlaps date (query_end prepared.routing.temporal date) u ≡ true))
        context.retrieved_units

module _ (u : Unicode) (sha256_hex : String → String) (floats : FloatArithmetic) (router : Router)
    (runtime : Runtime) (prepare_latency_ms : ℕ) (latencies : Latencies)
    (request : RetrievalRequest) (execution_context : Option RetrievalExecutionContext)
    (context : RetrievalContext) where
  -- If a question is routed and does not compare versions, its retrieval returns a context, and the
  -- reranker, where there is one, returns units that it was given, then there is a date, which is
  -- that of the filters, whether or not the question names a time, and each unit of the context is
  -- required by an anchor or by the relation goal, or its validity interval meets the interval of
  -- the question, which begins on that date.
  pub retrieve-IsInForce :
      (prepared : PreparedRetrievalRequest)
      → KeepsDates runtime.reranker
      → prepare u router request execution_context prepare_latency_ms ≡ ok prepared
      → is_comparison prepared.routing.decision.intent ≡ false
      → retrieve u sha256_hex floats router runtime prepare_latency_ms latencies request
          execution_context
        ≡ ok context
      → IsInForce sha256_hex floats runtime prepared context
  unfolding retrieve
  retrieve-IsInForce prepared keeps p single e =
      let routed =
        prepare-IsRouted u router request execution_context prepare_latency_ms prepared p in
      let (d, from) =
        some-of_is_some prepared.routing.temporal.resolved_from (routed.present single) in
      let run : execute sha256_hex floats runtime latencies prepared none none ≡ ok context =
        ap (λ r. r >>= (λ x. execute sha256_hex floats runtime latencies x none none)) (sym p)
        ∙ e in
      let (g, gathers, units) =
        execute-MeetsDate sha256_hex floats runtime latencies prepared none none context d keeps
          (flagged-IsTime prepared.routing.temporal d routed.time from) from run in
      record {
        date = d;
        filtered = routed.same_date ∙ from;
        gathered = g;
        gathers = gathers;
        units = units;
      }
