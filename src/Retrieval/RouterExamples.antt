-- ===== src/Retrieval/RouterExamples.antt =====
-- The theorems on the router, applied to a question without a time, and the times of questions.
use legal_graphrag_platform.Retrieval.Router.Classifier.{classify-Raises, classify}
use legal_graphrag_platform.Base.{
  String, map, ◌≡◌, refl, true, false, none, some, [], ◌∷◌, eqb, leb, ◌&&◌, ◌||◌, if◌then◌else◌,
  first_occurrence, not, map,
}
use Prim.Native.Nat.{◌-◌}
use legal_graphrag_platform.Base.Result.{
  Result, intent_analysis_error, Raises, ok, raise, value_error,
}
use legal_graphrag_platform.Base.Regex.{Unicode}
use legal_graphrag_platform.Retrieval.Models.{
  TemporalSource, RetrievedUnit, RetrievalStrategyType, RetrievalDecisionReasonCode, IntentType,
}
use legal_graphrag_platform.Retrieval.Models.Context.{RetrievalContext}
use legal_graphrag_platform.Retrieval.Decision.{
  RetrievalRequest, RoutingResult, PreparedRetrievalRequest,
}
use legal_graphrag_platform.Retrieval.TemporalParser.{no_temporal, resolved, parse}
use legal_graphrag_platform.Retrieval.Router.Failures.{IsRoutingError, route-Raises}
use legal_graphrag_platform.Retrieval.Router.{route, classify_intent_by_rule}
use legal_graphrag_platform.Retrieval.Router.Limits.{RetrievalConfig}
use legal_graphrag_platform.Retrieval.Router.Rules.{RuleConfidence}
use legal_graphrag_platform.Retrieval.Router.Routed.{IsRouted, route-IsRouted}
use legal_graphrag_platform.Retrieval.Runtime.Retrieve.{
  Router, prepare, retrieve, IsInForce, retrieve-IsInForce,
}
use legal_graphrag_platform.Retrieval.Examples.{bit_floats}
use legal_graphrag_platform.Retrieval.RuntimeExamples.{
  first_units-KeepsDates, hash, runtime, latencies, value_or, no_context, filters,
}

-- Latin letters and digits, in which cases do not differ but for one letter.
abbrev pub unicode : Unicode
unicode = record {
  same_letter = λ c d. eqb c d || eqb c 110 && eqb d 78;
  digit_value = λ c. if leb 48 c && leb c 57 then some (c - 48) else none;
  is_word = λ c. leb 48 c && not (eqb c 63);
}

abbrev config : RetrievalConfig
config = record {
  contract_version = "retrieval-runtime-v2";
  candidate_k = 20;
  final_k = 10;
  graph_entry_k = 5;
  vector_enabled = true;
  fulltext_enabled = true;
  graph_enabled = true;
  reranker_enabled = false;
  hierarchy_vector_enabled = false;
  query_max_length = 4000;
}

abbrev pub request : RetrievalRequest
request = record {
  contract_version = "retrieval-runtime-v2";
  query = "Năng lực nào?";
  filters = record filters { query_date = none };
  top_k = none;
  final_k = some 2;
  force_intent = none;
  enable_reranker = some true;
}

abbrev pub router : Router
router = record {
  config = record config { fulltext_enabled = false };
  classifier = none;
  today = 160;
}

abbrev no_routing : RoutingResult
no_routing = record {
  decision = record {
    contract_version = "";
    intent = IntentType.factual;
    strategy = RetrievalStrategyType.factual_hybrid;
    seed_channels = [];
    graph_enabled = false;
    graph_policy_intent = none;
    candidate_k = 0;
    graph_entry_k = 0;
    final_k = 0;
    apply_temporal_filter = false;
    preserve_versions = false;
    require_temporal_point = false;
    enable_reranker = false;
    force_intent_used = false;
    temporal_source = TemporalSource.none_source;
    decision_reason_code = RetrievalDecisionReasonCode.factual_default;
    decision_reason = "";
    required_capability = none;
  };
  temporal = no_temporal;
  filters = filters;
}

abbrev routing : RoutingResult
routing = value_or (route unicode config none 160 request none) no_routing

route-IsRouted_example : IsRouted routing
unfolding route
route-IsRouted_example = route-IsRouted unicode config none 160 request none routing refl

abbrev pub prepared : PreparedRetrievalRequest
prepared = value_or (prepare unicode router request none 3) (record {
  request = request;
  routing = no_routing;
  execution_context = record { resolved_references = []; relation_goal = none };
  prepare_latency_ms = 0;
})

abbrev context : RetrievalContext
context =
    value_or (retrieve unicode hash bit_floats router runtime 3 latencies request none) no_context

-- The question names no time; the article that was repealed before today is not returned.
retrieve-today : map (λ (u : RetrievedUnit). u.id) context.retrieved_units ≡ "A2" ∷ []
unfolding retrieve first_occurrence
retrieve-today = refl

retrieve-IsInForce_example : IsInForce hash bit_floats runtime prepared context
unfolding retrieve first_occurrence
retrieve-IsInForce_example =
    retrieve-IsInForce unicode hash bit_floats router runtime 3 latencies request none context
      prepared first_units-KeepsDates refl refl refl

parse_days :
    (parse unicode "ngày 29/2/2020" ≡ ok (resolved "ngày 29/2/2020" 737484 737484 "day" false))
    × (parse unicode "luật 2020-02-29?" ≡ ok (resolved "2020-02-29" 737484 737484 "day" false))
    × (parse unicode "ngày 1 tháng 1 năm 1" ≡ ok no_temporal)
    × (parse unicode "ngày 30-2-2020" ≡ ok no_temporal)
unfolding parse
parse_days = (refl, refl, refl, refl)

parse_periods :
    (parse unicode "tháng 12/2020?" ≡ ok (resolved "tháng 12/2020" 737760 737790 "month" false))
    × (parse unicode "luật Năm 2020" ≡ ok (resolved "Năm 2020" 737425 737790 "year" false))
    × (parse unicode "tháng 13 năm 2020" ≡ ok (resolved "năm 2020" 737425 737790 "year" false))
unfolding parse
parse_periods = (refl, refl, refl)

parse_wordings :
    (parse unicode "luật năm 2020 còn hiệu lực không"
      ≡ ok (record no_temporal {
        has_temporal = true;
        expression = some "còn hiệu lực không";
        requests_current_validity = true;
      }))
    × (parse unicode "trước và sau khi sửa đổi"
        ≡ ok (record no_temporal {
          expression = some "trước và sau khi sửa đổi";
          spans_all_versions = true;
        }))
unfolding parse
parse_wordings = (refl, refl)

-- A year that `date` does not have leaves the parser as a `ValueError`.
parse_year_zero : parse unicode "năm 0000" ≡ raise value_error "year is out of range"
unfolding parse
parse_year_zero = refl

classify_rules :
    (classify_intent_by_rule unicode "văn bản nào hướng dẫn"
      ≡ some (record {
        intent = IntentType.hierarchy;
        reason = RetrievalDecisionReasonCode.hierarchy_explicit;
        confidence = RuleConfidence.high;
      }))
    × (classify_intent_by_rule unicode "luật còn hiệu lực"
        ≡ some (record {
          intent = IntentType.validity;
          reason = RetrievalDecisionReasonCode.validity_current_date;
          confidence = RuleConfidence.high;
        }))
    × (classify_intent_by_rule unicode "mức phạt" ≡ none)
unfolding classify_intent_by_rule
classify_rules = (refl, refl, refl)

-- The year leaves the router as it leaves the parser.
abbrev year_zero : RetrievalRequest
year_zero = record request { query = "năm 0000" }

-- No rule matches the question, and the classifier's model cannot be reached.
abbrev unreached : String → Result IntentType
unreached = classify (λ text. text) (λ text. text) (λ query. none)

abbrev fine : RetrievalRequest
fine = record request { query = "mức phạt" }

route-Raises_example :
    Raises (IsRoutingError unicode "mức phạt") (route unicode config (some unreached) 160 fine none)
route-Raises_example = route-Raises unicode config (some unreached) 160 fine none λ query. record {
  at = λ e h.
      let only : e.class ≡ intent_analysis_error =
        (classify-Raises (λ text. text) (λ text. text) (λ query. none) query).at e h in
      rw only refl;
}

route-unreached :
    route unicode config (some unreached) 160 fine none
    ≡ raise intent_analysis_error "Intent classification LLM call failed"
unfolding route classify
route-unreached = refl

classify_replies :
    (classify (λ text. text) (λ text. text) (λ query. some " validity\n") "q"
      ≡ ok IntentType.validity)
    × (classify (λ text. text) (λ text. text) (λ query. some "other") "q"
        ≡ raise intent_analysis_error "Unsupported intent response: other")
unfolding classify
classify_replies = (refl, refl)

route-year_zero :
    route unicode config none 160 year_zero none ≡ raise value_error "year is out of range"
unfolding route
route-year_zero = refl
