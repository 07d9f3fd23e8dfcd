-- ===== src/Retrieval/Router.antt =====
-- src/retrieval/routing/router.py: the intent of a question and its routing. The rules on wording,
-- the time and the limits are in the child modules.
pub mod Limits
pub mod Time
pub mod Rules
pub mod Routed
pub mod Failures
pub mod Classifier
use legal_graphrag_platform.Base.{
  ℕ, String, Bool, true, false, not, ◌&&◌, ◌||◌, Option, none, some, List, [], ◌∷◌, if◌then◌else◌,
  leb, ltb, eqb, is_some, is_none, is_empty,
}
use Prim.Native.String.{◌++◌}
use mathlib.Core.List.{◌++◌ as ◌⧺◌}
use legal_graphrag_platform.Base.Result.{
  Result, ok, raise, fail_if, ◌>>=◌, ◌>>◌, retrieval_request_error, retrieval_routing_error,
  temporal_routing_error,
}
use legal_graphrag_platform.Base.Text.{text_length, show_nat}
use legal_graphrag_platform.Base.Date.{Date}
use legal_graphrag_platform.Base.Regex.{Unicode, CharClass, Regex, seqs, alts, words, search}
use legal_graphrag_platform.Retrieval.Models.{
  IntentType, intent_value, RetrievalStrategyType, RetrievalChannel, TemporalSource,
  RetrievalDecisionReasonCode, RetrievalFilters, TemporalQuery, RelationGoal,
}
use legal_graphrag_platform.Retrieval.Decision.{
  RetrievalCapability, RetrievalRequest, RetrievalDecision, RoutingResult,
}
use legal_graphrag_platform.Retrieval.TemporalParser.{current_validity_wording, parse}
use legal_graphrag_platform.Retrieval.Runtime.{is_validity}
use legal_graphrag_platform.Retrieval.Router.Rules.{
  RuleConfidence, Rule, anything, word, amendment_wording, guides_wording, multi_hop_pattern,
  hierarchy_pattern, definition_pattern, validity_pattern, rules,
}
use legal_graphrag_platform.Retrieval.Router.Time.{
  Timed, is_comparison, on_day, dated, resolve_query_time, differs, resolve_time, resolve_temporal,
}
use legal_graphrag_platform.Retrieval.Router.Limits.{
  RetrievalConfig, is_hierarchy, strategy_for, vector_seeds, fulltext_seeds, fulltext_first,
  seed_channels, or_default, reranks, smaller,
}

pub record Classified : Type 0 where
  pub intent : IntentType
  pub reason : RetrievalDecisionReasonCode
  pub confidence : RuleConfidence

-- The intent with its reason code and reason
pub record Resolved : Type 0 where
  pub intent : IntentType
  pub reason_code : RetrievalDecisionReasonCode
  pub reason : String

abbrev pub is_current_source : TemporalSource → Bool
is_current_source TemporalSource.injected_current_date = true
is_current_source _ = false

-- Whether `parse_error` is set and not empty
abbrev pub parse_failure : Option String → Option String
parse_failure none = none
parse_failure (some String.[]) = none
parse_failure (some (String.◌∷◌ c s)) = some (String.◌∷◌ c s)

abbrev pub check_parse_error : Option String → Result (Unit {0})
check_parse_error none = ok tt
check_parse_error (some message) = raise temporal_routing_error message

module _ (u : Unicode) where
  abbrev reason_for :
      String → IntentType → RetrievalDecisionReasonCode → RetrievalDecisionReasonCode
  reason_for query intent reason =
      if is_validity intent && is_some (search u current_validity_wording query)
      then RetrievalDecisionReasonCode.validity_current_date
      else reason

  classify_by : String → List Rule → Option Classified
  unfolding search
  classify_by query [] = none
  classify_by query (rule ∷ rest) =
      let later = classify_by query rest in
      if is_some (search u rule.pattern query)
      then some (record {
        intent = rule.intent;
        reason = reason_for query rule.intent rule.reason;
        confidence = rule.confidence;
      })
      else later

  -- `classify_intent_by_rule`
  unfoldable pub classify_intent_by_rule : String → Option Classified
  unfolding classify_by
  classify_intent_by_rule query = classify_by query rules

  -- `_required_capability`
  unfoldable pub required_capability :
      IntentType → String → TemporalSource → Option RetrievalCapability
  unfolding search
  required_capability IntentType.validity query source =
      if is_some (search u amendment_wording query)
      then some RetrievalCapability.version_chain_validity
      else if is_current_source source
      then some RetrievalCapability.corpus_complete_current_validity
      else some RetrievalCapability.scoped_temporal_metadata
  required_capability IntentType.hierarchy query source =
      if is_some (search u guides_wording query)
      then some RetrievalCapability.guides_relations
      else some RetrievalCapability.structural_hierarchy
  required_capability IntentType.comparison query source =
      some RetrievalCapability.multiple_versions
  required_capability IntentType.definition query source =
      some RetrievalCapability.lexical_definition
  required_capability IntentType.multi_hop query source =
      some RetrievalCapability.semantic_multi_hop_graph
  required_capability IntentType.factual query source = none

  -- The intent by the classifier, or by what a rule suggests
  abbrev pub resolve_by :
      Option (String → Result IntentType) → String → Option Classified → Result Resolved
  resolve_by (some classify) query suggestion = do
    classified ← classify query
    ok (record {
      intent = classified;
      reason_code = RetrievalDecisionReasonCode.intent_classifier_llm;
      reason = "Intent classifier selected " ++ intent_value classified;
    })
  resolve_by none query (some c) = ok (record {
    intent = c.intent;
    reason_code = c.reason;
    reason = "Matched low-confidence " ++ intent_value c.intent ++ " rule";
  })
  resolve_by none query none = ok (record {
    intent = IntentType.factual;
    reason_code = RetrievalDecisionReasonCode.factual_default;
    reason = "No explicit non-factual intent marker was found";
  })

  abbrev pub resolve_classified :
      Option (String → Result IntentType) → String → Option Classified → Result Resolved
  resolve_classified classifier query none = resolve_by classifier query none
  resolve_classified classifier query (some c) = elim c.confidence [
    | RuleConfidence.high ↦ ok (record {
      intent = c.intent;
      reason_code = c.reason;
      reason = "Matched high-confidence " ++ intent_value c.intent ++ " rule";
    })
    | RuleConfidence.low ↦ resolve_by classifier query (some c)
  ]

  abbrev pub resolve_goal :
      Option (String → Result IntentType) → String → Option RelationGoal → Result Resolved
  resolve_goal classifier query (some RelationGoal.refers_to) = ok (record {
    intent = IntentType.factual;
    reason_code = RetrievalDecisionReasonCode.explicit_reference_lookup;
    reason = "Resolved source with an explicit REFERS_TO relation goal";
  })
  resolve_goal classifier query goal =
      resolve_classified classifier query (classify_intent_by_rule query)

  -- `_resolve_intent`
  unfoldable pub resolve_intent :
      Option (String → Result IntentType) → RetrievalRequest → Option RelationGoal → Result Resolved
  unfolding classify_intent_by_rule intent_value
  resolve_intent classifier request goal = elim request.force_intent [
    | some intent ↦ ok (record {
      intent = intent;
      reason_code = RetrievalDecisionReasonCode.forced_intent;
      reason = "Intent explicitly forced to " ++ intent_value intent;
    })
    | none ↦ resolve_goal classifier request.query goal
  ]

  -- The decision, once the intent, the time and the limits are known.
  abbrev pub decide :
      RetrievalConfig → RetrievalRequest → Resolved → Timed → ℕ → ℕ → RetrievalDecision
  decide config request r t candidate_k final_k = record {
    contract_version = config.contract_version;
    intent = r.intent;
    strategy = strategy_for r.intent;
    seed_channels = seed_channels config r.intent;
    graph_enabled = config.graph_enabled;
    graph_policy_intent = if config.graph_enabled then some r.intent else none;
    candidate_k = candidate_k;
    graph_entry_k = smaller config.graph_entry_k candidate_k;
    final_k = final_k;
    apply_temporal_filter = is_some t.temporal.resolved_from;
    preserve_versions = is_comparison r.intent;
    require_temporal_point = is_validity r.intent;
    enable_reranker = reranks config request.enable_reranker r.intent;
    force_intent_used = is_some request.force_intent;
    temporal_source = t.source;
    decision_reason_code = r.reason_code;
    decision_reason = r.reason;
    required_capability = required_capability r.intent request.query t.source;
  }

  -- What follows the intent and the time
  unfoldable pub route_with :
      RetrievalConfig → RetrievalRequest → Resolved → Timed → Result RoutingResult
  unfolding seed_channels required_capability
  route_with config request r t = do
    fail_if (is_validity r.intent && is_none t.temporal.resolved_from) temporal_routing_error
        "Validity retrieval requires a resolved temporal point"
    fail_if
        (is_comparison r.intent && not (t.temporal.has_temporal || t.temporal.spans_all_versions))
        temporal_routing_error "Comparison retrieval requires a temporal expression"
    let candidate_k = or_default request.top_k config.candidate_k
    let final_k = or_default request.final_k config.final_k
    fail_if (not (leb 1 final_k && leb final_k candidate_k && leb candidate_k 200))
        retrieval_request_error "Require 1 <= final_k <= candidate_k <= 200"
    fail_if (is_empty (seed_channels config r.intent)) retrieval_routing_error
        "Intent has no enabled seed retrieval channel"
    ok (record {
      decision = decide config request r t candidate_k final_k;
      temporal = t.temporal;
      filters = t.filters;
    })

  -- `IntentRouter.route`
  unfoldable pub route :
      RetrievalConfig
      → Option (String → Result IntentType)
      → Date
      → RetrievalRequest
      → Option RelationGoal
      → Result RoutingResult
  unfolding parse resolve_intent resolve_temporal route_with show_nat
  route config classifier today request goal = do
    fail_if (ltb config.query_max_length (text_length request.query)) retrieval_request_error
        ("Query exceeds configured maximum of " ++ show_nat config.query_max_length)
    temporal ← parse u request.query
    check_parse_error (parse_failure temporal.parse_error)
    r ← resolve_intent classifier request goal
    t ← resolve_temporal today request.filters temporal r.intent
    route_with config request r t
