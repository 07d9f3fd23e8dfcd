-- ===== src/Retrieval/ContextBuilder.antt =====
-- src/retrieval/context/context_builder.py: the retrieval context from the parts of a retrieval.
use legal_graphrag_platform.Base.{
  String, Bool, true, false, not, ◌&&◌, ◌||◌, Option, none, some, List, [], if◌then◌else◌, is_empty,
  flat_map, any, all, filter, length,
}
use legal_graphrag_platform.Base.Dict.{Dict, insert}
use legal_graphrag_platform.Retrieval.Models.{
  IntentType, RetrievalStrategyType, RetrievalChannel, TemporalSource, RetrievalDecisionReasonCode,
  RetrievalFilters, TemporalQuery, RetrievedUnit, GraphPath, EvidenceItem, PlanExecutionResult,
  PlanExecutionStatus, GraphReasoningRequirement, ResolvedReference, RelationGoal,
}
use legal_graphrag_platform.Retrieval.Models.Context.{
  RetrievalMode, CapabilityStatus, Detail, Metric, RetrievalContext,
}
use legal_graphrag_platform.Retrieval.Decision.{RetrievalDecision}
use legal_graphrag_platform.Retrieval.Fusion.{same_channel}
use legal_graphrag_platform.Retrieval.EvidenceVerifier.{verify_and_build}

abbrev pub has_source : RetrievalChannel → List RetrievalChannel → Bool
has_source c sources = any (same_channel c) sources

-- `sources == {source}`
abbrev pub only_source : RetrievalChannel → List RetrievalChannel → Bool
only_source c sources = not (is_empty sources) && all (same_channel c) sources

pub record Mode : Type 0 where
  pub retrieval_mode : RetrievalMode
  pub confidence_penalty : Bool

-- The choice of `retrieval_mode` and `confidence_penalty`
unfoldable pub choose_mode : List RetrievedUnit → List GraphPath → Mode
choose_mode units graph_paths =
    let sources = flat_map (λ u. u.retrieval_sources) units in
    if is_empty units && is_empty graph_paths
    then record { retrieval_mode = RetrievalMode.no_results; confidence_penalty = true }
    else if only_source RetrievalChannel.vector sources && is_empty graph_paths
    then record { retrieval_mode = RetrievalMode.vector_only; confidence_penalty = true }
    else if only_source RetrievalChannel.fulltext sources && is_empty graph_paths
    then record { retrieval_mode = RetrievalMode.fulltext_only; confidence_penalty = true }
    else if has_source RetrievalChannel.graph sources || not (is_empty graph_paths)
    then record {
      retrieval_mode =
          if has_source RetrievalChannel.fulltext sources
          then RetrievalMode.hybrid
          else RetrievalMode.vector_graph;
      confidence_penalty = false;
    }
    else record { retrieval_mode = RetrievalMode.hybrid; confidence_penalty = false }

-- What a satisfied plan asks of the reasoning.
abbrev pub reasoning_requirement_of : Option PlanExecutionResult → Option GraphReasoningRequirement
reasoning_requirement_of none = none
reasoning_requirement_of (some r) = elim r.execution_status [
  | PlanExecutionStatus.satisfied ↦ r.derived_reasoning_requirement
  | PlanExecutionStatus.failed ↦ none
]

abbrev pub no_filters : RetrievalFilters
no_filters = record { document_ids = []; doc_types = []; legal_statuses = []; query_date = none }

abbrev pub or_filters : Option RetrievalFilters → RetrievalFilters
or_filters none = no_filters
or_filters (some f) = f

-- The arguments of `build_context`
pub record ContextParts : Type 0 where
  pub query : String
  pub intent : IntentType
  pub temporal : TemporalQuery
  pub units : List RetrievedUnit
  pub graph_paths : List GraphPath
  pub metrics : Dict Metric
  pub filters : Option RetrievalFilters
  pub executed_channels : List RetrievalChannel
  pub reranker_applied : Bool
  pub plan_execution : Option PlanExecutionResult
  pub resolved_references : List ResolvedReference
  pub relation_goal : Option RelationGoal

-- The metrics with the counts of the evidence
unfoldable pub final_metrics : Dict Metric → List EvidenceItem → Dict Metric
unfolding insert
final_metrics metrics evidence =
    insert "eligible_evidence_items"
      (Metric.plain (Detail.count (length (filter (λ i. i.is_eligible) evidence))))
      (insert "total_evidence_items" (Metric.plain (Detail.count (length evidence))) metrics)

-- The context without a decision: its decision fields have their defaults.
unfoldable pub base_context : ContextParts → RetrievalContext
unfolding choose_mode verify_and_build final_metrics
base_context p =
    let mode = choose_mode p.units p.graph_paths in
    let evidence = verify_and_build p.units p.graph_paths in
    record {
      contract_version = "retrieval-runtime-v2";
      query = p.query;
      intent = p.intent;
      strategy = RetrievalStrategyType.factual_hybrid;
      temporal = p.temporal;
      temporal_source = TemporalSource.none_source;
      decision_reason_code = RetrievalDecisionReasonCode.factual_default;
      decision_reason = "Legacy context without routing decision";
      force_intent_used = false;
      executed_channels = [];
      filters_applied = no_filters;
      reranker_applied = false;
      capability_status = CapabilityStatus.supported;
      reasoning_requirement = reasoning_requirement_of p.plan_execution;
      plan_execution = p.plan_execution;
      retrieved_units = p.units;
      graph_paths = p.graph_paths;
      evidence = evidence;
      metrics = final_metrics p.metrics evidence;
      retrieval_mode = mode.retrieval_mode;
      confidence_penalty = mode.confidence_penalty;
      resolved_references = p.resolved_references;
      relation_goal = p.relation_goal;
    }

-- `ContextBuilder.build_context`
unfoldable pub build_context : ContextParts → Option RetrievalDecision → RetrievalContext
unfolding base_context
build_context p none = base_context p
build_context p (some decision) = record (base_context p) {
  contract_version = decision.contract_version;
  strategy = decision.strategy;
  temporal_source = decision.temporal_source;
  decision_reason_code = decision.decision_reason_code;
  decision_reason = decision.decision_reason;
  force_intent_used = decision.force_intent_used;
  filters_applied = or_filters p.filters;
  executed_channels = p.executed_channels;
  reranker_applied = p.reranker_applied;
  capability_status =
      if is_empty p.units then CapabilityStatus.no_results else CapabilityStatus.supported;
}
