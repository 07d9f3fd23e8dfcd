-- ===== src/Retrieval/Runtime/Metrics.antt =====
-- src/retrieval/runtime/runtime.py: what a retrieval has found, and its metrics.
use legal_graphrag_platform.Base.{
  Bool, List, Option, String, [], if◌then◌else◌, is_some, length, none, not, some, ℕ, ◌&&◌, ◌+◌,
  ◌-◌, ◌∷◌,
}
use legal_graphrag_platform.Base.Dict.{Dict, lookup}
use legal_graphrag_platform.Retrieval.Models.{
  RetrievedUnit, GraphPath, PlanExecutionResult, PlanReasonCode, reason_code_value, RelationGoal,
  relation_goal_value,
}
use legal_graphrag_platform.Retrieval.Models.Context.{Detail, Metric}
use legal_graphrag_platform.Retrieval.Decision.{
  PreparedRetrievalRequest, anchor_node_ids, GraphExpansion, CanonicalAnchorHydration,
}
use legal_graphrag_platform.Retrieval.Planning.Models.{BoundSemanticPlan}

-- The readings of the clock, in milliseconds.
pub record Latencies : Type 0 where
  pub seed : ℕ
  pub graph : ℕ
  pub planned : ℕ
  pub reranker : ℕ
  pub total : ℕ

-- What has been found before the final units are chosen.
pub record Gathered : Type 0 where
  pub hydration : CanonicalAnchorHydration
  pub negative : Bool
  pub seed_results : Dict (List RetrievedUnit)
  pub seed_ranked : List RetrievedUnit
  pub expansion : GraphExpansion
  pub planned : Option PlanExecutionResult
  pub graph_paths : List GraphPath

-- The final units and the counts of the metrics.
pub record Chosen : Type 0 where
  pub units : List RetrievedUnit
  pub fused_count : ℕ
  pub filtered_count : ℕ

abbrev pub count_metric : ℕ → Metric
count_metric n = Metric.plain (Detail.count n)

abbrev pub units_of : String → Dict (List RetrievedUnit) → List RetrievedUnit
units_of name results = elim (lookup name results) [ none ↦ [] | some units ↦ units ]

abbrev pub goal_metric : Option RelationGoal → Metric
goal_metric none = Metric.plain Detail.null
goal_metric (some goal) = Metric.plain (Detail.text (relation_goal_value goal))

abbrev pub reason_metric : Option PlanExecutionResult → Option PlanReasonCode → Metric
reason_metric (some r) binding = Metric.plain (Detail.text (reason_code_value r.reason_code))
reason_metric none (some reason) = Metric.plain (Detail.text (reason_code_value reason))
reason_metric none none = Metric.plain (Detail.text "NOT_PROVIDED")

-- `metrics`
unfoldable pub runtime_metrics :
    PreparedRetrievalRequest
    → Option BoundSemanticPlan
    → Option PlanReasonCode
    → Latencies
    → Gathered
    → Chosen
    → Dict Metric
unfolding lookup relation_goal_value reason_code_value
runtime_metrics prepared bound_plan binding_reason_code latencies g chosen =
    let decision = prepared.routing.decision in
    let context = prepared.execution_context in
    ("seed_channel_count", count_metric (length g.seed_results))
    ∷ ("vector_hits", count_metric (length (units_of "vector" g.seed_results)))
    ∷ ("fulltext_hits", count_metric (length (units_of "fulltext" g.seed_results)))
    ∷ ("seed_fused_count", count_metric (length g.seed_ranked))
    ∷ (
      "graph_expansion_count",
      count_metric (if decision.graph_enabled && not g.negative then 1 else 0),
    )
    ∷ ("direct_negative_validity", Metric.plain (Detail.flag g.negative))
    ∷ ("graph_paths_count", count_metric (length g.graph_paths))
    ∷ ("generic_graph_paths_count", count_metric (length g.expansion.paths))
    ∷ ("graph_units_count", count_metric (length g.expansion.units))
    ∷ ("resolved_reference_count", count_metric (length context.resolved_references))
    ∷ ("canonical_anchor_count", count_metric (length (anchor_node_ids context)))
    ∷ ("canonical_anchor_hydrated_count", count_metric (length g.hydration.matched_anchor_ids))
    ∷ ("relation_goal", goal_metric context.relation_goal)
    ∷ (
      "graph_temporal_rejected_path_count",
      count_metric g.expansion.diagnostics.temporal_rejected_path_count,
    )
    ∷ ("graph_malformed_path_count", count_metric g.expansion.diagnostics.malformed_path_count)
    ∷ ("temporal_filtered_count", count_metric (chosen.fused_count - chosen.filtered_count))
    ∷ ("seed_latency_ms", count_metric latencies.seed)
    ∷ ("graph_latency_ms", count_metric latencies.graph)
    ∷ ("prepare_latency_ms", count_metric prepared.prepare_latency_ms)
    ∷ ("planned_execution_count", count_metric (if is_some bound_plan then 1 else 0))
    ∷ ("planned_execution_latency_ms", count_metric latencies.planned)
    ∷ ("planned_execution_reason_code", reason_metric g.planned binding_reason_code)
    ∷ ("reranker_latency_ms", count_metric latencies.reranker)
    ∷ ("total_pipeline_latency_ms", count_metric (prepared.prepare_latency_ms + latencies.total))
    ∷ []
