-- ===== src/Retrieval/Planning/Executor.antt =====
-- src/retrieval/planning/executor.py: `PlannedPathExecutor.execute`.
use legal_graphrag_platform.Base.{
  ℕ, ◌+◌, String, true, ◌&&◌, Option, none, some, List, [], ◌∷◌, map, if◌then◌else◌, ltb, is_empty,
  contains, filter, length,
}
use legal_graphrag_platform.Base.Result.{Result, ok, raise, ◌>>=◌, ◌>>◌, traverse, index_error}
use Prim.Native.String.{◌++◌}
use legal_graphrag_platform.Base.Text.{text_take}
use legal_graphrag_platform.Base.Float.{Float}
use legal_graphrag_platform.Base.Date.{Date}
use legal_graphrag_platform.Base.Json.{compact, dumps}
use legal_graphrag_platform.Retrieval.Models.{
  GraphPath, PlanExecutionResult, RetrievalFilters, PlanExecutionStatus, PlanReasonCode,
}
use legal_graphrag_platform.Retrieval.PathIdentity.{build_topology_path_fingerprint}
use legal_graphrag_platform.Retrieval.GraphPaths.{is_graph_path_temporally_valid, ranked_paths}
use legal_graphrag_platform.Retrieval.PathRows.{map_graph_path}
use legal_graphrag_platform.Retrieval.Planning.{
  PlannedPathLookup, validate_execution_state, validate_all, citable_after, citable_unit_ids_of,
  plan_json, failed_execution,
}
use legal_graphrag_platform.Retrieval.Planning.Models.{
  BoundSemanticPlan, PlannedPathExecution, target_label, semantic_liftable_targets,
}

abbrev pub satisfied_result : BoundSemanticPlan → String → String → PlanExecutionResult
satisfied_result plan plan_fingerprint path_fingerprint = record {
  plan_fingerprint = plan_fingerprint;
  satisfied_path_fingerprints = path_fingerprint ∷ [];
  bound_anchor_id = plan.bound_anchor.node_id;
  bound_target_id = plan.bound_target.node_id;
  execution_status = PlanExecutionStatus.satisfied;
  reason_code = PlanReasonCode.satisfied;
  message = none;
  derived_reasoning_requirement = some (record {
    minimum_edges = length plan.unlinked.steps;
    required_relation_types = map (λ s. s.relation) plan.unlinked.steps;
    require_all_citable_intermediates = true;
  });
}

module _ (sha256_hex : String → String) (float_repr : Float → String) where
  -- `_build_plan_fingerprint`
  unfoldable pub build_plan_fingerprint : BoundSemanticPlan → String
  unfolding dumps text_take
  build_plan_fingerprint plan =
      "plan_" ++ text_take 20 (sha256_hex (dumps compact (plan_json float_repr plan)))

  -- The result on the only path.
  unfoldable pub satisfied_execution :
      BoundSemanticPlan → String → GraphPath → Result PlannedPathExecution
  unfolding citable_after build_topology_path_fingerprint
  satisfied_execution plan plan_fingerprint path = do
    path_fingerprint ← build_topology_path_fingerprint sha256_hex path
    result ← validate_execution_state (satisfied_result plan plan_fingerprint path_fingerprint)
    ok (record {
      result = result;
      paths = path ∷ [];
      path_fingerprints = path_fingerprint ∷ [];
      citable_unit_ids = citable_unit_ids_of path;
    })

  -- What follows the merging of the paths.
  unfoldable pub execute_on :
      BoundSemanticPlan → String → List GraphPath → Result PlannedPathExecution
  unfolding satisfied_execution failed_execution
  execute_on plan plan_fingerprint [] = raise index_error "list index out of range"
  execute_on plan plan_fingerprint (path ∷ other ∷ paths) =
      failed_execution plan plan_fingerprint PlanReasonCode.ambiguous_path
  execute_on plan plan_fingerprint (path ∷ []) =
      if contains semantic_liftable_targets (target_label plan.unlinked.steps)
        && is_empty (citable_unit_ids_of path)
      then failed_execution plan plan_fingerprint PlanReasonCode.evidence_unliftable
      else satisfied_execution plan plan_fingerprint path

  -- What follows the mapping of the rows.
  unfoldable pub execute_mapped :
      BoundSemanticPlan → String → Option Date → List GraphPath → Result PlannedPathExecution
  unfolding execute_on validate_all is_graph_path_temporally_valid ranked_paths
  execute_mapped plan plan_fingerprint query_date mapped_paths = do
    validate_all plan mapped_paths
    let temporal_paths = filter (λ p. is_graph_path_temporally_valid p query_date) mapped_paths
    if is_empty temporal_paths
        then failed_execution plan plan_fingerprint PlanReasonCode.temporal_rejected
        else (do
          paths ← ranked_paths sha256_hex temporal_paths
          execute_on plan plan_fingerprint paths)

  -- `PlannedPathExecutor.execute`
  unfoldable pub execute :
      PlannedPathLookup → ℕ → BoundSemanticPlan → RetrievalFilters → Result PlannedPathExecution
  unfolding build_plan_fingerprint execute_mapped failed_execution map_graph_path
  execute lookup_exact_paths max_paths plan filters = do
    let plan_fingerprint = build_plan_fingerprint plan
    rows ←
        lookup_exact_paths plan.bound_anchor.node_id plan.bound_target.node_id plan.unlinked.steps
          filters (max_paths + 1)
    if ltb max_paths (length rows)
        then failed_execution plan plan_fingerprint PlanReasonCode.path_budget_exceeded
        else if is_empty rows
        then failed_execution plan plan_fingerprint PlanReasonCode.no_path
        else (do
          mapped_paths ← traverse map_graph_path rows
          execute_mapped plan plan_fingerprint filters.query_date mapped_paths)
