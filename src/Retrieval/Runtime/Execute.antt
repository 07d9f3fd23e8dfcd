-- ===== src/Retrieval/Runtime/Execute.antt =====
-- src/retrieval/runtime/runtime.py: `RetrievalRuntime.execute`, which gathers the seeds, the graph's
-- units and the planned paths, chooses the final units and builds the context.
use legal_graphrag_platform.Base.{
  Bool, List, Option, String, [], false, first_occurrence, if◌then◌else◌, is_some, length, map,
  none, not, some, subset, take, true, ℕ, ◌&&◌, ◌∷◌,
}
use legal_graphrag_platform.Base.Result.{
  Result, canonical_reference_unavailable_error, fail_if, ok, raise, retrieval_dependency_error,
  retrieval_request_error, ◌>>=◌, ◌>>◌,
}
use mathlib.Core.List.{◌++◌ as ◌⧺◌}
use legal_graphrag_platform.Base.Dict.{Dict, insert}
use legal_graphrag_platform.Base.Sort.{sort_by}
use legal_graphrag_platform.Retrieval.Models.{
  RetrievalChannel, RetrievalFilters, RetrievedUnit, GraphPath, PlanExecutionResult, PlanReasonCode,
}
use legal_graphrag_platform.Retrieval.Models.Context.{RetrievalContext}
use legal_graphrag_platform.Retrieval.Decision.{
  RetrievalCapability, RetrievalDecision, CapabilitySnapshot, PreparedRetrievalRequest,
  anchor_node_ids, GraphExpansion, no_expansion, CanonicalAnchorHydration,
}
use legal_graphrag_platform.Retrieval.Fusion.{FloatArithmetic, fuse_channels, fused_le}
use legal_graphrag_platform.Retrieval.TemporalFilter.{filter_temporal}
use legal_graphrag_platform.Retrieval.GraphPaths.{ranked_paths}
use legal_graphrag_platform.Retrieval.Planning.Models.{BoundSemanticPlan, PlannedPathExecution}
use legal_graphrag_platform.Retrieval.ContextBuilder.{build_context}
use legal_graphrag_platform.Retrieval.Runtime.{
  SeedExecutor, execute_seeds, GraphChannel, hydrate, expand_once, merge_units,
  required_canonical_units, pin_required_units, validate_legal_capability,
  canonical_identity_filters, has_decisive_negative_validity, is_multi_hop,
  validate_planned_path_membership,
}
use legal_graphrag_platform.Retrieval.Runtime.Metrics.{Latencies, Gathered, Chosen, runtime_metrics}

abbrev pub Reranker : Type 0
Reranker = String → List RetrievedUnit → ℕ → Result (List RetrievedUnit)

abbrev pub PlannedExecutor : Type 0
PlannedExecutor = BoundSemanticPlan → RetrievalFilters → Result PlannedPathExecution

-- The parts that `RetrievalRuntime` is made of; `rrf_k` is the constant of its fusion.
pub record Runtime : Type 0 where
  pub seeds : SeedExecutor
  pub graph : Option GraphChannel
  pub inspect_capabilities : RetrievalFilters → Result CapabilitySnapshot
  pub rrf_k : ℕ
  pub reranker : Option Reranker
  pub planned_executor : Option PlannedExecutor

pub record PlannedPaths : Type 0 where
  pub execution : Option PlanExecutionResult
  pub paths : List GraphPath

-- The execution of a bound plan, if there is one.
abbrev pub run_planned :
    Option PlannedExecutor → Option BoundSemanticPlan → RetrievalFilters → Result PlannedPaths
run_planned executor none filters = ok (record { execution = none; paths = [] })
run_planned none (some plan) filters =
    raise retrieval_dependency_error
      "A bound semantic plan was provided but no planned executor is configured"
run_planned (some executor) (some plan) filters = do
  planned ← executor plan filters
  ok (record { execution = some planned.result; paths = planned.paths })

abbrev pub needed_capability : Bool → RetrievalDecision → Option RetrievalCapability
needed_capability negative decision =
    if negative
    then some RetrievalCapability.scoped_temporal_metadata
    else decision.required_capability

-- The ranking of the filtered units: by the reranker, or by their fused scores.
abbrev pub rank_by : Option Reranker → String → List RetrievedUnit → ℕ → Result (List RetrievedUnit)
rank_by none query units n =
    raise retrieval_dependency_error "Reranker was requested but no reranker is configured"
rank_by (some rerank) query units n = rerank query units n

unfoldable pub rank_final :
    FloatArithmetic
    → Runtime
    → RetrievalDecision
    → String
    → List RetrievedUnit
    → Result (List RetrievedUnit)
unfolding sort_by fused_le
rank_final floats runtime decision query units =
    if decision.enable_reranker
    then rank_by runtime.reranker query units decision.final_k
    else ok (take decision.final_k (sort_by (fused_le floats.order) units))

abbrev pub final_channels : RetrievalDecision → Gathered → Dict (List RetrievedUnit)
final_channels decision g =
    if decision.graph_enabled
    then insert "graph" (merge_units g.hydration.units g.expansion.units) g.seed_results
    else g.seed_results

abbrev pub required_units_of : PreparedRetrievalRequest → Gathered → List RetrievedUnit
required_units_of prepared g =
    required_canonical_units g.hydration.units g.expansion.units g.graph_paths
      (anchor_node_ids prepared.execution_context) prepared.execution_context.relation_goal

module _ (sha256_hex : String → String) (floats : FloatArithmetic) where
  -- The expansion, which a decisive negative answer does without.
  abbrev pub expand_unless :
      Bool → Runtime → PreparedRetrievalRequest → List RetrievedUnit → Result GraphExpansion
  expand_unless true runtime prepared seed_ranked = ok no_expansion
  expand_unless false runtime prepared seed_ranked =
      let decision = prepared.routing.decision in
      expand_once runtime.graph decision
        (first_occurrence (
          anchor_node_ids prepared.execution_context
          ⧺ map (λ u. u.id) (take decision.graph_entry_k seed_ranked)))
        prepared.routing.filters prepared.execution_context.relation_goal

  abbrev pub is_negative : PreparedRetrievalRequest → CanonicalAnchorHydration → Bool
  is_negative prepared hydration =
      has_decisive_negative_validity prepared.routing.decision.intent
        prepared.routing.temporal.resolved_from (anchor_node_ids prepared.execution_context)
        hydration.units

  -- The seeds, the expansion and the planned paths, once the anchors are hydrated.
  unfoldable pub gather_with :
      Runtime
      → PreparedRetrievalRequest
      → Option BoundSemanticPlan
      → CanonicalAnchorHydration
      → Result Gathered
  unfolding execute_seeds expand_once has_decisive_negative_validity fuse_channels ranked_paths
  gather_with runtime prepared bound_plan hydration = do
    let decision = prepared.routing.decision
    let filters = prepared.routing.filters
    let negative = is_negative prepared hydration
    capabilities ← runtime.inspect_capabilities filters
    validate_legal_capability (needed_capability negative decision) capabilities
    seed_results ←
        execute_seeds runtime.seeds prepared.request.query filters decision.candidate_k []
          decision.seed_channels
    seed_ranked ← fuse_channels floats runtime.rrf_k seed_results decision.candidate_k
    expansion ← expand_unless negative runtime prepared seed_ranked
    planned ← run_planned runtime.planned_executor bound_plan filters
    graph_paths ← ranked_paths sha256_hex (expansion.paths ⧺ planned.paths)
    validate_planned_path_membership sha256_hex planned.execution graph_paths
    ok (record {
      hydration = hydration;
      negative = negative;
      seed_results = seed_results;
      seed_ranked = seed_ranked;
      expansion = expansion;
      planned = planned.execution;
      graph_paths = graph_paths;
    })

  -- The first half of `execute`, down to the check of the planned paths.
  unfoldable pub gather :
      Runtime → PreparedRetrievalRequest → Option BoundSemanticPlan → Result Gathered
  unfolding gather_with
  gather runtime prepared bound_plan = do
    let anchor_ids = anchor_node_ids prepared.execution_context
    fail_if (is_some bound_plan && not (is_multi_hop prepared.routing.decision.intent))
        retrieval_request_error "A bound semantic plan may only execute for multi-hop retrieval"
    hydration ←
        hydrate runtime.graph anchor_ids (canonical_identity_filters prepared.routing.filters)
    fail_if (not (subset anchor_ids hydration.matched_anchor_ids))
        canonical_reference_unavailable_error
        "Resolved canonical reference is unavailable under active filters"
    gather_with runtime prepared bound_plan hydration

  -- The second half: fusion with the graph, temporal filter, ranking and pinning.
  unfoldable pub choose : Runtime → PreparedRetrievalRequest → Gathered → Result Chosen
  unfolding fuse_channels filter_temporal rank_final required_canonical_units pin_required_units
      merge_units insert
  choose runtime prepared g = do
    let decision = prepared.routing.decision
    fused ← fuse_channels floats runtime.rrf_k (final_channels decision g) decision.candidate_k
    filtered ←
        filter_temporal floats.order fused prepared.routing.temporal decision.preserve_versions
    ranked ← rank_final floats runtime decision prepared.request.query filtered
    units ← pin_required_units ranked (required_units_of prepared g) decision.final_k
    ok (record { units = units; fused_count = length fused; filtered_count = length filtered })

abbrev pub executed_channels_of : RetrievalDecision → List RetrievalChannel
executed_channels_of decision =
    if decision.graph_enabled
    then decision.seed_channels ⧺ RetrievalChannel.graph ∷ []
    else decision.seed_channels

-- `RetrievalRuntime.execute`
unfoldable pub execute :
    (String → String)
    → FloatArithmetic
    → Runtime
    → Latencies
    → PreparedRetrievalRequest
    → Option BoundSemanticPlan
    → Option PlanReasonCode
    → Result RetrievalContext
unfolding gather choose runtime_metrics build_context
execute sha256_hex floats runtime latencies prepared bound_plan binding_reason_code = do
  g ← gather sha256_hex floats runtime prepared bound_plan
  chosen ← choose sha256_hex floats runtime prepared g
  let decision = prepared.routing.decision
  ok (
      build_context
        (record {
          query = prepared.request.query;
          intent = decision.intent;
          temporal = prepared.routing.temporal;
          units = chosen.units;
          graph_paths = g.graph_paths;
          metrics = runtime_metrics prepared bound_plan binding_reason_code latencies g chosen;
          filters = some prepared.routing.filters;
          executed_channels = executed_channels_of decision;
          reranker_applied = decision.enable_reranker;
          plan_execution = g.planned;
          resolved_references = prepared.execution_context.resolved_references;
          relation_goal = prepared.execution_context.relation_goal;
        })
        (some decision))
