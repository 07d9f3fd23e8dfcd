-- ===== src/Retrieval/Runtime/Anchored.antt =====
-- What a retrieval guarantees of the anchors of its question.
use legal_graphrag_platform.Retrieval.Runtime.Stages.{
  execute-Execution, gather-IsHydrated, choose-Choice,
}
use legal_graphrag_platform.Base.{Option, String, contains, length, map, subset, true, ◌≡◌, ◌≤◌}
use legal_graphrag_platform.Base.Result.{ok}
use legal_graphrag_platform.Retrieval.Runtime.Pinned.{required-has_anchor, pin_required_units-keeps}
use legal_graphrag_platform.Retrieval.Models.{PlanReasonCode}
use legal_graphrag_platform.Retrieval.Models.Context.{RetrievalContext}
use legal_graphrag_platform.Retrieval.Decision.{
  CanonicalAnchorHydration, PreparedRetrievalRequest, anchor_node_ids,
}
use legal_graphrag_platform.Retrieval.Fusion.{FloatArithmetic}
use legal_graphrag_platform.Retrieval.Planning.Models.{BoundSemanticPlan}
use legal_graphrag_platform.Retrieval.Runtime.{hydrate, canonical_identity_filters}
use legal_graphrag_platform.Retrieval.Runtime.Execute.{required_units_of, Runtime, choose, execute}
use legal_graphrag_platform.Retrieval.Runtime.Metrics.{Latencies, Gathered, Chosen}

choose-pins :
    (sha256_hex : String → String) (floats : FloatArithmetic) (runtime : Runtime)
    (prepared : PreparedRetrievalRequest) (g : Gathered) (c : Chosen)
    → choose sha256_hex floats runtime prepared g ≡ ok c
    → (length c.units ≤ prepared.routing.decision.final_k)
      × ((id : String)
          → contains (map (λ u. u.id) (required_units_of prepared g)) id ≡ true
          → contains (map (λ u. u.id) c.units) id ≡ true)
choose-pins sha256_hex floats runtime prepared g c e =
    let x = choose-Choice sha256_hex floats runtime prepared g c e in
    pin_required_units-keeps x.ranked (required_units_of prepared g)
      prepared.routing.decision.final_k c.units x.pins

-- The final units of a context, as far as the anchors of the request go.
pub record IsAnchored (runtime : Runtime) (prepared : PreparedRetrievalRequest)
    (context : RetrievalContext) : Type 0 where
  pub hydration : CanonicalAnchorHydration
  pub hydrated :
      hydrate runtime.graph
        (anchor_node_ids prepared.execution_context)
        (canonical_identity_filters prepared.routing.filters)
      ≡ ok hydration
  pub matched :
      subset (anchor_node_ids prepared.execution_context) hydration.matched_anchor_ids ≡ true
  pub within : length context.retrieved_units ≤ prepared.routing.decision.final_k
  pub retained :
      (id : String)
      → contains (map (λ u. u.id) hydration.units) id ≡ true
      → contains (map (λ u. u.id) context.retrieved_units) id ≡ true

module _ (sha256_hex : String → String) (floats : FloatArithmetic) (runtime : Runtime)
    (latencies : Latencies) (prepared : PreparedRetrievalRequest)
    (bound_plan : Option BoundSemanticPlan) (reason : Option PlanReasonCode)
    (context : RetrievalContext) where
  -- If a retrieval returns a context, then the graph has matched every anchor of the request, the
  -- context has at most `final_k` units, and it has a unit for each unit that the anchors were
  -- hydrated to, however low the ranking put them.
  pub execute-IsAnchored :
      execute sha256_hex floats runtime latencies prepared bound_plan reason ≡ ok context
      → IsAnchored runtime prepared context
  execute-IsAnchored e =
      let x =
        execute-Execution sha256_hex floats runtime prepared bound_plan latencies reason context
          e in
      let g = x.gathered in
      let h = gather-IsHydrated sha256_hex floats runtime prepared bound_plan g x.gathers in
      let (within, pins) = choose-pins sha256_hex floats runtime prepared g x.chosen x.chooses in
      record {
        hydration = g.hydration;
        hydrated = h.hydrated;
        matched = h.matched;
        within = rw x.units within;
        retained = λ id k. rw x.units (
            pins id (
              required-has_anchor g.hydration.units g.expansion.units g.graph_paths
                (anchor_node_ids prepared.execution_context)
                prepared.execution_context.relation_goal id k));
      }
