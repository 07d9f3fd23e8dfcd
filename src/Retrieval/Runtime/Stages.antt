-- ===== src/Retrieval/Runtime/Stages.antt =====
-- The stages that a retrieval of runtime.py has gone through when it returns.
use legal_graphrag_platform.Base.{
  ◌∙◌, List, Option, String, [], ap, is_some, not, subset, sym, true, ◌&&◌, ◌≡◌,
}
use legal_graphrag_platform.Base.Result.{>>=-eq-ok, guard-bind-ok, not-eq-false, ok, ok_inj}
use mathlib.Core.List.{◌++◌ as ◌⧺◌}
use legal_graphrag_platform.Retrieval.GraphPaths.{ranked_paths}
use legal_graphrag_platform.Retrieval.TemporalFilter.{filter_temporal}
use legal_graphrag_platform.Retrieval.Models.{RetrievedUnit, PlanReasonCode}
use legal_graphrag_platform.Retrieval.Models.Context.{RetrievalContext}
use legal_graphrag_platform.Retrieval.Decision.{
  CanonicalAnchorHydration, PreparedRetrievalRequest, anchor_node_ids,
}
use legal_graphrag_platform.Retrieval.Fusion.{fuse_channels, FloatArithmetic}
use legal_graphrag_platform.Retrieval.Planning.Models.{BoundSemanticPlan}
use legal_graphrag_platform.Retrieval.ContextBuilder.{build_context}
use legal_graphrag_platform.Retrieval.Runtime.{
  validate_planned_path_membership, execute_seeds, validate_legal_capability, pin_required_units,
  is_multi_hop, hydrate, canonical_identity_filters,
}
use legal_graphrag_platform.Retrieval.Runtime.Execute.{
  needed_capability, is_negative, gather_with, run_planned, final_channels, expand_unless,
  required_units_of, rank_final, Runtime, gather, choose, execute,
}
use legal_graphrag_platform.Retrieval.Runtime.Metrics.{Latencies, Gathered, Chosen}

-- What the anchors of a request are after it has been gathered for.
pub record IsHydrated (runtime : Runtime) (prepared : PreparedRetrievalRequest) (g : Gathered)
    : Type 0 where
  pub hydrated :
      hydrate runtime.graph
        (anchor_node_ids prepared.execution_context)
        (canonical_identity_filters prepared.routing.filters)
      ≡ ok g.hydration
  pub matched :
      subset (anchor_node_ids prepared.execution_context) g.hydration.matched_anchor_ids ≡ true

-- What `execute` has returned.
pub record Execution (sha256_hex : String → String) (floats : FloatArithmetic) (runtime : Runtime)
    (prepared : PreparedRetrievalRequest) (bound_plan : Option BoundSemanticPlan)
    (context : RetrievalContext) : Type 0 where
  pub gathered : Gathered
  pub chosen : Chosen
  pub gathers : gather sha256_hex floats runtime prepared bound_plan ≡ ok gathered
  pub chooses : choose sha256_hex floats runtime prepared gathered ≡ ok chosen
  pub units : context.retrieved_units ≡ chosen.units
  pub paths : context.graph_paths ≡ gathered.graph_paths

module _ (sha256_hex : String → String) (floats : FloatArithmetic) (runtime : Runtime)
    (prepared : PreparedRetrievalRequest) (bound_plan : Option BoundSemanticPlan) where
  pub execute-Execution :
      (latencies : Latencies) (reason : Option PlanReasonCode) (context : RetrievalContext)
      → execute sha256_hex floats runtime latencies prepared bound_plan reason ≡ ok context
      → Execution sha256_hex floats runtime prepared bound_plan context
  unfolding execute build_context
  execute-Execution latencies reason context e =
      let (g, e₁, e₂) = >>=-eq-ok (gather sha256_hex floats runtime prepared bound_plan) _ e in
      let (c, e₃, e₄) = >>=-eq-ok (choose sha256_hex floats runtime prepared g) _ e₂ in
      record {
        gathered = g;
        chosen = c;
        gathers = e₁;
        chooses = e₃;
        units = ap (λ (x : RetrievalContext). x.retrieved_units) (sym (ok_inj e₄));
        paths = ap (λ (x : RetrievalContext). x.graph_paths) (sym (ok_inj e₄));
      }

  gather_with-hydration :
      (hydration : CanonicalAnchorHydration) (g : Gathered)
      → gather_with sha256_hex floats runtime prepared bound_plan hydration ≡ ok g
      → hydration ≡ g.hydration
  unfolding gather_with
  gather_with-hydration hydration g e =
      let decision = prepared.routing.decision in
      let filters = prepared.routing.filters in
      let negative = is_negative sha256_hex floats prepared hydration in
      let (c, _, e₁) = >>=-eq-ok (runtime.inspect_capabilities filters) _ e in
      let (_, _, e₂) =
        >>=-eq-ok (validate_legal_capability (needed_capability negative decision) c) _ e₁ in
      let (seeds, _, e₃) =
        >>=-eq-ok
          (execute_seeds runtime.seeds prepared.request.query filters decision.candidate_k []
            decision.seed_channels)
          _ e₂ in
      let (ranked, _, e₄) =
        >>=-eq-ok (fuse_channels floats runtime.rrf_k seeds decision.candidate_k) _ e₃ in
      let (x, _, e₅) =
        >>=-eq-ok (expand_unless sha256_hex floats negative runtime prepared ranked) _ e₄ in
      let (planned, _, e₆) =
        >>=-eq-ok (run_planned runtime.planned_executor bound_plan filters) _ e₅ in
      let (paths, _, e₇) = >>=-eq-ok (ranked_paths sha256_hex (x.paths ⧺ planned.paths)) _ e₆ in
      let (_, _, e₈) =
        >>=-eq-ok (validate_planned_path_membership sha256_hex planned.execution paths) _ e₇ in
      ap (λ (y : Gathered). y.hydration) (ok_inj e₈)

  pub gather-IsHydrated :
      (g : Gathered)
      → gather sha256_hex floats runtime prepared bound_plan ≡ ok g
      → IsHydrated runtime prepared g
  unfolding gather
  gather-IsHydrated g e =
      let anchor_ids = anchor_node_ids prepared.execution_context in
      let (a, e₁) =
        guard-bind-ok (is_some bound_plan && not (is_multi_hop prepared.routing.decision.intent)) _
          _ _ e in
      let (hydration, h, e₂) =
        >>=-eq-ok
          (hydrate runtime.graph anchor_ids (canonical_identity_filters prepared.routing.filters)) _
          e₁ in
      let (m, e₃) = guard-bind-ok (not (subset anchor_ids hydration.matched_anchor_ids)) _ _ _ e₂ in
      let same = gather_with-hydration hydration g e₃ in
      rw (← same) (record { hydrated = h; matched = not-eq-false _ m })

-- What `choose` has done: fusion, temporal filter, ranking and pinning.
pub record Choice (sha256_hex : String → String) (floats : FloatArithmetic) (runtime : Runtime)
    (prepared : PreparedRetrievalRequest) (g : Gathered) (c : Chosen) : Type 0 where
  pub fused : List RetrievedUnit
  pub filtered : List RetrievedUnit
  pub ranked : List RetrievedUnit
  pub filters :
      filter_temporal floats.order fused prepared.routing.temporal
        prepared.routing.decision.preserve_versions
      ≡ ok filtered
  pub ranks :
      rank_final floats runtime prepared.routing.decision prepared.request.query filtered
      ≡ ok ranked
  pub pins :
      pin_required_units ranked (required_units_of prepared g) prepared.routing.decision.final_k
      ≡ ok c.units

pub choose-Choice :
    (sha256_hex : String → String) (floats : FloatArithmetic) (runtime : Runtime)
    (prepared : PreparedRetrievalRequest) (g : Gathered) (c : Chosen)
    → choose sha256_hex floats runtime prepared g ≡ ok c
    → Choice sha256_hex floats runtime prepared g c
unfolding choose
choose-Choice sha256_hex floats runtime prepared g c e =
    let decision = prepared.routing.decision in
    let (fused, _, e₂) =
      >>=-eq-ok
        (fuse_channels floats runtime.rrf_k (final_channels decision g) decision.candidate_k) _ e in
    let (filtered, e₃, e₄) =
      >>=-eq-ok
        (filter_temporal floats.order fused prepared.routing.temporal decision.preserve_versions) _
        e₂ in
    let (ranked, e₅, e₆) =
      >>=-eq-ok (rank_final floats runtime decision prepared.request.query filtered) _ e₄ in
    let (units, e₇, e₈) =
      >>=-eq-ok (pin_required_units ranked (required_units_of prepared g) decision.final_k) _ e₆ in
    record {
      fused = fused;
      filtered = filtered;
      ranked = ranked;
      filters = e₃;
      ranks = e₅;
      pins = e₇ ∙ ap (λ (x : Chosen). ok x.units) (ok_inj e₈);
    }
