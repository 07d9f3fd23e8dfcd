-- ===== src/Retrieval/Runtime.antt =====
-- src/retrieval/runtime/runtime.py: the steps of `RetrievalRuntime.execute`, and
-- `SeedChannelExecutor` of src/retrieval/retriever/hybrid.py.
pub mod Metrics
pub mod Execute
pub mod Stages
pub mod Dates
pub mod Anchored
pub mod Planned
pub mod Pinned
pub mod Retrieve
use legal_graphrag_platform.Base.{
  ℕ, zero, suc, ◌+◌, ◌-◌, ◌≤◌, ◌<◌, String, ◌≡◌, refl, sym, ap, ◌∙◌, ◌≢◌, ◌⊎◌, inl, inr, Bool, true,
  false, not, ◌&&◌, ◌||◌, Option, none, some, List, [], ◌∷◌, map, if◌then◌else◌, leb, ltb, eqb,
  is_some, is_none, is_empty, contains, unique, All, Member, arith, flat_map, ◌==◌, Bool-cases,
  eq_iff, eq_refl, any, all, filter, subset, length, take, first_occurrence, filter_map,
}
use legal_graphrag_platform.Base.Result.{
  Result, ok, err, raise, fail_if, of_option, ◌>>=◌, ◌>>◌, traverse, >>=-eq-ok, of_option-bind-ok,
  guard-bind-ok, ok_inj, retrieval_request_error, retrieval_execution_error,
  retrieval_dependency_error, retrieval_capability_error, retrieval_output_error,
}
use Prim.Native.String.{◌++◌}
use mathlib.Core.List.{◌++◌ as ◌⧺◌}
use legal_graphrag_platform.Base.Date.{Date}
use legal_graphrag_platform.Base.Dict.{Dict, lookup, insert, set_default, index_by}
use legal_graphrag_platform.Retrieval.Models.{
  IntentType, RetrievalChannel, RetrievalFilters, RetrievedUnit, GraphPath, GraphEdge,
  PlanExecutionResult, PlanExecutionStatus, RelationGoal, relation_goal_value,
}
use legal_graphrag_platform.Retrieval.PathIdentity.{build_topology_path_fingerprint}
use legal_graphrag_platform.Retrieval.Decision.{
  RetrievalCapability, capability_value, channel_value, RetrievalDecision, CapabilitySnapshot,
  GraphExpansion, no_expansion, CanonicalAnchorHydration, no_hydration,
}

-- A seed channel: query, filters and number of units.
abbrev pub SeedChannel : Type 0
SeedChannel = String → RetrievalFilters → ℕ → Result (List RetrievedUnit)

-- `GraphChannelPort`
pub record GraphChannel : Type 0 where
  pub hydrate_anchors : List String → RetrievalFilters → Result CanonicalAnchorHydration
  pub expand :
      List String → IntentType → RetrievalFilters → Option RelationGoal → Result GraphExpansion

-- The channels of `SeedChannelExecutor`, each of which may not be configured
pub record SeedExecutor : Type 0 where
  pub vector : Option SeedChannel
  pub fulltext : Option SeedChannel

abbrev pub run_channel :
    Option SeedChannel → String → String → RetrievalFilters → ℕ → Result (List RetrievedUnit)
run_channel none missing query filters k = raise retrieval_execution_error missing
run_channel (some channel) missing query filters k = channel query filters k

abbrev pub run_seed :
    SeedExecutor → RetrievalChannel → String → RetrievalFilters → ℕ → Result (List RetrievedUnit)
run_seed seeds RetrievalChannel.vector query filters k =
    run_channel seeds.vector "Vector channel is not configured" query filters k
run_seed seeds RetrievalChannel.fulltext query filters k =
    run_channel seeds.fulltext "Full-text channel is not configured" query filters k
run_seed seeds RetrievalChannel.graph query filters k =
    raise retrieval_execution_error "GRAPH is not a valid seed retrieval channel"

-- The loop of `SeedChannelExecutor.execute`; a channel's key is its value.
unfoldable pub execute_seeds :
    SeedExecutor
    → String
    → RetrievalFilters
    → ℕ
    → Dict (List RetrievedUnit)
    → List RetrievalChannel
    → Result (Dict (List RetrievedUnit))
unfolding insert
execute_seeds seeds query filters k results [] = ok results
execute_seeds seeds query filters k results (channel ∷ channels) = do
  units ← run_seed seeds channel query filters k
  execute_seeds seeds query filters k (insert (channel_value channel) units results) channels

-- `_hydrate_anchors`
abbrev pub hydrate :
    Option GraphChannel → List String → RetrievalFilters → Result CanonicalAnchorHydration
hydrate graph [] filters = ok no_hydration
hydrate none (id ∷ ids) filters =
    raise retrieval_dependency_error "Canonical references require the graph retrieval channel"
hydrate (some channel) (id ∷ ids) filters = channel.hydrate_anchors (id ∷ ids) filters

abbrev pub expand_with :
    Option GraphChannel
    → Option IntentType
    → List String
    → RetrievalFilters
    → Option RelationGoal
    → Result GraphExpansion
expand_with (some channel) (some intent) entry_ids filters goal =
    channel.expand entry_ids intent filters goal
expand_with _ _ entry_ids filters goal =
    raise retrieval_dependency_error
      "Graph expansion is enabled but no graph retriever is configured"

-- `_expand_once`
unfoldable pub expand_once :
    Option GraphChannel
    → RetrievalDecision
    → List String
    → RetrievalFilters
    → Option RelationGoal
    → Result GraphExpansion
expand_once graph decision entry_ids filters goal =
    if not decision.graph_enabled
    then ok no_expansion
    else expand_with graph decision.graph_policy_intent entry_ids filters goal

unfoldable pub merge_into : Dict RetrievedUnit → List RetrievedUnit → Dict RetrievedUnit
unfolding set_default
merge_into merged [] = merged
merge_into merged (unit ∷ units) = merge_into (set_default unit.id unit merged) units

-- `_merge_units` of two groups
unfoldable pub merge_units : List RetrievedUnit → List RetrievedUnit → List RetrievedUnit
unfolding merge_into
merge_units first second = map (λ e. e.1) (merge_into (merge_into [] first) second)

-- An edge of the relation goal that leaves an anchor.
abbrev pub leaves_anchor : String → List String → GraphEdge → Bool
leaves_anchor goal anchor_ids edge =
    edge.relation_type == goal && contains anchor_ids edge.source_id

abbrev pub path_citable_ids : GraphPath → List String
path_citable_ids path = filter_map (λ n. n.citable_unit_id) path.nodes

-- The identifiers that the paths of the relation goal require.
unfoldable pub goal_ids : Option RelationGoal → List String → List GraphPath → List String
unfolding relation_goal_value
goal_ids none anchor_ids paths = []
goal_ids (some goal) anchor_ids [] = []
goal_ids (some goal) anchor_ids (path ∷ paths) =
    let rest = goal_ids (some goal) anchor_ids paths in
    if any (leaves_anchor (relation_goal_value goal) anchor_ids) path.edges
    then path_citable_ids path ⧺ rest
    else rest

-- `_required_canonical_units`
unfoldable pub required_canonical_units :
    List RetrievedUnit
    → List RetrievedUnit
    → List GraphPath
    → List String
    → Option RelationGoal
    → List RetrievedUnit
unfolding merge_units goal_ids lookup index_by
required_canonical_units anchor_units expansion_units graph_paths anchor_ids goal =
    let required_ids = map (λ u. u.id) anchor_units ⧺ goal_ids goal anchor_ids graph_paths in
    let by_id = index_by (λ u. u.id) (merge_units anchor_units expansion_units) in
    filter_map (λ id. lookup id by_id) (first_occurrence required_ids)

-- `_pin_required_units`
unfoldable pub pin_required_units :
    List RetrievedUnit → List RetrievedUnit → ℕ → Result (List RetrievedUnit)
pin_required_units ranked_units required_units final_k = do
  fail_if (ltb final_k (length required_units)) retrieval_request_error
      "final_k cannot retain all canonical relation evidence"
  let required_ids = map (λ u. u.id) required_units
  ok (take final_k (required_units ⧺ filter (λ u. not (contains required_ids u.id)) ranked_units))

-- `availability`
abbrev pub is_available : CapabilitySnapshot → RetrievalCapability → Bool
is_available c RetrievalCapability.scoped_temporal_metadata = c.scoped_temporal_metadata_available
is_available c RetrievalCapability.corpus_complete_current_validity =
    c.corpus_complete_current_validity_available
is_available c RetrievalCapability.version_chain_validity = c.temporal_relations_available
is_available c RetrievalCapability.structural_hierarchy = c.structural_hierarchy_available
is_available c RetrievalCapability.guides_relations = c.guides_relations_available
is_available c RetrievalCapability.multiple_versions = c.multiple_versions_available
is_available c RetrievalCapability.lexical_definition = c.fulltext_index_available
is_available c RetrievalCapability.semantic_multi_hop_graph = c.semantic_multi_hop_graph_available
is_available c RetrievalCapability.hybrid_seed_and_semantic_graph = false

-- `_validate_legal_capability`
abbrev pub validate_legal_capability :
    Option RetrievalCapability → CapabilitySnapshot → Result (Unit {0})
validate_legal_capability none capabilities = ok tt
validate_legal_capability (some required) capabilities =
    fail_if (not (is_available capabilities required)) retrieval_capability_error
      ("Scoped graph does not provide required capability: " ++ capability_value required)

-- `_canonical_identity_filters`
abbrev pub canonical_identity_filters : RetrievalFilters → RetrievalFilters
canonical_identity_filters filters = record filters { query_date = none; legal_statuses = [] }

-- The unit's interval is known to exclude the date.
abbrev pub excludes_date : Date → RetrievedUnit → Bool
excludes_date d unit = elim unit.effective_from [
  | none ↦ false
  | some from ↦ ltb d from || elim unit.effective_to [ none ↦ false | some to ↦ leb to d ]
]

abbrev pub excludes_by_id : Dict RetrievedUnit → Date → String → Bool
excludes_by_id units d id = elim (lookup id units) [ none ↦ false | some u ↦ excludes_date d u ]

abbrev pub is_validity : IntentType → Bool
is_validity IntentType.validity = true
is_validity _ = false

abbrev pub is_multi_hop : IntentType → Bool
is_multi_hop IntentType.multi_hop = true
is_multi_hop _ = false

-- `_has_decisive_negative_validity`; an anchor without a unit makes it false.
unfoldable pub has_decisive_negative_validity :
    IntentType → Option Date → List String → List RetrievedUnit → Bool
unfolding lookup index_by
has_decisive_negative_validity intent none anchor_ids anchor_units = false
has_decisive_negative_validity intent (some d) anchor_ids anchor_units =
    let units_by_id = index_by (λ u. u.id) anchor_units in
    is_validity intent
    && not (is_empty anchor_ids)
    && all (λ id. is_some (lookup id units_by_id)) anchor_ids
    && all (excludes_by_id units_by_id d) anchor_ids

-- The fingerprints that a satisfied plan names.
abbrev pub promised_fingerprints : Option PlanExecutionResult → Option (List String)
promised_fingerprints none = none
promised_fingerprints (some r) = elim r.execution_status [
  | PlanExecutionStatus.satisfied ↦ some r.satisfied_path_fingerprints
  | PlanExecutionStatus.failed ↦ none
]

module _ (sha256_hex : String → String) where
  abbrev pub check_promised : Option (List String) → List GraphPath → Result (Unit {0})
  check_promised none graph_paths = ok tt
  check_promised (some fingerprints) graph_paths = do
    available ← traverse (build_topology_path_fingerprint sha256_hex) graph_paths
    fail_if (not (all (contains available) fingerprints)) retrieval_output_error
        "Satisfied plan fingerprints are absent from retrieval graph paths"

  -- `_validate_planned_path_membership`
  abbrev pub validate_planned_path_membership :
      Option PlanExecutionResult → List GraphPath → Result (Unit {0})
  validate_planned_path_membership execution graph_paths =
      check_promised (promised_fingerprints execution) graph_paths
