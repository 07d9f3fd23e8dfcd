-- ===== src/Retrieval/Decision.antt =====
-- The requests, decisions and results that retrieval's own stages pass on: the rest of
-- src/retrieval/models.py, src/shared/retrieval_contract.py and
-- src/retrieval/resolved_reference.py.
use legal_graphrag_platform.Base.{ℕ, String, Bool, Option, List, [], map, first_occurrence}
use legal_graphrag_platform.Retrieval.Models.{
  IntentType, RetrievalStrategyType, RetrievalChannel, TemporalSource, RetrievalDecisionReasonCode,
  RetrievalFilters, TemporalQuery, RetrievedUnit, GraphPath, ResolvedReference, RelationGoal,
}

pub data RetrievalCapability : Type 0 where
  hybrid_seed_and_semantic_graph lexical_definition : RetrievalCapability
  semantic_multi_hop_graph scoped_temporal_metadata : RetrievalCapability
  corpus_complete_current_validity version_chain_validity : RetrievalCapability
  structural_hierarchy guides_relations multiple_versions : RetrievalCapability

-- `capability.value`
abbrev pub capability_value : RetrievalCapability → String
capability_value RetrievalCapability.hybrid_seed_and_semantic_graph =
    "hybrid_seed_and_semantic_graph"
capability_value RetrievalCapability.lexical_definition = "lexical_definition"
capability_value RetrievalCapability.semantic_multi_hop_graph = "semantic_multi_hop_graph"
capability_value RetrievalCapability.scoped_temporal_metadata = "scoped_temporal_metadata"
capability_value RetrievalCapability.corpus_complete_current_validity =
    "corpus_complete_current_validity"
capability_value RetrievalCapability.version_chain_validity = "version_chain_validity"
capability_value RetrievalCapability.structural_hierarchy = "structural_hierarchy"
capability_value RetrievalCapability.guides_relations = "guides_relations"
capability_value RetrievalCapability.multiple_versions = "multiple_versions"

-- `channel.value`
abbrev pub channel_value : RetrievalChannel → String
channel_value RetrievalChannel.vector = "vector"
channel_value RetrievalChannel.fulltext = "fulltext"
channel_value RetrievalChannel.graph = "graph"

pub record RetrievalRequest : Type 0 where
  pub contract_version : String
  pub query : String
  pub filters : RetrievalFilters
  pub top_k : Option ℕ
  pub final_k : Option ℕ
  pub force_intent : Option IntentType
  pub enable_reranker : Option Bool

pub record RetrievalDecision : Type 0 where
  pub contract_version : String
  pub intent : IntentType
  pub strategy : RetrievalStrategyType
  pub seed_channels : List RetrievalChannel
  pub graph_enabled : Bool
  pub graph_policy_intent : Option IntentType
  pub candidate_k : ℕ
  pub graph_entry_k : ℕ
  pub final_k : ℕ
  pub apply_temporal_filter : Bool
  pub preserve_versions : Bool
  pub require_temporal_point : Bool
  pub enable_reranker : Bool
  pub force_intent_used : Bool
  pub temporal_source : TemporalSource
  pub decision_reason_code : RetrievalDecisionReasonCode
  pub decision_reason : String
  pub required_capability : Option RetrievalCapability

pub record RoutingResult : Type 0 where
  pub decision : RetrievalDecision
  pub temporal : TemporalQuery
  pub filters : RetrievalFilters

pub record RetrievalExecutionContext : Type 0 where
  pub resolved_references : List ResolvedReference
  pub relation_goal : Option RelationGoal

-- `anchor_node_ids`
abbrev pub anchor_node_ids : RetrievalExecutionContext → List String
anchor_node_ids c = first_occurrence (map (λ r. r.node_id) c.resolved_references)

pub record PreparedRetrievalRequest : Type 0 where
  pub request : RetrievalRequest
  pub routing : RoutingResult
  pub execution_context : RetrievalExecutionContext
  pub prepare_latency_ms : ℕ

pub record CapabilitySnapshot : Type 0 where
  pub vector_appendix_index_available : Bool
  pub vector_article_index_available : Bool
  pub vector_clause_index_available : Bool
  pub fulltext_index_available : Bool
  pub scoped_temporal_metadata_available : Bool
  pub corpus_complete_current_validity_available : Bool
  pub temporal_relations_available : Bool
  pub structural_hierarchy_available : Bool
  pub guides_relations_available : Bool
  pub multiple_versions_available : Bool
  pub definition_relations_available : Bool
  pub semantic_multi_hop_graph_available : Bool
  pub canonical_relation_types_available : List String

pub record GraphExpansionDiagnostics : Type 0 where
  pub accepted_path_count : ℕ
  pub temporal_rejected_path_count : ℕ
  pub malformed_path_count : ℕ

pub record GraphExpansion : Type 0 where
  pub paths : List GraphPath
  pub units : List RetrievedUnit
  pub diagnostics : GraphExpansionDiagnostics

-- `GraphExpansion()`
abbrev pub no_expansion : GraphExpansion
no_expansion = record {
  paths = [];
  units = [];
  diagnostics = record {
    accepted_path_count = 0;
    temporal_rejected_path_count = 0;
    malformed_path_count = 0;
  };
}

pub record CanonicalAnchorHydration : Type 0 where
  pub matched_anchor_ids : List String
  pub units : List RetrievedUnit

-- `CanonicalAnchorHydration()`
abbrev pub no_hydration : CanonicalAnchorHydration
no_hydration = record { matched_anchor_ids = []; units = [] }
