-- ===== src/Retrieval/Models/Context.antt =====
-- src/retrieval/models.py: the context that retrieval hands to generation.
use legal_graphrag_platform.Retrieval.Models.{
  RelationGoal, ResolvedReference, EvidenceItem, GraphPath, RetrievedUnit, PlanExecutionResult,
  GraphReasoningRequirement, RetrievalFilters, RetrievalChannel, RetrievalDecisionReasonCode,
  TemporalSource, TemporalQuery, RetrievalStrategyType, IntentType,
}
use legal_graphrag_platform.Base.{ℕ, String, Bool, Option, List}
use legal_graphrag_platform.Base.Dict.{Dict}

pub data CapabilityStatus : Type 0 where
  supported no_results : CapabilityStatus

pub data RetrievalMode : Type 0 where
  vector_only vector_graph fulltext_only hybrid no_results : RetrievalMode

-- The values of the `metrics` dictionary: JSON values, and one level of nested dictionaries.
pub data Detail : Type 0 where
  null : Detail
  count : ℕ → Detail
  flag : Bool → Detail
  text : String → Detail
  texts : List String → Detail
  counts : Dict ℕ → Detail

pub data Metric : Type 0 where
  plain : Detail → Metric
  group : Dict Detail → Metric

pub record RetrievalContext : Type 0 where
  pub contract_version : String
  pub query : String
  pub intent : IntentType
  pub strategy : RetrievalStrategyType
  pub temporal : TemporalQuery
  pub temporal_source : TemporalSource
  pub decision_reason_code : RetrievalDecisionReasonCode
  pub decision_reason : String
  pub force_intent_used : Bool
  pub executed_channels : List RetrievalChannel
  pub filters_applied : RetrievalFilters
  pub reranker_applied : Bool
  pub capability_status : CapabilityStatus
  pub reasoning_requirement : Option GraphReasoningRequirement
  pub plan_execution : Option PlanExecutionResult
  pub retrieved_units : List RetrievedUnit
  pub graph_paths : List GraphPath
  pub evidence : List EvidenceItem
  pub metrics : Dict Metric
  pub retrieval_mode : RetrievalMode
  pub confidence_penalty : Bool
  pub resolved_references : List ResolvedReference
  pub relation_goal : Option RelationGoal
