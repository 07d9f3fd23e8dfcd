-- ===== src/Retrieval/Models.antt =====
-- The data of src/retrieval/models.py, src/retrieval/execution_contract.py,
-- src/retrieval/resolved_reference.py and the enumerations of src/shared/retrieval_contract.py.
pub mod Context
use legal_graphrag_platform.Base.{leb, ltb, ◌&&◌, ℕ, String, Bool, Option, List, none, some, false}
use legal_graphrag_platform.Base.Dict.{Dict}
use legal_graphrag_platform.Base.Float.{Float}
use legal_graphrag_platform.Base.Date.{Date}

pub data IntentType : Type 0 where
  factual validity hierarchy comparison definition multi_hop : IntentType

-- `intent.value`
unfoldable pub intent_value : IntentType → String
intent_value IntentType.factual = "factual"
intent_value IntentType.validity = "validity"
intent_value IntentType.hierarchy = "hierarchy"
intent_value IntentType.comparison = "comparison"
intent_value IntentType.definition = "definition"
intent_value IntentType.multi_hop = "multi_hop"

pub data RetrievalStrategyType : Type 0 where
  factual_hybrid definition_graph validity_temporal : RetrievalStrategyType
  hierarchy_graph comparison_temporal multi_hop_hybrid : RetrievalStrategyType

-- `strategy.value`
unfoldable pub strategy_value : RetrievalStrategyType → String
strategy_value RetrievalStrategyType.factual_hybrid = "factual_hybrid"
strategy_value RetrievalStrategyType.definition_graph = "definition_graph"
strategy_value RetrievalStrategyType.validity_temporal = "validity_temporal"
strategy_value RetrievalStrategyType.hierarchy_graph = "hierarchy_graph"
strategy_value RetrievalStrategyType.comparison_temporal = "comparison_temporal"
strategy_value RetrievalStrategyType.multi_hop_hybrid = "multi_hop_hybrid"

pub data TemporalSource : Type 0 where
  none_source request query_expression : TemporalSource
  injected_current_date injected_default_current_date : TemporalSource

-- `temporal_source.value`
unfoldable pub temporal_source_value : TemporalSource → String
temporal_source_value TemporalSource.none_source = "none"
temporal_source_value TemporalSource.request = "request"
temporal_source_value TemporalSource.query_expression = "query_expression"
temporal_source_value TemporalSource.injected_current_date = "injected_current_date"
temporal_source_value TemporalSource.injected_default_current_date = "injected_default_current_date"

pub data RetrievalDecisionReasonCode : Type 0 where
  factual_default explicit_reference_lookup definition_explicit : RetrievalDecisionReasonCode
  validity_explicit_date validity_current_date hierarchy_explicit : RetrievalDecisionReasonCode
  comparison_explicit multi_hop_explicit forced_intent : RetrievalDecisionReasonCode
  intent_classifier_llm : RetrievalDecisionReasonCode

pub data RetrievalChannel : Type 0 where
  vector fulltext graph : RetrievalChannel

pub record TemporalQuery : Type 0 where
  pub has_temporal : Bool
  pub expression : Option String
  pub resolved_from : Option Date
  pub resolved_to : Option Date
  pub granularity : Option String
  pub parse_error : Option String
  pub requests_current_validity : Bool
  pub spans_all_versions : Bool

pub record RetrievalFilters : Type 0 where
  pub document_ids : List String
  pub doc_types : List String
  pub legal_statuses : List String
  pub query_date : Option Date

pub data UnitLabel : Type 0 where
  document appendix article clause point : UnitLabel

pub record RetrievedUnit : Type 0 where
  pub id : String
  pub label : UnitLabel
  pub content_raw : String
  pub title : Option String
  pub document_id : String
  pub document_number : Option String
  pub document_title : Option String
  pub source_url : Option String
  pub article_id : Option String
  pub clause_id : Option String
  pub article_number : Option String
  pub clause_number : Option String
  pub appendix_number : Option String
  pub version_family_id : Option String
  pub effective_from : Option Date
  pub effective_to : Option Date
  pub legal_status : Option String
  pub vector_score : Option Float
  pub bm25_score : Option Float
  pub graph_score : Option Float
  pub rerank_score : Option Float
  pub final_score : Option Float
  pub citation_label : String
  pub deep_link : String
  pub retrieval_sources : List RetrievalChannel

pub record GraphNodeRef : Type 0 where
  pub node_id : String
  pub labels : List String
  pub effective_from : Option Date
  pub effective_to : Option Date
  pub legal_status : Option String
  pub citable_unit_id : Option String

pub record GraphCitationEvidence : Type 0 where
  pub relation_id : String
  pub citation_text : Option String
  pub citation_type : Option String
  pub extraction_method : Option String

pub record GraphEdge : Type 0 where
  pub relation_id : String
  pub relation_type : String
  pub source_id : String
  pub target_id : String
  pub effective_from : Option Date
  pub effective_to : Option Date
  pub citation_evidence : List GraphCitationEvidence

pub record GraphPath : Type 0 where
  pub nodes : List GraphNodeRef
  pub edges : List GraphEdge
  pub path_description : String

pub data EvidenceType : Type 0 where
  vector bm25 graph temporal rerank : EvidenceType

pub record EvidenceItem : Type 0 where
  pub unit_id : String
  pub evidence_type : EvidenceType
  pub matched_text : Option String
  pub score : Option Float
  pub source_path_id : Option String
  pub is_eligible : Bool

pub data PlanExecutionStatus : Type 0 where
  satisfied failed : PlanExecutionStatus

pub data PlanReasonCode : Type 0 where
  satisfied invalid_plan out_of_scope_plan_shape planner_unavailable : PlanReasonCode
  planner_timeout unbound_anchor ambiguous_anchor unbound_target : PlanReasonCode
  ambiguous_target no_path ambiguous_path path_budget_exceeded : PlanReasonCode
  temporal_rejected evidence_unliftable : PlanReasonCode

-- `reason_code.value`
unfoldable pub reason_code_value : PlanReasonCode → String
reason_code_value PlanReasonCode.satisfied = "SATISFIED"
reason_code_value PlanReasonCode.invalid_plan = "INVALID_PLAN"
reason_code_value PlanReasonCode.out_of_scope_plan_shape = "OUT_OF_SCOPE_PLAN_SHAPE"
reason_code_value PlanReasonCode.planner_unavailable = "PLANNER_UNAVAILABLE"
reason_code_value PlanReasonCode.planner_timeout = "PLANNER_TIMEOUT"
reason_code_value PlanReasonCode.unbound_anchor = "UNBOUND_ANCHOR"
reason_code_value PlanReasonCode.ambiguous_anchor = "AMBIGUOUS_ANCHOR"
reason_code_value PlanReasonCode.unbound_target = "UNBOUND_TARGET"
reason_code_value PlanReasonCode.ambiguous_target = "AMBIGUOUS_TARGET"
reason_code_value PlanReasonCode.no_path = "NO_PATH"
reason_code_value PlanReasonCode.ambiguous_path = "AMBIGUOUS_PATH"
reason_code_value PlanReasonCode.path_budget_exceeded = "PATH_BUDGET_EXCEEDED"
reason_code_value PlanReasonCode.temporal_rejected = "TEMPORAL_REJECTED"
reason_code_value PlanReasonCode.evidence_unliftable = "EVIDENCE_UNLIFTABLE"

pub record GraphReasoningRequirement : Type 0 where
  pub minimum_edges : ℕ
  pub required_relation_types : List String
  pub require_all_citable_intermediates : Bool

-- Without the validators of blank identifiers and of distinct fingerprints.
pub record PlanExecutionResult : Type 0 where
  pub plan_fingerprint : String
  pub satisfied_path_fingerprints : List String
  pub bound_anchor_id : String
  pub bound_target_id : String
  pub execution_status : PlanExecutionStatus
  pub reason_code : PlanReasonCode
  pub message : Option String
  pub derived_reasoning_requirement : Option GraphReasoningRequirement

pub data RelationGoal : Type 0 where
  refers_to defines regulates guides : RelationGoal

-- `relation_goal.value`
unfoldable pub relation_goal_value : RelationGoal → String
relation_goal_value RelationGoal.refers_to = "REFERS_TO"
relation_goal_value RelationGoal.defines = "DEFINES"
relation_goal_value RelationGoal.regulates = "REGULATES"
relation_goal_value RelationGoal.guides = "GUIDES"

pub data ResolutionMethod : Type 0 where
  exact_structural_lookup grounded_history_focus : ResolutionMethod

pub data ReferenceSource : Type 0 where
  current_message grounded_history pending_clarification : ReferenceSource

pub record ResolvedReference : Type 0 where
  pub mention : String
  pub node_id : String
  pub node_type : UnitLabel
  pub label : String
  pub document_id : String
  pub resolution_method : ResolutionMethod
  pub source : ReferenceSource

-- `date is within [effective_from, effective_to)`, as generation/sufficiency.py and
-- generation/grounding.py spell it: an unknown start is not valid, an unknown end is open.
unfoldable pub is_valid_on : Option Date → Option Date → Date → Bool
is_valid_on none to d = false
is_valid_on (some from) none d = leb from d
is_valid_on (some from) (some to) d = leb from d && ltb d to
