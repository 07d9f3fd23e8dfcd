-- ===== src/Generation/Sufficiency.antt =====
-- src/generation/sufficiency.py: may the evidence of a context be answered from, by intent?
use legal_graphrag_platform.Base.{
  filter_map, String, Bool, true, false, not, ◌&&◌, ◌||◌, Option, none, some, List, [], ◌∷◌, map,
  if◌then◌else◌, leb, is_some, is_empty, contains, ◌==◌, any, all, subset, length,
}
use legal_graphrag_platform.Base.Result.{Result, ok, ◌>>=◌}
use legal_graphrag_platform.Base.Date.{Date, opt_date_eq}
use legal_graphrag_platform.Base.Dict.{lookup, index_by}
use legal_graphrag_platform.Retrieval.Models.{
  IntentType, RetrievedUnit, GraphPath, PlanExecutionResult, PlanExecutionStatus,
  GraphReasoningRequirement, reason_code_value, RelationGoal, relation_goal_value, is_valid_on,
}
use legal_graphrag_platform.Retrieval.Models.Context.{RetrievalContext, CapabilityStatus}
use legal_graphrag_platform.Retrieval.PathIdentity.{build_topology_path_fingerprint}

pub record SufficiencyResult : Type 0 where
  pub sufficient : Bool
  pub reason_code : Option String
  pub reason : Option String

abbrev pub enough : SufficiencyResult
enough = record { sufficient = true; reason_code = none; reason = none }

-- `_insufficient`
abbrev pub insufficient : String → String → SufficiencyResult
insufficient code reason = record {
  sufficient = false;
  reason_code = some code;
  reason = some reason;
}

abbrev pub anchor_ids : RetrievalContext → List String
anchor_ids context = map (λ r. r.node_id) context.resolved_references

goal_path : List String → List GraphPath → Option RelationGoal → Bool
unfolding relation_goal_value
goal_path anchors paths none = true
goal_path anchors paths (some goal) =
    any
      (λ p.
        any (λ e. e.relation_type == relation_goal_value goal && contains anchors e.source_id)
          p.edges)
      paths

-- The goal is absent, or `_has_relation_goal_path`.
unfoldable pub meets_relation_goal : RetrievalContext → Bool
unfolding goal_path
meets_relation_goal context =
    goal_path (anchor_ids context) context.graph_paths context.relation_goal

-- `_evidence_required`
unfoldable pub evidence_required : RetrievalContext → SufficiencyResult
evidence_required context =
    if any (λ i. i.is_eligible) context.evidence
    then enough
    else insufficient "NO_SUFFICIENT_EVIDENCE"
        "Các kết quả truy xuất chưa đủ để tạo câu trả lời có căn cứ."

abbrev pub has_edge_in : List String → GraphPath → Bool
has_edge_in types path = any (λ e. contains types e.relation_type) path.edges

-- The path's citable units, `{node.citable_unit_id for node in path.nodes if ... is not None}`
unfoldable pub citable_ids : GraphPath → List String
citable_ids path = filter_map (λ n. n.citable_unit_id) path.nodes

-- The tests of the loop over the paths, after the fingerprint's.
unfoldable pub meets_requirement : GraphReasoningRequirement → List String → GraphPath → Bool
unfolding citable_ids
meets_requirement requirement unit_ids path =
    leb requirement.minimum_edges (length path.edges)
    && subset requirement.required_relation_types (map (λ e. e.relation_type) path.edges)
    && (not requirement.require_all_citable_intermediates || subset (citable_ids path) unit_ids)

unresolved : SufficiencyResult
unresolved =
    insufficient "MULTI_HOP_REQUIREMENT_UNRESOLVED"
      "Chưa xác định được yêu cầu đường dẫn nhiều bước đáng tin cậy."

message_or_default : Option String → String
message_or_default none = "Query plan không tìm được đường dẫn graph đáng tin cậy."
message_or_default (some m) =
    if m == "" then "Query plan không tìm được đường dẫn graph đáng tin cậy." else m

has_start : Option RetrievedUnit → Bool
has_start none = false
has_start (some u) = is_some u.effective_from

evaluate_subjects : RetrievalContext → Date → SufficiencyResult
unfolding lookup index_by has_start evidence_required is_valid_on
evaluate_subjects context query_date =
    let units_by_id = index_by (λ u. u.id) context.retrieved_units in
    if not (is_empty (anchor_ids context))
    then (if all (λ id. has_start (lookup id units_by_id)) (anchor_ids context)
        then evidence_required context
        else insufficient "MISSING_TEMPORAL_EVIDENCE"
            "Tham chiếu đã xác định chưa có metadata thời gian đầy đủ.")
    else if any (λ u. is_valid_on u.effective_from u.effective_to query_date)
        context.retrieved_units
    then evidence_required context
    else insufficient "MISSING_TEMPORAL_EVIDENCE"
        "Chưa có metadata thời gian phù hợp cho thời điểm được hỏi."

-- The branch of `validity`.
unfoldable pub evaluate_validity : RetrievalContext → Option Date → SufficiencyResult
unfolding evaluate_subjects
evaluate_validity context none =
    insufficient "MISSING_TEMPORAL_POINT" "Chưa xác định được thời điểm pháp lý cần kiểm tra."
evaluate_validity context (some query_date) =
    if opt_date_eq context.temporal.resolved_to (some query_date)
    then evaluate_subjects context query_date
    else insufficient "MISSING_TEMPORAL_POINT" "Chưa xác định được thời điểm pháp lý cần kiểm tra."

in_family : String → RetrievedUnit → Bool
in_family family u = elim u.version_family_id [ none ↦ false | some f ↦ f == family ]

-- `len(documents) >= 2` for the family of a unit: another unit of it has another document.
unfoldable pub family_verified : List RetrievedUnit → Bool
unfolding in_family
family_verified units =
    any
      (λ u. elim u.version_family_id [
        | none ↦ false
        | some family ↦ any (λ v. in_family family v && not (v.document_id == u.document_id)) units
      ])
      units

-- The branch of `comparison`.
unfoldable pub evaluate_comparison : RetrievalContext → SufficiencyResult
unfolding family_verified evidence_required
evaluate_comparison context =
    if family_verified context.retrieved_units
      || any (has_edge_in ("AMENDS" ∷ "REPLACES" ∷ [])) context.graph_paths
    then evidence_required context
    else insufficient "COMPARISON_RELATION_UNVERIFIED"
        "Chưa xác minh được quan hệ giữa các phiên bản cần so sánh."

abbrev no_results : RetrievalContext → Bool
no_results context =
    elim context.capability_status [
      | CapabilityStatus.no_results ↦ true
      | CapabilityStatus.supported ↦ false
    ]
    || is_empty context.retrieved_units

-- `sha256_hex` is the hash of the topology's text.
module _ (sha256_hex : String → String) where
  -- The loop over the paths: is there one that the plan's execution proves?
  unfoldable pub find_satisfied :
      List String → GraphReasoningRequirement → List String → List GraphPath → Result Bool
  unfolding build_topology_path_fingerprint meets_requirement
  find_satisfied satisfied requirement unit_ids [] = ok false
  find_satisfied satisfied requirement unit_ids (path ∷ paths) = do
    fingerprint ← build_topology_path_fingerprint sha256_hex path
    let rest = find_satisfied satisfied requirement unit_ids paths
    if contains satisfied fingerprint && meets_requirement requirement unit_ids path
        then ok true
        else rest

  with_requirement :
      RetrievalContext
      → PlanExecutionResult
      → Option GraphReasoningRequirement
      → Result SufficiencyResult
  unfolding find_satisfied evidence_required unresolved
  with_requirement context execution none = ok unresolved
  with_requirement context execution (some requirement) = do
    found ←
        find_satisfied execution.satisfied_path_fingerprints requirement
          (map (λ u. u.id) context.retrieved_units) context.graph_paths
    ok (
        if found
        then evidence_required context
        else insufficient "MISSING_MULTI_HOP_PATH"
            "Chưa có đường dẫn graph đủ để trả lời câu hỏi nhiều bước.")

  -- The branch of `multi_hop`.
  unfoldable pub evaluate_multi_hop :
      RetrievalContext → Option PlanExecutionResult → Result SufficiencyResult
  unfolding with_requirement message_or_default reason_code_value
  evaluate_multi_hop context none = ok unresolved
  evaluate_multi_hop context (some execution) = elim execution.execution_status [
    | PlanExecutionStatus.failed ↦ ok (
        insufficient (reason_code_value execution.reason_code)
          (message_or_default execution.message))
    | PlanExecutionStatus.satisfied ↦
        with_requirement context execution execution.derived_reasoning_requirement
  ]

  -- The branches by intent.
  unfoldable pub evaluate_intent : RetrievalContext → IntentType → Result SufficiencyResult
  unfolding evidence_required evaluate_multi_hop evaluate_validity evaluate_comparison
  evaluate_intent context IntentType.factual = ok (evidence_required context)
  evaluate_intent context IntentType.definition = ok (evidence_required context)
  evaluate_intent context IntentType.hierarchy =
      if any (has_edge_in ("CONTAINS" ∷ [])) context.graph_paths
      then ok (evidence_required context)
      else ok (
          insufficient "MISSING_HIERARCHY_PATH"
            "Chưa có đường dẫn cấu trúc đã xác minh để trả lời.")
  evaluate_intent context IntentType.multi_hop = evaluate_multi_hop context context.plan_execution
  evaluate_intent context IntentType.validity =
      ok (evaluate_validity context context.temporal.resolved_from)
  evaluate_intent context IntentType.comparison = ok (evaluate_comparison context)

  -- `EvidenceSufficiencyPolicy.evaluate`; the last branch of the source is for an intent that the
  -- enumeration does not have.
  unfoldable pub evaluate : RetrievalContext → Result SufficiencyResult
  unfolding meets_relation_goal evaluate_intent
  evaluate context =
      if no_results context
      then ok (insufficient "NO_RESULTS" "Không tìm thấy căn cứ pháp lý phù hợp.")
      else if not (meets_relation_goal context)
      then ok (
          insufficient "NO_REFERENCE_EDGE"
            "Không tìm thấy quan hệ pháp lý được yêu cầu từ tham chiếu đã xác định.")
      else evaluate_intent context context.intent
