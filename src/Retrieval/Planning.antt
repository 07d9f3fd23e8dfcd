-- ===== src/Retrieval/Planning.antt =====
-- src/retrieval/planning/executor.py: the validation of the paths of a bound plan, and the results
-- of an execution. Planning/Models has the plans, Planning/Executor the executor.
pub mod Models
pub mod Executor
pub mod Satisfied
pub mod Exact
use legal_graphrag_platform.Base.{
  ℕ, zero, suc, ◌+◌, ◌-◌, ◌≤◌, ◌<◌, String, ◌≡◌, refl, sym, ap, ◌∙◌, ◌≢◌, ◌⊎◌, inl, inr, Bool, true,
  false, not, ◌&&◌, ◌||◌, Option, none, some, List, [], ◌∷◌, map, if◌then◌else◌, leb, ltb, eqb,
  is_some, is_none, is_empty, contains, unique, All, Member, arith, flat_map, ◌==◌, Bool-cases,
  eq_iff, eq_refl, any, all, filter, subset, length,
}
use legal_graphrag_platform.Base.Result.{
  Result, ok, err, raise, fail_if, of_option, ◌>>=◌, ◌>>◌, traverse, >>=-eq-ok, of_option-bind-ok,
  guard-bind-ok, ok_inj, value_error, retrieval_output_error, index_error, key_error,
}
use Prim.Native.String.{◌++◌}
use legal_graphrag_platform.Base.Text.{text_take, show_nat}
use legal_graphrag_platform.Base.Float.{Float}
use legal_graphrag_platform.Base.Dict.{Dict}
use legal_graphrag_platform.Base.Json.{
  Json, Items, null, str, real, arr, obj, nil, cons, end, field, opt_str, compact, dumps,
}
use legal_graphrag_platform.Retrieval.Models.{
  GraphPath, GraphNodeRef, GraphEdge, RetrievalFilters, PlanExecutionResult, PlanExecutionStatus,
  PlanReasonCode, GraphReasoningRequirement,
}
use legal_graphrag_platform.Retrieval.PathIdentity.{build_topology_path_fingerprint}
use legal_graphrag_platform.Retrieval.GraphPaths.{is_graph_path_temporally_valid, ranked_paths}
use legal_graphrag_platform.Retrieval.PathRows.{PathRow, map_graph_path}
use legal_graphrag_platform.Retrieval.Planning.Models.{
  QueryDirection, direction_value, EndpointResolutionMethod, resolution_value, AnchorMention,
  TargetMention, PathStepConstraint, UnlinkedSemanticPlan, BoundEndpoint, BoundSemanticPlan,
  PlannedPathExecution, target_label, semantic_liftable_targets,
}

-- `reason_code is PlanReasonCode.SATISFIED`
abbrev pub is_satisfied_code : PlanReasonCode → Bool
is_satisfied_code PlanReasonCode.satisfied = true
is_satisfied_code _ = false

-- The condition of `validate_execution_state` by the status.
abbrev pub state_is_invalid :
    PlanExecutionStatus → PlanReasonCode → List String → Option GraphReasoningRequirement → Bool
state_is_invalid PlanExecutionStatus.satisfied reason fingerprints requirement =
    not (is_satisfied_code reason) || not (eqb (length fingerprints) 1) || is_none requirement
state_is_invalid PlanExecutionStatus.failed reason fingerprints requirement =
    is_satisfied_code reason || not (is_empty fingerprints) || is_some requirement

abbrev pub state_message : PlanExecutionStatus → String
state_message PlanExecutionStatus.satisfied =
    "A satisfied execution requires reason SATISFIED, exactly one path fingerprint, and a "
    ++ "derived reasoning requirement"
state_message PlanExecutionStatus.failed =
    "A failed execution requires a failure reason, no satisfied path fingerprints, and no "
    ++ "derived reasoning requirement"

-- `PlanExecutionResult.validate_execution_state`
abbrev pub validate_execution_state : PlanExecutionResult → Result PlanExecutionResult
validate_execution_state r = do
  fail_if
      (state_is_invalid r.execution_status r.reason_code r.satisfied_path_fingerprints
        r.derived_reasoning_requirement)
      value_error (state_message r.execution_status)
  ok r

abbrev pub no_exact_steps : String
no_exact_steps = "Exact path depth differs from the bound plan"

-- The endpoints that an edge has by the direction of its step.
abbrev pub has_endpoints : QueryDirection → GraphNodeRef → GraphEdge → GraphNodeRef → Bool
has_endpoints QueryDirection.outgoing current edge following =
    edge.source_id == current.node_id && edge.target_id == following.node_id
has_endpoints QueryDirection.incoming current edge following =
    edge.source_id == following.node_id && edge.target_id == current.node_id

-- The loop of `_validate_exact_path` over the steps, from an index on.
unfoldable pub validate_steps :
    ℕ → List GraphNodeRef → List GraphEdge → List PathStepConstraint → Result (Unit {0})
unfolding show_nat
validate_steps index (current ∷ following ∷ nodes) (edge ∷ edges) (step ∷ steps) = do
  fail_if (not (edge.relation_type == step.relation)) retrieval_output_error
      ("Exact path step " ++ show_nat index ++ " relation mismatch")
  fail_if (not (contains following.labels step.next_label)) retrieval_output_error
      ("Exact path step " ++ show_nat index ++ " label mismatch")
  fail_if (not (has_endpoints step.direction current edge following)) retrieval_output_error
      ("Exact path step " ++ show_nat index ++ " direction mismatch")
  validate_steps (index + 1) (following ∷ nodes) edges steps
validate_steps index _ _ _ = ok tt

abbrev pub first_node : List GraphNodeRef → Result GraphNodeRef
first_node [] = raise index_error "tuple index out of range"
first_node (node ∷ nodes) = ok node

abbrev pub last_node : List GraphNodeRef → Result GraphNodeRef
last_node [] = raise index_error "tuple index out of range"
last_node (node ∷ []) = ok node
last_node (node ∷ next ∷ nodes) = last_node (next ∷ nodes)

-- `_validate_exact_path`
unfoldable pub validate_exact_path : BoundSemanticPlan → GraphPath → Result (Unit {0})
unfolding validate_steps
validate_exact_path plan path = do
  fail_if
      (not (eqb (length path.edges) (length plan.unlinked.steps))
        || not (eqb (length path.nodes) (length plan.unlinked.steps + 1)))
      retrieval_output_error no_exact_steps
  first ← first_node path.nodes
  fail_if (not (first.node_id == plan.bound_anchor.node_id)) retrieval_output_error
      "Exact path does not start at the bound anchor"
  last ← last_node path.nodes
  fail_if (not (last.node_id == plan.bound_target.node_id)) retrieval_output_error
      "Exact path does not end at the bound target"
  fail_if (not (unique (map (λ n. n.node_id) path.nodes))) retrieval_output_error
      "Exact path contains a cycle"
  fail_if (not (contains first.labels plan.bound_anchor.label)) retrieval_output_error
      "Exact path anchor label differs from the bound plan"
  validate_steps 1 path.nodes path.edges plan.unlinked.steps

unfoldable pub validate_all : BoundSemanticPlan → List GraphPath → Result (Unit {0})
unfolding validate_exact_path
validate_all plan [] = ok tt
validate_all plan (path ∷ paths) = do validate_exact_path plan path; validate_all plan paths

abbrev pub or_empty : Option String → String
or_empty none = ""
or_empty (some s) = s

-- `_citable_unit_ids`, after the identifiers of `seen`
unfoldable pub citable_after : List String → List GraphNodeRef → List String
citable_after seen [] = []
citable_after seen (node ∷ nodes) =
    let id = or_empty node.citable_unit_id in
    let passed = id == "" || contains seen id in
    let rest = citable_after (if passed then seen else id ∷ seen) nodes in
    if passed then rest else id ∷ rest

-- `_citable_unit_ids`
abbrev pub citable_unit_ids_of : GraphPath → List String
citable_unit_ids_of path = citable_after [] path.nodes

abbrev step_json : List PathStepConstraint → Items
step_json [] = nil
step_json (step ∷ steps) =
    cons
      (obj (
        field "direction" (str (direction_value step.direction))
          (field "next_label" (str step.next_label) (field "relation" (str step.relation) end))))
      (step_json steps)

-- `float_repr` is `repr` of a float.
module _ (float_repr : Float → String) where
  abbrev score_json : Option Float → Json
  score_json none = null
  score_json (some score) = real (float_repr score)

  abbrev endpoint_json : BoundEndpoint → Json
  endpoint_json e = obj (
      field "label" (str e.label) (
        field "mention_text" (str e.mention_text) (
          field "node_id" (str e.node_id) (
            field "resolution_method" (str (resolution_value e.resolution_method))
              (field "score" (score_json e.score) end)))))

  -- `plan.model_dump(mode="json")`, with its keys sorted
  abbrev pub plan_json : BoundSemanticPlan → Json
  plan_json plan = obj (
      field "bound_anchor" (endpoint_json plan.bound_anchor) (
        field "bound_target" (endpoint_json plan.bound_target) (
          field "unlinked"
            (obj (
              field "anchor"
                (obj (
                  field "expected_label" (opt_str plan.unlinked.anchor.expected_label)
                    (field "text" (str plan.unlinked.anchor.text) end)))
                (field "steps" (arr (step_json plan.unlinked.steps))
                  (field "target" (obj (field "text" (str plan.unlinked.target.text) end)) end))))
            end)))

-- `_FAILURE_MESSAGES`; the reasons that the executor has
abbrev pub failure_message : PlanReasonCode → Result String
failure_message PlanReasonCode.no_path = ok "No exact ordered path exists"
failure_message PlanReasonCode.ambiguous_path = ok "Multiple exact path topologies exist"
failure_message PlanReasonCode.path_budget_exceeded = ok "Exact path result exceeded its budget"
failure_message PlanReasonCode.temporal_rejected = ok "Exact paths are invalid at the query date"
failure_message PlanReasonCode.evidence_unliftable = ok "Satisfied path has no citable legal unit"
failure_message _ = raise key_error "reason"

abbrev pub failed_result :
    BoundSemanticPlan → String → PlanReasonCode → String → PlanExecutionResult
failed_result plan plan_fingerprint reason message = record {
  plan_fingerprint = plan_fingerprint;
  satisfied_path_fingerprints = [];
  bound_anchor_id = plan.bound_anchor.node_id;
  bound_target_id = plan.bound_target.node_id;
  execution_status = PlanExecutionStatus.failed;
  reason_code = reason;
  message = some message;
  derived_reasoning_requirement = none;
}

-- `_failed`
unfoldable pub failed_execution :
    BoundSemanticPlan → String → PlanReasonCode → Result PlannedPathExecution
failed_execution plan plan_fingerprint reason = do
  message ← failure_message reason
  result ← validate_execution_state (failed_result plan plan_fingerprint reason message)
  ok (record { result = result; paths = []; path_fingerprints = []; citable_unit_ids = [] })

-- The port that looks paths up in the graph: anchor, target, steps, filters and limit.
abbrev pub PlannedPathLookup : Type 0
PlannedPathLookup =
    String → String → List PathStepConstraint → RetrievalFilters → ℕ → Result (List PathRow)

-- `PlannedPathExecutor.__init__`: the budget of the executor
abbrev pub init_executor : ℕ → Result ℕ
init_executor max_paths = do
  fail_if (not (leb 1 max_paths && leb max_paths 100)) value_error
      "Exact path budget must be between 1 and 100"
  ok max_paths
