-- ===== src/Generation/Grounding/Paths.antt =====
-- src/generation/grounding.py: the reasoning paths of an answer.
use Prim.Native.String.{◌++◌}
use legal_graphrag_platform.Base.{
  String, Bool, false, not, ◌&&◌, Option, none, some, List, is_some, is_empty, flat_map, contains,
  any, filter, ◌==◌, first_occurrence,
}
use legal_graphrag_platform.Base.Result.{
  Result, ok, fail_if, of_option, ◌>>=◌, ◌>>◌, traverse, reasoning_path_validation_error,
}
use legal_graphrag_platform.Base.Dict.{Dict, lookup, index_by}
use legal_graphrag_platform.Retrieval.Models.{GraphEdge}
use legal_graphrag_platform.Generation.Models.{AnswerReasoningPath}
use legal_graphrag_platform.Generation.Models.Projected.{
  EvidenceRegistry, ProjectedAnswerContext, ProjectedPathBlock,
}
use legal_graphrag_platform.Generation.Models.Candidate.{GroundedStatement}

-- `paths_by_id`
unfoldable pub allowed_paths : ProjectedAnswerContext → EvidenceRegistry → Dict ProjectedPathBlock
unfolding index_by
allowed_paths projected registry =
    index_by (λ p. p.path_id)
      (filter (λ p. contains registry.allowed_path_ids p.path_id) projected.paths)

-- The path has an edge of the goal's type that leaves an anchor.
unfoldable pub proves_goal : String → List String → List GraphEdge → Bool
proves_goal goal anchors edges =
    any (λ e. e.relation_type == goal && contains anchors e.source_id) edges

unfoldable pub goal_unproved : Option String → List String → List GraphEdge → Bool
unfolding proves_goal
goal_unproved none anchors edges = false
goal_unproved (some goal) anchors edges = not (proves_goal goal anchors edges)

abbrev pub reasoning_path : ProjectedPathBlock → AnswerReasoningPath
reasoning_path p = record {
  path_id = p.path_id;
  nodes = p.nodes;
  edges = p.edges;
  description = p.description;
}

-- The body of the loop over `path_order`.
unfoldable pub select_path :
    ProjectedAnswerContext → Dict ProjectedPathBlock → String → Result AnswerReasoningPath
unfolding lookup goal_unproved
select_path projected paths path_id = do
  path ←
      of_option (lookup path_id paths) reasoning_path_validation_error
        ("Reasoning path is not allowlisted: " ++ path_id)
  fail_if (goal_unproved projected.relation_goal projected.anchor_node_ids path.edges)
      reasoning_path_validation_error "Reasoning path does not prove the requested relation goal"
  ok (reasoning_path path)

unfoldable pub select_paths :
    ProjectedAnswerContext
    → EvidenceRegistry
    → List GroundedStatement
    → Result (List AnswerReasoningPath)
unfolding first_occurrence allowed_paths select_path
select_paths projected registry statements = do
  let path_order = first_occurrence (flat_map (λ s. s.reasoning_path_ids) statements)
  fail_if (is_some projected.relation_goal && is_empty path_order) reasoning_path_validation_error
      "A relation-goal answer must link at least one reasoning path"
  traverse (select_path projected (allowed_paths projected registry)) path_order
