-- ===== src/Retrieval/GraphPaths.antt =====
-- The graph paths of src/retrieval/retriever/graph.py: their validity at a date, their ranking and
-- the merging of paths that have one topology.
pub mod Merge
pub mod Groups
use legal_graphrag_platform.Base.{
  ℕ, zero, suc, ◌+◌, String, Bool, true, false, not, ◌&&◌, ◌||◌, Option, none, some, List, [], ◌∷◌,
  map, if◌then◌else◌, leb, ltb, eqb, is_some, contains, ◌==◌, any, all, length,
}
use legal_graphrag_platform.Base.Result.{Result, ok, raise, ◌>>=◌, index_error}
use Prim.Native.String.{◌++◌}
use mathlib.Core.List.{◌++◌ as ◌⧺◌}
use legal_graphrag_platform.Base.Text.{text_leb, texts_leb, join}
use legal_graphrag_platform.Base.Date.{Date}
use legal_graphrag_platform.Base.Dict.{Dict, lookup, insert}
use legal_graphrag_platform.Base.Sort.{sort_by}
use legal_graphrag_platform.Retrieval.Models.{
  GraphPath, GraphNodeRef, GraphEdge, GraphCitationEvidence,
}
use legal_graphrag_platform.Retrieval.PathIdentity.{build_topology_path_fingerprint}

-- `_TEMPORAL_NODE_LABELS`
abbrev pub temporal_node_labels : List String
temporal_node_labels = "Document" ∷ "Article" ∷ "Clause" ∷ []

-- `date is not None and date > query_date`
abbrev pub starts_after : Option Date → Date → Bool
starts_after none d = false
starts_after (some from) d = ltb d from

-- `date is not None and date <= query_date`
abbrev pub ended_by : Option Date → Date → Bool
ended_by none d = false
ended_by (some to) d = leb to d

-- The body of the loop over the nodes: nodes without a temporal label are passed over.
unfoldable pub node_is_valid : Date → GraphNodeRef → Bool
node_is_valid d node =
    not (any (contains temporal_node_labels) node.labels)
    || is_some node.effective_from
      && not (starts_after node.effective_from d)
      && not (ended_by node.effective_to d)

-- The body of the loop over the edges.
unfoldable pub edge_is_valid : Date → GraphEdge → Bool
edge_is_valid d edge =
    not (starts_after edge.effective_from d) && not (ended_by edge.effective_to d)

-- `is_graph_path_temporally_valid`
unfoldable pub is_graph_path_temporally_valid : GraphPath → Option Date → Bool
unfolding node_is_valid edge_is_valid
is_graph_path_temporally_valid path none = true
is_graph_path_temporally_valid path (some d) =
    all (node_is_valid d) path.nodes && all (edge_is_valid d) path.edges

-- The parts of `_describe_path` from an edge on.
describe_edges : List GraphNodeRef → List GraphEdge → List String
describe_edges (current ∷ following ∷ nodes) (edge ∷ edges) =
    (if edge.source_id == current.node_id
      then "-[" ++ edge.relation_type ++ "]->"
      else "<-[" ++ edge.relation_type ++ "]-")
    ∷ following.node_id
    ∷ describe_edges (following ∷ nodes) edges
describe_edges _ _ = []

-- `_describe_path`
unfoldable pub describe_path : List GraphNodeRef → List GraphEdge → String
unfolding describe_edges
describe_path [] edges = "Empty graph path"
describe_path (node ∷ nodes) edges = join " " (node.node_id ∷ describe_edges (node ∷ nodes) edges)

abbrev pub first_node_id : List GraphNodeRef → String
first_node_id [] = ""
first_node_id (node ∷ nodes) = node.node_id

abbrev pub last_node_id : List GraphNodeRef → String
last_node_id [] = ""
last_node_id (node ∷ []) = node.node_id
last_node_id (node ∷ next ∷ nodes) = last_node_id (next ∷ nodes)

-- The components of `graph_path_rank_key` after the number of edges; a text is a tuple of one.
abbrev pub rank_texts : GraphPath → List (List String)
rank_texts path =
    (first_node_id path.nodes ∷ [])
    ∷ (last_node_id path.nodes ∷ [])
    ∷ map (λ e. e.relation_type) path.edges
    ∷ map (λ n. n.node_id) path.nodes
    ∷ map (λ e. e.relation_id) path.edges
    ∷ []

-- Tuples of tuples of texts compare by the first component that differs.
unfoldable pub tuples_leb : List (List String) → List (List String) → Bool
unfolding texts_leb
tuples_leb [] bs = true
tuples_leb (a ∷ as') [] = false
tuples_leb (a ∷ as') (b ∷ bs) =
    let rest = tuples_leb as' bs in
    if texts_leb a b then (if texts_leb b a then rest else true) else false

-- `graph_path_rank_key(a) <= graph_path_rank_key(b)`
unfoldable pub path_rank_le : GraphPath → GraphPath → Bool
unfolding tuples_leb
path_rank_le a b =
    let na = length a.edges in
    let nb = length b.edges in ltb na nb || eqb na nb && tuples_leb (rank_texts a) (rank_texts b)

-- `min(path ∷ paths, key=graph_path_rank_key)`: the first of the least ones
unfoldable pub least_path : GraphPath → List GraphPath → GraphPath
unfolding path_rank_le
least_path path [] = path
least_path path (other ∷ paths) = least_path (if path_rank_le path other then path else other) paths

-- `path.edges[edge_index].citation_evidence`
abbrev pub citations_at : ℕ → List GraphEdge → Result (List GraphCitationEvidence)
citations_at n [] = raise index_error "tuple index out of range"
citations_at zero (edge ∷ edges) = ok edge.citation_evidence
citations_at (suc n) (edge ∷ edges) = citations_at n edges

unfoldable pub store_citations :
    Dict GraphCitationEvidence → List GraphCitationEvidence → Dict GraphCitationEvidence
unfolding insert
store_citations d [] = d
store_citations d (evidence ∷ more) = store_citations (insert evidence.relation_id evidence d) more

-- `citations` of an edge: the evidence of all paths of the group, by relation.
unfoldable pub group_citations :
    ℕ → Dict GraphCitationEvidence → List GraphPath → Result (Dict GraphCitationEvidence)
unfolding store_citations
group_citations index d [] = ok d
group_citations index d (path ∷ group) = do
  evidence ← citations_at index path.edges
  group_citations index (store_citations d evidence) group

-- The loop over the edges of the canonical path.
unfoldable pub merge_edges : List GraphPath → ℕ → List GraphEdge → Result (List GraphEdge)
unfolding group_citations sort_by text_leb
merge_edges group index [] = ok []
merge_edges group index (edge ∷ edges) = do
  citations ← group_citations index [] group
  rest ← merge_edges group (index + 1) edges
  ok (
      record edge {
        citation_evidence = map (λ e. e.1) (sort_by (λ a b. text_leb a.0 b.0) citations);
      }
      ∷ rest)

-- The body of the loop over the groups; a group has at least the path that opened it.
unfoldable pub merge_group : List GraphPath → Result (List GraphPath)
unfolding least_path merge_edges describe_path
merge_group [] = ok []
merge_group (path ∷ paths) = do
  let canonical = least_path path paths
  edges ← merge_edges (path ∷ paths) 0 canonical.edges
  ok (
      record canonical { edges = edges; path_description = describe_path canonical.nodes edges }
      ∷ [])

unfoldable pub merge_groups : Dict (List GraphPath) → Result (List GraphPath)
unfolding merge_group
merge_groups [] = ok []
merge_groups ((key, group) ∷ groups) = do
  merged ← merge_group group
  rest ← merge_groups groups
  ok (merged ⧺ rest)

abbrev pub paths_of : Option (List GraphPath) → List GraphPath
paths_of none = []
paths_of (some paths) = paths

-- The paths of a fingerprint so far.
abbrev pub group_of : String → Dict (List GraphPath) → List GraphPath
group_of key grouped = paths_of (lookup key grouped)

module _ (sha256_hex : String → String) where
  -- The loop that fills `grouped`.
  unfoldable pub group_paths :
      Dict (List GraphPath) → List GraphPath → Result (Dict (List GraphPath))
  unfolding build_topology_path_fingerprint lookup insert
  group_paths grouped [] = ok grouped
  group_paths grouped (path ∷ paths) = do
    key ← build_topology_path_fingerprint sha256_hex path
    group_paths (insert key (group_of key grouped ⧺ path ∷ []) grouped) paths

  -- `deduplicate_topology_paths`
  unfoldable pub deduplicate_topology_paths : List GraphPath → Result (List GraphPath)
  unfolding group_paths merge_groups
  deduplicate_topology_paths paths = do grouped ← group_paths [] paths; merge_groups grouped

  -- `deduplicate_topology_paths`, then `paths.sort(key=graph_path_rank_key)`
  unfoldable pub ranked_paths : List GraphPath → Result (List GraphPath)
  unfolding deduplicate_topology_paths sort_by path_rank_le
  ranked_paths paths = do
    merged ← deduplicate_topology_paths paths
    ok (sort_by path_rank_le merged)
