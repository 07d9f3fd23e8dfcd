-- ===== src/Retrieval/PathIdentity.antt =====
-- retrieval/path_identity.py: the identity of a path is the hash of its topology.
use Prim.Native.String.{◌++◌}
use legal_graphrag_platform.Base.{
  same_set, ◌+◌, String, Bool, not, ◌||◌, List, [], ◌∷◌, map, eqb, is_empty, length,
}
use legal_graphrag_platform.Base.Result.{value_error, Result, ok, fail_if, ◌>>=◌, ◌>>◌}
use legal_graphrag_platform.Base.Text.{text_take}
use legal_graphrag_platform.Base.Json.{
  Json, Items, str, arr, obj, nil, cons, end, field, strings, compact, dumps,
}
use legal_graphrag_platform.Retrieval.Models.{GraphNodeRef, GraphEdge, GraphPath}

-- `{edge.source_id, edge.target_id} == {left.node_id, right.node_id}`, as sets
unfoldable pub connects : GraphNodeRef → GraphEdge → GraphNodeRef → Bool
connects left edge right =
    same_set (edge.source_id ∷ edge.target_id ∷ []) (left.node_id ∷ right.node_id ∷ [])

edge_topology : GraphEdge → Json
edge_topology edge = obj (
    field "relation_type" (str edge.relation_type)
      (field "source_id" (str edge.source_id) (field "target_id" (str edge.target_id) end)))

-- The loop over the adjacent nodes of each edge.
unfoldable pub edge_topologies : List GraphNodeRef → List GraphEdge → Result Items
unfolding connects edge_topology
edge_topologies (left ∷ right ∷ nodes) (edge ∷ edges) = do
  fail_if (not (connects left edge right)) value_error
      ("Graph edge does not connect adjacent nodes: " ++ edge.relation_id)
  rest ← edge_topologies (right ∷ nodes) edges
  ok (cons (edge_topology edge) rest)
edge_topologies _ _ = ok nil

-- `sha256_hex` is `hashlib.sha256(text.encode("utf-8")).hexdigest()`.
module _ (sha256_hex : String → String) where
  unfoldable pub build_topology_path_fingerprint : GraphPath → Result String
  unfolding edge_topologies dumps text_take
  build_topology_path_fingerprint path = do
    fail_if (is_empty path.edges || not (eqb (length path.nodes) (length path.edges + 1)))
        value_error "Graph path node/edge cardinality is invalid"
    edges ← edge_topologies path.nodes path.edges
    let canonical = obj (
        field "edges" (arr edges)
          (field "node_ids" (arr (strings (map (λ n. n.node_id) path.nodes))) end))
    ok ("path_" ++ text_take 20 (sha256_hex (dumps compact canonical)))
