-- ===== src/Retrieval/PathRows.antt =====
-- src/retrieval/retriever/graph.py: the rows of the graph database as graph paths.
use legal_graphrag_platform.Base.{
  ◌+◌, String, not, ◌&&◌, ◌||◌, Option, none, some, List, [], ◌∷◌, map, if◌then◌else◌, eqb, is_none,
  is_empty, contains, unique, ◌==◌, filter, length,
}
use legal_graphrag_platform.Base.Result.{
  Result, ok, err, raise, fail_if, ◌>>=◌, ◌>>◌, traverse, value_error, retrieval_output_error,
}
use Prim.Native.String.{◌++◌}
use legal_graphrag_platform.Base.Text.{strip}
use legal_graphrag_platform.Base.Date.{Date}
use legal_graphrag_platform.Shared.Ontology.{relation_enum}
use legal_graphrag_platform.Retrieval.Models.{
  GraphPath, GraphNodeRef, GraphEdge, GraphCitationEvidence,
}
use legal_graphrag_platform.Retrieval.PathIdentity.{connects}
use legal_graphrag_platform.Retrieval.GraphPaths.{describe_path}

-- A date of a row: absent, a date of the driver or of Python, or a value of another type.
pub data RawDate : Type 0 where
  missing : RawDate
  native : Date → RawDate
  other : String → RawDate

-- An element of `path_node_refs`
pub record NodeRow : Type 0 where
  pub node_id : Option String
  pub labels : Option (List String)
  pub effective_from : RawDate
  pub effective_to : RawDate
  pub legal_status : Option String
  pub citable_unit_id : Option String

-- An element of `path_edge_refs`
pub record EdgeRow : Type 0 where
  pub relation_id : Option String
  pub relation_type : Option String
  pub source_id : Option String
  pub target_id : Option String
  pub effective_from : RawDate
  pub effective_to : RawDate
  pub citation_text : Option String
  pub citation_type : Option String
  pub extraction_method : Option String

-- A row; an absent list is the empty one.
pub record PathRow : Type 0 where
  pub path_node_refs : List NodeRow
  pub path_edge_refs : List EdgeRow

-- `_TEMPORAL_RELATIONS`
abbrev pub temporal_relations : List String
temporal_relations = "AMENDS" ∷ "REPEALS" ∷ "REPLACES" ∷ []

-- `_native_date`
abbrev pub native_date : RawDate → Result (Option Date)
native_date RawDate.missing = ok none
native_date (RawDate.native d) = ok (some d)
native_date (RawDate.other type_name) =
    raise value_error ("expected date-compatible value, got " ++ type_name)

abbrev pub stripped : Option String → String
stripped none = ""
stripped (some s) = strip s

-- `_required_text`
unfoldable pub required_text : Option String → String → Result String
unfolding strip
required_text value field_name = do
  fail_if (stripped value == "") value_error ("missing " ++ field_name)
  ok (stripped value)

-- `_optional_text`
unfoldable pub optional_text : Option String → Option String
unfolding strip
optional_text value = if stripped value == "" then none else some (stripped value)

-- `_required_labels`
unfoldable pub required_labels : Option (List String) → Result (List String)
unfolding strip
required_labels none = raise value_error "missing graph node labels"
required_labels (some values) = do
  let labels = filter (λ s. not (s == "")) (map strip values)
  fail_if (is_empty labels) value_error "missing graph node labels"
  ok labels

unfoldable pub map_node : NodeRow → Result GraphNodeRef
unfolding required_text required_labels optional_text
map_node raw = do
  node_id ← required_text raw.node_id "graph node ID"
  labels ← required_labels raw.labels
  effective_from ← native_date raw.effective_from
  effective_to ← native_date raw.effective_to
  ok (record {
    node_id = node_id;
    labels = labels;
    effective_from = effective_from;
    effective_to = effective_to;
    legal_status = optional_text raw.legal_status;
    citable_unit_id = optional_text raw.citable_unit_id;
  })

-- The provenance of an edge: that of a citation only.
unfoldable pub citation_evidence_of : EdgeRow → String → Result (List GraphCitationEvidence)
unfolding required_text optional_text
citation_evidence_of raw relation_type = if not (relation_type == "REFERS_TO") then ok [] else (do
  relation_id ← required_text raw.relation_id "relation ID"
  ok (
      record {
        relation_id = relation_id;
        citation_text = optional_text raw.citation_text;
        citation_type = optional_text raw.citation_type;
        extraction_method = optional_text raw.extraction_method;
      }
      ∷ []))

-- `_map_edge`
unfoldable pub map_edge : EdgeRow → Result GraphEdge
unfolding required_text citation_evidence_of
map_edge raw = do
  relation_type ← required_text raw.relation_type "relation type"
  fail_if (not (contains relation_enum relation_type)) value_error
      ("non-canonical relation type: " ++ relation_type)
  effective_from ← native_date raw.effective_from
  fail_if (contains temporal_relations relation_type && is_none effective_from) value_error
      (relation_type ++ " requires effective_from")
  relation_id ← required_text raw.relation_id "relation ID"
  source_id ← required_text raw.source_id "edge source ID"
  target_id ← required_text raw.target_id "edge target ID"
  effective_to ← native_date raw.effective_to
  citation_evidence ← citation_evidence_of raw relation_type
  ok (record {
    relation_id = relation_id;
    relation_type = relation_type;
    source_id = source_id;
    target_id = target_id;
    effective_from = effective_from;
    effective_to = effective_to;
    citation_evidence = citation_evidence;
  })

-- The loop over the adjacent nodes of each edge.
unfoldable pub check_adjacent : List GraphNodeRef → List GraphEdge → Result (Unit {0})
unfolding connects
check_adjacent (left ∷ right ∷ nodes) (edge ∷ edges) = do
  fail_if (not (connects left edge right)) value_error
      ("edge " ++ edge.relation_id ++ " does not connect adjacent path nodes")
  check_adjacent (right ∷ nodes) edges
check_adjacent _ _ = ok tt

-- `_validate_path_shape`
unfoldable pub validate_path_shape : List GraphNodeRef → List GraphEdge → Result (Unit {0})
unfolding check_adjacent
validate_path_shape nodes edges = do
  fail_if (is_empty edges || not (eqb (length nodes) (length edges + 1))) value_error
      "graph path node/edge cardinality is invalid"
  fail_if (not (unique (map (λ e. e.relation_id) edges))) value_error
      "graph path relation IDs must be unique"
  check_adjacent nodes edges

-- The handler around the mapping: each of its errors is a `ValueError`.
abbrev pub as_output_error {ℓ} : {A : Type ℓ} → Result A → Result A
as_output_error (ok a) = ok a
as_output_error (err e) =
    raise retrieval_output_error ("Malformed graph expansion path: " ++ e.message)

-- `map_graph_path`
unfoldable pub map_graph_path : PathRow → Result GraphPath
unfolding map_node map_edge validate_path_shape describe_path
map_graph_path row = as_output_error (do
  nodes ← traverse map_node row.path_node_refs
  edges ← traverse map_edge row.path_edge_refs
  validate_path_shape nodes edges
  ok (record { nodes = nodes; edges = edges; path_description = describe_path nodes edges }))
