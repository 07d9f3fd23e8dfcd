-- ===== src/Generation/Evidence.antt =====
-- src/generation/evidence_validation.py: retrieved units and paths are checked before use.
pub mod Soundness
use Prim.Native.Char.{code}
use Prim.Native.String.{◌++◌}
use legal_graphrag_platform.Base.{
  ℕ, ◌+◌, String, Bool, true, false, not, ◌&&◌, ◌||◌, Option, none, some, List, [], ◌∷◌, map,
  if◌then◌else◌, leb, eqb, is_some, is_empty, contains, unique, ◌==◌, any, filter, length,
}
use legal_graphrag_platform.Base.Result.{evidence_contract_error, Result, ok, fail_if, ◌>>=◌, ◌>>◌}
use legal_graphrag_platform.Base.Text.{strip, blank}
use legal_graphrag_platform.Shared.Ontology.{relation_enum}
use legal_graphrag_platform.Retrieval.Models.{
  RetrievedUnit, GraphPath, GraphNodeRef, GraphEdge, UnitLabel,
}
use legal_graphrag_platform.Retrieval.Models.Context.{RetrievalContext}
use legal_graphrag_platform.Retrieval.PathIdentity.{connects, build_topology_path_fingerprint}

is_alnum : ℕ → Bool
is_alnum c = leb b'A' c && leb c b'Z' || leb b'a' c && leb c b'z' || leb b'0' c && leb c b'9'

is_id_tail : String → Bool
unfolding is_alnum
is_id_tail String.[] = true
is_id_tail (String.◌∷◌ c s) =
    let n = code c in
    (is_alnum n || eqb n b'_' || eqb n b'.' || eqb n b':' || eqb n b'-') && is_id_tail s

-- `_CANONICAL_ID.fullmatch(value)`
unfoldable pub is_canonical_id : String → Bool
unfolding is_id_tail
is_canonical_id String.[] = false
is_canonical_id (String.◌∷◌ c s) = is_alnum (code c) && is_id_tail s

unfoldable pub require_canonical_id : String → String → Result (Unit {0})
unfolding is_canonical_id
require_canonical_id value field_name =
    fail_if (not (is_canonical_id value)) evidence_contract_error
      ("Invalid canonical " ++ field_name ++ ": '" ++ value ++ "'")

-- The ASCII letter that a character matches under `re.IGNORECASE`: besides the other case, the
-- dotted and the dotless i, the long s and the Kelvin sign.
fold_code : ℕ → ℕ
fold_code n =
    if leb b'A' n && leb n b'Z'
    then n + 32
    else if eqb n 0x130 || eqb n 0x131
    then b'i'
    else if eqb n 0x17f
    then b's'
    else if eqb n 0x212a
    then b'k'
    else n

-- The text, which is in lower case, is a prefix up to case.
prefix_ignoring_case : String → String → Bool
unfolding fold_code
prefix_ignoring_case String.[] s = true
prefix_ignoring_case (String.◌∷◌ p ps) String.[] = false
prefix_ignoring_case (String.◌∷◌ p ps) (String.◌∷◌ c s) =
    eqb (code p) (fold_code (code c)) && prefix_ignoring_case ps s

-- `_PROMPT_INJECTION_MARKERS`, each optional part written out; a final optional letter adds nothing.
abbrev injection_markers : List String
injection_markers =
    "begin_trusted_retrieval_context" ∷ "end_trusted_retrieval_context" ∷ "begin_output_contract"
    ∷ "end_output_contract" ∷ "begin_repair_feedback" ∷ "end_repair_feedback"
    ∷ "allowed_citation_ids" ∷ "ignore previous instruction" ∷ "ignore above instruction"
    ∷ "ignore all previous instruction" ∷ "ignore all above instruction"
    ∷ "ignore the previous instruction" ∷ "ignore the above instruction"
    ∷ "disregard previous instruction" ∷ "disregard above instruction"
    ∷ "disregard all previous instruction" ∷ "disregard all above instruction"
    ∷ "disregard the previous instruction" ∷ "disregard the above instruction" ∷ "you are now"
    ∷ "system prompt" ∷ "new instruction:" ∷ "new instructions:" ∷ []

-- `_PROMPT_INJECTION_MARKERS.search(text)`
unfoldable pub has_injection_marker : String → Bool
unfolding prefix_ignoring_case
has_injection_marker String.[] = false
has_injection_marker (String.◌∷◌ c s) =
    any (λ m. prefix_ignoring_case m (String.◌∷◌ c s)) injection_markers || has_injection_marker s

pub record EvidenceCandidate : Type 0 where
  pub unit : RetrievedUnit
  pub rank : ℕ
  pub is_eligible : Bool

pub record ValidatedPath : Type 0 where
  pub path : GraphPath
  pub path_id : String
  pub rank : ℕ

pub record ValidatedEvidence : Type 0 where
  pub candidates : List EvidenceCandidate
  pub paths : List ValidatedPath

-- `not value` for an optional identifier: absent or empty
abbrev pub absent : Option String → Bool
absent none = true
absent (some s) = s == ""

abbrev pub is_id : Option String → String → Bool
is_id none s = false
is_id (some t) s = t == s

-- The label's identifiers do not fit its place in the hierarchy.
unfoldable pub inconsistent_hierarchy : RetrievedUnit → Bool
inconsistent_hierarchy unit = elim unit.label [
  | UnitLabel.document ↦
      not (unit.document_id == unit.id)
      || not (absent unit.article_id)
      || not (absent unit.clause_id)
  | UnitLabel.article ↦ not (is_id unit.article_id unit.id) || is_some unit.clause_id
  | UnitLabel.clause ↦ absent unit.article_id || not (is_id unit.clause_id unit.id)
  | UnitLabel.appendix ↦ false
  | UnitLabel.point ↦ absent unit.article_id || absent unit.clause_id
]

abbrev pub label_name : UnitLabel → String
label_name UnitLabel.document = "Document"
label_name UnitLabel.article = "Article"
label_name UnitLabel.clause = "Clause"
label_name UnitLabel.appendix = "Appendix"
label_name UnitLabel.point = "Point"

-- `filters.legal_statuses and unit.legal_status not in filters.legal_statuses`
unfoldable pub status_excluded : List String → Option String → Bool
status_excluded allowed none = not (is_empty allowed)
status_excluded allowed (some s) = not (is_empty allowed) && not (contains allowed s)

unfoldable pub validate_unit : RetrievedUnit → RetrievalContext → Result RetrievedUnit
unfolding require_canonical_id has_injection_marker strip inconsistent_hierarchy status_excluded
validate_unit unit context = do
  require_canonical_id unit.id "unit ID"
  fail_if (blank unit.content_raw) evidence_contract_error
      ("Evidence " ++ unit.id ++ " has empty content_raw")
  fail_if (has_injection_marker unit.content_raw) evidence_contract_error (
      "Evidence " ++ unit.id
      ++ " content_raw contains a prompt-structure marker or meta-instruction phrase; "
      ++ "refusing to forward it to the answer model")
  require_canonical_id unit.document_id "document ID"
  fail_if (blank unit.citation_label) evidence_contract_error
      ("Evidence " ++ unit.id ++ " has no citation label")
  fail_if (blank unit.deep_link) evidence_contract_error
      ("Evidence " ++ unit.id ++ " has no deep link")
  fail_if (inconsistent_hierarchy unit) evidence_contract_error
      (label_name unit.label ++ " evidence has inconsistent hierarchy IDs: " ++ unit.id)
  let filters = context.filters_applied
  fail_if
      (not (is_empty filters.document_ids) && not (contains filters.document_ids unit.document_id))
      evidence_contract_error ("Evidence " ++ unit.id ++ " conflicts with applied document filters")
  fail_if (status_excluded filters.legal_statuses unit.legal_status) evidence_contract_error
      ("Evidence " ++ unit.id ++ " conflicts with applied legal-status filters")
  ok (record unit { content_raw = strip unit.content_raw })

-- The loop over the nodes of a path.
check_nodes : List GraphNodeRef → Result (Unit {0})
unfolding require_canonical_id
check_nodes [] = ok tt
check_nodes (node ∷ nodes) = do
  require_canonical_id node.node_id "graph path node ID"
  elim node.citable_unit_id [ none ↦ ok tt | some id ↦ require_canonical_id id "citable unit ID" ]
  check_nodes nodes

-- The loop over the edges of a path and the nodes beside each.
unfoldable pub check_edges : List GraphNodeRef → List GraphEdge → Result (Unit {0})
unfolding require_canonical_id connects
check_edges (left ∷ right ∷ nodes) (edge ∷ edges) = do
  fail_if (not (contains relation_enum edge.relation_type)) evidence_contract_error
      ("Graph path relation type is not canonical: " ++ edge.relation_type)
  require_canonical_id edge.relation_id "graph path relation ID"
  require_canonical_id edge.source_id "graph edge source ID"
  require_canonical_id edge.target_id "graph edge target ID"
  fail_if (not (connects left edge right)) evidence_contract_error
      ("Graph edge does not connect adjacent nodes: " ++ edge.relation_id)
  check_edges (right ∷ nodes) edges
check_edges _ _ = ok tt

unfoldable pub validate_path : GraphPath → Result GraphPath
unfolding check_nodes check_edges
validate_path path = do
  fail_if (not (eqb (length path.nodes) (length path.edges + 1))) evidence_contract_error
      "Graph path node/edge cardinality is invalid"
  fail_if (is_empty path.edges) evidence_contract_error
      "Graph path must contain at least one relation"
  check_nodes path.nodes
  check_edges path.nodes path.edges
  fail_if (not (unique (map (λ e. e.relation_id) path.edges))) evidence_contract_error
      "Graph path relation IDs must be unique"
  fail_if (blank path.path_description) evidence_contract_error
      "Graph path description must not be blank"
  ok path

-- `eligible_ids`
abbrev pub eligible_ids : RetrievalContext → List String
eligible_ids context = map (λ i. i.unit_id) (filter (λ i. i.is_eligible) context.evidence)

-- `enumerate`, from a rank on
unfoldable pub validate_units :
    RetrievalContext → ℕ → List RetrievedUnit → Result (List EvidenceCandidate)
unfolding validate_unit
validate_units context rank [] = ok []
validate_units context rank (unit ∷ units) = do
  valid ← validate_unit unit context
  rest ← validate_units context (rank + 1) units
  ok (
      record { unit = valid; rank = rank; is_eligible = contains (eligible_ids context) unit.id }
      ∷ rest)

unfoldable pub validate_paths : (String → String) → ℕ → List GraphPath → Result (List ValidatedPath)
unfolding validate_path build_topology_path_fingerprint
validate_paths sha256_hex rank [] = ok []
validate_paths sha256_hex rank (path ∷ paths) = do
  valid ← validate_path path
  path_id ← build_topology_path_fingerprint sha256_hex path
  rest ← validate_paths sha256_hex (rank + 1) paths
  ok (record { path = valid; path_id = path_id; rank = rank } ∷ rest)

-- `EvidenceValidator.validate`
unfoldable pub validate : (String → String) → RetrievalContext → Result ValidatedEvidence
unfolding validate_units validate_paths
validate sha256_hex context = do
  candidates ← validate_units context 0 context.retrieved_units
  paths ← validate_paths sha256_hex 0 context.graph_paths
  ok (record { candidates = candidates; paths = paths })
