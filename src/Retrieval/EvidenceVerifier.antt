-- ===== src/Retrieval/EvidenceVerifier.antt =====
-- src/retrieval/evidence/verifier.py: the evidence records of the retrieved units and of the nodes
-- of the graph paths.
pub mod Origins
use Prim.Native.String.{◌++◌}
use mathlib.Core.List.{◌++◌ as ◌⧺◌}
use legal_graphrag_platform.Base.{
  ℕ, zero, suc, ◌+◌, ◌-◌, ◌≤◌, ◌<◌, String, ◌≡◌, refl, sym, ap, ◌∙◌, ◌≢◌, ◌⊎◌, inl, inr, Bool, true,
  false, not, ◌&&◌, ◌||◌, Option, none, some, List, [], ◌∷◌, map, if◌then◌else◌, leb, ltb, eqb,
  is_some, is_none, is_empty, contains, unique, All, Member, arith, flat_map, ◌==◌, Bool-cases,
  eq_iff, eq_refl, any, all, filter, subset, length,
}
use legal_graphrag_platform.Base.Result.{
  Result, ok, err, raise, fail_if, of_option, ◌>>=◌, ◌>>◌, traverse, >>=-eq-ok, of_option-bind-ok,
  guard-bind-ok, ok_inj,
}
use legal_graphrag_platform.Base.Text.{blank, strip, show_nat}
use legal_graphrag_platform.Base.Float.{Float}
use legal_graphrag_platform.Retrieval.Models.{
  RetrievedUnit, RetrievalChannel, GraphPath, GraphNodeRef, EvidenceItem, EvidenceType,
}

-- `_EVIDENCE_TYPE`
abbrev pub evidence_type_of : RetrievalChannel → EvidenceType
evidence_type_of RetrievalChannel.vector = EvidenceType.vector
evidence_type_of RetrievalChannel.fulltext = EvidenceType.bm25
evidence_type_of RetrievalChannel.graph = EvidenceType.graph

-- `_score_for_source`
abbrev pub score_for_source : RetrievedUnit → RetrievalChannel → Option Float
score_for_source unit RetrievalChannel.vector = unit.vector_score
score_for_source unit RetrievalChannel.fulltext = unit.bm25_score
score_for_source unit RetrievalChannel.graph = unit.graph_score

unfoldable pub unit_item : RetrievedUnit → EvidenceType → Option Float → EvidenceItem
unfolding strip
unit_item unit type score = record {
  unit_id = unit.id;
  evidence_type = type;
  matched_text = some unit.content_raw;
  score = score;
  source_path_id = none;
  is_eligible = not (blank unit.content_raw);
}

unfoldable pub rerank_items : RetrievedUnit → Option Float → List EvidenceItem
unfolding unit_item
rerank_items unit none = []
rerank_items unit (some score) = unit_item unit EvidenceType.rerank (some score) ∷ []

-- The body of the loop over the units.
unfoldable pub unit_items : RetrievedUnit → List EvidenceItem
unfolding unit_item rerank_items
unit_items unit =
    map (λ s. unit_item unit (evidence_type_of s) (score_for_source unit s)) unit.retrieval_sources
    ⧺ rerank_items unit unit.rerank_score

-- `evidence` and `existing_ids`
pub record Records : Type 0 where
  pub items : List EvidenceItem
  pub existing_ids : List String

-- `node.citable_unit_id or node.node_id`
abbrev pub node_unit_id : GraphNodeRef → String
node_unit_id node = elim node.citable_unit_id [
  | none ↦ node.node_id
  | some id ↦ if id == "" then node.node_id else id
]

-- The body of the loop over the nodes of a path.
unfoldable pub add_node : String → String → Records → GraphNodeRef → Records
add_node path_id description r node =
    let id = node_unit_id node in
    if contains r.existing_ids id then r else record {
      items =
          r.items
          ⧺ record {
            unit_id = id;
            evidence_type = EvidenceType.graph;
            matched_text = some description;
            score = none;
            source_path_id = some path_id;
            is_eligible = false;
          }
            ∷ [];
      existing_ids = r.existing_ids ⧺ id ∷ [];
    }

unfoldable pub add_nodes : String → String → Records → List GraphNodeRef → Records
unfolding add_node
add_nodes path_id description r [] = r
add_nodes path_id description r (node ∷ nodes) =
    add_nodes path_id description (add_node path_id description r node) nodes

-- The loop over the paths, from an index on.
unfoldable pub add_paths : ℕ → Records → List GraphPath → Records
unfolding add_nodes show_nat
add_paths index r [] = r
add_paths index r (path ∷ paths) =
    add_paths (index + 1) (add_nodes ("path-" ++ show_nat index) path.path_description r path.nodes)
      paths

-- `EvidenceVerifier.verify_and_build`
unfoldable pub verify_and_build : List RetrievedUnit → List GraphPath → List EvidenceItem
unfolding unit_items add_paths
verify_and_build units graph_paths =
    let items = flat_map unit_items units in
    (add_paths 0 (record { items = items; existing_ids = map (λ i. i.unit_id) items })
      graph_paths).items
