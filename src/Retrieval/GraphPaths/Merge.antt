-- ===== src/Retrieval/GraphPaths/Merge.antt =====
-- Merging paths of one topology keeps each topology that was given, and adds none.
use legal_graphrag_platform.Base.{
  ℕ, suc, ◌+◌, String, ◌≡◌, refl, sym, ap, ◌∙◌, inl, inr, Bool, true, false, Option, none, some,
  List, [], ◌∷◌, map, if◌then◌else◌, Member, all, length,
}
use legal_graphrag_platform.Base.Result.{Result, ok, >>=-eq-ok, ok_inj}
use legal_graphrag_platform.Base.Date.{Date}
use legal_graphrag_platform.Retrieval.Models.{GraphPath, GraphNodeRef, GraphEdge}
use legal_graphrag_platform.Retrieval.PathIdentity.{
  edge_topologies, build_topology_path_fingerprint,
}
use legal_graphrag_platform.Retrieval.GraphPaths.{
  is_graph_path_temporally_valid, edge_is_valid, path_rank_le, least_path, group_citations,
  merge_edges, merge_group,
}

-- The edge without its provenance.
abbrev pub without_citations : GraphEdge → GraphEdge
without_citations edge = record edge { citation_evidence = [] }

-- The same nodes, and the same edges but for their provenance.
pub record SamePath (path merged : GraphPath) : Type 0 where
  pub same_nodes : merged.nodes ≡ path.nodes
  pub same_edges : map without_citations merged.edges ≡ map without_citations path.edges

edge_topologies-without_citations :
    (nodes : List GraphNodeRef) (edges : List GraphEdge)
    → edge_topologies nodes (map without_citations edges) ≡ edge_topologies nodes edges
unfolding edge_topologies
edge_topologies-without_citations [] edges = refl
edge_topologies-without_citations (left ∷ []) edges = refl
edge_topologies-without_citations (left ∷ right ∷ nodes) [] = refl
edge_topologies-without_citations (left ∷ right ∷ nodes) (edge ∷ edges) =
    rw (edge_topologies-without_citations (right ∷ nodes) edges) refl

all-without_citations :
    (d : Date) (edges : List GraphEdge)
    → all (edge_is_valid d) (map without_citations edges) ≡ all (edge_is_valid d) edges
unfolding edge_is_valid
all-without_citations d [] = refl
all-without_citations d (edge ∷ edges) = rw (all-without_citations d edges) refl

-- A merged path is valid at the dates at which the path is.
pub valid-SamePath :
    (path merged : GraphPath) (d : Option Date)
    → SamePath path merged
    → is_graph_path_temporally_valid merged d ≡ is_graph_path_temporally_valid path d
unfolding is_graph_path_temporally_valid
valid-SamePath path merged none s = refl
valid-SamePath path merged (some d) s =
    rw (s.same_nodes, ← all-without_citations d merged.edges, s.same_edges, all-without_citations)
      refl

merge_edges-same :
    (group : List GraphPath) (index : ℕ) (edges merged : List GraphEdge)
    → merge_edges group index edges ≡ ok merged
    → map without_citations merged ≡ map without_citations edges
unfolding merge_edges
merge_edges-same group index [] merged e = let same : [] ≡ merged = ok_inj e in rw (← same) refl
merge_edges-same group index (edge ∷ edges) merged e =
    let (citations, e₁, e₂) = >>=-eq-ok (group_citations index [] group) _ e in
    let (rest, e₃, e₄) = >>=-eq-ok (merge_edges group (index + 1) edges) _ e₂ in
    rw (← ok_inj e₄) (rw (merge_edges-same group (index + 1) edges rest e₃) refl)

Member-least_path :
    (path : GraphPath) (paths : List GraphPath) → Member (least_path path paths) (path ∷ paths)
unfolding least_path
Member-least_path path [] = inl refl
Member-least_path path (other ∷ paths) =
    chosen (path_rank_le path other) (Member-least_path path paths) (Member-least_path other paths)
  where
    skip : {x : GraphPath} → Member x (path ∷ paths) → Member x (path ∷ other ∷ paths)
    skip (inl h) = inl h
    skip (inr h) = inr (inr h)

    chosen :
        (b : Bool)
        → Member (least_path path paths) (path ∷ paths)
        → Member (least_path other paths) (other ∷ paths)
        → Member (least_path (if b then path else other) paths) (path ∷ other ∷ paths)
    chosen true h k = skip h
    chosen false h k = inr k

-- A group is merged to one path, which is one of its paths but for the provenance.
pub record MergesTo (group out : List GraphPath) : Type 0 where
  pub canonical : GraphPath
  pub merged : GraphPath
  pub chosen : Member canonical group
  pub alone : out ≡ merged ∷ []
  pub same : SamePath canonical merged

pub merge_group-MergesTo :
    (path : GraphPath) (paths out : List GraphPath)
    → merge_group (path ∷ paths) ≡ ok out
    → MergesTo (path ∷ paths) out
unfolding merge_group
merge_group-MergesTo path paths out e =
    let canonical = least_path path paths in
    let (edges, e₁, e₂) = >>=-eq-ok (merge_edges (path ∷ paths) 0 canonical.edges) _ e in
    record {
      canonical = canonical;
      merged = _;
      chosen = Member-least_path path paths;
      alone = sym (ok_inj e₂);
      same = record {
        same_nodes = refl;
        same_edges = merge_edges-same (path ∷ paths) 0 canonical.edges edges e₁;
      };
    }

module _ (sha256_hex : String → String) where
  abbrev of_parts : List GraphNodeRef → List GraphEdge → Result String
  of_parts nodes edges =
      build_topology_path_fingerprint sha256_hex
        (record { nodes = nodes; edges = edges; path_description = "" })

  length-map : (edges : List GraphEdge) → length (map without_citations edges) ≡ length edges
  length-map [] = refl
  length-map (edge ∷ edges) = ap suc (length-map edges)

  fingerprint-without_citations :
      (nodes : List GraphNodeRef) (edges : List GraphEdge)
      → of_parts nodes (map without_citations edges) ≡ of_parts nodes edges
  unfolding build_topology_path_fingerprint
  fingerprint-without_citations nodes [] = refl
  fingerprint-without_citations nodes (edge ∷ edges) =
      rw (length-map edges, edge_topologies-without_citations nodes (edge ∷ edges)) refl

  -- The fingerprint is that of the path.
  pub fingerprint-SamePath :
      (path merged : GraphPath)
      → SamePath path merged
      → build_topology_path_fingerprint sha256_hex merged
        ≡ build_topology_path_fingerprint sha256_hex path
  unfolding build_topology_path_fingerprint
  fingerprint-SamePath path merged s =
      sym (fingerprint-without_citations merged.nodes merged.edges)
      ∙ ap (λ ns. of_parts ns (map without_citations merged.edges)) s.same_nodes
      ∙ ap (of_parts path.nodes) s.same_edges
      ∙ fingerprint-without_citations path.nodes path.edges
