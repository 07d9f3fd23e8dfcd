-- ===== src/Retrieval/EvidenceVerifier/Origins.antt =====
-- Where the evidence records come from, and what they cover.
use mathlib.Core.Bool.{true≢false}
use legal_graphrag_platform.Base.{
  ℕ, ◌+◌, String, ◌≡◌, refl, sym, ap, ◌∙◌, ◌⊎◌, inl, inr, true, false, not, Option, none, some,
  List, [], ◌∷◌, contains, All, Member, flat_map, Bool-cases, All_at, All-append, All-map,
  All-of_members,
}
use legal_graphrag_platform.Base.Text.{blank}
use legal_graphrag_platform.Base.Float.{Float}
use legal_graphrag_platform.Retrieval.Models.{RetrievedUnit, GraphPath, GraphNodeRef, EvidenceItem}
use legal_graphrag_platform.Retrieval.EvidenceVerifier.{
  unit_item, rerank_items, unit_items, Records, node_unit_id, add_node, add_nodes, add_paths,
  verify_and_build,
}

-- A record of a retrieved unit whose text is not blank.
pub record IsOfUnit (units : List RetrievedUnit) (item : EvidenceItem) : Type 0 where
  pub unit : RetrievedUnit
  pub retrieved : Member unit units
  pub same_id : item.unit_id ≡ unit.id
  pub has_text : blank unit.content_raw ≡ false

-- A record is not eligible, or it is of a retrieved unit with a text.
abbrev Traced : List RetrievedUnit → EvidenceItem → Type 0
Traced units item = (item.is_eligible ≡ false) ⊎ IsOfUnit units item

module _ (units : List RetrievedUnit) where
  unit_item-Traced :
      (unit : RetrievedUnit)
      → Member unit units
      → (item : EvidenceItem) → item.unit_id ≡ unit.id
      → item.is_eligible ≡ not (blank unit.content_raw)
      → Traced units item
  unit_item-Traced unit m item same eligible = elim (Bool-cases (blank unit.content_raw)) [
    | inl e ↦ inl (eligible ∙ ap not e)
    | inr e ↦ inr (record { unit = unit; retrieved = m; same_id = same; has_text = e })
  ]

  rerank_items-Traced :
      (unit : RetrievedUnit)
      → Member unit units
      → (o : Option Float) → All (Traced units) (rerank_items unit o)
  unfolding rerank_items unit_item
  rerank_items-Traced unit m none = tt
  rerank_items-Traced unit m (some score) = (unit_item-Traced unit m _ refl refl, tt)

  unit_items-Traced :
      (unit : RetrievedUnit) → Member unit units → All (Traced units) (unit_items unit)
  unfolding unit_items unit_item
  unit_items-Traced unit m =
      All-append (Traced units) _ (rerank_items unit unit.rerank_score)
        (All-map (Traced units) _ unit.retrieval_sources
          (All-of_members _ unit.retrieval_sources (λ s _. unit_item-Traced unit m _ refl refl)))
        (rerank_items-Traced unit m unit.rerank_score)

  all_units-Traced :
      (us : List RetrievedUnit)
      → All (λ u. Member u units) us
      → All (Traced units) (flat_map unit_items us)
  all_units-Traced [] h = tt
  all_units-Traced (u ∷ us) h =
      All-append (Traced units) (unit_items u) (flat_map unit_items us) (unit_items-Traced u h.0)
        (all_units-Traced us h.1)

  add_nodes-Traced :
      (path_id description : String) (r : Records) (nodes : List GraphNodeRef)
      → All (Traced units) r.items
      → All (Traced units) (add_nodes path_id description r nodes).items
  unfolding add_nodes add_node
  add_nodes-Traced path_id description r [] h = h
  add_nodes-Traced path_id description r (node ∷ nodes) h =
      add_nodes-Traced path_id description (add_node path_id description r node) nodes
        (elim (Bool-cases (contains r.existing_ids (node_unit_id node))) [
          | inl e ↦ rw e h
          | inr e ↦ rw e (All-append (Traced units) r.items _ h (inl refl, tt))
        ])

  add_paths-Traced :
      (index : ℕ) (r : Records) (paths : List GraphPath)
      → All (Traced units) r.items
      → All (Traced units) (add_paths index r paths).items
  unfolding add_paths
  add_paths-Traced index r [] h = h
  add_paths-Traced index r (path ∷ paths) h =
      add_paths-Traced (index + 1) _ paths (add_nodes-Traced _ _ r path.nodes h)

-- An eligible evidence record is of a retrieved unit whose text is not blank: no graph node alone
-- makes evidence eligible.
pub verify_and_build-IsOfUnit :
    (units : List RetrievedUnit) (graph_paths : List GraphPath) (item : EvidenceItem)
    → Member item (verify_and_build units graph_paths)
    → item.is_eligible ≡ true
    → IsOfUnit units item
unfolding verify_and_build
verify_and_build-IsOfUnit units graph_paths item m eligible = traced_unit (
    All_at (Traced units) _ item
      (add_paths-Traced units 0 _ graph_paths
        (all_units-Traced units units (All-of_members (λ u. Member u units) units (λ u k. k))))
      m)
  where
    traced_unit : Traced units item → IsOfUnit units item
    traced_unit (inl n) = absurd (true≢false (sym eligible ∙ n))
    traced_unit (inr u) = u
