-- ===== src/Retrieval/Planning/Exact.antt =====
-- What an exact path of a plan is, and that the validation of executor.py accepts nothing else.
use legal_graphrag_platform.Base.{
  &&-eq-true, All, List, [], ap, arith, contains, eq_iff, eqb, length, map, not, true, unique, ℕ,
  ◌+◌, ◌||◌, ◌∙◌, ◌∷◌, ◌≡◌,
}
use legal_graphrag_platform.Base.Result.{>>=-eq-ok, guard-bind-ok, not-eq-false, ok}
use legal_graphrag_platform.Retrieval.Models.{GraphPath, GraphNodeRef, GraphEdge}
use legal_graphrag_platform.Retrieval.GraphPaths.Merge.{SamePath, without_citations}
use legal_graphrag_platform.Retrieval.Planning.{
  has_endpoints, validate_steps, first_node, last_node, validate_exact_path, validate_all,
}
use legal_graphrag_platform.Retrieval.Planning.Models.{
  BoundSemanticPlan, PathStepConstraint, QueryDirection,
}

-- The edge runs between the nodes in the direction of the step.
abbrev pub RunsBetween : QueryDirection → GraphNodeRef → GraphEdge → GraphNodeRef → Type 0
RunsBetween QueryDirection.outgoing current edge following =
    (edge.source_id ≡ current.node_id) × (edge.target_id ≡ following.node_id)
RunsBetween QueryDirection.incoming current edge following =
    (edge.source_id ≡ following.node_id) × (edge.target_id ≡ current.node_id)

pub record IsStep (current : GraphNodeRef) (edge : GraphEdge) (following : GraphNodeRef)
    (step : PathStepConstraint) : Type 0 where
  pub relation : edge.relation_type ≡ step.relation
  pub label : contains following.labels step.next_label ≡ true
  pub runs : RunsBetween step.direction current edge following

-- The nodes and edges follow the steps one by one, and end with them.
pub data Follows : List GraphNodeRef → List GraphEdge → List PathStepConstraint → Type 0 where
  arrived : (node : GraphNodeRef) → Follows (node ∷ []) [] []
  walk :
      {current following : GraphNodeRef} {nodes : List GraphNodeRef} {edge : GraphEdge}
      {edges : List GraphEdge} {step : PathStepConstraint} {steps : List PathStepConstraint}
      → IsStep current edge following step
      → Follows (following ∷ nodes) edges steps
      → Follows (current ∷ following ∷ nodes) (edge ∷ edges) (step ∷ steps)

-- A path of the plan: from its anchor to its target by its steps, with no node twice.
pub record IsExactPath (plan : BoundSemanticPlan) (path : GraphPath) : Type 0 where
  pub start : GraphNodeRef
  pub starts : first_node path.nodes ≡ ok start
  pub at_anchor : start.node_id ≡ plan.bound_anchor.node_id
  pub anchor_label : contains start.labels plan.bound_anchor.label ≡ true
  pub end_node : GraphNodeRef
  pub ends : last_node path.nodes ≡ ok end_node
  pub at_target : end_node.node_id ≡ plan.bound_target.node_id
  pub acyclic : unique (map (λ n. n.node_id) path.nodes) ≡ true
  pub follows : Follows path.nodes path.edges plan.unlinked.steps

has_endpoints-RunsBetween :
    (direction : QueryDirection) (current : GraphNodeRef) (edge : GraphEdge)
    (following : GraphNodeRef)
    → has_endpoints direction current edge following ≡ true
    → RunsBetween direction current edge following
has_endpoints-RunsBetween QueryDirection.outgoing current edge following h =
    let (a, b) = &&-eq-true _ _ h in ((eq_iff _ _).0 a, (eq_iff _ _).0 b)
has_endpoints-RunsBetween QueryDirection.incoming current edge following h =
    let (a, b) = &&-eq-true _ _ h in ((eq_iff _ _).0 a, (eq_iff _ _).0 b)

validate_steps-Follows :
    (index : ℕ) (nodes : List GraphNodeRef) (edges : List GraphEdge)
    (steps : List PathStepConstraint) {u : Unit {0}}
    → length edges ≡ length steps
    → length nodes ≡ length steps + 1
    → validate_steps index nodes edges steps ≡ ok u
    → Follows nodes edges steps
unfolding validate_steps
validate_steps-Follows index [] edges steps he hn e = absurd (omega arith)
validate_steps-Follows index (node ∷ []) [] [] he hn e = arrived node
validate_steps-Follows index (node ∷ []) (edge ∷ edges) [] he hn e = absurd (omega arith)
validate_steps-Follows index (node ∷ []) edges (step ∷ steps) he hn e = absurd (omega arith)
validate_steps-Follows index (node ∷ next ∷ nodes) edges [] he hn e = absurd (omega arith)
validate_steps-Follows index (node ∷ next ∷ nodes) [] (step ∷ steps) he hn e = absurd (omega arith)
validate_steps-Follows index (node ∷ next ∷ nodes) (edge ∷ edges) (step ∷ steps) he hn e =
    let (a, e₁) = guard-bind-ok _ _ _ _ e in
    let (b, e₂) = guard-bind-ok _ _ _ _ e₁ in
    let (c, e₃) = guard-bind-ok _ _ _ _ e₂ in
    walk
      (record {
        relation = (eq_iff _ _).0 (not-eq-false _ a);
        label = not-eq-false _ b;
        runs = has_endpoints-RunsBetween step.direction node edge next (not-eq-false _ c);
      })
      (validate_steps-Follows (index + 1) (next ∷ nodes) edges steps (omega arith) (omega arith) e₃)

-- A path that passes the validation is an exact path of the plan.
pub validate_exact_path-IsExactPath :
    (plan : BoundSemanticPlan) (path : GraphPath) {u : Unit {0}}
    → validate_exact_path plan path ≡ ok u
    → IsExactPath plan path
unfolding validate_exact_path
validate_exact_path-IsExactPath plan path e =
    let (a, e₁) =
      guard-bind-ok
        (not (eqb (length path.edges) (length plan.unlinked.steps))
          || not (eqb (length path.nodes) (length plan.unlinked.steps + 1)))
        _ _ _ e in
    let (start, s, e₂) = >>=-eq-ok (first_node path.nodes) _ e₁ in
    let (b, e₃) = guard-bind-ok _ _ _ _ e₂ in
    let (end_node, t, e₄) = >>=-eq-ok (last_node path.nodes) _ e₃ in
    let (c, e₅) = guard-bind-ok _ _ _ _ e₄ in
    let (d, e₆) = guard-bind-ok _ _ _ _ e₅ in
    let (l, e₇) = guard-bind-ok _ _ _ _ e₆ in
    record {
      start = start;
      starts = s;
      at_anchor = (eq_iff _ _).0 (not-eq-false _ b);
      anchor_label = not-eq-false _ l;
      end_node = end_node;
      ends = t;
      at_target = (eq_iff _ _).0 (not-eq-false _ c);
      acyclic = not-eq-false _ d;
      follows =
          validate_steps-Follows 1 path.nodes path.edges plan.unlinked.steps (ground (arith, a))
            (ground (arith, a)) e₇;
    }

pub validate_all-IsExactPath :
    (plan : BoundSemanticPlan) (paths : List GraphPath) {u : Unit {0}}
    → validate_all plan paths ≡ ok u
    → All (IsExactPath plan) paths
unfolding validate_all
validate_all-IsExactPath plan [] e = tt
validate_all-IsExactPath plan (path ∷ paths) e =
    let (u, e₁, e₂) = >>=-eq-ok (validate_exact_path plan path) _ e in
    (validate_exact_path-IsExactPath plan path e₁, validate_all-IsExactPath plan paths e₂)

RunsBetween-same :
    (direction : QueryDirection) (current : GraphNodeRef) (edge other : GraphEdge)
    (following : GraphNodeRef)
    → without_citations other ≡ without_citations edge
    → RunsBetween direction current edge following
    → RunsBetween direction current other following
RunsBetween-same QueryDirection.outgoing current edge other following h (a, b) =
    (ap (λ x. x.source_id) h ∙ a, ap (λ x. x.target_id) h ∙ b)
RunsBetween-same QueryDirection.incoming current edge other following h (a, b) =
    (ap (λ x. x.source_id) h ∙ a, ap (λ x. x.target_id) h ∙ b)

Follows-same :
    {nodes : List GraphNodeRef} {edges : List GraphEdge} {steps : List PathStepConstraint}
    (others : List GraphEdge)
    → Follows nodes edges steps
    → map without_citations others ≡ map without_citations edges
    → Follows nodes others steps
Follows-same [] (arrived node) h = arrived node
Follows-same (other ∷ others) (arrived node) h = cc
Follows-same [] (walk s f) h = cc
Follows-same (other ∷ others) (walk {current} {following} {edge} {step} s f) h =
    let same : without_citations other ≡ without_citations edge = cc in
    walk
      (record {
        relation = ap (λ x. x.relation_type) same ∙ s.relation;
        label = s.label;
        runs = RunsBetween-same step.direction current edge other following same s.runs;
      })
      (Follows-same others f (cc))

-- Merging keeps a path exact.
pub IsExactPath-SamePath :
    (plan : BoundSemanticPlan) (path merged : GraphPath)
    → SamePath path merged
    → IsExactPath plan path
    → IsExactPath plan merged
IsExactPath-SamePath plan path merged s h = record {
  start = h.start;
  starts = rw s.same_nodes h.starts;
  at_anchor = h.at_anchor;
  anchor_label = h.anchor_label;
  end_node = h.end_node;
  ends = rw s.same_nodes h.ends;
  at_target = h.at_target;
  acyclic = rw s.same_nodes h.acyclic;
  follows = rw s.same_nodes (Follows-same merged.edges h.follows s.same_edges);
}
