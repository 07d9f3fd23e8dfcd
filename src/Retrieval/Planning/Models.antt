-- ===== src/Retrieval/Planning/Models.antt =====
-- src/retrieval/planning/models.py: the plans, and their execution's result in executor.py.
use legal_graphrag_platform.Base.{String, Option, List, [], ◌∷◌}
use legal_graphrag_platform.Base.Float.{Float}
use legal_graphrag_platform.Retrieval.Models.{GraphPath, PlanExecutionResult}

pub data QueryDirection : Type 0 where
  outgoing incoming : QueryDirection

abbrev pub direction_value : QueryDirection → String
direction_value QueryDirection.outgoing = "outgoing"
direction_value QueryDirection.incoming = "incoming"

pub data EndpointResolutionMethod : Type 0 where
  structural fulltext vector_rrf : EndpointResolutionMethod

abbrev pub resolution_value : EndpointResolutionMethod → String
resolution_value EndpointResolutionMethod.structural = "STRUCTURAL"
resolution_value EndpointResolutionMethod.fulltext = "FULLTEXT"
resolution_value EndpointResolutionMethod.vector_rrf = "VECTOR_RRF"

-- The members of the closed enumerations of labels and relations are their values.
pub record AnchorMention : Type 0 where
  pub text : String
  pub expected_label : Option String

pub record TargetMention : Type 0 where
  pub text : String

pub record PathStepConstraint : Type 0 where
  pub relation : String
  pub direction : QueryDirection
  pub next_label : String

pub record UnlinkedSemanticPlan : Type 0 where
  pub anchor : AnchorMention
  pub target : TargetMention
  pub steps : List PathStepConstraint

pub record BoundEndpoint : Type 0 where
  pub mention_text : String
  pub node_id : String
  pub label : String
  pub resolution_method : EndpointResolutionMethod
  pub score : Option Float

pub record BoundSemanticPlan : Type 0 where
  pub unlinked : UnlinkedSemanticPlan
  pub bound_anchor : BoundEndpoint
  pub bound_target : BoundEndpoint

pub record PlannedPathExecution : Type 0 where
  pub result : PlanExecutionResult
  pub paths : List GraphPath
  pub path_fingerprints : List String
  pub citable_unit_ids : List String

-- `plan.target_label`; a plan has steps.
abbrev pub target_label : List PathStepConstraint → String
target_label [] = ""
target_label (step ∷ []) = step.next_label
target_label (step ∷ next ∷ steps) = target_label (next ∷ steps)

-- `SEMANTIC_LIFTABLE_TARGETS`
abbrev pub semantic_liftable_targets : List String
semantic_liftable_targets = "LegalConcept" ∷ "LegalSubject" ∷ "LegalAction" ∷ []
