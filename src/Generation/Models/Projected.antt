-- ===== src/Generation/Models/Projected.antt =====
-- src/generation/models.py: what is projected into a prompt, and the evidence that may be cited.
use legal_graphrag_platform.Generation.Models.Composition.{
  AnswerCompositionOperand, AnswerCompositionPlan,
}
use legal_graphrag_platform.Base.{
  ℕ, String, Bool, true, false, not, Option, none, some, List, [], ◌∷◌, map, is_empty, subset,
  unique, any,
}
use legal_graphrag_platform.Base.Result.{Result, ok, value_error, fail_if, ◌>>◌}
use legal_graphrag_platform.Base.Lists.{same_list}
use legal_graphrag_platform.Base.Date.{Date}
use legal_graphrag_platform.Retrieval.Models.{UnitLabel, GraphEdge}

pub data OmissionReason : Type 0 where
  hierarchical_duplicate content_duplicate context_budget_exceeded : OmissionReason
  superseded_by_more_specific_unit : OmissionReason

abbrev pub is_budget_omission : OmissionReason → Bool
is_budget_omission OmissionReason.context_budget_exceeded = true
is_budget_omission OmissionReason.hierarchical_duplicate = false
is_budget_omission OmissionReason.content_duplicate = false
is_budget_omission OmissionReason.superseded_by_more_specific_unit = false

-- the reason's text
unfoldable pub omission_value : OmissionReason → String
omission_value OmissionReason.hierarchical_duplicate = "hierarchical_duplicate"
omission_value OmissionReason.content_duplicate = "content_duplicate"
omission_value OmissionReason.context_budget_exceeded = "context_budget_exceeded"
omission_value OmissionReason.superseded_by_more_specific_unit = "superseded_by_more_specific_unit"

pub record OmittedEvidence : Type 0 where
  pub unit_id : String
  pub reason : OmissionReason
  pub retained_unit_id : Option String

pub record ContextBudgetPlan : Type 0 where
  pub total_chars : ℕ
  pub fixed_overhead_chars : ℕ
  pub evidence_budget_chars : ℕ
  pub safety_reserve_chars : ℕ
  pub used_evidence_chars : ℕ

-- `EvidenceRegistryEntry` has the same fields.
pub record LegalEvidenceBlock : Type 0 where
  pub unit_id : String
  pub label : UnitLabel
  pub citation_label : String
  pub document_id : String
  pub document_number : Option String
  pub document_title : Option String
  pub version_family_id : Option String
  pub article_id : Option String
  pub clause_id : Option String
  pub deep_link : String
  pub content_raw : String
  pub effective_from : Option Date
  pub effective_to : Option Date
  pub legal_status : Option String

-- `ProjectedGraphEdge` and its citation evidence have the fields of the graph's own edge.
pub record ProjectedPathBlock : Type 0 where
  pub path_id : String
  pub nodes : List String
  pub edges : List GraphEdge
  pub description : String

pub record EvidenceRegistry : Type 0 where
  pub entries : List LegalEvidenceBlock
  pub allowed_citation_ids : List String
  pub allowed_path_ids : List String

unfoldable pub validate_registry : EvidenceRegistry → Result EvidenceRegistry
validate_registry registry = do
  let entry_ids = map (λ e. e.unit_id) registry.entries
  fail_if (not (same_list entry_ids registry.allowed_citation_ids)) value_error
      "Registry entries must equal allowed citation IDs"
  fail_if (not (unique entry_ids)) value_error "Registry citation IDs must be unique"
  fail_if (not (unique registry.allowed_path_ids)) value_error "Registry path IDs must be unique"
  ok registry

pub record ProjectedAnswerContext : Type 0 where
  pub query : String
  pub intent : String
  pub strategy : String
  pub temporal_source : String
  pub resolved_from : Option Date
  pub resolved_to : Option Date
  pub relation_goal : Option String
  pub anchor_node_ids : List String
  pub composition_plan : Option AnswerCompositionPlan
  pub evidence : List LegalEvidenceBlock
  pub paths : List ProjectedPathBlock
  pub admitted_bundle_ids : List String
  pub selected_unit_ids : List String
  pub omitted_evidence : List OmittedEvidence
  pub budget : ContextBudgetPlan
  pub truncated : Bool

unfoldable pub check_operands : List String → List AnswerCompositionOperand → Result (Unit {0})
check_operands selected [] = ok tt
check_operands selected (o ∷ rest) = do
  fail_if (is_empty o.evidence_unit_ids) value_error
      "Projected composition operands require selected evidence"
  fail_if (not (subset o.evidence_unit_ids selected)) value_error
      "Projected composition evidence must be selected"
  check_operands selected rest

unfoldable pub check_composition : List String → Option AnswerCompositionPlan → Result (Unit {0})
unfolding check_operands
check_composition selected none = ok tt
check_composition selected (some plan) = check_operands selected plan.operands

abbrev pub same_flag : Bool → Bool → Bool
same_flag true b = b
same_flag false b = not b

unfoldable pub validate_projection : ProjectedAnswerContext → Result ProjectedAnswerContext
unfolding check_composition
validate_projection projected = do
  let evidence_ids = map (λ e. e.unit_id) projected.evidence
  fail_if (not (same_list evidence_ids projected.selected_unit_ids)) value_error
      "selected_unit_ids must match projected evidence"
  fail_if (not (unique evidence_ids)) value_error "Projected evidence IDs must be unique"
  fail_if (not (unique projected.admitted_bundle_ids)) value_error
      "Admitted bundle IDs must be unique"
  check_composition projected.selected_unit_ids projected.composition_plan
  fail_if
      (not (
        same_flag projected.truncated
          (any (λ o. is_budget_omission o.reason) projected.omitted_evidence)))
      value_error "truncated must reflect context budget omissions"
  ok projected

pub record ProviderAnswerRequest : Type 0 where
  pub system_instruction : String
  pub prompt : String
