-- ===== src/Generation/Diagnostics.antt =====
-- What src/generation/service.py writes under `generation_context` of the retrieval's metrics.
use legal_graphrag_platform.Base.{
  ℕ, ◌+◌, String, false, Option, none, some, List, [], ◌∷◌, ltb, length, take,
}
use legal_graphrag_platform.Base.Dict.{Dict, lookup, insert, update}
use legal_graphrag_platform.Retrieval.Models.Context.{Detail, Metric}
use legal_graphrag_platform.Generation.Models.Composition.{
  AnswerCompositionPlan, AnswerCompositionOperand,
}
use legal_graphrag_platform.Generation.Models.Projected.{
  OmittedEvidence, omission_value, ProjectedAnswerContext,
}
use legal_graphrag_platform.Generation.Evidence.{ValidatedEvidence}
use legal_graphrag_platform.Generation.Compaction.{CompactionPlan}

abbrev pub opt_text : Option String → Detail
opt_text none = Detail.null
opt_text (some s) = Detail.text s

known_count : Option ℕ → ℕ
known_count none = 0
known_count (some n) = n

-- `dict(Counter(item.reason for item in omitted))`
unfoldable pub count_reasons : Dict ℕ → List OmittedEvidence → Dict ℕ
unfolding insert lookup omission_value known_count
count_reasons counts [] = counts
count_reasons counts (o ∷ os) =
    let reason = omission_value o.reason in
    count_reasons (insert reason (known_count (lookup reason counts) + 1) counts) os

abbrev pub insufficient_diagnostics : Option String → Dict Detail
insufficient_diagnostics code =
    ("sufficient", Detail.flag false) ∷ ("sufficiency_reason_code", opt_text code) ∷ []

-- The entry of a projection that found no evidence to project.
unfoldable pub compaction_diagnostics :
    ValidatedEvidence → CompactionPlan → Option String → Dict Detail
unfolding count_reasons
compaction_diagnostics validated plan code =
    ("sufficient", Detail.flag false)
    ∷ ("sufficiency_reason_code", opt_text code)
    ∷ ("validated_candidate_count", Detail.count (length validated.candidates))
    ∷ ("validated_path_count", Detail.count (length validated.paths))
    ∷ ("compacted_candidate_count", Detail.count (length plan.candidates))
    ∷ ("compacted_path_count", Detail.count (length plan.paths))
    ∷ ("omitted_evidence_count", Detail.count (length plan.omitted_evidence))
    ∷ ("omitted_reason_counts", Detail.counts (count_reasons [] plan.omitted_evidence))
    ∷ []

unfoldable pub operand_counts : Dict ℕ → List AnswerCompositionOperand → Dict ℕ
unfolding insert
operand_counts counts [] = counts
operand_counts counts (o ∷ os) =
    operand_counts (insert o.operand_id (length o.evidence_unit_ids) counts) os

composition_diagnostics : Option AnswerCompositionPlan → Dict Detail
unfolding operand_counts
composition_diagnostics none = []
composition_diagnostics (some plan) =
    ("composition_mode", Detail.text "comparison")
    ∷ ("composition_operand_count", Detail.count (length plan.operands))
    ∷ ("composition_operand_evidence_counts", Detail.counts (operand_counts [] plan.operands))
    ∷ []

-- `_projection_diagnostics`
unfoldable pub projection_diagnostics :
    ValidatedEvidence → CompactionPlan → ProjectedAnswerContext → Dict Detail
unfolding count_reasons composition_diagnostics update
projection_diagnostics validated plan projected =
    update
      (("validated_candidate_count", Detail.count (length validated.candidates))
        ∷ ("validated_path_count", Detail.count (length validated.paths))
        ∷ ("compacted_candidate_count", Detail.count (length plan.candidates))
        ∷ ("compacted_path_count", Detail.count (length plan.paths))
        ∷ ("selected_unit_count", Detail.count (length projected.selected_unit_ids))
        ∷ ("selected_path_count", Detail.count (length projected.paths))
        ∷ ("selected_unit_ids", Detail.texts (take 10 projected.selected_unit_ids))
        ∷ ("selected_unit_ids_truncated", Detail.flag (ltb 10 (length projected.selected_unit_ids)))
        ∷ ("omitted_evidence_count", Detail.count (length projected.omitted_evidence))
        ∷ ("omitted_reason_counts", Detail.counts (count_reasons [] projected.omitted_evidence))
        ∷ ("used_evidence_chars", Detail.count projected.budget.used_evidence_chars)
        ∷ ("evidence_budget_chars", Detail.count projected.budget.evidence_budget_chars)
        ∷ ("truncated", Detail.flag projected.truncated)
        ∷ ("admitted_bundle_count", Detail.count (length projected.admitted_bundle_ids))
        ∷ [])
      (composition_diagnostics projected.composition_plan)

-- `metrics.get("generation_context", {})`; the service has stored nothing but a dictionary there.
unfoldable pub generation_context : Dict Metric → Dict Detail
unfolding lookup
generation_context metrics = elim (lookup "generation_context" metrics) [
  | none ↦ []
  | some m ↦ elim m [ Metric.plain d ↦ [] | Metric.group d ↦ d ]
]
