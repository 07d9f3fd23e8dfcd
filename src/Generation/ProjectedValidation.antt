-- ===== src/Generation/ProjectedValidation.antt =====
-- src/generation/projected_validation.py: is the required evidence still whole after the projection?
use legal_graphrag_platform.Base.{
  find?, first_occurrence, String, Bool, true, false, not, ◌||◌, Option, none, some, List, [], ◌∷◌,
  map, if◌then◌else◌, ltb, is_some, is_empty, contains, flat_map, ◌==◌, any, filter, subset, length,
  same_set, filter_map,
}
use legal_graphrag_platform.Base.Result.{Result, ok, of_option, ◌>>=◌, value_error}
use legal_graphrag_platform.Base.Dict.{Dict, lookup, index_by}
use legal_graphrag_platform.Retrieval.Models.{IntentType, intent_value}
use legal_graphrag_platform.Generation.Models.Composition.{AnswerCompositionPlan}
use legal_graphrag_platform.Generation.Models.Projected.{ProjectedAnswerContext, LegalEvidenceBlock}
use legal_graphrag_platform.Generation.Sufficiency.{SufficiencyResult, enough}
use legal_graphrag_platform.Generation.Compaction.{CompactionPlan}
use legal_graphrag_platform.Generation.Compaction.Required.{EvidenceBundle}

abbrev insufficient_projection : String → SufficiencyResult
insufficient_projection reason = record {
  sufficient = false;
  reason_code = some "PROJECTED_EVIDENCE_INSUFFICIENT";
  reason = some reason;
}

-- `IntentType(value)`
unfoldable pub intent_of : String → Result IntentType
unfolding intent_value
intent_of value =
    of_option
      (find? (λ i. intent_value i == value)
        (IntentType.factual ∷ IntentType.validity ∷ IntentType.hierarchy ∷ IntentType.comparison
          ∷ IntentType.definition ∷ IntentType.multi_hop ∷ []))
      value_error value

-- `admitted`, and its values
abbrev pub admitted_bundles : ProjectedAnswerContext → CompactionPlan → Dict EvidenceBundle
unfolding index_by
admitted_bundles projected plan =
    index_by (λ b. b.bundle_id)
      (filter (λ b. contains projected.admitted_bundle_ids b.bundle_id)
        (flat_map (λ bs. bs) plan.required_bundle_sets))

abbrev pub values : {V : Type 0} → Dict V → List V
values d = map (λ e. e.1) d

-- The checks of the loop over `admitted.values()`; none is a bundle that is whole.
unfoldable pub lost_evidence : List String → List String → List EvidenceBundle → Option String
lost_evidence selected path_ids [] = none
lost_evidence selected path_ids (b ∷ bs) =
    let rest = lost_evidence selected path_ids bs in
    if not (subset b.unit_ids selected)
    then some "Projected context lost required legal evidence"
    else if not (subset b.path_ids path_ids)
    then some "Projected context lost a required graph path"
    else rest

unfoldable pub operands_covered : Option AnswerCompositionPlan → List EvidenceBundle → Bool
operands_covered none admitted = true
operands_covered (some plan) admitted =
    same_set (filter_map (λ b. b.operand_id) admitted) (map (λ o. o.operand_id) plan.operands)

has_start : Option LegalEvidenceBlock → Bool
has_start none = false
has_start (some e) = is_some e.effective_from

-- The branches by intent.
unfoldable pub lost_intent :
    ProjectedAnswerContext → CompactionPlan → List EvidenceBundle → IntentType → Option String
unfolding has_start index_by lookup
lost_intent projected plan admitted IntentType.factual =
    if is_empty projected.selected_unit_ids
    then some "Projected context has no direct evidence"
    else none
lost_intent projected plan admitted IntentType.definition =
    if is_empty projected.selected_unit_ids
    then some "Projected context has no direct evidence"
    else none
lost_intent projected plan admitted IntentType.hierarchy =
    if not (any (λ p. any (λ e. e.relation_type == "CONTAINS") p.edges) projected.paths)
    then some "Projected hierarchy path is incomplete"
    else none
lost_intent projected plan admitted IntentType.multi_hop =
    if is_empty projected.paths || is_empty plan.required_bundle_sets
    then some "Projected graph path is incomplete"
    else if is_empty plan.authoritative_path_ids
        || not (subset (map (λ p. p.path_id) projected.paths) plan.authoritative_path_ids)
        || any (λ b. not (subset b.path_ids plan.authoritative_path_ids)) admitted
    then some "Projected graph path is outside the satisfied plan"
    else none
lost_intent projected plan admitted IntentType.validity =
    let subjects = flat_map (λ b. b.temporal_subject_ids) admitted in
    let evidence = index_by (λ (e : LegalEvidenceBlock). e.unit_id) projected.evidence in
    if not (is_some projected.resolved_from)
    then some "Projected context has no temporal point"
    else if is_empty subjects || any (λ id. not (has_start (lookup id evidence))) subjects
    then some "Projected temporal evidence is incomplete"
    else none
lost_intent projected plan admitted IntentType.comparison =
    if ltb (length (first_occurrence (flat_map (λ b. b.version_keys) admitted))) 2
    then some "Projected comparison versions are incomplete"
    else none

abbrev verdict : Option String → SufficiencyResult
verdict none = enough
verdict (some reason) = insufficient_projection reason

unfoldable pub check_admitted :
    ProjectedAnswerContext
    → CompactionPlan
    → List EvidenceBundle
    → Option String
    → Result SufficiencyResult
unfolding intent_of lost_intent operands_covered
check_admitted projected plan admitted (some reason) = ok (insufficient_projection reason)
check_admitted projected plan admitted none =
    if not (operands_covered projected.composition_plan admitted)
    then ok (insufficient_projection "Projected comparison evidence is incomplete")
    else (do
      intent ← intent_of projected.intent
      ok (verdict (lost_intent projected plan admitted intent)))

-- `ProjectedContextValidator.evaluate`
unfoldable pub evaluate_projected :
    ProjectedAnswerContext → CompactionPlan → Result SufficiencyResult
unfolding check_admitted lost_evidence
evaluate_projected projected plan =
    let admitted = admitted_bundles projected plan in
    if not (same_set projected.admitted_bundle_ids (map (λ e. e.0) admitted))
    then ok (insufficient_projection "Projected context contains an unknown bundle")
    else check_admitted projected plan (values admitted) (
        lost_evidence projected.selected_unit_ids (map (λ p. p.path_id) projected.paths)
          (values admitted))
