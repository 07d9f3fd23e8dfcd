-- ===== src/Generation/Grounding/Temporal.antt =====
-- src/generation/grounding.py: the temporal assertions of an answer.
use Prim.Native.String.{◌++◌}
use legal_graphrag_platform.Base.{
  String, not, ◌&&◌, ◌||◌, Option, none, some, List, [], ◌∷◌, map, if◌then◌else◌, is_none, is_empty,
  flat_map, contains, ◌==◌, first_occurrence, same_set,
}
use legal_graphrag_platform.Base.Result.{
  Result, ok, raise, key_error, fail_if, of_option, ◌>>=◌, ◌>>◌, traverse,
  temporal_answer_validation_error,
}
use legal_graphrag_platform.Base.Dict.{Dict, lookup, index_by}
use legal_graphrag_platform.Base.Date.{isoformat, opt_date_eq}
use legal_graphrag_platform.Retrieval.Models.{is_valid_on}
use legal_graphrag_platform.Generation.Models.Projected.{
  LegalEvidenceBlock, ProjectedAnswerContext, same_flag,
}
use legal_graphrag_platform.Generation.Models.Candidate.{
  TemporalAssertion, AnswerCandidate, iter_candidate_statements,
}

unfoldable pub validate_temporal :
    ProjectedAnswerContext → Dict LegalEvidenceBlock → TemporalAssertion → Result String
unfolding lookup is_valid_on isoformat
validate_temporal projected evidence assertion = do
  fail_if
      (is_none projected.resolved_from
        || not (opt_date_eq projected.resolved_to projected.resolved_from))
      temporal_answer_validation_error "Temporal assertion requires one resolved query date"
  fail_if (not (opt_date_eq (some assertion.query_date) projected.resolved_from))
      temporal_answer_validation_error "Temporal assertion date mismatch"
  found ←
      of_option (lookup assertion.subject_unit_id evidence) temporal_answer_validation_error
        "Temporal assertion subject is not allowlisted"
  let valid = is_valid_on found.effective_from found.effective_to assertion.query_date
  fail_if (not (same_flag assertion.asserted_valid valid)) temporal_answer_validation_error
      "Temporal assertion conflicts with retrieved interval"
  ok (
      "Theo phạm vi dữ liệu truy xuất, "
      ++ found.citation_label
      ++ " "
      ++ (if valid then "có hiệu lực" else "không có hiệu lực")
      ++ " tại ngày "
      ++ isoformat assertion.query_date
      ++ ".")

pub first_missing : List String → List String → Option String
first_missing known [] = none
first_missing known (x ∷ xs) =
    let rest = first_missing known xs in if contains known x then rest else some x

unfoldable pub check_declared : Option String → Result (Unit {0})
check_declared none = ok tt
check_declared (some id) =
    raise temporal_answer_validation_error ("Temporal assertion is not declared: " ++ id)

-- Lines 124 to 155: `assertions_by_id`, `assertion_order` and the notes.
unfoldable pub temporal_notes :
    ProjectedAnswerContext → Dict LegalEvidenceBlock → AnswerCandidate → Result (List String)
unfolding first_occurrence validate_temporal first_missing check_declared index_by lookup
    iter_candidate_statements
temporal_notes projected evidence candidate = do
  let statements = iter_candidate_statements candidate
  let declared = map (λ a. a.assertion_id) candidate.temporal_assertions
  let order = first_occurrence (flat_map (λ s. s.temporal_assertion_ids) statements)
  fail_if (projected.intent == "validity" && is_empty order) temporal_answer_validation_error
      "A validity answer must link at least one temporal assertion"
  check_declared (first_missing declared order)
  fail_if (not (same_set declared order)) temporal_answer_validation_error
      "Every temporal assertion must be linked from a statement"
  traverse
      (λ id.
        of_option (lookup id (index_by (λ a. a.assertion_id) candidate.temporal_assertions))
          key_error id
        >>= λ a. validate_temporal projected evidence a)
      order
