-- ===== src/Generation/Projection/Request.antt =====
-- The prompt that generation/context_projection.py builds for the provider.
use Prim.Native.String.{◌++◌}
use mathlib.Core.List.{◌++◌ as ◌⧺◌}
use legal_graphrag_platform.Base.{
  String, Option, none, some, List, [], ◌∷◌, if◌then◌else◌, is_some, ◌==◌,
}
use legal_graphrag_platform.Base.Text.{join}
use legal_graphrag_platform.Base.Date.{Date, isoformat}
use legal_graphrag_platform.Base.Json.{
  Json, str, null, arr, obj, end, field, strings, opt_str, compact, spaced, dumps,
}
use legal_graphrag_platform.Generation.Models.Composition.{AnswerCompositionPlan}
use legal_graphrag_platform.Generation.Models.Projected.{
  ProjectedAnswerContext, EvidenceRegistry, ProviderAnswerRequest,
}
use legal_graphrag_platform.Generation.Projection.Payload.{
  system_instruction, evidence_json, path_json, composition_json, items_of, opt_date,
}

abbrev opt_composition : Option AnswerCompositionPlan → Json
unfolding composition_json
opt_composition none = null
opt_composition (some plan) = composition_json plan

-- `_provider_payload`, the keys sorted
unfoldable pub provider_payload : ProjectedAnswerContext → Json
unfolding evidence_json path_json items_of opt_date opt_composition
provider_payload p = obj (
    field "anchor_node_ids" (arr (strings p.anchor_node_ids)) (
      field "composition_plan" (opt_composition p.composition_plan) (
        field "evidence" (arr (items_of evidence_json p.evidence)) (
          field "intent" (str p.intent) (
            field "paths" (arr (items_of path_json p.paths)) (
              field "projection_contract_version" (str "answer-context-v2") (
                field "query" (str p.query) (
                  field "relation_goal" (opt_str p.relation_goal) (
                    field "resolved_from" (opt_date p.resolved_from) (
                      field "resolved_to" (opt_date p.resolved_to) (
                        field "strategy" (str p.strategy)
                          (field "temporal_source" (str p.temporal_source) end))))))))))))

abbrev text_array : List String → String
unfolding dumps
text_array ids = dumps spaced (arr (strings ids))

abbrev path_rules : ProjectedAnswerContext → List String → List String
path_rules projected [] = "Every statement reasoning_path_ids MUST be an empty array." ∷ []
path_rules projected (id ∷ ids) =
    ("Each statement reasoning_path_ids MUST contain only these IDs: " ++ text_array (id ∷ ids))
    ∷ (if is_some projected.relation_goal
        then ("At least one supported statement reasoning_path_ids MUST contain "
            ++ "a path proving RELATION_GOAL from an ANCHOR_NODE_ID.")
          ∷ []
        else [])

abbrev temporal_rules : ProjectedAnswerContext → Option Date → List String
unfolding isoformat
temporal_rules projected none =
    ("temporal_assertions and every statement temporal_assertion_ids MUST "
      ++ "be empty because this query has no resolved temporal point.")
    ∷ []
temporal_rules projected (some d) =
    ("Each temporal assertion needs a unique assertion_id, must be linked "
      ++ "from at least one statement, and query_date MUST equal "
      ++ isoformat d
      ++ ".")
    ∷ (if projected.intent == "validity"
        then ("A validity answer MUST declare and link at least one temporal "
            ++ "assertion for an anchored subject unit.")
          ∷ []
        else [])

-- `_output_contract`
unfoldable pub output_contract : ProjectedAnswerContext → EvidenceRegistry → String
unfolding text_array temporal_rules
output_contract projected registry = join "\n" (
    ("BEGIN_OUTPUT_CONTRACT"
      ∷ ("ALLOWED_CITATION_IDS: " ++ text_array registry.allowed_citation_ids)
      ∷ "Each statement citations[].citation_id MUST be one of ALLOWED_CITATION_IDS."
      ∷ ("Each statement citations[].quoted_text MUST be a verbatim substring of "
          ++ "that citation's evidence content_raw (exact characters, no paraphrase).")
      ∷ "Every supported legal statement MUST contain at least one citation."
      ∷ "statement_id MUST be unique across direct_answer, sections and caveats."
      ∷ "reasoning_path_ids and temporal_assertion_ids belong to each statement."
      ∷ [])
    ⧺ (if is_some projected.composition_plan
        then ("Address every COMPOSITION_PLAN operand and compare them explicitly; "
            ++ "do not transfer a rule from one operand to another.")
          ∷ []
        else [])
    ⧺ path_rules projected registry.allowed_path_ids
    ⧺ temporal_rules projected projected.resolved_from
    ⧺ "END_OUTPUT_CONTRACT" ∷ [])

-- `provider_request`
unfoldable pub provider_request : ProjectedAnswerContext → EvidenceRegistry → ProviderAnswerRequest
unfolding output_contract provider_payload dumps
provider_request projected registry = record {
  system_instruction = system_instruction;
  prompt =
      output_contract projected registry
      ++ "\nBEGIN_TRUSTED_RETRIEVAL_CONTEXT\n"
      ++ dumps compact (provider_payload projected)
      ++ "\nEND_TRUSTED_RETRIEVAL_CONTEXT";
}
