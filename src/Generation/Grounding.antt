-- ===== src/Generation/Grounding.antt =====
-- src/generation/grounding.py: the candidate's citations are checked against the registry before
-- the answer is rendered; so are its paths (Grounding/Paths) and temporal assertions
-- (Grounding/Temporal).
pub mod Temporal
pub mod Paths
pub mod Citations
pub mod Soundness
pub mod Links
pub mod Failures
use Prim.Native.String.{◌++◌}
use legal_graphrag_platform.Base.{
  ℕ, ◌+◌, String, Bool, true, false, not, ◌&&◌, ◌||◌, Option, none, some, List, [], ◌∷◌, map,
  if◌then◌else◌, is_none, is_some, is_empty, flat_map, contains, any, filter, ◌==◌,
  first_occurrence, same_set,
}
use mathlib.Core.List.{◌++◌ as ◌⧺◌}
use legal_graphrag_platform.Base.Result.{
  Result, ok, raise, key_error, fail_if, of_option, ◌>>=◌, ◌>>◌, traverse,
  citation_validation_error, grounding_validation_error, reasoning_path_validation_error,
  temporal_answer_validation_error,
}
use legal_graphrag_platform.Base.Text.{strip, blank, collapse_whitespace, has_substring}
use legal_graphrag_platform.Base.Dict.{Dict, lookup, insert, index_by}
use legal_graphrag_platform.Base.Date.{isoformat, opt_date_eq}
use legal_graphrag_platform.Retrieval.Models.{
  IntentType, GraphEdge, IntentType, GraphEdge, IntentType, GraphEdge, IntentType, GraphEdge,
  IntentType, GraphEdge, IntentType, GraphEdge, IntentType, GraphEdge, IntentType, GraphEdge,
  IntentType, GraphEdge, IntentType, GraphEdge, IntentType, GraphEdge, IntentType, GraphEdge,
  IntentType, GraphEdge, IntentType, GraphEdge, GraphEdge, is_valid_on,
}
use legal_graphrag_platform.Generation.Models.{AnswerCitation, AnswerReasoningPath, AnswerResponse}
use legal_graphrag_platform.Generation.Models.Projected.{
  LegalEvidenceBlock, EvidenceRegistry, ProjectedAnswerContext, ProjectedPathBlock, same_flag,
}
use legal_graphrag_platform.Generation.Models.Candidate.{
  StatementCitation, GroundedStatement, TemporalAssertion, AnswerCandidate,
  iter_candidate_statements,
}
use legal_graphrag_platform.Generation.Renderer.{render}
use legal_graphrag_platform.Generation.Grounding.Paths.{
  allowed_paths, proves_goal, goal_unproved, reasoning_path, select_path, select_paths,
}
use legal_graphrag_platform.Generation.Grounding.Temporal.{
  validate_temporal, first_missing, check_declared, temporal_notes,
}

-- `evidence_by_id`
abbrev pub evidence_by_id : EvidenceRegistry → Dict LegalEvidenceBlock
unfolding index_by
evidence_by_id registry = index_by (λ e. e.unit_id) registry.entries

-- `citation_order` and `quoted_text_by_citation`
pub record CitationState : Type 0 where
  pub order : List String
  pub quotes : Dict String

abbrev pub no_citations : CitationState
no_citations = record { order = []; quotes = [] }

-- `unicodedata.normalize("NFC", ...)`: the Unicode tables are a parameter.
module _ (nfc : String → String) where
  unfoldable pub normalize_for_match : String → String
  unfolding strip collapse_whitespace
  normalize_for_match value = strip (collapse_whitespace (nfc value))

  unfoldable pub is_verbatim_quote : String → String → Bool
  unfolding has_substring normalize_for_match
  is_verbatim_quote quoted content =
      has_substring (normalize_for_match quoted) (normalize_for_match content)

  -- The body of the loop over `statement.citations`.
  unfoldable pub check_citation :
      Dict LegalEvidenceBlock → CitationState → StatementCitation → Result CitationState
  unfolding lookup insert is_verbatim_quote
  check_citation evidence state citation = do
    let id = citation.citation_id
    found ←
        of_option (lookup id evidence) citation_validation_error
          ("Citation is not allowlisted: " ++ id)
    fail_if (not (is_verbatim_quote citation.quoted_text found.content_raw))
        citation_validation_error
        ("quoted_text for citation " ++ id ++ " is not a verbatim excerpt of the cited evidence")
    ok (
        if contains state.order id then state else record {
          order = state.order ⧺ id ∷ [];
          quotes = insert id citation.quoted_text state.quotes;
        })

  unfoldable pub check_citations :
      Dict LegalEvidenceBlock → CitationState → List StatementCitation → Result CitationState
  unfolding check_citation
  check_citations evidence state [] = ok state
  check_citations evidence state (c ∷ cs) = do
    next ← check_citation evidence state c
    check_citations evidence next cs

  -- The loop over the statements.
  unfoldable pub check_statements :
      Dict LegalEvidenceBlock → CitationState → List GroundedStatement → Result CitationState
  unfolding check_citations
  check_statements evidence state [] = ok state
  check_statements evidence state (s ∷ ss) = do
    fail_if (blank s.text) grounding_validation_error "Answer statement text must not be blank"
    next ← check_citations evidence state s.citations
    check_statements evidence next ss

abbrev pub citation_of : LegalEvidenceBlock → String → AnswerCitation
citation_of e quote = record {
  unit_id = e.unit_id;
  citation_label = e.citation_label;
  document_id = e.document_id;
  article_id = e.article_id;
  clause_id = e.clause_id;
  deep_link = e.deep_link;
  quoted_text = some quote;
}

-- An entry of `citations`, for an element of `citation_order`.
unfoldable pub build_citation :
    Dict LegalEvidenceBlock → Dict String → String → Result AnswerCitation
unfolding lookup
build_citation evidence quotes id = do
  found ← of_option (lookup id evidence) key_error id
  quote ← of_option (lookup id quotes) key_error id
  ok (citation_of found quote)

unfoldable pub number_from : ℕ → List String → Dict ℕ
number_from n [] = []
number_from n (x ∷ xs) = (x, n) ∷ number_from (n + 1) xs

-- `citation_ordinals`: the identifiers of `citation_order` differ, so each is a new key.
unfoldable pub citation_ordinals : List String → Dict ℕ
unfolding number_from
citation_ordinals order = number_from 1 order

abbrev pub refusal_text : String
refusal_text = "Không đủ căn cứ trong dữ liệu truy xuất để trả lời chắc chắn."

-- The response to a candidate that says that it cannot answer.
unfoldable pub refusal_response :
    AnswerCandidate → ProjectedAnswerContext → String → String → String → AnswerResponse
refusal_response candidate projected version provider model = record {
  retrieval_contract_version = version;
  query = projected.query;
  answer_text = refusal_text;
  direct_answer = none;
  sections = [];
  caveats = [];
  citations = [];
  reasoning_paths = [];
  temporal_notes = [];
  cannot_answer = true;
  insufficiency_reason = candidate.insufficiency_reason;
  confidence = candidate.confidence;
  provider = some provider;
  model = some model;
  intent = projected.intent;
  strategy = projected.strategy;
}

-- The path of `validate_and_render` for a candidate with an answer.
unfoldable pub render_grounded :
    (String → String)
    → AnswerCandidate
    → ProjectedAnswerContext
    → EvidenceRegistry
    → String
    → String
    → String
    → Result AnswerResponse
unfolding iter_candidate_statements check_statements select_paths temporal_notes build_citation
    citation_ordinals render
render_grounded nfc candidate projected registry version provider model = do
  let evidence = evidence_by_id registry
  let statements = iter_candidate_statements candidate
  cited ← check_statements nfc evidence no_citations statements
  paths ← select_paths projected registry statements
  notes ← temporal_notes projected evidence candidate
  citations ← traverse (build_citation evidence cited.quotes) cited.order
  text ← render candidate (citation_ordinals cited.order)
  ok (record {
    retrieval_contract_version = version;
    query = projected.query;
    answer_text = text;
    direct_answer = candidate.direct_answer;
    sections = candidate.sections;
    caveats = candidate.caveats;
    citations = citations;
    reasoning_paths = paths;
    temporal_notes = notes;
    cannot_answer = false;
    insufficiency_reason = none;
    confidence = candidate.confidence;
    provider = some provider;
    model = some model;
    intent = projected.intent;
    strategy = projected.strategy;
  })

unfoldable pub validate_and_render :
    (String → String)
    → AnswerCandidate
    → ProjectedAnswerContext
    → EvidenceRegistry
    → String
    → String
    → String
    → Result AnswerResponse
unfolding refusal_response render_grounded
validate_and_render nfc candidate projected registry version provider model =
    if candidate.cannot_answer
    then ok (refusal_response candidate projected version provider model)
    else render_grounded nfc candidate projected registry version provider model
