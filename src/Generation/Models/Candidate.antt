-- ===== src/Generation/Models/Candidate.antt =====
-- src/generation/models.py: the candidate that a language model answers with.
use legal_graphrag_platform.Base.{
  String, Bool, true, not, ◌||◌, Option, none, some, List, [], ◌++◌, map, if◌then◌else◌, is_some,
  is_none, is_empty, flat_map, unique, ◌==◌,
}
use legal_graphrag_platform.Base.Result.{Result, ok, value_error, fail_if, ◌>>◌}
use legal_graphrag_platform.Base.Float.{Float}
use legal_graphrag_platform.Base.Date.{Date}

pub record StatementCitation : Type 0 where
  pub citation_id : String
  pub quoted_text : String

pub record GroundedStatement : Type 0 where
  pub statement_id : String
  pub text : String
  pub citations : List StatementCitation
  pub reasoning_path_ids : List String
  pub temporal_assertion_ids : List String

pub record AnswerParagraph : Type 0 where
  pub statements : List GroundedStatement

pub record AnswerBlock : Type 0 where
  pub paragraphs : List AnswerParagraph

pub record AnswerSection : Type 0 where
  pub heading : String
  pub paragraphs : List AnswerParagraph

pub data AssertionScope : Type 0 where
  unit document scoped_pilot corpus_complete : AssertionScope

pub record TemporalAssertion : Type 0 where
  pub assertion_id : String
  pub subject_unit_id : String
  pub query_date : Date
  pub asserted_valid : Bool
  pub scope : AssertionScope

pub record AnswerCandidate : Type 0 where
  pub direct_answer : Option AnswerBlock
  pub sections : List AnswerSection
  pub caveats : List AnswerParagraph
  pub temporal_assertions : List TemporalAssertion
  pub confidence : Float
  pub cannot_answer : Bool
  pub insufficiency_reason : Option String

abbrev pub paragraph_statements : List AnswerParagraph → List GroundedStatement
paragraph_statements paragraphs = flat_map (λ p. p.statements) paragraphs

abbrev pub direct_paragraphs : Option AnswerBlock → List AnswerParagraph
direct_paragraphs none = []
direct_paragraphs (some block) = block.paragraphs

unfoldable pub iter_candidate_statements : AnswerCandidate → List GroundedStatement
iter_candidate_statements candidate =
    paragraph_statements (direct_paragraphs candidate.direct_answer)
    ++ (flat_map (λ s. paragraph_statements s.paragraphs) candidate.sections
        ++ paragraph_statements candidate.caveats)

-- `not self.insufficiency_reason`: absent or empty
abbrev pub no_text : Option String → Bool
no_text none = true
no_text (some s) = s == ""

unfoldable pub validate_answer_shape : AnswerCandidate → Result AnswerCandidate
unfolding iter_candidate_statements
validate_answer_shape candidate =
    if candidate.cannot_answer
    then (do
      fail_if
          (is_some candidate.direct_answer
            || not (is_empty candidate.sections)
            || not (is_empty candidate.caveats))
          value_error "cannot_answer candidate must not contain statements"
      fail_if (not (is_empty candidate.temporal_assertions)) value_error
          "cannot_answer candidate must not contain temporal assertions"
      fail_if (no_text candidate.insufficiency_reason) value_error
          "cannot_answer candidate requires insufficiency_reason"
      ok candidate)
    else (do
      fail_if (is_none candidate.direct_answer) value_error
          "Supported candidate requires a direct_answer"
      fail_if (is_some candidate.insufficiency_reason) value_error
          "Supported candidate must not contain insufficiency_reason"
      fail_if (not (unique (map (λ s. s.statement_id) (iter_candidate_statements candidate))))
          value_error "statement_id must be unique across the answer"
      fail_if (not (unique (map (λ a. a.assertion_id) candidate.temporal_assertions))) value_error
          "assertion_id must be unique"
      ok candidate)
