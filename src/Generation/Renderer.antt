-- ===== src/Generation/Renderer.antt =====
-- src/generation/renderer.py: Markdown with the ordinals of the citations.
pub mod Escape
use Prim.Native.Char.{code}
use Prim.Native.String.{◌++◌}
use legal_graphrag_platform.Base.{
  ℕ, String, Bool, ◌||◌, List, [], ◌∷◌, eqb, if◌then◌else◌, is_empty,
}
use mathlib.Core.List.{◌++◌ as ◌⧺◌}
use legal_graphrag_platform.Base.Result.{Result, ok, key_error, of_option, ◌>>=◌, traverse}
use legal_graphrag_platform.Base.Text.{strip, join, show_nat}
use legal_graphrag_platform.Base.Dict.{Dict, lookup}
use legal_graphrag_platform.Generation.Models.Candidate.{
  StatementCitation, GroundedStatement, AnswerParagraph, AnswerSection, AnswerCandidate,
  direct_paragraphs,
}

unfoldable pub is_markdown_special : ℕ → Bool
is_markdown_special c =
    eqb c 0x5c
    || eqb c b'`'
    || eqb c b'*'
    || eqb c b'_'
    || eqb c b'<'
    || eqb c b'>'
    || eqb c b'{'
    || eqb c b'}'
    || eqb c b'['
    || eqb c b']'
    || eqb c b'#'

-- `_escape`
unfoldable pub escape : String → String
unfolding is_markdown_special
escape String.[] = ""
escape (String.◌∷◌ c s) =
    let rest = String.◌∷◌ c (escape s) in
    if is_markdown_special (code c) then String.◌∷◌ "\\" rest else rest

unfoldable pub render_citation : Dict ℕ → StatementCitation → Result String
unfolding lookup show_nat
render_citation ordinals citation = do
  n ← of_option (lookup citation.citation_id ordinals) key_error citation.citation_id
  ok ("[" ++ show_nat n ++ "]")

unfoldable pub render_statement : Dict ℕ → GroundedStatement → Result String
unfolding render_citation strip escape
render_statement ordinals statement = do
  citations ← traverse (render_citation ordinals) statement.citations
  ok (escape (strip statement.text) ++ " " ++ join "" citations)

unfoldable pub render_paragraph : Dict ℕ → AnswerParagraph → Result String
unfolding render_statement
render_paragraph ordinals paragraph = do
  statements ← traverse (render_statement ordinals) paragraph.statements
  ok (join " " statements)

unfoldable pub render_section : Dict ℕ → AnswerSection → Result (List String)
unfolding render_paragraph strip escape
render_section ordinals section = do
  blocks ← traverse (render_paragraph ordinals) section.paragraphs
  ok (("## " ++ escape (strip section.heading)) ∷ blocks)

concat : List (List String) → List String
concat [] = []
concat (x ∷ xs) = x ⧺ concat xs

unfoldable pub render : AnswerCandidate → Dict ℕ → Result String
unfolding render_section concat
render candidate ordinals = do
  direct ← traverse (render_paragraph ordinals) (direct_paragraphs candidate.direct_answer)
  sections ← traverse (render_section ordinals) candidate.sections
  caveats ← traverse (render_paragraph ordinals) candidate.caveats
  let notes = if is_empty candidate.caveats then [] else "## Lưu ý" ∷ caveats
  ok (join "\n\n" (direct ⧺ (concat sections ⧺ notes)))
