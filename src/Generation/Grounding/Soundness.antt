-- ===== src/Generation/Grounding/Soundness.antt =====
-- What an answer that passed `validate_and_render` cites, links and asserts.
use mathlib.Core.Path.{subst}
use legal_graphrag_platform.Base.{
  String, ◌≡◌, refl, sym, ap, ◌∙◌, true, false, some, List, map, contains, unique, All, Member,
  All-of_members,
}
use legal_graphrag_platform.Base.Result.{
  ok, >>=-eq-ok, of_option-bind-ok, ok_inj, traverse, traverse-All, traverse-map,
}
use legal_graphrag_platform.Base.Dict.{lookup, index_by, index_by-lookup}
use legal_graphrag_platform.Generation.Models.{AnswerCitation, AnswerResponse}
use legal_graphrag_platform.Generation.Models.Projected.{
  LegalEvidenceBlock, EvidenceRegistry, ProjectedAnswerContext,
}
use legal_graphrag_platform.Generation.Models.Candidate.{
  GroundedStatement, AnswerCandidate, iter_candidate_statements,
}
use legal_graphrag_platform.Generation.Renderer.{render}
use legal_graphrag_platform.Generation.Grounding.{
  evidence_by_id, CitationState, no_citations, check_statements, build_citation, citation_of,
  citation_ordinals, render_grounded, validate_and_render,
}
use legal_graphrag_platform.Generation.Grounding.Temporal.{temporal_notes}
use legal_graphrag_platform.Generation.Grounding.Paths.{select_paths}
use legal_graphrag_platform.Generation.Grounding.Citations.{
  IsGrounded, CiteInv, CiteInv-start, AllCited, check_statements-Loop,
}

pub entries_found :
    (registry : EvidenceRegistry) (id : String) (e : LegalEvidenceBlock)
    → lookup id (evidence_by_id registry) ≡ some e
    → Member e registry.entries × (e.unit_id ≡ id)
unfolding index_by evidence_by_id
entries_found registry id e h =
    index_by-lookup (λ b. b.unit_id) (λ k b. Member b registry.entries × (b.unit_id ≡ k))
      registry.entries
      (All-of_members (λ b. Member b registry.entries × (b.unit_id ≡ b.unit_id)) registry.entries
        (λ b m. (m, refl)))
      id e h

module _ (nfc : String → String) (registry : EvidenceRegistry) where
  built_citation :
      (s : CitationState) (id : String) (c : AnswerCitation)
      → CiteInv nfc (evidence_by_id registry) s
      → build_citation (evidence_by_id registry) s.quotes id ≡ ok c
      → IsGrounded nfc registry c × (c.unit_id ≡ id)
  unfolding build_citation
  built_citation s id c inv h =
      let (e, found, h₁) = of_option-bind-ok (lookup id (evidence_by_id registry)) _ _ _ h in
      let (q, quoted, h₂) = of_option-bind-ok (lookup id s.quotes) _ _ _ h₁ in
      let (listed, named) = entries_found registry id e found in
      let same : citation_of e q ≡ c = cc in
      (
        record {
          entry = e;
          quote = q;
          listed = listed;
          built = sym same;
          verbatim = inv.quoted id q e quoted found;
        },
        ap (λ (x : AnswerCitation). x.unit_id) (sym same) ∙ named,
      )

-- What a grounded run went through.
pub record Run (nfc : String → String) (candidate : AnswerCandidate)
    (projected : ProjectedAnswerContext) (registry : EvidenceRegistry) (response : AnswerResponse)
    : Type 0 where
  pub cited : CitationState
  pub checked :
      check_statements nfc
        (evidence_by_id registry)
        no_citations
        (iter_candidate_statements candidate)
      ≡ ok cited
  pub selected :
      select_paths projected registry (iter_candidate_statements candidate)
      ≡ ok response.reasoning_paths
  pub noted :
      temporal_notes projected (evidence_by_id registry) candidate ≡ ok response.temporal_notes
  pub built :
      traverse (build_citation (evidence_by_id registry) cited.quotes) cited.order
      ≡ ok response.citations
  pub rendered : render candidate (citation_ordinals cited.order) ≡ ok response.answer_text

module _ (nfc : String → String) (candidate : AnswerCandidate) (projected : ProjectedAnswerContext)
    (registry : EvidenceRegistry) (version provider model : String)
    (response : AnswerResponse) where
  render_grounded-Run :
      render_grounded nfc candidate projected registry version provider model ≡ ok response
      → Run nfc candidate projected registry response
  unfolding render_grounded
  render_grounded-Run grounded =
      let statements = iter_candidate_statements candidate in
      let evidence = evidence_by_id registry in
      let (cited, h₁, k₁) =
        >>=-eq-ok (check_statements nfc evidence no_citations statements) _ grounded in
      let (paths, h₂, k₂) = >>=-eq-ok (select_paths projected registry statements) _ k₁ in
      let (notes, h₃, k₃) = >>=-eq-ok (temporal_notes projected evidence candidate) _ k₂ in
      let (citations, h₄, k₄) =
        >>=-eq-ok (traverse (build_citation evidence cited.quotes) cited.order) _ k₃ in
      let (text, h₅, k₅) = >>=-eq-ok (render candidate (citation_ordinals cited.order)) _ k₄ in
      subst (Run nfc candidate projected registry) (ok_inj k₅) (record {
        cited = cited;
        checked = h₁;
        selected = h₂;
        noted = h₃;
        built = h₄;
        rendered = h₅;
      })

  pub validate_and_render-Run :
      candidate.cannot_answer ≡ false
      → validate_and_render nfc candidate projected registry version provider model ≡ ok response
      → Run nfc candidate projected registry response
  unfolding validate_and_render
  validate_and_render-Run answers returned = render_grounded-Run (rw answers at returned)

-- Each citation that a statement makes is a citation of the response.
abbrev pub AllListed : AnswerResponse → GroundedStatement → Type 0
AllListed response st =
    All (λ c. contains (map (λ a. a.unit_id) response.citations) c.citation_id ≡ true) st.citations

module _ (nfc : String → String) (candidate : AnswerCandidate) (projected : ProjectedAnswerContext)
    (registry : EvidenceRegistry) (version provider model : String) (response : AnswerResponse)
    (answers : candidate.cannot_answer ≡ false)
    (returned : validate_and_render nfc candidate projected registry version provider model
      ≡ ok response) where
  the_run : Run nfc candidate projected registry response
  the_run =
      validate_and_render-Run nfc candidate projected registry version provider model response
        answers returned

  the_loop :
      CiteInv nfc (evidence_by_id registry) the_run.cited
      × All
          (AllCited nfc (evidence_by_id registry) the_run.cited)
          (iter_candidate_statements candidate)
  the_loop =
      let (loop, all_cited) =
        check_statements-Loop nfc (evidence_by_id registry) (iter_candidate_statements candidate)
          no_citations the_run.cited (CiteInv-start nfc (evidence_by_id registry))
          the_run.checked in
      (loop.inv, all_cited)

  cited_ids : map (λ a. a.unit_id) response.citations ≡ the_run.cited.order
  cited_ids =
      traverse-map (build_citation (evidence_by_id registry) the_run.cited.quotes) (λ a. a.unit_id)
        (λ id c h. (built_citation nfc registry the_run.cited id c the_loop.0 h).1)
        the_run.cited.order response.citations the_run.built

  -- If a candidate with an answer passes `validate_and_render`, then every citation of the response
  -- has the metadata of a registry entry and quotes that entry's text verbatim (up to spacing and
  -- Unicode composition), no unit is cited twice, and every citation that a statement of the
  -- candidate makes is among the citations of the response.
  pub validate_and_render-IsGrounded :
      All (IsGrounded nfc registry) response.citations
      × (unique (map (λ a. a.unit_id) response.citations) ≡ true)
      × All (AllListed response) (iter_candidate_statements candidate)
  validate_and_render-IsGrounded = (
    traverse-All (IsGrounded nfc registry)
        (build_citation (evidence_by_id registry) the_run.cited.quotes)
        (λ id c h. (built_citation nfc registry the_run.cited id c the_loop.0 h).0)
        the_run.cited.order response.citations the_run.built,
    rw cited_ids the_loop.0.distinct,
    subst
        (λ (ids : List String).
          All (λ st. All (λ c. contains ids c.citation_id ≡ true) st.citations)
            (iter_candidate_statements candidate))
        (sym cited_ids) the_loop.1,
  )
