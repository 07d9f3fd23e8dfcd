-- ===== src/Generation/Grounding/Failures.antt =====
-- The exceptions of `validate_and_render` are the grounding errors that the service repairs.
use legal_graphrag_platform.Retrieval.Models.{is_valid_on}
use legal_graphrag_platform.Base.Date.{opt_date_eq}
use legal_graphrag_platform.Generation.Grounding.Citations.{
  CiteInv-start, check_statements-Loop, Cited, CiteInv, AllCited,
}
use legal_graphrag_platform.Base.Text.{blank}
use legal_graphrag_platform.Generation.Errors.{IsGroundingError}
use legal_graphrag_platform.Base.Result.{
  err, Exception, not-eq-false, Raises-err, Result, Raises-need, Raises-guard, Raises-found, ◌>>=◌,
  key_error, of_option, Raises-traverse, Raises-ok, traverse, Raises-bind, Raises,
}
use legal_graphrag_platform.Generation.Renderer.{
  render_statement, render_section, render_paragraph, render_citation, render,
}
use legal_graphrag_platform.Generation.Models.Projected.{
  same_flag, LegalEvidenceBlock, EvidenceRegistry, ProjectedAnswerContext,
}
use legal_graphrag_platform.Generation.Models.Candidate.{
  TemporalAssertion, direct_paragraphs, paragraph_statements, AnswerCandidate,
  iter_candidate_statements, AnswerSection, StatementCitation, GroundedStatement, AnswerParagraph,
}
use legal_graphrag_platform.Base.{
  inr, inl, &&-eq-true, all→All, same_set, All-of_contains, ◌∙◌, ◌||◌, is_empty, ◌==◌, ◌&&◌,
  is_none, Bool-cases, map, first_occurrence, All-of_members, not, refl, none, some, [], ◌∷◌, ◌+◌,
  arith, All-right, All-flat_map, ◌∷◌, All-mono, All-left, flat_map, true, contains, Option, ◌≡◌,
  is_some, All, String, ℕ, List,
}
use legal_graphrag_platform.Generation.Grounding.{
  no_citations, validate_and_render, render_grounded, build_citation, is_verbatim_quote,
  evidence_by_id, CitationState, check_statements, check_citations, check_citation, number_from,
  citation_ordinals,
}
use legal_graphrag_platform.Generation.Grounding.Temporal.{
  first_missing, temporal_notes, check_declared, validate_temporal,
}
use legal_graphrag_platform.Generation.Grounding.Paths.{
  goal_unproved, allowed_paths, select_path, select_paths,
}
use legal_graphrag_platform.Base.Dict.{index_by-has, index_by, lookup, Dict}
use mathlib.Core.List.{◌++◌ as ◌⧺◌}

module _ (ordinals : Dict ℕ) where
  abbrev Numbered : StatementCitation → Type 0
  Numbered c = is_some (lookup c.citation_id ordinals) ≡ true

  abbrev AllNumbered : GroundedStatement → Type 0
  AllNumbered st = All Numbered st.citations

  render_citation-Raises :
      (c : StatementCitation) → Numbered c → Raises IsGroundingError (render_citation ordinals c)
  unfolding render_citation
  render_citation-Raises c h =
      Raises-found (lookup c.citation_id ordinals) _ _ _ h λ n _. Raises-ok _

  render_statement-Raises :
      (st : GroundedStatement)
      → AllNumbered st
      → Raises IsGroundingError (render_statement ordinals st)
  unfolding render_statement
  render_statement-Raises st h =
      Raises-bind (traverse (render_citation ordinals) st.citations) _
        (Raises-traverse (render_citation ordinals) st.citations (
          All-mono Numbered (λ c. Raises IsGroundingError (render_citation ordinals c))
            render_citation-Raises st.citations h))
        λ citations _. Raises-ok _

  render_paragraph-Raises :
      (p : AnswerParagraph)
      → All AllNumbered p.statements
      → Raises IsGroundingError (render_paragraph ordinals p)
  unfolding render_paragraph
  render_paragraph-Raises p h =
      Raises-bind (traverse (render_statement ordinals) p.statements) _
        (Raises-traverse (render_statement ordinals) p.statements (
          All-mono AllNumbered (λ st. Raises IsGroundingError (render_statement ordinals st))
            render_statement-Raises p.statements h))
        λ statements _. Raises-ok _

  render_paragraphs-Raises :
      (ps : List AnswerParagraph)
      → All AllNumbered (paragraph_statements ps)
      → Raises IsGroundingError (traverse (render_paragraph ordinals) ps)
  render_paragraphs-Raises ps h = Raises-traverse (render_paragraph ordinals) ps (
      All-mono (λ p. All AllNumbered p.statements)
        (λ p. Raises IsGroundingError (render_paragraph ordinals p)) render_paragraph-Raises ps
        (All-flat_map AllNumbered (λ p. p.statements) ps h))

  render_section-Raises :
      (s : AnswerSection)
      → All AllNumbered (paragraph_statements s.paragraphs)
      → Raises IsGroundingError (render_section ordinals s)
  unfolding render_section
  render_section-Raises s h =
      Raises-bind (traverse (render_paragraph ordinals) s.paragraphs) _
        (render_paragraphs-Raises s.paragraphs h) λ blocks _. Raises-ok _

  pub render-Raises :
      (candidate : AnswerCandidate)
      → All AllNumbered (iter_candidate_statements candidate)
      → Raises IsGroundingError (render candidate ordinals)
  unfolding render iter_candidate_statements
  render-Raises candidate h =
      let direct = direct_paragraphs candidate.direct_answer in
      let sections =
        flat_map (λ (s : AnswerSection). paragraph_statements s.paragraphs) candidate.sections in
      let caveats = paragraph_statements candidate.caveats in
      let h₁ = All-left AllNumbered (paragraph_statements direct) (sections ⧺ caveats) h in
      let rest = All-right AllNumbered (paragraph_statements direct) (sections ⧺ caveats) h in
      let h₂ = All-left AllNumbered sections caveats rest in
      let h₃ = All-right AllNumbered sections caveats rest in
      Raises-bind (traverse (render_paragraph ordinals) direct) _
        (render_paragraphs-Raises direct h₁)
        λ d _.
          Raises-bind (traverse (render_section ordinals) candidate.sections) _
            (Raises-traverse (render_section ordinals) candidate.sections (
              All-mono (λ s. All AllNumbered (paragraph_statements s.paragraphs))
                (λ s. Raises IsGroundingError (render_section ordinals s)) render_section-Raises
                candidate.sections
                (All-flat_map AllNumbered (λ s. paragraph_statements s.paragraphs)
                  candidate.sections h₂)))
            λ s _.
              Raises-bind (traverse (render_paragraph ordinals) candidate.caveats) _
                (render_paragraphs-Raises candidate.caveats h₃) λ c _. Raises-ok _

number_from-has :
    (n : ℕ) (order : List String) (id : String)
    → is_some (lookup id (number_from n order)) ≡ contains order id
unfolding number_from lookup
number_from-has n [] id = refl
number_from-has n (x ∷ xs) id = ground (arith, number_from-has (n + 1) xs id)

citation_ordinals-has :
    (order : List String) (id : String)
    → is_some (lookup id (citation_ordinals order)) ≡ contains order id
unfolding citation_ordinals
citation_ordinals-has order id = number_from-has 1 order id

module _ (nfc : String → String) (candidate : AnswerCandidate) (projected : ProjectedAnswerContext)
    (registry : EvidenceRegistry) where
  abbrev evidence : Dict LegalEvidenceBlock
  evidence = evidence_by_id registry

  check_citation-Raises :
      (s : CitationState) (c : StatementCitation)
      → Raises IsGroundingError (check_citation nfc evidence s c)
  unfolding check_citation
  check_citation-Raises s c = Raises-need (lookup c.citation_id evidence) _ _ _ refl λ e _.
      Raises-guard (not (is_verbatim_quote nfc c.quoted_text e.content_raw)) _ _ _ refl
        λ _. Raises-ok _

  check_citations-Raises :
      (cs : List StatementCitation) (s : CitationState)
      → Raises IsGroundingError (check_citations nfc evidence s cs)
  unfolding check_citations
  check_citations-Raises [] s = Raises-ok s
  check_citations-Raises (c ∷ cs) s =
      Raises-bind (check_citation nfc evidence s c) _ (check_citation-Raises s c)
        λ t _. check_citations-Raises cs t

  check_statements-Raises :
      (ss : List GroundedStatement) (s : CitationState)
      → Raises IsGroundingError (check_statements nfc evidence s ss)
  unfolding check_statements
  check_statements-Raises [] s = Raises-ok s
  check_statements-Raises (x ∷ xs) s = Raises-guard (blank x.text) _ _ _ refl λ _.
      Raises-bind (check_citations nfc evidence s x.citations) _
        (check_citations-Raises x.citations s) λ t _. check_statements-Raises xs t

  select_path-Raises :
      (id : String)
      → Raises IsGroundingError (select_path projected (allowed_paths projected registry) id)
  unfolding select_path
  select_path-Raises id =
      Raises-need (lookup id (allowed_paths projected registry)) _ _ _ refl λ p _.
        Raises-guard (goal_unproved projected.relation_goal projected.anchor_node_ids p.edges) _ _ _
          refl λ _. Raises-ok _

  select_paths-Raises :
      (statements : List GroundedStatement)
      → Raises IsGroundingError (select_paths projected registry statements)
  unfolding select_paths
  select_paths-Raises statements =
      let order =
        first_occurrence (flat_map (λ (s : GroundedStatement). s.reasoning_path_ids) statements) in
      let select = select_path projected (allowed_paths projected registry) in
      Raises-guard (is_some projected.relation_goal && is_empty order) _ _ _ refl λ _.
        Raises-traverse select order (
          All-of_members (λ id. Raises IsGroundingError (select id)) order
            λ id _. select_path-Raises id)

  validate_temporal-Raises :
      (a : TemporalAssertion) → Raises IsGroundingError (validate_temporal projected evidence a)
  unfolding validate_temporal
  validate_temporal-Raises a =
      Raises-guard
        (is_none projected.resolved_from
          || not (opt_date_eq projected.resolved_to projected.resolved_from))
        _ _ _ refl
        λ _.
          Raises-guard (not (opt_date_eq (some a.query_date) projected.resolved_from)) _ _ _ refl
            λ _. Raises-need (lookup a.subject_unit_id evidence) _ _ _ refl λ e _.
              Raises-guard
                (not (
                  same_flag a.asserted_valid
                    (is_valid_on e.effective_from e.effective_to a.query_date)))
                _ _ _ refl λ _. Raises-ok _

  abbrev note_of : String → Result String
  note_of id =
      of_option (lookup id (index_by (λ a. a.assertion_id) candidate.temporal_assertions)) key_error
        id
      >>= λ a. validate_temporal projected evidence a

  note_of-Raises :
      (id : String)
      → contains (map (λ a. a.assertion_id) candidate.temporal_assertions) id ≡ true
      → Raises IsGroundingError (note_of id)
  note_of-Raises id h =
      Raises-found (lookup id (index_by (λ a. a.assertion_id) candidate.temporal_assertions)) _ _ _
        (index_by-has (λ a. a.assertion_id) candidate.temporal_assertions id ∙ h)
        λ a _. validate_temporal-Raises a

  check_declared-Raises : (o : Option String) → Raises IsGroundingError (check_declared o)
  unfolding check_declared
  check_declared-Raises none = Raises-ok tt
  check_declared-Raises (some id) = Raises-err _ refl

  -- Every linked assertion is declared once the sets agree, so no lookup fails.
  temporal_notes-Raises : Raises IsGroundingError (temporal_notes projected evidence candidate)
  unfolding temporal_notes
  temporal_notes-Raises =
      let declared =
        map (λ (a : TemporalAssertion). a.assertion_id) candidate.temporal_assertions in
      let order = first_occurrence (
        flat_map (λ (s : GroundedStatement). s.temporal_assertion_ids)
          (iter_candidate_statements candidate)) in
      Raises-guard (projected.intent == "validity" && is_empty order) _ _ _ refl λ _.
        Raises-bind (check_declared (first_missing declared order)) _
          (check_declared-Raises (first_missing declared order))
          λ _ _. Raises-guard (not (same_set declared order)) _ _ _ refl λ linked.
            Raises-traverse note_of order (
              All-mono (λ id. contains declared id ≡ true)
                (λ id. Raises IsGroundingError (note_of id)) note_of-Raises order
                (all→All (contains declared) order (&&-eq-true _ _ (not-eq-false _ linked)).1))

  build_citation-Raises :
      (s : CitationState) (id : String)
      → CiteInv nfc evidence s
      → contains s.order id ≡ true
      → Raises IsGroundingError (build_citation evidence s.quotes id)
  unfolding build_citation
  build_citation-Raises s id inv h =
      Raises-found (lookup id evidence) _ _ _ (inv.known id h)
        λ e _. Raises-found (lookup id s.quotes) _ _ _ (inv.recorded id ∙ h) λ q _. Raises-ok _

  numbered :
      (s : CitationState)
      → All (AllCited nfc evidence s) (iter_candidate_statements candidate)
      → All (AllNumbered (citation_ordinals s.order)) (iter_candidate_statements candidate)
  numbered s h =
      All-mono (AllCited nfc evidence s) (AllNumbered (citation_ordinals s.order))
        (λ st k.
          All-mono (Cited nfc evidence s) (Numbered (citation_ordinals s.order))
            (λ c cited. citation_ordinals-has s.order c.citation_id ∙ cited) st.citations k)
        (iter_candidate_statements candidate) h

  render_grounded-Raises :
      (version provider model : String)
      → Raises IsGroundingError
          (render_grounded nfc candidate projected registry version provider model)
  unfolding render_grounded
  render_grounded-Raises version provider model =
      let statements = iter_candidate_statements candidate in
      Raises-bind (check_statements nfc evidence no_citations statements) _
        (check_statements-Raises statements no_citations)
        λ s checked.
          let (loop, cited) =
            check_statements-Loop nfc evidence statements no_citations s
              (CiteInv-start nfc evidence) checked in
          Raises-bind (select_paths projected registry statements) _
            (select_paths-Raises statements)
            λ paths _.
              Raises-bind (temporal_notes projected evidence candidate) _ temporal_notes-Raises
                λ notes _.
                  Raises-bind (traverse (build_citation evidence s.quotes) s.order) _
                    (Raises-traverse (build_citation evidence s.quotes) s.order (
                      All-of_contains
                        (λ id. Raises IsGroundingError (build_citation evidence s.quotes id))
                        s.order λ id h. build_citation-Raises s id loop.inv h))
                    λ citations _.
                      Raises-bind (render candidate (citation_ordinals s.order)) _
                        (render-Raises (citation_ordinals s.order) candidate (numbered s cited))
                        λ text _. Raises-ok _

  pub validate_and_render-Raises :
      (version provider model : String)
      → Raises IsGroundingError
          (validate_and_render nfc candidate projected registry version provider model)
  unfolding validate_and_render
  validate_and_render-Raises version provider model = elim (Bool-cases candidate.cannot_answer) [
    | inl e ↦ rw e (Raises-ok _)
    | inr e ↦ rw e (render_grounded-Raises version provider model)
  ]

  -- Whatever the candidate, the context and the registry, an exception that `validate_and_render`
  -- raises is one of the four grounding errors: the lookups of citations, quotes, ordinals and
  -- assertions by key never fail.
  pub validate_and_render-IsGroundingError :
      (version provider model : String) (e : Exception)
      → validate_and_render nfc candidate projected registry version provider model ≡ err e
      → IsGroundingError e
  validate_and_render-IsGroundingError version provider model e h =
      (validate_and_render-Raises version provider model).at e h
