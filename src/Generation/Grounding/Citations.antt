-- ===== src/Generation/Grounding/Citations.antt =====
-- What the loop over the statements' citations in `validate_and_render` establishes.
use mathlib.Core.List.{◌++◌ as ◌⧺◌}
use legal_graphrag_platform.Base.{
  String, ◌≡◌, refl, true, false, not, some, List, [], ◌∷◌, if◌then◌else◌, is_some, contains,
  unique, All, Member, All-mono, contains-append, eq_iff, eq_refl, arith, inl, inr, Bool-cases,
}
use legal_graphrag_platform.Base.Result.{
  ok, >>=-eq-ok, of_option-bind-ok, guard-bind-ok, not-eq-false,
}
use legal_graphrag_platform.Base.Text.{blank}
use legal_graphrag_platform.Base.Dict.{Dict, lookup, insert, lookup-insert}
use legal_graphrag_platform.Generation.Models.{AnswerCitation}
use legal_graphrag_platform.Generation.Models.Projected.{LegalEvidenceBlock, EvidenceRegistry}
use legal_graphrag_platform.Generation.Models.Candidate.{StatementCitation, GroundedStatement}
use legal_graphrag_platform.Generation.Grounding.{
  CitationState, no_citations, is_verbatim_quote, check_citation, check_citations, check_statements,
  citation_of,
}

-- A citation of the response: a registry entry's own metadata, with a quote found in its text.
pub record IsGrounded (nfc : String → String) (registry : EvidenceRegistry) (c : AnswerCitation)
    : Type 0 where
  pub entry : LegalEvidenceBlock
  pub quote : String
  pub listed : Member entry registry.entries
  pub built : c ≡ citation_of entry quote
  pub verbatim : is_verbatim_quote nfc quote entry.content_raw ≡ true

module _ (nfc : String → String) (evidence : Dict LegalEvidenceBlock) where
  pub record CiteInv (s : CitationState) : Type 0 where
    pub quoted :
        (id q : String) (e : LegalEvidenceBlock)
        → lookup id s.quotes ≡ some q
        → lookup id evidence ≡ some e
        → is_verbatim_quote nfc q e.content_raw ≡ true
    pub recorded : (id : String) → is_some (lookup id s.quotes) ≡ contains s.order id
    pub known : (id : String) → contains s.order id ≡ true → is_some (lookup id evidence) ≡ true
    pub distinct : unique s.order ≡ true

  pub CiteInv-start : CiteInv no_citations
  unfolding lookup
  CiteInv-start = record {
    quoted = λ id q e h k. cc;
    recorded = λ id. refl;
    known = λ id h. cc;
    distinct = refl;
  }

  -- What an accepted citation shows.
  pub record Accepted (s s' : CitationState) (c : StatementCitation) : Type 0 where
    pub found : LegalEvidenceBlock
    pub at_id : lookup c.citation_id evidence ≡ some found
    pub verbatim : is_verbatim_quote nfc c.quoted_text found.content_raw ≡ true
    pub next : s' ≡ (
        if contains s.order c.citation_id then s else record {
          order = s.order ⧺ c.citation_id ∷ [];
          quotes = insert c.citation_id c.quoted_text s.quotes;
        })

  pub check_citation-Accepted :
      (s s' : CitationState) (c : StatementCitation)
      → check_citation nfc evidence s c ≡ ok s'
      → Accepted s s' c
  unfolding check_citation
  check_citation-Accepted s s' c h =
      let (e, at_id, h₁) = of_option-bind-ok (lookup c.citation_id evidence) _ _ _ h in
      let (quote, h₂) =
        guard-bind-ok (not (is_verbatim_quote nfc c.quoted_text e.content_raw)) _ _ _ h₁ in
      record { found = e; at_id = at_id; verbatim = not-eq-false _ quote; next = cc }

  unique_snoc :
      (xs : List String) (x : String)
      → unique xs ≡ true
      → contains xs x ≡ false
      → unique (xs ⧺ x ∷ []) ≡ true
  unique_snoc [] x u h = refl
  unique_snoc (y ∷ ys) x u h =
      ground (arith, unique_snoc ys x, contains-append ys (x ∷ []) y, eq_iff x y, eq_iff y x)

  extend_state : (s : CitationState) (c : StatementCitation) → CitationState
  extend_state s c = record {
    order = s.order ⧺ c.citation_id ∷ [];
    quotes = insert c.citation_id c.quoted_text s.quotes;
  }

  module _ (s : CitationState) (c : StatementCitation) (inv : CiteInv s) (e : LegalEvidenceBlock)
      (at_id : lookup c.citation_id evidence ≡ some e)
      (quote : is_verbatim_quote nfc c.quoted_text e.content_raw ≡ true)
      (new : contains s.order c.citation_id ≡ false) where
    extend_quoted :
        (id q : String) (f : LegalEvidenceBlock)
        → lookup id (extend_state s c).quotes ≡ some q
        → lookup id evidence ≡ some f
        → is_verbatim_quote nfc q f.content_raw ≡ true
    unfolding extend_state
    extend_quoted id q f h k = ground (
      arith,
      lookup-insert c.citation_id id c.quoted_text s.quotes,
      eq_iff c.citation_id id,
      inv.quoted id q f,
    )

    extend_recorded :
        (id : String)
        → is_some (lookup id (extend_state s c).quotes) ≡ contains (extend_state s c).order id
    unfolding extend_state
    extend_recorded id = ground (
      arith,
      lookup-insert c.citation_id id c.quoted_text s.quotes,
      contains-append s.order (c.citation_id ∷ []) id,
      inv.recorded id,
    )

    extend_known :
        (id : String)
        → contains (extend_state s c).order id ≡ true
        → is_some (lookup id evidence) ≡ true
    unfolding extend_state
    extend_known id h = ground (
      arith,
      contains-append s.order (c.citation_id ∷ []) id,
      inv.known id,
      eq_iff c.citation_id id,
    )

    CiteInv-extend : CiteInv (extend_state s c)
    CiteInv-extend = record {
      quoted = extend_quoted;
      recorded = extend_recorded;
      known = extend_known;
      distinct = unfold extend_state in unique_snoc s.order c.citation_id inv.distinct new;
    }

  check_citation-CiteInv :
      (s s' : CitationState) (c : StatementCitation)
      → CiteInv s
      → check_citation nfc evidence s c ≡ ok s'
      → CiteInv s'
  check_citation-CiteInv s s' c inv h =
      let step = check_citation-Accepted s s' c h in
      elim (Bool-cases (contains s.order c.citation_id)) [
        | inl old ↦ let same : s' ≡ s = rw old at step.next in rw same inv
        | inr new ↦
            let same : s' ≡ extend_state s c = unfold extend_state in (rw new at step.next) in
            rw same (CiteInv-extend s c inv step.found step.at_id step.verbatim new)
      ]

  -- The identifiers of a state are kept by a later one.
  abbrev pub Keeps : CitationState → CitationState → Type 0
  Keeps s s' = (id : String) → contains s.order id ≡ true → contains s'.order id ≡ true

  abbrev pub Cited : CitationState → StatementCitation → Type 0
  Cited s c = contains s.order c.citation_id ≡ true

  check_citation-Keeps :
      (s s' : CitationState) (c : StatementCitation)
      → check_citation nfc evidence s c ≡ ok s'
      → Keeps s s' × Cited s' c
  check_citation-Keeps s s' c h =
      let step = check_citation-Accepted s s' c h in
      elim (Bool-cases (contains s.order c.citation_id)) [
        | inl old ↦ let same : s' ≡ s = rw old at step.next in rw same ((λ id k. k), old)
        | inr new ↦
            let same : s' ≡ extend_state s c = unfold extend_state in (rw new at step.next) in
            rw same (
              unfold extend_state in (λ id k. rw contains-append (rw k)),
              unfold extend_state in (rw (contains-append, new, eq_refl)),
            )
      ]

  -- The three facts that a loop keeps.
  pub record Loop (s s' : CitationState) : Type 0 where
    pub inv : CiteInv s'
    pub keeps : Keeps s s'

  check_citations-Loop :
      (cs : List StatementCitation) (s s' : CitationState)
      → CiteInv s
      → check_citations nfc evidence s cs ≡ ok s'
      → Loop s s' × All (Cited s') cs
  unfolding check_citations
  check_citations-Loop [] s s' inv h =
      let same : s ≡ s' = cc in (record { inv = rw same at inv; keeps = rw same (λ id k. k) }, tt)
  check_citations-Loop (c ∷ cs) s s' inv h =
      let (t, h₁, h₂) = >>=-eq-ok (check_citation nfc evidence s c) _ h in
      let (first, cited) = check_citation-Keeps s t c h₁ in
      let (rest, all_cited) =
        check_citations-Loop cs t s' (check_citation-CiteInv s t c inv h₁) h₂ in
      (
        record { inv = rest.inv; keeps = λ id k. rest.keeps id (first id k) },
        (rest.keeps c.citation_id cited, all_cited),
      )

  abbrev pub AllCited : CitationState → GroundedStatement → Type 0
  AllCited s st = All (Cited s) st.citations

  Cited-Keeps :
      (s s' : CitationState)
      → Keeps s s'
      → (cs : List StatementCitation) → All (Cited s) cs
      → All (Cited s') cs
  Cited-Keeps s s' k cs = All-mono (Cited s) (Cited s') (λ c h. k c.citation_id h) cs

  pub check_statements-Loop :
      (ss : List GroundedStatement) (s s' : CitationState)
      → CiteInv s
      → check_statements nfc evidence s ss ≡ ok s'
      → Loop s s' × All (AllCited s') ss
  unfolding check_statements
  check_statements-Loop [] s s' inv h =
      let same : s ≡ s' = cc in (record { inv = rw same at inv; keeps = rw same (λ id k. k) }, tt)
  check_statements-Loop (x ∷ xs) s s' inv h =
      let (_, h₀) = guard-bind-ok (blank x.text) _ _ _ h in
      let (t, h₁, h₂) = >>=-eq-ok (check_citations nfc evidence s x.citations) _ h₀ in
      let (first, cited) = check_citations-Loop x.citations s t inv h₁ in
      let (rest, all_cited) = check_statements-Loop xs t s' first.inv h₂ in
      (
        record { inv = rest.inv; keeps = λ id k. rest.keeps id (first.keeps id k) },
        (Cited-Keeps t s' rest.keeps x.citations cited, all_cited),
      )
