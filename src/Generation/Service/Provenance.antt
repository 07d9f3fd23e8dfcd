-- ===== src/Generation/Service/Provenance.antt =====
-- An answer of generation/service.py quotes the retrieval context.
use legal_graphrag_platform.Generation.Projection.Request.{provider_request}
use legal_graphrag_platform.Generation.Evidence.{EvidenceCandidate}
use mathlib.Core.Bool.{true≢false}
use mathlib.Core.Path.{subst}
use legal_graphrag_platform.Base.{
  ℕ, String, ◌≡◌, sym, ap, ◌∙◌, inl, inr, true, false, not, map, unique, All, Member, Bool-cases,
  All-mono, All_at, same_list,
}
use legal_graphrag_platform.Base.Result.{Result, ok, err, >>=-eq-ok, guard-bind-ok, ok_inj}
use legal_graphrag_platform.Base.Text.{strip}
use legal_graphrag_platform.Retrieval.Models.{RetrievedUnit}
use legal_graphrag_platform.Retrieval.Models.Context.{RetrievalContext}
use legal_graphrag_platform.Generation.Models.{
  AnswerCitation, AnswerGenerationRequest, AnswerResponse,
}
use legal_graphrag_platform.Generation.Models.Projected.{
  EvidenceRegistry, LegalEvidenceBlock, ProjectedAnswerContext, ProviderAnswerRequest,
  validate_registry,
}
use legal_graphrag_platform.Generation.Models.Candidate.{AnswerCandidate}
use legal_graphrag_platform.Generation.Errors.{is_grounding_error, is_repair_provider_error}
use legal_graphrag_platform.Generation.Evidence.Soundness.{
  IsSafe, IsEvidence, stripped, validate-IsEvidence,
}
use legal_graphrag_platform.Generation.Compaction.Sources.{All-compact}
use legal_graphrag_platform.Generation.Projection.{GenerationConfig, build_registry}
use legal_graphrag_platform.Generation.Projection.Payload.{to_evidence}
use legal_graphrag_platform.Generation.Projection.Coverage.{All-project}
use legal_graphrag_platform.Generation.Grounding.{
  citation_of, is_verbatim_quote, validate_and_render, refusal_response,
}
use legal_graphrag_platform.Generation.Grounding.Citations.{IsGrounded}
use legal_graphrag_platform.Generation.Grounding.Soundness.{validate_and_render-IsGrounded}
use legal_graphrag_platform.Generation.Service.{
  answer, generate, after_render, after_repair, repair, render_candidate, ask,
}
use legal_graphrag_platform.Generation.Service.State.{
  Provider, Turn, Outcome, repair_request, cannot_answer, sent,
}
use legal_graphrag_platform.Generation.Service.Stages.{
  IsNotAnswered, Reached, attempt-cases, generate-Ends, the_plan,
}

module _ (nfc : String → String) (provider : Provider) (request : AnswerGenerationRequest)
    (projected : ProjectedAnswerContext) (registry : EvidenceRegistry) where
  -- A candidate whose rendering is the response.
  pub record Rendered (response : AnswerResponse) : Type 0 where
    pub candidate : AnswerCandidate
    pub answers : candidate.cannot_answer ≡ false
    pub rendered :
        validate_and_render nfc candidate projected registry
          request.retrieval_context.contract_version provider.provider_name provider.model_name
        ≡ ok response

  abbrev pub IsRendered : Result AnswerResponse → Type 0
  IsRendered m =
      (response : AnswerResponse)
      → m ≡ ok response
      → response.cannot_answer ≡ false
      → Rendered response

  render_candidate-IsRendered :
      (candidate : AnswerCandidate)
      → IsRendered (render_candidate nfc provider request projected registry candidate)
  unfolding render_candidate validate_and_render refusal_response
  render_candidate-IsRendered candidate response h a = elim (Bool-cases candidate.cannot_answer) [
    | inl t ↦
        let refused = ok_inj (rw t at h) in
        let same : true ≡ response.cannot_answer =
          ap (λ (x : AnswerResponse). x.cannot_answer) refused in
        cc
    | inr f ↦ record { candidate = candidate; answers = f; rendered = h }
  ]

  ask-IsRendered :
      (n : ℕ) (prompt : ProviderAnswerRequest)
      → IsRendered (ask nfc provider request projected registry n prompt)
  unfolding ask
  ask-IsRendered n prompt response h a =
      let (candidate, _, k) = >>=-eq-ok (provider.generate_structured n prompt) _ h in
      render_candidate-IsRendered candidate response k a

  after_repair-IsRendered :
      (turn : Turn) (m : Result AnswerResponse)
      → IsRendered m
      → IsRendered (after_repair nfc provider request turn m).reply
  unfolding after_repair cannot_answer
  after_repair-IsRendered turn (ok r) good response h a = good response h a
  after_repair-IsRendered turn (err e) good response h a =
      elim (Bool-cases (is_repair_provider_error e.class)) [
        | inl t ↦
            let refused = ok_inj (rw t at h) in
            let same : true ≡ response.cannot_answer =
              ap (λ (x : AnswerResponse). x.cannot_answer) refused in
            cc
        | inr f ↦ good response (rw f at h) a
      ]

  after_render-IsRendered :
      (prompt : ProviderAnswerRequest) (turn : Turn) (m : Result AnswerResponse)
      → IsRendered m
      → IsRendered (after_render nfc provider request projected registry prompt turn m).reply
  unfolding after_render repair
  after_render-IsRendered prompt turn (ok r) good response h a = good response h a
  after_render-IsRendered prompt turn (err e) good response h a =
      elim (Bool-cases (is_grounding_error e.class)) [
        | inl t ↦
            after_repair-IsRendered _ _ (ask-IsRendered 1 (repair_request prompt e)) response
              (rw t at h) a
        | inr f ↦ good response (rw f at h) a
      ]

  answer-IsRendered :
      (turn : Turn) → IsRendered (answer nfc provider request projected registry turn).reply
  unfolding answer
  answer-IsRendered turn =
      let prompt = provider_request projected registry in
      attempt-cases (λ o. IsRendered o.reply) (sent prompt turn)
        (provider.generate_structured 0 prompt)
        (λ candidate.
          after_render nfc provider request projected registry prompt (sent prompt turn)
            (render_candidate nfc provider request projected registry candidate))
        (λ e _ response h a. cc)
        λ candidate _.
          after_render-IsRendered prompt (sent prompt turn) _
            (render_candidate-IsRendered candidate)

-- The block of a safe unit of the context, its text stripped.
pub record IsRetrieved (context : RetrievalContext) (block : LegalEvidenceBlock) : Type 0 where
  pub unit : RetrievedUnit
  pub retrieved : Member unit context.retrieved_units
  pub safe : IsSafe context unit
  pub shown : block ≡ to_evidence (stripped unit)

-- The citation has the metadata of a retrieved unit that passed every check, and quotes its text.
pub record IsSourced (nfc : String → String) (context : RetrievalContext) (c : AnswerCitation)
    : Type 0 where
  pub unit : RetrievedUnit
  pub retrieved : Member unit context.retrieved_units
  pub safe : IsSafe context unit
  pub quote : String
  pub built : c ≡ citation_of (to_evidence (stripped unit)) quote
  pub verbatim : is_verbatim_quote nfc quote (strip unit.content_raw) ≡ true

evidence-IsRetrieved :
    (context : RetrievalContext) (c : EvidenceCandidate)
    → IsEvidence context c
    → IsRetrieved context (to_evidence c.unit)
evidence-IsRetrieved context c h = record {
  unit = h.origin;
  retrieved = h.retrieved;
  safe = h.safe;
  shown = ap (λ u. to_evidence u) h.kept;
}

grounded-IsSourced :
    (nfc : String → String) (context : RetrievalContext) (registry : EvidenceRegistry)
    → All (IsRetrieved context) registry.entries
    → (c : AnswerCitation) → IsGrounded nfc registry c
    → IsSourced nfc context c
grounded-IsSourced nfc context registry h c g =
    let b = All_at (IsRetrieved context) registry.entries g.entry h g.listed in
    record {
      unit = b.unit;
      retrieved = b.retrieved;
      safe = b.safe;
      quote = g.quote;
      built = g.built ∙ ap (λ e. citation_of e g.quote) b.shown;
      verbatim =
          subst (λ (e : LegalEvidenceBlock). is_verbatim_quote nfc g.quote e.content_raw ≡ true)
            b.shown g.verbatim;
    }

build_registry-entries :
    (projected : ProjectedAnswerContext) (registry : EvidenceRegistry)
    → build_registry projected ≡ ok registry
    → projected.evidence ≡ registry.entries
unfolding build_registry validate_registry
build_registry-entries projected registry h =
    let ids = map (λ (e : LegalEvidenceBlock). e.unit_id) projected.evidence in
    let (_, k₁) = guard-bind-ok (not (same_list ids projected.selected_unit_ids)) _ _ _ h in
    let (_, k₂) = guard-bind-ok (not (unique ids)) _ _ _ k₁ in
    let (_, k₃) = guard-bind-ok (not (unique (map (λ p. p.path_id) projected.paths))) _ _ _ k₂ in
    ap (λ (x : EvidenceRegistry). x.entries) (ok_inj k₃)

module _ (nfc casefold sha256_hex : String → String) (config : GenerationConfig)
    (provider : Provider) (request : AnswerGenerationRequest) where
  entries-IsRetrieved :
      (o : Outcome) (r : Reached nfc casefold sha256_hex config provider request o)
      → All (IsRetrieved request.retrieval_context) r.registry.entries
  entries-IsRetrieved o r =
      let context = request.retrieval_context in
      subst (All (IsRetrieved context))
        (build_registry-entries r.projected r.registry r.is_registered)
        (All-project config request
          (the_plan nfc casefold sha256_hex config provider request r.validated) r.projection
          r.projected r.is_projected r.is_context (IsRetrieved context)
          (All-compact (λ c. IsRetrieved context (to_evidence c.unit)) casefold sha256_hex context
            r.validated request.composition_plan
            (All-mono (IsEvidence context) _ (evidence-IsRetrieved context) r.validated.candidates
              (validate-IsEvidence sha256_hex context r.validated r.is_validated).0)))

  declined-unanswered :
      (m : Result AnswerResponse) (response : AnswerResponse)
      → IsNotAnswered m
      → m ≡ ok response
      → response.cannot_answer ≡ true
  declined-unanswered (ok r) response n h =
      ap (λ (x : AnswerResponse). x.cannot_answer) (sym (ok_inj h)) ∙ n
  declined-unanswered (err e) response n h = cc

  -- If a turn returns an answer, then each citation of it has the metadata of a unit that retrieval
  -- put into the request's context and that passed the evidence checks, and its quote occurs in
  -- that unit's text (up to spacing and Unicode composition), whatever the provider replied.
  pub generate-IsSourced :
      (response : AnswerResponse)
      → (generate nfc casefold sha256_hex config provider request).reply ≡ ok response
      → response.cannot_answer ≡ false
      → All (IsSourced nfc request.retrieval_context) response.citations
  generate-IsSourced response returned answers =
      elim (generate-Ends nfc casefold sha256_hex config provider request) [
        | inl d ↦
            let refused = declined-unanswered _ response d.unanswered returned in
            absurd (true≢false (sym refused ∙ answers))
        | inr r ↦
            let a =
              answer-IsRendered nfc provider request r.projected r.registry r.turn response
                (ap (λ (o : Outcome). o.reply) (sym r.ended) ∙ returned) answers in
            All-mono (IsGrounded nfc r.registry) _
              (grounded-IsSourced nfc request.retrieval_context r.registry
                (entries-IsRetrieved _ r))
              response.citations
              (validate_and_render-IsGrounded nfc a.candidate r.projected r.registry _ _ _ response
                a.answers a.rendered).0
      ]
