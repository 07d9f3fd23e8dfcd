-- ===== src/Generation/Service/Stages.antt =====
-- How far a turn of generation/service.py comes: it ends before the provider is called, or it
-- calls the provider with a context that passed every stage.
use legal_graphrag_platform.Base.{
  String, ◌≡◌, refl, ◌⊎◌, inl, inr, Bool, true, false, not, Option, none, some, List, [], ◌∷◌,
  if◌then◌else◌,
}
use legal_graphrag_platform.Base.Result.{Result, ok, err, Exception}
use legal_graphrag_platform.Base.Dict.{update}
use legal_graphrag_platform.Retrieval.Models.Context.{Detail}
use legal_graphrag_platform.Generation.Models.{AnswerGenerationRequest, AnswerResponse}
use legal_graphrag_platform.Generation.Models.Projected.{EvidenceRegistry, ProjectedAnswerContext}
use legal_graphrag_platform.Generation.Sufficiency.{SufficiencyResult, evaluate}
use legal_graphrag_platform.Generation.Evidence.{ValidatedEvidence, validate}
use legal_graphrag_platform.Generation.Compaction.{CompactionPlan, compact}
use legal_graphrag_platform.Generation.Projection.{
  GenerationConfig, ProjectionResult, project, build_registry,
}
use legal_graphrag_platform.Generation.ProjectedValidation.{evaluate_projected}
use legal_graphrag_platform.Generation.Diagnostics.{projection_diagnostics}
use legal_graphrag_platform.Generation.Service.{
  answer, from_projected, after_projection, from_evidence, generate,
}
use legal_graphrag_platform.Generation.Service.State.{
  Provider, Turn, Outcome, attempt, cannot_answer, decline, record_context, start_turn,
}

abbrev pub IsNotAnswered : Result AnswerResponse → Type 0
IsNotAnswered (ok response) = response.cannot_answer ≡ true
IsNotAnswered (err e) = Unit {0}

-- The provider was not called, and the reply is an exception or a refusal.
pub record IsDeclined (o : Outcome) : Type 0 where
  pub uncalled : o.turn.calls ≡ []
  pub unanswered : IsNotAnswered o.reply

pub attempt-cases {ℓ} :
    {A : Type 0} (P : Outcome → Type ℓ) (turn : Turn) (m : Result A) (k : A → Outcome)
    → ((e : Exception) → m ≡ err e → P (record { turn = turn; reply = err e }))
    → ((a : A) → m ≡ ok a → P (k a))
    → P (attempt turn m k)
attempt-cases P turn (ok a) k bad good = good a refl
attempt-cases P turn (err e) k bad good = bad e refl

module _ (nfc casefold sha256_hex : String → String) (config : GenerationConfig)
    (provider : Provider) (request : AnswerGenerationRequest) where
  abbrev pub the_plan : ValidatedEvidence → CompactionPlan
  the_plan validated =
      compact casefold sha256_hex request.retrieval_context validated request.composition_plan

  -- The stages that a turn went through before the provider was called.
  pub record Reached (o : Outcome) : Type 0 where
    pub policy : SufficiencyResult
    pub evaluated : evaluate sha256_hex request.retrieval_context ≡ ok policy
    pub sufficient : policy.sufficient ≡ true
    pub validated : ValidatedEvidence
    pub is_validated : validate sha256_hex request.retrieval_context ≡ ok validated
    pub projection : ProjectionResult
    pub is_projected : project config request (the_plan validated) ≡ ok projection
    pub projected : ProjectedAnswerContext
    pub is_context : projection.projected ≡ some projected
    pub verdict : SufficiencyResult
    pub rechecked : evaluate_projected projected (the_plan validated) ≡ ok verdict
    pub whole : verdict.sufficient ≡ true
    pub registry : EvidenceRegistry
    pub is_registered : build_registry projected ≡ ok registry
    pub turn : Turn
    pub is_turn :
        turn
        ≡ record_context
            (update
              (projection_diagnostics validated (the_plan validated) projected)
              (("sufficient", Detail.flag true) ∷ []))
            (start_turn request.retrieval_context)
    pub ended : o ≡ answer nfc provider request projected registry turn

  abbrev pub Ends : Outcome → Type 0
  Ends o = IsDeclined o ⊎ Reached o

  stopped :
      {A : Type 0} {m : Result A} (turn : Turn)
      → turn.calls ≡ []
      → (e : Exception) → m ≡ err e
      → Ends (record { turn = turn; reply = err e })
  stopped turn h e _ = inl (record { uncalled = h; unanswered = tt })

  declined :
      (entry : List (String × Detail)) (code reason : Option String) (turn : Turn)
      → turn.calls ≡ []
      → Ends (decline request entry code reason turn)
  unfolding decline record_context cannot_answer
  declined entry code reason turn h = inl (record { uncalled = h; unanswered = refl })

  declined_unless :
      (b : Bool) (entry : List (String × Detail)) (code reason : Option String) (turn : Turn)
      (next : Outcome)
      → turn.calls ≡ []
      → (b ≡ true → Ends next)
      → Ends (if not b then decline request entry code reason turn else next)
  declined_unless true entry code reason turn next h good = good refl
  declined_unless false entry code reason turn next h good = declined entry code reason turn h

  start : Turn
  start = start_turn request.retrieval_context

  start-calls : start.calls ≡ []
  unfolding start start_turn
  start-calls = refl

  from_projected-Ends :
      (policy : SufficiencyResult)
      → evaluate sha256_hex request.retrieval_context ≡ ok policy
      → policy.sufficient ≡ true
      → (validated : ValidatedEvidence)
      → validate sha256_hex request.retrieval_context ≡ ok validated
      → (projection : ProjectionResult)
      → project config request (the_plan validated) ≡ ok projection
      → (o : Option ProjectedAnswerContext) → projection.projected ≡ o
      → Ends (
          after_projection nfc casefold sha256_hex config provider request validated
            (the_plan validated)
            start
            projection
            o)
  unfolding after_projection from_projected start record_context start_turn
  from_projected-Ends policy e₁ h₁ validated e₂ projection e₃ none e₄ =
      declined _ projection.reason_code projection.reason start start-calls
  from_projected-Ends policy e₁ h₁ validated e₂ projection e₃ (some projected) e₄ =
      attempt-cases Ends start (evaluate_projected projected (the_plan validated)) _
        (stopped start start-calls)
        λ verdict e₅.
          declined_unless verdict.sufficient _ verdict.reason_code verdict.reason start _
            start-calls
            λ h₅. attempt-cases Ends _ (build_registry projected) _ (stopped _ refl) λ registry e₆.
              inr (record {
                policy = policy;
                evaluated = e₁;
                sufficient = h₁;
                validated = validated;
                is_validated = e₂;
                projection = projection;
                is_projected = e₃;
                projected = projected;
                is_context = e₄;
                verdict = verdict;
                rechecked = e₅;
                whole = h₅;
                registry = registry;
                is_registered = e₆;
                turn = _;
                is_turn = refl;
                ended = refl;
              })

  pub generate-Ends : Ends (generate nfc casefold sha256_hex config provider request)
  unfolding generate from_evidence start
  generate-Ends =
      attempt-cases Ends start (evaluate sha256_hex request.retrieval_context) _
        (stopped start start-calls)
        λ policy e₁.
          declined_unless policy.sufficient _ policy.reason_code policy.reason start _ start-calls
            λ h₁.
              attempt-cases Ends start (validate sha256_hex request.retrieval_context) _
                (stopped start start-calls)
                λ validated e₂.
                  attempt-cases Ends start (project config request (the_plan validated)) _
                    (stopped start start-calls)
                    λ projection e₃.
                      from_projected-Ends policy e₁ h₁ validated e₂ projection e₃
                        projection.projected refl
