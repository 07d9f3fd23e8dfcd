-- ===== src/Generation/Service/Metrics.antt =====
-- The metrics that a turn of generation/service.py leaves in the retrieval context.
use legal_graphrag_platform.Base.{
  String, ◌≡◌, refl, ◌∙◌, inl, inr, Bool, true, false, not, ◌||◌, Option, none, some, if◌then◌else◌,
  ◌==◌, Bool-cases,
}
use legal_graphrag_platform.Base.Result.{Result, ok, err}
use legal_graphrag_platform.Base.Dict.{
  Dict, lookup, lookup-insert, or_else, lookup-set_default, set_default,
}
use legal_graphrag_platform.Retrieval.Models.Context.{RetrievalContext, Detail, Metric}
use legal_graphrag_platform.Generation.Models.{AnswerGenerationRequest, AnswerResponse}
use legal_graphrag_platform.Generation.Models.Projected.{
  EvidenceRegistry, ProjectedAnswerContext, ProviderAnswerRequest,
}
use legal_graphrag_platform.Generation.Errors.{is_grounding_error, is_repair_provider_error}
use legal_graphrag_platform.Generation.Sufficiency.{evaluate}
use legal_graphrag_platform.Generation.Evidence.{ValidatedEvidence, validate}
use legal_graphrag_platform.Generation.Compaction.{CompactionPlan}
use legal_graphrag_platform.Generation.Projection.{
  GenerationConfig, ProjectionResult, project, build_registry,
}
use legal_graphrag_platform.Generation.Projection.Request.{provider_request}
use legal_graphrag_platform.Generation.ProjectedValidation.{evaluate_projected}
use legal_graphrag_platform.Generation.Service.{
  answer, generate, after_render, after_repair, repair, render_candidate, ask, from_projected,
  after_projection, from_evidence,
}
use legal_graphrag_platform.Generation.Service.State.{
  triggered_entry, failed_entry, Provider, Turn, Outcome, start_turn, record_context,
  extend_context, decline, sent, repair_request,
}
use legal_graphrag_platform.Generation.Service.Stages.{attempt-cases, the_plan}

-- The key has the value that it has in the metrics given.
pub record Keeps (k : String) (before : Dict Metric) (o : Outcome) : Type 0 where
  pub kept : lookup k o.turn.metrics ≡ lookup k before

module _ (k : String) (other : ("generation_context" == k) ≡ false) where
  record_context-Keeps :
      (entry : Dict Detail) (turn : Turn)
      → lookup k (record_context entry turn).metrics ≡ lookup k turn.metrics
  unfolding record_context
  record_context-Keeps entry turn =
      lookup-insert "generation_context" k (Metric.group entry) turn.metrics ∙ rw other refl

  extend_context-Keeps :
      (entry : Dict Detail) (turn : Turn)
      → lookup k (extend_context entry turn).metrics ≡ lookup k turn.metrics
  unfolding extend_context
  extend_context-Keeps entry turn = record_context-Keeps _ turn

  module _ (nfc : String → String) (provider : Provider) (request : AnswerGenerationRequest) where
    after_repair-Keeps :
        (turn : Turn) (m : Result AnswerResponse)
        → Keeps k turn.metrics (after_repair nfc provider request turn m)
    unfolding after_repair
    after_repair-Keeps turn (ok response) = record { kept = refl }
    after_repair-Keeps turn (err e) = elim (Bool-cases (is_repair_provider_error e.class)) [
      | inl h ↦ rw h (record { kept = extend_context-Keeps (failed_entry e) turn })
      | inr h ↦ rw h (record { kept = refl })
    ]

    after_render-Keeps :
        (projected : ProjectedAnswerContext) (registry : EvidenceRegistry)
        (prompt : ProviderAnswerRequest) (turn : Turn) (m : Result AnswerResponse)
        → Keeps k turn.metrics (after_render nfc provider request projected registry prompt turn m)
    unfolding after_render repair
    after_render-Keeps projected registry prompt turn (ok response) = record { kept = refl }
    after_render-Keeps projected registry prompt turn (err e) =
        let again = repair_request prompt e in
        let retried = sent again (extend_context (triggered_entry e) turn) in
        elim (Bool-cases (is_grounding_error e.class)) [
          | inl h ↦ rw h (record {
            kept =
                (after_repair-Keeps retried
                  (ask nfc provider request projected registry 1 again)).kept
                ∙ extend_context-Keeps (triggered_entry e) turn;
          })
          | inr h ↦ rw h (record { kept = refl })
        ]

    answer-Keeps :
        (projected : ProjectedAnswerContext) (registry : EvidenceRegistry) (turn : Turn)
        → Keeps k turn.metrics (answer nfc provider request projected registry turn)
    unfolding answer
    answer-Keeps projected registry turn =
        let prompt = provider_request projected registry in
        attempt-cases (Keeps k turn.metrics) (sent prompt turn)
          (provider.generate_structured 0 prompt)
          (λ candidate.
            after_render nfc provider request projected registry prompt (sent prompt turn)
              (render_candidate nfc provider request projected registry candidate))
          (λ e _. record { kept = refl })
          λ candidate _. after_render-Keeps projected registry prompt (sent prompt turn) _

  decline-Keeps :
      (b : Bool) (request : AnswerGenerationRequest) (entry : Dict Detail)
      (code reason : Option String) (turn : Turn) (next : Outcome)
      → Keeps k turn.metrics next
      → Keeps k turn.metrics (if not b then decline request entry code reason turn else next)
  unfolding decline
  decline-Keeps true request entry code reason turn next h = h
  decline-Keeps false request entry code reason turn next h = record {
    kept = record_context-Keeps entry turn;
  }

  module _ (nfc casefold sha256_hex : String → String) (config : GenerationConfig)
      (provider : Provider) (request : AnswerGenerationRequest) where
    after_projection-Keeps :
        (validated : ValidatedEvidence) (plan : CompactionPlan) (turn : Turn)
        (projection : ProjectionResult) (o : Option ProjectedAnswerContext)
        → Keeps k turn.metrics (
            after_projection nfc casefold sha256_hex config provider request validated plan turn
              projection o)
    unfolding after_projection from_projected decline
    after_projection-Keeps validated plan turn projection none = record {
      kept = record_context-Keeps _ turn;
    }
    after_projection-Keeps validated plan turn projection (some projected) =
        attempt-cases (Keeps k turn.metrics) turn (evaluate_projected projected plan) _
          (λ e _. record { kept = refl })
          λ verdict _.
            decline-Keeps verdict.sufficient request _ verdict.reason_code verdict.reason turn _ (
              attempt-cases (Keeps k turn.metrics) _ (build_registry projected) _
                (λ e _. record { kept = record_context-Keeps _ turn })
                λ registry _. record {
                  kept =
                      (answer-Keeps nfc provider request projected registry _).kept
                      ∙ record_context-Keeps _ turn;
                })

    generate-Keeps :
        Keeps k
          (start_turn request.retrieval_context).metrics
          (generate nfc casefold sha256_hex config provider request)
    unfolding generate from_evidence
    generate-Keeps =
        let turn = start_turn request.retrieval_context in
        attempt-cases (Keeps k turn.metrics) turn (evaluate sha256_hex request.retrieval_context) _
          (λ e _. record { kept = refl })
          λ policy _.
            decline-Keeps policy.sufficient request _ policy.reason_code policy.reason turn _ (
              attempt-cases (Keeps k turn.metrics) turn
                (validate sha256_hex request.retrieval_context) _ (λ e _. record { kept = refl })
                λ validated _.
                  attempt-cases (Keeps k turn.metrics) turn
                    (project config request
                      (the_plan nfc casefold sha256_hex config provider request validated))
                    _ (λ e _. record { kept = refl })
                    λ projection _.
                      after_projection-Keeps validated
                        (the_plan nfc casefold sha256_hex config provider request validated) turn
                        projection projection.projected)

-- The two counters that a turn sets to 0 where retrieval has not set them.
abbrev pub is_counter : String → Bool
is_counter k = "planner_provider_calls" == k || "answer_provider_calls_after_plan_failure" == k

start_turn-metrics :
    (k : String) (context : RetrievalContext)
    → lookup k (start_turn context).metrics ≡ (
        if is_counter k
        then or_else (lookup k context.metrics) (some (Metric.plain (Detail.count 0)))
        else lookup k context.metrics)
unfolding start_turn
start_turn-metrics k context =
    let zero_count = Metric.plain (Detail.count 0) in
    let once = lookup-set_default "planner_provider_calls" k zero_count context.metrics in
    let twice =
      lookup-set_default "answer_provider_calls_after_plan_failure" k zero_count
        (set_default "planner_provider_calls" zero_count context.metrics) in
    twice
    ∙ both ("planner_provider_calls" == k) ("answer_provider_calls_after_plan_failure" == k)
        (lookup k context.metrics) _ zero_count once
  where
    both :
        (p a : Bool) (o q : Option Metric) (m : Metric)
        → q ≡ (if p then or_else o (some m) else o)
        → (if a then or_else q (some m) else q) ≡ (if p || a then or_else o (some m) else o)
    both true true none q m h = rw h refl
    both true true (some x) q m h = rw h refl
    both true false o q m h = h
    both false true o q m h = rw h refl
    both false false o q m h = h

-- However a turn ends, with an answer, a refusal or an exception, it changes no metric but its own
-- entry `generation_context` and the two counters, which are 0 if retrieval has not set them.
pub generate-metrics :
    (nfc casefold sha256_hex : String → String) (config : GenerationConfig) (provider : Provider)
    (request : AnswerGenerationRequest) (k : String)
    → ("generation_context" == k) ≡ false
    → lookup k (generate nfc casefold sha256_hex config provider request).turn.metrics ≡ (
        if is_counter k
        then or_else
            (lookup k request.retrieval_context.metrics)
            (some (Metric.plain (Detail.count 0)))
        else lookup k request.retrieval_context.metrics)
generate-metrics nfc casefold sha256_hex config provider request k other =
    (generate-Keeps k other nfc casefold sha256_hex config provider request).kept
    ∙ start_turn-metrics k request.retrieval_context
