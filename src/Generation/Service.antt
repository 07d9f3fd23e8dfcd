-- ===== src/Generation/Service.antt =====
-- src/generation/service.py: `AnswerGenerator.generate`, with the calls that it makes of the
-- provider. Service/State has the turn with its metrics.
pub mod State
pub mod Stages
pub mod Calls
pub mod Provenance
pub mod Metrics
use legal_graphrag_platform.Generation.Projection.Payload.{
  evidence_cost, evidence_cost, evidence_cost, evidence_cost, evidence_cost, evidence_cost,
  evidence_cost, evidence_cost, evidence_cost, evidence_cost, evidence_cost, evidence_cost,
  evidence_cost, evidence_cost,
}
use Prim.Native.String.{◌++◌}
use mathlib.Core.List.{◌++◌ as ◌⧺◌}
use legal_graphrag_platform.Base.{
  ℕ, String, true, not, Option, none, some, List, [], ◌∷◌, if◌then◌else◌, ◌==◌,
}
use legal_graphrag_platform.Base.Result.{Result, ok, err, ◌>>=◌, ErrorClass, Exception}
use legal_graphrag_platform.Base.Float.{float_zero}
use legal_graphrag_platform.Base.Dict.{Dict, insert, set_default, update}
use legal_graphrag_platform.Retrieval.Models.{
  IntentType, GraphEdge, IntentType, GraphEdge, IntentType, GraphEdge, IntentType, GraphEdge,
  IntentType, GraphEdge, IntentType, GraphEdge, IntentType, GraphEdge, IntentType, GraphEdge,
  IntentType, GraphEdge, IntentType, GraphEdge, IntentType, GraphEdge, IntentType, GraphEdge,
  IntentType, GraphEdge, IntentType, GraphEdge, intent_value, strategy_value,
}
use legal_graphrag_platform.Retrieval.Models.Context.{Detail, Metric, RetrievalContext}
use legal_graphrag_platform.Generation.Models.{AnswerGenerationRequest, AnswerResponse}
use legal_graphrag_platform.Generation.Models.Projected.{
  EvidenceRegistry, ProjectedAnswerContext, ProviderAnswerRequest,
}
use legal_graphrag_platform.Generation.Models.Candidate.{AnswerCandidate}
use legal_graphrag_platform.Generation.Errors.{is_grounding_error, is_repair_provider_error}
use legal_graphrag_platform.Generation.Sufficiency.{evaluate}
use legal_graphrag_platform.Generation.Evidence.{ValidatedEvidence, validate}
use legal_graphrag_platform.Generation.Compaction.{CompactionPlan, compact}
use legal_graphrag_platform.Generation.Projection.{
  GenerationConfig, ProjectionResult, project, build_registry,
}
use legal_graphrag_platform.Generation.Projection.Request.{provider_request}
use legal_graphrag_platform.Generation.ProjectedValidation.{evaluate_projected}
use legal_graphrag_platform.Generation.Grounding.{validate_and_render}
use legal_graphrag_platform.Generation.Diagnostics.{
  insufficient_diagnostics, compaction_diagnostics, projection_diagnostics, generation_context,
}
use legal_graphrag_platform.Generation.Service.State.{
  Provider, Turn, Outcome, class_name, reason_or_default, cannot_answer, attempt, record_context,
  extend_context, sent, start_turn, describe, triggered_entry, failed_entry, repair_request,
  repair_failed_text, decline,
}

module _ (nfc : String → String) (provider : Provider) (request : AnswerGenerationRequest) where
  -- `_render`
  unfoldable pub render_candidate :
      ProjectedAnswerContext → EvidenceRegistry → AnswerCandidate → Result AnswerResponse
  unfolding validate_and_render
  render_candidate projected registry candidate =
      validate_and_render nfc candidate projected registry
        request.retrieval_context.contract_version provider.provider_name provider.model_name

  -- The provider's reply to a prompt, rendered.
  unfoldable pub ask :
      ProjectedAnswerContext → EvidenceRegistry → ℕ → ProviderAnswerRequest → Result AnswerResponse
  unfolding render_candidate
  ask projected registry n prompt = do
    candidate ← provider.generate_structured n prompt
    render_candidate projected registry candidate

  -- The exceptions of the repair that the service does not let out.
  unfoldable pub after_repair : Turn → Result AnswerResponse → Outcome
  unfolding extend_context cannot_answer describe
  after_repair turn (ok response) = record { turn = turn; reply = ok response }
  after_repair turn (err e) =
      if is_repair_provider_error e.class
      then record {
        turn = extend_context (failed_entry e) turn;
        reply = ok (cannot_answer request (some "ANSWER_REPAIR_FAILED") (some repair_failed_text));
      }
      else record { turn = turn; reply = err e }

  -- The one repair, after the exception of the first candidate.
  unfoldable pub repair :
      ProjectedAnswerContext → EvidenceRegistry → ProviderAnswerRequest → Turn → Exception → Outcome
  unfolding extend_context repair_request after_repair ask describe
  repair projected registry prompt turn e =
      let again = repair_request prompt e in
      after_repair (sent again (extend_context (triggered_entry e) turn))
        (ask projected registry 1 again)

  unfoldable pub after_render :
      ProjectedAnswerContext
      → EvidenceRegistry
      → ProviderAnswerRequest
      → Turn
      → Result AnswerResponse
      → Outcome
  unfolding repair
  after_render projected registry prompt turn (ok response) = record {
    turn = turn;
    reply = ok response;
  }
  after_render projected registry prompt turn (err e) =
      if is_grounding_error e.class
      then repair projected registry prompt turn e
      else record { turn = turn; reply = err e }

  -- From the first call of the provider on.
  unfoldable pub answer : ProjectedAnswerContext → EvidenceRegistry → Turn → Outcome
  unfolding provider_request after_render render_candidate
  answer projected registry turn =
      let prompt = provider_request projected registry in
      attempt (sent prompt turn) (provider.generate_structured 0 prompt) λ candidate.
        after_render projected registry prompt (sent prompt turn)
          (render_candidate projected registry candidate)

module _ (nfc casefold sha256_hex : String → String) (config : GenerationConfig)
    (provider : Provider) (request : AnswerGenerationRequest) where
  -- From the projected context on.
  unfoldable pub from_projected :
      ValidatedEvidence → CompactionPlan → Turn → ProjectedAnswerContext → Outcome
  unfolding evaluate_projected projection_diagnostics decline record_context build_registry answer
      update
  from_projected validated plan turn projected =
      let diagnostics = projection_diagnostics validated plan projected in
      attempt turn (evaluate_projected projected plan) λ result.
        if not result.sufficient
        then decline request (update diagnostics (insufficient_diagnostics result.reason_code))
            result.reason_code result.reason turn
        else (let turn₁ =
              record_context (update diagnostics (("sufficient", Detail.flag true) ∷ [])) turn in
            attempt turn₁ (build_registry projected)
              λ registry. answer nfc provider request projected registry turn₁)

  unfoldable pub after_projection :
      ValidatedEvidence
      → CompactionPlan
      → Turn
      → ProjectionResult
      → Option ProjectedAnswerContext
      → Outcome
  unfolding compaction_diagnostics decline from_projected
  after_projection validated plan turn projection none =
      decline request (compaction_diagnostics validated plan projection.reason_code)
        projection.reason_code projection.reason turn
  after_projection validated plan turn projection (some projected) =
      from_projected validated plan turn projected

  -- From the sufficient evidence on.
  unfoldable pub from_evidence : Turn → Outcome
  unfolding validate compact project after_projection
  from_evidence turn =
      let context = request.retrieval_context in
      attempt turn (validate sha256_hex context) λ validated.
        (let plan = compact casefold sha256_hex context validated request.composition_plan in
          attempt turn (project config request plan)
            λ projection. after_projection validated plan turn projection projection.projected)

  -- `generate`
  unfoldable pub generate : Outcome
  unfolding start_turn evaluate decline from_evidence
  generate =
      let turn = start_turn request.retrieval_context in
      attempt turn (evaluate sha256_hex request.retrieval_context) λ result.
        if not result.sufficient
        then decline request (insufficient_diagnostics result.reason_code) result.reason_code
            result.reason turn
        else from_evidence turn
