-- ===== src/Generation/Service/Calls.antt =====
-- The calls of the provider that a turn of generation/service.py makes, and what comes of them.
use mathlib.Core.List.{◌++◌ as ◌⧺◌}
use legal_graphrag_platform.Base.{◌⊎◌, false, String, ◌≡◌, List, [], ◌∷◌}
use legal_graphrag_platform.Base.Result.{Result, err, Exception}
use legal_graphrag_platform.Generation.Models.{AnswerGenerationRequest}
use legal_graphrag_platform.Generation.Models.Projected.{
  EvidenceRegistry, ProjectedAnswerContext, ProviderAnswerRequest,
}
use legal_graphrag_platform.Generation.Errors.{IsGroundingError, is_repair_provider_error}
use legal_graphrag_platform.Generation.Projection.Request.{provider_request}
use legal_graphrag_platform.Generation.Service.State.{Provider, repair_request}

-- The prompts that a turn sends: none, the prompt of a projected context, or that prompt and the
-- repair of a grounding error.
pub data IsTrace : List ProviderAnswerRequest → Type 0 where
  uncalled : IsTrace []
  asked :
      (projected : ProjectedAnswerContext) (registry : EvidenceRegistry)
      → IsTrace (provider_request projected registry ∷ [])
  repaired :
      (projected : ProjectedAnswerContext) (registry : EvidenceRegistry) (e : Exception)
      → IsGroundingError e
      → IsTrace (
          provider_request projected registry
          ∷ repair_request (provider_request projected registry) e
          ∷ [])

module _ (nfc : String → String) (provider : Provider) (request : AnswerGenerationRequest) where
  -- An exception of the provider that the service lets out: it answers neither of the two
  -- prompts, or it is no provider error of the repair.
  pub data IsProviderFailure (projected : ProjectedAnswerContext) (registry : EvidenceRegistry)
      : Exception → Type 0 where
    first_call :
        (e : Exception)
        → provider.generate_structured 0 (provider_request projected registry) ≡ err e
        → IsProviderFailure projected registry e
    repair_call :
        (rejected e : Exception)
        → IsGroundingError rejected
        → provider.generate_structured 1
            (repair_request (provider_request projected registry) rejected)
          ≡ err e
        → is_repair_provider_error e.class ≡ false
        → IsProviderFailure projected registry e

  abbrev pub IsFailure : ProjectedAnswerContext → EvidenceRegistry → Exception → Type 0
  IsFailure projected registry e = IsProviderFailure projected registry e ⊎ IsGroundingError e
