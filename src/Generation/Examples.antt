-- ===== src/Generation/Examples.antt =====
-- The theorems on the answer generation, each applied to sample data.
use legal_graphrag_platform.Generation.Renderer.{escape}
use legal_graphrag_platform.Generation.Renderer.Escape.{plain_text, plain_text-escape}
use legal_graphrag_platform.Base.Dict.{lookup}
use legal_graphrag_platform.Base.Result.{
  context_budget_configuration_error, Result, ok, err, Exception, citation_validation_error,
}
use legal_graphrag_platform.Retrieval.Models.Context.{Detail, Metric}
use legal_graphrag_platform.Generation.Projection.{GenerationConfig, ProjectionResult, project}
use legal_graphrag_platform.Generation.Projection.Failures.{
  IsProjectionError, project-IsProjectionError,
}
use legal_graphrag_platform.Generation.Compaction.Bundles.{IsClosed}
use legal_graphrag_platform.Generation.Compaction.Closed.{compact-AllClosed}
use legal_graphrag_platform.Generation.Service.Metrics.{generate-metrics}
use mathlib.Core.List.{◌++◌ as ◌⧺◌}
use legal_graphrag_platform.Base.{
  ◌≡◌, refl, true, false, ◌&&◌, Option, none, some, [], ◌∷◌, map, is_some, is_empty, unique, All,
  ◌==◌,
}
use legal_graphrag_platform.Generation.Samples.{
  unchanged, one_hash, sample_unit, sample_context, sample_request, sample_config, sample_provider,
  sample_response, sample_answer, sample_statement,
}
use legal_graphrag_platform.Generation.Samples.Grounding.{
  sample_projected, sample_registry, sample_candidate, sample_grounded, sample_assertion,
}
use legal_graphrag_platform.Generation.Models.Projected.{ProjectedAnswerContext}
use legal_graphrag_platform.Generation.Models.Candidate.{iter_candidate_statements}
use legal_graphrag_platform.Generation.Errors.{IsGroundingError}
use legal_graphrag_platform.Generation.Evidence.{ValidatedEvidence, validate}
use legal_graphrag_platform.Generation.Evidence.Soundness.{IsEvidence, validate-IsEvidence}
use legal_graphrag_platform.Generation.Compaction.{CompactionPlan, compact}
use legal_graphrag_platform.Generation.Projection.Budget.{Fits, project-Fits}
use legal_graphrag_platform.Generation.Projection.Coverage.{
  IsKnown, IsAdmitted, project-IsKnown, project-IsAdmitted,
}
use legal_graphrag_platform.Generation.Grounding.{validate_and_render}
use legal_graphrag_platform.Generation.Grounding.Citations.{IsGrounded}
use legal_graphrag_platform.Generation.Grounding.Soundness.{
  validate_and_render-IsGrounded, AllListed,
}
use legal_graphrag_platform.Generation.Grounding.Links.{
  IsAllowedPath, IsTemporallySound, validate_and_render-paths, validate_and_render-temporal,
}
use legal_graphrag_platform.Generation.Grounding.Failures.{validate_and_render-IsGroundingError}
use legal_graphrag_platform.Generation.Service.{generate}
use legal_graphrag_platform.Generation.Service.State.{Provider, Turn}
use legal_graphrag_platform.Generation.Service.Provenance.{IsSourced, generate-IsSourced}

generate-IsSourced_example : All (IsSourced unchanged sample_context) sample_response.citations
unfolding generate
generate-IsSourced_example =
    generate-IsSourced unchanged unchanged one_hash sample_config sample_provider sample_request
      sample_response refl refl

-- Both replies misquote the article.
abbrev misquoting : Provider
misquoting = record {
  provider_name = "provider";
  model_name = "model";
  generate_structured =
      λ n prompt. ok (sample_answer (sample_statement "paid in 30 days" [] []) []);
}

abbrev misquoted : Exception
misquoted = record {
  class = citation_validation_error;
  message = "quoted_text for citation A1 is not a verbatim excerpt of the cited evidence";
}

abbrev no_calls : Turn
no_calls = record { metrics = []; calls = [] }

validate_and_render-IsGrounded_example :
    All (IsGrounded unchanged sample_registry) sample_grounded.citations
    × (unique (map (λ a. a.unit_id) sample_grounded.citations) ≡ true)
    × All (AllListed sample_grounded) (iter_candidate_statements sample_candidate)
unfolding validate_and_render
validate_and_render-IsGrounded_example =
    validate_and_render-IsGrounded unchanged sample_candidate sample_projected sample_registry "v1"
      "provider" "model" sample_grounded refl refl

validate_and_render-paths_example :
    All (IsAllowedPath sample_projected sample_registry) sample_grounded.reasoning_paths
    × ((is_some sample_projected.relation_goal && is_empty sample_grounded.reasoning_paths) ≡ false)
unfolding validate_and_render
validate_and_render-paths_example =
    validate_and_render-paths unchanged sample_candidate sample_projected sample_registry "v1"
      "provider" "model" sample_grounded refl refl

validate_and_render-temporal_example :
    All (IsTemporallySound sample_projected sample_registry) (sample_assertion ∷ [])
    × ((sample_projected.intent == "validity" && is_empty (sample_assertion ∷ [])) ≡ false)
unfolding validate_and_render
validate_and_render-temporal_example =
    validate_and_render-temporal unchanged sample_candidate sample_projected sample_registry "v1"
      "provider" "model" sample_grounded refl refl refl

validate_and_render-IsGroundingError_example : IsGroundingError misquoted
unfolding validate_and_render
validate_and_render-IsGroundingError_example =
    validate_and_render-IsGroundingError unchanged
      (sample_answer (sample_statement "paid in 30 days" [] []) []) sample_projected sample_registry
      "v1" "provider" "model" misquoted refl

abbrev sample_validated : ValidatedEvidence
sample_validated = record {
  candidates =
      record {
        unit = record (sample_unit "A1") { content_raw = "Capital is paid in 90 days." };
        rank = 0;
        is_eligible = true;
      }
      ∷ record {
        unit = record (sample_unit "A2") { content_raw = "Capital is paid in 90 days." };
        rank = 1;
        is_eligible = true;
      }
      ∷ [];
  paths = [];
}

validate-IsEvidence_example :
    All (IsEvidence sample_context) sample_validated.candidates
    × (map (λ c. c.unit.id) sample_validated.candidates ≡ "A1" ∷ "A2" ∷ [])
unfolding validate
validate-IsEvidence_example = validate-IsEvidence one_hash sample_context sample_validated refl

abbrev sample_plan : CompactionPlan
unfolding compact
sample_plan = compact unchanged one_hash sample_context sample_validated none

-- The result that a computation returns; the samples' computations all return one.
abbrev projection_of : Result ProjectionResult → ProjectionResult
projection_of (ok r) = r
projection_of (err e) = record { projected = none; reason_code = none; reason = none }

abbrev context_of : Option ProjectedAnswerContext → ProjectedAnswerContext
context_of none = sample_projected
context_of (some p) = p

abbrev sample_projection : ProjectionResult
unfolding project sample_plan
sample_projection = projection_of (project sample_config sample_request sample_plan)

abbrev built_context : ProjectedAnswerContext
unfolding sample_projection
built_context = context_of sample_projection.projected

sample_returned : project sample_config sample_request sample_plan ≡ ok sample_projection
unfolding project sample_plan sample_projection
sample_returned = refl

sample_is_context : sample_projection.projected ≡ some built_context
unfolding project sample_plan sample_projection built_context
sample_is_context = refl

project-Fits_example : Fits sample_config built_context
project-Fits_example =
    project-Fits sample_config sample_request sample_plan sample_projection built_context
      sample_returned sample_is_context

project-IsKnown_example : All (IsKnown built_context) sample_plan.candidates
project-IsKnown_example =
    project-IsKnown sample_config sample_request sample_plan sample_projection built_context
      sample_returned sample_is_context

project-IsAdmitted_example : IsAdmitted sample_plan built_context
project-IsAdmitted_example =
    project-IsAdmitted sample_config sample_request sample_plan sample_projection built_context
      sample_returned sample_is_context

generate-metrics_example :
    lookup "channels"
      (generate unchanged unchanged one_hash sample_config sample_provider
        sample_request).turn.metrics
    ≡ some (Metric.plain (Detail.count 2))
unfolding lookup
generate-metrics_example =
    generate-metrics unchanged unchanged one_hash sample_config sample_provider sample_request
      "channels" refl

compact-AllClosed_example :
    All (All (IsClosed sample_plan.candidates sample_plan.paths)) sample_plan.required_bundle_sets
unfolding sample_plan
compact-AllClosed_example =
    compact-AllClosed unchanged one_hash sample_context sample_validated none

-- The fixed part of the prompt alone is longer.
abbrev small_config : GenerationConfig
small_config = record sample_config { context_max_chars = 1000 }

abbrev no_room : Exception
no_room = record {
  class = context_budget_configuration_error;
  message = "Answer context budget cannot contain fixed prompt overhead";
}

project-IsProjectionError_example : IsProjectionError no_room
unfolding project
project-IsProjectionError_example =
    project-IsProjectionError unchanged one_hash small_config sample_request sample_validated
      no_room refl

plain_text-escape_example : plain_text false (escape "a_b \\ [1]") ≡ some "a_b \\ [1]"
plain_text-escape_example = plain_text-escape "a_b \\ [1]"
