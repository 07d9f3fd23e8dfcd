-- ===== src/Generation/Errors.antt =====
-- The error groups of src/generation/service.py.
use legal_graphrag_platform.Base.{◌≡◌, Bool, true, false}
use legal_graphrag_platform.Base.Result.{Exception, ErrorClass}

-- `_GROUNDING_ERRORS`
abbrev pub is_grounding_error : ErrorClass → Bool
is_grounding_error ErrorClass.citation_validation_error = true
is_grounding_error ErrorClass.grounding_validation_error = true
is_grounding_error ErrorClass.reasoning_path_validation_error = true
is_grounding_error ErrorClass.temporal_answer_validation_error = true
is_grounding_error _ = false

-- `_REPAIR_PROVIDER_ERRORS`
abbrev pub is_repair_provider_error : ErrorClass → Bool
is_repair_provider_error ErrorClass.provider_dependency_error = true
is_repair_provider_error ErrorClass.provider_timeout_error = true
is_repair_provider_error ErrorClass.provider_output_error = true
is_repair_provider_error _ = false

abbrev pub IsGroundingError : Exception → Type 0
IsGroundingError e = is_grounding_error e.class ≡ true
