-- ===== src/Answering/Examples.antt =====
-- A question that is answered from retrieval on.
use legal_graphrag_platform.Base.{first_occurrence, refl, none, some, [], ◌∷◌}
use legal_graphrag_platform.Base.Result.{ok}
use legal_graphrag_platform.Retrieval.Models.{RetrievalChannel}
use legal_graphrag_platform.Retrieval.Decision.{RetrievalRequest, PreparedRetrievalRequest}
use legal_graphrag_platform.Retrieval.Runtime.Retrieve.{prepare}
use legal_graphrag_platform.Retrieval.Examples.{bit_floats}
use legal_graphrag_platform.Retrieval.RuntimeExamples.{
  runtime, latencies, value_or, first_units-KeepsDates,
}
use legal_graphrag_platform.Retrieval.RouterExamples.{unicode, router, request, prepared}
use legal_graphrag_platform.Generation.Models.{AnswerResponse}
use legal_graphrag_platform.Generation.Samples.{
  unchanged, one_hash, sample_unit, sample_config, sample_provider, sample_response,
}
use legal_graphrag_platform.Answering.{
  Parts, answer_standalone, IsCurrentAnswer, answer_standalone-IsCurrentAnswer,
}

abbrev parts : Parts
parts = record {
  unicode = unicode;
  floats = bit_floats;
  nfc = unchanged;
  casefold = unchanged;
  sha256_hex = one_hash;
  router = record router { today = 737100 };
  runtime = record runtime {
    seeds = record {
      vector = some (λ query filters k.
          ok (record (sample_unit "A1") { retrieval_sources = RetrievalChannel.vector ∷ [] } ∷ []));
      fulltext = none;
    };
  };
  prepare_latency_ms = 3;
  latencies = latencies;
  config = sample_config;
  provider = sample_provider;
}

abbrev question : RetrievalRequest
question = record request { query = "When is capital paid?" }

abbrev prepared_question : PreparedRetrievalRequest
prepared_question = value_or (prepare unicode parts.router question none 3) prepared

abbrev answer : AnswerResponse
answer = value_or (answer_standalone parts question none) sample_response

answer_standalone-IsCurrentAnswer_example :
    IsCurrentAnswer parts question none prepared_question answer
unfolding answer_standalone prepare first_occurrence
answer_standalone-IsCurrentAnswer_example =
    answer_standalone-IsCurrentAnswer parts question none prepared_question answer
      first_units-KeepsDates refl refl refl refl
