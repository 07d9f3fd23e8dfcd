-- ===== src/Retrieval/Router/Classifier.antt =====
-- src/retrieval/nlu/classifier.py: the classifier that the router asks, over a language model.
use legal_graphrag_platform.Base.{
  String, Option, none, some, List, [], ◌∷◌, if◌then◌else◌, ◌==◌, refl, ◌≡◌,
}
use Prim.Native.String.{◌++◌}
use legal_graphrag_platform.Base.Result.{
  Result, raise, of_option, ErrorClass, intent_analysis_error, Raises, Raises-ok, Raises-err,
}
use legal_graphrag_platform.Base.Text.{strip}
use legal_graphrag_platform.Retrieval.Models.{IntentType, intent_value}

-- `for intent in IntentType`
abbrev intents : List IntentType
intents =
    IntentType.factual ∷ IntentType.validity ∷ IntentType.hierarchy ∷ IntentType.comparison
    ∷ IntentType.definition ∷ IntentType.multi_hop ∷ []

named_intent : String → List IntentType → Option IntentType
unfolding intent_value
named_intent normalized [] = none
named_intent normalized (intent ∷ rest) =
    let later = named_intent normalized rest in
    if normalized == intent_value intent then some intent else later

-- Python's `str.lower` and `repr`, and the language model's reply to a question under the prompt
-- of the classification, `none` if the call raises a `TextGenerationError`.
module _ (lower repr : String → String) (generate_text : String → Option String) where
  -- `LLMIntentClassifier.classify`
  unfoldable pub classify : String → Result IntentType
  unfolding named_intent strip
  classify query = elim (generate_text query) [
    | none ↦ raise intent_analysis_error "Intent classification LLM call failed"
    | some response ↦
        of_option (named_intent (lower (strip response)) intents) intent_analysis_error
          ("Unsupported intent response: " ++ repr response)
  ]

  -- Only an `IntentAnalysisError` leaves the classifier.
  pub classify-Raises :
      (query : String) → Raises (λ e. e.class ≡ ErrorClass.intent_analysis_error) (classify query)
  unfolding classify
  classify-Raises query = by_response (generate_text query)
    where
      by_intent :
          (response : String) (o : Option IntentType)
          → Raises
              (λ e. e.class ≡ ErrorClass.intent_analysis_error)
              (of_option o intent_analysis_error ("Unsupported intent response: " ++ repr response))
      by_intent response none = Raises-err _ refl
      by_intent response (some intent) = Raises-ok intent

      by_response :
          (o : Option String)
          → Raises {A = IntentType}
              (λ e. e.class ≡ ErrorClass.intent_analysis_error)
              (elim o [
                | none ↦ raise intent_analysis_error "Intent classification LLM call failed"
                | some response ↦
                    of_option
                      (named_intent (lower (strip response)) intents)
                      intent_analysis_error
                      ("Unsupported intent response: " ++ repr response)
              ])
      by_response none = Raises-err _ refl
      by_response (some response) =
          by_intent response (named_intent (lower (strip response)) intents)
