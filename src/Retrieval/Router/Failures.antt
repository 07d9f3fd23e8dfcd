-- ===== src/Retrieval/Router/Failures.antt =====
-- What exceptions leave router.py: those of src/retrieval/errors.py, and one of the parser's.
use Prim.Native.String.{◌++◌}
use legal_graphrag_platform.Base.{
  ℕ, String, ◌≡◌, refl, Bool, true, false, not, ◌&&◌, ◌||◌, Option, none, some, List, [], ◌∷◌, ◌⊎◌,
  inl, inr, if◌then◌else◌, leb, ltb, is_some, is_none, is_empty,
}
use legal_graphrag_platform.Base.Result.{
  Result, ok, err, Exception, ErrorClass, Raises, Raises-ok, Raises-err, Raises-bind, Raises-guard,
  ◌>>=◌,
}
use legal_graphrag_platform.Base.Text.{text_length}
use legal_graphrag_platform.Base.Date.{Date, make_date, days_in_month}
use legal_graphrag_platform.Base.Regex.{Unicode, Match, search, int}
use legal_graphrag_platform.Retrieval.Models.{
  RetrievalDecisionReasonCode, intent_value, IntentType, RelationGoal, RetrievalFilters,
  TemporalQuery,
}
use legal_graphrag_platform.Retrieval.Decision.{RetrievalRequest}
use legal_graphrag_platform.Retrieval.TemporalParser.{
  resolved, explicit_match, parse_span, year_query, parse_year, month_query, parse_month,
  parse_current, day_query, parse, year_pattern, month_year_pattern, current_validity_wording,
}
use legal_graphrag_platform.Retrieval.Runtime.{is_validity}
use legal_graphrag_platform.Retrieval.Router.{
  route, route_with, resolve_intent, resolve_goal, resolve_classified, resolve_by,
  check_parse_error, parse_failure, Resolved, Classified, classify_intent_by_rule,
}
use legal_graphrag_platform.Retrieval.Router.Rules.{RuleConfidence}
use legal_graphrag_platform.Retrieval.Router.Limits.{RetrievalConfig, seed_channels, or_default}
use legal_graphrag_platform.Retrieval.Router.Time.{
  Timed, is_comparison, resolve_time, resolve_temporal, differs,
}

-- The classes of src/retrieval/errors.py, which are kinds of `RetrievalError`.
abbrev pub is_retrieval_error : ErrorClass → Bool
is_retrieval_error ErrorClass.retrieval_request_error = true
is_retrieval_error ErrorClass.canonical_reference_unavailable_error = true
is_retrieval_error ErrorClass.retrieval_routing_error = true
is_retrieval_error ErrorClass.temporal_routing_error = true
is_retrieval_error ErrorClass.retrieval_capability_error = true
is_retrieval_error ErrorClass.retrieval_dependency_error = true
is_retrieval_error ErrorClass.retrieval_execution_error = true
is_retrieval_error ErrorClass.retrieval_output_error = true
is_retrieval_error ErrorClass.intent_analysis_error = true
is_retrieval_error ErrorClass.query_processing_error = true
is_retrieval_error ErrorClass.query_processing_parse_error = true
is_retrieval_error ErrorClass.query_processing_contract_error = true
is_retrieval_error _ = false

abbrev IsValueError : Exception → Type 0
IsValueError e = e.class ≡ ErrorClass.value_error

make_date-Raises : (year month day : ℕ) → Raises IsValueError (make_date year month day)
unfolding make_date
make_date-Raises year month day = Raises-guard (ltb year 1 || ltb 9999 year) _ _ _ refl λ _.
    Raises-guard (ltb month 1 || ltb 12 month) _ _ _ refl λ _.
      Raises-guard (ltb day 1 || ltb (days_in_month year month) day) _ _ _ refl λ _. Raises-ok _

-- A time from two dates raises what a date raises.
interval-Raises :
    (y₁ m₁ d₁ y₂ m₂ d₂ : ℕ) (make : Date → Date → TemporalQuery)
    → Raises IsValueError (make_date y₁ m₁ d₁ >>= λ a. make_date y₂ m₂ d₂ >>= λ b. ok (make a b))
interval-Raises y₁ m₁ d₁ y₂ m₂ d₂ make =
    Raises-bind (make_date y₁ m₁ d₁) _ (make_date-Raises y₁ m₁ d₁) λ a _.
      Raises-bind (make_date y₂ m₂ d₂) _ (make_date-Raises y₂ m₂ d₂) λ b _. Raises-ok (make a b)

module _ (u : Unicode) where
  year_query-Raises :
      (m : Match u) (groups : List String) (current : Bool)
      → Raises IsValueError (year_query u m groups current)
  year_query-Raises m [] current = Raises-err _ refl
  year_query-Raises m (y ∷ groups) current =
      interval-Raises (int u y) 1 1 (int u y) 12 31 λ a b. resolved m.expression a b "year" current

  parse_year-Raises :
      (query : String) (current : Bool) → Raises IsValueError (parse_year u query current)
  unfolding parse_year
  parse_year-Raises query current = by_match (search u year_pattern query)
    where
      by_match :
          (o : Option (Match u))
          → Raises IsValueError
              (elim o [ some m ↦ year_query u m m.groups current | none ↦ ok (parse_span u query) ])
      by_match none = Raises-ok _
      by_match (some m) = year_query-Raises m m.groups current

  month_query-Raises :
      (query : String) (m : Match u) (groups : List String) (current : Bool)
      → Raises IsValueError (month_query u query m groups current)
  unfolding month_query
  month_query-Raises query m [] current = Raises-err _ refl
  month_query-Raises query m (month ∷ []) current = Raises-err _ refl
  month_query-Raises query m (month ∷ year ∷ groups) current =
      by_test (leb 1 (int u month) && leb (int u month) 12)
    where
      y : ℕ
      y = int u year

      m' : ℕ
      m' = int u month

      by_test :
          (b : Bool)
          → Raises IsValueError (
              if b
              then (do
                from ← make_date y m' 1
                to ← make_date y m' (days_in_month y m')
                ok (resolved m.expression from to "month" current))
              else parse_year u query current)
      by_test false = parse_year-Raises query current
      by_test true =
          interval-Raises y m' 1 y m' (days_in_month y m')
            λ a b. resolved m.expression a b "month" current

  parse_month-Raises :
      (query : String) (current : Bool) → Raises IsValueError (parse_month u query current)
  unfolding parse_month
  parse_month-Raises query current = by_match (search u month_year_pattern query)
    where
      by_match :
          (o : Option (Match u))
          → Raises IsValueError (elim o [
            | some m ↦ month_query u query m m.groups current
            | none ↦ parse_year u query current
          ])
      by_match none = parse_year-Raises query current
      by_match (some m) = month_query-Raises query m m.groups current

  parse_current-Raises :
      (query : String) (current : Option (Match u))
      → Raises IsValueError (parse_current u query current)
  unfolding parse_current
  parse_current-Raises query none = parse_month-Raises query false
  parse_current-Raises query (some m) = Raises-ok _

  parse-Raises : (query : String) → Raises IsValueError (parse u query)
  unfolding parse
  parse-Raises query = by_match (explicit_match u query)
    where
      current : Option (Match u)
      current = search u current_validity_wording query

      by_day :
          (o : Option TemporalQuery)
          → Raises IsValueError (elim o [ some d ↦ ok d | none ↦ parse_current u query current ])
      by_day none = parse_current-Raises query current
      by_day (some d) = Raises-ok d

      by_match :
          (o : Option (Match u))
          → Raises IsValueError
              (elim (elim o as (λ _. Option TemporalQuery) [
                | some m ↦ day_query u m (is_some current)
                | none ↦ none
              ]) [ some d ↦ ok d | none ↦ parse_current u query current ])
      by_match none = by_day none
      by_match (some m) = by_day (day_query u m (is_some current))

  -- An exception of the router: a kind of `RetrievalError`, or the parser's.
  abbrev pub IsRoutingError : String → Exception → Type 0
  IsRoutingError query e =
      (is_retrieval_error e.class ≡ true)
      ⊎ ((parse u query ≡ err e) × (e.class ≡ ErrorClass.value_error))

  -- A classifier, where there is one, raises kinds of `RetrievalError`.
  abbrev pub ClassifierRaises : Option (String → Result IntentType) → Type 0
  ClassifierRaises none = Unit
  ClassifierRaises (some classify) =
      (query : String) → Raises (λ e. is_retrieval_error e.class ≡ true) (classify query)

  module _ (query : String) (classifier : Option (String → Result IntentType))
      (classified : ClassifierRaises classifier) where
    resolve_by-Raises :
        (suggestion : Option Classified)
        → Raises (IsRoutingError query) (resolve_by u classifier query suggestion)
    resolve_by-Raises suggestion = by_classifier classifier classified suggestion
      where
        by_classifier :
            (c : Option (String → Result IntentType))
            → ClassifierRaises c
            → (o : Option Classified) → Raises (IsRoutingError query) (resolve_by u c query o)
        by_classifier none h none = Raises-ok _
        by_classifier none h (some s) = Raises-ok _
        by_classifier (some classify) h o =
            Raises-bind (classify query) _ (record { at = λ e k. inl ((h query).at e k) })
              λ a _. Raises-ok _

    resolve_classified-Raises :
        (suggestion : Option Classified)
        → Raises (IsRoutingError query) (resolve_classified u classifier query suggestion)
    resolve_classified-Raises none = resolve_by-Raises none
    resolve_classified-Raises (some c) = by_confidence c.confidence
      where
        by_confidence :
            (confidence : RuleConfidence)
            → Raises {A = Resolved} (IsRoutingError query) (elim confidence [
              | RuleConfidence.high ↦ ok (record {
                intent = c.intent;
                reason_code = c.reason;
                reason = "Matched high-confidence " ++ intent_value c.intent ++ " rule";
              })
              | RuleConfidence.low ↦ resolve_by u classifier query (some c)
            ])
        by_confidence RuleConfidence.high = Raises-ok _
        by_confidence RuleConfidence.low = resolve_by-Raises (some c)

    resolve_goal-Raises :
        (goal : Option RelationGoal)
        → Raises (IsRoutingError query) (resolve_goal u classifier query goal)
    resolve_goal-Raises none = resolve_classified-Raises (classify_intent_by_rule u query)
    resolve_goal-Raises (some RelationGoal.refers_to) = Raises-ok _
    resolve_goal-Raises (some RelationGoal.defines) =
        resolve_classified-Raises (classify_intent_by_rule u query)
    resolve_goal-Raises (some RelationGoal.regulates) =
        resolve_classified-Raises (classify_intent_by_rule u query)
    resolve_goal-Raises (some RelationGoal.guides) =
        resolve_classified-Raises (classify_intent_by_rule u query)

  resolve_intent-Raises :
      (classifier : Option (String → Result IntentType)) (request : RetrievalRequest)
      (goal : Option RelationGoal)
      → ClassifierRaises classifier
      → Raises (IsRoutingError request.query) (resolve_intent u classifier request goal)
  unfolding resolve_intent
  resolve_intent-Raises classifier request goal classified = by_force request.force_intent
    where
      by_force :
          (o : Option IntentType)
          → Raises {A = Resolved} (IsRoutingError request.query) (elim o [
            | some intent ↦ ok (record {
              intent = intent;
              reason_code = RetrievalDecisionReasonCode.forced_intent;
              reason = "Intent explicitly forced to " ++ intent_value intent;
            })
            | none ↦ resolve_goal u classifier request.query goal
          ])
      by_force none = resolve_goal-Raises request.query classifier classified goal
      by_force (some intent) = Raises-ok _

  resolve_time-Raises :
      (query : String) (today : Date) (filters : RetrievalFilters) (temporal : TemporalQuery)
      (intent : IntentType) (o : Option Date)
      → Raises (IsRoutingError query) (resolve_time today filters temporal intent o)
  resolve_time-Raises query today filters temporal intent none = Raises-ok _
  resolve_time-Raises query today filters temporal intent (some d) =
      Raises-guard (differs d temporal.resolved_from) _ _ _ (inl refl) λ _. Raises-ok _

  check_parse_error-Raises :
      (query : String) (o : Option String) → Raises (IsRoutingError query) (check_parse_error o)
  check_parse_error-Raises query none = Raises-ok tt
  check_parse_error-Raises query (some message) = Raises-err _ (inl refl)

  route_with-Raises :
      (config : RetrievalConfig) (request : RetrievalRequest) (r : Resolved) (t : Timed)
      → Raises (IsRoutingError request.query) (route_with u config request r t)
  unfolding route_with
  route_with-Raises config request r t =
      let candidate_k = or_default request.top_k config.candidate_k in
      let final_k = or_default request.final_k config.final_k in
      Raises-guard (is_validity r.intent && is_none t.temporal.resolved_from) _ _ _ (inl refl) λ _.
        Raises-guard
          (is_comparison r.intent && not (t.temporal.has_temporal || t.temporal.spans_all_versions))
          _ _ _ (inl refl)
          λ _.
            Raises-guard (not (leb 1 final_k && leb final_k candidate_k && leb candidate_k 200)) _ _
              _ (inl refl)
              λ _.
                Raises-guard (is_empty (seed_channels config r.intent)) _ _ _ (inl refl)
                  λ _. Raises-ok _

  -- If the classifier, where there is one, raises kinds of `RetrievalError` only, then each exception
  -- that leaves the router is a kind of `RetrievalError`, or it is an exception of the parser for
  -- the question, and then it is a `ValueError`.
  pub route-Raises :
      (config : RetrievalConfig) (classifier : Option (String → Result IntentType)) (today : Date)
      (request : RetrievalRequest) (goal : Option RelationGoal)
      → ClassifierRaises classifier
      → Raises (IsRoutingError request.query) (route u config classifier today request goal)
  unfolding route
  route-Raises config classifier today request goal classified =
      Raises-guard (ltb config.query_max_length (text_length request.query)) _ _ _ (inl refl) λ _.
        Raises-bind (parse u request.query) _
          (record { at = λ e h. inr (h, (parse-Raises request.query).at e h) })
          λ temporal _.
            Raises-bind (check_parse_error (parse_failure temporal.parse_error)) _
              (check_parse_error-Raises request.query (parse_failure temporal.parse_error))
              λ _ _.
                Raises-bind (resolve_intent u classifier request goal) _
                  (resolve_intent-Raises classifier request goal classified)
                  λ r _.
                    Raises-bind (resolve_temporal today request.filters temporal r.intent) _
                      (resolve_time-Raises request.query today request.filters temporal r.intent
                        request.filters.query_date)
                      λ t _. route_with-Raises config request r t
