-- ===== src/Retrieval/Router/Routed.antt =====
-- What router.py guarantees of a routed question: its limits, its channels and its time.
use legal_graphrag_platform.Base.{
  ℕ, ◌≤◌, String, ◌≡◌, refl, sym, ◌∙◌, Bool, true, false, not, ◌&&◌, ◌||◌, Option, none, some,
  if◌then◌else◌, leb, ltb, is_some, is_none, is_empty, All, arith,
}
use legal_graphrag_platform.Base.Result.{Result, ok, >>=-eq-ok, guard-bind-ok, ok_inj, not-eq-false}
use mathlib.Core.Bool.{true≢false}
use legal_graphrag_platform.Base.Text.{text_length}
use legal_graphrag_platform.Base.Lists.{All-append}
use legal_graphrag_platform.Base.Date.{Date}
use legal_graphrag_platform.Base.Regex.{Unicode}
use legal_graphrag_platform.Retrieval.Models.{
  IntentType, RetrievalChannel, RetrievalFilters, TemporalQuery, RelationGoal,
}
use legal_graphrag_platform.Retrieval.Decision.{RetrievalRequest, RoutingResult}
use legal_graphrag_platform.Retrieval.TemporalParser.{parse}
use legal_graphrag_platform.Retrieval.TemporalParser.Dates.{IsTime, parse-IsTime}
use legal_graphrag_platform.Retrieval.Runtime.{is_validity}
use legal_graphrag_platform.Retrieval.Router.{
  Resolved, route_with, route, resolve_intent, check_parse_error, parse_failure,
}
use legal_graphrag_platform.Retrieval.Router.Limits.{
  RetrievalConfig, vector_seeds, fulltext_seeds, fulltext_first, seed_channels, or_default, smaller,
  is_hierarchy,
}
use legal_graphrag_platform.Retrieval.Router.Time.{
  on_day, Timed, is_comparison, resolve_query_time, resolve_time, resolve_temporal, differs,
}

-- The time of an intent, as it is resolved.
pub record IsTimed (intent : IntentType) (t : Timed) : Type 0 where
  pub same : t.filters.query_date ≡ t.temporal.resolved_from
  pub time : IsTime t.temporal
  pub present :
      (is_validity intent || is_comparison intent) ≡ false → is_some t.temporal.resolved_from ≡ true

if-both {ℓ} :
    {A : Type 0} (P : A → Type ℓ) (b : Bool) (x y : A)
    → (b ≡ true → P x)
    → (b ≡ false → P y)
    → P (if b then x else y)
if-both P true x y h k = h refl
if-both P false x y h k = k refl

on_day-IsTime : (temporal : TemporalQuery) (d : Date) → IsTime (on_day temporal d)
on_day-IsTime temporal d = IsTime.interval d d (omega arith) refl refl refl

resolve_query_time-IsTimed :
    (today : Date) (filters : RetrievalFilters) (temporal : TemporalQuery) (intent : IntentType)
    (o : Option Date)
    → filters.query_date ≡ none
    → temporal.resolved_from ≡ o
    → IsTime temporal
    → IsTimed intent (resolve_query_time today filters temporal intent o)
resolve_query_time-IsTimed today filters temporal intent (some d) undated from time = record {
  same = sym from;
  time = time;
  present = λ h. rw from refl;
}
resolve_query_time-IsTimed today filters temporal intent none undated from time =
    if-both (IsTimed intent) temporal.requests_current_validity _ _
      (λ h. record { same = refl; time = on_day-IsTime temporal today; present = λ k. refl })
      (λ h.
        if-both (IsTimed intent) (not (is_validity intent || is_comparison intent)) _ _
          (λ k. record { same = refl; time = on_day-IsTime temporal today; present = λ l. refl })
          (λ k. record {
            same = undated ∙ sym from;
            time = time;
            present = λ l. absurd (true≢false (sym (not-eq-false _ k) ∙ l));
          }))

resolve_time-IsTimed :
    (today : Date) (filters : RetrievalFilters) (temporal : TemporalQuery) (intent : IntentType)
    (o : Option Date) (t : Timed)
    → filters.query_date ≡ o
    → IsTime temporal
    → resolve_time today filters temporal intent o ≡ ok t
    → IsTimed intent t
resolve_time-IsTimed today filters temporal intent none t date time e =
    rw (← ok_inj e) (
      resolve_query_time-IsTimed today filters temporal intent temporal.resolved_from date refl
        time)
resolve_time-IsTimed today filters temporal intent (some d) t date time e =
    let (a, e₁) = guard-bind-ok (differs d temporal.resolved_from) _ _ _ e in
    rw (← ok_inj e₁) (record { same = date; time = on_day-IsTime temporal d; present = λ h. refl })

-- A channel that seeds a retrieval.
pub data IsSeed : RetrievalChannel → Type 0 where
  vector : IsSeed RetrievalChannel.vector
  fulltext : IsSeed RetrievalChannel.fulltext

seed_channels-IsSeed :
    (config : RetrievalConfig) (intent : IntentType) → All IsSeed (seed_channels config intent)
unfolding seed_channels
seed_channels-IsSeed config intent =
    if-both (All IsSeed) (fulltext_first intent) _ _
      (λ h. All-append IsSeed (fulltext_seeds config) (vector_seeds config intent) texts vectors)
      (λ h. All-append IsSeed (vector_seeds config intent) (fulltext_seeds config) vectors texts)
  where
    texts : All IsSeed (fulltext_seeds config)
    texts = if-both (All IsSeed) config.fulltext_enabled _ _ (λ h. (IsSeed.fulltext, tt)) (λ h. tt)

    vectors : All IsSeed (vector_seeds config intent)
    vectors =
        if-both (All IsSeed)
          (not config.vector_enabled || is_hierarchy intent && not config.hierarchy_vector_enabled)
          _ _ (λ h. tt) (λ h. (IsSeed.vector, tt))

-- What a routed question satisfies.
pub record IsRouted (routing : RoutingResult) : Type 0 where
  pub positive : 1 ≤ routing.decision.final_k
  pub final : routing.decision.final_k ≤ routing.decision.candidate_k
  pub limit : routing.decision.candidate_k ≤ 200
  pub entries : routing.decision.graph_entry_k ≤ routing.decision.candidate_k
  pub seeded : is_empty routing.decision.seed_channels ≡ false
  pub seeds : All IsSeed routing.decision.seed_channels
  pub policy :
      routing.decision.graph_policy_intent
      ≡ (if routing.decision.graph_enabled then some routing.decision.intent else none)
  pub same_date : routing.filters.query_date ≡ routing.temporal.resolved_from
  pub time : IsTime routing.temporal
  pub present :
      is_comparison routing.decision.intent ≡ false → is_some routing.temporal.resolved_from ≡ true

smaller_le : (a b : ℕ) → smaller a b ≤ b
smaller_le a b = ground arith

limits_le :
    (final_k candidate_k : ℕ)
    → not (leb 1 final_k && leb final_k candidate_k && leb candidate_k 200) ≡ false
    → (1 ≤ final_k) × (final_k ≤ candidate_k) × (candidate_k ≤ 200)
limits_le final_k candidate_k h = (ground arith, ground arith, ground arith)

-- With a resolved time, a check of validity questions leaves none without a date.
present_or :
    (validity comparison : Bool) (date : Option Date)
    → ((validity || comparison) ≡ false → is_some date ≡ true)
    → (validity && is_none date) ≡ false
    → comparison ≡ false
    → is_some date ≡ true
present_or true comparison none h k c = cc
present_or true comparison (some d) h k c = refl
present_or false comparison date h k c = h c

module _ (u : Unicode) (config : RetrievalConfig) where
  route_with-IsRouted :
      (request : RetrievalRequest) (r : Resolved) (t : Timed) (routing : RoutingResult)
      → IsTimed r.intent t
      → route_with u config request r t ≡ ok routing
      → IsRouted routing
  unfolding route_with
  route_with-IsRouted request r t routing timed e =
      let candidate_k = or_default request.top_k config.candidate_k in
      let final_k = or_default request.final_k config.final_k in
      let (a, e₁) =
        guard-bind-ok (is_validity r.intent && is_none t.temporal.resolved_from) _ _ _ e in
      let (b, e₂) =
        guard-bind-ok
          (is_comparison r.intent && not (t.temporal.has_temporal || t.temporal.spans_all_versions))
          _ _ _ e₁ in
      let (c, e₃) =
        guard-bind-ok (not (leb 1 final_k && leb final_k candidate_k && leb candidate_k 200)) _ _ _
          e₂ in
      let (d, e₄) = guard-bind-ok (is_empty (seed_channels config r.intent)) _ _ _ e₃ in
      let (one, within, limit) = limits_le final_k candidate_k c in
      rw (← ok_inj e₄) (record {
        positive = one;
        final = within;
        limit = limit;
        entries = smaller_le config.graph_entry_k candidate_k;
        seeded = d;
        seeds = seed_channels-IsSeed config r.intent;
        policy = refl;
        same_date = timed.same;
        time = timed.time;
        present =
            present_or (is_validity r.intent) (is_comparison r.intent) t.temporal.resolved_from
              timed.present a;
      })

  -- If a question is routed, then it keeps between 1 and 200 candidates, of which at least one and
  -- no more than the candidates are final and no more than the candidates enter the graph; it has a
  -- seed channel, and only the vector and the full-text channel seed it; its graph policy is that of
  -- its intent, or none without a graph; the date of its filters is the first date of its time; its
  -- time is an interval that is not empty, flagged as temporal, or has no date; and unless it
  -- compares versions it has a date.
  pub route-IsRouted :
      (classifier : Option (String → Result IntentType)) (today : Date) (request : RetrievalRequest)
      (goal : Option RelationGoal) (routing : RoutingResult)
      → route u config classifier today request goal ≡ ok routing
      → IsRouted routing
  unfolding route
  route-IsRouted classifier today request goal routing e =
      let (a, e₁) =
        guard-bind-ok (ltb config.query_max_length (text_length request.query)) _ _ _ e in
      let (temporal, p, e₂) = >>=-eq-ok (parse u request.query) _ e₁ in
      let (_, _, e₃) = >>=-eq-ok (check_parse_error (parse_failure temporal.parse_error)) _ e₂ in
      let (r, _, e₄) = >>=-eq-ok (resolve_intent u classifier request goal) _ e₃ in
      let (t, k, e₅) = >>=-eq-ok (resolve_temporal today request.filters temporal r.intent) _ e₄ in
      route_with-IsRouted request r t routing
        (resolve_time-IsTimed today request.filters temporal r.intent request.filters.query_date t
          refl (parse-IsTime u request.query temporal p) k)
        e₅
