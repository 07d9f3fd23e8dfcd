-- ===== src/Retrieval/Router/Time.antt =====
-- src/retrieval/routing/router.py: the time of a question, by its request, its wording or the clock.
use legal_graphrag_platform.Base.{
  Bool, true, false, not, ◌||◌, Option, none, some, if◌then◌else◌, eqb,
}
use legal_graphrag_platform.Base.Result.{Result, ok, fail_if, ◌>>◌, temporal_routing_error}
use legal_graphrag_platform.Base.Date.{Date}
use legal_graphrag_platform.Retrieval.Models.{
  IntentType, TemporalSource, RetrievalFilters, TemporalQuery,
}
use legal_graphrag_platform.Retrieval.Runtime.{is_validity}

-- The time with its source and the filters
pub record Timed : Type 0 where
  pub temporal : TemporalQuery
  pub source : TemporalSource
  pub filters : RetrievalFilters

abbrev pub is_comparison : IntentType → Bool
is_comparison IntentType.comparison = true
is_comparison _ = false

-- A time on one day, with the filters for it
abbrev pub on_day : TemporalQuery → Date → TemporalQuery
on_day temporal d = record temporal {
  has_temporal = true;
  resolved_from = some d;
  resolved_to = some d;
  granularity = some "day";
}

abbrev pub dated : RetrievalFilters → Date → RetrievalFilters
dated filters d = record filters { query_date = some d }

-- `_resolve_temporal` without a date of the request
abbrev pub resolve_query_time :
    Date → RetrievalFilters → TemporalQuery → IntentType → Option Date → Timed
resolve_query_time today filters temporal intent (some d) = record {
  temporal = temporal;
  source = TemporalSource.query_expression;
  filters = dated filters d;
}
resolve_query_time today filters temporal intent none =
    if temporal.requests_current_validity
    then record {
      temporal = on_day temporal today;
      source = TemporalSource.injected_current_date;
      filters = dated filters today;
    }
    else if not (is_validity intent || is_comparison intent)
    then record {
      temporal = on_day temporal today;
      source = TemporalSource.injected_default_current_date;
      filters = dated filters today;
    }
    else record { temporal = temporal; source = TemporalSource.none_source; filters = filters }

abbrev pub differs : Date → Option Date → Bool
differs d none = false
differs d (some e) = not (eqb d e)

abbrev pub resolve_time :
    Date → RetrievalFilters → TemporalQuery → IntentType → Option Date → Result Timed
resolve_time today filters temporal intent none =
    ok (resolve_query_time today filters temporal intent temporal.resolved_from)
resolve_time today filters temporal intent (some d) = do
  fail_if (differs d temporal.resolved_from) temporal_routing_error
      "Request query_date conflicts with the temporal expression in query"
  ok (record { temporal = on_day temporal d; source = TemporalSource.request; filters = filters })

-- `_resolve_temporal`
unfoldable pub resolve_temporal :
    Date → RetrievalFilters → TemporalQuery → IntentType → Result Timed
resolve_temporal today filters temporal intent =
    resolve_time today filters temporal intent filters.query_date
