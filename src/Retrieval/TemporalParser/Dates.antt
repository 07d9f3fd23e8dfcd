-- ===== src/Retrieval/TemporalParser/Dates.antt =====
-- The times that temporal_parser.py resolves: no date, or an interval that is not empty.
use legal_graphrag_platform.Base.{
  ℕ, ◌≤◌, arith, ◌||◌, ltb, String, ◌≡◌, refl, Bool, true, false, Option, none, some, List, [], ◌∷◌,
  ◌&&◌, leb, is_some, if◌then◌else◌,
}
use legal_graphrag_platform.Base.Result.{guard-bind-ok, ◌>>=◌, ok, >>=-eq-ok, ok_inj}
use legal_graphrag_platform.Base.Date.{ordinal_of, Date, make_date, days_in_month}
use legal_graphrag_platform.Base.Regex.{Unicode, Match, search, int}
use legal_graphrag_platform.Retrieval.Models.{TemporalQuery}
use legal_graphrag_platform.Retrieval.TemporalParser.{
  no_temporal, resolved, parse_day, explicit_match, parse_span, year_query, parse_year, month_query,
  parse_month, parse_current, day_query, parse, year_pattern, month_year_pattern,
  current_validity_wording, version_span_wording,
}

-- A time: none, or an interval that is not empty.
pub data IsTime (t : TemporalQuery) : Type 0 where
  open_time : t.resolved_from ≡ none → t.resolved_to ≡ none → IsTime t
  interval :
      (from to : Date)
      → from ≤ to
      → t.resolved_from ≡ some from
      → t.resolved_to ≡ some to
      → t.has_temporal ≡ true
      → IsTime t

resolved-IsTime :
    (expression : String) (from to : Date) (granularity : String) (current : Bool)
    → from ≤ to
    → IsTime (resolved expression from to granularity current)
resolved-IsTime expression from to granularity current h = IsTime.interval from to h refl refl refl

pub flagged-IsTime :
    (t : TemporalQuery) (d : Date) → IsTime t → t.resolved_from ≡ some d → t.has_temporal ≡ true
flagged-IsTime t d (IsTime.open_time from to) h = cc
flagged-IsTime t d (IsTime.interval from to le e k flagged) h = flagged

make_date-ordinal :
    (year month day : ℕ) (d : Date)
    → make_date year month day ≡ ok d
    → ordinal_of year month day ≡ d
unfolding make_date
make_date-ordinal year month day d e =
    let (a, e₁) = guard-bind-ok (ltb year 1 || ltb 9999 year) _ _ _ e in
    let (b, e₂) = guard-bind-ok (ltb month 1 || ltb 12 month) _ _ _ e₁ in
    let (c, e₃) = guard-bind-ok (ltb day 1 || ltb (days_in_month year month) day) _ _ _ e₂ in
    ok_inj e₃

year_le : (year : ℕ) → ordinal_of year 1 1 ≤ ordinal_of year 12 31
unfolding ordinal_of
year_le year = omega arith

month_le : (year month day : ℕ) → 1 ≤ day → ordinal_of year month 1 ≤ ordinal_of year month day
unfolding ordinal_of
month_le year month day h = omega arith

days_in_month_positive : (year month : ℕ) → 1 ≤ days_in_month year month
days_in_month_positive year month = ground arith

module _ (u : Unicode) where
  parse_span-IsTime : (query : String) → IsTime (parse_span u query)
  unfolding parse_span
  parse_span-IsTime query = by_match (search u version_span_wording query)
    where
      by_match :
          (o : Option (Match u))
          → IsTime (elim o [
            | some m ↦ record no_temporal {
              expression = some m.expression;
              spans_all_versions = true;
            }
            | none ↦ no_temporal
          ])
      by_match none = IsTime.open_time refl refl
      by_match (some m) = IsTime.open_time refl refl

  year_query-IsTime :
      (m : Match u) (groups : List String) (current : Bool) (t : TemporalQuery)
      → year_query u m groups current ≡ ok t
      → IsTime t
  year_query-IsTime m [] current t e = cc
  year_query-IsTime m (y ∷ groups) current t e =
      let (from, k₁, e₁) = >>=-eq-ok (make_date (int u y) 1 1) _ e in
      let (to, k₂, e₂) = >>=-eq-ok (make_date (int u y) 12 31) _ e₁ in
      rw (← ok_inj e₂) (
        resolved-IsTime m.expression from to "year" current (
          rw (← make_date-ordinal (int u y) 1 1 from k₁, ← make_date-ordinal (int u y) 12 31 to k₂)
            (year_le (int u y))))

  parse_year-IsTime :
      (query : String) (current : Bool) (t : TemporalQuery)
      → parse_year u query current ≡ ok t
      → IsTime t
  unfolding parse_year
  parse_year-IsTime query current t = by_match (search u year_pattern query)
    where
      by_match :
          (o : Option (Match u))
          → elim o [ some m ↦ year_query u m m.groups current | none ↦ ok (parse_span u query) ]
            ≡ ok t
          → IsTime t
      by_match none e = rw (← ok_inj e) (parse_span-IsTime query)
      by_match (some m) e = year_query-IsTime m m.groups current t e

  month_query-IsTime :
      (query : String) (m : Match u) (groups : List String) (current : Bool) (t : TemporalQuery)
      → month_query u query m groups current ≡ ok t
      → IsTime t
  unfolding month_query
  month_query-IsTime query m [] current t e = cc
  month_query-IsTime query m (month ∷ []) current t e = cc
  month_query-IsTime query m (month ∷ year ∷ groups) current t e =
      by_test (leb 1 (int u month) && leb (int u month) 12) e
    where
      by_test :
          (b : Bool)
          → (if b
              then (do
                from ← make_date (int u year) (int u month) 1
                to ← make_date (int u year) (int u month) (days_in_month (int u year) (int u month))
                ok (resolved m.expression from to "month" current))
              else parse_year u query current)
            ≡ ok t
          → IsTime t
      by_test false k = parse_year-IsTime query current t k
      by_test true k =
          let y = int u year in
          let m' = int u month in
          let (from, k₁, e₁) = >>=-eq-ok (make_date y m' 1) _ k in
          let (to, k₂, e₂) = >>=-eq-ok (make_date y m' (days_in_month y m')) _ e₁ in
          rw (← ok_inj e₂) (
            resolved-IsTime m.expression from to "month" current (
              rw
                (
                  ← make_date-ordinal y m' 1 from k₁,
                  ← make_date-ordinal y m' (days_in_month y m') to k₂,
                )
                (month_le y m' (days_in_month y m') (days_in_month_positive y m'))))

  parse_month-IsTime :
      (query : String) (current : Bool) (t : TemporalQuery)
      → parse_month u query current ≡ ok t
      → IsTime t
  unfolding parse_month
  parse_month-IsTime query current t = by_match (search u month_year_pattern query)
    where
      by_match :
          (o : Option (Match u))
          → elim o [
            | some m ↦ month_query u query m m.groups current
            | none ↦ parse_year u query current
          ]
            ≡ ok t
          → IsTime t
      by_match none e = parse_year-IsTime query current t e
      by_match (some m) e = month_query-IsTime query m m.groups current t e

  parse_current-IsTime :
      (query : String) (current : Option (Match u)) (t : TemporalQuery)
      → parse_current u query current ≡ ok t
      → IsTime t
  unfolding parse_current
  parse_current-IsTime query none t e = parse_month-IsTime query false t e
  parse_current-IsTime query (some m) t e = rw (← ok_inj e) (IsTime.open_time refl refl)

  day_query-IsTime :
      (m : Match u) (current : Bool) (t : TemporalQuery) → day_query u m current ≡ some t → IsTime t
  day_query-IsTime m current t = by_day (parse_day u m)
    where
      by_day :
          (o : Option Date)
          → elim o [ some d ↦ some (resolved m.expression d d "day" current) | none ↦ none ]
            ≡ some t
          → IsTime t
      by_day none e = cc
      by_day (some d) e =
          let same : resolved m.expression d d "day" current ≡ t = cc in
          rw (← same) (resolved-IsTime m.expression d d "day" current (omega arith))

  pub parse-IsTime : (query : String) (t : TemporalQuery) → parse u query ≡ ok t → IsTime t
  unfolding parse
  parse-IsTime query t = by_match (explicit_match u query)
    where
      current : Option (Match u)
      current = search u current_validity_wording query

      by_day :
          (o : Option TemporalQuery)
          → ((d : TemporalQuery) → o ≡ some d → IsTime d)
          → elim o [ some d ↦ ok d | none ↦ parse_current u query current ] ≡ ok t
          → IsTime t
      by_day none h e = parse_current-IsTime query current t e
      by_day (some d) h e = rw (← ok_inj e) (h d refl)

      by_match :
          (o : Option (Match u))
          → elim (elim o as (λ _. Option TemporalQuery) [
            | some m ↦ day_query u m (is_some current)
            | none ↦ none
          ]) [ some d ↦ ok d | none ↦ parse_current u query current ]
            ≡ ok t
          → IsTime t
      by_match none e = parse_current-IsTime query current t e
      by_match (some m) e =
          by_day (day_query u m (is_some current)) (day_query-IsTime m (is_some current)) e
