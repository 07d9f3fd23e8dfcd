-- ===== src/Retrieval/TemporalParser.antt =====
-- src/retrieval/query/temporal_parser.py: the time that a question names. The parser has no text
-- client, as in retrieval_factory.py: whether the question has durations or other words of time,
-- which only decides if the client is asked, makes no difference then.
pub mod Dates
use legal_graphrag_platform.Base.{
  ℕ, String, Bool, true, false, ◌&&◌, Option, none, some, List, [], ◌∷◌, if◌then◌else◌, leb, eqb,
  is_some,
}
use legal_graphrag_platform.Base.Result.{Result, ok, err, ◌>>=◌, raise, value_error}
use legal_graphrag_platform.Base.Text.{has_substring, text_length}
use legal_graphrag_platform.Base.Date.{Date, make_date, days_in_month}
use legal_graphrag_platform.Base.Regex.{
  Unicode, CharClass, Regex, seqs, alts, words, optional, Match, search, int,
}
use legal_graphrag_platform.Retrieval.Models.{TemporalQuery}

-- `\s+`, `\s*` and `\d{m,n}`
abbrev pub some_space : Regex
some_space = Regex.unlimited CharClass.space 1

abbrev pub any_space : Regex
any_space = Regex.unlimited CharClass.space 0

abbrev pub digits_between : ℕ → ℕ → Regex
digits_between least most = Regex.repeat CharClass.digit least most

-- `CURRENT_VALIDITY_WORDING`
abbrev pub current_validity_wording : Regex
current_validity_wording = Regex.group (
    alts (Regex.literal "hiện hành") (
      Regex.literal "hiện nay"
      ∷ Regex.literal "đang có hiệu lực"
      ∷ Regex.seq (Regex.literal "còn hiệu lực")
          (optional (Regex.seq some_space (Regex.literal "không")))
      ∷ []))

-- `_VERSION_SPAN_WORDING`
abbrev amended : Regex
amended = words "sửa đổi" ("bãi bỏ" ∷ "thay thế" ∷ [])

abbrev pub version_span_wording : Regex
version_span_wording =
    Regex.alt (seqs (Regex.literal "trước và sau khi" ∷ some_space ∷ amended ∷ []))
      (seqs (words "trước" ("sau" ∷ []) ∷ Regex.literal " khi" ∷ some_space ∷ amended ∷ []))

-- `_year_pattern`
abbrev pub year_pattern : Regex
year_pattern =
    seqs (words "năm" ("trong năm" ∷ []) ∷ any_space ∷ Regex.group (digits_between 4 4) ∷ [])

-- `_month_year_pattern`
abbrev pub month_year_pattern : Regex
month_year_pattern = seqs (
    Regex.literal "tháng"
    ∷ any_space
    ∷ Regex.group (digits_between 1 2)
    ∷ any_space
    ∷ words "năm" ("/" ∷ [])
    ∷ any_space
    ∷ Regex.group (digits_between 4 4)
    ∷ [])

abbrev date_mark : Regex
date_mark = Regex.repeat (CharClass.one_of (47 ∷ 45 ∷ [])) 1 1

-- `_date_pattern`
abbrev pub date_pattern : Regex
date_pattern =
    Regex.alt
      (seqs (
        optional (Regex.seq (Regex.literal "ngày") any_space)
        ∷ Regex.group (digits_between 1 2)
        ∷ date_mark
        ∷ Regex.group (digits_between 1 2)
        ∷ date_mark
        ∷ Regex.group (digits_between 4 4)
        ∷ []))
      (seqs (
        Regex.literal "ngày"
        ∷ any_space
        ∷ Regex.group (digits_between 1 2)
        ∷ any_space
        ∷ Regex.literal "tháng"
        ∷ any_space
        ∷ Regex.group (digits_between 1 2)
        ∷ any_space
        ∷ Regex.literal "năm"
        ∷ any_space
        ∷ Regex.group (digits_between 4 4)
        ∷ []))

-- `_iso_pattern`
abbrev pub iso_pattern : Regex
iso_pattern = seqs (
    Regex.boundary
    ∷ Regex.group (digits_between 4 4)
    ∷ Regex.literal "-"
    ∷ Regex.group (digits_between 2 2)
    ∷ Regex.literal "-"
    ∷ Regex.group (digits_between 2 2)
    ∷ Regex.boundary
    ∷ [])

-- `TemporalQuery(has_temporal=False)`
abbrev pub no_temporal : TemporalQuery
no_temporal = record {
  has_temporal = false;
  expression = none;
  resolved_from = none;
  resolved_to = none;
  granularity = none;
  parse_error = none;
  requests_current_validity = false;
  spans_all_versions = false;
}

-- A resolved time
abbrev pub resolved : String → Date → Date → String → Bool → TemporalQuery
resolved expression from to granularity current = record {
  has_temporal = true;
  expression = some expression;
  resolved_from = some from;
  resolved_to = some to;
  granularity = some granularity;
  parse_error = none;
  requests_current_validity = current;
  spans_all_versions = false;
}

-- `try: … except ValueError: return None`
abbrev pub unless_value_error : Result Date → Option Date
unless_value_error (ok d) = some d
unless_value_error (err e) = none

module _ (u : Unicode) where
  abbrev pub is_iso : Match u → String → Bool
  is_iso m year = has_substring "-" m.expression && eqb (text_length year) 4

  abbrev pub day_of : Match u → List String → Result Date
  day_of m (a ∷ b ∷ c ∷ rest) =
      if is_iso m a
      then make_date (int u a) (int u b) (int u c)
      else make_date (int u c) (int u b) (int u a)
  day_of m groups = raise value_error "not enough values to unpack"

  -- `_parse_day`; each of the patterns has three groups.
  unfoldable pub parse_day : Match u → Option Date
  unfolding make_date int has_substring
  parse_day m = unless_value_error (day_of m m.groups)

  -- `explicit_match`
  abbrev pub explicit_match : String → Option (Match u)
  explicit_match query = elim (search u date_pattern query) [
    | some m ↦ some m
    | none ↦ search u iso_pattern query
  ]

  -- What follows the search for a year, without a text client
  unfoldable pub parse_span : String → TemporalQuery
  unfolding search
  parse_span query = elim (search u version_span_wording query) [
    | some m ↦ record no_temporal { expression = some m.expression; spans_all_versions = true }
    | none ↦ no_temporal
  ]

  abbrev pub year_query : Match u → List String → Bool → Result TemporalQuery
  year_query m (y ∷ groups) current = do
    from ← make_date (int u y) 1 1
    to ← make_date (int u y) 12 31
    ok (resolved m.expression from to "year" current)
  year_query m [] current = raise value_error "no such group"

  unfoldable pub parse_year : String → Bool → Result TemporalQuery
  unfolding search parse_span make_date int
  parse_year query current = elim (search u year_pattern query) [
    | some m ↦ year_query m m.groups current
    | none ↦ ok (parse_span query)
  ]

  unfoldable pub month_query : String → Match u → List String → Bool → Result TemporalQuery
  unfolding parse_year make_date int
  month_query query m (month ∷ year ∷ groups) current =
      if leb 1 (int u month) && leb (int u month) 12
      then (do
        from ← make_date (int u year) (int u month) 1
        to ← make_date (int u year) (int u month) (days_in_month (int u year) (int u month))
        ok (resolved m.expression from to "month" current))
      else parse_year query current
  month_query query m groups current = raise value_error "no such group"

  unfoldable pub parse_month : String → Bool → Result TemporalQuery
  unfolding search month_query parse_year
  parse_month query current = elim (search u month_year_pattern query) [
    | some m ↦ month_query query m m.groups current
    | none ↦ parse_year query current
  ]

  -- What follows an explicit day that is none
  unfoldable pub parse_current : String → Option (Match u) → Result TemporalQuery
  unfolding parse_month
  parse_current query none = parse_month query false
  parse_current query (some m) = ok (record no_temporal {
    has_temporal = true;
    expression = some m.expression;
    requests_current_validity = true;
  })

  abbrev pub day_query : Match u → Bool → Option TemporalQuery
  day_query m current = elim (parse_day m) [
    | some d ↦ some (resolved m.expression d d "day" current)
    | none ↦ none
  ]

  -- `parse`
  unfoldable pub parse : String → Result TemporalQuery
  unfolding search parse_day parse_current
  parse query =
      let current = search u current_validity_wording query in
      let day : Option TemporalQuery = elim (explicit_match query) [
        | some m ↦ day_query m (is_some current)
        | none ↦ none
      ] in
      elim day [ some t ↦ ok t | none ↦ parse_current query current ]
