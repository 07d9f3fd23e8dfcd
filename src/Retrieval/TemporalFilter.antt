-- ===== src/Retrieval/TemporalFilter.antt =====
-- src/retrieval/context/temporal_filter.py: the units that are valid in the question's interval,
-- and of each version family the version that came into effect last.
pub mod Single
pub mod Versions
pub mod Latest
use mathlib.Core.List.{◌++◌ as ◌⧺◌}
use legal_graphrag_platform.Base.{
  String, ℕ, Bool, true, false, not, ◌&&◌, Option, none, some, List, [], ◌∷◌, map, if◌then◌else◌,
  leb, ltb, ◌==◌, filter,
}
use legal_graphrag_platform.Base.Result.{Result, ok, of_option, ◌>>=◌, value_error}
use legal_graphrag_platform.Base.Text.{text_leb}
use legal_graphrag_platform.Base.Date.{Date}
use legal_graphrag_platform.Base.Float.{Float, float_zero}
use legal_graphrag_platform.Base.Dict.{Dict, lookup, insert}
use legal_graphrag_platform.Base.Sort.{sort_by}
use legal_graphrag_platform.Retrieval.Models.{RetrievedUnit, TemporalQuery}

-- Python's `<` and `==` on floats.
pub record FloatOrder : Type 0 where
  pub less : Float → Float → Bool
  pub same : Float → Float → Bool

-- `a or b`, for a score that may be absent; 0.0 counts as absent.
unfoldable pub or_score : FloatOrder → Option Float → Float → Float
or_score order none other = other
or_score order (some x) other = if order.same x float_zero then other else x

unfoldable pub stable_score : FloatOrder → RetrievedUnit → Float
unfolding or_score
stable_score order unit =
    or_score order unit.final_score (or_score order unit.graph_score float_zero)

-- `_stable_rank_key(a) <= _stable_rank_key(b)`: the higher score first, then the identifier.
unfoldable pub stable_rank_le : FloatOrder → RetrievedUnit → RetrievedUnit → Bool
unfolding stable_score text_leb
stable_rank_le order a b =
    if order.same (stable_score order a) (stable_score order b)
    then text_leb a.id b.id
    else order.less (stable_score order b) (stable_score order a)

-- `_effective_ordinal`
abbrev pub effective_ordinal : RetrievedUnit → ℕ
effective_ordinal unit = elim unit.effective_from [ none ↦ 0 | some d ↦ d ]

-- The unit's half-open interval meets the interval from `start` to `end`, both included.
abbrev pub overlaps : Date → Date → RetrievedUnit → Bool
overlaps start end unit =
    elim unit.effective_from [ none ↦ false | some d ↦ leb d end ]
    && elim unit.effective_to [ none ↦ true | some d ↦ ltb start d ]

-- `resolved` and `ungrouped`
pub record Resolution : Type 0 where
  pub resolved : Dict RetrievedUnit
  pub ungrouped : List RetrievedUnit

-- The unit that a family has after a unit of it was seen.
abbrev pub later_of : Option RetrievedUnit → RetrievedUnit → RetrievedUnit
later_of none unit = unit
later_of (some current) unit =
    if ltb (effective_ordinal current) (effective_ordinal unit) then unit else current

-- The body of the loop of `_resolve_explicit_version_families`; the entry of a family that keeps
-- its unit is written again.
unfoldable pub resolve_in : Resolution → RetrievedUnit → Option String → Resolution
unfolding lookup insert
resolve_in s unit none = record s { ungrouped = s.ungrouped ⧺ unit ∷ [] }
resolve_in s unit (some family) =
    if family == ""
    then record s { ungrouped = s.ungrouped ⧺ unit ∷ [] }
    else record s { resolved = insert family (later_of (lookup family s.resolved) unit) s.resolved }

unfoldable pub resolve_step : Resolution → RetrievedUnit → Resolution
unfolding resolve_in
resolve_step s unit = resolve_in s unit unit.version_family_id

unfoldable pub resolve_all : Resolution → List RetrievedUnit → Resolution
unfolding resolve_step
resolve_all s [] = s
resolve_all s (unit ∷ units) = resolve_all (resolve_step s unit) units

abbrev pub nothing_resolved : Resolution
nothing_resolved = record { resolved = []; ungrouped = [] }

-- `_resolve_explicit_version_families`
unfoldable pub resolve_explicit_version_families :
    FloatOrder → List RetrievedUnit → List RetrievedUnit
unfolding resolve_all stable_rank_le sort_by
resolve_explicit_version_families order units =
    let s = resolve_all nothing_resolved units in
    sort_by (stable_rank_le order) (s.ungrouped ⧺ map (λ e. e.1) s.resolved)

unfoldable pub arranged : FloatOrder → Bool → List RetrievedUnit → List RetrievedUnit
unfolding resolve_explicit_version_families stable_rank_le sort_by
arranged order preserve_versions units =
    if preserve_versions
    then sort_by (stable_rank_le order) units
    else resolve_explicit_version_families order units

-- `temporal.resolved_to or temporal.resolved_from`
abbrev pub query_end : TemporalQuery → Date → Date
query_end temporal start = elim temporal.resolved_to [ none ↦ start | some d ↦ d ]

-- `TemporalFilter.filter`
unfoldable pub filter_temporal :
    FloatOrder → List RetrievedUnit → TemporalQuery → Bool → Result (List RetrievedUnit)
unfolding arranged
filter_temporal order units temporal preserve_versions =
    if not temporal.has_temporal then ok (arranged order preserve_versions units) else (do
      start ← of_option temporal.resolved_from value_error "Temporal query requires resolved_from"
      ok (
          arranged order preserve_versions
            (filter (overlaps start (query_end temporal start)) units)))
