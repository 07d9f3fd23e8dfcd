-- ===== src/Retrieval/TemporalFilter/Versions.antt =====
-- What the temporal filter keeps of the units and of their version families.
use mathlib.Core.Path.{subst}
use legal_graphrag_platform.Base.{
  String, ◌≡◌, refl, inl, inr, Bool, true, false, Option, none, some, List, [], ◌∷◌, ltb, All,
  Member, ◌==◌, Bool-cases, filter, All-append, All-map, All-filter, filter-All, All-of_members,
}
use legal_graphrag_platform.Base.Result.{ok, ok_inj}
use legal_graphrag_platform.Base.Append.{All-both}
use legal_graphrag_platform.Base.Sort.{All-sort_by}
use legal_graphrag_platform.Base.Dict.{lookup, All-insert, All-found}
use legal_graphrag_platform.Base.Date.{Date}
use legal_graphrag_platform.Retrieval.Models.{RetrievedUnit, TemporalQuery}
use legal_graphrag_platform.Retrieval.TemporalFilter.{
  FloatOrder, stable_rank_le, effective_ordinal, overlaps, Resolution, later_of, resolve_step,
  resolve_in, resolve_all, nothing_resolved, resolve_explicit_version_families, query_end,
  filter_temporal, arranged,
}

module _ (P : RetrievedUnit → Type 0) where
  -- What the units of a resolution have.
  record AllOf (s : Resolution) : Type 0 where
    pub entries : All (λ e. P e.1) s.resolved
    pub others : All P s.ungrouped

  later_of-has :
      (o : Option RetrievedUnit) (unit : RetrievedUnit)
      → ((v : RetrievedUnit) → o ≡ some v → P v)
      → P unit
      → P (later_of o unit)
  later_of-has none unit h p = p
  later_of-has (some current) unit h p =
      elim (Bool-cases (ltb (effective_ordinal current) (effective_ordinal unit))) [
        | inl e ↦ rw e p
        | inr e ↦ rw e (h current refl)
      ]

  resolve_in-AllOf :
      (s : Resolution) (unit : RetrievedUnit) (family : Option String)
      → P unit
      → AllOf s
      → AllOf (resolve_in s unit family)
  unfolding resolve_in
  resolve_in-AllOf s unit none p h = record {
    entries = h.entries;
    others = All-append P s.ungrouped (unit ∷ []) h.others (p, tt);
  }
  resolve_in-AllOf s unit (some family) p h = elim (Bool-cases (family == "")) [
    | inl t ↦ rw t (record {
      entries = h.entries;
      others = All-append P s.ungrouped (unit ∷ []) h.others (p, tt);
    })
    | inr t ↦ rw t (record {
      entries =
          All-insert P family _ s.resolved
            (later_of-has (lookup family s.resolved) unit
              (λ v found. All-found P family s.resolved v h.entries found) p)
            h.entries;
      others = h.others;
    })
  ]

  resolve_all-AllOf :
      (s : Resolution) (units : List RetrievedUnit)
      → All P units
      → AllOf s
      → AllOf (resolve_all s units)
  unfolding resolve_all resolve_step
  resolve_all-AllOf s [] ps h = h
  resolve_all-AllOf s (unit ∷ units) ps h =
      resolve_all-AllOf (resolve_step s unit) units ps.1
        (resolve_in-AllOf s unit unit.version_family_id ps.0 h)

  All-arranged :
      (order : FloatOrder) (preserve_versions : Bool) (units : List RetrievedUnit)
      → All P units
      → All P (arranged order preserve_versions units)
  unfolding arranged resolve_explicit_version_families
  All-arranged order true units h = All-sort_by (stable_rank_le order) P units h
  All-arranged order false units h =
      let all_of =
        resolve_all-AllOf nothing_resolved units h (record { entries = tt; others = tt }) in
      All-sort_by (stable_rank_le order) P _
        (All-append P _ _ all_of.others (All-map P (λ e. e.1) _ all_of.entries))

-- If a question has a date, then every unit that the filter returns is one of the units given, its
-- half-open validity interval meets the question's interval, and its start is known.
pub filter_temporal-overlaps :
    (order : FloatOrder) (units : List RetrievedUnit) (temporal : TemporalQuery)
    (preserve_versions : Bool) (start : Date) (kept : List RetrievedUnit)
    → temporal.has_temporal ≡ true
    → temporal.resolved_from ≡ some start
    → filter_temporal order units temporal preserve_versions ≡ ok kept
    → All (λ u. (overlaps start (query_end temporal start) u ≡ true) × Member u units) kept
unfolding filter_temporal
filter_temporal-overlaps order units temporal preserve_versions start kept dated from returned =
    let test = overlaps start (query_end temporal start) in
    subst (All (λ u. (test u ≡ true) × Member u units)) (ok_inj (rw from at (rw dated at returned)))
      (All-arranged (λ u. (test u ≡ true) × Member u units) order preserve_versions
        (filter test units)
        (All-both (λ u. test u ≡ true) (λ u. Member u units) (filter test units)
          (filter-All test units)
          (All-filter (λ u. Member u units) test units
            (All-of_members (λ u. Member u units) units (λ u m. m)))))
