-- ===== src/Retrieval/Runtime/Dates.antt =====
-- What a retrieval guarantees of the validity of its final units.
use legal_graphrag_platform.Retrieval.Runtime.Stages.{execute-Execution, choose-Choice}
use legal_graphrag_platform.Base.{
  All, All-append, All-filter, All-mono, All-of_members, All-take, All_at, Bool, List, Member,
  Option, String, false, if◌then◌else◌, inl, inr, length, ltb, none, some, take, true, ℕ, ◌≡◌, ◌⊎◌,
}
use legal_graphrag_platform.Base.Result.{guard-bind-ok, ok, ok_inj}
use legal_graphrag_platform.Retrieval.TemporalFilter.Versions.{filter_temporal-overlaps}
use legal_graphrag_platform.Base.Sort.{All-sort_by, sort_by}
use legal_graphrag_platform.Retrieval.TemporalFilter.{query_end, overlaps}
use legal_graphrag_platform.Base.Date.{Date}
use legal_graphrag_platform.Retrieval.Models.{RetrievedUnit, PlanReasonCode}
use legal_graphrag_platform.Retrieval.Models.Context.{RetrievalContext}
use legal_graphrag_platform.Retrieval.Decision.{RetrievalDecision, PreparedRetrievalRequest}
use legal_graphrag_platform.Retrieval.Fusion.{fused_le, FloatArithmetic}
use legal_graphrag_platform.Retrieval.Planning.Models.{BoundSemanticPlan}
use legal_graphrag_platform.Retrieval.Runtime.{pin_required_units}
use legal_graphrag_platform.Retrieval.Runtime.Execute.{
  rank_by, required_units_of, rank_final, Reranker, Runtime, gather, choose, execute,
}
use legal_graphrag_platform.Retrieval.Runtime.Metrics.{Latencies, Gathered, Chosen}

-- The unit has the validity of one of those given.
pub record HasDatesOf (units : List RetrievedUnit) (unit : RetrievedUnit) : Type 0 where
  pub original : RetrievedUnit
  pub given : Member original units
  pub same_from : unit.effective_from ≡ original.effective_from
  pub same_to : unit.effective_to ≡ original.effective_to

-- A reranker, where there is one, returns units that it was given, with their validity.
abbrev pub KeepsDates : Option Reranker → Type 0
KeepsDates none = Unit
KeepsDates (some rerank) =
    (query : String) (units : List RetrievedUnit) (n : ℕ) (out : List RetrievedUnit)
    → rerank query units n ≡ ok out
    → All (HasDatesOf units) out

HasDatesOf-overlaps :
    (units : List RetrievedUnit) (start end_date : Date)
    → All (λ u. overlaps start end_date u ≡ true) units
    → (u : RetrievedUnit) → HasDatesOf units u
    → overlaps start end_date u ≡ true
HasDatesOf-overlaps units start end_date h u d =
    let k = All_at (λ u. overlaps start end_date u ≡ true) units d.original h d.given in
    rw (d.same_from, d.same_to) k

rank_by-overlaps :
    (reranker : Option Reranker) (query : String) (units : List RetrievedUnit) (n : ℕ)
    (out : List RetrievedUnit) (start end_date : Date)
    → KeepsDates reranker
    → All (λ u. overlaps start end_date u ≡ true) units
    → rank_by reranker query units n ≡ ok out
    → All (λ u. overlaps start end_date u ≡ true) out
rank_by-overlaps none query units n out start end_date keeps h e = cc
rank_by-overlaps (some rerank) query units n out start end_date keeps h e =
    All-mono (HasDatesOf units) (λ u. overlaps start end_date u ≡ true)
      (HasDatesOf-overlaps units start end_date h) out (keeps query units n out e)

rank_final-overlaps :
    (floats : FloatArithmetic) (runtime : Runtime) (decision : RetrievalDecision) (query : String)
    (units out : List RetrievedUnit) (start end_date : Date)
    → KeepsDates runtime.reranker
    → All (λ u. overlaps start end_date u ≡ true) units
    → rank_final floats runtime decision query units ≡ ok out
    → All (λ u. overlaps start end_date u ≡ true) out
unfolding rank_final
rank_final-overlaps floats runtime decision query units out start end_date keeps h e =
    chosen decision.enable_reranker e
  where
    ranked : List RetrievedUnit
    ranked = take decision.final_k (sort_by (fused_le floats.order) units)

    chosen :
        (b : Bool)
        → (if b then rank_by runtime.reranker query units decision.final_k else ok ranked) ≡ ok out
        → All (λ u. overlaps start end_date u ≡ true) out
    chosen true k =
        rank_by-overlaps runtime.reranker query units decision.final_k out start end_date keeps h k
    chosen false k = rw (← ok_inj k) (
        All-take (λ u. overlaps start end_date u ≡ true) decision.final_k _
          (All-sort_by (fused_le floats.order) (λ u. overlaps start end_date u ≡ true) units h))

pin_required_units-All :
    (P : RetrievedUnit → Type 0) (ranked required : List RetrievedUnit) (final_k : ℕ)
    (units : List RetrievedUnit)
    → All P ranked
    → pin_required_units ranked required final_k ≡ ok units
    → All (λ u. Member u required ⊎ P u) units
unfolding pin_required_units
pin_required_units-All P ranked required final_k units h e =
    let (b, e₁) = guard-bind-ok (ltb final_k (length required)) _ _ _ e in
    rw (← ok_inj e₁) (
      All-take (λ u. Member u required ⊎ P u) final_k _
        (All-append (λ u. Member u required ⊎ P u) required _
          (All-of_members (λ u. Member u required ⊎ P u) required (λ u m. inl m))
          (All-mono P (λ u. Member u required ⊎ P u) (λ u p. inr p) _ (All-filter P _ ranked h))))

module _ (sha256_hex : String → String) (floats : FloatArithmetic) (runtime : Runtime)
    (prepared : PreparedRetrievalRequest) where
  -- A final unit is required, or it meets the interval.
  abbrev MeetsDate : Gathered → Date → RetrievedUnit → Type 0
  MeetsDate g start u =
      Member u (required_units_of prepared g)
      ⊎ (overlaps start (query_end prepared.routing.temporal start) u ≡ true)

  choose-MeetsDate :
      (g : Gathered) (c : Chosen) (start : Date)
      → KeepsDates runtime.reranker
      → prepared.routing.temporal.has_temporal ≡ true
      → prepared.routing.temporal.resolved_from ≡ some start
      → choose sha256_hex floats runtime prepared g ≡ ok c
      → All (MeetsDate g start) c.units
  choose-MeetsDate g c start keeps dated from e =
      let decision = prepared.routing.decision in
      let temporal = prepared.routing.temporal in
      let x = choose-Choice sha256_hex floats runtime prepared g c e in
      let meets : RetrievedUnit → Type 0 =
        λ u. overlaps start (query_end temporal start) u ≡ true in
      let valid =
        All-mono _ meets (λ u k. k.0) x.filtered
          (filter_temporal-overlaps floats.order x.fused temporal decision.preserve_versions start
            x.filtered dated from x.filters) in
      pin_required_units-All meets x.ranked (required_units_of prepared g) decision.final_k c.units
        (rank_final-overlaps floats runtime decision prepared.request.query x.filtered x.ranked
          start (query_end temporal start) keeps valid x.ranks)
        x.pins

module _ (sha256_hex : String → String) (floats : FloatArithmetic) (runtime : Runtime)
    (latencies : Latencies) (prepared : PreparedRetrievalRequest)
    (bound_plan : Option BoundSemanticPlan) (reason : Option PlanReasonCode)
    (context : RetrievalContext) where
  -- If a retrieval for a question with a date returns a context, and its reranker, where there is
  -- one, returns units that it was given, then each unit of the context is required by an anchor or
  -- by the relation goal, or its validity interval meets the question's interval.
  pub execute-MeetsDate :
      (start : Date)
      → KeepsDates runtime.reranker
      → prepared.routing.temporal.has_temporal ≡ true
      → prepared.routing.temporal.resolved_from ≡ some start
      → execute sha256_hex floats runtime latencies prepared bound_plan reason ≡ ok context
      → (g : Gathered) × (gather sha256_hex floats runtime prepared bound_plan ≡ ok g)
        × All
            (λ u.
              Member u (required_units_of prepared g)
              ⊎ (overlaps start (query_end prepared.routing.temporal start) u ≡ true))
            context.retrieved_units
  execute-MeetsDate start keeps dated from e =
      let x =
        execute-Execution sha256_hex floats runtime prepared bound_plan latencies reason context
          e in
      (
        x.gathered,
        x.gathers,
        rw x.units (
            choose-MeetsDate sha256_hex floats runtime prepared x.gathered x.chosen start keeps
              dated from x.chooses),
      )
