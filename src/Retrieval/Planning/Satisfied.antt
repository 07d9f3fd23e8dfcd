-- ===== src/Retrieval/Planning/Satisfied.antt =====
-- A satisfied execution of a plan has the one exact path, valid at the date.
use legal_graphrag_platform.Base.{
  All, All-filter, All-mono, All_at, Bool, List, Option, String, [], contains, false, filter,
  filter-All, if◌then◌else◌, inl, inr, is_empty, length, ltb, refl, sym, true, ℕ, ◌&&◌, ◌+◌, ◌∙◌,
  ◌∷◌, ◌≡◌, ◌⊎◌,
}
use legal_graphrag_platform.Base.Result.{>>=-eq-ok, guard-bind-ok, ok, ok_inj, traverse, ◌>>=◌}
use mathlib.Core.Bool.{true≢false}
use legal_graphrag_platform.Retrieval.Planning.{
  failed_result, PlannedPathLookup, validate_execution_state, validate_all, citable_unit_ids_of,
  failure_message, failed_execution,
}
use legal_graphrag_platform.Retrieval.Planning.Models.{
  BoundSemanticPlan, PlannedPathExecution, target_label, semantic_liftable_targets,
}
use legal_graphrag_platform.Retrieval.Planning.Executor.{
  satisfied_result, build_plan_fingerprint, satisfied_execution, execute_on, execute_mapped,
  execute,
}
use legal_graphrag_platform.Base.Append.{All-both}
use legal_graphrag_platform.Base.Sort.{All-sort_by}
use legal_graphrag_platform.Base.Float.{Float}
use legal_graphrag_platform.Base.Date.{Date}
use legal_graphrag_platform.Retrieval.Models.{
  GraphPath, RetrievalFilters, PlanExecutionStatus, PlanReasonCode, PlanExecutionResult,
}
use legal_graphrag_platform.Retrieval.PathIdentity.{build_topology_path_fingerprint}
use legal_graphrag_platform.Retrieval.GraphPaths.{
  is_graph_path_temporally_valid, ranked_paths, deduplicate_topology_paths, path_rank_le,
}
use legal_graphrag_platform.Retrieval.GraphPaths.Merge.{valid-SamePath}
use legal_graphrag_platform.Retrieval.GraphPaths.Groups.{
  IsMergeOf, deduplicate_topology_paths-keeps,
}
use legal_graphrag_platform.Retrieval.PathRows.{PathRow, map_graph_path}
use legal_graphrag_platform.Retrieval.Planning.Exact.{
  IsExactPath, validate_all-IsExactPath, IsExactPath-SamePath,
}

-- What the caller may rely on.
pub record IsSatisfied (sha256_hex : String → String) (plan : BoundSemanticPlan)
    (query_date : Option Date) (execution : PlannedPathExecution) : Type 0 where
  pub path : GraphPath
  pub only : execution.paths ≡ path ∷ []
  pub exact : IsExactPath plan path
  pub valid : is_graph_path_temporally_valid path query_date ≡ true
  pub fingerprint : String
  pub identified : build_topology_path_fingerprint sha256_hex path ≡ ok fingerprint
  pub reported : execution.result.satisfied_path_fingerprints ≡ fingerprint ∷ []
  pub citable :
      contains semantic_liftable_targets (target_label plan.unlinked.steps) ≡ true
      → is_empty execution.citable_unit_ids ≡ false

-- An execution that failed has no path.
abbrev pub HasFailed : PlannedPathExecution → Type 0
HasFailed execution =
    (execution.result.execution_status ≡ PlanExecutionStatus.failed) × (execution.paths ≡ [])

validate_execution_state-eq-ok :
    (r : PlanExecutionResult) {out : PlanExecutionResult}
    → validate_execution_state r ≡ ok out
    → r ≡ out
validate_execution_state-eq-ok r e = let (a, e₁) = guard-bind-ok _ _ _ (ok r) e in ok_inj e₁

failed_execution-HasFailed :
    (plan : BoundSemanticPlan) (fp : String) (reason : PlanReasonCode) (r : PlannedPathExecution)
    → failed_execution plan fp reason ≡ ok r
    → HasFailed r
unfolding failed_execution
failed_execution-HasFailed plan fp reason r e =
    let (message, e₁, e₂) = >>=-eq-ok (failure_message reason) _ e in
    let (result, e₃, e₄) =
      >>=-eq-ok (validate_execution_state (failed_result plan fp reason message)) _ e₂ in
    let same : failed_result plan fp reason message ≡ result =
      validate_execution_state-eq-ok (failed_result plan fp reason message) e₃ in
    rw (← ok_inj e₄, ← same) (refl, refl)

module _ (sha256_hex : String → String) (float_repr : Float → String) (plan : BoundSemanticPlan)
    (query_date : Option Date) where
  -- A path that the executor may return.
  abbrev IsCandidate : GraphPath → Type 0
  IsCandidate p = IsExactPath plan p × (is_graph_path_temporally_valid p query_date ≡ true)

  satisfied_execution-IsSatisfied :
      (fp : String) (path : GraphPath) (r : PlannedPathExecution)
      → IsCandidate path
      → (contains semantic_liftable_targets (target_label plan.unlinked.steps) ≡ true
          → is_empty (citable_unit_ids_of path) ≡ false)
      → satisfied_execution sha256_hex float_repr plan fp path ≡ ok r
      → IsSatisfied sha256_hex plan query_date r
  unfolding satisfied_execution
  satisfied_execution-IsSatisfied fp path r c citable e =
      let (path_fp, e₁, e₂) = >>=-eq-ok (build_topology_path_fingerprint sha256_hex path) _ e in
      let with_result : PlanExecutionResult → PlannedPathExecution = λ result. record {
        result = result;
        paths = path ∷ [];
        path_fingerprints = path_fp ∷ [];
        citable_unit_ids = citable_unit_ids_of path;
      } in
      let (result, e₃, e₄) =
        >>=-eq-ok (validate_execution_state (satisfied_result plan fp path_fp))
          (λ result. ok (with_result result)) e₂ in
      let same : satisfied_result plan fp path_fp ≡ result =
        validate_execution_state-eq-ok (satisfied_result plan fp path_fp) e₃ in
      let done : with_result result ≡ r = ok_inj e₄ in
      rw (← done, ← same)
        (record {
          path = path;
          only = refl;
          exact = c.0;
          valid = c.1;
          fingerprint = path_fp;
          identified = e₁;
          reported = refl;
          citable = citable;
        })

  execute_on-outcome :
      (fp : String) (paths : List GraphPath) (r : PlannedPathExecution)
      → All IsCandidate paths
      → execute_on sha256_hex float_repr plan fp paths ≡ ok r
      → IsSatisfied sha256_hex plan query_date r ⊎ HasFailed r
  unfolding execute_on
  execute_on-outcome fp [] r c e = cc
  execute_on-outcome fp (path ∷ other ∷ paths) r c e =
      inr (failed_execution-HasFailed plan fp PlanReasonCode.ambiguous_path r e)
  execute_on-outcome fp (path ∷ []) r c e =
      chosen (contains semantic_liftable_targets (target_label plan.unlinked.steps))
        (is_empty (citable_unit_ids_of path)) refl refl e
    where
      chosen :
          (l n : Bool)
          → contains semantic_liftable_targets (target_label plan.unlinked.steps) ≡ l
          → is_empty (citable_unit_ids_of path) ≡ n
          → (if l && n
              then failed_execution plan fp PlanReasonCode.evidence_unliftable
              else satisfied_execution sha256_hex float_repr plan fp path)
            ≡ ok r
          → IsSatisfied sha256_hex plan query_date r ⊎ HasFailed r
      chosen true true hl hn k =
          inr (failed_execution-HasFailed plan fp PlanReasonCode.evidence_unliftable r k)
      chosen true false hl hn k = inl (satisfied_execution-IsSatisfied fp path r c.0 (λ _. hn) k)
      chosen false n hl hn k =
          inl (
            satisfied_execution-IsSatisfied fp path r c.0 (λ t. absurd (true≢false (sym t ∙ hl))) k)

  ranked_paths-IsCandidate :
      (paths out : List GraphPath)
      → All IsCandidate paths
      → ranked_paths sha256_hex paths ≡ ok out
      → All IsCandidate out
  unfolding ranked_paths
  ranked_paths-IsCandidate paths out c e =
      let (merged, e₁, e₂) = >>=-eq-ok (deduplicate_topology_paths sha256_hex paths) _ e in
      rw (← ok_inj e₂) (
        All-sort_by path_rank_le IsCandidate merged (
          All-mono (IsMergeOf paths) IsCandidate
            (λ q m.
              let k = All_at IsCandidate paths m.path c m.given in
              (
                IsExactPath-SamePath plan m.path q m.same k.0,
                valid-SamePath m.path q query_date m.same ∙ k.1,
              ))
            merged (deduplicate_topology_paths-keeps sha256_hex paths merged e₁).0))

  execute_mapped-outcome :
      (fp : String) (mapped : List GraphPath) (r : PlannedPathExecution)
      → execute_mapped sha256_hex float_repr plan fp query_date mapped ≡ ok r
      → IsSatisfied sha256_hex plan query_date r ⊎ HasFailed r
  unfolding execute_mapped
  execute_mapped-outcome fp mapped r e =
      let (u, e₁, e₂) = >>=-eq-ok (validate_all plan mapped) _ e in
      let exact = validate_all-IsExactPath plan mapped e₁ in
      let test = λ (p : GraphPath). is_graph_path_temporally_valid p query_date in
      let temporal = filter test mapped in
      let candidates =
        All-both (IsExactPath plan) (λ p. test p ≡ true) temporal
          (All-filter (IsExactPath plan) test mapped exact) (filter-All test mapped) in
      chosen temporal candidates (is_empty temporal) e₂
    where
      chosen :
          (temporal : List GraphPath)
          → All IsCandidate temporal
          → (b : Bool)
          → (if b
              then failed_execution plan fp PlanReasonCode.temporal_rejected
              else (ranked_paths sha256_hex temporal >>= λ paths.
                  execute_on sha256_hex float_repr plan fp paths))
            ≡ ok r
          → IsSatisfied sha256_hex plan query_date r ⊎ HasFailed r
      chosen temporal c true k =
          inr (failed_execution-HasFailed plan fp PlanReasonCode.temporal_rejected r k)
      chosen temporal c false k =
          let (paths, k₁, k₂) = >>=-eq-ok (ranked_paths sha256_hex temporal) _ k in
          execute_on-outcome fp paths r (ranked_paths-IsCandidate temporal paths c k₁) k₂

-- If the executor returns, then either its result is a failure with no path, or it has one path,
-- which runs from the bound anchor to the bound target by the steps of the plan in their order and
-- direction with no node twice, is valid at the query date, is the path that the result names by
-- its fingerprint, and has a citable unit where the plan's target needs one.
pub execute-IsSatisfied :
    (sha256_hex : String → String) (float_repr : Float → String)
    (lookup_exact_paths : PlannedPathLookup) (max_paths : ℕ) (plan : BoundSemanticPlan)
    (filters : RetrievalFilters) (r : PlannedPathExecution)
    → execute sha256_hex float_repr lookup_exact_paths max_paths plan filters ≡ ok r
    → IsSatisfied sha256_hex plan filters.query_date r ⊎ HasFailed r
unfolding execute
execute-IsSatisfied sha256_hex float_repr lookup_exact_paths max_paths plan filters r e =
    let fp = build_plan_fingerprint sha256_hex float_repr plan in
    let (rows, e₁, e₂) =
      >>=-eq-ok
        (lookup_exact_paths plan.bound_anchor.node_id plan.bound_target.node_id plan.unlinked.steps
          filters (max_paths + 1))
        _ e in
    chosen fp rows (ltb max_paths (length rows)) (is_empty rows) e₂
  where
    chosen :
        (fp : String) (rows : List PathRow) (b n : Bool)
        → (if b
            then failed_execution plan fp PlanReasonCode.path_budget_exceeded
            else if n
            then failed_execution plan fp PlanReasonCode.no_path
            else (traverse map_graph_path rows >>= λ mapped.
                execute_mapped sha256_hex float_repr plan fp filters.query_date mapped))
          ≡ ok r
        → IsSatisfied sha256_hex plan filters.query_date r ⊎ HasFailed r
    chosen fp rows true n k =
        inr (failed_execution-HasFailed plan fp PlanReasonCode.path_budget_exceeded r k)
    chosen fp rows false true k =
        inr (failed_execution-HasFailed plan fp PlanReasonCode.no_path r k)
    chosen fp rows false false k =
        let (mapped, k₁, k₂) = >>=-eq-ok (traverse map_graph_path rows) _ k in
        execute_mapped-outcome sha256_hex float_repr plan filters.query_date fp mapped r k₂
