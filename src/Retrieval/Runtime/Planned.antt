-- ===== src/Retrieval/Runtime/Planned.antt =====
-- The check of the planned paths in runtime.py never fails on a plan that executor.py executed.
use legal_graphrag_platform.Base.{
  ℕ, String, ◌≡◌, refl, sym, ap, ◌∙◌, ◌⊎◌, inl, inr, true, none, some, List, [], ◌∷◌, contains, All,
  Member, arith, eq_refl, All-mono, All_at,
}
use legal_graphrag_platform.Base.Result.{Result, ok, traverse, >>=-eq-ok, ok_inj}
use mathlib.Core.List.{◌++◌ as ◌⧺◌}
use legal_graphrag_platform.Base.Append.{Member-right}
use legal_graphrag_platform.Base.Sort.{sort_by, All-sort_by, Member-sort_by}
use legal_graphrag_platform.Base.Float.{Float}
use legal_graphrag_platform.Retrieval.Models.{GraphPath, RetrievalFilters, PlanExecutionStatus}
use legal_graphrag_platform.Retrieval.PathIdentity.{build_topology_path_fingerprint}
use legal_graphrag_platform.Retrieval.GraphPaths.{
  path_rank_le, ranked_paths, deduplicate_topology_paths,
}
use legal_graphrag_platform.Retrieval.GraphPaths.Merge.{fingerprint-SamePath}
use legal_graphrag_platform.Retrieval.GraphPaths.Groups.{
  IsMergeOf, IsKept, deduplicate_topology_paths-keeps,
}
use legal_graphrag_platform.Retrieval.Planning.{PlannedPathLookup}
use legal_graphrag_platform.Retrieval.Planning.Models.{BoundSemanticPlan, PlannedPathExecution}
use legal_graphrag_platform.Retrieval.Planning.Executor
use legal_graphrag_platform.Retrieval.Planning.Satisfied.{
  IsSatisfied, HasFailed, execute-IsSatisfied,
}
use legal_graphrag_platform.Retrieval.Runtime.{check_promised, validate_planned_path_membership}
use legal_graphrag_platform.Retrieval.Runtime.Execute.{PlannedPaths, run_planned}

-- The images of a function that raises on no element, and what they contain.
record Images (f : GraphPath → Result String) (paths : List GraphPath) : Type 0 where
  pub images : List String
  pub mapped : traverse f paths ≡ ok images
  pub has : (p : GraphPath) (s : String) → Member p paths → f p ≡ ok s → contains images s ≡ true

traverse-Images :
    (f : GraphPath → Result String) (paths : List GraphPath)
    → All (λ p. (s : String) × (f p ≡ ok s)) paths
    → Images f paths
traverse-Images f [] h = record { images = []; mapped = refl; has = λ p s m e. absurd m }
traverse-Images f (path ∷ paths) h =
    let (s, e) = h.0 in
    let rest = traverse-Images f paths h.1 in
    record {
      images = s ∷ rest.images;
      mapped = rw (e, rest.mapped) refl;
      has = λ p t m k. found p t s rest.images e (rest.has p t) m k;
    }
  where
    found :
        (p : GraphPath) (t s : String) (images : List String)
        → f path ≡ ok s
        → (Member p paths → f p ≡ ok t → contains images t ≡ true)
        → Member p (path ∷ paths)
        → f p ≡ ok t
        → contains (s ∷ images) t ≡ true
    found p t s images e rest (inl same) k =
        let one : s ≡ t = ok_inj (sym e ∙ ap f (sym same) ∙ k) in rw (one, eq_refl) refl
    found p t s images e rest (inr m) k = ground (arith, rest m k)

module _ (sha256_hex : String → String) where
  abbrev fingerprint : GraphPath → Result String
  fingerprint = build_topology_path_fingerprint sha256_hex

  -- The paths of a retrieval have fingerprints, that of each path given among them.
  ranked_paths-check :
      (paths graph_paths : List GraphPath) (path : GraphPath) (s : String)
      → ranked_paths sha256_hex paths ≡ ok graph_paths
      → Member path paths
      → fingerprint path ≡ ok s
      → check_promised sha256_hex (some (s ∷ [])) graph_paths ≡ ok tt
  unfolding ranked_paths
  ranked_paths-check paths graph_paths path s e m k =
      let (merged, e₁, e₂) = >>=-eq-ok (deduplicate_topology_paths sha256_hex paths) _ e in
      let (of_given, kept) = deduplicate_topology_paths-keeps sha256_hex paths merged e₁ in
      let sorted : sort_by path_rank_le merged ≡ graph_paths = ok_inj e₂ in
      let each : All (λ p. (t : String) × (fingerprint p ≡ ok t)) merged =
        All-mono (IsMergeOf paths) _
          (λ p o.
            let known = All_at (IsKept sha256_hex merged) paths o.path kept o.given in
            (known.fingerprint, fingerprint-SamePath sha256_hex o.path p o.same ∙ known.of_path))
          merged of_given in
      let images =
        traverse-Images fingerprint (sort_by path_rank_le merged)
          (All-sort_by path_rank_le _ merged each) in
      let own = All_at (IsKept sha256_hex merged) paths path kept m in
      let same : own.fingerprint ≡ s = ok_inj (sym own.of_path ∙ k) in
      let listed =
        images.has own.kept s (Member-sort_by path_rank_le own.kept merged own.listed)
          (own.of_kept ∙ ap ok same) in
      rw (← sorted, images.mapped, listed) refl

  module _ (float_repr : Float → String) (lookup_exact_paths : PlannedPathLookup) (max_paths : ℕ)
      (plan : BoundSemanticPlan) (filters : RetrievalFilters) where
    abbrev executor : BoundSemanticPlan → RetrievalFilters → Result PlannedPathExecution
    executor = Executor.execute sha256_hex float_repr lookup_exact_paths max_paths

    checked :
        (r : PlannedPathExecution) (paths graph_paths : List GraphPath)
        → IsSatisfied sha256_hex plan filters.query_date r ⊎ HasFailed r
        → ranked_paths sha256_hex (paths ⧺ r.paths) ≡ ok graph_paths
        → validate_planned_path_membership sha256_hex (some r.result) graph_paths ≡ ok tt
    checked r paths graph_paths (inr failed) e = rw failed.0 refl
    checked r paths graph_paths (inl s) e = by_status r.result.execution_status (
        ranked_paths-check (paths ⧺ r.paths) graph_paths s.path s.fingerprint e
          (Member-right s.path paths r.paths (rw s.only (inl refl))) s.identified)
      where
        by_status :
            (status : PlanExecutionStatus)
            → check_promised sha256_hex (some (s.fingerprint ∷ [])) graph_paths ≡ ok tt
            → check_promised sha256_hex
                (elim status [
                  | PlanExecutionStatus.satisfied ↦ some r.result.satisfied_path_fingerprints
                  | PlanExecutionStatus.failed ↦ none
                ])
                graph_paths
              ≡ ok tt
        by_status PlanExecutionStatus.failed k = refl
        by_status PlanExecutionStatus.satisfied k = rw s.reported k

    -- If the executor has executed a bound plan, and its paths are merged with those of the
    -- expansion, then the check that a satisfied plan's path is among the merged ones passes,
    -- whatever the expansion found: its error is never raised.
    pub run_planned-check :
        (planned : PlannedPaths) (paths graph_paths : List GraphPath)
        → run_planned
            (some (Executor.execute sha256_hex float_repr lookup_exact_paths max_paths))
            (some plan)
            filters
          ≡ ok planned
        → ranked_paths sha256_hex (paths ⧺ planned.paths) ≡ ok graph_paths
        → validate_planned_path_membership sha256_hex planned.execution graph_paths ≡ ok tt
    run_planned-check planned paths graph_paths e k =
        let (r, e₁, e₂) = >>=-eq-ok (executor plan filters) _ e in
        let made : PlannedPaths = record { execution = some r.result; paths = r.paths } in
        let same : made ≡ planned = ok_inj e₂ in
        let merged : ranked_paths sha256_hex (paths ⧺ r.paths) ≡ ok graph_paths =
          ap (λ (p : PlannedPaths). ranked_paths sha256_hex (paths ⧺ p.paths)) same ∙ k in
        ap
          (λ (p : PlannedPaths).
            validate_planned_path_membership sha256_hex p.execution graph_paths)
          (sym same)
        ∙ checked r paths graph_paths
            (execute-IsSatisfied sha256_hex float_repr lookup_exact_paths max_paths plan filters r
              e₁)
            merged
