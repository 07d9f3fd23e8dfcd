-- ===== src/Generation/Projection/Budget.antt =====
-- The budget of a projected context, and what it holds of the required and of the other evidence.
use mathlib.Core.Path.{subst, ap₂}
use legal_graphrag_platform.Base.{
  ℕ, ◌+◌, ◌-◌, ◌≤◌, ◌≡◌, refl, sym, ap, ◌∙◌, false, some, List, [], ◌∷◌, map, eqb, arith, leb→le,
}
use legal_graphrag_platform.Base.Result.{ok, ok_inj}
use legal_graphrag_platform.Base.Sort.{sort_by}
use legal_graphrag_platform.Generation.Models.{AnswerGenerationRequest}
use legal_graphrag_platform.Generation.Models.Projected.{ProjectedAnswerContext, ProjectedPathBlock}
use legal_graphrag_platform.Generation.Evidence.{EvidenceCandidate, ValidatedPath}
use legal_graphrag_platform.Generation.Compaction.{CompactionPlan}
use legal_graphrag_platform.Generation.Compaction.Dedup.{rank_le}
use legal_graphrag_platform.Generation.Projection.{
  GenerationConfig, ProjectionResult, Alternative, cost_of, sum, projected_context, select_evidence,
  project,
}
use legal_graphrag_platform.Generation.Projection.Selecting.{Selection, admit_all}
use legal_graphrag_platform.Generation.Projection.Payload.{
  to_evidence, to_path, evidence_cost, path_cost, fixed_overhead,
}
use legal_graphrag_platform.Generation.Projection.Choice.{
  IsProjection, project-IsProjection, price-IsPrice, IsPrice, by_candidate, by_path, the_budget,
}
use legal_graphrag_platform.Generation.Projection.Admission.{
  evidence_total, IsBalanced, admit_all-IsBalanced,
}

abbrev pub path_total : List ProjectedPathBlock → ℕ
path_total paths = sum (map (λ p. path_cost p) paths)

sum-map-map :
    {A B : Type 0} (g : B → ℕ) (f : A → B) (xs : List A)
    → sum (map (λ x. g (f x)) xs) ≡ sum (map g (map f xs))
sum-map-map g f [] = refl
sum-map-map g f (x ∷ xs) = ap (λ n. g (f x) + n) (sum-map-map g f xs)

cost_of-total :
    (units : List EvidenceCandidate) (ways : List ValidatedPath)
    → cost_of units ways
      ≡ evidence_total (map (λ c. to_evidence c.unit) units) + path_total (map to_path ways)
unfolding cost_of
cost_of-total units ways =
    ap₂ (λ m n. m + n) (sum-map-map (λ b. evidence_cost b) (λ c. to_evidence c.unit) units)
      (sum-map-map (λ q. path_cost q) to_path ways)

-- The characters used are those of the context's blocks, and they fit.
abbrev pub Fits : GenerationConfig → ProjectedAnswerContext → Type 0
Fits config p =
    (p.budget.used_evidence_chars ≡ evidence_total p.evidence + path_total p.paths)
    × (p.budget.used_evidence_chars ≤ p.budget.evidence_budget_chars)
    × (p.budget.used_evidence_chars
          + (p.budget.fixed_overhead_chars + p.budget.safety_reserve_chars)
        ≤ config.context_max_chars)

budget_bound :
    (most reserve overhead used : ℕ)
    → eqb (most - reserve - overhead) 0 ≡ false
    → used ≤ most - reserve - overhead
    → used + (overhead + reserve) ≤ most
budget_bound most reserve overhead used b h = ground arith

start_of : Alternative → CompactionPlan → List EvidenceCandidate → Selection
start_of chosen plan units = record {
  selected = chosen.unit_ids;
  evidence = map (λ c. to_evidence c.unit) units;
  omitted = plan.omitted_evidence;
  used = chosen.cost;
}

module _ (config : GenerationConfig) (request : AnswerGenerationRequest) (plan : CompactionPlan)
    (r : ProjectionResult) (p : ProjectedAnswerContext)
    (returned : project config request plan ≡ ok r) (is_context : r.projected ≡ some p) where
  run : IsProjection config request plan p
  run = project-IsProjection config request plan r p returned is_context

  chosen-IsPrice : IsPrice (by_candidate plan) (by_path plan) run.chosen.bundle_set run.chosen
  chosen-IsPrice =
      price-IsPrice (by_candidate plan) (by_path plan) run.chosen.bundle_set run.chosen run.priced

  the_cost : run.chosen.cost ≡ cost_of run.units run.ways
  the_cost =
      chosen-IsPrice.costs
      ∙ ap₂ cost_of (ok_inj (sym chosen-IsPrice.found_units ∙ run.found_units))
          (ok_inj (sym chosen-IsPrice.found_ways ∙ run.found_ways))

  start : Selection
  start = start_of run.chosen plan run.units

  settled : Selection
  settled = admit_all (the_budget config request plan) start (sort_by rank_le plan.candidates)

  the_balance :
      IsBalanced (the_budget config request plan) (path_total (map to_path run.ways)) settled
  unfolding settled start start_of
  the_balance = admit_all-IsBalanced _ _ (sort_by rank_le plan.candidates) start (record {
    balanced = the_cost ∙ cost_of-total run.units run.ways;
    within = leb→le _ _ run.fits;
  })

  -- If a context is projected, then the characters it reports as used are the serialized lengths
  -- of its evidence and of its paths together, they are within the evidence budget, and with the
  -- fixed overhead and the safety reserve they are within the configured maximum.
  pub project-Fits : Fits config p
  unfolding select_evidence projected_context settled start start_of
  project-Fits = subst (Fits config) (sym run.built) (
    the_balance.balanced,
    the_balance.within,
    budget_bound config.context_max_chars config.context_safety_reserve_chars
        (fixed_overhead request) settled.used run.budgeted the_balance.within,
  )
