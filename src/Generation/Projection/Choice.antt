-- ===== src/Generation/Projection/Choice.antt =====
-- The alternative that `ContextProjector.project` chooses, and the context that it builds from it.
use mathlib.Core.Path.{subst}
use legal_graphrag_platform.Base.{
  first_occurrence, find?, All-of_members, ℕ, String, ◌≡◌, refl, sym, ap, ◌∙◌, inl, inr, true,
  false, not, Option, none, some, List, [], ◌∷◌, map, leb, eqb, is_empty, unique, All, Member,
  flat_map, Bool-cases, any, same_list, same_list→eq, find?-All,
}
use legal_graphrag_platform.Base.Result.{
  not-eq-false, ok, traverse, >>=-eq-ok, guard-bind-ok, ok_inj,
}
use legal_graphrag_platform.Base.Dict.{Dict, index_by}
use legal_graphrag_platform.Base.Sort.{sort_by, All-sort_by}
use legal_graphrag_platform.Generation.Models.{AnswerGenerationRequest}
use legal_graphrag_platform.Generation.Models.Projected.{
  ProjectedAnswerContext, validate_projection, check_composition, LegalEvidenceBlock,
  is_budget_omission, same_flag,
}
use legal_graphrag_platform.Generation.Evidence.{EvidenceCandidate, ValidatedPath}
use legal_graphrag_platform.Generation.Compaction.{CompactionPlan}
use legal_graphrag_platform.Generation.Compaction.Dedup.{candidate_id}
use legal_graphrag_platform.Generation.Compaction.Required.{EvidenceBundle}
use legal_graphrag_platform.Generation.Projection.{
  cost_of, GenerationConfig, ProjectionResult, Alternative, price, alternative_le, need_all,
  projected_context, select_evidence, project_chosen, project, evidence_budget, validate_history,
}
use legal_graphrag_platform.Generation.Projection.Payload.{fixed_overhead}

abbrev pub by_candidate : CompactionPlan → Dict EvidenceCandidate
by_candidate plan = index_by candidate_id plan.candidates

abbrev pub by_path : CompactionPlan → Dict ValidatedPath
by_path plan = index_by (λ p. p.path_id) plan.paths

-- The context passes its own validator.
pub record IsConsistent (p : ProjectedAnswerContext) : Type 0 where
  pub selected : map (λ e. e.unit_id) p.evidence ≡ p.selected_unit_ids
  pub distinct : unique p.selected_unit_ids ≡ true
  pub distinct_bundles : unique p.admitted_bundle_ids ≡ true

validate_projection-IsConsistent :
    (p q : ProjectedAnswerContext) → validate_projection p ≡ ok q → (p ≡ q) × IsConsistent p
unfolding validate_projection
validate_projection-IsConsistent p q h =
    let ids = map (λ (e : LegalEvidenceBlock). e.unit_id) p.evidence in
    let (h₁, k₁) = guard-bind-ok (not (same_list ids p.selected_unit_ids)) _ _ _ h in
    let (h₂, k₂) = guard-bind-ok (not (unique ids)) _ _ _ k₁ in
    let (h₃, k₃) = guard-bind-ok (not (unique p.admitted_bundle_ids)) _ _ _ k₂ in
    let (_, h₄, k₄) = >>=-eq-ok (check_composition p.selected_unit_ids p.composition_plan) _ k₃ in
    let (h₅, k₅) =
      guard-bind-ok
        (not (same_flag p.truncated (any (λ o. is_budget_omission o.reason) p.omitted_evidence))) _
        _ _ k₄ in
    let same : ids ≡ p.selected_unit_ids = same_list→eq _ _ (not-eq-false _ h₁) in
    (
      ok_inj k₅,
      record {
        selected = same;
        distinct = subst (λ xs. unique xs ≡ true) same (not-eq-false _ h₂);
        distinct_bundles = not-eq-false _ h₃;
      },
    )

abbrev pub unit_ids_of : List EvidenceBundle → List String
unit_ids_of bundles = first_occurrence (flat_map (λ b. b.unit_ids) bundles)

abbrev pub path_ids_of : List EvidenceBundle → List String
path_ids_of bundles = first_occurrence (flat_map (λ b. b.path_ids) bundles)

-- What an alternative is of its bundles.
pub record IsPrice (candidates : Dict EvidenceCandidate) (paths : Dict ValidatedPath)
    (bundles : List EvidenceBundle) (a : Alternative) : Type 0 where
  pub same_set : a.bundle_set ≡ bundles
  pub same_units : a.unit_ids ≡ unit_ids_of bundles
  pub same_paths : a.path_ids ≡ path_ids_of bundles
  pub units : List EvidenceCandidate
  pub found_units : need_all candidates a.unit_ids ≡ ok units
  pub ways : List ValidatedPath
  pub found_ways : need_all paths a.path_ids ≡ ok ways
  pub costs : a.cost ≡ cost_of units ways

pub price-IsPrice :
    (candidates : Dict EvidenceCandidate) (paths : Dict ValidatedPath)
    (bundles : List EvidenceBundle) (a : Alternative)
    → price candidates paths bundles ≡ ok a
    → IsPrice candidates paths bundles a
unfolding price
price-IsPrice candidates paths bundles a h =
    let (units, h₁, k₁) = >>=-eq-ok (need_all candidates (unit_ids_of bundles)) _ h in
    let (ways, h₂, k₂) = >>=-eq-ok (need_all paths (path_ids_of bundles)) _ k₁ in
    subst (IsPrice candidates paths bundles) (ok_inj k₂) (record {
      same_set = refl;
      same_units = refl;
      same_paths = refl;
      units = units;
      found_units = h₁;
      ways = ways;
      found_ways = h₂;
      costs = refl;
    })

module _ (config : GenerationConfig) (request : AnswerGenerationRequest)
    (plan : CompactionPlan) where
  abbrev pub the_budget : ℕ
  the_budget = evidence_budget config (fixed_overhead request)

  -- How a projected context comes about.
  pub record IsProjection (p : ProjectedAnswerContext) : Type 0 where
    pub budgeted : eqb the_budget 0 ≡ false
    pub chosen : Alternative
    pub required : Member chosen.bundle_set plan.required_bundle_sets
    pub priced : price (by_candidate plan) (by_path plan) chosen.bundle_set ≡ ok chosen
    pub fits : leb chosen.cost the_budget ≡ true
    pub units : List EvidenceCandidate
    pub found_units : need_all (by_candidate plan) chosen.unit_ids ≡ ok units
    pub ways : List ValidatedPath
    pub found_ways : need_all (by_path plan) chosen.path_ids ≡ ok ways
    pub built :
        p
        ≡ projected_context config request plan
            (fixed_overhead request)
            the_budget
            chosen
            ways
            (select_evidence the_budget plan chosen units)
    pub consistent : IsConsistent p

  abbrev pub IsPriced : Alternative → Type 0
  IsPriced a =
      Member a.bundle_set plan.required_bundle_sets
      × (price (by_candidate plan) (by_path plan) a.bundle_set ≡ ok a)

  pub prices-IsPriced :
      (sets : List (List EvidenceBundle)) (alternatives : List Alternative)
      → All (λ bs. Member bs plan.required_bundle_sets) sets
      → traverse (price (by_candidate plan) (by_path plan)) sets ≡ ok alternatives
      → All IsPriced alternatives
  prices-IsPriced [] [] m h = tt
  prices-IsPriced [] (a ∷ alternatives) m h = cc
  prices-IsPriced (bs ∷ rest) alternatives m h =
      let (a, e₁, k₁) = >>=-eq-ok (price (by_candidate plan) (by_path plan) bs) _ h in
      let (others, e₂, k₂) =
        >>=-eq-ok (traverse (price (by_candidate plan) (by_path plan)) rest) _ k₁ in
      subst (All IsPriced) (ok_inj k₂) (
        subst
            (λ (xs : List EvidenceBundle).
              Member xs plan.required_bundle_sets
              × (price (by_candidate plan) (by_path plan) xs ≡ ok a))
            (sym (price-IsPrice (by_candidate plan) (by_path plan) bs a e₁).same_set) (m.0, e₁),
        prices-IsPriced rest others m.1 e₂,
      )

  -- From the chosen alternative on.
  project_chosen-IsProjection :
      (r : ProjectionResult) (p : ProjectedAnswerContext) (o : Option Alternative)
      → eqb the_budget 0 ≡ false
      → ((a : Alternative) → o ≡ some a → IsPriced a × (leb a.cost the_budget ≡ true))
      → project_chosen config request plan (fixed_overhead request) the_budget o ≡ ok r
      → r.projected ≡ some p
      → IsProjection p
  unfolding project_chosen
  project_chosen-IsProjection r p none b c h e =
      let n : none ≡ r.projected = ap (λ (x : ProjectionResult). x.projected) (ok_inj h) in cc
  project_chosen-IsProjection r p (some chosen) b c h e =
      let (units, h₁, k₁) = >>=-eq-ok (need_all (by_candidate plan) chosen.unit_ids) _ h in
      let (ways, h₂, k₂) = >>=-eq-ok (need_all (by_path plan) chosen.path_ids) _ k₁ in
      let raw =
        projected_context config request plan (fixed_overhead request) the_budget chosen ways
          (select_evidence the_budget plan chosen units) in
      let (q, h₃, k₃) = >>=-eq-ok (validate_projection raw) _ k₂ in
      let (same, consistent) = validate_projection-IsConsistent raw q h₃ in
      let n : some q ≡ r.projected = ap (λ (x : ProjectionResult). x.projected) (ok_inj k₃) in
      let q_is_p : q ≡ p = cc in
      let raw_is_p = same ∙ q_is_p in
      let (priced, fits) = c chosen refl in
      record {
        budgeted = b;
        chosen = chosen;
        required = priced.0;
        priced = priced.1;
        fits = fits;
        units = units;
        found_units = h₁;
        ways = ways;
        found_ways = h₂;
        built = sym raw_is_p;
        consistent = subst IsConsistent raw_is_p consistent;
      }

  pub project-IsProjection :
      (r : ProjectionResult) (p : ProjectedAnswerContext)
      → project config request plan ≡ ok r
      → r.projected ≡ some p
      → IsProjection p
  unfolding project
  project-IsProjection r p h e =
      let (_, _, k₁) = >>=-eq-ok (validate_history config request.conversation_history) _ h in
      let (b, k₂) = guard-bind-ok (eqb the_budget 0) _ _ _ k₁ in
      let (alternatives, h₃, k₃) =
        >>=-eq-ok (traverse (price (by_candidate plan) (by_path plan)) plan.required_bundle_sets) _
          k₂ in
      let priced =
        prices-IsPriced plan.required_bundle_sets alternatives
          (All-of_members _ plan.required_bundle_sets (λ x m. m)) h₃ in
      let sorted = sort_by alternative_le alternatives in
      elim (Bool-cases (is_empty plan.required_bundle_sets)) [
        | inl t ↦
            let n : none ≡ r.projected =
              ap (λ (x : ProjectionResult). x.projected) (ok_inj (rw t at k₃)) in
            cc
        | inr f ↦
            project_chosen-IsProjection r p (find? (λ a. leb a.cost the_budget) sorted) b
              (λ a found.
                find?-All IsPriced (λ a. leb a.cost the_budget) sorted a
                  (All-sort_by alternative_le IsPriced alternatives priced) found)
              (rw f at k₃) e
      ]
