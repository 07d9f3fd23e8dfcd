-- ===== src/Generation/Projection/Coverage.antt =====
-- What a projected context holds of the candidates, the paths and the required bundles.
use legal_graphrag_platform.Base.Append.{All-both}
use mathlib.Core.Path.{subst}
use legal_graphrag_platform.Base.{
  first_occurrence, All-of_members, String, ◌≡◌, refl, sym, ap, ◌∙◌, ◌⊎◌, true, some, List, [], ◌∷◌,
  map, contains, All, Member, flat_map, contains-first_occurrence, All-of_contains, All-mono,
  All-flat_map, All-map,
}
use legal_graphrag_platform.Base.Result.{
  key_error, Result, ok, of_option, traverse-All, traverse-map, of_option-eq-ok,
}
use legal_graphrag_platform.Base.Dict.{index_by, index_by-lookup, lookup}
use legal_graphrag_platform.Base.Sort.{sort_by, All-sort_by, All-unsort_by}
use legal_graphrag_platform.Generation.Models.{AnswerGenerationRequest}
use legal_graphrag_platform.Generation.Models.Projected.{ProjectedAnswerContext, LegalEvidenceBlock}
use legal_graphrag_platform.Generation.Evidence.{EvidenceCandidate}
use legal_graphrag_platform.Generation.Compaction.{CompactionPlan}
use legal_graphrag_platform.Generation.Compaction.Dedup.{candidate_id, rank_le}
use legal_graphrag_platform.Generation.Compaction.Required.{EvidenceBundle}
use legal_graphrag_platform.Generation.Projection.{
  GenerationConfig, ProjectionResult, need_all, projected_context, select_evidence, project,
}
use legal_graphrag_platform.Generation.Projection.Selecting.{Selection}
use legal_graphrag_platform.Generation.Projection.Payload.{to_evidence, to_path}
use legal_graphrag_platform.Generation.Projection.Choice.{
  IsProjection, project-IsProjection, price-IsPrice, IsPrice, by_candidate, by_path, the_budget,
}
use legal_graphrag_platform.Generation.Projection.Admission.{
  admit_all-IsExtension, omitted, admit_all-evidence,
}

module _ {κ} {A : Type 0} (P : A → Type κ) (key : A → String) (xs : List A) where
  need : String → Result A
  unfolding lookup index_by
  need k = of_option (lookup k (index_by key xs)) key_error k

  need-found : (k : String) (v : A) → All P xs → need k ≡ ok v → P v × (key v ≡ k)
  unfolding need
  need-found k v h f =
      index_by-lookup key (λ j x. P x × (key x ≡ j)) xs
        (All-mono P (λ x. P x × (key x ≡ key x)) (λ x q. (q, refl)) xs h) k v
        (of_option-eq-ok (lookup k (index_by key xs)) _ _ f)

  -- The values found under the keys are the values of the index, and their keys are these.
  need_all-All :
      (keys : List String) (found : List A)
      → All P xs
      → need_all (index_by key xs) keys ≡ ok found
      → All P found × (map key found ≡ keys)
  unfolding need_all need
  need_all-All keys found h e = (
    traverse-All P need (λ k v f. (need-found k v h f).0) keys found e,
    traverse-map need key (λ k v f. (need-found k v h f).1) keys found e,
  )

-- Each element's values are among those of all the elements, each kept once.
All-first_occurrence :
    {A : Type 0} (f : A → List String) (xs : List A)
    → All (λ x. All (λ id. contains (first_occurrence (flat_map f xs)) id ≡ true) (f x)) xs
All-first_occurrence f xs =
    All-flat_map (λ id. contains (first_occurrence (flat_map f xs)) id ≡ true) f xs
      (All-of_contains _ (flat_map f xs) (λ id h. contains-first_occurrence (flat_map f xs) id ∙ h))

-- Whatever each element's values have, they have it if all that is listed has it.
listed_in :
    {A : Type 0} (f : A → List String) (xs : List A) (listed ids : List String)
    → listed ≡ first_occurrence (flat_map f xs)
    → ((id : String) → contains listed id ≡ true → contains ids id ≡ true)
    → All (λ x. All (λ id. contains ids id ≡ true) (f x)) xs
listed_in f xs listed ids same h =
    All-mono (λ x. All (λ id. contains (first_occurrence (flat_map f xs)) id ≡ true) (f x)) _
      (λ x.
        All-mono (λ id. contains (first_occurrence (flat_map f xs)) id ≡ true) _
          (λ id k. h id (ap (λ is. contains is id) same ∙ k)) (f x))
      xs (All-first_occurrence f xs)

map-map :
    {A B C : Type 0} (g : B → C) (f : A → B) (xs : List A)
    → map g (map f xs) ≡ map (λ x. g (f x)) xs
map-map g f [] = refl
map-map g f (x ∷ xs) = ap (λ ys. g (f x) ∷ ys) (map-map g f xs)

-- A bundle is whole in a context: the context selects its units and has its paths.
abbrev pub IsWhole : ProjectedAnswerContext → EvidenceBundle → Type 0
IsWhole p b =
    All (λ id. contains p.selected_unit_ids id ≡ true) b.unit_ids
    × All (λ id. contains (map (λ q. q.path_id) p.paths) id ≡ true) b.path_ids

-- The bundles that a context admits are one of the required sets, and are whole.
pub record IsAdmitted (plan : CompactionPlan) (p : ProjectedAnswerContext) : Type 0 where
  pub bundles : List EvidenceBundle
  pub required : Member bundles plan.required_bundle_sets
  pub named : p.admitted_bundle_ids ≡ map (λ b. b.bundle_id) bundles
  pub whole : All (IsWhole p) bundles

-- A candidate is selected, or its omission is on record.
abbrev pub IsKnown : ProjectedAnswerContext → EvidenceCandidate → Type 0
IsKnown p c =
    (contains p.selected_unit_ids c.unit.id ≡ true) ⊎ (omitted p.omitted_evidence c.unit.id ≡ true)

module _ (config : GenerationConfig) (request : AnswerGenerationRequest) (plan : CompactionPlan)
    (r : ProjectionResult) (p : ProjectedAnswerContext)
    (returned : project config request plan ≡ ok r) (is_context : r.projected ≡ some p) where
  run : IsProjection config request plan p
  run = project-IsProjection config request plan r p returned is_context

  chosen-IsPrice : IsPrice (by_candidate plan) (by_path plan) run.chosen.bundle_set run.chosen
  chosen-IsPrice =
      price-IsPrice (by_candidate plan) (by_path plan) run.chosen.bundle_set run.chosen run.priced

  abbrev start : Selection
  start = record {
    selected = run.chosen.unit_ids;
    evidence = map (λ c. to_evidence c.unit) run.units;
    omitted = plan.omitted_evidence;
    used = run.chosen.cost;
  }

  abbrev sorted : List EvidenceCandidate
  unfolding sort_by rank_le
  sorted = sort_by rank_le plan.candidates

  has_paths : map (λ q. q.path_id) (map to_path run.ways) ≡ run.chosen.path_ids
  has_paths =
      map-map (λ q. q.path_id) to_path run.ways
      ∙ (need_all-All (λ _. Unit {0}) (λ w. w.path_id) plan.paths run.chosen.path_ids run.ways
          (All-of_members _ plan.paths (λ _ _. tt)) run.found_ways).1

  -- If a context is projected, then each candidate of the plan is selected or stands among the
  -- omissions: none is dropped in silence.
  pub project-IsKnown : All (IsKnown p) plan.candidates
  unfolding select_evidence projected_context
  project-IsKnown =
      subst (λ q. All (IsKnown q) plan.candidates) (sym run.built)
        (All-unsort_by rank_le _ plan.candidates
          (admit_all-IsExtension (the_budget config request plan) sorted start).1)

  -- If a context is projected, then the bundles that it admits are one of the required sets of
  -- the plan, it selects every unit of each of these bundles, and it has every path of each.
  pub project-IsAdmitted : IsAdmitted plan p
  unfolding select_evidence projected_context
  project-IsAdmitted = subst (IsAdmitted plan) (sym run.built) (record {
    bundles = run.chosen.bundle_set;
    required = run.required;
    named = refl;
    whole =
        All-both _ _ run.chosen.bundle_set
          (listed_in (λ b. b.unit_ids) run.chosen.bundle_set run.chosen.unit_ids _
            chosen-IsPrice.same_units
            (admit_all-IsExtension (the_budget config request plan) sorted start).0.selects)
          (listed_in (λ b. b.path_ids) run.chosen.bundle_set run.chosen.path_ids _
            chosen-IsPrice.same_paths (λ id h. ap (λ is. contains is id) has_paths ∙ h));
  })

  -- What holds of the candidates' blocks holds of the context's evidence.
  pub All-project {κ} :
      (P : LegalEvidenceBlock → Type κ)
      → All (λ c. P (to_evidence c.unit)) plan.candidates
      → All P p.evidence
  unfolding select_evidence projected_context
  All-project P h =
      subst (λ q. All P q.evidence) (sym run.built)
        (admit_all-evidence P (the_budget config request plan) sorted start
          (All-map P (λ c. to_evidence c.unit) run.units
            (need_all-All (λ c. P (to_evidence c.unit)) candidate_id plan.candidates
              run.chosen.unit_ids run.units h run.found_units).0)
          (All-sort_by rank_le (λ c. P (to_evidence c.unit)) plan.candidates h))
