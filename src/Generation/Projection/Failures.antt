-- ===== src/Generation/Projection/Failures.antt =====
-- The exceptions of `ContextProjector.project` on the plan that compaction makes.
use legal_graphrag_platform.Base.Text.{text_length}
use legal_graphrag_platform.Base.Sort.{All-sort_by, sort_by}
use legal_graphrag_platform.Generation.Projection.Payload.{fixed_overhead}
use legal_graphrag_platform.Generation.Compaction.{compact, CompactionPlan}
use legal_graphrag_platform.Generation.Evidence.{ValidatedEvidence}
use legal_graphrag_platform.Base.{
  length, ltb, All-of_members, leb, inr, inl, Bool-cases, eqb, String, ◌≡◌, refl, sym, ◌∙◌, Bool,
  true, false, not, Option, none, some, List, [], ◌∷◌, map, is_some, is_empty, contains, unique,
  All, flat_map, any, subset, find?, find?-All, All-of_contains, All_at_contains, All-append,
  All-mono, first_occurrence, contains-first_occurrence, same_list,
}
use legal_graphrag_platform.Base.Result.{
  traverse, err, Raises-fail_if, Result, ok, of_option, ErrorClass, Exception, Raises, Raises-ok,
  Raises-bind, Raises-traverse, Raises-guard,
}
use legal_graphrag_platform.Base.Dict.{lookup, index_by, index_by-has}
use legal_graphrag_platform.Generation.Models.{GenerationHistoryMessage, AnswerGenerationRequest}
use legal_graphrag_platform.Generation.Models.Composition.{
  AnswerCompositionPlan, AnswerCompositionOperand,
}
use legal_graphrag_platform.Generation.Models.Projected.{
  ProjectedAnswerContext, LegalEvidenceBlock, validate_projection, check_composition,
  check_operands, same_flag, is_budget_omission,
}
use legal_graphrag_platform.Generation.Compaction.Dedup.{candidate_id}
use legal_graphrag_platform.Generation.Compaction.Bundles.{IsClosed}
use legal_graphrag_platform.Generation.Compaction.Closed.{compact-AllClosed}
use legal_graphrag_platform.Generation.Compaction.Required.{EvidenceBundle}
use legal_graphrag_platform.Generation.Projection.{
  sum, select_evidence, projected_context, alternative_le, validate_history, Alternative,
  project_chosen, project, GenerationConfig, need_all, price,
}
use legal_graphrag_platform.Generation.Projection.Choice.{
  price-IsPrice, the_budget, prices-IsPriced, IsPriced, by_candidate, by_path, unit_ids_of,
  path_ids_of,
}

-- The classes of the exceptions that a projection may end in.
abbrev pub is_projection_error : ErrorClass → Bool
is_projection_error ErrorClass.answer_request_error = true
is_projection_error ErrorClass.context_budget_configuration_error = true
is_projection_error ErrorClass.value_error = true
is_projection_error _ = false

abbrev pub IsProjectionError : Exception → Type 0
IsProjectionError e = is_projection_error e.class ≡ true

module _ {A : Type 0} where
  known-Raises :
      (o : Option A) (c : ErrorClass) (m : String)
      → is_some o ≡ true
      → Raises IsProjectionError (of_option o c m)
  known-Raises none c m h = cc
  known-Raises (some a) c m h = Raises-ok a

  ok-Raises : (m : Result A) (a : A) → m ≡ ok a → Raises IsProjectionError m
  ok-Raises m a h = record { at = λ e k. cc }

  need_all-Raises :
      (key : A → String) (xs : List A) (keys : List String)
      → All (λ k. contains (map key xs) k ≡ true) keys
      → Raises IsProjectionError (need_all (index_by key xs) keys)
  unfolding need_all
  need_all-Raises key xs keys h = Raises-traverse _ keys (
      All-mono (λ k. contains (map key xs) k ≡ true) _
        (λ k c. known-Raises (lookup k (index_by key xs)) _ _ (index_by-has key xs k ∙ c)) keys h)

  All-joined :
      (P : String → Type 0) (f : A → List String) (xs : List A)
      → All (λ x. All P (f x)) xs
      → All P (flat_map f xs)
  All-joined P f [] h = tt
  All-joined P f (x ∷ xs) h = All-append P (f x) (flat_map f xs) h.0 (All-joined P f xs h.1)

  All-joined_once :
      (P : String → Type 0) (f : A → List String) (xs : List A)
      → All (λ x. All P (f x)) xs
      → All P (first_occurrence (flat_map f xs))
  All-joined_once P f xs h = All-of_contains P (first_occurrence (flat_map f xs)) λ id c.
      All_at_contains P (flat_map f xs) id (All-joined P f xs h)
        (sym (contains-first_occurrence (flat_map f xs) id) ∙ c)

check_operands-Raises :
    (selected : List String) (operands : List AnswerCompositionOperand)
    → Raises IsProjectionError (check_operands selected operands)
unfolding check_operands
check_operands-Raises selected [] = Raises-ok tt
check_operands-Raises selected (o ∷ os) =
    Raises-guard (is_empty o.evidence_unit_ids) _ _ _ refl λ _.
      Raises-guard (not (subset o.evidence_unit_ids selected)) _ _ _ refl
        λ _. check_operands-Raises selected os

check_composition-Raises :
    (selected : List String) (plan : Option AnswerCompositionPlan)
    → Raises IsProjectionError (check_composition selected plan)
unfolding check_composition
check_composition-Raises selected none = Raises-ok tt
check_composition-Raises selected (some plan) = check_operands-Raises selected plan.operands

validate_projection-Raises :
    (p : ProjectedAnswerContext) → Raises IsProjectionError (validate_projection p)
unfolding validate_projection
validate_projection-Raises p =
    let ids = map (λ (e : LegalEvidenceBlock). e.unit_id) p.evidence in
    Raises-guard (not (same_list ids p.selected_unit_ids)) _ _ _ refl λ _.
      Raises-guard (not (unique ids)) _ _ _ refl λ _.
        Raises-guard (not (unique p.admitted_bundle_ids)) _ _ _ refl λ _.
          Raises-bind (check_composition p.selected_unit_ids p.composition_plan) _
            (check_composition-Raises p.selected_unit_ids p.composition_plan)
            λ _ _.
              Raises-guard
                (not (
                  same_flag p.truncated
                    (any (λ o. is_budget_omission o.reason) p.omitted_evidence)))
                _ _ _ refl λ _. Raises-ok p

validate_history-Raises :
    (config : GenerationConfig) (history : List GenerationHistoryMessage)
    → Raises IsProjectionError (validate_history config history)
unfolding validate_history
validate_history-Raises config history =
    Raises-guard (ltb config.history_max_messages (length history)) _ _ _ refl λ _.
      Raises-fail_if (ltb config.history_max_chars (sum (map (λ m. text_length m.content) history)))
        _ _ refl

module _ (config : GenerationConfig) (request : AnswerGenerationRequest)
    (plan : CompactionPlan) where
  price-Raises :
      (bundles : List EvidenceBundle)
      → All (IsClosed plan.candidates plan.paths) bundles
      → Raises IsProjectionError (price (by_candidate plan) (by_path plan) bundles)
  unfolding price
  price-Raises bundles h =
      Raises-bind (need_all (by_candidate plan) (unit_ids_of bundles)) _
        (need_all-Raises candidate_id plan.candidates (unit_ids_of bundles) (
          All-joined_once _ (λ b. b.unit_ids) bundles
            (All-mono (IsClosed plan.candidates plan.paths) _ (λ b c. c.0) bundles h)))
        λ units _.
          Raises-bind (need_all (by_path plan) (path_ids_of bundles)) _
            (need_all-Raises (λ p. p.path_id) plan.paths (path_ids_of bundles)
              (All-joined_once _ (λ b. b.path_ids) bundles
                (All-mono (IsClosed plan.candidates plan.paths) _ (λ b c. c.1) bundles h)))
            λ ways _. Raises-ok _

  project_chosen-Raises :
      (o : Option Alternative)
      → ((a : Alternative) → o ≡ some a → IsPriced config request plan a)
      → Raises IsProjectionError (
          project_chosen config request plan
            (fixed_overhead request)
            (the_budget config request plan)
            o)
  unfolding project_chosen
  project_chosen-Raises none c = Raises-ok _
  project_chosen-Raises (some chosen) c =
      let price =
        price-IsPrice (by_candidate plan) (by_path plan) chosen.bundle_set chosen
          (c chosen refl).1 in
      Raises-bind (need_all (by_candidate plan) chosen.unit_ids) _
        (ok-Raises _ price.units price.found_units)
        λ units _.
          Raises-bind (need_all (by_path plan) chosen.path_ids) _
            (ok-Raises _ price.ways price.found_ways)
            λ ways _.
              (let raw =
                  projected_context config request plan (fixed_overhead request)
                    (the_budget config request plan) chosen ways
                    (select_evidence (the_budget config request plan) plan chosen units) in
                Raises-bind (validate_projection raw) _ (validate_projection-Raises raw)
                  λ projected _.
                    Raises-ok
                      (record { projected = some projected; reason_code = none; reason = none }))

  project-Raises :
      All (All (IsClosed plan.candidates plan.paths)) plan.required_bundle_sets
      → Raises IsProjectionError (project config request plan)
  unfolding project
  project-Raises closed =
      Raises-bind (validate_history config request.conversation_history) _
        (validate_history-Raises config request.conversation_history)
        λ _ _. Raises-guard (eqb (the_budget config request plan) 0) _ _ _ refl λ _.
          Raises-bind
            (traverse (price (by_candidate plan) (by_path plan)) plan.required_bundle_sets) _
            (Raises-traverse (price (by_candidate plan) (by_path plan)) plan.required_bundle_sets (
              All-mono (All (IsClosed plan.candidates plan.paths)) _ price-Raises
                plan.required_bundle_sets closed))
            λ alternatives h. elim (Bool-cases (is_empty plan.required_bundle_sets)) [
              | inl t ↦ rw t (Raises-ok _)
              | inr f ↦ rw f (
                  project_chosen-Raises
                    (find? (λ a. leb a.cost (the_budget config request plan))
                      (sort_by alternative_le alternatives))
                    λ a found.
                      (find?-All (IsPriced config request plan)
                        (λ a. leb a.cost (the_budget config request plan))
                        (sort_by alternative_le alternatives) a
                        (All-sort_by alternative_le (IsPriced config request plan) alternatives (
                          prices-IsPriced config request plan plan.required_bundle_sets alternatives
                            (All-of_members _ plan.required_bundle_sets (λ x m. m)) h))
                        found).0)
            ]

-- On the plan that compaction makes, an exception of the projection is that the history is too
-- long, that the configured budget has no room for the fixed prompt, or that the projected context
-- breaks its own contract: no candidate and no path is looked up in vain.
pub project-IsProjectionError :
    (casefold sha256_hex : String → String) (config : GenerationConfig)
    (request : AnswerGenerationRequest) (validated : ValidatedEvidence) (e : Exception)
    → project config request
        (compact casefold sha256_hex request.retrieval_context validated request.composition_plan)
      ≡ err e
    → IsProjectionError e
project-IsProjectionError casefold sha256_hex config request validated e h =
    (project-Raises config request _ (
        compact-AllClosed casefold sha256_hex request.retrieval_context validated
          request.composition_plan)).at
      e h
