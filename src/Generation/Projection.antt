-- ===== src/Generation/Projection.antt =====
-- src/generation/context_projection.py: the first alternative of required evidence that fits the budget
-- is chosen, and the rest of the candidates are added while they fit.
pub mod Selecting
pub mod Payload
pub mod Request
pub mod Choice
pub mod Admission
pub mod Budget
pub mod Coverage
pub mod Failures
use Prim.Native.Nat.{min}
use Prim.Native.String.{◌++◌}
use mathlib.Core.List.{◌++◌ as ◌⧺◌}
use legal_graphrag_platform.Base.{
  find?, first_occurrence, ℕ, zero, suc, ◌+◌, ◌-◌, ◌≤◌, ◌<◌, String, ◌≡◌, refl, sym, ap, ◌∙◌, ◌≢◌,
  ◌⊎◌, inl, inr, Bool, true, false, not, ◌&&◌, ◌||◌, Option, none, some, List, [], ◌∷◌, map,
  if◌then◌else◌, leb, ltb, eqb, is_some, is_none, is_empty, contains, unique, All, Member, arith,
  flat_map, ◌==◌, Bool-cases, eq_iff, eq_refl, any, all, filter, subset, length,
}
use legal_graphrag_platform.Base.Result.{
  key_error, context_budget_configuration_error, answer_request_error, Result, ok, err, raise,
  fail_if, of_option, ◌>>=◌, ◌>>◌, traverse, >>=-eq-ok, of_option-bind-ok, guard-bind-ok, ok_inj,
}
use legal_graphrag_platform.Base.Text.{text_length, text_leb, texts_leb}
use legal_graphrag_platform.Base.Date.{Date, isoformat}
use legal_graphrag_platform.Base.Dict.{Dict, lookup, index_by}
use legal_graphrag_platform.Base.Sort.{sort_by}
use legal_graphrag_platform.Retrieval.Models.{
  IntentType, IntentType, IntentType, IntentType, IntentType, IntentType, IntentType, IntentType,
  IntentType, IntentType, IntentType, IntentType, IntentType, IntentType, intent_value,
  strategy_value, temporal_source_value, relation_goal_value, RetrievedUnit, RelationGoal,
  GraphPath,
}
use legal_graphrag_platform.Retrieval.Models.Context.{RetrievalContext}
use legal_graphrag_platform.Generation.Models.{AnswerGenerationRequest, GenerationHistoryMessage}
use legal_graphrag_platform.Generation.Models.Composition.{
  AnswerCompositionPlan, AnswerCompositionOperand,
}
use legal_graphrag_platform.Generation.Models.Projected.{
  ContextBudgetPlan, EvidenceRegistry, LegalEvidenceBlock, OmittedEvidence, OmissionReason,
  is_budget_omission, ProjectedAnswerContext, ProjectedPathBlock, validate_projection,
  validate_registry,
}
use legal_graphrag_platform.Generation.Evidence.{EvidenceCandidate, ValidatedPath}
use legal_graphrag_platform.Generation.Compaction.{CompactionPlan}
use legal_graphrag_platform.Generation.Compaction.Dedup.{rank_le, candidate_id}
use legal_graphrag_platform.Generation.Compaction.Required.{EvidenceBundle}
use legal_graphrag_platform.Generation.Projection.Payload.{
  to_evidence, to_path, evidence_cost, path_cost, fixed_overhead,
}
use legal_graphrag_platform.Generation.Projection.Selecting.{
  Selection, over_budget, admit_step, admit_all,
}

-- The fields of generation/config.py that the projector reads.
pub record GenerationConfig : Type 0 where
  pub context_max_chars : ℕ
  pub context_safety_reserve_chars : ℕ
  pub history_max_messages : ℕ
  pub history_max_chars : ℕ

pub record ProjectionResult : Type 0 where
  pub projected : Option ProjectedAnswerContext
  pub reason_code : Option String
  pub reason : Option String

abbrev pub sum : List ℕ → ℕ
sum [] = 0
sum (n ∷ ns) = n + sum ns

-- `_validate_history`
unfoldable pub validate_history :
    GenerationConfig → List GenerationHistoryMessage → Result (Unit {0})
validate_history config history = do
  fail_if (ltb config.history_max_messages (length history)) answer_request_error
      "Conversation history exceeds message limit"
  fail_if (ltb config.history_max_chars (sum (map (λ m. text_length m.content) history)))
      answer_request_error "Conversation history exceeds character limit"

-- A set of required bundles with its units, its paths and its cost.
pub record Alternative : Type 0 where
  pub bundle_set : List EvidenceBundle
  pub unit_ids : List String
  pub path_ids : List String
  pub cost : ℕ

-- `d[k]` for each key: the first missing one is a `KeyError`.
unfoldable pub need_all : {V : Type 0} → Dict V → List String → Result (List V)
unfolding lookup
need_all d ids = traverse (λ id. of_option (lookup id d) key_error id) ids

unfoldable pub cost_of : List EvidenceCandidate → List ValidatedPath → ℕ
unfolding evidence_cost path_cost
cost_of candidates paths =
    sum (map (λ c. evidence_cost (to_evidence c.unit)) candidates)
    + sum (map (λ p. path_cost (to_path p)) paths)

-- The body of the loop over `plan.required_bundle_sets`.
unfoldable pub price :
    Dict EvidenceCandidate → Dict ValidatedPath → List EvidenceBundle → Result Alternative
unfolding first_occurrence need_all cost_of
price candidates paths bundle_set = do
  let unit_ids = first_occurrence (flat_map (λ b. b.unit_ids) bundle_set)
  let path_ids = first_occurrence (flat_map (λ b. b.path_ids) bundle_set)
  units ← need_all candidates unit_ids
  ways ← need_all paths path_ids
  ok (record {
    bundle_set = bundle_set;
    unit_ids = unit_ids;
    path_ids = path_ids;
    cost = cost_of units ways;
  })

-- Python's `min` raises for no bundles, which no alternative has.
least_rank : List EvidenceBundle → ℕ
least_rank [] = 0
least_rank (b ∷ []) = b.source_rank
least_rank (b ∷ c ∷ rest) = min b.source_rank (least_rank (c ∷ rest))

-- The sort key: least rank, cost, bundle identifiers.
unfoldable pub alternative_le : Alternative → Alternative → Bool
unfolding least_rank texts_leb
alternative_le a b =
    let ra = least_rank a.bundle_set in
    let rb = least_rank b.bundle_set in
    ltb ra rb
    || eqb ra rb
      && (ltb a.cost b.cost
          || eqb a.cost b.cost
            && texts_leb (map (λ x. x.bundle_id) a.bundle_set)
                (map (λ x. x.bundle_id) b.bundle_set))

-- `_project_composition_plan`
unfoldable pub project_composition_plan :
    Option AnswerCompositionPlan → List String → Option AnswerCompositionPlan
project_composition_plan none selected = none
project_composition_plan (some plan) selected = some (record {
  operands =
      map
        (λ (o : AnswerCompositionOperand). record o {
          evidence_unit_ids = filter (contains selected) o.evidence_unit_ids;
        })
        plan.operands;
})

-- The selection that the chosen alternative starts from, and all that is added to it.
unfoldable pub select_evidence :
    ℕ → CompactionPlan → Alternative → List EvidenceCandidate → Selection
unfolding admit_all sort_by rank_le
select_evidence budget plan chosen units =
    admit_all budget
      (record {
        selected = chosen.unit_ids;
        evidence = map (λ c. to_evidence c.unit) units;
        omitted = plan.omitted_evidence;
        used = chosen.cost;
      })
      (sort_by rank_le plan.candidates)

abbrev goal_value : Option RelationGoal → Option String
unfolding relation_goal_value
goal_value none = none
goal_value (some goal) = some (relation_goal_value goal)

-- The projected context of a selection, before its validator runs.
unfoldable pub projected_context :
    GenerationConfig
    → AnswerGenerationRequest
    → CompactionPlan
    → ℕ
    → ℕ
    → Alternative
    → List ValidatedPath
    → Selection
    → ProjectedAnswerContext
unfolding project_composition_plan intent_value strategy_value temporal_source_value goal_value
projected_context config request plan overhead budget chosen ways s =
    let context = request.retrieval_context in
    record {
      query = request.query;
      intent = intent_value context.intent;
      strategy = strategy_value context.strategy;
      temporal_source = temporal_source_value context.temporal_source;
      resolved_from = context.temporal.resolved_from;
      resolved_to = context.temporal.resolved_to;
      relation_goal = goal_value context.relation_goal;
      anchor_node_ids = map (λ r. r.node_id) context.resolved_references;
      composition_plan = project_composition_plan plan.composition_plan s.selected;
      evidence = s.evidence;
      paths = map to_path ways;
      admitted_bundle_ids = map (λ b. b.bundle_id) chosen.bundle_set;
      selected_unit_ids = s.selected;
      omitted_evidence = s.omitted;
      budget = record {
        total_chars = config.context_max_chars;
        fixed_overhead_chars = overhead;
        evidence_budget_chars = budget;
        safety_reserve_chars = config.context_safety_reserve_chars;
        used_evidence_chars = s.used;
      };
      truncated = any (λ o. is_budget_omission o.reason) s.omitted;
    }

-- From the chosen alternative on.
unfoldable pub project_chosen :
    GenerationConfig
    → AnswerGenerationRequest
    → CompactionPlan
    → ℕ
    → ℕ
    → Option Alternative
    → Result ProjectionResult
unfolding need_all index_by select_evidence projected_context validate_projection
project_chosen config request plan overhead budget none = ok (record {
  projected = none;
  reason_code = some "REQUIRED_EVIDENCE_EXCEEDS_CONTEXT_BUDGET";
  reason = some "Bộ chứng cứ bắt buộc vượt quá ngân sách ngữ cảnh.";
})
project_chosen config request plan overhead budget (some chosen) = do
  units ← need_all (index_by candidate_id plan.candidates) chosen.unit_ids
  ways ← need_all (index_by (λ p. p.path_id) plan.paths) chosen.path_ids
  projected ← validate_projection (
      projected_context config request plan overhead budget chosen ways
        (select_evidence budget plan chosen units))
  ok (record { projected = some projected; reason_code = none; reason = none })

-- `evidence_budget`; on the numbers from 0 up, `evidence_budget <= 0` is that it is 0.
abbrev pub evidence_budget : GenerationConfig → ℕ → ℕ
evidence_budget config overhead =
    config.context_max_chars - config.context_safety_reserve_chars - overhead

-- `ContextProjector.project`
unfoldable pub project :
    GenerationConfig → AnswerGenerationRequest → CompactionPlan → Result ProjectionResult
unfolding validate_history fixed_overhead price index_by sort_by alternative_le project_chosen
project config request plan = do
  validate_history config request.conversation_history
  let overhead = fixed_overhead request
  let budget = evidence_budget config overhead
  fail_if (eqb budget 0) context_budget_configuration_error
      "Answer context budget cannot contain fixed prompt overhead"
  alternatives ←
      traverse
        (price (index_by candidate_id plan.candidates) (index_by (λ p. p.path_id) plan.paths))
        plan.required_bundle_sets
  let chosen = find? (λ a. leb a.cost budget) (sort_by alternative_le alternatives)
  if is_empty plan.required_bundle_sets
      then ok (record {
        projected = none;
        reason_code = some "PROJECTED_EVIDENCE_INSUFFICIENT";
        reason = some "Không xác định được bộ chứng cứ bắt buộc hoàn chỉnh.";
      })
      else project_chosen config request plan overhead budget chosen

-- `build_registry`
unfoldable pub build_registry : ProjectedAnswerContext → Result EvidenceRegistry
unfolding validate_registry
build_registry projected = validate_registry (record {
  entries = projected.evidence;
  allowed_citation_ids = projected.selected_unit_ids;
  allowed_path_ids = map (λ p. p.path_id) projected.paths;
})
