-- ===== src/Generation/Compaction.antt =====
-- src/generation/evidence_compaction.py: duplicates are dropped (`Dedup`), and the alternatives of
-- required evidence are listed by intent (`Required`).
pub mod Dedup
pub mod Partition
pub mod Sources
pub mod Bundles
pub mod Closed
pub mod Required
use Prim.Native.Nat.{min}
use Prim.Native.String.{◌++◌}
use mathlib.Core.List.{◌++◌ as ◌⧺◌}
use legal_graphrag_platform.Base.{
  filter_map, first_occurrence, ℕ, zero, suc, ◌+◌, ◌-◌, ◌≤◌, ◌<◌, String, ◌≡◌, refl, sym, ap, ◌∙◌,
  ◌≢◌, ◌⊎◌, inl, inr, Bool, true, false, not, ◌&&◌, ◌||◌, Option, none, some, List, [], ◌∷◌, map,
  if◌then◌else◌, leb, ltb, eqb, is_some, is_none, is_empty, contains, unique, All, Member, arith,
  flat_map, ◌==◌, Bool-cases, eq_iff, eq_refl, any, all, filter, subset, length,
}
use legal_graphrag_platform.Base.Result.{
  Result, ok, err, raise, fail_if, of_option, ◌>>=◌, ◌>>◌, traverse, >>=-eq-ok, of_option-bind-ok,
  guard-bind-ok, ok_inj,
}
use legal_graphrag_platform.Base.Text.{strip, collapse_whitespace, text_take, text_leb}
use legal_graphrag_platform.Base.Date.{Date}
use legal_graphrag_platform.Base.Dict.{Dict, lookup, insert, index_by}
use legal_graphrag_platform.Base.Sort.{sort_by}
use legal_graphrag_platform.Base.Json.{
  str, arr, obj, end, field, strings, opt_str, compact_ascii, dumps,
}
use legal_graphrag_platform.Retrieval.Models.{
  IntentType, intent_value, RetrievedUnit, GraphPath, RelationGoal, relation_goal_value,
  is_valid_on, PlanExecutionResult,
}
use legal_graphrag_platform.Retrieval.Models.Context.{RetrievalContext}
use legal_graphrag_platform.Generation.Models.{assigned_ids}
use legal_graphrag_platform.Generation.Models.Composition.{
  AnswerCompositionPlan, AnswerCompositionOperand,
}
use legal_graphrag_platform.Generation.Models.Projected.{OmittedEvidence, OmissionReason}
use legal_graphrag_platform.Generation.Evidence.{
  EvidenceCandidate, ValidatedPath, ValidatedEvidence,
}
use legal_graphrag_platform.Generation.Sufficiency.{anchor_ids, citable_ids, has_edge_in}
use legal_graphrag_platform.Generation.Compaction.Dedup.{deduplicate, normalize_composition_plan}
use legal_graphrag_platform.Generation.Compaction.Required.{
  EvidenceBundle, resolve_required_bundles,
}

pub record CompactionPlan : Type 0 where
  pub candidates : List EvidenceCandidate
  pub paths : List ValidatedPath
  pub authoritative_path_ids : List String
  pub required_bundle_sets : List (List EvidenceBundle)
  pub omitted_evidence : List OmittedEvidence
  pub composition_plan : Option AnswerCompositionPlan

-- `_authoritative_paths`
unfoldable pub authoritative_paths :
    IntentType → Option PlanExecutionResult → List ValidatedPath → List ValidatedPath × List String
authoritative_paths IntentType.multi_hop none paths = ([], [])
authoritative_paths IntentType.multi_hop (some execution) paths = (
  filter (λ p. contains execution.satisfied_path_fingerprints p.path_id) paths,
  execution.satisfied_path_fingerprints,
)
authoritative_paths _ _ paths = (paths, [])

-- The candidates that compaction starts from.
unfoldable pub source_candidates :
    IntentType
    → Option AnswerCompositionPlan
    → List String
    → List EvidenceCandidate
    → List EvidenceCandidate
unfolding assigned_ids
source_candidates intent (some plan) protected candidates =
    filter (λ c. contains (assigned_ids plan) c.unit.id) candidates
source_candidates IntentType.multi_hop none protected candidates =
    filter (λ c. contains protected c.unit.id) candidates
source_candidates _ none protected candidates = candidates

-- `EvidenceCompactor.compact`
unfoldable pub compact :
    (String → String)
    → (String → String)
    → RetrievalContext
    → ValidatedEvidence
    → Option AnswerCompositionPlan
    → CompactionPlan
unfolding authoritative_paths citable_ids source_candidates deduplicate normalize_composition_plan
    resolve_required_bundles
compact casefold sha256_hex context validated composition_plan =
    let (paths, authoritative) =
      authoritative_paths context.intent context.plan_execution validated.paths in
    let protected = flat_map (λ (p : ValidatedPath). citable_ids p.path) paths in
    let source = source_candidates context.intent composition_plan protected validated.candidates in
    let (candidates, omissions) = deduplicate casefold protected source in
    let normalized = normalize_composition_plan composition_plan omissions in
    record {
      candidates = candidates;
      paths = paths;
      authoritative_path_ids = authoritative;
      required_bundle_sets =
          resolve_required_bundles sha256_hex context candidates paths normalized
            context.relation_goal;
      omitted_evidence = omissions;
      composition_plan = normalized;
    }
