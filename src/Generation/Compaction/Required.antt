-- ===== src/Generation/Compaction/Required.antt =====
-- `_resolve_required_bundles` of generation/evidence_compaction.py
use Prim.Native.Nat.{min}
use Prim.Native.String.{◌++◌}
use mathlib.Core.List.{◌++◌ as ◌⧺◌}
use legal_graphrag_platform.Base.{
  filter_map, first_occurrence, ℕ, String, Bool, true, false, ◌&&◌, ◌||◌, Option, none, some, List,
  [], ◌∷◌, map, if◌then◌else◌, ltb, is_some, is_none, is_empty, contains, ◌==◌, any, filter, length,
}
use legal_graphrag_platform.Base.Text.{text_take, text_leb}
use legal_graphrag_platform.Base.Date.{Date}
use legal_graphrag_platform.Base.Dict.{Dict, lookup, index_by}
use legal_graphrag_platform.Base.Sort.{sort_by}
use legal_graphrag_platform.Base.Json.{
  str, arr, obj, end, field, strings, opt_str, compact_ascii, dumps,
}
use legal_graphrag_platform.Retrieval.Models.{
  IntentType, intent_value, RelationGoal, relation_goal_value, is_valid_on,
}
use legal_graphrag_platform.Retrieval.Models.Context.{RetrievalContext}
use legal_graphrag_platform.Generation.Models.Composition.{
  AnswerCompositionPlan, AnswerCompositionOperand,
}
use legal_graphrag_platform.Generation.Evidence.{EvidenceCandidate, ValidatedPath}
use legal_graphrag_platform.Generation.Sufficiency.{anchor_ids, citable_ids, has_edge_in}
use legal_graphrag_platform.Generation.Compaction.Dedup.{candidate_id, rank_le, same_option}

pub record EvidenceBundle : Type 0 where
  pub bundle_id : String
  pub intent : IntentType
  pub unit_ids : List String
  pub path_ids : List String
  pub temporal_subject_ids : List String
  pub version_keys : List String
  pub source_rank : ℕ
  pub operand_id : Option String

min_rank : EvidenceCandidate → List EvidenceCandidate → ℕ
min_rank c [] = c.rank
min_rank c (d ∷ ds) = min c.rank (min_rank d ds)

-- `_is_validity_subject_candidate`
unfoldable pub is_validity_subject : Date → List String → EvidenceCandidate → Bool
unfolding is_valid_on
is_validity_subject query_date subjects c =
    c.is_eligible
    && (if is_empty subjects
        then is_valid_on c.unit.effective_from c.unit.effective_to query_date
        else contains subjects c.unit.id && is_some c.unit.effective_from)

-- The candidates of a path's citable units, if every one is retained.
unfoldable pub all_found : Dict EvidenceCandidate → List String → Option (List EvidenceCandidate)
unfolding lookup
all_found by_id [] = some []
all_found by_id (id ∷ ids) = elim (lookup id by_id) [
  | none ↦ none
  | some c ↦ elim (all_found by_id ids) [ none ↦ none | some cs ↦ some (c ∷ cs) ]
]

-- The first candidate of each version: family and document.
unfoldable pub first_versions :
    List EvidenceCandidate → List EvidenceCandidate → List EvidenceCandidate
first_versions chosen [] = chosen
first_versions chosen (c ∷ cs) =
    let known =
      any
        (λ d.
          same_option c.unit.version_family_id d.unit.version_family_id
          && d.unit.document_id == c.unit.document_id)
        chosen in
    first_versions (if is_none c.unit.version_family_id || known then chosen else chosen ⧺ c ∷ [])
      cs

unfoldable pub in_version_family : String → EvidenceCandidate → Bool
in_version_family family c = elim c.unit.version_family_id [ none ↦ false | some f ↦ f == family ]

-- An operand's first retained and eligible candidate, in the operand's order.
unfoldable pub operand_candidate : Dict EvidenceCandidate → List String → Option EvidenceCandidate
unfolding lookup
operand_candidate by_id [] = none
operand_candidate by_id (id ∷ ids) =
    let rest = operand_candidate by_id ids in
    elim (lookup id by_id) [ none ↦ rest | some c ↦ if c.is_eligible then some c else rest ]

-- `sha256_hex` is the hash of the bundle's text.
module _ (sha256_hex : String → String) where
  -- `_bundle`, of a first candidate and the others
  unfoldable pub bundle :
      IntentType
      → EvidenceCandidate
      → List EvidenceCandidate
      → List ValidatedPath
      → List String
      → List String
      → Option String
      → EvidenceBundle
  unfolding first_occurrence intent_value dumps text_take min_rank
  bundle intent c cs paths subjects versions operand =
      let unit_ids = first_occurrence (map candidate_id (c ∷ cs)) in
      let path_ids = first_occurrence (map (λ (p : ValidatedPath). p.path_id) paths) in
      let projection = obj (
        field "intent" (str (intent_value intent)) (
          field "operand_id" (opt_str operand) (
            field "path_ids" (arr (strings path_ids)) (
              field "temporal_subject_ids" (arr (strings subjects)) (
                field "unit_ids" (arr (strings unit_ids))
                  (field "version_keys" (arr (strings versions)) end)))))) in
      record {
        bundle_id = "bundle_" ++ text_take 20 (sha256_hex (dumps compact_ascii projection));
        intent = intent;
        unit_ids = unit_ids;
        path_ids = path_ids;
        temporal_subject_ids = subjects;
        version_keys = versions;
        source_rank = min_rank c cs;
        operand_id = operand;
      }

  -- An alternative with one bundle: a path and at least two candidates.
  unfoldable pub path_bundle :
      IntentType → ValidatedPath → List EvidenceCandidate → Option (List EvidenceBundle)
  unfolding bundle
  path_bundle intent path (c ∷ d ∷ ds) = some (bundle intent c (d ∷ ds) (path ∷ []) [] [] none ∷ [])
  path_bundle intent path _ = none

  unfoldable pub complete_path :
      IntentType → ValidatedPath → Option (List EvidenceCandidate) → Option (List EvidenceBundle)
  unfolding path_bundle
  complete_path intent path none = none
  complete_path intent path (some cs) = path_bundle intent path cs

  -- The alternatives of the paths that pass a test and whose citable units are all retained.
  unfoldable pub path_alternatives :
      (ValidatedPath → Bool)
      → IntentType
      → List EvidenceCandidate
      → List ValidatedPath
      → List (List EvidenceBundle)
  unfolding complete_path all_found first_occurrence citable_ids index_by
  path_alternatives test intent candidates paths =
      filter_map
        (λ p.
          if test p
          then complete_path intent p
              (all_found (index_by candidate_id candidates) (first_occurrence (citable_ids p.path)))
          else none)
        paths

  -- `_relation_goal_bundles`
  unfoldable pub relation_goal_bundles :
      RetrievalContext
      → RelationGoal
      → List EvidenceCandidate
      → List ValidatedPath
      → List (List EvidenceBundle)
  unfolding path_alternatives relation_goal_value
  relation_goal_bundles context goal candidates paths =
      path_alternatives
        (λ p.
          any
            (λ e.
              e.relation_type == relation_goal_value goal
              && contains (anchor_ids context) e.source_id)
            p.path.edges)
        context.intent candidates paths

  unfoldable pub operand_bundles :
      IntentType
      → Dict EvidenceCandidate
      → List AnswerCompositionOperand
      → Option (List EvidenceBundle)
  unfolding operand_candidate bundle
  operand_bundles intent by_id [] = some []
  operand_bundles intent by_id (o ∷ os) = elim (operand_candidate by_id o.evidence_unit_ids) [
    | none ↦ none
    | some c ↦ elim (operand_bundles intent by_id os) [
      | none ↦ none
      | some bs ↦ some (bundle intent c [] [] [] [] (some o.operand_id) ∷ bs)
    ]
  ]

  -- `_composition_bundles`
  unfoldable pub composition_bundles :
      IntentType → List EvidenceCandidate → AnswerCompositionPlan → List (List EvidenceBundle)
  unfolding operand_bundles index_by
  composition_bundles intent candidates plan =
      elim (operand_bundles intent (index_by candidate_id candidates) plan.operands) [
        | none ↦ []
        | some bs ↦ bs ∷ []
      ]

  abbrev pub single : IntentType → EvidenceCandidate → List EvidenceBundle
  single intent c = bundle intent c [] [] [] [] none ∷ []

  -- The alternatives of a family with at least two versions.
  unfoldable pub family_bundles : List EvidenceCandidate → String → Option (List EvidenceBundle)
  unfolding bundle sort_by rank_le in_version_family
  family_bundles versions family =
      let members = filter (in_version_family family) versions in
      if ltb (length members) 2
      then none
      else some (
          map
            (λ c.
              bundle IntentType.comparison c [] [] [] ((family ++ "|" ++ c.unit.document_id) ∷ [])
                none)
            (sort_by rank_le members))

  -- A path with an amending edge and at least two retained citable units.
  unfoldable pub amending_path :
      List EvidenceCandidate → ValidatedPath → Option (List EvidenceBundle)
  unfolding path_bundle first_occurrence citable_ids lookup index_by
  amending_path candidates path =
      if has_edge_in ("AMENDS" ∷ "REPLACES" ∷ []) path.path
      then path_bundle IntentType.comparison path (
          filter_map (λ id. lookup id (index_by candidate_id candidates))
            (first_occurrence (citable_ids path.path)))
      else none

  -- The branch of `comparison`.
  unfoldable pub comparison_bundles :
      List EvidenceCandidate → List ValidatedPath → List (List EvidenceBundle)
  unfolding first_versions family_bundles amending_path sort_by text_leb first_occurrence
  comparison_bundles candidates paths =
      let versions = first_versions [] candidates in
      let families = sort_by text_leb (
        first_occurrence
          (filter_map (λ (c : EvidenceCandidate). c.unit.version_family_id) versions)) in
      filter_map (family_bundles versions) families ⧺ filter_map (amending_path candidates) paths

  unfoldable pub validity_bundles :
      RetrievalContext → Option Date → List EvidenceCandidate → List (List EvidenceBundle)
  unfolding bundle is_validity_subject
  validity_bundles context none candidates = []
  validity_bundles context (some query_date) candidates =
      map (λ c. bundle IntentType.validity c [] [] (c.unit.id ∷ []) [] none ∷ [])
        (filter (is_validity_subject query_date (anchor_ids context)) candidates)

  unfoldable pub intent_bundles :
      RetrievalContext
      → IntentType
      → List EvidenceCandidate
      → List ValidatedPath
      → List (List EvidenceBundle)
  unfolding path_alternatives comparison_bundles validity_bundles bundle
  intent_bundles context IntentType.factual candidates paths =
      map (single IntentType.factual) (filter (λ c. c.is_eligible) candidates)
  intent_bundles context IntentType.definition candidates paths =
      map (single IntentType.definition) (filter (λ c. c.is_eligible) candidates)
  intent_bundles context IntentType.hierarchy candidates paths =
      path_alternatives (λ p. has_edge_in ("CONTAINS" ∷ []) p.path) IntentType.hierarchy candidates
        paths
  intent_bundles context IntentType.multi_hop candidates paths =
      path_alternatives (λ p. true) IntentType.multi_hop candidates paths
  intent_bundles context IntentType.validity candidates paths =
      validity_bundles context context.temporal.resolved_from candidates
  intent_bundles context IntentType.comparison candidates paths =
      comparison_bundles candidates paths

  -- `_resolve_required_bundles`
  unfoldable pub resolve_required_bundles :
      RetrievalContext
      → List EvidenceCandidate
      → List ValidatedPath
      → Option AnswerCompositionPlan
      → Option RelationGoal
      → List (List EvidenceBundle)
  unfolding composition_bundles relation_goal_bundles intent_bundles
  resolve_required_bundles context candidates paths (some plan) goal =
      composition_bundles context.intent candidates plan
  resolve_required_bundles context candidates paths none (some goal) =
      relation_goal_bundles context goal candidates paths
  resolve_required_bundles context candidates paths none none =
      intent_bundles context context.intent candidates paths
