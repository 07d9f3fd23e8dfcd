-- ===== src/Generation/Compaction/Closed.antt =====
-- The required bundles of generation/evidence_compaction.py name retained evidence only.
use Prim.Native.String.{◌++◌}
use mathlib.Core.List.{◌++◌ as ◌⧺◌}
use legal_graphrag_platform.Base.{
  String, inl, inr, Bool, true, false, ◌||◌, Option, none, some, List, [], ◌∷◌, map, if◌then◌else◌,
  ltb, is_none, All, Bool-cases, filter, length, All-of_members, All-map, All-mono, All-append,
  All-filter, first_occurrence,
}
use legal_graphrag_platform.Base.Dict.{lookup, index_by}
use legal_graphrag_platform.Base.Sort.{sort_by, All-sort_by}
use legal_graphrag_platform.Retrieval.Models.{IntentType, RelationGoal}
use legal_graphrag_platform.Retrieval.Models.Context.{RetrievalContext}
use legal_graphrag_platform.Base.Date.{Date}
use legal_graphrag_platform.Generation.Models.Composition.{
  AnswerCompositionPlan, AnswerCompositionOperand,
}
use legal_graphrag_platform.Generation.Evidence.{
  EvidenceCandidate, ValidatedPath, ValidatedEvidence,
}
use legal_graphrag_platform.Generation.Sufficiency.{has_edge_in, citable_ids}
use legal_graphrag_platform.Generation.Compaction.{compact}
use legal_graphrag_platform.Generation.Compaction.Dedup.{candidate_id, rank_le}
use legal_graphrag_platform.Generation.Compaction.Required.{
  EvidenceBundle, bundle, first_versions, in_version_family, operand_candidate, operand_bundles,
  composition_bundles, family_bundles, amending_path, comparison_bundles, validity_bundles,
  intent_bundles, resolve_required_bundles,
}
use legal_graphrag_platform.Generation.Compaction.Bundles.{
  AllIn, All-filter_map, IsClosed, In, InPaths, AllClosed, candidates-In, paths-In, lookup-In,
  bundle-IsClosed, path_alternatives-AllClosed, relation_goal_bundles-AllClosed,
  path_bundle-AllClosed,
}

module _ (sha256_hex : String → String) (candidates : List EvidenceCandidate)
    (paths : List ValidatedPath) where
  operand_candidate-In :
      (is : List String)
      → AllIn
          (In sha256_hex candidates paths)
          (operand_candidate (index_by candidate_id candidates) is)
  unfolding operand_candidate
  operand_candidate-In [] = tt
  operand_candidate-In (id ∷ is) =
      first (lookup id (index_by candidate_id candidates))
        (lookup-In sha256_hex candidates paths id) (operand_candidate-In is)
    where
      first :
          (o : Option EvidenceCandidate)
          → AllIn (In sha256_hex candidates paths) o
          → AllIn
              (In sha256_hex candidates paths)
              (operand_candidate (index_by candidate_id candidates) is)
          → AllIn (In sha256_hex candidates paths) (elim o [
            | none ↦ operand_candidate (index_by candidate_id candidates) is
            | some c ↦
                if c.is_eligible
                then some c
                else operand_candidate (index_by candidate_id candidates) is
          ])
      first none h k = k
      first (some c) h k = elim (Bool-cases c.is_eligible) [ inl t ↦ rw t h | inr f ↦ rw f k ]

  operand_bundles-AllClosed :
      (intent : IntentType) (operands : List AnswerCompositionOperand)
      → AllIn
          (AllClosed sha256_hex candidates paths)
          (operand_bundles sha256_hex intent (index_by candidate_id candidates) operands)
  unfolding operand_bundles
  operand_bundles-AllClosed intent [] = tt
  operand_bundles-AllClosed intent (o ∷ os) =
      both (operand_candidate (index_by candidate_id candidates) o.evidence_unit_ids)
        (operand_candidate-In o.evidence_unit_ids)
        (operand_bundles sha256_hex intent (index_by candidate_id candidates) os)
        (operand_bundles-AllClosed intent os)
    where
      both :
          (c? : Option EvidenceCandidate)
          → AllIn (In sha256_hex candidates paths) c?
          → (r : Option (List EvidenceBundle)) → AllIn (AllClosed sha256_hex candidates paths) r
          → AllIn (AllClosed sha256_hex candidates paths) (elim c? [
            | none ↦ none
            | some c ↦ elim r [
              | none ↦ none
              | some bs ↦ some (bundle sha256_hex intent c [] [] [] [] (some o.operand_id) ∷ bs)
            ]
          ])
      both none h r k = tt
      both (some c) h none k = tt
      both (some c) h (some bs) k = (
        bundle-IsClosed sha256_hex candidates paths intent c [] [] [] [] (some o.operand_id) h tt
            tt,
        k,
      )

  composition_bundles-AllClosed :
      (intent : IntentType) (plan : AnswerCompositionPlan)
      → All
          (AllClosed sha256_hex candidates paths)
          (composition_bundles sha256_hex intent candidates plan)
  unfolding composition_bundles
  composition_bundles-AllClosed intent plan =
      one (operand_bundles sha256_hex intent (index_by candidate_id candidates) plan.operands)
        (operand_bundles-AllClosed intent plan.operands)
    where
      one :
          (r : Option (List EvidenceBundle))
          → AllIn (AllClosed sha256_hex candidates paths) r
          → All (AllClosed sha256_hex candidates paths) (elim r [ none ↦ [] | some bs ↦ bs ∷ [] ])
      one none h = tt
      one (some bs) h = (h, tt)

  -- Alternatives of one candidate each.
  singles-AllClosed :
      (intent : IntentType) (subjects : EvidenceCandidate → List String)
      (test : EvidenceCandidate → Bool)
      → All (AllClosed sha256_hex candidates paths) (
          map
            (λ c. bundle sha256_hex intent c [] [] (subjects c) [] none ∷ [])
            (filter test candidates))
  singles-AllClosed intent subjects test =
      All-map (AllClosed sha256_hex candidates paths) _ (filter test candidates) (
        All-mono (In sha256_hex candidates paths) _
          (λ c h. (
            bundle-IsClosed sha256_hex candidates paths intent c [] [] (subjects c) [] none h tt tt,
            tt,
          ))
          (filter test candidates)
          (All-filter (In sha256_hex candidates paths) test candidates
            (candidates-In sha256_hex candidates paths)))

  kept_or_added :
      (b : Bool) (c : EvidenceCandidate) (chosen : List EvidenceCandidate)
      → All (In sha256_hex candidates paths) chosen
      → (In sha256_hex candidates paths) c
      → All (In sha256_hex candidates paths) (if b then chosen else chosen ⧺ c ∷ [])
  kept_or_added true c chosen h k = h
  kept_or_added false c chosen h k =
      All-append (In sha256_hex candidates paths) chosen (c ∷ []) h (k, tt)

  first_versions-In :
      (cs chosen : List EvidenceCandidate)
      → All (In sha256_hex candidates paths) chosen
      → All (In sha256_hex candidates paths) cs
      → All (In sha256_hex candidates paths) (first_versions chosen cs)
  unfolding first_versions
  first_versions-In [] chosen h k = h
  first_versions-In (c ∷ cs) chosen h k =
      first_versions-In cs _ (kept_or_added (is_none c.unit.version_family_id || _) c chosen h k.0)
        k.1

  family_bundles-AllClosed :
      (versions : List EvidenceCandidate) (family : String)
      → All (In sha256_hex candidates paths) versions
      → AllIn (AllClosed sha256_hex candidates paths) (family_bundles sha256_hex versions family)
  unfolding family_bundles
  family_bundles-AllClosed versions family h =
      let members = filter (in_version_family family) versions in
      elim (Bool-cases (ltb (length members) 2)) [
        | inl t ↦ rw t tt
        | inr f ↦ rw f (
            All-map (IsClosed candidates paths) _ (sort_by rank_le members) (
              All-mono (In sha256_hex candidates paths) _
                (λ c k.
                  bundle-IsClosed sha256_hex candidates paths IntentType.comparison c [] [] []
                    ((family ++ "|" ++ c.unit.document_id) ∷ []) none k tt tt)
                (sort_by rank_le members)
                (All-sort_by rank_le (In sha256_hex candidates paths) members (
                  All-filter (In sha256_hex candidates paths) (in_version_family family) versions
                    h))))
      ]

  amending_path-AllClosed :
      (p : ValidatedPath)
      → (InPaths sha256_hex candidates paths) p
      → AllIn (AllClosed sha256_hex candidates paths) (amending_path sha256_hex candidates p)
  unfolding amending_path
  amending_path-AllClosed p q =
      elim (Bool-cases (has_edge_in ("AMENDS" ∷ "REPLACES" ∷ []) p.path)) [
        | inl t ↦ rw t (
            path_bundle-AllClosed sha256_hex candidates paths IntentType.comparison p _ q (
              All-filter_map (In sha256_hex candidates paths) (λ _. Unit {0}) _
                (λ id _. lookup-In sha256_hex candidates paths id)
                (first_occurrence (citable_ids p.path)) (All-of_members _ _ λ _ _. tt)))
        | inr f ↦ rw f tt
      ]

  comparison_bundles-AllClosed :
      All (AllClosed sha256_hex candidates paths) (comparison_bundles sha256_hex candidates paths)
  unfolding comparison_bundles
  comparison_bundles-AllClosed =
      let versions = first_versions [] candidates in
      All-append (AllClosed sha256_hex candidates paths) _ _
        (All-filter_map (AllClosed sha256_hex candidates paths) (λ _. Unit {0})
          (family_bundles sha256_hex versions)
          (λ family _.
            family_bundles-AllClosed versions family
              (first_versions-In candidates [] tt (candidates-In sha256_hex candidates paths)))
          _ (All-of_members _ _ λ _ _. tt))
        (All-filter_map (AllClosed sha256_hex candidates paths)
          (InPaths sha256_hex candidates paths) (amending_path sha256_hex candidates)
          amending_path-AllClosed paths (paths-In sha256_hex candidates paths))

  validity_bundles-AllClosed :
      (context : RetrievalContext) (o : Option Date)
      → All
          (AllClosed sha256_hex candidates paths)
          (validity_bundles sha256_hex context o candidates)
  unfolding validity_bundles
  validity_bundles-AllClosed context none = tt
  validity_bundles-AllClosed context (some query_date) =
      singles-AllClosed IntentType.validity (λ c. c.unit.id ∷ []) _

  intent_bundles-AllClosed :
      (context : RetrievalContext) (intent : IntentType)
      → All
          (AllClosed sha256_hex candidates paths)
          (intent_bundles sha256_hex context intent candidates paths)
  unfolding intent_bundles
  intent_bundles-AllClosed context IntentType.factual =
      singles-AllClosed IntentType.factual (λ _. []) _
  intent_bundles-AllClosed context IntentType.definition =
      singles-AllClosed IntentType.definition (λ _. []) _
  intent_bundles-AllClosed context IntentType.hierarchy =
      path_alternatives-AllClosed sha256_hex candidates paths _ IntentType.hierarchy
  intent_bundles-AllClosed context IntentType.multi_hop =
      path_alternatives-AllClosed sha256_hex candidates paths (λ _. true) IntentType.multi_hop
  intent_bundles-AllClosed context IntentType.validity =
      validity_bundles-AllClosed context context.temporal.resolved_from
  intent_bundles-AllClosed context IntentType.comparison = comparison_bundles-AllClosed

  resolve_required_bundles-AllClosed :
      (context : RetrievalContext) (plan : Option AnswerCompositionPlan)
      (goal : Option RelationGoal)
      → All
          (AllClosed sha256_hex candidates paths)
          (resolve_required_bundles sha256_hex context candidates paths plan goal)
  unfolding resolve_required_bundles
  resolve_required_bundles-AllClosed context (some plan) goal =
      composition_bundles-AllClosed context.intent plan
  resolve_required_bundles-AllClosed context none (some goal) =
      relation_goal_bundles-AllClosed sha256_hex candidates paths context goal
  resolve_required_bundles-AllClosed context none none =
      intent_bundles-AllClosed context context.intent

-- Whatever the intent, the composition plan and the relation goal, every bundle that a compaction
-- plan requires names retained candidates and paths of the plan only.
pub compact-AllClosed :
    (casefold sha256_hex : String → String) (context : RetrievalContext)
    (validated : ValidatedEvidence) (plan : Option AnswerCompositionPlan)
    → All
        (All (
          IsClosed
            (compact casefold sha256_hex context validated plan).candidates
            (compact casefold sha256_hex context validated plan).paths))
        (compact casefold sha256_hex context validated plan).required_bundle_sets
unfolding compact
compact-AllClosed casefold sha256_hex context validated plan =
    let compacted = compact casefold sha256_hex context validated plan in
    resolve_required_bundles-AllClosed sha256_hex compacted.candidates compacted.paths context
      compacted.composition_plan context.relation_goal
