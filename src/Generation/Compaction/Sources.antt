-- ===== src/Generation/Compaction/Sources.antt =====
-- Compaction adds no candidate.
use legal_graphrag_platform.Base.{String, Option, none, some, List, contains, All, All-filter}
use legal_graphrag_platform.Retrieval.Models.{IntentType}
use legal_graphrag_platform.Retrieval.Models.Context.{RetrievalContext}
use legal_graphrag_platform.Generation.Models.{assigned_ids}
use legal_graphrag_platform.Generation.Models.Composition.{AnswerCompositionPlan}
use legal_graphrag_platform.Generation.Evidence.{EvidenceCandidate, ValidatedEvidence}
use legal_graphrag_platform.Generation.Compaction.{source_candidates, compact}
use legal_graphrag_platform.Generation.Compaction.Partition.{All-deduplicate}

module _ {κ} (P : EvidenceCandidate → Type κ) where
  All-source_candidates :
      (intent : IntentType) (plan : Option AnswerCompositionPlan) (protected : List String)
      (candidates : List EvidenceCandidate)
      → All P candidates
      → All P (source_candidates intent plan protected candidates)
  unfolding source_candidates
  All-source_candidates IntentType.factual none protected cs h = h
  All-source_candidates IntentType.validity none protected cs h = h
  All-source_candidates IntentType.hierarchy none protected cs h = h
  All-source_candidates IntentType.comparison none protected cs h = h
  All-source_candidates IntentType.definition none protected cs h = h
  All-source_candidates IntentType.multi_hop none protected cs h = All-filter P _ cs h
  All-source_candidates intent (some plan) protected cs h =
      All-filter P (λ c. contains (assigned_ids plan) c.unit.id) cs h

  pub All-compact :
      (casefold sha256_hex : String → String) (context : RetrievalContext)
      (validated : ValidatedEvidence) (plan : Option AnswerCompositionPlan)
      → All P validated.candidates
      → All P (compact casefold sha256_hex context validated plan).candidates
  unfolding compact
  All-compact casefold sha256_hex context validated plan h =
      All-deduplicate casefold _ P _ (All-source_candidates context.intent plan _ _ h)
