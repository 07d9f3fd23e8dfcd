-- ===== src/Generation/Compaction/Partition.antt =====
-- `_deduplicate` of generation/evidence_compaction.py splits its candidates in two.
use mathlib.Core.List.{◌++◌ as ◌⧺◌, Perm}
use mathlib.Core.List.Perm
use legal_graphrag_platform.Base.{
  String, ◌≡◌, inl, inr, true, false, Option, none, some, List, [], ◌∷◌, map, contains, All,
  Bool-cases, find?, All-append,
}
use legal_graphrag_platform.Generation.Models.Projected.{OmittedEvidence}
use legal_graphrag_platform.Generation.Evidence.{EvidenceCandidate}
use legal_graphrag_platform.Generation.Compaction.Dedup.{
  candidate_id, DedupState, same_key, omission_of, dedup_step, dedup_all, deduplicate, rank_le,
}
use legal_graphrag_platform.Base.Sort.{sort_by, All-sort_by}

abbrev pub ids : List EvidenceCandidate → List String
ids cs = map candidate_id cs

abbrev pub omitted_ids : List OmittedEvidence → List String
omitted_ids os = map (λ o. o.unit_id) os

-- An omission is of an unprotected candidate whose key an earlier, retained one has.
pub record IsDuplicate (casefold : String → String) (protected retained : List String)
    (o : OmittedEvidence) : Type 0 where
  pub candidate : EvidenceCandidate
  pub existing : EvidenceCandidate
  pub unprotected : contains protected candidate.unit.id ≡ false
  pub alike : same_key casefold candidate existing ≡ true
  pub kept : contains retained existing.unit.id ≡ true
  pub recorded : o ≡ omission_of casefold existing candidate

module _ (casefold : String → String) (protected : List String) where
  pub record Partition (source : List String) (s : DedupState) : Type 0 where
    pub whole : Perm (ids s.retained ⧺ omitted_ids s.omissions) source
    pub known : All (λ e. contains (ids s.retained) e.unit.id ≡ true) s.seen
    pub duplicates : All (IsDuplicate casefold protected (ids s.retained)) s.omissions

  dedup_step-All {κ} :
      (P : EvidenceCandidate → Type κ) (s : DedupState) (c : EvidenceCandidate)
      → P c
      → All P s.retained
      → All P (dedup_step casefold protected s c).retained
  unfolding dedup_step
  dedup_step-All P s c p k = elim (Bool-cases (contains protected c.unit.id)) [
    | inl h ↦ rw h (All-append P s.retained (c ∷ []) k (p, tt))
    | inr h ↦ rw h (unprotected_step (find? (same_key casefold c) s.seen))
  ]
    where
      unprotected_step :
          (o : Option EvidenceCandidate)
          → All P
              (elim o as (λ _. DedupState) [
                | some existing ↦ record s {
                  omissions = s.omissions ⧺ omission_of casefold existing c ∷ [];
                }
                | none ↦ record {
                  retained = s.retained ⧺ c ∷ [];
                  omissions = s.omissions;
                  seen = s.seen ⧺ c ∷ [];
                }
              ]).retained
      unprotected_step none = All-append P s.retained (c ∷ []) k (p, tt)
      unprotected_step (some existing) = k

  dedup_all-All {κ} :
      (P : EvidenceCandidate → Type κ) (cs : List EvidenceCandidate) (s : DedupState)
      → All P cs
      → All P s.retained
      → All P (dedup_all casefold protected s cs).retained
  unfolding dedup_all
  dedup_all-All P [] s h k = k
  dedup_all-All P (c ∷ cs) s h k =
      dedup_all-All P cs (dedup_step casefold protected s c) h.1 (dedup_step-All P s c h.0 k)

  -- All that is retained was given.
  pub All-deduplicate {κ} :
      (P : EvidenceCandidate → Type κ) (candidates : List EvidenceCandidate)
      → All P candidates
      → All P (deduplicate casefold protected candidates).0
  unfolding deduplicate
  All-deduplicate P candidates h =
      dedup_all-All P (sort_by rank_le candidates)
        (record { retained = []; omissions = []; seen = [] }) (All-sort_by rank_le P candidates h)
        tt
