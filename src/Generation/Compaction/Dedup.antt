-- ===== src/Generation/Compaction/Dedup.antt =====
-- `_deduplicate` and `_normalize_composition_plan` of generation/evidence_compaction.py
use mathlib.Core.List.{◌++◌ as ◌⧺◌}
use legal_graphrag_platform.Base.{
  find?, first_occurrence, String, Bool, true, false, ◌&&◌, ◌||◌, Option, none, some, List, [], ◌∷◌,
  map, if◌then◌else◌, ltb, eqb, is_none, contains, ◌==◌,
}
use legal_graphrag_platform.Base.Text.{strip, collapse_whitespace, text_leb}
use legal_graphrag_platform.Base.Dict.{Dict, lookup, insert}
use legal_graphrag_platform.Base.Sort.{sort_by}
use legal_graphrag_platform.Retrieval.Models.{RetrievedUnit}
use legal_graphrag_platform.Generation.Models.Composition.{
  AnswerCompositionPlan, AnswerCompositionOperand,
}
use legal_graphrag_platform.Generation.Models.Projected.{OmittedEvidence, OmissionReason}
use legal_graphrag_platform.Generation.Evidence.{EvidenceCandidate}

abbrev pub candidate_id : EvidenceCandidate → String
candidate_id c = c.unit.id

-- `(item.rank, item.unit.id)`
unfoldable pub rank_le : EvidenceCandidate → EvidenceCandidate → Bool
unfolding text_leb
rank_le a b = ltb a.rank b.rank || eqb a.rank b.rank && text_leb a.unit.id b.unit.id

abbrev pub same_option : Option String → Option String → Bool
same_option none none = true
same_option (some a) (some b) = a == b
same_option _ _ = false

-- `_same_legal_branch`
unfoldable pub same_legal_branch : RetrievedUnit → RetrievedUnit → Bool
same_legal_branch left right =
    same_option left.article_id right.article_id
    && (same_option left.clause_id right.clause_id
        || is_none left.clause_id
        || is_none right.clause_id)

pub record DedupState : Type 0 where
  pub retained : List EvidenceCandidate
  pub omissions : List OmittedEvidence
  pub seen : List EvidenceCandidate

-- `casefold` is `str.casefold`.
module _ (casefold : String → String) where
  unfoldable pub normalize_content : String → String
  unfolding collapse_whitespace strip
  normalize_content value = casefold (strip (collapse_whitespace value))

  -- The two candidates have one key: document, version family and content.
  unfoldable pub same_key : EvidenceCandidate → EvidenceCandidate → Bool
  unfolding normalize_content
  same_key a b =
      a.unit.document_id == b.unit.document_id
      && same_option a.unit.version_family_id b.unit.version_family_id
      && normalize_content a.unit.content_raw == normalize_content b.unit.content_raw

  unfoldable pub omission_of : EvidenceCandidate → EvidenceCandidate → OmittedEvidence
  unfolding same_legal_branch
  omission_of existing c = record {
    unit_id = c.unit.id;
    reason =
        if same_legal_branch existing.unit c.unit
        then OmissionReason.hierarchical_duplicate
        else OmissionReason.content_duplicate;
    retained_unit_id = some existing.unit.id;
  }

  -- The body of the loop of `_deduplicate`; `seen` has the candidates that are the dictionary's
  -- values, found by their keys.
  unfoldable pub dedup_step : List String → DedupState → EvidenceCandidate → DedupState
  unfolding same_key omission_of
  dedup_step protected s c =
      if contains protected c.unit.id
      then record s { retained = s.retained ⧺ c ∷ [] }
      else elim (find? (same_key c) s.seen) [
        | some existing ↦ record s { omissions = s.omissions ⧺ omission_of existing c ∷ [] }
        | none ↦ record {
          retained = s.retained ⧺ c ∷ [];
          omissions = s.omissions;
          seen = s.seen ⧺ c ∷ [];
        }
      ]

  unfoldable pub dedup_all : List String → DedupState → List EvidenceCandidate → DedupState
  unfolding dedup_step
  dedup_all protected s [] = s
  dedup_all protected s (c ∷ cs) = dedup_all protected (dedup_step protected s c) cs

  -- `_deduplicate`
  unfoldable pub deduplicate :
      List String → List EvidenceCandidate → List EvidenceCandidate × List OmittedEvidence
  unfolding dedup_all rank_le sort_by
  deduplicate protected candidates =
      let start : DedupState = record { retained = []; omissions = []; seen = [] } in
      let s = dedup_all protected start (sort_by rank_le candidates) in (s.retained, s.omissions)

-- `replacements`
replacements : Dict String → List OmittedEvidence → Dict String
unfolding insert
replacements d [] = d
replacements d (o ∷ rest) = elim o.retained_unit_id [
  | none ↦ replacements d rest
  | some kept ↦ replacements (insert o.unit_id kept d) rest
]

replaced : Dict String → String → String
unfolding lookup
replaced d id = elim (lookup id d) [ none ↦ id | some kept ↦ kept ]

-- `_normalize_composition_plan`
unfoldable pub normalize_composition_plan :
    Option AnswerCompositionPlan → List OmittedEvidence → Option AnswerCompositionPlan
unfolding replacements replaced first_occurrence
normalize_composition_plan none omissions = none
normalize_composition_plan (some plan) omissions =
    let d = replacements [] omissions in
    some (record {
      operands =
          map
            (λ (o : AnswerCompositionOperand). record o {
              evidence_unit_ids = first_occurrence (map (replaced d) o.evidence_unit_ids);
            })
            plan.operands;
    })
