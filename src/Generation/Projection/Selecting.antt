-- ===== src/Generation/Projection/Selecting.antt =====
-- src/generation/context_projection.py: the choice of evidence within the budget.
use legal_graphrag_platform.Generation.Projection.Payload.{to_evidence, evidence_cost}
use mathlib.Core.List.{◌++◌ as ◌⧺◌}
use legal_graphrag_platform.Base.{ℕ, ◌+◌, String, none, List, [], ◌∷◌, if◌then◌else◌, ltb, contains}
use legal_graphrag_platform.Generation.Models.Projected.{
  LegalEvidenceBlock, OmittedEvidence, OmissionReason,
}
use legal_graphrag_platform.Generation.Evidence.{EvidenceCandidate}

-- `selected_ids`, `evidence`, `omitted` and `used`
pub record Selection : Type 0 where
  pub selected : List String
  pub evidence : List LegalEvidenceBlock
  pub omitted : List OmittedEvidence
  pub used : ℕ

abbrev pub over_budget : String → OmittedEvidence
over_budget id = record {
  unit_id = id;
  reason = OmissionReason.context_budget_exceeded;
  retained_unit_id = none;
}

-- The body of the loop over the other candidates.
unfoldable pub admit_step : ℕ → Selection → EvidenceCandidate → Selection
unfolding evidence_cost
admit_step budget s c =
    let block = to_evidence c.unit in
    let cost = evidence_cost block in
    if contains s.selected c.unit.id
    then s
    else if ltb budget (s.used + cost)
    then record s { omitted = s.omitted ⧺ over_budget c.unit.id ∷ [] }
    else record {
      selected = s.selected ⧺ c.unit.id ∷ [];
      evidence = s.evidence ⧺ block ∷ [];
      omitted = s.omitted;
      used = s.used + cost;
    }

unfoldable pub admit_all : ℕ → Selection → List EvidenceCandidate → Selection
unfolding admit_step
admit_all budget s [] = s
admit_all budget s (c ∷ cs) = admit_all budget (admit_step budget s c) cs
