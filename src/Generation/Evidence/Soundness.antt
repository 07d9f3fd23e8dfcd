-- ===== src/Generation/Evidence/Soundness.antt =====
-- What the evidence that generation/evidence_validation.py lets through is.
use mathlib.Core.Path.{subst}
use legal_graphrag_platform.Base.{
  All-of_members, ℕ, ◌+◌, String, ◌≡◌, refl, sym, ap, ◌∙◌, Bool, true, false, not, ◌&&◌, List, [],
  ◌∷◌, map, is_empty, contains, All, Member,
}
use legal_graphrag_platform.Base.Result.{not-eq-false, ok, >>=-eq-ok, guard-bind-ok, ok_inj}
use legal_graphrag_platform.Base.Text.{blank, strip}
use legal_graphrag_platform.Retrieval.Models.{RetrievedUnit, RetrievalFilters}
use legal_graphrag_platform.Retrieval.Models.Context.{RetrievalContext}
use legal_graphrag_platform.Generation.Evidence.{
  is_canonical_id, require_canonical_id, has_injection_marker, EvidenceCandidate, ValidatedEvidence,
  inconsistent_hierarchy, validate_unit, eligible_ids, validate_units, validate_paths, validate,
  status_excluded,
}

abbrev pub stripped : RetrievedUnit → RetrievedUnit
stripped unit = record unit { content_raw = strip unit.content_raw }

abbrev pub document_excluded : RetrievalFilters → RetrievedUnit → Bool
document_excluded filters unit =
    not (is_empty filters.document_ids) && not (contains filters.document_ids unit.document_id)

-- A unit that the answer model may see.
pub record IsSafe (context : RetrievalContext) (unit : RetrievedUnit) : Type 0 where
  pub canonical : is_canonical_id unit.id ≡ true
  pub canonical_document : is_canonical_id unit.document_id ≡ true
  pub has_text : blank unit.content_raw ≡ false
  pub clean : has_injection_marker unit.content_raw ≡ false
  pub labelled : blank unit.citation_label ≡ false
  pub linked : blank unit.deep_link ≡ false
  pub placed : inconsistent_hierarchy unit ≡ false
  pub in_documents : document_excluded context.filters_applied unit ≡ false
  pub in_statuses : status_excluded context.filters_applied.legal_statuses unit.legal_status ≡ false

-- A candidate comes from a safe unit of the context, with only the text's ends stripped.
pub record IsEvidence (context : RetrievalContext) (c : EvidenceCandidate) : Type 0 where
  pub origin : RetrievedUnit
  pub retrieved : Member origin context.retrieved_units
  pub safe : IsSafe context origin
  pub kept : c.unit ≡ stripped origin
  pub marked : c.is_eligible ≡ contains (eligible_ids context) origin.id

validate_unit-IsSafe :
    (context : RetrievalContext) (unit valid : RetrievedUnit)
    → validate_unit unit context ≡ ok valid
    → IsSafe context unit × (valid ≡ stripped unit)
unfolding validate_unit require_canonical_id
validate_unit-IsSafe context unit valid h =
    let (h₁, k₁) = guard-bind-ok (not (is_canonical_id unit.id)) _ _ _ h in
    let (h₂, k₂) = guard-bind-ok (blank unit.content_raw) _ _ _ k₁ in
    let (h₃, k₃) = guard-bind-ok (has_injection_marker unit.content_raw) _ _ _ k₂ in
    let (h₄, k₄) = guard-bind-ok (not (is_canonical_id unit.document_id)) _ _ _ k₃ in
    let (h₅, k₅) = guard-bind-ok (blank unit.citation_label) _ _ _ k₄ in
    let (h₆, k₆) = guard-bind-ok (blank unit.deep_link) _ _ _ k₅ in
    let (h₇, k₇) = guard-bind-ok (inconsistent_hierarchy unit) _ _ _ k₆ in
    let (h₈, k₈) = guard-bind-ok (document_excluded context.filters_applied unit) _ _ _ k₇ in
    let (h₉, k₉) =
      guard-bind-ok (status_excluded context.filters_applied.legal_statuses unit.legal_status) _ _ _
        k₈ in
    (
      record {
        canonical = not-eq-false _ h₁;
        canonical_document = not-eq-false _ h₄;
        has_text = h₂;
        clean = h₃;
        labelled = h₅;
        linked = h₆;
        placed = h₇;
        in_documents = h₈;
        in_statuses = h₉;
      },
      sym (ok_inj k₉),
    )

validate_units-IsEvidence :
    (context : RetrievalContext) (units : List RetrievedUnit) (rank : ℕ)
    (candidates : List EvidenceCandidate)
    → All (λ u. Member u context.retrieved_units) units
    → validate_units context rank units ≡ ok candidates
    → All (IsEvidence context) candidates
      × (map (λ c. c.unit.id) candidates ≡ map (λ u. u.id) units)
unfolding validate_units
validate_units-IsEvidence context [] rank candidates m h =
    subst
      (λ (cs : List EvidenceCandidate).
        All (IsEvidence context) cs × (map (λ c. c.unit.id) cs ≡ []))
      (ok_inj h) (tt, refl)
validate_units-IsEvidence context (unit ∷ units) rank candidates m h =
    let (valid, h₁, k₁) = >>=-eq-ok (validate_unit unit context) _ h in
    let (rest, h₂, k₂) = >>=-eq-ok (validate_units context (rank + 1) units) _ k₁ in
    let (safe, kept) = validate_unit-IsSafe context unit valid h₁ in
    let (all_rest, ids) = validate_units-IsEvidence context units (rank + 1) rest m.1 h₂ in
    subst
      (λ (cs : List EvidenceCandidate).
        All (IsEvidence context) cs
        × (map (λ c. c.unit.id) cs ≡ unit.id ∷ map (λ (u : RetrievedUnit). u.id) units))
      (ok_inj k₂)
      (
        (
          record { origin = unit; retrieved = m.0; safe = safe; kept = kept; marked = refl },
          all_rest,
        ),
        ap (λ is. valid.id ∷ is) ids
            ∙ ap (λ (v : RetrievedUnit). v.id ∷ map (λ u. u.id) units) kept,
      )

module _ (sha256_hex : String → String) (context : RetrievalContext) (validated : ValidatedEvidence)
    (returned : validate sha256_hex context ≡ ok validated) where
  -- If the evidence of a context is validated, then every candidate is a retrieved unit with a
  -- canonical identifier and document, a text that is not blank and has no marker of the prompt's
  -- structure, a label, a link, consistent hierarchy identifiers and a place within the applied
  -- filters, with nothing changed but the spaces around its text; and no unit is dropped,
  -- repeated or moved.
  pub validate-IsEvidence :
      All (IsEvidence context) validated.candidates
      × (map (λ c. c.unit.id) validated.candidates ≡ map (λ u. u.id) context.retrieved_units)
  unfolding validate
  validate-IsEvidence =
      let (candidates, h₁, k₁) =
        >>=-eq-ok (validate_units context 0 context.retrieved_units) _ returned in
      let (paths, h₂, k₂) = >>=-eq-ok (validate_paths sha256_hex 0 context.graph_paths) _ k₁ in
      subst
        (λ (v : ValidatedEvidence).
          All (IsEvidence context) v.candidates
          × (map (λ c. c.unit.id) v.candidates ≡ map (λ u. u.id) context.retrieved_units))
        (ok_inj k₂)
        (validate_units-IsEvidence context context.retrieved_units 0 candidates
          (All-of_members _ context.retrieved_units (λ u m. m)) h₁)
