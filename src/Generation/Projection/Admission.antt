-- ===== src/Generation/Projection/Admission.antt =====
-- The loop of `ContextProjector.project` that admits candidates while they fit.
use legal_graphrag_platform.Base.Append.{contains-last, map-append, contains-left}
use mathlib.Core.List.{◌++◌ as ◌⧺◌}
use legal_graphrag_platform.Base.{
  ℕ, ◌+◌, ◌≤◌, String, ◌≡◌, ap, ◌∙◌, ◌⊎◌, inl, inr, Bool, true, false, List, [], ◌∷◌, map, ltb,
  contains, All, arith, Bool-cases, All-append,
}
use legal_graphrag_platform.Generation.Models.Projected.{LegalEvidenceBlock, OmittedEvidence}
use legal_graphrag_platform.Generation.Evidence.{EvidenceCandidate}
use legal_graphrag_platform.Generation.Projection.{sum}
use legal_graphrag_platform.Generation.Projection.Selecting.{
  Selection, admit_step, admit_all, over_budget,
}
use legal_graphrag_platform.Generation.Projection.Payload.{to_evidence, evidence_cost}

abbrev pub evidence_total : List LegalEvidenceBlock → ℕ
evidence_total blocks = sum (map (λ b. evidence_cost b) blocks)

abbrev pub omitted : List OmittedEvidence → String → Bool
omitted os id = contains (map (λ o. o.unit_id) os) id

-- The characters used are those of the evidence and of what came before, within the budget.
pub record IsBalanced (budget base : ℕ) (s : Selection) : Type 0 where
  pub balanced : s.used ≡ evidence_total s.evidence + base
  pub within : s.used ≤ budget

not-ltb→le : (a b : ℕ) → ltb a b ≡ false → b ≤ a
not-ltb→le a b h = ground arith

sum-last : (ns : List ℕ) (n : ℕ) → sum (ns ⧺ n ∷ []) ≡ sum ns + n
sum-last [] n = omega (arith)
sum-last (m ∷ ns) n = omega (arith, sum-last ns n)

evidence_total-last :
    (blocks : List LegalEvidenceBlock) (b : LegalEvidenceBlock)
    → evidence_total (blocks ⧺ b ∷ []) ≡ evidence_total blocks + evidence_cost b
evidence_total-last blocks b =
    ap sum (map-append (λ b. evidence_cost b) blocks (b ∷ []))
    ∙ sum-last (map (λ b. evidence_cost b) blocks) (evidence_cost b)

pub admit_step-IsBalanced :
    (budget base : ℕ) (s : Selection) (c : EvidenceCandidate)
    → IsBalanced budget base s
    → IsBalanced budget base (admit_step budget s c)
unfolding admit_step
admit_step-IsBalanced budget base s c h =
    let cost = evidence_cost (to_evidence c.unit) in
    elim (Bool-cases (contains s.selected c.unit.id)) [
      | inl e ↦ rw e h
      | inr e ↦ elim (Bool-cases (ltb budget (s.used + cost))) [
        | inl f ↦ rw e (rw f (record { balanced = h.balanced; within = h.within }))
        | inr f ↦ rw e (
            rw f (record {
              balanced =
                  omega (arith, h.balanced, evidence_total-last s.evidence (to_evidence c.unit));
              within = not-ltb→le budget (s.used + cost) f;
            }))
      ]
    ]

pub admit_all-IsBalanced :
    (budget base : ℕ) (cs : List EvidenceCandidate) (s : Selection)
    → IsBalanced budget base s
    → IsBalanced budget base (admit_all budget s cs)
unfolding admit_all
admit_all-IsBalanced budget base [] s h = h
admit_all-IsBalanced budget base (c ∷ cs) s h =
    admit_all-IsBalanced budget base cs (admit_step budget s c)
      (admit_step-IsBalanced budget base s c h)

-- What was selected or omitted stays so.
pub record IsExtension (s t : Selection) : Type 0 where
  pub selects : (id : String) → contains s.selected id ≡ true → contains t.selected id ≡ true
  pub omits : (id : String) → omitted s.omitted id ≡ true → omitted t.omitted id ≡ true

omitted-left :
    (xs ys : List OmittedEvidence) (id : String)
    → omitted xs id ≡ true
    → omitted (xs ⧺ ys) id ≡ true
omitted-left xs ys id h =
    ap (λ is. contains is id) (map-append (λ o. o.unit_id) xs ys)
    ∙ contains-left (map (λ o. o.unit_id) xs) (map (λ o. o.unit_id) ys) id h

omitted-last :
    (xs : List OmittedEvidence) (id : String) → omitted (xs ⧺ over_budget id ∷ []) id ≡ true
omitted-last xs id =
    ap (λ is. contains is id) (map-append (λ o. o.unit_id) xs (over_budget id ∷ []))
    ∙ contains-last (map (λ o. o.unit_id) xs) id

-- A candidate is selected, or it is omitted.
abbrev pub IsSettled : Selection → String → Type 0
IsSettled s id = (contains s.selected id ≡ true) ⊎ (omitted s.omitted id ≡ true)

pub admit_step-IsExtension :
    (budget : ℕ) (s : Selection) (c : EvidenceCandidate)
    → IsExtension s (admit_step budget s c) × IsSettled (admit_step budget s c) c.unit.id
unfolding admit_step
admit_step-IsExtension budget s c =
    let cost = evidence_cost (to_evidence c.unit) in
    elim (Bool-cases (contains s.selected c.unit.id)) [
      | inl e ↦ rw e (record { selects = λ id h. h; omits = λ id h. h }, inl e)
      | inr e ↦ elim (Bool-cases (ltb budget (s.used + cost))) [
        | inl f ↦ rw e (
            rw f (
              record {
                selects = λ id h. h;
                omits = λ id h. omitted-left s.omitted (over_budget c.unit.id ∷ []) id h;
              },
              inr (omitted-last s.omitted c.unit.id),
            ))
        | inr f ↦ rw e (
            rw f (
              record {
                selects = λ id h. contains-left s.selected (c.unit.id ∷ []) id h;
                omits = λ id h. h;
              },
              inl (contains-last s.selected c.unit.id),
            ))
      ]
    ]

pub admit_all-IsExtension :
    (budget : ℕ) (cs : List EvidenceCandidate) (s : Selection)
    → IsExtension s (admit_all budget s cs)
      × All (λ c. IsSettled (admit_all budget s cs) c.unit.id) cs
unfolding admit_all
admit_all-IsExtension budget [] s = (record { selects = λ id h. h; omits = λ id h. h }, tt)
admit_all-IsExtension budget (c ∷ cs) s =
    let (one, settled) = admit_step-IsExtension budget s c in
    let (more, others) = admit_all-IsExtension budget cs (admit_step budget s c) in
    (
      record {
        selects = λ id h. more.selects id (one.selects id h);
        omits = λ id h. more.omits id (one.omits id h);
      },
      (elim settled [ inl h ↦ inl (more.selects _ h) | inr h ↦ inr (more.omits _ h) ], others),
    )

-- What is admitted was evidence before or is a candidate's.
admit_step-evidence {κ} :
    (P : LegalEvidenceBlock → Type κ) (budget : ℕ) (s : Selection) (c : EvidenceCandidate)
    → All P s.evidence
    → P (to_evidence c.unit)
    → All P (admit_step budget s c).evidence
unfolding admit_step
admit_step-evidence P budget s c h p =
    let cost = evidence_cost (to_evidence c.unit) in
    elim (Bool-cases (contains s.selected c.unit.id)) [
      | inl e ↦ rw e h
      | inr e ↦ elim (Bool-cases (ltb budget (s.used + cost))) [
        | inl f ↦ rw e (rw f h)
        | inr f ↦ rw e (rw f (All-append P s.evidence (to_evidence c.unit ∷ []) h (p, tt)))
      ]
    ]

pub admit_all-evidence {κ} :
    (P : LegalEvidenceBlock → Type κ) (budget : ℕ) (cs : List EvidenceCandidate) (s : Selection)
    → All P s.evidence
    → All (λ c. P (to_evidence c.unit)) cs
    → All P (admit_all budget s cs).evidence
unfolding admit_all
admit_all-evidence P budget [] s h ps = h
admit_all-evidence P budget (c ∷ cs) s h ps =
    admit_all-evidence P budget cs (admit_step budget s c) (admit_step-evidence P budget s c h ps.0)
      ps.1
