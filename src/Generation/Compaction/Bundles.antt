-- ===== src/Generation/Compaction/Bundles.antt =====
-- The bundles that generation/evidence_compaction.py builds of paths name retained evidence only.
use legal_graphrag_platform.Base.{
  String, ◌≡◌, refl, sym, ◌∙◌, inl, inr, Bool, true, Option, none, some, List, [], ◌∷◌, map,
  contains, All, Bool-cases, All-of_members, All-of_contains, All_at_contains, All-map,
  contains-map_of_Member, contains-first_occurrence, filter_map, first_occurrence,
}
use legal_graphrag_platform.Base.Dict.{lookup, index_by, index_by-lookup}
use legal_graphrag_platform.Retrieval.Models.{IntentType, RelationGoal}
use legal_graphrag_platform.Retrieval.Models.Context.{RetrievalContext}
use legal_graphrag_platform.Generation.Evidence.{EvidenceCandidate, ValidatedPath}
use legal_graphrag_platform.Generation.Compaction.Dedup.{candidate_id}
use legal_graphrag_platform.Generation.Compaction.Required.{
  EvidenceBundle, bundle, path_bundle, complete_path, path_alternatives, relation_goal_bundles,
  all_found,
}

abbrev pub AllIn {ℓ} : {A : Type 0} → (A → Type ℓ) → Option A → Type ℓ
AllIn P none = Unit
AllIn P (some x) = P x

module _ {ℓ} {A B : Type 0} (P : B → Type ℓ) (Q : A → Type ℓ) (f : A → Option B) where
  add_found :
      (o : Option B) (ys : List B)
      → AllIn P o
      → All P ys
      → All P (elim o [ none ↦ ys | some y ↦ y ∷ ys ])
  add_found none ys p ps = ps
  add_found (some y) ys p ps = (p, ps)

  pub All-filter_map :
      ((x : A) → Q x → AllIn P (f x)) → (xs : List A) → All Q xs → All P (filter_map f xs)
  All-filter_map h [] q = tt
  All-filter_map h (x ∷ xs) q =
      add_found (f x) (filter_map f xs) (h x q.0) (All-filter_map h xs q.1)

All-kept :
    {A : Type 0} (P : String → Type 0) (f : A → String) (xs : List A)
    → All (λ x. P (f x)) xs
    → All P (first_occurrence (map f xs))
All-kept P f xs h = All-of_contains P (first_occurrence (map f xs)) λ id c.
    All_at_contains P (map f xs) id (All-map P f xs h)
      (sym (contains-first_occurrence (map f xs) id) ∙ c)

-- A bundle names candidates and paths of the plan only.
abbrev pub IsClosed : List EvidenceCandidate → List ValidatedPath → EvidenceBundle → Type 0
IsClosed candidates paths b =
    All (λ id. contains (map candidate_id candidates) id ≡ true) b.unit_ids
    × All (λ id. contains (map (λ p. p.path_id) paths) id ≡ true) b.path_ids

module _ (sha256_hex : String → String) (candidates : List EvidenceCandidate)
    (paths : List ValidatedPath) where
  abbrev pub In : EvidenceCandidate → Type 0
  In c = contains (map candidate_id candidates) c.unit.id ≡ true

  abbrev pub InPaths : ValidatedPath → Type 0
  InPaths p = contains (map (λ q. q.path_id) paths) p.path_id ≡ true

  abbrev pub AllClosed : List EvidenceBundle → Type 0
  AllClosed bs = All (IsClosed candidates paths) bs

  pub candidates-In : All In candidates
  candidates-In =
      All-of_members In candidates λ c m. contains-map_of_Member candidate_id candidates c m

  pub paths-In : All InPaths paths
  paths-In = All-of_members InPaths paths λ p m. contains-map_of_Member (λ q. q.path_id) paths p m

  pub lookup-In : (id : String) → AllIn In (lookup id (index_by candidate_id candidates))
  lookup-In id = found (lookup id (index_by candidate_id candidates)) refl
    where
      found :
          (o : Option EvidenceCandidate)
          → lookup id (index_by candidate_id candidates) ≡ o
          → AllIn In o
      found none e = tt
      found (some c) e = index_by-lookup candidate_id (λ _ d. In d) candidates candidates-In id c e

  pub bundle-IsClosed :
      (intent : IntentType) (c : EvidenceCandidate) (cs : List EvidenceCandidate)
      (ways : List ValidatedPath) (subjects versions : List String) (operand : Option String)
      → In c
      → All In cs
      → All InPaths ways
      → IsClosed candidates paths (bundle sha256_hex intent c cs ways subjects versions operand)
  unfolding bundle
  bundle-IsClosed intent c cs ways subjects versions operand h hs ws = (
    All-kept (λ id. contains (map candidate_id candidates) id ≡ true) candidate_id (c ∷ cs) (h, hs),
    All-kept (λ id. contains (map (λ p. p.path_id) paths) id ≡ true) (λ p. p.path_id) ways ws,
  )

  pub path_bundle-AllClosed :
      (intent : IntentType) (p : ValidatedPath) (cs : List EvidenceCandidate)
      → InPaths p
      → All In cs
      → AllIn AllClosed (path_bundle sha256_hex intent p cs)
  unfolding path_bundle
  path_bundle-AllClosed intent p [] q h = tt
  path_bundle-AllClosed intent p (c ∷ []) q h = tt
  path_bundle-AllClosed intent p (c ∷ d ∷ ds) q h =
      (bundle-IsClosed intent c (d ∷ ds) (p ∷ []) [] [] none h.0 h.1 (q, tt), tt)

  pub all_found-In :
      (is : List String) → AllIn (All In) (all_found (index_by candidate_id candidates) is)
  unfolding all_found
  all_found-In [] = tt
  all_found-In (id ∷ is) =
      both (lookup id (index_by candidate_id candidates)) (lookup-In id)
        (all_found (index_by candidate_id candidates) is) (all_found-In is)
    where
      both :
          (o : Option EvidenceCandidate)
          → AllIn In o
          → (r : Option (List EvidenceCandidate)) → AllIn (All In) r
          → AllIn
              (All In)
              (elim o [ none ↦ none | some c ↦ elim r [ none ↦ none | some cs ↦ some (c ∷ cs) ] ])
      both none h r k = tt
      both (some c) h none k = tt
      both (some c) h (some cs) k = (h, k)

  complete_path-AllClosed :
      (intent : IntentType) (p : ValidatedPath) (o : Option (List EvidenceCandidate))
      → InPaths p
      → AllIn (All In) o
      → AllIn AllClosed (complete_path sha256_hex intent p o)
  unfolding complete_path
  complete_path-AllClosed intent p none q h = tt
  complete_path-AllClosed intent p (some cs) q h = path_bundle-AllClosed intent p cs q h

  pub path_alternatives-AllClosed :
      (test : ValidatedPath → Bool) (intent : IntentType)
      → All AllClosed (path_alternatives sha256_hex test intent candidates paths)
  unfolding path_alternatives
  path_alternatives-AllClosed test intent =
      All-filter_map AllClosed InPaths _
        (λ p q. elim (Bool-cases (test p)) [
          | inl t ↦ rw t (complete_path-AllClosed intent p _ q (all_found-In _))
          | inr f ↦ rw f tt
        ])
        paths paths-In

  pub relation_goal_bundles-AllClosed :
      (context : RetrievalContext) (goal : RelationGoal)
      → All AllClosed (relation_goal_bundles sha256_hex context goal candidates paths)
  unfolding relation_goal_bundles
  relation_goal_bundles-AllClosed context goal = path_alternatives-AllClosed _ context.intent
