-- ===== src/Generation/Grounding/Links.antt =====
-- The reasoning paths and the temporal notes of an answer that passed `validate_and_render`.
use mathlib.Core.Path.{subst}
use legal_graphrag_platform.Base.{
  ◌∙◌, same_set, All_at_contains, ◌==◌, refl, contains-map_of_Member, &&-eq-true, subset_at, unique,
  subset, map, String, ◌≡◌, sym, Bool, true, false, not, ◌&&◌, ◌||◌, Option, none, some, List, [],
  ◌∷◌, is_some, is_none, contains, All, Member, All-of_members, All_at, arith, first_occurrence,
  flat_map, is_empty, filter, filter-All, All-filter,
}
use legal_graphrag_platform.Base.Result.{
  ◌>>=◌, traverse-images, key_error, of_option, Result, ok, >>=-eq-ok, of_option-bind-ok,
  guard-bind-ok, ok_inj, not-eq-false, traverse, traverse-All,
}
use legal_graphrag_platform.Base.Dict.{index_by-find, index_by, lookup, index_by-lookup}
use legal_graphrag_platform.Base.Date.{Date, opt_date_eq}
use legal_graphrag_platform.Retrieval.Models.{is_valid_on}
use legal_graphrag_platform.Generation.Models.{AnswerResponse, AnswerReasoningPath}
use legal_graphrag_platform.Generation.Models.Projected.{
  LegalEvidenceBlock, EvidenceRegistry, ProjectedAnswerContext, ProjectedPathBlock, same_flag,
}
use legal_graphrag_platform.Generation.Models.Candidate.{
  iter_candidate_statements, AnswerCandidate, GroundedStatement, TemporalAssertion,
}
use legal_graphrag_platform.Generation.Grounding.{validate_and_render, evidence_by_id}
use legal_graphrag_platform.Generation.Grounding.Temporal.{
  first_missing, check_declared, temporal_notes, validate_temporal,
}
use legal_graphrag_platform.Generation.Grounding.Paths.{
  allowed_paths, goal_unproved, reasoning_path, select_path, select_paths,
}
use legal_graphrag_platform.Generation.Grounding.Soundness.{
  validate_and_render-Run, Run, entries_found,
}

not_both : (b c : Bool) → (b ≡ true → c ≡ false) → (b && c) ≡ false
not_both true c h = h refl
not_both false c h = refl

-- A path of the response: one of the projected context's, allowed by the registry, that proves the
-- relation goal if there is one.
pub record IsAllowedPath (projected : ProjectedAnswerContext) (registry : EvidenceRegistry)
    (p : AnswerReasoningPath) : Type 0 where
  pub block : ProjectedPathBlock
  pub projected_path : Member block projected.paths
  pub allowed : contains registry.allowed_path_ids block.path_id ≡ true
  pub built : p ≡ reasoning_path block
  pub proves : goal_unproved projected.relation_goal projected.anchor_node_ids block.edges ≡ false

module _ (projected : ProjectedAnswerContext) (registry : EvidenceRegistry) where
  abbrev Allowed : ProjectedPathBlock → Type 0
  Allowed b = Member b projected.paths × (contains registry.allowed_path_ids b.path_id ≡ true)

  allowed_paths-found :
      (id : String) (b : ProjectedPathBlock)
      → lookup id (allowed_paths projected registry) ≡ some b
      → Allowed b
  unfolding allowed_paths
  allowed_paths-found id b h =
      let test = λ (p : ProjectedPathBlock). contains registry.allowed_path_ids p.path_id in
      index_by-lookup (λ p. p.path_id) (λ k p. Allowed p) (filter test projected.paths)
        (All-of_members Allowed (filter test projected.paths) (λ p m. (
          All_at (λ q. Member q projected.paths) (filter test projected.paths) p
              (All-filter (λ q. Member q projected.paths) test projected.paths
                (All-of_members (λ q. Member q projected.paths) projected.paths (λ q k. k)))
              m,
          All_at (λ q. test q ≡ true) (filter test projected.paths) p
              (filter-All test projected.paths) m,
        )))
        id b h

  select_path-IsAllowedPath :
      (id : String) (p : AnswerReasoningPath)
      → select_path projected (allowed_paths projected registry) id ≡ ok p
      → IsAllowedPath projected registry p
  unfolding select_path
  select_path-IsAllowedPath id p h =
      let (b, found, h₁) =
        of_option-bind-ok (lookup id (allowed_paths projected registry)) _ _ _ h in
      let (proves, h₂) =
        guard-bind-ok (goal_unproved projected.relation_goal projected.anchor_node_ids b.edges) _ _
          _ h₁ in
      let (member, allowed) = allowed_paths-found id b found in
      record {
        block = b;
        projected_path = member;
        allowed = allowed;
        built = sym (ok_inj h₂);
        proves = proves;
      }

  -- A relation goal asks for at least one path.
  select_paths-lem :
      (statements : List GroundedStatement) (ps : List AnswerReasoningPath)
      → select_paths projected registry statements ≡ ok ps
      → All (IsAllowedPath projected registry) ps
        × (is_some projected.relation_goal ≡ true → is_empty ps ≡ false)
  unfolding select_paths
  select_paths-lem statements ps h =
      let order = first_occurrence (flat_map (λ s. s.reasoning_path_ids) statements) in
      let (linked, h₁) =
        guard-bind-ok (is_some projected.relation_goal && is_empty order) _ _ _ h in
      (
        traverse-All (IsAllowedPath projected registry)
            (select_path projected (allowed_paths projected registry)) select_path-IsAllowedPath
            order ps h₁,
        λ goal. nonempty order ps (rw goal at linked) h₁,
      )
    where
      nonempty :
          (ids : List String) (qs : List AnswerReasoningPath)
          → is_empty ids ≡ false
          → traverse (select_path projected (allowed_paths projected registry)) ids ≡ ok qs
          → is_empty qs ≡ false
      nonempty [] qs e q = cc
      nonempty (i ∷ is) qs e q =
          let (y, e₁, e₂) =
            >>=-eq-ok (select_path projected (allowed_paths projected registry) i) _ q in
          let (ys, e₃, e₄) =
            >>=-eq-ok (traverse (select_path projected (allowed_paths projected registry)) is) _
              e₂ in
          let same : y ∷ ys ≡ qs = ok_inj e₄ in rw (← same)

-- An assertion of the answer: its date is the one resolved date of the question, and what it
-- asserts is what the half-open interval of a registry entry gives.
pub record IsTemporallySound (projected : ProjectedAnswerContext) (registry : EvidenceRegistry)
    (a : TemporalAssertion) : Type 0 where
  pub entry : LegalEvidenceBlock
  pub listed : Member entry registry.entries
  pub subject : entry.unit_id ≡ a.subject_unit_id
  pub from_date : projected.resolved_from ≡ some a.query_date
  pub to_date : projected.resolved_to ≡ some a.query_date
  pub agrees : a.asserted_valid ≡ is_valid_on entry.effective_from entry.effective_to a.query_date

same_flag→eq : (a b : Bool) → same_flag a b ≡ true → a ≡ b
same_flag→eq a b h = ground arith

resolved_dates :
    (from to : Option Date) (d : Date)
    → (is_none from || not (opt_date_eq to from)) ≡ false
    → opt_date_eq (some d) from ≡ true
    → (from ≡ some d) × (to ≡ some d)
resolved_dates none to d h k = cc
resolved_dates (some f) none d h k = cc
resolved_dates (some f) (some t) d h k = ground arith

module _ (projected : ProjectedAnswerContext) (registry : EvidenceRegistry) where
  validate_temporal_sound :
      (a : TemporalAssertion) (note : String)
      → validate_temporal projected (evidence_by_id registry) a ≡ ok note
      → IsTemporallySound projected registry a
  unfolding validate_temporal
  validate_temporal_sound a note h =
      let (dates, h₁) =
        guard-bind-ok
          (is_none projected.resolved_from
            || not (opt_date_eq projected.resolved_to projected.resolved_from))
          _ _ _ h in
      let (date, h₂) =
        guard-bind-ok (not (opt_date_eq (some a.query_date) projected.resolved_from)) _ _ _ h₁ in
      let (e, found, h₃) =
        of_option-bind-ok (lookup a.subject_unit_id (evidence_by_id registry)) _ _ _ h₂ in
      let (agrees, h₄) =
        guard-bind-ok
          (not
            (same_flag a.asserted_valid (is_valid_on e.effective_from e.effective_to a.query_date)))
          _ _ _ h₃ in
      let (listed, subject) = entries_found registry a.subject_unit_id e found in
      let (from_date, to_date) =
        resolved_dates projected.resolved_from projected.resolved_to a.query_date dates
          (not-eq-false _ date) in
      record {
        entry = e;
        listed = listed;
        subject = subject;
        from_date = from_date;
        to_date = to_date;
        agrees = same_flag→eq _ _ (not-eq-false _ agrees);
      }

module _ (projected : ProjectedAnswerContext) (registry : EvidenceRegistry)
    (candidate : AnswerCandidate) where
  abbrev declared : List String
  declared = map (λ a. a.assertion_id) candidate.temporal_assertions

  abbrev assertion_order : List String
  assertion_order =
      first_occurrence
        (flat_map (λ s. s.temporal_assertion_ids) (iter_candidate_statements candidate))

  abbrev note_for : String → Result String
  note_for id =
      of_option (lookup id (index_by (λ a. a.assertion_id) candidate.temporal_assertions)) key_error
        id
      >>= λ a. validate_temporal projected (evidence_by_id registry) a

  -- What a successful `temporal_notes` went through.
  record NoteRun (notes : List String) : Type 0 where
    asks : (projected.intent == "validity" && is_empty assertion_order) ≡ false
    linked : same_set declared assertion_order ≡ true
    noted : traverse note_for assertion_order ≡ ok notes

  temporal_notes-NoteRun :
      (notes : List String)
      → temporal_notes projected (evidence_by_id registry) candidate ≡ ok notes
      → NoteRun notes
  unfolding temporal_notes
  temporal_notes-NoteRun notes h =
      let (asks, h₁) =
        guard-bind-ok (projected.intent == "validity" && is_empty assertion_order) _ _ _ h in
      let (_, _, h₂) = >>=-eq-ok (check_declared (first_missing declared assertion_order)) _ h₁ in
      let (linked, h₃) = guard-bind-ok (not (same_set declared assertion_order)) _ _ _ h₂ in
      record { asks = asks; linked = not-eq-false _ linked; noted = h₃ }

  Found : String → Type 0
  Found id =
      (a : TemporalAssertion) × (lookup id
          (index_by (λ b. b.assertion_id) candidate.temporal_assertions)
        ≡ some a)
      × IsTemporallySound projected registry a

  note_for-Found : (id note : String) → note_for id ≡ ok note → Found id
  unfolding Found
  note_for-Found id note h =
      let (a, found, h₁) =
        of_option-bind-ok (lookup id (index_by (λ b. b.assertion_id) candidate.temporal_assertions))
          _ _ _ h in
      (a, found, validate_temporal_sound projected registry a note h₁)

  assertions_sound :
      (notes : List String)
      → NoteRun notes
      → unique declared ≡ true
      → All (IsTemporallySound projected registry) candidate.temporal_assertions
  unfolding Found
  assertions_sound notes run distinct =
      All-of_members (IsTemporallySound projected registry) candidate.temporal_assertions λ a m.
        let in_order =
          subset_at declared assertion_order a.assertion_id (&&-eq-true _ _ run.linked).0
            (contains-map_of_Member (λ b. b.assertion_id) candidate.temporal_assertions a m) in
        let (b, found, sound) =
          All_at_contains Found assertion_order a.assertion_id
            (traverse-images Found note_for note_for-Found assertion_order notes run.noted)
            in_order in
        let same : b ≡ a =
          cc (
            found,
            index_by-find (λ c. c.assertion_id) candidate.temporal_assertions a distinct m,
          ) in
        subst (IsTemporallySound projected registry) same sound

  nonempty_of_subset :
      (xs ys : List String) → is_empty xs ≡ false → subset xs ys ≡ true → is_empty ys ≡ false
  nonempty_of_subset [] ys e s = cc
  nonempty_of_subset (x ∷ xs) [] e s = cc
  nonempty_of_subset (x ∷ xs) (y ∷ ys) e s = refl

  empty-map : (xs : List TemporalAssertion) → is_empty (map (λ a. a.assertion_id) xs) ≡ is_empty xs
  empty-map [] = refl
  empty-map (a ∷ xs) = refl

  validity_asserts :
      (notes : List String)
      → NoteRun notes
      → (projected.intent == "validity") ≡ true
      → is_empty candidate.temporal_assertions ≡ false
  validity_asserts notes run v =
      sym (empty-map candidate.temporal_assertions)
      ∙ nonempty_of_subset assertion_order declared (rw v at run.asks) (&&-eq-true _ _ run.linked).1

module _ (nfc : String → String) (candidate : AnswerCandidate) (projected : ProjectedAnswerContext)
    (registry : EvidenceRegistry) (version provider model : String) (response : AnswerResponse)
    (answers : candidate.cannot_answer ≡ false)
    (returned : validate_and_render nfc candidate projected registry version provider model
      ≡ ok response) where
  run : Run nfc candidate projected registry response
  run =
      validate_and_render-Run nfc candidate projected registry version provider model response
        answers returned

  -- If a candidate with an answer passes `validate_and_render`, then every reasoning path of the
  -- response is a path of the projected context that the registry allows, and where the question has
  -- a relation goal, each has an edge of the goal's type leaving an anchor, and there is at least one.
  pub validate_and_render-paths :
      All (IsAllowedPath projected registry) response.reasoning_paths
      × ((is_some projected.relation_goal && is_empty response.reasoning_paths) ≡ false)
  validate_and_render-paths =
      let (allowed, linked) =
        select_paths-lem projected registry (iter_candidate_statements candidate)
          response.reasoning_paths run.selected in
      (allowed, not_both _ _ linked)

  -- If a candidate with an answer and distinct assertion identifiers passes `validate_and_render`,
  -- then each of its temporal assertions has the question's one resolved date and asserts exactly
  -- whether that date lies in the half-open interval of the registry entry that it names, and an
  -- answer to a validity question has at least one.
  pub validate_and_render-temporal :
      unique (map (λ a. a.assertion_id) candidate.temporal_assertions) ≡ true
      → All (IsTemporallySound projected registry) candidate.temporal_assertions
        × ((projected.intent == "validity" && is_empty candidate.temporal_assertions) ≡ false)
  validate_and_render-temporal distinct =
      let notes =
        temporal_notes-NoteRun projected registry candidate response.temporal_notes run.noted in
      (
        assertions_sound projected registry candidate response.temporal_notes notes distinct,
        not_both _ _ (validity_asserts projected registry candidate response.temporal_notes notes),
      )
