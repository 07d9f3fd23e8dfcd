-- ===== src/Retrieval/Runtime/Pinned.antt =====
-- The final units of a retrieval: no more than asked for, with a unit for each hydrated anchor.
use legal_graphrag_platform.Retrieval.Fusion.Distinct.{own-insert, own-lookup}
use legal_graphrag_platform.Base.{
  ℕ, zero, suc, ◌≤◌, String, ◌≡◌, refl, sym, ◌∙◌, inl, inr, true, false, ◌||◌, Option, none, some,
  List, [], ◌∷◌, map, ltb, is_some, contains, All, Member, arith, ◌==◌, Bool-cases, eq_iff, length,
  take, length-take_le, first_occurrence, contains-first_occurrence, filter_map,
  contains-map_of_Member, All-of_members,
}
use legal_graphrag_platform.Base.Result.{ok, guard-bind-ok, ok_inj}
use mathlib.Core.Path.{subst}
use mathlib.Core.List.{◌++◌ as ◌⧺◌}
use legal_graphrag_platform.Base.Append.{contains-left}
use legal_graphrag_platform.Base.Dict.{
  or_else, Dict, lookup, insert, set_default, lookup-set_default, index_by, index_by-lookup,
  index_by-has,
}
use legal_graphrag_platform.Retrieval.Models.{RetrievedUnit, GraphPath, RelationGoal}
use legal_graphrag_platform.Retrieval.Runtime.{
  merge_into, merge_units, goal_ids, required_canonical_units, pin_required_units,
}

-- Each unit of a dictionary is under its identifier.
abbrev Own : Dict RetrievedUnit → Type 0
Own d = All (λ e. e.1.id ≡ e.0) d

set_default-Own :
    (unit : RetrievedUnit) (d : Dict RetrievedUnit) → Own d → Own (set_default unit.id unit d)
unfolding set_default
set_default-Own unit d h = chosen (lookup unit.id d)
  where
    chosen : (o : Option RetrievedUnit) → Own (elim o [ none ↦ insert unit.id unit d | some w ↦ d ])
    chosen none = own-insert unit.id unit d refl h
    chosen (some w) = h

merge_into-Own :
    (d : Dict RetrievedUnit) (units : List RetrievedUnit) → Own d → Own (merge_into d units)
unfolding merge_into
merge_into-Own d [] h = h
merge_into-Own d (unit ∷ units) h =
    merge_into-Own (set_default unit.id unit d) units (set_default-Own unit d h)

or_else-some :
    (o : Option RetrievedUnit) (unit : RetrievedUnit) → is_some (or_else o (some unit)) ≡ true
or_else-some none unit = refl
or_else-some (some u) unit = refl

merge_into-has :
    (d : Dict RetrievedUnit) (units : List RetrievedUnit) (id : String)
    → (is_some (lookup id d) || contains (map (λ u. u.id) units) id) ≡ true
    → is_some (lookup id (merge_into d units)) ≡ true
unfolding merge_into
merge_into-has d [] id h = ground (arith, h)
merge_into-has d (unit ∷ units) id h =
    merge_into-has (set_default unit.id unit d) units id (elim (Bool-cases (unit.id == id)) [
      | inl e ↦ rw (lookup-set_default, e, or_else-some) refl
      | inr e ↦ rw (lookup-set_default, e) (rw e at h)
    ])

Member-lookup :
    (d : Dict RetrievedUnit) (id : String) (unit : RetrievedUnit)
    → lookup id d ≡ some unit
    → Member unit (map (λ e. e.1) d)
unfolding lookup
Member-lookup [] id unit e = cc
Member-lookup ((j, w) ∷ d) id unit e = elim (Bool-cases (j == id)) [
  | inl t ↦ let same : some w ≡ some unit = rw t at e in inl (cc)
  | inr t ↦ inr (Member-lookup d id unit (rw t at e))
]

is_some-eq_some : (o : Option RetrievedUnit) → is_some o ≡ true → (u : RetrievedUnit) × (o ≡ some u)
is_some-eq_some none h = cc
is_some-eq_some (some u) h = (u, refl)

-- Merging keeps an identifier of each unit.
merge_units-has :
    (first second : List RetrievedUnit) (id : String)
    → contains (map (λ u. u.id) first) id ≡ true
    → contains (map (λ u. u.id) (merge_units first second)) id ≡ true
unfolding merge_units lookup
merge_units-has first second id h =
    let d = merge_into (merge_into [] first) second in
    let known = merge_into-has [] first id h in
    let (u, e) =
      is_some-eq_some (lookup id d)
        (merge_into-has (merge_into [] first) second id (rw known refl)) in
    let same = own-lookup id d u (merge_into-Own _ second (merge_into-Own [] first tt)) e in
    rw (← same) (contains-map_of_Member (λ v. v.id) (map (λ e. e.1) d) u (Member-lookup d id u e))

filter_map-has :
    (f : String → Option RetrievedUnit) (ids : List String) (id : String) (u : RetrievedUnit)
    → contains ids id ≡ true
    → f id ≡ some u
    → Member u (filter_map f ids)
filter_map-has f [] id u h e = cc
filter_map-has f (j ∷ ids) id u h e = elim (Bool-cases (j == id)) [
  | inl t ↦ first (f j) (subst (λ k. f k ≡ some u) (sym ((eq_iff j id).0 t)) e)
  | inr t ↦ added (f j) (filter_map-has f ids id u (rw t at h) e)
]
  where
    first :
        (o : Option RetrievedUnit)
        → o ≡ some u
        → Member u (elim o [ none ↦ filter_map f ids | some y ↦ y ∷ filter_map f ids ])
    first none k = cc
    first (some y) k = inl (cc)

    added :
        (o : Option RetrievedUnit)
        → Member u (filter_map f ids)
        → Member u (elim o [ none ↦ filter_map f ids | some y ↦ y ∷ filter_map f ids ])
    added none m = m
    added (some y) m = inr m

-- The required units have one for each anchor unit.
pub required-has_anchor :
    (anchor_units expansion_units : List RetrievedUnit) (graph_paths : List GraphPath)
    (anchor_ids : List String) (goal : Option RelationGoal) (id : String)
    → contains (map (λ u. u.id) anchor_units) id ≡ true
    → contains
        (map
          (λ u. u.id)
          (required_canonical_units anchor_units expansion_units graph_paths anchor_ids goal))
        id
      ≡ true
unfolding required_canonical_units
required-has_anchor anchor_units expansion_units graph_paths anchor_ids goal id h =
    let ids =
      map (λ (u : RetrievedUnit). u.id) anchor_units ⧺ goal_ids goal anchor_ids graph_paths in
    let merged = merge_units anchor_units expansion_units in
    let by_id = index_by (λ (u : RetrievedUnit). u.id) merged in
    let (u, e) =
      is_some-eq_some (lookup id by_id)
        (index_by-has (λ u. u.id) merged id ∙ merge_units-has anchor_units expansion_units id h) in
    let same : u.id ≡ id =
      index_by-lookup (λ u. u.id) (λ k v. v.id ≡ k) merged
        (All-of_members (λ v. v.id ≡ v.id) merged (λ v m. refl)) id u e in
    let listed : contains (first_occurrence ids) id ≡ true =
      contains-first_occurrence ids id
      ∙ contains-left (map (λ u. u.id) anchor_units) (goal_ids goal anchor_ids graph_paths) id h in
    rw (← same) (
      contains-map_of_Member (λ v. v.id) _ u
        (filter_map-has (λ k. lookup k by_id) (first_occurrence ids) id u listed e))

contains-take_append :
    (n : ℕ) (xs ys : List RetrievedUnit) (id : String)
    → ltb n (length xs) ≡ false
    → contains (map (λ u. u.id) xs) id ≡ true
    → contains (map (λ u. u.id) (take n (xs ⧺ ys))) id ≡ true
contains-take_append n [] ys id b h = cc
contains-take_append zero (x ∷ xs) ys id b h = ground (arith, b)
contains-take_append (suc n) (x ∷ xs) ys id b h =
    ground (arith, b, h, contains-take_append n xs ys id)

-- Pinning returns at most `final_k` units, and each identifier of a required unit.
pub pin_required_units-keeps :
    (ranked required : List RetrievedUnit) (final_k : ℕ) (units : List RetrievedUnit)
    → pin_required_units ranked required final_k ≡ ok units
    → (length units ≤ final_k)
      × ((id : String)
          → contains (map (λ u. u.id) required) id ≡ true
          → contains (map (λ u. u.id) units) id ≡ true)
unfolding pin_required_units
pin_required_units-keeps ranked required final_k units e =
    let (b, e₁) = guard-bind-ok (ltb final_k (length required)) _ _ _ e in
    rw (← ok_inj e₁)
      (length-take_le final_k _, λ id h. contains-take_append final_k required _ id b h)
