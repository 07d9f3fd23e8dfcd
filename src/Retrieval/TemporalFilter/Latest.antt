-- ===== src/Retrieval/TemporalFilter/Latest.antt =====
-- Of each version family the temporal filter keeps a version that came into effect last.
use mathlib.Core.List.{◌++◌ as ◌⧺◌}
use legal_graphrag_platform.Base.Sort.{Member-sort_by, sort_by}
use mathlib.Core.Path.{subst}
use legal_graphrag_platform.Base.{
  All-mono, map, All, ◌↔◌, ℕ, ◌≤◌, String, ◌≡◌, refl, sym, ap, ◌∙◌, inl, inr, Bool, true, false,
  Option, none, some, List, [], ◌∷◌, if◌then◌else◌, ltb, Member, arith, ◌==◌, Bool-cases, eq_iff,
  eq_refl,
}
use legal_graphrag_platform.Base.Append.{Member-left, Member-right}
use legal_graphrag_platform.Base.Dict.{Dict, lookup, lookup-insert}
use legal_graphrag_platform.Retrieval.Models.{RetrievedUnit}
use legal_graphrag_platform.Retrieval.TemporalFilter.Single.{
  IsSingle, later_of-family, resolved-IsSingle,
}
use legal_graphrag_platform.Retrieval.TemporalFilter.{
  stable_rank_le, resolve_step, FloatOrder, resolve_explicit_version_families, resolve_all,
  nothing_resolved, effective_ordinal, Resolution, later_of, resolve_in,
}

-- A unit is kept, or one of its version family is, which came into effect no earlier. A unit
-- without a family, or with a blank one, can only be kept itself.
pub data IsRepresented (kept : List RetrievedUnit) (unit : RetrievedUnit) : Type 0 where
  itself : Member unit kept → IsRepresented kept unit
  by_later :
      (family : String) (latest : RetrievedUnit)
      → (family == "") ≡ false
      → unit.version_family_id ≡ some family
      → latest.version_family_id ≡ some family
      → Member latest kept
      → effective_ordinal unit ≤ effective_ordinal latest
      → IsRepresented kept unit

-- While the loop runs, a unit is set aside, or its family has a unit that is no earlier.
data IsSettled (s : Resolution) (unit : RetrievedUnit) : Type 0 where
  alone : Member unit s.ungrouped → IsSettled s unit
  grouped :
      (family : String) (r : RetrievedUnit)
      → (family == "") ≡ false
      → lookup family s.resolved ≡ some r
      → unit.version_family_id ≡ some family
      → effective_ordinal unit ≤ effective_ordinal r
      → IsSettled s unit

-- The entries are found under their own families.
abbrev IsKeyed : Resolution → Type 0
IsKeyed s =
    (k : String) (v : RetrievedUnit) → lookup k s.resolved ≡ some v → v.version_family_id ≡ some k

not_earlier :
    (o : Option RetrievedUnit) (unit : RetrievedUnit)
    → effective_ordinal unit ≤ effective_ordinal (later_of o unit)
not_earlier none unit = omega (arith)
not_earlier (some c) unit = elim (Bool-cases (ltb (effective_ordinal c) (effective_ordinal unit))) [
  | inl e ↦ rw e (omega (arith))
  | inr e ↦ rw e (not_below (effective_ordinal c) (effective_ordinal unit) e)
]
  where
    not_below : (a b : ℕ) → ltb a b ≡ false → b ≤ a
    not_below a b h = ground arith

not_earlier_than :
    (r unit : RetrievedUnit) → effective_ordinal r ≤ effective_ordinal (later_of (some r) unit)
not_earlier_than r unit = elim (Bool-cases (ltb (effective_ordinal r) (effective_ordinal unit))) [
  | inl e ↦ rw e (below (effective_ordinal r) (effective_ordinal unit) e)
  | inr e ↦ rw e (omega (arith))
]
  where
    below : (a b : ℕ) → ltb a b ≡ true → a ≤ b
    below a b h = ground arith

-- The loop's body keeps the keys right, keeps what is settled, and settles its unit.
module _ (s : Resolution) (unit : RetrievedUnit) where
  resolve_in-IsKeyed :
      (family : Option String)
      → unit.version_family_id ≡ family
      → IsKeyed s
      → IsKeyed (resolve_in s unit family)
  unfolding resolve_in
  resolve_in-IsKeyed none e keyed = keyed
  resolve_in-IsKeyed (some family) e keyed = elim (Bool-cases (family == "")) [
    | inl t ↦ rw t keyed
    | inr t ↦ rw t λ k v found.
        entry k v (family == k) (eq_iff family k)
          (sym (lookup-insert family k _ s.resolved) ∙ found)
  ]
    where
      entry :
          (k : String) (v : RetrievedUnit) (b : Bool)
          → ((b ≡ true) ↔ (family ≡ k))
          → (if b then some (later_of (lookup family s.resolved) unit) else lookup k s.resolved)
            ≡ some v
          → v.version_family_id ≡ some k
      entry k v true same found =
          let it : later_of (lookup family s.resolved) unit ≡ v = cc in
          subst (λ (u : RetrievedUnit). u.version_family_id ≡ some k) it
            (later_of-family unit family (lookup family s.resolved) (λ w h. keyed family w h) e
              ∙ ap (λ f. some f) (same.0 refl))
      entry k v false same found = keyed k v found

  resolve_in-IsSettled :
      (v : RetrievedUnit) (family : Option String)
      → IsSettled s v
      → IsSettled (resolve_in s unit family) v
  unfolding resolve_in
  resolve_in-IsSettled v none (alone m) = alone (Member-left v s.ungrouped (unit ∷ []) m)
  resolve_in-IsSettled v none (grouped f r named found same le) = grouped f r named found same le
  resolve_in-IsSettled v (some family) (alone m) = elim (Bool-cases (family == "")) [
    | inl t ↦ rw t (alone (Member-left v s.ungrouped (unit ∷ []) m))
    | inr t ↦ rw t (alone m)
  ]
  resolve_in-IsSettled v (some family) (grouped f r named found same le) =
      elim (Bool-cases (family == "")) [
        | inl t ↦ rw t (grouped f r named found same le)
        | inr t ↦ rw t (elim (Bool-cases (family == f)) [
          | inl g ↦
              grouped f (later_of (some r) unit) named
                (lookup-insert family f _ s.resolved ∙ later_entry g) same
                (le_trans le (not_earlier_than r unit))
          | inr g ↦ grouped f r named (lookup-insert family f _ s.resolved ∙ (rw g found)) same le
        ])
      ]
    where
      le_trans : {a b c : ℕ} → a ≤ b → b ≤ c → a ≤ c
      le_trans h k = omega (arith)

      later_entry :
          (family == f) ≡ true
          → (if family == f
              then some (later_of (lookup family s.resolved) unit)
              else lookup f s.resolved)
            ≡ some (later_of (some r) unit)
      later_entry g =
          let there : lookup family s.resolved ≡ some r =
            subst (λ k. lookup k s.resolved ≡ some r) (sym ((eq_iff family f).0 g)) found in
          rw g (rw there refl)

  resolve_in-settles :
      (family : Option String)
      → unit.version_family_id ≡ family
      → IsSettled (resolve_in s unit family) unit
  unfolding resolve_in
  resolve_in-settles none e = alone (Member-right unit s.ungrouped (unit ∷ []) (inl refl))
  resolve_in-settles (some family) e = elim (Bool-cases (family == "")) [
    | inl t ↦ rw t (alone (Member-right unit s.ungrouped (unit ∷ []) (inl refl)))
    | inr t ↦ rw t (
        grouped family (later_of (lookup family s.resolved) unit) t
          (lookup-insert family family _ s.resolved ∙ (rw (eq_refl family) refl)) e
          (not_earlier (lookup family s.resolved) unit))
  ]

-- What a run of the loop over some units comes to.
record IsRun (s t : Resolution) (units : List RetrievedUnit) : Type 0 where
  pub keyed : IsKeyed t
  pub still : (v : RetrievedUnit) → IsSettled s v → IsSettled t v
  pub settled : All (IsSettled t) units

resolve_all-IsRun :
    (units : List RetrievedUnit) (s : Resolution) → IsKeyed s → IsRun s (resolve_all s units) units
unfolding resolve_all resolve_step
resolve_all-IsRun [] s keyed = record { keyed = keyed; still = λ v h. h; settled = tt }
resolve_all-IsRun (unit ∷ units) s keyed =
    let family = unit.version_family_id in
    let rest =
      resolve_all-IsRun units (resolve_in s unit family)
        (resolve_in-IsKeyed s unit family refl keyed) in
    record {
      keyed = rest.keyed;
      still = λ v h. rest.still v (resolve_in-IsSettled s unit v family h);
      settled = (rest.still unit (resolve_in-settles s unit family refl), rest.settled);
    }

nothing-IsKeyed : IsKeyed nothing_resolved
unfolding lookup
nothing-IsKeyed k v found = cc

Member-lookup :
    (k : String) (d : Dict RetrievedUnit) (v : RetrievedUnit)
    → lookup k d ≡ some v
    → Member v (map (λ e. e.1) d)
unfolding lookup
Member-lookup k [] v h = cc
Member-lookup k ((j, w) ∷ d) v h = elim (Bool-cases (j == k)) [
  | inl t ↦ let same : some w ≡ some v = rw t at h in let eq : v ≡ w = cc in inl eq
  | inr t ↦ inr (Member-lookup k d v (rw t at h))
]

-- The filter keeps no two units of the same version family, but for a blank one. Every unit whose
-- family is missing or blank is itself kept; of every other, the unit itself is kept or one of the
-- same family that came into effect no earlier.
pub resolve_explicit_version_families-IsRepresented :
    (order : FloatOrder) (units : List RetrievedUnit)
    → let kept = resolve_explicit_version_families order units in
      IsSingle kept × All (IsRepresented kept) units
unfolding resolve_explicit_version_families
resolve_explicit_version_families-IsRepresented order units =
    let final = resolve_all nothing_resolved units in
    let run = resolve_all-IsRun units nothing_resolved nothing-IsKeyed in
    (
      resolved-IsSingle (stable_rank_le order) units,
      All-mono (IsSettled final) _ (represented final run.keyed) units run.settled,
    )
  where
    represented :
        (s : Resolution)
        → IsKeyed s
        → (u : RetrievedUnit) → IsSettled s u
        → IsRepresented (sort_by (stable_rank_le order) (s.ungrouped ⧺ map (λ e. e.1) s.resolved)) u
    represented s keyed u (alone m) = itself (
        Member-sort_by (stable_rank_le order) u _
          (Member-left u s.ungrouped (map (λ e. e.1) s.resolved) m))
    represented s keyed u (grouped f r named found same le) =
        by_later f r named same (keyed f r found)
          (Member-sort_by (stable_rank_le order) r _ (
            Member-right r s.ungrouped (map (λ e. e.1) s.resolved)
              (Member-lookup f s.resolved r found)))
          le
