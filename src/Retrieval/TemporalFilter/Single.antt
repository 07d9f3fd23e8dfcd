-- ===== src/Retrieval/TemporalFilter/Single.antt =====
-- The temporal filter keeps no two units of a version family: its dictionary holds one for each.
use mathlib.Core.List.{◌++◌ as ◌⧺◌}
use legal_graphrag_platform.Base.{
  Bool, All, List, [], ◌∷◌, map, unique, contains, String, ◌≡◌, refl, sym, ap, ◌∙◌, inl, inr, true,
  false, Option, none, some, ltb, ◌==◌, Bool-cases, eq_iff, arith, All-append,
}
use legal_graphrag_platform.Base.Sort.{All-sort_by, insert_by, sort_by, All-insert_by}
use legal_graphrag_platform.Base.Dict.{Dict, lookup, insert}
use legal_graphrag_platform.Base.Keys.{unique-insert}
use legal_graphrag_platform.Retrieval.Models.{RetrievedUnit}
use legal_graphrag_platform.Retrieval.TemporalFilter.{
  effective_ordinal, Resolution, later_of, resolve_in, resolve_step, resolve_all, nothing_resolved,
}

-- Two units share no version family, but for a blank one.
abbrev Differ : RetrievedUnit → RetrievedUnit → Type 0
Differ a b =
    (family : String)
    → a.version_family_id ≡ some family
    → b.version_family_id ≡ some family
    → (family == "") ≡ true

-- No two units of a list share a version family.
abbrev pub IsSingle : List RetrievedUnit → Type 0
IsSingle [] = Unit
IsSingle (unit ∷ units) = All (Differ unit) units × IsSingle units

-- A unit has no version family, or a blank one.
abbrev IsUnnamed : RetrievedUnit → Type 0
IsUnnamed u = (family : String) → u.version_family_id ≡ some family → (family == "") ≡ true

pub record IsTidy (s : Resolution) : Type 0 where
  own : All (λ e. e.1.version_family_id ≡ some e.0) s.resolved
  distinct : unique (map (λ e. e.0) s.resolved) ≡ true
  unnamed : All IsUnnamed s.ungrouped

pub later_of-family :
    (unit : RetrievedUnit) (family : String) (o : Option RetrievedUnit)
    → ((v : RetrievedUnit) → o ≡ some v → v.version_family_id ≡ some family)
    → unit.version_family_id ≡ some family
    → (later_of o unit).version_family_id ≡ some family
later_of-family unit family none h e = e
later_of-family unit family (some c) h e =
    elim (Bool-cases (ltb (effective_ordinal c) (effective_ordinal unit))) [
      | inl t ↦ rw t e
      | inr t ↦ rw t (h c refl)
    ]

own-insert :
    (k : String) (v : RetrievedUnit) (d : Dict RetrievedUnit)
    → v.version_family_id ≡ some k
    → All (λ e. e.1.version_family_id ≡ some e.0) d
    → All (λ e. e.1.version_family_id ≡ some e.0) (insert k v d)
unfolding insert
own-insert k v [] same h = (same, tt)
own-insert k v ((j, w) ∷ d) same h = elim (Bool-cases (j == k)) [
  | inl e ↦ rw e (same ∙ ap (λ i. some i) (sym ((eq_iff j k).0 e)), h.1)
  | inr e ↦ rw e (h.0, own-insert k v d same h.1)
]

own-lookup :
    (k : String) (d : Dict RetrievedUnit) (v : RetrievedUnit)
    → All (λ e. e.1.version_family_id ≡ some e.0) d
    → lookup k d ≡ some v
    → v.version_family_id ≡ some k
unfolding lookup
own-lookup k [] v h e = cc
own-lookup k ((j, w) ∷ d) v h e = elim (Bool-cases (j == k)) [
  | inl t ↦
      let same : some w ≡ some v = rw t at e in
      let eq : v ≡ w = cc in
      ap (λ u. u.version_family_id) eq ∙ h.0 ∙ ap (λ i. some i) ((eq_iff j k).0 t)
  | inr t ↦ own-lookup k d v h.1 (rw t at e)
]

module _ (s : Resolution) (unit : RetrievedUnit) where
  resolve_in-IsTidy :
      (family : Option String)
      → unit.version_family_id ≡ family
      → IsTidy s
      → IsTidy (resolve_in s unit family)
  unfolding resolve_in
  resolve_in-IsTidy none e h = record {
    own = h.own;
    distinct = h.distinct;
    unnamed = All-append IsUnnamed s.ungrouped (unit ∷ []) h.unnamed ((λ f named. cc), tt);
  }
  resolve_in-IsTidy (some family) e h = elim (Bool-cases (family == "")) [
    | inl t ↦ rw t (record {
      own = h.own;
      distinct = h.distinct;
      unnamed = All-append IsUnnamed s.ungrouped (unit ∷ []) h.unnamed (blank t, tt);
    })
    | inr t ↦ rw t (record {
      own =
          own-insert family _ s.resolved
            (later_of-family unit family (lookup family s.resolved)
              (λ v found. own-lookup family s.resolved v h.own found) e)
            h.own;
      distinct = unique-insert family _ s.resolved h.distinct;
      unnamed = h.unnamed;
    })
  ]
    where
      blank : (family == "") ≡ true → IsUnnamed unit
      blank t f named = let same : family ≡ f = cc in rw (← same) t

resolve_all-IsTidy :
    (units : List RetrievedUnit) (s : Resolution) → IsTidy s → IsTidy (resolve_all s units)
unfolding resolve_all resolve_step
resolve_all-IsTidy [] s h = h
resolve_all-IsTidy (unit ∷ units) s h =
    resolve_all-IsTidy units (resolve_in s unit unit.version_family_id)
      (resolve_in-IsTidy s unit unit.version_family_id refl h)

unnamed-Differ : (u : RetrievedUnit) (us : List RetrievedUnit) → IsUnnamed u → All (Differ u) us
unnamed-Differ u [] h = tt
unnamed-Differ u (v ∷ us) h = ((λ f mine theirs. h f mine), unnamed-Differ u us h)

entries-Differ :
    (k : String) (u : RetrievedUnit) (d : Dict RetrievedUnit)
    → u.version_family_id ≡ some k
    → contains (map (λ e. e.0) d) k ≡ false
    → All (λ e. e.1.version_family_id ≡ some e.0) d
    → All (Differ u) (map (λ e. e.1) d)
entries-Differ k u [] same absent h = tt
entries-Differ k u ((j, w) ∷ d) same absent h =
    (clash, entries-Differ k u d same (ground (arith, absent)) h.1)
  where
    clash : Differ u w
    clash f mine theirs =
        let first : j ≡ k = cc in
        ground (arith, absent, (eq_iff j k).1 first, (eq_iff k j).1 (sym first))

entries-IsSingle :
    (d : Dict RetrievedUnit)
    → All (λ e. e.1.version_family_id ≡ some e.0) d
    → unique (map (λ e. e.0) d) ≡ true
    → IsSingle (map (λ e. e.1) d)
entries-IsSingle [] h u = tt
entries-IsSingle ((k, v) ∷ d) h u =
    (entries-Differ k v d h.0 (ground (arith, u)) h.1, entries-IsSingle d h.1 (ground (arith, u)))

joined-IsSingle : (us vs : List RetrievedUnit) → All IsUnnamed us → IsSingle vs → IsSingle (us ⧺ vs)
joined-IsSingle [] vs h s = s
joined-IsSingle (u ∷ us) vs h s = (unnamed-Differ u (us ⧺ vs) h.0, joined-IsSingle us vs h.1 s)

module _ (le : RetrievedUnit → RetrievedUnit → Bool) where
  insert_by-IsSingle :
      (u : RetrievedUnit) (us : List RetrievedUnit)
      → All (Differ u) us
      → IsSingle us
      → IsSingle (insert_by le u us)
  unfolding insert_by
  insert_by-IsSingle u [] h s = (tt, tt)
  insert_by-IsSingle u (v ∷ us) h s = elim (Bool-cases (le u v)) [
    | inl e ↦ rw e (h, s)
    | inr e ↦
        rw e (
          All-insert_by le (Differ v) u us (λ f a b. h.0 f b a) s.0,
          insert_by-IsSingle u us h.1 s.1,
        )
  ]

  sort_by-IsSingle : (us : List RetrievedUnit) → IsSingle us → IsSingle (sort_by le us)
  unfolding sort_by
  sort_by-IsSingle [] s = tt
  sort_by-IsSingle (u ∷ us) s =
      insert_by-IsSingle u (sort_by le us) (All-sort_by le (Differ u) us s.0)
        (sort_by-IsSingle us s.1)

  -- Whatever the order, the units of a run share no version family.
  pub resolved-IsSingle :
      (units : List RetrievedUnit)
      → let s = resolve_all nothing_resolved units in
        IsSingle (sort_by le (s.ungrouped ⧺ map (λ e. e.1) s.resolved))
  resolved-IsSingle units =
      let s = resolve_all nothing_resolved units in
      let tidy =
        resolve_all-IsTidy units nothing_resolved
          (record { own = tt; distinct = refl; unnamed = tt }) in
      sort_by-IsSingle _ (
        joined-IsSingle s.ungrouped (map (λ e. e.1) s.resolved) tidy.unnamed
          (entries-IsSingle s.resolved tidy.own tidy.distinct))
