-- ===== src/Retrieval/Fusion/Distinct.antt =====
-- The fusion returns no unit twice: its dictionary holds each unit under the unit's identifier.
use legal_graphrag_platform.Base.Float.{Float}
use legal_graphrag_platform.Base.{
  ℕ, ◌+◌, String, ◌≡◌, refl, sym, ap, ◌∙◌, inl, inr, true, Option, none, some, List, [], ◌∷◌, map,
  unique, All, ◌==◌, Bool-cases, eq_iff, take,
}
use legal_graphrag_platform.Base.Result.{
  ok, >>=-eq-ok, of_option-bind-ok, guard-bind-ok, ok_inj, value_error,
}
use Prim.Native.String.{◌++◌}
use legal_graphrag_platform.Base.Dict.{Dict, lookup, insert}
use legal_graphrag_platform.Base.Keys.{unique-take, unique-sort_by, unique-insert}
use legal_graphrag_platform.Base.Sort.{sort_by}
use legal_graphrag_platform.Retrieval.Models.{RetrievedUnit, RetrievalChannel}
use legal_graphrag_platform.Retrieval.Fusion.{
  FloatArithmetic, Fused, channel_of_name, merge_source_metadata, or_default, fuse_unit,
  fuse_results, fuse_all, set_final_scores, fused_le, nothing_fused, by_source, fuse_channels,
}

-- Each unit is under its own identifier, and no identifier is there twice.
record IsKeyed (units : Dict RetrievedUnit) : Type 0 where
  pub own : All (λ e. e.1.id ≡ e.0) units
  pub distinct : unique (map (λ e. e.0) units) ≡ true

pub own-insert :
    (id : String) (unit : RetrievedUnit) (units : Dict RetrievedUnit)
    → unit.id ≡ id
    → All (λ e. e.1.id ≡ e.0) units
    → All (λ e. e.1.id ≡ e.0) (insert id unit units)
unfolding insert
own-insert id unit [] same h = (same, tt)
own-insert id unit ((j, w) ∷ units) same h = elim (Bool-cases (j == id)) [
  | inl e ↦ let at_key : j ≡ id = (eq_iff j id).0 e in rw e (same ∙ sym at_key, h.1)
  | inr e ↦ rw e (h.0, own-insert id unit units same h.1)
]

pub own-lookup :
    (id : String) (units : Dict RetrievedUnit) (unit : RetrievedUnit)
    → All (λ e. e.1.id ≡ e.0) units
    → lookup id units ≡ some unit
    → unit.id ≡ id
unfolding lookup
own-lookup id [] unit h e = cc
own-lookup id ((j, w) ∷ units) unit h e = elim (Bool-cases (j == id)) [
  | inl t ↦
      let same : some w ≡ some unit = rw t at e in
      let eq : w ≡ unit = cc in
      let at_key : j ≡ id = (eq_iff j id).0 t in ap (λ u. u.id) (sym eq) ∙ h.0 ∙ at_key
  | inr t ↦ own-lookup id units unit h.1 (rw t at e)
]

insert-IsKeyed :
    (id : String) (unit : RetrievedUnit) (units : Dict RetrievedUnit)
    → unit.id ≡ id
    → IsKeyed units
    → IsKeyed (insert id unit units)
insert-IsKeyed id unit units same h = record {
  own = own-insert id unit units same h.own;
  distinct = unique-insert id unit units h.distinct;
}

merged-id :
    (existing incoming : RetrievedUnit) (source : RetrievalChannel)
    → (merge_source_metadata existing incoming source).id ≡ existing.id
merged-id existing incoming RetrievalChannel.vector = refl
merged-id existing incoming RetrievalChannel.fulltext = refl
merged-id existing incoming RetrievalChannel.graph = refl

or_default-id :
    (o : Option RetrievedUnit) (unit : RetrievedUnit)
    → ((u : RetrievedUnit) → o ≡ some u → u.id ≡ unit.id)
    → (or_default o unit).id ≡ unit.id
or_default-id none unit known = refl
or_default-id (some u) unit known = known u refl

fuse_results-IsKeyed :
    (floats : FloatArithmetic) (k : ℕ) (source : RetrievalChannel) (rank : ℕ) (s : Fused)
    (results : List RetrievedUnit)
    → IsKeyed s.units
    → IsKeyed (fuse_results floats k source rank s results).units
unfolding fuse_results fuse_unit
fuse_results-IsKeyed floats k source rank s [] h = h
fuse_results-IsKeyed floats k source rank s (unit ∷ results) h =
    fuse_results-IsKeyed floats k source (rank + 1) (fuse_unit floats k source rank s unit) results
      (insert-IsKeyed unit.id _ s.units
        (merged-id (or_default (lookup unit.id s.units) unit) unit source
          ∙ or_default-id (lookup unit.id s.units) unit
              (λ u e. own-lookup unit.id s.units u h.own e))
        h)

fuse_all-IsKeyed :
    (floats : FloatArithmetic) (k : ℕ) (s r : Fused) (cs : List (String × List RetrievedUnit))
    → IsKeyed s.units
    → fuse_all floats k s cs ≡ ok r
    → IsKeyed r.units
unfolding fuse_all
fuse_all-IsKeyed floats k s r [] h e = let same : s ≡ r = cc in rw (← same) h
fuse_all-IsKeyed floats k s r ((source, results) ∷ cs) h e =
    let (channel, e₁, e₂) =
      of_option-bind-ok (channel_of_name source) value_error
        ("Unsupported retrieval channel: " ++ source)
        (λ channel. fuse_all floats k (fuse_results floats k channel 1 s results) cs) e in
    fuse_all-IsKeyed floats k (fuse_results floats k channel 1 s results) r cs
      (fuse_results-IsKeyed floats k channel 1 s results h) e₂

set_final_scores-IsKeyed :
    (units r : Dict RetrievedUnit) (scores : Dict Float)
    → IsKeyed units
    → set_final_scores units scores ≡ ok r
    → IsKeyed r
unfolding set_final_scores
set_final_scores-IsKeyed units r [] h e = let same : units ≡ r = cc in rw (← same) h
set_final_scores-IsKeyed units r ((id, score) ∷ scores) h e =
    let (unit, e₁, e₂) = of_option-bind-ok _ _ _ _ e in
    set_final_scores-IsKeyed (insert id (record unit { final_score = some score }) units) r scores
      (insert-IsKeyed id (record unit { final_score = some score }) units
        (own-lookup id units unit h.own e₁) h)
      e₂

own-ids :
    (units : Dict RetrievedUnit)
    → All (λ e. e.1.id ≡ e.0) units
    → map (λ u. u.id) (map (λ e. e.1) units) ≡ map (λ e. e.0) units
own-ids [] h = refl
own-ids ((id, unit) ∷ units) h = rw (h.0, own-ids units h.1) refl

-- If the channels are fused, then no two of the units that are returned have the same identifier,
-- also when several channels find the unit or one of them lists it twice.
pub fuse_channels-unique :
    (floats : FloatArithmetic) (k : ℕ) (channels : Dict (List RetrievedUnit)) (top_n : ℕ)
    (units : List RetrievedUnit)
    → fuse_channels floats k channels top_n ≡ ok units
    → unique (map (λ u. u.id) units) ≡ true
unfolding fuse_channels
fuse_channels-unique floats k channels top_n units e =
    let (e₀, e₁) = guard-bind-ok _ _ _ _ e in
    let (s, e₂, e₃) = >>=-eq-ok (fuse_all floats k nothing_fused (by_source channels)) _ e₁ in
    let (all_units, e₄, e₅) = >>=-eq-ok (set_final_scores s.units s.scores) _ e₃ in
    let le = fused_le floats.order in
    let same : take top_n (sort_by le (map (λ u. u.1) all_units)) ≡ units = ok_inj e₅ in
    let keyed =
      set_final_scores-IsKeyed s.units all_units s.scores
        (fuse_all-IsKeyed floats k nothing_fused s (by_source channels)
          (record { own = tt; distinct = refl }) e₂)
        e₄ in
    rw (← same) (
      unique-take (λ u. u.id) top_n (sort_by le (map (λ u. u.1) all_units))
        (unique-sort_by (λ u. u.id) le (map (λ u. u.1) all_units)
          ∙ ap unique (own-ids all_units keyed.own)
          ∙ keyed.distinct))
