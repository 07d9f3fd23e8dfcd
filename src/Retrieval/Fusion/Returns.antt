-- ===== src/Retrieval/Fusion/Returns.antt =====
-- The fusion of supported channels returns: each score that it stores has its unit.
use legal_graphrag_platform.Base.Float.{Float}
use legal_graphrag_platform.Base.{
  ℕ, ◌+◌, String, ◌≡◌, refl, inl, inr, true, false, Option, none, some, List, [], ◌∷◌, map, ltb,
  is_some, All, ◌==◌, Bool-cases, eq_refl, All-mono, take,
}
use legal_graphrag_platform.Base.Result.{ok}
use legal_graphrag_platform.Base.Dict.{Dict, lookup, insert, lookup-insert}
use legal_graphrag_platform.Base.Sort.{sort_by, All-sort_by}
use legal_graphrag_platform.Retrieval.Models.{RetrievedUnit, RetrievalChannel}
use legal_graphrag_platform.Retrieval.Fusion.{
  FloatArithmetic, Fused, channel_of_name, fuse_unit, fuse_results, fuse_all, set_final_scores,
  fused_le, nothing_fused, by_source, fuse_channels,
}

-- The unit is in the dictionary.
abbrev HasUnit : Dict RetrievedUnit → String → Type 0
HasUnit units id = is_some (lookup id units) ≡ true

-- Each score has its unit.
abbrev HasUnits : Dict RetrievedUnit → Dict Float → Type 0
HasUnits units scores = All (λ e. HasUnit units e.0) scores

HasUnit-insert :
    (units : Dict RetrievedUnit) (id j : String) (unit : RetrievedUnit)
    → HasUnit units j
    → HasUnit (insert id unit units) j
HasUnit-insert units id j unit h = elim (Bool-cases (id == j)) [
  | inl e ↦ rw (lookup-insert, e) refl
  | inr e ↦ rw (lookup-insert, e) h
]

HasUnit-inserted :
    (units : Dict RetrievedUnit) (id : String) (unit : RetrievedUnit)
    → HasUnit (insert id unit units) id
HasUnit-inserted units id unit = rw (lookup-insert, eq_refl) refl

HasUnits-insert :
    (units : Dict RetrievedUnit) (scores : Dict Float) (id : String) (unit : RetrievedUnit)
    → HasUnits units scores
    → HasUnits (insert id unit units) scores
HasUnits-insert units scores id unit h =
    All-mono (λ e. HasUnit units e.0) (λ e. HasUnit (insert id unit units) e.0)
      (λ e k. HasUnit-insert units id e.0 unit k) scores h

HasUnits-score :
    (units : Dict RetrievedUnit) (scores : Dict Float) (id : String) (score : Float)
    → HasUnit units id
    → HasUnits units scores
    → HasUnits units (insert id score scores)
unfolding insert
HasUnits-score units [] id score k h = (k, tt)
HasUnits-score units ((j, x) ∷ scores) id score k h = elim (Bool-cases (j == id)) [
  | inl e ↦ rw e h
  | inr e ↦ rw e (h.0, HasUnits-score units scores id score k h.1)
]

fuse_results-HasUnits :
    (floats : FloatArithmetic) (k : ℕ) (source : RetrievalChannel) (rank : ℕ) (s : Fused)
    (results : List RetrievedUnit)
    → HasUnits s.units s.scores
    → let r = fuse_results floats k source rank s results in HasUnits r.units r.scores
unfolding fuse_results fuse_unit
fuse_results-HasUnits floats k source rank s [] h = h
fuse_results-HasUnits floats k source rank s (unit ∷ results) h =
    fuse_results-HasUnits floats k source (rank + 1) (fuse_unit floats k source rank s unit) results
      (HasUnits-score _ s.scores unit.id _ (HasUnit-inserted s.units unit.id _)
        (HasUnits-insert s.units s.scores unit.id _ h))

-- The name is one of a supported channel.
abbrev pub IsSupported : String × List RetrievedUnit → Type 0
IsSupported entry = is_some (channel_of_name entry.0) ≡ true

is_some-eq_some {ℓ} : {A : Type ℓ} (o : Option A) → is_some o ≡ true → (a : A) × (o ≡ some a)
is_some-eq_some none h = cc
is_some-eq_some (some a) h = (a, refl)

fuse_all-returns :
    (floats : FloatArithmetic) (k : ℕ) (s : Fused) (cs : List (String × List RetrievedUnit))
    → All IsSupported cs
    → HasUnits s.units s.scores
    → (r : Fused) × (fuse_all floats k s cs ≡ ok r) × HasUnits r.units r.scores
unfolding fuse_all
fuse_all-returns floats k s [] supported h = (s, refl, h)
fuse_all-returns floats k s ((source, results) ∷ cs) supported h =
    let (channel, e) = is_some-eq_some (channel_of_name source) supported.0 in
    let (r, e₁, h₁) =
      fuse_all-returns floats k (fuse_results floats k channel 1 s results) cs supported.1
        (fuse_results-HasUnits floats k channel 1 s results h) in
    (r, rw e e₁, h₁)

set_final_scores-returns :
    (units : Dict RetrievedUnit) (scores : Dict Float)
    → HasUnits units scores
    → (r : Dict RetrievedUnit) × (set_final_scores units scores ≡ ok r)
unfolding set_final_scores
set_final_scores-returns units [] h = (units, refl)
set_final_scores-returns units ((id, score) ∷ scores) h =
    let (unit, e) = is_some-eq_some (lookup id units) h.0 in
    let (r, e₁) =
      set_final_scores-returns (insert id (record unit { final_score = some score }) units) scores
        (HasUnits-insert units scores id _ h.1) in
    (r, rw e e₁)

-- If `top_n` is positive and every channel is one of the three supported ones, then the fusion
-- returns units: it raises no value error, and no key error for a score without a unit.
pub fuse_channels-returns :
    (floats : FloatArithmetic) (k : ℕ) (channels : Dict (List RetrievedUnit)) (top_n : ℕ)
    → ltb top_n 1 ≡ false
    → All IsSupported channels
    → (units : List RetrievedUnit) × (fuse_channels floats k channels top_n ≡ ok units)
unfolding fuse_channels
fuse_channels-returns floats k channels top_n positive supported =
    let (s, e, h) =
      fuse_all-returns floats k nothing_fused (by_source channels)
        (All-sort_by _ IsSupported channels supported) tt in
    let (units, e₁) = set_final_scores-returns s.units s.scores h in
    (take top_n (sort_by (fused_le floats.order) (map (λ u. u.1) units)), rw (positive, e, e₁) refl)
