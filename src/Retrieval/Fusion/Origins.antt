-- ===== src/Retrieval/Fusion/Origins.antt =====
-- Where the fused units come from, and how many there are.
use legal_graphrag_platform.Base.Float.{Float}
use legal_graphrag_platform.Base.{
  ℕ, ◌+◌, ◌≤◌, String, ◌≡◌, refl, ap, Option, none, some, List, [], ◌∷◌, map, All, Member, length,
  take, All-take, length-take_le, All-map, All-of_members,
}
use legal_graphrag_platform.Base.Result.{
  ok, >>=-eq-ok, of_option-bind-ok, guard-bind-ok, ok_inj, value_error,
}
use Prim.Native.String.{◌++◌}
use legal_graphrag_platform.Base.Dict.{Dict, lookup, insert, All-insert, All-found}
use legal_graphrag_platform.Base.Sort.{sort_by, All-sort_by}
use legal_graphrag_platform.Retrieval.Models.{RetrievedUnit, RetrievalChannel}
use legal_graphrag_platform.Retrieval.Fusion.{
  FloatArithmetic, Fused, channel_of_name, merge_source_metadata, or_default, fuse_unit,
  fuse_results, fuse_all, set_final_scores, fused_le, nothing_fused, by_source, fuse_channels,
}

-- The unit with the scores and the sources of another.
abbrev scored_as : RetrievedUnit → RetrievedUnit → RetrievedUnit
scored_as original unit = record original {
  vector_score = unit.vector_score;
  bm25_score = unit.bm25_score;
  graph_score = unit.graph_score;
  final_score = unit.final_score;
  retrieval_sources = unit.retrieval_sources;
}

-- A unit of one of the channels, with other scores and sources.
pub record IsOfChannel (channels : Dict (List RetrievedUnit)) (unit : RetrievedUnit) : Type 0 where
  pub source : String
  pub results : List RetrievedUnit
  pub channel : Member (source, results) channels
  pub original : RetrievedUnit
  pub found : Member original results
  pub same : unit ≡ scored_as original unit

module _ (channels : Dict (List RetrievedUnit)) where
  -- Another choice of scores and sources leaves it a unit of the channel.
  rescored-IsOfChannel :
      (unit scores : RetrievedUnit)
      → IsOfChannel channels unit
      → IsOfChannel channels (scored_as unit scores)
  rescored-IsOfChannel unit scores h = record {
    source = h.source;
    results = h.results;
    channel = h.channel;
    original = h.original;
    found = h.found;
    same = ap (λ u. scored_as u scores) h.same;
  }

  merged-IsOfChannel :
      (existing incoming : RetrievedUnit) (source : RetrievalChannel)
      → IsOfChannel channels existing
      → IsOfChannel channels (merge_source_metadata existing incoming source)
  merged-IsOfChannel existing incoming RetrievalChannel.vector h =
      rescored-IsOfChannel existing
        (merge_source_metadata existing incoming RetrievalChannel.vector) h
  merged-IsOfChannel existing incoming RetrievalChannel.fulltext h =
      rescored-IsOfChannel existing
        (merge_source_metadata existing incoming RetrievalChannel.fulltext) h
  merged-IsOfChannel existing incoming RetrievalChannel.graph h =
      rescored-IsOfChannel existing (merge_source_metadata existing incoming RetrievalChannel.graph)
        h

  or_default-IsOfChannel :
      (o : Option RetrievedUnit) (unit : RetrievedUnit)
      → ((u : RetrievedUnit) → o ≡ some u → IsOfChannel channels u)
      → IsOfChannel channels unit
      → IsOfChannel channels (or_default o unit)
  or_default-IsOfChannel none unit known new = new
  or_default-IsOfChannel (some u) unit known new = known u refl

  abbrev AllOfChannel : Dict RetrievedUnit → Type 0
  AllOfChannel units = All (λ e. IsOfChannel channels e.1) units

  fuse_results-AllOfChannel :
      (floats : FloatArithmetic) (k : ℕ) (source : RetrievalChannel) (rank : ℕ) (s : Fused)
      (results : List RetrievedUnit)
      → All (IsOfChannel channels) results
      → AllOfChannel s.units
      → AllOfChannel (fuse_results floats k source rank s results).units
  unfolding fuse_results fuse_unit
  fuse_results-AllOfChannel floats k source rank s [] new h = h
  fuse_results-AllOfChannel floats k source rank s (unit ∷ results) new h =
      fuse_results-AllOfChannel floats k source (rank + 1) (fuse_unit floats k source rank s unit)
        results new.1
        (All-insert (IsOfChannel channels) unit.id _ s.units
          (merged-IsOfChannel _ unit source (
            or_default-IsOfChannel (lookup unit.id s.units) unit
              (λ u e. All-found (IsOfChannel channels) unit.id s.units u h e) new.0))
          h)

  fuse_all-AllOfChannel :
      (floats : FloatArithmetic) (k : ℕ) (s r : Fused) (cs : List (String × List RetrievedUnit))
      → All (λ c. All (IsOfChannel channels) c.1) cs
      → AllOfChannel s.units
      → fuse_all floats k s cs ≡ ok r
      → AllOfChannel r.units
  unfolding fuse_all
  fuse_all-AllOfChannel floats k s r [] new h e = let same : s ≡ r = cc in rw (← same) h
  fuse_all-AllOfChannel floats k s r ((source, results) ∷ cs) new h e =
      let (channel, e₁, e₂) =
        of_option-bind-ok (channel_of_name source) value_error
          ("Unsupported retrieval channel: " ++ source)
          (λ channel. fuse_all floats k (fuse_results floats k channel 1 s results) cs) e in
      fuse_all-AllOfChannel floats k (fuse_results floats k channel 1 s results) r cs new.1
        (fuse_results-AllOfChannel floats k channel 1 s results new.0 h) e₂

  set_final_scores-AllOfChannel :
      (units r : Dict RetrievedUnit) (scores : Dict Float)
      → AllOfChannel units
      → set_final_scores units scores ≡ ok r
      → AllOfChannel r
  unfolding set_final_scores
  set_final_scores-AllOfChannel units r [] h e = let same : units ≡ r = cc in rw (← same) h
  set_final_scores-AllOfChannel units r ((id, score) ∷ scores) h e =
      let (unit, e₁, e₂) = of_option-bind-ok _ _ _ _ e in
      let known = All-found (IsOfChannel channels) id units unit h e₁ in
      set_final_scores-AllOfChannel (insert id (record unit { final_score = some score }) units) r
        scores
        (All-insert (IsOfChannel channels) id _ units
          (rescored-IsOfChannel unit (record unit { final_score = some score }) known) h)
        e₂

  channel-AllOfChannel :
      (entry : String × List RetrievedUnit)
      → Member entry channels
      → All (IsOfChannel channels) entry.1
  channel-AllOfChannel entry m = All-of_members (IsOfChannel channels) entry.1 (λ u found. record {
    source = entry.0;
    results = entry.1;
    channel = m;
    original = u;
    found = found;
    same = refl;
  })

-- If the channels are fused, then at most `top_n` units are returned, and each is a unit that one
-- of the channels found, with nothing changed but its scores and its retrieval sources.
pub fuse_channels-IsOfChannel :
    (floats : FloatArithmetic) (k : ℕ) (channels : Dict (List RetrievedUnit)) (top_n : ℕ)
    (units : List RetrievedUnit)
    → fuse_channels floats k channels top_n ≡ ok units
    → (length units ≤ top_n) × All (IsOfChannel channels) units
unfolding fuse_channels
fuse_channels-IsOfChannel floats k channels top_n units e =
    let (e₀, e₁) = guard-bind-ok _ _ _ _ e in
    let (s, e₂, e₃) = >>=-eq-ok (fuse_all floats k nothing_fused (by_source channels)) _ e₁ in
    let (all_units, e₄, e₅) = >>=-eq-ok (set_final_scores s.units s.scores) _ e₃ in
    let le = fused_le floats.order in
    let same : take top_n (sort_by le (map (λ u. u.1) all_units)) ≡ units = ok_inj e₅ in
    let fused =
      fuse_all-AllOfChannel channels floats k nothing_fused s (by_source channels)
        (All-sort_by _ (λ c. All (IsOfChannel channels) c.1) channels
          (All-of_members _ channels (channel-AllOfChannel channels)))
        tt e₂ in
    rw (← same) (
      length-take_le top_n (sort_by le (map (λ u. u.1) all_units)),
      All-take (IsOfChannel channels) top_n _ (
          All-sort_by le (IsOfChannel channels) _ (
            All-map (IsOfChannel channels) (λ u. u.1) all_units
              (set_final_scores-AllOfChannel channels s.units all_units s.scores fused e₄))),
    )
