-- ===== src/Retrieval/Fusion.antt =====
-- src/retrieval/fusion/reciprocal_rank_fusion.py: the results of several channels as one ranking.
pub mod Origins
pub mod Returns
pub mod Distinct
use Prim.Native.String.{◌++◌}
use legal_graphrag_platform.Base.{
  ℕ, zero, suc, ◌+◌, ◌-◌, ◌≤◌, ◌<◌, String, ◌≡◌, refl, sym, ap, ◌∙◌, ◌≢◌, ◌⊎◌, inl, inr, Bool, true,
  false, not, ◌&&◌, ◌||◌, Option, none, some, List, [], ◌∷◌, map, if◌then◌else◌, leb, ltb, eqb,
  is_some, is_none, is_empty, contains, unique, All, Member, arith, flat_map, ◌==◌, Bool-cases,
  eq_iff, eq_refl, any, all, filter, subset, length, take,
}
use legal_graphrag_platform.Base.Result.{
  Result, ok, err, raise, fail_if, of_option, ◌>>=◌, ◌>>◌, traverse, >>=-eq-ok, of_option-bind-ok,
  guard-bind-ok, ok_inj, value_error, key_error,
}
use legal_graphrag_platform.Base.Text.{text_leb}
use legal_graphrag_platform.Base.Float.{Float, float_zero}
use legal_graphrag_platform.Base.Dict.{Dict, lookup, insert}
use legal_graphrag_platform.Base.Sort.{sort_by}
use legal_graphrag_platform.Retrieval.Models.{RetrievedUnit, RetrievalChannel}
use legal_graphrag_platform.Retrieval.TemporalFilter.{FloatOrder, or_score}

-- Python's operations on floats that the fusion uses; `reciprocal n` is `1.0 / n`.
pub record FloatArithmetic : Type 0 where
  pub order : FloatOrder
  pub add : Float → Float → Float
  pub reciprocal : ℕ → Float

-- `ReciprocalRankFusion.__init__`: the constant of the fusion
abbrev pub init_fusion : ℕ → Result ℕ
init_fusion k = do fail_if (ltb k 1) value_error "RRF k must be positive"; ok k

-- The channel of a name, when it is supported.
abbrev pub channel_of_name : String → Option RetrievalChannel
channel_of_name name =
    if name == "vector"
    then some RetrievalChannel.vector
    else if name == "fulltext"
    then some RetrievalChannel.fulltext
    else if name == "graph"
    then some RetrievalChannel.graph
    else none

abbrev pub same_channel : RetrievalChannel → RetrievalChannel → Bool
same_channel RetrievalChannel.vector RetrievalChannel.vector = true
same_channel RetrievalChannel.fulltext RetrievalChannel.fulltext = true
same_channel RetrievalChannel.graph RetrievalChannel.graph = true
same_channel a b = false

-- `sorted(set(sources) | {source})`: the three channels in the order of their names.
abbrev pub with_source : RetrievalChannel → List RetrievalChannel → List RetrievalChannel
with_source source sources =
    filter (λ c. same_channel c source || any (same_channel c) sources)
      (RetrievalChannel.fulltext ∷ RetrievalChannel.graph ∷ RetrievalChannel.vector ∷ [])

-- A score of the incoming unit, or the existing one where it has none.
abbrev pub newer_score : Option Float → Option Float → Option Float
newer_score existing none = existing
newer_score existing (some score) = some score

abbrev pub merge_score : RetrievedUnit → RetrievedUnit → RetrievalChannel → RetrievedUnit
merge_score existing incoming RetrievalChannel.vector = record existing {
  vector_score = newer_score existing.vector_score incoming.vector_score;
}
merge_score existing incoming RetrievalChannel.fulltext = record existing {
  bm25_score = newer_score existing.bm25_score incoming.bm25_score;
}
merge_score existing incoming RetrievalChannel.graph = record existing {
  graph_score = newer_score existing.graph_score incoming.graph_score;
}

-- `_merge_source_metadata`
abbrev pub merge_source_metadata : RetrievedUnit → RetrievedUnit → RetrievalChannel → RetrievedUnit
merge_source_metadata existing incoming source = record (merge_score existing incoming source) {
  retrieval_sources = with_source source existing.retrieval_sources;
}

-- `scores` and `units`
pub record Fused : Type 0 where
  pub scores : Dict Float
  pub units : Dict RetrievedUnit

-- `d.get(k, default)`
abbrev pub or_default {ℓ} : {A : Type ℓ} → Option A → A → A
or_default none other = other
or_default (some a) other = a

-- The body of the loop over the results of a channel. The existing unit is the copy that the
-- dictionary holds, so its change is written back there.
unfoldable pub fuse_unit :
    FloatArithmetic → ℕ → RetrievalChannel → ℕ → Fused → RetrievedUnit → Fused
unfolding lookup insert
fuse_unit floats k source rank s unit = record {
  scores =
      insert unit.id
        (floats.add (or_default (lookup unit.id s.scores) float_zero)
          (floats.reciprocal (k + rank)))
        s.scores;
  units =
      insert unit.id (merge_source_metadata (or_default (lookup unit.id s.units) unit) unit source)
        s.units;
}

unfoldable pub fuse_results :
    FloatArithmetic → ℕ → RetrievalChannel → ℕ → Fused → List RetrievedUnit → Fused
unfolding fuse_unit
fuse_results floats k source rank s [] = s
fuse_results floats k source rank s (unit ∷ results) =
    fuse_results floats k source (rank + 1) (fuse_unit floats k source rank s unit) results

-- The loop over the channels.
unfoldable pub fuse_all :
    FloatArithmetic → ℕ → Fused → List (String × List RetrievedUnit) → Result Fused
unfolding fuse_results
fuse_all floats k s [] = ok s
fuse_all floats k s ((source, results) ∷ channels) = do
  channel ←
      of_option (channel_of_name source) value_error ("Unsupported retrieval channel: " ++ source)
  fuse_all floats k (fuse_results floats k channel 1 s results) channels

-- The loop that stores the final scores.
unfoldable pub set_final_scores : Dict RetrievedUnit → Dict Float → Result (Dict RetrievedUnit)
unfolding lookup insert
set_final_scores units [] = ok units
set_final_scores units ((unit_id, score) ∷ scores) = do
  unit ← of_option (lookup unit_id units) key_error unit_id
  set_final_scores (insert unit_id (record unit { final_score = some score }) units) scores

-- The order of the keys `(-(unit.final_score or 0.0), unit.id)`.
unfoldable pub fused_le : FloatOrder → RetrievedUnit → RetrievedUnit → Bool
unfolding or_score text_leb
fused_le order a b =
    let x = or_score order a.final_score float_zero in
    let y = or_score order b.final_score float_zero in
    if order.same x y then text_leb a.id b.id else order.less y x

abbrev pub nothing_fused : Fused
nothing_fused = record { scores = []; units = [] }

-- The order of the channels by their names, which differ in a dictionary.
abbrev pub by_source : Dict (List RetrievedUnit) → List (String × List RetrievedUnit)
by_source channels = sort_by (λ a b. text_leb a.0 b.0) channels

-- `ReciprocalRankFusion.fuse_channels`, for a fusion with the constant `k`
unfoldable pub fuse_channels :
    FloatArithmetic → ℕ → Dict (List RetrievedUnit) → ℕ → Result (List RetrievedUnit)
unfolding fuse_all set_final_scores fused_le sort_by text_leb
fuse_channels floats k channels top_n = do
  fail_if (ltb top_n 1) value_error "top_n must be positive"
  s ← fuse_all floats k nothing_fused (by_source channels)
  units ← set_final_scores s.units s.scores
  ok (take top_n (sort_by (fused_le floats.order) (map (λ e. e.1) units)))

-- `ReciprocalRankFusion.fuse`
unfoldable pub fuse :
    FloatArithmetic → ℕ → List RetrievedUnit → List RetrievedUnit → ℕ → Result (List RetrievedUnit)
unfolding fuse_channels
fuse floats k vector_results fulltext_results top_n =
    fuse_channels floats k (("vector", vector_results) ∷ ("fulltext", fulltext_results) ∷ []) top_n
