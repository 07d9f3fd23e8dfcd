-- ===== src/Retrieval/Examples.antt =====
-- The theorems on retrieval, applied to two versions of an article and a unit without versions.
use legal_graphrag_platform.Retrieval.TemporalFilter.Single.{IsSingle}
use legal_graphrag_platform.Base.{
  inl, ℕ, String, ◌≡◌, refl, true, false, Option, none, some, List, [], ◌∷◌, ltb, eqb, All, Member,
  length, ◌≤◌, ◌+◌, unique, map,
}
use legal_graphrag_platform.Retrieval.Models.{
  RetrievedUnit, UnitLabel, TemporalQuery, RetrievalChannel, EvidenceItem, EvidenceType,
}
use Prim.Native.Nat.{◌-◌}
use legal_graphrag_platform.Base.Result.{ok}
use legal_graphrag_platform.Base.Dict.{Dict}
use legal_graphrag_platform.Retrieval.Fusion.{FloatArithmetic, fuse_channels}
use legal_graphrag_platform.Retrieval.Fusion.Origins.{IsOfChannel, fuse_channels-IsOfChannel}
use legal_graphrag_platform.Retrieval.Fusion.Returns.{fuse_channels-returns}
use legal_graphrag_platform.Retrieval.Fusion.Distinct.{fuse_channels-unique}
use legal_graphrag_platform.Retrieval.EvidenceVerifier.{verify_and_build}
use legal_graphrag_platform.Retrieval.EvidenceVerifier.Origins.{IsOfUnit, verify_and_build-IsOfUnit}
use legal_graphrag_platform.Retrieval.TemporalFilter.{
  FloatOrder, overlaps, filter_temporal, resolve_explicit_version_families,
}
use legal_graphrag_platform.Retrieval.TemporalFilter.Versions.{filter_temporal-overlaps}
use legal_graphrag_platform.Retrieval.TemporalFilter.Latest.{
  IsRepresented, resolve_explicit_version_families-IsRepresented,
}

-- The order of floats that are not negative.
abbrev pub by_bits : FloatOrder
by_bits = record { less = λ a b. ltb a.bits b.bits; same = λ a b. eqb a.bits b.bits }

abbrev pub version : String → Option String → ℕ → Option ℕ → RetrievedUnit
version id family from until = record {
  id = id;
  label = UnitLabel.article;
  content_raw = "text";
  title = none;
  document_id = "L1";
  document_number = none;
  document_title = none;
  source_url = none;
  article_id = some id;
  clause_id = none;
  article_number = none;
  clause_number = none;
  appendix_number = none;
  version_family_id = family;
  effective_from = some from;
  effective_to = until;
  legal_status = none;
  vector_score = none;
  bm25_score = none;
  graph_score = none;
  rerank_score = none;
  final_score = none;
  citation_label = "Article 1";
  deep_link = "law/1";
  retrieval_sources = [];
}

abbrev old_version : RetrievedUnit
old_version = version "A1-old" (some "F") 100 (some 200)

abbrev new_version : RetrievedUnit
new_version = version "A1-new" (some "F") 200 none

abbrev unversioned : RetrievedUnit
unversioned = version "B1" none 150 none

abbrev on_day : ℕ → TemporalQuery
on_day d = record {
  has_temporal = true;
  expression = none;
  resolved_from = some d;
  resolved_to = none;
  granularity = none;
  parse_error = none;
  requests_current_validity = false;
  spans_all_versions = false;
}

abbrev three_units : List RetrievedUnit
three_units = old_version ∷ new_version ∷ unversioned ∷ []

-- On day 199 the new version is not in force yet.
filter_temporal-overlaps_example :
    All (λ u. (overlaps 199 199 u ≡ true) × Member u three_units) (old_version ∷ unversioned ∷ [])
unfolding filter_temporal
filter_temporal-overlaps_example =
    filter_temporal-overlaps by_bits three_units (on_day 199) false 199
      (old_version ∷ unversioned ∷ []) refl refl refl

resolve_explicit_version_families-IsRepresented_example :
    IsSingle (new_version ∷ unversioned ∷ [])
    × All (IsRepresented (new_version ∷ unversioned ∷ [])) three_units
unfolding resolve_explicit_version_families
resolve_explicit_version_families-IsRepresented_example =
    resolve_explicit_version_families-IsRepresented by_bits three_units

-- A unit that the vector search found.
abbrev found_version : RetrievedUnit
found_version = record old_version { retrieval_sources = RetrievalChannel.vector ∷ [] }

abbrev found_item : EvidenceItem
found_item = record {
  unit_id = "A1-old";
  evidence_type = EvidenceType.vector;
  matched_text = some "text";
  score = none;
  source_path_id = none;
  is_eligible = true;
}

verify_and_build-IsOfUnit_example : IsOfUnit (found_version ∷ []) found_item
unfolding verify_and_build
verify_and_build-IsOfUnit_example =
    verify_and_build-IsOfUnit (found_version ∷ []) [] found_item (inl refl) refl

-- Floats whose patterns are added and inverted as numbers.
abbrev pub bit_floats : FloatArithmetic
bit_floats = record {
  order = by_bits;
  add = λ a b. record { bits = a.bits + b.bits };
  reciprocal = λ n. record { bits = 1000 - n };
}

-- Both channels find a version, and one of them a unit more.
abbrev two_channels : Dict (List RetrievedUnit)
two_channels = ("vector", new_version ∷ []) ∷ ("fulltext", unversioned ∷ new_version ∷ []) ∷ []

abbrev fused_version : RetrievedUnit
fused_version = record new_version {
  final_score = some (record { bits = 1877 });
  retrieval_sources = RetrievalChannel.fulltext ∷ RetrievalChannel.vector ∷ [];
}

fuse_channels-IsOfChannel_example :
    (length (fused_version ∷ []) ≤ 1) × All (IsOfChannel two_channels) (fused_version ∷ [])
unfolding fuse_channels
fuse_channels-IsOfChannel_example =
    fuse_channels-IsOfChannel bit_floats 60 two_channels 1 (fused_version ∷ []) refl

fuse_channels-returns_example :
    (units : List RetrievedUnit) × (fuse_channels bit_floats 60 two_channels 1 ≡ ok units)
fuse_channels-returns_example =
    fuse_channels-returns bit_floats 60 two_channels 1 refl (refl, (refl, tt))

fuse_channels-unique_example :
    unique (map (λ (u : RetrievedUnit). u.id) (fused_version ∷ [])) ≡ true
unfolding fuse_channels
fuse_channels-unique_example =
    fuse_channels-unique bit_floats 60 two_channels 1 (fused_version ∷ []) refl
