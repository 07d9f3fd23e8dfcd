-- ===== src/Retrieval/Router/Limits.antt =====
-- src/retrieval/routing/router.py and src/retrieval/config.py: the settings that the router reads, the
-- channels and the limits.
use legal_graphrag_platform.Base.{
  ℕ, String, Bool, true, false, not, ◌&&◌, ◌||◌, Option, none, some, List, [], ◌∷◌, if◌then◌else◌,
  ltb, eqb,
}
use mathlib.Core.List.{◌++◌ as ◌⧺◌}
use legal_graphrag_platform.Retrieval.Models.{IntentType, RetrievalStrategyType, RetrievalChannel}

pub record RetrievalConfig : Type 0 where
  pub contract_version : String
  pub candidate_k : ℕ
  pub final_k : ℕ
  pub graph_entry_k : ℕ
  pub vector_enabled : Bool
  pub fulltext_enabled : Bool
  pub graph_enabled : Bool
  pub reranker_enabled : Bool
  pub hierarchy_vector_enabled : Bool
  pub query_max_length : ℕ

abbrev pub is_hierarchy : IntentType → Bool
is_hierarchy IntentType.hierarchy = true
is_hierarchy _ = false

-- `_strategy_for`
abbrev pub strategy_for : IntentType → RetrievalStrategyType
strategy_for IntentType.factual = RetrievalStrategyType.factual_hybrid
strategy_for IntentType.definition = RetrievalStrategyType.definition_graph
strategy_for IntentType.validity = RetrievalStrategyType.validity_temporal
strategy_for IntentType.hierarchy = RetrievalStrategyType.hierarchy_graph
strategy_for IntentType.comparison = RetrievalStrategyType.comparison_temporal
strategy_for IntentType.multi_hop = RetrievalStrategyType.multi_hop_hybrid

abbrev pub vector_seeds : RetrievalConfig → IntentType → List RetrievalChannel
vector_seeds config intent =
    if not config.vector_enabled || is_hierarchy intent && not config.hierarchy_vector_enabled
    then []
    else RetrievalChannel.vector ∷ []

abbrev pub fulltext_seeds : RetrievalConfig → List RetrievalChannel
fulltext_seeds config = if config.fulltext_enabled then RetrievalChannel.fulltext ∷ [] else []

abbrev pub fulltext_first : IntentType → Bool
fulltext_first IntentType.definition = true
fulltext_first IntentType.validity = true
fulltext_first IntentType.hierarchy = true
fulltext_first _ = false

-- `_seed_channels`
unfoldable pub seed_channels : RetrievalConfig → IntentType → List RetrievalChannel
seed_channels config intent =
    if fulltext_first intent
    then fulltext_seeds config ⧺ vector_seeds config intent
    else vector_seeds config intent ⧺ fulltext_seeds config

-- `k or default`
abbrev pub or_default : Option ℕ → ℕ → ℕ
or_default none default = default
or_default (some k) default = if eqb k 0 then default else k

abbrev pub reranks : RetrievalConfig → Option Bool → IntentType → Bool
reranks config (some enabled) intent = enabled
reranks config none intent = if is_hierarchy intent then false else config.reranker_enabled

abbrev pub smaller : ℕ → ℕ → ℕ
smaller a b = if ltb b a then b else a
