-- ===== src/Retrieval/RuntimeExamples.antt =====
-- The theorems on the runtime, applied to a question on an article that one seed channel finds too.
use legal_graphrag_platform.Retrieval.Examples.{version, bit_floats}
use legal_graphrag_platform.Retrieval.Models.{
  ReferenceSource, ResolutionMethod, RetrievalDecisionReasonCode, TemporalSource, RetrievalChannel,
  RetrievalStrategyType, UnitLabel, IntentType, RetrievedUnit, RetrievalFilters,
}
use legal_graphrag_platform.Retrieval.Models.Context.{RetrievalContext}
use legal_graphrag_platform.Base.{
  All-of_members, All-take, take, String, ◌≡◌, refl, ◌⊎◌, true, false, none, some, [], ◌∷◌, map,
  All, Member, first_occurrence,
}
use legal_graphrag_platform.Base.Result.{Result, ok, err, ok_inj}
use legal_graphrag_platform.Retrieval.Decision.{
  PreparedRetrievalRequest, CapabilitySnapshot, no_expansion,
}
use legal_graphrag_platform.Retrieval.TemporalFilter.{overlaps}
use legal_graphrag_platform.Retrieval.Runtime.{GraphChannel}
use legal_graphrag_platform.Retrieval.Runtime.Execute
use legal_graphrag_platform.Retrieval.Runtime.Execute.{
  Runtime, gather, required_units_of, PlannedPaths,
}
use legal_graphrag_platform.Retrieval.Runtime.Metrics.{Latencies, Gathered}
use legal_graphrag_platform.Retrieval.Runtime.Anchored.{IsAnchored, execute-IsAnchored}
use legal_graphrag_platform.Retrieval.Runtime.Dates.{HasDatesOf, KeepsDates, execute-MeetsDate}
use legal_graphrag_platform.Retrieval.ContextBuilder.{build_context}

abbrev pub hash : String → String
hash s = "a"

-- An article that is not in force any more, and one that is.
abbrev anchor : RetrievedUnit
anchor = version "A1" none 100 (some 150)

abbrev other : RetrievedUnit
other = version "A2" none 100 none

abbrev capabilities : CapabilitySnapshot
capabilities = record {
  vector_appendix_index_available = true;
  vector_article_index_available = true;
  vector_clause_index_available = true;
  fulltext_index_available = true;
  scoped_temporal_metadata_available = true;
  corpus_complete_current_validity_available = false;
  temporal_relations_available = false;
  structural_hierarchy_available = true;
  guides_relations_available = false;
  multiple_versions_available = false;
  definition_relations_available = false;
  semantic_multi_hop_graph_available = false;
  canonical_relation_types_available = [];
}

abbrev graph : GraphChannel
graph = record {
  hydrate_anchors = λ ids filters. ok (record { matched_anchor_ids = ids; units = anchor ∷ [] });
  expand = λ ids intent filters goal. ok no_expansion;
}

abbrev pub runtime : Runtime
runtime = record {
  seeds = record { vector = some (λ query filters k. ok (other ∷ anchor ∷ [])); fulltext = none };
  graph = some graph;
  inspect_capabilities = λ filters. ok capabilities;
  rrf_k = 60;
  reranker = some (λ query units n. ok (take n units));
  planned_executor = none;
}

abbrev pub filters : RetrievalFilters
filters = record { document_ids = []; doc_types = []; legal_statuses = []; query_date = some 160 }

abbrev prepared : PreparedRetrievalRequest
prepared = record {
  request = record {
    contract_version = "1.0";
    query = "Article 1?";
    filters = filters;
    top_k = none;
    final_k = none;
    force_intent = none;
    enable_reranker = none;
  };
  routing = record {
    decision = record {
      contract_version = "1.0";
      intent = IntentType.factual;
      strategy = RetrievalStrategyType.factual_hybrid;
      seed_channels = RetrievalChannel.vector ∷ [];
      graph_enabled = true;
      graph_policy_intent = some IntentType.factual;
      candidate_k = 4;
      graph_entry_k = 2;
      final_k = 2;
      apply_temporal_filter = true;
      preserve_versions = false;
      require_temporal_point = false;
      enable_reranker = true;
      force_intent_used = false;
      temporal_source = TemporalSource.request;
      decision_reason_code = RetrievalDecisionReasonCode.factual_default;
      decision_reason = "factual";
      required_capability = none;
    };
    temporal = record {
      has_temporal = true;
      expression = none;
      resolved_from = some 160;
      resolved_to = none;
      granularity = none;
      parse_error = none;
      requests_current_validity = false;
      spans_all_versions = false;
    };
    filters = filters;
  };
  execution_context = record {
    resolved_references =
        record {
          mention = "Article 1";
          node_id = "A1";
          node_type = UnitLabel.article;
          label = "Article 1";
          document_id = "L1";
          resolution_method = ResolutionMethod.exact_structural_lookup;
          source = ReferenceSource.current_message;
        }
        ∷ [];
    relation_goal = none;
  };
  prepare_latency_ms = 0;
}

abbrev pub latencies : Latencies
latencies = record { seed = 1; graph = 1; planned = 0; reranker = 1; total = 3 }

abbrev pub value_or {ℓ} : {A : Type ℓ} → Result A → A → A
value_or (ok a) default = a
value_or (err e) default = default

abbrev pub no_context : RetrievalContext
no_context =
    build_context
      (record {
        query = "";
        intent = IntentType.factual;
        temporal = prepared.routing.temporal;
        units = [];
        graph_paths = [];
        metrics = [];
        filters = none;
        executed_channels = [];
        reranker_applied = false;
        plan_execution = none;
        resolved_references = [];
        relation_goal = none;
      })
      none

abbrev context : RetrievalContext
context = value_or (Execute.execute hash bit_floats runtime latencies prepared none none) no_context

-- The repealed article is pinned before the one in force, although the filter has removed it.
context-pinned : map (λ (u : RetrievedUnit). u.id) context.retrieved_units ≡ "A1" ∷ "A2" ∷ []
unfolding Execute.execute build_context first_occurrence
context-pinned = refl

execute-IsAnchored_example : IsAnchored runtime prepared context
unfolding Execute.execute build_context first_occurrence
execute-IsAnchored_example =
    execute-IsAnchored hash bit_floats runtime latencies prepared none none context refl

pub first_units-KeepsDates : KeepsDates runtime.reranker
first_units-KeepsDates query units n out e = rw (← ok_inj e) (
    All-take (HasDatesOf units) n units (
      All-of_members (HasDatesOf units) units
        (λ u m. record { original = u; given = m; same_from = refl; same_to = refl })))

execute-MeetsDate_example :
    (g : Gathered) × (gather hash bit_floats runtime prepared none ≡ ok g)
    × All
        (λ u. Member u (required_units_of prepared g) ⊎ (overlaps 160 160 u ≡ true))
        context.retrieved_units
unfolding Execute.execute build_context first_occurrence
execute-MeetsDate_example =
    execute-MeetsDate hash bit_floats runtime latencies prepared none none context 160
      first_units-KeepsDates refl refl refl
