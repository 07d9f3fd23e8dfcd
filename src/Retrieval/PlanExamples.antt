-- ===== src/Retrieval/PlanExamples.antt =====
-- The theorems on graph paths, plans and the runtime, applied to a plan of two steps from an article
-- to a concept that another article defines.
use legal_graphrag_platform.Base.{String, refl, ◌⊎◌, true, Option, none, some, [], ◌∷◌, All, ◌≡◌}
use legal_graphrag_platform.Base.Result.{Result, ok, err}
use legal_graphrag_platform.Base.Date.{Date}
use legal_graphrag_platform.Base.Float.{Float}
use legal_graphrag_platform.Retrieval.Models.{
  GraphPath, GraphNodeRef, RetrievalFilters, PlanExecutionStatus, PlanReasonCode,
}
use legal_graphrag_platform.Retrieval.PathRows.{RawDate, NodeRow, EdgeRow, PathRow}
use legal_graphrag_platform.Retrieval.GraphPaths.{deduplicate_topology_paths, ranked_paths}
use legal_graphrag_platform.Retrieval.GraphPaths.Groups.{
  IsMergeOf, IsKept, deduplicate_topology_paths-keeps,
}
use legal_graphrag_platform.Retrieval.Planning.{PlannedPathLookup}
use legal_graphrag_platform.Retrieval.Planning.Models.{
  BoundSemanticPlan, QueryDirection, EndpointResolutionMethod, PlannedPathExecution,
}
use legal_graphrag_platform.Retrieval.Planning.Executor
use legal_graphrag_platform.Retrieval.Planning.Satisfied.{
  IsSatisfied, HasFailed, execute-IsSatisfied,
}
use legal_graphrag_platform.Retrieval.Runtime.{validate_planned_path_membership}
use legal_graphrag_platform.Retrieval.Runtime.Execute.{PlannedPaths}
use legal_graphrag_platform.Retrieval.Runtime.Planned.{run_planned-check}

abbrev value_or {ℓ} : {A : Type ℓ} → Result A → A → A
value_or (ok a) other = a
value_or (err e) other = other

abbrev hash : String → String
hash s = "a"

abbrev float_text : Float → String
float_text x = "1.0"

abbrev article_row : String → NodeRow
article_row id = record {
  node_id = some id;
  labels = some ("Article" ∷ []);
  effective_from = RawDate.native 100;
  effective_to = RawDate.missing;
  legal_status = none;
  citable_unit_id = some id;
}

abbrev concept_row : NodeRow
concept_row = record {
  node_id = some "C1";
  labels = some ("LegalConcept" ∷ []);
  effective_from = RawDate.missing;
  effective_to = RawDate.missing;
  legal_status = none;
  citable_unit_id = none;
}

abbrev edge_row : String → String → String → String → EdgeRow
edge_row id type from to = record {
  relation_id = some id;
  relation_type = some type;
  source_id = some from;
  target_id = some to;
  effective_from = RawDate.missing;
  effective_to = RawDate.missing;
  citation_text = none;
  citation_type = none;
  extraction_method = none;
}

abbrev sample_row : PathRow
sample_row = record {
  path_node_refs = article_row "A1" ∷ article_row "A2" ∷ concept_row ∷ [];
  path_edge_refs = edge_row "r1" "REFERS_TO" "A1" "A2" ∷ edge_row "r2" "DEFINES" "A2" "C1" ∷ [];
}

abbrev sample_bound_plan : BoundSemanticPlan
sample_bound_plan = record {
  unlinked = record {
    anchor = record { text = "Article 1"; expected_label = some "Article" };
    target = record { text = "concept" };
    steps =
        record {
          relation = "REFERS_TO";
          direction = QueryDirection.outgoing;
          next_label = "Article";
        }
        ∷ record {
          relation = "DEFINES";
          direction = QueryDirection.outgoing;
          next_label = "LegalConcept";
        }
        ∷ [];
  };
  bound_anchor = record {
    mention_text = "Article 1";
    node_id = "A1";
    label = "Article";
    resolution_method = EndpointResolutionMethod.structural;
    score = none;
  };
  bound_target = record {
    mention_text = "concept";
    node_id = "C1";
    label = "LegalConcept";
    resolution_method = EndpointResolutionMethod.fulltext;
    score = none;
  };
}

abbrev find_row : PlannedPathLookup
find_row anchor target steps filters limit = ok (sample_row ∷ [])

abbrev dated_filters : RetrievalFilters
dated_filters = record {
  document_ids = [];
  doc_types = [];
  legal_statuses = [];
  query_date = some 150;
}

abbrev node_ref : String → String → Option Date → Option String → GraphNodeRef
node_ref id label from citable = record {
  node_id = id;
  labels = label ∷ [];
  effective_from = from;
  effective_to = none;
  legal_status = none;
  citable_unit_id = citable;
}

abbrev sample_path : GraphPath
sample_path = record {
  nodes =
      node_ref "A1" "Article" (some 100) (some "A1")
      ∷ node_ref "A2" "Article" (some 100) (some "A2")
      ∷ node_ref "C1" "LegalConcept" none none
      ∷ [];
  edges =
      record {
        relation_id = "r1";
        relation_type = "REFERS_TO";
        source_id = "A1";
        target_id = "A2";
        effective_from = none;
        effective_to = none;
        citation_evidence =
            record {
              relation_id = "r1";
              citation_text = none;
              citation_type = none;
              extraction_method = none;
            }
            ∷ [];
      }
      ∷ record {
        relation_id = "r2";
        relation_type = "DEFINES";
        source_id = "A2";
        target_id = "C1";
        effective_from = none;
        effective_to = none;
        citation_evidence = [];
      }
      ∷ [];
  path_description = "A1 -[REFERS_TO]-> A2 -[DEFINES]-> C1";
}

abbrev sample_execution : PlannedPathExecution
sample_execution = record {
  result = record {
    plan_fingerprint = "plan_a";
    satisfied_path_fingerprints = "path_a" ∷ [];
    bound_anchor_id = "A1";
    bound_target_id = "C1";
    execution_status = PlanExecutionStatus.satisfied;
    reason_code = PlanReasonCode.satisfied;
    message = none;
    derived_reasoning_requirement = some (record {
      minimum_edges = 2;
      required_relation_types = "REFERS_TO" ∷ "DEFINES" ∷ [];
      require_all_citable_intermediates = true;
    });
  };
  paths = sample_path ∷ [];
  path_fingerprints = "path_a" ∷ [];
  citable_unit_ids = "A1" ∷ "A2" ∷ [];
}

execute-IsSatisfied_example :
    IsSatisfied hash sample_bound_plan (some 150) sample_execution ⊎ HasFailed sample_execution
unfolding Executor.execute
execute-IsSatisfied_example =
    execute-IsSatisfied hash float_text find_row 20 sample_bound_plan dated_filters sample_execution
      refl

deduplicate_topology_paths-keeps_example :
    All (IsMergeOf (sample_path ∷ sample_path ∷ [])) (sample_path ∷ [])
    × All (IsKept hash (sample_path ∷ [])) (sample_path ∷ sample_path ∷ [])
unfolding deduplicate_topology_paths
deduplicate_topology_paths-keeps_example =
    deduplicate_topology_paths-keeps hash (sample_path ∷ sample_path ∷ []) (sample_path ∷ []) refl

abbrev sample_planned : PlannedPaths
sample_planned = record { execution = some sample_execution.result; paths = sample_execution.paths }

-- The expansion has found the path of the plan too.
run_planned-check_example :
    validate_planned_path_membership hash sample_planned.execution (sample_path ∷ []) ≡ ok tt
unfolding Executor.execute ranked_paths
run_planned-check_example =
    run_planned-check hash float_text find_row 20 sample_bound_plan dated_filters sample_planned
      (sample_path ∷ []) (sample_path ∷ []) refl refl
