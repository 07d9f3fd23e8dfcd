-- ===== src/Lib.antt =====
-- The answer generation of the legal GraphRAG platform, and the execution of its retrieval.
--
-- The program answers questions on Vietnamese law. Retrieval finds legal units and graph paths and
-- hands them over as a `RetrievalContext`. Answer generation (src/generation) decides whether the
-- evidence suffices, validates and compacts it, projects it into a prompt of bounded size, asks a
-- language model for a structured candidate, and lets through only a candidate whose citations,
-- paths and temporal claims are grounded in what was projected; one candidate that is not grounded
-- is repaired by one more call. The development models this path from the question, through its
-- routing and the retrieval context, to the response, with the metrics that it writes and the calls
-- that it makes.
--
-- The files:
--   Base            Python's lists, dictionaries, texts, dates, `sorted`, `json.dumps` and
--                   exceptions as values, with the lemmas that the components share.
--   Shared          the relation enumeration of src/shared/ontology/contract.py.
--   Retrieval       the data of src/retrieval/models.py, src/shared/retrieval_contract.py,
--                   src/retrieval/execution_contract.py and src/retrieval/resolved_reference.py
--                   (Retrieval/Models), src/retrieval/path_identity.py (Retrieval/PathIdentity),
--                   src/retrieval/context/temporal_filter.py (Retrieval/TemporalFilter),
--                   src/retrieval/evidence/verifier.py (Retrieval/EvidenceVerifier),
--                   src/retrieval/fusion/reciprocal_rank_fusion.py (Retrieval/Fusion), the paths of
--                   src/retrieval/retriever/graph.py: their rows (Retrieval/PathRows), their
--                   validity, order and merging (Retrieval/GraphPaths), the bound plans and
--                   src/retrieval/planning/executor.py (Retrieval/Planning), the decisions and
--                   requests of src/retrieval/models.py (Retrieval/Decision),
--                   src/retrieval/context/context_builder.py (Retrieval/ContextBuilder), and
--                   src/retrieval/runtime/runtime.py with src/retrieval/retriever/hybrid.py
--                   (Retrieval/Runtime: the steps; Runtime/Execute: how `execute` composes them;
--                   Runtime/Retrieve: `prepare` and `retrieve`), src/retrieval/routing/router.py
--                   (Retrieval/Router) with src/retrieval/nlu/classifier.py (Router/Classifier),
--                   and src/retrieval/query/temporal_parser.py (Retrieval/TemporalParser).
--   Generation      Models: src/generation/models.py with its validators. Errors: the groups of
--                   exceptions of service.py. Sufficiency, Evidence, Compaction, Projection,
--                   ProjectedValidation, Grounding and Renderer: the files sufficiency.py,
--                   evidence_validation.py, evidence_compaction.py, context_projection.py,
--                   projected_validation.py, grounding.py and renderer.py. Service and Diagnostics:
--                   service.py. The folder of a module has its parts and its proofs; Samples and
--                   Examples have sample data and the theorems applied to it.
--   Answering       the standalone answers of apps/backend/conversation/service.py, which compose
--                   the retrieval and the generation of an answer.
--
-- How the code is modelled. Each method is a function of the same name; the body of a loop is a
-- function on the loop's variables (`check_citation`, `dedup_step`, `admit_step`) and the loop is
-- recursion on the list, so nothing needs fuel. An exception is the value `err` with its class and
-- message, and the `do` blocks pass it on as Python does. `AnswerGenerator.generate` is `generate`:
-- it returns the reply together with the metrics and the prompts sent, also when it raises. A
-- dictionary is its list of entries in insertion order; a set that is only tested for membership
-- is a list. A date is its ordinal. A float is its bit pattern.
--
-- The patterns of Python's `re` are data, and `search` finds the first match in the order of
-- backtracking (Base/Regex); its tables of Unicode are the parameter `Unicode`.
--
-- Parameters: Unicode composition (`nfc`), case folding (`casefold`), SHA-256 in hexadecimal
-- (`sha256_hex`), the order, arithmetic and `repr` of floats (`FloatOrder`, `FloatArithmetic`,
-- `float_repr`), `str.lower` and `repr` of texts, and the provider, whose reply may be any candidate or exception and may depend on
-- how many calls went before. Of retrieval, the seed channels, the graph channel, the lookup of
-- exact paths, the inspection of capabilities, the text generation that classifies a question and
-- the reranker are functions whose reply may be any
-- value or exception; a channel gives the same reply to the same arguments. The readings of the
-- clock are values (`Latencies`). No law of any of them is assumed, but that a reranker returns
-- units that it was given with their dates (`KeepsDates`), where a theorem says so.
--
-- Not modelled: the patterns and lengths that pydantic checks on single fields, the `extra` and
-- `frozen` settings, logging and closing of the provider; of retrieval the text client of the
-- temporal parser, which the program never sets, the binding of plans, the checks of blank or
-- repeated identifiers in `PlanExecutionResult` and the queries of the database; the ingestion of the corpus, the rest of the backend and the frontend.
pub mod Base
pub mod Shared
pub mod Retrieval
pub mod Generation
pub mod Answering
