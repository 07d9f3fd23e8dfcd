-- ===== src/Shared/Ontology.antt =====
-- shared/ontology/contract.py: the canonical relation types.
use legal_graphrag_platform.Base.{String, List, [], ◌∷◌}

-- `RELATION_ENUM`
abbrev pub relation_enum : List String
relation_enum =
    "ISSUED_BY" ∷ "CONTAINS" ∷ "AMENDS" ∷ "REPEALS" ∷ "REPLACES" ∷ "GUIDES" ∷ "REFERS_TO"
    ∷ "DEFINES" ∷ "REGULATES" ∷ "REQUIRES" ∷ "HAS_CONDITION" ∷ "HAS_EXCEPTION" ∷ []
