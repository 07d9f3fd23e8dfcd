-- ===== src/Retrieval/Router/Rules.antt =====
-- src/retrieval/routing/router.py: the rules that classify a question by its wording.
use legal_graphrag_platform.Base.{String, List, [], ◌∷◌}
use legal_graphrag_platform.Base.Regex.{CharClass, Regex, seqs, alts, words}
use legal_graphrag_platform.Retrieval.Models.{IntentType, RetrievalDecisionReasonCode}

pub data RuleConfidence : Type 0 where
  high low : RuleConfidence

pub record Rule : Type 0 where
  pub pattern : Regex
  pub intent : IntentType
  pub reason : RetrievalDecisionReasonCode
  pub confidence : RuleConfidence

-- `.*`
abbrev pub anything : Regex
anything = Regex.unlimited CharClass.dot 0

abbrev pub word : String → Regex
word s = seqs (Regex.boundary ∷ Regex.literal s ∷ Regex.boundary ∷ [])

-- `_AMENDMENT_WORDING` and `_GUIDES_WORDING`
abbrev pub amendment_wording : Regex
amendment_wording = words "sửa đổi" ("bãi bỏ" ∷ "thay thế" ∷ [])

abbrev pub guides_wording : Regex
guides_wording = seqs (Regex.literal "văn bản" ∷ anything ∷ Regex.literal "hướng dẫn" ∷ [])

abbrev pub multi_hop_pattern : Regex
multi_hop_pattern = alts (Regex.literal "nhiều bước") (
    Regex.literal "qua nhiều"
    ∷ seqs (Regex.literal "liên hệ" ∷ anything ∷ words "điều" ("văn bản" ∷ []) ∷ [])
    ∷ Regex.literal "dẫn chiếu"
    ∷ seqs (Regex.literal "thủ tục" ∷ anything ∷ Regex.literal "hướng dẫn" ∷ [])
    ∷ [])

abbrev pub hierarchy_pattern : Regex
hierarchy_pattern = alts (Regex.literal "thuộc chương") (
    Regex.literal "thuộc điều"
    ∷ Regex.literal "thuộc khoản"
    ∷ Regex.literal "nằm ở chương"
    ∷ guides_wording
    ∷ Regex.literal "quan hệ thứ bậc"
    ∷ [])

abbrev pub definition_pattern : Regex
definition_pattern = alts (Regex.literal "là gì") (
    word "định nghĩa"
    ∷ Regex.literal "được hiểu thế nào"
    ∷ Regex.literal "thế nào là"
    ∷ word "khái niệm"
    ∷ [])

abbrev pub validity_pattern : Regex
validity_pattern = alts amendment_wording (
    Regex.literal "hết hiệu lực"
    ∷ seqs (words "có" ("đang có" ∷ "còn" ∷ []) ∷ Regex.literal " hiệu lực" ∷ [])
    ∷ [])

-- `_RULES`
abbrev pub rules : List Rule
rules =
    record {
      pattern = multi_hop_pattern;
      intent = IntentType.multi_hop;
      reason = RetrievalDecisionReasonCode.multi_hop_explicit;
      confidence = RuleConfidence.low;
    }
    ∷ record {
      pattern = hierarchy_pattern;
      intent = IntentType.hierarchy;
      reason = RetrievalDecisionReasonCode.hierarchy_explicit;
      confidence = RuleConfidence.high;
    }
    ∷ record {
      pattern = definition_pattern;
      intent = IntentType.definition;
      reason = RetrievalDecisionReasonCode.definition_explicit;
      confidence = RuleConfidence.high;
    }
    ∷ record {
      pattern = words "khác nhau" ("giống nhau" ∷ "so sánh" ∷ "trước và sau" ∷ []);
      intent = IntentType.comparison;
      reason = RetrievalDecisionReasonCode.comparison_explicit;
      confidence = RuleConfidence.high;
    }
    ∷ record {
      pattern = validity_pattern;
      intent = IntentType.validity;
      reason = RetrievalDecisionReasonCode.validity_explicit_date;
      confidence = RuleConfidence.high;
    }
    ∷ []
