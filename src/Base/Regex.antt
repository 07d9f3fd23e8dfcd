-- ===== src/Base/Regex.antt =====
-- Python's `re`, as far as the program's patterns use it: a pattern has a list of matches at a
-- position, in the order in which backtracking tries them, and the first one counts.
use legal_graphrag_platform.Base.{refl, ◌≡◌, leb}
use Prim.Native.Nat.{ℕ, zero, suc, ◌+◌, ◌-◌, ◌*◌}
use Prim.Native.Char.{Char, code}
use Prim.Native.String.{String}
use mathlib.Core.Bool.{Bool, false, not, ◌&&◌}
use mathlib.Core.Option.{Option, none, some}
use mathlib.Core.List.{List, [], ◌∷◌, map, ◌++◌ as ◌⧺◌}
use legal_graphrag_platform.Base.Tests.{eqb, if◌then◌else◌, is_some}
use legal_graphrag_platform.Base.Lists.{any, flat_map, length}
use legal_graphrag_platform.Base.Text.{is_space, text_length, text_take}

-- What a pattern asks of Unicode's tables: whether two letters differ in case only, the value of
-- a decimal digit, and which characters are part of words.
pub record Unicode : Type 0 where
  pub same_letter : ℕ → ℕ → Bool
  pub digit_value : ℕ → Option ℕ
  pub is_word : ℕ → Bool

-- `.`, `\s`, `\d` and a set of characters
pub data CharClass : Type 0 where
  dot space digit : CharClass
  one_of : List ℕ → CharClass

-- The patterns, with `re.IGNORECASE`; `repeat` is greedy, and `unlimited` is `repeat` with no
-- bound; no group stands inside a group.
pub data Regex : Type 0 where
  nothing boundary : Regex
  literal : String → Regex
  repeat : CharClass → ℕ → ℕ → Regex
  unlimited : CharClass → ℕ → Regex
  seq alt : Regex → Regex → Regex
  group : Regex → Regex

-- Patterns one after the other, and one of several.
abbrev pub seqs : List Regex → Regex
seqs [] = Regex.nothing
seqs (r ∷ []) = r
seqs (r ∷ s ∷ rs) = Regex.seq r (seqs (s ∷ rs))

abbrev pub alts : Regex → List Regex → Regex
alts r [] = r
alts r (s ∷ rs) = Regex.alt r (alts s rs)

abbrev pub words : String → List String → Regex
words s [] = Regex.literal s
words s (t ∷ ts) = Regex.alt (Regex.literal s) (words t ts)

-- `r?`
abbrev pub optional : Regex → Regex
optional r = Regex.alt r Regex.nothing

-- A position in a text, with what is before it from the last character on, and the groups so far.
pub record Position : Type 0 where
  pub before : List Char
  pub rest : String
  pub groups : List String

module _ (u : Unicode) where
  abbrev pub in_class : CharClass → Char → Bool
  in_class CharClass.dot c = not (eqb (code c) 10)
  in_class CharClass.space c = is_space (code c)
  in_class CharClass.digit c = is_some (u.digit_value (code c))
  in_class (CharClass.one_of codes) c = any (eqb (code c)) codes

  abbrev word_starts : String → Bool
  word_starts String.[] = false
  word_starts (String.◌∷◌ c s) = u.is_word (code c)

  abbrev word_ends : List Char → Bool
  word_ends [] = false
  word_ends (c ∷ cs) = u.is_word (code c)

  -- `\b`
  abbrev pub is_boundary : List Char → String → Bool
  is_boundary before rest =
      let a = word_ends before in let b = word_starts rest in if a then not b else b

  match_literal : String → List Char → String → List String → List Position
  match_literal String.[] before rest groups =
      record { before = before; rest = rest; groups = groups } ∷ []
  match_literal (String.◌∷◌ d ds) before String.[] groups = []
  match_literal (String.◌∷◌ d ds) before (String.◌∷◌ c s) groups =
      let more = match_literal ds (c ∷ before) s groups in
      if u.same_letter (code d) (code c) then more else []

  -- Between `least` and `most` characters of a class, as many as there are first.
  match_run : CharClass → ℕ → ℕ → List Char → String → List String → List Position
  match_run class least zero before rest groups =
      if eqb least 0 then record { before = before; rest = rest; groups = groups } ∷ [] else []
  match_run class least (suc most) before String.[] groups =
      if eqb least 0 then record { before = before; rest = ""; groups = groups } ∷ [] else []
  match_run class least (suc most) before (String.◌∷◌ c s) groups =
      let more = match_run class (least - 1) most (c ∷ before) s groups in
      (if in_class class c then more else [])
      ⧺ (if eqb least 0
          then record { before = before; rest = String.◌∷◌ c s; groups = groups } ∷ []
          else [])

  -- The text between two positions.
  abbrev pub consumed : Position → Position → String
  consumed from to = text_take (length to.before - length from.before) from.rest

  unfoldable pub match_at : Regex → Position → List Position
  unfolding is_space text_take match_literal match_run
  match_at Regex.nothing p = p ∷ []
  match_at Regex.boundary p = if is_boundary p.before p.rest then p ∷ [] else []
  match_at (Regex.literal s) p = match_literal s p.before p.rest p.groups
  match_at (Regex.repeat class least most) p = match_run class least most p.before p.rest p.groups
  match_at (Regex.unlimited class least) p =
      match_run class least (text_length p.rest) p.before p.rest p.groups
  match_at (Regex.seq r s) p = flat_map (match_at s) (match_at r p)
  match_at (Regex.alt r s) p = match_at r p ⧺ match_at s p
  match_at (Regex.group r) p =
      map (λ (q : Position). record q { groups = q.groups ⧺ consumed p q ∷ [] }) (match_at r p)

  -- A match: `match.group(0)`, and the groups that took part in it.
  pub record Match : Type 0 where
    pub expression : String
    pub groups : List String

  abbrev first_match : Position → List Position → Option Match
  first_match p [] = none
  first_match p (q ∷ qs) = some (record { expression = consumed p q; groups = q.groups })

  search_from : Regex → List Char → String → Option Match
  unfolding match_at
  search_from r before String.[] =
      let p : Position = record { before = before; rest = ""; groups = [] } in
      first_match p (match_at r p)
  search_from r before (String.◌∷◌ c s) =
      let later = search_from r (c ∷ before) s in
      let p : Position = record { before = before; rest = String.◌∷◌ c s; groups = [] } in
      elim (first_match p (match_at r p)) [ some m ↦ some m | none ↦ later ]

  -- `pattern.search(text)`
  unfoldable pub search : Regex → String → Option Match
  unfolding search_from
  search r s = search_from r [] s

  int_from : ℕ → String → ℕ
  int_from n String.[] = n
  int_from n (String.◌∷◌ c s) = elim (u.digit_value (code c)) [
    | some d ↦ int_from (n * 10 + d) s
    | none ↦ int_from n s
  ]

  -- `int(text)` of a text of digits
  unfoldable pub int : String → ℕ
  unfolding int_from
  int s = int_from 0 s

-- Of the alternatives the first that leads to a match counts, and a run gives back what follows.
abbrev plain : Unicode
plain = record {
  same_letter = eqb;
  digit_value = λ c. if leb 48 c && leb c 57 then some (c - 48) else none;
  is_word = λ c. leb 97 c && leb c 122;
}

abbrev sample_pattern : Regex
sample_pattern = seqs (
    Regex.boundary
    ∷ words "a" ("ab" ∷ [])
    ∷ Regex.group (Regex.repeat CharClass.digit 1 2)
    ∷ Regex.unlimited CharClass.dot 0
    ∷ Regex.literal "z"
    ∷ [])

search_sample :
    search plain sample_pattern "a1; ab123 z zy"
    ≡ some (record { expression = "a1; ab123 z z"; groups = "1" ∷ [] })
unfolding search
search_sample = refl
