-- ===== src/Base/Text.antt =====
-- What the program uses of Python's `str`.
use legal_graphrag_platform.Base.{ltb, arith}
use Prim.Native.Nat.{ℕ, zero, suc, ◌/◌, ◌%◌}
use Prim.Native.Char.{Char, code}
use Prim.Native.String.{String, ◌++◌}
use mathlib.Core.Path.{◌≡◌, refl}
use mathlib.Core.Bool.{Bool, true, false, ◌&&◌, ◌||◌}
use mathlib.Core.List.{List, [], ◌∷◌}
use text.Mathlib.Text.{◌==◌}
use legal_graphrag_platform.Base.Tests.{leb, eqb, if◌then◌else◌}

-- `ch.isspace()`, which is also the regular expression `\s`
unfoldable pub is_space : ℕ → Bool
is_space c =
    leb 0x09 c && leb c 0x0d
    || leb 0x1c c && leb c 0x20
    || eqb c 0x85
    || eqb c 0xa0
    || eqb c 0x1680
    || leb 0x2000 c && leb c 0x200a
    || leb 0x2028 c && leb c 0x2029
    || eqb c 0x202f
    || eqb c 0x205f
    || eqb c 0x3000

-- `text.lstrip()`
unfoldable pub lstrip : String → String
unfolding is_space
lstrip String.[] = ""
lstrip (String.◌∷◌ c s) = let rest = lstrip s in if is_space (code c) then rest else String.◌∷◌ c s

keep_unless_blank : Char → String → String
unfolding is_space
keep_unless_blank c String.[] = if is_space (code c) then "" else String.◌∷◌ c ""
keep_unless_blank c (String.◌∷◌ d s) = String.◌∷◌ c (String.◌∷◌ d s)

-- `text.rstrip()`
unfoldable pub rstrip : String → String
unfolding keep_unless_blank
rstrip String.[] = ""
rstrip (String.◌∷◌ c s) = keep_unless_blank c (rstrip s)

-- `text.strip()`
unfoldable pub strip : String → String
unfolding lstrip rstrip
strip s = rstrip (lstrip s)

abbrev pub blank : String → Bool
blank s = elim (strip s) [ String.[] ↦ true | String.◌∷◌ _ _ ↦ false ]

collapse : Bool → String → String
unfolding is_space
collapse after_space String.[] = ""
collapse after_space (String.◌∷◌ c s) =
    let sp = is_space (code c) in
    let rest = collapse sp s in
    if sp then (if after_space then rest else " " ++ rest) else String.◌∷◌ c rest

-- `re.sub(r"\s+", " ", text)`
unfoldable pub collapse_whitespace : String → String
unfolding collapse
collapse_whitespace s = collapse false s

-- `text.startswith(prefix)`
unfoldable pub has_prefix : String → String → Bool
has_prefix String.[] s = true
has_prefix (String.◌∷◌ p ps) String.[] = false
has_prefix (String.◌∷◌ p ps) (String.◌∷◌ c s) = eqb (code p) (code c) && has_prefix ps s

-- `needle in text`
unfoldable pub has_substring : String → String → Bool
unfolding has_prefix
has_substring needle String.[] = has_prefix needle ""
has_substring needle (String.◌∷◌ c s) = has_prefix needle (String.◌∷◌ c s) || has_substring needle s

-- `len(text)`
abbrev pub text_length : String → ℕ
text_length String.[] = 0
text_length (String.◌∷◌ c s) = suc (text_length s)

-- `text[:n]`
unfoldable pub text_take : ℕ → String → String
text_take zero s = ""
text_take (suc n) String.[] = ""
text_take (suc n) (String.◌∷◌ c s) = String.◌∷◌ c (text_take n s)

-- `"sep".join(parts)`
abbrev pub join : String → List String → String
join sep [] = ""
join sep (x ∷ []) = x
join sep (x ∷ y ∷ rest) = x ++ sep ++ join sep (y ∷ rest)

digit : ℕ → String
digit zero = "0"
digit (suc zero) = "1"
digit (suc (suc zero)) = "2"
digit (suc (suc (suc zero))) = "3"
digit (suc (suc (suc (suc zero)))) = "4"
digit (suc (suc (suc (suc (suc zero))))) = "5"
digit (suc (suc (suc (suc (suc (suc zero)))))) = "6"
digit (suc (suc (suc (suc (suc (suc (suc zero))))))) = "7"
digit (suc (suc (suc (suc (suc (suc (suc (suc zero)))))))) = "8"
digit _ = "9"

-- The digits of `n`, with fuel: a number below `2 ^ fuel` has fewer digits than that.
digits : ℕ → ℕ → String → String
digits zero n out = out
digits (suc f) n out =
    let shown = digit (n % 10) ++ out in
    let more = digits f (n / 10) shown in if leb n 9 then shown else more

-- `str(n)`; `n + 1` rounds are enough, since each divides `n` by ten.
unfoldable pub show_nat : ℕ → String
unfolding digit digits
show_nat n = digits (suc n) n ""

-- `a <= b`: texts compare by their code points
unfoldable pub text_leb : String → String → Bool
text_leb String.[] t = true
text_leb (String.◌∷◌ c s) String.[] = false
text_leb (String.◌∷◌ c s) (String.◌∷◌ d t) =
    ltb (code c) (code d) || eqb (code c) (code d) && text_leb s t

-- `a <= b` for tuples of texts
unfoldable pub texts_leb : List String → List String → Bool
unfolding text_leb
texts_leb [] ts = true
texts_leb (s ∷ ss) [] = false
texts_leb (s ∷ ss) (t ∷ ts) = if s == t then texts_leb ss ts else text_leb s t

pub text_leb-total : (s t : String) → text_leb s t ≡ false → text_leb t s ≡ true
unfolding text_leb
text_leb-total String.[] t h = cc
text_leb-total (String.◌∷◌ c s) String.[] h = refl
text_leb-total (String.◌∷◌ c s) (String.◌∷◌ d t) h = ground (arith, text_leb-total s t)

pub text_leb_trans :
    (s t u : String) → text_leb s t ≡ true → text_leb t u ≡ true → text_leb s u ≡ true
unfolding text_leb
text_leb_trans String.[] t u h k = refl
text_leb_trans (String.◌∷◌ c s) String.[] u h k = cc
text_leb_trans (String.◌∷◌ c s) (String.◌∷◌ d t) String.[] h k = cc
text_leb_trans (String.◌∷◌ c s) (String.◌∷◌ d t) (String.◌∷◌ e u) h k =
    ground (arith, text_leb_trans s t u)

strip_ends : strip " \tĐiều 5 " ≡ "Điều 5"
unfolding strip
strip_ends = refl

collapse_runs : collapse_whitespace "a \n b  c" ≡ "a b c"
unfolding collapse_whitespace
collapse_runs = refl

find_inside : (has_substring "bc" "abcd" ≡ true) × (has_substring "bd" "abcd" ≡ false)
unfolding has_substring
find_inside = (refl, refl)

show_numbers : (show_nat 0 ≡ "0") × (show_nat 1024 ≡ "1024")
unfolding show_nat
show_numbers = (refl, refl)
