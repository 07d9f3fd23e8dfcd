-- ===== src/Generation/Renderer/Escape.antt =====
-- What a reader of Markdown makes of the texts that renderer.py escapes. The reader follows
-- CommonMark, and knows nothing of the characters that the renderer escapes.
use Prim.Native.Char.{Char, code}
use legal_graphrag_platform.Base.{
  ◌&&◌, ◌||◌, leb, ℕ, String, ◌≡◌, refl, ap, true, false, Option, none, some, eqb, ℕ, arith,
  if◌then◌else◌, ◌∙◌, Bool,
}
use legal_graphrag_platform.Generation.Renderer.{is_markdown_special, escape}

-- ASCII punctuation, which a backslash makes plain.
is_punctuation : ℕ → Bool
is_punctuation c =
    leb 33 c && leb c 47 || leb 58 c && leb c 64 || leb 91 c && leb c 96 || leb 123 c && leb c 126

-- Code spans and emphasis, autolinks, HTML and quotes, attributes, links, and headings.
is_markup : ℕ → Bool
is_markup c =
    eqb c b'`'
    || (eqb c b'*' || eqb c b'_')
    || (eqb c b'<' || eqb c b'>')
    || (eqb c b'{' || eqb c b'}')
    || (eqb c b'[' || eqb c b']')
    || eqb c b'#'

abbrev put : Char → Option String → Option String
put c none = none
put c (some s) = some (String.◌∷◌ c s)

-- The text that is shown, if no character of markup stands without a backslash. A backslash
-- before punctuation is not shown, any other is; the flag says that one has been read.
pub plain_text : Bool → String → Option String
plain_text true String.[] = some "\\"
plain_text false String.[] = some ""
plain_text true (String.◌∷◌ c s) =
    let rest = put c (plain_text false s) in if is_punctuation (code c) then rest else put "\\" rest
plain_text false (String.◌∷◌ c s) =
    let escaped = plain_text true s in
    let plain = put c (plain_text false s) in
    if eqb (code c) 0x5c then escaped else if is_markup (code c) then none else plain

special_backslash : (n : ℕ) → is_markdown_special n ≡ false → eqb n 0x5c ≡ false
unfolding is_markdown_special
special_backslash n h = ground (arith, h)

special_markup : (n : ℕ) → is_markdown_special n ≡ false → is_markup n ≡ false
unfolding is_markdown_special is_markup
special_markup n h = ground (arith, h)

special_punctuation : (n : ℕ) → is_markdown_special n ≡ true → is_punctuation n ≡ true
unfolding is_markdown_special is_punctuation
special_punctuation n h = ground (arith, h)

plain_text-plain :
    (c : Char) (s : String)
    → is_markdown_special (code c) ≡ false
    → plain_text false (String.◌∷◌ c s) ≡ put c (plain_text false s)
unfolding plain_text
plain_text-plain c s h = rw (special_backslash (code c) h, special_markup (code c) h) refl

plain_text-escaped :
    (c : Char) (s : String)
    → is_markdown_special (code c) ≡ true
    → plain_text false (String.◌∷◌ "\\" (String.◌∷◌ c s)) ≡ put c (plain_text false s)
unfolding plain_text
plain_text-escaped c s h = rw (special_punctuation (code c) h) refl

-- In a text that is escaped none of ` * _ < > { } [ ] # stands without a backslash, and a reader
-- that takes the backslashes before punctuation away sees the text as it was.
pub plain_text-escape : (s : String) → plain_text false (escape s) ≡ some s
unfolding plain_text escape
plain_text-escape String.[] = refl
plain_text-escape (String.◌∷◌ c s) =
    by_test (is_markdown_special (code c)) refl ∙ ap (put c) (plain_text-escape s)
  where
    by_test :
        (b : Bool)
        → is_markdown_special (code c) ≡ b
        → plain_text false
            (if b then String.◌∷◌ "\\" (String.◌∷◌ c (escape s)) else String.◌∷◌ c (escape s))
          ≡ put c (plain_text false (escape s))
    by_test true h = plain_text-escaped c (escape s) h
    by_test false h = plain_text-plain c (escape s) h
