-- ===== src/Base/Json.antt =====
-- Python's `json.dumps`, for the values that the program serialises. The keys of an object are
-- written in the order given, so a caller with `sort_keys=True` lists them sorted.
use Prim.Native.Char.{code}
use Prim.Native.String.{◌++◌}
use legal_graphrag_platform.Base.{
  ◌%◌, ◌/◌, ℕ, ◌+◌, ◌-◌, String, ◌≡◌, refl, Bool, true, false, ◌&&◌, Option, none, some, List, [],
  ◌∷◌, if◌then◌else◌, leb, ltb, eqb,
}
use legal_graphrag_platform.Base.Text.{show_nat}

-- `real` holds a float by its `repr`.
mutual
  pub data Json : Type 0 where
    null : Json
    flag : Bool → Json
    num : ℕ → Json
    real : String → Json
    str : String → Json
    arr : Items → Json
    obj : Fields → Json

  pub data Items : Type 0 where
    nil : Items
    cons : Json → Items → Items

  pub data Fields : Type 0 where
    end : Fields
    field : String → Json → Fields → Fields

abbrev pub strings : List String → Items
strings [] = nil
strings (x ∷ xs) = cons (str x) (strings xs)

abbrev pub opt_str : Option String → Json
opt_str none = null
opt_str (some s) = str s

pub record Format : Type 0 where
  pub ensure_ascii : Bool
  pub item_sep : String
  pub key_sep : String

-- `separators=(",", ":")`, with `ensure_ascii=False`
abbrev pub compact : Format
compact = record { ensure_ascii = false; item_sep = ","; key_sep = ":" }

-- `separators=(",", ":")`, with the default `ensure_ascii=True`
abbrev pub compact_ascii : Format
compact_ascii = record { ensure_ascii = true; item_sep = ","; key_sep = ":" }

-- the default separators, with `ensure_ascii=False`
abbrev pub spaced : Format
spaced = record { ensure_ascii = false; item_sep = ", "; key_sep = ": " }

hex_digit : ℕ → String
unfolding show_nat
hex_digit d =
    if leb d 9
    then show_nat d
    else if eqb d 10
    then "a"
    else if eqb d 11
    then "b"
    else if eqb d 12
    then "c"
    else if eqb d 13
    then "d"
    else if eqb d 14
    then "e"
    else "f"

-- `'\\u{0:04x}'.format(n)`
hex4 : ℕ → String
unfolding hex_digit
hex4 n =
    "\\u"
    ++ hex_digit (n / 4096 % 16)
    ++ hex_digit (n / 256 % 16)
    ++ hex_digit (n / 16 % 16)
    ++ hex_digit (n % 16)

escape_ascii : ℕ → String
unfolding hex4
escape_ascii n =
    if ltb n 0x10000
    then hex4 n
    else hex4 (0xd800 + (n - 0x10000) / 1024 % 1024) ++ hex4 (0xdc00 + (n - 0x10000) % 1024)

escape_code : Bool → ℕ → String → String
unfolding escape_ascii hex4
escape_code ensure_ascii n verbatim =
    if eqb n 0x22
    then "\\\""
    else if eqb n 0x5c
    then "\\\\"
    else if eqb n 0x0a
    then "\\n"
    else if eqb n 0x0d
    then "\\r"
    else if eqb n 0x09
    then "\\t"
    else if eqb n 0x0c
    then "\\f"
    else if eqb n 0x08
    then "\\b"
    else if ltb n 0x20
    then hex4 n
    else if ensure_ascii && leb 0x7f n
    then escape_ascii n
    else verbatim

escape_text : Bool → String → String
unfolding escape_code
escape_text ensure_ascii String.[] = ""
escape_text ensure_ascii (String.◌∷◌ c s) =
    escape_code ensure_ascii (code c) (String.◌∷◌ c "") ++ escape_text ensure_ascii s

quote : Bool → String → String
unfolding escape_text
quote ensure_ascii s = "\"" ++ escape_text ensure_ascii s ++ "\""

unfoldable mutual
  unfolding quote show_nat

  pub dumps : Format → Json → String
  dumps f null = "null"
  dumps f (flag true) = "true"
  dumps f (flag false) = "false"
  dumps f (num n) = show_nat n
  dumps f (real shown) = shown
  dumps f (str s) = quote f.ensure_ascii s
  dumps f (arr xs) = "[" ++ dump_items f xs ++ "]"
  dumps f (obj fs) = "{" ++ dump_fields f fs ++ "}"

  pub dump_items : Format → Items → String
  dump_items f nil = ""
  dump_items f (cons x nil) = dumps f x
  dump_items f (cons x (cons y ys)) = dumps f x ++ f.item_sep ++ dump_items f (cons y ys)

  pub dump_fields : Format → Fields → String
  dump_fields f end = ""
  dump_fields f (field k x end) = quote f.ensure_ascii k ++ f.key_sep ++ dumps f x
  dump_fields f (field k x (field j y fs)) =
      quote f.ensure_ascii k ++ f.key_sep ++ dumps f x ++ f.item_sep ++ dump_fields f (field j y fs)

abbrev sample : Json
sample = obj (field "a" (arr (cons (num 10) (cons null nil))) (field "b" (str "\"Đ\"") end))

dump_sample :
    (dumps compact sample ≡ "{\"a\":[10,null],\"b\":\"\\\"Đ\\\"\"}")
    × (dumps compact_ascii (str "Đ") ≡ "\"\\u0110\"")
    × (dumps spaced sample ≡ "{\"a\": [10, null], \"b\": \"\\\"Đ\\\"\"}")
unfolding dumps
dump_sample = (refl, refl, refl)
