-- ===== src/Libdg/Reader/Meaning.antt =====
-- What a configuration file means, apart from how it is read: each term has the value of the last line
-- for it, and else its default.
pub mod Value
pub mod Line
pub mod Default
pub mod Split
pub mod File
use madai.Base.{
  ℕ, suc, ◌<◌, ℤ, to_int, to_uint, Bool, true, false, Option, none, some, List, [], ◌∷◌, ◌++◌, ◌≡◌,
  Bytes, length, ◌==◌, if◌then◌else◌,
}
use madai.Types.{ConfigData}
use madai.Libdg.Text.{all_space, strtol}
use madai.Libdg.Entry.{CfType, number, text, function, other, CfEntry, get_int, get_text}
use madai.Libdg.Reader.{match_key}
use madai.Libdg.Reader.Lines.{one_line}

-- The value of the field of a term.
pub data FieldValue : Type 0 where
  int_value : ℤ → FieldValue
  text_value : Option Bytes → FieldValue
  no_value : FieldValue

abbrev pub field : CfType → ConfigData → FieldValue
field (number plus check f) cfg = int_value (get_int f cfg)
field (text check f) cfg = text_value (get_text f cfg)
field _ cfg = no_value

-- The value that a text stands for.
abbrev pub value_of : CfType → Bytes → FieldValue
value_of (number plus check f) str = int_value (to_int (to_uint (strtol str).value))
value_of (text check f) str = text_value (some str)
value_of _ str = no_value

-- What the lines so far say of a term: nothing, only a text of white space, or a value.
pub data Given : Type 0 where
  absent blank : Given
  given : Bytes → Given

abbrev pub is_named : Given → Bool
is_named absent = false
is_named _ = true

abbrev pub named : Given → Given
named absent = blank
named g = g

-- After one more line for the term.
abbrev pub then_given : CfType → Bytes → Given → Given
then_given (text check f) str g = if all_space str then named g else given str
then_given _ str g = given str

-- The first term of the table that a line is for, counted from `i`, and the text behind its equals
-- sign.
abbrev pub first_match : ℕ → List CfEntry → Bytes → Option (ℕ × Bytes)
first_match i [] line = none
first_match i (e ∷ es) line = elim (match_key e.name line) [
  | some str ↦ some (i, str)
  | none ↦ first_match (suc i) es line
]

abbrev pub for_term : ℕ → CfType → Option (ℕ × Bytes) → Given → Given
for_term j t none g = g
for_term j t (some (i, str)) g = if j == i then then_given t str g else g

-- An empty line and a comment say nothing.
abbrev pub line_gives : List CfEntry → ℕ → CfType → Bytes → Given → Given
line_gives es j t [] g = g
line_gives es j t (c ∷ line) g =
    if c == b'#' then g else for_term j t (first_match 0 es (c ∷ line)) g

abbrev pub lines_give : List CfEntry → ℕ → CfType → List Bytes → Given → Given
lines_give es j t [] g = g
lines_give es j t (line ∷ lines) g = lines_give es j t lines (line_gives es j t line g)

-- The field of a term, where the lines so far say `g` of it, and `before` is the configuration that the
-- reading began with.
abbrev pub so_far : CfType → Given → ConfigData → FieldValue
so_far t (given str) before = value_of t str
so_far t _ before = field t before

-- The field of a term in the end.
abbrev pub Meant : CfEntry → Given → ConfigData → ConfigData → Type 0
Meant e absent before cfg =
    (d : Bytes) × ((e.default ≡ some d) × (field e.type cfg ≡ value_of e.type d))
Meant e g before cfg = field e.type cfg ≡ so_far e.type g before

-- A file of whole lines, each with room in the buffer.
abbrev pub text_of : List Bytes → Bytes → Bytes
text_of [] tail = tail
text_of (line ∷ lines) tail = line ++ (b'\n' ∷ text_of lines tail)

abbrev pub IsLine : Bytes → Type 0
IsLine line = (one_line line ≡ true) × (length line < 1024)

abbrev pub AllLines : List Bytes → Type 0
AllLines [] = Unit {0}
AllLines (line ∷ lines) = IsLine line × AllLines lines
