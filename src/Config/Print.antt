-- ===== src/Config/Print.antt =====
-- `print_config_data` of src/config.c: the current configuration on the standard output, a line for
-- each term. Where a text is NULL, `%s` prints what glibc prints if the host's printf(3)
-- prints something for it, and else it is undefined, as C leaves it.
pub mod Lines
pub mod Found
pub mod ReadBack
use madai.Base.{
  ℤ, Bool, true, false, Option, none, some, List, [], ◌∷◌, ◌++◌, ◌&&◌, ◌||◌, is_some, if◌then◌else◌,
  Bytes, codes,
}
use madai.Types.{ConfigData}
use madai.Sys.{Event, Env, Cmd, pure, crash, ◌>>=◌, ◌>>◌, deref, memory, emit, load_set}
use madai.Libdg.Decimal.{print_int}
use madai.Libdg.Entry.{CfType, number, text, function, other, CfEntry, get_int, get_text}
use madai.Config.Load.{cfe}

abbrev pub text_or_null : Option Bytes → Bytes
text_or_null none = codes "(null)"
text_or_null (some v) = v

abbrev pub line_of : Bytes → Bytes → Bytes
line_of name value = name ++ (b'=' ∷ value)

-- One round of the loop: a term that is neither CF_INT_PLUS nor CF_STRING is not printed.
abbrev pub term_text : CfEntry → ConfigData → Bytes → Bytes
term_text e cfg rest = elim e.type [
  | number plus check field ↦ elim plus [
    | true ↦ line_of e.name (print_int (get_int field cfg)) ++ (b'\n' ∷ rest)
    | false ↦ rest
  ]
  | text check field ↦ line_of e.name (text_or_null (get_text field cfg)) ++ (b'\n' ∷ rest)
  | function check ↦ rest
  | other n ↦ rest
]

abbrev pub terms_text : List CfEntry → ConfigData → Bytes
terms_text [] cfg = []
terms_text (e ∷ es) cfg = term_text e cfg (terms_text es cfg)

-- No term of the table that is printed with `%s` is NULL.
abbrev pub no_null : List CfEntry → ConfigData → Bool
no_null [] cfg = true
no_null (e ∷ es) cfg = elim e.type [
  | number plus check field ↦ no_null es cfg
  | text check field ↦ is_some (get_text field cfg) && no_null es cfg
  | function check ↦ no_null es cfg
  | other n ↦ no_null es cfg
]

abbrev pub headline : Bytes
headline = codes "-----------configure file data-----------\n"

abbrev pub footline : Bytes
footline = codes "-----------------------------------------\n"

unfoldable pub print_config_data : Env → Cmd (Unit {0})
print_config_data env = do
  m ← memory
  p ← deref m.cur_config
  cfg_set ← load_set p
  cfg ← deref cfg_set.config
  if no_null (cfe env) cfg || env.prints_null then pure tt else crash
  emit (Event.config_printed (headline ++ (terms_text (cfe env) cfg ++ footline)))
