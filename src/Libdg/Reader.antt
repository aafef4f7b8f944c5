-- ===== src/Libdg/Reader.antt =====
-- `read_config` of src/libdg/libdgconfig.c: one pass over the lines of the file, and one over the
-- table of terms for those that the file did not set. The `switch` on
-- the type of a term is in Libdg/Values.
pub mod Fields
pub mod Terms
pub mod Loop
pub mod Defaults
pub mod Valid
pub mod Lines
pub mod Meaning
use madai.Base.{
  ℕ, zero, suc, ◌+◌, ◌-◌, ◌^◌, ℤ, pos, negsuc, to_int, to_uint, Bool, true, false, not, ◌&&◌, ◌||◌,
  Option, none, some, List, [], ◌∷◌, Bytes, length, ltb, ◌==◌, if◌then◌else◌,
}
use madai.Types.{ConfigData, DgLog, to_syslog, to_stderr, nowhere}
use madai.Sys.{Block, Event, Env, Cmd, ok, crash, hang, pure, ◌>>=◌, ◌>>◌, emit, ask}
use madai.Libdg.Text.{Number, is_space, strip_nocase, all_space, skip_blank, strtol}
use madai.Libdg.Checks.{ConfErr, is_readable_file}
use madai.Libdg.Entry.{
  IntField, TextField, CfType, number, text, function, other, CfEntry, set_int, set_text,
}
pub use madai.Libdg.Values.{
  Diag, cannot_read, cannot_open, cannot_allocate, too_long_line, syntax_err, too_big_num,
  must_plus, check_func, no_type, must_set, max_config_line, uint_max, Progress, fail, run_check,
  all_blank, note_range,
}
unfoldable pub use madai.Libdg.Values.{
  store_number, read_number, read_text, read_function, read_value,
}

-- What stands behind `name` and an equals sign, unless that begins with white space.
unfoldable pub behind_equals : Bytes → Option Bytes
behind_equals [] = none
behind_equals (c ∷ []) = if c == b'=' then some [] else none
behind_equals (c ∷ d ∷ s) = if c == b'=' && not (is_space d) then some (d ∷ s) else none

unfoldable pub match_key : Bytes → Bytes → Option Bytes
unfolding strip_nocase behind_equals
match_key name line = elim (strip_nocase name line) [ none ↦ none | some rest ↦ behind_equals rest ]

-- `check[i] = CONFIG_TRUE`
abbrev pub mark : ℕ → List Bool → List Bool
mark i [] = []
mark zero (b ∷ bs) = true ∷ bs
mark (suc i) (b ∷ bs) = b ∷ mark i bs

-- The loop over the terms for one line: the first that matches is read, at index `i`.
unfoldable pub read_term : Env → ℕ → ℕ → List CfEntry → Bytes → Progress → Progress
unfolding match_key read_value
read_term env nline i [] line g = fail (syntax_err nline) g
read_term env nline i (e ∷ es) line g =
    let rest = read_term env nline (suc i) es line g in
    elim (match_key e.name line) [
      | some str ↦ read_value env nline e.type str (record g { checks = mark i g.checks })
      | none ↦ rest
    ]

-- One round of the loop over the lines.
unfoldable pub read_line : Env → List CfEntry → ℕ → Bytes → Progress → Progress
unfolding read_term
read_line env cfe nline [] g = g
read_line env cfe nline (c ∷ line) g =
    if c == b'#' then g else read_term env nline 0 cfe (c ∷ line) g

-- `fgets` of at most `k` bytes, and `strchr(line, '\\n')`: the line and what follows it. There is
-- none if a NUL, the end of the file or the end of the buffer comes before the newline.
unfoldable pub cut_line : ℕ → Bytes → Option (Bytes × Bytes)
cut_line zero s = none
cut_line (suc k) [] = none
cut_line (suc k) (c ∷ s) =
    if c == 0
    then none
    else if c == b'\n'
    then some ([], s)
    else elim (cut_line k s) [ none ↦ none | some (a, b) ↦ some (c ∷ a, b) ]

-- How the loop over the lines ends: at the end of the file, or with `return (-2)`.
pub data LoopEnd : Type 0 where
  end_of_file too_long out_of_rounds : Progress → LoopEnd

-- A round for each byte is more than enough, since each line takes its newline.
unfoldable pub read_lines : Env → List CfEntry → ℕ → ℕ → Bytes → Progress → LoopEnd
unfolding read_line cut_line
read_lines env cfe zero nline content g = out_of_rounds g
read_lines env cfe (suc k) nline [] g = end_of_file g
read_lines env cfe (suc k) nline (c ∷ content) g = elim (cut_line max_config_line (c ∷ content)) [
  | none ↦ too_long (record g { diags = too_long_line nline ∷ g.diags })
  | some (line, rest) ↦ read_lines env cfe k (nline + 1) rest (read_line env cfe nline line g)
]

-- The default of a term that the file did not set.
pub fill_default : Env → CfType → Bytes → Progress → Progress
unfolding strtol
fill_default env (number plus check field) d g = record g {
  cfg = set_int field (to_int (to_uint (strtol d).value)) g.cfg;
}
fill_default env (text check field) d g =
    if env.strdup d then record g { cfg = set_text field d g.cfg } else fail cannot_allocate g
fill_default env (function check) d g = g
fill_default env (other n) d g = g

pub fill_term : Env → CfEntry → Option Bytes → Progress → Progress
unfolding fill_default
fill_term env e none g = fail (must_set e.name) g
fill_term env e (some d) g = fill_default env e.type d g

unfoldable pub fill_defaults : Env → List CfEntry → List Bool → Progress → Progress
unfolding fill_term
fill_defaults env (e ∷ es) (set ∷ bs) g =
    fill_defaults env es bs (if set then g else fill_term env e e.default g)
fill_defaults env _ _ g = g

-- What `read_config` returns, and what it leaves in `data`.
pub record Reading : Type 0 where
  pub ret : ℤ
  pub cfg : ConfigData
  pub diags : List Diag

abbrev pub unchecked : List CfEntry → List Bool
unchecked [] = []
unchecked (e ∷ es) = false ∷ unchecked es

abbrev pub start : Env → List CfEntry → ConfigData → Progress
start env cfe cfg = record {
  cfg = cfg;
  checks = unchecked cfe;
  error = 0;
  erange = env.erange;
  diags = [];
}

-- Behind the loop over the lines.
unfoldable pub finish : Env → List CfEntry → LoopEnd → Cmd Reading
unfolding fill_defaults
finish env cfe (end_of_file g) = do
  let h = fill_defaults env cfe g.checks g
  emit (Event.freed Block.config_checks)
  pure (record { ret = to_int h.error; cfg = h.cfg; diags = h.diags })
finish env cfe (too_long g) = do
  emit (Event.freed Block.config_checks)
  pure (record { ret = negsuc 1; cfg = g.cfg; diags = g.diags })
finish env cfe (out_of_rounds g) = λ s. hang

abbrev pub give_up : ConfigData → Diag → Reading
give_up cfg d = record { ret = negsuc 0; cfg = cfg; diags = d ∷ [] }

unfoldable pub read_content : Env → List CfEntry → ConfigData → Bytes → Cmd Reading
unfolding read_lines finish
read_content env cfe cfg content = do
  room ← ask (λ t. env.malloc t Block.config_checks) (Event.allocated Block.config_checks)
  if room
      then finish env cfe (read_lines env cfe (suc (length content)) 1 content (start env cfe cfg))
      else pure (give_up cfg cannot_allocate)

-- Whether a text can stand for a format with no arguments: each `%` is doubled. `%m`, which only
-- syslog(3) defines, counts as undefined.
unfoldable pub plain_format : Bytes → Bool
plain_format [] = true
plain_format (c ∷ []) = not (c == b'%')
plain_format (c ∷ d ∷ s) =
    let behind = plain_format s in
    let rest = plain_format (d ∷ s) in if c == b'%' then (d == b'%') && behind else rest

-- A call through `dgconfig_log` with the text as its format, which `NoLOG` does not look at.
abbrev pub print_as : DgLog → Bytes → Cmd (Unit {0})
print_as nowhere p = pure tt
print_as to_stderr p = if plain_format p then pure tt else crash
print_as to_syslog p = if plain_format p then pure tt else crash

-- `SYSLOG(LOG_WARNING, p)`: the message itself is the format.
unfoldable pub warn : ConfErr → Cmd (Unit {0})
warn (ConfErr.filedir p) = λ s. print_as s.mem.dgconfig_log p s
warn _ = pure tt

-- `read_config` behind `is_readable_file`.
unfoldable pub read_file : Env → Bytes → List CfEntry → ConfigData → Option ConfErr → Cmd Reading
unfolding read_content warn
read_file env file cfe cfg (some e) = do warn e; pure (give_up cfg (cannot_read e))
read_file env file cfe cfg none = λ s. elim (env.fopen s.trace file) [
  | none ↦ ok (give_up cfg cannot_open) s
  | some content ↦ read_content env cfe cfg content s
]

unfoldable pub read_config : Env → Bytes → List CfEntry → ConfigData → Cmd Reading
unfolding is_readable_file read_file
read_config env file cfe cfg = do p ← is_readable_file env file; read_file env file cfe cfg p
