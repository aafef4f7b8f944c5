-- ===== src/Libdg/Values.antt =====
-- What `read_config` of src/libdg/libdgconfig.c makes of one value: the `switch` on `cf_type`. What
-- it would print through SYSLOG is a list of diagnoses, newest first.
use madai.Base.{
  ℕ, ◌+◌, ◌-◌, ◌^◌, ℤ, to_int, to_uint, Bool, true, false, not, ◌&&◌, ◌||◌, Option, none, some,
  List, [], ◌∷◌, Bytes, ltb, ◌==◌, if◌then◌else◌,
}
use madai.Types.{ConfigData}
use madai.Sys.{Env}
use madai.Libdg.Text.{Number, all_space, skip_blank, strtol}
use madai.Libdg.Checks.{ConfErr}
use madai.Libdg.Entry.{
  IntField, TextField, CfType, number, text, function, other, set_int, set_text,
}

pub data Diag : Type 0 where
  cannot_read : ConfErr → Diag
  cannot_open cannot_allocate : Diag
  too_long_line syntax_err too_big_num must_plus : ℕ → Diag
  check_func : ℕ → ConfErr → Diag
  no_type : ℕ → Diag
  must_set : Bytes → Diag

abbrev pub max_config_line : ℕ
max_config_line = 1024

abbrev pub uint_max : ℕ
uint_max = 2 ^ 32 - 1

-- The variables of `read_config` while it reads.
pub record Progress : Type 0 where
  pub cfg : ConfigData
  pub checks : List Bool
  pub error : ℕ
  pub erange : Bool
  pub diags : List Diag

-- A diagnosis that counts as an error.
abbrev pub fail : Diag → Progress → Progress
fail d g = record g { error = g.error + 1; diags = d ∷ g.diags }

abbrev pub run_check : {A : Type 0} → Option (A → Option ConfErr) → A → Option ConfErr
run_check none a = none
run_check (some check) a = check a

-- `case CF_INTEGER: case CF_INT_PLUS:` behind `strtol`; `value` is the `unsigned int`.
abbrev pub all_blank : Bytes → Bool
all_blank [] = true
all_blank (c ∷ s) = false

unfoldable pub store_number :
    ℕ → Bool → Option (ℤ → Option ConfErr) → IntField → Number → Progress → Progress
store_number nline plus check field n g =
    let value = to_uint n.value in
    if not (all_blank (skip_blank n.rest))
    then fail (syntax_err nline) g
    else if value == uint_max && g.erange
    then fail (too_big_num nline) g
    else if plus && ltb uint_max value
    then fail (must_plus nline) g
    else elim (run_check check (to_int value)) [
      | some e ↦ fail (check_func nline e) g
      | none ↦ record g { cfg = set_int field (to_int value) g.cfg }
    ]

abbrev pub note_range : Bool → Progress → Progress
note_range out_of_range g = record g { erange = g.erange || out_of_range }

unfoldable pub read_number :
    ℕ → Bool → Option (ℤ → Option ConfErr) → IntField → Bytes → Progress → Progress
unfolding store_number strtol
read_number nline plus check field str g =
    store_number nline plus check field (strtol str) (note_range (strtol str).out_of_range g)

-- `case CF_STRING:`. A value of white space only is accepted, and not stored.
unfoldable pub read_text :
    Env → ℕ → Option (Bytes → Option ConfErr) → TextField → Bytes → Progress → Progress
unfolding all_space
read_text env nline check field str g = elim (run_check check str) [
  | some e ↦ fail (check_func nline e) g
  | none ↦
      if all_space str
      then g
      else if env.strdup str
      then record g { cfg = set_text field str g.cfg }
      else fail cannot_allocate g
]

-- `case CF_FUNCTION:`
unfoldable pub read_function :
    ℕ → (Bytes → ConfigData → ConfigData × Option ConfErr) → Bytes → Progress → Progress
read_function nline check str g =
    let (cfg, estr) = check str g.cfg in
    let g' = record g { cfg = cfg } in
    elim estr [ none ↦ g' | some e ↦ fail (check_func nline e) g' ]

-- The `switch` on `cf_type`, for the text behind the equals sign.
unfoldable pub read_value : Env → ℕ → CfType → Bytes → Progress → Progress
unfolding read_number read_text read_function
read_value env nline (number plus check field) str g = read_number nline plus check field str g
read_value env nline (text check field) str g = read_text env nline check field str g
read_value env nline (function check) str g = read_function nline check str g
read_value env nline (other n) str g = fail (no_type n) g
