-- ===== src/Libdg/Reader/Valid.antt =====
-- `read_config` as a whole, for a table of plain terms with a field each.
use madai.Base.{
  ℕ, suc, true, none, ltb, lt→ltb, ◌+◌, ◌<◌, ◌^◌, pos, to_int, to_int-small, some, List, ◌≡◌, refl,
  arith, Bytes, length, Bool-cases, Option-cases, inl, inr,
}
use madai.Types.{ConfigData, DgLog, to_syslog, to_stderr, nowhere}
use madai.Sys.{Trace, Env, State, Block, ok}
use madai.Sys.Ends.{Ends, ends}
use madai.Libdg.Checks.{ConfErr, unreadable, is_readable_file, errbuf_len, filedir_text}
use madai.Libdg.Entry.{CfEntry}
use madai.Libdg.Reader.{
  Reading, LoopEnd, unchecked, finish, fill_defaults, read_content, read_file, read_config,
  plain_format, print_as, warn, give_up, cannot_read,
}
use madai.Libdg.Reader.Terms.{TermsOk, IsTable}
use madai.Libdg.Reader.Loop.{Kept, at_end, at_long, read_lines-Kept, start-FileRead}
use madai.Libdg.Reader.Defaults.{AllOk, DefaultsOk, fill_defaults-Filled}

-- The file can be read, or why it cannot be fits `errbuf` with its path, and stands for a format.
abbrev pub Tells : Env → Bytes → Trace → Type 0
Tells env file t =
    (why : Bytes)
    → unreadable env t file ≡ some why
    → (length (filedir_text file why) < errbuf_len) × (plain_format (filedir_text file why) ≡ true)

-- At any time the file is small enough for the `int` that counts its errors, and if it cannot be
-- read the message fits.
pub record SmallFile (env : Env) (es : List CfEntry) (file : Bytes) : Type 0 where
  pub small :
      (t : Trace) (content : Bytes)
      → env.fopen t file ≡ some content
      → length content + length es < 2 ^ 31
  pub tells : (t : Trace) → Tells env file t

print_as-plain :
    (l : DgLog) (p : Bytes) (s : State) → plain_format p ≡ true → print_as l p s ≡ ok tt s
print_as-plain nowhere p s plain = refl
print_as-plain to_stderr p s plain = rw plain refl
print_as-plain to_syslog p s plain = rw plain refl

read_config-refused :
    (env : Env) (file : Bytes) (es : List CfEntry) (cfg : ConfigData) (s : State) (why : Bytes)
    → unreadable env s.trace file ≡ some why
    → Tells env file s.trace
    → read_config env file es cfg s
      ≡ ok (give_up cfg (cannot_read (ConfErr.filedir (filedir_text file why)))) s
unfolding read_config is_readable_file read_file warn
read_config-refused env file es cfg s why bad tells =
    let (fits, plain) = tells why bad in
    let fits' : ltb (length (filedir_text file why)) errbuf_len ≡ true = lt→ltb _ _ fits in
    rw (bad, fits', warn, print_as-plain s.mem.dgconfig_log (filedir_text file why) s plain) refl

pub read_config-readable :
    (env : Env) (file : Bytes) (es : List CfEntry) (cfg : ConfigData) (s : State)
    → unreadable env s.trace file ≡ none
    → read_config env file es cfg s ≡ read_file env file es cfg none s
unfolding read_config is_readable_file
read_config-readable env file es cfg s readable = rw readable refl

-- The memory is as it was, and a result of 0 means that every term is good.
pub record Loads (es : List CfEntry) (s : State) (r : Reading) (t : State) : Type 0 where
  pub same_mem : t.mem ≡ s.mem
  pub good : r.ret ≡ pos 0 → AllOk es r.cfg

pub ret_zero : (n : ℕ) → n < 2 ^ 31 → to_int n ≡ pos 0 → n ≡ 0
ret_zero n small e = ground (arith, to_int-small n small)

module _ (env : Env) (es : List CfEntry) (table : IsTable es) (defaults : DefaultsOk es) where
  finish-Loads :
      {last : LoopEnd} (s t : State) (total : ℕ)
      → t.mem ≡ s.mem
      → total + length es < 2 ^ 31
      → Kept es total last
      → Ends (Loads es s) (finish env es last t)
  unfolding finish
  finish-Loads s t total m small (at_end {g} f) =
      let h = fill_defaults env es g.checks g in
      let filled = fill_defaults-Filled env es g.checks g table defaults f.terms f.same_length in
      ends (record {
        same_mem = m;
        good = λ e. filled.good (ret_zero h.error (omega (arith, filled.few, f.few)) e);
      })
  finish-Loads s t total m small at_long = ends (record { same_mem = m; good = λ e. cc })

  -- For a table of number and text terms with a field each, whose defaults are good, a
  -- configuration with no text set, and a file shorter than an `int` can count that can be read, or
  -- whose path and the reason why not fit `errbuf` and stand for a format: `read_config` ends,
  -- changes no memory, and if it returns 0 then each term of the table holds a value that its check
  -- accepts, or holds none and the check accepts the empty text.
  pub read_config-Loads :
      (file : Bytes) (cfg : ConfigData) (s : State)
      → TermsOk es (unchecked es) cfg
      → SmallFile env es file
      → Ends (Loads es s) (read_config env file es cfg s)
  unfolding read_file read_content
  read_config-Loads file cfg s clear small = elim (Option-cases (unreadable env s.trace file)) [
    | inr (why, bad) ↦
        rw (read_config-refused env file es cfg s why bad (small.tells s.trace))
          (ends (record { same_mem = refl; good = λ z. cc }))
    | inl readable ↦ elim (Option-cases (env.fopen s.trace file)) [
      | inl closed ↦
          rw (read_config-readable env file es cfg s readable, read_file, closed)
            (ends (record { same_mem = refl; good = λ z. cc }))
      | inr (content, open_file) ↦ elim (Bool-cases (env.malloc s.trace Block.config_checks)) [
        | inr no_room ↦
            rw (read_config-readable env file es cfg s readable, read_file, open_file, no_room)
              (ends (record { same_mem = refl; good = λ z. cc }))
        | inl room ↦
            rw (read_config-readable env file es cfg s readable, read_file, open_file, room)
              (finish-Loads s _ (length content) refl (small.small s.trace content open_file) (
                read_lines-Kept env es (suc (length content)) 1 content _ 0 (length content) table
                  (omega arith) (omega arith) (start-FileRead env es cfg clear)))
      ]
    ]
  ]
