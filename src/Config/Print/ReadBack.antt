-- ===== src/Config/Print/ReadBack.antt =====
-- What `print_config_data` prints between its two rules, read as a configuration file.
use madai.Base.{
  ℕ, zero, suc, ◌+◌, ◌^◌, ◌<◌, ◌≤◌, pos, true, false, ◌||◌, none, some, Option, List, [], ◌∷◌, ◌++◌,
  ◌≡◌, refl, ap, ◌∙◌, arith, Bytes, length, length-append,
}
use madai.Types.{ConfigData}
use madai.Sys.{Env, State, Block}
use madai.Sys.Ends.{Ends, ends}
use madai.Libdg.Text.{is_space}
use madai.Libdg.Decimal.{print_int}
use madai.Libdg.Decimal.Digits.{all_digits-print_nat, print_nat-digit, length-print_nat}
use madai.Libdg.Checks.{unreadable}
use madai.Libdg.Entry.{
  CfType, CfEntry, number, text, function, other, get_int, get_text, set_int, set_text,
}
use madai.Libdg.Reader.{
  Progress, end_of_file, read_lines, read_value, read_config, read_content, read_file, finish,
  fill_defaults, max_config_line, run_check, mark, start,
}
use madai.Config.Load.{cfe, cleared}
use madai.Config.Print.{line_of, text_or_null, term_text, terms_text}
use madai.Config.Print.Found.{Found, AllFound, cfe-AllFound}
use madai.Libdg.Reader.Valid.{read_config-readable}
use madai.Libdg.Reader.Lines.{one_line, one_line-append, cut_line-append, read_lines_step}
use madai.Config.Print.Lines.{one_line-digits, read_value-number, read_value-text}

-- The value of a term can be printed and read back: a number is an `int` from 0, a text is one line
-- that does not begin with white space and fits the buffer, and the check accepts it.
abbrev pub IsPrintable : Env → Bytes → CfType → ConfigData → Type 0
IsPrintable env name (number plus check field) cfg =
    (plus ≡ true)
    × ((n : ℕ) × (get_int field cfg ≡ pos n) × (n < 2 ^ 31) × (run_check check (pos n) ≡ none))
IsPrintable env name (text check field) cfg =
    (c : ℕ) × ((s : Bytes) × (get_text field cfg ≡ some (c ∷ s))
      × (is_space c ≡ false)
      × (one_line (c ∷ s) ≡ true)
      × (length (line_of name (c ∷ s)) < 1024)
      × (run_check check (c ∷ s) ≡ none))
IsPrintable env name _ cfg = ⊥

abbrev pub AllPrintable : Env → List CfEntry → ConfigData → Type 0
AllPrintable env [] cfg = Unit {0}
AllPrintable env (e ∷ es) cfg = IsPrintable env e.name e.type cfg × AllPrintable env es cfg

-- The variables once the line of a term has been read.
abbrev stored : CfType → ConfigData → Progress → Progress
stored (number plus check field) cfg g = record g {
  cfg = set_int field (get_int field cfg) g.cfg;
  erange = g.erange || false;
}
stored (text check field) cfg g = record g {
  cfg = set_text field (text_or_null (get_text field cfg)) g.cfg;
}
stored _ cfg g = g

abbrev all_stored : ℕ → List CfEntry → ConfigData → Progress → Progress
all_stored i [] cfg g = g
all_stored i (e ∷ es) cfg g =
    all_stored (suc i) es cfg (stored e.type cfg (record g { checks = mark i g.checks }))

one_line-line_of :
    (name v : Bytes) → one_line name ≡ true → one_line v ≡ true → one_line (line_of name v) ≡ true
one_line-line_of name v a b = one_line-append name (b'=' ∷ v) a (ground arith)

-- The printed number: a visible first byte, no newline, and at most 10 digits.
print_int-visible :
    (n : ℕ)
    → n < 2 ^ 31
    → (c : ℕ) × ((s : Bytes) × (print_int (pos n) ≡ c ∷ s)
        × (is_space c ≡ false)
        × (one_line (c ∷ s) ≡ true)
        × (length (c ∷ s) ≤ 10))
unfolding print_int
print_int-visible n small =
    let (c, (s, e, first)) = print_nat-digit (suc n) n [] (omega arith) in
    let few = rw e at (length-print_nat 9 (suc n) n [] (omega arith)) in
    let digits_only = rw e at (all_digits-print_nat (suc n) n [] (omega arith) refl) in
    (c, (s, e, ground arith, one_line-digits (c ∷ s) digits_only, omega (arith, few)))

module _ (env : Env) (strdup : (v : Bytes) → env.strdup v ≡ true) (table : List CfEntry)
    (cfg : ConfigData) where
  read_line_of :
      (k nline i : ℕ) (e : CfEntry) (c : ℕ) (s rest : Bytes) (g : Progress)
      → Found env table i e
      → is_space c ≡ false
      → one_line (c ∷ s) ≡ true
      → length (line_of e.name (c ∷ s)) < 1024
      → read_lines env table (suc k) nline (line_of e.name (c ∷ s) ++ (b'\n' ∷ rest)) g
        ≡ read_lines env table k
            (nline + 1)
            rest
            (read_value env nline e.type (c ∷ s) (record g { checks = mark i g.checks }))
  read_line_of k nline i e c s rest g (short, plain, found) visible one fits =
      read_lines_step env table k nline _ (line_of e.name (c ∷ s)) rest g (
        cut_line-append max_config_line (line_of e.name (c ∷ s)) rest
          (one_line-line_of e.name (c ∷ s) plain one) fits)
      ∙ ap (read_lines env table k (nline + 1) rest) (found nline c s g visible)

  -- One printed line is read for its term, and gives the term its value.
  read_term_text :
      (k nline i : ℕ) (e : CfEntry) (rest : Bytes) (g : Progress)
      → Found env table i e
      → IsPrintable env e.name e.type cfg
      → read_lines env table (suc k) nline (term_text e cfg rest) g
        ≡ read_lines env table k
            (nline + 1)
            rest
            (stored e.type cfg (record g { checks = mark i g.checks }))
  read_term_text k nline i e rest g f printable = by_type e.type refl printable
    where
      by_type :
          (type : CfType)
          → e.type ≡ type
          → IsPrintable env e.name type cfg
          → read_lines env table (suc k) nline (term_text e cfg rest) g
            ≡ read_lines env table k
                (nline + 1)
                rest
                (stored type cfg (record g { checks = mark i g.checks }))
      by_type (number false check field) t (plus, _) = ground arith
      by_type (number true check field) t (_, (n, at, small, good)) =
          let (c, (s, shown, visible, one, few)) = print_int-visible n small in
          let h = record g { checks = mark i g.checks } in
          let line : term_text e cfg rest ≡ line_of e.name (c ∷ s) ++ (b'\n' ∷ rest) =
            rw (t, at, shown) refl in
          let value : read_value env nline e.type (c ∷ s) h
              ≡ stored (number true check field) cfg h =
            rw (t, at)
              (rw shown at (read_value-number env nline n true check field h small good)) in
          ap (λ w. read_lines env table (suc k) nline w g) line
          ∙ read_line_of k nline i e c s rest g f visible one
              (omega (arith, length-append e.name (b'=' ∷ c ∷ s), f.0))
          ∙ ap (read_lines env table k (nline + 1) rest) value
      by_type (text check field) t (c, (s, at, visible, one, fits, good)) =
          let h = record g { checks = mark i g.checks } in
          let line : term_text e cfg rest ≡ line_of e.name (c ∷ s) ++ (b'\n' ∷ rest) =
            rw (t, at) refl in
          let value : read_value env nline e.type (c ∷ s) h ≡ stored (text check field) cfg h =
            rw (t, at)
              (read_value-text env nline check field c s h visible good (strdup (c ∷ s))) in
          ap (λ w. read_lines env table (suc k) nline w g) line
          ∙ read_line_of k nline i e c s rest g f visible one fits
          ∙ ap (read_lines env table k (nline + 1) rest) value
      by_type (function check) t printable = absurd printable
      by_type (other n) t printable = absurd printable

  read_lines-terms_text :
      (es : List CfEntry) (k nline i : ℕ) (g : Progress)
      → length es ≤ k
      → AllFound env table i es
      → AllPrintable env es cfg
      → read_lines env table (suc k) nline (terms_text es cfg) g
        ≡ end_of_file (all_stored i es cfg g)
  unfolding read_lines
  read_lines-terms_text [] k nline i g le f p = refl
  read_lines-terms_text (e ∷ es) zero nline i g le f p = absurd (omega arith)
  read_lines-terms_text (e ∷ es) (suc k) nline i g le (f, fs) (p, ps) =
      read_term_text (suc k) nline i e (terms_text es cfg) g f p
      ∙ read_lines-terms_text es k (nline + 1) (suc i) _ (omega arith) fs ps

-- A text that is there is what is stored when it has been printed.
still_there : {o : Option Bytes} {v : Bytes} → o ≡ some v → some (text_or_null o) ≡ o
still_there e = rw e refl

restored :
    (cfg : ConfigData)
    → some (text_or_null cfg.syslogfacility) ≡ cfg.syslogfacility
    → some (text_or_null cfg.listenip) ≡ cfg.listenip
    → some (text_or_null cfg.copyserverip) ≡ cfg.copyserverip
    → some (text_or_null cfg.helodomain) ≡ cfg.helodomain
    → record cfg {
      syslogfacility = some (text_or_null cfg.syslogfacility);
      listenip = some (text_or_null cfg.listenip);
      copyserverip = some (text_or_null cfg.copyserverip);
      helodomain = some (text_or_null cfg.helodomain);
    }
      ≡ cfg
restored cfg facility listen copy helo = λ i. record cfg {
  syslogfacility = facility i;
  listenip = listen i;
  copyserverip = copy i;
  helodomain = helo i;
}

-- Where the configuration can be printed, a readable file of what `print_config_data` prints between
-- its two rules is read without an error, and gives the same configuration.
pub read_config-terms_text :
    (env : Env) (file : Bytes) (cfg : ConfigData) (s : State)
    → AllPrintable env (cfe env) cfg
    → unreadable env s.trace file ≡ none
    → env.fopen s.trace file ≡ some (terms_text (cfe env) cfg)
    → ((v : Bytes) → env.strdup v ≡ true)
    → env.malloc s.trace Block.config_checks ≡ true
    → Ends
        (λ r t. (r.ret ≡ pos 0) × (r.cfg ≡ cfg) × (t.mem ≡ s.mem))
        (read_config env file (cfe env) cleared s)
unfolding read_file read_content finish fill_defaults
read_config-terms_text env file cfg s p readable opens strdup room =
    let content = terms_text (cfe env) cfg in
    let lines =
      read_lines-terms_text env strdup (cfe env) cfg (cfe env) (length content) 1 0
        (start env (cfe env) cleared) (omega arith) (cfe-AllFound env) p in
    rw (read_config-readable env file (cfe env) cleared s readable, read_file, opens, room)
      (rw lines (
        ends (
          refl,
          restored cfg (still_there p.0.1.1) (still_there p.1.0.1.1) (still_there p.1.1.1.1.0.1.1)
              (still_there p.1.1.1.1.1.1.1.0.1.1),
          refl,
        )))
