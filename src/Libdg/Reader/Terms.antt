-- ===== src/Libdg/Reader/Terms.antt =====
-- One line of the file, and the term that it sets.
use madai.Base.{
  ℕ, suc, ◌+◌, ℤ, to_int, to_uint, Bool, true, false, not, ◌&&◌, Option, none, some, List, [], ◌∷◌,
  ◌≡◌, refl, arith, Bytes, ◌==◌, Bool-cases, Option-cases, inl, inr, ◌⊎◌, ltb,
}
use madai.Types.{ConfigData}
use madai.Sys.{Env}
use madai.Libdg.Text.{Number, all_space, skip_blank, strtol, strip_nocase, is_space}
use madai.Libdg.Checks.{ConfErr}
use madai.Libdg.Entry.{
  IntField, TextField, CfType, number, text, function, other, CfEntry, get_text,
}
use madai.Libdg.Reader.{
  Diag, syntax_err, Progress, fail, run_check, mark, store_number, read_value, read_text, read_term,
  match_key, behind_equals, all_blank, note_range, uint_max,
}
use native.Mathlib.Nat.{add-zero}
use madai.Base.{get_elem?}
use madai.Libdg.Reader.Fields.{
  clash, TextOk, TermOk, TermState, get_int-set_int, get_text-set_text, TermState-set_int,
  TermState-set_text,
}

-- How reading a value for a term of type `ty` changes what has been read.
pub record Reads (ty : CfType) (g h : Progress) : Type 0 where
  -- an error is counted once and is never forgotten
  pub counted : (h.error ≡ g.error) ⊎ (h.error ≡ g.error + 1)
  pub same_checks : h.checks ≡ g.checks
  -- with no new error the term is good, and the others are as they were
  pub good : (b : Bool) → h.error ≡ g.error → TermState ty b g.cfg → TermOk ty h.cfg
  pub others :
      (t : CfType) (b : Bool) → clash ty t ≡ false → TermState t b g.cfg → TermState t b h.cfg

abbrev pub IsPlain : CfType → Type 0
IsPlain (number _ _ _) = Unit {0}
IsPlain (text _ _) = Unit {0}
IsPlain (function _) = ⊥
IsPlain (other _) = ⊥

fail-Reads : (ty : CfType) (d : Diag) (g : Progress) → Reads ty g (fail d g)
fail-Reads ty d g = record {
  counted = inr refl;
  same_checks = refl;
  good = λ b e. absurd (omega arith);
  others = λ t b h ok. ok;
}

TextOk-empty :
    (check : Option (Bytes → Option ConfErr)) (f : TextField) (cfg : ConfigData) (b : Bool)
    → TermState (text check f) b cfg
    → run_check check [] ≡ none
    → TextOk check (get_text f cfg)
TextOk-empty check f cfg true st ok = st
TextOk-empty check f cfg false st ok = rw st ok

store_number-Reads :
    (nline : ℕ) (plus : Bool) (check : Option (ℤ → Option ConfErr)) (f : IntField) (n : Number)
    (g : Progress)
    → Reads (number plus check f) g (store_number nline plus check f n g)
unfolding store_number
store_number-Reads nline plus check f n g =
    let ty = number plus check f in
    let value = to_uint n.value in
    elim (Bool-cases (not (all_blank (skip_blank n.rest)))) [
      | inl bad ↦ rw bad (fail-Reads ty _ g)
      | inr ok1 ↦ elim (Bool-cases (value == uint_max && g.erange)) [
        | inl bad ↦ rw (ok1, bad) (fail-Reads ty _ g)
        | inr ok2 ↦ elim (Bool-cases (plus && ltb uint_max value)) [
          | inl bad ↦ rw (ok1, ok2, bad) (fail-Reads ty _ g)
          | inr ok3 ↦ elim (Option-cases (run_check check (to_int value))) [
            | inr (e, bad) ↦ rw (ok1, ok2, ok3, bad) (fail-Reads ty _ g)
            | inl good ↦
                rw (ok1, ok2, ok3, good)
                  (record {
                    counted = inl refl;
                    same_checks = refl;
                    good = λ b e st. rw (get_int-set_int f (to_int value) g.cfg) good;
                    others =
                        λ t b h st. TermState-set_int plus check f (to_int value) g.cfg t b h st;
                  })
          ]
        ]
      ]
    ]

read_text-Reads :
    (env : Env) (nline : ℕ) (check : Option (Bytes → Option ConfErr)) (f : TextField) (str : Bytes)
    (g : Progress)
    → (all_space str ≡ true → str ≡ [])
    → Reads (text check f) g (read_text env nline check f str g)
unfolding read_text
read_text-Reads env nline check f str g blank =
    let ty = text check f in
    elim (Option-cases (run_check check str)) [
      | inr (e, bad) ↦ rw (bad, read_text) (fail-Reads ty _ g)
      | inl good ↦ elim (Bool-cases (all_space str)) [
        | inl space ↦
            rw (good, read_text, space)
              (record {
                counted = inl refl;
                same_checks = refl;
                good = λ b e st. TextOk-empty check f g.cfg b st (rw (blank space) at good);
                others = λ t b h st. st;
              })
        | inr full ↦ elim (Bool-cases (env.strdup str)) [
          | inr no_room ↦ rw (good, read_text, full, no_room) (fail-Reads ty _ g)
          | inl room ↦
              rw (good, read_text, full, room)
                (record {
                  counted = inl refl;
                  same_checks = refl;
                  good = λ b e st. rw (get_text-set_text f str g.cfg) good;
                  others = λ t b h st. TermState-set_text check f str g.cfg t b h st;
                })
        ]
      ]
    ]

read_value-Reads :
    (env : Env) (nline : ℕ) (ty : CfType) (str : Bytes) (g : Progress)
    → IsPlain ty
    → (all_space str ≡ true → str ≡ [])
    → Reads ty g (read_value env nline ty str g)
unfolding read_value
read_value-Reads env nline (number plus check f) str g plain blank =
    let r =
      store_number-Reads nline plus check f (strtol str) (note_range (strtol str).out_of_range g) in
    record { counted = r.counted; same_checks = r.same_checks; good = r.good; others = r.others }
read_value-Reads env nline (text check f) str g plain blank =
    read_text-Reads env nline check f str g blank
read_value-Reads env nline (function c) str g plain blank = absurd plain
read_value-Reads env nline (other n) str g plain blank = absurd plain

behind_equals-not_space :
    (rest : Bytes) (d : ℕ) (s : Bytes) → behind_equals rest ≡ some (d ∷ s) → is_space d ≡ false
unfolding behind_equals
behind_equals-not_space [] d s e = cc
behind_equals-not_space (c ∷ []) d s e = ground arith
behind_equals-not_space (c ∷ x ∷ r) d s e = ground arith

-- What stands behind the equals sign does not begin with white space.
match_key_blank :
    (name line str : Bytes) → match_key name line ≡ some str → all_space str ≡ true → str ≡ []
unfolding match_key all_space
match_key_blank name line [] e space = refl
match_key_blank name line (d ∷ s) e space = elim (Option-cases (strip_nocase name line)) [
  | inl none_there ↦ ground arith
  | inr (rest, there) ↦ ground (arith, behind_equals-not_space rest d s)
]

-- The terms of a table, with their flags.
abbrev pub TermsOk : List CfEntry → List Bool → ConfigData → Type 0
TermsOk [] [] cfg = Unit {0}
TermsOk (e ∷ es) (b ∷ bs) cfg = TermState e.type b cfg × TermsOk es bs cfg
TermsOk _ _ cfg = ⊥

abbrev pub ApartFrom : CfEntry → List CfEntry → Type 0
ApartFrom e [] = Unit {0}
ApartFrom e (d ∷ ds) =
    (clash e.type d.type ≡ false) × (clash d.type e.type ≡ false) × ApartFrom e ds

-- Plain terms, each with a field of its own.
abbrev pub IsTable : List CfEntry → Type 0
IsTable [] = Unit {0}
IsTable (e ∷ es) = IsPlain e.type × ApartFrom e es × IsTable es

-- The line was read for the term at some index of the table, or counted as an error.
pub data LineRead (es : List CfEntry) (i : ℕ) (g h : Progress) : Type 0 where
  bad_line : (d : Diag) → h ≡ fail d g → LineRead es i g h
  term_line :
      (j : ℕ) (e : CfEntry)
      → get_elem? es j ≡ some e
      → Reads e.type (record g { checks = mark (i + j) g.checks }) h
      → LineRead es i g h

pub read_term-LineRead :
    (env : Env) (nline i : ℕ) (es : List CfEntry) (line : Bytes) (g : Progress)
    → IsTable es
    → LineRead es i g (read_term env nline i es line g)
unfolding read_term
read_term-LineRead env nline i [] line g table = bad_line (syntax_err nline) refl
read_term-LineRead env nline i (e ∷ es) line g table = elim (Option-cases (match_key e.name line)) [
  | inr (str, m) ↦
      rw (m, read_term)
        (term_line 0 e refl (
          rw add-zero (
            read_value-Reads env nline e.type str (record g { checks = mark i g.checks }) table.0
              (match_key_blank e.name line str m))))
  | inl miss ↦ rw (miss, read_term) (later (read_term-LineRead env nline (suc i) es line g table.2))
]
  where
    shift : (j : ℕ) → i + suc j ≡ suc i + j
    shift j = omega arith

    later : {h : Progress} → LineRead es (suc i) g h → LineRead (e ∷ es) i g h
    later (bad_line d x) = bad_line d x
    later (term_line j d at r) = term_line (suc j) d at (rw (shift j) r)
