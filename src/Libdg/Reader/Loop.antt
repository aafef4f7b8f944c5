-- ===== src/Libdg/Reader/Loop.antt =====
-- The whole file: the loop over the lines, and the terms that it has set.
use native.Mathlib.Nat.{zero-add}
use mathlib.Core.Option.{some-injective}
use madai.Base.{
  ℕ, zero, suc, ◌+◌, ◌≤◌, ◌<◌, Bool, false, some, List, [], ◌∷◌, ◌≡◌, refl, sym, ◌∙◌, arith, Bytes,
  length, ◌==◌, Bool-cases, Option-cases, inl, inr, get_elem?,
}
use madai.Types.{ConfigData}
use madai.Sys.{Env}
use madai.Libdg.Entry.{CfType, CfEntry}
use madai.Libdg.Reader.{
  Progress, LoopEnd, end_of_file, too_long, mark, read_line, read_lines, cut_line, max_config_line,
  unchecked, start,
}
use madai.Libdg.Reader.Fields.{clash, TermOk, TermState}
use madai.Libdg.Reader.Terms.{
  TermsOk, ApartFrom, IsTable, LineRead, bad_line, term_line, read_term-LineRead,
}

module _ (e : CfEntry) (cfg cfg' : ConfigData)
    (others : (t : CfType) (b : Bool)
      → clash e.type t ≡ false
      → TermState t b cfg
      → TermState t b cfg') where
  pub TermsOk-apart :
      (es : List CfEntry) (bs : List Bool) → ApartFrom e es → TermsOk es bs cfg → TermsOk es bs cfg'
  TermsOk-apart [] [] apart ok = tt
  TermsOk-apart [] (b ∷ bs) apart ok = ok
  TermsOk-apart (d ∷ ds) [] apart ok = ok
  TermsOk-apart (d ∷ ds) (b ∷ bs) apart ok =
      (others d.type b apart.0 ok.0, TermsOk-apart ds bs apart.2 ok.1)

pub ApartFrom-get_elem? :
    (x e : CfEntry) (xs : List CfEntry) (j : ℕ)
    → ApartFrom x xs
    → get_elem? xs j ≡ some e
    → (clash x.type e.type ≡ false) × (clash e.type x.type ≡ false)
ApartFrom-get_elem? x e [] j apart at = cc
ApartFrom-get_elem? x e (d ∷ ds) zero apart at =
    let same : d ≡ e = some-injective _ _ at in rw (sym same) (apart.0, apart.1)
ApartFrom-get_elem? x e (d ∷ ds) (suc j) apart at = ApartFrom-get_elem? x e ds j apart.2 at

-- Setting the term at index `j`.
TermsOk-mark :
    (es : List CfEntry) (bs : List Bool) (j : ℕ) (e : CfEntry) (cfg cfg' : ConfigData)
    → IsTable es
    → get_elem? es j ≡ some e
    → ((b : Bool) → TermState e.type b cfg → TermOk e.type cfg')
    → ((t : CfType) (b : Bool) → clash e.type t ≡ false → TermState t b cfg → TermState t b cfg')
    → TermsOk es bs cfg
    → TermsOk es (mark j bs) cfg'
TermsOk-mark [] bs j e cfg cfg' table at good others ok = cc
TermsOk-mark (x ∷ xs) [] j e cfg cfg' table at good others ok = absurd ok
TermsOk-mark (x ∷ xs) (b ∷ bs) zero e cfg cfg' table at good others ok =
    let same : x ≡ e = some-injective _ _ at in
    (
      rw same (good b (rw (sym same) ok.0)),
      TermsOk-apart e cfg cfg' others xs bs (rw (sym same) table.1) ok.1,
    )
TermsOk-mark (x ∷ xs) (b ∷ bs) (suc j) e cfg cfg' table at good others ok = (
  others x.type b (ApartFrom-get_elem? x e xs j table.1 at).1 ok.0,
  TermsOk-mark xs bs j e cfg cfg' table.2 at good others ok.1,
)

pub length-mark : (j : ℕ) (bs : List Bool) → length (mark j bs) ≡ length bs
length-mark j [] = refl
length-mark zero (b ∷ bs) = refl
length-mark (suc j) (b ∷ bs) = omega (arith, length-mark j bs)

pub length-unchecked : (es : List CfEntry) → length (unchecked es) ≡ length es
length-unchecked [] = refl
length-unchecked (e ∷ es) = omega (arith, length-unchecked es)

-- With no error so far, every term that was set is good; and no more errors than lines.
pub record FileRead (es : List CfEntry) (bound : ℕ) (g : Progress) : Type 0 where
  pub terms : g.error ≡ 0 → TermsOk es g.checks g.cfg
  pub few : g.error ≤ bound
  pub same_length : length g.checks ≡ length es

LineRead-FileRead :
    (es : List CfEntry) (g h : Progress) (bound : ℕ)
    → IsTable es
    → LineRead es 0 g h
    → FileRead es bound g
    → FileRead es (suc bound) h
LineRead-FileRead es g h bound table (bad_line d x) f = record {
  terms = λ e. absurd (ground arith);
  few = ground arith;
  same_length = ground (arith, f.same_length);
}
LineRead-FileRead es g h bound table (term_line j e at r) f = record {
  terms = λ no_error.
      let before : g.error ≡ 0 = omega (arith, r.counted, f.few) in
      let same : h.error ≡ g.error = no_error ∙ sym before in
      rw (r.same_checks, zero-add)
        (TermsOk-mark es g.checks j e g.cfg h.cfg table at (λ b st. r.good b same st) r.others
          (f.terms before));
  few = omega (arith, r.counted, f.few);
  same_length = rw (r.same_checks, zero-add) (length-mark j g.checks ∙ f.same_length);
}

FileRead-mono :
    (es : List CfEntry) (g : Progress) (a b : ℕ) → a ≤ b → FileRead es a g → FileRead es b g
FileRead-mono es g a b le f = record {
  terms = f.terms;
  few = omega (arith, f.few);
  same_length = f.same_length;
}

read_line-FileRead :
    (env : Env) (es : List CfEntry) (nline : ℕ) (line : Bytes) (g : Progress) (bound : ℕ)
    → IsTable es
    → FileRead es bound g
    → FileRead es (suc bound) (read_line env es nline line g)
unfolding read_line
read_line-FileRead env es nline [] g bound table f =
    FileRead-mono es g bound (suc bound) (omega arith) f
read_line-FileRead env es nline (c ∷ line) g bound table f = elim (Bool-cases (c == b'#')) [
  | inl comment ↦ rw comment (FileRead-mono es g bound (suc bound) (omega arith) f)
  | inr term ↦ rw term (
      LineRead-FileRead es g _ bound table (read_term-LineRead env nline 0 es (c ∷ line) g table) f)
]

-- A line takes at least its newline.
cut_line-lt : (k : ℕ) (s a b : Bytes) → cut_line k s ≡ some (a, b) → length b < length s
unfolding cut_line
cut_line-lt zero s a b e = cc
cut_line-lt (suc k) [] a b e = cc
cut_line-lt (suc k) (c ∷ s) a b e = elim (Option-cases (cut_line k s)) [
  | inl last ↦ ground arith
  | inr ((a', b'), m) ↦ ground (arith, cut_line-lt k s a' b')
]

-- How the loop may end: at the end of the file, or at a line that is too long.
pub data Kept (es : List CfEntry) (bound : ℕ) : LoopEnd → Type 0 where
  at_end : {g : Progress} → FileRead es bound g → Kept es bound (end_of_file g)
  at_long : {g : Progress} → Kept es bound (too_long g)

pub read_lines-Kept :
    (env : Env) (es : List CfEntry) (k nline : ℕ) (content : Bytes) (g : Progress) (bound total : ℕ)
    → IsTable es
    → length content < k
    → bound + length content ≤ total
    → FileRead es bound g
    → Kept es total (read_lines env es k nline content g)
unfolding read_lines
read_lines-Kept env es zero nline content g bound total table fuel le f = absurd (omega arith)
read_lines-Kept env es (suc k) nline [] g bound total table fuel le f =
    at_end (FileRead-mono es g bound total (omega arith) f)
read_lines-Kept env es (suc k) nline (c ∷ content) g bound total table fuel le f =
    elim (Option-cases (cut_line max_config_line (c ∷ content))) [
      | inl none_left ↦ rw (none_left, read_lines) at_long
      | inr ((line, rest), cut) ↦
          let shorter = cut_line-lt max_config_line (c ∷ content) line rest cut in
          rw (cut, read_lines)
            (read_lines-Kept env es k (nline + 1) rest _ (suc bound) total table (omega arith)
              (omega arith) (read_line-FileRead env es nline line g bound table f))
    ]

pub start-FileRead :
    (env : Env) (es : List CfEntry) (cfg : ConfigData)
    → TermsOk es (unchecked es) cfg
    → FileRead es 0 (start env es cfg)
start-FileRead env es cfg ok = record {
  terms = λ e. ok;
  few = omega arith;
  same_length = length-unchecked es;
}
