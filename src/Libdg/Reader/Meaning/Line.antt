-- ===== src/Libdg/Reader/Meaning/Line.antt =====
-- What one line does to the fields of all terms.
use madai.Base.{
  ℕ, zero, suc, ◌+◌, ◌≤◌, Bool, true, false, none, some, List, [], ◌∷◌, ◌≡◌, refl, sym, ap, ◌∙◌,
  arith, Bytes, length, ◌==◌, if◌then◌else◌, Bool-cases, Option-cases, inl, inr, get_elem?,
}
use mathlib.Core.Option.{some-injective}
use madai.Types.{ConfigData}
use madai.Sys.{Env}
use madai.Libdg.Entry.{CfType, number, text, function, other, CfEntry}
use madai.Libdg.Reader.{
  Diag, syntax_err, Progress, fail, mark, match_key, read_value, read_term, read_line,
}
use madai.Libdg.Reader.Fields.{clash}
use madai.Libdg.Reader.Terms.{IsTable, IsPlain}
use madai.Libdg.Reader.Loop.{length-mark, ApartFrom-get_elem?}
use madai.Libdg.Reader.Meaning.{
  field, Given, absent, blank, given, is_named, then_given, first_match, for_term, line_gives,
  so_far,
}
use madai.Libdg.Reader.Meaning.Value.{Stores, read_value-Stores}

-- What the lines so far say of the term at each index of the table.
abbrev pub Said : Type 0
Said = ℕ → CfType → Given

-- With no error so far each term is marked that was named, and its field is as the lines say; each
-- error has its message, and there are `bound` errors at most.
pub record Meets (es : List CfEntry) (before : ConfigData) (said : Said) (bound : ℕ) (g : Progress)
    : Type 0 where
  pub told : g.error ≡ length g.diags
  pub few : g.error ≤ bound
  pub same_length : length g.checks ≡ length es
  pub marked :
      (j : ℕ) (e : CfEntry)
      → get_elem? es j ≡ some e
      → get_elem? g.checks j ≡ some (is_named (said j e.type))
  pub fields :
      g.error ≡ 0
      → (j : ℕ) (e : CfEntry) → get_elem? es j ≡ some e
      → field e.type g.cfg ≡ so_far e.type (said j e.type) before

-- Terms at different indexes have different fields.
IsTable-clash :
    (es : List CfEntry) (i j : ℕ) (a b : CfEntry)
    → IsTable es
    → get_elem? es i ≡ some a
    → get_elem? es j ≡ some b
    → (j == i) ≡ false
    → clash a.type b.type ≡ false
IsTable-clash [] i j a b table at_i at_j apart = cc
IsTable-clash (x ∷ xs) zero zero a b table at_i at_j apart = absurd (ground arith)
IsTable-clash (x ∷ xs) zero (suc j) a b table at_i at_j apart =
    let same : x ≡ a = some-injective _ _ at_i in
    rw (sym same) (ApartFrom-get_elem? x b xs j table.1 at_j).0
IsTable-clash (x ∷ xs) (suc i) zero a b table at_i at_j apart =
    let same : x ≡ b = some-injective _ _ at_j in
    rw (sym same) (ApartFrom-get_elem? x a xs i table.1 at_i).1
IsTable-clash (x ∷ xs) (suc i) (suc j) a b table at_i at_j apart =
    IsTable-clash xs i j a b table.2 at_i at_j (ground arith)

IsTable-IsPlain :
    (es : List CfEntry) (i : ℕ) (a : CfEntry)
    → IsTable es
    → get_elem? es i ≡ some a
    → IsPlain a.type
IsTable-IsPlain [] i a table at = cc
IsTable-IsPlain (x ∷ xs) zero a table at =
    let same : x ≡ a = some-injective _ _ at in rw (sym same) table.0
IsTable-IsPlain (x ∷ xs) (suc i) a table at = IsTable-IsPlain xs i a table.2 at

get_elem?-mark :
    (i j : ℕ) (bs : List Bool) (b : Bool)
    → get_elem? bs j ≡ some b
    → get_elem? (mark i bs) j ≡ (if j == i then some true else some b)
get_elem?-mark i j [] b at = cc
get_elem?-mark zero zero (x ∷ bs) b at = refl
get_elem?-mark zero (suc j) (x ∷ bs) b at = ground (arith, at)
get_elem?-mark (suc i) zero (x ∷ bs) b at = ground (arith, at)
get_elem?-mark (suc i) (suc j) (x ∷ bs) b at = ground (arith, get_elem?-mark i j bs b at)

is_named-then_given : (t : CfType) (str : Bytes) (x : Given) → is_named (then_given t str x) ≡ true
is_named-then_given (number plus check f) str x = refl
is_named-then_given (text check f) str absent = ground arith
is_named-then_given (text check f) str blank = ground arith
is_named-then_given (text check f) str (given v) = ground arith
is_named-then_given (function check) str x = refl
is_named-then_given (other n) str x = refl

-- The loop over the terms reads the line for its first match.
read_term-none :
    (env : Env) (nline i : ℕ) (es : List CfEntry) (line : Bytes) (g : Progress)
    → first_match i es line ≡ none
    → read_term env nline i es line g ≡ fail (syntax_err nline) g
unfolding read_term
read_term-none env nline i [] line g m = refl
read_term-none env nline i (e ∷ es) line g m = elim (Option-cases (match_key e.name line)) [
  | inr (str, hit) ↦ absurd (let one = rw (hit, first_match) at m in cc)
  | inl miss ↦
      rw (miss, read_term)
        (read_term-none env nline (suc i) es line g (rw (miss, first_match) at m))
]

read_term-some :
    (env : Env) (nline i : ℕ) (es : List CfEntry) (line : Bytes) (g : Progress) (j : ℕ)
    (str : Bytes)
    → first_match i es line ≡ some (j, str)
    → (k : ℕ) × ((e : CfEntry) × ((j ≡ i + k)
          × ((get_elem? es k ≡ some e)
              × (read_term env nline i es line g
                  ≡ read_value env nline e.type str (record g { checks = mark j g.checks })))))
unfolding read_term
read_term-some env nline i [] line g j str m = cc
read_term-some env nline i (e ∷ es) line g j str m = elim (Option-cases (match_key e.name line)) [
  | inr (s, hit) ↦
      let at_zero : i ≡ i + 0 = omega arith in
      let one : some (i, s) ≡ some (j, str) = rw (hit, first_match) at m in
      let here : (i, s) ≡ (j, str) = some-injective _ _ one in
      let at_i : i ≡ j = ap (λ p. p.0) here in
      let same : s ≡ str = ap (λ p. p.1) here in
      (0, (e, (sym at_i ∙ at_zero, (refl, rw (hit, read_term, at_i, same) refl))))
  | inl miss ↦
      let (k, (d, (at, (there, reads)))) =
        read_term-some env nline (suc i) es line g j str (rw (miss, first_match) at m) in
      (suc k, (d, (omega arith, (there, rw (miss, read_term) reads))))
]

module _ (es : List CfEntry) (table : IsTable es) (before : ConfigData) where
  pub Meets-mono :
      (said : Said) (a b : ℕ) (g : Progress)
      → a ≤ b
      → Meets es before said a g
      → Meets es before said b g
  Meets-mono said a b g le m = record {
    told = m.told;
    few = omega (arith, m.few);
    same_length = m.same_length;
    marked = m.marked;
    fields = m.fields;
  }

  -- An error says nothing of a term.
  fail-Meets :
      (said : Said) (bound : ℕ) (d : Diag) (g : Progress)
      → Meets es before said bound g
      → Meets es before said (suc bound) (fail d g)
  fail-Meets said bound d g m = record {
    told = omega (arith, m.told);
    few = omega (arith, m.few);
    same_length = m.same_length;
    marked = m.marked;
    fields = λ e. absurd (omega arith);
  }

  -- A value for the term at index `i`.
  Stores-Meets :
      (said : Said) (bound i : ℕ) (e : CfEntry) (str : Bytes) (g h : Progress)
      → get_elem? es i ≡ some e
      → Stores e.type str (record g { checks = mark i g.checks }) h
      → Meets es before said bound g
      → Meets es before (λ j t. for_term j t (some (i, str)) (said j t)) (suc bound) h
  Stores-Meets said bound i e str g h at st m = record {
    told = st.told m.told;
    few = omega (arith, st.few, m.few);
    same_length = rw st.same_checks (length-mark i g.checks ∙ m.same_length);
    marked = λ j d there. elim (Bool-cases (j == i)) [
      | inl this ↦
          let now : get_elem? (mark i g.checks) j ≡ some true =
            rw this at (get_elem?-mark i j g.checks _ (m.marked j d there)) in
          rw this (rw (st.same_checks, is_named-then_given d.type str (said j d.type)) now)
      | inr apart ↦
          rw (apart, st.same_checks)
            (rw apart at (get_elem?-mark i j g.checks _ (m.marked j d there)))
    ];
    fields = λ none_yet j d there.
        let still : h.error ≡ g.error = omega (arith, st.up) in
        let first : g.error ≡ 0 = omega (arith, st.up) in
        elim (Bool-cases (j == i)) [
          | inl this ↦
              let at_i : j ≡ i = ground arith in
              let same : e ≡ d = some-injective _ _ (sym at ∙ (rw at_i at there)) in
              let own : Stores d.type str (record g { checks = mark i g.checks }) h =
                rw same at st in
              rw this (own.stored (said j d.type) before still (m.fields first j d there))
          | inr apart ↦ rw apart (
              st.others d.type (IsTable-clash es i j e d table at there apart)
              ∙ m.fields first j d there)
        ];
  }

  pub read_line-Meets :
      (env : Env) (nline : ℕ) (said : Said) (bound : ℕ) (line : Bytes) (g : Progress)
      → Meets es before said bound g
      → Meets es before
          (λ j t. line_gives es j t line (said j t))
          (suc bound)
          (read_line env es nline line g)
  unfolding read_line
  read_line-Meets env nline said bound [] g m = Meets-mono said bound (suc bound) g (omega arith) m
  read_line-Meets env nline said bound (c ∷ line) g m = elim (Bool-cases (c == b'#')) [
    | inl comment ↦ rw comment (Meets-mono said bound (suc bound) g (omega arith) m)
    | inr term ↦ elim (Option-cases (first_match 0 es (c ∷ line))) [
      | inl unlike ↦
          rw (term, unlike, read_term-none env nline 0 es (c ∷ line) g unlike)
            (fail-Meets said bound (syntax_err nline) g m)
      | inr ((i, str), hit) ↦
          let (k, (e, (at_k, (at, reads)))) =
            read_term-some env nline 0 es (c ∷ line) g i str hit in
          let same : i ≡ k = omega arith in
          let at_i : get_elem? es i ≡ some e = rw same at in
          let marked = record g { checks = mark i g.checks } in
          rw (term, hit, reads)
            (Stores-Meets said bound i e str g (read_value env nline e.type str marked) at_i
              (read_value-Stores env nline e.type str marked (IsTable-IsPlain es i e table at_i)) m)
    ]
  ]
