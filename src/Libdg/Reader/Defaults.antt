-- ===== src/Libdg/Reader/Defaults.antt =====
-- The terms that the file did not set: each gets its default, or is an error.
use madai.Base.{
  ◌+◌, ◌≤◌, to_int, to_uint, Bool, true, false, Option, none, some, List, [], ◌∷◌, ◌≡◌, arith,
  Bytes, length, Bool-cases, inl, inr,
}
use madai.Types.{ConfigData}
use madai.Sys.{Env}
use madai.Libdg.Text.{strtol}
use madai.Libdg.Entry.{CfType, number, text, function, other, CfEntry}
use madai.Libdg.Reader.{
  Diag, must_set, Progress, fail, run_check, fill_default, fill_term, fill_defaults,
}
use madai.Libdg.Reader.Fields.{
  clash, TermOk, TermState, get_int-set_int, get_text-set_text, TermState-set_int,
  TermState-set_text,
}
use madai.Libdg.Reader.Loop.{TermsOk-apart}
use madai.Libdg.Reader.Terms.{IsPlain, TermsOk, ApartFrom, IsTable}

-- The check of a term accepts its default.
abbrev pub DefaultOk : CfType → Option Bytes → Type 0
DefaultOk t none = Unit {0}
DefaultOk (number _ check _) (some d) = run_check check (to_int (to_uint (strtol d).value)) ≡ none
DefaultOk (text check _) (some d) = run_check check d ≡ none
DefaultOk _ (some d) = ⊥

abbrev pub DefaultsOk : List CfEntry → Type 0
DefaultsOk [] = Unit {0}
DefaultsOk (e ∷ es) = DefaultOk e.type e.default × DefaultsOk es

abbrev pub AllOk : List CfEntry → ConfigData → Type 0
AllOk [] cfg = Unit {0}
AllOk (e ∷ es) cfg = TermOk e.type cfg × AllOk es cfg

record Fills (ty : CfType) (g h : Progress) : Type 0 where
  up : g.error ≤ h.error
  few : h.error ≤ g.error + 1
  good : h.error ≡ g.error → TermOk ty h.cfg
  others : (t : CfType) (b : Bool) → clash ty t ≡ false → TermState t b g.cfg → TermState t b h.cfg

fail-Fills : (ty : CfType) (d : Diag) (g : Progress) → Fills ty g (fail d g)
fail-Fills ty d g = record {
  up = omega arith;
  few = omega arith;
  good = λ e. absurd (omega arith);
  others = λ t b h ok. ok;
}

fill_default-Fills :
    (env : Env) (ty : CfType) (d : Bytes) (g : Progress)
    → IsPlain ty
    → DefaultOk ty (some d)
    → Fills ty g (fill_default env ty d g)
unfolding fill_default
fill_default-Fills env (number plus check f) d g plain ok =
    let v = to_int (to_uint (strtol d).value) in
    record {
      up = omega arith;
      few = omega arith;
      good = λ e. rw (get_int-set_int f v g.cfg) ok;
      others = λ t b h st. TermState-set_int plus check f v g.cfg t b h st;
    }
fill_default-Fills env (text check f) d g plain ok = elim (Bool-cases (env.strdup d)) [
  | inr no_room ↦ rw no_room (fail-Fills (text check f) _ g)
  | inl room ↦ rw room (record {
    up = omega arith;
    few = omega arith;
    good = λ e. rw (get_text-set_text f d g.cfg) ok;
    others = λ t b h st. TermState-set_text check f d g.cfg t b h st;
  })
]
fill_default-Fills env (function c) d g plain ok = absurd plain
fill_default-Fills env (other n) d g plain ok = absurd plain

fill_term-Fills :
    (env : Env) (e : CfEntry) (o : Option Bytes) (g : Progress)
    → IsPlain e.type
    → DefaultOk e.type o
    → Fills e.type g (fill_term env e o g)
unfolding fill_term
fill_term-Fills env e none g plain ok = fail-Fills e.type (must_set e.name) g
fill_term-Fills env e (some d) g plain ok = fill_default-Fills env e.type d g plain ok

-- The pass over the table.
pub record Filled (es : List CfEntry) (g h : Progress) : Type 0 where
  pub up : g.error ≤ h.error
  pub few : h.error ≤ g.error + length es
  pub good : h.error ≡ 0 → AllOk es h.cfg
  pub others :
      (e : CfEntry) (b : Bool)
      → ApartFrom e es
      → TermState e.type b g.cfg
      → TermState e.type b h.cfg

pub fill_defaults-Filled :
    (env : Env) (es : List CfEntry) (bs : List Bool) (g : Progress)
    → IsTable es
    → DefaultsOk es
    → (g.error ≡ 0 → TermsOk es bs g.cfg)
    → length bs ≡ length es
    → Filled es g (fill_defaults env es bs g)
unfolding fill_defaults
fill_defaults-Filled env [] bs g table ok terms same = record {
  up = omega arith;
  few = omega arith;
  good = λ e. tt;
  others = λ e b apart st. st;
}
fill_defaults-Filled env (x ∷ xs) [] g table ok terms same = absurd (omega arith)
fill_defaults-Filled env (x ∷ xs) (true ∷ bs) g table ok terms same =
    let rest = fill_defaults-Filled env xs bs g table.2 ok.1 (λ e. (terms e).1) (omega arith) in
    record {
      up = rest.up;
      few = omega (arith, rest.few);
      good = λ e.
          let none_before : g.error ≡ 0 = omega (arith, rest.up) in
          (rest.others x true table.1 (terms none_before).0, rest.good e);
      others = λ e b apart st. rest.others e b apart.2 st;
    }
fill_defaults-Filled env (x ∷ xs) (false ∷ bs) g table ok terms same =
    let h = fill_term env x x.default g in
    let first = fill_term-Fills env x x.default g table.0 ok.0 in
    let rest =
      fill_defaults-Filled env xs bs h table.2 ok.1
        (λ e.
          TermsOk-apart x g.cfg h.cfg first.others xs bs table.1
            (terms (omega (arith, first.up))).1)
        (omega arith) in
    record {
      up = omega (arith, first.up, rest.up);
      few = omega (arith, first.few, rest.few);
      good = λ e.
          let still : h.error ≡ g.error = omega (arith, first.up, rest.up) in
          (rest.others x true table.1 (first.good still), rest.good e);
      others = λ e b apart st. rest.others e b apart.2 (first.others e.type b apart.1 st);
    }
