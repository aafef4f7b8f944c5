-- ===== src/Libdg/Reader/Meaning/Default.antt =====
-- What the pass over the table does to the fields: a term that no line named gets its default.
use madai.Base.{
  ℕ, zero, suc, ◌+◌, ◌≤◌, to_int, to_uint, Bool, true, false, Option, none, some, List, [], ◌∷◌,
  ◌≡◌, refl, sym, ap, ◌∙◌, arith, Bytes, length, Bool-cases, inl, inr, get_elem?,
}
use mathlib.Core.Option.{some-injective}
use madai.Sys.{Env}
use madai.Libdg.Text.{strtol}
use madai.Libdg.Entry.{CfType, number, text, function, other, CfEntry}
use madai.Libdg.Reader.{Diag, must_set, Progress, fail, fill_default, fill_term, fill_defaults}
use madai.Libdg.Reader.Fields.{clash, get_int-set_int, get_text-set_text}
use madai.Libdg.Reader.Terms.{ApartFrom, IsTable, IsPlain}
use madai.Libdg.Reader.Meaning.{int_value, text_value, field, value_of}
use madai.Libdg.Reader.Meaning.Value.{field-set_int, field-set_text}
use madai.Libdg.Reader.Loop.{ApartFrom-get_elem?}

-- The default is stored, or there is one error more; each error has its message.
record Defaulted (e : CfEntry) (g h : Progress) : Type 0 where
  up : g.error ≤ h.error
  few : h.error ≤ suc g.error
  told : g.error ≡ length g.diags → h.error ≡ length h.diags
  stored :
      h.error ≡ g.error
      → (d : Bytes) × ((e.default ≡ some d) × (field e.type h.cfg ≡ value_of e.type d))
  others : (t : CfType) → clash e.type t ≡ false → field t h.cfg ≡ field t g.cfg

fail-Defaulted : (e : CfEntry) (d : Diag) (g : Progress) → Defaulted e g (fail d g)
fail-Defaulted e d g = record {
  up = omega arith;
  few = omega arith;
  told = λ t. omega arith;
  stored = λ same. absurd (omega arith);
  others = λ t h. refl;
}

fill_term-Defaulted :
    (env : Env) (name : Bytes) (t : CfType) (o : Option Bytes) (g : Progress)
    → IsPlain t
    → let e : CfEntry = record { name = name; type = t; default = o } in
      Defaulted e g (fill_term env e o g)
unfolding fill_term fill_default
fill_term-Defaulted env name t none g plain = fail-Defaulted _ (must_set name) g
fill_term-Defaulted env name (number plus check f) (some d) g plain =
    let v = to_int (to_uint (strtol d).value) in
    record {
      up = omega arith;
      few = omega arith;
      told = λ t. t;
      stored = λ same. (d, (refl, ap int_value (get_int-set_int f v g.cfg)));
      others = λ t h. field-set_int plus check f v g.cfg t h;
    }
fill_term-Defaulted env name (text check f) (some d) g plain = elim (Bool-cases (env.strdup d)) [
  | inr no_room ↦ rw no_room (fail-Defaulted _ _ g)
  | inl room ↦ rw room (record {
    up = omega arith;
    few = omega arith;
    told = λ t. t;
    stored = λ same. (d, (refl, ap text_value (get_text-set_text f d g.cfg)));
    others = λ t h. field-set_text check f d g.cfg t h;
  })
]
fill_term-Defaulted env name (function c) (some d) g plain = absurd plain
fill_term-Defaulted env name (other n) (some d) g plain = absurd plain

-- The pass over the table: a term with a mark is left alone, and one without gets its default.
pub record Fills (es : List CfEntry) (bs : List Bool) (g h : Progress) : Type 0 where
  pub up : g.error ≤ h.error
  pub few : h.error ≤ g.error + length es
  pub told : g.error ≡ length g.diags → h.error ≡ length h.diags
  pub kept :
      h.error ≡ g.error
      → (j : ℕ) (e : CfEntry) → get_elem? es j ≡ some e
      → get_elem? bs j ≡ some true
      → field e.type h.cfg ≡ field e.type g.cfg
  pub filled :
      h.error ≡ g.error
      → (j : ℕ) (e : CfEntry) → get_elem? es j ≡ some e
      → get_elem? bs j ≡ some false
      → (d : Bytes) × ((e.default ≡ some d) × (field e.type h.cfg ≡ value_of e.type d))
  pub others : (x : CfEntry) → ApartFrom x es → field x.type h.cfg ≡ field x.type g.cfg

module _ (x : CfEntry) (xs : List CfEntry) (apart : ApartFrom x xs) (bs : List Bool) where
  -- A term that has its mark.
  Fills-marked : (g h : Progress) → Fills xs bs g h → Fills (x ∷ xs) (true ∷ bs) g h
  Fills-marked g h r = record {
    up = r.up;
    few = omega (arith, r.few);
    told = r.told;
    kept = marked;
    filled = unmarked;
    others = λ y away. r.others y away.2;
  }
    where
      marked :
          h.error ≡ g.error
          → (j : ℕ) (e : CfEntry) → get_elem? (x ∷ xs) j ≡ some e
          → get_elem? (true ∷ bs) j ≡ some true
          → field e.type h.cfg ≡ field e.type g.cfg
      marked same zero e at b =
          let is_x : x ≡ e = some-injective _ _ at in rw is_x at (r.others x apart)
      marked same (suc j) e at b = r.kept same j e at b

      unmarked :
          h.error ≡ g.error
          → (j : ℕ) (e : CfEntry) → get_elem? (x ∷ xs) j ≡ some e
          → get_elem? (true ∷ bs) j ≡ some false
          → (d : Bytes) × ((e.default ≡ some d) × (field e.type h.cfg ≡ value_of e.type d))
      unmarked same zero e at b = absurd (ground arith)
      unmarked same (suc j) e at b = r.filled same j e at b

  -- A term that has none.
  Fills-default :
      (g m h : Progress) → Defaulted x g m → Fills xs bs m h → Fills (x ∷ xs) (false ∷ bs) g h
  Fills-default g m h first r = record {
    up = omega (arith, first.up, r.up);
    few = omega (arith, first.few, r.few);
    told = λ t. r.told (first.told t);
    kept = marked;
    filled = unmarked;
    others = λ y away. r.others y away.2 ∙ first.others y.type away.1;
  }
    where
      marked :
          h.error ≡ g.error
          → (j : ℕ) (e : CfEntry) → get_elem? (x ∷ xs) j ≡ some e
          → get_elem? (false ∷ bs) j ≡ some true
          → field e.type h.cfg ≡ field e.type g.cfg
      marked same zero e at b = absurd (ground arith)
      marked same (suc j) e at b =
          let later : h.error ≡ m.error = omega (arith, first.up, r.up) in
          r.kept later j e at b ∙ first.others e.type (ApartFrom-get_elem? x e xs j apart at).0

      unmarked :
          h.error ≡ g.error
          → (j : ℕ) (e : CfEntry) → get_elem? (x ∷ xs) j ≡ some e
          → get_elem? (false ∷ bs) j ≡ some false
          → (d : Bytes) × ((e.default ≡ some d) × (field e.type h.cfg ≡ value_of e.type d))
      unmarked same zero e at b =
          let now : m.error ≡ g.error = omega (arith, first.up, r.up) in
          let is_x : x ≡ e = some-injective _ _ at in
          let (d, (is_default, stored)) = first.stored now in
          rw (sym is_x) (d, (is_default, r.others x apart ∙ stored))
      unmarked same (suc j) e at b =
          let later : h.error ≡ m.error = omega (arith, first.up, r.up) in r.filled later j e at b

pub fill_defaults-Fills :
    (env : Env) (es : List CfEntry) (bs : List Bool) (g : Progress)
    → IsTable es
    → length bs ≡ length es
    → Fills es bs g (fill_defaults env es bs g)
unfolding fill_defaults
fill_defaults-Fills env [] bs g table same = record {
  up = omega arith;
  few = omega arith;
  told = λ t. t;
  kept = λ e j x at. cc;
  filled = λ e j x at. cc;
  others = λ x away. refl;
}
fill_defaults-Fills env (x ∷ xs) [] g table same = absurd (omega arith)
fill_defaults-Fills env (x ∷ xs) (true ∷ bs) g table same =
    Fills-marked x xs table.1 bs g _ (fill_defaults-Fills env xs bs g table.2 (omega arith))
fill_defaults-Fills env (x ∷ xs) (false ∷ bs) g table same =
    Fills-default x xs table.1 bs g (fill_term env x x.default g) _
      (fill_term-Defaulted env x.name x.type x.default g table.0)
      (fill_defaults-Fills env xs bs _ table.2 (omega arith))
