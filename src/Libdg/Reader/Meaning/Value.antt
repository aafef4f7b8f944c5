-- ===== src/Libdg/Reader/Meaning/Value.antt =====
-- What one value does to the fields.
use madai.Base.{
  ℕ, suc, ◌≤◌, ℤ, to_int, to_uint, Bool, true, false, not, ◌&&◌, Option, ◌≡◌, refl, ap, arith,
  Bytes, length, ◌==◌, Bool-cases, Option-cases, inl, inr, ltb,
}
use madai.Types.{ConfigData}
use madai.Sys.{Env}
use madai.Libdg.Text.{all_space, skip_blank, strtol}
use madai.Libdg.Checks.{ConfErr}
use madai.Libdg.Entry.{
  IntField, TextField, CfType, number, text, function, other, set_int, set_text,
}
use madai.Libdg.Reader.{
  Diag, Progress, fail, run_check, store_number, read_value, read_text, all_blank, note_range,
  uint_max,
}
use madai.Libdg.Reader.Fields.{
  clash, get_int-set_int, get_text-set_text, get_int-set_int_ne, get_text-set_text_ne,
  get_text-set_int, get_int-set_text,
}
use madai.Libdg.Reader.Terms.{IsPlain}
use madai.Libdg.Reader.Meaning.{
  int_value, text_value, field, Given, absent, blank, given, then_given, so_far,
}

pub field-set_int :
    (plus : Bool) (check : Option (ℤ → Option ConfErr)) (f : IntField) (v : ℤ) (cfg : ConfigData)
    (t : CfType)
    → clash (number plus check f) t ≡ false
    → field t (set_int f v cfg) ≡ field t cfg
field-set_int plus check f v cfg (number p c g) h = ap int_value (get_int-set_int_ne f g v cfg h)
field-set_int plus check f v cfg (text c g) h = ap text_value (get_text-set_int f g v cfg)
field-set_int plus check f v cfg (function c) h = refl
field-set_int plus check f v cfg (other n) h = refl

pub field-set_text :
    (check : Option (Bytes → Option ConfErr)) (f : TextField) (v : Bytes) (cfg : ConfigData)
    (t : CfType)
    → clash (text check f) t ≡ false
    → field t (set_text f v cfg) ≡ field t cfg
field-set_text check f v cfg (number p c g) h = ap int_value (get_int-set_text f g v cfg)
field-set_text check f v cfg (text c g) h = ap text_value (get_text-set_text_ne f g v cfg h)
field-set_text check f v cfg (function c) h = refl
field-set_text check f v cfg (other n) h = refl

-- The value is stored, or there is one error more; each error has its message.
pub record Stores (ty : CfType) (str : Bytes) (g h : Progress) : Type 0 where
  pub up : g.error ≤ h.error
  pub few : h.error ≤ suc g.error
  pub same_checks : h.checks ≡ g.checks
  pub told : g.error ≡ length g.diags → h.error ≡ length h.diags
  pub stored :
      (x : Given) (before : ConfigData)
      → h.error ≡ g.error
      → field ty g.cfg ≡ so_far ty x before
      → field ty h.cfg ≡ so_far ty (then_given ty str x) before
  pub others : (t : CfType) → clash ty t ≡ false → field t h.cfg ≡ field t g.cfg

fail-Stores : (ty : CfType) (str : Bytes) (d : Diag) (g : Progress) → Stores ty str g (fail d g)
fail-Stores ty str d g = record {
  up = omega arith;
  few = omega arith;
  same_checks = refl;
  told = λ e. omega arith;
  stored = λ x before e. absurd (omega arith);
  others = λ t h. refl;
}

store_number-Stores :
    (nline : ℕ) (plus : Bool) (check : Option (ℤ → Option ConfErr)) (f : IntField) (str : Bytes)
    (g : Progress)
    → Stores (number plus check f) str g (store_number nline plus check f (strtol str) g)
unfolding store_number
store_number-Stores nline plus check f str g =
    let n = strtol str in
    let ty = number plus check f in
    let value = to_uint n.value in
    elim (Bool-cases (not (all_blank (skip_blank n.rest)))) [
      | inl bad ↦ rw bad (fail-Stores ty str _ g)
      | inr ok1 ↦ elim (Bool-cases (value == uint_max && g.erange)) [
        | inl bad ↦ rw (ok1, bad) (fail-Stores ty str _ g)
        | inr ok2 ↦ elim (Bool-cases (plus && ltb uint_max value)) [
          | inl bad ↦ rw (ok1, ok2, bad) (fail-Stores ty str _ g)
          | inr ok3 ↦ elim (Option-cases (run_check check (to_int value))) [
            | inr (e, bad) ↦ rw (ok1, ok2, ok3, bad) (fail-Stores ty str _ g)
            | inl good ↦
                rw (ok1, ok2, ok3, good)
                  (record {
                    up = omega arith;
                    few = omega arith;
                    same_checks = refl;
                    told = λ e. e;
                    stored = λ x before e st. ap int_value (get_int-set_int f (to_int value) g.cfg);
                    others = λ t h. field-set_int plus check f (to_int value) g.cfg t h;
                  })
          ]
        ]
      ]
    ]

-- A text of white space leaves what the lines before have said.
so_far-blank :
    (check : Option (Bytes → Option ConfErr)) (f : TextField) (str : Bytes) (x : Given)
    (before cfg : ConfigData)
    → all_space str ≡ true
    → field (text check f) cfg ≡ so_far (text check f) x before
    → field (text check f) cfg ≡ so_far (text check f) (then_given (text check f) str x) before
so_far-blank check f str absent before cfg space e = rw space e
so_far-blank check f str blank before cfg space e = rw space e
so_far-blank check f str (given v) before cfg space e = rw space e

read_text-Stores :
    (env : Env) (nline : ℕ) (check : Option (Bytes → Option ConfErr)) (f : TextField) (str : Bytes)
    (g : Progress)
    → Stores (text check f) str g (read_text env nline check f str g)
unfolding read_text
read_text-Stores env nline check f str g =
    let ty = text check f in
    elim (Option-cases (run_check check str)) [
      | inr (e, bad) ↦ rw (bad, read_text) (fail-Stores ty str _ g)
      | inl good ↦ elim (Bool-cases (all_space str)) [
        | inl space ↦
            rw (good, read_text, space)
              (record {
                up = omega arith;
                few = omega arith;
                same_checks = refl;
                told = λ e. e;
                stored = λ x before e st. so_far-blank check f str x before g.cfg space st;
                others = λ t h. refl;
              })
        | inr full ↦ elim (Bool-cases (env.strdup str)) [
          | inr no_room ↦ rw (good, read_text, full, no_room) (fail-Stores ty str _ g)
          | inl room ↦
              rw (good, read_text, full, room)
                (record {
                  up = omega arith;
                  few = omega arith;
                  same_checks = refl;
                  told = λ e. e;
                  stored = λ x before e st. rw full (ap text_value (get_text-set_text f str g.cfg));
                  others = λ t h. field-set_text check f str g.cfg t h;
                })
        ]
      ]
    ]

pub read_value-Stores :
    (env : Env) (nline : ℕ) (ty : CfType) (str : Bytes) (g : Progress)
    → IsPlain ty
    → Stores ty str g (read_value env nline ty str g)
unfolding read_value
read_value-Stores env nline (number plus check f) str g plain =
    let r = store_number-Stores nline plus check f str (note_range (strtol str).out_of_range g) in
    record {
      up = r.up;
      few = r.few;
      same_checks = r.same_checks;
      told = r.told;
      stored = r.stored;
      others = r.others;
    }
read_value-Stores env nline (text check f) str g plain = read_text-Stores env nline check f str g
read_value-Stores env nline (function c) str g plain = absurd plain
read_value-Stores env nline (other n) str g plain = absurd plain
