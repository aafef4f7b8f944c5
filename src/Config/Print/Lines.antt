-- ===== src/Config/Print/Lines.antt =====
-- One printed line, as the reader meets it.
use madai.Base.{
  ℕ, ◌<◌, true, false, ◌&&◌, ◌||◌, Bool, none, some, Option, [], ◌∷◌, ◌≡◌, refl, ap, arith, Bytes,
  ltb, ◌^◌, ◌%◌, ◌∙◌, ◌==◌, ℤ, pos, to_int, to_uint, to_int-small,
}
use madai.Sys.{Env}
use madai.Libdg.Text.{is_space, skip_blank, all_space}
use madai.Libdg.Decimal.{print_int}
use madai.Libdg.Decimal.Digits.{all_digits, strtol-print_int}
use madai.Libdg.Checks.{ConfErr}
use madai.Libdg.Reader.Lines.{one_line}
use madai.Libdg.Entry.{number, text, IntField, TextField, set_int, set_text}
use madai.Libdg.Reader.{
  note_range, Progress, read_value, read_number, read_text, store_number, run_check, uint_max,
}

pub one_line-digits : (s : Bytes) → all_digits s ≡ true → one_line s ≡ true
one_line-digits [] h = refl
one_line-digits (c ∷ s) h = ground (arith, one_line-digits s)

store_number-small :
    (nline n : ℕ) (plus : Bool) (check : Option (ℤ → Option ConfErr)) (field : IntField)
    (g : Progress)
    → n < 2 ^ 31
    → run_check check (pos n) ≡ none
    → store_number nline plus check field
        (record { value = pos n; rest = []; out_of_range = false })
        g
      ≡ record g { cfg = set_int field (pos n) g.cfg }
unfolding store_number skip_blank
store_number-small nline n plus none field g small good =
    let same : n % 2 ^ 32 ≡ n = omega arith in
    let stored : to_int n ≡ pos n = to_int-small n small in
    let max : (n == uint_max) ≡ false = ground arith in
    let below : (plus && ltb uint_max n) ≡ false = ground arith in
    rw same (rw max (rw below (ap (λ z. record g { cfg = set_int field z g.cfg }) stored)))
store_number-small nline n plus (some f) field g small good =
    let same : n % 2 ^ 32 ≡ n = omega arith in
    let as_int : to_int n ≡ pos n = to_int-small n small in
    let stored : to_int (to_uint (pos n)) ≡ pos n = ground arith in
    let max : (n == uint_max) ≡ false = ground arith in
    let below : (plus && ltb uint_max n) ≡ false = ground arith in
    rw same (
      rw max
        (rw below (rw (as_int, good) (ap (λ z. record g { cfg = set_int field z g.cfg }) stored))))

-- A number that was printed is read back, if the check accepts it.
pub read_value-number :
    (env : Env) (nline n : ℕ) (plus : Bool) (check : Option (ℤ → Option ConfErr)) (field : IntField)
    (g : Progress)
    → n < 2 ^ 31
    → run_check check (pos n) ≡ none
    → read_value env nline (number plus check field) (print_int (pos n)) g
      ≡ record g { cfg = set_int field (pos n) g.cfg; erange = g.erange || false }
unfolding read_value read_number
read_value-number env nline n plus check field g small good =
    ap (λ m. store_number nline plus check field m (note_range m.out_of_range g))
      (strtol-print_int n (omega arith))
    ∙ store_number-small nline n plus check field _ small good

-- A text that was printed is read back, if the check accepts it and it does not begin with white
-- space.
pub read_value-text :
    (env : Env) (nline : ℕ) (check : Option (Bytes → Option ConfErr)) (field : TextField) (c : ℕ)
    (s : Bytes) (g : Progress)
    → is_space c ≡ false
    → run_check check (c ∷ s) ≡ none
    → env.strdup (c ∷ s) ≡ true
    → read_value env nline (text check field) (c ∷ s) g
      ≡ record g { cfg = set_text field (c ∷ s) g.cfg }
unfolding read_value read_text all_space
read_value-text env nline none field c s g visible good room =
    rw (read_value, read_text, visible) (rw room refl)
read_value-text env nline (some f) field c s g visible good room =
    rw (read_value, read_text, good) (rw visible (rw room refl))
