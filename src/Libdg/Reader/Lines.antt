-- ===== src/Libdg/Reader/Lines.antt =====
-- How the file is cut into lines.
use madai.Base.{
  ℕ, zero, suc, ◌+◌, ◌<◌, true, not, ◌&&◌, Bool, none, some, List, [], ◌∷◌, ◌++◌, ◌≡◌, refl, arith,
  Bytes, length, sym, ◌∙◌, ◌==◌,
}
use mathlib.Core.Option.{none-ne-some}
use madai.Sys.{Env}
use madai.Libdg.Entry.{CfEntry}
use madai.Libdg.Reader.{Progress, cut_line, read_line, read_lines, max_config_line}

-- No byte ends a line.
abbrev pub one_line : Bytes → Bool
one_line [] = true
one_line (c ∷ s) = not (c == 0) && not (c == b'\n') && one_line s

pub one_line-append :
    (a b : Bytes) → one_line a ≡ true → one_line b ≡ true → one_line (a ++ b) ≡ true
one_line-append [] b ha hb = hb
one_line-append (c ∷ a) b ha hb = ground (arith, one_line-append a b)

-- A line that fits the buffer is cut off whole.
pub cut_line-append :
    (k : ℕ) (line rest : Bytes)
    → one_line line ≡ true
    → length line < k
    → cut_line k (line ++ (b'\n' ∷ rest)) ≡ some (line, rest)
unfolding cut_line
cut_line-append zero line rest h short = absurd (omega arith)
cut_line-append (suc k) [] rest h short = refl
cut_line-append (suc k) (c ∷ line) rest h short = ground (arith, cut_line-append k line rest)

cut_line-nil : (k : ℕ) → cut_line k [] ≡ none
unfolding cut_line
cut_line-nil zero = refl
cut_line-nil (suc k) = refl

-- One round of the loop over the lines.
pub read_lines_step :
    (env : Env) (es : List CfEntry) (k nline : ℕ) (content line rest : Bytes) (g : Progress)
    → cut_line max_config_line content ≡ some (line, rest)
    → read_lines env es (suc k) nline content g
      ≡ read_lines env es k (nline + 1) rest (read_line env es nline line g)
unfolding read_lines
read_lines_step env es k nline [] line rest g e =
    absurd (none-ne-some _ (sym (cut_line-nil max_config_line) ∙ e))
read_lines_step env es k nline (c ∷ content) line rest g e = rw (e, read_lines) refl
