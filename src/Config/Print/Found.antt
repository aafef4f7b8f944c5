-- ===== src/Config/Print/Found.antt =====
-- How the reader finds the terms of the table by their names.
use madai.Base.{
  ℕ, zero, suc, ◌<◌, true, false, none, some, List, [], ◌∷◌, ◌++◌, ◌≡◌, refl, ◌∙◌, arith, Bytes,
  length, take, drop,
}
use madai.Sys.{Env}
use madai.Libdg.Text.{is_space, strip_nocase}
use madai.Libdg.Entry.{CfEntry, other}
use madai.Libdg.Reader.{Progress, read_line, read_term, match_key, behind_equals, read_value, mark}
use madai.Config.Load.{cfe}
use madai.Config.Print.{line_of}
use madai.Libdg.Reader.Lines.{one_line}

-- A line of the name of `e` is read for `e`, which stands at index `i` of the table.
abbrev pub Found : Env → List CfEntry → ℕ → CfEntry → Type 0
Found env table i e =
    (length e.name < 1000)
    × (one_line e.name ≡ true)
    × ((nline c : ℕ) (s : Bytes) (g : Progress)
        → is_space c ≡ false
        → read_line env table nline (line_of e.name (c ∷ s)) g
          ≡ read_value env nline e.type (c ∷ s) (record g { checks = mark i g.checks }))

abbrev pub AllFound : Env → List CfEntry → ℕ → List CfEntry → Type 0
AllFound env table i [] = Unit {0}
AllFound env table i (e ∷ es) = Found env table i e × AllFound env table (suc i) es

behind_equals-visible :
    (c : ℕ) (s : Bytes) → is_space c ≡ false → behind_equals (b'=' ∷ c ∷ s) ≡ some (c ∷ s)
unfolding behind_equals
behind_equals-visible c s visible = rw visible refl

strip_nocase-append : (p s : Bytes) → strip_nocase p (p ++ s) ≡ some s
unfolding strip_nocase
strip_nocase-append [] s = refl
strip_nocase-append (c ∷ p) s = ground (arith, strip_nocase-append p s)

match_key-line_of :
    (name : Bytes) (c : ℕ) (s : Bytes)
    → is_space c ≡ false
    → match_key name (line_of name (c ∷ s)) ≡ some (c ∷ s)
unfolding match_key
match_key-line_of name c s visible =
    rw (strip_nocase-append name (b'=' ∷ c ∷ s), match_key) (behind_equals-visible c s visible)

abbrev Unlike : List CfEntry → Bytes → Type 0
Unlike [] line = Unit {0}
Unlike (e ∷ es) line = (match_key e.name line ≡ none) × Unlike es line

abbrev after : List CfEntry → ℕ → ℕ
after [] i = i
after (e ∷ es) i = after es (suc i)

read_term-Unlike :
    (env : Env) (nline i : ℕ) (pre es : List CfEntry) (line : Bytes) (g : Progress)
    → Unlike pre line
    → read_term env nline i (pre ++ es) line g ≡ read_term env nline (after pre i) es line g
unfolding read_term
read_term-Unlike env nline i [] es line g u = refl
read_term-Unlike env nline i (e ∷ pre) es line g (other_key, u) =
    rw (other_key, read_term) (read_term-Unlike env nline (suc i) pre es line g u)

read_term-hit :
    (env : Env) (nline i : ℕ) (e : CfEntry) (es : List CfEntry) (line str : Bytes) (g : Progress)
    → match_key e.name line ≡ some str
    → read_term env nline i (e ∷ es) line g
      ≡ read_value env nline e.type str (record g { checks = mark i g.checks })
unfolding read_term
read_term-hit env nline i e es line str g m = rw (m, read_term) refl

read_term-line_of :
    (env : Env) (nline : ℕ) (pre es : List CfEntry) (e : CfEntry) (c : ℕ) (s : Bytes) (g : Progress)
    → Unlike pre (line_of e.name (c ∷ s))
    → is_space c ≡ false
    → read_term env nline 0 (pre ++ (e ∷ es)) (line_of e.name (c ∷ s)) g
      ≡ read_value env nline e.type (c ∷ s) (record g { checks = mark (after pre 0) g.checks })
read_term-line_of env nline pre es e c s g u visible =
    read_term-Unlike env nline 0 pre (e ∷ es) _ g u
    ∙ read_term-hit env nline (after pre 0) e es _ (c ∷ s) g (match_key-line_of e.name c s visible)

abbrev entry_at : ℕ → List CfEntry → CfEntry
entry_at i [] = record { name = []; type = other 0; default = none }
entry_at zero (e ∷ es) = e
entry_at (suc i) (e ∷ es) = entry_at i es

pub cfe-AllFound : (env : Env) → AllFound env (cfe env) 0 (cfe env)
unfolding read_line match_key
cfe-AllFound env = (
  (
    omega arith,
    refl,
    λ nline c s g visible.
        read_term-line_of env nline (take 0 (cfe env)) (drop 1 (cfe env)) (entry_at 0 (cfe env)) c s
          g tt visible,
  ),
  (
    (
      omega arith,
      refl,
      λ nline c s g visible.
          read_term-line_of env nline (take 1 (cfe env)) (drop 2 (cfe env)) (entry_at 1 (cfe env)) c
            s g (refl, tt) visible,
    ),
    (
      (
        omega arith,
        refl,
        λ nline c s g visible.
            read_term-line_of env nline (take 2 (cfe env)) (drop 3 (cfe env)) (entry_at 2 (cfe env))
              c s g (refl, (refl, tt)) visible,
      ),
      (
        (
          omega arith,
          refl,
          λ nline c s g visible.
              read_term-line_of env nline (take 3 (cfe env)) (drop 4 (cfe env))
                (entry_at 3 (cfe env)) c s g (refl, (refl, (refl, tt))) visible,
        ),
        (
          (
            omega arith,
            refl,
            λ nline c s g visible.
                read_term-line_of env nline (take 4 (cfe env)) (drop 5 (cfe env))
                  (entry_at 4 (cfe env)) c s g (refl, (refl, (refl, (refl, tt)))) visible,
          ),
          (
            (
              omega arith,
              refl,
              λ nline c s g visible.
                  read_term-line_of env nline (take 5 (cfe env)) (drop 6 (cfe env))
                    (entry_at 5 (cfe env)) c s g (refl, (refl, (refl, (refl, (refl, tt))))) visible,
            ),
            (
              (
                omega arith,
                refl,
                λ nline c s g visible.
                    read_term-line_of env nline (take 6 (cfe env)) (drop 7 (cfe env))
                      (entry_at 6 (cfe env)) c s g
                      (refl, (refl, (refl, (refl, (refl, (refl, tt)))))) visible,
              ),
              (
                (
                  omega arith,
                  refl,
                  λ nline c s g visible.
                      read_term-line_of env nline (take 7 (cfe env)) (drop 8 (cfe env))
                        (entry_at 7 (cfe env)) c s g
                        (refl, (refl, (refl, (refl, (refl, (refl, (refl, tt))))))) visible,
                ),
                tt,
              ),
            ),
          ),
        ),
      ),
    ),
  ),
)
