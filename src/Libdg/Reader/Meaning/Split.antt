-- ===== src/Libdg/Reader/Meaning/Split.antt =====
-- How a file is cut into lines, and what the lines do.
use madai.Base.{
  ℕ, zero, suc, ◌+◌, ◌≤◌, ◌<◌, true, none, some, List, [], ◌∷◌, ◌++◌, ◌≡◌, ◌≢◌, refl, ap, ◌∙◌,
  arith, Bytes, length, length-append, Option-cases, inl, inr,
}
use madai.Types.{ConfigData}
use madai.Sys.{Env}
use madai.Libdg.Entry.{CfEntry}
use madai.Libdg.Reader.{
  Diag, too_long_line, Progress, LoopEnd, end_of_file, too_long, cut_line, max_config_line,
  read_lines,
}
use madai.Libdg.Reader.Lines.{one_line, cut_line-append}
use madai.Libdg.Reader.Terms.{IsTable}
use madai.Libdg.Reader.Meaning.{line_gives, lines_give, text_of, IsLine, AllLines}
use madai.Libdg.Reader.Meaning.Line.{Said, Meets, Meets-mono, read_line-Meets}

-- What is left of a file begins with no whole line that has room in the buffer.
abbrev pub Broken : Bytes → Type 0
Broken tail = (tail ≢ []) × ((line rest : Bytes) → IsLine line → tail ≢ line ++ (b'\n' ∷ rest))

-- What is cut off is a line.
cut_line-some :
    (k : ℕ) (s a b : Bytes)
    → cut_line k s ≡ some (a, b)
    → (s ≡ a ++ (b'\n' ∷ b)) × (one_line a ≡ true) × (length a < k)
unfolding cut_line
cut_line-some zero s a b e = cc
cut_line-some (suc k) [] a b e = cc
cut_line-some (suc k) (c ∷ s) a b e = elim (Option-cases (cut_line k s)) [
  | inl last ↦ ground arith
  | inr ((a', b'), m) ↦ ground (arith, cut_line-some k s a' b')
]

cut_line-none :
    (s : Bytes)
    → cut_line max_config_line s ≡ none
    → (line rest : Bytes) → IsLine line
    → s ≢ line ++ (b'\n' ∷ rest)
cut_line-none s e line rest (one, short) at =
    let found : cut_line max_config_line s ≡ some (line, rest) =
      rw at (cut_line-append max_config_line line rest one short) in
    cc

-- How the loop over the lines ends.
pub data Split (es : List CfEntry) (before : ConfigData) (said : Said) (bound nline : ℕ)
    (content : Bytes) : LoopEnd → Type 0 where
  at_end :
      (lines : List Bytes) {h : Progress}
      → content ≡ text_of lines []
      → AllLines lines
      → Meets es before (λ j t. lines_give es j t lines (said j t)) (bound + length content) h
      → Split es before said bound nline content (end_of_file h)
  at_tail :
      (lines : List Bytes) (tail : Bytes) {h : Progress} (diags : List Diag)
      → content ≡ text_of lines tail
      → AllLines lines
      → Broken tail
      → h.diags ≡ too_long_line (nline + length lines) ∷ diags
      → Split es before said bound nline content (too_long h)

module _ (env : Env) (es : List CfEntry) (table : IsTable es) (before : ConfigData) where
  -- One line more before the rest.
  longer :
      (nline bound : ℕ) (said : Said) (content line rest : Bytes) {last : LoopEnd}
      → content ≡ line ++ (b'\n' ∷ rest)
      → IsLine line
      → suc (length line) + length rest ≤ length content
      → Split es before (λ j t. line_gives es j t line (said j t)) (suc bound) (nline + 1) rest last
      → Split es before said bound nline content last
  longer nline bound said content line rest split is_line fewer (at_end lines {h} at all m) =
      at_end (line ∷ lines) (split ∙ ap (λ r. line ++ (b'\n' ∷ r)) at) (is_line, all)
        (Meets-mono es table before _ (suc bound + length rest) (bound + length content) h
          (omega (arith, fewer)) m)
  longer nline bound said content line rest split is_line fewer
        (at_tail lines tail diags at all broken told) =
      let same : (nline + 1) + length lines ≡ nline + suc (length lines) = omega arith in
      at_tail (line ∷ lines) tail diags (split ∙ ap (λ r. line ++ (b'\n' ∷ r)) at) (is_line, all)
        broken (told ∙ ap (λ n. too_long_line n ∷ diags) same)

  pub read_lines-Split :
      (k nline bound : ℕ) (content : Bytes) (said : Said) (g : Progress)
      → length content < k
      → Meets es before said bound g
      → Split es before said bound nline content (read_lines env es k nline content g)
  unfolding read_lines
  read_lines-Split zero nline bound content said g fuel m = absurd (omega arith)
  read_lines-Split (suc k) nline bound [] said g fuel m =
      at_end [] refl tt (Meets-mono es table before said bound (bound + 0) g (omega arith) m)
  read_lines-Split (suc k) nline bound (c ∷ content) said g fuel m =
      elim (Option-cases (cut_line max_config_line (c ∷ content))) [
        | inl none_left ↦
            rw (none_left, read_lines)
              (at_tail [] (c ∷ content) g.diags refl tt
                (λ e. cc, cut_line-none (c ∷ content) none_left)
                (let same : nline ≡ nline + 0 = omega arith in
                  ap (λ n. too_long_line n ∷ g.diags) same))
        | inr ((line, rest), cut) ↦
            let (split, one, short) = cut_line-some max_config_line (c ∷ content) line rest cut in
            let fewer : suc (length line) + length rest ≤ length (c ∷ content) =
              let same : length (c ∷ content) ≡ length (line ++ (b'\n' ∷ rest)) = ap length split in
              omega (arith, same, length-append line (b'\n' ∷ rest)) in
            rw (cut, read_lines)
              (longer nline bound said (c ∷ content) line rest split (one, short) fewer
                (read_lines-Split k (nline + 1) (suc bound) rest _ _ (omega (arith, fewer))
                  (read_line-Meets es table before env nline said bound line g m)))
      ]
