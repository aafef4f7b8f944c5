-- ===== src/Libdg/Reader/Meaning/File.antt =====
-- `read_config` against what the file means.
use madai.Base.{ℕ, ◌+◌, pos, negsuc, some, List, [], ◌∷◌, ◌≡◌, Bytes, length, get_elem?}
use madai.Types.{ConfigData}
use madai.Sys.Ends.{Ends}
use madai.Libdg.Entry.{CfEntry}
use madai.Libdg.Reader.{Diag, too_long_line, Reading}
use madai.Libdg.Reader.Meaning.{absent, lines_give, Meant, text_of, AllLines}
use madai.Libdg.Reader.Meaning.Split.{Broken, Split}

-- What `read_config` is to make of a file of whole lines, or of one that goes on behind them. The
-- messages are newest first.
pub data FileMeans (es : List CfEntry) (before : ConfigData) (content : Bytes) (r : Reading)
    : Type 0 where
  whole_file :
      (lines : List Bytes)
      → content ≡ text_of lines []
      → AllLines lines
      → r.ret ≡ pos (length r.diags)
      → (r.ret ≡ pos 0
          → (j : ℕ) (e : CfEntry) → get_elem? es j ≡ some e
          → Meant e (lines_give es j e.type lines absent) before r.cfg)
      → FileMeans es before content r
  broken_file :
      (lines : List Bytes) (tail : Bytes) (diags : List Diag)
      → content ≡ text_of lines tail
      → AllLines lines
      → Broken tail
      → r.ret ≡ negsuc 1
      → r.diags ≡ too_long_line (1 + length lines) ∷ diags
      → FileMeans es before content r
