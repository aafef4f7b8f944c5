-- ===== src/Smtp/Header.antt =====
-- `send_header`: libmilter hands a header value over with bare newlines, and the copy server is
-- sent it with CRLF.
use mathlib.Core.List.{append_assoc}
use madai.Base.{
  ℕ, zero, suc, ◌+◌, ◌<◌, ℤ, none, some, [], ◌∷◌, ◌++◌, ◌≡◌, refl, arith, Bytes, length, ◌==◌,
  if◌then◌else◌, Option-cases, inl, inr,
}
use madai.Types.{Fd, ConfigData}
use madai.Sys.{Env, State, Cmd}
use madai.Sys.Ends.{Ends}
use madai.Sys.Wire.{Delivers}
use madai.Smtp.{crlf, split_newline, write_then, header_loop}
use madai.Smtp.Compose.{Fits, Sound, pure-Delivers, write_then-Delivers}

-- The text with each newline turned into CRLF.
abbrev pub to_crlf : Bytes → Bytes
to_crlf [] = []
to_crlf (c ∷ cs) = if c == b'\n' then crlf ++ to_crlf cs else c ∷ to_crlf cs

to_crlf-split_none : (v : Bytes) → split_newline v ≡ none → to_crlf v ≡ v
unfolding split_newline
to_crlf-split_none [] h = refl
to_crlf-split_none (c ∷ cs) h = ground (arith, to_crlf-split_none cs)

to_crlf-split :
    (v a b : Bytes)
    → split_newline v ≡ some (a, b)
    → (to_crlf v ≡ a ++ (crlf ++ to_crlf b)) × (length v ≡ length a + suc (length b))
unfolding split_newline
to_crlf-split [] a b h = cc
to_crlf-split (c ∷ cs) a b h = elim (Option-cases (split_newline cs)) [
  | inl last ↦ ground arith
  | inr ((a', b'), e) ↦ ground (arith, to_crlf-split cs a' b' e)
]

module _ (env : Env) (sound : Sound env) where
  -- A newline that is sent as CRLF, and what comes after it.
  crlf-Delivers :
      (cfg : ConfigData) (fd : Fd) (b : Bytes) (rest : Cmd ℤ)
      → ((t : State) → Ends (Delivers fd b t) (rest t))
      → (s : State) → Ends (Delivers fd (crlf ++ b) s) (write_then env cfg fd crlf rest s)
  crlf-Delivers cfg fd b rest next s =
      let enough = sound.enough in
      write_then-Delivers env sound cfg fd crlf b rest s (omega arith, omega arith) next

  pub header_loop-Delivers :
      (k : ℕ) (cfg : ConfigData) (fd : Fd) (v : Bytes)
      → length v < k
      → Fits env v
      → (s : State) → Ends (Delivers fd (to_crlf v ++ crlf) s) (header_loop env k cfg fd v s)
  unfolding header_loop
  header_loop-Delivers zero cfg fd v h fits s = absurd (omega arith)
  header_loop-Delivers (suc k) cfg fd v h fits s = elim (Option-cases (split_newline v)) [
    | inl last ↦
        rw (last, header_loop)
          (rw (to_crlf-split_none v last) (
            write_then-Delivers env sound cfg fd v crlf _ s fits
              (crlf-Delivers cfg fd [] _ (pure-Delivers fd))))
    | inr ((a, b), e) ↦
        let (split, len) = to_crlf-split v a b e in
        let rest = header_loop-Delivers k cfg fd b (omega arith) (omega arith) in
        rw (e, header_loop)
          (rw (split, append_assoc)
            (write_then-Delivers env sound cfg fd a _ _ s (omega arith)
              (crlf-Delivers cfg fd (to_crlf b ++ crlf) _ rest)))
  ]
