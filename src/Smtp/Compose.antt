-- ===== src/Smtp/Compose.antt =====
-- How the guards of the send functions compose: what a step delivers, and then the rest.
use madai.Base.{
  ◌≤◌, ◌<◌, ◌^◌, ℤ, pos, minus_one, eq_ℤ, false, [], ◌++◌, ◌≡◌, refl, sym, ap, ◌∙◌, Bytes, length,
  to_int, Bool-cases, inl, inr,
}
use mathlib.Core.List.{append-nil, append_assoc}
use madai.Types.{Fd, ConfigData, Message}
use madai.Sys.{Env, State, Cmd, pure}
use madai.Sys.Ends
use madai.Sys.Ends.{Ends, ends}
use madai.Sys.Wire.{sent, WriteLaws, Outcome, Outcome-append, whole, part, Delivers}
use madai.Smtp.{
  buf_len, check, write_msg, write_failed, read_failed, write_then, read_then, read_msg,
}
use madai.Smtp.Write.{write_msg-Delivers}

-- The length of the text is an `int`, and the loop that writes it has a round for each byte.
abbrev pub Fits : Env → Bytes → Type 0
Fits env text = (length text < 2 ^ 31) × (length text < env.rounds)

-- The kernel keeps the laws of write(2), and `write_msg` has rounds for a whole `buf`.
pub record Sound (env : Env) : Type 0 where
  pub laws : WriteLaws env
  pub enough : buf_len ≤ env.rounds

pub pure-Delivers : (fd : Fd) (s : State) → Ends (Delivers fd [] s) (pure (pos 0) s)
pure-Delivers fd s = ends (record {
  same_mem = refl;
  outcome = whole refl (sym (append-nil _));
  others = λ g apart. refl;
})

pub Delivers-append :
    (fd : Fd) (a b : Bytes) {s t u : State} {r : ℤ}
    → t.mem ≡ s.mem
    → sent fd t.trace ≡ sent fd s.trace ++ a
    → ((g : Fd) → eq_ℤ g fd ≡ false → sent g t.trace ≡ sent g s.trace)
    → Delivers fd b t r u
    → Delivers fd (a ++ b) s r u
Delivers-append fd a b m e same d = record {
  same_mem = d.same_mem ∙ m;
  outcome = Outcome-append a b e d.outcome;
  others = λ g apart. d.others g apart ∙ same g apart;
}

pub check-Delivers :
    (fd : Fd) (a b : Bytes) (step : Cmd ℤ) (failure : Message) (rest : Cmd ℤ) (s : State)
    → Ends (Delivers fd a s) (step s)
    → ((t : State) → Ends (Delivers fd b t) (rest t))
    → Ends (Delivers fd (a ++ b) s) (check step failure rest s)
check-Delivers fd a b step failure rest s first next =
    Ends.feed-Ends _ first λ r t d. go r t d.same_mem d.others d.outcome
  where
    go :
        (r : ℤ) (t : State)
        → t.mem ≡ s.mem
        → ((g : Fd) → eq_ℤ g fd ≡ false → sent g t.trace ≡ sent g s.trace)
        → Outcome a (sent fd s.trace) (sent fd t.trace) r
        → Ends (Delivers fd (a ++ b) s) (check (pure r) failure rest t)
    go r t m same (whole e x) =
        rw e (Ends.weaken (next t) λ r' u d. Delivers-append fd a b m x same d)
    go r t m same (part p u e y x) = rw e (
        ends (record {
          same_mem = m;
          outcome = part p (u ++ b) refl (ap (λ w. w ++ b) y ∙ append_assoc p u b) x;
          others = same;
        }))

module _ (env : Env) where
  pub write_then-Delivers :
      (sound : Sound env) (cfg : ConfigData) (fd : Fd) (text b : Bytes) (rest : Cmd ℤ) (s : State)
      → Fits env text
      → ((t : State) → Ends (Delivers fd b t) (rest t))
      → Ends (Delivers fd (text ++ b) s) (write_then env cfg fd text rest s)
  unfolding write_then
  write_then-Delivers sound cfg fd text b rest s fits =
      check-Delivers fd text b (write_msg env fd text (to_int (length text))) (write_failed cfg)
        rest s (write_msg-Delivers env sound.laws fd text s fits.0 fits.1)

  -- The same where nothing is sent after the text.
  pub write_last-Delivers :
      (sound : Sound env) (cfg : ConfigData) (fd : Fd) (text : Bytes) (rest : Cmd ℤ) (s : State)
      → Fits env text
      → ((t : State) → Ends (Delivers fd [] t) (rest t))
      → Ends (Delivers fd text s) (write_then env cfg fd text rest s)
  write_last-Delivers sound cfg fd text rest s fits next =
      rw append-nil at (write_then-Delivers sound cfg fd text [] rest s fits next)

  -- `read_msg` sends nothing, and fails only where read(2) answers -1.
  read_msg-Delivers : (fd : Fd) (s : State) → Ends (Delivers fd [] s) (read_msg env fd s)
  unfolding read_msg
  read_msg-Delivers fd s = elim (Bool-cases (eq_ℤ (env.read s.trace fd 1024) minus_one)) [
    | inl bad ↦ rw bad (
        ends (record {
          same_mem = refl;
          outcome = part [] [] refl refl (sym (append-nil _));
          others = λ g apart. refl;
        }))
    | inr good ↦ rw good (
        ends (record {
          same_mem = refl;
          outcome = whole refl (sym (append-nil _));
          others = λ g apart. refl;
        }))
  ]

  pub read_then-Delivers :
      (cfg : ConfigData) (fd : Fd) (b : Bytes) (rest : Cmd ℤ) (s : State)
      → ((t : State) → Ends (Delivers fd b t) (rest t))
      → Ends (Delivers fd b s) (read_then env cfg fd rest s)
  unfolding read_then
  read_then-Delivers cfg fd b rest s =
      check-Delivers fd [] b (read_msg env fd) (read_failed cfg) rest s (read_msg-Delivers fd s)
