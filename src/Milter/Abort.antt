-- ===== src/Milter/Abort.antt =====
-- `mdfi_abort`: a mail that is given up, on a connection that goes on.
use madai.Base.{minus_one, some, ◌≡◌, refl, ◌∷◌, Bool-cases, inl, inr}
use madai.Types.{Addr, Fd, ConfigData, Sfsistat, continue}
use madai.Sys.{Event, Env, State}
use madai.Sys.Ends.{Ends, ends}
use madai.Sys.Wire.{sent}
use madai.Smtp.Start.{open_fds, erase_fd}
use madai.Smtp.Commands.{Configured}
use madai.Milter.{mdfi_abort}
use madai.Milter.Stays.{
  Stays, Configured-with_socket, Configured-set_priv, Stays-with_socket, Stays-set_priv,
}

-- The session keeps all but its socket, which is closed. Nothing is sent.
pub record Resets (ctx p : Addr) (cfg : ConfigData) (q : Addr) (fd : Fd) (s : State)
    (stat : Sfsistat) (t : State) : Type 0 where
  pub stat_is : stat ≡ continue
  pub stays : Stays ctx p cfg q s.mem t.mem
  pub no_socket : Configured t.mem p minus_one cfg
  pub closed : open_fds t.trace ≡ erase_fd fd (open_fds s.trace)
  pub silent : (g : Fd) → sent g t.trace ≡ sent g s.trace

module _ (env : Env) (ctx p : Addr) (cfg : ConfigData) {fd : Fd} where
  -- In a session that is the private data of `ctx` and holds its set: `mdfi_abort` ends without a
  -- fault and answers SMFIS_CONTINUE, whatever libmilter answers. The socket of the session is
  -- closed, and the session has no socket; it stays the private data of `ctx`, keeps its set, and
  -- no set changes. Nothing is sent.
  pub mdfi_abort-Resets :
      (s : State) (has : Configured s.mem p fd cfg)
      → s.mem.privs ctx ≡ some p
      → Ends (Resets ctx p cfg has.set_at fd s) (mdfi_abort env ctx s)
  unfolding mdfi_abort
  mdfi_abort-Resets s has priv =
      let trace = Event.closed fd ∷ s.trace in
      let has_none = Configured-with_socket has minus_one in
      let stays = Stays-with_socket {ctx = ctx} has minus_one (inl refl) priv in
      rw (priv, has.live, has.on_socket, has.live)
        (elim (Bool-cases (env.setpriv trace ctx (some p))) [
          | inr refused ↦ rw refused (
              ends (record {
                stat_is = refl;
                stays = stays;
                no_socket = has_none;
                closed = refl;
                silent = λ g. refl;
              }))
          | inl done ↦ rw done (
              ends (record {
                stat_is = refl;
                stays = Stays-set_priv ctx stays;
                no_socket = (Configured-set_priv ctx has_none).1;
                closed = refl;
                silent = λ g. refl;
              }))
        ])
