-- ===== src/Milter/Sockets/Opens.antt =====
-- The socket of a session over MAIL FROM, beside the descriptors of all other sessions.
use madai.Base.{◌∙◌, minus_one, true, some, ◌≡◌, refl, Bytes, arith, ◌==◌}
use madai.Types.{Addr, Fd, ConfigData, SessionData, Sfsistat}
use madai.Sys.{Env, State, Run, ok, fault, hang}
use madai.Sys.Ends.{WhenOk, feed-WhenOk}
use madai.Smtp.Commands.{Configured}
use madai.Smtp.Start.{open_fds, FromKernel}
use madai.Smtp.Quiet.{Untouched}
use madai.Milter.{mdfi_envfrom}
use madai.Milter.Socket.{IsSocket, Opens, start_smtp-Uses}
use madai.Milter.Stays.{with_socket}
use madai.Milter.Sockets.Callbacks.{greet_session-Quiet}

module _ (env : Env) (ctx p : Addr) where
  -- The session has the socket `r` in the end, which is the one that it had or a new one of the
  -- kernel. The path of the configuration file is the same.
  abbrev Reopens : Fd → State → Sfsistat → State → Type 0
  Reopens before s stat t =
      (r : Fd) × (((x : SessionData) × ((t.mem.sessions p ≡ some x) × (x.socket ≡ r)))
        × Opens before r (open_fds s.trace) (open_fds t.trace)
        × (before ≡ minus_one → FromKernel env s.trace r)
        × (t.mem.config_filepath ≡ s.mem.config_filepath))

  pub envfrom-Opens :
      {before : Fd} {cfg : ConfigData} (ip : Bytes) (s : State)
      → cfg.copyserverip ≡ some ip
      → s.mem.privs ctx ≡ some p
      → IsSocket before
      → Configured s.mem p before cfg
      → WhenOk (Reopens before s) (mdfi_envfrom env ctx s)
  unfolding mdfi_envfrom
  envfrom-Opens {before} ip s addr priv socket has =
      let at_p : (p == p) ≡ true = ground arith in
      rw priv (
        feed-WhenOk (Reopens before s) _ (start_smtp-Uses env has ip socket addr) λ r t u.
          rw (u.same_mem, has.live, has.live)
            (let u1 : State = record { mem = with_socket s.mem p has.session r; trace = t.trace } in
              reopened r u1 _ (record has.session { socket = r }) (rw at_p refl) refl u.opens
                u.kernel refl ((greet_session-Quiet env ctx p r).keeps u1 u1 (refl, refl, refl))))
    where
      reopened :
          (r : Fd) (u : State) (c : Run Sfsistat) (x : SessionData)
          → u.mem.sessions p ≡ some x
          → x.socket ≡ r
          → Opens before r (open_fds s.trace) (open_fds u.trace)
          → (before ≡ minus_one → FromKernel env s.trace r)
          → u.mem.config_filepath ≡ s.mem.config_filepath
          → WhenOk (λ _ v. Untouched u v) c
          → WhenOk (Reopens before s) c
      reopened r u (ok stat v) x live at opens kernel same (fds, sessions, path) =
          (r, ((x, (rw sessions live, at)), rw fds opens, kernel, path ∙ same))
      reopened r u fault x live at opens kernel same quiet = tt
      reopened r u hang x live at opens kernel same quiet = tt
