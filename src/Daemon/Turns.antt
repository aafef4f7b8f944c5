-- ===== src/Daemon/Turns.antt =====
-- One event of the daemon: what it does to the table of connections.
use madai.Base.{
  ◌∙◌, ◌≤◌, arith, ◌<◌, none, some, List, [], ◌∷◌, ◌≡◌, ◌≢◌, ◌∙◌, refl, sym, ap, Option-cases, inl,
  inr, minus_one, length, Bytes,
}
use mathlib.Core.Option.{some-injective}
use madai.Types.{Addr, Fd}
use madai.Sys.{Env, State}
use madai.Sys.Ends
use madai.Sys.Ends.{Ends, ends, Ends-with}
use madai.Smtp.{host_len}
use madai.Smtp.Commands.{IsShort, host_for}
use madai.Milter.{
  Callback, connect, envfrom, envrcpt, header, eoh, body, eom, abort, close, data_command, mdfilter,
  mdfi_envfrom, mdfi_envrcpt, mdfi_header, mdfi_eoh, mdfi_body, mdfi_eom, mdfi_data, mdfi_abort,
  mdfi_close,
}
use madai.Milter.Relay.{IsSendable, callback-Relays}
use madai.Milter.Greeting.{mdfi_envfrom-Greets}
use madai.Milter.Abort.{mdfi_abort-Resets}
use madai.ThreadControl.{do_hup}
use madai.ThreadControl.Hup.{do_hup-Renews}
use madai.ThreadControl.Hushed.{do_hup-Hushed}
use madai.Milter.Sockets.Callbacks.{callback-Quiet}
use madai.Milter.Sockets.Closed.{open_fds-clean}
use madai.Milter.Sockets.Opens.{envfrom-Opens}
use madai.Sys.Wire.{sent}
use madai.Smtp.Start.{open_fds}
use madai.Daemon.Sockets.{count_fd, is_socket, sockets_of-without, Opens-count_fd, erasing-count_fd}
use madai.Daemon.{DaemonEvent, called, hup, handle}
use madai.Daemon.Table.{
  Link, link_of, sets_of, without, with_fd, without-none, with_fd-none, length-sets_of,
}
use madai.Daemon.Serving.{
  Serving, Serving-Configured, Serving-priv, Serving-next, Serving-same_mem, Current-HasCurrent,
}
use madai.Daemon.Path.{mdfi_abort-Pathless}
use madai.Daemon.Contract.{Hosted, CanGreet, Allowed, Turn, Turns}
use madai.Daemon.Callbacks.{Stays-Serving, close-Serving, connect-Serving}

module _ (env : Env) (hosted : Hosted env) (ls : List Link) where
  pub name-IsShort :
      (name : Bytes) → length name < host_len → (u : State) → IsShort (host_for env u name)
  name-IsShort [] few u = hosted.short u
  name-IsShort (c ∷ cs) few u = few

  -- Without private data a callback does nothing.
  pub idle :
      (ctx : Addr) (c : Callback) (s : State)
      → c ≢ connect
      → s.mem.privs ctx ≡ none
      → Ends
          (λ _ t.
            (t.mem ≡ s.mem)
            × (open_fds t.trace ≡ open_fds s.trace)
            × ((g : Fd) → sent g t.trace ≡ sent g s.trace))
          (mdfilter env ctx c s)
  unfolding mdfi_envfrom mdfi_envrcpt mdfi_header mdfi_eoh mdfi_body mdfi_eom mdfi_data mdfi_abort
      mdfi_close
  idle ctx connect s other gone = absurd (other refl)
  idle ctx envfrom s other gone = rw gone (ends (refl, refl, λ g. refl))
  idle ctx (envrcpt rcptto) s other gone = rw gone (ends (refl, refl, λ g. refl))
  idle ctx (header headerf headerv) s other gone = rw gone (ends (refl, refl, λ g. refl))
  idle ctx eoh s other gone = rw gone (ends (refl, refl, λ g. refl))
  idle ctx (body bodyp) s other gone = rw gone (ends (refl, refl, λ g. refl))
  idle ctx eom s other gone = rw gone (ends (refl, refl, λ g. refl))
  idle ctx abort s other gone = rw gone (ends (refl, refl, λ g. refl))
  idle ctx close s other gone = rw gone (ends (refl, refl, λ g. refl))
  idle ctx data_command s other gone = rw gone (ends (refl, refl, λ g. refl))

  -- A callback by a connection that is in the table, or by one that is not.
  by_link :
      (ctx : Addr) (c : Callback) (s : State)
      → c ≢ connect
      → Serving env ls s
      → (link_of ctx ls ≡ none → Turn s (called ctx c) ls ls)
      → ((l : Link)
          → link_of ctx ls ≡ some l
          → Ends (λ _ t. Turns env s (called ctx c) ls t) (mdfilter env ctx c s))
      → Ends (λ _ t. Turns env s (called ctx c) ls t) (mdfilter env ctx c s)
  by_link ctx c s other now alone linked = elim (Option-cases (link_of ctx ls)) [
    | inr (l, e) ↦ linked l e
    | inl free ↦
        Ends.weaken (idle ctx c s other (rw free at (now.privs ctx)))
          λ _ t (m, f, _). (ls, (alone free, Serving-same_mem s t m f now))
  ]

  -- A callback within a mail.
  in_mail :
      (ctx : Addr) (c : Callback) (s : State)
      → c ≢ connect
      → Serving env ls s
      → IsSendable env c
      → ((ms : List Link) → ms ≡ ls → Turn s (called ctx c) ls ms)
      → Ends (λ _ t. Turns env s (called ctx c) ls t) (mdfilter env ctx c s)
  in_mail ctx c s other now fits same =
      by_link ctx c s other now (λ _. same ls refl)
        λ l e.
          let (has, _) = Serving-Configured ctx l now e in
          Ends.weaken
            (Ends-with (callback-Relays env hosted.sound c s fits (Serving-priv ctx l now e) has)
              ((callback-Quiet env ctx c fits).keeps s s (refl, refl, refl)))
            λ _ t (d, (f, _, _)).
              (ls, (same ls refl, Serving-same_mem s t d.delivers.same_mem f now))

  greeted :
      (ctx : Addr) (s : State) (l : Link)
      → Serving env ls s
      → CanGreet l.cfg
      → link_of ctx ls ≡ some l
      → Ends (λ _ t. Turns env s (called ctx envfrom) ls t) (mdfi_envfrom env ctx s)
  greeted ctx s l now (name, (named, few)) e =
      let (has, at) = Serving-Configured ctx l now e in
      let (_, (valid, socket)) = now.joined ctx l e in
      let (ip, addr, _) = valid.copy_server in
      let priv = Serving-priv ctx l now e in
      Ends.weaken
        (Ends-with
          (mdfi_envfrom-Greets env hosted.sound ctx l.session l.cfg name ip s l.socket
            (name-IsShort name few) named addr priv socket has)
          (envfrom-Opens env ctx l.session ip s addr priv socket has))
        λ _ t (g, (r, ((x, (live, on_r)), opens, _, path))).
          let stays = rw at at g.stays in
          let same : x ≡ stays.session.session =
            some-injective _ _ (sym live ∙ stays.session.live) in
          let at_fd : r ≡ stays.fd = sym on_r ∙ ap (λ y. y.socket) same ∙ stays.session.on_socket in
          (
            with_fd ctx stays.fd ls,
            (
              (stays.fd, refl),
              Stays-Serving env ctx ls s t now e stays
                  (λ h.
                    Opens-count_fd h l.socket stays.fd (open_fds s.trace) (open_fds t.trace)
                      (rw at_fd at opens))
                  path,
            ),
          )

  given_up :
      (ctx : Addr) (s : State) (l : Link)
      → Serving env ls s
      → link_of ctx ls ≡ some l
      → Ends (λ _ t. Turns env s (called ctx abort) ls t) (mdfi_abort env ctx s)
  given_up ctx s l now e =
      let (has, at) = Serving-Configured ctx l now e in
      Ends.weaken
        (Ends-with (mdfi_abort-Resets env ctx l.session l.cfg s has (Serving-priv ctx l now e))
          ((mdfi_abort-Pathless env ctx).keeps s s refl))
        λ _ t (d, path).
          let stays = rw at at d.stays in
          let same = some-injective _ _ (sym stays.session.live ∙ d.no_socket.live) in
          let no_fd : stays.fd ≡ minus_one =
            sym stays.session.on_socket ∙ ap (λ x. x.socket) same ∙ d.no_socket.on_socket in
          let fds = λ (g : Fd).
            let one : is_socket g l.socket ≤ count_fd g (open_fds s.trace) =
              omega (arith, now.fds g, sockets_of-without ctx g l ls e) in
            erasing-count_fd g l.socket (open_fds s.trace) (open_fds t.trace) d.closed
              (open_fds-clean s.trace) one in
          (
            with_fd ctx minus_one ls,
            (
              refl,
              rw no_fd at (Stays-Serving env ctx ls s t now e stays (λ g. rw no_fd (fds g)) path),
            ),
          )

  callback-Turns :
      (ctx : Addr) (c : Callback) (s : State)
      → Serving env ls s
      → Allowed env ls (called ctx c)
      → Ends (λ _ t. Turns env s (called ctx c) ls t) (mdfilter env ctx c s)
  callback-Turns ctx connect s now (free, few) =
      connect-Serving env ctx ls s hosted.grants now free (rw (length-sets_of ls) few)
  callback-Turns ctx envfrom s now ok =
      by_link ctx envfrom s (λ e. cc) now
        (λ free. (minus_one, sym (with_fd-none ctx minus_one ls free)))
        λ l e. greeted ctx s l now (ok l e) e
  callback-Turns ctx abort s now ok =
      by_link ctx abort s (λ e. cc) now (λ free. sym (with_fd-none ctx minus_one ls free))
        λ l e. given_up ctx s l now e
  callback-Turns ctx close s now ok =
      by_link ctx close s (λ e. cc) now (λ free. sym (without-none ctx ls free))
        λ l e.
          Ends.weaken (close-Serving env ctx ls s hosted.grants now e)
            λ _ t d. (without ctx ls, (refl, d))
  callback-Turns ctx (envrcpt rcptto) s now fits =
      in_mail ctx (envrcpt rcptto) s (λ e. cc) now fits λ ms e. e
  callback-Turns ctx (header headerf headerv) s now fits =
      in_mail ctx (header headerf headerv) s (λ e. cc) now fits λ ms e. e
  callback-Turns ctx eoh s now fits = in_mail ctx eoh s (λ e. cc) now fits λ ms e. e
  callback-Turns ctx (body bodyp) s now fits =
      in_mail ctx (body bodyp) s (λ e. cc) now fits λ ms e. e
  callback-Turns ctx eom s now fits = in_mail ctx eom s (λ e. cc) now fits λ ms e. e
  callback-Turns ctx data_command s now fits =
      in_mail ctx data_command s (λ e. cc) now fits λ ms e. e

  hup-Serving : (s : State) → Serving env ls s → Ends (λ _ t. Serving env ls t) (do_hup env s)
  hup-Serving s now =
      Ends.weaken
        (Ends-with (do_hup-Renews env hosted.laws hosted.prints s now.counted now.small)
          ((do_hup-Hushed env).keeps s s (refl, refl, refl, λ g. refl)))
        λ _ t ((d, r), (f, _, path, _)). elim d [
          | inl m ↦ Serving-same_mem s t m f now
          | inr ((cfg, valid, cur), _, apart) ↦
              Serving-next ls ls s t (sets_of ls) now (inl now.distinct) r (λ q. refl)
                (λ c. rw apart.privs (now.privs c)) (λ x. rw apart.sessions (now.sessions x))
                (λ g. rw f (now.fds g)) now.joined (Current-HasCurrent cur valid) path
        ]

  -- Over a host that keeps the laws of `Hosted`, in a state that stands for the table of the open
  -- connections: a reload, or a callback that may come, ends without a fault, and leaves a state
  -- that stands for the new table. `mdfi_connect` adds a connection with the current
  -- configuration, or nothing where there is no memory; `mdfi_close` takes the connection out;
  -- MAIL FROM and `mdfi_abort` change the socket of the connection at most; a reload and the
  -- other callbacks change no connection. A callback may come where its texts fit and the byte
  -- behind the copy of a body chunk is no one's; `mdfi_connect` where the connection is not open
  -- and fewer than 2^31 - 1 are; MAIL FROM where the configuration has a `HeloDomain` that fits
  -- `hostname`.
  pub handle-Turns :
      (e : DaemonEvent) (s : State)
      → Serving env ls s
      → Allowed env ls e
      → Ends (λ _ t. Turns env s e ls t) (handle env e s)
  handle-Turns (called ctx c) s now ok =
      Ends.feed-Ends _ (callback-Turns ctx c s now ok) λ _ t d. ends d
  handle-Turns hup s now ok = Ends.weaken (hup-Serving s now) λ _ t d. (ls, (refl, d))
