-- ===== src/Daemon/Silence.antt =====
-- One event of the daemon, on the wire: what it does to the sockets of the other connections.
use madai.Base.{
  ◌<◌, some, List, [], ◌≡◌, ◌≢◌, refl, minus_one, eq_ℤ, Bool-cases, Option-cases, if◌then◌else◌,
  inl, inr,
}
use madai.Types.{Addr, Fd, Sfsistat}
use madai.Sys.{Env, State}
use madai.Sys.Ends
use madai.Sys.Ends.{Ends, ends, Ends-with}
use madai.Sys.Wire.{sent}
use madai.Smtp.Start.{open_fds, erase_fd}
use madai.Milter.{
  Callback, connect, envfrom, envrcpt, header, eoh, body, eom, abort, close, data_command, mdfilter,
  mdfi_envfrom,
}
use madai.Milter.Relay.{IsSendable, callback-Relays}
use madai.Milter.Greeting.{mdfi_envfrom-Greets}
use madai.Milter.Abort.{mdfi_abort-Resets}
use madai.Milter.Opening.{Opened, no_memory, lost, opened, mdfi_connect-Opened}
use madai.Milter.Sessions.{mdfi_close-Closes}
use madai.Milter.Sockets.Callbacks.{callback-Quiet}
use madai.Milter.Sockets.Opens.{envfrom-Opens}
use madai.Config.Refs.{count}
use madai.ThreadControl.Hup.{do_hup-Renews}
use madai.ThreadControl.Hushed.{do_hup-Hushed}
use madai.Daemon.{DaemonEvent, called, hup, handle}
use madai.Daemon.Sockets.{FreshSockets}
use madai.Daemon.Table.{Link, link_of, sets_of, link_of-set, length-sets_of}
use madai.Daemon.Serving.{Serving, Serving-Configured, Serving-priv}
use madai.Daemon.Contract.{Hosted, CanGreet, Allowed}
use madai.Daemon.Turns.{idle, name-IsShort}
use madai.Daemon.Frames.{Frames, silent-Frames, erasing-Frames, opening-Single, greeting_apart}

module _ (env : Env) (hosted : Hosted env) (fresh : FreshSockets env) (ls : List Link) where
  -- A callback by a connection that is in the table, or by one that is not.
  framed :
      (ctx : Addr) (c : Callback) (s : State)
      → c ≢ connect
      → Serving env ls s
      → ((l : Link)
          → link_of ctx ls ≡ some l
          → Ends (λ _ t. Frames ls (called ctx c) s t) (mdfilter env ctx c s))
      → Ends (λ _ t. Frames ls (called ctx c) s t) (mdfilter env ctx c s)
  framed ctx c s other now linked = elim (Option-cases (link_of ctx ls)) [
    | inr (l, e) ↦ linked l e
    | inl free ↦
        Ends.weaken (idle env hosted ls ctx c s other (rw free at (now.privs ctx)))
          λ _ t (_, f, silent). silent-Frames ls (called ctx c) s t f silent
  ]

  in_mail :
      (ctx : Addr) (c : Callback) (s : State)
      → c ≢ connect
      → Serving env ls s
      → IsSendable env c
      → Ends (λ _ t. Frames ls (called ctx c) s t) (mdfilter env ctx c s)
  in_mail ctx c s other now fits = framed ctx c s other now λ l e.
      let (has, _) = Serving-Configured ctx l now e in
      Ends.weaken
        (Ends-with (callback-Relays env hosted.sound c s fits (Serving-priv ctx l now e) has)
          ((callback-Quiet env ctx c fits).keeps s s (refl, refl, refl)))
        λ _ t (d, (f, _, _)). record {
          single = λ one g. rw f (one g);
          others = λ g held apart. d.delivers.others g (apart ctx c l refl e);
        }

  greeted :
      (ctx : Addr) (s : State) (l : Link)
      → Serving env ls s
      → CanGreet l.cfg
      → link_of ctx ls ≡ some l
      → Ends (λ _ t. Frames ls (called ctx envfrom) s t) (mdfi_envfrom env ctx s)
  greeted ctx s l now (name, (named, few)) e =
      let (has, at) = Serving-Configured ctx l now e in
      let (_, (valid, socket)) = now.joined ctx l e in
      let (ip, addr, _) = valid.copy_server in
      let priv = Serving-priv ctx l now e in
      Ends.weaken
        (Ends-with
          (mdfi_envfrom-Greets env hosted.sound ctx l.session l.cfg name ip s l.socket
            (name-IsShort env hosted ls name few) named addr priv socket has)
          (envfrom-Opens env ctx l.session ip s addr priv socket has))
        λ _ t (d, (r, (_, opens, kernel, _))). record {
          single = opening-Single env fresh l.socket r s t kernel opens;
          others = λ g held apart. d.others g (
              greeting_apart env fresh g l.socket d.fd s d.reused d.kernel socket held
                (apart ctx envfrom l refl e));
        }

  callback-Frames :
      (ctx : Addr) (c : Callback) (s : State)
      → Serving env ls s
      → Allowed env ls (called ctx c)
      → Ends (λ _ t. Frames ls (called ctx c) s t) (mdfilter env ctx c s)
  callback-Frames ctx connect s now (free, few) =
      Ends.weaken (mdfi_connect-Opened env ctx s now.counted (rw (length-sets_of ls) few))
        λ stat t o. joined stat t o
    where
      joined :
          (stat : Sfsistat) (t : State)
          → Opened env ctx (sets_of ls) [] [] s stat t
          → Frames ls (called ctx connect) s t
      joined stat t (no_memory _ silent fds) = silent-Frames ls (called ctx connect) s t fds silent
      joined stat t (lost _ _ _ _ _ _ silent fds) =
          silent-Frames ls (called ctx connect) s t fds silent
      joined stat t (opened _ _ _ _ _ _ _ _ silent fds) =
          silent-Frames ls (called ctx connect) s t fds silent
  callback-Frames ctx envfrom s now ok =
      framed ctx envfrom s (λ e. cc) now λ l e. greeted ctx s l now (ok l e) e
  callback-Frames ctx abort s now ok =
      framed ctx abort s (λ e. cc) now
        λ l e.
          let (has, _) = Serving-Configured ctx l now e in
          Ends.weaken (mdfi_abort-Resets env ctx l.session l.cfg s has (Serving-priv ctx l now e))
            λ _ t d. erasing-Frames ls (called ctx abort) s t l.socket d.closed d.silent
  callback-Frames ctx close s now ok =
      framed ctx close s (λ e. cc) now
        λ l e.
          let (has, at) = Serving-Configured ctx l now e in
          let held : 0 < count has.set_at (sets_of ls) = rw at (link_of-set l ctx ls e) in
          Ends.weaken
            (mdfi_close-Closes env ctx l.session s has (Serving-priv ctx l now e) now.counted held)
            λ _ t d. closed l.socket t d.closed d.silent
    where
      closed :
          (fd : Fd) (t : State)
          → open_fds t.trace
            ≡ (if eq_ℤ fd minus_one then open_fds s.trace else erase_fd fd (open_fds s.trace))
          → ((g : Fd) → sent g t.trace ≡ sent g s.trace)
          → Frames ls (called ctx close) s t
      closed fd t fds silent = elim (Bool-cases (eq_ℤ fd minus_one)) [
        | inl unset ↦ silent-Frames ls (called ctx close) s t (rw unset at fds) silent
        | inr set ↦ erasing-Frames ls (called ctx close) s t fd (rw set at fds) silent
      ]
  callback-Frames ctx (envrcpt rcptto) s now fits =
      in_mail ctx (envrcpt rcptto) s (λ e. cc) now fits
  callback-Frames ctx (header headerf headerv) s now fits =
      in_mail ctx (header headerf headerv) s (λ e. cc) now fits
  callback-Frames ctx eoh s now fits = in_mail ctx eoh s (λ e. cc) now fits
  callback-Frames ctx (body bodyp) s now fits = in_mail ctx (body bodyp) s (λ e. cc) now fits
  callback-Frames ctx eom s now fits = in_mail ctx eom s (λ e. cc) now fits
  callback-Frames ctx data_command s now fits = in_mail ctx data_command s (λ e. cc) now fits

  -- Over a host that keeps the laws of `Hosted` and gives no descriptor that is open, in a state
  -- that stands for the table of the open connections: an event that may come leaves the
  -- descriptors single, and sends nothing on an open one that is not the socket of its connection.
  pub handle-Frames :
      (e : DaemonEvent) (s : State)
      → Serving env ls s
      → Allowed env ls e
      → Ends (λ _ t. Frames ls e s t) (handle env e s)
  handle-Frames (called ctx c) s now ok =
      Ends.feed-Ends _ (callback-Frames ctx c s now ok) λ _ t d. ends d
  handle-Frames hup s now ok =
      Ends.weaken
        (Ends-with (do_hup-Renews env hosted.laws hosted.prints s now.counted now.small)
          ((do_hup-Hushed env).keeps s s (refl, refl, refl, λ g. refl)))
        λ _ t (_, (f, _, _, silent)). silent-Frames ls hup s t f silent
