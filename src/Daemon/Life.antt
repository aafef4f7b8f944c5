-- ===== src/Daemon/Life.antt =====
-- The life of the daemon: `startup_config`, and then any row of callbacks and reloads.
use madai.Base.{
  ◌∙◌, ◌+◌, ◌<◌, Option, none, some, List, [], ◌∷◌, ◌++◌, ◌≡◌, refl, ap, arith, inl, inr, length,
  Bytes,
}
use madai.Types.{Addr}
use madai.Sys.{Env, State, Run, ok}
use madai.Sys.Ends.{Ends, Ends-returns, Ends-ok, Ends-with}
use madai.Config.{int_max}
use madai.Milter.{envfrom}
use madai.Config.Load.{cfe, path_max, startup_config}
use madai.Config.Startup.{Blank, Starts, startup_config-Starts}
use madai.ThreadControl.Hushed.{Unheard, startup_config-Unheard}
use madai.Libdg.Reader.Valid.{SmallFile}
use madai.Smtp.Start.{open_fds}
use madai.Daemon.{DaemonEvent, called, handle, daemon, daemon_if, life}
use madai.Daemon.Table.{Link, link_of}
use madai.Daemon.Serving.{Serving, Current-HasCurrent}
use madai.Daemon.Contract.{Hosted, CanGreet, Allowed, Turn}
use madai.Daemon.Order.{AllTimely, Begun, opens, Allowed-cases, Turn-length, Turn-Begun}
use madai.Daemon.Turns.{handle-Turns}

-- A row of events as it runs: what each one does to the memory, and to the table.
pub data Plays (env : Env) : List Link → State → List DaemonEvent → List Link → State → Type 0 where
  still : {ls : List Link} {s : State} → Plays env ls s [] ls s
  turn :
      {e : DaemonEvent} {es : List DaemonEvent} {ls ms ns : List Link} {s t u : State}
      → Allowed env ls e
      → handle env e s ≡ ok tt t
      → Turn s e ls ms
      → Serving env ms t
      → Plays env ms t es ns u
      → Plays env ls s (e ∷ es) ns u

-- How a row of events ends from state `s` with the table `ls`, where `P` holds of the events that
-- were handled, the table and the state: with all of them handled, or at a MAIL FROM of a connection whose configuration has no
-- name for HELO. It goes on from there, and what that does is left open.
pub data Lives (env : Env) (P : List DaemonEvent → List Link → State → Type 0) (ls : List Link)
    (s : State) (es : List DaemonEvent) : Run (Unit {0}) → Type 0 where
  over :
      {ms : List Link} {t : State}
      → Plays env ls s es ms t
      → P es ms t
      → Lives env P ls s es (ok tt t)
  unnamed :
      {r : Run (Unit {0})} (before behind : List DaemonEvent) (ctx : Addr) (l : Link)
      {ms : List Link} {t : State}
      → es ≡ before ++ (called ctx envfrom ∷ behind)
      → Plays env ls s before ms t
      → P before ms t
      → link_of ctx ms ≡ some l
      → (CanGreet l.cfg → ⊥)
      → r ≡ daemon env (called ctx envfrom ∷ behind) t
      → Lives env P ls s es r

-- One event more before a row.
Lives-before :
    {env : Env} {ls ms : List Link} {s t : State} {e : DaemonEvent} {es : List DaemonEvent}
    {r : Run (Unit {0})}
    → Allowed env ls e
    → handle env e s ≡ ok tt t
    → Turn s e ls ms
    → Serving env ms t
    → Lives env (λ _. Serving env) ms t es r
    → Lives env (λ _. Serving env) ls s (e ∷ es) r
Lives-before ok_now runs turned now (over plays last) =
    over (turn ok_now runs turned now plays) last
Lives-before {e} ok_now runs turned now
      (unnamed before behind ctx l split plays last linked no_name goes) =
    unnamed (e ∷ before) behind ctx l (ap (λ fs. e ∷ fs) split) (turn ok_now runs turned now plays)
      last linked no_name goes

module _ (env : Env) (hosted : Hosted env) where
  daemon_step :
      (ls : List Link) (e : DaemonEvent) (es : List DaemonEvent) (s : State)
      → Serving env ls s
      → Allowed env ls e
      → ((ms : List Link) (t : State)
          → Turn s e ls ms
          → Serving env ms t
          → Lives env (λ _. Serving env) ms t es (daemon env es t))
      → Lives env (λ _. Serving env) ls s (e ∷ es) (daemon env (e ∷ es) s)
  unfolding daemon
  daemon_step ls e es s now ok_now rest =
      let (_, t, runs) = Ends-returns (handle-Turns env hosted ls e s now ok_now) in
      let (ms, (turned, after)) = Ends-ok (handle-Turns env hosted ls e s now ok_now) runs in
      rw runs (Lives-before ok_now runs turned after (rest ms t turned after))

  pub daemon-Lives :
      (open_ctxs : List Addr) (ls : List Link) (es : List DaemonEvent) (s : State)
      → Serving env ls s
      → Begun open_ctxs ls
      → AllTimely env open_ctxs es
      → length ls + length es < int_max
      → Lives env (λ _. Serving env) ls s es (daemon env es s)
  unfolding daemon
  daemon-Lives open_ctxs ls [] s now begun timely few = over still now
  daemon-Lives open_ctxs ls (e ∷ es) s now begun (first, timely) few =
      elim (Allowed-cases env open_ctxs ls e begun first (omega arith)) [
        | inr (ctx, (l, (is_from, (linked, cannot)))) ↦
            unnamed [] es ctx l (ap (λ f. f ∷ es) is_from) still now linked cannot
              (ap (λ f. daemon env (f ∷ es) s) is_from)
        | inl can ↦ daemon_step ls e es s now can λ ms t turned after.
            daemon-Lives (opens open_ctxs e) ms es t after
              (Turn-Begun s open_ctxs e s.mem.next ls ms now.distinct turned begun) timely
              (omega (arith, Turn-length s e ls ms turned))
      ]

-- How the daemon ends that is started with a file: it has no configuration, or it has started and
-- goes through its events.
pub data Life (env : Env) (filepath : Bytes) (s : State) (es : List DaemonEvent)
    : Run (Unit {0}) → Type 0 where
  no_config : {t : State} → Blank t.mem → Life env filepath s es (ok tt t)
  started :
      {r : Run (Unit {0})} {p : Addr} {t : State}
      → startup_config env filepath s ≡ ok (some p) t
      → Serving env [] t
      → Lives env (λ _. Serving env) [] t es r
      → Life env filepath s es r

-- The state with the path of the configuration file in it.
abbrev noting : Bytes → State → State
noting filepath s = record s { mem = record s.mem { config_filepath = filepath } }

module _ (env : Env) (hosted : Hosted env) where
  started-Serving :
      (s : State) (p : Addr) (t : State)
      → ((c : Addr) → s.mem.privs c ≡ none)
      → ((x : Addr) → s.mem.sessions x ≡ none)
      → open_fds t.trace ≡ []
      → SmallFile env (cfe env) t.mem.config_filepath
      → Starts env s.mem (some p) t
      → Serving env [] t
  started-Serving s p t no_priv no_session no_fd small ((cfg, valid, cur), counted, same) = record {
    counted = counted;
    distinct = tt;
    privs = λ c. rw same.privs (no_priv c);
    sessions = λ x. rw same.sessions (no_session x);
    fds = λ g. rw no_fd refl;
    joined = λ c l e. cc;
    current = Current-HasCurrent cur valid;
    small = small;
  }

  -- Over a host that keeps the laws of `Hosted`, where no set has been built, there is no
  -- session, no private data and no open descriptor, the path fits its array, the file is shorter
  -- than an `int` can count, and the file can be read or why it cannot be fits the 1024 bytes of
  -- `errbuf` with its path and stands for a format, and the callbacks come in time, with texts
  -- that fit, and the byte behind the copy of each body chunk is no one's, and fewer than 2^31 -
  -- 1 of them: the daemon ends without a configuration, or it starts and handles each of the
  -- callbacks and reloads, one after the other in any order, without a fault. After each one the
  -- sessions and the private data are those of the connections that are open, each set is held
  -- once for each of them that has it, no other set but the current one is there, the open
  -- descriptors are the sockets of these connections, and a valid configuration is current. The
  -- one exception is a MAIL FROM on a connection whose configuration has no `HeloDomain`, or one
  -- that does not fit `hostname`: there nothing is said of what follows.
  pub life-Life :
      (filepath : Bytes) (es : List DaemonEvent) (s : State)
      → Blank s.mem
      → ((c : Addr) → s.mem.privs c ≡ none)
      → ((x : Addr) → s.mem.sessions x ≡ none)
      → open_fds s.trace ≡ []
      → length filepath < path_max
      → SmallFile env (cfe env) filepath
      → AllTimely env [] es
      → length es < int_max
      → Life env filepath s es (life env filepath es s)
  unfolding life
  life-Life filepath es s blank no_priv no_session no_fd short small timely few =
      let (o, t, runs) = Ends-returns starts in
      let (st, (f, _, path, _)) = Ends-ok starts runs in rw runs (go o t runs (f ∙ no_fd) path st)
    where
      starts :
          Ends
            (λ o t. Starts env s.mem o t × Unheard (noting filepath s) t)
            (startup_config env filepath s)
      starts =
          Ends-with (startup_config-Starts env hosted.laws filepath s blank short small)
            (startup_config-Unheard env filepath s short)

      go :
          (o : Option Addr) (t : State)
          → startup_config env filepath s ≡ ok o t
          → open_fds t.trace ≡ []
          → t.mem.config_filepath ≡ filepath
          → Starts env s.mem o t
          → Life env filepath s es (daemon_if env es o t)
      go none t runs none_open path blank_now = no_config blank_now
      go (some p) t runs none_open path st =
          let now = started-Serving s p t no_priv no_session none_open (rw path small) st in
          started runs now
            (daemon-Lives env hosted [] [] es t now (λ c e. refl) timely (omega arith))
