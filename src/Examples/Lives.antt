-- ===== src/Examples/Lives.antt =====
-- The theorems on the life of the daemon, at concrete inputs.
use madai.Base.{
  sym, ℕ, ◌+◌, ◌<◌, pos, negsuc, none, some, List, [], ◌∷◌, ◌≡◌, refl, arith, codes, ◌==◌,
  Bool-cases, inl, inr,
}
use mathlib.Core.Option.{some-injective}
use madai.Sys.{Event, State}
use madai.Sys.Ends.{Ends}
use madai.Libdg.Checks.{is_syslog_facility, is_ipaddr}
use madai.Config.Valid.{IsValid}
use madai.Milter.{connect, envfrom, envrcpt, header, eoh, body, eom, abort, close, data_command}
use madai.Daemon.{DaemonEvent, called, hup, handle, daemon, life}
use madai.Daemon.Table.{Link}
use madai.Daemon.Serving.{Serving}
use madai.Daemon.Order.{AllTimely}
use madai.Daemon.Contract.{Hosted, Turns}
use madai.Daemon.Turns.{handle-Turns}
use madai.Daemon.Sockets.{count_fd, FreshSockets}
use madai.Daemon.Wire.{InMails, Copied}
use madai.Daemon.Wire.Trace.{daemon-Copied}
use madai.Types.{Fd}
use madai.Smtp.Start.{open_fds}
use madai.Daemon.Life.{Life, Lives, life-Life}
use madai.Daemon.Order.{Begun}
use madai.Daemon.Kept.{StaysOpen, Keeps, NoLeak, daemon-Keeps, daemon-NoLeak}
use madai.Examples.{sum_of, blank_state, cfg, state_with, steady, steady-Sound}
use madai.Examples.Callbacks.{held_once}
use madai.Examples.Loading.{steady-HostLaws, steady-SmallFile}

steady-Hosted : Hosted steady
steady-Hosted = record {
  sound = steady-Sound;
  laws = steady-HostLaws;
  prints = refl;
  grants = λ t ctx p. refl;
  short = λ s. omega arith;
}

abbrev link : Link
link = record { ctx = 7; session = 1; set = 0; cfg = cfg; socket = pos 3 }

cfg-IsValid : IsValid steady cfg
unfolding is_syslog_facility is_ipaddr
cfg-IsValid = record {
  facility = (codes "local1", refl, refl);
  listen = (codes "127.0.0.1", refl, refl);
  listen_port = (20026, refl, omega arith);
  milter_timeout = (120, refl, omega arith);
  copy_server = (codes "10.0.0.2", refl, refl);
  copy_port = (25, refl, omega arith);
  copy_timeout = (30, refl, omega arith);
}

-- One connection, that of context 7, with the socket 3.
abbrev one_open : State
one_open = record (state_with (pos 1) (pos 3)) { trace = Event.opened (pos 3) ∷ [] }

one_open-Serving : Serving steady (link ∷ []) one_open
one_open-Serving = record {
  counted = held_once;
  distinct = (refl, refl, omega arith, tt);
  privs = λ c. ground arith;
  sessions = λ x. ground arith;
  fds = λ g. refl;
  joined = λ c l e. elim (Bool-cases (c == 7)) [
    | inl this ↦
        let same : some link ≡ some l = rw this at e in
        rw (sym (some-injective _ _ same)) (refl, (cfg-IsValid, inr refl))
    | inr other ↦ absurd (let gone = rw other at e in cc)
  ];
  current = (0, (cfg, (refl, (refl, cfg-IsValid))));
  small = steady-SmallFile _;
}

handle-Turns_example :
    Ends (λ _ t. Turns steady one_open hup (link ∷ []) t) (handle steady hup one_open)
handle-Turns_example =
    handle-Turns steady steady-Hosted (link ∷ []) hup one_open one_open-Serving tt

sum_of-above : (n : ℕ) (fds : List Fd) → sum_of fds < n → count_fd (pos n) fds ≡ 0
sum_of-above n [] above = refl
sum_of-above n (pos m ∷ fds) above = ground (arith, sum_of-above n fds)
sum_of-above n (negsuc m ∷ fds) above = ground (arith, sum_of-above n fds)

steady-FreshSockets : FreshSockets steady
steady-FreshSockets = λ t given. sum_of-above (3 + sum_of (open_fds t)) (open_fds t) (omega arith)

-- Mails and reloads over the connection, and another connection beside it.
abbrev busy : List DaemonEvent
busy =
    called 7 abort
    ∷ called 8 connect
    ∷ hup
    ∷ called 7 envfrom
    ∷ called 8 close
    ∷ hup
    ∷ called 7 eom
    ∷ []

one_open-Begun : Begun (7 ∷ []) (link ∷ [])
one_open-Begun = λ c none_open. ground arith

busy-StaysOpen : StaysOpen 7 busy
busy-StaysOpen = (
  λ e. cc,
  (
    λ e. cc,
    (
      λ e. cc,
      (
        λ e. cc,
        (
          λ e. cc,
          (
            λ e. cc,
            (
              λ e. cc,
              (λ e. cc, (λ e. cc, (λ e. cc, (λ e. cc, (λ e. cc, (λ e. cc, (λ e. cc, tt))))))),
            ),
          ),
        ),
      ),
    ),
  ),
)

daemon-Keeps_example :
    Lives steady (λ _ ms t. Keeps 7 link t) (link ∷ []) one_open busy (daemon steady busy one_open)
daemon-Keeps_example =
    daemon-Keeps steady steady-Hosted (7 ∷ []) (link ∷ []) busy one_open one_open-Serving
      one_open-Begun (omega arith) (omega arith) 7 link refl busy-StaysOpen

-- A second connection opens its own socket between the callbacks of the first.
abbrev beside : List DaemonEvent
beside =
    called 7 envfrom
    ∷ called 8 connect
    ∷ called 8 envfrom
    ∷ called 7 (envrcpt (codes "<a@example.com>"))
    ∷ called 8 data_command
    ∷ hup
    ∷ called 7 data_command
    ∷ called 8 abort
    ∷ called 8 close
    ∷ called 7 eom
    ∷ []

beside-InMails : InMails 7 beside
beside-InMails = ground arith

daemon-Copied_example :
    Lives steady
      (λ handled _ t. Copied steady (codes "example.com") 7 (pos 3) one_open handled t)
      (link ∷ [])
      one_open
      beside
      (daemon steady beside one_open)
daemon-Copied_example =
    daemon-Copied steady steady-Hosted steady-FreshSockets (7 ∷ []) (link ∷ []) beside one_open
      one_open-Serving (λ g. ground arith) one_open-Begun (omega arith) (omega arith)
      (codes "example.com") 7 link (λ e. cc) (omega arith) refl refl refl beside-InMails

-- The connection ends.
abbrev closing : List DaemonEvent
closing = hup ∷ called 7 close ∷ []

daemon-NoLeak_example :
    Lives steady
      (λ _ ms t. ms ≡ [] → NoLeak t)
      (link ∷ [])
      one_open
      closing
      (daemon steady closing one_open)
daemon-NoLeak_example =
    daemon-NoLeak steady steady-Hosted (7 ∷ []) (link ∷ []) closing one_open one_open-Serving
      one_open-Begun (omega arith) (omega arith)

-- The memory when the program begins.
abbrev first_state : State
first_state = record blank_state {
  mem = record blank_state.mem { sessions = λ x. none; privs = λ c. none };
}

-- Two connections at a time, and two reloads between them.
abbrev events : List DaemonEvent
events =
    called 7 connect
    ∷ called 7 envfrom
    ∷ called 7 (envrcpt (codes "<a@example.com>"))
    ∷ hup
    ∷ called 8 connect
    ∷ called 7 data_command
    ∷ called 7 (header (codes "Subject") (codes " one"))
    ∷ called 8 envfrom
    ∷ called 7 eoh
    ∷ called 7 (body (codes "text\r\n"))
    ∷ hup
    ∷ called 8 abort
    ∷ called 7 eom
    ∷ called 7 close
    ∷ called 8 close
    ∷ called 7 connect
    ∷ []

events-AllTimely : AllTimely steady [] events
events-AllTimely = (
  omega arith,
  (
    tt,
    (
      omega arith,
      (
        tt,
        (
          omega arith,
          (
            tt,
            (
              omega arith,
              (tt, (tt, ((omega arith, refl), (tt, (tt, (tt, (tt, (tt, (omega arith, tt))))))))),
            ),
          ),
        ),
      ),
    ),
  ),
)

life-Life_example :
    Life steady
      (codes "madai.conf")
      first_state
      events
      (life steady (codes "madai.conf") events first_state)
life-Life_example =
    life-Life steady steady-Hosted (codes "madai.conf") events first_state (λ p. refl) (λ c. refl)
      (λ x. refl) refl (omega arith) (steady-SmallFile (codes "madai.conf")) events-AllTimely
      (omega arith)
